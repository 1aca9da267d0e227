-- ===== src/Aig/Topo/Driver.antt =====
-- src/aig.rs: the pins that a driver reads in the same cycle, and those that `dfs_topo` visits.
use mathlib.Core.Path.{subst}
use gem_macro_optimization.Base.{
  some, ◌==◌, panic, ◌/◌, ◌≢◌, length, ℕ, true, false, List, [], Option, Outcome, ok, ◌≡◌, sym, ap,
  inl, inr, Bool-cases, ltb, contains, AllIn, arith,
}
use gem_macro_optimization.Macros.Inst.{MacroInst, for_each_comb_fanin, call_nz}
use gem_macro_optimization.Aig.{
  Aig, DriverType, and_gate, input_port, input_clock_flag, dff, sram, macro, tie0, driver,
}
use gem_macro_optimization.Aig.Topo.{get_macro, is_staged_input, driver_fanin}
use gem_macro_optimization.Aig.Topo.{dfs_fanin}

-- The pins that a driver reads in the same cycle stand in the list.
abbrev pub DriverIn : Aig → List ℕ → DriverType → Type 0
DriverIn aig xs (and_gate a b) =
    (a / 2 ≢ 0 → contains xs (a / 2) ≡ true) × (b / 2 ≢ 0 → contains xs (b / 2) ≡ true)
DriverIn aig xs (macro cellid slot) =
    (inst : MacroInst)
    → get_macro aig.macros cellid ≡ some inst
    → AllIn xs (for_each_comb_fanin inst slot)
DriverIn aig xs _ = Unit

abbrev from_ok : Outcome (List ℕ) → List ℕ
from_ok (ok xs) = xs
from_ok panic = []

panic≢ok : (xs : List ℕ) → panic ≢ ok xs
panic≢ok xs e = ground arith

AllIn-call_nz :
    (xs rest : List ℕ) (iv : ℕ)
    → AllIn xs (call_nz iv rest)
    → (iv / 2 ≢ 0 → contains xs (iv / 2) ≡ true) × AllIn xs rest
AllIn-call_nz xs rest iv h = elim (Bool-cases (iv / 2 == 0)) [
  | inl z ↦ (λ nz. absurd (nz (ground arith)), rw z at h)
  | inr nz ↦ (λ _. (rw nz at h).0, (rw nz at h).1)
]

driver_fanin-DriverIn :
    (aig : Aig) (xs fanin : List ℕ) (d : DriverType)
    → driver_fanin aig d ≡ ok fanin
    → AllIn xs fanin
    → DriverIn aig xs d
unfolding driver_fanin
driver_fanin-DriverIn aig xs fanin (and_gate a b) e h =
    let both = subst (λ (t : List ℕ). AllIn xs t) (sym (ap from_ok e)) h in
    let (first, rest) = AllIn-call_nz xs (call_nz b []) a both in
    (first, (AllIn-call_nz xs [] b rest).0)
driver_fanin-DriverIn aig xs fanin (macro cellid slot) e h = λ inst found.
    subst (λ (t : List ℕ). AllIn xs t) (sym (ap from_ok (rw (driver_fanin, found) at e))) h
driver_fanin-DriverIn aig xs fanin (input_port i) e h = tt
driver_fanin-DriverIn aig xs fanin (input_clock_flag i c) e h = tt
driver_fanin-DriverIn aig xs fanin (dff i) e h = tt
driver_fanin-DriverIn aig xs fanin (sram i) e h = tt
driver_fanin-DriverIn aig xs fanin tie0 e h = tt

pub dfs_fanin-DriverIn :
    (aig : Aig) (pi : Option (List ℕ)) (xs fanin : List ℕ) (u : ℕ)
    → dfs_fanin aig pi u ≡ ok fanin
    → AllIn xs fanin
    → is_staged_input pi u ≡ false
    → DriverIn aig xs (driver aig u)
unfolding dfs_fanin
dfs_fanin-DriverIn aig pi xs fanin u e h inner = elim (Bool-cases (ltb u (length aig.drivers))) [
  | inl inside ↦
      driver_fanin-DriverIn aig xs fanin (driver aig u) (rw (dfs_fanin, inner, inside) at e) h
  | inr outside ↦ absurd (panic≢ok fanin (rw (dfs_fanin, inner, outside) at e))
]
