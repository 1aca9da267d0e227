-- ===== src/Pe/Blocked/Pins.antt =====
-- src/pe.rs: the pins that `targets_blocked_by_pending` looks up for a driver.
use gem_macro_optimization.Base.{
  ℕ, zero, suc, ◌≢◌, ◌/◌, ◌<◌, Bool, true, false, List, [], ◌∷◌, some, ◌==◌, ==_iff, length,
  get_elem?, get_or, contains, AllIn, ◌≡◌, refl, sym, ap, ◌∙◌, inl, inr, Bool-cases, Option-cases,
  arith,
}
use gem_macro_optimization.Macros.Fanin.{comb_fanin_of_output}
use gem_macro_optimization.Macros.Inst.{call_nz, for_each_comb_fanin}
use gem_macro_optimization.Base.{none≢some, some-injective, ◌↔◌}
use gem_macro_optimization.Aig.Reads.{ReadsPin, contains-calls, operands_iff}
use gem_macro_optimization.Aig.{
  Aig, DriverType, and_gate, input_port, input_clock_flag, dff, sram, macro, tie0,
}
use gem_macro_optimization.Aig.Topo.{get_macro}
use gem_macro_optimization.Aig.Topo.Driver.{DriverIn}
use gem_macro_optimization.Pe.Blocked.{any_tainted, read_pins}

pub true≢false : ◌≡◌ {A = Bool} true false → ⊥
true≢false e = cc

pub any_tainted-finds :
    (taint pins : List ℕ)
    → any_tainted taint pins ≡ true
    → (q : ℕ) × (contains pins q ≡ true) × (contains taint q ≡ true)
unfolding any_tainted
any_tainted-finds taint [] h = absurd (true≢false (sym h))
any_tainted-finds taint (pin ∷ pins) h = elim (Bool-cases (contains taint pin)) [
  | inl here ↦ (pin, ground arith, here)
  | inr later ↦
      let (q, listed, tainted) = any_tainted-finds taint pins (rw (any_tainted, later) at h) in
      (q, ground arith, tainted)
]

pub any_tainted-true :
    (taint pins : List ℕ) (q : ℕ)
    → contains pins q ≡ true
    → contains taint q ≡ true
    → any_tainted taint pins ≡ true
unfolding any_tainted
any_tainted-true taint [] q listed tainted = cc
any_tainted-true taint (pin ∷ pins) q listed tainted = elim (Bool-cases (pin == q)) [
  | inl same ↦
      let e : pin ≡ q = (==_iff pin q).0 same in
      let here : contains taint pin ≡ true = ap (contains taint) e ∙ tainted in rw here refl
  | inr other ↦
      let rest = any_tainted-true taint pins q (rw other at listed) tainted in ground arith
]

pub AllIn-call_nz :
    (xs rest : List ℕ) (iv : ℕ)
    → (iv / 2 ≢ 0 → contains xs (iv / 2) ≡ true)
    → AllIn xs rest
    → AllIn xs (call_nz iv rest)
AllIn-call_nz xs rest iv first all = elim (Bool-cases (iv / 2 == 0)) [
  | inl z ↦ rw z all
  | inr nz ↦ rw nz (first (λ e. true≢false (sym ((==_iff (iv / 2) 0).1 e) ∙ nz)), all)
]

pub read_pins-AllIn :
    (aig : Aig) (xs : List ℕ) (d : DriverType) → DriverIn aig xs d → AllIn xs (read_pins aig d)
unfolding read_pins
read_pins-AllIn aig xs (and_gate a b) (first, second) =
    AllIn-call_nz xs (call_nz b []) a first (AllIn-call_nz xs [] b second tt)
read_pins-AllIn aig xs (macro cellid slot) h = elim (Option-cases (get_macro aig.macros cellid)) [
  | inl missing ↦ rw (read_pins, missing) tt
  | inr (m, found) ↦ rw (read_pins, found) (h m found)
]
read_pins-AllIn aig xs (input_port i) h = tt
read_pins-AllIn aig xs (input_clock_flag i c) h = tt
read_pins-AllIn aig xs (dff i) h = tt
read_pins-AllIn aig xs (sram i) h = tt
read_pins-AllIn aig xs tie0 h = tt

-- The pins that are looked up are those that the driver reads.
pub read_pins_iff :
    (aig : Aig) (d : DriverType) (p : ℕ) → (contains (read_pins aig d) p ≡ true) ↔ ReadsPin aig d p
unfolding read_pins for_each_comb_fanin
read_pins_iff aig (and_gate a b) p = operands_iff aig a b p
read_pins_iff aig (macro cellid slot) p = elim (Option-cases (get_macro aig.macros cellid)) [
  | inl missing ↦
      rw (read_pins, missing)
        (λ h. absurd (true≢false (sym h)), λ h. let (m, found, _) = h.1 in absurd (none≢some found))
  | inr (m, found) ↦
      let pins = contains-calls m.inputs (comb_fanin_of_output m.kind slot) p in
      rw (read_pins, found)
        (
          λ h. let (nz, named) = pins.0 h in (nz, (m, refl, named)),
          λ h.
              let (n, found_n, named) = h.1 in
              let same : m ≡ n = some-injective found_n in pins.1 (h.0, rw (← same) at named),
        )
]
read_pins_iff aig (input_port i) p = (λ h. true≢false (sym h), λ h. absurd h)
read_pins_iff aig (input_clock_flag i c) p = (λ h. true≢false (sym h), λ h. absurd h)
read_pins_iff aig (dff i) p = (λ h. true≢false (sym h), λ h. absurd h)
read_pins_iff aig (sram i) p = (λ h. true≢false (sym h), λ h. absurd h)
read_pins_iff aig tie0 p = (λ h. true≢false (sym h), λ h. absurd h)

pub get_elem?-driver :
    (ds : List DriverType) (u : ℕ) → u < length ds → get_elem? ds u ≡ some (get_or ds u tie0)
get_elem?-driver [] u h = absurd (omega arith)
get_elem?-driver (d ∷ ds) zero h = refl
get_elem?-driver (d ∷ ds) (suc u) h = get_elem?-driver ds u (omega arith)
