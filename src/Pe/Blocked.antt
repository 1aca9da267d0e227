-- ===== src/Pe/Blocked.antt =====
-- src/pe.rs: the targets that have to wait for a phase, and the leaves that they read. The traversal
-- is that of src/aig.rs, and a driver that is indexed out of range is a panic.
pub mod Pins
pub mod Exact
use gem_macro_optimization.Base.{
  ℕ, ◌/◌, Bool, true, false, ◌||◌, List, [], ◌∷◌, some, none, Outcome, ok, ◌>>=◌, unwrap,
  if◌then◌else◌, get_elem?, contains, set_insert,
}
use gem_macro_optimization.Macros.Inst.{call_nz, for_each_comb_fanin}
use gem_macro_optimization.Aig.{Aig, DriverType, and_gate, macro}
use gem_macro_optimization.Aig.Topo.{get_macro, topo_traverse_generic}

-- `if taint.contains(&i) { t = true }`, for each of some pins.
unfoldable pub any_tainted : List ℕ → List ℕ → Bool
any_tainted taint [] = false
any_tainted taint (pin ∷ pins) = contains taint pin || any_tainted taint pins

-- The pins that are looked at for a driver.
unfoldable pub read_pins : Aig → DriverType → List ℕ
unfolding for_each_comb_fanin
read_pins aig (and_gate a b) = call_nz a (call_nz b [])
read_pins aig (macro cellid slot) = elim (get_macro aig.macros cellid) [
  | none ↦ []
  | some m ↦ for_each_comb_fanin m slot
]
read_pins aig _ = []

-- One pin of the order.
unfoldable pub taint_round : Aig → List ℕ → List ℕ → List ℕ → ℕ → Outcome (List ℕ)
unfolding any_tainted read_pins
taint_round aig realized_inputs pending taint pin =
    if contains pending pin
    then ok (set_insert taint pin)
    else if contains realized_inputs pin
    then ok taint
    else unwrap (get_elem? aig.drivers pin) >>= λ driver.
        ok (if any_tainted taint (read_pins aig driver) then set_insert taint pin else taint)

unfoldable pub taint_sweep : Aig → List ℕ → List ℕ → List ℕ → List ℕ → Outcome (List ℕ)
unfolding taint_round
taint_sweep aig realized_inputs pending taint [] = ok taint
taint_sweep aig realized_inputs pending taint (pin ∷ order) =
    taint_round aig realized_inputs pending taint pin >>= λ taint'.
    taint_sweep aig realized_inputs pending taint' order

-- `targets.iter().copied().filter(|p| set.contains(p)).collect()`
unfoldable pub filter_in : List ℕ → List ℕ → List ℕ
filter_in set [] = []
filter_in set (p ∷ ps) = let rest = filter_in set ps in if contains set p then p ∷ rest else rest

unfoldable pub targets_blocked_by_pending : Aig → List ℕ → List ℕ → List ℕ → Outcome (List ℕ)
unfolding taint_sweep filter_in topo_traverse_generic
targets_blocked_by_pending aig targets realized_inputs pending = elim pending [
  | [] ↦ ok []
  | p ∷ ps ↦ topo_traverse_generic aig (some targets) (some realized_inputs) >>= λ order.
      taint_sweep aig realized_inputs (p ∷ ps) [] order >>= λ taint. ok (filter_in taint targets)
]

unfoldable pub realized_leaves_of : Aig → List ℕ → List ℕ → Outcome (List ℕ)
unfolding filter_in topo_traverse_generic
realized_leaves_of aig targets realized_inputs = elim targets [
  | [] ↦ ok []
  | t ∷ ts ↦ topo_traverse_generic aig (some (t ∷ ts)) (some realized_inputs) >>= λ order.
      ok (filter_in realized_inputs order)
]
