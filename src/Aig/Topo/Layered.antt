-- ===== src/Aig/Topo/Layered.antt =====
-- src/aig.rs: the numbering of a graph against the fan-in of its pins.
use gem_macro_optimization.Base.{
  AllIn, ◌+◌, ℕ, ◌/◌, ◌≤◌, ◌<◌, List, [], Option, some, ok, ◌==◌, ◌≡◌, refl, inl, inr, Bool-cases,
  AllBelow, arith, length, lt→ltb,
}
use gem_macro_optimization.Macros.Inst.{MacroInst, for_each_comb_fanin, call_nz}
use gem_macro_optimization.Aig.{
  Aig, DriverType, and_gate, input_port, input_clock_flag, dff, sram, macro, tie0, driver,
}
use gem_macro_optimization.Aig.Meaning.{IsWellFormed, OperandsBefore}
use gem_macro_optimization.Aig.Topo.{get_macro, driver_fanin, dfs_fanin, is_staged_input}
use gem_macro_optimization.Aig.Topo.{roots, topo_traverse_generic}
use gem_macro_optimization.Aig.Topo.Order.{IsLayered, IsTopological, traverse-IsTopological}

-- A pin driven by a macro has an instance, whose outputs it comes after.
abbrev pub MacroBefore : Aig → ℕ → DriverType → Type 0
MacroBefore aig u (macro cellid slot) =
    (inst : MacroInst) × (get_macro aig.macros cellid ≡ some inst)
    × AllBelow u (for_each_comb_fanin inst slot)
MacroBefore aig u _ = Unit

AllBelow-call_nz :
    (u iv : ℕ) (rest : List ℕ) → iv / 2 < u → AllBelow u rest → AllBelow u (call_nz iv rest)
AllBelow-call_nz u iv rest lt below = elim (Bool-cases (iv / 2 == 0)) [
  | inl z ↦ rw z below
  | inr nz ↦ rw nz (lt, below)
]

driver_fanin-AllBelow :
    (aig : Aig) (u : ℕ) (d : DriverType)
    → OperandsBefore u d
    → MacroBefore aig u d
    → (fanin : List ℕ) × (driver_fanin aig d ≡ ok fanin) × AllBelow u fanin
unfolding driver_fanin
driver_fanin-AllBelow aig u (and_gate a b) (two, le, lt) m =
    (_, refl, AllBelow-call_nz u a (call_nz b []) (omega arith) (AllBelow-call_nz u b [] lt tt))
driver_fanin-AllBelow aig u (macro cellid slot) o (inst, found, below) =
    (for_each_comb_fanin inst slot, rw (found, driver_fanin) refl, below)
driver_fanin-AllBelow aig u (input_port i) o m = ([], refl, tt)
driver_fanin-AllBelow aig u (input_clock_flag i e) o m = ([], refl, tt)
driver_fanin-AllBelow aig u (dff i) o m = ([], refl, tt)
driver_fanin-AllBelow aig u (sram i) o m = ([], refl, tt)
driver_fanin-AllBelow aig u tie0 o m = ([], refl, tt)

pub IsWellFormed-IsLayered :
    (aig : Aig) (pi : Option (List ℕ))
    → IsWellFormed aig
    → ((u : ℕ) → u ≤ aig.num_aigpins → MacroBefore aig u (driver aig u))
    → IsLayered aig pi
unfolding dfs_fanin
IsWellFormed-IsLayered aig pi wf macros u le = elim (Bool-cases (is_staged_input pi u)) [
  | inl staged ↦ rw staged ([], refl, tt)
  | inr inner ↦
      let sized = wf.sized in
      let inside = lt→ltb u (length aig.drivers) (omega arith) in
      rw (inner, inside)
        (driver_fanin-AllBelow aig u (driver aig u) (wf.ordered u le) (macros u le))
]

-- On a well-formed graph in which a pin driven by a macro has an instance and comes after the
-- fan-in of the macro's output, the traversal from pins of the graph (from all of them, if none are
-- given) runs to its end within the fuel. It returns an order in which every pin stands once and,
-- unless it is an input of the stage, after the pins that its driver reads in the same cycle, and
-- which has every pin that was asked for.
pub topo_traverse_generic-IsTopological :
    (aig : Aig) (endpoints pi : Option (List ℕ))
    → IsWellFormed aig
    → ((u : ℕ) → u ≤ aig.num_aigpins → MacroBefore aig u (driver aig u))
    → AllBelow (aig.num_aigpins + 1) (roots aig endpoints)
    → (order : List ℕ) × (topo_traverse_generic aig endpoints pi ≡ ok order)
      × IsTopological aig pi order
      × AllIn order (roots aig endpoints)
topo_traverse_generic-IsTopological aig endpoints pi wf macros =
    traverse-IsTopological aig endpoints pi (IsWellFormed-IsLayered aig pi wf macros)
