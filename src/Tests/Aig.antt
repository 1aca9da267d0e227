-- ===== src/Tests/Aig.antt =====
-- Tests of the construction of the graph.
use gem_macro_optimization.Aig.{ordered_gate}
use gem_macro_optimization.Aig.Sharing.{add_and_gate-shared}
use gem_macro_optimization.Base.{ℕ, ◌+◌, ◌≤◌, ok, ◌≡◌, arith}
use gem_macro_optimization.Aig.{Aig, input_port, add_aigpin, add_and_gate, empty_aig, driver}
use gem_macro_optimization.Aig.Meaning.{IsWellFormed}
use gem_macro_optimization.Aig.Gate.{IsGate, IsLiteral, add_and_gate-IsGate}
use gem_macro_optimization.Aig.{cached}
use gem_macro_optimization.Base.{zero, suc, refl, List, [], ◌∷◌, none, some, AllIn}
use gem_macro_optimization.Aig.Insert.{with_gate, with_gate-IsWellFormed}
use gem_macro_optimization.Aig.Topo.{topo_traverse_generic, dfs_topo, dfs_fanin, driver_fanin}
use gem_macro_optimization.Aig.Topo.Order.{IsTopological}
use gem_macro_optimization.Aig.Topo.Layered.{MacroBefore, topo_traverse_generic-IsTopological}
use gem_macro_optimization.Aig.Fanouts.{
  build_fanouts, for_each_fanin, edges_from, count_edges, accumulate, scatter,
}
use gem_macro_optimization.Aig.Reads.{reads_of}
use gem_macro_optimization.Aig.Fanouts.Readers.{AreFanouts, build_fanouts-AreFanouts}
use gem_macro_optimization.Base.{◌<◌, length}
use gem_macro_optimization.Base.Stores.{store, checked_sub}
use gem_macro_optimization.Aig.Pins.{empty_aig-IsWellFormed, add_aigpin-IsWellFormed}

abbrev one_input : Aig
one_input = (add_aigpin (empty_aig 4) (input_port 5)).1

abbrev two_inputs : Aig
two_inputs = (add_aigpin one_input (input_port 6)).1

one_input-IsWellFormed : IsWellFormed one_input
one_input-IsWellFormed =
    (add_aigpin-IsWellFormed (empty_aig 4) (input_port 5) (empty_aig-IsWellFormed 4) tt).0

add_aigpin-IsWellFormed_example :
    IsWellFormed two_inputs
    × ((add_aigpin one_input (input_port 6)).0 ≡ one_input.num_aigpins + 1)
    × (driver two_inputs (one_input.num_aigpins + 1) ≡ input_port 6)
    × ((i : ℕ) → i ≤ one_input.num_aigpins → driver two_inputs i ≡ driver one_input i)
add_aigpin-IsWellFormed_example =
    add_aigpin-IsWellFormed one_input (input_port 6) one_input-IsWellFormed tt

two_inputs-IsWellFormed : IsWellFormed two_inputs
two_inputs-IsWellFormed =
    (add_aigpin-IsWellFormed one_input (input_port 6) one_input-IsWellFormed tt).0

IsLiteral-4 : IsLiteral two_inputs 4
unfolding add_aigpin empty_aig
IsLiteral-4 = (omega arith, omega arith)

IsLiteral-3 : IsLiteral two_inputs 3
unfolding add_aigpin empty_aig
IsLiteral-3 = (omega arith, omega arith)

-- Pin 2, and pin 1 inverted.
add_and_gate-IsGate_example :
    (r : ℕ × Aig) × (add_and_gate two_inputs 4 3 ≡ ok r) × IsGate two_inputs 4 3 r.0 r.1
add_and_gate-IsGate_example =
    add_and_gate-IsGate two_inputs 4 3 two_inputs-IsWellFormed IsLiteral-4 IsLiteral-3

-- Pin 3 is the conjunction of pin 1 inverted and pin 2.
abbrev pub one_gate : Aig
one_gate = with_gate two_inputs 3 4

pub one_gate-IsWellFormed : IsWellFormed one_gate
unfolding add_aigpin empty_aig cached
one_gate-IsWellFormed =
    with_gate-IsWellFormed two_inputs 3 4 two_inputs-IsWellFormed (omega arith) (omega arith)
      (omega arith) refl

pub one_gate-MacroBefore :
    (u : ℕ) → u ≤ one_gate.num_aigpins → MacroBefore one_gate u (driver one_gate u)
unfolding add_aigpin empty_aig
one_gate-MacroBefore zero le = tt
one_gate-MacroBefore (suc zero) le = tt
one_gate-MacroBefore (suc (suc zero)) le = tt
one_gate-MacroBefore (suc (suc (suc zero))) le = tt
one_gate-MacroBefore (suc (suc (suc (suc u)))) le = absurd (omega arith)

traversal_runs : topo_traverse_generic one_gate (some (3 ∷ [])) none ≡ ok (1 ∷ 2 ∷ 3 ∷ [])
unfolding topo_traverse_generic dfs_topo dfs_fanin driver_fanin add_aigpin empty_aig
traversal_runs = refl

topo_traverse_generic-IsTopological_example :
    (order : List ℕ) × (topo_traverse_generic one_gate (some (3 ∷ [])) none ≡ ok order)
    × IsTopological one_gate none order
    × AllIn order (3 ∷ [])
unfolding add_aigpin empty_aig
topo_traverse_generic-IsTopological_example =
    topo_traverse_generic-IsTopological one_gate (some (3 ∷ [])) none one_gate-IsWellFormed
      one_gate-MacroBefore (omega arith, tt)

add_and_gate-shared_example : add_and_gate one_gate 4 3 ≡ ok (6, one_gate)
unfolding add_and_gate ordered_gate cached add_aigpin empty_aig
add_and_gate-shared_example = add_and_gate-shared two_inputs 3 4 (6, one_gate) refl

fanouts_run :
    build_fanouts one_gate
    ≡ ok (record one_gate { fanouts_start = 0 ∷ 0 ∷ 1 ∷ 2 ∷ 2 ∷ []; fanouts = 3 ∷ 3 ∷ [] })
unfolding build_fanouts for_each_fanin edges_from count_edges accumulate scatter store checked_sub
    add_aigpin empty_aig
fanouts_run = refl

one_gate-reads :
    (u : ℕ)
    → u < length one_gate.drivers
    → (s : ℕ) → 0 < reads_of one_gate s (driver one_gate u)
    → s ≤ one_gate.num_aigpins
unfolding reads_of add_aigpin empty_aig
one_gate-reads zero lt s some_read = absurd (omega arith)
one_gate-reads (suc zero) lt s some_read = absurd (omega arith)
one_gate-reads (suc (suc zero)) lt s some_read = absurd (omega arith)
one_gate-reads (suc (suc (suc zero))) lt s some_read = ground arith
one_gate-reads (suc (suc (suc (suc u)))) lt s some_read = absurd (omega arith)

build_fanouts-AreFanouts_example :
    (aig' : Aig) × (build_fanouts one_gate ≡ ok aig') × AreFanouts one_gate aig'
build_fanouts-AreFanouts_example = build_fanouts-AreFanouts one_gate one_gate-reads
