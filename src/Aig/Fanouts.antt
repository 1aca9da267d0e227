-- ===== src/Aig/Fanouts.antt =====
-- src/aig.rs: the fan-outs of `from_netlistdb`, a counting sort of the edges by their source. An index
-- out of range and an overflow of `- 1` are panics.
pub mod Windows
pub mod Edges
pub mod Prefix
pub mod Scatter
pub mod Readers
use gem_macro_optimization.Base.{
  ℕ, ◌+◌, List, [], ◌∷◌, ◌++◌, Option, none, some, Outcome, ok, ◌>>=◌, unwrap, length, get_elem?,
  replicate, map,
}
use gem_macro_optimization.Base.Stores.{store, checked_sub}
use gem_macro_optimization.Macros.Inst.{for_each_comb_fanin, call_nz}
use gem_macro_optimization.Aig.{Aig, DriverType, and_gate, macro}
use gem_macro_optimization.Aig.Topo.{get_macro}

-- The pins that the calls of `f` get for a driver, in order.
unfoldable pub for_each_fanin : Aig → DriverType → List ℕ
unfolding for_each_comb_fanin
for_each_fanin aig (and_gate a b) = call_nz a (call_nz b [])
for_each_fanin aig (macro cellid slot) = elim (get_macro aig.macros cellid) [
  | none ↦ []
  | some m ↦ for_each_comb_fanin m slot
]
for_each_fanin aig _ = []

-- The calls `f(src)` of the loop over the drivers from pin `i` on, as the pairs `(src, i)`.
unfoldable pub edges_from : Aig → ℕ → List DriverType → List (ℕ × ℕ)
unfolding for_each_fanin
edges_from aig i [] = []
edges_from aig i (d ∷ drivers) =
    map (λ src. (src, i)) (for_each_fanin aig d) ++ edges_from aig (i + 1) drivers

-- `fanouts_start[src] += 1` for every edge.
unfoldable pub count_edges : List (ℕ × ℕ) → List ℕ → Outcome (List ℕ)
unfolding store
count_edges [] start = ok start
count_edges ((src, _) ∷ edges) start = unwrap (get_elem? start src) >>= λ n.
    store start src (n + 1) >>= λ start'. count_edges edges start'

-- `fanouts_start[i] += fanouts_start[i - 1]`, where `prev` is the element before the list.
unfoldable pub accumulate : ℕ → List ℕ → List ℕ
accumulate prev [] = []
accumulate prev (n ∷ start) = (n + prev) ∷ accumulate (n + prev) start

-- The second loop over the edges, which fills `fanouts`.
unfoldable pub scatter : List (ℕ × ℕ) → List ℕ × List ℕ → Outcome (List ℕ × List ℕ)
unfolding store checked_sub
scatter [] s = ok s
scatter ((src, i) ∷ edges) (start, fanouts) = unwrap (get_elem? start src) >>= λ n.
    checked_sub n 1 >>= λ st. store start src st >>= λ start'.
    store fanouts st i >>= λ fanouts'. scatter edges (start', fanouts')

-- The graph with its `fanouts_start` and `fanouts`.
unfoldable pub build_fanouts : Aig → Outcome Aig
unfolding edges_from count_edges accumulate scatter
build_fanouts aig =
    let edges = edges_from aig 0 aig.drivers in
    count_edges edges (replicate (aig.num_aigpins + 2) 0) >>= λ counted.
    let start = accumulate 0 counted in
    unwrap (get_elem? start (aig.num_aigpins + 1)) >>= λ n.
    scatter edges (start, replicate n 0) >>= λ s.
    ok (record aig { fanouts_start = s.0; fanouts = s.1 })
