-- ===== src/Aig/Topo.antt =====
-- src/aig.rs: `topo_traverse_generic`. The set `vis` is a list that is asked for its members only.
-- The recursion stands on fuel: the open calls have different pins, so there are at most
-- `num_aigpins + 1` of them and one that returns at once; out of fuel is a panic.
pub mod Driver
pub mod Order
pub mod Layered
use gem_macro_optimization.Base.{
  ℕ, zero, suc, ◌+◌, ◌/◌, Bool, true, false, List, [], ◌∷◌, ◌++◌, Option, none, some, Outcome, ok,
  panic, ◌>>=◌, ◌==◌, ltb, if◌then◌else◌, contains, length, range_from,
}
use gem_macro_optimization.Macros.Inst.{MacroInst, for_each_comb_fanin, call_nz}
use gem_macro_optimization.Aig.{
  DriverType, and_gate, input_port, input_clock_flag, dff, sram, macro, tie0, Aig, driver,
}

-- `macros.get(&cellid)`
abbrev pub get_macro : List (ℕ × MacroInst) → ℕ → Option MacroInst
get_macro [] cellid = none
get_macro ((c, m) ∷ rest) cellid = if c == cellid then some m else get_macro rest cellid

-- `is_primary_input.map(|s| s.contains(&u)) == Some(true)`
abbrev pub is_staged_input : Option (List ℕ) → ℕ → Bool
is_staged_input none u = false
is_staged_input (some s) u = contains s u

-- The pins that a driver makes `dfs_topo` recurse on, in order.
unfoldable pub driver_fanin : Aig → DriverType → Outcome (List ℕ)
unfolding for_each_comb_fanin
driver_fanin aig (and_gate a b) = ok (call_nz a (call_nz b []))
driver_fanin aig (macro cellid slot) = elim (get_macro aig.macros cellid) [
  | none ↦ panic
  | some inst ↦ ok (for_each_comb_fanin inst slot)
]
driver_fanin aig _ = ok []

unfoldable pub dfs_fanin : Aig → Option (List ℕ) → ℕ → Outcome (List ℕ)
unfolding driver_fanin
dfs_fanin aig is_primary_input u =
    if is_staged_input is_primary_input u
    then ok []
    else if ltb u (length aig.drivers)
    then driver_fanin aig (driver aig u)
    else panic

pub record Dfs : Type 0 where
  pub vis : List ℕ
  pub ret : List ℕ

-- A loop of calls.
abbrev pub each : (ℕ → Dfs → Outcome Dfs) → List ℕ → Dfs → Outcome Dfs
each call [] s = ok s
each call (u ∷ us) s = call u s >>= λ s'. each call us s'

unfoldable pub dfs_topo : Aig → Option (List ℕ) → ℕ → ℕ → Dfs → Outcome Dfs
unfolding dfs_fanin
dfs_topo aig pi zero u s = panic
dfs_topo aig pi (suc fuel) u s = elim (contains s.vis u) [
  | true ↦ ok s
  | false ↦ dfs_fanin aig pi u >>= λ fanin.
      each (dfs_topo aig pi fuel) fanin (record s { vis = u ∷ s.vis }) >>= λ s'.
      ok (record s' { ret = s'.ret ++ u ∷ [] })
]

-- The pins that the traversal starts from.
abbrev pub roots : Aig → Option (List ℕ) → List ℕ
roots aig none = range_from 1 aig.num_aigpins
roots aig (some endpoints) = endpoints

unfoldable pub topo_traverse_generic : Aig → Option (List ℕ) → Option (List ℕ) → Outcome (List ℕ)
unfolding dfs_topo
topo_traverse_generic aig endpoints pi =
    each (dfs_topo aig pi (aig.num_aigpins + 2)) (roots aig endpoints)
      (record { vis = []; ret = [] })
    >>= λ s. ok s.ret
