-- ===== src/Pe/Waves/Chains.antt =====
-- src/pe.rs: the end of `order_macro_waves`, which walks the carry chains and packs them into waves.
pub mod Placed
pub mod Packed
pub mod Followed
pub mod Rising
pub mod Once
pub mod Covered
use gem_macro_optimization.Base.{
  ℕ, zero, suc, ◌+◌, ◌-◌, Bool, true, false, not, ◌&&◌, ◌||◌, List, [], ◌∷◌, ◌++◌, Option, none,
  some, Outcome, ok, ◌>>=◌, unwrap, ltb, ◌==◌, if◌then◌else◌, length, get_or, contains, set_extend,
}
use gem_macro_optimization.Base.Maps.{map_get}
use gem_macro_optimization.Macros.Encode.{macro_max_lanes}
use gem_macro_optimization.Aig.{Aig, usize_max}
use gem_macro_optimization.Aig.Topo.{topo_traverse_generic}
use gem_macro_optimization.Pe.Waves.{depth_of, Depths, Links, cone_macros, depth_sweep, link_chains}
use gem_macro_optimization.Pe.Waves.Relax.{insert_ones, raise_loop}

-- The links after `cur` in a chain that has room for `n` more.
unfoldable pub chain_from : List (ℕ × ℕ) → ℕ → ℕ → List ℕ
chain_from succ zero cur = []
chain_from succ (suc n) cur = elim (map_get succ cur) [
  | none ↦ []
  | some next ↦ next ∷ chain_from succ n next
]

-- The same, up to a link that is placed.
unfoldable pub unplaced_from : List (ℕ × ℕ) → List ℕ → ℕ → ℕ → List ℕ
unplaced_from succ placed zero cur = []
unplaced_from succ placed (suc n) cur = elim (map_get succ cur) [
  | none ↦ []
  | some next ↦ elim (contains placed next) [
    | true ↦ []
    | false ↦ next ∷ unplaced_from succ placed n next
  ]
]

-- The chains from the macros that continue none.
unfoldable pub head_chains : Links → List (ℕ × ℕ) → List (ℕ × List ℕ) → List ℕ → List (ℕ × List ℕ)
unfolding chain_from
head_chains l depth chains [] = chains
head_chains l depth chains (macro_i ∷ macros) =
    head_chains l depth
      (if contains l.has_pred macro_i
        then chains
        else chains
          ++ (depth_of depth macro_i, macro_i ∷ chain_from l.succ (macro_max_lanes - 1) macro_i)
            ∷ [])
      macros

-- `placed`, from the chains that there are.
abbrev pub placed_in : List ℕ → List (ℕ × List ℕ) → List ℕ
placed_in placed [] = placed
placed_in placed ((d, chain) ∷ chains) = placed_in (set_extend placed chain) chains

-- The chains from the links that are still to be placed.
unfoldable pub rest_chains :
    Links → List (ℕ × ℕ) → List ℕ → List (ℕ × List ℕ) → List ℕ → List (ℕ × List ℕ)
unfolding unplaced_from
rest_chains l depth placed chains [] = chains
rest_chains l depth placed chains (macro_i ∷ macros) = elim (contains placed macro_i) [
  | true ↦ rest_chains l depth placed chains macros
  | false ↦
      let chain = macro_i ∷ unplaced_from l.succ placed (macro_max_lanes - 1) macro_i in
      rest_chains l depth (set_extend placed chain) (chains ++ (depth_of depth macro_i, chain) ∷ [])
        macros
]

-- `(*d, c[0])` of one chain is at most that of another. A chain has a first link.
abbrev pub key_le : ℕ × List ℕ → ℕ × List ℕ → Bool
key_le (d, c) (e, f) = ltb d e || d == e && not (ltb (get_or f 0 0) (get_or c 0 0))

abbrev pub insert_chain : ℕ × List ℕ → List (ℕ × List ℕ) → List (ℕ × List ℕ)
insert_chain c [] = c ∷ []
insert_chain c (e ∷ chains) = if key_le c e then c ∷ e ∷ chains else e ∷ insert_chain c chains

-- `chains.sort_by_key(...)`, a stable sort.
unfoldable pub sort_chains : List (ℕ × List ℕ) → List (ℕ × List ℕ)
sort_chains [] = []
sort_chains (c ∷ chains) = insert_chain c (sort_chains chains)

-- `waves.last_mut().unwrap().extend(chain)` for the waves before the last, and the last.
-- The waves after the current one `w`, and `w` with what is added to it. `d` is `cur_depth`.
unfoldable pub fill_waves : ℕ → List ℕ → List (ℕ × List ℕ) → List (List ℕ)
fill_waves cur_depth w [] = w ∷ []
fill_waves cur_depth w ((d, chain) ∷ chains) =
    let more = fill_waves cur_depth (w ++ chain) chains in
    let new = w ∷ fill_waves d chain chains in
    if not (d == cur_depth) || ltb macro_max_lanes (length w + length chain) then new else more

-- The waves before `retain`.
unfoldable pub pack_waves : List (ℕ × List ℕ) → List (List ℕ)
unfolding fill_waves
pack_waves [] = []
pack_waves ((d, chain) ∷ chains) = fill_waves d chain chains

-- `waves.retain(|w| !w.is_empty())`
abbrev pub retain_nonempty : List (List ℕ) → List (List ℕ)
retain_nonempty [] = []
retain_nonempty ([] ∷ waves) = retain_nonempty waves
retain_nonempty ((x ∷ w) ∷ waves) = (x ∷ w) ∷ retain_nonempty waves

-- The waves, from the links and the depths.
unfoldable pub waves_of : List ℕ → Links → List (ℕ × ℕ) → List (List ℕ)
unfolding head_chains rest_chains sort_chains pack_waves
waves_of in_cone l depth =
    let heads = head_chains l depth [] in_cone in
    let chains = rest_chains l depth (placed_in [] heads) heads in_cone in
    retain_nonempty (pack_waves (sort_chains chains))

-- The fuel is for the loop over the depths; the rest ends by itself.
unfoldable pub order_macro_waves : Aig → ℕ → List ℕ → List ℕ → Outcome (Option (List (List ℕ)))
unfolding cone_macros depth_sweep link_chains raise_loop waves_of topo_traverse_generic
order_macro_waves aig fuel targets realized_inputs =
    topo_traverse_generic aig (some targets) (some realized_inputs) >>= λ order.
    cone_macros aig realized_inputs [] order >>= λ in_cone. elim in_cone [
      | [] ↦ ok (some [])
      | macro_i ∷ macros ↦
          depth_sweep aig realized_inputs (record { pin_depth = []; macro_depth = [] }) order
          >>= λ s.
              link_chains aig (macro_i ∷ macros) (record { succ = []; has_pred = [] })
                (macro_i ∷ macros)
              >>= λ l.
                  raise_loop aig (macro_i ∷ macros) l.has_pred fuel
                    (insert_ones s.macro_depth (macro_i ∷ macros))
                  >>= λ o. elim o [
                    | none ↦ ok none
                    | some depth ↦ ok (some (waves_of (macro_i ∷ macros) l depth))
                  ]
    ]
