-- ===== src/Staging/Split.antt =====
-- src/staging.rs: `from_split` and `build_staged_aigs`. An index out of range, an overflow of `- 1` and
-- a failed assertion are panics.
pub mod Vectors
pub mod Counted
pub mod Ordered
pub mod Inputs
pub mod Released
pub mod Crossing
pub mod Kept
pub mod Phases
pub mod Saved
use gem_macro_optimization.Base.{
  ℕ, zero, suc, ◌+◌, ◌-◌, ◌/◌, Bool, true, false, not, List, [], ◌∷◌, ◌++◌, Option, none, some,
  Outcome, ok, panic, ◌>>=◌, unwrap, max, ltb, ◌==◌, if◌then◌else◌, length, get_elem?, replicate,
  range, contains, set_insert, set_extend, swap_remove,
}
use gem_macro_optimization.Base.Stores.{store, checked_sub}
use gem_macro_optimization.Aig.{Aig, DriverType, and_gate, usize_max}
use gem_macro_optimization.Aig.Topo.{is_staged_input, topo_traverse_generic}
use gem_macro_optimization.Aig.Endpoints.{for_each_input, get_endpoint_group, num_endpoint_groups}
use gem_macro_optimization.Staging.{StagedAig}

-- `aig.get_endpoint_group(endpt).for_each_input(...)`
unfoldable pub endpoint_inputs : Aig → ℕ → Outcome (List ℕ)
unfolding get_endpoint_group for_each_input
endpoint_inputs aig endpt = get_endpoint_group aig endpt >>= λ group. ok (for_each_input group)

unfoldable pub all_inputs : Aig → List ℕ → Outcome (List ℕ)
unfolding endpoint_inputs
all_inputs aig [] = ok []
all_inputs aig (endpt ∷ endpts) =
    endpoint_inputs aig endpt >>= λ inputs. all_inputs aig endpts >>= λ rest. ok (inputs ++ rest)

-- The pins of a gate's operands `a >= 2`.
abbrev pub gate_pins : DriverType → List ℕ
gate_pins (and_gate a b) =
    let second = if ltb b 2 then [] else b / 2 ∷ [] in if ltb a 2 then second else a / 2 ∷ second
gate_pins _ = []

-- `num_fanouts[x] += 1`
unfoldable pub count_up : List ℕ → ℕ → Outcome (List ℕ)
unfolding store
count_up num_fanouts x = unwrap (get_elem? num_fanouts x) >>= λ n. store num_fanouts x (n + 1)

-- `v[i] = v[i].max(n)`
unfoldable pub store_max : List ℕ → ℕ → ℕ → Outcome (List ℕ)
unfolding store
store_max v i n = unwrap (get_elem? v i) >>= λ old. store v i (max old n)

-- `num_fanouts` and `level_id`.
pub record Counts : Type 0 where
  pub num_fanouts : List ℕ
  pub level_id : List ℕ

unfoldable pub count_operands : ℕ → List ℕ → Counts → Outcome Counts
unfolding count_up store_max
count_operands i [] s = ok s
count_operands i (x ∷ xs) s = count_up s.num_fanouts x >>= λ num_fanouts.
    unwrap (get_elem? s.level_id x) >>= λ l. store_max s.level_id i (l + 1) >>= λ level_id.
    count_operands i xs (record { num_fanouts = num_fanouts; level_id = level_id })

unfoldable pub count_order : Aig → Option (List ℕ) → List ℕ → Counts → Outcome Counts
unfolding count_operands
count_order aig primary_inputs [] s = ok s
count_order aig primary_inputs (i ∷ order) s = elim (is_staged_input primary_inputs i) [
  | true ↦ count_order aig primary_inputs order s
  | false ↦ unwrap (get_elem? aig.drivers i) >>= λ driver.
      count_operands i (gate_pins driver) s >>= λ s'. count_order aig primary_inputs order s'
]

-- `num_fanouts` and `endpt_level_id`.
pub record Fanouts : Type 0 where
  pub num_fanouts : List ℕ
  pub endpt_level_id : List ℕ

unfoldable pub count_inputs : List ℕ → ℕ → List ℕ → Fanouts → Outcome Fanouts
unfolding count_up store_max
count_inputs level_id endpt [] s = ok s
count_inputs level_id endpt (i ∷ inputs) s = count_up s.num_fanouts i >>= λ num_fanouts.
    unwrap (get_elem? level_id i) >>= λ l. store_max s.endpt_level_id endpt l >>= λ endpt_level_id.
    count_inputs level_id endpt inputs
      (record { num_fanouts = num_fanouts; endpt_level_id = endpt_level_id })

unfoldable pub count_endpoints : Aig → List ℕ → List ℕ → Fanouts → Outcome Fanouts
unfolding count_inputs endpoint_inputs
count_endpoints aig level_id [] s = ok s
count_endpoints aig level_id (endpt ∷ endpts) s = endpoint_inputs aig endpt >>= λ inputs.
    count_inputs level_id endpt inputs s >>= λ s'. count_endpoints aig level_id endpts s'

-- `num_fanouts` and `nodes_at_split`.
pub record Active : Type 0 where
  pub num_fanouts : List ℕ
  pub nodes_at_split : List ℕ

-- One reader of `x` is done.
unfoldable pub release : ℕ → Active → Outcome Active
unfolding store checked_sub
release x s = unwrap (get_elem? s.num_fanouts x) >>= λ n. checked_sub n 1 >>= λ n'.
    store s.num_fanouts x n' >>= λ num_fanouts.
    if not (n' == 0)
    then ok (record s { num_fanouts = num_fanouts })
    else if contains s.nodes_at_split x
    then ok (record { num_fanouts = num_fanouts; nodes_at_split = swap_remove s.nodes_at_split x })
    else panic

unfoldable pub release_all : List ℕ → Active → Outcome Active
unfolding release
release_all [] s = ok s
release_all (x ∷ xs) s = release x s >>= λ s'. release_all xs s'

-- One pin of the order, at the split.
unfoldable pub split_node : Aig → Option (List ℕ) → List ℕ → ℕ → ℕ → Active → Outcome Active
unfolding release_all
split_node aig primary_inputs level_id split_at_level i s = unwrap (get_elem? level_id i) >>= λ l.
    if ltb split_at_level l
    then ok s
    else let s' : Active = record s { nodes_at_split = set_insert s.nodes_at_split i } in
      if is_staged_input primary_inputs i
      then ok s'
      else unwrap (get_elem? aig.drivers i) >>= λ driver. release_all (gate_pins driver) s'

unfoldable pub split_order : Aig → Option (List ℕ) → List ℕ → ℕ → List ℕ → Active → Outcome Active
unfolding split_node
split_order aig primary_inputs level_id split_at_level [] s = ok s
split_order aig primary_inputs level_id split_at_level (i ∷ order) s =
    split_node aig primary_inputs level_id split_at_level i s >>= λ s'.
    split_order aig primary_inputs level_id split_at_level order s'

-- One endpoint: it is before the split, after those in `before`, or left.
unfoldable pub split_endpoint : Aig → List ℕ → ℕ → ℕ → List ℕ × Active → Outcome (List ℕ × Active)
unfolding release_all endpoint_inputs
split_endpoint aig endpt_level_id split_at_level endpt (before, s) =
    unwrap (get_elem? endpt_level_id endpt) >>= λ l.
    if ltb split_at_level l
    then ok (before, s)
    else endpoint_inputs aig endpt >>= λ inputs.
        release_all inputs s >>= λ s'. ok (before ++ endpt ∷ [], s')

unfoldable pub split_endpoints :
    Aig → List ℕ → ℕ → List ℕ → List ℕ × Active → Outcome (List ℕ × Active)
unfolding split_endpoint
split_endpoints aig endpt_level_id split_at_level [] s = ok s
split_endpoints aig endpt_level_id split_at_level (endpt ∷ endpts) s =
    split_endpoint aig endpt_level_id split_at_level endpt s >>= λ s'.
    split_endpoints aig endpt_level_id split_at_level endpts s'

abbrev pub not_staged : Option (List ℕ) → List ℕ → List ℕ
not_staged primary_inputs [] = []
not_staged primary_inputs (po ∷ pos) =
    let rest = not_staged primary_inputs pos in
    if is_staged_input primary_inputs po then rest else po ∷ rest

unfoldable pub from_split : Aig → List ℕ → Option (List ℕ) → ℕ → Outcome StagedAig
unfolding all_inputs topo_traverse_generic count_order count_endpoints split_order split_endpoints
from_split aig unrealized_orig_endpoints primary_inputs split_at_level =
    all_inputs aig unrealized_orig_endpoints >>= λ nodes.
    if length nodes == 0
    then panic
    else topo_traverse_generic aig (some nodes) primary_inputs >>= λ order.
        let zeros = replicate (aig.num_aigpins + 1) 0 in
        count_order aig primary_inputs order (record { num_fanouts = zeros; level_id = zeros })
        >>= λ counts.
            count_endpoints aig counts.level_id unrealized_orig_endpoints (record {
              num_fanouts = counts.num_fanouts;
              endpt_level_id = replicate (num_endpoint_groups aig) 0;
            })
            >>= λ fanouts.
                split_order aig primary_inputs counts.level_id split_at_level order
                  (record { num_fanouts = fanouts.num_fanouts; nodes_at_split = [] })
                >>= λ active.
                    split_endpoints aig fanouts.endpt_level_id split_at_level
                      unrealized_orig_endpoints ([], active)
                    >>= λ done. ok (record {
                      primary_inputs = primary_inputs;
                      primary_output_pins = not_staged primary_inputs done.1.nodes_at_split;
                      endpoints = done.0;
                    })

-- `assert!(unrealized.swap_remove(&endpt))`, for each of some endpoints.
unfoldable pub remove_all : List ℕ → List ℕ → Outcome (List ℕ)
remove_all unrealized [] = ok unrealized
remove_all unrealized (endpt ∷ endpts) = elim (contains unrealized endpt) [
  | false ↦ panic
  | true ↦ remove_all (swap_remove unrealized endpt) endpts
]

abbrev pub set_or_default : Option (List ℕ) → List ℕ
set_or_default none = []
set_or_default (some s) = s

-- The rounds for the splits that are left, and the stage after the last of them.
unfoldable pub build_stages :
    Aig → List ℕ → Option (List ℕ) → ℕ → List ℕ → Outcome (List (ℕ × (ℕ × StagedAig)))
unfolding from_split remove_all checked_sub
build_stages aig unrealized primary_inputs last_split [] =
    from_split aig unrealized primary_inputs usize_max >>= λ staged.
    ok ((last_split, (usize_max, staged)) ∷ [])
build_stages aig unrealized primary_inputs last_split (cur_split ∷ splits) =
    checked_sub cur_split last_split >>= λ levels.
    from_split aig unrealized primary_inputs levels >>= λ staged.
    remove_all unrealized staged.endpoints >>= λ unrealized'. elim staged.primary_output_pins [
      | [] ↦ ok ((last_split, (usize_max, staged)) ∷ [])
      | pin ∷ pins ↦
          build_stages aig unrealized'
            (some (set_extend (set_or_default primary_inputs) (pin ∷ pins))) cur_split splits
          >>= λ rest. ok ((last_split, (cur_split, staged)) ∷ rest)
    ]

unfoldable pub build_staged_aigs : Aig → List ℕ → Outcome (List (ℕ × (ℕ × StagedAig)))
unfolding build_stages
build_staged_aigs aig level_split =
    build_stages aig (range (num_endpoint_groups aig)) none 0 level_split
