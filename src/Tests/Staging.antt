-- ===== src/Tests/Staging.antt =====
-- Tests of the endpoint groups and of staging.
use gem_macro_optimization.Base.{
  ℕ, zero, suc, true, List, contains, ◌≤◌, ◌<◌, [], ◌∷◌, map, none, some, ok, panic, ◌>>=◌, unwrap,
  get_elem?, ◌≡◌, refl, arith,
}
use gem_macro_optimization.Macros.Kind.{carry4, srlc32e}
use gem_macro_optimization.Macros.Inst.{new}
use gem_macro_optimization.Aig.{Aig, and_gate, input_port, macro, tie0, usize_max}
use gem_macro_optimization.Staging.Split.{build_staged_aigs, from_split, endpoint_inputs}
use gem_macro_optimization.Staging.Split.Inputs.{AreGiven}
use gem_macro_optimization.Staging.Split.Saved.{IsSplit, from_split-IsSplit}
use gem_macro_optimization.Aig.{driver, add_aigpin, empty_aig}
use gem_macro_optimization.Aig.Meaning.{IsWellFormed}
use gem_macro_optimization.Aig.Topo.Layered.{MacroBefore}
use gem_macro_optimization.Tests.Aig.{one_gate, one_gate-IsWellFormed}
use gem_macro_optimization.Base.Sets.{swap_remove}
use gem_macro_optimization.Aig.Endpoints.{
  EndpointGroup, get_endpoint_group, num_endpoint_groups, macro_endpoint_id,
}
use gem_macro_optimization.Aig.Endpoints.Ranges.{
  group_list, pick, macro_at, get_endpoint_group-group_list, get_endpoint_group-total,
  macro_endpoint_id-macro_at,
}
use gem_macro_optimization.Staging.{
  StagedAig, staged_num_endpoint_groups, staged_get_endpoint_group, from_full_aig,
  to_endpoint_subset,
}
use gem_macro_optimization.Staging.Subset.{to_endpoint_subset-pick}
use gem_macro_optimization.Staging.Order.{to_endpoint_subset-panic}
use gem_macro_optimization.Staging.Full.{from_full_aig-same}

-- One output, one DFF and, as the second of two macros, an SRLC32E.
abbrev three_groups : Aig
three_groups = record {
  num_aigpins = 0;
  pin2aigpin_iv = [];
  clock_pin2aigpins = [];
  drivers = tie0 ∷ [];
  and_gate_cache = [];
  primary_outputs = 6 ∷ [];
  dffs = (3, record { d_iv = 4; en_iv = 1; q = 5 }) ∷ [];
  srams = [];
  macros = (7, new srlc32e) ∷ (8, new srlc32e) ∷ [];
  stateful_macros = 1 ∷ [];
  aigpin2macro = [];
  fanouts_start = [];
  fanouts = [];
}

get_endpoint_group-group_list_example :
    get_endpoint_group three_groups 2 ≡ pick (group_list three_groups) 2
get_endpoint_group-group_list_example = get_endpoint_group-group_list three_groups 2

get_endpoint_group-total_example :
    (2 < num_endpoint_groups three_groups
      → (e : EndpointGroup) × (get_endpoint_group three_groups 2 ≡ ok e))
    × (num_endpoint_groups three_groups ≤ 2 → get_endpoint_group three_groups 2 ≡ panic)
get_endpoint_group-total_example = get_endpoint_group-total three_groups 2 (omega arith, tt)

macro_endpoint_id-macro_at_example :
    get_endpoint_group three_groups (macro_endpoint_id three_groups 0)
    ≡ (unwrap (get_elem? three_groups.stateful_macros 0) >>= macro_at three_groups)
macro_endpoint_id-macro_at_example = macro_endpoint_id-macro_at three_groups 0

from_full_aig-same_example :
    (staged_num_endpoint_groups (from_full_aig three_groups) ≡ num_endpoint_groups three_groups)
    × (staged_get_endpoint_group (from_full_aig three_groups) three_groups 1
        ≡ get_endpoint_group three_groups 1)
from_full_aig-same_example = from_full_aig-same three_groups 1

-- Two staged pins and two original endpoints.
abbrev staged : StagedAig
staged = record {
  primary_inputs = some (1 ∷ []);
  primary_output_pins = 11 ∷ 12 ∷ [];
  endpoints = 2 ∷ 0 ∷ [];
}

subset_runs :
    to_endpoint_subset staged (1 ∷ 3 ∷ [])
    ≡ ok (record {
      primary_inputs = some (1 ∷ []);
      primary_output_pins = 12 ∷ [];
      endpoints = 0 ∷ [];
    })
unfolding to_endpoint_subset
subset_runs = refl

to_endpoint_subset-pick_example :
    (sub : StagedAig) × (to_endpoint_subset staged (1 ∷ 3 ∷ []) ≡ ok sub)
    × (sub.primary_inputs ≡ staged.primary_inputs)
    × ((i : ℕ)
        → staged_get_endpoint_group sub three_groups i
          ≡ pick (map (staged_get_endpoint_group staged three_groups) (1 ∷ 3 ∷ [])) i)
unfolding staged_num_endpoint_groups
to_endpoint_subset-pick_example =
    to_endpoint_subset-pick three_groups staged (1 ∷ []) (3 ∷ []) (omega arith, tt)
      (omega arith, omega arith, tt)

to_endpoint_subset-panic_example : to_endpoint_subset staged (0 ∷ 2 ∷ 3 ∷ 1 ∷ 3 ∷ []) ≡ panic
to_endpoint_subset-panic_example =
    to_endpoint_subset-panic staged (0 ∷ []) (3 ∷ []) (3 ∷ []) 2 1 (omega arith) (omega arith)

-- Two gates in a row, of which the second is an output, split after the first.
abbrev pub two_levels : Aig
two_levels = record {
  num_aigpins = 4;
  pin2aigpin_iv = [];
  clock_pin2aigpins = [];
  drivers = tie0 ∷ input_port 0 ∷ input_port 1 ∷ and_gate 2 4 ∷ and_gate 2 6 ∷ [];
  and_gate_cache = ((2, 4), 3) ∷ ((2, 6), 4) ∷ [];
  primary_outputs = 8 ∷ [];
  dffs = [];
  srams = [];
  macros = [];
  stateful_macros = [];
  aigpin2macro = [];
  fanouts_start = [];
  fanouts = [];
}

split_two_levels :
    build_staged_aigs two_levels (1 ∷ [])
    ≡ ok (
        (0, (1, record { primary_inputs = none; primary_output_pins = 1 ∷ 3 ∷ []; endpoints = [] }))
        ∷ (
          1,
          (
            usize_max,
            record {
              primary_inputs = some (1 ∷ 3 ∷ []);
              primary_output_pins = [];
              endpoints = 0 ∷ [];
            },
          ),
        )
        ∷ [])
unfolding build_staged_aigs num_endpoint_groups swap_remove
split_two_levels = refl

-- A CARRY4 reads an input and drives an output: the graph ends before the split.
abbrev one_carry : Aig
one_carry = record two_levels {
  num_aigpins = 2;
  drivers = tie0 ∷ input_port 0 ∷ macro 20 0 ∷ [];
  and_gate_cache = [];
  primary_outputs = 4 ∷ [];
  macros =
      (
        20,
        record {
          kind = carry4;
          inputs = 0 ∷ 0 ∷ 0 ∷ 0 ∷ 0 ∷ 0 ∷ 2 ∷ 0 ∷ 0 ∷ 0 ∷ [];
          outputs = 2 ∷ 0 ∷ 0 ∷ 0 ∷ 0 ∷ 0 ∷ 0 ∷ 0 ∷ [];
          clk_en_iv = 1;
        },
      )
      ∷ [];
  aigpin2macro = (2, 0) ∷ [];
}

split_one_carry : build_staged_aigs one_carry (10 ∷ []) ≡ panic
unfolding build_staged_aigs num_endpoint_groups swap_remove
split_one_carry = refl

-- A gate that is an output.
abbrev gate_out : Aig
gate_out = record one_gate { primary_outputs = 6 ∷ [] }

gate_out-IsWellFormed : IsWellFormed gate_out
gate_out-IsWellFormed = record {
  sized = one_gate-IsWellFormed.sized;
  zero_tied = one_gate-IsWellFormed.zero_tied;
  ordered = one_gate-IsWellFormed.ordered;
  cache_sound = one_gate-IsWellFormed.cache_sound;
  cache_complete = one_gate-IsWellFormed.cache_complete;
}

gate_out-MacroBefore :
    (u : ℕ) → u ≤ gate_out.num_aigpins → MacroBefore gate_out u (driver gate_out u)
unfolding add_aigpin empty_aig
gate_out-MacroBefore zero le = tt
gate_out-MacroBefore (suc zero) le = tt
gate_out-MacroBefore (suc (suc zero)) le = tt
gate_out-MacroBefore (suc (suc (suc zero))) le = tt
gate_out-MacroBefore (suc (suc (suc (suc u)))) le = absurd (omega arith)

-- The one endpoint reads pin 3.
abbrev reads_gate : ℕ → List ℕ
reads_gate e = 3 ∷ []

gate_out-AreGiven : AreGiven gate_out reads_gate 4 1 (0 ∷ [])
unfolding add_aigpin empty_aig endpoint_inputs
gate_out-AreGiven zero h = (refl, omega arith, λ p is_p. ground arith)
gate_out-AreGiven (suc e) h = absurd (no_second e h)
  where
    no_second : (e : ℕ) → ¬ (contains (0 ∷ []) (suc e) ≡ true)
    no_second e h = ground arith

from_split-IsSplit_example :
    (stage : StagedAig) × (from_split gate_out (0 ∷ []) none 0 ≡ ok stage)
    × ((order : List ℕ) × ((level : ℕ → ℕ) × IsSplit gate_out none reads_gate
            (0 ∷ [])
            0
            order
            level
            stage))
unfolding add_aigpin empty_aig num_endpoint_groups
from_split-IsSplit_example =
    from_split-IsSplit gate_out none reads_gate (0 ∷ []) 0 gate_out-IsWellFormed
      gate_out-MacroBefore gate_out-AreGiven (omega arith)
