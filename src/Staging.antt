-- ===== src/Staging.antt =====
-- src/staging.rs: the boundaries of a staged graph, the whole graph as one stage, and the selection
-- of a subset of its endpoints. A failed assertion and an index out of range are panics.
pub mod Subset
pub mod Full
pub mod Order
pub mod Split
use gem_macro_optimization.Base.{
  ℕ, ◌+◌, ◌-◌, List, [], ◌∷◌, ◌++◌, Option, none, some, Outcome, ok, panic, ◌>>=◌, unwrap, ltb,
  if◌then◌else◌, length, get_elem?, range,
}
use gem_macro_optimization.Aig.{Aig}
use gem_macro_optimization.Aig.Endpoints.{
  EndpointGroup, staged_io_pin, get_endpoint_group, num_endpoint_groups,
}

pub record StagedAig : Type 0 where
  pub primary_inputs : Option (List ℕ)
  pub primary_output_pins : List ℕ
  pub endpoints : List ℕ

unfoldable pub staged_num_endpoint_groups : StagedAig → ℕ
staged_num_endpoint_groups staged = length staged.primary_output_pins + length staged.endpoints

unfoldable pub staged_get_endpoint_group : StagedAig → Aig → ℕ → Outcome EndpointGroup
unfolding get_endpoint_group
staged_get_endpoint_group staged aig endpt_id =
    if ltb endpt_id (length staged.primary_output_pins)
    then (unwrap (get_elem? staged.primary_output_pins endpt_id) >>= λ pin. ok (staged_io_pin pin))
    else unwrap (get_elem? staged.endpoints (endpt_id - length staged.primary_output_pins)) >>= λ e.
        get_endpoint_group aig e

unfoldable pub from_full_aig : Aig → StagedAig
unfolding num_endpoint_groups
from_full_aig aig = record {
  primary_inputs = none;
  primary_output_pins = [];
  endpoints = range (num_endpoint_groups aig);
}

-- One round of the loop: what is pushed to `sub` for the endpoint `i`.
unfoldable pub push_endpoint : StagedAig → StagedAig → ℕ → Outcome StagedAig
push_endpoint staged sub i =
    if ltb i (length staged.primary_output_pins)
    then (unwrap (get_elem? staged.primary_output_pins i) >>= λ pin. elim sub.endpoints [
      | [] ↦ ok (record sub { primary_output_pins = sub.primary_output_pins ++ pin ∷ [] })
      | e ∷ es ↦ panic
    ])
    else unwrap (get_elem? staged.endpoints (i - length staged.primary_output_pins)) >>= λ e.
        ok (record sub { endpoints = sub.endpoints ++ e ∷ [] })

unfoldable pub push_endpoints : StagedAig → StagedAig → List ℕ → Outcome StagedAig
unfolding push_endpoint
push_endpoints staged sub [] = ok sub
push_endpoints staged sub (i ∷ is) =
    push_endpoint staged sub i >>= λ sub'. push_endpoints staged sub' is

unfoldable pub to_endpoint_subset : StagedAig → List ℕ → Outcome StagedAig
unfolding push_endpoints
to_endpoint_subset staged endpoint_subset =
    push_endpoints staged
      (record { primary_inputs = staged.primary_inputs; primary_output_pins = []; endpoints = [] })
      endpoint_subset
