-- ===== src/Staging/Subset.antt =====
-- src/staging.rs: the endpoints of a stage built from a subset.
use gem_macro_optimization.Base.{
  append_assoc, append_nil, ℕ, ◌+◌, ◌-◌, ◌≤◌, ◌<◌, false, List, [], ◌∷◌, ◌++◌, map, Outcome, ok,
  ltb, length, get_or, ◌≡◌, refl, ap, ◌∙◌, AllBelow, lt→ltb, arith,
}
use gem_macro_optimization.Base.Stores.{get_elem?-get_or}
use gem_macro_optimization.Aig.{Aig}
use gem_macro_optimization.Aig.Endpoints.{EndpointGroup, staged_io_pin, get_endpoint_group}
use gem_macro_optimization.Aig.Endpoints.Ranges.{pick, pick-append, pick-map}
use gem_macro_optimization.Staging.{
  StagedAig, staged_num_endpoint_groups, staged_get_endpoint_group, push_endpoint, push_endpoints,
  to_endpoint_subset,
}

-- Every entry of the list is at least `lo` and below `hi`.
abbrev pub AllBetween : ℕ → ℕ → List ℕ → Type 0
AllBetween lo hi [] = Unit
AllBetween lo hi (x ∷ xs) = (lo ≤ x) × (x < hi) × AllBetween lo hi xs

-- The groups of a stage as one list.
abbrev pub staged_list : Aig → StagedAig → List (Outcome EndpointGroup)
staged_list aig staged =
    map (λ pin. ok (staged_io_pin pin)) staged.primary_output_pins
    ++ map (get_endpoint_group aig) staged.endpoints

pub staged_get-staged_list :
    (aig : Aig) (staged : StagedAig) (i : ℕ)
    → staged_get_endpoint_group staged aig i ≡ pick (staged_list aig staged) i
unfolding staged_get_endpoint_group
staged_get-staged_list aig staged i =
    let n = length staged.primary_output_pins in
    let front =
      pick-append (λ pin. ok (staged_io_pin pin)) staged.primary_output_pins
        (map (get_endpoint_group aig) staged.endpoints) i in
    let back = pick-map (get_endpoint_group aig) staged.endpoints (i - n) in
    rw (staged_get_endpoint_group, front, back) refl

module _ (staged : StagedAig) where
  abbrev pin_of : ℕ → ℕ
  pin_of i = get_or staged.primary_output_pins i 0

  abbrev endpoint_of : ℕ → ℕ
  endpoint_of i = get_or staged.endpoints (i - length staged.primary_output_pins) 0

  abbrev stage : List ℕ → List ℕ → StagedAig
  stage pins es = record {
    primary_inputs = staged.primary_inputs;
    primary_output_pins = pins;
    endpoints = es;
  }

  push-pins :
      (fronts backs pins : List ℕ)
      → AllBelow (length staged.primary_output_pins) fronts
      → push_endpoints staged (stage pins []) (fronts ++ backs)
        ≡ push_endpoints staged (stage (pins ++ map pin_of fronts) []) backs
  unfolding push_endpoints push_endpoint
  push-pins [] backs pins below = rw (append_nil pins) refl
  push-pins (i ∷ is) backs pins below =
      let lt = lt→ltb i (length staged.primary_output_pins) below.0 in
      let found = get_elem?-get_or staged.primary_output_pins i below.0 in
      let rest = push-pins is backs (pins ++ pin_of i ∷ []) below.1 in
      rw (push_endpoints, push_endpoint, lt, found)
        (rest ∙ rw (append_assoc pins (pin_of i ∷ []) (map pin_of is)) refl)

  push-endpoints :
      (backs pins es : List ℕ)
      → AllBetween
          (length staged.primary_output_pins)
          (length staged.primary_output_pins + length staged.endpoints)
          backs
      → push_endpoints staged (stage pins es) backs ≡ ok (stage pins (es ++ map endpoint_of backs))
  unfolding push_endpoints push_endpoint
  push-endpoints [] pins es between = rw (append_nil es) refl
  push-endpoints (i ∷ is) pins es (ge, lt, between) =
      let n = length staged.primary_output_pins in
      let not_pin : ltb i n ≡ false = ground arith in
      let found = get_elem?-get_or staged.endpoints (i - n) (omega arith) in
      let rest = push-endpoints is pins (es ++ endpoint_of i ∷ []) between in
      rw (push_endpoints, push_endpoint, not_pin, found)
        (rest ∙ rw (append_assoc es (endpoint_of i ∷ []) (map endpoint_of is)) refl)

  -- The groups chosen by a list of pins and a list of endpoints.
  chosen-back :
      (aig : Aig) (backs : List ℕ)
      → AllBetween
          (length staged.primary_output_pins)
          (length staged.primary_output_pins + length staged.endpoints)
          backs
      → map (get_endpoint_group aig) (map endpoint_of backs)
        ≡ map (staged_get_endpoint_group staged aig) backs
  unfolding staged_get_endpoint_group
  chosen-back aig [] between = refl
  chosen-back aig (i ∷ is) (ge, lt, between) =
      let n = length staged.primary_output_pins in
      let not_pin : ltb i n ≡ false = ground arith in
      let found = get_elem?-get_or staged.endpoints (i - n) (omega arith) in
      rw (staged_get_endpoint_group, not_pin, found)
        (ap (λ (t : List (Outcome EndpointGroup)). get_endpoint_group aig (endpoint_of i) ∷ t)
          (chosen-back aig is between))

  chosen-front :
      (aig : Aig) (fronts backs : List ℕ)
      → AllBelow (length staged.primary_output_pins) fronts
      → AllBetween
          (length staged.primary_output_pins)
          (length staged.primary_output_pins + length staged.endpoints)
          backs
      → (map (λ pin. ok (staged_io_pin pin)) (map pin_of fronts)
          ++ map (get_endpoint_group aig) (map endpoint_of backs))
        ≡ map (staged_get_endpoint_group staged aig) (fronts ++ backs)
  unfolding staged_get_endpoint_group
  chosen-front aig [] backs below between = chosen-back aig backs between
  chosen-front aig (i ∷ is) backs below between =
      let lt = lt→ltb i (length staged.primary_output_pins) below.0 in
      let found = get_elem?-get_or staged.primary_output_pins i below.0 in
      rw (staged_get_endpoint_group, lt, found)
        (ap (λ (t : List (Outcome EndpointGroup)). ok (staged_io_pin (pin_of i)) ∷ t)
          (chosen-front aig is backs below.1 between))

-- A subset that names staged pins first and original endpoints after them, all in range, gives a
-- stage with the same primary inputs, whose group `i` is the group of the subset's entry `i` in
-- the original stage; beyond the subset there is none, and the look-up panics.
pub to_endpoint_subset-pick :
    (aig : Aig) (staged : StagedAig) (fronts backs : List ℕ)
    → AllBelow (length staged.primary_output_pins) fronts
    → AllBetween (length staged.primary_output_pins) (staged_num_endpoint_groups staged) backs
    → (sub : StagedAig) × (to_endpoint_subset staged (fronts ++ backs) ≡ ok sub)
      × (sub.primary_inputs ≡ staged.primary_inputs)
      × ((i : ℕ)
          → staged_get_endpoint_group sub aig i
            ≡ pick (map (staged_get_endpoint_group staged aig) (fronts ++ backs)) i)
unfolding to_endpoint_subset staged_num_endpoint_groups
to_endpoint_subset-pick aig staged fronts backs below between =
    let sub = stage staged (map (pin_of staged) fronts) (map (endpoint_of staged) backs) in
    (
      sub,
      push-pins staged fronts backs [] below
          ∙ push-endpoints staged backs (map (pin_of staged) fronts) [] between,
      refl,
      λ i.
          staged_get-staged_list aig sub i
          ∙ ap (λ (gs : List (Outcome EndpointGroup)). pick gs i)
              (chosen-front staged aig fronts backs below between),
    )
