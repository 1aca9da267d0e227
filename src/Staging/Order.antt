-- ===== src/Staging/Order.antt =====
-- src/staging.rs: the assertion of `to_endpoint_subset`.
use gem_macro_optimization.Base.{
  ℕ, ◌-◌, ◌≤◌, ◌<◌, false, List, [], ◌∷◌, ◌++◌, Outcome, ok, panic, ◌>>=◌, ltb, length, get_elem?,
  length-append, ◌≡◌, ◌≢◌, refl, sym, ap, ◌∙◌, Bool-cases, Option-cases, Outcome-cases, inl, inr,
  lt→ltb, ltb→lt, arith,
}
use gem_macro_optimization.Base.Stores.{get_elem?-get_or}
use gem_macro_optimization.Staging.{StagedAig, push_endpoint, push_endpoints, to_endpoint_subset}

cons-endpoints : (xs : List ℕ) → 0 < length xs → (e : ℕ) × (es : List ℕ) × (xs ≡ e ∷ es)
cons-endpoints [] h = absurd (omega arith)
cons-endpoints (e ∷ es) h = (e, es, refl)

panic≢ok : (t : StagedAig) → panic ≢ ok t
panic≢ok t e = ground arith

abbrev endpoint_count : Outcome StagedAig → ℕ
endpoint_count (ok s) = length s.endpoints
endpoint_count panic = 0

module _ (staged : StagedAig) where
  push-append :
      (xs ys : List ℕ) (s : StagedAig)
      → push_endpoints staged s (xs ++ ys)
        ≡ (push_endpoints staged s xs >>= λ t. push_endpoints staged t ys)
  unfolding push_endpoints
  push-append [] ys s = refl
  push-append (x ∷ xs) ys s = elim (Outcome-cases (push_endpoint staged s x)) [
    | inl stops ↦ rw (push_endpoints, stops) refl
    | inr (t, runs) ↦ rw (push_endpoints, runs) (push-append xs ys t)
  ]

  -- Once an endpoint is in the stage, a staged pin stops the loop.
  abbrev HasEndpoint : StagedAig → Type 0
  HasEndpoint s = 0 < length s.endpoints

  push_pin-panic :
      (s : StagedAig) (j : ℕ)
      → HasEndpoint s
      → j < length staged.primary_output_pins
      → push_endpoint staged s j ≡ panic
  unfolding push_endpoint
  push_pin-panic s j has lt =
      let (e, es, is_cons) = cons-endpoints s.endpoints has in
      let is_pin = lt→ltb j (length staged.primary_output_pins) lt in
      let found = get_elem?-get_or staged.primary_output_pins j lt in
      rw (push_endpoint, is_pin, found, is_cons) refl

  push-keeps :
      (s t : StagedAig) (i : ℕ) → HasEndpoint s → push_endpoint staged s i ≡ ok t → HasEndpoint t
  unfolding push_endpoint
  push-keeps s t i has e =
      let n = length staged.primary_output_pins in
      elim (Bool-cases (ltb i n)) [
        | inl is_pin ↦ absurd (panic≢ok t (sym (push_pin-panic s i has (ltb→lt i n is_pin)) ∙ e))
        | inr not_pin ↦ elim (Option-cases (get_elem? staged.endpoints (i - n))) [
          | inl missing ↦ absurd (panic≢ok t (rw (push_endpoint, not_pin, missing) at e))
          | inr (x, found) ↦
              let pushed = ap endpoint_count (rw (push_endpoint, not_pin, found) at e) in
              omega (arith, pushed, length-append s.endpoints (x ∷ []))
        ]
      ]

  push-HasEndpoint-panic :
      (ys zs : List ℕ) (j : ℕ) (s : StagedAig)
      → HasEndpoint s
      → j < length staged.primary_output_pins
      → push_endpoints staged s (ys ++ j ∷ zs) ≡ panic
  unfolding push_endpoints
  push-HasEndpoint-panic [] zs j s has lt = rw (push_endpoints, push_pin-panic s j has lt) refl
  push-HasEndpoint-panic (y ∷ ys) zs j s has lt = elim (Outcome-cases (push_endpoint staged s y)) [
    | inl stops ↦ rw (push_endpoints, stops) refl
    | inr (t, runs) ↦
        rw (push_endpoints, runs) (push-HasEndpoint-panic ys zs j t (push-keeps s t y has runs) lt)
  ]

  -- An original endpoint, if its push returns, is in the stage from then on.
  push-HasEndpoint :
      (s t : StagedAig) (i : ℕ)
      → length staged.primary_output_pins ≤ i
      → push_endpoint staged s i ≡ ok t
      → HasEndpoint t
  unfolding push_endpoint
  push-HasEndpoint s t i ge e =
      let n = length staged.primary_output_pins in
      let not_pin : ltb i n ≡ false = ground arith in
      elim (Option-cases (get_elem? staged.endpoints (i - n))) [
        | inl missing ↦ absurd (panic≢ok t (rw (push_endpoint, not_pin, missing) at e))
        | inr (x, found) ↦
            let pushed = ap endpoint_count (rw (push_endpoint, not_pin, found) at e) in
            omega (arith, pushed, length-append s.endpoints (x ∷ []))
      ]

-- A subset in which some staged pin comes after some original endpoint is refused: whatever else
-- it names, the selection panics.
pub to_endpoint_subset-panic :
    (staged : StagedAig) (xs ys zs : List ℕ) (i j : ℕ)
    → length staged.primary_output_pins ≤ i
    → j < length staged.primary_output_pins
    → to_endpoint_subset staged (xs ++ i ∷ (ys ++ j ∷ zs)) ≡ panic
unfolding to_endpoint_subset push_endpoints
to_endpoint_subset-panic staged xs ys zs i j ge lt =
    let start : StagedAig = record {
      primary_inputs = staged.primary_inputs;
      primary_output_pins = [];
      endpoints = [];
    } in
    push-append staged xs (i ∷ (ys ++ j ∷ zs)) start
    ∙ elim (Outcome-cases (push_endpoints staged start xs)) [
      | inl stops ↦ rw stops refl
      | inr (s, runs) ↦ elim (Outcome-cases (push_endpoint staged s i)) [
        | inl stops ↦ rw (runs, push_endpoints, stops) refl
        | inr (t, pushes) ↦
            rw (runs, push_endpoints, pushes)
              (push-HasEndpoint-panic staged ys zs j t (push-HasEndpoint staged s t i ge pushes) lt)
      ]
    ]
