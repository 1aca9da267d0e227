-- ===== src/Flatten/Part/Activation.antt =====
-- src/flatten.rs: `get_or_place_output_with_activation`.
use gem_macro_optimization.Base.{
  ℕ, ◌+◌, ◌/◌, ◌%◌, ◌<◌, true, List, [], ◌∷◌, Option, none, some, ok, ◌==◌, ◌≡◌, ◌≢◌, inl, inr,
  refl, ap, ◌∙◌, arith, Bool-cases, Option-cases,
}
use gem_macro_optimization.Base.Maps.{map_get, map_insert, map_get-map_insert}
use gem_macro_optimization.Base.Stores.{get_full}
use gem_macro_optimization.Flatten.Part.{
  FlatteningPart, Permute, query_permute_with_pin_iv, place_activation, activation,
  get_or_place_output_with_activation,
}
use gem_macro_optimization.Flatten.Part.Place.{HasVectors, IsActivated}
use gem_macro_optimization.Flatten.Part.Placement.{
  query-IsPermute, HasDupRoom, IsPlacement, place_first, place_later,
}

get_full-map_insert {ℓ} :
    {V : Type ℓ} (m : List (ℕ × V)) (k : ℕ) (r : ℕ × V) (v : V)
    → get_full m k ≡ some r
    → get_full (map_insert m k v) k ≡ some (r.0, v)
unfolding get_full map_insert
get_full-map_insert [] k r v e = cc
get_full-map_insert {V = V} ((j, w) ∷ m) k r v e = elim (Bool-cases (j == k)) [
  | inl same ↦
      let found : ◌≡◌ {A = Option (ℕ × V)} (some (0, w)) (some r) = rw same at e in
      let self : (k == k) ≡ true = ground arith in
      let first : 0 ≡ r.0 = cc in rw (same, self) (ap (λ (t : ℕ). some (t, v)) first)
  | inr other ↦ elim (Option-cases (get_full m k)) [
    | inl none_there ↦
        let none_found : ◌≡◌ {A = Option (ℕ × V)} none (some r) = rw (other, none_there) at e in cc
    | inr (s, there) ↦
        let found : ◌≡◌ {A = Option (ℕ × V)} (some (s.0 + 1, s.1)) (some r) =
          rw (other, there) at e in
        let next : s.0 + 1 ≡ r.0 = cc in
        let later = get_full-map_insert m k s v there in
        rw (other, other, later) (ap (λ (t : ℕ). some (t, v)) next)
  ]
]

-- Asking again for a position that is noted gives it, and leaves the part as it is.
asks_again :
    (part : FlatteningPart) (pin_iv clken_iv idx pos : ℕ) (activs : List (ℕ × Option ℕ))
    → map_get part.comb_outputs_activations (pin_iv / 2) ≡ some activs
    → get_full activs (activation pin_iv clken_iv) ≡ some (idx, some pos)
    → get_or_place_output_with_activation part pin_iv clken_iv ≡ ok (pos, part)
unfolding get_or_place_output_with_activation
asks_again part pin_iv clken_iv idx pos activs known entry = rw (known, entry) refl

module _ (part : FlatteningPart) (pin_iv clken_iv idx orig : ℕ) (activs : List (ℕ × Option ℕ))
    (clken : Permute) (known : map_get part.comb_outputs_activations (pin_iv / 2) ≡ some activs)
    (entry : get_full activs (activation pin_iv clken_iv) ≡ some (idx, none))
    (query : query_permute_with_pin_iv part clken_iv ≡ ok clken)
    (at_orig : map_get part.after_writeout_pin2pos (pin_iv / 2) ≡ some orig) where
  -- The part with the new position noted.
  noted : FlatteningPart → ℕ → FlatteningPart
  noted placed pos = record placed {
    comb_outputs_activations =
        map_insert part.comb_outputs_activations (pin_iv / 2)
          (map_insert activs (activation pin_iv clken_iv) (some pos));
  }

  place_step :
      (pos : ℕ) (placed : FlatteningPart)
      → place_activation part idx orig pin_iv clken ≡ ok (pos, placed)
      → placed.comb_outputs_activations ≡ part.comb_outputs_activations
      → get_or_place_output_with_activation part pin_iv clken_iv ≡ ok (pos, noted placed pos)
  unfolding get_or_place_output_with_activation noted
  place_step pos placed places table = rw (known, entry, query, at_orig, places, table, known) refl

  noted_again :
      (pos : ℕ) (placed : FlatteningPart)
      → get_or_place_output_with_activation (noted placed pos) pin_iv clken_iv
        ≡ ok (pos, noted placed pos)
  noted_again pos placed =
      let key = activation pin_iv clken_iv in
      let new = map_insert activs key (some pos) in
      let self : ((pin_iv / 2) == (pin_iv / 2)) ≡ true = ground arith in
      let there = map_get-map_insert part.comb_outputs_activations (pin_iv / 2) (pin_iv / 2) new in
      asks_again (noted placed pos) pin_iv clken_iv idx pos new
        (unfold noted in there ∙ rw self refl)
        (get_full-map_insert activs key (idx, none) (some pos) entry)

  noted-IsPlacement :
      (pos : ℕ) (placed : FlatteningPart)
      → IsPlacement part placed pin_iv idx orig clken pos
      → IsPlacement part (noted placed pos) pin_iv idx orig clken pos
  unfolding noted
  noted-IsPlacement pos placed is =
      let same : (q : ℕ) (p : Permute) (d : ℕ)
          → IsActivated placed q p d
          → IsActivated (noted placed pos) q p d =
        λ q p d was. record {
          perm = was.perm;
          inv = was.inv;
          set0 = was.set0;
          d_inv_bit = was.d_inv_bit;
        } in
      record {
        activated = same pos clken (pin_iv % 2) is.activated;
        first = is.first;
        duplicate = λ ne.
            let (at_end, was) = is.duplicate ne in
            (at_end, record { perm = was.perm; inv = was.inv; set0 = was.set0 });
        counted = is.counted;
        lanes_kept = λ q p far was.
            let kept = is.lanes_kept q p far was in
            record { perm = kept.perm; inv = kept.inv; set0 = kept.set0 };
        others = λ q p d far was. same q p d (is.others q p d far was);
        vectors =
            let v = is.vectors in
            record {
              permute = v.permute;
              inv = v.inv;
              set0 = v.set0;
              clken = v.clken;
              clken_i = v.clken_i;
              clken_0 = v.clken_0;
              data_i = v.data_i;
            };
      }

  -- An output bit of the part that has no position yet, whose pin has a place among the write-outs
  -- and whose clock enable is a constant or has one, is placed without a panic if there is room for
  -- another duplicate: the new position has the clock enable and the inversion that were asked for,
  -- the first activation of a pin stays in its place, a later one gets the next place from the end
  -- and a gather lane that brings the pin's bit there, and is
  -- counted, so that the next duplicate gets another; the activations at other positions and
  -- the other gather lanes stay.
  -- Asking again gives the same position and changes nothing.
  pub get_or_place-IsPlacement :
      HasVectors part
      → orig < 8192
      → (idx ≢ 0 → HasDupRoom part)
      → (pos : ℕ) × (part' : FlatteningPart) × (get_or_place_output_with_activation part pin_iv
            clken_iv
          ≡ ok (pos, part'))
        × IsPlacement part part' pin_iv idx orig clken pos
        × (get_or_place_output_with_activation part' pin_iv clken_iv ≡ ok (pos, part'))
  get_or_place-IsPlacement sizes lt room =
      let bits = query-IsPermute part clken_iv clken query in
      elim (Bool-cases (idx == 0)) [
        | inl first ↦
            let zeroth : idx ≡ 0 = ground arith in
            let (placed, places, is, table) = place_first part orig pin_iv clken sizes lt bits in
            (
              orig,
              noted placed orig,
              place_step orig placed
                  (ap (λ (i : ℕ). place_activation part i orig pin_iv clken) zeroth ∙ places) table,
              noted-IsPlacement orig placed (rw zeroth is),
              noted_again orig placed,
            )
        | inr later ↦
            let ne : idx ≢ 0 = ground arith in
            let (pos, placed, places, is, table) =
              place_later part orig pin_iv clken sizes lt bits (room ne) idx ne in
            (
              pos,
              noted placed pos,
              place_step pos placed places table,
              noted-IsPlacement pos placed is,
              noted_again pos placed,
            )
      ]
