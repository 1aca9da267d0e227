-- ===== src/Script/Reduce/Places.antt =====
-- src/bin/flatten_test.rs, src/flatten.rs and src/pe.rs: the bit of a place after the reduction.
use gem_macro_optimization.Base.{
  ℕ, ◌+◌, ◌-◌, ◌/◌, ◌%◌, ◌^◌, ◌≤◌, ◌<◌, Bool, true, false, ◌&&◌, ◌||◌, ltb, ◌==◌, ◌≡◌, ◌⊎◌, inl,
  inr, refl, ap₂, ◌∙◌, Bool-cases, arith,
}
use native.Mathlib.Nat.{pow-le-pow_right}
use gem_macro_optimization.Script.Reduce.{
  Word, HierFlags, combine_words, shl, shr, mask, next_in_word, last_levels, reduce_hier,
}
use gem_macro_optimization.Script.Reduce.Last.{bit, value, HasLevels}
use gem_macro_optimization.Script.Reduce.Levels.{
  words, word_levels, r8, r9, r10, r11, r8-InWord, r9-InWord, r10-InWord, r11-InWord, r12-InWord,
  inputs,
}

or_first : (a b x : Bool) → a ≡ x → b ≡ false → (a || b) ≡ x
or_first a b x p q = rw (p, q) (or_false x)
  where
    or_false : (y : Bool) → (y || false) ≡ y
    or_false true = refl
    or_false false = refl

or_second : (a b x : Bool) → a ≡ false → b ≡ x → (a || b) ≡ x
or_second a b x p q = rw (p, q) refl

and_mask : (x m : Bool) → m ≡ false → (x && m) ≡ false
and_mask true m e = e
and_mask false m e = refl

module _ (f : HierFlags) (v : ℕ → Word) where
  -- Outside its mask, the bits of a level are 0.
  off8 : (p : ℕ) → mask 16 32 p ≡ false → r8 f v p ≡ false
  off8 p e = and_mask (combine_words f 0 (shl 16 (words f v 1)) (words f v 1) p) (mask 16 32 p) e

  off : (s t lo hi p : ℕ) (r : Word) → mask lo hi p ≡ false → next_in_word f s t lo hi r p ≡ false
  off s t lo hi p r e = and_mask (combine_words f 0 (shr s r) (shr t r) p) (mask lo hi p) e

  -- The bit of place `j` of a level in the last word.
  Last : ℕ → ℕ → ℕ → Type 0
  Last h w j = last_levels f (words f v 1) (w + j) ≡ value f (inputs f v) h w j

  last9 : (j : ℕ) → j < 16 → Last 9 16 j
  unfolding last_levels Last
  last9 j lt =
      or_first _ _ _
        (or_first _ _ _
          (or_first _ _ _
            (or_first _ _ _ (r8-InWord f v j lt) (off 8 16 8 16 (16 + j) (r8 f v) (ground arith)))
            (off 4 8 4 8 (16 + j) (r9 f v) (ground arith)))
          (off 2 4 2 4 (16 + j) (r10 f v) (ground arith)))
        (off 1 2 1 2 (16 + j) (r11 f v) (ground arith))

  last10 : (j : ℕ) → j < 8 → Last 10 8 j
  unfolding last_levels Last
  last10 j lt =
      or_first _ _ _
        (or_first _ _ _
          (or_first _ _ _ (or_second _ _ _ (off8 (8 + j) (ground arith)) (r9-InWord f v j lt))
            (off 4 8 4 8 (8 + j) (r9 f v) (ground arith)))
          (off 2 4 2 4 (8 + j) (r10 f v) (ground arith)))
        (off 1 2 1 2 (8 + j) (r11 f v) (ground arith))

  last11 : (j : ℕ) → j < 4 → Last 11 4 j
  unfolding last_levels Last
  last11 j lt =
      or_first _ _ _
        (or_first _ _ _
          (or_second _ _ _
            (or_second _ _ _ (off8 (4 + j) (ground arith))
              (off 8 16 8 16 (4 + j) (r8 f v) (ground arith)))
            (r10-InWord f v j lt))
          (off 2 4 2 4 (4 + j) (r10 f v) (ground arith)))
        (off 1 2 1 2 (4 + j) (r11 f v) (ground arith))

  last12 : (j : ℕ) → j < 2 → Last 12 2 j
  unfolding last_levels Last
  last12 j lt =
      or_first _ _ _
        (or_second _ _ _
          (or_second _ _ _
            (or_second _ _ _ (off8 (2 + j) (ground arith))
              (off 8 16 8 16 (2 + j) (r8 f v) (ground arith)))
            (off 4 8 4 8 (2 + j) (r9 f v) (ground arith)))
          (r11-InWord f v j lt))
        (off 1 2 1 2 (2 + j) (r11 f v) (ground arith))

  last13 : (j : ℕ) → j < 1 → Last 13 1 j
  unfolding last_levels Last
  last13 j lt =
      or_second _ _ _
        (or_second _ _ _
          (or_second _ _ _
            (or_second _ _ _ (off8 (1 + j) (ground arith))
              (off 8 16 8 16 (1 + j) (r8 f v) (ground arith)))
            (off 4 8 4 8 (1 + j) (r9 f v) (ground arith)))
          (off 2 4 2 4 (1 + j) (r10 f v) (ground arith)))
        (r12-InWord f v j lt)

  in-Last :
      (h w j : ℕ)
      → w + j < 32
      → Last h w j
      → bit (reduce_hier f v) (w + j) ≡ value f (inputs f v) h w j
  unfolding reduce_hier Last
  in-Last h w j small last =
      let word : (w + j) / 32 ≡ 0 = omega arith in
      let in_bit : (w + j) % 32 ≡ w + j = omega arith in
      ap₂ (λ (x y : ℕ). reduce_hier f v x y) word in_bit ∙ last

  in_words : (q : ℕ) → 32 ≤ q → bit (reduce_hier f v) q ≡ bit (words f v) q
  unfolding reduce_hier
  in_words q ge = let later : ((q / 32) == 0) ≡ false = ground arith in rw later refl

  -- After the reduction, each place has its bit.
  pub reduce_hier-HasLevels : HasLevels f (inputs f v) 13 (reduce_hier f v)
  reduce_hier-HasLevels h j ge le lt = elim (Bool-cases (ltb 8 h)) [
    | inr low ↦
        let few : h ≤ 8 = ground arith in
        let wide : 2 ^ 5 ≤ 2 ^ (13 - h) =
          pow-le-pow_right {n = 2} (omega arith) {i = 5} {j = 13 - h} (omega arith) in
        in_words (2 ^ (13 - h) + j) (omega (arith, wide)) ∙ word_levels f v h j ge few lt
    | inl high ↦ last_of h j high le lt
  ]
    where
      last_of :
          (h j : ℕ)
          → ltb 8 h ≡ true
          → h ≤ 13
          → j < 2 ^ (13 - h)
          → bit (reduce_hier f v) (2 ^ (13 - h) + j) ≡ value f (inputs f v) h (2 ^ (13 - h)) j
      last_of h j high le lt = elim (cases h high le) [
        | inl e ↦
            rw e
              (in-Last 9 16 j (omega (arith, at_level h 9 j e lt)) (last9 j (at_level h 9 j e lt)))
        | inr (inl e) ↦
            rw e (
              in-Last 10 8 j (omega (arith, at_level h 10 j e lt))
                (last10 j (at_level h 10 j e lt)))
        | inr (inr (inl e)) ↦
            rw e (
              in-Last 11 4 j (omega (arith, at_level h 11 j e lt))
                (last11 j (at_level h 11 j e lt)))
        | inr (inr (inr (inl e))) ↦
            rw e (
              in-Last 12 2 j (omega (arith, at_level h 12 j e lt))
                (last12 j (at_level h 12 j e lt)))
        | inr (inr (inr (inr e))) ↦
            rw e (
              in-Last 13 1 j (omega (arith, at_level h 13 j e lt))
                (last13 j (at_level h 13 j e lt)))
      ]
        where
          at_level : (h k j : ℕ) → h ≡ k → j < 2 ^ (13 - h) → j < 2 ^ (13 - k)
          at_level h k j e lt = rw e at lt

          cases :
              (h : ℕ)
              → ltb 8 h ≡ true
              → h ≤ 13
              → (h ≡ 9) ⊎ ((h ≡ 10) ⊎ ((h ≡ 11) ⊎ ((h ≡ 12) ⊎ (h ≡ 13))))
          cases h high le = ground arith
