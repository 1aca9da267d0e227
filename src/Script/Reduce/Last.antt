-- ===== src/Script/Reduce/Last.antt =====
-- src/bin/flatten_test.rs: the levels of the reduction against the bits of the places. Place `j` of
-- level `h`, of `2 ^ (13 - h)` places, is bit `2 ^ (13 - h) + j` of the vectors.
use gem_macro_optimization.Base.{
  ℕ, suc, ◌+◌, ◌-◌, ◌*◌, ◌/◌, ◌%◌, ◌^◌, ◌≤◌, ◌<◌, Bool, true, false, ◌&&◌, ltb, ◌≡◌, ◌⊎◌, inl, inr,
  refl, ap, ap₂, sym, ◌∙◌, arith,
}
use native.Mathlib.Nat.{pow-le-pow_right}
use gem_macro_optimization.Flatten.Flags.{Flags, combine, hier_bit}
use gem_macro_optimization.Script.Reduce.{
  Word, HierFlags, combine_words, shl, shr, mask, first_in_word, next_in_word,
}
use gem_macro_optimization.Script.Reduce.Loop.{Writes}

abbrev pub bit : (ℕ → Word) → ℕ → Bool
bit v q = v (q / 32) (q % 32)

abbrev pub word_flags : HierFlags → ℕ → ℕ → Flags
word_flags f i k = record { xora = f.xora i k; xorb = f.xorb i k; orb = f.orb i k }

-- The flags of a place.
abbrev pub flags_at : HierFlags → ℕ → ℕ → Flags
flags_at f h j = let q = 2 ^ (13 - h) + j in word_flags f (q / 32) (q % 32)

flags_at-word :
    (f : HierFlags) (h j i k : ℕ)
    → 2 ^ (13 - h) + j ≡ 32 * i + k
    → k < 32
    → flags_at f h j ≡ word_flags f i k
flags_at-word f h j i k e lt =
    let in_word : (2 ^ (13 - h) + j) / 32 ≡ i = omega (arith, e, lt) in
    let in_bit : (2 ^ (13 - h) + j) % 32 ≡ k = omega (arith, e, lt) in
    ap₂ (λ (x y : ℕ). word_flags f x y) in_word in_bit

module _ (f : HierFlags) (inputs : ℕ → Bool) where
  abbrev pub value : ℕ → ℕ → ℕ → Bool
  value h w j = hier_bit (flags_at f) inputs h w j

  -- The places of the levels 1 to `m` have their bits.
  abbrev pub HasLevels : ℕ → (ℕ → Word) → Type 0
  HasLevels m v =
      (h j : ℕ)
      → 1 ≤ h
      → h ≤ m
      → j < 2 ^ (13 - h)
      → bit v (2 ^ (13 - h) + j) ≡ value h (2 ^ (13 - h)) j

  -- A level of words.
  pub word_level :
      (m a b width : ℕ) (v r : ℕ → Word)
      → 2 ^ (13 - suc m) ≡ 32 * width
      → b ≡ a + width
      → ((j : ℕ) → j < 2 * (32 * width) → v (a + j / 32) (j % 32) ≡ value m (2 * (32 * width)) j)
      → Writes f a b width 0 width v r
      → (j : ℕ) → j < 32 * width
      → bit r (32 * width + j) ≡ value (suc m) (32 * width) j
  unfolding hier_bit
  word_level m a b width v r size is_b sources writes j lt =
      let at_word : (32 * width + j) / 32 ≡ width + j / 32 = omega arith in
      let at_bit : (32 * width + j) % 32 ≡ j % 32 = omega arith in
      let written = writes.written (j / 32) (omega arith) (omega arith) in
      let from_a = sources j (omega arith) in
      let word_b : a + (j + 32 * width) / 32 ≡ b + j / 32 = omega (arith, is_b) in
      let bit_b : (j + 32 * width) % 32 ≡ j % 32 = omega arith in
      let from_b : v (b + j / 32) (j % 32) ≡ value m (2 * (32 * width)) (j + 32 * width) =
        sym (ap₂ (λ (x y : ℕ). v x y) word_b bit_b) ∙ sources (j + 32 * width) (omega arith) in
      let flags : flags_at f (suc m) j ≡ word_flags f (width + j / 32) (j % 32) =
        flags_at-word f (suc m) j (width + j / 32) (j % 32) (omega (arith, size)) (omega arith) in
      ap₂ (λ (x y : ℕ). r x y) at_word at_bit
      ∙ ap (λ (x : Word). x (j % 32)) written
      ∙ ap₂ (λ (x y : Bool). combine (word_flags f (width + j / 32) (j % 32)) x y) from_a from_b
      ∙ ap
          (λ (t : Flags).
            combine t (value m (2 * (32 * width)) j) (value m (2 * (32 * width)) (j + 32 * width)))
          (sym flags)

  pub HasLevels-next :
      (m a b width : ℕ) (v r : ℕ → Word)
      → 2 ^ (13 - m) ≡ 2 * (32 * width)
      → 2 ^ (13 - suc m) ≡ 32 * width
      → b ≡ a + width
      → ((j : ℕ) → j < 2 * (32 * width) → v (a + j / 32) (j % 32) ≡ value m (2 * (32 * width)) j)
      → Writes f a b width 0 width v r
      → HasLevels m v
      → HasLevels (suc m) r
  HasLevels-next m a b width v r above size is_b sources writes has h j ge le lt =
      elim (below h m le) [
        | inl older ↦
            let wide : 2 ^ (13 - m) ≤ 2 ^ (13 - h) =
              pow-le-pow_right {n = 2} (omega arith) (omega arith) in
            let kept = writes.kept ((2 ^ (13 - h) + j) / 32) (inr (omega (arith, wide, above))) in
            ap (λ (x : Word). x ((2 ^ (13 - h) + j) % 32)) kept ∙ has h j ge older lt
        | inr newest ↦
            let places : 2 ^ (13 - h) ≡ 32 * width = ap (λ (t : ℕ). 2 ^ (13 - t)) newest ∙ size in
            ap (λ (t : ℕ). bit r (t + j)) places
            ∙ word_level m a b width v r size is_b sources writes j (omega (arith, lt, places))
            ∙ sym (ap₂ (λ (x y : ℕ). value x y j) newest places)
      ]
    where
      below : (h m : ℕ) → h ≤ suc m → (h ≤ m) ⊎ (h ≡ suc m)
      below h m le = ground arith

  -- The levels in the last word.
  abbrev pub InWord : ℕ → ℕ → Word → Type 0
  InWord h w r = (j : ℕ) → j < w → r (w + j) ≡ value h w j

  and_true : (x : Bool) → (x && true) ≡ x
  and_true true = refl
  and_true false = refl

  in_mask : (w j : ℕ) → j < w → mask w (2 * w) (w + j) ≡ true
  in_mask w j lt = ground arith

  pub first_in_word-InWord :
      (v1 : Word) → ((j : ℕ) → j < 32 → v1 j ≡ value 8 32 j) → InWord 9 16 (first_in_word f v1)
  unfolding hier_bit
  first_in_word-InWord v1 has j lt =
      let shifted : shl 16 v1 (16 + j) ≡ v1 j =
        let above : ltb (16 + j) 16 ≡ false = ground arith in
        let back : 16 + j - 16 ≡ j = omega arith in rw (above, back) refl in
      let flags : flags_at f 9 j ≡ word_flags f 0 (16 + j) =
        flags_at-word f 9 j 0 (16 + j) (omega arith) (omega arith) in
      let order : 16 + j ≡ j + 16 = omega arith in
      let first = shifted ∙ has j (omega arith) in
      let second : v1 (16 + j) ≡ value 8 32 (j + 16) = ap v1 order ∙ has (j + 16) (omega arith) in
      ap (λ (t : Bool). combine_words f 0 (shl 16 v1) v1 (16 + j) && t) (in_mask 16 j lt)
      ∙ and_true (combine_words f 0 (shl 16 v1) v1 (16 + j))
      ∙ ap₂ (λ (x y : Bool). combine (word_flags f 0 (16 + j)) x y) first second
      ∙ ap (λ (t : Flags). combine t (value 8 32 j) (value 8 32 (j + 16))) (sym flags)

  pub next_in_word-InWord :
      (h w : ℕ) (r : Word)
      → 2 ^ (13 - suc h) ≡ w
      → w ≤ 16
      → InWord h (2 * w) r
      → InWord (suc h) w (next_in_word f w (2 * w) w (2 * w) r)
  unfolding hier_bit
  next_in_word-InWord h w r size small has j lt =
      let flags : flags_at f (suc h) j ≡ word_flags f 0 (w + j) =
        flags_at-word f (suc h) j 0 (w + j) (omega (arith, size)) (omega arith) in
      let at_a : w + j + w ≡ 2 * w + j = omega arith in
      let at_b : w + j + 2 * w ≡ 2 * w + (j + w) = omega arith in
      let first = ap r at_a ∙ has j (omega arith) in
      let second = ap r at_b ∙ has (j + w) (omega arith) in
      ap (λ (t : Bool). combine_words f 0 (shr w r) (shr (2 * w) r) (w + j) && t) (in_mask w j lt)
      ∙ and_true (combine_words f 0 (shr w r) (shr (2 * w) r) (w + j))
      ∙ ap₂ (λ (x y : Bool). combine (word_flags f 0 (w + j)) x y) first second
      ∙ ap (λ (t : Flags). combine t (value h (2 * w) j) (value h (2 * w) (j + w))) (sym flags)
