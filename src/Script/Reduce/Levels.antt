-- ===== src/Script/Reduce/Levels.antt =====
-- src/bin/flatten_test.rs, src/flatten.rs and src/pe.rs: the levels that the reduction
-- computes in words, and each level of the last word.
use gem_macro_optimization.Base.{
  ℕ, suc, ◌+◌, ◌-◌, ◌*◌, ◌/◌, ◌%◌, ◌^◌, ◌≤◌, ◌<◌, Bool, ◌≡◌, inl, inr, refl, ap, ap₂, sym, ◌∙◌,
  arith,
}
use gem_macro_optimization.Flatten.Flags.{hier_bit}
use gem_macro_optimization.Script.Reduce.{
  Word, HierFlags, first_in_word, next_in_word, reduce_loop, reduce_levels,
}
use gem_macro_optimization.Script.Reduce.Loop.{reduce_loop-Writes}
use gem_macro_optimization.Script.Reduce.Last.{
  bit, value, HasLevels, HasLevels-next, InWord, first_in_word-InWord, next_in_word-InWord,
}

module _ (f : HierFlags) (v : ℕ → Word) where
  abbrev pub inputs : ℕ → Bool
  inputs q = bit v q

  -- A level of words over one whose places have their bits.
  level_on :
      (m width : ℕ) (u : ℕ → Word)
      → 1 ≤ m
      → m < 13
      → 2 ^ (13 - m) ≡ 2 * (32 * width)
      → 2 ^ (13 - suc m) ≡ 32 * width
      → HasLevels f inputs m u
      → HasLevels f inputs (suc m) (reduce_loop f (width * 2) (width * 3) width 0 width u)
  level_on m width u ge few above size has =
      let r = reduce_loop f (width * 2) (width * 3) width 0 width u in
      HasLevels-next f inputs m (width * 2) (width * 3) width u r above size (omega arith)
        (λ j lt.
          let word : width * 2 + j / 32 ≡ (2 ^ (13 - m) + j) / 32 = omega (arith, above) in
          let in_bit : j % 32 ≡ (2 ^ (13 - m) + j) % 32 = omega (arith, above) in
          ap₂ (λ (x y : ℕ). u x y) word in_bit
          ∙ has m j ge (omega arith) (omega (arith, above, lt))
          ∙ ap (λ (t : ℕ). value f inputs m t j) above)
        (reduce_loop-Writes f (width * 2) (width * 3) width 0 width u (inl (omega arith))
          (omega arith))
        has

  first_level : HasLevels f inputs 1 (reduce_loop f 0 128 128 0 128 v)
  unfolding hier_bit
  first_level =
      HasLevels-next f inputs 0 0 128 128 v (reduce_loop f 0 128 128 0 128 v) refl refl refl
        (λ j lt. let word : 0 + j / 32 ≡ j / 32 = omega arith in ap (λ (x : ℕ). v x (j % 32)) word)
        (reduce_loop-Writes f 0 128 128 0 128 v (inr (omega arith)) (omega arith))
        (λ h j ge le lt. absurd (omega arith))

  abbrev pub words : ℕ → Word
  words = reduce_levels f 1 7 (reduce_loop f 0 128 128 0 128 v)

  pub word_levels : HasLevels f inputs 8 words
  unfolding reduce_levels
  word_levels =
      let s : ℕ → (ℕ → Word) → ℕ → Word =
        λ width u. reduce_loop f (width * 2) (width * 3) width 0 width u in
      let s₁ : ℕ → Word = reduce_loop f 0 128 128 0 128 v in
      let s₂ : ℕ → Word = s 64 s₁ in
      let s₃ : ℕ → Word = s 32 s₂ in
      let s₄ : ℕ → Word = s 16 s₃ in
      let s₅ : ℕ → Word = s 8 s₄ in
      let s₆ : ℕ → Word = s 4 s₅ in
      let s₇ : ℕ → Word = s 2 s₆ in
      level_on 7 1 s₇ (omega arith) (omega arith) refl refl (
        level_on 6 2 s₆ (omega arith) (omega arith) refl refl (
          level_on 5 4 s₅ (omega arith) (omega arith) refl refl (
            level_on 4 8 s₄ (omega arith) (omega arith) refl refl (
              level_on 3 16 s₃ (omega arith) (omega arith) refl refl (
                level_on 2 32 s₂ (omega arith) (omega arith) refl refl
                  (level_on 1 64 s₁ (omega arith) (omega arith) refl refl first_level))))))

  last_word : (j : ℕ) → j < 32 → words 1 j ≡ value f inputs 8 32 j
  last_word j lt =
      let word : (32 + j) / 32 ≡ 1 = omega arith in
      let in_bit : (32 + j) % 32 ≡ j = omega arith in
      sym (ap₂ (λ (x y : ℕ). words x y) word in_bit)
      ∙ word_levels 8 j (omega arith) (omega arith) lt

  abbrev pub r8 : Word
  r8 = first_in_word f (words 1)

  abbrev pub r9 : Word
  r9 = next_in_word f 8 16 8 16 r8

  abbrev pub r10 : Word
  r10 = next_in_word f 4 8 4 8 r9

  abbrev pub r11 : Word
  r11 = next_in_word f 2 4 2 4 r10

  abbrev pub r12 : Word
  r12 = next_in_word f 1 2 1 2 r11

  pub r8-InWord : InWord f inputs 9 16 r8
  r8-InWord = first_in_word-InWord f inputs (words 1) last_word

  pub r9-InWord : InWord f inputs 10 8 r9
  r9-InWord = next_in_word-InWord f inputs 9 8 r8 refl (omega arith) r8-InWord

  pub r10-InWord : InWord f inputs 11 4 r10
  r10-InWord = next_in_word-InWord f inputs 10 4 r9 refl (omega arith) r9-InWord

  pub r11-InWord : InWord f inputs 12 2 r11
  r11-InWord = next_in_word-InWord f inputs 11 2 r10 refl (omega arith) r10-InWord

  pub r12-InWord : InWord f inputs 13 1 r12
  r12-InWord = next_in_word-InWord f inputs 12 1 r11 refl (omega arith) r11-InWord
