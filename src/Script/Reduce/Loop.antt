-- ===== src/Script/Reduce/Loop.antt =====
-- src/bin/flatten_test.rs: one level of the reduction of words.
use gem_macro_optimization.Base.{
  ℕ, zero, suc, ◌+◌, ◌≤◌, ◌<◌, true, false, ◌==◌, ==_iff, ◌≡◌, ◌≢◌, ◌⊎◌, inl, inr, refl, ap₂, ◌∙◌,
  Bool-cases, arith,
}
use gem_macro_optimization.Script.Reduce.{Word, HierFlags, combine_words, store_word, reduce_loop}

store_word-other : (v : ℕ → Word) (i j : ℕ) (x : Word) → j ≢ i → store_word v i x j ≡ v j
store_word-other v i j x ne = let other : (j == i) ≡ false = ground arith in rw other refl

-- The words that a loop has written, and those that it has not.
pub record Writes (f : HierFlags) (a b dst i n : ℕ) (v r : ℕ → Word) : Type 0 where
  pub written :
      (k : ℕ) → i ≤ k → k < i + n → r (dst + k) ≡ combine_words f (dst + k) (v (a + k)) (v (b + k))
  pub kept : (x : ℕ) → (x < dst + i) ⊎ (dst + (i + n) ≤ x) → r x ≡ v x

pub reduce_loop-Writes :
    (f : HierFlags) (a b dst i n : ℕ) (v : ℕ → Word)
    → (dst ≤ a) ⊎ (a + (i + n) ≤ dst)
    → dst ≤ b
    → Writes f a b dst i n v (reduce_loop f a b dst i n v)
unfolding reduce_loop
reduce_loop-Writes f a b dst i zero v from_a from_b = record {
  written = λ k ge lt. absurd (omega arith);
  kept = λ x out. refl;
}
reduce_loop-Writes f a b dst i (suc n) v from_a from_b =
    let y : Word = combine_words f (dst + i) (v (a + i)) (v (b + i)) in
    let v' : ℕ → Word = store_word v (dst + i) y in
    let from_a' : (dst ≤ a) ⊎ (a + (i + 1 + n) ≤ dst) = elim from_a [
      | inl up ↦ inl up
      | inr down ↦ inr (omega (arith, down))
    ] in
    let rest = reduce_loop-Writes f a b dst (i + 1) n v' from_a' from_b in
    record {
      written = λ k ge lt. elim (Bool-cases (i == k)) [
        | inl same ↦
            let e : i ≡ k = (==_iff i k).0 same in
            let self : ((dst + i) == (dst + i)) ≡ true = ground arith in
            let here : v' (dst + i) ≡ y = rw self refl in
            let stays = rest.kept (dst + i) (inl (omega arith)) in rw (← e) (stays ∙ here)
        | inr other ↦
            let more : i + 1 ≤ k = ground arith in
            let ne_b : b + k ≢ dst + i = λ e. omega arith in
            let ne_a : a + k ≢ dst + i = λ e. elim from_a [
              | inl up ↦ omega (arith, up, e)
              | inr down ↦ omega (arith, down, e)
            ] in
            rest.written k more (omega arith)
            ∙ ap₂ (λ (x z : Word). combine_words f (dst + k) x z)
                (store_word-other v (dst + i) (a + k) y ne_a)
                (store_word-other v (dst + i) (b + k) y ne_b)
      ];
      kept = λ x out.
          let ne : x ≢ dst + i = λ e. elim out [
            | inl less ↦ omega (arith, less, e)
            | inr more ↦ omega (arith, more, e)
          ] in
          let out' : (x < dst + (i + 1)) ⊎ (dst + (i + 1 + n) ≤ x) = elim out [
            | inl less ↦ inl (omega (arith, less))
            | inr more ↦ inr (omega (arith, more))
          ] in
          rest.kept x out' ∙ store_word-other v (dst + i) x y ne;
    }
