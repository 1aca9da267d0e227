-- ===== src/Script/Rounds.antt =====
-- src/bin/flatten_test.rs: the loop of a CARRY4 lane, round by round.
use mathlib.Core.Path.{subst}
use native.Mathlib.Nat.{add-zero}
use native.Mathlib.Numerals.{add-one}
use gem_macro_optimization.Base.{
  ℕ, zero, suc, ◌+◌, ◌/◌, ◌%◌, ◌≤◌, ◌<◌, List, bit_xor, ◌==◌, if◌then◌else◌, length, ◌≡◌, ◌≢◌, ◌⊎◌,
  inl, inr, refl, ap, ◌∙◌, arith,
}
use gem_macro_optimization.Base.Bits.{bit_xor_bits}
use gem_macro_optimization.Macros.Kind.{c4_in_s, c4_out_o, c4_out_co}
use gem_macro_optimization.Macros.Encode.{macro_pos_none}
use gem_macro_optimization.Sim.Carry.Adder.{carry_at, sum_at, carry_at-lt}
use gem_macro_optimization.Script.{at, read_bit, put, carry_lane_loop}
use gem_macro_optimization.Script.Bits.{read_bit-put, length-put}

-- The output positions of a CARRY4 lane: each slot has a position in the state or none, and no two
-- slots share one.
pub record AreOutputs (outs : List ℕ) (words : ℕ) : Type 0 where
  pub placed : (s : ℕ) → s < 8 → (at outs s ≡ macro_pos_none) ⊎ (at outs s / 32 < words)
  pub apart : (s t : ℕ) → s < 8 → t < 8 → at outs s ≢ macro_pos_none → at outs s ≡ at outs t → s ≡ t

module _ (outs x : List ℕ) (words : ℕ) (ao : AreOutputs outs words) where
  -- The state after one round, and after `n` rounds from round `i` on.
  abbrev pub after_round : ℕ → List ℕ → List ℕ
  after_round i st =
      put outs (put outs st (c4_out_o + i) (bit_xor (at x (c4_in_s + i) % 2) (carry_at x i)))
        (c4_out_co + i) (carry_at x (suc i))

  abbrev pub after_rounds : ℕ → ℕ → List ℕ → List ℕ
  after_rounds i zero st = st
  after_rounds i (suc n) st = after_rounds (i + 1) n (after_round i st)

  pub loop-rounds :
      (i n : ℕ) (st : List ℕ)
      → carry_lane_loop outs x i n st (carry_at x i) ≡ (after_rounds i n st, carry_at x (i + n))
  unfolding carry_lane_loop
  loop-rounds i zero st = rw add-zero
  loop-rounds i (suc n) st =
      let e : suc i + n ≡ i + suc n = omega arith in
      rw add-one (
        loop-rounds (suc i) n (after_round i st)
        ∙ ap (λ (t : ℕ). (after_rounds (suc i) n (after_round i st), carry_at x t)) e)

  round-length : (i : ℕ) (st : List ℕ) → length (after_round i st) ≡ length st
  round-length i st =
      length-put outs _ (c4_out_co + i) (carry_at x (suc i))
      ∙ length-put outs st (c4_out_o + i) (bit_xor (at x (c4_in_s + i) % 2) (carry_at x i))

  module _ (i : ℕ) (st : List ℕ) (lt : i < 4) (sized : length st ≡ words) where
    abbrev o_bit : ℕ
    o_bit = bit_xor (at x (c4_in_s + i) % 2) (carry_at x i)

    sized_put : length (put outs st (0 + i) o_bit) ≡ words
    sized_put = length-put outs st (0 + i) o_bit ∙ sized

    first_put :
        (q : ℕ)
        → read_bit (put outs st (0 + i) o_bit) q ≡ (
            if at outs (0 + i) == macro_pos_none
            then read_bit st q
            else if q == at outs (0 + i)
            then o_bit % 2
            else read_bit st q)
    first_put q = read_bit-put outs st (0 + i) o_bit q (rw sized (ao.placed (0 + i) (omega arith)))

    second_put :
        (q : ℕ)
        → read_bit (after_round i st) q ≡ (
            if at outs (4 + i) == macro_pos_none
            then read_bit (put outs st (0 + i) o_bit) q
            else if q == at outs (4 + i)
            then carry_at x (suc i) % 2
            else read_bit (put outs st (0 + i) o_bit) q)
    second_put q =
        read_bit-put outs (put outs st (0 + i) o_bit) (4 + i) (carry_at x (suc i)) q
          (rw sized_put (ao.placed (4 + i) (omega arith)))

    round-o :
        at outs (0 + i) ≢ macro_pos_none
        → read_bit (after_round i st) (at outs (0 + i)) ≡ sum_at x i
    round-o h = ground (
      arith,
      first_put (at outs (0 + i)),
      second_put (at outs (0 + i)),
      ao.apart (0 + i) (4 + i),
      bit_xor_bits (at x (c4_in_s + i) % 2) (carry_at x i),
      carry_at-lt x i,
    )

    round-co :
        at outs (4 + i) ≢ macro_pos_none
        → read_bit (after_round i st) (at outs (4 + i)) ≡ carry_at x (suc i)
    round-co h = ground (arith, second_put (at outs (4 + i)), carry_at-lt x (suc i))

    round-other :
        (q : ℕ)
        → q ≢ at outs (0 + i)
        → q ≢ at outs (4 + i)
        → read_bit (after_round i st) q ≡ read_bit st q
    round-other q h k = ground (arith, first_put q, second_put q)

  pub rounds-other :
      (i n : ℕ) (st : List ℕ) (q : ℕ)
      → i + n ≤ 4
      → length st ≡ words
      → ((j : ℕ) → i ≤ j → j < i + n → (q ≢ at outs (0 + j)) × (q ≢ at outs (4 + j)))
      → read_bit (after_rounds i n st) q ≡ read_bit st q
  rounds-other i zero st q le sized far = refl
  rounds-other i (suc n) st q le sized far =
      let here = far i (omega arith) (omega arith) in
      rounds-other (i + 1) n (after_round i st) q (omega arith) (round-length i st ∙ sized)
        (λ j g h. far j (omega arith) (omega arith))
      ∙ round-other i st (omega arith) sized q here.0 here.1

  -- The later rounds leave the position of a slot of round `i` alone.
  later-keep :
      (i n s : ℕ) (st : List ℕ)
      → i + suc n ≤ 4
      → length st ≡ words
      → s < 8
      → at outs s ≢ macro_pos_none
      → ((k : ℕ) → i < k → k < 4 → (s ≢ 0 + k) × (s ≢ 4 + k))
      → read_bit (after_rounds (i + 1) n st) (at outs s) ≡ read_bit st (at outs s)
  later-keep i n s st le sized slot some_pos far =
      rounds-other (i + 1) n st (at outs s) (omega arith) sized λ k g h. (
        λ same.
            (far k (omega arith) (omega arith)).0
              (ao.apart s (0 + k) slot (omega arith) some_pos same),
        λ same.
            (far k (omega arith) (omega arith)).1
              (ao.apart s (4 + k) slot (omega arith) some_pos same),
      )

  abbrev pub SumAt : ℕ → ℕ → List ℕ → ℕ → Type 0
  SumAt i n st j =
      at outs (0 + j) ≢ macro_pos_none
      → read_bit (after_rounds i n st) (at outs (0 + j)) ≡ sum_at x j

  abbrev pub CarryAt : ℕ → ℕ → List ℕ → ℕ → Type 0
  CarryAt i n st j =
      at outs (4 + j) ≢ macro_pos_none
      → read_bit (after_rounds i n st) (at outs (4 + j)) ≡ carry_at x (suc j)

  split : (i j : ℕ) → i ≤ j → (i ≡ j) ⊎ (i < j)
  split i j h = ground arith

  pub rounds-o :
      (i n j : ℕ) (st : List ℕ) → i + n ≤ 4 → length st ≡ words → i ≤ j → j < i + n → SumAt i n st j
  rounds-o i zero j st le sized g h = absurd (omega arith)
  rounds-o i (suc n) j st le sized g h = elim (split i j g) [
    | inl e ↦ subst (SumAt i (suc n) st) e λ some_pos.
        later-keep i n (0 + i) (after_round i st) le (round-length i st ∙ sized) (omega arith)
          some_pos (λ k a b. (omega arith, omega arith))
        ∙ round-o i st (omega arith) sized some_pos
    | inr later ↦
        rounds-o (i + 1) n j (after_round i st) (omega arith) (round-length i st ∙ sized)
          (omega arith) (omega arith)
  ]

  pub rounds-co :
      (i n j : ℕ) (st : List ℕ)
      → i + n ≤ 4
      → length st ≡ words
      → i ≤ j
      → j < i + n
      → CarryAt i n st j
  rounds-co i zero j st le sized g h = absurd (omega arith)
  rounds-co i (suc n) j st le sized g h = elim (split i j g) [
    | inl e ↦ subst (CarryAt i (suc n) st) e λ some_pos.
        later-keep i n (4 + i) (after_round i st) le (round-length i st ∙ sized) (omega arith)
          some_pos (λ k a b. (omega arith, omega arith))
        ∙ round-co i st (omega arith) sized some_pos
    | inr later ↦
        rounds-co (i + 1) n j (after_round i st) (omega arith) (round-length i st ∙ sized)
          (omega arith) (omega arith)
  ]
