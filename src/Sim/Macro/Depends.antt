-- ===== src/Sim/Macro/Depends.antt =====
-- src/macros.rs against src/bin/naive_sim.rs: the declared fan-in and what the evaluation reads.
use native.Mathlib.Nat.{add-zero}
use gem_macro_optimization.Base.{
  ℕ, zero, suc, ◌+◌, ◌-◌, ◌/◌, ◌%◌, ◌^◌, ◌<◌, ◌≤◌, List, [], ◌∷◌, ◌++◌, ltb, range_from,
  if◌then◌else◌, ◌≡◌, refl, ap, ◌∙◌, sym, inl, inr, Bool, Bool-cases, arith, ok,
}
use gem_macro_optimization.Macros.Kind.{
  MacroKind, carry4, dsp48e2, srlc32e, c4_in_ci, c4_in_cyinit, c4_in_di, c4_in_s, num_outputs,
  DspState, c4_out_co,
}
use gem_macro_optimization.Macros.Fanin.{carry_links, comb_fanin_of_output, state_fanin}
use gem_macro_optimization.Sim.Carry.{at, carry_in}
use gem_macro_optimization.Sim.Carry.Adder.{
  carry_at, sum_at, bits_value, carry_at-lt, sum_at-lt, eval_carry4_lem,
}
use gem_macro_optimization.Base.Bits.{bit_or_step}
use gem_macro_optimization.Sim.Dsp.{bits_from, bits_to_u64, eval_dsp_next}
use gem_macro_optimization.Sim.Srl.{srl_address, srl_q, eval_srl_next}
use gem_macro_optimization.Sim.Macro.{eval_output, next_state}

-- Two vectors of pin values hold the same bit in a slot, and in every slot of a list.
abbrev pub SameBit : List ℕ → List ℕ → ℕ → Type 0
SameBit x y s = at x s % 2 ≡ at y s % 2

abbrev pub AgreeOn : List ℕ → List ℕ → List ℕ → Type 0
AgreeOn [] x y = Unit
AgreeOn (s ∷ ss) x y = SameBit x y s × AgreeOn ss x y

AgreeOn-left : (ss ts : List ℕ) (x y : List ℕ) → AgreeOn (ss ++ ts) x y → AgreeOn ss x y
AgreeOn-left [] ts x y h = tt
AgreeOn-left (s ∷ ss) ts x y h = (h.0, AgreeOn-left ss ts x y h.1)

AgreeOn-right : (ss ts : List ℕ) (x y : List ℕ) → AgreeOn (ss ++ ts) x y → AgreeOn ts x y
AgreeOn-right [] ts x y h = h
AgreeOn-right (s ∷ ss) ts x y h = AgreeOn-right ss ts x y h.1

AgreeOn-link :
    (x y : List ℕ) (j n i : ℕ)
    → AgreeOn (carry_links j n) x y
    → i < n
    → SameBit x y (c4_in_s + (j + i)) × SameBit x y (c4_in_di + (j + i))
AgreeOn-link x y j zero i h lt = absurd (omega arith)
AgreeOn-link x y j (suc n) zero h lt = rw add-zero (h.0, h.1.0)
AgreeOn-link x y j (suc n) (suc i) h lt =
    let e : j + suc i ≡ j + 1 + i = omega arith in
    rw e (AgreeOn-link x y (j + 1) n i h.1.1 (omega arith))

carry_in-agree :
    (x y : List ℕ) → SameBit x y c4_in_ci → SameBit x y c4_in_cyinit → carry_in x ≡ carry_in y
unfolding carry_in
carry_in-agree x y h k = omega (
  arith,
  bit_or_step (at x c4_in_ci) (at x c4_in_cyinit),
  bit_or_step (at y c4_in_ci) (at y c4_in_cyinit),
)

carry_at-agree :
    (x y : List ℕ) (n i : ℕ)
    → carry_in x ≡ carry_in y
    → AgreeOn (carry_links 0 n) x y
    → i ≤ n
    → carry_at x i ≡ carry_at y i
carry_at-agree x y n zero e h le = e
carry_at-agree x y n (suc i) e h le =
    ground (arith, AgreeOn-link x y 0 n i h (omega arith), carry_at-agree x y n i e h (omega arith))

-- Bit `i` of a four-bit value.
bits_value-bit :
    (f : ℕ → ℕ) (i : ℕ) → ((j : ℕ) → f j < 2) → i < 4 → bits_value f 4 / 2 ^ i % 2 ≡ f i
bits_value-bit f zero h lt = omega (arith, h 0, h 1, h 2, h 3)
bits_value-bit f (suc zero) h lt = omega (arith, h 0, h 1, h 2, h 3)
bits_value-bit f (suc (suc zero)) h lt = omega (arith, h 0, h 1, h 2, h 3)
bits_value-bit f (suc (suc (suc zero))) h lt = omega (arith, h 0, h 1, h 2, h 3)
bits_value-bit f (suc (suc (suc (suc i)))) h lt = absurd (omega arith)

-- The output bits of a CARRY4, by slot.
abbrev pub carry_output : List ℕ → ℕ → ℕ
carry_output x s = if ltb s c4_out_co then sum_at x (s - 0) else carry_at x (suc (s - c4_out_co))

pub eval_output-carry :
    (x : List ℕ) (st s : ℕ) → s < 8 → eval_output carry4 x st s ≡ ok (carry_output x s)
unfolding eval_output
eval_output-carry x st s h = rw (eval_carry4_lem x) (
    ground (
      arith,
      bits_value-bit (sum_at x) (s - 0) (sum_at-lt x),
      bits_value-bit (λ j. carry_at x (suc j)) (s - 4) (λ j. carry_at-lt x (suc j)),
    ))

carry_output-agree :
    (x y : List ℕ) (s : ℕ)
    → s < 8
    → AgreeOn (comb_fanin_of_output carry4 s) x y
    → carry_output x s ≡ carry_output y s
unfolding comb_fanin_of_output
carry_output-agree x y s lt = elim (Bool-cases (ltb s c4_out_co)) [
  | inl low ↦ rw low (λ h.
      let same = carry_in-agree x y h.0 h.1.0 in
      let links = AgreeOn-left (carry_links 0 (s - 0)) _ x y h.1.1 in
      let last = AgreeOn-right (carry_links 0 (s - 0)) _ x y h.1.1 in
      let c = carry_at-agree x y (s - 0) (s - 0) same links (omega arith) in
      ground (arith, c, last.0))
  | inr high ↦ rw high (λ h.
      let same = carry_in-agree x y h.0 h.1.0 in
      let n : s - 4 + 1 ≡ suc (s - 4) = omega arith in
      carry_at-agree x y (s - 4 + 1) (suc (s - 4)) same h.1.1 (omega arith))
]

srl_address-agree :
    (x y : List ℕ) → AgreeOn (comb_fanin_of_output srlc32e 0) x y → srl_address x ≡ srl_address y
unfolding srl_address comb_fanin_of_output
srl_address-agree x y h = ground arith

-- Two runs of an output's evaluation agree if the inputs agree on the output's declared fan-in:
-- nothing outside the fan-in is read.
pub eval_output-agree :
    (k : MacroKind) (x y : List ℕ) (st s : ℕ)
    → s < num_outputs k
    → AgreeOn (comb_fanin_of_output k s) x y
    → eval_output k x st s ≡ eval_output k y st s
unfolding num_outputs
eval_output-agree carry4 x y st s lt h =
    eval_output-carry x st s lt
    ∙ ap ok (carry_output-agree x y s lt h)
    ∙ sym (eval_output-carry y st s lt)
eval_output-agree (dsp48e2 state pre) x y st s lt h = unfold eval_output in refl
eval_output-agree srlc32e x y st zero lt h =
    unfold eval_output srl_q in
    ap (λ (a : ℕ). ok (st % 2 ^ 32 / 2 ^ a % 2)) (srl_address-agree x y h)
eval_output-agree srlc32e x y st (suc s) lt h = unfold eval_output in ground arith

bits_from-agree :
    (x y : List ℕ) (base i n r : ℕ)
    → ((j : ℕ) → j < i + n → SameBit x y (base + j))
    → bits_from x base i n r ≡ bits_from y base i n r
unfolding bits_from
bits_from-agree x y base i zero r h = refl
bits_from-agree x y base i (suc n) r h =
    rw (h i (omega arith)) (bits_from-agree x y base (i + 1) n _ (λ j lt. h j (omega arith)))

AgreeOn-range :
    (x y : List ℕ) (lo n j : ℕ) → AgreeOn (range_from lo n) x y → j < n → SameBit x y (lo + j)
AgreeOn-range x y lo zero j h lt = absurd (omega arith)
AgreeOn-range x y lo (suc n) zero h lt = rw add-zero h.0
AgreeOn-range x y lo (suc n) (suc j) h lt =
    let e : lo + suc j ≡ lo + 1 + j = omega arith in
    rw e (AgreeOn-range x y (lo + 1) n j h.1 (omega arith))

module _ (x y : List ℕ) (h : AgreeOn (range_from 0 121) x y) where
  same_slot : (s : ℕ) → s < 121 → SameBit x y s
  same_slot s lt = let e : s ≡ 0 + s = omega arith in rw e (AgreeOn-range x y 0 121 s h lt)

  same_field : (base n : ℕ) → base + n ≤ 121 → bits_to_u64 x base n ≡ bits_to_u64 y base n
  unfolding bits_to_u64
  same_field base n le = bits_from-agree x y base 0 n 0 (λ j lt. same_slot (base + j) (omega arith))

  eval_dsp_next-agree :
      (p : ℕ) (state : DspState) (pre : Bool)
      → eval_dsp_next x p state pre ≡ eval_dsp_next y p state pre
  unfolding eval_dsp_next
  eval_dsp_next-agree p state pre =
      rw
        (
          same_field 0 27 (omega arith),
          same_field 27 18 (omega arith),
          same_field 45 48 (omega arith),
          same_field 93 27 (omega arith),
          same_slot 120 (omega arith),
        )
        refl

-- Two runs of the next-state computation agree if the inputs agree on the declared state fan-in; in
-- particular the read address of an SRLC32E has no influence on its shift register.
pub next_state-agree :
    (k : MacroKind) (x y : List ℕ) (cur : ℕ)
    → AgreeOn (state_fanin k) x y
    → next_state k x cur ≡ next_state k y cur
unfolding next_state
next_state-agree carry4 x y cur h = refl
next_state-agree (dsp48e2 state pre) x y cur h =
    ap ok (eval_dsp_next-agree x y (unfold state_fanin in h) cur state pre)
next_state-agree srlc32e x y cur h =
    let h' : SameBit x y 0 × (SameBit x y 1 × Unit) = unfold state_fanin in h in
    unfold eval_srl_next in rw (h'.0, h'.1.0) refl
