-- ===== src/Sim/Carry/Adder.antt =====
-- src/bin/naive_sim.rs: `eval_carry4` bit by bit, and wired as an adder.
use native.Mathlib.Nat.{pow-suc, mul-le-mul_right, add-zero}
use native.Mathlib.Numerals.{add-one}
use gem_macro_optimization.Base.{
  ℕ, zero, suc, ◌+◌, ◌*◌, ◌/◌, ◌%◌, ◌^◌, ◌≤◌, ◌<◌, List, bit_or, ◌==◌, ◌≡◌, arith, if◌then◌else◌,
  ◌∙◌, ap,
}
use gem_macro_optimization.Base.Bits.{bit_or_low, bit_xor_bits}
use gem_macro_optimization.Macros.Kind.{c4_in_di, c4_in_s}
use gem_macro_optimization.Sim.Carry.{at, CarryVars, carry_round, carry_loop, carry_in, eval_carry4}

-- The carry into bit `i`, and the sum bit `i`, by their defining equations
-- C[i + 1] = S[i] ? C[i] : DI[i] and O[i] = S[i] ^ C[i].
abbrev pub carry_at : List ℕ → ℕ → ℕ
carry_at inp zero = carry_in inp
carry_at inp (suc i) =
    if at inp (c4_in_s + i) % 2 == 0 then at inp (c4_in_di + i) % 2 else carry_at inp i

abbrev pub sum_at : List ℕ → ℕ → ℕ
sum_at inp i = (at inp (c4_in_s + i) % 2 + carry_at inp i) % 2

carry_in-lt : (inp : List ℕ) → carry_in inp < 2
unfolding carry_in
carry_in-lt inp = omega arith

pub carry_at-lt : (inp : List ℕ) (i : ℕ) → carry_at inp i < 2
carry_at-lt inp zero = carry_in-lt inp
carry_at-lt inp (suc i) = ground (arith, carry_at-lt inp i)

-- The number whose bits are `f 0`, …, `f (n - 1)`, lowest first.
abbrev pub bits_value : (ℕ → ℕ) → ℕ → ℕ
bits_value f zero = 0
bits_value f (suc n) = bits_value f n + f n * 2 ^ n

abbrev vars_after : List ℕ → ℕ → CarryVars
vars_after inp i = record {
  c = carry_at inp i;
  o = bits_value (sum_at inp) i;
  co = bits_value (λ j. carry_at inp (suc j)) i;
}

pub bits_value-lt : (f : ℕ → ℕ) (n : ℕ) → ((i : ℕ) → f i < 2) → bits_value f n < 2 ^ n
bits_value-lt f zero h = omega arith
bits_value-lt f (suc n) h =
    omega (arith, pow-suc 2 n, bits_value-lt f n h, mul-le-mul_right (2 ^ n) (f_le n))
  where
    f_le : (i : ℕ) → f i ≤ 1
    f_le i = omega (arith, h i)

-- Bit `i` of a byte that was clear is set to `b`.
or_bit : (v b i : ℕ) → v < 2 ^ i → b < 2 → i < 4 → bit_or v (b * 2 ^ i % 2 ^ 8) ≡ v + b * 2 ^ i
or_bit v b zero hv hb h = ground (arith, bit_or_low 0 b v hv)
or_bit v b (suc zero) hv hb h = ground (arith, bit_or_low 1 b v hv)
or_bit v b (suc (suc zero)) hv hb h = ground (arith, bit_or_low 2 b v hv)
or_bit v b (suc (suc (suc zero))) hv hb h = ground (arith, bit_or_low 3 b v hv)
or_bit v b (suc (suc (suc (suc i)))) hv hb h = absurd (omega arith)

pub sum_at-lt : (inp : List ℕ) (i : ℕ) → sum_at inp i < 2
sum_at-lt inp i = omega arith

carry_round-vars :
    (inp : List ℕ) (i : ℕ) → i < 4 → carry_round inp i (vars_after inp i) ≡ vars_after inp (suc i)
unfolding carry_round
carry_round-vars inp i h = ground (
  arith,
  or_bit (bits_value (sum_at inp) i) (sum_at inp i) i
      (bits_value-lt (sum_at inp) i (sum_at-lt inp)),
  or_bit (bits_value (λ j. carry_at inp (suc j)) i) (carry_at inp (suc i)) i
      (bits_value-lt (λ j. carry_at inp (suc j)) i (λ j. carry_at-lt inp (suc j))),
  bit_xor_bits (at inp (c4_in_s + i) % 2) (carry_at inp i),
  carry_at-lt inp i,
  carry_at-lt inp (suc i),
)

carry_loop-vars :
    (inp : List ℕ) (i n : ℕ)
    → i + n < 5
    → carry_loop inp i n (vars_after inp i) ≡ vars_after inp (i + n)
unfolding carry_loop
carry_loop-vars inp i zero h = rw add-zero
carry_loop-vars inp i (suc n) h =
    rw (carry_round-vars inp i (omega arith), add-one)
      (carry_loop-vars inp (suc i) n (omega arith) ∙ ap (vars_after inp) (omega arith))

-- The loop computes every sum bit and every carry by its defining equation.
pub eval_carry4_lem :
    (inp : List ℕ)
    → eval_carry4 inp ≡ (bits_value (sum_at inp) 4, bits_value (λ j. carry_at inp (suc j)) 4)
unfolding eval_carry4
eval_carry4_lem inp = ap (λ (v : CarryVars). (v.o, v.co)) (carry_loop-vars inp 0 4 (omega arith))

-- One link of an adder: the select pin holds the exclusive or of the operands' bits, the data pin
-- a bit of the first.
abbrev pub WiredAsAdder : List ℕ → ℕ → ℕ → ℕ → Type 0
WiredAsAdder inp a b i =
    (at inp (c4_in_s + i) % 2 ≡ (a / 2 ^ i + b / 2 ^ i) % 2)
    × (at inp (c4_in_di + i) % 2 ≡ a / 2 ^ i % 2)

full_adder :
    (inp : List ℕ) (a b i : ℕ)
    → WiredAsAdder inp a b i
    → 2 * carry_at inp (suc i) + sum_at inp i ≡ a / 2 ^ i % 2 + b / 2 ^ i % 2 + carry_at inp i
full_adder inp a b i h = ground (arith, carry_at-lt inp i)

-- A CARRY4 whose pins are wired as an adder of two 4-bit numbers gives their sum with the carry in:
-- the low four bits on `O`, and the carry out on `CO[3]`.
pub eval_carry4_adds :
    (inp : List ℕ) (a b : ℕ)
    → a < 16
    → b < 16
    → ((i : ℕ) → i < 4 → WiredAsAdder inp a b i)
    → (eval_carry4 inp).0 + 16 * ((eval_carry4 inp).1 / 8) ≡ a + b + carry_in inp
eval_carry4_adds inp a b ha hb h = rw (eval_carry4_lem inp) (
    omega (
      arith,
      full_adder inp a b 0 (h 0 (omega arith)),
      full_adder inp a b 1 (h 1 (omega arith)),
      full_adder inp a b 2 (h 2 (omega arith)),
      full_adder inp a b 3 (h 3 (omega arith)),
      carry_at-lt inp 1,
      carry_at-lt inp 2,
      carry_at-lt inp 3,
    ))
