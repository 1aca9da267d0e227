-- ===== src/Sim/Dsp/Fields.antt =====
-- src/bin/naive_sim.rs: gathered fields, and `sext`.
use native.Mathlib.Nat.{pow-suc, pow-le-pow_right, one-le-pow, add-zero, mod-eq_of_lt}
use native.Mathlib.Numerals.{add-one}
use gem_macro_optimization.Base.{
  ℕ, zero, suc, ◌+◌, ◌-◌, ◌*◌, ◌%◌, ◌^◌, ◌≤◌, ◌<◌, List, bit_or, ◌≡◌, ap, ◌∙◌, arith,
}
use gem_macro_optimization.Base.Bits.{bit_or_low, bit_xor_top_low, bit_xor_top_high}
use gem_macro_optimization.Base.Words.{u64_mod}
use gem_macro_optimization.Sim.Carry.{at}
use gem_macro_optimization.Sim.Dsp.{bits_from, bits_to_u64, sext}

-- The number whose bits are the pins `base`, …, `base + n - 1`, lowest first.
abbrev pub field : List ℕ → ℕ → ℕ → ℕ
field v base zero = 0
field v base (suc n) = field v base n + at v (base + n) % 2 * 2 ^ n

two-pow-lt : (i n : ℕ) → i < n → 2 ^ i < 2 ^ n
two-pow-lt i n h =
    omega (arith, pow-suc 2 i, one-le-pow i 2, pow-le-pow_right {n = 2} (omega arith) h)

pub field-lt : (v : List ℕ) (base n : ℕ) → field v base n < 2 ^ n
field-lt v base zero = omega arith
field-lt v base (suc n) =
    ground (arith, pow-suc 2 n, field-lt v base n, bit_le (at v (base + n) % 2) (2 ^ n))
  where
    bit_le : (b p : ℕ) → b < 2 → b * p ≤ p
    bit_le b p h = grind arith

-- One round of the loop appends a bit.
set_bit :
    (v : List ℕ) (base i : ℕ)
    → i < 64
    → bit_or (field v base i) (at v (base + i) % 2 * 2 ^ i % u64_mod) ≡ field v base (suc i)
set_bit v base i h =
    rw (mod-eq_of_lt (bit-lt (at v (base + i) % 2) (omega arith)))
      (bit_or_low i (at v (base + i) % 2) (field v base i) (field-lt v base i))
  where
    bit-lt : (b : ℕ) → b < 2 → b * 2 ^ i < u64_mod
    bit-lt zero k = omega arith
    bit-lt (suc zero) k = omega (arith, two-pow-lt i 64 h)
    bit-lt (suc (suc b)) k = absurd (omega arith)

bits_from-field :
    (v : List ℕ) (base i n : ℕ)
    → i + n ≤ 64
    → bits_from v base i n (field v base i) ≡ field v base (i + n)
unfolding bits_from
bits_from-field v base i zero h = rw add-zero
bits_from-field v base i (suc n) h =
    rw (set_bit v base i (omega arith), add-one)
      (bits_from-field v base (suc i) n (omega arith) ∙ ap (field v base) (omega arith))

-- The loop gathers the pins of a field of up to 64 bits.
pub bits_to_u64-field :
    (v : List ℕ) (base width : ℕ) → width ≤ 64 → bits_to_u64 v base width ≡ field v base width
unfolding bits_to_u64
bits_to_u64-field v base width h =
    bits_from-field v base 0 width (omega arith) ∙ ap (field v base) (omega arith)

suc-sub_one : (k : ℕ) → suc k - 1 ≡ k
suc-sub_one k = omega arith

-- Sign extension of a field of `k + 1` bits, up to 64.
pub sext_low : (k v : ℕ) → v < 2 ^ k → k < 64 → sext v (suc k) ≡ v
unfolding sext
sext_low k v h hk = rw (suc-sub_one k, bit_xor_top_low k v h) (omega (arith, two-pow-lt k 64 hk))

pub sext_high :
    (k v : ℕ) → 2 ^ k ≤ v → v < 2 ^ suc k → k < 64 → sext v (suc k) ≡ v + u64_mod - 2 ^ suc k
unfolding sext
sext_high k v g h hk =
    rw (suc-sub_one k, bit_xor_top_high k v g h) (omega (arith, pow-suc 2 k, two-pow-lt k 64 hk))
