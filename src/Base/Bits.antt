-- ===== src/Base/Bits.antt =====
-- Bit operations at variables: `|` and `^` of single bits, `|` of disjoint fields, masks, and the
-- toggling of a top bit, as arithmetic.
use Prim.Native.Nat.{
  ℕ, zero, suc, ◌+◌, ◌-◌, ◌*◌, ◌/◌, ◌%◌, ◌^◌, ◌≤◌, ◌<◌, min, max, digits, bitwise, bit_and, differ,
  bit_or, bit_xor, bit_and-bitwise, bit_or-bitwise, bit_xor-bitwise,
}
use mathlib.Core.Path.{◌≡◌, refl, ap, sym, ◌∙◌}
use gem_macro_optimization.Base.Tests.{◌==◌, if◌then◌else◌}
use native.Mathlib.Nat.{
  pow-suc, pow-succ', one-le-pow, div-add-mod, mod-lt, mod-eq_of_lt, mul-add-mod_self_left,
  div-div-eq-div-mul, pow-le-pow_right,
}
use native.Mathlib.Omega.{arith}

-- An operation on binary digits: `z` where the left number has run out, `f` on a digit of each.
module _ (z : ℕ → ℕ) (f : ℕ → ℕ → ℕ) where
  digits_spare : (n m : ℕ) (b : ℕ) {a : ℕ} → a ≤ n → n ≤ m → digits z f m a b ≡ digits z f n a b
  digits_spare zero zero b {a = zero} fits more = refl
  digits_spare zero (suc m) b {a = zero} fits more = refl
  digits_spare zero m b {a = suc a} fits more = absurd (omega arith)
  digits_spare (suc n) zero b fits more = absurd (omega arith)
  digits_spare (suc n) (suc m) b {a = zero} fits more = refl
  digits_spare (suc n) (suc m) b {a = suc a} fits more =
      ap (λ (t : ℕ). t * 2 + f (suc a % 2) (b % 2))
        (digits_spare n m (b / 2) (omega arith) (omega arith))

  digits_enough : (n a b : ℕ) → a ≤ n → digits z f n a b ≡ bitwise z f a b
  digits_enough n a b fits = digits_spare a n b (omega arith) fits

  lowest_digit :
      ((b : ℕ) → z b ≡ bitwise z f 0 (b / 2) * 2 + f 0 (b % 2))
      → (a b : ℕ) → bitwise z f a b ≡ bitwise z f (a / 2) (b / 2) * 2 + f (a % 2) (b % 2)
  lowest_digit run_out zero b = run_out b
  lowest_digit run_out (suc a) b =
      ap (λ (t : ℕ). t * 2 + f (suc a % 2) (b % 2))
        (digits_enough a (suc a / 2) (b / 2) (omega arith))

pub bit_or_step : (a b : ℕ) → bit_or a b ≡ bit_or (a / 2) (b / 2) * 2 + max (a % 2) (b % 2)
bit_or_step a b =
    let law = lowest_digit (λ y. y) max (λ c. omega arith) a b in
    bit_or-bitwise a b
    ∙ law
    ∙ ap (λ (t : ℕ). t * 2 + max (a % 2) (b % 2)) (sym (bit_or-bitwise (a / 2) (b / 2)))

pub bit_and_step : (a b : ℕ) → bit_and a b ≡ bit_and (a / 2) (b / 2) * 2 + min (a % 2) (b % 2)
bit_and_step a b =
    let law = lowest_digit (λ y. 0) min (λ c. omega arith) a b in
    bit_and-bitwise a b
    ∙ law
    ∙ ap (λ (t : ℕ). t * 2 + min (a % 2) (b % 2)) (sym (bit_and-bitwise (a / 2) (b / 2)))

differ_bits : (x y : ℕ) → x < 2 → y < 2 → differ x y ≡ (x + y) % 2
differ_bits zero zero p q = refl
differ_bits zero (suc zero) p q = refl
differ_bits zero (suc (suc y)) p q = absurd (omega arith)
differ_bits (suc zero) zero p q = refl
differ_bits (suc zero) (suc zero) p q = refl
differ_bits (suc zero) (suc (suc y)) p q = absurd (omega arith)
differ_bits (suc (suc x)) y p q = absurd (omega arith)

pub bit_xor_step : (a b : ℕ) → bit_xor a b ≡ bit_xor (a / 2) (b / 2) * 2 + (a % 2 + b % 2) % 2
bit_xor_step a b =
    let law = lowest_digit (λ y. y) differ (λ c. omega (arith, differ_bits 0 (c % 2))) a b in
    omega (
      arith,
      bit_xor-bitwise a b,
      law,
      bit_xor-bitwise (a / 2) (b / 2),
      differ_bits (a % 2) (b % 2) (omega arith) (omega arith),
    )

-- Single bits.
pub bit_or_bits : (a b : ℕ) → a < 2 → b < 2 → bit_or a b ≡ max a b
bit_or_bits zero b p q = omega (arith, bit_or-bitwise 0 b)
bit_or_bits (suc zero) zero p q = refl
bit_or_bits (suc zero) (suc zero) p q = refl
bit_or_bits (suc zero) (suc (suc b)) p q = absurd (omega arith)
bit_or_bits (suc (suc a)) b p q = absurd (omega arith)

pub bit_and_bits : (a b : ℕ) → a < 2 → b < 2 → bit_and a b ≡ min a b
bit_and_bits zero b p q = omega (arith, bit_and-bitwise 0 b)
bit_and_bits (suc zero) zero p q = refl
bit_and_bits (suc zero) (suc zero) p q = refl
bit_and_bits (suc zero) (suc (suc b)) p q = absurd (omega arith)
bit_and_bits (suc (suc a)) b p q = absurd (omega arith)

pub bit_xor_bits : (a b : ℕ) → a < 2 → b < 2 → bit_xor a b ≡ (a + b) % 2
bit_xor_bits zero b p q = omega (arith, bit_xor-bitwise 0 b)
bit_xor_bits (suc zero) zero p q = refl
bit_xor_bits (suc zero) (suc zero) p q = refl
bit_xor_bits (suc zero) (suc (suc b)) p q = absurd (omega arith)
bit_xor_bits (suc (suc a)) b p q = absurd (omega arith)

pub zero-bit_or : (b : ℕ) → bit_or 0 b ≡ b
zero-bit_or b = bit_or-bitwise 0 b

pub zero-bit_xor : (b : ℕ) → bit_xor 0 b ≡ b
zero-bit_xor b = bit_xor-bitwise 0 b

zero-bit_and : (b : ℕ) → bit_and 0 b ≡ 0
zero-bit_and b = bit_and-bitwise 0 b

-- `r | (q << k)` is a sum when `r` fits `k` bits.
pub bit_or_low : (k q r : ℕ) → r < 2 ^ k → bit_or r (q * 2 ^ k) ≡ r + q * 2 ^ k
bit_or_low zero q zero h = omega (arith, zero-bit_or (q * 2 ^ 0))
bit_or_low zero q (suc r) h = absurd (omega arith)
bit_or_low (suc k) q r h = ground (
  arith,
  pow-suc 2 k,
  ap (λ (t : ℕ). q * t) (pow-suc 2 k),
  bit_or_step r (q * 2 ^ suc k),
  bit_or_low k q (r / 2) (omega (arith, pow-suc 2 k)),
)

digits-min-zero : (n a : ℕ) → digits (λ y. 0) min n a 0 ≡ 0
digits-min-zero zero a = refl
digits-min-zero (suc n) zero = refl
digits-min-zero (suc n) (suc a) = omega (arith, digits-min-zero n (suc a / 2))

pub bit_and-zero : (a : ℕ) → bit_and a 0 ≡ 0
bit_and-zero a = bit_and-bitwise a 0 ∙ digits-min-zero a a

mod-double : (m a : ℕ) → 0 < m → a % (2 * m) ≡ a / 2 % m * 2 + a % 2
mod-double m a h =
    let r = a / 2 % m * 2 + a % 2 in
    let split : a ≡ 2 * m * (a / 2 / m) + r = omega (arith, div-add-mod (a / 2) m) in
    let fits : r < 2 * m = omega (arith, mod-lt (a / 2) h) in
    ap (λ (t : ℕ). t % (2 * m)) split
    ∙ mul-add-mod_self_left (2 * m) (a / 2 / m) r
    ∙ mod-eq_of_lt fits

-- A mask of the `k` low bits is the remainder by `2 ^ k`.
pub bit_and_mask : (k a : ℕ) → bit_and a (2 ^ k - 1) ≡ a % 2 ^ k
bit_and_mask zero a = omega (arith, bit_and-zero a)
bit_and_mask (suc k) a = ground (
  arith,
  pow-suc 2 k,
  one-le-pow k 2,
  bit_and_step a (2 ^ suc k - 1),
  bit_and_mask k (a / 2),
  mod-double (2 ^ k) a,
)

-- Toggling bit `k` of a number below `2 ^ (k + 1)` adds or takes away `2 ^ k`.
pub bit_xor_top_low : (k v : ℕ) → v < 2 ^ k → bit_xor v (2 ^ k) ≡ v + 2 ^ k
bit_xor_top_low zero zero h = refl
bit_xor_top_low zero (suc v) h = absurd (omega arith)
bit_xor_top_low (suc k) v h =
    ground (arith, pow-suc 2 k, bit_xor_step v (2 ^ suc k), bit_xor_top_low k (v / 2))

pub bit_xor_top_high : (k v : ℕ) → 2 ^ k ≤ v → v < 2 ^ suc k → bit_xor v (2 ^ k) ≡ v - 2 ^ k
bit_xor_top_high zero zero g h = absurd (omega arith)
bit_xor_top_high zero (suc zero) g h = refl
bit_xor_top_high zero (suc (suc v)) g h = absurd (omega arith)
bit_xor_top_high (suc k) v g h =
    ground (
      arith,
      pow-suc 2 k,
      pow-suc 2 (suc k),
      bit_xor_step v (2 ^ suc k),
      bit_xor_top_high k (v / 2),
    )

-- Bit `k` of a number.
abbrev pub bit : ℕ → ℕ → ℕ
bit x k = x / 2 ^ k % 2

pub bit-suc : (x k : ℕ) → bit x (suc k) ≡ bit (x / 2) k
bit-suc x k =
    ap (λ (t : ℕ). t % 2)
      (ap (λ (t : ℕ). x / t) (pow-succ' 2 k) ∙ sym (div-div-eq-div-mul x 2 (2 ^ k)))

pub bit-bit_and : (k a b : ℕ) → bit (bit_and a b) k ≡ min (bit a k) (bit b k)
bit-bit_and zero a b = omega (arith, bit_and_step a b)
bit-bit_and (suc k) a b =
    let half : bit_and a b / 2 ≡ bit_and (a / 2) (b / 2) = omega (arith, bit_and_step a b) in
    rw (bit-suc (bit_and a b) k, bit-suc a k, bit-suc b k, half) (bit-bit_and k (a / 2) (b / 2))

pub bit-bit_or : (k a b : ℕ) → bit (bit_or a b) k ≡ max (bit a k) (bit b k)
bit-bit_or zero a b = omega (arith, bit_or_step a b)
bit-bit_or (suc k) a b =
    let half : bit_or a b / 2 ≡ bit_or (a / 2) (b / 2) = omega (arith, bit_or_step a b) in
    rw (bit-suc (bit_or a b) k, bit-suc a k, bit-suc b k, half) (bit-bit_or k (a / 2) (b / 2))

pub bit-zero : (k : ℕ) → bit 0 k ≡ 0
bit-zero zero = refl
bit-zero (suc k) = rw (bit-suc 0 k) (bit-zero k)

-- One bit, shifted into place.
pub bit-shifted : (v b k : ℕ) → v < 2 → bit (v * 2 ^ b) k ≡ (if k == b then v else 0)
bit-shifted v zero zero h = omega arith
bit-shifted v zero (suc k) h =
    let none_left : v * 2 ^ 0 / 2 ≡ 0 = omega arith in
    rw (bit-suc (v * 2 ^ 0) k, none_left) (ground (arith, bit-zero k))
bit-shifted v (suc b) zero h = ground (arith, ap (λ (t : ℕ). v * t) (pow-suc 2 b))
bit-shifted v (suc b) (suc k) h =
    let half : v * 2 ^ suc b / 2 ≡ v * 2 ^ b = omega (arith, ap (λ (t : ℕ). v * t) (pow-suc 2 b)) in
    rw (bit-suc (v * 2 ^ suc b) k, half) (ground (arith, bit-shifted v b k))

bit-ones : (n k : ℕ) → k < n → bit (2 ^ n - 1) k ≡ 1
bit-ones zero k h = absurd (omega arith)
bit-ones (suc n) zero h = omega (arith, pow-suc 2 n, one-le-pow n 2)
bit-ones (suc n) (suc k) h =
    let half : (2 ^ suc n - 1) / 2 ≡ 2 ^ n - 1 = omega (arith, pow-suc 2 n, one-le-pow n 2) in
    rw (bit-suc (2 ^ suc n - 1) k, half) (bit-ones n k (omega arith))

two-pow-lt : (i n : ℕ) → i < n → 2 ^ i < 2 ^ n
two-pow-lt i n h =
    omega (arith, pow-suc 2 i, one-le-pow i 2, pow-le-pow_right {n = 2} (omega arith) h)

-- The complement of one bit, in a word of `n` bits.
pub bit-cleared :
    (n b k : ℕ) → b < n → k < n → bit (2 ^ n - 1 - 2 ^ b) k ≡ (if k == b then 0 else 1)
bit-cleared zero b k hb hk = absurd (omega arith)
bit-cleared (suc n) zero zero hb hk = omega (arith, pow-suc 2 n, one-le-pow n 2)
bit-cleared (suc n) zero (suc k) hb hk =
    let half : (2 ^ suc n - 1 - 2 ^ 0) / 2 ≡ 2 ^ n - 1 =
      omega (arith, pow-suc 2 n, one-le-pow n 2) in
    rw (bit-suc (2 ^ suc n - 1 - 2 ^ 0) k, half) (ground (arith, bit-ones n k (omega arith)))
bit-cleared (suc n) (suc b) zero hb hk =
    ground (arith, pow-suc 2 n, pow-suc 2 b, two-pow-lt b n (omega arith))
bit-cleared (suc n) (suc b) (suc k) hb hk =
    let half : (2 ^ suc n - 1 - 2 ^ suc b) / 2 ≡ 2 ^ n - 1 - 2 ^ b =
      omega (arith, pow-suc 2 n, pow-suc 2 b, two-pow-lt b n (omega arith)) in
    rw (bit-suc (2 ^ suc n - 1 - 2 ^ suc b) k, half)
      (ground (arith, bit-cleared n b k (omega arith) (omega arith)))
