-- ===== src/Flatten/Phase/Words.antt =====
-- src/flatten.rs and src/bin/flatten_test.rs: the words of a lane, as written and as read.
use native.Mathlib.Numerals.{add-one}
use gem_macro_optimization.Base.{
  ℕ, zero, suc, ◌+◌, ◌*◌, ◌/◌, ◌%◌, ◌^◌, ◌<◌, Bool, true, false, List, [], ◌∷◌, ◌++◌, if◌then◌else◌,
  length, ◌≡◌, refl, ap, ◌∙◌, arith,
}
use gem_macro_optimization.Base.Bits.{bit_or_low}
use gem_macro_optimization.Script.{at, halves}
use gem_macro_optimization.Flatten.Phase.{pack, lane_desc}

pub at-append : (xs ys : List ℕ) (i : ℕ) → at (xs ++ ys) (length xs + i) ≡ at ys i
at-append [] ys i = let e : 0 + i ≡ i = omega arith in ap (λ (t : ℕ). at ys t) e
at-append (x ∷ xs) ys i =
    let e : suc (length xs) + i ≡ suc (length xs + i) = omega arith in
    ap (λ (t : ℕ). at (x ∷ (xs ++ ys)) t) e ∙ at-append xs ys i

pub at_ext :
    (xs ys : List ℕ)
    → length xs ≡ length ys
    → ((i : ℕ) → i < length xs → at xs i ≡ at ys i)
    → xs ≡ ys
at_ext [] [] sized same = refl
at_ext [] (y ∷ ys) sized same = absurd (omega arith)
at_ext (x ∷ xs) [] sized same = absurd (omega arith)
at_ext (x ∷ xs) (y ∷ ys) sized same =
    let tail = at_ext xs ys (omega arith) (λ i h. same (suc i) (omega arith)) in
    rw (same 0 (omega arith), tail) refl

pub halves-append : (xs ys : List ℕ) (k n : ℕ) → halves (xs ++ ys) (length xs + k) n ≡ halves ys k n
halves-append xs ys k zero = refl
halves-append xs ys k (suc n) =
    let next : length xs + k + 1 ≡ length xs + (k + 1) = omega arith in
    rw (at-append xs ys k, next, halves-append xs ys (k + 1) n) refl

pub halves-cons : (x : ℕ) (ys : List ℕ) (k n : ℕ) → halves (x ∷ ys) (suc k) n ≡ halves ys k n
halves-cons x ys k zero = refl
halves-cons x ys k (suc n) = rw (add-one, add-one, halves-cons x ys (suc k) n) refl

-- Every entry fits 16 bits.
abbrev pub AreCodes : List ℕ → Type 0
AreCodes codes = (i : ℕ) → at codes i < 2 ^ 16

pub length-pack : (codes : List ℕ) (n : ℕ) → length codes ≡ 2 * n → length (pack codes) ≡ n
unfolding pack
length-pack [] zero sized = refl
length-pack [] (suc n) sized = absurd (omega arith)
length-pack (a ∷ []) n sized = absurd (omega arith)
length-pack (a ∷ b ∷ codes) zero sized = absurd (omega arith)
length-pack (a ∷ b ∷ codes) (suc n) sized = omega (arith, length-pack codes n (omega arith))

pack_step :
    (a b : ℕ) (codes : List ℕ)
    → a < 2 ^ 16
    → b < 2 ^ 16
    → pack (a ∷ b ∷ codes) ≡ (a + b * 2 ^ 16) ∷ pack codes
unfolding pack
pack_step a b codes low high =
    let whole : b * 2 ^ 16 % 2 ^ 32 ≡ b * 2 ^ 16 = omega arith in
    rw (whole, bit_or_low 16 b a low) refl

pub halves-pack :
    (codes rest : List ℕ) (n : ℕ)
    → length codes ≡ 2 * n
    → AreCodes codes
    → halves (pack codes ++ rest) 0 n ≡ codes
halves-pack [] rest zero sized fits = refl
halves-pack [] rest (suc n) sized fits = absurd (omega arith)
halves-pack (a ∷ []) rest n sized fits = absurd (omega arith)
halves-pack (a ∷ b ∷ codes) rest zero sized fits = absurd (omega arith)
halves-pack (a ∷ b ∷ codes) rest (suc n) sized fits =
    let low : a < 2 ^ 16 = fits 0 in
    let high : b < 2 ^ 16 = fits 1 in
    let first : (a + b * 2 ^ 16) % 2 ^ 16 ≡ a = omega arith in
    let second : (a + b * 2 ^ 16) / 2 ^ 16 % 2 ^ 16 ≡ b = omega arith in
    let tail = halves-pack codes rest n (omega arith) (λ i. fits (suc (suc i))) in
    let back : halves ((a + b * 2 ^ 16) ∷ (pack codes ++ rest)) 0 (suc n) ≡ a ∷ b ∷ codes =
      rw (first, second)
        (ap (λ (t : List ℕ). a ∷ b ∷ t)
          (halves-cons (a + b * 2 ^ 16) (pack codes ++ rest) 0 n ∙ tail)) in
    ap (λ (w : List ℕ). halves (w ++ rest) 0 (suc n)) (pack_step a b codes low high) ∙ back

-- A descriptor is a sum of its fields; the offset of the state is cut to 16 bits.
pub lane_desc-sum :
    (kind off : ℕ) (chain_start : Bool)
    → kind < 4
    → lane_desc kind chain_start off
      ≡ kind + (if chain_start then 4 else 0) + 8 + off % 2 ^ 16 * 2 ^ 16
unfolding lane_desc
lane_desc-sum kind off true h =
    let cut : off * 2 ^ 16 % 2 ^ 32 ≡ off % 2 ^ 16 * 2 ^ 16 = omega arith in
    rw
      (
        bit_or_low 2 1 kind h,
        bit_or_low 3 1 (kind + 1 * 2 ^ 2) (omega arith),
        cut,
        bit_or_low 16 (off % 2 ^ 16) (kind + 1 * 2 ^ 2 + 1 * 2 ^ 3) (omega arith),
      )
      (omega arith)
lane_desc-sum kind off false h =
    let cut : off * 2 ^ 16 % 2 ^ 32 ≡ off % 2 ^ 16 * 2 ^ 16 = omega arith in
    rw
      (
        bit_or_low 2 0 kind (omega arith),
        bit_or_low 3 1 (kind + 0 * 2 ^ 2) (omega arith),
        cut,
        bit_or_low 16 (off % 2 ^ 16) (kind + 0 * 2 ^ 2 + 1 * 2 ^ 3) (omega arith),
      )
      (omega arith)
