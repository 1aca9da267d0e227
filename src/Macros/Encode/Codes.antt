-- ===== src/Macros/Encode/Codes.antt =====
-- src/macros.rs: the codes of the inputs, encoded and decoded.
use gem_macro_optimization.Base.{
  ℕ, zero, suc, ◌+◌, ◌*◌, ◌/◌, ◌%◌, ◌^◌, ◌<◌, Option, some, ok, ◌>>=◌, false, bit_and, bit_or,
  bit_xor, leb, ◌≡◌, ◌⊎◌, inl, inr, refl, arith,
}
use gem_macro_optimization.Base.Bits.{bit_and_mask, bit_or_low}
use gem_macro_optimization.Macros.Encode.{macro_encode_input, macro_decode_input}

-- The bit of a literal: the pin's bit, inverted if bit 0 is set. Pin 0 is the constant 0.
abbrev pub literal_bit : (ℕ → ℕ) → ℕ → ℕ
literal_bit val iv = bit_xor (val (iv / 2)) (iv % 2)

-- The pin of a literal has a position, and the state holds its bit there; a constant needs none.
abbrev pub IsRealised : (ℕ → ℕ) → (ℕ → Option ℕ) → (ℕ → ℕ) → ℕ → Type 0
IsRealised read_bit pos_of val pin =
    (pin ≡ 0) ⊎ ((p : ℕ) × (pos_of pin ≡ some p) × (p < 8192) × (read_bit p ≡ val pin))

encode_position :
    (iv p : ℕ) → p < 8192 → bit_or (bit_and p 0x1fff) (iv % 2 * 2 ^ 13) ≡ p + iv % 2 * 8192
encode_position iv p h = ground (arith, bit_and_mask 13 p, bit_or_low 13 (iv % 2) p h)

decode_position :
    (read_bit : ℕ → ℕ) (p v : ℕ)
    → p < 8192
    → v < 2
    → macro_decode_input (p + v * 8192) read_bit ≡ bit_xor (read_bit p) v
unfolding macro_decode_input
decode_position read_bit p v hp hv =
    let inv : (p + v * 8192) / 2 ^ 13 % 2 ≡ v = omega arith in
    let low : bit_and (p + v * 8192) 0x1fff ≡ p = omega (arith, bit_and_mask 13 (p + v * 8192)) in
    let plain : (p + v * 8192) / 2 ^ 14 % 2 ≡ 0 = omega arith in rw (plain, inv, low) refl

-- The code of a literal whose pin is realised decodes to the literal's bit, at a constant as well;
-- the encoding does not panic.
pub decode-encode :
    (iv : ℕ) (read_bit : ℕ → ℕ) (pos_of : ℕ → Option ℕ) (val : ℕ → ℕ)
    → val 0 ≡ 0
    → IsRealised read_bit pos_of val (iv / 2)
    → (macro_encode_input iv pos_of >>= λ code. ok (macro_decode_input code read_bit))
      ≡ ok (literal_bit val iv)
decode-encode zero read_bit pos_of val z r = unfold macro_encode_input macro_decode_input in rw z
decode-encode (suc zero) read_bit pos_of val z r =
    unfold macro_encode_input macro_decode_input in rw z
decode-encode (suc (suc n)) read_bit pos_of val z (inl e) = absurd (omega arith)
decode-encode (suc (suc n)) read_bit pos_of val z (inr (p, e, lt, same)) =
    let iv = suc (suc n) in
    let large : leb (suc (suc n)) 1 ≡ false = ground arith in
    unfold macro_encode_input in
    rw
      (
        large,
        e,
        encode_position iv p lt,
        decode_position read_bit p (iv % 2) lt (omega arith),
        same,
      )
      refl

-- The code, which fits 16 bits.
pub code_of :
    (iv : ℕ) (read_bit : ℕ → ℕ) (pos_of : ℕ → Option ℕ) (val : ℕ → ℕ)
    → val 0 ≡ 0
    → IsRealised read_bit pos_of val (iv / 2)
    → (code : ℕ) × (macro_encode_input iv pos_of ≡ ok code)
      × (code < 2 ^ 16)
      × (macro_decode_input code read_bit ≡ literal_bit val iv)
code_of zero read_bit pos_of val z r =
    unfold macro_encode_input macro_decode_input in (16384, refl, omega arith, rw z refl)
code_of (suc zero) read_bit pos_of val z r =
    unfold macro_encode_input macro_decode_input in (24576, refl, omega arith, rw z refl)
code_of (suc (suc n)) read_bit pos_of val z (inl e) = absurd (omega arith)
code_of (suc (suc n)) read_bit pos_of val z (inr (p, e, lt, same)) =
    let iv = suc (suc n) in
    let large : leb (suc (suc n)) 1 ≡ false = ground arith in
    (
      p + iv % 2 * 8192,
      unfold macro_encode_input in rw (large, e, encode_position iv p lt) refl,
      omega arith,
      rw (decode_position read_bit p (iv % 2) lt (omega arith), same) refl,
    )
