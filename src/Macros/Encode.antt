-- ===== src/Macros/Encode.antt =====
-- src/macros.rs: the script format of a macro phase: lane layout, descriptor fields, and the codes
-- of the inputs. A `u16` or `u32` is a number; the shifts of the source that can lose bits are cut
-- to their width.
pub mod Codes
use gem_macro_optimization.Base.{
  ℕ, ◌+◌, ◌*◌, ◌/◌, ◌%◌, ◌^◌, Option, Outcome, ok, panic, ◌>>=◌, unwrap, bit_and, bit_or, bit_xor,
  leb, ◌==◌, if◌then◌else◌,
}
use gem_macro_optimization.Macros.Kind.{MacroKind, carry4, dsp48e2, srlc32e}

abbrev pub macro_lane_words : ℕ
macro_lane_words = 12

abbrev pub macro_lane_in_slots : ℕ
macro_lane_in_slots = 10

abbrev pub macro_lane_out_slots : ℕ
macro_lane_out_slots = 8

abbrev pub macro_max_lanes : ℕ
macro_max_lanes = 32

abbrev pub macro_perm_pos_mask : ℕ
macro_perm_pos_mask = 0x1fff

abbrev pub macro_perm_inv_bit : ℕ
macro_perm_inv_bit = 13

abbrev pub macro_perm_const_bit : ℕ
macro_perm_const_bit = 14

abbrev pub macro_pos_none : ℕ
macro_pos_none = 0xffff

abbrev pub macro_desc_kind_mask : ℕ
macro_desc_kind_mask = 0x3

abbrev pub macro_desc_chain_start_bit : ℕ
macro_desc_chain_start_bit = 2

abbrev pub macro_desc_valid_bit : ℕ
macro_desc_valid_bit = 3

abbrev pub macro_desc_state_shift : ℕ
macro_desc_state_shift = 16

abbrev pub macro_kind_carry4 : ℕ
macro_kind_carry4 = 0

abbrev pub macro_kind_srlc32e : ℕ
macro_kind_srlc32e = 1

unfoldable pub script_kind_code : MacroKind → Outcome ℕ
script_kind_code carry4 = ok macro_kind_carry4
script_kind_code srlc32e = ok macro_kind_srlc32e
script_kind_code (dsp48e2 _ _) = panic

-- The code of an input: constant, inversion and position. `pos_of` is the position of a pin.
unfoldable pub macro_encode_input : ℕ → (ℕ → Option ℕ) → Outcome ℕ
macro_encode_input pin_iv pos_of =
    if leb pin_iv 1
    then ok (bit_or (2 ^ macro_perm_const_bit) (pin_iv * 2 ^ macro_perm_inv_bit))
    else (unwrap (pos_of (pin_iv / 2)) >>= λ pos.
        ok (bit_or (bit_and pos macro_perm_pos_mask) (pin_iv % 2 * 2 ^ macro_perm_inv_bit)))

unfoldable pub macro_decode_input : ℕ → (ℕ → ℕ) → ℕ
macro_decode_input code read_bit =
    let inv = code / 2 ^ macro_perm_inv_bit % 2 in
    if code / 2 ^ macro_perm_const_bit % 2 == 0
    then bit_xor (read_bit (bit_and code macro_perm_pos_mask)) inv
    else inv
