-- ===== src/Script/Bits.antt =====
-- src/bin/flatten_test.rs: reading and writing a bit of the shared state.
use gem_macro_optimization.Base.{
  ℕ, ◌*◌, ◌/◌, ◌%◌, ◌^◌, ◌-◌, ◌<◌, List, bit_and, bit_or, ◌==◌, if◌then◌else◌, length, ◌≡◌, arith,
  ◌⊎◌, get_or-set_self, get_or-set_ne, length-set,
}
use gem_macro_optimization.Base.Bits.{bit, bit-bit_and, bit-bit_or, bit-shifted, bit-cleared}
use gem_macro_optimization.Macros.Encode.{macro_pos_none}
use gem_macro_optimization.Script.{at, read_bit, write_bit, put}

-- The word after the write, bit by bit.
bit_written :
    (w b k v : ℕ)
    → b < 32
    → k < 32
    → bit (bit_or (bit_and w (2 ^ 32 - 1 - 2 ^ b)) (v % 2 * 2 ^ b)) k
      ≡ (if k == b then v % 2 else bit w k)
bit_written w b k v hb hk =
    rw
      (
        bit-bit_or k (bit_and w (2 ^ 32 - 1 - 2 ^ b)) (v % 2 * 2 ^ b),
        bit-bit_and k w (2 ^ 32 - 1 - 2 ^ b),
        bit-shifted (v % 2) b k (omega arith),
        bit-cleared 32 b k hb hk,
      )
      (ground arith)

pub read_bit-write_bit :
    (st : List ℕ) (pos v q : ℕ)
    → pos / 32 < length st
    → read_bit (write_bit st pos v) q ≡ (if q == pos then v % 2 else read_bit st q)
unfolding read_bit write_bit
read_bit-write_bit st pos v q h = ground (
  arith,
  get_or-set_self st (pos / 32)
      (bit_or (bit_and (at st (pos / 32)) (2 ^ 32 - 1 - 2 ^ (pos % 32))) (v % 2 * 2 ^ (pos % 32)))
      0,
  get_or-set_ne st (pos / 32) (q / 32)
      (bit_or (bit_and (at st (pos / 32)) (2 ^ 32 - 1 - 2 ^ (pos % 32))) (v % 2 * 2 ^ (pos % 32)))
      0,
  bit_written (at st (pos / 32)) (pos % 32) (q % 32) v,
)

pub length-write_bit : (st : List ℕ) (pos v : ℕ) → length (write_bit st pos v) ≡ length st
unfolding write_bit
length-write_bit st pos v = length-set st (pos / 32) _

-- Where slot `s` has a position, `put` writes it; where it has none, `put` does nothing.
pub read_bit-put :
    (outs st : List ℕ) (s v q : ℕ)
    → (at outs s ≡ macro_pos_none) ⊎ (at outs s / 32 < length st)
    → read_bit (put outs st s v) q ≡ (
        if at outs s == macro_pos_none
        then read_bit st q
        else if q == at outs s
        then v % 2
        else read_bit st q)
unfolding put
read_bit-put outs st s v q h = ground (arith, read_bit-write_bit st (at outs s) v q)

pub length-put : (outs st : List ℕ) (s v : ℕ) → length (put outs st s v) ≡ length st
unfolding put
length-put outs st s v = ground (arith, length-write_bit st (at outs s) v)
