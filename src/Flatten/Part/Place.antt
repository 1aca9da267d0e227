-- ===== src/Flatten/Part/Place.antt =====
-- src/flatten.rs: the placement of an output bit with its activation.
use native.Mathlib.Nat.{one-mul}
use gem_macro_optimization.Base.{
  ℕ, zero, suc, ◌-◌, ◌/◌, ◌%◌, ◌^◌, ◌<◌, List, ok, ◌==◌, if◌then◌else◌, set, length, length-set,
  get_or-set_self, get_or-set_ne, ◌≡◌, ◌≢◌, refl, sym, ◌∙◌, arith,
}
use gem_macro_optimization.Base.Bits.{bit, bit-bit_and, bit-bit_or, bit-shifted, bit-cleared}
use gem_macro_optimization.Base.Stores.{get_elem?-get_or, store-ok}
use gem_macro_optimization.Script.{at, read_bit}
use gem_macro_optimization.Flatten.{set_bit_in_u32}
use gem_macro_optimization.Flatten.Part.{
  FlatteningPart, Permute, set_bit_at, place_sram_duplicate, place_clken_datainv,
}

bit-set_bit_in_u32 :
    (w pos b k : ℕ)
    → pos < 32
    → k < 32
    → b < 2
    → bit (set_bit_in_u32 w pos b) k ≡ (if k == pos then b else bit w k)
unfolding set_bit_in_u32
bit-set_bit_in_u32 w pos zero k hp hk hb =
    rw (bit-bit_and k w (2 ^ 32 - 1 - 2 ^ pos), bit-cleared 32 pos k hp hk) (ground arith)
bit-set_bit_in_u32 w pos (suc zero) k hp hk hb =
    rw (bit-bit_or k w (2 ^ pos), ← one-mul (2 ^ pos), bit-shifted 1 pos k (omega arith))
      (ground arith)
bit-set_bit_in_u32 w pos (suc (suc b)) k hp hk hb = absurd (omega arith)

-- The bit vector has the bit `b` at `pos`, and is as it was elsewhere.
pub record SetsBit (v : List ℕ) (pos b : ℕ) (v' : List ℕ) : Type 0 where
  pub here : read_bit v' pos ≡ b
  pub elsewhere : (q : ℕ) → q ≢ pos → read_bit v' q ≡ read_bit v q
  pub sized : length v' ≡ length v

-- The word of `pos` with its bit set.
abbrev new_word : List ℕ → ℕ → ℕ → ℕ
new_word v pos b = set_bit_in_u32 (at v (pos / 32)) (pos % 32) b

read_bit-set :
    (v : List ℕ) (pos b q : ℕ)
    → pos / 32 < length v
    → b < 2
    → read_bit (set v (pos / 32) (new_word v pos b)) q ≡ (if q == pos then b else read_bit v q)
unfolding read_bit
read_bit-set v pos b q h hb = ground (
  arith,
  get_or-set_self v (pos / 32) (new_word v pos b) 0,
  get_or-set_ne v (pos / 32) (q / 32) (new_word v pos b) 0,
  bit-set_bit_in_u32 (at v (pos / 32)) (pos % 32) b (q % 32) (omega arith) (omega arith) hb,
)

set_bit_at-SetsBit :
    (v : List ℕ) (pos b : ℕ)
    → pos / 32 < length v
    → b < 2
    → (v' : List ℕ) × (set_bit_at v pos b ≡ ok v') × SetsBit v pos b v'
unfolding set_bit_at
set_bit_at-SetsBit v pos b h hb =
    let v' = set v (pos / 32) (new_word v pos b) in
    (
      v',
      rw (get_elem?-get_or v (pos / 32) h) (store-ok v (pos / 32) (new_word v pos b) h),
      record {
        here = read_bit-set v pos b pos h hb ∙ ground arith;
        elsewhere = λ q ne. read_bit-set v pos b q h hb ∙ ground arith;
        sized = length-set v (pos / 32) (new_word v pos b);
      },
    )

-- The vectors have the sizes that `make_inputs_outputs` gives them.
pub record HasVectors (part : FlatteningPart) : Type 0 where
  pub permute : length part.sram_duplicate_permute ≡ 8192
  pub inv : length part.sram_duplicate_inv ≡ 256
  pub set0 : length part.sram_duplicate_set0 ≡ 256
  pub clken : length part.clken_permute ≡ 8192
  pub clken_i : length part.clken_inv ≡ 256
  pub clken_0 : length part.clken_set0 ≡ 256
  pub data_i : length part.data_inv ≡ 256

-- What the two vectors of bits and the permutation of a gathered bit hold.
pub record IsGatheredBit (part : FlatteningPart) (pos : ℕ) (p : Permute) : Type 0 where
  pub perm : at part.sram_duplicate_permute pos ≡ p.perm
  pub inv : read_bit part.sram_duplicate_inv pos ≡ p.inv
  pub set0 : read_bit part.sram_duplicate_set0 pos ≡ p.set0

-- What the vectors of an output bit hold: its clock enable, and the inversion of its data.
pub record IsActivated (part : FlatteningPart) (pos : ℕ) (clken : Permute) (d_inv : ℕ)
    : Type 0 where
  pub perm : at part.clken_permute pos ≡ clken.perm
  pub inv : read_bit part.clken_inv pos ≡ clken.inv
  pub set0 : read_bit part.clken_set0 pos ≡ clken.set0
  pub d_inv_bit : read_bit part.data_inv pos ≡ d_inv

-- All but the vectors of the gathered bits is the same, and these are but at `pos`.
pub record GathersOnly (part part' : FlatteningPart) (pos : ℕ) : Type 0 where
  pub vectors : HasVectors part'
  pub others : (q : ℕ) (p : Permute) → q ≢ pos → IsGatheredBit part q p → IsGatheredBit part' q p
  pub activated : (q : ℕ) (p : Permute) (d : ℕ) → IsActivated part q p d → IsActivated part' q p d
  pub table : part'.comb_outputs_activations ≡ part.comb_outputs_activations
  pub positions : part'.after_writeout_pin2pos ≡ part.after_writeout_pin2pos
  pub count : part'.cnt_placed_duplicate_permute ≡ part.cnt_placed_duplicate_permute

-- All but the vectors of the activations is the same, and these are but at `pos`.
pub record ActivatesOnly (part part' : FlatteningPart) (pos : ℕ) : Type 0 where
  pub vectors : HasVectors part'
  pub others :
      (q : ℕ) (p : Permute) (d : ℕ) → q ≢ pos → IsActivated part q p d → IsActivated part' q p d
  pub gathered : (q : ℕ) (p : Permute) → IsGatheredBit part q p → IsGatheredBit part' q p
  pub table : part'.comb_outputs_activations ≡ part.comb_outputs_activations
  pub positions : part'.after_writeout_pin2pos ≡ part.after_writeout_pin2pos
  pub count : part'.cnt_placed_duplicate_permute ≡ part.cnt_placed_duplicate_permute

-- The bits of an entry are bits.
pub record IsPermute (p : Permute) : Type 0 where
  pub inv_bit : p.inv < 2
  pub set0_bit : p.set0 < 2

pub place_sram_duplicate-places :
    (part : FlatteningPart) (pos : ℕ) (p : Permute)
    → HasVectors part
    → pos < 8192
    → IsPermute p
    → (part' : FlatteningPart) × (place_sram_duplicate part pos p ≡ ok part')
      × IsGatheredBit part' pos p
      × GathersOnly part part' pos
unfolding place_sram_duplicate
place_sram_duplicate-places part pos p sizes lt bits =
    let stored = store-ok part.sram_duplicate_permute pos p.perm (omega (arith, sizes.permute)) in
    let (inv, sets_inv, is_inv) =
      set_bit_at-SetsBit part.sram_duplicate_inv pos p.inv (omega (arith, sizes.inv))
        bits.inv_bit in
    let (set0, sets_set0, is_set0) =
      set_bit_at-SetsBit part.sram_duplicate_set0 pos p.set0 (omega (arith, sizes.set0))
        bits.set0_bit in
    let part' : FlatteningPart = record part {
      sram_duplicate_permute = set part.sram_duplicate_permute pos p.perm;
      sram_duplicate_inv = inv;
      sram_duplicate_set0 = set0;
    } in
    (
      part',
      rw (stored, sets_inv, sets_set0) refl,
      record {
        perm =
            get_or-set_self part.sram_duplicate_permute pos p.perm 0 (omega (arith, sizes.permute));
        inv = is_inv.here;
        set0 = is_set0.here;
      },
      record {
        vectors = record {
          permute = length-set part.sram_duplicate_permute pos p.perm ∙ sizes.permute;
          inv = is_inv.sized ∙ sizes.inv;
          set0 = is_set0.sized ∙ sizes.set0;
          clken = sizes.clken;
          clken_i = sizes.clken_i;
          clken_0 = sizes.clken_0;
          data_i = sizes.data_i;
        };
        others = λ q p' ne was. record {
          perm =
              get_or-set_ne part.sram_duplicate_permute pos q p.perm 0 (λ e. ne (sym e)) ∙ was.perm;
          inv = is_inv.elsewhere q ne ∙ was.inv;
          set0 = is_set0.elsewhere q ne ∙ was.set0;
        };
        activated = λ q p' d was. record {
          perm = was.perm;
          inv = was.inv;
          set0 = was.set0;
          d_inv_bit = was.d_inv_bit;
        };
        table = refl;
        positions = refl;
        count = refl;
      },
    )

pub place_clken_datainv-places :
    (part : FlatteningPart) (pos : ℕ) (p : Permute) (d : ℕ)
    → HasVectors part
    → pos < 8192
    → IsPermute p
    → d < 2
    → (part' : FlatteningPart) × (place_clken_datainv part pos p d ≡ ok part')
      × IsActivated part' pos p d
      × ActivatesOnly part part' pos
unfolding place_clken_datainv
place_clken_datainv-places part pos p d sizes lt bits hd =
    let stored = store-ok part.clken_permute pos p.perm (omega (arith, sizes.clken)) in
    let (inv, sets_inv, is_inv) =
      set_bit_at-SetsBit part.clken_inv pos p.inv (omega (arith, sizes.clken_i)) bits.inv_bit in
    let (set0, sets_set0, is_set0) =
      set_bit_at-SetsBit part.clken_set0 pos p.set0 (omega (arith, sizes.clken_0)) bits.set0_bit in
    let (d_inv, sets_d, is_d) =
      set_bit_at-SetsBit part.data_inv pos d (omega (arith, sizes.data_i)) hd in
    let part' : FlatteningPart = record part {
      clken_permute = set part.clken_permute pos p.perm;
      clken_inv = inv;
      clken_set0 = set0;
      data_inv = d_inv;
    } in
    (
      part',
      rw (stored, sets_inv, sets_set0, sets_d) refl,
      record {
        perm = get_or-set_self part.clken_permute pos p.perm 0 (omega (arith, sizes.clken));
        inv = is_inv.here;
        set0 = is_set0.here;
        d_inv_bit = is_d.here;
      },
      record {
        vectors = record {
          permute = sizes.permute;
          inv = sizes.inv;
          set0 = sizes.set0;
          clken = length-set part.clken_permute pos p.perm ∙ sizes.clken;
          clken_i = is_inv.sized ∙ sizes.clken_i;
          clken_0 = is_set0.sized ∙ sizes.clken_0;
          data_i = is_d.sized ∙ sizes.data_i;
        };
        others = λ q p' d' ne was. record {
          perm = get_or-set_ne part.clken_permute pos q p.perm 0 (λ e. ne (sym e)) ∙ was.perm;
          inv = is_inv.elsewhere q ne ∙ was.inv;
          set0 = is_set0.elsewhere q ne ∙ was.set0;
          d_inv_bit = is_d.elsewhere q ne ∙ was.d_inv_bit;
        };
        gathered = λ q p' was. record { perm = was.perm; inv = was.inv; set0 = was.set0 };
        table = refl;
        positions = refl;
        count = refl;
      },
    )
