-- ===== src/Flatten/Part.antt =====
-- src/flatten.rs: `FlatteningPart`, the placement of its output bits and of their activations. An
-- index out of range is a panic.
pub mod Layout
pub mod Io
pub mod Place
pub mod Placement
pub mod Activation
use gem_macro_optimization.Base.{
  ℕ, zero, suc, ◌+◌, ◌-◌, ◌*◌, ◌/◌, ◌%◌, ◌^◌, Bool, true, false, List, [], ◌∷◌, Option, none, some,
  Outcome, ok, panic, ◌>>=◌, unwrap, leb, ◌==◌, if◌then◌else◌, get_elem?, bit_or, is_some,
}
use gem_macro_optimization.Base.Maps.{map_get, map_insert}
use gem_macro_optimization.Base.Stores.{store, get_full, checked_sub}
use gem_macro_optimization.Flatten.{set_bit_in_u32}

pub record FlatteningPart : Type 0 where
  pub afters : List (List ℕ)
  pub parts_after_writeouts : List ℕ
  pub after_writeout_pin2pos : List (ℕ × ℕ)
  pub num_srams : ℕ
  pub num_normal_writeouts : ℕ
  pub num_duplicate_writeouts : ℕ
  pub num_writeouts : ℕ
  pub comb_outputs_activations : List (ℕ × List (ℕ × Option ℕ))
  pub cnt_placed_duplicate_permute : ℕ
  pub zero_bit_pos : ℕ
  pub state_start : ℕ
  pub sram_start : ℕ
  pub num_dsps : ℕ
  pub dsp_state_words : ℕ
  pub macro_state_words : ℕ
  pub macro_state_start : ℕ
  pub macro_local_ids : List (ℕ × ℕ)
  pub sram_duplicate_permute : List ℕ
  pub sram_duplicate_inv : List ℕ
  pub sram_duplicate_set0 : List ℕ
  pub clken_permute : List ℕ
  pub clken_inv : List ℕ
  pub clken_set0 : List ℕ
  pub data_inv : List ℕ

-- Permutation id, invert bit and setzero bit.
pub record Permute : Type 0 where
  pub perm : ℕ
  pub inv : ℕ
  pub set0 : ℕ

unfoldable pub query_permute_with_pin_iv : FlatteningPart → ℕ → Outcome Permute
query_permute_with_pin_iv part pin_iv =
    if leb pin_iv 1
    then ok (record { perm = 0; inv = pin_iv; set0 = 1 })
    else (unwrap (map_get part.after_writeout_pin2pos (pin_iv / 2)) >>= λ pos.
        ok (record { perm = pos; inv = pin_iv % 2; set0 = 0 }))

-- `set_bit_in_u32(&mut v[pos >> 5], (pos & 31) as u32, bit)`
unfoldable pub set_bit_at : List ℕ → ℕ → ℕ → Outcome (List ℕ)
unfolding set_bit_in_u32
set_bit_at v pos bit = unwrap (get_elem? v (pos / 32)) >>= λ word.
    store v (pos / 32) (set_bit_in_u32 word (pos % 32) bit)

unfoldable pub place_sram_duplicate : FlatteningPart → ℕ → Permute → Outcome FlatteningPart
unfolding set_bit_at
place_sram_duplicate part pos p = store part.sram_duplicate_permute pos p.perm >>= λ permute.
    set_bit_at part.sram_duplicate_inv pos p.inv >>= λ inv.
    set_bit_at part.sram_duplicate_set0 pos p.set0 >>= λ set0. ok (record part {
      sram_duplicate_permute = permute;
      sram_duplicate_inv = inv;
      sram_duplicate_set0 = set0;
    })

unfoldable pub place_clken_datainv : FlatteningPart → ℕ → Permute → ℕ → Outcome FlatteningPart
unfolding set_bit_at
place_clken_datainv part pos clken_iv data_inv =
    store part.clken_permute pos clken_iv.perm >>= λ permute.
    set_bit_at part.clken_inv pos clken_iv.inv >>= λ inv.
    set_bit_at part.clken_set0 pos clken_iv.set0 >>= λ set0.
    set_bit_at part.data_inv pos data_inv >>= λ data_invs. ok (record part {
      clken_permute = permute;
      clken_inv = inv;
      clken_set0 = set0;
      data_inv = data_invs;
    })

-- `clken_iv << 1 | (pin_iv & 1)`
abbrev pub activation : ℕ → ℕ → ℕ
activation pin_iv clken_iv = bit_or (clken_iv * 2) (pin_iv % 2)

-- The branch of the first activation, which stays at its position, and of the others, which are
-- duplicated.
unfoldable pub place_activation :
    FlatteningPart → ℕ → ℕ → ℕ → Permute → Outcome (ℕ × FlatteningPart)
unfolding place_clken_datainv place_sram_duplicate
place_activation part activ_idx origpos pin_iv clken =
    if activ_idx == 0
    then (place_clken_datainv part origpos clken (pin_iv % 2) >>= λ part'.
        ok (origpos % 2 ^ 16, part'))
    else let cnt = part.cnt_placed_duplicate_permute + 1 in
      checked_sub ((part.num_writeouts - part.num_srams) * 32) cnt >>= λ dup_pos.
      checked_sub ((part.num_srams * 4 + part.num_dsps * 4 + part.num_duplicate_writeouts) * 32) cnt
      >>= λ dup_perm_pos.
          if leb 8192 dup_perm_pos
          then panic
          else place_sram_duplicate (record part { cnt_placed_duplicate_permute = cnt })
              dup_perm_pos (record { perm = origpos; inv = 0; set0 = 0 })
            >>= λ part₁. place_clken_datainv part₁ dup_pos clken (pin_iv % 2) >>= λ part₂.
                ok (dup_pos % 2 ^ 16, part₂)

-- The write of the new position into the table of activations.
abbrev pub note_position : FlatteningPart → ℕ → ℕ → ℕ → Outcome FlatteningPart
note_position part pin key r_pos = unwrap (map_get part.comb_outputs_activations pin) >>= λ activs.
    ok (record part {
      comb_outputs_activations =
          map_insert part.comb_outputs_activations pin (map_insert activs key (some r_pos));
    })

unfoldable pub get_or_place_output_with_activation :
    FlatteningPart → ℕ → ℕ → Outcome (ℕ × FlatteningPart)
unfolding query_permute_with_pin_iv place_activation
get_or_place_output_with_activation part pin_iv clken_iv =
    unwrap (map_get part.comb_outputs_activations (pin_iv / 2)) >>= λ activs.
    unwrap (get_full activs (activation pin_iv clken_iv)) >>= λ entry. elim entry.1 [
      | some pos ↦ ok (pos, part)
      | none ↦ query_permute_with_pin_iv part clken_iv >>= λ clken.
          unwrap (map_get part.after_writeout_pin2pos (pin_iv / 2)) >>= λ origpos.
          place_activation part entry.0 origpos pin_iv clken >>= λ r.
          note_position r.1 (pin_iv / 2) (activation pin_iv clken_iv) r.0 >>= λ part'.
          ok (r.0, part')
    ]
