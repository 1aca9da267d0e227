-- ===== src/Flatten/Part/Placement.antt =====
-- src/flatten.rs: the placement of the first and of a later activation.
use gem_macro_optimization.Base.{
  if◌then◌else◌, ok-injective, panic≢ok, ℕ, ◌+◌, ◌-◌, ◌*◌, ◌/◌, ◌%◌, ◌^◌, ◌≤◌, ◌<◌, false, ok, leb,
  ◌==◌, ◌≡◌, ◌≢◌, inl, inr, refl, ◌∙◌, arith, Bool-cases, Option-cases,
}
use gem_macro_optimization.Base.Maps.{map_get}
use gem_macro_optimization.Base.Stores.{checked_sub-ok}
use gem_macro_optimization.Flatten.Part.{
  FlatteningPart, Permute, query_permute_with_pin_iv, place_sram_duplicate, place_clken_datainv,
  place_activation,
}
use gem_macro_optimization.Flatten.Part.Place.{
  HasVectors, IsGatheredBit, IsActivated, IsPermute, place_sram_duplicate-places,
  place_clken_datainv-places,
}

pub query-IsPermute :
    (part : FlatteningPart) (iv : ℕ) (p : Permute)
    → query_permute_with_pin_iv part iv ≡ ok p
    → IsPermute p
unfolding query_permute_with_pin_iv
query-IsPermute part iv p e = elim (Bool-cases (leb iv 1)) [
  | inl constant ↦
      let is_p : ◌≡◌ {A = Permute} (record { perm = 0; inv = iv; set0 = 1 }) p =
        ok-injective (rw constant at e) in
      rw (← is_p) (record { inv_bit = ground arith; set0_bit = omega arith })
  | inr pin ↦ elim (Option-cases (map_get part.after_writeout_pin2pos (iv / 2))) [
    | inl none_there ↦ absurd (panic≢ok (rw (pin, none_there) at e))
    | inr (pos, there) ↦
        let is_p : ◌≡◌ {A = Permute} (record { perm = pos; inv = iv % 2; set0 = 0 }) p =
          ok-injective (rw (pin, there) at e) in
        rw (← is_p) (record { inv_bit = omega arith; set0_bit = omega arith })
  ]
]

-- The gather lanes of a part that are in use, in bits.
abbrev pub lane_bits : FlatteningPart → ℕ
lane_bits part = (part.num_srams * 4 + part.num_dsps * 4 + part.num_duplicate_writeouts) * 32

abbrev pub output_bits : FlatteningPart → ℕ
output_bits part = (part.num_writeouts - part.num_srams) * 32

-- One more duplicate has a place among the outputs and in the gather lanes.
pub record HasDupRoom (part : FlatteningPart) : Type 0 where
  pub outputs : part.cnt_placed_duplicate_permute < output_bits part
  pub lanes : part.cnt_placed_duplicate_permute < lane_bits part
  pub outputs_fit : output_bits part ≤ 8192
  pub lanes_fit : lane_bits part ≤ 8192

-- The output bit `pin_iv`, whose pin is at `orig`, is placed at `pos`: with its clock enable, where
-- it is if it is the pin's first activation, and else at the next place from the end, where a gather
-- lane brings the bit.
pub record IsPlacement (part part' : FlatteningPart) (pin_iv activ_idx orig : ℕ) (clken : Permute)
    (pos : ℕ) : Type 0 where
  pub activated : IsActivated part' pos clken (pin_iv % 2)
  pub first : activ_idx ≡ 0 → pos ≡ orig
  pub duplicate :
      activ_idx ≢ 0
      → (pos + (part.cnt_placed_duplicate_permute + 1) ≡ output_bits part)
        × IsGatheredBit part'
            (lane_bits part - (part.cnt_placed_duplicate_permute + 1))
            (record { perm = orig; inv = 0; set0 = 0 })
  pub counted :
      part'.cnt_placed_duplicate_permute
      ≡ part.cnt_placed_duplicate_permute + (if activ_idx == 0 then 0 else 1)
  pub lanes_kept :
      (q : ℕ) (p : Permute)
      → q ≢ lane_bits part - (part.cnt_placed_duplicate_permute + 1)
      → IsGatheredBit part q p
      → IsGatheredBit part' q p
  pub others :
      (q : ℕ) (p : Permute) (d : ℕ) → q ≢ pos → IsActivated part q p d → IsActivated part' q p d
  pub vectors : HasVectors part'

module _ (part : FlatteningPart) (orig pin_iv : ℕ) (clken : Permute) (sizes : HasVectors part)
    (lt : orig < 8192) (bits : IsPermute clken) where
  pub place_first :
      (part' : FlatteningPart) × (place_activation part 0 orig pin_iv clken ≡ ok (orig, part'))
      × IsPlacement part part' pin_iv 0 orig clken orig
      × (part'.comb_outputs_activations ≡ part.comb_outputs_activations)
  unfolding place_activation
  place_first =
      let (part', places, is_act, only) =
        place_clken_datainv-places part orig clken (pin_iv % 2) sizes lt bits (omega arith) in
      let word : orig % 2 ^ 16 ≡ orig = omega arith in
      (
        part',
        rw (places, word) refl,
        record {
          activated = is_act;
          first = λ e. refl;
          duplicate = λ ne. absurd (ne refl);
          counted = omega (arith, only.count);
          lanes_kept = λ q p far was. only.gathered q p was;
          others = only.others;
          vectors = only.vectors;
        },
        only.table,
      )

  module _ (room : HasDupRoom part) where
    later_step :
        (activ_idx : ℕ) (part₁ part₂ : FlatteningPart)
        → activ_idx ≢ 0
        → place_sram_duplicate
            (record part { cnt_placed_duplicate_permute = part.cnt_placed_duplicate_permute + 1 })
            (lane_bits part - (part.cnt_placed_duplicate_permute + 1))
            (record { perm = orig; inv = 0; set0 = 0 })
          ≡ ok part₁
        → place_clken_datainv part₁
            (output_bits part - (part.cnt_placed_duplicate_permute + 1))
            clken
            (pin_iv % 2)
          ≡ ok part₂
        → place_activation part activ_idx orig pin_iv clken
          ≡ ok (output_bits part - (part.cnt_placed_duplicate_permute + 1), part₂)
    unfolding place_activation
    later_step activ_idx part₁ part₂ ne gathers activates =
        let c = part.cnt_placed_duplicate_permute + 1 in
        let sub = checked_sub-ok (output_bits part) c (omega (arith, room.outputs)) in
        let sub' = checked_sub-ok (lane_bits part) c (omega (arith, room.lanes)) in
        let small : leb 8192 (lane_bits part - c) ≡ false =
          ground (arith, room.lanes_fit, room.lanes) in
        let word : (output_bits part - c) % 2 ^ 16 ≡ output_bits part - c =
          omega (arith, room.outputs_fit) in
        let not_first : (activ_idx == 0) ≡ false = ground arith in
        rw (not_first, sub, sub', small, gathers, activates, word) refl

    pub place_later :
        (activ_idx : ℕ)
        → activ_idx ≢ 0
        → (pos : ℕ) × (part' : FlatteningPart) × (place_activation part activ_idx orig pin_iv clken
            ≡ ok (pos, part'))
          × IsPlacement part part' pin_iv activ_idx orig clken pos
          × (part'.comb_outputs_activations ≡ part.comb_outputs_activations)
    place_later activ_idx ne =
        let c = part.cnt_placed_duplicate_permute + 1 in
        let lane = lane_bits part - c in
        let pos = output_bits part - c in
        let not_first : (activ_idx == 0) ≡ false = ground arith in
        let brought : Permute = record { perm = orig; inv = 0; set0 = 0 } in
        let (part₁, gathers, is_gathered, gathers_only) =
          place_sram_duplicate-places (record part { cnt_placed_duplicate_permute = c }) lane
            brought
            (record {
              permute = sizes.permute;
              inv = sizes.inv;
              set0 = sizes.set0;
              clken = sizes.clken;
              clken_i = sizes.clken_i;
              clken_0 = sizes.clken_0;
              data_i = sizes.data_i;
            })
            (omega (arith, room.lanes_fit, room.lanes))
            (record { inv_bit = omega arith; set0_bit = omega arith }) in
        let (part₂, activates, is_act, only) =
          place_clken_datainv-places part₁ pos clken (pin_iv % 2) gathers_only.vectors
            (omega (arith, room.outputs_fit, room.outputs)) bits (omega arith) in
        (
          pos,
          part₂,
          later_step activ_idx part₁ part₂ ne gathers activates,
          record {
            activated = is_act;
            first = λ e. absurd (ne e);
            duplicate = λ n. (omega (arith, room.outputs), only.gathered lane brought is_gathered);
            counted = rw not_first (only.count ∙ gathers_only.count);
            lanes_kept = λ q p far was. only.gathered q p (
                gathers_only.others q p far
                  (record { perm = was.perm; inv = was.inv; set0 = was.set0 }));
            others = λ q p d far was. only.others q p d far (
                gathers_only.activated q p d (record {
                  perm = was.perm;
                  inv = was.inv;
                  set0 = was.set0;
                  d_inv_bit = was.d_inv_bit;
                }));
            vectors = only.vectors;
          },
          only.table ∙ gathers_only.table,
        )
