-- ===== src/Flatten/Phase.antt =====
-- src/flatten.rs: `emit_macro_phase`, lane by lane.
pub mod Outputs
pub mod Words
pub mod Inputs
pub mod Lane
pub mod Positions
pub mod CarryLane
pub mod SrlLane
use gem_macro_optimization.Base.{
  ℕ, zero, suc, ◌+◌, ◌-◌, ◌*◌, ◌%◌, ◌^◌, Bool, true, false, not, ◌&&◌, ◌||◌, List, [], ◌∷◌, ◌++◌,
  Option, none, some, Outcome, ok, panic, ◌>>=◌, unwrap, bit_or, ◌==◌, if◌then◌else◌, length,
  get_elem?, get_or, set, replicate, min,
}
use gem_macro_optimization.Base.Maps.{map_get, map_insert}
use gem_macro_optimization.Macros.Kind.{MacroKind, c4_in_ci, num_inputs, num_outputs}
use gem_macro_optimization.Macros.Fanin.{output_needs_mid_partition_eval}
use gem_macro_optimization.Macros.Inst.{MacroInst}
use gem_macro_optimization.Macros.Encode.{
  macro_lane_words, macro_lane_in_slots, macro_lane_out_slots, macro_max_lanes, macro_pos_none,
  macro_perm_const_bit, macro_desc_chain_start_bit, macro_desc_valid_bit, macro_desc_state_shift,
  script_kind_code, macro_encode_input,
}
use gem_macro_optimization.Pe.{boomerang_num_stages, MacroLane, MacroStage, is_carry4}
use gem_macro_optimization.Flatten.{alloc_free_pos}

-- What the loop over the lanes changes.
pub record Emit : Type 0 where
  pub script : List ℕ
  pub occupancy : List Bool
  pub cursor : ℕ
  pub newly : List (ℕ × ℕ)

-- A link of a chain gets its carry from the lane before, so its `CI` is not gathered.
abbrev pub is_scanned : Bool → MacroKind → ℕ → Bool
is_scanned chain_start kind slot = not chain_start && (is_carry4 kind && slot == c4_in_ci)

-- The loop over the input slots `slot`, `slot + 1`, …, `n` of them.
unfoldable pub encode_inputs : Bool → MacroInst → (ℕ → Option ℕ) → ℕ → ℕ → List ℕ → Outcome (List ℕ)
encode_inputs chain_start m pos_of slot zero codes = ok codes
encode_inputs chain_start m pos_of slot (suc n) codes = elim (is_scanned chain_start m.kind slot) [
  | true ↦ encode_inputs chain_start m pos_of (slot + 1) n codes
  | false ↦ unwrap (get_elem? m.inputs slot) >>= λ iv. macro_encode_input iv pos_of >>= λ code.
      encode_inputs chain_start m pos_of (slot + 1) n (set codes slot code)
]

-- An output that has no position: it is unused, or a read of the state.
unfoldable pub has_no_pos : MacroKind → ℕ → ℕ → Bool
unfolding output_needs_mid_partition_eval
has_no_pos kind slot pin = pin == 0 || not (output_needs_mid_partition_eval kind slot)

-- The loop over the output slots `slot`, `slot + 1`, …, `n` of them.
unfoldable pub place_outputs : MacroInst → ℕ → ℕ → List ℕ → Emit → Outcome (List ℕ × Emit)
place_outputs m slot zero outs e = ok (outs, e)
place_outputs m slot (suc n) outs e = unwrap (get_elem? m.outputs slot) >>= λ pin.
    elim (has_no_pos m.kind slot pin) [
      | true ↦ place_outputs m (slot + 1) n outs e
      | false ↦ alloc_free_pos e.occupancy e.cursor >>= λ a.
          place_outputs m (slot + 1) n (set outs slot a.pos) (record e {
            occupancy = a.occupancy;
            cursor = a.cursor;
            newly = e.newly ++ (pin, a.pos) ∷ [];
          })
    ]

-- Two 16-bit codes to a word, the first in the low half.
unfoldable pub pack : List ℕ → List ℕ
pack [] = []
pack (a ∷ []) = a ∷ []
pack (a ∷ b ∷ codes) = bit_or a (b * 2 ^ 16 % 2 ^ 32) ∷ pack codes

-- The descriptor of a lane. `state_off << MACRO_DESC_STATE_SHIFT` loses the bits beyond 32.
unfoldable pub lane_desc : ℕ → Bool → ℕ → ℕ
lane_desc kind_code chain_start state_off =
    bit_or
      (bit_or (bit_or kind_code ((if chain_start then 1 else 0) * 2 ^ macro_desc_chain_start_bit))
        (1 * 2 ^ macro_desc_valid_bit))
      (state_off * 2 ^ macro_desc_state_shift % 2 ^ 32)

-- `*macro_state_off.get(&macro_i).unwrap_or(&0)`
abbrev pub offset_or_zero : Option ℕ → ℕ
offset_or_zero none = 0
offset_or_zero (some off) = off

unfoldable pub emit_lane :
    List (ℕ × MacroInst) → (ℕ → Option ℕ) → List (ℕ × ℕ) → MacroLane → Emit → Outcome Emit
unfolding encode_inputs place_outputs pack lane_desc
emit_lane macros pos_of macro_state_off ml e = unwrap (get_elem? macros ml.macro_i) >>= λ entry.
    let m = entry.1 in
    let state_off = offset_or_zero (map_get macro_state_off ml.macro_i) in
    script_kind_code m.kind >>= λ kind_code.
    encode_inputs ml.chain_start m pos_of 0 (min (num_inputs m.kind) macro_lane_in_slots)
      (replicate macro_lane_in_slots (2 ^ macro_perm_const_bit))
    >>= λ codes.
        place_outputs m 0 (min (num_outputs m.kind) macro_lane_out_slots)
          (replicate macro_lane_out_slots macro_pos_none) e
        >>= λ r.
            let words =
              lane_desc kind_code ml.chain_start state_off
              ∷ (pack codes ++ (pack r.0 ++ 0 ∷ 0 ∷ [])) in
            ok (record r.1 { script = r.1.script ++ words })

-- The lanes from some lane on, `n` of the section's left. A lane beyond the last is all zeros.
unfoldable pub emit_lanes :
    List (ℕ × MacroInst) → (ℕ → Option ℕ) → List (ℕ × ℕ) → ℕ → List MacroLane → Emit → Outcome Emit
emit_lanes macros pos_of off zero lanes e = ok e
emit_lanes macros pos_of off (suc n) [] e =
    emit_lanes macros pos_of off n []
      (record e { script = e.script ++ replicate macro_lane_words 0 })
emit_lanes macros pos_of off (suc n) (ml ∷ lanes) e =
    emit_lane macros pos_of off ml e >>= λ e'. emit_lanes macros pos_of off n lanes e'

-- The pins that the phase produced, published.
abbrev pub publish : List (ℕ × ℕ) → List (ℕ × ℕ) → List (ℕ × ℕ)
publish m [] = m
publish m ((pin, pos) ∷ newly) = publish (map_insert m pin pos) newly

-- What a phase leaves in its `&mut` arguments.
pub record AfterPhase : Type 0 where
  pub script : List ℕ
  pub last_pin2localpos : List (ℕ × ℕ)
  pub occupancy : List Bool

unfoldable pub emit_macro_phase :
    List (ℕ × MacroInst)
    → List (ℕ × ℕ)
    → MacroStage
    → List ℕ
    → List (ℕ × ℕ)
    → List Bool
    → Outcome AfterPhase
unfolding emit_lanes
emit_macro_phase macros macro_state_off ms script last_pin2localpos occupancy =
    emit_lanes macros (map_get last_pin2localpos) macro_state_off macro_max_lanes ms.lanes (record {
      script = script;
      occupancy = occupancy;
      cursor = 2 ^ (boomerang_num_stages - 1);
      newly = [];
    })
    >>= λ e.
        if length e.script - length script == macro_max_lanes * macro_lane_words
        then ok (record {
          script = e.script;
          last_pin2localpos = publish last_pin2localpos e.newly;
          occupancy = e.occupancy;
        })
        else panic
