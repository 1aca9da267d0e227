-- ===== src/Flatten/Phase/CarryLane.antt =====
-- src/flatten.rs and src/bin/flatten_test.rs: a CARRY4 lane, emitted and run.
use mathlib.Core.Path.{subst}
use gem_macro_optimization.Base.{
  ℕ, ◌<◌, Bool, true, false, List, ◌++◌, Option, some, ok, length, length-map, length-set,
  get_elem?, get_or-set_self, get_or-set_ne, set, map, min, ◌==◌, ◌≡◌, ◌≢◌, ◌⊎◌, refl, sym, ap, ◌∙◌,
  Bool-cases, inl, inr, arith,
}
use gem_macro_optimization.Base.Maps.{map_get}
use gem_macro_optimization.Macros.Kind.{MacroKind, carry4, num_inputs, num_outputs}
use gem_macro_optimization.Macros.Inst.{MacroInst}
use gem_macro_optimization.Macros.Encode.{script_kind_code}
use gem_macro_optimization.Macros.Encode.Codes.{literal_bit}
use gem_macro_optimization.Script.{at, read_bit, decode_all, PhaseVars, carry_lane, run_lane}
use gem_macro_optimization.Script.Rounds.{AreOutputs}
use gem_macro_optimization.Script.Carry.{lane_inputs, IsCarryLane, carry_lane-IsCarryLane}
use gem_macro_optimization.Pe.{MacroLane}
use gem_macro_optimization.Flatten.Phase.{
  is_scanned, encode_inputs, place_outputs, Emit, offset_or_zero, lane_desc, emit_lane,
}
use gem_macro_optimization.Flatten.Phase.Outputs.{
  HasRoom, PlacesOutputs, place_outputs-PlacesOutputs,
}
use gem_macro_optimization.Flatten.Phase.Words.{at_ext}
use gem_macro_optimization.Flatten.Phase.Inputs.{
  EncodesInputs, AreRealised, encode_inputs-EncodesInputs,
}
use gem_macro_optimization.Flatten.Phase.Positions.{
  length-decode_all, at-decode_all, at-map, no_positions, no_codes, no_codes-AreCodes,
  outs-AreOutputs, outs-AreCodes,
}
use gem_macro_optimization.Flatten.Phase.Lane.{
  lane_words, lane_words-length, emit_step, lane_words-read, run_carry,
}

-- A cell has the slots of the kind with the most.
pub record HasSlots (m : MacroInst) : Type 0 where
  pub ins : length m.inputs ≡ 10
  pub outs : length m.outputs ≡ 8

not_scanned :
    (chain_start : Bool) (m : MacroInst) (s : ℕ)
    → m.kind ≡ carry4
    → (chain_start ≡ true) ⊎ (s ≢ 0)
    → is_scanned chain_start m.kind s ≡ false
not_scanned true m s kind h = refl
not_scanned false m s kind (inl e) = cc
not_scanned false m s kind (inr ne) = rw kind (ground arith)

module _ (m : MacroInst) (pos_of : ℕ → Option ℕ) (val : ℕ → ℕ) (v : PhaseVars) (slots : HasSlots m)
    (kind : m.kind ≡ carry4) (codes : List ℕ) where
  decoded_at :
      (chain_start : Bool) (s : ℕ)
      → EncodesInputs chain_start m pos_of (read_bit v.state) val 0 10 no_codes codes
      → s < 10
      → (chain_start ≡ true) ⊎ (s ≢ 0)
      → at (decode_all v.state codes) s ≡ at (map (literal_bit val) m.inputs) s
  decoded_at chain_start s enc h gathered =
      at-decode_all v.state codes s (omega (arith, enc.sized))
      ∙ enc.decoded s (omega arith) h (not_scanned chain_start m s kind gathered)
      ∙ sym (at-map (literal_bit val) m.inputs s (omega (arith, slots.ins)))

  -- The decoded inputs are the cell's literals, but for a `CI` that comes from the lane before.
  inputs_same :
      (chain_start : Bool)
      → EncodesInputs chain_start m pos_of (read_bit v.state) val 0 10 no_codes codes
      → lane_inputs chain_start (decode_all v.state codes) v.prev_co3
        ≡ lane_inputs chain_start (map (literal_bit val) m.inputs) v.prev_co3
  inputs_same true enc =
      at_ext (decode_all v.state codes) (map (literal_bit val) m.inputs)
        (length-decode_all v.state codes
          ∙ enc.sized
          ∙ sym slots.ins
          ∙ sym (length-map (literal_bit val) m.inputs))
        (λ s h.
          decoded_at true s enc (omega (arith, length-decode_all v.state codes, enc.sized))
            (inl refl))
  inputs_same false enc =
      let xs = decode_all v.state codes in
      let ys = map (literal_bit val) m.inputs in
      let p = v.prev_co3 in
      let ten_x : length xs ≡ 10 = length-decode_all v.state codes ∙ enc.sized in
      let ten_y : length ys ≡ 10 = length-map (literal_bit val) m.inputs ∙ slots.ins in
      at_ext (set xs 0 p) (set ys 0 p)
        (length-set xs 0 p ∙ ten_x ∙ sym ten_y ∙ sym (length-set ys 0 p))
        (λ s h. elim (Bool-cases (s == 0)) [
          | inl first ↦
              let zeroth : s ≡ 0 = ground arith in
              rw zeroth (
                get_or-set_self xs 0 p 0 (omega arith)
                ∙ sym (get_or-set_self ys 0 p 0 (omega arith)))
          | inr later ↦
              get_or-set_ne xs 0 s p 0 (ground arith)
              ∙ decoded_at false s enc (omega (arith, length-set xs 0 p)) (inr (ground arith))
              ∙ sym (get_or-set_ne ys 0 s p 0 (ground arith))
        ])

carry_step :
    (macros : List (ℕ × MacroInst)) (pos_of : ℕ → Option ℕ) (offs : List (ℕ × ℕ)) (ml : MacroLane)
    (e r : Emit) (entry : ℕ × MacroInst) (codes outs : List ℕ)
    → get_elem? macros ml.macro_i ≡ some entry
    → entry.1.kind ≡ carry4
    → encode_inputs ml.chain_start entry.1 pos_of 0 10 no_codes ≡ ok codes
    → place_outputs entry.1 0 8 no_positions e ≡ ok (outs, r)
    → r.script ≡ e.script
    → emit_lane macros pos_of offs ml e
      ≡ ok (record r {
        script =
            e.script
            ++ lane_words
                (lane_desc 0 ml.chain_start (offset_or_zero (map_get offs ml.macro_i)))
                codes
                outs;
      })
carry_step macros pos_of offs ml e r entry codes outs found kind encodes allocates same =
    emit_step macros pos_of offs ml e r entry 0 10 8 codes outs found
      (ap (λ (k : MacroKind). script_kind_code k) kind ∙ (unfold script_kind_code in refl))
      (ap (λ (k : MacroKind). min (num_inputs k) 10) kind ∙ (unfold num_inputs in refl))
      (ap (λ (k : MacroKind). min (num_outputs k) 8) kind ∙ (unfold num_outputs in refl)) encodes
      allocates same

-- The words of a CARRY4 lane, wherever they stand in a script, and the positions that it takes.
pub record IsCarryCode (chain_start : Bool) (m : MacroInst) (val : ℕ → ℕ) (v : PhaseVars)
    (e e' : Emit) (words outs : List ℕ) : Type 0 where
  pub sized : length words ≡ 12
  pub places : PlacesOutputs m 0 8 no_positions outs e e'
  pub runs :
      (pre post : List ℕ)
      → (v' : PhaseVars) × (run_lane (pre ++ (words ++ post)) (length pre) v ≡ ok v')
        × IsCarryLane
            (lane_inputs chain_start (map (literal_bit val) m.inputs) v.prev_co3)
            outs
            v
            v'

code-IsCarryCode :
    (chain_start : Bool) (m : MacroInst) (pos_of : ℕ → Option ℕ) (val : ℕ → ℕ) (v : PhaseVars)
    (e r : Emit) (off : ℕ) (codes outs : List ℕ)
    → m.kind ≡ carry4
    → HasSlots m
    → length v.state ≡ 256
    → HasRoom 8 e
    → EncodesInputs chain_start m pos_of (read_bit v.state) val 0 10 no_codes codes
    → PlacesOutputs m 0 8 no_positions outs e r
    → IsCarryCode chain_start m val v e r (lane_words (lane_desc 0 chain_start off) codes outs) outs
code-IsCarryCode chain_start m pos_of val v e r off codes outs kind slots words has_room enc
      places =
    record {
      sized =
          lane_words-length (lane_desc 0 chain_start off) codes outs enc.sized places.sized_outs;
      places = places;
      runs = λ pre post.
          let desc = lane_desc 0 chain_start off in
          let inp = decode_all v.state codes in
          let is_outs : AreOutputs outs (length v.state) =
            rw words (outs-AreOutputs m 8 outs e r (omega arith) places has_room) in
          let reads =
            lane_words-read pre post desc codes outs enc.sized places.sized_outs
              (enc.fits no_codes-AreCodes)
              (outs-AreCodes m 8 outs e r (omega arith) places has_room) in
          let two : 1 < length inp = omega (arith, length-decode_all v.state codes, enc.sized) in
          (
            carry_lane chain_start inp outs v,
            run_carry (pre ++ (lane_words desc codes outs ++ post)) (length pre) off codes outs
                chain_start v reads,
            subst (λ (x : List ℕ). IsCarryLane x outs v (carry_lane chain_start inp outs v))
                (inputs_same m pos_of val v slots kind codes chain_start enc)
                (carry_lane-IsCarryLane chain_start inp outs v two is_outs),
          );
    }

-- A CARRY4 lane whose pins have their bits in the shared state is emitted, if the allocator has
-- room for eight positions, as twelve words that the executor runs: at distinct free positions,
-- one for each output that is used, it writes what the reference model gives for the cell's
-- literals.
pub emit_lane-IsCarryCode :
    (macros : List (ℕ × MacroInst)) (pos_of : ℕ → Option ℕ) (offs : List (ℕ × ℕ)) (ml : MacroLane)
    (e : Emit) (entry : ℕ × MacroInst) (val : ℕ → ℕ) (v : PhaseVars)
    → get_elem? macros ml.macro_i ≡ some entry
    → entry.1.kind ≡ carry4
    → HasSlots entry.1
    → val 0 ≡ 0
    → AreRealised ml.chain_start entry.1 pos_of (read_bit v.state) val 0 10
    → HasRoom 8 e
    → length v.state ≡ 256
    → (e' : Emit) × (words outs : List ℕ) × (emit_lane macros pos_of offs ml e
        ≡ ok (record e' { script = e.script ++ words }))
      × IsCarryCode ml.chain_start entry.1 val v e e' words outs
emit_lane-IsCarryCode macros pos_of offs ml e entry val v found kind slots z real has_room words =
    let m = entry.1 in
    let (codes, encodes, enc) =
      encode_inputs-EncodesInputs ml.chain_start m pos_of (read_bit v.state) val 0 10 no_codes z
        (omega (arith, slots.ins)) (omega arith) real in
    let (outs, r, allocates, places) =
      place_outputs-PlacesOutputs m 0 8 no_positions e (omega (arith, slots.outs)) (omega arith)
        has_room in
    let off = offset_or_zero (map_get offs ml.macro_i) in
    (
      r,
      lane_words (lane_desc 0 ml.chain_start off) codes outs,
      outs,
      carry_step macros pos_of offs ml e r entry codes outs found kind encodes allocates
          places.same_script,
      code-IsCarryCode ml.chain_start m pos_of val v e r off codes outs kind slots words has_room
          enc places,
    )
