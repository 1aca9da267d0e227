-- ===== src/Flatten/Phase/SrlLane.antt =====
-- src/flatten.rs and src/bin/flatten_test.rs: an SRLC32E lane, emitted and run.
use mathlib.Core.Path.{subst}
use gem_macro_optimization.Base.{
  ℕ, ◌+◌, ◌-◌, ◌%◌, ◌^◌, ◌≤◌, ◌<◌, Bool, true, false, List, [], ◌∷◌, ◌++◌, Option, some, ok, length,
  length-map, length-append, get_elem?, map, min, ltb, ◌≡◌, refl, sym, ap, ◌∙◌, Bool-cases, inl,
  inr, arith, get_or-append_left,
}
use gem_macro_optimization.Base.Maps.{map_get}
use gem_macro_optimization.Macros.Kind.{MacroKind, srlc32e, num_inputs, num_outputs}
use gem_macro_optimization.Macros.Inst.{MacroInst}
use gem_macro_optimization.Macros.Encode.{script_kind_code, macro_decode_input}
use gem_macro_optimization.Macros.Encode.Codes.{literal_bit}
use gem_macro_optimization.Script.{at, read_bit, decode_all, PhaseVars, srl_lane, run_lane}
use gem_macro_optimization.Script.Shift.{AreReadPorts, IsSrlLane, srl_lane-IsSrlLane}
use gem_macro_optimization.Pe.{MacroLane}
use gem_macro_optimization.Flatten.Phase.{
  is_scanned, encode_inputs, place_outputs, Emit, offset_or_zero, lane_desc, emit_lane,
}
use gem_macro_optimization.Flatten.Phase.Outputs.{
  HasRoom, PlacesOutputs, place_outputs-PlacesOutputs,
}
use gem_macro_optimization.Flatten.Phase.Words.{at_ext, at-append}
use gem_macro_optimization.Flatten.Phase.Inputs.{
  EncodesInputs, AreRealised, encode_inputs-EncodesInputs,
}
use gem_macro_optimization.Flatten.Phase.Lane.{
  lane_words, lane_words-length, emit_step, lane_words-read, run_srl,
}
use gem_macro_optimization.Flatten.Phase.Positions.{
  no_codes, no_codes-AreCodes, no_positions, at-map, at-decode_all, length-decode_all,
  outs-AreOutputs, outs-AreCodes,
}

-- The literals of the seven slots; the slots that an SRLC32E does not have read 0.
abbrev pub srl_inputs : (ℕ → ℕ) → MacroInst → List ℕ
srl_inputs val m = map (literal_bit val) m.inputs ++ (0 ∷ 0 ∷ 0 ∷ [])

-- A cell has the slots of an SRLC32E.
pub record HasSrlSlots (m : MacroInst) : Type 0 where
  pub ins : length m.inputs ≡ 7
  pub outs : length m.outputs ≡ 2

not_scanned :
    (chain_start : Bool) (m : MacroInst) (s : ℕ)
    → m.kind ≡ srlc32e
    → is_scanned chain_start m.kind s ≡ false
not_scanned true m s kind = refl
not_scanned false m s kind = rw kind refl

unused_slot : (rb : ℕ → ℕ) (s : ℕ) → macro_decode_input (2 ^ 14) rb ≡ 0
unfolding macro_decode_input
unused_slot rb s = refl

zeros-at : (i : ℕ) → at (0 ∷ 0 ∷ 0 ∷ []) i ≡ 0
zeros-at i = ground arith

no_codes-at : (s : ℕ) → s < 10 → at no_codes s ≡ 2 ^ 14
no_codes-at s h = ground arith

module _ (chain_start : Bool) (m : MacroInst) (pos_of : ℕ → Option ℕ) (val : ℕ → ℕ) (v : PhaseVars)
    (slots : HasSrlSlots m) (kind : m.kind ≡ srlc32e) (codes : List ℕ)
    (enc : EncodesInputs chain_start m pos_of (read_bit v.state) val 0 7 no_codes codes) where
  ten : length (decode_all v.state codes) ≡ 10
  ten = length-decode_all v.state codes ∙ enc.sized

  seven : length (map (literal_bit val) m.inputs) ≡ 7
  seven = length-map (literal_bit val) m.inputs ∙ slots.ins

  decoded_slot : (s : ℕ) → s < 7 → at (decode_all v.state codes) s ≡ at (srl_inputs val m) s
  decoded_slot s h =
      at-decode_all v.state codes s (omega (arith, enc.sized))
      ∙ enc.decoded s (omega arith) (omega arith) (not_scanned chain_start m s kind)
      ∙ sym (at-map (literal_bit val) m.inputs s (omega (arith, slots.ins)))
      ∙ sym (
          get_or-append_left (map (literal_bit val) m.inputs) (0 ∷ 0 ∷ 0 ∷ []) s 0
            (omega (arith, seven)))

  decoded_rest :
      (s : ℕ) → 7 ≤ s → s < 10 → at (decode_all v.state codes) s ≡ at (srl_inputs val m) s
  decoded_rest s ge h =
      let code = enc.outside s (inr (omega arith)) ∙ no_codes-at s h in
      let beyond : length (map (literal_bit val) m.inputs) + (s - 7) ≡ s = omega (arith, seven) in
      at-decode_all v.state codes s (omega (arith, enc.sized))
      ∙ ap (λ (t : ℕ). macro_decode_input t (read_bit v.state)) code
      ∙ unused_slot (read_bit v.state) s
      ∙ sym (zeros-at (s - 7))
      ∙ sym (at-append (map (literal_bit val) m.inputs) (0 ∷ 0 ∷ 0 ∷ []) (s - 7))
      ∙ ap (λ (t : ℕ). at (srl_inputs val m) t) beyond

  srl_inputs_same : decode_all v.state codes ≡ srl_inputs val m
  srl_inputs_same =
      at_ext (decode_all v.state codes) (srl_inputs val m)
        (omega (arith, ten, seven, length-append (map (literal_bit val) m.inputs) (0 ∷ 0 ∷ 0 ∷ [])))
        (λ s h. elim (Bool-cases (ltb s 7)) [
          | inl slot ↦ decoded_slot s (ground arith)
          | inr rest ↦ decoded_rest s (ground arith) (omega (arith, ten))
        ])

srl_step :
    (macros : List (ℕ × MacroInst)) (pos_of : ℕ → Option ℕ) (offs : List (ℕ × ℕ)) (ml : MacroLane)
    (e r : Emit) (entry : ℕ × MacroInst) (codes outs : List ℕ)
    → get_elem? macros ml.macro_i ≡ some entry
    → entry.1.kind ≡ srlc32e
    → encode_inputs ml.chain_start entry.1 pos_of 0 7 no_codes ≡ ok codes
    → place_outputs entry.1 0 2 no_positions e ≡ ok (outs, r)
    → r.script ≡ e.script
    → emit_lane macros pos_of offs ml e
      ≡ ok (record r {
        script =
            e.script
            ++ lane_words
                (lane_desc 1 ml.chain_start (offset_or_zero (map_get offs ml.macro_i)))
                codes
                outs;
      })
srl_step macros pos_of offs ml e r entry codes outs found kind encodes allocates same =
    emit_step macros pos_of offs ml e r entry 1 7 2 codes outs found
      (ap (λ (k : MacroKind). script_kind_code k) kind ∙ (unfold script_kind_code in refl))
      (ap (λ (k : MacroKind). min (num_inputs k) 10) kind ∙ (unfold num_inputs in refl))
      (ap (λ (k : MacroKind). min (num_outputs k) 8) kind ∙ (unfold num_outputs in refl)) encodes
      allocates same

-- The words of an SRLC32E lane with its register at `off`, wherever they stand in a script, and the
-- positions that it takes.
pub record IsSrlCode (m : MacroInst) (val : ℕ → ℕ) (off : ℕ) (v : PhaseVars) (e e' : Emit)
    (words outs : List ℕ) : Type 0 where
  pub sized : length words ≡ 12
  pub places : PlacesOutputs m 0 2 no_positions outs e e'
  pub runs :
      (pre post : List ℕ)
      → (v' : PhaseVars) × (run_lane (pre ++ (words ++ post)) (length pre) v ≡ ok v')
        × IsSrlLane off (srl_inputs val m) outs v v'

module _ (chain_start : Bool) (m : MacroInst) (pos_of : ℕ → Option ℕ) (val : ℕ → ℕ) (v : PhaseVars)
    (e r : Emit) (off : ℕ) (codes outs : List ℕ) (kind : m.kind ≡ srlc32e) (slots : HasSrlSlots m)
    (words : length v.state ≡ 256) (has_room : HasRoom 2 e)
    (here : off % 2 ^ 16 < length v.macro_data) (fits : at v.macro_data (off % 2 ^ 16) < 2 ^ 32)
    (enc : EncodesInputs chain_start m pos_of (read_bit v.state) val 0 7 no_codes codes)
    (places : PlacesOutputs m 0 2 no_positions outs e r) where
  srl_ports : AreReadPorts outs (length v.state)
  srl_ports =
      let is_outs = outs-AreOutputs m 2 outs e r (omega arith) places has_room in
      rw words (record {
        placed = λ s h. is_outs.placed s (omega arith);
        apart = λ some_pos same.
            omega (arith, is_outs.apart 0 1 (omega arith) (omega arith) some_pos same);
      })

  code-IsSrlCode :
      IsSrlCode m val
        (off % 2 ^ 16)
        v
        e
        r
        (lane_words (lane_desc 1 chain_start off) codes outs)
        outs
  code-IsSrlCode = record {
    sized = lane_words-length (lane_desc 1 chain_start off) codes outs enc.sized places.sized_outs;
    places = places;
    runs = λ pre post.
        let desc = lane_desc 1 chain_start off in
        let inp = decode_all v.state codes in
        let reads =
          lane_words-read pre post desc codes outs enc.sized places.sized_outs
            (enc.fits no_codes-AreCodes)
            (outs-AreCodes m 2 outs e r (omega arith) places has_room) in
        (
          srl_lane (off % 2 ^ 16) inp outs v,
          run_srl (pre ++ (lane_words desc codes outs ++ post)) (length pre) off codes outs
              chain_start v reads,
          subst
              (λ (x : List ℕ).
                IsSrlLane (off % 2 ^ 16) x outs v (srl_lane (off % 2 ^ 16) inp outs v))
              (srl_inputs_same chain_start m pos_of val v slots kind codes enc)
              (srl_lane-IsSrlLane (off % 2 ^ 16) inp outs v fits here srl_ports),
        );
  }

-- An SRLC32E lane whose pins have their bits in the shared state is emitted, if the allocator has
-- room for two positions, as twelve words that the executor runs: at distinct free positions, one
-- for each output that is used, it writes the reference model's read ports, and it replaces the
-- register by the reference model's next state. The register is at the cell's offset modulo 2^16.
pub emit_lane-IsSrlCode :
    (macros : List (ℕ × MacroInst)) (pos_of : ℕ → Option ℕ) (offs : List (ℕ × ℕ)) (ml : MacroLane)
    (e : Emit) (entry : ℕ × MacroInst) (val : ℕ → ℕ) (v : PhaseVars) (off : ℕ)
    → get_elem? macros ml.macro_i ≡ some entry
    → entry.1.kind ≡ srlc32e
    → HasSrlSlots entry.1
    → val 0 ≡ 0
    → AreRealised ml.chain_start entry.1 pos_of (read_bit v.state) val 0 7
    → HasRoom 2 e
    → length v.state ≡ 256
    → map_get offs ml.macro_i ≡ some off
    → off % 2 ^ 16 < length v.macro_data
    → at v.macro_data (off % 2 ^ 16) < 2 ^ 32
    → (e' : Emit) × (words outs : List ℕ) × (emit_lane macros pos_of offs ml e
        ≡ ok (record e' { script = e.script ++ words }))
      × IsSrlCode entry.1 val (off % 2 ^ 16) v e e' words outs
emit_lane-IsSrlCode macros pos_of offs ml e entry val v off found kind slots z real has_room words
      at_off here fits =
    let m = entry.1 in
    let (codes, encodes, enc) =
      encode_inputs-EncodesInputs ml.chain_start m pos_of (read_bit v.state) val 0 7 no_codes z
        (omega (arith, slots.ins)) (omega arith) real in
    let (outs, r, allocates, places) =
      place_outputs-PlacesOutputs m 0 2 no_positions e (omega (arith, slots.outs)) (omega arith)
        has_room in
    let same = ap offset_or_zero at_off in
    let step =
      srl_step macros pos_of offs ml e r entry codes outs found kind encodes allocates
        places.same_script in
    (
      r,
      lane_words (lane_desc 1 ml.chain_start off) codes outs,
      outs,
      step
          ∙ ap
              (λ (t : ℕ). ok (record r {
                script = e.script ++ lane_words (lane_desc 1 ml.chain_start t) codes outs;
              }))
              same,
      code-IsSrlCode ml.chain_start m pos_of val v e r off codes outs kind slots words has_room here
          fits enc places,
    )
