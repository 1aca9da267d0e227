-- ===== src/Flatten/Phase/Lane.antt =====
-- src/flatten.rs and src/bin/flatten_test.rs: a lane, emitted and run.
use mathlib.Core.List.{append_assoc}
use gem_macro_optimization.Base.{
  ℕ, suc, ◌+◌, ◌*◌, ◌/◌, ◌%◌, ◌^◌, ◌<◌, Bool, true, false, List, [], ◌∷◌, ◌++◌, Option, some, ok,
  panic, Outcome, length, length-append, get_elem?, ◌==◌, replicate, min, bit_and, if◌then◌else◌,
  ◌≡◌, refl, sym, ap, ◌∙◌, arith,
}
use gem_macro_optimization.Base.Bits.{bit_and_mask}
use gem_macro_optimization.Base.Maps.{map_get}
use gem_macro_optimization.Macros.Kind.{num_inputs, num_outputs}
use gem_macro_optimization.Macros.Inst.{MacroInst}
use gem_macro_optimization.Macros.Encode.{
  macro_lane_in_slots, macro_lane_out_slots, macro_pos_none, macro_perm_const_bit, script_kind_code,
  macro_desc_chain_start_bit, macro_desc_valid_bit, macro_desc_kind_mask, macro_kind_carry4,
  macro_kind_srlc32e, macro_desc_state_shift,
}
use gem_macro_optimization.Script.{
  at, halves, decode_all, PhaseVars, carry_lane, srl_lane, run_lane,
}
use gem_macro_optimization.Pe.{MacroLane}
use gem_macro_optimization.Flatten.Phase.{
  Emit, encode_inputs, place_outputs, pack, lane_desc, offset_or_zero, emit_lane,
}
use gem_macro_optimization.Flatten.Phase.Words.{
  AreCodes, at-append, halves-append, halves-cons, halves-pack, length-pack, lane_desc-sum,
}

-- The words of a lane.
abbrev pub lane_words : ℕ → List ℕ → List ℕ → List ℕ
lane_words desc codes outs = desc ∷ (pack codes ++ (pack outs ++ 0 ∷ 0 ∷ []))

pub lane_words-length :
    (desc : ℕ) (codes outs : List ℕ)
    → length codes ≡ 10
    → length outs ≡ 8
    → length (lane_words desc codes outs) ≡ 12
lane_words-length desc codes outs ten eight = omega (
  arith,
  length-append (pack codes) (pack outs ++ 0 ∷ 0 ∷ []),
  length-append (pack outs) (0 ∷ 0 ∷ []),
  length-pack codes 5 ten,
  length-pack outs 4 eight,
)

pub emit_step :
    (macros : List (ℕ × MacroInst)) (pos_of : ℕ → Option ℕ) (offs : List (ℕ × ℕ)) (ml : MacroLane)
    (e r : Emit) (entry : ℕ × MacroInst) (kind_code num_in num_out : ℕ) (codes outs : List ℕ)
    → get_elem? macros ml.macro_i ≡ some entry
    → script_kind_code entry.1.kind ≡ ok kind_code
    → min (num_inputs entry.1.kind) macro_lane_in_slots ≡ num_in
    → min (num_outputs entry.1.kind) macro_lane_out_slots ≡ num_out
    → encode_inputs ml.chain_start entry.1 pos_of 0 num_in
        (replicate macro_lane_in_slots (2 ^ macro_perm_const_bit))
      ≡ ok codes
    → place_outputs entry.1 0 num_out (replicate macro_lane_out_slots macro_pos_none) e
      ≡ ok (outs, r)
    → r.script ≡ e.script
    → emit_lane macros pos_of offs ml e
      ≡ ok (record r {
        script =
            e.script
            ++ lane_words
                (lane_desc kind_code ml.chain_start (offset_or_zero (map_get offs ml.macro_i)))
                codes
                outs;
      })
unfolding emit_lane
emit_step macros pos_of offs ml e r entry kind_code num_in num_out codes outs found coded ins
      outs_in encoded placed same =
    rw (← same) (ground (arith, found, coded, ins, outs_in, encoded, placed))

-- The words of a lane inside a script, as the executor reads them.
pub record ReadsLane (script : List ℕ) (base desc : ℕ) (codes outs : List ℕ) : Type 0 where
  pub desc_read : at script base ≡ desc
  pub codes_read : halves script (base + 1) 5 ≡ codes
  pub outs_read : halves script (base + 1 + 5) 4 ≡ outs

pub lane_words-read :
    (pre post : List ℕ) (desc : ℕ) (codes outs : List ℕ)
    → length codes ≡ 10
    → length outs ≡ 8
    → AreCodes codes
    → AreCodes outs
    → ReadsLane (pre ++ (lane_words desc codes outs ++ post)) (length pre) desc codes outs
lane_words-read pre post desc codes outs ten eight fit fit' =
    let words = pack codes ++ (pack outs ++ 0 ∷ 0 ∷ []) in
    let five = length-pack codes 5 ten in
    let four = length-pack outs 4 eight in
    let inner : words ++ post ≡ pack codes ++ (pack outs ++ (0 ∷ 0 ∷ [] ++ post)) =
      append_assoc (pack codes) (pack outs ++ 0 ∷ 0 ∷ []) post
      ∙ ap (λ (t : List ℕ). pack codes ++ t) (append_assoc (pack outs) (0 ∷ 0 ∷ []) post) in
    let rest = pack codes ++ (pack outs ++ (0 ∷ 0 ∷ [] ++ post)) in
    rw inner (record {
      desc_read =
          let zero_on : length pre ≡ length pre + 0 = omega arith in
          ap (λ (t : ℕ). at (pre ++ desc ∷ rest) t) zero_on ∙ at-append pre (desc ∷ rest) 0;
      codes_read =
          halves-append pre (desc ∷ rest) 1 5
          ∙ halves-cons desc rest 0 5
          ∙ halves-pack codes (pack outs ++ (0 ∷ 0 ∷ [] ++ post)) 5 ten fit;
      outs_read =
          let six : length pre + 1 + 5 ≡ length pre + suc (5 + 0) = omega arith in
          ap (λ (t : ℕ). halves (pre ++ desc ∷ rest) t 4) six
          ∙ halves-append pre (desc ∷ rest) (suc (5 + 0)) 4
          ∙ halves-cons desc rest (5 + 0) 4
          ∙ ap (λ (t : ℕ). halves rest (t + 0) 4) (sym five)
          ∙ halves-append (pack codes) (pack outs ++ (0 ∷ 0 ∷ [] ++ post)) 0 4
          ∙ halves-pack outs (0 ∷ 0 ∷ [] ++ post) 4 eight fit';
    })

-- The fields of a descriptor.
record HasFields (desc kind start : ℕ) (off : ℕ) : Type 0 where
  kind_field : bit_and desc 3 ≡ kind
  start_field : desc / 2 ^ 2 % 2 ≡ start
  valid_field : desc / 2 ^ 3 % 2 ≡ 1
  off_field : desc / 2 ^ 16 ≡ off % 2 ^ 16

fields :
    (kind off start : ℕ)
    → kind < 4
    → start < 2
    → HasFields (kind + start * 4 + 8 + off % 2 ^ 16 * 2 ^ 16) kind start off
fields kind off start h h' = record {
  kind_field =
      let desc = kind + start * 4 + 8 + off % 2 ^ 16 * 2 ^ 16 in omega (arith, bit_and_mask 2 desc);
  start_field = omega arith;
  valid_field = omega arith;
  off_field = omega arith;
}

-- What `run_lane` does with the words that it has read.
abbrev exec : ℕ → List ℕ → List ℕ → PhaseVars → Outcome PhaseVars
exec desc codes outs v =
    let chain_start = if desc / 2 ^ macro_desc_chain_start_bit % 2 == 0 then false else true in
    let inp = decode_all v.state codes in
    if desc / 2 ^ macro_desc_valid_bit % 2 == 0
    then ok (record v { prev_co3 = 0 })
    else if bit_and desc macro_desc_kind_mask == macro_kind_carry4
    then ok (carry_lane chain_start inp outs v)
    else if bit_and desc macro_desc_kind_mask == macro_kind_srlc32e
    then ok (srl_lane (desc / 2 ^ macro_desc_state_shift) inp outs v)
    else panic

run_lane-exec :
    (script : List ℕ) (base desc : ℕ) (codes outs : List ℕ) (v : PhaseVars)
    → ReadsLane script base desc codes outs
    → run_lane script base v ≡ exec desc codes outs v
unfolding run_lane
run_lane-exec script base desc codes outs v r =
    ap (λ (d : ℕ). exec d (halves script (base + 1) 5) (halves script (base + 1 + 5) 4) v)
      r.desc_read
    ∙ ap (λ (c : List ℕ). exec desc c (halves script (base + 1 + 5) 4) v) r.codes_read
    ∙ ap (λ (o : List ℕ). exec desc codes o v) r.outs_read

-- The chain bit of a descriptor.
abbrev start_bit : Bool → ℕ
start_bit true = 1
start_bit false = 0

lane_desc-fields :
    (kind off : ℕ) (chain_start : Bool)
    → kind < 4
    → HasFields (lane_desc kind chain_start off) kind (start_bit chain_start) off
lane_desc-fields kind off true h =
    rw (lane_desc-sum kind off true h) (fields kind off 1 h (omega arith))
lane_desc-fields kind off false h =
    rw (lane_desc-sum kind off false h) (fields kind off 0 h (omega arith))

start_bit-same : (b : Bool) → (if start_bit b == 0 then false else true) ≡ b
start_bit-same true = refl
start_bit-same false = refl

pub run_carry :
    (script : List ℕ) (base off : ℕ) (codes outs : List ℕ) (chain_start : Bool) (v : PhaseVars)
    → ReadsLane script base (lane_desc 0 chain_start off) codes outs
    → run_lane script base v ≡ ok (carry_lane chain_start (decode_all v.state codes) outs v)
run_carry script base off codes outs chain_start v r =
    let f = lane_desc-fields 0 off chain_start (omega arith) in
    rw
      (
        run_lane-exec script base (lane_desc 0 chain_start off) codes outs v r,
        f.valid_field,
        f.kind_field,
        f.start_field,
        start_bit-same chain_start,
      )
      refl

pub run_srl :
    (script : List ℕ) (base off : ℕ) (codes outs : List ℕ) (chain_start : Bool) (v : PhaseVars)
    → ReadsLane script base (lane_desc 1 chain_start off) codes outs
    → run_lane script base v ≡ ok (srl_lane (off % 2 ^ 16) (decode_all v.state codes) outs v)
run_srl script base off codes outs chain_start v r =
    let f = lane_desc-fields 1 off chain_start (omega arith) in
    rw
      (
        run_lane-exec script base (lane_desc 1 chain_start off) codes outs v r,
        f.valid_field,
        f.kind_field,
        f.off_field,
      )
      refl
