-- ===== src/Script/Carry.antt =====
-- src/bin/flatten_test.rs against src/bin/naive_sim.rs: a CARRY4 lane and `eval_carry4`.
use mathlib.Core.Path.{subst}
use gem_macro_optimization.Base.{
  ℕ, zero, suc, ◌+◌, ◌-◌, ◌%◌, ◌<◌, Bool, true, false, List, bit_or, if◌then◌else◌, length, set,
  ◌≡◌, ◌≢◌, inl, inr, refl, ap, sym, ◌∙◌, arith, ltb, Bool-cases, get_or-set_self, get_or-set_ne,
  ok,
}
use gem_macro_optimization.Macros.Kind.{c4_in_ci, c4_in_cyinit, c4_in_di, c4_in_s, carry4}
use gem_macro_optimization.Macros.Encode.{macro_pos_none}
use gem_macro_optimization.Sim.Carry.{carry_in}
use gem_macro_optimization.Sim.Carry.Adder.{carry_at, sum_at}
use gem_macro_optimization.Script.{at, read_bit, carry_lane_loop, PhaseVars, carry_lane}
use gem_macro_optimization.Sim.Macro.{eval_output}
use gem_macro_optimization.Sim.Macro.Depends.{carry_output, eval_output-carry}
use gem_macro_optimization.Script.Rounds.{
  AreOutputs, after_rounds, loop-rounds, rounds-other, rounds-o, rounds-co,
}

loop_congr :
    (outs inp : List ℕ) (p i n : ℕ) (st : List ℕ) (c : ℕ)
    → carry_lane_loop outs (set inp 0 p) i n st c ≡ carry_lane_loop outs inp i n st c
unfolding carry_lane_loop
loop_congr outs inp p i zero st c = refl
loop_congr outs inp p i (suc n) st c =
    let s_same = get_or-set_ne inp 0 (c4_in_s + i) p 0 (omega arith) in
    let d_same = get_or-set_ne inp 0 (c4_in_di + i) p 0 (omega arith) in
    rw (s_same, d_same) (loop_congr outs inp p (i + 1) n _ _)

-- The inputs that a lane evaluates: a link of a chain has the previous lane's carry as its `CI`.
abbrev pub lane_inputs : Bool → List ℕ → ℕ → List ℕ
lane_inputs true inp prev = inp
lane_inputs false inp prev = set inp 0 prev

carry_lane-rounds :
    (chain_start : Bool) (inp outs : List ℕ) (v : PhaseVars)
    → 1 < length inp
    → AreOutputs outs (length v.state)
    → let x = lane_inputs chain_start inp v.prev_co3 in
      carry_lane_loop outs inp 0 4 v.state
        (bit_or (if chain_start then at inp c4_in_ci else v.prev_co3) (at inp c4_in_cyinit) % 2)
      ≡ carry_lane_loop outs x 0 4 v.state (carry_in x)
unfolding carry_in
carry_lane-rounds true inp outs v h ao = refl
carry_lane-rounds false inp outs v h ao =
    let ci = get_or-set_self inp 0 v.prev_co3 0 (omega arith) in
    let cy = get_or-set_ne inp 0 1 v.prev_co3 0 (omega arith) in
    rw (ci, cy) (sym (loop_congr outs inp v.prev_co3 0 4 v.state _))

-- What a CARRY4 lane leaves: the outputs of the reference model at their positions, all else as it
-- was, and the carry out for the next lane.
pub record IsCarryLane (x outs : List ℕ) (v v' : PhaseVars) : Type 0 where
  pub outputs :
      (s : ℕ)
      → s < 8
      → at outs s ≢ macro_pos_none
      → ok (read_bit v'.state (at outs s)) ≡ eval_output carry4 x 0 s
  pub others :
      (q : ℕ) → ((s : ℕ) → s < 8 → q ≢ at outs s) → read_bit v'.state q ≡ read_bit v.state q
  pub carry_out : ok v'.prev_co3 ≡ eval_output carry4 x 0 7
  pub data_kept : v'.macro_data ≡ v.macro_data

module _ (outs x : List ℕ) (v : PhaseVars) (ao : AreOutputs outs (length v.state)) where
  abbrev left_state : List ℕ
  left_state = after_rounds outs x (length v.state) ao 0 4 v.state

  rounds-outputs :
      (s : ℕ)
      → s < 8
      → at outs s ≢ macro_pos_none
      → read_bit left_state (at outs s) ≡ carry_output x s
  rounds-outputs s h some_pos = elim (Bool-cases (ltb s 4)) [
    | inl low ↦
        let e : 0 + (s - 0) ≡ s = omega arith in
        rw low (
          subst
            (λ (t : ℕ).
              at outs t ≢ macro_pos_none → read_bit left_state (at outs t) ≡ sum_at x (s - 0))
            e
            (rounds-o outs x (length v.state) ao 0 4 (s - 0) v.state (omega arith) refl
              (omega arith) (ground arith))
            some_pos)
    | inr high ↦
        let e : 4 + (s - 4) ≡ s = ground arith in
        rw high (
          subst
            (λ (t : ℕ).
              at outs t ≢ macro_pos_none
              → read_bit left_state (at outs t) ≡ carry_at x (suc (s - 4)))
            e
            (rounds-co outs x (length v.state) ao 0 4 (s - 4) v.state (omega arith) refl
              (omega arith) (ground arith))
            some_pos)
  ]

  left-IsCarryLane :
      (v' : PhaseVars)
      → v'.state ≡ left_state
      → v'.prev_co3 ≡ carry_at x 4
      → v'.macro_data ≡ v.macro_data
      → IsCarryLane x outs v v'
  left-IsCarryLane v' e f g = record {
    outputs = λ s h some_pos.
        rw e (ap ok (rounds-outputs s h some_pos)) ∙ sym (eval_output-carry x 0 s h);
    others = λ q far. rw e (
        rounds-other outs x (length v.state) ao 0 4 v.state q (omega arith) refl
          (λ j a b. (far (0 + j) (omega arith), far (4 + j) (omega arith))));
    carry_out = ap ok f ∙ sym (eval_output-carry x 0 7 (omega arith));
    data_kept = g;
  }

-- A CARRY4 lane of the script, whose outputs have distinct positions in the shared state, writes at
-- each of them the bit that the reference model `eval_carry4` gives that output, changes no other
-- bit, and hands its carry out to the next lane; a lane that continues a chain takes the previous
-- lane's carry in place of its `CI`.
pub carry_lane-IsCarryLane :
    (chain_start : Bool) (inp outs : List ℕ) (v : PhaseVars)
    → 1 < length inp
    → AreOutputs outs (length v.state)
    → IsCarryLane
        (lane_inputs chain_start inp v.prev_co3)
        outs
        v
        (carry_lane chain_start inp outs v)
unfolding carry_lane
carry_lane-IsCarryLane chain_start inp outs v h ao =
    let x = lane_inputs chain_start inp v.prev_co3 in
    let run =
      carry_lane-rounds chain_start inp outs v h ao
      ∙ loop-rounds outs x (length v.state) ao 0 4 v.state in
    left-IsCarryLane outs x v ao (carry_lane chain_start inp outs v)
      (ap (λ (r : List ℕ × ℕ). r.0) run) (ap (λ (r : List ℕ × ℕ). r.1) run) refl
