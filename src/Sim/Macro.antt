-- ===== src/Sim/Macro.antt =====
-- src/bin/naive_sim.rs: how `main` evaluates a macro cell. The latch phase replaces the state and
-- drives the outputs that are pure state reads; the propagate phase drives the other outputs.
-- `unreachable!()` is a panic.
pub mod Depends
pub mod Gather
use gem_macro_optimization.Base.{
  ℕ, ◌-◌, ◌/◌, ◌%◌, ◌^◌, List, [], ◌∷◌, map, range, set, Option, none, some, String, Outcome, ok,
  panic, ltb, ◌==◌, if◌then◌else◌,
}
use gem_macro_optimization.Macros.Kind.{
  MacroKind, carry4, dsp48e2, srlc32e, c4_out_o, c4_out_co, dsp_out_p, srl_out_q, srl_out_q31,
  num_inputs, default_input,
}
use gem_macro_optimization.Macros.Slots.{input_slot}
use gem_macro_optimization.Sim.Carry.{eval_carry4}
use gem_macro_optimization.Sim.Dsp.{eval_dsp_next}
use gem_macro_optimization.Sim.Srl.{eval_srl_next, srl_q, srl_q31}

-- A pin of a cell: its name, its bit if it is a bus, and the value that `circ_state` holds for it.
pub record CellPin : Type 0 where
  pub name : String
  pub bit : Option ℕ
  pub value : ℕ

gather_pins : MacroKind → List CellPin → List ℕ → List ℕ
unfolding input_slot
gather_pins kind [] v = v
gather_pins kind (pin ∷ pins) v =
    gather_pins kind pins (elim (input_slot kind pin.name pin.bit) [
      | none ↦ v
      | some slot ↦ set v slot (pin.value % 2)
    ])

-- The input slots of a macro, from the pins of its cell.
unfoldable pub macro_gather_inputs : MacroKind → List CellPin → List ℕ
unfolding gather_pins num_inputs default_input
macro_gather_inputs kind pins =
    gather_pins kind pins (map (λ s. default_input kind s % 2) (range (num_inputs kind)))

-- The value of an output pin in the propagate phase.
unfoldable pub eval_output : MacroKind → List ℕ → ℕ → ℕ → Outcome ℕ
eval_output carry4 inp state slot =
    let (o, co) = eval_carry4 inp in
    ok (
      if ltb slot c4_out_co then o / 2 ^ (slot - c4_out_o) % 2 else co / 2 ^ (slot - c4_out_co) % 2)
eval_output srlc32e inp state slot =
    let sr = state % 2 ^ 32 in
    if slot == srl_out_q
    then ok (srl_q inp sr)
    else if slot == srl_out_q31
    then ok (srl_q31 sr)
    else panic
eval_output (dsp48e2 _ _) inp state slot = panic

-- The next state in the latch phase; the state is kept as a `u64`.
unfoldable pub next_state : MacroKind → List ℕ → ℕ → Outcome ℕ
next_state carry4 inp cur = panic
next_state (dsp48e2 state pre) inp cur = ok (eval_dsp_next inp cur state pre)
next_state srlc32e inp cur = ok (eval_srl_next inp (cur % 2 ^ 32))

-- The value that the latch phase gives to an output that is a read of the new state.
unfoldable pub state_output : MacroKind → ℕ → ℕ → Outcome ℕ
state_output carry4 next slot = panic
state_output (dsp48e2 _ _) next slot = ok (next / 2 ^ (slot - dsp_out_p) % 2)
state_output srlc32e next slot = ok (next / 2 ^ 31 % 2)
