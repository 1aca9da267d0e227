-- ===== src/Tests/Sim.antt =====
-- Tests of the reference simulator of the macros.
use gem_macro_optimization.Base.{none, some, [], ◌∷◌}
use gem_macro_optimization.Sim.Macro.{CellPin, macro_gather_inputs}
use gem_macro_optimization.Sim.Macro.Gather.{IsGathered, macro_gather_inputs-IsGathered}
use gem_macro_optimization.Base.{
  ℕ, zero, suc, ◌+◌, ◌*◌, ◌/◌, ◌%◌, ◌<◌, true, List, [], ◌∷◌, ◌++◌, ◌≡◌, refl, arith, ◌==◌,
  if◌then◌else◌, replicate,
}
use gem_macro_optimization.Macros.Kind.{carry4, srlc32e, mac, num_outputs}
use gem_macro_optimization.Macros.Fanin.{comb_fanin_of_output, state_fanin}
use gem_macro_optimization.Sim.Carry.{at, carry_in, carry_round, carry_loop, eval_carry4}
use gem_macro_optimization.Sim.Carry.Adder.{WiredAsAdder, eval_carry4_adds}
use gem_macro_optimization.Sim.Dsp.{
  bits_from, bits_to_u64, sext, dsp_ad, dsp_m, dsp_alu, eval_dsp_next,
}
use gem_macro_optimization.Sim.Dsp.Fields.{field}
use gem_macro_optimization.Sim.Dsp.Signed.{dsp_spec, eval_dsp_next-signed}
use gem_macro_optimization.Sim.Srl.{eval_srl_next}
use gem_macro_optimization.Sim.Macro.{eval_output, next_state}
use gem_macro_optimization.Sim.Macro.Depends.{eval_output-agree, next_state-agree}

-- CI, CYINIT, DI[3:0], S[3:0] of the sum 11 + 6 with carry in 1.
abbrev eleven_plus_six : List ℕ
eleven_plus_six = 1 ∷ 0 ∷ 1 ∷ 1 ∷ 0 ∷ 1 ∷ 1 ∷ 0 ∷ 1 ∷ 1 ∷ []

eleven_plus_six_runs : eval_carry4 eleven_plus_six ≡ (2, 15)
unfolding eval_carry4 carry_loop carry_round carry_in
eleven_plus_six_runs = refl

wired : (i : ℕ) → i < 4 → WiredAsAdder eleven_plus_six 11 6 i
wired zero h = (refl, refl)
wired (suc zero) h = (refl, refl)
wired (suc (suc zero)) h = (refl, refl)
wired (suc (suc (suc zero))) h = (refl, refl)
wired (suc (suc (suc (suc i)))) h = absurd (omega arith)

eval_carry4_adds_example :
    (eval_carry4 eleven_plus_six).0 + 16 * ((eval_carry4 eleven_plus_six).1 / 8)
    ≡ 11 + 6 + carry_in eleven_plus_six
eval_carry4_adds_example = eval_carry4_adds eleven_plus_six 11 6 (omega arith) (omega arith) wired

-- A = 3, B = -2, C = 0, D = 0 and CEP set.
abbrev minus_six : List ℕ
minus_six = (1 ∷ 1 ∷ replicate 25 0) ++ ((0 ∷ replicate 17 1) ++ (replicate 75 0 ++ (1 ∷ [])))

minus_six_runs : eval_dsp_next minus_six 10 mac true ≡ 4
unfolding eval_dsp_next bits_to_u64 bits_from sext dsp_ad dsp_m dsp_alu
minus_six_runs = refl

eval_dsp_next-signed_example : eval_dsp_next minus_six 10 mac true ≡ (
    if at minus_six 120 % 2 == 0
    then 10
    else dsp_spec mac true
        (field minus_six 0 27)
        (field minus_six 27 18)
        (field minus_six 45 48)
        (field minus_six 93 27)
        10)
eval_dsp_next-signed_example = eval_dsp_next-signed minus_six 10 mac true (omega arith)

-- `O[1]` does not see `S[3]`.
abbrev other_s3 : List ℕ
other_s3 = 1 ∷ 0 ∷ 1 ∷ 1 ∷ 0 ∷ 1 ∷ 1 ∷ 0 ∷ 1 ∷ 0 ∷ []

eval_output-agree_example : eval_output carry4 eleven_plus_six 0 1 ≡ eval_output carry4 other_s3 0 1
unfolding num_outputs comb_fanin_of_output
eval_output-agree_example =
    eval_output-agree carry4 eleven_plus_six other_s3 0 1 (omega arith)
      (refl, (refl, (refl, (refl, (refl, tt)))))

-- The next state of an SRLC32E does not see its address.
next_state-agree_example :
    next_state srlc32e (1 ∷ 1 ∷ replicate 5 0) 6 ≡ next_state srlc32e (1 ∷ 1 ∷ replicate 5 1) 6
unfolding state_fanin
next_state-agree_example =
    next_state-agree srlc32e (1 ∷ 1 ∷ replicate 5 0) (1 ∷ 1 ∷ replicate 5 1) 6 (refl, (refl, tt))

shift_runs : eval_srl_next (1 ∷ 1 ∷ replicate 5 0) 0x8000_0003 ≡ 7
unfolding eval_srl_next
shift_runs = refl

-- `CE` is left open; `D` is given twice.
abbrev srl_pins : List CellPin
srl_pins =
    record { name = "D"; bit = none; value = 0 }
    ∷ record { name = "A"; bit = some 1; value = 1 }
    ∷ record { name = "CLK"; bit = none; value = 1 }
    ∷ record { name = "D"; bit = none; value = 3 }
    ∷ []

gather_runs : macro_gather_inputs srlc32e srl_pins ≡ (1 ∷ 1 ∷ 0 ∷ 1 ∷ 0 ∷ 0 ∷ 0 ∷ [])
unfolding macro_gather_inputs
gather_runs = refl

macro_gather_inputs-IsGathered_example :
    IsGathered srlc32e srl_pins (macro_gather_inputs srlc32e srl_pins)
macro_gather_inputs-IsGathered_example = macro_gather_inputs-IsGathered srlc32e srl_pins
