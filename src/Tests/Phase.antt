-- ===== src/Tests/Phase.antt =====
-- Tests of the lanes of a macro phase, emitted and run.
use gem_macro_optimization.Base.{
  length-replicate, ℕ, zero, suc, ◌≤◌, true, false, List, [], ◌∷◌, ok, ◌≡◌, inl, inr, refl,
  replicate, arith,
}
use gem_macro_optimization.Base.Maps.{map_get}
use gem_macro_optimization.Macros.Kind.{carry4, srlc32e}
use gem_macro_optimization.Macros.Inst.{MacroInst}
use gem_macro_optimization.Macros.Encode.Codes.{IsRealised}
use gem_macro_optimization.Script.{read_bit, PhaseVars}
use gem_macro_optimization.Pe.{MacroLane}
use gem_macro_optimization.Flatten.{num_positions}
use gem_macro_optimization.Flatten.Room.{is_taken, count_free-all}
use gem_macro_optimization.Flatten.Phase.{Emit, emit_lane}
use gem_macro_optimization.Flatten.Phase.Outputs.{HasRoom}
use gem_macro_optimization.Flatten.Phase.Inputs.{AreRealised}
use gem_macro_optimization.Flatten.Phase.CarryLane.{IsCarryCode, emit_lane-IsCarryCode}
use gem_macro_optimization.Flatten.Phase.SrlLane.{IsSrlCode, emit_lane-IsSrlCode}

-- Pin 1 has the bit 1 at position 5; the constant 0 is pin 0.
abbrev pin_value : ℕ → ℕ
pin_value zero = 0
pin_value (suc pin) = 1

abbrev positions : List (ℕ × ℕ)
positions = (1, 5) ∷ []

abbrev carry_cell : MacroInst
carry_cell = record {
  kind = carry4;
  inputs = 2 ∷ 0 ∷ 3 ∷ 3 ∷ 3 ∷ 3 ∷ 2 ∷ 2 ∷ 1 ∷ 3 ∷ [];
  outputs = 11 ∷ 12 ∷ 0 ∷ 14 ∷ 15 ∷ 16 ∷ 17 ∷ 18 ∷ [];
  clk_en_iv = 0;
}

abbrev srl_cell : MacroInst
srl_cell = record {
  kind = srlc32e;
  inputs = 3 ∷ 1 ∷ 2 ∷ 0 ∷ 2 ∷ 3 ∷ 0 ∷ [];
  outputs = 21 ∷ 22 ∷ [];
  clk_en_iv = 0;
}

abbrev cells : List (ℕ × MacroInst)
cells = (7, carry_cell) ∷ (8, srl_cell) ∷ []

abbrev first_vars : PhaseVars
first_vars = record { state = 32 ∷ replicate 255 0; macro_data = 0 ∷ 0xdeadbeef ∷ []; prev_co3 = 0 }

abbrev first_emit : Emit
first_emit = record {
  script = 4 ∷ 2 ∷ [];
  occupancy = replicate num_positions false;
  cursor = 4096;
  newly = [];
}

is_taken-replicate : (n q : ℕ) → is_taken (replicate n false) q ≡ false
is_taken-replicate zero q = refl
is_taken-replicate (suc n) zero = refl
is_taken-replicate (suc n) (suc q) = is_taken-replicate n q

first_emit-HasRoom : (n : ℕ) → n ≤ 4096 → HasRoom n first_emit
first_emit-HasRoom n h = record {
  sized = length-replicate num_positions false;
  cursor_le = omega arith;
  left = omega (
    arith,
    count_free-all (replicate num_positions false) 4096 4096 (is_taken-replicate num_positions),
  );
}

bit_of_pin : read_bit first_vars.state 5 ≡ 1
unfolding read_bit
bit_of_pin = refl

one-IsRealised : IsRealised (read_bit first_vars.state) (map_get positions) pin_value 1
unfolding map_get
one-IsRealised = inr (5, refl, omega arith, bit_of_pin)

carry_cell-AreRealised :
    AreRealised true carry_cell (map_get positions) (read_bit first_vars.state) pin_value 0 10
carry_cell-AreRealised zero ge lt gathered = one-IsRealised
carry_cell-AreRealised (suc zero) ge lt gathered = inl refl
carry_cell-AreRealised (suc (suc zero)) ge lt gathered = one-IsRealised
carry_cell-AreRealised (suc (suc (suc zero))) ge lt gathered = one-IsRealised
carry_cell-AreRealised (suc (suc (suc (suc zero)))) ge lt gathered = one-IsRealised
carry_cell-AreRealised (suc (suc (suc (suc (suc zero))))) ge lt gathered = one-IsRealised
carry_cell-AreRealised (suc (suc (suc (suc (suc (suc zero)))))) ge lt gathered = one-IsRealised
carry_cell-AreRealised (suc (suc (suc (suc (suc (suc (suc zero))))))) ge lt gathered =
    one-IsRealised
carry_cell-AreRealised (suc (suc (suc (suc (suc (suc (suc (suc zero)))))))) ge lt gathered =
    inl refl
carry_cell-AreRealised (suc (suc (suc (suc (suc (suc (suc (suc (suc zero))))))))) ge lt gathered =
    one-IsRealised
carry_cell-AreRealised (suc (suc (suc (suc (suc (suc (suc (suc (suc (suc s)))))))))) ge lt
      gathered =
    absurd (omega arith)

srl_cell-AreRealised :
    AreRealised true srl_cell (map_get positions) (read_bit first_vars.state) pin_value 0 7
srl_cell-AreRealised zero ge lt gathered = one-IsRealised
srl_cell-AreRealised (suc zero) ge lt gathered = inl refl
srl_cell-AreRealised (suc (suc zero)) ge lt gathered = one-IsRealised
srl_cell-AreRealised (suc (suc (suc zero))) ge lt gathered = inl refl
srl_cell-AreRealised (suc (suc (suc (suc zero)))) ge lt gathered = one-IsRealised
srl_cell-AreRealised (suc (suc (suc (suc (suc zero))))) ge lt gathered = one-IsRealised
srl_cell-AreRealised (suc (suc (suc (suc (suc (suc zero)))))) ge lt gathered = inl refl
srl_cell-AreRealised (suc (suc (suc (suc (suc (suc (suc s))))))) ge lt gathered =
    absurd (omega arith)

abbrev carry_ml : MacroLane
carry_ml = record { macro_i = 0; chain_start = true }

abbrev srl_ml : MacroLane
srl_ml = record { macro_i = 1; chain_start = true }

emit_lane-IsCarryCode_example :
    (e' : Emit) × (words outs : List ℕ) × (emit_lane cells
        (map_get positions)
        []
        carry_ml
        first_emit
      ≡ ok (record e' { script = 4 ∷ 2 ∷ words }))
    × IsCarryCode true carry_cell pin_value first_vars first_emit e' words outs
emit_lane-IsCarryCode_example =
    emit_lane-IsCarryCode cells (map_get positions) [] carry_ml first_emit (7, carry_cell) pin_value
      first_vars refl refl (record { ins = refl; outs = refl }) refl carry_cell-AreRealised
      (first_emit-HasRoom 8 (omega arith)) refl

emit_lane-IsSrlCode_example :
    (e' : Emit) × (words outs : List ℕ) × (emit_lane cells
        (map_get positions)
        ((1, 1) ∷ [])
        srl_ml
        first_emit
      ≡ ok (record e' { script = 4 ∷ 2 ∷ words }))
    × IsSrlCode srl_cell pin_value 1 first_vars first_emit e' words outs
emit_lane-IsSrlCode_example =
    emit_lane-IsSrlCode cells (map_get positions) ((1, 1) ∷ []) srl_ml first_emit (8, srl_cell)
      pin_value first_vars 1 refl refl (record { ins = refl; outs = refl }) refl
      srl_cell-AreRealised (first_emit-HasRoom 2 (omega arith)) refl (unfold map_get in refl)
      (omega arith) (omega arith)
