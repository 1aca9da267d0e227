-- ===== src/Tests/Script.antt =====
-- Tests of the executor of the script.
use gem_macro_optimization.Base.{
  ℕ, zero, suc, ◌+◌, ◌<◌, false, List, [], ◌∷◌, ◌≡◌, inr, refl, arith,
}
use gem_macro_optimization.Script.{at, PhaseVars, carry_lane}
use gem_macro_optimization.Script.Rounds.{AreOutputs}
use gem_macro_optimization.Script.Carry.{IsCarryLane, lane_inputs, carry_lane-IsCarryLane}

-- The outputs go to the bits 1 to 8 of word 0.
abbrev places : List ℕ
places = 1 ∷ 2 ∷ 3 ∷ 4 ∷ 5 ∷ 6 ∷ 7 ∷ 8 ∷ []

places-eq : (s : ℕ) → s < 8 → at places s ≡ s + 1
places-eq zero h = refl
places-eq (suc zero) h = refl
places-eq (suc (suc zero)) h = refl
places-eq (suc (suc (suc zero))) h = refl
places-eq (suc (suc (suc (suc zero)))) h = refl
places-eq (suc (suc (suc (suc (suc zero))))) h = refl
places-eq (suc (suc (suc (suc (suc (suc zero)))))) h = refl
places-eq (suc (suc (suc (suc (suc (suc (suc zero))))))) h = refl
places-eq (suc (suc (suc (suc (suc (suc (suc (suc s)))))))) h = absurd (omega arith)

abbrev vars : PhaseVars
vars = record { state = 0 ∷ []; macro_data = []; prev_co3 = 1 }

places-AreOutputs : AreOutputs places 1
places-AreOutputs = record {
  placed = λ s h. inr (omega (arith, places-eq s h));
  apart = λ s t h k some_pos same. omega (arith, places-eq s h, places-eq t k);
}

abbrev link : List ℕ
link = 0 ∷ 0 ∷ 1 ∷ 1 ∷ 0 ∷ 1 ∷ 1 ∷ 0 ∷ 1 ∷ 1 ∷ []

carry_lane-IsCarryLane_example :
    IsCarryLane (lane_inputs false link 1) places vars (carry_lane false link places vars)
carry_lane-IsCarryLane_example =
    carry_lane-IsCarryLane false link places vars (omega arith) places-AreOutputs
