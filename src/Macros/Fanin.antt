-- ===== src/Macros/Fanin.antt =====
-- src/macros.rs: which inputs an output or a next state depends on, and what follows from it for
-- the schedule of a macro.
pub mod Bounds
use gem_macro_optimization.Base.{
  ℕ, zero, suc, ◌+◌, ◌-◌, Bool, true, false, not, ◌||◌, List, [], ◌∷◌, ◌++◌, ltb, ◌==◌, range,
  if◌then◌else◌,
}
use gem_macro_optimization.Macros.Kind.{
  MacroKind, carry4, dsp48e2, srlc32e, c4_in_ci, c4_in_cyinit, c4_in_di, c4_in_s, c4_out_o,
  c4_out_co, dsp_num_inputs, srl_in_d, srl_in_ce, srl_in_a, srl_out_q, num_outputs,
}

-- `for j in j..j + n { deps.push(C4_IN_S + j); deps.push(C4_IN_DI + j); }`
abbrev pub carry_links : ℕ → ℕ → List ℕ
carry_links j zero = []
carry_links j (suc n) = (c4_in_s + j) ∷ (c4_in_di + j) ∷ carry_links (j + 1) n

-- The input slots that an output depends on within the same cycle.
unfoldable pub comb_fanin_of_output : MacroKind → ℕ → List ℕ
comb_fanin_of_output carry4 out_slot =
    if ltb out_slot c4_out_co
    then c4_in_ci
      ∷ c4_in_cyinit
      ∷ (carry_links 0 (out_slot - c4_out_o) ++ (c4_in_s + (out_slot - c4_out_o)) ∷ [])
    else c4_in_ci ∷ c4_in_cyinit ∷ carry_links 0 (out_slot - c4_out_co + 1)
comb_fanin_of_output (dsp48e2 _ _) out_slot = []
comb_fanin_of_output srlc32e out_slot =
    if out_slot == srl_out_q
    then (srl_in_a + 0) ∷ (srl_in_a + 1) ∷ (srl_in_a + 2) ∷ (srl_in_a + 3) ∷ (srl_in_a + 4) ∷ []
    else []

-- The input slots that the clocked next state depends on.
unfoldable pub state_fanin : MacroKind → List ℕ
state_fanin carry4 = []
state_fanin (dsp48e2 _ _) = range dsp_num_inputs
state_fanin srlc32e = srl_in_d ∷ srl_in_ce ∷ []

abbrev pub is_empty : List ℕ → Bool
is_empty [] = true
is_empty (_ ∷ _) = false

unfoldable pub output_needs_mid_partition_eval : MacroKind → ℕ → Bool
unfolding comb_fanin_of_output
output_needs_mid_partition_eval srlc32e out_slot = true
output_needs_mid_partition_eval carry4 out_slot =
    not (is_empty (comb_fanin_of_output carry4 out_slot))
output_needs_mid_partition_eval (dsp48e2 s p) out_slot =
    not (is_empty (comb_fanin_of_output (dsp48e2 s p) out_slot))

-- `(0..n).any(test)`, from `lo` on.
abbrev pub any_from : (ℕ → Bool) → ℕ → ℕ → Bool
any_from test lo zero = false
any_from test lo (suc n) = test lo || any_from test (lo + 1) n

unfoldable pub needs_mid_partition_eval : MacroKind → Bool
unfolding output_needs_mid_partition_eval num_outputs
needs_mid_partition_eval kind = any_from (output_needs_mid_partition_eval kind) 0 (num_outputs kind)
