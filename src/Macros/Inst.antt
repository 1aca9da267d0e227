-- ===== src/Macros/Inst.antt =====
-- src/macros.rs: a macro instance resolved against the AIG, and the iterators over its pins. An
-- iterator that calls `f` on each pin is the list of the pins, in the order of the calls.
pub mod Pins
use gem_macro_optimization.Base.{
  contains, ℕ, zero, suc, ◌+◌, ◌/◌, Bool, true, false, not, ◌&&◌, ◌||◌, List, [], ◌∷◌, ◌++◌, map,
  ◌==◌, range, get_or, replicate, if◌then◌else◌,
}
use gem_macro_optimization.Macros.Kind.{MacroKind, num_inputs, num_outputs, default_input}
use gem_macro_optimization.Macros.Fanin.{
  comb_fanin_of_output, state_fanin, output_needs_mid_partition_eval,
}

-- `inputs` carry the invert bit in bit 0, `outputs` do not, and an output that is 0 is unused.
pub record MacroInst : Type 0 where
  pub kind : MacroKind
  pub inputs : List ℕ
  pub outputs : List ℕ
  pub clk_en_iv : ℕ

unfoldable pub new : MacroKind → MacroInst
unfolding num_inputs num_outputs default_input
new k = record {
  kind = k;
  inputs = map (default_input k) (range (num_inputs k));
  outputs = replicate (num_outputs k) 0;
  clk_en_iv = 1;
}

-- `if (iv >> 1) != 0 { f(iv >> 1) }`, followed by the calls in `rest`
abbrev pub call_nz : ℕ → List ℕ → List ℕ
call_nz iv rest = if iv / 2 == 0 then rest else iv / 2 ∷ rest

-- The calls for the pins of `slots`. The slots of a fan-in are slots of `inputs`.
abbrev pub calls : List ℕ → List ℕ → List ℕ
calls inputs [] = []
calls inputs (slot ∷ slots) = call_nz (get_or inputs slot 0) (calls inputs slots)

unfoldable pub for_each_comb_fanin : MacroInst → ℕ → List ℕ
unfolding comb_fanin_of_output
for_each_comb_fanin m out_slot = calls m.inputs (comb_fanin_of_output m.kind out_slot)

-- The same calls, less those for a pin that `seen` holds; with the pins seen at the end.
abbrev pub calls_unseen : List ℕ → List ℕ → List ℕ → List ℕ × List ℕ
calls_unseen inputs [] seen = ([], seen)
calls_unseen inputs (slot ∷ slots) seen =
    let pin = get_or inputs slot 0 / 2 in
    let fresh = not (pin == 0) && not (contains seen pin) in
    let (out, seen') = calls_unseen inputs slots (if fresh then pin ∷ seen else seen) in
    (if fresh then pin ∷ out else out, seen')

-- The loop over the output slots `lo`, `lo + 1`, …, `n` of them.
eval_fanin_from : MacroInst → ℕ → ℕ → List ℕ → List ℕ
unfolding output_needs_mid_partition_eval comb_fanin_of_output
eval_fanin_from m lo zero seen = []
eval_fanin_from m lo (suc n) seen =
    let slots =
      if output_needs_mid_partition_eval m.kind lo then comb_fanin_of_output m.kind lo else [] in
    let (out, seen') = calls_unseen m.inputs slots seen in out ++ eval_fanin_from m (lo + 1) n seen'

unfoldable pub for_each_eval_fanin : MacroInst → List ℕ
unfolding eval_fanin_from num_outputs
for_each_eval_fanin m = eval_fanin_from m 0 (num_outputs m.kind) []

unfoldable pub for_each_state_fanin : MacroInst → List ℕ
unfolding state_fanin
for_each_state_fanin m = call_nz m.clk_en_iv (calls m.inputs (state_fanin m.kind))

-- The used outputs among the slots `lo`, `lo + 1`, …, `n` of them, for which `wanted` holds.
abbrev pub used_outputs : (ℕ → Bool) → List ℕ → ℕ → ℕ → List ℕ
used_outputs wanted outputs lo zero = []
used_outputs wanted outputs lo (suc n) =
    let rest = used_outputs wanted outputs (lo + 1) n in
    let p = get_or outputs lo 0 in if wanted lo && not (p == 0) then p ∷ rest else rest

unfoldable pub mid_partition_outputs : MacroInst → List ℕ
unfolding num_outputs output_needs_mid_partition_eval
mid_partition_outputs m =
    used_outputs (output_needs_mid_partition_eval m.kind) m.outputs 0 (num_outputs m.kind)

unfoldable pub cycle_start_outputs : MacroInst → List ℕ
unfolding num_outputs output_needs_mid_partition_eval
cycle_start_outputs m =
    used_outputs (λ s. not (output_needs_mid_partition_eval m.kind s)) m.outputs 0
      (num_outputs m.kind)
