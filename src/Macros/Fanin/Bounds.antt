-- ===== src/Macros/Fanin/Bounds.antt =====
-- src/macros.rs: the range of the fan-in lists, and the attributes that decide where a macro is
-- evaluated.
use gem_macro_optimization.Base.{
  AllBelow, AllBelow-append, AllBelow-range, ℕ, zero, suc, ◌+◌, ◌<◌, not, [], ◌∷◌, ◌++◌, ◌≡◌, refl,
  arith, ◌-◌, inl, inr, Bool-cases, ltb,
}
use gem_macro_optimization.Macros.Kind.{
  MacroKind, carry4, dsp48e2, srlc32e, num_inputs, num_outputs, is_endpoint, c4_in_s, c4_out_co,
}
use gem_macro_optimization.Macros.Fanin.{
  carry_links, comb_fanin_of_output, state_fanin, output_needs_mid_partition_eval,
  needs_mid_partition_eval,
}

AllBelow-carry_links : (j n : ℕ) → j + n < 5 → AllBelow 10 (carry_links j n)
AllBelow-carry_links j zero h = tt
AllBelow-carry_links j (suc n) h =
    (omega arith, (omega arith, AllBelow-carry_links (j + 1) n (omega arith)))

fanin-AllBelow_o : (s : ℕ) → s < 4 → AllBelow 10 (carry_links 0 s ++ (c4_in_s + s) ∷ [])
fanin-AllBelow_o s h =
    AllBelow-append 10 (carry_links 0 s) _ (AllBelow-carry_links 0 s (omega arith))
      (omega arith, tt)

-- Every slot in the combinational fan-in of an output, and every slot in the fan-in of the next
-- state, is an input slot of the macro, so the iterators that index `inputs` by them never leave
-- the vector.
pub fanin-AllBelow :
    (k : MacroKind) (s : ℕ)
    → s < num_outputs k
    → AllBelow (num_inputs k) (comb_fanin_of_output k s) × AllBelow (num_inputs k) (state_fanin k)
unfolding comb_fanin_of_output state_fanin num_inputs num_outputs
fanin-AllBelow carry4 s h = elim (Bool-cases (ltb s c4_out_co)) [
  | inl low ↦ rw low ((omega arith, (omega arith, fanin-AllBelow_o (s - 0) (ground arith))), tt)
  | inr high ↦
      rw high ((omega arith, (omega arith, AllBelow-carry_links 0 (s - 4 + 1) (ground arith))), tt)
]
fanin-AllBelow (dsp48e2 _ _) s h = (tt, AllBelow-range 121 0 121 (omega arith))
fanin-AllBelow srlc32e zero h = (omega arith, omega arith)
fanin-AllBelow srlc32e (suc zero) h = (tt, omega arith)
fanin-AllBelow srlc32e (suc (suc s)) h = absurd (omega arith)

-- An output has to be evaluated in the middle of a partition exactly if the macro is not committed
-- as an endpoint: CARRY4 and SRLC32E are served by a phase, DSP48E2 by the write-out path.
pub mid_partition-not-is_endpoint :
    (k : MacroKind) (s : ℕ)
    → (output_needs_mid_partition_eval k s ≡ not (is_endpoint k))
      × (needs_mid_partition_eval k ≡ not (is_endpoint k))
unfolding output_needs_mid_partition_eval needs_mid_partition_eval is_endpoint
mid_partition-not-is_endpoint carry4 s = (ground arith, refl)
mid_partition-not-is_endpoint (dsp48e2 _ _) s = (refl, refl)
mid_partition-not-is_endpoint srlc32e s = (refl, refl)
