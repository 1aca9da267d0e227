-- ===== src/Tests/Macros.antt =====
-- Tests of the macros' pins, fan-in and codes.
use gem_macro_optimization.Base.{[], ◌∷◌, contains}
use gem_macro_optimization.Macros.Fanin.{any_from}
use gem_macro_optimization.Macros.Inst.{MacroInst, for_each_eval_fanin}
use gem_macro_optimization.Macros.Inst.Pins.{NoDup, mid_fanin, for_each_eval_fanin-contains}
use gem_macro_optimization.Base.{
  AllBelow, ℕ, ◌+◌, ◌<◌, true, false, not, ◌||◌, none, some, ok, panic, ◌>>=◌, [], ◌∷◌, ◌≡◌, ◌↔◌,
  refl, inr, arith, leb, is_some, ◌==◌, if◌then◌else◌,
}
use gem_macro_optimization.Base.Int.{pos, negsuc}
use gem_macro_optimization.Macros.Kind.{
  carry4, dsp48e2, srlc32e, mac, mult, from_celltype, num_inputs, num_outputs, is_endpoint,
}
use gem_macro_optimization.Macros.Slots.{
  input_slot, output_slot, width_of, direction_of, input, output,
}
use gem_macro_optimization.Macros.Slots.Inverse.{
  input_name, input_bit, output_name, output_bit, canonical, input_slot_iff, output_slot_iff,
}
use gem_macro_optimization.Macros.Slots.Widths.{width_of_bus}
use gem_macro_optimization.Macros.Fanin.{
  comb_fanin_of_output, state_fanin, output_needs_mid_partition_eval, needs_mid_partition_eval,
}
use gem_macro_optimization.Macros.Fanin.Bounds.{fanin-AllBelow, mid_partition-not-is_endpoint}
use gem_macro_optimization.Macros.Encode.{macro_encode_input, macro_decode_input}
use gem_macro_optimization.Macros.Encode.Codes.{literal_bit, decode-encode}

mangled :
    (from_celltype "DSP48E2_MAC_PREADD" ≡ ok (some (dsp48e2 mac true)))
    × (from_celltype "DSP48E2" ≡ panic)
    × (from_celltype "AND2_00_0" ≡ ok none)
unfolding from_celltype
mangled = (refl, refl, refl)

carry_o2 : comb_fanin_of_output carry4 2 ≡ 0 ∷ 1 ∷ 6 ∷ 2 ∷ 7 ∷ 3 ∷ 8 ∷ []
unfolding comb_fanin_of_output
carry_o2 = refl

directions :
    (direction_of srlc32e "CLK" none ≡ some input)
    × (direction_of (dsp48e2 mult false) "P" (some (pos 47)) ≡ some output)
    × (direction_of (dsp48e2 mult false) "P" (some (negsuc 0)) ≡ none)
unfolding direction_of
directions = (refl, refl, refl)

input_slot_iff_example : (input_slot carry4 "CIN" none ≡ some 0) ↔ (
    (0 < num_inputs carry4)
    × (canonical carry4 "CIN" ≡ input_name carry4 0)
    × (none ≡ input_bit carry4 0))
input_slot_iff_example = input_slot_iff carry4 "CIN" none 0

output_slot_iff_example :
    (output_slot srlc32e "Q31" none ≡ some 1)
    ↔ ((1 < num_outputs srlc32e) × ("Q31" ≡ output_name srlc32e 1) × (none ≡ output_bit srlc32e 1))
output_slot_iff_example = output_slot_iff srlc32e "Q31" none 1

width_of_bus_example :
    ((is_some (input_slot carry4 "DI" (some 4)) || is_some (output_slot carry4 "DI" (some 4)))
      ≡ leb 4 3)
    × (◌≡◌ {A = ℕ} 0 0)
unfolding width_of
width_of_bus_example = width_of_bus carry4 "DI" 3 0 4 refl

fanin-AllBelow_example :
    AllBelow (num_inputs carry4) (comb_fanin_of_output carry4 7)
    × AllBelow (num_inputs carry4) (state_fanin carry4)
unfolding num_outputs
fanin-AllBelow_example = fanin-AllBelow carry4 7 (omega arith)

mid_partition-not-is_endpoint_example :
    (output_needs_mid_partition_eval srlc32e 1 ≡ not (is_endpoint srlc32e))
    × (needs_mid_partition_eval srlc32e ≡ not (is_endpoint srlc32e))
mid_partition-not-is_endpoint_example = mid_partition-not-is_endpoint srlc32e 1

-- Pin 5, inverted, stands at position 4100, where the state holds 1.
decode-encode_example :
    (macro_encode_input 11 (λ pin. some (pin + 4095)) >>= λ code.
    ok (macro_decode_input code (λ p. if p == 4100 then 1 else 0)))
    ≡ ok (literal_bit (λ pin. if pin == 5 then 1 else 0) 11)
decode-encode_example =
    decode-encode 11 (λ p. if p == 4100 then 1 else 0) (λ pin. some (pin + 4095))
      (λ pin. if pin == 5 then 1 else 0) refl (inr (4100, refl, omega arith, refl))

-- Pin 5 drives two inputs of the chain, once inverted.
abbrev shared_input : MacroInst
shared_input = record {
  kind = carry4;
  inputs = 0 ∷ 10 ∷ 11 ∷ 12 ∷ 0 ∷ 0 ∷ 14 ∷ 10 ∷ 0 ∷ 0 ∷ [];
  outputs = 20 ∷ 21 ∷ 0 ∷ 0 ∷ 0 ∷ 0 ∷ 0 ∷ 0 ∷ [];
  clk_en_iv = 1;
}

eval_fanin_runs : for_each_eval_fanin shared_input ≡ (5 ∷ 7 ∷ 6 ∷ [])
unfolding for_each_eval_fanin
eval_fanin_runs = refl

for_each_eval_fanin-contains_example :
    NoDup (for_each_eval_fanin shared_input)
    × (contains (for_each_eval_fanin shared_input) 7
        ≡ any_from (mid_fanin shared_input 7) 0 (num_outputs carry4))
for_each_eval_fanin-contains_example = for_each_eval_fanin-contains shared_input 7
