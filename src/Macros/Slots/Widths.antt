-- ===== src/Macros/Slots/Widths.antt =====
-- src/macros.rs: the netlist typing of a macro's pins against their slots.
use text.Mathlib.TextEquality.{eq_iff}
use gem_macro_optimization.Base.{ℕ, ◌||◌, some, String, leb, ◌≡◌, arith, is_some}
use gem_macro_optimization.Macros.Kind.{MacroKind, carry4, dsp48e2, srlc32e}
use gem_macro_optimization.Macros.Slots.{input_slot, output_slot, width_of}

-- A pin that is declared as a bus has a slot at bit `i` exactly if `i` lies in the declared range,
-- whose last bit is 0.
pub width_of_bus :
    (k : MacroKind) (p : String) (msb lsb i : ℕ)
    → width_of k p ≡ some (msb, lsb)
    → ((is_some (input_slot k p (some i)) || is_some (output_slot k p (some i))) ≡ leb i msb)
      × (lsb ≡ 0)
unfolding width_of input_slot output_slot
width_of_bus carry4 p msb lsb i h =
    ground (arith, eq_iff p "DI", eq_iff p "S", eq_iff p "O", eq_iff p "CO")
width_of_bus (dsp48e2 _ _) p msb lsb i h = ground (
  arith,
  eq_iff p "A",
  eq_iff p "B",
  eq_iff p "C",
  eq_iff p "D",
  eq_iff p "P",
  eq_iff "A" "B",
  eq_iff "A" "C",
  eq_iff "A" "D",
  eq_iff "B" "C",
  eq_iff "B" "D",
  eq_iff "C" "D",
  eq_iff "A" "P",
  eq_iff "B" "P",
  eq_iff "C" "P",
  eq_iff "D" "P",
)
width_of_bus srlc32e p msb lsb i h = ground (arith, eq_iff p "A")
