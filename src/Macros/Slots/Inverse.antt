-- ===== src/Macros/Slots/Inverse.antt =====
-- src/macros.rs: the pin that each slot stands for, with the one alias `CIN` for `CI`.
use text.Mathlib.TextEquality.{eq_iff}
use gem_macro_optimization.Base.{
  ℕ, ◌-◌, ◌<◌, Option, none, some, String, str_eq, ltb, ◌==◌, if◌then◌else◌, ◌≡◌, ◌↔◌, arith,
}
use gem_macro_optimization.Macros.Kind.{
  MacroKind, carry4, dsp48e2, srlc32e, num_inputs, num_outputs,
}
use gem_macro_optimization.Macros.Slots.{input_slot, output_slot}

-- The pin that an input slot belongs to: its name, and its bit if it is a bus.
abbrev pub input_name : MacroKind → ℕ → String
input_name carry4 s =
    if s == 0 then "CI" else if s == 1 then "CYINIT" else if ltb s 6 then "DI" else "S"
input_name (dsp48e2 _ _) s =
    if ltb s 27
    then "A"
    else if ltb s 45
    then "B"
    else if ltb s 93
    then "C"
    else if ltb s 120
    then "D"
    else "CEP"
input_name srlc32e s = if s == 0 then "D" else if s == 1 then "CE" else "A"

abbrev pub input_bit : MacroKind → ℕ → Option ℕ
input_bit carry4 s = if ltb s 2 then none else if ltb s 6 then some (s - 2) else some (s - 6)
input_bit (dsp48e2 _ _) s =
    if ltb s 27
    then some s
    else if ltb s 45
    then some (s - 27)
    else if ltb s 93
    then some (s - 45)
    else if ltb s 120
    then some (s - 93)
    else none
input_bit srlc32e s = if ltb s 2 then none else some (s - 2)

abbrev pub output_name : MacroKind → ℕ → String
output_name carry4 s = if ltb s 4 then "O" else "CO"
output_name (dsp48e2 _ _) s = "P"
output_name srlc32e s = if s == 0 then "Q" else "Q31"

abbrev pub output_bit : MacroKind → ℕ → Option ℕ
output_bit carry4 s = if ltb s 4 then some s else some (s - 4)
output_bit (dsp48e2 _ _) s = some s
output_bit srlc32e s = none

-- The one alias: a CARRY4 takes `CIN` for `CI`.
abbrev pub canonical : MacroKind → String → String
canonical carry4 pin = if str_eq pin "CIN" then "CI" else pin
canonical _ pin = pin

slot-of_input_pin :
    (k : MacroKind) (p : String) (b : Option ℕ) (s : ℕ)
    → s < num_inputs k
    → canonical k p ≡ input_name k s
    → b ≡ input_bit k s
    → input_slot k p b ≡ some s
unfolding input_slot num_inputs
slot-of_input_pin carry4 p none s h e f =
    ground (arith, eq_iff p "CI", eq_iff p "CIN", eq_iff p "CYINIT", eq_iff "CI" "CYINIT")
slot-of_input_pin carry4 p (some i) s h e f = ground (
  arith,
  eq_iff p "DI",
  eq_iff p "S",
  eq_iff p "CIN",
  eq_iff "CI" "S",
  eq_iff "CI" "DI",
  eq_iff "DI" "S",
)
slot-of_input_pin (dsp48e2 _ _) p none s h e f = ground (arith, eq_iff p "CEP")
slot-of_input_pin (dsp48e2 _ _) p (some i) s h e f = ground (
  arith,
  eq_iff p "A",
  eq_iff p "B",
  eq_iff p "C",
  eq_iff p "D",
  eq_iff "A" "B",
  eq_iff "A" "C",
  eq_iff "A" "D",
  eq_iff "B" "C",
  eq_iff "B" "D",
  eq_iff "C" "D",
)
slot-of_input_pin srlc32e p none s h e f =
    ground (arith, eq_iff p "D", eq_iff p "CE", eq_iff "D" "CE")
slot-of_input_pin srlc32e p (some i) s h e f = ground (arith, eq_iff p "A")

input_pin-of_slot :
    (k : MacroKind) (p : String) (b : Option ℕ) (s : ℕ)
    → input_slot k p b ≡ some s
    → (s < num_inputs k) × (canonical k p ≡ input_name k s) × (b ≡ input_bit k s)
unfolding input_slot num_inputs
input_pin-of_slot carry4 p none s h =
    ground (arith, eq_iff p "CI", eq_iff p "CIN", eq_iff p "CYINIT", eq_iff "CYINIT" "CIN")
input_pin-of_slot carry4 p (some i) s h =
    ground (arith, eq_iff p "DI", eq_iff p "S", eq_iff p "CIN", eq_iff "CIN" "S", eq_iff "CIN" "DI")
input_pin-of_slot (dsp48e2 _ _) p none s h = ground (arith, eq_iff p "CEP")
input_pin-of_slot (dsp48e2 _ _) p (some i) s h =
    ground (arith, eq_iff p "A", eq_iff p "B", eq_iff p "C", eq_iff p "D")
input_pin-of_slot srlc32e p none s h = ground (arith, eq_iff p "D", eq_iff p "CE")
input_pin-of_slot srlc32e p (some i) s h = ground (arith, eq_iff p "A")

-- An input pin has slot `s` exactly if `s` is below the number of inputs and the pin is the one
-- that slot `s` stands for, `CIN` counting as `CI` on a CARRY4; so no two pins share a slot and no
-- slot is left without a pin.
pub input_slot_iff :
    (k : MacroKind) (p : String) (b : Option ℕ) (s : ℕ)
    → (input_slot k p b ≡ some s)
      ↔ ((s < num_inputs k) × (canonical k p ≡ input_name k s) × (b ≡ input_bit k s))
input_slot_iff k p b s = (input_pin-of_slot k p b s, λ h. slot-of_input_pin k p b s h.0 h.1 h.2)

slot-of_output_pin :
    (k : MacroKind) (p : String) (b : Option ℕ) (s : ℕ)
    → s < num_outputs k
    → p ≡ output_name k s
    → b ≡ output_bit k s
    → output_slot k p b ≡ some s
unfolding output_slot num_outputs
slot-of_output_pin carry4 p none s h e f = ground arith
slot-of_output_pin carry4 p (some i) s h e f =
    ground (arith, eq_iff p "O", eq_iff p "CO", eq_iff "O" "CO")
slot-of_output_pin (dsp48e2 _ _) p none s h e f = ground arith
slot-of_output_pin (dsp48e2 _ _) p (some i) s h e f = ground (arith, eq_iff p "P")
slot-of_output_pin srlc32e p none s h e f =
    ground (arith, eq_iff p "Q", eq_iff p "Q31", eq_iff "Q" "Q31")
slot-of_output_pin srlc32e p (some i) s h e f = ground arith

output_pin-of_slot :
    (k : MacroKind) (p : String) (b : Option ℕ) (s : ℕ)
    → output_slot k p b ≡ some s
    → (s < num_outputs k) × (p ≡ output_name k s) × (b ≡ output_bit k s)
unfolding output_slot num_outputs
output_pin-of_slot carry4 p none s h = ground arith
output_pin-of_slot carry4 p (some i) s h = ground (arith, eq_iff p "O", eq_iff p "CO")
output_pin-of_slot (dsp48e2 _ _) p none s h = ground arith
output_pin-of_slot (dsp48e2 _ _) p (some i) s h = ground (arith, eq_iff p "P")
output_pin-of_slot srlc32e p none s h = ground (arith, eq_iff p "Q", eq_iff p "Q31")
output_pin-of_slot srlc32e p (some i) s h = ground arith

-- An output pin has slot `s` exactly if `s` is below the number of outputs and the pin is the one
-- that slot `s` stands for.
pub output_slot_iff :
    (k : MacroKind) (p : String) (b : Option ℕ) (s : ℕ)
    → (output_slot k p b ≡ some s)
      ↔ ((s < num_outputs k) × (p ≡ output_name k s) × (b ≡ output_bit k s))
output_slot_iff k p b s = (output_pin-of_slot k p b s, λ h. slot-of_output_pin k p b s h.0 h.1 h.2)
