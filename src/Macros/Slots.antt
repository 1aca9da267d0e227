-- ===== src/Macros/Slots.antt =====
-- src/macros.rs: dense slot indices of a macro's pins, and the netlist typing of those pins.
pub mod Inverse
pub mod Widths
use gem_macro_optimization.Base.{
  ℕ, ◌+◌, true, false, ◌&&◌, ◌||◌, Option, none, some, String, str_eq, ltb, if◌then◌else◌, is_some,
}
use gem_macro_optimization.Base.Int.{ℤ, pos, negsuc}
use gem_macro_optimization.Macros.Kind.{
  MacroKind, carry4, dsp48e2, srlc32e, c4_in_ci, c4_in_cyinit, c4_in_di, c4_in_s, c4_out_o,
  c4_out_co, dsp_in_a, dsp_in_b, dsp_in_c, dsp_in_d, dsp_in_cep, dsp_out_p, srl_in_d, srl_in_ce,
  srl_in_a, srl_out_q, srl_out_q31, has_clock,
}

-- The slot of a netlist input pin, given by its name and its bit if it is a bus.
unfoldable pub input_slot : MacroKind → String → Option ℕ → Option ℕ
input_slot carry4 pin none =
    if str_eq pin "CI" || str_eq pin "CIN"
    then some c4_in_ci
    else if str_eq pin "CYINIT"
    then some c4_in_cyinit
    else none
input_slot carry4 pin (some i) =
    if str_eq pin "DI" && ltb i 4
    then some (c4_in_di + i)
    else if str_eq pin "S" && ltb i 4
    then some (c4_in_s + i)
    else none
input_slot (dsp48e2 _ _) pin none = if str_eq pin "CEP" then some dsp_in_cep else none
input_slot (dsp48e2 _ _) pin (some i) =
    if str_eq pin "A" && ltb i 27
    then some (dsp_in_a + i)
    else if str_eq pin "B" && ltb i 18
    then some (dsp_in_b + i)
    else if str_eq pin "C" && ltb i 48
    then some (dsp_in_c + i)
    else if str_eq pin "D" && ltb i 27
    then some (dsp_in_d + i)
    else none
input_slot srlc32e pin none =
    if str_eq pin "D" then some srl_in_d else if str_eq pin "CE" then some srl_in_ce else none
input_slot srlc32e pin (some i) = if str_eq pin "A" && ltb i 5 then some (srl_in_a + i) else none

unfoldable pub output_slot : MacroKind → String → Option ℕ → Option ℕ
output_slot carry4 pin none = none
output_slot carry4 pin (some i) =
    if str_eq pin "O" && ltb i 4
    then some (c4_out_o + i)
    else if str_eq pin "CO" && ltb i 4
    then some (c4_out_co + i)
    else none
output_slot (dsp48e2 _ _) pin none = none
output_slot (dsp48e2 _ _) pin (some i) =
    if str_eq pin "P" && ltb i 48 then some (dsp_out_p + i) else none
output_slot srlc32e pin none =
    if str_eq pin "Q" then some srl_out_q else if str_eq pin "Q31" then some srl_out_q31 else none
output_slot srlc32e pin (some i) = none

-- The two directions of `netlistdb` that the cells have.
pub data Direction : Type 0 where
  input output : Direction

-- `direction_of` once the bit is known to be absent or non-negative.
unfoldable pub direction_at : MacroKind → String → Option ℕ → Option Direction
unfolding input_slot output_slot has_clock
direction_at kind pin ubit =
    if has_clock kind && (str_eq pin "CLK" && (if is_some ubit then false else true))
    then some input
    else if is_some (input_slot kind pin ubit)
    then some input
    else if is_some (output_slot kind pin ubit)
    then some output
    else none

unfoldable pub direction_of : MacroKind → String → Option ℤ → Option Direction
unfolding direction_at
direction_of kind pin none = direction_at kind pin none
direction_of kind pin (some (pos b)) = direction_at kind pin (some b)
direction_of kind pin (some (negsuc b)) = none

-- The range (msb, lsb) of a bus pin; `none` is a scalar or unknown pin.
unfoldable pub width_of : MacroKind → String → Option (ℕ × ℕ)
width_of carry4 pin =
    if str_eq pin "DI" || (str_eq pin "S" || (str_eq pin "O" || str_eq pin "CO"))
    then some (3, 0)
    else none
width_of (dsp48e2 _ _) pin =
    if str_eq pin "A" || str_eq pin "D"
    then some (26, 0)
    else if str_eq pin "B"
    then some (17, 0)
    else if str_eq pin "C" || str_eq pin "P"
    then some (47, 0)
    else none
width_of srlc32e pin = if str_eq pin "A" then some (4, 0) else none
