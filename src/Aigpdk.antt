-- ===== src/Aigpdk.antt =====
-- src/aigpdk.rs: the directions and the widths of the pins of the cell library, which the netlist
-- data base asks for. A pin that the library does not have is a panic.
pub mod Bus
use gem_macro_optimization.Base.{
  ℕ, Bool, true, false, ◌&&◌, ◌||◌, List, [], ◌∷◌, Option, none, some, String, str_eq, Outcome, ok,
  panic, ◌>>=◌, unwrap, leb, if◌then◌else◌,
}
use gem_macro_optimization.Base.Int.{ℤ, pos, negsuc}
use gem_macro_optimization.Macros.Kind.{from_celltype}
use gem_macro_optimization.Macros.Slots.{Direction, input, output, direction_of, width_of}

-- `"A" | "B" | …`
abbrev pub one_of : List String → String → Bool
one_of [] x = false
one_of (name ∷ names) x = str_eq x name || one_of names x

-- The patterns `None` and `Some(0..=last)` of a pin's index.
abbrev pub no_bit : Option ℤ → Bool
no_bit none = true
no_bit (some _) = false

abbrev pub bit_up_to : ℕ → Option ℤ → Bool
bit_up_to last (some (pos i)) = leb i last
bit_up_to last _ = false

abbrev pub inverters : List String
inverters = "INV" ∷ "BUF" ∷ []

abbrev pub and_cells : List String
and_cells = "AND2_00_0" ∷ "AND2_01_0" ∷ "AND2_10_0" ∷ "AND2_11_0" ∷ "AND2_11_1" ∷ []

-- The pins of the sync RAM; `none` is a pin that no arm of the match has.
unfoldable pub ram_direction_of : String → Option ℤ → Option Direction
ram_direction_of pin idx =
    if one_of ("PORT_R_CLK" ∷ "PORT_W_CLK" ∷ []) pin && no_bit idx
    then some input
    else if one_of ("PORT_R_ADDR" ∷ "PORT_W_ADDR" ∷ []) pin && bit_up_to 12 idx
    then some input
    else if one_of ("PORT_W_WR_EN" ∷ "PORT_W_WR_DATA" ∷ []) pin && bit_up_to 31 idx
    then some input
    else if str_eq pin "PORT_R_RD_DATA" && bit_up_to 31 idx
    then some output
    else none

-- The arm `_`: a macro's pin tables are those of `macros.rs`.
unfoldable pub macro_direction_of : String → String → Option ℤ → Outcome Direction
unfolding from_celltype direction_of
macro_direction_of cell pin idx = from_celltype cell >>= λ found. elim found [
  | some kind ↦ unwrap (direction_of kind pin idx)
  | none ↦ panic
]

unfoldable pub pdk_direction_of : String → String → Option ℤ → Outcome Direction
unfolding ram_direction_of macro_direction_of
pdk_direction_of cell pin idx =
    if one_of inverters cell && (str_eq pin "A" && no_bit idx)
    then ok input
    else if one_of inverters cell && (str_eq pin "Y" && no_bit idx)
    then ok output
    else if one_of and_cells cell && (one_of ("A" ∷ "B" ∷ []) pin && no_bit idx)
    then ok input
    else if one_of and_cells cell && (str_eq pin "Y" && no_bit idx)
    then ok output
    else if one_of ("DFF" ∷ "LATCH" ∷ []) cell && (one_of ("CLK" ∷ "D" ∷ []) pin && no_bit idx)
    then ok input
    else if str_eq cell "DFFSR" && (one_of ("CLK" ∷ "D" ∷ "S" ∷ "R" ∷ []) pin && no_bit idx)
    then ok input
    else if one_of ("DFF" ∷ "DFFSR" ∷ "LATCH" ∷ []) cell && (str_eq pin "Q" && no_bit idx)
    then ok output
    else if str_eq cell "CKLNQD" && (one_of ("CP" ∷ "E" ∷ []) pin && no_bit idx)
    then ok input
    else if str_eq cell "CKLNQD" && (str_eq pin "Q" && no_bit idx)
    then ok output
    else if str_eq cell "$__RAMGEM_ASYNC_"
    then panic
    else elim (if str_eq cell "$__RAMGEM_SYNC_" then ram_direction_of pin idx else none) [
      | some dir ↦ ok dir
      | none ↦ macro_direction_of cell pin idx
    ]

-- The range (msb, lsb) of a bus; a cell that is no macro, or a pin that is no bus, gives `none`.
unfoldable pub pdk_width_of : String → String → Outcome (Option (ℕ × ℕ))
unfolding from_celltype width_of
pdk_width_of cell pin =
    if one_of inverters cell && one_of ("A" ∷ "Y" ∷ []) pin
    then ok none
    else if one_of and_cells cell && one_of ("A" ∷ "B" ∷ "Y" ∷ []) pin
    then ok none
    else if one_of ("DFF" ∷ "DFFSR" ∷ "LATCH" ∷ []) cell
        && one_of ("CLK" ∷ "D" ∷ "Q" ∷ "S" ∷ "R" ∷ []) pin
    then ok none
    else if str_eq cell "CKLNQD" && one_of ("CP" ∷ "E" ∷ "Q" ∷ []) pin
    then ok none
    else if str_eq cell "$__RAMGEM_SYNC_" && one_of ("PORT_R_CLK" ∷ "PORT_W_CLK" ∷ []) pin
    then ok none
    else if str_eq cell "$__RAMGEM_SYNC_" && one_of ("PORT_R_ADDR" ∷ "PORT_W_ADDR" ∷ []) pin
    then ok (some (12, 0))
    else if str_eq cell "$__RAMGEM_SYNC_"
        && one_of ("PORT_W_WR_EN" ∷ "PORT_W_WR_DATA" ∷ "PORT_R_RD_DATA" ∷ []) pin
    then ok (some (31, 0))
    else from_celltype cell >>= λ found. elim found [
      | some kind ↦ ok (width_of kind pin)
      | none ↦ ok none
    ]
