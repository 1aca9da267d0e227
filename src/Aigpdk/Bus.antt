-- ===== src/Aigpdk/Bus.antt =====
-- src/aigpdk.rs: the bus pins of the sync RAM, and the pins of the macro cells.
use gem_macro_optimization.Base.{
  ℕ, Bool, true, false, some, String, Outcome, ok, panic, leb, ◌≡◌, refl, arith,
}
use gem_macro_optimization.Base.Int.{pos}
use gem_macro_optimization.Macros.Kind.{from_celltype}
use gem_macro_optimization.Macros.Slots.{Direction}
use gem_macro_optimization.Aigpdk.{
  pdk_direction_of, pdk_width_of, ram_direction_of, macro_direction_of,
}

abbrev pub returns : Outcome Direction → Bool
returns (ok _) = true
returns panic = false

-- The bus pins of the sync RAM, with the index of their last bit.
pub data RamBus : String → ℕ → Type 0 where
  r_addr : RamBus "PORT_R_ADDR" 12
  w_addr : RamBus "PORT_W_ADDR" 12
  wr_en : RamBus "PORT_W_WR_EN" 31
  wr_data : RamBus "PORT_W_WR_DATA" 31
  rd_data : RamBus "PORT_R_RD_DATA" 31

-- A bus pin of the sync RAM is declared from its last bit down to 0, and has a direction at bit `i`
-- exactly if the bit is in that range.
pub RamBus-directions :
    (pin : String) (last i : ℕ)
    → RamBus pin last
    → (pdk_width_of "$__RAMGEM_SYNC_" pin ≡ ok (some (last, 0)))
      × (returns (pdk_direction_of "$__RAMGEM_SYNC_" pin (some (pos i))) ≡ leb i last)
unfolding pdk_width_of pdk_direction_of ram_direction_of macro_direction_of from_celltype
RamBus-directions _ _ i r_addr = (refl, ground arith)
RamBus-directions _ _ i w_addr = (refl, ground arith)
RamBus-directions _ _ i wr_en = (refl, ground arith)
RamBus-directions _ _ i wr_data = (refl, ground arith)
RamBus-directions _ _ i rd_data = (refl, ground arith)
