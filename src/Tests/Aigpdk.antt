-- ===== src/Tests/Aigpdk.antt =====
-- Tests of the cell library's pin typing.
use gem_macro_optimization.Base.{some, none, ok, panic, leb, ◌≡◌, refl}
use gem_macro_optimization.Base.Int.{pos}
use gem_macro_optimization.Macros.Slots.{output}
use gem_macro_optimization.Aigpdk.{pdk_direction_of, pdk_width_of}
use gem_macro_optimization.Aigpdk.Bus.{returns, r_addr, RamBus-directions}

dff_q_runs : pdk_direction_of "DFFSR" "Q" none ≡ ok output
unfolding pdk_direction_of
dff_q_runs = refl

async_ram_runs : pdk_direction_of "$__RAMGEM_ASYNC_" "PORT_R_CLK" none ≡ panic
unfolding pdk_direction_of
async_ram_runs = refl

RamBus-directions_example :
    (pdk_width_of "$__RAMGEM_SYNC_" "PORT_R_ADDR" ≡ ok (some (12, 0)))
    × (returns (pdk_direction_of "$__RAMGEM_SYNC_" "PORT_R_ADDR" (some (pos 13))) ≡ leb 13 12)
RamBus-directions_example = RamBus-directions "PORT_R_ADDR" 12 13 r_addr
