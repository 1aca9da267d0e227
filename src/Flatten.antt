-- ===== src/Flatten.antt =====
-- src/flatten.rs: the memory formatter. A `u16` or `u32` is a number, cut to its width where the
-- source's arithmetic can leave it.
pub mod Room
pub mod Phase
pub mod Part
pub mod Reads
pub mod Blocks
pub mod Flags
use gem_macro_optimization.Base.{
  ℕ, zero, suc, ◌+◌, ◌-◌, ◌*◌, ◌%◌, ◌^◌, Bool, true, false, List, Outcome, ok, panic, bit_and,
  bit_or, ltb, ◌==◌, if◌then◌else◌, get_or, set,
}
use gem_macro_optimization.Pe.{boomerang_num_stages}

abbrev pub num_threads_v1 : ℕ
num_threads_v1 = 2 ^ (boomerang_num_stages - 5)

-- The bits of a hierarchy's level 0, and of the shared state.
abbrev pub num_positions : ℕ
num_positions = 2 ^ boomerang_num_stages

unfoldable pub set_bit_in_u32 : ℕ → ℕ → ℕ → ℕ
set_bit_in_u32 v pos bit = if bit == 0 then bit_and v (2 ^ 32 - 1 - 2 ^ pos) else bit_or v (2 ^ pos)

-- `while *cursor < hi && occupancy[*cursor] { *cursor += 1 }`, for the `n` positions from `cursor`
-- to `hi`.
unfoldable pub skip_taken : List Bool → ℕ → ℕ → ℕ
skip_taken occupancy cursor zero = cursor
skip_taken occupancy cursor (suc n) = elim (get_or occupancy cursor false) [
  | true ↦ skip_taken occupancy (cursor + 1) n
  | false ↦ cursor
]

-- The new position, and the variables behind the references.
pub record Alloc : Type 0 where
  pub pos : ℕ
  pub occupancy : List Bool
  pub cursor : ℕ

unfoldable pub alloc_free_pos : List Bool → ℕ → Outcome Alloc
unfolding skip_taken
alloc_free_pos occupancy cursor =
    let free = skip_taken occupancy cursor (num_positions - cursor) in
    if ltb free num_positions
    then ok (record { pos = free % 2 ^ 16; occupancy = set occupancy free true; cursor = free + 1 })
    else panic
