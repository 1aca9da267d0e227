-- ===== src/Sim/Carry.antt =====
-- src/bin/naive_sim.rs: `eval_carry4`. A slice of pin values is a list; every caller passes one
-- entry for each input slot, so no read is out of range.
pub mod Adder
use gem_macro_optimization.Base.{
  ℕ, zero, suc, ◌+◌, ◌*◌, ◌%◌, ◌^◌, Bool, List, bit_or, bit_xor, ◌==◌, get_or, if◌then◌else◌,
}
use gem_macro_optimization.Macros.Kind.{c4_in_ci, c4_in_cyinit, c4_in_di, c4_in_s}

-- `inp[i]`
abbrev pub at : List ℕ → ℕ → ℕ
at inp i = get_or inp i 0

-- The local variables of the loop.
pub record CarryVars : Type 0 where
  pub c : ℕ
  pub o : ℕ
  pub co : ℕ

-- One round of the loop; `o` and `co` are `u8`.
unfoldable pub carry_round : List ℕ → ℕ → CarryVars → CarryVars
carry_round inp i v =
    let s = at inp (c4_in_s + i) % 2 in
    let di = at inp (c4_in_di + i) % 2 in
    let c_next = if s == 0 then di else v.c in
    record {
      c = c_next;
      o = bit_or v.o (bit_xor s v.c * 2 ^ i % 2 ^ 8);
      co = bit_or v.co (c_next * 2 ^ i % 2 ^ 8);
    }

unfoldable pub carry_loop : List ℕ → ℕ → ℕ → CarryVars → CarryVars
carry_loop inp i zero v = v
carry_loop inp i (suc n) v = carry_loop inp (i + 1) n (carry_round inp i v)

-- The initial carry, `(inp[C4_IN_CI] | inp[C4_IN_CYINIT]) & 1`.
unfoldable pub carry_in : List ℕ → ℕ
carry_in inp = bit_or (at inp c4_in_ci) (at inp c4_in_cyinit) % 2

-- The outputs `(O, CO)`.
unfoldable pub eval_carry4 : List ℕ → ℕ × ℕ
eval_carry4 inp =
    let v = carry_loop inp 0 4 (record { c = carry_in inp; o = 0; co = 0 }) in (v.o, v.co)
