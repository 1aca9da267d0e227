-- ===== src/Sim/Srl.antt =====
-- src/bin/naive_sim.rs: `eval_srl_next`, and the two read ports of an SRLC32E as `main` serves them.
use gem_macro_optimization.Base.{ℕ, ◌+◌, ◌*◌, ◌/◌, ◌%◌, ◌^◌, List, bit_or, ◌==◌, if◌then◌else◌}
use gem_macro_optimization.Macros.Kind.{srl_in_d, srl_in_ce, srl_in_a}
use gem_macro_optimization.Sim.Carry.{at}

-- The shift register is a `u32`.
unfoldable pub eval_srl_next : List ℕ → ℕ → ℕ
eval_srl_next inp sr =
    if at inp srl_in_ce % 2 == 0 then sr else bit_or (sr * 2 % 2 ^ 32) (at inp srl_in_d % 2)

-- `(0..5).fold(0u32, |acc, i| acc | ((inp[SRL_IN_A + i] as u32 & 1) << i))`
unfoldable pub srl_address : List ℕ → ℕ
srl_address inp =
    bit_or
      (bit_or
        (bit_or (bit_or (bit_or 0 (at inp srl_in_a % 2)) (at inp (srl_in_a + 1) % 2 * 2))
          (at inp (srl_in_a + 2) % 2 * 4))
        (at inp (srl_in_a + 3) % 2 * 8))
      (at inp (srl_in_a + 4) % 2 * 16)

-- Output `Q`: the addressed tap of the register.
unfoldable pub srl_q : List ℕ → ℕ → ℕ
unfolding srl_address
srl_q inp sr = sr / 2 ^ srl_address inp % 2

-- Output `Q31`: the top tap.
unfoldable pub srl_q31 : ℕ → ℕ
srl_q31 sr = sr / 2 ^ 31 % 2
