-- ===== src/Flatten/Flags.antt =====
-- src/flatten.rs and src/bin/flatten_test.rs: the flags of a boomerang stage, and the bit that a place
-- of the hierarchy gets from the two below it. The vectors hold a bit for each place; here it is the
-- place's own.
pub mod Value
use gem_macro_optimization.Base.{
  ℕ, zero, suc, ◌+◌, ◌*◌, ◌/◌, ◌%◌, Bool, true, false, not, ◌&&◌, ◌||◌, List, Outcome, ok, panic,
  ◌>>=◌, unwrap, ◌==◌, if◌then◌else◌, get_elem?,
}
use gem_macro_optimization.Aig.{Aig, and_gate, usize_max}
use gem_macro_optimization.Pe.Boomerang.{operands}

pub record Flags : Type 0 where
  pub xora : Bool
  pub xorb : Bool
  pub orb : Bool

-- The flags of the place of `out`, above the places of `a` and `b`. `unreachable!()` and a failed
-- assertion are panics.
unfoldable pub node_flags : Aig → ℕ → ℕ → ℕ → Outcome Flags
node_flags aig out a b =
    if out == usize_max
    then ok (record { xora = false; xorb = false; orb = false })
    else if out == a
    then ok (record { xora = false; xorb = false; orb = true })
    else unwrap (get_elem? aig.drivers out) >>= λ d. operands d >>= λ iv.
        if iv.0 / 2 == a
        then (if iv.1 / 2 == b
            then ok (record { xora = not (iv.0 % 2 == 0); xorb = not (iv.1 % 2 == 0); orb = false })
            else panic)
        else panic

abbrev pub xor_flag : Bool → Bool → Bool
xor_flag v false = v
xor_flag v true = not v

-- `(a ^ xora) & ((b ^ xorb) | orb)`
abbrev pub combine : Flags → Bool → Bool → Bool
combine f a b = xor_flag a f.xora && (xor_flag b f.xorb || f.orb)

-- The bit of place `j` of level `h`, of `w` places, over the bits of level 0.
unfoldable pub hier_bit : (ℕ → ℕ → Flags) → (ℕ → Bool) → ℕ → ℕ → ℕ → Bool
hier_bit flags inputs zero w j = inputs j
hier_bit flags inputs (suc h) w j =
    combine (flags (suc h) j) (hier_bit flags inputs h (2 * w) j)
      (hier_bit flags inputs h (2 * w) (j + w))
