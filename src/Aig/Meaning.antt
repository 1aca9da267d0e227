-- ===== src/Aig/Meaning.antt =====
-- src/aig.rs: what a graph means. A valuation gives each pin a bit; it is a model of a graph if it
-- satisfies the equation of each driver, with a given bit for each pin that has no gate.
use gem_macro_optimization.Base.{
  ℕ, ◌+◌, ◌/◌, ◌%◌, ◌≤◌, ◌<◌, Bool, false, not, ◌&&◌, some, ◌==◌, if◌then◌else◌, length, ◌≡◌,
}
use gem_macro_optimization.Aig.{DriverType, and_gate, tie0, Aig, driver, cached}

-- The bit of a literal.
abbrev pub lit : (ℕ → Bool) → ℕ → Bool
lit val iv = if iv % 2 == 0 then val (iv / 2) else not (val (iv / 2))

-- The bit that a driver gives to pin `i`.
abbrev pub driven : (ℕ → Bool) → (ℕ → Bool) → ℕ → DriverType → Bool
driven leaf val i (and_gate a b) = lit val a && lit val b
driven leaf val i tie0 = false
driven leaf val i _ = leaf i

abbrev pub Models : (ℕ → Bool) → Aig → (ℕ → Bool) → Type 0
Models leaf aig val = (i : ℕ) → i ≤ aig.num_aigpins → val i ≡ driven leaf val i (driver aig i)

-- A gate's operands are literals of earlier pins, none of them constant, in order.
abbrev pub OperandsBefore : ℕ → DriverType → Type 0
OperandsBefore i (and_gate a b) = (2 ≤ a) × (a ≤ b) × (b / 2 < i)
OperandsBefore i _ = Unit

-- The graph is numbered in topological order from the constant 0, and the cache holds exactly the
-- gates that there are.
pub record IsWellFormed (aig : Aig) : Type 0 where
  pub sized : length aig.drivers ≡ aig.num_aigpins + 1
  pub zero_tied : driver aig 0 ≡ tie0
  pub ordered : (i : ℕ) → i ≤ aig.num_aigpins → OperandsBefore i (driver aig i)
  pub cache_sound :
      (a b o : ℕ)
      → cached aig.and_gate_cache a b ≡ some o
      → (o ≤ aig.num_aigpins) × (driver aig o ≡ and_gate a b)
  pub cache_complete :
      (a b i : ℕ)
      → i ≤ aig.num_aigpins
      → driver aig i ≡ and_gate a b
      → cached aig.and_gate_cache a b ≡ some i
