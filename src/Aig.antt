-- ===== src/Aig.antt =====
-- src/aig.rs: the and-inverter graph and the construction of an and gate. A pin with its inversion
-- bit (`_iv`) is the number `pin << 1 | invert`. An `IndexMap` is an association list in insertion
-- order. A `usize` is a number: the graph's vectors fit in memory, so no index reaches 2^63.
pub mod Meaning
pub mod Insert
pub mod Gate
pub mod Sharing
pub mod Pins
pub mod Topo
pub mod Endpoints
pub mod Fanouts
pub mod Reads
use gem_macro_optimization.Base.{
  ℕ, zero, suc, ◌+◌, ◌-◌, ◌*◌, ◌/◌, ◌^◌, Bool, ◌&&◌, List, [], ◌∷◌, ◌++◌, Option, none, some,
  Outcome, ok, panic, bit_or, ltb, ◌==◌, if◌then◌else◌, get_or, replicate,
}
use gem_macro_optimization.Macros.Inst.{MacroInst}

pub record Dff : Type 0 where
  pub d_iv : ℕ
  pub en_iv : ℕ
  pub q : ℕ

pub record RamBlock : Type 0 where
  pub port_r_addr_iv : List ℕ
  pub port_r_en_iv : ℕ
  pub port_r_rd_data : List ℕ
  pub port_w_addr_iv : List ℕ
  pub port_w_wr_en_iv : List ℕ
  pub port_w_wr_data_iv : List ℕ

pub data DriverType : Type 0 where
  and_gate : ℕ → ℕ → DriverType
  input_port : ℕ → DriverType
  input_clock_flag : ℕ → ℕ → DriverType
  dff : ℕ → DriverType
  sram : ℕ → DriverType
  macro : ℕ → ℕ → DriverType
  tie0 : DriverType

-- The graph: its pins, and what the netlist's cells became.
pub record Aig : Type 0 where
  pub num_aigpins : ℕ
  pub pin2aigpin_iv : List ℕ
  pub clock_pin2aigpins : List (ℕ × (ℕ × ℕ))
  pub drivers : List DriverType
  pub and_gate_cache : List ((ℕ × ℕ) × ℕ)
  pub primary_outputs : List ℕ
  pub dffs : List (ℕ × Dff)
  pub srams : List (ℕ × RamBlock)
  pub macros : List (ℕ × MacroInst)
  pub stateful_macros : List ℕ
  pub aigpin2macro : List (ℕ × ℕ)
  pub fanouts_start : List ℕ
  pub fanouts : List ℕ

-- `usize::MAX`
abbrev pub usize_max : ℕ
usize_max = 2 ^ 64 - 1

-- `aig.drivers[i]`
abbrev pub driver : Aig → ℕ → DriverType
driver aig i = get_or aig.drivers i tie0

-- `and_gate_cache.get(&(a, b))`
unfoldable pub cached : List ((ℕ × ℕ) × ℕ) → ℕ → ℕ → Option ℕ
cached [] a b = none
cached (((x, y), o) ∷ rest) a b = if x == a && y == b then some o else cached rest a b

-- The new pin's index, and the graph with it.
unfoldable pub add_aigpin : Aig → DriverType → ℕ × Aig
add_aigpin aig d = (
  aig.num_aigpins + 1,
  record aig { num_aigpins = aig.num_aigpins + 1; drivers = aig.drivers ++ d ∷ [] },
)

-- The look-up in the cache, or a new pin, for operands in order.
unfoldable pub ordered_gate : Aig → ℕ → ℕ → ℕ × Aig
unfolding add_aigpin
ordered_gate aig a b = elim (cached aig.and_gate_cache a b) [
  | some o ↦ (o * 2, aig)
  | none ↦
      let (aigpin, aig') = add_aigpin aig (and_gate a b) in
      (aigpin * 2, record aig' { and_gate_cache = aig'.and_gate_cache ++ ((a, b), aigpin) ∷ [] })
]

-- The literal of the conjunction of two literals, and the graph with it.
unfoldable pub add_and_gate : Aig → ℕ → ℕ → Outcome (ℕ × Aig)
add_and_gate aig a b =
    if bit_or a 1 == usize_max
    then panic
    else if bit_or b 1 == usize_max
    then panic
    else if a == 0
    then ok (0, aig)
    else if b == 0
    then ok (0, aig)
    else if a == 1
    then ok (b, aig)
    else if b == 1
    then ok (a, aig)
    else if ltb a b
    then ok (ordered_gate aig a b)
    else ok (ordered_gate aig b a)

-- The graph that `from_netlistdb` starts from.
unfoldable pub empty_aig : ℕ → Aig
empty_aig num_pins = record {
  num_aigpins = 0;
  pin2aigpin_iv = replicate num_pins usize_max;
  clock_pin2aigpins = [];
  drivers = tie0 ∷ [];
  and_gate_cache = [];
  primary_outputs = [];
  dffs = [];
  srams = [];
  macros = [];
  stateful_macros = [];
  aigpin2macro = [];
  fanouts_start = [];
  fanouts = [];
}
