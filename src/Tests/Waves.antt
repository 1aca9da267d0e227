-- ===== src/Tests/Waves.antt =====
-- Tests of the waves of macros.
use gem_macro_optimization.Staging.Split.Vectors.{count}
use gem_macro_optimization.Pe.Waves.Chains.Rising.{AreLinks}
use gem_macro_optimization.Pe.Waves.Chains.Once.{waves_of-once}
use gem_macro_optimization.Base.{
  ℕ, zero, suc, ◌≤◌, ◌<◌, true, List, [], ◌∷◌, none, some, ok, contains, ◌≡◌, ◌↔◌, refl, arith,
}
use gem_macro_optimization.Macros.Kind.{carry4, srlc32e}
use gem_macro_optimization.Macros.Inst.{MacroInst}
use gem_macro_optimization.Pe.Blocked.{targets_blocked_by_pending, realized_leaves_of}
use gem_macro_optimization.Pe.Blocked.Exact.{Reads, targets_blocked_by_pending_iff}
use gem_macro_optimization.Tests.Aig.{one_gate, one_gate-IsWellFormed, one_gate-MacroBefore}
use gem_macro_optimization.Aig.{add_aigpin, empty_aig}
use gem_macro_optimization.Aig.{Aig, tie0, input_port, macro}
use gem_macro_optimization.Pe.Waves.{Links, depth_of}
use gem_macro_optimization.Pe.Waves.Relax.{waits_for, raise_loop}
use gem_macro_optimization.Pe.Waves.Relax.Quiet.{IsAbove}
use gem_macro_optimization.Pe.Waves.Relax.Raises.{IsRanked}
use gem_macro_optimization.Pe.Waves.Relax.Ends.{raise_loop-ends, raise_loop-cycle, direct, through}
use gem_macro_optimization.Pe.Waves.Chains.{waves_of, order_macro_waves}
use gem_macro_optimization.Pe.Waves.Chains.Packed.{lanes}
use gem_macro_optimization.Base.Maps.{map_get, map_insert}

abbrev shift_register : ℕ → ℕ → MacroInst
shift_register d_iv q31 = record {
  kind = srlc32e;
  inputs = d_iv ∷ 1 ∷ 0 ∷ 0 ∷ 0 ∷ 0 ∷ 0 ∷ [];
  outputs = 0 ∷ q31 ∷ [];
  clk_en_iv = 1;
}

-- Two shift registers: the Q31 of each is the D of the other.
abbrev ring : Aig
ring = record {
  num_aigpins = 2;
  pin2aigpin_iv = [];
  clock_pin2aigpins = [];
  drivers = tie0 ∷ macro 10 1 ∷ macro 11 1 ∷ [];
  and_gate_cache = [];
  primary_outputs = [];
  dffs = [];
  srams = [];
  macros = (10, shift_register 4 1) ∷ (11, shift_register 2 2) ∷ [];
  stateful_macros = 0 ∷ 1 ∷ [];
  aigpin2macro = (1, 0) ∷ (2, 1) ∷ [];
  fanouts_start = [];
  fanouts = [];
}

ring_runs_on : order_macro_waves ring 40 (1 ∷ 2 ∷ []) [] ≡ ok none
unfolding order_macro_waves map_get map_insert
ring_runs_on = refl

-- A cascade: the Q31 of the first register is the D of the second.
abbrev cascade : Aig
cascade = record ring { macros = (10, shift_register 0 1) ∷ (11, shift_register 2 2) ∷ [] }

cascade_waves : order_macro_waves cascade 40 (1 ∷ 2 ∷ []) [] ≡ ok (some ((0 ∷ []) ∷ (1 ∷ []) ∷ []))
unfolding order_macro_waves map_get map_insert
cascade_waves = refl

abbrev carry : ℕ → List ℕ → List ℕ → MacroInst
carry ci_iv s_iv outputs = record {
  kind = carry4;
  inputs = ci_iv ∷ 0 ∷ 0 ∷ 0 ∷ 0 ∷ 0 ∷ s_iv;
  outputs = outputs;
  clk_en_iv = 1;
}

-- The carry of the second CARRY4 goes on to the third, and the sum bit of the first to the third.
abbrev shifted_sum : Aig
shifted_sum = record {
  num_aigpins = 4;
  pin2aigpin_iv = [];
  clock_pin2aigpins = [];
  drivers = tie0 ∷ input_port 0 ∷ macro 20 0 ∷ macro 21 7 ∷ macro 22 0 ∷ [];
  and_gate_cache = [];
  primary_outputs = [];
  dffs = [];
  srams = [];
  macros =
      (20, carry 0 (2 ∷ 0 ∷ 0 ∷ 0 ∷ []) (2 ∷ 0 ∷ 0 ∷ 0 ∷ 0 ∷ 0 ∷ 0 ∷ 0 ∷ []))
      ∷ (21, carry 0 (0 ∷ 0 ∷ 0 ∷ 2 ∷ []) (0 ∷ 0 ∷ 0 ∷ 0 ∷ 0 ∷ 0 ∷ 0 ∷ 3 ∷ []))
      ∷ (22, carry 6 (4 ∷ 0 ∷ 0 ∷ 0 ∷ []) (4 ∷ 0 ∷ 0 ∷ 0 ∷ 0 ∷ 0 ∷ 0 ∷ 0 ∷ []))
      ∷ [];
  stateful_macros = [];
  aigpin2macro = (2, 0) ∷ (3, 1) ∷ (4, 2) ∷ [];
  fanouts_start = [];
  fanouts = [];
}

-- All three stand in one wave, though the third reads the first.
shifted_sum_one_wave :
    order_macro_waves shifted_sum 40 (4 ∷ []) (1 ∷ []) ≡ ok (some ((0 ∷ 1 ∷ 2 ∷ []) ∷ []))
unfolding order_macro_waves map_get map_insert
shifted_sum_one_wave = refl

abbrev both : List ℕ
both = 0 ∷ 1 ∷ []

abbrev ones : List (ℕ × ℕ)
ones = (0, 1) ∷ (1, 1) ∷ []

first_waits : waits_for cascade both [] 0 ≡ ok []
unfolding waits_for map_get
first_waits = refl

second_waits : waits_for cascade both [] 1 ≡ ok (0 ∷ [])
unfolding waits_for map_get
second_waits = refl

no_third : (m : ℕ) → ¬ (contains both (suc (suc m)) ≡ true)
no_third m h = ground arith

cascade-IsRanked : IsRanked cascade both [] (λ m. m)
cascade-IsRanked zero h = ([], first_waits, λ p is_p. cc)
cascade-IsRanked (suc zero) h = (0 ∷ [], second_waits, below)
  where
    below : (p : ℕ) → contains (0 ∷ []) p ≡ true → p < 1
    below p is_p = ground arith
cascade-IsRanked (suc (suc m)) h = absurd (no_third m h)

raise_loop-ends_example :
    (depth' : List (ℕ × ℕ)) × (raise_loop cascade both [] 4 ones ≡ ok (some depth'))
    × ((m : ℕ) → depth_of ones m ≤ depth_of depth' m)
    × ((m : ℕ) → contains both m ≡ true → IsAbove cascade both [] depth' m)
raise_loop-ends_example =
    raise_loop-ends cascade both [] (λ m. m) 4 ones cascade-IsRanked (omega arith)

ring_first : waits_for ring both [] 0 ≡ ok (1 ∷ [])
unfolding waits_for map_get
ring_first = refl

ring_second : waits_for ring both [] 1 ≡ ok (0 ∷ [])
unfolding waits_for map_get
ring_second = refl

ring_macros : (j : ℕ) → contains both j ≡ true → (ps : List ℕ) × (waits_for ring both [] j ≡ ok ps)
ring_macros zero h = (1 ∷ [], ring_first)
ring_macros (suc zero) h = (0 ∷ [], ring_second)
ring_macros (suc (suc j)) h = absurd (no_third j h)

raise_loop-cycle_example : raise_loop ring both [] 1000 ones ≡ ok none
raise_loop-cycle_example =
    raise_loop-cycle ring both [] 0 ring_macros
      (through 1 (0 ∷ []) 0 (direct (1 ∷ []) 1 refl ring_first refl) refl ring_second refl) 1000
      ones

-- Two chains of depth 1, the second of which is a CARRY4 with a successor, and one of depth 2.
abbrev chain_links : Links
chain_links = record { succ = (1, 2) ∷ []; has_pred = 2 ∷ [] }

abbrev chain_depths : List (ℕ × ℕ)
chain_depths = (0, 1) ∷ (1, 1) ∷ (2, 2) ∷ (3, 2) ∷ []

chain_links-AreLinks : AreLinks chain_links (λ m. m)
unfolding map_get
chain_links-AreLinks = record {
  one_pred = λ a b m e f. ground arith;
  marked = λ a m e. ground arith;
  rising = λ a m e. ground arith;
}

in_order_once : (m : ℕ) → count m (0 ∷ 1 ∷ 2 ∷ 3 ∷ []) ≤ 1
unfolding count
in_order_once m = ground arith

waves_of-once_example : count 2 (lanes (waves_of (0 ∷ 1 ∷ 2 ∷ 3 ∷ []) chain_links chain_depths)) ≡ 1
waves_of-once_example =
    waves_of-once (0 ∷ 1 ∷ 2 ∷ 3 ∷ []) chain_links chain_depths (λ m. m) chain_links-AreLinks
      in_order_once 2 refl

two_waves :
    waves_of (0 ∷ 1 ∷ 2 ∷ 3 ∷ []) chain_links chain_depths ≡ (0 ∷ 1 ∷ 2 ∷ []) ∷ (3 ∷ []) ∷ []
unfolding waves_of map_get
two_waves = refl

-- Pin 3 reads pin 2, which waits for a phase, and pin 1 does not.
targets_blocked_by_pending_iff_example :
    (blocked : List ℕ) × (targets_blocked_by_pending one_gate (3 ∷ 1 ∷ []) (1 ∷ 2 ∷ []) (2 ∷ [])
      ≡ ok blocked)
    × ((p : ℕ)
        → (contains blocked p ≡ true)
          ↔ ((contains (3 ∷ 1 ∷ []) p ≡ true) × Reads one_gate (1 ∷ 2 ∷ []) (2 ∷ []) p))
unfolding add_aigpin empty_aig
targets_blocked_by_pending_iff_example =
    targets_blocked_by_pending_iff one_gate (3 ∷ 1 ∷ []) (1 ∷ 2 ∷ []) (2 ∷ []) one_gate-IsWellFormed
      one_gate-MacroBefore (omega arith, (omega arith, tt))

blocked_run : targets_blocked_by_pending one_gate (3 ∷ 1 ∷ []) (1 ∷ 2 ∷ []) (2 ∷ []) ≡ ok (3 ∷ [])
unfolding targets_blocked_by_pending add_aigpin empty_aig
blocked_run = refl

leaves_run : realized_leaves_of one_gate (3 ∷ []) (1 ∷ []) ≡ ok (1 ∷ [])
unfolding realized_leaves_of add_aigpin empty_aig
leaves_run = refl
