-- ===== src/Staging/Split/Saved.antt =====
-- src/staging.rs: what a stage of `from_split` realizes and saves.
use gem_macro_optimization.Base.{
  ℕ, ◌+◌, ◌≤◌, ◌<◌, true, false, List, [], ◌∷◌, Option, some, ok, ◌==◌, ==_iff, length, contains,
  ◌≡◌, refl, sym, ap, ◌∙◌, inl, inr, Bool-cases, arith,
}
use gem_macro_optimization.Base.{◌≢◌, ◌↔◌, ◌⊎◌, ◌/◌, ltb}
use gem_macro_optimization.Aig.{
  Aig, DriverType, driver, and_gate, input_port, input_clock_flag, dff, sram, macro, tie0,
}
use gem_macro_optimization.Aig.Reads.{operands_iff}
use gem_macro_optimization.Macros.Inst.{call_nz}
use gem_macro_optimization.Staging.Split.{gate_pins}
use gem_macro_optimization.Aig.Meaning.{IsWellFormed}
use gem_macro_optimization.Aig.Endpoints.{num_endpoint_groups}
use gem_macro_optimization.Aig.Topo.{is_staged_input, topo_traverse_generic}
use gem_macro_optimization.Aig.Topo.Order.{traverse-bounded}
use gem_macro_optimization.Aig.Topo.Layered.{MacroBefore, IsWellFormed-IsLayered}
use gem_macro_optimization.Staging.{StagedAig}
use gem_macro_optimization.Staging.Split.{all_inputs, not_staged, from_split}
use gem_macro_optimization.Staging.Split.Vectors.{at}
use gem_macro_optimization.Staging.Split.Ordered.{pins}
use gem_macro_optimization.Staging.Split.Inputs.{AreGiven, all_ins, all_inputs-ok}
use gem_macro_optimization.Staging.Split.Crossing.{later-pos}
use gem_macro_optimization.Staging.Split.Kept.{kept, left-pos, kept-contains, kept-has}
use gem_macro_optimization.Staging.Split.Phases.{
  Counting, counting, Splitting, splitting, all-ins-small,
}

not_staged-contains :
    (pi : Option (List ℕ)) (pos : List ℕ) (p : ℕ)
    → contains pos p ≡ true
    → is_staged_input pi p ≡ false
    → contains (not_staged pi pos) p ≡ true
not_staged-contains pi [] p h inner = cc
not_staged-contains pi (po ∷ pos) p h inner = elim (Bool-cases (po == p)) [
  | inl same ↦
      let e = (==_iff po p).0 same in
      let inner' : is_staged_input pi po ≡ false = ap (is_staged_input pi) e ∙ inner in
      rw inner' (rw same refl)
  | inr other ↦
      let rest = not_staged-contains pi pos p (rw other at h) inner in
      elim (Bool-cases (is_staged_input pi po)) [
        | inl staged ↦ rw staged rest
        | inr inner' ↦ rw inner' (rw other rest)
      ]
]

-- A gate reads its operands, unless it is an input of the stage.
abbrev pub IsOperand : DriverType → ℕ → Type 0
IsOperand (and_gate a b) p = (p ≢ 0) × ((a / 2 ≡ p) ⊎ (b / 2 ≡ p))
IsOperand _ p = ⊥

abbrev pub ReadsOperand : Aig → Option (List ℕ) → ℕ → ℕ → Type 0
ReadsOperand aig pi i p = (is_staged_input pi i ≡ false) × IsOperand (driver aig i) p

gate_pins-call_nz : (a b : ℕ) → gate_pins (and_gate a b) ≡ call_nz a (call_nz b [])
gate_pins-call_nz a b =
    let same_a : ltb a 2 ≡ (a / 2 == 0) = ground arith in
    let same_b : ltb b 2 ≡ (b / 2 == 0) = ground arith in rw (same_a, same_b) refl

gate_pins_iff :
    (aig : Aig) (d : DriverType) (p : ℕ) → (contains (gate_pins d) p ≡ true) ↔ IsOperand d p
gate_pins_iff aig (and_gate a b) p = rw (gate_pins-call_nz a b) (operands_iff aig a b p)
gate_pins_iff aig (macro cellid slot) p = (λ h. cc, λ h. absurd h)
gate_pins_iff aig (input_port i) p = (λ h. cc, λ h. absurd h)
gate_pins_iff aig (input_clock_flag i c) p = (λ h. cc, λ h. absurd h)
gate_pins_iff aig (dff i) p = (λ h. cc, λ h. absurd h)
gate_pins_iff aig (sram i) p = (λ h. cc, λ h. absurd h)
gate_pins_iff aig tie0 p = (λ h. cc, λ h. absurd h)

pins_iff :
    (aig : Aig) (pi : Option (List ℕ)) (i p : ℕ)
    → (contains (pins aig pi i) p ≡ true) ↔ ReadsOperand aig pi i p
pins_iff aig pi i p = elim (Bool-cases (is_staged_input pi i)) [
  | inl staged ↦ rw staged (λ h. cc, λ h. let bad = h.0 in cc)
  | inr inner ↦
      let gate = gate_pins_iff aig (driver aig i) p in
      rw inner (λ h. (refl, gate.0 h), λ h. gate.1 h.1)
]

module _ (aig : Aig) (pi : Option (List ℕ)) (ins : ℕ → List ℕ) (unrealized : List ℕ) (k : ℕ) where
  -- The order and the levels that a stage is cut by, and what it saves for the next: the pins at or
  -- below the split that a gate above it or an endpoint that is left reads.
  pub record IsSplit (order : List ℕ) (level : ℕ → ℕ) (staged : StagedAig) : Type 0 where
    pub same_inputs : staged.primary_inputs ≡ pi
    pub rising : (i p : ℕ) → contains order i ≡ true → ReadsOperand aig pi i p → level p < level i
    pub least :
        (i b : ℕ)
        → contains order i ≡ true
        → ((p : ℕ) → ReadsOperand aig pi i p → level p < b)
        → level i ≤ b
    pub closed :
        (i p : ℕ) → contains order i ≡ true → ReadsOperand aig pi i p → contains order p ≡ true
    pub asked :
        (e p : ℕ)
        → contains unrealized e ≡ true
        → contains (ins e) p ≡ true
        → contains order p ≡ true
    pub before_split :
        (e : ℕ)
        → contains unrealized e ≡ true
        → ((p : ℕ) → contains (ins e) p ≡ true → level p ≤ k)
        → contains staged.endpoints e ≡ true
    pub realized :
        (e p : ℕ)
        → contains staged.endpoints e ≡ true
        → contains (ins e) p ≡ true
        → (contains unrealized e ≡ true) × (contains order p ≡ true) × (level p ≤ k)
    pub saved_for_gate :
        (i p : ℕ)
        → contains order i ≡ true
        → k < level i
        → ReadsOperand aig pi i p
        → level p ≤ k
        → is_staged_input pi p ≡ false
        → contains staged.primary_output_pins p ≡ true
    pub saved_for_endpoint :
        (e p : ℕ)
        → contains unrealized e ≡ true
        → contains staged.endpoints e ≡ false
        → contains (ins e) p ≡ true
        → level p ≤ k
        → is_staged_input pi p ≡ false
        → contains staged.primary_output_pins p ≡ true

module _ (aig : Aig) (pi : Option (List ℕ)) (ins : ℕ → List ℕ) (unrealized : List ℕ) (k n m : ℕ)
    (order : List ℕ) where
  abbrev stage_of :
      (c : Counting aig pi ins unrealized k n m order)
      → Splitting aig pi ins unrealized k n m order c
      → StagedAig
  stage_of c s = record {
    primary_inputs = pi;
    primary_output_pins = not_staged pi s.done.1.nodes_at_split;
    endpoints = s.done.0;
  }

  stage-IsSplit :
      (c : Counting aig pi ins unrealized k n m order)
      (s : Splitting aig pi ins unrealized k n m order c)
      → IsSplit aig pi ins unrealized k order (at c.counts.level_id) (stage_of c s)
  stage-IsSplit c s =
      let lv = c.counts.level_id in
      let el = c.fanouts.endpt_level_id in
      let same : (e : ℕ) → contains s.done.0 e ≡ contains (kept ins el k unrealized) e =
        λ e. ap (λ t. contains t e) s.chosen in
      record {
        same_inputs = refl;
        rising = λ i p h reads. c.rising i p h ((pins_iff aig pi i p).1 reads);
        least = λ i b h below. c.least i b h (λ p reads. below p ((pins_iff aig pi i p).0 reads));
        closed = λ i p h reads. c.inside i p h ((pins_iff aig pi i p).1 reads);
        asked = λ e p h reads. (c.covered e p h reads).0;
        before_split =
            λ e h low. same e ∙ kept-has ins el k unrealized e h (c.endpoint_least e k low);
        realized = λ e p h reads.
            let (listed, low) = kept-contains ins el k unrealized e (sym (same e) ∙ h) in
            let (inside, below) = c.covered e p listed reads in (listed, inside, omega arith);
        saved_for_gate = λ i p is_in above operand low inner.
            let reads = (pins_iff aig pi i p).1 operand in
            let readers = later-pos aig pi lv k order i p is_in above reads in
            let demand = s.left p in
            not_staged-contains pi s.done.1.nodes_at_split p
              (s.active p (c.inside i p is_in reads) low (omega arith)) inner;
        saved_for_endpoint = λ e p is_in not_kept reads low inner.
            let readers = left-pos ins el k unrealized e p is_in (sym (same e) ∙ not_kept) reads in
            let (inside, _) = c.covered e p is_in reads in
            let demand = s.left p in
            not_staged-contains pi s.done.1.nodes_at_split p (s.active p inside low (omega arith))
              inner;
      }

returns :
    (aig : Aig) (pi : Option (List ℕ)) (ins : ℕ → List ℕ) (unrealized : List ℕ) (k : ℕ)
    (order nodes : List ℕ)
    (c : Counting aig pi ins unrealized k (aig.num_aigpins + 1) (num_endpoint_groups aig) order)
    (s : Splitting aig pi ins unrealized k (aig.num_aigpins + 1) (num_endpoint_groups aig) order c)
    → all_inputs aig unrealized ≡ ok nodes
    → (length nodes == 0) ≡ false
    → topo_traverse_generic aig (some nodes) pi ≡ ok order
    → from_split aig unrealized pi k
      ≡ ok (
          stage_of aig pi ins unrealized k
            (aig.num_aigpins + 1)
            (num_endpoint_groups aig)
            order
            c
            s)
unfolding from_split
returns aig pi ins unrealized k order nodes c s collects some_nodes sorts =
    rw (from_split, collects)
      (rw some_nodes
        (rw sorts (rw c.order_runs (rw c.endpoints_run (rw s.nodes_run (rw s.done_run refl))))))

-- Of a well-formed graph in which a pin driven by a macro has an instance and comes after the
-- fan-in of the macro's output, and of endpoints that exist, whose inputs are pins of the graph and
-- which have an input at all, the split at a level returns a stage: none of its assertions fails.
-- The stage goes by an order of pins that has the inputs of all endpoints and, with a gate, its
-- operands, and by the levels of these pins: the level of a pin is the least above those of the
-- operands that it reads. It keeps exactly the endpoints that were asked for and whose inputs lie
-- at or below the split, and, unless they are inputs of the stage already, it saves all pins at or below the split that a
-- gate above it or an endpoint that is left reads.
pub from_split-IsSplit :
    (aig : Aig) (pi : Option (List ℕ)) (ins : ℕ → List ℕ) (unrealized : List ℕ) (k : ℕ)
    → IsWellFormed aig
    → ((u : ℕ) → u ≤ aig.num_aigpins → MacroBefore aig u (driver aig u))
    → AreGiven aig ins (aig.num_aigpins + 1) (num_endpoint_groups aig) unrealized
    → 0 < length (all_ins aig ins (aig.num_aigpins + 1) (num_endpoint_groups aig) unrealized)
    → (staged : StagedAig) × (from_split aig unrealized pi k ≡ ok staged)
      × ((order : List ℕ) × ((level : ℕ → ℕ) × IsSplit aig pi ins unrealized k order level staged))
from_split-IsSplit aig pi ins unrealized k wf macros given has_inputs =
    let n = aig.num_aigpins + 1 in
    let m = num_endpoint_groups aig in
    let nodes = all_ins aig ins n m unrealized in
    let collects = all_inputs-ok aig ins n m unrealized given in
    let some_nodes : (length nodes == 0) ≡ false = ground arith in
    let fits = all-ins-small aig ins n m unrealized given in
    let (order, sorts, top, asked, bounded) =
      traverse-bounded aig (some nodes) pi (IsWellFormed-IsLayered aig pi wf macros) fits in
    let small : (x : ℕ) → contains order x ≡ true → x < n =
      λ x h. let le = bounded x h in omega arith in
    let c = counting aig pi ins unrealized k n m order wf.sized top small asked given in
    let s = splitting aig pi ins unrealized k n m order c wf.sized top small given in
    (
      stage_of aig pi ins unrealized k n m order c s,
      returns aig pi ins unrealized k order nodes c s collects some_nodes sorts,
      (order, (at c.counts.level_id, stage-IsSplit aig pi ins unrealized k n m order c s)),
    )
