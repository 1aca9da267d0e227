-- ===== src/Staging/Split/Phases.antt =====
-- src/staging.rs: the loops of `from_split`, one after the other.
use gem_macro_optimization.Base.{
  AllBelow-of, ℕ, zero, suc, ◌+◌, ◌≤◌, ◌<◌, true, List, [], ◌∷◌, Option, ok, ◌==◌, ==_iff, length,
  replicate, contains, contains-append, AllBelow, AllBelow-append, AllIn, AllIn-get, ◌≡◌, refl, ap,
  ◌∙◌, inl, inr, Bool-cases, arith,
}
use gem_macro_optimization.Aig.{Aig}
use gem_macro_optimization.Aig.Topo.Order.{IsTopological}
use gem_macro_optimization.Staging.Split.{
  Counts, Fanouts, Active, count_order, count_endpoints, split_order, split_endpoints,
}
use gem_macro_optimization.Staging.Split.Vectors.{at, count}
use gem_macro_optimization.Staging.Split.Ordered.{pins, count_order-ok}
use gem_macro_optimization.Staging.Split.Inputs.{
  AreGiven, all_ins, given-first, given-rest, count_endpoints-ok,
}
use gem_macro_optimization.Staging.Split.Crossing.{
  IsActive, before, later, count-edges, split_order-ok,
}
use gem_macro_optimization.Staging.Split.Kept.{
  kept, kept_ins, left_ins, count-ins, split_endpoints-ok,
}

at-replicate : (n y : ℕ) → at (replicate n 0) y ≡ 0
at-replicate zero y = refl
at-replicate (suc n) zero = refl
at-replicate (suc n) (suc y) = at-replicate n y

length-replicate : (n : ℕ) → length {A = ℕ} (replicate n 0) ≡ n
length-replicate zero = refl
length-replicate (suc n) = ap suc (length-replicate n)

module _ (aig : Aig) (ins : ℕ → List ℕ) where
  pub ins-contains :
      (n m : ℕ) (es : List ℕ) (e p : ℕ)
      → contains es e ≡ true
      → contains (ins e) p ≡ true
      → contains (all_ins aig ins n m es) p ≡ true
  ins-contains n m [] e p h reads = cc
  ins-contains n m (j ∷ es) e p h reads =
      contains-append (ins j) (all_ins aig ins n m es) p ∙ elim (Bool-cases (j == e)) [
        | inl same ↦
            let here = ap (λ t. contains (ins t) p) ((==_iff j e).0 same) ∙ reads in rw here refl
        | inr other ↦
            let rest = ins-contains n m es e p (rw other at h) reads in rw rest (ground arith)
      ]

  pub all-ins-small :
      (n m : ℕ) (es : List ℕ) → AreGiven aig ins n m es → AllBelow n (all_ins aig ins n m es)
  all-ins-small n m [] given = tt
  all-ins-small n m (e ∷ es) given =
      let (_, _, small) = given-first aig ins n m e es given in
      AllBelow-append n (ins e) (all_ins aig ins n m es) (AllBelow-of n (ins e) small)
        (all-ins-small n m es (given-rest aig ins n m e es given))

module _ (aig : Aig) (pi : Option (List ℕ)) (ins : ℕ → List ℕ) (unrealized : List ℕ) (k n m : ℕ)
    (order : List ℕ) where
  abbrev pub zeros : ℕ → List ℕ
  zeros j = replicate j 0

  abbrev pub zero_fanouts : Counts → Fanouts
  zero_fanouts counts = record { num_fanouts = counts.num_fanouts; endpt_level_id = zeros m }

  -- The counts, the levels of pins and endpoints, and what they are.
  pub record Counting : Type 0 where
    pub counts : Counts
    pub fanouts : Fanouts
    pub order_runs :
        count_order aig pi order (record { num_fanouts = zeros n; level_id = zeros n }) ≡ ok counts
    pub endpoints_run :
        count_endpoints aig counts.level_id unrealized (zero_fanouts counts) ≡ ok fanouts
    pub levels_sized : length counts.level_id ≡ n
    pub fanouts_sized : length fanouts.num_fanouts ≡ n
    pub endpoints_sized : length fanouts.endpt_level_id ≡ m
    pub inside :
        (i p : ℕ)
        → contains order i ≡ true
        → contains (pins aig pi i) p ≡ true
        → contains order p ≡ true
    pub rising :
        (i p : ℕ)
        → contains order i ≡ true
        → contains (pins aig pi i) p ≡ true
        → at counts.level_id p < at counts.level_id i
    pub covered :
        (e p : ℕ)
        → contains unrealized e ≡ true
        → contains (ins e) p ≡ true
        → (contains order p ≡ true) × (at counts.level_id p ≤ at fanouts.endpt_level_id e)
    pub least :
        (i b : ℕ)
        → contains order i ≡ true
        → ((p : ℕ) → contains (pins aig pi i) p ≡ true → at counts.level_id p < b)
        → at counts.level_id i ≤ b
    pub endpoint_least :
        (e b : ℕ)
        → ((p : ℕ) → contains (ins e) p ≡ true → at counts.level_id p ≤ b)
        → at fanouts.endpt_level_id e ≤ b
    pub total :
        (y : ℕ)
        → at fanouts.num_fanouts y
          ≡ count y (before aig pi counts.level_id k order)
            + count y (later aig pi counts.level_id k order)
            + (count y (kept_ins ins fanouts.endpt_level_id k unrealized)
                + count y (left_ins ins fanouts.endpt_level_id k unrealized))

  pub counting :
      length aig.drivers ≡ n
      → IsTopological aig pi order
      → ((x : ℕ) → contains order x ≡ true → x < n)
      → AllIn order (all_ins aig ins n m unrealized)
      → AreGiven aig ins n m unrealized
      → Counting
  counting drivers top small asked given =
      let zero_counts : Counts = record { num_fanouts = zeros n; level_id = zeros n } in
      let (counts, counts_run, c) =
        count_order-ok aig pi n zero_counts drivers (length-replicate n) (length-replicate n) top
          small in
      let (fanouts, fanouts_run, f) =
        count_endpoints-ok aig ins n m counts.level_id unrealized (zero_fanouts counts) given
          c.levels_sized c.fanouts_sized (length-replicate m) in
      record {
        counts = counts;
        fanouts = fanouts;
        order_runs = counts_run;
        endpoints_run = fanouts_run;
        levels_sized = c.levels_sized;
        fanouts_sized = f.fanouts_sized;
        endpoints_sized = f.levels_sized;
        inside = c.inside;
        rising = c.above;
        covered = λ e p h reads. (
          AllIn-get order (all_ins aig ins n m unrealized) p asked
              (ins-contains aig ins n m unrealized e p h reads),
          f.above e p h reads,
        );
        least = λ i b h below. c.least i b h (omega (arith, at-replicate n i)) below;
        endpoint_least = λ e b below. f.least e b (omega (arith, at-replicate m e)) below;
        total = λ y. omega (
          arith,
          f.counted y,
          c.counted y,
          at-replicate n y,
          count-edges aig pi counts.level_id k y order,
          count-ins ins fanouts.endpt_level_id k aig n m y unrealized,
        );
      }

  -- The active pins and the endpoints before the split.
  pub record Splitting (c : Counting) : Type 0 where
    pub nodes : Active
    pub done : List ℕ × Active
    pub nodes_run :
        split_order aig pi c.counts.level_id k order
          (record { num_fanouts = c.fanouts.num_fanouts; nodes_at_split = [] })
        ≡ ok nodes
    pub done_run : split_endpoints aig c.fanouts.endpt_level_id k unrealized ([], nodes) ≡ ok done
    pub chosen : done.0 ≡ kept ins c.fanouts.endpt_level_id k unrealized
    pub active : IsActive aig pi c.counts.level_id k order done.1
    pub left :
        (y : ℕ)
        → at done.1.num_fanouts y
          ≡ count y (later aig pi c.counts.level_id k order)
            + count y (left_ins ins c.fanouts.endpt_level_id k unrealized)

  pub splitting :
      (c : Counting)
      → length aig.drivers ≡ n
      → IsTopological aig pi order
      → ((x : ℕ) → contains order x ≡ true → x < n)
      → AreGiven aig ins n m unrealized
      → Splitting c
  splitting c drivers top small given =
      let lv = c.counts.level_id in
      let el = c.fanouts.endpt_level_id in
      let start : Active = record { num_fanouts = c.fanouts.num_fanouts; nodes_at_split = [] } in
      let (nodes, nodes_run, a) =
        split_order-ok aig pi lv k n start drivers c.levels_sized c.fanouts_sized top small c.rising
          (λ y. let all = c.total y in omega arith) in
      let (done, done_run, d) =
        split_endpoints-ok aig pi lv k n m ins el order unrealized [] nodes given c.endpoints_sized
          c.covered (λ y. let all = c.total y in omega (arith, a.falls y)) a.active in
      record {
        nodes = nodes;
        done = done;
        nodes_run = nodes_run;
        done_run = done_run;
        chosen = d.endpoints;
        active = d.active;
        left = λ y. let all = c.total y in omega (arith, a.falls y, d.falls y);
      }
