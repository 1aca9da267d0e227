-- ===== src/Staging/Split/Ordered.antt =====
-- src/staging.rs: the counts and levels of `from_split` over an order and over endpoints.
use gem_macro_optimization.Base.{
  ℕ, ◌+◌, ◌<◌, ◌≤◌, Bool, true, false, List, [], ◌∷◌, ◌++◌, Option, ok, ◌>>=◌, unwrap, ◌==◌, ==_iff,
  if◌then◌else◌, length, get_elem?, contains, contains-append, ◌≡◌, refl, sym, ap, ◌∙◌, inl, inr,
  Bool-cases, Outcome-cases, arith,
}
use gem_macro_optimization.Aig.{Aig, driver}
use gem_macro_optimization.Aig.Topo.{is_staged_input}
use gem_macro_optimization.Aig.Topo.Driver.{DriverIn}
use gem_macro_optimization.Aig.Topo.Order.{IsTopological, IsTopological.done, next}
use gem_macro_optimization.Pe.Blocked.Pins.{get_elem?-driver}
use gem_macro_optimization.Staging.Split.{gate_pins, Counts, count_operands, count_order}
use gem_macro_optimization.Staging.Split.Vectors.{at, count, count-append, count-nil}
use gem_macro_optimization.Staging.Split.Counted.{Operands, count_operands-ok, gate_pins-contains}

true≢false : ◌≡◌ {A = Bool} true false → ⊥
true≢false e = cc

pub mem-left : (xs : List ℕ) (u p : ℕ) → contains xs p ≡ true → contains (xs ++ u ∷ []) p ≡ true
mem-left xs u p h = ground (arith, contains-append xs (u ∷ []) p)

pub mem-last : (xs : List ℕ) (u : ℕ) → contains (xs ++ u ∷ []) u ≡ true
mem-last xs u = ground (arith, contains-append xs (u ∷ []) u)

pub older :
    (xs : List ℕ) (u i : ℕ)
    → (u == i) ≡ false
    → contains (xs ++ u ∷ []) i ≡ true
    → contains xs i ≡ true
older xs u i other h = ground (arith, contains-append xs (u ∷ []) i)

not_fresh :
    (xs : List ℕ) (u p : ℕ) → contains xs u ≡ false → contains xs p ≡ true → (u == p) ≡ false
not_fresh xs u p fresh h = elim (Bool-cases (u == p)) [
  | inl same ↦ absurd (true≢false (sym h ∙ ap (contains xs) (sym ((==_iff u p).0 same)) ∙ fresh))
  | inr other ↦ other
]

module _ (aig : Aig) (pi : Option (List ℕ)) where
  -- The pins that a pin of the order reads as a gate.
  abbrev pub pins : ℕ → List ℕ
  pins i = if is_staged_input pi i then [] else gate_pins (driver aig i)

  abbrev pub edges : List ℕ → List ℕ
  edges [] = []
  edges (i ∷ is) = pins i ++ edges is

  pub count-edges-last :
      (y u : ℕ) (xs : List ℕ)
      → count y (edges (xs ++ u ∷ [])) ≡ count y (edges xs) + count y (pins u)
  count-edges-last y u [] = omega (arith, count-append y (pins u) [], count-nil y)
  count-edges-last y u (x ∷ xs) = omega (
    arith,
    count-append y (pins x) (edges (xs ++ u ∷ [])),
    count-append y (pins x) (edges xs),
    count-edges-last y u xs,
  )

  order-last :
      (xs : List ℕ) (u : ℕ) (s : Counts)
      → count_order aig pi (xs ++ u ∷ []) s
        ≡ (count_order aig pi xs s >>= λ t. count_order aig pi (u ∷ []) t)
  unfolding count_order
  order-last [] u s = refl
  order-last (x ∷ xs) u s = elim (Bool-cases (is_staged_input pi x)) [
    | inl staged ↦ rw (staged, count_order) (order-last xs u s)
    | inr inner ↦ elim (Outcome-cases (unwrap (get_elem? aig.drivers x))) [
      | inl missing ↦ rw (inner, count_order) (rw missing refl)
      | inr (d, found) ↦ elim (Outcome-cases (count_operands x (gate_pins d) s)) [
        | inl stops ↦ rw (inner, count_order) (rw found (rw stops refl))
        | inr (t, runs) ↦ rw (inner, count_order) (rw found (rw runs (order-last xs u t)))
      ]
    ]
  ]

  -- What the loop over an order leaves: the counts of its edges, and levels that rise along them.
  pub record IsCounted (n : ℕ) (order : List ℕ) (s s' : Counts) : Type 0 where
    pub fanouts_sized : length s'.num_fanouts ≡ n
    pub levels_sized : length s'.level_id ≡ n
    pub counted : (y : ℕ) → at s'.num_fanouts y ≡ at s.num_fanouts y + count y (edges order)
    pub inside :
        (i p : ℕ) → contains order i ≡ true → contains (pins i) p ≡ true → contains order p ≡ true
    pub above :
        (i p : ℕ)
        → contains order i ≡ true
        → contains (pins i) p ≡ true
        → at s'.level_id p < at s'.level_id i
    pub others : (i : ℕ) → contains order i ≡ false → at s'.level_id i ≡ at s.level_id i
    pub least :
        (i b : ℕ)
        → contains order i ≡ true
        → at s.level_id i ≤ b
        → ((p : ℕ) → contains (pins i) p ≡ true → at s'.level_id p < b)
        → at s'.level_id i ≤ b

  pub pins-inside :
      (xs : List ℕ) (u : ℕ)
      → (is_staged_input pi u ≡ false → DriverIn aig xs (driver aig u))
      → (p : ℕ) → contains (pins u) p ≡ true
      → contains xs p ≡ true
  pins-inside xs u drivers_in p h = elim (Bool-cases (is_staged_input pi u)) [
    | inl staged ↦ absurd (true≢false (sym (rw staged at h)))
    | inr inner ↦ gate_pins-contains aig xs (driver aig u) p (drivers_in inner) (rw inner at h)
  ]

  count_pin :
      (n u : ℕ) (xs : List ℕ) (t : Counts)
      → length aig.drivers ≡ n
      → u < n
      → length t.num_fanouts ≡ n
      → length t.level_id ≡ n
      → contains xs u ≡ false
      → ((p : ℕ) → contains xs p ≡ true → p < n)
      → ((p : ℕ) → contains (pins u) p ≡ true → contains xs p ≡ true)
      → (r : Counts) × (count_order aig pi (u ∷ []) t ≡ ok r) × Operands u (pins u) t r
  unfolding count_order
  count_pin n u xs t drivers lt sized_f sized_l fresh small listed =
      elim (Bool-cases (is_staged_input pi u)) [
        | inl staged ↦ (
          t,
          rw (staged, count_order) refl,
          rw staged (record {
            fanouts_sized = refl;
            levels_sized = refl;
            counted = λ y. omega (arith, count-nil y);
            others = λ y other. refl;
            grows = omega arith;
            above = λ p h. cc;
            least = λ b low below. low;
          }),
        )
        | inr inner ↦
            let gate = gate_pins (driver aig u) in
            let reads : (p : ℕ) → contains gate p ≡ true → contains xs p ≡ true =
              λ p h. listed p (rw inner h) in
            let apart : contains gate u ≡ false = elim (Bool-cases (contains gate u)) [
              | inl loop ↦ absurd (true≢false (sym (reads u loop) ∙ fresh))
              | inr none ↦ none
            ] in
            let (r, runs, o) =
              count_operands-ok u gate t (omega arith) apart
                (λ p h. let small_p = small p (reads p h) in (omega arith, omega arith)) in
            let found = get_elem?-driver aig.drivers u (omega arith) in
            (r, rw (inner, count_order) (rw found (rw runs refl)), rw inner o)
      ]

  pub count_order-ok :
      (n : ℕ) (s : Counts)
      → length aig.drivers ≡ n
      → length s.num_fanouts ≡ n
      → length s.level_id ≡ n
      → {order : List ℕ} → IsTopological aig pi order
      → ((x : ℕ) → contains order x ≡ true → x < n)
      → (s' : Counts) × (count_order aig pi order s ≡ ok s') × IsCounted n order s s'
  unfolding count_order
  count_order-ok n s drivers sized_f sized_l done small = (
    s,
    refl,
    record {
      fanouts_sized = sized_f;
      levels_sized = sized_l;
      counted = λ y. omega (arith, count-nil y);
      inside = λ i p h k. cc;
      above = λ i p h k. cc;
      others = λ i out. refl;
      least = λ i b h low below. cc;
    },
  )
  count_order-ok n s drivers sized_f sized_l (next xs u top fresh drivers_in) small =
      let within : (p : ℕ) → contains xs p ≡ true → p < n = λ p h. small p (mem-left xs u p h) in
      let lt = small u (mem-last xs u) in
      let (t, runs, c) = count_order-ok n s drivers sized_f sized_l top within in
      let listed = pins-inside xs u drivers_in in
      let (r, runs_u, o) =
        count_pin n u xs t drivers lt c.fanouts_sized c.levels_sized fresh within listed in
      (
        r,
        order-last xs u s ∙ rw runs runs_u,
        record {
          fanouts_sized = o.fanouts_sized ∙ c.fanouts_sized;
          levels_sized = o.levels_sized ∙ c.levels_sized;
          counted = λ y. omega (arith, o.counted y, c.counted y, count-edges-last y u xs);
          inside = λ i p h k. elim (Bool-cases (u == i)) [
            | inl same ↦
                mem-left xs u p (listed p (ap (λ t. contains (pins t) p) ((==_iff u i).0 same) ∙ k))
            | inr other ↦ mem-left xs u p (c.inside i p (older xs u i other h) k)
          ];
          above = λ i p h k. elim (Bool-cases (u == i)) [
            | inl same ↦
                let e = (==_iff u i).0 same in
                let less = o.above p (ap (λ t. contains (pins t) p) e ∙ k) in
                omega (arith, less, ap (at r.level_id) e)
            | inr other ↦
                let old = older xs u i other h in
                let less = c.above i p old k in
                let at_i = o.others i other in
                let at_p = o.others p (not_fresh xs u p fresh (c.inside i p old k)) in
                omega (arith, less, at_i, at_p)
          ];
          others = λ i out.
              let apart : (u == i) ≡ false = ground (arith, contains-append xs (u ∷ []) i) in
              let old : contains xs i ≡ false = ground (arith, contains-append xs (u ∷ []) i) in
              o.others i apart ∙ c.others i old;
          least = λ i b h low below. elim (Bool-cases (u == i)) [
            | inl same ↦
                let e = (==_iff u i).0 same in
                let start = c.others u fresh in
                let bound = o.least b (omega (arith, start, low, ap (at s.level_id) e)) (λ p h_p.
                  let at_p = o.others p (not_fresh xs u p fresh (listed p h_p)) in
                  let less = below p (ap (λ t. contains (pins t) p) (sym e) ∙ h_p) in
                  omega (arith, at_p, less)) in
                omega (arith, bound, ap (at r.level_id) e)
            | inr other ↦
                let old = older xs u i other h in
                let bound = c.least i b old low (λ p h_p.
                  let at_p = o.others p (not_fresh xs u p fresh (c.inside i p old h_p)) in
                  omega (arith, at_p, below p h_p)) in
                omega (arith, bound, o.others i other)
          ];
        },
      )
