-- ===== src/Pe/Blocked/Exact.antt =====
-- src/pe.rs: which targets are held back, against the cones of the targets.
use gem_macro_optimization.Base.{
  ℕ, ◌+◌, ◌≤◌, ◌<◌, true, false, List, [], ◌∷◌, ◌++◌, some, ok, ◌>>=◌, ◌==◌, ==_iff, length,
  contains, contains-append, contains-set_insert, set_insert, AllBelow, AllIn-get, ◌≡◌, ◌↔◌, refl,
  sym, ap, ◌∙◌, ◌⊎◌, inl, inr, Bool-cases, Outcome-cases, arith,
}
use gem_macro_optimization.Aig.{Aig, driver}
use gem_macro_optimization.Aig.Meaning.{IsWellFormed}
use gem_macro_optimization.Aig.Topo.Driver.{DriverIn}
use gem_macro_optimization.Aig.Topo.Order.{
  IsTopological, IsTopological.done, next, traverse-bounded,
}
use gem_macro_optimization.Aig.Topo.Layered.{MacroBefore, IsWellFormed-IsLayered}
use gem_macro_optimization.Aig.Reads.{ReadsPin}
use gem_macro_optimization.Pe.Blocked.{
  any_tainted, read_pins, taint_round, taint_sweep, filter_in, targets_blocked_by_pending,
}
use gem_macro_optimization.Pe.Blocked.Pins.{
  true≢false, any_tainted-finds, any_tainted-true, read_pins-AllIn, read_pins_iff, get_elem?-driver,
}

module _ (aig : Aig) (realized_inputs pending : List ℕ) where
  -- The cone of a pin reads an output that no phase has produced, without passing through a pin that
  -- is realized.
  pub data Reads : ℕ → Type 0 where
    waiting : (pin : ℕ) → contains pending pin ≡ true → Reads pin
    reads :
        (pin q : ℕ)
        → contains realized_inputs pin ≡ false
        → ReadsPin aig (driver aig pin) q
        → Reads q
        → Reads pin

  Reads-cases :
      {pin : ℕ}
      → Reads pin
      → (contains pending pin ≡ true)
        ⊎ ((contains realized_inputs pin ≡ false)
            × ((q : ℕ) × ReadsPin aig (driver aig pin) q × Reads q))
  Reads-cases (waiting pin h) = inl h
  Reads-cases (reads pin q inner listed r) = inr (inner, (q, listed, r))

  record IsExact (xs taint : List ℕ) : Type 0 where
    exact : (p : ℕ) → contains xs p ≡ true → (contains taint p ≡ true) ↔ Reads p
    only : (p : ℕ) → contains taint p ≡ true → contains xs p ≡ true

  -- What a pin's round gives.
  record Rounds (taint : List ℕ) (u : ℕ) (taint' : List ℕ) : Type 0 where
    here : (contains taint' u ≡ true) ↔ Reads u
    elsewhere : (x : ℕ) → (u == x) ≡ false → contains taint' x ≡ contains taint x

  taint_round-Rounds :
      (xs taint : List ℕ) (u : ℕ)
      → IsExact xs taint
      → contains xs u ≡ false
      → (contains realized_inputs u ≡ false → DriverIn aig xs (driver aig u))
      → u < length aig.drivers
      → (taint' : List ℕ) × (taint_round aig realized_inputs pending taint u ≡ ok taint')
        × Rounds taint u taint'
  unfolding taint_round
  taint_round-Rounds xs taint u inv fresh drivers_in lt =
      let added : contains (set_insert taint u) u ≡ true =
        contains-set_insert taint u u ∙ ground arith in
      let apart : (x : ℕ) → (u == x) ≡ false → contains (set_insert taint u) x ≡ contains taint x =
        λ x other. contains-set_insert taint u x ∙ rw other (ground arith) in
      let absent : contains taint u ≡ true → ⊥ = λ h. true≢false (sym (inv.only u h) ∙ fresh) in
      elim (Bool-cases (contains pending u)) [
        | inl now ↦ (
          set_insert taint u,
          rw now refl,
          record { here = (λ h. waiting u now, λ r. added); elsewhere = apart },
        )
        | inr later ↦ elim (Bool-cases (contains realized_inputs u)) [
          | inl stops ↦ (
            taint,
            rw (later, stops) refl,
            record {
              here = (
                λ h. absurd (absent h),
                λ r. elim (Reads-cases r) [
                  | inl now ↦ absurd (true≢false (sym now ∙ later))
                  | inr (inner, _) ↦ absurd (true≢false (sym stops ∙ inner))
                ],
              );
              elsewhere = λ x other. refl;
            },
          )
          | inr inner ↦
              let pins = read_pins aig (driver aig u) in
              let listed = read_pins-AllIn aig xs (driver aig u) (drivers_in inner) in
              let found = get_elem?-driver aig.drivers u lt in
              elim (Bool-cases (any_tainted taint pins)) [
                | inl some_tainted ↦
                    let (q, is_pin, tainted) = any_tainted-finds taint pins some_tainted in
                    let read = (inv.exact q (AllIn-get xs pins q listed is_pin)).0 tainted in
                    (
                      set_insert taint u,
                      rw (later, inner, found, some_tainted) refl,
                      record {
                        here = (
                          λ h. reads u q inner ((read_pins_iff aig (driver aig u) q).0 is_pin) read,
                          λ r. added,
                        );
                        elsewhere = apart;
                      },
                    )
                | inr none_tainted ↦ (
                  taint,
                  rw (later, inner, found, none_tainted) refl,
                  record {
                    here = (
                      λ h. absurd (absent h),
                      λ r. elim (Reads-cases r) [
                        | inl now ↦ absurd (true≢false (sym now ∙ later))
                        | inr (_, (q, reads_q, read)) ↦
                            let is_pin = (read_pins_iff aig (driver aig u) q).1 reads_q in
                            let tainted =
                              (inv.exact q (AllIn-get xs pins q listed is_pin)).1 read in
                            absurd (
                              true≢false
                                (sym (any_tainted-true taint pins q is_pin tainted) ∙ none_tainted))
                      ],
                    );
                    elsewhere = λ x other. refl;
                  },
                )
              ]
        ]
      ]

  IsExact-round :
      (xs taint taint' : List ℕ) (u : ℕ)
      → IsExact xs taint
      → Rounds taint u taint'
      → IsExact (xs ++ u ∷ []) taint'
  IsExact-round xs taint taint' u inv r = record {
    exact = λ p h. elim (Bool-cases (u == p)) [
      | inl same ↦ rw (← (==_iff u p).0 same) r.here
      | inr other ↦
          let old : contains xs p ≡ true = ground (arith, contains-append xs (u ∷ []) p) in
          rw (r.elsewhere p other) (inv.exact p old)
    ];
    only = λ p h. elim (Bool-cases (u == p)) [
      | inl same ↦ contains-append xs (u ∷ []) p ∙ rw same (ground arith)
      | inr other ↦
          let old = inv.only p (sym (r.elsewhere p other) ∙ h) in
          contains-append xs (u ∷ []) p ∙ rw old refl
    ];
  }

  sweep-last :
      (xs : List ℕ) (u : ℕ) (taint : List ℕ)
      → taint_sweep aig realized_inputs pending taint (xs ++ u ∷ []) ≡ (
          taint_sweep aig realized_inputs pending taint xs >>= λ t.
          taint_round aig realized_inputs pending t u)
  unfolding taint_sweep
  sweep-last [] u taint = elim (Outcome-cases (taint_round aig realized_inputs pending taint u)) [
    | inl stops ↦ rw (taint_sweep, stops) refl
    | inr (t, runs) ↦ rw (taint_sweep, runs) refl
  ]
  sweep-last (x ∷ xs) u taint =
      elim (Outcome-cases (taint_round aig realized_inputs pending taint x)) [
        | inl stops ↦ rw (taint_sweep, stops) refl
        | inr (t, runs) ↦ rw (taint_sweep, runs) (sweep-last xs u t)
      ]

  sweep-IsExact :
      {order : List ℕ}
      → IsTopological aig (some realized_inputs) order
      → ((x : ℕ) → contains order x ≡ true → x < length aig.drivers)
      → (taint : List ℕ) × (taint_sweep aig realized_inputs pending [] order ≡ ok taint)
        × IsExact order taint
  unfolding taint_sweep
  sweep-IsExact done inside = ([], refl, record { exact = λ p h. cc; only = λ p h. cc })
  sweep-IsExact (next xs u top fresh drivers_in) inside =
      let (taint, runs, inv) =
        sweep-IsExact top (λ x h. inside x (contains-append xs (u ∷ []) x ∙ rw h refl)) in
      let lt = inside u (contains-append xs (u ∷ []) u ∙ ground arith) in
      let (taint', runs', r) = taint_round-Rounds xs taint u inv fresh drivers_in lt in
      (taint', sweep-last xs u [] ∙ rw runs runs', IsExact-round xs taint taint' u inv r)

contains-filter_in :
    (set ps : List ℕ) (p : ℕ)
    → (contains (filter_in set ps) p ≡ true) ↔ ((contains ps p ≡ true) × (contains set p ≡ true))
unfolding filter_in
contains-filter_in set [] p = ((λ h. absurd (true≢false (sym h))), λ h. h.0)
contains-filter_in set (q ∷ ps) p = elim (Bool-cases (q == p)) [
  | inl same ↦
      let e = (==_iff q p).0 same in
      let at = ap (contains set) e in ground (arith, contains-filter_in set ps p)
  | inr other ↦ ground (arith, contains-filter_in set ps p)
]

no-Reads : (aig : Aig) (realized_inputs : List ℕ) {p : ℕ} → Reads aig realized_inputs [] p → ⊥
no-Reads aig realized_inputs (waiting pin h) = true≢false (sym h)
no-Reads aig realized_inputs (reads pin q inner listed r) = no-Reads aig realized_inputs r

-- On a well-formed graph in which a pin driven by a macro has an instance and comes after the
-- fan-in of the macro's output, the search for blocked targets returns, and it gives exactly the
-- targets whose cone reads a pending output without passing through a pin that is realized.
pub targets_blocked_by_pending_iff :
    (aig : Aig) (targets realized_inputs pending : List ℕ)
    → IsWellFormed aig
    → ((u : ℕ) → u ≤ aig.num_aigpins → MacroBefore aig u (driver aig u))
    → AllBelow (aig.num_aigpins + 1) targets
    → (blocked : List ℕ) × (targets_blocked_by_pending aig targets realized_inputs pending
        ≡ ok blocked)
      × ((p : ℕ)
          → (contains blocked p ≡ true)
            ↔ ((contains targets p ≡ true) × Reads aig realized_inputs pending p))
unfolding targets_blocked_by_pending
targets_blocked_by_pending_iff aig targets realized_inputs [] wf macros below = (
  [],
  refl,
  λ p. ((λ h. absurd (true≢false (sym h))), λ h. absurd (no-Reads aig realized_inputs h.1)),
)
targets_blocked_by_pending_iff aig targets realized_inputs (w ∷ ws) wf macros below =
    let layered = IsWellFormed-IsLayered aig (some realized_inputs) wf macros in
    let (order, runs, top, asked, bounded) =
      traverse-bounded aig (some targets) (some realized_inputs) layered below in
    let sized = wf.sized in
    let (taint, sweeps, inv) =
      sweep-IsExact aig realized_inputs (w ∷ ws) top (λ x h. let le = bounded x h in omega arith) in
    (
      filter_in taint targets,
      rw (targets_blocked_by_pending, runs, sweeps) refl,
      λ p.
          let kept = contains-filter_in taint targets p in
          (
            λ h.
                let (is_target, tainted) = kept.0 h in
                (is_target, (inv.exact p (AllIn-get order targets p asked is_target)).0 tainted),
            λ h. kept.1 (h.0, (inv.exact p (AllIn-get order targets p asked h.0)).1 h.1),
          ),
    )
