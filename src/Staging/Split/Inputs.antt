-- ===== src/Staging/Split/Inputs.antt =====
-- src/staging.rs: the counts and levels of `from_split` over the inputs of the endpoints.
use gem_macro_optimization.Base.{
  ℕ, ◌+◌, ◌≤◌, ◌<◌, true, false, List, [], ◌∷◌, ◌++◌, ok, ◌==◌, ==_iff, length, contains, ◌≡◌, refl,
  ap, sym, ◌∙◌, inl, inr, Bool-cases, arith,
}
use gem_macro_optimization.Base.Stores.{get_elem?-get_or}
use gem_macro_optimization.Aig.{Aig}
use gem_macro_optimization.Staging.Split.{
  Fanouts, count_inputs, count_endpoints, endpoint_inputs, all_inputs,
}
use gem_macro_optimization.Staging.Split.Vectors.{
  at, count, count-append, count-nil, count_up-ok, store_max-ok,
}

-- What counting the inputs of endpoint `e` does.
record Inputs (lv : List ℕ) (e : ℕ) (is : List ℕ) (s s' : Fanouts) : Type 0 where
  fanouts_sized : length s'.num_fanouts ≡ length s.num_fanouts
  levels_sized : length s'.endpt_level_id ≡ length s.endpt_level_id
  counted : (y : ℕ) → at s'.num_fanouts y ≡ at s.num_fanouts y + count y is
  grows : (y : ℕ) → at s.endpt_level_id y ≤ at s'.endpt_level_id y
  above : (p : ℕ) → contains is p ≡ true → at lv p ≤ at s'.endpt_level_id e
  others : (y : ℕ) → (e == y) ≡ false → at s'.endpt_level_id y ≡ at s.endpt_level_id y
  least :
      (b : ℕ)
      → at s.endpt_level_id e ≤ b
      → ((p : ℕ) → contains is p ≡ true → at lv p ≤ b)
      → at s'.endpt_level_id e ≤ b

count_inputs-ok :
    (lv : List ℕ) (e : ℕ) (is : List ℕ) (s : Fanouts)
    → e < length s.endpt_level_id
    → ((p : ℕ) → contains is p ≡ true → (p < length s.num_fanouts) × (p < length lv))
    → (s' : Fanouts) × (count_inputs lv e is s ≡ ok s') × Inputs lv e is s s'
unfolding count_inputs
count_inputs-ok lv e [] s lt inside = (
  s,
  refl,
  record {
    fanouts_sized = refl;
    levels_sized = refl;
    counted = λ y. omega (arith, count-nil y);
    grows = λ y. omega arith;
    above = λ p h. cc;
    others = λ y other. refl;
    least = λ b low below. low;
  },
)
count_inputs-ok lv e (x ∷ is) s lt inside =
    let self : (x == x) ≡ true = ground arith in
    let (lt_f, lt_l) = inside x (rw self refl) in
    let (nf, ups, nf_sized, nf_counts) = count_up-ok s.num_fanouts x lt_f in
    let got = get_elem?-get_or lv x lt_l in
    let (el, stores, el_sized, reached, kept, el_others, el_least) =
      store_max-ok s.endpt_level_id e (at lv x) lt in
    let t : Fanouts = record { num_fanouts = nf; endpt_level_id = el } in
    let (s', runs, o) =
      count_inputs-ok lv e is t (omega arith)
        (λ p h. let (a, b) = inside p (ground arith) in (omega arith, omega arith)) in
    (
      s',
      rw (ups, got, stores) runs,
      record {
        fanouts_sized = o.fanouts_sized ∙ nf_sized;
        levels_sized = o.levels_sized ∙ el_sized;
        counted = λ y. omega (arith, o.counted y, nf_counts y, count-append y (x ∷ []) is);
        grows = λ y.
            let more = o.grows y in
            elim (Bool-cases (e == y)) [
              | inl same ↦
                  let is_e = (==_iff e y).0 same in
                  omega (arith, ap (at s.endpt_level_id) is_e, ap (at el) is_e)
              | inr other ↦ omega (arith, el_others y other)
            ];
        above = λ p h. elim (Bool-cases (x == p)) [
          | inl same ↦ let more = o.grows e in omega (arith, ap (at lv) ((==_iff x p).0 same))
          | inr other ↦ o.above p (rw other at h)
        ];
        others = λ y other. o.others y other ∙ el_others y other;
        least = λ b low below.
            o.least b (el_least b low (below x (rw self refl))) (λ p h. below p (ground arith));
      },
    )

module _ (aig : Aig) (ins : ℕ → List ℕ) (n m : ℕ) where
  -- The endpoints exist, and their inputs are pins of the graph.
  abbrev pub AreGiven : List ℕ → Type 0
  AreGiven endpts =
      (e : ℕ)
      → contains endpts e ≡ true
      → (endpoint_inputs aig e ≡ ok (ins e))
        × (e < m)
        × ((p : ℕ) → contains (ins e) p ≡ true → p < n)

  abbrev pub all_ins : List ℕ → List ℕ
  all_ins [] = []
  all_ins (e ∷ es) = ins e ++ all_ins es

  pub given-rest : (e : ℕ) (es : List ℕ) → AreGiven (e ∷ es) → AreGiven es
  given-rest e es given j h =
      given j (elim (Bool-cases (e == j)) [ inl same ↦ rw same refl | inr other ↦ rw other h ])

  pub given-first :
      (e : ℕ) (es : List ℕ)
      → AreGiven (e ∷ es)
      → (endpoint_inputs aig e ≡ ok (ins e))
        × (e < m)
        × ((p : ℕ) → contains (ins e) p ≡ true → p < n)
  given-first e es given = let self : (e == e) ≡ true = ground arith in given e (rw self refl)

  pub all_inputs-ok : (es : List ℕ) → AreGiven es → all_inputs aig es ≡ ok (all_ins es)
  unfolding all_inputs
  all_inputs-ok [] given = refl
  all_inputs-ok (e ∷ es) given =
      let (runs, _, _) = given-first e es given in
      let rest = all_inputs-ok es (given-rest e es given) in rw (all_inputs, runs) (rw rest refl)

  pub record IsSummed (lv : List ℕ) (es : List ℕ) (s s' : Fanouts) : Type 0 where
    pub fanouts_sized : length s'.num_fanouts ≡ n
    pub levels_sized : length s'.endpt_level_id ≡ m
    pub counted : (y : ℕ) → at s'.num_fanouts y ≡ at s.num_fanouts y + count y (all_ins es)
    pub grows : (y : ℕ) → at s.endpt_level_id y ≤ at s'.endpt_level_id y
    pub above :
        (e p : ℕ)
        → contains es e ≡ true
        → contains (ins e) p ≡ true
        → at lv p ≤ at s'.endpt_level_id e
    pub least :
        (e b : ℕ)
        → at s.endpt_level_id e ≤ b
        → ((p : ℕ) → contains (ins e) p ≡ true → at lv p ≤ b)
        → at s'.endpt_level_id e ≤ b

  pub count_endpoints-ok :
      (lv es : List ℕ) (s : Fanouts)
      → AreGiven es
      → length lv ≡ n
      → length s.num_fanouts ≡ n
      → length s.endpt_level_id ≡ m
      → (s' : Fanouts) × (count_endpoints aig lv es s ≡ ok s') × IsSummed lv es s s'
  unfolding count_endpoints
  count_endpoints-ok lv [] s given sized sized_f sized_l = (
    s,
    refl,
    record {
      fanouts_sized = sized_f;
      levels_sized = sized_l;
      counted = λ y. omega (arith, count-nil y);
      grows = λ y. omega arith;
      above = λ e p h k. cc;
      least = λ e b low below. low;
    },
  )
  count_endpoints-ok lv (e ∷ es) s given sized sized_f sized_l =
      let (found, lt, small) = given-first e es given in
      let (t, runs, i) =
        count_inputs-ok lv e (ins e) s (omega arith)
          (λ p h. let lt_p = small p h in (omega arith, omega arith)) in
      let (r, rest, c) =
        count_endpoints-ok lv es t (given-rest e es given) sized (i.fanouts_sized ∙ sized_f)
          (i.levels_sized ∙ sized_l) in
      (
        r,
        rw (count_endpoints, found) (rw runs rest),
        record {
          fanouts_sized = c.fanouts_sized;
          levels_sized = c.levels_sized;
          counted =
              λ y. omega (arith, c.counted y, i.counted y, count-append y (ins e) (all_ins es));
          grows = λ y. let first = i.grows y in let more = c.grows y in omega arith;
          above = λ j p h k. elim (Bool-cases (e == j)) [
            | inl same ↦
                let is_e = (==_iff e j).0 same in
                let first = i.above p (ap (λ t. contains (ins t) p) is_e ∙ k) in
                let more = c.grows e in omega (arith, first, more, ap (at r.endpt_level_id) is_e)
            | inr other ↦ c.above j p (rw other at h) k
          ];
          least = λ j b low below.
              c.least j b
                (elim (Bool-cases (e == j)) [
                  | inl same ↦
                      let is_e = (==_iff e j).0 same in
                      let first =
                        i.least b (omega (arith, low, ap (at s.endpt_level_id) is_e))
                          (λ p h. below p (ap (λ t. contains (ins t) p) (sym is_e) ∙ h)) in
                      omega (arith, first, ap (at t.endpt_level_id) is_e)
                  | inr other ↦ omega (arith, low, i.others j other)
                ])
                below;
        },
      )
