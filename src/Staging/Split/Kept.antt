-- ===== src/Staging/Split/Kept.antt =====
-- src/staging.rs: the endpoints that `from_split` puts before the split.
use gem_macro_optimization.Base.{
  append_assoc, append_nil, ℕ, ◌+◌, ◌≤◌, ◌<◌, Bool, true, false, List, [], ◌∷◌, ◌++◌, Option, ok,
  ◌||◌, ltb, ◌==◌, ==_iff, if◌then◌else◌, length, contains, ◌≡◌, refl, sym, ap, ◌∙◌, inl, inr,
  Bool-cases, arith,
}
use gem_macro_optimization.Base.Stores.{get_elem?-get_or}
use gem_macro_optimization.Aig.{Aig}
use gem_macro_optimization.Staging.Split.{Active, split_endpoint, split_endpoints}
use gem_macro_optimization.Staging.Split.Vectors.{at, count, count-append, count-nil, count-pos}
use gem_macro_optimization.Staging.Split.Inputs.{AreGiven, all_ins, given-first, given-rest}
use gem_macro_optimization.Staging.Split.Released.{release_all-ok}
use gem_macro_optimization.Staging.Split.Crossing.{IsActive}

true≢false : ◌≡◌ {A = Bool} true false → ⊥
true≢false e = cc

-- The endpoints that are before the split, by their levels, and the inputs of those and of the rest.
module _ (ins : ℕ → List ℕ) (el : List ℕ) (k : ℕ) where
  abbrev pub kept : List ℕ → List ℕ
  kept [] = []
  kept (e ∷ es) = if ltb k (at el e) then kept es else e ∷ kept es

  abbrev pub kept_ins : List ℕ → List ℕ
  kept_ins [] = []
  kept_ins (e ∷ es) = (if ltb k (at el e) then [] else ins e) ++ kept_ins es

  abbrev pub left_ins : List ℕ → List ℕ
  left_ins [] = []
  left_ins (e ∷ es) = (if ltb k (at el e) then ins e else []) ++ left_ins es

  pub count-ins :
      (aig : Aig) (n m y : ℕ) (es : List ℕ)
      → count y (all_ins aig ins n m es) ≡ count y (kept_ins es) + count y (left_ins es)
  count-ins aig n m y [] = omega (arith, count-nil y)
  count-ins aig n m y (e ∷ es) = elim (Bool-cases (ltb k (at el e))) [
    | inl over ↦ rw over (
        omega (
          arith,
          count-ins aig n m y es,
          count-append y (ins e) (all_ins aig ins n m es),
          count-append y (ins e) (left_ins es),
        ))
    | inr under ↦ rw under (
        omega (
          arith,
          count-ins aig n m y es,
          count-append y (ins e) (all_ins aig ins n m es),
          count-append y (ins e) (kept_ins es),
        ))
  ]

  pub left-pos :
      (es : List ℕ) (e p : ℕ)
      → contains es e ≡ true
      → contains (kept es) e ≡ false
      → contains (ins e) p ≡ true
      → 1 ≤ count p (left_ins es)
  left-pos [] e p h not_kept reads = cc
  left-pos (j ∷ es) e p h not_kept reads = elim (Bool-cases (ltb k (at el j))) [
    | inl over ↦ rw over (elim (Bool-cases (j == e)) [
      | inl same ↦
          let here =
            count-pos p (ins j) (ap (λ t. contains (ins t) p) ((==_iff j e).0 same) ∙ reads) in
          omega (arith, here, count-append p (ins j) (left_ins es))
      | inr other ↦
          let rest = left-pos es e p (rw other at h) (rw over at not_kept) reads in
          omega (arith, rest, count-append p (ins j) (left_ins es))
    ])
    | inr under ↦ rw under (elim (Bool-cases (j == e)) [
      | inl same ↦ absurd (true≢false (sym (rw same refl) ∙ rw under at not_kept))
      | inr other ↦ left-pos es e p (rw other at h) (rw (under, other) at not_kept) reads
    ])
  ]

  pub kept-contains :
      (es : List ℕ) (e : ℕ) → contains (kept es) e ≡ true → (contains es e ≡ true) × (at el e ≤ k)
  kept-contains [] e h = absurd (true≢false (sym h))
  kept-contains (j ∷ es) e h = elim (Bool-cases (ltb k (at el j))) [
    | inl over ↦ let (listed, low) = kept-contains es e (rw over at h) in (ground arith, low)
    | inr under ↦ elim (Bool-cases (j == e)) [
      | inl same ↦ let is_e = ap (at el) ((==_iff j e).0 same) in (rw same refl, ground arith)
      | inr other ↦
          let (listed, low) = kept-contains es e (rw (under, other) at h) in (rw other listed, low)
    ]
  ]

  pub kept-has :
      (es : List ℕ) (e : ℕ) → contains es e ≡ true → at el e ≤ k → contains (kept es) e ≡ true
  kept-has [] e h low = cc
  kept-has (j ∷ es) e h low = elim (Bool-cases (ltb k (at el j))) [
    | inl over ↦ elim (Bool-cases (j == e)) [
      | inl same ↦
          let less : k < at el j = ground arith in
          absurd (omega (arith, less, low, ap (at el) ((==_iff j e).0 same)))
      | inr other ↦ rw over (kept-has es e (rw other at h) low)
    ]
    | inr under ↦ elim (Bool-cases (j == e)) [
      | inl same ↦ rw (under, same) refl
      | inr other ↦ rw (under, other) (kept-has es e (rw other at h) low)
    ]
  ]

module _ (aig : Aig) (pi : Option (List ℕ)) (lv : List ℕ) (k n m : ℕ) (ins : ℕ → List ℕ)
    (el order : List ℕ) where
  pub record IsDone (es bf : List ℕ) (s : Active) (r : List ℕ × Active) : Type 0 where
    pub endpoints : r.0 ≡ (bf ++ kept ins el k es)
    pub falls : (y : ℕ) → at r.1.num_fanouts y + count y (kept_ins ins el k es) ≡ at s.num_fanouts y
    pub active : IsActive aig pi lv k order r.1

  pub split_endpoints-ok :
      (es bf : List ℕ) (s : Active)
      → AreGiven aig ins n m es
      → length el ≡ m
      → ((e p : ℕ)
          → contains es e ≡ true
          → contains (ins e) p ≡ true
          → (contains order p ≡ true) × (at lv p ≤ at el e))
      → ((y : ℕ) → count y (kept_ins ins el k es) ≤ at s.num_fanouts y)
      → IsActive aig pi lv k order s
      → (r : List ℕ × Active) × (split_endpoints aig el k es (bf, s) ≡ ok r) × IsDone es bf s r
  unfolding split_endpoints split_endpoint
  split_endpoints-ok [] bf s given sized covered enough active = (
    (bf, s),
    refl,
    record {
      endpoints = sym (append_nil bf);
      falls = λ y. omega (arith, count-nil y);
      active = active;
    },
  )
  split_endpoints-ok (e ∷ es) bf s given sized covered enough active =
      let (found, lt, small) = given-first aig ins n m e es given in
      let rest_given = given-rest aig ins n m e es given in
      let rest_covered = λ (j p : ℕ) (h : contains es j ≡ true) (reads : contains (ins j) p ≡ true).
        covered j p (or_right (e == j) (contains es j) h) reads in
      let self : (e == e) ≡ true = ground arith in
      let got = get_elem?-get_or el e (omega arith) in
      elim (Bool-cases (ltb k (at el e))) [
        | inl over ↦
            let (r, runs, d) =
              split_endpoints-ok es bf s rest_given sized rest_covered (λ y. rw over at (enough y))
                active in
            let skips : split_endpoint aig el k e (bf, s) ≡ ok (bf, s) =
              rw (split_endpoint, got, over) refl in
            (
              r,
              rw skips runs,
              record {
                endpoints = rw over d.endpoints;
                falls = λ y. rw over (d.falls y);
                active = d.active;
              },
            )
        | inr under ↦
            let total : (y : ℕ)
                → count y (ins e) + count y (kept_ins ins el k es) ≤ at s.num_fanouts y =
              λ y.
                let all = rw under at (enough y) in
                omega (arith, all, count-append y (ins e) (kept_ins ins el k es)) in
            let (t, releases, o) =
              release_all-ok (ins e) s (λ y. let all = total y in omega arith)
                (λ y h.
                  let (listed, level) = covered e y (rw self refl) h in
                  let some_read = count-pos y (ins e) h in
                  let all = total y in
                  active y listed (let low : at el e ≤ k = ground arith in omega arith)
                    (omega arith)) in
            let (r, runs, d) =
              split_endpoints-ok es (bf ++ e ∷ []) t rest_given sized rest_covered
                (λ y. let all = total y in omega (arith, o.falls y))
                (λ y listed low pos.
                  o.keeps y pos (active y listed low (omega (arith, o.falls y)))) in
            let takes : split_endpoint aig el k e (bf, s) ≡ ok (bf ++ e ∷ [], t) =
              rw (split_endpoint, got, under) (rw found (rw releases refl)) in
            (
              r,
              rw takes runs,
              record {
                endpoints = rw under (d.endpoints ∙ append_assoc bf (e ∷ []) (kept ins el k es));
                falls = λ y. rw under (
                    omega
                      (arith, d.falls y, o.falls y, count-append y (ins e) (kept_ins ins el k es)));
                active = d.active;
              },
            )
      ]
    where
      or_right : (a b : Bool) → b ≡ true → (a || b) ≡ true
      or_right a b h = ground arith
