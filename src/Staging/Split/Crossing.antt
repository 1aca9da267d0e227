-- ===== src/Staging/Split/Crossing.antt =====
-- src/staging.rs: the pins that are active after the loops of `from_split` at the split.
use gem_macro_optimization.Base.{
  ℕ, ◌+◌, ◌≤◌, ◌<◌, true, false, List, [], ◌∷◌, ◌++◌, Option, some, ok, ◌>>=◌, ltb, ltb→lt, ◌==◌,
  ==_iff, if◌then◌else◌, length, get_elem?, contains, contains-set_insert, set_insert, ◌≡◌, refl,
  ap, ◌∙◌, inl, inr, Bool-cases, Outcome-cases, arith,
}
use gem_macro_optimization.Base.Stores.{get_elem?-get_or}
use gem_macro_optimization.Aig.{Aig, driver}
use gem_macro_optimization.Aig.Topo.{is_staged_input}
use gem_macro_optimization.Aig.Topo.Order.{IsTopological, IsTopological.done, next}
use gem_macro_optimization.Pe.Blocked.Pins.{get_elem?-driver}
use gem_macro_optimization.Staging.Split.{gate_pins, Active, split_node, split_order}
use gem_macro_optimization.Staging.Split.Vectors.{at, count, count-append, count-nil, count-pos}
use gem_macro_optimization.Staging.Split.Ordered.{
  pins, edges, pins-inside, mem-left, mem-last, older,
}
use gem_macro_optimization.Staging.Split.Released.{Releases, release_all-ok}

module _ (aig : Aig) (pi : Option (List ℕ)) (lv : List ℕ) (k : ℕ) where
  -- What a pin of the order releases, and what it keeps for the next stage.
  abbrev pub upto : ℕ → List ℕ
  upto i = if ltb k (at lv i) then [] else pins aig pi i

  abbrev pub beyond : ℕ → List ℕ
  beyond i = if ltb k (at lv i) then pins aig pi i else []

  abbrev pub before : List ℕ → List ℕ
  before [] = []
  before (i ∷ is) = upto i ++ before is

  abbrev pub later : List ℕ → List ℕ
  later [] = []
  later (i ∷ is) = beyond i ++ later is

  count-upto-beyond : (y i : ℕ) → count y (pins aig pi i) ≡ count y (upto i) + count y (beyond i)
  count-upto-beyond y i = elim (Bool-cases (ltb k (at lv i))) [
    | inl above ↦ rw above (omega (arith, count-nil y))
    | inr below ↦ rw below (omega (arith, count-nil y))
  ]

  pub count-edges :
      (y : ℕ) (order : List ℕ)
      → count y (edges aig pi order) ≡ count y (before order) + count y (later order)
  count-edges y [] = omega (arith, count-nil y)
  count-edges y (i ∷ is) = omega (
    arith,
    count-upto-beyond y i,
    count-edges y is,
    count-append y (pins aig pi i) (edges aig pi is),
    count-append y (upto i) (before is),
    count-append y (beyond i) (later is),
  )

  pub later-pos :
      (order : List ℕ) (i p : ℕ)
      → contains order i ≡ true
      → k < at lv i
      → contains (pins aig pi i) p ≡ true
      → 1 ≤ count p (later order)
  later-pos [] i p h above reads = cc
  later-pos (j ∷ order) i p h above reads = elim (Bool-cases (j == i)) [
    | inl same ↦
        let e = (==_iff j i).0 same in
        let lv_same = ap (at lv) e in
        let over : ltb k (at lv j) ≡ true = ground arith in
        let here : 1 ≤ count p (beyond j) =
          rw over (count-pos p (pins aig pi j) (ap (λ t. contains (pins aig pi t) p) e ∙ reads)) in
        omega (arith, here, count-append p (beyond j) (later order))
    | inr other ↦
        let rest = later-pos order i p (rw other at h) above reads in
        omega (arith, rest, count-append p (beyond j) (later order))
  ]

  count-before-last :
      (y u : ℕ) (xs : List ℕ)
      → count y (before (xs ++ u ∷ [])) ≡ count y (before xs) + count y (upto u)
  count-before-last y u [] = omega (arith, count-append y (upto u) [], count-nil y)
  count-before-last y u (x ∷ xs) = omega (
    arith,
    count-append y (upto x) (before (xs ++ u ∷ [])),
    count-append y (upto x) (before xs),
    count-before-last y u xs,
  )

  split-last :
      (xs : List ℕ) (u : ℕ) (s : Active)
      → split_order aig pi lv k (xs ++ u ∷ []) s
        ≡ (split_order aig pi lv k xs s >>= λ t. split_node aig pi lv k u t)
  unfolding split_order
  split-last [] u s = elim (Outcome-cases (split_node aig pi lv k u s)) [
    | inl stops ↦ rw stops refl
    | inr (t, runs) ↦ rw runs refl
  ]
  split-last (x ∷ xs) u s = elim (Outcome-cases (split_node aig pi lv k x s)) [
    | inl stops ↦ rw stops refl
    | inr (t, runs) ↦ rw runs (split-last xs u t)
  ]

  -- A pin at or below the split that has readers left is active.
  abbrev pub IsActive : List ℕ → Active → Type 0
  IsActive xs s =
      (y : ℕ)
      → contains xs y ≡ true
      → at lv y ≤ k
      → 1 ≤ at s.num_fanouts y
      → contains s.nodes_at_split y ≡ true

  -- The round of one pin at or below the split.
  split_pin :
      (n u : ℕ) (s : Active)
      → length aig.drivers ≡ n
      → u < n
      → length lv ≡ n
      → at lv u ≤ k
      → ((y : ℕ) → count y (pins aig pi u) ≤ at s.num_fanouts y)
      → ((y : ℕ) → contains (pins aig pi u) y ≡ true → contains s.nodes_at_split y ≡ true)
      → (r : Active) × (split_node aig pi lv k u s ≡ ok r)
        × Releases (pins aig pi u) (record s { nodes_at_split = set_insert s.nodes_at_split u }) r
  unfolding split_node
  split_pin n u s drivers lt sized low enough active =
      let s' : Active = record s { nodes_at_split = set_insert s.nodes_at_split u } in
      let got = get_elem?-get_or lv u (omega arith) in
      let below : ltb k (at lv u) ≡ false = ground arith in
      elim (Bool-cases (is_staged_input pi u)) [
        | inl staged ↦ (
          s',
          rw (got, below, staged) refl,
          rw staged (record {
            sized = refl;
            falls = λ y. omega (arith, count-nil y);
            keeps = λ y pos h. h;
          }),
        )
        | inr inner ↦
            let gate = gate_pins (driver aig u) in
            let found = get_elem?-driver aig.drivers u (omega arith) in
            let kept : (y : ℕ) → contains gate y ≡ true → contains s'.nodes_at_split y ≡ true =
              λ y h. contains-set_insert s.nodes_at_split u y ∙ rw (active y (rw inner h)) refl in
            let (r, runs, o) = release_all-ok gate s' (λ y. rw inner at (enough y)) kept in
            (r, rw (got, below, inner, found) runs, rw inner o)
      ]

  pub record IsReleased (n : ℕ) (order : List ℕ) (s s' : Active) : Type 0 where
    pub sized : length s'.num_fanouts ≡ n
    pub falls : (y : ℕ) → at s'.num_fanouts y + count y (before order) ≡ at s.num_fanouts y
    pub active : IsActive order s'

  IsReleased-below :
      (n u : ℕ) (xs : List ℕ) (s t r : Active)
      → at lv u ≤ k
      → IsReleased n xs s t
      → Releases (pins aig pi u) (record t { nodes_at_split = set_insert t.nodes_at_split u }) r
      → IsReleased n (xs ++ u ∷ []) s r
  IsReleased-below n u xs s t r low a b =
      let under : ltb k (at lv u) ≡ false = ground arith in
      let same : (y : ℕ) → count y (upto u) ≡ count y (pins aig pi u) = λ y. rw under refl in
      record {
        sized = b.sized ∙ a.sized;
        falls = λ y. omega (arith, a.falls y, b.falls y, same y, count-before-last y u xs);
        active = λ y is_in le pos. b.keeps y pos (
            contains-set_insert t.nodes_at_split u y ∙ elim (Bool-cases (u == y)) [
              | inl this ↦ rw this (ground arith)
              | inr other ↦
                  let down = b.falls y in
                  rw (a.active y (older xs u y other is_in) le (omega (arith, down))) refl
            ]);
      }

  split_last_over :
      (xs : List ℕ) (u : ℕ) (s t : Active)
      → split_order aig pi lv k xs s ≡ ok t
      → get_elem? lv u ≡ some (at lv u)
      → ltb k (at lv u) ≡ true
      → split_order aig pi lv k (xs ++ u ∷ []) s ≡ ok t
  unfolding split_node
  split_last_over xs u s t runs got over = split-last xs u s ∙ rw runs (stays u t got over)
    where
      stays :
          (u : ℕ) (t : Active)
          → get_elem? lv u ≡ some (at lv u)
          → ltb k (at lv u) ≡ true
          → split_node aig pi lv k u t ≡ ok t
      stays u t got over = rw (split_node, got, over) refl

  pub split_order-ok :
      (n : ℕ) (s : Active)
      → length aig.drivers ≡ n
      → length lv ≡ n
      → length s.num_fanouts ≡ n
      → {order : List ℕ} → IsTopological aig pi order
      → ((x : ℕ) → contains order x ≡ true → x < n)
      → ((i p : ℕ)
          → contains order i ≡ true
          → contains (pins aig pi i) p ≡ true
          → at lv p < at lv i)
      → ((y : ℕ) → count y (before order) ≤ at s.num_fanouts y)
      → (s' : Active) × (split_order aig pi lv k order s ≡ ok s') × IsReleased n order s s'
  unfolding split_order
  split_order-ok n s drivers lv_sized sized done small rising enough = (
    s,
    refl,
    record {
      sized = sized;
      falls = λ y. omega (arith, count-nil y);
      active = λ y is_in le pos. cc;
    },
  )
  split_order-ok n s drivers lv_sized sized (next xs u top fresh drivers_in) small rising enough =
      let fewer : (y : ℕ) → count y (before xs) ≤ at s.num_fanouts y =
        λ y. let all = enough y in omega (arith, count-before-last y u xs) in
      let (t, runs, a) =
        split_order-ok n s drivers lv_sized sized top (λ x h. small x (mem-left xs u x h))
          (λ i p h. rising i p (mem-left xs u i h)) fewer in
      let lt = small u (mem-last xs u) in
      elim (Bool-cases (ltb k (at lv u))) [
        | inl over ↦
            let high = ltb→lt k (at lv u) over in
            let got = get_elem?-get_or lv u (omega arith) in
            let none : (y : ℕ) → count y (upto u) ≡ 0 = λ y. rw over (count-nil y) in
            (
              t,
              split_last_over xs u s t runs got over,
              record {
                sized = a.sized;
                falls = λ y. omega (arith, a.falls y, none y, count-before-last y u xs);
                active = λ y is_in le pos. elim (Bool-cases (u == y)) [
                  | inl this ↦ let e = ap (at lv) ((==_iff u y).0 this) in absurd (omega (arith, e))
                  | inr other ↦ a.active y (older xs u y other is_in) le pos
                ];
              },
            )
        | inr under ↦
            let low : at lv u ≤ k = ground arith in
            let same : (y : ℕ) → count y (upto u) ≡ count y (pins aig pi u) = λ y. rw under refl in
            let left : (y : ℕ) → count y (pins aig pi u) ≤ at t.num_fanouts y = λ y.
              let all = enough y in omega (arith, a.falls y, same y, count-before-last y u xs) in
            let (r, node, b) = split_pin n u t drivers lt lv_sized low left (λ y h.
              let inside = pins-inside aig pi xs u drivers_in y h in
              let less = rising u y (mem-last xs u) h in
              let some_read = count-pos y (pins aig pi u) h in
              let more = left y in a.active y inside (omega arith) (omega arith)) in
            (r, split-last xs u s ∙ rw runs node, IsReleased-below n u xs s t r low a b)
      ]
