-- ===== src/Staging/Split/Vectors.antt =====
-- src/staging.rs: the counters of `from_split` as numbers at pins.
use gem_macro_optimization.Base.{
  ℕ, ◌+◌, ◌-◌, ◌≤◌, ◌<◌, true, false, List, [], ◌∷◌, ◌++◌, ok, max, ◌==◌, ==_iff, if◌then◌else◌,
  length, length-set, get_or, set, get_or-set_self, contains, contains-swap_remove, swap_remove,
  ◌≡◌, refl, ap, ◌∙◌, inl, inr, Bool-cases, arith,
}
use gem_macro_optimization.Base.Stores.{get_or-set, get_elem?-get_or, store-ok, checked_sub-ok}
use gem_macro_optimization.Staging.Split.{count_up, store_max, Active, release}

-- The number at a pin.
abbrev pub at : List ℕ → ℕ → ℕ
at v x = get_or v x 0

-- How often a pin stands in a list.
unfoldable pub count : ℕ → List ℕ → ℕ
count x [] = 0
count x (y ∷ ys) = (if y == x then 1 else 0) + count x ys

pub count-append : (x : ℕ) (ys zs : List ℕ) → count x (ys ++ zs) ≡ count x ys + count x zs
unfolding count
count-append x [] zs = omega arith
count-append x (y ∷ ys) zs = omega (arith, count-append x ys zs)

pub count-pos : (x : ℕ) (ys : List ℕ) → contains ys x ≡ true → 1 ≤ count x ys
unfolding count
count-pos x [] h = cc
count-pos x (y ∷ ys) h = elim (Bool-cases (y == x)) [
  | inl same ↦ rw same (omega arith)
  | inr other ↦ rw other (let rest = count-pos x ys (rw other at h) in omega arith)
]

pub count-cons_self : (x : ℕ) (ys : List ℕ) → count x (x ∷ ys) ≡ 1 + count x ys
unfolding count
count-cons_self x ys = ground arith

pub count-nil : (x : ℕ) → count x [] ≡ 0
unfolding count
count-nil x = refl

pub count_up-ok :
    (v : List ℕ) (x : ℕ)
    → x < length v
    → (v' : List ℕ) × (count_up v x ≡ ok v')
      × (length v' ≡ length v)
      × ((y : ℕ) → at v' y ≡ at v y + count y (x ∷ []))
unfolding count_up count
count_up-ok v x h =
    let n = at v x in
    (
      set v x (n + 1),
      rw (get_elem?-get_or v x h) (store-ok v x (n + 1) h),
      length-set v x (n + 1),
      λ y. get_or-set v x y (n + 1) h ∙ elim (Bool-cases (x == y)) [
        | inl same ↦ rw same (omega (arith, ap (at v) ((==_iff x y).0 same)))
        | inr other ↦ rw other (omega arith)
      ],
    )

pub store_max-ok :
    (v : List ℕ) (i n : ℕ)
    → i < length v
    → (v' : List ℕ) × (store_max v i n ≡ ok v')
      × (length v' ≡ length v)
      × (n ≤ at v' i)
      × (at v i ≤ at v' i)
      × ((y : ℕ) → (i == y) ≡ false → at v' y ≡ at v y)
      × ((b : ℕ) → at v i ≤ b → n ≤ b → at v' i ≤ b)
unfolding store_max
store_max-ok v i n h =
    let m = max (at v i) n in
    let self = get_or-set_self v i m 0 h in
    (
      set v i m,
      rw (get_elem?-get_or v i h) (store-ok v i m h),
      length-set v i m,
      omega (arith, self),
      omega (arith, self),
      λ y other. get_or-set v i y m h ∙ rw other refl,
      λ b old new. omega (arith, self, old, new),
    )

-- One reader of a pin that is active is done: the count falls, and the pin stays active if there
-- are others.
pub release-ok :
    (x : ℕ) (s : Active)
    → x < length s.num_fanouts
    → 1 ≤ at s.num_fanouts x
    → contains s.nodes_at_split x ≡ true
    → (s' : Active) × (release x s ≡ ok s')
      × (length s'.num_fanouts ≡ length s.num_fanouts)
      × ((y : ℕ) → at s'.num_fanouts y + count y (x ∷ []) ≡ at s.num_fanouts y)
      × ((y : ℕ)
          → 1 ≤ at s'.num_fanouts y
          → contains s.nodes_at_split y ≡ true
          → contains s'.nodes_at_split y ≡ true)
unfolding release count
release-ok x s h pos active =
    let n = at s.num_fanouts x in
    let v = set s.num_fanouts x (n - 1) in
    let got = get_elem?-get_or s.num_fanouts x h in
    let less = checked_sub-ok n 1 pos in
    let stored = store-ok s.num_fanouts x (n - 1) h in
    let falls : (y : ℕ) → at v y + count y (x ∷ []) ≡ at s.num_fanouts y = λ y.
      elim (Bool-cases (x == y)) [
        | inl same ↦
            let here : at v y ≡ n - 1 = get_or-set s.num_fanouts x y (n - 1) h ∙ rw same refl in
            let old = ap (at s.num_fanouts) ((==_iff x y).0 same) in
            rw same (omega (arith, here, old))
        | inr other ↦
            let here : at v y ≡ at s.num_fanouts y =
              get_or-set s.num_fanouts x y (n - 1) h ∙ rw other refl in
            rw other (omega (arith, here))
      ] in
    elim (Bool-cases (n - 1 == 0)) [
      | inl gone ↦ (
        record { num_fanouts = v; nodes_at_split = swap_remove s.nodes_at_split x },
        rw (release, got, less, stored, gone, active) refl,
        length-set s.num_fanouts x (n - 1),
        falls,
        λ y some_left is_in. elim (Bool-cases (x == y)) [
          | inl same ↦
              let e : x ≡ y = (==_iff x y).0 same in
              let self = get_or-set_self s.num_fanouts x (n - 1) 0 h in
              let zero_left : n - 1 ≡ 0 = (==_iff (n - 1) 0).0 gone in
              absurd (omega (arith, ap (at v) e, self, zero_left))
          | inr other ↦ contains-swap_remove s.nodes_at_split x y other ∙ is_in
        ],
      )
      | inr stays ↦ (
        record s { num_fanouts = v },
        rw (release, got, less, stored, stays) refl,
        length-set s.num_fanouts x (n - 1),
        falls,
        λ y some_left is_in. is_in,
      )
    ]
