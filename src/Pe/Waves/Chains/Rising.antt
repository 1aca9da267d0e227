-- ===== src/Pe/Waves/Chains/Rising.antt =====
-- src/pe.rs: a chain of `order_macro_waves` has no macro twice, as the ranks rise along its links.
use gem_macro_optimization.Base.{
  ℕ, zero, suc, ◌≤◌, ◌<◌, true, false, List, [], ◌∷◌, ◌++◌, some, ◌==◌, ==_iff, contains, ◌≡◌, refl,
  sym, ap, ◌∙◌, inl, inr, Bool-cases, Option-cases, arith,
}
use gem_macro_optimization.Base.Maps.{map_get}
use gem_macro_optimization.Staging.Split.Vectors.{count, count-append}
use gem_macro_optimization.Pe.Waves.{Links}
use gem_macro_optimization.Pe.Waves.Chains.{chain_from, unplaced_from}

-- The links of carry chains: a macro has one predecessor at most, is marked if it has one, and
-- comes after it.
pub record AreLinks (l : Links) (rank : ℕ → ℕ) : Type 0 where
  pub one_pred : (a b m : ℕ) → map_get l.succ a ≡ some m → map_get l.succ b ≡ some m → a ≡ b
  pub marked : (a m : ℕ) → map_get l.succ a ≡ some m → contains l.has_pred m ≡ true
  pub rising : (a m : ℕ) → map_get l.succ a ≡ some m → rank a < rank m

pub count-absent : (x : ℕ) (xs : List ℕ) → contains xs x ≡ false → count x xs ≡ 0
unfolding count
count-absent x [] h = refl
count-absent x (y ∷ ys) h = elim (Bool-cases (y == x)) [
  | inl same ↦ cc
  | inr other ↦ let rest = count-absent x ys (rw other at h) in rw other (omega (arith, rest))
]

unfoldable pub AtMostOnce : List ℕ → Type 0
AtMostOnce xs = (x : ℕ) → count x xs ≤ 1

pub AtMostOnce-append :
    (xs ys : List ℕ)
    → AtMostOnce xs
    → AtMostOnce ys
    → ((x : ℕ) → contains xs x ≡ true → contains ys x ≡ false)
    → AtMostOnce (xs ++ ys)
unfolding AtMostOnce
AtMostOnce-append xs ys once_x once_y apart x = elim (Bool-cases (contains xs x)) [
  | inl there ↦ omega (arith, count-append x xs ys, once_x x, count-absent x ys (apart x there))
  | inr absent ↦ omega (arith, count-append x xs ys, once_y x, count-absent x xs absent)
]

module _ (l : Links) (rank : ℕ → ℕ) (are : AreLinks l rank) where
  pub chain_from-rising :
      (n cur x : ℕ) → contains (chain_from l.succ n cur) x ≡ true → rank cur < rank x
  unfolding chain_from
  chain_from-rising zero cur x h = cc
  chain_from-rising (suc n) cur x h = elim (Option-cases (map_get l.succ cur)) [
    | inl end ↦ let bad = rw (chain_from, end) at h in cc
    | inr (next, more) ↦
        let up = are.rising cur next more in
        let h' = rw (chain_from, more) at h in
        elim (Bool-cases (next == x)) [
          | inl same ↦ omega (arith, up, ap rank ((==_iff next x).0 same))
          | inr other ↦ omega (arith, up, chain_from-rising n next x (rw other at h'))
        ]
  ]

  pub unplaced_from-rising :
      (placed : List ℕ) (n cur x : ℕ)
      → contains (unplaced_from l.succ placed n cur) x ≡ true
      → (rank cur < rank x) × (contains placed x ≡ false)
  unfolding unplaced_from
  unplaced_from-rising placed zero cur x h = cc
  unplaced_from-rising placed (suc n) cur x h = elim (Option-cases (map_get l.succ cur)) [
    | inl end ↦ let bad = rw (unplaced_from, end) at h in cc
    | inr (next, more) ↦
        let up = are.rising cur next more in
        let h' = rw (unplaced_from, more) at h in
        elim (Bool-cases (contains placed next)) [
          | inl old ↦ let bad = rw (old, unplaced_from) at h' in cc
          | inr new ↦
              let h'' = rw (new, unplaced_from) at h' in
              elim (Bool-cases (next == x)) [
                | inl same ↦
                    let e = (==_iff next x).0 same in
                    (omega (arith, up, ap rank e), ap (contains placed) (sym e) ∙ new)
                | inr other ↦
                    let (higher, fresh) = unplaced_from-rising placed n next x (rw other at h'') in
                    (omega (arith, up, higher), fresh)
              ]
        ]
  ]

  -- A macro before macros of higher rank.
  pub first_once :
      (m : ℕ) (chain : List ℕ)
      → ((x : ℕ) → contains chain x ≡ true → rank m < rank x)
      → AtMostOnce chain
      → AtMostOnce (m ∷ chain)
  unfolding AtMostOnce count
  first_once m chain higher once x = elim (Bool-cases (m == x)) [
    | inr other ↦ rw other (omega (arith, once x))
    | inl same ↦ elim (Bool-cases (contains chain x)) [
      | inl again ↦ absurd (omega (arith, higher x again, ap rank ((==_iff m x).0 same)))
      | inr absent ↦ rw same (omega (arith, count-absent x chain absent))
    ]
  ]

  pub chain_from-once : (n cur : ℕ) → AtMostOnce (chain_from l.succ n cur)
  unfolding chain_from AtMostOnce count
  chain_from-once zero cur = λ x. omega arith
  chain_from-once (suc n) cur = elim (Option-cases (map_get l.succ cur)) [
    | inl end ↦ rw (chain_from, end) (λ x. omega arith)
    | inr (next, more) ↦
        rw (chain_from, more)
          (first_once next (chain_from l.succ n next) (λ x. chain_from-rising n next x)
            (chain_from-once n next))
  ]

  pub unplaced_from-once :
      (placed : List ℕ) (n cur : ℕ) → AtMostOnce (unplaced_from l.succ placed n cur)
  unfolding unplaced_from AtMostOnce count
  unplaced_from-once placed zero cur = λ x. omega arith
  unplaced_from-once placed (suc n) cur = elim (Option-cases (map_get l.succ cur)) [
    | inl end ↦ rw (unplaced_from, end) (λ x. omega arith)
    | inr (next, more) ↦ elim (Bool-cases (contains placed next)) [
      | inl old ↦ rw (unplaced_from, more) (rw (old, unplaced_from) (λ x. omega arith))
      | inr new ↦
          rw (unplaced_from, more)
            (rw (new, unplaced_from)
              (first_once next (unplaced_from l.succ placed n next)
                (λ x h. (unplaced_from-rising placed n next x h).0)
                (unplaced_from-once placed n next)))
    ]
  ]
