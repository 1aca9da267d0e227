-- ===== src/Pe/Waves/Chains/Once.antt =====
-- src/pe.rs: no macro has two lanes in the waves of `order_macro_waves`.
use gem_macro_optimization.Base.{
  append_nil, append_assoc, ℕ, zero, suc, ◌+◌, ◌-◌, ◌≤◌, Bool, true, false, List, [], ◌∷◌, ◌++◌,
  some, ◌==◌, ==_iff, contains, contains-append, contains-set_extend, set_extend, ◌≡◌, ◌⊎◌, refl,
  sym, ap, ◌∙◌, inl, inr, Bool-cases, Option-cases, arith,
}
use mathlib.Core.Path.{subst}
use gem_macro_optimization.Base.Maps.{map_get}
use gem_macro_optimization.Macros.Encode.{macro_max_lanes}
use gem_macro_optimization.Staging.Split.Vectors.{count, count-append, count-pos, count-cons_self}
use gem_macro_optimization.Pe.Waves.{depth_of, Links}
use gem_macro_optimization.Pe.Waves.Chains.{
  chain_from, unplaced_from, head_chains, rest_chains, placed_in, key_le, insert_chain, sort_chains,
  waves_of,
}
use gem_macro_optimization.Pe.Waves.Chains.Packed.{lanes}
use gem_macro_optimization.Pe.Waves.Chains.Placed.{links, or_mono, placed_in-links}
use gem_macro_optimization.Pe.Waves.Chains.Covered.{chains_of, lanes-waves_of, waves_of-AreWaves}
use gem_macro_optimization.Pe.Waves.Chains.Rising.{
  AreLinks, AtMostOnce, AtMostOnce-append, chain_from-rising, unplaced_from-rising, first_once,
  chain_from-once, unplaced_from-once,
}

module _ (l : Links) (rank : ℕ → ℕ) (are : AreLinks l rank) where
  -- A macro that the links lead to from a head, which continues no chain.
  data From (head : ℕ) : ℕ → Type 0 where
    here : From head head
    along : (m x : ℕ) → From head m → map_get l.succ m ≡ some x → From head x

  From-cases :
      {head x : ℕ}
      → From head x
      → (x ≡ head) ⊎ ((m : ℕ) × From head m × (map_get l.succ m ≡ some x))
  From-cases here = inl refl
  From-cases (along m x f e) = inr (m, f, e)

  -- Heads that lead to one macro are one.
  one_head :
      {h k x : ℕ}
      → contains l.has_pred h ≡ false
      → contains l.has_pred k ≡ false
      → From h x
      → From k x
      → h ≡ k
  one_head {h} {k} free_h free_k here g = elim (From-cases g) [
    | inl e ↦ e
    | inr (m, _, linked) ↦ absurd (true≢false (sym (are.marked m h linked) ∙ free_h))
  ]
    where
      true≢false : ◌≡◌ {A = Bool} true false → ⊥
      true≢false e = cc
  one_head {h} {k} free_h free_k (along m x f linked) g = elim (From-cases g) [
    | inl e ↦
        absurd (true≢false (sym (are.marked m x linked) ∙ ap (contains l.has_pred) e ∙ free_k))
    | inr (n, g', linked') ↦
        let same : n ≡ m = are.one_pred n m x linked' linked in
        one_head free_h free_k f (subst (λ t. From k t) same g')
  ]
    where
      true≢false : ◌≡◌ {A = Bool} true false → ⊥
      true≢false e = cc

  chain_from-From :
      (head n cur x : ℕ) → From head cur → contains (chain_from l.succ n cur) x ≡ true → From head x
  unfolding chain_from
  chain_from-From head zero cur x f h = cc
  chain_from-From head (suc n) cur x f h = elim (Option-cases (map_get l.succ cur)) [
    | inl end ↦ let bad = rw (chain_from, end) at h in cc
    | inr (next, more) ↦
        let h' = rw (chain_from, more) at h in
        let f' = along cur next f more in
        elim (Bool-cases (next == x)) [
          | inl same ↦ subst (λ t. From head t) ((==_iff next x).0 same) f'
          | inr other ↦ chain_from-From head n next x f' (rw other at h')
        ]
  ]

  -- What is in the chains comes from heads that are done.
  FromHeads : List (ℕ × List ℕ) → List ℕ → Type 0
  FromHeads chains macros =
      (x : ℕ)
      → contains (links chains) x ≡ true
      → (h : ℕ) × (contains macros h ≡ false) × (contains l.has_pred h ≡ false) × From h x

  links-last :
      (chains : List (ℕ × List ℕ)) (d : ℕ) (chain : List ℕ)
      → links (chains ++ (d, chain) ∷ []) ≡ (links chains ++ chain)
  links-last [] d chain = append_nil chain
  links-last ((e, c) ∷ chains) d chain =
      ap (λ t. c ++ t) (links-last chains d chain) ∙ sym (append_assoc c (links chains) chain)

  not_again : (m : ℕ) (macros : List ℕ) → AtMostOnce (m ∷ macros) → contains macros m ≡ false
  unfolding AtMostOnce
  not_again m macros once = elim (Bool-cases (contains macros m)) [
    | inl again ↦ absurd (omega (arith, once m, count-cons_self m macros, count-pos m macros again))
    | inr absent ↦ absent
  ]

  rest_macros : (m : ℕ) (macros : List ℕ) → AtMostOnce (m ∷ macros) → AtMostOnce macros
  unfolding AtMostOnce
  rest_macros m macros once = λ x. omega (arith, once x, count-append x (m ∷ []) macros)

  module _ (depth : List (ℕ × ℕ)) where
    head_chains-once :
        (chains : List (ℕ × List ℕ)) (macros : List ℕ)
        → AtMostOnce macros
        → FromHeads chains macros
        → AtMostOnce (links chains)
        → AtMostOnce (links (head_chains l depth chains macros))
    unfolding head_chains FromHeads
    head_chains-once chains [] distinct from once = once
    head_chains-once chains (m ∷ macros) distinct from once =
        elim (Bool-cases (contains l.has_pred m)) [
          | inl linked ↦
              rw (head_chains, linked)
                (head_chains-once chains macros (rest_macros m macros distinct)
                  (λ x h. let (k, out, free, f) = from x h in (k, ground arith, free, f)) once)
          | inr head ↦
              let tail = chain_from l.succ (macro_max_lanes - 1) m in
              let chain = m ∷ tail in
              let self : (m == m) ≡ true = ground arith in
              let leads : (x : ℕ) → contains chain x ≡ true → From m x = λ x h.
                elim (Bool-cases (m == x)) [
                  | inl same ↦ subst (λ t. From m t) ((==_iff m x).0 same) here
                  | inr other ↦ chain_from-From m (macro_max_lanes - 1) m x here (rw other at h)
                ] in
              let apart : (x : ℕ) → contains (links chains) x ≡ true → contains chain x ≡ false =
                λ x h. elim (Bool-cases (contains chain x)) [
                  | inr absent ↦ absent
                  | inl both ↦
                      let (k, out, free, f) = from x h in
                      let same : k ≡ m = one_head free head f (leads x both) in
                      let listed : contains (m ∷ macros) k ≡ true =
                        ap (contains (m ∷ macros)) same ∙ rw self refl in
                      cc
                ] in
              let grown = links-last chains (depth_of depth m) chain in
              rw (head_chains, head)
                (head_chains-once (chains ++ (depth_of depth m, chain) ∷ []) macros
                  (rest_macros m macros distinct)
                  (λ x h.
                    let h' = rw grown at h in
                    elim (Bool-cases (contains (links chains) x)) [
                      | inl old ↦ let (k, out, free, f) = from x old in (k, ground arith, free, f)
                      | inr fresh ↦
                          let new : contains chain x ≡ true =
                            ground (arith, contains-append (links chains) chain x) in
                          (m, not_again m macros distinct, head, leads x new)
                    ])
                  (rw grown (
                    AtMostOnce-append (links chains) chain once
                      (first_once l rank are m tail
                        (λ x. chain_from-rising l rank are (macro_max_lanes - 1) m x)
                        (chain_from-once l rank are (macro_max_lanes - 1) m))
                      apart)))
        ]

    rest_chains-once :
        (placed : List ℕ) (chains : List (ℕ × List ℕ)) (macros : List ℕ)
        → ((x : ℕ) → contains (links chains) x ≡ true → contains placed x ≡ true)
        → AtMostOnce (links chains)
        → AtMostOnce (links (rest_chains l depth placed chains macros))
    unfolding rest_chains
    rest_chains-once placed chains [] known once = once
    rest_chains-once placed chains (m ∷ macros) known once = elim (Bool-cases (contains placed m)) [
      | inl old ↦ rw (old, rest_chains) (rest_chains-once placed chains macros known once)
      | inr new ↦
          let tail = unplaced_from l.succ placed (macro_max_lanes - 1) m in
          let chain = m ∷ tail in
          let apart : (x : ℕ) → contains (links chains) x ≡ true → contains chain x ≡ false = λ x h.
            elim (Bool-cases (contains chain x)) [
              | inr absent ↦ absent
              | inl both ↦
                  let is_placed = known x h in
                  elim (Bool-cases (m == x)) [
                    | inl same ↦
                        let is_new = ap (contains placed) (sym ((==_iff m x).0 same)) ∙ new in cc
                    | inr other ↦
                        let (_, is_new) =
                          unplaced_from-rising l rank are placed (macro_max_lanes - 1) m x
                            (rw other at both) in
                        cc
                  ]
            ] in
          let grown = links-last chains (depth_of depth m) chain in
          rw (new, rest_chains)
            (rest_chains-once (set_extend placed chain) (chains ++ (depth_of depth m, chain) ∷ [])
              macros
              (λ x h.
                let h' = rw (grown, contains-append (links chains) chain x) at h in
                contains-set_extend placed chain x
                ∙ or_mono (contains (links chains) x) (contains placed x) (contains chain x)
                    (known x) h')
              (rw grown (
                AtMostOnce-append (links chains) chain once
                  (first_once l rank are m tail
                    (λ x h. (unplaced_from-rising l rank are placed (macro_max_lanes - 1) m x h).0)
                    (unplaced_from-once l rank are placed (macro_max_lanes - 1) m))
                  apart)))
    ]

count-insert_chain :
    (x : ℕ) (c : ℕ × List ℕ) (chains : List (ℕ × List ℕ))
    → count x (links (insert_chain c chains)) ≡ count x c.1 + count x (links chains)
count-insert_chain x (d, c) [] = count-append x c []
count-insert_chain x (d, c) ((e, f) ∷ chains) = elim (Bool-cases (key_le (d, c) (e, f))) [
  | inl before ↦ rw before (count-append x c (f ++ links chains))
  | inr after ↦ rw after (
      omega (
        arith,
        count-append x f (links (insert_chain (d, c) chains)),
        count-append x f (links chains),
        count-insert_chain x (d, c) chains,
      ))
]

count-sort_chains :
    (x : ℕ) (chains : List (ℕ × List ℕ))
    → count x (links (sort_chains chains)) ≡ count x (links chains)
unfolding sort_chains
count-sort_chains x [] = refl
count-sort_chains x ((d, c) ∷ chains) = omega (
  arith,
  count-insert_chain x (d, c) (sort_chains chains),
  count-append x c (links chains),
  count-sort_chains x chains,
)

-- Where each macro is named once in the cone and the links are those of carry chains, that is, a
-- macro continues one macro at most, which comes before it, and is marked then, every macro of the
-- cone has exactly one lane in the waves.
pub waves_of-once :
    (in_cone : List ℕ) (l : Links) (depth : List (ℕ × ℕ)) (rank : ℕ → ℕ)
    → AreLinks l rank
    → ((m : ℕ) → count m in_cone ≤ 1)
    → (m : ℕ) → contains in_cone m ≡ true
    → count m (lanes (waves_of in_cone l depth)) ≡ 1
unfolding AtMostOnce FromHeads count
waves_of-once in_cone l depth rank are distinct m is_in =
    let heads = head_chains l depth [] in_cone in
    let chains = chains_of in_cone l depth in
    let heads_once : AtMostOnce (links heads) =
      head_chains-once l rank are depth [] in_cone distinct (λ x h. cc) (λ x. omega arith) in
    let once : AtMostOnce (links chains) =
      rest_chains-once l rank are depth (placed_in [] heads) heads in_cone
        (λ x h. placed_in-links [] heads x ∙ h) heads_once in
    let (_, _, _, _, _, _, covered) = waves_of-AreWaves in_cone l depth in
    omega (
      arith,
      ap (count m) (lanes-waves_of in_cone l depth),
      count-sort_chains m chains,
      once m,
      count-pos m (lanes (waves_of in_cone l depth)) (covered m is_in),
    )
