-- ===== src/Pe/Waves/Chains/Followed.antt =====
-- src/pe.rs: how far the chains of `order_macro_waves` follow their links.
use gem_macro_optimization.Base.{
  append_assoc, append_nil, ℕ, zero, suc, ◌-◌, true, ◌||◌, List, [], ◌∷◌, ◌++◌, none, some,
  contains, contains-set_extend, set_extend, ◌≡◌, ◌⊎◌, refl, sym, ap, ◌∙◌, inl, inr, Bool-cases,
  Option-cases,
}
use gem_macro_optimization.Base.Maps.{map_get}
use gem_macro_optimization.Macros.Encode.{macro_max_lanes}
use gem_macro_optimization.Pe.Waves.{depth_of, Links}
use gem_macro_optimization.Pe.Waves.Chains.{chain_from, unplaced_from, head_chains, rest_chains}
use gem_macro_optimization.Pe.Waves.Chains.Placed.{links, or_mono, contains-links-append}

module _ (succ : List (ℕ × ℕ)) where
  -- Each macro of a chain is the successor of the one before it, and the last has no successor, or
  -- one that is placed, or there is no room for more.
  abbrev pub IsFollowed : List ℕ → ℕ → List ℕ → Type 0
  IsFollowed placed room [] = ⊥
  IsFollowed placed room (m ∷ []) =
      (room ≡ 0)
      ⊎ ((map_get succ m ≡ none)
          ⊎ ((next : ℕ) × (map_get succ m ≡ some next) × (contains placed next ≡ true)))
  IsFollowed placed zero (m ∷ x ∷ chain) = ⊥
  IsFollowed placed (suc room) (m ∷ x ∷ chain) =
      (map_get succ m ≡ some x) × IsFollowed placed room (x ∷ chain)

  -- The chains, one after the other, where the macros of the chains before count as placed.
  abbrev pub AreFollowed : List ℕ → List (ℕ × List ℕ) → Type 0
  AreFollowed placed [] = Unit
  AreFollowed placed ((d, chain) ∷ chains) =
      IsFollowed placed (macro_max_lanes - 1) chain × AreFollowed (placed ++ chain) chains

  chain_from-IsFollowed :
      (placed : List ℕ) (n cur : ℕ) → IsFollowed placed n (cur ∷ chain_from succ n cur)
  unfolding chain_from
  chain_from-IsFollowed placed zero cur = inl refl
  chain_from-IsFollowed placed (suc n) cur = elim (Option-cases (map_get succ cur)) [
    | inl end ↦ rw (chain_from, end) (inr (inl end))
    | inr (next, more) ↦ rw (chain_from, more) (more, chain_from-IsFollowed placed n next)
  ]

  unplaced_from-IsFollowed :
      (placed known : List ℕ) (n cur : ℕ)
      → ((x : ℕ) → contains known x ≡ true → contains placed x ≡ true)
      → IsFollowed placed n (cur ∷ unplaced_from succ known n cur)
  unfolding unplaced_from
  unplaced_from-IsFollowed placed known zero cur all = inl refl
  unplaced_from-IsFollowed placed known (suc n) cur all = elim (Option-cases (map_get succ cur)) [
    | inl end ↦ rw (unplaced_from, end) (inr (inl end))
    | inr (next, more) ↦ elim (Bool-cases (contains known next)) [
      | inl old ↦
          rw (unplaced_from, more) (rw (old, unplaced_from) (inr (inr (next, more, all next old))))
      | inr new ↦
          rw (unplaced_from, more)
            (rw (new, unplaced_from) (more, unplaced_from-IsFollowed placed known n next all))
    ]
  ]

  AreFollowed-last :
      (placed : List ℕ) (chains : List (ℕ × List ℕ)) (d : ℕ) (chain : List ℕ)
      → AreFollowed placed chains
      → IsFollowed (placed ++ links chains) (macro_max_lanes - 1) chain
      → AreFollowed placed (chains ++ (d, chain) ∷ [])
  AreFollowed-last placed [] d chain all last = (rw (append_nil placed) at last, tt)
  AreFollowed-last placed ((e, c) ∷ chains) d chain all last = (
    all.0,
    AreFollowed-last (placed ++ c) chains d chain all.1
        (rw (append_assoc placed c (links chains)) last),
  )

module _ (l : Links) (depth : List (ℕ × ℕ)) where
  pub head_chains-AreFollowed :
      (chains : List (ℕ × List ℕ)) (macros : List ℕ)
      → AreFollowed l.succ [] chains
      → AreFollowed l.succ [] (head_chains l depth chains macros)
  unfolding head_chains
  head_chains-AreFollowed chains [] all = all
  head_chains-AreFollowed chains (m ∷ macros) all = elim (Bool-cases (contains l.has_pred m)) [
    | inl linked ↦ rw (head_chains, linked) (head_chains-AreFollowed chains macros all)
    | inr head ↦
        let chain = m ∷ chain_from l.succ (macro_max_lanes - 1) m in
        rw (head_chains, head)
          (head_chains-AreFollowed (chains ++ (depth_of depth m, chain) ∷ []) macros (
            AreFollowed-last l.succ [] chains (depth_of depth m) chain all
              (chain_from-IsFollowed l.succ (links chains) (macro_max_lanes - 1) m)))
  ]

  pub rest_chains-AreFollowed :
      (placed : List ℕ) (chains : List (ℕ × List ℕ)) (macros : List ℕ)
      → ((x : ℕ) → contains placed x ≡ true → contains (links chains) x ≡ true)
      → AreFollowed l.succ [] chains
      → AreFollowed l.succ [] (rest_chains l depth placed chains macros)
  unfolding rest_chains
  rest_chains-AreFollowed placed chains [] known all = all
  rest_chains-AreFollowed placed chains (m ∷ macros) known all =
      elim (Bool-cases (contains placed m)) [
        | inl old ↦ rw (old, rest_chains) (rest_chains-AreFollowed placed chains macros known all)
        | inr new ↦
            let chain = m ∷ unplaced_from l.succ placed (macro_max_lanes - 1) m in
            rw (new, rest_chains)
              (rest_chains-AreFollowed (set_extend placed chain)
                (chains ++ (depth_of depth m, chain) ∷ []) macros
                (λ x is_in.
                  contains-links-append chains ((depth_of depth m, chain) ∷ []) x
                  ∙ ap (λ t. contains (links chains) x || contains t x) (append_nil chain)
                  ∙ or_mono (contains placed x) (contains (links chains) x) (contains chain x)
                      (known x) (sym (contains-set_extend placed chain x) ∙ is_in))
                (AreFollowed-last l.succ [] chains (depth_of depth m) chain all (
                  unplaced_from-IsFollowed l.succ (links chains) placed (macro_max_lanes - 1) m
                    known)))
      ]
