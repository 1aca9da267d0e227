-- ===== src/Pe/Waves/Chains/Covered.antt =====
-- src/pe.rs: what the waves of `order_macro_waves` hold.
use gem_macro_optimization.Base.{
  append_nil, ℕ, ◌-◌, true, ◌||◌, List, [], ◌∷◌, ◌++◌, map, ◌==◌, ==_iff, get_or, contains,
  contains-set_extend, set_extend, ◌≡◌, refl, sym, ap, ◌∙◌, inl, inr, Bool-cases, arith,
}
use gem_macro_optimization.Macros.Encode.{macro_max_lanes}
use gem_macro_optimization.Pe.Waves.{depth_of, Links}
use gem_macro_optimization.Pe.Waves.Chains.{
  chain_from, unplaced_from, head_chains, rest_chains, placed_in, waves_of, sort_chains,
}
use gem_macro_optimization.Pe.Waves.Chains.Packed.{
  All, All-append, All-sort_chains, FitsWave, FitsLanes, Ascending, lanes, wave_of, ungroup,
  pack-IsGrouping, retain-wave_of,
}
use gem_macro_optimization.Pe.Waves.Chains.Followed.{
  AreFollowed, head_chains-AreFollowed, rest_chains-AreFollowed,
}
use gem_macro_optimization.Pe.Waves.Chains.Placed.{
  length-chain_from, length-unplaced_from, links, contains-links-append, contains-sort_chains,
  links-ungroup, placed_in-links, or_right, or_mono,
}

module _ (l : Links) (depth : List (ℕ × ℕ)) where
  -- A chain that fits a wave, with the depth of its first link for its key.
  abbrev pub IsChain : ℕ × List ℕ → Type 0
  IsChain (d, chain) = FitsWave (d, chain) × (d ≡ depth_of depth (get_or chain 0 0))

  abbrev head_chain : ℕ → ℕ × List ℕ
  head_chain m = (depth_of depth m, m ∷ chain_from l.succ (macro_max_lanes - 1) m)

  abbrev rest_chain : List ℕ → ℕ → List ℕ
  rest_chain placed m = m ∷ unplaced_from l.succ placed (macro_max_lanes - 1) m

  abbrev with_rest : List ℕ → List (ℕ × List ℕ) → ℕ → List (ℕ × List ℕ)
  with_rest placed chains m = chains ++ (depth_of depth m, rest_chain placed m) ∷ []

  head_chains-IsChain :
      (chains : List (ℕ × List ℕ)) (macros : List ℕ)
      → All IsChain chains
      → All IsChain (head_chains l depth chains macros)
  unfolding head_chains
  head_chains-IsChain chains [] all = all
  head_chains-IsChain chains (m ∷ macros) all =
      let short = length-chain_from l.succ (macro_max_lanes - 1) m in
      elim (Bool-cases (contains l.has_pred m)) [
        | inl linked ↦ rw (head_chains, linked) (head_chains-IsChain chains macros all)
        | inr head ↦
            rw (head_chains, head)
              (head_chains-IsChain (chains ++ head_chain m ∷ []) macros (
                All-append IsChain chains (head_chain m ∷ []) all
                  (((omega arith, omega arith), refl), tt)))
      ]

  rest_chains-IsChain :
      (placed : List ℕ) (chains : List (ℕ × List ℕ)) (macros : List ℕ)
      → All IsChain chains
      → All IsChain (rest_chains l depth placed chains macros)
  unfolding rest_chains
  rest_chains-IsChain placed chains [] all = all
  rest_chains-IsChain placed chains (m ∷ macros) all =
      let short = length-unplaced_from l.succ placed (macro_max_lanes - 1) m in
      elim (Bool-cases (contains placed m)) [
        | inl old ↦ rw (old, rest_chains) (rest_chains-IsChain placed chains macros all)
        | inr new ↦
            rw (new, rest_chains)
              (rest_chains-IsChain (set_extend placed (rest_chain placed m))
                (with_rest placed chains m) macros
                (All-append IsChain chains ((depth_of depth m, rest_chain placed m) ∷ []) all
                  (((omega arith, omega arith), refl), tt)))
      ]

  -- The second pass keeps the chains that there are, and places each macro that is not.
  rest_chains-keeps :
      (placed : List ℕ) (chains : List (ℕ × List ℕ)) (macros : List ℕ) (m : ℕ)
      → contains (links chains) m ≡ true
      → contains (links (rest_chains l depth placed chains macros)) m ≡ true
  unfolding rest_chains
  rest_chains-keeps placed chains [] m h = h
  rest_chains-keeps placed chains (j ∷ macros) m h = elim (Bool-cases (contains placed j)) [
    | inl old ↦ rw (old, rest_chains) (rest_chains-keeps placed chains macros m h)
    | inr new ↦
        rw (new, rest_chains)
          (rest_chains-keeps (set_extend placed (rest_chain placed j)) (with_rest placed chains j)
            macros m
            (rw (contains-links-append chains ((depth_of depth j, rest_chain placed j) ∷ []) m, h)
              refl))
  ]

  rest_chains-places :
      (placed : List ℕ) (chains : List (ℕ × List ℕ)) (macros : List ℕ) (m : ℕ)
      → ((x : ℕ) → contains placed x ≡ true → contains (links chains) x ≡ true)
      → contains macros m ≡ true
      → contains (links (rest_chains l depth placed chains macros)) m ≡ true
  unfolding rest_chains
  rest_chains-places placed chains [] m known h = cc
  rest_chains-places placed chains (j ∷ macros) m known h = elim (Bool-cases (contains placed j)) [
    | inl old ↦
        rw (old, rest_chains)
          (elim (Bool-cases (j == m)) [
            | inl same ↦
                let e : j ≡ m = (==_iff j m).0 same in
                rest_chains-keeps placed chains macros m
                  (ap (contains (links chains)) (sym e) ∙ known j old)
            | inr other ↦ rest_chains-places placed chains macros m known (rw other at h)
          ])
    | inr new ↦
        rw (new, rest_chains)
          (let chain = rest_chain placed j in
            let chains' = with_rest placed chains j in
            let added : (x : ℕ)
                → contains (links chains') x ≡ (contains (links chains) x || contains chain x) =
              λ x.
                contains-links-append chains ((depth_of depth j, chain) ∷ []) x
                ∙ ap (λ t. contains (links chains) x || contains t x) (append_nil chain) in
            elim (Bool-cases (j == m)) [
              | inl same ↦
                  rest_chains-keeps (set_extend placed (rest_chain placed j))
                    (with_rest placed chains j) macros m
                    (added m
                      ∙ or_right (contains (links chains) m) (contains chain m) (rw same refl))
              | inr other ↦
                  rest_chains-places (set_extend placed (rest_chain placed j))
                    (with_rest placed chains j) macros m
                    (λ x is_in.
                      added x
                      ∙ or_mono (contains placed x) (contains (links chains) x) (contains chain x)
                          (known x) (sym (contains-set_extend placed chain x) ∙ is_in))
                    (rw other at h)
            ])
  ]

All-FitsWave :
    (l : Links) (depth : List (ℕ × ℕ)) (chains : List (ℕ × List ℕ))
    → All (IsChain l depth) chains
    → All FitsWave chains
All-FitsWave l depth [] h = tt
All-FitsWave l depth (c ∷ chains) h = (h.0.0, All-FitsWave l depth chains h.1)

abbrev pub chains_of : List ℕ → Links → List (ℕ × ℕ) → List (ℕ × List ℕ)
chains_of in_cone l depth =
    let heads = head_chains l depth [] in_cone in
    rest_chains l depth (placed_in [] heads) heads in_cone

pub chains_of-IsChain :
    (in_cone : List ℕ) (l : Links) (depth : List (ℕ × ℕ))
    → All (IsChain l depth) (chains_of in_cone l depth)
chains_of-IsChain in_cone l depth =
    let heads = head_chains l depth [] in_cone in
    rest_chains-IsChain l depth (placed_in [] heads) heads in_cone
      (head_chains-IsChain l depth [] in_cone tt)

-- The lanes of the waves are the macros of the sorted chains.
pub lanes-waves_of :
    (in_cone : List ℕ) (l : Links) (depth : List (ℕ × ℕ))
    → lanes (waves_of in_cone l depth) ≡ links (sort_chains (chains_of in_cone l depth))
unfolding waves_of
lanes-waves_of in_cone l depth =
    let chains = chains_of in_cone l depth in
    let (groups, g) =
      pack-IsGrouping chains (All-FitsWave l depth chains (chains_of-IsChain in_cone l depth)) in
    let same : waves_of in_cone l depth ≡ map wave_of groups =
      rw (waves_of, g.same_waves) (retain-wave_of groups g.fit) in
    ap lanes same ∙ sym (links-ungroup groups) ∙ ap links g.same_chains

pub waves_of-AreWaves :
    (in_cone : List ℕ) (l : Links) (depth : List (ℕ × ℕ))
    → (groups : List (ℕ × List (List ℕ))) × (waves_of in_cone l depth ≡ map wave_of groups)
      × Ascending 0 groups
      × All FitsLanes groups
      × All (IsChain l depth) (ungroup groups)
      × ((chains : List (ℕ × List ℕ)) × (ungroup groups ≡ sort_chains chains)
          × AreFollowed l.succ [] chains)
      × ((m : ℕ) → contains in_cone m ≡ true → contains (lanes (waves_of in_cone l depth)) m ≡ true)
unfolding waves_of
waves_of-AreWaves in_cone l depth =
    let heads = head_chains l depth [] in_cone in
    let chains = chains_of in_cone l depth in
    let ours = chains_of-IsChain in_cone l depth in
    let (groups, g) = pack-IsGrouping chains (All-FitsWave l depth chains ours) in
    let same : waves_of in_cone l depth ≡ map wave_of groups =
      rw (waves_of, g.same_waves) (retain-wave_of groups g.fit) in
    let placed : (x : ℕ)
        → contains (placed_in [] heads) x ≡ true
        → contains (links heads) x ≡ true =
      λ x h. sym (placed_in-links [] heads x) ∙ h in
    (
      groups,
      same,
      g.ascending,
      g.fit,
      rw g.same_chains (All-sort_chains (IsChain l depth) chains ours),
      (
        chains,
        g.same_chains,
        rest_chains-AreFollowed l depth (placed_in [] heads) heads in_cone placed
            (head_chains-AreFollowed l depth [] in_cone tt),
      ),
      λ m is_in.
          ap (λ t. contains t m) (lanes-waves_of in_cone l depth)
          ∙ contains-sort_chains chains m
          ∙ rest_chains-places l depth (placed_in [] heads) heads in_cone m placed is_in,
    )
