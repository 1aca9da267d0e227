-- ===== src/Pe/Waves/Chains/Packed.antt =====
-- src/pe.rs: how `order_macro_waves` sorts the chains and packs them into waves.
use gem_macro_optimization.Base.{
  append_assoc, append_nil, ℕ, ◌+◌, ◌≤◌, true, false, not, ◌||◌, List, [], ◌∷◌, ◌++◌, map, ltb,
  ◌==◌, length, length-append, ◌≡◌, refl, sym, ap, ◌∙◌, inl, inr, Bool-cases, arith,
}
use gem_macro_optimization.Macros.Encode.{macro_max_lanes}
use gem_macro_optimization.Pe.Waves.Chains.{
  key_le, insert_chain, sort_chains, fill_waves, pack_waves, retain_nonempty,
}

-- A predicate holds of each entry.
abbrev pub All {ℓ κ} : {A : Type ℓ} → (A → Type κ) → List A → Type κ
All P [] = Unit
All P (x ∷ xs) = P x × All P xs

pub All-append {ℓ κ} :
    {A : Type ℓ} (P : A → Type κ) (xs ys : List A) → All P xs → All P ys → All P (xs ++ ys)
All-append P [] ys h k = k
All-append P (x ∷ xs) ys h k = (h.0, All-append P xs ys h.1 k)

-- A chain fits a wave.
abbrev pub FitsWave : ℕ × List ℕ → Type 0
FitsWave (d, chain) = (1 ≤ length chain) × (length chain ≤ macro_max_lanes)

-- The depths of a list of chains, or of groups of chains, do not fall.
abbrev pub Ascending {ℓ} : {A : Type ℓ} → ℕ → List (ℕ × A) → Type 0
Ascending lo [] = Unit
Ascending lo ((d, x) ∷ xs) = (lo ≤ d) × Ascending d xs

Ascending-lower {ℓ} :
    {A : Type ℓ} (lo hi : ℕ) (xs : List (ℕ × A)) → lo ≤ hi → Ascending hi xs → Ascending lo xs
Ascending-lower lo hi [] le h = tt
Ascending-lower lo hi ((d, x) ∷ xs) le (first, rest) = (omega arith, rest)

module _ {κ} (P : ℕ × List ℕ → Type κ) where
  All-insert_chain :
      (c : ℕ × List ℕ) (chains : List (ℕ × List ℕ))
      → P c
      → All P chains
      → All P (insert_chain c chains)
  All-insert_chain c [] p h = (p, tt)
  All-insert_chain c (e ∷ chains) p h = elim (Bool-cases (key_le c e)) [
    | inl le ↦ rw le (p, h)
    | inr gt ↦ rw gt (h.0, All-insert_chain c chains p h.1)
  ]

  pub All-sort_chains : (chains : List (ℕ × List ℕ)) → All P chains → All P (sort_chains chains)
  unfolding sort_chains
  All-sort_chains [] h = tt
  All-sort_chains (c ∷ chains) h =
      All-insert_chain c (sort_chains chains) h.0 (All-sort_chains chains h.1)

key_le-true : (c e : ℕ × List ℕ) → key_le c e ≡ true → c.0 ≤ e.0
key_le-true (d, c) (e, f) h = ground arith

key_le-false : (c e : ℕ × List ℕ) → key_le c e ≡ false → e.0 ≤ c.0
key_le-false (d, c) (e, f) h = ground arith

insert-Ascending :
    (lo : ℕ) (c : ℕ × List ℕ) (chains : List (ℕ × List ℕ))
    → lo ≤ c.0
    → Ascending lo chains
    → Ascending lo (insert_chain c chains)
insert-Ascending lo c [] le h = (le, tt)
insert-Ascending lo c (e ∷ chains) le h = elim (Bool-cases (key_le c e)) [
  | inl before ↦ rw before (le, (key_le-true c e before, h.1))
  | inr after ↦ rw after (h.0, insert-Ascending e.0 c chains (key_le-false c e after) h.1)
]

sort-Ascending : (chains : List (ℕ × List ℕ)) → Ascending 0 (sort_chains chains)
unfolding sort_chains
sort-Ascending [] = tt
sort-Ascending (c ∷ chains) =
    insert-Ascending 0 c (sort_chains chains) (omega arith) (sort-Ascending chains)

-- The lanes of some chains, and the chains of some groups of equal depth.
abbrev pub lanes : List (List ℕ) → List ℕ
lanes [] = []
lanes (chain ∷ chains) = chain ++ lanes chains

abbrev pub wave_of : ℕ × List (List ℕ) → List ℕ
wave_of (d, chains) = lanes chains

abbrev pub tag : ℕ → List (List ℕ) → List (ℕ × List ℕ)
tag d [] = []
tag d (chain ∷ chains) = (d, chain) ∷ tag d chains

abbrev pub ungroup : List (ℕ × List (List ℕ)) → List (ℕ × List ℕ)
ungroup [] = []
ungroup ((d, chains) ∷ groups) = tag d chains ++ ungroup groups

abbrev pub FitsLanes : ℕ × List (List ℕ) → Type 0
FitsLanes g = (1 ≤ length (wave_of g)) × (length (wave_of g) ≤ macro_max_lanes)

lanes-last : (cs : List (List ℕ)) (c : List ℕ) → lanes (cs ++ c ∷ []) ≡ (lanes cs ++ c)
lanes-last [] c = append_nil c
lanes-last (x ∷ cs) c = ap (λ t. x ++ t) (lanes-last cs c) ∙ sym (append_assoc x (lanes cs) c)

tag-last :
    (d : ℕ) (cs : List (List ℕ)) (c : List ℕ) (rest : List (ℕ × List ℕ))
    → (tag d (cs ++ c ∷ []) ++ rest) ≡ (tag d cs ++ (d, c) ∷ rest)
tag-last d [] c rest = refl
tag-last d (x ∷ cs) c rest = ap (λ t. (d, x) ∷ t) (tag-last d cs c rest)

-- A grouping of chains: the waves are the groups' lanes.
pub record IsGrouping (lo : ℕ) (chains : List (ℕ × List ℕ)) (waves : List (List ℕ))
    (groups : List (ℕ × List (List ℕ))) : Type 0 where
  pub same_chains : ungroup groups ≡ chains
  pub same_waves : waves ≡ map wave_of groups
  pub ascending : Ascending lo groups
  pub fit : All FitsLanes groups

fill-IsGrouping :
    (d : ℕ) (cs : List (List ℕ)) (chains : List (ℕ × List ℕ))
    → FitsLanes (d, cs)
    → All FitsWave chains
    → Ascending d chains
    → (groups : List (ℕ × List (List ℕ))) × IsGrouping d
        (tag d cs ++ chains)
        (fill_waves d (lanes cs) chains)
        groups
unfolding fill_waves
fill-IsGrouping d cs [] fits all asc = (
  (d, cs) ∷ [],
  record { same_chains = refl; same_waves = refl; ascending = (omega arith, tt); fit = (fits, tt) },
)
fill-IsGrouping d cs ((e, chain) ∷ chains) fits all asc =
    let w = lanes cs in
    let test = not (e == d) || ltb macro_max_lanes (length w + length chain) in
    elim (Bool-cases test) [
      | inl new ↦
          let alone : lanes (chain ∷ []) ≡ chain = append_nil chain in
          let (groups, g) = fill-IsGrouping e (chain ∷ []) chains (rw alone all.0) all.1 asc.1 in
          (
            (d, cs) ∷ groups,
            record {
              same_chains = ap (λ t. tag d cs ++ t) g.same_chains;
              same_waves = rw (fill_waves, new) (ap (λ t. w ∷ t) (rw alone at g.same_waves));
              ascending = (omega arith, Ascending-lower d e groups asc.0 g.ascending);
              fit = (fits, g.fit);
            },
          )
      | inr more ↦
          let same : e ≡ d = ground arith in
          let longer = length-append w chain in
          let short : length w + length chain ≤ macro_max_lanes = ground arith in
          let joined = lanes-last cs chain in
          let lens : length (lanes (cs ++ chain ∷ [])) ≡ length w + length chain =
            ap length joined ∙ longer in
          let (groups, g) =
            fill-IsGrouping d (cs ++ chain ∷ []) chains (omega arith, omega arith) all.1
              (rw same at asc.1) in
          (
            groups,
            record {
              same_chains = g.same_chains ∙ tag-last d cs chain chains ∙ rw same refl;
              same_waves = rw (fill_waves, more) (rw joined at g.same_waves);
              ascending = g.ascending;
              fit = g.fit;
            },
          )
    ]

pub pack-IsGrouping :
    (chains : List (ℕ × List ℕ))
    → All FitsWave chains
    → (groups : List (ℕ × List (List ℕ))) × IsGrouping 0
        (sort_chains chains)
        (pack_waves (sort_chains chains))
        groups
unfolding pack_waves
pack-IsGrouping chains all =
    pack_sorted (sort_chains chains) (All-sort_chains FitsWave chains all) (sort-Ascending chains)
  where
    pack_sorted :
        (sorted : List (ℕ × List ℕ))
        → All FitsWave sorted
        → Ascending 0 sorted
        → (groups : List (ℕ × List (List ℕ))) × IsGrouping 0 sorted (pack_waves sorted) groups
    pack_sorted [] fits asc =
        ([], record { same_chains = refl; same_waves = refl; ascending = tt; fit = tt })
    pack_sorted ((d, chain) ∷ rest) fits asc =
        let alone : lanes (chain ∷ []) ≡ chain = append_nil chain in
        let (groups, g) = fill-IsGrouping d (chain ∷ []) rest (rw alone fits.0) fits.1 asc.1 in
        (
          groups,
          record {
            same_chains = g.same_chains;
            same_waves = rw alone at g.same_waves;
            ascending = Ascending-lower 0 d groups (omega arith) g.ascending;
            fit = g.fit;
          },
        )

-- Waves that have lanes are all retained.
pub retain-wave_of :
    (groups : List (ℕ × List (List ℕ)))
    → All FitsLanes groups
    → retain_nonempty (map wave_of groups) ≡ map wave_of groups
retain-wave_of [] fit = refl
retain-wave_of (g ∷ groups) fit =
    keep (wave_of g) fit.0.0 ∙ ap (λ t. wave_of g ∷ t) (retain-wave_of groups fit.1)
  where
    keep :
        (w : List ℕ)
        → 1 ≤ length w
        → retain_nonempty (w ∷ map wave_of groups) ≡ w ∷ retain_nonempty (map wave_of groups)
    keep [] h = absurd (omega arith)
    keep (x ∷ w) h = refl
