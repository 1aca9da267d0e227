-- ===== src/Pe/Waves/Chains/Placed.antt =====
-- src/pe.rs: the macros that stand in a list of chains of `order_macro_waves`.
use gem_macro_optimization.Base.{
  append_assoc, ℕ, zero, suc, ◌≤◌, Bool, true, false, ◌||◌, List, [], ◌∷◌, ◌++◌, map, length,
  contains, contains-append, contains-set_extend, set_extend, Option-cases, ◌≡◌, refl, sym, ap, ◌∙◌,
  inl, inr, Bool-cases, arith,
}
use gem_macro_optimization.Base.Maps.{map_get}
use gem_macro_optimization.Pe.Waves.Chains.{
  chain_from, unplaced_from, placed_in, key_le, insert_chain, sort_chains,
}
use gem_macro_optimization.Pe.Waves.Chains.Packed.{lanes, wave_of, tag, ungroup}

pub length-chain_from : (succ : List (ℕ × ℕ)) (n cur : ℕ) → length (chain_from succ n cur) ≤ n
unfolding chain_from
length-chain_from succ zero cur = omega arith
length-chain_from succ (suc n) cur = elim (Option-cases (map_get succ cur)) [
  | inl end ↦ rw (chain_from, end) (omega arith)
  | inr (next, more) ↦
      rw (chain_from, more) (let rest = length-chain_from succ n next in omega arith)
]

pub length-unplaced_from :
    (succ : List (ℕ × ℕ)) (placed : List ℕ) (n cur : ℕ)
    → length (unplaced_from succ placed n cur) ≤ n
unfolding unplaced_from
length-unplaced_from succ placed zero cur = omega arith
length-unplaced_from succ placed (suc n) cur = elim (Option-cases (map_get succ cur)) [
  | inl end ↦ rw (unplaced_from, end) (omega arith)
  | inr (next, more) ↦ elim (Bool-cases (contains placed next)) [
    | inl old ↦ rw (unplaced_from, more) (rw (old, unplaced_from) (omega arith))
    | inr new ↦
        let rest = length-unplaced_from succ placed n next in
        rw (unplaced_from, more) (rw (new, unplaced_from) (omega arith))
  ]
]

-- All the links of some chains.
abbrev pub links : List (ℕ × List ℕ) → List ℕ
links [] = []
links ((d, chain) ∷ chains) = chain ++ links chains

pub contains-links-append :
    (xs ys : List (ℕ × List ℕ)) (m : ℕ)
    → contains (links (xs ++ ys)) m ≡ (contains (links xs) m || contains (links ys) m)
contains-links-append [] ys m = refl
contains-links-append ((d, chain) ∷ xs) ys m = ground (
  arith,
  contains-append chain (links (xs ++ ys)) m,
  contains-append chain (links xs) m,
  contains-links-append xs ys m,
)

pub contains-insert_chain :
    (c : ℕ × List ℕ) (chains : List (ℕ × List ℕ)) (m : ℕ)
    → contains (links (insert_chain c chains)) m ≡ (contains c.1 m || contains (links chains) m)
contains-insert_chain (d, c) [] m = contains-append c [] m
contains-insert_chain (d, c) ((e, f) ∷ chains) m = elim (Bool-cases (key_le (d, c) (e, f))) [
  | inl before ↦ rw before (contains-append c (f ++ links chains) m)
  | inr after ↦ rw after (
      ground (
        arith,
        contains-append f (links (insert_chain (d, c) chains)) m,
        contains-append f (links chains) m,
        contains-insert_chain (d, c) chains m,
      ))
]

pub contains-sort_chains :
    (chains : List (ℕ × List ℕ)) (m : ℕ)
    → contains (links (sort_chains chains)) m ≡ contains (links chains) m
unfolding sort_chains
contains-sort_chains [] m = refl
contains-sort_chains ((d, c) ∷ chains) m = ground (
  arith,
  contains-insert_chain (d, c) (sort_chains chains) m,
  contains-append c (links chains) m,
  contains-sort_chains chains m,
)

pub links-tag :
    (d : ℕ) (cs : List (List ℕ)) (rest : List (ℕ × List ℕ))
    → links (tag d cs ++ rest) ≡ (lanes cs ++ links rest)
links-tag d [] rest = refl
links-tag d (c ∷ cs) rest =
    ap (λ t. c ++ t) (links-tag d cs rest) ∙ sym (append_assoc c (lanes cs) (links rest))

pub links-ungroup :
    (groups : List (ℕ × List (List ℕ))) → links (ungroup groups) ≡ lanes (map wave_of groups)
links-ungroup [] = refl
links-ungroup ((d, cs) ∷ groups) =
    links-tag d cs (ungroup groups) ∙ ap (λ t. lanes cs ++ t) (links-ungroup groups)

pub placed_in-links :
    (placed : List ℕ) (chains : List (ℕ × List ℕ)) (m : ℕ)
    → contains (placed_in placed chains) m ≡ (contains placed m || contains (links chains) m)
placed_in-links placed [] m = ground arith
placed_in-links placed ((d, chain) ∷ chains) m = ground (
  arith,
  placed_in-links (set_extend placed chain) chains m,
  contains-set_extend placed chain m,
  contains-append chain (links chains) m,
)

pub or_right : (a b : Bool) → b ≡ true → (a || b) ≡ true
or_right a b h = ground arith

pub or_mono : (a b c : Bool) → (a ≡ true → b ≡ true) → (a || c) ≡ true → (b || c) ≡ true
or_mono true b c grow h = ground (arith, grow refl)
or_mono false b c grow h = ground arith
