-- ===== src/Pe/Boomerang/Tree.antt =====
-- src/pe.rs: the tree that `place_bit` lays out.
use native.Mathlib.Nat.{mul-add-mod_self_left, mod-eq_of_lt, div-add-mod}
use gem_macro_optimization.Base.{
  ℕ, zero, suc, ◌+◌, ◌*◌, ◌/◌, ◌%◌, ◌≤◌, ◌<◌, List, [], ◌∷◌, some, ok, ◌==◌, length, length-set,
  get_elem?, get_or, get_or-set_self, get_or-set_ne, set, ◌≡◌, ◌≢◌, ◌⊎◌, inl, inr, refl, ap, ◌∙◌,
  arith, Bool-cases,
}
use gem_macro_optimization.Base.Stores.{store-ok}
use gem_macro_optimization.Aig.{Aig, and_gate, driver}
use gem_macro_optimization.Pe.Boomerang.{store_node, level_of}

-- `hier[k][p]`
abbrev pub node : List (List ℕ) → ℕ → ℕ → ℕ
node hier k p = get_or (get_or hier k []) p 0

-- The levels `h`, `h - 1`, …, 0 of the hierarchy have `w`, `2 w`, `4 w`, … places.
abbrev pub IsSized : List (List ℕ) → ℕ → ℕ → Type 0
IsSized hier zero w = (0 < length hier) × (length (get_or hier 0 []) ≡ w)
IsSized hier (suc h) w =
    (suc h < length hier) × (length (get_or hier (suc h) []) ≡ w) × IsSized hier h (2 * w)

-- The tree below place `j` of level `h`, of `w` places: the root is at its place, and a pin of a
-- lower level is handed down to its own place, while one of this level is a gate whose operands'
-- pins are at its place and `w` places on. At level 0 stand pins of level 0.
module _ (aig : Aig) (level : List ℕ) (id2order : List (ℕ × ℕ)) where
  abbrev pub IsTree : List (List ℕ) → ℕ → ℕ → ℕ → ℕ → Type 0
  IsTree hier zero w j nd = (node hier 0 j ≡ nd) × (level_of id2order level nd ≡ ok 0)
  IsTree hier (suc h) w j nd =
      (node hier (suc h) j ≡ nd)
      × (((l : ℕ) × (level_of id2order level nd ≡ ok l) × (l ≤ h) × IsTree hier h (2 * w) j nd)
          ⊎ ((a b : ℕ) × (level_of id2order level nd ≡ ok (suc h))
              × (driver aig nd ≡ and_gate a b)
              × IsTree hier h (2 * w) j (a / 2)
              × IsTree hier h (2 * w) (j + w) (b / 2)))

module _ (aig : Aig) where
  -- Each pin above level 0 is a gate whose operands have lower levels.
  pub record AreLevels (level : List ℕ) (id2order : List (ℕ × ℕ)) : Type 0 where
    pub gates :
        (nd l : ℕ)
        → level_of id2order level nd ≡ ok (suc l)
        → (a b la lb : ℕ) × (get_elem? aig.drivers nd ≡ some (and_gate a b))
          × (level_of id2order level (a / 2) ≡ ok la)
          × (la ≤ l)
          × (level_of id2order level (b / 2) ≡ ok lb)
          × (lb ≤ l)

-- A place below place `j` of `w` is left as it was unless its remainder by `w` is `j`.
pub record KeepsOthers (hier hier' : List (List ℕ)) (h w j : ℕ) : Type 0 where
  pub same : (k p : ℕ) → (h < k) ⊎ (p % w ≢ j) → node hier' k p ≡ node hier k p
  pub rows : length hier' ≡ length hier
  pub lengths : (k : ℕ) → length (get_or hier' k []) ≡ length (get_or hier k [])

twice : (w q : ℕ) → 2 * w * q ≡ w * (2 * q)
twice w q = grind arith

twice_and_one : (w q : ℕ) → 2 * w * q + w ≡ w * (2 * q + 1)
twice_and_one w q = grind arith

pub mod-of_double : (p w j : ℕ) → 0 < w → j < w → p % (2 * w) ≡ j → p % w ≡ j
mod-of_double p w j pos lt e =
    let q = p / (2 * w) in
    let split : p ≡ w * (2 * q) + j = omega (arith, div-add-mod p (2 * w), twice w q, e) in
    ap (λ (t : ℕ). t % w) split ∙ mul-add-mod_self_left w (2 * q) j ∙ mod-eq_of_lt lt

pub mod-of_double_right : (p w j : ℕ) → 0 < w → j < w → p % (2 * w) ≡ j + w → p % w ≡ j
mod-of_double_right p w j pos lt e =
    let q = p / (2 * w) in
    let split : p ≡ w * (2 * q + 1) + j =
      omega (arith, div-add-mod p (2 * w), twice_and_one w q, e) in
    ap (λ (t : ℕ). t % w) split ∙ mul-add-mod_self_left w (2 * q + 1) j ∙ mod-eq_of_lt lt

pub IsSized-kept :
    (hier hier' : List (List ℕ)) (h w : ℕ)
    → length hier' ≡ length hier
    → ((k : ℕ) → length (get_or hier' k []) ≡ length (get_or hier k []))
    → IsSized hier h w
    → IsSized hier' h w
IsSized-kept hier hier' zero w rows lengths s = (omega (arith, s.0), lengths 0 ∙ s.1)
IsSized-kept hier hier' (suc h) w rows lengths s =
    (omega (arith, s.0), lengths (suc h) ∙ s.1, IsSized-kept hier hier' h (2 * w) rows lengths s.2)

pub kept_then :
    (a b c : List (List ℕ)) (h w j : ℕ)
    → KeepsOthers a b h w j
    → KeepsOthers b c h w j
    → KeepsOthers a c h w j
kept_then a b c h w j x y = record {
  same = λ k p out. y.same k p out ∙ x.same k p out;
  rows = y.rows ∙ x.rows;
  lengths = λ k. y.lengths k ∙ x.lengths k;
}

-- What is kept below `i` of the `2 w` places of the next level, `i` being `j` or `j + w`, is kept
-- below `j` of the `w` places of a level.
pub kept_below :
    (a b : List (List ℕ)) (h w j i : ℕ)
    → ((p : ℕ) → p % (2 * w) ≡ i → p % w ≡ j)
    → KeepsOthers a b h (2 * w) i
    → KeepsOthers a b (suc h) w j
kept_below a b h w j i part x = record {
  same = λ k p out. x.same k p (below k p out);
  rows = x.rows;
  lengths = x.lengths;
}
  where
    below : (k p : ℕ) → (suc h < k) ⊎ (p % w ≢ j) → (h < k) ⊎ (p % (2 * w) ≢ i)
    below k p (inl above) = inl (omega arith)
    below k p (inr far) = inr (λ e. far (part p e))

-- A tree is there as long as its places are as they were.
pub IsTree-kept :
    (aig : Aig) (level : List ℕ) (id2order : List (ℕ × ℕ)) (hier hier' : List (List ℕ))
    (h w j nd : ℕ)
    → 0 < w
    → j < w
    → ((k p : ℕ) → k ≤ h → p % w ≡ j → node hier' k p ≡ node hier k p)
    → IsTree aig level id2order hier h w j nd
    → IsTree aig level id2order hier' h w j nd
IsTree-kept aig level id2order hier hier' zero w j nd pos lt same t =
    (same 0 j (omega arith) (mod-eq_of_lt lt) ∙ t.0, t.1)
IsTree-kept aig level id2order hier hier' (suc h) w j nd pos lt same
      (here, inl (l, has, le_l, down)) =
    (
      same (suc h) j (omega arith) (mod-eq_of_lt lt) ∙ here,
      inl (
        l,
        has,
        le_l,
        IsTree-kept aig level id2order hier hier' h (2 * w) j nd (omega arith) (omega arith)
            (λ k p le e. same k p (omega arith) (mod-of_double p w j pos lt e)) down,
      ),
    )
IsTree-kept aig level id2order hier hier' (suc h) w j nd pos lt same
      (here, inr (a, b, has, gate, left, right)) =
    (
      same (suc h) j (omega arith) (mod-eq_of_lt lt) ∙ here,
      inr (
        a,
        b,
        has,
        gate,
        IsTree-kept aig level id2order hier hier' h (2 * w) j (a / 2) (omega arith) (omega arith)
            (λ k p le e. same k p (omega arith) (mod-of_double p w j pos lt e)) left,
        IsTree-kept aig level id2order hier hier' h (2 * w) (j + w) (b / 2) (omega arith)
            (omega arith) (λ k p le e. same k p (omega arith) (mod-of_double_right p w j pos lt e))
            right,
      ),
    )

pub row_there :
    (hier : List (List ℕ)) (h : ℕ) → h < length hier → get_elem? hier h ≡ some (get_or hier h [])
row_there [] h lt = absurd (omega arith)
row_there (r ∷ hier) zero lt = refl
row_there (r ∷ hier) (suc h) lt = row_there hier h (omega arith)

not_here : (p w j h k : ℕ) → j < w → h ≡ k → j ≡ p → (h < k) ⊎ (p % w ≢ j) → ⊥
not_here p w j h k lt e f (inl above) = omega arith
not_here p w j h k lt e f (inr far) = far (rw (← f) (mod-eq_of_lt lt))

pub store_node-KeepsOthers :
    (hier : List (List ℕ)) (h w j nd : ℕ)
    → h < length hier
    → length (get_or hier h []) ≡ w
    → j < w
    → (hier' : List (List ℕ)) × (store_node hier h j nd ≡ ok hier')
      × (node hier' h j ≡ nd)
      × KeepsOthers hier hier' h w j
      × ((k p : ℕ) → k < h → node hier' k p ≡ node hier k p)
unfolding store_node
store_node-KeepsOthers hier h w j nd inside sized lt =
    let row = get_or hier h [] in
    let row' = set row j nd in
    let hier' = set hier h row' in
    let new_row = get_or-set_self hier h row' [] inside in
    let written = get_or-set_self row j nd 0 (omega (arith, sized)) in
    (
      hier',
      rw (row_there hier h inside, store-ok row j nd (omega (arith, sized))) refl,
      ap (λ (r : List ℕ). get_or r j 0) new_row ∙ written,
      record {
        same = λ k p out. elim (Bool-cases (h == k)) [
          | inl level ↦
              let e : h ≡ k = ground arith in
              let elsewhere : j ≢ p = λ f. not_here p w j h k lt e f out in
              rw (← e)
                (ap (λ (r : List ℕ). get_or r p 0) new_row ∙ get_or-set_ne row j p nd 0 elsewhere)
          | inr other ↦
              ap (λ (r : List ℕ). get_or r p 0) (get_or-set_ne hier h k row' [] (λ e. ground arith))
        ];
        rows = length-set hier h row';
        lengths = λ k. elim (Bool-cases (h == k)) [
          | inl level ↦
              let e : h ≡ k = ground arith in
              rw (← e) (ap (λ (r : List ℕ). length r) new_row ∙ length-set row j nd)
          | inr other ↦
              ap (λ (r : List ℕ). length r) (get_or-set_ne hier h k row' [] (λ e. ground arith))
        ];
      },
      λ k p less.
          ap (λ (r : List ℕ). get_or r p 0)
            (get_or-set_ne hier h k row' [] (λ e. omega (arith, e))),
    )
