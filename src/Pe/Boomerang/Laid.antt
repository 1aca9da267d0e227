-- ===== src/Pe/Boomerang/Laid.antt =====
-- src/pe.rs: `place_bit` lays out a tree.
use gem_macro_optimization.Base.{
  ℕ, zero, suc, ◌+◌, ◌*◌, ◌/◌, ◌≤◌, ◌<◌, true, false, List, [], ◌∷◌, Option, some, ok, ltb, ◌==◌,
  length, get_elem?, get_or, ◌≡◌, ◌⊎◌, inl, inr, refl, ap, ◌∙◌, arith,
}
use gem_macro_optimization.Aig.{Aig, DriverType, and_gate, tie0, driver}
use gem_macro_optimization.Pe.Boomerang.{Hierarchy, store_node, count_visit, level_of, place_bit}
use gem_macro_optimization.Pe.Boomerang.Tree.{
  node, IsSized, IsTree, AreLevels, KeepsOthers, mod-of_double, mod-of_double_right, IsSized-kept,
  kept_then, kept_below, IsTree-kept, row_there, store_node-KeepsOthers,
}

-- The tree is laid out, and all that is not below its root is as it was.
pub record Places (aig : Aig) (level : List ℕ) (id2order : List (ℕ × ℕ))
    (hier hier' : List (List ℕ)) (h w j nd : ℕ) : Type 0 where
  pub tree : IsTree aig level id2order hier' h w j nd
  pub keeps : KeepsOthers hier hier' h w j

module _ (aig : Aig) (level : List ℕ) (id2order : List (ℕ × ℕ))
    (are : AreLevels aig level id2order) where
  leaf_step :
      (j nd : ℕ) (s : Hierarchy) (hier : List (List ℕ))
      → store_node s.hier 0 j nd ≡ ok hier
      → place_bit aig level id2order 0 j nd s ≡ ok (record s { hier = hier })
  unfolding place_bit
  leaf_step j nd s hier stores = rw stores refl

  -- The state after a node above level 0 is stored and counted.
  abbrev stored : Hierarchy → List (List ℕ) → ℕ → Hierarchy
  stored s hier nd = record { hier = hier; visited = count_visit s.visited nd }

  down_step :
      (h j nd l : ℕ) (s : Hierarchy) (hier : List (List ℕ))
      → store_node s.hier (suc h) j nd ≡ ok hier
      → level_of id2order level nd ≡ ok l
      → l ≤ h
      → place_bit aig level id2order (suc h) j nd s
        ≡ place_bit aig level id2order h j nd (stored s hier nd)
  unfolding place_bit
  down_step h j nd l s hier stores has_level le =
      let fits : ltb (suc h) l ≡ false = ground arith in
      let lower : (l == suc h) ≡ false = ground arith in
      ground (arith, stores, has_level, fits, lower)

  gate_step :
      (h j nd a b : ℕ) (row : List ℕ) (s s₁ : Hierarchy) (hier : List (List ℕ))
      → store_node s.hier (suc h) j nd ≡ ok hier
      → level_of id2order level nd ≡ ok (suc h)
      → get_elem? aig.drivers nd ≡ some (and_gate a b)
      → get_elem? hier (suc h) ≡ some row
      → place_bit aig level id2order h j (a / 2) (stored s hier nd) ≡ ok s₁
      → place_bit aig level id2order (suc h) j nd s
        ≡ place_bit aig level id2order h (j + length row) (b / 2) s₁
  unfolding place_bit
  gate_step h j nd a b row s s₁ hier stores has_level gate there left =
      let fits : ltb (suc h) (suc h) ≡ false = ground arith in
      let equal : (suc h == suc h) ≡ true = ground arith in
      ground (arith, stores, has_level, fits, equal, gate, there, left)

  -- What the placement of a pin at a place promises.
  abbrev pub IsPlacedAt : ℕ → ℕ → ℕ → ℕ → Hierarchy → Type 0
  IsPlacedAt h w j nd s =
      (s' : Hierarchy) × (place_bit aig level id2order h j nd s ≡ ok s')
      × Places aig level id2order s.hier s'.hier h w j nd

  level_cases : (l h : ℕ) → l ≤ suc h → (l ≤ h) ⊎ (l ≡ suc h)
  level_cases l h le = ground arith

  place_below :
      (h w j nd l : ℕ) (s : Hierarchy) (hier : List (List ℕ))
      → 0 < w
      → j < w
      → level_of id2order level nd ≡ ok l
      → l ≤ h
      → store_node s.hier (suc h) j nd ≡ ok hier
      → node hier (suc h) j ≡ nd
      → KeepsOthers s.hier hier (suc h) w j
      → place_bit aig level id2order (suc h) j nd s
        ≡ place_bit aig level id2order h j nd (stored s hier nd)
      → IsPlacedAt h (2 * w) j nd (stored s hier nd)
      → IsPlacedAt (suc h) w j nd s
  place_below h w j nd l s hier pos lt has_level le_l stores here kept step (s', runs, placed) =
      let below = placed.keeps in
      (
        s',
        step ∙ runs,
        record {
          tree = (
            below.same (suc h) j (inl (omega arith)) ∙ here,
            inl (l, has_level, le_l, placed.tree),
          );
          keeps =
              kept_then s.hier hier s'.hier (suc h) w j kept
                (kept_below hier s'.hier h w j j (λ p e. mod-of_double p w j pos lt e) below);
        },
      )

  place_gate :
      (h w j nd a b : ℕ) (s s₁ : Hierarchy) (hier : List (List ℕ))
      → 0 < w
      → j < w
      → level_of id2order level nd ≡ ok (suc h)
      → driver aig nd ≡ and_gate a b
      → node hier (suc h) j ≡ nd
      → KeepsOthers s.hier hier (suc h) w j
      → Places aig level id2order hier s₁.hier h (2 * w) j (a / 2)
      → place_bit aig level id2order (suc h) j nd s
        ≡ place_bit aig level id2order h (j + w) (b / 2) s₁
      → IsPlacedAt h (2 * w) (j + w) (b / 2) s₁
      → IsPlacedAt (suc h) w j nd s
  place_gate h w j nd a b s s₁ hier pos lt has gate here kept left step (s', runs, right) =
      let l = left.keeps in
      let r = right.keeps in
      (
        s',
        step ∙ runs,
        record {
          tree = (
            r.same (suc h) j (inl (omega arith)) ∙ l.same (suc h) j (inl (omega arith)) ∙ here,
            inr (
              a,
              b,
              has,
              gate,
              IsTree-kept aig level id2order s₁.hier s'.hier h (2 * w) j (a / 2) (omega arith)
                  (omega arith) (λ k p le e. r.same k p (inr (λ f. omega (arith, e, f)))) left.tree,
              right.tree,
            ),
          );
          keeps = kept_then s.hier hier s'.hier (suc h) w j kept (
              kept_then hier s₁.hier s'.hier (suc h) w j
                (kept_below hier s₁.hier h w j j (λ p e. mod-of_double p w j pos lt e) l)
                (kept_below s₁.hier s'.hier h w j (j + w)
                  (λ p e. mod-of_double_right p w j pos lt e) r));
        },
      )

  driver-of_get :
      (nd a b : ℕ) → get_elem? aig.drivers nd ≡ some (and_gate a b) → driver aig nd ≡ and_gate a b
  driver-of_get nd a b e = get_driver aig.drivers nd e
    where
      same : (c d : DriverType) → ◌≡◌ {A = Option DriverType} (some c) (some d) → c ≡ d
      same c d e' = cc

      get_driver :
          (ds : List DriverType) (i : ℕ)
          → get_elem? ds i ≡ some (and_gate a b)
          → get_or ds i tie0 ≡ and_gate a b
      get_driver [] i e' = cc
      get_driver (d ∷ ds) zero e' = same d (and_gate a b) e'
      get_driver (d ∷ ds) (suc i) e' = get_driver ds i e'

  -- Where every pin above level 0 is a gate of pins of lower levels, a pin whose level fits is placed
  -- without a panic: below its place stands its tree, in which a pin is handed down exactly while
  -- its level is lower, a pin of the place's own level is a gate above its operands, and level 0
  -- has pins of level 0; all places that are not below stay as they were.
  pub place_bit-IsPlacedAt :
      (h w j nd l : ℕ) (s : Hierarchy)
      → 0 < w
      → j < w
      → IsSized s.hier h w
      → level_of id2order level nd ≡ ok l
      → l ≤ h
      → IsPlacedAt h w j nd s
  place_bit-IsPlacedAt zero w j nd l s pos lt sized has_level le =
      let (hier, stores, here, kept, lower) =
        store_node-KeepsOthers s.hier 0 w j nd sized.0 sized.1 lt in
      let lowest : l ≡ 0 = omega arith in
      let level_zero : level_of id2order level nd ≡ ok 0 = has_level ∙ ap ok lowest in
      (
        record s { hier = hier },
        leaf_step j nd s hier stores,
        record { tree = (here, level_zero); keeps = kept },
      )
  place_bit-IsPlacedAt (suc h) w j nd l s pos lt sized has_level le =
      let (hier, stores, here, kept, lower) =
        store_node-KeepsOthers s.hier (suc h) w j nd sized.0 sized.1 lt in
      let sized' = IsSized-kept s.hier hier (suc h) w kept.rows kept.lengths sized in
      elim (level_cases l h le) [
        | inl down ↦
            place_below h w j nd l s hier pos lt has_level down stores here kept
              (down_step h j nd l s hier stores has_level down)
              (place_bit-IsPlacedAt h (2 * w) j nd l (stored s hier nd) (omega arith) (omega arith)
                sized'.2 has_level down)
        | inr at_level ↦
            let level_here = has_level ∙ ap ok at_level in
            let (a, b, la, lb, gate, level_a, le_a, level_b, le_b) = are.gates nd h level_here in
            let (s₁, runs, left) =
              place_bit-IsPlacedAt h (2 * w) j (a / 2) la (stored s hier nd) (omega arith)
                (omega arith) sized'.2 level_a le_a in
            let row = get_or hier (suc h) [] in
            let width : length row ≡ w = sized'.1 in
            let l_keeps = left.keeps in
            let sized₁ =
              IsSized-kept hier s₁.hier h (2 * w) l_keeps.rows l_keeps.lengths sized'.2 in
            let step =
              gate_step h j nd a b row s s₁ hier stores level_here gate
                (row_there hier (suc h) sized'.0) runs
              ∙ ap (λ (t : ℕ). place_bit aig level id2order h (j + t) (b / 2) s₁) width in
            place_gate h w j nd a b s s₁ hier pos lt level_here (driver-of_get nd a b gate) here
              kept left step
              (place_bit-IsPlacedAt h (2 * w) (j + w) (b / 2) lb s₁ (omega arith) (omega arith)
                sized₁ level_b le_b)
      ]
