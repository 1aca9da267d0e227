-- ===== src/Tests/Boomerang.antt =====
-- Tests of the hierarchy of a boomerang stage.
use gem_macro_optimization.Base.{
  ok-injective, panic≢ok, ℕ, zero, suc, List, [], ◌∷◌, ok, panic, ◌≡◌, sym, ◌∙◌, refl, arith,
}
use gem_macro_optimization.Base.Maps.{map_get}
use gem_macro_optimization.Aig.{usize_max, add_aigpin, empty_aig}
use gem_macro_optimization.Pe.Boomerang.{Hierarchy, level_of}
use gem_macro_optimization.Pe.Boomerang.Laid.{IsPlacedAt, place_bit-IsPlacedAt}
use gem_macro_optimization.Pe.Boomerang.Tree.{AreLevels}
use gem_macro_optimization.Tests.Aig.{one_gate}

-- The pins 1, 2 and 3 stand in this order; pin 3 has level 1.
abbrev places_in_order : List (ℕ × ℕ)
places_in_order = (1, 0) ∷ (2, 1) ∷ (3, 2) ∷ []

abbrev levels : List ℕ
levels = 0 ∷ 0 ∷ 1 ∷ []

abbrev empty_hier : Hierarchy
empty_hier = record { hier = (usize_max ∷ usize_max ∷ []) ∷ (usize_max ∷ []) ∷ []; visited = [] }

no_place : (nd : ℕ) → level_of places_in_order levels (suc (suc (suc (suc nd)))) ≡ panic
unfolding level_of map_get
no_place nd = ground arith

levels-cases : (nd l : ℕ) → level_of places_in_order levels nd ≡ ok (suc l) → (nd ≡ 3) × (l ≡ 0)
unfolding level_of map_get
levels-cases zero l e = absurd (panic≢ok e)
levels-cases (suc zero) l e = absurd (zero-not_suc (ok-injective e))
  where
    zero-not_suc : 0 ≡ suc l → ⊥
    zero-not_suc f = omega arith
levels-cases (suc (suc zero)) l e = absurd (zero-not_suc (ok-injective e))
  where
    zero-not_suc : 0 ≡ suc l → ⊥
    zero-not_suc f = omega arith
levels-cases (suc (suc (suc zero))) l e =
    let same : 1 ≡ suc l = ok-injective e in (refl, omega arith)
levels-cases (suc (suc (suc (suc nd)))) l e = absurd (panic≢ok (sym (no_place nd) ∙ e))

levels-AreLevels : AreLevels one_gate levels places_in_order
unfolding level_of map_get add_aigpin empty_aig
levels-AreLevels = record {
  gates = λ nd l e.
      let (third, first) = levels-cases nd l e in
      rw (third, first) (3, 4, 0, 0, refl, refl, omega arith, refl, omega arith);
}

place_bit-IsPlacedAt_example :
    IsPlacedAt one_gate levels places_in_order levels-AreLevels 1 1 0 3 empty_hier
unfolding level_of map_get
place_bit-IsPlacedAt_example =
    place_bit-IsPlacedAt one_gate levels places_in_order levels-AreLevels 1 1 0 3 1 empty_hier
      (omega arith) (omega arith) (omega arith, refl, (omega arith, refl)) refl (omega arith)
