-- ===== src/Base/Stores.antt =====
-- Vectors whose indexing is checked, and the place of a key in an ordered map.
use Prim.Native.Nat.{ℕ, zero, suc, ◌+◌, ◌-◌, ◌<◌, ◌≤◌}
use mathlib.Core.Path.{◌≡◌, refl, sym, ap, ◌∙◌}
use mathlib.Core.Logic.{◌≢◌, inl, inr}
use mathlib.Core.Bool.{Bool, true, false}
use mathlib.Core.Option.{Option, none, some}
use mathlib.Core.List.{List, [], ◌∷◌}
use native.Mathlib.Omega.{arith}
use gem_macro_optimization.Base.Tests.{
  ◌==◌, ==_iff, Bool-cases, ltb, if◌then◌else◌, Outcome, ok, panic, lt→ltb,
}
use gem_macro_optimization.Base.Lists.{
  length, set, get_or, get_elem?, get_or-set_self, get_or-set_ne,
}

module _ {ℓ} {A : Type ℓ} where
  -- `v[i] = x`
  unfoldable pub store : List A → ℕ → A → Outcome (List A)
  store xs i x = if ltb i (length xs) then ok (set xs i x) else panic

  pub store-ok : (xs : List A) (i : ℕ) (x : A) → i < length xs → store xs i x ≡ ok (set xs i x)
  unfolding store
  store-ok xs i x h = rw (lt→ltb i (length xs) h) refl

module _ {ℓ} {V : Type ℓ} where
  -- `map.get_full(&k)`: the place of the key, and its value.
  unfoldable pub get_full : List (ℕ × V) → ℕ → Option (ℕ × V)
  get_full [] k = none
  get_full ((j, v) ∷ m) k =
      let rest = get_full m k in
      if j == k then some (0, v) else elim rest [ none ↦ none | some r ↦ some (r.0 + 1, r.1) ]

-- `a - b`: an overflow is a panic.
unfoldable pub checked_sub : ℕ → ℕ → Outcome ℕ
checked_sub a b = if ltb a b then panic else ok (a - b)

pub checked_sub-ok : (a b : ℕ) → b ≤ a → checked_sub a b ≡ ok (a - b)
unfolding checked_sub
checked_sub-ok a b h = ground arith

pub get_elem?-get_or : (xs : List ℕ) (i : ℕ) → i < length xs → get_elem? xs i ≡ some (get_or xs i 0)
get_elem?-get_or [] i h = absurd (omega arith)
get_elem?-get_or (x ∷ xs) zero h = refl
get_elem?-get_or (x ∷ xs) (suc i) h = get_elem?-get_or xs i (omega arith)

pub get_or-set :
    (v : List ℕ) (i x n : ℕ)
    → i < length v
    → get_or (set v i n) x 0 ≡ (if i == x then n else get_or v x 0)
get_or-set v i x n h = elim (Bool-cases (i == x)) [
  | inl same ↦
      let e : i ≡ x = (==_iff i x).0 same in
      rw same (ap (λ y. get_or (set v i n) y 0) (sym e) ∙ get_or-set_self v i n 0 h)
  | inr other ↦
      let ne : i ≢ x = λ e. true≢false (sym ((==_iff i x).1 e) ∙ other) in
      rw other (get_or-set_ne v i x n 0 ne)
]
  where
    true≢false : ◌≡◌ {A = Bool} true false → ⊥
    true≢false e = cc
