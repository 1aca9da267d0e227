-- ===== src/Base/Sets.antt =====
-- Lists of numbers as sets: what `contains` asks, and bounds on the members.
use Prim.Native.Nat.{ℕ, zero, suc, ◌+◌, ◌≤◌, ◌<◌}
use mathlib.Core.Path.{◌≡◌, refl, sym, ap, ◌∙◌}
use mathlib.Core.Logic.{inl, inr}
use mathlib.Core.Bool.{Bool, true, false, ◌||◌}
use mathlib.Core.List.{List, [], ◌∷◌, ◌++◌}
use native.Mathlib.Omega.{arith}
use gem_macro_optimization.Base.Tests.{◌==◌, ==_iff, if◌then◌else◌, Bool-cases}
use gem_macro_optimization.Base.Lists.{range_from}

abbrev pub contains : List ℕ → ℕ → Bool
contains [] x = false
contains (y ∷ ys) x = y == x || contains ys x

-- `IndexSet::insert`
abbrev pub set_insert : List ℕ → ℕ → List ℕ
set_insert s x = if contains s x then s else s ++ x ∷ []

-- The last of a list moved to its front, in place of what was there.
abbrev pub last_of : ℕ → List ℕ → ℕ
last_of x [] = x
last_of x (y ∷ ys) = last_of y ys

abbrev pub but_last : ℕ → List ℕ → List ℕ
but_last x [] = []
but_last x (y ∷ ys) = x ∷ but_last y ys

abbrev pub move_last : List ℕ → List ℕ
move_last [] = []
move_last (y ∷ ys) = last_of y ys ∷ but_last y ys

-- `IndexSet::swap_remove`, of which the result is whether the set has the entry.
unfoldable pub swap_remove : List ℕ → ℕ → List ℕ
swap_remove [] x = []
swap_remove (y ∷ ys) x = if y == x then move_last ys else y ∷ swap_remove ys x

-- `for x in xs { s.insert(x) }`
abbrev pub set_extend : List ℕ → List ℕ → List ℕ
set_extend s [] = s
set_extend s (x ∷ xs) = set_extend (set_insert s x) xs

pub contains-append :
    (xs ys : List ℕ) (x : ℕ) → contains (xs ++ ys) x ≡ (contains xs x || contains ys x)
contains-append [] ys x = refl
contains-append (y ∷ xs) ys x = ground (arith, contains-append xs ys x)

-- Every entry of the list is below the bound.
abbrev pub AllBelow : ℕ → List ℕ → Type 0
AllBelow n [] = Unit
AllBelow n (x ∷ xs) = (x < n) × AllBelow n xs

-- Every entry of the second list is in the first.
abbrev pub AllIn : List ℕ → List ℕ → Type 0
AllIn ys [] = Unit
AllIn ys (x ∷ xs) = (contains ys x ≡ true) × AllIn ys xs

pub AllBelow-append :
    (n : ℕ) (xs ys : List ℕ) → AllBelow n xs → AllBelow n ys → AllBelow n (xs ++ ys)
AllBelow-append n [] ys h k = k
AllBelow-append n (x ∷ xs) ys h k = (h.0, AllBelow-append n xs ys h.1 k)

pub AllBelow-range : (n lo k : ℕ) → lo + k ≤ n → AllBelow n (range_from lo k)
AllBelow-range n lo zero h = tt
AllBelow-range n lo (suc k) h = (omega arith, AllBelow-range n (lo + 1) k (omega arith))

pub AllIn-grow :
    (ys zs xs : List ℕ)
    → ((x : ℕ) → contains ys x ≡ true → contains zs x ≡ true)
    → AllIn ys xs
    → AllIn zs xs
AllIn-grow ys zs [] grow h = tt
AllIn-grow ys zs (x ∷ xs) grow h = (grow x h.0, AllIn-grow ys zs xs grow h.1)

pub AllIn-self : (x : ℕ) (zs xs : List ℕ) → AllIn zs xs → AllIn (x ∷ zs) xs
AllIn-self x zs xs h = AllIn-grow zs (x ∷ zs) xs (λ y m. rw m (ground arith)) h

pub AllIn-refl : (xs : List ℕ) → AllIn xs xs
AllIn-refl [] = tt
AllIn-refl (x ∷ xs) = (ground arith, AllIn-self x xs xs (AllIn-refl xs))

pub contains-set_insert :
    (s : List ℕ) (x y : ℕ) → contains (set_insert s x) y ≡ (contains s y || x == y)
contains-set_insert s x y = elim (Bool-cases (contains s x)) [
  | inl old ↦ rw old (elim (Bool-cases (x == y)) [
    | inl same ↦
        let e : x ≡ y = (==_iff x y).0 same in
        let known : contains s y ≡ true = ap (contains s) (sym e) ∙ old in rw known refl
    | inr other ↦ rw other (ground arith)
  ])
  | inr new ↦ rw (new, contains-append s (x ∷ []) y) (ground arith)
]

pub contains-set_extend :
    (s xs : List ℕ) (y : ℕ) → contains (set_extend s xs) y ≡ (contains s y || contains xs y)
contains-set_extend s [] y = ground arith
contains-set_extend s (x ∷ xs) y =
    ground (arith, contains-set_extend (set_insert s x) xs y, contains-set_insert s x y)

contains-move_last :
    (x y : ℕ) (ys : List ℕ) → contains (last_of x ys ∷ but_last x ys) y ≡ contains (x ∷ ys) y
contains-move_last x y [] = refl
contains-move_last x y (z ∷ ys) = ground (arith, contains-move_last z y ys)

pub contains-swap_remove :
    (s : List ℕ) (x y : ℕ) → (x == y) ≡ false → contains (swap_remove s x) y ≡ contains s y
unfolding swap_remove
contains-swap_remove [] x y other = refl
contains-swap_remove (z ∷ s) x y other = elim (Bool-cases (z == x)) [
  | inl same ↦
      let e : z ≡ x = (==_iff z x).0 same in
      let apart : (z == y) ≡ false = ap (λ (t : ℕ). t == y) e ∙ other in
      rw (swap_remove, same) (moved s ∙ rw apart refl)
  | inr differs ↦
      rw (swap_remove, differs) (ap (λ (b : Bool). z == y || b) (contains-swap_remove s x y other))
]
  where
    moved : (t : List ℕ) → contains (move_last t) y ≡ contains t y
    moved [] = refl
    moved (w ∷ t) = contains-move_last w y t

pub AllIn-get :
    (xs pins : List ℕ) (q : ℕ) → AllIn xs pins → contains pins q ≡ true → contains xs q ≡ true
AllIn-get xs [] q all h = cc
AllIn-get xs (pin ∷ pins) q all h = elim (Bool-cases (pin == q)) [
  | inl same ↦ ap (contains xs) (sym ((==_iff pin q).0 same)) ∙ all.0
  | inr other ↦ AllIn-get xs pins q all.1 (rw other at h)
]

pub AllBelow-of : (n : ℕ) (xs : List ℕ) → ((p : ℕ) → contains xs p ≡ true → p < n) → AllBelow n xs
AllBelow-of n [] small = tt
AllBelow-of n (x ∷ xs) small =
    let self : (x == x) ≡ true = ground arith in
    (small x (rw self refl), AllBelow-of n xs (λ p h. small p (ground arith)))
