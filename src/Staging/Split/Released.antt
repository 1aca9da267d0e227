-- ===== src/Staging/Split/Released.antt =====
-- src/staging.rs: the loops of `from_split` at the split. A pin that has readers left is active.
use gem_macro_optimization.Base.{
  ℕ, zero, suc, ◌+◌, ◌≤◌, ◌<◌, true, List, [], ◌∷◌, ok, ◌==◌, length, contains, ◌≡◌, refl, ◌∙◌, inl,
  inr, Bool-cases, arith,
}
use gem_macro_optimization.Staging.Split.{Active, release_all}
use gem_macro_optimization.Staging.Split.Vectors.{
  at, count, count-append, count-nil, count-pos, count-cons_self, release-ok,
}

-- What releasing some pins does.
pub record Releases (xs : List ℕ) (s s' : Active) : Type 0 where
  pub sized : length s'.num_fanouts ≡ length s.num_fanouts
  pub falls : (y : ℕ) → at s'.num_fanouts y + count y xs ≡ at s.num_fanouts y
  pub keeps :
      (y : ℕ)
      → 1 ≤ at s'.num_fanouts y
      → contains s.nodes_at_split y ≡ true
      → contains s'.nodes_at_split y ≡ true

count_inside : (x : ℕ) (v ys : List ℕ) → count x ys ≤ at v x → 1 ≤ count x ys → x < length v
count_inside x v ys le pos = at-inside v x (omega arith)
  where
    at-inside : (v : List ℕ) (x : ℕ) → 1 ≤ at v x → x < length v
    at-inside [] x h = absurd (omega arith)
    at-inside (n ∷ v) zero h = omega arith
    at-inside (n ∷ v) (suc x) h = let rest = at-inside v x h in omega arith

pub release_all-ok :
    (xs : List ℕ) (s : Active)
    → ((y : ℕ) → count y xs ≤ at s.num_fanouts y)
    → ((y : ℕ) → contains xs y ≡ true → contains s.nodes_at_split y ≡ true)
    → (s' : Active) × (release_all xs s ≡ ok s') × Releases xs s s'
unfolding release_all
release_all-ok [] s enough active = (
  s,
  refl,
  record { sized = refl; falls = λ y. omega (arith, count-nil y); keeps = λ y pos h. h },
)
release_all-ok (x ∷ xs) s enough active =
    let self : (x == x) ≡ true = ground arith in
    let demand = enough x in
    let here = count-cons_self x xs in
    let inside = count_inside x s.num_fanouts (x ∷ xs) demand (omega arith) in
    let (t, runs, t_sized, t_falls, t_keeps) =
      release-ok x s inside (omega arith) (active x (rw self refl)) in
    let left : (y : ℕ) → count y xs ≤ at t.num_fanouts y =
      λ y. let all = enough y in omega (arith, t_falls y, count-append y (x ∷ []) xs) in
    let (r, rest, o) = release_all-ok xs t left (λ y h.
      let some_left = count-pos y xs h in
      let more = left y in
      t_keeps y (omega arith) (
        active y
          (elim (Bool-cases (x == y)) [ inl same ↦ rw same refl | inr other ↦ rw other h ]))) in
    (
      r,
      rw (release_all, runs) rest,
      record {
        sized = o.sized ∙ t_sized;
        falls = λ y. omega (arith, o.falls y, t_falls y, count-append y (x ∷ []) xs);
        keeps = λ y pos h. o.keeps y pos (t_keeps y (let down = o.falls y in omega arith) h);
      },
    )
