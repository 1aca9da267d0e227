-- ===== src/Pe/Waves/Relax/Needs.antt =====
-- src/pe.rs: the depth that a macro needs, given those of its producers.
use gem_macro_optimization.Base.{
  ℕ, ◌+◌, ◌≤◌, true, false, List, [], ◌∷◌, max, ◌==◌, if◌then◌else◌, contains, ◌≡◌, ◌≢◌, refl, ap,
  inl, inr, Bool-cases, arith,
}
use gem_macro_optimization.Base.Maps.{map_insert, map_get-map_insert}
use gem_macro_optimization.Pe.Waves.{depth_of}
use gem_macro_optimization.Pe.Waves.Relax.{need_of}

pub depth_of-map_insert :
    (depth : List (ℕ × ℕ)) (m j d : ℕ)
    → depth_of (map_insert depth m d) j ≡ (if m == j then d else depth_of depth j)
depth_of-map_insert depth m j d = elim (Bool-cases (m == j)) [
  | inl same ↦ rw (map_get-map_insert depth m j d, same) refl
  | inr other ↦ rw (map_get-map_insert depth m j d, other) refl
]

-- `need` is at least what it starts from and above each producer, and no more.
pub need_of-ge : (depth : List (ℕ × ℕ)) (n : ℕ) (ps : List ℕ) → n ≤ need_of depth n ps
unfolding need_of
need_of-ge depth n [] = omega arith
need_of-ge depth n (p ∷ ps) = omega (arith, need_of-ge depth (max n (depth_of depth p + 1)) ps)

pub need_of-above :
    (depth : List (ℕ × ℕ)) (n : ℕ) (ps : List ℕ) (p : ℕ)
    → contains ps p ≡ true
    → depth_of depth p + 1 ≤ need_of depth n ps
unfolding need_of
need_of-above depth n [] p h = cc
need_of-above depth n (q ∷ ps) p h = elim (Bool-cases (q == p)) [
  | inl same ↦
      let e : q ≡ p = ground arith in
      let first = ap (depth_of depth) e in
      omega (arith, first, need_of-ge depth (max n (depth_of depth q + 1)) ps)
  | inr other ↦ need_of-above depth (max n (depth_of depth q + 1)) ps p (rw other at h)
]

pub need_of-le :
    (depth : List (ℕ × ℕ)) (n b : ℕ) (ps : List ℕ)
    → n ≤ b
    → ((p : ℕ) → contains ps p ≡ true → depth_of depth p + 1 ≤ b)
    → need_of depth n ps ≤ b
unfolding need_of
need_of-le depth n b [] h below = h
need_of-le depth n b (p ∷ ps) h below =
    let self : (p == p) ≡ true = ground arith in
    let first = below p (rw self refl) in
    need_of-le depth (max n (depth_of depth p + 1)) b ps (omega arith) (λ q m.
      below q (elim (Bool-cases (p == q)) [ inl same ↦ rw same refl | inr other ↦ rw other m ]))

pub true≢false : true ≢ false
true≢false e = cc
