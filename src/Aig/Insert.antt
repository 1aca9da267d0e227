-- ===== src/Aig/Insert.antt =====
-- src/aig.rs: a graph with a new gate on operands that the cache does not hold.
use gem_macro_optimization.Base.{
  ℕ, ◌+◌, ◌/◌, ◌≤◌, Bool, ◌&&◌, List, [], ◌∷◌, ◌++◌, none, some, ◌==◌, if◌then◌else◌, ◌≡◌, refl, ap,
  ap₂, sym, ◌∙◌, inl, inr, ◌⊎◌, Bool-cases, Option-cases, arith, length-append, get_or-append_left,
  get_or-append_last,
}
use gem_macro_optimization.Aig.{and_gate, tie0, Aig, driver, cached}
use gem_macro_optimization.Aig.Meaning.{lit, Models, IsWellFormed}

pub cached-append :
    (cache : List ((ℕ × ℕ) × ℕ)) (x y o a b : ℕ)
    → cached (cache ++ ((x, y), o) ∷ []) a b ≡ elim (cached cache a b) [
      | some r ↦ some r
      | none ↦ if x == a && y == b then some o else none
    ]
unfolding cached
cached-append [] x y o a b = refl
cached-append (((u, v), r) ∷ cache) x y o a b = elim (Bool-cases (u == a && v == b)) [
  | inl hit ↦ rw hit
  | inr miss ↦ rw miss (cached-append cache x y o a b)
]

-- The graph with a new gate on operands in order.
abbrev pub with_gate : Aig → ℕ → ℕ → Aig
with_gate aig a b = record aig {
  num_aigpins = aig.num_aigpins + 1;
  drivers = aig.drivers ++ and_gate a b ∷ [];
  and_gate_cache = aig.and_gate_cache ++ ((a, b), aig.num_aigpins + 1) ∷ [];
}

module _ (aig : Aig) (a b : ℕ) (wf : IsWellFormed aig) where
  driver-old : (i : ℕ) → i ≤ aig.num_aigpins → driver (with_gate aig a b) i ≡ driver aig i
  driver-old i h =
      get_or-append_left aig.drivers (and_gate a b ∷ []) i tie0 (omega (arith, wf.sized))

  driver-new : (i : ℕ) → i ≡ aig.num_aigpins + 1 → driver (with_gate aig a b) i ≡ and_gate a b
  driver-new i e = rw (e ∙ sym wf.sized) (get_or-append_last aig.drivers (and_gate a b) tie0)

  -- A model of the larger graph is a model of the smaller one.
  pub Models-old : (leaf val : ℕ → Bool) → Models leaf (with_gate aig a b) val → Models leaf aig val
  Models-old leaf val m i h = rw (driver-old i h) at (m i (omega arith))

  pub Models-gate :
      (leaf val : ℕ → Bool)
      → Models leaf (with_gate aig a b) val
      → val (aig.num_aigpins + 1) ≡ (lit val a && lit val b)
  Models-gate leaf val m =
      rw (driver-new (aig.num_aigpins + 1) refl) at (m (aig.num_aigpins + 1) (omega arith))

  module _ (two_le : 2 ≤ a) (in_order : a ≤ b) (below : b / 2 ≤ aig.num_aigpins)
      (missing : cached aig.and_gate_cache a b ≡ none) where
    pub with_gate-IsWellFormed : IsWellFormed (with_gate aig a b)
    with_gate-IsWellFormed = record {
      sized = omega (arith, length-append aig.drivers (and_gate a b ∷ []), wf.sized);
      zero_tied = driver-old 0 (omega arith) ∙ wf.zero_tied;
      ordered = λ i h. elim (split i h) [
        | inl old ↦ rw (driver-old i old) (wf.ordered i old)
        | inr new ↦ rw (driver-new i new) (two_le, in_order, omega arith)
      ];
      cache_sound = λ x y o h. sound x y o (rw cached-append at h);
      cache_complete = λ x y i h e. rw cached-append (elim (split i h) [
        | inl old ↦ rw (wf.cache_complete x y i old (rw (driver-old i old) at e))
        | inr new ↦ complete x y i new (rw (driver-new i new) at e)
      ]);
    }
      where
        split :
            (i : ℕ) → i ≤ aig.num_aigpins + 1 → (i ≤ aig.num_aigpins) ⊎ (i ≡ aig.num_aigpins + 1)
        split i h = ground arith

        sound :
            (x y o : ℕ)
            → (elim (cached aig.and_gate_cache x y) [
              | some r ↦ some r
              | none ↦ if a == x && b == y then some (aig.num_aigpins + 1) else none
            ])
              ≡ some o
            → (o ≤ aig.num_aigpins + 1) × (driver (with_gate aig a b) o ≡ and_gate x y)
        sound x y o h = elim (Option-cases (cached aig.and_gate_cache x y)) [
          | inl e ↦
              let new : (o ≡ aig.num_aigpins + 1) × (a ≡ x) × (b ≡ y) = ground arith in
              (omega arith, driver-new o new.0 ∙ ap₂ and_gate new.1 new.2)
          | inr (r, e) ↦
              let same : r ≡ o = ground arith in
              let (le, drives) = wf.cache_sound x y o (e ∙ ap some same) in
              (omega arith, driver-old o le ∙ drives)
        ]

        complete :
            (x y i : ℕ)
            → i ≡ aig.num_aigpins + 1
            → and_gate a b ≡ and_gate x y
            → (elim (cached aig.and_gate_cache x y) [
              | some r ↦ some r
              | none ↦ if a == x && b == y then some (aig.num_aigpins + 1) else none
            ])
              ≡ some i
        complete x y i e f = ground (arith)
