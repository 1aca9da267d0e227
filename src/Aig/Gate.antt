-- ===== src/Aig/Gate.antt =====
-- src/aig.rs: what `add_and_gate` promises.
use gem_macro_optimization.Base.{
  ℕ, zero, suc, ◌+◌, ◌*◌, ◌/◌, ◌%◌, ◌≤◌, Bool, true, false, ◌&&◌, ok, bit_or, ltb, ◌==◌, ◌≡◌, ◌≢◌,
  refl, ap, sym, ◌∙◌, inl, inr, Bool-cases, Option-cases, arith,
}
use gem_macro_optimization.Aig.{Aig, cached, ordered_gate, add_and_gate, usize_max}
use gem_macro_optimization.Aig.Meaning.{lit, Models, IsWellFormed}
use gem_macro_optimization.Aig.Insert.{Models-old, Models-gate, with_gate-IsWellFormed}

-- What `add_and_gate` promises about the literal `o` and the graph `g` that it returns.
pub record IsGate (aig : Aig) (a b o : ℕ) (g : Aig) : Type 0 where
  pub kept : IsWellFormed g
  pub in_range : o / 2 ≤ g.num_aigpins
  pub grown : aig.num_aigpins ≤ g.num_aigpins
  pub conjunction : (leaf val : ℕ → Bool) → Models leaf g val → lit val o ≡ (lit val a && lit val b)
  pub old_models : (leaf val : ℕ → Bool) → Models leaf g val → Models leaf aig val

abbrev pub Gives : Aig → ℕ → ℕ → ℕ × Aig → Type 0
Gives aig a b r = IsGate aig a b r.0 r.1

lit_even : (val : ℕ → Bool) (o : ℕ) → lit val (o * 2) ≡ val o
lit_even val o =
    let e : o * 2 / 2 ≡ o = omega arith in
    let even : (o * 2 % 2 == 0) ≡ true = ground arith in rw even (ap val e)

ordered_gate-Gives :
    (aig : Aig) (a b : ℕ)
    → IsWellFormed aig
    → 2 ≤ a
    → a ≤ b
    → b / 2 ≤ aig.num_aigpins
    → Gives aig a b (ordered_gate aig a b)
unfolding ordered_gate
ordered_gate-Gives aig a b wf two_le in_order below =
    elim (Option-cases (cached aig.and_gate_cache a b)) [
      | inr (o, hit) ↦
          let (le, drives) = wf.cache_sound a b o hit in
          rw (hit, ordered_gate)
            (record {
              kept = wf;
              in_range = omega arith;
              grown = omega arith;
              conjunction = λ leaf val m. lit_even val o ∙ (rw drives at (m o le));
              old_models = λ leaf val m. m;
            })
      | inl miss ↦
          rw (miss, ordered_gate)
            (record {
              kept = with_gate-IsWellFormed aig a b wf two_le in_order below miss;
              in_range = omega arith;
              grown = omega arith;
              conjunction = λ leaf val m.
                  lit_even val (aig.num_aigpins + 1) ∙ Models-gate aig a b wf leaf val m;
              old_models = Models-old aig a b wf;
            })
    ]

-- The literals that a vector of pins can name: not the two that the assertions exclude.
abbrev pub IsLiteral : Aig → ℕ → Type 0
IsLiteral aig iv = (iv / 2 ≤ aig.num_aigpins) × (bit_or iv 1 ≢ usize_max)

module _ (aig : Aig) (wf : IsWellFormed aig) where
  Models-zero : (leaf val : ℕ → Bool) → Models leaf aig val → val 0 ≡ false
  Models-zero leaf val m = rw wf.zero_tied at (m 0 (omega arith))

  -- A result that is a literal of the graph as it is.
  same_graph :
      (a b o : ℕ)
      → o / 2 ≤ aig.num_aigpins
      → ((val : ℕ → Bool) → val 0 ≡ false → lit val o ≡ (lit val a && lit val b))
      → Gives aig a b (o, aig)
  same_graph a b o le means = record {
    kept = wf;
    in_range = le;
    grown = omega arith;
    conjunction = λ leaf val m. means val (Models-zero leaf val m);
    old_models = λ leaf val m. m;
  }

and_comm : (x y : Bool) → (x && y) ≡ (y && x)
and_comm x y = ground arith

Gives-swap : (aig : Aig) (a b : ℕ) (r : ℕ × Aig) → Gives aig b a r → Gives aig a b r
Gives-swap aig a b r h = record {
  kept = h.kept;
  in_range = h.in_range;
  grown = h.grown;
  conjunction = λ leaf val m. h.conjunction leaf val m ∙ and_comm (lit val b) (lit val a);
  old_models = h.old_models;
}

-- Where the code returns before it looks for a gate.
and_false : (x : Bool) → (x && false) ≡ false
and_false x = ground arith

and_true : (x : Bool) → (x && true) ≡ x
and_true x = ground arith

data Shape (n : ℕ) : Type 0 where
  zero_lit : n ≡ 0 → Shape n
  one_lit : n ≡ 1 → Shape n
  pin_lit : 2 ≤ n → Shape n

shape : (n : ℕ) → Shape n
shape zero = zero_lit refl
shape (suc zero) = one_lit refl
shape (suc (suc n)) = pin_lit (omega arith)

abbrev Returns : Aig → ℕ → ℕ → Type 0
Returns aig a b = (r : ℕ × Aig) × (add_and_gate aig a b ≡ ok r) × IsGate aig a b r.0 r.1

module _ (aig : Aig) (a b : ℕ) (wf : IsWellFormed aig) (la : IsLiteral aig a)
    (lb : IsLiteral aig b) where
  zero_left : a ≡ 0 → Returns aig a b
  unfolding add_and_gate
  zero_left e =
      ((0, aig), ground arith, same_graph aig wf a b 0 (omega arith) (λ val z. rw (e, z) refl))

  zero_right : a ≢ 0 → b ≡ 0 → Returns aig a b
  unfolding add_and_gate
  zero_right n e = (
    (0, aig),
    ground arith,
    same_graph aig wf a b 0 (omega arith) (λ val z. rw (e, z) (sym (and_false (lit val a)))),
  )

  one_left : a ≡ 1 → b ≢ 0 → Returns aig a b
  unfolding add_and_gate
  one_left e n = ((b, aig), ground arith, same_graph aig wf a b b lb.0 (λ val z. rw (e, z) refl))

  one_right : 2 ≤ a → b ≡ 1 → Returns aig a b
  unfolding add_and_gate
  one_right g e = (
    (a, aig),
    ground arith,
    same_graph aig wf a b a la.0 (λ val z. rw (e, z) (sym (and_true (lit val a)))),
  )

  both_pins : 2 ≤ a → 2 ≤ b → Returns aig a b
  both_pins g h = elim (Bool-cases (ltb a b)) [
    | inl lt ↦ (
      ordered_gate aig a b,
      unfold add_and_gate in ground arith,
      ordered_gate-Gives aig a b wf g (ground arith) lb.0,
    )
    | inr ge ↦ (
      ordered_gate aig b a,
      unfold add_and_gate in ground arith,
      Gives-swap aig a b (ordered_gate aig b a)
          (ordered_gate-Gives aig b a wf h (ground arith) la.0),
    )
  ]

-- On a well-formed graph and two literals of it, `add_and_gate` does not panic. It returns a literal
-- of the new graph, which is well formed, has every old pin, and in every model of which the
-- literal is the conjunction of the two; and every such model is a model of the old graph.
pub add_and_gate-IsGate :
    (aig : Aig) (a b : ℕ)
    → IsWellFormed aig
    → IsLiteral aig a
    → IsLiteral aig b
    → (r : ℕ × Aig) × (add_and_gate aig a b ≡ ok r) × IsGate aig a b r.0 r.1
add_and_gate-IsGate aig a b wf la lb = elim (shape a) [
  | zero_lit e ↦ zero_left aig a b wf la lb e
  | one_lit e ↦ elim (shape b) [
    | zero_lit f ↦ zero_right aig a b wf la lb (omega arith) f
    | one_lit f ↦ one_left aig a b wf la lb e (omega arith)
    | pin_lit f ↦ one_left aig a b wf la lb e (omega arith)
  ]
  | pin_lit e ↦ elim (shape b) [
    | zero_lit f ↦ zero_right aig a b wf la lb (omega arith) f
    | one_lit f ↦ one_right aig a b wf la lb e f
    | pin_lit f ↦ both_pins aig a b wf la lb e f
  ]
]
