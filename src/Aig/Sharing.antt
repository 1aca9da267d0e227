-- ===== src/Aig/Sharing.antt =====
-- src/aig.rs: the cache of and gates, asked again.
use gem_macro_optimization.Base.{
  ℕ, ◌+◌, ◌*◌, true, ◌&&◌, ok, none, some, ◌==◌, ◌≡◌, refl, ap, sym, ◌∙◌, inl, inr, Option-cases,
  arith,
}
use gem_macro_optimization.Aig.{Aig, cached, ordered_gate, add_and_gate}
use gem_macro_optimization.Aig.Insert.{cached-append, with_gate}

cached-with_gate :
    (aig : Aig) (a b : ℕ)
    → cached aig.and_gate_cache a b ≡ none
    → cached (with_gate aig a b).and_gate_cache a b ≡ some (aig.num_aigpins + 1)
cached-with_gate aig a b miss =
    let here : (a == a && b == b) ≡ true = ground arith in
    cached-append aig.and_gate_cache a b (aig.num_aigpins + 1) a b ∙ rw (miss, here) refl

ordered_gate-again :
    (aig : Aig) (a b : ℕ) → ordered_gate (ordered_gate aig a b).1 a b ≡ ordered_gate aig a b
unfolding ordered_gate
ordered_gate-again aig a b = elim (Option-cases (cached aig.and_gate_cache a b)) [
  | inl miss ↦
      let built : ordered_gate aig a b ≡ ((aig.num_aigpins + 1) * 2, with_gate aig a b) =
        rw (ordered_gate, miss) refl in
      let found : ordered_gate (with_gate aig a b) a b
          ≡ ((aig.num_aigpins + 1) * 2, with_gate aig a b) =
        rw (ordered_gate, cached-with_gate aig a b miss) refl in
      ap (λ (r : ℕ × Aig). ordered_gate r.1 a b) built ∙ found ∙ sym built
  | inr (o, hit) ↦
      let found : ordered_gate aig a b ≡ (o * 2, aig) = rw (ordered_gate, hit) refl in
      ap (λ (r : ℕ × Aig). ordered_gate r.1 a b) found
]

-- Asking for a conjunction again, in either order of its operands, gives the same literal and
-- leaves the graph as it is.
pub add_and_gate-shared :
    (aig : Aig) (a b : ℕ) (r : ℕ × Aig) → add_and_gate aig a b ≡ ok r → add_and_gate r.1 b a ≡ ok r
unfolding add_and_gate
add_and_gate-shared aig a b r h =
    let lower = ordered_gate-again aig a b in
    let upper = ordered_gate-again aig b a in ground (arith, h, lower, upper)
