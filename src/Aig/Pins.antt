-- ===== src/Aig/Pins.antt =====
-- src/aig.rs: the graph that construction starts from, and `add_aigpin` for a pin that is no gate.
use mathlib.Core.Path.{subst}
use gem_macro_optimization.Base.{
  ℕ, zero, suc, ◌+◌, ◌≤◌, [], ◌∷◌, some, ◌≡◌, ◌≢◌, ◌⊎◌, inl, inr, refl, sym, ◌∙◌, arith,
  length-append, get_or-append_left, get_or-append_last,
}
use gem_macro_optimization.Aig.{
  DriverType, and_gate, tie0, Aig, driver, cached, add_aigpin, empty_aig,
}
use gem_macro_optimization.Aig.Meaning.{OperandsBefore, IsWellFormed}

pub empty_aig-IsWellFormed : (n : ℕ) → IsWellFormed (empty_aig n)
unfolding empty_aig
empty_aig-IsWellFormed n = record {
  sized = refl;
  zero_tied = refl;
  ordered = ordered;
  cache_sound = λ a b o h. absurd (unfold cached in cc h);
  cache_complete = complete;
}
  where
    ordered : (i : ℕ) → i ≤ 0 → OperandsBefore i (driver (empty_aig n) i)
    ordered zero h = tt
    ordered (suc i) h = absurd (omega arith)

    complete : (a b i : ℕ) → i ≤ 0 → driver (empty_aig n) i ≡ and_gate a b → cached [] a b ≡ some i
    complete a b zero h e = absurd (cc e)
    complete a b (suc i) h e = absurd (omega arith)

-- A driver that is no gate.
abbrev pub IsLeaf : DriverType → Type 0
IsLeaf (and_gate a b) = ⊥
IsLeaf _ = Unit

leaf-ne-gate : (d : DriverType) → IsLeaf d → (a b : ℕ) → d ≢ and_gate a b
leaf-ne-gate d h a b e = subst IsLeaf e h

leaf-OperandsBefore : (d : DriverType) (i : ℕ) → IsLeaf d → OperandsBefore i d
leaf-OperandsBefore (and_gate a b) i h = absurd h
leaf-OperandsBefore _ i h = tt

-- Adding a pin that is no gate gives the next index, keeps every old pin's driver and the graph's
-- well-formedness.
pub add_aigpin-IsWellFormed :
    (aig : Aig) (d : DriverType)
    → IsWellFormed aig
    → IsLeaf d
    → IsWellFormed (add_aigpin aig d).1
      × ((add_aigpin aig d).0 ≡ aig.num_aigpins + 1)
      × (driver (add_aigpin aig d).1 (aig.num_aigpins + 1) ≡ d)
      × ((i : ℕ) → i ≤ aig.num_aigpins → driver (add_aigpin aig d).1 i ≡ driver aig i)
unfolding add_aigpin
add_aigpin-IsWellFormed aig d wf leaf = (
  record {
    sized = omega (arith, length-append aig.drivers (d ∷ []), wf.sized);
    zero_tied = old 0 (omega arith) ∙ wf.zero_tied;
    ordered = λ i h. elim (split i h) [
      | inl le ↦ rw (old i le) (wf.ordered i le)
      | inr e ↦ rw (e, new) (leaf-OperandsBefore d _ leaf)
    ];
    cache_sound =
        λ a b o h. let (le, drives) = wf.cache_sound a b o h in (omega arith, old o le ∙ drives);
    cache_complete = λ a b i h e. elim (split i h) [
      | inl le ↦ wf.cache_complete a b i le (rw (old i le) at e)
      | inr here ↦ absurd (leaf-ne-gate d leaf a b (sym new ∙ (rw here at e)))
    ];
  },
  refl,
  new,
  old,
)
  where
    split : (i : ℕ) → i ≤ aig.num_aigpins + 1 → (i ≤ aig.num_aigpins) ⊎ (i ≡ aig.num_aigpins + 1)
    split i h = ground arith

    old : (i : ℕ) → i ≤ aig.num_aigpins → driver (add_aigpin aig d).1 i ≡ driver aig i
    old i h = get_or-append_left aig.drivers (d ∷ []) i tie0 (omega (arith, wf.sized))

    new : driver (add_aigpin aig d).1 (aig.num_aigpins + 1) ≡ d
    new = rw (sym wf.sized) (get_or-append_last aig.drivers d tie0)
