-- ===== src/Macros/Inst/Pins.antt =====
-- src/macros.rs: what `for_each_eval_fanin` enumerates.
use gem_macro_optimization.Base.{
  ℕ, zero, suc, ◌+◌, ◌/◌, Bool, true, false, not, ◌&&◌, ◌||◌, List, [], ◌∷◌, ◌++◌, if◌then◌else◌,
  get_or, contains, contains-append, ◌==◌, ◌≡◌, refl, ◌∙◌, Bool-cases, inl, inr, arith,
}
use gem_macro_optimization.Macros.Kind.{num_outputs}
use gem_macro_optimization.Macros.Fanin.{
  comb_fanin_of_output, output_needs_mid_partition_eval, any_from,
}
use gem_macro_optimization.Macros.Inst.{
  MacroInst, calls, calls_unseen, eval_fanin_from, for_each_comb_fanin, for_each_eval_fanin,
}

-- No entry stands twice.
abbrev pub NoDup : List ℕ → Type 0
NoDup [] = Unit
NoDup (x ∷ xs) = (contains xs x ≡ false) × NoDup xs

NoDup-append :
    (xs ys : List ℕ)
    → NoDup xs
    → NoDup ys
    → ((p : ℕ) → contains xs p ≡ true → contains ys p ≡ false)
    → NoDup (xs ++ ys)
NoDup-append [] ys h k apart = k
NoDup-append (x ∷ xs) ys h k apart = (
  ground (arith, contains-append xs ys x, apart x, h.0),
  NoDup-append xs ys h.1 k (λ p e. apart p (ground (arith, e))),
)

module _ (inputs : List ℕ) where
  unseen-contains :
      (slots seen : List ℕ) (p : ℕ)
      → contains (calls_unseen inputs slots seen).0 p
        ≡ (contains (calls inputs slots) p && not (contains seen p))
  unseen-contains [] seen p = refl
  unseen-contains (slot ∷ slots) seen p =
      let pin = get_or inputs slot 0 / 2 in
      elim (Bool-cases (pin == 0)) [
        | inl z ↦ rw z (unseen-contains slots seen p)
        | inr nz ↦ elim (Bool-cases (contains seen pin)) [
          | inl old ↦ rw (nz, old) (ground (arith, old, unseen-contains slots seen p))
          | inr new ↦ rw (nz, new) (ground (arith, new, unseen-contains slots (pin ∷ seen) p))
        ]
      ]

  seen-contains :
      (slots seen : List ℕ) (p : ℕ)
      → contains (calls_unseen inputs slots seen).1 p
        ≡ (contains seen p || contains (calls inputs slots) p)
  seen-contains [] seen p = ground arith
  seen-contains (slot ∷ slots) seen p =
      let pin = get_or inputs slot 0 / 2 in
      elim (Bool-cases (pin == 0)) [
        | inl z ↦ rw z (seen-contains slots seen p)
        | inr nz ↦ elim (Bool-cases (contains seen pin)) [
          | inl old ↦ rw (nz, old) (ground (arith, old, seen-contains slots seen p))
          | inr new ↦ rw (nz, new) (ground (arith, new, seen-contains slots (pin ∷ seen) p))
        ]
      ]

  unseen-NoDup : (slots seen : List ℕ) → NoDup (calls_unseen inputs slots seen).0
  unseen-NoDup [] seen = tt
  unseen-NoDup (slot ∷ slots) seen =
      let pin = get_or inputs slot 0 / 2 in
      elim (Bool-cases (pin == 0)) [
        | inl z ↦ rw z (unseen-NoDup slots seen)
        | inr nz ↦ elim (Bool-cases (contains seen pin)) [
          | inl old ↦ rw (nz, old) (unseen-NoDup slots seen)
          | inr new ↦
              rw (nz, new)
                (
                  ground (arith, unseen-contains slots (pin ∷ seen) pin),
                  unseen-NoDup slots (pin ∷ seen),
                )
        ]
      ]

module _ (m : MacroInst) where
  -- Pin `p` is in the combinational fan-in of output `s`, which is evaluated mid-partition.
  abbrev pub mid_fanin : ℕ → ℕ → Bool
  mid_fanin p s = output_needs_mid_partition_eval m.kind s && contains (for_each_comb_fanin m s) p

  abbrev slots_of : ℕ → List ℕ
  slots_of lo =
      if output_needs_mid_partition_eval m.kind lo then comb_fanin_of_output m.kind lo else []

  slots_of-mid_fanin : (lo p : ℕ) → contains (calls m.inputs (slots_of lo)) p ≡ mid_fanin p lo
  unfolding for_each_comb_fanin
  slots_of-mid_fanin lo p = elim (Bool-cases (output_needs_mid_partition_eval m.kind lo)) [
    | inl mid ↦ rw mid refl
    | inr start ↦ rw start refl
  ]

  from-contains :
      (lo n : ℕ) (seen : List ℕ) (p : ℕ)
      → contains (eval_fanin_from m lo n seen) p
        ≡ (any_from (mid_fanin p) lo n && not (contains seen p))
  unfolding eval_fanin_from
  from-contains lo zero seen p = refl
  from-contains lo (suc n) seen p =
      let slots = slots_of lo in
      let out = (calls_unseen m.inputs slots seen).0 in
      let seen' = (calls_unseen m.inputs slots seen).1 in
      let rest = from-contains (lo + 1) n seen' p in
      ground (
        arith,
        contains-append out (eval_fanin_from m (lo + 1) n seen') p,
        rest,
        unseen-contains m.inputs slots seen p,
        seen-contains m.inputs slots seen p,
        slots_of-mid_fanin lo p,
      )

  from-NoDup : (lo n : ℕ) (seen : List ℕ) → NoDup (eval_fanin_from m lo n seen)
  unfolding eval_fanin_from
  from-NoDup lo zero seen = tt
  from-NoDup lo (suc n) seen =
      let slots = slots_of lo in
      let seen' = (calls_unseen m.inputs slots seen).1 in
      NoDup-append (calls_unseen m.inputs slots seen).0 (eval_fanin_from m (lo + 1) n seen')
        (unseen-NoDup m.inputs slots seen) (from-NoDup (lo + 1) n seen')
        (λ p e. ground (
          arith,
          e,
          from-contains (lo + 1) n seen' p,
          unseen-contains m.inputs slots seen p,
          seen-contains m.inputs slots seen p,
        ))

and_true : (x : Bool) → (x && true) ≡ x
and_true x = ground arith

-- The pins that `for_each_eval_fanin` enumerates are, each once, those in the combinational fan-in
-- of some output that is evaluated mid-partition.
pub for_each_eval_fanin-contains :
    (m : MacroInst) (p : ℕ)
    → NoDup (for_each_eval_fanin m)
      × (contains (for_each_eval_fanin m) p ≡ any_from (mid_fanin m p) 0 (num_outputs m.kind))
unfolding for_each_eval_fanin
for_each_eval_fanin-contains m p = (
  from-NoDup m 0 (num_outputs m.kind) [],
  from-contains m 0 (num_outputs m.kind) [] p
      ∙ and_true (any_from (mid_fanin m p) 0 (num_outputs m.kind)),
)
