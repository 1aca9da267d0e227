-- ===== src/Aig/Reads.antt =====
-- src/aig.rs: what a driver reads in the same cycle, said without the loops of the code.
use gem_macro_optimization.Base.{
  ℕ, ◌+◌, ◌/◌, Bool, true, false, List, [], ◌∷◌, none, some, ◌==◌, ==_iff, if◌then◌else◌, get_or,
  contains, ◌≡◌, ◌≢◌, ◌↔◌, ◌⊎◌, inl, inr, refl, sym, ap, ◌∙◌, Bool-cases, arith,
}
use gem_macro_optimization.Macros.Fanin.{comb_fanin_of_output}
use gem_macro_optimization.Macros.Inst.{MacroInst, calls, call_nz}
use gem_macro_optimization.Aig.{Aig, DriverType, and_gate, macro}
use gem_macro_optimization.Aig.Topo.{get_macro}

-- A gate reads its operands' pins; a macro's output reads the pins at the input slots that it
-- depends on. The constant, pin 0, does not count.
abbrev pub ReadsPin : Aig → DriverType → ℕ → Type 0
ReadsPin aig (and_gate a b) p = (p ≢ 0) × ((a / 2 ≡ p) ⊎ (b / 2 ≡ p))
ReadsPin aig (macro cellid slot) p =
    (p ≢ 0)
    × ((inst : MacroInst) × (get_macro aig.macros cellid ≡ some inst)
        × ((i : ℕ) × (contains (comb_fanin_of_output inst.kind slot) i ≡ true)
            × (get_or inst.inputs i 0 / 2 ≡ p)))
ReadsPin aig _ p = ⊥

-- How often a literal, and the literals at some slots, name pin `p`.
abbrev pub names : ℕ → ℕ → ℕ
names p iv = if p == 0 then 0 else if iv / 2 == p then 1 else 0

abbrev pub names_at : ℕ → List ℕ → List ℕ → ℕ
names_at p inputs [] = 0
names_at p inputs (slot ∷ slots) = names p (get_or inputs slot 0) + names_at p inputs slots

-- How often a driver reads a pin.
unfoldable pub reads_of : Aig → ℕ → DriverType → ℕ
unfolding comb_fanin_of_output
reads_of aig p (and_gate a b) = names p a + names p b
reads_of aig p (macro cellid slot) = elim (get_macro aig.macros cellid) [
  | none ↦ 0
  | some inst ↦ names_at p inst.inputs (comb_fanin_of_output inst.kind slot)
]
reads_of aig p _ = 0

pub contains-call_nz :
    (iv p : ℕ) (rest : List ℕ)
    → (contains (call_nz iv rest) p ≡ true) ↔ (((p ≢ 0) × (iv / 2 ≡ p)) ⊎ (contains rest p ≡ true))
contains-call_nz iv p rest = elim (Bool-cases (iv / 2 == 0)) [
  | inl z ↦ rw z (
    λ h. inr h,
    λ h. elim h [ inl (nz, e) ↦ absurd (nz (sym e ∙ (==_iff (iv / 2) 0).0 z)) | inr later ↦ later ],
  )
  | inr nz ↦ rw nz (elim (Bool-cases (iv / 2 == p)) [
    | inl same ↦
        let e : iv / 2 ≡ p = (==_iff (iv / 2) p).0 same in
        (
          λ h. inl (λ zero_p. true≢false (sym ((==_iff (iv / 2) 0).1 (e ∙ zero_p)) ∙ nz), e),
          λ h. rw same refl,
        )
    | inr other ↦ rw other (
      λ h. inr h,
      λ h. elim h [
        | inl (_, e) ↦ absurd (true≢false (sym ((==_iff (iv / 2) p).1 e) ∙ other))
        | inr later ↦ later
      ],
    )
  ])
]
  where
    true≢false : ◌≡◌ {A = Bool} true false → ⊥
    true≢false e = cc

pub contains-calls :
    (inputs slots : List ℕ) (p : ℕ)
    → (contains (calls inputs slots) p ≡ true)
      ↔ ((p ≢ 0) × ((i : ℕ) × (contains slots i ≡ true) × (get_or inputs i 0 / 2 ≡ p)))
contains-calls inputs [] p = (λ h. cc, λ h. let bad = h.1.1 in cc)
contains-calls inputs (slot ∷ slots) p =
    let first = contains-call_nz (get_or inputs slot 0) p (calls inputs slots) in
    let rest = contains-calls inputs slots p in
    (
      λ h. elim (first.0 h) [
        | inl (nz, e) ↦ (nz, (slot, ground arith, e))
        | inr later ↦ let (nz, (i, listed, e)) = rest.0 later in (nz, (i, ground arith, e))
      ],
      λ h. elim (Bool-cases (slot == h.1.0)) [
        | inl same ↦
            let at = ap (λ t. get_or inputs t 0 / 2) ((==_iff slot h.1.0).0 same) in
            first.1 (inl (h.0, at ∙ h.1.2))
        | inr other ↦
            let listed = rw other at h.1.1 in first.1 (inr (rest.1 (h.0, (h.1.0, listed, h.1.2))))
      ],
    )

-- The pins of the two operands are those that a gate reads.
pub operands_iff :
    (aig : Aig) (a b p : ℕ)
    → (contains (call_nz a (call_nz b [])) p ≡ true) ↔ ReadsPin aig (and_gate a b) p
operands_iff aig a b p =
    let first = contains-call_nz a p (call_nz b []) in
    let second = contains-call_nz b p [] in
    (
      λ h. elim (first.0 h) [
        | inl (nz, e) ↦ (nz, inl e)
        | inr later ↦ elim (second.0 later) [ inl (nz, e) ↦ (nz, inr e) | inr none_left ↦ cc ]
      ],
      λ h. elim h.1 [
        | inl e ↦ first.1 (inl (h.0, e))
        | inr e ↦ first.1 (inr (second.1 (inl (h.0, e))))
      ],
    )
