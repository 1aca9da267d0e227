-- ===== src/Flatten/Blocks/Owned.antt =====
-- src/flatten.rs: every macro with state has a run of it.
use gem_macro_optimization.Base.{
  none≢some, ℕ, zero, suc, ◌+◌, ◌<◌, ◌^◌, true, not, ◌&&◌, List, [], ◌∷◌, Option, some, is_some, ok,
  ◌==◌, length, get_elem?, AllBelow, ◌≡◌, refl, sym, ap, ◌∙◌, arith, Bool-cases, Option-cases, inl,
  inr,
}
use gem_macro_optimization.Base.Maps.{map_get, map_get-map_insert}
use gem_macro_optimization.Macros.Kind.{has_state, state_words}
use gem_macro_optimization.Macros.Inst.{MacroInst}
use gem_macro_optimization.Pe.{Partition}
use gem_macro_optimization.Flatten.Blocks.{
  MacroOffsets, give_offset, offsets_of_part, offsets_of_block, offsets_of_stage, offsets_of_stages,
  offsets_of_rest, macro_state_offsets,
}
use gem_macro_optimization.Flatten.Blocks.Offsets.{
  words_of, total_words, words_left-empty, AreDisjoint, offsets_of_stages-KeepsOffsets,
  offsets_of_rest-KeepsOffsets, AreFrom, after_first,
}

pub get_elem?-inside {ℓ} :
    {A : Type ℓ} (xs : List A) (i : ℕ) → i < length xs → (x : A) × (get_elem? xs i ≡ some x)
get_elem?-inside [] i h = absurd (omega arith)
get_elem?-inside (x ∷ xs) zero h = (x, refl)
get_elem?-inside (x ∷ xs) (suc i) h = get_elem?-inside xs i (omega arith)

module _ (macros : List (ℕ × MacroInst)) where
  -- Every macro that a part names is one of the graph's.
  abbrev pub NameMacros : List Partition → Type 0
  NameMacros [] = Unit
  NameMacros (p ∷ parts) = AllBelow (length macros) p.state_macros × NameMacros parts

  abbrev pub NameParts : ℕ → List (List ℕ) → Type 0
  NameParts n [] = Unit
  NameParts n (block ∷ blocks) = AllBelow n block × NameParts n blocks

  abbrev pub AreInRange : List (List (List ℕ) × List Partition) → Type 0
  AreInRange [] = Unit
  AreInRange (stage ∷ stages) =
      NameParts (length stage.1) stage.0 × NameMacros stage.1 × AreInRange stages

  names-part :
      (parts : List Partition) (i : ℕ) (p : Partition)
      → NameMacros parts
      → get_elem? parts i ≡ some p
      → AllBelow (length macros) p.state_macros
  names-part [] i p names e = cc
  names-part (q ∷ parts) zero p names e = rw (← part_same q p e) names.0
    where
      part_same : (a b : Partition) → ◌≡◌ {A = Option Partition} (some a) (some b) → a ≡ b
      part_same a b e = cc
  names-part (q ∷ parts) (suc i) p names e = names-part parts i p names.1 e

  offsets_of_part-ok :
      (state_macros : List ℕ) (s : MacroOffsets)
      → AllBelow (length macros) state_macros
      → (s' : MacroOffsets) × (offsets_of_part macros s state_macros ≡ ok s')
  unfolding offsets_of_part
  offsets_of_part-ok [] s below = (s, refl)
  offsets_of_part-ok (i ∷ rest) s below = elim (Option-cases (map_get s.off i)) [
    | inr (o, known) ↦
        let (s', runs) = offsets_of_part-ok rest s below.1 in (s', rw (offsets_of_part, known) runs)
    | inl fresh ↦
        let (entry, found) = get_elem?-inside macros i below.0 in
        let (s', runs) =
          offsets_of_part-ok rest (give_offset s i (state_words entry.1.kind)) below.1 in
        (s', rw (offsets_of_part, fresh, found) runs)
  ]

  offsets_of_block-ok :
      (parts : List Partition) (block : List ℕ) (s : MacroOffsets)
      → NameMacros parts
      → AllBelow (length parts) block
      → (s' : MacroOffsets) × (offsets_of_block macros parts s block ≡ ok s')
  unfolding offsets_of_block
  offsets_of_block-ok parts [] s names below = (s, refl)
  offsets_of_block-ok parts (i ∷ block) s names below =
      let (p, found) = get_elem?-inside parts i below.0 in
      let (t, one) = offsets_of_part-ok p.state_macros s (names-part parts i p names found) in
      let (s', runs) = offsets_of_block-ok parts block t names below.1 in (s', rw (found, one) runs)

  offsets_of_stage-ok :
      (parts : List Partition) (blocks : List (List ℕ)) (s : MacroOffsets)
      → NameMacros parts
      → NameParts (length parts) blocks
      → (s' : MacroOffsets) × (offsets_of_stage macros parts s blocks ≡ ok s')
  unfolding offsets_of_stage
  offsets_of_stage-ok parts [] s names below = (s, refl)
  offsets_of_stage-ok parts (block ∷ blocks) s names below =
      let (t, one) = offsets_of_block-ok parts block s names below.0 in
      let (s', runs) = offsets_of_stage-ok parts blocks t names below.1 in (s', rw one runs)

  offsets_of_stages-ok :
      (stages : List (List (List ℕ) × List Partition)) (s : MacroOffsets)
      → AreInRange stages
      → (s' : MacroOffsets) × (offsets_of_stages macros stages s ≡ ok s')
  unfolding offsets_of_stages
  offsets_of_stages-ok [] s ranges = (s, refl)
  offsets_of_stages-ok (stage ∷ stages) s ranges =
      let (t, one) = offsets_of_stage-ok stage.1 stage.0 s ranges.1 ranges.0 in
      let (s', runs) = offsets_of_stages-ok stages t ranges.2 in (s', rw one runs)

  -- Every macro of the list that has state has an offset.
  abbrev pub OwnState : List (ℕ × MacroInst) → ℕ → MacroOffsets → Type 0
  OwnState ms from s =
      (i : ℕ) (entry : ℕ × MacroInst)
      → get_elem? ms i ≡ some entry
      → has_state entry.1.kind ≡ true
      → (o : ℕ) × (map_get s.off (from + i) ≡ some o)

  -- The runs, from `origin` on, after the last loop over the macros from `from` on.
  module _ (origin : ℕ) where
    first_owned :
        (m : ℕ × MacroInst) (ms : List (ℕ × MacroInst)) (from : ℕ) (s : MacroOffsets)
        → AreFrom macros origin (m ∷ ms) from
        → has_state m.1.kind ≡ true
        → (o : ℕ) × (map_get (offsets_of_rest (m ∷ ms) from s).off from ≡ some o)
    unfolding offsets_of_rest
    first_owned m ms from s are stateful =
        let later = after_first macros origin m ms from are in
        elim (Option-cases (map_get s.off from)) [
          | inr (o, known) ↦
              let rest = offsets_of_rest-KeepsOffsets macros origin ms (from + 1) s later in
              (o, rw (offsets_of_rest, stateful, known) (rest.kept from o known))
          | inl fresh ↦
              let next = give_offset s from (state_words m.1.kind) in
              let rest = offsets_of_rest-KeepsOffsets macros origin ms (from + 1) next later in
              let self : (from == from) ≡ true = ground arith in
              let given : map_get next.off from ≡ some s.cursor =
                map_get-map_insert s.off from from s.cursor ∙ rw self refl in
              (s.cursor, rw (offsets_of_rest, stateful, fresh) (rest.kept from s.cursor given))
        ]

    rest_step :
        (m : ℕ × MacroInst) (ms : List (ℕ × MacroInst)) (from : ℕ) (s : MacroOffsets)
        → (t : MacroOffsets) × (offsets_of_rest (m ∷ ms) from s ≡ offsets_of_rest ms (from + 1) t)
    unfolding offsets_of_rest
    rest_step m ms from s =
        elim (Bool-cases (has_state m.1.kind && not (is_some (map_get s.off from)))) [
          | inl gives ↦
              (give_offset s from (state_words m.1.kind), rw (offsets_of_rest, gives) refl)
          | inr passes ↦ (s, rw (offsets_of_rest, passes) refl)
        ]

    offsets_of_rest-OwnState :
        (ms : List (ℕ × MacroInst)) (from : ℕ) (s : MacroOffsets)
        → AreFrom macros origin ms from
        → OwnState ms from (offsets_of_rest ms from s)
    unfolding offsets_of_rest
    offsets_of_rest-OwnState [] from s are i entry e stateful = cc
    offsets_of_rest-OwnState (m ∷ ms) from s are zero entry e stateful =
        let here : from ≡ from + 0 = omega arith in
        let same : m ≡ entry = entry_same m entry e in
        let (o, owned) =
          first_owned m ms from s are
            (ap (λ (x : ℕ × MacroInst). has_state x.1.kind) same ∙ stateful) in
        (o, ap (λ (t : ℕ). map_get (offsets_of_rest (m ∷ ms) from s).off t) (sym here) ∙ owned)
      where
        entry_same :
            (a b : ℕ × MacroInst) → ◌≡◌ {A = Option (ℕ × MacroInst)} (some a) (some b) → a ≡ b
        entry_same a b e = cc
    offsets_of_rest-OwnState (m ∷ ms) from s are (suc i) entry e stateful =
        let (t, steps) = rest_step m ms from s in
        let (o, owned) =
          offsets_of_rest-OwnState ms (from + 1) t (after_first macros origin m ms from are) i entry
            e stateful in
        let place : from + 1 + i ≡ from + suc i = omega arith in
        (
          o,
          ap (λ (x : MacroOffsets). map_get x.off (from + suc i)) steps
              ∙ ap (λ (x : ℕ). map_get (offsets_of_rest ms (from + 1) t).off x) (sym place)
              ∙ owned,
        )

    starts_empty : AreDisjoint macros origin (record { off = []; cursor = origin })
    unfolding map_get
    starts_empty = record {
      after_origin = omega arith;
      room = omega (arith, words_left-empty macros 0);
      inside = λ i o e. absurd (none≢some e);
      apart = λ i j o p ne e f. absurd (none≢some e);
    }

-- Where the stages name parts and macros that there are, and the origin and the words of all macros'
-- state fit a 32-bit word, the allocation of the macros' state
-- returns: every macro with state has an offset, all lie between the origin and the new cursor with
-- the words that the macro's kind takes, and no two macros share a word.
pub macro_state_offsets-AreDisjoint :
    (macros : List (ℕ × MacroInst)) (stages : List (List (List ℕ) × List Partition)) (origin : ℕ)
    → AreInRange macros stages
    → origin + total_words macros < 2 ^ 32
    → (s : MacroOffsets) × (macro_state_offsets macros stages origin ≡ ok s)
      × AreDisjoint macros origin s
      × OwnState macros macros 0 s
unfolding macro_state_offsets
macro_state_offsets-AreDisjoint macros stages origin ranges fits =
    let start : MacroOffsets = record { off = []; cursor = origin } in
    let (t, runs) = offsets_of_stages-ok macros stages start ranges in
    let are : AreFrom macros origin macros 0 =
      λ i. let e : i ≡ 0 + i = omega arith in ap (λ (x : ℕ). words_of macros x) e in
    let named = offsets_of_stages-KeepsOffsets macros origin stages start t runs in
    let rest = offsets_of_rest-KeepsOffsets macros origin macros 0 t are in
    (
      offsets_of_rest macros 0 t,
      rw runs refl,
      rest.disjoint fits (named.disjoint fits (starts_empty macros origin)),
      offsets_of_rest-OwnState macros origin macros 0 t are,
    )
