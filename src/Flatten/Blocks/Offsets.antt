-- ===== src/Flatten/Blocks/Offsets.antt =====
-- src/flatten.rs: the offsets of the macros' state.
use native.Mathlib.Nat.{mod-eq_of_lt}
use gem_macro_optimization.Base.{
  is_some, ◌%◌, ◌^◌, ◌<◌, true, false, if◌then◌else◌, some-injective, none≢some, panic≢ok,
  ok-injective, ℕ, zero, suc, ◌+◌, ◌≤◌, List, [], ◌∷◌, Option, none, some, Outcome, ok, panic,
  ◌>>=◌, unwrap, ◌==◌, get_elem?, ◌≡◌, ◌≢◌, ◌⊎◌, inl, inr, refl, sym, ap, ◌∙◌, arith, Bool-cases,
  Option-cases,
}
use gem_macro_optimization.Base.Maps.{map_get, map_insert, map_get-map_insert}
use gem_macro_optimization.Macros.Kind.{has_state, state_words}
use gem_macro_optimization.Macros.Inst.{MacroInst}
use gem_macro_optimization.Pe.{Partition}
use gem_macro_optimization.Flatten.Blocks.{
  MacroOffsets, give_offset, offsets_of_part, offsets_of_block, offsets_of_stage, offsets_of_stages,
  offsets_of_rest,
}

-- The words of state of a macro, by its position; a position beyond the last has none.
abbrev pub words_of : List (ℕ × MacroInst) → ℕ → ℕ
words_of [] i = 0
words_of (entry ∷ macros) zero = state_words entry.1.kind
words_of (entry ∷ macros) (suc i) = words_of macros i

-- The words of state of all macros, and of those from position `from` on that have no offset.
abbrev pub total_words : List (ℕ × MacroInst) → ℕ
total_words [] = 0
total_words (entry ∷ macros) = state_words entry.1.kind + total_words macros

abbrev pub words_left : List (ℕ × MacroInst) → ℕ → List (ℕ × ℕ) → ℕ
words_left [] from off = 0
words_left (entry ∷ macros) from off =
    (if is_some (map_get off from) then 0 else state_words entry.1.kind)
    + words_left macros (from + 1) off

pub words_left-empty :
    (macros : List (ℕ × MacroInst)) (from : ℕ) → words_left macros from [] ≡ total_words macros
unfolding map_get
words_left-empty [] from = refl
words_left-empty (entry ∷ macros) from =
    ap (λ (t : ℕ). state_words entry.1.kind + t) (words_left-empty macros (from + 1))

words_left-before :
    (macros : List (ℕ × MacroInst)) (from k c : ℕ) (off : List (ℕ × ℕ))
    → k < from
    → words_left macros from (map_insert off k c) ≡ words_left macros from off
words_left-before [] from k c off lt = refl
words_left-before (entry ∷ macros) from k c off lt =
    let other : (k == from) ≡ false = ground arith in
    rw
      (
        map_get-map_insert off k from c,
        other,
        words_left-before macros (from + 1) k c off (omega arith),
      )
      refl

-- A macro that gets an offset no longer counts.
words_left-insert :
    (macros : List (ℕ × MacroInst)) (from i k c : ℕ) (off : List (ℕ × ℕ))
    → k ≡ from + i
    → map_get off k ≡ none
    → words_left macros from (map_insert off k c) + words_of macros i ≡ words_left macros from off
words_left-insert [] from i k c off e fresh = omega arith
words_left-insert (entry ∷ macros) from zero k c off e fresh =
    let is_k : k ≡ from = omega arith in
    let self : (k == from) ≡ true = ground arith in
    let here : map_get off from ≡ none = ap (λ (t : ℕ). map_get off t) (sym is_k) ∙ fresh in
    let later = words_left-before macros (from + 1) k c off (omega arith) in
    rw (map_get-map_insert off k from c, self, here) (omega (arith, later))
words_left-insert (entry ∷ macros) from (suc i) k c off e fresh =
    let other : (k == from) ≡ false = ground arith in
    let later = words_left-insert macros (from + 1) i k c off (omega arith) fresh in
    rw (map_get-map_insert off k from c, other) (omega (arith, later))

-- A step that returned, and what came before it.
bind-ok {ℓ κ} :
    {A : Type ℓ} {B : Type κ} (m : Outcome A) (f : A → Outcome B) (b : B)
    → (m >>= f) ≡ ok b
    → (a : A) × (m ≡ ok a) × (f a ≡ ok b)
bind-ok panic f b e = cc
bind-ok (ok a) f b e = (a, refl, e)

module _ (macros : List (ℕ × MacroInst)) (origin : ℕ) where
  -- The runs of state that have been given lie between the origin and the cursor, and no two macros
  -- share a word.
  pub record AreDisjoint (s : MacroOffsets) : Type 0 where
    pub after_origin : origin ≤ s.cursor
    pub room : s.cursor + words_left macros 0 s.off ≤ origin + total_words macros
    pub inside :
        (i o : ℕ) → map_get s.off i ≡ some o → (origin ≤ o) × (o + words_of macros i ≤ s.cursor)
    pub apart :
        (i j o p : ℕ)
        → i ≢ j
        → map_get s.off i ≡ some o
        → map_get s.off j ≡ some p
        → (o + words_of macros i ≤ p) ⊎ (p + words_of macros j ≤ o)

  -- A macro's run once given stays.
  pub record KeepsOffsets (s s' : MacroOffsets) : Type 0 where
    pub kept : (i o : ℕ) → map_get s.off i ≡ some o → map_get s'.off i ≡ some o
    pub disjoint : origin + total_words macros < 2 ^ 32 → AreDisjoint s → AreDisjoint s'

  module _ (s : MacroOffsets) (k w : ℕ) (fresh : map_get s.off k ≡ none)
      (words : w ≡ words_of macros k) where
    given :
        (i o : ℕ)
        → map_get (give_offset s k w).off i ≡ some o
        → ((i ≡ k) × (o ≡ s.cursor)) ⊎ ((i ≢ k) × (map_get s.off i ≡ some o))
    given i o e =
        let found = map_get-map_insert s.off k i s.cursor in
        elim (Bool-cases (k == i)) [
          | inl same ↦
              let e' : ◌≡◌ {A = Option ℕ} (some s.cursor) (some o) = rw (found, same) at e in
              inl (ground arith, sym (some-injective e'))
          | inr other ↦ inr (λ t. ground arith, rw (found, other) at e)
        ]

    give_offset-KeepsOffsets : KeepsOffsets s (give_offset s k w)
    give_offset-KeepsOffsets = record {
      kept = λ i o was. elim (Bool-cases (k == i)) [
        | inl same ↦
            let e : k ≡ i = ground arith in
            absurd (none≢some (sym fresh ∙ ap (λ (t : ℕ). map_get s.off t) e ∙ was))
        | inr other ↦ map_get-map_insert s.off k i s.cursor ∙ rw other was
      ];
      disjoint = λ fits d.
          let left = words_left-insert macros 0 k k s.cursor s.off (omega arith) fresh in
          let no_wrap : (s.cursor + w) % 2 ^ 32 ≡ s.cursor + w =
            mod-eq_of_lt (omega (arith, left, d.room, words, fits)) in
          record {
            after_origin = omega (arith, d.after_origin, no_wrap);
            room = omega (arith, d.room, left, words, no_wrap);
            inside = λ i o e. elim (given i o e) [
              | inl (is_k, at_cursor) ↦ (
                omega (arith, d.after_origin, at_cursor),
                omega (arith, words, at_cursor, no_wrap, ap (λ (t : ℕ). words_of macros t) is_k),
              )
              | inr (other, was) ↦
                  let (ge, le) = d.inside i o was in (ge, omega (arith, le, no_wrap))
            ];
            apart = λ i j o p ne e f. elim (given i o e) [
              | inl (i_new, o_new) ↦ elim (given j p f) [
                | inl (j_new, p_new) ↦ absurd (ne (i_new ∙ sym j_new))
                | inr (j_old, was) ↦ inr (omega (arith, d.inside j p was, o_new))
              ]
              | inr (i_old, was) ↦ elim (given j p f) [
                | inl (j_new, p_new) ↦ inl (omega (arith, d.inside i o was, p_new))
                | inr (j_old, was') ↦ d.apart i j o p ne was was'
              ]
            ];
          };
    }

  kept_same : (s : MacroOffsets) → KeepsOffsets s s
  kept_same s = record { kept = λ i o was. was; disjoint = λ fits d. d }

  kept_then : (s t u : MacroOffsets) → KeepsOffsets s t → KeepsOffsets t u → KeepsOffsets s u
  kept_then s t u h k = record {
    kept = λ i o was. k.kept i o (h.kept i o was);
    disjoint = λ fits d. k.disjoint fits (h.disjoint fits d);
  }

  words_of-get :
      (ms : List (ℕ × MacroInst)) (i : ℕ) (entry : ℕ × MacroInst)
      → get_elem? ms i ≡ some entry
      → state_words entry.1.kind ≡ words_of ms i
  words_of-get [] i entry e = cc
  words_of-get (m ∷ ms) zero entry e = let same : m ≡ entry = entry_same m entry e in rw same refl
    where
      entry_same :
          (a b : ℕ × MacroInst) → ◌≡◌ {A = Option (ℕ × MacroInst)} (some a) (some b) → a ≡ b
      entry_same a b e = cc
  words_of-get (m ∷ ms) (suc i) entry e = words_of-get ms i entry e

  offsets_of_part-KeepsOffsets :
      (state_macros : List ℕ) (s s' : MacroOffsets)
      → offsets_of_part macros s state_macros ≡ ok s'
      → KeepsOffsets s s'
  unfolding offsets_of_part
  offsets_of_part-KeepsOffsets [] s s' e = rw (ok-injective e) (kept_same s')
  offsets_of_part-KeepsOffsets (i ∷ rest) s s' e = elim (Option-cases (map_get s.off i)) [
    | inr (o, known) ↦ offsets_of_part-KeepsOffsets rest s s' (rw (offsets_of_part, known) at e)
    | inl fresh ↦ elim (Option-cases (get_elem? macros i)) [
      | inl beyond ↦ absurd (panic≢ok (rw (offsets_of_part, fresh, beyond) at e))
      | inr (entry, found) ↦
          let next = give_offset s i (state_words entry.1.kind) in
          kept_then s next s'
            (give_offset-KeepsOffsets s i (state_words entry.1.kind) fresh
              (words_of-get macros i entry found))
            (offsets_of_part-KeepsOffsets rest next s' (rw (offsets_of_part, fresh, found) at e))
    ]
  ]

  offsets_of_block-KeepsOffsets :
      (init_parts : List Partition) (block : List ℕ) (s s' : MacroOffsets)
      → offsets_of_block macros init_parts s block ≡ ok s'
      → KeepsOffsets s s'
  unfolding offsets_of_block
  offsets_of_block-KeepsOffsets init_parts [] s s' e = rw (ok-injective e) (kept_same s')
  offsets_of_block-KeepsOffsets init_parts (part_id ∷ block) s s' e =
      let (p, there, e₁) = bind-ok (unwrap (get_elem? init_parts part_id)) _ s' e in
      let (t, one, e₂) = bind-ok (offsets_of_part macros s p.state_macros) _ s' e₁ in
      kept_then s t s' (offsets_of_part-KeepsOffsets p.state_macros s t one)
        (offsets_of_block-KeepsOffsets init_parts block t s' e₂)

  offsets_of_stage-KeepsOffsets :
      (init_parts : List Partition) (blocks : List (List ℕ)) (s s' : MacroOffsets)
      → offsets_of_stage macros init_parts s blocks ≡ ok s'
      → KeepsOffsets s s'
  unfolding offsets_of_stage
  offsets_of_stage-KeepsOffsets init_parts [] s s' e = rw (ok-injective e) (kept_same s')
  offsets_of_stage-KeepsOffsets init_parts (block ∷ blocks) s s' e =
      let (t, one, e') = bind-ok (offsets_of_block macros init_parts s block) _ s' e in
      kept_then s t s' (offsets_of_block-KeepsOffsets init_parts block s t one)
        (offsets_of_stage-KeepsOffsets init_parts blocks t s' e')

  pub offsets_of_stages-KeepsOffsets :
      (stages : List (List (List ℕ) × List Partition)) (s s' : MacroOffsets)
      → offsets_of_stages macros stages s ≡ ok s'
      → KeepsOffsets s s'
  unfolding offsets_of_stages
  offsets_of_stages-KeepsOffsets [] s s' e = rw (ok-injective e) (kept_same s')
  offsets_of_stages-KeepsOffsets (stage ∷ stages) s s' e =
      let (t, one, e') = bind-ok (offsets_of_stage macros stage.1 s stage.0) _ s' e in
      kept_then s t s' (offsets_of_stage-KeepsOffsets stage.1 stage.0 s t one)
        (offsets_of_stages-KeepsOffsets stages t s' e')

  -- The macros from position `from` on.
  abbrev pub AreFrom : List (ℕ × MacroInst) → ℕ → Type 0
  AreFrom ms from = (i : ℕ) → words_of ms i ≡ words_of macros (from + i)

  pub after_first :
      (m : ℕ × MacroInst) (ms : List (ℕ × MacroInst)) (from : ℕ)
      → AreFrom (m ∷ ms) from
      → AreFrom ms (from + 1)
  after_first m ms from are i =
      let e : from + suc i ≡ from + 1 + i = omega arith in
      are (suc i) ∙ ap (λ (t : ℕ). words_of macros t) e

  pub offsets_of_rest-KeepsOffsets :
      (ms : List (ℕ × MacroInst)) (from : ℕ) (s : MacroOffsets)
      → AreFrom ms from
      → KeepsOffsets s (offsets_of_rest ms from s)
  unfolding offsets_of_rest
  offsets_of_rest-KeepsOffsets [] from s are = kept_same s
  offsets_of_rest-KeepsOffsets (m ∷ ms) from s are =
      let later = after_first m ms from are in
      elim (Bool-cases (has_state m.1.kind)) [
        | inr stateless ↦
            rw (offsets_of_rest, stateless) (offsets_of_rest-KeepsOffsets ms (from + 1) s later)
        | inl stateful ↦ elim (Option-cases (map_get s.off from)) [
          | inr (o, known) ↦
              rw (offsets_of_rest, stateful, known)
                (offsets_of_rest-KeepsOffsets ms (from + 1) s later)
          | inl fresh ↦
              let next = give_offset s from (state_words m.1.kind) in
              let here : from + 0 ≡ from = omega arith in
              rw (offsets_of_rest, stateful, fresh)
                (kept_then s next (offsets_of_rest ms (from + 1) next)
                  (give_offset-KeepsOffsets s from (state_words m.1.kind) fresh
                    (are 0 ∙ ap (λ (t : ℕ). words_of macros t) here))
                  (offsets_of_rest-KeepsOffsets ms (from + 1) next later))
        ]
      ]
