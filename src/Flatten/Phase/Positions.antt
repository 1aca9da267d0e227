-- ===== src/Flatten/Phase/Positions.antt =====
-- src/flatten.rs: the codes and the positions of a lane, as the executor takes them.
use gem_macro_optimization.Base.{
  ℕ, zero, suc, ◌^◌, ◌≤◌, ◌<◌, List, [], ◌∷◌, length, get_or, replicate, map, ltb, ◌≡◌, ◌⊎◌, refl,
  ap, ◌∙◌, Bool-cases, inl, inr, arith,
}
use gem_macro_optimization.Macros.Inst.{MacroInst}
use gem_macro_optimization.Macros.Encode.{macro_pos_none, macro_decode_input}
use gem_macro_optimization.Script.{at, read_bit, decode_all}
use gem_macro_optimization.Script.Rounds.{AreOutputs}
use gem_macro_optimization.Flatten.Phase.{Emit, has_no_pos}
use gem_macro_optimization.Flatten.Phase.Outputs.{HasRoom, IsPlaced, PlacesOutputs}
use gem_macro_optimization.Flatten.Phase.Words.{AreCodes}

pub length-decode_all : (st codes : List ℕ) → length (decode_all st codes) ≡ length codes
length-decode_all st [] = refl
length-decode_all st (c ∷ codes) = ap suc (length-decode_all st codes)

pub at-decode_all :
    (st codes : List ℕ) (i : ℕ)
    → i < length codes
    → at (decode_all st codes) i ≡ macro_decode_input (at codes i) (read_bit st)
at-decode_all st [] i h = absurd (omega arith)
at-decode_all st (c ∷ codes) zero h = refl
at-decode_all st (c ∷ codes) (suc i) h = at-decode_all st codes i (omega arith)

pub at-map : (f : ℕ → ℕ) (xs : List ℕ) (i : ℕ) → i < length xs → at (map f xs) i ≡ f (at xs i)
at-map f [] i h = absurd (omega arith)
at-map f (x ∷ xs) zero h = refl
at-map f (x ∷ xs) (suc i) h = at-map f xs i (omega arith)

-- The positions before the loop over the outputs.
abbrev pub no_positions : List ℕ
no_positions = replicate 8 macro_pos_none

no_positions-at : (s : ℕ) → s < 8 → at no_positions s ≡ macro_pos_none
no_positions-at s h = ground arith

-- The codes before the loop over the inputs.
abbrev pub no_codes : List ℕ
no_codes = replicate 10 (2 ^ 14)

pub no_codes-AreCodes : AreCodes no_codes
no_codes-AreCodes i = ground arith

at_beyond : (xs : List ℕ) (i : ℕ) → length xs ≤ i → at xs i ≡ 0
at_beyond [] i h = refl
at_beyond (x ∷ xs) zero h = absurd (omega arith)
at_beyond (x ∷ xs) (suc i) h = at_beyond xs i (omega arith)

positions-AreCodes :
    (outs : List ℕ) → length outs ≡ 8 → ((s : ℕ) → s < 8 → at outs s < 2 ^ 16) → AreCodes outs
positions-AreCodes outs sized h i = elim (Bool-cases (ltb i 8)) [
  | inl inside ↦ h i (ground arith)
  | inr beyond ↦ omega (arith, at_beyond outs i (ground (arith, sized)))
]

-- `n` outputs were looked at.
module _ (m : MacroInst) (n : ℕ) (outs : List ℕ) (e r : Emit) (le : n ≤ 8)
    (places : PlacesOutputs m 0 n no_positions outs e r) (has_room : HasRoom n e) where
  is_out_or_unset : (s : ℕ) → s < 8 → (at outs s ≡ macro_pos_none) ⊎ ((s < n) × IsPlaced m s)
  is_out_or_unset s h = elim (Bool-cases (ltb s n)) [
    | inl inside ↦ elim (Bool-cases (has_no_pos m.kind s (get_or m.outputs s 0))) [
      | inl none_needed ↦ inl (places.skipped s none_needed ∙ no_positions-at s h)
      | inr has_pos ↦ inr (ground arith, has_pos)
    ]
    | inr outside ↦ inl (places.outside s (inr (ground arith)) ∙ no_positions-at s h)
  ]

  placed-below : (s : ℕ) → s < n → IsPlaced m s → at outs s < 8192
  placed-below s h is_placed =
      let left = places.room_left 0 (record {
        sized = has_room.sized;
        cursor_le = has_room.cursor_le;
        left = omega (arith, has_room.left);
      }) in
      omega (arith, places.below s (omega arith) (omega arith) is_placed, left.cursor_le)

  one_slot : (s t : ℕ) → s < n → t < n → IsPlaced m s → IsPlaced m t → at outs s ≡ at outs t → s ≡ t
  one_slot s t hs ht s_placed t_placed same = elim (Bool-cases (ltb s t)) [
    | inl before ↦ absurd (
        omega (
          arith,
          places.ascending s t (omega arith) (ground arith) (omega arith) s_placed t_placed,
        ))
    | inr not_before ↦ elim (Bool-cases (ltb t s)) [
      | inl after ↦ absurd (
          omega (
            arith,
            places.ascending t s (omega arith) (ground arith) (omega arith) t_placed s_placed,
          ))
      | inr not_after ↦ ground arith
    ]
  ]

  pub outs-AreOutputs : AreOutputs outs 256
  outs-AreOutputs = record {
    placed = λ s h. elim (is_out_or_unset s h) [
      | inl no_pos ↦ inl no_pos
      | inr (hn, is_placed) ↦ inr (omega (arith, placed-below s hn is_placed))
    ];
    apart = λ s t hs ht some_pos same. elim (is_out_or_unset s hs) [
      | inl no_pos ↦ absurd (some_pos no_pos)
      | inr (sn, s_placed) ↦ elim (is_out_or_unset t ht) [
        | inl no_pos ↦ absurd (some_pos (same ∙ no_pos))
        | inr (tn, t_placed) ↦ one_slot s t sn tn s_placed t_placed same
      ]
    ];
  }

  pub outs-AreCodes : AreCodes outs
  outs-AreCodes = positions-AreCodes outs places.sized_outs (λ s h. elim (is_out_or_unset s h) [
    | inl no_pos ↦ omega (arith, no_pos)
    | inr (hn, is_placed) ↦ omega (arith, placed-below s hn is_placed)
  ])
