-- ===== src/Pe/Waves/Relax/Quiet.antt =====
-- src/pe.rs: a round of the loop over the depths that changes nothing.
use gem_macro_optimization.Base.{
  ℕ, ◌≤◌, ◌<◌, Bool, true, false, List, [], ◌∷◌, ok, ok-injective, ltb, ◌==◌, ==_iff, contains, ◌≡◌,
  refl, sym, ap, ◌∙◌, ◌⊎◌, inl, inr, Bool-cases, Outcome-cases, panic, panic≢ok, arith,
}
use gem_macro_optimization.Base.Maps.{map_insert}
use gem_macro_optimization.Aig.{Aig}
use gem_macro_optimization.Pe.Waves.{depth_of}
use gem_macro_optimization.Pe.Waves.Relax.{waits_for, need_of, raise_macro, raise_round}
use gem_macro_optimization.Pe.Waves.Relax.Needs.{need_of-above, true≢false}

module _ (aig : Aig) (in_cone has_pred : List ℕ) where
  -- The macro is above all that it waits for.
  abbrev pub IsAbove : List (ℕ × ℕ) → ℕ → Type 0
  IsAbove depth m =
      (ps : List ℕ)
      → waits_for aig in_cone has_pred m ≡ ok ps
      → (p : ℕ) → contains ps p ≡ true
      → depth_of depth p < depth_of depth m

  pub raise_macro-cases :
      (m : ℕ) (depth : List (ℕ × ℕ)) (changed : Bool) (ps : List ℕ)
      → waits_for aig in_cone has_pred m ≡ ok ps
      → ((raise_macro aig in_cone has_pred m (depth, changed) ≡ ok (depth, changed))
          × (need_of depth (depth_of depth m) ps ≤ depth_of depth m))
        ⊎ ((raise_macro aig in_cone has_pred m (depth, changed)
              ≡ ok (map_insert depth m (need_of depth (depth_of depth m) ps), true))
            × (depth_of depth m < need_of depth (depth_of depth m) ps))
  unfolding raise_macro
  raise_macro-cases m depth changed ps waits =
      let need = need_of depth (depth_of depth m) ps in
      elim (Bool-cases (ltb (depth_of depth m) need)) [
        | inl less ↦ inr (rw (waits, less) refl, ground arith)
        | inr enough ↦ inl (rw (waits, enough) refl, ground arith)
      ]

  -- A round that changes nothing finds each macro high enough.
  pub round_quiet :
      (ms : List ℕ) (s s' : List (ℕ × ℕ) × Bool)
      → raise_round aig in_cone has_pred ms s ≡ ok s'
      → s'.1 ≡ false
      → (s.1 ≡ false)
        × (s'.0 ≡ s.0)
        × ((j : ℕ) (ps : List ℕ)
            → contains ms j ≡ true
            → waits_for aig in_cone has_pred j ≡ ok ps
            → need_of s.0 (depth_of s.0 j) ps ≤ depth_of s.0 j)
  unfolding raise_round
  round_quiet [] s s' e quiet =
      let same = ok-injective e in
      (ap (λ t. t.1) same ∙ quiet, ap (λ t. t.0) (sym same), λ j ps is_in waits. cc)
  round_quiet (m ∷ ms) s s' e quiet = elim (Outcome-cases (waits_for aig in_cone has_pred m)) [
    | inl stops ↦
        let bad : raise_macro aig in_cone has_pred m s ≡ panic = rw (raise_macro, stops) refl in
        absurd (panic≢ok (rw (raise_round, bad) at e))
    | inr (ps, waits) ↦ elim (raise_macro-cases m s.0 s.1 ps waits) [
      | inl (same, enough) ↦
          let (unchanged, kept, rest) = round_quiet ms s s' (rw (raise_round, same) at e) quiet in
          (
            unchanged,
            kept,
            λ j qs is_in waits_j. elim (Bool-cases (m == j)) [
              | inl this ↦
                  let is_j : m ≡ j = (==_iff m j).0 this in
                  let known : ps ≡ qs =
                    ok-injective (sym waits ∙ ap (waits_for aig in_cone has_pred) is_j ∙ waits_j) in
                  rw (← is_j, ← known) enough
              | inr other ↦ rest j qs (rw other at is_in) waits_j
            ],
          )
      | inr (next, less) ↦
          let need = need_of s.0 (depth_of s.0 m) ps in
          let (never, _, _) =
            round_quiet ms (map_insert s.0 m need, true) s' (rw (raise_round, next) at e) quiet in
          absurd (true≢false never)
    ]
  ]

  -- When a round changes nothing, each macro is above those that it waits for.
  pub quiet-IsAbove :
      (ms : List ℕ) (s s' : List (ℕ × ℕ) × Bool)
      → raise_round aig in_cone has_pred ms s ≡ ok s'
      → s'.1 ≡ false
      → (j : ℕ) → contains ms j ≡ true
      → IsAbove s'.0 j
  quiet-IsAbove ms s s' e quiet j is_in ps waits p is_p =
      let (_, kept, high) = round_quiet ms s s' e quiet in
      let enough = high j ps is_in waits in
      rw kept (omega (arith, enough, need_of-above s.0 (depth_of s.0 j) ps p is_p))
