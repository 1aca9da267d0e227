-- ===== src/Pe/Waves/Relax/Ends.antt =====
-- src/pe.rs: the end of the loop that raises the depths of the macros.
use gem_macro_optimization.Base.{
  ℕ, zero, suc, ◌≤◌, ◌<◌, Bool, true, false, List, [], ◌∷◌, none, some, ok, max, contains, AllIn,
  AllIn-refl, ◌==◌, ◌≡◌, refl, ◌∙◌, inl, inr, Bool-cases, arith,
}
use gem_macro_optimization.Base.Maps.{map_get, map_insert}
use gem_macro_optimization.Aig.{Aig}
use gem_macro_optimization.Pe.Waves.{depth_of}
use gem_macro_optimization.Pe.Waves.Relax.{waits_for, need_of, raise_round, raise_loop}
use gem_macro_optimization.Pe.Waves.Relax.Quiet.{raise_macro-cases, IsAbove, quiet-IsAbove}
use gem_macro_optimization.Pe.Waves.Relax.Raises.{
  IsRanked, IsWithin, slack, budget, slack-le-budget, Raises-round,
}

-- The greatest depth of a macro.
abbrev pub top : List (ℕ × ℕ) → ℕ
top [] = 1
top ((m, d) ∷ depth) = max d (top depth)

depth_of-le-top : (depth : List (ℕ × ℕ)) (m : ℕ) → depth_of depth m ≤ top depth
unfolding map_get
depth_of-le-top [] m = omega arith
depth_of-le-top ((j, d) ∷ depth) m = elim (Bool-cases (j == m)) [
  | inl same ↦ rw same (omega arith)
  | inr other ↦ rw other (let rest = depth_of-le-top depth m in omega arith)
]

module _ (aig : Aig) (in_cone has_pred : List ℕ) where
  loop_again :
      (fuel : ℕ) (depth : List (ℕ × ℕ)) (s : List (ℕ × ℕ) × Bool)
      → raise_round aig in_cone has_pred in_cone (depth, false) ≡ ok s
      → s.1 ≡ true
      → raise_loop aig in_cone has_pred (suc fuel) depth ≡ raise_loop aig in_cone has_pred fuel s.0
  unfolding raise_loop
  loop_again fuel depth (d, changed) runs turned =
      rw (runs, raise_loop) (rw (turned, raise_loop) refl)

  loop_stops :
      (fuel : ℕ) (depth : List (ℕ × ℕ)) (s : List (ℕ × ℕ) × Bool)
      → raise_round aig in_cone has_pred in_cone (depth, false) ≡ ok s
      → s.1 ≡ false
      → raise_loop aig in_cone has_pred (suc fuel) depth ≡ ok (some s.0)
  unfolding raise_loop
  loop_stops fuel depth (d, changed) runs quiet =
      rw (runs, raise_loop) (rw (quiet, raise_loop) refl)

  module _ (rank : ℕ → ℕ) (k : ℕ) (ranked : IsRanked aig in_cone has_pred rank) where
    loop_ends :
        (fuel : ℕ) (depth : List (ℕ × ℕ))
        → IsWithin aig in_cone has_pred rank k depth
        → slack aig in_cone has_pred rank k depth in_cone < fuel
        → (depth' : List (ℕ × ℕ)) × (raise_loop aig in_cone has_pred fuel depth ≡ ok (some depth'))
          × ((m : ℕ) → depth_of depth m ≤ depth_of depth' m)
          × ((m : ℕ) → contains in_cone m ≡ true → IsAbove aig in_cone has_pred depth' m)
    unfolding raise_loop
    loop_ends zero depth w enough = absurd (omega arith)
    loop_ends (suc fuel) depth w enough =
        let (s, runs, raised) =
          Raises-round aig in_cone has_pred rank k in_cone (depth, false) ranked
            (AllIn-refl in_cone) w in
        elim (Bool-cases s.1) [
          | inl changed ↦
              let less = raised.strict refl changed in
              let (depth', rest, grown, above) = loop_ends fuel s.0 raised.within (omega arith) in
              (
                depth',
                loop_again fuel depth s runs changed ∙ rest,
                λ m. let first = raised.grows m in let more = grown m in omega arith,
                above,
              )
          | inr quiet ↦ (
            s.0,
            loop_stops fuel depth s runs quiet,
            raised.grows,
            quiet-IsAbove aig in_cone has_pred in_cone (depth, false) s runs quiet,
          )
        ]

-- Where the macros of a cone have ranks such that each waits for macros of lower rank only, the
-- loop over the depths ends, if it has a round more than there are steps from 0 to the greatest
-- depth and the rank of each macro. No depth falls, and in the end every macro of the cone is
-- deeper than each macro that it waits for.
pub raise_loop-ends :
    (aig : Aig) (in_cone has_pred : List ℕ) (rank : ℕ → ℕ) (fuel : ℕ) (depth : List (ℕ × ℕ))
    → IsRanked aig in_cone has_pred rank
    → budget rank (top depth) in_cone < fuel
    → (depth' : List (ℕ × ℕ)) × (raise_loop aig in_cone has_pred fuel depth ≡ ok (some depth'))
      × ((m : ℕ) → depth_of depth m ≤ depth_of depth' m)
      × ((m : ℕ) → contains in_cone m ≡ true → IsAbove aig in_cone has_pred depth' m)
raise_loop-ends aig in_cone has_pred rank fuel depth ranked enough =
    let k = top depth in
    loop_ends aig in_cone has_pred rank k ranked fuel depth
      (λ m. let below = depth_of-le-top depth m in omega arith)
      (let fits = slack-le-budget aig in_cone has_pred rank k depth in_cone in omega arith)

-- A macro waits for another, at once or through others.
pub data Waits (aig : Aig) (in_cone has_pred : List ℕ) (m : ℕ) : ℕ → Type 0 where
  direct :
      (ps : List ℕ) (p : ℕ)
      → contains in_cone m ≡ true
      → waits_for aig in_cone has_pred m ≡ ok ps
      → contains ps p ≡ true
      → Waits aig in_cone has_pred m p
  through :
      (j : ℕ) (ps : List ℕ) (p : ℕ)
      → Waits aig in_cone has_pred m j
      → contains in_cone j ≡ true
      → waits_for aig in_cone has_pred j ≡ ok ps
      → contains ps p ≡ true
      → Waits aig in_cone has_pred m p

module _ (aig : Aig) (in_cone has_pred : List ℕ) where
  round_total :
      ((j : ℕ)
        → contains in_cone j ≡ true
        → (ps : List ℕ) × (waits_for aig in_cone has_pred j ≡ ok ps))
      → (ms : List ℕ) → AllIn in_cone ms
      → (s : List (ℕ × ℕ) × Bool)
      → (s' : List (ℕ × ℕ) × Bool) × (raise_round aig in_cone has_pred ms s ≡ ok s')
  unfolding raise_round
  round_total exist [] all s = (s, refl)
  round_total exist (m ∷ ms) all s =
      let (ps, waits) = exist m all.0 in
      elim (raise_macro-cases aig in_cone has_pred m s.0 s.1 ps waits) [
        | inl (same, _) ↦
            let (r, rest) = round_total exist ms all.1 s in (r, rw (raise_round, same) rest)
        | inr (next, _) ↦
            let s₁ : List (ℕ × ℕ) × Bool =
              (map_insert s.0 m (need_of s.0 (depth_of s.0 m) ps), true) in
            let (r, rest) = round_total exist ms all.1 s₁ in (r, rw (raise_round, next) rest)
      ]

  Waits-lt :
      (depth : List (ℕ × ℕ))
      → ((j : ℕ) → contains in_cone j ≡ true → IsAbove aig in_cone has_pred depth j)
      → {m p : ℕ} → Waits aig in_cone has_pred m p
      → depth_of depth p < depth_of depth m
  Waits-lt depth above {m} (direct ps p is_in waits is_p) = above m is_in ps waits p is_p
  Waits-lt depth above {m} (through j ps p w is_in waits is_p) =
      let first = Waits-lt depth above w in let last = above j is_in ps waits p is_p in omega arith

-- Where every macro of a cone exists and one of them waits, at once or through others, for itself,
-- the loop over the depths never ends: with any number of rounds it still runs.
pub raise_loop-cycle :
    (aig : Aig) (in_cone has_pred : List ℕ) (m : ℕ)
    → ((j : ℕ)
        → contains in_cone j ≡ true
        → (ps : List ℕ) × (waits_for aig in_cone has_pred j ≡ ok ps))
    → Waits aig in_cone has_pred m m
    → (fuel : ℕ) (depth : List (ℕ × ℕ)) → raise_loop aig in_cone has_pred fuel depth ≡ ok none
unfolding raise_loop
raise_loop-cycle aig in_cone has_pred m exist cycle zero depth = refl
raise_loop-cycle aig in_cone has_pred m exist cycle (suc fuel) depth =
    let (s, runs) =
      round_total aig in_cone has_pred exist in_cone (AllIn-refl in_cone) (depth, false) in
    elim (Bool-cases s.1) [
      | inl changed ↦
          loop_again aig in_cone has_pred fuel depth s runs changed
          ∙ raise_loop-cycle aig in_cone has_pred m exist cycle fuel s.0
      | inr quiet ↦
          let above = quiet-IsAbove aig in_cone has_pred in_cone (depth, false) s runs quiet in
          let less = Waits-lt aig in_cone has_pred s.0 above cycle in absurd (omega arith)
    ]
