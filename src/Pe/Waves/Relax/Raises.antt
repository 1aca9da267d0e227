-- ===== src/Pe/Waves/Relax/Raises.antt =====
-- src/pe.rs: one round of the loop that raises the depths of the macros.
use gem_macro_optimization.Base.{
  ℕ, ◌+◌, ◌-◌, ◌≤◌, ◌<◌, Bool, true, false, List, [], ◌∷◌, ok, ◌==◌, contains, AllIn, ◌≡◌, refl, ap,
  ◌∙◌, inl, inr, Bool-cases, arith,
}
use gem_macro_optimization.Base.Maps.{map_insert}
use gem_macro_optimization.Aig.{Aig}
use gem_macro_optimization.Pe.Waves.{depth_of}
use gem_macro_optimization.Pe.Waves.Relax.{waits_for, need_of, raise_macro, raise_round}
use gem_macro_optimization.Pe.Waves.Relax.Needs.{depth_of-map_insert, need_of-le}
use gem_macro_optimization.Pe.Waves.Relax.Quiet.{raise_macro-cases}

-- Room for each macro to climb from nothing to its rank above `k`.
abbrev pub budget : (ℕ → ℕ) → ℕ → List ℕ → ℕ
budget rank k [] = 0
budget rank k (m ∷ ms) = k + rank m + budget rank k ms

module _ (aig : Aig) (in_cone has_pred : List ℕ) where
  -- Each macro of the cone waits for macros of lower rank.
  abbrev pub IsRanked : (ℕ → ℕ) → Type 0
  IsRanked rank =
      (m : ℕ)
      → contains in_cone m ≡ true
      → (ps : List ℕ) × (waits_for aig in_cone has_pred m ≡ ok ps)
        × ((p : ℕ) → contains ps p ≡ true → rank p < rank m)

  module _ (rank : ℕ → ℕ) (k : ℕ) where
    abbrev pub IsWithin : List (ℕ × ℕ) → Type 0
    IsWithin depth = (m : ℕ) → depth_of depth m ≤ k + rank m

    -- What the depths of some macros can still grow by.
    pub slack : List (ℕ × ℕ) → List ℕ → ℕ
    slack depth [] = 0
    slack depth (m ∷ ms) = (k + rank m - depth_of depth m) + slack depth ms

    pub slack-le-budget : (depth : List (ℕ × ℕ)) (ms : List ℕ) → slack depth ms ≤ budget rank k ms
    unfolding slack
    slack-le-budget depth [] = omega arith
    slack-le-budget depth (m ∷ ms) = omega (arith, slack-le-budget depth ms)

    slack-insert :
        (depth : List (ℕ × ℕ)) (m d : ℕ) (ms : List ℕ)
        → depth_of depth m < d
        → d ≤ k + rank m
        → (slack (map_insert depth m d) ms ≤ slack depth ms)
          × (contains ms m ≡ true → slack (map_insert depth m d) ms < slack depth ms)
    unfolding slack
    slack-insert depth m d [] up fits = (omega arith, λ h. cc)
    slack-insert depth m d (j ∷ ms) up fits =
        let (rest, strict) = slack-insert depth m d ms up fits in
        elim (Bool-cases (m == j)) [
          | inl same ↦
              let e : m ≡ j = ground arith in
              let at : depth_of (map_insert depth m d) j ≡ d =
                depth_of-map_insert depth m j d ∙ rw same refl in
              let old = ap (depth_of depth) e in
              let ranks = ap rank e in
              (omega (arith, at, old, ranks), λ h. omega (arith, at, old, ranks))
          | inr other ↦
              let at : depth_of (map_insert depth m d) j ≡ depth_of depth j =
                depth_of-map_insert depth m j d ∙ rw other refl in
              let back : (j == m) ≡ false = ground arith in
              (omega (arith, at), λ h. let less = strict (rw back at h) in omega (arith, at, less))
        ]

    -- What some raises do to the depths and the flag.
    pub record Raises (ms : List ℕ) (s s' : List (ℕ × ℕ) × Bool) : Type 0 where
      pub within : IsWithin s'.0
      pub grows : (m : ℕ) → depth_of s.0 m ≤ depth_of s'.0 m
      uses : slack s'.0 in_cone ≤ slack s.0 in_cone
      pub strict : s.1 ≡ false → s'.1 ≡ true → slack s'.0 in_cone < slack s.0 in_cone

    Raises-none : (s : List (ℕ × ℕ) × Bool) → IsWithin s.0 → Raises [] s s
    Raises-none s w = record {
      within = w;
      grows = λ m. omega arith;
      uses = omega arith;
      strict = λ unchanged changed. cc;
    }

    Raises-keep :
        (m : ℕ) (depth : List (ℕ × ℕ)) (changed : Bool)
        → IsWithin depth
        → Raises (m ∷ []) (depth, changed) (depth, changed)
    Raises-keep m depth changed w = record {
      within = w;
      grows = λ j. omega arith;
      uses = omega arith;
      strict = λ unchanged turned. cc;
    }

    Raises-up :
        (m : ℕ) (depth : List (ℕ × ℕ)) (changed : Bool) (d : ℕ)
        → contains in_cone m ≡ true
        → depth_of depth m < d
        → d ≤ k + rank m
        → IsWithin depth
        → Raises (m ∷ []) (depth, changed) (map_insert depth m d, true)
    Raises-up m depth changed d is_in up fits w =
        let (loose, strict) = slack-insert depth m d in_cone up fits in
        record {
          within = λ j. elim (Bool-cases (m == j)) [
            | inl same ↦
                let e : m ≡ j = ground arith in
                rw (depth_of-map_insert depth m j d, same) (omega (arith, ap rank e))
            | inr other ↦ rw (depth_of-map_insert depth m j d, other) (w j)
          ];
          grows = λ j. elim (Bool-cases (m == j)) [
            | inl same ↦
                let e : m ≡ j = ground arith in
                rw (depth_of-map_insert depth m j d, same) (omega (arith, ap (depth_of depth) e))
            | inr other ↦ rw (depth_of-map_insert depth m j d, other) (omega arith)
          ];
          uses = loose;
          strict = λ unchanged turned. strict is_in;
        }

    Raises-one :
        (m : ℕ) (depth : List (ℕ × ℕ)) (changed : Bool)
        → IsRanked rank
        → contains in_cone m ≡ true
        → IsWithin depth
        → (s' : List (ℕ × ℕ) × Bool) × (raise_macro aig in_cone has_pred m (depth, changed) ≡ ok s')
          × Raises (m ∷ []) (depth, changed) s'
    Raises-one m depth changed ranked is_in w =
        let (ps, waits, lower) = ranked m is_in in
        let need = need_of depth (depth_of depth m) ps in
        let fits : need ≤ k + rank m =
          need_of-le depth (depth_of depth m) (k + rank m) ps (w m)
            (λ p h. let below = lower p h in let at = w p in omega arith) in
        elim (raise_macro-cases aig in_cone has_pred m depth changed ps waits) [
          | inl (same, enough) ↦ ((depth, changed), same, Raises-keep m depth changed w)
          | inr (next, less) ↦ (
            (map_insert depth m need, true),
            next,
            Raises-up m depth changed need is_in less fits w,
          )
        ]

    Raises-chain :
        (m : ℕ) (ms : List ℕ) (s t r : List (ℕ × ℕ) × Bool)
        → Raises (m ∷ []) s t
        → Raises ms t r
        → Raises (m ∷ ms) s r
    Raises-chain m ms s t r a b = record {
      within = b.within;
      grows = λ j. let first = a.grows j in let rest = b.grows j in omega arith;
      uses = let first = a.uses in let rest = b.uses in omega arith;
      strict = λ unchanged turned. elim (Bool-cases t.1) [
        | inl early ↦ let first = a.strict unchanged early in let rest = b.uses in omega arith
        | inr late ↦ let first = a.uses in let rest = b.strict late turned in omega arith
      ];
    }

    pub Raises-round :
        (ms : List ℕ) (s : List (ℕ × ℕ) × Bool)
        → IsRanked rank
        → AllIn in_cone ms
        → IsWithin s.0
        → (s' : List (ℕ × ℕ) × Bool) × (raise_round aig in_cone has_pred ms s ≡ ok s')
          × Raises ms s s'
    unfolding raise_round
    Raises-round [] s ranked all w = (s, refl, Raises-none s w)
    Raises-round (m ∷ ms) s ranked all w =
        let (t, first, one) = Raises-one m s.0 s.1 ranked all.0 w in
        let (r, rest, more) = Raises-round ms t ranked all.1 one.within in
        (r, rw (raise_round, first) rest, Raises-chain m ms s t r one more)
