-- ===== src/Aig/Fanouts/Scatter.antt =====
-- src/aig.rs: the second loop over the edges, which writes the readers of a pin into its window of
-- `fanouts`, from the end down.
use gem_macro_optimization.Base.{
  ℕ, zero, suc, ◌+◌, ◌-◌, ◌≤◌, ◌<◌, true, ltb, ltb→lt, ◌≢◌, List, [], ◌∷◌, ok, ◌==◌, ==_iff,
  if◌then◌else◌, length, length-set, get_or, get_or-set_self, get_or-set_ne, set, ◌≡◌, ◌⊎◌, refl,
  sym, ap, ◌∙◌, inl, inr, Bool-cases, arith,
}
use gem_macro_optimization.Base.Stores.{store-ok, get_or-set, get_elem?-get_or, checked_sub-ok}
use gem_macro_optimization.Aig.Fanouts.{scatter}
use gem_macro_optimization.Aig.Fanouts.Edges.{readers}
use gem_macro_optimization.Aig.Fanouts.Windows.{fan, Windows, Filled, fan_self, Windows-tail}

-- The windows after the first edge, apart from that edge's place.
module _ (src i : ℕ) (edges : List (ℕ × ℕ)) (start fanouts : List ℕ)
    (w : Windows ((src, i) ∷ edges) start fanouts) where
  abbrev place : ℕ
  place = get_or start src 0 - 1

  start-set :
      (s : ℕ) → get_or (set start src place) s 0 ≡ (if src == s then place else get_or start s 0)
  start-set s = get_or-set start src s place w.below.0

  place-lt : 1 ≤ get_or start src 0
  unfolding readers
  place-lt = let room = w.room src w.below.0 in omega (arith, room, fan_self src i edges)

  place-out :
      (s : ℕ)
      → s < length start
      → (place + fan s edges < get_or (set start src place) s 0)
        ⊎ (get_or (set start src place) s 0 ≤ place)
  unfolding readers
  place-out s lt =
      let pos = place-lt in
      let one_more = fan_self src i edges in
      let here = start-set s in
      elim (Bool-cases (src == s)) [
        | inl same ↦ rw (here, same) (inr (omega arith))
        | inr other ↦
            rw (here, other)
              (elim (Bool-cases (ltb s src)) [
                | inl lower ↦
                    let a = w.apart s src (ltb→lt s src lower) w.below.0 in
                    inr (omega (arith, a, one_more))
                | inr not_lower ↦
                    let lt_s : src < s = ground arith in
                    let a = w.apart src s lt_s lt in
                    let a' = rw other at a in inl (omega (arith, a'))
              ])
      ]

  -- A place out of all windows stays out of them, and is not the first edge's.
  rest-out :
      (p : ℕ)
      → ((s : ℕ)
          → s < length start
          → (p + fan s ((src, i) ∷ edges) < get_or start s 0) ⊎ (get_or start s 0 ≤ p))
      → (s : ℕ) → s < length start
      → (p + fan s edges < get_or (set start src place) s 0)
        ⊎ (get_or (set start src place) s 0 ≤ p)
  unfolding readers
  rest-out p out s lt =
      let here = start-set s in
      let old = out s lt in
      elim (Bool-cases (src == s)) [
        | inl same ↦
            let e : src ≡ s = (==_iff src s).0 same in
            let n_eq = ap (λ y. get_or start y 0) e in
            let old' = rw same at old in
            rw (here, same)
              (elim old' [
                | inl under ↦ inl (omega (arith, under, n_eq))
                | inr over ↦ inr (omega (arith, over, n_eq))
              ])
        | inr other ↦ let old' = rw other at old in rw (here, other) old'
      ]

  place-apart :
      (p : ℕ)
      → ((s : ℕ)
          → s < length start
          → (p + fan s ((src, i) ∷ edges) < get_or start s 0) ⊎ (get_or start s 0 ≤ p))
      → place ≢ p
  unfolding readers
  place-apart p out e =
      let self : (src == src) ≡ true = ground arith in
      let old = out src w.below.0 in
      let pos = place-lt in
      elim old [
        | inl under ↦ absurd (omega (arith, under, e, fan_self src i edges))
        | inr over ↦ absurd (omega (arith, over, e))
      ]

  -- The readers of the first edge's source.
  first-of_src :
      (start' fanouts' : List ℕ)
      → Filled edges (set start src place) (set fanouts place i) start' fanouts'
      → (s k : ℕ) → src ≡ s
      → s < length start
      → k < suc (fan s edges)
      → get_or fanouts' (get_or start s 0 - 1 - k) 0 ≡ get_or (i ∷ readers s edges) k 0
  first-of_src start' fanouts' done s zero e lt h =
      let pos = place-lt in
      let n_eq = ap (λ y. get_or start y 0) e in
      let at_place : get_or start s 0 - 1 - 0 ≡ place = omega (arith, n_eq) in
      rw at_place (
        done.kept place (λ t lt_t. place-out t (omega (arith, length-set start src place, lt_t)))
        ∙ get_or-set_self fanouts place i 0 (omega (arith, pos, w.fits src w.below.0)))
  first-of_src start' fanouts' done s (suc k) e lt h =
      let same : (src == s) ≡ true = (==_iff src s).1 e in
      let here : get_or (set start src place) s 0 ≡ place = start-set s ∙ rw same refl in
      let n_eq = ap (λ y. get_or start y 0) e in
      let r = done.filled s k (omega (arith, length-set start src place, lt)) (omega (arith, h)) in
      let shift : get_or (set start src place) s 0 - 1 - k ≡ get_or start s 0 - 1 - suc k =
        omega (arith, here, n_eq) in
      ap (λ p. get_or fanouts' p 0) (sym shift) ∙ r

  -- What the rest writes is what the whole writes.
  first-Filled :
      (start' fanouts' : List ℕ)
      → Filled edges (set start src place) (set fanouts place i) start' fanouts'
      → (s k : ℕ) → s < length start
      → k < fan s ((src, i) ∷ edges)
      → get_or fanouts' (get_or start s 0 - 1 - k) 0 ≡ get_or (readers s ((src, i) ∷ edges)) k 0
  unfolding readers
  first-Filled start' fanouts' done s k lt h =
      let here = start-set s in
      let len = length-set start src place in
      let rest = done.filled s in
      elim (Bool-cases (src == s)) [
        | inl same ↦
            let e : src ≡ s = (==_iff src s).0 same in
            let h' = rw same at h in
            let n_eq = ap (λ y. get_or start y 0) e in
            rw same (first-of_src start' fanouts' done s k e lt h')
        | inr other ↦
            let h' = rw other at h in
            let r = rest k (omega arith) h' in let r' = rw (here, other) at r in rw other r'
      ]

pub scatter-ok :
    (edges : List (ℕ × ℕ)) (start fanouts : List ℕ)
    → Windows edges start fanouts
    → (start' fanouts' : List ℕ) × (scatter edges (start, fanouts) ≡ ok (start', fanouts'))
      × Filled edges start fanouts start' fanouts'
unfolding scatter readers
scatter-ok [] start fanouts w = (
  start,
  fanouts,
  refl,
  record {
    sized = refl;
    fanouts_sized = refl;
    starts = λ s lt. omega arith;
    filled = λ s k lt h. absurd (omega arith);
    kept = λ p out. refl;
  },
)
scatter-ok ((src, i) ∷ edges) start fanouts w =
    let n = get_or start src 0 in
    let v = set start src (n - 1) in
    let f = set fanouts (n - 1) i in
    let lt_src : src < length start = w.below.0 in
    let pos : 1 ≤ n = place-lt src i edges start fanouts w in
    let lt_f : n - 1 < length fanouts = omega (arith, w.fits src lt_src) in
    let w' = Windows-tail src i edges start fanouts w in
    let (start', fanouts', runs, done) = scatter-ok edges v f w' in
    let len = length-set start src (n - 1) in
    let at : (s : ℕ) → get_or v s 0 ≡ (if src == s then n - 1 else get_or start s 0) =
      λ s. get_or-set start src s (n - 1) lt_src in
    (
      start',
      fanouts',
      rw
          (
            get_elem?-get_or start src lt_src,
            checked_sub-ok n 1 pos,
            store-ok start src (n - 1) lt_src,
            store-ok fanouts (n - 1) i lt_f,
          )
          runs,
      record {
        sized = done.sized ∙ len;
        fanouts_sized = done.fanouts_sized ∙ length-set fanouts (n - 1) i;
        starts = λ s lt. ground (arith, at s, done.starts s (omega arith), ==_iff src s);
        filled = λ s k lt h. first-Filled src i edges start fanouts w start' fanouts' done s k lt h;
        kept = λ p out.
            done.kept p (λ s lt. rest-out src i edges start fanouts w p out s (omega arith))
            ∙ get_or-set_ne fanouts (n - 1) p i 0 (place-apart src i edges start fanouts w p out);
      },
    )
