-- ===== src/Aig/Fanouts/Windows.antt =====
-- src/aig.rs: the windows of `fanouts` that the second loop over the edges fills.
use gem_macro_optimization.Base.{
  ℕ, suc, ◌+◌, ◌-◌, ◌≤◌, ◌<◌, true, List, ◌∷◌, ◌==◌, ==_iff, if◌then◌else◌, length, length-set,
  get_or, set, ◌≡◌, ◌⊎◌, refl, arith,
}
use gem_macro_optimization.Base.Stores.{get_or-set}
use gem_macro_optimization.Aig.Fanouts.Edges.{readers, SourcesBelow}

-- How many edges start at a pin.
abbrev pub fan : ℕ → List (ℕ × ℕ) → ℕ
fan s edges = length (readers s edges)

-- The windows that the edges will fill do not meet, in the order of the pins, and fit the list.
pub record Windows (edges : List (ℕ × ℕ)) (start fanouts : List ℕ) : Type 0 where
  pub below : SourcesBelow (length start) edges
  pub room : (s : ℕ) → s < length start → fan s edges ≤ get_or start s 0
  pub fits : (s : ℕ) → s < length start → get_or start s 0 ≤ length fanouts
  pub apart :
      (s t : ℕ) → s < t → t < length start → get_or start s 0 + fan t edges ≤ get_or start t 0

-- What the loop does to the starts and to the windows.
pub record Filled (edges : List (ℕ × ℕ)) (start fanouts start' fanouts' : List ℕ) : Type 0 where
  pub sized : length start' ≡ length start
  pub fanouts_sized : length fanouts' ≡ length fanouts
  pub starts : (s : ℕ) → s < length start → get_or start' s 0 + fan s edges ≡ get_or start s 0
  pub filled :
      (s k : ℕ)
      → s < length start
      → k < fan s edges
      → get_or fanouts' (get_or start s 0 - 1 - k) 0 ≡ get_or (readers s edges) k 0
  pub kept :
      (p : ℕ)
      → ((s : ℕ) → s < length start → (p + fan s edges < get_or start s 0) ⊎ (get_or start s 0 ≤ p))
      → get_or fanouts' p 0 ≡ get_or fanouts p 0

pub fan_self : (src i : ℕ) (edges : List (ℕ × ℕ)) → fan src ((src, i) ∷ edges) ≡ suc (fan src edges)
unfolding readers
fan_self src i edges = let self : (src == src) ≡ true = ground arith in rw self refl

-- The first edge takes one place of its own window and of no other.
pub Windows-tail :
    (src i : ℕ) (edges : List (ℕ × ℕ)) (start fanouts : List ℕ)
    → Windows ((src, i) ∷ edges) start fanouts
    → Windows edges
        (set start src (get_or start src 0 - 1))
        (set fanouts (get_or start src 0 - 1) i)
unfolding readers
Windows-tail src i edges start fanouts w =
    let n = get_or start src 0 in
    let v = set start src (n - 1) in
    let len = length-set start src (n - 1) in
    let fan_len = length-set fanouts (n - 1) i in
    let at : (s : ℕ) → get_or v s 0 ≡ (if src == s then n - 1 else get_or start s 0) =
      λ s. get_or-set start src s (n - 1) w.below.0 in
    record {
      below = rw len (w.below.1);
      room = λ s lt. ground (arith, at s, w.room s (omega arith), ==_iff src s);
      fits = λ s lt. ground (arith, at s, w.fits s (omega arith), ==_iff src s);
      apart = λ s t lt lt_t.
          ground (arith, at s, at t, w.apart s t lt (omega arith), ==_iff src s, ==_iff src t);
    }
