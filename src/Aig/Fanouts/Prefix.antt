-- ===== src/Aig/Fanouts/Prefix.antt =====
-- src/aig.rs: the running sums of `fanouts_start`.
use gem_macro_optimization.Base.{
  ℕ, zero, suc, ◌+◌, ◌≤◌, ◌<◌, List, [], ◌∷◌, length, get_or, ◌≡◌, refl, ap, arith,
}
use gem_macro_optimization.Aig.Fanouts.{accumulate}

pub length-accumulate : (p : ℕ) (v : List ℕ) → length (accumulate p v) ≡ length v
unfolding accumulate
length-accumulate p [] = refl
length-accumulate p (n ∷ v) = ap suc (length-accumulate (n + p) v)

pub accumulate-from :
    (p : ℕ) (v : List ℕ) (t : ℕ) → t < length v → p + get_or v t 0 ≤ get_or (accumulate p v) t 0
unfolding accumulate
accumulate-from p [] t h = absurd (omega arith)
accumulate-from p (n ∷ v) zero h = omega arith
accumulate-from p (n ∷ v) (suc t) h = omega (arith, accumulate-from (n + p) v t (omega arith))

-- The window that ends at `t` is behind that which ends at `s`.
pub accumulate-apart :
    (p : ℕ) (v : List ℕ) (s t : ℕ)
    → s < t
    → t < length v
    → get_or (accumulate p v) s 0 + get_or v t 0 ≤ get_or (accumulate p v) t 0
unfolding accumulate
accumulate-apart p [] s t lt h = absurd (omega arith)
accumulate-apart p (n ∷ v) s zero lt h = absurd (omega arith)
accumulate-apart p (n ∷ v) zero (suc t) lt h = accumulate-from (n + p) v t (omega arith)
accumulate-apart p (n ∷ v) (suc s) (suc t) lt h =
    accumulate-apart (n + p) v s t (omega arith) (omega arith)

-- A sum is the sum before it and its own element.
pub accumulate-next :
    (p : ℕ) (v : List ℕ) (s : ℕ)
    → suc s < length v
    → get_or (accumulate p v) (suc s) 0 ≡ get_or (accumulate p v) s 0 + get_or v (suc s) 0
unfolding accumulate
accumulate-next p [] s h = absurd (omega arith)
accumulate-next p (n ∷ []) s h = absurd (omega arith)
accumulate-next p (n ∷ m ∷ v) zero h = omega arith
accumulate-next p (n ∷ m ∷ v) (suc s) h = accumulate-next (n + p) (m ∷ v) s (omega arith)
