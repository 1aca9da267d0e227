-- ===== src/Script/Reduce.antt =====
-- src/bin/flatten_test.rs: the reduction of a boomerang stage. A 32-bit word is its bits, and a vector
-- of words is given by position.
pub mod Loop
pub mod Last
pub mod Levels
pub mod Places
pub mod Pins
use gem_macro_optimization.Base.{
  ℕ, zero, suc, ◌+◌, ◌-◌, ◌*◌, ◌/◌, ◌%◌, ◌^◌, Bool, true, false, not, ◌&&◌, ◌||◌, ltb, ◌==◌,
  if◌then◌else◌,
}
use gem_macro_optimization.Flatten.Flags.{Flags, xor_flag, combine}

abbrev pub Word : Type 0
Word = ℕ → Bool

-- `hier_flag_xora`, `hier_flag_xorb` and `hier_flag_orb`.
pub record HierFlags : Type 0 where
  pub xora : ℕ → Word
  pub xorb : ℕ → Word
  pub orb : ℕ → Word

-- `(a ^ xora) & ((b ^ xorb) | orb)`, with the flags at `i`.
abbrev pub combine_words : HierFlags → ℕ → Word → Word → Word
combine_words f i a b k = xor_flag (a k) (f.xora i k) && (xor_flag (b k) (f.xorb i k) || f.orb i k)

abbrev pub store_word : (ℕ → Word) → ℕ → Word → ℕ → Word
store_word v i x j = if j == i then x else v j

-- `hier_inputs[dst + i] = …` for `n` values of `i`, from `a + i` and `b + i`.
unfoldable pub reduce_loop : HierFlags → ℕ → ℕ → ℕ → ℕ → ℕ → (ℕ → Word) → ℕ → Word
reduce_loop f a b dst i zero v = v
reduce_loop f a b dst i (suc n) v =
    reduce_loop f a b dst (i + 1) n
      (store_word v (dst + i) (combine_words f (dst + i) (v (a + i)) (v (b + i))))

-- `for hi in hi..`, `n` times.
unfoldable pub reduce_levels : HierFlags → ℕ → ℕ → (ℕ → Word) → ℕ → Word
unfolding reduce_loop
reduce_levels f hi zero v = v
reduce_levels f hi (suc n) v =
    let hier_width = 2 ^ (7 - hi) in
    reduce_levels f (hi + 1) n
      (reduce_loop f (hier_width * 2) (hier_width * 3) hier_width 0 hier_width v)

abbrev pub shl : ℕ → Word → Word
shl s v p = if ltb p s then false else v (p - s)

abbrev pub shr : ℕ → Word → Word
shr s v p = v (p + s)

-- A mask of the bits from `lo` up to `hi`.
abbrev pub mask : ℕ → ℕ → Word
mask lo hi p = not (ltb p lo) && ltb p hi

-- `r8`, and `r9` to `r12` from the one before.
abbrev pub first_in_word : HierFlags → Word → Word
first_in_word f v1 p = combine_words f 0 (shl 16 v1) v1 p && mask 16 32 p

abbrev pub next_in_word : HierFlags → ℕ → ℕ → ℕ → ℕ → Word → Word
next_in_word f s t lo hi r p = combine_words f 0 (shr s r) (shr t r) p && mask lo hi p

unfoldable pub last_levels : HierFlags → Word → Word
last_levels f v1 =
    let r8 : Word = first_in_word f v1 in
    let r9 : Word = next_in_word f 8 16 8 16 r8 in
    let r10 : Word = next_in_word f 4 8 4 8 r9 in
    let r11 : Word = next_in_word f 2 4 2 4 r10 in
    let r12 : Word = next_in_word f 1 2 1 2 r11 in
    λ p. (((r8 p || r9 p) || r10 p) || r11 p) || r12 p

-- `hier_inputs` after all levels.
unfoldable pub reduce_hier : HierFlags → (ℕ → Word) → ℕ → Word
unfolding reduce_levels last_levels
reduce_hier f v =
    let v' = reduce_levels f 1 7 (reduce_loop f 0 128 128 0 128 v) in
    store_word v' 0 (last_levels f (v' 1))
