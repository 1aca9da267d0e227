-- ===== src/Flatten/Reads/Enough.antt =====
-- src/flatten.rs: a global read of as many words as there are threads.
use gem_macro_optimization.Base.{
  ℕ, zero, suc, ◌+◌, ◌/◌, ◌≤◌, ◌<◌, false, List, [], ◌∷◌, ◌++◌, some, ok, ltb, length, get_or,
  get_or-set_ne, set, replicate, ◌≡◌, refl, ap, ◌∙◌, arith,
}
use gem_macro_optimization.Flatten.{num_threads_v1}
use gem_macro_optimization.Flatten.Reads.{
  ones_below, count_ones, load, take_up_to, drop_up_to, chunks, sort_slices, next_thread,
  find_thread, place_slice, place_slices, try_chunks, map_loop, map_global_read_to_rounds,
}
use gem_macro_optimization.Flatten.Reads.Fits.{AreRounds, map_loop-AreRounds}

ones_below-le : (n x : ℕ) → ones_below n x ≤ n
ones_below-le zero x = omega arith
ones_below-le (suc n) x = omega (arith, ones_below-le n (x / 2))

-- The threads from `j` on have nothing to read.
abbrev AreIdle : List (List (ℕ × ℕ)) → ℕ → Type 0
AreIdle rounds j = (i : ℕ) → j ≤ i → get_or rounds i [] ≡ []

idle-found :
    (rounds : List (List (ℕ × ℕ))) (mask j n : ℕ)
    → get_or rounds j [] ≡ []
    → find_thread rounds (count_ones mask) j (suc n) ≡ some j
unfolding find_thread load
idle-found rounds mask j n idle =
    let room : ltb 32 (load (get_or rounds j []) + count_ones mask) ≡ false =
      rw idle (ground (arith, ones_below-le 32 mask)) in
    rw room refl

place_first :
    (x : ℕ × ℕ) (slice : List (ℕ × ℕ)) (rounds : List (List (ℕ × ℕ))) (j : ℕ)
    → get_or rounds j [] ≡ []
    → place_slice (x ∷ slice) (rounds, j)
      ≡ place_slice slice (set rounds j (get_or rounds j [] ++ x ∷ []), next_thread j)
unfolding place_slice
place_first x slice rounds j idle = rw (place_slice, idle-found rounds x.1 j 255 idle) refl

place_slice-idle :
    (slice : List (ℕ × ℕ)) (rounds : List (List (ℕ × ℕ))) (j : ℕ)
    → j + length slice ≤ 256
    → AreIdle rounds j
    → (s : List (List (ℕ × ℕ)) × ℕ) × (place_slice slice (rounds, j) ≡ some s)
unfolding place_slice
place_slice-idle [] rounds j fits idle = ((rounds, j), refl)
place_slice-idle (x ∷ []) rounds j fits idle = (
  (set rounds j (get_or rounds j [] ++ x ∷ []), next_thread j),
  place_first x [] rounds j (idle j (omega arith)),
)
place_slice-idle (x ∷ y ∷ slice) rounds j fits idle =
    let longer = set rounds j (get_or rounds j [] ++ x ∷ []) in
    let next : next_thread j ≡ j + 1 = ground arith in
    let (s, places) = place_slice-idle (y ∷ slice) longer (j + 1) (omega arith) (λ i le.
      get_or-set_ne rounds j i (get_or rounds j [] ++ x ∷ []) [] (λ e. omega (arith, e))
      ∙ idle i (omega arith)) in
    (
      s,
      place_first x (y ∷ slice) rounds j (idle j (omega arith))
          ∙ ap (λ (t : ℕ). place_slice (y ∷ slice) (longer, t)) next
          ∙ places,
    )

take_all : (xs : List (ℕ × ℕ)) → take_up_to (length xs) xs ≡ xs
take_all [] = refl
take_all (x ∷ xs) = ap (λ (t : List (ℕ × ℕ)). x ∷ t) (take_all xs)

drop_all : (xs : List (ℕ × ℕ)) → drop_up_to (length xs) xs ≡ []
drop_all [] = refl
drop_all (x ∷ xs) = drop_all xs

chunks_nil : (fuel size : ℕ) → chunks fuel size [] ≡ []
unfolding chunks
chunks_nil zero size = refl
chunks_nil (suc fuel) size = refl

one_chunk :
    (x : ℕ × ℕ) (xs : List (ℕ × ℕ))
    → chunks (length (x ∷ xs)) (length (x ∷ xs)) (x ∷ xs) ≡ (x ∷ xs) ∷ []
unfolding chunks
one_chunk x xs = rw (take_all xs, drop_all xs, chunks_nil (length xs) (suc (length xs))) refl

no_rounds-AreIdle : (n j : ℕ) → AreIdle (replicate n []) j
no_rounds-AreIdle zero j i le = refl
no_rounds-AreIdle (suc n) j zero le = refl
no_rounds-AreIdle (suc n) j (suc i) le = no_rounds-AreIdle n 0 i (omega arith)

one_slice :
    (slice : List (ℕ × ℕ)) (s s' : List (List (ℕ × ℕ)) × ℕ)
    → place_slice slice s ≡ some s'
    → place_slices (sort_slices (slice ∷ [])) s ≡ some s'
unfolding place_slices sort_slices
one_slice slice s s' places = rw (place_slices, places) refl

first_try :
    (inputs : List (ℕ × ℕ)) (c fuel : ℕ) (s : List (List (ℕ × ℕ)) × ℕ)
    → try_chunks inputs (suc c) ≡ some s
    → map_loop inputs (suc c) (suc fuel) ≡ ok s.0
unfolding map_loop
first_try inputs c fuel s tries = rw (map_loop, tries) refl

few_words :
    (inputs : List (ℕ × ℕ))
    → 0 < length inputs
    → length inputs ≤ 256
    → (rounds : List (List (ℕ × ℕ))) × (map_loop inputs (length inputs) (length inputs + 1)
        ≡ ok rounds)
unfolding try_chunks
few_words [] pos le = absurd (omega arith)
few_words (x ∷ xs) pos le =
    let (s, places) =
      place_slice-idle (x ∷ xs) (replicate num_threads_v1 []) 0 (omega arith)
        (no_rounds-AreIdle 256 0) in
    let tries : try_chunks (x ∷ xs) (suc (length xs)) ≡ some s =
      ap
        (λ (c : List (List (ℕ × ℕ))). place_slices (sort_slices c) (replicate num_threads_v1 [], 0))
        (one_chunk x xs)
      ∙ one_slice (x ∷ xs) (replicate num_threads_v1 [], 0) s places in
    let enough : suc (length xs) + 1 ≡ suc (suc (length xs)) = omega arith in
    (
      s.0,
      ap (λ (fuel : ℕ). map_loop (x ∷ xs) (suc (length xs)) fuel) enough
          ∙ first_try (x ∷ xs) (length xs) (suc (length xs)) s tries,
    )

-- However many words there are, where the search for rounds succeeds the threads read every word of
-- the map once, and none reads more than 32 bits.
pub map_global_read_to_rounds-AreRounds :
    (inputs : List (ℕ × ℕ)) (rounds : List (List (ℕ × ℕ)))
    → map_global_read_to_rounds inputs ≡ ok rounds
    → AreRounds inputs rounds
unfolding map_global_read_to_rounds
map_global_read_to_rounds-AreRounds inputs rounds e =
    map_loop-AreRounds inputs (length inputs) (length inputs + 1) rounds e

-- A global read of at least one word and no more words than there are threads is mapped: the threads
-- read every word of the map once, and none reads more than 32 bits.
pub map_global_read_to_rounds_few :
    (inputs : List (ℕ × ℕ))
    → 0 < length inputs
    → length inputs ≤ 256
    → (rounds : List (List (ℕ × ℕ))) × (map_global_read_to_rounds inputs ≡ ok rounds)
      × AreRounds inputs rounds
unfolding map_global_read_to_rounds
map_global_read_to_rounds_few inputs pos le =
    let (rounds, runs) = few_words inputs pos le in
    (rounds, runs, map_global_read_to_rounds-AreRounds inputs rounds runs)
