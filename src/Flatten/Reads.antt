-- ===== src/Flatten/Reads.antt =====
-- src/flatten.rs: `map_global_read_to_rounds`. The map of the words that are read is the list of its
-- entries by ascending key.
pub mod Fits
pub mod Enough
use gem_macro_optimization.Base.{
  ℕ, zero, suc, ◌+◌, ◌-◌, ◌*◌, ◌/◌, ◌%◌, ◌^◌, Bool, true, false, List, [], ◌∷◌, ◌++◌, Option, none,
  some, Outcome, ok, panic, ltb, leb, ◌==◌, if◌then◌else◌, length, get_or, set, replicate,
}
use gem_macro_optimization.Flatten.{num_threads_v1}

-- The set bits among the `n` low ones.
abbrev pub ones_below : ℕ → ℕ → ℕ
ones_below zero x = 0
ones_below (suc n) x = x % 2 + ones_below n (x / 2)

abbrev pub count_ones : ℕ → ℕ
count_ones mask = ones_below 32 mask

-- `slice.iter().map(|(_, mask)| mask.count_ones()).sum::<u32>()`
unfoldable pub load : List (ℕ × ℕ) → ℕ
load [] = 0
load (entry ∷ slice) = count_ones entry.1 + load slice

abbrev pub take_up_to {ℓ} : {A : Type ℓ} → ℕ → List A → List A
take_up_to n [] = []
take_up_to zero (x ∷ xs) = []
take_up_to (suc n) (x ∷ xs) = x ∷ take_up_to n xs

abbrev pub drop_up_to {ℓ} : {A : Type ℓ} → ℕ → List A → List A
drop_up_to n [] = []
drop_up_to zero (x ∷ xs) = x ∷ xs
drop_up_to (suc n) (x ∷ xs) = drop_up_to n xs

-- `xs.chunks(size)`; the fuel is the length of the list.
unfoldable pub chunks : ℕ → ℕ → List (ℕ × ℕ) → List (List (ℕ × ℕ))
chunks zero size xs = []
chunks (suc fuel) size [] = []
chunks (suc fuel) size (x ∷ xs) =
    take_up_to size (x ∷ xs) ∷ chunks fuel size (drop_up_to size (x ∷ xs))

abbrev pub sort_key : List (ℕ × ℕ) → ℕ
sort_key slice = 2 ^ 32 - 1 - load slice

-- The slice goes before the first one with a larger key.
abbrev pub insert_slice : List (ℕ × ℕ) → List (List (ℕ × ℕ)) → List (List (ℕ × ℕ))
insert_slice s [] = s ∷ []
insert_slice s (t ∷ slices) =
    if leb (sort_key s) (sort_key t) then s ∷ t ∷ slices else t ∷ insert_slice s slices

-- `slices.sort_by_cached_key(...)`, a stable sort.
unfoldable pub sort_slices : List (List (ℕ × ℕ)) → List (List (ℕ × ℕ))
sort_slices [] = []
sort_slices (s ∷ slices) = insert_slice s (sort_slices slices)

abbrev pub next_thread : ℕ → ℕ
next_thread j = if j + 1 == num_threads_v1 then 0 else j + 1

-- The loop `while ... > 32`, for the `n` threads that are left before the search is back where it
-- began.
unfoldable pub find_thread : List (List (ℕ × ℕ)) → ℕ → ℕ → ℕ → Option ℕ
unfolding load
find_thread rounds ones j zero = none
find_thread rounds ones j (suc n) =
    let rest = find_thread rounds ones (next_thread j) n in
    if ltb 32 (load (get_or rounds j []) + ones) then rest else some j

-- The loop over the entries of a slice; `none` stands for `fail`.
unfoldable pub place_slice :
    List (ℕ × ℕ) → List (List (ℕ × ℕ)) × ℕ → Option (List (List (ℕ × ℕ)) × ℕ)
unfolding find_thread
place_slice [] s = some s
place_slice (entry ∷ slice) s = elim (find_thread s.0 (count_ones entry.1) s.1 num_threads_v1) [
  | none ↦ none
  | some j ↦ place_slice slice (set s.0 j (get_or s.0 j [] ++ entry ∷ []), next_thread j)
]

unfoldable pub place_slices :
    List (List (ℕ × ℕ)) → List (List (ℕ × ℕ)) × ℕ → Option (List (List (ℕ × ℕ)) × ℕ)
unfolding place_slice
place_slices [] s = some s
place_slices (slice ∷ slices) s = elim (place_slice slice s) [
  | none ↦ none
  | some s' ↦ place_slices slices s'
]

-- One round of the outer loop.
unfoldable pub try_chunks : List (ℕ × ℕ) → ℕ → Option (List (List (ℕ × ℕ)) × ℕ)
unfolding chunks sort_slices place_slices
try_chunks inputs chunk_size =
    place_slices (sort_slices (chunks (length inputs) chunk_size inputs))
      (replicate num_threads_v1 [], 0)

-- `while chunk_size >= 1`; each round halves `chunk_size`, so that it is fuel enough.
unfoldable pub map_loop : List (ℕ × ℕ) → ℕ → ℕ → Outcome (List (List (ℕ × ℕ)))
unfolding try_chunks
map_loop inputs chunk_size zero = panic
map_loop inputs zero (suc fuel) = panic
map_loop inputs (suc c) (suc fuel) = elim (try_chunks inputs (suc c)) [
  | some s ↦ ok s.0
  | none ↦ map_loop inputs (suc c / 2) fuel
]

unfoldable pub map_global_read_to_rounds : List (ℕ × ℕ) → Outcome (List (List (ℕ × ℕ)))
unfolding map_loop
map_global_read_to_rounds inputs_taken =
    map_loop inputs_taken (length inputs_taken) (length inputs_taken + 1)
