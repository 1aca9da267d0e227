-- ===== src/Flatten/Reads/Fits.antt =====
-- src/flatten.rs: the rounds of the global read, and the words that are asked for.
use gem_macro_optimization.Base.{
  ok-injective, some-injective, none≢some, ℕ, zero, suc, ◌+◌, ◌/◌, ◌≤◌, ◌<◌, List, [], ◌∷◌, ◌++◌,
  some, ok, ltb, ◌==◌, length, length-set, get_or, get_or-set_self, get_or-set_ne, set, replicate,
  ◌≡◌, inl, inr, refl, ◌∙◌, arith, Bool-cases, Option-cases,
}
use gem_macro_optimization.Flatten.{num_threads_v1}
use gem_macro_optimization.Flatten.Reads.{
  count_ones, load, take_up_to, drop_up_to, chunks, insert_slice, sort_slices, next_thread,
  find_thread, place_slice, place_slices, try_chunks, map_loop,
}

-- The sum of a weight over the entries of a list, and of lists.
module _ (f : ℕ × ℕ → ℕ) where
  abbrev pub weigh : List (ℕ × ℕ) → ℕ
  weigh [] = 0
  weigh (x ∷ xs) = f x + weigh xs

  abbrev pub weigh_all : List (List (ℕ × ℕ)) → ℕ
  weigh_all [] = 0
  weigh_all (xs ∷ xss) = weigh xs + weigh_all xss

  weigh-append : (xs ys : List (ℕ × ℕ)) → weigh (xs ++ ys) ≡ weigh xs + weigh ys
  weigh-append [] ys = omega arith
  weigh-append (x ∷ xs) ys = omega (arith, weigh-append xs ys)

  weigh-cut :
      (n : ℕ) (xs : List (ℕ × ℕ)) → weigh (take_up_to n xs) + weigh (drop_up_to n xs) ≡ weigh xs
  weigh-cut n [] = omega arith
  weigh-cut zero (x ∷ xs) = omega arith
  weigh-cut (suc n) (x ∷ xs) = omega (arith, weigh-cut n xs)

  weigh-insert_slice :
      (s : List (ℕ × ℕ)) (slices : List (List (ℕ × ℕ)))
      → weigh_all (insert_slice s slices) ≡ weigh s + weigh_all slices
  weigh-insert_slice s [] = refl
  weigh-insert_slice s (t ∷ slices) = ground (arith, weigh-insert_slice s slices)

  weigh-sort_slices :
      (slices : List (List (ℕ × ℕ))) → weigh_all (sort_slices slices) ≡ weigh_all slices
  unfolding sort_slices
  weigh-sort_slices [] = refl
  weigh-sort_slices (s ∷ slices) =
      omega (arith, weigh-insert_slice s (sort_slices slices), weigh-sort_slices slices)

  weigh-set :
      (rounds : List (List (ℕ × ℕ))) (j : ℕ) (x : ℕ × ℕ)
      → j < length rounds
      → weigh_all (set rounds j (get_or rounds j [] ++ x ∷ [])) ≡ f x + weigh_all rounds
  weigh-set [] j x h = absurd (omega arith)
  weigh-set (r ∷ rounds) zero x h = omega (arith, weigh-append r (x ∷ []))
  weigh-set (r ∷ rounds) (suc j) x h = omega (arith, weigh-set rounds j x (omega arith))

length-drop {ℓ} : {A : Type ℓ} (n : ℕ) (x : A) (xs : List A) → length (drop_up_to n xs) ≤ length xs
length-drop n x [] = omega arith
length-drop zero x (y ∷ xs) = omega arith
length-drop (suc n) x (y ∷ xs) = omega (arith, length-drop n x xs)

weigh-chunks :
    (f : ℕ × ℕ → ℕ) (fuel size : ℕ) (xs : List (ℕ × ℕ))
    → 0 < size
    → length xs ≤ fuel
    → weigh_all f (chunks fuel size xs) ≡ weigh f xs
unfolding chunks
weigh-chunks f zero size [] pos fits = refl
weigh-chunks f zero size (x ∷ xs) pos fits = absurd (omega arith)
weigh-chunks f (suc fuel) size [] pos fits = refl
weigh-chunks f (suc fuel) zero (x ∷ xs) pos fits = absurd (omega arith)
weigh-chunks f (suc fuel) (suc size) (x ∷ xs) pos fits = omega (
  arith,
  weigh-cut f size xs,
  weigh-chunks f fuel (suc size) (drop_up_to size xs) pos (omega (arith, length-drop size x xs)),
)

-- Every thread reads 32 bits at most.
abbrev pub FitThreads : List (List (ℕ × ℕ)) → Type 0
FitThreads rounds = (j : ℕ) → load (get_or rounds j []) ≤ 32

load-append : (xs : List (ℕ × ℕ)) (x : ℕ × ℕ) → load (xs ++ x ∷ []) ≡ load xs + count_ones x.1
unfolding load
load-append [] x = omega arith
load-append (y ∷ xs) x = omega (arith, load-append xs x)

next_thread-lt : (j : ℕ) → j < 256 → next_thread j < 256
next_thread-lt j h = ground arith

-- The thread that the search finds is one with room.
record IsFound (rounds : List (List (ℕ × ℕ))) (ones k : ℕ) : Type 0 where
  inside : k < 256
  has_room : load (get_or rounds k []) + ones ≤ 32

find_thread-IsFound :
    (rounds : List (List (ℕ × ℕ))) (ones j n k : ℕ)
    → j < 256
    → find_thread rounds ones j n ≡ some k
    → IsFound rounds ones k
unfolding find_thread
find_thread-IsFound rounds ones j zero k lt e = cc
find_thread-IsFound rounds ones j (suc n) k lt e =
    elim (Bool-cases (ltb 32 (load (get_or rounds j []) + ones))) [
      | inl full ↦
          find_thread-IsFound rounds ones (next_thread j) n k (next_thread-lt j lt) (rw full at e)
      | inr room ↦
          let here : j ≡ k = some-injective (rw room at e) in
          rw (← here) (record { inside = lt; has_room = ground arith })
    ]

-- What a placement of `added` does to the threads.
record Extends (added : List (List (ℕ × ℕ))) (s s' : List (List (ℕ × ℕ)) × ℕ) : Type 0 where
  sized : length s'.0 ≡ length s.0
  inside : s'.1 < 256
  fit : FitThreads s.0 → FitThreads s'.0
  weighs : (f : ℕ × ℕ → ℕ) → weigh_all f s'.0 ≡ weigh_all f added + weigh_all f s.0

module _ (rounds : List (List (ℕ × ℕ))) (k : ℕ) (x : ℕ × ℕ) (sized : length rounds ≡ 256)
    (found : IsFound rounds (count_ones x.1) k) where
  abbrev extended : List (List (ℕ × ℕ))
  extended = set rounds k (get_or rounds k [] ++ x ∷ [])

  extended-FitThreads : FitThreads rounds → FitThreads extended
  extended-FitThreads fit i = elim (Bool-cases (k == i)) [
    | inl same ↦
        let e : k ≡ i = ground arith in
        let at_k =
          get_or-set_self rounds k (get_or rounds k [] ++ x ∷ []) []
            (omega (arith, found.inside)) in
        rw (← e, at_k, load-append (get_or rounds k []) x) found.has_room
    | inr other ↦
        let at_i = get_or-set_ne rounds k i (get_or rounds k [] ++ x ∷ []) [] (λ e. ground arith) in
        rw at_i (fit i)
  ]

place_slice-Extends :
    (slice : List (ℕ × ℕ)) (s s' : List (List (ℕ × ℕ)) × ℕ)
    → length s.0 ≡ 256
    → s.1 < 256
    → place_slice slice s ≡ some s'
    → Extends (slice ∷ []) s s'
unfolding place_slice
place_slice-Extends [] s s' sized lt e =
    let same : s ≡ s' = some-injective e in
    rw (← same) (record { sized = refl; inside = lt; fit = λ h. h; weighs = λ f. omega arith })
place_slice-Extends (x ∷ slice) s s' sized lt e =
    elim (Option-cases (find_thread s.0 (count_ones x.1) s.1 num_threads_v1)) [
      | inl nowhere ↦ absurd (none≢some (rw (place_slice, nowhere) at e))
      | inr (k, finds) ↦
          let found = find_thread-IsFound s.0 (count_ones x.1) s.1 num_threads_v1 k lt finds in
          let longer = set s.0 k (get_or s.0 k [] ++ x ∷ []) in
          let long = length-set s.0 k (get_or s.0 k [] ++ x ∷ []) in
          let rest =
            place_slice-Extends slice (longer, next_thread k) s' (long ∙ sized)
              (next_thread-lt k found.inside) (rw (place_slice, finds) at e) in
          record {
            sized = rest.sized ∙ long;
            inside = rest.inside;
            fit = λ h. rest.fit (extended-FitThreads s.0 k x sized found h);
            weighs = λ f.
                omega (arith, rest.weighs f, weigh-set f s.0 k x (omega (arith, found.inside)));
          }
    ]

place_slices-Extends :
    (slices : List (List (ℕ × ℕ))) (s s' : List (List (ℕ × ℕ)) × ℕ)
    → length s.0 ≡ 256
    → s.1 < 256
    → place_slices slices s ≡ some s'
    → Extends slices s s'
unfolding place_slices
place_slices-Extends [] s s' sized lt e =
    let same : s ≡ s' = some-injective e in
    rw (← same) (record { sized = refl; inside = lt; fit = λ h. h; weighs = λ f. omega arith })
place_slices-Extends (slice ∷ slices) s s' sized lt e = elim (Option-cases (place_slice slice s)) [
  | inl fails ↦ absurd (none≢some (rw (place_slices, fails) at e))
  | inr (t, places) ↦
      let one = place_slice-Extends slice s t sized lt places in
      let rest =
        place_slices-Extends slices t s' (one.sized ∙ sized) one.inside
          (rw (place_slices, places) at e) in
      record {
        sized = rest.sized ∙ one.sized;
        inside = rest.inside;
        fit = λ h. rest.fit (one.fit h);
        weighs = λ f. omega (arith, rest.weighs f, one.weighs f);
      }
]

-- The rounds read every word of the map once, and no thread reads more than 32 bits.
pub record AreRounds (inputs : List (ℕ × ℕ)) (rounds : List (List (ℕ × ℕ))) : Type 0 where
  pub threads : length rounds ≡ 256
  pub fit : FitThreads rounds
  pub weighs : (f : ℕ × ℕ → ℕ) → weigh_all f rounds ≡ weigh f inputs

no_rounds-weigh : (f : ℕ × ℕ → ℕ) (n : ℕ) → weigh_all f (replicate n []) ≡ 0
no_rounds-weigh f zero = refl
no_rounds-weigh f (suc n) = omega (arith, no_rounds-weigh f n)

no_rounds-FitThreads : (n : ℕ) → FitThreads (replicate n [])
unfolding load
no_rounds-FitThreads zero j = omega arith
no_rounds-FitThreads (suc n) zero = omega arith
no_rounds-FitThreads (suc n) (suc j) = no_rounds-FitThreads n j

try_chunks-AreRounds :
    (inputs : List (ℕ × ℕ)) (size : ℕ) (s : List (List (ℕ × ℕ)) × ℕ)
    → 0 < size
    → try_chunks inputs size ≡ some s
    → AreRounds inputs s.0
unfolding try_chunks
try_chunks-AreRounds inputs size s pos e =
    let slices = sort_slices (chunks (length inputs) size inputs) in
    let ext = place_slices-Extends slices (replicate num_threads_v1 [], 0) s refl (omega arith) e in
    record {
      threads = ext.sized;
      fit = ext.fit (no_rounds-FitThreads 256);
      weighs = λ f. omega (
        arith,
        ext.weighs f,
        no_rounds-weigh f 256,
        weigh-sort_slices f (chunks (length inputs) size inputs),
        weigh-chunks f (length inputs) size inputs pos (omega arith),
      );
    }

pub map_loop-AreRounds :
    (inputs : List (ℕ × ℕ)) (size fuel : ℕ) (rounds : List (List (ℕ × ℕ)))
    → map_loop inputs size fuel ≡ ok rounds
    → AreRounds inputs rounds
unfolding map_loop
map_loop-AreRounds inputs size zero rounds e = cc
map_loop-AreRounds inputs zero (suc fuel) rounds e = cc
map_loop-AreRounds inputs (suc c) (suc fuel) rounds e =
    elim (Option-cases (try_chunks inputs (suc c))) [
      | inl fails ↦ map_loop-AreRounds inputs (suc c / 2) fuel rounds (rw (map_loop, fails) at e)
      | inr (s, tries) ↦
          let same : s.0 ≡ rounds = ok-injective (rw (map_loop, tries) at e) in
          rw (← same) (try_chunks-AreRounds inputs (suc c) s (omega arith) tries)
    ]
