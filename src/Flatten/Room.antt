-- ===== src/Flatten/Room.antt =====
-- src/flatten.rs: `alloc_free_pos` and the free positions that are left.
use gem_macro_optimization.Base.{
  ap, ◌%◌, ◌^◌, ℕ, zero, suc, ◌+◌, ◌-◌, ◌≤◌, ◌<◌, Bool, true, false, List, ok, if◌then◌else◌,
  get_or, get_or-set_ne, set, ◌≡◌, refl, Bool-cases, inl, inr, arith, lt→ltb,
}
use gem_macro_optimization.Flatten.{Alloc, alloc_free_pos, skip_taken, num_positions}

abbrev pub is_taken : List Bool → ℕ → Bool
is_taken occupancy q = get_or occupancy q false

-- The free positions among the `n` from `cursor` on.
pub count_free : List Bool → ℕ → ℕ → ℕ
count_free occupancy cursor zero = 0
count_free occupancy cursor (suc n) =
    (if is_taken occupancy cursor then 0 else 1) + count_free occupancy (cursor + 1) n

-- The free positions that the allocator can still reach.
abbrev pub room : List Bool → ℕ → ℕ
room occupancy cursor = count_free occupancy cursor (num_positions - cursor)

count_free-congr :
    (occ occ' : List Bool) (cursor n : ℕ)
    → ((q : ℕ) → cursor ≤ q → is_taken occ q ≡ is_taken occ' q)
    → count_free occ cursor n ≡ count_free occ' cursor n
unfolding count_free
count_free-congr occ occ' cursor zero same = refl
count_free-congr occ occ' cursor (suc n) same = ground (
  arith,
  same cursor (omega arith),
  count_free-congr occ occ' (cursor + 1) n (λ q le. same q (omega arith)),
)

record IsFirstFree (occ : List Bool) (cursor n f : ℕ) : Type 0 where
  from : cursor ≤ f
  below : f < cursor + n
  free : is_taken occ f ≡ false
  rest : count_free occ cursor n ≡ suc (count_free occ (f + 1) (cursor + n - (f + 1)))

skip_taken-IsFirstFree :
    (occ : List Bool) (cursor n : ℕ)
    → 0 < count_free occ cursor n
    → IsFirstFree occ cursor n (skip_taken occ cursor n)
unfolding count_free skip_taken
skip_taken-IsFirstFree occ cursor zero some_free = absurd (omega arith)
skip_taken-IsFirstFree occ cursor (suc n) some_free = elim (Bool-cases (is_taken occ cursor)) [
  | inl taken ↦
      let later = skip_taken-IsFirstFree occ (cursor + 1) n (ground arith) in
      rw (taken, skip_taken)
        (record {
          from = omega (arith, later.from);
          below = omega (arith, later.below);
          free = later.free;
          rest =
              let f = skip_taken occ (cursor + 1) n in
              let end : cursor + 1 + n ≡ cursor + suc n = omega arith in
              rw taken (
                omega
                  (arith, later.rest, ap (λ (t : ℕ). count_free occ (f + 1) (t - (f + 1))) end));
        })
  | inr free ↦
      rw (free, skip_taken)
        (record {
          from = omega arith;
          below = omega arith;
          free = free;
          rest =
              let end : cursor + suc n - (cursor + 1) ≡ n = omega arith in
              rw (free, end) (omega arith);
        })
]

-- What an allocation does.
pub record IsAlloc (occ : List Bool) (cursor : ℕ) (a : Alloc) : Type 0 where
  pub from : cursor ≤ a.pos
  pub below : a.pos < num_positions
  pub free : is_taken occ a.pos ≡ false
  pub marked : a.occupancy ≡ set occ a.pos true
  pub past : a.cursor ≡ a.pos + 1
  pub room_left : room occ cursor ≤ suc (room a.occupancy a.cursor)

pub alloc_free_pos-IsAlloc :
    (occ : List Bool) (cursor : ℕ)
    → cursor ≤ num_positions
    → 0 < room occ cursor
    → (a : Alloc) × (alloc_free_pos occ cursor ≡ ok a) × IsAlloc occ cursor a
unfolding alloc_free_pos
alloc_free_pos-IsAlloc occ cursor le some_free =
    let f = skip_taken occ cursor (num_positions - cursor) in
    let first = skip_taken-IsFirstFree occ cursor (num_positions - cursor) some_free in
    let a : Alloc = record { pos = f; occupancy = set occ f true; cursor = f + 1 } in
    let below : f < num_positions = omega (arith, first.below) in
    let in_range = lt→ltb f num_positions below in
    let fits : f % 2 ^ 16 ≡ f = omega arith in
    (
      a,
      rw (alloc_free_pos, in_range, fits) refl,
      record {
        from = first.from;
        below = below;
        free = first.free;
        marked = refl;
        past = refl;
        room_left =
            let end : cursor + (num_positions - cursor) ≡ num_positions = omega arith in
            let same =
              count_free-congr (set occ f true) occ (f + 1) (num_positions - (f + 1))
                (λ q ge. get_or-set_ne occ f q true false (λ e. omega (arith, e))) in
            omega
              (arith, first.rest, ap (λ (t : ℕ). count_free occ (f + 1) (t - (f + 1))) end, same);
      },
    )

pub count_free-all :
    (occ : List Bool) (cursor n : ℕ)
    → ((q : ℕ) → is_taken occ q ≡ false)
    → count_free occ cursor n ≡ n
unfolding count_free
count_free-all occ cursor zero free = refl
count_free-all occ cursor (suc n) free =
    rw (free cursor) (omega (arith, count_free-all occ (cursor + 1) n free))
