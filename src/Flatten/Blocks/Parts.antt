-- ===== src/Flatten/Blocks/Parts.antt =====
-- src/flatten.rs: the parts on the blocks.
use gem_macro_optimization.Base.{
  ℕ, zero, suc, ◌+◌, ◌<◌, List, [], ◌∷◌, ◌++◌, Option, some, ok, unwrap, ltb, if◌then◌else◌, length,
  length-set, get_elem?, set, replicate, ◌≡◌, refl, ap, ◌∙◌, arith, Bool-cases, inl, inr, ltb→lt,
}
use gem_macro_optimization.Flatten.Blocks.{
  Masonry, executor_fixed_cost, least_from, least_block, put_part, arrange_from, arrange_blocks,
}
use gem_macro_optimization.Flatten.Blocks.Owned.{get_elem?-inside}

module _ (f : ℕ → ℕ) where
  abbrev pub total : List ℕ → ℕ
  total [] = 0
  total (x ∷ xs) = f x + total xs

  -- The sum of a weight over the parts of all blocks.
  abbrev pub total_blocks : List (List ℕ) → ℕ
  total_blocks [] = 0
  total_blocks (block ∷ blocks) = total block + total_blocks blocks

  -- The sum of the weight over `i`, `i + 1`, …, one for each entry of the list.
  abbrev pub total_from : ℕ → List ℕ → ℕ
  total_from i [] = 0
  total_from i (x ∷ xs) = f i + total_from (i + 1) xs

  total-append : (xs ys : List ℕ) → total (xs ++ ys) ≡ total xs + total ys
  total-append [] ys = omega arith
  total-append (x ∷ xs) ys = omega (arith, total-append xs ys)

  total-set :
      (blocks : List (List ℕ)) (b i : ℕ) (block : List ℕ)
      → get_elem? blocks b ≡ some block
      → total_blocks (set blocks b (block ++ i ∷ [])) ≡ f i + total_blocks blocks
  total-set [] b i block e = cc
  total-set (c ∷ blocks) zero i block e =
      let same : c ≡ block = block_same c block e in
      rw same (omega (arith, total-append block (i ∷ [])))
    where
      block_same : (a b : List ℕ) → ◌≡◌ {A = Option (List ℕ)} (some a) (some b) → a ≡ b
      block_same a b e = cc
  total-set (c ∷ blocks) (suc b) i block e = omega (arith, total-set blocks b i block e)

  no_parts : (n : ℕ) → total_blocks (replicate n []) ≡ 0
  no_parts zero = refl
  no_parts (suc n) = omega (arith, no_parts n)

least_from-lt :
    (tot : List ℕ) (i : ℕ) (best : ℕ × ℕ)
    → best.0 < i + length tot
    → least_from tot i best < i + length tot
unfolding least_from
least_from-lt [] i best h = h
least_from-lt (t ∷ tot) i best h =
    let e : i + 1 + length tot ≡ i + suc (length tot) = omega arith in
    elim (Bool-cases (ltb t best.1)) [
      | inl less ↦
          let later = least_from-lt tot (i + 1) (i, t) (omega arith) in
          rw (least_from, less) (omega (arith, later))
      | inr more ↦
          let later = least_from-lt tot (i + 1) best (omega arith) in
          rw (least_from, more) (omega (arith, later))
    ]

least_block-inside :
    (tot : List ℕ) → 0 < length tot → (b : ℕ) × (least_block tot ≡ some b) × (b < length tot)
least_block-inside [] h = absurd (omega arith)
least_block-inside (t ∷ tot) h =
    let lt = least_from-lt tot 1 (0, t) (omega arith) in
    (least_from tot 1 (0, t), refl, omega (arith, lt))

-- The arrangement has `n` blocks.
record HasBlocks (n : ℕ) (m : Masonry) : Type 0 where
  blocks : length m.blocks_parts ≡ n
  totals : length m.tot_nstages_blocks ≡ n

-- What putting a part on a block does.
record Puts (n i : ℕ) (m m' : Masonry) : Type 0 where
  sized : HasBlocks n m'
  adds : (f : ℕ → ℕ) → total_blocks f m'.blocks_parts ≡ f i + total_blocks f m.blocks_parts

put_part-Puts :
    (n : ℕ) (m : Masonry) (put i cost : ℕ)
    → HasBlocks n m
    → put < n
    → (m' : Masonry) × (put_part m put i cost ≡ ok m') × Puts n i m m'
unfolding put_part
put_part-Puts n m put i cost sizes lt =
    let (block, found) = get_elem?-inside m.blocks_parts put (omega (arith, sizes.blocks)) in
    let (tot, found') = get_elem?-inside m.tot_nstages_blocks put (omega (arith, sizes.totals)) in
    (
      record m {
        blocks_parts = set m.blocks_parts put (block ++ i ∷ []);
        tot_nstages_blocks = set m.tot_nstages_blocks put (tot + cost);
      },
      rw (found, found') refl,
      record {
        sized = record {
          blocks = length-set m.blocks_parts put (block ++ i ∷ []) ∙ sizes.blocks;
          totals = length-set m.tot_nstages_blocks put (tot + cost) ∙ sizes.totals;
        };
        adds = λ f. total-set f m.blocks_parts put i block found;
      },
    )

chosen :
    (n i : ℕ) (m : Masonry)
    → 0 < n
    → HasBlocks n m
    → (put : ℕ) × ((if ltb i n then ok i else unwrap (least_block m.tot_nstages_blocks)) ≡ ok put)
      × (put < n)
chosen n i m pos sizes = elim (Bool-cases (ltb i n)) [
  | inl early ↦ (i, rw early refl, ltb→lt i n early)
  | inr late ↦
      let (b, least, lt) = least_block-inside m.tot_nstages_blocks (omega (arith, sizes.totals)) in
      (b, rw (late, least) refl, omega (arith, sizes.totals))
]

-- An arrangement of the parts from `i` on.
record Arranges (n i : ℕ) (nstages : List ℕ) (m m' : Masonry) : Type 0 where
  sized : HasBlocks n m'
  adds :
      (f : ℕ → ℕ)
      → total_blocks f m'.blocks_parts ≡ total_from f i nstages + total_blocks f m.blocks_parts

arrange_from-Arranges :
    (n : ℕ) (nstages : List ℕ) (i : ℕ) (m : Masonry)
    → 0 < n
    → HasBlocks n m
    → (m' : Masonry) × (arrange_from n nstages i m ≡ ok m') × Arranges n i nstages m m'
unfolding arrange_from
arrange_from-Arranges n [] i m pos sizes =
    (m, refl, record { sized = sizes; adds = λ f. omega arith })
arrange_from-Arranges n (k ∷ nstages) i m pos sizes =
    let (put, chooses, lt) = chosen n i m pos sizes in
    let (t, puts, one) = put_part-Puts n m put i (k + executor_fixed_cost) sizes lt in
    let (m', runs, rest) = arrange_from-Arranges n nstages (i + 1) t pos one.sized in
    (
      m',
      rw (chooses, puts) runs,
      record { sized = rest.sized; adds = λ f. omega (arith, rest.adds f, one.adds f) },
    )

length-replicate {ℓ} : {A : Type ℓ} (n : ℕ) (x : A) → length (replicate n x) ≡ n
length-replicate zero x = refl
length-replicate (suc n) x = ap suc (length-replicate n x)

-- With a block at least, the arrangement of the parts returns as many blocks as were asked for, and
-- every part is on exactly one of them: each weight of parts has the same sum over the blocks as
-- over the parts.
pub arrange_blocks-total :
    (n : ℕ) (nstages : List ℕ)
    → 0 < n
    → (m : Masonry) × (arrange_blocks n nstages ≡ ok m)
      × (length m.blocks_parts ≡ n)
      × ((f : ℕ → ℕ) → total_blocks f m.blocks_parts ≡ total_from f 0 nstages)
unfolding arrange_blocks
arrange_blocks-total n nstages pos =
    let start : Masonry = record {
      blocks_parts = replicate n [];
      tot_nstages_blocks = replicate n 0;
    } in
    let sizes : HasBlocks n start = record {
      blocks = length-replicate n [];
      totals = length-replicate n 0;
    } in
    let (m, runs, all) = arrange_from-Arranges n nstages 0 start pos sizes in
    (m, runs, all.sized.blocks, λ f. omega (arith, all.adds f, no_parts f n))
