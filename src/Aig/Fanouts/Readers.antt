-- ===== src/Aig/Fanouts/Readers.antt =====
-- src/aig.rs: what `fanouts` holds for a pin.
use gem_macro_optimization.Base.{AllBelow-of, append_nil, true, contains, Option-cases, ◌/◌}
use gem_macro_optimization.Macros.Fanin.{comb_fanin_of_output}
use gem_macro_optimization.Macros.Inst.{calls, call_nz, for_each_comb_fanin}
use gem_macro_optimization.Aig.Topo.{get_macro}
use gem_macro_optimization.Aig.{and_gate, input_port, input_clock_flag, dff, sram, macro}
use gem_macro_optimization.Aig.Reads.{names, names_at, reads_of}
use gem_macro_optimization.Base.{
  false, ℕ, zero, suc, ◌+◌, ◌-◌, ◌≤◌, ◌<◌, List, [], ◌∷◌, ◌++◌, map, ok, ◌==◌, ==_iff,
  if◌then◌else◌, length, length-replicate, get_or, replicate, AllBelow, ◌≡◌, refl, ap, ◌∙◌, inl,
  inr, Bool-cases, arith,
}
use gem_macro_optimization.Base.Stores.{get_elem?-get_or}
use gem_macro_optimization.Aig.{Aig, DriverType, tie0, driver}
use gem_macro_optimization.Aig.Fanouts.{for_each_fanin, edges_from, accumulate, build_fanouts}
use gem_macro_optimization.Aig.Fanouts.Edges.{readers, SourcesBelow, count_edges-ok}
use gem_macro_optimization.Aig.Fanouts.Prefix.{
  length-accumulate, accumulate-from, accumulate-apart, accumulate-next,
}
use gem_macro_optimization.Aig.Fanouts.Scatter.{scatter-ok}
use gem_macro_optimization.Aig.Fanouts.Windows.{fan, Windows, Filled}

-- `i`, once for each entry of a list that is `s`.
abbrev pub copies : ℕ → ℕ → List ℕ → List ℕ
copies s i [] = []
copies s i (x ∷ xs) = if x == s then i ∷ copies s i xs else copies s i xs

-- The pins from `i` on, in order, each as often as its driver reads `s`.
unfoldable pub readers_from : Aig → ℕ → ℕ → List DriverType → List ℕ
unfolding reads_of
readers_from aig s i [] = []
readers_from aig s i (d ∷ drivers) =
    replicate (reads_of aig s d) i ++ readers_from aig s (i + 1) drivers

readers-append :
    (s i : ℕ) (srcs : List ℕ) (edges : List (ℕ × ℕ))
    → readers s (map (λ src. (src, i)) srcs ++ edges) ≡ (copies s i srcs ++ readers s edges)
unfolding readers
readers-append s i [] edges = refl
readers-append s i (src ∷ srcs) edges = elim (Bool-cases (src == s)) [
  | inl same ↦ rw same (ap (λ (t : List ℕ). i ∷ t) (readers-append s i srcs edges))
  | inr other ↦ rw other (readers-append s i srcs edges)
]

copies-call_nz :
    (s i iv : ℕ) (rest : List ℕ)
    → copies s i (call_nz iv rest) ≡ (replicate (names s iv) i ++ copies s i rest)
copies-call_nz s i iv rest = elim (Bool-cases (iv / 2 == 0)) [
  | inl z ↦ let none_named : names s iv ≡ 0 = ground arith in rw (z, none_named) refl
  | inr nz ↦ elim (Bool-cases (iv / 2 == s)) [
    | inl same ↦ let named : names s iv ≡ 1 = ground arith in rw (nz, named) (rw same refl)
    | inr other ↦
        let none_named : names s iv ≡ 0 = ground arith in rw (nz, none_named) (rw other refl)
  ]
]

replicate-append : (m n i : ℕ) → (replicate m i ++ replicate n i) ≡ replicate (m + n) i
replicate-append zero n i = let e : n ≡ 0 + n = omega arith in ap (λ (t : ℕ). replicate t i) e
replicate-append (suc m) n i =
    let e : suc (m + n) ≡ suc m + n = omega arith in
    ap (λ (t : List ℕ). i ∷ t) (replicate-append m n i) ∙ ap (λ (t : ℕ). replicate t i) e

copies-calls :
    (s i : ℕ) (inputs slots : List ℕ)
    → copies s i (calls inputs slots) ≡ replicate (names_at s inputs slots) i
copies-calls s i inputs [] = refl
copies-calls s i inputs (slot ∷ slots) =
    let n = names s (get_or inputs slot 0) in
    copies-call_nz s i (get_or inputs slot 0) (calls inputs slots)
    ∙ ap (λ (t : List ℕ). replicate n i ++ t) (copies-calls s i inputs slots)
    ∙ replicate-append n (names_at s inputs slots) i

-- The calls of the code name a pin as often as the driver reads it.
copies-for_each_fanin :
    (aig : Aig) (s i : ℕ) (d : DriverType)
    → copies s i (for_each_fanin aig d) ≡ replicate (reads_of aig s d) i
unfolding for_each_fanin for_each_comb_fanin reads_of
copies-for_each_fanin aig s i (and_gate a b) =
    copies-call_nz s i a (call_nz b [])
    ∙ ap (λ (t : List ℕ). replicate (names s a) i ++ t)
        (copies-call_nz s i b [] ∙ append_nil (replicate (names s b) i))
    ∙ replicate-append (names s a) (names s b) i
copies-for_each_fanin aig s i (macro cellid slot) =
    elim (Option-cases (get_macro aig.macros cellid)) [
      | inl missing ↦ rw (for_each_fanin, reads_of, missing) refl
      | inr (m, found) ↦
          rw (for_each_fanin, reads_of, found)
            (copies-calls s i m.inputs (comb_fanin_of_output m.kind slot))
    ]
copies-for_each_fanin aig s i (input_port p) = refl
copies-for_each_fanin aig s i (input_clock_flag p c) = refl
copies-for_each_fanin aig s i (dff c) = refl
copies-for_each_fanin aig s i (sram c) = refl
copies-for_each_fanin aig s i tie0 = refl

readers-edges_from :
    (aig : Aig) (s i : ℕ) (drivers : List DriverType)
    → readers s (edges_from aig i drivers) ≡ readers_from aig s i drivers
unfolding readers edges_from readers_from
readers-edges_from aig s i [] = refl
readers-edges_from aig s i (d ∷ drivers) =
    readers-append s i (for_each_fanin aig d) (edges_from aig (i + 1) drivers)
    ∙ rw (copies-for_each_fanin aig s i d)
        (ap (λ t. replicate (reads_of aig s d) i ++ t) (readers-edges_from aig s (i + 1) drivers))

contains-copies : (s i : ℕ) (xs : List ℕ) → contains xs s ≡ true → 0 < length (copies s i xs)
contains-copies s i [] h = cc
contains-copies s i (x ∷ xs) h = elim (Bool-cases (x == s)) [
  | inl same ↦ rw same (omega arith)
  | inr other ↦ rw other (contains-copies s i xs (rw other at h))
]

-- A driver all of whose reads are below `n`.
for_each_fanin-AllBelow :
    (aig : Aig) (n : ℕ) (d : DriverType)
    → ((s : ℕ) → 0 < reads_of aig s d → s < n)
    → AllBelow n (for_each_fanin aig d)
for_each_fanin-AllBelow aig n d below = AllBelow-of n (for_each_fanin aig d) (λ s h.
    let some_copy = contains-copies s 0 (for_each_fanin aig d) h in
    let as_often = ap (λ (t : List ℕ). length t) (copies-for_each_fanin aig s 0 d) in
    below s (omega (arith, some_copy, as_often, length-replicate {A = ℕ} (reads_of aig s d) 0)))

SourcesBelow-append :
    (n m i : ℕ) (srcs : List ℕ) (edges : List (ℕ × ℕ))
    → n ≤ m
    → AllBelow n srcs
    → SourcesBelow m edges
    → SourcesBelow m (map (λ src. (src, i)) srcs ++ edges)
SourcesBelow-append n m i [] edges le below rest = rest
SourcesBelow-append n m i (src ∷ srcs) edges le (lt, below) rest =
    (omega arith, SourcesBelow-append n m i srcs edges le below rest)

edges_from-SourcesBelow :
    (aig : Aig) (n m i : ℕ) (drivers : List DriverType)
    → n ≤ m
    → ((u : ℕ) → u < length drivers → AllBelow n (for_each_fanin aig (get_or drivers u tie0)))
    → SourcesBelow m (edges_from aig i drivers)
unfolding edges_from
edges_from-SourcesBelow aig n m i [] le below = tt
edges_from-SourcesBelow aig n m i (d ∷ drivers) le below =
    SourcesBelow-append n m i (for_each_fanin aig d) (edges_from aig (i + 1) drivers) le
      (below 0 (omega arith))
      (edges_from-SourcesBelow aig n m (i + 1) drivers le (λ u lt. below (suc u) (omega arith)))

get_or-replicate : (n s : ℕ) → ◌≡◌ {A = ℕ} (get_or (replicate n 0) s 0) 0
get_or-replicate zero s = refl
get_or-replicate (suc n) zero = refl
get_or-replicate (suc n) (suc s) = get_or-replicate n s

-- What `fanouts` has to hold: the window of a pin ends where that of the next begins, is as long as
-- there are reads of the pin, and has its readers from the end down.
pub record AreFanouts (aig aig' : Aig) : Type 0 where
  pub same_drivers : aig'.drivers ≡ aig.drivers
  pub sized : length aig'.fanouts_start ≡ aig.num_aigpins + 2
  pub windows :
      (s : ℕ)
      → s ≤ aig.num_aigpins
      → get_or aig'.fanouts_start (suc s) 0
        ≡ get_or aig'.fanouts_start s 0 + length (readers_from aig s 0 aig.drivers)
  pub inside : get_or aig'.fanouts_start (aig.num_aigpins + 1) 0 ≡ length aig'.fanouts
  pub holds :
      (s k : ℕ)
      → s ≤ aig.num_aigpins
      → k < length (readers_from aig s 0 aig.drivers)
      → get_or aig'.fanouts (get_or aig'.fanouts_start (suc s) 0 - 1 - k) 0
        ≡ get_or (readers_from aig s 0 aig.drivers) k 0

-- The readers of a pin above all that are read.
readers-above : (n : ℕ) (edges : List (ℕ × ℕ)) → SourcesBelow n edges → length (readers n edges) ≡ 0
unfolding readers
readers-above n [] below = refl
readers-above n ((src, i) ∷ edges) (lt, below) =
    let other : (src == n) ≡ false = ground arith in rw other (readers-above n edges below)

-- After the sums, the windows of the pins do not meet.
accumulate-Windows :
    (edges : List (ℕ × ℕ)) (counted fanouts : List ℕ)
    → SourcesBelow (length counted) edges
    → ((s : ℕ) → get_or counted s 0 ≡ fan s edges)
    → ((s : ℕ) → s < length counted → get_or (accumulate 0 counted) s 0 ≤ length fanouts)
    → Windows edges (accumulate 0 counted) fanouts
accumulate-Windows edges counted fanouts below counts fits =
    let len = length-accumulate 0 counted in
    record {
      below = rw len below;
      room = λ s lt. omega (arith, counts s, accumulate-from 0 counted s (omega (arith, len, lt)));
      fits = λ s lt. fits s (omega (arith, len, lt));
      apart = λ s t lt lt_t.
          omega (arith, counts t, accumulate-apart 0 counted s t lt (omega (arith, len, lt_t)));
    }

total-greatest :
    (counted : List ℕ) (n s : ℕ)
    → length counted ≡ suc n
    → s < length counted
    → get_or (accumulate 0 counted) s 0 ≤ get_or (accumulate 0 counted) n 0
total-greatest counted n s len lt = elim (Bool-cases (s == n)) [
  | inl same ↦ omega (arith, ap (λ i. get_or (accumulate 0 counted) i 0) ((==_iff s n).0 same))
  | inr other ↦
      let lt_n : s < n = ground arith in
      omega (arith, accumulate-apart 0 counted s n lt_n (omega (arith, len)))
]

-- The loop over the edges, started on the sums, leaves the fan-outs.
Filled-AreFanouts :
    (aig : Aig) (counted zeros start' fanouts' : List ℕ)
    → length counted ≡ aig.num_aigpins + 2
    → ((s : ℕ) → get_or counted s 0 ≡ fan s (edges_from aig 0 aig.drivers))
    → SourcesBelow (aig.num_aigpins + 1) (edges_from aig 0 aig.drivers)
    → length zeros ≡ get_or (accumulate 0 counted) (aig.num_aigpins + 1) 0
    → Filled (edges_from aig 0 aig.drivers) (accumulate 0 counted) zeros start' fanouts'
    → AreFanouts aig (record aig { fanouts_start = start'; fanouts = fanouts' })
Filled-AreFanouts aig counted zeros start' fanouts' clen counts srcs zlen done =
    let n = aig.num_aigpins in
    let edges = edges_from aig 0 aig.drivers in
    let start = accumulate 0 counted in
    let slen : length start ≡ n + 2 = length-accumulate 0 counted ∙ clen in
    let next : (s : ℕ) → s ≤ n → get_or start' (suc s) 0 ≡ get_or start s 0 = λ s le. omega (
      arith,
      counts (suc s),
      accumulate-next 0 counted s (omega (arith, clen, le)),
      done.starts (suc s) (omega (arith, slen, le)),
    ) in
    let same : (s : ℕ) → readers s edges ≡ readers_from aig s 0 aig.drivers =
      λ s. readers-edges_from aig s 0 aig.drivers in
    record {
      same_drivers = refl;
      sized = done.sized ∙ slen;
      windows = λ s le. omega (
        arith,
        next s le,
        done.starts s (omega (arith, slen, le)),
        ap (λ (t : List ℕ). length t) (same s),
      );
      inside = omega (
        arith,
        done.starts (n + 1) (omega (arith, slen)),
        readers-above (n + 1) edges srcs,
        zlen,
        done.fanouts_sized,
      );
      holds = λ s k le lt.
          let h : k < fan s edges = omega (arith, lt, ap (λ (t : List ℕ). length t) (same s)) in
          let r = done.filled s k (omega (arith, slen, le)) h in
          rw (next s le) (r ∙ ap (λ (t : List ℕ). get_or t k 0) (same s));
    }

-- If every driver reads pins of the graph, then building the fan-outs runs without a panic and
-- gives, for each pin, the window of `fanouts` that has exactly the pins whose drivers read it,
-- each as often as it does, from the end of the window down in the order of the pins.
pub build_fanouts-AreFanouts :
    (aig : Aig)
    → ((u : ℕ)
        → u < length aig.drivers
        → (s : ℕ) → 0 < reads_of aig s (driver aig u)
        → s ≤ aig.num_aigpins)
    → (aig' : Aig) × (build_fanouts aig ≡ ok aig') × AreFanouts aig aig'
unfolding build_fanouts
build_fanouts-AreFanouts aig reads_inside =
    let n = aig.num_aigpins in
    let below : (u : ℕ)
        → u < length aig.drivers
        → AllBelow (n + 1) (for_each_fanin aig (driver aig u)) =
      λ u lt.
        for_each_fanin-AllBelow aig (n + 1) (driver aig u)
          (λ s h. let le = reads_inside u lt s h in omega arith) in
    let edges = edges_from aig 0 aig.drivers in
    let zeros : List ℕ = replicate (n + 2) 0 in
    let zlen : length zeros ≡ n + 2 = length-replicate (n + 2) 0 in
    let srcs : SourcesBelow (n + 1) edges =
      edges_from-SourcesBelow aig (n + 1) (n + 1) 0 aig.drivers (omega arith) below in
    let srcs₂ : SourcesBelow (n + 2) edges =
      edges_from-SourcesBelow aig (n + 1) (n + 2) 0 aig.drivers (omega arith) below in
    let (counted, counts_run, clen, counts) = count_edges-ok edges zeros (rw zlen srcs₂) in
    let count_of : (s : ℕ) → get_or counted s 0 ≡ fan s edges =
      λ s. omega (arith, counts s, get_or-replicate (n + 2) s) in
    let start = accumulate 0 counted in
    let slen : length start ≡ n + 2 = length-accumulate 0 counted ∙ clen ∙ zlen in
    let total = get_or start (n + 1) 0 in
    let got = get_elem?-get_or start (n + 1) (omega (arith, slen)) in
    let zeros' : List ℕ = replicate total 0 in
    let tlen : length zeros' ≡ total = length-replicate total 0 in
    let fits : (s : ℕ) → s < length counted → get_or start s 0 ≤ length zeros' = λ s lt.
      omega (arith, tlen, total-greatest counted (n + 1) s (omega (arith, clen, zlen)) lt) in
    let w = accumulate-Windows edges counted zeros' (rw (clen, zlen) srcs₂) count_of fits in
    let (start', fanouts', runs, done) = scatter-ok edges start zeros' w in
    (
      record aig { fanouts_start = start'; fanouts = fanouts' },
      rw (counts_run, got, runs) refl,
      Filled-AreFanouts aig counted zeros' start' fanouts' (clen ∙ zlen) count_of srcs tlen done,
    )
