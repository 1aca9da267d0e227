-- ===== src/Staging/Split/Counted.antt =====
-- src/staging.rs: the fan-out counts and the levels of `from_split`.
use gem_macro_optimization.Base.{
  ℕ, ◌+◌, ◌/◌, ◌≤◌, ◌<◌, Bool, true, false, List, [], ◌∷◌, ok, ltb, ◌==◌, ==_iff, length, contains,
  ◌≡◌, ◌≢◌, refl, sym, ap, ◌∙◌, inl, inr, Bool-cases, arith,
}
use gem_macro_optimization.Base.Stores.{get_elem?-get_or}
use gem_macro_optimization.Aig.{
  Aig, DriverType, and_gate, input_port, input_clock_flag, dff, sram, macro, tie0,
}
use gem_macro_optimization.Aig.Topo.Driver.{DriverIn}
use gem_macro_optimization.Staging.Split.{gate_pins, Counts, count_operands}
use gem_macro_optimization.Staging.Split.Vectors.{
  at, count, count-append, count-nil, count_up-ok, store_max-ok,
}

true≢false : ◌≡◌ {A = Bool} true false → ⊥
true≢false e = cc

-- What counting the operands of gate `i` does.
pub record Operands (i : ℕ) (xs : List ℕ) (s s' : Counts) : Type 0 where
  pub fanouts_sized : length s'.num_fanouts ≡ length s.num_fanouts
  pub levels_sized : length s'.level_id ≡ length s.level_id
  pub counted : (y : ℕ) → at s'.num_fanouts y ≡ at s.num_fanouts y + count y xs
  pub others : (y : ℕ) → (i == y) ≡ false → at s'.level_id y ≡ at s.level_id y
  pub grows : at s.level_id i ≤ at s'.level_id i
  pub above : (p : ℕ) → contains xs p ≡ true → at s'.level_id p < at s'.level_id i
  pub least :
      (b : ℕ)
      → at s.level_id i ≤ b
      → ((p : ℕ) → contains xs p ≡ true → at s.level_id p < b)
      → at s'.level_id i ≤ b

apart_of : (xs : List ℕ) (i p : ℕ) → contains xs i ≡ false → contains xs p ≡ true → (i == p) ≡ false
apart_of xs i p out h = elim (Bool-cases (i == p)) [
  | inl same ↦ absurd (true≢false (sym h ∙ ap (contains xs) (sym ((==_iff i p).0 same)) ∙ out))
  | inr other ↦ other
]

pub count_operands-ok :
    (i : ℕ) (xs : List ℕ) (s : Counts)
    → i < length s.level_id
    → contains xs i ≡ false
    → ((p : ℕ) → contains xs p ≡ true → (p < length s.num_fanouts) × (p < length s.level_id))
    → (s' : Counts) × (count_operands i xs s ≡ ok s') × Operands i xs s s'
unfolding count_operands
count_operands-ok i [] s lt apart inside = (
  s,
  refl,
  record {
    fanouts_sized = refl;
    levels_sized = refl;
    counted = λ y. omega (arith, count-nil y);
    others = λ y other. refl;
    grows = omega arith;
    above = λ p h. cc;
    least = λ b low below. low;
  },
)
count_operands-ok i (x ∷ xs) s lt apart inside =
    let self : (x == x) ≡ true = ground arith in
    let (lt_f, lt_l) = inside x (rw self refl) in
    let (nf, ups, nf_sized, nf_counts) = count_up-ok s.num_fanouts x lt_f in
    let got = get_elem?-get_or s.level_id x lt_l in
    let l = at s.level_id x in
    let (lv, stores, lv_sized, reached, kept, lv_others, lv_least) =
      store_max-ok s.level_id i (l + 1) lt in
    let t : Counts = record { num_fanouts = nf; level_id = lv } in
    let x_apart : (x == i) ≡ false = ground arith in
    let rest_apart : contains xs i ≡ false = ground arith in
    let i_apart : (i == x) ≡ false = ground arith in
    let (s', runs, o) =
      count_operands-ok i xs t (omega arith) rest_apart
        (λ p h. let (a, b) = inside p (ground arith) in (omega arith, omega arith)) in
    (
      s',
      rw (ups, got, stores) runs,
      record {
        fanouts_sized = o.fanouts_sized ∙ nf_sized;
        levels_sized = o.levels_sized ∙ lv_sized;
        counted = λ y. omega (arith, o.counted y, nf_counts y, count-append y (x ∷ []) xs);
        others = λ y other. o.others y other ∙ lv_others y other;
        grows = let more = o.grows in omega arith;
        above = λ p h. elim (Bool-cases (x == p)) [
          | inl same ↦
              let e : x ≡ p = (==_iff x p).0 same in
              let stays = o.others x i_apart in
              let first = lv_others x i_apart in
              let more = o.grows in omega (arith, ap (at s'.level_id) e, stays, first)
          | inr other ↦ o.above p (rw other at h)
        ];
        least = λ b low below.
            let first = below x (rw self refl) in
            o.least b (lv_least b low (omega (arith, first))) (λ p h.
              let p_apart : (i == p) ≡ false = apart_of xs i p rest_apart h in
              omega (arith, lv_others p p_apart, below p (ground arith)));
      },
    )

pub gate_pins-contains :
    (aig : Aig) (xs : List ℕ) (d : DriverType) (p : ℕ)
    → DriverIn aig xs d
    → contains (gate_pins d) p ≡ true
    → contains xs p ≡ true
gate_pins-contains aig xs (and_gate a b) p (first, second) h = elim (Bool-cases (a / 2 == p)) [
  | inl is_a ↦
      let e : a / 2 ≡ p = (==_iff (a / 2) p).0 is_a in
      elim (Bool-cases (ltb a 2)) [
        | inl small ↦ elim (Bool-cases (ltb b 2)) [
          | inl none ↦ absurd (true≢false (sym h ∙ rw (small, none) refl))
          | inr big ↦
              let is_b : (b / 2 == p) ≡ true = only_one (b / 2) p (rw (small, big) at h) in
              let e' = (==_iff (b / 2) p).0 is_b in
              ap (contains xs) (sym e') ∙ second (big-ne b big)
        ]
        | inr large ↦ ap (contains xs) (sym e) ∙ first (big-ne a large)
      ]
  | inr not_a ↦ elim (Bool-cases (ltb b 2)) [
    | inl none ↦ absurd (
        true≢false (
          sym h ∙ (elim (Bool-cases (ltb a 2)) [
            | inl small ↦ rw (small, none) refl
            | inr large ↦ rw (large, none, not_a) refl
          ])))
    | inr big ↦
        let is_b : (b / 2 == p) ≡ true = elim (Bool-cases (ltb a 2)) [
          | inl small ↦ only_one (b / 2) p (rw (small, big) at h)
          | inr large ↦ only_one (b / 2) p (rw (large, big, not_a) at h)
        ] in
        let e' = (==_iff (b / 2) p).0 is_b in ap (contains xs) (sym e') ∙ second (big-ne b big)
  ]
]
  where
    only_one : (q p : ℕ) → contains (q ∷ []) p ≡ true → (q == p) ≡ true
    only_one q p h = ground arith

    big-ne : (c : ℕ) → ltb c 2 ≡ false → c / 2 ≢ 0
    big-ne c h e = let two : 2 ≤ c = ground arith in omega arith
gate_pins-contains aig xs (macro cellid slot) p d h = cc
gate_pins-contains aig xs (input_port i) p d h = cc
gate_pins-contains aig xs (input_clock_flag i c) p d h = cc
gate_pins-contains aig xs (dff i) p d h = cc
gate_pins-contains aig xs (sram i) p d h = cc
gate_pins-contains aig xs tie0 p d h = cc
