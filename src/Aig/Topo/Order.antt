-- ===== src/Aig/Topo/Order.antt =====
-- src/aig.rs: the depth-first search of `topo_traverse_generic`, and topological orders.
use gem_macro_optimization.Base.{
  ℕ, zero, suc, ◌+◌, ◌≤◌, ◌<◌, Bool, true, false, List, [], ◌∷◌, ◌++◌, Option, Outcome, ok, ◌>>=◌,
  ◌≡◌, refl, sym, ap, ◌∙◌, inl, inr, Bool-cases, ltb, ltb→lt, contains, contains-append, AllBelow,
  AllIn, arith,
}
use gem_macro_optimization.Aig.{Aig, driver}
use gem_macro_optimization.Aig.Topo.{is_staged_input}
use gem_macro_optimization.Aig.Topo.{Dfs, dfs_fanin, dfs_topo, each, roots, topo_traverse_generic}
use gem_macro_optimization.Aig.Topo.Driver.{DriverIn, dfs_fanin-DriverIn}

true≢false : ◌≡◌ {A = Bool} true false → ⊥
true≢false e = cc

module _ (aig : Aig) (pi : Option (List ℕ)) where
  -- Each pin stands once in the order, and the pins that its driver reads stand before it, unless
  -- it is an input of the stage.
  pub data IsTopological : List ℕ → Type 0 where
    done : IsTopological []
    next :
        (xs : List ℕ) (u : ℕ)
        → IsTopological xs
        → contains xs u ≡ false
        → (is_staged_input pi u ≡ false → DriverIn aig xs (driver aig u))
        → IsTopological (xs ++ u ∷ [])

  -- The pins are numbered so that the fan-in of each comes before it.
  abbrev pub IsLayered : Type 0
  IsLayered =
      (u : ℕ)
      → u ≤ aig.num_aigpins
      → (fanin : List ℕ) × (dfs_fanin aig pi u ≡ ok fanin) × AllBelow u fanin

  -- Below `b`, a pin that was visited is in the order: no call for it is open.
  abbrev IsClosed : ℕ → Dfs → Type 0
  IsClosed b s = (x : ℕ) → x < b → contains s.vis x ≡ contains s.ret x

  -- What calls for pins below `b` do.
  record Visits (b : ℕ) (s s' : Dfs) : Type 0 where
    kept : (x : ℕ) → contains s.ret x ≡ true → contains s'.ret x ≡ true
    vis_above : (x : ℕ) → b ≤ x → contains s'.vis x ≡ contains s.vis x
    ret_above : (x : ℕ) → b ≤ x → contains s'.ret x ≡ contains s.ret x
    topological : IsTopological s'.ret
    closed : IsClosed b s'

  abbrev Reaches : ℕ → List ℕ → Dfs → Outcome Dfs → Type 0
  Reaches b us s r = (s' : Dfs) × (r ≡ ok s') × Visits b s s' × AllIn s'.ret us

  idle : (b : ℕ) (s : Dfs) → IsTopological s.ret → IsClosed b s → Visits b s s
  idle b s top closed = record {
    kept = λ x h. h;
    vis_above = λ x h. refl;
    ret_above = λ x h. refl;
    topological = top;
    closed = closed;
  }

  widen : (a b : ℕ) (s s' : Dfs) → a ≤ b → IsClosed b s → Visits a s s' → Visits b s s'
  widen a b s s' le closed v = record {
    kept = v.kept;
    vis_above = λ x h. v.vis_above x (omega arith);
    ret_above = λ x h. v.ret_above x (omega arith);
    topological = v.topological;
    closed = λ x h. elim (Bool-cases (ltb x a)) [
      | inl lt ↦ v.closed x (ltb→lt x a lt)
      | inr ge ↦
          let le : a ≤ x = ground arith in
          v.vis_above x (omega arith) ∙ closed x h ∙ sym (v.ret_above x (omega arith))
    ];
  }

  chain : (b : ℕ) (s t r : Dfs) → Visits b s t → Visits b t r → Visits b s r
  chain b s t r v w = record {
    kept = λ x h. w.kept x (v.kept x h);
    vis_above = λ x h. w.vis_above x h ∙ v.vis_above x h;
    ret_above = λ x h. w.ret_above x h ∙ v.ret_above x h;
    topological = w.topological;
    closed = w.closed;
  }

  -- The loop, over calls that do what they should.
  each-Reaches :
      (call : ℕ → Dfs → Outcome Dfs) (b : ℕ)
      → ((u : ℕ) (s : Dfs)
          → u < b
          → IsClosed (suc u) s
          → IsTopological s.ret
          → Reaches (suc u) (u ∷ []) s (call u s))
      → (us : List ℕ) (s : Dfs) → AllBelow b us
      → IsClosed b s
      → IsTopological s.ret
      → Reaches b us s (each call us s)
  each-Reaches call b step [] s below closed top = (s, refl, idle b s top closed, tt)
  each-Reaches call b step (u ∷ us) s below closed top =
      let (t, runs, visits, here) = step u s below.0 (λ x h. closed x (omega arith)) top in
      let wide = widen (suc u) b s t (omega arith) closed visits in
      let (r, runs', visits', there) =
        each-Reaches call b step us t below.1 wide.closed wide.topological in
      (
        r,
        ap (λ (o : Outcome Dfs). o >>= λ s'. each call us s') runs ∙ runs',
        chain b s t r wide visits',
        (visits'.kept u here.0, there),
      )

  -- The state in which a pin is appended to the order once its fan-in is done.
  abbrev opened : ℕ → Dfs → Dfs
  opened u s = record s { vis = u ∷ s.vis }

  abbrev finished : ℕ → Dfs → Dfs
  finished u t = record t { ret = t.ret ++ u ∷ [] }

  finish :
      (u : ℕ) (s t : Dfs) (fanin : List ℕ)
      → IsClosed (suc u) s
      → contains s.vis u ≡ false
      → dfs_fanin aig pi u ≡ ok fanin
      → Visits u (opened u s) t
      → AllIn t.ret fanin
      → Visits (suc u) s (finished u t) × AllIn (finished u t).ret (u ∷ [])
  finish u s t fanin closed fresh runs v inside =
      let unlisted : contains t.ret u ≡ false =
        v.ret_above u (omega arith) ∙ sym (closed u (omega arith)) ∙ fresh in
      (
        record {
          kept = λ x h. ground (arith, contains-append t.ret (u ∷ []) x, v.kept x h);
          vis_above = λ x h. ground (arith, v.vis_above x (omega arith));
          ret_above =
              λ x h. ground (arith, contains-append t.ret (u ∷ []) x, v.ret_above x (omega arith));
          topological =
              next t.ret u v.topological unlisted
                (dfs_fanin-DriverIn aig pi t.ret fanin u runs inside);
          closed = λ x h. elim (Bool-cases (ltb x u)) [
            | inl lt ↦ ground (arith, contains-append t.ret (u ∷ []) x, v.closed x (ltb→lt x u lt))
            | inr ge ↦
                let same : x ≡ u = ground arith in
                ground (arith, contains-append t.ret (u ∷ []) x, v.vis_above x (omega arith))
          ];
        },
        (ground (arith, contains-append t.ret (u ∷ []) u), tt),
      )

  -- Enough fuel for a pin is one call for each pin below it and one for itself.
  dfs_topo-Reaches :
      IsLayered
      → (fuel u : ℕ) (s : Dfs) → u < fuel
      → u ≤ aig.num_aigpins
      → IsClosed (suc u) s
      → IsTopological s.ret
      → Reaches (suc u) (u ∷ []) s (dfs_topo aig pi fuel u s)
  unfolding dfs_topo
  dfs_topo-Reaches layered zero u s lt le closed top = absurd (omega arith)
  dfs_topo-Reaches layered (suc fuel) u s lt le closed top = elim (Bool-cases (contains s.vis u)) [
    | inl seen ↦
        rw (seen, dfs_topo)
          (s, refl, idle (suc u) s top closed, (sym (closed u (omega arith)) ∙ seen, tt))
    | inr fresh ↦
        let (fanin, runs, below) = layered u le in
        let step =
          λ (i : ℕ) (t : Dfs) (i_lt : i < u) (c : IsClosed (suc i) t) (o : IsTopological t.ret).
            dfs_topo-Reaches layered fuel i t (omega arith) (omega arith) c o in
        let (t, loops, visits, inside) =
          each-Reaches (dfs_topo aig pi fuel) u step fanin (opened u s) below
            (λ x h. ground (arith, closed x (omega arith))) top in
        let (visits', inside') = finish u s t fanin closed fresh runs visits inside in
        rw (fresh, dfs_topo, runs, loops) (finished u t, refl, visits', inside')
  ]

-- The order, and that it has pins of the graph only.
pub traverse-bounded :
    (aig : Aig) (endpoints pi : Option (List ℕ))
    → IsLayered aig pi
    → AllBelow (aig.num_aigpins + 1) (roots aig endpoints)
    → (order : List ℕ) × (topo_traverse_generic aig endpoints pi ≡ ok order)
      × IsTopological aig pi order
      × AllIn order (roots aig endpoints)
      × ((x : ℕ) → contains order x ≡ true → x ≤ aig.num_aigpins)
unfolding topo_traverse_generic
traverse-bounded aig endpoints pi layered below =
    let step =
      λ (u : ℕ) (s : Dfs) (lt : u < aig.num_aigpins + 1) (c : IsClosed aig pi (suc u) s)
          (o : IsTopological aig pi s.ret).
        dfs_topo-Reaches aig pi layered (aig.num_aigpins + 2) u s (omega arith) (omega arith) c o in
    let (s, runs, visits, inside) =
      each-Reaches aig pi (dfs_topo aig pi (aig.num_aigpins + 2)) (aig.num_aigpins + 1) step
        (roots aig endpoints) (record { vis = []; ret = [] }) below (λ x h. refl) done in
    (
      s.ret,
      ap (λ (o : Outcome Dfs). o >>= λ r. ok r.ret) runs,
      visits.topological,
      inside,
      λ x h. elim (Bool-cases (ltb x (aig.num_aigpins + 1))) [
        | inl lt ↦ let below_x = ltb→lt x (aig.num_aigpins + 1) lt in omega arith
        | inr ge ↦
            let unlisted = visits.ret_above x (ground arith) in
            absurd (true≢false (sym h ∙ unlisted))
      ],
    )

pub traverse-IsTopological :
    (aig : Aig) (endpoints pi : Option (List ℕ))
    → IsLayered aig pi
    → AllBelow (aig.num_aigpins + 1) (roots aig endpoints)
    → (order : List ℕ) × (topo_traverse_generic aig endpoints pi ≡ ok order)
      × IsTopological aig pi order
      × AllIn order (roots aig endpoints)
traverse-IsTopological aig endpoints pi layered below =
    let (order, runs, top, inside, _) = traverse-bounded aig endpoints pi layered below in
    (order, runs, top, inside)
