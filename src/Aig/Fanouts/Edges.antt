-- ===== src/Aig/Fanouts/Edges.antt =====
-- src/aig.rs: the readers of a pin among the edges, and the counts of `fanouts_start`.
use gem_macro_optimization.Base.{
  ℕ, ◌+◌, ◌<◌, List, [], ◌∷◌, ok, ◌==◌, ==_iff, if◌then◌else◌, length, length-set, get_or, set, ◌≡◌,
  refl, ap, ◌∙◌, inl, inr, Bool-cases, arith,
}
use gem_macro_optimization.Base.Stores.{store-ok, get_or-set, get_elem?-get_or}
use gem_macro_optimization.Aig.Fanouts.{count_edges}

-- The pins whose drivers read `s`, in the order of the edges.
unfoldable pub readers : ℕ → List (ℕ × ℕ) → List ℕ
readers s [] = []
readers s ((src, i) ∷ edges) = if src == s then i ∷ readers s edges else readers s edges

-- Every edge starts at a pin below `n`.
abbrev pub SourcesBelow : ℕ → List (ℕ × ℕ) → Type 0
SourcesBelow n [] = Unit
SourcesBelow n ((src, _) ∷ edges) = (src < n) × SourcesBelow n edges

pub count_edges-ok :
    (edges : List (ℕ × ℕ)) (start : List ℕ)
    → SourcesBelow (length start) edges
    → (counted : List ℕ) × (count_edges edges start ≡ ok counted)
      × (length counted ≡ length start)
      × ((s : ℕ) → get_or counted s 0 ≡ get_or start s 0 + length (readers s edges))
unfolding count_edges readers
count_edges-ok [] start below = (start, refl, refl, λ s. omega arith)
count_edges-ok ((src, i) ∷ edges) start (lt, below) =
    let n = get_or start src 0 in
    let v = set start src (n + 1) in
    let sized = length-set start src (n + 1) in
    let (counted, runs, len, counts) = count_edges-ok edges v (rw sized below) in
    (
      counted,
      rw (get_elem?-get_or start src lt, store-ok start src (n + 1) lt) runs,
      len ∙ sized,
      λ s. counts s ∙ elim (Bool-cases (src == s)) [
        | inl same ↦
            let here : get_or v s 0 ≡ n + 1 = get_or-set start src s (n + 1) lt ∙ rw same refl in
            let old = ap (λ y. get_or start y 0) ((==_iff src s).0 same) in
            rw same (omega (arith, here, old))
        | inr other ↦
            let here : get_or v s 0 ≡ get_or start s 0 =
              get_or-set start src s (n + 1) lt ∙ rw other refl in
            rw other (omega (arith, here))
      ],
    )
