-- ===== src/Staging/Full.antt =====
-- src/staging.rs: the stage of the whole graph.
use gem_macro_optimization.Base.{
  ℕ, zero, suc, ◌+◌, ◌-◌, ◌≤◌, ◌<◌, false, some, ltb, get_elem?, range, range_from,
  length-range_from, ◌≡◌, refl, sym, ap, ◌∙◌, Bool-cases, inl, inr, ltb→lt, arith,
}
use gem_macro_optimization.Aig.{Aig}
use gem_macro_optimization.Aig.Endpoints.{get_endpoint_group, num_endpoint_groups}
use gem_macro_optimization.Aig.Endpoints.Ranges.{get_endpoint_group-panic, get_elem?-outside}
use gem_macro_optimization.Staging.{
  staged_num_endpoint_groups, staged_get_endpoint_group, from_full_aig,
}

get_elem?-range_from : (lo n i : ℕ) → i < n → get_elem? (range_from lo n) i ≡ some (lo + i)
get_elem?-range_from lo zero i h = absurd (omega arith)
get_elem?-range_from lo (suc n) zero h = ap some (omega arith)
get_elem?-range_from lo (suc n) (suc i) h =
    get_elem?-range_from (lo + 1) n i (omega arith) ∙ ap some (omega arith)

-- The stage of the whole graph has the graph's number of endpoint groups, and its look-up is the
-- graph's on every id, panics included.
pub from_full_aig-same :
    (aig : Aig) (i : ℕ)
    → (staged_num_endpoint_groups (from_full_aig aig) ≡ num_endpoint_groups aig)
      × (staged_get_endpoint_group (from_full_aig aig) aig i ≡ get_endpoint_group aig i)
unfolding from_full_aig staged_num_endpoint_groups staged_get_endpoint_group
from_full_aig-same aig i =
    let n = num_endpoint_groups aig in
    let sized = length-range_from 0 n in
    let none_staged : ltb i 0 ≡ false = ground arith in
    let at : i - 0 ≡ i = omega arith in
    (
      omega (arith, sized),
      elim (Bool-cases (ltb i n)) [
        | inl inside ↦
            let found = get_elem?-range_from 0 n i (ltb→lt i n inside) in
            let id : 0 + i ≡ i = omega arith in
            rw (staged_get_endpoint_group, from_full_aig, none_staged, at, found, id) refl
        | inr outside ↦
            let missing = get_elem?-outside (range n) i (ground (arith, sized)) in
            let le : n ≤ i = ground arith in
            rw (staged_get_endpoint_group, from_full_aig, none_staged, at, missing)
              (sym (get_endpoint_group-panic aig i le))
      ],
    )
