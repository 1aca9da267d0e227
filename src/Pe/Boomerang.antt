-- ===== src/Pe/Boomerang.antt =====
-- src/pe.rs: the hierarchy of a boomerang stage, `place_bit` and `purge_bit`. An index out of range is
-- a panic. `hier_visited_nodes_count` is a map from pins to counts.
pub mod Tree
pub mod Laid
use gem_macro_optimization.Base.{
  ℕ, zero, suc, ◌+◌, ◌-◌, ◌*◌, ◌^◌, ◌/◌, Bool, true, false, List, [], ◌∷◌, Option, none, some,
  Outcome, ok, panic, ◌>>=◌, unwrap, ltb, ◌==◌, if◌then◌else◌, length, get_elem?, set, replicate,
}
use gem_macro_optimization.Base.Maps.{map_get, map_insert}
use gem_macro_optimization.Base.Stores.{store}
use gem_macro_optimization.Aig.{Aig, DriverType, and_gate, usize_max}

-- `hier` and `hier_visited_nodes_count`.
pub record Hierarchy : Type 0 where
  pub hier : List (List ℕ)
  pub visited : List (ℕ × ℕ)

-- `hier[hi][j] = nd`
unfoldable pub store_node : List (List ℕ) → ℕ → ℕ → ℕ → Outcome (List (List ℕ))
store_node hier hi j nd =
    unwrap (get_elem? hier hi) >>= λ row. store row j nd >>= λ row'. ok (set hier hi row')

abbrev pub count_or_zero : Option ℕ → ℕ
count_or_zero none = 0
count_or_zero (some n) = n

-- `*hier_visited_nodes_count.entry(nd).or_default() += 1`
unfoldable pub count_visit : List (ℕ × ℕ) → ℕ → List (ℕ × ℕ)
count_visit visited nd = map_insert visited nd (count_or_zero (map_get visited nd) + 1)

-- `level[*id2order.get(&nd).unwrap()]`
unfoldable pub level_of : List (ℕ × ℕ) → List ℕ → ℕ → Outcome ℕ
level_of id2order level nd = unwrap (map_get id2order nd) >>= λ i. unwrap (get_elem? level i)

-- The operands of a gate; any other driver is a panic.
abbrev pub operands : DriverType → Outcome (ℕ × ℕ)
operands (and_gate a b) = ok (a, b)
operands _ = panic

unfoldable pub place_bit : Aig → List ℕ → List (ℕ × ℕ) → ℕ → ℕ → ℕ → Hierarchy → Outcome Hierarchy
unfolding store_node count_visit level_of
place_bit aig level id2order zero j nd s =
    store_node s.hier 0 j nd >>= λ hier. ok (record s { hier = hier })
place_bit aig level id2order (suc h) j nd s = store_node s.hier (suc h) j nd >>= λ hier.
    level_of id2order level nd >>= λ lvlnd.
    let s' : Hierarchy = record { hier = hier; visited = count_visit s.visited nd } in
    elim (ltb (suc h) lvlnd) [
      | true ↦ panic
      | false ↦ elim (lvlnd == suc h) [
        | false ↦ place_bit aig level id2order h j nd s'
        | true ↦ unwrap (get_elem? aig.drivers nd) >>= λ d. operands d >>= λ ab.
            unwrap (get_elem? hier (suc h)) >>= λ row.
            place_bit aig level id2order h j (ab.0 / 2) s' >>= λ s₁.
            place_bit aig level id2order h (j + length row) (ab.1 / 2) s₁
      ]
    ]

-- `*hvc -= 1; if *hvc == 0 { swap_remove }`, as a map: a count of 0 is no entry.
abbrev pub map_remove : List (ℕ × ℕ) → ℕ → List (ℕ × ℕ)
map_remove [] k = []
map_remove ((j, n) ∷ m) k = if j == k then m else (j, n) ∷ map_remove m k

abbrev pub uncount : List (ℕ × ℕ) → ℕ → ℕ → Outcome (List (ℕ × ℕ))
uncount visited nd zero = panic
uncount visited nd (suc zero) = ok (map_remove visited nd)
uncount visited nd (suc (suc n)) = ok (map_insert visited nd (suc n))

unfoldable pub purge_bit : ℕ → ℕ → Hierarchy → Outcome Hierarchy
unfolding store_node
purge_bit zero j s = unwrap (get_elem? s.hier 0) >>= λ row. unwrap (get_elem? row j) >>= λ nd.
    elim (nd == usize_max) [
      | true ↦ ok s
      | false ↦ store_node s.hier 0 j usize_max >>= λ hier. ok (record s { hier = hier })
    ]
purge_bit (suc h) j s = unwrap (get_elem? s.hier (suc h)) >>= λ row.
    unwrap (get_elem? row j) >>= λ nd. elim (nd == usize_max) [
      | true ↦ ok s
      | false ↦ store_node s.hier (suc h) j usize_max >>= λ hier.
          unwrap (map_get s.visited nd) >>= λ count. uncount s.visited nd count >>= λ visited.
          purge_bit h j (record { hier = hier; visited = visited }) >>= λ s₁.
          purge_bit h (j + length row) s₁
    ]
