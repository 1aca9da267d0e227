-- ===== src/Pe/Waves/Relax.antt =====
-- src/pe.rs: the loop of `order_macro_waves` that raises the depths of the macros until each is above
-- those of the macros it waits for. `ok none` means that the loop still runs when the fuel is spent.
pub mod Needs
pub mod Quiet
pub mod Raises
pub mod Ends
use gem_macro_optimization.Base.{
  ℕ, zero, suc, ◌+◌, ◌/◌, Bool, true, false, not, ◌&&◌, List, [], ◌∷◌, ◌++◌, Option, none, some,
  Outcome, ok, ◌>>=◌, unwrap, max, ltb, ◌==◌, if◌then◌else◌, get_elem?, contains,
}
use gem_macro_optimization.Base.Maps.{map_get, map_insert}
use gem_macro_optimization.Macros.Kind.{c4_in_ci, commits_state_in_phase}
use gem_macro_optimization.Macros.Inst.{MacroInst, for_each_state_fanin, for_each_eval_fanin}
use gem_macro_optimization.Aig.{Aig}
use gem_macro_optimization.Pe.{is_carry4}
use gem_macro_optimization.Pe.Waves.{macro_of, depth_of}

-- `if let Some(&macro_i) = map.get(&k) { … }`, as a list of at most one entry.
abbrev pub to_list : Option ℕ → List ℕ
to_list none = []
to_list (some x) = x ∷ []

-- `macro_depth.entry(macro_i).or_insert(1)`
abbrev pub insert_one : List (ℕ × ℕ) → ℕ → List (ℕ × ℕ)
insert_one depth macro_i = elim (map_get depth macro_i) [
  | none ↦ map_insert depth macro_i 1
  | some d ↦ depth
]

abbrev pub insert_ones : List (ℕ × ℕ) → List ℕ → List (ℕ × ℕ)
insert_ones depth [] = depth
insert_ones depth (macro_i ∷ macros) = insert_ones (insert_one depth macro_i) macros

-- `deps`
unfoldable pub deps_of : MacroInst → List ℕ
unfolding for_each_eval_fanin commits_state_in_phase for_each_state_fanin
deps_of m =
    for_each_eval_fanin m ++ (if commits_state_in_phase m.kind then for_each_state_fanin m else [])

-- `need`, from its first value on.
unfoldable pub need_of : List (ℕ × ℕ) → ℕ → List ℕ → ℕ
need_of depth need [] = need
need_of depth need (prod ∷ prods) = need_of depth (max need (depth_of depth prod + 1)) prods

-- One macro: the depths, and whether anything changed so far.
module _ (aig : Aig) (in_cone has_pred : List ℕ) where
  -- The macros of the cone that drive some pins, less the CI of a chained macro.
  unfoldable pub producers : ℕ → Bool → ℕ → List ℕ → List ℕ
  producers macro_i exempt ci_pin [] = []
  producers macro_i exempt ci_pin (pin ∷ deps) =
      let rest = producers macro_i exempt ci_pin deps in
      if exempt && pin == ci_pin then rest else elim (map_get aig.aigpin2macro pin) [
        | none ↦ rest
        | some prod ↦ if not (prod == macro_i) && contains in_cone prod then prod ∷ rest else rest
      ]

  -- The macros that `macro_i` has to come after.
  unfoldable pub waits_for : ℕ → Outcome (List ℕ)
  unfolding producers deps_of
  waits_for macro_i = macro_of aig macro_i >>= λ m.
      unwrap (get_elem? m.inputs c4_in_ci) >>= λ ci_iv.
      ok (producers macro_i (contains has_pred macro_i && is_carry4 m.kind) (ci_iv / 2) (deps_of m))

  unfoldable pub raise_macro : ℕ → List (ℕ × ℕ) × Bool → Outcome (List (ℕ × ℕ) × Bool)
  unfolding waits_for need_of
  raise_macro macro_i (depth, changed) = waits_for macro_i >>= λ prods.
      let need = need_of depth (depth_of depth macro_i) prods in
      ok (
        if ltb (depth_of depth macro_i) need
        then (map_insert depth macro_i need, true)
        else (depth, changed))

  unfoldable pub raise_round : List ℕ → List (ℕ × ℕ) × Bool → Outcome (List (ℕ × ℕ) × Bool)
  unfolding raise_macro
  raise_round [] s = ok s
  raise_round (macro_i ∷ macros) s = raise_macro macro_i s >>= λ s'. raise_round macros s'

  unfoldable pub raise_loop : ℕ → List (ℕ × ℕ) → Outcome (Option (List (ℕ × ℕ)))
  unfolding raise_round
  raise_loop zero depth = ok none
  raise_loop (suc fuel) depth = raise_round in_cone (depth, false) >>= λ s. elim s.1 [
    | false ↦ ok (some s.0)
    | true ↦ raise_loop fuel s.0
  ]
