-- ===== src/Pe/Waves.antt =====
-- src/pe.rs: `order_macro_waves`, which groups the macros that a partition evaluates into phases. An
-- index out of range is a panic. The depth of a pin that has none counts as 0, and a macro's as 1.
pub mod Relax
pub mod Chains
use gem_macro_optimization.Base.{
  ℕ, zero, suc, ◌+◌, ◌/◌, Bool, true, false, not, ◌&&◌, ◌||◌, List, [], ◌∷◌, ◌++◌, Option, none,
  some, Outcome, ok, panic, ◌>>=◌, unwrap, max, ltb, ◌==◌, if◌then◌else◌, length, get_elem?,
  contains, set_insert, set_extend, is_some,
}
use gem_macro_optimization.Base.Maps.{map_get, map_insert}
use gem_macro_optimization.Macros.Kind.{commits_state_in_phase, c4_in_ci, c4_out_co}
use gem_macro_optimization.Macros.Fanin.{output_needs_mid_partition_eval, needs_mid_partition_eval}
use gem_macro_optimization.Macros.Inst.{
  MacroInst, call_nz, for_each_comb_fanin, for_each_state_fanin, for_each_eval_fanin,
}
use gem_macro_optimization.Aig.{Aig, DriverType, and_gate, macro, usize_max}
use gem_macro_optimization.Aig.Topo.{get_macro, topo_traverse_generic}
use gem_macro_optimization.Pe.{is_carry4}

-- `&aig.macros[macro_i]`
abbrev pub macro_of : Aig → ℕ → Outcome MacroInst
macro_of aig macro_i = unwrap (get_elem? aig.macros macro_i) >>= λ entry. ok entry.1

-- `*map.get(&k).unwrap_or(&d)`
abbrev pub get_or_else : ℕ → Option ℕ → ℕ
get_or_else d none = d
get_or_else d (some n) = n

abbrev pub depth_of : List (ℕ × ℕ) → ℕ → ℕ
depth_of depth macro_i = get_or_else 1 (map_get depth macro_i)

-- The macros of the cone, in the order of their first outputs.
unfoldable pub cone_round : Aig → List ℕ → List ℕ → ℕ → Outcome (List ℕ)
unfolding needs_mid_partition_eval
cone_round aig realized_inputs in_cone pin =
    if contains realized_inputs pin then ok in_cone else elim (map_get aig.aigpin2macro pin) [
      | none ↦ ok in_cone
      | some macro_i ↦ macro_of aig macro_i >>= λ m.
          ok (if needs_mid_partition_eval m.kind then set_insert in_cone macro_i else in_cone)
    ]

unfoldable pub cone_macros : Aig → List ℕ → List ℕ → List ℕ → Outcome (List ℕ)
unfolding cone_round
cone_macros aig realized_inputs in_cone [] = ok in_cone
cone_macros aig realized_inputs in_cone (pin ∷ order) =
    cone_round aig realized_inputs in_cone pin >>= λ in_cone'.
    cone_macros aig realized_inputs in_cone' order

-- `pin_depth` and `macro_depth`.
pub record Depths : Type 0 where
  pub pin_depth : List (ℕ × ℕ)
  pub macro_depth : List (ℕ × ℕ)

-- The greatest depth of some pins, from `d` on.
abbrev pub max_depth : List (ℕ × ℕ) → ℕ → List ℕ → ℕ
max_depth pin_depth d [] = d
max_depth pin_depth d (pin ∷ pins) =
    max_depth pin_depth (max d (get_or_else 0 (map_get pin_depth pin))) pins

-- `let e = macro_depth.entry(macro_i).or_insert(0); *e = (*e).max(d);`
abbrev pub raise_depth : List (ℕ × ℕ) → Option ℕ → ℕ → List (ℕ × ℕ)
raise_depth depth none d = depth
raise_depth depth (some macro_i) d =
    map_insert depth macro_i (max (get_or_else 0 (map_get depth macro_i)) d)

-- The depth of a pin, by its driver, and the depths of the macros.
unfoldable pub driver_depth : Aig → ℕ → DriverType → Depths → ℕ × List (ℕ × ℕ)
unfolding for_each_comb_fanin for_each_state_fanin output_needs_mid_partition_eval
    commits_state_in_phase
driver_depth aig pin (and_gate a b) s =
    (max_depth s.pin_depth 0 (call_nz a (call_nz b [])), s.macro_depth)
driver_depth aig pin (macro cellid slot) s = elim (get_macro aig.macros cellid) [
  | none ↦ (0, s.macro_depth)
  | some m ↦
      let comb = max_depth s.pin_depth 0 (for_each_comb_fanin m slot) in
      let fanin_depth =
        if commits_state_in_phase m.kind
        then max_depth s.pin_depth comb (for_each_state_fanin m)
        else comb in
      if output_needs_mid_partition_eval m.kind slot
      then (
        fanin_depth + 1,
        raise_depth s.macro_depth (map_get aig.aigpin2macro pin) (fanin_depth + 1),
      )
      else (0, s.macro_depth)
]
driver_depth aig pin _ s = (0, s.macro_depth)

unfoldable pub depth_round : Aig → List ℕ → Depths → ℕ → Outcome Depths
unfolding driver_depth
depth_round aig realized_inputs s pin =
    if contains realized_inputs pin
    then ok (record s { pin_depth = map_insert s.pin_depth pin 0 })
    else unwrap (get_elem? aig.drivers pin) >>= λ driver.
        let (d, macro_depth) = driver_depth aig pin driver s in
        ok (record { pin_depth = map_insert s.pin_depth pin d; macro_depth = macro_depth })

unfoldable pub depth_sweep : Aig → List ℕ → Depths → List ℕ → Outcome Depths
unfolding depth_round
depth_sweep aig realized_inputs s [] = ok s
depth_sweep aig realized_inputs s (pin ∷ order) =
    depth_round aig realized_inputs s pin >>= λ s'. depth_sweep aig realized_inputs s' order

-- `succ` and `has_pred`.
pub record Links : Type 0 where
  pub succ : List (ℕ × ℕ)
  pub has_pred : List ℕ

-- What follows once the driver of the CI pin is known to be the macro `pred_i` of the cone.
unfoldable pub link_to : Aig → Links → ℕ → ℕ → ℕ → Outcome Links
link_to aig s macro_i ci_pin pred_i = macro_of aig pred_i >>= λ pred.
    if not (is_carry4 pred.kind)
    then ok s
    else unwrap (get_elem? pred.outputs (c4_out_co + 3)) >>= λ co3.
        if not (co3 == ci_pin)
        then ok s
        else if is_some (map_get s.succ pred_i)
        then ok s
        else ok (record {
          succ = map_insert s.succ pred_i macro_i;
          has_pred = set_insert s.has_pred macro_i;
        })

unfoldable pub link_round : Aig → List ℕ → Links → ℕ → Outcome Links
unfolding link_to
link_round aig in_cone s macro_i = macro_of aig macro_i >>= λ m.
    if not (is_carry4 m.kind)
    then ok s
    else unwrap (get_elem? m.inputs c4_in_ci) >>= λ ci_iv.
        if ci_iv / 2 == 0 then ok s else elim (map_get aig.aigpin2macro (ci_iv / 2)) [
          | none ↦ ok s
          | some pred_i ↦
              if not (contains in_cone pred_i)
              then ok s
              else link_to aig s macro_i (ci_iv / 2) pred_i
        ]

unfoldable pub link_chains : Aig → List ℕ → Links → List ℕ → Outcome Links
unfolding link_round
link_chains aig in_cone s [] = ok s
link_chains aig in_cone s (macro_i ∷ macros) =
    link_round aig in_cone s macro_i >>= λ s'. link_chains aig in_cone s' macros
