-- ===== src/Pe.antt =====
-- src/pe.rs: the partitions that the scheduler builds, and the heads of carry chains. `usize::MAX`
-- in a hierarchy or a wave is an empty slot.
pub mod Boomerang
pub mod Waves
pub mod Blocked
use gem_macro_optimization.Base.{
  ℕ, ◌+◌, ◌-◌, ◌/◌, ◌%◌, ◌^◌, Bool, true, false, not, ◌&&◌, List, Outcome, ok, ◌>>=◌, unwrap, ◌==◌,
  if◌then◌else◌, length, get_elem?,
}
use gem_macro_optimization.Macros.Kind.{MacroKind, carry4, dsp48e2, srlc32e, c4_in_ci, c4_out_co}
use gem_macro_optimization.Macros.Inst.{MacroInst}
use gem_macro_optimization.Aig.{Aig, usize_max}

abbrev pub boomerang_num_stages : ℕ
boomerang_num_stages = 13

abbrev pub boomerang_max_writeouts : ℕ
boomerang_max_writeouts = 2 ^ (boomerang_num_stages - 5)

pub record BoomerangStage : Type 0 where
  pub hier : List (List ℕ)
  pub write_outs : List ℕ

pub record MacroLane : Type 0 where
  pub macro_i : ℕ
  pub chain_start : Bool

pub record MacroStage : Type 0 where
  pub after_stage : ℕ
  pub lanes : List MacroLane

unfoldable pub num_lanes : MacroStage → ℕ
num_lanes ms = length ms.lanes

pub record Partition : Type 0 where
  pub endpoints : List ℕ
  pub stages : List BoomerangStage
  pub macro_stages : List MacroStage
  pub state_macros : List ℕ

-- `matches!(kind, MacroKind::Carry4)`
abbrev pub is_carry4 : MacroKind → Bool
is_carry4 carry4 = true
is_carry4 (dsp48e2 _ _) = false
is_carry4 srlc32e = false

-- The end of `is_chain_start`, for the macro of a lane and that of the lane before.
unfoldable pub starts_chain : MacroInst → MacroInst → Outcome Bool
starts_chain m p =
    if not (is_carry4 m.kind && is_carry4 p.kind)
    then ok true
    else (unwrap (get_elem? m.inputs c4_in_ci) >>= λ ci_iv.
        if ci_iv / 2 == 0
        then ok true
        else unwrap (get_elem? p.outputs (c4_out_co + 3)) >>= λ co3. ok (not (co3 == ci_iv / 2)))

unfoldable pub is_chain_start : Aig → List ℕ → ℕ → Outcome Bool
unfolding starts_chain
is_chain_start aig wave l =
    if l == 0
    then ok true
    else if l % 32 == 0
    then ok true
    else unwrap (get_elem? wave l) >>= λ me. unwrap (get_elem? wave (l - 1)) >>= λ prev.
        if me == usize_max
        then ok true
        else if prev == usize_max
        then ok true
        else unwrap (get_elem? aig.macros me) >>= λ m.
            unwrap (get_elem? aig.macros prev) >>= λ p. starts_chain m.1 p.1
