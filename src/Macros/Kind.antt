-- ===== src/Macros/Kind.antt =====
-- src/macros.rs: the macro kinds, the slot layout constants, recognition of a cell type, and the
-- attributes that decide how a macro is scheduled.
use gem_macro_optimization.Base.{
  ℕ, ◌+◌, ◌/◌, Bool, true, false, not, ◌&&◌, Option, none, some, String, str_eq, Outcome, ok, panic,
  ◌==◌, if◌then◌else◌,
}

pub data DspState : Type 0 where
  bypass mult mac : DspState

pub data MacroKind : Type 0 where
  carry4 : MacroKind
  dsp48e2 : DspState → Bool → MacroKind
  srlc32e : MacroKind

abbrev pub c4_in_ci : ℕ
c4_in_ci = 0

abbrev pub c4_in_cyinit : ℕ
c4_in_cyinit = 1

abbrev pub c4_in_di : ℕ
c4_in_di = 2

abbrev pub c4_in_s : ℕ
c4_in_s = 6

abbrev pub c4_num_inputs : ℕ
c4_num_inputs = 10

abbrev pub c4_out_o : ℕ
c4_out_o = 0

abbrev pub c4_out_co : ℕ
c4_out_co = 4

abbrev pub c4_num_outputs : ℕ
c4_num_outputs = 8

abbrev pub dsp_in_a : ℕ
dsp_in_a = 0

abbrev pub dsp_in_b : ℕ
dsp_in_b = 27

abbrev pub dsp_in_c : ℕ
dsp_in_c = 45

abbrev pub dsp_in_d : ℕ
dsp_in_d = 93

abbrev pub dsp_in_cep : ℕ
dsp_in_cep = 120

abbrev pub dsp_num_inputs : ℕ
dsp_num_inputs = 121

abbrev pub dsp_out_p : ℕ
dsp_out_p = 0

abbrev pub dsp_num_outputs : ℕ
dsp_num_outputs = 48

abbrev pub srl_in_d : ℕ
srl_in_d = 0

abbrev pub srl_in_ce : ℕ
srl_in_ce = 1

abbrev pub srl_in_a : ℕ
srl_in_a = 2

abbrev pub srl_num_inputs : ℕ
srl_num_inputs = 7

abbrev pub srl_out_q : ℕ
srl_out_q = 0

abbrev pub srl_out_q31 : ℕ
srl_out_q31 = 1

abbrev pub srl_num_outputs : ℕ
srl_num_outputs = 2

-- A cell type that is no macro gives `ok none`; a DSP48E2 whose configuration was not mangled into
-- its name panics.
unfoldable pub from_celltype : String → Outcome (Option MacroKind)
from_celltype celltype =
    if str_eq celltype "CARRY4"
    then ok (some carry4)
    else if str_eq celltype "SRLC32E"
    then ok (some srlc32e)
    else if str_eq celltype "DSP48E2_BYPASS"
    then ok (some (dsp48e2 bypass false))
    else if str_eq celltype "DSP48E2_BYPASS_PREADD"
    then ok (some (dsp48e2 bypass true))
    else if str_eq celltype "DSP48E2_MULT"
    then ok (some (dsp48e2 mult false))
    else if str_eq celltype "DSP48E2_MULT_PREADD"
    then ok (some (dsp48e2 mult true))
    else if str_eq celltype "DSP48E2_MAC"
    then ok (some (dsp48e2 mac false))
    else if str_eq celltype "DSP48E2_MAC_PREADD"
    then ok (some (dsp48e2 mac true))
    else if str_eq celltype "DSP48E2"
    then panic
    else ok none

unfoldable pub num_inputs : MacroKind → ℕ
num_inputs carry4 = c4_num_inputs
num_inputs (dsp48e2 _ _) = dsp_num_inputs
num_inputs srlc32e = srl_num_inputs

unfoldable pub num_outputs : MacroKind → ℕ
num_outputs carry4 = c4_num_outputs
num_outputs (dsp48e2 _ _) = dsp_num_outputs
num_outputs srlc32e = srl_num_outputs

unfoldable pub has_clock : MacroKind → Bool
has_clock carry4 = false
has_clock (dsp48e2 _ _) = true
has_clock srlc32e = true

unfoldable pub default_input : MacroKind → ℕ → ℕ
default_input carry4 slot = 0
default_input (dsp48e2 _ _) slot = if slot == dsp_in_cep then 1 else 0
default_input srlc32e slot = if slot == srl_in_ce then 1 else 0

unfoldable pub has_state : MacroKind → Bool
has_state carry4 = false
has_state (dsp48e2 _ _) = true
has_state srlc32e = true

unfoldable pub is_stateful : MacroKind → Bool
unfolding has_state
is_stateful kind = has_state kind

unfoldable pub commits_state_in_phase : MacroKind → Bool
commits_state_in_phase carry4 = false
commits_state_in_phase (dsp48e2 _ _) = false
commits_state_in_phase srlc32e = true

unfoldable pub is_endpoint : MacroKind → Bool
unfolding has_state commits_state_in_phase
is_endpoint kind = has_state kind && not (commits_state_in_phase kind)

unfoldable pub state_bits : MacroKind → ℕ
state_bits carry4 = 0
state_bits (dsp48e2 _ _) = 48
state_bits srlc32e = 32

unfoldable pub state_words : MacroKind → ℕ
unfolding state_bits
state_words kind = (state_bits kind + 31) / 32

unfoldable pub input_words : MacroKind → ℕ
unfolding num_inputs
input_words kind = (num_inputs kind + 31) / 32
