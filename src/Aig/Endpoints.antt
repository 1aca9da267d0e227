-- ===== src/Aig/Endpoints.antt =====
-- src/aig.rs: the endpoint groups of a graph and their inputs. A vector or map that is indexed out
-- of range is a panic. The calls of `f_nz` are the list of the pins, in the order of the calls.
pub mod Ranges
use gem_macro_optimization.Base.{
  ℕ, zero, suc, ◌+◌, ◌-◌, ◌/◌, List, [], ◌∷◌, Outcome, ok, panic, ◌>>=◌, unwrap, ltb, ◌==◌,
  if◌then◌else◌, length, get_elem?, get_or,
}
use gem_macro_optimization.Macros.Inst.{MacroInst, for_each_state_fanin, call_nz}
use gem_macro_optimization.Aig.{Aig, Dff, RamBlock}

pub data EndpointGroup : Type 0 where
  primary_output : ℕ → EndpointGroup
  dff_group : Dff → EndpointGroup
  ram_block : RamBlock → EndpointGroup
  macro_group : MacroInst → EndpointGroup
  staged_io_pin : ℕ → EndpointGroup

-- `for i in i..i + n { f(xs[i] >> 1); f(ys[i] >> 1); }`, then the calls in `rest`. The vectors of a
-- RAM block are arrays of the loops' lengths.
abbrev pub pair_calls : List ℕ → List ℕ → ℕ → ℕ → List ℕ → List ℕ
pair_calls xs ys i zero rest = rest
pair_calls xs ys i (suc n) rest =
    call_nz (get_or xs i 0) (call_nz (get_or ys i 0) (pair_calls xs ys (i + 1) n rest))

unfoldable pub for_each_input : EndpointGroup → List ℕ
unfolding for_each_state_fanin
for_each_input (primary_output idx) = call_nz idx []
for_each_input (dff_group dff) = call_nz dff.en_iv (call_nz dff.d_iv [])
for_each_input (ram_block ram) = call_nz ram.port_r_en_iv (
    pair_calls ram.port_r_addr_iv ram.port_w_addr_iv 0 13
      (pair_calls ram.port_w_wr_en_iv ram.port_w_wr_data_iv 0 32 []))
for_each_input (macro_group m) = for_each_state_fanin m
for_each_input (staged_io_pin idx) = if idx == 0 then [] else idx ∷ []

unfoldable pub num_endpoint_groups : Aig → ℕ
num_endpoint_groups aig =
    length aig.primary_outputs + length aig.dffs + length aig.srams + length aig.stateful_macros

unfoldable pub get_endpoint_group : Aig → ℕ → Outcome EndpointGroup
get_endpoint_group aig endpt_id =
    let n_po = length aig.primary_outputs in
    let n_dff = length aig.dffs in
    let n_sram = length aig.srams in
    if ltb endpt_id n_po
    then (unwrap (get_elem? aig.primary_outputs endpt_id) >>= λ pin. ok (primary_output pin))
    else if ltb endpt_id (n_po + n_dff)
    then (unwrap (get_elem? aig.dffs (endpt_id - n_po)) >>= λ entry. ok (dff_group entry.1))
    else if ltb endpt_id (n_po + n_dff + n_sram)
    then (unwrap (get_elem? aig.srams (endpt_id - n_po - n_dff)) >>= λ entry.
        ok (ram_block entry.1))
    else unwrap (get_elem? aig.stateful_macros (endpt_id - n_po - n_dff - n_sram)) >>= λ macro_i.
        unwrap (get_elem? aig.macros macro_i) >>= λ entry. ok (macro_group entry.1)

-- The endpoint group id of a stateful macro, by its position in `stateful_macros`.
unfoldable pub macro_endpoint_id : Aig → ℕ → ℕ
macro_endpoint_id aig stateful_idx =
    length aig.primary_outputs + length aig.dffs + length aig.srams + stateful_idx
