-- ===== src/Flatten/Part/Io.antt =====
-- src/flatten.rs: `make_inputs_outputs`.
use gem_macro_optimization.Base.{
  ℕ, zero, suc, ◌+◌, ◌-◌, ◌*◌, ◌/◌, ◌%◌, ◌^◌, true, false, List, [], ◌∷◌, Outcome, ok, panic, ◌>>=◌,
  unwrap, ◌==◌, if◌then◌else◌, get_elem?, get_or, replicate,
}
use gem_macro_optimization.Base.Maps.{map_insert}
use gem_macro_optimization.Macros.Kind.{
  MacroKind, carry4, dsp48e2, srlc32e, DspState, bypass, mult, mac, dsp_out_p, dsp_num_inputs,
}
use gem_macro_optimization.Macros.Inst.{MacroInst}
use gem_macro_optimization.Aig.{Aig, Dff, RamBlock, usize_max}
use gem_macro_optimization.Aig.Endpoints.{
  EndpointGroup, primary_output, dff_group, ram_block, macro_group, staged_io_pin,
}
use gem_macro_optimization.Staging.{StagedAig, staged_get_endpoint_group}
use gem_macro_optimization.Pe.{Partition}
use gem_macro_optimization.Flatten.{num_positions, num_threads_v1}
use gem_macro_optimization.Flatten.Part.{
  FlatteningPart, Permute, query_permute_with_pin_iv, place_sram_duplicate, place_clken_datainv,
  get_or_place_output_with_activation,
}

-- The part, the two counters of the loop and the three maps.
pub record IoVars : Type 0 where
  pub part : FlatteningPart
  pub cur_sram_id : ℕ
  pub cur_dsp_id : ℕ
  pub input_map : List (ℕ × ℕ)
  pub staged_io_map : List (ℕ × ℕ)
  pub output_map : List (ℕ × ℕ)

-- The read port of a RAM block: `for k in k..k + n`.
unfoldable pub place_read_port : RamBlock → ℕ → ℕ → Permute → ℕ → ℕ → IoVars → Outcome IoVars
place_read_port ram global_start local_offset r_en k zero io = ok io
place_read_port ram global_start local_offset r_en k (suc n) io =
    let d = get_or ram.port_r_rd_data k 0 in
    elim (d == usize_max) [
      | true ↦ place_read_port ram global_start local_offset r_en (k + 1) n io
      | false ↦ place_clken_datainv io.part (local_offset * 32 + k) r_en 0 >>= λ part.
          place_read_port ram global_start local_offset r_en (k + 1) n (record io {
            part = part;
            input_map = map_insert io.input_map d (global_start * 32 + k);
            output_map = map_insert io.output_map (d * 2) (global_start * 32 + k);
          })
    ]

-- `self.place_sram_duplicate(pos, self.query_permute_with_pin_iv(iv))`
unfoldable pub gather_bit : FlatteningPart → ℕ → ℕ → Outcome FlatteningPart
unfolding query_permute_with_pin_iv place_sram_duplicate
gather_bit part pos iv = query_permute_with_pin_iv part iv >>= λ p. place_sram_duplicate part pos p

-- `for k in k..k + n { gather xs[k] at a + k and ys[k] at b + k }`
unfoldable pub gather_pairs :
    List ℕ → List ℕ → ℕ → ℕ → ℕ → ℕ → FlatteningPart → Outcome FlatteningPart
unfolding gather_bit
gather_pairs xs ys a b k zero part = ok part
gather_pairs xs ys a b k (suc n) part = gather_bit part (a + k) (get_or xs k 0) >>= λ part₁.
    gather_bit part₁ (b + k) (get_or ys k 0) >>= λ part₂. gather_pairs xs ys a b (k + 1) n part₂

unfoldable pub place_ram : RamBlock → IoVars → Outcome IoVars
unfolding place_read_port gather_pairs
place_ram ram io =
    let part = io.part in
    let local_offset = part.num_writeouts - part.num_srams + io.cur_sram_id in
    let global_start = part.state_start + part.num_writeouts - part.num_srams + io.cur_sram_id in
    query_permute_with_pin_iv part ram.port_r_en_iv >>= λ r_en.
    place_read_port ram global_start local_offset r_en 0 32 io >>= λ io₁.
    let st = io.cur_sram_id * 32 * 4 in
    gather_pairs ram.port_r_addr_iv ram.port_w_addr_iv st (st + 16) 0 13 io₁.part >>= λ part₁.
    gather_pairs ram.port_w_wr_en_iv ram.port_w_wr_data_iv (st + 32) (st + 64) 0 32 part₁
    >>= λ part₂. ok (record io₁ { part = part₂; cur_sram_id = io.cur_sram_id + 1 })

-- The 48 result bits of a DSP48E2: `for k in k..k + n`.
unfoldable pub place_product : MacroInst → ℕ → ℕ → Permute → ℕ → ℕ → IoVars → Outcome IoVars
place_product m dsp_local dsp_global one k zero io = ok io
place_product m dsp_local dsp_global one k (suc n) io =
    unwrap (get_elem? m.outputs (dsp_out_p + k)) >>= λ pin. elim (pin == 0) [
      | true ↦ place_product m dsp_local dsp_global one (k + 1) n io
      | false ↦ place_clken_datainv io.part (dsp_local * 32 + k) one 0 >>= λ part.
          place_product m dsp_local dsp_global one (k + 1) n (record io {
            part = part;
            input_map = map_insert io.input_map pin (dsp_global * 32 + k);
          })
    ]

-- `for slot in slot..slot + n`: the gathered inputs of a macro.
unfoldable pub gather_slots : MacroInst → ℕ → ℕ → ℕ → FlatteningPart → Outcome FlatteningPart
unfolding gather_bit
gather_slots m st slot zero part = ok part
gather_slots m st slot (suc n) part = unwrap (get_elem? m.inputs slot) >>= λ iv.
    gather_bit part (st + slot) iv >>= λ part'. gather_slots m st (slot + 1) n part'

-- `state as usize`
abbrev pub dsp_state_code : DspState → ℕ
dsp_state_code bypass = 0
dsp_state_code mult = 1
dsp_state_code mac = 2

-- The configuration of a DSP48E2: the code of its ALU state, and its pre-adder.
unfoldable pub dsp_config : MacroKind → Outcome (ℕ × ℕ)
dsp_config carry4 = panic
dsp_config srlc32e = panic
dsp_config (dsp48e2 state use_preadder) = ok (dsp_state_code state, if use_preadder then 1 else 0)

unfoldable pub place_dsp : MacroInst → IoVars → Outcome IoVars
unfolding place_product gather_slots dsp_config
place_dsp m io =
    let part = io.part in
    let dsp_local =
      part.num_writeouts
      - part.num_srams
      - part.num_duplicate_writeouts
      - part.dsp_state_words
      + io.cur_dsp_id * 2 in
    let dsp_global =
      part.state_start
      + part.num_writeouts
      - part.num_srams
      - part.num_duplicate_writeouts
      - part.dsp_state_words
      + io.cur_dsp_id * 2 in
    query_permute_with_pin_iv part 1 >>= λ one.
    place_product m dsp_local dsp_global one 0 48 io >>= λ io₁.
    let st = part.num_srams * 4 * 32 + io.cur_dsp_id * 128 in
    gather_slots m st 0 dsp_num_inputs io₁.part >>= λ part₁.
    gather_bit part₁ (st + dsp_num_inputs) m.clk_en_iv >>= λ part₂. dsp_config m.kind >>= λ config.
    gather_bit part₂ (st + dsp_num_inputs + 1) (config.0 % 2) >>= λ part₃.
    gather_bit part₃ (st + dsp_num_inputs + 2) (config.0 / 2 % 2) >>= λ part₄.
    gather_bit part₄ (st + dsp_num_inputs + 3) config.1 >>= λ part₅.
    ok (record io₁ { part = part₅; cur_dsp_id = io.cur_dsp_id + 1 })

unfoldable pub place_dff : Dff → IoVars → Outcome IoVars
unfolding get_or_place_output_with_activation
place_dff dff io =
    if dff.d_iv == 0
    then ok (record io { input_map = map_insert io.input_map dff.q io.part.zero_bit_pos })
    else if dff.d_iv == 1
    then panic
    else get_or_place_output_with_activation io.part dff.d_iv dff.en_iv >>= λ r.
        let pos = io.part.state_start * 32 + r.0 in
        ok (record io {
          part = r.1;
          output_map = map_insert io.output_map dff.d_iv pos;
          input_map = map_insert io.input_map dff.q pos;
        })

unfoldable pub place_endpoint : EndpointGroup → IoVars → Outcome IoVars
unfolding place_ram place_dsp place_dff
place_endpoint (ram_block ram) io = place_ram ram io
place_endpoint (primary_output idx_iv) io =
    if idx_iv == 0
    then panic
    else get_or_place_output_with_activation io.part idx_iv 1 >>= λ r. ok (record io {
      part = r.1;
      output_map = map_insert io.output_map idx_iv (io.part.state_start * 32 + r.0);
    })
place_endpoint (staged_io_pin idx) io =
    if idx == 0
    then panic
    else get_or_place_output_with_activation io.part (idx * 2) 1 >>= λ r. ok (record io {
      part = r.1;
      staged_io_map = map_insert io.staged_io_map idx (io.part.state_start * 32 + r.0);
    })
place_endpoint (macro_group m) io = place_dsp m io
place_endpoint (dff_group dff) io = place_dff dff io

unfoldable pub place_endpoints : Aig → StagedAig → List ℕ → IoVars → Outcome IoVars
unfolding place_endpoint
place_endpoints aig staged [] io = ok io
place_endpoints aig staged (endpt_i ∷ endpoints) io =
    staged_get_endpoint_group staged aig endpt_i >>= λ group.
    place_endpoint group io >>= λ io'. place_endpoints aig staged endpoints io'

-- The vectors before the loop.
unfoldable pub clear_vectors : FlatteningPart → FlatteningPart
clear_vectors part = record part {
  sram_duplicate_permute = replicate num_positions 0;
  sram_duplicate_inv = replicate num_threads_v1 0;
  sram_duplicate_set0 = replicate num_threads_v1 (2 ^ 32 - 1);
  clken_permute = replicate num_positions 0;
  clken_inv = replicate num_threads_v1 0;
  clken_set0 = replicate num_threads_v1 (2 ^ 32 - 1);
  data_inv = replicate num_threads_v1 0;
  cnt_placed_duplicate_permute = 0;
}

unfoldable pub make_inputs_outputs : Aig → StagedAig → Partition → IoVars → Outcome IoVars
unfolding place_endpoints clear_vectors
make_inputs_outputs aig staged p io =
    place_endpoints aig staged p.endpoints
      (record io { part = clear_vectors io.part; cur_sram_id = 0; cur_dsp_id = 0 })
    >>= λ io'.
        if io'.cur_sram_id == io'.part.num_srams
        then (if (io'.part.cnt_placed_duplicate_permute + 31) / 32
              == io'.part.num_duplicate_writeouts
            then ok io'
            else panic)
        else panic
