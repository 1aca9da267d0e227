-- ===== src/Flatten/Blocks.antt =====
-- src/flatten.rs: the parts of `build_flattened_script_v1` that lay out blocks, the global state and
-- the state of the macros, and that assemble the blocks' scripts. The counters are below 2^32.
pub mod Offsets
pub mod Parts
pub mod Owned
use gem_macro_optimization.Base.{
  ℕ, zero, suc, ◌+◌, ◌-◌, ◌*◌, ◌/◌, ◌%◌, ◌^◌, Bool, true, false, not, ◌&&◌, List, [], ◌∷◌, ◌++◌,
  Option, none, some, is_some, Outcome, ok, panic, ◌>>=◌, unwrap, ltb, ◌==◌, if◌then◌else◌, length,
  get_elem?, get_or, set, replicate, min,
}
use gem_macro_optimization.Base.Maps.{map_get, map_insert}
use gem_macro_optimization.Base.Stores.{store}
use gem_macro_optimization.Macros.Kind.{has_state, state_words}
use gem_macro_optimization.Macros.Inst.{MacroInst}
use gem_macro_optimization.Pe.{Partition}
use gem_macro_optimization.Flatten.{num_threads_v1}
use gem_macro_optimization.Flatten.Part.{FlatteningPart}

abbrev pub executor_fixed_cost : ℕ
executor_fixed_cost = 3

-- The parts of each block, and its number of stages.
pub record Masonry : Type 0 where
  pub blocks_parts : List (List ℕ)
  pub tot_nstages_blocks : List ℕ

-- `tot.iter().enumerate().min_by(...)`: the first place with the least value, of those from place
-- `i` on and of `best`.
unfoldable pub least_from : List ℕ → ℕ → ℕ × ℕ → ℕ
least_from [] i best = best.0
least_from (t ∷ tot) i best = least_from tot (i + 1) (if ltb t best.1 then (i, t) else best)

abbrev pub least_block : List ℕ → Option ℕ
least_block [] = none
least_block (t ∷ tot) = some (least_from tot 1 (0, t))

-- `blocks_parts[put].push(i); tot_nstages_blocks[put] += cost`
unfoldable pub put_part : Masonry → ℕ → ℕ → ℕ → Outcome Masonry
put_part m put i cost = unwrap (get_elem? m.blocks_parts put) >>= λ block.
    unwrap (get_elem? m.tot_nstages_blocks put) >>= λ tot. ok (record m {
      blocks_parts = set m.blocks_parts put (block ++ i ∷ []);
      tot_nstages_blocks = set m.tot_nstages_blocks put (tot + cost);
    })

-- The two loops, over the numbers of stages of the parts from part `i` on. A block that has no part
-- yet has the total 0, so that the first loop's assignment is an addition.
unfoldable pub arrange_from : ℕ → List ℕ → ℕ → Masonry → Outcome Masonry
unfolding put_part least_from
arrange_from num_blocks [] i m = ok m
arrange_from num_blocks (n ∷ nstages) i m =
    (if ltb i num_blocks then ok i else unwrap (least_block m.tot_nstages_blocks)) >>= λ put.
    put_part m put i (n + executor_fixed_cost) >>= λ m'. arrange_from num_blocks nstages (i + 1) m'

unfoldable pub arrange_blocks : ℕ → List ℕ → Outcome Masonry
unfolding arrange_from
arrange_blocks num_blocks nstages =
    arrange_from num_blocks nstages 0 (record {
      blocks_parts = replicate num_blocks [];
      tot_nstages_blocks = replicate num_blocks 0;
    })

abbrev pub aigpdk_sram_addr_width : ℕ
aigpdk_sram_addr_width = 13

-- The parts, and the counters of the global state.
pub record StateVars : Type 0 where
  pub flattening_parts : List FlatteningPart
  pub sum_state_start : ℕ
  pub sum_srams_start : ℕ
  pub sum_macro_state : ℕ

unfoldable pub allocate_part : ℕ → StateVars → ℕ → Outcome StateVars
allocate_part zero_word s part_id = unwrap (get_elem? s.flattening_parts part_id) >>= λ part.
    ok (record {
      flattening_parts = set s.flattening_parts part_id (record part {
        zero_bit_pos = zero_word * 32;
        state_start = s.sum_state_start;
        sram_start = s.sum_srams_start;
        macro_state_start = s.sum_macro_state;
      });
      sum_state_start = s.sum_state_start + part.num_writeouts;
      sum_srams_start = s.sum_srams_start + part.num_srams * 2 ^ aigpdk_sram_addr_width;
      sum_macro_state = s.sum_macro_state + part.macro_state_words;
    })

unfoldable pub allocate_block : ℕ → StateVars → List ℕ → Outcome StateVars
unfolding allocate_part
allocate_block zero_word s [] = ok s
allocate_block zero_word s (part_id ∷ block) =
    allocate_part zero_word s part_id >>= λ s'. allocate_block zero_word s' block

unfoldable pub allocate_blocks : ℕ → StateVars → List (List ℕ) → Outcome StateVars
unfolding allocate_block
allocate_blocks zero_word s [] = ok s
allocate_blocks zero_word s (block ∷ blocks) =
    allocate_block zero_word s block >>= λ s'. allocate_blocks zero_word s' blocks

-- `macro_state_off` and `macro_state_cursor`.
pub record MacroOffsets : Type 0 where
  pub off : List (ℕ × ℕ)
  pub cursor : ℕ

-- `macro_state_off.insert(macro_i, cursor); cursor += words`, where the cursor is a `u32` that wraps
-- around.
abbrev pub give_offset : MacroOffsets → ℕ → ℕ → MacroOffsets
give_offset s macro_i words = record {
  off = map_insert s.off macro_i s.cursor;
  cursor = (s.cursor + words) % 2 ^ 32;
}

-- The loop over a part's `state_macros`.
unfoldable pub offsets_of_part : List (ℕ × MacroInst) → MacroOffsets → List ℕ → Outcome MacroOffsets
unfolding state_words
offsets_of_part macros s [] = ok s
offsets_of_part macros s (macro_i ∷ state_macros) = elim (is_some (map_get s.off macro_i)) [
  | true ↦ offsets_of_part macros s state_macros
  | false ↦ unwrap (get_elem? macros macro_i) >>= λ entry.
      offsets_of_part macros (give_offset s macro_i (state_words entry.1.kind)) state_macros
]

unfoldable pub offsets_of_block :
    List (ℕ × MacroInst) → List Partition → MacroOffsets → List ℕ → Outcome MacroOffsets
unfolding offsets_of_part
offsets_of_block macros init_parts s [] = ok s
offsets_of_block macros init_parts s (part_id ∷ block) =
    unwrap (get_elem? init_parts part_id) >>= λ p.
    offsets_of_part macros s p.state_macros >>= λ s'. offsets_of_block macros init_parts s' block

unfoldable pub offsets_of_stage :
    List (ℕ × MacroInst) → List Partition → MacroOffsets → List (List ℕ) → Outcome MacroOffsets
unfolding offsets_of_block
offsets_of_stage macros init_parts s [] = ok s
offsets_of_stage macros init_parts s (block ∷ blocks) =
    offsets_of_block macros init_parts s block >>= λ s'.
    offsets_of_stage macros init_parts s' blocks

-- The stages' blocks and partitions, side by side.
unfoldable pub offsets_of_stages :
    List (ℕ × MacroInst)
    → List (List (List ℕ) × List Partition)
    → MacroOffsets
    → Outcome MacroOffsets
unfolding offsets_of_stage
offsets_of_stages macros [] s = ok s
offsets_of_stages macros (stage ∷ stages) s =
    offsets_of_stage macros stage.1 s stage.0 >>= λ s'. offsets_of_stages macros stages s'

-- The last loop, over the macros from `macro_i` on.
unfoldable pub offsets_of_rest : List (ℕ × MacroInst) → ℕ → MacroOffsets → MacroOffsets
unfolding state_words has_state
offsets_of_rest [] macro_i s = s
offsets_of_rest (entry ∷ macros) macro_i s =
    elim (has_state entry.1.kind && not (is_some (map_get s.off macro_i))) [
      | true ↦
          offsets_of_rest macros (macro_i + 1) (give_offset s macro_i (state_words entry.1.kind))
      | false ↦ offsets_of_rest macros (macro_i + 1) s
    ]

unfoldable pub macro_state_offsets :
    List (ℕ × MacroInst) → List (List (List ℕ) × List Partition) → ℕ → Outcome MacroOffsets
unfolding offsets_of_stages offsets_of_rest
macro_state_offsets macros stages macro_state_origin =
    offsets_of_stages macros stages (record { off = []; cursor = macro_state_origin }) >>= λ s.
    ok (offsets_of_rest macros 0 s)

-- `blocks_data` and `blocks_start`.
pub record BlocksScript : Type 0 where
  pub blocks_data : List ℕ
  pub blocks_start : List ℕ

-- The scripts of a block's parts, and the place of the last one's.
unfoldable pub extend_parts : List (List ℕ) → List ℕ → List ℕ → ℕ → Outcome (List ℕ × ℕ)
extend_parts parts_data [] blocks_data last_part_st = ok (blocks_data, last_part_st)
extend_parts parts_data (part_id ∷ block) blocks_data last_part_st =
    unwrap (get_elem? parts_data part_id) >>= λ script.
    extend_parts parts_data block (blocks_data ++ script) (length blocks_data)

unfoldable pub assemble_block : List (List ℕ) → BlocksScript → List ℕ → Outcome BlocksScript
unfolding extend_parts
assemble_block parts_data s [] = ok (record {
  blocks_data = s.blocks_data ++ set (replicate num_threads_v1 0) 1 1;
  blocks_start = s.blocks_start ++ length s.blocks_data ∷ [];
})
assemble_block parts_data s (part_id ∷ block) =
    extend_parts parts_data (part_id ∷ block) s.blocks_data 0 >>= λ r.
    store r.0 (r.1 + 1) 1 >>= λ blocks_data. ok (record {
      blocks_data = blocks_data;
      blocks_start = s.blocks_start ++ length s.blocks_data ∷ [];
    })

unfoldable pub assemble_blocks : List (List ℕ) → BlocksScript → List (List ℕ) → Outcome BlocksScript
unfolding assemble_block
assemble_blocks parts_data s [] = ok s
assemble_blocks parts_data s (block ∷ blocks) =
    assemble_block parts_data s block >>= λ s'. assemble_blocks parts_data s' blocks

-- After the last block: the end of the data, and padding.
unfoldable pub finish_blocks : BlocksScript → BlocksScript
finish_blocks s = record {
  blocks_data = s.blocks_data ++ replicate (num_threads_v1 * 8) 0;
  blocks_start = s.blocks_start ++ length s.blocks_data ∷ [];
}
