-- ===== src/Lib.antt =====
-- GEM with word-level macros: the compiler from a netlist to a script for a Boolean processor, and
-- the executors of that script.
--
-- A netlist becomes an and-inverter graph (src/aig.rs). Three Xilinx cells, CARRY4, DSP48E2 and
-- SRLC32E, are kept whole; their pins, fan-in and script codes are defined in src/macros.rs, which
-- the graph, the scheduler (src/pe.rs) and the memory formatter (src/flatten.rs) all use. The
-- formatter emits a script; src/bin/flatten_test.rs executes it on the CPU, and
-- src/bin/naive_sim.rs simulates the netlist directly as the reference.
--
-- Base     the shared names, Boolean tests, lists, maps (Base/Maps), vectors whose indexing is checked
--          (Base/Stores), bit operations at variables (Base/Bits), signed integers as
--          two's-complement fields (Base/Int), 64-bit words (Base/Words).
-- Macros   src/macros.rs. Kind: the kinds, constants and attributes. Slots: input_slot, output_slot,
--          direction_of, width_of. Fanin: comb_fanin_of_output, state_fanin and what follows.
--          Inst: MacroInst. Encode: the codes of a phase.
-- Sim      src/bin/naive_sim.rs. Carry, Dsp, Srl: eval_carry4, eval_dsp_next, eval_srl_next. Macro:
--          macro_gather_inputs, and the matches of main on the macro kind.
-- Aig      src/aig.rs: DriverType, AIG, add_aigpin, add_and_gate; Meaning says what a graph means.
--          Topo: topo_traverse_generic. Fanouts: the fan-out arrays of from_netlistdb. Endpoints:
--          EndpointGroup, for_each_input, get_endpoint_group, num_endpoint_groups,
--          macro_endpoint_id.
-- Staging  src/staging.rs: StagedAIG, from_full_aig, to_endpoint_subset. Split: from_split and
--          build_staged_aigs; its Counted, Ordered and Inputs are about the loops that count,
--          Released, Crossing and Kept about those at the split, Phases and Saved about the whole.
-- Aigpdk   src/aigpdk.rs: direction_of and width_of of the cell library.
-- Pe       src/pe.rs: Partition and its stages, is_chain_start. Boomerang: place_bit and purge_bit; its
--          Tree and Laid are about what place_bit lays out. Waves: order_macro_waves; its Relax is the
--          loop over the depths, Chains the chains and waves. Blocked: targets_blocked_by_pending
--          and realized_leaves_of.
-- Flatten  src/flatten.rs: set_bit_in_u32 and alloc_free_pos. Room: the positions that are left.
--          Phase: emit_macro_phase; its Outputs, Inputs, Words, Lane and Positions are about the
--          parts of a lane, CarryLane and SrlLane about a lane and its execution. Part:
--          FlatteningPart and the placement of an output bit (Place, Placement, Activation);
--          Layout: init_afters_writeouts; Io: make_inputs_outputs. Reads:
--          map_global_read_to_rounds. Blocks: the layout and the assembly of the blocks, and the
--          state's offsets. Flags: the flags of a place of the boomerang hierarchy, and the bit
--          that they give it over the places below.
-- Script   src/bin/flatten_test.rs: run_macro_phase; Bits, Rounds, Carry and Shift are about its lanes.
--          Reduce: the reduction of a boomerang stage in simulate_block_v1, on words; its Loop, Last,
--          Levels, Places and Pins are about a loop, the levels in the last word, the levels before
--          the vectors are joined, a place and a pin.
-- Tests    runs on concrete inputs, and each theorem at an input.
--
-- A word is a natural number with its wrap-around written out; a `usize` is a natural number, as
-- the vectors that it indexes fit in memory. A `Vec`, a slice and an array are lists, an IndexMap an
-- association list in insertion order. A panic, a failed assertion and an `unwrap` of nothing are
-- the outcome `panic`. Loops are recursions on a list or on the number of rounds left, which the
-- source fixes. Fuel is given to the depth-first search, one call for each pin of the graph and one
-- more (the open calls have different pins, and a call for a visited pin returns at once); to the
-- search for rounds, the number of words and one more (each try halves the chunk size); and to the
-- cutting into chunks, the length of the list (each chunk takes an entry). The loop over the depths
-- of macros takes its fuel as an argument, since no bound holds for all graphs; `ok none` says that
-- it still runs.
--
-- Not modelled: the scheduler's search for a hierarchy and its merging of partitions, build_script of
-- the formatter and the hypergraph; the netlist data base, VCD input and output, and the GPU kernel.
pub mod Base
pub mod Macros
pub mod Sim
pub mod Aig
pub mod Script
pub mod Staging
pub mod Aigpdk
pub mod Pe
pub mod Flatten
mod Tests
