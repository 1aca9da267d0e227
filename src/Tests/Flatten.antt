-- ===== src/Tests/Flatten.antt =====
-- Tests of the layout of parts, reads and blocks.
use gem_macro_optimization.Macros.Kind.{state_words, state_bits}
use gem_macro_optimization.Base.{
  ℕ, zero, suc, false, List, [], ◌∷◌, none, some, ok, panic, ◌>>=◌, ◌≡◌, refl, ap, length,
  replicate, arith,
}
use gem_macro_optimization.Base.Maps.{map_get, map_insert}
use gem_macro_optimization.Base.Stores.{get_full}
use gem_macro_optimization.Macros.Kind.{carry4, dsp48e2, srlc32e, mac}
use gem_macro_optimization.Macros.Inst.{MacroInst, new}
use gem_macro_optimization.Aig.{Aig, tie0}
use gem_macro_optimization.Staging.{from_full_aig, staged_get_endpoint_group}
use gem_macro_optimization.Pe.{Partition}
use gem_macro_optimization.Flatten.Part.{
  FlatteningPart, query_permute_with_pin_iv, get_or_place_output_with_activation,
}
use gem_macro_optimization.Flatten.Part.Layout.{init_afters_writeouts}
use gem_macro_optimization.Flatten.Part.Io.{make_inputs_outputs}
use gem_macro_optimization.Flatten.Part.Place.{HasVectors}
use gem_macro_optimization.Flatten.Part.Placement.{HasDupRoom, IsPlacement}
use gem_macro_optimization.Flatten.Part.Activation.{get_or_place-IsPlacement}
use gem_macro_optimization.Flatten.Reads.{map_global_read_to_rounds}
use gem_macro_optimization.Flatten.Reads.Fits.{AreRounds}
use gem_macro_optimization.Flatten.Reads.Enough.{
  map_global_read_to_rounds_few, map_global_read_to_rounds-AreRounds,
}
use gem_macro_optimization.Flatten.Blocks.{
  Masonry, arrange_blocks, MacroOffsets, macro_state_offsets,
}
use gem_macro_optimization.Flatten.Blocks.Parts.{total_blocks, total_from, arrange_blocks-total}
use gem_macro_optimization.Flatten.Blocks.Offsets.{AreDisjoint}
use gem_macro_optimization.Flatten.Blocks.Owned.{OwnState, macro_state_offsets-AreDisjoint}

-- Pin 4 is at position 3 and pin 5 at 7; pin 4 has two activations, of which the first is placed.
abbrev part : FlatteningPart
part = record {
  afters = [];
  parts_after_writeouts = [];
  after_writeout_pin2pos = (4, 3) ∷ (5, 7) ∷ [];
  num_srams = 0;
  num_normal_writeouts = 1;
  num_duplicate_writeouts = 1;
  num_writeouts = 2;
  comb_outputs_activations = (4, (2, some 3) ∷ (22, none) ∷ []) ∷ [];
  cnt_placed_duplicate_permute = 0;
  zero_bit_pos = 0;
  state_start = 0;
  sram_start = 0;
  num_dsps = 0;
  dsp_state_words = 0;
  macro_state_words = 0;
  macro_state_start = 0;
  macro_local_ids = [];
  sram_duplicate_permute = replicate 8192 0;
  sram_duplicate_inv = replicate 256 0;
  sram_duplicate_set0 = replicate 256 0;
  clken_permute = replicate 8192 0;
  clken_inv = replicate 256 0;
  clken_set0 = replicate 256 0;
  data_inv = replicate 256 0;
}

length-replicate : (n : ℕ) → length {A = ℕ} (replicate n 0) ≡ n
length-replicate zero = refl
length-replicate (suc n) = ap suc (length-replicate n)

part-HasVectors : HasVectors part
part-HasVectors = record {
  permute = length-replicate 8192;
  inv = length-replicate 256;
  set0 = length-replicate 256;
  clken = length-replicate 8192;
  clken_i = length-replicate 256;
  clken_0 = length-replicate 256;
  data_i = length-replicate 256;
}

part-HasDupRoom : HasDupRoom part
part-HasDupRoom = record {
  outputs = omega arith;
  lanes = omega arith;
  outputs_fit = omega arith;
  lanes_fit = omega arith;
}

-- The second activation of pin 4, enabled by the inverse of pin 5.
get_or_place-IsPlacement_example :
    (pos : ℕ) × (part' : FlatteningPart) × (get_or_place_output_with_activation part 8 11
      ≡ ok (pos, part'))
    × IsPlacement part part' 8 1 3 (record { perm = 7; inv = 1; set0 = 0 }) pos
    × (get_or_place_output_with_activation part' 8 11 ≡ ok (pos, part'))
get_or_place-IsPlacement_example =
    get_or_place-IsPlacement part 8 11 1 3 ((2, some 3) ∷ (22, none) ∷ [])
      (record { perm = 7; inv = 1; set0 = 0 }) (unfold map_get in refl) (unfold get_full in refl)
      (unfold query_permute_with_pin_iv map_get in refl) (unfold map_get in refl) part-HasVectors
      (omega arith) (λ ne. part-HasDupRoom)

-- Words 0 and 3 are read, the first by one bit and the second by two.
abbrev two_words : List (ℕ × ℕ)
two_words = (0, 1) ∷ (3, 6) ∷ []

abbrev their_rounds : List (List (ℕ × ℕ))
their_rounds = ((0, 1) ∷ []) ∷ ((3, 6) ∷ []) ∷ replicate 254 []

map_global_read_to_rounds_few_example :
    (rounds : List (List (ℕ × ℕ))) × (map_global_read_to_rounds two_words ≡ ok rounds)
    × AreRounds two_words rounds
map_global_read_to_rounds_few_example =
    map_global_read_to_rounds_few two_words (omega arith) (omega arith)

map_global_read_to_rounds-AreRounds_example : AreRounds two_words their_rounds
map_global_read_to_rounds-AreRounds_example =
    map_global_read_to_rounds-AreRounds two_words their_rounds
      (unfold map_global_read_to_rounds in refl)

arrange_blocks-total_example :
    (m : Masonry) × (arrange_blocks 2 (5 ∷ 3 ∷ 1 ∷ []) ≡ ok m)
    × (length m.blocks_parts ≡ 2)
    × ((f : ℕ → ℕ) → total_blocks f m.blocks_parts ≡ total_from f 0 (5 ∷ 3 ∷ 1 ∷ []))
arrange_blocks-total_example = arrange_blocks-total 2 (5 ∷ 3 ∷ 1 ∷ []) (omega arith)

abbrev two_states : List (ℕ × MacroInst)
two_states = (7, new carry4) ∷ (8, new srlc32e) ∷ (9, new (dsp48e2 mac false)) ∷ []

abbrev dsp_part : Partition
dsp_part = record { endpoints = 0 ∷ []; stages = []; macro_stages = []; state_macros = 2 ∷ [] }

macro_state_offsets-AreDisjoint_example :
    (s : MacroOffsets) × (macro_state_offsets two_states (((0 ∷ []) ∷ [], dsp_part ∷ []) ∷ []) 8192
      ≡ ok s)
    × AreDisjoint two_states 8192 s
    × OwnState two_states two_states 0 s
unfolding state_words state_bits new
macro_state_offsets-AreDisjoint_example =
    macro_state_offsets-AreDisjoint two_states (((0 ∷ []) ∷ [], dsp_part ∷ []) ∷ []) 8192
      (((omega arith, tt), tt), ((omega arith, tt), tt), tt) (omega arith)

-- Two flip-flops whose data are the constant zero, with clock enables of their own.
abbrev zero_flops : Aig
zero_flops = record {
  num_aigpins = 0;
  pin2aigpin_iv = [];
  clock_pin2aigpins = [];
  drivers = tie0 ∷ [];
  and_gate_cache = [];
  primary_outputs = [];
  dffs =
      (3, record { d_iv = 0; en_iv = 2; q = 5 }) ∷ (4, record { d_iv = 0; en_iv = 4; q = 6 }) ∷ [];
  srams = [];
  macros = [];
  stateful_macros = [];
  aigpin2macro = [];
  fanouts_start = [];
  fanouts = [];
}

abbrev flops_part : Partition
flops_part = record { endpoints = 0 ∷ 1 ∷ []; stages = []; macro_stages = []; state_macros = [] }

-- The first pass counts a duplicate for the second flip-flop, and the second pass places none.
zero_flops-panic :
    (init_afters_writeouts zero_flops (from_full_aig zero_flops) flops_part part >>= λ p.
    make_inputs_outputs zero_flops (from_full_aig zero_flops) flops_part (record {
      part = p;
      cur_sram_id = 0;
      cur_dsp_id = 0;
      input_map = [];
      staged_io_map = [];
      output_map = [];
    }))
    ≡ panic
unfolding init_afters_writeouts make_inputs_outputs from_full_aig staged_get_endpoint_group
    map_insert map_get
zero_flops-panic = refl
