-- ===== src/Flatten/Part/Layout.antt =====
-- src/flatten.rs: `init_afters_writeouts`.
use gem_macro_optimization.Base.{
  ℕ, zero, suc, ◌+◌, ◌-◌, ◌*◌, ◌/◌, ◌%◌, ◌^◌, List, [], ◌∷◌, ◌++◌, Option, none, some, Outcome, ok,
  panic, ◌>>=◌, unwrap, leb, ◌==◌, if◌then◌else◌, length, get_elem?, bit_or,
}
use gem_macro_optimization.Base.Maps.{map_get, map_insert}
use gem_macro_optimization.Macros.Kind.{state_words}
use gem_macro_optimization.Aig.{Aig, usize_max}
use gem_macro_optimization.Aig.Endpoints.{
  EndpointGroup, primary_output, dff_group, ram_block, macro_group, staged_io_pin,
}
use gem_macro_optimization.Staging.{StagedAig, staged_get_endpoint_group}
use gem_macro_optimization.Pe.{boomerang_num_stages, BoomerangStage, Partition}
use gem_macro_optimization.Flatten.Part.{FlatteningPart, activation}

-- `for i in (1..=n).rev() { after.extend(hier[i]) }`
unfoldable pub extend_hier : List (List ℕ) → ℕ → List ℕ → Outcome (List ℕ)
extend_hier hier zero after = ok after
extend_hier hier (suc n) after =
    unwrap (get_elem? hier (suc n)) >>= λ level. extend_hier hier n (after ++ level)

-- The result bits of a stage. The first has no pin.
unfoldable pub after_stage : BoomerangStage → Outcome (List ℕ)
unfolding extend_hier
after_stage s = extend_hier s.hier boomerang_num_stages (usize_max ∷ [])

unfoldable pub all_afters : List BoomerangStage → Outcome (List (List ℕ))
unfolding after_stage
all_afters [] = ok []
all_afters (s ∷ stages) = after_stage s >>= λ after. all_afters stages >>= λ rest. ok (after ∷ rest)

-- `n` entries from `start` on: a slice that leaves the vector is a panic.
unfoldable pub slice : List ℕ → ℕ → ℕ → Outcome (List ℕ)
slice xs start zero = if leb start (length xs) then ok [] else panic
slice xs start (suc n) =
    unwrap (get_elem? xs start) >>= λ x. slice xs (start + 1) n >>= λ rest. ok (x ∷ rest)

unfoldable pub stage_writeouts : List ℕ → List ℕ → Outcome (List ℕ)
unfolding slice
stage_writeouts after [] = ok []
stage_writeouts after (woi ∷ write_outs) = slice after (woi * 32) 32 >>= λ word.
    stage_writeouts after write_outs >>= λ rest. ok (word ++ rest)

unfoldable pub all_writeouts : List BoomerangStage → List (List ℕ) → Outcome (List ℕ)
unfolding stage_writeouts
all_writeouts [] afters = ok []
all_writeouts (s ∷ stages) [] = ok []
all_writeouts (s ∷ stages) (after ∷ afters) = stage_writeouts after s.write_outs >>= λ word.
    all_writeouts stages afters >>= λ rest. ok (word ++ rest)

unfoldable pub sum_writeouts : List BoomerangStage → ℕ
sum_writeouts [] = 0
sum_writeouts (s ∷ stages) = length s.write_outs + sum_writeouts stages

-- `map.entry(pin).or_default()`
abbrev pub or_default : Option (List (ℕ × Option ℕ)) → List (ℕ × Option ℕ)
or_default none = []
or_default (some activs) = activs

-- `map.entry(pin).or_default().insert(key, None)`
abbrev pub note_activation : List (ℕ × List (ℕ × Option ℕ)) → ℕ → ℕ → List (ℕ × List (ℕ × Option ℕ))
note_activation table pin key =
    map_insert table pin (map_insert (or_default (map_get table pin)) key none)

-- What an end point adds to the part's counts and to the table of activations.
unfoldable pub count_endpoint : FlatteningPart → EndpointGroup → FlatteningPart
unfolding state_words
count_endpoint part (ram_block ram) = record part { num_srams = part.num_srams + 1 }
count_endpoint part (primary_output idx) = record part {
  comb_outputs_activations =
      note_activation part.comb_outputs_activations (idx / 2) (bit_or 2 (idx % 2));
}
count_endpoint part (staged_io_pin idx) = record part {
  comb_outputs_activations = note_activation part.comb_outputs_activations idx 2;
}
count_endpoint part (dff_group dff) = record part {
  comb_outputs_activations =
      note_activation part.comb_outputs_activations (dff.d_iv / 2) (activation dff.d_iv dff.en_iv);
}
count_endpoint part (macro_group m) = record part {
  num_dsps = part.num_dsps + 1;
  dsp_state_words = part.dsp_state_words + 2;
  macro_state_words = part.macro_state_words + state_words m.kind;
}

unfoldable pub count_endpoints : Aig → StagedAig → List ℕ → FlatteningPart → Outcome FlatteningPart
unfolding count_endpoint
count_endpoints aig staged [] part = ok part
count_endpoints aig staged (endpt_i ∷ endpoints) part =
    staged_get_endpoint_group staged aig endpt_i >>= λ group.
    count_endpoints aig staged endpoints (count_endpoint part group)

-- The activations of an output but its first.
unfoldable pub count_duplicates : List (ℕ × List (ℕ × Option ℕ)) → ℕ
count_duplicates [] = 0
count_duplicates (entry ∷ table) = length entry.1 - 1 + count_duplicates table

-- The position of each pin in the write-outs, from place `i` on, added to a map.
unfoldable pub pin_positions : List ℕ → ℕ → List (ℕ × ℕ) → List (ℕ × ℕ)
pin_positions [] i pos = pos
pin_positions (pin ∷ pins) i pos =
    pin_positions pins (i + 1) (if pin == usize_max then pos else map_insert pos pin (i % 2 ^ 16))

unfoldable pub init_afters_writeouts :
    Aig → StagedAig → Partition → FlatteningPart → Outcome FlatteningPart
unfolding all_afters all_writeouts sum_writeouts count_endpoints count_duplicates pin_positions
init_afters_writeouts aig staged p part = all_afters p.stages >>= λ afters.
    all_writeouts p.stages afters >>= λ wos.
    count_endpoints aig staged p.endpoints (record part {
      afters = afters;
      parts_after_writeouts = wos;
      num_normal_writeouts = sum_writeouts p.stages;
      num_srams = 0;
      comb_outputs_activations = [];
    })
    >>= λ counted.
        let duplicates = (count_duplicates counted.comb_outputs_activations + 31) / 32 in
        ok (record counted {
          num_duplicate_writeouts = duplicates;
          num_writeouts =
              counted.num_normal_writeouts + counted.dsp_state_words + counted.num_srams
              + duplicates;
          after_writeout_pin2pos = pin_positions counted.parts_after_writeouts 0 [];
        })
