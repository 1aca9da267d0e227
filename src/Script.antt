-- ===== src/Script.antt =====
-- src/bin/flatten_test.rs: the CPU executor of the emitted script. The shared state is a list of
-- 32-bit words, and `pos >> 5`, `pos & 31` are the quotient and the remainder by 32. The vectors
-- that the executor indexes are as long as it assumes; a read beyond them is not modelled.
pub mod Reduce
pub mod Bits
pub mod Rounds
pub mod Carry
pub mod Shift
use gem_macro_optimization.Base.{
  ℕ, zero, suc, ◌+◌, ◌-◌, ◌*◌, ◌/◌, ◌%◌, ◌^◌, Bool, true, false, List, [], ◌∷◌, ◌++◌, Outcome, ok,
  panic, ◌>>=◌, bit_and, bit_or, bit_xor, ◌==◌, if◌then◌else◌, get_or, set,
}
use gem_macro_optimization.Macros.Kind.{
  c4_in_ci, c4_in_cyinit, c4_in_di, c4_in_s, c4_out_o, c4_out_co, srl_in_d, srl_in_ce, srl_in_a,
  srl_out_q, srl_out_q31,
}
use gem_macro_optimization.Macros.Encode.{
  macro_lane_words, macro_lane_in_slots, macro_lane_out_slots, macro_max_lanes, macro_pos_none,
  macro_desc_kind_mask, macro_desc_chain_start_bit, macro_desc_valid_bit, macro_desc_state_shift,
  macro_kind_carry4, macro_kind_srlc32e, macro_decode_input,
}

-- `v[i]`
abbrev pub at : List ℕ → ℕ → ℕ
at v i = get_or v i 0

-- The closure `read_bit`.
unfoldable pub read_bit : List ℕ → ℕ → ℕ
read_bit st pos = at st (pos / 32) / 2 ^ (pos % 32) % 2

-- `st[pos >> 5] = (st[pos >> 5] & !(1u32 << (pos & 31))) | ((v as u32 & 1) << (pos & 31))`
unfoldable pub write_bit : List ℕ → ℕ → ℕ → List ℕ
write_bit st pos v =
    set st (pos / 32)
      (bit_or (bit_and (at st (pos / 32)) (2 ^ 32 - 1 - 2 ^ (pos % 32))) (v % 2 * 2 ^ (pos % 32)))

-- The closure `put`, for the output positions `outs`.
unfoldable pub put : List ℕ → List ℕ → ℕ → ℕ → List ℕ
put outs st slot v = if at outs slot == macro_pos_none then st else write_bit st (at outs slot) v

-- The two halves of the words at `base`, …, low half first.
abbrev pub halves : List ℕ → ℕ → ℕ → List ℕ
halves script base zero = []
halves script base (suc n) =
    at script base % 2 ^ 16 ∷ at script base / 2 ^ 16 % 2 ^ 16 ∷ halves script (base + 1) n

abbrev pub decode_all : List ℕ → List ℕ → List ℕ
decode_all state [] = []
decode_all state (code ∷ codes) = macro_decode_input code (read_bit state) ∷ decode_all state codes

-- The loop `for i in i..i + n` of a CARRY4 lane, over the shared state and the carry.
unfoldable pub carry_lane_loop : List ℕ → List ℕ → ℕ → ℕ → List ℕ → ℕ → List ℕ × ℕ
carry_lane_loop outs inp i zero state c = (state, c)
carry_lane_loop outs inp i (suc n) state c =
    let sb = at inp (c4_in_s + i) % 2 in
    let db = at inp (c4_in_di + i) % 2 in
    let cn = if sb == 0 then db else c in
    carry_lane_loop outs inp (i + 1) n
      (put outs (put outs state (c4_out_o + i) (bit_xor sb c)) (c4_out_co + i) cn) cn

-- The variables that live across the lanes of a phase.
pub record PhaseVars : Type 0 where
  pub state : List ℕ
  pub macro_data : List ℕ
  pub prev_co3 : ℕ

unfoldable pub carry_lane : Bool → List ℕ → List ℕ → PhaseVars → PhaseVars
unfolding carry_lane_loop
carry_lane chain_start inp outs v =
    let ci = if chain_start then at inp c4_in_ci else v.prev_co3 in
    let (state, c) = carry_lane_loop outs inp 0 4 v.state (bit_or ci (at inp c4_in_cyinit) % 2) in
    record v { state = state; prev_co3 = c }

-- `(0..5).fold(0u32, |acc, i| acc | ((inp[SRL_IN_A + i] as u32 & 1) << i))`, from `i` on.
abbrev pub fold_address : List ℕ → ℕ → ℕ → ℕ → ℕ
fold_address inp i zero acc = acc
fold_address inp i (suc n) acc =
    fold_address inp (i + 1) n (bit_or acc (at inp (srl_in_a + i) % 2 * 2 ^ i))

unfoldable pub srl_lane : ℕ → List ℕ → List ℕ → PhaseVars → PhaseVars
unfolding put
srl_lane state_off inp outs v =
    let sr = at v.macro_data state_off in
    let a = fold_address inp 0 5 0 in
    let state₁ = put outs v.state srl_out_q (sr / 2 ^ a % 2) in
    let state₂ = put outs state₁ srl_out_q31 (sr / 2 ^ 31 % 2) in
    let shifted = bit_or (sr * 2 % 2 ^ 32) (at inp srl_in_d % 2) in
    record {
      state = state₂;
      macro_data =
          if at inp srl_in_ce % 2 == 0 then v.macro_data else set v.macro_data state_off shifted;
      prev_co3 = 0;
    }

-- One lane, whose words start at `base`.
unfoldable pub run_lane : List ℕ → ℕ → PhaseVars → Outcome PhaseVars
unfolding carry_lane srl_lane read_bit
run_lane script base v =
    let desc = at script base in
    let kind = bit_and desc macro_desc_kind_mask in
    let chain_start = if desc / 2 ^ macro_desc_chain_start_bit % 2 == 0 then false else true in
    let state_off = desc / 2 ^ macro_desc_state_shift in
    let inp = decode_all v.state (halves script (base + 1) 5) in
    let outs = halves script (base + 1 + 5) 4 in
    if desc / 2 ^ macro_desc_valid_bit % 2 == 0
    then ok (record v { prev_co3 = 0 })
    else if kind == macro_kind_carry4
    then ok (carry_lane chain_start inp outs v)
    else if kind == macro_kind_srlc32e
    then ok (srl_lane state_off inp outs v)
    else panic

unfoldable pub run_lanes : List ℕ → ℕ → ℕ → PhaseVars → Outcome PhaseVars
run_lanes script base zero v = ok v
run_lanes script base (suc n) v =
    run_lane script base v >>= λ v'. run_lanes script (base + macro_lane_words) n v'

-- A phase, whose section starts at `script_pi`; `prev_co3` starts at 0.
unfoldable pub run_macro_phase : List ℕ → ℕ → List ℕ → List ℕ → Outcome PhaseVars
unfolding run_lanes run_lane
run_macro_phase script script_pi state macro_data =
    run_lanes script script_pi macro_max_lanes
      (record { state = state; macro_data = macro_data; prev_co3 = 0 })
