-- ===== src/Script/Shift.antt =====
-- src/bin/flatten_test.rs against src/bin/naive_sim.rs: an SRLC32E lane, and the read ports and the
-- next state of the reference model.
use gem_macro_optimization.Base.{
  ℕ, zero, suc, ◌*◌, ap, Bool-cases, bit_or, ◌/◌, ◌%◌, ◌^◌, ◌<◌, List, ok, ◌==◌, if◌then◌else◌,
  length, set, get_or-set_self, get_or-set_ne, ◌≡◌, ◌≢◌, ◌⊎◌, inl, inr, refl, arith,
}
use gem_macro_optimization.Macros.Kind.{srlc32e}
use gem_macro_optimization.Macros.Encode.{macro_pos_none}
use gem_macro_optimization.Sim.Srl.{srl_address, srl_q, srl_q31, eval_srl_next}
use gem_macro_optimization.Sim.Macro.{eval_output, next_state}
use gem_macro_optimization.Script.{at, read_bit, put, fold_address, PhaseVars, srl_lane}
use gem_macro_optimization.Script.Bits.{read_bit-put, length-put}

-- The two output positions of an SRLC32E lane.
pub record AreReadPorts (outs : List ℕ) (words : ℕ) : Type 0 where
  pub placed : (s : ℕ) → s < 2 → (at outs s ≡ macro_pos_none) ⊎ (at outs s / 32 < words)
  pub apart : at outs 0 ≢ macro_pos_none → at outs 0 ≢ at outs 1

-- What an SRLC32E lane leaves: the register's old bits at the positions of the read ports, the next
-- register at its offset, all else as it was.
pub record IsSrlLane (off : ℕ) (x outs : List ℕ) (v v' : PhaseVars) : Type 0 where
  pub outputs :
      (s : ℕ)
      → s < 2
      → at outs s ≢ macro_pos_none
      → ok (read_bit v'.state (at outs s)) ≡ eval_output srlc32e x (at v.macro_data off) s
  pub others :
      (q : ℕ) → ((s : ℕ) → s < 2 → q ≢ at outs s) → read_bit v'.state q ≡ read_bit v.state q
  pub next : ok (at v'.macro_data off) ≡ next_state srlc32e x (at v.macro_data off)
  pub other_data : (k : ℕ) → off ≢ k → at v'.macro_data k ≡ at v.macro_data k
  pub no_carry : v'.prev_co3 ≡ 0

module _ (off : ℕ) (x outs : List ℕ) (v : PhaseVars) where
  abbrev register : ℕ
  register = at v.macro_data off

  abbrev tap : ℕ
  tap = register / 2 ^ srl_address x % 2

  fold_address-srl_address : fold_address x 0 5 0 ≡ srl_address x
  unfolding srl_address
  fold_address-srl_address =
      let one : at x 2 % 2 * 1 ≡ at x 2 % 2 = omega arith in rw (fold_address, one) refl

  module _ (a : ℕ) (same : fold_address x 0 5 0 ≡ a) where
    left_state :
        (srl_lane off x outs v).state
        ≡ put outs (put outs v.state 0 (register / 2 ^ a % 2)) 1 (register / 2 ^ 31 % 2)
    unfolding srl_lane
    left_state =
        ap
          (λ (t : ℕ).
            put outs (put outs v.state 0 (register / 2 ^ t % 2)) 1 (register / 2 ^ 31 % 2))
          same

  abbrev after_q : List ℕ
  after_q = put outs v.state 0 tap

  srl_lane-state : (srl_lane off x outs v).state ≡ put outs after_q 1 (register / 2 ^ 31 % 2)
  srl_lane-state = left_state (srl_address x) fold_address-srl_address

  srl_lane-data : (srl_lane off x outs v).macro_data ≡ (
      if at x 1 % 2 == 0
      then v.macro_data
      else set v.macro_data off (bit_or (register * 2 % 2 ^ 32) (at x 0 % 2)))
  unfolding srl_lane
  srl_lane-data = refl

  module _ (fits : register < 2 ^ 32) (here : off < length v.macro_data)
      (ports : AreReadPorts outs (length v.state)) where
    after_q-read :
        (q : ℕ)
        → read_bit after_q q ≡ (
            if at outs 0 == macro_pos_none
            then read_bit v.state q
            else if q == at outs 0
            then tap % 2
            else read_bit v.state q)
    after_q-read q = read_bit-put outs v.state 0 tap q (ports.placed 0 (omega arith))

    left-read :
        (q : ℕ)
        → read_bit (put outs after_q 1 (register / 2 ^ 31 % 2)) q ≡ (
            if at outs 1 == macro_pos_none
            then read_bit after_q q
            else if q == at outs 1
            then register / 2 ^ 31 % 2 % 2
            else read_bit after_q q)
    left-read q =
        let sized = length-put outs v.state 0 tap in
        read_bit-put outs after_q 1 (register / 2 ^ 31 % 2) q
          (rw sized (ports.placed 1 (omega arith)))

    left-q :
        at outs 0 ≢ macro_pos_none
        → read_bit (put outs after_q 1 (register / 2 ^ 31 % 2)) (at outs 0) ≡ tap
    left-q some_pos =
        ground (arith, left-read (at outs 0), after_q-read (at outs 0), ports.apart some_pos)

    left-q31 :
        at outs 1 ≢ macro_pos_none
        → read_bit (put outs after_q 1 (register / 2 ^ 31 % 2)) (at outs 1) ≡ register / 2 ^ 31 % 2
    left-q31 some_pos = ground (arith, left-read (at outs 1))

    left-other :
        (q : ℕ)
        → q ≢ at outs 0
        → q ≢ at outs 1
        → read_bit (put outs after_q 1 (register / 2 ^ 31 % 2)) q ≡ read_bit v.state q
    left-other q ne ne' = ground (arith, left-read q, after_q-read q)

    outputs_same :
        (s : ℕ)
        → s < 2
        → at outs s ≢ macro_pos_none
        → ok (read_bit (put outs after_q 1 (register / 2 ^ 31 % 2)) (at outs s))
          ≡ eval_output srlc32e x register s
    unfolding eval_output srl_q srl_q31
    outputs_same zero h some_pos =
        let word : register % 2 ^ 32 ≡ register = omega arith in rw word (ap ok (left-q some_pos))
    outputs_same (suc zero) h some_pos =
        let word : register % 2 ^ 32 ≡ register = omega arith in rw word (ap ok (left-q31 some_pos))
    outputs_same (suc (suc s)) h some_pos = absurd (omega arith)

    abbrev shifted_at : ℕ
    shifted_at = bit_or (register * 2 % 2 ^ 32) (at x 0 % 2)

    next_same : ok (at (srl_lane off x outs v).macro_data off) ≡ next_state srlc32e x register
    unfolding next_state eval_srl_next
    next_same =
        let word : register % 2 ^ 32 ≡ register = omega arith in
        let written = get_or-set_self v.macro_data off shifted_at 0 here in
        rw (srl_lane-data, word)
          (elim (Bool-cases (at x 1 % 2 == 0)) [
            | inl held ↦ rw held refl
            | inr shifts ↦ rw shifts (ap ok written)
          ])

    -- An SRLC32E lane writes at the positions of its read ports the bits that the reference model
    -- reads from the register as it was, and replaces the register by the reference model's next
    -- state; it changes nothing else and starts no carry.
    pub srl_lane-IsSrlLane : IsSrlLane off x outs v (srl_lane off x outs v)
    srl_lane-IsSrlLane = record {
      outputs = λ s h some_pos. rw srl_lane-state (outputs_same s h some_pos);
      others =
          λ q far. rw srl_lane-state (left-other q (far 0 (omega arith)) (far 1 (omega arith)));
      next = next_same;
      other_data = λ k ne. rw srl_lane-data (
          ground (
            arith,
            get_or-set_ne v.macro_data off k (bit_or (register * 2 % 2 ^ 32) (at x 0 % 2)) 0 ne,
          ));
      no_carry = unfold srl_lane in refl;
    }
