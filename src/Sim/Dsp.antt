-- ===== src/Sim/Dsp.antt =====
-- src/bin/naive_sim.rs: the simplified DSP48E2, `bits_to_u64`, `sext` and `eval_dsp_next`.
pub mod Fields
pub mod Signed
use gem_macro_optimization.Base.{
  ℕ, zero, suc, ◌+◌, ◌-◌, ◌*◌, ◌%◌, ◌^◌, Bool, List, bit_and, bit_or, bit_xor, ◌==◌, if◌then◌else◌,
}
use gem_macro_optimization.Base.Words.{u64_mod, wrapping_add, wrapping_sub, wrapping_mul}
use gem_macro_optimization.Macros.Kind.{
  DspState, bypass, mult, mac, dsp_in_a, dsp_in_b, dsp_in_c, dsp_in_d, dsp_in_cep,
}
use gem_macro_optimization.Sim.Carry.{at}

-- The loop `for i in i..i + n { r |= (v[base + i] as u64 & 1) << i }`.
unfoldable pub bits_from : List ℕ → ℕ → ℕ → ℕ → ℕ → ℕ
bits_from v base i zero r = r
bits_from v base i (suc n) r =
    bits_from v base (i + 1) n (bit_or r (at v (base + i) % 2 * 2 ^ i % u64_mod))

unfoldable pub bits_to_u64 : List ℕ → ℕ → ℕ → ℕ
bits_to_u64 v base width = bits_from v base 0 width 0

-- Sign extension of a `w`-bit field to a 64-bit pattern.
unfoldable pub sext : ℕ → ℕ → ℕ
sext v w = let m = 2 ^ (w - 1) in wrapping_sub (bit_xor v m) m

abbrev pub p_mask : ℕ
p_mask = 2 ^ 48 - 1

-- The operands after sign extension, and the result of the pre-adder and of the multiplier.
unfoldable pub dsp_ad : ℕ → ℕ → Bool → ℕ
dsp_ad a d use_preadder =
    let ad_raw = if use_preadder then wrapping_add a d else a in
    sext (bit_and ad_raw (2 ^ 27 - 1)) 27

unfoldable pub dsp_m : ℕ → ℕ → ℕ
dsp_m ad b = sext (bit_and (wrapping_mul ad b) (2 ^ 45 - 1)) 45

-- `match state`
unfoldable pub dsp_alu : DspState → ℕ → ℕ → ℕ → ℕ
dsp_alu bypass c m p = c
dsp_alu mult c m p = m
dsp_alu mac c m p = wrapping_add p m

unfoldable pub eval_dsp_next : List ℕ → ℕ → DspState → Bool → ℕ
eval_dsp_next inp p_cur state use_preadder =
    let a = sext (bits_to_u64 inp dsp_in_a 27) 27 in
    let b = sext (bits_to_u64 inp dsp_in_b 18) 18 in
    let c = sext (bits_to_u64 inp dsp_in_c 48) 48 in
    let d = sext (bits_to_u64 inp dsp_in_d 27) 27 in
    let cep = at inp dsp_in_cep % 2 in
    let m = dsp_m (dsp_ad a d use_preadder) b in
    let p = sext p_cur 48 in
    let p_next = dsp_alu state c m p in if cep == 0 then p_cur else bit_and p_next p_mask
