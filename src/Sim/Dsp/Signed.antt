-- ===== src/Sim/Dsp/Signed.antt =====
-- src/bin/naive_sim.rs: `eval_dsp_next` against signed arithmetic.
use native.Mathlib.Nat.{mul-le-mul}
use gem_macro_optimization.Base.{
  ℕ, suc, ◌+◌, ◌-◌, ◌*◌, ◌%◌, ◌^◌, ◌≤◌, ◌<◌, Bool, true, false, List, bit_and, ◌==◌, if◌then◌else◌,
  ◌≡◌, refl, ap, arith,
}
use gem_macro_optimization.Base.Bits.{bit_and_mask}
use gem_macro_optimization.Base.Int.{ℤ, pos, negsuc, ◌+ℤ◌, ◌*ℤ◌, signed, wrap}
use gem_macro_optimization.Base.Words.{u64_mod, wrapping_add, wrapping_mul}
use gem_macro_optimization.Macros.Kind.{
  DspState, bypass, mult, mac, dsp_in_a, dsp_in_b, dsp_in_c, dsp_in_d, dsp_in_cep,
}
use gem_macro_optimization.Sim.Carry.{at}
use gem_macro_optimization.Sim.Dsp.{sext, p_mask, dsp_ad, dsp_m, dsp_alu, eval_dsp_next}
use gem_macro_optimization.Sim.Dsp.Fields.{field, field-lt, bits_to_u64-field, sext_low, sext_high}

-- A field, sign-extended, is the 64-bit pattern of the integer that it stands for.
sext-signed_27 : (v : ℕ) → v < 2 ^ 27 → sext v 27 ≡ wrap 64 (signed 27 v)
sext-signed_27 v h = ground (arith, sext_low 26 v, sext_high 26 v)

sext-signed_18 : (v : ℕ) → v < 2 ^ 18 → sext v 18 ≡ wrap 64 (signed 18 v)
sext-signed_18 v h = ground (arith, sext_low 17 v, sext_high 17 v)

sext-signed_48 : (v : ℕ) → v < 2 ^ 48 → sext v 48 ≡ wrap 64 (signed 48 v)
sext-signed_48 v h = ground (arith, sext_low 47 v, sext_high 47 v)

-- The pre-adder leaves the low 27 bits of the sum.
abbrev pub ad_field : ℕ → ℕ → Bool → ℕ
ad_field a d use_preadder =
    wrap 27 (if use_preadder then signed 27 a +ℤ signed 27 d else signed 27 a)

dsp_ad-field :
    (a d : ℕ) (pre : Bool)
    → a < 2 ^ 27
    → d < 2 ^ 27
    → dsp_ad (sext a 27) (sext d 27) pre ≡ sext (ad_field a d pre) 27
unfolding dsp_ad ◌+ℤ◌
dsp_ad-field a d true ha hd = ground (
  arith,
  bit_and_mask 27 (wrapping_add (sext a 27) (sext d 27)),
  sext-signed_27 a,
  sext-signed_27 d,
)
dsp_ad-field a d false ha hd = ground (arith, bit_and_mask 27 (sext a 27), sext-signed_27 a)

-- A product that fits 45 bits as a signed number survives the cut to 45 bits.
narrow_pos : (q : ℕ) → q < 2 ^ 44 → sext (q % 2 ^ 45) 45 ≡ q
narrow_pos q h = ground (arith, sext_low 44 q)

narrow_neg : (q : ℕ) → 0 < q → q ≤ 2 ^ 44 → sext ((u64_mod - q) % 2 ^ 45) 45 ≡ u64_mod - q
narrow_neg q g h = ground (arith, sext_high 44 ((u64_mod - q) % 2 ^ 45))

magnitude-le : (m n : ℕ) → m ≤ 2 ^ 26 → n ≤ 2 ^ 17 → m * n ≤ 2 ^ 43
magnitude-le m n hm hn = mul-le-mul hm hn

-- The pattern of -m times n, and of -m times -n.
mul_neg : (x m n : ℕ) → x + m ≡ u64_mod → x * n + m * n ≡ u64_mod * n
mul_neg x m n e = omega (arith, ap (λ (t : ℕ). t * n) e)

mul_neg_neg :
    (x y m n : ℕ) → x + m ≡ u64_mod → y + n ≡ u64_mod → x * y + m * u64_mod ≡ u64_mod * y + m * n
mul_neg_neg x y m n e f = omega (arith, mul_neg x m y e, ap (λ (t : ℕ). m * t) f)

-- The four cases of a product of signed magnitudes.
product_pos : (m n : ℕ) → m ≤ 2 ^ 26 → n ≤ 2 ^ 17 → dsp_m m n ≡ wrap 64 (pos m *ℤ pos n)
unfolding dsp_m ◌*ℤ◌
product_pos m n hm hn =
    ground (arith, magnitude-le m n, bit_and_mask 45 (wrapping_mul m n), narrow_pos (m * n))

product_neg_left :
    (x m n : ℕ)
    → x + suc m ≡ u64_mod
    → suc m ≤ 2 ^ 26
    → n ≤ 2 ^ 17
    → dsp_m x n ≡ wrap 64 (negsuc m *ℤ pos n)
unfolding dsp_m ◌*ℤ◌
product_neg_left x m n e hm hn = ground (
  arith,
  magnitude-le (suc m) n,
  mul_neg x (suc m) n,
  bit_and_mask 45 (wrapping_mul x n),
  narrow_neg (suc m * n),
  sext_low 44 0,
)

product_neg_right :
    (m y n : ℕ)
    → y + suc n ≡ u64_mod
    → m ≤ 2 ^ 26
    → suc n ≤ 2 ^ 17
    → dsp_m m y ≡ wrap 64 (pos m *ℤ negsuc n)
unfolding dsp_m ◌*ℤ◌
product_neg_right m y n f hm hn = ground (
  arith,
  magnitude-le m (suc n),
  mul_neg y (suc n) m,
  bit_and_mask 45 (wrapping_mul m y),
  narrow_neg (m * suc n),
  sext_low 44 0,
)

product_neg_neg :
    (x y m n : ℕ)
    → x + suc m ≡ u64_mod
    → y + suc n ≡ u64_mod
    → suc m ≤ 2 ^ 26
    → suc n ≤ 2 ^ 17
    → dsp_m x y ≡ wrap 64 (negsuc m *ℤ negsuc n)
unfolding dsp_m ◌*ℤ◌
product_neg_neg x y m n e f hm hn = ground (
  arith,
  magnitude-le (suc m) (suc n),
  mul_neg_neg x y (suc m) (suc n),
  bit_and_mask 45 (wrapping_mul x y),
  narrow_pos (suc m * suc n),
)

-- The signed product of 27 and 18 bits fits 45 bits, so the mask loses nothing.
dsp_m-signed :
    (x y : ℕ)
    → x < 2 ^ 27
    → y < 2 ^ 18
    → dsp_m (sext x 27) (sext y 18) ≡ wrap 64 (signed 27 x *ℤ signed 18 y)
dsp_m-signed x y hx hy = ground (
  arith,
  sext_low 26 x,
  sext_high 26 x,
  sext_low 17 y,
  sext_high 17 y,
  product_pos x y,
  product_neg_left (sext x 27) (2 ^ 27 - x - 1) y,
  product_neg_right x (sext y 18) (2 ^ 18 - y - 1),
  product_neg_neg (sext x 27) (sext y 18) (2 ^ 27 - x - 1) (2 ^ 18 - y - 1),
)

-- The integer that the DSP commits, before it is cut to 48 bits.
abbrev pub dsp_value : DspState → ℤ → ℤ → ℤ → ℤ
dsp_value bypass c m p = c
dsp_value mult c m p = m
dsp_value mac c m p = p +ℤ m

dsp_alu-value :
    (state : DspState) (c m p : ℤ)
    → bit_and (dsp_alu state (wrap 64 c) (wrap 64 m) (wrap 64 p)) p_mask
      ≡ wrap 48 (dsp_value state c m p)
unfolding dsp_alu ◌+ℤ◌
dsp_alu-value state c m p =
    ground (arith, bit_and_mask 48 (dsp_alu state (wrap 64 c) (wrap 64 m) (wrap 64 p)))

-- The specification: the DSP48E2 subset on integers, with the pre-adder cut to 27 bits.
abbrev pub dsp_spec : DspState → Bool → ℕ → ℕ → ℕ → ℕ → ℕ → ℕ
dsp_spec state use_preadder a b c d p = wrap 48 (
    dsp_value state (signed 48 c) (signed 27 (ad_field a d use_preadder) *ℤ signed 18 b)
      (signed 48 p))

ad_field-lt : (a d : ℕ) (pre : Bool) → ad_field a d pre < 2 ^ 27
unfolding ◌+ℤ◌
ad_field-lt a d true = ground arith
ad_field-lt a d false = ground arith

dsp_alu-spec :
    (state : DspState) (pre : Bool) (a b c d p : ℕ)
    → a < 2 ^ 27
    → b < 2 ^ 18
    → c < 2 ^ 48
    → d < 2 ^ 27
    → p < 2 ^ 48
    → bit_and
        (dsp_alu state
          (sext c 48)
          (dsp_m (dsp_ad (sext a 27) (sext d 27) pre) (sext b 18))
          (sext p 48))
        p_mask
      ≡ dsp_spec state pre a b c d p
dsp_alu-spec state pre a b c d p ha hb hc hd hp =
    rw
      (
        dsp_ad-field a d pre ha hd,
        dsp_m-signed (ad_field a d pre) b (ad_field-lt a d pre) hb,
        sext-signed_48 c hc,
        sext-signed_48 p hp,
      )
      (dsp_alu-value state (signed 48 c) (signed 27 (ad_field a d pre) *ℤ signed 18 b)
        (signed 48 p))

-- With the clock enable set, the next value of `P` is the DSP48E2 arithmetic on signed integers,
-- modulo 2^48: C, or AD × B, or P + AD × B, where AD is A or the 27-bit sum of A and D; with it
-- clear, `P` is kept.
pub eval_dsp_next-signed :
    (inp : List ℕ) (p : ℕ) (state : DspState) (pre : Bool)
    → p < 2 ^ 48
    → eval_dsp_next inp p state pre ≡ (
        if at inp dsp_in_cep % 2 == 0
        then p
        else dsp_spec state pre
            (field inp dsp_in_a 27)
            (field inp dsp_in_b 18)
            (field inp dsp_in_c 48)
            (field inp dsp_in_d 27)
            p)
unfolding eval_dsp_next
eval_dsp_next-signed inp p state pre hp =
    rw
      (
        bits_to_u64-field inp dsp_in_a 27 (omega arith),
        bits_to_u64-field inp dsp_in_b 18 (omega arith),
        bits_to_u64-field inp dsp_in_c 48 (omega arith),
        bits_to_u64-field inp dsp_in_d 27 (omega arith),
        dsp_alu-spec state pre (field inp dsp_in_a 27) (field inp dsp_in_b 18)
            (field inp dsp_in_c 48) (field inp dsp_in_d 27) p (field-lt inp dsp_in_a 27)
            (field-lt inp dsp_in_b 18) (field-lt inp dsp_in_c 48) (field-lt inp dsp_in_d 27) hp,
      )
      refl
