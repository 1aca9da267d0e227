-- ===== src/Flatten/Phase/Inputs.antt =====
-- src/flatten.rs: the codes of a lane's inputs.
use gem_macro_optimization.Base.{
  ℕ, zero, suc, ◌+◌, ◌/◌, ◌^◌, ◌≤◌, ◌<◌, Bool, true, false, List, [], ◌∷◌, Option, some, ok, length,
  length-set, get_elem?, get_or-set_self, get_or-set_ne, set, ◌≡◌, ◌≢◌, ◌⊎◌, refl, sym, ap, ◌∙◌,
  Bool-cases, inl, inr, arith,
}
use gem_macro_optimization.Base.Stores.{get_elem?-get_or}
use gem_macro_optimization.Macros.Inst.{MacroInst}
use gem_macro_optimization.Macros.Encode.{macro_encode_input, macro_decode_input}
use gem_macro_optimization.Macros.Encode.Codes.{literal_bit, IsRealised, code_of}
use gem_macro_optimization.Script.{at}
use gem_macro_optimization.Flatten.Phase.{is_scanned, encode_inputs}
use gem_macro_optimization.Flatten.Phase.Words.{AreCodes}

module _ (chain_start : Bool) (m : MacroInst) (pos_of : ℕ → Option ℕ) (rb val : ℕ → ℕ) where
  -- What the loop over `n` slots from `slot` on does to the codes.
  pub record EncodesInputs (slot n : ℕ) (codes codes' : List ℕ) : Type 0 where
    pub outside : (s : ℕ) → (s < slot) ⊎ (slot + n ≤ s) → at codes' s ≡ at codes s
    pub scanned : (s : ℕ) → is_scanned chain_start m.kind s ≡ true → at codes' s ≡ at codes s
    pub decoded :
        (s : ℕ)
        → slot ≤ s
        → s < slot + n
        → is_scanned chain_start m.kind s ≡ false
        → macro_decode_input (at codes' s) rb ≡ literal_bit val (at m.inputs s)
    pub sized : length codes' ≡ length codes
    pub fits : AreCodes codes → AreCodes codes'

  -- The pins of the slots that are gathered have their bits in the state.
  abbrev pub AreRealised : ℕ → ℕ → Type 0
  AreRealised slot n =
      (s : ℕ)
      → slot ≤ s
      → s < slot + n
      → is_scanned chain_start m.kind s ≡ false
      → IsRealised rb pos_of val (at m.inputs s / 2)

  nothing_encoded : (slot : ℕ) (codes : List ℕ) → EncodesInputs slot 0 codes codes
  nothing_encoded slot codes = record {
    outside = λ s out. refl;
    scanned = λ s scan. refl;
    decoded = λ s ge lt gath. absurd (omega arith);
    sized = refl;
    fits = λ h. h;
  }

  first_or_later : (slot s : ℕ) → slot ≤ s → (s ≡ slot) ⊎ (slot + 1 ≤ s)
  first_or_later slot s ge = ground arith

  false≢true : ◌≢◌ {A = Bool} false true
  false≢true e = cc

  skips :
      (slot n : ℕ) (codes codes' : List ℕ)
      → is_scanned chain_start m.kind slot ≡ true
      → EncodesInputs (slot + 1) n codes codes'
      → EncodesInputs slot (suc n) codes codes'
  skips slot n codes codes' scan r = record {
    outside = λ s out. r.outside s (ground arith);
    scanned = r.scanned;
    decoded = λ s ge lt gath. elim (first_or_later slot s ge) [
      | inl first ↦
          absurd
            (false≢true (sym gath ∙ ap (λ (t : ℕ). is_scanned chain_start m.kind t) first ∙ scan))
      | inr later ↦ r.decoded s later (omega arith) gath
    ];
    sized = r.sized;
    fits = r.fits;
  }

  codes-set :
      (codes : List ℕ) (slot code : ℕ)
      → code < 2 ^ 16
      → AreCodes codes
      → AreCodes (set codes slot code)
  codes-set [] slot code lt h i = h i
  codes-set (x ∷ codes) zero code lt h zero = lt
  codes-set (x ∷ codes) zero code lt h (suc i) = h (suc i)
  codes-set (x ∷ codes) (suc slot) code lt h zero = h 0
  codes-set (x ∷ codes) (suc slot) code lt h (suc i) =
      codes-set codes slot code lt (λ j. h (suc j)) i

  encodes :
      (slot n code : ℕ) (codes codes' : List ℕ)
      → slot < length codes
      → code < 2 ^ 16
      → is_scanned chain_start m.kind slot ≡ false
      → macro_decode_input code rb ≡ literal_bit val (at m.inputs slot)
      → EncodesInputs (slot + 1) n (set codes slot code) codes'
      → EncodesInputs slot (suc n) codes codes'
  encodes slot n code codes codes' here lt gath is_code r = record {
    outside =
        λ s out. r.outside s (ground arith) ∙ get_or-set_ne codes slot s code 0 (ground arith);
    scanned = λ s scan.
        r.scanned s scan
        ∙ get_or-set_ne codes slot s code 0 (λ same.
          false≢true (sym gath ∙ ap (λ (t : ℕ). is_scanned chain_start m.kind t) same ∙ scan));
    decoded = λ s ge more gath'. elim (first_or_later slot s ge) [
      | inl first ↦
          let same = r.outside slot (inl (omega arith)) ∙ get_or-set_self codes slot code 0 here in
          rw (first, same) is_code
      | inr later ↦ r.decoded s later (omega arith) gath'
    ];
    sized = r.sized ∙ length-set codes slot code;
    fits = λ h. r.fits (codes-set codes slot code lt h);
  }

  skip_step :
      (slot n : ℕ) (codes : List ℕ)
      → is_scanned chain_start m.kind slot ≡ true
      → encode_inputs chain_start m pos_of slot (suc n) codes
        ≡ encode_inputs chain_start m pos_of (slot + 1) n codes
  unfolding encode_inputs
  skip_step slot n codes scan = ground (arith, scan)

  encode_step :
      (slot n iv code : ℕ) (codes : List ℕ)
      → get_elem? m.inputs slot ≡ some iv
      → is_scanned chain_start m.kind slot ≡ false
      → macro_encode_input iv pos_of ≡ ok code
      → encode_inputs chain_start m pos_of slot (suc n) codes
        ≡ encode_inputs chain_start m pos_of (slot + 1) n (set codes slot code)
  unfolding encode_inputs
  encode_step slot n iv code codes found gath is_code = ground (arith, found, gath, is_code)

  -- With the inputs realised the loop returns.
  pub encode_inputs-EncodesInputs :
      (slot n : ℕ) (codes : List ℕ)
      → val 0 ≡ 0
      → slot + n ≤ length m.inputs
      → slot + n ≤ length codes
      → AreRealised slot n
      → (codes' : List ℕ) × (encode_inputs chain_start m pos_of slot n codes ≡ ok codes')
        × EncodesInputs slot n codes codes'
  unfolding encode_inputs
  encode_inputs-EncodesInputs slot zero codes z le fits real =
      (codes, refl, nothing_encoded slot codes)
  encode_inputs-EncodesInputs slot (suc n) codes z le fits real =
      let later_real : AreRealised (slot + 1) n =
        λ s ge lt gath. real s (omega arith) (omega arith) gath in
      elim (Bool-cases (is_scanned chain_start m.kind slot)) [
        | inl scan ↦
            let (codes', runs, r) =
              encode_inputs-EncodesInputs (slot + 1) n codes z (omega arith) (omega arith)
                later_real in
            (codes', skip_step slot n codes scan ∙ runs, skips slot n codes codes' scan r)
        | inr gath ↦
            let iv = at m.inputs slot in
            let found = get_elem?-get_or m.inputs slot (omega arith) in
            let (code, is_code, lt, means) =
              code_of iv rb pos_of val z (real slot (omega arith) (omega arith) gath) in
            let (codes', runs, r) =
              encode_inputs-EncodesInputs (slot + 1) n (set codes slot code) z (omega arith)
                (omega (arith, length-set codes slot code)) later_real in
            (
              codes',
              encode_step slot n iv code codes found gath is_code ∙ runs,
              encodes slot n code codes codes' (omega arith) lt gath means r,
            )
      ]
