-- ===== src/Flatten/Flags/Value.antt =====
-- src/pe.rs, src/flatten.rs and src/bin/flatten_test.rs: the bit of a place of the hierarchy is that of
-- its pin.
use mathlib.Core.Path.{subst}
use gem_macro_optimization.Base.{
  ok-injective, ap₂, ℕ, zero, suc, ◌+◌, ◌*◌, ◌/◌, ◌%◌, ◌≤◌, ◌<◌, Bool, true, false, not, ◌&&◌, ◌||◌,
  List, [], ◌∷◌, some, ok, ◌==◌, length, get_elem?, get_or, ◌≡◌, inl, inr, refl, sym, ap, ◌∙◌,
  arith, Bool-cases,
}
use gem_macro_optimization.Aig.{Aig, DriverType, and_gate, tie0, driver, usize_max}
use gem_macro_optimization.Aig.Meaning.{lit, driven, Models, OperandsBefore, IsWellFormed}
use gem_macro_optimization.Pe.Boomerang.Tree.{node, IsTree}
use gem_macro_optimization.Flatten.Flags.{Flags, node_flags, xor_flag, combine, hier_bit}

-- The flags of the places of levels `h`, …, 1 are those that the formatter gives them.
abbrev pub AreFlags : Aig → List (List ℕ) → (ℕ → ℕ → Flags) → ℕ → ℕ → Type 0
AreFlags aig hier flags zero w = Unit
AreFlags aig hier flags (suc h) w =
    ((p : ℕ)
      → p < w
      → node_flags aig (node hier (suc h) p) (node hier h p) (node hier h (p + w))
        ≡ ok (flags (suc h) p))
    × AreFlags aig hier flags h (2 * w)

module _ (aig : Aig) (leaf val : ℕ → Bool) (wf : IsWellFormed aig) (models : Models leaf aig val)
    (few : aig.num_aigpins < usize_max) where
  passes_down :
      (nd b : ℕ) (f : Flags) (v w : Bool)
      → nd ≤ aig.num_aigpins
      → node_flags aig nd nd b ≡ ok f
      → combine f v w ≡ v
  unfolding node_flags
  passes_down nd b f v w le e =
      let real : (nd == usize_max) ≡ false = ground arith in
      let self : (nd == nd) ≡ true = ground arith in
      let is_f : ◌≡◌ {A = Flags} (record { xora = false; xorb = false; orb = true }) f =
        ok-injective (rw (real, self) at e) in
      rw (← is_f) (or_true v w)
    where
      or_true : (v w : Bool) → (v && (w || true)) ≡ v
      or_true true true = refl
      or_true true false = refl
      or_true false true = refl
      or_true false false = refl

  gate-there :
      (nd a b : ℕ)
      → driver aig nd ≡ and_gate a b
      → (nd < length aig.drivers) × (get_elem? aig.drivers nd ≡ some (and_gate a b))
  gate-there nd a b e = in_list aig.drivers nd e
    where
      in_list :
          (ds : List DriverType) (i : ℕ)
          → get_or ds i tie0 ≡ and_gate a b
          → (i < length ds) × (get_elem? ds i ≡ some (and_gate a b))
      in_list [] i e' = cc
      in_list (d ∷ ds) zero e' = (omega arith, ap some e')
      in_list (d ∷ ds) (suc i) e' = let (lt, there) = in_list ds i e' in (omega arith, there)

  gate_flags : ℕ → ℕ → Flags
  gate_flags a b = record { xora = not (a % 2 == 0); xorb = not (b % 2 == 0); orb = false }

  node_flags-gate :
      (nd a b : ℕ)
      → nd ≤ aig.num_aigpins
      → driver aig nd ≡ and_gate a b
      → a / 2 < nd
      → node_flags aig nd (a / 2) (b / 2) ≡ ok (gate_flags a b)
  unfolding node_flags gate_flags
  node_flags-gate nd a b le gate less =
      let (lt, there) = gate-there nd a b gate in
      let real : (nd == usize_max) ≡ false = ground arith in
      let lower : (nd == (a / 2)) ≡ false = ground arith in
      let self_a : ((a / 2) == (a / 2)) ≡ true = ground arith in
      let self_b : ((b / 2) == (b / 2)) ≡ true = ground arith in
      rw (real, lower, there, self_a, self_b) refl

  xor_flag-lit : (a : ℕ) → xor_flag (val (a / 2)) (not (a % 2 == 0)) ≡ lit val a
  xor_flag-lit a = elim (Bool-cases (a % 2 == 0)) [
    | inl even ↦ rw even refl
    | inr odd ↦ rw odd refl
  ]

  or_false : (v : Bool) → (v || false) ≡ v
  or_false true = refl
  or_false false = refl

  operands_before :
      (nd a b : ℕ)
      → nd ≤ aig.num_aigpins
      → driver aig nd ≡ and_gate a b
      → (2 ≤ a) × (a ≤ b) × (b / 2 < nd)
  operands_before nd a b le gate = subst (OperandsBefore nd) gate (wf.ordered nd le)

  combines :
      (nd a b : ℕ) (f : Flags)
      → nd ≤ aig.num_aigpins
      → driver aig nd ≡ and_gate a b
      → node_flags aig nd (a / 2) (b / 2) ≡ ok f
      → combine f (val (a / 2)) (val (b / 2)) ≡ val nd
  combines nd a b f le gate e =
      let (two, in_order, less) = operands_before nd a b le gate in
      let flags : gate_flags a b ≡ f =
        ok-injective (sym (node_flags-gate nd a b le gate (omega arith)) ∙ e) in
      let means : val nd ≡ lit val a && lit val b =
        models nd le ∙ ap (λ (d : DriverType). driven leaf val nd d) gate in
      let both : combine (gate_flags a b) (val (a / 2)) (val (b / 2)) ≡ lit val a && lit val b =
        unfold gate_flags in
        ap₂ (λ (x y : Bool). x && y) (xor_flag-lit a) (or_false _ ∙ xor_flag-lit b) in
      rw (← flags) (both ∙ sym means)

  root :
      (level : List ℕ) (id2order : List (ℕ × ℕ)) (hier : List (List ℕ)) (h w j nd : ℕ)
      → IsTree aig level id2order hier h w j nd
      → node hier h j ≡ nd
  root level id2order hier zero w j nd t = t.0
  root level id2order hier (suc h) w j nd t = t.0

  -- In a well-formed graph, a place of the hierarchy that has a pin's tree gets the
  -- pin's bit in the model, where the flags are those that the formatter computes for the places
  -- and each place of level 0 that has a pin of the graph holds the pin's bit.
  pub hier_bit-val :
      (level : List ℕ) (id2order : List (ℕ × ℕ)) (hier : List (List ℕ)) (flags : ℕ → ℕ → Flags)
      (inputs : ℕ → Bool) (h w j nd : ℕ)
      → 0 < w
      → j < w
      → nd ≤ aig.num_aigpins
      → AreFlags aig hier flags h w
      → ((p pin : ℕ) → pin ≤ aig.num_aigpins → node hier 0 p ≡ pin → inputs p ≡ val pin)
      → IsTree aig level id2order hier h w j nd
      → hier_bit flags inputs h w j ≡ val nd
  unfolding hier_bit
  hier_bit-val level id2order hier flags inputs zero w j nd pos lt le are_flags gathered t =
      gathered j nd le t.0
  hier_bit-val level id2order hier flags inputs (suc h) w j nd pos lt le are_flags gathered
        (here, inl (_, _, _, down)) =
      let bits =
        hier_bit-val level id2order hier flags inputs h (2 * w) j nd (omega arith) (omega arith) le
          are_flags.1 gathered down in
      let below = root level id2order hier h (2 * w) j nd down in
      let flagged : node_flags aig nd nd (node hier h (j + w)) ≡ ok (flags (suc h) j) =
        ap₂ (λ (x y : ℕ). node_flags aig x y (node hier h (j + w))) (sym here) (sym below)
        ∙ are_flags.0 j lt in
      passes_down nd (node hier h (j + w)) (flags (suc h) j) _ _ le flagged ∙ bits
  hier_bit-val level id2order hier flags inputs (suc h) w j nd pos lt le are_flags gathered
        (here, inr (a, b, _, gate, left, right)) =
      let (two, in_order, less) = operands_before nd a b le gate in
      let bits_a =
        hier_bit-val level id2order hier flags inputs h (2 * w) j (a / 2) (omega arith)
          (omega arith) (omega arith) are_flags.1 gathered left in
      let bits_b =
        hier_bit-val level id2order hier flags inputs h (2 * w) (j + w) (b / 2) (omega arith)
          (omega arith) (omega arith) are_flags.1 gathered right in
      let at_a = root level id2order hier h (2 * w) j (a / 2) left in
      let at_b = root level id2order hier h (2 * w) (j + w) (b / 2) right in
      let flagged : node_flags aig nd (a / 2) (b / 2) ≡ ok (flags (suc h) j) =
        ap₂ (λ (x y : ℕ). node_flags aig x y (b / 2)) (sym here) (sym at_a)
        ∙ ap (λ (x : ℕ). node_flags aig (node hier (suc h) j) (node hier h j) x) (sym at_b)
        ∙ are_flags.0 j lt in
      ap₂ (λ (x y : Bool). combine (flags (suc h) j) x y) bits_a bits_b
      ∙ combines nd a b (flags (suc h) j) le gate flagged
