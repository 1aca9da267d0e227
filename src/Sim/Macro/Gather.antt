-- ===== src/Sim/Macro/Gather.antt =====
-- src/bin/naive_sim.rs: what `macro_gather_inputs` leaves in each input slot.
use gem_macro_optimization.Base.{
  ℕ, zero, suc, ◌+◌, ◌%◌, ◌<◌, List, [], ◌∷◌, ◌++◌, map, range, range_from, set, get_or, length,
  length-map, length-range_from, length-set, get_or-set_self, get_or-set_ne, some, ◌≡◌, ◌≢◌, refl,
  ap, sym, ◌∙◌, inl, inr, Option-cases, arith,
}
use gem_macro_optimization.Macros.Kind.{MacroKind, num_inputs, default_input}
use gem_macro_optimization.Macros.Slots.{input_slot}
use gem_macro_optimization.Macros.Slots.Inverse.{input_slot_iff}
use gem_macro_optimization.Sim.Macro.{CellPin, gather_pins, macro_gather_inputs}

-- No pin of the list has the slot.
abbrev pub NoPinAt : MacroKind → ℕ → List CellPin → Type 0
NoPinAt kind s [] = Unit
NoPinAt kind s (pin ∷ pins) = (input_slot kind pin.name pin.bit ≢ some s) × NoPinAt kind s pins

get_or-map_range :
    (f : ℕ → ℕ) (lo n s : ℕ) → s < n → get_or (map f (range_from lo n)) s 0 ≡ f (lo + s)
get_or-map_range f lo zero s h = absurd (omega arith)
get_or-map_range f lo (suc n) zero h = ap f (omega arith)
get_or-map_range f lo (suc n) (suc s) h =
    get_or-map_range f (lo + 1) n s (omega arith) ∙ ap f (omega arith)

module _ (kind : MacroKind) where
  length-gather : (pins : List CellPin) (v : List ℕ) → length (gather_pins kind pins v) ≡ length v
  unfolding gather_pins
  length-gather [] v = refl
  length-gather (pin ∷ pins) v = elim (Option-cases (input_slot kind pin.name pin.bit)) [
    | inl none_at ↦ rw (gather_pins, none_at) (length-gather pins v)
    | inr (s, at_s) ↦
        rw (gather_pins, at_s)
          (length-gather pins (set v s (pin.value % 2)) ∙ length-set v s (pin.value % 2))
  ]

  gather-other :
      (pins : List CellPin) (v : List ℕ) (s : ℕ)
      → NoPinAt kind s pins
      → get_or (gather_pins kind pins v) s 0 ≡ get_or v s 0
  unfolding gather_pins
  gather-other [] v s no_pin = refl
  gather-other (pin ∷ pins) v s (not_here, no_pin) =
      elim (Option-cases (input_slot kind pin.name pin.bit)) [
        | inl none_at ↦ rw (gather_pins, none_at) (gather-other pins v s no_pin)
        | inr (t, at_t) ↦
            let ne : t ≢ s = λ e. not_here (at_t ∙ ap some e) in
            rw (gather_pins, at_t)
              (gather-other pins (set v t (pin.value % 2)) s no_pin
                ∙ get_or-set_ne v t s (pin.value % 2) 0 ne)
      ]

  gather-last :
      (before after : List CellPin) (pin : CellPin) (v : List ℕ) (s : ℕ)
      → input_slot kind pin.name pin.bit ≡ some s
      → NoPinAt kind s after
      → s < length v
      → get_or (gather_pins kind (before ++ pin ∷ after) v) s 0 ≡ pin.value % 2
  unfolding gather_pins
  gather-last [] after pin v s at_s no_pin lt =
      rw (gather_pins, at_s)
        (gather-other after (set v s (pin.value % 2)) s no_pin
          ∙ get_or-set_self v s (pin.value % 2) 0 lt)
  gather-last (p ∷ before) after pin v s at_s no_pin lt =
      elim (Option-cases (input_slot kind p.name p.bit)) [
        | inl none_at ↦ rw (gather_pins, none_at) (gather-last before after pin v s at_s no_pin lt)
        | inr (t, at_t) ↦
            rw (gather_pins, at_t)
              (gather-last before after pin (set v t (p.value % 2)) s at_s no_pin
                (omega (arith, length-set v t (p.value % 2))))
      ]

-- What a vector of inputs gathered from the pins of a cell is: it has a bit for each input slot;
-- the last pin with a slot decides it, and a slot that no pin has keeps its default.
pub record IsGathered (kind : MacroKind) (pins : List CellPin) (inp : List ℕ) : Type 0 where
  pub sized : length inp ≡ num_inputs kind
  pub from_pin :
      (before after : List CellPin) (pin : CellPin) (s : ℕ)
      → (before ++ pin ∷ after) ≡ pins
      → input_slot kind pin.name pin.bit ≡ some s
      → NoPinAt kind s after
      → get_or inp s 0 ≡ pin.value % 2
  pub from_default :
      (s : ℕ)
      → s < num_inputs kind
      → NoPinAt kind s pins
      → get_or inp s 0 ≡ default_input kind s % 2

-- The inputs of a macro are gathered from the pins of its cell: one bit for each input slot, which
-- is the low bit of the last pin that has the slot, or the slot's default if no pin has it.
pub macro_gather_inputs-IsGathered :
    (kind : MacroKind) (pins : List CellPin) → IsGathered kind pins (macro_gather_inputs kind pins)
unfolding macro_gather_inputs
macro_gather_inputs-IsGathered kind pins =
    let defaults = map (λ (s : ℕ). default_input kind s % 2) (range (num_inputs kind)) in
    let sized_defaults : length defaults ≡ num_inputs kind =
      length-map (λ (s : ℕ). default_input kind s % 2) (range (num_inputs kind))
      ∙ length-range_from 0 (num_inputs kind) in
    record {
      sized = length-gather kind pins defaults ∙ sized_defaults;
      from_pin = λ before after pin s split at_s no_pin.
          let (below, _, _) = (input_slot_iff kind pin.name pin.bit s).0 at_s in
          ap (λ (ps : List CellPin). get_or (gather_pins kind ps defaults) s 0) (sym split)
          ∙ gather-last kind before after pin defaults s at_s no_pin
              (omega (arith, sized_defaults));
      from_default = λ s lt no_pin.
          gather-other kind pins defaults s no_pin
          ∙ get_or-map_range (λ (t : ℕ). default_input kind t % 2) 0 (num_inputs kind) s lt
          ∙ ap (λ (t : ℕ). default_input kind t % 2) (omega arith);
    }
