-- ===== src/Flatten/Phase/Outputs.antt =====
-- src/flatten.rs: the positions that a lane's outputs get.
use gem_macro_optimization.Base.{
  ℕ, zero, suc, ◌+◌, ◌≤◌, ◌<◌, Bool, true, false, List, [], ◌∷◌, ◌++◌, some, ok, length, length-set,
  get_elem?, get_or, get_or-set_self, get_or-set_ne, set, ◌≡◌, ◌≢◌, ◌⊎◌, refl, sym, ap, ◌∙◌,
  Bool-cases, inl, inr, arith, ◌==◌,
}
use gem_macro_optimization.Base.Stores.{get_elem?-get_or}
use gem_macro_optimization.Macros.Inst.{MacroInst}
use gem_macro_optimization.Flatten.{Alloc, alloc_free_pos, num_positions}
use gem_macro_optimization.Flatten.Room.{is_taken, room, IsAlloc, alloc_free_pos-IsAlloc}
use gem_macro_optimization.Flatten.Phase.{Emit, has_no_pos, place_outputs}

false≢true : ◌≢◌ {A = Bool} false true
false≢true e = cc

-- The allocator has a whole occupancy map and `n` free positions at least.
pub record HasRoom (n : ℕ) (e : Emit) : Type 0 where
  pub sized : length e.occupancy ≡ num_positions
  pub cursor_le : e.cursor ≤ num_positions
  pub left : n ≤ room e.occupancy e.cursor

module _ (m : MacroInst) where
  -- The output slot has a position.
  abbrev pub IsPlaced : ℕ → Type 0
  IsPlaced s = has_no_pos m.kind s (get_or m.outputs s 0) ≡ false

  -- What the loop over `n` slots from `slot` on does: the slots with a position get free ones, in
  -- ascending order from the cursor on, and mark them taken.
  pub record PlacesOutputs (slot n : ℕ) (outs outs' : List ℕ) (e e' : Emit) : Type 0 where
    pub outside : (s : ℕ) → (s < slot) ⊎ (slot + n ≤ s) → get_or outs' s 0 ≡ get_or outs s 0
    pub skipped :
        (s : ℕ)
        → has_no_pos m.kind s (get_or m.outputs s 0) ≡ true
        → get_or outs' s 0 ≡ get_or outs s 0
    pub from : (s : ℕ) → slot ≤ s → s < slot + n → IsPlaced s → e.cursor ≤ get_or outs' s 0
    pub below : (s : ℕ) → slot ≤ s → s < slot + n → IsPlaced s → get_or outs' s 0 < e'.cursor
    pub free :
        (s : ℕ)
        → slot ≤ s
        → s < slot + n
        → IsPlaced s
        → is_taken e.occupancy (get_or outs' s 0) ≡ false
    pub marked :
        (s : ℕ)
        → slot ≤ s
        → s < slot + n
        → IsPlaced s
        → is_taken e'.occupancy (get_or outs' s 0) ≡ true
    pub ascending :
        (s t : ℕ)
        → slot ≤ s
        → s < t
        → t < slot + n
        → IsPlaced s
        → IsPlaced t
        → get_or outs' s 0 < get_or outs' t 0
    pub sized_outs : length outs' ≡ length outs
    pub same_script : e'.script ≡ e.script
    pub advanced : e.cursor ≤ e'.cursor
    pub kept_taken : (q : ℕ) → is_taken e.occupancy q ≡ true → is_taken e'.occupancy q ≡ true
    pub above : (q : ℕ) → e'.cursor ≤ q → is_taken e'.occupancy q ≡ is_taken e.occupancy q
    pub room_left : (k : ℕ) → HasRoom (n + k) e → HasRoom k e'

  -- The state after the allocation for a slot.
  abbrev placed_at : ℕ → Alloc → Emit → Emit
  placed_at pin a e = record e {
    occupancy = a.occupancy;
    cursor = a.cursor;
    newly = e.newly ++ (pin, a.pos) ∷ [];
  }

  keeps_place :
      (slot n : ℕ) (outs outs' : List ℕ) (e e' : Emit)
      → has_no_pos m.kind slot (get_or m.outputs slot 0) ≡ true
      → PlacesOutputs (slot + 1) n outs outs' e e'
      → PlacesOutputs slot (suc n) outs outs' e e'
  keeps_place slot n outs outs' e e' no_pos r = record {
    outside = λ s out. r.outside s (ground arith);
    skipped = r.skipped;
    from = λ s ge lt p. r.from s (ground arith) (omega arith) p;
    below = λ s ge lt p. r.below s (ground arith) (omega arith) p;
    free = λ s ge lt p. r.free s (ground arith) (omega arith) p;
    marked = λ s ge lt p. r.marked s (ground arith) (omega arith) p;
    ascending = λ s t ge st lt p q. r.ascending s t (ground arith) st (omega arith) p q;
    sized_outs = r.sized_outs;
    same_script = r.same_script;
    advanced = r.advanced;
    kept_taken = r.kept_taken;
    above = r.above;
    room_left = λ k h.
        r.room_left k
          (record { sized = h.sized; cursor_le = h.cursor_le; left = omega (arith, h.left) });
  }

  module _ (slot n : ℕ) (outs outs' : List ℕ) (pin : ℕ) (a : Alloc) (e e' : Emit)
      (here : slot < length outs) (h : IsAlloc e.occupancy e.cursor a)
      (sized : length e.occupancy ≡ num_positions)
      (r : PlacesOutputs (slot + 1) n (set outs slot a.pos) outs' (placed_at pin a e) e') where
    at_slot : get_or outs' slot 0 ≡ a.pos
    at_slot = r.outside slot (inl (omega arith)) ∙ get_or-set_self outs slot a.pos 0 here

    first_or_later : (s : ℕ) → slot ≤ s → (s ≡ slot) ⊎ (slot + 1 ≤ s)
    first_or_later s ge = ground arith

    marked_first : is_taken a.occupancy a.pos ≡ true
    marked_first =
        ap (λ (occ : List Bool). is_taken occ a.pos) h.marked
        ∙ get_or-set_self e.occupancy a.pos true false (omega (arith, h.below))

    same_elsewhere : (q : ℕ) → a.pos ≢ q → is_taken a.occupancy q ≡ is_taken e.occupancy q
    same_elsewhere q ne =
        ap (λ (occ : List Bool). is_taken occ q) h.marked
        ∙ get_or-set_ne e.occupancy a.pos q true false ne

    takes_place :
        has_no_pos m.kind slot (get_or m.outputs slot 0) ≡ false
        → PlacesOutputs slot (suc n) outs outs' e e'
    takes_place has_pos = record {
      outside =
          λ s out. r.outside s (ground arith) ∙ get_or-set_ne outs slot s a.pos 0 (ground arith);
      skipped = λ s no.
          r.skipped s no
          ∙ get_or-set_ne outs slot s a.pos 0 (λ same.
            let moved = ap (λ (t : ℕ). has_no_pos m.kind t (get_or m.outputs t 0)) same in
            false≢true (sym has_pos ∙ moved ∙ no));
      from = λ s ge lt p. elim (first_or_later s ge) [
        | inl first ↦ rw first (rw at_slot h.from)
        | inr later ↦ omega (arith, r.from s later, h.past, h.from)
      ];
      below = λ s ge lt p. elim (first_or_later s ge) [
        | inl first ↦ rw first (omega (arith, at_slot, r.advanced, h.past))
        | inr later ↦ r.below s later (omega arith) p
      ];
      free = λ s ge lt p. elim (first_or_later s ge) [
        | inl first ↦ rw first (rw at_slot h.free)
        | inr later ↦
            sym (same_elsewhere (get_or outs' s 0) (λ same. omega (arith, r.from s later, h.past)))
            ∙ r.free s later (omega arith) p
      ];
      marked = λ s ge lt p. elim (first_or_later s ge) [
        | inl first ↦ rw first (rw at_slot (r.kept_taken a.pos marked_first))
        | inr later ↦ r.marked s later (omega arith) p
      ];
      ascending = λ s t ge st lt p q. elim (first_or_later s ge) [
        | inl first ↦
            rw first (omega (arith, at_slot, h.past, r.from t (omega arith) (omega arith) q))
        | inr later ↦ r.ascending s t later st (omega arith) p q
      ];
      sized_outs = r.sized_outs ∙ length-set outs slot a.pos;
      same_script = r.same_script;
      advanced = omega (arith, r.advanced, h.past, h.from);
      kept_taken = λ q taken. r.kept_taken q (elim (Bool-cases (a.pos == q)) [
        | inl same ↦ let e : a.pos ≡ q = ground arith in rw (← e) marked_first
        | inr other ↦ same_elsewhere q (λ e. ground arith) ∙ taken
      ]);
      above = λ q ge. r.above q ge ∙ same_elsewhere q (λ same. omega (arith, r.advanced, h.past));
      room_left = λ k room_e. r.room_left k (record {
        sized =
            ap (λ (occ : List Bool). length occ) h.marked
            ∙ length-set e.occupancy a.pos true
            ∙ sized;
        cursor_le = omega (arith, h.past, h.below);
        left = omega (arith, h.room_left, room_e.left);
      });
    }

  nothing_placed : (slot : ℕ) (outs : List ℕ) (e : Emit) → PlacesOutputs slot 0 outs outs e e
  nothing_placed slot outs e = record {
    outside = λ s out. refl;
    skipped = λ s no. refl;
    from = λ s ge lt p. absurd (omega arith);
    below = λ s ge lt p. absurd (omega arith);
    free = λ s ge lt p. absurd (omega arith);
    marked = λ s ge lt p. absurd (omega arith);
    ascending = λ s t ge st lt p q. absurd (omega arith);
    sized_outs = refl;
    same_script = refl;
    advanced = omega arith;
    kept_taken = λ q taken. taken;
    above = λ q ge. refl;
    room_left =
        λ k h. record { sized = h.sized; cursor_le = h.cursor_le; left = omega (arith, h.left) };
  }

  skip_step :
      (slot n pin : ℕ) (outs : List ℕ) (e : Emit)
      → get_elem? m.outputs slot ≡ some pin
      → has_no_pos m.kind slot pin ≡ true
      → place_outputs m slot (suc n) outs e ≡ place_outputs m (slot + 1) n outs e
  unfolding place_outputs
  skip_step slot n pin outs e found no_pos = ground (arith, found, no_pos)

  place_step :
      (slot n pin : ℕ) (outs : List ℕ) (e : Emit) (a : Alloc)
      → get_elem? m.outputs slot ≡ some pin
      → has_no_pos m.kind slot pin ≡ false
      → alloc_free_pos e.occupancy e.cursor ≡ ok a
      → place_outputs m slot (suc n) outs e
        ≡ place_outputs m (slot + 1) n (set outs slot a.pos) (placed_at pin a e)
  unfolding place_outputs
  place_step slot n pin outs e a found has_pos allocates = ground (arith, found, has_pos, allocates)

  -- With room for every slot the loop returns.
  pub place_outputs-PlacesOutputs :
      (slot n : ℕ) (outs : List ℕ) (e : Emit)
      → slot + n ≤ length m.outputs
      → slot + n ≤ length outs
      → HasRoom n e
      → (outs' : List ℕ) × (e' : Emit) × (place_outputs m slot n outs e ≡ ok (outs', e'))
        × PlacesOutputs slot n outs outs' e e'
  unfolding place_outputs
  place_outputs-PlacesOutputs slot zero outs e le fits has_room =
      (outs, e, refl, nothing_placed slot outs e)
  place_outputs-PlacesOutputs slot (suc n) outs e le fits has_room =
      let pin = get_or m.outputs slot 0 in
      let found = get_elem?-get_or m.outputs slot (omega arith) in
      elim (Bool-cases (has_no_pos m.kind slot pin)) [
        | inl no_pos ↦
            let less : HasRoom n e = record {
              sized = has_room.sized;
              cursor_le = has_room.cursor_le;
              left = omega (arith, has_room.left);
            } in
            let (outs', e', runs, places) =
              place_outputs-PlacesOutputs (slot + 1) n outs e (omega arith) (omega arith) less in
            (
              outs',
              e',
              skip_step slot n pin outs e found no_pos ∙ runs,
              keeps_place slot n outs outs' e e' no_pos places,
            )
        | inr has_pos ↦
            let (a, allocates, is_alloc) =
              alloc_free_pos-IsAlloc e.occupancy e.cursor has_room.cursor_le
                (omega (arith, has_room.left)) in
            let less : HasRoom n (placed_at pin a e) = record {
              sized =
                  ap (λ (occ : List Bool). length occ) is_alloc.marked
                  ∙ length-set e.occupancy a.pos true
                  ∙ has_room.sized;
              cursor_le = omega (arith, is_alloc.past, is_alloc.below);
              left = omega (arith, is_alloc.room_left, has_room.left);
            } in
            let (outs', e', runs, places) =
              place_outputs-PlacesOutputs (slot + 1) n (set outs slot a.pos) (placed_at pin a e)
                (omega arith) (omega (arith, length-set outs slot a.pos)) less in
            (
              outs',
              e',
              place_step slot n pin outs e a found has_pos allocates ∙ runs,
              takes_place slot n outs outs' pin a e e' (omega arith) is_alloc has_room.sized places
                  has_pos,
            )
      ]
