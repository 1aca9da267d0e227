-- ===== src/Aig/Endpoints/Ranges.antt =====
-- src/aig.rs: the ranges of the endpoint ids.
use gem_macro_optimization.Base.{
  ℕ, zero, suc, ◌+◌, ◌-◌, ◌≤◌, ◌<◌, false, Option, none, some, List, [], ◌∷◌, length-append,
  length-map, map, ◌++◌, if◌then◌else◌, Outcome, ok, panic, ◌>>=◌, unwrap, ltb, length, get_elem?,
  ◌≡◌, refl, ap, ◌∙◌, Bool-cases, inl, inr, AllBelow, arith,
}
use gem_macro_optimization.Aig.{Aig}
use gem_macro_optimization.Aig.Endpoints.{
  EndpointGroup, primary_output, dff_group, ram_block, macro_group, num_endpoint_groups,
  get_endpoint_group, macro_endpoint_id,
}

-- `stateful_macros` holds positions in `macros`.
abbrev pub StatefulInRange : Aig → Type 0
StatefulInRange aig = AllBelow (length aig.macros) aig.stateful_macros

pub get_elem?-inside :
    {A : Type 0} (xs : List A) (i : ℕ) → i < length xs → (x : A) × (get_elem? xs i ≡ some x)
get_elem?-inside [] i h = absurd (omega arith)
get_elem?-inside (x ∷ xs) zero h = (x, refl)
get_elem?-inside (x ∷ xs) (suc i) h = get_elem?-inside xs i (omega arith)

pub get_elem?-outside : {A : Type 0} (xs : List A) (i : ℕ) → length xs ≤ i → get_elem? xs i ≡ none
get_elem?-outside [] i h = refl
get_elem?-outside (x ∷ xs) zero h = absurd (omega arith)
get_elem?-outside (x ∷ xs) (suc i) h = get_elem?-outside xs i (omega arith)

-- The endpoint groups as one list; a position in `macros` that is out of range is a panic.
abbrev pub macro_at : Aig → ℕ → Outcome EndpointGroup
macro_at aig macro_i = unwrap (get_elem? aig.macros macro_i) >>= λ entry. ok (macro_group entry.1)

abbrev macro_groups : Aig → List (Outcome EndpointGroup)
macro_groups aig = map (macro_at aig) aig.stateful_macros

abbrev sram_groups : Aig → List (Outcome EndpointGroup)
sram_groups aig = map (λ entry. ok (ram_block entry.1)) aig.srams ++ macro_groups aig

abbrev dff_groups : Aig → List (Outcome EndpointGroup)
dff_groups aig = map (λ entry. ok (dff_group entry.1)) aig.dffs ++ sram_groups aig

abbrev pub group_list : Aig → List (Outcome EndpointGroup)
group_list aig = map (λ pin. ok (primary_output pin)) aig.primary_outputs ++ dff_groups aig

-- The element of a list of outcomes at a position.
abbrev pub pick : List (Outcome EndpointGroup) → ℕ → Outcome EndpointGroup
pick gs i = unwrap (get_elem? gs i) >>= λ g. g

ltb-suc : (i n : ℕ) → ltb (suc i) (suc n) ≡ ltb i n
ltb-suc i n = ground arith

pub pick-append :
    {A : Type 0} (f : A → Outcome EndpointGroup) (xs : List A) (rest : List (Outcome EndpointGroup))
    (i : ℕ)
    → pick (map f xs ++ rest) i
      ≡ (if ltb i (length xs) then (unwrap (get_elem? xs i) >>= f) else pick rest (i - length xs))
pick-append f [] rest i = ground arith
pick-append f (x ∷ xs) rest zero = ground arith
pick-append f (x ∷ xs) rest (suc i) =
    let less : suc i - suc (length xs) ≡ i - length xs = omega arith in
    rw (ltb-suc i (length xs), less) (pick-append f xs rest i)

pub pick-map :
    {A : Type 0} (f : A → Outcome EndpointGroup) (xs : List A) (i : ℕ)
    → pick (map f xs) i ≡ (unwrap (get_elem? xs i) >>= f)
pick-map f [] i = refl
pick-map f (x ∷ xs) zero = refl
pick-map f (x ∷ xs) (suc i) = pick-map f xs i

-- On every id, in range or not, `get_endpoint_group` gives the entry of the list of all groups, in
-- which the primary outputs come first, then the DFFs, the RAM blocks and the stateful macros, and
-- panics where there is none.
pub get_endpoint_group-group_list :
    (aig : Aig) (i : ℕ) → get_endpoint_group aig i ≡ pick (group_list aig) i
unfolding get_endpoint_group
get_endpoint_group-group_list aig i =
    let po = length aig.primary_outputs in
    let dff = length aig.dffs in
    let sram = length aig.srams in
    let second : ltb i po ≡ false → ltb (i - po) dff ≡ ltb i (po + dff) = λ h. ground arith in
    let third : ltb i po ≡ false
        → ltb i (po + dff) ≡ false
        → ltb (i - po - dff) sram ≡ ltb i (po + dff + sram) =
      λ h k. ground arith in
    let first =
      pick-append (λ pin. ok (primary_output pin)) aig.primary_outputs (dff_groups aig) i in
    let next = pick-append (λ entry. ok (dff_group entry.1)) aig.dffs (sram_groups aig) (i - po) in
    let last =
      pick-append (λ entry. ok (ram_block entry.1)) aig.srams (macro_groups aig) (i - po - dff) in
    let macros = pick-map (macro_at aig) aig.stateful_macros (i - po - dff - sram) in
    elim (Bool-cases (ltb i po)) [
      | inl at_po ↦ rw (get_endpoint_group, first, at_po) refl
      | inr no_po ↦ elim (Bool-cases (ltb i (po + dff))) [
        | inl at_dff ↦ rw (get_endpoint_group, first, no_po, next, second no_po, at_dff) refl
        | inr no_dff ↦
            rw
              (
                get_endpoint_group,
                first,
                no_po,
                next,
                second no_po,
                no_dff,
                last,
                third no_po no_dff,
                macros,
              )
              refl
      ]
    ]

num_endpoint_groups-length : (aig : Aig) → num_endpoint_groups aig ≡ length (group_list aig)
unfolding num_endpoint_groups
num_endpoint_groups-length aig =
    let po =
      length-append (map (λ pin. ok (primary_output pin)) aig.primary_outputs) (dff_groups aig) in
    let dff = length-append (map (λ entry. ok (dff_group entry.1)) aig.dffs) (sram_groups aig) in
    let sram = length-append (map (λ entry. ok (ram_block entry.1)) aig.srams) (macro_groups aig) in
    omega (
      arith,
      po,
      dff,
      sram,
      length-map (λ pin. ok (primary_output pin)) aig.primary_outputs,
      length-map (λ entry. ok (dff_group entry.1)) aig.dffs,
      length-map (λ entry. ok (ram_block entry.1)) aig.srams,
      length-map (macro_at aig) aig.stateful_macros,
    )

pub get_endpoint_group-panic :
    (aig : Aig) (i : ℕ) → num_endpoint_groups aig ≤ i → get_endpoint_group aig i ≡ panic
get_endpoint_group-panic aig i h =
    get_endpoint_group-group_list aig i
    ∙ ap (λ (o : Option (Outcome EndpointGroup)). unwrap o >>= λ g. g)
        (get_elem?-outside (group_list aig) i (omega (arith, num_endpoint_groups-length aig)))

-- No entry of the list panics.
abbrev AllOk : List (Outcome EndpointGroup) → Type 0
AllOk [] = Unit
AllOk (g ∷ gs) = ((e : EndpointGroup) × (g ≡ ok e)) × AllOk gs

AllOk-map :
    {A : Type 0} (f : A → EndpointGroup) (xs : List A) (rest : List (Outcome EndpointGroup))
    → AllOk rest
    → AllOk (map (λ x. ok (f x)) xs ++ rest)
AllOk-map f [] rest h = h
AllOk-map f (x ∷ xs) rest h = ((f x, refl), AllOk-map f xs rest h)

AllOk-macros :
    (aig : Aig) (xs : List ℕ) → AllBelow (length aig.macros) xs → AllOk (map (macro_at aig) xs)
AllOk-macros aig [] h = tt
AllOk-macros aig (x ∷ xs) h =
    let (entry, found) = get_elem?-inside aig.macros x h.0 in
    ((macro_group entry.1, rw found refl), AllOk-macros aig xs h.1)

pick-AllOk :
    (gs : List (Outcome EndpointGroup)) (i : ℕ)
    → AllOk gs
    → i < length gs
    → (e : EndpointGroup) × (pick gs i ≡ ok e)
pick-AllOk [] i all h = absurd (omega arith)
pick-AllOk (g ∷ gs) zero all h = all.0
pick-AllOk (g ∷ gs) (suc i) all h = pick-AllOk gs i all.1 (omega arith)

-- Where the positions of the stateful macros are in range, the ids below `num_endpoint_groups` are
-- those that have a group; for every other id the code panics.
pub get_endpoint_group-total :
    (aig : Aig) (i : ℕ)
    → StatefulInRange aig
    → (i < num_endpoint_groups aig → (e : EndpointGroup) × (get_endpoint_group aig i ≡ ok e))
      × (num_endpoint_groups aig ≤ i → get_endpoint_group aig i ≡ panic)
get_endpoint_group-total aig i in_range =
    let groups = group_list aig in
    let same = get_endpoint_group-group_list aig i in
    let all = AllOk-map primary_output aig.primary_outputs (dff_groups aig) (
      AllOk-map (λ entry. dff_group entry.1) aig.dffs (sram_groups aig)
        (AllOk-map (λ entry. ram_block entry.1) aig.srams (macro_groups aig)
          (AllOk-macros aig aig.stateful_macros in_range))) in
    (
      λ h.
          let (e, picks) =
            pick-AllOk groups i all (omega (arith, num_endpoint_groups-length aig)) in
          (e, same ∙ picks),
      get_endpoint_group-panic aig i,
    )

-- The id of a stateful macro is that of its group: the group of the macro that its position in
-- `stateful_macros` names.
pub macro_endpoint_id-macro_at :
    (aig : Aig) (j : ℕ)
    → get_endpoint_group aig (macro_endpoint_id aig j)
      ≡ (unwrap (get_elem? aig.stateful_macros j) >>= macro_at aig)
unfolding get_endpoint_group macro_endpoint_id
macro_endpoint_id-macro_at aig j =
    let po = length aig.primary_outputs in
    let dff = length aig.dffs in
    let sram = length aig.srams in
    let id = po + dff + sram + j in
    let no_po : ltb id po ≡ false = ground arith in
    let no_dff : ltb id (po + dff) ≡ false = ground arith in
    let no_sram : ltb id (po + dff + sram) ≡ false = ground arith in
    let rest : id - po - dff - sram ≡ j = omega arith in
    rw (get_endpoint_group, macro_endpoint_id, no_po, no_dff, no_sram, rest) refl
