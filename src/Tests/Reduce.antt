-- ===== src/Tests/Reduce.antt =====
-- Tests of the reduction of a boomerang stage.
use gem_macro_optimization.Base.{
  ℕ, zero, suc, ◌+◌, ◌*◌, ◌-◌, ◌^◌, ◌/◌, ◌%◌, ◌≤◌, ◌<◌, Bool, true, false, not, List, [], ◌∷◌, ok,
  ◌==◌, get_or, ◌≡◌, refl, sym, ◌∙◌, ap, arith, inl, inr,
}
use gem_macro_optimization.Base.Maps.{map_get}
use gem_macro_optimization.Aig.{usize_max, add_aigpin, empty_aig}
use gem_macro_optimization.Aig.Meaning.{Models}
use gem_macro_optimization.Pe.Boomerang.{level_of}
use gem_macro_optimization.Pe.Boomerang.Tree.{node, IsTree}
use gem_macro_optimization.Flatten.Flags.{Flags, node_flags}
use gem_macro_optimization.Flatten.Flags.Value.{AreFlags}
use gem_macro_optimization.Script.Reduce.{Word, HierFlags, reduce_hier}
use gem_macro_optimization.Script.Reduce.Last.{bit, word_flags, flags_at}
use gem_macro_optimization.Script.Reduce.Pins.{reduce_hier-val}
use gem_macro_optimization.Tests.Aig.{one_gate, one_gate-IsWellFormed}

abbrev places_in_order : List (ℕ × ℕ)
places_in_order = (1, 0) ∷ (2, 1) ∷ (3, 2) ∷ []

-- Pin 3 is a gate of the last level.
abbrev levels : List ℕ
levels = 0 ∷ 0 ∷ 13 ∷ []

-- Pin 1 is false and pin 2 true, so that pin 3 is true.
abbrev bit_of : ℕ → Bool
bit_of zero = false
bit_of (suc zero) = false
bit_of (suc (suc zero)) = true
bit_of (suc (suc (suc pin))) = true

bit_of-Models : Models bit_of one_gate bit_of
unfolding add_aigpin empty_aig
bit_of-Models zero le = refl
bit_of-Models (suc zero) le = refl
bit_of-Models (suc (suc zero)) le = refl
bit_of-Models (suc (suc (suc zero))) le = refl
bit_of-Models (suc (suc (suc (suc i)))) le = absurd (omega arith)

abbrev row : List ℕ
row = 1 ∷ 2 ∷ []

abbrev filled : List (List ℕ)
filled = row ∷ row ∷ row ∷ row ∷ row ∷ row ∷ row ∷ row ∷ row ∷ row ∷ row ∷ row ∷ row ∷ (3 ∷ []) ∷ []

-- The place of the root is bit 1 of word 0.
abbrev is_one : ℕ → Word
is_one i k = (32 * i + k) == 1

abbrev hier_flags : HierFlags
hier_flags = record { xora = is_one; xorb = λ i k. false; orb = λ i k. not (is_one i k) }

is_one-after : (q : ℕ) → 2 ≤ q → is_one (q / 32) (q % 32) ≡ false
is_one-after q le = ground arith

copy : Flags
copy = record { xora = false; xorb = false; orb = true }

abbrev flags_of : Bool → Flags
flags_of x = record { xora = x; xorb = false; orb = not x }

copied-copy : (p b : ℕ) → node_flags one_gate (get_or row p 0) (get_or row p 0) b ≡ ok copy
unfolding node_flags copy
copied-copy zero b = refl
copied-copy (suc zero) b = refl
copied-copy (suc (suc p)) b = refl

copied :
    (p b q : ℕ)
    → 2 ≤ q
    → node_flags one_gate (get_or row p 0) (get_or row p 0) b
      ≡ ok (word_flags hier_flags (q / 32) (q % 32))
unfolding copy
copied p b q le =
    let e = is_one-after q le in copied-copy p b ∙ ap (λ (x : Bool). ok (flags_of x)) (sym e)

top_flags :
    (p : ℕ)
    → p < 1
    → node_flags one_gate (node filled 13 p) (node filled 12 p) (node filled 12 (p + 1))
      ≡ ok (flags_at hier_flags 13 p)
unfolding node_flags add_aigpin empty_aig
top_flags zero lt = refl
top_flags (suc p) lt = absurd (omega arith)

filled-AreFlags : AreFlags one_gate filled (flags_at hier_flags) 13 1
filled-AreFlags = (
  top_flags,
  (
    λ p lt. copied p _ (2 + p) (omega arith),
    (
      λ p lt. copied p _ (4 + p) (omega arith),
      (
        λ p lt. copied p _ (8 + p) (omega arith),
        (
          λ p lt. copied p _ (16 + p) (omega arith),
          (
            λ p lt. copied p _ (32 + p) (omega arith),
            (
              λ p lt. copied p _ (64 + p) (omega arith),
              (
                λ p lt. copied p _ (128 + p) (omega arith),
                (
                  λ p lt. copied p _ (256 + p) (omega arith),
                  (
                    λ p lt. copied p _ (512 + p) (omega arith),
                    (
                      λ p lt. copied p _ (1024 + p) (omega arith),
                      (
                        λ p lt. copied p _ (2048 + p) (omega arith),
                        (λ p lt. copied p _ (4096 + p) (omega arith), tt),
                      ),
                    ),
                  ),
                ),
              ),
            ),
          ),
        ),
      ),
    ),
  ),
)

-- Bit 1 of word 0 alone is set.
gathered :
    (p pin : ℕ) → pin ≤ one_gate.num_aigpins → node filled 0 p ≡ pin → bit is_one p ≡ bit_of pin
gathered zero pin le e = ap bit_of e
gathered (suc zero) pin le e = ap bit_of e
gathered (suc (suc p)) pin le e = is_one-after (suc (suc p)) (omega arith) ∙ ap bit_of e

one_gate-few : one_gate.num_aigpins < usize_max
unfolding add_aigpin empty_aig
one_gate-few = omega arith

one_gate-knows : 3 ≤ one_gate.num_aigpins
unfolding add_aigpin empty_aig
one_gate-knows = omega arith

root-IsTree : IsTree one_gate levels places_in_order filled 13 (2 ^ (13 - 13)) 0 3
unfolding level_of map_get add_aigpin empty_aig
root-IsTree = (
  refl,
  inr (
    3,
    4,
    refl,
    refl,
    (
      refl,
      inl (
        0,
        refl,
        omega arith,
        (
          refl,
          inl (
            0,
            refl,
            omega arith,
            (
              refl,
              inl (
                0,
                refl,
                omega arith,
                (
                  refl,
                  inl (
                    0,
                    refl,
                    omega arith,
                    (
                      refl,
                      inl (
                        0,
                        refl,
                        omega arith,
                        (
                          refl,
                          inl (
                            0,
                            refl,
                            omega arith,
                            (
                              refl,
                              inl (
                                0,
                                refl,
                                omega arith,
                                (
                                  refl,
                                  inl (
                                    0,
                                    refl,
                                    omega arith,
                                    (
                                      refl,
                                      inl (
                                        0,
                                        refl,
                                        omega arith,
                                        (
                                          refl,
                                          inl (
                                            0,
                                            refl,
                                            omega arith,
                                            (
                                              refl,
                                              inl (
                                                0,
                                                refl,
                                                omega arith,
                                                (refl, inl (0, refl, omega arith, (refl, refl))),
                                              ),
                                            ),
                                          ),
                                        ),
                                      ),
                                    ),
                                  ),
                                ),
                              ),
                            ),
                          ),
                        ),
                      ),
                    ),
                  ),
                ),
              ),
            ),
          ),
        ),
      ),
    ),
    (
      refl,
      inl (
        0,
        refl,
        omega arith,
        (
          refl,
          inl (
            0,
            refl,
            omega arith,
            (
              refl,
              inl (
                0,
                refl,
                omega arith,
                (
                  refl,
                  inl (
                    0,
                    refl,
                    omega arith,
                    (
                      refl,
                      inl (
                        0,
                        refl,
                        omega arith,
                        (
                          refl,
                          inl (
                            0,
                            refl,
                            omega arith,
                            (
                              refl,
                              inl (
                                0,
                                refl,
                                omega arith,
                                (
                                  refl,
                                  inl (
                                    0,
                                    refl,
                                    omega arith,
                                    (
                                      refl,
                                      inl (
                                        0,
                                        refl,
                                        omega arith,
                                        (
                                          refl,
                                          inl (
                                            0,
                                            refl,
                                            omega arith,
                                            (
                                              refl,
                                              inl (
                                                0,
                                                refl,
                                                omega arith,
                                                (refl, inl (0, refl, omega arith, (refl, refl))),
                                              ),
                                            ),
                                          ),
                                        ),
                                      ),
                                    ),
                                  ),
                                ),
                              ),
                            ),
                          ),
                        ),
                      ),
                    ),
                  ),
                ),
              ),
            ),
          ),
        ),
      ),
    ),
  ),
)

reduce_hier-val_example : bit (reduce_hier hier_flags is_one) (2 ^ (13 - 13) + 0) ≡ bit_of 3
reduce_hier-val_example =
    reduce_hier-val one_gate bit_of bit_of levels places_in_order filled hier_flags is_one 13 0 3
      one_gate-IsWellFormed bit_of-Models one_gate-few (omega arith) (omega arith) (omega arith)
      one_gate-knows filled-AreFlags gathered root-IsTree
