-- ===== src/Script/Reduce/Pins.antt =====
-- src/bin/flatten_test.rs, src/flatten.rs and src/pe.rs: the bit of a pin after the reduction.
use gem_macro_optimization.Base.{ℕ, ◌+◌, ◌-◌, ◌^◌, ◌≤◌, ◌<◌, Bool, List, ◌≡◌, ◌∙◌, arith}
use gem_macro_optimization.Aig.{Aig, usize_max}
use gem_macro_optimization.Aig.Meaning.{Models, IsWellFormed}
use gem_macro_optimization.Pe.Boomerang.Tree.{node, IsTree}
use gem_macro_optimization.Flatten.Flags.Value.{AreFlags, hier_bit-val}
use gem_macro_optimization.Script.Reduce.{Word, HierFlags, reduce_hier}
use gem_macro_optimization.Script.Reduce.Last.{bit, flags_at}
use gem_macro_optimization.Script.Reduce.Places.{reduce_hier-HasLevels}

-- In a well-formed graph with a model of its pins, after the reduction over the words of level 0, the
-- bit of a place of levels 1 to 13 that has a pin's tree is the pin's bit in the model, where the
-- flags of the place's level and of those below it down to level 1 are those that the formatter
-- computes, each place of level 0 that has a pin of the graph holds the pin's bit, and
-- the graph has fewer than `usize::MAX` pins.
pub reduce_hier-val :
    (aig : Aig) (leaf val : ℕ → Bool) (level : List ℕ) (id2order : List (ℕ × ℕ))
    (hier : List (List ℕ)) (f : HierFlags) (v : ℕ → Word) (h j nd : ℕ)
    → IsWellFormed aig
    → Models leaf aig val
    → aig.num_aigpins < usize_max
    → 1 ≤ h
    → h ≤ 13
    → j < 2 ^ (13 - h)
    → nd ≤ aig.num_aigpins
    → AreFlags aig hier (flags_at f) h (2 ^ (13 - h))
    → ((p pin : ℕ) → pin ≤ aig.num_aigpins → node hier 0 p ≡ pin → bit v p ≡ val pin)
    → IsTree aig level id2order hier h (2 ^ (13 - h)) j nd
    → bit (reduce_hier f v) (2 ^ (13 - h) + j) ≡ val nd
reduce_hier-val aig leaf val level id2order hier f v h j nd wf models few ge le lt known are_flags
      gathered t =
    reduce_hier-HasLevels f v h j ge le lt
    ∙ hier_bit-val aig leaf val wf models few level id2order hier (flags_at f) (λ p. bit v p) h
        (2 ^ (13 - h)) j nd (omega (arith, lt)) lt known are_flags gathered t
