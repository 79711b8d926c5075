-- ===== src/Examples/Queueing.antt =====
-- The theorems on the queues, for queues of numbers.
use open_cidn.Base.{
  ℕ, ◌≡◌, refl, true, false, pos, int_eq, int_lt, none, List, [], ◌∷◌, ◌++◌, reverse, nat_eq,
}
use open_cidn.Maps.{get_key}
use open_cidn.Queues.Fifo.{new_queue}
use open_cidn.Queues.Contents.{items, IsIndexed}
use open_cidn.Queues.Refinement.{Op, adds, gets, removes, run, run_spec, run-spec}
use open_cidn.Queues.Weighted.{Entry, WeightQueue, new_weight_queue, sort_ints, add_weight, step}
use open_cidn.Queues.Moves.{shares}
use open_cidn.Queues.Sorted.{keys}
use open_cidn.Queues.Orders.{Use, weighs, takes, finishes, perform, step-items}
use open_cidn.Queues.Adding.{at, add_weight-twice}

new-IsIndexed : IsIndexed nat_eq (new_queue {A = ℕ})
unfolding new_queue get_key
new-IsIndexed = record { nodup = tt; index_ok = λ a. refl; marks = tt; fresh = tt }

abbrev ops : List (Op ℕ)
ops = adds 7 ∷ adds 8 ∷ removes 7 ∷ gets ∷ adds 7 ∷ []

run-spec_example :
    ((run nat_eq ops new_queue).0 ≡ (run_spec nat_eq ops []).0)
    × (items (run nat_eq ops new_queue).1 ≡ (run_spec nat_eq ops []).1)
    × IsIndexed nat_eq (run nat_eq ops new_queue).1
unfolding new_queue
run-spec_example = run-spec nat_eq ops new_queue new-IsIndexed (tt, ((refl, tt), (tt, tt)))

abbrev uses : List (Use ℕ)
uses = weighs 7 (pos 1) ∷ weighs 8 (pos 3) ∷ takes ∷ finishes 8 ∷ weighs 9 (pos 2) ∷ []

step-items_example :
    items (step nat_eq (perform nat_eq uses new_weight_queue)).1.queue
    ≡ items (perform nat_eq uses new_weight_queue).queue
      ++ shares
          (reverse (sort_ints (keys (perform nat_eq uses new_weight_queue).queues)))
          (perform nat_eq uses new_weight_queue).queues
step-items_example = step-items nat_eq uses

abbrev empty : WeightQueue ℕ
empty = new_weight_queue

nothing_known : get_key nat_eq 7 empty.index ≡ none
unfolding new_weight_queue get_key
nothing_known = refl

abbrev with_7 : WeightQueue ℕ
with_7 = (add_weight nat_eq 7 (pos 2) empty).1

abbrev entry_7 : Entry
entry_7 = record { done_channel = 0; weight = pos 2; soon = false }

below : int_lt (pos 2) (pos 5) ≡ true
unfolding int_lt
below = refl

below' : int_lt (pos 2) (pos 3) ≡ true
unfolding int_lt
below' = refl

apart : int_eq (pos 5) (pos 3) ≡ false
unfolding int_eq
apart = refl

add_weight-twice_example :
    (at
        (pos 3)
        (add_weight nat_eq 7
          (pos 5)
          (add_weight nat_eq 7 (pos 3) (add_weight nat_eq 7 (pos 2) empty).1).1).1
      ≡ at (pos 3) empty ++ 7 ∷ [])
    × (at
          (pos 5)
          (add_weight nat_eq 7
            (pos 5)
            (add_weight nat_eq 7 (pos 3) (add_weight nat_eq 7 (pos 2) empty).1).1).1
        ≡ at (pos 5) empty ++ 7 ∷ [])
unfolding int_eq
add_weight-twice_example =
    add_weight-twice nat_eq 7 (pos 2) (pos 3) (pos 5) empty nothing_known below' below apart
