-- ===== src/Queue/Examples.antt =====
-- ec_queue.h: runs, and the theorems at concrete values.
use eclib.Common.{ℕ, ◌≡◌, ◌≢◌, refl, All, [], ◌∷◌, none, some, ◌==◌, if◌then◌else◌, arith}
use eclib.Stack.Linked.{Linked}
use eclib.Queue.{Queue, enqueue, dequeue, emplacefront, front, back, new_queue, destroy, swap}
use eclib.Queue.Snoc.{last}
use eclib.Queue.Whole.{new_queue_lem, destroy_queue, swap_queues}
use eclib.Queue.Ends.{IsQueue, Enqueues, enqueue_lem, dequeue_lem, emplacefront_lem}

-- Two values, at the addresses 8 and 16.
abbrev two_items : Queue ℕ
two_items = record {
  heap = λ a.
      if a == 8
      then some (record { next = some 16; value = 4 })
      else if a == 16
      then some (record { next = none; value = 5 })
      else none;
  head = some 8;
  tail = some 16;
  size = 2;
}

two_items-IsQueue : IsQueue two_items ((8, 4) ∷ (16, 5) ∷ [])
unfolding Linked last
two_items-IsQueue = record {
  linked = (refl, (some 16, refl, (refl, (none, refl, refl, tt)), (omega arith, tt)));
  ends = refl;
  counted = refl;
}

ends_two : (front two_items ≡ some 4) × (back two_items ≡ some 5)
unfolding front back
ends_two = (refl, refl)

enqueue_lem_example :
    Enqueues two_items 24 6 ((8, 4) ∷ (16, 5) ∷ (24, 6) ∷ []) (enqueue (some 24) 6 two_items)
enqueue_lem_example = enqueue_lem 24 6 two_items ((8, 4) ∷ (16, 5) ∷ []) two_items-IsQueue refl

dequeue_lem_example :
    (front two_items ≡ some 4)
    × ((q' : Queue ℕ) × (dequeue two_items ≡ some q')
        × IsQueue q' ((16, 5) ∷ [])
        × (q'.heap 8 ≡ none)
        × ((b : ℕ) → b ≢ 8 → q'.heap b ≡ two_items.heap b))
dequeue_lem_example = dequeue_lem (8, 4) ((16, 5) ∷ []) two_items two_items-IsQueue

put_in_front : IsQueue (emplacefront (some 24) 6 two_items) ((24, 6) ∷ (8, 4) ∷ (16, 5) ∷ [])
put_in_front = emplacefront_lem 24 6 two_items ((8, 4) ∷ (16, 5) ∷ []) two_items-IsQueue refl

abbrev no_items : Queue ℕ
no_items = new_queue two_items.heap

swapped :
    IsQueue (swap (two_items, no_items)).0 []
    × IsQueue (swap (two_items, no_items)).1 ((8, 4) ∷ (16, 5) ∷ [])
unfolding new_queue
swapped =
    swap_queues two_items no_items ((8, 4) ∷ (16, 5) ∷ []) [] refl two_items-IsQueue
      (new_queue_lem two_items.heap)

destroyed :
    (q' : Queue ℕ) × (destroy 3 two_items ≡ some q')
    × IsQueue q' []
    × All (λ (c : ℕ × ℕ). q'.heap c.0 ≡ none) ((8, 4) ∷ (16, 5) ∷ [])
    × ((b : ℕ)
        → All (λ (c : ℕ × ℕ). c.0 ≢ b) ((8, 4) ∷ (16, 5) ∷ [])
        → q'.heap b ≡ two_items.heap b)
destroyed = destroy_queue ((8, 4) ∷ (16, 5) ∷ []) 3 two_items two_items-IsQueue (omega arith)
