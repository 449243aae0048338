-- ===== src/SwapQueue/Tests.antt =====
-- A run of the two threads on a queue with two slots.
use rtc_base.Common.{ℕ, ◌<◌, List, [], ◌∷◌, arith}
use rtc_base.SwapQueue.Steps.{
  idle, loaded, resting, found, taken, Shared, Act, inside, enqueue, dequeue, advance, insert_load,
  insert_swap, insert_count, insert_advance, remove_load, remove_swap,
}
use rtc_base.SwapQueue.Invariant.{IsValid, contents}
use rtc_base.SwapQueue.Runs.{
  Run, stopped, stepped, Served, swap_queue, swap_queue-IsValid, Run-Served, Run-race_free,
  ProducerSlot, ConsumerSlot,
}

-- One element, 7, goes in; the consumer takes it while the producer has begun to insert 8.
abbrev acts : List (Act ℕ)
acts = inside ∷ inside ∷ enqueue 7 ∷ inside ∷ inside ∷ inside ∷ dequeue 7 ∷ []

abbrev last : Shared ℕ
last = record { slots = 5 ∷ 0 ∷ []; write = 1; read = 0; num = 1 }

two_threads : Run 0 2 (swap_queue 0 2) idle resting acts last (loaded 8) (taken 7)
unfolding swap_queue advance
two_threads = stepped (insert_load (swap_queue 0 2) resting 7 (omega arith)) (
    stepped (insert_swap (swap_queue 0 2) resting 7) (
      stepped (insert_count _ resting 7 0) (
        stepped (insert_advance _ resting 0) (
          stepped (remove_load _ idle 5 (omega arith)) (
            stepped (insert_load _ (found 5) 8 (omega arith))
              (stepped (remove_swap _ (loaded 8) 5) (stopped _ _ _)))))))

Run-Served_example :
    IsValid 0 2 last (loaded 8) (taken 7)
    × Served 0 2 (contents 0 2 (swap_queue 0 2) resting) acts (contents 0 2 last (taken 7))
Run-Served_example = Run-Served 0 2 (swap_queue-IsValid 0 2 (omega arith)) two_threads

Run-race_free_example :
    ((i : ℕ) → ProducerSlot 0 2 last (loaded 8) i → ConsumerSlot 0 2 last (taken 7) i → ⊥)
    × (1 < 2)
    × (0 < 2)
Run-race_free_example = Run-race_free 0 2 (omega arith) two_threads
