-- ===== src/MessageQueue/Delayed.antt =====
-- thread.h: `Thread::DelayedMessage` and `Thread::PriorityQueue`.
-- The queue is a `std::priority_queue`: `top` is a greatest element under `operator<`, and `pop`
-- takes it away. The list holds the elements in the order in which `pop` takes them; the order of the vector
-- inside, which `container` shows, comes as an argument where the source walks it.
use rtc_base.Common.{ℕ, zero, suc, Bool, List, [], ◌∷◌, ◌||◌, ◌&&◌, ltb, if◌then◌else◌}
use rtc_base.Common.Int.{ℤ, ltb_ℤ, eqb_ℤ}
use rtc_base.Message.{Message}

pub record DelayedMessage : Type 0 where
  pub delay_ms : ℤ
  pub run_time_ms : ℤ
  pub message_number : ℕ  -- uint32_t
  pub msg : Message

-- `operator<`: the message that runs sooner is the greater one.
unfoldable pub less : DelayedMessage → DelayedMessage → Bool
less a b =
    ltb_ℤ b.run_time_ms a.run_time_ms
    || (eqb_ℤ b.run_time_ms a.run_time_ms && ltb b.message_number a.message_number)

unfoldable pub push : DelayedMessage → List DelayedMessage → List DelayedMessage
push d [] = d ∷ []
push d (e ∷ es) = if less d e then e ∷ push d es else d ∷ e ∷ es

-- `make_heap` on the container
unfoldable pub reheap : List DelayedMessage → List DelayedMessage
reheap [] = []
reheap (d ∷ ds) = push d (reheap ds)

unfoldable pub insert_at : {A : Type 0} → ℕ → A → List A → List A
insert_at zero a xs = a ∷ xs
insert_at (suc k) a [] = a ∷ []
insert_at (suc k) a (x ∷ xs) = x ∷ insert_at k a xs

-- `container()`: the elements in the order of the vector. That is some order of theirs, as what was pushed and
-- popped before has left it, and each list of numbers names one.
unfoldable pub arrange : List ℕ → List DelayedMessage → List DelayedMessage
unfolding insert_at
arrange [] ds = ds
arrange (k ∷ ks) [] = []
arrange (k ∷ ks) (d ∷ ds) = insert_at k d (arrange ks ds)
