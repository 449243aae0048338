-- ===== src/MessageQueue/Calls.antt =====
-- The calls that other threads make on the queue of a thread (thread.cc), as data.
use rtc_base.Common.{ℕ, Option, List, [], ◌∷◌}
use rtc_base.Common.Int.{ℤ}
use rtc_base.Message.{Message}
use rtc_base.MessageQueue.State
use rtc_base.MessageQueue.State.{Queue}
use rtc_base.MessageQueue.Clear.{clear_internal}

pub data Call : Type 0 where
  post : ℕ → Option ℕ → ℕ → Option ℕ → Call
  post_delayed : ℤ → ℕ → ℤ → Option ℕ → ℕ → Option ℕ → Call
  post_at : ℤ → ℕ → ℤ → Option ℕ → ℕ → Option ℕ → Call
  clear : Option ℕ → ℕ → Option (List Message) → List ℕ → Call
  quit : Call
  restart : Call

unfoldable pub call : Call → Queue → Queue
call (post from handler id pdata) q = State.post from handler id pdata q
call (post_delayed now from delay handler id pdata) q =
    State.post_delayed now from delay handler id pdata q
call (post_at now from at handler id pdata) q = State.post_at now from at handler id pdata q
call (clear handler id removed order) q = (clear_internal handler id removed order q).0
call quit q = State.quit q
call restart q = State.restart q

unfoldable pub calls : List Call → Queue → Queue
calls [] q = q
calls (c ∷ cs) q = calls cs (call c q)
