-- ===== src/MessageQueue/Invariant.antt =====
-- The invariant of the queue of thread.cc, and that every function keeps it.
use rtc_base.Common.{
  ℕ, ◌^◌, ◌<◌, ◌≡◌, refl, ap, Bool, true, false, not, Option, List, [], ◌∷◌, ◌++◌, arith, All,
  All-map, select, select-All, select-All_none, Bool-cases, inl, inr,
}
use rtc_base.Common.Int.{ℤ, pos, ltb_ℤ}
use rtc_base.MessageQueue.State
use rtc_base.MessageQueue.State.{
  Queue, new_queue, is_quitting, do_delay_post, message, delayed_message,
}
use rtc_base.MessageQueue.Delayed.{DelayedMessage, less, push}
use rtc_base.MessageQueue.Clear.{clear_internal}
use rtc_base.MessageQueue.Calls.{Call, call}
use rtc_base.MessageQueue.Get.{Wait, scan, get, peek, keep_peek}
use rtc_base.MessageQueue.Order.{IsOrdered, push-IsOrdered, reheap-IsOrdered, select-IsOrdered}
use rtc_base.MessageQueue.Loop.{get_loop_inv}
use rtc_base.MessageQueue.Due.{collect_due_lem}

pub record IsValid (q : Queue) : Type 0 where
  pub ordered : IsOrdered q.delayed_messages
  pub next_fits : q.delayed_next_num < 2 ^ 32

pub new_queue-IsValid : IsValid new_queue
new_queue-IsValid = omega arith

do_delay_post-IsValid :
    (from : ℕ) (delay at : ℤ) (handler : Option ℕ) (id : ℕ) (pdata : Option ℕ) (q : Queue)
    → IsValid q
    → IsValid (do_delay_post from delay at handler id pdata q)
unfolding do_delay_post
do_delay_post-IsValid from delay at handler id pdata q v = ground (
  arith,
  push-IsOrdered (delayed_message delay at q.delayed_next_num (message from handler id pdata))
      q.delayed_messages v.ordered,
)

-- Every call of another thread keeps the invariant.
pub call-IsValid : (c : Call) (q : Queue) → IsValid q → IsValid (call c q)
unfolding call State.post State.quit State.restart clear_internal
call-IsValid (Call.post from handler id pdata) q v = ground arith
call-IsValid (Call.post_delayed now from delay handler id pdata) q v =
    unfold State.post_delayed in do_delay_post-IsValid from delay _ handler id pdata q v
call-IsValid (Call.post_at now from at handler id pdata) q v =
    unfold State.post_at in do_delay_post-IsValid from _ at handler id pdata q v
call-IsValid (Call.clear handler id removed order) q v = record {
  ordered = reheap-IsOrdered _;
  next_fits = v.next_fits;
}
call-IsValid Call.quit q v = ground arith
call-IsValid Call.restart q v = ground arith

pub scan-IsValid : (now : ℤ) (q : Queue) → IsValid q → IsValid (scan now q).queue
unfolding scan
scan-IsValid now q v =
    rw (collect_due_lem now q.delayed_messages q.messages v.ordered) (record {
      ordered = select-IsOrdered _ q.delayed_messages v.ordered;
      next_fits = v.next_fits;
    })

-- `Get` keeps the invariant (the delayed messages in the order in which they run, the next number in uint32_t), whatever
-- the clock, the socket server and other threads do; their `Clear` may find the vector in any order.
pub get-IsValid :
    (cms start : ℤ) (ws : List Wait) (q : Queue) → IsValid q → IsValid (get cms start ws q).queue
unfolding get
get-IsValid cms start ws q v =
    ground (arith, get_loop_inv IsValid scan-IsValid call-IsValid cms start start (pos 0) q ws v)

pub peek-IsValid :
    (cms start : ℤ) (ws : List Wait) (q : Queue) → IsValid q → IsValid (peek cms start ws q).queue
unfolding peek keep_peek
peek-IsValid cms start ws q v = ground (arith, get-IsValid cms start ws q v)

-- The numbers of the messages that wait are below the next one: true until 2 ^ 32 delayed messages
-- were posted.
abbrev pub IsFresh : ℕ → List DelayedMessage → Type 0
IsFresh next = All (λ d. d.message_number < next)

-- `e` is to run later than `d`, by their run times alone.
unfoldable pub runs_later : DelayedMessage → DelayedMessage → Bool
runs_later d e = ltb_ℤ d.run_time_ms e.run_time_ms

less_fresh :
    (d e : DelayedMessage) → e.message_number < d.message_number → less d e ≡ not (runs_later d e)
unfolding less runs_later
less_fresh d e h = ground arith

runs_later_trans :
    (d e f : DelayedMessage) → runs_later d e ≡ true → less e f ≡ false → runs_later d f ≡ true
unfolding less runs_later
runs_later_trans d e f h k = ground arith

push_fifo :
    (d : DelayedMessage) (es : List DelayedMessage)
    → IsOrdered es
    → IsFresh d.message_number es
    → push d es ≡ select (λ e. not (runs_later d e)) es ++ (d ∷ select (runs_later d) es)
unfolding push
push_fifo d [] h f = refl
push_fifo d (e ∷ es) h f = elim (Bool-cases (runs_later d e)) [
  | inl later ↦
      let all = All-map es (λ x. runs_later_trans d e x later) h.0 in
      rw (
        less_fresh d e f.0,
        later,
        select-All_none (λ x. not (runs_later d x)) es (All-map es (λ x k. ap not k) all),
        select-All (runs_later d) es all,
      )
  | inr sooner ↦ rw (less_fresh d e f.0, sooner) (ap (λ l. e ∷ l) (push_fifo d es h.1 f.1))
]

-- A delayed message is put behind those that run no later, so that messages for one time run in the
-- order in which they were posted, and before those that run later.
pub do_delay_post_fifo :
    (from : ℕ) (delay at : ℤ) (handler : Option ℕ) (id : ℕ) (pdata : Option ℕ) (q : Queue)
    → IsValid q
    → IsFresh q.delayed_next_num q.delayed_messages
    → is_quitting q ≡ false
    → let d = delayed_message delay at q.delayed_next_num (message from handler id pdata) in
      (do_delay_post from delay at handler id pdata q).delayed_messages
      ≡ select (λ e. not (runs_later d e)) q.delayed_messages
        ++ (d ∷ select (runs_later d) q.delayed_messages)
unfolding do_delay_post
do_delay_post_fifo from delay at handler id pdata q v f running =
    rw running (push_fifo _ q.delayed_messages v.ordered f)
