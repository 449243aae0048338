-- ===== src/MessageQueue/Backlog.antt =====
-- What is in a queue of thread.cc: the messages that are due at some time, and all of them.
use rtc_base.Common.{
  ℕ, ◌+◌, ◌≡◌, refl, ap, ◌∙◌, false, not, List, [], ◌∷◌, ◌++◌, map, length, length-append, arith,
  All-map, select, select-append, select-All, select-All_none, Bool-cases, inl, inr,
}
use rtc_base.Common.Int.{ℤ, ltb_ℤ, ◌≤ℤ◌}
use rtc_base.Message.{Message}
use rtc_base.MessageQueue.Delayed.{DelayedMessage}
use rtc_base.MessageQueue.State.{Queue}
use rtc_base.MessageQueue.Order.{IsOrdered}
use rtc_base.MessageQueue.Due.{is_due, is_live, pending, not_due}

-- The messages of a list of delayed ones, but for dispose messages.
abbrev pub live_of : List DelayedMessage → List Message
live_of ds = select is_live (map (λ d. d.msg) ds)

abbrev pub not_yet : ℤ → List DelayedMessage → List DelayedMessage
not_yet t ds = select (λ d. not (is_due t d)) ds

-- What is due later is what is due now and then what becomes due.
due_later :
    (t T : ℤ) (ds : List DelayedMessage)
    → t ≤ℤ T
    → IsOrdered ds
    → select (is_due T) ds ≡ select (is_due t) ds ++ select (is_due T) (not_yet t ds)
due_later t T [] h o = refl
due_later t T (d ∷ ds) h o = elim (Bool-cases (ltb_ℤ t d.run_time_ms)) [
  | inl later ↦
      let none_due = All-map ds (λ e. not_due t d e later) o.0 in
      rw
        (
          later,
          select-All_none (is_due t) ds none_due,
          select-All (λ e. not (is_due t e)) ds (All-map ds (λ e k. ap not k) none_due),
        )
        refl
  | inr due ↦
      let still : ltb_ℤ T d.run_time_ms ≡ false = ground (arith, due) in
      rw (due, still) (ap (λ l. d ∷ l) (due_later t T ds h o.1))
]

live_of-append : (ds es : List DelayedMessage) → live_of (ds ++ es) ≡ live_of ds ++ live_of es
live_of-append [] es = refl
live_of-append (d ∷ ds) es = ground (arith, live_of-append ds es)

live-append :
    (ms : List Message) (ds es : List DelayedMessage)
    → select is_live (ms ++ map (λ d. d.msg) (ds ++ es))
      ≡ select is_live (ms ++ map (λ d. d.msg) ds) ++ live_of es
live-append [] ds es = live_of-append ds es
live-append (m ∷ ms) ds es = ground (arith, live-append ms ds es)

pub pending_later :
    (t T : ℤ) (q : Queue)
    → t ≤ℤ T
    → IsOrdered q.delayed_messages
    → select is_live (pending T q)
      ≡ select is_live (pending t q) ++ live_of (select (is_due T) (not_yet t q.delayed_messages))
pending_later t T q h o =
    ap (λ ds. select is_live (q.messages ++ map (λ (d : DelayedMessage). d.msg) ds))
      (due_later t T q.delayed_messages h o)
    ∙ live-append q.messages (select (is_due t) q.delayed_messages) _

live_parts :
    (t : ℤ) (ds : List DelayedMessage)
    → length (live_of (select (is_due t) ds)) + length (live_of (not_yet t ds))
      ≡ length (live_of ds)
live_parts t [] = refl
live_parts t (d ∷ ds) = ground (arith, live_parts t ds)

-- How many messages there are in all, but for dispose messages.
abbrev pub total : Queue → ℕ
total q = length (select is_live q.messages) + length (live_of q.delayed_messages)

pub total_parts :
    (t : ℤ) (q : Queue)
    → length (select is_live (pending t q)) + length (live_of (not_yet t q.delayed_messages))
      ≡ total q
total_parts t q =
    let due = select (is_due t) q.delayed_messages in
    rw
      (
        select-append is_live q.messages (map (λ (d : DelayedMessage). d.msg) due),
        length-append (select is_live q.messages) (live_of due),
      )
      (omega (arith, live_parts t q.delayed_messages))
