-- ===== src/MessageQueue/Due.antt =====
-- One run of the inner loop of `Thread::Get` (thread.cc), against a description by filters.
use rtc_base.Common.{
  ℕ, ◌≡◌, refl, ◌∙◌, ap, Bool, true, false, not, Option, List, [], ◌∷◌, ◌++◌, map, arith, All-map,
  select, select-All, select-All_none, Bool-cases, inl, inr, append-nil, append_assoc, ◌==◌,
}
use rtc_base.Common.Int.{ℤ, ltb_ℤ, ◌-ℤ◌}
use mathlib.Core.List.{head?, tail}
use rtc_base.Message.{Message, mqid_dispose, free}
use rtc_base.MessageQueue.Delayed.{DelayedMessage, less}
use rtc_base.MessageQueue.State.{Queue}
use rtc_base.MessageQueue.Get.{forever, collect_due, pull, Scan, scan}
use rtc_base.MessageQueue.Order.{IsOrdered}

abbrev pub is_due : ℤ → DelayedMessage → Bool
is_due now d = not (ltb_ℤ now d.run_time_ms)

-- The delay until the first of these messages runs.
abbrev pub first_delay : ℤ → List DelayedMessage → ℤ
first_delay now [] = forever
first_delay now (d ∷ ds) = d.run_time_ms -ℤ now

-- What is no dispose message.
abbrev pub is_live : Message → Bool
is_live m = not (m.message_id == mqid_dispose)

-- The posted messages, then the delayed ones whose time has come, soonest first.
abbrev pub pending : ℤ → Queue → List Message
pending now q = q.messages ++ map (λ d. d.msg) (select (is_due now) q.delayed_messages)

pub not_due :
    (now : ℤ) (d e : DelayedMessage)
    → ltb_ℤ now d.run_time_ms ≡ true
    → less d e ≡ false
    → is_due now e ≡ false
unfolding less
not_due now d e h k = ground arith

pub collect_due_lem :
    (now : ℤ) (ds : List DelayedMessage) (ms : List Message)
    → IsOrdered ds
    → collect_due now ds ms ≡ (
      first_delay now (select (λ d. not (is_due now d)) ds),
      ms ++ map (λ d. d.msg) (select (is_due now) ds),
      select (λ d. not (is_due now d)) ds,
    )
unfolding collect_due
collect_due_lem now [] ms h = rw append-nil
collect_due_lem now (d ∷ ds) ms h = elim (Bool-cases (ltb_ℤ now d.run_time_ms)) [
  | inl later ↦
      let none_due = All-map ds (λ e. not_due now d e later) h.0 in
      rw (
        later,
        select-All_none (is_due now) ds none_due,
        select-All (λ e. not (is_due now e)) ds (All-map ds (λ e k. ap not k) none_due),
        append-nil,
      )
  | inr due ↦ rw due (collect_due_lem now ds (ms ++ (d.msg ∷ [])) h.1 ∙ rw append_assoc)
]

record Pulled (ms : List Message) (p : Option Message × List Message × List ℕ) : Type 0 where
  first : p.0 ≡ head? (select is_live ms)
  left : select is_live p.1 ≡ tail (select is_live ms)

pull-Pulled : (ms : List Message) (deleted : List ℕ) → Pulled ms (pull ms deleted)
unfolding pull
pull-Pulled [] deleted = record { first = refl; left = refl }
pull-Pulled (m ∷ ms) deleted = ground (arith, pull-Pulled ms (free m.pdata deleted))

-- What one run of the inner loop finds and leaves.
pub record Scanned (now : ℤ) (q : Queue) (s : Scan) : Type 0 where
  pub found : s.found ≡ head? (select is_live (pending now q))
  pub left : select is_live s.queue.messages ≡ tail (select is_live (pending now q))
  pub delayed : s.queue.delayed_messages ≡ select (λ d. not (is_due now d)) q.delayed_messages
  pub next : s.delay_next ≡ first_delay now s.queue.delayed_messages
  pub stop : s.queue.stop ≡ q.stop
  pub peek_keep : s.queue.peek_keep ≡ q.peek_keep

-- The inner loop finds the first message that is no dispose message among those posted and then the
-- delayed ones whose time has come; it leaves the others of these in order, and of the delayed
-- messages exactly those whose time has not come.
pub scan-Scanned : (now : ℤ) (q : Queue) → IsOrdered q.delayed_messages → Scanned now q (scan now q)
unfolding scan
scan-Scanned now q h =
    let pulled = pull-Pulled (pending now q) q.deleted in
    rw (collect_due_lem now q.delayed_messages q.messages h) (record {
      found = pulled.first;
      left = pulled.left;
      delayed = refl;
      next = refl;
      stop = refl;
      peek_keep = refl;
    })
