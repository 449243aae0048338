-- ===== src/MessageQueue/Get.antt =====
-- thread.cc: `Thread::Get`, `Thread::Peek` and `Thread::GetDelay`.
-- `Get` runs alone but for its calls of `ss_->Wait`: what the clock and the socket server answer
-- there, and what other threads do to the queue meanwhile, comes as a list of waits. A `Get` that
-- still waits when the list ends is a reply of its own.
use rtc_base.Common.{
  ℕ, Bool, true, false, not, ◌&&◌, Option, none, some, List, [], ◌∷◌, ◌++◌, ◌==◌, if◌then◌else◌,
  ◌||◌,
}
use rtc_base.Common.Int.{ℤ, pos, negsuc, ◌-ℤ◌, ltb_ℤ, leb_ℤ, eqb_ℤ, max_ℤ, to_int32}
use rtc_base.Message.{Message, mqid_dispose, free}
use rtc_base.MessageQueue.Delayed.{DelayedMessage}
use rtc_base.MessageQueue.State.{Queue, is_quitting}
use rtc_base.MessageQueue.Calls.{Call, calls}

-- `kForever`
abbrev pub forever : ℤ
forever = negsuc 0

-- The loop over `delayed_messages_` of the first pass: `cmsDelayNext`, and the two queues.
unfoldable pub collect_due :
    ℤ → List DelayedMessage → List Message → ℤ × List Message × List DelayedMessage
collect_due now [] messages = (forever, messages, [])
collect_due now (d ∷ ds) messages =
    let later = collect_due now ds (messages ++ (d.msg ∷ [])) in
    if ltb_ℤ now d.run_time_ms then (d.run_time_ms -ℤ now, messages, d ∷ ds) else later

-- The messages taken from the front until one is no dispose message, those left, and the data
-- deleted with the dispose messages.
unfoldable pub pull : List Message → List ℕ → Option Message × List Message × List ℕ
pull [] deleted = (none, [], deleted)
pull (m ∷ ms) deleted =
    let skipped = pull ms (free m.pdata deleted) in
    if m.message_id == mqid_dispose then skipped else (some m, ms, deleted)

-- One run of the inner loop.
pub record Scan : Type 0 where
  pub found : Option Message
  pub delay_next : ℤ  -- cmsDelayNext
  pub queue : Queue

unfoldable pub scan : ℤ → Queue → Scan
scan current q =
    let (delay_next, messages, delayed) = collect_due current q.delayed_messages q.messages in
    let (found, rest, deleted) = pull messages q.deleted in
    record {
      found = found;
      delay_next = delay_next;
      queue = record q { messages = rest; delayed_messages = delayed; deleted = deleted };
    }

-- `cmsNext`, which is cast to `int` for `ss_->Wait`
unfoldable pub next_wait : ℤ → ℤ → ℤ → ℤ
next_wait cms_wait elapsed delay_next =
    if eqb_ℤ cms_wait forever
    then delay_next
    else if not (eqb_ℤ delay_next forever) && ltb_ℤ delay_next (max_ℤ (pos 0) (cms_wait -ℤ elapsed))
    then delay_next
    else max_ℤ (pos 0) (cms_wait -ℤ elapsed)

-- One `ss_->Wait`: the calls of other threads until it returns, what it returns, and the time then.
pub record Wait : Type 0 where
  pub during : List Call
  pub success : Bool
  pub now : ℤ

pub data Reply : Type 0 where
  got : Message → Reply
  failed : Reply
  waiting : Reply

-- What `Get` answers, the queue it leaves, and the timeouts that it passed to `ss_->Wait`.
pub record Outcome : Type 0 where
  pub reply : Reply
  pub queue : Queue
  pub timeouts : List ℤ

-- After a run of the inner loop: the message that it found, or, unless the thread is quitting, what
-- follows.
unfoldable pub conclude : Scan → (Scan → Outcome) → Outcome
conclude s otherwise = elim (s.found) [
  | some m ↦ record { reply = got m; queue = s.queue; timeouts = [] }
  | none ↦
      let blocked = otherwise s in
      if is_quitting s.queue
      then record { reply = failed; queue = s.queue; timeouts = [] }
      else blocked
]

-- `Get` fails after this wait: it did not succeed, or the asked time has passed.
unfoldable pub gives_up : ℤ → ℤ → Wait → Bool
gives_up cms_wait start w =
    not w.success || (not (eqb_ℤ cms_wait forever) && leb_ℤ cms_wait (w.now -ℤ start))

-- The outer loop, from the start of a round; `current` is `msCurrent`.
unfoldable pub get_loop : ℤ → ℤ → ℤ → ℤ → Queue → List Wait → Outcome
get_loop cms_wait start current elapsed q [] = conclude (scan current q) λ s. record {
  reply = waiting;
  queue = s.queue;
  timeouts = to_int32 (next_wait cms_wait elapsed s.delay_next) ∷ [];
}
get_loop cms_wait start current elapsed q (w ∷ ws) = conclude (scan current q) λ s.
    let q' = calls w.during s.queue in
    let timeout = to_int32 (next_wait cms_wait elapsed s.delay_next) in
    let rest = get_loop cms_wait start w.now (w.now -ℤ start) q' ws in
    if gives_up cms_wait start w
    then record { reply = failed; queue = q'; timeouts = timeout ∷ [] }
    else record rest { timeouts = timeout ∷ rest.timeouts }

unfoldable pub get : ℤ → ℤ → List Wait → Queue → Outcome
get cms_wait start waits q =
    let outcome = get_loop cms_wait start start (pos 0) q waits in
    if q.peek_keep
    then record { reply = got q.msg_peek; queue = record q { peek_keep = false }; timeouts = [] }
    else outcome

unfoldable pub keep_peek : Outcome → Outcome
keep_peek o = elim (o.reply) [
  | got m ↦ record o { queue = record (o.queue) { msg_peek = m; peek_keep = true } }
  | failed ↦ o
  | waiting ↦ o
]

unfoldable pub peek : ℤ → ℤ → List Wait → Queue → Outcome
peek cms_wait start waits q =
    let outcome = keep_peek (get cms_wait start waits q) in
    if q.peek_keep then record { reply = got q.msg_peek; queue = q; timeouts = [] } else outcome

-- The delay until the first message of these queues; `now` is the clock's value in `TimeUntil`, and
-- the difference is narrowed to `int`.
unfoldable pub first_wait : ℤ → List Message → List DelayedMessage → ℤ
first_wait now (m ∷ ms) delayed = pos 0
first_wait now [] (d ∷ ds) = max_ℤ (pos 0) (to_int32 (d.run_time_ms -ℤ now))
first_wait now [] [] = forever

unfoldable pub get_delay : ℤ → Queue → ℤ
unfolding first_wait
get_delay now q = first_wait now q.messages q.delayed_messages
