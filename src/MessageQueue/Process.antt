-- ===== src/MessageQueue/Process.antt =====
-- thread.cc: `Thread::ProcessMessages`, with `Dispatch`. What happens at one message comes as a round: the time and
-- the waits of `Get`, what the handler, and other threads meanwhile, do to the queue, and the time after it.
use rtc_base.Common.{
  ℕ, ◌≡◌, refl, ◌∙◌, Bool, true, false, not, ◌&&◌, Option, none, some, List, [], ◌∷◌, if◌then◌else◌,
  All,
}
use rtc_base.Common.Int.{ℤ, pos, ◌+ℤ◌, ◌-ℤ◌, ltb_ℤ, eqb_ℤ, to_int32}
use rtc_base.Message.{Message}
use rtc_base.MessageQueue.State
use rtc_base.MessageQueue.State.{Queue, is_quitting}
use rtc_base.MessageQueue.Calls.{Call, call, calls}
use rtc_base.MessageQueue.Get.{forever, Wait, got, failed, waiting, get}

pub record Round : Type 0 where
  pub start : ℤ
  pub waits : List Wait
  pub handler : List Call
  pub finish : ℤ

-- What `ProcessMessages` returns, if it does within the rounds, the messages handled, and the queue.
pub record Processed : Type 0 where
  pub answered : Option Bool
  pub handled : List Message
  pub queue : Queue

-- The loop; `cms_next` is what `Get` is asked to wait.
unfoldable pub process_loop : ℤ → ℤ → ℤ → List Round → Queue → Processed
process_loop cms_loop ms_end cms_next [] q = record { answered = none; handled = []; queue = q }
process_loop cms_loop ms_end cms_next (r ∷ rs) q =
    let o = get cms_next r.start r.waits q in
    elim (o.reply) [
      | failed ↦ record {
        answered = some (not (is_quitting o.queue));
        handled = [];
        queue = o.queue;
      }
      | waiting ↦ record { answered = none; handled = []; queue = o.queue }
      | got m ↦
          let q' = calls r.handler o.queue in
          let next = if eqb_ℤ cms_loop forever then cms_next else to_int32 (ms_end -ℤ r.finish) in
          let rest = process_loop cms_loop ms_end next rs q' in
          if not (eqb_ℤ cms_loop forever) && ltb_ℤ next (pos 0)
          then record { answered = some true; handled = m ∷ []; queue = q' }
          else record rest { handled = m ∷ rest.handled }
    ]

-- `now` is what the clock says at the call.
unfoldable pub process_messages : ℤ → ℤ → List Round → Queue → Processed
process_messages now cms_loop rounds q =
    process_loop cms_loop (if eqb_ℤ cms_loop forever then pos 0 else now +ℤ cms_loop) cms_loop
      rounds q

-- The calls that a handler, or another thread, posts by
abbrev pub is_post : Call → Bool
is_post (Call.post from handler id pdata) = true
is_post (Call.post_delayed now from delay handler id pdata) = true
is_post (Call.post_at now from at handler id pdata) = true
is_post (Call.clear handler id removed order) = false
is_post Call.quit = false
is_post Call.restart = false

-- Two queues that differ at most in what they have deleted and how often they woke the socket server.
pub record SameMessages (q r : Queue) : Type 0 where
  pub messages : q.messages ≡ r.messages
  pub delayed : q.delayed_messages ≡ r.delayed_messages
  pub stop : q.stop ≡ r.stop
  pub peek_keep : q.peek_keep ≡ r.peek_keep

same_queue : {q : Queue} {deleted : List ℕ} → SameMessages (record q { deleted = deleted }) q
same_queue = record { messages = refl; delayed = refl; stop = refl; peek_keep = refl }

-- A thread that is quitting takes no more messages.
call-SameMessages :
    (c : Call) (q : Queue) → is_post c ≡ true → is_quitting q ≡ true → SameMessages (call c q) q
unfolding call State.post State.post_delayed State.post_at State.do_delay_post
call-SameMessages (Call.post from handler id pdata) q p e = rw e same_queue
call-SameMessages (Call.post_delayed now from delay handler id pdata) q p e = rw e same_queue
call-SameMessages (Call.post_at now from at handler id pdata) q p e = rw e same_queue
call-SameMessages (Call.clear handler id removed order) q p e = cc
call-SameMessages Call.quit q p e = cc
call-SameMessages Call.restart q p e = cc

pub quitting_same : (q r : Queue) → q.stop ≡ r.stop → is_quitting r ≡ true → is_quitting q ≡ true
unfolding is_quitting
quitting_same q r e h = rw e h

pub calls-SameMessages :
    (cs : List Call) (q : Queue)
    → All (λ c. is_post c ≡ true) cs
    → is_quitting q ≡ true
    → SameMessages (calls cs q) q
unfolding calls
calls-SameMessages [] q p e = record {
  messages = refl;
  delayed = refl;
  stop = refl;
  peek_keep = refl;
}
calls-SameMessages (c ∷ cs) q (p, ps) e =
    let one = call-SameMessages c q p e in
    let rest = calls-SameMessages cs (call c q) ps (quitting_same (call c q) q one.stop e) in
    record {
      messages = rest.messages ∙ one.messages;
      delayed = rest.delayed ∙ one.delayed;
      stop = rest.stop ∙ one.stop;
      peek_keep = rest.peek_keep ∙ one.peek_keep;
    }
