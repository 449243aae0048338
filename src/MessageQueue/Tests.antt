-- ===== src/MessageQueue/Tests.antt =====
-- The queue of thread.cc on concrete inputs, and the theorems applied to them.
use rtc_base.Common.{
  ◌≡◌, ◌≢◌, refl, true, false, none, some, List, [], ◌∷◌, ◌++◌, length, arith, select, inr,
}
use rtc_base.Common.Int.{pos, negsuc, to_int32, ◌-ℤ◌, ◌+ℤ◌}
use rtc_base.Message.{Message, mqid_any, mqid_dispose, match}
use rtc_base.MessageQueue.Delayed.{DelayedMessage, less, push, insert_at, arrange}
use rtc_base.MessageQueue.State.{
  Queue, new_queue, is_quitting, message, delayed_message, post, do_delay_post, quit, post_at,
}
use rtc_base.MessageQueue.Clear.{clear_internal}
use rtc_base.MessageQueue.Removal.{clear_lem}
use rtc_base.MessageQueue.State
use rtc_base.MessageQueue.Calls.{Call, call, calls}
use rtc_base.MessageQueue.Get.{
  forever, scan, collect_due, pull, conclude, get_loop, next_wait, Wait, got, waiting, get,
}
use rtc_base.MessageQueue.Due.{is_live, pending}
use rtc_base.MessageQueue.Delivery.{get_delivers, get_fails_only, get-gives_up}
use rtc_base.MessageQueue.Invariant.{IsValid, runs_later, get-IsValid, do_delay_post_fifo}
use rtc_base.MessageQueue.Traffic.{Balanced, get_ledger}
use rtc_base.MessageQueue.Timeouts.{EachTimely, get-EachTimely}
use rtc_base.MessageQueue.Process.{Round, process_messages}
use rtc_base.MessageQueue.Drained.{start_of, peeked, process_messages_drains}

abbrev hello : Message
hello = message 1 (some 7) 3 (some 100)

abbrev bye : Message
bye = message 2 (some 7) 4 (some 101)

abbrev tick : Message
tick = message 3 (some 8) 3 none

abbrev doomed : Message
doomed = message 4 none mqid_dispose (some 102)

abbrev soon : DelayedMessage
soon = delayed_message (pos 5) (pos 15) 0 tick

abbrev late : DelayedMessage
late = delayed_message (pos 40) (pos 50) 1 bye

-- a dispose message and a message are posted; one message is delayed until 15, one until 50
abbrev busy : Queue
busy = record new_queue {
  messages = doomed ∷ hello ∷ [];
  delayed_messages = soon ∷ late ∷ [];
  delayed_next_num = 2;
}

abbrev stopping : Queue
stopping = record new_queue { delayed_messages = late ∷ []; delayed_next_num = 2; stop = 1 }

-- The same queue, built by calls.
built :
    calls
      (Call.post 4 none mqid_dispose (some 102)
        ∷ Call.post_at (pos 10) 2 (pos 50) (some 7) 4 (some 101)
        ∷ Call.post_delayed (pos 10) 3 (pos 5) (some 8) 3 none
        ∷ Call.post 1 (some 7) 3 (some 100)
        ∷ [])
      new_queue
    ≡ record busy {
      delayed_messages =
          record soon { message_number = 1 } ∷ record late { message_number = 0 } ∷ [];
      wake_ups = 4;
    }
unfolding calls call post State.post_delayed State.post_at do_delay_post State.is_quitting push less
    ◌-ℤ◌ ◌+ℤ◌
built = refl

-- At 20 `soon` is due: three `Get`s find `hello`, `tick`, and then nothing until 50.
third_get_waits :
    let first = get (negsuc 0) (pos 20) [] busy in
    let second = get (negsuc 0) (pos 20) [] first.queue in
    let third = get (negsuc 0) (pos 20) [] second.queue in
    (first.reply ≡ got hello)
    × (second.reply ≡ got tick)
    × (third.reply ≡ waiting)
    × (third.timeouts ≡ pos 30 ∷ [])
    × (third.queue.deleted ≡ 102 ∷ [])
unfolding get get_loop conclude scan collect_due pull is_quitting next_wait ◌-ℤ◌ to_int32
third_get_waits = (refl, refl, refl, refl, refl)

-- A message that is due 2 ^ 32 - 1 milliseconds from now: the timeout becomes `kForever`.
far_timeout :
    (get
      (negsuc 0)
      (pos 0)
      []
      (post_at (pos 0) 1 (pos 0xffff_ffff) (some 7) 3 none new_queue)).timeouts
    ≡ forever ∷ []
unfolding get get_loop conclude scan collect_due pull is_quitting next_wait ◌-ℤ◌ to_int32 post_at
    do_delay_post push less
far_timeout = refl

get_delivers_example :
    let o = get (negsuc 0) (pos 20) [] busy in
    (o.reply ≡ got hello)
    × (select is_live o.queue.messages ≡ tick ∷ [])
    × (o.queue.delayed_messages ≡ late ∷ [])
    × (o.timeouts ≡ [])
unfolding less
get_delivers_example = get_delivers (negsuc 0) (pos 20) [] busy ((refl, tt), (tt, tt)) refl refl

-- The vector of the delayed messages stands the other way round.
clear_lem_example : clear_internal none mqid_any (some (tick ∷ [])) (1 ∷ []) busy ≡ (
  record busy { messages = []; delayed_messages = [] },
  some (tick ∷ doomed ∷ hello ∷ bye ∷ tick ∷ []),
)
unfolding less match insert_at arrange
clear_lem_example = clear_lem none mqid_any (some (tick ∷ [])) (1 ∷ []) busy ((refl, tt), (tt, tt))

busy-IsValid : IsValid busy
unfolding less
busy-IsValid = record { ordered = ((refl, tt), (tt, tt)); next_fits = omega arith }

-- While `Get` waits another thread posts `hello`; the first wait is for `late`.
abbrev posted_meanwhile : List Wait
posted_meanwhile =
    record { during = Call.post 1 (some 7) 3 (some 100) ∷ []; success = true; now = pos 30 } ∷ []

abbrev quiet_wait : List Wait
quiet_wait = record { during = []; success = true; now = pos 30 } ∷ []

abbrev idle : Queue
idle = record new_queue { delayed_messages = late ∷ []; delayed_next_num = 2 }

idle-IsValid : IsValid idle
idle-IsValid = omega arith

get_ledger_example :
    Balanced 100 idle posted_meanwhile (get (negsuc 0) (pos 20) posted_meanwhile idle)
get_ledger_example =
    get_ledger 100 (negsuc 0) (pos 20) posted_meanwhile idle idle-IsValid ((tt, tt), tt)

get-IsValid_example : IsValid (get (negsuc 0) (pos 20) posted_meanwhile idle).queue
get-IsValid_example = get-IsValid (negsuc 0) (pos 20) posted_meanwhile idle idle-IsValid

-- The wait for at most 11 milliseconds from 20 ends at 31.
abbrev just_over : Wait
just_over = record { during = []; success = true; now = pos 31 }

get-gives_up_example :
    let o = get (pos 11) (pos 20) (just_over ∷ posted_meanwhile) idle in
    (o.reply ≢ waiting) × (o ≡ get (pos 11) (pos 20) (just_over ∷ []) idle)
unfolding ◌-ℤ◌
get-gives_up_example =
    get-gives_up (pos 11) (pos 20) [] posted_meanwhile just_over idle (inr ((λ e. cc), omega arith))

-- `stopping` has nothing that is due at 20.
get_fails_only_example : is_quitting (get (pos 100) (pos 20) quiet_wait stopping).queue ≡ true
unfolding ◌-ℤ◌ is_quitting get get_loop conclude scan collect_due pull
get_fails_only_example =
    get_fails_only (pos 100) (pos 20) quiet_wait stopping refl ((refl, inr (omega arith)), tt) refl

do_delay_post_fifo_example :
    (do_delay_post 9 (pos 5) (pos 15) (some 9) 6 none busy).delayed_messages
    ≡ soon ∷ delayed_message (pos 5) (pos 15) 2 (message 9 (some 9) 6 none) ∷ late ∷ []
unfolding is_quitting runs_later
do_delay_post_fifo_example =
    do_delay_post_fifo 9 (pos 5) (pos 15) (some 9) 6 none busy busy-IsValid (omega arith) refl

-- `late` is there from the start; the second round begins at 30.
get-EachTimely_example :
    EachTimely
      (pos 100)
      (pos 20)
      (pos 20)
      idle
      quiet_wait
      (get (pos 100) (pos 20) quiet_wait idle).timeouts
unfolding ◌-ℤ◌ calls scan collect_due pull
get-EachTimely_example =
    get-EachTimely (pos 100) (pos 20) (inr (omega arith)) (omega arith) quiet_wait idle idle-IsValid
      (omega arith) (ground arith)

abbrev posting : Round
posting = record {
  start = pos 20;
  waits = [];
  handler = Call.post 4 (some 7) 5 none ∷ [];
  finish = pos 21;
}

-- `busy` quits at 20, with a peeked message; the third round begins at 50, when `late` is due.
abbrev leaving : Queue
leaving = record busy { stop = 1; peek_keep = true; msg_peek = hello }

abbrev rounds : List Round
rounds =
    posting
    ∷ posting
    ∷ record posting { start = pos 50 }
    ∷ record posting { start = pos 60 }
    ∷ record posting { start = pos 70 }
    ∷ record posting { start = pos 80 }
    ∷ []

process_messages_drains_example :
    let p = process_messages (pos 0) forever rounds leaving in
    (p.answered ≡ some false)
    × (p.handled
        ≡ peeked leaving
          ++ select is_live (pending (start_of (length p.handled) (pos 0) rounds) leaving))
unfolding less is_quitting
process_messages_drains_example =
    process_messages_drains (pos 0) rounds leaving ((refl, tt), (tt, tt)) refl (omega arith)
      ((refl, tt), ((refl, tt), ((refl, tt), ((refl, tt), ((refl, tt), ((refl, tt), tt))))))
      (omega arith)
