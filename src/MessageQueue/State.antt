-- ===== src/MessageQueue/State.antt =====
-- thread.cc, thread.h: the message queue of `rtc::Thread`. The state holds the members that the
-- queue functions read or write, and two observations of what they do outside: how often the socket
-- server was woken, and which message data was deleted.
use rtc_base.Common.{
  ℕ, ◌+◌, ◌%◌, ◌^◌, Bool, false, Option, none, List, [], ◌∷◌, ◌++◌, ◌==◌, not, if◌then◌else◌,
  length,
}
use rtc_base.Common.Int.{ℤ, ◌-ℤ◌, ◌+ℤ◌}
use rtc_base.Message.{Message, free}
use rtc_base.MessageQueue.Delayed.{DelayedMessage, push}

pub record Queue : Type 0 where
  pub peek_keep : Bool  -- fPeekKeep_
  pub msg_peek : Message
  pub messages : List Message
  pub delayed_messages : List DelayedMessage
  pub delayed_next_num : ℕ  -- uint32_t
  pub stop : ℕ  -- stop_, read and written atomically
  pub wake_ups : ℕ  -- calls of `ss_->WakeUp()`
  pub deleted : List ℕ  -- message data deleted by the queue

-- The constructor `Thread::Thread` as far as the queue goes; `msgPeek_` is `Message()`.
abbrev pub new_queue : Queue
new_queue = record {
  peek_keep = false;
  msg_peek = record { posted_from = 0; phandler = none; message_id = 0; pdata = none };
  messages = [];
  delayed_messages = [];
  delayed_next_num = 0;
  stop = 0;
  wake_ups = 0;
  deleted = [];
}

unfoldable pub is_quitting : Queue → Bool
is_quitting q = not (q.stop == 0)

unfoldable pub wake_up : Queue → Queue
wake_up q = record q { wake_ups = q.wake_ups + 1 }

unfoldable pub quit : Queue → Queue
unfolding wake_up
quit q = wake_up (record q { stop = 1 })

unfoldable pub restart : Queue → Queue
restart q = record q { stop = 0 }

abbrev pub message : ℕ → Option ℕ → ℕ → Option ℕ → Message
message posted_from phandler id pdata = record {
  posted_from = posted_from;
  phandler = phandler;
  message_id = id;
  pdata = pdata;
}

abbrev pub delayed_message : ℤ → ℤ → ℕ → Message → DelayedMessage
delayed_message delay_ms run_at_ms number msg = record {
  delay_ms = delay_ms;
  run_time_ms = run_at_ms;
  message_number = number;
  msg = msg;
}

unfoldable pub post : ℕ → Option ℕ → ℕ → Option ℕ → Queue → Queue
unfolding wake_up
post posted_from phandler id pdata q =
    if is_quitting q
    then record q { deleted = free pdata q.deleted }
    else wake_up
        (record q { messages = q.messages ++ (message posted_from phandler id pdata ∷ []) })
  where
    msg : Message
    msg = record { posted_from = posted_from; phandler = phandler; message_id = id; pdata = pdata }

-- The debug-only check that `delayed_next_num_` has not come round to 0 is left out.
unfoldable pub do_delay_post : ℕ → ℤ → ℤ → Option ℕ → ℕ → Option ℕ → Queue → Queue
unfolding wake_up
do_delay_post posted_from delay_ms run_at_ms phandler id pdata q =
    if is_quitting q
    then record q { deleted = free pdata q.deleted }
    else wake_up (record q {
      delayed_messages =
          push
            (delayed_message delay_ms run_at_ms q.delayed_next_num
              (message posted_from phandler id pdata))
            q.delayed_messages;
      delayed_next_num = (q.delayed_next_num + 1) % 2 ^ 32;
    })

-- `now` is what `TimeMillis` returns at the call.
unfoldable pub post_delayed : ℤ → ℕ → ℤ → Option ℕ → ℕ → Option ℕ → Queue → Queue
post_delayed now posted_from delay_ms phandler id pdata q =
    do_delay_post posted_from delay_ms (now +ℤ delay_ms) phandler id pdata q

unfoldable pub post_at : ℤ → ℕ → ℤ → Option ℕ → ℕ → Option ℕ → Queue → Queue
post_at now posted_from run_at_ms phandler id pdata q =
    do_delay_post posted_from (run_at_ms -ℤ now) run_at_ms phandler id pdata q

-- `Thread::size`
unfoldable pub size : Queue → ℕ
size q = length q.messages + length q.delayed_messages + (if q.peek_keep then 1 else 0)
