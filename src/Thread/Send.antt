-- ===== src/Thread/Send.antt =====
-- thread.cc: `Send` from one thread to another, and the task that it posts. A world is the target's side: its queue,
-- whether it quits, and what the senders wait on. Each `Send` has a number, and its own `ready` or event. A sender
-- looks at it and falls asleep, in its socket server's `Wait` or in the event's, until it is woken.
pub mod Reply
pub mod Served
use rtc_base.Common.{
  ℕ, suc, ◌+◌, Bool, true, false, not, ◌&&◌, List, [], ◌∷◌, ◌++◌, Option, none, some, ◌==◌,
  if◌then◌else◌,
}

-- `_SendMessage`: the send, and whether its sender is an `rtc::Thread`, whose socket server is woken, or not, so
-- that an event is set.
pub record SendMessage : Type 0 where
  pub send : ℕ
  pub from_thread : Bool

-- A posted message: a task of `QueuedTaskHandler`, or one for some other handler.
pub data Task : Type 0 where
  k_send : SendMessage → Task
  other : ℕ → Task

pub record Target : Type 0 where
  pub queue : List Task
  pub quitting : Bool
  pub ready : ℕ → Bool  -- `ready`, or the event `done`, of each send
  pub asleep : ℕ → Bool  -- the sender of each send, which waits without a limit
  pub handled : List ℕ  -- the sends whose handler has run, the last first

-- The function with one value changed.
abbrev pub at : (ℕ → Bool) → ℕ → Bool → ℕ → Bool
at f n v x = if x == n then v else f x

-- `OnMessage` of the handler that a message is sent to.
abbrev pub handle : ℕ → Target → Target
handle n w = record w { handled = n ∷ w.handled }

-- `Post`, which drops the message of a thread that quits.
pub post : Task → Target → Target
post k w = if w.quitting then w else record w { queue = w.queue ++ k ∷ [] }

-- How a call of `Send` goes on: it has returned, or it waits.
pub data Sent : Type 0 where
  returned waits : Sent

-- The part of `Send` that posts the task, with `ready` false.
post_send : Bool → ℕ → Target → Target
unfolding post
post_send has_current n w =
    post (k_send (record { send = n; from_thread = has_current }))
      (record w { ready = at w.ready n false; asleep = at w.asleep n false })

-- `Send`, up to its wait: `is_current` and `has_current` are what `IsCurrent` and `Current` answer.
pub send_to : Bool → Bool → ℕ → Target → Target × Sent
unfolding post_send
send_to is_current has_current n w =
    if w.quitting
    then (w, returned)
    else if is_current
    then (handle n w, returned)
    else (post_send has_current n w, waits)

-- One turn of the loop in `Send`: the sender that does not see `ready` goes to sleep. (An event that is set between
-- the look and the sleep is not lost, since the socket server and the event keep it.)
pub look : ℕ → Target → Target
look n w = if w.ready n then w else record w { asleep = at w.asleep n true }

-- `WakeUp` of the socket server of a send's sender.
pub wake_up : ℕ → Target → Target
wake_up n w = record w { asleep = at w.asleep n false }

-- `Set` of the event of a send, whose sender is no `rtc::Thread`.
pub set_done : ℕ → Target → Target
set_done n w = record w { ready = at w.ready n true; asleep = at w.asleep n false }

-- The wait of `Send` ends once the sender is awake and sees `ready`.
pub may_return : ℕ → Target → Bool
may_return n w = w.ready n && not (w.asleep n)

-- `QueuedTaskHandler::OnMessage` of a send.
pub on_message : SendMessage → Target → Target
unfolding wake_up set_done
on_message smsg w =
    let h = handle smsg.send w in
    if smsg.from_thread
    then wake_up smsg.send (record h { ready = at h.ready smsg.send true })
    else set_done smsg.send h

run_task : Task → Target → Target
unfolding on_message
run_task (k_send smsg) w = on_message smsg w
run_task (other k) w = w

-- What happens while a sender waits: the target runs its next message, someone posts to it, sends to it, tells it to
-- quit, or its queue is cleared for all handlers, as `DoDestroy` does; a `Send` that has passed its own test of
-- `IsQuitting` posts its task, perhaps to a target that quits by now; a sender looks whether it is ready, or something
-- else wakes it.
pub data Act : Type 0 where
  runs_next : Act
  posts : ℕ → Act
  sends posts_task : Bool → ℕ → Act
  looks wakes : ℕ → Act
  quits clears_all : Act

run_first : List Task → Target → Target
unfolding run_task
run_first [] w = w
run_first (k ∷ ks) w = run_task k (record w { queue = ks })

pub act : Act → Target → Target
unfolding run_first post send_to post_send look wake_up
act runs_next w = run_first w.queue w
act (posts k) w = post (other k) w
act (sends has_current n) w = (send_to false has_current n w).0
act (posts_task has_current n) w = post_send has_current n w
act (looks n) w = look n w
act (wakes n) w = wake_up n w
act quits w = record w { quitting = true }
act clears_all w = record w { queue = [] }

pub acts : List Act → Target → Target
acts [] w = w
acts (a ∷ rest) w = acts rest (act a w)
