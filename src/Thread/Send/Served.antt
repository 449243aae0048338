-- ===== src/Thread/Send/Served.antt =====
-- A waiting `Send` returns once its target has run the messages in front of it and its own.
use rtc_base.Common.{
  ℕ, zero, suc, ◌<◌, ◌≡◌, refl, ◌⊎◌, inl, inr, true, false, List, [], ◌∷◌, ◌++◌, ◌==◌, arith,
  Bool-cases, ==_other, ==_same,
}
use rtc_base.Thread.Send.{
  SendMessage, Task, k_send, other, Target, post, post_send, look, wake_up, send_to, may_return,
  on_message, run_task, run_first, Act, runs_next, posts, sends, posts_task, looks, wakes, quits,
  clears_all, act, acts,
}
use rtc_base.Thread.Send.Reply.{due, ready_after, asleep_after, queue_after, IsFresh, Fresh}

-- The acts with no clearing of the queue, and how many of them run a message.
abbrev pub Uncleared : List Act → Type 0
Uncleared [] = Unit {0}
Uncleared (clears_all ∷ rest) = ⊥
Uncleared (_ ∷ rest) = Uncleared rest

abbrev pub runs : List Act → ℕ
runs [] = 0
runs (runs_next ∷ rest) = suc (runs rest)
runs (_ ∷ rest) = runs rest

due-append : (n i : ℕ) (ks ls : List Task) → due n i ks ≡ true → due n i (ks ++ ls) ≡ true
due-append n i [] ls h = cc
due-append n zero (k ∷ ks) ls h = h
due-append n (suc i) (k ∷ ks) ls h = ground (arith, due-append n i ks ls)

-- The sender is awake and has its answer, or the task has at most `i` messages in front.
abbrev pub Answered : ℕ → Target → Type 0
Answered n w = (w.ready n ≡ true) × (w.asleep n ≡ false)

abbrev pub Coming : ℕ → ℕ → Target → Type 0
Coming n i w = Answered n w ⊎ (due n i w.queue ≡ true)

module _ (n : ℕ) where
  still_answered : (m : SendMessage) (w : Target) → Answered n w → Answered n (on_message m w)
  still_answered m w a =
      (rw (ready_after m w) (ground (arith, a.0)), rw (asleep_after m w) (ground (arith, a.1)))

  answers : (m : SendMessage) (w : Target) → (n == m.send) ≡ true → Answered n (on_message m w)
  answers m w e = (rw (ready_after m w) (rw e refl), rw (asleep_after m w) (rw e refl))

  run_answered : (ks : List Task) (w : Target) → Answered n w → Answered n (run_first ks w)
  unfolding run_first run_task
  run_answered [] w a = a
  run_answered (k_send m ∷ ks) w a = still_answered m (record w { queue = ks }) a
  run_answered (other k ∷ ks) w a = a

  run_last : (ks : List Task) (w : Target) → due n 0 ks ≡ true → Answered n (run_first ks w)
  unfolding run_first run_task
  run_last [] w d = cc
  run_last (k_send m ∷ ks) w d = answers m (record w { queue = ks }) d
  run_last (other k ∷ ks) w d = cc

  run_nearer :
      (i : ℕ) (ks : List Task) (w : Target) → due n (suc i) ks ≡ true → Coming n i (run_first ks w)
  unfolding run_first run_task
  run_nearer i [] w d = cc
  run_nearer i (k_send m ∷ ks) w d = elim (Bool-cases (n == m.send)) [
    | inl e ↦ inl (answers m (record w { queue = ks }) e)
    | inr e ↦ inr (rw (queue_after m (record w { queue = ks })) (rw e at d))
  ]
  run_nearer i (other k ∷ ks) w d = inr d

  -- An act that runs no message and clears nothing keeps the answer, and the task in its place.
  abbrev IsQuiet : Act → Type 0
  IsQuiet runs_next = ⊥
  IsQuiet clears_all = ⊥
  IsQuiet _ = Unit {0}

  quiet_answered :
      (a : Act) (w : Target) → IsFresh n a → Answered n w → IsQuiet a → Answered n (act a w)
  unfolding act post send_to post_send look wake_up
  quiet_answered runs_next w f a q = elim q [ ]
  quiet_answered (posts k) w f a q = ground (arith, a.0, a.1)
  quiet_answered (sends h m) w f a q = ground (arith, a.0, a.1, ==_other n m f)
  quiet_answered (posts_task h m) w f a q = ground (arith, a.0, a.1, ==_other n m f)
  quiet_answered (looks m) w f a q = ground (arith, a.0, a.1, ==_same n)
  quiet_answered (wakes m) w f a q = ground (arith, a.0, a.1)
  quiet_answered quits w f a q = a
  quiet_answered clears_all w f a q = elim q [ ]

  quiet_due :
      (a : Act) (i : ℕ) (w : Target)
      → due n i w.queue ≡ true
      → IsQuiet a
      → due n i (act a w).queue ≡ true
  unfolding act post send_to post_send look wake_up
  quiet_due runs_next i w d q = elim q [ ]
  quiet_due (posts k) i w d q = ground (arith, due-append n i w.queue (other k ∷ []))
  quiet_due (sends h m) i w d q =
      ground (arith, due-append n i w.queue (k_send (record { send = m; from_thread = h }) ∷ []))
  quiet_due (posts_task h m) i w d q =
      ground (arith, due-append n i w.queue (k_send (record { send = m; from_thread = h }) ∷ []))
  quiet_due (looks m) i w d q = ground (arith, d)
  quiet_due (wakes m) i w d q = d
  quiet_due quits i w d q = d
  quiet_due clears_all i w d q = elim q [ ]

  quiet_Coming :
      (a : Act) (i : ℕ) (w : Target) → IsFresh n a → Coming n i w → IsQuiet a → Coming n i (act a w)
  quiet_Coming a i w f (inl c) q = inl (quiet_answered a w f c q)
  quiet_Coming a i w f (inr d) q = inr (quiet_due a i w d q)

  answered_stays :
      (rest : List Act) (w : Target)
      → Answered n w
      → Fresh n rest
      → Uncleared rest
      → Answered n (acts rest w)
  unfolding acts act
  answered_stays [] w a f u = a
  answered_stays (runs_next ∷ rest) w a f u = answered_stays rest _ (run_answered w.queue w a) f.1 u
  answered_stays (posts k ∷ rest) w a f u =
      answered_stays rest _ (quiet_answered (posts k) w f.0 a tt) f.1 u
  answered_stays (sends h m ∷ rest) w a f u =
      answered_stays rest _ (quiet_answered (sends h m) w f.0 a tt) f.1 u
  answered_stays (posts_task h m ∷ rest) w a f u =
      answered_stays rest _ (quiet_answered (posts_task h m) w f.0 a tt) f.1 u
  answered_stays (looks m ∷ rest) w a f u =
      answered_stays rest _ (quiet_answered (looks m) w f.0 a tt) f.1 u
  answered_stays (wakes m ∷ rest) w a f u =
      answered_stays rest _ (quiet_answered (wakes m) w f.0 a tt) f.1 u
  answered_stays (quits ∷ rest) w a f u = answered_stays rest _ a f.1 u
  answered_stays (clears_all ∷ rest) w a f u = elim u [ ]

  answered_returns : (w : Target) → Answered n w → may_return n w ≡ true
  unfolding may_return
  answered_returns w a = rw (a.0, a.1) refl

  -- A send whose task has at most `i` messages in front, and which is not sent again, may return once the target has run
  -- more than `i` messages, whatever else happens in between, as long as the target's queue is not cleared: the order to
  -- quit, other sends, and the sender's own looks, after which it sleeps if it has no answer yet.
  pub acts-may_return :
      (rest : List Act) (i : ℕ) (w : Target)
      → Coming n i w
      → Fresh n rest
      → Uncleared rest
      → i < runs rest
      → may_return n (acts rest w) ≡ true
  unfolding acts act
  acts-may_return [] i w c f u enough = absurd (omega arith)
  acts-may_return (runs_next ∷ rest) i w (inl r) f u enough =
      answered_returns _ (answered_stays (runs_next ∷ rest) w r f u)
  acts-may_return (runs_next ∷ rest) zero w (inr d) f u enough =
      answered_returns _ (answered_stays rest _ (run_last w.queue w d) f.1 u)
  acts-may_return (runs_next ∷ rest) (suc i) w (inr d) f u enough =
      acts-may_return rest i _ (run_nearer i w.queue w d) f.1 u (omega arith)
  acts-may_return (posts k ∷ rest) i w c f u enough =
      acts-may_return rest i _ (quiet_Coming (posts k) i w f.0 c tt) f.1 u enough
  acts-may_return (sends h m ∷ rest) i w c f u enough =
      acts-may_return rest i _ (quiet_Coming (sends h m) i w f.0 c tt) f.1 u enough
  acts-may_return (posts_task h m ∷ rest) i w c f u enough =
      acts-may_return rest i _ (quiet_Coming (posts_task h m) i w f.0 c tt) f.1 u enough
  acts-may_return (looks m ∷ rest) i w c f u enough =
      acts-may_return rest i _ (quiet_Coming (looks m) i w f.0 c tt) f.1 u enough
  acts-may_return (wakes m ∷ rest) i w c f u enough =
      acts-may_return rest i _ (quiet_Coming (wakes m) i w f.0 c tt) f.1 u enough
  acts-may_return (quits ∷ rest) i w c f u enough =
      acts-may_return rest i _ (quiet_Coming quits i w f.0 c tt) f.1 u enough
  acts-may_return (clears_all ∷ rest) i w c f u enough = elim u [ ]
