-- ===== src/Thread/Send/Reply.antt =====
-- When a waiting `Send` returns, and when it never does.
use rtc_base.Common.{
  ℕ, zero, suc, ◌≡◌, ◌≢◌, refl, sym, ap, ◌∙◌, Bool, true, false, ◌||◌, List, [], ◌∷◌, ◌++◌, ◌==◌,
  arith, Bool-cases, inl, inr, ==_same,
}
use rtc_base.Thread.Send.{
  waits, SendMessage, Task, k_send, other, Target, at, post, post_send, look, wake_up, set_done,
  send_to, may_return, on_message, run_task, run_first, Act, runs_next, posts, sends, posts_task,
  looks, wakes, quits, clears_all, act, acts,
}

abbrev pub has : ℕ → List ℕ → Bool
has n [] = false
has n (x ∷ xs) = (n == x) || has n xs

-- Whether a message is the task of a send.
abbrev pub is_task : ℕ → Task → Bool
is_task n (k_send m) = n == m.send
is_task n (other k) = false

-- Whether the queue holds it, and whether it does so with at most `i` messages in front.
abbrev pub pending : ℕ → List Task → Bool
pending n [] = false
pending n (k ∷ ks) = is_task n k || pending n ks

abbrev pub due : ℕ → ℕ → List Task → Bool
due n i [] = false
due n zero (k ∷ ks) = is_task n k
due n (suc i) (k ∷ ks) = is_task n k || due n i ks

-- The handler of each send that may return has run.
abbrev pub IsHonest : Target → Type 0
IsHonest w = (n : ℕ) → w.ready n ≡ true → has n w.handled ≡ true

module _ (m : SendMessage) (w : Target) where
  pub ready_after : (on_message m w).ready ≡ at w.ready m.send true
  unfolding on_message wake_up set_done
  ready_after = elim (Bool-cases m.from_thread) [ inl e ↦ rw e refl | inr e ↦ rw e refl ]

  -- Its sender is woken.
  pub asleep_after : (on_message m w).asleep ≡ at w.asleep m.send false
  unfolding on_message wake_up set_done
  asleep_after = elim (Bool-cases m.from_thread) [ inl e ↦ rw e refl | inr e ↦ rw e refl ]

  handled_after : (on_message m w).handled ≡ m.send ∷ w.handled
  unfolding on_message wake_up set_done
  handled_after = elim (Bool-cases m.from_thread) [ inl e ↦ rw e refl | inr e ↦ rw e refl ]

  pub queue_after : (on_message m w).queue ≡ w.queue
  unfolding on_message wake_up set_done
  queue_after = elim (Bool-cases m.from_thread) [ inl e ↦ rw e refl | inr e ↦ rw e refl ]

  on_message-IsHonest : IsHonest w → IsHonest (on_message m w)
  on_message-IsHonest h n is_ready = rw handled_after (elim (Bool-cases (n == m.send)) [
    | inl e ↦ rw e refl
    | inr e ↦ rw e (h n (elsewhere e (ap (λ r. r n) (sym ready_after) ∙ is_ready)))
  ])
    where
      elsewhere : (n == m.send) ≡ false → at w.ready m.send true n ≡ true → w.ready n ≡ true
      elsewhere e r = rw e at r

act-IsHonest : (a : Act) (w : Target) → IsHonest w → IsHonest (act a w)
unfolding act run_first run_task post send_to post_send look wake_up
act-IsHonest runs_next w h = first w.queue
  where
    first : (ks : List Task) → IsHonest (run_first ks w)
    first [] = h
    first (k_send m ∷ ks) = on_message-IsHonest m (record w { queue = ks }) h
    first (other k ∷ ks) = h
act-IsHonest (posts k) w h = λ n is_ready. ground (arith, h n)
act-IsHonest (sends c m) w h = λ n is_ready. ground (arith, h n)
act-IsHonest (posts_task c m) w h = λ n is_ready. ground (arith, h n)
act-IsHonest (looks m) w h = λ n is_ready. ground (arith, h n)
act-IsHonest (wakes m) w h = h
act-IsHonest quits w h = h
act-IsHonest clears_all w h = h

-- From a world where the handler of each send that may return has run, whatever happens at the target: a send
-- that may return afterwards has had its handler run.
pub acts-IsHonest : (as_done : List Act) (w : Target) → IsHonest w → IsHonest (acts as_done w)
unfolding acts
acts-IsHonest [] w h = h
acts-IsHonest (a ∷ rest) w h = acts-IsHonest rest (act a w) (act-IsHonest a w h)

-- The act sends under another number, or does not send.
abbrev pub IsFresh : ℕ → Act → Type 0
IsFresh n (sends h m) = n ≢ m
IsFresh n (posts_task h m) = n ≢ m
IsFresh n _ = Unit {0}

abbrev pub Fresh : ℕ → List Act → Type 0
Fresh n [] = Unit {0}
Fresh n (a ∷ rest) = IsFresh n a × Fresh n rest

abbrev pub Lost : ℕ → Target → Type 0
Lost n w = (w.ready n ≡ false) × (pending n w.queue ≡ false)

pending-append : (n : ℕ) (ks ls : List Task) → pending n (ks ++ ls) ≡ pending n ks || pending n ls
pending-append n [] ls = refl
pending-append n (k ∷ ks) ls = ground (arith, pending-append n ks ls)

module _ (n : ℕ) where
  run_first-Lost :
      (ks : List Task) (w : Target)
      → w.ready n ≡ false
      → pending n ks ≡ false
      → Lost n (run_first ks (record w { queue = ks }))
  unfolding run_first run_task
  run_first-Lost [] w r p = (r, refl)
  run_first-Lost (k_send m ∷ ks) w r p = (
    rw (ready_after m (record w { queue = ks })) (ground arith),
    rw (queue_after m (record w { queue = ks })) (ground arith),
  )
  run_first-Lost (other k ∷ ks) w r p = (r, p)

  act-Lost : (a : Act) (w : Target) → Lost n w → IsFresh n a → Lost n (act a w)
  unfolding act post send_to post_send look wake_up
  act-Lost runs_next w l f = run_first-Lost w.queue w l.0 l.1
  act-Lost (posts k) w l f = ground (arith, pending-append n w.queue (other k ∷ []))
  act-Lost (sends h m) w l f =
      ground (arith, pending-append n w.queue (k_send (record { send = m; from_thread = h }) ∷ []))
  act-Lost (posts_task h m) w l f =
      ground (arith, pending-append n w.queue (k_send (record { send = m; from_thread = h }) ∷ []))
  act-Lost (looks m) w l f = ground (arith, l.0)
  act-Lost (wakes m) w l f = l
  act-Lost quits w l f = l
  act-Lost clears_all w l f = (l.0, refl)

  -- A send whose task is not in the target's queue and which may not return yet may never return, whatever
  -- happens at the target, unless it is sent again.
  pub acts-Lost : (rest : List Act) (w : Target) → Lost n w → Fresh n rest → Lost n (acts rest w)
  unfolding acts
  acts-Lost [] w l f = l
  acts-Lost (a ∷ rest) w l f = acts-Lost rest (act a w) (act-Lost a w l f.0) f.1

send_waits :
    (n : ℕ) (has_current : Bool) (w : Target)
    → w.quitting ≡ false
    → send_to false has_current n w ≡ (
      record w {
        queue = w.queue ++ k_send (record { send = n; from_thread = has_current }) ∷ [];
        ready = at w.ready n false;
        asleep = at w.asleep n false;
      },
      waits,
    )
unfolding send_to post_send post
send_waits n has_current w open_queue = ground arith

Lost-may_return : (n : ℕ) (w : Target) → Lost n w → may_return n w ≡ false
unfolding may_return
Lost-may_return n w l = rw (l.0) refl

at_self : (r : ℕ → Bool) (n : ℕ) → at r n false n ≡ false
at_self r n = rw (==_same n) refl

-- A thread that sends to another one, which does not quit, and whose queue is then cleared for all handlers, as in its
-- destructor, never comes back, whatever happens afterwards, unless the send itself is made again.
pub send_to_cleared :
    (n : ℕ) (has_current : Bool) (w : Target) (rest : List Act)
    → w.quitting ≡ false
    → Fresh n rest
    → ((send_to false has_current n w).1 ≡ waits)
      × (may_return n (acts rest (act clears_all (send_to false has_current n w).0)) ≡ false)
unfolding act
send_to_cleared n has_current w rest open_queue f =
    rw (send_waits n has_current w open_queue)
      (refl, Lost-may_return n _ (acts-Lost n rest _ (at_self w.ready n, refl) f))
