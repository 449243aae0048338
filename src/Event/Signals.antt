-- ===== src/Event/Signals.antt =====
-- How many calls of `Wait` a signal lets through.
use rtc_base.Common.{
  ℕ, ◌+◌, ◌≤◌, ◌≡◌, ◌||◌, Bool, true, false, not, List, [], ◌∷◌, if◌then◌else◌, get_or, length, ◌<◌,
  arith,
}
use rtc_base.Common.Ring.{get_or-set_here}
use rtc_base.Event.{
  Phase, outside, first_wait, last_wait, returned, Wakeup, woken, timed_out, other_error, World,
  set_event, reset_event, succeed, check_status, call_wait, wake_in, wake, Act, sets_it, resets_it,
  waits, wakes_up, act, acts, warns,
}

abbrev one_if : Bool → ℕ
one_if b = if b then 1 else 0

-- The calls that answered true, with the signal that is still there, against the signals so far.
pub record IsPaid (start : ℕ) (w : World) : Type 0 where
  pub automatic : w.is_manual_reset ≡ false
  pub paid : w.wakes + one_if w.status ≤ start + w.sets

module _ (start : ℕ) where
  check_status-IsPaid :
      (i : ℕ) (p : Phase) (w : World) → IsPaid start w → IsPaid start (check_status i p w)
  unfolding check_status succeed
  check_status-IsPaid i p w h = ground arith

  wake_in-IsPaid :
      (p : Phase) (k : Wakeup) (i : ℕ) (w : World) → IsPaid start w → IsPaid start (wake_in p k i w)
  unfolding wake_in
  wake_in-IsPaid first_wait woken i w h = check_status-IsPaid i first_wait w h
  wake_in-IsPaid first_wait timed_out i w h = check_status-IsPaid i last_wait w h
  wake_in-IsPaid first_wait other_error i w h = record { automatic = h.automatic; paid = h.paid }
  wake_in-IsPaid last_wait woken i w h = check_status-IsPaid i last_wait w h
  wake_in-IsPaid last_wait timed_out i w h = record { automatic = h.automatic; paid = h.paid }
  wake_in-IsPaid last_wait other_error i w h = record { automatic = h.automatic; paid = h.paid }
  wake_in-IsPaid outside k i w h = h
  wake_in-IsPaid (returned b) k i w h = h

  act-IsPaid : (a : Act) (w : World) → IsPaid start w → IsPaid start (act a w)
  unfolding act call_wait wake set_event reset_event
  act-IsPaid sets_it w h = ground arith
  act-IsPaid resets_it w h = ground arith
  act-IsPaid (waits g m i) w h =
      check_status-IsPaid i (if warns g m then first_wait else last_wait) w h
  act-IsPaid (wakes_up k i) w h = wake_in-IsPaid (get_or w.phases i outside) k i w h

  -- On an automatic event, whatever threads set, reset and wait for it, with whatever limits of time, and
  -- however they are woken: if the calls of `Wait` that answered true, and a signal still there, are no more than the signals
  -- so far and `start`, they stay so. Each `Set` lets one call through at most.
  pub acts-IsPaid : (rest : List Act) (w : World) → IsPaid start w → IsPaid start (acts rest w)
  unfolding acts
  acts-IsPaid [] w h = h
  acts-IsPaid (a ∷ rest) w h = acts-IsPaid rest (act a w) (act-IsPaid a w h)

succeeded :
    (i : ℕ) (p : Phase) (w : World)
    → i < length w.phases
    → w.status ≡ true
    → get_or (check_status i p w).phases i outside ≡ returned true
unfolding check_status succeed
succeeded i p w h on = ground (arith, get_or-set_here w.phases i (returned true) outside h)

signal_left :
    (i : ℕ) (p : Phase) (w : World)
    → w.status ≡ true
    → (check_status i p w).status ≡ w.is_manual_reset
unfolding check_status succeed
signal_left i p w on = ground arith

-- A waiting thread that is woken while the event is signaled answers true. One whose time is up while it is signaled
-- answers true where that is the time of the warning, which resets an automatic event, and otherwise answers
-- false and leaves the signal.
pub wake_answers :
    (has_warning : Bool) (i : ℕ) (w : World)
    → i < length w.phases
    → w.status ≡ true
    → get_or w.phases i outside ≡ (if has_warning then first_wait else last_wait)
    → (get_or (wake woken i w).phases i outside ≡ returned true)
      × (get_or (wake timed_out i w).phases i outside ≡ returned has_warning)
      × ((wake timed_out i w).status ≡ (not has_warning || w.is_manual_reset))
unfolding wake wake_in
wake_answers true i w h on e =
    rw e (succeeded i first_wait w h on, succeeded i last_wait w h on, signal_left i last_wait w on)
wake_answers false i w h on e =
    rw e (succeeded i last_wait w h on, get_or-set_here w.phases i (returned false) outside h, on)
