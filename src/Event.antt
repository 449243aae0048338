-- ===== src/Event.antt =====
-- event.cc, as it is built on a mutex and a condition variable. The mutex is held between two waits, so that each step
-- below is one: a call, or what a thread does from one wake-up to its next wait.
pub mod Signals
mod Tests
use rtc_base.Common.{
  ℕ, ◌+◌, Bool, true, false, not, ◌&&◌, ◌||◌, List, [], ◌∷◌, if◌then◌else◌, get_or, set,
}
use rtc_base.Common.Int.{ℤ, pos, negsuc, ltb_ℤ, eqb_ℤ}

abbrev pub k_forever : ℤ
k_forever = negsuc 0

-- Whether `Wait` has a time at which it warns, before it gives up.
pub warns : ℤ → ℤ → Bool
warns give_up_after_ms warn_after_ms = not (
    eqb_ℤ warn_after_ms k_forever
    || (not (eqb_ℤ give_up_after_ms k_forever) && ltb_ℤ give_up_after_ms warn_after_ms))

-- A thread outside of `Wait`, in its first wait of two, in its last one, and returned with an answer.
pub data Phase : Type 0 where
  outside first_wait last_wait : Phase
  returned : Bool → Phase

-- What a wait on the condition returns: 0, ETIMEDOUT or another error. A wait may return 0 with no signal.
pub data Wakeup : Type 0 where
  woken timed_out other_error : Wakeup

-- `wakes` and `sets` count the calls of `Wait` that answered true and those of `Set`.
pub record World : Type 0 where
  pub is_manual_reset : Bool
  pub status : Bool
  pub phases : List Phase
  pub wakes : ℕ
  pub sets : ℕ

pub event : Bool → Bool → List Phase → World
event manual_reset initially_signaled phases = record {
  is_manual_reset = manual_reset;
  status = initially_signaled;
  phases = phases;
  wakes = 0;
  sets = 0;
}

-- `Set` and `Reset`
pub set_event : World → World
set_event w = record w { status = true; sets = w.sets + 1 }

pub reset_event : World → World
reset_event w = record w { status = false }

abbrev enter_phase : ℕ → Phase → World → World
enter_phase i p w = record w { phases = set w.phases i p }

-- The end of `Wait`, with no error: an automatic event is reset.
succeed : ℕ → World → World
succeed i w =
    let v = if not w.is_manual_reset then record w { status = false } else w in
    record v { phases = set w.phases i (returned true); wakes = w.wakes + 1 }

-- The test of the loop: `Wait` goes on at once, or waits.
check_status : ℕ → Phase → World → World
unfolding succeed
check_status i p w = if w.status then succeed i w else enter_phase i p w

-- `Wait`, up to its first wait.
pub call_wait : Bool → ℕ → World → World
unfolding check_status
call_wait has_warning i w = check_status i (if has_warning then first_wait else last_wait) w

-- From a wake-up on.
wake_in : Phase → Wakeup → ℕ → World → World
unfolding check_status
wake_in first_wait woken i w = check_status i first_wait w
wake_in first_wait timed_out i w = check_status i last_wait w
wake_in first_wait other_error i w = enter_phase i (returned false) w
wake_in last_wait woken i w = check_status i last_wait w
wake_in last_wait timed_out i w = enter_phase i (returned false) w
wake_in last_wait other_error i w = enter_phase i (returned false) w
wake_in outside _ i w = w
wake_in (returned b) _ i w = w

pub wake : Wakeup → ℕ → World → World
unfolding wake_in
wake k i w = wake_in (get_or w.phases i outside) k i w

pub data Act : Type 0 where
  sets_it resets_it : Act
  waits : (give_up_after_ms warn_after_ms : ℤ) → ℕ → Act
  wakes_up : Wakeup → ℕ → Act

pub act : Act → World → World
unfolding call_wait wake
act sets_it w = set_event w
act resets_it w = reset_event w
act (waits give_up warn i) w = call_wait (warns give_up warn) i w
act (wakes_up k i) w = wake k i w

pub acts : List Act → World → World
acts [] w = w
acts (a ∷ rest) w = acts rest (act a w)
