-- ===== src/ThreadC/Once.antt =====
-- `call_once` of features/thread_c_inl.h, as it is built for Windows, by any number of threads on one flag. Each access to the
-- flag, each call on its lock, and the start and the end of `func` is one step of some thread. The lock is the
-- system's: a thread that enters while another one holds it waits.
pub mod Runs
mod Tests
use rtc_base.Common.{
  ℕ, ◌+◌, ◌≤◌, ◌<◌, ◌≡◌, ◌≢◌, refl, Bool, true, false, ◌&&◌, Option, none, some, List, [], ◌∷◌, ltb,
  ◌==◌, if◌then◌else◌, arith,
}

-- Where a thread is in `call_once`, named by what it does next.
pub data OncePhase : Type 0 where
  looping switching comparing : OncePhase
  initializing entering announcing starting running finishing leaving : OncePhase
  blocked passing : OncePhase
  returned : OncePhase

-- `is_valid` is false after the lock is entered before it is initialised, or left by a thread that does not hold it.
-- `chosen` is the thread whose exchange succeeded; `starts` and `ends` count the calls of `func` and their ends.
pub record World : Type 0 where
  pub status : ℕ
  pub is_ready : Bool
  pub holder : Option ℕ
  pub is_valid : Bool
  pub chosen : Option ℕ
  pub starts : ℕ
  pub ends : ℕ
  pub phases : ℕ → OncePhase

abbrev pub put_phase : ℕ → OncePhase → (ℕ → OncePhase) → ℕ → OncePhase
put_phase i p phases j = if j == i then p else phases j

abbrev pub is_taken : Option ℕ → Bool
is_taken none = false
is_taken (some k) = true

abbrev move_to : ℕ → OncePhase → World → World
move_to i p w = record w { phases = put_phase i p w.phases }

-- `EnterCriticalSection`: a thread that has to wait tries again at its next step.
enter_lock : Option ℕ → ℕ → OncePhase → OncePhase → World → World
enter_lock none i stay next w = record w {
  holder = some i;
  is_valid = w.is_valid && w.is_ready;
  phases = put_phase i next w.phases;
}
enter_lock (some k) i stay next w = record w {
  is_valid = w.is_valid && w.is_ready;
  phases = put_phase i stay w.phases;
}

abbrev is_held_by : Option ℕ → ℕ → Bool
is_held_by none i = false
is_held_by (some k) i = k == i

leave_lock : ℕ → OncePhase → World → World
leave_lock i next w = record w {
  holder = none;
  is_valid = w.is_valid && is_held_by w.holder i;
  phases = put_phase i next w.phases;
}

-- The `switch` on the status
chosen_case : ℕ → OncePhase
chosen_case status =
    if status == 0
    then comparing
    else if status == 1
    then looping
    else if status == 2
    then blocked
    else looping

compare_exchange : ℕ → World → World
compare_exchange i w =
    if w.status == 0
    then record w { status = 1; chosen = some i; phases = put_phase i initializing w.phases }
    else move_to i looping w

call_once : OncePhase → ℕ → World → World
unfolding enter_lock leave_lock chosen_case compare_exchange
call_once looping i w = move_to i (if ltb w.status 3 then switching else returned) w
call_once switching i w = move_to i (chosen_case w.status) w
call_once comparing i w = compare_exchange i w
call_once initializing i w = record w { is_ready = true; phases = put_phase i entering w.phases }
call_once entering i w = enter_lock w.holder i entering announcing w
call_once announcing i w = record w { status = 2; phases = put_phase i starting w.phases }
call_once starting i w = record w { starts = w.starts + 1; phases = put_phase i running w.phases }
call_once running i w = record w { ends = w.ends + 1; phases = put_phase i finishing w.phases }
call_once finishing i w = record w { status = 3; phases = put_phase i leaving w.phases }
call_once leaving i w = leave_lock i returned w
call_once blocked i w = enter_lock w.holder i blocked passing w
call_once passing i w = leave_lock i looping w
call_once returned i w = move_to i returned w

pub once_step : ℕ → World → World
unfolding call_once
once_step i w = call_once (w.phases i) i w

pub run_calls : List ℕ → World → World
run_calls [] w = w
run_calls (i ∷ is) w = run_calls is (once_step i w)

-- ONCE_FLAG_INIT, and no thread in the call
pub new_flag : World
new_flag = record {
  status = 0;
  is_ready = false;
  holder = none;
  is_valid = true;
  chosen = none;
  starts = 0;
  ends = 0;
  phases = λ i. looping;
}
