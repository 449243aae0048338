-- ===== src/Thread/Life.antt =====
-- thread.cc: construction, `Start`, `Stop`, `Join`, wrapping, destruction, and the slot of the current thread.
pub mod Sound
use rtc_base.Common.{
  ℕ, ◌+◌, ◌-◌, Bool, true, false, not, ◌&&◌, ◌||◌, List, [], ◌∷◌, Option, none, some, ◌==◌,
  if◌then◌else◌, ltb, leb,
}
use rtc_base.Common.Int.{ℤ, pos, ◌+ℤ◌, ◌-ℤ◌, leb_ℤ}

-- The `PlatformThread` of a thread: before `DoInit` or after `DoDestroy`, not started or joined, and started.
pub data Platform : Type 0 where
  absent idle running : Platform

-- `registered` counts the thread in the manager's list, `messages` is the length of its queue, and `served` says
-- whether the socket server knows it.
pub record ThreadState : Type 0 where
  pub f_initialized : Bool
  pub f_destroyed : Bool
  pub stop : Bool
  pub thread_ref : Bool
  pub owned : Bool
  pub platform : Platform
  pub registered : ℕ
  pub messages : ℕ
  pub served : Bool

-- `failed` is a check that fails, or a `PlatformThread` that is missing; `blocks` is a join of a thread that was not told to quit.
pub data Outcome {ℓ} (S : Type ℓ) : Type ℓ where
  done : S → Outcome S
  failed blocks : Outcome S

infixl 5 ◌>>=◌
abbrev pub ◌>>=◌ : {A B : Type 0} → Outcome A → (A → Outcome B) → Outcome B
done a >>= f = f a
failed >>= f = failed
blocks >>= f = blocks

do_init : ThreadState → ThreadState
do_init t = if t.f_initialized then t else record t {
  f_initialized = true;
  platform = idle;
  thread_ref = false;
  registered = t.registered + 1;
}

-- The constructor with `do_init`. `owned_` is true from its declaration.
pub construct : ThreadState
unfolding do_init
construct =
    let t : ThreadState = record {
      f_initialized = false;
      f_destroyed = false;
      stop = false;
      thread_ref = false;
      owned = true;
      platform = absent;
      registered = 0;
      messages = 0;
      served = true;
    } in
    do_init t

-- In what follows `on_maker` says whether the caller is the thread to which the `PlatformThread` is bound, the one
-- that made it: its members check this.

-- `PlatformThread::IsRunning`
is_started : Bool → Platform → Outcome Bool
is_started on_maker absent = failed
is_started on_maker idle = if on_maker then done false else failed
is_started on_maker running = if on_maker then done true else failed

-- `delete thread_`, which does nothing without a `PlatformThread`
platform_delete : Bool → Platform → Outcome Platform
unfolding is_started
platform_delete on_maker absent = done absent
platform_delete on_maker p =
    if not on_maker
    then failed
    else (is_started on_maker p >>= λ started. if started then failed else done absent)

do_destroy : Bool → ThreadState → Outcome ThreadState
unfolding platform_delete
do_destroy on_maker t =
    if t.f_destroyed
    then done t
    else (platform_delete on_maker t.platform >>= λ p. done (record t {
      f_destroyed = true;
      platform = p;
      served = false;
      registered = t.registered - 1;
      messages = 0;
    }))

pub quit : ThreadState → ThreadState
quit t = record t { stop = true }

pub is_quitting : ThreadState → Bool
is_quitting t = t.stop

pub restart : ThreadState → ThreadState
restart t = record t { stop = false }

pub is_running : ThreadState → Bool
is_running t = t.thread_ref

-- `PlatformThread::Start`
platform_start : Bool → Platform → Outcome Platform
unfolding is_started
platform_start on_maker p =
    if not on_maker
    then failed
    else (is_started on_maker p >>= λ started. if started then failed else done running)

-- `PlatformThread::Stop`: the join returns once the thread was told to quit.
platform_stop : Bool → Platform → Bool → Outcome Platform
unfolding is_started
platform_stop on_maker p quits =
    if not on_maker
    then failed
    else (is_started on_maker p >>= λ started.
        if not started then done p else if quits then done idle else blocks)

pub start : Bool → ThreadState → Outcome ThreadState
unfolding is_running restart platform_start
start on_maker t =
    let s = restart t in
    if is_running t
    then failed
    else (platform_start on_maker s.platform >>= λ p.
        done (record s { owned = true; platform = p; thread_ref = true }))

-- `current` says whether the caller runs on this thread.
pub join : Bool → Bool → ThreadState → Outcome ThreadState
unfolding is_running platform_stop
join on_maker current t =
    if not (is_running t)
    then done t
    else if current
    then failed
    else (platform_stop on_maker t.platform t.stop >>= λ p.
        done (record t { platform = p; thread_ref = false }))

pub stop_thread : Bool → Bool → ThreadState → Outcome ThreadState
unfolding quit join
stop_thread on_maker current t = join on_maker current (quit t)

pub destruct : Bool → Bool → ThreadState → Outcome ThreadState
unfolding stop_thread do_destroy
destruct on_maker current t = stop_thread on_maker current t >>= do_destroy on_maker

-- `WrapCurrentWithThreadManager`, but for the manager's slot.
pub wrap : ThreadState → Outcome ThreadState
unfolding is_running
wrap t = if is_running t then failed else done (record t { thread_ref = true; owned = false })

-- `UnwrapCurrent`, but for the manager's slot.
pub unwrap : ThreadState → ThreadState
unwrap t = record t { thread_ref = false }

pub is_owned : ThreadState → Outcome Bool
unfolding is_running
is_owned t = if is_running t then done t.owned else failed

pub is_processing_messages : Bool → ThreadState → Bool
unfolding is_quitting
is_processing_messages current t = (t.owned || current) && not (is_quitting t)

-- The manager's slot of one thread of the system, which holds the `Thread` that runs there or wraps it.
abbrev pub Slot : Type 0
Slot = Option ThreadState

-- `new Thread`, wrapped.
wrap_new : Outcome Slot
unfolding construct wrap
wrap_new = wrap construct >>= λ t. done (some t)

-- `Thread::Current`, on the main thread or another.
pub current_thread : Bool → Slot → Outcome Slot
unfolding wrap_new
current_thread is_main (some t) = done (some t)
current_thread is_main none = if is_main then wrap_new else done none

pub wrap_current_thread : Slot → Outcome Slot
unfolding wrap_new
wrap_current_thread (some t) = done (some t)
wrap_current_thread none = wrap_new

-- With the state of the thread that it deletes, if it does.
pub unwrap_current_thread : Bool → Slot → Outcome (Slot × Option ThreadState)
unfolding is_owned unwrap destruct
unwrap_current_thread on_maker none = done (none, none)
unwrap_current_thread on_maker (some t) = is_owned t >>= λ owned.
    if owned
    then done (some t, none)
    else (destruct on_maker false (unwrap t) >>= λ dead. done (none, some dead))

-- `Dispatch`, with the time at which the handler began and ended: the new limit.
pub dispatch_limit : ℤ → ℤ → ℤ → ℤ
dispatch_limit start_time end_time dispatch_warning_ms =
    let diff = end_time -ℤ start_time in
    if leb_ℤ dispatch_warning_ms diff then diff +ℤ pos 1 else dispatch_warning_ms
