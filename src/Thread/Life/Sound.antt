-- ===== src/Thread/Life/Sound.antt =====
-- What holds of a thread between its constructor and its destructor.
use rtc_base.Common.{List, [], ◌∷◌, ◌≡◌, refl, Bool, true, false, arith}
use rtc_base.Thread.Life.{
  ◌>>=◌, Platform, absent, running, ThreadState, Outcome, done, failed, blocks, construct, quit,
  restart, start, join, stop_thread, destruct, wrap, unwrap, platform_start, platform_stop,
  is_running, is_started,
}

abbrev is_present : Platform → Bool
is_present absent = false
is_present _ = true

-- The thread is in the manager's list once, has its `PlatformThread`, and knows of it when that was started.
pub record IsSound (t : ThreadState) : Type 0 where
  pub initialized : t.f_initialized ≡ true
  pub not_destroyed : t.f_destroyed ≡ false
  pub listed : t.registered ≡ 1
  pub has_platform : is_present t.platform ≡ true
  pub started_known : t.platform ≡ running → (t.thread_ref ≡ true) × (t.owned ≡ true)

-- The calls that other code makes on a thread. They come from one other thread, the one that made it.
pub data Call : Type 0 where
  starts joins stops wraps unwraps quits restarts : Call

pub perform : Call → ThreadState → Outcome ThreadState
perform starts t = start true t
perform joins t = join true false t
perform stops t = stop_thread true false t
perform wraps t = wrap t
perform unwraps t = done (unwrap t)
perform quits t = done (quit t)
perform restarts t = done (restart t)

-- A thread is started or wrapped while it is not running, started only if it is owned, which a thread that was wrapped
-- is not, unwrapped only if it was wrapped, and joined only after it was told to quit, if it was started.
abbrev pub Permitted : Call → ThreadState → Type 0
Permitted starts t = (t.thread_ref ≡ false) × (t.owned ≡ true)
Permitted wraps t = t.thread_ref ≡ false
Permitted unwraps t = t.owned ≡ false
Permitted joins t = t.platform ≡ running → t.stop ≡ true
Permitted stops t = Unit {0}
Permitted quits t = Unit {0}
Permitted restarts t = Unit {0}

pub construct-IsSound : IsSound construct
unfolding construct
construct-IsSound = ground arith

abbrev Succeeds : Outcome ThreadState → Type 0
Succeeds (done t) = IsSound t
Succeeds failed = ⊥
Succeeds blocks = ⊥

-- A permitted call on a sound thread succeeds, with no check failed and no join that waits for ever, and leaves it sound.
pub perform-IsSound :
    (c : Call) (t : ThreadState) → IsSound t → Permitted c t → Succeeds (perform c t)
unfolding perform start stop_thread join wrap unwrap quit restart platform_start platform_stop
    is_started is_running
perform-IsSound starts t s p = ground arith
perform-IsSound joins t s p = ground arith
perform-IsSound stops t s p = ground arith
perform-IsSound wraps t s p = ground arith
perform-IsSound unwraps t s p = ground arith
perform-IsSound quits t s p = ground arith
perform-IsSound restarts t s p = ground arith

pub new_not_running : construct.thread_ref ≡ false
unfolding construct
new_not_running = refl

pub new_owned : construct.owned ≡ true
unfolding construct
new_owned = refl

-- Starting makes the thread owned, and `Stop` leaves it so.
pub started_owned : (t t' : ThreadState) → perform starts t ≡ done t' → t'.owned ≡ true
unfolding perform start restart platform_start is_started is_running
started_owned t t' e = ground arith

pub stopped_owned :
    (t t' : ThreadState) → t.owned ≡ true → perform stops t ≡ done t' → t'.owned ≡ true
unfolding perform stop_thread join quit platform_stop is_started is_running
stopped_owned t t' o e = ground arith

-- After `Stop` the thread does not run.
pub stopped_not_running : (t t' : ThreadState) → perform stops t ≡ done t' → t'.thread_ref ≡ false
unfolding perform stop_thread join quit platform_stop is_started is_running
stopped_not_running t t' e = ground arith

-- The thread is in no list, has no `PlatformThread`, no message and no socket server that knows it.
pub record IsGone (t : ThreadState) : Type 0 where
  pub destroyed : t.f_destroyed ≡ true
  pub unlisted : t.registered ≡ 0
  pub no_platform : t.platform ≡ absent
  pub no_message : t.messages ≡ 0
  pub not_running : t.thread_ref ≡ false
  pub told_to_quit : t.stop ≡ true
  pub not_served : t.served ≡ false

abbrev pub Ends : Outcome ThreadState → Type 0
Ends (done t) = IsGone t
Ends failed = ⊥
Ends blocks = ⊥

-- The calls in their order, and the destructor at the end.
pub life : List Call → ThreadState → Outcome ThreadState
life [] t = destruct true false t
life (c ∷ cs) t = perform c t >>= life cs

-- Each call is permitted in the state that it finds.
abbrev pub Allowed : List Call → ThreadState → Type 0
Allowed [] t = Unit {0}
Allowed (c ∷ cs) t = Permitted c t × ((t' : ThreadState) → perform c t ≡ done t' → Allowed cs t')
