-- ===== src/Locks.antt =====
-- critical_section.cc, critical_section.h, race_checker.cc and synchronization/sequence_checker.cc. A thread is a
-- number; the mutex and the comparison of threads are the system's.
pub mod Critical
pub mod Global
pub mod Checkers
mod Tests
use rtc_base.Common.{
  ℕ, ◌+◌, ◌-◌, ◌≤◌, ◌<◌, ◌≡◌, ◌≢◌, ◌↔◌, Bool, true, false, Option, none, some, ◌==◌, if◌then◌else◌,
}
use rtc_base.Common.Int.{ℤ, pos, ◌+ℤ◌, ◌-ℤ◌, leb_ℤ, eqb_ℤ}

-- What the code relies on: a recursive mutex, which `pthread_mutex_trylock` takes if it is free or the caller's, and
-- `pthread_equal`.
pub record System : Type 1 where
  pub Mutex : Type 0
  pub depth : Mutex → ℕ
  pub owner : Mutex → ℕ
  pub try_lock : ℕ → Mutex → Option Mutex
  pub unlock : Mutex → Mutex
  pub pthread_equal : ℕ → ℕ → Bool
  pub free_taken :
      (t : ℕ) (m : Mutex)
      → depth m ≡ 0
      → (m' : Mutex) × (try_lock t m ≡ some m') × (depth m' ≡ 1) × (owner m' ≡ t)
  pub own_taken :
      (m : Mutex)
      → 0 < depth m
      → (m' : Mutex) × (try_lock (owner m) m ≡ some m')
        × (depth m' ≡ depth m + 1)
        × (owner m' ≡ owner m)
  pub other_refused : (t : ℕ) (m : Mutex) → 0 < depth m → owner m ≢ t → try_lock t m ≡ none
  pub unlocked :
      (m : Mutex) → 0 < depth m → (depth (unlock m) ≡ depth m - 1) × (owner (unlock m) ≡ owner m)
  pub equal_exact : (a b : ℕ) → (pthread_equal a b ≡ true) ↔ (a ≡ b)

-- `refused`: the mutex is another's, so that `TryEnter` returns false and `Enter` waits.
pub data LockAnswer {ℓ} (S : Type ℓ) : Type ℓ where
  done : S → LockAnswer S
  refused dcheck_failed : LockAnswer S

module _ (y : System) where
  open y use {Mutex, try_lock, unlock, pthread_equal}

  thrd_equal : ℕ → ℕ → ℕ
  thrd_equal a b = if pthread_equal a b then 0 else 1

  pub platform_equal : ℕ → ℕ → Bool
  unfolding thrd_equal
  platform_equal a b = thrd_equal a b == 0

  -- `none` as `thread` is 0, as the constructor and the last `Leave` set it.
  pub record CriticalSection : Type 0 where
    pub mutex : Mutex
    pub thread : Option ℕ
    pub recursion_count : ℤ

  pub critical_section : Mutex → CriticalSection
  critical_section m = record { mutex = m; thread = none; recursion_count = pos 0 }

  -- No thread is equal to 0.
  pub is_owner : ℕ → Option ℕ → Bool
  unfolding platform_equal
  is_owner t none = false
  is_owner t (some u) = platform_equal u t

  claim_first : ℕ → Option ℕ → CriticalSection → LockAnswer CriticalSection
  claim_first t none s =
      done (record s { thread = some t; recursion_count = s.recursion_count +ℤ pos 1 })
  claim_first t (some u) s = dcheck_failed

  -- The debug part of `Enter` and `TryEnter`, once the mutex is taken.
  claim : ℕ → CriticalSection → LockAnswer CriticalSection
  unfolding claim_first
  claim t s =
      if eqb_ℤ s.recursion_count (pos 0)
      then claim_first t s.thread s
      else if is_owner t s.thread
      then done (record s { recursion_count = s.recursion_count +ℤ pos 1 })
      else dcheck_failed

  enter : ℕ → CriticalSection → LockAnswer CriticalSection
  enter t s = elim (try_lock t s.mutex) [
    | none ↦ refused
    | some m ↦ claim t (record s { mutex = m })
  ]

  try_enter : ℕ → CriticalSection → LockAnswer CriticalSection
  try_enter t s = elim (try_lock t s.mutex) [
    | none ↦ refused
    | some m ↦ claim t (record s { mutex = m })
  ]

  -- `Leave`, from `--recursion_count_` on.
  give_back : ℤ → CriticalSection → LockAnswer CriticalSection
  give_back count s =
      if leb_ℤ (pos 0) count
      then done (record {
        mutex = unlock s.mutex;
        thread = if eqb_ℤ count (pos 0) then none else s.thread;
        recursion_count = count;
      })
      else dcheck_failed

  leave : ℕ → CriticalSection → LockAnswer CriticalSection
  unfolding give_back
  leave t s =
      if is_owner t s.thread then give_back (s.recursion_count -ℤ pos 1) s else dcheck_failed

pub data Call : Type 0 where
  enters tries_to_enter leaves : Call

pub call : (y : System) → Call → ℕ → CriticalSection y → LockAnswer (CriticalSection y)
unfolding enter try_enter leave
call y enters t s = enter y t s
call y tries_to_enter t s = try_enter y t s
call y leaves t s = leave y t s

-- `TryCritScope`, with whether its critical section was taken.
pub record TryCritScope : Type 0 where
  pub locked : Bool
  pub lock_was_called : Bool

pub data Opened {ℓ} (S : Type ℓ) : Type ℓ where
  opened : TryCritScope → S → Opened S
  open_failed : Opened S

module _ (y : System) where
  after_try : CriticalSection y → LockAnswer (CriticalSection y) → Opened (CriticalSection y)
  after_try s (done s') = opened (record { locked = true; lock_was_called = false }) s'
  after_try s refused = opened (record { locked = false; lock_was_called = false }) s
  after_try s dcheck_failed = open_failed

  pub open_scope : ℕ → CriticalSection y → Opened (CriticalSection y)
  unfolding after_try
  open_scope t s = after_try s (try_enter y t s)

  -- `locked()`, which notes that it was called.
  pub ask_locked : TryCritScope → TryCritScope × Bool
  ask_locked c = (record c { lock_was_called = true }, c.locked)

  pub close_scope : ℕ → TryCritScope → CriticalSection y → LockAnswer (CriticalSection y)
  close_scope t c s =
      if c.lock_was_called then (if c.locked then leave y t s else done s) else dcheck_failed
