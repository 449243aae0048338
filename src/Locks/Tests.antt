-- ===== src/Locks/Tests.antt =====
-- Runs of the locks and checkers, over a mutex that is its owner and depth.
use rtc_base.Common.{
  ℕ, ◌+◌, ◌-◌, ◌<◌, ◌≡◌, ◌≢◌, refl, true, false, [], ◌∷◌, Option, none, some, ◌==◌, if◌then◌else◌,
  ==_iff, arith,
}
use rtc_base.Common.Int.{pos}
use rtc_base.Locks.{System, CriticalSection, leaves, call}
use rtc_base.Locks.Critical.{held, lock_call, state, Matches, call-lock_call}
use rtc_base.Locks.Global.{World, outside, run, IsExclusive, run-IsExclusive}
use rtc_base.Locks.Checkers.{begins, ends, nobody, answers, judged, checker, answers-judged}

record PlainMutex : Type 0 where
  depth : ℕ
  owner : ℕ

plain_try : ℕ → PlainMutex → Option PlainMutex
plain_try t m =
    if m.depth == 0
    then some (record { depth = 1; owner = t })
    else if m.owner == t
    then some (record m { depth = m.depth + 1 })
    else none

plain_unlock : PlainMutex → PlainMutex
plain_unlock m = record m { depth = m.depth - 1 }

plain_free :
    (t : ℕ) (m : PlainMutex)
    → m.depth ≡ 0
    → (m' : PlainMutex) × (plain_try t m ≡ some m') × (m'.depth ≡ 1) × (m'.owner ≡ t)
unfolding plain_try
plain_free t m e = (record { depth = 1; owner = t }, ground arith, refl, refl)

plain_own :
    (m : PlainMutex)
    → 0 < m.depth
    → (m' : PlainMutex) × (plain_try m.owner m ≡ some m')
      × (m'.depth ≡ m.depth + 1)
      × (m'.owner ≡ m.owner)
unfolding plain_try
plain_own m h = (record m { depth = m.depth + 1 }, ground arith, refl, refl)

plain_other : (t : ℕ) (m : PlainMutex) → 0 < m.depth → m.owner ≢ t → plain_try t m ≡ none
unfolding plain_try
plain_other t m h o = ground arith

plain_unlocked :
    (m : PlainMutex)
    → 0 < m.depth
    → ((plain_unlock m).depth ≡ m.depth - 1) × ((plain_unlock m).owner ≡ m.owner)
unfolding plain_unlock
plain_unlocked m h = (refl, refl)

abbrev plain : System
plain = record {
  Mutex = PlainMutex;
  depth = λ m. m.depth;
  owner = λ m. m.owner;
  try_lock = plain_try;
  unlock = plain_unlock;
  pthread_equal = ◌==◌;
  free_taken = plain_free;
  own_taken = plain_own;
  other_refused = plain_other;
  unlocked = plain_unlocked;
  equal_exact = ==_iff;
}

abbrev entered_twice : CriticalSection plain
entered_twice = state plain (record { depth = 2; owner = 7 }) (held 7 1)

call-lock_call_example :
    Matches plain (call plain leaves 7 entered_twice) (lock_call leaves 7 (held 7 1))
call-lock_call_example =
    call-lock_call plain leaves 7 entered_twice (held 7 1)
      (record { depth = 2; owner = 7 }, refl, (refl, refl))

abbrev three_threads : World
three_threads = record {
  lock_acquired = 0;
  checked = true;
  phases = outside ∷ outside ∷ outside ∷ [];
}

run-IsExclusive_example : IsExclusive (run (0 ∷ 1 ∷ 1 ∷ 0 ∷ 1 ∷ 2 ∷ 0 ∷ []) three_threads)
run-IsExclusive_example =
    run-IsExclusive (0 ∷ 1 ∷ 1 ∷ 0 ∷ 1 ∷ 2 ∷ 0 ∷ []) three_threads
      (record { word = refl; exclusive = omega arith; no_failure = refl })

-- Two scopes of thread 4 and one of thread 5, of which one ends.
told_of_race :
    answers ◌==◌ (begins 4 ∷ begins 4 ∷ begins 5 ∷ ends ∷ []) (checker (pos 0) 0)
    ≡ true ∷ true ∷ false ∷ []
unfolding judged
told_of_race =
    answers-judged ◌==◌ ==_iff (begins 4 ∷ begins 4 ∷ begins 5 ∷ ends ∷ []) (checker (pos 0) 0)
      nobody refl tt
