-- ===== src/Locks/Global.antt =====
-- `GlobalLock` of critical_section.cc: threads that spin on one word. A schedule is the list of the threads that take
-- a step, in its order; each access to the word is one step.
use rtc_base.Common.{
  ℕ, zero, suc, ◌+◌, ◌≤◌, ◌<◌, ◌≡◌, refl, sym, ap, ◌∙◌, Bool, true, ◌&&◌, List, [], ◌∷◌, ◌==◌,
  if◌then◌else◌, get_or, set, length, arith, Bool-cases, ==_iff, inl, inr,
}

-- The word after `CompareAndSwap`, and the old value that it returns.
pub compare_and_swap : ℕ → ℕ → ℕ → ℕ × ℕ
compare_and_swap value old_value new_value =
    (if value == old_value then new_value else value, value)

-- A thread before `Lock`, in its loop, and between `Lock` and `Unlock`.
pub data Phase : Type 0 where
  outside spinning holding : Phase

-- `checked` is false after a failed RTC_DCHECK_EQ in `Unlock`.
pub record World : Type 0 where
  pub lock_acquired : ℕ
  pub checked : Bool
  pub phases : List Phase

-- One round of the loop of `Lock`.
lock_round : ℕ → World → World
unfolding compare_and_swap
lock_round i w =
    let (value, old_value) = compare_and_swap w.lock_acquired 0 1 in
    record w {
      lock_acquired = value;
      phases = if old_value == 0 then set w.phases i holding else w.phases;
    }

unlock_word : ℕ → World → World
unfolding compare_and_swap
unlock_word i w =
    let (value, old_value) = compare_and_swap w.lock_acquired 1 0 in
    record {
      lock_acquired = value;
      checked = w.checked && (old_value == 1);
      phases = set w.phases i outside;
    }

advance : Phase → ℕ → World → World
unfolding lock_round unlock_word
advance outside i w = record w { phases = set w.phases i spinning }
advance spinning i w = lock_round i w
advance holding i w = unlock_word i w

pub step : ℕ → World → World
unfolding advance
step i w = advance (get_or w.phases i outside) i w

pub run : List ℕ → World → World
run [] w = w
run (i ∷ is) w = run is (step i w)

abbrev one_if_holding : Phase → ℕ
one_if_holding holding = 1
one_if_holding _ = 0

-- How many threads hold the lock.
abbrev pub holders : List Phase → ℕ
holders [] = 0
holders (p ∷ ps) = one_if_holding p + holders ps

holders-set :
    (ps : List Phase) (i : ℕ) (p : Phase)
    → i < length ps
    → holders (set ps i p) + one_if_holding (get_or ps i outside) ≡ holders ps + one_if_holding p
holders-set [] i p h = absurd (omega arith)
holders-set (q ∷ ps) zero p h = omega arith
holders-set (q ∷ ps) (suc i) p h = omega (arith, holders-set ps i p (omega arith))

-- The word counts the threads that hold the lock, of which there is at most one, and no check has failed.
pub record IsExclusive (w : World) : Type 0 where
  pub word : w.lock_acquired ≡ holders w.phases
  pub exclusive : w.lock_acquired ≤ 1
  pub no_failure : w.checked ≡ true

holders-set_quiet :
    (ps : List Phase) (i : ℕ) (p : Phase)
    → one_if_holding p ≡ 0
    → holders (set ps i p) + one_if_holding (get_or ps i outside) ≡ holders ps
holders-set_quiet [] i p h = refl
holders-set_quiet (q ∷ ps) zero p h = omega arith
holders-set_quiet (q ∷ ps) (suc i) p h = omega (arith, holders-set_quiet ps i p h)

spinning_in : (ps : List Phase) (i : ℕ) → get_or ps i outside ≡ spinning → i < length ps
spinning_in [] i e = cc
spinning_in (q ∷ ps) zero e = omega arith
spinning_in (q ∷ ps) (suc i) e = omega (arith, spinning_in ps i e)

advance-IsExclusive :
    (v : ℕ) (c : Bool) (ps : List Phase) (i : ℕ) (p : Phase)
    → get_or ps i outside ≡ p
    → IsExclusive (record { lock_acquired = v; checked = c; phases = ps })
    → IsExclusive (advance p i (record { lock_acquired = v; checked = c; phases = ps }))
unfolding advance lock_round unlock_word compare_and_swap
advance-IsExclusive v c ps i outside e x =
    let same : holders (set ps i spinning) ≡ holders ps =
      omega (arith, holders-set_quiet ps i spinning refl, ap one_if_holding e) in
    record { word = x.word ∙ sym same; exclusive = x.exclusive; no_failure = x.no_failure }
advance-IsExclusive v c ps i spinning e x = elim (Bool-cases (v == 0)) [
  | inl open_word ↦
      let one_more : holders (set ps i holding) ≡ holders ps + 1 =
        omega (arith, holders-set ps i holding (spinning_in ps i e), ap one_if_holding e) in
      let zero_word : v ≡ 0 = (==_iff v 0).0 open_word in
      rw open_word (record {
        word = omega (arith, x.word, one_more);
        exclusive = omega arith;
        no_failure = x.no_failure;
      })
  | inr shut ↦
      rw shut (record { word = x.word; exclusive = x.exclusive; no_failure = x.no_failure })
]
advance-IsExclusive v c ps i holding e x =
    let one_less : holders (set ps i outside) + 1 ≡ holders ps =
      omega (arith, holders-set_quiet ps i outside refl, ap one_if_holding e) in
    let full : v ≡ 1 = omega (arith, x.word, x.exclusive, one_less) in
    rw full (record {
      word = omega (arith, x.word, one_less);
      exclusive = omega arith;
      no_failure = rw x.no_failure refl;
    })

step-IsExclusive : (i : ℕ) (w : World) → IsExclusive w → IsExclusive (step i w)
unfolding step
step-IsExclusive i w x =
    advance-IsExclusive w.lock_acquired w.checked w.phases i (get_or w.phases i outside) refl x

-- However the steps of threads that call `Lock` and `Unlock` interleave, the word counts the threads that hold the
-- lock, at most one does, and no check of `Unlock` fails, if that was so at the start, as when nobody holds it.
pub run-IsExclusive : (is : List ℕ) (w : World) → IsExclusive w → IsExclusive (run is w)
unfolding run
run-IsExclusive [] w x = x
run-IsExclusive (i ∷ is) w x = run-IsExclusive is (step i w) (step-IsExclusive i w x)

round_takes :
    (v : ℕ) (c : Bool) (ps : List Phase) (i : ℕ)
    → v ≡ 0
    → (lock_round i (record { lock_acquired = v; checked = c; phases = ps })).phases
      ≡ set ps i holding
unfolding lock_round compare_and_swap
round_takes v c ps i e = rw e refl

-- While no thread holds the lock, a thread that spins takes it by its next step.
pub step_takes :
    (i : ℕ) (w : World)
    → IsExclusive w
    → holders w.phases ≡ 0
    → get_or w.phases i outside ≡ spinning
    → (step i w).phases ≡ set w.phases i holding
unfolding step advance
step_takes i w x nobody e =
    ap (λ p. (advance p i w).phases) e
    ∙ round_takes w.lock_acquired w.checked w.phases i (x.word ∙ nobody)
