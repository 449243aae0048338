-- ===== src/ThreadC/Once/Runs.antt =====
-- `call_once` on one flag: whatever its threads do, and in whatever order.
use rtc_base.Common.{
  ℕ, ◌+◌, ◌≤◌, ◌≡◌, ◌≢◌, Bool, true, false, none, some, List, [], ◌∷◌, ltb, ◌==◌, if◌then◌else◌,
  arith, ℕ_discrete, ◌⊎◌,
}
use rtc_base.ThreadC.Once.{
  OncePhase, looping, switching, comparing, initializing, entering, announcing, starting, running,
  finishing, leaving, blocked, passing, returned, World, is_taken, enter_lock, leave_lock,
  chosen_case, compare_exchange, call_once, once_step, run_calls, new_flag,
}

-- What a thread knows of the flag where it is.
abbrev Agrees : OncePhase → ℕ → World → Type 0
Agrees looping j w = Unit {0}
Agrees switching j w = Unit {0}
Agrees comparing j w = Unit {0}
Agrees initializing j w =
    (w.chosen ≡ some j) × (w.status ≡ 1) × (w.holder ≡ none) × (w.starts ≡ 0) × (w.ends ≡ 0)
Agrees entering j w =
    (w.chosen ≡ some j)
    × (w.status ≡ 1)
    × (w.is_ready ≡ true)
    × (w.holder ≡ none)
    × (w.starts ≡ 0)
    × (w.ends ≡ 0)
Agrees announcing j w =
    (w.chosen ≡ some j)
    × (w.status ≡ 1)
    × (w.is_ready ≡ true)
    × (w.holder ≡ some j)
    × (w.starts ≡ 0)
    × (w.ends ≡ 0)
Agrees starting j w =
    (w.chosen ≡ some j)
    × (w.status ≡ 2)
    × (w.is_ready ≡ true)
    × (w.holder ≡ some j)
    × (w.starts ≡ 0)
    × (w.ends ≡ 0)
Agrees running j w =
    (w.chosen ≡ some j)
    × (w.status ≡ 2)
    × (w.is_ready ≡ true)
    × (w.holder ≡ some j)
    × (w.starts ≡ 1)
    × (w.ends ≡ 0)
Agrees finishing j w =
    (w.chosen ≡ some j)
    × (w.status ≡ 2)
    × (w.is_ready ≡ true)
    × (w.holder ≡ some j)
    × (w.starts ≡ 1)
    × (w.ends ≡ 1)
Agrees leaving j w =
    (w.chosen ≡ some j)
    × (w.status ≡ 3)
    × (w.is_ready ≡ true)
    × (w.holder ≡ some j)
    × (w.starts ≡ 1)
    × (w.ends ≡ 1)
Agrees blocked j w = (w.is_ready ≡ true) × (2 ≤ w.status)
Agrees passing j w = (w.is_ready ≡ true) × (w.status ≡ 3) × (w.holder ≡ some j)
Agrees returned j w = (w.status ≡ 3) × (w.starts ≡ 1) × (w.ends ≡ 1)

pub record IsSound (w : World) : Type 0 where
  pub valid : w.is_valid ≡ true
  pub low : w.status ≤ 3
  pub unready : (if w.status == 0 then is_taken w.holder else false) ≡ false
  pub unstarted : (if w.status == 0 then w.starts + w.ends else 0) ≡ 0
  pub ready : (if ltb 1 w.status then w.is_ready else true) ≡ true
  pub held : (if w.status == 2 then is_taken w.holder else true) ≡ true
  pub started : (if w.status == 3 then w.starts else 1) ≡ 1
  pub ended : (if w.status == 3 then w.ends else 1) ≡ 1
  pub most : w.starts ≤ 1
  pub order : w.ends ≤ w.starts

call_once-IsSound :
    (p : OncePhase) (i : ℕ) (w : World) → IsSound w → Agrees p i w → IsSound (call_once p i w)
unfolding call_once enter_lock leave_lock chosen_case compare_exchange
call_once-IsSound looping i w g a = ground arith
call_once-IsSound p i w g a = ground arith

-- A step moves the thread that takes it, and no other; what the others know stays true.
call_once-Agrees :
    (p : OncePhase) (i : ℕ) (w : World)
    → IsSound w
    → Agrees p i w
    → Agrees ((call_once p i w).phases i) i (call_once p i w)
unfolding call_once enter_lock leave_lock chosen_case compare_exchange
call_once-Agrees looping i w g a = ground arith
call_once-Agrees p i w g a = ground arith

call_once-others :
    (p : OncePhase) (i j : ℕ) (w : World) → j ≢ i → (call_once p i w).phases j ≡ w.phases j
unfolding call_once enter_lock leave_lock chosen_case compare_exchange
call_once-others looping i j w n = ground arith
call_once-others p i j w n = ground arith

call_once-Agrees_other :
    (q p : OncePhase) (i j : ℕ) (w : World)
    → IsSound w
    → Agrees p i w
    → j ≢ i
    → Agrees q j w
    → Agrees q j (call_once p i w)
unfolding call_once enter_lock leave_lock chosen_case compare_exchange
call_once-Agrees_other looping p i j w g a n b = tt
call_once-Agrees_other q looping i j w g a n b = ground arith
call_once-Agrees_other q p i j w g a n b = ground arith

record Invariant (w : World) : Type 0 where
  sound : IsSound w
  agrees : (j : ℕ) → Agrees (w.phases j) j w

once_step-Agrees :
    (i j : ℕ) (w : World) → Invariant w → Agrees ((once_step i w).phases j) j (once_step i w)
unfolding once_step
once_step-Agrees i j w inv = elim (ℕ_discrete j i) [
  | yes same ↦ rw same (call_once-Agrees (w.phases i) i w inv.sound (inv.agrees i))
  | no other ↦ rw (call_once-others (w.phases i) i j w other) (
      call_once-Agrees_other (w.phases j) (w.phases i) i j w inv.sound (inv.agrees i) other
        (inv.agrees j))
]

run_calls-Invariant :
    (schedule : List ℕ) (w : World) → Invariant w → Invariant (run_calls schedule w)
unfolding run_calls once_step
run_calls-Invariant [] w inv = inv
run_calls-Invariant (i ∷ is) w inv = run_calls-Invariant is (once_step i w) (record {
  sound = call_once-IsSound (w.phases i) i w inv.sound (inv.agrees i);
  agrees = λ j. once_step-Agrees i j w inv;
})

abbrev pub is_returned : OncePhase → Bool
is_returned returned = true
is_returned _ = false

returned_lem :
    (p : OncePhase) (j : ℕ) (w : World) → Agrees p j w → (is_returned p ≡ false) ⊎ (w.ends ≡ 1)
returned_lem looping j w a = ground arith
returned_lem p j w a = ground arith

-- In whatever order any number of threads take their steps in `call_once` on a new flag: `func` is started once at
-- most, a thread that is back from `call_once` finds it ended, and the lock is never entered before it is initialised,
-- nor left by a thread that does not hold it.
pub run_once :
    (schedule : List ℕ) (j : ℕ)
    → let w = run_calls schedule new_flag in
      (w.starts ≤ 1) × ((is_returned (w.phases j) ≡ false) ⊎ (w.ends ≡ 1)) × (w.is_valid ≡ true)
unfolding new_flag
run_once schedule j =
    let w = run_calls schedule new_flag in
    let inv =
      run_calls-Invariant schedule new_flag (record { sound = ground arith; agrees = λ j. tt }) in
    (inv.sound.most, returned_lem (w.phases j) j w (inv.agrees j), inv.sound.valid)
