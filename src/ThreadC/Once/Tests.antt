-- ===== src/ThreadC/Once/Tests.antt =====
-- Two threads in `call_once`.
use rtc_base.Common.{ℕ, ◌≤◌, ◌≡◌, ◌⊎◌, refl, true, false, List, [], ◌∷◌}
use rtc_base.ThreadC.Once.{returned, run_calls, once_step, new_flag}
use rtc_base.ThreadC.Once.Runs.{is_returned, run_once}

-- The second thread comes while the first one is in the function, and waits for it.
abbrev both : List ℕ
both = 0 ∷ 0 ∷ 0 ∷ 0 ∷ 0 ∷ 0 ∷ 1 ∷ 0 ∷ 1 ∷ 1 ∷ 0 ∷ 0 ∷ 1 ∷ 0 ∷ 1 ∷ 1 ∷ 1 ∷ []

run_once_example :
    let w = run_calls both new_flag in
    (w.starts ≤ 1) × ((is_returned (w.phases 1) ≡ false) ⊎ (w.ends ≡ 1)) × (w.is_valid ≡ true)
run_once_example = run_once both 1

both_back : (run_calls both new_flag).phases 1 ≡ returned
unfolding run_calls once_step new_flag
both_back = refl
