-- ===== src/Optional/Tests.antt =====
-- Three variables, of which the first two have a value; a move leaves 0.
use rtc_base.Common.{
  ℕ, ◌≡◌, ◌≢◌, refl, sym, true, Option, none, some, List, [], ◌∷◌, ◌==◌, if◌then◌else◌, arith,
}
use rtc_base.Optional.{
  Operation, nullifies, assigns, copies, moves, swaps, redeclares, compares, run_program,
}
use rtc_base.Optional.Programs.{
  optionals, run_values, perform_values, same, left_by, run_program-run_values,
}

abbrev two_values : ℕ → Option ℕ
two_values i = if i == 0 then some 5 else if i == 1 then some 6 else none

zero_ne_two : ◌≢◌ {A = ℕ} 0 2
zero_ne_two e = omega (arith, e)

abbrev shuffle : List (Operation ℕ)
shuffle =
    swaps 0 2 zero_ne_two
    ∷ assigns 0 9
    ∷ moves 2 0 (λ e. zero_ne_two (sym e))
    ∷ copies 1 2
    ∷ compares 1 2
    ∷ redeclares 2 0
    ∷ nullifies 1
    ∷ []

run_program-run_values_example :
    run_program (λ n. 0) ◌==◌ shuffle (optionals two_values, [])
    ≡ some (
      optionals (run_values (λ n. 0) ◌==◌ shuffle (two_values, [])).0,
      (run_values (λ n. 0) ◌==◌ shuffle (two_values, [])).1,
    )
run_program-run_values_example = run_program-run_values (λ n. 0) ◌==◌ shuffle two_values []

shuffle_answers : (run_values (λ n. 0) ◌==◌ shuffle (two_values, [])).1 ≡ true ∷ []
unfolding run_values perform_values same left_by
shuffle_answers = refl
