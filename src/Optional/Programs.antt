-- ===== src/Optional/Programs.antt =====
-- Programs on variables of the type `Optional`, against the optional values that they stand for.
use mathlib.Core.Path.{fun_ext}
use rtc_base.Common.{
  ℕ, Bool, true, false, Option, none, some, List, [], ◌∷◌, if◌then◌else◌, ◌≡◌, refl, ◌==◌,
}
use rtc_base.Optional.{
  Optional, optional_of, copy_construct, reset_optional, copy_assign, emplace, value_or,
  move_construct, move_assign_optional, swap_optionals, optionals_equal, Operation, nullifies,
  assigns, emplaces, copies, moves, swaps, redeclares, redeclares_moved, compares, keep, dispose,
  perform, run_program,
}

module _ {ℓ} {A : Type ℓ} where
  -- The flag is right, and what an Optional stands for is the object in its storage.
  pub of_value : Option A → Optional A
  of_value none = record { has_value_ = false; object = none }
  of_value (some v) = record { has_value_ = true; object = some v }

  unfoldable pub left_by : (A → A) → Option A → Option A
  left_by moved none = none
  left_by moved (some v) = some (moved v)

  unfoldable pub same : (A → A → Bool) → Option A → Option A → Bool
  same equal none none = true
  same equal none (some w) = false
  same equal (some v) none = false
  same equal (some v) (some w) = equal v w

  -- The same program on optional values
  unfoldable pub perform_values :
      (A → A)
      → (A → A → Bool)
      → Operation A
      → (ℕ → Option A) × List Bool
      → (ℕ → Option A) × List Bool
  perform_values moved equal (nullifies i) (vals, log) = (keep i none vals, log)
  perform_values moved equal (assigns i v) (vals, log) = (keep i (some v) vals, log)
  perform_values moved equal (emplaces i v) (vals, log) = (keep i (some v) vals, log)
  perform_values moved equal (copies i j) (vals, log) = (keep i (vals j) vals, log)
  perform_values moved equal (moves i j apart) (vals, log) =
      (keep j (left_by moved (vals j)) (keep i (vals j) vals), log)
  perform_values moved equal (swaps i j apart) (vals, log) =
      (keep j (vals i) (keep i (vals j) vals), log)
  perform_values moved equal (redeclares i j) (vals, log) = (keep i (vals j) vals, log)
  perform_values moved equal (redeclares_moved i j apart) (vals, log) =
      (keep j (left_by moved (vals j)) (keep i (vals j) vals), log)
  perform_values moved equal (compares i j) (vals, log) = (vals, same equal (vals i) (vals j) ∷ log)

  unfoldable pub run_values :
      (A → A)
      → (A → A → Bool)
      → List (Operation A)
      → (ℕ → Option A) × List Bool
      → (ℕ → Option A) × List Bool
  run_values moved equal [] s = s
  run_values moved equal (op ∷ rest) s =
      run_values moved equal rest (perform_values moved equal op s)

  abbrev pub optionals : (ℕ → Option A) → ℕ → Optional A
  optionals vals i = of_value (vals i)

  keep-optionals :
      (i : ℕ) (a : Option A) (vals : ℕ → Option A)
      → keep i (of_value a) (optionals vals) ≡ optionals (keep i a vals)
  keep-optionals i a vals = fun_ext λ j. kept (j == i) j
    where
      kept :
          (b : Bool) (j : ℕ)
          → (if b then of_value a else of_value (vals j)) ≡ of_value (if b then a else vals j)
      kept true j = refl
      kept false j = refl

  copy_construct_lem : (a : Option A) → copy_construct (of_value a) ≡ some (of_value a)
  unfolding copy_construct of_value
  copy_construct_lem none = refl
  copy_construct_lem (some v) = refl

  reset_optional_lem : (a : Option A) → reset_optional (of_value a) ≡ some (of_value none)
  unfolding reset_optional of_value
  reset_optional_lem none = refl
  reset_optional_lem (some v) = refl

  emplace_lem : (v : A) (a : Option A) → emplace v (of_value a) ≡ some (of_value (some v))
  unfolding emplace of_value
  emplace_lem v none = refl
  emplace_lem v (some w) = refl

  copy_assign_lem : (a b : Option A) → copy_assign (of_value a) (of_value b) ≡ some (of_value a)
  unfolding copy_assign of_value
  copy_assign_lem none none = refl
  copy_assign_lem none (some w) = refl
  copy_assign_lem (some v) none = refl
  copy_assign_lem (some v) (some w) = refl

  optional_of_lem : (v : A) → optional_of v ≡ some (of_value (some v))
  unfolding optional_of of_value
  optional_of_lem v = refl

  move_construct_lem :
      (moved : A → A) (a : Option A)
      → move_construct moved (of_value a) ≡ some (of_value a, of_value (left_by moved a))
  unfolding move_construct of_value left_by
  move_construct_lem moved none = refl
  move_construct_lem moved (some v) = refl

  move_assign_optional_lem :
      (moved : A → A) (a b : Option A)
      → move_assign_optional moved (of_value a) (of_value b)
        ≡ some (of_value a, of_value (left_by moved a))
  unfolding move_assign_optional of_value left_by
  move_assign_optional_lem moved none none = refl
  move_assign_optional_lem moved none (some w) = refl
  move_assign_optional_lem moved (some v) none = refl
  move_assign_optional_lem moved (some v) (some w) = refl

  swap_lem :
      (moved : A → A) (a b : Option A)
      → swap_optionals moved (of_value a) (of_value b) ≡ some (of_value b, of_value a)
  unfolding swap_optionals of_value
  swap_lem moved none none = refl
  swap_lem moved none (some w) = refl
  swap_lem moved (some v) none = refl
  swap_lem moved (some v) (some w) = refl

  equal_lem :
      (equal : A → A → Bool) (a b : Option A)
      → optionals_equal equal (of_value a) (of_value b) ≡ some (same equal a b)
  unfolding optionals_equal of_value same
  equal_lem equal none none = refl
  equal_lem equal none (some w) = refl
  equal_lem equal (some v) none = refl
  equal_lem equal (some v) (some w) = refl

  value_or_lem :
      (d : A) (a : Option A) → value_or d (of_value a) ≡ some (elim a [ none ↦ d | some v ↦ v ])
  unfolding value_or of_value
  value_or_lem d none = refl
  value_or_lem d (some v) = refl

  -- The object does not outlive its Optional.
  dispose_lem :
      (moved : A → A) (equal : A → A → Bool) (a : Option A)
      → (o : Optional A) × (dispose moved equal (of_value a) ≡ some o)
  unfolding dispose of_value
  dispose_lem moved equal none = (_, refl)
  dispose_lem moved equal (some v) = (_, refl)

  module _ (moved : A → A) (equal : A → A → Bool) where
    perform_lem :
        (op : Operation A) (vals : ℕ → Option A) (log : List Bool)
        → let (vals', log') = perform_values moved equal op (vals, log) in
          perform moved equal op (optionals vals, log) ≡ some (optionals vals', log')
    unfolding perform perform_values
    perform_lem (nullifies i) vals log =
        rw (reset_optional_lem (vals i), keep-optionals i none vals)
    perform_lem (assigns i v) vals log =
        let (gone, e) = dispose_lem moved equal (left_by moved (some v)) in
        rw (
          optional_of_lem v,
          move_assign_optional_lem moved (some v) (vals i),
          e,
          keep-optionals i (some v) vals,
        )
    perform_lem (emplaces i v) vals log =
        rw (emplace_lem v (vals i), keep-optionals i (some v) vals)
    perform_lem (copies i j) vals log =
        rw (copy_assign_lem (vals j) (vals i), keep-optionals i (vals j) vals)
    perform_lem (moves i j apart) vals log = rw (
      move_assign_optional_lem moved (vals j) (vals i),
      keep-optionals i (vals j) vals,
      keep-optionals j (left_by moved (vals j)) (keep i (vals j) vals),
    )
    perform_lem (swaps i j apart) vals log = rw (
      swap_lem moved (vals i) (vals j),
      keep-optionals i (vals j) vals,
      keep-optionals j (vals i) (keep i (vals j) vals),
    )
    perform_lem (redeclares i j) vals log =
        let (gone, e) = dispose_lem moved equal (vals i) in
        rw (copy_construct_lem (vals j), e, keep-optionals i (vals j) vals)
    perform_lem (redeclares_moved i j apart) vals log =
        let (gone, e) = dispose_lem moved equal (vals i) in
        rw (
          e,
          move_construct_lem moved (vals j),
          keep-optionals i (vals j) vals,
          keep-optionals j (left_by moved (vals j)) (keep i (vals j) vals),
        )
    perform_lem (compares i j) vals log = rw (equal_lem equal (vals i) (vals j))

    -- Whatever a program does with its variables, but for a move or a swap of a variable with itself: it never constructs over
    -- an object, destroys, assigns to or reads one that is not there, or leaves one behind; and its variables and the answers of
    -- its comparisons are those of the same program on optional values.
    pub run_program-run_values :
        (ops : List (Operation A)) (vals : ℕ → Option A) (log : List Bool)
        → let (vals', log') = run_values moved equal ops (vals, log) in
          run_program moved equal ops (optionals vals, log) ≡ some (optionals vals', log')
    unfolding run_program run_values
    run_program-run_values [] vals log = refl
    run_program-run_values (op ∷ rest) vals log =
        let (vals', log') = perform_values moved equal op (vals, log) in
        rw (perform_lem op vals log) (run_program-run_values rest vals' log')
