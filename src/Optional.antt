-- ===== src/Optional.antt =====
-- features/optional.h: `Optional`, where the standard has none. The storage of the value holds an object while one is
-- constructed in it. An operation that would construct over an object, or destroy, assign to or read one that is not
-- there, has no result. Of the type of the value are given what a move leaves in its source, and its equality.
pub mod Programs
mod Tests
use rtc_base.Common.{
  ℕ, zero, suc, Bool, true, false, not, ◌&&◌, ◌||◌, Option, none, some, List, [], ◌∷◌, ◌≢◌, ◌==◌,
  if◌then◌else◌,
}

module _ {ℓ κ} {A : Type ℓ} {B : Type κ} where
  infixl 5 ◌>>=◌
  abbrev pub ◌>>=◌ : Option A → (A → Option B) → Option B
  none >>= f = none
  some a >>= f = f a

pub record Optional {ℓ} (A : Type ℓ) : Type ℓ where
  pub has_value_ : Bool
  pub object : Option A

module _ {ℓ} {A : Type ℓ} where
  -- Placement new, `value_.~T()`, and `value_ = v`
  construct_value : A → Optional A → Option (Optional A)
  construct_value v o = elim o.object [ none ↦ some (record o { object = some v }) | some _ ↦ none ]

  destroy_value : Optional A → Option (Optional A)
  destroy_value o = elim o.object [ none ↦ none | some _ ↦ some (record o { object = none }) ]

  assign_value : A → Optional A → Option (Optional A)
  assign_value v o = elim o.object [ none ↦ none | some _ ↦ some (record o { object = some v }) ]

  abbrev flagged : Bool → Optional A → Option (Optional A)
  flagged b o = some (record o { has_value_ = b })

  -- The constructors, and the destructor, which leaves storage without an object
  pub empty_optional : Optional A
  empty_optional = record { has_value_ = false; object = none }

  pub optional_of : A → Option (Optional A)
  unfolding construct_value
  optional_of v = construct_value v (record { has_value_ = true; object = none })

  pub copy_construct : Optional A → Option (Optional A)
  unfolding construct_value
  copy_construct m =
      let fresh : Optional A = record { has_value_ = m.has_value_; object = none } in
      if m.has_value_ then (do v ← m.object; construct_value v fresh) else some fresh

  pub destruct_optional : Optional A → Option (Optional A)
  unfolding destroy_value
  destruct_optional o = if o.has_value_ then destroy_value o else some o

  pub reset_optional : Optional A → Option (Optional A)
  unfolding destroy_value
  reset_optional o = if not o.has_value_ then some o else do p ← destroy_value o; flagged false p

  -- The value in an empty Optional, or over the one that is there
  put_value : A → Optional A → Option (Optional A)
  unfolding construct_value assign_value
  put_value v o =
      if o.has_value_ then assign_value v o else do p ← construct_value v o; flagged true p

  pub copy_assign : Optional A → Optional A → Option (Optional A)
  unfolding put_value reset_optional
  copy_assign m o = if m.has_value_ then (do v ← m.object; put_value v o) else reset_optional o

  pub emplace : A → Optional A → Option (Optional A)
  unfolding construct_value destroy_value
  emplace v o = do
    p ← if o.has_value_ then destroy_value o else some o
    q ← construct_value v p
    flagged true q

  pub value_or : A → Optional A → Option A
  value_or default_val o = if o.has_value_ then o.object else some default_val

  module _ (moved : A → A) where
    -- The source of a move, with the value moved from
    leave_moved : Optional A → Option (Optional A)
    unfolding assign_value
    leave_moved m = m.object >>= λ v. assign_value (moved v) m

    -- Two Optionals: the one made or assigned to, and the source.
    pub move_construct : Optional A → Option (Optional A × Optional A)
    unfolding leave_moved copy_construct
    move_construct m = do
      fresh ← copy_construct m
      m' ← if m.has_value_ then leave_moved m else some m
      some (fresh, m')

    pub move_assign_optional : Optional A → Optional A → Option (Optional A × Optional A)
    unfolding leave_moved put_value reset_optional
    move_assign_optional m o =
        if m.has_value_
        then (do v ← m.object; p ← put_value v o; m' ← leave_moved m; some (p, m'))
        else (do p ← reset_optional o; some (p, m))

    -- `swap`, where one of the two has the value: it is moved, and the source destroyed.
    move_over : Optional A → Optional A → Option (Optional A × Optional A)
    unfolding leave_moved construct_value destroy_value
    move_over m o = do
      v ← m.object
      p ← construct_value v o
      m' ← leave_moved m
      m'' ← destroy_value m'
      empty ← flagged false m''
      full ← flagged true p
      some (empty, full)

    exchange : Optional A → Optional A → Option (Optional A × Optional A)
    unfolding assign_value
    exchange m o = do
      v ← m.object
      w ← o.object
      m' ← assign_value w m
      o' ← assign_value v o
      some (m', o')

    pub swap_optionals : Optional A → Optional A → Option (Optional A × Optional A)
    unfolding move_over exchange
    swap_optionals m o =
        if m.has_value_
        then if o.has_value_ then exchange m o else move_over m o
        else if o.has_value_
        then (do r ← move_over o m; some (r.1, r.0))
        else some (m, o)

  module _ (equal : A → A → Bool) where
    same_value : Option A → Option A → Option Bool
    same_value a b = do v ← a; w ← b; some (equal v w)

    pub optionals_equal : Optional A → Optional A → Option Bool
    unfolding same_value
    optionals_equal m o =
        if m.has_value_ && o.has_value_
        then same_value m.object o.object
        else some (if m.has_value_ then o.has_value_ else not o.has_value_)

-- What a program does with its variables. `redeclares` ends the life of a variable and makes it again as a copy of another one, or by a
-- move from it.
pub data Operation {ℓ} (A : Type ℓ) : Type ℓ where
  nullifies : ℕ → Operation A
  assigns : ℕ → A → Operation A
  emplaces : ℕ → A → Operation A
  copies : ℕ → ℕ → Operation A
  moves : (i j : ℕ) → i ≢ j → Operation A
  swaps : (i j : ℕ) → i ≢ j → Operation A
  redeclares : ℕ → ℕ → Operation A
  redeclares_moved : (i j : ℕ) → i ≢ j → Operation A
  compares : ℕ → ℕ → Operation A

abbrev pub keep {ℓ} : {A : Type ℓ} → ℕ → A → (ℕ → A) → ℕ → A
keep i a vars j = if j == i then a else vars j

module _ {ℓ} {A : Type ℓ} (moved : A → A) (equal : A → A → Bool) where
  -- The end of a life; an object that stays in the storage is a leak, and has no result.
  dispose : Optional A → Option (Optional A)
  unfolding destruct_optional
  dispose o = do p ← destruct_optional o; elim p.object [ none ↦ some p | some _ ↦ none ]

  -- The variables afterwards, and the answers of the comparisons, the last one first
  perform : Operation A → (ℕ → Optional A) × List Bool → Option ((ℕ → Optional A) × List Bool)
  perform (nullifies i) (vars, log) = do o ← reset_optional (vars i); some (keep i o vars, log)
  perform (assigns i v) (vars, log) = do
    temporary ← optional_of v
    (o, left) ← move_assign_optional moved temporary (vars i)
    gone ← dispose left
    some (keep i o vars, log)
  perform (emplaces i v) (vars, log) = do o ← emplace v (vars i); some (keep i o vars, log)
  perform (copies i j) (vars, log) = do o ← copy_assign (vars j) (vars i); some (keep i o vars, log)
  perform (moves i j apart) (vars, log) = do
    (o, m) ← move_assign_optional moved (vars j) (vars i)
    some (keep j m (keep i o vars), log)
  perform (swaps i j apart) (vars, log) = do
    (m, o) ← swap_optionals moved (vars i) (vars j)
    some (keep j o (keep i m vars), log)
  perform (redeclares i j) (vars, log) = do
    fresh ← copy_construct (vars j)
    gone ← dispose (vars i)
    some (keep i fresh vars, log)
  perform (redeclares_moved i j apart) (vars, log) = do
    gone ← dispose (vars i)
    (fresh, m) ← move_construct moved (vars j)
    some (keep j m (keep i fresh vars), log)
  perform (compares i j) (vars, log) = do
    b ← optionals_equal equal (vars i) (vars j)
    some (vars, b ∷ log)

  pub run_program :
      List (Operation A) → (ℕ → Optional A) × List Bool → Option ((ℕ → Optional A) × List Bool)
  run_program [] s = some s
  run_program (op ∷ rest) s = do s' ← perform op s; run_program rest s'
