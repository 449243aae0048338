-- ===== src/Locks/Critical.antt =====
-- `CriticalSection` against a lock that knows its holder and how often it is held.
use rtc_base.Common.{
  ℕ, zero, suc, ◌≡◌, refl, sym, ap, ◌∙◌, inl, inr, true, none, some, ◌==◌, if◌then◌else◌,
  Bool-cases, ==_iff, ==_same, ==_other, arith, ℕ_discrete,
}
use rtc_base.Common.Int.{pos, ◌+ℤ◌, ◌-ℤ◌}
use rtc_base.Locks.{
  System, LockAnswer, done, refused, dcheck_failed, CriticalSection, platform_equal, is_owner,
  claim, claim_first, enter, try_enter, give_back, leave, Call, enters, tries_to_enter, leaves,
  call,
}

-- Free, or held by a thread that entered `n` times more.
pub data Lock : Type 0 where
  free : Lock
  held : ℕ → ℕ → Lock

taking : ℕ → Lock → LockAnswer Lock
taking t free = done (held t 0)
taking t (held u n) = if u == t then done (held u (suc n)) else refused

giving : ℕ → Lock → LockAnswer Lock
giving t free = dcheck_failed
giving t (held u zero) = if u == t then done free else dcheck_failed
giving t (held u (suc n)) = if u == t then done (held u n) else dcheck_failed

-- What each call does to such a lock.
pub lock_call : Call → ℕ → Lock → LockAnswer Lock
unfolding taking giving
lock_call enters t l = taking t l
lock_call tries_to_enter t l = taking t l
lock_call leaves t l = giving t l

module _ (y : System) where
  open y use {Mutex, depth, owner, try_lock, unlock, pthread_equal}

  abbrev pub state : Mutex → Lock → CriticalSection y
  state m free = record { mutex = m; thread = none; recursion_count = pos 0 }
  state m (held u n) = record { mutex = m; thread = some u; recursion_count = pos (suc n) }

  abbrev pub MutexIs : Mutex → Lock → Type 0
  MutexIs m free = depth m ≡ 0
  MutexIs m (held u n) = (depth m ≡ suc n) × (owner m ≡ u)

  -- The members of the class, and the mutex itself, say the same of the lock.
  abbrev pub Represents : CriticalSection y → Lock → Type 0
  Represents s l = (m : Mutex) × (s ≡ state m l) × MutexIs m l

  abbrev pub Matches : LockAnswer (CriticalSection y) → LockAnswer Lock → Type 0
  Matches (done s) (done l) = Represents s l
  Matches refused refused = Unit {0}
  Matches dcheck_failed dcheck_failed = Unit {0}
  Matches _ _ = ⊥

  platform_equal_lem : (a b : ℕ) → platform_equal y a b ≡ (a == b)
  unfolding platform_equal
  platform_equal_lem a b = elim (Bool-cases (pthread_equal a b)) [
    | inl e ↦ rw (e, (y.equal_exact a b).0 e) (sym (==_same b))
    | inr e ↦ elim (Bool-cases (a == b)) [
      | inl f ↦ let g : pthread_equal a b ≡ true = (y.equal_exact a b).1 ((==_iff a b).0 f) in cc
      | inr f ↦ rw (e, f) refl
    ]
  ]

  claim-free : (t : ℕ) (m : Mutex) → claim y t (state m free) ≡ done (state m (held t 0))
  unfolding claim claim_first ◌+ℤ◌
  claim-free t m = refl

  claim_again :
      (t n : ℕ) (m : Mutex) → claim y t (state m (held t n)) ≡ done (state m (held t (suc n)))
  unfolding claim is_owner ◌+ℤ◌
  claim_again t n m = rw (platform_equal_lem t t, ==_same t) (ground arith)

  taken :
      (take : ℕ → CriticalSection y → LockAnswer (CriticalSection y))
      → ((t : ℕ) (m m' : Mutex) (l : Lock)
          → try_lock t m ≡ some m'
          → take t (state m l) ≡ claim y t (state m' l))
      → ((t : ℕ) (m : Mutex) (l : Lock) → try_lock t m ≡ none → take t (state m l) ≡ refused)
      → (t : ℕ) (m : Mutex) (l : Lock) → MutexIs m l
      → Matches (take t (state m l)) (taking t l)
  unfolding taking
  taken take some_case none_case t m free e =
      let (m', locked, d, o) = y.free_taken t m e in
      rw (some_case t m m' free locked, claim-free t m') (m', refl, (d, o))
  taken take some_case none_case t m (held u n) e = elim (ℕ_discrete u t) [
    | yes same ↦
        let (m', locked, d, o) = y.own_taken m (omega (arith, e.0)) in
        let mine : try_lock t m ≡ some m' = ap (λ a. try_lock a m) (sym (e.1 ∙ same)) ∙ locked in
        let deeper : depth m' ≡ suc (suc n) = omega (arith, d, e.0) in
        rw same (
          rw (==_same t) (
            rw (some_case t m m' (held t n) mine, claim_again t n m')
              (m', refl, (deeper, o ∙ e.1 ∙ same))))
    | no other ↦
        let not_mine : try_lock t m ≡ none =
          y.other_refused t m (omega (arith, e.0)) (λ o. other (sym e.1 ∙ o)) in
        rw (none_case t m (held u n) not_mine, ==_other u t other) tt
  ]

  less_one : (n : ℕ) → pos (suc n) -ℤ pos 1 ≡ pos n
  unfolding ◌-ℤ◌
  less_one n = ground arith

  give_one :
      (u n : ℕ) (m : Mutex)
      → give_back y (pos (suc n)) (state m (held u (suc n))) ≡ done (state (unlock m) (held u n))
  unfolding give_back
  give_one u n m = ground arith

  given :
      (t : ℕ) (m : Mutex) (l : Lock) → MutexIs m l → Matches (leave y t (state m l)) (giving t l)
  unfolding leave giving is_owner
  given t m free e = tt
  given t m (held u zero) e = rw (platform_equal_lem u t) (elim (Bool-cases (u == t)) [
    | inl same ↦ rw same (
        rw (less_one 0) (unlock m, refl, omega (arith, (y.unlocked m (omega (arith, e.0))).0, e.0)))
    | inr other ↦ rw other tt
  ])
  given t m (held u (suc n)) e = rw (platform_equal_lem u t) (elim (Bool-cases (u == t)) [
    | inl same ↦
        let (less, kept) = y.unlocked m (omega (arith, e.0)) in
        rw same (
          rw (less_one (suc n), give_one u n m)
            (unlock m, refl, (omega (arith, less, e.0), kept ∙ e.1)))
    | inr other ↦ rw other tt
  ])

  enter_taken :
      (t : ℕ) (m m' : Mutex) (l : Lock)
      → try_lock t m ≡ some m'
      → enter y t (state m l) ≡ claim y t (state m' l)
  unfolding enter
  enter_taken t m m' free locked = rw (locked, enter) refl
  enter_taken t m m' (held u n) locked = rw (locked, enter) refl

  enter_waits :
      (t : ℕ) (m : Mutex) (l : Lock) → try_lock t m ≡ none → enter y t (state m l) ≡ refused
  unfolding enter
  enter_waits t m free other = rw (other, enter) refl
  enter_waits t m (held u n) other = rw (other, enter) refl

  try_enter_taken :
      (t : ℕ) (m m' : Mutex) (l : Lock)
      → try_lock t m ≡ some m'
      → try_enter y t (state m l) ≡ claim y t (state m' l)
  unfolding try_enter
  try_enter_taken t m m' free locked = rw (locked, try_enter) refl
  try_enter_taken t m m' (held u n) locked = rw (locked, try_enter) refl

  try_enter_waits :
      (t : ℕ) (m : Mutex) (l : Lock) → try_lock t m ≡ none → try_enter y t (state m l) ≡ refused
  unfolding try_enter
  try_enter_waits t m free other = rw (other, try_enter) refl
  try_enter_waits t m (held u n) other = rw (other, try_enter) refl

-- On a critical section that is free, or held by one thread so many times, each call answers as a lock does that knows
-- its holder and the count: entering takes it, again too, or is refused to another thread; leaving by its holder
-- gives one entry back, and by anyone else fails the check; no other check fails.
pub call-lock_call :
    (y : System) (c : Call) (t : ℕ) (s : CriticalSection y) (l : Lock)
    → Represents y s l
    → Matches y (call y c t s) (lock_call c t l)
unfolding call lock_call
call-lock_call y enters t s l (m, e, is) =
    rw e (taken y (enter y) (enter_taken y) (enter_waits y) t m l is)
call-lock_call y tries_to_enter t s l (m, e, is) =
    rw e (taken y (try_enter y) (try_enter_taken y) (try_enter_waits y) t m l is)
call-lock_call y leaves t s l (m, e, is) = rw e (given y t m l is)
