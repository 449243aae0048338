-- ===== src/Locks/Checkers.antt =====
-- race_checker.cc and synchronization/sequence_checker.cc. `equal` is `ThrdEqual`. A call is one step: `SequenceChecker`
-- holds its lock in it, while the calls of `RaceChecker` may in truth overlap.
use rtc_base.Common.{
  ℕ, zero, suc, ◌≡◌, refl, sym, ap, ap₂, ◌∙◌, Bool, true, false, not, List, [], ◌∷◌, ◌==◌,
  if◌then◌else◌, arith, Bool-cases, inl, inr, ==_iff, ==_same, ◌↔◌,
}
use rtc_base.Common.Int.{ℤ, pos, ◌+ℤ◌, ◌-ℤ◌, eqb_ℤ}

pub record RaceChecker : Type 0 where
  pub access_count : ℤ
  pub accessing_thread : ℕ

release : RaceChecker → RaceChecker
release r = record r { access_count = r.access_count -ℤ pos 1 }

pub record SequenceChecker : Type 0 where
  pub attached : Bool
  pub valid_thread : ℕ

pub sequence_checker : ℕ → SequenceChecker
sequence_checker current_thread = record { attached = true; valid_thread = current_thread }

pub detach : SequenceChecker → SequenceChecker
detach s = record s { attached = false }

-- What happens to a `RaceChecker`: a scope of a thread begins, or one ends.
pub data Event : Type 0 where
  begins : ℕ → Event
  ends : Event

-- Nobody uses the object, or a thread began to and `n` scopes more are open.
pub data Use : Type 0 where
  nobody : Use
  since : ℕ → ℕ → Use

-- The use after each event, and whether a thread is the one that opened the first of the open scopes.
unfoldable pub judged : List Event → Use → List Bool
judged [] u = []
judged (begins t ∷ es) nobody = true ∷ judged es (since t 0)
judged (begins t ∷ es) (since s n) = (s == t) ∷ judged es (since s (suc n))
judged (ends ∷ es) nobody = []
judged (ends ∷ es) (since s zero) = judged es nobody
judged (ends ∷ es) (since s (suc n)) = judged es (since s n)

-- A scope ends only after it began.
abbrev pub Proper : List Event → Use → Type 0
Proper [] u = Unit {0}
Proper (begins t ∷ es) nobody = Proper es (since t 0)
Proper (begins t ∷ es) (since s n) = Proper es (since s (suc n))
Proper (ends ∷ es) nobody = ⊥
Proper (ends ∷ es) (since s zero) = Proper es nobody
Proper (ends ∷ es) (since s (suc n)) = Proper es (since s n)

abbrev pub checker : ℤ → ℕ → RaceChecker
checker c t = record { access_count = c; accessing_thread = t }

-- The members while the object is so used.
abbrev pub Shows : RaceChecker → Use → Type 0
Shows r nobody = r.access_count ≡ pos 0
Shows r (since s n) = (r.access_count ≡ pos (suc n)) × (r.accessing_thread ≡ s)

module _ (equal : ℕ → ℕ → Bool) where
  acquire : ℕ → RaceChecker → RaceChecker × Bool
  acquire current_thread r =
      let accessing = if eqb_ℤ r.access_count (pos 0) then current_thread else r.accessing_thread in
      (
        record { access_count = r.access_count +ℤ pos 1; accessing_thread = accessing },
        equal accessing current_thread,
      )

  pub is_current : ℕ → SequenceChecker → SequenceChecker × Bool
  is_current current_thread s =
      if not s.attached
      then (record { attached = true; valid_thread = current_thread }, true)
      else (s, equal s.valid_thread current_thread)

  -- The answers of `Acquire`, one for each scope that begins.
  pub answers : List Event → RaceChecker → List Bool
  answers [] r = []
  answers (begins t ∷ es) r = let (r', ok) = acquire t r in ok ∷ answers es r'
  answers (ends ∷ es) r = answers es (release r)

module _ (equal : ℕ → ℕ → Bool) (exact : (a b : ℕ) → (equal a b ≡ true) ↔ (a ≡ b)) where
  equal_lem : (a b : ℕ) → equal a b ≡ (a == b)
  equal_lem a b = elim (Bool-cases (equal a b)) [
    | inl e ↦ e ∙ sym ((==_iff a b).1 ((exact a b).0 e))
    | inr e ↦ elim (Bool-cases (a == b)) [
      | inl f ↦ let g : equal a b ≡ true = (exact a b).1 ((==_iff a b).0 f) in cc
      | inr f ↦ e ∙ sym f
    ]
  ]

  first_use :
      (t a : ℕ) (c : ℤ) → c ≡ pos 0 → acquire equal t (checker c a) ≡ (checker (pos 1) t, true)
  unfolding acquire ◌+ℤ◌
  first_use t a c e = rw e (rw (equal_lem t t, ==_same t) refl)

  later_use :
      (t a n : ℕ) (c : ℤ)
      → c ≡ pos (suc n)
      → acquire equal t (checker c a) ≡ (checker (pos (suc (suc n))) a, a == t)
  unfolding acquire ◌+ℤ◌
  later_use t a n c e = rw e (ground (arith, equal_lem a t))

  one_less : (n : ℕ) (c : ℤ) → c ≡ pos (suc n) → c -ℤ pos 1 ≡ pos n
  unfolding ◌-ℤ◌
  one_less n c e = rw e (ground arith)

  -- From a checker that shows the use of its object on, with each call of `Acquire` and `Release` as one step, as
  -- long as scopes are open `Acquire` answers true exactly to the thread that opened the first of them, and to any thread
  -- when none is open. That first scope may have ended before the others, so that a thread may be told of a race while
  -- only its own scopes are open.
  pub answers-judged :
      (es : List (Event)) (r : RaceChecker) (u : Use)
      → Shows r u
      → Proper es u
      → answers equal es r ≡ judged es u
  unfolding answers judged release
  answers-judged [] r u s p = refl
  answers-judged (begins t ∷ es) r nobody s p =
      ap (λ (q : RaceChecker × Bool). q.1 ∷ answers equal es q.0)
        (first_use t r.accessing_thread r.access_count s)
      ∙ ap (λ l. true ∷ l) (answers-judged es (checker (pos 1) t) (since t 0) (refl, refl) p)
  answers-judged (begins t ∷ es) r (since a n) s p =
      ap (λ (q : RaceChecker × Bool). q.1 ∷ answers equal es q.0)
        (later_use t r.accessing_thread n r.access_count s.0)
      ∙ ap₂ (λ b l. (b == t) ∷ l) s.1
          (answers-judged es (checker (pos (suc (suc n))) r.accessing_thread) (since a (suc n))
            (refl, s.1) p)
  answers-judged (ends ∷ es) r nobody s p = elim p [ ]
  answers-judged (ends ∷ es) r (since a zero) s p =
      answers-judged es (release r) nobody (one_less 0 r.access_count s.0) p
  answers-judged (ends ∷ es) r (since a (suc n)) s p =
      answers-judged es (release r) (since a n) (one_less (suc n) r.access_count s.0, s.1) p

  -- Threads that ask in turn.
  pub asks : List ℕ → SequenceChecker → SequenceChecker
  asks [] s = s
  asks (u ∷ us) s = asks us (is_current equal u s).0

  asked :
      (t : ℕ) (s : SequenceChecker)
      → (is_current equal t s).1 ≡ true
      → ((is_current equal t s).0.attached ≡ true) × ((is_current equal t s).0.valid_thread ≡ t)
  unfolding is_current
  asked t s told_true = ground (arith, equal_lem s.valid_thread t)

  attached_stays : (u : ℕ) (s : SequenceChecker) → s.attached ≡ true → (is_current equal u s).0 ≡ s
  unfolding is_current
  attached_stays u s on = rw on refl

  asks_stay : (us : List ℕ) (s : SequenceChecker) → s.attached ≡ true → asks us s ≡ s
  unfolding asks
  asks_stay [] s on = refl
  asks_stay (u ∷ us) s on =
      let same : (is_current equal u s).0 ≡ s = attached_stays u s on in
      asks_stay us (is_current equal u s).0 (ap (λ (q : SequenceChecker). q.attached) same ∙ on)
      ∙ same

  told :
      (u : ℕ) (s : SequenceChecker)
      → s.attached ≡ true
      → (is_current equal u s).1 ≡ (s.valid_thread == u)
  unfolding is_current
  told u s on = rw on (equal_lem s.valid_thread u)

  -- Once `IsCurrent` has answered true to a thread, and while nobody detaches the checker, it answers true to that
  -- thread only, whoever asks in between.
  pub is_current-asks :
      (t u : ℕ) (us : List ℕ) (s : SequenceChecker)
      → (is_current equal t s).1 ≡ true
      → (is_current equal u (asks us (is_current equal t s).0)).1 ≡ (t == u)
  is_current-asks t u us s told_true =
      let (on, is_t) = asked t s told_true in
      ap (λ q. (is_current equal u q).1) (asks_stay us (is_current equal t s).0 on)
      ∙ told u (is_current equal t s).0 on
      ∙ ap (λ v. v == u) is_t
