-- ===== src/Time/Spec.antt =====
-- Milliseconds as a `timespec` and back, and deadlines.
use rtc_base.Common.{
  ℕ, zero, suc, ◌+◌, ◌-◌, ◌*◌, ◌/◌, ◌%◌, ◌<◌, ◌≡◌, refl, ap, ◌∙◌, arith, leb_above, leb-cases, inl,
  inr, ap₂,
}
use rtc_base.Common.Int.{ℤ, pos, negsuc, ◌+ℤ◌, ◌-ℤ◌, ◌*ℤ◌}
use rtc_base.Time.{
  Timespec, quot, ns_per_sec, timespec_normalize, timespec_from_millisec, timespec_to_millisec,
  timespec_after,
}

-- -n
minus : ℕ → ℤ
minus zero = pos 0
minus (suc n) = negsuc n

minus_lem : (n : ℕ) → pos 0 -ℤ pos n ≡ minus n
unfolding minus ◌-ℤ◌
minus_lem zero = refl
minus_lem (suc n) = ground arith

times_pos : (a b : ℕ) → pos a *ℤ pos b ≡ pos (a * b)
unfolding ◌*ℤ◌
times_pos a b = grind arith

times_minus : (a b : ℕ) → minus a *ℤ pos b ≡ minus (a * b)
unfolding ◌*ℤ◌ minus
times_minus zero b = grind arith
times_minus (suc a) zero = grind arith
times_minus (suc a) (suc b) = grind arith

plus_pos : (a b : ℕ) → pos a +ℤ pos b ≡ pos (a + b)
unfolding ◌+ℤ◌
plus_pos a b = ground arith

plus_minus : (a b : ℕ) → minus a +ℤ minus b ≡ minus (a + b)
unfolding ◌+ℤ◌ minus
plus_minus zero zero = refl
plus_minus zero (suc b) = ground arith
plus_minus (suc a) zero = ground arith
plus_minus (suc a) (suc b) = ground arith

quot_million : (n : ℕ) → quot (minus (n * 1000000)) 1000000 ≡ minus n
unfolding minus
quot_million zero = refl
quot_million (suc n) =
    let positive : suc n * 1000000 ≡ suc (suc n * 1000000 - 1) = omega arith in
    let whole : (suc n * 1000000 - 1 + 1) / 1000000 ≡ suc n = omega arith in
    rw positive (rw whole (minus_lem (suc n)))

abbrev pub spec : ℤ → ℤ → Timespec
spec s n = record { tv_sec = s; tv_nsec = n }

normalize_pos :
    (a b : ℕ)
    → timespec_normalize (spec (pos a) (pos b))
      ≡ spec (pos (a + b / ns_per_sec)) (pos (b % ns_per_sec))
unfolding timespec_normalize
normalize_pos a b = elim (leb-cases (ns_per_sec + 0) (b + 0)) [
  | inl (_, e) ↦ rw (e, plus_pos) refl
  | inr (lt, e) ↦
      let seconds : a + b / ns_per_sec ≡ a = omega arith in
      let rest : b % ns_per_sec ≡ b = omega arith in rw (e, seconds, rest) refl
]

normalize_minus : (s : ℤ) (n : ℕ) → timespec_normalize (spec s (minus n)) ≡ spec s (minus n)
unfolding timespec_normalize minus
normalize_minus s zero = refl
normalize_minus s (suc n) = rw (leb_above (ns_per_sec + suc n) 0 (omega arith)) refl

from_pos :
    (m : ℕ) → timespec_from_millisec (pos m) ≡ spec (pos (m / 1000)) (pos (m % 1000 * 1000000))
unfolding timespec_from_millisec
from_pos m =
    rw (times_pos (m % 1000) 1000000)
      (normalize_pos (m / 1000) (m % 1000 * 1000000) ∙ ap₂ (λ a b. spec (pos a) (pos b)) whole part)
  where
    whole : m / 1000 + m % 1000 * 1000000 / ns_per_sec ≡ m / 1000
    whole = omega arith

    part : m % 1000 * 1000000 % ns_per_sec ≡ m % 1000 * 1000000
    part = omega arith

from_minus :
    (n : ℕ)
    → timespec_from_millisec (negsuc n)
      ≡ spec (minus ((n + 1) / 1000)) (minus ((n + 1) % 1000 * 1000000))
unfolding timespec_from_millisec
from_minus n =
    rw
      (minus_lem ((n + 1) / 1000), minus_lem ((n + 1) % 1000), times_minus ((n + 1) % 1000) 1000000)
      (normalize_minus _ _)

-- Milliseconds become a `timespec` and come back unchanged, negative ones too.
pub timespec_to_millisec-from_millisec :
    (ms : ℤ) → timespec_to_millisec (timespec_from_millisec ms) ≡ ms
unfolding timespec_to_millisec
timespec_to_millisec-from_millisec (pos n) =
    let whole : n / 1000 * 1000 + n % 1000 * 1000000 / 1000000 ≡ n = omega arith in
    rw (from_pos n) (rw (times_pos (n / 1000) 1000, plus_pos) (ap pos whole))
timespec_to_millisec-from_millisec (negsuc n) =
    let whole : (n + 1) / 1000 * 1000 + (n + 1) % 1000 ≡ suc n = omega arith in
    rw (from_minus n) (
      rw (times_minus ((n + 1) / 1000) 1000, quot_million, plus_minus, whole)
        (unfold minus in refl))

-- A time of the clock and some milliseconds, neither of them negative, make a deadline that lies just these
-- milliseconds later and whose nanoseconds stay below a second.
pub timespec_after_lem :
    (s n ms : ℕ)
    → (s' : ℕ) × (n' : ℕ) × (timespec_after (spec (pos s) (pos n)) (timespec_from_millisec (pos ms))
        ≡ spec (pos s') (pos n'))
      × (n' < ns_per_sec)
      × (s' * ns_per_sec + n' ≡ s * ns_per_sec + n + ms * 1000000)
unfolding timespec_after
timespec_after_lem s n ms = (
  s + ms / 1000 + (n + ms % 1000 * 1000000) / ns_per_sec,
  (n + ms % 1000 * 1000000) % ns_per_sec,
  rw (from_pos ms) (rw plus_pos (rw plus_pos (normalize_pos _ _))),
  omega arith,
  omega arith,
)
