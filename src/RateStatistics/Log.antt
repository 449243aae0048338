-- ===== src/RateStatistics/Log.antt =====
-- rate_statistics.h: the samples in the window as a list, the description that the buckets are compared
-- with. A sample is a time and a count.
use rtc_base.Common.{
  ℕ, suc, ◌+◌, ◌≤◌, ◌<◌, ◌≡◌, ◌≢◌, refl, ap, ◌∙◌, List, [], ◌∷◌, arith, length, leb, ◌==◌, ==_iff,
  dec_le, ==_above, if◌then◌else◌,
}
use rtc_base.RateStatistics.State.{Bucket, empty_bucket}

abbrev pub Sample : Type 0
Sample = ℕ × ℕ

abbrev pub total : List Sample → ℕ
total [] = 0
total ((time, count) ∷ log) = count + total log

-- The samples from a time on.
abbrev pub keep_from : ℕ → List Sample → List Sample
keep_from first [] = []
keep_from first ((time, count) ∷ log) =
    let rest = keep_from first log in if leb first time then (time, count) ∷ rest else rest

abbrev pub sum_at : ℕ → List Sample → ℕ
sum_at t [] = 0
sum_at t ((time, count) ∷ log) = if time == t then count + sum_at t log else sum_at t log

abbrev pub samples_at : ℕ → List Sample → ℕ
samples_at t [] = 0
samples_at t ((time, count) ∷ log) = if time == t then suc (samples_at t log) else samples_at t log

abbrev pub bucket_at : ℕ → List Sample → Bucket
bucket_at t log = record { sum = sum_at t log; samples = samples_at t log }

abbrev pub Between : ℕ → ℕ → List Sample → Type 0
Between first last [] = Unit
Between first last ((time, count) ∷ log) = (first ≤ time) × (time < last) × Between first last log

-- One sample more, in a bucket and outside it.
pub add_at :
    (t time count : ℕ) (log log' : List Sample)
    → bucket_at t log ≡ bucket_at t log'
    → bucket_at t ((time, count) ∷ log) ≡ bucket_at t ((time, count) ∷ log')
add_at t time count log log' same =
    ap
      (λ b. record {
        sum = if time == t then count + b.sum else b.sum;
        samples = if time == t then suc b.samples else b.samples;
      })
      same

pub skip_at :
    (t time count : ℕ) (log : List Sample)
    → time ≢ t
    → bucket_at t ((time, count) ∷ log) ≡ bucket_at t log
skip_at t time count log other = ground arith

pub keep_yes :
    (first time count : ℕ) (log : List Sample)
    → first ≤ time
    → keep_from first ((time, count) ∷ log) ≡ (time, count) ∷ keep_from first log
keep_yes first time count log h = ground arith

pub keep_no :
    (first time count : ℕ) (log : List Sample)
    → time < first
    → keep_from first ((time, count) ∷ log) ≡ keep_from first log
keep_no first time count log h = ground arith

pub keep_from_all :
    (first last : ℕ) (log : List Sample) → Between first last log → keep_from first log ≡ log
keep_from_all first last [] b = refl
keep_from_all first last ((time, count) ∷ log) (low, high, b) =
    keep_yes first time count log low ∙ ap (λ l. (time, count) ∷ l) (keep_from_all first last log b)

pub keep_from_twice :
    (a b : ℕ) (log : List Sample) → a ≤ b → keep_from b (keep_from a log) ≡ keep_from b log
keep_from_twice a b [] h = refl
keep_from_twice a b ((time, count) ∷ log) h = elim (dec_le a time) [
  | yes kept ↦ elim (dec_le b time) [
    | yes twice ↦
        rw
          (
            keep_yes a time count log kept,
            keep_yes b time count (keep_from a log) twice,
            keep_yes b time count log twice,
          )
          (ap (λ l. (time, count) ∷ l) (keep_from_twice a b log h))
    | no once ↦
        rw
          (
            keep_yes a time count log kept,
            keep_no b time count (keep_from a log) (omega arith),
            keep_no b time count log (omega arith),
          )
          (keep_from_twice a b log h)
  ]
  | no dropped ↦
      rw (keep_no a time count log (omega arith), keep_no b time count log (omega arith))
        (keep_from_twice a b log h)
]

-- The bucket of a time that is kept is as it was.
pub bucket_at_kept :
    (t first : ℕ) (log : List Sample)
    → first ≤ t
    → bucket_at t (keep_from first log) ≡ bucket_at t log
bucket_at_kept t first [] h = refl
bucket_at_kept t first ((time, count) ∷ log) h = elim (dec_le first time) [
  | yes kept ↦
      rw (keep_yes first time count log kept)
        (add_at t time count (keep_from first log) log (bucket_at_kept t first log h))
  | no dropped ↦
      rw (keep_no first time count log (omega arith), skip_at t time count log (omega arith))
        (bucket_at_kept t first log h)
]

pub bucket_at_outside :
    (t first last : ℕ) (log : List Sample)
    → Between first last log
    → last ≤ t
    → bucket_at t log ≡ empty_bucket
bucket_at_outside t first last [] b h = refl
bucket_at_outside t first last ((time, count) ∷ log) (low, high, b) h =
    skip_at t time count log (omega arith) ∙ bucket_at_outside t first last log b h

-- What the bucket of the first time holds, the samples that are kept from the next time on do not.
pub total_split :
    (first last : ℕ) (log : List Sample)
    → Between first last log
    → (total log ≡ sum_at first log + total (keep_from (first + 1) log))
      × (length log ≡ samples_at first log + length (keep_from (first + 1) log))
total_split first last [] b = (refl, refl)
total_split first last ((time, count) ∷ log) (low, high, b) =
    let (sums, counts) = total_split first last log b in
    elim (dec_le (first + 1) time) [
      | yes later ↦
          rw (keep_yes (first + 1) time count log later, ==_above time first (omega arith))
            (omega (arith, sums), omega (arith, counts))
      | no now ↦
          rw (keep_no (first + 1) time count log (omega arith), (==_iff time first).1 (omega arith))
            (omega (arith, sums), omega (arith, counts))
    ]

pub Between-kept :
    (first last next : ℕ) (log : List Sample)
    → Between first last log
    → Between next last (keep_from next log)
Between-kept first last next [] b = tt
Between-kept first last next ((time, count) ∷ log) (low, high, b) = elim (dec_le next time) [
  | yes later ↦
      rw (keep_yes next time count log later) (later, high, Between-kept first last next log b)
  | no dropped ↦ rw (keep_no next time count log (omega arith)) (Between-kept first last next log b)
]

pub Between-wider :
    (first last last' : ℕ) (log : List Sample)
    → last ≤ last'
    → Between first last log
    → Between first last' log
Between-wider first last last' [] h b = tt
Between-wider first last last' ((time, count) ∷ log) h (low, high, b) =
    (low, omega arith, Between-wider first last last' log h b)

pub Between-lower :
    (first lower last : ℕ) (log : List Sample)
    → lower ≤ first
    → Between first last log
    → Between lower last log
Between-lower first lower last [] h b = tt
Between-lower first lower last ((time, count) ∷ log) h (low, high, b) =
    (omega arith, high, Between-lower first lower last log h b)
