-- ===== src/Time.antt =====
-- time_utils.cc and features/time_c_inl.h: calendar time and `timespec`. The clocks of the system are given.
pub mod Calendar
pub mod Conversion
pub mod Spec
mod Tests
use rtc_base.Common.{
  ℕ, ◌+◌, ◌-◌, ◌*◌, ◌/◌, ◌%◌, Bool, true, false, not, ◌&&◌, ◌||◌, List, [], ◌∷◌, ltb, leb, ◌==◌,
  if◌then◌else◌, get_or,
}
use rtc_base.Common.Int.{ℤ, pos, negsuc, pos_part, neg_part, ◌+ℤ◌, ◌-ℤ◌, ◌*ℤ◌, ltb_ℤ, leb_ℤ, eqb_ℤ}

-- The fields of `struct tm` that are read.
pub record Tm : Type 0 where
  pub tm_year : ℤ
  pub tm_mon : ℤ
  pub tm_mday : ℤ
  pub tm_hour : ℤ
  pub tm_min : ℤ
  pub tm_sec : ℤ

-- `/` and `%` by a positive number: towards zero.
abbrev pub quot : ℤ → ℕ → ℤ
quot (pos n) d = pos (n / d)
quot (negsuc n) d = pos 0 -ℤ pos ((n + 1) / d)

abbrev pub rem : ℤ → ℕ → ℤ
rem (pos n) d = pos (n % d)
rem (negsuc n) d = pos 0 -ℤ pos ((n + 1) % d)

abbrev mdays : List ℕ
mdays = 31 ∷ 28 ∷ 31 ∷ 30 ∷ 31 ∷ 30 ∷ 31 ∷ 31 ∷ 30 ∷ 31 ∷ 30 ∷ 31 ∷ []

abbrev cumul_mdays : List ℕ
cumul_mdays = 0 ∷ 31 ∷ 59 ∷ 90 ∷ 120 ∷ 151 ∷ 181 ∷ 212 ∷ 243 ∷ 273 ∷ 304 ∷ 334 ∷ []

pub expiry_in_leap_year : ℤ → Bool
expiry_in_leap_year year =
    eqb_ℤ (rem year 4) (pos 0)
    && (not (eqb_ℤ (rem year 100) (pos 0)) || eqb_ℤ (rem year 400) (pos 0))

abbrev one_if : Bool → ℕ
one_if b = if b then 1 else 0

-- The days since 1970-01-01 of a date that passed the checks. The differences are not negative there.
pub day_number : Bool → ℕ → ℕ → ℕ → ℕ
day_number leap year month day =
    let in_year = day + get_or cumul_mdays month 0 in
    let with_leap_days =
      in_year + (year / 4 - 1970 / 4 - (year / 100 - 1970 / 100) + (year / 400 - 1970 / 400)) in
    let days = if leap && leb month 1 then with_leap_days - 1 else with_leap_days in
    (year - 1970) * 365 + days

-- `second * kNumMillisecsPerSec`
pub millis_of : ℕ → ℕ → ℕ → ℕ → ℕ
millis_of days hour min sec = (((days * 24 + hour) * 60 + min) * 60 + sec) * 1000

pub tm_to_time : Tm → ℤ
unfolding expiry_in_leap_year day_number millis_of
tm_to_time tm =
    let year = tm.tm_year +ℤ pos 1900 in
    let month = tm.tm_mon in
    let day = tm.tm_mday -ℤ pos 1 in
    let leap = expiry_in_leap_year year in
    if ltb_ℤ year (pos 1970)
    then negsuc 0
    else if ltb_ℤ month (pos 0) || ltb_ℤ (pos 11) month
    then negsuc 0
    else if ltb_ℤ day (pos 0)
        || leb_ℤ (pos (get_or mdays (pos_part month) 0 + one_if (leap && eqb_ℤ month (pos 1)))) day
    then negsuc 0
    else if ltb_ℤ tm.tm_hour (pos 0) || ltb_ℤ (pos 23) tm.tm_hour
    then negsuc 0
    else if ltb_ℤ tm.tm_min (pos 0) || ltb_ℤ (pos 59) tm.tm_min
    then negsuc 0
    else if ltb_ℤ tm.tm_sec (pos 0) || ltb_ℤ (pos 59) tm.tm_sec
    then negsuc 0
    else pos (
        millis_of (day_number leap (pos_part year) (pos_part month) (pos_part day))
          (pos_part tm.tm_hour) (pos_part tm.tm_min) (pos_part tm.tm_sec))

pub record Timespec : Type 0 where
  pub tv_sec : ℤ
  pub tv_nsec : ℤ

abbrev pub ns_per_sec : ℕ
ns_per_sec = 1000000000

pub timespec_normalize : Timespec → Timespec
timespec_normalize ts =
    if leb_ℤ (pos ns_per_sec) ts.tv_nsec
    then record {
      tv_sec = ts.tv_sec +ℤ quot ts.tv_nsec ns_per_sec;
      tv_nsec = rem ts.tv_nsec ns_per_sec;
    }
    else ts

pub timespec_from_millisec : ℤ → Timespec
timespec_from_millisec ms =
    timespec_normalize (record { tv_sec = quot ms 1000; tv_nsec = rem ms 1000 *ℤ pos 1000000 })

pub timespec_to_millisec : Timespec → ℤ
timespec_to_millisec ts = ts.tv_sec *ℤ pos 1000 +ℤ quot ts.tv_nsec 1000000

pub timespec_after : Timespec → Timespec → Timespec
timespec_after ts elapsed =
    timespec_normalize
      (record { tv_sec = ts.tv_sec +ℤ elapsed.tv_sec; tv_nsec = ts.tv_nsec +ℤ elapsed.tv_nsec })

-- `time_millis` is what the clock says.
pub time_after : ℤ → ℤ → ℤ
time_after time_millis elapsed = time_millis +ℤ elapsed

pub time_diff : ℤ → ℤ → ℤ
time_diff later earlier = later -ℤ earlier
