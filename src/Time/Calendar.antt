-- ===== src/Time/Calendar.antt =====
-- `TmToTime` against a calendar that counts days year by year and month by month.
use rtc_base.Common.{
  ℕ, zero, suc, ◌+◌, ◌-◌, ◌*◌, ◌/◌, ◌%◌, ◌≤◌, ◌≡◌, refl, Bool, true, false, not, ◌&&◌, ◌||◌, leb,
  ◌==◌, if◌then◌else◌, get_or, arith, every_below, every_below-at,
}
use rtc_base.Common.Int.{pos}
use rtc_base.Time.{mdays, cumul_mdays, expiry_in_leap_year, one_if, day_number}

-- The calendar: every fourth year is leap, but of the full centuries only every fourth.
abbrev pub is_leap : ℕ → Bool
is_leap y = if y % 400 == 0 then true else if y % 100 == 0 then false else y % 4 == 0

abbrev pub year_length : ℕ → ℕ
year_length y = if is_leap y then 366 else 365

-- Months count from 0.
abbrev pub month_length : Bool → ℕ → ℕ
month_length leap m =
    if m == 1
    then (if leap then 29 else 28)
    else if (m == 3) || (m == 5) || (m == 8) || (m == 10)
    then 30
    else 31

-- The days of the `k` years from 1970 on.
pub days_of_years : ℕ → ℕ
days_of_years zero = 0
days_of_years (suc k) = days_of_years k + year_length (1970 + k)

-- The days of the first `m` months of a year.
pub days_of_months : Bool → ℕ → ℕ
days_of_months leap zero = 0
days_of_months leap (suc m) = days_of_months leap m + month_length leap m

leap_days : ℕ → ℕ
leap_days y = y / 4 - 492 - (y / 100 - 19) + (y / 400 - 4)

leap_days-suc :
    (k : ℕ) → leap_days (1970 + suc k) ≡ leap_days (1970 + k) + one_if (is_leap (1970 + suc k))
unfolding leap_days
leap_days-suc k = ground arith

year_parts : (y : ℕ) → year_length y ≡ 365 + one_if (is_leap y)
year_parts y = ground arith

days_of_years_closed :
    (k : ℕ) → days_of_years k + one_if (is_leap (1970 + k)) ≡ k * 365 + leap_days (1970 + k)
unfolding days_of_years
days_of_years_closed zero = unfold leap_days in refl
days_of_years_closed (suc k) =
    omega (arith, days_of_years_closed k, leap_days-suc k, year_parts (1970 + k))

-- The tables of the code, month by month.
tables :
    (leap : Bool)
    → every_below
        (λ m.
          (days_of_months leap m == get_or cumul_mdays m 0 + one_if (leap && not (leb m 1)))
          && (month_length leap m == get_or mdays m 0 + one_if (leap && (m == 1))))
        12
      ≡ true
unfolding every_below days_of_months
tables true = refl
tables false = refl

pub months_closed :
    (leap : Bool) (m : ℕ)
    → m ≤ 11
    → (days_of_months leap m ≡ get_or cumul_mdays m 0 + one_if (leap && not (leb m 1)))
      × (month_length leap m ≡ get_or mdays m 0 + one_if (leap && (m == 1)))
months_closed leap m h = both (every_below-at _ 12 (tables leap) m (omega arith))
  where
    both : {a b c d : ℕ} → ((a == b) && (c == d)) ≡ true → (a ≡ b) × (c ≡ d)
    both {a} {b} {c} {d} e = ground arith

years_long : (k : ℕ) → k * 365 ≤ days_of_years k
unfolding days_of_years
years_long zero = omega arith
years_long (suc k) = omega (arith, years_long k, year_parts (1970 + k))

pub day_number_closed :
    (k m d : ℕ) (leap : Bool)
    → leap ≡ is_leap (1970 + k)
    → m ≤ 11
    → day_number leap (1970 + k) m d ≡ days_of_years k + days_of_months leap m + d
unfolding day_number leap_days
day_number_closed k m d true e h =
    ground (arith, (months_closed true m h).0, days_of_years_closed k, years_long k)
day_number_closed k m d false e h =
    ground (arith, (months_closed false m h).0, days_of_years_closed k, years_long k)

pub leap_year : (y : ℕ) → expiry_in_leap_year (pos y) ≡ is_leap y
unfolding expiry_in_leap_year
leap_year y = ground arith
