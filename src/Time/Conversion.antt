-- ===== src/Time/Conversion.antt =====
-- `TmToTime` as a whole: what it takes and what it returns.
use native.Mathlib.Nat.{add-zero}
use rtc_base.Common.{
  ℕ, ◌+◌, ◌-◌, ◌*◌, ◌≤◌, ◌≡◌, refl, sym, ap, ◌∙◌, Bool, true, false, ◌&&◌, ◌||◌, ◌==◌,
  if◌then◌else◌, get_or, arith, Bool-cases, inl, inr, ◌⊎◌,
}
use rtc_base.Common.Int.{
  ℤ, pos, negsuc, pos_part, ◌+ℤ◌, ◌-ℤ◌, ◌≤ℤ◌, ltb_ℤ, leb_ℤ, eqb_ℤ, +ℤ_parts, -ℤ_parts,
}
use rtc_base.Time.{Tm, mdays, expiry_in_leap_year, one_if, day_number, millis_of, tm_to_time}
use rtc_base.Time.Calendar.{
  is_leap, month_length, days_of_years, days_of_months, months_closed, day_number_closed, leap_year,
}

-- A number from one bound to another.
abbrev pub Between : ℤ → ℤ → ℤ → Type 0
Between lo hi z = (lo ≤ℤ z) × (z ≤ℤ hi)

-- A time of the calendar, from 1970 on, without leap seconds.
pub record IsTime (tm : Tm) : Type 0 where
  pub year_in : pos 70 ≤ℤ tm.tm_year
  pub month_in : Between (pos 0) (pos 11) tm.tm_mon
  pub day_in :
      Between
        (pos 1)
        (pos (month_length (is_leap (pos_part tm.tm_year + 1900)) (pos_part tm.tm_mon)))
        tm.tm_mday
  pub hour_in : Between (pos 0) (pos 23) tm.tm_hour
  pub min_in : Between (pos 0) (pos 59) tm.tm_min
  pub sec_in : Between (pos 0) (pos 59) tm.tm_sec

-- The days before a date, as the calendar counts them.
abbrev pub days_before : Tm → ℕ
days_before tm =
    days_of_years (pos_part tm.tm_year - 70)
    + days_of_months (is_leap (pos_part tm.tm_year + 1900)) (pos_part tm.tm_mon)
    + (pos_part tm.tm_mday - 1)

abbrev pub millis_before : Tm → ℕ
millis_before tm =
    days_before tm * 86400000
    + pos_part tm.tm_hour * 3600000
    + pos_part tm.tm_min * 60000
    + pos_part tm.tm_sec * 1000

-- A result that is `ok` exactly for what is allowed.
abbrev Exact : Type 0 → ℤ → ℤ → Type 0
Exact T ok r = (T → r ≡ ok) × (¬ T → r ≡ negsuc 0)

-- A test with what it tests.
abbrev Refuses : Type 0 → Bool → Type 0
Refuses C test = ((test ≡ false) × C) ⊎ ((test ≡ true) × (¬ C))

gate :
    {T C : Type 0} {ok rest : ℤ} {test : Bool}
    → Refuses C test
    → (T → C)
    → (C → Exact T ok rest)
    → Exact T ok (if test then negsuc 0 else rest)
gate (inl (e, c)) needs next = rw e (next c)
gate (inr (e, out)) needs next = rw e (λ t. absurd (out (needs t)), λ _. refl)

range_test : (lo hi z : ℤ) → Refuses (Between lo hi z) (ltb_ℤ z lo || ltb_ℤ hi z)
range_test lo hi z = elim (Bool-cases (ltb_ℤ z lo || ltb_ℤ hi z)) [
  | inl e ↦ inr (e, λ h. ground (arith, h))
  | inr e ↦ inl (e, (ground arith, ground arith))
]

year_test : (y : ℤ) → Refuses (pos 70 ≤ℤ y) (ltb_ℤ (y +ℤ pos 1900) (pos 1970))
year_test y = elim (Bool-cases (ltb_ℤ (y +ℤ pos 1900) (pos 1970))) [
  | inl e ↦ inr (e, λ h. ground (arith, h, +ℤ_parts y (pos 1900)))
  | inr e ↦ inl (e, ground (arith, +ℤ_parts y (pos 1900)))
]

day_test :
    (leap leap' : Bool) (mon mday : ℤ)
    → leap ≡ leap'
    → Between (pos 0) (pos 11) mon
    → Refuses (Between (pos 1) (pos (month_length leap' (pos_part mon))) mday) (
        ltb_ℤ (mday -ℤ pos 1) (pos 0)
        || leb_ℤ
            (pos (get_or mdays (pos_part mon) 0 + one_if (leap && eqb_ℤ mon (pos 1))))
            (mday -ℤ pos 1))
day_test leap leap' (negsuc m) mday e h = absurd (omega arith)
day_test leap leap' (pos m) mday e h =
    rw e (
      rw february (rw (← (months_closed leap' m (omega arith)).1) (against (month_length leap' m))))
  where
    february : (m + 0 == 1) ≡ (m == 1)
    february = ap (λ n. n == 1) (add-zero m)

    against :
        (long : ℕ)
        → Refuses
            (Between (pos 1) (pos long) mday)
            (ltb_ℤ (mday -ℤ pos 1) (pos 0) || leb_ℤ (pos long) (mday -ℤ pos 1))
    against long =
        elim (Bool-cases (ltb_ℤ (mday -ℤ pos 1) (pos 0) || leb_ℤ (pos long) (mday -ℤ pos 1))) [
          | inl e ↦ inr (e, λ h. ground (arith, h, -ℤ_parts mday (pos 1)))
          | inr e ↦
              inl
                (e, (ground (arith, -ℤ_parts mday (pos 1)), ground (arith, -ℤ_parts mday (pos 1))))
        ]

year_number : (y : ℤ) → pos 70 ≤ℤ y → y +ℤ pos 1900 ≡ pos (1970 + (pos_part y - 70))
unfolding ◌+ℤ◌
year_number (pos n) h = ground arith
year_number (negsuc n) h = absurd (omega arith)

day_index : (d : ℤ) → pos 1 ≤ℤ d → d -ℤ pos 1 ≡ pos (pos_part d - 1)
unfolding ◌-ℤ◌
day_index (pos n) h = ground arith
day_index (negsuc n) h = absurd (omega arith)

module _ (tm : Tm) where
  open tm use {tm_year, tm_mon, tm_mday, tm_hour, tm_min, tm_sec}

  same_year : pos 70 ≤ℤ tm_year → 1970 + (pos_part tm_year - 70) ≡ pos_part tm_year + 1900
  same_year h = late tm_year h
    where
      late : (y : ℤ) → pos 70 ≤ℤ y → 1970 + (pos_part y - 70) ≡ pos_part y + 1900
      late (pos n) h = omega arith
      late (negsuc n) h = absurd (omega arith)

  leap_of :
      pos 70 ≤ℤ tm_year
      → expiry_in_leap_year (tm_year +ℤ pos 1900) ≡ is_leap (pos_part tm_year + 1900)
  leap_of h =
      ap expiry_in_leap_year (year_number tm_year h)
      ∙ leap_year (1970 + (pos_part tm_year - 70))
      ∙ ap is_leap (same_year h)

  days_counted :
      (t : IsTime tm)
      → day_number
          (expiry_in_leap_year (tm_year +ℤ pos 1900))
          (pos_part (tm_year +ℤ pos 1900))
          (pos_part tm_mon)
          (pos_part (tm_mday -ℤ pos 1))
        ≡ days_before tm
  days_counted t = rw (leap_of t.year_in) (
      rw (year_number tm_year t.year_in, day_index tm_mday t.day_in.0)
        (day_number_closed (pos_part tm_year - 70) (pos_part tm_mon) (pos_part tm_mday - 1)
          (is_leap (pos_part tm_year + 1900)) (sym (ap is_leap (same_year t.year_in)))
          (low tm_mon t.month_in)))
    where
      low : (m : ℤ) → Between (pos 0) (pos 11) m → pos_part m ≤ 11
      low (pos n) h = omega arith
      low (negsuc n) h = omega arith

  counted :
      (t : IsTime tm)
      → millis_of
          (day_number
            (expiry_in_leap_year (tm_year +ℤ pos 1900))
            (pos_part (tm_year +ℤ pos 1900))
            (pos_part tm_mon)
            (pos_part (tm_mday -ℤ pos 1)))
          (pos_part tm_hour)
          (pos_part tm_min)
          (pos_part tm_sec)
        ≡ millis_before tm
  unfolding millis_of
  counted t = rw (days_counted t) (omega arith)

  -- `TmToTime` of a time of the calendar is the milliseconds since 1970 that the calendar counts, and of any other
  -- -1.
  pub tm_to_time-calendar :
      (IsTime tm → tm_to_time tm ≡ pos (millis_before tm))
      × (¬ IsTime tm → tm_to_time tm ≡ negsuc 0)
  unfolding tm_to_time
  tm_to_time-calendar =
      gate (year_test tm_year) (λ t. t.year_in)
        λ year_in.
          gate (range_test (pos 0) (pos 11) tm_mon) (λ t. t.month_in)
            λ month_in.
              gate (day_test _ _ tm_mon tm_mday (leap_of year_in) month_in) (λ t. t.day_in)
                λ day_in.
                  gate (range_test (pos 0) (pos 23) tm_hour) (λ t. t.hour_in)
                    λ hour_in.
                      gate (range_test (pos 0) (pos 59) tm_min) (λ t. t.min_in)
                        λ min_in.
                          gate (range_test (pos 0) (pos 59) tm_sec) (λ t. t.sec_in)
                            λ sec_in.
                              let t : IsTime tm = record {
                                year_in = year_in;
                                month_in = month_in;
                                day_in = day_in;
                                hour_in = hour_in;
                                min_in = min_in;
                                sec_in = sec_in;
                              } in
                              (λ _. ap pos (counted t), λ no. absurd (no t))
