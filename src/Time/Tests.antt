-- ===== src/Time/Tests.antt =====
-- Runs of the time functions.
use rtc_base.Common.{◌≡◌, refl}
use rtc_base.Common.Int.{pos, negsuc, ◌+ℤ◌, ◌-ℤ◌}
use rtc_base.Time.{Tm, tm_to_time}
use rtc_base.Time.Conversion.{IsTime, millis_before, tm_to_time-calendar}

-- 2024-02-29 12:30:05
abbrev leap_day : Tm
leap_day = record {
  tm_year = pos 124;
  tm_mon = pos 1;
  tm_mday = pos 29;
  tm_hour = pos 12;
  tm_min = pos 30;
  tm_sec = pos 5;
}

leap_day_millis : tm_to_time leap_day ≡ pos 1709209805000
unfolding tm_to_time ◌+ℤ◌ ◌-ℤ◌
leap_day_millis = refl

tm_to_time-calendar_example :
    (IsTime leap_day → tm_to_time leap_day ≡ pos (millis_before leap_day))
    × (¬ IsTime leap_day → tm_to_time leap_day ≡ negsuc 0)
tm_to_time-calendar_example = tm_to_time-calendar leap_day
