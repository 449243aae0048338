-- ===== src/RateStatistics/Tests.antt =====
-- Runs of `RateStatistics` with a window of four milliseconds.
use rtc_base.Common.{◌*◌, ◌/◌, ◌≡◌, refl, arith, [], ◌∷◌, some}
use rtc_base.Common.Int.{to_uint32, ℤ, pos, pos_part, ltb_ℤ, ◌-ℤ◌}
use rtc_base.RateStatistics.State.{
  Rates, Floats, rate_statistics, update, rate, max_int64, add_sample, add_count, add_to_bucket,
  start_window, erase_old, is_initialized, now_index, quotient,
}
use rtc_base.RateStatistics.Core.{Holds}
use rtc_base.RateStatistics.Erase.{slide}
use rtc_base.RateStatistics.Samples.{record_sample, update-Holds}
use rtc_base.RateStatistics.Resize.{empty_window, rate_statistics-Holds}
use rtc_base.RateStatistics.Answer.{rate_of, rate-rate_of}

-- Whole numbers in place of floats.
abbrev whole : Floats
whole = record {
  F = ℤ;
  divided = λ size. pos (8000 / pos_part size);
  rounded = λ count scale. pos (pos_part count * pos_part scale);
  too_large = λ result. ltb_ℤ (pos max_int64) result;
  cast = λ result. result;
}

new : Holds (rate_statistics 4) (empty_window 4)
new = rate_statistics-Holds 4 (omega arith)

one_sample : Holds (update 5 (pos 10) (rate_statistics 4)) (record_sample 5 10 (empty_window 4))
unfolding rate_statistics
one_sample = update-Holds 5 10 (rate_statistics 4) (empty_window 4) (omega arith) (omega arith) new

four : (update 5 (pos 10) (rate_statistics 4)).max_window_size_ms ≡ 4
unfolding update add_sample add_count add_to_bucket start_window erase_old is_initialized now_index
    to_uint32 rate_statistics ◌-ℤ◌
four = refl

abbrev used : Rates
used = record (rate_statistics 2) {
  buckets = record { sum = 3; samples = 1 } ∷ record { sum = 4; samples = 2 } ∷ [];
  accumulated_count = pos 7;
  num_samples = 3;
  oldest_time = pos 20;
  oldest_index = 1;
  max_window_size_ms = 2;
}

-- A second sample two milliseconds later, and a third that pushes the first out.
update-Holds_example :
    Holds
      (update 7 (pos 14) (update 5 (pos 10) (rate_statistics 4)))
      (record_sample 7 14 (record_sample 5 10 (empty_window 4)))
unfolding rate_statistics
update-Holds_example =
    update-Holds 7 14 (update 5 (pos 10) (rate_statistics 4)) (record_sample 5 10 (empty_window 4))
      (rw four (omega arith)) (omega arith) one_sample

third_in : (record_sample 7 14 (record_sample 5 10 (empty_window 4))).log ≡ (14, 7) ∷ []
third_in = refl

rate-rate_of_example :
    ((rate whole (pos 13) (update 5 (pos 10) (rate_statistics 4))).0
      ≡ rate_of whole 13 (slide 13 (record_sample 5 10 (empty_window 4))))
    × Holds
        (rate whole (pos 13) (update 5 (pos 10) (rate_statistics 4))).1
        (slide 13 (record_sample 5 10 (empty_window 4)))
rate-rate_of_example =
    rate-rate_of whole 13 (update 5 (pos 10) (rate_statistics 4))
      (record_sample 5 10 (empty_window 4)) one_sample refl (rw four (omega arith))

-- One sample of 5 in four milliseconds, in thousands per second.
answered : rate_of whole 13 (slide 13 (record_sample 5 10 (empty_window 4))) ≡ some (pos 10000)
unfolding quotient
answered = refl
