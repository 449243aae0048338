-- ===== src/RateStatistics/Samples.antt =====
-- rate_statistics.cc: `Update` against the samples in the window.
use rtc_base.Common.{
  ℕ, ◌+◌, ◌-◌, ◌*◌, ◌^◌, ◌≤◌, ◌<◌, ◌≡◌, inl, inr, refl, sym, ◌∙◌, Bool, false, List, [], ◌∷◌, arith,
  ltb, ltb-cases, Bool-cases, max, Option, none, some, if◌then◌else◌,
}
use rtc_base.Common.Int.{ℤ, pos, ◌-ℤ◌, ltb_ℤ}
use rtc_base.RateStatistics.State.{
  Rates, no_time, is_initialized, erase_old, max_int64, add_count, add_to_bucket, start_window,
  add_sample, update,
}
use rtc_base.RateStatistics.Log.{Sample, total, keep_from}
use rtc_base.RateStatistics.Core.{Core, anywhere, timeless, Window, Begins, Holds}
use rtc_base.RateStatistics.Erase.{
  first_after, not_started, started, erase_old-Begins, erase_old-SameSize,
}
use rtc_base.RateStatistics.Add.{add_sample-Core}

-- What `Update` means to the samples in the window. A sample from before the window is ignored.
abbrev pub too_old : ℕ → Option ℕ → Bool
too_old now none = false
too_old now (some first) = ltb now first

abbrev pub first_or : ℕ → Option ℕ → Option ℕ
first_or now none = some now
first_or now (some first) = some first

abbrev pub record_sample : ℕ → ℕ → Window → Window
record_sample count now w = if too_old now w.first then w else record {
  first = first_or now (first_after now w.width w.first);
  log = (now, count) ∷ keep_from (now + 1 - w.width) w.log;
  width = w.width;
}

add_sample_keeps :
    (count : ℕ) (now : ℤ) (s : Rates)
    → ((add_sample count now s).current_window_size_ms ≡ s.current_window_size_ms)
      × ((add_sample count now s).oldest_time ≡ s.oldest_time)
unfolding add_sample add_count add_to_bucket
add_sample_keeps count now s =
    elim (Bool-cases (ltb_ℤ (pos count) (pos max_int64 -ℤ s.accumulated_count))) [
      | inl fits ↦ rw fits (refl, refl)
      | inr over ↦ rw over (refl, refl)
    ]

sample_started :
    (count now first : ℕ) (s : Rates) (log : List Sample)
    → s.oldest_time ≡ pos first
    → Core first s log
    → first ≤ now
    → now < first + s.max_window_size_ms
    → 2 * s.max_window_size_ms ≤ 2 ^ 32
    → total log + count < max_int64
    → Begins
        (add_sample count (pos now) (start_window (pos now) s))
        (some first)
        ((now, count) ∷ log)
unfolding start_window
sample_started count now first s log time v low high fits room =
    rw (started s first (omega (arith, v.index_within)) time) (
      (add_sample_keeps count (pos now) s).1 ∙ time,
      add_sample-Core v count now low high time fits room,
    )

sample_first :
    (count now : ℕ) (s : Rates)
    → s.oldest_time ≡ no_time s.max_window_size_ms
    → Core 0 s []
    → 2 * s.max_window_size_ms ≤ 2 ^ 32
    → count < max_int64
    → Begins (add_sample count (pos now) (start_window (pos now) s)) (some now) ((now, count) ∷ [])
unfolding start_window
sample_first count now s time v fits room =
    let s' = record s { oldest_time = pos now } in
    let v' = timeless now s [] (anywhere v now refl) in
    rw (not_started s time) (
      (add_sample_keeps count (pos now) s').1,
      add_sample-Core v' count now (omega arith) (omega (arith, v.index_within)) refl fits
          (omega arith),
    )

before_start : (now window : ℕ) (t : ℤ) → t ≡ no_time window → ltb_ℤ (pos now) t ≡ false
before_start now window t e = rw e (ground arith)

is_before : (now first : ℕ) (t : ℤ) → t ≡ pos first → ltb_ℤ (pos now) t ≡ ltb now first
is_before now first t e = rw e (ground arith)

update-Begins :
    (count now : ℕ) (s : Rates) (first : Option ℕ) (log : List Sample)
    → 2 * s.max_window_size_ms ≤ 2 ^ 32
    → total (keep_from (now + 1 - s.current_window_size_ms) log) + count < max_int64
    → Begins s first log
    → let w =
        record_sample count now
          (record { first = first; log = log; width = s.current_window_size_ms }) in
      Begins (update count (pos now) s) w.first w.log
unfolding update erase_old
update-Begins count now s none log fits room (time, none_left, v) =
    rw (before_start now s.max_window_size_ms s.oldest_time time, not_started s time, none_left)
      (sample_first count now s time v fits (omega arith))
update-Begins count now s (some first) log fits room (time, v) = elim (ltb-cases now first) [
  | inl (before, yes_before) ↦ rw (is_before now first s.oldest_time time, yes_before) (time, v)
  | inr (after, no_before) ↦
      let (time', v') = erase_old-Begins now s (some first) log (time, v) in
      let same : (erase_old (pos now) s).max_window_size_ms ≡ s.max_window_size_ms =
        (erase_old-SameSize (pos now) s).1 in
      rw (is_before now first s.oldest_time time, no_before)
        (sample_started count now (max first (now + 1 - s.current_window_size_ms))
          (erase_old (pos now) s) _ time' v' (omega (arith, v.some_width))
          (omega (arith, same, v.width_fits, v.some_width)) (omega (arith, same)) room)
]

update_width :
    (count : ℕ) (now : ℤ) (s : Rates)
    → (update count now s).current_window_size_ms ≡ s.current_window_size_ms
unfolding update start_window
update_width count now s = elim (Bool-cases (ltb_ℤ now s.oldest_time)) [
  | inl before ↦ rw before refl
  | inr after ↦ elim (Bool-cases (is_initialized (erase_old now s))) [
    | inl sample ↦
        rw (after, sample)
          ((add_sample_keeps count now (erase_old now s)).0 ∙ (erase_old-SameSize now s).0)
    | inr no_sample ↦
        rw (after, no_sample)
          ((add_sample_keeps count now (record (erase_old now s) { oldest_time = now })).0
            ∙ (erase_old-SameSize now s).0)
  ]
]

record_sample_width : (count now : ℕ) (w : Window) → (record_sample count now w).width ≡ w.width
record_sample_width count now w = elim (Bool-cases (too_old now w.first)) [
  | inl old ↦ rw old refl
  | inr new ↦ rw new refl
]

-- `Update` at a time of a clock that is never negative keeps the buckets in step with the samples: they
-- hold those that are not older than the window, and the new one, or what they held if the new one is
-- older than the window. It needs a window of at most 2 ^ 31 buckets and a sum that stays below the
-- greatest int64_t.
pub update-Holds :
    (count now : ℕ) (s : Rates) (w : Window)
    → 2 * s.max_window_size_ms ≤ 2 ^ 32
    → total (keep_from (now + 1 - w.width) w.log) + count < max_int64
    → Holds s w
    → Holds (update count (pos now) s) (record_sample count now w)
update-Holds count now s w fits room v = record {
  begins = rw (← v.wide) (update-Begins count now s w.first w.log fits (rw v.wide room) v.begins);
  wide = update_width count (pos now) s ∙ v.wide ∙ sym (record_sample_width count now w);
}
