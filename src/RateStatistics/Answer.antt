-- ===== src/RateStatistics/Answer.antt =====
-- rate_statistics.cc: `Rate` against the samples in the window.
use native.Mathlib.Nat.{mod-eq_of_lt}
use rtc_base.Common.{
  ℕ, ◌+◌, ◌-◌, ◌^◌, ◌≤◌, ◌<◌, ◌≡◌, inl, inr, refl, ap, ◌∙◌, Bool, false, not, ◌&&◌, ◌||◌, List,
  arith, length, ltb_above, leb, ltb, ◌==◌, ltb-cases, Bool-cases, max, Option, none, some,
  if◌then◌else◌,
}
use rtc_base.Common.Int.{ℤ, pos, ◌-ℤ◌, ◌+ℤ◌, ltb_ℤ, leb_ℤ, to_int32}
use rtc_base.RateStatistics.State.{Rates, erase_old, Floats, quotient, rate_now, rate}
use rtc_base.RateStatistics.Log.{Sample, total}
use rtc_base.RateStatistics.Core.{Core, Window, Begins, Holds}
use rtc_base.RateStatistics.Erase.{slide, first_after, erase_old-Holds}
use rtc_base.RateStatistics.Samples.{too_old}

-- What the list says of the rate: it is known if there is a sample, the window is longer than a
-- millisecond, and either there is another sample or the window has its full length.
abbrev pub known : ℕ → ℕ → ℕ → Bool
known samples active width =
    not ((samples == 0) || leb active 1 || (leb samples 1 && ltb active width))

abbrev pub active_size : ℕ → Option ℕ → ℕ
active_size now none = 0
active_size now (some first) = now + 1 - first

abbrev pub rate_of : Floats → ℕ → Window → Option ℤ
rate_of floats now w =
    if known (length w.log) (active_size now w.first) w.width
    then quotient floats (pos (total w.log)) (pos (active_size now w.first))
    else none

active_size_lem :
    (now first : ℕ) (t : ℤ)
    → t ≡ pos first
    → first ≤ now
    → pos now -ℤ t +ℤ pos 1 ≡ pos (now + 1 - first)
unfolding ◌-ℤ◌ ◌+ℤ◌
active_size_lem now first t e after = rw e (ground arith)

to_int32-pos : (n : ℕ) → n < 2 ^ 31 → to_int32 (pos n) ≡ pos n
unfolding to_int32
to_int32-pos n small = rw (mod-eq_of_lt {n = n} {m = 2 ^ 32} (omega arith)) (ground arith)

unknown :
    (n a w : ℕ)
    → ((n == 0) || leb_ℤ (pos a) (pos 1) || (leb n 1 && ltb_ℤ (pos a) (pos w)) || false)
      ≡ not (known n a w)
unknown n a w = ground arith

rate_now-rate_of :
    (floats : Floats) (now first : ℕ) (s : Rates) (log : List Sample)
    → s.oldest_time ≡ pos first
    → Core first s log
    → first ≤ now
    → now + 1 - first < 2 ^ 31
    → rate_now floats (pos now) s
      ≡ rate_of floats now
          (record { first = some first; log = log; width = s.current_window_size_ms })
unfolding rate_now
rate_now-rate_of floats now first s log time v after small =
    rw
      (
        active_size_lem now first s.oldest_time time after,
        to_int32-pos (now + 1 - first) small,
        v.numbered,
        v.counted,
        v.no_overflow,
        unknown (length log) (now + 1 - first) s.current_window_size_ms,
      )
      (elim (Bool-cases (known (length log) (now + 1 - first) s.current_window_size_ms)) [
        | inl yes_known ↦ rw yes_known refl
        | inr no_known ↦ rw no_known refl
      ])

rate_now-none :
    (floats : Floats) (now : ℤ) (s : Rates) → s.num_samples ≡ 0 → rate_now floats now s ≡ none
unfolding rate_now
rate_now-none floats now s e = rw e refl

rate_now_slid :
    (floats : Floats) (now : ℕ) (s : Rates) (first : Option ℕ) (log : List Sample)
    → Begins s first log
    → too_old now first ≡ false
    → active_size now first < 2 ^ 31
    → rate_now floats (pos now) s
      ≡ rate_of floats now (record { first = first; log = log; width = s.current_window_size_ms })
rate_now_slid floats now s none log (time, none_left, v) not_old small =
    rw none_left (rate_now-none floats (pos now) s v.numbered)
rate_now_slid floats now s (some first) log (time, v) not_old small =
    rate_now-rate_of floats now first s log time v
      (elim (ltb-cases now first) [
        | inl (before, yes_before) ↦ absurd (ground arith)
        | inr (after, no_before) ↦ after
      ])
      small

slid_active :
    (now : ℕ) (s : Rates) (first : Option ℕ) (log : List Sample)
    → Begins s first log
    → too_old now first ≡ false
    → s.max_window_size_ms < 2 ^ 31
    → (too_old now (first_after now s.current_window_size_ms first) ≡ false)
      × (active_size now (first_after now s.current_window_size_ms first) < 2 ^ 31)
slid_active now s none log b not_old small = (refl, omega arith)
slid_active now s (some first) log (time, v) not_old small =
    let some_width = v.some_width in
    let width_fits = v.width_fits in
    elim (ltb-cases now first) [
      | inl (before, yes_before) ↦ absurd (ground arith)
      | inr (after, no_before) ↦ (
        ltb_above now (max first (now + 1 - s.current_window_size_ms)) (omega arith),
        omega arith,
      )
    ]

-- `Rate` answers what the list of samples says, with the window moved on to the time of the call, for a
-- clock that does not go back before the window and a window of less than 2 ^ 31 milliseconds.
pub rate-rate_of :
    (floats : Floats) (now : ℕ) (s : Rates) (w : Window)
    → Holds s w
    → too_old now w.first ≡ false
    → s.max_window_size_ms < 2 ^ 31
    → ((rate floats (pos now) s).0 ≡ rate_of floats now (slide now w))
      × Holds (rate floats (pos now) s).1 (slide now w)
unfolding rate
rate-rate_of floats now s w v not_old small =
    let slid = erase_old-Holds now s w v in
    let (not_older, active) = slid_active now s w.first w.log v.begins not_old small in
    (
      rate_now_slid floats now (erase_old (pos now) s) (slide now w).first (slide now w).log
            slid.begins (rw (← v.wide) not_older) (rw (← v.wide) active)
          ∙ ap (λ n. rate_of floats now (record (slide now w) { width = n })) slid.wide,
      slid,
    )
