-- ===== src/RateStatistics/Erase.antt =====
-- rate_statistics.cc: `EraseOld` takes out of the buckets what the window leaves behind.
use rtc_base.Common.{
  ℕ, zero, suc, ◌+◌, ◌-◌, ◌≤◌, ◌<◌, ◌≡◌, inl, inr, refl, sym, ap, ◌∙◌, true, false, not, ◌&&◌, List,
  [], arith, ◌==◌, Bool-cases, ==_iff, dec_lt, max, Option, none, some,
}
use rtc_base.Common.Int.{ℤ, pos, pos_part, ◌-ℤ◌, ◌+ℤ◌, ltb_ℤ, leb_ℤ}
use rtc_base.RateStatistics.State.{
  Rates, no_time, is_initialized, erase_one, erase_loop, erase_until, erase_old,
}
use rtc_base.RateStatistics.Log.{Sample, keep_from, keep_from_all, keep_from_twice, Between-lower}
use rtc_base.RateStatistics.Core.{
  Core, erase_one-Core, anywhere, elsewhere, no_samples, timeless, Window, Begins, Holds,
}

one_later : (t : ℤ) (first : ℕ) → t ≡ pos first → t +ℤ pos 1 ≡ pos (first + 1)
unfolding ◌+ℤ◌
one_later t first e = rw e (ground arith)

erase_one_later :
    (s : Rates) (first : ℕ)
    → s.oldest_time ≡ pos first
    → (erase_one s).oldest_time ≡ pos (first + 1)
unfolding erase_one
erase_one_later s first time = one_later s.oldest_time first time

before_later :
    (t : ℤ) (first last k : ℕ) → t ≡ pos first → last ≡ first + suc k → ltb_ℤ t (pos last) ≡ true
before_later t first last k e far = rw e (ground arith)

-- The loop takes out what lies before the new time, of whatever length the way to it is: either it gets
-- there, or no sample is left.
erase_loop-Core :
    (k first last : ℕ) (s : Rates) (log : List Sample)
    → last ≡ first + k
    → s.oldest_time ≡ pos first
    → Core first s log
    → Core last (erase_loop k (pos last) s) (keep_from last log)
unfolding erase_loop
erase_loop-Core zero first last s log far time v =
    let here : last ≡ first = omega arith in
    elsewhere s log (keep_from last log) (sym here)
      (sym (
        ap (λ n. keep_from n log) here
        ∙ keep_from_all first (first + s.max_window_size_ms) log v.between))
      v
erase_loop-Core (suc k) first last s log far time v = elim (Bool-cases (s.num_samples == 0)) [
  | inl none_left ↦
      let none : log ≡ [] =
        no_samples log (sym v.numbered ∙ (==_iff s.num_samples 0).0 none_left) in
      rw (none_left, none) (anywhere v last none)
  | inr some_left ↦
      rw
        (
          some_left,
          before_later s.oldest_time first last k time far,
          ← keep_from_twice (first + 1) last log (omega arith),
        )
        (erase_loop-Core k (first + 1) last (erase_one s) (keep_from (first + 1) log) (omega arith)
          (erase_one_later s first time) (erase_one-Core v))
]

-- Neither length of the window changes.
abbrev pub SameSize : Rates → Rates → Type 0
SameSize s s' =
    (s'.current_window_size_ms ≡ s.current_window_size_ms)
    × (s'.max_window_size_ms ≡ s.max_window_size_ms)

erase_loop-SameSize : (k : ℕ) (last : ℤ) (s : Rates) → SameSize s (erase_loop k last s)
unfolding erase_loop erase_one
erase_loop-SameSize zero last s = (refl, refl)
erase_loop-SameSize (suc k) last s =
    elim (Bool-cases (not (s.num_samples == 0) && ltb_ℤ s.oldest_time last)) [
      | inl goes ↦ rw goes (erase_loop-SameSize k last (erase_one s))
      | inr stops ↦ rw stops (refl, refl)
    ]

pub erase_old-SameSize : (now : ℤ) (s : Rates) → SameSize s (erase_old now s)
unfolding erase_old erase_until
erase_old-SameSize now s =
    let new = now -ℤ pos s.current_window_size_ms +ℤ pos 1 in
    elim (Bool-cases (is_initialized s)) [
      | inr no_sample ↦ rw no_sample (refl, refl)
      | inl sample ↦ elim (Bool-cases (leb_ℤ new s.oldest_time)) [
        | inl before ↦ rw (sample, before) (refl, refl)
        | inr later ↦
            rw (sample, later) (erase_loop-SameSize (pos_part (new -ℤ s.oldest_time)) new s)
      ]
    ]

-- Samples that the time has left behind are gone, and so is the time before the window.
abbrev pub first_after : ℕ → ℕ → Option ℕ → Option ℕ
first_after now width none = none
first_after now width (some first) = some (max first (now + 1 - width))

abbrev pub slide : ℕ → Window → Window
slide now w = record {
  first = first_after now w.width w.first;
  log = keep_from (now + 1 - w.width) w.log;
  width = w.width;
}

pub not_started :
    (s : Rates) → s.oldest_time ≡ no_time s.max_window_size_ms → is_initialized s ≡ false
unfolding is_initialized
not_started s e = rw e (ground arith)

pub started :
    (s : Rates) (first : ℕ)
    → 0 < s.max_window_size_ms
    → s.oldest_time ≡ pos first
    → is_initialized s ≡ true
unfolding is_initialized
started s first some_room e = rw e (ground arith)

-- The new oldest time when it lies behind the current one, and when it does not.
new_oldest_later :
    (now width first : ℕ)
    → first < now + 1 - width
    → pos now -ℤ pos width +ℤ pos 1 ≡ pos (now + 1 - width)
unfolding ◌-ℤ◌ ◌+ℤ◌
new_oldest_later now width first h = ground arith

new_oldest_before :
    (now width first : ℕ) (t : ℤ)
    → now + 1 - width ≤ first
    → t ≡ pos first
    → leb_ℤ (pos now -ℤ pos width +ℤ pos 1) t ≡ true
unfolding ◌-ℤ◌ ◌+ℤ◌
new_oldest_before now width first t h e = rw e (ground arith)

way :
    (last first : ℕ) (t : ℤ)
    → first < last
    → t ≡ pos first
    → (leb_ℤ (pos last) t ≡ false) × (pos_part (pos last -ℤ t) ≡ last - first)
unfolding ◌-ℤ◌
way last first t h e = rw e (ground arith, ground arith)

erase_until-Core :
    (now width first : ℕ) (s : Rates) (log : List Sample)
    → s.oldest_time ≡ pos first
    → Core first s log
    → let r = erase_until (pos now -ℤ pos width +ℤ pos 1) s in
      (r.oldest_time ≡ pos (max first (now + 1 - width)))
      × Core (max first (now + 1 - width)) r (keep_from (now + 1 - width) log)
unfolding erase_until
erase_until-Core now width first s log time v = elim (dec_lt first (now + 1 - width)) [
  | yes later ↦
      let last : max first (now + 1 - width) ≡ now + 1 - width = omega arith in
      let (go, rounds) = way (now + 1 - width) first s.oldest_time later time in
      rw (last, new_oldest_later now width first later, go, rounds)
        (
          refl,
          timeless (now + 1 - width) _ _ (
              erase_loop-Core (now + 1 - width - first) first (now + 1 - width) s log (omega arith)
                time v),
        )
  | no before ↦
      let last : max first (now + 1 - width) ≡ first = omega (arith, before) in
      rw (last, new_oldest_before now width first s.oldest_time (omega (arith, before)) time)
        (
          time,
          rw
              (keep_from_all (now + 1 - width) (first + s.max_window_size_ms) log (
                Between-lower first (now + 1 - width) (first + s.max_window_size_ms) log
                  (omega (arith, before)) v.between))
              v,
        )
]

pub erase_old-Begins :
    (now : ℕ) (s : Rates) (first : Option ℕ) (log : List Sample)
    → Begins s first log
    → Begins
        (erase_old (pos now) s)
        (first_after now s.current_window_size_ms first)
        (keep_from (now + 1 - s.current_window_size_ms) log)
unfolding erase_old
erase_old-Begins now s none log (time, none_left, v) =
    rw (not_started s time) (time, ap (keep_from (now + 1 - s.current_window_size_ms)) none_left, v)
erase_old-Begins now s (some first) log (time, v) =
    rw (started s first (omega (arith, v.index_within)) time)
      (erase_until-Core now s.current_window_size_ms first s log time v)

pub erase_old-Holds :
    (now : ℕ) (s : Rates) (w : Window) → Holds s w → Holds (erase_old (pos now) s) (slide now w)
erase_old-Holds now s w v = record {
  begins = rw (← v.wide) (erase_old-Begins now s w.first w.log v.begins);
  wide = (erase_old-SameSize (pos now) s).0 ∙ v.wide;
}
