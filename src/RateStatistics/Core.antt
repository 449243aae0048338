-- ===== src/RateStatistics/Core.antt =====
-- rate_statistics.h: what the buckets hold, as a list of samples, and one bucket less.
use native.Mathlib.Nat.{mod-eq_of_lt, mod_self, mod-eq-sub-mod}
use rtc_base.Common.{
  ℕ, ◌+◌, ◌-◌, ◌%◌, ◌≤◌, ◌<◌, ◌≡◌, inl, inr, refl, sym, ap, ◌∙◌, false, List, [], ◌∷◌, arith,
  length, length-set, get_or, set, leb-cases, dec_lt, Option, none, some,
}
use rtc_base.Common.Int.{ℤ, pos, ◌-ℤ◌}
use rtc_base.Common.Ring.{get_or-set_here, get_or-set_elsewhere, apart, from_mod}
use rtc_base.RateStatistics.State.{empty_bucket, Rates, no_time, next_index, erase_one}
use rtc_base.RateStatistics.Log.{
  Sample, total, keep_from, sum_at, samples_at, bucket_at, Between, bucket_at_kept,
  bucket_at_outside, total_split, Between-kept, Between-wider,
}

-- The buckets hold the samples of the list, whose times lie in the window from `first` on.
pub record Core (first : ℕ) (s : Rates) (log : List Sample) : Type 0 where
  pub sized : length s.buckets ≡ s.max_window_size_ms
  pub index_within : s.oldest_index < s.max_window_size_ms
  pub some_width : 0 < s.current_window_size_ms
  pub width_fits : s.current_window_size_ms ≤ s.max_window_size_ms
  pub counted : s.accumulated_count ≡ pos (total log)
  pub numbered : s.num_samples ≡ length log
  pub between : Between first (first + s.max_window_size_ms) log
  pub placed :
      (i : ℕ)
      → i < s.max_window_size_ms
      → get_or s.buckets ((s.oldest_index + i) % s.max_window_size_ms) empty_bucket
        ≡ bucket_at (first + i) log
  pub no_overflow : s.overflow ≡ false

pub next_index_lem : (w i : ℕ) → i < w → (next_index w i ≡ (i + 1) % w) × (next_index w i < w)
unfolding next_index
next_index_lem w i h = elim (leb-cases w (i + 1)) [
  | inl (at_end, yes_end) ↦
      rw yes_end (sym (ap (λ n. n % w) (omega arith) ∙ mod_self w), omega arith)
  | inr (before, no_end) ↦ rw no_end (sym (mod-eq_of_lt before), before)
]

taken_off : (a b c : ℕ) → a ≡ b + c → pos a -ℤ pos b ≡ pos c
unfolding ◌-ℤ◌
taken_off a b c e = ground arith

module _ {first : ℕ} {s : Rates} {log : List Sample} (v : Core first s log) where
  oldest : get_or s.buckets s.oldest_index empty_bucket ≡ bucket_at first log
  oldest =
      ap (λ n. get_or s.buckets n empty_bucket)
        (sym (mod-eq_of_lt v.index_within) ∙ ap (λ n. n % s.max_window_size_ms) zero_more)
      ∙ v.placed 0 (omega (arith, v.index_within))
      ∙ ap (λ n. bucket_at n log) (omega arith)
    where
      zero_more : s.oldest_index ≡ s.oldest_index + 0
      zero_more = omega arith

  further : (i : ℕ) → s.oldest_index + (i + 1) ≡ s.oldest_index + 1 + i
  further i = omega arith

  round_lem :
      (i : ℕ)
      → i < s.max_window_size_ms
      → ¬ (i + 1 < s.max_window_size_ms)
      → (s.oldest_index + 1 + i) % s.max_window_size_ms ≡ s.oldest_index
  round_lem i h last =
      mod-eq-sub-mod {n = s.oldest_index + 1 + i} {m = s.max_window_size_ms} (omega arith)
      ∙ ap (λ n. n % s.max_window_size_ms) around
      ∙ mod-eq_of_lt v.index_within
    where
      around : s.oldest_index + 1 + i - s.max_window_size_ms ≡ s.oldest_index
      around = omega (arith, last)

  -- The places after the oldest one keep their buckets, and the oldest one, now empty, is the last.
  moved :
      (i : ℕ)
      → i < s.max_window_size_ms
      → get_or
          (set s.buckets s.oldest_index empty_bucket)
          ((next_index s.max_window_size_ms s.oldest_index + i) % s.max_window_size_ms)
          empty_bucket
        ≡ bucket_at (first + 1 + i) (keep_from (first + 1) log)
  moved i h =
      ap (λ n. get_or (set s.buckets s.oldest_index empty_bucket) n empty_bucket)
        (from_mod s.max_window_size_ms (s.oldest_index + 1) i
          (next_index_lem s.max_window_size_ms s.oldest_index v.index_within).0)
      ∙ elim (dec_lt (i + 1) s.max_window_size_ms) [
        | yes inside ↦
            get_or-set_elsewhere s.buckets s.oldest_index
              ((s.oldest_index + 1 + i) % s.max_window_size_ms) empty_bucket empty_bucket
              (λ same. apart s.max_window_size_ms s.oldest_index (i + 1) (omega arith) inside (
                ap (λ n. n % s.max_window_size_ms) (further i)
                ∙ sym same
                ∙ sym (mod-eq_of_lt v.index_within)))
            ∙ ap (λ n. get_or s.buckets (n % s.max_window_size_ms) empty_bucket) (sym (further i))
            ∙ v.placed (i + 1) inside
            ∙ ap (λ n. bucket_at n log) (omega arith)
        | no last ↦
            ap (λ n. get_or (set s.buckets s.oldest_index empty_bucket) n empty_bucket)
              (round_lem i h last)
            ∙ get_or-set_here s.buckets s.oldest_index empty_bucket empty_bucket
                (rw v.sized v.index_within)
            ∙ sym (
                bucket_at_outside (first + 1 + i) first (first + s.max_window_size_ms) log v.between
                  (omega (arith, last)))
      ]
      ∙ sym (bucket_at_kept (first + 1 + i) (first + 1) log (omega arith))

  pub erase_one-Core : Core (first + 1) (erase_one s) (keep_from (first + 1) log)
  unfolding erase_one
  erase_one-Core = record {
    sized = length-set s.buckets s.oldest_index empty_bucket ∙ v.sized;
    index_within = (next_index_lem s.max_window_size_ms s.oldest_index v.index_within).1;
    some_width = v.some_width;
    width_fits = v.width_fits;
    counted =
        rw (v.counted, oldest)
          (taken_off (total log) (sum_at first log) (total (keep_from (first + 1) log)) split.0);
    numbered = rw (v.numbered, oldest) (omega (arith, split.1));
    between =
        Between-wider (first + 1) (first + s.max_window_size_ms) (first + 1 + s.max_window_size_ms)
          (keep_from (first + 1) log) (omega arith)
          (Between-kept first (first + s.max_window_size_ms) (first + 1) log v.between);
    placed = moved;
    no_overflow = v.no_overflow;
  }
    where
      split :
          (total log ≡ sum_at first log + total (keep_from (first + 1) log))
          × (length log ≡ samples_at first log + length (keep_from (first + 1) log))
      split = total_split first (first + s.max_window_size_ms) log v.between

  -- Without a sample the window is at no place in particular.
  pub anywhere : (other : ℕ) → log ≡ [] → Core other s []
  anywhere other none_left = record {
    sized = v.sized;
    index_within = v.index_within;
    some_width = v.some_width;
    width_fits = v.width_fits;
    counted = v.counted ∙ ap (λ l. pos (total l)) none_left;
    numbered = v.numbered ∙ ap length none_left;
    between = tt;
    placed = λ i h. v.placed i h ∙ ap (bucket_at (first + i)) none_left;
    no_overflow = v.no_overflow;
  }

-- The oldest time is no part of it.
pub timeless :
    {t : ℤ} (first : ℕ) (s : Rates) (log : List Sample)
    → Core first s log
    → Core first (record s { oldest_time = t }) log
timeless first s log v = record {
  sized = v.sized;
  index_within = v.index_within;
  some_width = v.some_width;
  width_fits = v.width_fits;
  counted = v.counted;
  numbered = v.numbered;
  between = v.between;
  placed = v.placed;
  no_overflow = v.no_overflow;
}

module _ (s : Rates) where
  pub elsewhere :
      {a b : ℕ} (log log' : List Sample) → a ≡ b → log ≡ log' → Core a s log → Core b s log'
  elsewhere log log' same_place same_log v = rw (← same_place, ← same_log) v

pub no_samples : (log : List Sample) → length log ≡ 0 → log ≡ []
no_samples [] h = refl
no_samples (sample ∷ log) h = absurd (omega arith)

-- The place of the window, if there is one, and its samples.
pub record Window : Type 0 where
  pub first : Option ℕ
  pub log : List Sample
  pub width : ℕ

abbrev pub Begins : Rates → Option ℕ → List Sample → Type 0
Begins s none log = (s.oldest_time ≡ no_time s.max_window_size_ms) × (log ≡ []) × Core 0 s []
Begins s (some first) log = (s.oldest_time ≡ pos first) × Core first s log

pub record Holds (s : Rates) (w : Window) : Type 0 where
  pub begins : Begins s w.first w.log
  pub wide : s.current_window_size_ms ≡ w.width
