-- ===== src/RateStatistics/Resize.antt =====
-- rate_statistics.cc: the constructor, `Reset` and `SetWindowSize` against the samples in the window.
use rtc_base.Common.{
  ℕ, zero, suc, ◌+◌, ◌%◌, ◌≤◌, ◌<◌, ◌≡◌, ◌⊎◌, inl, inr, refl, ap, ◌∙◌, true, false, ◌||◌, List, [],
  ◌∷◌, arith, length, length-replicate, replicate, get_or, set, Bool-cases, Option, none, some,
}
use rtc_base.Common.Int.{ℤ, pos, negsuc, pos_part, ltb_ℤ, leb_ℤ}
use rtc_base.RateStatistics.State.{
  Bucket, empty_bucket, Rates, rate_statistics, clear_buckets, reset, set_window_size,
}
use rtc_base.RateStatistics.Log.{Sample}
use rtc_base.RateStatistics.Core.{Core, Window, Begins, Holds}
use rtc_base.RateStatistics.Erase.{slide, erase_old-Holds}

get_or-replicate : (n i : ℕ) → get_or (replicate n empty_bucket) i empty_bucket ≡ empty_bucket
get_or-replicate zero i = refl
get_or-replicate (suc n) zero = refl
get_or-replicate (suc n) (suc i) = get_or-replicate n i

abbrev pub empty_window : ℕ → Window
empty_window width = record { first = none; log = []; width = width }

-- A new object holds no sample.
pub rate_statistics-Holds :
    (window : ℕ) → 0 < window → Holds (rate_statistics window) (empty_window window)
unfolding rate_statistics
rate_statistics-Holds window some_room = record {
  begins = (
    refl,
    refl,
    record {
      sized = length-replicate window empty_bucket;
      index_within = some_room;
      some_width = some_room;
      width_fits = omega arith;
      counted = refl;
      numbered = refl;
      between = tt;
      placed = λ i h. get_or-replicate window ((0 + i) % window);
      no_overflow = refl;
    },
  );
  wide = refl;
}

clear_buckets_first :
    (n : ℕ) (b : Bucket) (buckets : List Bucket)
    → clear_buckets (suc n) (b ∷ buckets) ≡ empty_bucket ∷ clear_buckets n buckets
unfolding clear_buckets
clear_buckets_first zero b buckets = refl
clear_buckets_first (suc n) b buckets =
    ap (λ l. set l (suc n) empty_bucket) (clear_buckets_first n b buckets)

clear_buckets_lem :
    (buckets : List Bucket)
    → clear_buckets (length buckets) buckets ≡ replicate (length buckets) empty_bucket
unfolding clear_buckets
clear_buckets_lem [] = refl
clear_buckets_lem (b ∷ buckets) =
    clear_buckets_first (length buckets) b buckets
    ∙ ap (λ l. empty_bucket ∷ l) (clear_buckets_lem buckets)

-- `Reset` makes an object as the constructor does, with the window that it was made with.
pub reset-rate_statistics :
    (s : Rates)
    → length s.buckets ≡ s.max_window_size_ms
    → reset s ≡ rate_statistics s.max_window_size_ms
unfolding reset rate_statistics
reset-rate_statistics s sized =
    ap (λ b. record (rate_statistics s.max_window_size_ms) { buckets = b })
      (rw (← sized) (clear_buckets_lem s.buckets))

abbrev pub resize : ℕ → ℕ → Window → Window
resize width now w = slide now (record w { width = width })

Core-resized :
    (first width : ℕ) (s : Rates) (log : List Sample)
    → 0 < width
    → width ≤ s.max_window_size_ms
    → Core first s log
    → Core first (record s { current_window_size_ms = width }) log
Core-resized first width s log some_width fits v = record {
  sized = v.sized;
  index_within = v.index_within;
  some_width = some_width;
  width_fits = fits;
  counted = v.counted;
  numbered = v.numbered;
  between = v.between;
  placed = v.placed;
  no_overflow = v.no_overflow;
}

Begins-resized :
    (width : ℕ) (s : Rates) (first : Option ℕ) (log : List Sample)
    → 0 < width
    → width ≤ s.max_window_size_ms
    → Begins s first log
    → Begins (record s { current_window_size_ms = width }) first log
Begins-resized width s none log some_width fits (time, none_left, v) =
    (time, none_left, Core-resized 0 width s [] some_width fits v)
Begins-resized width s (some first) log some_width fits (time, v) =
    (time, Core-resized first width s log some_width fits v)

taken_size :
    (size : ℤ) (window : ℕ)
    → (leb_ℤ size (pos 0) || ltb_ℤ (pos window) size) ≡ false
    → (size ≡ pos (pos_part size)) × (0 < pos_part size) × (pos_part size ≤ window)
taken_size (pos n) window e = (refl, ground arith, ground arith)
taken_size (negsuc n) window e = absurd (ground arith)

-- `SetWindowSize` refuses a size that is not positive or above that of the constructor, and changes
-- nothing then; another one it takes, and drops the samples that are older than the new window.
pub set_window_size-Holds :
    (size : ℤ) (now : ℕ) (s : Rates) (w : Window)
    → Holds s w
    → ((leb_ℤ size (pos 0) || ltb_ℤ (pos s.max_window_size_ms) size) ≡ true)
        × (set_window_size size (pos now) s ≡ (false, s))
      ⊎ (width : ℕ) × (size ≡ pos width)
        × (0 < width)
        × (width ≤ s.max_window_size_ms)
        × ((set_window_size size (pos now) s).0 ≡ true)
        × Holds (set_window_size size (pos now) s).1 (resize width now w)
unfolding set_window_size
set_window_size-Holds size now s w v =
    elim (Bool-cases (leb_ℤ size (pos 0) || ltb_ℤ (pos s.max_window_size_ms) size)) [
      | inl refused ↦ inl (refused, rw refused refl)
      | inr taken ↦
          let (same, some_width, fits) = taken_size size s.max_window_size_ms taken in
          let resized : Holds (record s { current_window_size_ms = pos_part size })
              (record w { width = pos_part size }) =
            record {
              begins = Begins-resized (pos_part size) s w.first w.log some_width fits v.begins;
              wide = refl;
            } in
          inr (
            pos_part size,
            same,
            some_width,
            fits,
            rw taken refl,
            rw taken (
                erase_old-Holds now (record s { current_window_size_ms = pos_part size })
                  (record w { width = pos_part size }) resized),
          )
    ]
