-- ===== src/RateStatistics/Add.antt =====
-- rate_statistics.cc: `Update` adds a sample to the buckets.
use native.Mathlib.Nat.{mod-eq_of_lt, mod-lt, mod-eq-sub-mod}
use rtc_base.Common.{
  ℕ, ◌+◌, ◌-◌, ◌*◌, ◌%◌, ◌^◌, ◌≤◌, ◌<◌, ◌≡◌, inl, inr, refl, sym, ap, ap₂, ◌∙◌, true, List, ◌∷◌,
  arith, length-set, get_or, leb-cases, ==_iff, ℕ_discrete,
}
use rtc_base.Common.Int.{difference, to_uint32-pos, ℤ, pos, ◌-ℤ◌, ◌+ℤ◌, ltb_ℤ}
use rtc_base.Common.Ring.{get_or-set_here, get_or-set_elsewhere, places_differ}
use rtc_base.RateStatistics.State.{
  Bucket, empty_bucket, Rates, now_index, max_int64, add_count, add_to_bucket, add_sample,
}
use rtc_base.RateStatistics.Log.{Sample, total, sum_at, samples_at, bucket_at, skip_at}
use rtc_base.RateStatistics.Core.{Core}

-- The index that `Update` computes is that of the sample's time on the ring.
now_index_lem :
    (now first : ℕ) (s : Rates)
    → s.oldest_time ≡ pos first
    → s.oldest_index < s.max_window_size_ms
    → first ≤ now
    → now < first + s.max_window_size_ms
    → 2 * s.max_window_size_ms ≤ 2 ^ 32
    → now_index (pos now) s ≡ (s.oldest_index + (now - first)) % s.max_window_size_ms
unfolding now_index
now_index_lem now first s time within low high fits =
    rw
      (
        difference now first s.oldest_time low time,
        to_uint32-pos (now - first) (omega arith),
        mod-eq_of_lt {n = s.oldest_index + (now - first)} {m = 2 ^ 32} (omega arith),
      )
      (elim (leb-cases s.max_window_size_ms (s.oldest_index + (now - first))) [
        | inl (past, yes_past) ↦
            rw yes_past (sym (mod-eq-sub-mod past ∙ mod-eq_of_lt (omega arith)))
        | inr (before, no_past) ↦ rw no_past (sym (mod-eq_of_lt before))
      ])

add_count_lem :
    (count : ℕ) (s : Rates) (log : List Sample)
    → s.accumulated_count ≡ pos (total log)
    → total log + count < max_int64
    → add_count count s ≡ record s { accumulated_count = s.accumulated_count +ℤ pos count }
unfolding add_count
add_count_lem count s log counted room = rw (fits s.accumulated_count counted) refl
  where
    within : (n m : ℕ) → n < m → ltb_ℤ (pos n) (pos m) ≡ true
    within n m less = ground arith

    fits : (a : ℤ) → a ≡ pos (total log) → ltb_ℤ (pos count) (pos max_int64 -ℤ a) ≡ true
    fits a e =
        rw (difference max_int64 (total log) a (omega arith) e)
          (within count (max_int64 - total log) (omega arith))

one_more : (a : ℤ) (t count : ℕ) → a ≡ pos t → a +ℤ pos count ≡ pos (count + t)
unfolding ◌+ℤ◌
one_more a t count e = rw e (ground arith)

added_to :
    (t count : ℕ) (log : List Sample)
    → record { sum = sum_at t log + count; samples = samples_at t log + 1 }
      ≡ bucket_at t ((t, count) ∷ log)
added_to t count log =
    rw ((==_iff t t).1 refl)
      (ap₂ (λ a b. record { sum = a; samples = b }) (omega arith) (omega arith))

module _ {first : ℕ} {s : Rates} {log : List Sample} (v : Core first s log) (count now : ℕ)
    (low : first ≤ now) (high : now < first + s.max_window_size_ms) where
  here :
      get_or s.buckets ((s.oldest_index + (now - first)) % s.max_window_size_ms) empty_bucket
      ≡ bucket_at now log
  here = v.placed (now - first) (omega arith) ∙ ap (λ t. bucket_at t log) (omega arith)

  abbrev with_count : Bucket → Bucket
  with_count b = record { sum = b.sum + count; samples = b.samples + 1 }

  in_place :
      (i : ℕ)
      → i < s.max_window_size_ms
      → get_or
          (add_to_bucket ((s.oldest_index + (now - first)) % s.max_window_size_ms) count s).buckets
          ((s.oldest_index + i) % s.max_window_size_ms)
          empty_bucket
        ≡ bucket_at (first + i) ((now, count) ∷ log)
  unfolding add_to_bucket
  in_place i h = elim (ℕ_discrete (now - first) i) [
    | yes same ↦
        ap
          (λ n.
            get_or (add_to_bucket place count s).buckets
              ((s.oldest_index + n) % s.max_window_size_ms) empty_bucket)
          (sym same)
        ∙ get_or-set_here s.buckets place _ empty_bucket
            (rw v.sized (mod-lt (s.oldest_index + (now - first)) (omega arith)))
        ∙ ap with_count here
        ∙ added_to now count log
        ∙ ap (λ t. bucket_at t ((now, count) ∷ log)) (omega (arith, same))
    | no other ↦
        get_or-set_elsewhere s.buckets ((s.oldest_index + (now - first)) % s.max_window_size_ms)
          ((s.oldest_index + i) % s.max_window_size_ms) _ empty_bucket
          (places_differ s.max_window_size_ms s.oldest_index (now - first) i (omega arith) h other)
        ∙ v.placed i h
        ∙ sym (skip_at (first + i) now count log (omega (arith, other)))
  ]
    where
      place : ℕ
      place = (s.oldest_index + (now - first)) % s.max_window_size_ms

  pub add_sample-Core :
      s.oldest_time ≡ pos first
      → 2 * s.max_window_size_ms ≤ 2 ^ 32
      → total log + count < max_int64
      → Core first (add_sample count (pos now) s) ((now, count) ∷ log)
  unfolding add_sample add_to_bucket
  add_sample-Core time fits room =
      rw
        (
          now_index_lem now first s time v.index_within low high fits,
          add_count_lem count
              (add_to_bucket ((s.oldest_index + (now - first)) % s.max_window_size_ms) count s) log
              v.counted room,
        )
        record {
          sized = length-set s.buckets _ _ ∙ v.sized;
          index_within = v.index_within;
          some_width = v.some_width;
          width_fits = v.width_fits;
          counted = one_more s.accumulated_count (total log) count v.counted;
          numbered = omega (arith, v.numbered);
          between = (low, high, v.between);
          placed = in_place;
          no_overflow = v.no_overflow;
        }
