-- ===== src/RateStatistics/State.antt =====
-- rate_statistics.cc: the members of `RateStatistics` and its operations. Times and the accumulated
-- count are integers without the bounds of int64_t, where the test for an overflow is the code's; the
-- other counts, of which none is negative, are numbers.
use rtc_base.Common.{
  ℕ, zero, suc, ◌+◌, ◌-◌, ◌%◌, ◌^◌, Bool, true, false, not, ◌&&◌, ◌||◌, Option, none, some, List,
  replicate, get_or, set, leb, ◌==◌, if◌then◌else◌,
}
use rtc_base.Common.Int.{
  ℤ, pos, pos_part, sub_ℕ, ◌+ℤ◌, ◌-ℤ◌, ltb_ℤ, leb_ℤ, eqb_ℤ, to_int32, to_uint32,
}

pub record Bucket : Type 0 where
  pub sum : ℕ
  pub samples : ℕ

abbrev pub empty_bucket : Bucket
empty_bucket = record { sum = 0; samples = 0 }

pub record Rates : Type 0 where
  pub buckets : List Bucket
  pub accumulated_count : ℤ
  pub overflow : Bool
  pub num_samples : ℕ
  pub oldest_time : ℤ
  pub oldest_index : ℕ
  pub max_window_size_ms : ℕ
  pub current_window_size_ms : ℕ

-- -max_window_size_ms_, the mark of an object without samples
abbrev pub no_time : ℕ → ℤ
no_time window = sub_ℕ 0 window

unfoldable pub rate_statistics : ℕ → Rates
rate_statistics window_size_ms = record {
  buckets = replicate window_size_ms empty_bucket;
  accumulated_count = pos 0;
  overflow = false;
  num_samples = 0;
  oldest_time = no_time window_size_ms;
  oldest_index = 0;
  max_window_size_ms = window_size_ms;
  current_window_size_ms = window_size_ms;
}

unfoldable pub clear_buckets : ℕ → List Bucket → List Bucket
clear_buckets zero buckets = buckets
clear_buckets (suc i) buckets = set (clear_buckets i buckets) i empty_bucket

unfoldable pub reset : Rates → Rates
reset s = record s {
  accumulated_count = pos 0;
  overflow = false;
  num_samples = 0;
  oldest_time = no_time s.max_window_size_ms;
  oldest_index = 0;
  current_window_size_ms = s.max_window_size_ms;
  buckets = clear_buckets s.max_window_size_ms s.buckets;
}

unfoldable pub is_initialized : Rates → Bool
is_initialized s = not (eqb_ℤ s.oldest_time (no_time s.max_window_size_ms))

-- `if (++oldest_index_ >= max_window_size_ms_) oldest_index_ = 0;`
unfoldable pub next_index : ℕ → ℕ → ℕ
next_index window index = if leb window (index + 1) then 0 else index + 1

-- The body of EraseOld's loop
unfoldable pub erase_one : Rates → Rates
erase_one s =
    let oldest_bucket = get_or s.buckets s.oldest_index empty_bucket in
    record s {
      accumulated_count = s.accumulated_count -ℤ pos oldest_bucket.sum;
      num_samples = s.num_samples - oldest_bucket.samples;
      buckets = set s.buckets s.oldest_index empty_bucket;
      oldest_index = next_index s.max_window_size_ms s.oldest_index;
      oldest_time = s.oldest_time +ℤ pos 1;
    }

unfoldable pub erase_loop : ℕ → ℤ → Rates → Rates
erase_loop zero new_oldest_time s = s
erase_loop (suc fuel) new_oldest_time s =
    let rest = erase_loop fuel new_oldest_time (erase_one s) in
    if not (s.num_samples == 0) && ltb_ℤ s.oldest_time new_oldest_time then rest else s

-- Each round of the loop adds one to the oldest time, so that the distance is enough fuel.
unfoldable pub erase_until : ℤ → Rates → Rates
erase_until new_oldest_time s =
    if leb_ℤ new_oldest_time s.oldest_time
    then s
    else record (erase_loop (pos_part (new_oldest_time -ℤ s.oldest_time)) new_oldest_time s) {
      oldest_time = new_oldest_time;
    }

unfoldable pub erase_old : ℤ → Rates → Rates
erase_old now_ms s =
    if is_initialized s then erase_until (now_ms -ℤ pos s.current_window_size_ms +ℤ pos 1) s else s

abbrev pub max_int64 : ℕ
max_int64 = 2 ^ 63 - 1

unfoldable pub now_index : ℤ → Rates → ℕ
now_index now_ms s =
    let now_offset = to_uint32 (now_ms -ℤ s.oldest_time) in
    let index = (s.oldest_index + now_offset) % 2 ^ 32 in
    if leb s.max_window_size_ms index then index - s.max_window_size_ms else index

unfoldable pub add_count : ℕ → Rates → Rates
add_count count s =
    if ltb_ℤ (pos count) (pos max_int64 -ℤ s.accumulated_count)
    then record s { accumulated_count = s.accumulated_count +ℤ pos count }
    else record s { overflow = true }

unfoldable pub add_to_bucket : ℕ → ℕ → Rates → Rates
add_to_bucket index count s =
    let bucket = get_or s.buckets index empty_bucket in
    record s {
      buckets =
          set s.buckets index (record { sum = bucket.sum + count; samples = bucket.samples + 1 });
    }

unfoldable pub start_window : ℤ → Rates → Rates
start_window now_ms s = if is_initialized s then s else record s { oldest_time = now_ms }

unfoldable pub add_sample : ℕ → ℤ → Rates → Rates
add_sample count now_ms s =
    let added = add_count count (add_to_bucket (now_index now_ms s) count s) in
    record added { num_samples = added.num_samples + 1 }

unfoldable pub update : ℕ → ℤ → Rates → Rates
update count now_ms s =
    if ltb_ℤ now_ms s.oldest_time
    then s
    else add_sample count now_ms (start_window now_ms (erase_old now_ms s))

unfoldable pub set_window_size : ℤ → ℤ → Rates → Bool × Rates
set_window_size window_size_ms now_ms s =
    if leb_ℤ window_size_ms (pos 0) || ltb_ℤ (pos s.max_window_size_ms) window_size_ms
    then (false, s)
    else (true, erase_old now_ms (record s { current_window_size_ms = pos_part window_size_ms }))

-- The numbers of type float and what `Rate` does with them: `static_cast<float>(scale_) / size`,
-- `count * scale + 0.5f`, the comparison with the greatest int64_t, and the cast.
pub record Floats : Type 1 where
  pub F : Type 0
  pub divided : ℤ → F
  pub rounded : ℤ → F → F
  pub too_large : F → Bool
  pub cast : F → ℤ

module _ (floats : Floats) where
  unfoldable pub quotient : ℤ → ℤ → Option ℤ
  quotient accumulated_count active_window_size =
      let result = floats.rounded accumulated_count (floats.divided active_window_size) in
      if floats.too_large result then none else some (floats.cast result)

  unfoldable pub rate_now : ℤ → Rates → Option ℤ
  rate_now now_ms s =
      let active_window_size = to_int32 (now_ms -ℤ s.oldest_time +ℤ pos 1) in
      if (s.num_samples == 0)
        || leb_ℤ active_window_size (pos 1)
        || (leb s.num_samples 1 && ltb_ℤ active_window_size (pos s.current_window_size_ms))
        || s.overflow
      then none
      else quotient s.accumulated_count active_window_size

  -- `Rate` is const, with a cast that lets it move the window.
  unfoldable pub rate : ℤ → Rates → Option ℤ × Rates
  rate now_ms s = let erased = erase_old now_ms s in (rate_now now_ms erased, erased)
