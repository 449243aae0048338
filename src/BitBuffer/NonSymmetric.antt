-- ===== src/BitBuffer/NonSymmetric.antt =====
-- bit_buffer.cc: the non-symmetric codes. A shift of a uint32_t by 32 bits is undefined: a fault, or none.
use rtc_base.Common.{ℕ, ◌+◌, ◌-◌, ◌*◌, ◌^◌, Bool, Option, none, some, ltb, leb, if◌then◌else◌}
use rtc_base.BitBuffer.Byte.{count_bits}
use rtc_base.BitBuffer.Reader.{Buffer, Answer, refused, read, fault, read_bits, u32, u64}
use rtc_base.BitBuffer.Writer.{write_bits}

-- `num_min_bits_values`
unfoldable pub min_bits_values : ℕ → ℕ
min_bits_values num_values = u32 (2 ^ count_bits num_values + 2 ^ 32 - num_values)

-- `count_bits - 1` on a size_t
unfoldable pub short_bits : ℕ → ℕ
short_bits num_values = u64 (count_bits num_values + 2 ^ 64 - 1)

-- `*val = (*val << 1) + extra_bit - num_min_bits_values`
unfoldable pub with_extra_bit : ℕ → ℕ → Answer × Buffer → Answer × Buffer
with_extra_bit min_values val (read extra_bit, r) =
    (read (u32 (val * 2 + extra_bit + 2 ^ 32 - min_values)), r)
with_extra_bit min_values val (refused, r) = (refused, r)
with_extra_bit min_values val (fault, r) = (fault, r)

unfoldable pub after_short : ℕ → Answer × Buffer → Answer × Buffer
after_short min_values (read val, r) =
    if ltb val min_values then (read val, r) else with_extra_bit min_values val (read_bits 1 r)
after_short min_values (refused, r) = (refused, r)
after_short min_values (fault, r) = (fault, r)

unfoldable pub read_non_symmetric : ℕ → Buffer → Answer × Buffer
read_non_symmetric num_values r =
    if leb 32 (count_bits num_values)
    then (fault, r)
    else after_short (min_bits_values num_values) (read_bits (short_bits num_values) r)

unfoldable pub write_non_symmetric : ℕ → ℕ → Buffer → Option (Bool × Buffer)
write_non_symmetric val num_values r =
    if leb 32 (count_bits num_values)
    then none
    else if ltb val (min_bits_values num_values)
    then write_bits val (short_bits num_values) r
    else write_bits (u32 (val + min_bits_values num_values)) (count_bits num_values) r

unfoldable pub size_non_symmetric_bits : ℕ → ℕ → Option ℕ
size_non_symmetric_bits val num_values =
    if leb 32 (count_bits num_values)
    then none
    else if ltb val (min_bits_values num_values)
    then some (short_bits num_values)
    else some (count_bits num_values)
