-- ===== src/BitBuffer/Golomb.antt =====
-- bit_buffer.cc: the exponential Golomb codes.
use rtc_base.Common.{
  ℕ, zero, suc, ◌+◌, ◌-◌, ◌*◌, ◌^◌, Bool, false, Option, none, some, ltb, ◌==◌, if◌then◌else◌,
}
use rtc_base.BitBuffer.Byte.{count_bits}
use rtc_base.BitBuffer.Reader.{
  Buffer, remaining_bit_count, Answer, refused, read, fault, peek_bits, consume_bits, read_bits,
  seek, u32,
}
use rtc_base.BitBuffer.Writer.{write_bits}

-- The condition of the loop over leading zeros, what the loop gives after one more, and what it
-- gives here.
unfoldable pub while_zero : Answer → Option (ℕ × Buffer) → ℕ × Buffer → Option (ℕ × Buffer)
while_zero (read peeked_bit) more here = if peeked_bit == 0 then more else some here
while_zero refused more here = some here
while_zero fault more here = none

-- The loop of `ReadExponentialGolomb`; each round consumes a bit.
unfoldable pub leading_zeros : ℕ → ℕ → Buffer → Option (ℕ × Buffer)
leading_zeros zero zero_bit_count r = none
leading_zeros (suc fuel) zero_bit_count r =
    let more = leading_zeros fuel (zero_bit_count + 1) (consume_bits 1 r).1 in
    while_zero (peek_bits 1 r) more (zero_bit_count, r)

-- `RTC_CHECK(Seek(original_byte_offset, original_bit_offset)); return false`
unfoldable pub restore : Buffer → Buffer → Answer × Buffer
restore original r =
    let (found, r') = seek original.byte_offset original.bit_offset r in
    (if found then refused else fault, r')

-- `*val -= 1` on a uint32_t
unfoldable pub decode : Buffer → Answer × Buffer → Answer × Buffer
decode original (read v, r) = (read (u32 (v + 2 ^ 32 - 1)), r)
decode original (refused, r) = restore original r
decode original (fault, r) = (fault, r)

unfoldable pub after_zeros : Buffer → Option (ℕ × Buffer) → Answer × Buffer
after_zeros original none = (fault, original)
after_zeros original (some (zero_bit_count, r)) =
    let value_bit_count = zero_bit_count + 1 in
    if ltb 32 value_bit_count
    then restore original r
    else decode original (read_bits value_bit_count r)

unfoldable pub read_exponential_golomb : Buffer → Answer × Buffer
read_exponential_golomb r = after_zeros r (leading_zeros (suc (remaining_bit_count r)) 0 r)

unfoldable pub write_exponential_golomb : ℕ → Buffer → Option (Bool × Buffer)
write_exponential_golomb val r =
    let val_to_encode = val + 1 in
    if val == 2 ^ 32 - 1
    then some (false, r)
    else write_bits val_to_encode (count_bits val_to_encode * 2 - 1) r
