-- ===== src/BitBuffer/Writer.antt =====
-- bit_buffer.cc: `BitBufferWriter`.
-- A result of none stands for behaviour that C++ leaves undefined: a write outside the array, or a
-- shift of a uint64_t by 64 bits or more (`bit_count` 0, or above 64).
use rtc_base.Common.{
  ℕ, ◌-◌, ◌*◌, ◌^◌, min, Bool, false, ◌||◌, Option, none, some, List, [], ◌∷◌, ◌++◌, ltb, leb, ◌==◌,
  if◌then◌else◌, take, drop,
}
use rtc_base.BitBuffer.Byte.{highest_byte, write_partial_byte}
use rtc_base.BitBuffer.Reader.{Buffer, remaining_bit_count, consume_bits, u64}

unfoldable pub with_byte : ℕ → Option (List ℕ) → Option (List ℕ)
with_byte b none = none
with_byte b (some bs) = some (b ∷ bs)

-- The loop of `WriteBits` over whole bytes, and the last byte.
unfoldable pub write_rest : List ℕ → ℕ → ℕ → Option (List ℕ)
write_rest [] val bit_count = if bit_count == 0 then some [] else none
write_rest (b ∷ bs) val bit_count =
    let rest = write_rest bs (u64 (val * 2 ^ 8)) (bit_count - 8) in
    if leb 8 bit_count
    then with_byte (highest_byte val) rest
    else if ltb 0 bit_count
    then some (write_partial_byte (highest_byte val) bit_count b 0 ∷ bs)
    else some (b ∷ bs)

-- `WriteBits` from its current byte on.
unfoldable pub write_from : List ℕ → ℕ → ℕ → ℕ → Option (List ℕ)
write_from [] bit_offset val bit_count = none
write_from (b ∷ bs) bit_offset val bit_count =
    let bits_in_first_byte = min bit_count (8 - bit_offset) in
    let first = write_partial_byte (highest_byte val) bits_in_first_byte b bit_offset in
    if leb bit_count (8 - bit_offset)
    then some (first ∷ bs)
    else with_byte first
        (write_rest bs (u64 (val * 2 ^ bits_in_first_byte)) (bit_count - bits_in_first_byte))

-- The bytes written, then `return ConsumeBits(total_bits)`.
unfoldable pub written : ℕ → Buffer → Option (List ℕ) → Option (Bool × Buffer)
written total_bits r none = none
written total_bits r (some bs) =
    some (consume_bits total_bits (record r { bytes = take r.byte_offset r.bytes ++ bs }))

unfoldable pub write_bits : ℕ → ℕ → Buffer → Option (Bool × Buffer)
write_bits val bit_count r =
    if ltb (remaining_bit_count r) bit_count
    then some (false, r)
    else if bit_count == 0 || ltb 64 bit_count
    then none
    else written bit_count r (
        write_from (drop r.byte_offset r.bytes) r.bit_offset (u64 (val * 2 ^ (64 - bit_count)))
          bit_count)

unfoldable pub write_uint8 : ℕ → Buffer → Option (Bool × Buffer)
write_uint8 val r = write_bits val 8 r

unfoldable pub write_uint16 : ℕ → Buffer → Option (Bool × Buffer)
write_uint16 val r = write_bits val 16 r

unfoldable pub write_uint32 : ℕ → Buffer → Option (Bool × Buffer)
write_uint32 val r = write_bits val 32 r
