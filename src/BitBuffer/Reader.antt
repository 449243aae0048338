-- ===== src/BitBuffer/Reader.antt =====
-- bit_buffer.cc: `BitBuffer`. Pointers for results are not null, so a function returns what it writes
-- through them; a read outside the buffer is a fault.
use rtc_base.Common.{
  ℕ, ◌+◌, ◌-◌, ◌*◌, ◌/◌, ◌%◌, ◌^◌, Bool, true, false, ◌&&◌, ◌||◌, List, [], ◌∷◌, ltb, leb, ◌==◌,
  if◌then◌else◌, drop,
}
use Prim.Native.Nat.{bit_or}
use rtc_base.BitBuffer.Byte.{lowest_bits, highest_bits}

-- The byte buffer belongs to the caller; `BitBufferWriter` writes to the same bytes.
pub record Buffer : Type 0 where
  pub bytes : List ℕ
  pub byte_count : ℕ
  pub byte_offset : ℕ
  pub bit_offset : ℕ

unfoldable pub new_buffer : List ℕ → ℕ → Buffer
new_buffer bytes byte_count = record {
  bytes = bytes;
  byte_count = byte_count;
  byte_offset = 0;
  bit_offset = 0;
}

abbrev pub u64 : ℕ → ℕ
u64 n = n % 2 ^ 64

abbrev pub u32 : ℕ → ℕ
u32 n = n % 2 ^ 32

-- uint64_t arithmetic
unfoldable pub remaining_bit_count : Buffer → ℕ
remaining_bit_count r =
    u64 (u64 (u64 (r.byte_count + 2 ^ 64 - r.byte_offset) * 8) + 2 ^ 64 - r.bit_offset)

-- What a read answers: false, the value, or no answer, after an access outside the buffer.
pub data Answer : Type 0 where
  refused : Answer
  read : ℕ → Answer
  fault : Answer

-- The loop of `PeekBits` over whole bytes, and the step after it. `bits` is a uint32_t.
unfoldable pub peek_rest : List ℕ → ℕ → ℕ → Answer
peek_rest [] bit_count bits = if bit_count == 0 then read bits else fault
peek_rest (b ∷ bs) bit_count bits =
    let more = peek_rest bs (bit_count - 8) (bit_or (u32 (bits * 2 ^ 8)) b) in
    if leb 8 bit_count
    then more
    else if ltb 0 bit_count
    then read (bit_or (u32 (bits * 2 ^ bit_count)) (highest_bits b bit_count))
    else read bits

-- `PeekBits` from its current byte on.
unfoldable pub peek_from : List ℕ → ℕ → ℕ → Answer
peek_from [] bit_offset bit_count = fault
peek_from (b ∷ bs) bit_offset bit_count =
    let bits = lowest_bits b (8 - bit_offset) in
    if ltb bit_count (8 - bit_offset)
    then read (highest_bits bits (bit_offset + bit_count))
    else peek_rest bs (bit_count - (8 - bit_offset)) bits

unfoldable pub peek_bits : ℕ → Buffer → Answer
peek_bits bit_count r =
    if ltb (remaining_bit_count r) bit_count || ltb 32 bit_count
    then refused
    else peek_from (drop r.byte_offset r.bytes) r.bit_offset bit_count

unfoldable pub consume_bits : ℕ → Buffer → Bool × Buffer
consume_bits bit_count r = if ltb (remaining_bit_count r) bit_count then (false, r) else (
  true,
  record r {
    byte_offset = r.byte_offset + (r.bit_offset + bit_count) / 8;
    bit_offset = (r.bit_offset + bit_count) % 8;
  },
)

-- The number of bits is a size_t.
unfoldable pub consume_bytes : ℕ → Buffer → Bool × Buffer
consume_bytes byte_count r = consume_bits (u64 (byte_count * 8)) r

-- `PeekBits(val, bit_count) && ConsumeBits(bit_count)`
unfoldable pub then_consume : Answer → ℕ → Buffer → Answer × Buffer
then_consume (read v) bit_count r =
    let (done, r') = consume_bits bit_count r in (if done then read v else refused, r')
then_consume refused bit_count r = (refused, r)
then_consume fault bit_count r = (fault, r)

unfoldable pub read_bits : ℕ → Buffer → Answer × Buffer
read_bits bit_count r = then_consume (peek_bits bit_count r) bit_count r

-- `ReadUInt8`, `ReadUInt16`, `ReadUInt32`; the narrowing casts.
unfoldable pub narrow : ℕ → Answer × Buffer → Answer × Buffer
narrow width (read v, r) = (read (v % 2 ^ width), r)
narrow width (refused, r) = (refused, r)
narrow width (fault, r) = (fault, r)

unfoldable pub read_uint8 : Buffer → Answer × Buffer
read_uint8 r = narrow 8 (read_bits 8 r)

unfoldable pub read_uint16 : Buffer → Answer × Buffer
read_uint16 r = narrow 16 (read_bits 16 r)

unfoldable pub read_uint32 : Buffer → Answer × Buffer
read_uint32 r = read_bits 32 r

unfoldable pub seek : ℕ → ℕ → Buffer → Bool × Buffer
seek byte_offset bit_offset r =
    if ltb r.byte_count byte_offset
      || ltb 7 bit_offset
      || (byte_offset == r.byte_count && ltb 0 bit_offset)
    then (false, r)
    else (true, record r { byte_offset = byte_offset; bit_offset = bit_offset })

abbrev pub get_current_offset : Buffer → ℕ × ℕ
get_current_offset r = (r.byte_offset, r.bit_offset)
