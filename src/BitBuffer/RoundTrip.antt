-- ===== src/BitBuffer/RoundTrip.antt =====
-- bit_buffer.cc: what `ReadBits` reads after `WriteBits`.
use rtc_base.Common.{
  ℕ, ◌+◌, ◌%◌, ◌^◌, ◌≤◌, ◌<◌, ◌≡◌, ◌∙◌, ap, true, some, ◌++◌, append-nil, arith, length,
  length-append, length-take, take, drop, take-append, drop-append, ltb_above, ==_less,
}
use rtc_base.BitBuffer.Stream.{to_bits, value, stream, length-to_bits, length-stream, value-to_bits}
use rtc_base.BitBuffer.Reader.{Buffer, seek, read, read_bits}
use rtc_base.BitBuffer.Peek.{IsValid, bits_left, remaining-eq, length-bits_left}
use rtc_base.BitBuffer.Read.{position, bits_left-drop, read_bits_lem}
use rtc_base.BitBuffer.Writer.{write_bits}
use rtc_base.BitBuffer.Overwrite.{IsOverwritten, write_bits_lem}

abbrev moved_to : ℕ → ℕ → Buffer → Buffer
moved_to byte_offset bit_offset r = record r { byte_offset = byte_offset; bit_offset = bit_offset }

-- Within the buffer, `Seek` sets the position.
pub seek_within :
    (byte bit : ℕ) (r : Buffer)
    → byte < r.byte_count
    → bit < 8
    → seek byte bit r ≡ (true, moved_to byte bit r)
unfolding seek
seek_within byte bit r in_buffer in_byte = rw (
  ltb_above r.byte_count byte (omega arith),
  ltb_above 7 bit (omega arith),
  ==_less byte r.byte_count in_buffer,
)

module _ {r r' : Buffer} (n val : ℕ) (v : IsValid r) (some_bits : 0 < n)
    (fits : n ≤ length (bits_left r)) (w : IsOverwritten n val r r') where
  abbrev pub back : Buffer
  back = moved_to r.byte_offset r.bit_offset r'

  pub back-IsValid : IsValid back
  back-IsValid = record {
    all_bytes = w.valid.all_bytes;
    counted = w.valid.counted;
    small = w.valid.small;
    bit = v.bit;
    within = omega (arith, v.within, w.same_count);
  }

  pub bits_left-back : bits_left back ≡ to_bits n val ++ drop (position r + n) (stream r.bytes)
  bits_left-back =
      bits_left-drop back
      ∙ ap (drop (position r)) (w.bits)
      ∙ drop-append (take (position r) (stream r.bytes))
          (to_bits n val ++ drop (position r + n) (stream r.bytes)) (position r) 0
          (omega (
            arith,
            length-take (position r) (stream r.bytes),
            length-stream r.bytes,
            v.counted,
            v.within,
          ))

  written_bits : n ≤ length (bits_left back)
  written_bits = omega (
    arith,
    ap length bits_left-back,
    length-append (to_bits n val) (drop (position r + n) (stream r.bytes)),
    length-to_bits n val,
  )

  value-back : value 0 (take n (bits_left back)) ≡ val % 2 ^ n
  value-back =
      rw
        (
          bits_left-back,
          take-append (to_bits n val) (drop (position r + n) (stream r.bytes)) n 0
              (omega (arith, length-to_bits n val)),
          append-nil (to_bits n val),
          value-to_bits n 0 val,
        )
        (omega arith)

  pub seek-back : seek r.byte_offset r.bit_offset r' ≡ (true, back)
  seek-back =
      seek_within r.byte_offset r.bit_offset r'
        (omega (arith, w.same_count, remaining-eq v, length-bits_left v, fits, some_bits)) v.bit

  read-back : n ≤ 32 → (read_bits n (seek r.byte_offset r.bit_offset r').1).0 ≡ read (val % 2 ^ n)
  read-back word =
      rw (seek-back, (read_bits_lem n back-IsValid some_bits word written_bits).0, value-back)

-- A write of 1 to 32 bits into the room that is left succeeds, and after a `Seek` back to where it began a
-- read of as many bits gives the low bits of the value.
pub write_bits-read_bits :
    {r : Buffer} (n val : ℕ)
    → IsValid r
    → 0 < n
    → n ≤ 32
    → n ≤ length (bits_left r)
    → (r' : Buffer) × (write_bits val n r ≡ some (true, r'))
      × ((seek r.byte_offset r.bit_offset r').0 ≡ true)
      × ((read_bits n (seek r.byte_offset r.bit_offset r').1).0 ≡ read (val % 2 ^ n))
write_bits-read_bits {r} n val v some_bits word fits =
    let (r', done, w) = write_bits_lem n val v some_bits (omega arith) fits in
    (
      r',
      done,
      ap (λ x. x.0) (seek-back n val v some_bits fits w),
      read-back n val v some_bits fits w word,
    )
