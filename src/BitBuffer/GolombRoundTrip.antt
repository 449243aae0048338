-- ===== src/BitBuffer/GolombRoundTrip.antt =====
-- bit_buffer.cc: `ReadExponentialGolomb` after `WriteExponentialGolomb`.
use rtc_base.Common.{
  ℕ, suc, ◌+◌, ◌-◌, ◌*◌, ◌^◌, ◌≤◌, ◌<◌, ◌≡◌, ◌∙◌, ap, true, ==_less, some, arith, length, drop,
}
use native.Mathlib.Nat.{pow-suc}
use rtc_base.BitBuffer.Byte.{count_bits}
use rtc_base.BitBuffer.Stream.{value, stream}
use rtc_base.BitBuffer.Reader.{Buffer, read, seek}
use rtc_base.BitBuffer.Peek.{IsValid, bits_left}
use rtc_base.BitBuffer.Read.{position}
use rtc_base.BitBuffer.Overwrite.{write_bits_lem}
use rtc_base.BitBuffer.RoundTrip.{back-IsValid, bits_left-back, seek-back}
use rtc_base.BitBuffer.Golomb.{read_exponential_golomb, write_exponential_golomb}
use rtc_base.BitBuffer.Writer.{write_bits}
use rtc_base.BitBuffer.Width.{IsWidth, width}
use rtc_base.BitBuffer.Decode.{read_exponential_golomb_lem}

encoded :
    (val n : ℕ) (r : Buffer)
    → val + 1 < 2 ^ 32
    → count_bits (val + 1) * 2 - 1 ≡ n
    → write_exponential_golomb val r ≡ write_bits (val + 1) n r
unfolding write_exponential_golomb
encoded val n r word size = rw (==_less val (2 ^ 32 - 1) (omega arith), size)

-- With `z` zeros in front.
round_trip :
    {r : Buffer} (val z : ℕ)
    → IsValid r
    → IsWidth (suc z) (val + 1)
    → z < 32
    → z + suc z ≤ length (bits_left r)
    → (r' : Buffer) × (write_bits (val + 1) (z + suc z) r ≡ some (true, r'))
      × ((seek r.byte_offset r.bit_offset r').0 ≡ true)
      × ((read_exponential_golomb (seek r.byte_offset r.bit_offset r').1).0 ≡ read val)
round_trip {r} val z v w short room =
    let (r', done, o) = write_bits_lem (z + suc z) (val + 1) v (omega arith) (omega arith) room in
    let found = seek-back (z + suc z) (val + 1) v (omega arith) room o in
    let decoded =
      read_exponential_golomb_lem z (val + 1) w.above (omega (arith, w.below, pow-suc 2 z))
        (drop (position r + (z + suc z)) (stream r.bytes))
        (back-IsValid (z + suc z) (val + 1) v (omega arith) room o) short
        (bits_left-back (z + suc z) (val + 1) v (omega arith) room o) in
    (r', done, ap (λ p. p.0) found, rw found (decoded.0 ∙ ap read (omega arith)))

-- `WriteExponentialGolomb` of any number but UINT32_MAX, into enough room, succeeds, and after a `Seek` back
-- `ReadExponentialGolomb` gives that number.
pub write_exponential_golomb-read :
    {r : Buffer} (val : ℕ)
    → IsValid r
    → val + 1 < 2 ^ 32
    → count_bits (val + 1) * 2 - 1 ≤ length (bits_left r)
    → (r' : Buffer) × (write_exponential_golomb val r ≡ some (true, r'))
      × ((seek r.byte_offset r.bit_offset r').0 ≡ true)
      × ((read_exponential_golomb (seek r.byte_offset r.bit_offset r').1).0 ≡ read val)
write_exponential_golomb-read {r} val v word fits =
    let (z, e, w, short) = width (val + 1) (omega arith) word in
    let size : count_bits (val + 1) * 2 - 1 ≡ z + suc z = omega (arith, e) in
    let (r', done, found, value) = round_trip val z v w short (omega (arith, fits, size)) in
    (r', encoded val (z + suc z) r word size ∙ done, found, value)
