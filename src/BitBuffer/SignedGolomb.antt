-- ===== src/BitBuffer/SignedGolomb.antt =====
-- bit_buffer.cc: the signed exponential Golomb codes. An int32_t is a ℤ in its range.
use rtc_base.Common.{
  ℕ, zero, suc, ◌+◌, ◌-◌, ◌*◌, ◌/◌, ◌%◌, ◌^◌, ◌≤◌, ◌<◌, ◌≡◌, refl, ◌∙◌, ap, Bool, true, false,
  Option, some, arith, ◌==◌, ==_less, if◌then◌else◌, length,
}
use rtc_base.Common.Int.{ℤ, pos, negsuc}
use rtc_base.BitBuffer.Byte.{count_bits}
use rtc_base.BitBuffer.Reader.{Buffer, Answer, refused, read, fault, seek, u32}
use rtc_base.BitBuffer.Peek.{IsValid, bits_left}
use rtc_base.BitBuffer.Golomb.{read_exponential_golomb, write_exponential_golomb}
use rtc_base.BitBuffer.GolombRoundTrip.{write_exponential_golomb-read}

unfoldable pub write_signed_exponential_golomb : ℤ → Buffer → Option (Bool × Buffer)
write_signed_exponential_golomb (pos zero) r = write_exponential_golomb 0 r
write_signed_exponential_golomb (pos (suc n)) r =
    write_exponential_golomb (u32 (u32 (suc n * 2) + 2 ^ 32 - 1)) r
write_signed_exponential_golomb (negsuc n) r =
    if n == 2 ^ 31 - 1 then some (false, r) else write_exponential_golomb (u32 (suc n * 2)) r

abbrev negated : ℕ → ℤ
negated zero = pos 0
negated (suc n) = negsuc n

unfoldable pub signed_value : ℕ → ℤ
signed_value unsigned_val =
    if unsigned_val % 2 == 0 then negated (unsigned_val / 2) else pos (u32 (unsigned_val + 1) / 2)

pub data SignedAnswer : Type 0 where
  signed_refused : SignedAnswer
  signed_read : ℤ → SignedAnswer
  signed_fault : SignedAnswer

unfoldable pub sign : Answer × Buffer → SignedAnswer × Buffer
sign (read v, r) = (signed_read (signed_value v), r)
sign (refused, r) = (signed_refused, r)
sign (fault, r) = (signed_fault, r)

unfoldable pub read_signed_exponential_golomb : Buffer → SignedAnswer × Buffer
read_signed_exponential_golomb r = sign (read_exponential_golomb r)

-- The place of a number in the sequence 0, 1, -1, 2, -2 and so on.
unfoldable pub place : ℤ → ℕ
place (pos zero) = 0
place (pos (suc n)) = 2 * n + 1
place (negsuc n) = 2 * n + 2

write-place :
    (val : ℤ) (r : Buffer)
    → place val + 1 < 2 ^ 32
    → write_signed_exponential_golomb val r ≡ write_exponential_golomb (place val) r
unfolding write_signed_exponential_golomb place
write-place (pos zero) r small = refl
write-place (pos (suc n)) r small =
    let code : u32 (u32 (suc n * 2) + 2 ^ 32 - 1) ≡ 2 * n + 1 = omega arith in rw code
write-place (negsuc n) r small =
    let code : u32 (suc n * 2) ≡ 2 * n + 2 = omega arith in
    rw (==_less n (2 ^ 31 - 1) (omega arith), code)

signed_value-place : (val : ℤ) → place val + 1 < 2 ^ 32 → signed_value (place val) ≡ val
unfolding signed_value place
signed_value-place (pos zero) small = refl
signed_value-place (pos (suc n)) small =
    let odd : (2 * n + 1) % 2 ≡ 1 = omega arith in
    let half : u32 (2 * n + 1 + 1) / 2 ≡ suc n = omega arith in rw (odd, half)
signed_value-place (negsuc n) small =
    let even : (2 * n + 2) % 2 ≡ 0 = omega arith in
    let half : (2 * n + 2) / 2 ≡ suc n = omega arith in rw (even, half)

sign-read : (p : Answer × Buffer) (v : ℕ) → p.0 ≡ read v → (sign p).0 ≡ signed_read (signed_value v)
unfolding sign
sign-read (a, r) v e = rw e

-- `WriteSignedExponentialGolomb` of an int32_t but INT32_MIN, into enough room, succeeds, and after a
-- `Seek` back `ReadSignedExponentialGolomb` gives that number.
pub write_signed_exponential_golomb-read :
    {r : Buffer} (val : ℤ)
    → IsValid r
    → place val + 1 < 2 ^ 32
    → count_bits (place val + 1) * 2 - 1 ≤ length (bits_left r)
    → (r' : Buffer) × (write_signed_exponential_golomb val r ≡ some (true, r'))
      × ((seek r.byte_offset r.bit_offset r').0 ≡ true)
      × ((read_signed_exponential_golomb (seek r.byte_offset r.bit_offset r').1).0
          ≡ signed_read val)
unfolding read_signed_exponential_golomb
write_signed_exponential_golomb-read {r} val v small fits =
    let (r', done, found, value) = write_exponential_golomb-read (place val) v small fits in
    (
      r',
      write-place val r small ∙ done,
      found,
      sign-read (read_exponential_golomb (seek r.byte_offset r.bit_offset r').1) (place val) value
          ∙ ap signed_read (signed_value-place val small),
    )
