-- ===== src/BitBuffer/GolombErrors.antt =====
-- `ReadExponentialGolomb` (bit_buffer.cc) on a code that is cut off or too long.
use rtc_base.Common.{
  ℕ, zero, suc, ◌+◌, ◌≤◌, ◌<◌, ◌≡◌, refl, ◌∙◌, ap, ap₂, Bool, true, false, ◌&&◌, ◌⊎◌, inl, inr,
  some, List, [], ◌∷◌, ◌++◌, arith, length, length-append, length-replicate, drop, replicate, ltb,
  ltb-cases, lt→ltb, ltb_above, ==_less, ◌==◌,
}
use rtc_base.BitBuffer.Reader.{Buffer, remaining_bit_count, refused, read, peek_bits, seek}
use rtc_base.BitBuffer.Peek.{IsValid, bits_left, length-bits_left}
use rtc_base.BitBuffer.Read.{
  skip, skip_bytes, consume_bits-skip, skip-IsValid, bits_left-skip, read_bits_refused,
}
use rtc_base.BitBuffer.Golomb.{
  while_zero, leading_zeros, restore, decode, after_zeros, read_exponential_golomb,
}
use rtc_base.BitBuffer.Decode.{peek_one, some_left}

-- The same array, at another valid position.
record IsSameArray (r r' : Buffer) : Type 0 where
  pub valid : IsValid r'
  pub bytes : r'.bytes ≡ r.bytes
  pub byte_count : r'.byte_count ≡ r.byte_count

-- What stops the loop over zeros.
abbrev pub IsStop : List ℕ → Type 0
IsStop [] = Unit
IsStop (b ∷ bits) = b ≡ 1

same_array : {r : Buffer} → IsValid r → IsSameArray r r
same_array v = record { valid = v; bytes = refl; byte_count = refl }

peek_end : {r : Buffer} → IsValid r → bits_left r ≡ [] → peek_bits 1 r ≡ refused
unfolding peek_bits
peek_end {r} v e =
    rw (lt→ltb (remaining_bit_count r) 1 (omega (arith, length-bits_left v, ap length e)))

zeros_then :
    (z fuel c : ℕ) {r : Buffer} (rest : List ℕ)
    → IsValid r
    → bits_left r ≡ replicate z 0 ++ rest
    → IsStop rest
    → z < fuel
    → (r' : Buffer) × (leading_zeros fuel c r ≡ some (c + z, r'))
      × IsSameArray r r'
      × (bits_left r' ≡ rest)
unfolding leading_zeros while_zero
zeros_then z zero c rest v e stop enough = absurd (omega arith)
zeros_then zero (suc fuel) c {r} [] v e stop enough =
    (r, rw (peek_end v e) (ap (λ n. some (n, r)) (omega arith)), same_array v, e)
zeros_then zero (suc fuel) c {r} (b ∷ bits) v e stop enough =
    (r, rw (peek_one v e ∙ ap read stop) (ap (λ n. some (n, r)) (omega arith)), same_array v, e)
zeros_then (suc z) (suc fuel) c {r} rest v e stop enough =
    let next = skip-IsValid 1 v (some_left v e) in
    let (r', found, same, e') =
      zeros_then z fuel (c + 1) rest next (bits_left-skip 1 r ∙ ap (drop 1) e) stop (omega arith) in
    (
      r',
      rw (peek_one v e, consume_bits-skip 1 v (some_left v e))
          (found ∙ ap (λ n. some (n, r')) (omega arith)),
      record {
        valid = same.valid;
        bytes = same.bytes ∙ skip_bytes 1 r;
        byte_count = same.byte_count ∙ (unfold skip in refl);
      },
      e',
    )

restored :
    {original r : Buffer}
    → IsValid original
    → IsSameArray original r
    → restore original r ≡ (refused, original)
unfolding restore seek
restored {original} {r} v same =
    rw
      (
        ltb_above r.byte_count original.byte_offset (omega arith),
        ltb_above 7 original.bit_offset (omega arith),
        at_end (ltb-cases 0 original.bit_offset),
      )
      (ap (λ b. (refused, b))
        (ap₂
          (λ bytes byte_count. record {
            bytes = bytes;
            byte_count = byte_count;
            byte_offset = original.byte_offset;
            bit_offset = original.bit_offset;
          })
          same.bytes same.byte_count))
  where
    and_false : (b : Bool) → (b && false) ≡ false
    and_false true = refl
    and_false false = refl

    at_end :
        ((0 < original.bit_offset) × (ltb 0 original.bit_offset ≡ true))
          ⊎ ((original.bit_offset ≤ 0) × (ltb 0 original.bit_offset ≡ false))
        → (original.byte_offset == r.byte_count && ltb 0 original.bit_offset) ≡ false
    at_end (inl (within, _)) =
        rw (==_less original.byte_offset r.byte_count (omega (arith, v.within, same.byte_count)))
    at_end (inr (_, no_bits)) = rw no_bits (and_false (original.byte_offset == r.byte_count))

-- A code that is cut off (fewer bits follow its zeros than these and one) or has more than 31 zeros is
-- refused, and the buffer is left as it was.
pub read_exponential_golomb_refused :
    {r : Buffer} (z : ℕ) (rest : List ℕ)
    → IsValid r
    → bits_left r ≡ replicate z 0 ++ rest
    → IsStop rest
    → (length rest ≤ z) ⊎ (31 < z)
    → read_exponential_golomb r ≡ (refused, r)
unfolding read_exponential_golomb after_zeros decode
read_exponential_golomb_refused {r} z rest v e stop bad =
    let (r', found, same, e') = zeros_then z (suc (remaining_bit_count r)) 0 rest v e stop (
      omega (
        arith,
        length-bits_left v,
        ap length e,
        length-append {A = ℕ} (replicate z 0) rest,
        length-replicate {A = ℕ} z 0,
      )) in
    rw found (elim (ltb-cases 32 (0 + z + 1)) [
      | inl (_, long) ↦ rw long (restored v same)
      | inr (short, is_short) ↦
          rw
            (
              is_short,
              read_bits_refused (0 + z + 1) same.valid (elim bad [
                | inl cut_off ↦ inl (omega (arith, cut_off, ap length e'))
                | inr too_long ↦ absurd (omega arith)
              ]),
            )
            (restored v same)
    ])
