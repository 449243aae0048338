-- ===== src/BitBuffer/Overwrite.antt =====
-- `WriteBits` (bit_buffer.cc) on a buffer.
use rtc_base.Common.{
  ℕ, zero, suc, ◌+◌, ◌-◌, ◌*◌, ◌%◌, ◌^◌, ◌≤◌, ◌<◌, ◌≡◌, refl, ◌∙◌, sym, ap, true, false, Option,
  some, List, [], ◌∷◌, ◌++◌, append_assoc, arith, length, length-append, length-drop, take, drop,
  take-append, drop-append, take-append-drop, length-take, All, ==_above, ltb_above, lt→ltb,
}
use rtc_base.Common.Bits.{pow_pos, pow_join, mod_scale}
use native.Mathlib.Nat.{mod-lt}
use rtc_base.BitBuffer.Stream.{to_bits, stream, length-to_bits, length-stream, to_bits-mod}
use rtc_base.BitBuffer.Reader.{Buffer, u64, remaining_bit_count}
use rtc_base.BitBuffer.Peek.{IsByte, IsValid, bits_left, remaining-eq, length-bits_left}
use rtc_base.BitBuffer.Read.{
  All-drop, position, skip, skip_bytes, consume_bits-skip, position-skip, skip-IsValid,
}
use rtc_base.BitBuffer.Writer.{write_from, written, write_bits}
use rtc_base.BitBuffer.Write.{IsWritten, write_from_lem}

-- A value's `n` low bits at the top of a word.
at_top : (n val : ℕ) → n ≤ 64 → u64 (val * 2 ^ (64 - n)) ≡ val % 2 ^ n * 2 ^ (64 - n)
at_top n val room =
    rw (← pow_join n (64 - n) {c = 64} (omega arith))
      (mod_scale (2 ^ n) (2 ^ (64 - n)) val (pow_pos n) (pow_pos (64 - n)))

-- The bytes in front of the current one, and those written.
stream-append : (xs ys : List ℕ) → stream (xs ++ ys) ≡ stream xs ++ stream ys
unfolding stream
stream-append [] ys = refl
stream-append (x ∷ xs) ys =
    ap (λ bits. to_bits 8 x ++ bits) (stream-append xs ys)
    ∙ sym (append_assoc (to_bits 8 x) (stream xs) (stream ys))

stream-split : (k : ℕ) (bs : List ℕ) → stream bs ≡ stream (take k bs) ++ stream (drop k bs)
stream-split k bs = ap stream (sym (take-append-drop k bs)) ∙ stream-append (take k bs) (drop k bs)

-- What a write of `n` bits of `val` at the position makes of a buffer.
pub record IsOverwritten (n val : ℕ) (r r' : Buffer) : Type 0 where
  pub moved : position r' ≡ position r + n
  pub valid : IsValid r'
  pub same_count : r'.byte_count ≡ r.byte_count
  pub bits :
      stream r'.bytes
      ≡ take (position r) (stream r.bytes)
        ++ (to_bits n val ++ drop (position r + n) (stream r.bytes))

All-take : (n : ℕ) (bs : List ℕ) → All IsByte bs → All IsByte (take n bs)
All-take zero bs ok = tt
All-take (suc n) [] ok = tt
All-take (suc n) (b ∷ bs) ok = (ok.0, All-take n bs ok.1)

All-append : (xs ys : List ℕ) → All IsByte xs → All IsByte ys → All IsByte (xs ++ ys)
All-append [] ys hx hy = hy
All-append (x ∷ xs) ys hx hy = (hx.0, All-append xs ys hx.1 hy)

-- New bytes from the current one on.
module _ {r : Buffer} (n val : ℕ) (v : IsValid r) (fits : n ≤ length (bits_left r))
    {result : Option (List ℕ)}
    (w : IsWritten result (
      take r.bit_offset (stream (drop r.byte_offset r.bytes))
      ++ (to_bits n val ++ drop (r.bit_offset + n) (stream (drop r.byte_offset r.bytes))))) where
  unfoldable replaced : Buffer
  replaced = record r { bytes = take r.byte_offset r.bytes ++ w.bytes }

  in_bytes : r.byte_offset ≤ length r.bytes
  in_bytes = omega (arith, v.within, v.counted, v.bit)

  same_length : length w.bytes ≡ length (drop r.byte_offset r.bytes)
  same_length = omega (
    arith,
    ap length w.streamed,
    length-stream w.bytes,
    length-append (take r.bit_offset rest) (to_bits n val ++ drop (r.bit_offset + n) rest),
    length-append (to_bits n val) (drop (r.bit_offset + n) rest),
    length-take r.bit_offset rest,
    length-to_bits n val,
    length-drop (r.bit_offset + n) rest,
    length-stream (drop r.byte_offset r.bytes),
    length-drop r.byte_offset r.bytes,
    length-bits_left v,
    remaining-eq v,
    v.counted,
    fits,
  )
    where
      rest : List ℕ
      rest = stream (drop r.byte_offset r.bytes)

  front_bits : length (stream (take r.byte_offset r.bytes)) ≡ 8 * r.byte_offset
  front_bits = omega (
    arith,
    length-stream (take r.byte_offset r.bytes),
    length-take r.byte_offset r.bytes,
    in_bytes,
  )

  replaced-IsValid : IsValid replaced
  unfolding replaced
  replaced-IsValid = record {
    all_bytes =
        All-append (take r.byte_offset r.bytes) w.bytes (All-take r.byte_offset r.bytes v.all_bytes)
          w.all_bytes;
    counted = omega (
      arith,
      v.counted,
      in_bytes,
      same_length,
      length-append (take r.byte_offset r.bytes) w.bytes,
      length-take r.byte_offset r.bytes,
      length-drop r.byte_offset r.bytes,
    );
    small = v.small;
    bit = v.bit;
    within = v.within;
  }

  replaced-stream :
      stream replaced.bytes
      ≡ take (position r) (stream r.bytes)
        ++ (to_bits n val ++ drop (position r + n) (stream r.bytes))
  unfolding replaced
  replaced-stream =
      rw
        (
          stream-append (take r.byte_offset r.bytes) w.bytes,
          w.streamed,
          stream-split r.byte_offset r.bytes,
          take-append (stream (take r.byte_offset r.bytes)) (stream (drop r.byte_offset r.bytes))
              (position r) r.bit_offset (omega (arith, front_bits)),
          drop-append (stream (take r.byte_offset r.bytes)) (stream (drop r.byte_offset r.bytes))
              (position r + n) (r.bit_offset + n) (omega (arith, front_bits)),
        )
        (simp append_assoc)

  replaced-remaining : length (bits_left replaced) ≡ length (bits_left r)
  unfolding replaced
  replaced-remaining = omega (
    arith,
    length-bits_left v,
    remaining-eq v,
    length-bits_left replaced-IsValid,
    remaining-eq replaced-IsValid,
  )

  written_lem : (r' : Buffer) × (written n r result ≡ some (true, r')) × IsOverwritten n val r r'
  unfolding written
  written_lem = (
    skip n replaced,
    rw (w.done) (unfold replaced in ap some (consume_bits-skip n replaced-IsValid room)),
    record {
      moved = unfold replaced in position-skip n replaced;
      valid = skip-IsValid n replaced-IsValid room;
      bits = ap stream (skip_bytes n replaced) ∙ replaced-stream;
      same_count = unfold replaced in unfold skip in refl;
    },
  )
    where
      room : n ≤ length (bits_left replaced)
      room = rw replaced-remaining fits

-- A write of 1 to 64 bits into the room that is left writes no byte outside the array, answers true,
-- replaces exactly the bits from the position on by the low bits of the value, highest first, and
-- moves behind them.
pub write_bits_lem :
    {r : Buffer} (n val : ℕ)
    → IsValid r
    → 0 < n
    → n ≤ 64
    → n ≤ length (bits_left r)
    → (r' : Buffer) × (write_bits val n r ≡ some (true, r')) × IsOverwritten n val r r'
unfolding write_bits
write_bits_lem {r} n val v some_bits room fits =
    rw
      (
        ltb_above (remaining_bit_count r) n (omega (arith, length-bits_left v)),
        ltb_above 64 n room,
        ==_above n 0 some_bits,
        at_top n val room,
      )
      (written_lem n val v fits (rw (to_bits-mod n val) w))
  where
    w :
        IsWritten
          (write_from (drop r.byte_offset r.bytes) r.bit_offset (val % 2 ^ n * 2 ^ (64 - n)) n)
          (take r.bit_offset (stream (drop r.byte_offset r.bytes))
            ++ (to_bits n (val % 2 ^ n)
                ++ drop (r.bit_offset + n) (stream (drop r.byte_offset r.bytes))))
    w =
        write_from_lem (drop r.byte_offset r.bytes) r.bit_offset n (val % 2 ^ n)
          (All-drop r.byte_offset r.bytes v.all_bytes) v.bit some_bits room
          (omega (
            arith,
            length-bits_left v,
            remaining-eq v,
            length-drop r.byte_offset r.bytes,
            v.counted,
          ))
          (mod-lt val (pow_pos n))

-- A write past the end answers false and changes nothing.
pub write_bits_refused :
    {r : Buffer} (n val : ℕ)
    → IsValid r
    → length (bits_left r) < n
    → write_bits val n r ≡ some (false, r)
unfolding write_bits
write_bits_refused {r} n val v past_end =
    rw (lt→ltb (remaining_bit_count r) n (omega (arith, length-bits_left v)))

-- After a write of 1 to 32 bits, a seek back to where it began and a read of as many bits give the
-- value's low bits, and the position is that after the write.
