-- ===== src/BitBuffer/Write.antt =====
-- `WriteBits` (bit_buffer.cc) on the list of the array's bits.
use rtc_base.Common.{
  ℕ, ◌+◌, ◌-◌, ◌*◌, ◌/◌, ◌%◌, ◌^◌, ◌≤◌, ◌<◌, min, ◌≡◌, refl, ◌∙◌, ap, inl, inr, Option, some, List,
  [], ◌∷◌, ◌++◌, append_assoc, drop_all, append-nil, arith, length, take, drop, take-append_within,
  drop-append, drop-append_within, All, ltb-cases, leb-cases,
}
use rtc_base.Common.Bits.{pow_pos}
use native.Mathlib.Nat.{mod-lt}
use rtc_base.BitBuffer.Byte.{highest_byte, write_partial_byte}
use rtc_base.BitBuffer.Stream.{to_bits, stream, length-to_bits, to_bits-add, to_bits-mod}
use rtc_base.BitBuffer.Reader.{u64}
use rtc_base.BitBuffer.Peek.{IsByte}
use rtc_base.BitBuffer.Writer.{with_byte, write_rest, write_from}
use rtc_base.BitBuffer.Field.{
  shift_out, shift_out_of, front_bound, top_field, write_partial_byte-bits,
  write_partial_byte-IsByte,
}

-- Bytes with these bits were written.
pub record IsWritten (result : Option (List ℕ)) (bits : List ℕ) : Type 0 where
  pub bytes : List ℕ
  pub done : result ≡ some bytes
  pub all_bytes : All IsByte bytes
  pub streamed : stream bytes ≡ bits

with_byte-IsWritten :
    {result : Option (List ℕ)} {bits front : List ℕ} {b : ℕ}
    → IsByte b
    → to_bits 8 b ≡ front
    → IsWritten result bits
    → IsWritten (with_byte b result) (front ++ bits)
unfolding with_byte stream
with_byte-IsWritten {bits = bits} {b = b} ok e w = record {
  bytes = b ∷ w.bytes;
  done = rw (w.done);
  all_bytes = (ok, w.all_bytes);
  streamed = rw (e, w.streamed);
}

-- A whole byte from the top of the word.
module _ (m v : ℕ) (room : 8 + m ≤ 64) (low : v < 2 ^ (8 + m)) where
  highest_byte_top : highest_byte (v * 2 ^ (64 - (8 + m))) ≡ v / 2 ^ m
  highest_byte_top = omega (arith, top_field 8 m 0 v (omega arith) (inr refl) room low)

  highest_byte-IsByte : IsByte (highest_byte (v * 2 ^ (64 - (8 + m))))
  highest_byte-IsByte = rw highest_byte_top (front_bound 8 m v low)

  write_whole_byte :
      (b : ℕ) (bs : List ℕ)
      → IsWritten
          (write_rest bs (v % 2 ^ m * 2 ^ (64 - m)) m)
          (to_bits m (v % 2 ^ m) ++ drop m (stream bs))
      → IsWritten
          (with_byte
            (highest_byte (v * 2 ^ (64 - (8 + m))))
            (write_rest bs (u64 (v * 2 ^ (64 - (8 + m)) * 2 ^ 8)) (8 + m - 8)))
          (to_bits (8 + m) v ++ drop (8 + m) (stream (b ∷ bs)))
  unfolding stream
  write_whole_byte b bs rest =
      let behind : 8 + m - 8 ≡ m = omega arith in
      rw
        (
          shift_out 8 m v room,
          behind,
          to_bits-add 8 m v,
          to_bits-mod m v,
          drop-append (to_bits 8 b) (stream bs) (8 + m) m (omega (arith, length-to_bits 8 b)),
          append_assoc (to_bits 8 (v / 2 ^ m)) (to_bits m (v % 2 ^ m)) (drop m (stream bs)),
        )
        (with_byte-IsWritten highest_byte-IsByte (ap (to_bits 8) highest_byte_top) rest)

-- The last bits, in the front of a byte.
write_last_byte :
    (n v b : ℕ) (bs : List ℕ)
    → All IsByte (b ∷ bs)
    → n ≤ 8
    → v < 2 ^ n
    → IsWritten
        (some (write_partial_byte (highest_byte (v * 2 ^ (64 - n))) n b 0 ∷ bs))
        (to_bits n v ++ drop n (stream (b ∷ bs)))
unfolding stream
write_last_byte n v b bs ok few low = record {
  bytes = write_partial_byte (highest_byte (v * 2 ^ (64 - n))) n b 0 ∷ bs;
  done = refl;
  all_bytes = (
    write_partial_byte-IsByte n 0 0 b v (omega arith) ok.0 (omega arith) (inl refl) (omega arith)
        low,
    ok.1,
  );
  streamed =
      rw
        (
          write_partial_byte-bits n 0 0 b v (omega arith) ok.0 (omega arith) (inl refl)
              (omega arith) low,
          drop-append_within (to_bits 8 b) (stream bs) n (omega (arith, length-to_bits 8 b)),
          append_assoc (to_bits n (v / 1)) (drop (0 + n) (to_bits 8 b)) (stream bs),
        )
        (let by_one : v / 1 ≡ v = omega arith in
          let from_front : 0 + n ≡ n = omega arith in rw (by_one, from_front));
}

pub write_rest_lem :
    (bs : List ℕ) (n v : ℕ)
    → All IsByte bs
    → n ≤ 8 * length bs
    → n ≤ 64
    → v < 2 ^ n
    → IsWritten (write_rest bs (v * 2 ^ (64 - n)) n) (to_bits n v ++ drop n (stream bs))
unfolding write_rest
write_rest_lem [] n v ok fits room low =
    let none_left : n ≡ 0 = omega arith in
    rw none_left (
      unfold to_bits in
      unfold stream in record { bytes = []; done = refl; all_bytes = tt; streamed = refl })
write_rest_lem (b ∷ bs) n v ok fits room low = elim (leb-cases 8 n) [
  | inl (more, yes_8) ↦
      let split : n ≡ 8 + (n - 8) = omega arith in
      rw yes_8 (
        rw split (
          write_whole_byte (n - 8) v (omega arith) (rw (← split) low) b bs (
            write_rest_lem bs (n - 8) (v % 2 ^ (n - 8)) ok.1 (omega arith) (omega arith)
              (mod-lt v (pow_pos (n - 8))))))
  | inr (less, no_8) ↦ rw no_8 (elim (ltb-cases 0 n) [
    | inl (some_left, yes_0) ↦ rw yes_0 (write_last_byte n v b bs ok (omega arith) low)
    | inr (no_more, no_0) ↦
        let none_left : n ≡ 0 = omega arith in
        rw (no_0, none_left)
          (unfold to_bits in
            record { bytes = b ∷ bs; done = refl; all_bytes = ok; streamed = refl })
  ])
]

-- The bits of the first byte and of those behind it, put together.
module _ (o b : ℕ) (bs : List ℕ) where
  inside_byte :
      (n v : ℕ)
      → n + o ≤ 8
      → (take o (to_bits 8 b) ++ (to_bits n (v / 2 ^ 0) ++ drop (o + n) (to_bits 8 b))) ++ stream bs
        ≡ take o (stream (b ∷ bs)) ++ (to_bits n v ++ drop (o + n) (stream (b ∷ bs)))
  unfolding stream
  inside_byte n v fits =
      let by_one : v / 2 ^ 0 ≡ v = omega arith in
      rw
        (
          by_one,
          take-append_within (to_bits 8 b) (stream bs) o (omega (arith, length-to_bits 8 b)),
          drop-append_within (to_bits 8 b) (stream bs) (o + n) (omega (arith, length-to_bits 8 b)),
        )
        (simp append_assoc)

  across_bytes :
      (i m : ℕ) {n : ℕ} (v : ℕ)
      → i + m ≡ n
      → i + o ≡ 8
      → (take o (to_bits 8 b) ++ (to_bits i (v / 2 ^ m) ++ drop (o + i) (to_bits 8 b)))
          ++ (to_bits m (v % 2 ^ m) ++ drop m (stream bs))
        ≡ take o (stream (b ∷ bs)) ++ (to_bits n v ++ drop (o + n) (stream (b ∷ bs)))
  unfolding stream
  across_bytes i m v whole edge =
      rw
        (
          ← whole,
          to_bits-add i m v,
          ← to_bits-mod m v,
          take-append_within (to_bits 8 b) (stream bs) o (omega (arith, length-to_bits 8 b)),
          drop-append (to_bits 8 b) (stream bs) (o + (i + m)) m (omega (arith, length-to_bits 8 b)),
        )
        (rw (drop_all (o + i) (to_bits 8 b) (omega (arith, length-to_bits 8 b)), append-nil)
          (simp append_assoc))

IsWritten-bits :
    {result : Option (List ℕ)} {bits bits' : List ℕ}
    → bits ≡ bits'
    → IsWritten result bits
    → IsWritten result bits'
IsWritten-bits e w = record {
  bytes = w.bytes;
  done = w.done;
  all_bytes = w.all_bytes;
  streamed = w.streamed ∙ e;
}

-- From bit `o` on, `n` bits are replaced by those of the value at the top of the word.
pub write_from_lem :
    (bs : List ℕ) (o n v : ℕ)
    → All IsByte bs
    → o < 8
    → 0 < n
    → n ≤ 64
    → n + o ≤ 8 * length bs
    → v < 2 ^ n
    → IsWritten
        (write_from bs o (v * 2 ^ (64 - n)) n)
        (take o (stream bs) ++ (to_bits n v ++ drop (o + n) (stream bs)))
unfolding write_from
write_from_lem [] o n v ok offset some_bits room fits low = absurd (omega arith)
write_from_lem (b ∷ bs) o n v ok offset some_bits room fits low = elim (leb-cases n (8 - o)) [
  | inl (inside, yes_inside) ↦
      let all : min n (8 - o) ≡ n = omega arith in
      rw (yes_inside, all)
        (IsWritten-bits (inside_byte o b bs n v (omega arith)) (record {
          bytes = write_partial_byte (highest_byte (v * 2 ^ (64 - n))) n b o ∷ bs;
          done = refl;
          all_bytes = (
            write_partial_byte-IsByte n 0 o b v (omega arith) ok.0 (omega arith) (inl refl) room
                low,
            ok.1,
          );
          streamed =
              unfold stream in
              ap (λ front. front ++ stream bs)
                (write_partial_byte-bits n 0 o b v (omega arith) ok.0 (omega arith) (inl refl) room
                  low);
        }))
  | inr (across, not_inside) ↦
      let first_bits : min n (8 - o) ≡ 8 - o = omega arith in
      rw (not_inside, first_bits, shift_out_of (8 - o) (n - (8 - o)) v (omega arith) room)
        (IsWritten-bits (across_bytes o b bs (8 - o) (n - (8 - o)) v (omega arith) (omega arith)) (
          with_byte-IsWritten
            (write_partial_byte-IsByte (8 - o) (n - (8 - o)) o b v (omega arith) ok.0 (omega arith)
              (inr (omega arith)) room low)
            (write_partial_byte-bits (8 - o) (n - (8 - o)) o b v (omega arith) ok.0 (omega arith)
              (inr (omega arith)) room low)
            (write_rest_lem bs (n - (8 - o)) (v % 2 ^ (n - (8 - o))) ok.1 (omega arith)
              (omega arith) (mod-lt v (pow_pos (n - (8 - o)))))))
]
