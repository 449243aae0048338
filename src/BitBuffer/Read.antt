-- ===== src/BitBuffer/Read.antt =====
-- bit_buffer.cc: a reader's `PeekBits`, `ConsumeBits` and `ReadBits` against the list of bits left.
use rtc_base.Common.{
  take-append, append-nil, length-append, ◌++◌, ◌%◌, ◌^◌, ℕ, zero, suc, ◌+◌, ◌*◌, ◌/◌, ◌%◌, ◌≤◌,
  ◌<◌, ◌≡◌, refl, ◌∙◌, sym, ap, ap₂, Bool, true, false, ◌||◌, List, [], ◌∷◌, arith, length,
  length-drop, take, drop, drop-add, drop-append, lt→ltb, All, ltb, ltb_above, inl, inr, ◌⊎◌,
}
use rtc_base.BitBuffer.Stream.{value-to_bits, to_bits, value, stream, length-to_bits}
use rtc_base.BitBuffer.Reader.{
  Buffer, remaining_bit_count, refused, read, peek_bits, consume_bits, then_consume, read_bits,
}
use rtc_base.BitBuffer.Peek.{
  IsByte, IsValid, bits_left, remaining-eq, length-bits_left, peek_from_lem,
}

pub All-drop : (n : ℕ) (bs : List ℕ) → All IsByte bs → All IsByte (drop n bs)
All-drop zero bs ok = ok
All-drop (suc n) [] ok = ok
All-drop (suc n) (b ∷ bs) ok = All-drop n bs ok.1

-- From one bit to 32 that are left: their value.
pub peek_bits_lem :
    {r : Buffer} (n : ℕ)
    → IsValid r
    → 0 < n
    → n ≤ 32
    → n ≤ length (bits_left r)
    → peek_bits n r ≡ read (value 0 (take n (bits_left r)))
unfolding peek_bits bits_left
peek_bits_lem {r} n v some_bits word fits = rw (
  ltb_above (remaining_bit_count r) n (omega (arith, length-bits_left v)),
  ltb_above 32 n word,
  peek_from_lem (drop r.byte_offset r.bytes) r.bit_offset n
      (All-drop r.byte_offset r.bytes v.all_bytes) v.bit some_bits word
      (omega
        (arith, length-bits_left v, remaining-eq v, length-drop r.byte_offset r.bytes, v.counted)),
)

-- The bits behind whole bytes.
drop-stream : (k : ℕ) (bs : List ℕ) → drop (8 * k) (stream bs) ≡ stream (drop k bs)
unfolding stream
drop-stream zero bs = refl
drop-stream (suc k) [] = none_left (8 * suc k)
  where
    none_left : (n : ℕ) → drop {A = ℕ} n [] ≡ []
    none_left zero = refl
    none_left (suc n) = refl
drop-stream (suc k) (b ∷ bs) =
    drop-append (to_bits 8 b) (stream bs) (8 * suc k) (8 * k) (omega (arith, length-to_bits 8 b))
    ∙ drop-stream k bs

-- The position as one number.
pub bits_left-drop :
    (r : Buffer) → bits_left r ≡ drop (8 * r.byte_offset + r.bit_offset) (stream r.bytes)
unfolding bits_left
bits_left-drop r =
    rw (
      drop-add (8 * r.byte_offset) r.bit_offset (stream r.bytes),
      drop-stream r.byte_offset r.bytes,
    )

-- The number of bits in front of the current position.
abbrev pub position : Buffer → ℕ
position r = 8 * r.byte_offset + r.bit_offset

-- A position `n` bits behind.
unfoldable pub skip : ℕ → Buffer → Buffer
skip n r = record r {
  byte_offset = r.byte_offset + (r.bit_offset + n) / 8;
  bit_offset = (r.bit_offset + n) % 8;
}

pub consume_bits-skip :
    {r : Buffer} (n : ℕ)
    → IsValid r
    → n ≤ length (bits_left r)
    → consume_bits n r ≡ (true, skip n r)
unfolding consume_bits skip
consume_bits-skip {r} n v fits =
    rw (ltb_above (remaining_bit_count r) n (omega (arith, length-bits_left v)))

pub position-skip : (n : ℕ) (r : Buffer) → position (skip n r) ≡ position r + n
unfolding skip
position-skip n r = omega arith

pub skip-IsValid : {r : Buffer} (n : ℕ) → IsValid r → n ≤ length (bits_left r) → IsValid (skip n r)
unfolding skip
skip-IsValid {r} n v fits = record {
  all_bytes = v.all_bytes;
  counted = v.counted;
  small = v.small;
  bit = omega arith;
  within = omega (arith, remaining-eq v, length-bits_left v);
}

pub skip_bytes : (n : ℕ) (r : Buffer) → (skip n r).bytes ≡ r.bytes
unfolding skip
skip_bytes n r = refl

pub bits_left-skip : (n : ℕ) (r : Buffer) → bits_left (skip n r) ≡ drop n (bits_left r)
bits_left-skip n r =
    bits_left-drop (skip n r)
    ∙ ap₂ (λ p bytes. drop p (stream bytes)) (position-skip n r) (skip_bytes n r)
    ∙ drop-add (position r) n (stream r.bytes)
    ∙ ap (drop n) (sym (bits_left-drop r))

-- Bits that are left are skipped, and nothing else changes.
pub consume_bits_lem :
    {r : Buffer} (n : ℕ)
    → IsValid r
    → n ≤ length (bits_left r)
    → ((consume_bits n r).0 ≡ true)
      × (bits_left (consume_bits n r).1 ≡ drop n (bits_left r))
      × IsValid (consume_bits n r).1
consume_bits_lem {r} n v fits =
    rw (consume_bits-skip n v fits) (refl, bits_left-skip n r, skip-IsValid n v fits)

-- A read of bits that are left gives their value and moves behind them.
pub read_bits_lem :
    {r : Buffer} (n : ℕ)
    → IsValid r
    → 0 < n
    → n ≤ 32
    → n ≤ length (bits_left r)
    → ((read_bits n r).0 ≡ read (value 0 (take n (bits_left r))))
      × (bits_left (read_bits n r).1 ≡ drop n (bits_left r))
      × IsValid (read_bits n r).1
unfolding read_bits then_consume
read_bits_lem {r} n v some_bits word fits =
    let done = consume_bits_lem n v fits in
    rw (peek_bits_lem n v some_bits word fits, done.0) (refl, done.1, done.2)

-- A number that stands next is read as it was.
pub read_bits_next :
    {r : Buffer} (n x : ℕ) (rest : List ℕ)
    → IsValid r
    → 0 < n
    → n ≤ 32
    → bits_left r ≡ to_bits n x ++ rest
    → ((read_bits n r).0 ≡ read (x % 2 ^ n))
      × (bits_left (read_bits n r).1 ≡ rest)
      × IsValid (read_bits n r).1
read_bits_next {r} n x rest v some_bits word e =
    let fits : n ≤ length (bits_left r) =
      omega (arith, ap length e, length-append (to_bits n x) rest, length-to_bits n x) in
    let done = read_bits_lem n v some_bits word fits in
    (
      done.0 ∙ ap (λ bits. read (value 0 (take n bits))) e ∙ ap read number,
      done.1
          ∙ ap (drop n) e
          ∙ drop-append (to_bits n x) rest n 0 (omega (arith, length-to_bits n x)),
      done.2,
    )
  where
    number : value 0 (take n (to_bits n x ++ rest)) ≡ x % 2 ^ n
    number =
        rw
          (
            take-append (to_bits n x) rest n 0 (omega (arith, length-to_bits n x)),
            append-nil (to_bits n x),
            value-to_bits n 0 x,
          )
          (omega arith)

-- A read past the end or of more than 32 bits answers false and leaves the buffer as it was.
pub read_bits_refused :
    {r : Buffer} (n : ℕ)
    → IsValid r
    → (length (bits_left r) < n) ⊎ (32 < n)
    → read_bits n r ≡ (refused, r)
unfolding read_bits then_consume peek_bits
read_bits_refused {r} n v (inl past_end) =
    rw (lt→ltb (remaining_bit_count r) n (omega (arith, length-bits_left v)))
read_bits_refused {r} n v (inr too_many) =
    rw (lt→ltb 32 n too_many, or_true (ltb (remaining_bit_count r) n))
  where
    or_true : (b : Bool) → (b || true) ≡ true
    or_true true = refl
    or_true false = refl
