-- ===== src/BitBuffer/Decode.antt =====
-- `ReadExponentialGolomb` (bit_buffer.cc) on the list of bits left.
use rtc_base.Common.{
  ℕ, zero, suc, ◌+◌, ◌-◌, ◌/◌, ◌^◌, ◌≤◌, ◌<◌, ◌≡◌, refl, ◌∙◌, sym, ap, some, List, ◌∷◌, ◌++◌,
  append_assoc, arith, length, length-append, take, drop, replicate, ltb_above,
}
use rtc_base.Common.Bits.{pow_pos}
use native.Mathlib.Nat.{
  mod-eq_of_lt, div-eq_of_lt, div-eq_of_lt-le, le_trans, pow-suc, pow-le-pow_right,
}
use rtc_base.BitBuffer.Stream.{to_bits, value, length-to_bits, to_bits-add}
use rtc_base.BitBuffer.Reader.{Buffer, remaining_bit_count, Answer, read, peek_bits, read_bits, u32}
use rtc_base.BitBuffer.Peek.{IsValid, bits_left, length-bits_left}
use rtc_base.BitBuffer.Read.{peek_bits_lem, consume_bits_lem, read_bits_next}
use rtc_base.BitBuffer.Golomb.{
  while_zero, leading_zeros, decode, after_zeros, read_exponential_golomb,
}

to_bits-zero : (n : ℕ) → to_bits n 0 ≡ replicate n 0
unfolding to_bits
to_bits-zero zero = refl
to_bits-zero (suc n) = rw (div-eq_of_lt (pow_pos n)) (ap (λ l. 0 ∷ l) (to_bits-zero n))

pub some_left :
    {r : Buffer} {b : ℕ} {rest : List ℕ}
    → IsValid r
    → bits_left r ≡ b ∷ rest
    → 1 ≤ length (bits_left r)
some_left v e = omega (arith, ap length e)

pub peek_one :
    {r : Buffer} {b : ℕ} {rest : List ℕ}
    → IsValid r
    → bits_left r ≡ b ∷ rest
    → peek_bits 1 r ≡ read b
unfolding value
peek_one {b = b} {rest = rest} v e =
    peek_bits_lem 1 v (omega arith) (omega arith) (some_left v e)
    ∙ ap (λ bits. read (value 0 (take 1 bits))) e
    ∙ ap read (omega arith)

-- As many zeros, then a one.
leading_zeros_lem :
    (z fuel c : ℕ) {r : Buffer} (rest : List ℕ)
    → IsValid r
    → bits_left r ≡ replicate z 0 ++ (1 ∷ rest)
    → z < fuel
    → (r' : Buffer) × (leading_zeros fuel c r ≡ some (c + z, r'))
      × IsValid r'
      × (bits_left r' ≡ 1 ∷ rest)
unfolding leading_zeros while_zero
leading_zeros_lem z zero c rest v e enough = absurd (omega arith)
leading_zeros_lem zero (suc fuel) c {r} rest v e enough =
    (r, rw (peek_one v e) (ap (λ n. some (n, r)) (omega arith)), v, e)
leading_zeros_lem (suc z) (suc fuel) c {r} rest v e enough =
    let skipped = consume_bits_lem 1 v (some_left v e) in
    let (r', found, v', e') =
      leading_zeros_lem z fuel (c + 1) rest skipped.2 (skipped.1 ∙ ap (drop 1) e) (omega arith) in
    (r', rw (peek_one v e) (found ∙ ap (λ n. some (n, r')) (omega arith)), v', e')

decode-read :
    (original : Buffer) (p : Answer × Buffer) (x : ℕ)
    → p.0 ≡ read x
    → decode original p ≡ (read (u32 (x + 2 ^ 32 - 1)), p.1)
unfolding decode
decode-read original (a, r) x e = rw e

-- A number of `z + 1` bits behind `z` zeros.
module _ (z x : ℕ) (low : x < 2 ^ suc z) (high : 2 ^ z ≤ x) where
  first_bit : x / 2 ^ z ≡ 1
  first_bit = div-eq_of_lt-le (2 ^ z) (omega arith) (omega (arith, pow-suc 2 z))

  leading_one : to_bits (suc z) x ≡ 1 ∷ to_bits z x
  unfolding to_bits
  leading_one = rw first_bit

  code_bits :
      (rest : List ℕ) → to_bits (z + suc z) x ++ rest ≡ replicate z 0 ++ (1 ∷ (to_bits z x ++ rest))
  code_bits rest =
      rw (to_bits-add z (suc z) x, div-eq_of_lt low, to_bits-zero z, leading_one)
        (append_assoc (replicate z 0) (1 ∷ to_bits z x) rest)

  read_number :
      {r : Buffer} (rest : List ℕ)
      → IsValid r
      → z < 32
      → bits_left r ≡ 1 ∷ (to_bits z x ++ rest)
      → ((read_bits (z + 1) r).0 ≡ read x)
        × (bits_left (read_bits (z + 1) r).1 ≡ rest)
        × IsValid (read_bits (z + 1) r).1
  read_number {r} rest v short e =
      let one_more : z + 1 ≡ suc z = omega arith in
      let done =
        read_bits_next (suc z) x rest v (omega arith) (omega arith)
          (e ∙ ap (λ bits. bits ++ rest) (sym leading_one)) in
      rw one_more (done.0 ∙ ap read (mod-eq_of_lt low), done.1, done.2)

  -- A code that stands next in the buffer is decoded, and the position is then behind it.
  pub read_exponential_golomb_lem :
      {r : Buffer} (rest : List ℕ)
      → IsValid r
      → z < 32
      → bits_left r ≡ to_bits (z + suc z) x ++ rest
      → ((read_exponential_golomb r).0 ≡ read (x - 1))
        × (bits_left (read_exponential_golomb r).1 ≡ rest)
        × IsValid (read_exponential_golomb r).1
  unfolding read_exponential_golomb after_zeros decode
  read_exponential_golomb_lem {r} rest v short e =
      let (r', found, v', e') =
        leading_zeros_lem z (suc (remaining_bit_count r)) 0 (to_bits z x ++ rest) v
          (e ∙ code_bits rest)
          (omega (
            arith,
            ap length e,
            length-append (to_bits (z + suc z) x) rest,
            length-to_bits (z + suc z) x,
            length-bits_left v,
          )) in
      let number = read_number rest v' short e' in
      rw
        (
          found,
          ltb_above 32 (0 + z + 1) (omega arith),
          decode-read r (read_bits (0 + z + 1) r') x
              ((ap (λ n. (read_bits n r').0) (omega arith)) ∙ number.0),
        )
        (let plain : 0 + z ≡ z = omega arith in rw plain (ap read one_less, number.1, number.2))
    where
      word : x < 2 ^ 32
      word = le_trans low (pow-le-pow_right (omega arith) short)

      one_less : u32 (x + 2 ^ 32 - 1) ≡ x - 1
      one_less = omega (arith, word, high, pow_pos z)
