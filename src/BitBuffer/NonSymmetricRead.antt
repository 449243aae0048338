-- ===== src/BitBuffer/NonSymmetricRead.antt =====
-- What `ReadNonSymmetric` (bit_buffer.cc) makes of the two codes.
use rtc_base.Common.{
  ℕ, suc, ◌+◌, ◌-◌, ◌*◌, ◌/◌, ◌%◌, ◌^◌, ◌≤◌, ◌<◌, ◌≡◌, ◌∙◌, ap, List, ◌++◌, append_assoc, arith,
  ltb_above, lt→ltb,
}
use native.Mathlib.Nat.{mod-eq_of_lt, pow-suc, pow-le-pow_right}
use rtc_base.BitBuffer.Stream.{to_bits, to_bits-add}
use rtc_base.BitBuffer.Reader.{Buffer, Answer, read, read_bits, u32}
use rtc_base.BitBuffer.Peek.{IsValid, bits_left}
use rtc_base.BitBuffer.Read.{read_bits_next}
use rtc_base.BitBuffer.NonSymmetric.{with_extra_bit, after_short}

after_short-short :
    (q : ℕ) (p : Answer × Buffer) (val : ℕ)
    → p.0 ≡ read val
    → val < q
    → (after_short q p).0 ≡ read val
unfolding after_short
after_short-short q (a, r) val e is_short = rw (e, lt→ltb val q is_short)

with_extra_bit-read :
    (q val b : ℕ) (p : Answer × Buffer)
    → p.0 ≡ read b
    → (with_extra_bit q val p).0 ≡ read (u32 (val * 2 + b + 2 ^ 32 - q))
unfolding with_extra_bit
with_extra_bit-read q val b (a, r) e = rw e

after_short-long :
    (q : ℕ) (p : Answer × Buffer) (val b : ℕ)
    → p.0 ≡ read val
    → q ≤ val
    → (read_bits 1 p.1).0 ≡ read b
    → (after_short q p).0 ≡ read (u32 (val * 2 + b + 2 ^ 32 - q))
unfolding after_short
after_short-long q (a, r) val b e is_long extra =
    rw (e, ltb_above val q is_long) (with_extra_bit-read q val b (read_bits 1 r) extra)

-- The short code, of `z + 1` bits, and the long one, of one more, when `q` values have the short one.
module _ {r : Buffer} (z q val : ℕ) (few : z < 30) (rest : List ℕ) (v : IsValid r) where
  pub read_short :
      val < q
      → val < 2 ^ suc z
      → bits_left r ≡ to_bits (suc z) val ++ rest
      → (after_short q (read_bits (suc z) r)).0 ≡ read val
  read_short is_short low e =
      after_short-short q (read_bits (suc z) r) val (first.0 ∙ ap read (mod-eq_of_lt low)) is_short
    where
      first :
          ((read_bits (suc z) r).0 ≡ read (val % 2 ^ suc z))
          × (bits_left (read_bits (suc z) r).1 ≡ rest)
          × IsValid (read_bits (suc z) r).1
      first = read_bits_next (suc z) val rest v (omega arith) (omega arith) e

  pub read_long :
      q ≤ val
      → val + q < 2 ^ suc (suc z)
      → bits_left r ≡ to_bits (suc (suc z)) (val + q) ++ rest
      → (after_short q (read_bits (suc z) r)).0 ≡ read val
  read_long is_long low e =
      let split : suc (suc z) ≡ suc z + 1 = omega arith in
      let front =
        ap (λ n. to_bits n (val + q) ++ rest) split
        ∙ ap (λ bits. bits ++ rest) (to_bits-add (suc z) 1 (val + q))
        ∙ append_assoc (to_bits (suc z) ((val + q) / 2 ^ 1)) (to_bits 1 (val + q)) rest in
      let first =
        read_bits_next (suc z) ((val + q) / 2 ^ 1) (to_bits 1 (val + q) ++ rest) v (omega arith)
          (omega arith) (e ∙ front) in
      let extra = read_bits_next 1 (val + q) rest first.2 (omega arith) (omega arith) first.1 in
      after_short-long q (read_bits (suc z) r) ((val + q) / 2) ((val + q) % 2)
        (first.0 ∙ ap read (mod-eq_of_lt (omega (arith, pow-suc 2 (suc z))))) (omega arith) extra.0
      ∙ ap read (
          rejoined (
            omega (
              arith,
              pow-le-pow_right {n = 2} (omega arith) {i = suc (suc z)} {j = 31} (omega arith),
            )))
    where
      rejoined : val + q < 2 ^ 31 → u32 ((val + q) / 2 * 2 + (val + q) % 2 + 2 ^ 32 - q) ≡ val
      rejoined word = omega (arith, word)
