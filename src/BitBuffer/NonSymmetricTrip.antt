-- ===== src/BitBuffer/NonSymmetricTrip.antt =====
-- bit_buffer.cc: `ReadNonSymmetric` after `WriteNonSymmetric`.
use rtc_base.Common.{
  ℕ, zero, suc, ◌+◌, ◌-◌, ◌*◌, ◌^◌, ◌≤◌, ◌<◌, ◌≡◌, ◌∙◌, sym, ap, true, false, none, some, List,
  ◌++◌, arith, leb, ltb-cases, leb_above, dec_lt, ltb_above, lt→ltb, inl, inr, length, drop,
}
use native.Mathlib.Nat.{mod-eq_of_lt, pow-suc, pow-le-pow_right}
use rtc_base.BitBuffer.Byte.{count_bits}
use rtc_base.BitBuffer.Stream.{to_bits, stream}
use rtc_base.BitBuffer.Reader.{Buffer, read, read_bits, seek, u32}
use rtc_base.BitBuffer.Peek.{IsValid, bits_left}
use rtc_base.BitBuffer.Read.{position}
use rtc_base.BitBuffer.Writer.{write_bits}
use rtc_base.BitBuffer.Overwrite.{write_bits_lem}
use rtc_base.BitBuffer.RoundTrip.{back, back-IsValid, bits_left-back, seek-back}
use rtc_base.BitBuffer.Width.{IsWidth, width}
use rtc_base.BitBuffer.NonSymmetric.{
  min_bits_values, short_bits, after_short, read_non_symmetric, write_non_symmetric,
  size_non_symmetric_bits,
}
use rtc_base.BitBuffer.NonSymmetricRead.{read_short, read_long}

-- The widths of the codes for `m` values, and how many have the short one.
record IsCoded (z q m : ℕ) : Type 0 where
  pub count : count_bits m ≡ suc (suc z)
  pub few : z < 30
  pub short : short_bits m ≡ suc z
  pub min_values : min_bits_values m ≡ q
  pub total : q + m ≡ 2 ^ suc (suc z)
  pub enough : 2 ^ suc z ≤ m

short_eq : (m z : ℕ) → count_bits m ≡ suc (suc z) → z < 30 → short_bits m ≡ suc z
unfolding short_bits
short_eq m z e few = omega (arith, e, few)

min_values_eq :
    (m n : ℕ)
    → count_bits m ≡ n
    → m < 2 ^ n
    → 2 ^ n ≤ 2 * m
    → m < 2 ^ 31
    → min_bits_values m ≡ 2 ^ n - m
unfolding min_bits_values
min_values_eq m n e above below word = ap (λ k. u32 (2 ^ k + 2 ^ 32 - m)) e ∙ omega arith

coded : (m : ℕ) → 1 < m → m < 2 ^ 31 → (z : ℕ) × (q : ℕ) × IsCoded z q m
coded m some_values word =
    let (k, e, w, _) = width m (omega arith) (omega arith) in at_least_two k e w
  where
    narrow : (z : ℕ) → IsWidth (suc (suc z)) m → z < 30
    narrow z w = elim (dec_lt z 30) [
      | yes h ↦ h
      | no h ↦ absurd (
          omega (
            arith,
            w.below,
            pow-le-pow_right {n = 2} (omega arith) {i = 32} {j = suc (suc z)} (omega arith),
          ))
    ]

    at_least_two :
        (k : ℕ) → count_bits m ≡ suc k → IsWidth (suc k) m → (z : ℕ) × (q : ℕ) × IsCoded z q m
    at_least_two zero e w = absurd (omega (arith, w.above))
    at_least_two (suc z) e w = (
      z,
      2 ^ suc (suc z) - m,
      record {
        count = e;
        few = narrow z w;
        short = short_eq m z e (narrow z w);
        min_values = min_values_eq m (suc (suc z)) e w.above w.below word;
        total = omega (arith, w.above);
        enough = omega (arith, w.below, pow-suc 2 (suc z));
      },
    )

-- What is written is read back, and has `n` bits.
pub record IsReadBack (val m n : ℕ) (r r' : Buffer) : Type 0 where
  pub done : write_non_symmetric val m r ≡ some (true, r')
  pub moved : position r' ≡ position r + n
  pub found : (seek r.byte_offset r.bit_offset r').0 ≡ true
  pub decoded : (read_non_symmetric m (seek r.byte_offset r.bit_offset r').1).0 ≡ read val

some_inj : {a b : ℕ} → some a ≡ some b → a ≡ b
some_inj {a} e = ap (λ o. elim o [ none ↦ a | some x ↦ x ]) e

module _ {r : Buffer} (val m z q : ℕ) (v : IsValid r) (valid : val < m) (c : IsCoded z q m) where
  no_shift : leb 32 (count_bits m) ≡ false
  no_shift = rw (c.count) (leb_above 32 (suc (suc z)) (omega (arith, c.few)))

  trip :
      (n x : ℕ)
      → write_non_symmetric val m r ≡ write_bits x n r
      → 0 < n
      → n ≤ 64
      → n ≤ length (bits_left r)
      → ((r0 : Buffer) (rest : List ℕ)
          → IsValid r0
          → bits_left r0 ≡ to_bits n x ++ rest
          → (after_short q (read_bits (suc z) r0)).0 ≡ read val)
      → (r' : Buffer) × IsReadBack val m n r r'
  unfolding read_non_symmetric
  trip n x coded some_bits word fits reads =
      let (r', done, o) = write_bits_lem n x v some_bits word fits in
      let found = seek-back n x v some_bits fits o in
      (
        r',
        record {
          done = coded ∙ done;
          moved = o.moved;
          found = ap (λ p. p.0) found;
          decoded =
              rw (found, no_shift, c.min_values, c.short)
                (reads (back n x v some_bits fits o) (drop (position r + n) (stream r.bytes))
                  (back-IsValid n x v some_bits fits o) (bits_left-back n x v some_bits fits o));
        },
      )

  written_short : val < q → write_non_symmetric val m r ≡ write_bits val (suc z) r
  unfolding write_non_symmetric
  written_short h = rw (no_shift, c.min_values, lt→ltb val q h, c.short)

  written_long : q ≤ val → write_non_symmetric val m r ≡ write_bits (val + q) (suc (suc z)) r
  unfolding write_non_symmetric
  written_long h = rw (
    no_shift,
    c.min_values,
    ltb_above val q h,
    c.count,
    mod-eq_of_lt {n = val + q} {m = 2 ^ 32} (
        omega (
          arith,
          c.total,
          valid,
          pow-le-pow_right {n = 2} (omega arith) {i = suc (suc z)} {j = 31} (omega (arith, c.few)),
        )),
  )

  size_short : val < q → size_non_symmetric_bits val m ≡ some (suc z)
  unfolding size_non_symmetric_bits
  size_short h = rw (no_shift, c.min_values, lt→ltb val q h, c.short)

  size_long : q ≤ val → size_non_symmetric_bits val m ≡ some (suc (suc z))
  unfolding size_non_symmetric_bits
  size_long h = rw (no_shift, c.min_values, ltb_above val q h, c.count)

  by_code :
      (n : ℕ)
      → size_non_symmetric_bits val m ≡ some n
      → n ≤ length (bits_left r)
      → (r' : Buffer) × IsReadBack val m n r r'
  by_code n size fits = elim (ltb-cases val q) [
    | inl (is_short, _) ↦
        let same : n ≡ suc z = some_inj (sym size ∙ size_short is_short) in
        rw same (
          trip (suc z) val (written_short is_short) (omega arith) (omega (arith, c.few))
            (omega (arith, fits, same))
            (λ r0 rest v0 e.
              read_short z q val c.few rest v0 is_short
                (omega (arith, c.total, c.enough, pow-suc 2 (suc z))) e))
    | inr (is_long, _) ↦
        let same : n ≡ suc (suc z) = some_inj (sym size ∙ size_long is_long) in
        rw same (
          trip (suc (suc z)) (val + q) (written_long is_long) (omega arith) (omega (arith, c.few))
            (omega (arith, fits, same))
            (λ r0 rest v0 e.
              read_long z q val c.few rest v0 is_long (omega (arith, c.total, valid)) e))
  ]

-- `WriteNonSymmetric` of a value below `m`, for `m` from 2 to 2^31 - 1 and with room for the bits that
-- `SizeNonSymmetricBits` tells, succeeds and moves by so many bits, and after a `Seek` back
-- `ReadNonSymmetric` gives the value.
pub write_non_symmetric-read :
    {r : Buffer} (val m n : ℕ)
    → IsValid r
    → 1 < m
    → m < 2 ^ 31
    → val < m
    → size_non_symmetric_bits val m ≡ some n
    → n ≤ length (bits_left r)
    → (r' : Buffer) × IsReadBack val m n r r'
write_non_symmetric-read val m n v some_values word valid size fits =
    let (z, q, c) = coded m some_values word in by_code val m z q v valid c n size fits
