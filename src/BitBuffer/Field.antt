-- ===== src/BitBuffer/Field.antt =====
-- bit_buffer.cc: `WritePartialByte` and the shifts of `WriteBits` on the list of a byte's bits.
use rtc_base.Common.{
  ℕ, ◌+◌, ◌-◌, ◌*◌, ◌/◌, ◌%◌, ◌^◌, ◌≤◌, ◌<◌, ◌≡◌, refl, ◌∙◌, ap, ◌++◌, arith, take, drop,
  append_assoc, ◌⊎◌, inl, inr,
}
use rtc_base.Common.Bits.{pow-add, pow_pos, pow_join, mod_scale, div_field}
use native.Mathlib.Nat.{
  mod-eq_of_lt, mod-lt, div-lt_iff_lt-mul, mul-div-mul_right, div-div-eq-div-mul, mul_assoc,
  mul-lt-mul_of_pos_right, mul-le-mul_right,
}
use rtc_base.BitBuffer.Byte.{highest_byte, write_partial_byte, write_partial_byte_lem}
use rtc_base.BitBuffer.Stream.{to_bits, to_bits-add, to_bits_low, to_bits-mod, drop-to_bits}
use rtc_base.BitBuffer.Reader.{u64}
use rtc_base.BitBuffer.Peek.{IsByte, take-to_bits}

-- `n` bits at the top of a word, with `i` of them shifted out: the others at the top.
pub shift_out :
    (i m v : ℕ) → i + m ≤ 64 → u64 (v * 2 ^ (64 - (i + m)) * 2 ^ i) ≡ v % 2 ^ m * 2 ^ (64 - m)
shift_out i m v h =
    rw
      (
        mul_assoc v,
        pow_join (64 - (i + m)) i {c = 64 - m} (omega arith),
        ← pow_join m (64 - m) {c = 64} (omega arith),
      )
      (mod_scale (2 ^ m) (2 ^ (64 - m)) v (pow_pos m) (pow_pos (64 - m)))

pub shift_out_of :
    (i m : ℕ) {n : ℕ} (v : ℕ)
    → i + m ≡ n
    → n ≤ 64
    → u64 (v * 2 ^ (64 - n) * 2 ^ i) ≡ v % 2 ^ m * 2 ^ (64 - m)
shift_out_of i m v whole room = rw (← whole) (shift_out i m v (rw whole room))

-- The `i` bits in front, from bit `o` of the top byte on.
pub top_field :
    (i m o v : ℕ)
    → i + o ≤ 8
    → (m ≡ 0) ⊎ (i + o ≡ 8)
    → i + m ≤ 64
    → v < 2 ^ (i + m)
    → highest_byte (v * 2 ^ (64 - (i + m))) / 2 ^ o ≡ v / 2 ^ m * 2 ^ (8 - o - i)
unfolding highest_byte
top_field i m o v fits last room low =
    rw
      (
        mod-eq_of_lt {n = v * 2 ^ (64 - (i + m)) / 2 ^ 56} {m = 256} in_byte,
        div-div-eq-div-mul,
        pow_join 56 o {c = 56 + o} refl,
      )
      (go last)
  where
    in_byte : v * 2 ^ (64 - (i + m)) / 2 ^ 56 < 256
    in_byte = (div-lt_iff_lt-mul (omega arith)).1 (
        omega (
          arith,
          pow_join (i + m) (64 - (i + m)) {c = 64} (omega arith),
          mul-lt-mul_of_pos_right low (pow_pos (64 - (i + m))),
        ))

    go : (m ≡ 0) ⊎ (i + o ≡ 8) → v * 2 ^ (64 - (i + m)) / 2 ^ (56 + o) ≡ v / 2 ^ m * 2 ^ (8 - o - i)
    go (inl none_left) =
        rw
          (
            none_left,
            ← pow_join (8 - o - i) (56 + o) {c = 64 - (i + 0)} (omega arith),
            ← mul_assoc v,
          )
          (ap (λ t. t / 2 ^ (56 + o)) (omega arith)
            ∙ div_field (2 ^ (56 + o)) (v * 2 ^ (8 - o - i)) 0 (pow_pos (56 + o))
            ∙ (let by_one : v ≡ v / 2 ^ 0 = omega arith in
                ap (λ (t : ℕ). t * 2 ^ (8 - o - i)) by_one))
    go (inr whole) =
        rw
          (
            ← pow_join m (64 - (i + m)) {c = 56 + o} (omega arith),
            mul-div-mul_right v (2 ^ m) (pow_pos (64 - (i + m))),
          )
          (let all_taken : 8 - o - i ≡ 0 = omega arith in rw all_taken (omega arith))

-- The bits of a byte with a field in it replaced.
pub to_bits-field :
    (o i k : ℕ) {n : ℕ} (t v : ℕ)
    → o + i + k ≡ n
    → v < 2 ^ i
    → to_bits n ((t / 2 ^ (i + k) * 2 ^ i + v) * 2 ^ k + t % 2 ^ k)
      ≡ take o (to_bits n t) ++ (to_bits i v ++ drop (o + i) (to_bits n t))
to_bits-field o i k t v e low =
    rw
      (
        ← e,
        to_bits-add (o + i) k,
        div_field (2 ^ k) (t / 2 ^ (i + k) * 2 ^ i + v) (t % 2 ^ k) (mod-lt t (pow_pos k)),
        to_bits_low k (t / 2 ^ (i + k) * 2 ^ i + v) (t % 2 ^ k),
        ← to_bits-mod k t,
        to_bits-add o i,
        div_field (2 ^ i) (t / 2 ^ (i + k)) v low,
        to_bits_low i (t / 2 ^ (i + k)) v,
        drop-to_bits (o + i) k t,
      )
      (let shape : o + i + k ≡ o + (i + k) = omega arith in
        rw (shape, take-to_bits o (i + k) t)
          (append_assoc (to_bits o (t / 2 ^ (i + k))) (to_bits i v) (to_bits k t)))

-- Two fields side by side fit in their widths.
field_bound : (a b y v : ℕ) → y < 2 ^ a → v < 2 ^ b → y * 2 ^ b + v < 2 ^ (a + b)
field_bound a b y v hy hv =
    let scaled : (y + 1) * 2 ^ b ≤ 2 ^ a * 2 ^ b = mul-le-mul_right (2 ^ b) (omega arith) in
    omega (arith, scaled, pow-add a b)

pub front_bound : (i m v : ℕ) → v < 2 ^ (i + m) → v / 2 ^ m < 2 ^ i
front_bound i m v h = (div-lt_iff_lt-mul (pow_pos m)).1 (rw (← pow-add i m) h)

module _ (i m : ℕ) {n : ℕ} (o b v : ℕ) (whole : i + m ≡ n) (byte : b < 256) (fits : i + o ≤ 8)
    (last : (m ≡ 0) ⊎ (i + o ≡ 8)) (room : n ≤ 64) (low : v < 2 ^ n) where
  low_sum : v < 2 ^ (i + m)
  low_sum = rw whole low

  as_fields :
      write_partial_byte (highest_byte (v * 2 ^ (64 - n))) i b o
      ≡ (b / 2 ^ (8 - o) * 2 ^ i + v / 2 ^ m) * 2 ^ (8 - o - i) + b % 2 ^ (8 - o - i)
  as_fields =
      write_partial_byte_lem (highest_byte (v * 2 ^ (64 - n))) i b o (v / 2 ^ m) byte fits
        (front_bound i m v low_sum)
        (rw (← whole) (top_field i m o v fits last (rw whole room) low_sum))

  -- The byte that `WritePartialByte` leaves, when `i` bits of the `n` at the top of the word are put at
  -- offset `o`.
  pub write_partial_byte-bits :
      to_bits 8 (write_partial_byte (highest_byte (v * 2 ^ (64 - n))) i b o)
      ≡ take o (to_bits 8 b) ++ (to_bits i (v / 2 ^ m) ++ drop (o + i) (to_bits 8 b))
  write_partial_byte-bits =
      let same : 8 - o ≡ i + (8 - o - i) = omega arith in
      as_fields_bits (8 - o) (8 - o - i) as_fields same (omega arith)
    where
      as_fields_bits :
          (w k : ℕ) {x : ℕ}
          → x ≡ (b / 2 ^ w * 2 ^ i + v / 2 ^ m) * 2 ^ k + b % 2 ^ k
          → w ≡ i + k
          → o + i + k ≡ 8
          → to_bits 8 x
            ≡ take o (to_bits 8 b) ++ (to_bits i (v / 2 ^ m) ++ drop (o + i) (to_bits 8 b))
      as_fields_bits w k e same all =
          rw (e, same) (to_bits-field o i k b (v / 2 ^ m) all (front_bound i m v low_sum))

  pub write_partial_byte-IsByte :
      IsByte (write_partial_byte (highest_byte (v * 2 ^ (64 - n))) i b o)
  write_partial_byte-IsByte = rw as_fields (
      rw (← ap (λ n. 2 ^ n) widths) (
        field_bound (o + i) (8 - o - i) (b / 2 ^ (8 - o) * 2 ^ i + v / 2 ^ m) (b % 2 ^ (8 - o - i))
          (field_bound o i (b / 2 ^ (8 - o)) (v / 2 ^ m) (front_bound o (8 - o) b in_8)
            (front_bound i m v low_sum))
          (mod-lt b (pow_pos (8 - o - i)))))
    where
      widths : o + i + (8 - o - i) ≡ 8
      widths = omega arith

      in_8 : b < 2 ^ (o + (8 - o))
      in_8 = let all : o + (8 - o) ≡ 8 = omega arith in rw all byte
