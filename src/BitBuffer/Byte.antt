-- ===== src/BitBuffer/Byte.antt =====
-- bit_buffer.cc: the helpers of the unnamed namespace, and what they compute on bytes.
use Prim.Native.Nat.{bit_and, bit_or}
use rtc_base.Common.{
  ℕ, zero, suc, ◌+◌, ◌-◌, ◌*◌, ◌/◌, ◌%◌, ◌^◌, ◌≤◌, ◌<◌, ◌≡◌, refl, Bool, true, ◌&&◌, ◌==◌, arith,
  ==_iff, if◌then◌else◌,
}
use rtc_base.Common.Bits.{bit_or_low, bit_or_high, pow_pos}
use native.Mathlib.Nat.{mod-lt}

-- `byte & ((1 << bit_count) - 1)`
unfoldable pub lowest_bits : ℕ → ℕ → ℕ
lowest_bits byte bit_count = bit_and byte (2 ^ bit_count - 1)

-- `(byte & mask) >> shift` with `uint8_t mask = 0xFF << shift`
unfoldable pub highest_bits : ℕ → ℕ → ℕ
highest_bits byte bit_count =
    let shift = 8 - bit_count in bit_and byte (0xff * 2 ^ shift % 256) / 2 ^ shift

-- `val >> 56` of a uint64_t
unfoldable pub highest_byte : ℕ → ℕ
highest_byte val = val / 2 ^ 56 % 256

-- The mask of `WritePartialByte`; only the low byte of `~mask` matters to a byte.
unfoldable pub partial_mask : ℕ → ℕ → ℕ
partial_mask source_bit_count target_bit_offset =
    0xff * 2 ^ (8 - source_bit_count) % 256 / 2 ^ target_bit_offset

unfoldable pub write_partial_byte : ℕ → ℕ → ℕ → ℕ → ℕ
unfolding partial_mask
write_partial_byte source source_bit_count target target_bit_offset =
    bit_or (bit_and target (0xff - partial_mask source_bit_count target_bit_offset))
      (source / 2 ^ target_bit_offset)

-- `CountBits` on a uint64_t: the loop runs 64 times at most.
unfoldable pub count_bits_loop : ℕ → ℕ → ℕ → ℕ
count_bits_loop zero val bit_count = bit_count
count_bits_loop (suc fuel) val bit_count =
    let rest = count_bits_loop fuel (val / 2) (bit_count + 1) in
    if val == 0 then bit_count else rest

unfoldable pub count_bits : ℕ → ℕ
unfolding count_bits_loop
count_bits val = count_bits_loop 64 val 0

-- Over a small range, check every value.
every : ℕ → (ℕ → Bool) → Bool
every zero p = true
every (suc n) p = p n && every n p

every_sound : (n : ℕ) (p : ℕ → Bool) (x : ℕ) → every n p ≡ true → x < n → p x ≡ true
unfolding every
every_sound zero p x h lt = absurd (omega arith)
every_sound (suc n) p x h lt = ground (arith, every_sound n p x)

lowest_table : every 9 (λ n. every 256 (λ b. lowest_bits b n == b % 2 ^ n)) ≡ true
unfolding every lowest_bits
lowest_table = refl

pub lowest_bits_lem : (b n : ℕ) → b < 256 → n ≤ 8 → lowest_bits b n ≡ b % 2 ^ n
lowest_bits_lem b n h k =
    (==_iff _ _).0 (every_sound 256 _ b (every_sound 9 _ n lowest_table (omega arith)) h)

highest_table : every 9 (λ n. every 256 (λ b. highest_bits b n == b / 2 ^ (8 - n))) ≡ true
unfolding every highest_bits
highest_table = refl

pub highest_bits_lem : (b n : ℕ) → b < 256 → n ≤ 8 → highest_bits b n ≡ b / 2 ^ (8 - n)
highest_bits_lem b n h k =
    (==_iff _ _).0 (every_sound 256 _ b (every_sound 9 _ n highest_table (omega arith)) h)

-- What `WritePartialByte` keeps of the target: the bits in front of the field, and those behind it.
kept_table :
    every 9 (λ n. every (9 - n) (λ o. every 256 (λ b.
      bit_and b (0xff - partial_mask n o)
      == b / 2 ^ (8 - o) * 2 ^ n * 2 ^ (8 - o - n) + b % 2 ^ (8 - o - n))))
    ≡ true
unfolding every partial_mask
kept_table = refl

kept :
    (b n o : ℕ)
    → b < 256
    → n + o ≤ 8
    → bit_and b (0xff - partial_mask n o)
      ≡ b / 2 ^ (8 - o) * 2 ^ n * 2 ^ (8 - o - n) + b % 2 ^ (8 - o - n)
kept b n o h k = (==_iff _ _).0 (
    every_sound 256 _ b
      (every_sound (9 - n) _ o (every_sound 9 _ n kept_table (omega arith)) (omega arith)) h)

-- With `n` bits `v` from the top of the source and no others in reach, the bits of the target from the
-- offset on are replaced by `v`, and all others stay.
pub write_partial_byte_lem :
    (source n target o v : ℕ)
    → target < 256
    → n + o ≤ 8
    → v < 2 ^ n
    → source / 2 ^ o ≡ v * 2 ^ (8 - o - n)
    → write_partial_byte source n target o
      ≡ (target / 2 ^ (8 - o) * 2 ^ n + v) * 2 ^ (8 - o - n) + target % 2 ^ (8 - o - n)
unfolding write_partial_byte
write_partial_byte_lem source n target o v ht hn hv e = rw (
  kept target n o ht hn,
  e,
  bit_or_high (8 - o - n) (target / 2 ^ (8 - o) * 2 ^ n) (target % 2 ^ (8 - o - n)) v
      (mod-lt target (pow_pos (8 - o - n))),
  bit_or_low n (target / 2 ^ (8 - o)) v hv,
)
