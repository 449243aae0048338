-- ===== src/BitBuffer/Peek.antt =====
-- `PeekBits` (bit_buffer.cc) against the list of bits that are left.
use rtc_base.Common.{
  ℕ, zero, suc, ◌+◌, ◌-◌, ◌*◌, ◌/◌, ◌%◌, ◌^◌, ◌≤◌, ◌<◌, ◌≡◌, refl, ◌∙◌, sym, ap, true, false, List,
  [], ◌∷◌, ◌++◌, arith, length, length-drop, take, drop, All, ltb, if◌then◌else◌, inl, inr,
  ltb-cases, leb-cases, ◌⊎◌, take-append, take-append_within, drop-append_within,
}
use Prim.Native.Nat.{bit_or}
use rtc_base.Common.Bits.{pow-add, pow_pos, bit_or_low}
use native.Mathlib.Nat.{
  mod-eq_of_lt, mod-lt, mod-le, pow-le-pow_right, le_trans, mul-le-mul_right, le-mul_of_pos_right,
  div-lt_iff_lt-mul,
}
use rtc_base.BitBuffer.Byte.{highest_bits, lowest_bits_lem, highest_bits_lem}
use rtc_base.BitBuffer.Stream.{
  to_bits, value, stream, length-to_bits, length-stream, value-append, to_bits-add, to_bits-mod,
  value-to_bits, drop-to_bits,
}
use rtc_base.BitBuffer.Reader.{Buffer, remaining_bit_count, u32, read, peek_rest, peek_from}

abbrev pub IsByte : ℕ → Type 0
IsByte b = b < 256

pub record IsValid (r : Buffer) : Type 0 where
  pub all_bytes : All IsByte r.bytes
  pub counted : r.byte_count ≡ length r.bytes
  pub small : r.byte_count < 2 ^ 32
  pub bit : r.bit_offset < 8
  pub within : 8 * r.byte_offset + r.bit_offset ≤ 8 * r.byte_count

-- The bits from the current position on.
unfoldable pub bits_left : Buffer → List ℕ
bits_left r = drop r.bit_offset (stream (drop r.byte_offset r.bytes))

pub remaining-eq :
    {r : Buffer}
    → IsValid r
    → remaining_bit_count r + 8 * r.byte_offset + r.bit_offset ≡ 8 * r.byte_count
unfolding remaining_bit_count
remaining-eq {r} v = omega arith

pub length-bits_left : {r : Buffer} → IsValid r → length (bits_left r) ≡ remaining_bit_count r
unfolding bits_left
length-bits_left {r} v = omega (
  arith,
  remaining-eq v,
  length-drop r.bit_offset (stream (drop r.byte_offset r.bytes)),
  length-stream (drop r.byte_offset r.bytes),
  length-drop r.byte_offset r.bytes,
)

-- A byte's bits in front, and some of them.
pub take-to_bits : (n k v : ℕ) → take n (to_bits (n + k) v) ≡ to_bits n (v / 2 ^ k)
take-to_bits n k v =
    rw
      (
        to_bits-add n k v,
        take-append_within (to_bits n (v / 2 ^ k)) (to_bits k v) n
            (omega (arith, length-to_bits n (v / 2 ^ k))),
      )
      (whole n (to_bits n (v / 2 ^ k)) (length-to_bits n (v / 2 ^ k)))
  where
    whole : (i : ℕ) (xs : List ℕ) → length xs ≡ i → take i xs ≡ xs
    whole zero [] e = refl
    whole zero (x ∷ xs) e = absurd (omega arith)
    whole (suc i) [] e = refl
    whole (suc i) (x ∷ xs) e = ap (λ l. x ∷ l) (whole i xs (omega arith))

-- A word takes in `i` more bits: none are lost, and none overlap.
pub shift_in :
    (i acc y : ℕ)
    → y < 2 ^ i
    → (acc + 1) * 2 ^ i ≤ 2 ^ 32
    → bit_or (u32 (acc * 2 ^ i)) y ≡ acc * 2 ^ i + y
shift_in i acc y low small =
    rw (mod-eq_of_lt {n = acc * 2 ^ i} {m = 2 ^ 32} (omega (arith, pow_pos i)))
      (bit_or_low i acc y low)

value-byte :
    (acc b : ℕ) (rest : List ℕ)
    → b < 256
    → value acc (to_bits 8 b ++ rest) ≡ value (acc * 2 ^ 8 + b) rest
value-byte acc b rest h =
    rw
      (value-append acc (to_bits 8 b) rest, value-to_bits 8 acc b, mod-eq_of_lt {n = b} {m = 256} h)

pow_split : (k : ℕ) → k ≤ 8 → 2 ^ k * 2 ^ (8 - k) ≡ 256
pow_split k h =
    let whole : k + (8 - k) ≡ 8 = omega arith in sym (pow-add k (8 - k)) ∙ ap (λ n. 2 ^ n) whole

top : (k b : ℕ) → b < 256 → k ≤ 8 → b / 2 ^ (8 - k) < 2 ^ k
top k b h small = (div-lt_iff_lt-mul (pow_pos (8 - k))).1 (rw (pow_split k small) h)

-- The last bits come from the top of a byte.
value_of_last :
    (k acc b : ℕ) (rest : List ℕ)
    → b < 256
    → k ≤ 8
    → value acc (take k (to_bits 8 b ++ rest)) ≡ acc * 2 ^ k + b / 2 ^ (8 - k)
value_of_last k acc b rest h small =
    let whole : 8 ≡ k + (8 - k) = omega arith in
    rw (
      take-append_within (to_bits 8 b) rest k (omega (arith, length-to_bits 8 b)),
      ap (λ n. take k (to_bits n b)) whole,
      take-to_bits k (8 - k) b,
      value-to_bits k acc (b / 2 ^ (8 - k)),
      mod-eq_of_lt (top k b h small),
    )

unfold_pow : (k acc : ℕ) → 8 ≤ k → (acc + 1) * 2 ^ k ≡ (acc + 1) * 2 ^ 8 * 2 ^ (k - 8)
unfold_pow k acc h =
    let split : k ≡ 8 + (k - 8) = omega arith in
    ap (λ n. (acc + 1) * 2 ^ n) split ∙ ap (λ t. (acc + 1) * t) (pow-add 8 (k - 8)) ∙ omega arith

room_for_byte :
    (k acc b : ℕ)
    → b < 256
    → 8 ≤ k
    → (acc + 1) * 2 ^ k ≤ 2 ^ 32
    → ((acc * 2 ^ 8 + b + 1) * 2 ^ (k - 8) ≤ 2 ^ 32) × ((acc + 1) * 2 ^ 8 ≤ 2 ^ 32)
room_for_byte k acc b h more small = (
  le_trans (mul-le-mul_right (2 ^ (k - 8)) (omega arith)) all,
  le_trans (le-mul_of_pos_right ((acc + 1) * 2 ^ 8) (pow_pos (k - 8))) all,
)
  where
    all : (acc + 1) * 2 ^ 8 * 2 ^ (k - 8) ≤ 2 ^ 32
    all = rw (← unfold_pow k acc more) small

peek_rest_lem :
    (bs : List ℕ) (k acc : ℕ)
    → All IsByte bs
    → k ≤ 8 * length bs
    → (acc + 1) * 2 ^ k ≤ 2 ^ 32
    → peek_rest bs k acc ≡ read (value acc (take k (stream bs)))
unfolding peek_rest stream
peek_rest_lem [] zero acc ok fits small = unfold value in refl
peek_rest_lem [] (suc k) acc ok fits small = absurd (omega arith)
peek_rest_lem (b ∷ bs) k acc ok fits small = elim (leb-cases 8 k) [
  | inl (more, yes_8) ↦ rw yes_8 (
      rw (
        shift_in 8 acc b ok.0 ((room_for_byte k acc b ok.0 more small).1),
        peek_rest_lem bs (k - 8) (acc * 2 ^ 8 + b) ok.1 (omega arith)
            (room_for_byte k acc b ok.0 more small).0,
        take-append (to_bits 8 b) (stream bs) k (k - 8) (omega (arith, length-to_bits 8 b)),
        value-byte acc b (take (k - 8) (stream bs)) ok.0,
      ))
  | inr (less, no_8) ↦ rw no_8 (last less (ltb-cases 0 k))
]
  where
    last :
        k < 8
        → ((0 < k) × (ltb 0 k ≡ true)) ⊎ ((k ≤ 0) × (ltb 0 k ≡ false))
        → (if ltb 0 k then read (bit_or (u32 (acc * 2 ^ k)) (highest_bits b k)) else read acc)
          ≡ read (value acc (take k (to_bits 8 b ++ stream bs)))
    last few (inl (_, some_left)) = rw (
      some_left,
      highest_bits_lem b k ok.0 (omega arith),
      shift_in k acc (b / 2 ^ (8 - k)) (top k b ok.0 (omega arith)) small,
      value_of_last k acc b (stream bs) ok.0 (omega arith),
    )
    last few (inr (none, none_left)) =
        let zero_left : k ≡ 0 = omega arith in rw (none_left, zero_left) (unfold value in refl)

-- The bits in a byte from an offset on, and the bytes behind it.
drop-byte :
    (o b : ℕ) (rest : List ℕ) → o < 8 → drop o (to_bits 8 b ++ rest) ≡ to_bits (8 - o) b ++ rest
drop-byte o b rest h =
    let whole : 8 ≡ o + (8 - o) = omega arith in
    rw (
      drop-append_within (to_bits 8 b) rest o (omega (arith, length-to_bits 8 b)),
      ap (λ n. drop o (to_bits n b)) whole,
      drop-to_bits o (8 - o) b,
    )

-- Bits from the middle of a byte.
value-middle :
    (n m b : ℕ) (rest : List ℕ)
    → value 0 (take n (to_bits (n + m) b ++ rest)) ≡ b % 2 ^ (n + m) / 2 ^ m
value-middle n m b rest =
    rw
      (
        take-append_within (to_bits (n + m) b) rest n (omega (arith, length-to_bits (n + m) b)),
        to_bits-mod (n + m) b,
        take-to_bits n m (b % 2 ^ (n + m)),
        value-to_bits n 0 (b % 2 ^ (n + m) / 2 ^ m),
        mod-eq_of_lt small,
      )
      (omega arith)
  where
    small : b % 2 ^ (n + m) / 2 ^ m < 2 ^ n
    small = (div-lt_iff_lt-mul (pow_pos m)).1 (rw (← pow-add n m) (mod-lt b (pow_pos (n + m))))

pub peek_from_lem :
    (bs : List ℕ) (o n : ℕ)
    → All IsByte bs
    → o < 8
    → 0 < n
    → n ≤ 32
    → n + o ≤ 8 * length bs
    → peek_from bs o n ≡ read (value 0 (take n (drop o (stream bs))))
unfolding peek_from stream
peek_from_lem [] o n ok offset some_bits word fits = absurd (omega arith)
peek_from_lem (b ∷ bs) o n ok offset some_bits word fits =
    rw (drop-byte o b (stream bs) offset, lowest_bits_lem b (8 - o) ok.0 (omega arith))
      (elim (ltb-cases n (8 - o)) [
        | inl (part, yes_part) ↦ rw yes_part (part_of_byte part)
        | inr (all, no_part) ↦
            let none_before : 0 * 2 ^ (8 - o) + b % 2 ^ (8 - o) ≡ b % 2 ^ (8 - o) = omega arith in
            rw (
              no_part,
              peek_rest_lem bs (n - (8 - o)) (b % 2 ^ (8 - o)) ok.1 (omega arith) (room all),
              take-append (to_bits (8 - o) b) (stream bs) n (n - (8 - o))
                  (omega (arith, length-to_bits (8 - o) b)),
              value-append 0 (to_bits (8 - o) b) (take (n - (8 - o)) (stream bs)),
              value-to_bits (8 - o) 0 b,
              none_before,
            )
      ])
  where
    part_of_byte :
        n < 8 - o
        → read (highest_bits (b % 2 ^ (8 - o)) (o + n))
          ≡ read (value 0 (take n (to_bits (8 - o) b ++ stream bs)))
    part_of_byte part =
        let split : 8 - o ≡ n + (8 - (o + n)) = omega arith in
        rw (
          highest_bits_lem (b % 2 ^ (8 - o)) (o + n) (omega (arith, mod-le b (2 ^ (8 - o)), ok.0))
              (omega arith),
          split,
          value-middle n (8 - (o + n)) b (stream bs),
        )

    room : 8 - o ≤ n → (b % 2 ^ (8 - o) + 1) * 2 ^ (n - (8 - o)) ≤ 2 ^ 32
    room all =
        let split : 2 ^ n ≡ 2 ^ (8 - o) * 2 ^ (n - (8 - o)) = pow_parts all in
        let below : b % 2 ^ (8 - o) + 1 ≤ 2 ^ (8 - o) = omega (arith, mod-lt b (pow_pos (8 - o))) in
        le_trans (mul-le-mul_right (2 ^ (n - (8 - o))) below)
          (rw (← split) (pow-le-pow_right (omega arith) word))
      where
        pow_parts : 8 - o ≤ n → 2 ^ n ≡ 2 ^ (8 - o) * 2 ^ (n - (8 - o))
        pow_parts all =
            let parts : n ≡ 8 - o + (n - (8 - o)) = omega arith in
            ap (λ i. 2 ^ i) parts ∙ pow-add (8 - o) (n - (8 - o))
