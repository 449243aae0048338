-- ===== src/Align/Rounding.antt =====
-- The macros, and `GetRightAlign`, against arithmetic.
use Prim.Native.Nat.{bit_and}
use native.Mathlib.Nat.{mod-eq_of_lt, div-add-mod, mod-lt, mul-mod_left, mul_comm}
use rtc_base.Common.{
  ℕ, zero, suc, ◌+◌, ◌-◌, ◌*◌, ◌/◌, ◌%◌, ◌^◌, ◌≤◌, ◌<◌, ◌≡◌, ◌≢◌, ap, ◌∙◌, sym, true, arith, dec_le,
}
use rtc_base.Common.Bits.{pow_pos, pow_join}
use rtc_base.Common.Masks.{bit_and_upper, bit_and_below, power_of_two}
use rtc_base.Align.{complement, align_valid, align_up, get_right_align}

-- An alignment is valid exactly if it is a power of two.
pub align_valid-power : (a : ℕ) → align_valid a ≡ true → (k : ℕ) × (a ≡ 2 ^ k)
unfolding align_valid
align_valid-power a h = power_of_two a a (omega arith) (ground arith) (ground arith)

pub align_valid_power : (k : ℕ) → align_valid (2 ^ k) ≡ true
unfolding align_valid
align_valid_power k = ground (arith, pow_pos k, bit_and_below k)

sub_one : (p q : ℕ) → 0 < p → (p - 1) * q + q ≡ p * q
sub_one (suc p) q h = let less : suc p - 1 ≡ p = omega arith in rw less (grind arith)
sub_one zero q h = elim h [ ]

power-le_64 : (k : ℕ) → 2 ^ k ≤ 2 ^ 64 → k ≤ 64
power-le_64 k h = elim (dec_le k 64) [
  | yes small ↦ small
  | no large ↦ absurd (
      omega
        (arith, h, large, pow_join 65 (k - 65) {c = k} (omega (arith, large)), pow_pos (k - 65)))
]

-- The mask of an alignment that is a power of two
masked :
    (k y : ℕ) → 2 ^ k ≤ 2 ^ 64 → y < 2 ^ 64 → bit_and y (complement (2 ^ k - 1)) ≡ y / 2 ^ k * 2 ^ k
unfolding complement
masked k y h small =
    let le = power-le_64 k h in
    let whole = pow_join (64 - k) k {c = 64} (omega (arith, le)) in
    let mask : 2 ^ 64 - 1 - (2 ^ k - 1) ≡ (2 ^ (64 - k) - 1) * 2 ^ k =
      omega (arith, whole, pow_pos k, sub_one (2 ^ (64 - k)) (2 ^ k) (pow_pos (64 - k))) in
    ap (bit_and y) mask ∙ bit_and_upper k (64 - k) y (omega (arith, whole))

-- Rounded up with no overflow: a multiple, from the address on, and the first one.
pub align_up_lem :
    (x a : ℕ)
    → align_valid a ≡ true
    → x + a ≤ 2 ^ 64
    → (align_up x a % a ≡ 0) × (x ≤ align_up x a) × (align_up x a < x + a)
unfolding align_up
align_up_lem x a valid small =
    let (k, power) = align_valid-power a valid in
    let bound : 2 ^ k ≤ 2 ^ 64 = omega (arith, power) in
    let y : ℕ = x + a - 1 in
    let one = pow_pos k in
    let fits : y < 2 ^ 64 = omega (arith, power) in
    let same : align_up x a ≡ y / a * a =
      ap (λ t. bit_and t (complement (a - 1))) (mod-eq_of_lt fits)
      ∙ ap (λ b. bit_and y (complement (b - 1))) power
      ∙ masked k y bound fits
      ∙ ap (λ b. y / b * b) (sym power) in
    let split = div-add-mod y a in
    let rest = mod-lt y {m = a} (omega (arith, power)) in
    rw same (
      mul-mod_left (y / a) a,
      omega (arith, split, rest, mul_comm a (y / a)),
      omega (arith, split, rest, mul_comm a (y / a)),
    )

-- `GetRightAlign` of an address that is not NULL, near enough to the end of memory for no overflow
pub get_right_align_lem :
    (pointer alignment : ℕ)
    → pointer ≢ 0
    → align_valid alignment ≡ true
    → get_right_align pointer alignment ≡ align_up pointer alignment
unfolding get_right_align
get_right_align_lem pointer alignment h valid = ground arith
