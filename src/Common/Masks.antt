-- ===== src/Common/Masks.antt =====
-- `&` on words as arithmetic, with a mask of high bits or of low ones.
use Prim.Native.Nat.{bit_and, digits, bit_and-bitwise}
use native.Mathlib.Nat.{pow-suc, div-div-eq-div-mul}
use rtc_base.Common.{
  ℕ, zero, suc, ◌+◌, ◌-◌, ◌*◌, ◌/◌, ◌%◌, ◌^◌, ◌≤◌, ◌<◌, ◌≡◌, ◌≢◌, refl, ap, ◌∙◌, min, arith, dec_lt,
}
use rtc_base.Common.Bits.{pow_pos, double_pow}

-- The native operation recurs on digits with fuel; one unit more changes nothing.
abbrev common_digits : ℕ → ℕ → ℕ → ℕ
common_digits n a b = digits (λ y. zero) min n a b

more_fuel : (n a b : ℕ) → a ≤ n → common_digits (suc n) a b ≡ common_digits n a b
more_fuel zero zero b h = refl
more_fuel zero (suc a) b h = absurd (omega arith)
more_fuel (suc n) zero b h = refl
more_fuel (suc n) (suc a) b h = rw (more_fuel n (suc a / 2) (b / 2) (omega arith))

any_fuel : (k n m a b : ℕ) → a ≤ n → m ≡ k + n → common_digits m a b ≡ common_digits n a b
any_fuel zero n m a b h e = ap (λ x. common_digits x a b) (omega arith)
any_fuel (suc k) n m a b h e =
    let step : m ≡ suc (k + n) = omega arith in
    rw step (more_fuel (k + n) a b (omega arith) ∙ any_fuel k n (k + n) a b h refl)

-- The lowest digit of `a & b`, and the digits above it.
pub bit_and-halves : (a b : ℕ) → bit_and a b ≡ 2 * bit_and (a / 2) (b / 2) + min (a % 2) (b % 2)
bit_and-halves zero b = simp bit_and-bitwise (omega arith)
bit_and-halves (suc a) b = omega (
  arith,
  bit_and-bitwise (suc a) b,
  bit_and-bitwise (suc a / 2) (b / 2),
  any_fuel (a - suc a / 2) (suc a / 2) a (suc a / 2) (b / 2) (omega arith) (omega arith),
)

same_below : (n a : ℕ) → a ≤ n → bit_and a a ≡ a
same_below n zero h = bit_and-bitwise 0 0
same_below zero (suc a) h = absurd (omega arith)
same_below (suc n) (suc a) h =
    omega (arith, bit_and-halves (suc a) (suc a), same_below n (suc a / 2) (omega arith))

pub bit_and_self : (a : ℕ) → bit_and a a ≡ a
bit_and_self a = same_below a a (omega arith)

-- The mask of all `w` bits, and that of the upper ones of `k + w` bits.
pub bit_and_all : (w y : ℕ) → y < 2 ^ w → bit_and y (2 ^ w - 1) ≡ y
bit_and_all zero y h = let none_set : y ≡ 0 = omega arith in rw none_set (bit_and-bitwise 0 0)
bit_and_all (suc w) y h =
    let lower : (2 ^ suc w - 1) / 2 ≡ 2 ^ w - 1 = omega (arith, pow-suc 2 w, pow_pos w) in
    omega (
      arith,
      bit_and-halves y (2 ^ suc w - 1),
      ap (bit_and (y / 2)) lower,
      bit_and_all w (y / 2) (omega (arith, pow-suc 2 w)),
      pow-suc 2 w,
      pow_pos w,
    )

pub bit_and_upper :
    (k w y : ℕ) → y < 2 ^ w * 2 ^ k → bit_and y ((2 ^ w - 1) * 2 ^ k) ≡ y / 2 ^ k * 2 ^ k
bit_and_upper zero w y h =
    let plain : (2 ^ w - 1) * 1 ≡ 2 ^ w - 1 = omega arith in
    rw plain (bit_and_all w y (omega arith) ∙ omega arith)
bit_and_upper (suc k) w y h =
    let lower : (2 ^ w - 1) * 2 ^ suc k / 2 ≡ (2 ^ w - 1) * 2 ^ k =
      omega (arith, double_pow (2 ^ w - 1) k) in
    let half : y / 2 / 2 ^ k ≡ y / 2 ^ suc k =
      div-div-eq-div-mul y 2 (2 ^ k) ∙ ap (λ t. y / t) (omega (arith, pow-suc 2 k)) in
    omega (
      arith,
      bit_and-halves y ((2 ^ w - 1) * 2 ^ suc k),
      ap (bit_and (y / 2)) lower,
      bit_and_upper k w (y / 2) (omega (arith, double_pow (2 ^ w) k)),
      double_pow (2 ^ w - 1) k,
      double_pow (y / 2 ^ suc k) k,
      ap (λ (t : ℕ). t * 2 ^ k) half,
    )

-- A number that has no bit in common with the one below it is a power of two, and conversely.
pub power_of_two : (n a : ℕ) → a ≤ n → a ≢ 0 → bit_and a (a - 1) ≡ 0 → (k : ℕ) × (a ≡ 2 ^ k)
power_of_two n zero h p e = absurd (p refl)
power_of_two zero (suc a) h p e = absurd (omega arith)
power_of_two (suc n) (suc a) h p e =
    let b : ℕ = suc a / 2 in
    let halves = bit_and-halves (suc a) (suc a - 1) in
    elim (dec_lt 0 (suc a % 2)) [
      | yes odd ↦
          let same : (suc a - 1) / 2 ≡ b = omega arith in
          (0, omega (arith, e, halves, ap (bit_and b) same, bit_and_self b))
      | no even ↦
          let less : (suc a - 1) / 2 ≡ b - 1 = omega (arith, even) in
          let (k, found) =
            power_of_two n b (omega arith) (λ none_left. omega (arith, even, none_left))
              (omega (arith, e, halves, ap (bit_and b) less)) in
          (suc k, omega (arith, even, found, pow-suc 2 k))
    ]

pub bit_and_below : (k : ℕ) → bit_and (2 ^ k) (2 ^ k - 1) ≡ 0
bit_and_below zero = bit_and-bitwise 1 0
bit_and_below (suc k) =
    let half : 2 ^ suc k / 2 ≡ 2 ^ k = omega (arith, pow-suc 2 k) in
    let lower : (2 ^ suc k - 1) / 2 ≡ 2 ^ k - 1 = omega (arith, pow-suc 2 k, pow_pos k) in
    omega (
      arith,
      bit_and-halves (2 ^ suc k) (2 ^ suc k - 1),
      ap (λ t. bit_and t ((2 ^ suc k - 1) / 2)) half,
      ap (bit_and (2 ^ k)) lower,
      bit_and_below k,
      pow-suc 2 k,
    )
