-- ===== src/Common/Bits.antt =====
-- `|` and `&` on words as arithmetic: fields that do not overlap add up.
use Prim.Native.Nat.{
  ℕ, zero, suc, ◌+◌, ◌-◌, ◌*◌, ◌/◌, ◌%◌, ◌^◌, ◌≤◌, ◌<◌, max, bit_or, digits, bit_or-bitwise,
}
use mathlib.Core.Path.{◌≡◌, refl, sym, ◌∙◌, ap}
use native.Mathlib.Nat.{
  pow-suc, mul_comm, add_comm, add-mul-div_left, div-eq_of_lt, mul-lt-mul_of_pos_right,
  mul-add-mod_self_left, mod-eq_of_lt, div-add-mod, mod-lt,
}
use native.Mathlib.Omega.{arith}

-- The native operations recur on digits with fuel; one unit more changes nothing.
abbrev or_digits : ℕ → ℕ → ℕ → ℕ
or_digits n a b = digits (λ y. y) max n a b

extra_fuel : (n a b : ℕ) → a ≤ n → or_digits (suc n) a b ≡ or_digits n a b
extra_fuel zero zero b h = refl
extra_fuel zero (suc a) b h = absurd (omega arith)
extra_fuel (suc n) zero b h = refl
extra_fuel (suc n) (suc a) b h = rw (extra_fuel n (suc a / 2) (b / 2) (omega arith))

spare_fuel : (k n m a b : ℕ) → a ≤ n → m ≡ k + n → or_digits m a b ≡ or_digits n a b
spare_fuel zero n m a b h e = ap (λ x. or_digits x a b) (omega arith)
spare_fuel (suc k) n m a b h e =
    let step : m ≡ suc (k + n) = omega arith in
    rw step (extra_fuel (k + n) a b (omega arith) ∙ spare_fuel k n (k + n) a b h refl)

-- The lowest digit of `a | b`, and the digits above it.
pub bit_or-halves : (a b : ℕ) → bit_or a b ≡ 2 * bit_or (a / 2) (b / 2) + max (a % 2) (b % 2)
bit_or-halves zero b = simp bit_or-bitwise (omega arith)
bit_or-halves (suc a) b = omega (
  arith,
  bit_or-bitwise (suc a) b,
  bit_or-bitwise (suc a / 2) (b / 2),
  spare_fuel (a - suc a / 2) (suc a / 2) a (suc a / 2) (b / 2) (omega arith) (omega arith),
)

or_zero_below : (n a : ℕ) → a ≤ n → bit_or a 0 ≡ a
or_zero_below n zero h = bit_or-bitwise 0 0
or_zero_below zero (suc a) h = absurd (omega arith)
or_zero_below (suc n) (suc a) h =
    omega (arith, bit_or-halves (suc a) 0, or_zero_below n (suc a / 2) (omega arith))

pub bit_or-zero : (a : ℕ) → bit_or a 0 ≡ a
bit_or-zero a = or_zero_below a a (omega arith)

pub double_pow : (x k : ℕ) → x * 2 ^ suc k ≡ 2 * (x * 2 ^ k)
double_pow x k = omega (arith, ap (λ (t : ℕ). x * t) (pow-suc 2 k))

-- A word with `k` free bits at its low end, and `k` bits put there.
pub bit_or_low : (k x y : ℕ) → y < 2 ^ k → bit_or (x * 2 ^ k) y ≡ x * 2 ^ k + y
bit_or_low zero x y h = ap (bit_or (x * 1)) (omega arith) ∙ bit_or-zero (x * 1) ∙ omega arith
bit_or_low (suc k) x y h = omega (
  arith,
  bit_or-halves (x * 2 ^ suc k) y,
  double_pow x k,
  pow-suc 2 k,
  ap (λ (t : ℕ). bit_or t (y / 2)) (half x),
  bit_or_low k x (y / 2) (omega (arith, pow-suc 2 k)),
)
  where
    half : (x : ℕ) → x * 2 ^ suc k / 2 ≡ x * 2 ^ k
    half x = omega (arith, double_pow x k)

-- The `m` low bits of the first word do not matter to an operand that has none.
pub bit_or_high :
    (m x lo y : ℕ) → lo < 2 ^ m → bit_or (x * 2 ^ m + lo) (y * 2 ^ m) ≡ bit_or x y * 2 ^ m + lo
bit_or_high zero x lo y h =
    let no_low : x * 1 + lo ≡ x = omega arith in
    let plain : y * 1 ≡ y = omega arith in rw (no_low, plain) (omega arith)
bit_or_high (suc m) x lo y h = omega (
  arith,
  bit_or-halves (x * 2 ^ suc m + lo) (y * 2 ^ suc m),
  double_pow x m,
  double_pow y m,
  double_pow (bit_or x y) m,
  pow-suc 2 m,
  halved,
  bit_or_high m x (lo / 2) y (omega (arith, pow-suc 2 m)),
)
  where
    halved :
        bit_or ((x * 2 ^ suc m + lo) / 2) (y * 2 ^ suc m / 2)
        ≡ bit_or (x * 2 ^ m + lo / 2) (y * 2 ^ m)
    halved =
        ap (λ t. bit_or t (y * 2 ^ suc m / 2)) (omega (arith, double_pow x m))
        ∙ ap (bit_or (x * 2 ^ m + lo / 2)) (omega (arith, double_pow y m))

pub pow-add : (m n : ℕ) → 2 ^ (m + n) ≡ 2 ^ m * 2 ^ n
pow-add zero n = let none_left : zero + n ≡ n = omega arith in rw none_left (omega arith)
pow-add (suc m) n =
    let shift : suc m + n ≡ suc (m + n) = omega arith in
    rw (shift, pow-suc, pow-suc, pow-add m n) (omega arith)

pub pow_pos : (n : ℕ) → 0 < 2 ^ n
pow_pos zero = omega arith
pow_pos (suc n) = omega (arith, pow-suc 2 n, pow_pos n)

-- The remainder by twice as much has one more digit.
pub mod_double : (p v : ℕ) → 0 < p → v % (2 * p) ≡ v / p % 2 * p + v % p
mod_double p v h =
    ap (λ t. t % (2 * p)) split ∙ mul-add-mod_self_left (2 * p) (v / p / 2) r ∙ mod-eq_of_lt small
  where
    r : ℕ
    r = v / p % 2 * p + v % p

    split : v ≡ 2 * p * (v / p / 2) + r
    split = omega (arith, div-add-mod v p, ap (λ (t : ℕ). p * t) (div-add-mod (v / p) 2))

    digit : v / p % 2 * p ≤ p
    digit = grind (arith, mod-lt (v / p) {m = 2} (omega arith))

    small : r < 2 * p
    small = omega (arith, digit, mod-lt v h)

pub pow_join : (a b : ℕ) {c : ℕ} → a + b ≡ c → 2 ^ a * 2 ^ b ≡ 2 ^ c
pow_join a b e = sym (pow-add a b) ∙ ap (λ n. 2 ^ n) e

-- A remainder of scaled numbers.
pub mod_scale : (p q v : ℕ) → 0 < p → 0 < q → v * q % (p * q) ≡ v % p * q
mod_scale p q v hp hq =
    ap (λ t. t % (p * q)) split
    ∙ mul-add-mod_self_left (p * q) (v / p) (v % p * q)
    ∙ mod-eq_of_lt small
  where
    split : v * q ≡ p * q * (v / p) + v % p * q
    split = omega (arith, ap (λ (t : ℕ). t * q) (div-add-mod v p))

    small : v % p * q < p * q
    small = mul-lt-mul_of_pos_right (mod-lt v hp) hq

-- The upper one of two fields.
pub div_field : (p y r : ℕ) → r < p → (y * p + r) / p ≡ y
div_field p y r h =
    rw
      (mul_comm y p, add_comm (p * y) r, add-mul-div_left r y {y = p} (omega arith), div-eq_of_lt h)
      (omega arith)
