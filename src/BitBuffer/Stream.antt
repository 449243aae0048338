-- ===== src/BitBuffer/Stream.antt =====
-- The bits of a buffer (bit_buffer.h: "Byte order is assumed big-endian/network") as a list, and the
-- number that a list of bits stands for.
use rtc_base.Common.{
  ℕ, zero, suc, ◌+◌, ◌*◌, ◌/◌, ◌%◌, ◌^◌, ◌≡◌, refl, ◌∙◌, sym, ap, List, [], ◌∷◌, ◌++◌, arith,
  length, length-append, drop,
}
use rtc_base.Common.Bits.{pow-add, pow_pos, double_pow, mod_double}
use native.Mathlib.Nat.{
  pow-suc, div-add-mod', div-div-eq-div-mul, mul_comm, add_comm, add-mul-div_left,
}

-- The `n` low bits of a number, the highest first.
unfoldable pub to_bits : ℕ → ℕ → List ℕ
to_bits zero v = []
to_bits (suc n) v = v / 2 ^ n % 2 ∷ to_bits n v

-- The number with the bits of `acc`, then these.
unfoldable pub value : ℕ → List ℕ → ℕ
value acc [] = acc
value acc (b ∷ bs) = value (2 * acc + b) bs

unfoldable pub stream : List ℕ → List ℕ
stream [] = []
stream (b ∷ bs) = to_bits 8 b ++ stream bs

pub length-to_bits : (n v : ℕ) → length (to_bits n v) ≡ n
unfolding to_bits
length-to_bits zero v = refl
length-to_bits (suc n) v = ap suc (length-to_bits n v)

pub length-stream : (bytes : List ℕ) → length (stream bytes) ≡ 8 * length bytes
unfolding stream
length-stream [] = refl
length-stream (b ∷ bs) =
    omega (arith, length-append (to_bits 8 b) (stream bs), length-to_bits 8 b, length-stream bs)

pub value-append : (acc : ℕ) (xs ys : List ℕ) → value acc (xs ++ ys) ≡ value (value acc xs) ys
unfolding value
value-append acc [] ys = refl
value-append acc (x ∷ xs) ys = value-append (2 * acc + x) xs ys

-- The high bits of a number are those of the number shifted down.
pub to_bits-add : (m k v : ℕ) → to_bits (m + k) v ≡ to_bits m (v / 2 ^ k) ++ to_bits k v
unfolding to_bits
to_bits-add zero k v = ap (λ n. to_bits n v) (omega arith)
to_bits-add (suc m) k v =
    let shift : suc m + k ≡ suc (m + k) = omega arith in
    rw (shift, to_bits-add m k v)
      (ap (λ x. x % 2 ∷ (to_bits m (v / 2 ^ k) ++ to_bits k v))
        (rw (div-div-eq-div-mul, ← pow-add) (ap (λ t. v / 2 ^ t) (add_comm m k))))

-- Higher bits do not matter.
pub to_bits_low : (n x y : ℕ) → to_bits n (x * 2 ^ n + y) ≡ to_bits n y
unfolding to_bits
to_bits_low zero x y = refl
to_bits_low (suc n) x y =
    let shift : x * 2 ^ suc n + y ≡ 2 * x * 2 ^ n + y = omega (arith, double_pow x n) in
    rw
      (
        shift,
        to_bits_low n (2 * x) y,
        mul_comm (2 * x),
        add_comm (2 ^ n * (2 * x)),
        add-mul-div_left y (2 * x) (pow_pos n),
      )
      (ap (λ t. t ∷ to_bits n y) (omega arith))

pub to_bits-mod : (n v : ℕ) → to_bits n v ≡ to_bits n (v % 2 ^ n)
to_bits-mod n v =
    ap (to_bits n) (sym (div-add-mod' v (2 ^ n))) ∙ to_bits_low n (v / 2 ^ n) (v % 2 ^ n)

pub value-to_bits : (n acc v : ℕ) → value acc (to_bits n v) ≡ acc * 2 ^ n + v % 2 ^ n
unfolding to_bits value
value-to_bits zero acc v = omega arith
value-to_bits (suc n) acc v =
    let double : 2 ^ suc n ≡ 2 * 2 ^ n = omega (arith, pow-suc 2 n) in
    rw (value-to_bits n (2 * acc + v / 2 ^ n % 2) v, double, mod_double (2 ^ n) v (pow_pos n))
      (omega arith)

pub drop-to_bits : (k m v : ℕ) → drop k (to_bits (k + m) v) ≡ to_bits m v
unfolding to_bits
drop-to_bits zero m v = ap (λ n. to_bits n v) (omega arith)
drop-to_bits (suc k) m v =
    let shift : suc k + m ≡ suc (k + m) = omega arith in rw shift (drop-to_bits k m v)
