-- ===== src/BitBuffer/Width.antt =====
-- `CountBits` (bit_buffer.cc).
use rtc_base.Common.{
  ℕ, zero, suc, ◌+◌, ◌*◌, ◌/◌, ◌^◌, ◌≤◌, ◌<◌, ◌≡◌, refl, ◌∙◌, ==_above, arith, dec_lt,
}
use native.Mathlib.Nat.{pow-suc, pow-le-pow_right}
use rtc_base.BitBuffer.Byte.{count_bits, count_bits_loop}

-- `CountBits` finds the one `k` with the highest bit of the value at `k - 1`.
pub record IsWidth (k v : ℕ) : Type 0 where
  pub above : v < 2 ^ k
  pub below : 2 ^ k ≤ 2 * v

loop-zero : (fuel c : ℕ) → count_bits_loop fuel 0 c ≡ c
unfolding count_bits_loop
loop-zero zero c = refl
loop-zero (suc fuel) c = refl

count_bits_loop_lem :
    (fuel v c : ℕ)
    → 0 < v
    → v < 2 ^ fuel
    → (k : ℕ) × (count_bits_loop fuel v c ≡ c + k) × IsWidth k v
unfolding count_bits_loop
count_bits_loop_lem zero v c positive low = absurd (omega arith)
count_bits_loop_lem (suc fuel) v c positive low = rw (==_above v 0 positive) (elim (dec_lt v 2) [
  | yes one ↦ (
    1,
    rw (nothing_left one) (loop-zero fuel (c + 1)),
    record { above = omega arith; below = omega arith },
  )
  | no more ↦
      let (k, e, w) =
        count_bits_loop_lem fuel (v / 2) (c + 1) (omega arith) (omega (arith, pow-suc 2 fuel)) in
      (
        suc k,
        e ∙ omega arith,
        record {
          above = omega (arith, w.above, pow-suc 2 k);
          below = omega (arith, w.below, pow-suc 2 k);
        },
      )
])
  where
    nothing_left : v < 2 → v / 2 ≡ 0
    nothing_left one = omega arith

-- The width of a number below 2^32.
pub width :
    (x : ℕ) → 0 < x → x < 2 ^ 32 → (z : ℕ) × (count_bits x ≡ suc z) × IsWidth (suc z) x × (z < 32)
unfolding count_bits
width x positive low =
    let (k, e, w) = count_bits_loop_lem 64 x 0 positive (omega arith) in nonzero k e w
  where
    narrow : (k : ℕ) → IsWidth (suc k) x → k < 32
    narrow k w = elim (dec_lt k 32) [
      | yes h ↦ h
      | no h ↦ absurd (
          omega (
            arith,
            w.below,
            pow-suc 2 k,
            pow-le-pow_right {n = 2} (omega arith) {i = 32} {j = k} (omega arith),
          ))
    ]

    nonzero :
        (k : ℕ)
        → count_bits_loop 64 x 0 ≡ 0 + k
        → IsWidth k x
        → (z : ℕ) × (count_bits_loop 64 x 0 ≡ suc z) × IsWidth (suc z) x × (z < 32)
    nonzero zero e w = absurd (omega (arith, w.above))
    nonzero (suc z) e w = (z, e ∙ omega arith, w, narrow z w)
