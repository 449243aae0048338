-- ===== src/Random/Bounds.antt =====
-- random.cc: the range of `Rand`.
use rtc_base.Common.{ℕ, ◌+◌, ◌-◌, ◌*◌, ◌/◌, ◌^◌, ◌≤◌, ◌<◌, ◌≡◌, ◌∙◌, arith}
use native.Mathlib.Nat.{
  mod-eq_of_lt, mod-lt, div-lt_iff_lt-mul, mul-lt-mul_of_pos_right, div-add-mod, div-eq_of_lt-le,
}
use rtc_base.Random.{u32, next_output, scale, rand_to, rand_between}

module _ (t x : ℕ) (word : t < 2 ^ 32) (low : x < 2 ^ 32) where
  scaled : x * (t + 1) < 2 ^ 32 * (t + 1)
  scaled = mul-lt-mul_of_pos_right low (omega arith)

  quotient : x * (t + 1) / 2 ^ 32 < t + 1
  quotient = (div-lt_iff_lt-mul (omega arith)).1 (omega (arith, scaled))

  -- No step of the scaling wraps around.
  scale_exact : scale t x ≡ x * (t + 1) / 2 ^ 32
  unfolding scale
  scale_exact = rw (
    mod-eq_of_lt {n = t + 1} {m = 2 ^ 64} (omega arith),
    mod-eq_of_lt {n = x * (t + 1)} {m = 2 ^ 64} (omega (arith, scaled)),
    mod-eq_of_lt {n = x * (t + 1) / 2 ^ 32} {m = 2 ^ 32} (omega (arith, quotient)),
  )

  scale_bound : scale t x ≤ t
  scale_bound = omega (arith, scale_exact, quotient)

pub rand_to_bound : (t state : ℕ) → t < 2 ^ 32 → (rand_to t state).0 ≤ t
unfolding rand_to
rand_to_bound t state word =
    scale_bound t (u32 (next_output state).0) word (mod-lt (next_output state).0 (omega arith))

-- `Rand(low, high)` of two uint32_t lies between them, both included, in every state.
pub rand_between_bounds :
    (low high state : ℕ)
    → low ≤ high
    → high < 2 ^ 32
    → (low ≤ (rand_between low high state).0) × ((rand_between low high state).0 ≤ high)
unfolding rand_between
rand_between_bounds low high state ordered word =
    let width : u32 (high + 2 ^ 32 - low) ≡ high - low = omega arith in
    let bound : (rand_to (high - low) state).0 ≤ high - low =
      rand_to_bound (high - low) state (omega arith) in
    rw width (omega (arith, bound), omega (arith, bound))

-- The least word that is scaled to `k`.
module _ (t k : ℕ) (word : t < 2 ^ 32) (within : k ≤ t) where
  least : ℕ
  least = (k * 2 ^ 32 + t) / (t + 1)

  least_word : least < 2 ^ 32
  unfolding least
  least_word = (div-lt_iff_lt-mul (omega arith)).1 (omega arith)

  least_product : (k * 2 ^ 32 ≤ least * (t + 1)) × (least * (t + 1) ≤ k * 2 ^ 32 + t)
  unfolding least
  least_product =
      let parts = div-add-mod (k * 2 ^ 32 + t) (t + 1) in
      let rest = mod-lt (k * 2 ^ 32 + t) {m = t + 1} (omega arith) in
      (grind (arith, parts, rest), grind (arith, parts, rest))

  least_scaled : least * (t + 1) / 2 ^ 32 ≡ k
  least_scaled =
      div-eq_of_lt-le (2 ^ 32) (omega (arith, least_product.0))
        (omega (arith, least_product.1, word))

-- `Rand(uint32_t t)` can give each number up to `t`: the scaling of a 32-bit word by `t` takes on each.
pub scale_onto : (t k : ℕ) → t < 2 ^ 32 → k ≤ t → (x : ℕ) × (x < 2 ^ 32) × (scale t x ≡ k)
scale_onto t k word within = (
  least t k word within,
  least_word t k word within,
  scale_exact t (least t k word within) word (least_word t k word within)
      ∙ least_scaled t k word within,
)
