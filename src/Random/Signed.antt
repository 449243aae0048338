-- ===== src/Random/Signed.antt =====
-- random.cc: the range of `Rand` of int32_t.
use rtc_base.Common.{ℕ, ◌-◌, ◌^◌, ◌≤◌, ◌<◌, ◌≡◌, refl, arith}
use rtc_base.Common.Int.{
  ℤ, pos, negsuc, pos_part, neg_part, ◌+ℤ◌, ◌-ℤ◌, ◌≤ℤ◌, ◌<ℤ◌, to_uint32, to_uint32-pos,
  to_int32-within, difference_pos, +ℤ_parts, -ℤ_parts,
}
use rtc_base.Random.{rand_to, rand_signed}
use rtc_base.Random.Bounds.{rand_to_bound}

-- `Rand(low, high)` of two int32_t lies between them, both included, in every state, and neither the
-- difference nor the sum wraps around.
pub rand_signed_bounds :
    (low high : ℤ) (state : ℕ)
    → low ≤ℤ high
    → negsuc (2 ^ 31 - 1) ≤ℤ low
    → high <ℤ pos (2 ^ 31)
    → (low ≤ℤ (rand_signed low high state).0) × ((rand_signed low high state).0 ≤ℤ high)
unfolding rand_signed
rand_signed_bounds low high state ordered above below =
    let d = pos_part (high -ℤ low) in
    let exact = difference_pos low high ordered in
    let parts = -ℤ_parts high low in
    let positive : neg_part (high -ℤ low) ≡ 0 = rw exact refl in
    let small : d < 2 ^ 32 = omega (arith, parts, positive) in
    let range : to_uint32 (high -ℤ low) ≡ d = rw exact (to_uint32-pos d small) in
    let bound : (rand_to (to_uint32 (high -ℤ low)) state).0 ≤ d =
      rw range (rand_to_bound d state small) in
    let sum = +ℤ_parts (pos (rand_to (to_uint32 (high -ℤ low)) state).0) low in
    rw
      (to_int32-within (pos (rand_to (to_uint32 (high -ℤ low)) state).0 +ℤ low)
        (omega (arith, sum, bound, parts, positive)) (omega (arith, sum)))
      (omega (arith, sum), omega (arith, sum, bound, parts, positive))
