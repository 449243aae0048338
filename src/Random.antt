-- ===== src/Random.antt =====
-- random.cc, random.h: the generator and its numbers in a range. An operation gives its result and the
-- next state.
mod Bounds
mod Signed
mod Tests
use Prim.Native.Nat.{bit_xor}
use rtc_base.Common.{ℕ, ◌+◌, ◌-◌, ◌*◌, ◌/◌, ◌%◌, ◌^◌, Bool}
use rtc_base.Common.Int.{ℤ, pos, ◌+ℤ◌, ◌-ℤ◌, eqb_ℤ, to_int32, to_uint32}

abbrev u32 : ℕ → ℕ
u32 n = n % 2 ^ 32

abbrev u64 : ℕ → ℕ
u64 n = n % 2 ^ 64

unfoldable next_state : ℕ → ℕ
next_state state =
    let state1 = bit_xor state (state / 2 ^ 12) in
    let state2 = bit_xor state1 (u64 (state1 * 2 ^ 25)) in bit_xor state2 (state2 / 2 ^ 27)

unfoldable next_output : ℕ → ℕ × ℕ
next_output state = let state' = next_state state in (u64 (state' * 2685821657736338717), state')

-- `x * (t + 1) >> 32`, a uint64_t that is returned as a uint32_t
unfoldable scale : ℕ → ℕ → ℕ
scale t x = u32 (u64 (x * u64 (t + 1)) / 2 ^ 32)

-- `Rand(uint32_t t)`
unfoldable rand_to : ℕ → ℕ → ℕ × ℕ
rand_to t state = let (output, state') = next_output state in (scale t (u32 output), state')

-- `Rand(uint32_t low, uint32_t high)`
unfoldable rand_between : ℕ → ℕ → ℕ → ℕ × ℕ
rand_between low high state =
    let (x, state') = rand_to (u32 (high + 2 ^ 32 - low)) state in (u32 (x + low), state')

-- `Rand(int32_t low, int32_t high)`
unfoldable rand_signed : ℤ → ℤ → ℕ → ℤ × ℕ
rand_signed low high state =
    let (x, state') = rand_to (to_uint32 (high -ℤ low)) state in (to_int32 (pos x +ℤ low), state')

-- `Rand<bool>`
unfoldable rand_bool : ℕ → Bool × ℕ
rand_bool state = let (x, state') = rand_signed (pos 0) (pos 1) state in (eqb_ℤ x (pos 1), state')
