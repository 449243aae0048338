-- ===== src/Numerics/Range.antt =====
-- What the range checks of numerics/ say of an integer.
use native.Mathlib.Nat.{mod-eq_of_lt, pow-le-pow_right, pow-suc}
use rtc_base.Common.{
  ℕ, suc, ◌+◌, ◌-◌, ◌*◌, ◌%◌, ◌^◌, ◌≤◌, ◌<◌, ◌≡◌, refl, ap, ◌∙◌, Bool, true, false, arith, ltb,
  leb-cases, lt→ltb, if◌then◌else◌, inl, inr, ltb_above,
}
use rtc_base.Common.Bits.{pow_pos}
use rtc_base.Common.Int.{ℤ, pos, negsuc, ltb_ℤ, leb_ℤ, ◌≤ℤ◌, mod_turn}
use rtc_base.Numerics.{
  IntType, max_exponent, type_max, type_min, static_cast, static_range_check, RangeCheckResult,
  type_valid, type_underflow, type_overflow, range_check_result, range_check,
  check_signed_to_signed, check_unsigned_to_unsigned, check_unsigned_to_signed,
  check_signed_to_unsigned,
}

abbrev pub Holds : IntType → ℤ → Type 0
Holds T z = (type_min T ≤ℤ z) × (z ≤ℤ type_max T)

-- A signed word is twice its positive half.
pub signed_word : (n : ℕ) → 0 < n → 2 ^ (n * 8) ≡ 2 * 2 ^ (n * 8 - 1)
signed_word n h =
    let e : n * 8 ≡ suc (n * 8 - 1) = omega arith in
    ap (λ k. 2 ^ k) e ∙ omega (arith, pow-suc 2 (n * 8 - 1))

abbrev pub int_type : Bool → ℕ → IntType
int_type s n = record { is_signed = s; size = n }

pub cast_pos :
    (T : IntType) (n : ℕ)
    → n < 2 ^ max_exponent T
    → max_exponent T ≤ T.size * 8
    → static_cast T (pos n) ≡ pos n
unfolding static_cast
cast_pos T n h w = rw bits (rw (lt→ltb _ _ h) refl)
  where
    turn : 2 ^ (T.size * 8) - 0 % 2 ^ (T.size * 8) ≡ 2 ^ (T.size * 8)
    turn = rw (mod-eq_of_lt {n = 0} {m = 2 ^ (T.size * 8)} (pow_pos (T.size * 8))) (omega arith)

    bits : (n + (2 ^ (T.size * 8) - 0 % 2 ^ (T.size * 8))) % 2 ^ (T.size * 8) ≡ n
    bits = rw turn (mod_turn n _ (omega (arith, pow-le-pow_right {n = 2} (omega arith) w)))

pub cast_neg :
    (T : IntType) (n : ℕ)
    → n < 2 ^ max_exponent T
    → 2 ^ (T.size * 8) ≡ 2 * 2 ^ max_exponent T
    → static_cast T (negsuc n) ≡ negsuc n
unfolding static_cast
cast_neg T n h w = rw bits (rw above (ap negsuc back))
  where
    bits :
        (0 + (2 ^ (T.size * 8) - suc n % 2 ^ (T.size * 8))) % 2 ^ (T.size * 8)
        ≡ 2 ^ (T.size * 8) - suc n
    bits =
        rw (mod-eq_of_lt {n = suc n} {m = 2 ^ (T.size * 8)} (omega arith))
          (mod-eq_of_lt (omega arith) ∙ omega arith)

    above : ltb (2 ^ (T.size * 8) - suc n) (2 ^ max_exponent T) ≡ false
    above = ltb_above _ _ (omega arith)

    back : 2 ^ (T.size * 8) - 1 - (2 ^ (T.size * 8) - suc n) ≡ n
    back = omega arith

-- A value is below a range, above it, or in it.
abbrev pub place : ℤ → ℤ → ℤ → RangeCheckResult
place lo hi v =
    if ltb_ℤ v lo then type_underflow else if ltb_ℤ hi v then type_overflow else type_valid

abbrev pub classify : IntType → ℤ → RangeCheckResult
classify dst v = place (type_min dst) (type_max dst) v

both_bounds :
    (lo hi v : ℤ) → lo ≤ℤ hi → range_check_result (leb_ℤ v hi) (leb_ℤ lo v) ≡ place lo hi v
unfolding range_check_result
both_bounds lo hi v h = ground arith

within : (lo hi v : ℤ) → lo ≤ℤ v → v ≤ℤ hi → type_valid ≡ place lo hi v
within lo hi v low high = ground arith

wider : (i j : ℕ) → i ≤ j → 2 ^ i ≤ 2 ^ j
wider i j le = pow-le-pow_right {n = 2} (omega arith) le

top_fits : (i j : ℕ) → i ≤ j → 2 ^ i - 1 < 2 ^ j
top_fits i j le = omega (arith, wider i j le, pow_pos i)

module _ (n m : ℕ) (v : ℤ) (some_dst : 0 < n) (some_src : 0 < m) where
  signed_to_signed :
      Holds (int_type true m) v
      → range_check (int_type true n) (int_type true m) v ≡ classify (int_type true n) v
  unfolding range_check static_range_check check_signed_to_signed type_min type_max max_exponent
  signed_to_signed h = elim (leb-cases (m * 8 - 1) (n * 8 - 1)) [
    | inl (le, e) ↦ rw e (
        within (type_min (int_type true n)) (type_max (int_type true n)) v
          (omega (arith, wider _ _ le, h.0, pow_pos (n * 8 - 1), pow_pos (m * 8 - 1)))
          (omega (arith, wider _ _ le, h.1, pow_pos (m * 8 - 1))))
    | inr (lt, e) ↦
        let fits : 2 ^ (n * 8 - 1) - 1 < 2 ^ (m * 8 - 1) = top_fits _ _ (omega arith) in
        let hi : static_cast (int_type true m) (type_max (int_type true n))
            ≡ type_max (int_type true n) =
          cast_pos (int_type true m) _ fits (omega arith) in
        let lo : static_cast (int_type true m) (type_min (int_type true n))
            ≡ type_min (int_type true n) =
          cast_neg (int_type true m) _ fits (signed_word m some_src) in
        rw e (
          rw (hi, lo)
            (both_bounds (type_min (int_type true n)) (type_max (int_type true n)) v (omega arith)))
  ]

  unsigned_to_unsigned :
      Holds (int_type false m) v
      → range_check (int_type false n) (int_type false m) v ≡ classify (int_type false n) v
  unfolding range_check static_range_check check_unsigned_to_unsigned type_min type_max max_exponent
      range_check_result
  unsigned_to_unsigned h = elim (leb-cases m n) [
    | inl (le, e) ↦ rw e (
        within (type_min (int_type false n)) (type_max (int_type false n)) v h.0
          (omega (arith, wider (m * 8) (n * 8) (omega arith), h.1, pow_pos (m * 8))))
    | inr (lt, e) ↦
        let hi : static_cast (int_type false m) (type_max (int_type false n))
            ≡ type_max (int_type false n) =
          cast_pos (int_type false m) _ (top_fits (n * 8) (m * 8) (omega arith)) (omega arith) in
        rw e (rw hi (ground (arith, h.0)))
  ]

  unsigned_to_signed :
      Holds (int_type false m) v
      → range_check (int_type true n) (int_type false m) v ≡ classify (int_type true n) v
  unfolding range_check static_range_check check_unsigned_to_signed type_min type_max max_exponent
      range_check_result
  unsigned_to_signed h = elim (leb-cases (m * 8) (n * 8 - 1)) [
    | inl (le, e) ↦ rw e (
        within (type_min (int_type true n)) (type_max (int_type true n)) v (omega (arith, h.0))
          (omega (arith, wider _ _ le, h.1, pow_pos (m * 8))))
    | inr (lt, e) ↦
        let hi : static_cast (int_type false m) (type_max (int_type true n))
            ≡ type_max (int_type true n) =
          cast_pos (int_type false m) _ (top_fits (n * 8 - 1) (m * 8) (omega arith))
            (omega arith) in
        let narrow : ltb m n ≡ false = ltb_above m n (omega arith) in
        rw e (rw narrow (rw hi (ground (arith, h.0))))
  ]

  signed_to_unsigned :
      Holds (int_type true m) v
      → range_check (int_type false n) (int_type true m) v ≡ classify (int_type false n) v
  unfolding range_check static_range_check check_signed_to_unsigned type_min type_max max_exponent
      range_check_result
  signed_to_unsigned h =
      let zeroed : static_cast (int_type true m) (pos 0) ≡ pos 0 =
        cast_pos (int_type true m) 0 (pow_pos (m * 8 - 1)) (omega arith) in
      elim (leb-cases (m * 8 - 1) (n * 8)) [
        | inl (le, e) ↦ rw (e, zeroed) (ground (arith, wider _ _ le, h.1, pow_pos (m * 8 - 1)))
        | inr (lt, e) ↦
            let hi : static_cast (int_type true m) (type_max (int_type false n))
                ≡ type_max (int_type false n) =
              cast_pos (int_type true m) _ (top_fits (n * 8) (m * 8 - 1) (omega arith))
                (omega arith) in
            rw (e, zeroed, hi)
              (both_bounds (type_min (int_type false n)) (type_max (int_type false n)) v
                (omega arith))
      ]

classify_signs :
    (d s : Bool) (n m : ℕ) (v : ℤ)
    → 0 < n
    → 0 < m
    → Holds (int_type s m) v
    → range_check (int_type d n) (int_type s m) v ≡ classify (int_type d n) v
classify_signs true true n m v hn hm h = signed_to_signed n m v hn hm h
classify_signs true false n m v hn hm h = unsigned_to_signed n m v hn hm h
classify_signs false true n m v hn hm h = signed_to_unsigned n m v hn hm h
classify_signs false false n m v hn hm h = unsigned_to_unsigned n m v hn hm h

-- `RangeCheck` of a value of the source type, both of them types of integers with some bytes, tells
-- whether the value lies below the target's least value, above its greatest one or between them, and
-- never that the value is invalid.
pub range_check-classify :
    (dst src : IntType) (v : ℤ)
    → 0 < dst.size
    → 0 < src.size
    → Holds src v
    → range_check dst src v ≡ classify dst v
range_check-classify dst src v hn hm h =
    classify_signs dst.is_signed src.is_signed dst.size src.size v hn hm h
