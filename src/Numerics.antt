-- ===== src/Numerics.antt =====
-- numerics/safe_conversions.h, safe_conversions_impl.h, safe_compare.h and safe_minmax.h, on integer
-- types. A type is its sign and its `sizeof`; a value is an integer.
pub mod Range
pub mod Casts
pub mod Compare
mod Tests
use rtc_base.Common.{
  ℕ, ◌+◌, ◌-◌, ◌*◌, ◌%◌, ◌^◌, Bool, true, false, not, Option, none, some, ltb, leb, ◌==◌,
  if◌then◌else◌,
}
use rtc_base.Common.Int.{ℤ, pos, negsuc, pos_part, neg_part, ltb_ℤ, leb_ℤ, eqb_ℤ}

pub record IntType : Type 0 where
  pub is_signed : Bool
  pub size : ℕ

-- The bits of a value but for its sign: `max_exponent` of an integer type.
pub max_exponent : IntType → ℕ
max_exponent T = if T.is_signed then T.size * 8 - 1 else T.size * 8

pub type_max : IntType → ℤ
type_max T = pos (2 ^ max_exponent T - 1)

pub type_min : IntType → ℤ
type_min T = if T.is_signed then negsuc (2 ^ max_exponent T - 1) else pos 0

-- The value of a type whose bits, as a number, are `r`.
abbrev pub of_bits : IntType → ℕ → ℤ
of_bits T r = if ltb r (2 ^ max_exponent T) then pos r else negsuc (2 ^ (T.size * 8) - 1 - r)

-- `static_cast<T>`: the value with the same low bits.
pub static_cast : IntType → ℤ → ℤ
static_cast T z = let m = 2 ^ (T.size * 8) in of_bits T ((pos_part z + (m - neg_part z % m)) % m)

pub data DstRange : Type 0 where
  overlaps_range contains_range : DstRange

abbrev contains_if : Bool → DstRange
contains_if b = if b then contains_range else overlaps_range

-- The four specialisations, by the signs of the target and of the source.
range_by_sign : Bool → Bool → IntType → IntType → DstRange
range_by_sign true true dst src = contains_if (leb (src.size * 8 - 1) (dst.size * 8 - 1))
range_by_sign false false dst src = contains_if (leb src.size dst.size)
range_by_sign true false dst src = contains_if (leb (src.size * 8) (dst.size * 8 - 1))
range_by_sign false true dst src = overlaps_range

pub static_range_check : IntType → IntType → DstRange
unfolding range_by_sign
static_range_check dst src = range_by_sign dst.is_signed src.is_signed dst src

pub data RangeCheckResult : Type 0 where
  type_valid type_underflow type_overflow type_invalid : RangeCheckResult

-- `|` of the two codes.
pub range_check_result : Bool → Bool → RangeCheckResult
range_check_result true true = type_valid
range_check_result true false = type_underflow
range_check_result false true = type_overflow
range_check_result false false = type_invalid

-- The checks at run time. In each, `value` and the bounds are compared in the source's type.
check_signed_to_signed : IntType → IntType → ℤ → RangeCheckResult
check_signed_to_signed dst src value =
    range_check_result (leb_ℤ value (static_cast src (type_max dst)))
      (leb_ℤ (static_cast src (type_min dst)) value)

check_unsigned_to_unsigned : IntType → IntType → ℤ → RangeCheckResult
check_unsigned_to_unsigned dst src value =
    range_check_result (leb_ℤ value (static_cast src (type_max dst))) true

check_unsigned_to_signed : IntType → IntType → ℤ → RangeCheckResult
check_unsigned_to_signed dst src value =
    if ltb src.size dst.size
    then type_valid
    else range_check_result (leb_ℤ value (static_cast src (type_max dst))) true

check_signed_to_unsigned : IntType → IntType → ℤ → RangeCheckResult
check_signed_to_unsigned dst src value =
    if leb (src.size * 8 - 1) (dst.size * 8)
    then range_check_result true (leb_ℤ (static_cast src (pos 0)) value)
    else range_check_result (leb_ℤ value (static_cast src (type_max dst)))
        (leb_ℤ (static_cast src (pos 0)) value)

-- `RangeCheckImpl`, by the signs of the target and of the source and by `StaticRangeCheck`.
check_by_range : DstRange → Bool → Bool → IntType → IntType → ℤ → RangeCheckResult
check_by_range contains_range _ _ dst src value = type_valid
check_by_range overlaps_range true true dst src value = check_signed_to_signed dst src value
check_by_range overlaps_range false false dst src value = check_unsigned_to_unsigned dst src value
check_by_range overlaps_range true false dst src value = check_unsigned_to_signed dst src value
check_by_range overlaps_range false true dst src value = check_signed_to_unsigned dst src value

pub range_check : IntType → IntType → ℤ → RangeCheckResult
unfolding check_by_range
range_check dst src value =
    check_by_range (static_range_check dst src) dst.is_signed src.is_signed dst src value

abbrev pub is_type_valid : RangeCheckResult → Bool
is_type_valid type_valid = true
is_type_valid _ = false

pub is_value_in_range : IntType → IntType → ℤ → Bool
is_value_in_range dst src value = is_type_valid (range_check dst src value)

-- `none` is a failed RTC_CHECK, or RTC_FATAL.
pub checked_cast : IntType → IntType → ℤ → Option ℤ
checked_cast dst src value =
    if is_value_in_range dst src value then some (static_cast dst value) else none

abbrev saturate : RangeCheckResult → IntType → ℤ → Option ℤ
saturate type_valid dst value = some (static_cast dst value)
saturate type_underflow dst value = some (type_min dst)
saturate type_overflow dst value = some (type_max dst)
saturate type_invalid dst value = none

pub saturated_cast : IntType → IntType → ℤ → Option ℤ
saturated_cast dst src value = saturate (range_check dst src value) dst value
