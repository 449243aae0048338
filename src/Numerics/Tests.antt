-- ===== src/Numerics/Tests.antt =====
-- Runs of the conversions.
use rtc_base.Common.{◌≡◌, refl, true, false, some, arith}
use rtc_base.Common.Int.{negsuc}
use rtc_base.Numerics.{
  IntType, type_min, type_max, max_exponent, static_cast, range_check, type_underflow,
  static_range_check, check_signed_to_unsigned, range_check_result, saturated_cast,
}
use rtc_base.Numerics.Range.{Holds, range_check-classify}
use rtc_base.Numerics.Casts.{saturated_cast-clamp_to}

abbrev int16 : IntType
int16 = record { is_signed = true; size = 2 }

abbrev uint8 : IntType
uint8 = record { is_signed = false; size = 1 }

abbrev int8 : IntType
int8 = record { is_signed = true; size = 1 }

held : Holds int16 (negsuc 299)
unfolding type_min type_max max_exponent
held = omega arith

negative_to_unsigned : range_check uint8 int16 (negsuc 299) ≡ type_underflow
unfolding range_check static_range_check check_signed_to_unsigned range_check_result static_cast
    max_exponent type_max
negative_to_unsigned = refl

range_check-classify_example : range_check uint8 int16 (negsuc 299) ≡ type_underflow
unfolding type_min
range_check-classify_example =
    range_check-classify uint8 int16 (negsuc 299) (omega arith) (omega arith) held

saturated_cast-clamp_to_example : saturated_cast int8 int16 (negsuc 299) ≡ some (negsuc 127)
unfolding type_min type_max max_exponent
saturated_cast-clamp_to_example =
    saturated_cast-clamp_to int8 int16 (negsuc 299) (omega arith) (omega arith) held

abbrev int32 : IntType
int32 = record { is_signed = true; size = 4 }

abbrev uint32 : IntType
uint32 = record { is_signed = false; size = 4 }
