-- ===== src/BitBuffer/Tests.antt =====
-- Runs of bit_buffer.cc on concrete bytes.
use rtc_base.Common.{true, some, ℕ, ◌≡◌, refl, List, [], ◌∷◌, arith}
use rtc_base.BitBuffer.Stream.{to_bits, value, stream}
use rtc_base.BitBuffer.Reader.{Buffer, read, read_bits, seek}
use rtc_base.BitBuffer.Writer.{write_bits}
use rtc_base.BitBuffer.Overwrite.{IsOverwritten, write_bits_lem}
use rtc_base.BitBuffer.RoundTrip.{write_bits-read_bits}
use rtc_base.BitBuffer.Byte.{count_bits}
use rtc_base.BitBuffer.Golomb.{read_exponential_golomb, write_exponential_golomb}
use rtc_base.BitBuffer.GolombRoundTrip.{write_exponential_golomb-read}
use rtc_base.BitBuffer.NonSymmetric.{min_bits_values, size_non_symmetric_bits}
use rtc_base.BitBuffer.NonSymmetricTrip.{IsReadBack, write_non_symmetric-read}
use rtc_base.BitBuffer.Peek.{IsValid, bits_left}
use rtc_base.BitBuffer.Read.{read_bits_lem}

abbrev three_bytes : List ℕ
three_bytes = 0xab ∷ 0xcd ∷ 0xef ∷ []

abbrev at_bit_3 : Buffer
at_bit_3 = record { bytes = three_bytes; byte_count = 3; byte_offset = 0; bit_offset = 3 }

at_bit_3-IsValid : IsValid at_bit_3
at_bit_3-IsValid = record {
  all_bytes = (omega arith, (omega arith, (omega arith, tt)));
  counted = refl;
  small = omega arith;
  bit = omega arith;
  within = omega arith;
}

read_bits_lem_example :
    ((read_bits 9 at_bit_3).0 ≡ read 0b010111100)
    × (bits_left (read_bits 9 at_bit_3).1 ≡ to_bits 12 0xdef)
    × IsValid (read_bits 9 at_bit_3).1
unfolding bits_left stream to_bits value
read_bits_lem_example = read_bits_lem 9 at_bit_3-IsValid (omega arith) (omega arith) (omega arith)

write_bits_lem_example :
    (r' : Buffer) × (write_bits 0x5a5 9 at_bit_3 ≡ some (true, r'))
    × IsOverwritten 9 0x5a5 at_bit_3 r'
unfolding bits_left stream to_bits
write_bits_lem_example =
    write_bits_lem 9 0x5a5 at_bit_3-IsValid (omega arith) (omega arith) (omega arith)

write_bits-read_bits_example :
    (r' : Buffer) × (write_bits 0x5a5 9 at_bit_3 ≡ some (true, r'))
    × ((seek 0 3 r').0 ≡ true)
    × ((read_bits 9 (seek 0 3 r').1).0 ≡ read 0x1a5)
unfolding bits_left stream to_bits
write_bits-read_bits_example =
    write_bits-read_bits 9 0x5a5 at_bit_3-IsValid (omega arith) (omega arith) (omega arith)

write_exponential_golomb-read_example :
    (r' : Buffer) × (write_exponential_golomb 5 at_bit_3 ≡ some (true, r'))
    × ((seek 0 3 r').0 ≡ true)
    × ((read_exponential_golomb (seek 0 3 r').1).0 ≡ read 5)
unfolding bits_left stream to_bits count_bits
write_exponential_golomb-read_example =
    write_exponential_golomb-read 5 at_bit_3-IsValid (omega arith) (omega arith)

write_non_symmetric-read_example : (r' : Buffer) × IsReadBack 3 5 3 at_bit_3 r'
unfolding bits_left stream to_bits count_bits size_non_symmetric_bits min_bits_values
write_non_symmetric-read_example =
    write_non_symmetric-read 3 5 3 at_bit_3-IsValid (omega arith) (omega arith) (omega arith) refl
      (omega arith)

-- Two zeros and a one, of a code of five bits.
abbrev cut_short : Buffer
cut_short = record { bytes = 0x21 ∷ []; byte_count = 1; byte_offset = 0; bit_offset = 5 }

cut_short-IsValid : IsValid cut_short
cut_short-IsValid = record {
  all_bytes = (omega arith, tt);
  counted = refl;
  small = omega arith;
  bit = omega arith;
  within = omega arith;
}
