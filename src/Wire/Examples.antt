-- ===== src/Wire/Examples.antt =====
-- Concrete reads, and the theorems about length-encoded values at them.
use database_flashback.Base.{
  ◌≤◌, ◌≡◌, refl, arith, [], ◌∷◌, ◌++◌, Bytes, text, true, panic, err, unexpected_eof,
}
use database_flashback.Wire.{
  got, parse_event_header, length_encoded_int, length_encoded_string, null_terminated_string,
  is_bit_set, bitmap_byte_size, pop_count, read_uint_be, big_endian, little_endian,
}
use database_flashback.Wire.Layout.{le_bytes}
use database_flashback.Wire.Packed.{encode_length, length_encoded_int-encode_length}
use database_flashback.Wire.Bitmap.{pop_count-le}

abbrev hostile : Bytes
hostile = 0xfe ∷ 0xff ∷ 0xff ∷ 0xff ∷ 0xff ∷ 0xff ∷ 0xff ∷ 0xff ∷ 0xff ∷ []

header_short : parse_event_header hostile ≡ err unexpected_eof
unfolding parse_event_header
header_short = refl

bits :
    (is_bit_set (0x05 ∷ []) 2 ≡ true)
    × (pop_count (0x05 ∷ 0x01 ∷ []) 9 ≡ 3)
    × (bitmap_byte_size 9 ≡ 2)
unfolding is_bit_set pop_count bitmap_byte_size
bits = (refl, refl, refl)

packed_big_endian : read_uint_be (1 ∷ 2 ∷ 3 ∷ []) 0 3 ≡ got 0x010203 3
unfolding read_uint_be big_endian
packed_big_endian = refl

name_read : null_terminated_string (text "ab" ++ (0 ∷ 9 ∷ [])) 0 ≡ got (text "ab") 3
unfolding null_terminated_string
name_read = refl

length_encoded_int-encode_length_example :
    length_encoded_int (9 ∷ 0xfc ∷ 0x2c ∷ 0x01 ∷ 7 ∷ []) 1 ≡ got 300 4
unfolding encode_length le_bytes
length_encoded_int-encode_length_example =
    length_encoded_int-encode_length (9 ∷ []) 300 (7 ∷ []) (omega arith)

hostile_panics : length_encoded_string hostile 0 ≡ panic
unfolding length_encoded_string little_endian
hostile_panics = refl

pop_count-le_example : pop_count (0x05 ∷ []) 8 ≤ 8
pop_count-le_example = pop_count-le (0x05 ∷ []) 8
