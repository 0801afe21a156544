-- ===== src/Io/Cbor.antt =====
-- src/anj/io/cbor_encoder_ll.c and src/anj/io/internal.h: the low-level CBOR encoder. A function
-- returns the bytes that it writes; the C function returns their number.
pub mod Decoder
pub mod Number
pub mod Pending
pub mod Bytes
pub mod Parsing
pub mod Header
pub mod Nesting
pub mod Entering
pub mod Arrays
pub mod Rounds
pub mod RoundTrip
mod Tests
use anjay_lite.Base.{
  ℕ, zero, suc, ◌+◌, ◌-◌, ◌*◌, ◌/◌, ◌%◌, ◌^◌, Bool, ltb, leb, List, [], ◌∷◌, ◌++◌, if◌then◌else◌,
}
use anjay_lite.Base.Int.{ℤ, pos, negsuc}

-- `cbor_major_type_t`
pub data MajorType : Type 0 where
  type_uint type_negative_int type_byte_string type_text_string type_array type_map : MajorType
  type_tag type_float_or_simple_value : MajorType

abbrev pub major_code : MajorType → ℕ
major_code type_uint = 0
major_code type_negative_int = 1
major_code type_byte_string = 2
major_code type_text_string = 3
major_code type_array = 4
major_code type_map = 5
major_code type_tag = 6
major_code type_float_or_simple_value = 7

-- CBOR_EXT_LENGTH_1BYTE and its successors, and CBOR_EXT_LENGTH_INDEFINITE
abbrev pub ext_length_1byte : ℕ
ext_length_1byte = 24

abbrev pub ext_length_2byte : ℕ
ext_length_2byte = 25

abbrev pub ext_length_4byte : ℕ
ext_length_4byte = 26

abbrev pub ext_length_8byte : ℕ
ext_length_8byte = 27

abbrev pub ext_length_indefinite : ℕ
ext_length_indefinite = 31

-- CBOR_INDEFINITE_STRUCTURE_BREAK
abbrev pub structure_break : ℕ
structure_break = 0xff

-- The bytes of `_anj_convert_be16`, `_be32` and `_be64` in memory: the most significant one first
unfoldable pub be_bytes : (size value : ℕ) → List ℕ
be_bytes zero value = []
be_bytes (suc size) value = be_bytes size (value / 2 ^ 8) ++ ((value % 2 ^ 8) ∷ [])

-- `write_cbor_header`; the bits of the two parts do not overlap.
abbrev pub write_cbor_header : MajorType → ℕ → List ℕ
write_cbor_header major value = (major_code major * 2 ^ 5 + value) ∷ []

unfoldable pub encode_type_and_number : MajorType → ℕ → List ℕ
unfolding be_bytes
encode_type_and_number major value =
    if ltb value 24
    then write_cbor_header major value
    else if leb value (2 ^ 8 - 1)
    then write_cbor_header major ext_length_1byte ++ be_bytes 1 value
    else if leb value (2 ^ 16 - 1)
    then write_cbor_header major ext_length_2byte ++ be_bytes 2 value
    else if leb value (2 ^ 32 - 1)
    then write_cbor_header major ext_length_4byte ++ be_bytes 4 value
    else write_cbor_header major ext_length_8byte ++ be_bytes 8 value

unfoldable pub encode_uint : ℕ → List ℕ
unfolding encode_type_and_number
encode_uint value = encode_type_and_number type_uint value

-- -(value + 1) of a negative number is the number that `negsuc` carries.
unfoldable pub encode_int : ℤ → List ℕ
unfolding encode_uint encode_type_and_number
encode_int (pos n) = encode_uint n
encode_int (negsuc n) = encode_type_and_number type_negative_int n

-- CBOR_VALUE_BOOL_FALSE and CBOR_VALUE_BOOL_TRUE
abbrev pub encode_bool : Bool → List ℕ
encode_bool value = write_cbor_header type_float_or_simple_value (if value then 21 else 20)

unfoldable pub encode_tag : ℕ → List ℕ
unfolding encode_type_and_number
encode_tag value = encode_type_and_number type_tag value

unfoldable pub string_begin : ℕ → List ℕ
unfolding encode_type_and_number
string_begin size = encode_type_and_number type_text_string size

unfoldable pub bytes_begin : ℕ → List ℕ
unfolding encode_type_and_number
bytes_begin size = encode_type_and_number type_byte_string size

unfoldable pub definite_map_begin : ℕ → List ℕ
unfolding encode_type_and_number
definite_map_begin items_count = encode_type_and_number type_map items_count

unfoldable pub definite_array_begin : ℕ → List ℕ
unfolding encode_type_and_number
definite_array_begin items_count = encode_type_and_number type_array items_count

abbrev pub indefinite_map_begin : List ℕ
indefinite_map_begin = write_cbor_header type_map ext_length_indefinite

abbrev pub indefinite_record_end : List ℕ
indefinite_record_end = structure_break ∷ []
