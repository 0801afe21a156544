-- ===== src/Io/Cbor/Tests.antt =====
-- src/anj/io/cbor_encoder_ll.c and cbor_decoder_ll.c: runs on concrete numbers and arrays.
use anjay_lite.Base.{arith, ◌≡◌, refl, ℕ, ◌<◌, true, List, [], ◌∷◌, ◌++◌, length, some}
use anjay_lite.Base.Int.{ℤ, pos, negsuc}
use anjay_lite.Io.Cbor.{
  encode_int, encode_type_and_number, encode_uint, be_bytes, definite_array_begin,
}
use anjay_lite.Io.Cbor.Decoder.{
  Decoder, decoder_init, pop_complete, eof, err_format, ensure_value_or_error_available,
  preprocess_next_value,
}
use anjay_lite.Io.Cbor.Number.{decoder_number, decoder_errno}
use anjay_lite.Io.Cbor.Pending.{pending}
use anjay_lite.Io.Cbor.Header.{AtItem}
use anjay_lite.Io.Cbor.RoundTrip.{Decodes, decoder_number-encode_int}
use anjay_lite.Io.Cbor.Rounds.{is_settled, ensure_value_or_error_available_ends}
use anjay_lite.Io.Cbor.Arrays.{
  encode_array, encode_numbers, decode_array, decode_array-encode_array,
}

-- A decoder that has been fed all of a payload
abbrev fed : List ℕ → Decoder
fed buff = record decoder_init { input = buff; input_last = true }

at_item : (buff : List ℕ) → AtItem (fed buff)
at_item buff = record { ok = refl; last = refl; preprocess = refl; no_time = refl }

abbrev three_hundred : List ℕ
three_hundred = 0x19 ∷ 0x01 ∷ 0x2c ∷ 7 ∷ []

three_hundred_encoded : pending (fed three_hundred) ≡ encode_int (pos 300) ++ (7 ∷ [])
unfolding encode_int encode_uint encode_type_and_number be_bytes
three_hundred_encoded = refl

decoder_number-encode_int_example :
    Decodes (fed three_hundred) (decoder_number (fed three_hundred)) (pos 300) (7 ∷ [])
decoder_number-encode_int_example =
    decoder_number-encode_int (fed three_hundred) (pos 300) (7 ∷ []) (at_item three_hundred)
      (omega arith) three_hundred_encoded

-- [24, -1], and a byte behind it
abbrev two_numbers : List ℕ
two_numbers = 0x82 ∷ 0x18 ∷ 24 ∷ 0x20 ∷ 7 ∷ []

abbrev numbers : List ℤ
numbers = pos 24 ∷ negsuc 0 ∷ []

two_numbers_encoded : pending (fed two_numbers) ≡ encode_array numbers ++ (7 ∷ [])
unfolding encode_array encode_numbers definite_array_begin encode_int encode_uint
    encode_type_and_number be_bytes
two_numbers_encoded = refl

no_structure : length (pop_complete (fed two_numbers).nest_stack) < 4
unfolding pop_complete
no_structure = omega arith

decode_array-encode_array_example : decode_array 4 (fed two_numbers) ≡ some (numbers, 7 ∷ [])
decode_array-encode_array_example =
    decode_array-encode_array 4 (fed two_numbers) numbers (7 ∷ []) (at_item two_numbers)
      (omega arith, (omega arith, tt)) (omega arith) no_structure two_numbers_encoded

ensure_value_or_error_available_ends_example :
    (is_settled (ensure_value_or_error_available (fed two_numbers)) ≡ true)
    × (ensure_value_or_error_available (fed two_numbers)
        ≡ preprocess_next_value 9 (fed two_numbers))
ensure_value_or_error_available_ends_example =
    ensure_value_or_error_available_ends 9 (fed two_numbers) refl refl (omega arith)

-- A payload that ends behind a tag is malformed.
tag_alone : (decoder_errno (fed (0xc2 ∷ []))).1 ≡ err_format
unfolding decoder_errno
tag_alone = refl

-- The end of the input where no item is begun
nothing_left : (decoder_errno (fed [])).1 ≡ eof
unfolding decoder_errno
nothing_left = refl
