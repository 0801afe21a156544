-- ===== src/Io/Cbor/Number.antt =====
-- src/anj/io/cbor_decoder_ll.c: the functions that take a number or a simple value.
use anjay_lite.Base.{
  ℕ, ◌+◌, ◌*◌, ◌^◌, Bool, true, false, ◌||◌, ◌==◌, ltb, leb, List, [], ◌∷◌, if◌then◌else◌, length,
  take, drop,
}
use anjay_lite.Base.Int.{pos, negsuc}
use anjay_lite.Io.Cbor.{ext_length_1byte}
use anjay_lite.Io.Cbor.Decoder.{
  Decoder, state_ok, state_finished, state_error, ValueType, value_uint, value_negative_int,
  value_float, value_double, value_bool, value_timestamp, Number, integer, float, double, Decoded,
  value, want_next_payload, err_format, err_logic, eof, fill_prebuffer, get_additional_info,
  ext_length_size, set_error, ensure_value_or_error_available,
}

-- The value of bytes, the most significant one first
unfoldable pub from_be : (high : ℕ) → List ℕ → ℕ
from_be high [] = high
from_be high (b ∷ bs) = from_be (high * 2 ^ 8 + b) bs

-- `parse_uint`
unfoldable pub parse_uint : Decoder → Decoder × Decoded ℕ
unfolding fill_prebuffer from_be
parse_uint d =
    let size = ext_length_size d.initial_byte in
    let info = get_additional_info d.initial_byte in
    let filled = fill_prebuffer d size in
    if size == 0
    then if leb ext_length_1byte info then (set_error d, err_format) else (d, value info)
    else if filled.1
    then (filled.0, want_next_payload)
    else if ltb (length filled.0.prebuffer) size
    then (set_error filled.0, err_format)
    else (
      record filled.0 { prebuffer = drop size filled.0.prebuffer },
      value (from_be 0 (take size filled.0.prebuffer)),
    )

abbrev pub consumed : Decoder → Decoder
consumed d = record d { needs_preprocessing = true; after_tag = false }

-- `decode_uint`: the item is also consumed where an error is returned.
unfoldable pub decode_uint : Decoder → Decoder × Decoded Number
unfolding parse_uint
decode_uint d =
    let r = parse_uint d in
    elim (r.1) [
      | value v ↦ (consumed r.0, value (integer (pos v)))
      | want_next_payload ↦ (r.0, want_next_payload)
      | err_format ↦ (consumed r.0, err_format)
      | err_logic ↦ (consumed r.0, err_logic)
      | eof ↦ (consumed r.0, eof)
    ]

-- `decode_negative_int`
unfoldable pub decode_negative_int : Decoder → Decoder × Decoded Number
unfolding parse_uint
decode_negative_int d =
    let r = parse_uint d in
    elim (r.1) [
      | value v ↦
          if leb (2 ^ 63) v
          then (set_error r.0, err_format)
          else (consumed r.0, value (integer (negsuc v)))
      | want_next_payload ↦ (r.0, want_next_payload)
      | err_format ↦ (r.0, err_format)
      | err_logic ↦ (r.0, err_logic)
      | eof ↦ (r.0, eof)
    ]

-- `decode_float`, without half floats
unfoldable pub decode_float : Decoder → Decoder × Decoded Number
unfolding fill_prebuffer from_be
decode_float d =
    let filled = fill_prebuffer d 4 in
    let c = filled.0 in
    if filled.1
    then (c, want_next_payload)
    else if ltb (length c.prebuffer) 4
    then (set_error c, err_format)
    else (
      consumed (record c { prebuffer = drop 4 c.prebuffer }),
      value (float (from_be 0 (take 4 c.prebuffer))),
    )

-- `decode_double`, without decimal fractions
unfoldable pub decode_double : Decoder → Decoder × Decoded Number
unfolding fill_prebuffer from_be
decode_double d =
    let filled = fill_prebuffer d 8 in
    let c = filled.0 in
    if filled.1
    then (c, want_next_payload)
    else if ltb (length c.prebuffer) 8
    then (consumed (set_error c), err_format)
    else (
      consumed (record c { prebuffer = drop 8 c.prebuffer }),
      value (double (from_be 0 (take 8 c.prebuffer))),
    )

-- The result of a function that needs a value: the codes where there is none
unfoldable pub with_value :
    {A : Type 0} → Decoder × Bool → (Decoder → Decoder × Decoded A) → Decoder × Decoded A
with_value available f =
    let c = available.0 in
    if available.1 then (c, want_next_payload) else elim c.state [
      | state_finished ↦ (c, err_logic)
      | state_error ↦ (c, err_format)
      | state_ok ↦ f c
    ]

-- The branches of `decode_simple_number` on the type of the value
unfoldable pub decode_by_type : Decoder → Decoder × Decoded Number
unfolding decode_uint decode_negative_int decode_float decode_double
decode_by_type c = elim c.value_type [
  | value_uint ↦ decode_uint c
  | value_negative_int ↦ decode_negative_int c
  | value_float ↦ decode_float c
  | value_double ↦ decode_double c
  | _ ↦ (c, err_format)
]

unfoldable pub decode_simple_number : Decoder → Decoder × Decoded Number
unfolding with_value ensure_value_or_error_available decode_by_type
decode_simple_number d = with_value (ensure_value_or_error_available d) decode_by_type

-- `decode_timestamp`, of an epoch-based time
unfoldable pub decode_timestamp : Decoder → Decoder × Decoded Number
unfolding decode_simple_number
decode_timestamp d =
    let inside =
      if d.epoch_based_time
      then d
      else record d { epoch_based_time = true; needs_preprocessing = true; after_tag = true } in
    let r = decode_simple_number inside in
    elim (r.1) [ value v ↦ (record (r.0) { epoch_based_time = false }, value v) | _ ↦ r ]

abbrev pub is_timestamp : ValueType → Bool
is_timestamp value_timestamp = true
is_timestamp _ = false

abbrev pub number_or_time : Decoder → Decoder × Decoded Number
number_or_time c =
    if c.epoch_based_time || is_timestamp c.value_type
    then decode_timestamp c
    else decode_simple_number c

-- `anj_cbor_ll_decoder_number`
unfoldable pub decoder_number : Decoder → Decoder × Decoded Number
unfolding with_value ensure_value_or_error_available decode_timestamp decode_simple_number
decoder_number d = with_value (ensure_value_or_error_available d) number_or_time

abbrev pub bool_value : Decoder → Decoder × Decoded Bool
bool_value c = if c.epoch_based_time then (c, err_format) else elim c.value_type [
  | value_bool ↦ (consumed c, value (get_additional_info c.initial_byte == 21))
  | _ ↦ (c, err_format)
]

-- `anj_cbor_ll_decoder_bool`
unfoldable pub decoder_bool : Decoder → Decoder × Decoded Bool
unfolding with_value ensure_value_or_error_available
decoder_bool d = with_value (ensure_value_or_error_available d) bool_value

-- `anj_cbor_ll_decoder_errno`; a value is the 0 of the C function.
unfoldable pub decoder_errno : Decoder → Decoder × Decoded Bool
unfolding ensure_value_or_error_available
decoder_errno d =
    let available = ensure_value_or_error_available d in
    let c = available.0 in
    if available.1 then (c, want_next_payload) else elim c.state [
      | state_ok ↦ (c, value true)
      | state_finished ↦ (c, eof)
      | state_error ↦ (c, err_format)
    ]
