-- ===== src/Io/Cbor/Decoder.antt =====
-- src/anj/io/cbor_decoder_ll.c: the low-level CBOR decoder, for numbers, simple values, arrays and
-- maps. A definition returns the context as it is left, with the result.
use anjay_lite.Base.{
  ℕ, zero, suc, ◌+◌, ◌-◌, ◌/◌, ◌%◌, ◌^◌, Bool, true, false, not, ◌&&◌, ◌||◌, ◌==◌, ltb, leb, List,
  [], ◌∷◌, ◌++◌, Option, none, some, if◌then◌else◌, length, take, drop,
}
use anjay_lite.Base.Int.{ℤ}
use anjay_lite.Io.Cbor.{
  ext_length_1byte, ext_length_2byte, ext_length_4byte, ext_length_8byte, structure_break,
}

-- `_anj_cbor_ll_decoder_state_t`
pub data DecoderState : Type 0 where
  state_ok state_finished state_error : DecoderState

-- `_anj_cbor_ll_value_type_t`
pub data ValueType : Type 0 where
  value_null value_uint value_negative_int value_byte_string value_text_string value_array :
      ValueType
  value_map value_float value_double value_bool value_timestamp : ValueType

-- `_anj_cbor_ll_nested_state_t`; the items of a structure of definite length are counted, of an
-- indefinite one (`none`) only whether their number is odd.
pub record Nested : Type 0 where
  pub nested_type : ValueType
  pub total : ℕ
  pub odd : Bool
  pub all_items : Option ℕ

-- `_anj_cbor_ll_decoder_t` with no subparser but the one of the epoch-based time: `input` are the bytes up to `input_end`, and
-- `prebuffer` those between its offset and its size. The top of the stack comes first.
pub record Decoder : Type 0 where
  pub input : List ℕ
  pub input_last : Bool
  pub prebuffer : List ℕ
  pub state : DecoderState
  pub needs_preprocessing : Bool
  pub after_tag : Bool
  pub value_type : ValueType
  pub initial_byte : ℕ
  pub nest_stack : List Nested
  pub epoch_based_time : Bool

-- `_anj_cbor_ll_number_t`; a floating-point number is given by its bits.
pub data Number : Type 0 where
  integer : ℤ → Number
  float double : (bits : ℕ) → Number

-- What a function of the decoder returns: a value, or a code
pub data Decoded (A : Type 0) : Type 0 where
  value : A → Decoded A
  want_next_payload err_format err_logic eof : Decoded A

abbrev pub prebuffer_length : ℕ
prebuffer_length = 9

abbrev pub decoder_init : Decoder
decoder_init = record {
  input = [];
  input_last = false;
  prebuffer = [];
  state = state_ok;
  needs_preprocessing = true;
  after_tag = false;
  value_type = value_null;
  initial_byte = 0;
  nest_stack = [];
  epoch_based_time = false;
}

-- `anj_cbor_ll_decoder_feed_payload`; `none` is _ANJ_IO_ERR_LOGIC.
unfoldable pub feed_payload : Decoder → List ℕ → (payload_finished : Bool) → Option Decoder
feed_payload d buff payload_finished =
    if not (length d.input == 0) || d.input_last
    then none
    else some (record d { input = buff; input_last = payload_finished })

-- `fill_prebuffer`; `true` is _ANJ_IO_WANT_NEXT_PAYLOAD.
unfoldable pub fill_prebuffer : Decoder → (min_size : ℕ) → Decoder × Bool
fill_prebuffer d min_size =
    if leb min_size (length d.prebuffer)
    then (d, false)
    else (let room = prebuffer_length - length d.prebuffer in
        let filled = d.prebuffer ++ take room d.input in
        (
          record d { prebuffer = filled; input = drop room d.input },
          ltb (length filled) min_size && not d.input_last,
        ))

abbrev pub get_major_type : ℕ → ℕ
get_major_type initial_byte = initial_byte / 2 ^ 5

abbrev pub get_additional_info : ℕ → ℕ
get_additional_info initial_byte = initial_byte % 2 ^ 5

-- `parse_ext_length_size`
abbrev pub ext_length_size : (initial_byte : ℕ) → ℕ
ext_length_size initial_byte =
    let info = get_additional_info initial_byte in
    if info == ext_length_1byte
    then 1
    else if info == ext_length_2byte
    then 2
    else if info == ext_length_4byte
    then 4
    else if info == ext_length_8byte
    then 8
    else 0

abbrev pub set_error : Decoder → Decoder
set_error d = record d { state = state_error }

abbrev pub is_value : Decoder → ValueType → Decoder
is_value d t = record d { value_type = t }

-- `handle_header_for_float_or_simple_value`, without half floats
unfoldable pub handle_header_for_float_or_simple_value : Decoder → Decoder
handle_header_for_float_or_simple_value d =
    let info = get_additional_info d.initial_byte in
    if info == 20 || info == 21
    then is_value d value_bool
    else if info == 22
    then is_value d value_null
    else if info == ext_length_4byte
    then is_value d value_float
    else if info == ext_length_8byte
    then is_value d value_double
    else set_error d

-- `ignore_tag`
unfoldable pub ignore_tag : Decoder → Decoder
ignore_tag d =
    let size = ext_length_size d.initial_byte in
    if ltb (length d.prebuffer) size
    then set_error d
    else record d { prebuffer = drop size d.prebuffer }

-- A structure of definite length whose items are all parsed
abbrev pub is_complete : Nested → Bool
is_complete n = elim n.all_items [ none ↦ false | some all ↦ all == n.total ]

abbrev pub is_indefinite : Nested → Bool
is_indefinite n = elim n.all_items [ none ↦ true | some all ↦ false ]

-- The loop that pops the structures whose items are all parsed
unfoldable pub pop_complete : List Nested → List Nested
pop_complete [] = []
pop_complete (n ∷ ns) = let rest = pop_complete ns in if is_complete n then rest else n ∷ ns

abbrev pub is_map : ValueType → Bool
is_map value_map = true
is_map _ = false

-- The end of an indefinite structure
unfoldable pub handle_break : Decoder → Decoder
handle_break d = elim d.nest_stack [
  | [] ↦ set_error d
  | n ∷ ns ↦
      if is_indefinite n && (not (is_map n.nested_type) || not n.odd)
      then record d { nest_stack = ns }
      else set_error d
]

-- The branches on the major type of a header that is no tag
unfoldable pub handle_header : Decoder → Decoder
unfolding handle_header_for_float_or_simple_value
handle_header d =
    let major = get_major_type d.initial_byte in
    if major == 0
    then is_value d value_uint
    else if major == 1
    then is_value d value_negative_int
    else if major == 2
    then is_value d value_byte_string
    else if major == 3
    then is_value d value_text_string
    else if major == 4
    then is_value d value_array
    else if major == 5
    then is_value d value_map
    else handle_header_for_float_or_simple_value d

abbrev pub count_item : List Nested → List Nested
count_item [] = []
count_item (n ∷ ns) =
    (if is_indefinite n then record n { odd = not n.odd } else record n { total = n.total + 1 })
    ∷ ns

abbrev pub is_ok : DecoderState → Bool
is_ok state_ok = true
is_ok _ = false

-- The end of `preprocess_next_value`
unfoldable pub finish_preprocessing : Decoder → Decoder
finish_preprocessing d =
    if is_ok d.state && not (get_major_type d.initial_byte == 6)
    then record d { nest_stack = count_item d.nest_stack }
    else d

-- The end of the input
unfoldable pub handle_eof : Decoder → Decoder
handle_eof d =
    if d.after_tag || not (length d.nest_stack == 0)
    then set_error d
    else record d { state = state_finished }

-- A round of the loop that has read a byte: the item is done, or the next round goes on (`none`).
unfoldable pub handle_byte : Decoder → (byte : ℕ) → Decoder × Bool
unfolding handle_break handle_header ignore_tag finish_preprocessing
handle_byte d byte =
    let item = record d { initial_byte = byte } in
    if byte == structure_break
    then (handle_break d, false)
    else if not (get_major_type byte == 6)
    then (finish_preprocessing (record (handle_header item) { needs_preprocessing = false }), true)
    else if get_additional_info byte == 1
    then if d.epoch_based_time
      then (set_error item, true)
      else (record item { value_type = value_timestamp; needs_preprocessing = false }, true)
    else (record (ignore_tag item) { after_tag = true }, false)

-- `preprocess_next_value`: the context, and whether it is _ANJ_IO_WANT_NEXT_PAYLOAD. A round reads a
-- byte or is the last one.
unfoldable pub preprocess_next_value : (rounds : ℕ) → Decoder → Decoder × Bool
unfolding fill_prebuffer pop_complete handle_eof handle_byte
preprocess_next_value zero d = (d, false)
preprocess_next_value (suc rounds) d =
    let filled = fill_prebuffer (record d { nest_stack = pop_complete d.nest_stack }) 9 in
    if not (is_ok d.state)
    then (d, false)
    else if filled.1
    then (filled.0, true)
    else elim (filled.0.prebuffer) [
      | [] ↦ (handle_eof filled.0, false)
      | byte ∷ rest ↦
          (let h = handle_byte (record filled.0 { prebuffer = rest }) byte in
            let next = preprocess_next_value rounds h.0 in if h.1 then (h.0, false) else next)
    ]

-- `ensure_value_or_error_available`
unfoldable pub ensure_value_or_error_available : Decoder → Decoder × Bool
unfolding preprocess_next_value
ensure_value_or_error_available d =
    if not (is_ok d.state) || not d.needs_preprocessing
    then (d, false)
    else preprocess_next_value (suc (length d.prebuffer + length d.input)) d
