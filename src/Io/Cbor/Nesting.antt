-- ===== src/Io/Cbor/Nesting.antt =====
-- src/anj/io/cbor_decoder_ll.c: arrays and maps, and the level of nesting.
use anjay_lite.Base.{
  ℕ, ◌-◌, ◌*◌, ◌/◌, ◌^◌, Bool, ◌||◌, not, ◌==◌, ltb, ◌∷◌, Option, none, some, true, false,
  if◌then◌else◌, length,
}
use anjay_lite.Io.Cbor.{ext_length_indefinite}
use anjay_lite.Io.Cbor.Decoder.{
  Decoder, state_ok, ValueType, value_array, Decoded, value, want_next_payload, err_format,
  err_logic, eof, get_additional_info, set_error, is_map, ensure_value_or_error_available,
}
use anjay_lite.Io.Cbor.Number.{parse_uint, consumed, with_value}

-- `parse_size` and `parse_ptrdiff`, where a `size_t` has 64 bits; the number read is at most SIZE_MAX.
unfoldable pub parse_ptrdiff : Decoder → Decoder × Decoded ℕ
unfolding parse_uint
parse_ptrdiff d =
    let r = parse_uint d in
    elim (r.1) [
      | value n ↦ if ltb (2 ^ 63 - 1) n then (r.0, err_format) else (r.0, value n)
      | _ ↦ r
    ]

abbrev pub push : Decoder → ValueType → Option ℕ → Decoder
push d type all_items = record d {
  nest_stack =
      record { nested_type = type; total = 0; odd = false; all_items = all_items } ∷ d.nest_stack;
}

-- "A map contains (key, value) pairs": the items of a map are twice as many, unless they are more than
-- PTRDIFF_MAX.
abbrev pub items_of : ValueType → ℕ → Option ℕ
items_of type n =
    if is_map type then if ltb ((2 ^ 63 - 1) / 2) n then none else some (n * 2) else some n

-- `nested_state_push` of an array or a map, with ANJ_CBOR_LL_DECODER_ITEMS_INDEFINITE as `none`
unfoldable pub nested_state_push :
    (max_nest_stack_size : ℕ) → Decoder → Decoder × Decoded (Option ℕ)
unfolding parse_ptrdiff
nested_state_push max d =
    let r = parse_ptrdiff d in
    if length d.nest_stack == max
    then (set_error d, err_format)
    else if get_additional_info d.initial_byte == ext_length_indefinite
    then (push d d.value_type none, value none)
    else elim (r.1) [
      | value n ↦ elim (items_of d.value_type n) [
        | none ↦ (set_error r.0, err_format)
        | some all ↦ (push r.0 d.value_type (some all), value (some all))
      ]
      | want_next_payload ↦ (r.0, want_next_payload)
      | err_format ↦ (set_error r.0, err_format)
      | err_logic ↦ (set_error r.0, err_logic)
      | eof ↦ (set_error r.0, eof)
    ]

abbrev pub is_array : ValueType → Bool
is_array value_array = true
is_array _ = false

-- What is done where the item has the right type
unfoldable pub enter :
    (max_nest_stack_size : ℕ) → (right_type : Bool) → Decoder → Decoder × Decoded (Option ℕ)
unfolding nested_state_push
enter max right_type c =
    let r = nested_state_push max c in
    if c.epoch_based_time || not right_type
    then (c, err_format)
    else elim (r.1) [ value all ↦ (consumed r.0, value all) | _ ↦ r ]

-- `anj_cbor_ll_decoder_enter_array`: the number of items, or `none` of an indefinite array
unfoldable pub enter_array : (max_nest_stack_size : ℕ) → Decoder → Decoder × Decoded (Option ℕ)
unfolding with_value ensure_value_or_error_available enter
enter_array max d =
    with_value (ensure_value_or_error_available d) (λ c. enter max (is_array c.value_type) c)

-- "*out_pair_count /= 2"
abbrev pub half : Option ℕ → Option ℕ
half none = none
half (some n) = some (n / 2)

abbrev pub halved : Decoder × Decoded (Option ℕ) → Decoder × Decoded (Option ℕ)
halved r = elim (r.1) [ value all ↦ (r.0, value (half all)) | _ ↦ r ]

-- `anj_cbor_ll_decoder_enter_map`: the number of pairs
unfoldable pub enter_map : (max_nest_stack_size : ℕ) → Decoder → Decoder × Decoded (Option ℕ)
unfolding with_value ensure_value_or_error_available enter
enter_map max d =
    halved (with_value (ensure_value_or_error_available d) (λ c. enter max (is_map c.value_type) c))

-- `anj_cbor_ll_decoder_nesting_level`
unfoldable pub nesting_level : Decoder → Decoder × Decoded ℕ
unfolding ensure_value_or_error_available
nesting_level d =
    let available = ensure_value_or_error_available d in
    let c = available.0 in
    if available.1
    then (c, want_next_payload)
    else elim c.state [ state_ok ↦ (c, value (length c.nest_stack)) | _ ↦ (c, value 0) ]
