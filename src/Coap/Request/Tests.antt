-- ===== src/Coap/Request/Tests.antt =====
-- Requests on concrete messages.
use anjay_lite.Base.{◌≡◌, refl, arith, List, [], ◌∷◌, get_or, false, none}
use anjay_lite.Coap.{dm_write_partial_update, format_not_defined}
use anjay_lite.Coap.Options.{Memory, CoapOption, ok, get_data, load}
use anjay_lite.Coap.Request.{
  code_post, get_uri_path, request_operation, post_operation, uri_path_loop, uri_segment, uri_error,
}
use anjay_lite.Coap.Request.Path.{get_uri_path-texts}
use anjay_lite.Utils.Numbers.{
  uint64_to_string, uint64_to_string_value_internal, digits_loop, put_digit, string_to_uint32,
  string_to_uint64, parse_digits,
}

-- "3", "0" and "13" in the Uri-Path options of a message, and a path that has no 16 bits, "65536".
abbrev path_bytes : Memory
path_bytes a = get_or (51 ∷ 48 ∷ 49 ∷ 51 ∷ 54 ∷ 53 ∷ 53 ∷ 51 ∷ 54 ∷ []) a 0

abbrev path_options : List CoapOption
path_options =
    record { payload = 0; payload_len = 1; option_number = 11 }
    ∷ record { payload = 1; payload_len = 1; option_number = 11 }
    ∷ record { payload = 2; payload_len = 2; option_number = 11 }
    ∷ record { payload = 0; payload_len = 1; option_number = 12 }
    ∷ []

get_uri_path-texts_example : get_uri_path path_bytes path_options ≡ ok (3 ∷ 0 ∷ 13 ∷ [], false)
unfolding load uint64_to_string uint64_to_string_value_internal digits_loop put_digit
get_uri_path-texts_example =
    get_uri_path-texts path_bytes path_options (3 ∷ 0 ∷ 13 ∷ []) refl
      (omega arith, (omega arith, (omega arith, tt))) (omega arith) (omega arith)

-- The identifier 65536 is read as 0.
truncated_test :
    get_uri_path path_bytes (record { payload = 4; payload_len = 5; option_number = 11 } ∷ [])
    ≡ ok (0 ∷ [], false)
unfolding get_uri_path uri_path_loop uri_segment uri_error get_data load string_to_uint32
    string_to_uint64 parse_digits
truncated_test = refl

partial_update :
    request_operation code_post format_not_defined format_not_defined (3 ∷ 0 ∷ []) false none
    ≡ ok dm_write_partial_update
unfolding request_operation post_operation
partial_update = refl
