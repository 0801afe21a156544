-- ===== src/Coap/Request.antt =====
-- How a request is recognized (src/anj/coap/decode.c): its path, its observe option, its operation, and
-- whether the path suits the operation.
pub mod Operation
pub mod Path
mod Tests
use anjay_lite.Base.{
  ℕ, zero, suc, ◌+◌, ◌%◌, ◌^◌, Bool, true, false, not, ◌&&◌, ◌||◌, ◌==◌, List, [], ◌∷◌, ◌++◌,
  Option, none, some, length, if◌then◌else◌, ltb, leb,
}
use anjay_lite.Coap.{
  Op, dm_read, dm_read_comp, dm_discover, dm_write_replace, dm_write_partial_update, dm_write_attr,
  dm_write_comp, dm_execute, dm_create, dm_delete, inf_observe, inf_observe_comp,
  inf_cancel_observe, inf_cancel_observe_comp, bootstrap_finish, coap_code, bytes_equal,
  format_not_defined,
}
use anjay_lite.Coap.Options.{
  Memory, Outcome, ok, error, err_malformed_message, err_input_arg, option_missing, CoapOption,
  get_data, Error,
}
use anjay_lite.Utils.Numbers.{string_to_uint32}
use anjay_lite.Utils.UriPath.{UriPath, uri_path_has, uri_path_is}

abbrev pub option_observe : ℕ
option_observe = 6

abbrev pub option_uri_path : ℕ
option_uri_path = 11

-- `sizeof("65534")`
abbrev pub uri_path_max_len_str : ℕ
uri_path_max_len_str = 6

-- `ANJ_URI_PATH_MAX_LENGTH`
abbrev pub uri_path_max_length : ℕ
uri_path_max_length = 4

-- "bs"
abbrev pub bs : List ℕ
bs = 98 ∷ 115 ∷ []

-- What a segment of the path does, behind the test for the longest path: the path is complete, or it
-- goes on with an identifier.
pub data Segment : Type 0 where
  complete : Outcome (UriPath × Bool) → Segment
  next_id : ℕ → Segment

unfoldable pub uri_segment : UriPath → List ℕ → Segment
uri_segment uri segment =
    if length uri == uri_path_max_length
    then complete (error err_malformed_message)
    else if length uri == 0 && bytes_equal segment bs
    then complete (ok (uri, true))
    else if length segment == 0
    then (if length uri == 0
        then complete (ok (uri, false))
        else complete (error err_malformed_message))
    else elim (string_to_uint32 segment) [
      | none ↦ complete (error err_malformed_message)
      | some value ↦ next_id (value % 2 ^ 16)
    ]

-- "_RET_IF_ERROR(res)", and before it the end of a path that is not empty.
unfoldable pub uri_error : UriPath → Error → Outcome (UriPath × Bool)
uri_error uri option_missing = if length uri == 0 then error option_missing else ok (uri, false)
uri_error uri e = error e

-- The loop of `get_uri_path`, with the rounds that it may take; `segment` is the iterator.
unfoldable pub uri_path_loop :
    ℕ → Memory → List CoapOption → (segment : ℕ) → UriPath → Outcome (UriPath × Bool)
uri_path_loop zero mem opts it uri = error err_malformed_message
uri_path_loop (suc rounds) mem opts it uri =
    elim (get_data mem opts option_uri_path it uri_path_max_len_str) [
      | error e ↦ uri_error uri e
      | ok segment ↦ elim (uri_segment uri segment) [
        | complete r ↦ r
        | next_id id ↦ uri_path_loop rounds mem opts (it + 1) (uri ++ (id ∷ []))
      ]
    ]

-- `get_uri_path`: the path and `*is_bs_uri`. The round after four identifiers is the last.
unfoldable pub get_uri_path : Memory → List CoapOption → Outcome (UriPath × Bool)
get_uri_path mem opts = uri_path_loop 5 mem opts 0 []

-- Some byte is not zero.
unfoldable pub any_bit : List ℕ → Bool
any_bit [] = false
any_bit (b ∷ bs) = not (b == 0) || any_bit bs

-- `get_observe_option`: the value where the option is present
unfoldable pub get_observe_option : Memory → List CoapOption → Outcome (Option Bool)
get_observe_option mem opts = elim (get_data mem opts option_observe 0 3) [
  | error option_missing ↦ ok none
  | error e ↦ error err_malformed_message
  | ok bytes ↦ ok (some (any_bit bytes))
]

abbrev pub code_get : ℕ
code_get = coap_code 0 1

abbrev pub code_post : ℕ
code_post = coap_code 0 2

abbrev pub code_put : ℕ
code_put = coap_code 0 3

abbrev pub code_delete : ℕ
code_delete = coap_code 0 4

abbrev pub code_fetch : ℕ
code_fetch = coap_code 0 5

abbrev pub code_ipatch : ℕ
code_ipatch = coap_code 0 7

abbrev pub format_plaintext : ℕ
format_plaintext = 0

abbrev pub format_link_format : ℕ
format_link_format = 40

-- The operation of a request with the observe option, of its value, or without it.
abbrev pub by_observe : (observe : Option Bool) → (cancel begin without : Op) → Op
by_observe none cancel begin without = without
by_observe (some value) cancel begin without = if value then cancel else begin

-- "case ANJ_COAP_CODE_POST"
unfoldable pub post_operation : (content_format : ℕ) → UriPath → (is_bs_uri : Bool) → Outcome Op
post_operation format uri is_bs =
    if is_bs
    then ok bootstrap_finish
    else if uri_path_is uri 0
    then ok dm_create
    else if uri_path_is uri 1
    then ok dm_write_partial_update
    else if uri_path_is uri 2
    then (if format == format_not_defined || format == format_plaintext
        then ok dm_execute
        else ok dm_write_partial_update)
    else error err_malformed_message

-- The switch of `recognize_lwm2m_operation`.
unfoldable pub request_operation :
    (msg_code accept content_format : ℕ) → UriPath → (is_bs_uri : Bool) → Option Bool → Outcome Op
request_operation code accept format uri is_bs observe =
    if code == code_get
    then ok (
        by_observe observe inf_cancel_observe inf_observe
          (if accept == format_link_format then dm_discover else dm_read))
    else if code == code_post
    then post_operation format uri is_bs
    else if code == code_fetch
    then ok (by_observe observe inf_cancel_observe_comp inf_observe_comp dm_read_comp)
    else if code == code_put
    then (if not (format == format_not_defined) then ok dm_write_replace else ok dm_write_attr)
    else if code == code_ipatch
    then ok dm_write_comp
    else if code == code_delete
    then ok dm_delete
    else error err_malformed_message

-- `recognize_lwm2m_operation`
unfoldable pub recognize_lwm2m_operation :
    Memory
    → List CoapOption
    → (msg_code accept content_format : ℕ) → UriPath
    → (is_bs_uri : Bool) → Outcome Op
recognize_lwm2m_operation mem opts code accept format uri is_bs =
    elim (get_observe_option mem opts) [
      | error e ↦ error err_malformed_message
      | ok observe ↦ request_operation code accept format uri is_bs observe
    ]

-- `validate_uri_path`: 0 is `true`, and `_ANJ_ERR_INPUT_ARG` is `false`
unfoldable pub validate_uri_path : Op → UriPath → Bool
validate_uri_path dm_read uri = uri_path_has uri 0
validate_uri_path inf_observe uri = uri_path_has uri 0
validate_uri_path inf_cancel_observe uri = uri_path_has uri 0
validate_uri_path dm_write_partial_update uri = uri_path_has uri 1
validate_uri_path dm_write_replace uri = uri_path_has uri 1
validate_uri_path dm_discover uri = not (uri_path_has uri 3)
validate_uri_path dm_execute uri = uri_path_is uri 2
validate_uri_path dm_create uri = uri_path_is uri 0
validate_uri_path dm_delete uri = not (uri_path_is uri 2)
validate_uri_path _ uri = true
