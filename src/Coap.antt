-- ===== src/Coap.antt =====
-- include_public/anj_internal/coap.h and include_public/anj/defs.h: the message as the exchange
-- sees it, its enumerations, and the response codes.
pub mod BlockWise
pub mod Options
pub mod Request
pub mod Udp
use anjay_lite.Base.{ℕ, Bool, true, false, not, ◌&&◌, ◌||◌, List, [], ◌∷◌, ◌==◌, take, ◌+◌, ◌*◌}

-- `_anj_op_t`
pub data Op : Type 0 where
  none_op bootstrap_req bootstrap_finish bootstrap_pack_req register update deregister : Op
  dm_read dm_read_comp dm_discover dm_write_replace dm_write_partial_update dm_write_attr : Op
  dm_write_comp dm_execute dm_create dm_delete inf_observe inf_observe_comp : Op
  inf_cancel_observe inf_cancel_observe_comp inf_initial_notify inf_con_notify : Op
  inf_non_con_notify inf_con_send inf_non_con_send coap_downloader_get response : Op
  coap_reset coap_ping_udp coap_empty_msg : Op

-- The value of the enumerator, in the order of the declaration.
unfoldable pub op_code : Op → ℕ
op_code none_op = 0
op_code bootstrap_req = 1
op_code bootstrap_finish = 2
op_code bootstrap_pack_req = 3
op_code register = 4
op_code update = 5
op_code deregister = 6
op_code dm_read = 7
op_code dm_read_comp = 8
op_code dm_discover = 9
op_code dm_write_replace = 10
op_code dm_write_partial_update = 11
op_code dm_write_attr = 12
op_code dm_write_comp = 13
op_code dm_execute = 14
op_code dm_create = 15
op_code dm_delete = 16
op_code inf_observe = 17
op_code inf_observe_comp = 18
op_code inf_cancel_observe = 19
op_code inf_cancel_observe_comp = 20
op_code inf_initial_notify = 21
op_code inf_con_notify = 22
op_code inf_non_con_notify = 23
op_code inf_con_send = 24
op_code inf_non_con_send = 25
op_code coap_downloader_get = 26
op_code response = 27
op_code coap_reset = 28
op_code coap_ping_udp = 29
op_code coap_empty_msg = 30

abbrev pub is_op : Op → Op → Bool
is_op a b = op_code a == op_code b

-- `_anj_block_option_t`, with composite operations built in
pub data BlockOption : Type 0 where
  block_not_defined block_1 block_2 block_both : BlockOption

abbrev pub is_block_option : BlockOption → BlockOption → Bool
is_block_option block_not_defined block_not_defined = true
is_block_option block_1 block_1 = true
is_block_option block_2 block_2 = true
is_block_option block_both block_both = true
is_block_option _ _ = false

-- `_anj_block_t`
pub record Block : Type 0 where
  pub block_type : BlockOption
  pub more_flag : Bool
  pub number : ℕ
  pub size : ℕ

-- `_anj_coap_udp_type_t`
pub data UdpType : Type 0 where
  confirmable non_confirmable acknowledgement reset : UdpType

-- `_anj_coap_token_t`
pub record Token : Type 0 where
  pub size : ℕ
  pub bytes : List ℕ

-- `memcmp` finds no difference
abbrev pub bytes_equal : List ℕ → List ℕ → Bool
bytes_equal [] [] = true
bytes_equal (x ∷ xs) (y ∷ ys) = x == y && bytes_equal xs ys
bytes_equal _ _ = false

-- `_anj_tokens_equal` (src/anj/utils.c)
unfoldable pub tokens_equal : Token → Token → Bool
tokens_equal left right = not (
    not (bytes_equal (take left.size left.bytes) (take left.size right.bytes))
    || not (left.size == right.size))

-- Where `payload` of a message points: to the payload buffer of the exchange, or to another buffer,
-- such as the one that the message was received in, which holds these bytes.
pub data Payload : Type 0 where
  own_buffer : Payload
  external : List ℕ → Payload

-- The union `attr`: the member for the response to a Create, or the bytes of another member.
pub data Attr : Type 0 where
  create_attr : (has_uri : Bool) (oid iid : ℕ) → Attr
  other_attr : List ℕ → Attr

-- `_anj_coap_msg_t`; `message_id` and `udp_type` are its `coap_binding_data`
pub record Msg : Type 0 where
  pub operation : Op
  pub payload : Payload
  pub payload_size : ℕ
  pub content_format : ℕ
  pub accept : ℕ
  pub observe_number : ℕ
  pub uri : List ℕ
  pub block : Block
  pub location_path : List (List ℕ)
  pub attr : Attr
  pub msg_code : ℕ
  pub message_id : ℕ
  pub udp_type : UdpType
  pub token : Token

abbrev pub format_not_defined : ℕ
format_not_defined = 0xffff

-- `ANJ_COAP_CODE(class, detail)` puts the class in the top three bits.
abbrev pub coap_code : ℕ → ℕ → ℕ
coap_code class detail = class * 32 + detail

abbrev pub code_empty : ℕ
code_empty = coap_code 0 0

abbrev pub code_ipatch : ℕ
code_ipatch = coap_code 0 7

abbrev pub code_created : ℕ
code_created = coap_code 2 1

abbrev pub code_content : ℕ
code_content = coap_code 2 5

abbrev pub code_continue : ℕ
code_continue = coap_code 2 31

abbrev pub code_bad_request : ℕ
code_bad_request = coap_code 4 0

abbrev pub code_internal_server_error : ℕ
code_internal_server_error = coap_code 5 0

abbrev pub code_service_unavailable : ℕ
code_service_unavailable = coap_code 5 3

abbrev pub code_proxying_not_supported : ℕ
code_proxying_not_supported = coap_code 5 5
