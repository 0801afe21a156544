-- ===== src/Coap/Udp.antt =====
-- The UDP header and the token of a message: src/anj/coap/udp_header.h, common.c, and their use in
-- encode.c and decode.c (`_anj_coap_udp_header_serialize`, `decode_header_udp`, `decode_token`).
pub mod RoundTrip
mod Tests
use anjay_lite.Base.{
  ℕ, ◌+◌, ◌-◌, ◌*◌, ◌/◌, ◌%◌, ◌^◌, Bool, true, false, not, ◌&&◌, ◌||◌, ◌==◌, List, [], ◌∷◌, length,
  if◌then◌else◌, ltb, leb, Option, none, some,
}
use anjay_lite.Coap.{code_empty}
use anjay_lite.Coap.Options.{
  Memory, Outcome, ok, error, err_malformed_message, err_buff, load, Error,
}
use anjay_lite.Coap.Options.Add.{store, bytes, convert_be16}

-- `anj_coap_header_t`, with the `udp_header` in it
pub record UdpHeader : Type 0 where
  pub version : ℕ
  pub type : ℕ
  pub message_id : ℕ
  pub code : ℕ
  pub token_length : ℕ

-- `_anj_coap_udp_type_t` as a number
abbrev pub type_non_confirmable : ℕ
type_non_confirmable = 1

abbrev pub type_acknowledgement : ℕ
type_acknowledgement = 2

abbrev pub type_reset : ℕ
type_reset = 3

abbrev pub max_token_length : ℕ
max_token_length = 8

-- `_anj_bytes_appender_t`, with the memory that `write_ptr` points into
pub record Appender : Type 0 where
  pub memory : Memory
  pub write_ptr : ℕ
  pub bytes_left : ℕ

-- `_anj_bytes_append`: `none` is the result -1
unfoldable pub bytes_append : Appender → List ℕ → Option Appender
bytes_append a data_bytes =
    if a.bytes_left == 0 || ltb a.bytes_left (length data_bytes)
    then none
    else some (record {
      memory = store a.memory a.write_ptr data_bytes;
      write_ptr = a.write_ptr + length data_bytes;
      bytes_left = a.bytes_left - length data_bytes;
    })

-- `anj_bytes_dispenser_t`
pub record Dispenser : Type 0 where
  pub memory : Memory
  pub read_ptr : ℕ
  pub bytes_left : ℕ

-- `_anj_bytes_extract`: the bytes and the dispenser after them
unfoldable pub bytes_extract : Dispenser → (size_bytes : ℕ) → Option (List ℕ × Dispenser)
bytes_extract d size =
    if d.bytes_left == 0 || ltb d.bytes_left size
    then none
    else some (
      load d.memory d.read_ptr size,
      record d { read_ptr = d.read_ptr + size; bytes_left = d.bytes_left - size },
    )

-- `_anj_coap_udp_prepare_version_type_token_len_field`; the fields have no bit in common
unfoldable pub version_type_token_length : UdpHeader → ℕ
version_type_token_length h = h.version % 4 * 64 + h.type % 4 * 16 + h.token_length % 16

-- Four appends, one after the other, with an error for each.
abbrev pub append_all : Appender → List (List ℕ) → Outcome Appender
append_all a [] = ok a
append_all a (bs ∷ bss) = elim (bytes_append a bs) [
  | none ↦ error err_buff
  | some a' ↦ append_all a' bss
]

-- `_anj_coap_udp_header_serialize`: the memory, and the address and the size of what is left, where
-- the options go
unfoldable pub udp_header_serialize :
    UdpHeader → (token : List ℕ) → (buf : Memory) → (buf_size : ℕ) → Outcome Appender
udp_header_serialize h token buf buf_size =
    append_all (record { memory = buf; write_ptr = 0; bytes_left = buf_size })
      ((version_type_token_length h ∷ [])
        ∷ (h.code ∷ [])
        ∷ bytes 2 (convert_be16 h.message_id)
        ∷ token
        ∷ [])

-- `_anj_coap_code_is_request`
abbrev pub code_is_request : ℕ → Bool
code_is_request code = code / 32 % 8 == 0 && ltb 0 (code % 32)

-- `is_udp_msg_header_valid`
unfoldable pub is_udp_msg_header_valid : UdpHeader → Bool
is_udp_msg_header_valid h =
    if not (h.version == 1)
    then false
    else if ltb max_token_length h.token_length
    then false
    else if h.type == type_acknowledgement
    then not (code_is_request h.code)
    else if h.type == type_non_confirmable
    then not (h.code == code_empty)
    else if h.type == type_reset
    then h.code == code_empty
    else true

-- The number that two bytes are on a little-endian platform.
abbrev pub from_two : List ℕ → ℕ
from_two (a ∷ b ∷ bs) = a + b * 2 ^ 8
from_two _ = 0

abbrev pub first : List ℕ → ℕ
first [] = 0
first (b ∷ bs) = b

-- The checks at the end of `decode_header_udp`.
unfoldable pub check_header : UdpHeader → Dispenser → Outcome (UdpHeader × Dispenser)
check_header h d =
    if not (is_udp_msg_header_valid h)
    then error err_malformed_message
    else if ltb 0 d.bytes_left && h.code == code_empty
    then error err_malformed_message
    else ok (h, d)

-- `decode_header_udp`
unfoldable pub decode_header_udp : Dispenser → Outcome (UdpHeader × Dispenser)
decode_header_udp d = elim (bytes_extract d 1) [
  | none ↦ error err_malformed_message
  | some (field, d') ↦
      if ltb max_token_length (first field % 16)
      then error err_malformed_message
      else elim (bytes_extract d' 1) [
        | none ↦ error err_malformed_message
        | some (code, d'') ↦ elim (bytes_extract d'' 2) [
          | none ↦ error err_malformed_message
          | some (message_id, d''') ↦
              check_header
                (record {
                  version = first field / 64 % 4;
                  type = first field / 16 % 4;
                  message_id = convert_be16 (from_two message_id);
                  code = first code;
                  token_length = first field % 16;
                })
                d'''
        ]
      ]
]

-- `decode_token`, called where the token is not empty
unfoldable pub decode_token : UdpHeader → Dispenser → Outcome (List ℕ × Dispenser)
decode_token h d =
    if ltb 0 h.token_length
    then elim (bytes_extract d h.token_length) [
      | none ↦ error err_malformed_message
      | some r ↦ ok r
    ]
    else ok ([], d)
