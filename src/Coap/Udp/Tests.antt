-- ===== src/Coap/Udp/Tests.antt =====
-- A header on a concrete buffer.
use anjay_lite.Base.{◌≡◌, refl, arith, List, [], ◌∷◌, ℕ}
use anjay_lite.Coap.Options.{Memory, ok}
use anjay_lite.Coap.Options.Add.{store, bytes, convert_be16}
use anjay_lite.Coap.Udp.{
  UdpHeader, Appender, udp_header_serialize, bytes_append, version_type_token_length,
  is_udp_msg_header_valid, decode_header_udp, decode_token,
}
use anjay_lite.Coap.Udp.RoundTrip.{Sendable, decode_header-udp_header_serialize}

abbrev header : UdpHeader
header = record { version = 1; type = 0; message_id = 0x1234; code = 1; token_length = 2 }

abbrev token : List ℕ
token = 7 ∷ 8 ∷ []

header-Sendable : Sendable header token
unfolding is_udp_msg_header_valid
header-Sendable = record {
  is_valid = refl;
  type_fits = omega arith;
  message_id_fits = omega arith;
  token_fits = refl;
  token_short = omega arith;
}

abbrev written : Memory
written =
    store (store (store (store (λ a. 0) 0 (0x42 ∷ [])) 1 (1 ∷ [])) 2 (0x12 ∷ 0x34 ∷ [])) 4 token

abbrev appender : Appender
appender = record { memory = written; write_ptr = 6; bytes_left = 58 }

serialized : udp_header_serialize header token (λ a. 0) 64 ≡ ok appender
unfolding udp_header_serialize bytes_append version_type_token_length bytes convert_be16
serialized = refl

decode_header-udp_header_serialize_example :
    (decode_header_udp (record { memory = written; read_ptr = 0; bytes_left = 6 })
      ≡ ok (header, record { memory = written; read_ptr = 4; bytes_left = 2 }))
    × (decode_token header (record { memory = written; read_ptr = 4; bytes_left = 2 })
        ≡ ok (token, record { memory = written; read_ptr = 6; bytes_left = 0 }))
decode_header-udp_header_serialize_example =
    decode_header-udp_header_serialize header token (λ a. 0) 64 appender written 6 header-Sendable
      serialized (λ x l. refl) (omega arith) (λ e. absurd (omega (arith, e)))
