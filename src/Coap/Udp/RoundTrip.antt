-- ===== src/Coap/Udp/RoundTrip.antt =====
-- A header and a token that are written and read again (src/anj/coap/encode.c, src/anj/coap/decode.c).
use anjay_lite.Base.{
  ℕ, ◌+◌, ◌-◌, ◌*◌, ◌/◌, ◌%◌, ◌^◌, ◌≤◌, ◌<◌, ◌≡◌, true, List, [], ◌∷◌, length, some, arith, ap, ◌∙◌,
}
use anjay_lite.Coap.{code_empty}
use anjay_lite.Coap.Options.{Memory, ok, load}
use anjay_lite.Coap.Options.Add.{store, bytes, convert_be16}
use anjay_lite.Coap.Options.Decode.{Holds}
use anjay_lite.Coap.Options.Items.{Holds-Same}
use anjay_lite.Coap.Options.Update.{Holds-store, load-Holds}
use anjay_lite.Coap.Udp.{
  UdpHeader, Appender, Dispenser, max_token_length, bytes_append, bytes_extract,
  version_type_token_length, udp_header_serialize, is_udp_msg_header_valid, check_header,
  decode_header_udp, decode_token, from_two,
}

-- A header that may be sent with the token.
pub record Sendable (h : UdpHeader) (token : List ℕ) : Type 0 where
  pub is_valid : is_udp_msg_header_valid h ≡ true
  pub type_fits : h.type < 4
  pub message_id_fits : h.message_id < 2 ^ 16
  pub token_fits : length token ≡ h.token_length
  pub token_short : h.token_length ≤ max_token_length

-- The memory after the header has been written at address 0.
abbrev stored : UdpHeader → List ℕ → Memory → Memory
stored h token buf =
    store
      (store (store (store buf 0 (version_type_token_length h ∷ [])) 1 (h.code ∷ [])) 2
        (bytes 2 (convert_be16 h.message_id)))
      4 token

record Written (h : UdpHeader) (token : List ℕ) (buf : Memory) (a : Appender) : Type 0 where
  memory_is : a.memory ≡ stored h token buf
  write_ptr_is : a.write_ptr ≡ 4 + length token

udp_header_serialize-Written :
    (h : UdpHeader) (token : List ℕ) (buf : Memory) (buf_size : ℕ) (a : Appender)
    → udp_header_serialize h token buf buf_size ≡ ok a
    → Written h token buf a
unfolding udp_header_serialize bytes_append bytes
udp_header_serialize-Written h token buf buf_size a e = record {
  memory_is = ground (arith, e);
  write_ptr_is = ground (arith, e);
}

abbrev header_bytes : UdpHeader → List ℕ
header_bytes h = version_type_token_length h ∷ h.code ∷ bytes 2 (convert_be16 h.message_id)

stored-Holds :
    (h : UdpHeader) (token : List ℕ) (buf mem : Memory)
    → ((x : ℕ) → x < 4 + length token → mem x ≡ stored h token buf x)
    → Holds mem 0 (header_bytes h) × Holds mem 4 token
unfolding bytes
stored-Holds h token buf mem same = (
  ground (
    arith,
    same 0 (omega arith),
    same 1 (omega arith),
    same 2 (omega arith),
    same 3 (omega arith),
  ),
  Holds-Same (stored h token buf) mem 4 token (λ x l u. same x u)
      (Holds-store
        (store (store (store buf 0 (version_type_token_length h ∷ [])) 1 (h.code ∷ [])) 2
          (bytes 2 (convert_be16 h.message_id)))
        4 token),
)

record Fields (h : UdpHeader) (field : ℕ) : Type 0 where
  version_is : field / 64 % 4 ≡ h.version
  type_is : field / 16 % 4 ≡ h.type
  token_length_is : field % 16 ≡ h.token_length

version_type_token_length-Fields :
    (h : UdpHeader) (token : List ℕ) → Sendable h token → Fields h (version_type_token_length h)
unfolding version_type_token_length is_udp_msg_header_valid
version_type_token_length-Fields h token s =
    let version : h.version ≡ 1 = ground (arith, s.is_valid) in
    record {
      version_is = omega (arith, version, s.type_fits, s.token_short);
      type_is = omega (arith, version, s.type_fits, s.token_short);
      token_length_is = omega (arith, version, s.type_fits, s.token_short);
    }

convert_be16-from_two :
    (n : ℕ) → n < 2 ^ 16 → convert_be16 (from_two (bytes 2 (convert_be16 n))) ≡ n
unfolding convert_be16 bytes
convert_be16-from_two n h = omega arith

two_bytes :
    (mem : Memory) (a n : ℕ)
    → Holds mem a (bytes 2 n)
    → mem a + mem (a + 1) * 2 ^ 8 ≡ from_two (bytes 2 n)
unfolding bytes
two_bytes mem a n h = omega (arith, h.0, h.1.0)

extract :
    (mem : Memory) (p left n : ℕ)
    → 0 < left
    → n ≤ left
    → bytes_extract (record { memory = mem; read_ptr = p; bytes_left = left }) n
      ≡ some (load mem p n, record { memory = mem; read_ptr = p + n; bytes_left = left - n })
unfolding bytes_extract
extract mem p left n h h' = ground arith

check_header-Sendable :
    (h : UdpHeader) (token : List ℕ) (d : Dispenser)
    → Sendable h token
    → (h.code ≡ code_empty → d.bytes_left ≡ 0)
    → check_header h d ≡ ok (h, d)
unfolding check_header
check_header-Sendable h token d s empty = ground (arith, s.is_valid)

decode_header-Holds :
    (h : UdpHeader) (token : List ℕ) (mem : Memory) (msg_size : ℕ)
    → Sendable h token
    → Holds mem 0 (header_bytes h)
    → 4 + length token ≤ msg_size
    → (h.code ≡ code_empty → msg_size ≡ 4)
    → decode_header_udp (record { memory = mem; read_ptr = 0; bytes_left = msg_size })
      ≡ ok (h, record { memory = mem; read_ptr = 4; bytes_left = msg_size - 4 })
unfolding decode_header_udp load
decode_header-Holds h token mem msg_size s b size empty =
    let f = version_type_token_length-Fields h token s in
    let d : Dispenser = record { memory = mem; read_ptr = 4; bytes_left = msg_size - 4 } in
    let checked = check_header-Sendable h token d s (λ e. omega (arith, empty e)) in
    let id : convert_be16 (mem 2 + mem 3 * 2 ^ 8) ≡ h.message_id =
      ap convert_be16 (two_bytes mem 2 (convert_be16 h.message_id) b.1.1)
      ∙ convert_be16-from_two h.message_id s.message_id_fits in
    ground (
      arith,
      extract mem 0 msg_size 1,
      extract mem 1 (msg_size - 1) 1,
      extract mem 2 (msg_size - 2) 2,
      b.0,
      b.1.0,
      f.version_is,
      f.type_is,
      f.token_length_is,
      id,
      s.token_short,
      checked,
    )

decode_token-Holds :
    (h : UdpHeader) (token : List ℕ) (mem : Memory) (left : ℕ)
    → Sendable h token
    → Holds mem 4 token
    → length token ≤ left
    → decode_token h (record { memory = mem; read_ptr = 4; bytes_left = left })
      ≡ ok (
        token,
        record { memory = mem; read_ptr = 4 + length token; bytes_left = left - length token },
      )
unfolding decode_token
decode_token-Holds h token mem left s b size =
    ground (arith, s.token_fits, extract mem 4 left (length token), load-Holds mem 4 token b)

-- If a header that may be sent has been written with its token, and memory holds that header and token
-- still, whatever follows them, then decoding gives the same header, and after it the same token, and
-- stands behind both. A message without a code ends there.
pub decode_header-udp_header_serialize :
    (h : UdpHeader) (token : List ℕ) (buf : Memory) (buf_size : ℕ) (a : Appender) (mem : Memory)
    (msg_size : ℕ)
    → Sendable h token
    → udp_header_serialize h token buf buf_size ≡ ok a
    → ((x : ℕ) → x < a.write_ptr → mem x ≡ a.memory x)
    → a.write_ptr ≤ msg_size
    → (h.code ≡ code_empty → msg_size ≡ 4)
    → (decode_header_udp (record { memory = mem; read_ptr = 0; bytes_left = msg_size })
        ≡ ok (h, record { memory = mem; read_ptr = 4; bytes_left = msg_size - 4 }))
      × (decode_token h (record { memory = mem; read_ptr = 4; bytes_left = msg_size - 4 })
          ≡ ok (
            token,
            record { memory = mem; read_ptr = a.write_ptr; bytes_left = msg_size - a.write_ptr },
          ))
decode_header-udp_header_serialize h token buf buf_size a mem msg_size s e same size empty =
    let w = udp_header_serialize-Written h token buf buf_size a e in
    let held =
      stored-Holds h token buf mem
        (λ x l. same x (omega (arith, w.write_ptr_is)) ∙ ap (λ (m : Memory). m x) w.memory_is) in
    let read =
      decode_token-Holds h token mem (msg_size - 4) s held.1 (omega (arith, w.write_ptr_is)) in
    (
      decode_header-Holds h token mem msg_size s held.0 (omega (arith, w.write_ptr_is)) empty,
      read ∙ ground (arith, w.write_ptr_is),
    )
