-- ===== src/Coap/Options.antt =====
-- src/anj/coap/options.c and options.h: CoAP options, as bytes of a message and as the records that
-- point into it. Memory is a function from addresses to bytes, counted from the first byte of the
-- message or of the buffer, so that a read past its end is a read like any other.
pub mod Add
pub mod Bounds
pub mod Decode
pub mod Insertion
pub mod Items
pub mod Reading
mod Tests
pub mod Uint
pub mod Update
use anjay_lite.Base.{
  ℕ, zero, suc, ◌+◌, ◌-◌, ◌*◌, ◌/◌, ◌%◌, ◌^◌, Bool, true, false, not, List, [], ◌∷◌, ◌++◌, ◌||◌,
  Option, none, some, ◌==◌, ltb, leb, length, ◌≡◌, ◌⊎◌, inl, inr, refl, if◌then◌else◌,
}

abbrev pub Memory : Type 0
Memory = ℕ → ℕ

-- `_ANJ_ERR_INPUT_ARG` and the other errors of common.h, and `_ANJ_COAP_OPTION_MISSING`
pub data Error : Type 0 where
  err_input_arg err_options_array err_attr_buff err_malformed_message err_buff : Error
  option_missing : Error

-- What a function returns: an error, or 0 with the values that it leaves.
pub data Outcome {ℓ} (A : Type ℓ) : Type ℓ where
  error : Error → Outcome A
  ok : A → Outcome A

pub Outcome-cases {ℓ} :
    {A : Type ℓ} (r : Outcome A) → ((e : Error) × (r ≡ error e)) ⊎ ((a : A) × (r ≡ ok a))
Outcome-cases (error e) = inl (e, refl)
Outcome-cases (ok a) = inr (a, refl)

-- `anj_coap_option_t`; the payload is the address of its first byte.
pub record CoapOption : Type 0 where
  pub payload : ℕ
  pub payload_len : ℕ
  pub option_number : ℕ

abbrev pub payload_marker : ℕ
payload_marker = 255

-- `_ANJ_COAP_EXT_U8`, `_ANJ_COAP_EXT_U16` and their bases
abbrev pub ext_u8 : ℕ
ext_u8 = 13

abbrev pub ext_u16 : ℕ
ext_u16 = 14

abbrev pub ext_u8_base : ℕ
ext_u8_base = 13

abbrev pub ext_u16_base : ℕ
ext_u16_base = 269

-- `update_extended_option`: the value and the pointer. Where the pointer stands on the last byte,
-- the byte after the message is read.
unfoldable pub update_extended_option : Memory → (buff_end value buff_pointer : ℕ) → Outcome (ℕ × ℕ)
update_extended_option mem buff_end value p =
    if value == ext_u8
    then (if leb buff_end p
        then error err_buff
        else ok ((ext_u8_base + mem (p + 1)) % 2 ^ 16, p + 1))
    else if value == ext_u16
    then (if leb buff_end (p + 1)
        then error err_buff
        else ok (
          ((ext_u16_base + mem (p + 1) * 2 ^ 8 % 2 ^ 16) % 2 ^ 16 + mem (p + 2)) % 2 ^ 16,
          p + 2,
        ))
    else ok (value, p)

-- "move to payload position", the end of `get_option_from_buff`
unfoldable pub move_to_payload : (buff_end option_number : ℕ) → (ℕ × ℕ) → Outcome (CoapOption × ℕ)
move_to_payload buff_end option_number (payload_len, p) =
    if ltb buff_end (p + 1 + payload_len)
    then error err_malformed_message
    else ok (
      record { payload = p + 1; payload_len = payload_len; option_number = option_number },
      p + 1 + payload_len,
    )

-- `get_option_from_buff`: the option and the pointer behind it
unfoldable pub get_option_from_buff :
    Memory → (buff_end buff_pointer last_opt_number : ℕ) → Outcome (CoapOption × ℕ)
get_option_from_buff mem buff_end p last_opt_number =
    elim (update_extended_option mem buff_end (mem p / 16 % 16) p) [
      | error e ↦ error e
      | ok (delta, p') ↦ elim (update_extended_option mem buff_end (mem p % 16) p') [
        | error e ↦ error e
        | ok r ↦ move_to_payload buff_end ((delta + last_opt_number) % 2 ^ 16) r
      ]
    ]

-- The first half of a header byte, `none` after it, and the bytes that extend it: as
-- `prepare_option_header` writes the delta.
unfoldable pub delta_header : (new_opt_number : ℕ) → ℕ × List ℕ
delta_header n =
    if ltb n ext_u8_base
    then (n * 16 % 2 ^ 8, [])
    else if ltb n ext_u16_base
    then (ext_u8 * 16 % 2 ^ 8, (n - ext_u8_base) % 2 ^ 8 ∷ [])
    else (let rest = (n - ext_u16_base) % 2 ^ 16 in
        (ext_u16 * 16, rest % 2 ^ 8 / 2 ^ 8 % 2 ^ 8 ∷ rest % 2 ^ 8 ∷ []))

-- The second half and its bytes.
unfoldable pub length_header : (payload_size : ℕ) → ℕ × List ℕ
length_header s =
    if ltb s ext_u8_base
    then (s % 2 ^ 8, [])
    else if ltb s ext_u16_base
    then (ext_u8, (s - ext_u8_base) % 2 ^ 8 ∷ [])
    else (ext_u16, (s - ext_u16_base) / 2 ^ 8 % 2 ^ 8 ∷ (s - ext_u16_base) % 2 ^ 8 ∷ [])

-- `prepare_option_header`
unfoldable pub prepare_option_header : (previous_opt_number opt_number payload_size : ℕ) → List ℕ
prepare_option_header previous_opt_number opt_number payload_size =
    let delta = delta_header ((opt_number + 2 ^ 16 - previous_opt_number) % 2 ^ 16) in
    let size = length_header payload_size in (delta.0 + size.0) % 2 ^ 8 ∷ delta.1 ++ size.1

abbrev pub with_option : CoapOption → Outcome (List CoapOption × ℕ) → Outcome (List CoapOption × ℕ)
with_option o (error e) = error e
with_option o (ok (os, p)) = ok (o ∷ os, p)

-- The loop of `_anj_coap_options_decode`, with the rounds that it may take.
unfoldable pub options_loop :
    ℕ
    → Memory
    → (options_size buff_end buff_pointer last_opt_number options_number : ℕ)
    → Outcome (List CoapOption × ℕ)
options_loop zero mem options_size buff_end p last options_number = ok ([], p)
options_loop (suc rounds) mem options_size buff_end p last options_number =
    if not (ltb p buff_end) || mem p == payload_marker
    then ok ([], p)
    else if options_number == options_size
    then error err_options_array
    else elim (get_option_from_buff mem buff_end p last) [
      | error e ↦ error e
      | ok (o, p') ↦
          with_option o
            (options_loop rounds mem options_size buff_end p' o.option_number (options_number + 1))
    ]

-- `_anj_coap_options_decode`: the options and `*bytes_read`. Each round reads a byte or more.
unfoldable pub options_decode : Memory → (options_size msg_size : ℕ) → Outcome (List CoapOption × ℕ)
options_decode mem options_size msg_size = options_loop msg_size mem options_size msg_size 0 0 0

-- The bytes from an address on.
unfoldable pub load : Memory → (address size : ℕ) → List ℕ
load mem address zero = []
load mem address (suc size) = mem address ∷ load mem (address + 1) size

-- The loop of `_anj_coap_options_get_data_iterate`: the payload, that must fit the buffer
unfoldable pub get_data :
    Memory → List CoapOption → (option_number requested_opt out_buffer_size : ℕ) → Outcome (List ℕ)
get_data mem [] option_number requested_opt out_buffer_size = error option_missing
get_data mem (o ∷ os) option_number requested_opt out_buffer_size =
    let same = get_data mem os option_number requested_opt out_buffer_size in
    let next = get_data mem os option_number (requested_opt - 1) out_buffer_size in
    if not (o.option_number == option_number)
    then same
    else if not (requested_opt == 0)
    then next
    else if ltb out_buffer_size o.payload_len
    then error err_malformed_message
    else ok (load mem o.payload o.payload_len)

-- The number that the bytes spell in a type of `bits` bits. The low byte of a shifted value is zero,
-- so that `|` adds.
unfoldable pub from_bytes : (bits value : ℕ) → List ℕ → ℕ
from_bytes bits value [] = value
from_bytes bits value (b ∷ bs) = from_bytes bits (value * 2 ^ 8 % 2 ^ bits + b) bs

abbrev pub from_outcome : (bits : ℕ) → Outcome (List ℕ) → Outcome ℕ
from_outcome bits (error e) = error e
from_outcome bits (ok bytes) = ok (from_bytes bits 0 bytes)

-- `_anj_coap_options_get_u16_iterate` and `_anj_coap_options_get_u32_iterate`; a caller's iterator is
-- `requested_opt`, which the caller then counts up
unfoldable pub get_u16 : Memory → List CoapOption → (option_number requested_opt : ℕ) → Outcome ℕ
get_u16 mem opts number requested = from_outcome 16 (get_data mem opts number requested 2)

unfoldable pub get_u32 : Memory → List CoapOption → (option_number requested_opt : ℕ) → Outcome ℕ
get_u32 mem opts number requested = from_outcome 32 (get_data mem opts number requested 4)

abbrev pub terminated : (out_buffer_size : ℕ) → Outcome (List ℕ) → Outcome (List ℕ)
terminated size (error e) = error e
terminated size (ok bytes) =
    if leb (length bytes + 1) size then ok (bytes ++ (0 ∷ [])) else error err_malformed_message

-- `_anj_coap_options_get_string_iterate`
unfoldable pub get_string :
    Memory → List CoapOption → (option_number requested_opt out_buffer_size : ℕ) → Outcome (List ℕ)
get_string mem opts number requested size =
    terminated size (get_data mem opts number requested size)
