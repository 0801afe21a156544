-- ===== src/Io/Base64.antt =====
-- src/anj/io/base64.c. A text is the list of its characters up to the NUL byte that ends it.
mod Tests
pub mod Decoding
pub mod RoundTrip
use anjay_lite.Base.{
  ℕ, zero, suc, ◌+◌, ◌-◌, ◌*◌, ◌/◌, ◌%◌, ◌^◌, Bool, true, false, not, ◌&&◌, ◌||◌, ◌==◌, ltb, leb,
  if◌then◌else◌, Option, none, some, List, [], ◌∷◌, ◌++◌, length, get_or, replicate,
}

-- `anj_base64_config_t`; a `padding_char` of 0 is none
pub record Config : Type 0 where
  pub alphabet : List ℕ
  pub padding_char : ℕ
  pub allow_whitespace : Bool
  pub require_padding : Bool
  pub without_null_termination : Bool

-- `anj_base64_encoded_size_custom`
unfoldable pub encoded_size : (input_length : ℕ) → Config → ℕ
encoded_size n config =
    let rest = n % 3 in
    n / 3 * 4
    + (if rest == 0 then 0 else if not (config.padding_char == 0) then 4 else rest + 1)
    + (if not config.without_null_termination then 1 else 0)

-- The loop of `anj_base64_encode_custom` from index `i` on, and the character after it.
unfoldable pub encode_loop : Config → (i sh : ℕ) → List ℕ → List ℕ
encode_loop config i sh [] =
    if i % 3 == 1
    then get_or config.alphabet (sh * 2 ^ 4) 0 ∷ []
    else if i % 3 == 2
    then get_or config.alphabet (sh * 2 ^ 2) 0 ∷ []
    else []
encode_loop config i sh (num ∷ input) =
    let sh' = if i % 3 == 0 then num % 4 else if i % 3 == 1 then num % 16 else sh in
    let rest = encode_loop config (i + 1) sh' input in
    if i % 3 == 0
    then get_or config.alphabet (num / 4) 0 ∷ rest
    else if i % 3 == 1
    then get_or config.alphabet (sh * 2 ^ 4 + num / 16) 0 ∷ rest
    else get_or config.alphabet (sh * 2 ^ 2 + num / 64) 0
      ∷ get_or config.alphabet (num % 64) 0
      ∷ rest

-- The padding up to a multiple of four characters.
unfoldable pub padding : Config → (out_length : ℕ) → List ℕ
padding config n =
    if config.padding_char == 0 then [] else replicate ((4 - n % 4) % 4) config.padding_char

-- `anj_base64_encode_custom`: the text without its NUL byte, `none` where `out_length` is too small
unfoldable pub base64_encode : Config → (out_length : ℕ) → List ℕ → Option (List ℕ)
base64_encode config out_length input =
    let text = encode_loop config 0 0 input in
    if ltb out_length (encoded_size (length input) config)
    then none
    else some (text ++ padding config (length text))

-- `memchr` on the alphabet: the index of the character
unfoldable pub index_of : List ℕ → (ch : ℕ) → Option ℕ
index_of [] ch = none
index_of (c ∷ cs) ch =
    let rest = index_of cs ch in
    if c == ch then some 0 else elim rest [ none ↦ none | some i ↦ some (suc i) ]

-- `isspace` in the C locale
abbrev pub is_space : ℕ → Bool
is_space c = c == 32 || (leb 9 c && leb c 13)

-- The variables of the loop of `anj_base64_decode_custom`.
pub record Decoder : Type 0 where
  pub accumulator : ℕ
  pub bits : ℕ
  pub out_length : ℕ
  pub padding : ℕ

-- The end of a round, for a character of the alphabet: the byte that it completes, if it does.
unfoldable pub take_digit : Decoder → (digit : ℕ) → Decoder × List ℕ
take_digit d digit =
    let accumulator = d.accumulator * 2 ^ 6 % 2 ^ 32 + digit in
    let bits = d.bits + 6 in
    if leb 8 bits
    then (
      record d { accumulator = accumulator; bits = bits - 8; out_length = d.out_length + 1 },
      accumulator / 2 ^ (bits - 8) % 2 ^ 8 ∷ [],
    )
    else (record d { accumulator = accumulator; bits = bits }, [])

-- A round: the variables after it and what it writes, `none` for the error.
unfoldable pub decode_char :
    Config → (out_size : ℕ) → Decoder → (ch : ℕ) → Option (Decoder × List ℕ)
decode_char config out_size d ch =
    if leb out_size d.out_length
    then none
    else if is_space ch
    then (if config.allow_whitespace then some (d, []) else none)
    else if ch == config.padding_char
    then (if config.require_padding
        then (if ltb 2 (d.padding + 1)
            then none
            else some (record d { padding = d.padding + 1 }, []))
        else some (d, []))
    else if not (d.padding == 0)
    then none
    else elim (index_of config.alphabet ch) [ none ↦ none | some i ↦ some (take_digit d i) ]

abbrev pub after : List ℕ → Option (List ℕ) → Option (List ℕ)
after written none = none
after written (some rest) = some (written ++ rest)

-- The loop, and the check of the padding after it.
unfoldable pub decode_loop : Config → (out_size : ℕ) → Decoder → List ℕ → Option (List ℕ)
decode_loop config out_size d [] =
    if not (config.padding_char == 0)
      && config.require_padding
      && not (d.padding == (3 - d.out_length % 3) % 3)
    then none
    else some []
decode_loop config out_size d (ch ∷ chs) = elim (decode_char config out_size d ch) [
  | none ↦ none
  | some (d', written) ↦ after written (decode_loop config out_size d' chs)
]

-- `anj_base64_decode_custom`: the bytes decoded
unfoldable pub base64_decode : Config → (out_size : ℕ) → (b64_data : List ℕ) → Option (List ℕ)
base64_decode config out_size b64_data =
    decode_loop config out_size (record { accumulator = 0; bits = 0; out_length = 0; padding = 0 })
      b64_data
