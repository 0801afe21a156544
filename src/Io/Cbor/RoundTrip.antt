-- ===== src/Io/Cbor/RoundTrip.antt =====
-- src/anj/io/cbor_encoder_ll.c and cbor_decoder_ll.c: a number that is encoded is decoded again.
use anjay_lite.Base.{
  arith, ◌≡◌, refl, ap, ◌∙◌, ℕ, suc, ◌+◌, ◌*◌, ◌^◌, ◌<◌, Bool, true, false, List, ◌++◌, length,
}
use anjay_lite.Base.Int.{ℤ, pos, negsuc}
use anjay_lite.Io.Cbor.{type_uint, type_negative_int, encode_uint, encode_int}
use anjay_lite.Io.Cbor.Decoder.{
  Decoder, Decoded, value, Number, integer, state_ok, value_uint, value_negative_int,
  preprocess_next_value, ensure_value_or_error_available,
}
use anjay_lite.Io.Cbor.Number.{
  parse_uint, consumed, decode_uint, decode_negative_int, decode_by_type, decode_simple_number,
  decoder_number, with_value, is_timestamp, number_or_time,
}
use anjay_lite.Io.Cbor.Pending.{pending}
use anjay_lite.Io.Cbor.Parsing.{Parsed, parse_header, info, extension, encode-extension}
use anjay_lite.Io.Cbor.Header.{AtItem, preprocess-Headed}

-- The integers that the encoder's functions take
abbrev pub IsEncodable : ℤ → Type 0
IsEncodable (pos n) = n < 2 ^ 64
IsEncodable (negsuc n) = n < 2 ^ 63

-- The result of decoding a number, and what is left behind it
abbrev pub Decodes : Decoder → Decoder × Decoded Number → ℤ → List ℕ → Type 0
Decodes d r v rest = (r.1 ≡ value (integer v)) × (pending r.0 ≡ rest) × AtItem r.0

pub with_value-ok :
    {A : Type 0} (r : Decoder × Bool) (c : Decoder) (f : Decoder → Decoder × Decoded A)
    → r ≡ (c, false)
    → c.state ≡ state_ok
    → with_value r f ≡ f c
unfolding with_value
with_value-ok r c f e s = rw (e) (ground (arith, s))

nothing_needed :
    (c : Decoder) → c.needs_preprocessing ≡ false → ensure_value_or_error_available c ≡ (c, false)
unfolding ensure_value_or_error_available
nothing_needed c n = ground (arith, n)

number_or_time-number :
    (c : Decoder)
    → c.epoch_based_time ≡ false
    → is_timestamp c.value_type ≡ false
    → number_or_time c ≡ decode_simple_number c
number_or_time-number c t y = ground (arith, t, y)

available_number :
    (d c : Decoder)
    → ensure_value_or_error_available d ≡ (c, false)
    → c.state ≡ state_ok
    → c.needs_preprocessing ≡ false
    → c.epoch_based_time ≡ false
    → is_timestamp c.value_type ≡ false
    → decoder_number d ≡ decode_by_type c
unfolding decoder_number decode_simple_number
available_number d c e s n t y =
    with_value-ok (ensure_value_or_error_available d) c number_or_time e s
    ∙ number_or_time-number c t y
    ∙ with_value-ok (ensure_value_or_error_available c) c decode_by_type (nothing_needed c n) s

pub ensure-preprocess :
    (d : Decoder)
    → AtItem d
    → ensure_value_or_error_available d
      ≡ preprocess_next_value (suc (length d.prebuffer + length d.input)) d
unfolding ensure_value_or_error_available
ensure-preprocess d a = ground (arith, a.ok, a.preprocess)

pub pair_of : (r : Decoder × Bool) → r.1 ≡ false → r ≡ (r.0, false)
pair_of r h = ground (arith, h)

decode_uint-Decodes :
    (d c : Decoder) (v : ℕ) (rest : List ℕ)
    → c.value_type ≡ value_uint
    → c.state ≡ state_ok
    → c.input_last ≡ true
    → c.epoch_based_time ≡ false
    → Parsed c v rest
    → Decodes d (decode_by_type c) (pos v) rest
unfolding decode_by_type decode_uint
decode_uint-Decodes d c v rest y s l t p =
    let r = parse_uint c in
    let whole : decode_by_type c ≡ (consumed r.0, value (integer (pos v))) =
      ground (arith, y, p.parsed) in
    rw (whole) (
      refl,
      p.remaining,
      record {
        ok = p.state_kept ∙ s;
        last = p.last_kept ∙ l;
        preprocess = refl;
        no_time = p.time_kept ∙ t;
      },
    )

decode_negative_int-Decodes :
    (d c : Decoder) (v : ℕ) (rest : List ℕ)
    → v < 2 ^ 63
    → c.value_type ≡ value_negative_int
    → c.state ≡ state_ok
    → c.input_last ≡ true
    → c.epoch_based_time ≡ false
    → Parsed c v rest
    → Decodes d (decode_by_type c) (negsuc v) rest
unfolding decode_by_type decode_negative_int
decode_negative_int-Decodes d c v rest b y s l t p =
    let r = parse_uint c in
    let whole : decode_by_type c ≡ (consumed r.0, value (integer (negsuc v))) =
      ground (arith, y, p.parsed, b) in
    rw (whole) (
      refl,
      p.remaining,
      record {
        ok = p.state_kept ∙ s;
        last = p.last_kept ∙ l;
        preprocess = refl;
        no_time = p.time_kept ∙ t;
      },
    )

number-uint :
    (d : Decoder) (v : ℕ) (rest : List ℕ)
    → AtItem d
    → v < 2 ^ 64
    → pending d ≡ encode_int (pos v) ++ rest
    → Decodes d (decoder_number d) (pos v) rest
unfolding encode_int encode_uint
number-uint d v rest a h e =
    let rounds = length d.prebuffer + length d.input in
    let split = ap (λ t. t ++ rest) (encode-extension type_uint v) in
    let (hd, fine) =
      preprocess-Headed rounds d (0 * 2 ^ 5 + info v) (extension v ++ rest) a (ground arith)
        (e ∙ split) in
    let c = (preprocess_next_value (suc rounds) d).0 in
    let ready = ensure-preprocess d a ∙ pair_of (preprocess_next_value (suc rounds) d) fine in
    let type : c.value_type ≡ value_uint = hd.type ∙ ground arith in
    let whole =
      available_number d c ready hd.is_fine hd.prepared hd.no_time (ap is_timestamp type) in
    rw (whole) (
      decode_uint-Decodes d c v rest type hd.is_fine hd.is_last hd.no_time
        (parse_header 0 v c rest h hd.is_last hd.header hd.behind))

number-negative_int :
    (d : Decoder) (v : ℕ) (rest : List ℕ)
    → AtItem d
    → v < 2 ^ 63
    → pending d ≡ encode_int (negsuc v) ++ rest
    → Decodes d (decoder_number d) (negsuc v) rest
unfolding encode_int
number-negative_int d v rest a h e =
    let rounds = length d.prebuffer + length d.input in
    let split = ap (λ t. t ++ rest) (encode-extension type_negative_int v) in
    let (hd, fine) =
      preprocess-Headed rounds d (32 + info v) (extension v ++ rest) a (ground arith) (e ∙ split) in
    let c = (preprocess_next_value (suc rounds) d).0 in
    let ready = ensure-preprocess d a ∙ pair_of (preprocess_next_value (suc rounds) d) fine in
    let type : c.value_type ≡ value_negative_int = hd.type ∙ ground arith in
    let whole =
      available_number d c ready hd.is_fine hd.prepared hd.no_time (ap is_timestamp type) in
    rw (whole) (
      decode_negative_int-Decodes d c v rest h type hd.is_fine hd.is_last hd.no_time
        (parse_header 1 v c rest (omega (arith, h)) hd.is_last hd.header hd.behind))

-- A number of 64 bits that is encoded is decoded to itself, the decoder is then at the bytes behind it,
-- and ready for the next item: however the bytes are spread over the decoder's buffer and its input,
-- where the end of the input is there.
pub decoder_number-encode_int :
    (d : Decoder) (v : ℤ) (rest : List ℕ)
    → AtItem d
    → IsEncodable v
    → pending d ≡ encode_int v ++ rest
    → Decodes d (decoder_number d) v rest
decoder_number-encode_int d (pos v) rest a h e = number-uint d v rest a h e
decoder_number-encode_int d (negsuc v) rest a h e = number-negative_int d v rest a h e
