-- ===== src/Io/Cbor/Entering.antt =====
-- src/anj/io/cbor_encoder_ll.c and cbor_decoder_ll.c: an array or a map that is begun is entered.
use anjay_lite.Base.{
  arith, ◌≡◌, refl, ap, ◌∙◌, ℕ, suc, ◌+◌, ◌*◌, ◌^◌, ◌<◌, ◌==◌, true, false, List, ◌++◌, length,
  Option, some,
}
use anjay_lite.Io.Cbor.Decoder.{
  value_array, get_additional_info, pop_complete, Decoder, Decoded, value, state_ok,
  preprocess_next_value, ensure_value_or_error_available,
}
use anjay_lite.Io.Cbor.Number.{parse_uint, consumed}
use anjay_lite.Io.Cbor.Pending.{pending}
use anjay_lite.Io.Cbor.Parsing.{Parsed, parse_header, info, extension, encode-extension}
use anjay_lite.Io.Cbor.Header.{AtItem, header_type, preprocess-Headed}
use anjay_lite.Io.Cbor.{definite_array_begin, type_array}
use anjay_lite.Io.Cbor.Nesting.{
  parse_ptrdiff, nested_state_push, items_of, push, enter, is_array, enter_array,
}
use anjay_lite.Io.Cbor.RoundTrip.{with_value-ok, ensure-preprocess, pair_of}

-- The decoder where an item with this header has been entered: the number of items, what is left, and
-- that the decoder is at the first item.
abbrev pub Entered : Decoder × Decoded (Option ℕ) → ℕ → List ℕ → Type 0
Entered r n rest = (r.1 ≡ value (some n)) × (pending r.0 ≡ rest) × AtItem r.0

entered :
    (max : ℕ) (c : Decoder) (n all : ℕ) (rest : List ℕ)
    → n < 2 ^ 63
    → items_of c.value_type n ≡ some all
    → (length c.nest_stack == max) ≡ false
    → (get_additional_info c.initial_byte == 31) ≡ false
    → c.state ≡ state_ok
    → c.input_last ≡ true
    → c.epoch_based_time ≡ false
    → Parsed c n rest
    → Entered (enter max true c) all rest
unfolding enter nested_state_push parse_ptrdiff
entered max c n all rest b i m g s l t p =
    let r = parse_uint c in
    let whole : enter max true c ≡ (consumed (push r.0 c.value_type (some all)), value (some all)) =
      ground (arith, p.parsed, b, i, m, g, t) in
    rw (whole) (
      refl,
      p.remaining,
      record {
        ok = p.state_kept ∙ s;
        last = p.last_kept ∙ l;
        preprocess = refl;
        no_time = p.time_kept ∙ t;
      },
    )

array_type : (i : ℕ) → i < 2 ^ 5 → header_type (4 * 2 ^ 5 + i) ≡ value_array
array_type i h = ground (arith, h)

info-small : (n : ℕ) → info n < 28
info-small n = ground arith

is_definite : (b i : ℕ) → b ≡ 4 * 2 ^ 5 + i → i < 28 → (get_additional_info b == 31) ≡ false
is_definite b i e h = ground (arith, e, h)

has_room : (level max : ℕ) → level < max → (level == max) ≡ false
has_room level max h = ground (arith, h)

-- An array that is begun with fewer than 2 ^ 63 items is entered with their number, at its first item,
-- where the stack of nested structures has room.
pub enter_array-definite_array_begin :
    (max : ℕ) (d : Decoder) (n : ℕ) (rest : List ℕ)
    → AtItem d
    → n < 2 ^ 63
    → length (pop_complete d.nest_stack) < max
    → pending d ≡ definite_array_begin n ++ rest
    → Entered (enter_array max d) n rest
unfolding enter_array definite_array_begin
enter_array-definite_array_begin max d n rest a h m e =
    let rounds = length d.prebuffer + length d.input in
    let split = ap (λ t. t ++ rest) (encode-extension type_array n) in
    let (hd, fine) =
      preprocess-Headed rounds d (4 * 2 ^ 5 + info n) (extension n ++ rest) a (ground arith)
        (e ∙ split) in
    let c = (preprocess_next_value (suc rounds) d).0 in
    let ready = ensure-preprocess d a ∙ pair_of (preprocess_next_value (suc rounds) d) fine in
    let type : c.value_type ≡ value_array =
      hd.type ∙ array_type (info n) (omega (arith, info-small n)) in
    let whole =
      with_value-ok (ensure_value_or_error_available d) c (λ x. enter max (is_array x.value_type) x)
        ready hd.is_fine
      ∙ ap (λ b. enter max b c) (ap is_array type) in
    rw (whole) (
      entered max c n n rest h (ap (λ y. items_of y n) type)
        (ap (λ l. l == max) hd.nested ∙ has_room (length (pop_complete d.nest_stack)) max m)
        (is_definite c.initial_byte (info n) hd.header (info-small n)) hd.is_fine hd.is_last
        hd.no_time (parse_header 4 n c rest (omega (arith, h)) hd.is_last hd.header hd.behind))
