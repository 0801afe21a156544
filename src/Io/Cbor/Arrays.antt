-- ===== src/Io/Cbor/Arrays.antt =====
-- src/anj/io/cbor_encoder_ll.c and cbor_decoder_ll.c: an array of numbers, encoded and decoded by the
-- calls that a user of both makes.
use anjay_lite.Base.{
  ◌≡◌, ap, ◌∙◌, ℕ, zero, suc, ◌^◌, ◌<◌, List, [], ◌∷◌, ◌++◌, length, Option, none, some,
}
use mathlib.Core.List.{append_assoc}
use anjay_lite.Base.Int.{ℤ}
use anjay_lite.Io.Cbor.{encode_int, definite_array_begin}
use anjay_lite.Io.Cbor.Decoder.{Decoder, Decoded, value, Number, integer, pop_complete}
use anjay_lite.Io.Cbor.Number.{decoder_number}
use anjay_lite.Io.Cbor.Pending.{pending}
use anjay_lite.Io.Cbor.Header.{AtItem}
use anjay_lite.Io.Cbor.Nesting.{enter_array}
use anjay_lite.Io.Cbor.RoundTrip.{IsEncodable, decoder_number-encode_int}
use anjay_lite.Io.Cbor.Entering.{enter_array-definite_array_begin}

-- The numbers, each encoded by `encode_int`
unfoldable pub encode_numbers : List ℤ → List ℕ
unfolding encode_int
encode_numbers [] = []
encode_numbers (v ∷ vs) = encode_int v ++ encode_numbers vs

unfoldable pub encode_array : List ℤ → List ℕ
unfolding encode_numbers definite_array_begin
encode_array vs = definite_array_begin (length vs) ++ encode_numbers vs

abbrev pub add_number : ℤ → Option (List ℤ × List ℕ) → Option (List ℤ × List ℕ)
add_number v none = none
add_number v (some (vs, rest)) = some (v ∷ vs, rest)

-- An integer that has been decoded, before the others
abbrev pub with_number : Decoded Number → Option (List ℤ × List ℕ) → Option (List ℤ × List ℕ)
with_number (value (integer v)) others = add_number v others
with_number _ others = none

-- As many calls of `anj_cbor_ll_decoder_number`: the integers, and the bytes that are left
unfoldable pub decode_numbers : ℕ → Decoder → Option (List ℤ × List ℕ)
unfolding decoder_number
decode_numbers zero d = some ([], pending d)
decode_numbers (suc n) d =
    let others = decode_numbers n (decoder_number d).0 in with_number (decoder_number d).1 others

abbrev pub entered_numbers : Decoded (Option ℕ) → Decoder → Option (List ℤ × List ℕ)
entered_numbers (value (some n)) d = decode_numbers n d
entered_numbers _ d = none

-- `anj_cbor_ll_decoder_enter_array`, then the calls for its items
unfoldable pub decode_array : (max_nest_stack_size : ℕ) → Decoder → Option (List ℤ × List ℕ)
unfolding enter_array decode_numbers
decode_array max d = entered_numbers (enter_array max d).1 (enter_array max d).0

abbrev pub AllEncodable : List ℤ → Type 0
AllEncodable [] = Unit
AllEncodable (v ∷ vs) = IsEncodable v × AllEncodable vs

pub decode_numbers-encode_numbers :
    (d : Decoder) (vs : List ℤ) (rest : List ℕ)
    → AtItem d
    → AllEncodable vs
    → pending d ≡ encode_numbers vs ++ rest
    → decode_numbers (length vs) d ≡ some (vs, rest)
unfolding decode_numbers encode_numbers
decode_numbers-encode_numbers d [] rest a h e = ap (λ r. some ([], r)) e
decode_numbers-encode_numbers d (v ∷ vs) rest a (h, hs) e =
    let (decoded, behind, at) =
      decoder_number-encode_int d v (encode_numbers vs ++ rest) a h
        (e ∙ append_assoc (encode_int v) (encode_numbers vs) rest) in
    rw (decoded)
      (ap (add_number v) (decode_numbers-encode_numbers (decoder_number d).0 vs rest at hs behind))

-- An array of fewer than 2 ^ 63 numbers of 64 bits that is encoded is decoded to the same numbers, with
-- the bytes behind it left, where the stack of nested structures has room.
pub decode_array-encode_array :
    (max : ℕ) (d : Decoder) (vs : List ℤ) (rest : List ℕ)
    → AtItem d
    → AllEncodable vs
    → length vs < 2 ^ 63
    → length (pop_complete d.nest_stack) < max
    → pending d ≡ encode_array vs ++ rest
    → decode_array max d ≡ some (vs, rest)
unfolding decode_array encode_array
decode_array-encode_array max d vs rest a h n m e =
    let (count, behind, at) =
      enter_array-definite_array_begin max d (length vs) (encode_numbers vs ++ rest) a n m
        (e ∙ append_assoc (definite_array_begin (length vs)) (encode_numbers vs) rest) in
    ap (λ r. entered_numbers r (enter_array max d).0) count
    ∙ decode_numbers-encode_numbers (enter_array max d).0 vs rest at h behind
