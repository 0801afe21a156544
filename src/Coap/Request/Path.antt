-- ===== src/Coap/Request/Path.antt =====
-- `get_uri_path` (src/anj/coap/decode.c) reads the path that a message carries in its options.
use anjay_lite.Base.{
  ℕ, zero, suc, ◌+◌, ◌^◌, ◌≤◌, ◌<◌, ◌≡◌, false, ◌==◌, List, [], ◌∷◌, ◌++◌, length, if◌then◌else◌,
  ltb, arith, refl, ap, ◌∙◌, length-append,
}
use anjay_lite.Coap.{bytes_equal}
use anjay_lite.Coap.Options.{
  Memory, Outcome, ok, error, CoapOption, option_missing, err_malformed_message, get_data,
}
use anjay_lite.Coap.Options.Items.{Item, items}
use anjay_lite.Coap.Options.Reading.{length-load}
use anjay_lite.Coap.Request.{
  option_uri_path, uri_path_max_len_str, uri_path_max_length, bs, next_id, uri_segment, uri_error,
  uri_path_loop, get_uri_path,
}
use anjay_lite.Utils.Decimal.{
  string_to_uint32-uint64_to_string, length-uint64_to_string, AllDigits, uint64_to_string-AllDigits,
}
use anjay_lite.Utils.Numbers.{Text, uint64_to_string}
use anjay_lite.Utils.UriPath.{UriPath}

-- The contents of the options with a number, in their order.
abbrev pub contents_of : ℕ → List Item → List Text
contents_of number [] = []
contents_of number (i ∷ is) =
    if i.number == number then i.content ∷ contents_of number is else contents_of number is

abbrev nth : List Text → (index size : ℕ) → Outcome Text
nth [] index size = error option_missing
nth (t ∷ ts) zero size = if ltb size (length t) then error err_malformed_message else ok t
nth (t ∷ ts) (suc index) size = nth ts index size

get_data-nth :
    (mem : Memory) (os : List CoapOption) (number index size : ℕ)
    → get_data mem os number index size ≡ nth (contents_of number (items mem os)) index size
unfolding get_data
get_data-nth mem [] number index size = refl
get_data-nth mem (o ∷ os) number zero size =
    ground (arith, get_data-nth mem os number zero size, length-load mem o.payload o.payload_len)
get_data-nth mem (o ∷ os) number (suc index) size =
    ground
      (arith, get_data-nth mem os number index size, get_data-nth mem os number (suc index) size)

abbrev pub texts : UriPath → List Text
texts [] = []
texts (id ∷ ids) = uint64_to_string id ∷ texts ids

abbrev pub AllIds : UriPath → Type 0
AllIds [] = Unit
AllIds (id ∷ ids) = (id < 2 ^ 16) × AllIds ids

bytes_equal-digits : (text : Text) → AllDigits text → bytes_equal text bs ≡ false
bytes_equal-digits [] h = refl
bytes_equal-digits (c ∷ cs) h = ground (arith, h)

uri_segment-uint64_to_string :
    (uri : UriPath) (id : ℕ)
    → id < 2 ^ 16
    → length uri < uri_path_max_length
    → uri_segment uri (uint64_to_string id) ≡ next_id id
unfolding uri_segment
uri_segment-uint64_to_string uri id h room = ground (
  arith,
  length-uint64_to_string id h,
  bytes_equal-digits (uint64_to_string id) (uint64_to_string-AllDigits id),
  string_to_uint32-uint64_to_string id (omega arith),
)

append-one :
    (uri : UriPath) (id : ℕ) (ids : UriPath) → (uri ++ (id ∷ [])) ++ ids ≡ uri ++ (id ∷ ids)
append-one [] id ids = refl
append-one (u ∷ us) id ids = rw (append-one us id ids)

append-none : (uri : UriPath) → uri ++ [] ≡ uri
append-none [] = refl
append-none (u ∷ us) = rw (append-none us)

uri_path_loop-texts :
    (mem : Memory) (opts : List CoapOption) (rest : UriPath) (rounds it : ℕ) (uri : UriPath)
    → ((j : ℕ)
        → get_data mem opts option_uri_path (it + j) uri_path_max_len_str
          ≡ nth (texts rest) j uri_path_max_len_str)
    → AllIds rest
    → length uri + length rest ≤ uri_path_max_length
    → length rest < rounds
    → 0 < length uri + length rest
    → uri_path_loop rounds mem opts it uri ≡ ok (uri ++ rest, false)
unfolding uri_path_loop uri_error
uri_path_loop-texts mem opts rest zero it uri read ids h fuel some_id = absurd (omega arith)
uri_path_loop-texts mem opts [] (suc rounds) it uri read ids h fuel some_id =
    let missing =
      ap (λ (k : ℕ). get_data mem opts option_uri_path k uri_path_max_len_str) {x = it} {y = it + 0}
        (omega arith)
      ∙ read 0 in
    ground (arith, missing, append-none uri)
uri_path_loop-texts mem opts (id ∷ rest) (suc rounds) it uri read (fits, ids) h fuel some_id =
    let text =
      ap (λ (k : ℕ). get_data mem opts option_uri_path k uri_path_max_len_str) {x = it} {y = it + 0}
        (omega arith)
      ∙ read 0 in
    let longer = length-append uri (id ∷ []) in
    let later =
      uri_path_loop-texts mem opts rest rounds (it + 1) (uri ++ (id ∷ []))
        (λ j.
          ap (λ (k : ℕ). get_data mem opts option_uri_path k uri_path_max_len_str) {x = it + 1 + j}
            {y = it + suc j} (omega arith)
          ∙ read (suc j))
        ids (omega (arith, h, longer)) (omega (arith, fuel)) (omega (arith, longer)) in
    ground (
      arith,
      text,
      length-uint64_to_string id fits,
      uri_segment-uint64_to_string uri id fits (omega (arith, h)),
      later,
      append-one uri id rest,
    )

-- If the Uri-Path options of a message are, in their order, the texts of one to four identifiers of 16
-- bits, then the path that is read is the list of these identifiers, and not the one of Bootstrap-Finish.
pub get_uri_path-texts :
    (mem : Memory) (opts : List CoapOption) (path : UriPath)
    → contents_of option_uri_path (items mem opts) ≡ texts path
    → AllIds path
    → 0 < length path
    → length path ≤ uri_path_max_length
    → get_uri_path mem opts ≡ ok (path, false)
unfolding get_uri_path
get_uri_path-texts mem opts path e ids some_id h =
    uri_path_loop-texts mem opts path 5 0 []
      (λ j.
        ap (λ (k : ℕ). get_data mem opts option_uri_path k uri_path_max_len_str) {x = 0 + j} {y = j}
          (omega arith)
        ∙ get_data-nth mem opts option_uri_path j uri_path_max_len_str
        ∙ ap (λ (ts : List Text). nth ts j uri_path_max_len_str) e)
      ids (omega arith) (omega arith) (omega arith)
