-- ===== src/Coap/Options/Uint.antt =====
-- Unsigned options read after they have been added (src/anj/coap/options.c).
use anjay_lite.Base.{
  ℕ, zero, suc, ◌+◌, ◌*◌, ◌/◌, ◌%◌, ◌^◌, ◌≤◌, ◌<◌, ◌≡◌, List, [], ◌∷◌, arith, length, refl, ap, ◌∙◌,
}
use anjay_lite.Coap.Options.{
  ok, error, get_data, option_missing, get_u16, get_u32, from_bytes, from_outcome,
}
use anjay_lite.Coap.Options.Add.{
  Options, add_uint, add_u16, add_u32, bytes, without_zeros, convert_be16, convert_be32,
}
use anjay_lite.Coap.Options.Insertion.{WellFormed}
use anjay_lite.Coap.Options.Reading.{get_data-add_data}

from_bytes-without_zeros :
    (bits : ℕ) (bs : List ℕ) → from_bytes bits 0 (without_zeros bs) ≡ from_bytes bits 0 bs
unfolding from_bytes without_zeros
from_bytes-without_zeros bits [] = refl
from_bytes-without_zeros bits (b ∷ bs) = ground (arith, from_bytes-without_zeros bits bs)

from_bytes-convert_be16 :
    (value : ℕ) → value < 2 ^ 16 → from_bytes 16 0 (bytes 2 (convert_be16 value)) ≡ value
unfolding from_bytes bytes convert_be16
from_bytes-convert_be16 value h = omega arith

bytes-convert_be32 :
    (value : ℕ)
    → value < 2 ^ 32
    → bytes 4 (convert_be32 value)
      ≡ value / 2 ^ 24 ∷ value / 2 ^ 16 % 2 ^ 8 ∷ value / 2 ^ 8 % 2 ^ 8 ∷ value % 2 ^ 8 ∷ []
unfolding bytes convert_be32
bytes-convert_be32 value h = ground arith

from_bytes-four :
    (a b c d : ℕ)
    → a < 2 ^ 8
    → b < 2 ^ 8
    → c < 2 ^ 8
    → d < 2 ^ 8
    → from_bytes 32 0 (a ∷ b ∷ c ∷ d ∷ []) ≡ a * 2 ^ 24 + b * 2 ^ 16 + c * 2 ^ 8 + d
unfolding from_bytes
from_bytes-four a b c d ha hb hc hd = omega arith

from_bytes-convert_be32 :
    (value : ℕ) → value < 2 ^ 32 → from_bytes 32 0 (bytes 4 (convert_be32 value)) ≡ value
from_bytes-convert_be32 value h =
    ap (λ (bs : List ℕ). from_bytes 32 0 bs) (bytes-convert_be32 value h)
    ∙ from_bytes-four (value / 2 ^ 24) (value / 2 ^ 16 % 2 ^ 8) (value / 2 ^ 8 % 2 ^ 8)
        (value % 2 ^ 8) (omega arith) (omega arith) (omega arith) (omega arith)
    ∙ omega arith

without_zeros-shorter : (bs : List ℕ) → length (without_zeros bs) ≤ length bs
unfolding without_zeros
without_zeros-shorter [] = omega arith
without_zeros-shorter (b ∷ bs) = ground (arith, without_zeros-shorter bs)

length-bytes : (n value : ℕ) → length (bytes n value) ≡ n
unfolding bytes
length-bytes zero value = refl
length-bytes (suc n) value = ap suc (length-bytes n (value / 2 ^ 8))

-- If well-formed options have no option `number` yet, below 525, then a value of 16 bits that has been
-- added with success, its leading zero bytes left out, reads back as the same value.
pub get_u16-add_u16 :
    (opts opts' : Options) (number value : ℕ)
    → WellFormed opts
    → number < 525
    → get_data opts.buff opts.options number 0 2 ≡ error option_missing
    → value < 2 ^ 16
    → add_u16 opts number value ≡ ok opts'
    → get_u16 opts'.buff opts'.options number 0 ≡ ok value
unfolding get_u16 add_u16 add_uint
get_u16-add_u16 opts opts' number value w small missing h e =
    let bs : List ℕ = bytes 2 (convert_be16 value) in
    let short = without_zeros-shorter bs in
    let size = length-bytes 2 (convert_be16 value) in
    let read =
      get_data-add_data opts opts' number (without_zeros bs) 2 w small (omega (arith, short, size))
        (omega (arith, short, size)) missing e in
    ap (from_outcome 16) read
    ∙ ap ok (from_bytes-without_zeros 16 bs ∙ from_bytes-convert_be16 value h)

-- If well-formed options have no option `number` yet, below 525, then a value of 32 bits that has been
-- added with success, its leading zero bytes left out, reads back as the same value.
pub get_u32-add_u32 :
    (opts opts' : Options) (number value : ℕ)
    → WellFormed opts
    → number < 525
    → get_data opts.buff opts.options number 0 4 ≡ error option_missing
    → value < 2 ^ 32
    → add_u32 opts number value ≡ ok opts'
    → get_u32 opts'.buff opts'.options number 0 ≡ ok value
unfolding get_u32 add_u32 add_uint
get_u32-add_u32 opts opts' number value w small missing h e =
    let bs : List ℕ = bytes 4 (convert_be32 value) in
    let short = without_zeros-shorter bs in
    let size = length-bytes 4 (convert_be32 value) in
    let read =
      get_data-add_data opts opts' number (without_zeros bs) 4 w small (omega (arith, short, size))
        (omega (arith, short, size)) missing e in
    ap (from_outcome 32) read
    ∙ ap ok (from_bytes-without_zeros 32 bs ∙ from_bytes-convert_be32 value h)
