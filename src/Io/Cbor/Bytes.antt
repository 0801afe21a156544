-- ===== src/Io/Cbor/Bytes.antt =====
-- src/anj/io/cbor_encoder_ll.c and cbor_decoder_ll.c: the bytes of a number.
use anjay_lite.Base.{
  arith, ◌≡◌, refl, ℕ, zero, suc, ◌+◌, ◌*◌, ◌/◌, ◌%◌, ◌^◌, ◌<◌, List, [], ◌∷◌, ◌++◌, length,
  length-append,
}
use anjay_lite.Io.Cbor.{be_bytes}
use anjay_lite.Io.Cbor.Number.{from_be}

from_be-append :
    (high : ℕ) (bs : List ℕ) (b : ℕ) → from_be high (bs ++ (b ∷ [])) ≡ from_be high bs * 2 ^ 8 + b
unfolding from_be
from_be-append high [] b = refl
from_be-append high (a ∷ bs) b = from_be-append (high * 2 ^ 8 + a) bs b

pub length-be_bytes : (size value : ℕ) → length (be_bytes size value) ≡ size
unfolding be_bytes
length-be_bytes zero v = refl
length-be_bytes (suc n) v = omega (
  arith,
  length-append (be_bytes n (v / 2 ^ 8)) ((v % 2 ^ 8) ∷ []),
  length-be_bytes n (v / 2 ^ 8),
)

-- The bytes of a number that fits in so many of them
pub from_be-be_bytes :
    (size value : ℕ) → value < 256 ^ size → from_be 0 (be_bytes size value) ≡ value
unfolding be_bytes from_be
from_be-be_bytes zero v h = omega arith
from_be-be_bytes (suc n) v h = ground (
  arith,
  from_be-append 0 (be_bytes n (v / 2 ^ 8)) (v % 2 ^ 8),
  from_be-be_bytes n (v / 2 ^ 8) (omega (arith, h)),
)
