-- ===== src/Utils/Tests.antt =====
-- Runs of the functions of utils.c, and their theorems at concrete inputs.
use anjay_lite.Base.{◌≡◌, refl, arith, true, some, [], ◌∷◌}
use anjay_lite.Utils.Decimal.{string_to_uint64-uint64_to_string, string_to_int64-int64_to_string}
use anjay_lite.Base.Int.{negsuc}
use anjay_lite.Utils.Numbers.{
  uint64_to_string, parse_digits, string_to_uint64, validate_obj_version, int64_max,
  int64_to_string, string_to_int64,
}
use anjay_lite.Utils.BlockSize.{determine_block_buffer_size}

block_size_of_100 : determine_block_buffer_size 100 ≡ 64
unfolding determine_block_buffer_size
block_size_of_100 = refl

string_to_uint64-uint64_to_string_example :
    string_to_uint64 (uint64_to_string 18446744073709551615) ≡ some 18446744073709551615
string_to_uint64-uint64_to_string_example =
    string_to_uint64-uint64_to_string 18446744073709551615 (omega arith)

-- "30000000000000000000" is more than 2 ^ 64 - 1, and is accepted.
overflow_test :
    string_to_uint64 (
      51 ∷ 48 ∷ 48 ∷ 48 ∷ 48 ∷ 48 ∷ 48 ∷ 48 ∷ 48 ∷ 48 ∷ 48 ∷ 48 ∷ 48 ∷ 48 ∷ 48 ∷ 48 ∷ 48 ∷ 48 ∷ 48
      ∷ 48 ∷ [])
    ≡ some 11553255926290448384
unfolding string_to_uint64 parse_digits
overflow_test = refl

version_test : validate_obj_version (some (49 ∷ 46 ∷ 49 ∷ [])) ≡ true
unfolding validate_obj_version
version_test = refl

string_to_int64-int64_to_string_example :
    string_to_int64 (int64_to_string (negsuc int64_max)) ≡ some (negsuc int64_max)
string_to_int64-int64_to_string_example =
    string_to_int64-int64_to_string (negsuc int64_max) (omega arith)
