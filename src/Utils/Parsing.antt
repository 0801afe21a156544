-- ===== src/Utils/Parsing.antt =====
-- What `anj_string_to_uint64_value` (src/anj/utils.c) accepts.
use anjay_lite.Base.{
  ℕ, zero, suc, ◌+◌, ◌-◌, ◌*◌, ◌^◌, ◌≤◌, ◌≡◌, Bool, true, not, ◌&&◌, ◌==◌, if◌then◌else◌, none,
  some, [], ◌∷◌, length, arith, refl,
}
use anjay_lite.Utils.Numbers.{Text, char_0, is_digit, parse_digits, string_to_uint64}

abbrev pub all_digits : Text → Bool
all_digits [] = true
all_digits (c ∷ cs) = is_digit c && all_digits cs

-- The number that the digits spell, of any size.
abbrev pub decimal : (value : ℕ) → Text → ℕ
decimal value [] = value
decimal value (c ∷ cs) = decimal (10 * value + (c - char_0)) cs

-- The largest number of so many digits.
largest : ℕ → ℕ
largest zero = 0
largest (suc digits) = 10 * largest digits + 9

largest_mono : (k j : ℕ) → largest k ≤ largest (j + k)
unfolding largest
largest_mono k zero = grind arith
largest_mono k (suc j) = grind (arith, largest_mono k j)

largest_19 : largest 19 ≡ 10 ^ 19 - 1
unfolding largest
largest_19 = refl

largest-below : (k : ℕ) → k ≤ 19 → largest k ≤ 10 ^ 19 - 1
largest-below k h = grind (arith, largest_mono k (19 - k), largest_19)

parse_digits-decimal :
    (k value : ℕ) (text : Text)
    → value ≤ largest k
    → k + length text ≤ 19
    → parse_digits value text ≡ (if all_digits text then some (decimal value text) else none)
unfolding parse_digits largest
parse_digits-decimal k value [] h fits = refl
parse_digits-decimal k value (c ∷ cs) h fits =
    ground
      (arith, parse_digits-decimal (suc k) (10 * value + (c - char_0)) cs, largest-below (suc k))

-- A text of at most nineteen bytes is parsed exactly: if it is not empty and all of it is digits, to
-- the number that they spell, and otherwise the result is the error.
pub string_to_uint64-decimal :
    (text : Text)
    → length text ≤ 19
    → string_to_uint64 text
      ≡ (if not (length text == 0) && all_digits text then some (decimal 0 text) else none)
unfolding string_to_uint64
string_to_uint64-decimal text h = ground (arith, parse_digits-decimal 0 0 text)
