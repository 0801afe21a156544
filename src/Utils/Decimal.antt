-- ===== src/Utils/Decimal.antt =====
-- A number that is printed and parsed again (src/anj/utils.c).
use anjay_lite.Base.{
  ℕ, zero, suc, ◌+◌, ◌/◌, ◌%◌, ◌^◌, ◌≤◌, ◌<◌, ◌≡◌, false, none, some, [], ◌∷◌, ◌++◌, length, arith,
  refl, ap, ◌∙◌,
}
use anjay_lite.Base.Int.{ℤ, pos, negsuc}
use anjay_lite.Utils.Numbers.{
  Text, char_0, char_9, char_minus, char_colon, put_digit, digits_loop,
  uint64_to_string_value_internal, uint64_to_string, int64_to_string, parse_digits,
  string_to_uint64, string_to_uint32, string_to_int64, split_at, string_to_objlnk, uint16_max,
  int64_max, at_most, signed, int64_min_str,
}

abbrev pub AllDigits : Text → Type 0
AllDigits [] = Unit
AllDigits (c ∷ cs) = (char_0 ≤ c) × (c ≤ char_9) × AllDigits cs

digits_loop-AllDigits :
    (rounds value : ℕ) (buff : Text)
    → AllDigits buff
    → AllDigits (digits_loop rounds value none false buff)
unfolding digits_loop put_digit
digits_loop-AllDigits zero value buff h = h
digits_loop-AllDigits (suc rounds) value buff h =
    ground (arith, digits_loop-AllDigits rounds (value / 10) ((char_0 + value % 10) ∷ buff))

length-digits_loop :
    (rounds value : ℕ) (buff : Text)
    → (length buff ≤ length (digits_loop rounds value none false buff))
      × (length (digits_loop rounds value none false buff) ≤ rounds + length buff)
unfolding digits_loop put_digit
length-digits_loop zero value buff = ground arith
length-digits_loop (suc rounds) value buff =
    ground (arith, length-digits_loop rounds (value / 10) ((char_0 + value % 10) ∷ buff))

length-digits_loop-suc :
    (rounds value : ℕ) (buff : Text) → 0 < length (digits_loop (suc rounds) value none false buff)
unfolding digits_loop put_digit
length-digits_loop-suc rounds value buff =
    ground (arith, length-digits_loop rounds (value / 10) ((char_0 + value % 10) ∷ buff))

parse_digits-digits_loop :
    (rounds value : ℕ) (buff : Text)
    → value < 10 ^ suc rounds
    → value < 2 ^ 64
    → parse_digits 0 (digits_loop (suc rounds) value none false buff) ≡ parse_digits value buff
unfolding digits_loop put_digit parse_digits
parse_digits-digits_loop zero value buff h h' = ground arith
parse_digits-digits_loop (suc rounds) value buff h h' =
    ground (arith, parse_digits-digits_loop rounds (value / 10) ((char_0 + value % 10) ∷ buff))

-- Every number of 64 bits, as it is printed, is parsed back to itself.
pub string_to_uint64-uint64_to_string :
    (value : ℕ) → value < 2 ^ 64 → string_to_uint64 (uint64_to_string value) ≡ some value
unfolding string_to_uint64 uint64_to_string uint64_to_string_value_internal parse_digits
string_to_uint64-uint64_to_string value h =
    let parsed : parse_digits 0 (digits_loop 20 value none false []) ≡ some value =
      parse_digits-digits_loop 19 value [] (omega (arith, h)) h in
    ground (arith, parsed, length-digits_loop 20 value [], length-digits_loop-suc 19 value [])

-- A value of `int64_t`.
abbrev pub IsInt64 : ℤ → Type 0
IsInt64 (pos n) = n ≤ int64_max
IsInt64 (negsuc n) = n ≤ int64_max

pub string_to_uint32-uint64_to_string :
    (n : ℕ) → n < 2 ^ 32 → string_to_uint32 (uint64_to_string n) ≡ some n
unfolding string_to_uint32
string_to_uint32-uint64_to_string n h =
    ground (arith, string_to_uint64-uint64_to_string n (omega arith))

digits_loop-short :
    (digits rounds value : ℕ) (buff : Text)
    → value < 10 ^ suc digits
    → length (digits_loop rounds value none false buff) ≤ suc digits + length buff
unfolding digits_loop put_digit
digits_loop-short digits zero value buff h = omega arith
digits_loop-short zero (suc rounds) value buff h = ground arith
digits_loop-short (suc digits) (suc rounds) value buff h =
    ground (arith, digits_loop-short digits rounds (value / 10) ((char_0 + value % 10) ∷ buff))

-- A number of 16 bits has one to five digits.
pub length-uint64_to_string :
    (n : ℕ) → n < 2 ^ 16 → (0 < length (uint64_to_string n)) × (length (uint64_to_string n) ≤ 5)
unfolding uint64_to_string uint64_to_string_value_internal
length-uint64_to_string n h =
    (length-digits_loop-suc 19 n [], digits_loop-short 4 20 n [] (omega arith))

signed-digits :
    (text : Text) → AllDigits text → string_to_int64 text ≡ signed false (string_to_uint64 text)
unfolding string_to_int64 string_to_uint64
signed-digits [] h = refl
signed-digits (c ∷ cs) h = ground (arith, h)

uint64_to_string-zero : uint64_to_string 0 ≡ char_0 ∷ []
unfolding uint64_to_string uint64_to_string_value_internal digits_loop put_digit
uint64_to_string-zero = refl

int64_to_string-pos : (n : ℕ) → int64_to_string (pos n) ≡ uint64_to_string n
unfolding int64_to_string uint64_to_string
int64_to_string-pos n = ground (arith, uint64_to_string-zero)

pub uint64_to_string-AllDigits : (n : ℕ) → AllDigits (uint64_to_string n)
unfolding uint64_to_string uint64_to_string_value_internal
uint64_to_string-AllDigits n = digits_loop-AllDigits 20 n [] tt

int64_min_parses : string_to_int64 int64_min_str ≡ some (negsuc int64_max)
unfolding string_to_int64 string_to_uint64 parse_digits
int64_min_parses = refl

minus_digits :
    (n : ℕ)
    → n < int64_max
    → string_to_int64 (char_minus ∷ uint64_to_string (n + 1)) ≡ some (negsuc n)
unfolding string_to_int64
minus_digits n h = ground (arith, string_to_uint64-uint64_to_string (n + 1) (omega arith))

negative : (n : ℕ) → n ≤ int64_max → string_to_int64 (int64_to_string (negsuc n)) ≡ some (negsuc n)
unfolding int64_to_string uint64_to_string
negative n h = ground (arith, int64_min_parses, minus_digits n)

-- Every number of 64 bits with a sign, the least one included, as it is printed, is parsed back to
-- itself.
pub string_to_int64-int64_to_string :
    (value : ℤ) → IsInt64 value → string_to_int64 (int64_to_string value) ≡ some value
string_to_int64-int64_to_string (pos n) h =
    ap string_to_int64 (int64_to_string-pos n)
    ∙ signed-digits (uint64_to_string n) (uint64_to_string-AllDigits n)
    ∙ ap (signed false) (string_to_uint64-uint64_to_string n (omega arith))
    ∙ ground arith
string_to_int64-int64_to_string (negsuc n) h = negative n h

-- An identifier's text has no colon.
split_at-AllDigits :
    (before behind : Text)
    → AllDigits before
    → split_at char_colon (before ++ (char_colon ∷ behind)) ≡ some (before, behind)
unfolding split_at
split_at-AllDigits [] behind h = ground arith
split_at-AllDigits (c ∷ cs) behind (h, h', hs) = ground (arith, split_at-AllDigits cs behind hs)

string_to_uint32-uint16 :
    (n : ℕ) → n < 2 ^ 16 → at_most uint16_max (string_to_uint32 (uint64_to_string n)) ≡ some n
unfolding string_to_uint32
string_to_uint32-uint16 n h = ground (arith, string_to_uint64-uint64_to_string n (omega arith))

-- An object link, two identifiers of 16 bits as they are printed with a colon between them, is parsed
-- back to the identifiers.
pub string_to_objlnk-uint64_to_string :
    (oid iid : ℕ)
    → oid < 2 ^ 16
    → iid < 2 ^ 16
    → string_to_objlnk (uint64_to_string oid ++ (char_colon ∷ uint64_to_string iid))
      ≡ some (oid, iid)
unfolding string_to_objlnk
string_to_objlnk-uint64_to_string oid iid h h' = ground (
  arith,
  split_at-AllDigits (uint64_to_string oid) (uint64_to_string iid) (uint64_to_string-AllDigits oid),
  string_to_uint32-uint16 oid h,
  string_to_uint32-uint16 iid h',
)
