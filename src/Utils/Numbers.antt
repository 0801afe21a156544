-- ===== src/Utils/Numbers.antt =====
-- Numbers as text (src/anj/utils.c), built with ANJ_WITH_CUSTOM_CONVERSION_FUNCTIONS. A text is the
-- list of its bytes, `none` is the result -1. Doubles are not modelled.
use anjay_lite.Base.{
  ℕ, zero, suc, ◌+◌, ◌-◌, ◌*◌, ◌/◌, ◌%◌, ◌^◌, Bool, true, false, not, ◌&&◌, ◌||◌, ◌==◌, ltb, leb,
  if◌then◌else◌, Option, none, some, List, [], ◌∷◌, length,
}
use anjay_lite.Base.Int.{ℤ, pos, negsuc}

abbrev pub Text : Type 0
Text = List ℕ

abbrev pub char_0 : ℕ
char_0 = 48

abbrev pub char_9 : ℕ
char_9 = 57

abbrev pub char_minus : ℕ
char_minus = 45

abbrev pub char_plus : ℕ
char_plus = 43

abbrev pub char_dot : ℕ
char_dot = 46

abbrev pub char_colon : ℕ
char_colon = 58

abbrev pub uint16_max : ℕ
uint16_max = 2 ^ 16 - 1

abbrev pub uint32_max : ℕ
uint32_max = 2 ^ 32 - 1

abbrev pub int64_max : ℕ
int64_max = 2 ^ 63 - 1

abbrev pub is_digit : ℕ → Bool
is_digit c = leb char_0 c && leb c char_9

-- `buff[idx--] = digit`, and the dot before it where it is due; `msg_size` is the length of `buff`
unfoldable pub put_digit : (dot_position : Option ℕ) → (digit : ℕ) → (buff : Text) → Text
put_digit none digit buff = digit ∷ buff
put_digit (some d) digit buff =
    if d == length buff + 1 then char_dot ∷ digit ∷ buff else digit ∷ buff

-- The loop of `uint64_to_string_value_internal`, with the rounds that it may take.
unfoldable pub digits_loop :
    ℕ → (value : ℕ) → (dot_position : Option ℕ) → (ignore_zeros : Bool) → (buff : Text) → Text
digits_loop zero value dot ignore buff = buff
digits_loop (suc rounds) value dot ignore buff =
    let digit = char_0 + value % 10 in
    let skip = ignore && digit == char_0 in
    let buff' = if skip then buff else put_digit dot digit buff in
    let rest = digits_loop rounds (value / 10) dot skip buff' in
    if value / 10 == 0 then buff' else rest

-- `uint64_to_string_value_internal`: a value of 64 bits has twenty digits at most.
unfoldable pub uint64_to_string_value_internal :
    (value : ℕ) → (dot_position : Option ℕ) → (ignore_zeros : Bool) → Text
uint64_to_string_value_internal value dot ignore = digits_loop 20 value dot ignore []

-- `anj_uint64_to_string_value`, and with a narrower argument `anj_uint32_to_string_value` and
-- `anj_uint16_to_string_value`
unfoldable pub uint64_to_string : ℕ → Text
uint64_to_string value = uint64_to_string_value_internal value none false

-- `INT64_MIN_STR`
abbrev pub int64_min_str : Text
int64_min_str =
    45 ∷ 57 ∷ 50 ∷ 50 ∷ 51 ∷ 51 ∷ 55 ∷ 50 ∷ 48 ∷ 51 ∷ 54 ∷ 56 ∷ 53 ∷ 52 ∷ 55 ∷ 55 ∷ 53 ∷ 56 ∷ 48
    ∷ 56 ∷ []

-- `anj_int64_to_string_value`
unfoldable pub int64_to_string : ℤ → Text
int64_to_string (pos n) =
    if n == 0 then char_0 ∷ [] else uint64_to_string_value_internal n none false
int64_to_string (negsuc n) =
    if n == int64_max
    then int64_min_str
    else char_minus ∷ uint64_to_string_value_internal (n + 1) none false

-- The loop of `anj_string_to_uint64_value`, and "incorrect buffer" after it.
unfoldable pub parse_digits : (value : ℕ) → Text → Option ℕ
parse_digits value [] = some value
parse_digits value (c ∷ cs) =
    let next = (10 * value + (c - char_0)) % 2 ^ 64 in
    let rest = parse_digits next cs in
    if not (is_digit c) then none else if ltb next value then none else rest

-- `anj_string_to_uint64_value`
unfoldable pub string_to_uint64 : Text → Option ℕ
string_to_uint64 buff =
    if length buff == 0 || ltb 20 (length buff) then none else parse_digits 0 buff

abbrev pub at_most : (max : ℕ) → Option ℕ → Option ℕ
at_most max none = none
at_most max (some v) = if ltb max v then none else some v

-- `anj_string_to_uint32_value`
unfoldable pub string_to_uint32 : Text → Option ℕ
string_to_uint32 buff = at_most uint32_max (string_to_uint64 buff)

-- `sign * (int64_t) value`, with the test before it
abbrev pub signed : (negative : Bool) → Option ℕ → Option ℤ
signed negative none = none
signed negative (some v) =
    if ltb int64_max v
    then (if v - 1 == int64_max && negative then some (negsuc int64_max) else none)
    else if negative && not (v == 0)
    then some (negsuc (v - 1))
    else some (pos v)

-- `anj_string_to_int64_value`
unfoldable pub string_to_int64 : Text → Option ℤ
string_to_int64 [] = none
string_to_int64 (c ∷ cs) =
    let rest = if c == char_plus || c == char_minus then cs else c ∷ cs in
    signed (c == char_minus) (string_to_uint64 rest)

-- What `strchr` splits: the text before the character and the text behind it.
unfoldable pub split_at : (char : ℕ) → Text → Option (Text × Text)
split_at char [] = none
split_at char (c ∷ cs) =
    let rest = split_at char cs in
    if c == char
    then some ([], cs)
    else elim rest [ none ↦ none | some (before, behind) ↦ some (c ∷ before, behind) ]

-- `anj_string_to_objlnk_value`: the identifiers of object and instance
unfoldable pub string_to_objlnk : Text → Option (ℕ × ℕ)
string_to_objlnk objlnk = elim (split_at char_colon objlnk) [
  | none ↦ none
  | some (before, behind) ↦ elim (at_most uint16_max (string_to_uint32 before)) [
    | none ↦ none
    | some oid ↦ elim (at_most uint16_max (string_to_uint32 behind)) [
      | none ↦ none
      | some iid ↦ some (oid, iid)
    ]
  ]
]

-- `_anj_validate_obj_version` on a text that ends in a NUL byte: 0 is `true`
unfoldable pub validate_obj_version : Option Text → Bool
validate_obj_version none = true
validate_obj_version (some (x ∷ dot ∷ y ∷ [])) = is_digit x && dot == char_dot && is_digit y
validate_obj_version (some _) = false
