-- ===== src/Io/Base64/Tests.antt =====
-- Base64 of concrete bytes.
use anjay_lite.Base.{
  Bool, Option, ◌&&◌, not, ◌==◌, Bool-cases, inl, inr, ap, ◌∙◌, ℕ, ◌<◌, ◌≡◌, true, false, none,
  some, List, [], ◌∷◌, ◌++◌, get_or, refl, arith, suc, zero,
}
use anjay_lite.Io.Base64.{
  Config, encoded_size, encode_loop, padding, base64_encode, index_of, decode_char, take_digit,
  decode_loop, base64_decode, is_space,
}
use anjay_lite.Io.Base64.Decoding.{base64_decode-base64_encode}
use anjay_lite.Io.Base64.RoundTrip.{GoodAlphabet}

-- `count` characters from `c` on.
abbrev range : (c count : ℕ) → List ℕ
range c zero = []
range c (suc count) = c ∷ range (suc c) count

-- `ANJ_BASE64_CHARS`
abbrev base64_chars : List ℕ
base64_chars = range 65 26 ++ (range 97 26 ++ (range 48 10 ++ (43 ∷ 47 ∷ [])))

-- `ANJ_BASE64_DEFAULT_STRICT_CONFIG`
abbrev strict_config : Config
strict_config = record {
  alphabet = base64_chars;
  padding_char = 61;
  allow_whitespace = false;
  require_padding = true;
  without_null_termination = false;
}

encode_test :
    base64_encode strict_config 9 (77 ∷ 97 ∷ 110 ∷ 33 ∷ [])
    ≡ some (84 ∷ 87 ∷ 70 ∷ 117 ∷ 73 ∷ 81 ∷ 61 ∷ 61 ∷ [])
unfolding base64_encode encoded_size encode_loop padding
encode_test = refl

-- A buffer of just the size of the bytes is too small where padding follows.
exact_buffer_test : base64_decode strict_config 1 (73 ∷ 81 ∷ 61 ∷ 61 ∷ []) ≡ none
unfolding base64_decode decode_loop decode_char take_digit index_of
exact_buffer_test = refl

-- A test on all numbers below a bound.
abbrev all_below : (ℕ → Bool) → ℕ → Bool
all_below f zero = true
all_below f (suc n) = f n && all_below f n

below : (f : ℕ → Bool) (n : ℕ) → all_below f n ≡ true → (i : ℕ) → i < n → f i ≡ true
below f zero h i l = elim l [ ]
below f (suc n) h i l = elim (Bool-cases (i == n)) [
  | inl e ↦ ap f {x = i} {y = n} (ground (arith, e)) ∙ ground (arith, h)
  | inr e ↦ below f n (ground (arith, h)) i (ground (arith, e))
]

abbrev found_at : ℕ → Option ℕ → Bool
found_at i none = false
found_at i (some j) = j == i

found_at-true : (i : ℕ) (o : Option ℕ) → found_at i o ≡ true → o ≡ some i
found_at-true i none h = ground (arith, h)
found_at-true i (some j) h = ground (arith, h)

-- The character is at its place, is no white space and is not the padding.
abbrev good_char : ℕ → Bool
good_char i =
    let c = get_or base64_chars i 0 in
    found_at i (index_of base64_chars c) && not (is_space c) && not (c == 61)

all_good : all_below good_char 64 ≡ true
unfolding index_of
all_good = refl

all_true :
    (found : Bool) (space : Bool) (padded : Bool)
    → (found && not space && not padded) ≡ true
    → (found ≡ true) × (space ≡ false) × (padded ≡ false)
all_true found space padded h = ground (arith, h)

char_is_good :
    (i : ℕ)
    → i < 64
    → (found_at i (index_of base64_chars (get_or base64_chars i 0)) ≡ true)
      × (is_space (get_or base64_chars i 0) ≡ false)
      × ((get_or base64_chars i 0 == 61) ≡ false)
char_is_good i h =
    all_true (found_at i (index_of base64_chars (get_or base64_chars i 0)))
      (is_space (get_or base64_chars i 0)) (get_or base64_chars i 0 == 61)
      (below good_char 64 all_good i h)

strict_config-GoodAlphabet : GoodAlphabet strict_config
strict_config-GoodAlphabet = record {
  found =
      λ i h. found_at-true i (index_of base64_chars (get_or base64_chars i 0)) (char_is_good i h).0;
  no_space = λ i h. (char_is_good i h).1;
  no_padding = λ i h. (char_is_good i h).2;
}

base64_decode-base64_encode_example :
    base64_decode strict_config 5 (84 ∷ 87 ∷ 70 ∷ 117 ∷ 73 ∷ 81 ∷ 61 ∷ 61 ∷ [])
    ≡ some (77 ∷ 97 ∷ 110 ∷ 33 ∷ [])
base64_decode-base64_encode_example =
    base64_decode-base64_encode strict_config (77 ∷ 97 ∷ 110 ∷ 33 ∷ [])
      (84 ∷ 87 ∷ 70 ∷ 117 ∷ 73 ∷ 81 ∷ 61 ∷ 61 ∷ []) 9 5 strict_config-GoodAlphabet refl
      (omega arith, (omega arith, (omega arith, (omega arith, tt)))) (omega arith) encode_test
