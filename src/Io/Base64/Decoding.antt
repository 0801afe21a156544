-- ===== src/Io/Base64/Decoding.antt =====
-- The decoding of encoded bytes with their padding (src/anj/io/base64.c).
use anjay_lite.Base.{
  ℕ, suc, ◌+◌, ◌-◌, ◌*◌, ◌/◌, ◌%◌, ◌<◌, ◌≡◌, false, ◌==◌, if◌then◌else◌, some, List, [], ◌∷◌, ◌++◌,
  length, arith, refl, replicate, ap, ◌∙◌,
}
use anjay_lite.Io.Base64.{
  Config, encode_loop, padding, base64_encode, is_space, Decoder, decode_char, after, decode_loop,
  base64_decode,
}
use anjay_lite.Io.Base64.RoundTrip.{
  GoodAlphabet, At, two_digits, one_digit, last_digit, AllBytes, encode_loop-three, encode_loop-two,
  encode_loop-none, encode_loop-one, char,
}

module _ (config : Config) (good : GoodAlphabet config)
    (visible : is_space config.padding_char ≡ false) (out_size : ℕ) where
  no_padding_left :
      (d : Decoder) (m n bits low : ℕ)
      → m % 4 ≡ 0
      → n % 3 ≡ 0
      → At bits low n d
      → decode_loop config out_size d (padding config m) ≡ some []
  unfolding padding decode_loop
  no_padding_left d m n bits low h h' a =
      ap
        (λ (k : ℕ).
          decode_loop config out_size d
            (if config.padding_char == 0 then [] else replicate k config.padding_char))
        {x = (4 - m % 4) % 4} {y = 0} (omega arith)
      ∙ ground (arith, a.no_padding, a.written_is)

  one_padding_char :
      (d : Decoder) (m n bits low : ℕ)
      → m % 4 ≡ 3
      → n % 3 ≡ 2
      → n < out_size
      → At bits low n d
      → decode_loop config out_size d (padding config m) ≡ some []
  unfolding padding decode_loop decode_char
  one_padding_char d m n bits low h h' room a =
      ap
        (λ (k : ℕ).
          decode_loop config out_size d
            (if config.padding_char == 0 then [] else replicate k config.padding_char))
        {x = (4 - m % 4) % 4} {y = 1} (omega arith)
      ∙ ground (arith, a.no_padding, a.written_is, visible)

  two_padding_chars :
      (d : Decoder) (m n bits low : ℕ)
      → m % 4 ≡ 2
      → n % 3 ≡ 1
      → n < out_size
      → At bits low n d
      → decode_loop config out_size d (padding config m) ≡ some []
  unfolding padding decode_loop decode_char
  two_padding_chars d m n bits low h h' room a =
      ap
        (λ (k : ℕ).
          decode_loop config out_size d
            (if config.padding_char == 0 then [] else replicate k config.padding_char))
        {x = (4 - m % 4) % 4} {y = 2} (omega arith)
      ∙ ground (arith, a.no_padding, a.written_is, visible)

  -- The text of the bytes from index `i` on, and the padding behind `m` characters and these.
  abbrev padded : (m : ℕ) → List ℕ → List ℕ
  padded m text = text ++ padding config (m + length text)

  decode_loop-encode_loop :
      (input : List ℕ) (i sh m n low : ℕ) (d : Decoder)
      → i % 3 ≡ 0
      → m % 4 ≡ 0
      → n % 3 ≡ 0
      → At 0 low n d
      → AllBytes input
      → n + length input < out_size
      → decode_loop config out_size d (padded m (encode_loop config i sh input)) ≡ some input
  decode_loop-encode_loop [] i sh m n low d hi hm hn a b room =
      ap (λ (t : List ℕ). decode_loop config out_size d (padded m t))
        {x = encode_loop config i sh []} {y = []} (encode_loop-none config i sh hi)
      ∙ no_padding_left d (m + 0) n 0 low (omega arith) hn a
  decode_loop-encode_loop (x ∷ []) i sh m n low d hi hm hn a (bx, b) room =
      let one = two_digits config good out_size d n low x 0 a bx (omega arith) (omega arith) in
      let text : List ℕ = char config (x / 4) ∷ char config (x % 4 * 16 + 0) ∷ [] in
      ap (λ (t : List ℕ). decode_loop config out_size d (padded m t))
        {x = encode_loop config i sh (x ∷ [])} {y = text}
        (grind (arith, encode_loop-one config i sh x hi))
      ∙ one.decodes (padding config (m + 2))
      ∙ ap (after (x ∷ [])) (
          two_padding_chars one.next (m + 2) (n + 1) 4 0 (omega arith) (omega arith) (omega arith)
            one.next_is)
  decode_loop-encode_loop (x ∷ y ∷ []) i sh m n low d hi hm hn a (bx, (by_, b)) room =
      let one =
        two_digits config good out_size d n low x (y / 16) a bx (omega arith) (omega arith) in
      let two =
        one_digit config good out_size one.next (n + 1) y 0 one.next_is by_ (omega arith)
          (omega arith) in
      let text : List ℕ =
        char config (x / 4)
        ∷ char config (x % 4 * 16 + y / 16)
        ∷ char config (y % 16 * 4 + 0)
        ∷ [] in
      ap (λ (t : List ℕ). decode_loop config out_size d (padded m t))
        {x = encode_loop config i sh (x ∷ y ∷ [])} {y = text}
        (grind (arith, encode_loop-two config i sh x y hi))
      ∙ one.decodes (char config (y % 16 * 4 + 0) ∷ padding config (m + 3))
      ∙ ap (after (x ∷ [])) (
          two.decodes (padding config (m + 3))
          ∙ ap (after (y ∷ [])) (
              one_padding_char two.next (m + 3) (n + 1 + 1) 2 0 (omega arith) (omega arith)
                (omega arith) two.next_is))
  decode_loop-encode_loop (x ∷ y ∷ z ∷ rest) i sh m n low d hi hm hn a (bx, (by_, (bz, b))) room =
      let one =
        two_digits config good out_size d n low x (y / 16) a bx (omega arith) (omega arith) in
      let two =
        one_digit config good out_size one.next (n + 1) y (z / 64) one.next_is by_ (omega arith)
          (omega arith) in
      let three =
        last_digit config good out_size two.next (n + 1 + 1) z two.next_is bz (omega arith) in
      let later : List ℕ = encode_loop config (i + 1 + 1 + 1) (y % 16) rest in
      let tail : List ℕ =
        later
        ++ padding config
            (m + length (char config 0 ∷ char config 0 ∷ char config 0 ∷ char config 0 ∷ later)) in
      let again =
        decode_loop-encode_loop rest (i + 1 + 1 + 1) (y % 16) (m + 4) (n + 1 + 1 + 1) 0 three.next
          (omega arith) (omega arith) (omega arith) three.next_is b (omega arith) in
      ap (λ (t : List ℕ). decode_loop config out_size d (padded m t))
        (encode_loop-three config i sh x y z rest hi)
      ∙ one.decodes (char config (y % 16 * 4 + z / 64) ∷ char config (z % 64) ∷ tail)
      ∙ ap (after (x ∷ [])) (
          two.decodes (char config (z % 64) ∷ tail)
          ∙ ap (after (y ∷ [])) (
              three.decodes tail
              ∙ ap (after (z ∷ [])) (
                  ap (λ (k : ℕ). decode_loop config out_size three.next (later ++ padding config k))
                    {x = m + suc (suc (suc (suc (length later))))} {y = m + 4 + length later}
                    (omega arith)
                  ∙ again)))

-- If the alphabet has 64 different characters, none of them white space or the padding character,
-- which is no white space either, then bytes that have been encoded, with padding or without it, are
-- decoded to the same bytes, strictly or loosely, into a buffer that is longer than they are.
pub base64_decode-base64_encode :
    (config : Config) (input text : List ℕ) (out_length out_size : ℕ)
    → GoodAlphabet config
    → is_space config.padding_char ≡ false
    → AllBytes input
    → length input < out_size
    → base64_encode config out_length input ≡ some text
    → base64_decode config out_size text ≡ some input
unfolding base64_encode base64_decode
base64_decode-base64_encode config input text out_length out_size good visible b room e =
    let start : Decoder = record { accumulator = 0; bits = 0; out_length = 0; padding = 0 } in
    let decoded =
      decode_loop-encode_loop config good visible out_size input 0 0 0 0 0 start (omega arith)
        (omega arith) (omega arith)
        (record {
          bits_are = refl;
          low_is = omega arith;
          small = omega arith;
          no_padding = refl;
          written_is = refl;
        })
        b (omega arith) in
    let whole : List ℕ = encode_loop config 0 0 input in
    let same =
      ap (λ (k : ℕ). decode_loop config out_size start (whole ++ padding config k))
        {x = length whole} {y = 0 + length whole} (omega arith) in
    ground (arith, e, same, decoded)
