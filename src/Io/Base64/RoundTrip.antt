-- ===== src/Io/Base64/RoundTrip.antt =====
-- What has been encoded is decoded to the same bytes (src/anj/io/base64.c).
use anjay_lite.Base.{
  ap₂, ℕ, ◌+◌, ◌*◌, ◌/◌, ◌%◌, ◌^◌, ◌<◌, ◌≡◌, false, ◌==◌, Option, none, some, List, [], ◌∷◌, ◌++◌,
  get_or, arith, refl, ap, ◌∙◌,
}
use anjay_lite.Io.Base64.{
  Config, encode_loop, index_of, is_space, Decoder, take_digit, decode_char, after, decode_loop,
}

-- The alphabet has 64 characters, all different, none of them white space or the padding.
pub record GoodAlphabet (config : Config) : Type 0 where
  pub found : (i : ℕ) → i < 64 → index_of config.alphabet (get_or config.alphabet i 0) ≡ some i
  pub no_space : (i : ℕ) → i < 64 → is_space (get_or config.alphabet i 0) ≡ false
  pub no_padding : (i : ℕ) → i < 64 → (get_or config.alphabet i 0 == config.padding_char) ≡ false

module _ (config : Config) (good : GoodAlphabet config) (out_size : ℕ) where
  decode_digit :
      (d : Decoder) (i : ℕ) (chs : List ℕ)
      → i < 64
      → d.padding ≡ 0
      → d.out_length < out_size
      → decode_loop config out_size d (get_or config.alphabet i 0 ∷ chs)
        ≡ after (take_digit d i).1 (decode_loop config out_size (take_digit d i).0 chs)
  unfolding decode_loop decode_char
  decode_digit d i chs h p room =
      ground (arith, good.found i h, good.no_space i h, good.no_padding i h)

-- The decoder has so many bits, which spell `low`, that it has not written.
pub record At (bits low written : ℕ) (d : Decoder) : Type 0 where
  pub bits_are : d.bits ≡ bits
  pub low_is : d.accumulator % 2 ^ bits ≡ low
  pub small : d.accumulator < 2 ^ 32
  pub no_padding : d.padding ≡ 0
  pub written_is : d.out_length ≡ written

record Step (bits low written : ℕ) (bytes : List ℕ) (r : Decoder × List ℕ) : Type 0 where
  state_is : At bits low written r.0
  bytes_are : r.1 ≡ bytes

first_digit : (d : Decoder) (n low i : ℕ) → At 0 low n d → i < 64 → Step 6 i n [] (take_digit d i)
unfolding take_digit
first_digit d n low i a h = ground arith

second_digit :
    (d : Decoder) (n low i : ℕ)
    → At 6 low n d
    → i < 64
    → Step 4 (i % 16) (n + 1) ((low * 4 + i / 16) ∷ []) (take_digit d i)
unfolding take_digit
second_digit d n low i a h = ground arith

third_digit :
    (d : Decoder) (n low i : ℕ)
    → At 4 low n d
    → i < 64
    → Step 2 (i % 4) (n + 1) ((low * 16 + i / 4) ∷ []) (take_digit d i)
unfolding take_digit
third_digit d n low i a h = ground arith

fourth_digit :
    (d : Decoder) (n low i : ℕ)
    → At 2 low n d
    → i < 64
    → Step 0 0 (n + 1) ((low * 64 + i) ∷ []) (take_digit d i)
unfolding take_digit
fourth_digit d n low i a h = ground arith

after-after : (xs ys : List ℕ) (r : Option (List ℕ)) → after xs (after ys r) ≡ after (xs ++ ys) r
after-after xs ys none = refl
after-after [] ys (some r) = refl
after-after (x ∷ xs) ys (some r) = ap (after (x ∷ [])) (after-after xs ys (some r))

abbrev pub AllBytes : List ℕ → Type 0
AllBytes [] = Unit
AllBytes (x ∷ xs) = (x < 2 ^ 8) × AllBytes xs

abbrev pub char : Config → ℕ → ℕ
char config i = get_or config.alphabet i 0

pub encode_loop-three :
    (config : Config) (i sh x y z : ℕ) (rest : List ℕ)
    → i % 3 ≡ 0
    → encode_loop config i sh (x ∷ y ∷ z ∷ rest)
      ≡ char config (x / 4)
        ∷ char config (x % 4 * 16 + y / 16)
        ∷ char config (y % 16 * 4 + z / 64)
        ∷ char config (z % 64)
        ∷ encode_loop config (i + 1 + 1 + 1) (y % 16) rest
unfolding encode_loop
encode_loop-three config i sh x y z rest h = ground arith

pub encode_loop-none : (config : Config) (i sh : ℕ) → i % 3 ≡ 0 → encode_loop config i sh [] ≡ []
unfolding encode_loop
encode_loop-none config i sh h = ground arith

pub encode_loop-two :
    (config : Config) (i sh x y : ℕ)
    → i % 3 ≡ 0
    → encode_loop config i sh (x ∷ y ∷ [])
      ≡ char config (x / 4) ∷ char config (x % 4 * 16 + y / 16) ∷ char config (y % 16 * 4) ∷ []
unfolding encode_loop
encode_loop-two config i sh x y h = ground arith

pub encode_loop-one :
    (config : Config) (i sh x : ℕ)
    → i % 3 ≡ 0
    → encode_loop config i sh (x ∷ []) ≡ char config (x / 4) ∷ char config (x % 4 * 16) ∷ []
unfolding encode_loop
encode_loop-one config i sh x h = ground arith

moved : {bits low low' n : ℕ} {d : Decoder} → At bits low n d → low ≡ low' → At bits low' n d
moved a e = record {
  bits_are = a.bits_are;
  low_is = a.low_is ∙ e;
  small = a.small;
  no_padding = a.no_padding;
  written_is = a.written_is;
}

written :
    {bytes : List ℕ} {b b' : ℕ} (r : Option (List ℕ))
    → bytes ≡ b ∷ []
    → b ≡ b'
    → after bytes r ≡ after (b' ∷ []) r
written r e h = ap (λ (bs : List ℕ). after bs r) (e ∙ ap (λ (b : ℕ). b ∷ []) h)

module _ (config : Config) (good : GoodAlphabet config) (out_size : ℕ) where
  -- The characters `text` are decoded to `bytes`, and the decoder is at another place.
  pub record Decodes (d : Decoder) (text bytes : List ℕ) (bits low written : ℕ) : Type 0 where
    pub next : Decoder
    pub next_is : At bits low written next
    pub decodes :
        (chs : List ℕ)
        → decode_loop config out_size d (text ++ chs)
          ≡ after bytes (decode_loop config out_size next chs)

  pub two_digits :
      (d : Decoder) (n low x i : ℕ)
      → At 0 low n d
      → x < 2 ^ 8
      → i < 16
      → n < out_size
      → Decodes d (char config (x / 4) ∷ char config (x % 4 * 16 + i) ∷ []) (x ∷ []) 4 i (n + 1)
  two_digits d n low x i a b h room =
      let d' : Decoder = (take_digit d (x / 4)).0 in
      let d'' : Decoder = (take_digit d' (x % 4 * 16 + i)).0 in
      let one = first_digit d n low (x / 4) a (omega arith) in
      let two = second_digit d' n (x / 4) (x % 4 * 16 + i) one.state_is (omega arith) in
      record {
        next = d'';
        next_is = moved two.state_is (omega arith);
        decodes = λ chs.
            decode_digit config good out_size d (x / 4) (char config (x % 4 * 16 + i) ∷ chs)
              (omega arith) a.no_padding (omega (arith, a.written_is))
            ∙ ap₂ after one.bytes_are (
                decode_digit config good out_size d' (x % 4 * 16 + i) chs (omega arith)
                  one.state_is.no_padding (omega (arith, one.state_is.written_is))
                ∙ written (decode_loop config out_size d'' chs) two.bytes_are (omega arith))
            ∙ after-after [] (x ∷ []) (decode_loop config out_size d'' chs);
      }

  pub one_digit :
      (d : Decoder) (n y j : ℕ)
      → At 4 (y / 16) n d
      → y < 2 ^ 8
      → j < 4
      → n < out_size
      → Decodes d (char config (y % 16 * 4 + j) ∷ []) (y ∷ []) 2 j (n + 1)
  one_digit d n y j a b h room =
      let d' : Decoder = (take_digit d (y % 16 * 4 + j)).0 in
      let one = third_digit d n (y / 16) (y % 16 * 4 + j) a (omega arith) in
      record {
        next = d';
        next_is = moved one.state_is (omega arith);
        decodes = λ chs.
            decode_digit config good out_size d (y % 16 * 4 + j) chs (omega arith) a.no_padding
              (omega (arith, a.written_is))
            ∙ written (decode_loop config out_size d' chs) one.bytes_are (omega arith);
      }

  pub last_digit :
      (d : Decoder) (n z : ℕ)
      → At 2 (z / 64) n d
      → z < 2 ^ 8
      → n < out_size
      → Decodes d (char config (z % 64) ∷ []) (z ∷ []) 0 0 (n + 1)
  last_digit d n z a b room =
      let d' : Decoder = (take_digit d (z % 64)).0 in
      let one = fourth_digit d n (z / 64) (z % 64) a (omega arith) in
      record {
        next = d';
        next_is = one.state_is;
        decodes = λ chs.
            decode_digit config good out_size d (z % 64) chs (omega arith) a.no_padding
              (omega (arith, a.written_is))
            ∙ written (decode_loop config out_size d' chs) one.bytes_are (omega arith);
      }
