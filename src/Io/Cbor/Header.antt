-- ===== src/Io/Cbor/Header.antt =====
-- src/anj/io/cbor_decoder_ll.c: how the header of an item is read.
use anjay_lite.Base.{
  refl, arith, ◌≡◌, sym, ap, ◌∙◌, ℕ, suc, ◌*◌, ◌^◌, ◌<◌, ◌≤◌, Bool, true, false, List, [], ◌∷◌,
  ◌++◌, length, if◌then◌else◌, ltb, ◌⊎◌, inl, inr,
}
use mathlib.Core.List.{append-nil}
use anjay_lite.Io.Cbor.Decoder.{
  Decoder, ValueType, state_ok, value_uint, value_negative_int, value_byte_string,
  value_text_string, value_array, value_map, fill_prebuffer, Nested, count_item, handle_byte,
  handle_header, finish_preprocessing, pop_complete, preprocess_next_value,
}
use anjay_lite.Io.Cbor.Pending.{
  pending, fill_prebuffer-pending, fill_prebuffer-last, fill_prebuffer-enough,
}
use anjay_lite.Io.Cbor.Parsing.{
  fill_prebuffer-state, fill_prebuffer-input_last, fill_prebuffer-time,
}

-- A decoder that is at an item, with the end of its input there
pub record AtItem (d : Decoder) : Type 0 where
  pub ok : d.state ≡ state_ok
  pub last : d.input_last ≡ true
  pub preprocess : d.needs_preprocessing ≡ true
  pub no_time : d.epoch_based_time ≡ false

-- The type of an item with such a header
abbrev pub header_type : (byte : ℕ) → ValueType
header_type byte =
    if ltb byte (1 * 2 ^ 5)
    then value_uint
    else if ltb byte (2 * 2 ^ 5)
    then value_negative_int
    else if ltb byte (3 * 2 ^ 5)
    then value_byte_string
    else if ltb byte (4 * 2 ^ 5)
    then value_text_string
    else if ltb byte (5 * 2 ^ 5)
    then value_array
    else value_map

-- The decoder after the header of an item that is no tag and no simple value
pub record Headed (byte : ℕ) (rest : List ℕ) (level : ℕ) (d : Decoder) : Type 0 where
  pub behind : pending d ≡ rest
  pub header : d.initial_byte ≡ byte
  pub type : d.value_type ≡ header_type byte
  pub is_fine : d.state ≡ state_ok
  pub is_last : d.input_last ≡ true
  pub no_time : d.epoch_based_time ≡ false
  pub prepared : d.needs_preprocessing ≡ false
  pub nested : length d.nest_stack ≡ level

length-count_item : (ns : List Nested) → length (count_item ns) ≡ length ns
length-count_item [] = refl
length-count_item (n ∷ ns) = refl

Headed-level :
    {byte : ℕ} {rest : List ℕ} {m n : ℕ} {d : Decoder}
    → m ≡ n
    → Headed byte rest m d
    → Headed byte rest n d
Headed-level e h = rw⁻¹ e h

fill_prebuffer-stack : (d : Decoder) (n : ℕ) → (fill_prebuffer d n).0.nest_stack ≡ d.nest_stack
unfolding fill_prebuffer
fill_prebuffer-stack d n = ground arith

handle_byte-Headed :
    (d : Decoder) (byte : ℕ) (rest : List ℕ)
    → byte < 6 * 2 ^ 5
    → pending d ≡ rest
    → d.state ≡ state_ok
    → d.input_last ≡ true
    → d.epoch_based_time ≡ false
    → Headed byte rest (length d.nest_stack) (handle_byte d byte).0
      × ((handle_byte d byte).1 ≡ true)
unfolding handle_byte handle_header finish_preprocessing
handle_byte-Headed d byte rest h p s l t = (
  record {
    behind = ground (arith, h, p, s);
    header = ground (arith, h, s);
    type = ground (arith, h, s);
    is_fine = ground (arith, h, s);
    is_last = ground (arith, h, s, l);
    no_time = ground (arith, h, s, t);
    prepared = ground (arith, h, s);
    nested = ground (arith, h, s, length-count_item d.nest_stack);
  },
  ground (arith, h),
)

no_byte : 0 < 0 → ⊥
no_byte h = omega (arith, h)

uncons :
    (xs ys : List ℕ) (byte : ℕ) (rest : List ℕ)
    → xs ++ ys ≡ byte ∷ rest
    → 0 < length xs
    → (filled : List ℕ) × (xs ≡ byte ∷ filled) × (filled ++ ys ≡ rest)
uncons [] ys byte rest e h = absurd (no_byte h)
uncons (x ∷ xs) ys byte rest e h = (xs, ground (arith, e), ground (arith, e))

-- The first byte that is pending is the first one in the buffer after it is filled.
filled_byte :
    (c : Decoder) {byte : ℕ} {rest : List ℕ}
    → (9 ≤ length c.prebuffer) ⊎ (c.input ≡ [])
    → pending c ≡ byte ∷ rest
    → 0 < length c.prebuffer
filled_byte c (inl h) e = omega (arith, h)
filled_byte c (inr h) e =
    let whole = sym (append-nil c.prebuffer) ∙ ap (λ t. c.prebuffer ++ t) (sym h) ∙ e in
    omega (arith, ap length whole)

first_byte :
    (d : Decoder) (byte : ℕ) (rest : List ℕ)
    → pending d ≡ byte ∷ rest
    → (filled : List ℕ) × ((fill_prebuffer d 9).0.prebuffer ≡ byte ∷ filled)
      × (filled ++ (fill_prebuffer d 9).0.input ≡ rest)
first_byte d byte rest e =
    let c = (fill_prebuffer d 9).0 in
    let kept = fill_prebuffer-pending d 9 ∙ e in
    let some_byte : 0 < length c.prebuffer =
      filled_byte c (fill_prebuffer-enough d 9 (omega arith)) kept in
    uncons c.prebuffer c.input byte rest kept some_byte

preprocess_round :
    (rounds : ℕ) (d : Decoder) (byte : ℕ) (filled : List ℕ)
    → d.state ≡ state_ok
    → (fill_prebuffer (record d { nest_stack = pop_complete d.nest_stack }) 9).1 ≡ false
    → (fill_prebuffer (record d { nest_stack = pop_complete d.nest_stack }) 9).0.prebuffer
      ≡ byte ∷ filled
    → (handle_byte
        (record (fill_prebuffer (record d { nest_stack = pop_complete d.nest_stack }) 9).0 {
          prebuffer = filled;
        })
        byte).1
      ≡ true
    → preprocess_next_value (suc rounds) d ≡ (
      (handle_byte
          (record (fill_prebuffer (record d { nest_stack = pop_complete d.nest_stack }) 9).0 {
            prebuffer = filled;
          })
          byte).0,
      false,
    )
unfolding preprocess_next_value
preprocess_round n d byte f o m p h = ground (arith, o, m, p, h)

pub preprocess-Headed :
    (rounds : ℕ) (d : Decoder) (byte : ℕ) (rest : List ℕ)
    → AtItem d
    → byte < 6 * 2 ^ 5
    → pending d ≡ byte ∷ rest
    → Headed byte rest (length (pop_complete d.nest_stack)) (preprocess_next_value (suc rounds) d).0
      × ((preprocess_next_value (suc rounds) d).1 ≡ false)
unfolding preprocess_next_value
preprocess-Headed n d byte rest a b e =
    let d0 = record d { nest_stack = pop_complete d.nest_stack } in
    let c = (fill_prebuffer d0 9).0 in
    let (f, p, q) = first_byte d0 byte rest e in
    let read = record c { prebuffer = f } in
    let h =
      handle_byte-Headed read byte rest b q (fill_prebuffer-state d0 9 ∙ a.ok)
        (fill_prebuffer-input_last d0 9 ∙ a.last) (fill_prebuffer-time d0 9 ∙ a.no_time) in
    let whole = preprocess_round n d byte f a.ok (fill_prebuffer-last d0 9 a.last) p h.1 in
    (
      rw (whole) (Headed-level (ap length (fill_prebuffer-stack d0 9)) h.0),
      ap (λ (r : Decoder × Bool). r.1) whole,
    )
