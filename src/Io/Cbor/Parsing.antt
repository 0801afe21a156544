-- ===== src/Io/Cbor/Parsing.antt =====
-- src/anj/io/cbor_decoder_ll.c: how `parse_uint` reads a number that was written.
use anjay_lite.Base.{
  arith, ◌≡◌, sym, ap, ◌∙◌, ℕ, suc, ◌+◌, ◌-◌, ◌*◌, ◌%◌, ◌^◌, ◌<◌, ◌≤◌, true, false, List, [], ◌∷◌,
  ◌++◌, length, take, drop, if◌then◌else◌, leb, ltb, Bool-cases, inl, inr,
}
use anjay_lite.Io.Cbor.{MajorType, major_code, be_bytes, encode_type_and_number}
use anjay_lite.Io.Cbor.Decoder.{Decoder, Decoded, value, fill_prebuffer, ext_length_size}
use anjay_lite.Io.Cbor.Number.{from_be, parse_uint}
use anjay_lite.Io.Cbor.Pending.{
  pending, split_append, fill_prebuffer-pending, fill_prebuffer-last, fill_prebuffer-bytes,
}
use anjay_lite.Io.Cbor.Bytes.{length-be_bytes, from_be-be_bytes}

-- What `parse_uint` leaves where it succeeds
pub record Parsed (d : Decoder) (v : ℕ) (rest : List ℕ) : Type 0 where
  pub parsed : (parse_uint d).1 ≡ value v
  pub remaining : pending (parse_uint d).0 ≡ rest
  pub state_kept : (parse_uint d).0.state ≡ d.state
  pub last_kept : (parse_uint d).0.input_last ≡ d.input_last
  pub time_kept : (parse_uint d).0.epoch_based_time ≡ d.epoch_based_time

fill_enough :
    (d : Decoder) (bs rest : List ℕ)
    → length bs ≤ 9
    → pending d ≡ bs ++ rest
    → (size : ℕ) → length bs ≡ size
    → length bs ≤ length (fill_prebuffer d size).0.prebuffer
fill_enough d bs rest b e size h = rw⁻¹ h (fill_prebuffer-bytes d bs rest b e)

parse_uint-extended :
    (d : Decoder) (size : ℕ)
    → ext_length_size d.initial_byte ≡ size
    → 0 < size
    → (fill_prebuffer d size).1 ≡ false
    → size ≤ length (fill_prebuffer d size).0.prebuffer
    → parse_uint d ≡ (
      record (fill_prebuffer d size).0 {
        prebuffer = drop size (fill_prebuffer d size).0.prebuffer;
      },
      value (from_be 0 (take size (fill_prebuffer d size).0.prebuffer)),
    )
unfolding parse_uint
parse_uint-extended d size s p m h = rw (s) (ground (arith, p, m, h))

pub fill_prebuffer-state : (d : Decoder) (n : ℕ) → (fill_prebuffer d n).0.state ≡ d.state
unfolding fill_prebuffer
fill_prebuffer-state d n = ground arith

pub fill_prebuffer-input_last :
    (d : Decoder) (n : ℕ) → (fill_prebuffer d n).0.input_last ≡ d.input_last
unfolding fill_prebuffer
fill_prebuffer-input_last d n = ground arith

pub fill_prebuffer-time :
    (d : Decoder) (n : ℕ) → (fill_prebuffer d n).0.epoch_based_time ≡ d.epoch_based_time
unfolding fill_prebuffer
fill_prebuffer-time d n = ground arith

-- A number of several bytes behind its header
pub parse_extended :
    (d : Decoder) (size v : ℕ) (rest : List ℕ)
    → d.input_last ≡ true
    → ext_length_size d.initial_byte ≡ suc size
    → suc size ≤ 8
    → v < 256 ^ suc size
    → pending d ≡ be_bytes (suc size) v ++ rest
    → Parsed d v rest
unfolding parse_uint
parse_extended d k v rest l s b h e =
    let size = suc k in
    let bs = be_bytes size v in
    let c = (fill_prebuffer d size).0 in
    let len = length-be_bytes size v in
    let enough : length bs ≤ length c.prebuffer =
      fill_enough d bs rest (omega (arith, len, b)) e size len in
    let parts =
      split_append c.prebuffer c.input bs rest (fill_prebuffer-pending d size ∙ e) enough in
    let more = fill_prebuffer-last d size l in
    let taken = ap (λ n. take n c.prebuffer) (sym len) ∙ parts.0 in
    let dropped = ap (λ n. drop n c.prebuffer ++ c.input) (sym len) ∙ parts.1 in
    let whole = parse_uint-extended d size s (omega arith) more (omega (arith, enough, len)) in
    record {
      parsed =
          ap (λ (r : Decoder × Decoded ℕ). r.1) whole
          ∙ ap value (ap (from_be 0) taken ∙ from_be-be_bytes size v h);
      remaining = ap (λ (r : Decoder × Decoded ℕ). pending r.0) whole ∙ dropped;
      state_kept = ap (λ (r : Decoder × Decoded ℕ). r.0.state) whole ∙ fill_prebuffer-state d size;
      last_kept =
          ap (λ (r : Decoder × Decoded ℕ). r.0.input_last) whole ∙ fill_prebuffer-input_last d size;
      time_kept =
          ap (λ (r : Decoder × Decoded ℕ). r.0.epoch_based_time) whole ∙ fill_prebuffer-time d size;
    }

-- A number in the header itself
pub parse_short :
    (d : Decoder) (v : ℕ) (rest : List ℕ)
    → v < 24
    → d.initial_byte % 2 ^ 5 ≡ v
    → pending d ≡ rest
    → Parsed d v rest
unfolding parse_uint
parse_short d v rest h s e =
    let whole : parse_uint d ≡ (d, value v) = ground (arith, h, s) in
    record {
      parsed = ap (λ (r : Decoder × Decoded ℕ). r.1) whole;
      remaining = ap (λ (r : Decoder × Decoded ℕ). pending r.0) whole ∙ e;
      state_kept = ap (λ (r : Decoder × Decoded ℕ). r.0.state) whole;
      last_kept = ap (λ (r : Decoder × Decoded ℕ). r.0.input_last) whole;
      time_kept = ap (λ (r : Decoder × Decoded ℕ). r.0.epoch_based_time) whole;
    }

-- The five forms of a header and the bytes behind it
abbrev pub info : ℕ → ℕ
info v =
    if ltb v 24
    then v
    else if leb v (2 ^ 8 - 1)
    then 24
    else if leb v (2 ^ 16 - 1)
    then 25
    else if leb v (2 ^ 32 - 1)
    then 26
    else 27

abbrev pub extension : ℕ → List ℕ
extension v =
    if ltb v 24
    then []
    else if leb v (2 ^ 8 - 1)
    then be_bytes 1 v
    else if leb v (2 ^ 16 - 1)
    then be_bytes 2 v
    else if leb v (2 ^ 32 - 1)
    then be_bytes 4 v
    else be_bytes 8 v

pub encode-extension :
    (m : MajorType) (v : ℕ)
    → encode_type_and_number m v ≡ (major_code m * 2 ^ 5 + info v) ∷ extension v
unfolding encode_type_and_number
encode-extension m v = ground arith

pub parse_header :
    (c v : ℕ) (d : Decoder) (rest : List ℕ)
    → v < 2 ^ 64
    → d.input_last ≡ true
    → d.initial_byte ≡ c * 2 ^ 5 + info v
    → pending d ≡ extension v ++ rest
    → Parsed d v rest
parse_header c v d rest h l i p = elim (Bool-cases (ltb v 24)) [
  | inl a ↦ parse_short d v rest (ground (arith, a)) (ground (arith, i, a)) (ground (arith, p, a))
  | inr a ↦ elim (Bool-cases (leb v (2 ^ 8 - 1))) [
    | inl b ↦
        parse_extended d 0 v rest l (ground (arith, i, a, b)) (omega arith) (ground (arith, b))
          (ground (arith, p, a, b))
    | inr b ↦ elim (Bool-cases (leb v (2 ^ 16 - 1))) [
      | inl x ↦
          parse_extended d 1 v rest l (ground (arith, i, a, b, x)) (omega arith) (ground (arith, x))
            (ground (arith, p, a, b, x))
      | inr x ↦ elim (Bool-cases (leb v (2 ^ 32 - 1))) [
        | inl y ↦
            parse_extended d 3 v rest l (ground (arith, i, a, b, x, y)) (omega arith)
              (ground (arith, y)) (ground (arith, p, a, b, x, y))
        | inr y ↦
            parse_extended d 7 v rest l (ground (arith, i, a, b, x, y)) (omega arith)
              (ground (arith, h)) (ground (arith, p, a, b, x, y))
      ]
    ]
  ]
]
