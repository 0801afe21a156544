-- ===== src/Io/Cbor/Rounds.antt =====
-- src/anj/io/cbor_decoder_ll.c: the loop of preprocess_next_value ends.
use anjay_lite.Base.{
  arith, ◌≡◌, refl, sym, ap, ◌∙◌, ℕ, zero, suc, ◌+◌, ◌≤◌, ◌<◌, Bool, true, false, not,
  if◌then◌else◌, List, [], ◌∷◌, length, drop, length-append, length-drop, inl, inr, ◌||◌,
  Bool-cases,
}
use anjay_lite.Io.Cbor.Decoder.{
  Decoder, state_ok, pop_complete, fill_prebuffer, is_ok, handle_eof, handle_byte, handle_header,
  handle_break, ignore_tag, finish_preprocessing, handle_header_for_float_or_simple_value,
  ext_length_size, preprocess_next_value, ensure_value_or_error_available,
}
use anjay_lite.Io.Cbor.Pending.{pending, fill_prebuffer-pending}

abbrev after_byte : (Decoder → Decoder × Bool) → Decoder × Bool → Decoder × Bool
after_byte f h = if h.1 then (h.0, false) else f h.0

abbrev on_bytes : (Decoder → Decoder × Bool) → Decoder → List ℕ → Decoder × Bool
on_bytes f c [] = (handle_eof c, false)
on_bytes f c (byte ∷ rest) = after_byte f (handle_byte (record c { prebuffer = rest }) byte)

-- A round of the loop, with what the next one does
abbrev round : (Decoder → Decoder × Bool) → Decoder → Decoder × Bool
round f d =
    let filled = fill_prebuffer (record d { nest_stack = pop_complete d.nest_stack }) 9 in
    if not (is_ok d.state)
    then (d, false)
    else if filled.1
    then (filled.0, true)
    else on_bytes f filled.0 filled.0.prebuffer

preprocess_next_value-round :
    (rounds : ℕ) (d : Decoder)
    → preprocess_next_value (suc rounds) d ≡ round (preprocess_next_value rounds) d
unfolding preprocess_next_value
preprocess_next_value-round rounds d = ground arith

ignore_tag_shortens : (d : Decoder) → length (pending (ignore_tag d)) ≤ length (pending d)
unfolding ignore_tag
ignore_tag_shortens d =
    let s = length-drop (ext_length_size d.initial_byte) d.prebuffer in
    ground (
      arith,
      s,
      length-append d.prebuffer d.input,
      length-append (drop (ext_length_size d.initial_byte) d.prebuffer) d.input,
    )

simple-pending : (d : Decoder) → pending (handle_header_for_float_or_simple_value d) ≡ pending d
unfolding handle_header_for_float_or_simple_value
simple-pending d = ground arith

handle_header-pending : (d : Decoder) → pending (handle_header d) ≡ pending d
unfolding handle_header
handle_header-pending d = ground (arith, simple-pending d)

finish_preprocessing-pending : (d : Decoder) → pending (finish_preprocessing d) ≡ pending d
unfolding finish_preprocessing
finish_preprocessing-pending d = ground arith

handle_break-pending : (d : Decoder) → pending (handle_break d) ≡ pending d
unfolding handle_break
handle_break-pending d = ground arith

handle_byte_shortens :
    (d : Decoder) (byte : ℕ) → length (pending (handle_byte d byte).0) ≤ length (pending d)
unfolding handle_byte
handle_byte_shortens d byte = ground (
  arith,
  handle_break-pending d,
  ignore_tag_shortens (record d { initial_byte = byte }),
  finish_preprocessing-pending
      (record (handle_header (record d { initial_byte = byte })) { needs_preprocessing = false }),
  handle_header-pending (record d { initial_byte = byte }),
)

byte_shortens :
    (c : Decoder) (byte : ℕ) (rest : List ℕ)
    → c.prebuffer ≡ byte ∷ rest
    → length (pending (handle_byte (record c { prebuffer = rest }) byte).0) < length (pending c)
byte_shortens c byte rest e = ground (
  arith,
  ap length e,
  length-append c.prebuffer c.input,
  length-append rest c.input,
  handle_byte_shortens (record c { prebuffer = rest }) byte,
)

on_bytes-agree :
    (f g : Decoder → Decoder × Bool) (c : Decoder) (bytes : List ℕ)
    → c.prebuffer ≡ bytes
    → ((x : Decoder) → length (pending x) < length (pending c) → f x ≡ g x)
    → on_bytes f c bytes ≡ on_bytes g c bytes
on_bytes-agree f g c [] e h = refl
on_bytes-agree f g c (byte ∷ rest) e h =
    let done = handle_byte (record c { prebuffer = rest }) byte in
    ap (λ r. if done.1 then (done.0, false) else r) (h done.0 (byte_shortens c byte rest e))

round-agree :
    (f g : Decoder → Decoder × Bool) (d : Decoder)
    → ((x : Decoder) → length (pending x) < length (pending d) → f x ≡ g x)
    → round f d ≡ round g d
round-agree f g d h =
    let popped = record d { nest_stack = pop_complete d.nest_stack } in
    let filled = fill_prebuffer popped 9 in
    let same = fill_prebuffer-pending popped 9 in
    let read = on_bytes-agree f g filled.0 filled.0.prebuffer refl (λ x s. h x (rw⁻¹ (same) s)) in
    ap (λ r. if not (is_ok d.state) then (d, false) else if filled.1 then (filled.0, true) else r)
      read

fewer :
    (n rounds : ℕ) (x : Decoder)
    → length (pending x) < n
    → n ≤ rounds
    → preprocess_next_value rounds x ≡ preprocess_next_value n x
fewer zero rounds x b m = ground (arith, b)
fewer (suc n) zero x b m = ground (arith, m)
fewer (suc n) (suc rounds) x b m =
    preprocess_next_value-round rounds x
    ∙ round-agree (preprocess_next_value rounds) (preprocess_next_value n) x
        (λ y s. fewer n rounds y (omega (arith, s, b)) (omega (arith, m)))
    ∙ sym (preprocess_next_value-round n x)

-- The decoder asks for more input, has found its end or an error, or has an item.
abbrev pub is_settled : Decoder × Bool → Bool
is_settled r = r.1 || not (is_ok r.0.state) || not r.0.needs_preprocessing

finish_preprocessing-needs :
    (d : Decoder) → (finish_preprocessing d).needs_preprocessing ≡ d.needs_preprocessing
unfolding finish_preprocessing
finish_preprocessing-needs d = ground arith

handle_byte_settled :
    (d : Decoder) (byte : ℕ)
    → (handle_byte d byte).1 ≡ true
    → is_settled ((handle_byte d byte).0, false) ≡ true
unfolding handle_byte
handle_byte_settled d byte h = ground (
  arith,
  h,
  finish_preprocessing-needs
      (record (handle_header (record d { initial_byte = byte })) { needs_preprocessing = false }),
)

handle_eof_settled : (d : Decoder) → is_settled (handle_eof d, false) ≡ true
unfolding handle_eof
handle_eof_settled d = ground arith

on_bytes_settled :
    (f : Decoder → Decoder × Bool) (c : Decoder) (bytes : List ℕ)
    → c.prebuffer ≡ bytes
    → ((x : Decoder) → length (pending x) < length (pending c) → is_settled (f x) ≡ true)
    → is_settled (on_bytes f c bytes) ≡ true
on_bytes_settled f c [] e h = handle_eof_settled c
on_bytes_settled f c (byte ∷ rest) e h =
    let read = record c { prebuffer = rest } in
    elim (Bool-cases (handle_byte read byte).1) [
      | inl t ↦ ground (arith, t, handle_byte_settled read byte t)
      | inr t ↦ ground (arith, t, h (handle_byte read byte).0 (byte_shortens c byte rest e))
    ]

round_settled :
    (f : Decoder → Decoder × Bool) (d : Decoder)
    → ((x : Decoder) → length (pending x) < length (pending d) → is_settled (f x) ≡ true)
    → is_settled (round f d) ≡ true
round_settled f d h =
    let popped = record d { nest_stack = pop_complete d.nest_stack } in
    let filled = fill_prebuffer popped 9 in
    let same = fill_prebuffer-pending popped 9 in
    let read = on_bytes_settled f filled.0 filled.0.prebuffer refl (λ x s. h x (rw⁻¹ (same) s)) in
    ground (arith, read)

preprocess_next_value_settled :
    (n : ℕ) (d : Decoder) → length (pending d) < n → is_settled (preprocess_next_value n d) ≡ true
preprocess_next_value_settled zero d b = ground (arith, b)
preprocess_next_value_settled (suc n) d b = rw (preprocess_next_value-round n d) (
    round_settled (preprocess_next_value n) d
      (λ x s. preprocess_next_value_settled n x (omega (arith, s, b))))

-- The loop of `preprocess_next_value` ends, in a decoder without an error that is to look for its
-- next item: as many rounds as `ensure_value_or_error_available` gives it are enough for the
-- decoder to ask for more input, to find its end or an error, or to have an item, and with any
-- number of rounds above that of the bytes pending the result is the same.
pub ensure_value_or_error_available_ends :
    (rounds : ℕ) (d : Decoder)
    → d.state ≡ state_ok
    → d.needs_preprocessing ≡ true
    → length (pending d) < rounds
    → (is_settled (ensure_value_or_error_available d) ≡ true)
      × (ensure_value_or_error_available d ≡ preprocess_next_value rounds d)
unfolding ensure_value_or_error_available
ensure_value_or_error_available_ends rounds d s n b =
    let bytes = length-append d.prebuffer d.input in
    let enough = suc (length d.prebuffer + length d.input) in
    let runs : ensure_value_or_error_available d ≡ preprocess_next_value enough d =
      ground (arith, s, n) in
    rw (runs) (
      preprocess_next_value_settled enough d (omega (arith, bytes)),
      sym (fewer enough rounds d (omega (arith, bytes)) (omega (arith, bytes, b))),
    )
