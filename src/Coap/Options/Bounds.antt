-- ===== src/Coap/Options/Bounds.antt =====
-- What `_anj_coap_options_decode` reads and where the options that it returns stand.
use anjay_lite.Base.{ℕ, zero, suc, ◌+◌, ◌≤◌, ◌<◌, ◌≡◌, inl, inr, List, [], ◌∷◌, arith, length, refl}
use anjay_lite.Coap.Options.{
  Memory, Outcome, ok, error, Outcome-cases, CoapOption, options_decode, options_loop,
  get_option_from_buff, update_extended_option, move_to_payload, with_option,
}

-- The two memories hold the same message.
abbrev pub Agree : (msg_size : ℕ) → (mem mem' : Memory) → Type 0
Agree msg_size mem mem' = (a : ℕ) → a < msg_size → mem a ≡ mem' a

get_option-Agree :
    (mem mem' : Memory) (n p last : ℕ)
    → Agree n mem mem'
    → p < n
    → get_option_from_buff mem n p last ≡ get_option_from_buff mem' n p last
unfolding get_option_from_buff update_extended_option move_to_payload
get_option-Agree mem mem' n p last h b =
    ground (arith, h p, h (p + 1), h (p + 2), h (p + 3), h (p + 4))

options_loop-Agree :
    (mem mem' : Memory) (options_size n : ℕ)
    → Agree n mem mem'
    → (rounds p last number : ℕ)
    → options_loop rounds mem options_size n p last number
      ≡ options_loop rounds mem' options_size n p last number
unfolding options_loop
options_loop-Agree mem mem' size n h zero p last number = refl
options_loop-Agree mem mem' size n h (suc rounds) p last number =
    elim (Outcome-cases (get_option_from_buff mem n p last)) [
      | inl (x, e) ↦ ground (arith, h p, get_option-Agree mem mem' n p last h, e)
      | inr ((o, p'), e) ↦ ground (
        arith,
        h p,
        get_option-Agree mem mem' n p last h,
        e,
        options_loop-Agree mem mem' size n h rounds p' o.option_number (number + 1),
      )
    ]

-- Decoding never depends on memory behind the message, even where a truncated header makes it read the
-- byte after the last: two memories with the same message of `msg_size` bytes give the same outcome,
-- the errors included.
pub options_decode-Agree :
    (mem mem' : Memory) (options_size msg_size : ℕ)
    → Agree msg_size mem mem'
    → options_decode mem options_size msg_size ≡ options_decode mem' options_size msg_size
unfolding options_decode
options_decode-Agree mem mem' options_size msg_size h =
    options_loop-Agree mem mem' options_size msg_size h msg_size 0 0 0

-- get_option_from_buff moves on, and the payload stands between the old pointer and the new one.
record Within (p buff_end : ℕ) (o : CoapOption) (p' : ℕ) : Type 0 where
  after : p < o.payload
  upto : o.payload + o.payload_len ≡ p'
  inside : p' ≤ buff_end

get_option-Within :
    (mem : Memory) (n p last : ℕ) (o : CoapOption) (p' : ℕ)
    → get_option_from_buff mem n p last ≡ ok (o, p')
    → Within p n o p'
unfolding get_option_from_buff update_extended_option move_to_payload
get_option-Within mem n p last o p' e = ground arith

-- Each payload is inside the message, and behind the one before it.
abbrev pub InOrder : (p : ℕ) → List CoapOption → (end : ℕ) → Type 0
InOrder p [] end = p ≤ end
InOrder p (o ∷ os) end = (p < o.payload) × InOrder (o.payload + o.payload_len) os end

options_loop-rounds :
    (mem : Memory) (options_size n p last number rounds rounds' : ℕ)
    → n ≤ p + rounds
    → n ≤ p + rounds'
    → options_loop rounds mem options_size n p last number
      ≡ options_loop rounds' mem options_size n p last number
unfolding options_loop
options_loop-rounds mem size n p last number zero zero h h' = refl
options_loop-rounds mem size n p last number zero (suc r') h h' = ground arith
options_loop-rounds mem size n p last number (suc r) zero h h' = ground arith
options_loop-rounds mem size n p last number (suc r) (suc r') h h' =
    elim (Outcome-cases (get_option_from_buff mem n p last)) [
      | inl (x, e) ↦ ground (arith, e)
      | inr ((o, p'), e) ↦
          let w = get_option-Within mem n p last o p' e in
          let again =
            options_loop-rounds mem size n p' o.option_number (number + 1) r r'
              (omega (arith, w.after, w.upto)) (omega (arith, w.after, w.upto)) in
          ground (arith, e, again)
    ]

-- The loop of the decoding ends after at most `msg_size` rounds: with any larger number of rounds the
-- outcome, an error or a success, is the same.
pub options_decode-rounds :
    (mem : Memory) (options_size msg_size rounds : ℕ)
    → msg_size ≤ rounds
    → options_loop rounds mem options_size msg_size 0 0 0 ≡ options_decode mem options_size msg_size
unfolding options_decode
options_decode-rounds mem options_size msg_size rounds h =
    options_loop-rounds mem options_size msg_size 0 0 0 rounds msg_size (omega arith) (omega arith)

abbrev pub Bounded :
    (p options_number options_size msg_size : ℕ) → Outcome (List CoapOption × ℕ) → Type 0
Bounded p number size n (error e) = Unit
Bounded p number size n (ok (os, end)) = InOrder p os end × (end ≤ n) × (number + length os ≤ size)

with_option-Bounded :
    (p number size n : ℕ) (o : CoapOption) (p' : ℕ)
    → Within p n o p'
    → (r : Outcome (List CoapOption × ℕ)) → Bounded p' (number + 1) size n r
    → Bounded p number size n (with_option o r)
with_option-Bounded p number size n o p' w (error e) b = tt
with_option-Bounded p number size n o p' w (ok (os, end)) b =
    ((w.after, grind (arith, b.0, w.upto)), b.1, omega arith)

options_loop-Bounded :
    (mem : Memory) (options_size n rounds p last number : ℕ)
    → p ≤ n
    → number ≤ options_size
    → Bounded p number options_size n (options_loop rounds mem options_size n p last number)
unfolding options_loop
options_loop-Bounded mem size n zero p last number h h' = ground arith
options_loop-Bounded mem size n (suc rounds) p last number h h' =
    elim (Outcome-cases (get_option_from_buff mem n p last)) [
      | inl (x, e) ↦ ground (arith, e)
      | inr ((o, p'), e) ↦
          let w = get_option-Within mem n p last o p' e in
          let step : number + 1 ≤ size
              → Bounded p number size n
                  (with_option o (options_loop rounds mem size n p' o.option_number (number + 1))) =
            λ room.
              with_option-Bounded p number size n o p' w
                (options_loop rounds mem size n p' o.option_number (number + 1))
                (options_loop-Bounded mem size n rounds p' o.option_number (number + 1) w.inside
                  room) in
          ground (arith, e, step)
    ]

-- If decoding succeeds, then the payloads of the options stand one behind the other without overlap,
-- each inside the message and behind its header, the reported end is not past the message, and there
-- are no more options than the array has room for.
pub options_decode-InOrder :
    (mem : Memory) (options_size msg_size : ℕ) (os : List CoapOption) (end : ℕ)
    → options_decode mem options_size msg_size ≡ ok (os, end)
    → InOrder 0 os end × (end ≤ msg_size) × (length os ≤ options_size)
unfolding options_decode
options_decode-InOrder mem options_size msg_size os end e =
    let b =
      options_loop-Bounded mem options_size msg_size msg_size 0 0 0 (omega arith) (omega arith) in
    grind (arith, b, e)
