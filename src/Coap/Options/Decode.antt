-- ===== src/Coap/Options/Decode.antt =====
-- _anj_coap_options_decode reads back the options that a message holds.
use anjay_lite.Base.{
  length-append, ap, ◌∙◌, ℕ, zero, suc, ◌+◌, ◌-◌, ◌/◌, ◌%◌, ◌^◌, ◌≤◌, ◌<◌, ◌≡◌, ◌≢◌, ◌⊎◌, List, [],
  ◌∷◌, ◌++◌, arith, length,
}
use anjay_lite.Coap.Options.{
  Memory, ok, CoapOption, options_decode, options_loop, prepare_option_header, get_option_from_buff,
  update_extended_option, move_to_payload, delta_header, length_header, payload_marker,
}

-- The bytes stand in memory from an address on.
abbrev pub Holds : Memory → (address : ℕ) → List ℕ → Type 0
Holds mem a [] = Unit
Holds mem a (b ∷ bs) = (mem a ≡ b) × Holds mem (a + 1) bs

-- An option number follows the previous one, the delta below 525.
pub record Follows (last : ℕ) (o : CoapOption) : Type 0 where
  pub ordered : last ≤ o.option_number
  pub near : o.option_number < last + 525
  pub number_fits : o.option_number < 2 ^ 16
  pub len_fits : o.payload_len < 2 ^ 16

-- The message from `p` to `end` is made of the options: each its header and then its payload.
abbrev pub Encoded : Memory → (last p : ℕ) → List CoapOption → (end : ℕ) → Type 0
Encoded mem last p [] end = p ≡ end
Encoded mem last p (o ∷ os) end =
    Follows last o
    × Holds mem p (prepare_option_header last o.option_number o.payload_len)
    × (o.payload ≡ p + length (prepare_option_header last o.option_number o.payload_len))
    × Encoded mem o.option_number (o.payload + o.payload_len) os end

Holds-append :
    (mem : Memory) (a : ℕ) (xs ys : List ℕ)
    → Holds mem a (xs ++ ys)
    → Holds mem a xs × Holds mem (a + length xs) ys
Holds-append mem a [] ys h = grind arith
Holds-append mem a (x ∷ xs) ys (e, h) = grind (arith, Holds-append mem (a + 1) xs ys h)

update_extended_option-delta_header :
    (mem : Memory) (buff_end p n : ℕ)
    → n < 525
    → Holds mem (p + 1) (delta_header n).1
    → p + length (delta_header n).1 < buff_end
    → update_extended_option mem buff_end ((delta_header n).0 / 16) p
      ≡ ok (n, p + length (delta_header n).1)
unfolding update_extended_option delta_header
update_extended_option-delta_header mem buff_end p n b h e = ground arith

update_extended_option-length_header :
    (mem : Memory) (buff_end p n : ℕ)
    → n < 2 ^ 16
    → Holds mem (p + 1) (length_header n).1
    → p + length (length_header n).1 < buff_end
    → update_extended_option mem buff_end (length_header n).0 p
      ≡ ok (n, p + length (length_header n).1)
unfolding update_extended_option length_header
update_extended_option-length_header mem buff_end p n b h e = ground arith

header_halves :
    (n s : ℕ)
    → n < 525
    → ((((delta_header n).0 + (length_header s).0) % 2 ^ 8 / 16 % 16 ≡ (delta_header n).0 / 16)
        × (((delta_header n).0 + (length_header s).0) % 2 ^ 8 % 16 ≡ (length_header s).0))
unfolding delta_header length_header
header_halves n s b = ground arith

get_option_from_buff_parts :
    (mem : Memory) (buff_end p last : ℕ) {x y delta len p' p'' : ℕ}
    → mem p / 16 % 16 ≡ x
    → mem p % 16 ≡ y
    → update_extended_option mem buff_end x p ≡ ok (delta, p')
    → update_extended_option mem buff_end y p' ≡ ok (len, p'')
    → p'' + 1 + len ≤ buff_end
    → get_option_from_buff mem buff_end p last
      ≡ ok (
        record { payload = p'' + 1; payload_len = len; option_number = (delta + last) % 2 ^ 16 },
        p'' + 1 + len,
      )
unfolding get_option_from_buff move_to_payload
get_option_from_buff_parts mem buff_end p last x_is y_is first second b =
    ground (arith, x_is, y_is, first, second)

get_option-header :
    (mem : Memory) (last p buff_end d len : ℕ)
    → d < 525
    → len < 2 ^ 16
    → mem p ≡ ((delta_header d).0 + (length_header len).0) % 2 ^ 8
    → Holds mem (p + 1) ((delta_header d).1 ++ (length_header len).1)
    → p + length ((delta_header d).1 ++ (length_header len).1) + 1 + len ≤ buff_end
    → get_option_from_buff mem buff_end p last
      ≡ ok (
        record {
          payload = p + length (delta_header d).1 + length (length_header len).1 + 1;
          payload_len = len;
          option_number = (d + last) % 2 ^ 16;
        },
        p + length (delta_header d).1 + length (length_header len).1 + 1 + len,
      )
get_option-header mem last p buff_end d len h h' first bytes b =
    let split = Holds-append mem (p + 1) (delta_header d).1 (length_header len).1 bytes in
    let halves = header_halves d len h in
    let size = length-append (delta_header d).1 (length_header len).1 in
    get_option_from_buff_parts mem buff_end p last (ap (λ (b : ℕ). b / 16 % 16) first ∙ halves.0)
      (ap (λ (b : ℕ). b % 16) first ∙ halves.1)
      (update_extended_option-delta_header mem buff_end p d h split.0 (omega (arith, size)))
      (update_extended_option-length_header mem buff_end (p + length (delta_header d).1) len h'
        (grind (arith, split.1)) (omega (arith, size)))
      (omega (arith, size))

get_option-prepare_option_header :
    (mem : Memory) (last p buff_end : ℕ) (o : CoapOption)
    → Follows last o
    → Holds mem p (prepare_option_header last o.option_number o.payload_len)
    → o.payload ≡ p + length (prepare_option_header last o.option_number o.payload_len)
    → o.payload + o.payload_len ≤ buff_end
    → get_option_from_buff mem buff_end p last ≡ ok (o, o.payload + o.payload_len)
unfolding get_option_from_buff update_extended_option move_to_payload prepare_option_header
    delta_header length_header
get_option-prepare_option_header mem last p buff_end o f h e b =
    let d = (o.option_number + 2 ^ 16 - last) % 2 ^ 16 in
    let size = length-append (delta_header d).1 (length_header o.payload_len).1 in
    let read =
      get_option-header mem last p buff_end d o.payload_len
        (omega (arith, f.near, f.ordered, f.number_fits)) f.len_fits h.0 h.1
        (omega (arith, e, b)) in
    grind (arith, read, size, e, f.near, f.ordered, f.number_fits)

header-not_marker :
    (last n s : ℕ) (mem : Memory) (p : ℕ)
    → Holds mem p (prepare_option_header last n s)
    → mem p ≢ payload_marker
unfolding prepare_option_header delta_header length_header
header-not_marker last n s mem p h = ground arith

pub header-not_empty : (last n s : ℕ) → 0 < length (prepare_option_header last n s)
unfolding prepare_option_header
header-not_empty last n s = omega arith

pub Encoded-ordered :
    (mem : Memory) (last p end : ℕ) (os : List CoapOption) → Encoded mem last p os end → p ≤ end
Encoded-ordered mem last p end [] e = omega arith
Encoded-ordered mem last p end (o ∷ os) (f, h, a, rest) =
    let later = Encoded-ordered mem o.option_number (o.payload + o.payload_len) end os rest in
    omega (arith, later, a)

options_loop-Encoded :
    (mem : Memory) (options_size buff_end end : ℕ)
    → end ≤ buff_end
    → (end ≡ buff_end) ⊎ (mem end ≡ payload_marker)
    → (rounds p last options_number : ℕ) (os : List CoapOption) → Encoded mem last p os end
    → options_number + length os ≤ options_size
    → buff_end ≤ p + rounds
    → options_loop rounds mem options_size buff_end p last options_number ≡ ok (os, end)
unfolding options_loop
options_loop-Encoded mem size buff_end end le stop zero p last number [] e room fuel = ground arith
options_loop-Encoded mem size buff_end end le stop (suc rounds) p last number [] e room fuel =
    ground arith
options_loop-Encoded mem size buff_end end le stop zero p last number (o ∷ os) (f, h, a, rest) room
      fuel =
    let later = Encoded-ordered mem o.option_number (o.payload + o.payload_len) end os rest in
    let size = header-not_empty last o.option_number o.payload_len in
    absurd (omega (arith, size, later, a))
options_loop-Encoded mem size buff_end end le stop (suc rounds) p last number (o ∷ os)
      (f, h, a, rest) room fuel =
    let later = Encoded-ordered mem o.option_number (o.payload + o.payload_len) end os rest in
    let read =
      get_option-prepare_option_header mem last p buff_end o f h a (omega (arith, later, le)) in
    let again =
      options_loop-Encoded mem size buff_end end le stop rounds (o.payload + o.payload_len)
        o.option_number (number + 1) os rest (omega (arith, room))
        (omega (arith, fuel, a, header-not_empty last o.option_number o.payload_len)) in
    let not_marker = header-not_marker last o.option_number o.payload_len mem p h in
    let size = header-not_empty last o.option_number o.payload_len in
    ground (arith, read, again, not_marker, a, later)

pub options_decode-Encoded :
    (mem : Memory) (options_size msg_size end : ℕ) (os : List CoapOption)
    → Encoded mem 0 0 os end
    → end ≤ msg_size
    → (end ≡ msg_size) ⊎ (mem end ≡ payload_marker)
    → length os ≤ options_size
    → options_decode mem options_size msg_size ≡ ok (os, end)
unfolding options_decode
options_decode-Encoded mem options_size msg_size end os e le stop room =
    options_loop-Encoded mem options_size msg_size end le stop msg_size 0 0 0 os e (omega arith)
      (omega arith)
