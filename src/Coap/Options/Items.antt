-- ===== src/Coap/Options/Items.antt =====
-- What options in memory say, and how it moves with the memory: lemmas for
-- `_anj_coap_options_add_data` (src/anj/coap/options.c).
use anjay_lite.Base.{
  ◌∙◌, ℕ, zero, suc, ◌+◌, ◌≤◌, ◌<◌, ◌≡◌, List, [], ◌∷◌, ◌++◌, arith, length, ltb, if◌then◌else◌,
  refl, ap, ap₂,
}
use anjay_lite.Coap.Options.{Memory, CoapOption, prepare_option_header, load}
use anjay_lite.Coap.Options.Add.{last_number, last_end, move_options}
use anjay_lite.Coap.Options.Decode.{Holds, Encoded, Encoded-ordered}

-- An option as its user sees it.
pub record Item : Type 0 where
  pub number : ℕ
  pub content : List ℕ

-- What the options in the memory say.
abbrev pub items : Memory → List CoapOption → List Item
items mem [] = []
items mem (o ∷ os) =
    record { number = o.option_number; content = load mem o.payload o.payload_len } ∷ items mem os

-- Behind all items of the same number or a smaller one that come first.
abbrev pub insert_item : Item → List Item → List Item
insert_item i [] = i ∷ []
insert_item i (j ∷ js) = if ltb i.number j.number then i ∷ j ∷ js else j ∷ insert_item i js

-- Bytes that another memory has, `offset` further on.
abbrev pub Moved : (mem mem' : Memory) → (offset from end : ℕ) → Type 0
Moved mem mem' offset from end = (x : ℕ) → from ≤ x → x < end → mem' (x + offset) ≡ mem x

pub Holds-Moved :
    (mem mem' : Memory) (offset a : ℕ) (xs : List ℕ)
    → Moved mem mem' offset a (a + length xs)
    → Holds mem a xs
    → Holds mem' (a + offset) xs
Holds-Moved mem mem' offset a [] same h = tt
Holds-Moved mem mem' offset a (x ∷ xs) same (e, h) =
    let rest =
      Holds-Moved mem mem' offset (a + 1) xs (λ y l u. same y (omega arith) (omega arith)) h in
    grind (arith, rest, e, same a)

pub Holds-Same :
    (mem mem' : Memory) (a : ℕ) (xs : List ℕ)
    → ((x : ℕ) → a ≤ x → x < a + length xs → mem' x ≡ mem x)
    → Holds mem a xs
    → Holds mem' a xs
Holds-Same mem mem' a [] same h = tt
Holds-Same mem mem' a (x ∷ xs) same (e, h) =
    let rest = Holds-Same mem mem' (a + 1) xs (λ y l u. same y (omega arith) (omega arith)) h in
    grind (arith, rest, e, same a)

pub load-Moved :
    (mem mem' : Memory) (offset a n : ℕ)
    → Moved mem mem' offset a (a + n)
    → load mem' (a + offset) n ≡ load mem a n
unfolding load
load-Moved mem mem' offset a zero same = refl
load-Moved mem mem' offset a (suc n) same =
    let rest = load-Moved mem mem' offset (a + 1) n (λ y l u. same y (omega arith) (omega arith)) in
    grind (arith, rest, same a)

pub Encoded-Moved :
    (mem mem' : Memory) (offset last p : ℕ) (os : List CoapOption) (end : ℕ)
    → Moved mem mem' offset p end
    → Encoded mem last p os end
    → Encoded mem' last (p + offset) (move_options offset os) (end + offset)
unfolding move_options
Encoded-Moved mem mem' offset last p [] end same h = omega (arith, h)
Encoded-Moved mem mem' offset last p (o ∷ os) end same (f, h, e, rest) =
    let later = Encoded-ordered mem o.option_number (o.payload + o.payload_len) end os rest in
    let header =
      Holds-Moved mem mem' offset p (prepare_option_header last o.option_number o.payload_len)
        (λ x le lt. same x le (omega (arith, lt, e, later))) h in
    let rest' =
      Encoded-Moved mem mem' offset o.option_number (o.payload + o.payload_len) os end
        (λ x le lt. same x (omega (arith, e, le)) lt) rest in
    (
      record {
        ordered = f.ordered;
        near = f.near;
        number_fits = f.number_fits;
        len_fits = f.len_fits;
      },
      header,
      omega (arith, e),
      grind (arith, rest'),
    )

pub items-Moved :
    (mem mem' : Memory) (offset last p : ℕ) (os : List CoapOption) (end : ℕ)
    → Moved mem mem' offset p end
    → Encoded mem last p os end
    → items mem' (move_options offset os) ≡ items mem os
unfolding move_options
items-Moved mem mem' offset last p [] end same h = refl
items-Moved mem mem' offset last p (o ∷ os) end same (f, h, e, rest) =
    let later = Encoded-ordered mem o.option_number (o.payload + o.payload_len) end os rest in
    let rest' =
      items-Moved mem mem' offset o.option_number (o.payload + o.payload_len) os end
        (λ x le lt. same x (omega (arith, e, le)) lt) rest in
    let payload =
      load-Moved mem mem' offset o.payload o.payload_len
        (λ x le lt. same x (omega (arith, e, le)) (omega (arith, lt, later))) in
    ap₂ (λ (c : List ℕ) (is : List Item). record { number = o.option_number; content = c } ∷ is)
      payload rest'

pub move_options-zero : (os : List CoapOption) → move_options 0 os ≡ os
unfolding move_options
move_options-zero [] = refl
move_options-zero (o ∷ os) = let rest = move_options-zero os in grind (arith, rest)

pub Encoded-append :
    (mem : Memory) (last p : ℕ) (bs os : List CoapOption) (end : ℕ)
    → Encoded mem last p bs (last_end p bs)
    → Encoded mem (last_number last bs) (last_end p bs) os end
    → Encoded mem last p (bs ++ os) end
unfolding last_end last_number
Encoded-append mem last p [] os end h h' = h'
Encoded-append mem last p (b ∷ bs) os end (f, h, e, rest) h' =
    (f, h, e, Encoded-append mem b.option_number (b.payload + b.payload_len) bs os end rest h')

pub Encoded-split :
    (mem : Memory) (last p : ℕ) (bs os : List CoapOption) (end : ℕ)
    → Encoded mem last p (bs ++ os) end
    → Encoded mem last p bs (last_end p bs)
      × Encoded mem (last_number last bs) (last_end p bs) os end
unfolding last_end last_number
Encoded-split mem last p [] os end h = (refl, h)
Encoded-split mem last p (b ∷ bs) os end (f, h, e, rest) =
    let more = Encoded-split mem b.option_number (b.payload + b.payload_len) bs os end rest in
    ((f, h, e, more.0), more.1)

pub items-append :
    (mem : Memory) (bs os : List CoapOption) → items mem (bs ++ os) ≡ items mem bs ++ items mem os
items-append mem [] os = refl
items-append mem (b ∷ bs) os = rw (items-append mem bs os)

pub Encoded-Same :
    (mem mem' : Memory) (last p : ℕ) (os : List CoapOption) (end : ℕ)
    → ((x : ℕ) → p ≤ x → x < end → mem' x ≡ mem x)
    → Encoded mem last p os end
    → (Encoded mem' last p os end × (items mem' os ≡ items mem os))
Encoded-Same mem mem' last p os end same h =
    let moved : Moved mem mem' 0 p end =
      λ x l u. ap mem' {x = x + 0} {y = x} (omega arith) ∙ same x l u in
    (
      grind (arith, move_options-zero os, Encoded-Moved mem mem' 0 last p os end moved h),
      grind (arith, move_options-zero os, items-Moved mem mem' 0 last p os end moved h),
    )

pub last_end-Encoded :
    (mem : Memory) (last p : ℕ) (os : List CoapOption) (end : ℕ)
    → Encoded mem last p os end
    → last_end p os ≡ end
unfolding last_end
last_end-Encoded mem last p [] end h = h
last_end-Encoded mem last p (o ∷ os) end (f, h, e, rest) =
    last_end-Encoded mem o.option_number (o.payload + o.payload_len) os end rest
