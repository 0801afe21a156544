-- ===== src/Coap/Options/Update.antt =====
-- The memory update of `_anj_coap_options_add_data` (src/anj/coap/options.c), on every branch.
use anjay_lite.Base.{
  ℕ, suc, ◌+◌, ◌-◌, ◌^◌, ◌≤◌, ◌<◌, ◌≡◌, List, [], ◌∷◌, ◌++◌, arith, length, get_or, take, drop,
  refl, ap, ap₂, ◌∙◌,
}
use anjay_lite.Coap.Options.{
  Memory, CoapOption, prepare_option_header, delta_header, length_header, load,
}
use anjay_lite.Coap.Options.Add.{
  store, memmove, new_position, last_number, move_options, insert_before, update_memory,
}
use anjay_lite.Coap.Options.Decode.{Holds, Encoded, Encoded-ordered}
use anjay_lite.Coap.Options.Items.{
  Item, items, insert_item, Moved, load-Moved, Holds-Same, Encoded-Moved, items-Moved,
}

-- The position of a new option

pub last_number-new_position :
    (os : List CoapOption) (n last : ℕ)
    → last ≤ n
    → last_number last (take (new_position os n) os) ≤ n
unfolding last_number new_position
last_number-new_position [] n last h = h
last_number-new_position (o ∷ os) n last h =
    ground (arith, last_number-new_position os n o.option_number)

-- The first option behind the position has a larger number.
abbrev pub HeadAbove : (n : ℕ) → List CoapOption → Type 0
HeadAbove n [] = Unit
HeadAbove n (o ∷ os) = n < o.option_number

pub new_position-HeadAbove :
    (os : List CoapOption) (n : ℕ) → HeadAbove n (drop (new_position os n) os)
unfolding new_position
new_position-HeadAbove [] n = tt
new_position-HeadAbove (o ∷ os) n = ground (arith, new_position-HeadAbove os n)

pub insert_item-items :
    (mem : Memory) (os : List CoapOption) (i : Item)
    → insert_item i (items mem os)
      ≡ items mem (take (new_position os i.number) os)
        ++ (i ∷ items mem (drop (new_position os i.number) os))
unfolding new_position
insert_item-items mem [] i = refl
insert_item-items mem (o ∷ os) i = ground (arith, insert_item-items mem os i)

-- Memory

get_or-pred :
    (a y x : ℕ) (xs : List ℕ) → a + 1 ≤ y → get_or (x ∷ xs) (y - a) 0 ≡ get_or xs (y - (a + 1)) 0
get_or-pred a y x xs h =
    ap (λ (k : ℕ). get_or (x ∷ xs) k 0) {x = y - a} {y = suc (y - (a + 1))} (omega (arith, h))

pub Holds-store : (mem : Memory) (a : ℕ) (xs : List ℕ) → Holds (store mem a xs) a xs
Holds-store mem a [] = tt
Holds-store mem a (x ∷ xs) = (
  ground arith,
  Holds-Same (store mem (a + 1) xs) (store mem a (x ∷ xs)) (a + 1) xs
      (λ y l u. ground (arith, get_or-pred a y x xs l)) (Holds-store mem (a + 1) xs),
)

pub load-Holds : (mem : Memory) (a : ℕ) (xs : List ℕ) → Holds mem a xs → load mem a (length xs) ≡ xs
unfolding load
load-Holds mem a [] h = refl
load-Holds mem a (x ∷ xs) (e, h) =
    ap₂ (λ (x : ℕ) (xs : List ℕ). x ∷ xs) e (load-Holds mem (a + 1) xs h)

-- The headers of the new option and of the next one are as long as the old one at least.
headers_longer :
    (previous n next s s' : ℕ)
    → previous ≤ n
    → n < next
    → next < previous + 525
    → next < 2 ^ 16
    → length (prepare_option_header previous next s')
      ≤ length (prepare_option_header previous n s) + length (prepare_option_header n next s')
unfolding prepare_option_header delta_header length_header
headers_longer previous n next s s' h h' near fits = ground arith

pub store-before : (mem : Memory) (a x : ℕ) (xs : List ℕ) → x < a → store mem a xs x ≡ mem x
store-before mem a x xs h = ground arith

store-after : (mem : Memory) (a x : ℕ) (xs : List ℕ) → a + length xs ≤ x → store mem a xs x ≡ mem x
store-after mem a x xs h = ground arith

memmove-moved :
    (mem : Memory) (start offset size x : ℕ)
    → start ≤ x
    → x < start + size
    → memmove mem (start + offset) start size (x + offset) ≡ mem x
memmove-moved mem start offset size x h h' =
    ground (arith, ap mem {x = x + offset - (start + offset) + start} {y = x} (omega (arith, h)))

memmove-before :
    (mem : Memory) (dest src size x : ℕ) → x < dest → memmove mem dest src size x ≡ mem x
memmove-before mem dest src size x h = ground arith

-- A smaller delta has no longer header.
header_shorter :
    (previous n next s : ℕ)
    → previous ≤ n
    → n < next
    → next < 2 ^ 16
    → length (prepare_option_header n next s) ≤ length (prepare_option_header previous next s)
unfolding prepare_option_header delta_header length_header
header_shorter previous n next s h h' fits = ground arith

-- The memory after the update, from the position `start` of the new option on.
pub record Updated (mem : Memory) (start end number : ℕ) (header content : List ℕ)
    (after : List CoapOption) (mem' : Memory) (offset : ℕ) : Type 0 where
  pub before_is : (x : ℕ) → x < start → mem' x ≡ mem x
  pub header_is : Holds mem' start header
  pub content_is : Holds mem' (start + length header) content
  pub after_is :
      Encoded mem' number
        (start + length header + length content)
        (move_options offset after)
        (end + offset)
  pub offset_at_most : offset ≤ length header + length content
  pub items_are : items mem' (move_options offset after) ≡ items mem after

module _ (mem : Memory) (start end previous number : ℕ) (header content : List ℕ) where
  update_memory-last :
      start ≡ end
      → Updated mem start end number header content []
          (store (store mem start header) (start + length header) content)
          (length header + length content)
  unfolding move_options
  update_memory-last h =
      let second = start + length header in
      record {
        before_is = λ x lt.
            store-before (store mem start header) second x content (omega (arith, lt))
            ∙ store-before mem start x header lt;
        header_is =
            Holds-Same (store mem start header) (store (store mem start header) second content)
              start header (λ x le lt. store-before (store mem start header) second x content lt)
              (Holds-store mem start header);
        content_is = Holds-store (store mem start header) second content;
        after_is = omega (arith, h);
        offset_at_most = omega arith;
        items_are = refl;
      }

  update_memory-between :
      (next : CoapOption) (os : List CoapOption)
      → header ≡ prepare_option_header previous number (length content)
      → previous ≤ number
      → number < next.option_number
      → Encoded mem previous start (next ∷ os) end
      → Updated mem start end number header content
          (next ∷ os)
          (insert_before mem start end previous number header content next).0
          (insert_before mem start end previous number header content next).1
  unfolding insert_before move_options
  update_memory-between next os header_is le lt (f, h, e, rest) =
      let old = length (prepare_option_header previous next.option_number next.payload_len) in
      let next_header = prepare_option_header number next.option_number next.payload_len in
      let offset = length header + length content + length next_header - old in
      let longer =
        headers_longer previous number next.option_number (length content) next.payload_len le lt
          f.near f.number_fits in
      let longer' : old ≤ length header + length next_header = rw header_is longer in
      let later =
        Encoded-ordered mem next.option_number (next.payload + next.payload_len) end os rest in
      let m1 : Memory = memmove mem (start + offset) start (end - start) in
      let m2 : Memory = store m1 start header in
      let m3 : Memory = store m2 (start + length header) content in
      let m4 : Memory = store m3 (start + length header + length content) next_header in
      let moved : Moved mem m4 offset next.payload end = λ x l u.
        store-after m3 (start + length header + length content) (x + offset) next_header
          (omega (arith, l, e, longer'))
        ∙ store-after m2 (start + length header) (x + offset) content (omega (arith, l, e, longer'))
        ∙ store-after m1 start (x + offset) header (omega (arith, l, e, longer'))
        ∙ memmove-moved mem start offset (end - start) x (omega (arith, l, e))
            (omega (arith, l, u, e)) in
      record {
        before_is = λ x u.
            store-before m3 (start + length header + length content) x next_header
              (omega (arith, u))
            ∙ store-before m2 (start + length header) x content (omega (arith, u))
            ∙ store-before m1 start x header u
            ∙ memmove-before mem (start + offset) start (end - start) x (omega (arith, u));
        header_is =
            Holds-Same m2 m4 start header
              (λ x l u.
                store-before m3 (start + length header + length content) x next_header
                  (omega (arith, u))
                ∙ store-before m2 (start + length header) x content u)
              (Holds-store m1 start header);
        content_is =
            Holds-Same m3 m4 (start + length header) content
              (λ x l u. store-before m3 (start + length header + length content) x next_header u)
              (Holds-store m2 (start + length header) content);
        after_is = (
          record {
            ordered = omega (arith, lt);
            near = omega (arith, f.near, le);
            number_fits = f.number_fits;
            len_fits = f.len_fits;
          },
          Holds-store m3 (start + length header + length content) next_header,
          omega (arith, e, longer'),
          grind (
            arith,
            Encoded-Moved mem m4 offset next.option_number (next.payload + next.payload_len) os end
                (λ x l u. moved x (omega (arith, l)) u) rest,
          ),
        );
        offset_at_most = omega (
          arith,
          header_shorter previous number next.option_number next.payload_len le lt f.number_fits,
        );
        items_are =
            ap₂
              (λ (c : List ℕ) (is : List Item).
                record { number = next.option_number; content = c } ∷ is)
              (load-Moved mem m4 offset next.payload next.payload_len
                (λ x l u. moved x l (omega (arith, u, later))))
              (items-Moved mem m4 offset next.option_number (next.payload + next.payload_len) os end
                (λ x l u. moved x (omega (arith, l)) u) rest);
      }

  pub update_memory-Updated :
      (after : List CoapOption)
      → header ≡ prepare_option_header previous number (length content)
      → previous ≤ number
      → HeadAbove number after
      → Encoded mem previous start after end
      → Updated mem start end number header content after
          (update_memory mem start end previous number header content after).0
          (update_memory mem start end previous number header content after).1
  unfolding update_memory
  update_memory-Updated [] e le above h = update_memory-last h
  update_memory-Updated (next ∷ os) e le above h = update_memory-between next os e le above h
