-- ===== src/Coap/Options/Reading.antt =====
-- Options read after they have been added (src/anj/coap/options.c): `get_data` as a search of the items.
use anjay_lite.Base.{
  ℕ, zero, suc, ◌+◌, ◌^◌, ◌≤◌, ◌<◌, ◌≡◌, ◌≢◌, List, [], ◌∷◌, arith, length, ltb, ◌==◌,
  if◌then◌else◌, refl, ap, ◌∙◌, not, sym,
}
use anjay_lite.Coap.Options.{
  Memory, Outcome, ok, error, CoapOption, load, get_data, option_missing, err_malformed_message,
}
use anjay_lite.Coap.Options.Add.{Options, add_data}
use anjay_lite.Coap.Options.Items.{Item, items, insert_item}
use anjay_lite.Coap.Options.Insertion.{WellFormed, add_data-Inserted}

-- The first item with the number.
abbrev pub lookup : List Item → (number size : ℕ) → Outcome (List ℕ)
lookup [] number size = error option_missing
lookup (i ∷ is) number size =
    if not (i.number == number)
    then lookup is number size
    else if ltb size (length i.content)
    then error err_malformed_message
    else ok i.content

pub length-load : (mem : Memory) (a n : ℕ) → length (load mem a n) ≡ n
unfolding load
length-load mem a zero = refl
length-load mem a (suc n) = ap suc (length-load mem (a + 1) n)

pub get_data-lookup :
    (mem : Memory) (os : List CoapOption) (number size : ℕ)
    → get_data mem os number 0 size ≡ lookup (items mem os) number size
unfolding get_data
get_data-lookup mem [] number size = refl
get_data-lookup mem (o ∷ os) number size =
    ground (arith, get_data-lookup mem os number size, length-load mem o.payload o.payload_len)

lookup-insert_item :
    (is : List Item) (i : Item) (size : ℕ)
    → lookup is i.number size ≡ error option_missing
    → length i.content ≤ size
    → lookup (insert_item i is) i.number size ≡ ok i.content
lookup-insert_item [] i size h fits = ground arith
lookup-insert_item (j ∷ js) i size h fits = ground (arith, lookup-insert_item js i size)

lookup-insert_other :
    (is : List Item) (i : Item) (number size : ℕ)
    → number ≢ i.number
    → lookup (insert_item i is) number size ≡ lookup is number size
lookup-insert_other [] i number size h = ground arith
lookup-insert_other (j ∷ js) i number size h =
    ground (arith, lookup-insert_other js i number size h)

-- If well-formed options have no option `number` yet, below 525, then after it has been added with
-- success, with content shorter than 2 ^ 16 bytes that fits the reader's buffer, the first option
-- of that number reads back as the content.
pub get_data-add_data :
    (opts opts' : Options) (number : ℕ) (content : List ℕ) (size : ℕ)
    → WellFormed opts
    → number < 525
    → length content < 2 ^ 16
    → length content ≤ size
    → get_data opts.buff opts.options number 0 size ≡ error option_missing
    → add_data opts number content ≡ ok opts'
    → get_data opts'.buff opts'.options number 0 size ≡ ok content
get_data-add_data opts opts' number content size w small short fits missing e =
    let i = add_data-Inserted opts opts' number content w small short e in
    let before : List Item = items opts.buff opts.options in
    get_data-lookup opts'.buff opts'.options number size
    ∙ ap (λ (is : List Item). lookup is number size) i.items_are
    ∙ lookup-insert_item before (record { number = number; content = content }) size
        (sym (get_data-lookup opts.buff opts.options number size) ∙ missing) fits

-- Adding an option to well-formed options with success, its number below 525 and its content
-- shorter than 2 ^ 16 bytes, changes no reading of the first option of another number, at any size
-- of the reader's buffer, not even its error.
pub get_data-add_other :
    (opts opts' : Options) (number : ℕ) (content : List ℕ) (other size : ℕ)
    → WellFormed opts
    → number < 525
    → length content < 2 ^ 16
    → other ≢ number
    → add_data opts number content ≡ ok opts'
    → get_data opts'.buff opts'.options other 0 size ≡ get_data opts.buff opts.options other 0 size
get_data-add_other opts opts' number content other size w small short ne e =
    let i = add_data-Inserted opts opts' number content w small short e in
    let before : List Item = items opts.buff opts.options in
    get_data-lookup opts'.buff opts'.options other size
    ∙ ap (λ (is : List Item). lookup is other size) i.items_are
    ∙ lookup-insert_other before (record { number = number; content = content }) other size ne
    ∙ sym (get_data-lookup opts.buff opts.options other size)
