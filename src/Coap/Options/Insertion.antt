-- ===== src/Coap/Options/Insertion.antt =====
-- `_anj_coap_options_add_data` (src/anj/coap/options.c) keeps the buffer well formed and inserts the new
-- option among the items.
use anjay_lite.Base.{
  inl, sym, ◌≢◌, ℕ, suc, ◌+◌, ◌^◌, ◌≤◌, ◌<◌, ◌≡◌, List, [], ◌∷◌, ◌++◌, arith, length, length-append,
  take, drop, refl, ap, ap₂, ◌∙◌, take-append-drop,
}
use anjay_lite.Coap.Options.{options_decode, Memory, ok, CoapOption, prepare_option_header}
use anjay_lite.Coap.Options.Add.{
  Options, new_position, last_number, last_end, move_options, update_memory, add_data,
}
use anjay_lite.Coap.Options.Decode.{Follows, Encoded}
use anjay_lite.Coap.Options.Items.{
  Item, items, insert_item, Encoded-Same, last_end-Encoded, Encoded-append, Encoded-split,
  items-append,
}
use anjay_lite.Coap.Options.Update.{
  last_number-new_position, new_position-HeadAbove, insert_item-items, load-Holds,
  update_memory-Updated,
}
use anjay_lite.Coap.Options.Decode.{options_decode-Encoded}

-- The buffer up to the last payload is made of the options in the array, which is no longer than
-- `options_size`.
pub record WellFormed (opts : Options) : Type 0 where
  pub encoded : Encoded opts.buff 0 0 opts.options (last_end 0 opts.options)
  pub room : length opts.options ≤ opts.options_size

-- `opts` with the option inserted, well formed, in the same buffer, which it does not fill, and
-- decoded as it stands.
pub record Inserted (opts : Options) (number : ℕ) (content : List ℕ) (opts' : Options)
    : Type 0 where
  pub well_formed : WellFormed opts'
  pub items_are :
      items opts'.buff opts'.options
      ≡ insert_item (record { number = number; content = content }) (items opts.buff opts.options)
  pub same_size : opts'.buff_size ≡ opts.buff_size
  pub fits : last_end 0 opts'.options < opts'.buff_size
  pub decoded :
      options_decode opts'.buff opts'.options_size (last_end 0 opts'.options)
      ≡ ok (opts'.options, last_end 0 opts'.options)

length-move_options :
    (offset : ℕ) (os : List CoapOption) → length (move_options offset os) ≡ length os
unfolding move_options
length-move_options offset [] = refl
length-move_options offset (o ∷ os) = ap suc (length-move_options offset os)

module _ (opts : Options) (number : ℕ) (content : List ℕ) where
  abbrev before : List CoapOption
  before = take (new_position opts.options number) opts.options

  abbrev after : List CoapOption
  after = drop (new_position opts.options number) opts.options

  abbrev header : List ℕ
  header = prepare_option_header (last_number 0 before) number (length content)

  abbrev updated : Memory × ℕ
  updated =
      update_memory opts.buff (last_end 0 before) (last_end 0 opts.options) (last_number 0 before)
        number header content after

  abbrev added : CoapOption
  added = record {
    payload = last_end 0 before + length header;
    payload_len = length content;
    option_number = number;
  }

  abbrev pub result : Options
  result = record opts {
    options = before ++ (added ∷ move_options updated.1 after);
    buff = updated.0;
  }

  record Succeeds (opts' : Options) : Type 0 where
    not_full : length opts.options ≢ opts.options_size
    has_room : last_end 0 opts.options + length header + length content < opts.buff_size
    is_result : result ≡ opts'

  add_data-Succeeds : (opts' : Options) → add_data opts number content ≡ ok opts' → Succeeds opts'
  unfolding add_data
  add_data-Succeeds opts' e = record {
    not_full = ground (arith, e);
    has_room = ground (arith, e);
    is_result = ground (arith, e);
  }

  result-Inserted :
      WellFormed opts
      → number < 525
      → length content < 2 ^ 16
      → length opts.options ≢ opts.options_size
      → last_end 0 opts.options + length header + length content < opts.buff_size
      → Inserted opts number content result
  result-Inserted w small short not_full has_room =
      let end = last_end 0 opts.options in
      let both = take-append-drop (new_position opts.options number) opts.options in
      let split = Encoded-split opts.buff 0 0 before after end (rw both w.encoded) in
      let le = last_number-new_position opts.options number 0 (omega arith) in
      let u =
        update_memory-Updated opts.buff (last_end 0 before) end (last_number 0 before) number header
          content after refl le (new_position-HeadAbove opts.options number) split.1 in
      let follows : Follows (last_number 0 before) added = record {
        ordered = le;
        near = omega arith;
        number_fits = omega arith;
        len_fits = short;
      } in
      let kept =
        Encoded-Same opts.buff result.buff 0 0 before (last_end 0 before)
          (λ x l lt. u.before_is x lt) split.0 in
      let encoded =
        Encoded-append result.buff 0 0 before (added ∷ move_options updated.1 after)
          (end + updated.1) kept.0 (follows, u.header_is, refl, u.after_is) in
      let end_is = last_end-Encoded result.buff 0 0 result.options (end + updated.1) encoded in
      let count = length-append before (added ∷ move_options updated.1 after) in
      let count' = length-move_options updated.1 after in
      let count'' = length-append before after in
      let total = ap (λ (os : List CoapOption). length os) both in
      let room : length result.options ≤ result.options_size =
        omega (arith, count, count', count'', total, w.room, not_full) in
      record {
        well_formed = record { encoded = rw end_is encoded; room = room };
        items_are =
            items-append result.buff before (added ∷ move_options updated.1 after)
            ∙ ap₂ (λ (xs ys : List Item). xs ++ ys) kept.1
                (ap₂ (λ (c : List ℕ) (is : List Item). record { number = number; content = c } ∷ is)
                  (load-Holds result.buff added.payload content u.content_is) u.items_are)
            ∙ sym (
                insert_item-items opts.buff opts.options
                  (record { number = number; content = content }));
        same_size = refl;
        fits = omega (arith, end_is, u.offset_at_most, has_room);
        decoded =
            options_decode-Encoded result.buff result.options_size (last_end 0 result.options)
              (last_end 0 result.options) result.options (rw end_is encoded) (omega arith)
              (inl refl) room;
      }

-- Where an option is added to well-formed options, its number below 525 and its content shorter than
-- 2 ^ 16 bytes, with success: the options are well formed again, carry the items that they carried and
-- the new one, behind those of the same number or a smaller one, with all contents unchanged, end
-- inside the buffer, and the buffer decodes to them.
pub add_data-Inserted :
    (opts opts' : Options) (number : ℕ) (content : List ℕ)
    → WellFormed opts
    → number < 525
    → length content < 2 ^ 16
    → add_data opts number content ≡ ok opts'
    → Inserted opts number content opts'
unfolding add_data
add_data-Inserted opts opts' number content w small short e =
    let s = add_data-Succeeds opts number content opts' e in
    let i = result-Inserted opts number content w small short s.not_full s.has_room in
    rw (sym s.is_result) i
