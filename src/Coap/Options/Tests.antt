-- ===== src/Coap/Options/Tests.antt =====
-- Options on concrete messages and buffers.
use anjay_lite.Base.{ℕ, ◌≤◌, ◌≡◌, refl, arith, List, [], ◌∷◌, get_or}
use anjay_lite.Coap.Options.{
  Memory, ok, error, CoapOption, option_missing, options_decode, options_loop,
  prepare_option_header, get_option_from_buff, update_extended_option, move_to_payload,
  delta_header, length_header, get_data,
}
use anjay_lite.Coap.Options.Add.{
  Options, add_data, new_position, last_number, last_end, move_options,
}
use anjay_lite.Coap.Options.Bounds.{
  Agree, InOrder, options_decode-Agree, options_decode-InOrder, options_decode-rounds,
}
use anjay_lite.Coap.Options.Insertion.{WellFormed, Inserted, result, add_data-Inserted}
use anjay_lite.Coap.Options.Reading.{get_data-add_data, get_data-add_other}

abbrev message : Memory
message a = get_or (0xb3 ∷ 1 ∷ 2 ∷ 3 ∷ 0x12 ∷ 5 ∷ 6 ∷ 0xd1 ∷ 0 ∷ 9 ∷ 255 ∷ []) a 0

abbrev message_options : List CoapOption
message_options =
    record { payload = 1; payload_len = 3; option_number = 11 }
    ∷ record { payload = 5; payload_len = 2; option_number = 12 }
    ∷ record { payload = 9; payload_len = 1; option_number = 25 }
    ∷ []

decode_test : options_decode message 4 11 ≡ ok (message_options, 10)
unfolding options_decode options_loop get_option_from_buff update_extended_option move_to_payload
decode_test = refl

-- A header that ends with the message.
abbrev truncated : (beyond : ℕ) → Memory
truncated beyond a = get_or (0xd1 ∷ []) a beyond

truncated-Agree : Agree 1 (truncated 1) (truncated 2)
truncated-Agree a h = ground arith

options_decode-Agree_example : options_decode (truncated 1) 4 1 ≡ options_decode (truncated 2) 4 1
options_decode-Agree_example = options_decode-Agree (truncated 1) (truncated 2) 4 1 truncated-Agree

options_decode-InOrder_example : InOrder 0 message_options 10 × (10 ≤ 11) × (3 ≤ 4)
options_decode-InOrder_example = options_decode-InOrder message 4 11 message_options 10 decode_test

options_decode-rounds_example : options_loop 100 message 4 11 0 0 0 ≡ options_decode message 4 11
options_decode-rounds_example = options_decode-rounds message 4 11 100 (omega arith)

abbrev no_options : Options
no_options = record { options_size = 4; options = []; buff_size = 40; buff = λ a. 0 }

no_options-WellFormed : WellFormed no_options
unfolding last_end
no_options-WellFormed = record { encoded = refl; room = omega arith }

-- An option 27, and an option 11 that is inserted before it.
abbrev one_option : Options
one_option = result no_options 27 (7 ∷ [])

add_27 : add_data no_options 27 (7 ∷ []) ≡ ok one_option
unfolding add_data new_position move_options last_end prepare_option_header delta_header last_number
    length_header
add_27 = refl

one_option-WellFormed : WellFormed one_option
one_option-WellFormed =
    (add_data-Inserted no_options one_option 27 (7 ∷ []) no_options-WellFormed (omega arith)
      (omega arith) add_27).well_formed

abbrev two_options : Options
two_options = result one_option 11 (1 ∷ 2 ∷ [])

add_11 : add_data one_option 11 (1 ∷ 2 ∷ []) ≡ ok two_options
unfolding add_data new_position move_options last_end prepare_option_header delta_header last_number
    length_header
add_11 = refl

add_data-Inserted_example : Inserted one_option 11 (1 ∷ 2 ∷ []) two_options
add_data-Inserted_example =
    add_data-Inserted one_option two_options 11 (1 ∷ 2 ∷ []) one_option-WellFormed (omega arith)
      (omega arith) add_11

no_11 : get_data one_option.buff one_option.options 11 0 8 ≡ error option_missing
unfolding get_data new_position move_options
no_11 = refl

get_data-add_data_example : get_data two_options.buff two_options.options 11 0 8 ≡ ok (1 ∷ 2 ∷ [])
get_data-add_data_example =
    get_data-add_data one_option two_options 11 (1 ∷ 2 ∷ []) 8 one_option-WellFormed (omega arith)
      (omega arith) (omega arith) no_11 add_11

get_data-add_other_example :
    get_data two_options.buff two_options.options 3 0 8
    ≡ get_data one_option.buff one_option.options 3 0 8
get_data-add_other_example =
    get_data-add_other one_option two_options 11 (1 ∷ 2 ∷ []) 3 8 one_option-WellFormed
      (omega arith) (omega arith) (λ e. omega (arith, e)) add_11
