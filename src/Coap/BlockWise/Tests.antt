-- ===== src/Coap/BlockWise/Tests.antt =====
-- A block option on a concrete buffer.
use anjay_lite.Base.{◌≡◌, refl, arith, true, [], ◌∷◌}
use anjay_lite.Coap.{Block, block_1}
use anjay_lite.Coap.BlockWise.{block_decode, block_prepare, find_szx, block_bytes}
use anjay_lite.Coap.BlockWise.RoundTrip.{block_decode-block_prepare}
use anjay_lite.Coap.Options.{ok, get_data, prepare_option_header, delta_header, length_header}
use anjay_lite.Coap.Options.Add.{
  Options, add_data, new_position, move_options, last_end, last_number,
}
use anjay_lite.Coap.Options.Insertion.{WellFormed, result}

abbrev no_options : Options
no_options = record { options_size = 4; options = []; buff_size = 40; buff = λ a. 0 }

no_options-WellFormed : WellFormed no_options
unfolding last_end
no_options-WellFormed = record { encoded = refl; room = omega arith }

abbrev block : Block
block = record { block_type = block_1; more_flag = true; number = 300; size = 512 }

abbrev with_block : Options
with_block = result no_options 27 (18 ∷ 205 ∷ [])

block_decode-block_prepare_example : block_decode with_block.buff with_block.options ≡ ok block
unfolding block_prepare find_szx block_bytes add_data new_position move_options last_end
    prepare_option_header delta_header last_number length_header get_data
block_decode-block_prepare_example =
    block_decode-block_prepare no_options with_block block no_options-WellFormed refl refl refl
