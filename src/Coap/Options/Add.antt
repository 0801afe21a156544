-- ===== src/Coap/Options/Add.antt =====
-- `_anj_coap_options_add_data` and the functions that add empty and unsigned options
-- (src/anj/coap/options.c): the buffer's memory from `buff_begin` on, and the records of the array
-- that are in use.
use anjay_lite.Base.{
  ℕ, zero, suc, ◌+◌, ◌-◌, ◌*◌, ◌/◌, ◌%◌, ◌^◌, List, [], ◌∷◌, ◌++◌, ◌&&◌, ◌==◌, ltb, leb, length,
  get_or, take, drop, if◌then◌else◌,
}
use anjay_lite.Coap.Options.{
  Memory, Outcome, ok, error, err_options_array, err_buff, CoapOption, prepare_option_header,
}

-- `anj_coap_options_t`
pub record Options : Type 0 where
  pub options_size : ℕ
  pub options : List CoapOption
  pub buff_size : ℕ
  pub buff : Memory

-- `memcpy` of bytes, and `memmove`
abbrev pub store : Memory → (address : ℕ) → List ℕ → Memory
store mem a bytes x = if leb a x && ltb x (a + length bytes) then get_or bytes (x - a) 0 else mem x

abbrev pub memmove : Memory → (dest src size : ℕ) → Memory
memmove mem dest src size x =
    if leb dest x && ltb x (dest + size) then mem (x - dest + src) else mem x

-- "find place to insert new options"
unfoldable pub new_position : List CoapOption → (opt_number : ℕ) → ℕ
new_position [] opt_number = 0
new_position (o ∷ os) opt_number =
    let rest = new_position os opt_number in if ltb opt_number o.option_number then 0 else suc rest

-- The number of the last option, and the address behind its payload.
unfoldable pub last_number : (number : ℕ) → List CoapOption → ℕ
last_number number [] = number
last_number number (o ∷ os) = last_number o.option_number os

unfoldable pub last_end : (address : ℕ) → List CoapOption → ℕ
last_end address [] = address
last_end address (o ∷ os) = last_end (o.payload + o.payload_len) os

-- The loop of "update options array".
unfoldable pub move_options : (memory_offset : ℕ) → List CoapOption → List CoapOption
move_options offset [] = []
move_options offset (o ∷ os) = record o { payload = o.payload + offset } ∷ move_options offset os

-- "new option is not last element": the memory, and the offset by which the options from the next
-- one on have moved. The new header and the next one together are as long as the old one at least.
unfoldable pub insert_before :
    Memory
    → (start last_end previous_opt_number opt_number : ℕ) → (opt_header content : List ℕ)
    → CoapOption
    → Memory × ℕ
insert_before mem start end previous number header content next =
    let old_len = length (prepare_option_header previous next.option_number next.payload_len) in
    let next_header = prepare_option_header number next.option_number next.payload_len in
    let offset = length header + length content + length next_header - old_len in
    let moved = memmove mem (start + offset) start (end - start) in
    (
      store (store (store moved start header) (start + length header) content)
          (start + length header + length content) next_header,
      offset,
    )

-- "update memory buffer", for the options from the new position on
unfoldable pub update_memory :
    Memory
    → (start last_end previous_opt_number opt_number : ℕ) → (opt_header content : List ℕ)
    → List CoapOption
    → Memory × ℕ
update_memory mem start end previous number header content [] =
    (store (store mem start header) (start + length header) content, length header + length content)
update_memory mem start end previous number header content (next ∷ os) =
    insert_before mem start end previous number header content next

-- `_anj_coap_options_add_data`
unfoldable pub add_data : Options → (opt_number : ℕ) → (content : List ℕ) → Outcome Options
add_data opts number content =
    let position = new_position opts.options number in
    let before = take position opts.options in
    let after = drop position opts.options in
    let previous = last_number 0 before in
    let start = last_end 0 before in
    let header = prepare_option_header previous number (length content) in
    let (mem, offset) =
      update_memory opts.buff start (last_end 0 opts.options) previous number header content
        after in
    let added : CoapOption = record {
      payload = start + length header;
      payload_len = length content;
      option_number = number;
    } in
    if length opts.options == opts.options_size
    then error err_options_array
    else if leb opts.buff_size (last_end 0 opts.options + length header + length content)
    then error err_buff
    else ok (record opts { options = before ++ (added ∷ move_options offset after); buff = mem })

-- `_anj_convert_be16`, `_anj_convert_be32` and `_anj_convert_be64` (src/anj/utils.c) on a little-endian
-- platform; the operands of `|` have no bit in common, so that it adds
unfoldable pub convert_be16 : ℕ → ℕ
convert_be16 value = value / 2 ^ 8 + value * 2 ^ 8 % 2 ^ 16

unfoldable pub convert_be32 : ℕ → ℕ
convert_be32 value =
    value / 2 ^ 24
    + value / 2 ^ 16 % 2 ^ 8 * 2 ^ 8
    + value / 2 ^ 8 % 2 ^ 8 * 2 ^ 16
    + value * 2 ^ 24 % 2 ^ 32

-- The bytes of a number in the memory of a little-endian platform.
unfoldable pub bytes : (size value : ℕ) → List ℕ
bytes zero value = []
bytes (suc size) value = value % 2 ^ 8 ∷ bytes size (value / 2 ^ 8)

-- The loop of `add_uint`.
unfoldable pub without_zeros : List ℕ → List ℕ
without_zeros [] = []
without_zeros (b ∷ bs) = if b == 0 then without_zeros bs else b ∷ bs

-- `add_uint`
unfoldable pub add_uint : Options → (opt_number : ℕ) → (value : List ℕ) → Outcome Options
add_uint opts number value = add_data opts number (without_zeros value)

-- `_anj_coap_options_add_empty`, `_add_u16` and `_add_u32`
unfoldable pub add_empty : Options → (opt_number : ℕ) → Outcome Options
add_empty opts number = add_data opts number []

unfoldable pub add_u16 : Options → (opt_number value : ℕ) → Outcome Options
add_u16 opts number value = add_uint opts number (bytes 2 (convert_be16 value))

unfoldable pub add_u32 : Options → (opt_number value : ℕ) → Outcome Options
add_u32 opts number value = add_uint opts number (bytes 4 (convert_be32 value))
