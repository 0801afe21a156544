-- ===== src/Coap/BlockWise.antt =====
-- src/anj/coap/block.c: the BLOCK1 and BLOCK2 options.
pub mod RoundTrip
mod Tests
use anjay_lite.Base.{
  ℕ, zero, suc, ◌+◌, ◌-◌, ◌*◌, ◌/◌, ◌%◌, ◌^◌, Bool, true, false, not, List, [], ◌∷◌, ◌==◌, ltb, leb,
  length, if◌then◌else◌, Option, none, some,
}
use anjay_lite.Coap.{Block, BlockOption, block_not_defined, block_1, block_2, block_both}
use anjay_lite.Coap.Options.{
  Memory, Outcome, error, ok, Error, err_input_arg, err_malformed_message, option_missing,
  CoapOption, get_data,
}
use anjay_lite.Coap.Options.Add.{Options, add_data}

abbrev pub option_block1 : ℕ
option_block1 = 27

abbrev pub option_block2 : ℕ
option_block2 = 23

-- `_ANJ_BLOCK_OPTION_MAX_SIZE`
abbrev pub block_option_max_size : ℕ
block_option_max_size = 3

-- The block that the bytes of the option spell, one to three. `+` is of `int` values.
unfoldable pub block_from_bytes : BlockOption → List ℕ → Outcome Block
block_from_bytes type [] = error err_malformed_message
block_from_bytes type (a ∷ []) = ok (record {
  block_type = type;
  more_flag = not (a / 8 % 2 == 0);
  number = a / 16 % 16;
  size = 2 * 2 ^ (a % 8 + 3) % 2 ^ 16;
})
block_from_bytes type (a ∷ b ∷ []) = ok (record {
  block_type = type;
  more_flag = not (b / 8 % 2 == 0);
  number = a * 2 ^ 4 + b / 16 % 16;
  size = 2 * 2 ^ (b % 8 + 3) % 2 ^ 16;
})
block_from_bytes type (a ∷ b ∷ c ∷ []) = ok (record {
  block_type = type;
  more_flag = not (c / 8 % 2 == 0);
  number = a * 2 ^ 12 + b * 2 ^ 4 + c / 16 % 16;
  size = 2 * 2 ^ (c % 8 + 3) % 2 ^ 16;
})
block_from_bytes type _ = error err_malformed_message

-- `memset(block, 0, sizeof(_anj_block_t))`
abbrev pub no_block : Block
no_block = record { block_type = block_not_defined; more_flag = false; number = 0; size = 0 }

abbrev block_read : BlockOption → (missing : Outcome Block) → Outcome (List ℕ) → Outcome Block
block_read type missing (error option_missing) = missing
block_read type missing (error e) = error e
block_read type missing (ok bytes) = block_from_bytes type bytes

-- `_anj_block_decode`
unfoldable pub block_decode : Memory → List CoapOption → Outcome Block
block_decode mem opts =
    block_read block_1
      (block_read block_2 (ok no_block) (get_data mem opts option_block2 0 block_option_max_size))
      (get_data mem opts option_block1 0 block_option_max_size)

-- The index of the size in `allowed_block_sized_values`, `none` where SZX stays 0xFF. The loop of the
-- source goes on over the bytes behind the table, which the model does not.
unfoldable pub find_szx : List ℕ → (i size : ℕ) → Option ℕ
find_szx [] i size = none
find_szx (s ∷ ss) i size = let rest = find_szx ss (i + 1) size in if size == s then some i else rest

abbrev pub allowed_block_sized_values : List ℕ
allowed_block_sized_values = 16 ∷ 32 ∷ 64 ∷ 128 ∷ 256 ∷ 512 ∷ 1024 ∷ []

abbrev pub flag : Bool → ℕ
flag b = if b then 1 else 0

-- The bytes of the option, where the number is in range.
unfoldable pub block_bytes : (szx : ℕ) → Block → List ℕ
block_bytes szx block =
    let last = (flag block.more_flag * 8 + szx + block.number * 16 % 2 ^ 8) % 2 ^ 8 in
    if leb block.number 15
    then last ∷ []
    else if leb block.number 4095
    then block.number / 2 ^ 4 % 2 ^ 8 ∷ last ∷ []
    else block.number / 2 ^ 12 % 2 ^ 8 ∷ block.number / 2 ^ 4 % 2 ^ 8 ∷ last ∷ []

abbrev pub block_option_number : BlockOption → Option ℕ
block_option_number block_1 = some option_block1
block_option_number block_2 = some option_block2
block_option_number _ = none

-- `_anj_block_prepare`
unfoldable pub block_prepare : Options → Block → Outcome Options
block_prepare opts block = elim (block_option_number block.block_type) [
  | none ↦ error err_input_arg
  | some number ↦ elim (find_szx allowed_block_sized_values 0 block.size) [
    | none ↦ error err_input_arg
    | some szx ↦
        if not (leb block.number 0xFFFFF)
        then error err_input_arg
        else add_data opts number (block_bytes szx block)
  ]
]
