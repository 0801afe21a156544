-- ===== src/Coap/BlockWise/RoundTrip.antt =====
-- `_anj_block_prepare` and `_anj_block_decode` (src/anj/coap/block.c).
use anjay_lite.Base.{
  ℕ, ◌+◌, ◌*◌, ◌%◌, ◌^◌, ◌≤◌, ◌≡◌, ◌⊎◌, List, some, arith, length, Option-cases, inl, inr,
}
use anjay_lite.Coap.{Block, block_1, block_2}
use anjay_lite.Coap.Options.{error, ok, get_data, option_missing}
use anjay_lite.Coap.Options.Add.{Options, add_data}
use anjay_lite.Coap.Options.Insertion.{WellFormed}
use anjay_lite.Coap.Options.Reading.{get_data-add_data, get_data-add_other}
use anjay_lite.Coap.BlockWise.{
  option_block1, option_block2, block_option_max_size, block_from_bytes, block_decode, block_bytes,
  find_szx, allowed_block_sized_values, block_prepare,
}

-- The size that a value of SZX means.
record IsSzx (szx size : ℕ) : Type 0 where
  in_range : szx ≤ 6
  size_is : size ≡ 2 * 2 ^ (szx + 3) % 2 ^ 16

find_szx-IsSzx :
    (size szx : ℕ) → find_szx allowed_block_sized_values 0 size ≡ some szx → IsSzx szx size
unfolding find_szx
find_szx-IsSzx size szx e = ground arith

length-block_bytes : (szx : ℕ) (block : Block) → length (block_bytes szx block) ≤ 3
unfolding block_bytes
length-block_bytes szx block = ground arith

block_from_bytes-block_bytes :
    (szx : ℕ) (block : Block)
    → IsSzx szx block.size
    → block.number ≤ 0xFFFFF
    → block_from_bytes block.block_type (block_bytes szx block) ≡ ok block
unfolding block_from_bytes block_bytes
block_from_bytes-block_bytes szx block s h = ground (arith, s.size_is, s.in_range)

-- What a call of `block_prepare` that succeeds has done.
record Prepared (opts : Options) (block : Block) (opts' : Options) : Type 0 where
  type_is : (block.block_type ≡ block_1) ⊎ (block.block_type ≡ block_2)
  szx : ℕ
  szx_is : IsSzx szx block.size
  in_range : block.number ≤ 0xFFFFF
  add_1 :
      block.block_type ≡ block_1 → add_data opts option_block1 (block_bytes szx block) ≡ ok opts'
  add_2 :
      block.block_type ≡ block_2 → add_data opts option_block2 (block_bytes szx block) ≡ ok opts'

block_prepare-Prepared :
    (opts : Options) (block : Block) (opts' : Options)
    → block_prepare opts block ≡ ok opts'
    → Prepared opts block opts'
unfolding block_prepare
block_prepare-Prepared opts block opts' e =
    elim (Option-cases (find_szx allowed_block_sized_values 0 block.size)) [
      | inl n ↦ absurd (ground (arith, n, e))
      | inr (szx, s) ↦ record {
        type_is = ground (arith, s, e);
        szx = szx;
        szx_is = find_szx-IsSzx block.size szx s;
        in_range = ground (arith, s, e);
        add_1 = λ t. ground (arith, s, e, t);
        add_2 = λ t. ground (arith, s, e, t);
      }
    ]

-- If well-formed options hold no BLOCK1 and no BLOCK2 option and a block option is prepared with
-- success, then decoding it gives the same block: its type, its flag, its number and its size.
pub block_decode-block_prepare :
    (opts opts' : Options) (block : Block)
    → WellFormed opts
    → get_data opts.buff opts.options option_block1 0 block_option_max_size ≡ error option_missing
    → get_data opts.buff opts.options option_block2 0 block_option_max_size ≡ error option_missing
    → block_prepare opts block ≡ ok opts'
    → block_decode opts'.buff opts'.options ≡ ok block
unfolding block_decode
block_decode-block_prepare opts opts' block w none_1 none_2 e =
    let p = block_prepare-Prepared opts block opts' e in
    let bytes : List ℕ = block_bytes p.szx block in
    let size = length-block_bytes p.szx block in
    let parsed = block_from_bytes-block_bytes p.szx block p.szx_is p.in_range in
    elim p.type_is [
      | inl t ↦
          let read =
            get_data-add_data opts opts' option_block1 bytes 3 w (omega arith) (omega (arith, size))
              size none_1 (p.add_1 t) in
          ground (arith, read, parsed, t)
      | inr t ↦
          let read =
            get_data-add_data opts opts' option_block2 bytes 3 w (omega arith) (omega (arith, size))
              size none_2 (p.add_2 t) in
          let other =
            get_data-add_other opts opts' option_block2 bytes option_block1 3 w (omega arith)
              (omega (arith, size)) (omega arith) (p.add_2 t) in
          ground (arith, read, other, none_1, parsed, t)
    ]
