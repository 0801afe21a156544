-- ===== src/Utils/BlockSize.antt =====
-- `_anj_determine_block_buffer_size` (src/anj/utils.c).
use anjay_lite.Base.{
  ℕ, zero, suc, ◌*◌, ◌/◌, ◌%◌, ◌^◌, ◌≤◌, ◌≡◌, ◌⊎◌, ◌&&◌, arith, ltb, leb, if◌then◌else◌,
}

-- The loop, with the rounds that it may take.
unfoldable pub block_size_loop : ℕ → (buff_size size : ℕ) → ℕ
block_size_loop zero buff_size size = size
block_size_loop (suc rounds) buff_size size =
    let doubled = block_size_loop rounds buff_size (size * 2 % 2 ^ 16) in
    if leb size buff_size && leb size 1024 then doubled else size

-- From 16 on, the size passes 1024 after seven rounds.
unfoldable pub determine_block_buffer_size : ℕ → ℕ
unfolding block_size_loop
determine_block_buffer_size buff_size =
    if ltb buff_size 16 then 0 else block_size_loop 8 buff_size 16 / 2

-- The block sizes of CoAP.
abbrev pub IsBlockSize : ℕ → Type 0
IsBlockSize s =
    (s ≡ 16) ⊎ ((s ≡ 32) ⊎ ((s ≡ 64) ⊎ ((s ≡ 128) ⊎ ((s ≡ 256) ⊎ ((s ≡ 512) ⊎ (s ≡ 1024))))))

-- If a block size `s` fits the buffer, then the function returns a block size that fits it and is at
-- least `s`: the largest one, since `s` is any.
pub determine_block_buffer_size_largest :
    (buff_size s : ℕ)
    → IsBlockSize s
    → s ≤ buff_size
    → IsBlockSize (determine_block_buffer_size buff_size)
      × (determine_block_buffer_size buff_size ≤ buff_size)
      × (s ≤ determine_block_buffer_size buff_size)
unfolding determine_block_buffer_size
determine_block_buffer_size_largest n s b h = ground arith
