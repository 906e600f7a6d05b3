-- ===== src/MemBlock/Sizes.antt =====
-- gc_src/mb.c: the size of the piece that a call of `mb_malloc_p` asks for.
use chvm.Base.{ℕ, ◌+◌, ◌%◌, ◌^◌, ◌≤◌, ◌<◌, ◌≡◌, arith}
use chvm.MemBlock.{round_num_bytes, pad_num_bytes, map_padding, mp_min_size}

-- For a number of bytes below 2 ^ 63 `pad_num_bytes` gives the least even size that leaves room for
-- the bytes beside the padding and that a free piece can have.
pub pad_num_bytes_lem :
    (n : ℕ)
    → n < 2 ^ 63
    → (n + map_padding ≤ pad_num_bytes n)
      × (mp_min_size ≤ pad_num_bytes n)
      × (pad_num_bytes n % 2 ≡ 0)
      × ((k : ℕ) → n + map_padding ≤ k → mp_min_size ≤ k → k % 2 ≡ 0 → pad_num_bytes n ≤ k)
unfolding pad_num_bytes round_num_bytes
pad_num_bytes_lem n small =
    (ground arith, ground arith, ground arith, λ k room big even. ground arith)
