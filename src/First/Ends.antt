-- ===== src/First/Ends.antt =====
-- The index behind the last block, in tfs_write and tfs_read of parte-1/fs/operations.c.
use tecnicofs.Base.{ℕ, ◌+◌, ◌*◌, ◌/◌, ◌%◌, ◌≤◌, ◌<◌, ◌≡◌, arith}
use tecnicofs.Fs.State.{block_size}
use tecnicofs.Fs.Operations.{size_mod}
use tecnicofs.First.Operations.Transfer.{end_blocks}

-- Where the loop ends is enough for the bytes, if a whole number of blocks starts at a block.
pub end_blocks-enough :
    (o n : ℕ)
    → o + n < size_mod
    → (n % block_size ≡ 0 → o % block_size ≡ 0)
    → o + n ≤ end_blocks o n * block_size
end_blocks-enough o n small whole = ground arith

pub end_blocks-after : (o n : ℕ) → o + n < size_mod → o / block_size ≤ end_blocks o n
end_blocks-after o n small = ground arith
