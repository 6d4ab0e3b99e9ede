-- ===== src/Fs/Blocks.antt =====
-- parte-2/fs/state.c: tests of an index, the search for a free entry, and the data blocks.
-- The calls of insert_delay and touch_all_memory change no state and are left out.
pub mod Search
use tecnicofs.Base.{
  ℕ, zero, suc, ◌+◌, ◌*◌, Bool, false, Option, none, some, ltb, if◌then◌else◌, update, ℤ, pos,
  negsuc, minus_one, pos_part,
}
use tecnicofs.Fs.State.{
  State, AllocationState, free, taken, inode_table_size, data_blocks, max_open_files, block_size,
}

abbrev pub valid_inumber : ℤ → Bool
valid_inumber (pos n) = ltb n inode_table_size
valid_inumber (negsuc n) = false

abbrev pub valid_block_number : ℤ → Bool
valid_block_number (pos n) = ltb n data_blocks
valid_block_number (negsuc n) = false

abbrev pub valid_file_handle : ℤ → Bool
valid_file_handle (pos n) = ltb n max_open_files
valid_file_handle (negsuc n) = false

-- The loop that the three allocators share: the first FREE entry of the `n` entries from `i` on.
unfoldable pub first_free : ℕ → ℕ → (ℕ → AllocationState) → Option ℕ
first_free zero i t = none
first_free (suc n) i t = elim (t i) [ free ↦ some i | taken ↦ first_free n (i + 1) t ]

unfoldable pub data_block_alloc : State → ℤ × State
data_block_alloc s = elim (first_free data_blocks 0 s.free_blocks) [
  | none ↦ (minus_one, s)
  | some i ↦ (pos i, record s { free_blocks = update s.free_blocks i taken })
]

unfoldable pub data_block_free : ℤ → State → ℤ × State
data_block_free block_number s =
    if valid_block_number block_number
    then (pos 0, record s { free_blocks = update s.free_blocks (pos_part block_number) free })
    else (minus_one, s)

-- The address of a block in `fs_data`, `none` for NULL.
unfoldable pub data_block_get : ℤ → Option ℕ
data_block_get block_number =
    if valid_block_number block_number then some (pos_part block_number * block_size) else none
