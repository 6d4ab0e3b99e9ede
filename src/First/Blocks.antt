-- ===== src/First/Blocks.antt =====
-- parte-1/fs/state.c: the data blocks.
use tecnicofs.Base.{ℕ, ◌*◌, Option, none, some, if◌then◌else◌, update, ℤ, pos, minus_one, pos_part}
use tecnicofs.Fs.State.{free, taken, data_blocks, block_size}
use tecnicofs.Fs.Blocks.{first_free, valid_block_number}
use tecnicofs.First.State.{State, Outcome, undefined, done}

unfoldable pub data_block_alloc : State → ℤ × State
data_block_alloc s = elim (first_free data_blocks 0 s.free_blocks) [
  | none ↦ (minus_one, s)
  | some i ↦ (pos i, record s { free_blocks = update s.free_blocks i taken })
]

-- The lock of the block is taken before the number is tested.
unfoldable pub data_block_free : ℤ → State → Outcome (ℤ × State)
data_block_free block_number s =
    if valid_block_number block_number
    then done (pos 0, record s { free_blocks = update s.free_blocks (pos_part block_number) free })
    else undefined

-- The address of a block, `none` for NULL.
unfoldable pub data_block_get : ℤ → Option ℕ
data_block_get block_number =
    if valid_block_number block_number then some (pos_part block_number * block_size) else none
