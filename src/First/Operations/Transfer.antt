-- ===== src/First/Operations/Transfer.antt =====
-- parte-1/fs/operations.c: what tfs_write and tfs_read share, their first lines and the sizes in their
-- loops.
use tecnicofs.Base.{ℕ, ◌+◌, ◌-◌, ◌/◌, ◌%◌, Bool, not, none, some, ◌&&◌, ltb, leb, if◌then◌else◌, ℤ}
use tecnicofs.First.State.{State, Outcome, done, ◌>>=◌, lock_file, lock_inode, unlock_file}
use tecnicofs.First.Inodes.{inode_get}
use tecnicofs.First.OpenFiles.{get_open_file_entry}
use tecnicofs.Fs.State.{block_size}
use tecnicofs.Fs.Operations.{size_mod}

-- The index behind the last block, for `n` bytes from `offset` on.
abbrev pub end_blocks : ℕ → ℕ → ℕ
end_blocks offset n =
    let whole = (offset + n) % size_mod / block_size in
    if ltb 0 (n % block_size) then whole + 1 else whole

-- The first test in the loop, at the block `i` with `n` bytes left: the rest of the block is moved.
abbrev pub fills_block : ℕ → ℕ → ℕ → ℕ → Bool
fills_block i end_block offset n = ltb (i + 1) end_block && ltb (block_size - offset % block_size) n

-- How many bytes one turn moves.
abbrev pub move_size : ℕ → ℕ → ℕ → ℕ → ℕ
move_size i end_block offset n =
    if fills_block i end_block offset n
    then block_size - offset % block_size
    else if leb n block_size
    then n
    else block_size

-- Whether the turn ends the loop.
abbrev pub is_last : ℕ → ℕ → ℕ → ℕ → Bool
is_last i end_block offset n = not (fills_block i end_block offset n) && leb n block_size

-- The node of the entry `h`, the lock of which is held; `fail` is the result for NULL, and `body` runs
-- with both locks held.
unfoldable pub with_node :
    {B : Type 0} → (State → B) → (ℕ → ℕ → State → Outcome B) → ℕ → State → Outcome B
with_node fail body h s = elim (inode_get (s.open_file_table h).of_inumber) [
  | none ↦ done (fail (unlock_file h s))
  | some i ↦ lock_inode i s >>= body h i
]

-- The first lines of both functions.
unfoldable pub with_file :
    {B : Type 0} → (State → B) → (ℕ → ℕ → State → Outcome B) → ℤ → State → Outcome B
with_file fail body fhandle s = elim (get_open_file_entry fhandle) [
  | none ↦ done (fail s)
  | some h ↦ lock_file h s >>= with_node fail body h
]
