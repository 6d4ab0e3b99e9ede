-- ===== src/First/Operations/Read.antt =====
-- parte-1/fs/operations.c: tfs_read.
use tecnicofs.Base.{
  ℕ, zero, suc, ◌+◌, ◌-◌, ◌*◌, ◌/◌, ◌%◌, Bool, true, false, Option, none, some, List, [], ◌++◌, ltb,
  leb, ◌==◌, if◌then◌else◌, update, ℤ, pos, minus_one, signed64,
}
use tecnicofs.Memory.{read_bytes, load_int}
use tecnicofs.Fs.State.{block_size, fs_data_size}
use tecnicofs.Fs.Operations.{size_mod, read_size}
use tecnicofs.First.State.{
  State, Outcome, undefined, done, ◌>>=◌, unlock_inode, unlock_file, max_direct_blocks,
}
use tecnicofs.First.Blocks.{data_block_get}
use tecnicofs.First.Operations.Transfer.{with_file, end_blocks, move_size, is_last}

-- The address of the block `k` of the node `i`, `none` where the code returns -1.
unfoldable pub read_block : ℕ → ℕ → State → Outcome (Option ℕ)
read_block i k s =
    if ltb k max_direct_blocks
    then done (data_block_get ((s.inode_table i).i_data_block k))
    else elim (data_block_get (s.inode_table i).i_indirect_data_block) [
      | none ↦ done none
      | some base ↦
          let a = base + 4 * (k - max_direct_blocks) in
          if leb (a + 4) fs_data_size
          then done (data_block_get (load_int s.fs_data a))
          else undefined
    ]

abbrev pub set_offset : ℕ → ℕ → State → State
set_offset h offset s = record s {
  open_file_table =
      update s.open_file_table h (record (s.open_file_table h) { of_offset = offset });
}

-- What the loop leaves: the bytes read and their number, `none` where the code returns -1, and the
-- state.
abbrev pub Loaded : Type 0
Loaded = Option (ℕ × List ℕ) × State

-- A turn's bytes before those of the others.
abbrev pub behind : List ℕ → Loaded → Loaded
behind bytes (none, s) = (none, s)
behind bytes (some (n, more), s) = (some (n, bytes ++ more), s)

-- A move of `m` bytes from the address `a`, the last one or not, with the offset `offset` and `n`
-- bytes left to read; `next` is the rest of the loop.
unfoldable pub read_move :
    (ℕ → ℕ → State → Outcome Loaded) → ℕ → ℕ → ℕ → State → ℕ → ℕ → ℕ → Bool → Outcome Loaded
read_move next h n count s a offset m last =
    let s' = set_offset h ((offset + m) % size_mod) s in
    elim (leb (a + m) fs_data_size) [
      | false ↦ undefined
      | true ↦ elim last [
        | true ↦ done (some (count + m, read_bytes s.fs_data a m), s')
        | false ↦
            next (n - m) (count + m) s' >>= λ rest. done (behind (read_bytes s.fs_data a m) rest)
      ]
    ]

-- One turn of the loop, at the block `k` of which the address is given.
abbrev pub read_turn :
    (ℕ → ℕ → State → Outcome Loaded) → ℕ → ℕ → ℕ → ℕ → ℕ → State → Option ℕ → Outcome Loaded
read_turn next k end_block h n count s none = done (none, s)
read_turn next k end_block h n count s (some base) =
    let offset = (s.open_file_table h).of_offset in
    read_move next h n count s (base + offset % block_size) offset (move_size k end_block offset n)
      (is_last k end_block offset n)

-- The loop for `turns` blocks from the index `k` on.
unfoldable pub read_loop : ℕ → ℕ → ℕ → ℕ → ℕ → ℕ → ℕ → State → Outcome Loaded
read_loop zero k end_block h i n count s = done (some (count, []), s)
read_loop (suc turns) k end_block h i n count s =
    read_block i k s
    >>= read_turn (λ n' count' s'. read_loop turns (k + 1) end_block h i n' count' s') k end_block h
        n count s

-- Behind the loop both locks are given back: the result, the bytes put into the buffer, and the state.
abbrev pub finish_read : ℕ → ℕ → Loaded → ℤ × List ℕ × State
finish_read h i (none, s) = (minus_one, [], unlock_inode i (unlock_file h s))
finish_read h i (some (count, bytes), s) = (signed64 count, bytes, unlock_inode i (unlock_file h s))

-- With both locks held, and `n` bytes to read.
unfoldable pub read_locked : ℕ → ℕ → ℕ → State → Outcome (ℤ × List ℕ × State)
read_locked h i n s =
    let offset = (s.open_file_table h).of_offset in
    let first = offset / block_size in
    let end_block = end_blocks offset n in
    if n == 0
    then done (pos 0, [], unlock_inode i (unlock_file h s))
    else (read_loop (end_block - first) first end_block h i n 0 s >>= λ loaded.
        done (finish_read h i loaded))

-- How many bytes a read takes, with both locks held.
abbrev pub read_sized : ℕ → ℕ → ℕ → State → Outcome (ℤ × List ℕ × State)
read_sized len h i s =
    read_locked h i (read_size (s.inode_table i).i_size (s.open_file_table h).of_offset len) s

unfoldable pub tfs_read : ℤ → ℕ → State → Outcome (ℤ × List ℕ × State)
tfs_read fhandle len s = with_file (λ t. (minus_one, [], t)) (read_sized len) fhandle s
