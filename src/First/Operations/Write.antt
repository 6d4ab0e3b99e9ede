-- ===== src/First/Operations/Write.antt =====
-- parte-1/fs/operations.c: tfs_write.
use tecnicofs.Base.{
  ℕ, zero, suc, ◌+◌, ◌-◌, ◌*◌, ◌/◌, ◌%◌, Bool, true, false, not, ◌&&◌, Option, none, some, List,
  drop, length, ltb, leb, ◌==◌, if◌then◌else◌, update, ℤ, pos, minus_one, is_minus_one, signed64,
}
use tecnicofs.Memory.{Memory, memcpy, load_int, store_int}
use tecnicofs.Fs.State.{block_size, fs_data_size}
use tecnicofs.Fs.Operations.{size_mod}
use tecnicofs.First.State.{
  State, Outcome, undefined, done, ◌>>=◌, set_inode, with_data, unlock_inode, unlock_file,
  max_direct_blocks,
}
use tecnicofs.First.Blocks.{data_block_alloc, data_block_get}
use tecnicofs.First.Operations.Transfer.{with_file, end_blocks, move_size, is_last}

-- The address of the block that a turn writes, `none` where the code returns -1.
abbrev pub Located : Type 0
Located = Option ℕ × State

abbrev pub set_direct : ℕ → ℕ → ℤ → State → State
set_direct i k b s =
    let inode = s.inode_table i in
    set_inode i (record inode { i_data_block = update inode.i_data_block k b }) s

abbrev pub set_indirect : ℕ → ℤ → State → State
set_indirect i b s = set_inode i (record (s.inode_table i) { i_indirect_data_block = b }) s

-- The direct block `k` of the node `i`, allocated if there is none.
unfoldable pub direct_block : ℕ → ℕ → State → Located
direct_block i k s =
    let (b, s') = data_block_alloc s in
    if is_minus_one ((s.inode_table i).i_data_block k)
    then (if is_minus_one b then none else data_block_get b, set_direct i k b s')
    else (data_block_get ((s.inode_table i).i_data_block k), s)

-- The `n` references from the address `a` on are set to -1.
unfoldable pub clear_references : ℕ → ℕ → Memory → Memory
clear_references zero a m = m
clear_references (suc n) a m = clear_references n (a + 4) (store_int m a minus_one)

-- How many references the code clears: the loop runs from MAX_DIRECT_BLOCKS to BLOCK_SIZE.
abbrev pub cleared_references : ℕ
cleared_references = block_size - max_direct_blocks

-- The address of the block of references, allocated and cleared if there is none.
unfoldable pub reference_block : ℕ → State → Outcome Located
reference_block i s =
    let (b, s') = data_block_alloc s in
    let s'' = set_indirect i b s' in
    if is_minus_one (s.inode_table i).i_indirect_data_block
    then elim (data_block_get b) [
      | none ↦ done (none, s'')
      | some a ↦
          if leb (a + 4 * cleared_references) fs_data_size
          then done (some a, with_data s'' (clear_references cleared_references a s''.fs_data))
          else undefined
    ]
    else done (data_block_get (s.inode_table i).i_indirect_data_block, s)

-- The block that the reference at the address `a` names, allocated if there is none.
unfoldable pub referred_block : ℕ → State → Outcome Located
referred_block a s =
    let (b, s') = data_block_alloc s in
    let s'' = with_data s' (store_int s'.fs_data a b) in
    let v = load_int s.fs_data a in
    if not (leb (a + 4) fs_data_size)
    then undefined
    else if is_minus_one v
    then done (if is_minus_one b then none else data_block_get b, s'')
    else done (data_block_get v, s)

-- The block `k` of the node `i`.
unfoldable pub write_block : ℕ → ℕ → State → Outcome Located
write_block i k s = if ltb k max_direct_blocks then done (direct_block i k s) else do
  (a, s') ← reference_block i s
  elim a [
    | none ↦ done (none, s')
    | some base ↦ referred_block (base + 4 * (k - max_direct_blocks)) s'
  ]

-- The memcpy of `n` bytes at the address `a`, and the offset and the size behind it.
abbrev pub put : ℕ → ℕ → ℕ → ℕ → List ℕ → State → State
put h i a n buffer s =
    let file = s.open_file_table h in
    let inode = s.inode_table i in
    let offset = (file.of_offset + n) % size_mod in
    record s {
      fs_data = memcpy s.fs_data a buffer n;
      open_file_table = update s.open_file_table h (record file { of_offset = offset });
      inode_table =
          update s.inode_table i
            (record inode { i_size = if ltb inode.i_size offset then offset else inode.i_size });
    }

-- What the loop leaves: the bytes written, `none` where the code returns -1, and the state.
abbrev pub Written : Type 0
Written = Option ℕ × State

-- A move of `m` bytes to the address `a`, the last one or not, with `n` bytes of the buffer left;
-- `next` is the rest of the loop.
unfoldable pub write_move :
    (List ℕ → ℕ → ℕ → State → Outcome Written)
    → ℕ
    → ℕ
    → List ℕ
    → ℕ
    → ℕ
    → State
    → ℕ
    → ℕ
    → Bool
    → Outcome Written
write_move next h i buffer n written s a m last =
    elim (leb (a + m) fs_data_size && leb m (length buffer)) [
      | false ↦ undefined
      | true ↦ elim last [
        | true ↦ done (some (written + m), put h i a m buffer s)
        | false ↦ next (drop m buffer) (n - m) (written + m) (put h i a m buffer s)
      ]
    ]

-- One turn of the loop, at the block `k` of which the address is given.
abbrev pub write_turn :
    (List ℕ → ℕ → ℕ → State → Outcome Written)
    → ℕ
    → ℕ
    → ℕ
    → ℕ
    → List ℕ
    → ℕ
    → ℕ
    → Located
    → Outcome Written
write_turn next k end_block h i buffer n written (none, s) = done (none, s)
write_turn next k end_block h i buffer n written (some base, s) =
    let offset = (s.open_file_table h).of_offset in
    write_move next h i buffer n written s (base + offset % block_size)
      (move_size k end_block offset n) (is_last k end_block offset n)

-- The loop for `turns` blocks from the index `k` on.
unfoldable pub write_loop : ℕ → ℕ → ℕ → ℕ → ℕ → List ℕ → ℕ → ℕ → State → Outcome Written
write_loop zero k end_block h i buffer n written s = done (some written, s)
write_loop (suc turns) k end_block h i buffer n written s =
    write_block i k s
    >>= write_turn
        (λ buffer' n' written' s'. write_loop turns (k + 1) end_block h i buffer' n' written' s') k
        end_block h i buffer n written

-- Behind the loop both locks are given back.
abbrev pub finish_write : ℕ → ℕ → Written → ℤ × State
finish_write h i (none, s) = (minus_one, unlock_inode i (unlock_file h s))
finish_write h i (some n, s) = (signed64 n, unlock_inode i (unlock_file h s))

-- With both locks held; only behind the loop they are given back.
unfoldable pub write_locked : ℕ → ℕ → List ℕ → ℕ → State → Outcome (ℤ × State)
write_locked h i buffer to_write s =
    let offset = (s.open_file_table h).of_offset in
    let first = offset / block_size in
    let end_block = end_blocks offset to_write in
    if to_write == 0
    then done (pos 0, s)
    else (write_loop (end_block - first) first end_block h i buffer to_write 0 s >>= λ written.
        done (finish_write h i written))

unfoldable pub tfs_write : ℤ → List ℕ → ℕ → State → Outcome (ℤ × State)
tfs_write fhandle buffer to_write s =
    with_file (λ t. (minus_one, t)) (λ h i t. write_locked h i buffer to_write t) fhandle s
