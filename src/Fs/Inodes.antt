-- ===== src/Fs/Inodes.antt =====
-- parte-2/fs/state.c: the start of the tables, and the i-nodes.
use tecnicofs.Base.{
  ℕ, zero, suc, ◌+◌, ◌*◌, true, not, ◌||◌, Option, none, some, ltb, if◌then◌else◌, update, ℤ, pos,
  minus_one, is_minus_one, pos_part,
}
use tecnicofs.Memory.{Memory, store_int}
use tecnicofs.Fs.State.{
  State, Inode, InodeType, t_file, t_directory, AllocationState, free, taken, is_taken,
  inode_table_size, block_size, dir_entry_size, max_dir_entries, max_file_name,
}
use tecnicofs.Fs.Blocks.{
  valid_inumber, first_free, data_block_alloc, data_block_free, data_block_get,
}

-- The static tables of a process that starts: all bytes are zero.
abbrev pub boot : State
boot = record {
  inode_table = λ _. record { i_node_type = t_file; i_size = 0; i_data_block = pos 0 };
  freeinode_ts = λ _. free;
  fs_data = λ _. 0;
  free_blocks = λ _. free;
  open_file_table = λ _. record { of_inumber = pos 0; of_offset = 0 };
  free_open_file_entries = λ _. free;
  open_files_count = pos 0;
  open_flag = true;
}

-- The loops reach every entry of their tables.
unfoldable pub state_init : State → State
state_init s = record s {
  open_flag = true;
  freeinode_ts = λ _. free;
  free_blocks = λ _. free;
  free_open_file_entries = λ _. free;
}

abbrev pub set_inode : State → ℕ → Inode → State
set_inode s i inode = record s { inode_table = update s.inode_table i inode }

abbrev pub set_freeinode : State → ℕ → AllocationState → State
set_freeinode s i a = record s { freeinode_ts = update s.freeinode_ts i a }

-- The address of `dir_entry[i].d_inumber`.
abbrev pub d_inumber_at : ℕ → ℕ → ℕ
d_inumber_at dir i = dir + i * dir_entry_size + max_file_name

-- `dir_entry[i].d_inumber = -1`, for the `n` entries from `i` on.
unfoldable pub clear_entries : ℕ → ℕ → ℕ → Memory → Memory
clear_entries zero i dir m = m
clear_entries (suc n) i dir m =
    clear_entries n (i + 1) dir (store_int m (d_inumber_at dir i) minus_one)

-- The part of `inode_create` behind the choice of the free entry `i`, for either type of node.
-- A block that `data_block_get` does not find stays taken, as in the code.
unfoldable pub init_inode : ℕ → InodeType → State → ℤ × State
init_inode i t_directory s =
    let (b, s') = data_block_alloc s in
    let sized =
      set_inode s' i
        (record { i_node_type = t_directory; i_size = block_size; i_data_block = b }) in
    if is_minus_one b then (minus_one, set_freeinode s' i free) else elim (data_block_get b) [
      | none ↦ (minus_one, set_freeinode sized i free)
      | some dir ↦
          (pos i, record sized { fs_data = clear_entries max_dir_entries 0 dir sized.fs_data })
    ]
init_inode i t_file s =
    (pos i, set_inode s i (record { i_node_type = t_file; i_size = 0; i_data_block = minus_one }))

unfoldable pub inode_create : InodeType → State → ℤ × State
inode_create n_type s = elim (first_free inode_table_size 0 s.freeinode_ts) [
  | none ↦ (minus_one, s)
  | some i ↦
      let s' = set_freeinode s i taken in
      init_inode i n_type (set_inode s' i (record (s'.inode_table i) { i_node_type = n_type }))
]

unfoldable pub inode_delete : ℤ → State → ℤ × State
inode_delete inumber s =
    let i = pos_part inumber in
    let s' = set_freeinode s i free in
    if not (valid_inumber inumber) || not (is_taken (s.freeinode_ts i))
    then (minus_one, s)
    else if ltb 0 (s.inode_table i).i_size
    then data_block_free (s.inode_table i).i_data_block s'
    else (pos 0, s')

-- The index in `inode_table`, `none` for NULL.
unfoldable pub inode_get : ℤ → Option ℕ
inode_get inumber = if valid_inumber inumber then some (pos_part inumber) else none
