-- ===== src/First/Inodes.antt =====
-- parte-1/fs/state.c: the start of the tables, and the i-nodes.
use tecnicofs.Base.{
  ℕ, zero, suc, ◌+◌, true, false, not, ◌||◌, Option, none, some, ltb, if◌then◌else◌, update, ℤ, pos,
  minus_one, is_minus_one, pos_part,
}
use tecnicofs.Fs.State.{
  InodeType, t_file, t_directory, AllocationState, free, taken, is_taken, inode_table_size,
  block_size, max_dir_entries,
}
use tecnicofs.Fs.Blocks.{valid_inumber, valid_block_number}
use tecnicofs.Fs.Inodes.{clear_entries}
use tecnicofs.First.State.{State, Outcome, stuck, undefined, done, set_inode, with_data}
use tecnicofs.First.Blocks.{data_block_alloc, data_block_get}

-- The static tables of a process that starts.
abbrev pub boot : State
boot = record {
  inode_table = λ _. record {
    i_node_type = t_file;
    i_size = 0;
    i_data_block = λ _. pos 0;
    i_indirect_data_block = pos 0;
  };
  freeinode_ts = λ _. free;
  inode_table_locks = λ _. false;
  fs_data = λ _. 0;
  free_blocks = λ _. free;
  open_file_table = λ _. record { of_inumber = pos 0; of_offset = 0 };
  free_open_file_entries = λ _. free;
  open_file_table_locks = λ _. false;
  open_files_count = pos 0;
  open_file_lock = false;
}

-- The loops reach every entry of their tables, and make all locks anew.
unfoldable pub state_init : State → State
state_init s = record s {
  freeinode_ts = λ _. free;
  inode_table_locks = λ _. false;
  free_blocks = λ _. free;
  free_open_file_entries = λ _. free;
  open_file_table_locks = λ _. false;
  open_file_lock = false;
}

abbrev pub set_freeinode : ℕ → AllocationState → State → State
set_freeinode i a s = record s { freeinode_ts = update s.freeinode_ts i a }

-- The part of `inode_create` behind the choice of the free entry `i`.
unfoldable pub init_inode : ℕ → InodeType → State → ℤ × State
init_inode i t_directory s =
    let (b, s') = data_block_alloc s in
    let inode = s'.inode_table i in
    let sized =
      set_inode i
        (record inode {
          i_node_type = t_directory;
          i_size = block_size;
          i_data_block = update inode.i_data_block 0 b;
          i_indirect_data_block = minus_one;
        })
        s' in
    if is_minus_one b then (minus_one, set_freeinode i free s') else elim (data_block_get b) [
      | none ↦ (minus_one, set_freeinode i free sized)
      | some dir ↦ (pos i, with_data sized (clear_entries max_dir_entries 0 dir sized.fs_data))
    ]
init_inode i t_file s = (
  pos i,
  set_inode i
      (record {
        i_node_type = t_file;
        i_size = 0;
        i_data_block = λ _. minus_one;
        i_indirect_data_block = minus_one;
      })
      s,
)

-- The loop over the `n` entries from `i` on, each under its lock.
unfoldable pub inode_create_from : ℕ → ℕ → InodeType → State → Outcome (ℤ × State)
inode_create_from zero i n_type s = done (minus_one, s)
inode_create_from (suc n) i n_type s = elim (s.inode_table_locks i) [
  | true ↦ stuck
  | false ↦ elim (s.freeinode_ts i) [
    | taken ↦ inode_create_from n (i + 1) n_type s
    | free ↦
        let s' = set_freeinode i taken s in
        done (
          init_inode i n_type (set_inode i (record (s'.inode_table i) { i_node_type = n_type }) s'))
  ]
]

unfoldable pub inode_create : InodeType → State → Outcome (ℤ × State)
inode_create n_type s = inode_create_from inode_table_size 0 n_type s

-- For a file that is not empty it takes the lock of the first block, which data_block_free takes
-- again.
unfoldable pub inode_delete : ℤ → State → Outcome (ℤ × State)
inode_delete inumber s =
    let i = pos_part inumber in
    if not (valid_inumber inumber) || not (is_taken (s.freeinode_ts i))
    then done (minus_one, s)
    else if ltb 0 (s.inode_table i).i_size
    then if valid_block_number ((s.inode_table i).i_data_block 0) then stuck else undefined
    else done (pos 0, set_freeinode i free s)

-- The index in `inode_table`, `none` for NULL.
unfoldable pub inode_get : ℤ → Option ℕ
inode_get inumber = if valid_inumber inumber then some (pos_part inumber) else none
