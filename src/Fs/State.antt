-- ===== src/Fs/State.antt =====
-- parte-2/fs/config.h and state.h, and the static tables of state.c as one record.
-- A table is a function from the index; every access of the code is behind a test of its index or
-- a loop bound. A pointer into a table is the index, a pointer into `fs_data` the address.
use tecnicofs.Base.{ℕ, Bool, ℤ}
use tecnicofs.Memory.{Memory}

abbrev pub root_dir_inum : ℕ
root_dir_inum = 0

abbrev pub block_size : ℕ
block_size = 1024

abbrev pub data_blocks : ℕ
data_blocks = 1024

abbrev pub inode_table_size : ℕ
inode_table_size = 50

abbrev pub max_open_files : ℕ
max_open_files = 20

abbrev pub max_file_name : ℕ
max_file_name = 40

-- The bytes of `fs_data`.
abbrev pub fs_data_size : ℕ
fs_data_size = 1048576

-- The size of `dir_entry_t`: `d_name`, and `d_inumber` behind it.
abbrev pub dir_entry_size : ℕ
dir_entry_size = 44

-- `BLOCK_SIZE / sizeof(dir_entry_t)`
abbrev pub max_dir_entries : ℕ
max_dir_entries = 23

pub data InodeType : Type 0 where
  t_file t_directory : InodeType

pub data AllocationState : Type 0 where
  free taken : AllocationState

pub record Inode : Type 0 where
  pub i_node_type : InodeType
  pub i_size : ℕ
  pub i_data_block : ℤ

pub record OpenFileEntry : Type 0 where
  pub of_inumber : ℤ
  pub of_offset : ℕ

pub record State : Type 0 where
  pub inode_table : ℕ → Inode
  pub freeinode_ts : ℕ → AllocationState
  pub fs_data : Memory
  pub free_blocks : ℕ → AllocationState
  pub open_file_table : ℕ → OpenFileEntry
  pub free_open_file_entries : ℕ → AllocationState
  pub open_files_count : ℤ
  pub open_flag : Bool

abbrev pub is_taken : AllocationState → Bool
is_taken free = Bool.false
is_taken taken = Bool.true
