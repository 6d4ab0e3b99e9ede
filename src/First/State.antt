-- ===== src/First/State.antt =====
-- parte-1/fs/config.h and state.h, the static tables of parte-1/fs/state.c as one record, and its
-- locks. The constants and the small types are those of parte-2.
use tecnicofs.Base.{ℕ, Bool, true, false, if◌then◌else◌, update, ℤ}
use tecnicofs.Memory.{Memory}
use tecnicofs.Fs.State.{InodeType, AllocationState, OpenFileEntry}

abbrev pub max_direct_blocks : ℕ
max_direct_blocks = 10

-- `i_data_block` is a function from the index, which is below `max_direct_blocks`.
pub record Inode : Type 0 where
  pub i_node_type : InodeType
  pub i_size : ℕ
  pub i_data_block : ℕ → ℤ
  pub i_indirect_data_block : ℤ

-- A lock is true while it is held. The locks of blocks and of directory entries are given back in
-- the function that takes them, and so are the locks of the counters.
pub record State : Type 0 where
  pub inode_table : ℕ → Inode
  pub freeinode_ts : ℕ → AllocationState
  pub inode_table_locks : ℕ → Bool
  pub fs_data : Memory
  pub free_blocks : ℕ → AllocationState
  pub open_file_table : ℕ → OpenFileEntry
  pub free_open_file_entries : ℕ → AllocationState
  pub open_file_table_locks : ℕ → Bool
  pub open_files_count : ℤ
  pub open_file_lock : Bool

-- How a call ends: it waits for ever for a lock that is held, or the process ends there; it leaves a
-- table, the memory or a buffer; its loop needs more rounds than the fuel; or it gives a value.
pub data Outcome {ℓ} (A : Type ℓ) : Type ℓ where
  stuck undefined running : Outcome A
  done : A → Outcome A

infixl 5 ◌>>=◌
abbrev pub ◌>>=◌ {ℓ κ} : {A : Type ℓ} {B : Type κ} → Outcome A → (A → Outcome B) → Outcome B
stuck >>= f = stuck
undefined >>= f = undefined
running >>= f = running
done a >>= f = f a

-- write_lock_rwlock and unlock_rwlock on the lock of a node, and on that of an open file.
unfoldable pub lock_inode : ℕ → State → Outcome State
lock_inode i s =
    if s.inode_table_locks i
    then stuck
    else done (record s { inode_table_locks = update s.inode_table_locks i true })

abbrev pub unlock_inode : ℕ → State → State
unlock_inode i s = record s { inode_table_locks = update s.inode_table_locks i false }

unfoldable pub lock_file : ℕ → State → Outcome State
lock_file h s =
    if s.open_file_table_locks h
    then stuck
    else done (record s { open_file_table_locks = update s.open_file_table_locks h true })

abbrev pub unlock_file : ℕ → State → State
unlock_file h s = record s { open_file_table_locks = update s.open_file_table_locks h false }

-- lock_mutex and unlock_mutex on `open_file_lock`.
unfoldable pub lock_open : State → Outcome State
lock_open s = if s.open_file_lock then stuck else done (record s { open_file_lock = true })

abbrev pub unlock_open : State → State
unlock_open s = record s { open_file_lock = false }

abbrev pub set_inode : ℕ → Inode → State → State
set_inode i inode s = record s { inode_table = update s.inode_table i inode }

abbrev pub with_data : State → Memory → State
with_data s m = record s { fs_data = m }
