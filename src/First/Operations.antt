-- ===== src/First/Operations.antt =====
-- parte-1/fs/operations.c: the start, lookup, opening and closing.
pub mod Transfer
pub mod Write
pub mod Read
pub mod Copy
use tecnicofs.Base.{
  ℕ, zero, suc, ◌+◌, ◌/◌, ◌%◌, Bool, true, false, not, ◌&&◌, Option, none, some, List, ltb, leb,
  ◌==◌, if◌then◌else◌, update, ℤ, pos, minus_one, is_minus_one, is_zero, is_nonneg, pos_part,
}
use tecnicofs.Fs.State.{t_file, t_directory, block_size, root_dir_inum}
use tecnicofs.Fs.Operations.{
  Name, valid_pathname, skip_first, has_flag, tfs_o_creat, tfs_o_trunc, tfs_o_append,
}
use tecnicofs.First.State.{
  State, Outcome, stuck, undefined, running, done, ◌>>=◌, set_inode, lock_inode, unlock_inode,
  lock_open, unlock_open, max_direct_blocks,
}
use tecnicofs.First.Blocks.{data_block_free}
use tecnicofs.First.Inodes.{state_init, inode_create, inode_delete, inode_get}
use tecnicofs.First.Dir.{add_dir_entry, find_in_dir}
use tecnicofs.First.OpenFiles.{add_to_open_file_table, remove_from_open_file_table}

unfoldable pub tfs_init : State → Outcome (ℤ × State)
tfs_init s = do
  (root, s') ← inode_create t_directory (state_init s)
  done (if is_zero root then pos 0 else minus_one, s')

unfoldable pub tfs_lookup : Name → State → Outcome ℤ
tfs_lookup name s =
    if valid_pathname name
    then elim (skip_first name) [
      | none ↦ done minus_one
      | some rest ↦ find_in_dir (pos root_dir_inum) rest s
    ]
    else done minus_one

-- The loop that frees the `n` direct blocks of the node `i` from the index `k` on; false if one
-- cannot be freed.
unfoldable pub free_blocks_from : ℕ → ℕ → ℕ → State → Outcome (Bool × State)
free_blocks_from zero k i s = done (true, s)
free_blocks_from (suc n) k i s = do
  (r, s') ← data_block_free ((s.inode_table i).i_data_block k) s
  let inode = s'.inode_table i
  let cleared = record inode { i_data_block = update inode.i_data_block k minus_one }
  elim (is_minus_one r) [
    | true ↦ done (false, s')
    | false ↦ free_blocks_from n (k + 1) i (set_inode i cleared s')
  ]

-- How many blocks the truncation takes a file of `size` bytes to have.
abbrev pub truncated_blocks : ℕ → ℕ
truncated_blocks size =
    let written = size / block_size in
    if not (written % block_size == 0) then written + 1 else written

-- The number of direct blocks among them.
abbrev pub loop_limit : ℕ → ℕ
loop_limit written = if leb written 10 then written else 10

-- The block of the references is freed, and forgotten; false if it cannot be freed.
unfoldable pub free_indirect : ℕ → State → Outcome (Bool × State)
free_indirect i s = do
  (r, s') ← data_block_free (s.inode_table i).i_indirect_data_block s
  done (
      if is_minus_one r
      then (false, s')
      else (true, set_inode i (record (s'.inode_table i) { i_indirect_data_block = minus_one }) s'))

-- The block of the references is freed only behind ten direct blocks.
abbrev free_references : Bool → ℕ → ℕ → State → Outcome (Bool × State)
free_references freed written i s =
    if not freed
    then done (false, s)
    else if leb max_direct_blocks written
    then free_indirect i s
    else done (true, s)

-- The truncation of a file that is not empty.
unfoldable pub truncate_blocks : ℕ → State → Outcome (Bool × State)
truncate_blocks i s = do
  let written = truncated_blocks (s.inode_table i).i_size
  (freed, s1) ← free_blocks_from (loop_limit written) 0 i s
  (all_freed, s2) ← free_references freed written i s1
  done (
      if all_freed
      then (true, set_inode i (record (s2.inode_table i) { i_size = 0 }) s2)
      else (false, s2))

unfoldable pub truncate : ℕ → ℤ → State → Outcome (Bool × State)
truncate i flags s =
    if has_flag flags tfs_o_trunc && ltb 0 (s.inode_table i).i_size
    then truncate_blocks i s
    else done (true, s)

-- Behind the truncation both locks are given back, and the handle is added.
unfoldable pub open_truncated : ℤ → ℕ → ℤ → Bool × State → Outcome (ℤ × State)
open_truncated inum i flags (truncated, s) =
    let offset = if has_flag flags tfs_o_append then (s.inode_table i).i_size else 0 in
    let s' = unlock_inode i (unlock_open s) in
    if truncated then add_to_open_file_table inum offset s' else done (minus_one, s')

-- With the locks on opening and on the node held.
unfoldable pub open_node : ℤ → ℤ → State → Outcome (ℤ × State)
open_node inum flags s = elim (inode_get inum) [
  | none ↦ done (minus_one, unlock_inode (pos_part inum) (unlock_open s))
  | some i ↦ truncate i flags s >>= open_truncated inum i flags
]

-- The branch of tfs_open for a file that exists, with the lock on opening held.
unfoldable pub open_existing : ℤ → ℤ → State → Outcome (ℤ × State)
open_existing inum flags s = lock_inode (pos_part inum) s >>= open_node inum flags

-- The branch for a file that is made.
unfoldable pub open_new : List ℕ → State → Outcome (ℤ × State)
open_new rest s = do
  (inum, s1) ← inode_create t_file s
  let i = pos_part inum
  elim (is_minus_one inum) [
    | true ↦ done (minus_one, unlock_open s1)
    | false ↦ do
      s2 ← lock_inode i s1
      (added, s3) ← add_dir_entry (pos root_dir_inum) inum rest s2
      elim (is_minus_one added) [
        | true ↦ do
          (deleted, s4) ← inode_delete inum s3
          done (minus_one, unlock_inode i (unlock_open s4))
        | false ↦ add_to_open_file_table inum 0 (unlock_inode i (unlock_open s3))
      ]
  ]

-- Behind the lookup, with the lock on opening held.
unfoldable pub open_found : List ℕ → ℤ → State → ℤ → Outcome (ℤ × State)
open_found rest flags s inum = elim (is_nonneg inum) [
  | true ↦ open_existing inum flags s
  | false ↦ if has_flag flags tfs_o_creat then open_new rest s else done (minus_one, unlock_open s)
]

unfoldable pub tfs_open : Name → ℤ → State → Outcome (ℤ × State)
tfs_open name flags s =
    if not (valid_pathname name) then done (minus_one, s) else elim (skip_first name) [
      | none ↦ done (minus_one, s)
      | some rest ↦ lock_open s >>= λ s1. tfs_lookup name s1 >>= open_found rest flags s1
    ]

unfoldable pub tfs_close : ℤ → State → Outcome (ℤ × State)
tfs_close fhandle s = remove_from_open_file_table fhandle s

-- The locks are destroyed; no call may follow.
unfoldable pub tfs_destroy : State → ℤ × State
tfs_destroy s = (pos 0, s)

-- It waits until no file is open.
unfoldable pub tfs_destroy_after_all_closed : State → Outcome (ℤ × State)
tfs_destroy_after_all_closed s = if is_zero s.open_files_count then done (pos 0, s) else stuck
