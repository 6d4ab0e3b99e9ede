-- ===== src/Fs/Operations.antt =====
-- parte-2/fs/operations.c. The `_tfs_*_unsynchronized` functions run under one global lock, so
-- each is one step. `none` is undefined behaviour: a memcpy that leaves `fs_data` or the caller's
-- buffer, or arithmetic on a null name.
pub mod Api
use tecnicofs.Base.{
  ℕ, zero, suc, ◌+◌, ◌-◌, ◌*◌, ◌/◌, ◌%◌, Bool, true, false, not, ◌&&◌, ◌||◌, Option, none, some,
  List, [], ◌∷◌, length, ltb, leb, ◌==◌, if◌then◌else◌, update, ℤ, pos, negsuc, minus_one,
  is_minus_one, is_zero, is_nonneg, pos_part, signed64, unsigned32,
}
use tecnicofs.Memory.{Memory, memcpy, read_bytes}
use tecnicofs.Fs.State.{State, Inode, t_file, t_directory, root_dir_inum, block_size, fs_data_size}
use tecnicofs.Fs.Blocks.{data_block_alloc, data_block_free, data_block_get}
use tecnicofs.Fs.Inodes.{set_inode, inode_create, inode_delete, inode_get, state_init}
use tecnicofs.Fs.Dir.{find_in_dir, add_dir_entry}
use tecnicofs.Fs.OpenFiles.{add_to_open_file_table, get_open_file_entry}

-- The values of a `size_t`.
abbrev pub size_mod : ℕ
size_mod = 0x10000000000000000

-- `flags & bit`, for the bits of `TFS_O_CREAT`, `TFS_O_TRUNC` and `TFS_O_APPEND`.
abbrev pub has_flag : ℤ → ℕ → Bool
has_flag flags bit = unsigned32 flags / bit % 2 == 1

abbrev pub tfs_o_creat : ℕ
tfs_o_creat = 1

abbrev pub tfs_o_trunc : ℕ
tfs_o_trunc = 2

abbrev pub tfs_o_append : ℕ
tfs_o_append = 4

-- A `char const *name`: `none` for NULL.
abbrev pub Name : Type 0
Name = Option (List ℕ)

abbrev pub valid_pathname : Name → Bool
valid_pathname none = false
valid_pathname (some []) = false
valid_pathname (some (c ∷ s)) = ltb 1 (length (c ∷ s)) && c == b'/'

-- `name + 1`: `none` where that leaves the string.
abbrev pub skip_first : Name → Option (List ℕ)
skip_first none = none
skip_first (some []) = none
skip_first (some (c ∷ s)) = some s

-- `mutex` is the result of pthread_mutex_init.
unfoldable pub tfs_init : ℕ → State → ℤ × State
tfs_init mutex s =
    let (root, s') = inode_create t_directory (state_init s) in
    if not (mutex == 0)
    then (minus_one, state_init s)
    else if is_zero root
    then (pos 0, s')
    else (minus_one, s')

unfoldable pub lookup_unsynchronized : Name → State → ℤ
lookup_unsynchronized name s =
    if valid_pathname name
    then elim (skip_first name) [
      | none ↦ minus_one
      | some rest ↦ find_in_dir (pos root_dir_inum) rest s
    ]
    else minus_one

-- The truncation in the branch of an existing file, with its result: false if the block could not be freed.
unfoldable pub truncate : ℕ → ℤ → State → Bool × State
truncate i flags s =
    let inode = s.inode_table i in
    let (r, s') = data_block_free inode.i_data_block s in
    if has_flag flags tfs_o_trunc && ltb 0 inode.i_size
    then if is_minus_one r
      then (false, s')
      else (true, set_inode s' i (record (s'.inode_table i) { i_size = 0 }))
    else (true, s)

unfoldable pub open_existing : ℤ → ℤ → State → ℤ × State
open_existing inum flags s = elim (inode_get inum) [
  | none ↦ (minus_one, s)
  | some i ↦
      let (truncated, s') = truncate i flags s in
      let offset = if has_flag flags tfs_o_append then (s'.inode_table i).i_size else 0 in
      if truncated then add_to_open_file_table inum offset s' else (minus_one, s')
]

unfoldable pub open_new : Name → State → Option (ℤ × State)
open_new name s =
    let (inum, s') = inode_create t_file s in
    if is_minus_one inum then some (minus_one, s') else elim (skip_first name) [
      | none ↦ none
      | some rest ↦
          let (added, s'') = add_dir_entry (pos root_dir_inum) inum rest s' in
          some (
            if is_minus_one added
            then (minus_one, (inode_delete inum s'').1)
            else add_to_open_file_table inum 0 s'')
    ]

unfoldable pub open_unsynchronized : Name → ℤ → State → Option (ℤ × State)
open_unsynchronized name flags s =
    let inum = lookup_unsynchronized name s in
    if is_nonneg inum
    then some (open_existing inum flags s)
    else if has_flag flags tfs_o_creat
    then open_new name s
    else some (minus_one, s)

-- How many bytes a write takes, in the arithmetic of `size_t`.
abbrev pub write_size : ℕ → ℕ → ℕ
write_size to_write offset =
    if ltb block_size ((to_write + offset) % size_mod)
    then (block_size + size_mod - offset) % size_mod
    else to_write

-- The block of an empty file is allocated before the write.
unfoldable pub ensure_block : ℕ → State → State
ensure_block i s =
    let (b, s') = data_block_alloc s in
    if (s.inode_table i).i_size == 0
    then set_inode s' i (record (s'.inode_table i) { i_data_block = b })
    else s

-- Behind the memcpy: the offset of the entry `h`, and the size of the i-node `i`.
unfoldable pub advance : ℕ → ℕ → ℕ → State → State
advance h i n s =
    let file = s.open_file_table h in
    let inode = s.inode_table i in
    let offset = (file.of_offset + n) % size_mod in
    record s {
      open_file_table = update s.open_file_table h (record file { of_offset = offset });
      inode_table =
          update s.inode_table i
            (record inode { i_size = if ltb inode.i_size offset then offset else inode.i_size });
    }

unfoldable pub write_entry : ℕ → ℕ → List ℕ → ℕ → State → Option (ℤ × State)
write_entry h i buffer n s =
    let s' = ensure_block i s in
    if n == 0 then some (pos 0, s) else elim (data_block_get (s'.inode_table i).i_data_block) [
      | none ↦ some (minus_one, s')
      | some block ↦
          let address = block + (s.open_file_table h).of_offset in
          if leb (address + n) fs_data_size && leb n (length buffer)
          then some (
            signed64 n,
            advance h i n (record s' { fs_data = memcpy s'.fs_data address buffer n }),
          )
          else none
    ]

unfoldable pub write_unsynchronized : ℤ → List ℕ → ℕ → State → Option (ℤ × State)
write_unsynchronized fhandle buffer to_write s = elim (get_open_file_entry fhandle) [
  | none ↦ some (minus_one, s)
  | some h ↦
      let file = s.open_file_table h in
      elim (inode_get file.of_inumber) [
        | none ↦ some (minus_one, s)
        | some i ↦ write_entry h i buffer (write_size to_write file.of_offset) s
      ]
]

-- How many bytes a read gives, in the arithmetic of `size_t`.
abbrev pub read_size : ℕ → ℕ → ℕ → ℕ
read_size size offset len =
    let to_read = (size + size_mod - offset) % size_mod in if ltb len to_read then len else to_read

abbrev pub set_offset : State → ℕ → ℕ → State
set_offset s h offset = record s {
  open_file_table =
      update s.open_file_table h (record (s.open_file_table h) { of_offset = offset });
}

-- The result, the bytes put into the caller's buffer, and the new state.
unfoldable pub read_entry : ℕ → ℕ → ℕ → State → Option (ℤ × List ℕ × State)
read_entry h i n s =
    let offset = (s.open_file_table h).of_offset in
    if n == 0 then some (pos 0, [], s) else elim (data_block_get (s.inode_table i).i_data_block) [
      | none ↦ some (minus_one, [], s)
      | some block ↦
          if leb (block + offset + n) fs_data_size
          then some (
            signed64 n,
            read_bytes s.fs_data (block + offset) n,
            set_offset s h ((offset + n) % size_mod),
          )
          else none
    ]

unfoldable pub read_unsynchronized : ℤ → ℕ → State → Option (ℤ × List ℕ × State)
read_unsynchronized fhandle len s = elim (get_open_file_entry fhandle) [
  | none ↦ some (minus_one, [], s)
  | some h ↦
      let file = s.open_file_table h in
      elim (inode_get file.of_inumber) [
        | none ↦ some (minus_one, [], s)
        | some i ↦ read_entry h i (read_size (s.inode_table i).i_size file.of_offset len) s
      ]
]
