-- ===== src/First/Dir.antt =====
-- parte-1/fs/state.c: the entries of a directory. Their layout and the loops over them are those of
-- parte-2.
use tecnicofs.Base.{
  ℕ, not, ◌||◌, none, some, List, length, ◌==◌, if◌then◌else◌, ℤ, pos, minus_one, pos_part,
}
use tecnicofs.Fs.State.{max_dir_entries}
use tecnicofs.Fs.Blocks.{valid_inumber}
use tecnicofs.Fs.Dir.{is_directory, add_entry_from, find_from}
use tecnicofs.First.State.{State, Outcome, stuck, undefined, done, with_data}
use tecnicofs.First.Blocks.{data_block_get}

unfoldable pub add_dir_entry : ℤ → ℤ → List ℕ → State → Outcome (ℤ × State)
add_dir_entry inumber sub_inumber sub_name s =
    let inode = s.inode_table (pos_part inumber) in
    if not (valid_inumber inumber) || not (valid_inumber sub_inumber)
    then done (minus_one, s)
    else if s.inode_table_locks (pos_part inumber)
    then stuck
    else if not (is_directory inode.i_node_type)
    then done (minus_one, s)
    else if length sub_name == 0
    then done (minus_one, s)
    else elim (data_block_get (inode.i_data_block 0)) [
      | none ↦ done (minus_one, s)
      | some dir ↦ elim (add_entry_from max_dir_entries 0 dir sub_inumber sub_name s.fs_data) [
        | none ↦ done (minus_one, s)
        | some m ↦ done (pos 0, with_data s m)
      ]
    ]

-- The lock of the node is taken before the number is tested.
unfoldable pub find_in_dir : ℤ → List ℕ → State → Outcome ℤ
find_in_dir inumber sub_name s =
    let inode = s.inode_table (pos_part inumber) in
    if not (valid_inumber inumber)
    then undefined
    else if s.inode_table_locks (pos_part inumber)
    then stuck
    else if not (is_directory inode.i_node_type)
    then done minus_one
    else elim (data_block_get (inode.i_data_block 0)) [
      | none ↦ done minus_one
      | some dir ↦ done (find_from max_dir_entries 0 dir sub_name s.fs_data)
    ]
