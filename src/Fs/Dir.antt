-- ===== src/Fs/Dir.antt =====
-- parte-2/fs/state.c: the entries of a directory, in the bytes of its block.
pub mod Entries
pub mod Lookup
use tecnicofs.Base.{
  ℕ, zero, suc, ◌+◌, ◌-◌, ◌*◌, Bool, true, false, not, ◌&&◌, ◌||◌, Option, none, some, List, [],
  ◌∷◌, length, ltb, ◌==◌, if◌then◌else◌, ℤ, pos, negsuc, minus_one, is_minus_one, pos_part,
}
use tecnicofs.Memory.{Memory, write_bytes, strncpy, strncmp_eq, load_int, store_int}
use tecnicofs.Fs.State.{
  State, InodeType, t_file, t_directory, dir_entry_size, max_dir_entries, max_file_name,
}
use tecnicofs.Fs.Blocks.{valid_inumber, data_block_get}
use tecnicofs.Fs.Inodes.{d_inumber_at}

abbrev pub is_directory : InodeType → Bool
is_directory t_file = false
is_directory t_directory = true

-- The address of `dir_entry[i].d_name`.
abbrev pub d_name_at : ℕ → ℕ → ℕ
d_name_at dir i = dir + i * dir_entry_size

-- The three writes that fill the entry `i`.
unfoldable pub fill_entry : Memory → ℕ → ℕ → ℤ → List ℕ → Memory
fill_entry m dir i sub_inumber sub_name =
    let numbered = store_int m (d_inumber_at dir i) sub_inumber in
    let named = strncpy numbered (d_name_at dir i) sub_name (max_file_name - 1) in
    write_bytes named (d_name_at dir i + (max_file_name - 1)) 1 (λ _. 0)

-- The loop of `add_dir_entry` over the `n` entries from `i` on; `none` if none is empty.
unfoldable pub add_entry_from : ℕ → ℕ → ℕ → ℤ → List ℕ → Memory → Option Memory
add_entry_from zero i dir sub_inumber sub_name m = none
add_entry_from (suc n) i dir sub_inumber sub_name m =
    elim (is_minus_one (load_int m (d_inumber_at dir i))) [
      | true ↦ some (fill_entry m dir i sub_inumber sub_name)
      | false ↦ add_entry_from n (i + 1) dir sub_inumber sub_name m
    ]

unfoldable pub add_dir_entry : ℤ → ℤ → List ℕ → State → ℤ × State
add_dir_entry inumber sub_inumber sub_name s =
    let inode = s.inode_table (pos_part inumber) in
    if not (valid_inumber inumber) || not (valid_inumber sub_inumber)
    then (minus_one, s)
    else if not (is_directory inode.i_node_type)
    then (minus_one, s)
    else if length sub_name == 0
    then (minus_one, s)
    else elim (data_block_get inode.i_data_block) [
      | none ↦ (minus_one, s)
      | some dir ↦ elim (add_entry_from max_dir_entries 0 dir sub_inumber sub_name s.fs_data) [
        | none ↦ (minus_one, s)
        | some m ↦ (pos 0, record s { fs_data = m })
      ]
    ]

-- The test of the loop of `find_in_dir` at the entry `i`.
unfoldable pub entry_matches : Memory → ℕ → ℕ → List ℕ → Bool
entry_matches m dir i sub_name =
    not (is_minus_one (load_int m (d_inumber_at dir i)))
    && strncmp_eq m (d_name_at dir i) sub_name max_file_name

-- The loop of `find_in_dir` over the `n` entries from `i` on.
unfoldable pub find_from : ℕ → ℕ → ℕ → List ℕ → Memory → ℤ
find_from zero i dir sub_name m = minus_one
find_from (suc n) i dir sub_name m = elim (entry_matches m dir i sub_name) [
  | true ↦ load_int m (d_inumber_at dir i)
  | false ↦ find_from n (i + 1) dir sub_name m
]

unfoldable pub find_in_dir : ℤ → List ℕ → State → ℤ
find_in_dir inumber sub_name s =
    let inode = s.inode_table (pos_part inumber) in
    if not (valid_inumber inumber) || not (is_directory inode.i_node_type)
    then minus_one
    else elim (data_block_get inode.i_data_block) [
      | none ↦ minus_one
      | some dir ↦ find_from max_dir_entries 0 dir sub_name s.fs_data
    ]
