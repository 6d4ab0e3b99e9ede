-- ===== src/Fs/Invariant.antt =====
-- The well-formedness of the tables of parte-2/fs, for a state that a client has used by the rules:
-- only handles that are open, and no truncation of a file that another handle has moved into.
pub mod Steps
use tecnicofs.Base.{
  ℕ, ◌+◌, ◌*◌, ◌≤◌, ◌<◌, ◌≡◌, ◌⊎◌, ap, ◌∙◌, arith, true, ℤ, pos, minus_one, pos_part, count_below,
}
use tecnicofs.Memory.{load_int}
use tecnicofs.Fs.State.{
  State, t_directory, taken, is_taken, block_size, max_open_files, max_dir_entries,
}
use tecnicofs.Fs.Blocks.{valid_inumber, valid_block_number}
use tecnicofs.Fs.Inodes.{d_inumber_at}

abbrev pub InUse : State → ℕ → Type 0
InUse s i = s.freeinode_ts i ≡ taken

abbrev pub size_of : State → ℕ → ℕ
size_of s i = (s.inode_table i).i_size

abbrev pub block_of : State → ℕ → ℕ
block_of s i = pos_part (s.inode_table i).i_data_block

-- The address of the first byte of the block of an i-node.
abbrev pub block_at : State → ℕ → ℕ
block_at s i = block_of s i * block_size

-- The number of a file that is in use: the root directory is none.
abbrev pub IsFile : State → ℤ → Type 0
IsFile s z = (valid_inumber z ≡ true) × (0 < pos_part z) × InUse s (pos_part z)

abbrev pub inumber_of : State → ℕ → ℤ
inumber_of s h = (s.open_file_table h).of_inumber

abbrev pub offset_of : State → ℕ → ℕ
offset_of s h = (s.open_file_table h).of_offset

-- The entry names a file, and its offset is within the file.
abbrev pub IsOpen : State → ℕ → Type 0
IsOpen s h = IsFile s (inumber_of s h) × (offset_of s h ≤ size_of s (pos_part (inumber_of s h)))

-- The number in the entry `k` of the root directory.
abbrev pub root_entry : State → ℕ → ℤ
root_entry s k = load_int s.fs_data (d_inumber_at (block_at s 0) k)

-- No other i-node in use holds data in the block of `i`.
abbrev pub Alone : State → ℕ → Type 0
Alone s i = (j : ℕ) → InUse s j → 0 < size_of s j → block_of s j ≡ block_of s i → j ≡ i

-- The i-node has a block of its own, and it is taken.
abbrev pub OwnsBlock : State → ℕ → Type 0
OwnsBlock s i =
    (valid_block_number (s.inode_table i).i_data_block ≡ true)
    × (s.free_blocks (block_of s i) ≡ taken)
    × Alone s i

pub record IsValid (s : State) : Type 0 where
  pub root_in_use : InUse s 0
  pub root_type : (s.inode_table 0).i_node_type ≡ t_directory
  pub root_size : size_of s 0 ≡ block_size
  pub fits : (i : ℕ) → InUse s i → size_of s i ≤ block_size
  pub owns : (i : ℕ) → InUse s i → 0 < size_of s i → OwnsBlock s i
  pub opened : (h : ℕ) → h < max_open_files → s.free_open_file_entries h ≡ taken → IsOpen s h
  pub counted :
      s.open_files_count ≡ pos (count_below is_taken max_open_files s.free_open_file_entries)
  pub entries :
      (k : ℕ) → k < max_dir_entries → (root_entry s k ≡ minus_one) ⊎ IsFile s (root_entry s k)

module _ {s : State} (v : IsValid s) where
  pub block-valid :
      (i : ℕ)
      → InUse s i
      → 0 < size_of s i
      → valid_block_number (s.inode_table i).i_data_block ≡ true
  block-valid i u d = (v.owns i u d).0

  pub block-taken : (i : ℕ) → InUse s i → 0 < size_of s i → s.free_blocks (block_of s i) ≡ taken
  block-taken i u d = (v.owns i u d).1

  pub block-alone :
      (i j : ℕ)
      → InUse s i
      → 0 < size_of s i
      → InUse s j
      → 0 < size_of s j
      → block_of s j ≡ block_of s i
      → j ≡ i
  block-alone i j u d = (v.owns i u d).2 j

  pub root-owns : OwnsBlock s 0
  root-owns = v.owns 0 v.root_in_use (omega (arith, v.root_size))

-- The entry of the root directory in a later state, by the address of the block.
pub root_entry-cong :
    (s t : State) (k : ℕ)
    → block_of t 0 ≡ block_of s 0
    → load_int t.fs_data (d_inumber_at (block_at s 0) k) ≡ root_entry s k
    → root_entry t k ≡ root_entry s k
root_entry-cong s t k p q = ap (λ b. load_int t.fs_data (d_inumber_at (b * block_size) k)) p ∙ q

-- The entries of the root directory stay in order where they and the i-nodes in use do.
pub entries-transfer :
    (s t : State)
    → IsValid s
    → ((k : ℕ) → k < max_dir_entries → root_entry t k ≡ root_entry s k)
    → ((i : ℕ) → InUse s i → InUse t i)
    → (k : ℕ) → k < max_dir_entries
    → (root_entry t k ≡ minus_one) ⊎ IsFile t (root_entry t k)
entries-transfer s t v same grows k h =
    ground (arith, v.entries k h, same k h, grows (pos_part (root_entry s k)))
