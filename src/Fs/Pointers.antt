-- ===== src/Fs/Pointers.antt =====
-- When the functions of parte-2/fs/state.c that return a pointer return none that is NULL.
use tecnicofs.Base.{ℕ, ◌<◌, ◌≡◌, true, some, arith, ℤ, pos, negsuc, pos_part, ◌*◌}
use tecnicofs.Fs.State.{max_open_files, block_size, inode_table_size}
use tecnicofs.Fs.Blocks.{valid_inumber, valid_block_number, data_block_get}
use tecnicofs.Fs.Inodes.{inode_get}
use tecnicofs.Fs.OpenFiles.{get_open_file_entry}

pub get_open_file_entry-lt : (h : ℕ) → h < max_open_files → get_open_file_entry (pos h) ≡ some h
unfolding get_open_file_entry
get_open_file_entry-lt h lt = ground arith

pub inode_get-valid : (z : ℤ) → valid_inumber z ≡ true → inode_get z ≡ some (pos_part z)
unfolding inode_get
inode_get-valid z ok = rw ok

pub valid_inumber-lt : (z : ℤ) → valid_inumber z ≡ true → pos_part z < inode_table_size
valid_inumber-lt (pos n) ok = ground arith
valid_inumber-lt (negsuc n) ok = cc

-- A valid number is not negative.
pub valid_inumber-pos : (z : ℤ) → valid_inumber z ≡ true → z ≡ pos (pos_part z)
valid_inumber-pos (pos n) ok = ground arith
valid_inumber-pos (negsuc n) ok = cc

pub data_block_get-valid :
    (z : ℤ) → valid_block_number z ≡ true → data_block_get z ≡ some (pos_part z * block_size)
unfolding data_block_get
data_block_get-valid z ok = rw ok
