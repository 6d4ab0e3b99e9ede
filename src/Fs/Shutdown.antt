-- ===== src/Fs/Shutdown.antt =====
-- tfs_destroy_after_all_closed of parte-2/fs/operations.c, and the locks of the calls around it.
use tecnicofs.Base.{◌≡◌, arith, some, none, false, ℤ, pos, minus_one, is_zero}
use tecnicofs.Fs.State.{State}
use tecnicofs.Fs.Blocks.{first_free, data_block_alloc, data_block_get}
use tecnicofs.Fs.Inodes.{state_init, inode_create, init_inode}
use tecnicofs.Fs.OpenFiles.{remove_from_open_file_table}
use tecnicofs.Fs.Operations.{Name, tfs_init}
use tecnicofs.Fs.Operations.Api.{Locking, tfs_open, tfs_destroy_after_all_closed}
use tecnicofs.Fs.Invariant.{IsValid}
use tecnicofs.Fs.Handles.{open_count}
use tecnicofs.Fs.Init.{initial}

module _ {s : State} (v : IsValid s) where
  pub stops :
      open_count s ≡ 0
      → tfs_destroy_after_all_closed s ≡ some (pos 0, record s { open_flag = false })
  unfolding tfs_destroy_after_all_closed
  stops e = rw (v.counted, e)

-- Once the file system was shut down, no call of tfs_open gets through.
pub tfs_open-closed :
    (l : Locking) (name : Name) (flags : ℤ) (s : State)
    → s.open_flag ≡ false
    → tfs_open l name flags s ≡ some (minus_one, s)
unfolding tfs_open
tfs_open-closed l name flags s e = rw e

-- A second tfs_init frees every handle but keeps the count of open files. If it was not 0, closing
-- fails for every handle, and tfs_destroy_after_all_closed waits.
pub restart_waits :
    (s : State)
    → is_zero s.open_files_count ≡ false
    → ((z : ℤ) → remove_from_open_file_table z (initial s) ≡ (minus_one, initial s))
      × (tfs_destroy_after_all_closed (initial s) ≡ none)
unfolding initial tfs_init inode_create init_inode state_init data_block_alloc data_block_get
    first_free tfs_destroy_after_all_closed remove_from_open_file_table
restart_waits s e = (λ z. ground arith, rw e)
