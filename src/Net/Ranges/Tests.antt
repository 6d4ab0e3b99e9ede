-- ===== src/Net/Ranges/Tests.antt =====
-- A file is made, written and read back through the server of parte-2.
use tecnicofs.Base.{ℕ, ◌≡◌, refl, arith, none, some, Option, List, [], ◌∷◌, ℤ, pos}
use tecnicofs.Fs.State.{State}
use tecnicofs.Fs.Inodes.{boot}
use tecnicofs.Fs.Init.{initial}
use tecnicofs.Fs.Operations.Api.{Locking, tfs_open, tfs_write}
use tecnicofs.Net.Client.{reads}
use tecnicofs.Net.Answers.{client_result}
use tecnicofs.Net.Remote.{expected, local_result}
use tecnicofs.Net.Requests.{served}
use tecnicofs.Net.Ranges.{remote_call-local_result}
use tecnicofs.Fs.Operations.Api.{tfs_read}
use tecnicofs.Fs.Operations.{
  open_unsynchronized, lookup_unsynchronized, open_existing, open_new, truncate,
  write_unsynchronized, write_entry, ensure_block, advance, read_unsynchronized, read_entry,
  tfs_init,
}
use tecnicofs.Fs.Inodes.{
  inode_create, init_inode, inode_delete, inode_get, state_init, clear_entries,
}
use tecnicofs.Fs.Blocks.{first_free, data_block_alloc, data_block_free, data_block_get}
use tecnicofs.Fs.Dir.{
  find_in_dir, find_from, entry_matches, add_dir_entry, add_entry_from, fill_entry,
}
use tecnicofs.Fs.OpenFiles.{add_to_open_file_table, get_open_file_entry}
use tecnicofs.Memory.{
  write_bytes, read_bytes, memcpy, strncpy, strncmp_eq, byte_of, load_int, store_int,
}

abbrev locks : Locking
locks = record { lock = 0; unlock = 0 }

abbrev path_b : List ℕ
path_b = b'/' ∷ b'b' ∷ []

abbrev state_after : State → Option (ℤ × State) → State
state_after s none = s
state_after s (some x) = x.1

abbrev read_after : State → Option (ℤ × List ℕ × State) → State
read_after s none = s
read_after s (some x) = x.2

abbrev made : State
made = state_after boot (tfs_open locks (some path_b) (pos 1) (initial boot))

abbrev stored : State
stored = state_after made (tfs_write locks (pos 0) (7 ∷ 8 ∷ 9 ∷ []) 3 made)

abbrev reopened : State
reopened = state_after stored (tfs_open locks (some path_b) (pos 0) stored)

abbrev read_state : State
read_state = read_after reopened (local_result locks (reads (pos 1) 2) reopened)

reads_two : local_result locks (reads (pos 1) 2) reopened ≡ some (pos 2, 7 ∷ 8 ∷ [], read_state)
unfolding tfs_open tfs_write tfs_read open_unsynchronized lookup_unsynchronized open_existing
    open_new truncate write_unsynchronized write_entry ensure_block advance read_unsynchronized
    read_entry initial tfs_init inode_create init_inode inode_delete inode_get state_init
    clear_entries first_free data_block_alloc data_block_free data_block_get find_in_dir find_from
    entry_matches add_dir_entry add_entry_from fill_entry add_to_open_file_table get_open_file_entry
    write_bytes read_bytes memcpy strncpy strncmp_eq byte_of load_int store_int
reads_two = refl

remote_call-local_result_example :
    (answer : List ℕ) × (served locks (reads (pos 1) 2) reopened ≡ some (answer, read_state))
    × (client_result (reads (pos 1) 2) answer ≡ expected (reads (pos 1) 2) (pos 2) (7 ∷ 8 ∷ []))
remote_call-local_result_example =
    remote_call-local_result locks (reads (pos 1) 2) reopened read_state (pos 2) (7 ∷ 8 ∷ [])
      (omega arith, omega arith) reads_two refl
