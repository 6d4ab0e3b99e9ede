-- ===== src/First/Copies.antt =====
-- What tfs_copy_to_external_fs of parte-1/fs/operations.c does.
use tecnicofs.Base.{
  ℕ, zero, suc, ◌+◌, ◌-◌, ◌*◌, ◌<◌, ◌≡◌, ◌∙◌, ap, refl, arith, true, some, List, [], length, ℤ, pos,
  negsuc, increment, decrement, update,
}
use tecnicofs.Memory.{read_bytes}
use tecnicofs.Fs.State.{block_size, free, taken, max_open_files, inode_table_size, is_taken}
use tecnicofs.First.State.{State, done, ◌>>=◌}
use tecnicofs.First.Dir.{find_in_dir}
use tecnicofs.First.Inodes.{inode_get}
use tecnicofs.First.OpenFiles.{remove_from_open_file_table, get_open_file_entry}
use tecnicofs.First.Operations.{tfs_close}
use tecnicofs.Fs.Open.{path_of}
use tecnicofs.First.Operations.Read.{read_block, set_offset}
use tecnicofs.First.Operations.Copy.{
  Outside, close_source, close_finish, copy_handle, copy_opened, tfs_copy_to_external_fs,
}
use tecnicofs.First.Locked.{Ready, update_back}
use tecnicofs.First.Content.{size_of, inumber_of, file_bytes, content, Stored}
use tecnicofs.First.Opens.{Unlocked, opened_at, tfs_open-plain}
use tecnicofs.Fs.Blocks.{valid_file_handle}
use tecnicofs.First.Text.{text, HasBlocks, HasBlocks-Stored, read_bytes-text}
use tecnicofs.First.CopyLoop.{Works, copy_loop-copies}

-- The state behind the copy: only the free entry `h` of the open file table was used.
abbrev pub used_entry : State → ℕ → ℕ → State
used_entry s h i = record s {
  open_file_table =
      update s.open_file_table h (record { of_inumber = pos i; of_offset = size_of s i });
}

closed_entry_at :
    (s : State) (h i n x : ℕ)
    → (set_offset h n (opened_at s h (pos i) 0)).open_file_table x
      ≡ update s.open_file_table h (record { of_inumber = pos i; of_offset = n }) x
closed_entry_at s h i n x = ground arith

decrement-increment : (z : ℤ) → decrement (increment z) ≡ z
decrement-increment (pos zero) = refl
decrement-increment (pos (suc n)) =
    ap (λ k. decrement (pos k)) {x = suc n + 1} {y = suc (suc n)} (omega arith)
decrement-increment (negsuc zero) = refl
decrement-increment (negsuc (suc n)) = refl

-- Closing the handle gives the entry and the count back.
tfs_close-opened :
    (s : State) (h i : ℕ)
    → Unlocked s
    → h < max_open_files
    → s.free_open_file_entries h ≡ free
    → tfs_close (pos h) (set_offset h (size_of s i) (opened_at s h (pos i) 0))
      ≡ done (pos 0, used_entry s h i)
unfolding tfs_close remove_from_open_file_table
tfs_close-opened s h i u lt f =
    let valid : valid_file_handle (pos h) ≡ true = ground arith in
    let own : is_taken (update s.free_open_file_entries h taken h) ≡ true = ground arith in
    rw (valid, u.files h, own, remove_from_open_file_table)
      (λ j. done (
        pos 0,
        record s {
          open_file_table = λ x. closed_entry_at s h i (size_of s i) x j;
          open_files_count = decrement-increment s.open_files_count j;
          free_open_file_entries = update_back s.free_open_file_entries h taken free f j;
        },
      ))

Stored-opened : (s : State) (h i : ℕ) → Stored s i → Stored (opened_at s h (pos i) 0) i
unfolding read_block
Stored-opened s h i st = st

content-opened : (s : State) (h i : ℕ) → content (opened_at s h (pos i) 0) i ≡ content s i
unfolding read_block
content-opened s h i = refl

Ready-opened :
    (s : State) (h i : ℕ)
    → Unlocked s
    → i < inode_table_size
    → h < max_open_files
    → Ready (opened_at s h (pos i) 0) h i
Ready-opened s h i u node lt = record {
  handle = lt;
  number = ground arith;
  node = node;
  file_free = u.files h;
  node_free = u.nodes i;
}

-- The part behind tfs_open: all bytes of the file are copied, and the handle is closed.
copy_opened-copies :
    (s : State) (fuel : ℕ) (out : Outside) (h i : ℕ)
    → Works out
    → Unlocked s
    → i < inode_table_size
    → h < max_open_files
    → s.free_open_file_entries h ≡ free
    → Stored s i
    → size_of s i < 0x8000000000000000
    → size_of s i < fuel * block_size
    → copy_opened fuel out (pos h) (opened_at s h (pos i) 0)
      ≡ done (pos 0, content s i, used_entry s h i)
unfolding copy_opened close_source get_open_file_entry inode_get
copy_opened-copies s fuel out h i w u node lt f st small enough =
    let t : State = opened_at s h (pos i) 0 in
    let handle : get_open_file_entry (pos h) ≡ some h = ground arith in
    let number : inumber_of t h ≡ pos i = ground arith in
    let is_node : inode_get (inumber_of t h) ≡ some i = ground (arith, number) in
    rw (handle, is_node, w.opens, w.allocates, copy_opened)
      (ap (λ x. x >>= close_source (pos h))
          (copy_loop-copies fuel out [] h i 0 t w (Ready-opened s h i u node lt)
            (Stored-opened s h i st) (ground arith) (omega arith) refl small (omega arith))
        ∙ ap
            (λ k.
              close_source (pos h)
                (pos 0, read_bytes (file_bytes t i) 0 k, set_offset h (size_of s i) t))
            {x = size_of s i - 0} {y = size_of s i} (omega arith)
        ∙ ap (λ x. x >>= close_finish (content t i)) (tfs_close-opened s h i u lt f)
        ∙ ap (λ xs. done (pos 0, xs, used_entry s h i)) (content-opened s h i))

-- In parte-1, when no lock is held, a file of less than 2^63 bytes with all its blocks has the
-- name, a handle is free, and fopen, malloc and fwrite work, tfs_copy_to_external_fs ends within
-- any number of rounds above size / 1024, returns 0 and writes exactly the bytes of the file
-- outside, which are described by the layout of its direct and its referenced blocks and not by
-- the code. The handle that it took is free again, and all but the entry of this handle is as
-- before.
pub tfs_copy_to_external_fs-copies :
    (s : State) (rest : List ℕ) (fuel : ℕ) (out : Outside) (h i : ℕ)
    → Works out
    → Unlocked s
    → 0 < length rest
    → find_in_dir (pos 0) rest s ≡ done (pos i)
    → i < inode_table_size
    → h < max_open_files
    → s.free_open_file_entries h ≡ free
    → ((k : ℕ) → k < h → s.free_open_file_entries k ≡ taken)
    → HasBlocks s i
    → size_of s i < 0x8000000000000000
    → size_of s i < fuel * block_size
    → tfs_copy_to_external_fs fuel out (path_of rest) s ≡ done (pos 0, text s i, used_entry s h i)
unfolding tfs_copy_to_external_fs
tfs_copy_to_external_fs-copies s rest fuel out h i w u long found node lt f least has small enough =
    ap (λ x. x >>= copy_handle fuel out) (tfs_open-plain s rest h i u long found node lt f least)
    ∙ copy_opened-copies s fuel out h i w u node lt f (HasBlocks-Stored s i has) small enough
    ∙ ap (λ xs. done (pos 0, xs, used_entry s h i))
        (read_bytes-text s i 0 (size_of s i) has (omega arith))
