-- ===== src/First/Limits.antt =====
-- Where parte-1/fs/operations.c does not do what a caller expects: its locks, and writes of a whole
-- number of blocks.
use tecnicofs.Base.{
  increment, is_zero, false, ℕ, ◌+◌, ◌-◌, ◌*◌, ◌/◌, ◌%◌, ◌≤◌, ◌<◌, ◌≡◌, ◌∙◌, ap, refl, arith, true,
  ◌&&◌, ltb, leb, List, [], length, get_or, some, pos, minus_one, update,
}
use tecnicofs.Memory.{memcpy}
use tecnicofs.Memory.Blocks.{write_bytes_in}
use tecnicofs.Fs.State.{
  block_size, data_blocks, fs_data_size, free, taken, max_open_files, inode_table_size,
}
use tecnicofs.First.State.{State, Outcome, stuck, done, ◌>>=◌, lock_file, max_direct_blocks}
use tecnicofs.First.OpenFiles.{remove_from_open_file_table, get_open_file_entry}
use tecnicofs.First.Operations.{tfs_close, tfs_destroy_after_all_closed}
use tecnicofs.First.Operations.Transfer.{with_file, end_blocks, move_size, is_last}
use tecnicofs.First.Operations.Write.{
  put, direct_block, write_block, write_move, write_turn, write_loop, write_locked, finish_write,
  tfs_write,
}
use tecnicofs.First.Operations.Read.{tfs_read, read_sized}
use tecnicofs.First.Content.{offset_of, inumber_of}
use tecnicofs.First.Sound.{block_of, direct_block-found}
use tecnicofs.First.WriteLoop.{write_turn-move}
use tecnicofs.First.Writes.{write_locked-loop}
use tecnicofs.First.Locked.{
  Ready, with_locks, without_locks, with_file-Ready, get_open_file_entry-Ready,
}
use tecnicofs.Fs.Open.{path_of}
use tecnicofs.First.Dir.{find_in_dir}
use tecnicofs.First.Inodes.{inode_get}
use tecnicofs.First.Operations.Copy.{Outside, copy_opened, copy_handle, tfs_copy_to_external_fs}
use tecnicofs.First.Opens.{Unlocked, opened_at, tfs_open-plain}

-- While the lock of an open file is held, both functions wait for it.
with_file-stuck :
    {B : Type 0} (fail : State → B) (body : ℕ → ℕ → State → Outcome B) {s : State} {h i : ℕ}
    → Ready s h i
    → with_file fail body (pos h) (with_locks h i s) ≡ stuck
unfolding with_file lock_file
with_file-stuck fail body {s} {h} {i} r =
    let held : update s.open_file_table_locks h true h ≡ true = ground arith in
    rw (get_open_file_entry-Ready r, held, lock_file, with_file) refl

-- In parte-1, a write of no bytes through a ready handle returns 0 and keeps the locks of the
-- handle and of its file: then reads, writes and closes of this handle wait for ever.
pub empty_write_keeps_locks :
    (s : State) (h i : ℕ) (buffer : List ℕ)
    → Ready s h i
    → (tfs_write (pos h) buffer 0 s ≡ done (pos 0, with_locks h i s))
      × ((len : ℕ) → tfs_read (pos h) len (with_locks h i s) ≡ stuck)
      × ((more : List ℕ) (n : ℕ) → tfs_write (pos h) more n (with_locks h i s) ≡ stuck)
      × (tfs_close (pos h) (with_locks h i s) ≡ stuck)
unfolding tfs_write tfs_read tfs_close remove_from_open_file_table write_locked
empty_write_keeps_locks s h i buffer r = (
  with_file-Ready (λ t. (minus_one, t)) (λ h' i' t. write_locked h' i' buffer 0 t) r,
  λ len. with_file-stuck (λ t. (minus_one, [], t)) (read_sized len) r,
  λ more n. with_file-stuck (λ t. (minus_one, t)) (λ h' i' t. write_locked h' i' more n t) r,
  ground (arith, r.handle),
)

-- The loop for one block, which is there, when the whole of the bytes is moved at once.
one_turn :
    (s : State) (h i k b m : ℕ) (buffer : List ℕ)
    → k < max_direct_blocks
    → block_of s i k ≡ pos b
    → b < data_blocks
    → let o = offset_of s h in
      b * block_size + o % block_size + m ≤ fs_data_size
      → m ≤ length buffer
      → move_size k (k + 1) o m ≡ m
      → is_last k (k + 1) o m ≡ true
      → write_loop 1 k (k + 1) h i buffer m 0 s
        ≡ done (some m, put h i (b * block_size + o % block_size) m buffer s)
unfolding write_loop write_block write_move
one_turn s h i k b m buffer lt e bound fit has em el =
    let o : ℕ = offset_of s h in
    let direct : ltb k max_direct_blocks ≡ true = ground arith in
    let found : direct_block i k s ≡ (some (b * block_size), s) =
      direct_block-found s i k b e bound in
    let inside : (leb (b * block_size + o % block_size + m) fs_data_size && leb m (length buffer))
        ≡ true =
      ground arith in
    let turn : write_block i k s ≡ done (some (b * block_size), s) =
      rw (direct, write_block) (ap (λ l. done l) found) in
    ap
      (λ x.
        x
        >>= write_turn (λ buffer' n' w t. write_loop 0 (k + 1) (k + 1) h i buffer' n' w t) k (k + 1)
            h i buffer m 0)
      turn
    ∙ write_turn-move (λ buffer' n' w t. write_loop 0 (k + 1) (k + 1) h i buffer' n' w t) k (k + 1)
        h i m 0 b o m true buffer s refl em el
    ∙ rw (inside, write_move)
        (ap (λ z. done (some z, put h i (b * block_size + o % block_size) m buffer s)) {x = 0 + m}
          {y = m} (omega arith))

-- In parte-1, a write of 1024 bytes of a buffer of at least as many through a ready handle, at an
-- offset that is within the direct blocks and whose block is there and not the last one of the
-- memory, returns 1024, and the bytes behind the end of the block go to the start of the next
-- block of the memory, whatever file that belongs to.
pub unaligned_write_spills :
    (s : State) (h i b : ℕ) (buffer : List ℕ)
    → Ready s h i
    → let o = offset_of s h in
      o < max_direct_blocks * block_size
      → block_of s i (o / block_size) ≡ pos b
      → b + 1 < data_blocks
      → block_size ≤ length buffer
      → (t : State) × (tfs_write (pos h) buffer block_size s ≡ done (pos block_size, t))
        × ((x : ℕ)
            → x < o % block_size
            → t.fs_data ((b + 1) * block_size + x)
              ≡ get_or buffer (block_size - o % block_size + x) 0)
unfolding tfs_write write_locked write_loop write_move memcpy
unaligned_write_spills s h i b buffer r inside e bound has =
    let o : ℕ = offset_of s h in
    let end : end_blocks o block_size ≡ o / block_size + 1 = ground arith in
    let u : State =
      put h i (b * block_size + o % block_size) block_size buffer (with_locks h i s) in
    (
      without_locks h i u,
      with_file-Ready (λ t. (minus_one, t)) (λ h' i' t. write_locked h' i' buffer block_size t) r
          ∙ write_locked-loop h i block_size buffer (with_locks h i s) (omega arith)
          ∙ ap (λ x. x >>= λ written. done (finish_write h i written))
              (ap
                  (λ k.
                    write_loop (k - o / block_size) (o / block_size) k h i buffer block_size 0
                      (with_locks h i s))
                  end
                ∙ ap
                    (λ k.
                      write_loop k (o / block_size) (o / block_size + 1) h i buffer block_size 0
                        (with_locks h i s))
                    {y = 1} (omega arith)
                ∙ one_turn (with_locks h i s) h i (o / block_size) b block_size buffer (omega arith)
                    e (omega arith) (omega arith) has (ground arith) (ground arith)),
      λ x lt.
          write_bytes_in s.fs_data (b * block_size + o % block_size) block_size
            (λ k. get_or buffer k 0) (block_size - o % block_size + x) ((b + 1) * block_size + x)
            (omega arith) (omega arith),
    )

copy_opened-fails :
    (s : State) (fuel : ℕ) (out : Outside) (h i : ℕ)
    → out.opened ≡ false
    → i < inode_table_size
    → h < max_open_files
    → copy_opened fuel out (pos h) (opened_at s h (pos i) 0)
      ≡ done (minus_one, [], opened_at s h (pos i) 0)
unfolding copy_opened get_open_file_entry inode_get
copy_opened-fails s fuel out h i fails node lt =
    let t : State = opened_at s h (pos i) 0 in
    let handle : get_open_file_entry (pos h) ≡ some h = ground arith in
    let number : inumber_of t h ≡ pos i = ground arith in
    let is_node : inode_get (inumber_of t h) ≡ some i = ground (arith, number) in
    rw (handle, is_node, fails, copy_opened) refl

-- While a file is open, the end of the file system waits.
destroy-opened :
    (s : State) (n : ℕ)
    → s.open_files_count ≡ increment (pos n)
    → tfs_destroy_after_all_closed s ≡ stuck
unfolding tfs_destroy_after_all_closed
destroy-opened s n e =
    let open_file : is_zero s.open_files_count ≡ false = ap is_zero e ∙ ground arith in
    rw (open_file, tfs_destroy_after_all_closed) refl

-- In parte-1, when no lock is held, a file has the name, a handle is free and the count of open
-- files is not negative, a tfs_copy_to_external_fs for which fopen fails returns -1 and leaves a
-- handle open, and then tfs_destroy_after_all_closed waits.
pub failed_copy_keeps_handle :
    (s : State) (rest : List ℕ) (fuel : ℕ) (out : Outside) (h i n : ℕ)
    → out.opened ≡ false
    → Unlocked s
    → 0 < length rest
    → find_in_dir (pos 0) rest s ≡ done (pos i)
    → i < inode_table_size
    → h < max_open_files
    → s.free_open_file_entries h ≡ free
    → ((k : ℕ) → k < h → s.free_open_file_entries k ≡ taken)
    → s.open_files_count ≡ pos n
    → (tfs_copy_to_external_fs fuel out (path_of rest) s
        ≡ done (minus_one, [], opened_at s h (pos i) 0))
      × ((opened_at s h (pos i) 0).free_open_file_entries h ≡ taken)
      × (tfs_destroy_after_all_closed (opened_at s h (pos i) 0) ≡ stuck)
unfolding tfs_copy_to_external_fs tfs_destroy_after_all_closed
failed_copy_keeps_handle s rest fuel out h i n fails u long found node lt f least count = (
  ap (λ x. x >>= copy_handle fuel out) (tfs_open-plain s rest h i u long found node lt f least)
      ∙ copy_opened-fails s fuel out h i fails node lt,
  ground arith,
  destroy-opened (opened_at s h (pos i) 0) n (ap increment count),
)
