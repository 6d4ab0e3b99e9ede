-- ===== src/Fs/Limits.antt =====
-- Behaviour of parte-2/fs at the edges of its rules: handles that outlive a truncation, handles
-- that were never opened, names and paths that do not fit, and a second start.
use tecnicofs.Base.{
  inl, inr, ap₂, sym, update_other, ◌&&◌, ltb, if◌then◌else◌, take-all, ◌%◌, ℕ, ◌+◌, ◌-◌, ◌≤◌, ◌<◌,
  ◌≡◌, ◌≢◌, refl, arith, ap, ◌∙◌, List, [], length, length-take, take, overwrite, some, true,
  Bool-cases, ℤ, pos, minus_one,
}
use Prim.Native.Nat.{max}
use tecnicofs.Memory.{read_bytes}
use tecnicofs.Memory.Blocks.{read_bytes-zero, read_bytes-cong, read_bytes-memcpy}
use tecnicofs.Memory.Strings.{IsString, same_prefix_iff}
use tecnicofs.Fs.State.{
  State, OpenFileEntry, AllocationState, free, taken, max_open_files, max_file_name, block_size,
}
use tecnicofs.Fs.Blocks.{valid_block_number}
use tecnicofs.Fs.Dir.{find_in_dir}
use tecnicofs.Fs.Dir.Lookup.{IsEmpty}
use tecnicofs.Fs.Dir.Entries.{answers}
use tecnicofs.Fs.Operations.{
  has_flag, tfs_o_trunc, tfs_o_append, set_offset, size_mod, read_size, write_size, read_entry,
  write_entry, read_unsynchronized, write_unsynchronized, ensure_block, advance,
  lookup_unsynchronized, open_unsynchronized,
}
use tecnicofs.Fs.Invariant.{IsFile, IsValid, inumber_of, offset_of, size_of, block_at, root-owns}
use tecnicofs.Fs.Invariant.{block-valid}
use tecnicofs.Fs.Invariant.Steps.{Refers}
use tecnicofs.Fs.Content.{content}
use tecnicofs.Fs.Existing.{truncated, truncate-cut, open_existing-after}
use tecnicofs.Fs.Handles.{opened_at, no_entry, adds, add_to_open_file_table-Adding}
use tecnicofs.Fs.OpenFiles.{add_to_open_file_table}
use tecnicofs.Fs.Open.{path_of, lookup_unsynchronized-path}
use tecnicofs.Fs.Read.{read_unsynchronized-entry, read_entry-within}
use tecnicofs.Fs.Write.{write_entry-ready, write_unsynchronized-entry}
use tecnicofs.Fs.Write.Block.{ensure_block-had}
use tecnicofs.Fs.Write.Put.{put}
use tecnicofs.Fs.Root.{found-IsFile, entered, find_in_dir-entered_other}

free≢taken : free ≢ taken
free≢taken e = cc

-- A state behind the truncation of the file `i` in which handles may have been added.
abbrev cut_with : State → ℕ → (ℕ → OpenFileEntry) → (ℕ → AllocationState) → ℤ → State
cut_with s i files entries count = record (truncated s i) {
  open_file_table = files;
  free_open_file_entries = entries;
  open_files_count = count;
}

-- What stands behind the end of the file `i`, which has no byte left, read through the handle `h`.
abbrev Stale : State → ℕ → ℕ → ℕ → State → Type 0
Stale s h i len t =
    (content t i ≡ [])
    × (read_unsynchronized (pos h) len t
        ≡ some (
          pos len,
          read_bytes s.fs_data (block_at s i + offset_of s h) len,
          set_offset t h (offset_of s h + len),
        ))

cut_with-Stale :
    {s : State} (h i len : ℕ) (files : ℕ → OpenFileEntry) (entries : ℕ → AllocationState)
    (count : ℤ)
    → IsValid s
    → Refers s h i
    → files h ≡ s.open_file_table h
    → 0 < offset_of s h
    → 0 < len
    → offset_of s h + len ≤ block_size
    → Stale s h i len (cut_with s i files entries count)
cut_with-Stale {s} h i len files entries count v r same moved some_bytes fit =
    let t : State = cut_with s i files entries count in
    let o = v.opened h r.0 r.1 in
    let inside : offset_of s h ≤ size_of s i = ground arith in
    let ok : valid_block_number (t.inode_table i).i_data_block ≡ true =
      ground (arith, block-valid v i) in
    let empty : size_of t i ≡ 0 = ground arith in
    let at : block_at t i ≡ block_at s i = ground arith in
    let where_at : offset_of t h ≡ offset_of s h = ap (λ e. e.of_offset) same in
    let number : inumber_of t h ≡ inumber_of s h = ap (λ e. e.of_inumber) same in
    let n-eq : read_size (size_of t i) (offset_of t h) len ≡ len = ground (arith, where_at) in
    let off-eq : (offset_of t h + len) % size_mod ≡ offset_of s h + len = omega (arith, where_at) in
    (
      read_bytes-zero s.fs_data (block_at t i) (size_of t i) empty,
      read_unsynchronized-entry t h i len r.0 (number ∙ r.2) (rw r.2 at (o.0.0))
          ∙ ap (λ n. read_entry h i n t) n-eq
          ∙ read_entry-within t h i len ok (omega (arith, where_at)) (ground arith)
          ∙ λ j.
              some
                (pos len, read_bytes s.fs_data (at j + where_at j) len, set_offset t h (off-eq j)),
    )

-- In a valid state, with a handle that stands inside a file, let the file be opened by its path
-- with O_TRUNC. The call is defined behaviour, whether or not it finds a free handle, and the file
-- then has no byte; but a read of at least one byte through the first handle, up to the end of a
-- block at most, does not return 0: it gives `len` bytes of the block that was given back.
pub stale_read :
    {s : State} (h i len : ℕ) (name : List ℕ) (flags : ℤ)
    → IsValid s
    → Refers s h i
    → 0 < length name
    → find_in_dir (pos 0) name s ≡ pos i
    → has_flag flags tfs_o_trunc ≡ true
    → 0 < offset_of s h
    → 0 < len
    → offset_of s h + len ≤ block_size
    → (ret : ℤ) × (t : State) × (open_unsynchronized (path_of name) flags s ≡ some (ret, t))
      × (content t i ≡ [])
      × (read_unsynchronized (pos h) len t
          ≡ some (
            pos len,
            read_bytes s.fs_data (block_at s i + offset_of s h) len,
            set_offset t h (offset_of s h + len),
          ))
unfolding open_unsynchronized
stale_read {s} h i len name flags v r long found cut moved some_bytes fit =
    let o = v.opened h r.0 r.1 in
    let f : IsFile s (pos i) = found-IsFile name i v found in
    let q : lookup_unsynchronized (path_of name) s ≡ pos i =
      lookup_unsynchronized-path s name long ∙ found in
    let both : (has_flag flags tfs_o_trunc && ltb 0 (size_of s i)) ≡ true = ground arith in
    let offset : ℕ = if has_flag flags tfs_o_append then size_of (truncated s i) i else 0 in
    let opens : open_unsynchronized (path_of name) flags s
        ≡ some (add_to_open_file_table (pos i) offset (truncated s i)) =
      rw (q, open_unsynchronized)
        (ap (λ x. some x)
          (open_existing-after i flags v f (truncated s i)
            (truncate-cut i v f.1 f.2 flags both))) in
    elim (add_to_open_file_table-Adding (truncated s i) (pos i) offset) [
      | no_entry _ e ↦
          let stale : Stale s h i len (truncated s i) =
            cut_with-Stale h i len s.open_file_table s.free_open_file_entries s.open_files_count v r
              refl moved some_bytes fit in
          (minus_one, truncated s i, opens ∙ ap (λ x. some x) e, stale.0, stale.1)
      | adds k lt is_free _ e ↦
          let ne : h ≢ k =
            λ (p : h ≡ k). free≢taken (sym is_free ∙ sym (ap s.free_open_file_entries p) ∙ r.1) in
          let t : State = opened_at (truncated s i) k (pos i) offset in
          let stale : Stale s h i len t =
            cut_with-Stale h i len t.open_file_table t.free_open_file_entries t.open_files_count v r
              (update_other s.open_file_table k h _ ne) moved some_bytes fit in
          (pos k, t, opens ∙ ap (λ x. some x) e, stale.0, stale.1)
    ]

-- In a valid state, a handle that no call returned is not refused: where its entry has the number
-- 0 and the offset 0, as before its first use, a write of at least one byte and at most a block
-- returns the number of bytes and overwrites the bytes of the root directory.
pub unopened_write :
    {s : State} (h : ℕ) (buffer : List ℕ)
    → IsValid s
    → h < max_open_files
    → inumber_of s h ≡ pos 0
    → offset_of s h ≡ 0
    → 0 < length buffer
    → length buffer ≤ block_size
    → (t : State) × (write_unsynchronized (pos h) buffer (length buffer) s
        ≡ some (pos (length buffer), t))
      × (content t 0 ≡ overwrite (content s 0) 0 buffer)
unfolding advance
unopened_write {s} h buffer v lt e o nonempty fit =
    let n : ℕ = length buffer in
    let root = root-owns v in
    let had_block : ensure_block 0 s ≡ s = ensure_block-had s 0 (omega (arith, v.root_size)) in
    let n-eq : write_size n (offset_of s h) ≡ n = ground arith in
    let size-eq : size_of (put s h 0 n buffer) 0 ≡ max (size_of s 0) (offset_of s h + n) =
      ground (arith, v.root_size) in
    let at : block_at (put s h 0 n buffer) 0 ≡ block_at s 0 = ground arith in
    (
      put s h 0 n buffer,
      write_unsynchronized-entry s h 0 n buffer lt e refl
          ∙ ap (λ k. write_entry h 0 buffer k s) n-eq
          ∙ write_entry-ready s h 0 n buffer (ground arith) (rw had_block root.0) (rw had_block)
              (omega arith) (omega arith)
          ∙ ap (λ x. some (pos n, put x h 0 n buffer)) had_block,
      read_bytes-cong (put s h 0 n buffer).fs_data {b = block_at s 0} at size-eq
          ∙ read_bytes-memcpy s.fs_data (block_at s 0) (size_of s 0) (offset_of s h) n _ buffer
              (omega arith) (omega arith) refl
          ∙ ap₂ (λ k xs. overwrite (content s 0) k xs) o (take-all n buffer (omega arith)),
    )

-- In a valid state, a name of 40 bytes or more that is entered with the number of a file into an
-- empty entry of the root directory is not found there: a search for it gives what it gave before.
pub long_name_not_found :
    {s : State} (j : ℕ) (z : ℤ) (name : List ℕ)
    → IsValid s
    → IsFile s z
    → IsEmpty s.fs_data (block_at s 0) j
    → IsString name
    → max_file_name ≤ length name
    → find_in_dir (pos 0) name (entered s j z name) ≡ find_in_dir (pos 0) name s
long_name_not_found {s} j z name v f empty hs long =
    find_in_dir-entered_other v z name j f name empty hs hs (elim (Bool-cases (answers name name)) [
      | inl it ↦
          let e : take (max_file_name - 1) name ≡ name =
            (same_prefix_iff max_file_name (take (max_file_name - 1) name) name
                (omega (arith, length-take (max_file_name - 1) name))).0
              it in
          absurd (omega (arith, length-take (max_file_name - 1) name, ap length e))
      | inr not_it ↦ not_it
    ])
