-- ===== src/Fs/Existing.antt =====
-- The branch of _tfs_open_unsynchronized (parte-2/fs/operations.c) for a file that exists.
use tecnicofs.Base.{
  ℕ, ◌<◌, ◌≡◌, ◌≢◌, sym, subst, update_here, update_other, refl, arith, true, false, ◌&&◌, ltb, inl,
  inr, [], length, if◌then◌else◌, Bool-cases, ℤ, pos, update,
}
use tecnicofs.Memory.Blocks.{read_bytes-zero}
use tecnicofs.Fs.State.{State, free, taken, max_open_files}
use tecnicofs.Fs.Blocks.{data_block_free}
use tecnicofs.Fs.Inodes.{set_inode}
use tecnicofs.Fs.OpenFiles.{add_to_open_file_table}
use tecnicofs.Fs.Operations.{has_flag, tfs_o_trunc, tfs_o_append, truncate, open_existing}
use tecnicofs.Fs.Pointers.{inode_get-valid, valid_inumber-pos}
use tecnicofs.Fs.Invariant.{
  InUse, size_of, block_of, block_at, IsFile, inumber_of, offset_of, IsValid, block-valid,
  block-taken, block-alone, root_entry-cong, entries-transfer,
}
use tecnicofs.Fs.Handles.{Adding, add_to_open_file_table-Adding}
use tecnicofs.Fs.Content.{content, OthersKept, content-cong, length-content}

-- The state after the file `i` was cut to no bytes.
abbrev pub truncated : State → ℕ → State
truncated s i =
    set_inode (record s { free_blocks = update s.free_blocks (block_of s i) free }) i
      (record (s.inode_table i) { i_size = 0 })

-- No open handle has moved into the file `i`.
abbrev pub AtStart : State → ℕ → Type 0
AtStart s i =
    (h : ℕ)
    → h < max_open_files
    → s.free_open_file_entries h ≡ taken
    → inumber_of s h ≡ pos i
    → offset_of s h ≡ 0

module _ {s : State} (i : ℕ) (v : IsValid s) (p : 0 < i) (u : InUse s i) where
  truncated-IsValid : 0 < size_of s i → AtStart s i → IsValid (truncated s i)
  truncated-IsValid d start = record {
    root_in_use = v.root_in_use;
    root_type = ground (arith, v.root_type);
    root_size = ground (arith, v.root_size);
    fits = λ j w. ground (arith, v.fits j w);
    owns = λ j w e. (
      ground (arith, block-valid v j),
      ground (arith, block-taken v j, block-alone v i j),
      λ j' w' e' q. ground (arith, block-alone v j j'),
    );
    opened =
        λ h l t. ground (arith, v.opened h l t, start h l t, valid_inumber-pos (inumber_of s h));
    counted = v.counted;
    entries =
        entries-transfer s (truncated s i) v
          (λ k l. root_entry-cong s (truncated s i) k (ground arith) refl) (λ j w. w);
  }

  others-truncated : OthersKept s (truncated s i) i
  others-truncated j w ne =
      content-cong s (truncated s i) j (ground arith) (λ d. ground arith) (λ x _ _. refl)

  content-truncated : content (truncated s i) i ≡ []
  content-truncated =
      read_bytes-zero s.fs_data (block_at (truncated s i) i) (size_of (truncated s i) i)
        (ground arith)

  pub truncate-cut :
      (flags : ℤ)
      → (has_flag flags tfs_o_trunc && ltb 0 (size_of s i)) ≡ true
      → truncate i flags s ≡ (true, truncated s i)
  unfolding truncate data_block_free
  truncate-cut flags e = let d : 0 < size_of s i = ground arith in rw (e, (v.owns i u d).0)

  truncate-keep :
      (flags : ℤ)
      → (has_flag flags tfs_o_trunc && ltb 0 (size_of s i)) ≡ false
      → truncate i flags s ≡ (true, s)
  unfolding truncate
  truncate-keep flags e = rw e

-- What a call of add_to_open_file_table gives, by an equation.
pub handle_added :
    {s : State} {z : ℤ} {offset : ℕ} {r : ℤ × State}
    → r ≡ add_to_open_file_table z offset s
    → Adding s z offset r
handle_added {s} {z} {offset} e =
    subst (Adding s z offset) (sym e) (add_to_open_file_table-Adding s z offset)

-- What opening the file `i` does: the state before the handle is added, the offset, and the handle.
pub record Prepared (s : State) (i : ℕ) (flags : ℤ) (r : ℤ × State) : Type 0 where
  pub before : State
  pub offset : ℕ
  pub returns : r ≡ add_to_open_file_table (pos i) offset before
  pub valid : IsValid before
  pub file : IsFile before (pos i)
  pub text : content before i ≡ (if has_flag flags tfs_o_trunc then [] else content s i)
  pub others : OthersKept s before i
  pub added : Adding before (pos i) offset r
  pub handles_kept : before.free_open_file_entries ≡ s.free_open_file_entries
  pub entries_kept : before.open_file_table ≡ s.open_file_table
  pub block_freed :
      has_flag flags tfs_o_trunc ≡ true → 0 < size_of s i → before.free_blocks (block_of s i) ≡ free
  pub blocks_kept : (b : ℕ) → b ≢ block_of s i → before.free_blocks b ≡ s.free_blocks b
  pub at_end : offset ≡ (if has_flag flags tfs_o_append then length (content before i) else 0)

module _ {s : State} (i : ℕ) (flags : ℤ) (v : IsValid s) (f : IsFile s (pos i)) where
  pub open_existing-after :
      (t : State)
      → truncate i flags s ≡ (true, t)
      → open_existing (pos i) flags s
        ≡ add_to_open_file_table (pos i) (if has_flag flags tfs_o_append then size_of t i else 0) t
  unfolding open_existing
  open_existing-after t e = rw (inode_get-valid (pos i) f.0, e, open_existing)

  -- In a valid state, opening a file that exists, with O_TRUNC only if no open handle has moved
  -- into it, first cuts the file to no bytes and frees its block if O_TRUNC is set and the file
  -- has bytes, and changes no other file, no other block and no handle. Then it fills the free
  -- entry of least number with the number of the file and the offset, which is the length of the
  -- file if O_APPEND is set and 0 if not, counts one open file more and returns the entry; or it
  -- returns -1, and then all entries are taken.
  pub open_existing-Prepared :
      (has_flag flags tfs_o_trunc ≡ true → AtStart s i)
      → Prepared s i flags (open_existing (pos i) flags s)
  open_existing-Prepared safe =
      elim (Bool-cases (has_flag flags tfs_o_trunc && ltb 0 (size_of s i))) [
        | inl e ↦
            let d : 0 < size_of s i = ground arith in
            let cut : has_flag flags tfs_o_trunc ≡ true = ground arith in
            record {
              before = truncated s i;
              offset = if has_flag flags tfs_o_append then size_of (truncated s i) i else 0;
              returns = open_existing-after (truncated s i) (truncate-cut i v f.1 f.2 flags e);
              valid = truncated-IsValid i v f.1 f.2 d (safe cut);
              file = f;
              text = rw cut (content-truncated i v f.1 f.2);
              others = others-truncated i v f.1 f.2;
              added =
                  handle_added
                    (open_existing-after (truncated s i) (truncate-cut i v f.1 f.2 flags e));
              handles_kept = refl;
              entries_kept = refl;
              block_freed = λ _ _. update_here s.free_blocks (block_of s i) free;
              blocks_kept = λ b ne. update_other s.free_blocks (block_of s i) b free ne;
              at_end = rw (length-content (truncated s i) i);
            }
        | inr e ↦ record {
          before = s;
          offset = if has_flag flags tfs_o_append then size_of s i else 0;
          returns = open_existing-after s (truncate-keep i v f.1 f.2 flags e);
          valid = v;
          file = f;
          text = elim (Bool-cases (has_flag flags tfs_o_trunc)) [
            | inl c ↦ rw c (read_bytes-zero s.fs_data (block_at s i) (size_of s i) (ground arith))
            | inr c ↦ rw c
          ];
          others = λ j w ne. refl;
          added = handle_added (open_existing-after s (truncate-keep i v f.1 f.2 flags e));
          handles_kept = refl;
          entries_kept = refl;
          block_freed = λ c d. absurd (ground arith);
          blocks_kept = λ b ne. refl;
          at_end = rw (length-content s i);
        }
      ]
