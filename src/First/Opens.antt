-- ===== src/First/Opens.antt =====
-- What tfs_open of parte-1/fs/operations.c does with a file that is there.
use tecnicofs.Base.{
  ℕ, zero, suc, ◌+◌, ◌≤◌, ◌<◌, ◌≡◌, ◌∙◌, ap, ap₂, sym, refl, arith, true, false, Bool-cases, inl,
  inr, ◌==◌, some, List, length, ℤ, pos, increment, update,
}
use tecnicofs.Fs.State.{free, taken, max_open_files, inode_table_size}
use tecnicofs.First.State.{
  State, Outcome, done, ◌>>=◌, lock_open, unlock_open, lock_inode, unlock_inode,
}
use tecnicofs.Fs.Operations.{valid_pathname}
use tecnicofs.First.Dir.{find_in_dir}
use tecnicofs.First.Inodes.{inode_get}
use tecnicofs.First.OpenFiles.{add_open_from, add_to_open_file_table}
use tecnicofs.First.Operations.{
  tfs_open, tfs_lookup, open_found, open_existing, open_node, open_truncated, truncate,
}
use tecnicofs.Fs.Open.{path_of}
use tecnicofs.First.Locked.{update_back}

-- No lock is held.
pub record Unlocked (s : State) : Type 0 where
  pub nodes : (i : ℕ) → s.inode_table_locks i ≡ false
  pub files : (h : ℕ) → s.open_file_table_locks h ≡ false
  pub opening : s.open_file_lock ≡ false

-- The state with the handle `h` for the node `i`.
abbrev pub opened_at : State → ℕ → ℤ → ℕ → State
opened_at s h z offset = record s {
  free_open_file_entries = update s.free_open_file_entries h taken;
  open_file_table = update s.open_file_table h (record { of_inumber = z; of_offset = offset });
  open_files_count = increment s.open_files_count;
}

-- The free handle of least number is taken.
add_open_from-first :
    (n j h : ℕ) (z : ℤ) (offset : ℕ) (s : State)
    → Unlocked s
    → s.free_open_file_entries h ≡ free
    → ((k : ℕ) → k < h → s.free_open_file_entries k ≡ taken)
    → j ≤ h
    → h < j + n
    → add_open_from n j z offset s ≡ done (pos h, opened_at s h z offset)
unfolding add_open_from
add_open_from-first zero j h z offset s u f least le lt = absurd (omega arith)
add_open_from-first (suc n) j h z offset s u f least le lt = elim (Bool-cases (j == h)) [
  | inl e ↦
      let q : j ≡ h = ground arith in
      rw (u.files j, ap s.free_open_file_entries q ∙ f, add_open_from)
        (ap (λ x. done (pos x, opened_at s x z offset)) q)
  | inr e ↦
      rw (u.files j, least j (ground arith), add_open_from)
        (add_open_from-first n (j + 1) h z offset s u f least (ground arith) (omega arith))
]

-- The state while the file `i` is opened.
abbrev pub opening : State → State
opening s = record s { open_file_lock = true }

pub lookup-opening :
    (s : State) (rest : List ℕ) (r : Outcome ℤ)
    → 0 < length rest
    → find_in_dir (pos 0) rest s ≡ r
    → tfs_lookup (path_of rest) (opening s) ≡ r
unfolding tfs_lookup find_in_dir
lookup-opening s rest r long found = ground (arith, found)

pub lock_node-opening :
    (s : State) (i : ℕ)
    → Unlocked s
    → lock_inode i (opening s)
      ≡ done (record s {
        open_file_lock = true;
        inode_table_locks = update s.inode_table_locks i true;
      })
unfolding lock_inode
lock_node-opening s i u = rw (u.nodes i) refl

unlock_node-opening :
    (s : State) (i : ℕ)
    → Unlocked s
    → unlock_inode i (
        unlock_open (record s {
          open_file_lock = true;
          inode_table_locks = update s.inode_table_locks i true;
        }))
      ≡ s
unlock_node-opening s i u =
    ap₂ (λ f b. record s { inode_table_locks = f; open_file_lock = b })
      (update_back s.inode_table_locks i true false (u.nodes i)) (sym u.opening)

open_node-plain :
    (s : State) (i : ℕ) (r : Outcome (ℤ × State))
    → Unlocked s
    → i < inode_table_size
    → add_to_open_file_table (pos i) 0 s ≡ r
    → open_node
        (pos i)
        (pos 0)
        (record s { open_file_lock = true; inode_table_locks = update s.inode_table_locks i true })
      ≡ r
unfolding open_node truncate inode_get open_truncated
open_node-plain s i r u lt e =
    let ok : inode_get (pos i) ≡ some i = ground arith in
    rw (ok, open_node)
      (ap (λ t. add_to_open_file_table (pos i) 0 t) (unlock_node-opening s i u) ∙ e)

-- A file that is there is opened without flags: a handle at its start, and nothing else.
pub tfs_open-plain :
    (s : State) (rest : List ℕ) (h i : ℕ)
    → Unlocked s
    → 0 < length rest
    → find_in_dir (pos 0) rest s ≡ done (pos i)
    → i < inode_table_size
    → h < max_open_files
    → s.free_open_file_entries h ≡ free
    → ((k : ℕ) → k < h → s.free_open_file_entries k ≡ taken)
    → tfs_open (path_of rest) (pos 0) s ≡ done (pos h, opened_at s h (pos i) 0)
unfolding tfs_open lock_open open_found open_existing add_to_open_file_table
tfs_open-plain s rest h i u long found node lt f least =
    let ok : valid_pathname (path_of rest) ≡ true = ground arith in
    rw (ok, tfs_open)
      (ap (λ x. x >>= λ s1. tfs_lookup (path_of rest) s1 >>= open_found rest (pos 0) s1)
          {x = lock_open s} {y = done (opening s)} (rw u.opening refl)
        ∙ ap (λ x. x >>= open_found rest (pos 0) (opening s)) (lookup-opening s rest _ long found)
        ∙ ap (λ x. x >>= open_node (pos i) (pos 0)) (lock_node-opening s i u)
        ∙ open_node-plain s i _ u node (
            add_open_from-first max_open_files 0 h (pos i) 0 s u f least (omega arith)
              (omega arith)))
