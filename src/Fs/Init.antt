-- ===== src/Fs/Init.antt =====
-- tfs_init of parte-2/fs/operations.c: the state that it leaves.
use tecnicofs.Base.{
  ℕ, zero, suc, ◌+◌, ◌≤◌, ◌<◌, ◌≡◌, refl, arith, ap, ◌∙◌, sym, inl, inr, List, pos, minus_one,
  is_minus_one, count_below,
}
use native.Mathlib.Decide.{ℕ_discrete}
use tecnicofs.Memory.{Memory, load_int, store_int}
use tecnicofs.Memory.Ints.{load_int-store_int, load_int-write_bytes_out}
use tecnicofs.Fs.State.{State, max_dir_entries}
use tecnicofs.Fs.Blocks.{first_free, data_block_alloc, data_block_get}
use tecnicofs.Fs.Inodes.{state_init, clear_entries, init_inode, inode_create, d_inumber_at}
use tecnicofs.Fs.Dir.{find_in_dir}
use tecnicofs.Fs.Operations.{tfs_init}
use tecnicofs.Fs.Invariant.{IsValid, root_entry, block_at}
use tecnicofs.Fs.Root.{find_in_dir-root}
use tecnicofs.Fs.Dir.Lookup.{find_from-result}
use mathlib.Core.Bool.{false≢true}

clear_entries_out :
    (n i dir k : ℕ) (m : Memory)
    → k < i
    → load_int (clear_entries n i dir m) (d_inumber_at dir k) ≡ load_int m (d_inumber_at dir k)
unfolding clear_entries store_int
clear_entries_out zero i dir k m h = refl
clear_entries_out (suc n) i dir k m h =
    clear_entries_out n (i + 1) dir k (store_int m (d_inumber_at dir i) minus_one) (omega arith)
    ∙ load_int-write_bytes_out m (d_inumber_at dir i) 4 _ (d_inumber_at dir k) (omega arith)

-- The loop of inode_create leaves every entry empty.
clear_entries-empty :
    (n i dir k : ℕ) (m : Memory)
    → i ≤ k
    → k < i + n
    → load_int (clear_entries n i dir m) (d_inumber_at dir k) ≡ minus_one
unfolding clear_entries
clear_entries-empty zero i dir k m lo hi = absurd (omega arith)
clear_entries-empty (suc n) i dir k m lo hi = elim (ℕ_discrete k i) [
  | yes e ↦
      ap
        (λ j.
          load_int (clear_entries n (i + 1) dir (store_int m (d_inumber_at dir i) minus_one))
            (d_inumber_at dir j))
        e
      ∙ clear_entries_out n (i + 1) dir i (store_int m (d_inumber_at dir i) minus_one) (omega arith)
      ∙ load_int-store_int m (d_inumber_at dir i) minus_one (omega arith)
  | no ne ↦
      clear_entries-empty n (i + 1) dir k (store_int m (d_inumber_at dir i) minus_one) (omega arith)
        (omega arith)
]

-- The state after a successful tfs_init.
unfoldable pub initial : State → State
initial s = (tfs_init 0 s).1

initial-entry : (s : State) (k : ℕ) → k < max_dir_entries → root_entry (initial s) k ≡ minus_one
unfolding initial tfs_init inode_create init_inode state_init data_block_alloc data_block_get
    first_free
initial-entry s k lt =
    clear_entries-empty max_dir_entries 0 0 k s.fs_data (omega arith) (omega arith)

pub initial-IsValid : (s : State) → s.open_files_count ≡ pos 0 → IsValid (initial s)
unfolding initial tfs_init inode_create init_inode state_init data_block_alloc data_block_get
    first_free count_below
initial-IsValid s e = record {
  root_in_use = refl;
  root_type = refl;
  root_size = refl;
  fits = λ i u. ground arith;
  owns = λ i u d. (ground arith, ground arith, λ j w q z. ground arith);
  opened = λ h l t. absurd (cc);
  counted = e;
  entries = λ k lt. inl (initial-entry s k lt);
}

-- tfs_init succeeds if pthread_mutex_init does, and the root directory is then empty.
pub tfs_init-returns : (s : State) → tfs_init 0 s ≡ (pos 0, initial s)
unfolding initial tfs_init inode_create init_inode state_init data_block_alloc data_block_get
    first_free
tfs_init-returns s = refl

pub initial-empty :
    (s : State) (t : List ℕ)
    → s.open_files_count ≡ pos 0
    → find_in_dir (pos 0) t (initial s) ≡ minus_one
initial-empty s t e =
    elim (find_from-result (block_at (initial s) 0) t max_dir_entries 0 (initial s).fs_data) [
      | inl q ↦ find_in_dir-root (initial-IsValid s e) t ∙ q
      | inr (k, lt, q, ok) ↦
          absurd (false≢true (sym ok ∙ ap (λ z. is_minus_one z) (initial-entry s k (omega arith))))
    ]

-- If no file was open before and the mutex is made, tfs_init succeeds, the state after it is
-- valid, and no name is found.
pub tfs_init-IsValid :
    (s : State)
    → s.open_files_count ≡ pos 0
    → (t : State) × (tfs_init 0 s ≡ (pos 0, t))
      × IsValid t
      × ((name : List ℕ) → find_in_dir (pos 0) name t ≡ minus_one)
tfs_init-IsValid s e =
    (initial s, tfs_init-returns s, initial-IsValid s e, λ name. initial-empty s name e)
