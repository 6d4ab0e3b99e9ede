-- ===== src/Fs/Race.antt =====
-- parte-2/fs/operations.c: tfs_open tests open_flag under open_files_mutex and gives that mutex back
-- before it opens the file, so tfs_destroy_after_all_closed can run between the two.
use tecnicofs.Base.{
  ℕ, ◌<◌, ◌≡◌, ◌∙◌, ap, refl, arith, List, length, some, false, ℤ, pos, minus_one, if◌then◌else◌,
  Bool-cases, ◌==◌, count_below, zero, suc, ◌≤◌, ◌≢◌, inl, inr,
}
use tecnicofs.Fs.State.{State, AllocationState, taken, is_taken, max_open_files}
use tecnicofs.Fs.OpenFiles.{add_to_open_file_table}
use tecnicofs.Fs.Operations.{
  open_unsynchronized, open_existing, truncate, has_flag, tfs_o_trunc, tfs_o_append,
  lookup_unsynchronized,
}
use tecnicofs.Fs.Operations.Api.{Locking, open_passed, tfs_open, tfs_destroy_after_all_closed}
use tecnicofs.Fs.Invariant.{IsValid, IsFile, size_of}
use tecnicofs.Fs.Pointers.{inode_get-valid}
use tecnicofs.Fs.Handles.{
  open_count, opened_at, opened_at-IsValid, no_entry, adds, add_to_open_file_table-Adding,
}
use tecnicofs.Fs.Open.{path_of, lookup_unsynchronized-path}
use tecnicofs.Fs.Root.{found-IsFile}
use tecnicofs.Fs.Dir.{find_in_dir}
use tecnicofs.Fs.Shutdown.{stops, tfs_open-closed}

abbrev pub closed_down : State → State
closed_down s = record s { open_flag = false }

-- The test of open_flag is not part of the invariant.
closed_down-IsValid : {s : State} → IsValid s → IsValid (closed_down s)
closed_down-IsValid v = record {
  root_in_use = v.root_in_use;
  root_type = v.root_type;
  root_size = v.root_size;
  fits = v.fits;
  owns = v.owns;
  opened = v.opened;
  counted = v.counted;
  entries = v.entries;
}

open_existing-kept :
    (i : ℕ) (flags : ℤ) (s : State)
    → IsFile s (pos i)
    → has_flag flags tfs_o_trunc ≡ false
    → open_existing (pos i) flags s
      ≡ add_to_open_file_table (pos i) (if has_flag flags tfs_o_append then size_of s i else 0) s
unfolding open_existing truncate
open_existing-kept i flags s f e = rw (inode_get-valid (pos i) f.0, e, open_existing, truncate)

count_below-none :
    (n : ℕ) (f : ℕ → AllocationState) (h : ℕ) → h < n → f h ≡ taken → count_below is_taken n f ≢ 0
unfolding count_below
count_below-none zero f h lt e q = omega arith
count_below-none (suc n) f h lt e q = elim (Bool-cases (n == h)) [
  | inl last ↦ let here : f n ≡ taken = ap f (ground arith) ∙ e in ground (arith, q, here)
  | inr other ↦ count_below-none n f h (ground arith) e (ground arith)
]

-- A handle is added when none is open.
add_to_open_file_table-first :
    (s : State) (i offset : ℕ)
    → IsValid s
    → IsFile s (pos i)
    → offset ≤ size_of s i
    → open_count s ≡ 0
    → (k : ℕ) × (u : State) × (add_to_open_file_table (pos i) offset s ≡ (pos k, u))
      × IsValid u
      × (u.open_flag ≡ s.open_flag)
      × (u.open_files_count ≡ pos 1)
add_to_open_file_table-first s i offset v f small none_open =
    elim (add_to_open_file_table-Adding s (pos i) offset) [
      | no_entry all e ↦ absurd (
          count_below-none max_open_files s.free_open_file_entries 0 (omega arith)
            (all 0 (omega arith)) none_open)
      | adds k lt is_free least e ↦ (
        k,
        opened_at s k (pos i) offset,
        e,
        opened_at-IsValid k (pos i) offset lt is_free f small v,
        refl,
        rw (v.counted, none_open),
      )
    ]

-- A search does not look at open_flag.
find_in_dir-closed_down :
    (z : ℤ) (name : List ℕ) (s : State) → find_in_dir z name (closed_down s) ≡ find_in_dir z name s
unfolding find_in_dir
find_in_dir-closed_down z name s = refl

-- What an open through a path gives, when the file is there and is not to be cut.
open_passed-kept :
    (l : Locking) (s t : State) (name : List ℕ) (flags : ℤ) (i k : ℕ)
    → l.lock ≡ 0
    → l.unlock ≡ 0
    → 0 < length name
    → find_in_dir (pos 0) name s ≡ pos i
    → open_existing (pos i) flags s ≡ (pos k, t)
    → open_passed l (path_of name) flags s ≡ some (pos k, t)
unfolding open_unsynchronized
open_passed-kept l s t name flags i k locked unlocked h found e =
    let q : lookup_unsynchronized (path_of name) s ≡ pos i =
      lookup_unsynchronized-path s name h ∙ found in
    rw (locked, q, e, unlocked, open_unsynchronized)

-- The race between tfs_open and tfs_destroy_after_all_closed: in a valid state with no handle
-- open, when both mutex calls of tfs_open succeed, the path is a slash and the non-empty name of a
-- file, and O_TRUNC is not set, tfs_destroy_after_all_closed returns 0 and an open that begins
-- afterwards returns -1; but an open that has passed its test of open_flag before still gives a
-- handle, and leaves a valid state in which the file system is shut down and one file is open.
pub open_passed-closed_down :
    (l : Locking) (s : State) (name : List ℕ) (flags : ℤ) (i : ℕ)
    → l.lock ≡ 0
    → l.unlock ≡ 0
    → IsValid s
    → open_count s ≡ 0
    → 0 < length name
    → find_in_dir (pos 0) name s ≡ pos i
    → has_flag flags tfs_o_trunc ≡ false
    → (tfs_destroy_after_all_closed s ≡ some (pos 0, closed_down s))
      × (tfs_open l (path_of name) flags (closed_down s) ≡ some (minus_one, closed_down s))
      × ((k : ℕ) × (u : State) × (open_passed l (path_of name) flags (closed_down s)
            ≡ some (pos k, u))
          × IsValid u
          × (u.open_flag ≡ false)
          × (u.open_files_count ≡ pos 1))
open_passed-closed_down l s name flags i locked unlocked v none_open h found kept =
    let t : State = closed_down s in
    let w : IsValid t = closed_down-IsValid v in
    let f : IsFile t (pos i) = found-IsFile name i v found in
    let offset : ℕ = if has_flag flags tfs_o_append then size_of t i else 0 in
    let (k, u, e, wu, fu, cu) =
      add_to_open_file_table-first t i offset w f (ground arith) none_open in
    (
      stops v none_open,
      tfs_open-closed l (path_of name) flags t refl,
      (
        k,
        u,
        open_passed-kept l t u name flags i k locked unlocked h
            (find_in_dir-closed_down (pos 0) name s ∙ found)
            (open_existing-kept i flags t f kept ∙ e),
        wu,
        fu,
        cu,
      ),
    )
