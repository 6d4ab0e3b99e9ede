-- ===== src/Net/Ranges/Ints.antt =====
-- parte-2/fs/operations.c: the results of tfs_open, tfs_close and tfs_destroy_after_all_closed are values of an `int`.
use tecnicofs.Base.{
  ℕ, arith, inl, inr, Bool, true, false, not, ◌||◌, ◌==◌, Bool-cases, Option-cases, Option, none,
  some, if◌then◌else◌, ℤ, pos, minus_one, is_minus_one, is_nonneg, is_zero, pos_part, IsInt,
}
use tecnicofs.Fs.State.{State, max_open_files, t_file, is_taken, root_dir_inum}
use tecnicofs.Fs.Blocks.{first_free, valid_file_handle}
use tecnicofs.Fs.Blocks.Search.{first_free-some}
use tecnicofs.Fs.Inodes.{inode_get, inode_create, inode_delete}
use tecnicofs.Fs.Dir.{add_dir_entry}
use tecnicofs.Fs.OpenFiles.{add_to_open_file_table, remove_from_open_file_table}
use tecnicofs.Fs.Operations.{
  Name, skip_first, lookup_unsynchronized, has_flag, tfs_o_creat, truncate, open_existing, open_new,
  open_unsynchronized,
}
use tecnicofs.Fs.Operations.Api.{
  Locking, after_unlock, tfs_open, tfs_close, tfs_destroy_after_all_closed,
}

minus_one-IsInt : IsInt minus_one
minus_one-IsInt = omega arith

add_to_open_file_table-IsInt : (z : ℤ) (o : ℕ) (s : State) → IsInt (add_to_open_file_table z o s).0
unfolding add_to_open_file_table
add_to_open_file_table-IsInt z o s =
    elim (Option-cases (first_free max_open_files 0 s.free_open_file_entries)) [
      | inl e ↦ rw (e, add_to_open_file_table) (minus_one-IsInt)
      | inr (k, e) ↦
          let found = first_free-some s.free_open_file_entries max_open_files 0 k e in
          rw (e, add_to_open_file_table) (omega (arith, found.1))
    ]

chosen-IsInt :
    {S : Type 0} (b : Bool) (x y : ℤ × S) → IsInt x.0 → IsInt y.0 → IsInt (if b then x else y).0
chosen-IsInt true x y p q = p
chosen-IsInt false x y p q = q

open_existing-IsInt : (z flags : ℤ) (s : State) → IsInt (open_existing z flags s).0
unfolding open_existing
open_existing-IsInt z flags s = elim (Option-cases (inode_get z)) [
  | inl e ↦ rw (e, open_existing) (minus_one-IsInt)
  | inr (i, e) ↦
      rw (e, open_existing)
        (chosen-IsInt (truncate i flags s).0 _ _ (add_to_open_file_table-IsInt z _ _)
          minus_one-IsInt)
]

-- Every result that there is has a value that is an `int`.
abbrev pub IntResult : Option (ℤ × State) → Type 0
IntResult none = Unit {0}
IntResult (some (ret, t)) = IsInt ret

IntResult-some : (x : ℤ × State) → IsInt x.0 → IntResult (some x)
IntResult-some (z, t) h = h

chosen-IntResult :
    (b : Bool) (x y : Option (ℤ × State))
    → IntResult x
    → IntResult y
    → IntResult (if b then x else y)
chosen-IntResult true x y p q = p
chosen-IntResult false x y p q = q

entered-IsInt :
    (z : ℤ) (d : ℤ × State)
    → IsInt
        (if is_minus_one d.0
          then (minus_one, (inode_delete z d.1).1)
          else add_to_open_file_table z 0 d.1).0
entered-IsInt z d =
    chosen-IsInt (is_minus_one d.0) (minus_one, (inode_delete z d.1).1)
      (add_to_open_file_table z 0 d.1) minus_one-IsInt (add_to_open_file_table-IsInt z 0 d.1)

open_new-IntResult : (name : Name) (s : State) → IntResult (open_new name s)
unfolding open_new
open_new-IntResult name s = elim (Option-cases (skip_first name)) [
  | inl e ↦
      rw (e, open_new)
        (chosen-IntResult (is_minus_one (inode_create t_file s).0) _ _ minus_one-IsInt tt)
  | inr (rest, e) ↦
      rw (e, open_new)
        (chosen-IntResult (is_minus_one (inode_create t_file s).0) _ _ minus_one-IsInt (
          entered-IsInt (inode_create t_file s).0 (
            add_dir_entry (pos root_dir_inum) (inode_create t_file s).0 rest
              (inode_create t_file s).1)))
]

open_unsynchronized-IntResult :
    (name : Name) (flags : ℤ) (s : State) → IntResult (open_unsynchronized name flags s)
unfolding open_unsynchronized
open_unsynchronized-IntResult name flags s =
    chosen-IntResult (is_nonneg (lookup_unsynchronized name s)) _ _
      (open_existing-IsInt (lookup_unsynchronized name s) flags s)
      (chosen-IntResult (has_flag flags tfs_o_creat) _ _ (open_new-IntResult name s)
        minus_one-IsInt)

after_unlock-IsInt : (l : Locking) (z : ℤ) → IsInt z → IsInt (after_unlock l z)
after_unlock-IsInt l z h = elim (Bool-cases (l.unlock == 0)) [
  | inl e ↦ rw e h
  | inr e ↦ rw e minus_one-IsInt
]

unlocked-IntResult :
    (l : Locking) (r : Option (ℤ × State))
    → IntResult r
    → IntResult (elim r [ none ↦ none | some (ret, s) ↦ some (after_unlock l ret, s) ])
unlocked-IntResult l none h = tt
unlocked-IntResult l (some (ret, s)) h = after_unlock-IsInt l ret h

pub tfs_open-IntResult :
    (l : Locking) (name : Name) (flags : ℤ) (s : State) → IntResult (tfs_open l name flags s)
unfolding tfs_open
tfs_open-IntResult l name flags s = chosen-IntResult (not s.open_flag) _ _ minus_one-IsInt (
    chosen-IntResult (l.lock == 0) _ _
      (unlocked-IntResult l (open_unsynchronized name flags s)
        (open_unsynchronized-IntResult name flags s))
      minus_one-IsInt)

remove_from_open_file_table-IsInt : (z : ℤ) (s : State) → IsInt (remove_from_open_file_table z s).0
unfolding remove_from_open_file_table
remove_from_open_file_table-IsInt z s =
    chosen-IsInt
      (not (valid_file_handle z) || not (is_taken (s.free_open_file_entries (pos_part z)))) _ _
      minus_one-IsInt (omega arith)

pub tfs_close-IsInt : (l : Locking) (z : ℤ) (s : State) → IsInt (tfs_close l z s).0
unfolding tfs_close
tfs_close-IsInt l z s =
    chosen-IsInt (not (l.lock == 0)) _ _ minus_one-IsInt
      (after_unlock-IsInt l _ (remove_from_open_file_table-IsInt z s))

pub tfs_destroy_after_all_closed-IntResult :
    (s : State) → IntResult (tfs_destroy_after_all_closed s)
unfolding tfs_destroy_after_all_closed
tfs_destroy_after_all_closed-IntResult s =
    chosen-IntResult (is_zero s.open_files_count) _ _ (omega arith) tt
