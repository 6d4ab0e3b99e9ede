-- ===== src/Fs/Operations/Api.antt =====
-- parte-2/fs/operations.c: the functions that a client of the library calls. Each takes the global
-- lock, runs the unsynchronized function and gives the lock back; what pthread_mutex_lock and
-- pthread_mutex_unlock return is an argument.
use tecnicofs.Base.{
  ℕ, Bool, not, Option, none, some, List, [], ◌==◌, if◌then◌else◌, ℤ, pos, minus_one, is_zero,
}
use tecnicofs.Fs.State.{State}
use tecnicofs.Fs.OpenFiles.{remove_from_open_file_table}
use tecnicofs.Fs.Operations.{
  Name, lookup_unsynchronized, open_unsynchronized, write_unsynchronized, read_unsynchronized,
}

-- The results of the two calls for `single_global_lock`, 0 for success.
pub record Locking : Type 0 where
  pub lock : ℕ
  pub unlock : ℕ

-- What a caller sees of `ret`: -1 if the lock cannot be given back.
abbrev pub after_unlock : Locking → ℤ → ℤ
after_unlock l ret = if l.unlock == 0 then ret else minus_one

unfoldable pub tfs_lookup : Locking → Name → State → ℤ
tfs_lookup l name s =
    if l.lock == 0 then after_unlock l (lookup_unsynchronized name s) else minus_one

-- What tfs_open does once its test of `open_flag` has passed; open_files_mutex is given back between.
abbrev pub open_passed : Locking → Name → ℤ → State → Option (ℤ × State)
open_passed l name flags s =
    if l.lock == 0
    then elim (open_unsynchronized name flags s) [
      | none ↦ none
      | some (ret, s') ↦ some (after_unlock l ret, s')
    ]
    else some (minus_one, s)

unfoldable pub tfs_open : Locking → Name → ℤ → State → Option (ℤ × State)
tfs_open l name flags s =
    if not s.open_flag then some (minus_one, s) else open_passed l name flags s

unfoldable pub tfs_close : Locking → ℤ → State → ℤ × State
tfs_close l fhandle s =
    let (r, s') = remove_from_open_file_table fhandle s in
    if not (l.lock == 0) then (minus_one, s) else (after_unlock l r, s')

unfoldable pub tfs_write : Locking → ℤ → List ℕ → ℕ → State → Option (ℤ × State)
tfs_write l fhandle buffer to_write s =
    if l.lock == 0
    then elim (write_unsynchronized fhandle buffer to_write s) [
      | none ↦ none
      | some (ret, s') ↦ some (after_unlock l ret, s')
    ]
    else some (minus_one, s)

unfoldable pub tfs_read : Locking → ℤ → ℕ → State → Option (ℤ × List ℕ × State)
tfs_read l fhandle len s =
    if l.lock == 0
    then elim (read_unsynchronized fhandle len s) [
      | none ↦ none
      | some (ret, bytes, s') ↦ some (after_unlock l ret, bytes, s')
    ]
    else some (minus_one, [], s)

-- `none` while it waits: the loop on `open_files_count` is left only when no file is open.
-- state_destroy does nothing.
unfoldable pub tfs_destroy_after_all_closed : State → Option (ℤ × State)
tfs_destroy_after_all_closed s =
    if is_zero s.open_files_count then some (pos 0, record s { open_flag = Bool.false }) else none

-- `pthread_mutex_destroy` gives its result.
unfoldable pub tfs_destroy : ℕ → State → ℤ × State
tfs_destroy destroyed s = if destroyed == 0 then (pos 0, s) else (minus_one, s)
