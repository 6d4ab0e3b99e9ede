-- ===== src/Net/Ranges.antt =====
-- Every call of a client through the server of parte-2, against the call of the file system: the
-- results of the file system are values of the C types that the answers carry.
mod Ints
mod Sizes
mod Reads
mod Tests
use tecnicofs.Base.{
  ℕ, zero, suc, ◌+◌, ◌-◌, ◌%◌, ◌≤◌, ◌<◌, ◌≡◌, ◌∙◌, sym, subst, ap, refl, arith, inl, inr, Bool,
  true, false, not, ◌&&◌, ◌||◌, ◌==◌, Bool-cases, Option-cases, Option, none, some, List, [],
  length, length-take, take, ltb, leb, if◌then◌else◌, ℤ, pos, negsuc, minus_one, is_minus_one,
  is_nonneg, is_zero, pos_part, IsInt, signed64,
}
use tecnicofs.Memory.{read_bytes}
use tecnicofs.Memory.Blocks.{length-read_bytes}
use tecnicofs.Fs.State.{
  State, max_open_files, t_file, is_taken, block_size, fs_data_size, root_dir_inum,
}
use tecnicofs.Fs.Blocks.{first_free, valid_file_handle, data_block_get}
use tecnicofs.Fs.Blocks.Search.{first_free-some}
use tecnicofs.Fs.Inodes.{inode_get, inode_create, inode_delete}
use tecnicofs.Fs.Dir.{add_dir_entry}
use tecnicofs.Fs.OpenFiles.{
  add_to_open_file_table, remove_from_open_file_table, get_open_file_entry,
}
use tecnicofs.Fs.Operations.{
  Name, skip_first, lookup_unsynchronized, has_flag, tfs_o_creat, tfs_o_append, truncate,
  open_existing, open_new, open_unsynchronized, size_mod, write_size, write_entry,
  write_unsynchronized, ensure_block, read_size, read_entry, read_unsynchronized, set_offset,
}
use tecnicofs.Fs.Operations.Api.{
  Locking, after_unlock, tfs_open, tfs_close, tfs_write, tfs_read, tfs_destroy_after_all_closed,
}
use tecnicofs.Net.Client.{Request, unmounts, shuts_down, opens, closes, writes, reads}
use tecnicofs.Net.Fields.{Sendable}
use tecnicofs.Net.Remote.{
  IsSize, InRange, local_result, expected, remote-local, results_same, none≢result,
}
use tecnicofs.Net.Answers.{client_result}
use tecnicofs.Net.Requests.{served}
use tecnicofs.Net.Ranges.Ints.{
  IntResult, tfs_open-IntResult, tfs_close-IsInt, tfs_destroy_after_all_closed-IntResult,
}
use tecnicofs.Net.Ranges.Sizes.{SizeResult, tfs_write-SizeResult}
use tecnicofs.Net.Ranges.Reads.{ReadRange, tfs_read-ReadRange}

-- The server has an answer for every result but a read's that is negative.
abbrev Answerable : Request → ℤ → Type 0
Answerable unmounts ret = Unit {0}
Answerable shuts_down ret = Unit {0}
Answerable (opens name flags) ret = Unit {0}
Answerable (closes fhandle) ret = Unit {0}
Answerable (writes fhandle buffer len) ret = Unit {0}
Answerable (reads fhandle len) ret = is_nonneg ret ≡ true

local_result-InRange :
    (l : Locking) (r : Request) (s t : State) (ret : ℤ) (bytes : List ℕ)
    → Sendable r
    → local_result l r s ≡ some (ret, bytes, t)
    → Answerable r ret
    → InRange r ret bytes
local_result-InRange l unmounts s t ret bytes h e a =
    let (er, et, eb) = results_same e in (subst IsInt er (omega arith), sym eb)
local_result-InRange l shuts_down s t ret bytes h e a =
    elim (Option-cases (tfs_destroy_after_all_closed s)) [
      | inl q ↦ absurd (none≢result (rw (q, local_result) at e))
      | inr ((z, u), q) ↦
          let (er, et, eb) = results_same (rw (q, local_result) at e) in
          (subst IsInt er (subst IntResult q (tfs_destroy_after_all_closed-IntResult s)), sym eb)
    ]
local_result-InRange l (opens name flags) s t ret bytes h e a =
    elim (Option-cases (tfs_open l (some name) flags s)) [
      | inl q ↦ absurd (none≢result (rw (q, local_result) at e))
      | inr ((z, u), q) ↦
          let (er, et, eb) = results_same (rw (q, local_result) at e) in
          (subst IsInt er (subst IntResult q (tfs_open-IntResult l (some name) flags s)), sym eb)
    ]
local_result-InRange l (closes fhandle) s t ret bytes h e a =
    let (er, et, eb) = results_same e in (subst IsInt er (tfs_close-IsInt l fhandle s), sym eb)
local_result-InRange l (writes fhandle buffer len) s t ret bytes (z, enough, small) e a =
    elim (Option-cases (tfs_write l fhandle (take len buffer) len s)) [
      | inl q ↦ absurd (none≢result (rw (q, local_result) at e))
      | inr ((z, u), q) ↦
          let (er, et, eb) = results_same (rw (q, local_result) at e) in
          (
            subst IsSize er (
                subst SizeResult q
                  (tfs_write-SizeResult l fhandle (take len buffer) len s (omega (arith, small)))),
            sym eb,
          )
    ]
local_result-InRange l (reads fhandle len) s t ret bytes h e a =
    subst (ReadRange len) e (tfs_read-ReadRange l fhandle len s) a

-- When the call of the file system that a request of a client stands for returns, and is not a
-- read that fails, the answer of the server carries its result: the client's function returns the
-- same value and bytes, except that a read of at least one byte which finds none leaves the client
-- waiting. The request has values of the C types, a path that is a string of less than 40 bytes,
-- and a write that fits the session's buffer.
pub remote_call-local_result :
    (l : Locking) (r : Request) (s t : State) (ret : ℤ) (bytes : List ℕ)
    → Sendable r
    → local_result l r s ≡ some (ret, bytes, t)
    → Answerable r ret
    → (answer : List ℕ) × (served l r s ≡ some (answer, t))
      × (client_result r answer ≡ expected r ret bytes)
remote_call-local_result l r s t ret bytes h e a =
    remote-local l r s t ret bytes e (local_result-InRange l r s t ret bytes h e a)
