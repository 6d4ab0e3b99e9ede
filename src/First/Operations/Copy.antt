-- ===== src/First/Operations/Copy.antt =====
-- parte-1/fs/operations.c: tfs_copy_to_external_fs. The file outside is the list of the bytes that
-- are in it; what fopen, malloc and fwrite do is given by arguments.
use tecnicofs.Base.{
  ℕ, zero, suc, Bool, true, false, none, some, List, [], ◌++◌, take, length, ◌==◌, if◌then◌else◌, ℤ,
  pos, minus_one, is_minus_one, pos_part,
}
use tecnicofs.Fs.State.{block_size}
use tecnicofs.Fs.Operations.{Name}
use tecnicofs.First.State.{State, Outcome, running, done, ◌>>=◌}
use tecnicofs.First.Inodes.{inode_get}
use tecnicofs.First.OpenFiles.{get_open_file_entry}
use tecnicofs.First.Operations.{tfs_open, tfs_close}
use tecnicofs.First.Operations.Read.{tfs_read}

-- `opened` if fopen succeeds, `allocated` if malloc does, and how many of the bytes it is given
-- fwrite writes.
pub record Outside : Type 0 where
  pub opened : Bool
  pub allocated : Bool
  pub fwrite : List ℕ → ℕ

-- The result, the bytes of the file outside, and the state.
abbrev pub Copied : Type 0
Copied = ℤ × List ℕ × State

-- One round, behind the bytes `copied`, with what tfs_read gave; `next` is the rest of the loop.
unfoldable pub copy_round :
    (List ℕ → State → Outcome Copied) → Outside → List ℕ → ℤ × List ℕ × State → Outcome Copied
copy_round next o copied (bytes_read, buffer, s) =
    let bytes = take (pos_part bytes_read) buffer in
    let all = copied ++ take (o.fwrite bytes) bytes in
    elim (is_minus_one bytes_read) [
      | true ↦ done (minus_one, copied, s)
      | false ↦ elim (o.fwrite bytes == length bytes) [
        | false ↦ done (minus_one, all, s)
        | true ↦ elim (pos_part bytes_read == block_size) [
          | true ↦ next all s
          | false ↦ done (pos 0, all, s)
        ]
      ]
    ]

-- The loop, at most `fuel` rounds.
unfoldable pub copy_loop : ℕ → Outside → ℤ → List ℕ → State → Outcome Copied
copy_loop zero o handle copied s = running
copy_loop (suc fuel) o handle copied s =
    tfs_read handle block_size s >>= copy_round (λ all s'. copy_loop fuel o handle all s') o copied

-- What the copy gives when the handle is closed.
abbrev pub close_finish : List ℕ → ℤ × State → Outcome Copied
close_finish bytes (closed, s) = done (if is_minus_one closed then minus_one else pos 0, bytes, s)

-- Behind the loop the handle is closed, if the loop did not return -1.
unfoldable pub close_source : ℤ → Copied → Outcome Copied
close_source handle (ret, bytes, s) = elim (is_minus_one ret) [
  | true ↦ done (minus_one, bytes, s)
  | false ↦ tfs_close handle s >>= close_finish bytes
]

-- The part behind tfs_open.
unfoldable pub copy_opened : ℕ → Outside → ℤ → State → Outcome Copied
copy_opened fuel o handle s = elim (get_open_file_entry handle) [
  | none ↦ done (minus_one, [], s)
  | some h ↦ elim (inode_get (s.open_file_table h).of_inumber) [
    | none ↦ done (minus_one, [], s)
    | some i ↦ elim o.opened [
      | false ↦ done (minus_one, [], s)
      | true ↦ elim o.allocated [
        | false ↦ done (minus_one, [], s)
        | true ↦ copy_loop fuel o handle [] s >>= close_source handle
      ]
    ]
  ]
]

abbrev pub copy_handle : ℕ → Outside → ℤ × State → Outcome Copied
copy_handle fuel o (handle, s) =
    if is_minus_one handle then done (minus_one, [], s) else copy_opened fuel o handle s

unfoldable pub tfs_copy_to_external_fs : ℕ → Outside → Name → State → Outcome Copied
tfs_copy_to_external_fs fuel o source_path s = tfs_open source_path (pos 0) s >>= copy_handle fuel o
