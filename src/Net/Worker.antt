-- ===== src/Net/Worker.antt =====
-- parte-2/fs/tfs_server.c: the handlers of a session's thread. Each reads a request from the
-- session's buffer, calls the file system and writes the answer to the client's pipe: the bytes
-- are the result. `none` is undefined behaviour, or the wait of tfs_destroy_after_all_closed.
-- The calls of write to the client and malloc are taken to succeed.
use tecnicofs.Base.{
  ℕ, ◌+◌, ◌*◌, true, false, ◌&&◌, Option, none, some, List, [], ◌==◌, if◌then◌else◌, ℤ, pos,
  minus_one, is_nonneg,
}
use tecnicofs.Memory.{Memory, read_bytes, load_int, write_bytes}
use tecnicofs.Fs.State.{State}
use tecnicofs.Fs.Operations.Api.{
  Locking, tfs_open, tfs_close, tfs_write, tfs_read, tfs_destroy_after_all_closed,
}
use tecnicofs.Net.Wire.{buffer_size, int_bytes, size_bytes, unsigned64, load_size, c_string}
use tecnicofs.Net.Receiver.{Server, Session, set_session}

-- The bytes for the client, and the file system.
abbrev pub Answer : Type 0
Answer = Option (List ℕ × State)

-- The client's pipe is taken to open, and which pipe that is is not kept.
unfoldable pub case_mount : ℤ → State → Answer
case_mount session_id s = some (int_bytes session_id [], s)

unfoldable pub case_open : Locking → Memory → State → Answer
case_open l buffer s = elim (c_string (read_bytes buffer (1 + 2 * 4) buffer_size)) [
  | none ↦ none
  | some filename ↦ elim (tfs_open l (some filename) (load_int buffer (1 + 4)) s) [
    | none ↦ none
    | some (ret, t) ↦ some (int_bytes ret [], t)
  ]
]

unfoldable pub case_close : Locking → Memory → State → Answer
case_close l buffer s =
    let (ret, t) = tfs_close l (load_int buffer (1 + 4)) s in some (int_bytes ret [], t)

unfoldable pub case_write : Locking → Memory → State → Answer
case_write l buffer s =
    let len = load_size buffer (1 + 2 * 4) in
    elim (tfs_write l (load_int buffer (1 + 4)) (read_bytes buffer (1 + 2 * 4 + 8) len) len s) [
      | none ↦ none
      | some (ret, t) ↦ some (size_bytes (unsigned64 ret) [], t)
    ]

-- For a result of -1 the code writes (size_t)-1 bytes of the buffer, which leaves it.
unfoldable pub case_read : Locking → Memory → State → Answer
case_read l buffer s =
    elim (tfs_read l (load_int buffer (1 + 4)) (load_size buffer (1 + 2 * 4)) s) [
      | none ↦ none
      | some (ret, bytes, t) ↦
          if is_nonneg ret then some (size_bytes (unsigned64 ret) bytes, t) else none
    ]

unfoldable pub case_unmount : State → Answer
case_unmount s = some (int_bytes (pos 0) [], s)

unfoldable pub case_shutdown : State → Answer
case_shutdown s = elim (tfs_destroy_after_all_closed s) [
  | none ↦ none
  | some (ret, t) ↦ some (int_bytes ret [], t)
]

-- The switch on the operation's code. For a mount the answer is the session's number.
unfoldable pub handle : Locking → ℤ → Memory → State → Answer
handle l session_id buffer s =
    let op = buffer 0 in
    if op == 1
    then case_mount session_id s
    else if op == 2
    then case_unmount s
    else if op == 3
    then case_open l buffer s
    else if op == 4
    then case_close l buffer s
    else if op == 5
    then case_write l buffer s
    else if op == 6
    then case_read l buffer s
    else if op == 7
    then case_shutdown s
    else some ([], s)

-- The session after a request: not active, and its buffer starts with a zero.
abbrev pub finished : Session → Session
finished x = record x { is_active = false; buffer = write_bytes x.buffer 0 1 (λ _. 0) }

-- One turn of thread_handler for the session `i`, once it is active: a second shutdown is refused
-- and ends the thread.
unfoldable pub thread_turn : Locking → ℕ → Server → State → Option (List ℕ × Server × State)
thread_turn l i v s =
    let x = v.sessions i in
    let stops = x.buffer 0 == 7 in
    let v' = if stops then record v { shutdown_called = true } else v in
    if v.shutdown_called && stops
    then some (int_bytes minus_one [], set_session v i (record x { is_active = true }), s)
    else elim (handle l x.session_id x.buffer s) [
      | none ↦ none
      | some (answer, t) ↦ some (answer, set_session v' i (finished x), t)
    ]
