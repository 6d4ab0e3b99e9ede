-- ===== src/Net/Receiver.antt =====
-- parte-2/fs/tfs_server.c: the sessions, and the loop of main that gives each request to one.
-- The calls of read are taken to give all bytes that they ask for, or to wait.
use tecnicofs.Base.{
  ℕ, ◌+◌, ◌-◌, Bool, true, false, not, ◌&&◌, ◌||◌, Option, none, some, List, [], ◌∷◌, length, drop,
  get_or, ltb, leb, ◌==◌, if◌then◌else◌, update, ℤ, pos, negsuc, pos_part,
}
use tecnicofs.Memory.{Memory, write_bytes, memcpy, load_int}
use tecnicofs.Net.Wire.{buffer_size, load_size}

abbrev pub max_clients : ℕ
max_clients = 64

abbrev pub max_request_size : ℕ
max_request_size = 2048

pub record Session : Type 0 where
  pub session_id : ℤ
  pub is_active : Bool
  pub buffer : Memory

-- `sessions[i]` is at `i`.
pub record Server : Type 0 where
  pub next_session_id : ℕ
  pub sessions : ℕ → Session
  pub shutting_down : Bool
  pub shutdown_called : Bool

-- The state after start_sessions.
unfoldable pub start_sessions : Server
start_sessions = record {
  next_session_id = 1;
  sessions = λ i. record { session_id = pos (i + 1); is_active = false; buffer = λ _. 0 };
  shutting_down = false;
  shutdown_called = false;
}

-- What one turn of the loop of main does with the bytes of the pipe: it waits for more; it leaves
-- the table of sessions or a buffer; it ends the server; it refuses a client; or it gives the
-- request to the session `i`, whose thread it wakes, and leaves the rest of the pipe.
pub data Received : Type 0 where
  waits undefined ends : Received
  refused : Server → List ℕ → Received
  dispatched : ℕ → Server → List ℕ → Received

abbrev pub set_session : Server → ℕ → Session → Server
set_session s i x = record s { sessions = update s.sessions i x }

-- The memcpy of the operation's code to the start of the buffer, and of more behind it.
abbrev pub filled : Memory → ℕ → ℕ → List ℕ → Memory
filled m op n bytes = memcpy (write_bytes m 0 1 (λ _. op)) 1 bytes n

-- The session that a mount takes, with its number and its buffer, and the server then.
abbrev pub mounted : Server → List ℕ → Session
mounted s pipe =
    let i = s.next_session_id in
    record {
      session_id = pos i;
      is_active = true;
      buffer = filled (s.sessions (i - 1)).buffer 1 buffer_size pipe;
    }

abbrev pub mounting : Server → List ℕ → Server
mounting s pipe =
    set_session (record s { next_session_id = s.next_session_id + 1 }) (s.next_session_id - 1)
      (mounted s pipe)

-- The server after a refused mount.
abbrev pub refusing : Server → Server
refusing s =
    let i = s.next_session_id in
    let old = s.sessions (i - 1) in
    set_session (record s { next_session_id = i + 1 }) (i - 1)
      (record old { session_id = pos i; buffer = write_bytes old.buffer 0 1 (λ _. 1) })

-- The code counts before it tests, and tests only the number after this one.
unfoldable pub receive_mount : Server → List ℕ → Received
receive_mount s pipe =
    let i = s.next_session_id in
    if ltb max_clients i
    then undefined
    else if ltb (length pipe) buffer_size
    then waits
    else if ltb 64 (i + 1)
    then refused (refusing s) (drop buffer_size pipe)
    else dispatched (i - 1) (mounting s pipe) (drop buffer_size pipe)

-- How many bytes a request has behind the session's number; `none` for an unknown code.
unfoldable pub field_count : ℕ → List ℕ → Option ℕ
field_count op bytes =
    if op == 2 || op == 7
    then some 0
    else if op == 3
    then some (4 + buffer_size)
    else if op == 4
    then some 4
    else if op == 5
    then some (4 + 8 + load_size (λ k. get_or bytes k 0) 4)
    else if op == 6
    then some (4 + 8)
    else none

abbrev pub valid_session : ℤ → Bool
valid_session (pos n) = ltb 0 n && leb n max_clients
valid_session (negsuc n) = false

-- The session `i` after a request with `n` bytes behind the session's number was put into its
-- buffer.
abbrev pub delivered : Server → ℕ → ℕ → ℕ → List ℕ → Server
delivered s i op n pipe = set_session s i (record (s.sessions i) {
  is_active = true;
  buffer = filled (s.sessions i).buffer op (4 + n) pipe;
})

-- A request other than a mount. An invalid number leaves the table before it is tested.
unfoldable pub receive_request : Server → ℕ → List ℕ → Received
receive_request s op pipe =
    let id = load_int (λ k. get_or pipe k 0) 0 in
    let rest = drop 4 pipe in
    if ltb (length pipe) 4
    then waits
    else if not (valid_session id)
    then undefined
    else elim (field_count op rest) [
      | none ↦ ends
      | some n ↦
          if ltb (length rest) n
          then waits
          else if ltb max_request_size (1 + 4 + n)
          then undefined
          else dispatched (pos_part id - 1) (delivered s (pos_part id - 1) op n pipe) (drop n rest)
    ]

unfoldable pub receive : Server → List ℕ → Received
receive s [] = waits
receive s (op ∷ pipe) = if op == 1 then receive_mount s pipe else receive_request s op pipe
