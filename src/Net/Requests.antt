-- ===== src/Net/Requests.antt =====
-- A request of a client, from its bytes in the pipe of parte-2/fs/tfs_server.c to the answer of the
-- session's thread.
use tecnicofs.Base.{
  ℕ, ◌+◌, ◌<◌, ◌≡◌, ◌≢◌, ◌∙◌, ap, ap₂, sym, refl, arith, true, Option, none, some, List, [], ◌∷◌,
  ◌++◌, length, length-append, length-take, take, get_or, ◌==◌, if◌then◌else◌, ◌&&◌, inl, ℤ, pos,
  minus_one, is_nonneg,
}
use tecnicofs.Memory.{Memory, memcpy, write_bytes, read_bytes, load_int}
use tecnicofs.Memory.Blocks.{write_bytes_in, write_bytes_out}
use tecnicofs.Fs.State.{State}
use tecnicofs.Fs.Operations.Api.{
  Locking, tfs_open, tfs_close, tfs_write, tfs_read, tfs_destroy_after_all_closed,
}
use tecnicofs.Net.Wire.{
  buffer_size, int_bytes, size_bytes, unsigned64, load_size, name_field, c_string,
  length-name_field, c_string-name_field, take-name_field,
}
use tecnicofs.Net.Client.{
  Request, opens, closes, writes, reads, unmounts, shuts_down, op_code, server_request,
}
use tecnicofs.Net.Receiver.{
  Server, dispatched, max_clients, filled, delivered, receive, set_session,
}
use tecnicofs.Net.Worker.{
  Answer, case_open, case_close, case_write, case_read, case_unmount, case_shutdown, handle,
  thread_turn, finished,
}
use tecnicofs.Net.Fields.{
  Sendable, fields_of, read_bytes-filled, receive-fields, first_int, second_size,
  request_fields-Sendable, field_count-Sendable, length-fields_of, op_code-other, take-length,
}

-- What the call of the file system itself gives, as the bytes of the answer.
abbrev pub served : Locking → Request → State → Answer
served l unmounts s = some (int_bytes (pos 0) [], s)
served l shuts_down s = elim (tfs_destroy_after_all_closed s) [
  | none ↦ none
  | some (ret, t) ↦ some (int_bytes ret [], t)
]
served l (opens name flags) s = elim (tfs_open l (some name) flags s) [
  | none ↦ none
  | some (ret, t) ↦ some (int_bytes ret [], t)
]
served l (closes fhandle) s = let (ret, t) = tfs_close l fhandle s in some (int_bytes ret [], t)
served l (writes fhandle buffer len) s = elim (tfs_write l fhandle (take len buffer) len s) [
  | none ↦ none
  | some (ret, t) ↦ some (size_bytes (unsigned64 ret) [], t)
]
served l (reads fhandle len) s = elim (tfs_read l fhandle len s) [
  | none ↦ none
  | some (ret, bytes, t) ↦
      if is_nonneg ret then some (size_bytes (unsigned64 ret) bytes, t) else none
]

pub filled-op : (m : Memory) (op n : ℕ) (bytes : List ℕ) → filled m op n bytes 0 ≡ op
unfolding memcpy
filled-op m op n bytes =
    write_bytes_out (write_bytes m 0 1 (λ _. op)) 1 n (λ k. get_or bytes k 0) 0 (inl (omega arith))
    ∙ write_bytes_in m 0 1 (λ _. op) 0 0 (omega arith) refl

-- The buffer of a session that was given the request.
abbrev pub with_request : Memory → ℤ → Request → List ℕ → Memory
with_request m id r rest =
    filled m (op_code r) (4 + length (fields_of r)) (int_bytes id (fields_of r ++ rest))

module _ (l : Locking) (m : Memory) (id : ℤ) (rest : List ℕ) (s : State) where
  case_open-served :
      (name : List ℕ) (flags : ℤ)
      → Sendable (opens name flags)
      → case_open l (with_request m id (opens name flags) rest) s ≡ served l (opens name flags) s
  unfolding case_open
  case_open-served name flags (hs, lt, z) =
      let field : List ℕ = name_field buffer_size name in
      let size : length field ≡ buffer_size = length-name_field buffer_size name in
      let buf : Memory = with_request m id (opens name flags) rest in
      let n : ℕ = 4 + length (fields_of (opens name flags)) in
      let all : List ℕ = int_bytes id (int_bytes flags (field ++ rest)) in
      let read_name : read_bytes buf 9 buffer_size ≡ field =
        read_bytes-filled m 3 n all 8 buffer_size (omega arith)
          (omega (arith, length-append field rest))
        ∙ take-name_field buffer_size name rest in
      let read_flags : load_int buf 5 ≡ flags =
        first_int m 3 n id flags (field ++ rest) z (omega arith) in
      let string : c_string (read_bytes buf 9 buffer_size) ≡ some name =
        ap (λ xs. c_string xs) read_name ∙ c_string-name_field buffer_size name hs lt in
      rw (string, read_flags, case_open) refl

  case_close-served :
      (fhandle : ℤ)
      → Sendable (closes fhandle)
      → case_close l (with_request m id (closes fhandle) rest) s ≡ served l (closes fhandle) s
  unfolding case_close
  case_close-served fhandle z =
      let read_handle : load_int (with_request m id (closes fhandle) rest) 5 ≡ fhandle =
        first_int m 4 8 id fhandle rest z (omega arith) in
      rw (read_handle, case_close) refl

  case_write-served :
      (fhandle : ℤ) (buffer : List ℕ) (len : ℕ)
      → Sendable (writes fhandle buffer len)
      → case_write l (with_request m id (writes fhandle buffer len) rest) s
        ≡ served l (writes fhandle buffer len) s
  unfolding case_write
  case_write-served fhandle buffer len (z, le, fit) =
      let data_bytes : List ℕ = take len buffer in
      let size : length data_bytes ≡ len = omega (arith, length-take len buffer) in
      let n : ℕ = 4 + length (fields_of (writes fhandle buffer len)) in
      let buf : Memory = with_request m id (writes fhandle buffer len) rest in
      let all : List ℕ = int_bytes id (int_bytes fhandle (size_bytes len (data_bytes ++ rest))) in
      let read_handle : load_int buf 5 ≡ fhandle =
        first_int m 5 n id fhandle (size_bytes len (data_bytes ++ rest)) z (omega arith) in
      let read_len : load_size buf 9 ≡ len =
        second_size m 5 n len id fhandle (data_bytes ++ rest) (omega arith) (omega arith) in
      let read_data : read_bytes buf 17 len ≡ data_bytes =
        read_bytes-filled m 5 n all 16 len (omega arith)
          (omega (arith, length-append data_bytes rest))
        ∙ take-length len data_bytes rest (sym size) in
      rw (read_handle, read_len, read_data, case_write) refl

  case_read-served :
      (fhandle : ℤ) (len : ℕ)
      → Sendable (reads fhandle len)
      → case_read l (with_request m id (reads fhandle len) rest) s ≡ served l (reads fhandle len) s
  unfolding case_read
  case_read-served fhandle len (z, lt) =
      let buf : Memory = with_request m id (reads fhandle len) rest in
      let read_handle : load_int buf 5 ≡ fhandle =
        first_int m 6 16 id fhandle (size_bytes len rest) z (omega arith) in
      let read_len : load_size buf 9 ≡ len =
        second_size m 6 16 len id fhandle rest lt (omega arith) in
      rw (read_handle, read_len, case_read) refl

  pub handle-served :
      (k : ℤ) (r : Request) → Sendable r → handle l k (with_request m id r rest) s ≡ served l r s
  unfolding handle case_unmount case_shutdown
  handle-served k unmounts h = rw (filled-op m 2 4 (int_bytes id rest), handle) refl
  handle-served k shuts_down h = rw (filled-op m 7 4 (int_bytes id rest), handle) refl
  handle-served k (opens name flags) h =
      let f : List ℕ = fields_of (opens name flags) in
      rw (filled-op m 3 (4 + length f) (int_bytes id (f ++ rest)), handle)
        (case_open-served name flags h)
  handle-served k (closes fhandle) h =
      rw (filled-op m 4 8 (int_bytes id (int_bytes fhandle rest)), handle)
        (case_close-served fhandle h)
  handle-served k (writes fhandle buffer len) h =
      let f : List ℕ = fields_of (writes fhandle buffer len) in
      rw (filled-op m 5 (4 + length f) (int_bytes id (f ++ rest)), handle)
        (case_write-served fhandle buffer len h)
  handle-served k (reads fhandle len) h =
      rw (filled-op m 6 16 (int_bytes id (int_bytes fhandle (size_bytes len rest))), handle)
        (case_read-served fhandle len h)

-- One turn of the session's thread with the result of the file system's call: a second shutdown is
-- refused; any other request is answered, and the session waits again.
abbrev pub turned : Server → ℕ → ℕ → Answer → State → Option (List ℕ × Server × State)
turned v i op answer s =
    let stops = op == 7 in
    let v' = if stops then record v { shutdown_called = true } else v in
    if v.shutdown_called && stops
    then some
        (int_bytes minus_one [], set_session v i (record (v.sessions i) { is_active = true }), s)
    else elim answer [
      | none ↦ none
      | some (bytes, t) ↦ some (bytes, set_session v' i (finished (v.sessions i)), t)
    ]

thread_turn-served :
    (l : Locking) (i : ℕ) (v : Server) (m : Memory) (id : ℤ) (r : Request) (rest : List ℕ)
    (s : State)
    → Sendable r
    → (v.sessions i).buffer ≡ with_request m id r rest
    → thread_turn l i v s ≡ turned v i (op_code r) (served l r s) s
unfolding thread_turn
thread_turn-served l i v m id r rest s h e =
    let code : (v.sessions i).buffer 0 ≡ op_code r =
      ap (λ b. b 0) e
      ∙ filled-op m (op_code r) (4 + length (fields_of r)) (int_bytes id (fields_of r ++ rest)) in
    let answer : handle l (v.sessions i).session_id (v.sessions i).buffer s ≡ served l r s =
      ap (λ b. handle l (v.sessions i).session_id b s) e
      ∙ handle-served l m id rest s (v.sessions i).session_id r h in
    ap₂ (λ op a. turned v i op a s) code answer

-- A request that a client sends in one of the 64 sessions, with values of the C types, a path that
-- is a string of less than 40 bytes and a write that fits the session's buffer, is taken by main
-- exactly: the bytes behind it stay in the pipe, and no other session changes. One turn of the
-- session's thread then does what the call of the file system with the client's arguments does,
-- and writes its result as the answer, except that a second shutdown is refused with -1.
pub request-turned :
    (v : Server) (i : ℕ) (r : Request) (rest : List ℕ) (l : Locking) (s : State)
    → i < max_clients
    → Sendable r
    → (bytes : List ℕ) × (server_request (pos (i + 1)) r ≡ some bytes)
      × ((t : Server) × (receive v (bytes ++ rest) ≡ dispatched i t rest)
          × ((j : ℕ) → j ≢ i → t.sessions j ≡ v.sessions j)
          × (thread_turn l i t s ≡ turned t i (op_code r) (served l r s) s))
unfolding server_request
request-turned v i r rest l s lt h =
    let f : List ℕ = fields_of r in
    let n : ℕ = length f in
    let id : ℤ = pos (i + 1) in
    let t : Server = delivered v i (op_code r) n (int_bytes id (f ++ rest)) in
    let given : (t.sessions i).buffer ≡ with_request (v.sessions i).buffer id r rest =
      ground arith in
    (
      op_code r ∷ int_bytes id f,
      rw (request_fields-Sendable r h, server_request) refl,
      (
        t,
        receive-fields v i (op_code r) f rest (op_code-other r) lt (field_count-Sendable r rest h)
            (length-fields_of r h),
        λ j ne. ground arith,
        thread_turn-served l i t (v.sessions i).buffer id r rest s h given,
      ),
    )
