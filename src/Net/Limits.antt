-- ===== src/Net/Limits.antt =====
-- Requests that parte-2/fs/tfs_server.c does not stand.
use tecnicofs.Base.{
  ℕ, ◌+◌, ◌≤◌, ◌<◌, ◌≡◌, ◌∙◌, ap, refl, arith, true, false, Bool-cases, inl, inr, none, some, List,
  [], ◌∷◌, ◌++◌, length, length-take, ltb, leb, if◌then◌else◌, ℤ, pos, minus_one, IsInt,
}
use tecnicofs.Fs.State.{State}
use tecnicofs.Fs.Blocks.{valid_file_handle}
use tecnicofs.Fs.OpenFiles.{get_open_file_entry}
use tecnicofs.Fs.Operations.{read_unsynchronized}
use tecnicofs.Fs.Operations.Api.{Locking, tfs_read}
use tecnicofs.Net.Wire.{int_bytes}
use tecnicofs.Net.Client.{writes, reads, request_fields, server_request}
use tecnicofs.Net.Receiver.{
  Server, dispatched, undefined, max_clients, max_request_size, delivered, receive,
}
use tecnicofs.Net.Worker.{thread_turn}
use tecnicofs.Net.Fields.{fields_of, receive-count, field_count-writes}
use tecnicofs.Net.Requests.{served, turned, request-turned}

-- A write of more than 2031 bytes, of at most the bytes of the client's buffer and less than 2^64,
-- in one of the 64 sessions makes main leave the buffer of the session.
pub long_write_overflows :
    (v : Server) (i : ℕ) (fhandle : ℤ) (buffer : List ℕ) (len : ℕ) (rest : List ℕ)
    → i < max_clients
    → len ≤ length buffer
    → len < 0x10000000000000000
    → max_request_size < 17 + len
    → (bytes : List ℕ) × (server_request (pos (i + 1)) (writes fhandle buffer len) ≡ some bytes)
      × (receive v (bytes ++ rest) ≡ undefined)
unfolding server_request request_fields
long_write_overflows v i fhandle buffer len rest lt le small long =
    let f : List ℕ = fields_of (writes fhandle buffer len) in
    let ok : leb len (length buffer) ≡ true = ground arith in
    let over : ltb max_request_size (1 + 4 + length f) ≡ true =
      ground (arith, length-take len buffer) in
    (
      5 ∷ int_bytes (pos (i + 1)) f,
      rw (ok, request_fields, server_request) refl,
      receive-count v i 5 f rest refl lt (field_count-writes fhandle buffer len rest le small)
          ∙ ap
              (λ b.
                if b
                then undefined
                else dispatched i (delivered v i 5 (length f) (int_bytes (pos (i + 1)) (f ++ rest)))
                    rest)
              over,
    )

-- A read through a number that is no handle returns -1, whatever the lock does.
tfs_read-bad :
    (l : Locking) (z : ℤ) (len : ℕ) (s : State)
    → valid_file_handle z ≡ false
    → tfs_read l z len s ≡ some (minus_one, [], s)
unfolding tfs_read read_unsynchronized get_open_file_entry
tfs_read-bad l z len s bad = rw bad (ground arith)

served-bad :
    (l : Locking) (z : ℤ) (len : ℕ) (s : State)
    → valid_file_handle z ≡ false
    → served l (reads z len) s ≡ none
served-bad l z len s bad = rw (tfs_read-bad l z len s bad, served) refl

no_answer : (v : Server) (i : ℕ) (s : State) → turned v i 6 none s ≡ none
no_answer v i s = elim (Bool-cases v.shutdown_called) [ inl e ↦ rw e refl | inr e ↦ rw e refl ]

-- A client that reads through a number that is no handle, in one of the 64 sessions, with values
-- of the C types, makes the session's thread leave its buffer: main gives the request to the
-- session, and the turn of its thread is undefined behaviour.
pub bad_handle_read :
    (v : Server) (i : ℕ) (z : ℤ) (len : ℕ) (rest : List ℕ) (l : Locking) (s : State)
    → i < max_clients
    → IsInt z
    → len < 0x10000000000000000
    → valid_file_handle z ≡ false
    → (bytes : List ℕ) × (server_request (pos (i + 1)) (reads z len) ≡ some bytes)
      × ((t : Server) × (receive v (bytes ++ rest) ≡ dispatched i t rest)
          × (thread_turn l i t s ≡ none))
bad_handle_read v i z len rest l s lt h small bad =
    let (bytes, e, (t, q, others, turn)) =
      request-turned v i (reads z len) rest l s lt (h, small) in
    let lost : turned t i 6 (served l (reads z len) s) s ≡ none =
      ap (λ a. turned t i 6 a s) (served-bad l z len s bad) ∙ no_answer t i s in
    (bytes, e, (t, q, turn ∙ lost))
