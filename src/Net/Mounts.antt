-- ===== src/Net/Mounts.antt =====
-- The mounts in parte-2/fs/tfs_server.c, from a client's request to the number of the session.
use tecnicofs.Base.{
  ℕ, ◌+◌, ◌-◌, ◌<◌, ◌≡◌, ◌∙◌, ap, refl, arith, true, false, Bool-cases, inl, inr, some, List, ◌∷◌,
  ◌++◌, length, length-append, drop, ltb, leb, pos,
}
use tecnicofs.Memory.{Memory, read_bytes}
use tecnicofs.Memory.Strings.{IsString}
use tecnicofs.Net.Wire.{
  buffer_size, name_field, c_string, length-name_field, c_string-name_field, take-name_field,
  drop-name_field,
}
use tecnicofs.Net.Client.{mount_request}
use tecnicofs.Net.Receiver.{
  Server, Received, dispatched, refused, undefined, max_clients, filled, receive, receive_mount,
  mounted, mounting, refusing,
}
use tecnicofs.Net.Fields.{read_bytes-filled}

-- What a mount of the path `path` does with `rest` behind its request: one of the first 63 gets its
-- session, which then has the path in its buffer; the 64th is refused; and one more leaves the table.
pub data Mounting (v : Server) (path rest : List ℕ) (r : Received) : Type 0 where
  mounts :
      (t : Server)
      → v.next_session_id < max_clients
      → r ≡ dispatched (v.next_session_id - 1) t rest
      → t.next_session_id ≡ v.next_session_id + 1
      → (t.sessions (v.next_session_id - 1)).session_id ≡ pos v.next_session_id
      → c_string (read_bytes (t.sessions (v.next_session_id - 1)).buffer 1 buffer_size) ≡ some path
      → Mounting v path rest r
  too_many :
      (t : Server)
      → v.next_session_id ≡ max_clients
      → r ≡ refused t rest
      → t.next_session_id ≡ v.next_session_id + 1
      → Mounting v path rest r
  outside : max_clients < v.next_session_id → r ≡ undefined → Mounting v path rest r

-- The path that a mount puts behind the code.
path_read :
    (m : Memory) (path rest : List ℕ)
    → IsString path
    → length path < buffer_size
    → c_string
        (read_bytes (filled m 1 buffer_size (name_field buffer_size path ++ rest)) 1 buffer_size)
      ≡ some path
path_read m path rest hs lt =
    let field : List ℕ = name_field buffer_size path in
    let size : length field ≡ buffer_size = length-name_field buffer_size path in
    ap (λ xs. c_string xs)
      (read_bytes-filled m 1 buffer_size (field ++ rest) 0 buffer_size (omega arith)
          (omega (arith, length-append field rest))
        ∙ take-name_field buffer_size path rest)
    ∙ c_string-name_field buffer_size path hs lt

module _ (v : Server) (path rest : List ℕ) (hs : IsString path)
    (lt : length path < buffer_size) where
  receive_mount-Mounting :
      Mounting v path rest (receive_mount v (name_field buffer_size path ++ rest))
  unfolding receive_mount
  receive_mount-Mounting =
      let field : List ℕ = name_field buffer_size path in
      let i : ℕ = v.next_session_id in
      let size : length field ≡ buffer_size = length-name_field buffer_size path in
      let enough : ltb (length (field ++ rest)) buffer_size ≡ false =
        ground (arith, length-append field rest) in
      let left : drop buffer_size (field ++ rest) ≡ rest = drop-name_field buffer_size path rest in
      let here : (mounting v (field ++ rest)).sessions (i - 1) ≡ mounted v (field ++ rest) =
        ground arith in
      elim (Bool-cases (ltb max_clients i)) [
        | inl e ↦ outside (ground arith) (rw (e, receive_mount) refl)
        | inr in_table ↦ elim (Bool-cases (ltb 64 (i + 1))) [
          | inl e ↦
              too_many (refusing v) (ground arith)
                (rw (in_table, enough, e, left, receive_mount) refl) refl
          | inr e ↦
              mounts (mounting v (field ++ rest)) (ground arith)
                (rw (in_table, enough, e, left, receive_mount) refl) refl
                (ap (λ x. x.session_id) here)
                (ap (λ x. c_string (read_bytes x.buffer 1 buffer_size)) here
                  ∙ path_read (v.sessions (i - 1)).buffer path rest hs lt)
        ]
      ]

  -- A mount of a path that is a string of less than 40 bytes gets the next session if its number
  -- is below 64: main leaves the bytes behind the request in the pipe, and the session then has
  -- its number and the path in its buffer. With the number 64 the client is refused, and with a
  -- larger one main indexes behind the table of sessions.
  pub receive-Mounting :
      (bytes : List ℕ) × (mount_request path ≡ some bytes)
      × Mounting v path rest (receive v (bytes ++ rest))
  unfolding mount_request receive
  receive-Mounting =
      let ok : leb (length path) buffer_size ≡ true = ground arith in
      (1 ∷ name_field buffer_size path, rw ok refl, receive_mount-Mounting)
