-- ===== src/Net/Client.antt =====
-- parte-2/client/tecnicofs_client_api.c: the requests that the client's functions send, and what
-- these functions return. A request is the list of its bytes.
use tecnicofs.Base.{
  ℕ, Option, none, some, List, [], ◌∷◌, length, take, leb, not, Bool, if◌then◌else◌, ℤ, pos,
  minus_one, is_minus_one, is_zero,
}
use tecnicofs.Net.Wire.{buffer_size, int_bytes, size_bytes, name_field}

-- What a client asks for in a session.
pub data Request : Type 0 where
  unmounts shuts_down : Request
  opens : List ℕ → ℤ → Request
  closes : ℤ → Request
  writes : ℤ → List ℕ → ℕ → Request
  reads : ℤ → ℕ → Request

abbrev pub op_code : Request → ℕ
op_code unmounts = 2
op_code (opens name flags) = 3
op_code (closes fhandle) = 4
op_code (writes fhandle buffer len) = 5
op_code (reads fhandle len) = 6
op_code shuts_down = 7

-- The request of tfs_mount; `none` where the path leaves the array of the request.
unfoldable pub mount_request : List ℕ → Option (List ℕ)
mount_request path =
    if leb (length path) buffer_size then some (1 ∷ name_field buffer_size path) else none

-- What follows the session's number; `none` where a memcpy leaves its array.
unfoldable pub request_fields : Request → Option (List ℕ)
request_fields unmounts = some []
request_fields shuts_down = some []
request_fields (opens name flags) =
    if leb (length name) buffer_size
    then some (int_bytes flags (name_field buffer_size name))
    else none
request_fields (closes fhandle) = some (int_bytes fhandle [])
request_fields (writes fhandle buffer len) =
    if leb len (length buffer)
    then some (int_bytes fhandle (size_bytes len (take len buffer)))
    else none
request_fields (reads fhandle len) = some (int_bytes fhandle (size_bytes len []))

-- The whole request.
unfoldable pub server_request : ℤ → Request → Option (List ℕ)
server_request session_id r = elim (request_fields r) [
  | none ↦ none
  | some fields ↦ some (op_code r ∷ int_bytes session_id fields)
]

-- What a function of the client returns: `sent` if write_buffer succeeds, then the value that is
-- read, `none` if read fails.
unfoldable pub client_return : Bool → Option ℤ → ℤ
client_return sent answer =
    if sent then elim answer [ none ↦ minus_one | some ret ↦ ret ] else minus_one

-- tfs_mount behind the pipes' opening: the result, and the client's session.
unfoldable pub mount_return : Bool → Option ℤ → ℤ
mount_return sent answer =
    if sent
    then elim answer [
      | none ↦ minus_one
      | some session_id ↦ if is_minus_one session_id then minus_one else pos 0
    ]
    else minus_one

-- tfs_unmount: `closed` if both pipes are closed.
unfoldable pub unmount_return : Bool → Option ℤ → Bool → ℤ
unmount_return sent answer closed =
    if sent
    then elim answer [
      | none ↦ minus_one
      | some ret ↦ if not (is_zero ret) then minus_one else if closed then pos 0 else minus_one
    ]
    else minus_one
