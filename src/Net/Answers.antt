-- ===== src/Net/Answers.antt =====
-- parte-2/client/tecnicofs_client_api.c: what the functions of the client make of the bytes of an
-- answer. `write_buffer`, `read` and `close` are taken not to fail.
use tecnicofs.Base.{
  ℕ, List, [], drop, take, length, get_or, ltb, ◌==◌, minus_one, is_zero, if◌then◌else◌, ℤ,
  signed64,
}
use tecnicofs.Memory.{load_int}
use tecnicofs.Net.Wire.{load_size}
use tecnicofs.Net.Client.{Request, unmounts, shuts_down, opens, closes, writes, reads}

-- The call waits for more bytes; or it returns a value, with the bytes that are put into the buffer.
pub data Got : Type 0 where
  blocked : Got
  got : ℤ → List ℕ → Got

-- `read(client.rx, &ret, sizeof(int))`
abbrev pub int_answer : List ℕ → Got
int_answer bytes =
    if ltb (length bytes) 4 then blocked else got (load_int (λ k. get_or bytes k 0) 0) []

-- tfs_unmount fails on any answer but 0.
abbrev pub unmount_result : Got → Got
unmount_result blocked = blocked
unmount_result (got ret bytes) = if is_zero ret then got ret bytes else got minus_one []

-- `read(client.rx, &ret, sizeof(ssize_t))`
abbrev pub size_answer : List ℕ → Got
size_answer bytes =
    if ltb (length bytes) 8
    then blocked
    else got (signed64 (load_size (λ k. get_or bytes k 0) 0)) []

-- `read(client.rx, buffer, len)` behind it: it waits if there is no byte.
unfoldable pub data_answer : ℕ → List ℕ → ℤ → Got
data_answer len bytes ret =
    if len == 0 then got ret [] else if length bytes == 0 then blocked else got ret (take len bytes)

unfoldable pub client_result : Request → List ℕ → Got
client_result unmounts bytes = unmount_result (int_answer bytes)
client_result shuts_down bytes = int_answer bytes
client_result (opens name flags) bytes = int_answer bytes
client_result (closes fhandle) bytes = int_answer bytes
client_result (writes fhandle buffer len) bytes = size_answer bytes
client_result (reads fhandle len) bytes =
    if ltb (length bytes) 8
    then blocked
    else data_answer len (drop 8 bytes) (signed64 (load_size (λ k. get_or bytes k 0) 0))
