-- ===== src/Net/Fields.antt =====
-- The bytes of a request, as main of parte-2/fs/tfs_server.c takes them from its pipe into the
-- buffer of a session.
use tecnicofs.Base.{
  ℕ, zero, suc, ◌+◌, ◌-◌, ◌≤◌, ◌<◌, ◌≡◌, ◌∙◌, ap, ap₂, sym, refl, arith, true, false, some, List,
  [], ◌∷◌, ◌++◌, length, length-append, length-take, take, drop, get_or, get_or-drop, ◌==◌, ltb,
  leb, if◌then◌else◌, ◌&&◌, ℤ, pos, IsInt, pos_part,
}
use tecnicofs.Memory.{Memory, memcpy, write_bytes, read_bytes, load_int}
use tecnicofs.Memory.Blocks.{write_bytes_in, read_bytes-get_or}
use tecnicofs.Memory.Strings.{IsString}
use tecnicofs.Net.Wire.{
  buffer_size, int_bytes, size_bytes, load_size, name_field, load_int-word, load_size-words,
  length-name_field,
}
use tecnicofs.Net.Client.{
  Request, opens, closes, writes, reads, unmounts, shuts_down, op_code, request_fields,
}
use tecnicofs.Net.Receiver.{
  Server, dispatched, undefined, max_clients, max_request_size, field_count, filled, delivered,
  receive, receive_request,
}

-- What a client may send: the values of the C types, a name that leaves room for its terminator,
-- and a write that fits the session's buffer.
abbrev pub Sendable : Request → Type 0
Sendable unmounts = Unit {0}
Sendable shuts_down = Unit {0}
Sendable (opens name flags) = IsString name × (length name < buffer_size) × IsInt flags
Sendable (closes fhandle) = IsInt fhandle
Sendable (writes fhandle buffer len) =
    IsInt fhandle × (len ≤ length buffer) × (17 + len ≤ max_request_size)
Sendable (reads fhandle len) = IsInt fhandle × (len < 0x10000000000000000)

drop-length : (xs ys : List ℕ) → drop (length xs) (xs ++ ys) ≡ ys
drop-length [] ys = refl
drop-length (x ∷ xs) ys = drop-length xs ys

pub take-length : (n : ℕ) (xs ys : List ℕ) → n ≡ length xs → take n (xs ++ ys) ≡ xs
take-length zero [] ys e = refl
take-length zero (x ∷ xs) ys e = absurd (omega arith)
take-length (suc n) [] ys e = absurd (omega arith)
take-length (suc n) (x ∷ xs) ys e = ap (λ r. x ∷ r) (take-length n xs ys (omega arith))

-- The byte `k` of what was put behind the code.
filled_at :
    (m : Memory) (op n : ℕ) (bytes : List ℕ) (k x : ℕ)
    → k < n
    → x ≡ 1 + k
    → filled m op n bytes x ≡ get_or bytes k 0
unfolding memcpy
filled_at m op n bytes k x lt e =
    write_bytes_in (write_bytes m 0 1 (λ _. op)) 1 n (λ j. get_or bytes j 0) k x lt e

pub read_bytes-filled :
    (m : Memory) (op n : ℕ) (bytes : List ℕ) (k j : ℕ)
    → k + j ≤ n
    → j ≤ length (drop k bytes)
    → read_bytes (filled m op n bytes) (1 + k) j ≡ take j (drop k bytes)
read_bytes-filled m op n bytes k j le len =
    read_bytes-get_or (filled m op n bytes) (1 + k) j (drop k bytes) len (λ i lt.
      filled_at m op n bytes (k + i) (1 + k + i) (omega arith) (omega arith)
      ∙ get_or-drop k i bytes 0)

-- A request whose length main computes right, and which has arrived.
pub receive-count :
    (s : Server) (i op : ℕ) (f rest : List ℕ)
    → (op == 1) ≡ false
    → i < max_clients
    → field_count op (f ++ rest) ≡ some (length f)
    → let pipe = int_bytes (pos (i + 1)) (f ++ rest) in
      receive s (op ∷ pipe) ≡ (
        if ltb max_request_size (1 + 4 + length f)
        then undefined
        else dispatched i (delivered s i op (length f) pipe) rest)
unfolding receive receive_request
receive-count s i op f rest ne lt count =
    let pipe : List ℕ = int_bytes (pos (i + 1)) (f ++ rest) in
    let id : load_int (λ k. get_or pipe k 0) 0 ≡ pos (i + 1) =
      load_int-word (λ k. get_or pipe k 0) 0 (pos (i + 1)) (omega arith) (refl, refl, refl, refl) in
    let l : length (f ++ rest) ≡ length f + length rest = length-append f rest in
    let four : ltb (length pipe) 4 ≡ false = ground arith in
    let enough : ltb (length (f ++ rest)) (length f) ≡ false = ground arith in
    let valid : (ltb 0 (i + 1) && leb (i + 1) max_clients) ≡ true = ground arith in
    let index : i + 1 - 1 ≡ i = omega arith in
    rw (ne, four, id, valid, count, enough, receive_request)
      (ap₂
        (λ j r.
          if ltb max_request_size (1 + 4 + length f)
          then undefined
          else dispatched j (delivered s j op (length f) pipe) r)
        (ap (λ z. pos_part z - 1) id ∙ index) (drop-length f rest))

-- A request that fits is given to its session, and the rest stays.
pub receive-fields :
    (s : Server) (i op : ℕ) (f rest : List ℕ)
    → (op == 1) ≡ false
    → i < max_clients
    → field_count op (f ++ rest) ≡ some (length f)
    → 5 + length f ≤ max_request_size
    → let pipe = int_bytes (pos (i + 1)) (f ++ rest) in
      receive s (op ∷ pipe) ≡ dispatched i (delivered s i op (length f) pipe) rest
receive-fields s i op f rest ne lt count fits =
    let small : ltb max_request_size (1 + 4 + length f) ≡ false = ground arith in
    receive-count s i op f rest ne lt count
    ∙ ap
        (λ b.
          if b
          then undefined
          else dispatched i (delivered s i op (length f) (int_bytes (pos (i + 1)) (f ++ rest)))
              rest)
        small

-- An `int` that stands first behind the session's number.
pub first_int :
    (m : Memory) (op n : ℕ) (id z : ℤ) (bytes : List ℕ)
    → IsInt z
    → 8 ≤ n
    → load_int (filled m op n (int_bytes id (int_bytes z bytes))) 5 ≡ z
first_int m op n id z bytes h le =
    let all : List ℕ = int_bytes id (int_bytes z bytes) in
    load_int-word (filled m op n all) 5 z h (
      filled_at m op n all 4 5 (omega arith) refl,
      filled_at m op n all 5 6 (omega arith) refl,
      filled_at m op n all 6 7 (omega arith) refl,
      filled_at m op n all 7 8 (omega arith) refl,
    )

-- A `size_t` behind it.
pub second_size :
    (m : Memory) (op n k : ℕ) (id z : ℤ) (bytes : List ℕ)
    → k < 0x10000000000000000
    → 16 ≤ n
    → load_size (filled m op n (int_bytes id (int_bytes z (size_bytes k bytes)))) 9 ≡ k
second_size m op n k id z bytes h le =
    let all : List ℕ = int_bytes id (int_bytes z (size_bytes k bytes)) in
    load_size-words (filled m op n all) 9 k h
      (
        filled_at m op n all 8 9 (omega arith) refl,
        filled_at m op n all 9 10 (omega arith) refl,
        filled_at m op n all 10 11 (omega arith) refl,
        filled_at m op n all 11 12 (omega arith) refl,
      )
      (
        filled_at m op n all 12 13 (omega arith) refl,
        filled_at m op n all 13 14 (omega arith) refl,
        filled_at m op n all 14 15 (omega arith) refl,
        filled_at m op n all 15 16 (omega arith) refl,
      )

-- The fields of a request that may be sent, and their number as main computes it.
abbrev pub fields_of : Request → List ℕ
fields_of unmounts = []
fields_of shuts_down = []
fields_of (opens name flags) = int_bytes flags (name_field buffer_size name)
fields_of (closes fhandle) = int_bytes fhandle []
fields_of (writes fhandle buffer len) = int_bytes fhandle (size_bytes len (take len buffer))
fields_of (reads fhandle len) = int_bytes fhandle (size_bytes len [])

pub request_fields-Sendable : (r : Request) → Sendable r → request_fields r ≡ some (fields_of r)
unfolding request_fields
request_fields-Sendable unmounts h = refl
request_fields-Sendable shuts_down h = refl
request_fields-Sendable (opens name flags) (n, lt, z) =
    let ok : leb (length name) buffer_size ≡ true = ground arith in rw ok refl
request_fields-Sendable (closes fhandle) h = refl
request_fields-Sendable (writes fhandle buffer len) (z, le, fit) =
    let ok : leb len (length buffer) ≡ true = ground arith in rw ok refl
request_fields-Sendable (reads fhandle len) h = refl

pub field_count-writes :
    (fhandle : ℤ) (buffer : List ℕ) (len : ℕ) (rest : List ℕ)
    → len ≤ length buffer
    → len < 0x10000000000000000
    → let f = fields_of (writes fhandle buffer len) in field_count 5 (f ++ rest) ≡ some (length f)
unfolding field_count
field_count-writes fhandle buffer len rest le lt =
    let all : List ℕ = int_bytes fhandle (size_bytes len (take len buffer ++ rest)) in
    let n : load_size (λ k. get_or all k 0) 4 ≡ len =
      load_size-words (λ k. get_or all k 0) 4 len lt (refl, refl, refl, refl)
        (refl, refl, refl, refl) in
    ap some (omega (arith, n, length-take len buffer))

pub field_count-Sendable :
    (r : Request) (rest : List ℕ)
    → Sendable r
    → field_count (op_code r) (fields_of r ++ rest) ≡ some (length (fields_of r))
unfolding field_count
field_count-Sendable unmounts rest h = refl
field_count-Sendable shuts_down rest h = refl
field_count-Sendable (opens name flags) rest h =
    ap (λ n. some (4 + n)) (sym (length-name_field buffer_size name)) ∙ ap some (omega arith)
field_count-Sendable (closes fhandle) rest h = refl
field_count-Sendable (writes fhandle buffer len) rest (z, le, fit) =
    field_count-writes fhandle buffer len rest le (omega arith)
field_count-Sendable (reads fhandle len) rest h = refl

pub length-fields_of : (r : Request) → Sendable r → 5 + length (fields_of r) ≤ max_request_size
length-fields_of unmounts h = omega arith
length-fields_of shuts_down h = omega arith
length-fields_of (opens name flags) h = omega (arith, length-name_field buffer_size name)
length-fields_of (closes fhandle) h = omega arith
length-fields_of (writes fhandle buffer len) (z, le, fit) = omega (arith, length-take len buffer)
length-fields_of (reads fhandle len) h = omega arith

pub op_code-other : (r : Request) → (op_code r == 1) ≡ false
op_code-other unmounts = refl
op_code-other shuts_down = refl
op_code-other (opens name flags) = refl
op_code-other (closes fhandle) = refl
op_code-other (writes fhandle buffer len) = refl
op_code-other (reads fhandle len) = refl
