-- ===== src/Net/Tests.antt =====
-- Runs of the server at concrete requests, and its theorems applied there.
use tecnicofs.Base.{
  ℕ, zero, suc, ◌≡◌, ◌≢◌, refl, arith, true, false, none, some, List, [], ◌∷◌, ◌++◌, length, ℤ, pos,
  minus_one, is_minus_one,
}
use tecnicofs.Fs.Init.{initial}
use tecnicofs.Fs.Operations.Api.{Locking}
use tecnicofs.Net.Transfer.{
  Moved, ready, read_buffer, write_buffer, read_buffer-exact, write_buffer-exact,
}
use tecnicofs.Net.Wire.{buffer_size, name_field}
use tecnicofs.Net.Client.{opens, writes, reads, server_request, mount_request, mount_return}
use tecnicofs.Net.Receiver.{Server, start_sessions, receive, dispatched, undefined}
use tecnicofs.Net.Worker.{thread_turn}
use tecnicofs.Net.Requests.{served, turned, request-turned}
use tecnicofs.Net.Limits.{long_write_overflows, bad_handle_read}
use tecnicofs.Net.Pipes.{MountCalls, tfs_mount, tfs_mount-joined}
use tecnicofs.Net.Mounts.{Mounting, receive-Mounting}
use tecnicofs.Fs.Inodes.{boot}

abbrev locks : Locking
locks = record { lock = 0; unlock = 0 }

abbrev path_a : List ℕ
path_a = b'/' ∷ b'a' ∷ []

abbrev chunks : List Moved
chunks = ready 1 ∷ ready 0 ∷ ready 6 ∷ []

read_buffer-exact_example :
    read_buffer chunks 3 (7 ∷ 8 ∷ 9 ∷ 10 ∷ []) ≡ some (pos 0, 7 ∷ 8 ∷ 9 ∷ [], 10 ∷ [])
read_buffer-exact_example = read_buffer-exact chunks 3 (7 ∷ 8 ∷ 9 ∷ 10 ∷ []) tt (omega arith)

write_buffer-exact_example :
    write_buffer chunks 3 (7 ∷ 8 ∷ 9 ∷ []) (5 ∷ []) ≡ some (pos 0, 5 ∷ 7 ∷ 8 ∷ 9 ∷ [])
write_buffer-exact_example =
    write_buffer-exact chunks 3 (7 ∷ 8 ∷ 9 ∷ []) (5 ∷ []) tt (omega arith) (omega arith)

request-turned_example :
    (bytes : List ℕ) × (server_request (pos 3) (opens path_a (pos 1)) ≡ some bytes)
    × ((t : Server) × (receive start_sessions (bytes ++ (2 ∷ [])) ≡ dispatched 2 t (2 ∷ []))
        × ((j : ℕ) → j ≢ 2 → t.sessions j ≡ start_sessions.sessions j)
        × (thread_turn locks 2 t (initial boot)
            ≡ turned t 2 3 (served locks (opens path_a (pos 1)) (initial boot)) (initial boot)))
request-turned_example =
    request-turned start_sessions 2 (opens path_a (pos 1)) (2 ∷ []) locks (initial boot)
      (omega arith) ((omega arith, (omega arith, tt)), omega arith, omega arith)

receive-Mounting_example :
    (bytes : List ℕ) × (mount_request path_a ≡ some bytes)
    × Mounting start_sessions path_a (4 ∷ []) (receive start_sessions (bytes ++ (4 ∷ [])))
receive-Mounting_example =
    receive-Mounting start_sessions path_a (4 ∷ []) (omega arith, (omega arith, tt)) (omega arith)

-- `n` zeros.
abbrev zeros : ℕ → List ℕ
zeros zero = []
zeros (suc n) = 0 ∷ zeros n

length-zeros : (n : ℕ) → length (zeros n) ≡ n
length-zeros zero = refl
length-zeros (suc n) = omega (arith, length-zeros n)

long_write_overflows_example :
    (bytes : List ℕ) × (server_request (pos 1) (writes (pos 0) (zeros 2032) 2032) ≡ some bytes)
    × (receive start_sessions (bytes ++ []) ≡ undefined)
long_write_overflows_example =
    long_write_overflows start_sessions 0 (pos 0) (zeros 2032) 2032 [] (omega arith)
      (omega (arith, length-zeros 2032)) (omega arith) (omega arith)

bad_handle_read_example :
    (bytes : List ℕ) × (server_request (pos 1) (reads minus_one 8) ≡ some bytes)
    × ((t : Server) × (receive start_sessions (bytes ++ []) ≡ dispatched 0 t [])
        × (thread_turn locks 0 t (initial boot) ≡ none))
bad_handle_read_example =
    bad_handle_read start_sessions 0 minus_one 8 [] locks (initial boot) (omega arith) (omega arith)
      (omega arith) refl

-- The server when all 63 sessions are given out.
abbrev crowded : Server
crowded = record start_sessions { next_session_id = 64 }

abbrev good_calls : MountCalls
good_calls = record {
  unlinked = true;
  made = true;
  rx = pos 3;
  tx = pos 4;
  sent = true;
  answer = some (pos 1);
}

abbrev path_bytes : List ℕ
path_bytes = 1 ∷ name_field buffer_size path_a

mounted_a : tfs_mount good_calls path_a ≡ some (pos 0, path_bytes)
unfolding tfs_mount mount_request mount_return
mounted_a = refl

tfs_mount-joined_example :
    (good_calls.unlinked ≡ true)
    × (good_calls.made ≡ true)
    × (is_minus_one (pos 3) ≡ false)
    × (is_minus_one (pos 4) ≡ false)
    × (good_calls.sent ≡ true)
    × ((z : ℤ) × (some (pos 1) ≡ some z) × (is_minus_one z ≡ false))
    × Mounting start_sessions path_a (9 ∷ []) (receive start_sessions (path_bytes ++ (9 ∷ [])))
tfs_mount-joined_example =
    tfs_mount-joined good_calls path_a path_bytes (9 ∷ []) start_sessions
      (omega arith, (omega arith, tt)) (omega arith) mounted_a
