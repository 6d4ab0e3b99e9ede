-- ===== src/Net/System.antt =====
-- parte-2/fs/tfs_server.c with its threads, and the clients behind their mounts: main, one thread for
-- each session, and one client for each session, interleaved in any order.
-- A step is what a thread does under a lock. main is the only reader of its pipe, and between the
-- lock and the unlock of a session it touches nothing else, so a request is taken in one step. A
-- client writes a request in one call of write, and waits for the answer.
pub mod Phases
pub mod Steps
pub mod Woken
pub mod Calls
pub mod Views
pub mod Held
pub mod Replies
pub mod Moves
pub mod Serves
pub mod Traces
pub mod Refinement
pub mod Progress
pub mod Sinks
pub mod Measure
mod Tests
use tecnicofs.Base.{
  ℕ, ◌+◌, ◌<◌, ◌≡◌, Bool, true, false, ◌&&◌, ◌==◌, Option, none, some, List, [], ◌++◌,
  if◌then◌else◌, update, ℤ, pos, minus_one,
}
use tecnicofs.Fs.State.{State}
use tecnicofs.Fs.Operations.Api.{Locking}
use tecnicofs.Net.Wire.{int_bytes}
use tecnicofs.Net.Client.{
  Request, unmounts, shuts_down, opens, closes, writes, reads, server_request,
}
use tecnicofs.Net.Receiver.{Server, max_clients, receive, dispatched, set_session}
use tecnicofs.Net.Worker.{handle, finished}
use tecnicofs.Net.Fields.{Sendable}
use tecnicofs.Net.Answers.{client_result, got}

-- Where thread_handler stands: it wants the lock of its session; it sleeps in pthread_cond_wait; it
-- holds the lock, with a request or behind the answer to it; or it has left its loop.
pub data Thread : Type 0 where
  wants sleeping working answered ended : Thread

-- pthread_cond_signal
abbrev pub signalled : Thread → Thread
signalled wants = wants
signalled sleeping = wants
signalled working = working
signalled answered = answered
signalled ended = ended

-- Whether the thread holds the lock of its session.
abbrev pub holds : Thread → Bool
holds wants = false
holds sleeping = false
holds working = true
holds answered = true
holds ended = false

-- A client that may ask, that waits for an answer, and that has closed its pipes.
pub data Client : Type 0 where
  ready gone : Client
  waiting : Request → Client

abbrev pub client_after : Request → Client
client_after unmounts = gone
client_after shuts_down = gone
client_after (opens name flags) = ready
client_after (closes fhandle) = ready
client_after (writes fhandle buffer len) = ready
client_after (reads fhandle len) = ready

-- `pipe` holds the bytes for main, and `answers i` those for the client of the session `i`.
pub record System : Type 0 where
  pub server : Server
  pub files : State
  pub pipe : List ℕ
  pub threads : ℕ → Thread
  pub clients : ℕ → Client
  pub answers : ℕ → List ℕ
  pub stopped : Bool

-- The operation's code in the buffer of the session `i`.
abbrev pub code_of : System → ℕ → ℕ
code_of s i = (s.server.sessions i).buffer 0

-- main has put a request into the buffer of the session `i`, signals, and gives the lock back.
abbrev pub delivering : ℕ → Server → List ℕ → System → System
delivering i v rest s = record s {
  server = v;
  pipe = rest;
  threads = update s.threads i (signalled (s.threads i));
}

abbrev pub with_thread : ℕ → Thread → System → System
with_thread i th s = record s { threads = update s.threads i th }

-- The thread has found its session active: a second shutdown is refused, and ends the thread.
abbrev pub woken : ℕ → System → System
woken i s =
    let stops = code_of s i == 7 in
    let v = s.server in
    if v.shutdown_called && stops
    then record s {
      server = set_session v i (record (v.sessions i) { is_active = true });
      threads = update s.threads i ended;
      answers = update s.answers i (s.answers i ++ int_bytes minus_one []);
    }
    else record s {
      server = record v { shutdown_called = if stops then true else v.shutdown_called };
      threads = update s.threads i working;
    }

-- The handler has called the file system and written the answer; a shutdown ends the process.
abbrev pub called : ℕ → List ℕ → State → System → System
called i bytes t s = record s {
  files = t;
  answers = update s.answers i (s.answers i ++ bytes);
  threads = update s.threads i answered;
  stopped = code_of s i == 7;
}

-- The session is not active any more, and the lock is given back.
abbrev pub finishing : ℕ → System → System
finishing i s = record s {
  server = set_session s.server i (finished (s.server.sessions i));
  threads = update s.threads i wants;
}

-- A step of the server.
pub data ServerStep (l : Locking) (s t : System) : Type 0 where
  delivers :
      (i : ℕ) (v : Server) (rest : List ℕ)
      → s.stopped ≡ false
      → receive s.server s.pipe ≡ dispatched i v rest
      → holds (s.threads i) ≡ false
      → t ≡ delivering i v rest s
      → ServerStep l s t
  sleeps :
      (i : ℕ)
      → i < max_clients
      → s.stopped ≡ false
      → s.threads i ≡ wants
      → (s.server.sessions i).is_active ≡ false
      → t ≡ with_thread i sleeping s
      → ServerStep l s t
  wakes :
      (i : ℕ)
      → i < max_clients
      → s.stopped ≡ false
      → s.threads i ≡ wants
      → (s.server.sessions i).is_active ≡ true
      → t ≡ woken i s
      → ServerStep l s t
  calls :
      (i : ℕ) (bytes : List ℕ) (f : State)
      → i < max_clients
      → s.stopped ≡ false
      → s.threads i ≡ working
      → handle l (s.server.sessions i).session_id (s.server.sessions i).buffer s.files
        ≡ some (bytes, f)
      → t ≡ called i bytes f s
      → ServerStep l s t
  finishes :
      (i : ℕ)
      → i < max_clients
      → s.stopped ≡ false
      → s.threads i ≡ answered
      → t ≡ finishing i s
      → ServerStep l s t

-- A step of a client: it sends a request, or it takes its answer.
pub data ClientStep (s t : System) : Type 0 where
  asks :
      (i : ℕ) (r : Request) (bytes : List ℕ)
      → i < max_clients
      → Sendable r
      → s.stopped ≡ false
      → s.clients i ≡ ready
      → server_request (pos (i + 1)) r ≡ some bytes
      → t ≡ record s { clients = update s.clients i (waiting r); pipe = s.pipe ++ bytes }
      → ClientStep s t
  returns :
      (i : ℕ) (r : Request) (ret : ℤ) (bytes : List ℕ)
      → i < max_clients
      → s.clients i ≡ waiting r
      → client_result r (s.answers i) ≡ got ret bytes
      → t ≡ record s {
        clients = update s.clients i (client_after r);
        answers = update s.answers i [];
      }
      → ClientStep s t

-- A state behind start_sessions and the mounts, with nothing asked for.
pub record Started (s : System) : Type 0 where
  pub inactive : (i : ℕ) → i < max_clients → (s.server.sessions i).is_active ≡ false
  pub open_server : s.server.shutdown_called ≡ false
  pub empty : s.pipe ≡ []
  pub threads_start : (i : ℕ) → i < max_clients → s.threads i ≡ wants
  pub clients_ready : (i : ℕ) → i < max_clients → s.clients i ≡ ready
  pub unanswered : (i : ℕ) → i < max_clients → s.answers i ≡ []

pub data Reach (l : Locking) (s : System) : System → Type 0 where
  start : Reach l s s
  served_by : {u t : System} → Reach l s u → ServerStep l u t → Reach l s t
  asked_by : {u t : System} → Reach l s u → ClientStep u t → Reach l s t
