-- ===== src/Net/System/Phases.antt =====
-- Where a request of a client stands, in parte-2/fs/tfs_server.c with its threads.
use tecnicofs.Base.{
  ℕ, ◌+◌, ◌<◌, ◌≡◌, ◌≢◌, ◌⊎◌, Bool, true, false, ◌==◌, List, [], ◌∷◌, ◌++◌, if◌then◌else◌, ℤ, pos,
}
use tecnicofs.Memory.{Memory}
use tecnicofs.Net.Wire.{int_bytes}
use tecnicofs.Net.Client.{Request, shuts_down, op_code}
use tecnicofs.Net.Receiver.{Session, max_clients}
use tecnicofs.Net.Fields.{Sendable, fields_of}
use tecnicofs.Net.Requests.{with_request}
use tecnicofs.Net.System.{
  Thread, wants, sleeping, working, answered, ended, Client, ready, gone, waiting, System,
}

-- The requests that are in the pipe, each with its session.
abbrev pub Queue : Type 0
Queue = List (ℕ × Request)

-- Their bytes.
abbrev pub request_bytes : ℕ → Request → List ℕ
request_bytes i r = op_code r ∷ int_bytes (pos (i + 1)) (fields_of r)

abbrev pub queue_bytes : Queue → List ℕ
queue_bytes [] = []
queue_bytes ((i, r) ∷ q) = request_bytes i r ++ queue_bytes q

-- Those of the session `i`.
abbrev pub queue_of : ℕ → Queue → List Request
queue_of i [] = []
queue_of i ((j, r) ∷ q) = if j == i then r ∷ queue_of i q else queue_of i q

abbrev pub AllSendable : Queue → Type 0
AllSendable [] = Unit {0}
AllSendable ((i, r) ∷ q) = (i < max_clients) × Sendable r × AllSendable q

-- The session has nothing to do, or its thread is about to clear it behind an answer.
abbrev pub Between : Bool → Thread → Type 0
Between active th = ((active ≡ false) × ((th ≡ wants) ⊎ (th ≡ sleeping))) ⊎ (th ≡ answered)

-- A client with its session: it has asked for nothing; its request is in the pipe; or in the buffer of
-- the session; its answer is there; or it is gone.
pub data Phase (c : Client) (a : List ℕ) (x : Session) (th : Thread) (q : List Request)
    : Type 0 where
  resting : c ≡ ready → a ≡ [] → q ≡ [] → Between x.is_active th → Phase c a x th q
  queued :
      (r : Request)
      → c ≡ waiting r
      → a ≡ []
      → q ≡ r ∷ []
      → Between x.is_active th
      → Phase c a x th q
  held :
      (r : Request) (m : Memory) (id : ℤ) (rest : List ℕ)
      → Sendable r
      → c ≡ waiting r
      → a ≡ []
      → q ≡ []
      → x.is_active ≡ true
      → x.buffer ≡ with_request m id r rest
      → (th ≡ wants) ⊎ (th ≡ working)
      → Phase c a x th q
  replied :
      (r : Request)
      → c ≡ waiting r
      → a ≢ []
      → q ≡ []
      → Between x.is_active th ⊎ ((th ≡ ended) × (r ≡ shuts_down))
      → Phase c a x th q
  over : c ≡ gone → a ≡ [] → q ≡ [] → Between x.is_active th ⊎ (th ≡ ended) → Phase c a x th q

abbrev pub PhaseOf : System → Queue → ℕ → Type 0
PhaseOf s q i = Phase (s.clients i) (s.answers i) (s.server.sessions i) (s.threads i) (queue_of i q)

-- What holds of every state of the server that runs; `closer` is the client whose shutdown is being
-- carried out.
pub record Inv (s : System) (q : Queue) : Type 0 where
  pub bytes : s.pipe ≡ queue_bytes q
  pub sendable : AllSendable q
  pub phases : (i : ℕ) → i < max_clients → PhaseOf s q i
  pub closer :
      s.stopped ≡ false
      → s.server.shutdown_called ≡ true
      → (i : ℕ) × (i < max_clients)
        × (s.threads i ≡ working)
        × (s.clients i ≡ waiting shuts_down)
        × (s.answers i ≡ [])
