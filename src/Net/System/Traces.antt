-- ===== src/Net/System/Traces.antt =====
-- Runs of the server of parte-2/fs/tfs_server.c and of the service, with what the clients see of them:
-- each request and each return of a client's function, in their order.
use tecnicofs.Base.{ℕ, ◌≡◌, List, [], ◌++◌, ◌∷◌, ℤ}
use tecnicofs.Fs.Operations.Api.{Locking}
use tecnicofs.Net.Client.{Request}
use tecnicofs.Net.Service.{Service, ServiceStep}
use tecnicofs.Net.Service as Service
use tecnicofs.Net.System as System
use tecnicofs.Net.System.{System, ServerStep, ClientStep, Reach, asked_by, served_by}

-- What a client does: it asks, or its function returns a value and bytes.
pub data Event : Type 0 where
  asked : ℕ → Request → Event
  returned : ℕ → Request → ℤ → List ℕ → Event

abbrev pub event_of : {s t : System} → ClientStep s t → Event
event_of (System.asks i r bytes _ _ _ _ _ _) = asked i r
event_of (System.returns i r ret bytes _ _ _ _) = returned i r ret bytes

abbrev pub service_events : {l : Locking} {s t : Service} → ServiceStep l s t → List Event
service_events (Service.asks i r _ _ _ _ _) = asked i r ∷ []
service_events (Service.happens i r bytes f _ _ _ _ _) = []
service_events (Service.refuses i j _ _ _ _ _ _) = []
service_events (Service.returns i r ret bytes data_bytes _ _ _ _) = returned i r ret data_bytes ∷ []

-- The runs with their events.
pub data Run (l : Locking) (s : System) : List Event → System → Type 0 where
  start : {es : List Event} → es ≡ [] → Run l s es s
  server : {es : List Event} {u t : System} → Run l s es u → ServerStep l u t → Run l s es t
  client :
      (es : List Event) {ds : List Event} {u t : System}
      → Run l s es u
      → (st : ClientStep u t) → ds ≡ es ++ (event_of st ∷ [])
      → Run l s ds t

pub data ServiceRun (l : Locking) (s : Service) : List Event → Service → Type 0 where
  start : {es : List Event} → es ≡ [] → ServiceRun l s es s
  later :
      (es : List Event) {ds : List Event} {u t : Service}
      → ServiceRun l s es u
      → (st : ServiceStep l u t) → ds ≡ es ++ service_events st
      → ServiceRun l s ds t

pub Run-Reach : {l : Locking} {s t : System} {es : List Event} → Run l s es t → Reach l s t
Run-Reach (start e) = System.start
Run-Reach (server r st) = served_by (Run-Reach r) st
Run-Reach (client es r st e) = asked_by (Run-Reach r) st
