-- ===== src/Net/System/Tests.antt =====
-- A run of the server of parte-2/fs/tfs_server.c with one client, and its theorems applied there.
use tecnicofs.Base.{◌+◌, ◌≤◌, ◌≡◌, ◌⊎◌, refl, arith, false, none, [], pos, update}
use tecnicofs.Fs.Inodes.{boot}
use tecnicofs.Fs.Operations.Api.{Locking}
use tecnicofs.Net.Client.{closes, server_request}
use tecnicofs.Net.Receiver.{start_sessions}
use tecnicofs.Net.Requests.{served}
use tecnicofs.Net.System as System
use tecnicofs.Net.System.{
  System, ServerStep, ClientStep, delivers, wants, working, ready, waiting, Started, Reach,
  asked_by, served_by, asks, delivering,
}
use tecnicofs.Net.System.Phases.{request_bytes}
use tecnicofs.Net.System.Steps.{given, receive-queue}
use tecnicofs.Net.System.Traces as Traces
use tecnicofs.Net.System.Traces.{server}
use tecnicofs.Net.System.Progress.{Moves, waiting-Advances}
use tecnicofs.Net.System.Measure.{Serving-ends, one_more, at_rest}
use tecnicofs.Net.System.Sinks.{measure}

abbrev locks : Locking
locks = record { lock = 0; unlock = 0 }

-- The server with nothing asked for.
abbrev begun : System
begun = record {
  server = start_sessions;
  files = boot;
  pipe = [];
  threads = λ _. wants;
  clients = λ _. ready;
  answers = λ _. [];
  stopped = false;
}

begun-Started : Started begun
unfolding start_sessions
begun-Started = record {
  inactive = λ i lt. refl;
  open_server = refl;
  empty = refl;
  threads_start = λ i lt. refl;
  clients_ready = λ i lt. refl;
  unanswered = λ i lt. refl;
}

-- The client of the session 1 closes the handle 3.
abbrev asked_once : System
asked_once = record begun {
  clients = update begun.clients 0 (waiting (closes (pos 3)));
  pipe = request_bytes 0 (closes (pos 3));
}

asked_once-ClientStep : ClientStep begun asked_once
unfolding server_request tecnicofs.Net.Client.request_fields
asked_once-ClientStep =
    asks 0 (closes (pos 3)) (request_bytes 0 (closes (pos 3))) (omega arith) (omega arith) refl refl
      refl refl

asked_once-Reach : Reach locks begun asked_once
asked_once-Reach = asked_by System.start asked_once-ClientStep

abbrev taken_once : System
taken_once = delivering 0 (given start_sessions 0 (closes (pos 3)) []) [] asked_once

taken_once-delivers : ServerStep locks asked_once taken_once
taken_once-delivers =
    delivers 0 (given start_sessions 0 (closes (pos 3)) []) [] refl
      (receive-queue start_sessions 0 (closes (pos 3)) [] (omega arith) (omega arith)) refl refl

waiting-Advances_example :
    Moves locks asked_once
    ⊎ ((asked_once.threads 0 ≡ working) × (served locks (closes (pos 3)) asked_once.files ≡ none))
waiting-Advances_example =
    waiting-Advances locks begun asked_once 0 (closes (pos 3)) begun-Started asked_once-Reach refl
      (omega arith) refl refl

Serving-ends_example : 1 + measure taken_once ≤ measure asked_once
Serving-ends_example =
    Serving-ends locks begun asked_once taken_once 1 begun-Started asked_once-Reach
      (one_more 0 asked_once (at_rest refl refl) taken_once-delivers refl)
