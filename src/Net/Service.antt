-- ===== src/Net/Service.antt =====
-- What the server of parte-2 promises its clients: one file system, the calls of which happen one at a
-- time, each at some moment between the client's request and the return of the client's function.
use tecnicofs.Base.{ℕ, ◌<◌, ◌≡◌, ◌≢◌, Bool, true, false, some, List, [], update, ℤ, minus_one}
use tecnicofs.Fs.State.{State}
use tecnicofs.Fs.Operations.Api.{Locking}
use tecnicofs.Net.Wire.{int_bytes}
use tecnicofs.Net.Client.{Request, shuts_down, opens, closes, writes, reads, unmounts}
use tecnicofs.Net.Receiver.{max_clients}
use tecnicofs.Net.Fields.{Sendable}
use tecnicofs.Net.Requests.{served}
use tecnicofs.Net.Answers.{client_result, got}

-- The call of a client: none, one that has not happened, one with its answer; or it makes no more.
pub data Call : Type 0 where
  idle left : Call
  pending : Request → Call
  done : Request → List ℕ → Call

abbrev pub call_after : Request → Call
call_after unmounts = left
call_after shuts_down = left
call_after (opens name flags) = idle
call_after (closes fhandle) = idle
call_after (writes fhandle buffer len) = idle
call_after (reads fhandle len) = idle

abbrev pub is_shutdown : Request → Bool
is_shutdown shuts_down = true
is_shutdown unmounts = false
is_shutdown (opens name flags) = false
is_shutdown (closes fhandle) = false
is_shutdown (writes fhandle buffer len) = false
is_shutdown (reads fhandle len) = false

pub record Service : Type 0 where
  pub files : State
  pub calls : ℕ → Call
  pub stopped : Bool

-- A client asks; its call happens, all at once; a shutdown is refused while another client waits for
-- one; or the client's function returns.
pub data ServiceStep (l : Locking) (s t : Service) : Type 0 where
  asks :
      (i : ℕ) (r : Request)
      → i < max_clients
      → Sendable r
      → s.stopped ≡ false
      → s.calls i ≡ idle
      → t ≡ record s { calls = update s.calls i (pending r) }
      → ServiceStep l s t
  happens :
      (i : ℕ) (r : Request) (bytes : List ℕ) (f : State)
      → i < max_clients
      → s.stopped ≡ false
      → s.calls i ≡ pending r
      → served l r s.files ≡ some (bytes, f)
      → t ≡ record { files = f; calls = update s.calls i (done r bytes); stopped = is_shutdown r }
      → ServiceStep l s t
  refuses :
      (i j : ℕ)
      → i < max_clients
      → s.stopped ≡ false
      → s.calls i ≡ pending shuts_down
      → s.calls j ≡ pending shuts_down
      → i ≢ j
      → t ≡ record s { calls = update s.calls i (done shuts_down (int_bytes minus_one [])) }
      → ServiceStep l s t
  returns :
      (i : ℕ) (r : Request) (ret : ℤ) (bytes data_bytes : List ℕ)
      → i < max_clients
      → s.calls i ≡ done r bytes
      → client_result r bytes ≡ got ret data_bytes
      → t ≡ record s { calls = update s.calls i (call_after r) }
      → ServiceStep l s t
