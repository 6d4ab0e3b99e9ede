-- ===== src/Net/System/Woken.antt =====
-- parte-2/fs/tfs_server.c: the thread of a session that finds it active, and the call of its handler.
use tecnicofs.Base.{
  ℕ, ◌+◌, ◌≡◌, ◌≢◌, ◌∙◌, ap, refl, arith, ◌⊎◌, inl, inr, Bool, true, false, ◌==◌, Bool-cases, List,
  [], ◌++◌, length, update, minus_one,
}
use tecnicofs.Fs.Operations.Api.{Locking}
use tecnicofs.Net.Wire.{int_bytes}
use tecnicofs.Net.Client.{Request, opens, closes, writes, reads, unmounts, shuts_down, op_code}
use tecnicofs.Net.Receiver.{set_session}
use tecnicofs.Net.Worker.{handle}
use tecnicofs.Net.Fields.{fields_of}
use tecnicofs.Net.Requests.{served, handle-served, filled-op}
use tecnicofs.Net.System.{working, ended, Client, ready, waiting, System, code_of, woken}
use tecnicofs.Net.System.Held.{Held}

pub stops_lem : (r : Request) → op_code r ≡ 7 → r ≡ shuts_down
stops_lem shuts_down e = refl
stops_lem unmounts e = absurd (omega (arith, e))
stops_lem (opens name flags) e = absurd (omega (arith, e))
stops_lem (closes fhandle) e = absurd (omega (arith, e))
stops_lem (writes fhandle buffer len) e = absurd (omega (arith, e))
stops_lem (reads fhandle len) e = absurd (omega (arith, e))

-- The state behind the refusal of a second shutdown, and that behind any other request.
abbrev pub turned_down : ℕ → System → System
turned_down i s = record s {
  server = set_session s.server i (record (s.server.sessions i) { is_active = true });
  threads = update s.threads i ended;
  answers = update s.answers i (s.answers i ++ int_bytes minus_one []);
}

abbrev pub taken_up : ℕ → Bool → System → System
taken_up i closing s = record s {
  server = record s.server { shutdown_called = closing };
  threads = update s.threads i working;
}

pub woken_cases :
    (i : ℕ) (s : System)
    → ((woken i s ≡ turned_down i s) × (s.server.shutdown_called ≡ true) × (code_of s i ≡ 7))
      ⊎ ((woken i s ≡ taken_up i true s) × (s.server.shutdown_called ≡ false) × (code_of s i ≡ 7))
      ⊎ ((woken i s ≡ taken_up i s.server.shutdown_called s) × (code_of s i ≢ 7))
woken_cases i s = elim (Bool-cases (code_of s i == 7)) [
  | inl e ↦
      let seven : code_of s i ≡ 7 = ground arith in
      elim (Bool-cases s.server.shutdown_called) [
        | inl c ↦ inl (rw (c, e) refl, c, seven)
        | inr c ↦ inr (inl (rw (c, e) refl, c, seven))
      ]
  | inr e ↦ elim (Bool-cases s.server.shutdown_called) [
    | inl c ↦ inr (inr (rw (c, e) refl, ground arith))
    | inr c ↦ inr (inr (rw (c, e) refl, ground arith))
  ]
]

-- The operation's code in the buffer is that of the request.
pub code_of-Held :
    {c : Client} {a : List ℕ} {q : List Request} (s : System) (i : ℕ)
    (h : Held c a (s.server.sessions i) q)
    → code_of s i ≡ op_code h.request
code_of-Held s i h =
    ap (λ b. b 0) h.buffer
    ∙ filled-op h.memory (op_code h.request) (4 + length (fields_of h.request))
        (int_bytes h.number (fields_of h.request ++ h.more))

-- The handler gives the answer of the file system's call.
pub handle-Held :
    {c : Client} {a : List ℕ} {q : List Request} (s : System) (i : ℕ)
    (h : Held c a (s.server.sessions i) q) (l : Locking)
    → handle l (s.server.sessions i).session_id (s.server.sessions i).buffer s.files
      ≡ served l h.request s.files
handle-Held s i h l =
    ap (λ b. handle l (s.server.sessions i).session_id b s.files) h.buffer
    ∙ handle-served l h.memory h.number h.more s.files (s.server.sessions i).session_id h.request
        h.sendable

pub ready≢waiting : {r : Request} → ready ≢ waiting r
ready≢waiting e = cc
