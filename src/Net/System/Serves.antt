-- ===== src/Net/System/Serves.antt =====
-- Each step of the server of parte-2/fs/tfs_server.c against the service that it offers.
use tecnicofs.Base.{
  ℕ, ◌<◌, ◌≡◌, ◌≢◌, ◌∙◌, sym, ap, ap₂, subst, refl, ◌⊎◌, inl, inr, true, false, ◌==◌, some, List,
  [], ◌∷◌, ◌++◌, update_here, update_other, ℤ, minus_one,
}
use tecnicofs.Fs.State.{State}
use tecnicofs.Fs.Operations.Api.{Locking}
use tecnicofs.Net.Wire.{int_bytes}
use tecnicofs.Net.Client.{Request, unmounts, shuts_down, opens, closes, writes, reads, op_code}
use tecnicofs.Net.Receiver.{Server, waits, dispatched, max_clients, receive}
use tecnicofs.Net.Worker.{handle}
use tecnicofs.Net.Requests.{served}
use tecnicofs.Net.Answers.{got, blocked, client_result}
use tecnicofs.Net.System.{
  wants, working, holds, waiting, System, code_of, delivering, woken, called, ServerStep, delivers,
  sleeps, wakes, calls, finishes,
}
use tecnicofs.Net.System.Phases.{Queue, queue_bytes, Inv}
use tecnicofs.Net.System.Moves.{Held-active, Held-working}
use tecnicofs.Net.System.Replies.{served-nonempty}
use tecnicofs.Net.System.Steps.{
  receive-queue, dispatched_same, Inv-delivering, Inv-sleeping, Inv-finishing, wants≢working,
}
use tecnicofs.Net.System.Calls.{Inv-woken, Inv-called}
use tecnicofs.Net.System.Woken.{stops_lem, turned_down, woken_cases, code_of-Held, handle-Held}
use tecnicofs.Net.System.Views.{call_of, view, call_of-done, calls_eq}
use tecnicofs.Net.System.Traces.{Event, service_events}
use tecnicofs.Net.Service.{done, is_shutdown, ServiceStep, happens, refuses}

-- A step of the server or of a client is a step of the service with the same events, or none.
abbrev pub Refines : Locking → System → System → List Event → Type 0
Refines l s t es =
    ((q : Queue) × Inv t q)
    × (((view t ≡ view s) × (es ≡ []))
        ⊎ ((st : ServiceStep l (view s) (view t)) × (service_events st ≡ es)))

pub waits≢dispatched : {i : ℕ} {v : Server} {rest : List ℕ} → waits ≢ dispatched i v rest
waits≢dispatched e = cc

pub delivering_eq :
    {i j : ℕ} {v w : Server} {rest more : List ℕ} (s : System)
    → i ≡ j
    → v ≡ w
    → rest ≡ more
    → delivering i v rest s ≡ delivering j w more s
delivering_eq s ei ev er k = delivering (ei k) (ev k) (er k) s

delivers-Refines :
    (l : Locking) (s t : System) (q : Queue) (i : ℕ) (v : Server) (rest : List ℕ)
    → Inv s q
    → receive s.server s.pipe ≡ dispatched i v rest
    → holds (s.threads i) ≡ false
    → t ≡ delivering i v rest s
    → Refines l s t []
unfolding receive
delivers-Refines l s t [] i v rest inv e free te =
    let q : waits ≡ dispatched i v rest = sym (ap (λ b. receive s.server b) inv.bytes) ∙ e in
    absurd (waits≢dispatched q)
delivers-Refines l s t ((j, r) ∷ q) i v rest inv e free te =
    let (lt, h, more) = inv.sendable in
    let (ei, ev, er) = dispatched_same (
      sym (receive-queue s.server j r (queue_bytes q) lt h)
      ∙ sym (ap (λ b. receive s.server b) inv.bytes)
      ∙ e) in
    let next = delivering_eq s ei ev er ∙ sym te in
    (
      (
        q,
        subst (λ u. Inv u q) next
            (Inv-delivering s q j r inv (ap (λ k. holds (s.threads k)) ei ∙ free)),
      ),
      inl (ap view te, refl),
    )

op_code-shutdown : (r : Request) → (op_code r == 7) ≡ is_shutdown r
op_code-shutdown unmounts = refl
op_code-shutdown shuts_down = refl
op_code-shutdown (opens name flags) = refl
op_code-shutdown (closes fhandle) = refl
op_code-shutdown (writes fhandle buffer len) = refl
op_code-shutdown (reads fhandle len) = refl

blocked≢got : {z : ℤ} {xs : List ℕ} → blocked ≢ got z xs
blocked≢got e = cc

-- Without a byte no client's function returns.
pub blocked_nil : (r : Request) {z : ℤ} {xs : List ℕ} → client_result r [] ≢ got z xs
unfolding client_result
blocked_nil unmounts e = blocked≢got e
blocked_nil shuts_down e = blocked≢got e
blocked_nil (opens name flags) e = blocked≢got e
blocked_nil (closes fhandle) e = blocked≢got e
blocked_nil (writes fhandle buffer len) e = blocked≢got e
blocked_nil (reads fhandle len) e = blocked≢got e

module _ (l : Locking) (s t : System) (q : Queue) (i : ℕ) (inv : Inv s q) (lt : i < max_clients)
    (runs : s.stopped ≡ false) where
  wakes-Refines :
      s.threads i ≡ wants
      → (s.server.sessions i).is_active ≡ true
      → t ≡ woken i s
      → Refines l s t []
  wakes-Refines e act te =
      let h = Held-active (s.server.sessions i) e act (inv.phases i lt) in
      (
        (q, subst (λ u. Inv u q) (sym te) (Inv-woken s q i inv lt e act)),
        elim (woken_cases i s) [
          | inl (p, c, seven) ↦
              let r : h.request ≡ shuts_down =
                stops_lem h.request (sym (code_of-Held s i h) ∙ seven) in
              let (j, lj, w, a, none_yet) = inv.closer runs c in
              inr (
                refuses i j lt runs (ap₂ call_of (h.client ∙ ap waiting r) h.unanswered)
                    (ap₂ call_of a none_yet) (λ k. wants≢working (sym e ∙ ap s.threads k ∙ w))
                    (ap view (te ∙ p)
                      ∙ ap (λ f. record (view s) { calls = f })
                          (calls_eq s.clients s.clients s.answers (turned_down i s).answers i
                            (done shuts_down (int_bytes minus_one []))
                            (ap₂ call_of (h.client ∙ ap waiting r) (
                              update_here s.answers i _
                              ∙ ap (λ z. z ++ int_bytes minus_one []) h.unanswered))
                            (λ j ne. refl) (λ j ne. update_other s.answers i j _ ne))),
                refl,
              )
          | inr (inl (p, c, seven)) ↦ inl (ap view (te ∙ p), refl)
          | inr (inr (p, other)) ↦ inl (ap view (te ∙ p), refl)
        ],
      )

  calls-Refines :
      (bytes : List ℕ) (f : State)
      → s.threads i ≡ working
      → handle l (s.server.sessions i).session_id (s.server.sessions i).buffer s.files
        ≡ some (bytes, f)
      → t ≡ called i bytes f s
      → Refines l s t []
  calls-Refines bytes f e answer te =
      let h = Held-working (s.server.sessions i) e (inv.phases i lt) in
      let direct : served l h.request s.files ≡ some (bytes, f) =
        sym (handle-Held s i h l) ∙ answer in
      let some_bytes : bytes ≢ [] = served-nonempty l h.request s.files f bytes direct in
      let stops : (code_of s i == 7) ≡ is_shutdown h.request =
        ap (λ c. c == 7) (code_of-Held s i h) ∙ op_code-shutdown h.request in
      (
        (q, subst (λ u. Inv u q) (sym te) (Inv-called s q i inv l bytes f lt runs e answer)),
        inr (
          happens i h.request bytes f lt runs (ap₂ call_of h.client h.unanswered) direct (
              ap view te
              ∙ ap₂ (λ g b. record { files = f; calls = g; stopped = b })
                  (calls_eq s.clients s.clients s.answers (called i bytes f s).answers i
                    (done h.request bytes)
                    (ap₂ call_of h.client
                        (update_here s.answers i _ ∙ ap (λ z. z ++ bytes) h.unanswered)
                      ∙ call_of-done h.request bytes some_bytes)
                    (λ j ne. refl) (λ j ne. update_other s.answers i j _ ne))
                  stops),
          refl,
        ),
      )

pub ServerStep-Refines :
    (l : Locking) (s t : System) (q : Queue) → Inv s q → ServerStep l s t → Refines l s t []
ServerStep-Refines l s t q inv (delivers i v rest runs e free te) =
    delivers-Refines l s t q i v rest inv e free te
ServerStep-Refines l s t q inv (sleeps i lt runs e act te) =
    ((q, subst (λ u. Inv u q) (sym te) (Inv-sleeping s q i inv lt e act)), inl (ap view te, refl))
ServerStep-Refines l s t q inv (wakes i lt runs e act te) =
    wakes-Refines l s t q i inv lt runs e act te
ServerStep-Refines l s t q inv (calls i bytes f lt runs e answer te) =
    calls-Refines l s t q i inv lt runs bytes f e answer te
ServerStep-Refines l s t q inv (finishes i lt runs e te) =
    ((q, subst (λ u. Inv u q) (sym te) (Inv-finishing s q i inv lt e)), inl (ap view te, refl))
