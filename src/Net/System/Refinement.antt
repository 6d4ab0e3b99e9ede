-- ===== src/Net/System/Refinement.antt =====
-- The server of parte-2/fs/tfs_server.c, with main and the threads of the sessions interleaved in any
-- order, against the service that it offers.
use tecnicofs.Base.{
  ℕ, ◌+◌, ◌≡◌, ◌≢◌, ◌∙◌, sym, ap, ap₂, subst, refl, inl, inr, true, false, Option, none, some, List,
  [], ◌∷◌, ◌++◌, update, update_here, update_other, pos,
}
use tecnicofs.Fs.Operations.Api.{Locking}
use tecnicofs.Net.Client.{Request, server_request}
use tecnicofs.Net.Fields.{Sendable, request_fields-Sendable}
use tecnicofs.Net.Answers.{client_result}
use tecnicofs.Net.System as System
use tecnicofs.Net.System.{
  wants, working, holds, ready, waiting, client_after, System, code_of, delivering, with_thread,
  woken, called, finishing, ServerStep, delivers, sleeps, wakes, calls, finishes, ClientStep,
  Started, Reach, served_by, asked_by,
}
use tecnicofs.Net.System.Phases.{Queue, request_bytes, resting, Inv}
use tecnicofs.Net.System.Moves.{Phase-ready}
use tecnicofs.Net.System.Calls.{Inv-asked, Inv-returned}
use tecnicofs.Net.System.Views.{call_of, view, call_of-done, call_of-after, calls_eq}
use tecnicofs.Net.Service.{pending, call_after, Service, asks, returns}
use tecnicofs.Net.System.Traces as Traces
use tecnicofs.Net.System.Traces.{event_of, server}
use tecnicofs.Net.System.Serves.{Refines, blocked_nil, ServerStep-Refines}

request_or : Option (List ℕ) → List ℕ
request_or none = []
request_or (some bytes) = bytes

request_same : {a b : List ℕ} → ◌≡◌ {A = Option (List ℕ)} (some a) (some b) → a ≡ b
unfolding request_or
request_same e = ap (λ o. request_or o) e

request_of_queue :
    (i : ℕ) (r : Request) → Sendable r → server_request (pos (i + 1)) r ≡ some (request_bytes i r)
unfolding server_request
request_of_queue i r h = rw (request_fields-Sendable r h, server_request) refl

no_shutdown : false ≢ true
no_shutdown e = cc

ClientStep-Refines :
    (l : Locking) (s t : System) (q : Queue)
    → Inv s q
    → (st : ClientStep s t) → Refines l s t (event_of st ∷ [])
unfolding server_request
ClientStep-Refines l s t q inv (System.asks i r bytes lt h runs e eb te) =
    let same : request_bytes i r ≡ bytes = request_same (sym (request_of_queue i r h) ∙ eb) in
    let te' =
      te
      ∙ ap (λ z. record s { clients = update s.clients i (waiting r); pipe = s.pipe ++ z })
          (sym same) in
    (
      (
        q ++ ((i, r) ∷ []),
        subst (λ u. Inv u (q ++ ((i, r) ∷ []))) (sym te') (Inv-asked s q i inv r lt h e),
      ),
      inr (
        asks i r lt h runs (ap (λ c. call_of c (s.answers i)) e) (
            ap view te
            ∙ ap (λ f. record (view s) { calls = f })
                (calls_eq s.clients (update s.clients i (waiting r)) s.answers s.answers i
                  (pending r)
                  (ap₂ call_of (update_here s.clients i (waiting r))
                    (Phase-ready (s.server.sessions i) e (inv.phases i lt)))
                  (λ j ne. update_other s.clients i j _ ne) (λ j ne. refl))),
        refl,
      ),
    )
ClientStep-Refines l s t q inv (System.returns i r ret bytes lt e answer te) =
    let some_bytes : s.answers i ≢ [] =
      λ k. blocked_nil r (sym (ap (client_result r) k) ∙ answer) in
    (
      (q, subst (λ u. Inv u q) (sym te) (Inv-returned s q i inv r lt e some_bytes)),
      inr (
        returns i r ret (s.answers i) bytes lt
            (ap (λ c. call_of c (s.answers i)) e ∙ call_of-done r (s.answers i) some_bytes) answer
            (ap view te
              ∙ ap (λ f. record (view s) { calls = f })
                  (calls_eq s.clients (update s.clients i (client_after r)) s.answers
                    (update s.answers i []) i (call_after r)
                    (ap₂ call_of (update_here s.clients i _) (update_here s.answers i [])
                      ∙ call_of-after r)
                    (λ j ne. update_other s.clients i j _ ne)
                    (λ j ne. update_other s.answers i j _ ne))),
        refl,
      ),
    )

Started-Inv : (s : System) → Started s → Inv s []
Started-Inv s b = record {
  bytes = b.empty;
  sendable = tt;
  phases = λ i lt.
      resting (b.clients_ready i lt) (b.unanswered i lt) refl
        (inl (b.inactive i lt, inl (b.threads_start i lt)));
  closer = λ runs c. absurd (no_shutdown (sym b.open_server ∙ c));
}

-- All reachable states, with the requests in the pipe.
pub Reach-Inv : (l : Locking) (s t : System) → Started s → Reach l s t → (q : Queue) × Inv t q
Reach-Inv l s t b System.start = ([], Started-Inv s b)
Reach-Inv l s t b (served_by {u} r st) =
    let (q, inv) = Reach-Inv l s u b r in (ServerStep-Refines l u t q inv st).0
Reach-Inv l s t b (asked_by {u} r st) =
    let (q, inv) = Reach-Inv l s u b r in (ClientStep-Refines l u t q inv st).0
