-- ===== src/Net/System/Calls.antt =====
-- The places of all requests, when a thread takes a request and answers it, and when a client asks and
-- takes its answer.
use tecnicofs.Base.{
  ℕ, ◌<◌, ◌≡◌, ◌≢◌, ◌∙◌, sym, ap, subst, refl, arith, ◌⊎◌, inl, inr, Bool, true, false, some, List,
  [], ◌∷◌, ◌++◌, append_nil, update, update_here, update_other, minus_one,
}
use tecnicofs.Fs.State.{State}
use tecnicofs.Fs.Operations.Api.{Locking}
use tecnicofs.Net.Wire.{int_bytes}
use tecnicofs.Net.Client.{Request, shuts_down, op_code}
use tecnicofs.Net.Receiver.{Session, max_clients}
use tecnicofs.Net.Worker.{handle}
use tecnicofs.Net.Fields.{Sendable}
use tecnicofs.Net.Requests.{served}
use tecnicofs.Net.System.{
  wants, working, answered, ended, ready, waiting, client_after, System, code_of, woken, called,
}
use tecnicofs.Net.System.Phases.{Queue, request_bytes, queue_bytes, queue_of, Inv}
use tecnicofs.Net.System.Moves.{
  Held-active, Held-working, Phase-Held, Phase-asked, Phase-returned, Phase-called, Phase-refused,
}
use tecnicofs.Net.System.Replies.{cons≢nil, served-nonempty}
use tecnicofs.Net.System.Held.{Phase-eq, waiting_same}
use tecnicofs.Net.System.Steps.{
  phases_except, queue_of_here, queue_of_other, queue_of-append, queue_bytes-append,
  AllSendable-append, wants≢working,
}
use tecnicofs.Net.System.Woken.{
  stops_lem, turned_down, taken_up, woken_cases, code_of-Held, handle-Held, ready≢waiting,
}

module _ (s : System) (q : Queue) (i : ℕ) (inv : Inv s q) where
  Inv-turned_down :
      i < max_clients
      → s.threads i ≡ wants
      → (s.server.sessions i).is_active ≡ true
      → code_of s i ≡ 7
      → Inv (turned_down i s) q
  Inv-turned_down lt e act seven =
      let h = Held-active (s.server.sessions i) e act (inv.phases i lt) in
      let y : Session = record (s.server.sessions i) { is_active = true } in
      record {
        bytes = inv.bytes;
        sendable = inv.sendable;
        phases =
            phases_except s (turned_down i s) q q i
              (λ j ne p.
                Phase-eq refl (sym (update_other s.answers i j _ ne))
                  (sym (update_other s.server.sessions i j _ ne))
                  (sym (update_other s.threads i j _ ne)) refl p)
              (Phase-eq refl (sym (update_here s.answers i _))
                (sym (update_here s.server.sessions i y)) (sym (update_here s.threads i ended)) refl
                (Phase-refused (s.server.sessions i) y (int_bytes minus_one []) (cons≢nil _ _) h
                  (stops_lem h.request (sym (code_of-Held s i h) ∙ seven))))
              inv.phases;
        closer = λ runs c.
            let (k, l, w, a, none_yet) = inv.closer runs c in
            let ne : k ≢ i = λ p. wants≢working (sym e ∙ ap s.threads (sym p) ∙ w) in
            (
              k,
              l,
              update_other s.threads i k _ ne ∙ w,
              a,
              update_other s.answers i k _ ne ∙ none_yet,
            );
      }

  Inv-taken_up :
      (closing : Bool)
      → i < max_clients
      → s.threads i ≡ wants
      → (s.server.sessions i).is_active ≡ true
      → (closing ≡ s.server.shutdown_called) ⊎ (code_of s i ≡ 7)
      → Inv (taken_up i closing s) q
  Inv-taken_up closing lt e act why =
      let h = Held-active (s.server.sessions i) e act (inv.phases i lt) in
      record {
        bytes = inv.bytes;
        sendable = inv.sendable;
        phases =
            phases_except s (taken_up i closing s) q q i
              (λ j ne p. Phase-eq refl refl refl (sym (update_other s.threads i j _ ne)) refl p)
              (Phase-eq refl refl refl (sym (update_here s.threads i working)) refl
                (Phase-Held (s.server.sessions i) working (inr refl) h))
              inv.phases;
        closer = λ runs c. elim why [
          | inl same ↦
              let (k, l, w, a, none_yet) = inv.closer runs (sym same ∙ c) in
              let ne : k ≢ i = λ p. wants≢working (sym e ∙ ap s.threads (sym p) ∙ w) in
              (k, l, update_other s.threads i k _ ne ∙ w, a, none_yet)
          | inr seven ↦
              let r : h.request ≡ shuts_down =
                stops_lem h.request (sym (code_of-Held s i h) ∙ seven) in
              (i, lt, update_here s.threads i working, h.client ∙ ap waiting r, h.unanswered)
        ];
      }

  pub Inv-woken :
      i < max_clients
      → s.threads i ≡ wants
      → (s.server.sessions i).is_active ≡ true
      → Inv (woken i s) q
  Inv-woken lt e act = elim (woken_cases i s) [
    | inl (p, c, seven) ↦ subst (λ t. Inv t q) (sym p) (Inv-turned_down lt e act seven)
    | inr (inl (p, c, seven)) ↦
        subst (λ t. Inv t q) (sym p) (Inv-taken_up true lt e act (inr seven))
    | inr (inr (p, other)) ↦
        subst (λ t. Inv t q) (sym p) (Inv-taken_up s.server.shutdown_called lt e act (inl refl))
  ]

  pub Inv-called :
      (l : Locking) (bytes : List ℕ) (f : State)
      → i < max_clients
      → s.stopped ≡ false
      → s.threads i ≡ working
      → handle l (s.server.sessions i).session_id (s.server.sessions i).buffer s.files
        ≡ some (bytes, f)
      → Inv (called i bytes f s) q
  Inv-called l bytes f lt runs e answer =
      let h = Held-working (s.server.sessions i) e (inv.phases i lt) in
      let direct : served l h.request s.files ≡ some (bytes, f) =
        sym (handle-Held s i h l) ∙ answer in
      record {
        bytes = inv.bytes;
        sendable = inv.sendable;
        phases =
            phases_except s (called i bytes f s) q q i
              (λ j ne p.
                Phase-eq refl (sym (update_other s.answers i j _ ne)) refl
                  (sym (update_other s.threads i j _ ne)) refl p)
              (Phase-eq refl (sym (update_here s.answers i _)) refl
                (sym (update_here s.threads i answered)) refl
                (Phase-called (s.server.sessions i) bytes
                  (served-nonempty l h.request s.files f bytes direct) h))
              inv.phases;
        closer = λ on c.
            let (k, m, w, a, none_yet) = inv.closer runs c in
            let ne : k ≢ i = λ p.
              let r : h.request ≡ shuts_down =
                waiting_same (sym h.client ∙ ap s.clients (sym p) ∙ a) in
              let seven : code_of s i ≡ 7 = code_of-Held s i h ∙ ap op_code r in
              absurd (ground arith) in
            (
              k,
              m,
              update_other s.threads i k _ ne ∙ w,
              a,
              update_other s.answers i k _ ne ∙ none_yet,
            );
      }

  pub Inv-asked :
      (r : Request)
      → i < max_clients
      → Sendable r
      → s.clients i ≡ ready
      → Inv
          (record s {
            clients = update s.clients i (waiting r);
            pipe = s.pipe ++ request_bytes i r;
          })
          (q ++ ((i, r) ∷ []))
  Inv-asked r lt g e =
      let t : System = record s {
        clients = update s.clients i (waiting r);
        pipe = s.pipe ++ request_bytes i r;
      } in
      let q' : Queue = q ++ ((i, r) ∷ []) in
      record {
        bytes =
            ap (λ z. z ++ request_bytes i r) inv.bytes
            ∙ sym (
                queue_bytes-append q ((i, r) ∷ [])
                ∙ ap (λ z. queue_bytes q ++ z) (append_nil (request_bytes i r)));
        sendable = AllSendable-append q i r inv.sendable lt g;
        phases =
            phases_except s t q q' i
              (λ j ne p.
                Phase-eq (sym (update_other s.clients i j _ ne)) refl refl refl
                  (sym (
                    queue_of-append j q ((i, r) ∷ [])
                    ∙ ap (λ z. queue_of j q ++ z) (queue_of_other i j r [] ne)
                    ∙ append_nil (queue_of j q)))
                  p)
              (Phase-eq (sym (update_here s.clients i (waiting r))) refl refl refl
                (sym (
                  queue_of-append i q ((i, r) ∷ [])
                  ∙ ap (λ z. queue_of i q ++ z) (queue_of_here i r [])))
                (Phase-asked (s.server.sessions i) r e (inv.phases i lt)))
              inv.phases;
        closer = λ runs c.
            let (k, l, w, a, none_yet) = inv.closer runs c in
            let ne : k ≢ i = λ p. ready≢waiting (sym e ∙ ap s.clients (sym p) ∙ a) in
            (k, l, w, update_other s.clients i k _ ne ∙ a, none_yet);
      }

  pub Inv-returned :
      (r : Request)
      → i < max_clients
      → s.clients i ≡ waiting r
      → s.answers i ≢ []
      → Inv
          (record s {
            clients = update s.clients i (client_after r);
            answers = update s.answers i [];
          })
          q
  Inv-returned r lt e some_bytes =
      let t : System = record s {
        clients = update s.clients i (client_after r);
        answers = update s.answers i [];
      } in
      record {
        bytes = inv.bytes;
        sendable = inv.sendable;
        phases =
            phases_except s t q q i
              (λ j ne p.
                Phase-eq (sym (update_other s.clients i j _ ne))
                  (sym (update_other s.answers i j _ ne)) refl refl refl p)
              (Phase-eq (sym (update_here s.clients i (client_after r)))
                (sym (update_here s.answers i [])) refl refl refl
                (Phase-returned (s.server.sessions i) r e some_bytes (inv.phases i lt)))
              inv.phases;
        closer = λ runs c.
            let (k, l, w, a, none_yet) = inv.closer runs c in
            let ne : k ≢ i = λ p. some_bytes (ap s.answers (sym p) ∙ none_yet) in
            (
              k,
              l,
              w,
              update_other s.clients i k _ ne ∙ a,
              update_other s.answers i k _ ne ∙ none_yet,
            );
      }
