-- ===== src/Net/System/Steps.antt =====
-- The places of all requests, behind each step of the server and of a client.
use tecnicofs.Base.{
  ℕ, ◌+◌, ◌<◌, ◌≡◌, ◌≢◌, ◌∙◌, sym, ap, subst, refl, arith, inl, inr, true, false, ◌==◌, Bool-cases,
  List, [], ◌∷◌, ◌++◌, append_assoc, length, update_here, update_other, pos,
}
use tecnicofs.Net.Wire.{int_bytes}
use tecnicofs.Net.Client.{Request, op_code}
use tecnicofs.Net.Receiver.{
  Server, Session, Received, waits, undefined, ends, refused, dispatched, max_clients, receive,
  delivered,
}
use tecnicofs.Net.Fields.{
  Sendable, fields_of, receive-fields, field_count-Sendable, length-fields_of, op_code-other,
}
use tecnicofs.Net.System.{
  Thread, wants, sleeping, working, answered, signalled, holds, System, delivering, with_thread,
  finishing,
}
use tecnicofs.Net.System.Phases.{
  Queue, request_bytes, queue_bytes, queue_of, AllSendable, PhaseOf, Inv,
}
use tecnicofs.Net.System.Moves.{Phase-sleeping, Phase-finished, Phase-delivered}
use tecnicofs.Net.System.Held.{Phase-eq}

-- A step of the session `i` moves its own request, and leaves the others.
pub phases_except :
    (s t : System) (q q' : Queue) (i : ℕ)
    → ((j : ℕ) → j ≢ i → PhaseOf s q j → PhaseOf t q' j)
    → PhaseOf t q' i
    → ((j : ℕ) → j < max_clients → PhaseOf s q j)
    → (j : ℕ) → j < max_clients
    → PhaseOf t q' j
phases_except s t q q' i others here all j lt = elim (Bool-cases (j == i)) [
  | inl e ↦ let same : j ≡ i = ground arith in subst (λ k. PhaseOf t q' k) (sym same) here
  | inr e ↦ others j (ground arith) (all j lt)
]

pub queue_of_here : (i : ℕ) (r : Request) (q : Queue) → queue_of i ((i, r) ∷ q) ≡ r ∷ queue_of i q
queue_of_here i r q = ground arith

pub queue_of_other :
    (i j : ℕ) (r : Request) (q : Queue) → j ≢ i → queue_of j ((i, r) ∷ q) ≡ queue_of j q
queue_of_other i j r q ne = ground arith

pub queue_of-append : (i : ℕ) (q q' : Queue) → queue_of i (q ++ q') ≡ queue_of i q ++ queue_of i q'
queue_of-append i [] q' = refl
queue_of-append i ((j, r) ∷ q) q' = elim (Bool-cases (j == i)) [
  | inl e ↦ rw e (ap (λ z. r ∷ z) (queue_of-append i q q'))
  | inr e ↦ rw e (queue_of-append i q q')
]

pub queue_bytes-append : (q q' : Queue) → queue_bytes (q ++ q') ≡ queue_bytes q ++ queue_bytes q'
queue_bytes-append [] q' = refl
queue_bytes-append ((i, r) ∷ q) q' =
    ap (λ z. request_bytes i r ++ z) (queue_bytes-append q q')
    ∙ sym (append_assoc (request_bytes i r) (queue_bytes q) (queue_bytes q'))

pub AllSendable-append :
    (q : Queue) (i : ℕ) (r : Request)
    → AllSendable q
    → i < max_clients
    → Sendable r
    → AllSendable (q ++ ((i, r) ∷ []))
AllSendable-append [] i r h lt g = (lt, g, tt)
AllSendable-append ((j, r') ∷ q) i r (a, b, h) lt g = (a, b, AllSendable-append q i r h lt g)

-- The server behind the delivery of the first request in the pipe.
abbrev pub given : Server → ℕ → Request → List ℕ → Server
given v i r rest =
    delivered v i (op_code r) (length (fields_of r)) (int_bytes (pos (i + 1)) (fields_of r ++ rest))

pub receive-queue :
    (v : Server) (i : ℕ) (r : Request) (rest : List ℕ)
    → i < max_clients
    → Sendable r
    → receive v (request_bytes i r ++ rest) ≡ dispatched i (given v i r rest) rest
receive-queue v i r rest lt h =
    receive-fields v i (op_code r) (fields_of r) rest (op_code-other r) lt
      (field_count-Sendable r rest h) (length-fields_of r h)

index_of : Received → ℕ → ℕ
index_of (dispatched i v rest) d = i
index_of waits d = d
index_of undefined d = d
index_of ends d = d
index_of (refused v rest) d = d

server_of : Received → Server → Server
server_of (dispatched i v rest) d = v
server_of waits d = d
server_of undefined d = d
server_of ends d = d
server_of (refused v rest) d = d

rest_of : Received → List ℕ
rest_of (dispatched i v rest) = rest
rest_of waits = []
rest_of undefined = []
rest_of ends = []
rest_of (refused v rest) = []

pub dispatched_same :
    {i j : ℕ} {v w : Server} {rest more : List ℕ}
    → dispatched i v rest ≡ dispatched j w more
    → (i ≡ j) × (v ≡ w) × (rest ≡ more)
unfolding index_of server_of rest_of
dispatched_same {i} {j} {v} e =
    (ap (λ r. index_of r i) e, ap (λ r. server_of r v) e, ap (λ r. rest_of r) e)

pub wants≢working : wants ≢ working
wants≢working e = cc

answered≢working : answered ≢ working
answered≢working e = cc

working_free : true ≢ false
working_free e = cc

module _ (s : System) (q : Queue) (i : ℕ) (r : Request) (inv : Inv s ((i, r) ∷ q)) where
  abbrev rest : List ℕ
  rest = queue_bytes q

  abbrev next : System
  next = delivering i (given s.server i r rest) rest s

  delivering_other : (j : ℕ) → j ≢ i → PhaseOf s ((i, r) ∷ q) j → PhaseOf next q j
  delivering_other j ne p =
      Phase-eq refl refl (sym (update_other s.server.sessions i j _ ne))
        (sym (update_other s.threads i j (signalled (s.threads i)) ne)) (queue_of_other i j r q ne)
        p

  delivering_here : holds (s.threads i) ≡ false → PhaseOf next q i
  delivering_here free =
      let (lt, h, more) = inv.sendable in
      let x : Session = (given s.server i r rest).sessions i in
      Phase-eq refl refl refl (sym (update_here s.threads i (signalled (s.threads i)))) refl (
        Phase-delivered (s.server.sessions i) x r (s.server.sessions i).buffer (pos (i + 1)) rest
          (queue_of i q) (queue_of_here i r q) free h
          (ap (λ y. y.is_active) (update_here s.server.sessions i _))
          (ap (λ y. y.buffer) (update_here s.server.sessions i _)) (inv.phases i lt))

  pub Inv-delivering : holds (s.threads i) ≡ false → Inv next q
  Inv-delivering free = record {
    bytes = refl;
    sendable = let (lt, h, more) = inv.sendable in more;
    phases =
        phases_except s next ((i, r) ∷ q) q i delivering_other (delivering_here free) inv.phases;
    closer = λ runs c.
        let (k, lt, w, a, none_yet) = inv.closer runs c in
        let ne : k ≢ i = λ e. working_free (ap (λ m. holds m) (sym w ∙ ap s.threads e) ∙ free) in
        (k, lt, update_other s.threads i k _ ne ∙ w, a, none_yet);
  }

module _ (s : System) (q : Queue) (i : ℕ) (inv : Inv s q) where
  -- A step that changes the thread of one session alone.
  thread_other : (th : Thread) (j : ℕ) → j ≢ i → PhaseOf s q j → PhaseOf (with_thread i th s) q j
  thread_other th j ne p = Phase-eq refl refl refl (sym (update_other s.threads i j th ne)) refl p

  pub Inv-sleeping :
      i < max_clients
      → s.threads i ≡ wants
      → (s.server.sessions i).is_active ≡ false
      → Inv (with_thread i sleeping s) q
  Inv-sleeping lt e act = record {
    bytes = inv.bytes;
    sendable = inv.sendable;
    phases =
        phases_except s (with_thread i sleeping s) q q i (thread_other sleeping)
          (Phase-eq refl refl refl (sym (update_here s.threads i sleeping)) refl
            (Phase-sleeping (s.server.sessions i) e act (inv.phases i lt)))
          inv.phases;
    closer = λ runs c.
        let (k, l, w, a, none_yet) = inv.closer runs c in
        let ne : k ≢ i = λ p. wants≢working (sym e ∙ ap s.threads (sym p) ∙ w) in
        (k, l, update_other s.threads i k _ ne ∙ w, a, none_yet);
  }

  pub Inv-finishing : i < max_clients → s.threads i ≡ answered → Inv (finishing i s) q
  Inv-finishing lt e = record {
    bytes = inv.bytes;
    sendable = inv.sendable;
    phases =
        phases_except s (finishing i s) q q i
          (λ j ne p.
            Phase-eq refl refl (sym (update_other s.server.sessions i j _ ne))
              (sym (update_other s.threads i j wants ne)) refl p)
          (Phase-eq refl refl (sym (update_here s.server.sessions i _))
            (sym (update_here s.threads i wants)) refl
            (Phase-finished (s.server.sessions i) e (inv.phases i lt)))
          inv.phases;
    closer = λ runs c.
        let (k, l, w, a, none_yet) = inv.closer runs c in
        let ne : k ≢ i = λ p. answered≢working (sym e ∙ ap s.threads (sym p) ∙ w) in
        (k, l, update_other s.threads i k _ ne ∙ w, a, none_yet);
  }
