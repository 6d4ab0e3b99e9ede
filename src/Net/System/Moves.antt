-- ===== src/Net/System/Moves.antt =====
-- What each step does with a client and its session.
use tecnicofs.Base.{
  ℕ, ◌≡◌, ◌≢◌, ◌∙◌, sym, ap, refl, ◌⊎◌, inl, inr, true, false, List, [], ◌∷◌, ◌++◌, ℤ,
}
use tecnicofs.Memory.{Memory}
use tecnicofs.Net.Client.{Request, shuts_down}
use tecnicofs.Net.Receiver.{Session}
use tecnicofs.Net.Worker.{finished}
use tecnicofs.Net.Fields.{Sendable}
use tecnicofs.Net.Requests.{with_request}
use tecnicofs.Net.System.{
  Thread, wants, sleeping, working, answered, ended, signalled, holds, Client, ready, waiting,
  client_after,
}
use tecnicofs.Net.System.Phases.{Phase, resting, queued, held, replied, over}
use tecnicofs.Net.System.Held.{
  Held, not-Between, working-Between, waiting_same, head_same, tail_same, free_signalled,
  answered_after,
}

module _ {c : Client} {a : List ℕ} (x : Session) {q : List Request} where
  -- A thread that wants the lock of an active session.
  pub Held-active :
      {th : Thread} → th ≡ wants → x.is_active ≡ true → Phase c a x th q → Held c a x q
  Held-active e act (resting ec ea eq b) = absurd (not-Between e act b)
  Held-active e act (queued r ec ea eq b) = absurd (not-Between e act b)
  Held-active e act (held r m id rest h ec ea eq ex eb et) = record {
    request = r;
    memory = m;
    number = id;
    more = rest;
    sendable = h;
    client = ec;
    unanswered = ea;
    taken_out = eq;
    active = ex;
    buffer = eb;
  }
  Held-active e act (replied r ec ea eq (inl b)) = absurd (not-Between e act b)
  Held-active e act (replied r ec ea eq (inr (k, l))) = absurd (cc)
  Held-active e act (over ec ea eq (inl b)) = absurd (not-Between e act b)
  Held-active e act (over ec ea eq (inr k)) = absurd (cc)

  -- A thread behind its test.
  pub Held-working : {th : Thread} → th ≡ working → Phase c a x th q → Held c a x q
  Held-working e (resting ec ea eq b) = absurd (working-Between e b)
  Held-working e (queued r ec ea eq b) = absurd (working-Between e b)
  Held-working e (held r m id rest h ec ea eq ex eb et) = record {
    request = r;
    memory = m;
    number = id;
    more = rest;
    sendable = h;
    client = ec;
    unanswered = ea;
    taken_out = eq;
    active = ex;
    buffer = eb;
  }
  Held-working e (replied r ec ea eq (inl b)) = absurd (working-Between e b)
  Held-working e (replied r ec ea eq (inr (k, l))) = absurd (cc)
  Held-working e (over ec ea eq (inl b)) = absurd (working-Between e b)
  Held-working e (over ec ea eq (inr k)) = absurd (cc)

  pub Phase-Held : (th : Thread) → (th ≡ wants) ⊎ (th ≡ working) → Held c a x q → Phase c a x th q
  Phase-Held th e h =
      held h.request h.memory h.number h.more h.sendable h.client h.unanswered h.taken_out h.active
        h.buffer e

  pub Phase-ready : {th : Thread} → c ≡ ready → Phase c a x th q → a ≡ []
  Phase-ready e (resting ec ea eq b) = ea
  Phase-ready e (queued r ec ea eq b) = ea
  Phase-ready e (held r m id rest h ec ea eq ex eb et) = ea
  Phase-ready e (replied r ec ea eq b) = absurd (cc)
  Phase-ready e (over ec ea eq b) = ea

  -- The thread falls asleep.
  pub Phase-sleeping :
      {th : Thread} → th ≡ wants → x.is_active ≡ false → Phase c a x th q → Phase c a x sleeping q
  Phase-sleeping e act (resting ec ea eq b) = resting ec ea eq (inl (act, inr refl))
  Phase-sleeping e act (queued r ec ea eq b) = queued r ec ea eq (inl (act, inr refl))
  Phase-sleeping e act (held r m id rest h ec ea eq ex eb et) = absurd (cc)
  Phase-sleeping e act (replied r ec ea eq b) = replied r ec ea eq (inl (inl (act, inr refl)))
  Phase-sleeping e act (over ec ea eq b) = over ec ea eq (inl (inl (act, inr refl)))

  -- The thread clears the session behind the answer.
  pub Phase-finished :
      {th : Thread} → th ≡ answered → Phase c a x th q → Phase c a (finished x) wants q
  Phase-finished e (resting ec ea eq b) = resting ec ea eq (inl (refl, inl refl))
  Phase-finished e (queued r ec ea eq b) = queued r ec ea eq (inl (refl, inl refl))
  Phase-finished e (held r m id rest h ec ea eq ex eb (inl k)) = absurd (cc)
  Phase-finished e (held r m id rest h ec ea eq ex eb (inr k)) = absurd (cc)
  Phase-finished e (replied r ec ea eq b) = replied r ec ea eq (inl (inl (refl, inl refl)))
  Phase-finished e (over ec ea eq b) = over ec ea eq (inl (inl (refl, inl refl)))

  -- A client that may ask sends a request.
  pub Phase-asked :
      {th : Thread} (r : Request)
      → c ≡ ready
      → Phase c a x th q
      → Phase (waiting r) a x th (q ++ (r ∷ []))
  Phase-asked r e (resting ec ea eq b) = queued r refl ea (ap (λ z. z ++ (r ∷ [])) eq) b
  Phase-asked r e (queued r' ec ea eq b) = absurd (cc)
  Phase-asked r e (held r' m id rest h ec ea eq ex eb et) = absurd (cc)
  Phase-asked r e (replied r' ec ea eq b) = absurd (cc)
  Phase-asked r e (over ec ea eq b) = absurd (cc)

  -- A client that waits takes its answer.
  pub Phase-returned :
      {th : Thread} (r : Request)
      → c ≡ waiting r
      → a ≢ []
      → Phase c a x th q
      → Phase (client_after r) [] x th q
  Phase-returned r e some_bytes (resting ec ea eq b) = absurd (cc)
  Phase-returned r e some_bytes (queued r' ec ea eq b) = absurd (some_bytes ea)
  Phase-returned r e some_bytes (held r' m id rest h ec ea eq ex eb et) = absurd (some_bytes ea)
  Phase-returned r e some_bytes (replied r' ec ea eq (inl b)) = answered_after x r eq (inl b)
  Phase-returned r e some_bytes (replied r' ec ea eq (inr (k, l))) =
      answered_after x r eq (inr (k, waiting_same (sym e ∙ ec) ∙ l))
  Phase-returned r e some_bytes (over ec ea eq b) = absurd (cc)

  -- main takes the request of a session of which it gets the lock.
  pub Phase-delivered :
      {th : Thread} (y : Session) (r : Request) (m : Memory) (id : ℤ) (rest : List ℕ)
      (q' : List Request)
      → q ≡ r ∷ q'
      → holds th ≡ false
      → Sendable r
      → y.is_active ≡ true
      → y.buffer ≡ with_request m id r rest
      → Phase c a x th q
      → Phase c a y (signalled th) q'
  Phase-delivered y r m id rest q' e free h act eb (resting ec ea eq b) = absurd (cc)
  Phase-delivered y r m id rest q' e free h act eb (queued r' ec ea eq b) =
      held r m id rest h (ec ∙ ap waiting (head_same (sym eq ∙ e))) ea
        (sym (tail_same (sym eq ∙ e))) act eb (inl (free_signalled free b))
  Phase-delivered y r m id rest q' e free h act eb (held r' m' id' rest' h' ec ea eq ex eb' et) =
      absurd (cc)
  Phase-delivered y r m id rest q' e free h act eb (replied r' ec ea eq b) = absurd (cc)
  Phase-delivered y r m id rest q' e free h act eb (over ec ea eq b) = absurd (cc)

  -- The thread has answered.
  pub Phase-called :
      (bytes : List ℕ) → bytes ≢ [] → Held c a x q → Phase c (a ++ bytes) x answered q
  Phase-called bytes some_bytes h =
      replied h.request h.client (λ e. some_bytes (ap (λ z. z ++ bytes) (sym h.unanswered) ∙ e))
        h.taken_out (inl (inr refl))

  pub Phase-refused :
      (y : Session) (bytes : List ℕ)
      → bytes ≢ []
      → (h : Held c a x q) → h.request ≡ shuts_down
      → Phase c (a ++ bytes) y ended q
  Phase-refused y bytes some_bytes h e =
      replied h.request h.client (λ k. some_bytes (ap (λ z. z ++ bytes) (sym h.unanswered) ∙ k))
        h.taken_out (inr (refl, e))
