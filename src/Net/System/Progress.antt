-- ===== src/Net/System/Progress.antt =====
-- The threads of parte-2/fs/tfs_server.c do not wait for each other for ever, and come to rest.
use tecnicofs.Base.{
  ℕ, ◌<◌, ◌≡◌, ◌≢◌, ◌∙◌, sym, ap, subst, refl, ◌⊎◌, inl, inr, true, false, Bool-cases, Option-cases,
  none, List, [], ◌∷◌,
}
use tecnicofs.Fs.Operations.Api.{Locking}
use tecnicofs.Net.Client.{Request}
use tecnicofs.Net.Receiver.{Session, max_clients, receive}
use tecnicofs.Net.Requests.{served}
use tecnicofs.Net.System.{
  wants, working, holds, Client, waiting, System, delivering, woken, called, finishing, ServerStep,
  delivers, wakes, calls, finishes, Started, Reach,
}
use tecnicofs.Net.System.Phases.{
  Queue, queue_bytes, queue_of, Phase, resting, queued, held, replied, over, Inv,
}
use tecnicofs.Net.System.Held.{Held, waiting_same}
use tecnicofs.Net.System.Steps.{given, receive-queue, queue_of_here}
use tecnicofs.Net.System.Woken.{handle-Held}
use tecnicofs.Net.System.Refinement.{Reach-Inv}

-- The server can go on.
abbrev pub Moves : Locking → System → Type 0
Moves l s = (t : System) × ServerStep l s t

nil≢cons : {r : Request} {q : List Request} → [] ≢ r ∷ q
nil≢cons e = cc

module _ (l : Locking) (s : System) (runs : s.stopped ≡ false) where
  -- A thread that holds the lock of a session whose request is in the pipe has answered.
  holder-Moves :
      (j : ℕ) (c : Client) (a : List ℕ) (x : Session) (r : Request) (q : List Request)
      → j < max_clients
      → holds (s.threads j) ≡ true
      → Phase c a x (s.threads j) (r ∷ q)
      → Moves l s
  holder-Moves j c a x r q lt e (resting ec ea eq b) = absurd (cc)
  holder-Moves j c a x r q lt e (queued r' ec ea eq (inl (ia, inl k))) = absurd (cc)
  holder-Moves j c a x r q lt e (queued r' ec ea eq (inl (ia, inr k))) = absurd (cc)
  holder-Moves j c a x r q lt e (queued r' ec ea eq (inr k)) =
      (finishing j s, finishes j lt runs k refl)
  holder-Moves j c a x r q lt e (held r' m id rest h ec ea eq ex eb et) = absurd (cc)
  holder-Moves j c a x r q lt e (replied r' ec ea eq b) = absurd (cc)
  holder-Moves j c a x r q lt e (over ec ea eq b) = absurd (cc)

  -- The first request in the pipe moves on.
  front-Moves : (q : Queue) → q ≢ [] → Inv s q → Moves l s
  front-Moves [] ne inv = absurd (ne refl)
  front-Moves ((j, r) ∷ q) ne inv =
      let (lt, h, more) = inv.sendable in
      elim (Bool-cases (holds (s.threads j))) [
        | inl e ↦
            holder-Moves j (s.clients j) (s.answers j) (s.server.sessions j) r (queue_of j q) lt e (
              subst (λ z. Phase (s.clients j) (s.answers j) (s.server.sessions j) (s.threads j) z)
                (queue_of_here j r q) (inv.phases j lt))
        | inr e ↦ (
          delivering j (given s.server j r (queue_bytes q)) (queue_bytes q) s,
          delivers j (given s.server j r (queue_bytes q)) (queue_bytes q) runs
              (ap (λ b. receive s.server b) inv.bytes
                ∙ receive-queue s.server j r (queue_bytes q) lt h)
              e refl,
        )
      ]

  Advances : ℕ → Request → Type 0
  Advances i r = Moves l s ⊎ ((s.threads i ≡ working) × (served l r s.files ≡ none))

  Held-Advances :
      (i : ℕ) (r : Request) (q : List Request)
      → i < max_clients
      → s.clients i ≡ waiting r
      → (s.threads i ≡ wants) ⊎ (s.threads i ≡ working)
      → Held (s.clients i) (s.answers i) (s.server.sessions i) q
      → Advances i r
  unfolding Advances
  Held-Advances i r q lt ec (inl e) h = inl (woken i s, wakes i lt runs e h.active refl)
  Held-Advances i r q lt ec (inr e) h =
      let same : h.request ≡ r = waiting_same (sym h.client ∙ ec) in
      elim (Option-cases (served l h.request s.files)) [
        | inl k ↦ inr (e, ap (λ z. served l z s.files) (sym same) ∙ k)
        | inr ((bytes, f), k) ↦
            inl (called i bytes f s, calls i bytes f lt runs e (handle-Held s i h l ∙ k) refl)
      ]

  queue≢nil : (i : ℕ) (r : Request) (q : Queue) → queue_of i q ≡ r ∷ [] → q ≢ []
  queue≢nil i r q e k = nil≢cons (ap (λ z. queue_of i z) (sym k) ∙ e)

  Inv-Advances :
      (i : ℕ) (r : Request) (q : Queue)
      → i < max_clients
      → s.clients i ≡ waiting r
      → s.answers i ≡ []
      → Inv s q
      → Advances i r
  unfolding Advances
  Inv-Advances i r q lt ec ea inv = go (inv.phases i lt)
    where
      go :
          Phase (s.clients i) (s.answers i) (s.server.sessions i) (s.threads i) (queue_of i q)
          → Advances i r
      go (resting ec' ea' eq b) = absurd (cc)
      go (queued r' ec' ea' eq b) = inl (front-Moves q (queue≢nil i r' q eq) inv)
      go (held r' m id rest h ec' ea' eq ex eb et) =
          Held-Advances i r (queue_of i q) lt ec et (record {
            request = r';
            memory = m;
            number = id;
            more = rest;
            sendable = h;
            client = ec';
            unanswered = ea';
            taken_out = eq;
            active = ex;
            buffer = eb;
          })
      go (replied r' ec' some_bytes eq b) = absurd (some_bytes ea)
      go (over ec' ea' eq b) = absurd (cc)

-- From a start with nothing asked for, and until a shutdown has ended the process, no interleaving
-- leaves a client behind: when the client of a session waits and its answer is not there, a step
-- of the server is possible, or the thread of that session is in the call of the client's request,
-- and this call gives no result in the present file system.
pub waiting-Advances :
    (l : Locking) (s t : System) (i : ℕ) (r : Request)
    → Started s
    → Reach l s t
    → t.stopped ≡ false
    → i < max_clients
    → t.clients i ≡ waiting r
    → t.answers i ≡ []
    → Moves l t ⊎ ((t.threads i ≡ working) × (served l r t.files ≡ none))
unfolding Advances
waiting-Advances l s t i r b reach runs lt ec ea =
    let (q, inv) = Reach-Inv l s t b reach in Inv-Advances l t runs i r q lt ec ea inv
