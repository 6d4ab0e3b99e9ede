-- ===== src/Net/System/Sinks.antt =====
-- parte-2/fs/tfs_server.c: what each step of the server does to the measure of what is left to do.
use tecnicofs.Base.{
  ℕ, zero, suc, ◌+◌, ◌≤◌, ◌<◌, ◌≡◌, ◌≢◌, ◌∙◌, sym, ap, ap₂, subst, refl, arith, inl, inr, Bool,
  true, false, Bool-cases, ◌==◌, List, [], ◌∷◌, length, length-append, update_here, update_other,
  if◌then◌else◌,
}
use tecnicofs.Fs.State.{State}
use tecnicofs.Net.Receiver.{Server, max_clients, receive, dispatched}
use tecnicofs.Net.System.{
  Thread, wants, sleeping, working, answered, ended, signalled, holds, System, delivering,
  with_thread, woken, called, finishing,
}
use tecnicofs.Net.System.Phases.{Queue, queue_bytes, request_bytes, Inv}
use tecnicofs.Net.System.Woken.{turned_down, taken_up, woken_cases}
use tecnicofs.Net.System.Serves.{waits≢dispatched, delivering_eq}
use tecnicofs.Net.System.Steps.{given, receive-queue, dispatched_same}
use tecnicofs.Net.Client.{Request}
use tecnicofs.Net.Receiver.{waits}
use tecnicofs.Net.Worker.{finished}

-- How many steps a thread takes before it sleeps, its session being active or not.
abbrev steps_left : Thread → Bool → ℕ
steps_left wants active = if active then 4 else 1
steps_left sleeping active = 0
steps_left working active = 3
steps_left answered active = 2
steps_left ended active = 0

abbrev left_at : System → ℕ → ℕ
left_at s i = steps_left (s.threads i) (s.server.sessions i).is_active

abbrev sum_below : ℕ → (ℕ → ℕ) → ℕ
sum_below zero f = 0
sum_below (suc n) f = sum_below n f + f n

-- A request in the pipe has five bytes or more.
abbrev pub measure : System → ℕ
measure s = length s.pipe + sum_below max_clients (left_at s)

sum_below-same :
    (n : ℕ) (f g : ℕ → ℕ) → ((j : ℕ) → j < n → g j ≡ f j) → sum_below n g ≡ sum_below n f
sum_below-same zero f g e = refl
sum_below-same (suc n) f g e =
    omega (arith, sum_below-same n f g (λ j lt. e j (omega arith)), e n (omega arith))

-- Only the entry `i` changes.
sum_below-change :
    (n i : ℕ) (f g : ℕ → ℕ)
    → i < n
    → ((j : ℕ) → j ≢ i → g j ≡ f j)
    → sum_below n g + f i ≡ sum_below n f + g i
sum_below-change zero i f g lt e = absurd (omega arith)
sum_below-change (suc n) i f g lt e = elim (Bool-cases (n == i)) [
  | inl last ↦
      let q : n ≡ i = ground arith in
      let same = sum_below-same n f g (λ j below. e j (omega arith)) in
      let here = ap f q in let there = ap g q in omega (arith, same, here, there)
  | inr other ↦
      let below = sum_below-change n i f g (ground arith) e in
      let same = e n (ground arith) in omega (arith, below, same)
]

sinks :
    (s t : System) (i : ℕ)
    → i < max_clients
    → ((j : ℕ) → j ≢ i → left_at t j ≡ left_at s j)
    → length t.pipe + left_at t i < length s.pipe + left_at s i
    → measure t < measure s
sinks s t i lt others less =
    let change = sum_below-change max_clients i (left_at s) (left_at t) lt others in
    omega (arith, change, less)

module _ (s : System) (i : ℕ) (lt : i < max_clients) where
  -- A step of the thread of the session `i`, which takes no bytes.
  thread_sinks :
      (t : System)
      → t.pipe ≡ s.pipe
      → ((j : ℕ) → j ≢ i → left_at t j ≡ left_at s j)
      → left_at t i < left_at s i
      → measure t < measure s
  thread_sinks t e others less =
      let same = ap length e in sinks s t i lt others (omega (arith, same, less))

  pub sleeping_sinks :
      s.threads i ≡ wants
      → (s.server.sessions i).is_active ≡ false
      → measure (with_thread i sleeping s) < measure s
  sleeping_sinks e act =
      let before : left_at s i ≡ 1 = ap₂ steps_left e act in
      let after : left_at (with_thread i sleeping s) i ≡ 0 =
        ap (λ th. steps_left th (s.server.sessions i).is_active)
          (update_here s.threads i sleeping) in
      thread_sinks (with_thread i sleeping s) refl
        (λ j ne.
          ap (λ th. steps_left th (s.server.sessions j).is_active)
            (update_other s.threads i j sleeping ne))
        (omega (arith, before, after))

  pub finishing_sinks : s.threads i ≡ answered → measure (finishing i s) < measure s
  finishing_sinks e =
      let before : left_at s i ≡ 2 = ap (λ th. steps_left th (s.server.sessions i).is_active) e in
      let after : left_at (finishing i s) i ≡ 1 = ap₂ steps_left (update_here s.threads i wants) (
        ap (λ y. y.is_active) (update_here s.server.sessions i (finished (s.server.sessions i)))) in
      thread_sinks (finishing i s) refl
        (λ j ne.
          ap₂ steps_left (update_other s.threads i j wants ne)
            (ap (λ y. y.is_active) (update_other s.server.sessions i j _ ne)))
        (omega (arith, before, after))

  pub called_sinks :
      (bytes : List ℕ) (f : State)
      → s.threads i ≡ working
      → measure (called i bytes f s) < measure s
  called_sinks bytes f e =
      let before : left_at s i ≡ 3 = ap (λ th. steps_left th (s.server.sessions i).is_active) e in
      let after : left_at (called i bytes f s) i ≡ 2 =
        ap (λ th. steps_left th (s.server.sessions i).is_active)
          (update_here s.threads i answered) in
      thread_sinks (called i bytes f s) refl
        (λ j ne.
          ap (λ th. steps_left th (s.server.sessions j).is_active)
            (update_other s.threads i j answered ne))
        (omega (arith, before, after))

  turned_down_sinks :
      s.threads i ≡ wants
      → (s.server.sessions i).is_active ≡ true
      → measure (turned_down i s) < measure s
  turned_down_sinks e act =
      let before : left_at s i ≡ 4 = ap₂ steps_left e act in
      let after : left_at (turned_down i s) i ≡ 0 =
        ap (λ th. steps_left th ((turned_down i s).server.sessions i).is_active)
          (update_here s.threads i ended) in
      thread_sinks (turned_down i s) refl
        (λ j ne.
          ap₂ steps_left (update_other s.threads i j ended ne)
            (ap (λ y. y.is_active) (update_other s.server.sessions i j _ ne)))
        (omega (arith, before, after))

  taken_up_sinks :
      (closing : Bool)
      → s.threads i ≡ wants
      → (s.server.sessions i).is_active ≡ true
      → measure (taken_up i closing s) < measure s
  taken_up_sinks closing e act =
      let before : left_at s i ≡ 4 = ap₂ steps_left e act in
      let after : left_at (taken_up i closing s) i ≡ 3 =
        ap (λ th. steps_left th (s.server.sessions i).is_active)
          (update_here s.threads i working) in
      thread_sinks (taken_up i closing s) refl
        (λ j ne.
          ap (λ th. steps_left th (s.server.sessions j).is_active)
            (update_other s.threads i j working ne))
        (omega (arith, before, after))

  pub woken_sinks :
      s.threads i ≡ wants → (s.server.sessions i).is_active ≡ true → measure (woken i s) < measure s
  woken_sinks e act = elim (woken_cases i s) [
    | inl (p, c, seven) ↦ subst (λ t. measure t < measure s) (sym p) (turned_down_sinks e act)
    | inr (inl (p, c, seven)) ↦
        subst (λ t. measure t < measure s) (sym p) (taken_up_sinks true e act)
    | inr (inr (p, other)) ↦
        subst (λ t. measure t < measure s) (sym p) (taken_up_sinks s.server.shutdown_called e act)
  ]

delivered_left : (th : Thread) → holds th ≡ false → steps_left (signalled th) true ≤ 4
delivered_left wants e = omega arith
delivered_left sleeping e = omega arith
delivered_left working e = absurd (cc)
delivered_left answered e = absurd (cc)
delivered_left ended e = omega arith

delivering_sinks :
    (s : System) (q : Queue) (i : ℕ) (r : Request)
    → Inv s ((i, r) ∷ q)
    → holds (s.threads i) ≡ false
    → measure (delivering i (given s.server i r (queue_bytes q)) (queue_bytes q) s) < measure s
delivering_sinks s q i r inv free =
    let (lt, h, more) = inv.sendable in
    let v : Server = given s.server i r (queue_bytes q) in
    let after : left_at (delivering i v (queue_bytes q) s) i
        ≡ steps_left (signalled (s.threads i)) true =
      ap₂ steps_left (update_here s.threads i (signalled (s.threads i)))
        (ap (λ y. y.is_active) (update_here s.server.sessions i _)) in
    let few : steps_left (signalled (s.threads i)) true ≤ 4 = delivered_left (s.threads i) free in
    let bytes = ap length inv.bytes in
    let long = length-append (request_bytes i r) (queue_bytes q) in
    sinks s (delivering i v (queue_bytes q) s) i lt
      (λ j ne.
        ap₂ steps_left (update_other s.threads i j (signalled (s.threads i)) ne)
          (ap (λ y. y.is_active) (update_other s.server.sessions i j _ ne)))
      (omega (arith, after, few, bytes, long))

pub delivers_sinks :
    (s : System) (q : Queue) (i : ℕ) (v : Server) (rest : List ℕ)
    → Inv s q
    → receive s.server s.pipe ≡ dispatched i v rest
    → holds (s.threads i) ≡ false
    → measure (delivering i v rest s) < measure s
unfolding receive
delivers_sinks s [] i v rest inv e free =
    let q : waits ≡ dispatched i v rest = sym (ap (λ b. receive s.server b) inv.bytes) ∙ e in
    absurd (waits≢dispatched q)
delivers_sinks s ((j, r) ∷ q) i v rest inv e free =
    let (lt, h, more) = inv.sendable in
    let (ei, ev, er) = dispatched_same (
      sym (receive-queue s.server j r (queue_bytes q) lt h)
      ∙ sym (ap (λ b. receive s.server b) inv.bytes)
      ∙ e) in
    subst (λ u. measure u < measure s) (delivering_eq s ei ev er)
      (delivering_sinks s q j r inv (ap (λ k. holds (s.threads k)) ei ∙ free))
