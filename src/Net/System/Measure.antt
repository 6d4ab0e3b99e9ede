-- ===== src/Net/System/Measure.antt =====
-- How many steps the server of parte-2/fs/tfs_server.c can take before a client has to ask again.
use tecnicofs.Base.{ℕ, suc, ◌+◌, ◌≤◌, ◌<◌, ◌≡◌, sym, ap, subst, arith}
use tecnicofs.Fs.Operations.Api.{Locking}
use tecnicofs.Net.System.{
  served_by, System, ServerStep, delivers, sleeps, wakes, calls, finishes, Started, Reach,
}
use tecnicofs.Net.System.Phases.{Queue, Inv}
use tecnicofs.Net.System.Refinement.{Reach-Inv}
use tecnicofs.Net.System.Sinks.{
  measure, sleeping_sinks, finishing_sinks, called_sinks, woken_sinks, delivers_sinks,
}

-- Each step of the server lowers the measure.
ServerStep-sinks :
    (l : Locking) (s t : System) (q : Queue) → Inv s q → ServerStep l s t → measure t < measure s
ServerStep-sinks l s t q inv (delivers i v rest runs e free te) =
    subst (λ u. measure u < measure s) (sym te) (delivers_sinks s q i v rest inv e free)
ServerStep-sinks l s t q inv (sleeps i lt runs e act te) =
    subst (λ u. measure u < measure s) (sym te) (sleeping_sinks s i lt e act)
ServerStep-sinks l s t q inv (wakes i lt runs e act te) =
    subst (λ u. measure u < measure s) (sym te) (woken_sinks s i lt e act)
ServerStep-sinks l s t q inv (calls i bytes f lt runs e answer te) =
    subst (λ u. measure u < measure s) (sym te) (called_sinks s i lt bytes f e)
ServerStep-sinks l s t q inv (finishes i lt runs e te) =
    subst (λ u. measure u < measure s) (sym te) (finishing_sinks s i lt e)

-- `n` steps of the server, with none of a client among them.
pub data Serving (l : Locking) (s : System) : ℕ → System → Type 0 where
  at_rest : {n : ℕ} {t : System} → n ≡ 0 → t ≡ s → Serving l s n t
  one_more :
      (m : ℕ) (u : System) {n : ℕ} {t : System}
      → Serving l s m u
      → ServerStep l u t
      → n ≡ suc m
      → Serving l s n t

Serving-Reach : (l : Locking) (b s t : System) (n : ℕ) → Reach l b s → Serving l s n t → Reach l b t
Serving-Reach l b s t n r (at_rest e te) = subst (λ u. Reach l b u) (sym te) r
Serving-Reach l b s t n r (one_more m u run st e) = served_by (Serving-Reach l b s u m r run) st

-- From a start with nothing asked for, n steps of the server in a row, with no step of a client
-- between them, are at most as many as a measure of the state before them: the bytes in the pipe
-- of main, and for each session at most 4. So main and the threads come to rest.
pub Serving-ends :
    (l : Locking) (b s t : System) (n : ℕ)
    → Started b
    → Reach l b s
    → Serving l s n t
    → n + measure t ≤ measure s
Serving-ends l b s t n begin r (at_rest e te) = let same = ap measure te in omega (arith, e, same)
Serving-ends l b s t n begin r (one_more m u run st e) =
    let before = Serving-ends l b s u m begin r run in
    let (q, inv) = Reach-Inv l b u begin (Serving-Reach l b s u m r run) in
    let less = ServerStep-sinks l u t q inv st in omega (arith, before, less, e)
