-- ===== src/Net/System/Held.antt =====
-- parte-2/fs/tfs_server.c: where the request of a session stands before one of its steps.
use tecnicofs.Base.{ℕ, ◌≡◌, ap, subst, refl, ◌⊎◌, inl, inr, Bool, true, false, List, [], ◌∷◌, ℤ}
use tecnicofs.Memory.{Memory}
use tecnicofs.Net.Client.{Request, opens, closes, writes, reads, unmounts, shuts_down}
use tecnicofs.Net.Receiver.{Session}
use tecnicofs.Net.Fields.{Sendable}
use tecnicofs.Net.Requests.{with_request}
use tecnicofs.Net.System.{
  Thread, wants, working, ended, signalled, holds, Client, ready, gone, waiting, client_after,
}
use tecnicofs.Net.System.Phases.{Between, Phase, resting, over}

-- Up to equations.
pub Phase-eq :
    {c c' : Client} {a a' : List ℕ} {x x' : Session} {th th' : Thread} {q q' : List Request}
    → c ≡ c'
    → a ≡ a'
    → x ≡ x'
    → th ≡ th'
    → q ≡ q'
    → Phase c a x th q
    → Phase c' a' x' th' q'
Phase-eq {c} {c'} {a} {a'} {x} {x'} {th} {th'} {q} {q'} ec ea ex et eq p =
    subst (λ z. Phase c' a' x' th' z) eq
      (subst (λ z. Phase c' a' x' z q) et
        (subst (λ z. Phase c' a' z th q) ex
          (subst (λ z. Phase c' z x th q) ea (subst (λ z. Phase z a x th q) ec p))))

-- A session whose request is in its buffer.
pub record Held (c : Client) (a : List ℕ) (x : Session) (q : List Request) : Type 0 where
  pub request : Request
  pub memory : Memory
  pub number : ℤ
  pub more : List ℕ
  pub sendable : Sendable request
  pub client : c ≡ waiting request
  pub unanswered : a ≡ []
  pub taken_out : q ≡ []
  pub active : x.is_active ≡ true
  pub buffer : x.buffer ≡ with_request memory number request more

pub not-Between : {b : Bool} {th : Thread} → th ≡ wants → b ≡ true → Between b th → ⊥
not-Between e act (inl (ia, k)) = cc
not-Between e act (inr k) = cc

pub working-Between : {b : Bool} {th : Thread} → th ≡ working → Between b th → ⊥
working-Between e (inl (ia, inl k)) = cc
working-Between e (inl (ia, inr k)) = cc
working-Between e (inr k) = cc

request_of : Client → Request → Request
request_of (waiting r) d = r
request_of ready d = d
request_of gone d = d

pub waiting_same : {r r' : Request} → waiting r ≡ waiting r' → r ≡ r'
unfolding request_of
waiting_same {r} e = ap (λ c. request_of c r) e

head_or : List Request → Request → Request
head_or [] d = d
head_or (r ∷ q) d = r

tail_of : List Request → List Request
tail_of [] = []
tail_of (r ∷ q) = q

pub head_same :
    {r r' : Request} {q q' : List Request} → ◌≡◌ {A = List Request} (r ∷ q) (r' ∷ q') → r ≡ r'
unfolding head_or
head_same {r} e = ap (λ q. head_or q r) e

pub tail_same :
    {r r' : Request} {q q' : List Request} → ◌≡◌ {A = List Request} (r ∷ q) (r' ∷ q') → q ≡ q'
unfolding tail_of
tail_same e = ap (λ q. tail_of q) e

pub free_signalled :
    {b : Bool} {th : Thread} → holds th ≡ false → Between b th → signalled th ≡ wants
free_signalled free (inl (ia, inl k)) = ap signalled k
free_signalled free (inl (ia, inr k)) = ap signalled k
free_signalled free (inr k) = absurd (cc)

-- A client behind its answer.
pub answered_after :
    (x : Session) {th : Thread} {q : List Request} (r : Request)
    → q ≡ []
    → Between x.is_active th ⊎ ((th ≡ ended) × (r ≡ shuts_down))
    → Phase (client_after r) [] x th q
answered_after x unmounts eq (inl b) = over refl refl eq (inl b)
answered_after x shuts_down eq (inl b) = over refl refl eq (inl b)
answered_after x (opens name flags) eq (inl b) = resting refl refl eq b
answered_after x (closes fhandle) eq (inl b) = resting refl refl eq b
answered_after x (writes fhandle buffer len) eq (inl b) = resting refl refl eq b
answered_after x (reads fhandle len) eq (inl b) = resting refl refl eq b
answered_after x shuts_down eq (inr (e, k)) = over refl refl eq (inr e)
answered_after x unmounts eq (inr (e, k)) = absurd (cc)
answered_after x (opens name flags) eq (inr (e, k)) = absurd (cc)
answered_after x (closes fhandle) eq (inr (e, k)) = absurd (cc)
answered_after x (writes fhandle buffer len) eq (inr (e, k)) = absurd (cc)
answered_after x (reads fhandle len) eq (inr (e, k)) = absurd (cc)
