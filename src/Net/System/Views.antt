-- ===== src/Net/System/Views.antt =====
-- The server with its threads as the service that it offers.
use tecnicofs.Base.{
  ℕ, ◌≡◌, ◌≢◌, ◌∙◌, sym, ap, ap₂, refl, arith, inl, inr, Bool-cases, ◌==◌, List, [], ◌∷◌, update,
}
use tecnicofs.Net.Client.{Request, unmounts, shuts_down, opens, closes, writes, reads}
use tecnicofs.Net.System.{Client, ready, gone, waiting, client_after, System}
use tecnicofs.Net.Service.{Call, idle, left, pending, done, call_after, Service}

-- A call that waits has happened when its answer is there.
abbrev pub call_of : Client → List ℕ → Call
call_of ready a = idle
call_of gone a = left
call_of (waiting r) [] = pending r
call_of (waiting r) (x ∷ a) = done r (x ∷ a)

abbrev pub view : System → Service
view s = record {
  files = s.files;
  calls = λ i. call_of (s.clients i) (s.answers i);
  stopped = s.stopped;
}

pub call_of-done : (r : Request) (a : List ℕ) → a ≢ [] → call_of (waiting r) a ≡ done r a
call_of-done r [] ne = absurd (ne refl)
call_of-done r (x ∷ a) ne = refl

pub call_of-after : (r : Request) → call_of (client_after r) [] ≡ call_after r
call_of-after unmounts = refl
call_of-after shuts_down = refl
call_of-after (opens name flags) = refl
call_of-after (closes fhandle) = refl
call_of-after (writes fhandle buffer len) = refl
call_of-after (reads fhandle len) = refl

-- A step that changes the call of one client alone.
calls_at :
    (c c' : ℕ → Client) (a a' : ℕ → List ℕ) (i : ℕ) (z : Call)
    → call_of (c' i) (a' i) ≡ z
    → ((j : ℕ) → j ≢ i → c' j ≡ c j)
    → ((j : ℕ) → j ≢ i → a' j ≡ a j)
    → (j : ℕ) → call_of (c' j) (a' j) ≡ update (λ k. call_of (c k) (a k)) i z j
calls_at c c' a a' i z e ec ea j = elim (Bool-cases (i == j)) [
  | inl same ↦
      let q : j ≡ i = ground arith in ap₂ call_of (ap c' q) (ap a' q) ∙ e ∙ sym (rw same refl)
  | inr other ↦
      let ne : j ≢ i = ground arith in ap₂ call_of (ec j ne) (ea j ne) ∙ sym (rw other refl)
]

pub calls_eq :
    (c c' : ℕ → Client) (a a' : ℕ → List ℕ) (i : ℕ) (z : Call)
    → call_of (c' i) (a' i) ≡ z
    → ((j : ℕ) → j ≢ i → c' j ≡ c j)
    → ((j : ℕ) → j ≢ i → a' j ≡ a j)
    → ◌≡◌ {A = ℕ → Call} (λ j. call_of (c' j) (a' j)) (update (λ k. call_of (c k) (a k)) i z)
calls_eq c c' a a' i z e ec ea k j = calls_at c c' a a' i z e ec ea j k
