-- ===== src/Net/System/Replies.antt =====
-- parte-2/fs/tfs_server.c: an answer to a request is never empty.
use tecnicofs.Base.{
  Option-cases, Bool-cases, is_nonneg, take, ℕ, ◌≡◌, ◌≢◌, ◌∙◌, sym, ap, refl, inl, inr, Bool, true,
  false, Option, none, some, List, [], ◌∷◌,
}
use tecnicofs.Fs.State.{State}
use tecnicofs.Fs.Operations.Api.{
  Locking, tfs_open, tfs_write, tfs_read, tfs_destroy_after_all_closed,
}
use tecnicofs.Net.Client.{Request, opens, closes, writes, reads, unmounts, shuts_down}
use tecnicofs.Net.Requests.{served}

bytes_of : Option (List ℕ × State) → List ℕ → List ℕ
bytes_of none d = d
bytes_of (some (bytes, s)) d = bytes

some_bytes_same :
    {b b' : List ℕ} {f f' : State}
    → ◌≡◌ {A = Option (List ℕ × State)} (some (b, f)) (some (b', f'))
    → b ≡ b'
unfolding bytes_of
some_bytes_same {b} e = ap (λ o. bytes_of o b) e

pub cons≢nil : (n : ℕ) (xs : List ℕ) → n ∷ xs ≢ []
cons≢nil n xs e = cc

filled_list : List ℕ → Bool
filled_list [] = false
filled_list (x ∷ xs) = true

-- What starts with a byte is not empty.
nonempty :
    {b b' : List ℕ} {f f' : State}
    → filled_list b ≡ true
    → ◌≡◌ {A = Option (List ℕ × State)} (some (b, f)) (some (b', f'))
    → b' ≢ []
unfolding filled_list
nonempty {b} {b'} h e k =
    let q : false ≡ true = sym (ap (λ xs. filled_list xs) (some_bytes_same e ∙ k)) ∙ h in
    absurd (cc)

no_answer : {b : List ℕ × State} → ◌≡◌ {A = Option (List ℕ × State)} none (some b) → ⊥
no_answer e = cc

-- An answer has bytes.
pub served-nonempty :
    (l : Locking) (r : Request) (s f : State) (bytes : List ℕ)
    → served l r s ≡ some (bytes, f)
    → bytes ≢ []
unfolding filled_list
served-nonempty l unmounts s f bytes e = nonempty refl e
served-nonempty l shuts_down s f bytes e = elim (Option-cases (tfs_destroy_after_all_closed s)) [
  | inl q ↦ absurd (no_answer (rw (q, served) at e))
  | inr ((ret, u), q) ↦ nonempty refl (rw (q, served) at e)
]
served-nonempty l (opens name flags) s f bytes e =
    elim (Option-cases (tfs_open l (some name) flags s)) [
      | inl q ↦ absurd (no_answer (rw (q, served) at e))
      | inr ((ret, u), q) ↦ nonempty refl (rw (q, served) at e)
    ]
served-nonempty l (closes fhandle) s f bytes e = nonempty refl e
served-nonempty l (writes fhandle buffer len) s f bytes e =
    elim (Option-cases (tfs_write l fhandle (take len buffer) len s)) [
      | inl q ↦ absurd (no_answer (rw (q, served) at e))
      | inr ((ret, u), q) ↦ nonempty refl (rw (q, served) at e)
    ]
served-nonempty l (reads fhandle len) s f bytes e = elim (Option-cases (tfs_read l fhandle len s)) [
  | inl q ↦ absurd (no_answer (rw (q, served) at e))
  | inr ((ret, xs, u), q) ↦ elim (Bool-cases (is_nonneg ret)) [
    | inl k ↦ nonempty refl (rw (q, k, served) at e)
    | inr k ↦ absurd (no_answer (rw (q, k, served) at e))
  ]
]
