-- ===== src/Net/Remote.antt =====
-- A call through the server of parte-2, against the call of the file system itself.
use tecnicofs.Base.{
  ℕ, ◌≤◌, ◌<◌, ◌≡◌, ◌∙◌, sym, subst, ap, ap₂, refl, arith, inl, inr, true, false, ◌==◌,
  Option-cases, Option, none, some, List, [], length, take, take-all, get_or, ltb, if◌then◌else◌, ℤ,
  pos, negsuc, is_nonneg, IsInt, signed64,
}
use tecnicofs.Fs.State.{State}
use tecnicofs.Fs.Operations.Api.{
  Locking, tfs_open, tfs_close, tfs_write, tfs_read, tfs_destroy_after_all_closed,
}
use tecnicofs.Net.Wire.{
  int_bytes, size_bytes, unsigned64, load_size, load_int-word, load_size-words,
}
use tecnicofs.Net.Client.{Request, unmounts, shuts_down, opens, closes, writes, reads}
use tecnicofs.Net.Requests.{served}
use tecnicofs.Net.Answers.{
  Got, blocked, got, client_result, unmount_result, data_answer, int_answer, size_answer,
}

-- The value and the bytes of the call of the file system that a request stands for.
abbrev pub local_result : Locking → Request → State → Option (ℤ × List ℕ × State)
local_result l unmounts s = some (pos 0, [], s)
local_result l shuts_down s = elim (tfs_destroy_after_all_closed s) [
  | none ↦ none
  | some (ret, t) ↦ some (ret, [], t)
]
local_result l (opens name flags) s = elim (tfs_open l (some name) flags s) [
  | none ↦ none
  | some (ret, t) ↦ some (ret, [], t)
]
local_result l (closes fhandle) s = let (ret, t) = tfs_close l fhandle s in some (ret, [], t)
local_result l (writes fhandle buffer len) s = elim (tfs_write l fhandle (take len buffer) len s) [
  | none ↦ none
  | some (ret, t) ↦ some (ret, [], t)
]
local_result l (reads fhandle len) s = tfs_read l fhandle len s

-- What the client's function gives for it.
abbrev pub expected : Request → ℤ → List ℕ → Got
expected unmounts ret bytes = got ret bytes
expected shuts_down ret bytes = got ret bytes
expected (opens name flags) ret bytes = got ret bytes
expected (closes fhandle) ret bytes = got ret bytes
expected (writes fhandle buffer len) ret bytes = got ret bytes
expected (reads fhandle len) ret bytes =
    if len == 0 then got ret [] else if length bytes == 0 then blocked else got ret bytes

-- A value of 64 bits.
abbrev pub IsSize : ℤ → Type 0
IsSize (pos n) = n < 0x8000000000000000
IsSize (negsuc n) = n < 0x8000000000000000

-- The range of the results of a call.
abbrev pub InRange : Request → ℤ → List ℕ → Type 0
InRange unmounts ret bytes = IsInt ret × (bytes ≡ [])
InRange shuts_down ret bytes = IsInt ret × (bytes ≡ [])
InRange (opens name flags) ret bytes = IsInt ret × (bytes ≡ [])
InRange (closes fhandle) ret bytes = IsInt ret × (bytes ≡ [])
InRange (writes fhandle buffer len) ret bytes = IsSize ret × (bytes ≡ [])
InRange (reads fhandle len) ret bytes =
    (ret ≡ pos (length bytes)) × (length bytes ≤ len) × (length bytes < 0x8000000000000000)

int_answer-int_bytes : (z : ℤ) → IsInt z → int_answer (int_bytes z []) ≡ got z []
int_answer-int_bytes z h =
    ap (λ x. got x [])
      (load_int-word (λ k. get_or (int_bytes z []) k 0) 0 z h (refl, refl, refl, refl))

unsigned64-lt : (z : ℤ) → IsSize z → unsigned64 z < 0x10000000000000000
unsigned64-lt (pos n) h = omega (arith, h)
unsigned64-lt (negsuc n) h = omega (arith, h)

signed64-unsigned64 : (z : ℤ) → IsSize z → signed64 (unsigned64 z) ≡ z
signed64-unsigned64 (pos n) h = ground arith
signed64-unsigned64 (negsuc n) h = ground arith

-- The value of a size that stands first.
loaded_size :
    (z : ℤ) (bytes : List ℕ)
    → IsSize z
    → signed64 (load_size (λ k. get_or (size_bytes (unsigned64 z) bytes) k 0) 0) ≡ z
loaded_size z bytes h =
    ap signed64 (
      load_size-words (λ k. get_or (size_bytes (unsigned64 z) bytes) k 0) 0 (unsigned64 z)
        (unsigned64-lt z h) (refl, refl, refl, refl) (refl, refl, refl, refl))
    ∙ signed64-unsigned64 z h

data_answer-expected :
    (fhandle : ℤ) (len : ℕ) (ret : ℤ) (bytes : List ℕ)
    → length bytes ≤ len
    → data_answer len bytes ret ≡ expected (reads fhandle len) ret bytes
unfolding data_answer
data_answer-expected fhandle len ret bytes le =
    ap (λ xs. if len == 0 then got ret [] else if length bytes == 0 then blocked else got ret xs)
      (take-all len bytes le)

-- The client makes of an answer what the call gave.
client_result-size :
    (fhandle : ℤ) (len : ℕ) (ret : ℤ) (bytes : List ℕ)
    → InRange (reads fhandle len) ret bytes
    → client_result (reads fhandle len) (size_bytes (unsigned64 ret) bytes)
      ≡ expected (reads fhandle len) ret bytes
unfolding client_result
client_result-size fhandle len ret bytes (e, le, small) =
    let sized : IsSize ret = subst IsSize (sym e) small in
    let enough : ltb (length (size_bytes (unsigned64 ret) bytes)) 8 ≡ false = ground arith in
    rw enough (
      ap (λ z. data_answer len bytes z) (loaded_size ret bytes sized)
      ∙ data_answer-expected fhandle len ret bytes le)

client_result-written : (z : ℤ) → IsSize z → size_answer (size_bytes (unsigned64 z) []) ≡ got z []
client_result-written z h = ap (λ x. got x []) (loaded_size z [] h)

-- The answer to a request, from what the call gives.
abbrev Answered : Locking → Request → State → ℤ → List ℕ → State → Type 0
Answered l r s ret bytes t =
    (answer : List ℕ) × (served l r s ≡ some (answer, t))
    × (client_result r answer ≡ expected r ret bytes)

int_Answered :
    (l : Locking) (r : Request) (s : State) (ret : ℤ) (bytes : List ℕ) (t : State)
    → served l r s ≡ some (int_bytes ret [], t)
    → client_result r (int_bytes ret []) ≡ int_answer (int_bytes ret [])
    → expected r ret [] ≡ got ret []
    → IsInt ret
    → bytes ≡ []
    → Answered l r s ret bytes t
int_Answered l r s ret bytes t e c x h eb = (
  int_bytes ret [],
  e,
  c ∙ int_answer-int_bytes ret h ∙ sym x ∙ ap (λ b. expected r ret b) (sym eb),
)

value_of : Option (ℤ × List ℕ × State) → ℤ → ℤ
value_of none d = d
value_of (some (ret, bytes, t)) d = ret

state_of : Option (ℤ × List ℕ × State) → State → State
state_of none d = d
state_of (some (ret, bytes, t)) d = t

bytes_of : Option (ℤ × List ℕ × State) → List ℕ
bytes_of none = []
bytes_of (some (ret, bytes, t)) = bytes

pub results_same :
    {ret ret' : ℤ} {b b' : List ℕ} {t t' : State}
    → ◌≡◌ {A = Option (ℤ × List ℕ × State)} (some (ret, b, t)) (some (ret', b', t'))
    → (ret ≡ ret') × (t ≡ t') × (b ≡ b')
unfolding value_of state_of bytes_of
results_same {ret} {ret'} {b} {b'} {t} e =
    (ap (λ o. value_of o ret) e, ap (λ o. state_of o t) e, ap bytes_of e)

pub none≢result : {x : ℤ × List ℕ × State} → ◌≡◌ {A = Option (ℤ × List ℕ × State)} none (some x) → ⊥
none≢result e = cc

pub remote-local :
    (l : Locking) (r : Request) (s t : State) (ret : ℤ) (bytes : List ℕ)
    → local_result l r s ≡ some (ret, bytes, t)
    → InRange r ret bytes
    → (answer : List ℕ) × (served l r s ≡ some (answer, t))
      × (client_result r answer ≡ expected r ret bytes)
unfolding client_result
remote-local l unmounts s t ret bytes e (h, eb) =
    let (er, et, ey) = results_same e in
    (
      int_bytes (pos 0) [],
      ap (λ u. some (int_bytes (pos 0) [], u)) et,
      ap unmount_result (int_answer-int_bytes (pos 0) (omega arith)) ∙ ap₂ got er ey,
    )
remote-local l shuts_down s t ret bytes e (h, eb) =
    elim (Option-cases (tfs_destroy_after_all_closed s)) [
      | inl q ↦ absurd (none≢result (rw (q, local_result) at e))
      | inr ((z, u), q) ↦
          let (er, et, ey) = results_same (rw (q, local_result) at e) in
          int_Answered l shuts_down s ret bytes t
            (rw (q, served) (ap₂ (λ z u. some (int_bytes z [], u)) er et)) refl refl h eb
    ]
remote-local l (opens name flags) s t ret bytes e (h, eb) =
    elim (Option-cases (tfs_open l (some name) flags s)) [
      | inl q ↦ absurd (none≢result (rw (q, local_result) at e))
      | inr ((z, u), q) ↦
          let (er, et, ey) = results_same (rw (q, local_result) at e) in
          int_Answered l (opens name flags) s ret bytes t
            (rw (q, served) (ap₂ (λ z u. some (int_bytes z [], u)) er et)) refl refl h eb
    ]
remote-local l (closes fhandle) s t ret bytes e (h, eb) =
    let (er, et, ey) = results_same e in
    int_Answered l (closes fhandle) s ret bytes t (ap₂ (λ z u. some (int_bytes z [], u)) er et) refl
      refl h eb
remote-local l (writes fhandle buffer len) s t ret bytes e (h, eb) =
    elim (Option-cases (tfs_write l fhandle (take len buffer) len s)) [
      | inl q ↦ absurd (none≢result (rw (q, local_result) at e))
      | inr ((z, u), q) ↦
          let (er, et, ey) = results_same (rw (q, local_result) at e) in
          (
            size_bytes (unsigned64 ret) [],
            rw (q, served) (ap₂ (λ z u. some (size_bytes (unsigned64 z) [], u)) er et),
            client_result-written ret h ∙ ap (λ b. got ret b) (sym eb),
          )
    ]
remote-local l (reads fhandle len) s t ret bytes e (en, le, small) =
    let nonneg : is_nonneg ret ≡ true = ap is_nonneg en in
    (
      size_bytes (unsigned64 ret) bytes,
      rw (e, nonneg, served) refl,
      client_result-size fhandle len ret bytes (en, le, small),
    )
