-- ===== src/Registry/Laws.antt =====
-- What the handshake operations of the session registry read and write.
use Prim.Native.String.{String}
use text.Mathlib.Text.{◌==◌ as str_eq}
use global_protect_openconne.Prelude.{
  ℕ, ◌+◌, ◌≡◌, refl, inl, inr, true, false, Option, none, some, arith, ok, err, is_ok, Result-cases,
  Bool-cases, ◌==◌, ==_refl, not,
}
use global_protect_openconne.Prelude.Map.{lookup, lookup-insert}
use global_protect_openconne.Drain.{Heap}
use global_protect_openconne.VpnState.{Uuid}
use global_protect_openconne.Registry.{
  ConnectionControl, unauthorized, unavailable, SessionStatus, pending, active, service_restarted,
  SessionRecord, Registry, HandshakePermit, find, put,
}
use global_protect_openconne.Registry.Handshake.{
  attach, commit_attach, is_claimed, claim, begin_handshake,
}

module _ {E : Type 0} (e f : E) (g : Registry) (id : Uuid) where
  pub find-ok :
      {r : SessionRecord}
      → find e f g id ≡ ok r
      → (g.poisoned ≡ false) × (lookup id g.sessions ≡ some r)
  unfolding find
  find-ok h = ground arith

  pub find_of_lookup :
      {r : SessionRecord}
      → g.poisoned ≡ false
      → lookup id g.sessions ≡ some r
      → find e f g id ≡ ok r
  unfolding find
  find_of_lookup h k = rw (h, k)

  pub find-put : (r : SessionRecord) → g.poisoned ≡ false → find e f (put id r g) id ≡ ok r
  unfolding find put
  find-put r h = rw (h, lookup-insert id id r g.sessions, ==_refl id)

-- The generation of an attachment; 0 before the first.
abbrev pub generation_of : SessionStatus → ℕ
generation_of (pending _ _) = 0
generation_of (active n _ _) = n

abbrev pub token_of : SessionStatus → Option Uuid
token_of (pending _ t) = t
token_of (active _ _ t) = t

pub is_claimed_lem :
    (p : HandshakePermit) (s : SessionStatus)
    → is_claimed p s ≡ true
    → (generation_of s ≡ p.observed_generation) × (token_of s ≡ some p.token)
is_claimed_lem p (pending d none) h = ground arith
is_claimed_lem p (pending d (some t)) h = ground arith
is_claimed_lem p (active n c none) h = ground arith
is_claimed_lem p (active n c (some t)) h = ground arith

attach-ok :
    (p : HandshakePermit) (c : ConnectionControl) (r : SessionRecord) (s : SessionStatus)
    (g : Registry) (h : Heap)
    → is_claimed p s ≡ true
    → is_ok (attach p c r s g h).2 ≡ true
    → (r' : SessionRecord) × ((attach p c r s g h).0 ≡ put p.session_id r' g)
      × (r'.status ≡ active (p.observed_generation + 1) (some c) none)
unfolding attach
attach-ok p c r (pending d t) g h y k =
    (record r { status = active 1 (some c) none }, refl, ground arith)
attach-ok p c r (active n old t) g h y k = (
  record r { closed_attachment = none; status = active (n + 1) (some c) none },
  ground arith,
  ground arith,
)

-- What a successful commit has found and written.
pub commit_attach-ok :
    (p : HandshakePermit) (c : ConnectionControl) (g : Registry) (h : Heap)
    → is_ok (commit_attach p c g h).2 ≡ true
    → (r : SessionRecord) × (r' : SessionRecord) × (find unavailable unauthorized g p.session_id
        ≡ ok r)
      × (is_claimed p r.status ≡ true)
      × ((commit_attach p c g h).0 ≡ put p.session_id r' g)
      × (r'.status ≡ active (p.observed_generation + 1) (some c) none)
unfolding commit_attach
commit_attach-ok p c g h k = elim (Result-cases (find unavailable unauthorized g p.session_id)) [
  | inl (e, q) ↦ let f : false ≡ true = rw (q, commit_attach) at k in cc
  | inr (r, q) ↦ elim (Bool-cases (is_claimed p r.status)) [
    | inr n ↦ let f : false ≡ true = rw (q, n, commit_attach) at k in cc
    | inl y ↦
        let (r', u, v) = attach-ok p c r r.status g h y (rw (q, y, commit_attach) at k) in
        (r, r', q, y, rw (q, y, commit_attach) u, v)
  ]
]

claim-ok :
    (now : ℕ) (token id : Uuid) (r : SessionRecord) (s : SessionStatus) (g : Registry)
    {p : HandshakePermit}
    → (claim now token id r s g).1 ≡ ok p
    → (r' : SessionRecord) × ((claim now token id r s g).0 ≡ put id r' g)
      × (p.session_id ≡ id)
      × (is_claimed p r'.status ≡ true)
      × (token_of s ≡ none)
unfolding claim
claim-ok now token id r (pending d t) g h = (
  record r { status = pending d (some token) },
  ground arith,
  ground arith,
  ground arith,
  ground arith,
)
claim-ok now token id r (active n c t) g h = (
  record r { status = active n c (some token) },
  ground arith,
  ground arith,
  ground arith,
  ground arith,
)

-- What a successful start of a handshake has found and written.
pub begin_handshake-ok :
    (now : ℕ) (token inst id : Uuid) (version : String) (g : Registry) {p : HandshakePermit}
    → (begin_handshake now token inst id version g).1 ≡ ok p
    → (r : SessionRecord) × (r' : SessionRecord) × (find unavailable unauthorized g id ≡ ok r)
      × ((begin_handshake now token inst id version g).0 ≡ put id r' g)
      × (p.session_id ≡ id)
      × (is_claimed p r'.status ≡ true)
      × (token_of r.status ≡ none)
unfolding begin_handshake
begin_handshake-ok now token inst id version g {p} h =
    elim (Bool-cases (not (inst == g.service_instance_id))) [
      | inl x ↦
          let f : err (service_restarted g.service_instance_id) ≡ ok p =
            rw (x, begin_handshake) at h in
          cc
      | inr x ↦ elim (Result-cases (find unavailable unauthorized g id)) [
        | inl (e, q) ↦ let f : err e ≡ ok p = rw (x, q, begin_handshake) at h in cc
        | inr (r, q) ↦ elim (Bool-cases (str_eq r.product_version version)) [
          | inr n ↦ let f : err unauthorized ≡ ok p = rw (x, q, n, begin_handshake) at h in cc
          | inl y ↦
              let (r', u, i, v, w) =
                claim-ok now token id r r.status g (rw (x, q, y, begin_handshake) at h) in
              (r, r', q, rw (x, q, y, begin_handshake) u, i, v, w)
        ]
      ]
    ]
