-- ===== src/Registry/Pending.antt =====
-- The number of sessions that wait for their first handshake is bounded.
use Prim.Native.String.{String}
use global_protect_openconne.Prelude.{
  ℕ, ◌+◌, leb, ◌≤◌, ◌≡◌, refl, inl, inr, true, Option, none, some, arith, Result-cases, Bool-cases,
  Option-cases,
}
use global_protect_openconne.Prelude.Map.{
  lookup, remove, count, count-insert, count-remove-le, count-retain-le,
}
use global_protect_openconne.Drain.{Heap}
use global_protect_openconne.VpnState.{Uuid}
use global_protect_openconne.Registry.{
  ConnectionControl, unavailable, unauthorized, SessionStatus, pending, active, SessionRecord,
  Registry, HandshakePermit, find, put, is_pending, is_pending_status, max_pending_sessions,
}
use global_protect_openconne.Registry.Handshake.{
  SessionCredential, detach, release, issue, new_session, drop_expired, begin_handshake, claim,
  commit_attach, attach, drop_permit, disconnect_if_current, revoke,
}
use global_protect_openconne.Registry.Laws.{find-ok}

abbrev pub pending_sessions : Registry → ℕ
pending_sessions g = count is_pending g.sessions

abbrev pub IsBounded : Registry → Type 0
IsBounded g = pending_sessions g ≤ max_pending_sessions

-- Writing a session that is no more pending than the one that was found adds no pending session.
put-IsBounded :
    (g : Registry) (id : Uuid) (r r' : SessionRecord)
    → lookup id g.sessions ≡ some r
    → (is_pending r' ≡ true → is_pending r ≡ true)
    → pending_sessions (put id r' g) ≤ pending_sessions g
unfolding put
put-IsBounded g id r r' e k = ground (arith, count-insert is_pending id r' g.sessions)

-- Writing any session adds at most one pending session.
put-one_more :
    (g : Registry) (id : Uuid) (r : SessionRecord)
    → pending_sessions (put id r g) ≤ pending_sessions g + 1
unfolding put
put-one_more g id r = ground (arith, count-insert is_pending id r g.sessions)

drop_expired-le :
    (now : ℕ) (g : Registry) → pending_sessions (drop_expired now g) ≤ pending_sessions g
unfolding drop_expired
drop_expired-le now g = count-retain-le is_pending _ g.sessions

pub issue-IsBounded :
    (now now' : ℕ) (c : Option SessionCredential) (version : String) (uid : Option ℕ) (g : Registry)
    → IsBounded g
    → IsBounded (issue now now' c version uid g).0
unfolding issue count drop_expired
issue-IsBounded now now' c version uid g b =
    let less = drop_expired-le now g in
    let kept = drop_expired now g in
    elim (Bool-cases g.poisoned) [
      | inl x ↦ rw (x, issue) b
      | inr x ↦ elim (Bool-cases (leb max_pending_sessions (pending_sessions kept))) [
        | inl y ↦ rw (x, y, issue) (ground arith)
        | inr y ↦ elim (Option-cases c) [
          | inl z ↦ rw (x, y, z, issue) (ground arith)
          | inr (k, z) ↦
              let one = put-one_more kept k.session_id (new_session k version uid now') in
              rw (x, y, z, issue) (ground arith)
        ]
      ]
    ]

-- Removing a session adds no pending session.
abbrev removed : Uuid → Registry → Registry
removed id g = record g { sessions = remove id g.sessions }

removed-le : (id : Uuid) (g : Registry) → pending_sessions (removed id g) ≤ pending_sessions g
removed-le id g = count-remove-le is_pending id g.sessions

claim-le :
    (now : ℕ) (token id : Uuid) (r : SessionRecord) (s : SessionStatus) (g : Registry)
    → lookup id g.sessions ≡ some r
    → r.status ≡ s
    → pending_sessions (claim now token id r s g).0 ≤ pending_sessions g
unfolding claim
claim-le now token id r (pending d t) g f e =
    let gone = removed-le id g in
    let kept =
      put-IsBounded g id r (record r { status = pending d (some token) }) f (rw e (λ h. h)) in
    ground arith
claim-le now token id r (active n c t) g f e =
    let kept = put-IsBounded g id r (record r { status = active n c (some token) }) f (λ h. cc) in
    ground arith

pub begin_handshake-le :
    (now : ℕ) (token inst id : Uuid) (version : String) (g : Registry)
    → pending_sessions (begin_handshake now token inst id version g).0 ≤ pending_sessions g
unfolding begin_handshake
begin_handshake-le now token inst id version g =
    elim (Result-cases (find unavailable unauthorized g id)) [
      | inl (e, q) ↦ rw (q, begin_handshake) (ground arith)
      | inr (r, q) ↦
          let le = claim-le now token id r r.status g (find-ok _ _ g id q).1 refl in
          rw (q, begin_handshake) (ground arith)
    ]

attach-le :
    (p : HandshakePermit) (c : ConnectionControl) (r : SessionRecord) (s : SessionStatus)
    (g : Registry) (h : Heap)
    → lookup p.session_id g.sessions ≡ some r
    → r.status ≡ s
    → pending_sessions (attach p c r s g h).0 ≤ pending_sessions g
unfolding attach
attach-le p c r (pending d t) g h f e =
    put-IsBounded g p.session_id r (record r { status = active 1 (some c) none }) f (λ h. cc)
attach-le p c r (active n old t) g h f e =
    let one = put-IsBounded g p.session_id r (record r { closed_attachment = none }) f (λ h. h) in
    let two =
      put-IsBounded g p.session_id r
        (record r { closed_attachment = none; status = active (n + 1) (some c) none }) f
        (λ h. cc) in
    ground arith

pub commit_attach-le :
    (p : HandshakePermit) (c : ConnectionControl) (g : Registry) (h : Heap)
    → pending_sessions (commit_attach p c g h).0 ≤ pending_sessions g
unfolding commit_attach
commit_attach-le p c g h = elim (Result-cases (find unavailable unauthorized g p.session_id)) [
  | inl (e, q) ↦ rw (q, commit_attach) (ground arith)
  | inr (r, q) ↦
      let le = attach-le p c r r.status g h (find-ok _ _ g _ q).1 refl in
      rw (q, commit_attach) (ground arith)
]

release-le :
    (p : HandshakePermit) (r : SessionRecord) (s : SessionStatus) (g : Registry)
    → lookup p.session_id g.sessions ≡ some r
    → r.status ≡ s
    → pending_sessions (release p r s g) ≤ pending_sessions g
unfolding release
release-le p r (pending d t) g f e = removed-le p.session_id g
release-le p r (active n c t) g f e =
    put-IsBounded g p.session_id r (record r { status = active n c none }) f (λ h. cc)

pub drop_permit-le :
    (p : HandshakePermit) (g : Registry) → pending_sessions (drop_permit p g) ≤ pending_sessions g
unfolding drop_permit
drop_permit-le p g = elim (Result-cases (find unavailable unauthorized g p.session_id)) [
  | inl (e, q) ↦ rw (q, drop_permit) (ground arith)
  | inr (r, q) ↦
      let le = release-le p r r.status g (find-ok _ _ g _ q).1 refl in
      rw (q, drop_permit) (ground arith)
]

detach-pending :
    (n : ℕ) (s : SessionStatus) → is_pending_status (detach n s) ≡ true → is_pending_status s ≡ true
detach-pending n (pending d t) h = h
detach-pending n (active m c t) h = ground arith

pub disconnect_if_current-le :
    (id : Uuid) (n : ℕ) (g : Registry) (h : Heap)
    → pending_sessions (disconnect_if_current id n g h).0 ≤ pending_sessions g
unfolding disconnect_if_current
disconnect_if_current-le id n g h = elim (Result-cases (find unavailable unauthorized g id)) [
  | inl (e, q) ↦ rw (q, disconnect_if_current) (ground arith)
  | inr (r, q) ↦
      let r' : SessionRecord = record r { status = detach n r.status } in
      let le = put-IsBounded g id r r' (find-ok _ _ g id q).1 (detach-pending n r.status) in
      rw (q, disconnect_if_current) le
]

pub revoke-le :
    (id : Uuid) (g : Registry) (h : Heap) → pending_sessions (revoke id g h).0 ≤ pending_sessions g
unfolding revoke
revoke-le id g h = let gone = removed-le id g in ground arith
