-- ===== src/Registry/Handshake.antt =====
-- The life of a session (apps/gpservice/src/session_registry.rs): issued, claimed by a handshake,
-- attached to a connection, detached, revoked.
use Prim.Native.String.{String}
use text.Mathlib.Text.{◌==◌ as str_eq}
use global_protect_openconne.Prelude.{
  ℕ, ◌+◌, Bool, false, ◌&&◌, not, Option, none, some, List, Result, ok, err, ltb, leb, ◌==◌,
  if◌then◌else◌, is_id, is_some,
}
use global_protect_openconne.Prelude.Map.{lookup, remove, retain, count}
use global_protect_openconne.Drain.{Heap, cancel}
use global_protect_openconne.VpnState.{Uuid}
use global_protect_openconne.Registry.{
  Bytes, ConnectionControl, SessionError, service_restarted, unauthorized, too_many_pending,
  reconnect_superseded, unavailable, SessionStatus, pending, active, AttachmentAttempt,
  SessionRecord, Registry, HandshakePermit, find, put, is_pending, checked_succ, activation_timeout,
  max_pending_sessions,
}

unfoldable pub new : Uuid → Registry
new id = record { service_instance_id = id; sessions = List.[]; poisoned = false }

abbrev expired : ℕ → SessionStatus → Bool
expired now (pending deadline _) = ltb deadline now
expired now (active _ _ _) = false

unfoldable pub drop_expired : ℕ → Registry → Registry
drop_expired now g = record g { sessions = retain (λ r. not (expired now r.status)) g.sessions }

-- What generating a credential yields: its session and its secret. `none` is a failure of the
-- generator, of the device anchor, or of joining the two.
pub record SessionCredential : Type 0 where
  pub session_id : Uuid
  pub secret : Bytes

abbrev pub new_session : SessionCredential → String → Option ℕ → ℕ → SessionRecord
new_session c version uid now = record {
  non_tunnel = none;
  closed_attachment = none;
  secret = c.secret;
  product_version = version;
  desktop_uid = uid;
  edited_hip_report = none;
  edited_hip_upload = none;
  hip_preview = none;
  last_successful_hip_report = none;
  status = pending (now + activation_timeout) none;
}

-- The clock is read twice: for the expiry of others, and for the new deadline.
unfoldable pub issue :
    ℕ
    → ℕ
    → Option SessionCredential
    → String
    → Option ℕ
    → Registry
    → Registry × Result SessionError SessionCredential
issue now now' credential version uid g =
    if g.poisoned
    then (g, err unavailable)
    else let kept = drop_expired now g in
      if leb max_pending_sessions (count is_pending kept.sessions)
      then (kept, err too_many_pending)
      else elim credential [
        | none ↦ (kept, err unavailable)
        | some c ↦ (put c.session_id (new_session c version uid now') kept, ok c)
      ]

abbrev permit : Uuid → SessionRecord → ℕ → Uuid → HandshakePermit
permit id r generation token = record {
  session_id = id;
  desktop_uid = r.desktop_uid;
  observed_generation = generation;
  secret = r.secret;
  token = token;
}

unfoldable pub claim :
    ℕ
    → Uuid
    → Uuid
    → SessionRecord
    → SessionStatus
    → Registry
    → Registry × Result SessionError HandshakePermit
unfolding put
claim now token id r (pending deadline t) g =
    if ltb deadline now
    then (record g { sessions = remove id g.sessions }, err unauthorized)
    else if is_some t
    then (g, err reconnect_superseded)
    else (put id (record r { status = pending deadline (some token) }) g, ok (permit id r 0 token))
claim now token id r (active generation c t) g =
    if is_some t then (g, err reconnect_superseded) else (
      put id (record r { status = active generation c (some token) }) g,
      ok (permit id r generation token),
    )

unfoldable pub begin_handshake :
    ℕ → Uuid → Uuid → Uuid → String → Registry → Registry × Result SessionError HandshakePermit
unfolding claim
begin_handshake now token instance_id id version g =
    if not (instance_id == g.service_instance_id)
    then (g, err (service_restarted g.service_instance_id))
    else elim (find unavailable unauthorized g id) [
      | err e ↦ (g, err e)
      | ok r ↦
          if str_eq r.product_version version
          then claim now token id r r.status g
          else (g, err unauthorized)
    ]

-- The permit's claim on the session is the one that stands.
abbrev pub is_claimed : HandshakePermit → SessionStatus → Bool
is_claimed p (pending _ t) = p.observed_generation == 0 && is_id t p.token
is_claimed p (active generation _ t) = generation == p.observed_generation && is_id t p.token

prepared : SessionStatus → Result SessionError ℕ
prepared (pending _ _) = ok 1
prepared (active generation _ _) = elim (checked_succ generation) [
  | none ↦ err unavailable
  | some n ↦ ok n
]

-- The generation that a commit of the permit would give.
unfoldable pub prepare_attach : HandshakePermit → Registry → Result SessionError ℕ
unfolding prepared
prepare_attach p g = elim (find unavailable unauthorized g p.session_id) [
  | err e ↦ err e
  | ok r ↦ if is_claimed p r.status then prepared r.status else err reconnect_superseded
]

abbrev pub cancel_attempt : Option AttachmentAttempt → Heap → Heap
cancel_attempt none h = h
cancel_attempt (some a) h = cancel a.drain h

-- The attempt of the old attachment is cancelled before the generation is counted up; a
-- generation that cannot be counted up leaves the rest of the record as it is.
unfoldable pub attach :
    HandshakePermit
    → ConnectionControl
    → SessionRecord
    → SessionStatus
    → Registry
    → Heap
    → Registry × Heap × Result SessionError (Option ConnectionControl)
unfolding put
attach p conn r (pending _ _) g h =
    (put p.session_id (record r { status = active 1 (some conn) none }) g, h, ok none)
attach p conn r (active generation current t) g h =
    let detached = record r { closed_attachment = none } in
    elim (checked_succ generation) [
      | none ↦ (put p.session_id detached g, cancel_attempt r.non_tunnel h, err unavailable)
      | some n ↦ (
        put p.session_id (record detached { status = active n (some conn) none }) g,
        cancel_attempt r.non_tunnel h,
        ok current,
      )
    ]

unfoldable pub commit_attach :
    HandshakePermit
    → ConnectionControl
    → Registry
    → Heap
    → Registry × Heap × Result SessionError (Option ConnectionControl)
unfolding attach
commit_attach p conn g h = elim (find unavailable unauthorized g p.session_id) [
  | err e ↦ (g, h, err e)
  | ok r ↦
      if is_claimed p r.status
      then attach p conn r r.status g h
      else (g, h, err reconnect_superseded)
]

unfoldable pub release : HandshakePermit → SessionRecord → SessionStatus → Registry → Registry
unfolding put
release p r (pending _ _) g = record g { sessions = remove p.session_id g.sessions }
release p r (active generation c t) g =
    put p.session_id (record r { status = active generation c none }) g

-- `cancel_handshake`, called when a permit is dropped.
unfoldable pub drop_permit : HandshakePermit → Registry → Registry
unfolding release
drop_permit p g = elim (find unavailable unauthorized g p.session_id) [
  | err e ↦ g
  | ok r ↦ if is_claimed p r.status then release p r r.status g else g
]

unfoldable pub has_session : Registry → Uuid → Bool
has_session g id = not g.poisoned && is_some (lookup id g.sessions)

abbrev pub is_generation : ℕ → SessionStatus → Bool
is_generation generation (pending _ _) = false
is_generation generation (active current _ _) = current == generation

unfoldable pub is_current : Registry → Uuid → ℕ → Bool
is_current g id generation = elim (find unavailable unauthorized g id) [
  | err e ↦ false
  | ok r ↦ is_generation generation r.status
]

abbrev cancel_generation : ℕ → Option AttachmentAttempt → Heap → Heap
cancel_generation generation none h = h
cancel_generation generation (some a) h = if a.generation == generation then cancel a.drain h else h

abbrev pub detach : ℕ → SessionStatus → SessionStatus
detach generation (pending d t) = pending d t
detach generation (active current c t) =
    if current == generation then active current none t else active current c t

unfoldable pub disconnect_if_current : Uuid → ℕ → Registry → Heap → Registry × Heap
unfolding put
disconnect_if_current id generation g h = elim (find unavailable unauthorized g id) [
  | err e ↦ (g, h)
  | ok r ↦ (
    put id (record r { status = detach generation r.status }) g,
    cancel_generation generation r.non_tunnel h,
  )
]

abbrev connection_of : SessionStatus → Option ConnectionControl
connection_of (pending _ _) = none
connection_of (active _ c _) = c

-- The result is the connection that is closed once the lock is free.
unfoldable pub revoke : Uuid → Registry → Heap → Registry × Heap × Option ConnectionControl
revoke id g h = elim (find unavailable unauthorized g id) [
  | err e ↦ (g, h, none)
  | ok r ↦ (
    record g { sessions = remove id g.sessions },
    cancel_attempt r.non_tunnel h,
    connection_of r.status,
  )
]
