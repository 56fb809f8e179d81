-- ===== src/Registry/Calls.antt =====
-- The calls of the session registry (apps/gpservice/src/session_registry.rs) that start, move on or
-- end a session, in any order that the lock allows.
use Prim.Native.String.{String}
use global_protect_openconne.Prelude.{ℕ, ◌≤◌, Option, List, [], ◌∷◌, arith}
use global_protect_openconne.Prelude.Map.{count}
use global_protect_openconne.Drain.{Heap}
use global_protect_openconne.VpnState.{Uuid}
use global_protect_openconne.Registry.{
  max_pending_sessions, ConnectionControl, Registry, HandshakePermit,
}
use global_protect_openconne.Registry.Handshake.{
  SessionCredential, issue, new, begin_handshake, commit_attach, drop_permit, disconnect_if_current,
  revoke,
}
use global_protect_openconne.Registry.Pending.{
  IsBounded, pending_sessions, issue-IsBounded, begin_handshake-le, commit_attach-le,
  drop_permit-le, disconnect_if_current-le, revoke-le,
}

pub data Call : Type 0 where
  issuing :
      (now now' : ℕ) (credential : Option SessionCredential) (version : String) (uid : Option ℕ)
      → Call
  beginning : (now : ℕ) (token instance_id id : Uuid) (version : String) → Call
  committing : HandshakePermit → ConnectionControl → Call
  dropping : HandshakePermit → Call
  disconnecting : Uuid → ℕ → Call
  revoking : Uuid → Call

unfoldable pub call : Call → Registry × Heap → Registry × Heap
call (issuing now now' credential version uid) (g, h) =
    ((issue now now' credential version uid g).0, h)
call (beginning now token instance_id id version) (g, h) =
    ((begin_handshake now token instance_id id version g).0, h)
call (committing p c) (g, h) = let (g', h', r) = commit_attach p c g h in (g', h')
call (dropping p) (g, h) = (drop_permit p g, h)
call (disconnecting id generation) (g, h) = disconnect_if_current id generation g h
call (revoking id) (g, h) = let (g', h', c) = revoke id g h in (g', h')

unfoldable pub calls : List Call → Registry × Heap → Registry × Heap
calls [] s = s
calls (c ∷ cs) s = calls cs (call c s)

call-IsBounded : (c : Call) (s : Registry × Heap) → IsBounded s.0 → IsBounded (call c s).0
unfolding call
call-IsBounded (issuing now now' k version uid) (g, h) b =
    issue-IsBounded now now' k version uid g b
call-IsBounded (beginning now token inst id version) (g, h) b =
    let le = begin_handshake-le now token inst id version g in ground arith
call-IsBounded (committing p c) (g, h) b = let le = commit_attach-le p c g h in ground arith
call-IsBounded (dropping p) (g, h) b = let le = drop_permit-le p g in ground arith
call-IsBounded (disconnecting id n) (g, h) b =
    let le = disconnect_if_current-le id n g h in ground arith
call-IsBounded (revoking id) (g, h) b = let le = revoke-le id g h in ground arith

calls-IsBounded : (cs : List Call) (s : Registry × Heap) → IsBounded s.0 → IsBounded (calls cs s).0
unfolding calls
calls-IsBounded [] s b = b
calls-IsBounded (c ∷ cs) s b = calls-IsBounded cs (call c s) (call-IsBounded c s b)

-- After any sequence of calls that issue, claim, commit, drop, disconnect or revoke on a new
-- registry, at most 16 of its sessions are pending.
pub calls-new :
    (id : Uuid) (cs : List Call) (h : Heap)
    → pending_sessions (calls cs (new id, h)).0 ≤ max_pending_sessions
unfolding new count
calls-new id cs h = calls-IsBounded cs (new id, h) (ground arith)
