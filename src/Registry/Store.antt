-- ===== src/Registry/Store.antt =====
-- The session registry as the store that the VPN task asks: apps/gpservice/src/vpn_task.rs calls
-- has_session and clear_successful_hip_report of apps/gpservice/src/session_registry.rs.
use global_protect_openconne.Prelude.{◌≡◌, refl, some, Result-cases, inl, inr, arith}
use global_protect_openconne.Prelude.Map.{lookup, lookup-insert}
use global_protect_openconne.VpnState.{Uuid}
use global_protect_openconne.VpnTask.{SessionStore}
use global_protect_openconne.Registry.{
  SessionRecord, Registry, find, put, unavailable, unauthorized,
}
use global_protect_openconne.Registry.Handshake.{has_session}
use global_protect_openconne.Registry.Hip.{clear_successful_hip_report}
use global_protect_openconne.Registry.Laws.{find-ok}

-- Writing back a session that is there leaves the same sessions there.
has_session-put :
    (g : Registry) (k j : Uuid) (r r' : SessionRecord)
    → lookup k g.sessions ≡ some r
    → has_session (put k r' g) j ≡ has_session g j
unfolding put has_session
has_session-put g k j r r' f = ground (arith, lookup-insert k j r' g.sessions)

pub has_session-clear_successful_hip_report :
    (g : Registry) (k j : Uuid) → has_session (clear_successful_hip_report k g) j ≡ has_session g j
unfolding clear_successful_hip_report
has_session-clear_successful_hip_report g k j =
    elim (Result-cases (find unavailable unauthorized g k)) [
      | inl (e, q) ↦ rw (q, clear_successful_hip_report) refl
      | inr (r, q) ↦
          rw (q, clear_successful_hip_report) (has_session-put g k j r _ (find-ok _ _ g k q).1)
    ]

abbrev pub store : SessionStore
store = record {
  Store = Registry;
  service_instance_id = λ g. g.service_instance_id;
  has_session = has_session;
  clear_successful_hip_report = clear_successful_hip_report;
  has_session-clear_successful_hip_report = has_session-clear_successful_hip_report;
}
