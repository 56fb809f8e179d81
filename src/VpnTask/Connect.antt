-- ===== src/VpnTask/Connect.antt =====
-- How an attempt starts, stops and becomes connected (apps/gpservice/src/vpn_task.rs).
use Prim.Native.String.{String}
use global_protect_openconne.Prelude.{
  ℕ, false, ◌||◌, not, Option, none, some, List, ◌==◌, if◌then◌else◌,
}
use global_protect_openconne.Drain.{is_cancelled, cancel}
use global_protect_openconne.VpnState
use global_protect_openconne.VpnState.{
  Uuid, ConnectInfo, SessionInfo, GatewaySessionSummary, GatewayFailureSummary, VpnState,
  set_script_tun_identity, connected_info, with_members, from_vpn_session_fields,
}
use global_protect_openconne.Lifecycle.{
  Lifecycle, PreparedConnection, VpnSessionInfo, activate_attempt, attempt_cancellation,
  is_stop_requested,
}
use global_protect_openconne.VpnTask.{
  SessionStore, all_non_tunnel, any_healthy, send_state, admits_connected, admits_members, VpnTask,
}

unfoldable pub publish_connected : ℕ → ConnectInfo → SessionInfo → ℕ → Lifecycle → Lifecycle
unfolding send_state connected_info
publish_connected attempt info session now l =
    if admits_connected attempt l.current
    then send_state (VpnState.connected (connected_info info (some session) now)) l
    else l

-- No member is healthy: a connected state goes back to connecting.
unfoldable pub withdraw : ConnectInfo → Lifecycle → Lifecycle
unfolding send_state
withdraw info l = elim l.state [
  | VpnState.connected _ ↦ send_state (VpnState.connecting info) l
  | _ ↦ l
]

unfoldable pub members_info : ConnectInfo → ℕ → VpnState → VpnState.ConnectedInfo
unfolding connected_info
members_info info now (VpnState.connected c) = c
members_info info now _ = connected_info info none now

-- A connected state keeps its data and takes the new members.
connect_members :
    ConnectInfo
    → ℕ
    → List GatewaySessionSummary
    → List GatewayFailureSummary
    → Lifecycle
    → Lifecycle
unfolding members_info send_state with_members
connect_members info now members failures l =
    send_state (VpnState.connected (with_members members failures (members_info info now l.state)))
      l

module _ (R : SessionStore) where
  open R use {Store, service_instance_id}

  unfoldable pub attempt_info : Store → ℕ → PreparedConnection → ConnectInfo
  unfolding set_script_tun_identity
  attempt_info s attempt c = elim c.script_tun [
    | none ↦ c.info
    | some launch ↦
        set_script_tun_identity
          (record {
            service_instance = service_instance_id s;
            attempt = attempt;
            launch_id = launch;
          })
          c.info
  ]

  -- The worker that `runtime::spawn` starts is part of the environment.
  unfoldable pub start_attempt : ℕ → PreparedConnection → Option Uuid → VpnTask R → VpnTask R
  unfolding attempt_info send_state
  start_attempt attempt c session t =
      let (l₁, activated) = activate_attempt attempt t.lifecycle in
      let l₂ : Lifecycle = record l₁ {
        tunnel = record { attempt = attempt; monitor = none; non_tunnel = all_non_tunnel c.modes };
      } in
      let info = attempt_info t.registry attempt c in
      let (l₃, token) = attempt_cancellation attempt l₂ in
      record t {
        lifecycle =
            if activated
            then send_state (VpnState.connecting info) l₃
            else record l₃ { heap = cancel token l₃.heap };
        active = some (record {
          attempt = attempt;
          session_id = session;
          info = info;
          allow_extend_session = c.allow_extend_session;
          cancellation = token;
          failure = none;
          reconnect_required = false;
        });
      }

  unfoldable pub stop_attempt : ℕ → VpnTask R → VpnTask R
  unfolding send_state
  stop_attempt attempt t = elim t.active [
    | none ↦ t
    | some a ↦
        if not (a.attempt == attempt) || not (is_stop_requested attempt t.lifecycle)
        then t
        else let l = send_state VpnState.disconnecting t.lifecycle in
          record t { lifecycle = record l { heap = cancel a.cancellation l.heap } }
  ]

  -- `now` is the clock, read for the session's expiry and for the time of connection.
  unfoldable pub establish_attempt : (ℕ → String) → ℕ → ℕ → VpnSessionInfo → VpnTask R → VpnTask R
  unfolding publish_connected
  establish_attempt format_duration now attempt v t = elim t.active [
    | none ↦ t
    | some a ↦
        if not (a.attempt == attempt) || is_cancelled t.lifecycle.heap a.cancellation
        then t
        else let session =
            from_vpn_session_fields format_duration now v.lifetime_secs v.user_expires
              v.lifetime_warning a.allow_extend_session in
          record t { lifecycle = publish_connected attempt a.info session now t.lifecycle }
  ]

  unfoldable pub publish_members :
      ℕ → ℕ → List GatewaySessionSummary → List GatewayFailureSummary → VpnTask R → VpnTask R
  unfolding withdraw connect_members
  publish_members now attempt members failures t = elim t.active [
    | none ↦ t
    | some a ↦
        if not (a.attempt == attempt) || is_cancelled t.lifecycle.heap a.cancellation
        then t
        else if not (any_healthy members)
        then record t { lifecycle = withdraw a.info t.lifecycle }
        else if admits_members attempt t.lifecycle.current
        then record t { lifecycle = connect_members a.info now members failures t.lifecycle }
        else t
  ]
