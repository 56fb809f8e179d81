-- ===== src/VpnTask.antt =====
-- The actor `VpnTask` of apps/gpservice/src/vpn_task.rs: the attempt that runs, and what each
-- lifecycle event does. `end_attempt` waits for the attempt's worker in its middle, so it is two
-- steps, between which other threads may call the lifecycle; the actor handles no other event then.
-- The session registry is an interface here; Registry/Store.antt fills it.
pub mod Connect
pub mod Finish
pub mod Events
pub mod System
mod Picking
mod EventLaws
pub mod Ownership
pub mod Stopping
pub mod Tokens
pub mod Completion
use Prim.Native.String.{String}
use global_protect_openconne.Prelude.{
  ℕ, Bool, true, false, ◌&&◌, ◌||◌, not, Option, none, some, List, [], ◌∷◌, ◌==◌, ◌≡◌,
  if◌then◌else◌, is_none,
}
use global_protect_openconne.Drain.{is_cancelled, cancel, complete}
use global_protect_openconne.VpnState
use global_protect_openconne.VpnState.{
  Uuid, ConnectInfo, SessionMode, SessionInfo, GatewaySessionSummary, GatewayFailureSummary,
  MaintenanceState, VpnState, set_script_tun_identity, connected_info, with_members,
  from_vpn_session_fields,
}
use global_protect_openconne.Lifecycle.{
  Lifecycle, Admission, LifecycleEvent, tunnel_monitor, start, stop, script_tun_suspended,
  reconnect_required, established, members_changed, ended, failed, preparation_released,
  PreparedConnection, VpnSessionInfo, TunnelBinding, set_current, is_active, activate_attempt,
  attempt_cancellation, is_stop_requested, clear_attempt, close_admission,
}

-- What the actor uses of the session registry.
pub record SessionStore : Type 1 where
  pub Store : Type 0
  pub service_instance_id : Store → Uuid
  pub has_session : Store → Uuid → Bool
  pub clear_successful_hip_report : Uuid → Store → Store
  pub has_session-clear_successful_hip_report :
      (s : Store) (k j : Uuid) → has_session (clear_successful_hip_report k s) j ≡ has_session s j

pub record ActiveAttempt : Type 0 where
  pub attempt : ℕ
  pub session_id : Option Uuid
  pub info : ConnectInfo
  pub allow_extend_session : Bool
  pub cancellation : ℕ
  pub failure : Option String
  pub reconnect_required : Bool

abbrev is_non_tunnel : SessionMode → Bool
is_non_tunnel VpnState.non_tunnel = true
is_non_tunnel VpnState.tunnel = false

abbrev pub all_non_tunnel : List SessionMode → Bool
all_non_tunnel [] = true
all_non_tunnel (m ∷ ms) = is_non_tunnel m && all_non_tunnel ms

abbrev is_healthy : MaintenanceState → Bool
is_healthy VpnState.healthy = true
is_healthy _ = false

abbrev pub any_healthy : List GatewaySessionSummary → Bool
any_healthy [] = false
any_healthy (m ∷ ms) = is_healthy m.maintenance || any_healthy ms

-- `vpn_state_tx.send`: without a receiver the value stays.
unfoldable pub send_state : VpnState → Lifecycle → Lifecycle
send_state v l = if l.watched then record l { state = v } else l

abbrev pub of_attempt : ℕ → Option Admission → Bool
of_attempt attempt none = false
of_attempt attempt (some a) = a.attempt == attempt

-- The admission is the attempt's, active, and no stop was requested.
abbrev pub admits_connected : ℕ → Option Admission → Bool
admits_connected attempt none = false
admits_connected attempt (some a) =
    a.attempt == attempt && is_active a.phase && not a.stop_requested

abbrev pub admits_members : ℕ → Option Admission → Bool
admits_members attempt none = false
admits_members attempt (some a) = a.attempt == attempt && not a.stop_requested

module _ (R : SessionStore) where
  open R use {Store, service_instance_id, has_session, clear_successful_hip_report}

  -- `joining` is the attempt whose worker `end_attempt` waits for.
  pub record VpnTask : Type 0 where
    pub lifecycle : Lifecycle
    pub registry : Store
    pub active : Option ActiveAttempt
    pub joining : Option ActiveAttempt
