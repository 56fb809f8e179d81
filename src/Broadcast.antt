-- ===== src/Broadcast.antt =====
-- What the service sends to its clients: `ConnectionControl` of apps/gpservice/src/ws_connection.rs,
-- the messages of crates/gpapi/src/service/transport and the environment of
-- crates/gpapi/src/service/vpn_env.rs. A control that the context holds is the value under its id in
-- the context's map; `sent` is what its queue has taken, the newest first. Whether a queue takes a
-- message (it has room, and its receiver lives) is an argument of the send.
pub mod State
pub mod Server
pub mod Events
pub mod Widget
pub mod Runs
pub mod Replica
pub mod Synced
pub mod Attached
use Prim.Native.String.{String}
use global_protect_openconne.Prelude.{
  ℕ, Bool, true, false, ◌&&◌, ◌||◌, not, Option, none, some, List, [], ◌∷◌, if◌then◌else◌, is_some,
}
use global_protect_openconne.VpnState.{Uuid, VpnState}
use global_protect_openconne.Lifecycle.{ServiceResult}
use global_protect_openconne.Monitor.{TunnelState, TunnelStatisticsState, TunnelStatisticsView}

pub data CloseReason : Type 0 where
  version_mismatch unauthorized session_replaced handshake_failed malformed_message : CloseReason
  message_too_large authentication_failed handshake_timeout reconnect_superseded : CloseReason
  internal_error service_restarted heartbeat_timeout : CloseReason

-- `CloseReason::code`.
unfoldable pub code : CloseReason → ℕ
code version_mismatch = 4001
code unauthorized = 4002
code session_replaced = 4003
code handshake_failed = 4004
code malformed_message = 4005
code message_too_large = 4006
code authentication_failed = 4007
code handshake_timeout = 4008
code reconnect_superseded = 4009
code internal_error = 4010
code service_restarted = 4011
code heartbeat_timeout = 4012

pub data TunnelUnavailableReason : Type 0 where
  no_tunnel non_tunnel observation_failed : TunnelUnavailableReason

pub data TunnelStatisticsSnapshot : Type 0 where
  available : TunnelStatisticsView → TunnelStatisticsSnapshot
  unavailable : (reason : TunnelUnavailableReason) → TunnelStatisticsSnapshot

disabled_state : TunnelStatisticsState → TunnelStatisticsState
disabled_state TunnelStatisticsState.ended = TunnelStatisticsState.ended
disabled_state _ = TunnelStatisticsState.disabled

-- `TunnelStatisticsSnapshot::disabled`.
unfoldable pub disabled : TunnelStatisticsSnapshot → TunnelStatisticsSnapshot
unfolding disabled_state
disabled (available view) = available (record view { state = disabled_state view.state })
disabled (unavailable reason) = unavailable reason

-- `Configuration` is a tunnel's configuration, `HostInfo` what is known of the host.
module _ (Configuration HostInfo : Type 0) where
  pub record VpnEnv : Type 0 where
    pub tunnel_state : Option (TunnelState Configuration)
    pub vpn_state : VpnState
    pub vpnc_script : Option String
    pub auth_executable : String
    pub host_info : HostInfo

  pub data WsEvent : Type 0 where
    tunnel_event : Option (TunnelState Configuration) → WsEvent
    env_event : VpnEnv → WsEvent
    state_event : VpnState → WsEvent
    active_gui resume_connection : WsEvent

  pub data ServerMessage : Type 0 where
    tunnel_statistics : TunnelStatisticsSnapshot → ServerMessage
    attached : (connection_id : Uuid) (current_revision : ℕ) (snapshot : VpnEnv) → ServerMessage
    reply : (id : Uuid) (result : ServiceResult) → ServerMessage
    event : (revision : ℕ) (event : WsEvent) → ServerMessage
    snapshot : (current_revision : ℕ) (snapshot : VpnEnv) → ServerMessage

  pub record Control : Type 0 where
    pub connection_id : Uuid
    pub sent : List ServerMessage
    pub receiver_gone : Bool
    pub close_reason : Option CloseReason
    pub statistics : Option TunnelStatisticsSnapshot
    pub statistics_enabled : Bool
    pub committed : Bool

  -- `ConnectionControl::new`.
  unfoldable pub new_control : Uuid → Control
  new_control id = record {
    connection_id = id;
    sent = [];
    receiver_gone = false;
    close_reason = none;
    statistics = none;
    statistics_enabled = false;
    committed = false;
  }

  -- The flag is whether the queue has taken the message.
  unfoldable pub send : Bool → ServerMessage → Control → Control × Bool
  send accepted m c =
      if accepted && not c.receiver_gone then (record c { sent = m ∷ c.sent }, true) else (c, false)

  abbrev pub is_closed : Control → Bool
  is_closed c = c.receiver_gone || is_some c.close_reason

  unfoldable pub set_control_statistics : Bool → Control → Control
  set_control_statistics enabled c =
      if enabled
      then record c { statistics_enabled = true }
      else record c { statistics_enabled = false; statistics = none }

  unfoldable pub close : CloseReason → Control → Control
  unfolding set_control_statistics
  close reason c = record (set_control_statistics false c) { close_reason = some reason }

  abbrev pub clear_statistics : Control → Control
  clear_statistics c = record c { statistics = none }

  unfoldable pub publish_to : TunnelStatisticsSnapshot → Control → Control
  publish_to s c =
      if c.statistics_enabled && not (is_closed c) then record c { statistics = some s } else c
