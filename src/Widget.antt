-- ===== src/Widget.antt =====
-- The widget's daemon: its view of the connection, `Model` of apps/gpwidget/src/daemon/state.rs.
-- Its configuration and the messages of its socket are in Widget/Messages. The state machine around it is in Widget/State,
-- Widget/Connect and Widget/Daemon.
pub mod Messages
pub mod State
pub mod Connect
pub mod Events
pub mod Daemon
pub mod Branches
pub mod Starting
pub mod Snapshots
pub mod Keeping
pub mod Leaving
pub mod Resting
pub mod Watching
use Prim.Native.String.{String}
use mathlib.Core.Option
use global_protect_openconne.Prelude.{
  ℕ, Bool, true, false, Option, none, some, List, [], map, if◌then◌else◌, is_some, is_none,
}
use global_protect_openconne.VpnState.{
  Gateway, SessionInfo, SessionWarning, ConnectInfo, ConnectedInfo, ReconnectRequest, VpnState,
  reconnect_required, failed,
}
use global_protect_openconne.Widget.Messages.{
  Config, WidgetState, needs_setup, GatewayInfo, ConnStats, SessionSummary, StatusMsg,
}
use global_protect_openconne.Broadcast.{VpnEnv}

-- What of a serialized `ConnectInfo` is read back.
pub record ConnectView : Type 0 where
  pub portal : String
  pub gateway : Gateway
  pub gateways : List Gateway

abbrev pub gateway_info : Gateway → GatewayInfo
gateway_info g = record { name = g.name; address = g.address }

abbrev prior_secs : SessionWarning → ℕ
prior_secs w = w.prior_secs

abbrev pub session_summary : SessionInfo → SessionSummary
session_summary s = record {
  expires_at = s.user_expires;
  expires_in_human = s.expires_in_human;
  lifetime_secs = s.lifetime_secs;
  warn_prior_secs = Option.map prior_secs s.lifetime_warning;
  allow_extend = s.allow_extend_session;
}

-- `connect_view` is what serde_json gives back of a `ConnectInfo` that it has written.
module _ (C H : Type 0) (connect_view : ConnectInfo → Option ConnectView) where
  pub record Model : Type 0 where
    pub config : Config
    pub vpn_env : Option (VpnEnv C H)
    pub vpn_state : VpnState
    pub authenticating : Bool
    pub last_error : Option String
    pub known_gateways : List GatewayInfo
    pub current_gateway : Option GatewayInfo
    pub portal : Option String
    pub session : Option SessionSummary
    pub conn : Option ConnStats

  -- `Model::new`.
  abbrev pub new_model : Config → Model
  new_model config = record {
    config = config;
    vpn_env = none;
    vpn_state = VpnState.disconnected;
    authenticating = false;
    last_error = none;
    known_gateways = [];
    current_gateway = none;
    portal = config.portal;
    session = none;
    conn = none;
  }

  unfoldable pub idle_state : Model → WidgetState
  idle_state m =
      if m.authenticating
      then WidgetState.authenticating
      else if is_some m.last_error
      then WidgetState.error
      else if is_none m.portal
      then needs_setup
      else WidgetState.disconnected

  unfoldable pub state_of : VpnState → Model → WidgetState
  unfolding idle_state
  state_of (VpnState.connecting _) m = WidgetState.connecting
  state_of (reconnect_required _) m = WidgetState.connecting
  state_of (VpnState.connected _) m = WidgetState.connected
  state_of VpnState.disconnecting m = WidgetState.disconnecting
  state_of VpnState.disconnected m = idle_state m
  state_of (failed _) m = idle_state m

  unfoldable pub widget_state : Model → WidgetState
  unfolding state_of
  widget_state m = state_of m.vpn_state m

  abbrev show_view : Option ConnectView → Model → Model
  show_view none m = m
  show_view (some v) m = record m {
    portal = some v.portal;
    current_gateway = some (gateway_info v.gateway);
    known_gateways = map gateway_info v.gateways;
  }

  abbrev started : ℕ → ConnStats
  started since = record {
    since = since;
    ifname = none;
    ipv4 = none;
    rx_bytes = 0;
    tx_bytes = 0;
    rx_rate = 0;
    tx_rate = 0;
  }

  -- The time of the first connection is kept when its state is sent again.
  abbrev or_started : ℕ → Option ConnStats → Option ConnStats
  or_started since none = some (started since)
  or_started since (some stats) = some stats

  abbrev shown : VpnState → Model → Model
  shown v m = record m { vpn_state = v }

  abbrev idle : Model → Model
  idle m = record m {
    conn = none;
    session = none;
    current_gateway = none;
    vpn_state = VpnState.disconnected;
  }

  -- A failed attempt is kept as `disconnected`, with its reason.
  unfoldable pub apply_vpn_state : VpnState → Model → Model
  apply_vpn_state (VpnState.connecting i) m =
      shown (VpnState.connecting i) (record (show_view (connect_view i) m) { session = none })
  apply_vpn_state (reconnect_required r) m = shown (reconnect_required r) (record m {
    portal = some r.info.portal;
    current_gateway = some (gateway_info r.info.gateway);
    known_gateways = map gateway_info r.info.gateways;
    session = none;
  })
  apply_vpn_state (VpnState.connected c) m =
      let seen = show_view (connect_view c.info) m in
      shown (VpnState.connected c) (record seen {
        session = Option.map session_summary c.session_info;
        conn = or_started c.connected_at m.conn;
      })
  apply_vpn_state VpnState.disconnected m = idle m
  apply_vpn_state (failed reason) m = idle (record m { last_error = some reason })
  apply_vpn_state VpnState.disconnecting m = shown VpnState.disconnecting m

  abbrev conn_shown : WidgetState → Option ConnStats → Option ConnStats
  conn_shown WidgetState.connected conn = conn
  conn_shown _ conn = none

  unfoldable pub snapshot : Model → StatusMsg
  unfolding widget_state
  snapshot m = record {
    state = some (widget_state m);
    portal = m.portal;
    gateway = m.current_gateway;
    gateways = m.known_gateways;
    conn = conn_shown (widget_state m) m.conn;
    session = m.session;
    error = m.last_error;
  }
