-- ===== src/VpnState.antt =====
-- The connection state that the service publishes: crates/gpapi/src/service/vpn_state.rs, with the
-- session, gateway and packet-delivery types that it holds (crates/gpapi/src/session.rs,
-- session/connection.rs, session/desktop/connection_plan.rs, gateway/mod.rs, script_tun.rs).
-- A `Uuid` is a number; texts are native strings.
use Prim.Native.String.{String}
use mathlib.Core.Option
use global_protect_openconne.Prelude.{ℕ, ◌-◌, Bool, List, [], Option, none, some}

abbrev pub Uuid : Type 0
Uuid = ℕ

pub data GatewayKind : Type 0 where
  internal external : GatewayKind

pub record PriorityRule : Type 0 where
  pub name : String
  pub priority : ℕ

pub record Gateway : Type 0 where
  pub name : String
  pub address : String
  pub kind : GatewayKind
  pub priority : ℕ
  pub priority_rules : List PriorityRule

pub data SessionMode : Type 0 where
  tunnel non_tunnel : SessionMode

pub data MaintenanceState : Type 0 where
  authenticated healthy rejected : MaintenanceState

pub record GatewaySessionSummary : Type 0 where
  pub gateway : Gateway
  pub mode : SessionMode
  pub client_ip : Option String
  pub client_ipv6 : Option String
  pub maintenance : MaintenanceState

pub data GatewayFailure : Type 0 where
  authentication_rejected unreachable tunnel_failed : GatewayFailure

pub record GatewayFailureSummary : Type 0 where
  pub gateway : Gateway
  pub failure : GatewayFailure

pub record SessionWarning : Type 0 where
  pub prior_secs : ℕ
  pub message : String

pub record SessionInfo : Type 0 where
  pub lifetime_secs : Option ℕ
  pub user_expires : Option ℕ
  pub expires_in_human : Option String
  pub lifetime_warning : Option SessionWarning
  pub inactivity_warning : Option SessionWarning
  pub admin_logout_message : Option String
  pub allow_extend_session : Bool

pub data PacketDeliveryKind : Type 0 where
  system script_tun : PacketDeliveryKind

-- `script_tun::Identity`.
pub record ScriptTunIdentity : Type 0 where
  pub service_instance : Uuid
  pub attempt : ℕ
  pub launch_id : Uuid

pub record ConnectInfo : Type 0 where
  pub packet_delivery : PacketDeliveryKind
  pub script_tun_identity : Option ScriptTunIdentity
  pub portal : String
  pub gateway : Gateway
  pub gateways : List Gateway

unfoldable pub set_script_tun_identity : ScriptTunIdentity → ConnectInfo → ConnectInfo
set_script_tun_identity identity info = record info { script_tun_identity = some identity }

pub record ReconnectRequest : Type 0 where
  pub attempt : ℕ
  pub owner : Uuid
  pub info : ConnectInfo

pub record ConnectedInfo : Type 0 where
  pub info : ConnectInfo
  pub session_info : Option SessionInfo
  pub connected_at : ℕ
  pub members : List GatewaySessionSummary
  pub failures : List GatewayFailureSummary

-- `ConnectedInfo::new` at the time `now`.
unfoldable pub connected_info : ConnectInfo → Option SessionInfo → ℕ → ConnectedInfo
connected_info info session now = record {
  info = info;
  session_info = session;
  connected_at = now;
  members = [];
  failures = [];
}

unfoldable pub with_members :
    List GatewaySessionSummary → List GatewayFailureSummary → ConnectedInfo → ConnectedInfo
with_members ms fs c = record c { members = ms; failures = fs }

pub data VpnState : Type 0 where
  reconnect_required : ReconnectRequest → VpnState
  disconnected : VpnState
  failed : String → VpnState
  connecting : ConnectInfo → VpnState
  connected : ConnectedInfo → VpnState
  disconnecting : VpnState

-- `format_duration` is the rendering of a number of seconds by the crate `humantime`.
module _ (format_duration : ℕ → String) where
  build_human_readable_expiry : ℕ → Option ℕ → Option ℕ → Option String
  build_human_readable_expiry now (some expires) lifetime = some (format_duration (expires - now))
  build_human_readable_expiry now none lifetime = Option.map format_duration lifetime

  with_computed_human_times : ℕ → SessionInfo → SessionInfo
  unfolding build_human_readable_expiry
  with_computed_human_times now i = record i {
    expires_in_human = build_human_readable_expiry now i.user_expires i.lifetime_secs;
  }

  unfoldable pub from_vpn_session_fields :
      ℕ → Option ℕ → Option ℕ → Option SessionWarning → Bool → SessionInfo
  unfolding with_computed_human_times
  from_vpn_session_fields now lifetime expires warning allow =
      with_computed_human_times now (record {
        lifetime_secs = lifetime;
        user_expires = expires;
        expires_in_human = none;
        lifetime_warning = warning;
        inactivity_warning = none;
        admin_logout_message = none;
        allow_extend_session = allow;
      })
