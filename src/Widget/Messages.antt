-- ===== src/Widget/Messages.antt =====
-- The configuration of the widget's daemon (apps/gpwidget/src/config.rs) and the messages of its
-- socket (apps/gpwidget/src/proto.rs).
use Prim.Native.String.{String}
use global_protect_openconne.Prelude.{ℕ, Bool, true, false, Option, none, List}

pub record WaybarConfig : Type 0 where
  pub show_gateway : Bool

pub record AdvancedConfig : Type 0 where
  pub ignore_tls_errors : Bool
  pub fix_openssl : Bool
  pub client_version : Option String
  pub certificate : Option String
  pub sslkey : Option String
  pub key_password : Option String
  pub mtu : ℕ
  pub reconnect_timeout : ℕ
  pub disable_ipv6 : Bool
  pub no_dtls : Bool
  pub hip : Bool

-- Where the popup stands on the screen is left out: the daemon does not read it.
pub record Config : Type 0 where
  pub portal : Option String
  pub gateway : Option String
  pub browser : String
  pub hidpi : Bool
  pub notifications : Bool
  pub auto_connect : Bool
  pub auto_resume : Bool
  pub stats_interval_secs : ℕ
  pub waybar : WaybarConfig
  pub advanced : AdvancedConfig

abbrev pub default_advanced_config : AdvancedConfig
default_advanced_config = record {
  ignore_tls_errors = false;
  fix_openssl = false;
  client_version = none;
  certificate = none;
  sslkey = none;
  key_password = none;
  mtu = 0;
  reconnect_timeout = 300;
  disable_ipv6 = false;
  no_dtls = false;
  hip = false;
}

abbrev pub default_config : Config
default_config = record {
  portal = none;
  gateway = none;
  browser = "embedded";
  hidpi = false;
  notifications = true;
  auto_connect = false;
  auto_resume = true;
  stats_interval_secs = 2;
  waybar = record { show_gateway = true };
  advanced = default_advanced_config;
}

pub data WidgetState : Type 0 where
  needs_setup disconnected authenticating connecting connected disconnecting error : WidgetState

pub record GatewayInfo : Type 0 where
  pub name : String
  pub address : String

pub record ConnStats : Type 0 where
  pub since : ℕ
  pub ifname : Option String
  pub ipv4 : Option String
  pub rx_bytes : ℕ
  pub tx_bytes : ℕ
  pub rx_rate : ℕ
  pub tx_rate : ℕ

pub record SessionSummary : Type 0 where
  pub expires_at : Option ℕ
  pub expires_in_human : Option String
  pub lifetime_secs : Option ℕ
  pub warn_prior_secs : Option ℕ
  pub allow_extend : Bool

pub record StatusMsg : Type 0 where
  pub state : Option WidgetState
  pub portal : Option String
  pub gateway : Option GatewayInfo
  pub gateways : List GatewayInfo
  pub conn : Option ConnStats
  pub session : Option SessionSummary
  pub error : Option String

-- The two levels of toast that the daemon sends.
pub data ToastLevel : Type 0 where
  info warn error : ToastLevel

pub data ServerMsg : Type 0 where
  hello : (version : String) (protocol : ℕ) → ServerMsg
  status : StatusMsg → ServerMsg
  toast : (level : ToastLevel) (title message : String) → ServerMsg
  auth_prompt : (kind message : String) → ServerMsg
  ack : (id : ℕ) (ok : Bool) (error : Option String) → ServerMsg
  bye : ServerMsg

pub data ClientMsg : Type 0 where
  get_status : (id : Option ℕ) → ClientMsg
  connect : (id : Option ℕ) (portal gateway : Option String) → ClientMsg
  disconnect : (id : Option ℕ) → ClientMsg
  toggle : (id : Option ℕ) → ClientMsg
  submit_otp : (id : Option ℕ) (otp : String) → ClientMsg
  open_popup : (id : Option ℕ) → ClientMsg
  quit : (id : Option ℕ) → ClientMsg

abbrev pub id : ClientMsg → Option ℕ
id (get_status n) = n
id (connect n portal gateway) = n
id (disconnect n) = n
id (toggle n) = n
id (submit_otp n otp) = n
id (open_popup n) = n
id (quit n) = n
