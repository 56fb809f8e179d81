-- ===== src/Tests/Clients.antt =====
-- Runs of the service's connections to its clients (apps/gpservice/src/ws_server.rs).
use global_protect_openconne.Prelude.{
  ℕ, ◌≡◌, refl, Bool, true, false, Option, none, some, List, [], ◌∷◌,
}
use global_protect_openconne.Prelude.Map.{lookup, insert, adjust, count, retain}
use global_protect_openconne.Drain.{empty_heap}
use global_protect_openconne.VpnState.{disconnected, disconnecting}
use global_protect_openconne.Registry.{Registry, HandshakePermit, find, put}
use global_protect_openconne.Registry.Handshake.{
  new, issue, begin_handshake, claim, prepare_attach, commit_attach, attach, drop_expired,
}
use global_protect_openconne.Monitor.{TunnelState, TunnelPhase, TunnelTransport}
use global_protect_openconne.Broadcast.{
  unavailable, no_tunnel, VpnEnv, ServerMessage, state_event, Control, new_control, send,
}
use global_protect_openconne.Broadcast.State.{
  MonitorMethods, TunnelBinding, Context, new_context, current_snapshot, refresh_demand,
}
use global_protect_openconne.Broadcast.Server.{
  prepare_connection, commit_connection, registered, committed_state, fit_snapshot_message,
  send_fitting, drop_replaced,
}
use global_protect_openconne.Broadcast.Events.{send_event, record_event, deliver}
use global_protect_openconne.Broadcast.Widget.{serving, replay}
use global_protect_openconne.Broadcast.Runs.{
  Move, preparing, committing, sending_event, move, moves,
}
use global_protect_openconne.Broadcast.Attached.{replay-moves}

-- A monitor is whether it samples.
abbrev idle_tunnel : TunnelState ℕ
idle_tunnel = record {
  tunnel_id = 5;
  sequence = 1;
  phase = TunnelPhase.connected;
  configuration_revision = 0;
  configuration = none;
  transport = TunnelTransport.ssl_tls;
  elapsed_ms = 0;
}

abbrev methods : MonitorMethods ℕ Bool
methods = record {
  state = λ now m. idle_tunnel;
  statistics = λ now m. unavailable no_tunnel;
  set_statistics_enabled = λ enabled m. enabled;
}

abbrev encoded_size : ServerMessage ℕ ℕ → Option ℕ
encoded_size m = some 100

abbrev configuration_size : ℕ → Option ℕ
configuration_size c = some 10

abbrev limit_encoded_size : ℕ → ℕ → Option ℕ
limit_encoded_size n c = some c

abbrev environment : VpnEnv ℕ ℕ
environment = record {
  tunnel_state = none;
  vpn_state = disconnected;
  vpnc_script = none;
  auth_executable = "gpauth";
  host_info = 0;
}

abbrev binding : TunnelBinding Bool
binding = record { attempt = 0; monitor = some false; non_tunnel = false }

abbrev claimed : Registry
claimed =
    (begin_handshake 1 11 7 1 "1.0"
      (issue 0 0 (some (record { session_id = 1; secret = [] })) "1.0" none (new 7)).0).0

abbrev permit : HandshakePermit
permit = record {
  session_id = 1;
  desktop_uid = none;
  observed_generation = 0;
  secret = [];
  token = 11;
}

-- A client connects and is told of a disconnect.
abbrev connected : List (Move ℕ ℕ Bool)
connected =
    preparing 2 permit true 21
    ∷ committing permit 21
    ∷ sending_event (λ id. true) (state_event disconnecting)
    ∷ []

abbrev served : Context ℕ ℕ Bool
served =
    moves ℕ ℕ Bool methods encoded_size configuration_size limit_encoded_size connected
      (new_context ℕ ℕ Bool claimed empty_heap environment binding)

abbrev control_or_new : Option (Control ℕ ℕ) → Control ℕ ℕ
control_or_new none = new_control ℕ ℕ 0
control_or_new (some c) = c

abbrev served_control : Control ℕ ℕ
served_control = control_or_new (lookup 21 served.state.connections)

replay-moves_example :
    replay ℕ ℕ served_control.sent
    ≡ serving (record { revision = 1; last_state = disconnecting; resyncs = [] })
unfolding moves move prepare_connection commit_connection new_control send send_fitting
    fit_snapshot_message current_snapshot registered committed_state drop_replaced refresh_demand
    send_event record_event deliver new issue begin_handshake claim prepare_attach commit_attach
    attach find put drop_expired lookup insert retain count adjust
replay-moves_example =
    replay-moves ℕ ℕ Bool methods encoded_size configuration_size limit_encoded_size connected
      claimed empty_heap environment binding 21 served_control refl
