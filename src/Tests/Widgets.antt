-- ===== src/Tests/Widgets.antt =====
-- Runs of the widget's daemon (apps/gpwidget/src/daemon/mod.rs).
use Prim.Native.String.{String}
use global_protect_openconne.Prelude.{
  ◌==◌, ◌&&◌, ℕ, ◌≡◌, refl, true, false, Option, none, some, List, [], ◌∷◌, arith,
}
use global_protect_openconne.VpnState.{
  GatewayKind, Gateway, PacketDeliveryKind, ConnectInfo, VpnState, disconnected, connected,
  connecting, reconnect_required, connected_info,
}
use global_protect_openconne.Broadcast.{VpnEnv, env_event, state_event}
use global_protect_openconne.Widget.{ConnectView, apply_vpn_state}
use global_protect_openconne.Widget.Messages.{
  Config, default_config, ClientMsg, toggle, connect, quit,
}
use global_protect_openconne.Widget.State.{
  ConnectRequest, Surroundings, Daemon, next_generation, new_daemon, publish_snapshot, Effect,
  cancel_flow,
}
use global_protect_openconne.Widget.Connect.{start_connect_flow, disconnect}
use global_protect_openconne.Widget.Events.{
  FlowMsg, submitted, handle_watchdog, handle_ws_event, handle_flow_msg,
}
use global_protect_openconne.Widget.Daemon.{
  Input, event, command, flow, quit_timeout, handle_command, running, turn, turns, run,
}
use global_protect_openconne.Widget.Starting.{Starts, start_connect_flow-Starts}
use global_protect_openconne.Widget.Snapshots.{all_valid, is_valid}
use global_protect_openconne.Widget.Snapshots.Runs.{daemon_of, run-is_valid}
use global_protect_openconne.Widget.Leaving.{has_end, has_exited, leaves_or_waits, turns-quit}
use global_protect_openconne.Widget.Resting.{none_submits, sent, turns-disconnect}
use global_protect_openconne.Widget.Watching.{
  superseding, is_idle, Reports, handle_watchdog-submitted,
}

abbrev gateway : Gateway
gateway = record {
  name = "GW";
  address = "gw.example.com";
  kind = GatewayKind.external;
  priority = 0;
  priority_rules = [];
}

abbrev info : ConnectInfo
info = record {
  packet_delivery = PacketDeliveryKind.system;
  script_tun_identity = none;
  portal = "vpn.example.com";
  gateway = gateway;
  gateways = gateway ∷ [];
}

abbrev view : ConnectInfo → Option ConnectView
view i = some (record { portal = i.portal; gateway = i.gateway; gateways = i.gateways })

abbrev kept_text : String → String
kept_text text = text

abbrev path : String
path = "/home/user/.config/gpwidget/config.toml"

abbrev config : Config
config = record default_config { portal = some "vpn.example.com" }

abbrev world : Surroundings
world = record {
  now = 1000;
  interfaces = "lo" ∷ [];
  loaded = none;
  listening = true;
  prompt_waits = false;
}

abbrev environment : VpnEnv ℕ ℕ
environment = record {
  tunnel_state = none;
  vpn_state = disconnected;
  vpnc_script = none;
  auth_executable = "gpauth";
  host_info = 7;
}

abbrev request : ConnectRequest
request = record { info = info; restart_of = none }

abbrev In : Type 0
In = Input ℕ ℕ view kept_text path × Surroundings

abbrev input : Input ℕ ℕ view kept_text path → In
input i = (i, world)

-- A connection that comes up.
abbrev connecting_run : List In
connecting_run =
    input (event (env_event environment))
    ∷ input (command (connect (some 1) none none))
    ∷ input (flow (submitted request))
    ∷ input (event (state_event (connecting info)))
    ∷ input (event (state_event (connected (connected_info info none 990))))
    ∷ []

abbrev result : List In → Daemon ℕ ℕ view
result is = daemon_of ℕ ℕ view kept_text path (run ℕ ℕ view kept_text path config is)

run-is_valid_example :
    (all_valid ℕ ℕ view (result connecting_run).effects ≡ true)
    × (is_valid (result connecting_run).latest ≡ true)
run-is_valid_example = run-is_valid ℕ ℕ view kept_text path config connecting_run

-- The daemon once the service has been heard of.
abbrev ready : Daemon ℕ ℕ view
ready = result (input (event (env_event environment)) ∷ [])

start_connect_flow-Starts_example :
    Starts ℕ ℕ view kept_text path
      (some "vpn.example.org")
      none
      world
      ready
      (start_connect_flow ℕ ℕ view kept_text path (some "vpn.example.org") none world ready)
start_connect_flow-Starts_example =
    start_connect_flow-Starts ℕ ℕ view kept_text path (some "vpn.example.org") none world ready

abbrev up : Daemon ℕ ℕ view
up = result connecting_run

abbrev end_run : List In
end_run = input (command (toggle none)) ∷ input quit_timeout ∷ []

turns-quit_example :
    (leaves_or_waits ℕ ℕ view kept_text path
        (turn ℕ ℕ view kept_text path (command (quit (some 2))) world up)
      ≡ true)
    × (has_exited ℕ ℕ view kept_text path
          (turns ℕ ℕ view kept_text path ((command (quit (some 2)), world) ∷ end_run) (running up))
        ≡ true)
unfolding has_end
turns-quit_example = turns-quit ℕ ℕ view kept_text path (some 2) world up end_run refl

-- The service asks for a restart although the user has disconnected.
abbrev restart_run : List In
restart_run =
    input (event (state_event disconnected))
    ∷ input
        (event (state_event (reconnect_required (record { attempt = 4; owner = 9; info = info }))))
    ∷ []

turns-disconnect_example :
    sent ℕ ℕ view kept_text path
      (turns ℕ ℕ view kept_text path restart_run (running (disconnect ℕ ℕ view kept_text path up)))
    ≡ sent ℕ ℕ view kept_text path (running up)
unfolding run handle_ws_event publish_snapshot apply_vpn_state new_daemon handle_command
    handle_flow_msg start_connect_flow connected_info none_submits
turns-disconnect_example = turns-disconnect ℕ ℕ view kept_text path up restart_run refl refl refl

-- The tunnel fails before it starts; the watchdog then replaces the reason.
abbrev failed_run : List In
failed_run = input (event (state_event (VpnState.failed "boom"))) ∷ []

abbrev after_failure : Daemon ℕ ℕ view
after_failure =
    daemon_of ℕ ℕ view kept_text path (
      turns ℕ ℕ view kept_text path ((flow (submitted request), world) ∷ failed_run)
        (running ready))

handle_watchdog-submitted_example :
    Reports ℕ ℕ view kept_text path
      (superseding ℕ ℕ view kept_text path failed_run == 0
        && is_idle ℕ ℕ view kept_text path after_failure)
      after_failure
      (handle_watchdog ℕ ℕ view kept_text path
        (next_generation ready.watchdog_generation)
        after_failure)
unfolding superseding turns handle_ws_event publish_snapshot apply_vpn_state handle_flow_msg run
    new_daemon
handle_watchdog-submitted_example =
    handle_watchdog-submitted ℕ ℕ view kept_text path request world ready after_failure failed_run
      (omega arith) refl

-- A flow is cancelled and another one started; when the first one reports its end, the daemon
-- forgets the second, and starts a third beside it.
abbrev forgetful_run : List In
forgetful_run =
    input (event (env_event environment))
    ∷ input (command (connect none none none))
    ∷ input (command (ClientMsg.disconnect none))
    ∷ input (command (connect none none none))
    ∷ input (flow (FlowMsg.failed "cancelled" true))
    ∷ input (command (connect none none none))
    ∷ []

abbrev cancels : List (Effect ℕ ℕ view) → List ℕ
cancels [] = []
cancels (cancel_flow token ∷ es) = token ∷ cancels es
cancels (_ ∷ es) = cancels es

three_flows : (result forgetful_run).flows ≡ 3
unfolding run handle_ws_event publish_snapshot apply_vpn_state new_daemon handle_command
    handle_flow_msg start_connect_flow disconnect
three_flows = refl

one_cancelled : cancels (result forgetful_run).effects ≡ 0 ∷ []
unfolding run handle_ws_event publish_snapshot apply_vpn_state new_daemon handle_command
    handle_flow_msg start_connect_flow disconnect
one_cancelled = refl

-- While the daemon is quitting, an environment with a tunnel that is down does not end it.
stays_after_environment :
    has_exited ℕ ℕ view kept_text path (
      turns ℕ ℕ view kept_text path
        ((command (quit none), world) ∷ input (event (env_event environment)) ∷ [])
        (running up))
    ≡ false
unfolding run turns handle_ws_event publish_snapshot apply_vpn_state new_daemon handle_command
    handle_flow_msg start_connect_flow connected_info
stays_after_environment = refl
