-- ===== src/Tests/Service.antt =====
-- Runs of the lifecycle of apps/gpservice/src/vpn_task.rs over the session registry.
use Prim.Native.String.{String}
use global_protect_openconne.Prelude.{
  ℕ, ◌≡◌, refl, ◌↔◌, ◌⊎◌, true, false, Option, none, some, List, [], ◌∷◌, is_ok,
}
use global_protect_openconne.Drain.{is_cancelled, is_complete, alloc, cancel, empty_heap}
use global_protect_openconne.VpnState.{Gateway, ConnectInfo, external, system, disconnected}
use global_protect_openconne.Lifecycle.{
  PreparedConnection, VpnSessionInfo, established, Lifecycle, Admission, ended, sent,
  reserve_connect, admit, commit, enqueue, activate_attempt, attempt_cancellation, clear_attempt,
  is_stop_requested, request_disconnect,
}
use global_protect_openconne.Lifecycle.Reserve.{reserve_connect_iff, restart_once}
use global_protect_openconne.VpnTask.{ActiveAttempt, send_state}
use global_protect_openconne.VpnTask.Connect.{
  start_attempt, attempt_info, establish_attempt, publish_connected,
}
use global_protect_openconne.VpnTask.Finish.{
  end_attempt, conclude, finish_attempt, unbind_tunnel, clear_report, join_attempt,
}
use global_protect_openconne.VpnTask.Events.{handle_event}
use global_protect_openconne.VpnTask.System.{
  System, Label, reserve, commits, disconnects, delivers, emits, joins, pick, consume, deliver,
  step, run, new,
}
use global_protect_openconne.VpnTask.Ownership.Runs.{run-one_holder, holders, size}
use global_protect_openconne.VpnTask.Stopping.{disconnect-not_connected}
use global_protect_openconne.VpnTask.Tokens.{disconnect-cancels_active}
use global_protect_openconne.VpnTask.Completion.{step-Released}
use global_protect_openconne.Registry.Handshake as Handshake
use global_protect_openconne.Registry.Store.{store}

abbrev gateway : Gateway
gateway = record {
  name = "gw";
  address = "192.0.2.1";
  kind = external;
  priority = 1;
  priority_rules = [];
}

abbrev info : ConnectInfo
info = record {
  packet_delivery = system;
  script_tun_identity = none;
  portal = "portal.example";
  gateway = gateway;
  gateways = [];
}

abbrev connection : PreparedConnection
connection = record { info = info; modes = []; script_tun = none; allow_extend_session = false }

abbrev duration : ℕ → String
duration n = "soon"

abbrev started : System store
started = new store disconnected true (Handshake.new 7)

-- A connection is reserved, committed, and its start is delivered.
abbrev starting : List Label
starting = reserve none ∷ commits 0 sent sent connection none none none ∷ delivers 0 1 ∷ []

abbrev connecting : System store
connecting = run store duration started starting

run-one_holder_example :
    holders store duration (run store duration started starting)
    ≡ size (run store duration started starting).lifecycle.current
run-one_holder_example = run-one_holder store duration disconnected true (Handshake.new 7) starting

abbrev the_attempt : ActiveAttempt
the_attempt = record {
  attempt = 0;
  session_id = none;
  info = info;
  allow_extend_session = false;
  cancellation = 0;
  failure = none;
  reconnect_required = false;
}

disconnect-cancels_active_example :
    is_cancelled (step store duration connecting (disconnects sent)).lifecycle.heap 0 ≡ true
unfolding new run step consume deliver reserve_connect admit alloc commit enqueue pick handle_event
    start_attempt attempt_info activate_attempt attempt_cancellation empty_heap send_state
disconnect-cancels_active_example =
    disconnect-cancels_active store duration disconnected true (Handshake.new 7) starting sent
      the_attempt refl

-- The worker of the attempt ends, and the actor has waited for it.
abbrev ending : System store
ending = run store duration connecting (emits (ended 0) ∷ delivers 0 2 ∷ [])

abbrev the_admission : Option Admission → Admission
the_admission none = record {
  attempt = 0;
  phase = global_protect_openconne.Lifecycle.active;
  stop_requested = false;
  drain = 9;
}
the_admission (some m) = m

step-Released_example : is_complete (step store duration ending joins).lifecycle.heap 0 ≡ true
unfolding new run step consume deliver reserve_connect admit alloc commit enqueue pick handle_event
    start_attempt attempt_info activate_attempt attempt_cancellation empty_heap end_attempt
    send_state join_attempt conclude finish_attempt clear_attempt unbind_tunnel clear_report
step-Released_example =
    step-Released store (the_admission ending.lifecycle.current) duration ending joins refl refl

reserve_connect_iff_example : (is_ok (reserve_connect none started.lifecycle).1 ≡ true) ↔ (
    (started.lifecycle.closed ≡ false)
    × (started.lifecycle.current ≡ none)
    × ((◌≡◌ {A = Option (ℕ × ℕ)} none none) ⊎ (started.lifecycle.restart ≡ none)))
reserve_connect_iff_example = reserve_connect_iff none started.lifecycle

abbrev offered : Lifecycle
offered = record (started.lifecycle) {
  admissions = record (started.lifecycle.admissions) { restart = some (4, 5) };
}

restart_once_example : is_ok (reserve_connect (some (4, 5)) started.lifecycle).1 ≡ false
unfolding new reserve_connect admit
restart_once_example = restart_once (4, 5) offered started.lifecycle refl refl

-- The worker has reported its session, and the connection is published.
abbrev established_session : VpnSessionInfo
established_session = record { lifetime_secs = none; user_expires = none; lifetime_warning = none }

abbrev connected_system : System store
connected_system =
    run store duration connecting (emits (established 0 established_session) ∷ delivers 0 2 ∷ [])

-- A second report overtakes the stop event.
abbrev late : List Label
late = emits (established 0 established_session) ∷ delivers 1 3 ∷ []

disconnect-not_connected_example :
    (run store duration
      (step store duration connected_system (disconnects sent))
      late).lifecycle.state
    ≡ connected_system.lifecycle.state
unfolding new run step consume deliver reserve_connect admit alloc commit enqueue pick handle_event
    start_attempt attempt_info activate_attempt attempt_cancellation empty_heap send_state
    establish_attempt publish_connected request_disconnect cancel
disconnect-not_connected_example =
    disconnect-not_connected store duration connected_system sent late refl refl
