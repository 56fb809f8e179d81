-- ===== src/Widget/Keeping/Turns.antt =====
-- What a turn of the loop of the widget's daemon keeps (apps/gpwidget/src/daemon/mod.rs).
use Prim.Native.String.{String}
use global_protect_openconne.Prelude.{
  ◌==◌, inl, inr, Bool-cases, ◌≡◌, refl, inl, inr, Bool, true, false, ◌&&◌, ◌||◌, Option, none,
  some, arith, if◌then◌else◌, is_some,
}
use global_protect_openconne.VpnState.{
  ConnectInfo, VpnState, connected, connecting, disconnected, disconnecting, reconnect_required,
}
use global_protect_openconne.Broadcast.{
  WsEvent, VpnEnv, tunnel_event, env_event, state_event, active_gui, resume_connection,
}
use global_protect_openconne.Widget.{ConnectView, Model, apply_vpn_state}
use global_protect_openconne.Widget.State.{
  Surroundings, is_disconnected, popup, emit, Effect, ConnectRequest, next_generation, Daemon,
  publish_snapshot,
}
use global_protect_openconne.Widget.Connect.{start_connect_flow}
use global_protect_openconne.Widget.Events.{
  ended, answered, unless_over, react, handle_ws_event, FlowMsg, otp_prompt, submitted,
  handle_flow_msg, handle_rejection, handle_expiry_warning, handle_watchdog,
}
use global_protect_openconne.Widget.Daemon.{
  exit_if, handle_command, Input, event, rejected, lost, gone, notices_ended, commands_ended,
  command, flow, connect_watchdog, expiry_warning, quit_timeout, measured, sigterm, sigint, Turn,
  running, exited, take_stats, turn,
}
use global_protect_openconne.Widget.Keeping.{
  sends_connect, connects, keeps, keeps_refl, keeps_trans, start_connect_flow-keeps,
  restart_submitted_connect-keeps, resume_last-keeps, publish_snapshot-keeps, modelled-keeps,
  apply-keeps,
}
use global_protect_openconne.Widget.Keeping.Commands.{handle_command-keeps}

module _ (C H : Type 0) (connect_view : ConnectInfo → Option ConnectView) (trim : String → String)
    (config_path : String) where
  abbrev D : Type 0
  D = Daemon C H connect_view

  abbrev kept : D → D → Bool
  kept d e = keeps C H connect_view trim config_path d e

  -- The generation of the watchdog is counted up.
  abbrev pub bumped : D → D
  bumped d = record d { watchdog_generation = next_generation d.watchdog_generation }

  -- Whether a state answers the request to connect.
  abbrev pub is_answer : VpnState → Bool
  is_answer (connecting _) = true
  is_answer (connected _) = true
  is_answer (reconnect_required _) = true
  is_answer _ = false

  abbrev pub bumped_if : Bool → D → D
  bumped_if true d = bumped d
  bumped_if false d = d

  abbrev submission : ConnectRequest → D → D
  submission r d = record (bumped d) { submitted_connect = some r }

  -- The daemon with the changes of an input to what is otherwise kept.
  unfoldable pub expected : Input C H connect_view trim config_path → D → D
  expected (event (state_event v)) d = bumped_if (is_answer v) d
  expected (rejected message) d = bumped d
  expected (flow (submitted r)) d = submission r d
  expected _ d = d

  -- Whether an input answers the request to connect, or is a new one.
  abbrev pub bumps : Input C H connect_view trim config_path → Bool
  bumps (event (state_event v)) = is_answer v
  bumps (rejected message) = true
  bumps (flow (submitted r)) = true
  bumps _ = false

  abbrev pub submits : Input C H connect_view trim config_path → Bool
  submits (flow (submitted r)) = true
  submits _ = false

  -- What an input changes of what is kept.
  abbrev Framed : Bool → Bool → D → D → Type 0
  Framed bump submit d e =
      (e.quitting ≡ d.quitting)
      × (e.watchdog_generation
          ≡ (if bump then next_generation d.watchdog_generation else d.watchdog_generation))
      × (is_some e.submitted_connect ≡ (submit || is_some d.submitted_connect))
      × (e.effects ≡ d.effects)

  bumped_if-Framed : (b : Bool) (d : D) → Framed b false d (bumped_if b d)
  bumped_if-Framed true d = (refl, refl, refl, refl)
  bumped_if-Framed false d = (refl, refl, refl, refl)

  pub expected-Framed :
      (i : Input C H connect_view trim config_path) (d : D)
      → Framed (bumps i) (submits i) d (expected i d)
  unfolding expected
  expected-Framed (event (state_event v)) d = bumped_if-Framed (is_answer v) d
  expected-Framed (event (env_event x)) d = (refl, refl, refl, refl)
  expected-Framed (event (tunnel_event x)) d = (refl, refl, refl, refl)
  expected-Framed (event active_gui) d = (refl, refl, refl, refl)
  expected-Framed (event resume_connection) d = (refl, refl, refl, refl)
  expected-Framed (rejected x) d = (refl, refl, refl, refl)
  expected-Framed lost d = (refl, refl, refl, refl)
  expected-Framed gone d = (refl, refl, refl, refl)
  expected-Framed notices_ended d = (refl, refl, refl, refl)
  expected-Framed commands_ended d = (refl, refl, refl, refl)
  expected-Framed (command x) d = (refl, refl, refl, refl)
  expected-Framed (flow (submitted r)) d = (refl, refl, refl, refl)
  expected-Framed (flow (otp_prompt x y)) d = (refl, refl, refl, refl)
  expected-Framed (flow (FlowMsg.failed x y)) d = (refl, refl, refl, refl)
  expected-Framed (connect_watchdog x) d = (refl, refl, refl, refl)
  expected-Framed (expiry_warning x) d = (refl, refl, refl, refl)
  expected-Framed quit_timeout d = (refl, refl, refl, refl)
  expected-Framed (measured x) d = (refl, refl, refl, refl)
  expected-Framed sigterm d = (refl, refl, refl, refl)
  expected-Framed sigint d = (refl, refl, refl, refl)

  answered-keeps : (d : D) → kept (bumped d) (answered C H connect_view trim config_path d) ≡ true
  unfolding keeps
  answered-keeps d = ground arith

  ended-keeps :
      (failure : Option String) (d : D)
      → kept d (ended C H connect_view trim config_path failure d).0 ≡ true
  unfolding keeps connects
  ended-keeps none d = ground arith
  ended-keeps (some reason) d = ground arith

  react-keeps :
      (v : VpnState) (d : D)
      → kept (bumped_if (is_answer v) d) (react C H connect_view trim config_path v d).0 ≡ true
  unfolding react
  react-keeps (connecting i) d = answered-keeps d
  react-keeps (connected c) d = answered-keeps d
  react-keeps (reconnect_required r) d =
      let a = answered C H connect_view trim config_path d in
      keeps_trans C H connect_view trim config_path (bumped d) a _ (answered-keeps d)
        (restart_submitted_connect-keeps C H connect_view trim config_path r.attempt a)
  react-keeps disconnected d = ended-keeps none d
  react-keeps (VpnState.failed reason) d = ended-keeps (some reason) d
  react-keeps disconnecting d = keeps_refl C H connect_view trim config_path d

  unless_over-keeps :
      (v : VpnState) (w : Surroundings) (r : D × Bool)
      → kept r.0 (unless_over C H connect_view trim config_path v w r).0 ≡ true
  unless_over-keeps v w (d, true) = keeps_refl C H connect_view trim config_path d
  unless_over-keeps v w (d, false) = apply-keeps C H connect_view trim config_path v w d

  env_event-keeps :
      (env : VpnEnv C H) (w : Surroundings) (d : D)
      → kept d (handle_ws_event C H connect_view trim config_path (env_event env) w d).0 ≡ true
  unfolding handle_ws_event
  env_event-keeps env w d =
      let m = apply_vpn_state C H connect_view env.vpn_state d.model in
      let n : Model C H connect_view = record m { vpn_env = some env } in
      let f : D = record d { model = n } in
      let e = publish_snapshot C H connect_view f in
      let k =
        keeps_trans C H connect_view trim config_path d f e
          (modelled-keeps C H connect_view trim config_path n d)
          (publish_snapshot-keeps C H connect_view trim config_path f) in
      let s = start_connect_flow C H connect_view trim config_path none none w e in
      elim (Bool-cases (e.model.config.auto_connect && is_disconnected e.model.vpn_state)) [
        | inl b ↦ rw b (
            keeps_trans C H connect_view trim config_path d e s.0 k
              (start_connect_flow-keeps C H connect_view trim config_path none none w e))
        | inr b ↦ rw b k
      ]

  emitted-keeps :
      (e : Effect C H connect_view) (d : D)
      → (sends_connect C H connect_view trim config_path e == 0) ≡ true
      → kept d (emit C H connect_view e d) ≡ true
  unfolding keeps connects
  emitted-keeps e d h = ground arith

  handle_ws_event-keeps :
      (e : WsEvent C H) (w : Surroundings) (d : D)
      → kept (expected (event e) d) (handle_ws_event C H connect_view trim config_path e w d).0
        ≡ true
  unfolding handle_ws_event expected
  handle_ws_event-keeps (env_event env) w d = env_event-keeps env w d
  handle_ws_event-keeps (state_event v) w d =
      keeps_trans C H connect_view trim config_path _
        (react C H connect_view trim config_path v d).0 _ (react-keeps v d)
        (unless_over-keeps v w (react C H connect_view trim config_path v d))
  handle_ws_event-keeps active_gui w d = emitted-keeps popup d refl
  handle_ws_event-keeps (tunnel_event t) w d = keeps_refl C H connect_view trim config_path d
  handle_ws_event-keeps resume_connection w d =
      resume_last-keeps C H connect_view trim config_path w d

  handle_flow_msg-keeps :
      (m : FlowMsg C H connect_view trim config_path) (d : D)
      → kept (expected (flow m) d) (handle_flow_msg C H connect_view trim config_path m d) ≡ true
  unfolding handle_flow_msg expected keeps connects publish_snapshot
  handle_flow_msg-keeps (otp_prompt message respond) d = ground arith
  handle_flow_msg-keeps (submitted r) d = ground arith
  handle_flow_msg-keeps (FlowMsg.failed error true) d = ground arith
  handle_flow_msg-keeps (FlowMsg.failed error false) d = ground arith

  abbrev pub daemon_of : Turn C H connect_view trim config_path → D
  daemon_of (running d) = d
  daemon_of (exited code d) = d

  exit_if-keeps :
      (d : D) (r : D × Bool)
      → kept d r.0 ≡ true
      → kept d (daemon_of (exit_if C H connect_view trim config_path r)) ≡ true
  unfolding keeps connects
  exit_if-keeps e (d, true) h = ground arith
  exit_if-keeps e (d, false) h = h

  pub turn-keeps :
      (i : Input C H connect_view trim config_path) (w : Surroundings) (d : D)
      → kept (expected i d) (daemon_of (turn C H connect_view trim config_path i w d)) ≡ true
  unfolding turn take_stats expected keeps connects publish_snapshot handle_rejection
      handle_expiry_warning handle_watchdog
  turn-keeps (event e) w d =
      exit_if-keeps (expected (event e) d) (handle_ws_event C H connect_view trim config_path e w d)
        (handle_ws_event-keeps e w d)
  turn-keeps (rejected message) w d = ground arith
  turn-keeps lost w d = ground arith
  turn-keeps gone w d = ground arith
  turn-keeps notices_ended w d = ground arith
  turn-keeps commands_ended w d = ground arith
  turn-keeps (command c) w d =
      exit_if-keeps d (handle_command C H connect_view trim config_path c w d)
        (handle_command-keeps C H connect_view trim config_path c w d)
  turn-keeps (flow m) w d = handle_flow_msg-keeps m d
  turn-keeps (connect_watchdog n) w d = ground arith
  turn-keeps (expiry_warning n) w d = ground arith
  turn-keeps quit_timeout w d = ground arith
  turn-keeps (measured stats) w d = ground arith
  turn-keeps sigterm w d = ground arith
  turn-keeps sigint w d = ground arith
