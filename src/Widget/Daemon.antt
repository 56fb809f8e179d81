-- ===== src/Widget/Daemon.antt =====
-- The loop of the widget's daemon, `run` of apps/gpwidget/src/daemon/mod.rs, and its commands. A
-- turn of the loop takes one input, with what the daemon reads of its surroundings; a daemon that
-- has exited takes no more. The handlers of signals are installed.
use Prim.Native.String.{String}
use global_protect_openconne.Prelude.{
  ℕ, Bool, true, false, ◌||◌, Option, none, some, Result, ok, err, List, [], ◌∷◌, if◌then◌else◌,
  is_some,
}
use global_protect_openconne.VpnState.{ConnectInfo}
use global_protect_openconne.Broadcast.{WsEvent}
use global_protect_openconne.Widget.{ConnectView}
use global_protect_openconne.Widget.Messages.{
  Config, ConnStats, status, bye, ToastLevel, ClientMsg, get_status, connect, toggle, submit_otp,
  open_popup, quit,
}
use global_protect_openconne.Widget.State.{
  disconnect_request, Surroundings, is_connected, is_starting_or_connected, Daemon, publish, answer,
  send, answer_prompt, popup, start_quit_timeout, new_daemon, emit, publish_snapshot, alert,
  acknowledge,
}
use global_protect_openconne.Widget.Connect.{start_connect_flow, disconnect, cancel_running}
use global_protect_openconne.Widget.Events.{
  handle_ws_event, FlowMsg, handle_flow_msg, handle_rejection, handle_expiry_warning,
  handle_watchdog,
}

module _ (C H : Type 0) (connect_view : ConnectInfo → Option ConnectView) (trim : String → String)
    (config_path : String) where
  abbrev pub acknowledge_result :
      Option ℕ → Daemon C H connect_view × Result String Unit → Daemon C H connect_view
  acknowledge_result n (d, ok _) = acknowledge C H connect_view n true none d
  acknowledge_result n (d, err e) = acknowledge C H connect_view n false (some e) d

  -- The prompt is taken, whether its flow still waits or not.
  abbrev submit :
      Option ℕ
      → String
      → Surroundings
      → Daemon C H connect_view
      → Daemon C H connect_view × Result String Unit
  submit none otp w d = (d, err "no pending OTP prompt")
  submit (some prompt) otp w d =
      if w.prompt_waits
      then (
        emit C H connect_view (answer_prompt prompt otp) (record d { pending_otp = none }),
        ok tt,
      )
      else (record d { pending_otp = none }, err "the OTP prompt expired")

  unfoldable pub toggled :
      Surroundings → Daemon C H connect_view → Daemon C H connect_view × Result String Unit
  toggled w d =
      if is_some d.connect_cancel || is_starting_or_connected d.model.vpn_state
      then (disconnect C H connect_view trim config_path d, ok tt)
      else start_connect_flow C H connect_view trim config_path none none w d

  unfoldable pub quit_by : Option ℕ → Daemon C H connect_view → Daemon C H connect_view × Bool
  quit_by n d =
      let told = acknowledge C H connect_view n true none d in
      let free = cancel_running C H connect_view trim config_path told.connect_cancel told in
      if is_starting_or_connected free.model.vpn_state
      then (
        emit C H connect_view start_quit_timeout (
            emit C H connect_view (send disconnect_request)
              (record free { quitting = true; disconnect_requested = true })),
        false,
      )
      else (free, true)

  unfoldable pub handle_command :
      ClientMsg → Surroundings → Daemon C H connect_view → Daemon C H connect_view × Bool
  unfolding toggled quit_by
  handle_command (get_status n) w d = (
    acknowledge C H connect_view n true none (emit C H connect_view (answer (status d.latest)) d),
    false,
  )
  handle_command (connect n portal gateway) w d = (
    acknowledge_result n (start_connect_flow C H connect_view trim config_path portal gateway w d),
    false,
  )
  handle_command (ClientMsg.disconnect n) w d = (
    acknowledge C H connect_view n true none (disconnect C H connect_view trim config_path d),
    false,
  )
  handle_command (toggle n) w d = (acknowledge_result n (toggled w d), false)
  handle_command (submit_otp n otp) w d =
      (acknowledge_result n (submit d.pending_otp otp w d), false)
  handle_command (open_popup n) w d =
      (acknowledge C H connect_view n true none (emit C H connect_view popup d), false)
  handle_command (quit n) w d = quit_by n d

  -- The connection to the service reports `event`, `rejected`, `lost` and `gone`; a channel that
  -- ended is one of the two inputs named so.
  pub data Input : Type 0 where
    event : WsEvent C H → Input
    rejected : (message : String) → Input
    lost gone notices_ended commands_ended : Input
    command : ClientMsg → Input
    flow : FlowMsg C H connect_view trim config_path → Input
    connect_watchdog : (generation : ℕ) → Input
    expiry_warning : (generation : ℕ) → Input
    quit_timeout : Input
    measured : ConnStats → Input
    sigterm sigint : Input

  pub data Turn : Type 0 where
    running : Daemon C H connect_view → Turn
    exited : (code : ℕ) → Daemon C H connect_view → Turn

  -- The last message that is published.
  abbrev exit : ℕ → Daemon C H connect_view → Turn
  exit code d = exited code (emit C H connect_view (publish bye) d)

  abbrev pub exit_if : Daemon C H connect_view × Bool → Turn
  exit_if (d, true) = exit 0 d
  exit_if (d, false) = running d

  abbrev lost_service : String
  lost_service = "VPN service terminated unexpectedly"

  unfoldable pub take_stats :
      ConnStats → Surroundings → Daemon C H connect_view → Daemon C H connect_view
  take_stats stats w d =
      let shown = record d { model = record d.model { conn = some stats } } in
      if is_connected d.model.vpn_state
      then if w.listening then publish_snapshot C H connect_view shown else shown
      else d

  unfoldable pub turn : Input → Surroundings → Daemon C H connect_view → Turn
  unfolding take_stats
  turn (event e) w d = exit_if (handle_ws_event C H connect_view trim config_path e w d)
  turn (rejected message) w d =
      running (handle_rejection C H connect_view trim config_path message d)
  turn lost w d = running d
  turn gone w d = exit 0 (alert C H connect_view ToastLevel.error "GlobalProtect" lost_service d)
  turn notices_ended w d = exit 1 d
  turn commands_ended w d = exit 1 d
  turn (command c) w d = exit_if (handle_command c w d)
  turn (flow m) w d = running (handle_flow_msg C H connect_view trim config_path m d)
  turn (connect_watchdog n) w d = running (handle_watchdog C H connect_view trim config_path n d)
  turn (expiry_warning n) w d =
      running (handle_expiry_warning C H connect_view trim config_path n d)
  turn quit_timeout w d = if d.quitting then exit 0 d else running d
  turn (measured stats) w d = running (take_stats stats w d)
  turn sigterm w d = exit 0 d
  turn sigint w d = exit 0 d

  unfoldable pub next : Input × Surroundings → Turn → Turn
  unfolding turn
  next (i, w) (running d) = turn i w d
  next (i, w) (exited code d) = exited code d

  -- The inputs are in the order in which they are taken.
  unfoldable pub turns : List (Input × Surroundings) → Turn → Turn
  unfolding next
  turns [] t = t
  turns (i ∷ is) t = turns is (next i t)

  unfoldable pub run : Config → List (Input × Surroundings) → Turn
  unfolding turns
  run config is = turns is (running (new_daemon C H connect_view config))
