-- ===== src/Widget/Snapshots/Handlers.antt =====
-- That the handlers of notices, flow messages and timers keep every status of the widget's daemon
-- valid (apps/gpwidget/src/daemon/mod.rs).
use Prim.Native.String.{String}
use global_protect_openconne.Prelude.{
  Bool-cases, ℕ, ◌≡◌, refl, inl, inr, Bool, true, false, ◌&&◌, Option, none, some, arith,
}
use global_protect_openconne.VpnState.{
  ConnectInfo, VpnState, connected, connecting, disconnected, disconnecting, reconnect_required,
}
use global_protect_openconne.Broadcast.{
  WsEvent, VpnEnv, tunnel_event, env_event, state_event, active_gui, resume_connection,
}
use global_protect_openconne.Widget.{ConnectView, apply_vpn_state}
use global_protect_openconne.Widget.State.{
  Surroundings, is_disconnected, is_connected, Daemon, publish_snapshot,
}
use global_protect_openconne.Widget.Events.{
  on_session_established, answered, settle, unless_over, flow_failed, over, react, apply,
  handle_ws_event, FlowMsg, otp_prompt, submitted, handle_flow_msg, handle_rejection,
  handle_expiry_warning, handle_watchdog,
}
use global_protect_openconne.Widget.Snapshots.{
  all_valid, is_clear, is_good, apply_vpn_state-is_clear, publish_snapshot-is_good,
  is_good-is_clear, is_good-all_valid, start_connect_flow-is_good,
  restart_submitted_connect-is_good, resume_last-is_good,
}

module _ (C H : Type 0) (connect_view : ConnectInfo → Option ConnectView) (trim : String → String)
    (config_path : String) where
  abbrev D : Type 0
  D = Daemon C H connect_view

  abbrev good : D → Bool
  good d = is_good C H connect_view d

  react-is_good :
      (v : VpnState) (d : D)
      → good d ≡ true
      → good (react C H connect_view trim config_path v d).0 ≡ true
  unfolding react is_good is_clear all_valid
  react-is_good (connecting i) d h = ground arith
  react-is_good (connected c) d h = ground arith
  react-is_good (reconnect_required r) d h =
      restart_submitted_connect-is_good C H connect_view trim config_path r.attempt
        (answered C H connect_view trim config_path d) (ground arith)
  react-is_good disconnected d h = ground arith
  react-is_good (VpnState.failed reason) d h = ground arith
  react-is_good disconnecting d h = ground arith

  settle-keeps :
      (v : VpnState) (was : Bool) (w : Surroundings) (d : D)
      → all_valid C H connect_view d.effects ≡ true
      → (all_valid C H connect_view (settle C H connect_view trim config_path v was w d).effects
          ≡ true)
        × ((settle C H connect_view trim config_path v was w d).model ≡ d.model)
  unfolding all_valid on_session_established
  settle-keeps (connecting i) was w d h = (h, refl)
  settle-keeps (connected c) true w d h = (h, refl)
  settle-keeps (connected c) false w d h = ground arith
  settle-keeps (reconnect_required r) was w d h = (h, refl)
  settle-keeps disconnected was w d h = (h, refl)
  settle-keeps (VpnState.failed reason) was w d h = (h, refl)
  settle-keeps disconnecting was w d h = (h, refl)

  apply-is_good :
      (v : VpnState) (w : Surroundings) (d : D)
      → good d ≡ true
      → good (apply C H connect_view trim config_path v w d) ≡ true
  unfolding apply
  apply-is_good v w d h =
      let m = apply_vpn_state C H connect_view v d.model in
      let k =
        settle-keeps m.vpn_state (is_connected d.model.vpn_state) w (record d { model = m })
          (is_good-all_valid C H connect_view d h) in
      publish_snapshot-is_good C H connect_view _
        (rw k.1 (apply_vpn_state-is_clear C H connect_view v d.model)) k.0

  unless_over-is_good :
      (v : VpnState) (w : Surroundings) (r : D × Bool)
      → good r.0 ≡ true
      → good (unless_over C H connect_view trim config_path v w r).0 ≡ true
  unless_over-is_good v w (d, true) h = h
  unless_over-is_good v w (d, false) h = apply-is_good v w d h

  env_shown : VpnEnv C H → D → D
  env_shown env d =
      let m = apply_vpn_state C H connect_view env.vpn_state d.model in
      publish_snapshot C H connect_view (record d { model = record m { vpn_env = some env } })

  env_shown-is_good : (env : VpnEnv C H) (d : D) → good d ≡ true → good (env_shown env d) ≡ true
  unfolding env_shown is_clear
  env_shown-is_good env d h =
      publish_snapshot-is_good C H connect_view _
        (apply_vpn_state-is_clear C H connect_view env.vpn_state d.model)
        (is_good-all_valid C H connect_view d h)

  pub handle_ws_event-is_good :
      (e : WsEvent C H) (w : Surroundings) (d : D)
      → good d ≡ true
      → good (handle_ws_event C H connect_view trim config_path e w d).0 ≡ true
  unfolding handle_ws_event env_shown is_good is_clear all_valid
  handle_ws_event-is_good (env_event env) w d h =
      let k = env_shown-is_good env d h in
      elim (Bool-cases (
        (env_shown env d).model.config.auto_connect
        && is_disconnected (env_shown env d).model.vpn_state)) [
          | inl b ↦ rw b (
              start_connect_flow-is_good C H connect_view trim config_path none none w
                (env_shown env d) k)
          | inr b ↦ rw b k
        ]
  handle_ws_event-is_good (state_event v) w d h = unless_over-is_good v w _ (react-is_good v d h)
  handle_ws_event-is_good active_gui w d h = ground arith
  handle_ws_event-is_good (tunnel_event t) w d h = h
  handle_ws_event-is_good resume_connection w d h =
      resume_last-is_good C H connect_view trim config_path w d h

  flow_failed-is_good :
      (error : String) (cancelled : Bool) (d : D)
      → good d ≡ true
      → good (flow_failed C H connect_view trim config_path error cancelled d) ≡ true
  unfolding is_good is_clear all_valid
  flow_failed-is_good error true d h = h
  flow_failed-is_good error false d h = ground arith

  pub republished : (d : D) → good d ≡ true → good (publish_snapshot C H connect_view d) ≡ true
  republished d h =
      publish_snapshot-is_good C H connect_view d (is_good-is_clear C H connect_view d h)
        (is_good-all_valid C H connect_view d h)

  pub handle_flow_msg-is_good :
      (m : FlowMsg C H connect_view trim config_path) (d : D)
      → good d ≡ true
      → good (handle_flow_msg C H connect_view trim config_path m d) ≡ true
  unfolding handle_flow_msg is_good is_clear all_valid
  handle_flow_msg-is_good (otp_prompt message respond) d h = ground arith
  handle_flow_msg-is_good (submitted r) d h = ground arith
  handle_flow_msg-is_good (FlowMsg.failed error cancelled) d h =
      republished _
        (flow_failed-is_good error cancelled (over C H connect_view trim config_path d) h)

  pub handle_rejection-is_good :
      (message : String) (d : D)
      → good d ≡ true
      → good (handle_rejection C H connect_view trim config_path message d) ≡ true
  unfolding handle_rejection is_good is_clear all_valid
  handle_rejection-is_good message d h = republished _ (ground arith)

  pub handle_expiry_warning-is_good :
      (n : ℕ) (d : D)
      → good d ≡ true
      → good (handle_expiry_warning C H connect_view trim config_path n d) ≡ true
  unfolding handle_expiry_warning is_good all_valid
  handle_expiry_warning-is_good n d h = ground arith

  pub handle_watchdog-is_good :
      (n : ℕ) (d : D)
      → good d ≡ true
      → good (handle_watchdog C H connect_view trim config_path n d) ≡ true
  unfolding handle_watchdog is_good is_clear
  handle_watchdog-is_good n d h =
      let k =
        republished
          (record d {
            model = record d.model {
              authenticating = false;
              last_error = some "The VPN service did not react to the connect request";
            };
          })
          h in
      ground arith
