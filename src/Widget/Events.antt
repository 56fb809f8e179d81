-- ===== src/Widget/Events.antt =====
-- What the widget's daemon does on a notice of its service connection and on a message of its
-- connect flow or of its timers: `handle_ws_event`, `handle_flow_msg`, `handle_rejection`,
-- `on_session_established`, `handle_expiry_warning` and `handle_watchdog` of
-- apps/gpwidget/src/daemon/mod.rs. The flag of a result is whether the daemon shuts down.
use Prim.Native.String.{String}
use global_protect_openconne.Prelude.{
  ℕ, ◌-◌, Bool, true, false, ◌&&◌, ◌||◌, not, Option, none, some, ◌==◌, ltb, if◌then◌else◌, is_some,
}
use global_protect_openconne.VpnState.{
  SessionInfo, SessionWarning, ConnectInfo, VpnState, disconnected, connected, connecting,
  disconnecting, reconnect_required,
}
use global_protect_openconne.Broadcast.{
  WsEvent, tunnel_event, env_event, state_event, active_gui, resume_connection,
}
use global_protect_openconne.Widget.{ConnectView, apply_vpn_state}
use global_protect_openconne.Widget.Messages.{ConnStats, GatewayInfo, ToastLevel, auth_prompt}
use global_protect_openconne.Widget.State.{
  ConnectRequest, normal, low, Surroundings, on_connecting, on_connected, stop, is_disconnected,
  is_connected, is_connected_or_disconnecting, next_generation, Daemon, publish, start_watchdog,
  start_expiry_warning, popup, emit, publish_snapshot, show_toast, notified, alert,
}
use global_protect_openconne.Widget.Connect.{
  start_connect_flow, restart_submitted_connect, resume_connection as resume_last,
}

abbrev title : String
title = "GlobalProtect"

module _ (C H : Type 0) (connect_view : ConnectInfo → Option ConnectView) (trim : String → String)
    (config_path : String) where
  abbrev quietly : Daemon C H connect_view → Daemon C H connect_view × Bool
  quietly d = (d, false)

  abbrev pub warn_prior : Option SessionWarning → ℕ
  warn_prior none = 600
  warn_prior (some w) = w.prior_secs

  abbrev pub admin_message : Option String → Daemon C H connect_view → Daemon C H connect_view
  admin_message none d = d
  admin_message (some message) d = alert C H connect_view ToastLevel.warn title message d

  abbrev pub schedule : Option ℕ → ℕ → ℕ → Daemon C H connect_view → Daemon C H connect_view
  schedule none prior now d = d
  schedule (some expires_at) prior now d =
      emit C H connect_view (start_expiry_warning d.expiry_generation (expires_at - prior - now)) d

  abbrev pub of_session : Option SessionInfo → ℕ → Daemon C H connect_view → Daemon C H connect_view
  of_session none now d = d
  of_session (some s) now d =
      schedule s.user_expires (warn_prior s.lifetime_warning) now
        (admin_message s.admin_logout_message d)

  abbrev pub session_of : VpnState → Option SessionInfo
  session_of (connected c) = c.session_info
  session_of _ = none

  unfoldable pub on_session_established : ℕ → Daemon C H connect_view → Daemon C H connect_view
  on_session_established now d =
      of_session (session_of d.model.vpn_state) now
        (record d { expiry_generation = next_generation d.expiry_generation })

  -- An answer of the service to the request to connect: the watchdog of the request is void.
  abbrev pub answered : Daemon C H connect_view → Daemon C H connect_view
  answered d = record d {
    model = record d.model { authenticating = false; last_error = none };
    watchdog_generation = next_generation d.watchdog_generation;
  }

  abbrev reason_or : Option String → String → String
  reason_or none text = text
  reason_or (some reason) text = reason

  abbrev announce : Option String → Daemon C H connect_view → Daemon C H connect_view
  announce failure d =
      if d.disconnect_requested
      then if is_connected_or_disconnecting d.model.vpn_state
        then notified C H connect_view low "GlobalProtect disconnected" "" d
        else d
      else if is_some failure || is_connected d.model.vpn_state
      then alert C H connect_view ToastLevel.error title (reason_or failure "VPN connection lost") d
      else d

  abbrev pub ended : Option String → Daemon C H connect_view → Daemon C H connect_view × Bool
  ended failure d =
      if d.quitting
      then (d, true)
      else quietly (record (announce failure d) { disconnect_requested = false })

  -- What a state does before it is applied.
  unfoldable pub react : VpnState → Daemon C H connect_view → Daemon C H connect_view × Bool
  react (connecting _) d = quietly (answered d)
  react (connected _) d = quietly (answered d)
  react (reconnect_required r) d =
      quietly (restart_submitted_connect C H connect_view trim config_path r.attempt (answered d))
  react disconnected d = ended none d
  react (VpnState.failed reason) d = ended (some reason) d
  react disconnecting d = quietly d

  abbrev pub since_or : Option ConnStats → ℕ → ℕ
  since_or none now = now
  since_or (some conn) now = conn.since

  abbrev pub at_least_one : ℕ → ℕ
  at_least_one n = if ltb n 1 then 1 else n

  abbrev pub name_or_empty : Option GatewayInfo → String
  name_or_empty none = ""
  name_or_empty (some g) = g.name

  -- What an applied state does; `was` is whether the model was connected before.
  abbrev pub settle :
      VpnState → Bool → Surroundings → Daemon C H connect_view → Daemon C H connect_view
  settle (connecting _) was w d = record d { stats = on_connecting w.interfaces d.stats }
  settle (reconnect_required _) was w d = record d { stats = on_connecting w.interfaces d.stats }
  settle (connected _) true w d = d
  settle (connected _) false w d = on_session_established w.now (
      notified C H connect_view normal "GlobalProtect connected"
        (name_or_empty d.model.current_gateway)
        (record d {
          stats =
              on_connected (since_or d.model.conn w.now)
                (at_least_one d.model.config.stats_interval_secs) d.stats;
        }))
  settle disconnected was w d = record d {
    stats = stop d.stats;
    expiry_generation = next_generation d.expiry_generation;
  }
  settle (VpnState.failed _) was w d = d
  settle disconnecting was w d = d

  unfoldable pub apply : VpnState → Surroundings → Daemon C H connect_view → Daemon C H connect_view
  unfolding on_session_established
  apply v w d =
      let m = apply_vpn_state C H connect_view v d.model in
      publish_snapshot C H connect_view
        (settle m.vpn_state (is_connected d.model.vpn_state) w (record d { model = m }))

  abbrev pub unless_over :
      VpnState → Surroundings → Daemon C H connect_view × Bool → Daemon C H connect_view × Bool
  unless_over v w (d, true) = (d, true)
  unless_over v w (d, false) = quietly (apply v w d)

  unfoldable pub handle_ws_event :
      WsEvent C H → Surroundings → Daemon C H connect_view → Daemon C H connect_view × Bool
  unfolding react apply
  handle_ws_event (env_event env) w d =
      let m = apply_vpn_state C H connect_view env.vpn_state d.model in
      let shown =
        publish_snapshot C H connect_view (record d { model = record m { vpn_env = some env } }) in
      if shown.model.config.auto_connect && is_disconnected shown.model.vpn_state
      then quietly (start_connect_flow C H connect_view trim config_path none none w shown).0
      else quietly shown
  handle_ws_event (state_event v) w d = unless_over v w (react v d)
  handle_ws_event active_gui w d = quietly (emit C H connect_view popup d)
  handle_ws_event (tunnel_event t) w d = quietly d
  handle_ws_event resume_connection w d =
      quietly (resume_last C H connect_view trim config_path w d)

  pub data FlowMsg : Type 0 where
    otp_prompt : (message : String) (respond : ℕ) → FlowMsg
    submitted : (request : ConnectRequest) → FlowMsg
    failed : (error : String) (cancelled : Bool) → FlowMsg

  abbrev pub flow_failed : String → Bool → Daemon C H connect_view → Daemon C H connect_view
  flow_failed error true d = d
  flow_failed error false d =
      alert C H connect_view ToastLevel.error "GlobalProtect connection failed" error
        (record d { model = record d.model { last_error = some error } })

  abbrev pub over : Daemon C H connect_view → Daemon C H connect_view
  over d = record d {
    connect_cancel = none;
    pending_otp = none;
    model = record d.model { authenticating = false };
  }

  -- The critical notification of a failed flow has the title of its toast.
  unfoldable pub handle_flow_msg : FlowMsg → Daemon C H connect_view → Daemon C H connect_view
  handle_flow_msg (otp_prompt message respond) d =
      emit C H connect_view (publish (auth_prompt "otp" message))
        (record d { pending_otp = some respond })
  handle_flow_msg (submitted r) d =
      let n = next_generation d.watchdog_generation in
      emit C H connect_view (start_watchdog n) (record d {
        connect_cancel = none;
        resume_gateway = some r.info.gateway.name;
        submitted_connect = some r;
        watchdog_generation = n;
      })
  handle_flow_msg (failed error cancelled) d =
      publish_snapshot C H connect_view (flow_failed error cancelled (over d))

  unfoldable pub handle_rejection : String → Daemon C H connect_view → Daemon C H connect_view
  handle_rejection message d =
      let told = alert C H connect_view ToastLevel.error title message (record d {
        watchdog_generation = next_generation d.watchdog_generation;
        model = record d.model { authenticating = false };
      }) in
      publish_snapshot C H connect_view
        (record told { model = record told.model { last_error = some message } })

  abbrev warning_or_default : Option SessionWarning → String
  warning_or_default none = "The VPN session is about to expire"
  warning_or_default (some w) = w.message

  abbrev warning_message : Option SessionInfo → String
  warning_message none = warning_or_default none
  warning_message (some s) = warning_or_default s.lifetime_warning

  abbrev warn_of : VpnState → Daemon C H connect_view → Daemon C H connect_view
  warn_of (connected c) d =
      let message = warning_message c.session_info in
      notified C H connect_view normal title message
        (show_toast C H connect_view ToastLevel.warn title message d)
  warn_of _ d = d

  unfoldable pub handle_expiry_warning : ℕ → Daemon C H connect_view → Daemon C H connect_view
  handle_expiry_warning generation d =
      if generation == d.expiry_generation then warn_of d.model.vpn_state d else d

  unfoldable pub handle_watchdog : ℕ → Daemon C H connect_view → Daemon C H connect_view
  handle_watchdog generation d =
      if not (generation == d.watchdog_generation)
      then d
      else if is_disconnected d.model.vpn_state && not (is_some d.connect_cancel)
      then publish_snapshot C H connect_view (record d {
        model = record d.model {
          authenticating = false;
          last_error = some "The VPN service did not react to the connect request";
        };
      })
      else d
