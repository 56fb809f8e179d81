-- ===== src/Widget/Keeping.antt =====
-- What a step of the widget's daemon keeps (apps/gpwidget/src/daemon/mod.rs): that it is quitting,
-- the generation of its watchdog, and, while it holds no submitted request, that it sends none.
pub mod Commands
pub mod Turns
use Prim.Native.String.{String}
use global_protect_openconne.Prelude.{
  ◌+◌, ◌==◌, inl, inr, Bool-cases, ℕ, ◌≡◌, refl, inl, inr, Bool, true, false, ◌&&◌, ◌||◌, not,
  Option, none, some, List, [], ◌∷◌, arith, Result, ok, err, if◌then◌else◌, is_some, is_none,
}
use global_protect_openconne.VpnState.{
  SessionInfo, ConnectInfo, VpnState, connected, connecting, disconnected, disconnecting,
  reconnect_required,
}
use global_protect_openconne.Broadcast.{
  WsEvent, VpnEnv, tunnel_event, env_event, state_event, active_gui, resume_connection,
}
use global_protect_openconne.Widget.{
  ConnectView, Model, widget_state, state_of, idle_state, apply_vpn_state, snapshot,
}
use global_protect_openconne.Widget.Messages.{
  WidgetState, StatusMsg, ServerMsg, ClientMsg, Config, ConnStats, status, toast, ack, hello,
  auth_prompt, bye, get_status, toggle, connect, submit_otp, open_popup, quit,
}
use global_protect_openconne.Widget.State.{
  Surroundings, is_disconnected, is_connected, StatsTracker, Urgency, normal, on_connected,
  next_generation, notified, Effect, publish, answer, send, connect_request, Daemon, new_daemon,
  publish_snapshot, acknowledge,
}
use global_protect_openconne.Widget.Connect.{
  with_portal, start_flow, start_with, start_in, start_connect_flow, disconnect, resend,
  restart_submitted_connect, resume_to, resume_connection as resume_last,
}
use global_protect_openconne.Widget.Branches.{begun, start_connect_flow-Branches}
use global_protect_openconne.Widget.Events.{
  admin_message, schedule, of_session, session_of, warn_prior, since_or, at_least_one,
  name_or_empty, on_session_established, answered, settle, unless_over, flow_failed, over, react,
  apply, handle_ws_event, FlowMsg, otp_prompt, submitted, handle_flow_msg, handle_rejection,
  handle_expiry_warning, handle_watchdog,
}
use global_protect_openconne.Widget.Daemon.{
  acknowledge_result, exit_if, toggled, quit_by, handle_command, Input, event, rejected, lost, gone,
  notices_ended, commands_ended, command, flow, connect_watchdog, expiry_warning, quit_timeout,
  measured, sigterm, sigint, Turn, running, exited, take_stats, turn, next, turns, run,
}

module _ (C H : Type 0) (connect_view : ConnectInfo → Option ConnectView) (trim : String → String)
    (config_path : String) where
  abbrev D : Type 0
  D = Daemon C H connect_view

  abbrev pub sends_connect : Effect C H connect_view → ℕ
  sends_connect (send (connect_request r)) = 1
  sends_connect _ = 0

  -- How many requests to connect the daemon has sent.
  unfoldable pub connects : List (Effect C H connect_view) → ℕ
  connects [] = 0
  connects (e ∷ es) = sends_connect e + connects es

  unfoldable pub keeps : D → D → Bool
  keeps d d' =
      (not d.quitting || d'.quitting)
      && d'.watchdog_generation == d.watchdog_generation
      && (is_some d.submitted_connect
          || not (is_some d'.submitted_connect) && connects d'.effects == connects d.effects)

  pub keeps_refl : (d : D) → keeps d d ≡ true
  unfolding keeps
  keeps_refl d = ground arith

  pub keeps_trans : (a b c : D) → keeps a b ≡ true → keeps b c ≡ true → keeps a c ≡ true
  unfolding keeps
  keeps_trans a b c p q = ground arith

  pub start_connect_flow-keeps :
      (portal gateway : Option String) (w : Surroundings) (d : D)
      → keeps d (start_connect_flow C H connect_view trim config_path portal gateway w d).0 ≡ true
  unfolding keeps connects start_flow publish_snapshot
  start_connect_flow-keeps portal gateway w d =
      elim (start_connect_flow-Branches C H connect_view trim config_path portal gateway w d) [
        | inl (c, o, (p, env, v, n, e)) ↦ rw e (ground arith)
        | inr (c, o, e) ↦ rw e (keeps_refl d)
      ]

  pub disconnect-keeps : (d : D) → keeps d (disconnect C H connect_view trim config_path d) ≡ true
  unfolding keeps connects disconnect
  disconnect-keeps d = ground arith

  pub restart_submitted_connect-keeps :
      (attempt : ℕ) (d : D)
      → keeps d (restart_submitted_connect C H connect_view trim config_path attempt d) ≡ true
  unfolding keeps connects restart_submitted_connect resend publish_snapshot
  restart_submitted_connect-keeps attempt d = ground arith

  resume_to-keeps :
      (o : Option String) (w : Surroundings) (d : D)
      → keeps d (resume_to C H connect_view trim config_path o w d) ≡ true
  unfolding resume_to
  resume_to-keeps none w d = keeps_refl d
  resume_to-keeps (some g) w d = start_connect_flow-keeps none (some g) w d

  pub resume_last-keeps :
      (w : Surroundings) (d : D)
      → keeps d (resume_last C H connect_view trim config_path w d) ≡ true
  unfolding resume_last
  resume_last-keeps w d =
      let s = resume_to-keeps d.resume_gateway w d in let r = keeps_refl d in ground arith

  pub publish_snapshot-keeps : (d : D) → keeps d (publish_snapshot C H connect_view d) ≡ true
  unfolding keeps connects publish_snapshot
  publish_snapshot-keeps d = ground arith

  admin_message-keeps :
      (m : Option String) (d : D)
      → keeps d (admin_message C H connect_view trim config_path m d) ≡ true
  unfolding keeps connects
  admin_message-keeps none d = ground arith
  admin_message-keeps (some m) d = ground arith

  schedule-keeps :
      (expires : Option ℕ) (prior now : ℕ) (d : D)
      → keeps d (schedule C H connect_view trim config_path expires prior now d) ≡ true
  unfolding keeps connects
  schedule-keeps none prior now d = ground arith
  schedule-keeps (some n) prior now d = ground arith

  of_session-keeps :
      (s : Option SessionInfo) (now : ℕ) (d : D)
      → keeps d (of_session C H connect_view trim config_path s now d) ≡ true
  of_session-keeps none now d = keeps_refl d
  of_session-keeps (some s) now d =
      let m = admin_message C H connect_view trim config_path s.admin_logout_message d in
      keeps_trans d m _ (admin_message-keeps s.admin_logout_message d) (
        schedule-keeps s.user_expires
          (warn_prior C H connect_view trim config_path s.lifetime_warning) now m)

  next_expiry-keeps : (n : ℕ) (d : D) → keeps d (record d { expiry_generation = n }) ≡ true
  unfolding keeps
  next_expiry-keeps n d = ground arith

  on_session_established-keeps :
      (now : ℕ) (d : D)
      → keeps d (on_session_established C H connect_view trim config_path now d) ≡ true
  unfolding on_session_established
  on_session_established-keeps now d =
      let e : D = record d { expiry_generation = next_generation d.expiry_generation } in
      keeps_trans d e _ (next_expiry-keeps _ d)
        (of_session-keeps (session_of C H connect_view trim config_path d.model.vpn_state) now e)

  notified-keeps :
      (u : Urgency) (title body : String) (s : StatsTracker) (d : D)
      → keeps d (notified C H connect_view u title body (record d { stats = s })) ≡ true
  unfolding keeps connects
  notified-keeps u title body s d = ground arith

  tracked-keeps :
      (s : StatsTracker) (n : ℕ) (d : D)
      → keeps d (record d { stats = s; expiry_generation = n }) ≡ true
  unfolding keeps
  tracked-keeps s n d = ground arith

  pub settle-keeps :
      (v : VpnState) (was : Bool) (w : Surroundings) (d : D)
      → keeps d (settle C H connect_view trim config_path v was w d) ≡ true
  settle-keeps (connecting i) was w d = tracked-keeps _ d.expiry_generation d
  settle-keeps (connected c) true w d = keeps_refl d
  settle-keeps (connected c) false w d =
      let s =
        on_connected (since_or C H connect_view trim config_path d.model.conn w.now)
          (at_least_one C H connect_view trim config_path d.model.config.stats_interval_secs)
          d.stats in
      let name = name_or_empty C H connect_view trim config_path d.model.current_gateway in
      let e =
        notified C H connect_view normal "GlobalProtect connected" name (record d { stats = s }) in
      keeps_trans d e _ (notified-keeps normal "GlobalProtect connected" name s d)
        (on_session_established-keeps w.now e)
  settle-keeps (reconnect_required r) was w d = tracked-keeps _ d.expiry_generation d
  settle-keeps disconnected was w d = tracked-keeps _ _ d
  settle-keeps (VpnState.failed reason) was w d = keeps_refl d
  settle-keeps disconnecting was w d = keeps_refl d

  pub modelled-keeps :
      (m : Model C H connect_view) (d : D) → keeps d (record d { model = m }) ≡ true
  unfolding keeps
  modelled-keeps m d = ground arith

  pub apply-keeps :
      (v : VpnState) (w : Surroundings) (d : D)
      → keeps d (apply C H connect_view trim config_path v w d) ≡ true
  unfolding apply
  apply-keeps v w d =
      let m = apply_vpn_state C H connect_view v d.model in
      let e : D = record d { model = m } in
      let f : D =
        settle C H connect_view trim config_path m.vpn_state (is_connected d.model.vpn_state) w e in
      keeps_trans d e _ (modelled-keeps m d) (
        keeps_trans e f _ (settle-keeps m.vpn_state (is_connected d.model.vpn_state) w e)
          (publish_snapshot-keeps f))
