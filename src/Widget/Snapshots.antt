-- ===== src/Widget/Snapshots.antt =====
-- What the status messages of the widget's daemon say (apps/gpwidget/src/daemon/mod.rs, with
-- daemon/state.rs).
pub mod Handlers
pub mod Runs
use Prim.Native.String.{String}
use global_protect_openconne.Prelude.{
  ℕ, ◌≡◌, refl, inl, inr, Bool, true, false, ◌&&◌, ◌||◌, not, Option, none, some, List, [], ◌∷◌,
  arith, Result, ok, err, if◌then◌else◌, is_some, is_none,
}
use global_protect_openconne.VpnState.{
  ConnectInfo, VpnState, connected, connecting, disconnected, disconnecting, reconnect_required,
}
use global_protect_openconne.Broadcast.{
  WsEvent, VpnEnv, tunnel_event, env_event, state_event, active_gui, resume_connection,
}
use global_protect_openconne.Widget.{
  ConnectView, Model, widget_state, state_of, idle_state, apply_vpn_state, snapshot,
}
use global_protect_openconne.Widget.Messages.{
  WidgetState, StatusMsg, ServerMsg, ClientMsg, Config, ConnStats, status, toast, ack, hello,
  auth_prompt, bye, get_status, toggle, connect, submit_otp, open_popup, quit,
}
use global_protect_openconne.Widget.State.{
  Surroundings, is_disconnected, is_connected, Effect, publish, answer, Daemon, new_daemon,
  publish_snapshot,
}
use global_protect_openconne.Widget.Connect.{
  with_portal, start_flow, start_with, start_in, start_connect_flow, disconnect, resend,
  restart_submitted_connect, resume_to, resume_connection as resume_last,
}
use global_protect_openconne.Widget.Branches.{begun, start_connect_flow-Branches}
use global_protect_openconne.Widget.Events.{
  on_session_established, answered, settle, unless_over, flow_failed, over, react, apply,
  handle_ws_event, FlowMsg, otp_prompt, submitted, handle_flow_msg, handle_rejection,
  handle_expiry_warning, handle_watchdog,
}
use global_protect_openconne.Widget.Daemon.{
  toggled, quit_by, handle_command, Input, event, rejected, lost, gone, notices_ended,
  commands_ended, command, flow, connect_watchdog, expiry_warning, quit_timeout, measured, sigterm,
  sigint, Turn, running, exited, take_stats, turn, next, turns, run,
}

-- The states in which no tunnel is wanted or up.
abbrev is_resting : WidgetState → Bool
is_resting WidgetState.needs_setup = true
is_resting WidgetState.disconnected = true
is_resting WidgetState.authenticating = true
is_resting WidgetState.error = true
is_resting _ = false

abbrev says_connected : WidgetState → Bool
says_connected WidgetState.connected = true
says_connected _ = false

abbrev iff : Bool → Bool → Bool
iff true b = b
iff false b = not b

abbrev has_reason : WidgetState → StatusMsg → Bool
has_reason WidgetState.error s = is_some s.error
has_reason WidgetState.needs_setup s = is_none s.portal
has_reason _ s = true

abbrev fits_state : WidgetState → StatusMsg → Bool
fits_state v s =
    iff (is_some s.conn) (says_connected v)
    && not (is_resting v && (is_some s.gateway || is_some s.session))
    && has_reason v s

-- A status names its state; it has statistics exactly if that is `connected`, no gateway and no
-- session while no tunnel is wanted, a reason if it is `error`, and no portal if it is `needs_setup`.
unfoldable pub is_valid : StatusMsg → Bool
is_valid s = elim s.state [ none ↦ false | some v ↦ fits_state v s ]

abbrev is_valid_msg : ServerMsg → Bool
is_valid_msg (status s) = is_valid s
is_valid_msg _ = true

module _ (C H : Type 0) (connect_view : ConnectInfo → Option ConnectView) where
  abbrev is_valid_effect : Effect C H connect_view → Bool
  is_valid_effect (publish m) = is_valid_msg m
  is_valid_effect (answer m) = is_valid_msg m
  is_valid_effect _ = true

  -- Every status that was sent to clients is valid.
  unfoldable pub all_valid : List (Effect C H connect_view) → Bool
  all_valid [] = true
  all_valid (e ∷ es) = is_valid_effect e && all_valid es

  abbrev is_clear_for : VpnState → (has_conn has_session has_gateway : Bool) → Bool
  is_clear_for (VpnState.failed _) conn session gateway = false
  is_clear_for disconnected conn session gateway = not (conn || session || gateway)
  is_clear_for (connected _) conn session gateway = conn
  is_clear_for _ conn session gateway = true

  -- A model never keeps a failure, has statistics while it is connected, and forgets the
  -- connection when it is disconnected.
  unfoldable is_clear : Model C H connect_view → Bool
  is_clear m =
      is_clear_for m.vpn_state (is_some m.conn) (is_some m.session) (is_some m.current_gateway)

  apply_vpn_state-is_clear :
      (v : VpnState) (m : Model C H connect_view)
      → is_clear (apply_vpn_state C H connect_view v m) ≡ true
  unfolding apply_vpn_state is_clear
  apply_vpn_state-is_clear (connecting i) m = ground arith
  apply_vpn_state-is_clear (reconnect_required r) m = ground arith
  apply_vpn_state-is_clear (connected c) m = ground arith
  apply_vpn_state-is_clear disconnected m = ground arith
  apply_vpn_state-is_clear (VpnState.failed reason) m = ground arith
  apply_vpn_state-is_clear disconnecting m = ground arith

  snapshot-is_valid :
      (m : Model C H connect_view)
      → is_clear m ≡ true
      → is_valid (snapshot C H connect_view m) ≡ true
  unfolding snapshot is_clear is_valid widget_state state_of idle_state
  snapshot-is_valid m h = ground arith

  unfoldable is_good : Daemon C H connect_view → Bool
  is_good d = is_clear d.model && is_valid d.latest && all_valid d.effects

  publish_snapshot-is_good :
      (d : Daemon C H connect_view)
      → is_clear d.model ≡ true
      → all_valid d.effects ≡ true
      → is_good (publish_snapshot C H connect_view d) ≡ true
  unfolding publish_snapshot is_good all_valid
  publish_snapshot-is_good d c v = rw (snapshot-is_valid d.model c, c, v) refl

  is_good-is_clear : (d : Daemon C H connect_view) → is_good d ≡ true → is_clear d.model ≡ true
  unfolding is_good
  is_good-is_clear d h = ground arith

  is_good-all_valid : (d : Daemon C H connect_view) → is_good d ≡ true → all_valid d.effects ≡ true
  unfolding is_good
  is_good-all_valid d h = ground arith

  module _ (trim : String → String) (config_path : String) where
    abbrev D : Type 0
    D = Daemon C H connect_view

    start_flow-is_good :
        (p : String) (gateway : Option String) (config : Config) (env : VpnEnv C H) (b : Bool)
        (d : D)
        → is_good d ≡ true
        → is_good (begun C H connect_view trim config_path p gateway config env b d) ≡ true
    unfolding start_flow is_good is_clear all_valid publish_snapshot
    start_flow-is_good p gateway config env b d h =
        let v =
          snapshot-is_valid
            (record d.model {
              config = config;
              portal = some p;
              authenticating = true;
              last_error = none;
            })
            (is_good-is_clear d h) in
        ground arith

    start_connect_flow-is_good :
        (portal gateway : Option String) (w : Surroundings) (d : D)
        → is_good d ≡ true
        → is_good (start_connect_flow C H connect_view trim config_path portal gateway w d).0 ≡ true
    start_connect_flow-is_good portal gateway w d h =
        elim (start_connect_flow-Branches C H connect_view trim config_path portal gateway w d) [
          | inl (c, o, (p, env, v, n, e)) ↦ rw e (start_flow-is_good p gateway _ env _ d h)
          | inr (c, o, e) ↦ rw e h
        ]

    disconnect-is_good :
        (d : D) → is_good d ≡ true → is_good (disconnect C H connect_view trim config_path d) ≡ true
    unfolding disconnect is_good is_clear all_valid
    disconnect-is_good d h = ground arith

    restart_submitted_connect-is_good :
        (attempt : ℕ) (d : D)
        → is_good d ≡ true
        → is_good (restart_submitted_connect C H connect_view trim config_path attempt d) ≡ true
    unfolding restart_submitted_connect resend is_good is_clear all_valid publish_snapshot
    restart_submitted_connect-is_good attempt d h =
        let v =
          snapshot-is_valid
            (record d.model {
              last_error =
                  some "The VPN service asked to reconnect, but the previous login is gone";
            })
            (is_good-is_clear d h) in
        ground arith

    resume_to-is_good :
        (o : Option String) (w : Surroundings) (d : D)
        → is_good d ≡ true
        → is_good (resume_to C H connect_view trim config_path o w d) ≡ true
    unfolding resume_to
    resume_to-is_good none w d h = h
    resume_to-is_good (some g) w d h = start_connect_flow-is_good none (some g) w d h

    resume_last-is_good :
        (w : Surroundings) (d : D)
        → is_good d ≡ true
        → is_good (resume_last C H connect_view trim config_path w d) ≡ true
    unfolding resume_last
    resume_last-is_good w d h = let s = resume_to-is_good d.resume_gateway w d h in ground arith
