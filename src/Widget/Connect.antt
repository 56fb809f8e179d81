-- ===== src/Widget/Connect.antt =====
-- How the widget's daemon starts, cancels and restarts connections: `start_connect_flow`,
-- `disconnect`, `restart_submitted_connect` and `resume_connection` of
-- apps/gpwidget/src/daemon/mod.rs. `trim` removes the white space around a text and `config_path`
-- is the path of the configuration; whether the configuration could be written is not used.
use Prim.Native.String.{String, ◌++◌}
use text.Mathlib.Text.{◌==◌ as str_eq}
use global_protect_openconne.Prelude.{
  ℕ, suc, Bool, true, false, ◌&&◌, ◌||◌, not, Option, none, some, Result, ok, err, if◌then◌else◌,
  is_some,
}
use global_protect_openconne.VpnState.{ConnectInfo}
use global_protect_openconne.Broadcast.{VpnEnv}
use global_protect_openconne.Widget.{ConnectView}
use global_protect_openconne.Widget.Messages.{Config}
use global_protect_openconne.Widget.State.{
  ConnectRequest, connect_request, disconnect_request, Surroundings, is_disconnected, is_under_way,
  Daemon, send, spawn_flow, cancel_flow, save_config, emit, publish_snapshot,
}

abbrev is_portal : Option String → String → Bool
is_portal none p = false
is_portal (some q) p = str_eq q p

-- Whether a portal that was asked for replaces the one of the configuration.
abbrev replaces : String → Config → Bool
replaces p config = not (str_eq p "") && not (is_portal config.portal p)

abbrev pub or_current : Option Config → Config → Config
or_current none config = config
or_current (some c) config = c

module _ (C H : Type 0) (connect_view : ConnectInfo → Option ConnectView) (trim : String → String)
    (config_path : String) where
  unfoldable pub with_portal : Option String → Config → Config
  with_portal none config = config
  with_portal (some p) config =
      if replaces (trim p) config then record config { portal = some (trim p) } else config

  abbrev pub saved : Option String → Config → Bool
  saved none config = false
  saved (some p) config = replaces (trim p) config

  abbrev pub save_if : Bool → Config → Daemon C H connect_view → Daemon C H connect_view
  save_if b config d = if b then emit C H connect_view (save_config config) d else d

  unfoldable pub start_flow :
      String
      → Option String
      → Config
      → VpnEnv C H
      → Daemon C H connect_view
      → Daemon C H connect_view
  start_flow portal gateway config env d =
      let shown = publish_snapshot C H connect_view (record d {
        model = record d.model {
          config = config;
          portal = some portal;
          authenticating = true;
          last_error = none;
        };
      }) in
      emit C H connect_view
        (spawn_flow d.flows
          (record { portal = portal; gateway_override = gateway; config = config; vpn_env = env }))
        (record shown { connect_cancel = some d.flows; flows = suc d.flows })

  unfoldable pub start_with :
      Option String
      → Option String
      → Config
      → VpnEnv C H
      → Daemon C H connect_view
      → Daemon C H connect_view × Result String Unit
  unfolding start_flow
  start_with none gateway config env d =
      (d, err ("no portal configured — set one in " ++ config_path))
  start_with (some portal) gateway config env d = (start_flow portal gateway config env d, ok tt)

  unfoldable pub start_in :
      Option (VpnEnv C H)
      → Option String
      → Option String
      → Surroundings
      → Daemon C H connect_view
      → Daemon C H connect_view × Result String Unit
  unfolding start_with with_portal
  start_in none portal gateway w d = (d, err "the VPN service environment is not ready yet")
  start_in (some env) portal gateway w d =
      let config = or_current w.loaded d.model.config in
      let chosen = with_portal portal config in
      start_with chosen.portal gateway chosen env (save_if (saved portal config) chosen d)

  unfoldable pub start_connect_flow :
      Option String
      → Option String
      → Surroundings
      → Daemon C H connect_view
      → Daemon C H connect_view × Result String Unit
  unfolding start_in
  start_connect_flow portal gateway w d =
      if is_some d.connect_cancel
      then (d, err "a connection attempt is already in progress")
      else if not (is_disconnected d.model.vpn_state)
      then (d, err "already connected or connecting")
      else start_in d.model.vpn_env portal gateway w d

  -- The token is taken out of its place and cancelled.
  abbrev pub cancel_running : Option ℕ → Daemon C H connect_view → Daemon C H connect_view
  cancel_running none d = d
  cancel_running (some token) d =
      emit C H connect_view (cancel_flow token) (record d { connect_cancel = none })

  unfoldable pub disconnect : Daemon C H connect_view → Daemon C H connect_view
  disconnect d =
      if is_some d.connect_cancel
      then cancel_running d.connect_cancel d
      else if is_under_way d.model.vpn_state
      then emit C H connect_view (send disconnect_request)
          (record d { disconnect_requested = true; submitted_connect = none })
      else d

  unfoldable pub resend :
      Option ConnectRequest → ℕ → Daemon C H connect_view → Daemon C H connect_view
  resend none attempt d = publish_snapshot C H connect_view (record d {
    model = record d.model {
      last_error = some "The VPN service asked to reconnect, but the previous login is gone";
    };
  })
  resend (some r) attempt d =
      emit C H connect_view (send (connect_request (record r { restart_of = some attempt }))) d

  unfoldable pub restart_submitted_connect : ℕ → Daemon C H connect_view → Daemon C H connect_view
  unfolding resend
  restart_submitted_connect attempt d =
      if d.quitting || d.disconnect_requested then d else resend d.submitted_connect attempt d

  unfoldable pub resume_to :
      Option String → Surroundings → Daemon C H connect_view → Daemon C H connect_view
  unfolding start_connect_flow
  resume_to none w d = d
  resume_to (some gateway) w d = (start_connect_flow none (some gateway) w d).0

  unfoldable pub resume_connection :
      Surroundings → Daemon C H connect_view → Daemon C H connect_view
  unfolding resume_to
  resume_connection w d =
      if not d.model.config.auto_resume
      then d
      else if is_some d.connect_cancel || not (is_disconnected d.model.vpn_state)
      then d
      else resume_to d.resume_gateway w d
