-- ===== src/Broadcast/Events.antt =====
-- The events and the statistics that `WsServerContext` of apps/gpservice/src/ws_server.rs sends. A
-- method locks the state for its whole body, except `bind_tunnel` and `publish_tunnel`, which lock it
-- three times: their parts are functions of their own.
use mathlib.Core.Option
use global_protect_openconne.Prelude.{
  ◌>>=◌, ℕ, Bool, true, false, ◌&&◌, ◌||◌, not, Option, none, some, [], ◌∷◌, if◌then◌else◌, Result,
  ok, err, ◌==◌,
}
use global_protect_openconne.Prelude.Map.{Map, lookup, each, adjust}
use global_protect_openconne.VpnState.{Uuid}
use global_protect_openconne.Lifecycle.{ServiceResult, rejected, invalid_request}
use global_protect_openconne.Registry.{checked_succ}
use global_protect_openconne.Registry.Handshake.{is_current}
use global_protect_openconne.Monitor.{TunnelState}
use global_protect_openconne.Broadcast.{
  TunnelStatisticsSnapshot, disabled, VpnEnv, WsEvent, tunnel_event, env_event, state_event,
  active_gui, resume_connection, ServerMessage, event, Control, send, is_closed,
  set_control_statistics, clear_statistics, publish_to,
}
use global_protect_openconne.Broadcast.State.{
  MonitorMethods, TunnelBinding, ServiceState, Context, refresh_demand, statistics_now,
}

module _ (C H M : Type 0) (methods : MonitorMethods C M) where
  unfoldable pub record_event : WsEvent C H → VpnEnv C H → VpnEnv C H
  record_event (env_event env) old = env
  record_event (state_event v) old = record old { vpn_state = v }
  record_event (tunnel_event t) old = record old { tunnel_state = t }
  record_event active_gui old = old
  record_event resume_connection old = old

  -- A connection whose queue does not take the message is closed and dropped.
  unfoldable pub deliver : (Uuid → Bool) → ServerMessage C H → Map (Control C H) → Map (Control C H)
  unfolding send
  deliver accepts m [] = []
  deliver accepts m ((id, c) ∷ cs) =
      let rest = deliver accepts m cs in
      let (c', taken) = send C H (accepts id) m c in if taken then (id, c') ∷ rest else rest

  broadcast : (Uuid → Bool) → WsEvent C H → Option ℕ → ServiceState C H M → ServiceState C H M
  unfolding deliver refresh_demand
  broadcast accepts e none s = refresh_demand C H M methods (record s { connections = [] })
  broadcast accepts e (some revision) s = refresh_demand C H M methods (record s {
    revision = revision;
    connections = deliver accepts (event revision e) s.connections;
  })

  unfoldable pub send_event : (Uuid → Bool) → WsEvent C H → ServiceState C H M → ServiceState C H M
  unfolding record_event broadcast
  send_event accepts e s =
      broadcast accepts e (checked_succ s.revision)
        (record s { snapshot = record_event e s.snapshot })

  abbrev inactive : ServiceResult
  inactive = rejected invalid_request "Service attachment is no longer active"

  abbrev subscribable : Control C H → Bool
  subscribable c = c.committed && not (is_closed C H c)

  unfoldable pub attached_now : Uuid → Uuid → ℕ → Context C H M → Bool
  attached_now id session_id generation x =
      (elim (lookup id x.state.connections) [ none ↦ false | some c ↦ subscribable c ])
      && is_current x.registry session_id generation

  unfoldable pub set_statistics_enabled :
      ℕ
      → Uuid
      → Uuid
      → ℕ
      → Bool
      → Context C H M
      → Context C H M × Result ServiceResult TunnelStatisticsSnapshot
  unfolding attached_now refresh_demand statistics_now set_control_statistics disabled
  set_statistics_enabled now id session_id generation enabled x =
      if attached_now id session_id generation x
      then (let s = refresh_demand C H M methods (record x.state {
        connections = adjust id (set_control_statistics C H enabled) x.state.connections;
      }) in
          let shown = statistics_now C H M methods now s.tunnel in
          (record x { state = s }, ok (if enabled then shown else disabled shown)))
      else (x, err inactive)

  -- The three locked parts of `bind_tunnel`. The monitor that is replaced is told to stop sampling.
  unfoldable pub rebind : TunnelBinding M → ServiceState C H M → ServiceState C H M × Option M
  unfolding refresh_demand
  rebind t s = (
    refresh_demand C H M methods
        (record s { tunnel = t; connections = each (clear_statistics C H) s.connections }),
    Option.map (methods.set_statistics_enabled false) s.tunnel.monitor,
  )

  unfoldable pub publish_all : TunnelStatisticsSnapshot → ServiceState C H M → ServiceState C H M
  unfolding publish_to
  publish_all shown s = record s { connections = each (publish_to C H shown) s.connections }

  unfoldable pub publish_bound : ℕ → ServiceState C H M → ServiceState C H M
  unfolding publish_all statistics_now
  publish_bound now s = publish_all (statistics_now C H M methods now s.tunnel) s

  unfoldable pub bind_tunnel :
      ℕ → (Uuid → Bool) → TunnelBinding M → ServiceState C H M → ServiceState C H M
  unfolding rebind send_event publish_bound
  bind_tunnel now accepts t s =
      let s' = (rebind t s).0 in
      let state = Option.map (methods.state now) s'.tunnel.monitor in
      publish_bound now (send_event accepts (tunnel_event state) s')

  -- The three locked parts of `publish_tunnel`: the state to send, if it has changed, the sending,
  -- and the statistics.
  changed : Option (TunnelState C) → TunnelState C → Bool
  changed none t = true
  changed (some old) t = not (old.tunnel_id == t.tunnel_id) || not (old.sequence == t.sequence)

  changed_state : Option (TunnelState C) → TunnelState C → Option (TunnelState C)
  unfolding changed
  changed_state old t = if changed old t then some t else none

  unfoldable pub changed_tunnel : ℕ → ℕ → ServiceState C H M → Option (TunnelState C)
  unfolding changed_state
  changed_tunnel now attempt s =
      if s.tunnel.attempt == attempt
      then (do m ← s.tunnel.monitor; changed_state s.snapshot.tunnel_state (methods.state now m))
      else none

  unfoldable pub publish_monitor : ℕ → Option M → ServiceState C H M → ServiceState C H M
  unfolding publish_all
  publish_monitor now none s = s
  publish_monitor now (some m) s = publish_all (methods.statistics now m) s

  unfoldable pub publish_statistics : ℕ → ℕ → ServiceState C H M → ServiceState C H M
  unfolding publish_monitor
  publish_statistics now attempt s =
      if s.tunnel.attempt == attempt then publish_monitor now s.tunnel.monitor s else s

  send_changed : (Uuid → Bool) → Option (TunnelState C) → ServiceState C H M → ServiceState C H M
  unfolding send_event
  send_changed accepts none s = s
  send_changed accepts (some t) s = send_event accepts (tunnel_event (some t)) s

  unfoldable pub publish_tunnel : ℕ → (Uuid → Bool) → ℕ → ServiceState C H M → ServiceState C H M
  unfolding changed_tunnel send_changed publish_statistics
  publish_tunnel now accepts attempt s =
      publish_statistics now attempt (send_changed accepts (changed_tunnel now attempt s) s)
