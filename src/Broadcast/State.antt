-- ===== src/Broadcast/State.antt =====
-- The state of `WsServerContext` in apps/gpservice/src/ws_server.rs, and what it reads of the tunnel
-- monitor. `now` is the time at which the monitor is read.
use mathlib.Core.Option
use global_protect_openconne.Prelude.{ℕ, Bool, ◌&&◌, not, Option, none, some, [], if◌then◌else◌}
use global_protect_openconne.Prelude.Map.{Map, any_value}
use global_protect_openconne.Drain.{Heap}
use global_protect_openconne.Registry.{Registry}
use global_protect_openconne.Monitor.{TunnelState}
use global_protect_openconne.Broadcast.{
  TunnelStatisticsSnapshot, unavailable, no_tunnel, non_tunnel, VpnEnv, Control, is_closed,
}

-- The methods of `gptunnel::TunnelMonitor` that the context calls.
pub record MonitorMethods (C M : Type 0) : Type 0 where
  pub state : ℕ → M → TunnelState C
  pub statistics : ℕ → M → TunnelStatisticsSnapshot
  pub set_statistics_enabled : Bool → M → M

pub record TunnelBinding (M : Type 0) : Type 0 where
  pub attempt : ℕ
  pub monitor : Option M
  pub non_tunnel : Bool

pub record ServiceState (C H M : Type 0) : Type 0 where
  pub revision : ℕ
  pub snapshot : VpnEnv C H
  pub connections : Map (Control C H)
  pub tunnel : TunnelBinding M

-- The state with the registry that it shares with the other parts of the service.
pub record Context (C H M : Type 0) : Type 0 where
  pub registry : Registry
  pub heap : Heap
  pub state : ServiceState C H M

module _ (C H M : Type 0) where
  abbrev pub with_state : (ServiceState C H M → ServiceState C H M) → Context C H M → Context C H M
  with_state f x = record x { state = f x.state }

  -- `WsServerContext::new`, with the environment that `build_snapshot` gives.
  abbrev pub new_context : Registry → Heap → VpnEnv C H → TunnelBinding M → Context C H M
  new_context g h env t = record {
    registry = g;
    heap = h;
    state = record { revision = 0; snapshot = env; connections = []; tunnel = t };
  }

module _ (C H M : Type 0) (methods : MonitorMethods C M) where
  abbrev wants_statistics : Control C H → Bool
  wants_statistics c = c.statistics_enabled && not (is_closed C H c)

  unfoldable pub refresh_demand : ServiceState C H M → ServiceState C H M
  refresh_demand s = record s {
    tunnel = record s.tunnel {
      monitor =
          Option.map (methods.set_statistics_enabled (any_value wants_statistics s.connections))
            s.tunnel.monitor;
    };
  }

  env_with : Option (TunnelState C) → VpnEnv C H → VpnEnv C H
  env_with none env = env
  env_with (some t) env = record env { tunnel_state = some t }

  unfoldable pub current_snapshot : ℕ → ServiceState C H M → VpnEnv C H
  unfolding env_with
  current_snapshot now s = env_with (Option.map (methods.state now) s.tunnel.monitor) s.snapshot

  without_monitor : Bool → TunnelStatisticsSnapshot
  without_monitor b = unavailable (if b then non_tunnel else no_tunnel)

  unfoldable pub statistics_now : ℕ → TunnelBinding M → TunnelStatisticsSnapshot
  unfolding without_monitor
  statistics_now now t = elim t.monitor [
    | none ↦ without_monitor t.non_tunnel
    | some m ↦ methods.statistics now m
  ]
