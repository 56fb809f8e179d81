-- ===== src/Broadcast/Widget.antt =====
-- The widget's end of a connection: `pump` of apps/gpwidget/src/daemon/ws_client.rs on the messages
-- of the service, and the end of a connection in `closed`. The notice of a message is kept as what
-- it says of the connection's state; a reply or statistics say nothing of it. `resyncs` are the
-- requests for a snapshot that were sent, each with its `last_event_revision`, the newest first.
use global_protect_openconne.Prelude.{
  ℕ, ◌+◌, ◌%◌, ◌^◌, Bool, ◌||◌, List, [], ◌∷◌, ◌==◌, if◌then◌else◌,
}
use global_protect_openconne.VpnState.{VpnState}
use global_protect_openconne.Broadcast.{
  WsEvent, tunnel_event, env_event, state_event, active_gui, resume_connection, ServerMessage,
  tunnel_statistics, attached, reply, event, snapshot,
}

pub record Client : Type 0 where
  pub revision : ℕ
  pub last_state : VpnState
  pub resyncs : List ℕ

-- Before the service has attached the client, while it is attached, and after an error.
pub data Link : Type 0 where
  attaching : Link
  serving : Client → Link
  failed : Link

-- The application codes after which the widget does not connect again.
abbrev pub is_final_close_code : ℕ → Bool
is_final_close_code n = n == 4001 || n == 4002 || n == 4003 || n == 4011

module _ (C H : Type 0) where
  unfoldable pub noticed : WsEvent C H → VpnState → VpnState
  noticed (env_event env) old = env.vpn_state
  noticed (state_event v) old = v
  noticed (tunnel_event t) old = old
  noticed active_gui old = old
  noticed resume_connection old = old

  abbrev pub resync : ℕ → Client → List ℕ
  resync next c = if next == (c.revision + 1) % 2 ^ 64 then c.resyncs else c.revision ∷ c.resyncs

  unfoldable pub pump : ServerMessage C H → Client → Link
  unfolding noticed
  pump (event next e) c =
      serving
        (record { revision = next; last_state = noticed e c.last_state; resyncs = resync next c })
  pump (snapshot current env) c =
      serving (record c { revision = current; last_state = env.vpn_state })
  pump (reply id result) c = serving c
  pump (attached id current env) c = failed
  pump (tunnel_statistics s) c = serving c

  -- The first message of a session has to attach it.
  unfoldable pub establish : ServerMessage C H → Link
  establish (attached id current env) =
      serving (record { revision = current; last_state = env.vpn_state; resyncs = [] })
  establish _ = failed

  unfoldable pub receive : ServerMessage C H → Link → Link
  unfolding pump establish
  receive m attaching = establish m
  receive m (serving c) = pump m c
  receive m failed = failed

  -- The messages are the newest first.
  unfoldable pub replay : List (ServerMessage C H) → Link
  unfolding receive
  replay [] = attaching
  replay (m ∷ ms) = receive m (replay ms)
