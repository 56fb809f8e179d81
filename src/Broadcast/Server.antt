-- ===== src/Broadcast/Server.antt =====
-- The connections of `WsServerContext` in apps/gpservice/src/ws_server.rs. A method locks the state
-- for its whole body. Whether the queue takes a message is an argument.
use global_protect_openconne.Prelude.{
  ◌>>=◌, ℕ, ◌-◌, ◌*◌, Bool, true, false, not, Option, none, some, leb, ltb, if◌then◌else◌, Result,
  ok, err,
}
use global_protect_openconne.Prelude.Map.{Map, lookup, insert, remove, retain, adjust}
use global_protect_openconne.VpnState.{Uuid}
use global_protect_openconne.Registry.{Registry, HandshakePermit, SessionError, checked_succ}
use global_protect_openconne.Registry as Sessions
use global_protect_openconne.Registry.Handshake.{
  prepare_attach, commit_attach, disconnect_if_current,
}
use global_protect_openconne.Broadcast.{
  VpnEnv, ServerMessage, attached, snapshot, Control, send, is_closed, set_control_statistics,
}
use global_protect_openconne.Broadcast.State.{
  MonitorMethods, ServiceState, Context, refresh_demand, current_snapshot, with_state,
}

abbrev pub max_plaintext : ℕ
max_plaintext = 60 * 1024

-- `encoded_size` and `configuration_size` are the lengths of the JSON texts, where there is one, and
-- `limit_encoded_size` shortens a configuration, where it can.
module _ (C H M : Type 0) (methods : MonitorMethods C M)
    (encoded_size : ServerMessage C H → Option ℕ) (configuration_size : C → Option ℕ)
    (limit_encoded_size : ℕ → C → Option C) where
  unfoldable pub fit_env : ℕ → VpnEnv C H → Option (VpnEnv C H)
  fit_env excess env = do
    t ← env.tunnel_state
    c ← t.configuration
    size ← configuration_size c
    c' ← if ltb size excess then none else limit_encoded_size (size - excess) c
    some (record env { tunnel_state = some (record t { configuration = some c' }) })

  unfoldable pub shrink : ℕ → ServerMessage C H → Option (ServerMessage C H)
  unfolding fit_env
  shrink excess (attached id r env) = do env' ← fit_env excess env; some (attached id r env')
  shrink excess (snapshot r env) = do env' ← fit_env excess env; some (snapshot r env')
  shrink excess _ = none

  unfoldable pub checked_size : ServerMessage C H → Option (ServerMessage C H)
  checked_size m = do size ← encoded_size m; if leb size max_plaintext then some m else none

  unfoldable pub shortened : ℕ → ServerMessage C H → Option (ServerMessage C H)
  unfolding shrink checked_size
  shortened size m = do m' ← shrink (size - max_plaintext) m; checked_size m'

  unfoldable pub fit_snapshot_message : ServerMessage C H → Option (ServerMessage C H)
  unfolding shortened
  fit_snapshot_message m = do
    size ← encoded_size m
    if leb size max_plaintext then some m else shortened size m

  -- A message that fits is sent; the flag is whether it was.
  unfoldable pub send_fitting : Bool → ServerMessage C H → Control C H → Control C H × Bool
  unfolding fit_snapshot_message send
  send_fitting accepted m c = elim (fit_snapshot_message m) [
    | none ↦ (c, false)
    | some m' ↦ send C H accepted m' c
  ]

  unfoldable pub prepare_connection :
      ℕ
      → HandshakePermit
      → Bool
      → Control C H
      → Context C H M
      → Context C H M × Result SessionError ℕ
  unfolding current_snapshot send_fitting
  prepare_connection now permit accepted control x = elim (prepare_attach permit x.registry) [
    | err e ↦ (x, err e)
    | ok prepared ↦
        let s = x.state in
        let hello =
          attached control.connection_id s.revision (current_snapshot C H M methods now s) in
        let (control', taken) = send_fitting accepted hello control in
        if taken
        then (
          record x {
            state = record s { connections = insert control.connection_id control' s.connections };
          },
          ok prepared,
        )
        else (x, err Sessions.unavailable)
  ]

  abbrev mark_committed : Control C H → Control C H
  mark_committed c = record c { committed = true }

  unfoldable pub drop_replaced :
      Option Sessions.ConnectionControl → Map (Control C H) → Map (Control C H)
  drop_replaced none m = m
  drop_replaced (some c) m =
      remove c.connection_id (adjust c.connection_id (set_control_statistics C H false) m)

  unfoldable pub registered : Uuid → ServiceState C H M → Bool
  registered id s = elim (lookup id s.connections) [ none ↦ false | some c ↦ not (is_closed C H c) ]

  unfoldable pub remove_control : Uuid → ServiceState C H M → ServiceState C H M
  unfolding refresh_demand
  remove_control id s =
      refresh_demand C H M methods (record s { connections = remove id s.connections })

  unfoldable pub committed_state :
      Uuid → Option Sessions.ConnectionControl → ServiceState C H M → ServiceState C H M
  unfolding refresh_demand drop_replaced
  committed_state id replaced s =
      refresh_demand C H M methods
        (record s { connections = drop_replaced replaced (adjust id mark_committed s.connections) })

  unfoldable pub commit_connection :
      HandshakePermit
      → Uuid
      → Context C H M
      → Context C H M × Result SessionError (Option Sessions.ConnectionControl)
  unfolding registered remove_control committed_state
  commit_connection permit id x =
      if registered id x.state
      then (let (g, h, r) =
            commit_attach permit (record { connection_id = id }) x.registry x.heap in
          elim r [
            | ok replaced ↦ (
              record { registry = g; heap = h; state = committed_state id replaced x.state },
              ok replaced,
            )
            | err e ↦ (record { registry = g; heap = h; state = remove_control id x.state }, err e)
          ])
      else (x, err Sessions.unavailable)

  unfoldable pub abandon_connection : Uuid → Context C H M → Context C H M
  unfolding remove_control
  abandon_connection id x = with_state C H M (remove_control id) x

  unfoldable pub remove_closed_connections : Context C H M → Context C H M
  unfolding refresh_demand
  remove_closed_connections x =
      with_state C H M
        (λ s.
          refresh_demand C H M methods
            (record s { connections = retain (λ c. not (is_closed C H c)) s.connections }))
        x

  unfoldable pub remove_connection : Uuid → Uuid → ℕ → Context C H M → Context C H M
  unfolding remove_control
  remove_connection id session_id generation x =
      let (g, h) = disconnect_if_current session_id generation x.registry x.heap in
      record { registry = g; heap = h; state = remove_control id x.state }

  unfoldable pub send_snapshot : ℕ → Uuid → Bool → Context C H M → Context C H M
  unfolding current_snapshot send_fitting
  send_snapshot now id accepted x =
      let s = x.state in
      let m = snapshot s.revision (current_snapshot C H M methods now s) in
      with_state C H M
        (λ s. record s {
          connections = adjust id (λ c. (send_fitting accepted m c).0) s.connections;
        })
        x
