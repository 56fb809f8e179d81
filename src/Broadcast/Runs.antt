-- ===== src/Broadcast/Runs.antt =====
-- What may happen to the service's side of its connections: the locked parts of the methods of
-- `WsServerContext` in apps/gpservice/src/ws_server.rs, in any order, the end of a connection's
-- task, and a control that other code closes.
use global_protect_openconne.Prelude.{ℕ, Bool, true, Option, List, [], ◌∷◌}
use global_protect_openconne.Prelude.Map.{adjust}
use global_protect_openconne.Drain.{Heap}
use global_protect_openconne.VpnState.{Uuid}
use global_protect_openconne.Registry.{Registry, HandshakePermit}
use global_protect_openconne.Broadcast.{CloseReason, WsEvent, ServerMessage, new_control, close}
use global_protect_openconne.Broadcast.State.{MonitorMethods, TunnelBinding, Context, with_state}
use global_protect_openconne.Broadcast.Server.{
  prepare_connection, commit_connection, abandon_connection, remove_closed_connections,
  remove_connection, send_snapshot,
}
use global_protect_openconne.Broadcast.Events.{
  send_event, set_statistics_enabled, rebind, publish_bound, publish_statistics,
}

module _ (C H M : Type 0) where
  -- A connection is prepared with the control that its task has just made. A monitor moves by
  -- itself.
  pub data Move : Type 0 where
    preparing : (now : ℕ) → HandshakePermit → (accepted : Bool) → (id : Uuid) → Move
    committing : HandshakePermit → (id : Uuid) → Move
    abandoning : (id : Uuid) → Move
    removing_closed : Move
    removing : (id session_id : Uuid) (generation : ℕ) → Move
    sending_snapshot : (now : ℕ) (id : Uuid) (accepted : Bool) → Move
    sending_event : (Uuid → Bool) → WsEvent C H → Move
    setting_statistics : (now : ℕ) (id session_id : Uuid) (generation : ℕ) (enabled : Bool) → Move
    rebinding : TunnelBinding M → Move
    publishing_bound : (now : ℕ) → Move
    publishing : (now attempt : ℕ) → Move
    closing : (id : Uuid) → CloseReason → Move
    ending : (id : Uuid) → Move
    monitoring : (Option M → Option M) → Move
    registering : (Registry → Registry) → (Heap → Heap) → Move

module _ (C H M : Type 0) (methods : MonitorMethods C M)
    (encoded_size : ServerMessage C H → Option ℕ) (configuration_size : C → Option ℕ)
    (limit_encoded_size : ℕ → C → Option C) where
  unfoldable pub move : Move C H M → Context C H M → Context C H M
  move (preparing now permit accepted id) x =
      (prepare_connection C H M methods encoded_size configuration_size limit_encoded_size now
        permit accepted (new_control C H id) x).0
  move (committing permit id) x =
      (commit_connection C H M methods encoded_size configuration_size limit_encoded_size permit id
        x).0
  move (abandoning id) x =
      abandon_connection C H M methods encoded_size configuration_size limit_encoded_size id x
  move removing_closed x =
      remove_closed_connections C H M methods encoded_size configuration_size limit_encoded_size x
  move (removing id session_id generation) x =
      remove_connection C H M methods encoded_size configuration_size limit_encoded_size id
        session_id generation x
  move (sending_snapshot now id accepted) x =
      send_snapshot C H M methods encoded_size configuration_size limit_encoded_size now id accepted
        x
  move (sending_event accepts e) x = with_state C H M (send_event C H M methods accepts e) x
  move (setting_statistics now id session_id generation enabled) x =
      (set_statistics_enabled C H M methods now id session_id generation enabled x).0
  move (rebinding t) x = with_state C H M (λ s. (rebind C H M methods t s).0) x
  move (publishing_bound now) x = with_state C H M (publish_bound C H M methods now) x
  move (publishing now attempt) x =
      with_state C H M (publish_statistics C H M methods now attempt) x
  move (closing id reason) x =
      with_state C H M (λ s. record s { connections = adjust id (close C H reason) s.connections })
        x
  move (ending id) x =
      with_state C H M
        (λ s. record s {
          connections = adjust id (λ c. record c { receiver_gone = true }) s.connections;
        })
        x
  move (monitoring f) x =
      with_state C H M (λ s. record s { tunnel = record s.tunnel { monitor = f s.tunnel.monitor } })
        x
  move (registering f g) x = record x { registry = f x.registry; heap = g x.heap }

  unfoldable pub moves : List (Move C H M) → Context C H M → Context C H M
  moves [] x = x
  moves (m ∷ ms) x = moves ms (move m x)
