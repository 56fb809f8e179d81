-- ===== src/Broadcast/Attached.antt =====
-- In every run of `WsServerContext` (apps/gpservice/src/ws_server.rs) the
-- clients are up to date.
use global_protect_openconne.Prelude.{
  ℕ, ◌≡◌, refl, ◌∙◌, ap, ◌⊎◌, inl, inr, Bool, true, false, not, ◌&&◌, Option, none, some, List, [],
  ◌∷◌, arith, Bool-cases, Option-cases, Result-cases,
}
use global_protect_openconne.Prelude.Map.{
  Map, insert, All, insert-All, remove-All, retain-All, adjust-All, lookup-All, lookup,
}
use global_protect_openconne.Drain.{Heap}
use global_protect_openconne.VpnState.{Uuid}
use global_protect_openconne.Registry.{Registry, ConnectionControl, HandshakePermit}
use global_protect_openconne.Registry.Handshake.{prepare_attach, commit_attach}
use global_protect_openconne.Broadcast.{
  VpnEnv, ServerMessage, attached, snapshot, Control, new_control, send, close,
  set_control_statistics,
}
use global_protect_openconne.Broadcast.State.{
  MonitorMethods, TunnelBinding, ServiceState, Context, new_context, refresh_demand,
  current_snapshot,
}
use global_protect_openconne.Broadcast.Server.{
  fit_snapshot_message, send_fitting, prepare_connection, commit_connection, abandon_connection,
  remove_closed_connections, remove_connection, remove_control, registered, committed_state,
  drop_replaced, send_snapshot,
}
use global_protect_openconne.Broadcast.Widget.{attaching, serving, pump, establish, receive, replay}
use global_protect_openconne.Broadcast.Runs.{
  Move, move, moves, preparing, committing, abandoning, removing_closed, removing, sending_snapshot,
  sending_event, setting_statistics, rebinding, publishing_bound, publishing, closing, ending,
  monitoring, registering,
}
use global_protect_openconne.Broadcast.Replica.{
  up_to_date, IsReplica, IsSynced, receive-fit_snapshot_message,
}
use global_protect_openconne.Broadcast.Synced.{
  current_snapshot-state, close-sent, send_event-IsSynced, rebind-IsSynced, publish_bound-IsSynced,
  publish_statistics-IsSynced, adjust-IsSynced, set_statistics_enabled-IsSynced,
}

module _ (C H M : Type 0) (methods : MonitorMethods C M)
    (encoded_size : ServerMessage C H → Option ℕ) (configuration_size : C → Option ℕ)
    (limit_encoded_size : ℕ → C → Option C) where
  IsReplica-hello :
      (now : ℕ) (id : Uuid) (s : ServiceState C H M) (m : ServerMessage C H)
      → fit_snapshot_message C H M methods encoded_size configuration_size limit_encoded_size
          (attached id s.revision (current_snapshot C H M methods now s))
        ≡ some m
      → replay C H (m ∷ []) ≡ up_to_date s.revision s.snapshot.vpn_state
  unfolding replay receive establish
  IsReplica-hello now id s m h =
      receive-fit_snapshot_message C H M methods encoded_size configuration_size limit_encoded_size
        _ m attaching h
      ∙ ap (up_to_date s.revision) (current_snapshot-state C H M methods now s)

  IsReplica-snapshot :
      (now : ℕ) (s : ServiceState C H M) (m : ServerMessage C H) (ms : List (ServerMessage C H))
      → fit_snapshot_message C H M methods encoded_size configuration_size limit_encoded_size
          (snapshot s.revision (current_snapshot C H M methods now s))
        ≡ some m
      → replay C H ms ≡ up_to_date s.revision s.snapshot.vpn_state
      → replay C H (m ∷ ms) ≡ up_to_date s.revision s.snapshot.vpn_state
  unfolding replay receive pump
  IsReplica-snapshot now s m ms h p = rw p (
      receive-fit_snapshot_message C H M methods encoded_size configuration_size limit_encoded_size
        _ m (up_to_date s.revision s.snapshot.vpn_state) h
      ∙ ap (up_to_date s.revision) (current_snapshot-state C H M methods now s))

  -- What is sent to a new control and taken.
  send_fitting-hello :
      (now : ℕ) (id : Uuid) (accepted : Bool) (s : ServiceState C H M)
      → let hello = attached id s.revision (current_snapshot C H M methods now s) in
        let sending =
          send_fitting C H M methods encoded_size configuration_size limit_encoded_size accepted
            hello
            (new_control C H id) in
        (sending.1 ≡ false)
        ⊎ ((sending.1 ≡ true) × IsReplica C H M s.revision s.snapshot.vpn_state sending.0)
  unfolding send_fitting send new_control
  send_fitting-hello now id accepted s =
      elim (Option-cases (
        fit_snapshot_message C H M methods encoded_size configuration_size limit_encoded_size
          (attached id s.revision (current_snapshot C H M methods now s)))) [
            | inl f ↦ rw (send_fitting, f) (inl refl)
            | inr (m, f) ↦ elim (Bool-cases accepted) [
              | inl b ↦ rw (send_fitting, f, send, b) (inr (refl, IsReplica-hello now id s m f))
              | inr b ↦ rw (send_fitting, f, send, b) (inl refl)
            ]
          ]

  prepare_connection-IsSynced :
      (now : ℕ) (permit : HandshakePermit) (accepted : Bool) (id : Uuid) (x : Context C H M)
      → IsSynced C H M x.state
      → IsSynced C H M
          (prepare_connection C H M methods encoded_size configuration_size limit_encoded_size now
            permit accepted
            (new_control C H id)
            x).0.state
  unfolding prepare_connection new_control insert
  prepare_connection-IsSynced now permit accepted id x (a, lt) =
      elim (Result-cases (prepare_attach permit x.registry)) [
        | inl (e, h) ↦ rw (prepare_connection, h) (a, lt)
        | inr (prepared, h) ↦ elim (send_fitting-hello now id accepted x.state) [
          | inl f ↦ rw (prepare_connection, h, f) (a, lt)
          | inr (f, p) ↦
              rw (prepare_connection, h, f) (insert-All _ id _ x.state.connections p a, lt)
        ]
      ]

  remove_control-IsSynced :
      (id : Uuid) (s : ServiceState C H M)
      → IsSynced C H M s
      → IsSynced C H M
          (remove_control C H M methods encoded_size configuration_size limit_encoded_size id s)
  unfolding remove_control refresh_demand
  remove_control-IsSynced id s (a, lt) = (remove-All _ id s.connections a, lt)

  drop_replaced-All :
      (P : Control C H → Type 0)
      → ((c : Control C H) → P c → P (set_control_statistics C H false c))
      → (o : Option ConnectionControl) (m : Map (Control C H)) → All P m
      → All P (drop_replaced C H M methods encoded_size configuration_size limit_encoded_size o m)
  unfolding drop_replaced
  drop_replaced-All P h none m a = a
  drop_replaced-All P h (some c) m a =
      remove-All P c.connection_id _ (adjust-All P c.connection_id _ h m a)

  commit_connection-IsSynced :
      (permit : HandshakePermit) (id : Uuid) (x : Context C H M)
      → IsSynced C H M x.state
      → IsSynced C H M
          (commit_connection C H M methods encoded_size configuration_size limit_encoded_size permit
            id x).0.state
  unfolding commit_connection committed_state refresh_demand set_control_statistics
  commit_connection-IsSynced permit id x (a, lt) =
      elim (Bool-cases
        (registered C H M methods encoded_size configuration_size limit_encoded_size id x.state)) [
          | inr e ↦ rw (commit_connection, e) (a, lt)
          | inl e ↦
              elim (Result-cases
                (commit_attach permit (record { connection_id = id }) x.registry x.heap).2) [
                  | inl (err, f) ↦
                      rw (commit_connection, e, f) (remove_control-IsSynced id x.state (a, lt))
                  | inr (replaced, f) ↦
                      rw (commit_connection, e, f)
                        (
                          drop_replaced-All _ (λ c p. p) replaced _
                              (adjust-All _ id (λ c. record c { committed = true }) (λ c p. p)
                                x.state.connections a),
                          lt,
                        )
                ]
        ]

  send_fitting-IsReplica :
      (now : ℕ) (accepted : Bool) (s : ServiceState C H M) (c : Control C H)
      → IsReplica C H M s.revision s.snapshot.vpn_state c
      → IsReplica C H M s.revision s.snapshot.vpn_state
          (send_fitting C H M methods encoded_size configuration_size limit_encoded_size accepted
            (snapshot s.revision (current_snapshot C H M methods now s))
            c).0
  unfolding send_fitting send
  send_fitting-IsReplica now accepted s c p =
      elim (Option-cases (
        fit_snapshot_message C H M methods encoded_size configuration_size limit_encoded_size
          (snapshot s.revision (current_snapshot C H M methods now s)))) [
            | inl f ↦ rw (send_fitting, f) p
            | inr (m, f) ↦ elim (Bool-cases (accepted && not c.receiver_gone)) [
              | inl b ↦ rw (send_fitting, f, send, b) (IsReplica-snapshot now s m c.sent f p)
              | inr b ↦ rw (send_fitting, f, send, b) p
            ]
          ]

  send_snapshot-IsSynced :
      (now : ℕ) (id : Uuid) (accepted : Bool) (x : Context C H M)
      → IsSynced C H M x.state
      → IsSynced C H M
          (send_snapshot C H M methods encoded_size configuration_size limit_encoded_size now id
            accepted x).state
  unfolding send_snapshot
  send_snapshot-IsSynced now id accepted x (a, lt) =
      (adjust-All _ id _ (send_fitting-IsReplica now accepted x.state) x.state.connections a, lt)

  remove_closed_connections-IsSynced :
      (x : Context C H M)
      → IsSynced C H M x.state
      → IsSynced C H M
          (remove_closed_connections C H M methods encoded_size configuration_size
            limit_encoded_size x).state
  unfolding remove_closed_connections refresh_demand
  remove_closed_connections-IsSynced x (a, lt) = (retain-All _ _ x.state.connections a, lt)

  move-IsSynced :
      (m : Move C H M) (x : Context C H M)
      → IsSynced C H M x.state
      → IsSynced C H M
          (move C H M methods encoded_size configuration_size limit_encoded_size m x).state
  unfolding move abandon_connection remove_connection
  move-IsSynced (preparing now permit accepted id) x a =
      prepare_connection-IsSynced now permit accepted id x a
  move-IsSynced (committing permit id) x a = commit_connection-IsSynced permit id x a
  move-IsSynced (abandoning id) x a = remove_control-IsSynced id x.state a
  move-IsSynced removing_closed x a = remove_closed_connections-IsSynced x a
  move-IsSynced (removing id session_id generation) x a = remove_control-IsSynced id x.state a
  move-IsSynced (sending_snapshot now id accepted) x a = send_snapshot-IsSynced now id accepted x a
  move-IsSynced (sending_event accepts e) x a =
      send_event-IsSynced C H M methods accepts e x.state a
  move-IsSynced (setting_statistics now id session_id generation enabled) x a =
      set_statistics_enabled-IsSynced C H M methods now id session_id generation enabled x a
  move-IsSynced (rebinding t) x a = rebind-IsSynced C H M methods t x.state a
  move-IsSynced (publishing_bound now) x a = publish_bound-IsSynced C H M methods now x.state a
  move-IsSynced (publishing now attempt) x a =
      publish_statistics-IsSynced C H M methods now attempt x.state a
  move-IsSynced (closing id reason) x a =
      adjust-IsSynced C H M methods id (close C H reason) x.state (close-sent C H M methods reason)
        a
  move-IsSynced (ending id) x a =
      adjust-IsSynced C H M methods id (λ c. record c { receiver_gone = true }) x.state (λ c. refl)
        a
  move-IsSynced (monitoring f) x a = a
  move-IsSynced (registering f g) x a = a

  moves-IsSynced :
      (ms : List (Move C H M)) (x : Context C H M)
      → IsSynced C H M x.state
      → IsSynced C H M
          (moves C H M methods encoded_size configuration_size limit_encoded_size ms x).state
  unfolding moves
  moves-IsSynced [] x a = a
  moves-IsSynced (m ∷ ms) x a =
      moves-IsSynced ms (move C H M methods encoded_size configuration_size limit_encoded_size m x)
        (move-IsSynced m x a)

  -- At any time, a client that has read every message that its queue has taken knows the current
  -- revision and the current state of the connection, and has asked for no snapshot: where the
  -- service starts without connections, after any moves, for every connection that it holds.
  pub replay-moves :
      (ms : List (Move C H M)) (g : Registry) (h : Heap) (env : VpnEnv C H) (t : TunnelBinding M)
      (id : Uuid) (c : Control C H)
      → let s =
          (moves C H M methods encoded_size configuration_size limit_encoded_size ms
            (new_context C H M g h env t)).state in
        lookup id s.connections ≡ some c
        → replay C H c.sent
          ≡ serving
              (record { revision = s.revision; last_state = s.snapshot.vpn_state; resyncs = [] })
  replay-moves ms g h env t id c e =
      lookup-All _ id _ (moves-IsSynced ms (new_context C H M g h env t) (tt, ground arith)).0 e
