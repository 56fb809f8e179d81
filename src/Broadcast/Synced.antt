-- ===== src/Broadcast/Synced.antt =====
-- Each operation of `WsServerContext` (apps/gpservice/src/ws_server.rs) keeps
-- its clients up to date.
use global_protect_openconne.Prelude.{
  ℕ, ◌≡◌, refl, inl, inr, Bool, Option, none, some, arith, ◌==◌, Bool-cases, Option-cases,
}
use global_protect_openconne.Prelude.Map.{adjust, each-All, adjust-All}
use global_protect_openconne.VpnState.{Uuid, VpnState}
use global_protect_openconne.Registry.{checked_succ}
use global_protect_openconne.Broadcast.{
  WsEvent, CloseReason, Control, close, set_control_statistics, publish_to,
  TunnelStatisticsSnapshot,
}
use global_protect_openconne.Broadcast.State.{
  MonitorMethods, TunnelBinding, ServiceState, Context, refresh_demand, current_snapshot,
}
use global_protect_openconne.Broadcast.Events.{
  publish_all, publish_monitor, attached_now, send_event, set_statistics_enabled, rebind,
  publish_bound, publish_statistics,
}
use global_protect_openconne.Broadcast.Replica.{
  IsReplica, IsSynced, noticed-record_event, deliver-All,
}

module _ (C H M : Type 0) (methods : MonitorMethods C M) where
  pub set_control_statistics-sent :
      (b : Bool) (c : Control C H) → (set_control_statistics C H b c).sent ≡ c.sent
  unfolding set_control_statistics
  set_control_statistics-sent b c = ground arith

  pub close-sent : (reason : CloseReason) (c : Control C H) → (close C H reason c).sent ≡ c.sent
  unfolding close set_control_statistics
  close-sent reason c = refl

  publish_to-sent :
      (shown : TunnelStatisticsSnapshot) (c : Control C H) → (publish_to C H shown c).sent ≡ c.sent
  unfolding publish_to
  publish_to-sent shown c = ground arith

  pub current_snapshot-state :
      (now : ℕ) (s : ServiceState C H M)
      → (current_snapshot C H M methods now s).vpn_state ≡ s.snapshot.vpn_state
  unfolding current_snapshot
  current_snapshot-state now s = ground arith

  -- A control that has sent nothing new.
  IsReplica-sent :
      {r : ℕ} {v : VpnState} (c c' : Control C H)
      → c'.sent ≡ c.sent
      → IsReplica C H M r v c
      → IsReplica C H M r v c'
  IsReplica-sent c c' e p = rw e p

  pub send_event-IsSynced :
      (accepts : Uuid → Bool) (e : WsEvent C H) (s : ServiceState C H M)
      → IsSynced C H M s
      → IsSynced C H M (send_event C H M methods accepts e s)
  unfolding send_event refresh_demand
  send_event-IsSynced accepts e s (a, lt) = elim (Option-cases (checked_succ s.revision)) [
    | inl h ↦ rw h (tt, lt)
    | inr (r, h) ↦
        rw (h, noticed-record_event C H M methods e s.snapshot)
          (
            deliver-All C H M s.revision r s.snapshot.vpn_state e methods accepts s.connections h a,
            ground arith,
          )
  ]

  pub rebind-IsSynced :
      (t : TunnelBinding M) (s : ServiceState C H M)
      → IsSynced C H M s
      → IsSynced C H M (rebind C H M methods t s).0
  unfolding rebind refresh_demand
  rebind-IsSynced t s (a, lt) =
      (each-All _ (λ c. record c { statistics = none }) (λ c p. p) s.connections a, lt)

  publish_all-IsSynced :
      (shown : TunnelStatisticsSnapshot) (s : ServiceState C H M)
      → IsSynced C H M s
      → IsSynced C H M (publish_all C H M methods shown s)
  unfolding publish_all
  publish_all-IsSynced shown s (a, lt) = (
    each-All _ (publish_to C H shown)
        (λ c. IsReplica-sent c (publish_to C H shown c) (publish_to-sent shown c)) s.connections a,
    lt,
  )

  pub publish_bound-IsSynced :
      (now : ℕ) (s : ServiceState C H M)
      → IsSynced C H M s
      → IsSynced C H M (publish_bound C H M methods now s)
  unfolding publish_bound
  publish_bound-IsSynced now s a = publish_all-IsSynced _ s a

  publish_monitor-IsSynced :
      (now : ℕ) (o : Option M) (s : ServiceState C H M)
      → IsSynced C H M s
      → IsSynced C H M (publish_monitor C H M methods now o s)
  unfolding publish_monitor
  publish_monitor-IsSynced now none s a = a
  publish_monitor-IsSynced now (some m) s a = publish_all-IsSynced _ s a

  pub publish_statistics-IsSynced :
      (now attempt : ℕ) (s : ServiceState C H M)
      → IsSynced C H M s
      → IsSynced C H M (publish_statistics C H M methods now attempt s)
  unfolding publish_statistics
  publish_statistics-IsSynced now attempt s a = elim (Bool-cases (s.tunnel.attempt == attempt)) [
    | inl e ↦ rw (e, publish_statistics) (publish_monitor-IsSynced now s.tunnel.monitor s a)
    | inr e ↦ rw (e, publish_statistics) a
  ]

  pub adjust-IsSynced :
      (id : Uuid) (f : Control C H → Control C H) (s : ServiceState C H M)
      → ((c : Control C H) → (f c).sent ≡ c.sent)
      → IsSynced C H M s
      → IsSynced C H M (record s { connections = adjust id f s.connections })
  adjust-IsSynced id f s h (a, lt) =
      (adjust-All _ id f (λ c. IsReplica-sent c (f c) (h c)) s.connections a, lt)

  pub set_statistics_enabled-IsSynced :
      (now : ℕ) (id session_id : Uuid) (generation : ℕ) (enabled : Bool) (x : Context C H M)
      → IsSynced C H M x.state
      → IsSynced C H M
          (set_statistics_enabled C H M methods now id session_id generation enabled x).0.state
  unfolding set_statistics_enabled refresh_demand
  set_statistics_enabled-IsSynced now id session_id generation enabled x a =
      elim (Bool-cases (attached_now C H M methods id session_id generation x)) [
        | inl e ↦ rw e (
            adjust-IsSynced id (set_control_statistics C H enabled) x.state
              (set_control_statistics-sent enabled) a)
        | inr e ↦ rw (e, set_statistics_enabled) a
      ]
