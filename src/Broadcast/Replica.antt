-- ===== src/Broadcast/Replica.antt =====
-- What a client knows after the messages of `WsServerContext` (apps/gpservice/src/ws_server.rs) that
-- its queue has taken, as the widget reads them.
use global_protect_openconne.Prelude.{
  ℕ, ◌+◌, ◌-◌, ◌<◌, ◌%◌, ◌^◌, ◌≡◌, refl, inl, inr, Bool, true, not, ◌&&◌, Option, some, List, [],
  ◌∷◌, arith, ◌==◌, Bool-cases, Option-cases,
}
use global_protect_openconne.Prelude.Map.{Map, All}
use global_protect_openconne.VpnState.{Uuid, VpnState}
use global_protect_openconne.Registry.{checked_succ}
use global_protect_openconne.Broadcast.{
  VpnEnv, WsEvent, tunnel_event, env_event, state_event, active_gui, resume_connection,
  ServerMessage, tunnel_statistics, attached, reply, event, snapshot, Control, send,
}
use global_protect_openconne.Broadcast.State.{MonitorMethods, ServiceState}
use global_protect_openconne.Broadcast.Server.{
  fit_snapshot_message, max_plaintext, fit_env, shrink, checked_size, shortened,
}
use global_protect_openconne.Broadcast.Events.{record_event, deliver}
use global_protect_openconne.Broadcast.Widget.{
  Link, attaching, serving, failed, noticed, pump, establish, receive, replay,
}

abbrev pub up_to_date : ℕ → VpnState → Link
up_to_date r v = serving (record { revision = r; last_state = v; resyncs = [] })

module _ (C H M : Type 0) where
  abbrev pub IsReplica : ℕ → VpnState → Control C H → Type 0
  IsReplica r v c = replay C H c.sent ≡ up_to_date r v

  abbrev pub IsSynced : ServiceState C H M → Type 0
  IsSynced s = All (IsReplica s.revision s.snapshot.vpn_state) s.connections × (s.revision < 2 ^ 64)

  pub noticed-record_event :
      (methods : MonitorMethods C M) (e : WsEvent C H) (env : VpnEnv C H)
      → (record_event C H M methods e env).vpn_state ≡ noticed C H e env.vpn_state
  unfolding record_event noticed
  noticed-record_event methods (tunnel_event t) env = refl
  noticed-record_event methods (env_event e) env = refl
  noticed-record_event methods (state_event v) env = refl
  noticed-record_event methods active_gui env = refl
  noticed-record_event methods resume_connection env = refl

  next_in_order : (r r' : ℕ) → checked_succ r ≡ some r' → (r' == (r + 1) % 2 ^ 64) ≡ true
  next_in_order r r' h = ground arith

  pub replay-event :
      (r r' : ℕ) (v : VpnState) (e : WsEvent C H) (ms : List (ServerMessage C H))
      → checked_succ r ≡ some r'
      → replay C H ms ≡ up_to_date r v
      → replay C H (event r' e ∷ ms) ≡ up_to_date r' (noticed C H e v)
  unfolding replay receive pump
  replay-event r r' v e ms h p = rw (p, next_in_order r r' h) refl

  module _ (r r' : ℕ) (v : VpnState) (e : WsEvent C H) (methods : MonitorMethods C M) where
    pub deliver-All :
        (accepts : Uuid → Bool) (m : Map (Control C H))
        → checked_succ r ≡ some r'
        → All (IsReplica r v) m
        → All (IsReplica r' (noticed C H e v)) (deliver C H M methods accepts (event r' e) m)
    unfolding deliver send
    deliver-All accepts [] h a = a
    deliver-All accepts ((id, c) ∷ m) h (p, a) =
        elim (Bool-cases (accepts id && not c.receiver_gone)) [
          | inl b ↦ rw b (replay-event r r' v e c.sent h p, deliver-All accepts m h a)
          | inr b ↦ rw b (deliver-All accepts m h a)
        ]

  module _ (methods : MonitorMethods C M) (encoded_size : ServerMessage C H → Option ℕ)
      (configuration_size : C → Option ℕ) (limit_encoded_size : ℕ → C → Option C) where
    fit_env-state :
        (excess : ℕ) (env env' : VpnEnv C H)
        → fit_env C H M methods encoded_size configuration_size limit_encoded_size excess env
          ≡ some env'
        → env'.vpn_state ≡ env.vpn_state
    unfolding fit_env
    fit_env-state excess env env' h = ground arith

    receive-attached :
        (id : Uuid) (r : ℕ) (env env' : VpnEnv C H) (l : Link)
        → env'.vpn_state ≡ env.vpn_state
        → receive C H (attached id r env') l ≡ receive C H (attached id r env) l
    unfolding receive pump establish
    receive-attached id r env env' attaching h = rw h refl
    receive-attached id r env env' (serving c) h = refl
    receive-attached id r env env' failed h = refl

    receive-snapshot :
        (r : ℕ) (env env' : VpnEnv C H) (l : Link)
        → env'.vpn_state ≡ env.vpn_state
        → receive C H (snapshot r env') l ≡ receive C H (snapshot r env) l
    unfolding receive pump establish
    receive-snapshot r env env' attaching h = refl
    receive-snapshot r env env' (serving c) h = rw h refl
    receive-snapshot r env env' failed h = refl

    receive-shrink :
        (excess : ℕ) (m m' : ServerMessage C H) (l : Link)
        → shrink C H M methods encoded_size configuration_size limit_encoded_size excess m ≡ some m'
        → receive C H m' l ≡ receive C H m l
    unfolding shrink receive pump establish
    receive-shrink excess (attached id r env) m' l h =
        elim (Option-cases
          (fit_env C H M methods encoded_size configuration_size limit_encoded_size excess env)) [
            | inl e ↦ ground arith
            | inr (env', e) ↦
                let f : m' ≡ attached id r env' = ground arith in
                rw (f, receive-attached id r env env' l (fit_env-state excess env env' e)) refl
          ]
    receive-shrink excess (snapshot r env) m' l h =
        elim (Option-cases
          (fit_env C H M methods encoded_size configuration_size limit_encoded_size excess env)) [
            | inl e ↦ ground arith
            | inr (env', e) ↦
                let f : m' ≡ snapshot r env' = ground arith in
                rw (f, receive-snapshot r env env' l (fit_env-state excess env env' e)) refl
          ]
    receive-shrink excess (event r e) m' l h = ground arith
    receive-shrink excess (reply r e) m' l h = ground arith
    receive-shrink excess (tunnel_statistics e) m' l h = ground arith

    pub receive-fit_snapshot_message :
        (m m' : ServerMessage C H) (l : Link)
        → fit_snapshot_message C H M methods encoded_size configuration_size limit_encoded_size m
          ≡ some m'
        → receive C H m' l ≡ receive C H m l
    unfolding fit_snapshot_message shortened checked_size
    receive-fit_snapshot_message m m' l h = elim (Option-cases (encoded_size m)) [
      | inl e ↦ ground arith
      | inr (n, e) ↦
          elim (Option-cases (
            shrink C H M methods encoded_size configuration_size limit_encoded_size
              (n - max_plaintext) m)) [
                | inl f ↦ ground arith
                | inr (k, f) ↦ let g = receive-shrink (n - max_plaintext) m k l f in ground arith
              ]
    ]
