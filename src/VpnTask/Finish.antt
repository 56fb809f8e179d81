-- ===== src/VpnTask/Finish.antt =====
-- How an attempt ends: `end_attempt` of apps/gpservice/src/vpn_task.rs, before and after the wait
-- for its worker.
use global_protect_openconne.Prelude.{
  ℕ, ◌&&◌, not, Option, none, some, ◌==◌, if◌then◌else◌, is_none, false,
}
use global_protect_openconne.Drain.{is_cancelled, complete}
use global_protect_openconne.VpnState
use global_protect_openconne.VpnState.{Uuid}
use global_protect_openconne.Lifecycle.{Lifecycle, set_current, clear_attempt}
use global_protect_openconne.VpnTask.{SessionStore, ActiveAttempt, send_state, VpnTask}

unfoldable pub unbind_tunnel : ℕ → Lifecycle → Lifecycle
unbind_tunnel attempt l =
    if is_none l.tunnel.monitor
    then record l { tunnel = record { attempt = attempt; monitor = none; non_tunnel = false } }
    else l

-- The admission is taken; it becomes a restart offer unless it was stopped or cancelled.
unfoldable pub offer_restart : ActiveAttempt → Uuid → Lifecycle → Lifecycle
unfolding send_state
offer_restart a owner l = elim l.current [
  | none ↦ l
  | some m ↦
      let l₁ = set_current none l in
      let l₂ : Lifecycle =
        if not (is_cancelled l.heap m.drain) && not m.stop_requested
        then send_state
            (VpnState.reconnect_required
              (record { attempt = a.attempt; owner = owner; info = a.info }))
            (record l₁ {
              admissions = record (l₁.admissions) { restart = some (a.attempt, owner) };
            })
        else send_state VpnState.disconnected l₁ in
      record l₂ { heap = complete m.drain l₂.heap }
]

unfoldable pub finish_attempt : ℕ → Lifecycle → Lifecycle
unfolding send_state clear_attempt
finish_attempt attempt l = clear_attempt attempt (send_state VpnState.disconnected l)

module _ (R : SessionStore) where
  open R use {Store, has_session, clear_successful_hip_report}

  unfoldable pub clear_report : Option Uuid → Store → Store
  clear_report none s = s
  clear_report (some id) s = clear_successful_hip_report id s

  -- `end_attempt` up to the wait for the worker.
  unfoldable pub end_attempt : ℕ → VpnTask R → VpnTask R
  end_attempt attempt t = elim t.active [
    | none ↦ t
    | some a ↦ if a.attempt == attempt then record t { active = none; joining = some a } else t
  ]

  -- The rest of `end_attempt`, once the worker is gone.
  unfoldable pub conclude : ActiveAttempt → Store → Lifecycle → Lifecycle
  unfolding offer_restart finish_attempt
  conclude a s l = elim a.session_id [
    | none ↦ elim a.failure [
      | none ↦ finish_attempt a.attempt l
      | some reason ↦ clear_attempt a.attempt (send_state (VpnState.failed reason) l)
    ]
    | some owner ↦
        if a.reconnect_required && not (is_cancelled l.heap a.cancellation) && has_session s owner
        then offer_restart a owner l
        else elim a.failure [
          | none ↦ finish_attempt a.attempt l
          | some reason ↦ clear_attempt a.attempt (send_state (VpnState.failed reason) l)
        ]
  ]

  unfoldable pub join_attempt : VpnTask R → VpnTask R
  unfolding conclude clear_report unbind_tunnel
  join_attempt t = elim t.joining [
    | none ↦ t
    | some a ↦
        let s = clear_report a.session_id t.registry in
        record t {
          registry = s;
          lifecycle = conclude a s (unbind_tunnel a.attempt t.lifecycle);
          joining = none;
        }
  ]
