-- ===== src/VpnTask/Events.antt =====
-- The actor's handling of one event, and its shutdown (apps/gpservice/src/vpn_task.rs).
use Prim.Native.String.{String}
use global_protect_openconne.Prelude.{ℕ, none, some, ◌==◌, true, false, if◌then◌else◌}
use global_protect_openconne.Drain.{is_cancelled}
use global_protect_openconne.VpnState
use global_protect_openconne.Lifecycle.{
  LifecycleEvent, tunnel_monitor, start, stop, script_tun_suspended, reconnect_required,
  established, members_changed, ended, failed, preparation_released, close_admission,
}
use global_protect_openconne.VpnTask.{SessionStore, ActiveAttempt, send_state, VpnTask}
use global_protect_openconne.VpnTask.Connect.{
  start_attempt, stop_attempt, establish_attempt, publish_members,
}
use global_protect_openconne.VpnTask.Finish.{end_attempt}

module _ (R : SessionStore) where
  -- `handle_event`, with its guards on the active attempt.
  unfoldable pub with_active : ℕ → (ActiveAttempt → VpnTask R) → VpnTask R → VpnTask R
  with_active attempt f t = elim t.active [
    | none ↦ t
    | some a ↦ if a.attempt == attempt then f a else t
  ]

  unfoldable pub handle_event : (ℕ → String) → ℕ → LifecycleEvent → VpnTask R → VpnTask R
  unfolding start_attempt stop_attempt establish_attempt publish_members end_attempt with_active
      send_state
  handle_event fd now (tunnel_monitor attempt monitor) t =
      with_active attempt
        (λ a. record t {
          lifecycle = record (t.lifecycle) {
            tunnel = record { attempt = attempt; monitor = some monitor; non_tunnel = false };
          };
        })
        t
  handle_event fd now (start attempt c uid report session) t = start_attempt R attempt c session t
  handle_event fd now (stop attempt) t = stop_attempt R attempt t
  handle_event fd now (established attempt v) t = establish_attempt R fd now attempt v t
  handle_event fd now (members_changed attempt ms fs) t = publish_members R now attempt ms fs t
  handle_event fd now (ended attempt) t = end_attempt R attempt t
  handle_event fd now (failed attempt reason) t =
      with_active attempt (λ a. record t { active = some (record a { failure = some reason }) }) t
  handle_event fd now (script_tun_suspended attempt) t =
      with_active attempt
        (λ a.
          if is_cancelled t.lifecycle.heap a.cancellation
          then t
          else record t { lifecycle = send_state (VpnState.connecting a.info) t.lifecycle })
        t
  handle_event fd now (reconnect_required attempt) t =
      with_active attempt (λ a. record t { active = some (record a { reconnect_required = true }) })
        t
  handle_event fd now preparation_released t = t

  -- The loop's cancellation branch.
  unfoldable pub shut_down : VpnTask R → VpnTask R
  unfolding stop_attempt
  shut_down t =
      let t' = record t { lifecycle = close_admission t.lifecycle } in
      elim t.active [ none ↦ t' | some a ↦ stop_attempt R a.attempt t' ]
