-- ===== src/VpnTask/EventLaws.antt =====
-- What the handling of one event does to the admission, the queue and the attempts.
use Prim.Native.String.{String}
use global_protect_openconne.Prelude.{
  ℕ, ◌≡◌, refl, ◌⊎◌, Option, none, some, List, [], arith, Bool, true, false,
}
use global_protect_openconne.Drain.{is_complete, complete, cancel}
use global_protect_openconne.VpnState.{Uuid, GatewaySessionSummary, GatewayFailureSummary}
use global_protect_openconne.Lifecycle.{
  Admission, LifecycleEvent, tunnel_monitor, start, stop, script_tun_suspended, reconnect_required,
  established, members_changed, ended, failed, preparation_released, PreparedConnection,
  VpnSessionInfo, activate_attempt, attempt_cancellation, close_admission,
}
use global_protect_openconne.Lifecycle.Laws.{start_of, Kept}
use global_protect_openconne.VpnTask.{SessionStore, ActiveAttempt, VpnTask}
use global_protect_openconne.VpnTask.Connect.{
  start_attempt, stop_attempt, establish_attempt, publish_members,
}
use global_protect_openconne.VpnTask.Finish.{end_attempt, join_attempt}
use global_protect_openconne.VpnTask.Events.{handle_event, shut_down}

-- The same attempt under the same token, or none, before and after.
abbrev pub SameAttempt : Option ActiveAttempt → Option ActiveAttempt → Type 0
SameAttempt none none = Unit
SameAttempt (some a) (some b) = (b.attempt ≡ a.attempt) × (b.cancellation ≡ a.cancellation)
SameAttempt _ _ = ⊥

SameAttempt-refl : (a : Option ActiveAttempt) → SameAttempt a a
SameAttempt-refl none = tt
SameAttempt-refl (some a) = (refl, refl)

-- The attempt runs under this token.
abbrev pub RunsUnder : ℕ → ℕ → Option ActiveAttempt → Type 0
RunsUnder n d none = ⊥
RunsUnder n d (some a) = (a.attempt ≡ n) × (a.cancellation ≡ d)

abbrev pub is_ended : LifecycleEvent → Bool
is_ended (ended _) = true
is_ended _ = false

module _ (R : SessionStore) where
  abbrev pub Quiet : VpnTask R → VpnTask R → Type 0
  Quiet t u =
      (u.lifecycle.current ≡ t.lifecycle.current)
      × (u.lifecycle.events ≡ t.lifecycle.events)
      × SameAttempt t.active u.active
      × (u.joining ≡ t.joining)

  pub stop_attempt-Quiet : (n : ℕ) (t : VpnTask R) → Quiet t (stop_attempt R n t)
  unfolding stop_attempt
  stop_attempt-Quiet n t = ground arith

  establish_attempt-Quiet :
      (fd : ℕ → String) (now n : ℕ) (v : VpnSessionInfo) (t : VpnTask R)
      → Quiet t (establish_attempt R fd now n v t)
  unfolding establish_attempt
  establish_attempt-Quiet fd now n v t = ground arith

  publish_members-Quiet :
      (now n : ℕ) (ms : List GatewaySessionSummary) (fs : List GatewayFailureSummary)
      (t : VpnTask R)
      → Quiet t (publish_members R now n ms fs t)
  unfolding publish_members
  publish_members-Quiet now n ms fs t = ground arith

  pub handle_event-Quiet :
      (fd : ℕ → String) (now : ℕ) (e : LifecycleEvent) (t : VpnTask R)
      → start_of e ≡ []
      → is_ended e ≡ false
      → Quiet t (handle_event R fd now e t)
  unfolding handle_event
  handle_event-Quiet fd now (start n c uid report session) t h k = cc
  handle_event-Quiet fd now (ended n) t h k = cc
  handle_event-Quiet fd now (stop n) t h k = stop_attempt-Quiet n t
  handle_event-Quiet fd now (established n v) t h k = establish_attempt-Quiet fd now n v t
  handle_event-Quiet fd now (members_changed n ms fs) t h k = publish_members-Quiet now n ms fs t
  handle_event-Quiet fd now (tunnel_monitor n m) t h k = ground arith
  handle_event-Quiet fd now (script_tun_suspended n) t h k = ground arith
  handle_event-Quiet fd now (reconnect_required n) t h k = ground arith
  handle_event-Quiet fd now (failed n reason) t h k = ground arith
  handle_event-Quiet fd now preparation_released t h k =
      (refl, refl, SameAttempt-refl t.active, refl)

  pub end_attempt-active :
      (n : ℕ) (t : VpnTask R) (a : ActiveAttempt)
      → t.active ≡ some a
      → let u = end_attempt R n t in
        (u.lifecycle ≡ t.lifecycle)
        × (((u.active ≡ some a) × (u.joining ≡ t.joining))
            ⊎ ((u.active ≡ none) × (u.joining ≡ some a)))
  unfolding end_attempt
  end_attempt-active n t a e = ground arith

  pub end_attempt-none : (n : ℕ) (t : VpnTask R) → t.active ≡ none → end_attempt R n t ≡ t
  unfolding end_attempt
  end_attempt-none n t e = ground arith

  -- A started attempt is the admitted one, under the admission's own token.
  pub start_attempt-active :
      (n : ℕ) (c : PreparedConnection) (session : Option Uuid) (t : VpnTask R) (m : Admission)
      → t.lifecycle.current ≡ some m
      → m.attempt ≡ n
      → let u = start_attempt R n c session t in
        Kept t.lifecycle.current u.lifecycle.current
        × RunsUnder n m.drain u.active
        × (u.joining ≡ t.joining)
        × (u.lifecycle.events ≡ t.lifecycle.events)
  unfolding start_attempt activate_attempt attempt_cancellation cancel
  start_attempt-active n c session t m e h = ground arith

  pub join_attempt-current :
      (t : VpnTask R) (m : Admission) (a : ActiveAttempt)
      → t.lifecycle.current ≡ some m
      → t.joining ≡ some a
      → a.attempt ≡ m.attempt
      → let u = join_attempt R t in
        (u.lifecycle.current ≡ none)
        × (u.lifecycle.events ≡ t.lifecycle.events)
        × (u.active ≡ t.active)
        × (u.joining ≡ none)
        × (is_complete u.lifecycle.heap m.drain ≡ true)
  unfolding join_attempt complete
  join_attempt-current t m a e j h = ground arith

  pub join_attempt-none : (t : VpnTask R) → t.joining ≡ none → join_attempt R t ≡ t
  unfolding join_attempt
  join_attempt-none t j = ground arith

  pub shut_down-Kept :
      (t : VpnTask R)
      → let u = shut_down R t in
        Kept t.lifecycle.current u.lifecycle.current
        × (u.lifecycle.events ≡ t.lifecycle.events)
        × (u.active ≡ t.active)
        × (u.joining ≡ t.joining)
  unfolding shut_down close_admission
  shut_down-Kept t = ground arith
