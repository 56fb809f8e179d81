-- ===== src/VpnTask/Completion.antt =====
-- The waiters of an attempt are released when its admission ends.
use Prim.Native.String.{String}
use global_protect_openconne.Prelude.{ℕ, ◌≡◌, true, Option, none, some, List, arith, inl, inr}
use global_protect_openconne.VpnState.{Uuid}
use global_protect_openconne.Drain.{is_complete, complete}
use global_protect_openconne.Lifecycle.{
  Lifecycle, Admission, LifecycleEvent, start, SendOutcome, ConnectReservation, PreparedConnection,
  commit, drop_reservation, request_disconnect, disconnect_and_wait, activate_attempt,
  attempt_cancellation, close_admission,
}
use global_protect_openconne.Lifecycle.Laws.{reserve_connect-cases}
use global_protect_openconne.VpnTask.{SessionStore, ActiveAttempt, VpnTask}
use global_protect_openconne.VpnTask.Connect.{
  start_attempt, stop_attempt, establish_attempt, publish_members,
}
use global_protect_openconne.VpnTask.Finish.{end_attempt, join_attempt}
use global_protect_openconne.VpnTask.Events.{handle_event, shut_down}
use global_protect_openconne.VpnTask.System.{
  System, Label, reserve, commits, drops, disconnects, disconnects_and_waits, cancels, emits,
  delivers, joins, shuts_down, step, consume, deliver, stop_actor, pick,
}

-- If the admission is gone in the later lifecycle, its completion is set there.
abbrev pub Released : Admission → Lifecycle → Type 0
Released m l = l.current ≡ none → is_complete l.heap m.drain ≡ true

module _ (m : Admission) where
  commit-Released :
      (o o' : SendOutcome) (r : ConnectReservation) (c : PreparedConnection) (uid : Option ℕ)
      (report : Option String) (session : Option Uuid) (l : Lifecycle)
      → l.current ≡ some m
      → Released m (commit o o' r c uid report session l).0
  unfolding commit complete
  commit-Released o o' r c uid report session l e = ground arith

  drop_reservation-Released :
      (o : SendOutcome) (r : ConnectReservation) (l : Lifecycle)
      → l.current ≡ some m
      → Released m (drop_reservation o r l)
  unfolding drop_reservation complete
  drop_reservation-Released o r l e = ground arith

  request_disconnect-Released :
      (o : SendOutcome) (l : Lifecycle) → l.current ≡ some m → Released m (request_disconnect o l).0
  unfolding request_disconnect
  request_disconnect-Released o l e = ground arith

  disconnect_and_wait-Released :
      (o : SendOutcome) (l : Lifecycle)
      → l.current ≡ some m
      → Released m (disconnect_and_wait o l).0
  unfolding disconnect_and_wait
  disconnect_and_wait-Released o l e = ground arith

module _ (R : SessionStore) (m : Admission) where
  start_attempt-Released :
      (n : ℕ) (c : PreparedConnection) (session : Option Uuid) (t : VpnTask R)
      → t.lifecycle.current ≡ some m
      → Released m (start_attempt R n c session t).lifecycle
  unfolding start_attempt activate_attempt attempt_cancellation
  start_attempt-Released n c session t e = ground arith

  join_attempt-Released :
      (t : VpnTask R) → t.lifecycle.current ≡ some m → Released m (join_attempt R t).lifecycle
  unfolding join_attempt complete
  join_attempt-Released t e = ground arith

  handle_event-Released :
      (fd : ℕ → String) (now : ℕ) (e : LifecycleEvent) (t : VpnTask R)
      → t.lifecycle.current ≡ some m
      → Released m (handle_event R fd now e t).lifecycle
  unfolding handle_event establish_attempt stop_attempt end_attempt publish_members
  handle_event-Released fd now (start n c uid report session) t b =
      start_attempt-Released n c session t b
  handle_event-Released fd now e t b = ground arith

  shut_down-Released :
      (t : VpnTask R) → t.lifecycle.current ≡ some m → Released m (shut_down R t).lifecycle
  unfolding shut_down close_admission
  shut_down-Released t e = ground arith

  still_current : (l : Lifecycle) → l.current ≡ some m → Released m l
  still_current l e h = cc

  consume-Released :
      (p : Option (ConnectReservation × List ConnectReservation)) (s : System R)
      (f : ConnectReservation → Lifecycle → Lifecycle)
      → ((r : ConnectReservation) → Released m (f r s.lifecycle))
      → s.lifecycle.current ≡ some m
      → Released m (consume R p s f).lifecycle
  unfolding consume
  consume-Released none s f h b = still_current s.lifecycle b
  consume-Released (some (r, rest)) s f h b = h r

  deliver-Released :
      (fd : ℕ → String) (now : ℕ) (j : Option ActiveAttempt)
      (p : Option (LifecycleEvent × List LifecycleEvent)) (s : System R)
      → s.lifecycle.current ≡ some m
      → Released m (deliver R fd now j p s).lifecycle
  unfolding deliver
  deliver-Released fd now (some _) p s b = still_current s.lifecycle b
  deliver-Released fd now none none s b = still_current s.lifecycle b
  deliver-Released fd now none (some (e, rest)) s b =
      handle_event-Released fd now e
        (record (s.task) { lifecycle = record (s.lifecycle) { events = rest } }) b

  stop_actor-Released :
      (j : Option ActiveAttempt) (s : System R)
      → s.lifecycle.current ≡ some m
      → Released m (stop_actor R j s).lifecycle
  unfolding stop_actor
  stop_actor-Released (some _) s b = still_current s.lifecycle b
  stop_actor-Released none s b = shut_down-Released s.task b

  -- Whatever step takes the current admission away, that step sets the admission's completion.
  pub step-Released :
      (fd : ℕ → String) (s : System R) (lab : Label)
      → s.lifecycle.current ≡ some m
      → (step R fd s lab).lifecycle.current ≡ none
      → is_complete (step R fd s lab).lifecycle.heap m.drain ≡ true
  unfolding step
  step-Released fd s (reserve restart) b = elim (reserve_connect-cases restart s.lifecycle) [
    | inl (e, p) ↦ rw p (still_current s.lifecycle b)
    | inr (p, free) ↦ cc
  ]
  step-Released fd s (commits k o o' c uid report session) b =
      consume-Released (pick k s.reservations) s _
        (λ r. commit-Released m o o' r c uid report session s.lifecycle b) b
  step-Released fd s (drops k o) b =
      consume-Released (pick k s.reservations) s _
        (λ r. drop_reservation-Released m o r s.lifecycle b) b
  step-Released fd s (disconnects o) b = request_disconnect-Released m o s.lifecycle b
  step-Released fd s (disconnects_and_waits o) b = disconnect_and_wait-Released m o s.lifecycle b
  step-Released fd s (cancels a) b = λ h. cc
  step-Released fd s (emits (start n c uid report session)) b = still_current s.lifecycle b
  step-Released fd s (emits e) b = λ h. cc
  step-Released fd s (delivers k now) b =
      deliver-Released fd now s.joining (pick k s.lifecycle.events) s b
  step-Released fd s joins b = join_attempt-Released s.task b
  step-Released fd s shuts_down b = stop_actor-Released s.joining s b
