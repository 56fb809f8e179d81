-- ===== src/VpnTask/Tokens.antt =====
-- A requested stop reaches the worker: the token of the current admission is cancelled, and the
-- active attempt runs under that token.
use Prim.Native.String.{String}
use global_protect_openconne.Prelude.{
  ℕ, ◌<◌, ◌≡◌, Bool, true, Option, none, some, List, [], ◌∷◌, arith, inl, inr, Option-cases,
}
use global_protect_openconne.VpnState.{Uuid, VpnState}
use global_protect_openconne.Drain.{Heap, is_cancelled, alloc, cancel, complete}
use global_protect_openconne.Lifecycle.{
  Lifecycle, Admission, LifecycleEvent, start, SendOutcome, ConnectReservation, PreparedConnection,
  commit, drop_reservation, request_disconnect, disconnect_and_wait, admit, activate_attempt,
  attempt_cancellation, close_admission,
}
use global_protect_openconne.Lifecycle.Laws.{reserve_connect-cases}
use global_protect_openconne.VpnTask.{SessionStore, ActiveAttempt, VpnTask}
use global_protect_openconne.VpnTask.Connect.{
  start_attempt, stop_attempt, establish_attempt, publish_members,
}
use global_protect_openconne.VpnTask.Finish.{end_attempt, join_attempt}
use global_protect_openconne.VpnTask.Events.{handle_event, shut_down}
use global_protect_openconne.VpnTask.System.{
  System, Label, reserve, commits, drops, disconnects, disconnects_and_waits, cancels, emits,
  delivers, joins, shuts_down, step, run, consume, deliver, stop_actor, pick, new,
}
use global_protect_openconne.VpnTask.Ownership.{nobody, reservation, queued, running, awaited}
use global_protect_openconne.VpnTask.Ownership.Steps.{Owned}
use global_protect_openconne.VpnTask.Ownership.Runs.{run-Owned, new-Owned}

-- The token of the admission is allocated, and cancelled once a stop was requested.
abbrev pub TokenIsSound : Heap → Option Admission → Type 0
TokenIsSound h none = Unit
TokenIsSound h (some m) =
    (m.drain < h.next) × (m.stop_requested ≡ true → is_cancelled h m.drain ≡ true)

abbrev pub IsSound : Lifecycle → Type 0
IsSound l = TokenIsSound l.heap l.current

admit-IsSound : (l : Lifecycle) → IsSound (admit l)
unfolding admit alloc
admit-IsSound l = ground arith

commit-IsSound :
    (o o' : SendOutcome) (r : ConnectReservation) (c : PreparedConnection) (uid : Option ℕ)
    (report : Option String) (session : Option Uuid) (l : Lifecycle)
    → IsSound l
    → IsSound (commit o o' r c uid report session l).0
unfolding commit cancel complete
commit-IsSound o o' r c uid report session l b = ground arith

drop_reservation-IsSound :
    (o : SendOutcome) (r : ConnectReservation) (l : Lifecycle)
    → IsSound l
    → IsSound (drop_reservation o r l)
unfolding drop_reservation cancel complete
drop_reservation-IsSound o r l b = ground arith

request_disconnect-IsSound :
    (o : SendOutcome) (l : Lifecycle) → IsSound l → IsSound (request_disconnect o l).0
unfolding request_disconnect cancel
request_disconnect-IsSound o l b = ground arith

disconnect_and_wait-IsSound :
    (o : SendOutcome) (l : Lifecycle) → IsSound l → IsSound (disconnect_and_wait o l).0
unfolding disconnect_and_wait cancel
disconnect_and_wait-IsSound o l b = ground arith

cancel-IsSound : (a : ℕ) (l : Lifecycle) → IsSound l → IsSound (record l { heap = cancel a l.heap })
unfolding cancel
cancel-IsSound a l b = elim (Option-cases l.current) [
  | inl e ↦ ground arith
  | inr (m, e) ↦ ground arith
]

module _ (R : SessionStore) where
  start_attempt-IsSound :
      (n : ℕ) (c : PreparedConnection) (session : Option Uuid) (t : VpnTask R)
      → IsSound t.lifecycle
      → IsSound (start_attempt R n c session t).lifecycle
  unfolding start_attempt activate_attempt attempt_cancellation alloc cancel
  start_attempt-IsSound n c session t b = ground arith

  join_attempt-IsSound :
      (t : VpnTask R) → IsSound t.lifecycle → IsSound (join_attempt R t).lifecycle
  unfolding join_attempt complete
  join_attempt-IsSound t b = ground arith

  shut_down-IsSound : (t : VpnTask R) → IsSound t.lifecycle → IsSound (shut_down R t).lifecycle
  unfolding shut_down close_admission cancel
  shut_down-IsSound t b = ground arith

  handle_event-IsSound :
      (fd : ℕ → String) (now : ℕ) (e : LifecycleEvent) (t : VpnTask R)
      → IsSound t.lifecycle
      → IsSound (handle_event R fd now e t).lifecycle
  unfolding handle_event establish_attempt stop_attempt end_attempt publish_members cancel
  handle_event-IsSound fd now (start n c uid report session) t b =
      start_attempt-IsSound n c session t b
  handle_event-IsSound fd now e t b = ground arith

  consume-IsSound :
      (p : Option (ConnectReservation × List ConnectReservation)) (s : System R)
      (f : ConnectReservation → Lifecycle → Lifecycle)
      → ((r : ConnectReservation) → IsSound (f r s.lifecycle))
      → IsSound s.lifecycle
      → IsSound (consume R p s f).lifecycle
  unfolding consume
  consume-IsSound none s f h b = b
  consume-IsSound (some (r, rest)) s f h b = h r

  deliver-IsSound :
      (fd : ℕ → String) (now : ℕ) (j : Option ActiveAttempt)
      (p : Option (LifecycleEvent × List LifecycleEvent)) (s : System R)
      → IsSound s.lifecycle
      → IsSound (deliver R fd now j p s).lifecycle
  unfolding deliver
  deliver-IsSound fd now (some _) p s b = b
  deliver-IsSound fd now none none s b = b
  deliver-IsSound fd now none (some (e, rest)) s b =
      handle_event-IsSound fd now e
        (record (s.task) { lifecycle = record (s.lifecycle) { events = rest } }) b

  stop_actor-IsSound :
      (j : Option ActiveAttempt) (s : System R)
      → IsSound s.lifecycle
      → IsSound (stop_actor R j s).lifecycle
  unfolding stop_actor
  stop_actor-IsSound (some _) s b = b
  stop_actor-IsSound none s b = shut_down-IsSound s.task b

  step-IsSound :
      (fd : ℕ → String) (s : System R) (lab : Label)
      → IsSound s.lifecycle
      → IsSound (step R fd s lab).lifecycle
  unfolding step cancel
  step-IsSound fd s (reserve restart) b = elim (reserve_connect-cases restart s.lifecycle) [
    | inl (e, p) ↦ rw p b
    | inr (p, free) ↦ rw p (admit-IsSound s.lifecycle)
  ]
  step-IsSound fd s (commits k o o' c uid report session) b =
      consume-IsSound (pick k s.reservations) s _
        (λ r. commit-IsSound o o' r c uid report session s.lifecycle b) b
  step-IsSound fd s (drops k o) b =
      consume-IsSound (pick k s.reservations) s _ (λ r. drop_reservation-IsSound o r s.lifecycle b)
        b
  step-IsSound fd s (disconnects o) b = request_disconnect-IsSound o s.lifecycle b
  step-IsSound fd s (disconnects_and_waits o) b = disconnect_and_wait-IsSound o s.lifecycle b
  step-IsSound fd s (cancels a) b = cancel-IsSound a s.lifecycle b
  step-IsSound fd s (emits (start n c uid report session)) b = b
  step-IsSound fd s (emits e) b = b
  step-IsSound fd s (delivers k now) b =
      deliver-IsSound fd now s.joining (pick k s.lifecycle.events) s b
  step-IsSound fd s joins b = join_attempt-IsSound s.task b
  step-IsSound fd s shuts_down b = stop_actor-IsSound s.joining s b

  run-IsSound :
      (fd : ℕ → String) (s : System R) (labs : List Label)
      → IsSound s.lifecycle
      → IsSound (run R fd s labs).lifecycle
  unfolding run
  run-IsSound fd s [] b = b
  run-IsSound fd s (lab ∷ labs) b = run-IsSound fd (step R fd s lab) labs (step-IsSound fd s lab b)

  Owned-token :
      (s : System R) (a : ActiveAttempt)
      → Owned R s
      → s.active ≡ some a
      → (m : Admission) × (s.lifecycle.current ≡ some m) × (a.cancellation ≡ m.drain)
  Owned-token s a (nobody e r q x y) h = cc
  Owned-token s a (reservation m r e ea ed er q x y) h = cc
  Owned-token s a (queued m e r q x y) h = cc
  Owned-token s a (running m b e ea ed r q x y) h = (m, e, ground arith)
  Owned-token s a (awaited m b e ea ed r q x y) h = cc

  request_disconnect-cancels :
      (o : SendOutcome) (l : Lifecycle) (m : Admission)
      → IsSound l
      → l.current ≡ some m
      → is_cancelled (request_disconnect o l).0.heap m.drain ≡ true
  unfolding request_disconnect cancel
  request_disconnect-cancels o l m b e = ground arith

  new-IsSound : (v : VpnState) (w : Bool) (store : R.Store) → IsSound (new R v w store).lifecycle
  unfolding new
  new-IsSound v w store = tt

  -- After any schedule from the start of the service, a disconnect request cancels the token under
  -- which the active attempt runs, whether or not the queue took the stop event, and also where an
  -- earlier request had already stopped the attempt.
  pub disconnect-cancels_active :
      (fd : ℕ → String) (v : VpnState) (w : Bool) (store : R.Store) (labs : List Label)
      (o : SendOutcome) (a : ActiveAttempt)
      → (run R fd (new R v w store) labs).active ≡ some a
      → let s = run R fd (new R v w store) labs in
        is_cancelled (step R fd s (disconnects o)).lifecycle.heap a.cancellation ≡ true
  unfolding step
  disconnect-cancels_active fd v w store labs o a h =
      let s = run R fd (new R v w store) labs in
      let (m, e, d) = Owned-token s a (run-Owned R fd _ labs (new-Owned R fd v w store)) h in
      rw d (
        request_disconnect-cancels o s.lifecycle m (run-IsSound fd _ labs (new-IsSound v w store))
          e)
