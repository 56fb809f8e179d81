-- ===== src/VpnTask/Stopping.antt =====
-- A requested stop: what it forbids the actor to publish, and that it reaches the worker.
use Prim.Native.String.{String}
use global_protect_openconne.Prelude.{
  ℕ, ◌≡◌, refl, ◌∙◌, Bool, true, false, not, ◌&&◌, ◌⊎◌, inl, inr, Option, none, some, List, [], ◌∷◌,
  arith,
}
use global_protect_openconne.VpnState.{VpnState, Uuid, GatewaySessionSummary, GatewayFailureSummary}
use global_protect_openconne.Lifecycle.{
  Lifecycle, Admission, LifecycleEvent, start, members_changed, SendOutcome, ConnectReservation,
  PreparedConnection, commit, drop_reservation, request_disconnect, disconnect_and_wait,
  activate_attempt, attempt_cancellation, close_admission,
}
use global_protect_openconne.VpnTask.{SessionStore, ActiveAttempt, VpnTask}
use global_protect_openconne.VpnTask.Connect.{
  start_attempt, stop_attempt, establish_attempt, publish_members,
}
use global_protect_openconne.VpnTask.Finish.{end_attempt, join_attempt}
use global_protect_openconne.VpnTask.Events.{handle_event, shut_down}
use global_protect_openconne.VpnTask.System.{
  System, Label, reserve, commits, drops, disconnects, disconnects_and_waits, cancels, emits,
  delivers, joins, shuts_down, step, run, consume, deliver, stop_actor, pick,
}

-- No admission is current, or a stop of it was requested.
abbrev pub IsBlocked : Lifecycle → Type 0
IsBlocked l = blocked l.current
  where
    blocked : Option Admission → Type 0
    blocked none = Unit
    blocked (some m) = m.stop_requested ≡ true

abbrev pub is_connected : VpnState → Bool
is_connected (VpnState.connected _) = true
is_connected _ = false

-- The later lifecycle is blocked too, and publishes no connection that the earlier one did not.
abbrev Calm : Lifecycle → Lifecycle → Type 0
Calm l l' = IsBlocked l' × ((l'.state ≡ l.state) ⊎ (is_connected l'.state ≡ false))

commit-Calm :
    (o o' : SendOutcome) (r : ConnectReservation) (c : PreparedConnection) (uid : Option ℕ)
    (report : Option String) (session : Option Uuid) (l : Lifecycle)
    → IsBlocked l
    → Calm l (commit o o' r c uid report session l).0
unfolding commit
commit-Calm o o' r c uid report session l b = ground arith

drop_reservation-Calm :
    (o : SendOutcome) (r : ConnectReservation) (l : Lifecycle)
    → IsBlocked l
    → Calm l (drop_reservation o r l)
unfolding drop_reservation
drop_reservation-Calm o r l b = ground arith

request_disconnect-Calm :
    (o : SendOutcome) (l : Lifecycle) → IsBlocked l → Calm l (request_disconnect o l).0
unfolding request_disconnect
request_disconnect-Calm o l b = ground arith

disconnect_and_wait-Calm :
    (o : SendOutcome) (l : Lifecycle) → IsBlocked l → Calm l (disconnect_and_wait o l).0
unfolding disconnect_and_wait
disconnect_and_wait-Calm o l b = ground arith

abbrev is_reserve : Label → Bool
is_reserve (reserve _) = true
is_reserve _ = false

abbrev pub no_reserve : List Label → Bool
no_reserve [] = true
no_reserve (lab ∷ labs) = not (is_reserve lab) && no_reserve labs

&&-true : (a b : Bool) → (not a && b) ≡ true → (a ≡ false) × (b ≡ true)
&&-true a b h = ground arith

module _ (R : SessionStore) where
  start_attempt-Calm :
      (n : ℕ) (c : PreparedConnection) (session : Option Uuid) (t : VpnTask R)
      → IsBlocked t.lifecycle
      → Calm t.lifecycle (start_attempt R n c session t).lifecycle
  unfolding start_attempt activate_attempt attempt_cancellation
  start_attempt-Calm n c session t b = ground arith

  publish_members-Calm :
      (now n : ℕ) (ms : List GatewaySessionSummary) (fs : List GatewayFailureSummary)
      (t : VpnTask R)
      → IsBlocked t.lifecycle
      → Calm t.lifecycle (publish_members R now n ms fs t).lifecycle
  unfolding publish_members
  publish_members-Calm now n ms fs t b = ground arith

  join_attempt-Calm :
      (t : VpnTask R) → IsBlocked t.lifecycle → Calm t.lifecycle (join_attempt R t).lifecycle
  unfolding join_attempt
  join_attempt-Calm t b = ground arith

  shut_down-Calm :
      (t : VpnTask R) → IsBlocked t.lifecycle → Calm t.lifecycle (shut_down R t).lifecycle
  unfolding shut_down close_admission
  shut_down-Calm t b = ground arith

  handle_event-Calm :
      (fd : ℕ → String) (now : ℕ) (e : LifecycleEvent) (t : VpnTask R)
      → IsBlocked t.lifecycle
      → Calm t.lifecycle (handle_event R fd now e t).lifecycle
  unfolding handle_event establish_attempt stop_attempt end_attempt
  handle_event-Calm fd now (start n c uid report session) t b = start_attempt-Calm n c session t b
  handle_event-Calm fd now (members_changed n ms fs) t b = publish_members-Calm now n ms fs t b
  handle_event-Calm fd now e t b = ground arith

  consume-Calm :
      (p : Option (ConnectReservation × List ConnectReservation)) (s : System R)
      (f : ConnectReservation → Lifecycle → Lifecycle)
      → ((r : ConnectReservation) → Calm s.lifecycle (f r s.lifecycle))
      → IsBlocked s.lifecycle
      → Calm s.lifecycle (consume R p s f).lifecycle
  unfolding consume
  consume-Calm none s f h b = (b, inl refl)
  consume-Calm (some (r, rest)) s f h b = h r

  deliver-Calm :
      (fd : ℕ → String) (now : ℕ) (j : Option ActiveAttempt)
      (p : Option (LifecycleEvent × List LifecycleEvent)) (s : System R)
      → IsBlocked s.lifecycle
      → Calm s.lifecycle (deliver R fd now j p s).lifecycle
  unfolding deliver
  deliver-Calm fd now (some _) p s b = (b, inl refl)
  deliver-Calm fd now none none s b = (b, inl refl)
  deliver-Calm fd now none (some (e, rest)) s b =
      handle_event-Calm fd now e
        (record (s.task) { lifecycle = record (s.lifecycle) { events = rest } }) b

  stop_actor-Calm :
      (j : Option ActiveAttempt) (s : System R)
      → IsBlocked s.lifecycle
      → Calm s.lifecycle (stop_actor R j s).lifecycle
  unfolding stop_actor
  stop_actor-Calm (some _) s b = (b, inl refl)
  stop_actor-Calm none s b = shut_down-Calm s.task b

  step-Calm :
      (fd : ℕ → String) (s : System R) (lab : Label)
      → is_reserve lab ≡ false
      → IsBlocked s.lifecycle
      → Calm s.lifecycle (step R fd s lab).lifecycle
  unfolding step
  step-Calm fd s (reserve restart) h b = cc
  step-Calm fd s (commits k o o' c uid report session) h b =
      consume-Calm (pick k s.reservations) s _
        (λ r. commit-Calm o o' r c uid report session s.lifecycle b) b
  step-Calm fd s (drops k o) h b =
      consume-Calm (pick k s.reservations) s _ (λ r. drop_reservation-Calm o r s.lifecycle b) b
  step-Calm fd s (disconnects o) h b = request_disconnect-Calm o s.lifecycle b
  step-Calm fd s (disconnects_and_waits o) h b = disconnect_and_wait-Calm o s.lifecycle b
  step-Calm fd s (cancels a) h b = (b, inl refl)
  step-Calm fd s (emits (start n c uid report session)) h b = (b, inl refl)
  step-Calm fd s (emits e) h b = (b, inl refl)
  step-Calm fd s (delivers k now) h b =
      deliver-Calm fd now s.joining (pick k s.lifecycle.events) s b
  step-Calm fd s joins h b = join_attempt-Calm s.task b
  step-Calm fd s shuts_down h b = stop_actor-Calm s.joining s b

  request_disconnect-stops : (o : SendOutcome) (l : Lifecycle) → Calm l (request_disconnect o l).0
  unfolding request_disconnect
  request_disconnect-stops o l = ground arith

  run-Calm :
      (fd : ℕ → String) (s : System R) (labs : List Label)
      → no_reserve labs ≡ true
      → IsBlocked s.lifecycle
      → is_connected (run R fd s labs).lifecycle.state ≡ true
      → (run R fd s labs).lifecycle.state ≡ s.lifecycle.state
  unfolding run
  run-Calm fd s [] n b h = refl
  run-Calm fd s (lab ∷ labs) n b h =
      let (x, y) = &&-true (is_reserve lab) (no_reserve labs) n in
      let (b', q) = step-Calm fd s lab x b in
      let e = run-Calm fd (step R fd s lab) labs y b' h in
      elim q [
        | inl p ↦ e ∙ p
        | inr p ↦ let f : is_connected (step R fd s lab).lifecycle.state ≡ true = rw e at h in cc
      ]

  -- After a disconnect request, and until the next reservation, whatever workers send and in
  -- whatever order it arrives, a connected state that is published is the very one that was
  -- published when the request came: no connection is announced, and none is updated.
  pub disconnect-not_connected :
      (fd : ℕ → String) (s : System R) (o : SendOutcome) (labs : List Label)
      → no_reserve labs ≡ true
      → is_connected (run R fd (step R fd s (disconnects o)) labs).lifecycle.state ≡ true
      → (run R fd (step R fd s (disconnects o)) labs).lifecycle.state ≡ s.lifecycle.state
  unfolding step
  disconnect-not_connected fd s o labs n h =
      let (b, q) = request_disconnect-stops o s.lifecycle in
      let e = run-Calm fd (step R fd s (disconnects o)) labs n b h in
      elim q [
        | inl p ↦ e ∙ p
        | inr p ↦
            let f : is_connected (step R fd s (disconnects o)).lifecycle.state ≡ true = rw e at h in
            cc
      ]
