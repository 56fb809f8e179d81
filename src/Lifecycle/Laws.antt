-- ===== src/Lifecycle/Laws.antt =====
-- What the lifecycle operations do to the current admission and to the queue.
use Prim.Native.String.{String}
use mathlib.Core.List.{append-nil, append_assoc}
use global_protect_openconne.Prelude.{
  Bool, false, ℕ, ◌≡◌, refl, true, ◌⊎◌, inl, inr, Option, none, some, List, [], ◌∷◌, ◌++◌, arith,
  ok, err, Option-cases, Bool-cases, is_some, ◌&&◌, not,
}
use global_protect_openconne.VpnState.{Uuid}
use global_protect_openconne.Drain.{is_complete, complete}
use global_protect_openconne.Lifecycle.{
  Lifecycle, Admission, LifecycleEvent, start, stop, preparation_released, ServiceResult, rejected,
  internal, busy, invalid_request, same_restart, admit, new_reservation, SendOutcome, sent, enqueue,
  ConnectReservation, PreparedConnection, reserve_connect, request_disconnect, disconnect_and_wait,
  close_admission, clear_attempt, drop_reservation, commit, accepted,
}

abbrev pub start_of : LifecycleEvent → List ℕ
start_of (start n _ _ _ _) = n ∷ []
start_of _ = []

-- The attempts of the `Start` events in a queue.
abbrev pub starts : List LifecycleEvent → List ℕ
starts [] = []
starts (e ∷ es) = start_of e ++ starts es

starts-append :
    (es : List LifecycleEvent) (e : LifecycleEvent)
    → starts (es ++ e ∷ []) ≡ starts es ++ start_of e
starts-append [] e = append-nil (start_of e)
starts-append (x ∷ es) e = rw (starts-append es e, append_assoc)

pub starts-enqueue :
    (o : SendOutcome) (e : LifecycleEvent) (es : List LifecycleEvent)
    → start_of e ≡ []
    → starts (enqueue o e es) ≡ starts es
unfolding enqueue
starts-enqueue sent e es h = rw (starts-append es e, h) (append-nil (starts es))
starts-enqueue _ e es h = refl

-- The admission stays, or there is none, before and after.
abbrev pub Kept : Option Admission → Option Admission → Type 0
Kept none none = Unit
Kept (some a) (some b) = (b.attempt ≡ a.attempt) × (b.drain ≡ a.drain)
Kept _ _ = ⊥

pub request_disconnect-Kept :
    (o : SendOutcome) (l : Lifecycle)
    → let l' = (request_disconnect o l).0 in
      Kept l.current l'.current × (starts l'.events ≡ starts l.events)
unfolding request_disconnect
request_disconnect-Kept o l = elim (Option-cases l.current) [
  | inl e ↦ ground arith
  | inr (a, e) ↦ ground (arith, starts-enqueue o (stop a.attempt) l.events)
]

pub disconnect_and_wait-Kept :
    (o : SendOutcome) (l : Lifecycle)
    → let l' = (disconnect_and_wait o l).0 in
      Kept l.current l'.current × (starts l'.events ≡ starts l.events)
unfolding disconnect_and_wait
disconnect_and_wait-Kept o l = elim (Option-cases l.current) [
  | inl e ↦ ground arith
  | inr (a, e) ↦ ground (arith, starts-enqueue o (stop a.attempt) l.events)
]

pub close_admission-Kept :
    (l : Lifecycle)
    → let l' = close_admission l in Kept l.current l'.current × (l'.events ≡ l.events)
unfolding close_admission
close_admission-Kept l = ground arith

pub starts-enqueue_sent :
    (e : LifecycleEvent) (es : List LifecycleEvent)
    → starts (enqueue sent e es) ≡ starts es ++ start_of e
unfolding enqueue
starts-enqueue_sent e es = starts-append es e

-- A reservation is granted only if no admission is current.
pub reserve_connect-cases :
    (restart : Option (ℕ × Uuid)) (l : Lifecycle)
    → ((e : ServiceResult) × (reserve_connect restart l ≡ (l, err e)))
      ⊎ ((reserve_connect restart l ≡ (admit l, ok (new_reservation l))) × (l.current ≡ none))
unfolding reserve_connect
reserve_connect-cases restart l = elim (Bool-cases l.closed) [
  | inl e ↦ inl (rejected internal "VPN task is unavailable", rw e)
  | inr e ↦ elim (Option-cases l.current) [
    | inr (a, p) ↦ inl (rejected busy "A VPN connection is already in progress", rw (e, p))
    | inl p ↦ elim (Bool-cases (is_some restart && not (same_restart l.restart restart))) [
      | inl q ↦
          inl (rejected invalid_request "Reconnect request is no longer current", rw (e, p, q))
      | inr q ↦ inr (rw (e, p, q), p)
    ]
  ]
]

pub clear_attempt-current :
    (l : Lifecycle) (m : Admission)
    → l.current ≡ some m
    → let l' = clear_attempt m.attempt l in
      (l'.current ≡ none) × (l'.events ≡ l.events) × (is_complete l'.heap m.drain ≡ true)
unfolding clear_attempt complete
clear_attempt-current l m e = ground arith

pub drop_reservation-current :
    (o : SendOutcome) (r : ConnectReservation) (l : Lifecycle) (m : Admission)
    → l.current ≡ some m
    → r.attempt ≡ m.attempt
    → let l' = drop_reservation o r l in
      (l'.current ≡ none)
      × (starts l'.events ≡ starts l.events)
      × (is_complete l'.heap m.drain ≡ true)
unfolding drop_reservation complete
drop_reservation-current o r l m e h =
    ground (arith, starts-enqueue o preparation_released l.events)

-- A commit turns the reservation into a start in flight, or gives the admission up.
pub commit-cases :
    (o o' : SendOutcome) (r : ConnectReservation) (c : PreparedConnection) (uid : Option ℕ)
    (report : Option String) (session : Option Uuid) (l : Lifecycle) (m : Admission)
    → l.current ≡ some m
    → r.attempt ≡ m.attempt
    → let l' = (commit o o' r c uid report session l).0 in
      ((l'.current ≡ none)
        × (starts l'.events ≡ starts l.events)
        × (is_complete l'.heap m.drain ≡ true))
      ⊎ (Kept l.current l'.current
          × (l'.events ≡ enqueue sent (start r.attempt c uid report session) l.events))
unfolding commit
commit-cases o o' r c uid report session l m e h = ground (arith, drop_reservation-current o' r l m)

abbrev pub is_accepted : ServiceResult → Bool
is_accepted accepted = true
is_accepted (rejected code message) = false

-- The answer to a commit says whether its start is in flight.
pub commit-answered :
    (o o' : SendOutcome) (r : ConnectReservation) (c : PreparedConnection) (uid : Option ℕ)
    (report : Option String) (session : Option Uuid) (l : Lifecycle) (m : Admission)
    → l.current ≡ some m
    → r.attempt ≡ m.attempt
    → let (l', reply) = commit o o' r c uid report session l in
      ((is_accepted reply ≡ true)
        × Kept l.current l'.current
        × (starts l'.events ≡ starts l.events ++ m.attempt ∷ []))
      ⊎ ((is_accepted reply ≡ false)
          × (l'.current ≡ none)
          × (starts l'.events ≡ starts l.events)
          × (is_complete l'.heap m.drain ≡ true))
unfolding commit
commit-answered o o' r c uid report session l m e h = ground (
  arith,
  drop_reservation-current o' r l m,
  starts-enqueue_sent (start r.attempt c uid report session) l.events,
)
