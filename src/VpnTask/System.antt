-- ===== src/VpnTask/System.antt =====
-- The actor together with the threads around it: the reservations that request handlers hold, the
-- workers that send events, and the sessions that cancel an attempt. A `Label` is one atomic step;
-- a schedule is a list of them, so every interleaving is a schedule. Which event in flight the
-- actor receives next is the label's choice.
use Prim.Native.String.{String}
use global_protect_openconne.Prelude.{
  ℕ, zero, suc, Bool, true, false, Option, none, some, List, [], ◌∷◌, Result, ok, err,
  if◌then◌else◌,
}
use global_protect_openconne.Drain.{cancel, empty_heap}
use global_protect_openconne.VpnState.{Uuid, VpnState}
use global_protect_openconne.Lifecycle.{
  Lifecycle, LifecycleEvent, start, PreparedConnection, ServiceResult, ConnectReservation,
  SendOutcome, sent, reserve_connect, commit, drop_reservation, request_disconnect,
  disconnect_and_wait, try_send,
}
use global_protect_openconne.VpnTask.{SessionStore, ActiveAttempt, VpnTask}
use global_protect_openconne.VpnTask.Finish.{join_attempt}
use global_protect_openconne.VpnTask.Events.{handle_event, shut_down}

-- The element at an index, and the list without it.
unfoldable pub pick {ℓ} : {A : Type ℓ} → ℕ → List A → Option (A × List A)
pick k [] = none
pick zero (x ∷ xs) = some (x, xs)
pick (suc k) (x ∷ xs) = elim (pick k xs) [ none ↦ none | some (y, ys) ↦ some (y, x ∷ ys) ]

pub data Label : Type 0 where
  reserve : (restart : Option (ℕ × Uuid)) → Label
  commits :
      (k : ℕ) (o o' : SendOutcome) (c : PreparedConnection) (uid : Option ℕ)
      (report : Option String) (session : Option Uuid)
      → Label
  drops : (k : ℕ) (o : SendOutcome) → Label
  disconnects : (o : SendOutcome) → Label
  disconnects_and_waits : (o : SendOutcome) → Label
  cancels : (address : ℕ) → Label
  emits : (e : LifecycleEvent) → Label
  delivers : (k : ℕ) (now : ℕ) → Label
  joins : Label
  shuts_down : Label

abbrev pub is_start : LifecycleEvent → Bool
is_start (start _ _ _ _ _) = true
is_start _ = false

module _ (R : SessionStore) where
  open R use {Store}

  pub record System : Type 0 where
    pub task : VpnTask R
    pub open task use *
    pub reservations : List ConnectReservation

  abbrev pub set_lifecycle : System → Lifecycle → System
  set_lifecycle s l = record s { task = record (s.task) { lifecycle = l } }

  abbrev reserved : System → Lifecycle × Result ServiceResult ConnectReservation → System
  reserved s (l, ok r) = record s {
    task = record (s.task) { lifecycle = l };
    reservations = r ∷ s.reservations;
  }
  reserved s (l, err e) = set_lifecycle s l

  -- A held reservation is consumed by a call.
  unfoldable pub consume :
      Option (ConnectReservation × List ConnectReservation)
      → System
      → (ConnectReservation → Lifecycle → Lifecycle)
      → System
  consume none s f = s
  consume (some (r, rest)) s f = record s {
    task = record (s.task) { lifecycle = f r s.lifecycle };
    reservations = rest;
  }

  -- The actor receives nothing while it waits for a worker.
  unfoldable pub deliver :
      (ℕ → String)
      → ℕ
      → Option ActiveAttempt
      → Option (LifecycleEvent × List LifecycleEvent)
      → System
      → System
  deliver fd now (some _) p s = s
  deliver fd now none none s = s
  deliver fd now none (some (e, rest)) s = record s {
    task =
        handle_event R fd now e
          (record (s.task) { lifecycle = record (s.lifecycle) { events = rest } });
  }

  unfoldable pub stop_actor : Option ActiveAttempt → System → System
  stop_actor (some _) s = s
  stop_actor none s = record s { task = shut_down R s.task }

  -- Workers send every kind of event but `Start`.
  unfoldable pub step : (ℕ → String) → System → Label → System
  unfolding consume deliver stop_actor
  step fd s (reserve restart) = reserved s (reserve_connect restart s.lifecycle)
  step fd s (commits k o o' c uid report session) =
      consume (pick k s.reservations) s (λ r l. (commit o o' r c uid report session l).0)
  step fd s (drops k o) = consume (pick k s.reservations) s (drop_reservation o)
  step fd s (disconnects o) = set_lifecycle s (request_disconnect o s.lifecycle).0
  step fd s (disconnects_and_waits o) = set_lifecycle s (disconnect_and_wait o s.lifecycle).0
  step fd s (cancels a) =
      set_lifecycle s (record (s.lifecycle) { heap = cancel a s.lifecycle.heap })
  step fd s (emits e) = if is_start e then s else set_lifecycle s (try_send sent e s.lifecycle)
  step fd s (delivers k now) = deliver fd now s.joining (pick k s.lifecycle.events) s
  step fd s joins = record s { task = join_attempt R s.task }
  step fd s shuts_down = stop_actor s.joining s

  unfoldable pub run : (ℕ → String) → System → List Label → System
  run fd s [] = s
  run fd s (lab ∷ labs) = run fd (step fd s lab) labs

  -- `VpnTask::new`, with the state channel that it is given.
  unfoldable pub new : VpnState → Bool → Store → System
  unfolding empty_heap
  new state watched store = record {
    task = record {
      lifecycle = record {
        admissions = record { closed = false; next_attempt = 0; current = none; restart = none };
        heap = empty_heap;
        events = [];
        tunnel = record { attempt = 0; monitor = none; non_tunnel = false };
        state = state;
        watched = watched;
      };
      registry = store;
      active = none;
      joining = none;
    };
    reservations = [];
  }
