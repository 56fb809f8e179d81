-- ===== src/VpnTask/Ownership.antt =====
-- Who is responsible for the current admission: a reservation, a `Start` event in flight, the
-- active attempt, or the attempt whose worker is awaited.
pub mod Steps
pub mod Runs
use Prim.Native.String.{String}
use global_protect_openconne.Prelude.{
  ℕ, ◌≡◌, refl, Bool, true, false, ◌⊎◌, inl, inr, Option, none, some, List, [], ◌∷◌, ◌++◌, arith,
  Option-cases, Bool-cases,
}
use global_protect_openconne.VpnState.{Uuid}
use global_protect_openconne.Lifecycle.{
  Lifecycle, Admission, LifecycleEvent, start, SendOutcome, sent, ConnectReservation,
  PreparedConnection, admit, new_reservation, new_admission, commit,
}
use global_protect_openconne.Lifecycle.Laws.{
  start_of, starts, starts-enqueue, starts-enqueue_sent, Kept, reserve_connect-cases,
  drop_reservation-current, commit-cases, request_disconnect-Kept, disconnect_and_wait-Kept,
  close_admission-Kept,
}
use global_protect_openconne.VpnTask.{SessionStore, ActiveAttempt, VpnTask}
use global_protect_openconne.VpnTask.System.{
  System, Label, reserve, commits, drops, disconnects, disconnects_and_waits, cancels, emits,
  delivers, joins, shuts_down, pick, is_start, step, run,
}
use global_protect_openconne.VpnTask.Picking.{pick-one, pick-nil, starts-pick_nil, starts-pick_one}
use global_protect_openconne.VpnTask.EventLaws.{SameAttempt, RunsUnder}

-- The admission, the reservations, the starts in flight, the active and the awaited attempt.
pub data Owner (c : Option Admission) (rs : List ConnectReservation) (ss : List ℕ)
    (act join : Option ActiveAttempt) : Type 0 where
  nobody : c ≡ none → rs ≡ [] → ss ≡ [] → act ≡ none → join ≡ none → Owner c rs ss act join
  reservation :
      (m : Admission) (r : ConnectReservation)
      → c ≡ some m
      → r.attempt ≡ m.attempt
      → r.drain ≡ m.drain
      → rs ≡ r ∷ []
      → ss ≡ []
      → act ≡ none
      → join ≡ none
      → Owner c rs ss act join
  queued :
      (m : Admission)
      → c ≡ some m
      → rs ≡ []
      → ss ≡ m.attempt ∷ []
      → act ≡ none
      → join ≡ none
      → Owner c rs ss act join
  running :
      (m : Admission) (a : ActiveAttempt)
      → c ≡ some m
      → a.attempt ≡ m.attempt
      → a.cancellation ≡ m.drain
      → rs ≡ []
      → ss ≡ []
      → act ≡ some a
      → join ≡ none
      → Owner c rs ss act join
  awaited :
      (m : Admission) (a : ActiveAttempt)
      → c ≡ some m
      → a.attempt ≡ m.attempt
      → a.cancellation ≡ m.drain
      → rs ≡ []
      → ss ≡ []
      → act ≡ none
      → join ≡ some a
      → Owner c rs ss act join

pub Kept-some :
    (c c' : Option Admission) (m : Admission)
    → Kept c c'
    → c ≡ some m
    → (m' : Admission) × (c' ≡ some m') × (m'.attempt ≡ m.attempt) × (m'.drain ≡ m.drain)
Kept-some none c' m k e = cc
Kept-some (some a) none m k e = absurd k
Kept-some (some a) (some b) m k e = (b, refl, ground arith, ground arith)

pub Kept-none : (c c' : Option Admission) → Kept c c' → c ≡ none → c' ≡ none
Kept-none none none k e = refl
Kept-none none (some b) k e = absurd k
Kept-none (some a) c' k e = cc

module _ {rs : List ConnectReservation} {ss : List ℕ} {act join : Option ActiveAttempt} where
  pub Owner-Kept :
      (c c' : Option Admission) → Kept c c' → Owner c rs ss act join → Owner c' rs ss act join
  Owner-Kept c c' k (nobody e r s a j) = nobody (Kept-none c c' k e) r s a j
  Owner-Kept c c' k (reservation m r e ea ed er es a j) =
      let (m', e', ea', ed') = Kept-some c c' m k e in reservation m' r e' (cc) (cc) er es a j
  Owner-Kept c c' k (queued m e r s a j) =
      let (m', e', ea', ed') = Kept-some c c' m k e in queued m' e' r (cc) a j
  Owner-Kept c c' k (running m v e ea ed er es a j) =
      let (m', e', ea', ed') = Kept-some c c' m k e in running m' v e' (cc) (cc) er es a j
  Owner-Kept c c' k (awaited m v e ea ed er es a j) =
      let (m', e', ea', ed') = Kept-some c c' m k e in awaited m' v e' (cc) (cc) er es a j

-- The reservation is the admission's, and nobody else is responsible for it.
abbrev pub Holds :
    Admission
    → ConnectReservation
    → List ConnectReservation
    → List ℕ
    → Option ActiveAttempt
    → Option ActiveAttempt
    → Type 0
Holds m r rest ss act join =
    (r.attempt ≡ m.attempt)
    × (r.drain ≡ m.drain)
    × (rest ≡ [])
    × (ss ≡ [])
    × (act ≡ none)
    × (join ≡ none)

module _ {c : Option Admission} {rs rest : List ConnectReservation} {ss : List ℕ}
    {act join : Option ActiveAttempt} (k : ℕ) (r : ConnectReservation)
    (p : pick k rs ≡ some (r, rest)) where
  pub Owner-pick :
      Owner c rs ss act join → (m : Admission) × (c ≡ some m) × Holds m r rest ss act join
  Owner-pick (nobody e er s a j) = absurd (pick-nil k r rest (rw er at p))
  Owner-pick (reservation m r' e ea ed er s a j) =
      let (u, v) = pick-one k r' r rest (rw er at p) in (m, e, (rw u ea, rw u ed, v, s, a, j))
  Owner-pick (queued m e er s a j) = absurd (pick-nil k r rest (rw er at p))
  Owner-pick (running m v e ea ed er s a j) = absurd (pick-nil k r rest (rw er at p))
  Owner-pick (awaited m v e ea ed er s a j) = absurd (pick-nil k r rest (rw er at p))

-- A free lifecycle has no owner, so a new admission's reservation is its only one.
pub admit-Owner :
    {rs : List ConnectReservation} {act join : Option ActiveAttempt} (l : Lifecycle)
    → l.current ≡ none
    → Owner l.current rs (starts l.events) act join
    → Owner (admit l).current (new_reservation l ∷ rs) (starts (admit l).events) act join
unfolding admit
admit-Owner l f (nobody e er s a j) =
    reservation (new_admission l) (new_reservation l) refl refl refl (rw er) s a j
admit-Owner l f (reservation m r e ea ed er s a j) = cc
admit-Owner l f (queued m e er s a j) = cc
admit-Owner l f (running m v e ea ed er s a j) = cc
admit-Owner l f (awaited m v e ea ed er s a j) = cc
