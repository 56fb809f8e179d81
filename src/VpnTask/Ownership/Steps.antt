-- ===== src/VpnTask/Ownership/Steps.antt =====
-- Each step of the system keeps its admission in exactly one hand.
use Prim.Native.String.{String}
use global_protect_openconne.Prelude.{
  ℕ, ◌≡◌, refl, inl, inr, Option, none, some, List, [], ◌∷◌, ◌++◌, arith, Option-cases, ap, ◌∙◌,
  sym,
}
use global_protect_openconne.VpnState.{Uuid}
use global_protect_openconne.Lifecycle.{
  Admission, LifecycleEvent, start, ended, SendOutcome, sent, ConnectReservation,
  PreparedConnection,
}
use global_protect_openconne.Lifecycle.Laws.{
  start_of, starts, starts-enqueue, starts-enqueue_sent, reserve_connect-cases,
  drop_reservation-current, commit-cases, request_disconnect-Kept, disconnect_and_wait-Kept,
}
use global_protect_openconne.VpnTask.{SessionStore, ActiveAttempt, VpnTask}
use global_protect_openconne.VpnTask.System.{
  System, Label, reserve, commits, drops, disconnects, disconnects_and_waits, cancels, emits,
  delivers, joins, shuts_down, pick, step, deliver, stop_actor,
}
use global_protect_openconne.VpnTask.Picking.{starts-pick_nil, starts-pick_one}
use global_protect_openconne.VpnTask.Ownership.{
  Owner, nobody, reservation, queued, running, awaited, Kept-some, Owner-Kept, Owner-pick,
  admit-Owner,
}
use global_protect_openconne.VpnTask.Events.{handle_event}
use global_protect_openconne.VpnTask.EventLaws.{
  handle_event-Quiet, end_attempt-active, end_attempt-none, start_attempt-active,
  join_attempt-current, join_attempt-none, shut_down-Kept, SameAttempt, RunsUnder,
}

module _ {c : Option Admission} {rs : List ConnectReservation} where
  Owner-SameAttempt :
      {ss : List ℕ} {j : Option ActiveAttempt} (a b : Option ActiveAttempt)
      → SameAttempt a b
      → Owner c rs ss a j
      → Owner c rs ss b j
  Owner-SameAttempt none none k w = w
  Owner-SameAttempt none (some b) k w = absurd k
  Owner-SameAttempt (some a) none k w = absurd k
  Owner-SameAttempt (some a) (some b) k (nobody e r s x y) = cc
  Owner-SameAttempt (some a) (some b) k (reservation m r e ea ed er s x y) = cc
  Owner-SameAttempt (some a) (some b) k (queued m e r s x y) = cc
  Owner-SameAttempt (some a) (some b) k (running m v e ea ed er s x y) =
      running m b e (ground arith) (ground arith) er s refl y
  Owner-SameAttempt (some a) (some b) k (awaited m v e ea ed er s x y) = cc

  Owner-eq :
      {c' : Option Admission} {ss ss' : List ℕ} {a a' j j' : Option ActiveAttempt}
      → c' ≡ c
      → ss' ≡ ss
      → a' ≡ a
      → j' ≡ j
      → Owner c rs ss a j
      → Owner c' rs ss' a' j'
  Owner-eq p q r s w = rw (p, q, r, s) w

  -- The starts in flight may be read in another way.
  Owner-starts :
      {a j : Option ActiveAttempt} (ss ss' : List ℕ)
      → (ss ≡ [] → ss' ≡ [])
      → ((n : ℕ) → ss ≡ n ∷ [] → ss' ≡ n ∷ [])
      → Owner c rs ss a j
      → Owner c rs ss' a j
  Owner-starts ss ss' f g (nobody e r s x y) = nobody e r (f s) x y
  Owner-starts ss ss' f g (reservation m r e ea ed er s x y) = reservation m r e ea ed er (f s) x y
  Owner-starts ss ss' f g (queued m e r s x y) = queued m e r (g m.attempt s) x y
  Owner-starts ss ss' f g (running m v e ea ed er s x y) = running m v e ea ed er (f s) x y
  Owner-starts ss ss' f g (awaited m v e ea ed er s x y) = awaited m v e ea ed er (f s) x y

  Owner-deliver :
      {a j : Option ActiveAttempt} (k : ℕ) (es rest : List LifecycleEvent) (e : LifecycleEvent)
      → pick k es ≡ some (e, rest)
      → Owner c rs (starts es) a j
      → Owner c rs (start_of e ++ starts rest) a j
  Owner-deliver k es rest e p =
      Owner-starts (starts es) (start_of e ++ starts rest)
        (λ q. let (u, v) = starts-pick_nil k es rest e p q in rw (u, v))
        (λ n q. elim (starts-pick_one n k es rest e p q) [
          | inl (u, v) ↦ rw (u, v)
          | inr (u, v) ↦ rw (u, v)
        ])

  -- A start in flight leaves no other owner.
  Owner-start :
      {a j : Option ActiveAttempt} (n : ℕ) (ss : List ℕ)
      → Owner c rs (n ∷ ss) a j
      → (m : Admission) × (c ≡ some m)
        × (m.attempt ≡ n)
        × (rs ≡ [])
        × (ss ≡ [])
        × (a ≡ none)
        × (j ≡ none)
  Owner-start n ss (nobody e r s x y) = cc
  Owner-start n ss (reservation m r e ea ed er s x y) = cc
  Owner-start n ss (queued m e r s x y) = (m, e, ground arith, r, ground arith, x, y)
  Owner-start n ss (running m v e ea ed er s x y) = cc
  Owner-start n ss (awaited m v e ea ed er s x y) = cc

  Owner-awaited :
      {ss : List ℕ} {act : Option ActiveAttempt} (a : ActiveAttempt)
      → Owner c rs ss act (some a)
      → (m : Admission) × (c ≡ some m)
        × (a.attempt ≡ m.attempt)
        × (rs ≡ [])
        × (ss ≡ [])
        × (act ≡ none)
  Owner-awaited a (nobody e r s x y) = cc
  Owner-awaited a (reservation m r e ea ed er s x y) = cc
  Owner-awaited a (queued m e r s x y) = cc
  Owner-awaited a (running m v e ea ed er s x y) = cc
  Owner-awaited a (awaited m v e ea ed er s x y) = (m, e, ground arith, er, s, x)

  -- The active attempt's worker is awaited from now on.
  Owner-end :
      {ss : List ℕ} {j : Option ActiveAttempt} (a : ActiveAttempt)
      → Owner c rs ss (some a) j
      → Owner c rs ss none (some a)
  Owner-end a (nobody e r s x y) = cc
  Owner-end a (reservation m r e ea ed er s x y) = cc
  Owner-end a (queued m e r s x y) = cc
  Owner-end a (running m v e ea ed er s x y) =
      awaited m a e (ground arith) (ground arith) er s refl refl
  Owner-end a (awaited m v e ea ed er s x y) = cc

RunsUnder-some :
    {n d : ℕ} (o : Option ActiveAttempt)
    → RunsUnder n d o
    → (a : ActiveAttempt) × (o ≡ some a) × (a.attempt ≡ n) × (a.cancellation ≡ d)
RunsUnder-some none v = absurd v
RunsUnder-some (some a) v = (a, refl, v.0, v.1)

module _ (R : SessionStore) where
  -- Exactly one party is responsible for a current admission, under its token; none otherwise.
  abbrev pub Owned : System R → Type 0
  Owned s = Owner s.lifecycle.current s.reservations (starts s.lifecycle.events) s.active s.joining

  reserve-Owned :
      (fd : ℕ → String) (s : System R) (restart : Option (ℕ × Uuid))
      → Owned s
      → Owned (step R fd s (reserve restart))
  unfolding step
  reserve-Owned fd s restart w = elim (reserve_connect-cases restart s.lifecycle) [
    | inl (e, p) ↦ rw p w
    | inr (p, free) ↦ rw p (admit-Owner s.lifecycle free w)
  ]

  drops-Owned :
      (fd : ℕ → String) (s : System R) (k : ℕ) (o : SendOutcome)
      → Owned s
      → Owned (step R fd s (drops k o))
  unfolding step
  drops-Owned fd s k o w = elim (Option-cases (pick k s.reservations)) [
    | inl p ↦ rw (p, step) w
    | inr ((r, rest), p) ↦
        let (m, e, h) = Owner-pick k r p w in
        let (x, y, z) = drop_reservation-current o r s.lifecycle m e h.0 in
        rw (p, step) (nobody x h.2 (y ∙ h.3) h.4 h.5)
  ]

  commits-Owned :
      (fd : ℕ → String) (s : System R) (k : ℕ) (o o' : SendOutcome) (c : PreparedConnection)
      (uid : Option ℕ) (report : Option String) (session : Option Uuid)
      → Owned s
      → Owned (step R fd s (commits k o o' c uid report session))
  unfolding step
  commits-Owned fd s k o o' c uid report session w = elim (Option-cases (pick k s.reservations)) [
    | inl p ↦ rw (p, step) w
    | inr ((r, rest), p) ↦
        let (m, e, h) = Owner-pick k r p w in
        elim (commit-cases o o' r c uid report session s.lifecycle m e h.0) [
          | inl (x, y, z) ↦ rw (p, step) (nobody x h.2 (y ∙ h.3) h.4 h.5)
          | inr (x, y) ↦
              let (m', e', ea', ed') = Kept-some _ _ m x e in
              rw (p, step)
                (queued m' e' h.2
                  (ap starts y
                    ∙ starts-enqueue_sent (start r.attempt c uid report session) s.lifecycle.events
                    ∙ rw (h.3, h.0, ea'))
                  h.4 h.5)
        ]
  ]

  disconnects-Owned :
      (fd : ℕ → String) (s : System R) (o : SendOutcome)
      → Owned s
      → Owned (step R fd s (disconnects o))
  unfolding step
  disconnects-Owned fd s o w =
      let (k, q) = request_disconnect-Kept o s.lifecycle in rw q (Owner-Kept _ _ k w)

  disconnects_and_waits-Owned :
      (fd : ℕ → String) (s : System R) (o : SendOutcome)
      → Owned s
      → Owned (step R fd s (disconnects_and_waits o))
  unfolding step
  disconnects_and_waits-Owned fd s o w =
      let (k, q) = disconnect_and_wait-Kept o s.lifecycle in rw q (Owner-Kept _ _ k w)

  emits-Owned :
      (fd : ℕ → String) (s : System R) (e : LifecycleEvent)
      → Owned s
      → Owned (step R fd s (emits e))
  unfolding step
  emits-Owned fd s (start n c uid report session) w = w
  emits-Owned fd s e w = rw (starts-enqueue sent e s.lifecycle.events refl) w

  handle_event-Owner :
      (fd : ℕ → String) (now : ℕ) (e : LifecycleEvent) (t : VpnTask R)
      (rs : List ConnectReservation)
      → let u = handle_event R fd now e t in
        Owner t.lifecycle.current rs (start_of e ++ starts t.lifecycle.events) t.active t.joining
        → Owner u.lifecycle.current rs (starts u.lifecycle.events) u.active u.joining
  unfolding handle_event
  handle_event-Owner fd now (start n c uid report session) t rs w =
      let (m, e, h, r, s, x, y) = Owner-start n (starts t.lifecycle.events) w in
      let (k, v, y', q) = start_attempt-active R n c session t m e h in
      let (m', e', ea, ed) = Kept-some _ _ m k e in
      let (a, p, pa, pd) = RunsUnder-some _ v in
      running m' a e' (cc) (cc) r (ap starts q ∙ s) p (y' ∙ y)
  handle_event-Owner fd now (ended n) t rs w = elim (Option-cases t.active) [
    | inl x ↦ rw (end_attempt-none R n t x) w
    | inr (a, x) ↦
        let (l, cases) = end_attempt-active R n t a x in
        let c : _ = ap (λ l. l.current) l in
        let q : _ = ap (λ l. starts l.events) l in
        elim cases [
          | inl (p, j) ↦ Owner-eq c q (p ∙ sym x) j w
          | inr (p, j) ↦ Owner-eq c q p j (Owner-end a (Owner-eq refl refl (sym x) refl w))
        ]
  ]
  handle_event-Owner fd now e t rs w =
      let (c, q, a, j) = handle_event-Quiet R fd now e t refl refl in
      Owner-eq c (ap starts q) refl j (Owner-SameAttempt t.active _ a w)

  deliver-Owned :
      (fd : ℕ → String) (s : System R) (k now : ℕ) (j : Option ActiveAttempt)
      (p : Option (LifecycleEvent × List LifecycleEvent))
      → pick k s.lifecycle.events ≡ p
      → Owned s
      → Owned (deliver R fd now j p s)
  unfolding deliver
  deliver-Owned fd s k now (some _) p e w = w
  deliver-Owned fd s k now none none e w = w
  deliver-Owned fd s k now none (some (e, rest)) q w =
      handle_event-Owner fd now e
        (record (s.task) { lifecycle = record (s.lifecycle) { events = rest } }) s.reservations
        (Owner-deliver k s.lifecycle.events rest e q w)

  joins-Owned : (fd : ℕ → String) (s : System R) → Owned s → Owned (step R fd s joins)
  unfolding step
  joins-Owned fd s w = elim (Option-cases s.joining) [
    | inl j ↦ rw (join_attempt-none R s.task j) w
    | inr (a, j) ↦
        let (m, e, h, r, q, x) = Owner-awaited a (Owner-eq refl refl refl (sym j) w) in
        let (c, es, ac, jn, _) = join_attempt-current R s.task m a e j h in
        nobody c r (ap starts es ∙ q) (ac ∙ x) jn
  ]

  stop_actor-Owned : (s : System R) (j : Option ActiveAttempt) → Owned s → Owned (stop_actor R j s)
  unfolding stop_actor
  stop_actor-Owned s (some _) w = w
  stop_actor-Owned s none w =
      let (k, q, a, y) = shut_down-Kept R s.task in
      Owner-eq refl (ap starts q) a y (Owner-Kept _ _ k w)

  -- Every step of the system keeps the admission in one hand.
  pub step-Owned :
      (fd : ℕ → String) (s : System R) (lab : Label) → Owned s → Owned (step R fd s lab)
  unfolding step
  step-Owned fd s (reserve restart) w = reserve-Owned fd s restart w
  step-Owned fd s (commits k o o' c uid report session) w =
      commits-Owned fd s k o o' c uid report session w
  step-Owned fd s (drops k o) w = drops-Owned fd s k o w
  step-Owned fd s (disconnects o) w = disconnects-Owned fd s o w
  step-Owned fd s (disconnects_and_waits o) w = disconnects_and_waits-Owned fd s o w
  step-Owned fd s (cancels a) w = w
  step-Owned fd s (emits e) w = emits-Owned fd s e w
  step-Owned fd s (delivers k now) w =
      deliver-Owned fd s k now s.joining (pick k s.lifecycle.events) refl w
  step-Owned fd s joins w = joins-Owned fd s w
  step-Owned fd s shuts_down w = stop_actor-Owned s s.joining w
