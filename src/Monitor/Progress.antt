-- ===== src/Monitor/Progress.antt =====
-- How long the counters of crates/gptunnel/src/monitor.rs last: they are counted up by
-- `checked_add`, and a count past the last 64-bit number panics.
use global_protect_openconne.Prelude.{
  suc, length, is_some, ◌>>=◌, if◌then◌else◌, ◌+◌, ◌*◌, ◌<◌, ◌^◌, ℕ, ◌≡◌, refl, Bool, true, false,
  ◌||◌, not, Option, none, some, List, [], ◌∷◌, arith, Result, ok, err,
}
use global_protect_openconne.VpnState.{Uuid}
use global_protect_openconne.Monitor.{new, TunnelPhase, TunnelTransport, Statistics, Observation}
use global_protect_openconne.Monitor.State.{
  next_sequence, active, count_statistics, invalidate_statistics, state_changed, enable, finish,
  or_insert,
}
use global_protect_openconne.Monitor.Apply.{
  Event, configuration, established, reconnected, reconnecting, transport, statistics, ended,
  set_phase, accept_statistics, receive_statistics, change_configuration, change_transport, quietly,
  reconnect, handle, apply, observe, resumed,
}
use global_protect_openconne.Monitor.Sampling.{
  Move, observing, enabling, finishing, sampling, move, moves, mark_stale, request, await_answer,
  poll, request_sample,
}

module _ (C : Type 0) (same : Option C → Option C → Bool) where
  -- Room for that many moves: a move counts the sequence up at most twice, and the generation and
  -- the revision at most once.
  abbrev pub HasRoom : ℕ → Observation C → Type 0
  HasRoom k o =
      (o.sequence + 2 * k < 2 ^ 64)
      × (o.generation + k < 2 ^ 64)
      × (o.state.configuration_revision + k < 2 ^ 64)

  -- A result that is no panic and leaves room for that many moves.
  abbrev pub Leaves : ℕ → Option (Observation C) → Type 0
  Leaves k none = ⊥
  Leaves k (some o) = HasRoom k o

  abbrev pub first : {B : Type 0} → Option (Observation C × B) → Option (Observation C)
  first none = none
  first (some (o, _)) = some o

  -- The same for an operation that also says what is logged.
  abbrev pub logged : Option (Observation C × Bool × Bool) → Option (Observation C)
  logged none = none
  logged (some (o, _, _)) = some o

  module _ (k : ℕ) (o : Observation C) (room : HasRoom (suc k) o) where
    enable-Leaves : (b : Bool) → Leaves k (first (enable C b o))
    unfolding enable count_statistics next_sequence
    enable-Leaves b = ground arith

    finish-Leaves : (now : ℕ) → Leaves k (finish C now o)
    unfolding finish state_changed invalidate_statistics count_statistics next_sequence
    finish-Leaves now = ground arith

    change_configuration-Leaves :
        (c : Option C) → Leaves k (logged (change_configuration C same c o))
    unfolding change_configuration state_changed invalidate_statistics count_statistics
        next_sequence
    change_configuration-Leaves c = ground arith

    change_transport-Leaves :
        (t : TunnelTransport) → Leaves k (logged (change_transport C same t o))
    unfolding change_transport state_changed invalidate_statistics count_statistics next_sequence
    change_transport-Leaves t = ground arith

    receive_statistics-Leaves :
        (s : Statistics) (now : ℕ) → Leaves k (receive_statistics C same s now o)
    unfolding receive_statistics accept_statistics next_sequence
    receive_statistics-Leaves s now = ground arith

    set_phase-Leaves : (f : TunnelPhase) → Leaves k (set_phase C same f o)
    unfolding state_changed invalidate_statistics count_statistics next_sequence
    set_phase-Leaves f = ground arith

    reconnect-Leaves : Leaves k (reconnect C same o)
    unfolding reconnect state_changed invalidate_statistics count_statistics next_sequence
    reconnect-Leaves = ground arith

    poll-Leaves : (r : Result (Unit {0}) Bool) (now : ℕ) → Leaves k (poll C r now o)
    unfolding poll await_answer request mark_stale count_statistics next_sequence
    poll-Leaves (ok b) now = ground arith
    poll-Leaves (err e) now = ground arith

  more-HasRoom : (k : ℕ) (o : Observation C) → HasRoom (suc k) o → HasRoom k o
  more-HasRoom k o r = (omega arith, omega arith, omega arith)

  quietly-logged : (r : Option (Observation C)) → logged (quietly C same r) ≡ r
  unfolding quietly
  quietly-logged none = refl
  quietly-logged (some o) = refl

  module _ (k : ℕ) where
    handle-Leaves :
        (o : Observation C) (room : HasRoom (suc k) o) (e : Event C) (now : ℕ)
        → Leaves k (logged (handle C same e now o))
    unfolding handle
    handle-Leaves o room (configuration c) now = change_configuration-Leaves k o room c
    handle-Leaves o room established now =
        let q : Observation C = record o { started = or_insert now o.started } in
        rw (quietly-logged (set_phase C same TunnelPhase.connected q))
          (set_phase-Leaves k q room TunnelPhase.connected)
    handle-Leaves o room reconnected now =
        rw (quietly-logged (reconnect C same o)) (reconnect-Leaves k o room)
    handle-Leaves o room reconnecting now =
        rw (quietly-logged (set_phase C same (resumed C same o) o))
          (set_phase-Leaves k o room (resumed C same o))
    handle-Leaves o room (transport t) now = change_transport-Leaves k o room t
    handle-Leaves o room (statistics s) now =
        rw (quietly-logged (receive_statistics C same s now o))
          (receive_statistics-Leaves k o room s now)
    handle-Leaves o room ended now =
        rw (quietly-logged (finish C now o)) (finish-Leaves k o room now)

    if-Leaves :
        {B : Type 0} (b : Bool) (o : Observation C) (x : B) (r : Option (Observation C × B))
        → HasRoom k o
        → Leaves k (first r)
        → Leaves k (first (if b then some (o, x) else r))
    if-Leaves true o x r h l = h
    if-Leaves false o x r h l = l

    if_logged-Leaves :
        (b : Bool) (o : Observation C) (r : Option (Observation C × Bool × Bool))
        → HasRoom k o
        → Leaves k (logged r)
        → Leaves k (logged (if b then some (o, false, false) else r))
    if_logged-Leaves true o r h l = h
    if_logged-Leaves false o r h l = l

    apply-Leaves :
        (o : Observation C) (room : HasRoom (suc k) o) (e : Event C) (now : ℕ)
        → Leaves k (logged (apply C same e now o))
    unfolding apply
    apply-Leaves o room e now =
        if_logged-Leaves o.finished o (handle C same e now o) (more-HasRoom k o room)
          (handle-Leaves o room e now)

    -- A step that keeps the observation of another and adds a result.
    bind-Leaves :
        {B : Type 0} (r : Option (Observation C × Bool × Bool))
        (f : Observation C × Bool × Bool → B)
        → Leaves k (logged r)
        → Leaves k (first (r >>= λ p. some (p.0, f p)))
    bind-Leaves (some p) f h = h
    bind-Leaves none f h = h

    bind_only-Leaves :
        {A : Type 0} (r : Option (Observation C × A))
        → Leaves k (first r)
        → Leaves k (r >>= λ p. some p.0)
    bind_only-Leaves (some p) h = h
    bind_only-Leaves none h = h

    bind_with-Leaves :
        {A : Type 0} (r : Option (Observation C)) (x : A)
        → Leaves k r
        → Leaves k (first (r >>= λ o. some (o, x)))
    bind_with-Leaves (some p) x h = h
    bind_with-Leaves none x h = h

    request_sample-Leaves :
        (o : Observation C) (room : HasRoom (suc k) o) (r : Result (Unit {0}) Bool) (now : ℕ)
        → Leaves k (first (request_sample C r now o))
    unfolding request_sample
    request_sample-Leaves o room r now =
        let more = more-HasRoom k o room in
        if-Leaves o.finished o false _ more (
          if-Leaves (not o.enabled || not (active C o)) o true _ more
            (bind_with-Leaves (poll C r now o) true (poll-Leaves k o room r now)))

    move-Leaves :
        (o : Observation C) (room : HasRoom (suc k) o) (m : Move C) → Leaves k (move C same m o)
    unfolding move observe
    move-Leaves o room (observing e now) =
        bind_only-Leaves (observe C same e now o)
          (bind-Leaves (apply C same e now o) _ (apply-Leaves o room e now))
    move-Leaves o room (enabling b) = bind_only-Leaves (enable C b o) (enable-Leaves k o room b)
    move-Leaves o room (finishing now) = finish-Leaves k o room now
    move-Leaves o room (sampling r now) =
        bind_only-Leaves (request_sample C r now o) (request_sample-Leaves o room r now)

  go_on :
      (k : ℕ) (ms : List (Move C)) (r : Option (Observation C))
      → ((q : Observation C) → HasRoom k q → is_some (moves C same ms q) ≡ true)
      → Leaves k r
      → is_some (r >>= moves C same ms) ≡ true
  go_on k ms none f h = absurd h
  go_on k ms (some q) f h = f q h

  moves-Leaves :
      (ms : List (Move C)) (o : Observation C)
      → HasRoom (length ms) o
      → is_some (moves C same ms o) ≡ true
  unfolding moves
  moves-Leaves [] o room = refl
  moves-Leaves (m ∷ ms) o room =
      go_on (length ms) ms (move C same m o) (moves-Leaves ms) (move-Leaves (length ms) o room m)

  -- No counter panics within the first 2 ^ 62 operations on a new tunnel, whatever they are.
  pub moves-no_panic :
      (id : Uuid) (ms : List (Move C))
      → length ms < 2 ^ 62
      → is_some (moves C same ms (new C id)) ≡ true
  unfolding new
  moves-no_panic id ms h = moves-Leaves ms (new C id) (omega arith, omega arith, omega arith)
