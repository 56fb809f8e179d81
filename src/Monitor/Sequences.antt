-- ===== src/Monitor/Sequences.antt =====
-- The order of what the tunnel monitor of crates/gptunnel/src/monitor.rs reports.
use global_protect_openconne.Prelude.{
  ◌>>=◌, ℕ, ◌<◌, ◌≡◌, refl, ◌∙◌, ◌⊎◌, inl, inr, Bool, true, false, ◌||◌, not, Option, none, some,
  List, [], ◌∷◌, arith, Result, ok, err, if◌then◌else◌,
}
use global_protect_openconne.VpnState.{Uuid}
use global_protect_openconne.Monitor.{
  new, TunnelPhase, TunnelTransport, TunnelState, TunnelStatisticsState, RetainedSample, Statistics,
  Observation,
}
use global_protect_openconne.Monitor.State.{
  next_sequence, active, count_statistics, invalidate_statistics, state_changed, enable, finish,
  or_insert,
}
use global_protect_openconne.Monitor.Apply.{
  Event, configuration, established, reconnected, reconnecting, transport, statistics, ended,
  set_phase, accept_statistics, receive_statistics, change_configuration, change_transport, quietly,
  reconnect, handle, apply, observe, resumed,
}
use global_protect_openconne.Monitor.Sampling.{
  Move, observing, enabling, finishing, sampling, move, moves, mark_stale, request, await_answer,
  poll, request_sample,
}

module _ (C : Type 0) where
  -- What an observation reports, without the times.
  abbrev pub Visible : Type 0
  Visible = TunnelState C × TunnelStatisticsState × Option RetainedSample

  abbrev pub visible : Observation C → Visible
  visible o = (o.state, o.statistics_state, o.sample)

  -- Either the sequence is the same and so is what is reported, or the sequence is later; in both
  -- cases the statistics carry the last sequence.
  abbrev pub Advances : Observation C → Observation C → Type 0
  Advances o o' =
      (o'.statistics_sequence ≡ o'.sequence)
      × (((o'.sequence ≡ o.sequence) × (visible o' ≡ visible o)) ⊎ (o.sequence < o'.sequence))

  module _ (o o' : Observation C) where
    count_statistics-lem :
        count_statistics C o ≡ some o'
        → (o'.statistics_sequence ≡ o'.sequence) × (o.sequence < o'.sequence)
    unfolding count_statistics next_sequence
    count_statistics-lem h = ground arith

    state_changed-lem :
        state_changed C o ≡ some o'
        → (o'.statistics_sequence ≡ o'.sequence) × (o.sequence < o'.sequence)
    unfolding state_changed invalidate_statistics count_statistics next_sequence
    state_changed-lem h = ground arith

    accept_statistics-lem :
        (s : Statistics) (now : ℕ) (same : Option C → Option C → Bool)
        → accept_statistics C same s now o ≡ some o'
        → (o'.statistics_sequence ≡ o'.sequence) × (o.sequence < o'.sequence)
    unfolding accept_statistics next_sequence
    accept_statistics-lem s now same h = ground arith

  -- An operation that ends by counting up the sequence advances it.
  module _ (o q o' : Observation C) (same : q.sequence ≡ o.sequence) where
    counted-Advances : count_statistics C q ≡ some o' → Advances o o'
    counted-Advances h = let (a, b) = count_statistics-lem q o' h in (a, inr (rw (← same) b))

    changed-Advances : state_changed C q ≡ some o' → Advances o o'
    changed-Advances h = let (a, b) = state_changed-lem q o' h in (a, inr (rw (← same) b))

  -- A test that leaves the state as it is.
  pub if-some :
      {A : Type 0} (b : Bool) (z a : A) (k : Option A)
      → (if b then some z else k) ≡ some a
      → (z ≡ a) ⊎ (k ≡ some a)
  if-some true z a k h = inl (ground arith)
  if-some false z a k h = inr h

  pub bind-some :
      {A B : Type 0} (x : Option A) (f : A → Option B) (b : B)
      → (x >>= f) ≡ some b
      → (a : A) × (x ≡ some a) × (f a ≡ some b)
  bind-some {B = B} none f b h = let g : ◌≡◌ {A = Option B} none (some b) = h in cc
  bind-some (some a) f b h = (a, refl, h)

  module _ (o : Observation C) (counted : o.statistics_sequence ≡ o.sequence) where
    enable-Advances : (b : Bool) (p : Observation C × Bool) → enable C b o ≡ some p → Advances o p.0
    unfolding enable count_statistics next_sequence
    enable-Advances b p h = ground arith

    finish-Advances : (now : ℕ) (o' : Observation C) → finish C now o ≡ some o' → Advances o o'
    unfolding finish state_changed invalidate_statistics count_statistics next_sequence
    finish-Advances now o' h = ground arith

    mark_stale-Advances : (o' : Observation C) → mark_stale C o ≡ some o' → Advances o o'
    unfolding mark_stale count_statistics next_sequence
    mark_stale-Advances o' h = ground arith

    change_configuration-Advances :
        (same : Option C → Option C → Bool) (c : Option C) (p : Observation C × Bool × Bool)
        → change_configuration C same c o ≡ some p
        → Advances o p.0
    unfolding change_configuration state_changed invalidate_statistics count_statistics
        next_sequence
    change_configuration-Advances same c p h = ground arith

    change_transport-Advances :
        (same : Option C → Option C → Bool) (t : TunnelTransport) (p : Observation C × Bool × Bool)
        → change_transport C same t o ≡ some p
        → Advances o p.0
    unfolding change_transport state_changed invalidate_statistics count_statistics next_sequence
    change_transport-Advances same t p h = ground arith

    receive_statistics-Advances :
        (same : Option C → Option C → Bool) (s : Statistics) (now : ℕ) (o' : Observation C)
        → receive_statistics C same s now o ≡ some o'
        → Advances o o'
    unfolding receive_statistics accept_statistics next_sequence
    receive_statistics-Advances same s now o' h = ground arith

    set_phase-Advances :
        (same : Option C → Option C → Bool) (f : TunnelPhase) (o' : Observation C)
        → set_phase C same f o ≡ some o'
        → Advances o o'
    unfolding state_changed invalidate_statistics count_statistics next_sequence
    set_phase-Advances same f o' h = ground arith

  Advances-trans : (a b c : Observation C) → Advances a b → Advances b c → Advances a c
  Advances-trans a b c (_, inl (e, v)) (k, inl (f, w)) = (k, inl (f ∙ e, w ∙ v))
  Advances-trans a b c (_, inl (e, v)) (k, inr l) = (k, inr (rw (← e) l))
  Advances-trans a b c (_, inr l) (k, inl (f, w)) = (k, inr (rw f l))
  Advances-trans a b c (_, inr l) (k, inr m) = (k, inr (omega arith))

  module _ (same : Option C → Option C → Bool) where
    module _ (o : Observation C) (counted : o.statistics_sequence ≡ o.sequence) where
      quietly-Advances :
          (r : Option (Observation C)) (p : Observation C × Bool × Bool)
          → ((o' : Observation C) → r ≡ some o' → Advances o o')
          → quietly C same r ≡ some p
          → Advances o p.0
      unfolding quietly
      quietly-Advances (some a) p f h = let e : a ≡ p.0 = ground arith in rw (← e) (f a refl)
      quietly-Advances none p f h = ground arith

      stay-Advances : Advances o o
      stay-Advances = (counted, inl (refl, refl))

      reconnect-Advances : (o' : Observation C) → reconnect C same o ≡ some o' → Advances o o'
      unfolding reconnect state_changed invalidate_statistics count_statistics next_sequence
      reconnect-Advances o' h = ground arith

      poll-Advances :
          (r : Result (Unit {0}) Bool) (now : ℕ) (o' : Observation C)
          → poll C r now o ≡ some o'
          → Advances o o'
      unfolding poll await_answer request mark_stale count_statistics next_sequence
      poll-Advances (ok b) now o' h = ground arith
      poll-Advances (err e) now o' h = ground arith

    module _ (o : Observation C) (counted : o.statistics_sequence ≡ o.sequence) where
      handle-Advances :
          (e : Event C) (now : ℕ) (p : Observation C × Bool × Bool)
          → handle C same e now o ≡ some p
          → Advances o p.0
      unfolding handle
      handle-Advances (configuration c) now p h = change_configuration-Advances o counted same c p h
      handle-Advances established now p h =
          let q : Observation C = record o { started = or_insert now o.started } in
          let set = set_phase-Advances q counted same TunnelPhase.connected in
          quietly-Advances o counted _ p set h
      handle-Advances reconnected now p h =
          quietly-Advances o counted _ p (reconnect-Advances o counted) h
      handle-Advances reconnecting now p h =
          quietly-Advances o counted _ p (set_phase-Advances o counted same (resumed C same o)) h
      handle-Advances (transport t) now p h = change_transport-Advances o counted same t p h
      handle-Advances (statistics s) now p h =
          quietly-Advances o counted _ p (receive_statistics-Advances o counted same s now) h
      handle-Advances ended now p h =
          quietly-Advances o counted _ p (finish-Advances o counted now) h

      apply-Advances :
          (e : Event C) (now : ℕ) (p : Observation C × Bool × Bool)
          → apply C same e now o ≡ some p
          → Advances o p.0
      unfolding apply
      apply-Advances e now p h =
          elim (if-some o.finished (o, false, false) p (handle C same e now o) h) [
            | inl w ↦ rw (← w) (stay-Advances o counted)
            | inr k ↦ handle-Advances e now p k
          ]

      observe-Advances :
          (e : Event C) (now : ℕ) (p : Observation C × Bool)
          → observe C same e now o ≡ some p
          → Advances o p.0
      unfolding observe
      observe-Advances e now p h =
          let (q, u, v) = bind-some _ _ p h in
          let w : q.0 ≡ p.0 = ground arith in rw (← w) (apply-Advances e now q u)

      request_sample-Advances :
          (r : Result (Unit {0}) Bool) (now : ℕ) (p : Observation C × Bool)
          → request_sample C r now o ≡ some p
          → Advances o p.0
      unfolding request_sample
      request_sample-Advances r now p h = elim (if-some o.finished (o, false) p _ h) [
        | inl w ↦ rw (← w) (stay-Advances o counted)
        | inr k ↦ elim (if-some (not o.enabled || not (active C o)) (o, true) p _ k) [
          | inl w ↦ rw (← w) (stay-Advances o counted)
          | inr l ↦
              let (q, u, v) = bind-some _ _ p l in
              let w : q ≡ p.0 = ground arith in rw (← w) (poll-Advances o counted r now q u)
        ]
      ]

      move-Advances : (m : Move C) (o' : Observation C) → move C same m o ≡ some o' → Advances o o'
      unfolding move
      move-Advances (observing e now) o' h =
          let (p, u, v) = bind-some _ _ o' h in
          let w : p.0 ≡ o' = ground arith in rw (← w) (observe-Advances e now p u)
      move-Advances (enabling b) o' h =
          let (p, u, v) = bind-some _ _ o' h in
          let w : p.0 ≡ o' = ground arith in rw (← w) (enable-Advances o counted b p u)
      move-Advances (finishing now) o' h = finish-Advances o counted now o' h
      move-Advances (sampling r now) o' h =
          let (p, u, v) = bind-some _ _ o' h in
          let w : p.0 ≡ o' = ground arith in rw (← w) (request_sample-Advances r now p u)

    moves-Advances :
        (ms : List (Move C)) (o o' : Observation C)
        → o.statistics_sequence ≡ o.sequence
        → moves C same ms o ≡ some o'
        → Advances o o'
    unfolding moves
    moves-Advances [] o o' k h = let w : o ≡ o' = ground arith in rw (← w) (k, inl (refl, refl))
    moves-Advances (m ∷ ms) o o' k h =
        let (q, u, v) = bind-some _ _ o' h in
        let a = move-Advances o k m q u in Advances-trans o q o' a (moves-Advances ms q o' a.0 v)

    -- Of two reports on a tunnel, either the later has the larger statistics sequence, or both
    -- have the same one and show the same state, the same statistics state and the same sample.
    pub moves-same_report :
        (id : Uuid) (ms ms' : List (Move C)) (o o' : Observation C)
        → moves C same ms (new C id) ≡ some o
        → moves C same ms' o ≡ some o'
        → (o.statistics_sequence < o'.statistics_sequence)
          ⊎ ((o'.statistics_sequence ≡ o.statistics_sequence) × (visible o' ≡ visible o))
    unfolding new
    moves-same_report id ms ms' o o' h k =
        let (a, _) = moves-Advances ms (new C id) o refl h in
        let (b, c) = moves-Advances ms' o o' a k in
        elim c [ inl (e, v) ↦ inr (omega arith, v) | inr l ↦ inl (omega arith) ]
