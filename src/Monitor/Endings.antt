-- ===== src/Monitor/Endings.antt =====
-- After its end a tunnel's observation, of crates/gptunnel/src/monitor.rs, does not change.
use global_protect_openconne.Prelude.{
  ℕ, ◌≡◌, refl, Bool, true, false, Option, some, List, [], ◌∷◌, arith,
}
use global_protect_openconne.Monitor.{TunnelPhase, TunnelStatisticsState, Observation}
use global_protect_openconne.Monitor.State.{
  next_sequence, invalidated, count_statistics, invalidate_statistics, state_changed, enable,
  finish, elapsed_ms,
}
use global_protect_openconne.Monitor.Apply.{apply, observe}
use global_protect_openconne.Monitor.Sampling.{
  Move, observing, enabling, finishing, sampling, move, moves, request_sample,
}

module _ (C : Type 0) (same : Option C → Option C → Bool) where
  -- An observation that is finished is what every later move leaves.
  move-finished : (m : Move C) (o : Observation C) → o.finished ≡ true → move C same m o ≡ some o
  unfolding move observe apply enable finish request_sample
  move-finished (observing e now) o y = ground arith
  move-finished (enabling b) o y = ground arith
  move-finished (finishing now) o y = ground arith
  move-finished (sampling r now) o y = ground arith

  moves-finished :
      (ms : List (Move C)) (o : Observation C) → o.finished ≡ true → moves C same ms o ≡ some o
  unfolding moves
  moves-finished [] o y = refl
  moves-finished (m ∷ ms) o y = rw (move-finished m o y) (moves-finished ms o y)

  finish-ended :
      (now : ℕ) (o o' : Observation C) (later : ℕ)
      → o.finished ≡ false
      → finish C now o ≡ some o'
      → (o'.finished ≡ true)
        × (elapsed_ms C later o' ≡ elapsed_ms C now o)
        × (o'.state.phase ≡ TunnelPhase.ended)
        × (o'.statistics_state ≡ TunnelStatisticsState.ended)
  unfolding finish state_changed invalidate_statistics count_statistics next_sequence invalidated
      elapsed_ms
  finish-ended now o o' later n h = (ground arith, ground arith, ground arith, ground arith)

  -- What ends an observation makes it last: no later move changes it, its elapsed time is the one
  -- at the end, its phase and its statistics are ended.
  pub moves-finish :
      (now : ℕ) (o o' : Observation C) (ms : List (Move C)) (later : ℕ)
      → o.finished ≡ false
      → finish C now o ≡ some o'
      → (moves C same ms o' ≡ some o')
        × (elapsed_ms C later o' ≡ elapsed_ms C now o)
        × (o'.state.phase ≡ TunnelPhase.ended)
        × (o'.statistics_state ≡ TunnelStatisticsState.ended)
  moves-finish now o o' ms later n h =
      let (y, e, p, t) = finish-ended now o o' later n h in (moves-finished ms o' y, e, p, t)
