-- ===== src/Monitor/State.antt =====
-- The operations of `Observation` in crates/gptunnel/src/monitor.rs. `next_sequence` counts the
-- sequence up and returns it, so the operations that take it read it from the observation.
use global_protect_openconne.Prelude.{
  ◌>>=◌, ℕ, ◌-◌, Bool, true, false, ◌&&◌, ◌||◌, not, Option, none, some, if◌then◌else◌, is_some,
}
use global_protect_openconne.Monitor.{
  TunnelPhase, TunnelStatisticsState, TunnelStatistics, RetainedSample, Observation, TunnelUpdate,
  is_active, is_connected, millis, checked_succ, disabled, waiting, stale, unavailable,
}

-- `saturating_duration_since` is the subtraction that stops at 0.
abbrev elapsed_since : ℕ → Option ℕ → ℕ
elapsed_since now none = 0
elapsed_since now (some started) = millis (now - started)

abbrev same_enabled : Bool → Bool → Bool
same_enabled true b = b
same_enabled false b = not b

abbrev pub or_insert : ℕ → Option ℕ → Option ℕ
or_insert now none = some now
or_insert now (some started) = some started

module _ (C : Type 0) where
  unfoldable pub next_sequence : Observation C → Option (Observation C)
  next_sequence o = do n ← checked_succ o.sequence; some (record o { sequence = n })

  unfoldable pub elapsed_ms : ℕ → Observation C → ℕ
  elapsed_ms now o = elim o.ended_elapsed [
    | some elapsed ↦ elapsed
    | none ↦ elapsed_since now o.started
  ]

  unfoldable pub active : Observation C → Bool
  active o = not o.finished && is_connected o.state.phase && is_active o.state.transport

  unfoldable pub project : ℕ → Observation C → TunnelUpdate C
  project now o =
      let state = record o.state { elapsed_ms = elapsed_ms now o } in
      record {
        state = state;
        statistics = record {
          sequence = o.statistics_sequence;
          tunnel_id = state.tunnel_id;
          state_sequence = state.sequence;
          phase = state.phase;
          transport = state.transport;
          state = o.statistics_state;
          elapsed_ms = state.elapsed_ms;
          sample_age_ms = age now o.sample;
          sample = value o.sample;
        };
      }
    where
      age : ℕ → Option RetainedSample → Option ℕ
      age now none = none
      age now (some s) = some (millis (now - s.acquired))

      value : Option RetainedSample → Option TunnelStatistics
      value none = none
      value (some s) = some s.value

  unfoldable pub invalidated : Observation C → TunnelStatisticsState
  invalidated o =
      if o.finished
      then TunnelStatisticsState.ended
      else if not o.enabled
      then disabled
      else if is_some o.sample || not (active o)
      then stale
      else waiting

  -- The assignment `self.statistics_sequence = self.next_sequence()`.
  unfoldable pub count_statistics : Observation C → Option (Observation C)
  unfolding next_sequence
  count_statistics o = do
    o' ← next_sequence o
    some (record o' { statistics_sequence = o'.sequence })

  unfoldable pub invalidate_statistics : Observation C → Option (Observation C)
  unfolding invalidated count_statistics
  invalidate_statistics o = count_statistics (record o { statistics_state = invalidated o })

  unfoldable pub state_changed : Observation C → Option (Observation C)
  unfolding next_sequence invalidate_statistics
  state_changed o = do
    o' ← next_sequence o
    invalidate_statistics (record o' { state = record o'.state { sequence = o'.sequence } })

  -- The flag is whether anything was changed.
  unfoldable pub enable : Bool → Observation C → Option (Observation C × Bool)
  unfolding count_statistics
  enable enabled o = if o.finished || same_enabled o.enabled enabled then some (o, false) else do
    n ← checked_succ o.generation
    o' ← count_statistics (record o {
      enabled = enabled;
      generation = n;
      statistics_state = if enabled then waiting else disabled;
    })
    some (o', true)

  unfoldable pub finish : ℕ → Observation C → Option (Observation C)
  unfolding state_changed elapsed_ms
  finish now o =
      if o.finished
      then some o
      else state_changed (record o {
        ended_elapsed = some (elapsed_ms now o);
        finished = true;
        enabled = false;
        pending = none;
        state = record o.state { phase = TunnelPhase.ended; transport = unavailable };
      })
