-- ===== src/Monitor/Freshness.antt =====
-- The statistics that the monitor of crates/gptunnel/src/monitor.rs shows as fresh.
use global_protect_openconne.Prelude.{◌≡◌, Bool, true, false, Option, some, arith}
use global_protect_openconne.Monitor.{Observation, is_fresh}
use global_protect_openconne.Monitor.State.{
  next_sequence, active, invalidated, count_statistics, invalidate_statistics, state_changed,
}
use global_protect_openconne.Monitor.Apply.{is_retained}
use global_protect_openconne.Monitor.Sampling.{mark_stale}

module _ (C : Type 0) (same : Option C → Option C → Bool) where
  -- Fresh statistics are those of the state that stands, on a tunnel that is up.
  abbrev pub IsFresh : Observation C → Type 0
  IsFresh o =
      is_fresh o.statistics_state ≡ true
      → (is_retained C same o o.sample ≡ true) × (o.enabled ≡ true) × (active C o ≡ true)

  -- A change of the state leaves no statistics fresh.
  state_changed-IsFresh : (o o' : Observation C) → state_changed C o ≡ some o' → IsFresh o'
  unfolding state_changed invalidate_statistics count_statistics next_sequence invalidated
  state_changed-IsFresh o o' h k =
      let n : is_fresh o'.statistics_state ≡ false = ground arith in
      let g : false ≡ true = rw n at k in cc

  mark_stale-IsFresh : (o o' : Observation C) → mark_stale C o ≡ some o' → IsFresh o'
  unfolding mark_stale count_statistics next_sequence
  mark_stale-IsFresh o o' h k = ground arith
