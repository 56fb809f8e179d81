-- ===== src/Monitor/Sampling.antt =====
-- The sampler's requests for statistics in crates/gptunnel/src/monitor.rs, and every move of an
-- observation. What `Vpn::request_statistics` of the openconnect crate returns is an argument.
use global_protect_openconne.Prelude.{
  ◌>>=◌, ℕ, ◌-◌, ◌*◌, Bool, true, false, ◌&&◌, ◌||◌, not, Option, none, some, leb, List, [], ◌∷◌,
  if◌then◌else◌, Result, ok, err,
}
use global_protect_openconne.Monitor.{RequestStamp, Observation, is_stale, stale}
use global_protect_openconne.Monitor.State.{active, count_statistics, enable, finish}
use global_protect_openconne.Monitor.Apply.{Event, observe}

abbrev sample_timeout : ℕ
sample_timeout = 4 * 1_000_000_000

module _ (C : Type 0) where
  unfoldable pub mark_stale : Observation C → Option (Observation C)
  unfolding count_statistics
  mark_stale o = count_statistics C (record o { statistics_state = stale })

  unfoldable pub request : Result (Unit {0}) Bool → ℕ → Observation C → Option (Observation C)
  request (ok true) now o = some (record o {
    pending =
        some
          (record { generation = o.generation; state_sequence = o.state.sequence; issued = now });
    request_failed = false;
  })
  request (ok false) now o = some o
  request (err _) now o = mark_stale (record o { request_failed = true })

  unfoldable pub await_answer : RequestStamp → ℕ → Observation C → Option (Observation C)
  await_answer stamp now o =
      if leb sample_timeout (now - stamp.issued) && not (is_stale o.statistics_state)
      then mark_stale o
      else some o

  unfoldable pub poll : Result (Unit {0}) Bool → ℕ → Observation C → Option (Observation C)
  unfolding await_answer request
  poll answer now o = elim o.pending [
    | some stamp ↦ await_answer stamp now o
    | none ↦ request answer now o
  ]

  -- The flag is whether the sampler goes on.
  unfoldable pub request_sample :
      Result (Unit {0}) Bool → ℕ → Observation C → Option (Observation C × Bool)
  unfolding poll
  request_sample answer now o =
      if o.finished
      then some (o, false)
      else if not o.enabled || not (active C o)
      then some (o, true)
      else do o' ← poll answer now o; some (o', true)

-- What may happen to an observation: the public operations of the monitor.
pub data Move (C : Type 0) : Type 0 where
  observing : Event C → (now : ℕ) → Move C
  enabling : Bool → Move C
  finishing : (now : ℕ) → Move C
  sampling : Result (Unit {0}) Bool → (now : ℕ) → Move C

module _ (C : Type 0) (same : Option C → Option C → Bool) where
  unfoldable pub move : Move C → Observation C → Option (Observation C)
  move (observing event now) o = do (o', _) ← observe C same event now o; some o'
  move (enabling b) o = do (o', _) ← enable C b o; some o'
  move (finishing now) o = finish C now o
  move (sampling answer now) o = do (o', _) ← request_sample C answer now o; some o'

  unfoldable pub moves : List (Move C) → Observation C → Option (Observation C)
  moves [] o = some o
  moves (m ∷ ms) o = do o' ← move m o; moves ms o'
