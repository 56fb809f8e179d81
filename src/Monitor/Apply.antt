-- ===== src/Monitor/Apply.antt =====
-- The events of the native tunnel, and the sampler's requests, in crates/gptunnel/src/monitor.rs.
-- The watch channel and the wake-up of the sampler are left out: they carry `project` of the
-- observation and nothing else. `Event` is the openconnect crate's, with its configuration already
-- normalized; `same` is the derived equality of configurations.
use global_protect_openconne.Prelude.{
  ◌>>=◌, ℕ, Bool, true, false, ◌&&◌, ◌||◌, not, Option, none, some, ◌==◌, if◌then◌else◌, is_some,
}
use global_protect_openconne.Monitor.{
  TunnelPhase, TunnelTransport, Statistics, TunnelStatistics, RequestStamp, RetainedSample,
  Observation, is_fresh, phase_code, transport_code, checked_succ, fresh,
}
use global_protect_openconne.Monitor.State.{
  next_sequence, elapsed_ms, active, state_changed, finish, or_insert,
}

pub data Event (C : Type 0) : Type 0 where
  configuration : Option C → Event C
  established reconnected reconnecting : Event C
  transport : TunnelTransport → Event C
  statistics : Statistics → Event C
  ended : Event C

module _ (C : Type 0) (same : Option C → Option C → Bool) where
  abbrev pub set_phase : TunnelPhase → Observation C → Option (Observation C)
  set_phase phase o =
      if phase_code o.state.phase == phase_code phase
      then some o
      else state_changed C (record o { state = record o.state { phase = phase } })

  -- The stamp is that of the collection that is enabled, and of the state that stands.
  abbrev pub is_answered : RequestStamp → Observation C → Bool
  is_answered stamp o =
      o.enabled
      && active C o
      && (stamp.generation == o.generation && stamp.state_sequence == o.state.sequence)

  abbrev pub measured : ℕ → Statistics → Observation C → TunnelStatistics
  measured now s o = record {
    tunnel_id = o.state.tunnel_id;
    sequence = o.sequence;
    state_sequence = o.state.sequence;
    configuration_revision = o.state.configuration_revision;
    elapsed_ms = elapsed_ms C now o;
    received_bytes = s.received_bytes;
    sent_bytes = s.sent_bytes;
    received_packets = s.received_packets;
    sent_packets = s.sent_packets;
  }

  unfoldable pub accept_statistics : Statistics → ℕ → Observation C → Option (Observation C)
  unfolding next_sequence
  accept_statistics s now o = do
    o' ← next_sequence C o
    some (record o' {
      sample = some (record { value = measured now s o'; acquired = now });
      statistics_sequence = o'.sequence;
      statistics_state = fresh;
    })

  unfoldable pub receive_statistics : Statistics → ℕ → Observation C → Option (Observation C)
  unfolding accept_statistics
  receive_statistics s now o =
      let taken = record o { pending = none } in
      elim o.pending [
        | none ↦ some o
        | some stamp ↦ if is_answered stamp taken then accept_statistics s now taken else some taken
      ]

  -- The flags ask for a line in the log, of the configuration and of the transport.
  unfoldable pub change_configuration :
      Option C → Observation C → Option (Observation C × Bool × Bool)
  unfolding state_changed
  change_configuration c o =
      if o.configuration_observed && same o.state.configuration c
      then some (o, false, false)
      else do
        revision ← checked_succ o.state.configuration_revision
        o' ← state_changed C (record o {
          configuration_observed = true;
          state = record o.state { configuration = c; configuration_revision = revision };
        })
        some (o', true, false)

  unfoldable pub change_transport :
      TunnelTransport → Observation C → Option (Observation C × Bool × Bool)
  unfolding state_changed
  change_transport t o =
      if transport_code o.state.transport == transport_code t then some (o, false, false) else do
        o' ← state_changed C (record o { state = record o.state { transport = t } })
        some (o', false, true)

  unfoldable pub quietly : Option (Observation C) → Option (Observation C × Bool × Bool)
  quietly result = do o ← result; some (o, false, false)

  unfoldable pub reconnect : Observation C → Option (Observation C)
  reconnect o = if is_some o.started then set_phase TunnelPhase.connected o else some o

  abbrev pub resumed : Observation C → TunnelPhase
  resumed o = if is_some o.started then TunnelPhase.reconnecting else TunnelPhase.establishing

  unfoldable pub handle : Event C → ℕ → Observation C → Option (Observation C × Bool × Bool)
  handle (configuration c) now o = change_configuration c o
  handle established now o =
      quietly (set_phase TunnelPhase.connected (record o { started = or_insert now o.started }))
  handle reconnected now o = quietly (reconnect o)
  handle reconnecting now o = quietly (set_phase (resumed o) o)
  handle (transport t) now o = change_transport t o
  handle (statistics s) now o = quietly (receive_statistics s now o)
  handle ended now o = quietly (finish C now o)

  unfoldable pub apply : Event C → ℕ → Observation C → Option (Observation C × Bool × Bool)
  apply event now o = if o.finished then some (o, false, false) else handle event now o

  abbrev pub is_statistics : Event C → Bool
  is_statistics (statistics s) = true
  is_statistics _ = false

  abbrev pub is_retained : Observation C → Option RetainedSample → Bool
  is_retained o none = false
  is_retained o (some s) = s.value.state_sequence == o.state.sequence && is_fresh o.statistics_state

  -- The flag is whether the sampler is woken.
  unfoldable pub observe : Event C → ℕ → Observation C → Option (Observation C × Bool)
  unfolding apply
  observe event now o = do
    (o', _, _) ← apply event now o
    some (o', not (is_statistics event) || not (is_retained o' o'.sample))
