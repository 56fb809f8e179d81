-- ===== src/Tests/Tunnel.antt =====
-- Runs of the tunnel monitor of crates/gptunnel/src/monitor.rs.
use global_protect_openconne.Prelude.{
  ℕ, ◌<◌, ◌≡◌, refl, ◌⊎◌, Bool, true, false, Option, none, some, List, [], ◌∷◌, ok, ◌==◌, is_some,
  arith,
}
use global_protect_openconne.Monitor.{
  new, Observation, TunnelPhase, TunnelStatisticsState, ipsec_esp, Statistics,
}
use global_protect_openconne.Monitor.State.{
  elapsed_ms, active, finish, enable, state_changed, next_sequence, count_statistics,
  invalidate_statistics, invalidated,
}
use global_protect_openconne.Monitor.Apply.{
  established, transport, statistics, observe, apply, handle, quietly, change_transport,
  receive_statistics, accept_statistics,
}
use global_protect_openconne.Monitor.Sampling.{
  Move, observing, enabling, sampling, move, moves, request_sample, poll, request,
}
use global_protect_openconne.Monitor.Sequences.{visible, moves-same_report}
use global_protect_openconne.Monitor.Endings.{moves-finish}
use global_protect_openconne.Monitor.Progress.{moves-no_panic}

-- Configurations are numbers here.
abbrev same_number : Option ℕ → Option ℕ → Bool
same_number none none = true
same_number (some m) (some n) = m == n
same_number _ _ = false

abbrev traffic : Statistics
traffic = record { received_bytes = 10; sent_bytes = 20; received_packets = 1; sent_packets = 2 }

abbrev sampled : List (Move ℕ)
sampled =
    observing established 5
    ∷ observing (transport ipsec_esp) 6
    ∷ enabling true
    ∷ sampling (ok true) 7
    ∷ observing (statistics traffic) 8
    ∷ []

abbrev or_new : Option (Observation ℕ) → Observation ℕ
or_new none = new ℕ 0
or_new (some o) = o

abbrev sampled_observation : Observation ℕ
sampled_observation = or_new (moves ℕ same_number sampled (new ℕ 9))

abbrev ended_observation : Observation ℕ
ended_observation = or_new (finish ℕ 2_000_005 sampled_observation)

moves-finish_example :
    (moves ℕ same_number (observing established 9 ∷ enabling true ∷ []) ended_observation
      ≡ some ended_observation)
    × (elapsed_ms ℕ 70_000_000 ended_observation ≡ elapsed_ms ℕ 2_000_005 sampled_observation)
    × (ended_observation.state.phase ≡ TunnelPhase.ended)
    × (ended_observation.statistics_state ≡ TunnelStatisticsState.ended)
unfolding new moves move observe apply handle quietly change_transport receive_statistics
    accept_statistics enable request_sample poll request state_changed next_sequence
    count_statistics invalidate_statistics invalidated active finish elapsed_ms
moves-finish_example =
    moves-finish ℕ same_number 2_000_005 sampled_observation ended_observation
      (observing established 9 ∷ enabling true ∷ []) 70_000_000 refl refl

abbrev stopped_observation : Observation ℕ
stopped_observation = or_new (moves ℕ same_number (enabling false ∷ []) sampled_observation)

moves-same_report_example :
    (sampled_observation.statistics_sequence < stopped_observation.statistics_sequence)
    ⊎ ((stopped_observation.statistics_sequence ≡ sampled_observation.statistics_sequence)
        × (visible ℕ stopped_observation ≡ visible ℕ sampled_observation))
unfolding new moves move observe apply handle quietly change_transport receive_statistics
    accept_statistics enable request_sample poll request state_changed next_sequence
    count_statistics invalidate_statistics invalidated active
moves-same_report_example =
    moves-same_report ℕ same_number 9 sampled (enabling false ∷ []) sampled_observation
      stopped_observation refl refl

moves-no_panic_example : is_some (moves ℕ same_number sampled (new ℕ 9)) ≡ true
moves-no_panic_example = moves-no_panic ℕ same_number 9 sampled (ground arith)
