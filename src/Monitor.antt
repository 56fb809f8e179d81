-- ===== src/Monitor.antt =====
-- `Observation` of crates/gptunnel/src/monitor.rs: what is known of one native tunnel, with the
-- statistics that are sampled from it. Every operation holds the lock of the observation.
-- Times are nanoseconds since the start of the machine, given by the caller. An operation that
-- counts up a 64-bit number past its end panics; then the result is `none`.
-- `Configuration` is `TunnelConfiguration` of crates/gpapi/src/session/desktop/tunnel.rs as
-- `normalize` of crates/gptunnel/src/configuration.rs leaves it; only its equality is used.
pub mod State
pub mod Apply
pub mod Sampling
pub mod Sequences
pub mod Endings
pub mod Freshness
pub mod Progress
use Prim.Native.String.{String}
use global_protect_openconne.Prelude.{
  ℕ, ◌+◌, ◌*◌, ◌-◌, ◌^◌, ◌/◌, Bool, true, false, ◌&&◌, ◌||◌, not, Option, none, some, List, ltb,
  leb, ◌==◌, if◌then◌else◌, is_some,
}
use global_protect_openconne.VpnState.{Uuid}

pub data TunnelPhase : Type 0 where
  establishing connected reconnecting ended : TunnelPhase

pub data TunnelTransport : Type 0 where
  negotiating ipsec_esp ssl_tls unavailable : TunnelTransport

pub data TunnelStatisticsState : Type 0 where
  disabled waiting fresh stale ended : TunnelStatisticsState

abbrev pub is_active : TunnelTransport → Bool
is_active ipsec_esp = true
is_active ssl_tls = true
is_active _ = false

abbrev pub phase_code : TunnelPhase → ℕ
phase_code TunnelPhase.establishing = 0
phase_code TunnelPhase.connected = 1
phase_code TunnelPhase.reconnecting = 2
phase_code TunnelPhase.ended = 3

abbrev pub transport_code : TunnelTransport → ℕ
transport_code negotiating = 0
transport_code ipsec_esp = 1
transport_code ssl_tls = 2
transport_code unavailable = 3

abbrev pub is_connected : TunnelPhase → Bool
is_connected TunnelPhase.connected = true
is_connected _ = false

abbrev pub is_stale : TunnelStatisticsState → Bool
is_stale stale = true
is_stale _ = false

abbrev pub is_fresh : TunnelStatisticsState → Bool
is_fresh fresh = true
is_fresh _ = false

-- `openconnect::tunnel::Statistics`.
pub record Statistics : Type 0 where
  pub received_bytes : ℕ
  pub sent_bytes : ℕ
  pub received_packets : ℕ
  pub sent_packets : ℕ

pub record TunnelStatistics : Type 0 where
  pub tunnel_id : Uuid
  pub sequence : ℕ
  pub state_sequence : ℕ
  pub configuration_revision : ℕ
  pub elapsed_ms : ℕ
  pub received_bytes : ℕ
  pub sent_bytes : ℕ
  pub received_packets : ℕ
  pub sent_packets : ℕ

pub record TunnelStatisticsView : Type 0 where
  pub sequence : ℕ
  pub tunnel_id : Uuid
  pub state_sequence : ℕ
  pub phase : TunnelPhase
  pub transport : TunnelTransport
  pub state : TunnelStatisticsState
  pub elapsed_ms : ℕ
  pub sample_age_ms : Option ℕ
  pub sample : Option TunnelStatistics

pub record RequestStamp : Type 0 where
  pub generation : ℕ
  pub state_sequence : ℕ
  pub issued : ℕ

pub record RetainedSample : Type 0 where
  pub value : TunnelStatistics
  pub acquired : ℕ

-- `Duration::as_millis`, at most the largest 64-bit number.
abbrev pub millis : ℕ → ℕ
millis duration = let ms = duration / 1_000_000 in if ltb ms (2 ^ 64) then ms else 2 ^ 64 - 1

-- `u64::checked_add(1).expect(…)`.
abbrev pub checked_succ : ℕ → Option ℕ
checked_succ n = if ltb (n + 1) (2 ^ 64) then some (n + 1) else none

module _ (Configuration : Type 0) where
  pub record TunnelState : Type 0 where
    pub tunnel_id : Uuid
    pub sequence : ℕ
    pub phase : TunnelPhase
    pub configuration_revision : ℕ
    pub configuration : Option Configuration
    pub transport : TunnelTransport
    pub elapsed_ms : ℕ

  pub record Observation : Type 0 where
    pub state : TunnelState
    pub sequence : ℕ
    pub statistics_sequence : ℕ
    pub started : Option ℕ
    pub ended_elapsed : Option ℕ
    pub configuration_observed : Bool
    pub enabled : Bool
    pub generation : ℕ
    pub pending : Option RequestStamp
    pub sample : Option RetainedSample
    pub statistics_state : TunnelStatisticsState
    pub finished : Bool
    pub request_failed : Bool

  pub record TunnelUpdate : Type 0 where
    pub state : TunnelState
    pub statistics : TunnelStatisticsView

  unfoldable pub new : Uuid → Observation
  new tunnel_id = record {
    state = record {
      tunnel_id = tunnel_id;
      sequence = 1;
      phase = TunnelPhase.establishing;
      configuration_revision = 0;
      configuration = none;
      transport = negotiating;
      elapsed_ms = 0;
    };
    sequence = 1;
    statistics_sequence = 1;
    started = none;
    ended_elapsed = none;
    configuration_observed = false;
    enabled = false;
    generation = 0;
    pending = none;
    sample = none;
    statistics_state = disabled;
    finished = false;
    request_failed = false;
  }
