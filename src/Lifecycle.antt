-- ===== src/Lifecycle.antt =====
-- `LifecycleHandle` of apps/gpservice/src/vpn_task.rs: the admissions behind their mutex, the queue
-- of lifecycle events, and the operations that any thread may call. Each operation runs under the
-- mutex, so it is one step; a poisoned mutex ends the process (`expect`) and is left out.
-- The queue is tokio's: whether a `try_send` finds room, or a receiver, is an argument.
pub mod Laws
pub mod Reserve
use Prim.Native.String.{String}
use global_protect_openconne.Prelude.{
  ℕ, ◌+◌, ◌%◌, ◌^◌, Bool, true, false, ◌&&◌, ◌||◌, not, Option, none, some, List, [], ◌∷◌, ◌++◌,
  Result, ok, err, ◌==◌, if◌then◌else◌, is_some,
}
use global_protect_openconne.Drain.{Heap, is_cancelled, alloc, cancel, complete}
use global_protect_openconne.VpnState.{
  Uuid, ConnectInfo, SessionMode, SessionWarning, GatewaySessionSummary, GatewayFailureSummary,
  VpnState, disconnected,
}

pub data ServiceErrorCode : Type 0 where
  invalid_request busy checksum_failed install_failed internal : ServiceErrorCode

-- The replies that these operations give (crates/gpapi/src/service/transport/message.rs).
pub data ServiceResult : Type 0 where
  accepted : ServiceResult
  rejected : ServiceErrorCode → String → ServiceResult

pub data AdmissionPhase : Type 0 where
  preparing pending active stopping : AdmissionPhase

-- `drain` is the address of the attempt's cancellation and completion.
pub record Admission : Type 0 where
  pub attempt : ℕ
  pub phase : AdmissionPhase
  pub stop_requested : Bool
  pub drain : ℕ

pub record Admissions : Type 0 where
  pub closed : Bool
  pub next_attempt : ℕ
  pub current : Option Admission
  pub restart : Option (ℕ × Uuid)

-- What `VpnTask` reads of a prepared connection: the request's display data, the modes of the
-- members of its plan, its script-tun launch and one of its arguments.
pub record PreparedConnection : Type 0 where
  pub info : ConnectInfo
  pub modes : List SessionMode
  pub script_tun : Option Uuid
  pub allow_extend_session : Bool

-- `openconnect::VpnSessionInfo`, the fields that are used.
pub record VpnSessionInfo : Type 0 where
  pub lifetime_secs : Option ℕ
  pub user_expires : Option ℕ
  pub lifetime_warning : Option SessionWarning

pub data LifecycleEvent : Type 0 where
  tunnel_monitor : (attempt : ℕ) (monitor : ℕ) → LifecycleEvent
  start :
      (attempt : ℕ) (connection : PreparedConnection) (desktop_uid : Option ℕ)
      (edited_report : Option String) (session_id : Option Uuid)
      → LifecycleEvent
  stop : (attempt : ℕ) → LifecycleEvent
  script_tun_suspended : (attempt : ℕ) → LifecycleEvent
  reconnect_required : (attempt : ℕ) → LifecycleEvent
  established : (attempt : ℕ) (session : VpnSessionInfo) → LifecycleEvent
  members_changed :
      (attempt : ℕ) (members : List GatewaySessionSummary) (failures : List GatewayFailureSummary)
      → LifecycleEvent
  ended : (attempt : ℕ) → LifecycleEvent
  failed : (attempt : ℕ) (reason : String) → LifecycleEvent
  preparation_released : LifecycleEvent

-- The monitor is a reference to a `TunnelMonitor`.
pub record TunnelBinding : Type 0 where
  pub attempt : ℕ
  pub monitor : Option ℕ
  pub non_tunnel : Bool

-- `watched`: the state channel has a receiver, without which a `send` changes nothing.
pub record Lifecycle : Type 0 where
  pub admissions : Admissions
  pub open admissions use *
  pub heap : Heap
  pub events : List LifecycleEvent
  pub tunnel : TunnelBinding
  pub state : VpnState
  pub watched : Bool

pub data SendOutcome : Type 0 where
  sent full no_receiver : SendOutcome

unfoldable pub enqueue : SendOutcome → LifecycleEvent → List LifecycleEvent → List LifecycleEvent
enqueue sent e es = es ++ (e ∷ [])
enqueue _ e es = es

abbrev pub try_send : SendOutcome → LifecycleEvent → Lifecycle → Lifecycle
try_send o e l = record l { events = enqueue o e l.events }

abbrev pub same_restart : Option (ℕ × Uuid) → Option (ℕ × Uuid) → Bool
same_restart (some (a, s)) (some (b, t)) = a == b && s == t
same_restart none none = true
same_restart _ _ = false

pub record ConnectReservation : Type 0 where
  pub attempt : ℕ
  pub drain : ℕ

abbrev pub set_current : Option Admission → Lifecycle → Lifecycle
set_current c l = record l { admissions = record (l.admissions) { current = c } }

abbrev pub new_admission : Lifecycle → Admission
new_admission l = record {
  attempt = l.next_attempt;
  phase = preparing;
  stop_requested = false;
  drain = l.heap.next;
}

unfoldable pub admit : Lifecycle → Lifecycle
admit l = record l {
  heap = alloc l.heap;
  admissions = record (l.admissions) {
    restart = none;
    next_attempt = (l.next_attempt + 1) % 2 ^ 64;
    current = some (new_admission l);
  };
}

abbrev pub new_reservation : Lifecycle → ConnectReservation
new_reservation l = record { attempt = l.next_attempt; drain = l.heap.next }

unfoldable pub reserve_connect :
    Option (ℕ × Uuid) → Lifecycle → Lifecycle × Result ServiceResult ConnectReservation
reserve_connect restart l =
    if l.closed
    then (l, err (rejected internal "VPN task is unavailable"))
    else if is_some l.current
    then (l, err (rejected busy "A VPN connection is already in progress"))
    else if is_some restart && not (same_restart l.restart restart)
    then (l, err (rejected invalid_request "Reconnect request is no longer current"))
    else (admit l, ok (new_reservation l))

-- Stops the current admission. A stop requested before is not repeated.
abbrev stop_admission : SendOutcome → Admission → Lifecycle → Lifecycle
stop_admission o a l =
    if a.stop_requested
    then l
    else try_send o (stop a.attempt) (
        set_current (some (record a { stop_requested = true; phase = stopping }))
          (record l { heap = cancel a.drain l.heap }))

unfoldable pub request_disconnect : SendOutcome → Lifecycle → Lifecycle × ServiceResult
request_disconnect o l =
    let l' = record l { admissions = record (l.admissions) { restart = none } } in
    elim l.current [
      | none ↦ (record l' { state = disconnected }, accepted)
      | some a ↦ (stop_admission o a l', accepted)
    ]

-- The critical section of `disconnect_and_wait`; the result is the completion to wait for.
unfoldable pub disconnect_and_wait : SendOutcome → Lifecycle → Lifecycle × Option ℕ
disconnect_and_wait o l = elim l.current [
  | none ↦ (l, none)
  | some a ↦ (stop_admission o a l, some a.drain)
]

unfoldable pub is_stop_requested : ℕ → Lifecycle → Bool
is_stop_requested attempt l = elim l.current [
  | none ↦ false
  | some a ↦ a.attempt == attempt && a.stop_requested
]

unfoldable pub close_admission : Lifecycle → Lifecycle
close_admission l = elim l.current [
  | none ↦ record l { admissions = record (l.admissions) { closed = true } }
  | some a ↦ record l {
    heap = cancel a.drain l.heap;
    admissions = record (l.admissions) {
      closed = true;
      current = some (record a { stop_requested = true; phase = stopping });
    };
  }
]

-- The token of the attempt, or a new one that is cancelled at once.
unfoldable pub attempt_cancellation : ℕ → Lifecycle → Lifecycle × ℕ
attempt_cancellation attempt l =
    let stale : Lifecycle × ℕ =
      (record l { heap = cancel l.heap.next (alloc l.heap) }, l.heap.next) in
    elim l.current [ none ↦ stale | some a ↦ if a.attempt == attempt then (l, a.drain) else stale ]

abbrev is_pending : AdmissionPhase → Bool
is_pending pending = true
is_pending _ = false

abbrev pub is_active : AdmissionPhase → Bool
is_active active = true
is_active _ = false

unfoldable pub activate_attempt : ℕ → Lifecycle → Lifecycle × Bool
activate_attempt attempt l = elim l.current [
  | none ↦ (l, false)
  | some a ↦
      if not (a.attempt == attempt)
        || a.stop_requested
        || is_cancelled l.heap a.drain
        || not (is_pending a.phase)
      then (l, false)
      else (set_current (some (record a { phase = active })) l, true)
]

unfoldable pub clear_attempt : ℕ → Lifecycle → Lifecycle
clear_attempt attempt l = elim l.current [
  | none ↦ l
  | some a ↦
      if a.attempt == attempt
      then set_current none (record l { heap = complete a.drain l.heap })
      else l
]

-- `Drop for ConnectReservation`, for one that was not transferred.
unfoldable pub drop_reservation : SendOutcome → ConnectReservation → Lifecycle → Lifecycle
unfolding clear_attempt
drop_reservation o r l =
    try_send o preparation_released
      (clear_attempt r.attempt (record l { heap = cancel r.drain l.heap }))

-- The part of `ConnectReservation::commit` under the mutex; `true` if the event took the
-- reservation over.
commit_event :
    SendOutcome
    → ConnectReservation
    → PreparedConnection
    → Option ℕ
    → Option String
    → Option Uuid
    → Lifecycle
    → Lifecycle × Bool × ServiceResult
commit_event o r c uid report session l =
    if l.closed then (l, false, rejected internal "VPN task is unavailable") else elim l.current [
      | none ↦ (l, false, rejected invalid_request "Connection preparation was superseded")
      | some a ↦
          if not (a.attempt == r.attempt)
          then (l, false, rejected invalid_request "Connection preparation was superseded")
          else if a.stop_requested || is_cancelled l.heap r.drain
          then (l, false, rejected invalid_request "Connection preparation was cancelled")
          else elim o [
            | sent ↦ (
              set_current (some (record a { phase = pending }))
                  (try_send sent (start r.attempt c uid report session) l),
              true,
              accepted,
            )
            | full ↦ (l, false, rejected busy "VPN lifecycle queue is full")
            | no_receiver ↦ (l, false, rejected internal "VPN task is unavailable")
          ]
    ]

-- `commit` consumes the reservation: what was not transferred is dropped at its end.
unfoldable pub commit :
    SendOutcome
    → SendOutcome
    → ConnectReservation
    → PreparedConnection
    → Option ℕ
    → Option String
    → Option Uuid
    → Lifecycle
    → Lifecycle × ServiceResult
unfolding commit_event drop_reservation
commit o o' r c uid report session l =
    let (l', transferred, reply) = commit_event o r c uid report session l in
    if transferred then (l', reply) else (drop_reservation o' r l', reply)
