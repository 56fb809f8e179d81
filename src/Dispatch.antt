-- ===== src/Dispatch.antt =====
-- `RequestDispatcher` of apps/gpservice/src/request_dispatcher.rs, for the requests that start and
-- end connections: it composes the session registry and the lifecycle. `dispatch_lifecycle` is one
-- step; `dispatch_pending` goes on after the connection's resources are prepared, whose outcome is
-- an argument, as is whether the redaction of the log could be updated. The requests that do not
-- touch a connection are of any type. `commit` refers to the reservation that a preparation holds;
-- a preparation that is dropped drops it.
pub mod Replies
use Prim.Native.String.{String}
use global_protect_openconne.Prelude.{
  ℕ, Bool, true, false, ◌&&◌, ◌||◌, not, Option, none, some, List, [], ◌∷◌, Result, ok, err,
  if◌then◌else◌, is_some,
}
use global_protect_openconne.Drain.{Heap}
use global_protect_openconne.VpnState.{Uuid, SessionMode}
use global_protect_openconne.Lifecycle.{
  Lifecycle, ServiceResult, accepted, rejected, invalid_request, internal, ConnectReservation,
  PreparedConnection, SendOutcome, reserve_connect, request_disconnect, drop_reservation, commit,
}
use global_protect_openconne.VpnTask.{all_non_tunnel}
use global_protect_openconne.Registry.{Registry, Bytes}
use global_protect_openconne.Registry.Attachment.{
  reserve_connection, commit_connection, stop_non_tunnel_attachment,
}
use global_protect_openconne.Registry.Hip.{edited_hip_report}

pub record SessionAuthority : Type 0 where
  pub session_id : Uuid
  pub generation : ℕ

pub data HipSource : Type 0 where
  disabled generated : HipSource
  edited : (report_id : String) → HipSource
  user_script : (path : String) → HipSource
  approved_root_script : (approval_id : String) → HipSource

-- What is read of a request: the modes are those of the members of its plan.
pub record ConnectRequest : Type 0 where
  pub restart_of : Option ℕ
  pub modes : List SessionMode
  pub hip_source : HipSource
  pub vpnc_script : Option String
  pub certificate : Option String
  pub sslkey : Option String

pub data WsRequest (R : Type 0) : Type 0 where
  connect : ConnectRequest → WsRequest R
  stop_attachment : (connection_id : Uuid) → WsRequest R
  disconnect : WsRequest R
  other : R → WsRequest R

pub record ConnectionPreparation : Type 0 where
  pub authority : SessionAuthority
  pub non_tunnel : Bool
  pub reservation : ConnectReservation

pub data PendingDispatch (R : Type 0) : Type 0 where
  connect :
      (preparation : ConnectionPreparation) (request : ConnectRequest) (desktop_uid : Option ℕ)
      (edited_report : Option Bytes)
      → PendingDispatch R
  drain : Option ℕ → PendingDispatch R
  other : R → PendingDispatch R

-- What the dispatcher shares with the rest of the service.
pub record Service : Type 0 where
  pub registry : Registry
  pub lifecycle : Lifecycle

is_custom_script : HipSource → Bool
is_custom_script (user_script path) = true
is_custom_script (approved_root_script id) = true
is_custom_script _ = false

-- The reason of a refusal, if there is one.
unfoldable pub validate_connect_request : Bool → ConnectRequest → Option String
unfolding is_custom_script
validate_connect_request externally_brokered r =
    if not externally_brokered
    then none
    else if is_some r.vpnc_script
    then some "macOS does not support custom VPN scripts"
    else if is_custom_script r.hip_source
    then some "macOS does not support custom HIP scripts"
    else if is_some r.certificate || is_some r.sslkey
    then some "macOS client identity must be provided as protected data, not root-readable paths"
    else none

abbrev missing_session : ServiceResult
missing_session = rejected invalid_request "Connection session is missing"

abbrev restart_for : Uuid → Option ℕ → Option (ℕ × Uuid)
restart_for id none = none
restart_for id (some attempt) = some (attempt, id)

-- `parse_id` is the parser of the crate uuid, `as_text` the text of UTF-8 bytes.
-- `is_closed` is the state of the clients' connections.
module _ (R : Type 0) (is_closed : Uuid → Bool) (parse_id : String → Option Uuid)
    (as_text : Bytes → String) where
  stored_report : SessionAuthority → String → Registry → Result ServiceResult (Option Bytes)
  stored_report a text g = elim (parse_id text) [
    | none ↦ err (rejected invalid_request "Invalid HIP report ID")
    | some id ↦ elim (edited_hip_report a.session_id id g) [
      | err e ↦ err (rejected invalid_request "HIP report is unavailable for this session")
      | ok xml ↦ ok (some xml)
    ]
  ]

  unfoldable pub report_of :
      SessionAuthority → HipSource → Option Bytes → Registry → Result ServiceResult (Option Bytes)
  unfolding stored_report
  report_of a (edited text) given g = stored_report a text g
  report_of a _ given g = ok given

  -- The reservation is dropped with its preparation where there is no report.
  unfoldable pub with_report :
      SendOutcome
      → ConnectionPreparation
      → ConnectRequest
      → Option ℕ
      → Result ServiceResult (Option Bytes)
      → Service
      → Service × Result ServiceResult (PendingDispatch R)
  with_report o p r uid (err e) s =
      (record s { lifecycle = drop_reservation o p.reservation s.lifecycle }, err e)
  with_report o p r uid (ok report) s = (s, ok (connect p r uid report))

  unfoldable pub reserve_for :
      SendOutcome
      → SessionAuthority
      → ConnectRequest
      → Option ℕ
      → Option Bytes
      → Service
      → Service × Result ServiceResult (PendingDispatch R)
  unfolding with_report
  reserve_for o a r uid given s =
      let (g, l, v) =
        reserve_connection is_closed a.session_id a.generation (all_non_tunnel r.modes)
          (reserve_connect (restart_for a.session_id r.restart_of)) s.registry s.lifecycle in
      let s' : Service = record { registry = g; lifecycle = l } in
      elim v [
        | err e ↦ (s', err e)
        | ok reservation ↦
            with_report o
              (record {
                authority = a;
                non_tunnel = all_non_tunnel r.modes;
                reservation = reservation;
              })
              r uid (report_of a r.hip_source given g) s'
      ]

  unfoldable pub authorized :
      SendOutcome
      → Option SessionAuthority
      → ConnectRequest
      → Option ℕ
      → Option Bytes
      → Service
      → Service × Result ServiceResult (PendingDispatch R)
  unfolding reserve_for
  authorized o none r uid given s = (s, err missing_session)
  authorized o (some a) r uid given s = reserve_for o a r uid given s

  unfoldable pub dispatch_connect :
      Bool
      → Bool
      → SendOutcome
      → Option SessionAuthority
      → ConnectRequest
      → Option ℕ
      → Option Bytes
      → Service
      → Service × Result ServiceResult (PendingDispatch R)
  unfolding authorized
  dispatch_connect externally_brokered redacted o authority r uid given s =
      elim (validate_connect_request externally_brokered r) [
        | some reason ↦ (s, err (rejected invalid_request reason))
        | none ↦
            if not redacted
            then (s, err (rejected internal "Request could not be accepted"))
            else authorized o authority r uid given s
      ]

  unfoldable pub stop_for :
      Option SessionAuthority → Uuid → Service → Service × Result ServiceResult (PendingDispatch R)
  stop_for none id s = (s, err missing_session)
  stop_for (some a) id s =
      let (g, h, v) =
        stop_non_tunnel_attachment is_closed a.session_id a.generation id s.registry
          s.lifecycle.heap in
      let s' : Service = record { registry = g; lifecycle = record s.lifecycle { heap = h } } in
      elim v [ err e ↦ (s', err e) | ok d ↦ (s', ok (drain d)) ]

  unfoldable pub dispatch_lifecycle :
      Bool
      → Bool
      → SendOutcome
      → WsRequest R
      → Option ℕ
      → Option Bytes
      → Option SessionAuthority
      → Service
      → Service × Result ServiceResult (PendingDispatch R)
  unfolding dispatch_connect stop_for
  dispatch_lifecycle brokered redacted o (connect r) uid given authority s =
      dispatch_connect brokered redacted o authority r uid given s
  dispatch_lifecycle brokered redacted o (stop_attachment id) uid given authority s =
      stop_for authority id s
  dispatch_lifecycle brokered redacted o disconnect uid given authority s =
      let (l, reply) = request_disconnect o s.lifecycle in (record s { lifecycle = l }, err reply)
  dispatch_lifecycle brokered redacted o (other r) uid given authority s = (s, ok (other r))

  text_of : Option Bytes → Option String
  text_of none = none
  text_of (some xml) = some (as_text xml)

  -- `ConnectionPreparation::commit`; the session lock is held around the lifecycle's commit.
  unfoldable pub commit_preparation :
      SendOutcome
      → SendOutcome
      → ConnectionPreparation
      → PreparedConnection
      → Option ℕ
      → Option Bytes
      → Service
      → Service × ServiceResult
  unfolding text_of
  commit_preparation o o' p c uid report s =
      let (l, reply) =
        commit_connection is_closed p.authority.session_id p.authority.generation p.non_tunnel
          (commit o o' p.reservation c uid (text_of report) (some p.authority.session_id))
          (drop_reservation o' p.reservation) s.registry s.lifecycle in
      (record s { lifecycle = l }, reply)

  -- `dispatch_pending` for a connection; there is no prepared connection where preparation fails.
  unfoldable pub dispatch_prepared :
      SendOutcome
      → SendOutcome
      → ConnectionPreparation
      → Option PreparedConnection
      → Option ℕ
      → Option Bytes
      → Service
      → Service × ServiceResult
  unfolding commit_preparation
  dispatch_prepared o o' p none uid report s = (
    record s { lifecycle = drop_reservation o' p.reservation s.lifecycle },
    rejected invalid_request "Connection resources could not be prepared",
  )
  dispatch_prepared o o' p (some c) uid report s = commit_preparation o o' p c uid report s
