-- ===== src/Tests/Requests.antt =====
-- Requests to the dispatcher of apps/gpservice/src/request_dispatcher.rs.
use Prim.Native.String.{String}
use global_protect_openconne.Prelude.{
  ℕ, ◌≡◌, refl, ◌⊎◌, true, false, Option, none, some, [], ◌∷◌, ◌++◌,
}
use global_protect_openconne.Drain.{is_complete}
use global_protect_openconne.VpnState.{Uuid, non_tunnel}
use global_protect_openconne.Lifecycle.{new_admission, admit, sent}
use global_protect_openconne.Lifecycle.Laws.{Kept, is_accepted, starts}
use global_protect_openconne.Registry.{Bytes}
use global_protect_openconne.Dispatch.{
  SessionAuthority, edited, ConnectRequest, ConnectionPreparation, Service, dispatch_connect,
  dispatch_prepared,
}
use global_protect_openconne.Dispatch.Replies.{
  Answered, dispatch_connect-Answered, dispatch_prepared-cases,
}
use global_protect_openconne.Tests.Sessions.{
  attached, free, prepared_connection, reservation, open_connection,
}

abbrev no_id : String → Option Uuid
no_id text = none

abbrev as_text : Bytes → String
as_text b = "<hip-report/>"

abbrev authority : SessionAuthority
authority = record { session_id = 1; generation = 1 }

-- It names a report that is none.
abbrev bad_report : ConnectRequest
bad_report = record {
  restart_of = none;
  modes = non_tunnel ∷ [];
  hip_source = edited "?";
  vpnc_script = none;
  certificate = none;
  sslkey = none;
}

abbrev service : Service
service = record { registry = attached; lifecycle = free }

dispatch_connect-Answered_example : Answered ℕ open_connection no_id as_text service (
    dispatch_connect ℕ open_connection no_id as_text false true sent
      (some authority)
      bad_report
      (some 1000)
      none
      service)
dispatch_connect-Answered_example =
    dispatch_connect-Answered ℕ open_connection no_id as_text false true sent (some authority)
      bad_report (some 1000) none service

abbrev preparation : ConnectionPreparation
preparation = record { authority = authority; non_tunnel = true; reservation = reservation }

abbrev reserved_service : Service
reserved_service = record { registry = attached; lifecycle = admit free }

dispatch_prepared-cases_example :
    let (s', reply) =
      dispatch_prepared ℕ open_connection no_id as_text sent sent preparation
        (some prepared_connection)
        (some 1000)
        none
        reserved_service in
    ((is_accepted reply ≡ true)
      × Kept reserved_service.lifecycle.current s'.lifecycle.current
      × (starts s'.lifecycle.events ≡ starts reserved_service.lifecycle.events ++ 0 ∷ []))
    ⊎ ((is_accepted reply ≡ false)
        × (s'.lifecycle.current ≡ none)
        × (starts s'.lifecycle.events ≡ starts reserved_service.lifecycle.events)
        × (is_complete s'.lifecycle.heap (new_admission free).drain ≡ true))
unfolding admit
dispatch_prepared-cases_example =
    dispatch_prepared-cases ℕ open_connection no_id as_text sent sent preparation
      (some prepared_connection) (some 1000) none reserved_service (new_admission free) refl refl
