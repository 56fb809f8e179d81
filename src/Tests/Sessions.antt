-- ===== src/Tests/Sessions.antt =====
-- Runs of the session registry of apps/gpservice/src/session_registry.rs.
use global_protect_openconne.Prelude.{
  ℕ, Option, some, Bool, true, ◌≤◌, ◌≡◌, refl, true, false, none, some, List, [], ◌∷◌, err, is_ok,
  suc, length,
}
use global_protect_openconne.Prelude.Map.{lookup, insert, retain, count}
use global_protect_openconne.Drain.{empty_heap}
use global_protect_openconne.VpnState.{internal, non_tunnel, system, disconnected}
use global_protect_openconne.Lifecycle.{
  Lifecycle, ConnectReservation, PreparedConnection, ServiceResult, sent, reserve_connect, commit,
  drop_reservation,
}
use global_protect_openconne.Registry.Attachment.{
  current_connection, reserve_connection, commit_connection, stop_non_tunnel_attachment,
}
use global_protect_openconne.Registry.Closing.{
  reserve_connection-stop_non_tunnel_attachment, commit_connection-stop_non_tunnel_attachment,
}
use global_protect_openconne.Registry.{
  SessionRecord, attachment_closing, ConnectionControl, Registry, HandshakePermit, find, put,
  max_pending_sessions, reconnect_superseded,
}
use global_protect_openconne.Registry.Handshake.{
  new, new_session, SessionCredential, issue, begin_handshake, claim, commit_attach, attach,
  is_current, drop_expired,
}
use global_protect_openconne.Registry.Claims.{
  commit_attach-commit_attach, is_current-commit_attach, begin_handshake-begin_handshake,
}
use global_protect_openconne.Registry.Pending.{pending_sessions}
use global_protect_openconne.Registry.Calls.{Call, issuing, beginning, revoking, calls, calls-new}
use global_protect_openconne.Registry.Hip.{hip_preview_chunk, store_hip_preview}
use global_protect_openconne.Registry.Preview.{read_from, read_from-store_hip_preview}

abbrev credential : SessionCredential
credential = record { session_id = 1; secret = [] }

abbrev issued : Registry
issued = (issue 0 0 (some credential) "1.0" none (new 7)).0

abbrev first_permit : HandshakePermit
first_permit = record {
  session_id = 1;
  desktop_uid = none;
  observed_generation = 0;
  secret = [];
  token = 11;
}

abbrev claimed : Registry
claimed = (begin_handshake 1 11 7 1 "1.0" issued).0

abbrev connection : ConnectionControl
connection = record { connection_id = 21 }

abbrev pub attached : Registry
attached = (commit_attach first_permit connection claimed empty_heap).0

begin_handshake-begin_handshake_example : is_ok (begin_handshake 2 12 7 1 "1.0" claimed).1 ≡ false
unfolding new issue begin_handshake claim find put drop_expired lookup insert retain count
begin_handshake-begin_handshake_example =
    begin_handshake-begin_handshake 1 11 7 1 "1.0" issued first_permit 2 12 7 "1.0" refl

commit_attach-commit_attach_example :
    commit_attach first_permit connection attached empty_heap
    ≡ (attached, empty_heap, err reconnect_superseded)
unfolding new issue begin_handshake claim find put drop_expired lookup insert retain count
    commit_attach attach
commit_attach-commit_attach_example =
    commit_attach-commit_attach first_permit connection claimed empty_heap refl first_permit
      connection empty_heap refl

is_current-commit_attach_example : is_current attached 1 1 ≡ true
unfolding new issue begin_handshake claim find put drop_expired lookup insert retain count
    commit_attach attach
is_current-commit_attach_example =
    is_current-commit_attach first_permit connection claimed empty_heap refl 1

abbrev some_calls : List Call
some_calls = issuing 0 0 (some credential) "1.0" none ∷ beginning 1 11 7 1 "1.0" ∷ revoking 1 ∷ []

calls-new_example : pending_sessions (calls some_calls (new 7, empty_heap)).0 ≤ max_pending_sessions
calls-new_example = calls-new 7 some_calls empty_heap

abbrev pub open_connection : ℕ → Bool
open_connection _ = false

abbrev session_of : Option SessionRecord → SessionRecord
session_of none = new_session credential "1.0" none 0
session_of (some r) = r

abbrev attached_session : SessionRecord
attached_session = session_of (lookup 1 attached.sessions)

abbrev stopped : Registry
stopped = (stop_non_tunnel_attachment open_connection 1 1 21 attached empty_heap).0

abbrev pub free : Lifecycle
free = record {
  admissions = record { closed = false; next_attempt = 0; current = none; restart = none };
  heap = empty_heap;
  events = [];
  tunnel = record { attempt = 0; monitor = none; non_tunnel = false };
  state = disconnected;
  watched = true;
}

reserve_connection-stop_non_tunnel_attachment_example :
    reserve_connection open_connection 1 1 true (reserve_connect none) stopped free
    ≡ (stopped, free, err attachment_closing)
unfolding new issue begin_handshake claim find put drop_expired lookup insert retain count
    commit_attach attach current_connection
reserve_connection-stop_non_tunnel_attachment_example =
    reserve_connection-stop_non_tunnel_attachment open_connection 1 1 21 attached empty_heap
      attached_session refl refl (reserve_connect none) free

abbrev pub reservation : ConnectReservation
reservation = record { attempt = 0; drain = 0 }

abbrev pub prepared_connection : PreparedConnection
prepared_connection = record {
  info = record {
    packet_delivery = system;
    script_tun_identity = none;
    portal = "portal.example";
    gateway = record {
      name = "gw";
      address = "192.0.2.1";
      kind = internal;
      priority = 1;
      priority_rules = [];
    };
    gateways = [];
  };
  modes = non_tunnel ∷ [];
  script_tun = none;
  allow_extend_session = false;
}

abbrev committing_it : Lifecycle → Lifecycle × ServiceResult
committing_it = commit sent sent reservation prepared_connection none none (some 1)

commit_connection-stop_non_tunnel_attachment_example :
    commit_connection open_connection 1 1 true committing_it
      (drop_reservation sent reservation)
      stopped
      free
    ≡ (drop_reservation sent reservation free, attachment_closing)
unfolding new issue begin_handshake claim find put drop_expired lookup insert retain count
    commit_attach attach current_connection
commit_connection-stop_non_tunnel_attachment_example =
    commit_connection-stop_non_tunnel_attachment open_connection 1 1 21 attached empty_heap
      attached_session refl refl committing_it (drop_reservation sent reservation) free

-- A text with a character of two bytes.
abbrev report : List ℕ
report = 60 ∷ 195 ∷ 164 ∷ 62 ∷ []

read_from-store_hip_preview_example :
    read_from
      (λ o. hip_preview_chunk 1 31 o (store_hip_preview 1 report 31 attached).0)
      (suc (length report))
      []
    ≡ some report
unfolding new issue begin_handshake claim find put drop_expired lookup insert retain count
    commit_attach attach store_hip_preview
read_from-store_hip_preview_example = read_from-store_hip_preview 1 report 31 attached refl refl
