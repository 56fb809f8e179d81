-- ===== src/Registry.antt =====
-- `SessionRegistry` of apps/gpservice/src/session_registry.rs: the sessions of desktop clients, each
-- pending until its first handshake and then active under a generation. Every method locks the map
-- for its whole body, so it is one step; `poisoned` is a lock that a panic has left behind.
-- Times are nanoseconds given by the caller; a fresh `Uuid` is an argument, since it is random.
-- A `Zeroizing` secret is its bytes; clearing memory is left out. Texts of HIP reports are bytes.
pub mod Handshake
pub mod Attachment
pub mod Hip
pub mod Laws
pub mod Claims
pub mod Pending
pub mod Calls
pub mod Store
pub mod Closing
pub mod Preview
use Prim.Native.String.{String}
use text.Mathlib.Text.{◌==◌ as str_eq}
use global_protect_openconne.Prelude.{
  ℕ, ◌+◌, ◌*◌, ◌^◌, Bool, true, false, ◌&&◌, not, Option, none, some, List, Result, ok, err, ltb,
  ◌==◌, if◌then◌else◌,
}
use global_protect_openconne.Prelude.Map.{Map, lookup, insert}
use global_protect_openconne.VpnState.{Uuid}
use global_protect_openconne.Lifecycle.{ServiceResult, rejected, invalid_request}

abbrev pub second : ℕ
second = 1_000_000_000

abbrev pub activation_timeout : ℕ
activation_timeout = 15 * second

abbrev pub max_pending_sessions : ℕ
max_pending_sessions = 16

abbrev pub hip_preview_chunk_bytes : ℕ
hip_preview_chunk_bytes = 16 * 1024

-- `gphip::MAX_EDITED_REPORT_BYTES`.
abbrev pub max_edited_report_bytes : ℕ
max_edited_report_bytes = 48 * 1024

abbrev pub Bytes : Type 0
Bytes = List ℕ

-- A reference to a `ConnectionControl`; whether it is closed is asked of the connection itself.
pub record ConnectionControl : Type 0 where
  pub connection_id : Uuid

pub data SessionError : Type 0 where
  service_restarted : (service_instance_id : Uuid) → SessionError
  unauthorized too_many_pending reconnect_superseded unavailable invalid_hip_upload : SessionError

pub data HipUploadResult : Type 0 where
  progress stored : Uuid → HipUploadResult

pub data SessionStatus : Type 0 where
  pending : (activation_deadline : ℕ) (handshake_token : Option Uuid) → SessionStatus
  active :
      (generation : ℕ) (connection : Option ConnectionControl) (reconnect_token : Option Uuid)
      → SessionStatus

-- `drain` is the address of the attempt's token and completion.
pub record AttachmentAttempt : Type 0 where
  pub generation : ℕ
  pub connection_id : Uuid
  pub drain : ℕ

pub record SessionRecord : Type 0 where
  pub non_tunnel : Option AttachmentAttempt
  pub closed_attachment : Option Uuid
  pub secret : Bytes
  pub product_version : String
  pub desktop_uid : Option ℕ
  pub edited_hip_report : Option (Uuid × Bytes)
  pub edited_hip_upload : Option (Uuid × Bytes)
  pub hip_preview : Option (Uuid × Bytes)
  pub last_successful_hip_report : Option Bytes
  pub status : SessionStatus

pub record Registry : Type 0 where
  pub service_instance_id : Uuid
  pub sessions : Map SessionRecord
  pub poisoned : Bool

pub record HandshakePermit : Type 0 where
  pub session_id : Uuid
  pub desktop_uid : Option ℕ
  pub observed_generation : ℕ
  pub secret : Bytes
  pub token : Uuid

-- A session as the lock and the map give it: the error where the lock is poisoned or it is missing.
unfoldable pub find : {E : Type 0} → E → E → Registry → Uuid → Result E SessionRecord
find poison missing g id =
    if g.poisoned
    then err poison
    else elim (lookup id g.sessions) [ none ↦ err missing | some r ↦ ok r ]

-- Writes back a session that `get_mut` gave.
unfoldable pub put : Uuid → SessionRecord → Registry → Registry
put id r g = record g { sessions = insert id r g.sessions }

abbrev pub is_pending_status : SessionStatus → Bool
is_pending_status (pending _ _) = true
is_pending_status (active _ _ _) = false

abbrev pub is_pending : SessionRecord → Bool
is_pending r = is_pending_status r.status

abbrev pub is_active : SessionRecord → Bool
is_active r = not (is_pending r)

-- `u64::checked_add(1)`.
abbrev pub checked_succ : ℕ → Option ℕ
checked_succ n = if ltb (n + 1) (2 ^ 64) then some (n + 1) else none

abbrev pub unavailable_connection : ServiceResult
unavailable_connection = rejected invalid_request "Connection attachment is unavailable"

abbrev pub attachment_closing : ServiceResult
attachment_closing = rejected invalid_request "Non-tunnel attachment is closing"
