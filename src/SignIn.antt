-- ===== src/SignIn.antt =====
-- Recovery of an embedded sign-in (crates/auth/src/webview/recovery.rs, with the TLS failures of
-- crates/auth/src/webview/tls.rs): what the user is shown, and when sign-in restarts.
pub mod Window
pub mod Restarts
pub mod Certificates
use global_protect_openconne.Prelude.{
  Bool, true, false, ◌&&◌, ◌||◌, not, Option, none, some, if◌then◌else◌,
}

pub data TlsFailureReason : Type 0 where
  expired not_yet_valid untrusted hostname_mismatch invalid_certificate handshake : TlsFailureReason

abbrev pub is_certificate_error : TlsFailureReason → Bool
is_certificate_error handshake = false
is_certificate_error _ = true

pub data RecoveryStatus : Type 0 where
  hidden restarting loading failed rejected : RecoveryStatus
  tls : (reason : TlsFailureReason) (can_go_on : Bool) → RecoveryStatus
  certificate_bypassed : RecoveryStatus

abbrev pub can_continue : RecoveryStatus → Bool
can_continue (tls reason can_go_on) = can_go_on && is_certificate_error reason
can_continue _ = false

abbrev pub blocks_page : RecoveryStatus → Bool
blocks_page hidden = false
blocks_page certificate_bypassed = false
blocks_page _ = true

abbrev pub accepts_auth_data : RecoveryStatus → Bool
accepts_auth_data hidden = true
accepts_auth_data loading = true
accepts_auth_data certificate_bypassed = true
accepts_auth_data _ = false

abbrev pub can_retry : RecoveryStatus → Bool
can_retry failed = true
can_retry rejected = true
can_retry (tls handshake _) = true
can_retry _ = false

abbrev pub is_loading : RecoveryStatus → Bool
is_loading loading = true
is_loading _ = false

abbrev pub is_restarting : RecoveryStatus → Bool
is_restarting restarting = true
is_restarting _ = false

abbrev pub is_tls : RecoveryStatus → Bool
is_tls (tls _ _) = true
is_tls _ = false

pub record Recovery : Type 0 where
  pub status : RecoveryStatus
  pub automatic_retry_used : Bool
  pub certificate_was_bypassed : Bool

pub data RetrySource : Type 0 where
  fresh_prelogin supplied_request : RetrySource

pub data RetryTiming : Type 0 where
  immediate automatic_delay : RetryTiming

pub record RetryPlan : Type 0 where
  pub source : RetrySource
  pub timing : RetryTiming

abbrev pub initial : Recovery
initial = record { status = hidden; automatic_retry_used = false; certificate_was_bypassed = false }

abbrev pub set_status : RecoveryStatus → Recovery → Recovery
set_status s r = record r { status = s }

-- `loading`, `load_failed` and `tls_failed` are `set_status`.
unfoldable pub certificate_accepted : Recovery → Recovery × Option RetryPlan
certificate_accepted r =
    if can_continue r.status
    then (
      record r { certificate_was_bypassed = true; status = restarting },
      some (record { source = supplied_request; timing = immediate }),
    )
    else (r, none)

unfoldable pub failure : Bool → Recovery → Recovery × Option RetryPlan
failure temporary r =
    if not (accepts_auth_data r.status)
    then (r, none)
    else if temporary && not r.automatic_retry_used
    then (
      record r { automatic_retry_used = true; status = restarting },
      some (record { source = fresh_prelogin; timing = automatic_delay }),
    )
    else (set_status (if temporary then failed else rejected) r, none)

unfoldable pub retry : Recovery → Recovery × Option RetryPlan
retry r =
    if can_retry r.status
    then (
      set_status restarting r,
      some (record {
        source = if is_tls r.status then supplied_request else fresh_prelogin;
        timing = immediate;
      }),
    )
    else (r, none)

unfoldable pub page_loaded : Recovery → Recovery
page_loaded r =
    if is_loading r.status
    then set_status (if r.certificate_was_bypassed then certificate_bypassed else hidden) r
    else r
