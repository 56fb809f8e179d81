-- ===== src/SignIn/Certificates.antt =====
-- The certificates that the sign-in window takes without verification: the controls of
-- crates/auth/src/webview/gtk_tls.rs, with `ignore_tls_errors` of the window's setup in
-- crates/auth/src/webview/webview_auth.rs. A certificate is a reference. `allowed` are the exemptions
-- that the web context was given, the newest first; that it takes no other certificate which fails
-- is the documented behaviour of WebKit. The web view, its context and its window are there. One
-- dialog is open at most, and holds what it asks about.
pub mod Consent
use Prim.Native.String.{String}
use text.Mathlib.Text.{◌==◌ as str_eq}
use global_protect_openconne.Prelude.{
  ℕ, ◌+◌, ◌%◌, ◌^◌, Bool, true, false, ◌&&◌, ◌||◌, not, Option, none, some, List, [], ◌∷◌, ◌==◌,
  is_some, if◌then◌else◌,
}
use global_protect_openconne.SignIn.{
  TlsFailureReason, expired, not_yet_valid, hostname_mismatch, untrusted, invalid_certificate,
  is_certificate_error,
}

-- The flags that are tested, of `TlsCertificateFlags`.
pub record Flags : Type 0 where
  pub is_expired : Bool
  pub is_not_activated : Bool
  pub is_bad_identity : Bool
  pub is_unknown_ca : Bool

abbrev pub reason_of : Flags → TlsFailureReason
reason_of f =
    if f.is_expired
    then expired
    else if f.is_not_activated
    then not_yet_valid
    else if f.is_bad_identity
    then hostname_mismatch
    else if f.is_unknown_ca
    then untrusted
    else invalid_certificate

pub record TlsFailure : Type 0 where
  pub host : String
  pub reason : TlsFailureReason
  pub can_continue : Bool

pub record PendingCertificate : Type 0 where
  pub generation : ℕ
  pub certificate : ℕ
  pub failure : TlsFailure

-- An exemption of a certificate for a host.
pub record Exemption : Type 0 where
  pub certificate : ℕ
  pub host : String

pub record Controls : Type 0 where
  pub pending : Option PendingCertificate
  pub dialog : Option PendingCertificate
  pub generation : ℕ
  pub allowed : List Exemption
  pub ignores_errors : Bool

-- The window is set up, at a generation, with or without `ignore_tls_errors`.
abbrev pub installed : Bool → ℕ → Controls
installed ignores g = record {
  pending = none;
  dialog = none;
  generation = g;
  allowed = [];
  ignores_errors = ignores;
}

abbrev pub host_or_empty : Option String → String
host_or_empty none = ""
host_or_empty (some h) = h

abbrev pub failure_of : Option String → Flags → TlsFailure
failure_of host f = record {
  host = host_or_empty host;
  reason = reason_of f;
  can_continue = is_certificate_error (reason_of f) && is_some host;
}

abbrev pending_for : Option String → ℕ → Flags → ℕ → Option PendingCertificate
pending_for none certificate f generation = none
pending_for (some h) certificate f generation =
    some (record {
      generation = generation;
      certificate = certificate;
      failure = failure_of (some h) f;
    })

-- `host` is the host of the address if that is an https one.
unfoldable pub record_failure : Option String → ℕ → Flags → ℕ → Controls → Controls
record_failure host certificate f generation c = record c {
  pending = pending_for host certificate f generation;
}

abbrev ask : Option PendingCertificate → Controls → Controls
ask none c = c
ask (some p) c =
    if not (p.generation == c.generation) || is_some c.dialog
    then c
    else record c { dialog = some p }

-- The dialog is opened for the failure that is pending; without one there is an error.
unfoldable pub confirm : Controls → Controls
confirm c = ask c.pending c

abbrev is_same : PendingCertificate → Option PendingCertificate → Bool
is_same p none = false
is_same p (some q) =
    q.generation == p.generation
    && q.certificate == p.certificate
    && str_eq q.failure.host p.failure.host

abbrev answered : Bool → Option PendingCertificate → Controls → Controls
answered accepts none c = c
answered accepts (some p) c =
    if accepts && p.generation == c.generation && is_same p c.pending
    then record c {
      dialog = none;
      pending = none;
      allowed = record { certificate = p.certificate; host = p.failure.host } ∷ c.allowed;
    }
    else record c { dialog = none }

-- The user's answer to the dialog.
unfoldable pub respond : Bool → Controls → Controls
respond accepts c = answered accepts c.dialog c

-- `AuthMessenger::begin_attempt`.
abbrev pub begin_attempt : Controls → Controls
begin_attempt c = record c { generation = (c.generation + 1) % 2 ^ 64 }

pub data Step : Type 0 where
  failing : (host : Option String) (certificate : ℕ) (flags : Flags) (generation : ℕ) → Step
  asking : Step
  answering : (accepts : Bool) → Step
  beginning : Step

unfoldable pub step : Step → Controls → Controls
unfolding record_failure confirm respond
step (failing host certificate f generation) c = record_failure host certificate f generation c
step asking c = confirm c
step (answering accepts) c = respond accepts c
step beginning c = begin_attempt c

-- The steps are the newest first.
unfoldable pub steps : List Step → Controls → Controls
unfolding step
steps [] c = c
steps (s ∷ past) c = step s (steps past c)

abbrev pub is_exempt : ℕ → String → Exemption → Bool
is_exempt certificate host e = e.certificate == certificate && str_eq e.host host

unfoldable pub is_allowed : ℕ → String → List Exemption → Bool
is_allowed certificate host [] = false
is_allowed certificate host (e ∷ es) =
    is_exempt certificate host e || is_allowed certificate host es

-- Whether a certificate that fails is taken for a host.
unfoldable pub is_taken : ℕ → String → Controls → Bool
unfolding is_allowed
is_taken certificate host c = c.ignores_errors || is_allowed certificate host c.allowed
