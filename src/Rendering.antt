-- ===== src/Rendering.antt =====
-- Recovery from a crash of WebKit's rendering: crates/gpapi/src/process/rendering_recovery.rs. Texts
-- are lists of bytes.
pub mod Lines
use Prim.Native.String.{String}
use global_protect_openconne.Prelude.{
  ℕ, ◌+◌, ◌-◌, Bool, true, false, ◌&&◌, ◌||◌, not, Option, none, some, List, [], ◌∷◌, ◌++◌, ◌==◌,
  ltb, leb, if◌then◌else◌, length, drop, is_some,
}
use global_protect_openconne.Registry.{Bytes}

-- `Error 71 (Protocol error) dispatching to Wayland display`.
abbrev diagnostic : Bytes
diagnostic =
    69 ∷ 114 ∷ 114 ∷ 111 ∷ 114 ∷ 32 ∷ 55 ∷ 49 ∷ 32 ∷ 40 ∷ 80 ∷ 114 ∷ 111 ∷ 116 ∷ 111 ∷ 99 ∷ 111
    ∷ 108 ∷ 32 ∷ 101 ∷ 114 ∷ 114 ∷ 111 ∷ 114 ∷ 41 ∷ 32 ∷ 100 ∷ 105 ∷ 115 ∷ 112 ∷ 97 ∷ 116 ∷ 99 ∷ 104
    ∷ 105 ∷ 110 ∷ 103 ∷ 32 ∷ 116 ∷ 111 ∷ 32 ∷ 87 ∷ 97 ∷ 121 ∷ 108 ∷ 97 ∷ 110 ∷ 100 ∷ 32 ∷ 100 ∷ 105
    ∷ 115 ∷ 112 ∷ 108 ∷ 97 ∷ 121 ∷ []

abbrev gdk_message : Bytes
gdk_message = 71 ∷ 100 ∷ 107 ∷ 45 ∷ 77 ∷ 101 ∷ 115 ∷ 115 ∷ 97 ∷ 103 ∷ 101 ∷ 58 ∷ []

abbrev gpgui_prefix : Bytes
gpgui_prefix = 40 ∷ 103 ∷ 112 ∷ 103 ∷ 117 ∷ 105 ∷ 58 ∷ []

abbrev gpauth_prefix : Bytes
gpauth_prefix = 40 ∷ 103 ∷ 112 ∷ 97 ∷ 117 ∷ 116 ∷ 104 ∷ 58 ∷ []

abbrev helper_prefix : Bytes
helper_prefix = 40 ∷ 103 ∷ 112 ∷ 103 ∷ 117 ∷ 105 ∷ 45 ∷ 104 ∷ 101 ∷ 108 ∷ 112 ∷ 101 ∷ 114 ∷ 58 ∷ []

-- `[u8]::starts_with`, `ends_with` and the search in `windows`.
unfoldable pub starts_with : Bytes → Bytes → Bool
starts_with [] line = true
starts_with (p ∷ ps) [] = false
starts_with (p ∷ ps) (b ∷ bs) = p == b && starts_with ps bs

unfoldable pub ends_with : Bytes → Bytes → Bool
unfolding starts_with
ends_with suffix line =
    leb (length suffix) (length line)
    && starts_with suffix (drop (length line - length suffix) line)

unfoldable pub contains : Bytes → Bytes → Bool
unfolding starts_with
contains part [] = starts_with part []
contains part (b ∷ bs) = starts_with part (b ∷ bs) || contains part bs

abbrev is_ascii_whitespace : ℕ → Bool
is_ascii_whitespace b = b == 32 || b == 9 || b == 10 || b == 12 || b == 13

-- The whitespace at the end of a line is dropped.
unfoldable pub trim_ascii_end : Bytes → Bytes
trim_ascii_end [] = []
trim_ascii_end (b ∷ bs) = keep b (trim_ascii_end bs)
  where
    keep : ℕ → Bytes → Bytes
    keep b [] = if is_ascii_whitespace b then [] else b ∷ []
    keep b (c ∷ cs) = b ∷ c ∷ cs

-- `strip_suffix(b".")`, or the line itself.
unfoldable pub strip_dot : Bytes → Bytes
strip_dot [] = []
strip_dot (b ∷ []) = if b == 46 then [] else b ∷ []
strip_dot (b ∷ c ∷ cs) = b ∷ strip_dot (c ∷ cs)

abbrev has_prefix : Bytes → Bool
has_prefix line =
    starts_with gdk_message line
    || starts_with gpgui_prefix line
    || starts_with gpauth_prefix line
    || starts_with helper_prefix line

-- The condition of `check_line` on a line that is not too long.
unfoldable pub is_diagnostic : Bytes → Bool
unfolding starts_with ends_with contains trim_ascii_end strip_dot
is_diagnostic raw =
    let line = trim_ascii_end raw in
    has_prefix line && contains gdk_message line && ends_with diagnostic (strip_dot line)

abbrev pub max_line : ℕ
max_line = 1024

pub record StderrDiagnostic : Type 0 where
  pub line : Bytes
  pub overflow : Bool
  pub matched : Bool

abbrev pub new_diagnostic : StderrDiagnostic
new_diagnostic = record { line = []; overflow = false; matched = false }

unfoldable pub check_line : StderrDiagnostic → StderrDiagnostic
check_line d = if not d.overflow && is_diagnostic d.line then record d { matched = true } else d

unfoldable pub push_byte : ℕ → StderrDiagnostic → StderrDiagnostic
unfolding check_line
push_byte b d =
    if b == 10
    then record (check_line d) { line = []; overflow = false }
    else if ltb (length d.line) max_line
    then record d { line = d.line ++ b ∷ [] }
    else record d { overflow = true }

unfoldable pub push : Bytes → StderrDiagnostic → StderrDiagnostic
unfolding push_byte
push [] d = d
push (b ∷ bs) d = push bs (push_byte b d)

-- The method `matched`.
unfoldable pub has_matched : StderrDiagnostic → Bool
unfolding check_line
has_matched d = (check_line d).matched

-- What an attempt ended with, and the message that is kept of a crash.
pub data Failure : Type 0 where
  rendering_crash other_failure : (message : String) → Failure

abbrev pub RecoveryState : Type 0
RecoveryState = Option String

abbrev pub dmabuf_disabled : RecoveryState → Bool
dmabuf_disabled first_failure = is_some first_failure

unfoldable pub recover : Failure → RecoveryState → RecoveryState × Bool
recover (rendering_crash message) none = (some message, true)
recover (rendering_crash message) (some first) = (some first, false)
recover (other_failure message) s = (s, false)

-- An exit status: whether it is a success, and the signal that ended the process, if one did.
unfoldable pub is_crash_exit : Bool → Option ℕ → Bool
is_crash_exit success none = not success
is_crash_exit success (some n) = not success && not (n == 1 || n == 2 || n == 9 || n == 15)
