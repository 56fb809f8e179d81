-- ===== src/HipApproval.antt =====
-- Approved HIP scripts: apps/gpservice/src/hip_approval.rs, on a model of its directory. A directory
-- of approvals holds one directory for each approval, named by its identifier, with a script and
-- its metadata in it; a revoked approval is renamed away. Left out are failures of the disk, the
-- cleanup of revoked approvals (a failed one leaves a renamed directory), and syncing.
pub mod Store
pub mod Owners
pub mod Installed
use Prim.Native.String.{String}
use text.Mathlib.Text.{◌==◌ as str_eq}
use global_protect_openconne.Prelude.{
  ℕ, ◌+◌, ◌*◌, ◌/◌, ◌%◌, ◌^◌, Bool, true, false, ◌&&◌, ◌||◌, not, Option, none, some, List, [], ◌∷◌,
  Result, ok, err, ltb, leb, ◌==◌, if◌then◌else◌, length,
}
use global_protect_openconne.Prelude.Attempt.{◌>>=◌, ◌>>◌, ensure}
use global_protect_openconne.Prelude.Map.{Map}
use global_protect_openconne.VpnState.{Uuid}
use global_protect_openconne.Registry.{Bytes}

-- `common::constants::MAX_HIP_SCRIPT_SIZE`, 1 MiB.
abbrev pub max_script_size : ℕ
max_script_size = 1024 * 1024

abbrev pub max_metadata_size : ℕ
max_metadata_size = 8 * 1024

abbrev pub metadata_version : ℕ
metadata_version = 1

pub data Refusal : Type 0 where
  root_user bad_path too_large bad_encoding bad_identifier not_private unsafe_file missing
        bad_metadata other_owner digest_mismatch collision unsafe_parent out_of_time :
      Refusal

pub record InstallRequest : Type 0 where
  pub original_path : Bytes
  pub contents_base64 : Bytes

pub record ApprovalInfo : Type 0 where
  pub approval_id : Uuid
  pub owner_uid : ℕ
  pub sha256 : Bytes
  pub original_path : Bytes

pub record StoredMetadata : Type 0 where
  pub version : ℕ
  pub info : ApprovalInfo

pub data FileType : Type 0 where
  regular directory symlink : FileType

pub record Attributes : Type 0 where
  pub file_type : FileType
  pub uid : ℕ
  pub mode : ℕ

pub record File : Type 0 where
  pub attributes : Attributes
  pub contents : Bytes

pub record ApprovalDirectory : Type 0 where
  pub attributes : Attributes
  pub script : Option File
  pub metadata : Option File

-- `base` is none where the directory does not exist; `trusted_parents` is whether
-- `validate_approval_ancestors` accepts it and the directories above it, once it exists.
pub record Approvals : Type 0 where
  pub base : Option Attributes
  pub trusted_parents : Bool
  pub entries : Map ApprovalDirectory
  pub revoked : Map ApprovalDirectory

abbrev pub is_directory : FileType → Bool
is_directory directory = true
is_directory _ = false

abbrev pub is_regular : FileType → Bool
is_regular regular = true
is_regular _ = false

-- The permission bits for the group and for others, `mode & 0o077`.
abbrev pub shared_bits : ℕ → ℕ
shared_bits mode = mode % 64

unfoldable pub validate_private_dir : Option Attributes → ℕ → Result Refusal (Unit {0})
validate_private_dir none owner = err missing
validate_private_dir (some a) owner = do
  ensure (is_directory a.file_type) not_private
  ensure (a.uid == owner && shared_bits a.mode == 0) not_private

-- The found file is handed on, where the code opens it again by its path.
unfoldable pub validate_file : Option File → ℕ → ℕ → ℕ → Result Refusal File
validate_file none owner mode max_size = err missing
validate_file (some f) owner mode max_size = do
  ensure (is_regular f.attributes.file_type) unsafe_file
  ensure (f.attributes.uid == owner && (f.attributes.mode % 512 == mode)) unsafe_file
  ensure (leb (length f.contents) max_size) too_large
  ok f

abbrev pub is_hex_digit : ℕ → Bool
is_hex_digit b = (leb 48 b && leb b 57) || (leb 65 b && leb b 70) || (leb 97 b && leb b 102)

abbrev pub all_hex : Bytes → Bool
all_hex [] = true
all_hex (b ∷ bs) = is_hex_digit b && all_hex bs

abbrev pub is_digest : Bytes → Bool
is_digest text = length text == 64 && all_hex text

abbrev pub bytes_eq : Bytes → Bytes → Bool
bytes_eq [] [] = true
bytes_eq (a ∷ xs) (b ∷ ys) = a == b && bytes_eq xs ys
bytes_eq _ _ = false

abbrev is_absolute : Bytes → Bool
is_absolute [] = false
is_absolute (b ∷ bs) = b == 47

abbrev contains_nul : Bytes → Bool
contains_nul [] = false
contains_nul (b ∷ bs) = b == 0 || contains_nul bs

abbrev pub fits : Bytes → Bool
fits script = not (length script == 0) && leb (length script) max_script_size

-- `decode_base64` is the standard engine of the crate base64.
unfoldable pub contents : (Bytes → Option Bytes) → InstallRequest → Result Refusal Bytes
contents decode_base64 r = do
  ensure (leb (length r.original_path) 4096) bad_path
  ensure (is_absolute r.original_path) bad_path
  ensure (not (contains_nul r.original_path)) bad_path
  ensure (leb (length r.contents_base64) ((max_script_size + 2 + 2) / 3 * 4)) too_large
  script ← elim (decode_base64 r.contents_base64) [ none ↦ err bad_encoding | some s ↦ ok s ]
  ensure (fits script) too_large
  ok script
