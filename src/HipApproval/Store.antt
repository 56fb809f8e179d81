-- ===== src/HipApproval/Store.antt =====
-- Installing, resolving and revoking approved HIP scripts (apps/gpservice/src/hip_approval.rs).
use Prim.Native.String.{String}
use global_protect_openconne.Prelude.{
  ℕ, Bool, ◌&&◌, ◌||◌, not, Option, none, some, Result, ok, err, leb, ◌==◌, is_some, is_ok, is_none,
  if◌then◌else◌, length,
}
use global_protect_openconne.Prelude.Attempt.{◌>>=◌, ◌>>◌, ensure}
use global_protect_openconne.Prelude.Map.{lookup, insert, remove}
use global_protect_openconne.VpnState.{Uuid}
use global_protect_openconne.Registry.{Bytes}
use global_protect_openconne.HipApproval.{
  Refusal, root_user, too_large, bad_identifier, bad_metadata, other_owner, digest_mismatch,
  collision, unsafe_parent, out_of_time, InstallRequest, ApprovalInfo, StoredMetadata, regular,
  directory, Attributes, File, ApprovalDirectory, Approvals, validate_private_dir, validate_file,
  is_digest, bytes_eq, fits, contents, max_script_size, max_metadata_size, metadata_version,
}

pub data HipApprovalStatus : Type 0 where
  valid revoked corrupt other_user : HipApprovalStatus

pub record ApprovedScript : Type 0 where
  pub info : ApprovalInfo
  pub script : Bytes

-- The directory of an approval, and the files in it.
abbrev pub attributes_of : Option ApprovalDirectory → Option Attributes
attributes_of none = none
attributes_of (some d) = some d.attributes

abbrev pub metadata_of : Option ApprovalDirectory → Option File
metadata_of none = none
metadata_of (some d) = d.metadata

abbrev pub script_of : Option ApprovalDirectory → Option File
script_of none = none
script_of (some d) = d.script

-- `parse_id` reads a text that is the canonical form of an identifier, by the crate uuid.
-- `encode` and `decode` are serde_json's for the metadata; `sha256_hex` is the digest in
-- hexadecimal. `file_owner` is the user who owns the files, root in the service.
module _ (parse_id : String → Option Uuid) (encode : StoredMetadata → Bytes)
    (decode : Bytes → Option StoredMetadata) (sha256_hex : Bytes → Bytes) (file_owner : ℕ) where
  abbrev pub validate_id : String → Result Refusal Uuid
  validate_id text = elim (parse_id text) [ none ↦ err bad_identifier | some id ↦ ok id ]

  unfoldable pub read_metadata_unbound : String → Approvals → Result Refusal ApprovalInfo
  read_metadata_unbound text a = do
    id ← validate_id text
    validate_private_dir a.base file_owner
    validate_private_dir (attributes_of (lookup id a.entries)) file_owner
    file ← validate_file (metadata_of (lookup id a.entries)) file_owner 384 max_metadata_size
    stored ← elim (decode file.contents) [ none ↦ err bad_metadata | some s ↦ ok s ]
    ensure (stored.version == metadata_version) bad_metadata
    ensure (stored.info.approval_id == id) bad_metadata
    ensure (is_digest stored.info.sha256) bad_metadata
    ok stored.info

  unfoldable pub read_metadata : String → ℕ → Approvals → Result Refusal ApprovalInfo
  unfolding read_metadata_unbound
  read_metadata text uid a = do
    info ← read_metadata_unbound text a
    ensure (info.owner_uid == uid) other_owner
    ok info

  -- The script is that of the identifier, which the metadata repeats.
  -- `in_time`: no check of the collection's budget fails; the code checks it between its steps.
  unfoldable pub resolve_at : Bool → String → ℕ → Approvals → Result Refusal ApprovedScript
  unfolding read_metadata
  resolve_at in_time text uid a = do
    ensure in_time out_of_time
    info ← read_metadata text uid a
    file ←
        validate_file (script_of (lookup info.approval_id a.entries)) file_owner 320 max_script_size
    ensure (fits file.contents) too_large
    ensure (bytes_eq (sha256_hex file.contents) info.sha256) digest_mismatch
    ok (record { info = info; script = file.contents })

  unfoldable pub resolve : Bool → String → ℕ → Approvals → Result Refusal ApprovedScript
  unfolding resolve_at
  resolve in_time text uid a = do
    ensure in_time out_of_time
    ensure (not (uid == 0)) root_user
    ensure a.trusted_parents unsafe_parent
    resolve_at in_time text uid a

  abbrev private_file : ℕ → Bytes → File
  private_file mode bytes = record {
    attributes = record { file_type = regular; uid = file_owner; mode = mode };
    contents = bytes;
  }

  abbrev pub new_info : Uuid → Bytes → Bytes → ℕ → ApprovalInfo
  new_info fresh script path uid = record {
    approval_id = fresh;
    owner_uid = uid;
    sha256 = sha256_hex script;
    original_path = path;
  }

  abbrev pub new_directory : ApprovalInfo → Bytes → ApprovalDirectory
  new_directory info script = record {
    attributes = record { file_type = directory; uid = file_owner; mode = 448 };
    script = some (private_file 320 script);
    metadata =
        some (private_file 384 (encode (record { version = metadata_version; info = info })));
  }

  -- `fresh` is the new identifier. The staged directory is not seen before it is renamed.
  unfoldable pub install_at :
      Bytes → Bytes → ℕ → Uuid → Approvals → Result Refusal (Approvals × ApprovalInfo)
  install_at script path uid fresh a = do
    validate_private_dir a.base file_owner
    ensure (fits script) too_large
    ensure
        (leb
          (length
            (encode (record { version = metadata_version; info = new_info fresh script path uid })))
          max_metadata_size)
        too_large
    ensure (is_none (lookup fresh a.entries)) collision
    ok (
      record a {
        entries = insert fresh (new_directory (new_info fresh script path uid) script) a.entries;
      },
      new_info fresh script path uid,
    )

  -- The base directory is made, and made private, first.
  abbrev prepared : Approvals → Approvals
  prepared a = record a {
    base = some (record { file_type = directory; uid = file_owner; mode = 448 });
  }

  unfoldable pub install :
      (Bytes → Option Bytes)
      → InstallRequest
      → ℕ
      → Uuid
      → Approvals
      → Result Refusal (Approvals × ApprovalInfo)
  unfolding install_at contents
  install decode_base64 r uid fresh a = do
    ensure (not (uid == 0)) root_user
    script ← contents decode_base64 r
    ensure a.trusted_parents unsafe_parent
    install_at script r.original_path uid fresh (prepared a)

  unfoldable pub revoke_at : String → ℕ → Approvals → Result Refusal Approvals
  unfolding read_metadata
  revoke_at text uid a = do
    id ← validate_id text
    elim (lookup id a.entries) [
      | none ↦ ok a
      | some d ↦ do
        info ← read_metadata text uid a
        ok (record a { entries = remove id a.entries; revoked = insert id d a.revoked })
    ]

  unfoldable pub revoke : String → ℕ → Approvals → Result Refusal Approvals
  unfolding revoke_at
  revoke text uid a = do
    ensure (not (uid == 0)) root_user
    ensure a.trusted_parents unsafe_parent
    revoke_at text uid a

  abbrev status_of_owner : ℕ → Bool → ApprovalInfo → HipApprovalStatus
  status_of_owner uid resolves info =
      if not (info.owner_uid == uid) then other_user else if resolves then valid else corrupt

  -- The status of an approval whose directories and metadata file are there.
  unfoldable pub found_status : Bool → String → ℕ → Approvals → HipApprovalStatus
  unfolding read_metadata_unbound resolve_at
  found_status in_time text uid a =
      if not (is_ok (validate_private_dir a.base file_owner)) || not a.trusted_parents
      then corrupt
      else elim (read_metadata_unbound text a) [
        | err e ↦ corrupt
        | ok info ↦ status_of_owner uid (is_ok (resolve_at in_time text uid a)) info
      ]

  unfoldable pub status : Bool → String → ℕ → Approvals → Result Refusal HipApprovalStatus
  unfolding found_status
  status in_time text uid a = do
    ensure (not (uid == 0)) root_user
    id ← validate_id text
    ok (
        if is_some a.base && is_some (metadata_of (lookup id a.entries))
        then found_status in_time text uid a
        else revoked)
