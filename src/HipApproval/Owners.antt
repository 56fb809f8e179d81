-- ===== src/HipApproval/Owners.antt =====
-- Who may run and revoke an approved HIP script (apps/gpservice/src/hip_approval.rs).
use Prim.Native.String.{String}
use global_protect_openconne.Prelude.{
  ℕ, ◌≡◌, inl, inr, arith, Result-cases, ==_refl, Bool, true, false, Option, none, some, Result, ok,
  err, ◌==◌, is_ok, if◌then◌else◌,
}
use global_protect_openconne.Prelude.Map.{lookup, lookup-remove}
use global_protect_openconne.VpnState.{Uuid}
use global_protect_openconne.Registry.{Bytes}
use global_protect_openconne.HipApproval.{
  validate_file, Refusal, File, ApprovalInfo, StoredMetadata, ApprovalDirectory, Approvals,
  validate_private_dir, bytes_eq, fits,
}
use global_protect_openconne.HipApproval.Store.{
  revoked, ApprovedScript, metadata_of, script_of, read_metadata_unbound, read_metadata, resolve_at,
  resolve, revoke_at, revoke, status,
}

module _ (parse_id : String → Option Uuid) (encode : StoredMetadata → Bytes)
    (decode : Bytes → Option StoredMetadata) (sha256_hex : Bytes → Bytes) (file_owner : ℕ) where
  -- What metadata that was read without its owner say of the store.
  read_metadata_unbound-ok :
      (text : String) (a : Approvals) (info : ApprovalInfo)
      → read_metadata_unbound parse_id encode decode sha256_hex file_owner text a ≡ ok info
      → parse_id text ≡ some info.approval_id
  unfolding read_metadata_unbound
  read_metadata_unbound-ok text a info h = ground arith

  -- What the files of an approval hold, read without any check.
  abbrev pub info_of : Option StoredMetadata → Option ApprovalInfo
  info_of none = none
  info_of (some s) = some s.info

  abbrev pub stored_info : Option File → Option ApprovalInfo
  stored_info none = none
  stored_info (some f) = info_of (decode f.contents)

  abbrev pub stored_script : Option File → Option Bytes
  stored_script none = none
  stored_script (some f) = some f.contents

  -- A script that is resolved is the one that is stored under the identifier, with the metadata that
  -- are stored there: they name this approval, the desktop user who asks, who is not root, and the
  -- digest of the script, which is not empty and at most 1 MiB.
  pub resolve-ok :
      (in_time : Bool) (text : String) (uid : ℕ) (a : Approvals) (s : ApprovedScript) (id : Uuid)
      → parse_id text ≡ some id
      → resolve parse_id encode decode sha256_hex file_owner in_time text uid a ≡ ok s
      → (stored_info (metadata_of (lookup id a.entries)) ≡ some s.info)
        × (stored_script (script_of (lookup id a.entries)) ≡ some s.script)
        × (s.info.approval_id ≡ id)
        × (s.info.owner_uid ≡ uid)
        × ((uid == 0) ≡ false)
        × (bytes_eq (sha256_hex s.script) s.info.sha256 ≡ true)
        × (fits s.script ≡ true)
  unfolding resolve resolve_at read_metadata read_metadata_unbound validate_file
  resolve-ok in_time text uid a s id p h = (
    ground arith,
    ground arith,
    ground arith,
    ground arith,
    ground arith,
    ground arith,
    ground arith,
  )

  abbrev pub owner_of : Result Refusal ApprovalInfo → Option ℕ
  owner_of (ok info) = some info.owner_uid
  owner_of (err e) = none

  -- Only its owner revokes an approval: where there is one, a revocation that succeeds was asked for
  -- by the user whom its metadata name, and it takes away this approval and leaves every other.
  pub revoke-ok :
      (text : String) (uid : ℕ) (a a' : Approvals) (id j : Uuid) (d : ApprovalDirectory)
      → parse_id text ≡ some id
      → lookup id a.entries ≡ some d
      → revoke parse_id encode decode sha256_hex file_owner text uid a ≡ ok a'
      → (owner_of (read_metadata_unbound parse_id encode decode sha256_hex file_owner text a)
          ≡ some uid)
        × (lookup j a'.entries ≡ (if id == j then none else lookup j a.entries))
  unfolding revoke revoke_at read_metadata
  revoke-ok text uid a a' id j d p f h =
      elim (Result-cases
        (read_metadata_unbound parse_id encode decode sha256_hex file_owner text a)) [
          | inl (e, q) ↦ (ground arith, ground (arith, lookup-remove id j a.entries))
          | inr (info, q) ↦ (ground arith, ground (arith, lookup-remove id j a.entries))
        ]

  -- A revoked approval is gone for every user.
  resolve_at-gone :
      (in_time : Bool) (text : String) (uid : ℕ) (a : Approvals) (id : Uuid)
      → parse_id text ≡ some id
      → lookup id a.entries ≡ none
      → is_ok (resolve_at parse_id encode decode sha256_hex file_owner in_time text uid a) ≡ false
  unfolding resolve_at read_metadata read_metadata_unbound validate_private_dir
  resolve_at-gone in_time text uid a id p f = ground arith

  revoke-gone :
      (text : String) (uid : ℕ) (a a' : Approvals) (id : Uuid)
      → parse_id text ≡ some id
      → revoke parse_id encode decode sha256_hex file_owner text uid a ≡ ok a'
      → lookup id a'.entries ≡ none
  unfolding revoke revoke_at read_metadata
  revoke-gone text uid a a' id p h = ground (arith, lookup-remove id id a.entries, ==_refl id)

  -- After a revocation that succeeds no user resolves the approval, and every desktop user who asks
  -- is told that it is revoked.
  pub status-revoke :
      (text : String) (uid other : ℕ) (in_time : Bool) (a a' : Approvals) (id : Uuid)
      → parse_id text ≡ some id
      → (other == 0) ≡ false
      → revoke parse_id encode decode sha256_hex file_owner text uid a ≡ ok a'
      → (status parse_id encode decode sha256_hex file_owner in_time text other a' ≡ ok revoked)
        × (is_ok (resolve parse_id encode decode sha256_hex file_owner in_time text other a')
            ≡ false)
  unfolding status resolve
  status-revoke text uid other in_time a a' id p n h =
      let gone = revoke-gone text uid a a' id p h in
      let not_resolved = resolve_at-gone in_time text other a' id p gone in
      (ground arith, ground arith)
