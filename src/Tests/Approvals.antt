-- ===== src/Tests/Approvals.antt =====
-- Runs of the HIP approvals of apps/gpservice/src/hip_approval.rs.
use Prim.Native.String.{String}
use global_protect_openconne.Prelude.{
  ℕ, zero, suc, ◌≡◌, refl, ap, true, false, Option, none, some, [], ◌∷◌, ◌++◌, Result, ok, err,
  ◌==◌, length, take, drop, if◌then◌else◌, is_ok,
}
use global_protect_openconne.Prelude.Map.{lookup, insert, remove}
use global_protect_openconne.VpnState.{Uuid}
use global_protect_openconne.Registry.{Bytes}
use global_protect_openconne.HipApproval.{
  Refusal, InstallRequest, ApprovalInfo, StoredMetadata, Approvals, contents, validate_private_dir,
  validate_file, bytes_eq, fits, directory,
}
use global_protect_openconne.HipApproval.Store.{
  metadata_of, script_of, resolve, resolve_at, read_metadata, read_metadata_unbound, install,
  install_at, new_directory, revoke, revoke_at, status, revoked,
}
use global_protect_openconne.HipApproval.Owners.{
  resolve-ok, stored_info, stored_script, revoke-ok, owner_of, status-revoke,
}
use global_protect_openconne.HipApproval.Installed.{resolve-install}

-- Every text names the approval 7.
abbrev parse_id : String → Option Uuid
parse_id text = some 7

-- A pair of functions that read back what they write, and a digest that is always the same.
abbrev encode : StoredMetadata → Bytes
encode m =
    m.version
    ∷ m.info.approval_id
    ∷ m.info.owner_uid
    ∷ length m.info.sha256
    ∷ (m.info.sha256 ++ m.info.original_path)

abbrev decode : Bytes → Option StoredMetadata
decode (version ∷ id ∷ uid ∷ n ∷ rest) = some (record {
  version = version;
  info = record {
    approval_id = id;
    owner_uid = uid;
    sha256 = take n rest;
    original_path = drop n rest;
  };
})
decode _ = none

take-append : (xs ys : Bytes) → take (length xs) (xs ++ ys) ≡ xs
take-append [] ys = refl
take-append (x ∷ xs) ys = ap (λ l. x ∷ l) (take-append xs ys)

drop-append : (xs ys : Bytes) → drop (length xs) (xs ++ ys) ≡ ys
drop-append [] ys = refl
drop-append (x ∷ xs) ys = drop-append xs ys

decode-encode : (m : StoredMetadata) → decode (encode m) ≡ some m
decode-encode m =
    rw
      (
        take-append m.info.sha256 m.info.original_path,
        drop-append m.info.sha256 m.info.original_path,
      )
      refl

abbrev letters : ℕ → Bytes
letters zero = []
letters (suc n) = 97 ∷ letters n

abbrev sha256_hex : Bytes → Bytes
sha256_hex b = letters 64

abbrev decode_base64 : Bytes → Option Bytes
decode_base64 b = some b

abbrev request : InstallRequest
request = record { original_path = 47 ∷ 104 ∷ []; contents_base64 = 1 ∷ 2 ∷ 3 ∷ [] }

abbrev no_approvals : Approvals
no_approvals = record {
  base = some (record { file_type = directory; uid = 0; mode = 448 });
  trusted_parents = true;
  entries = [];
  revoked = [];
}

abbrev approved : ApprovalInfo
approved = record {
  approval_id = 7;
  owner_uid = 1000;
  sha256 = letters 64;
  original_path = 47 ∷ 104 ∷ [];
}

abbrev approvals_of : Approvals → Result Refusal (Approvals × ApprovalInfo) → Approvals
approvals_of a (ok (a', info)) = a'
approvals_of a (err e) = a

abbrev one_approval : Approvals
unfolding install
one_approval =
    approvals_of no_approvals
      (install parse_id encode decode sha256_hex 0 decode_base64 request 1000 7 no_approvals)

resolve-install_example :
    resolve parse_id encode decode sha256_hex 0 true "7" 1000 one_approval
    ≡ ok (record { info = approved; script = 1 ∷ 2 ∷ 3 ∷ [] })
unfolding install install_at contents insert lookup validate_private_dir validate_file
resolve-install_example =
    resolve-install parse_id encode decode sha256_hex 0 decode_base64 request 1000 7 no_approvals
      one_approval approved (1 ∷ 2 ∷ 3 ∷ []) "7" decode-encode (λ b. refl) refl refl refl

resolve-ok_example :
    (stored_info parse_id encode decode sha256_hex 0 (metadata_of (lookup 7 one_approval.entries))
      ≡ some approved)
    × (stored_script parse_id encode decode sha256_hex 0 (script_of (lookup 7 one_approval.entries))
        ≡ some (1 ∷ 2 ∷ 3 ∷ []))
    × (approved.approval_id ≡ 7)
    × (approved.owner_uid ≡ 1000)
    × ((1000 == 0) ≡ false)
    × (bytes_eq (letters 64) approved.sha256 ≡ true)
    × (fits (1 ∷ 2 ∷ 3 ∷ []) ≡ true)
unfolding install install_at contents resolve resolve_at read_metadata read_metadata_unbound
    validate_private_dir validate_file lookup insert
resolve-ok_example =
    resolve-ok parse_id encode decode sha256_hex 0 true "7" 1000 one_approval
      (record { info = approved; script = 1 ∷ 2 ∷ 3 ∷ [] }) 7 refl refl

abbrev revoked_state : Approvals
revoked_state = record one_approval { entries = []; revoked = one_approval.entries }

revoke-ok_example :
    (owner_of parse_id encode decode sha256_hex 0
        (read_metadata_unbound parse_id encode decode sha256_hex 0 "7" one_approval)
      ≡ some 1000)
    × (lookup 8 revoked_state.entries ≡ (if 7 == 8 then none else lookup 8 one_approval.entries))
unfolding install install_at contents read_metadata read_metadata_unbound validate_private_dir
    validate_file lookup insert remove revoke revoke_at
revoke-ok_example =
    revoke-ok parse_id encode decode sha256_hex 0 "7" 1000 one_approval revoked_state 7 8
      (new_directory parse_id encode decode sha256_hex 0 approved (1 ∷ 2 ∷ 3 ∷ [])) refl refl refl

status-revoke_example :
    (status parse_id encode decode sha256_hex 0 true "7" 1001 revoked_state ≡ ok revoked)
    × (is_ok (resolve parse_id encode decode sha256_hex 0 true "7" 1001 revoked_state) ≡ false)
unfolding install install_at contents read_metadata read_metadata_unbound validate_private_dir
    validate_file lookup insert remove revoke revoke_at
status-revoke_example =
    status-revoke parse_id encode decode sha256_hex 0 "7" 1000 1001 true one_approval revoked_state
      7 refl refl refl
