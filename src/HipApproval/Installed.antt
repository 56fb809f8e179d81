-- ===== src/HipApproval/Installed.antt =====
-- An installed HIP script is resolved again (apps/gpservice/src/hip_approval.rs).
use Prim.Native.String.{String}
use global_protect_openconne.Prelude.{
  ℕ, ◌≡◌, refl, arith, ==_refl, true, false, Option, some, [], ◌∷◌, ok, leb, ◌==◌, length,
}
use global_protect_openconne.Prelude.Map.{lookup, insert, lookup-insert}
use global_protect_openconne.VpnState.{Uuid}
use global_protect_openconne.Registry.{Bytes}
use global_protect_openconne.HipApproval.{
  InstallRequest, ApprovalInfo, StoredMetadata, directory, Approvals, validate_private_dir,
  validate_file, is_digest, bytes_eq, fits, contents, max_metadata_size, metadata_version,
}
use global_protect_openconne.HipApproval.Store.{
  read_metadata_unbound, read_metadata, resolve_at, resolve, new_directory, install_at, install,
}

bytes_eq_refl : (xs : Bytes) → bytes_eq xs xs ≡ true
bytes_eq_refl [] = refl
bytes_eq_refl (x ∷ xs) = ground (arith, bytes_eq_refl xs)

module _ (parse_id : String → Option Uuid) (encode : StoredMetadata → Bytes)
    (decode : Bytes → Option StoredMetadata) (sha256_hex : Bytes → Bytes) (file_owner : ℕ) where
  -- What an installation that succeeds has found and written.
  abbrev Installed : Bytes → ApprovalInfo → ℕ → Approvals → Type 0
  Installed script info uid a =
      (info.owner_uid ≡ uid)
      × ((uid == 0) ≡ false)
      × (fits script ≡ true)
      × (a.trusted_parents ≡ true)
      × (a.base ≡ some (record { file_type = directory; uid = file_owner; mode = 448 }))
      × (leb (length (encode (record { version = metadata_version; info = info })))
            max_metadata_size
          ≡ true)
      × (info.sha256 ≡ sha256_hex script)

  install-ok :
      (decode_base64 : Bytes → Option Bytes) (r : InstallRequest) (uid : ℕ) (fresh : Uuid)
      (a a' : Approvals) (info : ApprovalInfo) (script : Bytes)
      → contents decode_base64 r ≡ ok script
      → install parse_id encode decode sha256_hex file_owner decode_base64 r uid fresh a
        ≡ ok (a', info)
      → Installed script info uid a'
        × (info.approval_id ≡ fresh)
        × (a'.entries
            ≡ insert fresh
                (new_directory parse_id encode decode sha256_hex file_owner info script)
                a.entries)
  unfolding install install_at
  install-ok decode_base64 r uid fresh a a' info script q h = (
    (
      ground arith,
      ground arith,
      ground arith,
      ground arith,
      ground arith,
      ground arith,
      ground arith,
    ),
    ground arith,
    ground arith,
  )

  -- A script that was installed is resolved by the user who approved it, with its contents and its
  -- metadata as they were stored, under the identifier that was given to it, if serde_json reads
  -- back what it writes and a digest is 64 hexadecimal digits.
  pub resolve-install :
      (decode_base64 : Bytes → Option Bytes) (r : InstallRequest) (uid : ℕ) (fresh : Uuid)
      (a a' : Approvals) (info : ApprovalInfo) (script : Bytes) (text : String)
      → ((m : StoredMetadata) → decode (encode m) ≡ some m)
      → ((b : Bytes) → is_digest (sha256_hex b) ≡ true)
      → parse_id text ≡ some fresh
      → contents decode_base64 r ≡ ok script
      → install parse_id encode decode sha256_hex file_owner decode_base64 r uid fresh a
        ≡ ok (a', info)
      → resolve parse_id encode decode sha256_hex file_owner true text uid a'
        ≡ ok (record { info = info; script = script })
  unfolding resolve resolve_at read_metadata read_metadata_unbound validate_private_dir
      validate_file
  resolve-install decode_base64 r uid fresh a a' info script text round digest p q h =
      let ((u, z, t, v, b, m, g), i, n) =
        install-ok decode_base64 r uid fresh a a' info script q h in
      let d = new_directory parse_id encode decode sha256_hex file_owner info script in
      let found : lookup fresh a'.entries ≡ some d =
        rw n (ground (arith, lookup-insert fresh fresh d a.entries, ==_refl fresh)) in
      ground (
        arith,
        round (record { version = metadata_version; info = info }),
        digest script,
        bytes_eq_refl (sha256_hex script),
      )
