-- ===== src/Registry/Hip.antt =====
-- HIP reports of a session (apps/gpservice/src/session_registry.rs): the upload of an edited report
-- in chunks, the preview that is read in chunks, and the report that was last submitted.
use global_protect_openconne.Prelude.{
  ℕ, zero, suc, ◌+◌, ◌-◌, ◌*◌, Bool, false, ◌&&◌, ◌||◌, not, Option, none, some, [], ◌++◌, Result,
  ok, err, ltb, leb, ◌==◌, if◌then◌else◌, length, min, get_elem?, take, drop,
}
use global_protect_openconne.VpnState.{Uuid}
use global_protect_openconne.Registry.{
  Bytes, SessionError, unauthorized, unavailable, invalid_hip_upload, HipUploadResult, progress,
  stored, SessionRecord, Registry, find, put, is_active, max_edited_report_bytes,
  hip_preview_chunk_bytes,
}

-- `String::is_char_boundary`: an index that does not point at a continuation byte.
abbrev pub is_continuation : ℕ → Bool
is_continuation b = leb 128 b && ltb b 192

abbrev pub boundary_at : Option ℕ → Bool
boundary_at none = false
boundary_at (some b) = not (is_continuation b)

abbrev pub is_char_boundary : Bytes → ℕ → Bool
is_char_boundary xml i = i == length xml || boundary_at (get_elem? xml i)

-- The upload that a chunk goes to: a first chunk, at offset 0, starts a new one.
abbrev open_upload : Option Uuid → ℕ → Uuid → SessionRecord → Option SessionRecord
open_upload (some id) offset fresh r = some r
open_upload none offset fresh r =
    if offset == 0 then some (record r { edited_hip_upload = some (fresh, []) }) else none

abbrev other_upload : Option Uuid → Uuid → Bool
other_upload none current = false
other_upload (some id) current = not (id == current)

-- `is_valid_report` is `gphip::validate_edited_report`.
module _ (is_valid_report : Bytes → Bool) where
  finish_upload :
      Uuid
      → Bytes
      → Uuid
      → Uuid
      → SessionRecord
      → Registry
      → Registry × Result SessionError HipUploadResult
  unfolding put
  finish_upload id xml current report_id r g =
      if is_valid_report xml
      then (
        put id (record r { edited_hip_upload = none; edited_hip_report = some (report_id, xml) }) g,
        ok (stored report_id),
      )
      else (put id (record r { edited_hip_upload = none }) g, err invalid_hip_upload)

  extend_upload :
      Uuid
      → Option Uuid
      → ℕ
      → Bytes
      → Bool
      → Uuid
      → Option (Uuid × Bytes)
      → SessionRecord
      → Registry
      → Registry × Result SessionError HipUploadResult
  unfolding put finish_upload
  extend_upload id upload_id offset chunk complete report_id none r g =
      (put id r g, err invalid_hip_upload)
  extend_upload id upload_id offset chunk complete report_id (some (current, xml)) r g =
      if other_upload upload_id current
        || not (offset == length xml)
        || ltb (8 * 1024) (length chunk)
      then (put id r g, err invalid_hip_upload)
      else if ltb max_edited_report_bytes (length xml + length chunk)
      then (put id (record r { edited_hip_upload = none }) g, err invalid_hip_upload)
      else if complete
      then finish_upload id (xml ++ chunk) current report_id r g
      else (
        put id (record r { edited_hip_upload = some (current, xml ++ chunk) }) g,
        ok (progress current),
      )

  -- `fresh` and `report_id` are the random identifiers that may be drawn.
  unfoldable pub append_edited_hip_report_chunk :
      Uuid
      → Option Uuid
      → ℕ
      → Bytes
      → Bool
      → Uuid
      → Uuid
      → Registry
      → Registry × Result SessionError HipUploadResult
  unfolding extend_upload
  append_edited_hip_report_chunk id upload_id offset chunk complete fresh report_id g =
      elim (find unavailable unauthorized g id) [
        | err e ↦ (g, err e)
        | ok r ↦
            if not (is_active r)
            then (g, err unauthorized)
            else elim (open_upload upload_id offset fresh r) [
              | none ↦ (g, err invalid_hip_upload)
              | some r' ↦
                  extend_upload id upload_id offset chunk complete report_id r'.edited_hip_upload r'
                    g
            ]
      ]

abbrev pub report_with : Uuid → Option (Uuid × Bytes) → Result SessionError Bytes
report_with id none = err unauthorized
report_with id (some (current, xml)) = if current == id then ok xml else err unauthorized

unfoldable pub edited_hip_report : Uuid → Uuid → Registry → Result SessionError Bytes
edited_hip_report id report_id g = elim (find unavailable unauthorized g id) [
  | err e ↦ err e
  | ok r ↦ report_with report_id r.edited_hip_report
]

unfoldable pub store_hip_preview :
    Uuid → Bytes → Uuid → Registry → Registry × Result SessionError Uuid
unfolding put
store_hip_preview id xml preview_id g = elim (find unavailable unauthorized g id) [
  | err e ↦ (g, err e)
  | ok r ↦
      if not (is_active r)
      then (g, err unauthorized)
      else (put id (record r { hip_preview = some (preview_id, xml) }) g, ok preview_id)
]

-- `while !xml.is_char_boundary(end) { end -= 1; }`, which index 0 ends.
unfoldable pub boundary_below : Bytes → ℕ → ℕ
boundary_below xml zero = zero
boundary_below xml (suc n) =
    let rest = boundary_below xml n in if is_char_boundary xml (suc n) then suc n else rest

-- The part of a report from an index on, and whether it is the last.
unfoldable pub chunk_at : Bytes → ℕ → Result SessionError (Bytes × Bool)
unfolding boundary_below
chunk_at xml offset =
    if ltb (length xml) offset || not (is_char_boundary xml offset)
    then err unauthorized
    else let end = boundary_below xml (min (offset + hip_preview_chunk_bytes) (length xml)) in
      ok (take (end - offset) (drop offset xml), end == length xml)

unfoldable pub hip_preview_chunk : Uuid → Uuid → ℕ → Registry → Result SessionError (Bytes × Bool)
hip_preview_chunk id preview_id offset g = elim (find unavailable unauthorized g id) [
  | err e ↦ err e
  | ok r ↦ elim (report_with preview_id r.hip_preview) [
    | err e ↦ err e
    | ok xml ↦ chunk_at xml offset
  ]
]

unfoldable pub store_successful_hip_report :
    Uuid → Bytes → Registry → Registry × Result SessionError (Unit {0})
unfolding put
store_successful_hip_report id xml g =
    if ltb (1024 * 1024) (length xml)
    then (g, err unavailable)
    else elim (find unavailable unauthorized g id) [
      | err e ↦ (g, err e)
      | ok r ↦
          if not (is_active r)
          then (g, err unauthorized)
          else (put id (record r { last_successful_hip_report = some xml }) g, ok tt)
    ]

unfoldable pub last_successful_hip_report : Uuid → Registry → Result SessionError (Option Bytes)
last_successful_hip_report id g = elim (find unavailable unauthorized g id) [
  | err e ↦ err e
  | ok r ↦ ok r.last_successful_hip_report
]

unfoldable pub clear_successful_hip_report : Uuid → Registry → Registry
unfolding put
clear_successful_hip_report id g = elim (find unavailable unauthorized g id) [
  | err e ↦ g
  | ok r ↦ put id (record r { last_successful_hip_report = none }) g
]
