-- ===== src/Upload/Tus.antt =====
-- internal/upload/tusstore.go: the calls that tusd makes on the upload service. A handle is what one
-- request holds of an upload in progress. tusd passes offsets that it has read as numbers.
use sendan.Prelude.{
  ℕ, ◌+◌, Bool, ◌&&◌, Option, none, some, Bytes, Result, ok, err, Error, ◌>>=◌, if◌then◌else◌, ltb,
  size_required, too_large, invalid_length, upload_exists, conflict, tus_not_found,
  tus_mismatch_offset, offset_mismatch, blob_not_found, is_not_found,
}
use sendan.Prelude.Int.{ℤ, pos, is_negative, ltb_ℤ}
use sendan.Store.Table.{create, pending, complete_upload}
use sendan.Blob.Files.{Reader, Written, partial_length, finish}
use sendan.Blob.Shredder.{Cipher, shred_write_chunk}
use sendan.Upload.Attempts.{Attempts}
use sendan.Upload.Policy.{Policy}
use sendan.Upload.Request.{Values, new_row}
use sendan.Upload.Service.{World}

-- What tusd has read of the request that creates an upload.
pub record Info : Type 0 where
  pub size : ℤ
  pub size_is_deferred : Bool
  pub values : Values

-- `tusUpload`
pub record Handle : Type 0 where
  pub id : Bytes
  pub size : ℤ
  pub offset : ℕ
  pub at_rest_key : Option Bytes

-- A taken identifier is answered under an error of its own.
unfoldable pub creation_error : Error → Error
creation_error conflict = upload_exists
creation_error e = e

unfoldable pub missing_upload : Error → Error
missing_upload e = if is_not_found e then tus_not_found else e

unfoldable pub chunk_error : Error → Error
chunk_error offset_mismatch = tus_mismatch_offset
chunk_error e = e

-- The length of a partial upload; where there is none yet, zero.
unfoldable pub stored_offset : Result ℕ → Result ℕ
stored_offset (ok n) = ok n
stored_offset (err blob_not_found) = ok 0
stored_offset (err e) = err e

module _ (tries : Attempts) (digest : Bytes → Bytes) where
  -- `NewUpload`, with the largest size accepted, where zero is no bound.
  unfoldable pub new_upload :
      Bool
      → ℕ
      → Policy
      → Result Bytes
      → Info
      → ℕ
      → World tries digest
      → World tries digest × Result Handle
  unfolding creation_error
  new_upload failing max_size p fresh_key info now w =
      if info.size_is_deferred
      then (w, err size_required)
      else if ltb 0 max_size && ltb_ℤ (pos max_size) info.size
      then (w, err too_large)
      else if is_negative info.size
      then (w, err invalid_length)
      else elim (new_row p fresh_key info.values info.size now) [
        | err e ↦ (w, err e)
        | ok u ↦ elim (create failing u w.table) [
          | err e ↦ (w, err (creation_error e))
          | ok t ↦ (
            record w { table = t },
            ok (record { id = u.id; size = info.size; offset = 0; at_rest_key = none }),
          )
        ]
      ]

  -- `GetUpload`
  unfoldable pub get_upload : Bool → Bool → Bytes → World tries digest → Result Handle
  unfolding missing_upload stored_offset
  get_upload failing length_fails id w = elim (pending failing id w.table) [
    | err e ↦ err (missing_upload e)
    | ok u ↦ do
      offset ← stored_offset (partial_length length_fails id w.files)
      ok (record { id = id; size = u.size; offset = offset; at_rest_key = some u.at_rest_key })
  ]

  -- `(*tusUpload).key`
  unfoldable pub handle_key : Bool → Handle → World tries digest → Result Bytes
  unfolding missing_upload
  handle_key failing h w = elim h.at_rest_key [
    | some key ↦ ok key
    | none ↦ elim (pending failing h.id w.table) [
      | err e ↦ err (missing_upload e)
      | ok u ↦ ok u.at_rest_key
    ]
  ]

  -- `WriteChunk`: the state, the handle with its new offset and key, and what is reported.
  unfoldable pub write_upload_chunk :
      Cipher
      → Bool
      → Bool
      → Bool
      → Handle
      → ℕ
      → Reader
      → World tries digest
      → World tries digest × (Handle × Written)
  unfolding handle_key chunk_error
  write_upload_chunk cipher failing setup_fails sync_fails h offset r w =
      elim (handle_key failing h w) [
        | err e ↦ (w, (h, record { count = 0; fault = some e }))
        | ok key ↦
            let (fs, wrote) =
              shred_write_chunk cipher setup_fails sync_fails h.id key (pos offset) r w.files in
            (
              record w { files = fs },
              (
                record h { offset = offset + wrote.count; at_rest_key = some key },
                elim wrote.fault [
                  | none ↦ wrote
                  | some e ↦ record wrote { fault = some (chunk_error e) }
                ],
              ),
            )
      ]

  -- `FinishUpload`: the blob is finished first, then the row completed.
  unfoldable pub finish_upload :
      Bool → Bool → Handle → ℕ → World tries digest → World tries digest × Result (Unit {0})
  finish_upload finish_fails failing h now w =
      let (fs, answer) = finish finish_fails h.id w.files in
      elim answer [
        | err e ↦ (record w { files = fs }, err e)
        | ok _ ↦ elim (complete_upload failing h.id now w.table) [
          | err e ↦ (record w { files = fs }, err e)
          | ok t ↦ (record w { files = fs; table = t }, ok tt)
        ]
      ]
