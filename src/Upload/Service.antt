-- ===== src/Upload/Service.antt =====
-- internal/upload/upload.go, auth.go and metadata.go: the service over both stores. A method takes the
-- answers of the calls that can fail, and returns the state that it leaves, also with an error. Writing
-- the log and `Checkpoint`, which only retires copies that SQLite keeps, leave this state alone.
use sendan.Prelude.{
  ℕ, suc, ◌-◌, Bool, true, false, not, Option, none, some, List, [], ◌∷◌, Bytes, bytes_eq, is_empty,
  Result, ok, err, Error, ◌>>=◌, if◌then◌else◌, is_ok, is_not_found, not_owner, unauthorized,
  too_many_attempts, io_failure,
}
use sendan.Prelude.Int.{ℤ, pos, ltb_ℤ}
use sendan.Store.Upload.{Upload, PasswordParams}
use sendan.Store.Table.{Table, Row, find_row}
use sendan.Store.Table
use sendan.Blob.Files.{Files, delete_blob}
use sendan.Blob.Shredder.{Cipher, shred_read}
use sendan.Upload.Attempts.{Attempts}
use sendan.Upload.Policy.{Policy, incomplete_ttl_of}

-- The calls of a deletion that can fail: on the row, on the blob, and on a partial upload.
pub record Faults : Type 0 where
  pub row_fails : Bool
  pub blob_fails : Bool
  pub partial_fails : Bool

abbrev pub no_faults : Faults
no_faults = record { row_fails = false; blob_fails = false; partial_fails = false }

pub record PublicMetadata : Type 0 where
  pub id : Bytes
  pub wrapped_file_key : Bytes
  pub wrap_nonce : Bytes
  pub metadata_envelope : Bytes
  pub metadata_nonce : Bytes
  pub password : Option PasswordParams
  pub expires_at : ℕ
  pub max_downloads : ℤ
  pub download_count : ℕ
  pub compatibility : Bool

unfoldable pub public_view : Upload → PublicMetadata
public_view u = record {
  id = u.id;
  wrapped_file_key = u.wrapped_file_key;
  wrap_nonce = u.wrap_nonce;
  metadata_envelope = u.metadata_envelope;
  metadata_nonce = u.metadata_nonce;
  password = u.password;
  expires_at = u.expires_at;
  max_downloads = u.max_downloads;
  download_count = u.download_count;
  compatibility = is_empty u.wrapped_file_key;
}

-- `digest` is SHA-256, which `crypto.AuthTokenHash` is too.
module _ (tries : Attempts) (digest : Bytes → Bytes) where
  -- The state behind a `Service`; `attempts` is none where no limiter is attached.
  pub record World : Type 0 where
    pub table : Table
    pub files : Files
    pub attempts : Option tries.State

  unfoldable pub forget_attempts : Bytes → Option tries.State → Option tries.State
  forget_attempts id none = none
  forget_attempts id (some s) = some (tries.forget_upload id s)

  -- `Delete`: the row, then the attempts, then the blob.
  unfoldable pub delete : Faults → Bytes → World → World × Result (Unit {0})
  delete faults id w = elim (Table.delete faults.row_fails id w.table) [
    | err e ↦ (w, err e)
    | ok t ↦
        let (fs, answer) = delete_blob faults.blob_fails faults.partial_fails id w.files in
        (record { table = t; files = fs; attempts = forget_attempts id w.attempts }, answer)
  ]

  unfoldable pub revoke : Bool → Faults → Bytes → Bytes → ℕ → World → World × Result (Unit {0})
  revoke failing faults id owner_token now w = elim (Table.get failing id now w.table) [
    | err e ↦ (w, err (if is_not_found e then not_owner else e))
    | ok u ↦
        if not (bytes_eq (digest owner_token) u.owner_token_hash)
        then (w, err not_owner)
        else delete faults id w
  ]

  -- The loop of `Reap`: for each identifier, whether the context is cancelled when its turn comes, and
  -- the faults of its deletion. It ends with the number removed and the context's error if any.
  unfoldable pub reap_each :
      (Bytes → Bool) → (Bytes → Faults) → List Bytes → ℕ → World → World × (ℕ × Option Error)
  reap_each cancelled faults [] removed w = (w, (removed, none))
  reap_each cancelled faults (id ∷ ids) removed w =
      let (w', answer) = delete (faults id) id w in
      if cancelled id
      then (w, (removed, some io_failure))
      else reap_each cancelled faults ids (if is_ok answer then suc removed else removed) w'

  -- `Reap`
  unfoldable pub reap :
      Bool → (Bytes → Bool) → (Bytes → Faults) → Policy → ℕ → ℕ → World → World × (ℕ × Option Error)
  reap failing cancelled faults p now limit w =
      elim (Table.list_dead failing now (now - incomplete_ttl_of p) limit w.table) [
        | err e ↦ (w, (0, some e))
        | ok ids ↦ reap_each cancelled faults ids 0 w
      ]

  -- `s.attempts == nil || s.attempts.Allow(id)`
  unfoldable pub charge : ℕ → Bytes → Option tries.State → Option tries.State × Bool
  charge clock id none = (none, true)
  charge clock id (some s) =
      let (s', allowed) = tries.allow_attempt clock id s in (some s', allowed)

  -- `authenticated`; `clock` is the limiter's own.
  unfoldable pub authenticated : Bool → Bytes → Bytes → ℕ → ℕ → World → World × Result Upload
  authenticated failing id token now clock w = elim (Table.get failing id now w.table) [
    | err e ↦ (w, err e)
    | ok u ↦
        let (charged, allowed) = charge clock id w.attempts in
        if not allowed
        then (record w { attempts = charged }, err too_many_attempts)
        else if not (bytes_eq (digest token) u.auth_token_hash)
        then (record w { attempts = charged }, err unauthorized)
        else (record w { attempts = forget_attempts id charged }, ok u)
  ]

  unfoldable pub authenticate : Bool → Bytes → Bytes → ℕ → ℕ → World → World × Result (Unit {0})
  unfolding authenticated
  authenticate failing id token now clock w =
      let (w', r) = authenticated failing id token now clock w in (w', r >>= λ _. ok tt)

  unfoldable pub retry_after : ℕ → Bytes → Option tries.State → ℤ
  retry_after clock id none = pos 0
  retry_after clock id (some s) = tries.retry_attempt clock id s

  -- `Content`: what the opened reader reads from an offset that it is sought to, and the size.
  unfoldable pub content :
      Cipher → Bool → Bool → Bytes → Bytes → ℕ → ℕ → ℕ → World → World × Result (Bytes × ℤ)
  unfolding authenticated
  content cipher failing open_fails id token now clock offset w =
      let (w', r) = authenticated failing id token now clock w in
      (
        w',
        do u ← r; c ← shred_read cipher open_fails id u.at_rest_key offset w'.files; ok (c, u.size),
      )

  -- `Metadata`
  unfoldable pub metadata : Bool → Bytes → ℕ → World → Result PublicMetadata
  unfolding public_view
  metadata failing id now w = do u ← Table.get failing id now w.table; ok (public_view u)

  -- `RecordServed`
  unfoldable pub record_served : Bool → Bytes → ℤ → World → World × Result (Unit {0})
  record_served failing id n w =
      if not (ltb_ℤ (pos 0) n)
      then (w, ok tt)
      else elim (Table.record_served failing id n w.table) [
        | err e ↦ (w, if is_not_found e then ok tt else err e)
        | ok (t, u) ↦ (record w { table = t }, ok tt)
      ]
