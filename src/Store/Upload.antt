-- ===== src/Store/Upload.antt =====
-- internal/store/store.go: a stored upload, its liveness, and the checks of sqlite.go before one is
-- written. A `time.Time` is its number of nanoseconds since the zero time, so `IsZero` is `== 0`; a
-- missing byte slice is the empty one; `int` and `int64` fields that the code tests for a negative
-- value are integers.
use sendan.Prelude.{
  ℕ, ◌^◌, Bool, false, not, ◌&&◌, ◌||◌, Option, none, some, Bytes, ltb, ◌==◌, is_empty, Result,
  invalid, refuse_if, ◌>>◌,
}
use sendan.Prelude.Int.{ℤ, pos, ltb_ℤ, is_negative}

-- Nanoseconds in a second.
abbrev pub second : ℕ
second = 10 ^ 9

-- The largest values of the Go types that appear: uint32, int32, uint8.
pub record PasswordParams : Type 0 where
  pub salt : Bytes
  pub memory_ki_b : ℕ
  pub iterations : ℕ
  pub parallelism : ℕ

pub record Upload : Type 0 where
  pub id : Bytes
  pub wrapped_file_key : Bytes
  pub wrap_nonce : Bytes
  pub metadata_envelope : Bytes
  pub metadata_nonce : Bytes
  pub auth_token_hash : Bytes
  pub owner_token_hash : Bytes
  pub at_rest_key : Bytes
  pub password : Option PasswordParams
  pub size : ℤ
  pub created_at : ℕ
  pub expires_at : ℕ
  pub max_downloads : ℤ
  pub download_count : ℕ
  pub bytes_served : ℕ
  pub completed_at : ℕ

unfoldable pub expired : Upload → ℕ → Bool
expired u now = not (u.expires_at == 0) && not (ltb now u.expires_at)

unfoldable pub exhausted : Upload → Bool
exhausted u = ltb_ℤ (pos 0) u.max_downloads && not (ltb_ℤ (pos u.download_count) u.max_downloads)

unfoldable pub complete : Upload → Bool
complete u = not (u.completed_at == 0)

unfoldable pub live : Upload → ℕ → Bool
unfolding complete expired exhausted
live u now = complete u && (not (expired u now) && not (exhausted u))

-- The last check of `validateShared`.
unfoldable pub incomplete_password : Option PasswordParams → Bool
incomplete_password none = false
incomplete_password (some p) =
    is_empty p.salt || (p.memory_ki_b == 0 || (p.iterations == 0 || p.parallelism == 0))

unfoldable pub validate_shared : Upload → Result (Unit {0})
unfolding incomplete_password
validate_shared u = do
  refuse_if (is_empty u.id) invalid
  refuse_if (is_empty u.auth_token_hash) invalid
  refuse_if (is_empty u.owner_token_hash) invalid
  refuse_if (is_empty u.at_rest_key) invalid
  refuse_if (is_negative u.size) invalid
  refuse_if (is_negative u.max_downloads) invalid
  refuse_if (u.created_at == 0) invalid
  refuse_if (incomplete_password u.password) invalid

unfoldable pub validate : Upload → Result (Unit {0})
unfolding validate_shared
validate u = do
  refuse_if (is_empty u.wrapped_file_key || is_empty u.wrap_nonce) invalid
  refuse_if (is_empty u.metadata_envelope || is_empty u.metadata_nonce) invalid
  validate_shared u
