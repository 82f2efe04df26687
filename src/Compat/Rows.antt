-- ===== src/Compat/Rows.antt =====
-- internal/store/compat.go: the `compat_uploads` table beside `uploads`, and each method as the
-- statements that it runs on the two. A `failing` argument is the answer of the driver.
use sendan.Prelude.{
  Bool, true, ◌||◌, not, Option, none, some, List, [], ◌∷◌, ◌++◌, Bytes, bytes_eq, is_empty,
  if◌then◌else◌, Result, ok, err, not_found, invalid, io_failure, ◌>>◌, refuse_if, filter_by, ℕ,
}
use sendan.Prelude.Int.{ℤ, pos_part, is_negative}
use sendan.Store.Upload.{Upload, validate_shared}
use sendan.Store.Table.{Table, Row, find_row, update_where, to_row, unix, is_some}

pub record CompatUpload : Type 0 where
  pub id : Bytes
  pub auth_key : Bytes
  pub nonce : Bytes
  pub metadata : Bytes
  pub requires_password : Bool

abbrev pub CompatTable : Type 0
CompatTable = List CompatUpload

-- `selectCompat`, by the primary key.
unfoldable pub find_compat : Bytes → CompatTable → Option CompatUpload
find_compat k [] = none
find_compat k (c ∷ t) = if bytes_eq c.id k then some c else find_compat k t

unfoldable pub update_compat : Bytes → (CompatUpload → CompatUpload) → CompatTable → CompatTable
update_compat k f [] = []
update_compat k f (c ∷ t) = (if bytes_eq c.id k then f c else c) ∷ update_compat k f t

-- `REFERENCES uploads (id) ON DELETE CASCADE`: what a deletion from `uploads` leaves of this table.
unfoldable pub cascade : Table → CompatTable → CompatTable
cascade t = filter_by λ c. is_some (find_row c.id t)

-- `validateCompat`, for two that are there.
unfoldable pub validate_compat : Upload → CompatUpload → Result (Unit {0})
validate_compat u c = do
  refuse_if (not (bytes_eq u.id c.id)) invalid
  refuse_if (is_empty c.auth_key) invalid
  refuse_if (is_empty c.nonce) invalid
  refuse_if
      (not (is_empty u.wrapped_file_key)
        || (not (is_empty u.wrap_nonce)
            || (not (is_empty u.metadata_envelope) || not (is_empty u.metadata_nonce))))
      invalid

-- Two inserts under their primary keys. A taken key is a plain error of the driver here.
unfoldable pub insert_both : Row → CompatUpload → Table → CompatTable → Result (Table × CompatTable)
insert_both r c t rows =
    if is_some (find_row r.id t) || is_some (find_compat c.id rows)
    then err io_failure
    else ok (t ++ r ∷ [], rows ++ c ∷ [])

-- `createCompat`: the transaction may fail to begin, and fail later, which rolls it back.
unfoldable pub create_compat :
    Bool → Bool → Upload → CompatUpload → Table → CompatTable → Result (Table × CompatTable)
unfolding insert_both
create_compat begin_fails failing u c t rows = do
  validate_compat u c
  refuse_if begin_fails io_failure
  validate_shared u
  refuse_if failing io_failure
  insert_both (to_row u) c t rows

unfoldable pub compat_row : Bool → Bytes → CompatTable → Result CompatUpload
compat_row failing k rows = do
  refuse_if failing io_failure
  elim (find_compat k rows) [ none ↦ err not_found | some c ↦ ok c ]

-- An UPDATE under `WHERE id = ?`, and its count of rows.
unfoldable pub update_one :
    Bool → Bytes → (CompatUpload → CompatUpload) → CompatTable → Result CompatTable
update_one failing k f rows = do
  refuse_if failing io_failure
  if is_some (find_compat k rows) then ok (update_compat k f rows) else err not_found

unfoldable pub set_nonce : Bytes → CompatUpload → CompatUpload
set_nonce nonce c = record c { nonce = nonce }

unfoldable pub rotate_compat_nonce : Bool → Bytes → Bytes → CompatTable → Result CompatTable
unfolding update_one set_nonce
rotate_compat_nonce failing k nonce rows = do
  refuse_if (is_empty nonce) invalid
  update_one failing k (set_nonce nonce) rows

unfoldable pub set_auth_key : Bytes → CompatUpload → CompatUpload
set_auth_key key c = record c { auth_key = key; requires_password = true }

unfoldable pub set_compat_password : Bool → Bytes → Bytes → CompatTable → Result CompatTable
unfolding update_one set_auth_key
set_compat_password failing k key rows = do
  refuse_if (is_empty key) invalid
  update_one failing k (set_auth_key key) rows

-- The SET clause of `finishCompat`.
unfoldable pub set_finished : ℕ → ℕ → Row → Row
set_finished size at r = record r { size = size; completed_at = some at }

-- `finishCompat`: one statement under `completed_at IS NULL`.
unfoldable pub finish_compat : Bool → Bytes → ℤ → ℕ → Table → Result Table
unfolding set_finished
finish_compat failing k size now t = do
  refuse_if (is_negative size) invalid
  refuse_if failing io_failure
  elim (find_row k t) [
    | none ↦ err not_found
    | some r ↦
        if is_some r.completed_at
        then err not_found
        else ok (update_where k (set_finished (pos_part size) (unix now)) t)
  ]
