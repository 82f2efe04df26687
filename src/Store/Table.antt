-- ===== src/Store/Table.antt =====
-- internal/store/sqlite.go over the statements of sql.go: the `uploads` table is the list of its
-- rows, and each method is the statements that it runs on it. A time column holds whole seconds,
-- counted from the zero time, and NULL is `none`. Each method that calls the driver takes the
-- answer of that call: with `failing` the call fails and the table is as it was.
use sendan.Prelude.{
  ℕ, ◌+◌, ◌*◌, ◌/◌, Bool, true, false, not, ◌&&◌, ◌||◌, Option, none, some, List, [], ◌∷◌, ◌++◌,
  Bytes, bytes_eq, ltb, leb, ◌==◌, if◌then◌else◌, Result, ok, err, not_found, conflict,
  negative_count, io_failure, ◌>>=◌, ◌>>◌, refuse_if, filter_by, map, take,
}
use sendan.Prelude.Int.{ℤ, pos, pos_part, is_negative}
use sendan.Store.Upload.{Upload, PasswordParams, second, live, validate}

-- A row of `uploads`. The four password columns are all NULL or all present, by the table's CHECK.
pub record Row : Type 0 where
  pub id : Bytes
  pub wrapped_file_key : Bytes
  pub wrap_nonce : Bytes
  pub metadata_envelope : Bytes
  pub metadata_nonce : Bytes
  pub auth_token_hash : Bytes
  pub owner_token_hash : Bytes
  pub at_rest_key : Bytes
  pub password : Option PasswordParams
  pub size : ℕ
  pub created_at : ℕ
  pub expires_at : Option ℕ
  pub max_downloads : ℕ
  pub download_count : ℕ
  pub bytes_served : ℕ
  pub completed_at : Option ℕ

abbrev pub Table : Type 0
Table = List Row

-- `t.Unix()`, up to the choice of the first second.
unfoldable pub unix : ℕ → ℕ
unix t = t / second

unfoldable pub nullable_unix : ℕ → Option ℕ
unfolding unix
nullable_unix t = if t == 0 then none else some (unix t)

-- `time.Unix(s, 0)` where the column is valid, and the zero time where it is NULL.
unfoldable pub from_nullable : Option ℕ → ℕ
from_nullable none = 0
from_nullable (some s) = s * second

-- The arguments of `insertUpload`. `validate` has refused a negative size and limit.
unfoldable pub to_row : Upload → Row
unfolding nullable_unix unix
to_row u = record {
  id = u.id;
  wrapped_file_key = u.wrapped_file_key;
  wrap_nonce = u.wrap_nonce;
  metadata_envelope = u.metadata_envelope;
  metadata_nonce = u.metadata_nonce;
  auth_token_hash = u.auth_token_hash;
  owner_token_hash = u.owner_token_hash;
  at_rest_key = u.at_rest_key;
  password = u.password;
  size = pos_part u.size;
  created_at = unix u.created_at;
  expires_at = nullable_unix u.expires_at;
  max_downloads = pos_part u.max_downloads;
  download_count = u.download_count;
  bytes_served = u.bytes_served;
  completed_at = nullable_unix u.completed_at;
}

unfoldable pub scan_upload : Row → Upload
unfolding from_nullable
scan_upload r = record {
  id = r.id;
  wrapped_file_key = r.wrapped_file_key;
  wrap_nonce = r.wrap_nonce;
  metadata_envelope = r.metadata_envelope;
  metadata_nonce = r.metadata_nonce;
  auth_token_hash = r.auth_token_hash;
  owner_token_hash = r.owner_token_hash;
  at_rest_key = r.at_rest_key;
  password = r.password;
  size = pos r.size;
  created_at = r.created_at * second;
  expires_at = from_nullable r.expires_at;
  max_downloads = pos r.max_downloads;
  download_count = r.download_count;
  bytes_served = r.bytes_served;
  completed_at = from_nullable r.completed_at;
}

-- `WHERE id = ?`. The identifier is the primary key, so at most one row answers.
unfoldable pub find_row : Bytes → Table → Option Row
find_row k [] = none
find_row k (r ∷ t) = if bytes_eq r.id k then some r else find_row k t

unfoldable pub update_where : Bytes → (Row → Row) → Table → Table
update_where k f [] = []
update_where k f (r ∷ t) = (if bytes_eq r.id k then f r else r) ∷ update_where k f t

unfoldable pub delete_where : Bytes → Table → Table
delete_where k [] = []
delete_where k (r ∷ t) = if bytes_eq r.id k then delete_where k t else r ∷ delete_where k t

unfoldable pub insert_upload : Row → Table → Result Table
insert_upload r t = elim (find_row r.id t) [ some _ ↦ err conflict | none ↦ ok (t ++ r ∷ []) ]

unfoldable pub create : Bool → Upload → Table → Result Table
unfolding insert_upload
create failing u t = do validate u; refuse_if failing io_failure; insert_upload (to_row u) t

-- `selectUpload` and `scanUpload`.
unfoldable pub select_upload : Bytes → Table → Result Upload
select_upload k t = elim (find_row k t) [ none ↦ err not_found | some r ↦ ok (scan_upload r) ]

unfoldable pub get : Bool → Bytes → ℕ → Table → Result Upload
unfolding select_upload
get failing k now t = do
  refuse_if failing io_failure
  u ← select_upload k t
  if live u now then ok u else err not_found

-- The SET clause of `recordServed`, whose right sides read the row as it was.
unfoldable pub add_served : ℕ → Row → Row
add_served n r = record r {
  download_count = if ltb 0 r.size then (r.bytes_served + n) / r.size else r.download_count;
  bytes_served = r.bytes_served + n;
}

-- The table and the upload as it stands afterwards. A failing call rolls the transaction back.
unfoldable pub record_served : Bool → Bytes → ℤ → Table → Result (Table × Upload)
record_served failing k n t = do
  refuse_if (is_negative n) negative_count
  refuse_if failing io_failure
  elim (find_row k t) [
    | none ↦ err not_found
    | some r ↦
        let r' = add_served (pos_part n) r in
        ok (update_where k (add_served (pos_part n)) t, scan_upload r')
  ]

unfoldable pub delete : Bool → Bytes → Table → Result Table
delete failing k t = do refuse_if failing io_failure; ok (delete_where k t)

unfoldable pub is_some {ℓ} : {A : Type ℓ} → Option A → Bool
is_some none = false
is_some (some a) = true

unfoldable pub le_some : Option ℕ → ℕ → Bool
le_some none n = false
le_some (some e) n = leb e n

-- The WHERE clause of `selectDead`.
unfoldable pub dead_row : ℕ → ℕ → Row → Bool
unfolding is_some le_some
dead_row now abandoned r =
    is_some r.completed_at && le_some r.expires_at now
    || (is_some r.completed_at && (ltb 0 r.max_downloads && leb r.max_downloads r.download_count)
        || (not (is_some r.completed_at) && leb r.created_at abandoned))

unfoldable pub row_id : Row → Bytes
row_id r = r.id

unfoldable pub list_dead : Bool → ℕ → ℕ → ℕ → Table → Result (List Bytes)
list_dead failing now abandoned limit t =
    if limit == 0
    then ok []
    else if failing
    then err io_failure
    else ok (take limit (map row_id (filter_by (dead_row (unix now) (unix abandoned)) t)))

-- The SET clause of `completeUpload` under its `completed_at IS NULL`.
unfoldable pub set_completed : ℕ → Row → Row
set_completed s r = elim r.completed_at [ some _ ↦ r | none ↦ record r { completed_at = some s } ]

unfoldable pub complete_upload : Bool → Bytes → ℕ → Table → Result Table
unfolding set_completed
complete_upload failing k now t = do
  refuse_if failing io_failure
  ok (update_where k (set_completed (unix now)) t)

-- `selectPending` and `scanUpload`.
unfoldable pub pending : Bool → Bytes → Table → Result Upload
pending failing k t = do
  refuse_if failing io_failure
  elim (find_row k t) [
    | none ↦ err not_found
    | some r ↦ if is_some r.completed_at then err not_found else ok (scan_upload r)
  ]
