-- ===== src/Store/Tests.antt =====
-- Concrete uploads and tables, and the theorems of the store at them.
mod Rotations
use sendan.Prelude.{
  ℕ, ◌*◌, ◌≡◌, refl, ◌≢◌, ◌↔◌, Bool, true, false, not, Option, none, some, List, [], ◌∷◌, Bytes,
  codes, replicate, ok, err, not_found, conflict, arith, All, length, ap, get_or,
}
use mathlib.Core.Option
use sendan.Prelude.Int.{pos, negsuc}
use sendan.Store.Upload.{Upload, second, live, validate}
use sendan.Store.Table.{
  Row, Table, create, get, find_row, to_row, scan_upload, dead_row, unix, list_dead, pending,
  is_some, record_served, complete_upload, update_where, add_served, set_completed, delete,
  delete_where,
}
use sendan.Store.Lookup.{Distinct}
use sendan.Store.Dead.{IsWellFormed, dead_row-live}
use sendan.Store.Reading.{list_dead-unreadable, pending-unreadable, get_ok}
use sendan.Store.Writing.{
  create_lem, create-conflict_iff, stored, record_served-twice, complete_upload-twice,
}
use sendan.Compat.Rows.{
  CompatUpload, create_compat, finish_compat, set_finished, find_compat, validate_compat,
}
use sendan.Store.Soundness.{IsSound, IsFresh}
use sendan.Store.Invariant.{Op, AllAllowed, run, run-IsSound}

abbrev pub id_a : Bytes
id_a = codes "AAAAAAAAAAAAAAAAAAAAAA"

abbrev pub id_b : Bytes
id_b = codes "BBBBBBBBBBBBBBBBBBBBBB"

-- Ten bytes, expiring a hundred seconds in, downloadable twice.
abbrev pub upload_a : Upload
upload_a = record {
  id = id_a;
  wrapped_file_key = replicate 48 1;
  wrap_nonce = replicate 12 2;
  metadata_envelope = replicate 272 3;
  metadata_nonce = replicate 12 4;
  auth_token_hash = replicate 32 5;
  owner_token_hash = replicate 32 6;
  at_rest_key = replicate 32 7;
  password = none;
  size = pos 10;
  created_at = 5 * second;
  expires_at = 100 * second;
  max_downloads = pos 2;
  download_count = 0;
  bytes_served = 0;
  completed_at = 0;
}

abbrev pub row_a : Row
row_a = record {
  id = id_a;
  wrapped_file_key = replicate 48 1;
  wrap_nonce = replicate 12 2;
  metadata_envelope = replicate 272 3;
  metadata_nonce = replicate 12 4;
  auth_token_hash = replicate 32 5;
  owner_token_hash = replicate 32 6;
  at_rest_key = replicate 32 7;
  password = none;
  size = 10;
  created_at = 5;
  expires_at = some 100;
  max_downloads = 2;
  download_count = 0;
  bytes_served = 0;
  completed_at = none;
}

-- The same upload complete, with one and a half downloads served, and expired at its hundredth second.
abbrev pub row_b : Row
row_b = record row_a { id = id_b; completed_at = some 9; bytes_served = 15; download_count = 1 }

abbrev table_b : Table
table_b = row_a ∷ row_b ∷ []

row_b-IsWellFormed : IsWellFormed row_b
row_b-IsWellFormed = record { dated = omega arith; due = omega arith; counted = λ _. refl }

row_a-IsWellFormed : IsWellFormed row_a
row_a-IsWellFormed = record { dated = tt; due = omega arith; counted = λ _. refl }

table_b-Distinct : Distinct table_b
unfolding find_row sendan.Prelude.bytes_eq
table_b-Distinct = (refl, (refl, tt))

other_id : id_b ≢ id_a
other_id e = ground (arith, ap (λ xs. get_or xs 0 0) e)

create-a : create false upload_a [] ≡ ok (row_a ∷ [])
unfolding create validate to_row unix find_row
create-a = refl

dead_row-live_example :
    dead_row (unix (100 * second)) (unix 0) row_b ≡ not (live (scan_upload row_b) (100 * second))
unfolding is_some
dead_row-live_example = dead_row-live row_b (100 * second) 0 row_b-IsWellFormed refl

upload_a-IsFresh : IsFresh upload_a
upload_a-IsFresh = record {
  expiry_dated = λ _. omega arith;
  completion_dated = λ n. absurd (n refl);
  unserved = refl;
  uncounted = refl;
}

-- An upload of the compatibility protocol, whose length is not known when it begins.
abbrev upload_c : Upload
upload_c = record upload_a {
  id = id_b;
  size = pos 0;
  wrapped_file_key = [];
  wrap_nonce = [];
  metadata_envelope = [];
  metadata_nonce = [];
}

abbrev compat_c : CompatUpload
compat_c = record {
  id = id_b;
  auth_key = codes "key";
  nonce = codes "first";
  metadata = [];
  requires_password = false;
}

upload_c-IsFresh : IsFresh upload_c
upload_c-IsFresh = record {
  expiry_dated = λ _. omega arith;
  completion_dated = λ n. absurd (n refl);
  unserved = refl;
  uncounted = refl;
}

abbrev history : List Op
history =
    Op.create_op false upload_a
    ∷ Op.complete_op false id_a (50 * second)
    ∷ Op.served_op true id_a (pos 12)
    ∷ Op.served_op false id_a (pos 12)
    ∷ Op.create_compat_op false false upload_c compat_c
    ∷ Op.finish_compat_op false id_b (pos 3) (50 * second)
    ∷ Op.served_op false id_b (pos 7)
    ∷ Op.rekey_op false (λ i key. ok (replicate 61 i))
    ∷ Op.rotate_op false id_b (codes "second")
    ∷ Op.password_op false id_b (codes "new")
    ∷ Op.delete_op false id_a
    ∷ []

history-AllAllowed : AllAllowed history ([], [])
unfolding sendan.Store.Invariant.apply create validate validate_compat to_row unix find_row
    update_where set_completed complete_upload record_served add_served create_compat finish_compat
    set_finished find_compat is_some sendan.Prelude.bytes_eq
history-AllAllowed = (
  upload_a-IsFresh,
  (
    omega arith,
    (refl, (refl, (upload_c-IsFresh, (omega arith, (refl, (tt, (tt, (tt, (tt, tt))))))))),
  ),
)

run-IsSound_example : IsSound (run history ([], [])).0
run-IsSound_example =
    run-IsSound history ([], []) history-AllAllowed (record { distinct = tt; rows = tt })
