-- ===== src/Compat/Tests/Downloads.antt =====
-- Downloads of a complete upload, and its password.
use sendan.Prelude.{
  ℕ, ◌*◌, ◌≡◌, refl, ◌≢◌, ◌⊎◌, true, false, none, some, [], ◌∷◌, ◌++◌, Bytes, bytes_eq, codes,
  replicate, ok, arith, get_or, ap, all_bytes,
}
use sendan.Prelude.Int.{pos}
use sendan.Store.Upload.{live, second}
use sendan.Store.Table.{Row, find_row, get, scan_upload, from_nullable}
use sendan.Blob.Names.{final_path, validate_id, shard, is_id_char}
use sendan.Blob.Files.{Files, set_file, open_blob, path_eq}
use sendan.Blob.Shredder.{toy_cipher, shred_read}
use sendan.Blob.Shredding.{shred-total}
use sendan.Compat.Rows.{set_auth_key}
use sendan.Compat.Auth.{authenticate, granted, refused, cut_space, decode_b64, or_else}
use sendan.Compat.Receiving.{CompatWorld}
use sendan.Compat.Serving.{
  file, handle_download, plain, download_token, bearer_token, handle_password,
}
use sendan.Compat.Replay.{sign, calm}
use sendan.Compat.Fetching.{reaching, stored_content, get-live}
use sendan.Compat.Counting.{downloaded, downloads_limited}
use sendan.Compat.Protecting.{Protected, handle_password_lem, handle_password-locks}
use sendan.Compat.Tests.{lib, tries, digest, id_a, no_files, state_a, found_a, directory, sent}

-- A complete upload of five bytes with two downloads allowed, stored as they are encrypted.
abbrev row_b : Row
row_b = record {
  id = id_a;
  wrapped_file_key = [];
  wrap_nonce = [];
  metadata_envelope = [];
  metadata_nonce = [];
  auth_token_hash = replicate 32 b'c';
  owner_token_hash = replicate 32 b'o';
  at_rest_key = replicate 32 7;
  password = none;
  size = 5;
  created_at = 5;
  expires_at = some 65;
  max_downloads = 2;
  download_count = 0;
  bytes_served = 0;
  completed_at = some 9;
}

abbrev cipher_b : Bytes
cipher_b = (shred-total toy_cipher (replicate 32 7) 0 sent refl).0

abbrev stored : Files
stored = set_file (directory ++ id_a ∷ []) (some cipher_b) no_files

abbrev complete_world : CompatWorld tries digest
complete_world = record {
  world = record { table = row_b ∷ []; files = stored; attempts = some [] };
  rows = state_a ∷ [];
}

abbrev bearer : Bytes
bearer = codes "bearer " ++ download_token lib (replicate 32 7) id_a

opened_b : open_blob false id_a stored ≡ ok cipher_b
unfolding open_blob set_file final_path validate_id all_bytes is_id_char shard path_eq bytes_eq
opened_b = refl

read_b : shred_read toy_cipher false id_a (replicate 32 7) 0 stored ≡ ok sent
read_b =
    stored_content tries digest lib toy_cipher id_a (replicate 32 7) stored sent cipher_b refl
      (omega arith) (shred-total toy_cipher (replicate 32 7) 0 sent refl).1 opened_b

live_b : live (scan_upload row_b) (10 * second) ≡ true
unfolding live scan_upload from_nullable
live_b = refl

found_b : find_row id_a (row_b ∷ []) ≡ some row_b
unfolding find_row bytes_eq
found_b = refl

bearer_right : bearer_token lib bearer ≡ some (download_token lib (replicate 32 7) id_a)
unfolding bearer_token download_token cut_space bytes_eq
bearer_right = refl

downloads_limited_example :
    ((handle_download tries digest lib toy_cipher
        (calm [])
        (reaching false 5)
        bearer
        id_a
        (10 * second)
        (downloaded tries digest lib toy_cipher id_a bearer
          (10 * second)
          5
          (calm [])
          1
          complete_world)).1
      ≡ record { status = 200; offered = none; body = file sent (pos 5) })
    × (handle_download tries digest lib toy_cipher
          (calm (codes "second"))
          (reaching false 0)
          []
          id_a
          (10 * second)
          (downloaded tries digest lib toy_cipher id_a bearer
            (10 * second)
            5
            (calm [])
            2
            complete_world)
        ≡ (
          downloaded tries digest lib toy_cipher id_a bearer
              (10 * second)
              5
              (calm [])
              2
              complete_world,
          plain 404 none,
        ))
downloads_limited_example =
    downloads_limited tries digest lib toy_cipher id_a bearer (10 * second) 5 (calm []) row_b sent
      (omega arith) refl refl 2 refl (omega arith) live_b bearer_right 1 complete_world
      (calm (codes "second")) (reaching false 0) [] found_b read_b refl (omega arith)

get_b : get false id_a (10 * second) (row_b ∷ []) ≡ ok (scan_upload row_b)
get_b = get-live id_a (10 * second) (row_b ∷ []) row_b found_b live_b

handle_password_lem_example :
    let o =
      handle_password tries digest lib false false
        (some (codes "new", codes "owner"))
        id_a
        (10 * second)
        complete_world in
    ((status : ℕ) × (status ≢ 200) × (o ≡ (complete_world, plain status none)))
    ⊎ Protected tries digest lib
        (some (codes "new", codes "owner"))
        false
        id_a
        (10 * second)
        complete_world
        o
handle_password_lem_example =
    handle_password_lem tries digest lib false false (some (codes "new", codes "owner")) id_a
      (10 * second) complete_world

keys_differ : lib.hmac (codes "new") (codes "first") ≢ lib.hmac (codes "key") (codes "first")
keys_differ e = ground (arith, ap (λ xs. get_or xs 0 0) e)

handle_password-locks_example :
    let (c', answer) =
      handle_password tries digest lib false false
        (some (codes "new", codes "owner"))
        id_a
        (10 * second)
        complete_world in
    (answer ≡ plain 200 none)
    × (authenticate lib
          (calm (codes "second"))
          (sign lib (codes "key") (codes "first"))
          id_a
          c'.rows
        ≡ (c'.rows, (some (codes "first"), refused 401)))
    × ((authenticate lib
          (calm (codes "second"))
          (sign lib (codes "new") (codes "first"))
          id_a
          c'.rows).1.1
        ≡ granted (record (set_auth_key (codes "new") state_a) { nonce = codes "second" }))
unfolding scan_upload decode_b64 or_else
handle_password-locks_example =
    handle_password-locks tries digest lib (codes "new") (codes "owner") (codes "new") id_a
      (codes "second") (10 * second) complete_world (scan_upload row_b) state_a refl refl get_b refl
      found_a keys_differ refl
