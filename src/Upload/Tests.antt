-- ===== src/Upload/Tests.antt =====
-- The theorems of the upload service at a concrete world: one upload in progress and one complete.
use sendan.Prelude.{
  ℕ, ◌+◌, ◌*◌, ◌≤◌, ◌≡◌, refl, ◌≢◌, ◌⊎◌, inl, inr, Bool, true, false, not, Option, none, some, List,
  [], ◌∷◌, ◌++◌, Bytes, bytes_eq, bytes_eq_iff, codes, replicate, all_bytes, Result, ok, err, arith,
  All, length, ap, get_or, drop, not_found, io_failure, not_owner, too_many_attempts, if◌then◌else◌,
}
use mathlib.Core.Path.{subst}
use sendan.Prelude.Int.{pos}
use sendan.Store.Upload.{Upload, second, live, validate, complete}
use sendan.Store.Table.{Row, find_row, get, scan_upload, set_completed, unix}
use sendan.Store.Lookup.{Distinct}
use sendan.Store.Dead.{IsWellFormed}
use sendan.Blob.Names.{FilePath, final_path, partial_path, validate_id}
use sendan.Blob.Files.{Files}
use sendan.Blob.Shredder.{toy_cipher}
use sendan.Ratelimit.Float.{whole}
use sendan.Ratelimit.Limiter.{Bucket, Limits, Buckets}
use sendan.Upload.Attempts.{Attempts, limiter_attempts}
use sendan.Upload.Policy.{Policy, resolve_expiry, ensure_bounded, resolve_expiry_lem}
use sendan.Upload.Service.{
  Faults, no_faults, World, delete, revoke, reap, reap_each, authenticated, content, charge,
}
use sendan.Upload.Request.{
  Values, new_row, integer64, encode_base64, as_retention, duration, parse_int, parse_digits,
  digits, read_row, file_id, identified, read_bytes, read_blob, integer, password_params,
  all_one_byte, base64_char, bounded,
}
use sendan.Upload.Tus.{finish_upload}
use sendan.Upload.Sweep.{Pass, sweep_dead, sweep_dead_returns}
use sendan.Upload.Deletion.{recalled, delete_lem, revoke-refused, reap-live, reap_each-gone}
use sendan.Upload.Access.{authenticated_ok}
use sendan.Upload.Creation.{IsAccepted, new_row_lem}
use sendan.Upload.Lifecycle.{Request, sent_bytes, send_requests, content-finish_upload}

-- Three attempts, and one more each second.
abbrev limits : Limits whole
limits = record { rate = 1; burst = 3; idle = 600_000_000_000 }

abbrev tries : Attempts
tries = limiter_attempts whole limits

-- A digest that is none, and serves: it repeats the first byte.
abbrev digest : Bytes → Bytes
digest b = replicate 32 (get_or b 0 0)

abbrev id_a : Bytes
id_a = codes "AAAAAAAAAAAAAAAAAAAAAA"

abbrev id_b : Bytes
id_b = codes "BBBBBBBBBBBBBBBBBBBBBB"

-- An upload in progress.
abbrev row_a : Row
row_a = record {
  id = id_a;
  wrapped_file_key = replicate 48 1;
  wrap_nonce = replicate 12 2;
  metadata_envelope = replicate 272 3;
  metadata_nonce = replicate 12 4;
  auth_token_hash = replicate 32 5;
  owner_token_hash = replicate 32 6;
  at_rest_key = replicate 32 7;
  password = none;
  size = 5;
  created_at = 5;
  expires_at = some 100;
  max_downloads = 2;
  download_count = 0;
  bytes_served = 0;
  completed_at = none;
}

-- A complete one, with the same times.
abbrev row_b : Row
row_b = record row_a { id = id_b; completed_at = some 9 }

abbrev no_files : Files
no_files _ = none

-- The limiter has no attempt left for the second upload.
abbrev buckets : Buckets whole
buckets = (id_b, record { tokens = 0; seen = 50 * second }) ∷ []

abbrev world : World tries digest
world = record { table = row_a ∷ row_b ∷ []; files = no_files; attempts = some buckets }

abbrev fresh_world : World tries digest
fresh_world = record { table = row_a ∷ row_b ∷ []; files = no_files; attempts = some [] }

other_id : id_a ≢ id_b
other_id e = ground (arith, ap (λ xs. get_or xs 0 0) e)

world-Distinct : Distinct world.table
unfolding find_row bytes_eq
world-Distinct = (refl, (refl, tt))

row_a-IsWellFormed : IsWellFormed row_a
row_a-IsWellFormed = record { dated = tt; due = omega arith; counted = λ _. refl }

row_b-IsWellFormed : IsWellFormed row_b
row_b-IsWellFormed = record { dated = omega arith; due = omega arith; counted = λ _. refl }

abbrev blob_fault : Faults
blob_fault = record { row_fails = false; blob_fails = true; partial_fails = false }

delete_lem_example :
    let (w', answer) = delete tries digest blob_fault id_b world in
    ((false ≡ true) × (w' ≡ world) × (answer ≡ err io_failure))
    ⊎ ((false ≡ false)
        × (find_row id_b w'.table ≡ none)
        × (find_row id_a w'.table ≡ find_row id_a world.table)
        × (recalled tries digest id_b w'.attempts ≡ none)
        × (recalled tries digest id_a w'.attempts ≡ recalled tries digest id_a world.attempts))
delete_lem_example = delete_lem tries digest blob_fault id_b id_a world other_id

got_b : get false id_b (50 * second) world.table ≡ ok (scan_upload row_b)
unfolding get live scan_upload find_row bytes_eq
got_b = refl

wrong_owner :
    (u : Upload)
    → get false id_b (50 * second) world.table ≡ ok u
    → bytes_eq (digest (1 ∷ [])) u.owner_token_hash ≡ false
unfolding scan_upload bytes_eq
wrong_owner u e =
    let same : scan_upload row_b ≡ u = cc (got_b, e) in
    subst (λ (x : Upload). bytes_eq (digest (1 ∷ [])) x.owner_token_hash ≡ false) same refl

revoke-refused_example :
    revoke tries digest false no_faults id_b (1 ∷ []) (50 * second) world ≡ (world, err not_owner)
revoke-refused_example =
    revoke-refused tries digest no_faults id_b (1 ∷ []) (50 * second) world wrong_owner

abbrev policy : Policy
policy = record {
  default_ttl = 3600 * second;
  max_ttl = 7200 * second;
  allow_infinite_ttl = false;
  default_max_downloads = 0;
  require_limit = true;
  incomplete_ttl = 0;
}

reap-live_example :
    get false id_b
      (50 * second)
      (reap tries digest false (λ _. false) (λ _. no_faults) policy (50 * second) 10 world).0.table
    ≡ ok (scan_upload row_b)
unfolding get live scan_upload find_row bytes_eq
reap-live_example =
    reap-live tries digest (λ _. false) (λ _. no_faults) policy (50 * second) 10 world id_b
      (scan_upload row_b) world-Distinct (row_a-IsWellFormed, (row_b-IsWellFormed, tt)) refl

reap_each-gone_example :
    find_row id_b
      (reap_each tries digest (λ _. false) (λ _. blob_fault) (id_a ∷ id_b ∷ []) 0 world).0.table
    ≡ none
unfolding bytes_eq
reap_each-gone_example =
    reap_each-gone tries digest (λ _. blob_fault) (id_a ∷ id_b ∷ []) 0 world id_b refl refl

abbrev after_token : World tries digest
after_token = record { table = row_a ∷ row_b ∷ []; files = no_files; attempts = some [] }

authenticated_ok_example :
    (get false id_b (50 * second) fresh_world.table ≡ ok (scan_upload row_b))
    × (live (scan_upload row_b) (50 * second) ≡ true)
    × (digest (5 ∷ 5 ∷ []) ≡ replicate 32 5)
    × (recalled tries digest id_b after_token.attempts ≡ none)
unfolding authenticated get find_row bytes_eq live scan_upload charge sendan.Ratelimit.Limiter.allow
    sendan.Ratelimit.Limiter.allow_n sendan.Ratelimit.Limiter.refilled
    sendan.Ratelimit.Limiter.lookup sendan.Upload.Service.forget_attempts
    sendan.Ratelimit.Limiter.forget sendan.Ratelimit.Limiter.insert
authenticated_ok_example =
    authenticated_ok tries digest id_b (5 ∷ 5 ∷ []) (50 * second) 0 fresh_world after_token
      (scan_upload row_b) refl

resolve_expiry_lem_example :
    ((5 * second + 60 * second ≡ 0) × (false ≡ true))
    ⊎ ((5 * second + 1 ≤ 5 * second + 60 * second)
        × (1 ≤ 7200 * second → 5 * second + 60 * second ≤ 5 * second + 7200 * second))
unfolding resolve_expiry
resolve_expiry_lem_example =
    resolve_expiry_lem policy (5 * second) (pos (60 * second)) (5 * second + 60 * second)
      (λ _. omega arith) refl

-- The identifier sent: the bytes 0 to 15.
abbrev raw_id : Bytes
raw_id = 0 ∷ 1 ∷ 2 ∷ 3 ∷ 4 ∷ 5 ∷ 6 ∷ 7 ∷ 8 ∷ 9 ∷ 10 ∷ 11 ∷ 12 ∷ 13 ∷ 14 ∷ 15 ∷ []

abbrev values : Values
values key =
    if bytes_eq key (codes "fileID")
    then some raw_id
    else if bytes_eq key (codes "wrappedFileKey")
    then some (replicate 48 1)
    else if bytes_eq key (codes "wrapNonce")
    then some (replicate 12 2)
    else if bytes_eq key (codes "metadataEnvelope")
    then some (replicate 272 3)
    else if bytes_eq key (codes "metadataNonce")
    then some (replicate 12 4)
    else if bytes_eq key (codes "authTokenHash")
    then some (replicate 32 5)
    else if bytes_eq key (codes "ownerTokenHash")
    then some (replicate 32 6)
    else if bytes_eq key (codes "ttlSeconds")
    then some (codes "60")
    else if bytes_eq key (codes "maxDownloads")
    then some (codes "3")
    else none

abbrev new_upload_row : Upload
new_upload_row = record {
  id = codes "AAECAwQFBgcICQoLDA0ODw";
  wrapped_file_key = replicate 48 1;
  wrap_nonce = replicate 12 2;
  metadata_envelope = replicate 272 3;
  metadata_nonce = replicate 12 4;
  auth_token_hash = replicate 32 5;
  owner_token_hash = replicate 32 6;
  at_rest_key = replicate 32 7;
  password = none;
  size = pos 5;
  created_at = 5 * second;
  expires_at = 65 * second;
  max_downloads = pos 3;
  download_count = 0;
  bytes_served = 0;
  completed_at = 0;
}

new_row-built : new_row policy (ok (replicate 32 7)) values (pos 5) (5 * second) ≡ ok new_upload_row
unfolding new_row as_retention resolve_expiry duration integer64 bytes_eq parse_int parse_digits
    all_bytes digits ensure_bounded read_row file_id identified read_bytes read_blob integer
    password_params all_one_byte base64_char bounded encode_base64
new_row-built = refl

new_row_lem_example :
    (validate new_upload_row ≡ ok tt)
    × (validate_id (codes "AAECAwQFBgcICQoLDA0ODw") ≡ ok tt)
    × IsAccepted (replicate 32 7) new_upload_row
    × (pos 5 ≡ pos 5)
    × (complete new_upload_row ≡ false)
new_row_lem_example =
    new_row_lem policy (replicate 32 7) values (pos 5) (5 * second) new_upload_row (omega arith)
      refl (omega arith) new_row-built

abbrev final_a : FilePath
final_a = codes "AA" ∷ codes "AA" ∷ id_a ∷ []

abbrev partial_a : FilePath
partial_a = codes "AA" ∷ codes "AA" ∷ codes ".AAAAAAAAAAAAAAAAAAAAAA.partial" ∷ []

final_a_is : final_path id_a ≡ ok final_a
unfolding final_path validate_id sendan.Prelude.all_bytes sendan.Blob.Names.is_id_char
final_a_is = refl

partial_a_is : partial_path id_a ≡ ok partial_a
unfolding partial_path validate_id sendan.Prelude.all_bytes sendan.Blob.Names.is_id_char
partial_a_is = refl

-- Three bytes arrive and the connection breaks; then two more, and their sync fails.
abbrev first_request : Request
first_request = (record { content = 1 ∷ 2 ∷ 3 ∷ []; broken = true }, false)

abbrev second_request : Request
second_request = (record { content = 4 ∷ 5 ∷ []; broken = false }, true)

content-finish_upload_example :
    let sent =
      send_requests tries digest toy_cipher id_a
        (first_request ∷ second_request ∷ [])
        fresh_world in
    let (done, answer) =
      finish_upload tries digest false false
        (record { id = id_a; size = pos 5; offset = 0; at_rest_key = none })
        (50 * second)
        sent in
    (get false id_a (60 * second) sent.table ≡ err not_found)
    × (answer ≡ ok tt)
    × ((content tries digest toy_cipher false false id_a (5 ∷ []) (60 * second) 0 2 done).1
        ≡ ok (3 ∷ 4 ∷ 5 ∷ [], pos 5))
unfolding sent_bytes find_row bytes_eq live scan_upload set_completed unix charge
    sendan.Ratelimit.Limiter.allow sendan.Ratelimit.Limiter.allow_n
    sendan.Ratelimit.Limiter.refilled sendan.Ratelimit.Limiter.lookup
content-finish_upload_example =
    content-finish_upload tries digest toy_cipher id_a final_a partial_a final_a_is partial_a_is
      row_a refl refl first_request (second_request ∷ []) fresh_world (pos 5) 0 none (5 ∷ [])
      (50 * second) (60 * second) 0 2 refl refl (omega arith) refl refl refl

-- A pass every hundred seconds, the first at the time of the tests, in batches of one.
abbrev passes : ℕ → Pass
passes k = record {
  now = (50 + k * 100) * second;
  failing = false;
  cancelled = λ _. false;
  faults = λ _. blob_fault;
}

sweep_dead_returns_example : (sweep_dead tries digest 3 passes policy 1 0 world).1 ≡ true
sweep_dead_returns_example =
    sweep_dead_returns tries digest 3 passes policy 1 0 world (omega arith) (omega arith)
