-- ===== src/Compat/Tests.antt =====
-- The theorems of this protocol at a concrete library: what its requests are granted.
mod Uploads
mod Downloads
use mathlib.Core.Path.{subst}
use mathlib.Core.Option.{some-injective}
use sendan.Prelude.{
  sym, ◌∙◌, ℕ, ◌*◌, ◌≡◌, refl, ◌≢◌, ◌⊎◌, true, false, Option, none, some, List, [], ◌∷◌, ◌++◌,
  Bytes, bytes_eq, bytes_eq_iff, codes, replicate, ok, err, Error, arith, map, get_or, ap, ◌%◌,
  all_bytes,
}
use sendan.Prelude.Int.{pos}
use sendan.Store.Upload.{Upload, live, second, validate_shared, incomplete_password}
use sendan.Store.Table.{
  Row, find_row, get, scan_upload, to_row, unix, nullable_unix, is_some, from_nullable,
}
use sendan.Blob.Names.{FilePath, final_path, partial_path, validate_id, shard, is_id_char}
use sendan.Blob.Files.{Files, set_file, open_blob, path_eq}
use sendan.Blob.Counter.{IsOctets}
use sendan.Blob.Shredder.{toy_cipher, shred_read}
use sendan.Blob.Shredding.{shred-total}
use sendan.Ratelimit.Float.{whole}
use sendan.Ratelimit.Limiter.{Limits}
use sendan.Upload.Attempts.{Attempts, limiter_attempts}
use sendan.Upload.Policy.{Policy, resolve_expiry, ensure_bounded}
use sendan.Upload.Service.{no_faults}
use sendan.Compat.Rows.{
  CompatUpload, CompatTable, update_compat, set_auth_key, find_compat, create_compat,
  validate_compat, insert_both, set_finished,
}
use sendan.Compat.Auth.{
  Library, authenticate, granted, refused, upload_auth_key, cut_space, decode_b64, or_else, proves,
  presented_authenticator,
}
use sendan.Compat.Receiving.{
  text, binary, Arrival, Outcome, discard, UploadHeader, RunCalls, Prepared, passed, CompatWorld,
  run_upload, prepare, read_header, lifetime, answered, drawn, new_upload_row, download_limit,
  is_end,
}
use sendan.Compat.Serving.{
  Answer, file, handle_download, handle_metadata, plain, download_token, bearer_token,
  handle_password, with_rows,
}
use sendan.Compat.Keeping.{IsSoundWorld}
use sendan.Compat.Invariant.{Reach, Reach-IsSoundWorld}
use sendan.Compat.Invariant
use sendan.Compat.Replay.{
  sign, calm, all_granted, offered-granted, authenticate-replayed, signed-granted,
}
use sendan.Compat.Granting.{IsSafe, authenticate_lem}
use sendan.Compat.Cleanup.{with_cleanup, IsGone, IsComplete, run_upload-abandoned}
use sendan.Compat.Transfer.{frames_of, joined, whole_frame}
use sendan.Compat.Fetching.{reaching, stored_content, get-live}
use sendan.Compat.Counting.{downloaded, downloads_limited}
use sendan.Compat.Protecting.{Protected, handle_password_lem, handle_password-locks}
use sendan.Compat.Delivery.{undisturbed, run_upload-handle_download}

-- Encodings that change nothing, and a MAC that is none, and serves: it repeats what it is given.
pub map-IsOctets : (bs : Bytes) → IsOctets (map (λ b. b % 256) bs)
map-IsOctets [] = tt
map-IsOctets (b ∷ bs) = (omega arith, map-IsOctets bs)

pub not_bearer : bytes_eq (codes "send-v1") (codes "bearer") ≡ false
unfolding bytes_eq
not_bearer = refl

abbrev pub lib : Library
lib = record {
  hmac = λ key message. map (λ b. b % 256) (key ++ message);
  trim_space = λ s. s;
  equal_fold = bytes_eq;
  encode_raw_url = λ b. b;
  decode_raw_url = some;
  decode_url = λ _. none;
  decode_raw_std = λ _. none;
  decode_std = λ _. none;
  hmac-IsOctets = λ key message. map-IsOctets (key ++ message);
  equal_fold_refl = λ s. (bytes_eq_iff s s).1 refl;
  schemes_differ = not_bearer;
  trim_space-encode = λ b. refl;
  decode-encode = λ b h. refl;
}

abbrev pub limits : Limits whole
limits = record { rate = 1; burst = 3; idle = 600_000_000_000 }

abbrev pub tries : Attempts
tries = limiter_attempts whole limits

-- A digest that is none, and serves.
abbrev pub digest : Bytes → Bytes
digest b = replicate 32 (get_or b 0 0)

abbrev pub id_a : Bytes
id_a = codes "00112233445566aa"

abbrev pub policy : Policy
policy = record {
  default_ttl = 3600 * second;
  max_ttl = 7200 * second;
  allow_infinite_ttl = false;
  default_max_downloads = 0;
  require_limit = true;
  incomplete_ttl = 0;
}

abbrev pub header : UploadHeader
header = record {
  file_metadata = codes "sealed";
  authorization = codes "send-v1 key";
  time_limit = pos 60;
  dlimit = pos 2;
}

abbrev pub parse : Bytes → Option UploadHeader
parse _ = some header

abbrev pub run_calls : RunCalls
run_calls = record {
  fresh_id = some id_a;
  fresh_owner_token = some (codes "owner");
  fresh_nonce = some (codes "first");
  fresh_key = some (replicate 32 7);
  resolved_at = 5 * second;
  created_at = 5 * second;
  finished_at = 9 * second;
  begin_fails = false;
  create_fails = false;
  link_fails = false;
  finish_fails = false;
  finish_row_fails = false;
  done_fails = false;
  cleanup = no_faults;
}

abbrev pub no_files : Files
no_files _ = none

abbrev pub empty_world : CompatWorld tries digest
empty_world = record {
  world = record { table = []; files = no_files; attempts = some [] };
  rows = [];
}

abbrev pub state_a : CompatUpload
state_a = record {
  id = id_a;
  auth_key = codes "key";
  nonce = codes "first";
  metadata = codes "sealed";
  requires_password = false;
}

authenticate_lem_example :
    IsSafe lib
      (calm (codes "second"))
      (sign lib (codes "key") (codes "first"))
      id_a
      (state_a ∷ [])
      (authenticate lib
        (calm (codes "second"))
        (sign lib (codes "key") (codes "first"))
        id_a
        (state_a ∷ []))
authenticate_lem_example =
    authenticate_lem lib (calm (codes "second")) (sign lib (codes "key") (codes "first")) id_a
      (state_a ∷ [])

pub found_a : find_compat id_a (state_a ∷ []) ≡ some state_a
unfolding find_compat bytes_eq
found_a = refl

unsigned : proves lib [] state_a ≡ false
unfolding proves presented_authenticator cut_space
unsigned = refl

offered-granted_example :
    let (after, (offered, verdict)) =
      authenticate lib (calm (codes "other")) [] id_a (state_a ∷ []) in
    (verdict ≡ refused 401)
    × (all_granted lib state_a.auth_key id_a (codes "second" ∷ codes "third" ∷ []) offered after
        ≡ true)
offered-granted_example =
    offered-granted lib (calm (codes "other")) [] id_a (state_a ∷ []) state_a
      (codes "second" ∷ codes "third" ∷ []) found_a refl unsigned (refl, (refl, tt))

macs_differ : lib.hmac (codes "key") (codes "second") ≢ lib.hmac (codes "key") (codes "first")
macs_differ e = ground (arith, ap (λ xs. get_or xs 3 0) e)

authenticate-replayed_example :
    let after =
      (authenticate lib
        (calm (codes "second"))
        (sign lib (codes "key") (codes "first"))
        id_a
        (state_a ∷ [])).0 in
    authenticate lib (calm (codes "third")) (sign lib (codes "key") (codes "first")) id_a after
    ≡ (after, (some (codes "second"), refused 401))
authenticate-replayed_example =
    authenticate-replayed lib (calm (codes "second")) (calm (codes "third"))
      (sign lib (codes "key") (codes "first")) id_a (state_a ∷ [])
      (record state_a { nonce = codes "second" })
      (ap (λ x. x.1.1)
        (signed-granted lib (codes "second") id_a (state_a ∷ []) state_a found_a refl))
      refl
      (λ old e.
        subst (λ o. lib.hmac o.auth_key (codes "second") ≢ lib.hmac o.auth_key o.nonce)
          (some-injective state_a old (sym found_a ∙ e)) macs_differ)

abbrev pub directory : FilePath
directory = codes "00" ∷ codes "11" ∷ []

abbrev pub sent : Bytes
sent = 1 ∷ 2 ∷ 3 ∷ 4 ∷ 5 ∷ []
