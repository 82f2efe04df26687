-- ===== src/Compat/Tests/Uploads.antt =====
-- An upload of two pieces, one that breaks off, and what can follow.
use sendan.Prelude.{
  ◌*◌, ◌≡◌, refl, ◌⊎◌, true, false, none, some, List, [], ◌∷◌, ◌++◌, Bytes, bytes_eq, codes,
  replicate, ok, err, Error, arith, all_bytes,
}
use sendan.Prelude.Int.{pos}
use sendan.Store.Upload.{Upload, live, second, validate_shared, incomplete_password}
use sendan.Store.Table.{find_row, scan_upload, to_row, unix, nullable_unix, is_some, from_nullable}
use sendan.Blob.Names.{final_path, partial_path, validate_id, shard, is_id_char}
use sendan.Blob.Shredder.{toy_cipher}
use sendan.Upload.Policy.{resolve_expiry, ensure_bounded}
use sendan.Upload.Service.{no_faults}
use sendan.Compat.Rows.{find_compat, create_compat, validate_compat, insert_both, set_finished}
use sendan.Compat.Auth.{upload_auth_key, cut_space, decode_b64, or_else}
use sendan.Compat.Receiving.{
  text, binary, Arrival, Outcome, discard, Prepared, passed, CompatWorld, run_upload, prepare,
  read_header, lifetime, answered, drawn, new_upload_row, download_limit, is_end,
}
use sendan.Compat.Serving.{file, handle_download, handle_metadata}
use sendan.Compat.Keeping.{IsSoundWorld}
use sendan.Compat.Invariant.{Reach, Reach-IsSoundWorld}
use sendan.Compat.Invariant
use sendan.Compat.Replay.{sign, calm}
use sendan.Compat.Cleanup.{with_cleanup, IsGone, IsComplete, run_upload-abandoned}
use sendan.Compat.Transfer.{frames_of, joined, whole_frame}
use sendan.Compat.Fetching.{reaching}
use sendan.Compat.Delivery.{undisturbed, run_upload-handle_download}
use sendan.Compat.Tests.{
  lib, tries, digest, id_a, policy, parse, run_calls, no_files, empty_world, state_a, directory,
  sent,
}

-- The rows that the header above prepares.
abbrev upload_a : Upload
upload_a = record {
  id = id_a;
  wrapped_file_key = [];
  wrap_nonce = [];
  metadata_envelope = [];
  metadata_nonce = [];
  auth_token_hash = replicate 32 b'c';
  owner_token_hash = replicate 32 b'o';
  at_rest_key = replicate 32 7;
  password = none;
  size = pos 0;
  created_at = 5 * second;
  expires_at = 65 * second;
  max_downloads = pos 2;
  download_count = 0;
  bytes_served = 0;
  completed_at = 0;
}

abbrev prepared_a : Prepared
prepared_a = record { upload = upload_a; compat = state_a; owner_token = codes "owner" }

prepared :
    prepare lib digest parse (undisturbed run_calls) policy (some (text [])) ≡ passed prepared_a
unfolding prepare read_header answered drawn lifetime new_upload_row download_limit upload_auth_key
    cut_space decode_b64 or_else bytes_eq resolve_expiry ensure_bounded
prepared = refl

inserted :
    create_compat false false upload_a state_a [] [] ≡ ok (to_row upload_a ∷ [], state_a ∷ [])
unfolding create_compat validate_compat validate_shared insert_both find_row find_compat is_some
    bytes_eq incomplete_password
inserted = refl

final_a : final_path id_a ≡ ok (directory ++ id_a ∷ [])
unfolding final_path validate_id all_bytes is_id_char shard
final_a = refl

partial_a : partial_path id_a ≡ ok (directory ++ codes ".00112233445566aa.partial" ∷ [])
unfolding partial_path validate_id all_bytes is_id_char shard
partial_a = refl

-- The upload is live at its completion.
live_a : live (scan_upload (set_finished 5 9 (to_row upload_a))) (10 * second) ≡ true
unfolding live scan_upload set_finished to_row nullable_unix from_nullable unix
live_a = refl

run_upload-handle_download_example :
    let (after, (messages, answer)) =
      run_upload tries digest lib toy_cipher parse policy
        (undisturbed run_calls)
        (some (text []))
        (frames_of ((1 ∷ 2 ∷ []) ∷ (3 ∷ 4 ∷ 5 ∷ []) ∷ []))
        empty_world in
    (answer ≡ ok tt)
    × ((handle_download tries digest lib toy_cipher
          (calm (codes "second"))
          (reaching false 5)
          (sign lib (codes "key") (codes "first"))
          id_a
          (10 * second)
          after).1
        ≡ record { status = 200; offered = some (codes "second"); body = file sent (pos 5) })
unfolding joined is_end unix
run_upload-handle_download_example =
    run_upload-handle_download tries digest lib toy_cipher parse policy run_calls (some (text []))
      (1 ∷ 2 ∷ []) ((3 ∷ 4 ∷ 5 ∷ []) ∷ []) empty_world prepared_a (to_row upload_a ∷ [])
      (state_a ∷ []) (directory ++ id_a ∷ []) (directory ++ codes ".00112233445566aa.partial" ∷ [])
      false 5 (codes "second") (10 * second) prepared inserted final_a partial_a refl refl
      (refl, (refl, tt)) (omega arith) refl live_a

-- The second piece breaks off.
abbrev broken_off : List Arrival
broken_off =
    whole_frame (1 ∷ 2 ∷ [])
    ∷ record { frame = binary (3 ∷ []); broken = true; setup_fails = false; sync_fails = false }
    ∷ []

abbrev broken_run : Outcome tries digest
broken_run =
    run_upload tries digest lib toy_cipher parse policy
      (with_cleanup tries digest lib toy_cipher parse policy run_calls) (some (text [])) broken_off
      empty_world

run_upload-abandoned_example :
    ((broken_run.0 ≡ empty_world) × (e : Error) × (broken_run.1.1 ≡ err e))
    ⊎ ((IsGone tries digest id_a broken_run.0 × (e : Error) × (broken_run.1.1 ≡ err e))
        ⊎ ((key : Bytes) × IsComplete tries digest lib toy_cipher parse policy id_a key broken_off
              no_files broken_run.0))
run_upload-abandoned_example =
    run_upload-abandoned tries digest lib toy_cipher parse policy run_calls (some (text []))
      broken_off empty_world id_a (directory ++ id_a ∷ [])
      (directory ++ codes ".00112233445566aa.partial" ∷ []) refl final_a partial_a

-- An upload, a request that signs a wrong nonce, and a deletion.
abbrev uploaded : CompatWorld tries digest
uploaded =
    (run_upload tries digest lib toy_cipher parse policy run_calls (some (text [])) broken_off
      empty_world).0

abbrev described : CompatWorld tries digest
described =
    (handle_metadata tries digest lib (calm (codes "second")) false
      (sign lib (codes "key") (codes "other")) id_a (10 * second) uploaded).0

Reach-IsSoundWorld_example :
    IsSoundWorld tries digest (discard tries digest no_faults id_a described).0
Reach-IsSoundWorld_example =
    Reach-IsSoundWorld tries digest lib empty_world
      (discard tries digest no_faults id_a described).0
      (Invariant.next
        (Invariant.next
          (Invariant.next Invariant.here (
            Invariant.uploads toy_cipher parse policy run_calls (some (text [])) broken_off
              empty_world))
          (Invariant.describes (calm (codes "second")) false
            (sign lib (codes "key") (codes "other")) id_a (10 * second) uploaded))
        (Invariant.deletes no_faults id_a described))
      tt
