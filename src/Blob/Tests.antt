-- ===== src/Blob/Tests.antt =====
-- The theorems of the blob store at concrete identifiers, files and chunks.
use sendan.Prelude.{
  ℕ, ◌+◌, ◌%◌, ◌^◌, ◌≡◌, refl, ◌≢◌, ◌++◌, Bool, true, false, Option, none, some, List, [], ◌∷◌,
  Bytes, bytes_eq, codes, replicate, Result, ok, err, ◌>>=◌, arith, All, length, ap, get_or,
  blob_not_found, offset_mismatch, drop, take, if◌then◌else◌, io_failure, ◌||◌, ◌==◌,
}
use sendan.Prelude.Int.{pos}
use sendan.Blob.Names.{
  FilePath, IsEntry, final_path, partial_path, paths_contained, paths_apart, shard, validate_id,
}
use sendan.Blob.Files.{Files, Reader, partial_length, finish, open_blob, set_file}
use sendan.Blob.Uploading.{send_all, delivered, finish-send_all}
use sendan.Blob.Counter.{IsOctets}
use sendan.Blob.Shredder.{shred, toy_cipher}
use sendan.Blob.Shredding.{shred-drop-shred}
use sendan.Blob.Objects.{collect, concat, complete_part}
use sendan.Blob.Multipart.{
  S3Calls, s3_write_chunk, s3_length, s3_finish, s3_open, s3_state, state_length, upload_id_for,
  uploads_for, newest, stat_tail, sort_parts, insert_part, sum_parts, tail_key, put_tail, read_tail,
  fill_parts, append_chunk, continue_chunk, finish_parts, complete_parts, remove_tail,
}
use sendan.Blob.Listing.{calm_calls}
use sendan.Blob.Publishing.{send_chunks, arrived, s3_finish-send_chunks}
use sendan.Blob.Memory.{Memory, empty_memory, memory_store, numbered}

abbrev id_a : Bytes
id_a = codes "AAAAAAAAAAAAAAAAAAAAAA"

abbrev id_b : Bytes
id_b = codes "BBBBBBBBBBBBBBBBBBBBBB"

abbrev final_a : FilePath
final_a = codes "AA" ∷ codes "AA" ∷ id_a ∷ []

abbrev partial_a : FilePath
partial_a = codes "AA" ∷ codes "AA" ∷ codes ".AAAAAAAAAAAAAAAAAAAAAA.partial" ∷ []

abbrev final_b : FilePath
final_b = codes "BB" ∷ codes "BB" ∷ id_b ∷ []

abbrev partial_b : FilePath
partial_b = codes "BB" ∷ codes "BB" ∷ codes ".BBBBBBBBBBBBBBBBBBBBBB.partial" ∷ []

final_a_is : final_path id_a ≡ ok final_a
unfolding final_path validate_id sendan.Prelude.all_bytes sendan.Blob.Names.is_id_char
final_a_is = refl

partial_a_is : partial_path id_a ≡ ok partial_a
unfolding partial_path validate_id sendan.Prelude.all_bytes sendan.Blob.Names.is_id_char
partial_a_is = refl

final_b_is : final_path id_b ≡ ok final_b
unfolding final_path validate_id sendan.Prelude.all_bytes sendan.Blob.Names.is_id_char
final_b_is = refl

partial_b_is : partial_path id_b ≡ ok partial_b
unfolding partial_path validate_id sendan.Prelude.all_bytes sendan.Blob.Names.is_id_char
partial_b_is = refl

apart_ids : id_a ≢ id_b
apart_ids e = ground (arith, ap (λ xs. get_or xs 0 0) e)

apart_final : final_b ≢ final_a
apart_final e = ground (arith, ap (λ xs. get_or (get_or xs 0 []) 0 0) e)

apart_partial : final_b ≢ partial_a
apart_partial e = ground (arith, ap (λ xs. get_or (get_or xs 0 []) 0 0) e)

paths_contained_example : All IsEntry final_a × All IsEntry partial_a
paths_contained_example = paths_contained id_a final_a partial_a final_a_is partial_a_is

paths_apart_example : (final_a ≢ final_b) × (partial_a ≢ partial_b) × (partial_a ≢ final_b)
paths_apart_example =
    paths_apart id_a id_b final_a final_b partial_a partial_b final_a_is final_b_is partial_a_is
      partial_b_is apart_ids

abbrev no_files : Files
no_files _ = none

-- A chunk that breaks off, and one that arrives whole.
abbrev broken_chunk : Reader
broken_chunk = record { content = 1 ∷ 2 ∷ 3 ∷ []; broken = true }

abbrev whole_chunk : Reader
whole_chunk = record { content = 4 ∷ 5 ∷ []; broken = false }

finish-send_all_example :
    let sent =
      send_all id_a final_a partial_a final_a_is partial_a_is
        ((broken_chunk, false) ∷ (whole_chunk, true) ∷ [])
        no_files in
    let (fs', answer) = finish false id_a sent in
    (open_blob false id_a sent ≡ open_blob false id_a no_files)
    × (answer ≡ ok tt)
    × (open_blob false id_a fs' ≡ ok (1 ∷ 2 ∷ 3 ∷ 4 ∷ 5 ∷ []))
    × (partial_length false id_a fs' ≡ err blob_not_found)
unfolding delivered
finish-send_all_example =
    finish-send_all id_a final_a partial_a final_a_is partial_a_is (broken_chunk, false)
      ((whole_chunk, true) ∷ []) no_files

abbrev one_file : Files
one_file = set_file final_b (some (9 ∷ [])) no_files

-- A counter whose low octets are about to carry.
abbrev counter : Bytes
counter = 1 ∷ 255 ∷ 255 ∷ []

counter-IsOctets : IsOctets counter
counter-IsOctets = omega arith

abbrev key : Bytes
key = replicate 32 7

abbrev plain : Bytes
plain = codes "twenty bytes or more"

plain-IsOctets : IsOctets plain
plain-IsOctets = omega arith

abbrev stored_of : Result Bytes → Bytes
stored_of (ok c) = c
stored_of (err e) = []

abbrev stored : Bytes
stored = stored_of (shred toy_cipher key (pos 0) plain)

shred-drop-shred_example : shred toy_cipher key (pos 17) (drop 17 stored) ≡ ok (codes "ore")
unfolding shred sendan.Blob.Shredder.stream
shred-drop-shred_example = shred-drop-shred toy_cipher key 17 plain stored refl plain-IsOctets refl

-- An object store whose parts have four bytes: two requests, of which the first breaks off.
abbrev blob_key : Bytes
blob_key = codes "0123456789abcdef"

s3_finish-send_chunks_example :
    let sent =
      send_chunks memory_store 4
        (omega arith)
        blob_key
        (record { content = 1 ∷ 2 ∷ 3 ∷ 4 ∷ 5 ∷ []; broken = true }
          ∷ record { content = 6 ∷ 7 ∷ 8 ∷ []; broken = false }
          ∷ [])
        empty_memory in
    let (s', answer) = s3_finish memory_store 4 calm_calls blob_key sent in
    (s3_open memory_store 4 false blob_key sent ≡ err blob_not_found)
    × (answer ≡ ok tt)
    × (s3_open memory_store 4 false blob_key s' ≡ ok (1 ∷ 2 ∷ 3 ∷ 4 ∷ 5 ∷ 6 ∷ 7 ∷ 8 ∷ []))
    × (s3_length memory_store 4 calm_calls blob_key s' ≡ err blob_not_found)
unfolding arrived
s3_finish-send_chunks_example =
    s3_finish-send_chunks memory_store 4 (omega arith) blob_key
      (record { content = 1 ∷ 2 ∷ 3 ∷ 4 ∷ 5 ∷ []; broken = true })
      (record { content = 6 ∷ 7 ∷ 8 ∷ []; broken = false } ∷ []) empty_memory refl refl

-- A tail of three bytes, and a chunk of nine that fills two more parts, the second of which cannot be
-- stored: the tail is still there behind the part that took it in.
abbrev second_part_fails : S3Calls
second_part_fails = record calm_calls { part_fails = λ n. n == 2 }

abbrev tail_stored : Memory
tail_stored =
    (s3_write_chunk memory_store 4 calm_calls blob_key 0
      (record { content = 1 ∷ 2 ∷ 3 ∷ []; broken = false }) empty_memory).0

abbrev tail_stale : Memory
tail_stale =
    (s3_write_chunk memory_store 4 second_part_fails blob_key 3
      (record { content = 4 ∷ 5 ∷ 6 ∷ 7 ∷ 8 ∷ 9 ∷ []; broken = false }) tail_stored).0

-- Seven bytes are reported stored where the first four of the nine sent are.
stale_length : s3_length memory_store 4 calm_calls blob_key tail_stale ≡ ok 7
unfolding s3_write_chunk s3_length s3_finish s3_open s3_state state_length upload_id_for uploads_for
    newest stat_tail sort_parts insert_part sum_parts tail_key put_tail read_tail fill_parts
    append_chunk continue_chunk finish_parts complete_parts complete_part remove_tail collect concat
    bytes_eq numbered
stale_length = refl

-- A client that goes on from there with the last two ends with a blob that repeats three.
stale_blob :
    s3_open memory_store 4 false blob_key
      (s3_finish memory_store 4 calm_calls blob_key
        (s3_write_chunk memory_store 4 calm_calls blob_key 7
          (record { content = 8 ∷ 9 ∷ []; broken = false })
          tail_stale).0).0
    ≡ ok (1 ∷ 2 ∷ 3 ∷ 4 ∷ 1 ∷ 2 ∷ 3 ∷ 8 ∷ 9 ∷ [])
unfolding s3_write_chunk s3_length s3_finish s3_open s3_state state_length upload_id_for uploads_for
    newest stat_tail sort_parts insert_part sum_parts tail_key put_tail read_tail fill_parts
    append_chunk continue_chunk finish_parts complete_parts complete_part remove_tail collect concat
    bytes_eq numbered
stale_blob = refl
