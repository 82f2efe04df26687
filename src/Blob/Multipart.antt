-- ===== src/Blob/Multipart.antt =====
-- internal/blob/s3.go and s3multipart.go: the blob store over an object store. A partial upload is a
-- multipart upload and an object with the bytes below a part boundary; nothing of it is held here. The
-- operations take the key that `object_key` makes of an identifier, which they refuse where it does.
use sendan.Prelude.{
  ℕ, zero, suc, ◌+◌, ◌-◌, ◌*◌, ◌^◌, Bool, not, ◌&&◌, Option, none, some, List, [], ◌∷◌, ◌++◌, ◌||◌,
  Bytes, bytes_eq, codes, is_empty, ltb, ◌==◌, length, take, drop, map, filter_by, if◌then◌else◌,
  Result, ok, err, Error, ◌>>=◌, ◌>>◌, refuse_if, io_failure, blob_not_found, offset_mismatch,
}
use sendan.Blob.Names.{validate_id}
use sendan.Blob.Files.{Reader, Written, contents}
use sendan.Blob.Objects.{ObjectStore, collect, InProgress, Part, CompletePart, complete_part}

abbrev pub default_part_size : ℕ
default_part_size = 5 * 2 ^ 20

unfoldable pub tail_key : Bytes → Bytes
tail_key key = key ++ codes ".part"

-- `(*S3).key`, with the configured prefix.
unfoldable pub object_key : Bytes → Bytes → Result Bytes
object_key prefix id = do
  validate_id id
  ok (if is_empty prefix then id else prefix ++ (codes "/" ++ id))

-- `s3state`; no upload is none, where the code has the empty string.
pub record S3State : Type 0 where
  pub upload_id : Option Bytes
  pub parts : List Part
  pub stored : ℕ
  pub tail : ℕ

unfoldable pub state_length : S3State → ℕ
state_length st = st.stored + st.tail

-- Which calls fail; those of parts by the number of the part, and those that put or remove an object
-- together.
pub record S3Calls : Type 0 where
  pub uploads_fail : Bool
  pub parts_fail : Bool
  pub stat_fails : Bool
  pub new_fails : Bool
  pub read_fails : Bool
  pub part_fails : ℕ → Bool
  pub object_fails : Bool
  pub complete_fails : Bool
  pub abort_fails : Bool

-- The loop of `uploadIDFor` for the latest.
unfoldable pub newest : InProgress → List InProgress → InProgress
newest u [] = u
newest u (v ∷ rest) = newest (if ltb u.initiated v.initiated then v else u) rest

-- `sort.Slice` by number.
unfoldable pub insert_part : Part → List Part → List Part
insert_part p [] = p ∷ []
insert_part p (q ∷ rest) = if ltb q.number p.number then q ∷ insert_part p rest else p ∷ q ∷ rest

unfoldable pub sort_parts : List Part → List Part
unfolding insert_part
sort_parts [] = []
sort_parts (p ∷ rest) = insert_part p (sort_parts rest)

-- The loop that sums the sizes, from a number that the next part is to have.
unfoldable pub sum_parts : ℕ → List Part → ℕ → Result ℕ
sum_parts n [] stored = ok stored
sum_parts n (p ∷ rest) stored =
    let more = sum_parts (suc n) rest (stored + p.size) in
    if not (p.number == n) then err io_failure else more

-- What the loop of `writeChunk` leaves: the state, the bytes read in whole parts, and what is left of
-- them below a part, unless a part could not be stored.
pub record Filled (State : Type 0) : Type 0 where
  pub state : State
  pub read : ℕ
  pub rest : Option Bytes

module _ (store : ObjectStore) (part_size : ℕ) where
  unfoldable pub uploads_for : S3Calls → Bytes → store.State → Result (List InProgress)
  unfolding collect
  uploads_for calls key s = do
    refuse_if calls.uploads_fail io_failure
    ok (
        filter_by (λ u. bytes_eq u.key key)
          (collect (store.pages s) (store.list_uploads key s) ([], [])))

  unfoldable pub upload_id_for : S3Calls → Bytes → store.State → Result (Option Bytes)
  unfolding uploads_for newest
  upload_id_for calls key s = elim (uploads_for calls key s) [
    | err e ↦ err e
    | ok [] ↦ ok none
    | ok (u ∷ rest) ↦ ok (some (newest u rest).upload_id)
  ]

  -- The size that `StatObject` reports of the tail, which may not be there.
  unfoldable pub stat_tail : S3Calls → Bytes → store.State → Result ℕ
  unfolding tail_key
  stat_tail calls key s = do
    refuse_if calls.stat_fails io_failure
    ok (length (contents (store.object (tail_key key) s)))

  -- `(*S3).state`
  unfoldable pub s3_state : S3Calls → Bytes → store.State → Result S3State
  unfolding upload_id_for stat_tail sort_parts sum_parts
  s3_state calls key s = elim (upload_id_for calls key s) [
    | err e ↦ err e
    | ok none ↦ ok (record { upload_id = none; parts = []; stored = 0; tail = 0 })
    | ok (some u) ↦ do
      refuse_if calls.parts_fail io_failure
      let parts = sort_parts (collect (store.pages s) (store.list_parts key u s) 0)
      stored ← sum_parts 1 parts 0
      tail ← stat_tail calls key s
      ok (record { upload_id = some u; parts = parts; stored = stored; tail = tail })
  ]

  unfoldable pub put_tail : S3Calls → Bytes → Bytes → store.State → Result store.State
  unfolding tail_key
  put_tail calls key b s = do
    refuse_if calls.object_fails io_failure
    ok (
        if is_empty b
        then store.remove_object (tail_key key) s
        else store.put_object (tail_key key) b s)

  unfoldable pub read_tail : S3Calls → Bytes → store.State → Result Bytes
  unfolding tail_key
  read_tail calls key s = do
    refuse_if calls.read_fails io_failure
    ok (contents (store.object (tail_key key) s))

  -- The loop of `writeChunk` over what its source gives, from the number of the next part. Its fuel is
  -- the number of bytes: each round but the last takes a part of them.
  unfoldable pub fill_parts :
      S3Calls → Bytes → Bytes → ℕ → ℕ → Bytes → store.State → Filled store.State
  fill_parts calls key u zero next b s = record { state = s; read = 0; rest = some b }
  fill_parts calls key u (suc fuel) next b s =
      let stored = store.put_part key u next (take part_size b) s in
      let more = fill_parts calls key u fuel (suc next) (drop part_size b) stored.0 in
      if ltb (length b) part_size
      then record { state = s; read = 0; rest = some b }
      else if calls.part_fails next
      then record { state = s; read = part_size; rest = none }
      else record more { read = part_size + more.read }

  -- The part of `writeChunk` behind the state: the head is the tail read back.
  unfoldable pub append_chunk :
      S3Calls → Bytes → Bytes → ℕ → Bytes → Reader → store.State → store.State × Written
  unfolding fill_parts put_tail
  append_chunk calls key u next head r s =
      let source = head ++ r.content in
      let filled = fill_parts calls key u (suc (length source)) next source s in
      elim filled.rest [
        | none ↦
            (filled.state, record { count = filled.read - length head; fault = some io_failure })
        | some b ↦
            let count = filled.read + length b - length head in
            elim (put_tail calls key b filled.state) [
              | err e ↦ (filled.state, record { count = count; fault = some e })
              | ok s' ↦
                  (s', record { count = count; fault = if r.broken then some io_failure else none })
            ]
      ]

  abbrev pub refused_write : Error → store.State → store.State × Written
  refused_write e s = (s, record { count = 0; fault = some e })

  -- `writeChunk` once an upload is there.
  unfoldable pub continue_chunk :
      S3Calls → Bytes → Bytes → S3State → Reader → store.State → store.State × Written
  unfolding read_tail append_chunk
  continue_chunk calls key u st r s =
      let next = suc (length st.parts) in
      if ltb 0 st.tail
      then elim (read_tail calls key s) [
        | err e ↦ refused_write e s
        | ok head ↦ append_chunk calls key u next head r s
      ]
      else append_chunk calls key u next [] r s

  unfoldable pub s3_write_chunk : S3Calls → Bytes → ℕ → Reader → store.State → store.State × Written
  unfolding s3_state state_length continue_chunk
  s3_write_chunk calls key offset r s = elim (s3_state calls key s) [
    | err e ↦ refused_write e s
    | ok st ↦
        if not (offset == state_length st)
        then refused_write offset_mismatch s
        else elim st.upload_id [
          | some u ↦ continue_chunk calls key u st r s
          | none ↦
              if calls.new_fails
              then refused_write io_failure s
              else let (s', u) = store.new_upload key s in continue_chunk calls key u st r s'
        ]
  ]

  -- `Length`
  unfoldable pub s3_length : S3Calls → Bytes → store.State → Result ℕ
  unfolding s3_state state_length
  s3_length calls key s = do
    st ← s3_state calls key s
    elim st.upload_id [ none ↦ err blob_not_found | some u ↦ ok (state_length st) ]

  unfoldable pub remove_tail : S3Calls → Bytes → store.State → store.State × Result (Unit {0})
  unfolding tail_key
  remove_tail calls key s =
      if calls.object_fails
      then (s, err io_failure)
      else (store.remove_object (tail_key key) s, ok tt)

  -- `finish` once the last part is there: the completion, then the tail.
  unfoldable pub complete_parts :
      S3Calls → Bytes → Bytes → List CompletePart → store.State → store.State × Result (Unit {0})
  unfolding remove_tail
  complete_parts calls key u parts s =
      if calls.complete_fails
      then (s, err io_failure)
      else remove_tail calls key (store.complete_upload key u parts s)

  unfoldable pub finish_parts :
      S3Calls → Bytes → Bytes → S3State → store.State → store.State × Result (Unit {0})
  unfolding read_tail complete_parts complete_part
  finish_parts calls key u st s =
      let parts = map complete_part st.parts in
      let n = suc (length st.parts) in
      if ltb 0 st.tail
      then elim (read_tail calls key s) [
        | err e ↦ (s, err e)
        | ok b ↦
            if calls.part_fails n
            then (s, err io_failure)
            else let (s', p) = store.put_part key u n b s in
              complete_parts calls key u (parts ++ complete_part p ∷ []) s'
      ]
      else complete_parts calls key u parts s

  -- The branch of `finish` for an upload of nothing.
  unfoldable pub finish_empty :
      S3Calls → Bytes → Bytes → store.State → store.State × Result (Unit {0})
  finish_empty calls key u s =
      let aborted = store.abort_upload key u s in
      if calls.abort_fails
      then (s, err io_failure)
      else if calls.object_fails
      then (aborted, err io_failure)
      else (store.put_object key [] aborted, ok tt)

  -- `finish`
  unfoldable pub s3_finish : S3Calls → Bytes → store.State → store.State × Result (Unit {0})
  unfolding s3_state finish_parts finish_empty
  s3_finish calls key s = elim (s3_state calls key s) [
    | err e ↦ (s, err e)
    | ok st ↦ elim st.upload_id [
      | none ↦ (s, err blob_not_found)
      | some u ↦
          if st.stored == 0 && st.tail == 0
          then finish_empty calls key u s
          else finish_parts calls key u st s
    ]
  ]

  unfoldable pub abort_each :
      S3Calls → Bytes → List InProgress → store.State → store.State × Result (Unit {0})
  abort_each calls key [] s = (s, ok tt)
  abort_each calls key (u ∷ rest) s =
      let more = abort_each calls key rest (store.abort_upload key u.upload_id s) in
      if calls.abort_fails then (s, err io_failure) else more

  unfoldable pub discard_partial : S3Calls → Bytes → store.State → store.State × Result (Unit {0})
  unfolding uploads_for abort_each remove_tail
  discard_partial calls key s = elim (uploads_for calls key s) [
    | err e ↦ (s, err e)
    | ok us ↦
        let (s', aborted) = abort_each calls key us s in
        elim aborted [ err e ↦ (s', err e) | ok _ ↦ remove_tail calls key s' ]
  ]

  -- `Delete`
  unfoldable pub s3_delete : Bool → S3Calls → Bytes → store.State → store.State × Result (Unit {0})
  unfolding discard_partial
  s3_delete remove_fails calls key s =
      if remove_fails
      then (s, err io_failure)
      else discard_partial calls key (store.remove_object key s)

  -- `Open`: what the object reads as.
  unfoldable pub s3_open : Bool → Bytes → store.State → Result Bytes
  s3_open failing key s = do
    refuse_if failing io_failure
    elim (store.object key s) [ none ↦ err blob_not_found | some b ↦ ok b ]

  -- `Put`: minio stores all of it or nothing.
  unfoldable pub s3_put : Bool → Bytes → Reader → store.State → store.State × Result ℕ
  s3_put failing key r s =
      if r.broken || failing
      then (s, err io_failure)
      else (store.put_object key r.content s, ok (length r.content))
