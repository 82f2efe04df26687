-- ===== src/Compat/Delivery.antt =====
-- An upload over the websocket, and its download by a client that knows the key: what was sent is what
-- is read, through both stores and the encryption at rest.
use mathlib.Core.Option
use sendan.Prelude.{
  ℕ, ◌≡◌, refl, sym, ap, ◌∙◌, Bool, true, false, Option, none, some, List, [], ◌∷◌, ◌++◌, Bytes,
  bytes_eq_refl, is_empty, ok, arith, length, take, Option-cases, inl, inr,
}
use sendan.Prelude.Int.{pos, pos-not_negative}
use sendan.Store.Upload.{Upload, live}
use sendan.Store.Table.{
  Row, Table, find_row, update_where, get, to_row, scan_upload, is_some, unix, nullable_unix,
}
use sendan.Store.Lookup.{find_row-append, find_row-update_self}
use sendan.Blob.Names.{FilePath, final_path, partial_path}
use sendan.Blob.Files.{Files, finish}
use sendan.Blob.Uploading.{finish-open}
use sendan.Blob.Counter.{IsOctets}
use sendan.Blob.Shredder.{Cipher, shred_read, at_rest_key_size}
use sendan.Upload.Attempts.{Attempts}
use sendan.Upload.Policy.{Policy}
use sendan.Compat.Rows.{
  CompatUpload, CompatTable, find_compat, insert_both, set_finished, finish_compat, create_compat,
}
use sendan.Compat.Auth.{Library}
use sendan.Compat.Lookup.{find_compat-append}
use sendan.Compat.Sound.{
  create_compat_ok, insert_both_ok, set_finished-id, to_row-same, validate_compat_ok,
}
use sendan.Compat.Receiving.{
  Frame, Arrival, UploadHeader, RunCalls, Prepared, passed, announced, done, CompatWorld,
  with_files, with_table, run_upload, receive, prepare,
}
use sendan.Compat.Serving.{file, handle_download}
use sendan.Compat.Replay.{sign, calm}
use sendan.Compat.Running.{created, run_created, content_stored, complete_run_done}
use sendan.Compat.Fetching.{get-live, reaching, download_answer, stored_content}
use sendan.Compat.Transfer.{IsContent, frames_of, joined, receive-joined}

-- A creation that succeeds is of identifiers that neither table had, and both rows are found.
pub insert_both-found :
    (r : Row) (c : CompatUpload) (t t' : Table) (rows rows' : CompatTable)
    → insert_both r c t rows ≡ ok (t', rows')
    → (find_row r.id t' ≡ some r) × (find_compat c.id rows' ≡ some c)
unfolding insert_both is_some
insert_both-found r c t t' rows rows' e =
    let (t_is, rows_is) = insert_both_ok r c t t' rows rows' e in
    elim (Option-cases (find_row r.id t)) [
      | inr (s, found) ↦ absurd (ground (arith, found))
      | inl free ↦ elim (Option-cases (find_compat c.id rows)) [
        | inr (s, found) ↦ absurd (ground (arith, free, found))
        | inl free' ↦ (
          ap (find_row r.id) t_is ∙ find_row-append r.id t r free ∙ (rw (bytes_eq_refl r.id) refl),
          ap (find_compat c.id) rows_is
              ∙ find_compat-append c.id rows c free'
              ∙ (rw (bytes_eq_refl c.id) refl),
        )
      ]
    ]

finish_compat_row :
    (k : Bytes) (size now : ℕ) (t : Table) (r : Row)
    → find_row k t ≡ some r
    → r.completed_at ≡ none
    → finish_compat false k (pos size) now t ≡ ok (update_where k (set_finished size (unix now)) t)
unfolding finish_compat is_some
finish_compat_row k size now t r found unfinished =
    rw (finish_compat, pos-not_negative size, found, unfinished) refl

pub finished_row :
    (k : Bytes) (size at : ℕ) (t : Table) (r : Row)
    → find_row k t ≡ some r
    → find_row k (update_where k (set_finished size at) t) ≡ some (set_finished size at r)
finished_row k size at t r found =
    find_row-update_self k (set_finished size at) (set_finished-id size at) t
    ∙ ap (Option.map (set_finished size at)) found

to_row_open : (u : Upload) → u.completed_at ≡ 0 → (to_row u).completed_at ≡ none
unfolding to_row nullable_unix
to_row_open u e = rw (to_row, e) refl

pub prepared_id :
    (lib : Library) (digest : Bytes → Bytes) (parse : Bytes → Option UploadHeader)
    (calls : RunCalls) (p : Policy) (first : Option Frame) (x : Prepared) (id : Bytes)
    → calls.fresh_id ≡ some id
    → prepare lib digest parse calls p first ≡ passed x
    → x.upload.id ≡ id
unfolding prepare
prepared_id lib digest parse calls p first x id drawn e = ground arith

-- What a prepared pair of rows has: no size and no completion yet, and one identifier.
prepared_row :
    (lib : Library) (digest : Bytes → Bytes) (parse : Bytes → Option UploadHeader)
    (calls : RunCalls) (p : Policy) (first : Option Frame) (x : Prepared)
    → prepare lib digest parse calls p first ≡ passed x
    → x.upload.completed_at ≡ 0
unfolding prepare
prepared_row lib digest parse calls p first x e = ground arith

-- The calls of a run that meets no failure.
abbrev pub undisturbed : RunCalls → RunCalls
undisturbed calls = record calls {
  begin_fails = false;
  create_fails = false;
  link_fails = false;
  finish_fails = false;
  finish_row_fails = false;
  done_fails = false;
}

module _ (tries : Attempts) (digest : Bytes → Bytes) (lib : Library) (cipher : Cipher) where
  -- The state that a whole upload ends in.
  abbrev delivered : Prepared → ℕ → ℕ → Files → CompatWorld tries digest → CompatWorld tries digest
  delivered x size at fs c =
      with_table tries digest (update_where x.upload.id (set_finished size at) c.world.table)
        (with_files tries digest (finish false x.upload.id fs).0 c)

  module _ (parse : Bytes → Option UploadHeader) (p : Policy) (calls : RunCalls) where
    run_whole :
        (first : Option Frame) (frames : List Arrival) (c : CompatWorld tries digest) (x : Prepared)
        (t : Table) (rows : CompatTable) (size : ℕ)
        → prepare lib digest parse (undisturbed calls) p first ≡ passed x
        → create_compat false false x.upload x.compat c.world.table c.rows ≡ ok (t, rows)
        → let (fs, received) =
            receive cipher x.upload.id x.upload.at_rest_key frames 0 c.world.files in
          received ≡ ok size
          → (finish false x.upload.id fs).1 ≡ ok tt
          → run_upload tries digest lib cipher parse p (undisturbed calls) first frames c ≡ (
            delivered x size (unix calls.finished_at) fs (created tries digest t rows c),
            (announced x ++ done ∷ [], ok tt),
          )
    unfolding with_files
    run_whole first frames c x t rows size passes inserts arrived publishes =
        let calm_calls = undisturbed calls in
        let c₁ = created tries digest t rows c in
        let fs = (receive cipher x.upload.id x.upload.at_rest_key frames 0 c.world.files).0 in
        let (valid, both) =
          create_compat_ok false false x.upload x.compat c.world.table t c.rows rows inserts in
        let (found, _) =
          insert_both-found (to_row x.upload) x.compat c.world.table t c.rows rows both in
        let fresh = prepared_row lib digest parse calm_calls p first x passes in
        let here : find_row x.upload.id t ≡ some (to_row x.upload) =
          ap (λ k. find_row k t) (sym (to_row-same x.upload)) ∙ found in
        run_created tries digest lib cipher parse p calm_calls first frames c x t rows passes
          inserts
        ∙ content_stored tries digest lib cipher parse p calm_calls x frames c₁ size arrived
            publishes
        ∙ complete_run_done tries digest lib cipher parse p calm_calls x.upload.id size
            (announced x) (with_files tries digest (finish false x.upload.id fs).0 c₁)
            (update_where x.upload.id (set_finished size (unix calls.finished_at)) t)
            (finish_compat_row x.upload.id size calls.finished_at t (to_row x.upload) here
              (to_row_open x.upload fresh))

    delivered-get :
        (x : Prepared) (size at now : ℕ) (t : Table)
        → find_row x.upload.id t ≡ some (to_row x.upload)
        → live (scan_upload (set_finished size at (to_row x.upload))) now ≡ true
        → get false x.upload.id now (update_where x.upload.id (set_finished size at) t)
          ≡ ok (scan_upload (set_finished size at (to_row x.upload)))
    delivered-get x size at now t found lives =
        get-live x.upload.id now (update_where x.upload.id (set_finished size at) t)
          (set_finished size at (to_row x.upload))
          (finished_row x.upload.id size at t (to_row x.upload) found) lives

    kept_key :
        (x : Prepared) (size at : ℕ)
        → let u = scan_upload (set_finished size at (to_row x.upload)) in
          (u.at_rest_key ≡ x.upload.at_rest_key) × (u.size ≡ pos size)
    unfolding scan_upload set_finished to_row
    kept_key x size at = (refl, refl)

    -- An upload over the websocket whose header is accepted and whose rows are inserted, cut into pieces
    -- in any way, at least one of them and none that reads as the end, is completed. While it is live, a
    -- client that knows the key that the header carried, and signs the first nonce, is then sent exactly
    -- the bytes of the pieces, in order, up to what it takes, announced with their number, and the next
    -- nonce. Nothing was stored under the identifier, the calls succeed, the at-rest key has its size,
    -- the identifier's files have paths and the content is octets.
    pub run_upload-handle_download :
        (first : Option Frame) (b : Bytes) (rest : List Bytes) (c : CompatWorld tries digest)
        (x : Prepared) (t : Table) (rows : CompatTable) (final partial : FilePath)
        (record_fails : Bool) (accepted : ℕ) (next : Bytes) (now : ℕ)
        → prepare lib digest parse (undisturbed calls) p first ≡ passed x
        → create_compat false false x.upload x.compat c.world.table c.rows ≡ ok (t, rows)
        → final_path x.upload.id ≡ ok final
        → partial_path x.upload.id ≡ ok partial
        → c.world.files partial ≡ none
        → length x.upload.at_rest_key ≡ at_rest_key_size
        → IsContent (b ∷ rest)
        → IsOctets (joined (b ∷ rest))
        → is_empty next ≡ false
        → let content = joined (b ∷ rest) in
          let finished = set_finished (length content) (unix calls.finished_at) (to_row x.upload) in
          live (scan_upload finished) now ≡ true
          → let (after, (messages, answer)) =
              run_upload tries digest lib cipher parse p
                (undisturbed calls)
                first
                (frames_of (b ∷ rest))
                c in
            (answer ≡ ok tt)
            × ((handle_download tries digest lib cipher
                  (calm next)
                  (reaching record_fails accepted)
                  (sign lib x.compat.auth_key x.compat.nonce)
                  x.upload.id
                  now
                  after).1
                ≡ record {
                  status = 200;
                  offered = some next;
                  body = file (take accepted content) (pos (length content));
                })
    unfolding with_files with_table
    run_upload-handle_download first b rest c x t rows final partial record_fails accepted next now
          passes inserts f q new key_size pieces octets filled lives =
        let id = x.upload.id in
        let key = x.upload.at_rest_key in
        let content = joined (b ∷ rest) in
        let at = unix calls.finished_at in
        let (fs, received) = receive cipher id key (frames_of (b ∷ rest)) 0 c.world.files in
        let (arrived, stored) =
          receive-joined cipher id key final partial f q key_size b rest c.world.files new pieces in
        let (publishes, opens, _) =
          finish-open id final partial f q fs stored.cipher_text stored.file in
        let run =
          run_whole first (frames_of (b ∷ rest)) c x t rows (length content) passes inserts arrived
            publishes in
        let (valid, both) =
          create_compat_ok false false x.upload x.compat c.world.table t c.rows rows inserts in
        let (found, known) =
          insert_both-found (to_row x.upload) x.compat c.world.table t c.rows rows both in
        let here : find_row id t ≡ some (to_row x.upload) =
          ap (λ k. find_row k t) (sym (to_row-same x.upload)) ∙ found in
        let (ids, _, _) = validate_compat_ok x.upload x.compat valid in
        let known' : find_compat id rows ≡ some x.compat =
          ap (λ k. find_compat k rows) ids ∙ known in
        let done_world = delivered x (length content) at fs (created tries digest t rows c) in
        let u = scan_upload (set_finished (length content) at (to_row x.upload)) in
        let (key_is, size_is) = kept_key x (length content) at in
        let read : shred_read cipher false id u.at_rest_key 0 (finish false id fs).0 ≡ ok content =
          ap (λ k. shred_read cipher false id k 0 (finish false id fs).0) key_is
          ∙ stored_content tries digest lib cipher id key (finish false id fs).0 content
              stored.cipher_text key_size octets stored.encrypted opens in
        let header = sign lib x.compat.auth_key x.compat.nonce in
        (
          ap (λ o. o.1.1) run,
          ap
                (λ o.
                  (handle_download tries digest lib cipher (calm next)
                    (reaching record_fails accepted) header id now o.0).1)
                run
              ∙ download_answer tries digest lib cipher record_fails accepted id next now done_world
                  u x.compat content (delivered-get x (length content) at now t here lives) known'
                  filled read
              ∙ ap
                  (λ z. record {
                    status = 200;
                    offered = some next;
                    body = file (take accepted content) z;
                  })
                  size_is,
        )
