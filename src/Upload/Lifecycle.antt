-- ===== src/Upload/Lifecycle.antt =====
-- An upload from its first chunk to its download: what is sent in any number of requests is what
-- its recipient reads, through both stores and the encryption at rest.
use mathlib.Core.Option
use mathlib.Core.Path.{subst}
use sendan.Prelude.{
  ok-injective, length-nil, ℕ, ◌≡◌, refl, sym, ap, ◌∙◌, Bool, true, false, Option, none, some, List,
  [], ◌∷◌, ◌++◌, Bytes, bytes_eq, bytes_eq_iff, ok, err, not_found, Option-cases, inl, inr, length,
  drop, append-nil, append_assoc,
}
use sendan.Prelude.Int.{ℤ, pos}
use sendan.Store.Upload.{Upload, live}
use sendan.Store.Table.{
  Table, Row, find_row, update_where, get, select_upload, pending, complete_upload, set_completed,
  unix, scan_upload, is_some,
}
use sendan.Store.Lookup.{find_row-update_self}
use sendan.Store.Writing.{set_completed-id}
use sendan.Store.Reading.{pending-unreadable}
use sendan.Blob.Names.{FilePath, final_path, partial_path}
use sendan.Blob.Files.{Files, Reader, contents, write_chunk, partial_length, finish, open_blob}
use sendan.Blob.Uploading.{write_chunk_next, finish-open}
use sendan.Blob.Counter.{IsOctets}
use sendan.Blob.Shredder.{Cipher, shred, shred_read, shred_write_chunk, at_rest_key_size}
use sendan.Blob.Shredding.{shred-append, shred-drop-shred, shred-total}
use sendan.Upload.Attempts.{Attempts}
use sendan.Upload.Service.{World, charge, authenticated, content}
use sendan.Upload.Tus.{
  Handle, get_upload, write_upload_chunk, finish_upload, handle_key, stored_offset,
}

-- A request that continues an upload: what arrives of its chunk, and whether the sync fails.
abbrev pub Request : Type 0
Request = Reader × Bool

unfoldable pub sent_bytes : List Request → Bytes
sent_bytes [] = []
sent_bytes ((r, sync_fails) ∷ rest) = r.content ++ sent_bytes rest

module _ (tries : Attempts) (digest : Bytes → Bytes) (cipher : Cipher) (id : Bytes) where
  -- Each request asks for the upload and sends its chunk at the offset that it is told.
  unfoldable pub send_requests : List Request → World tries digest → World tries digest
  send_requests [] w = w
  send_requests ((r, sync_fails) ∷ rest) w = elim (get_upload tries digest false false id w) [
    | err e ↦ w
    | ok h ↦
        send_requests rest
          (write_upload_chunk tries digest cipher false false sync_fails h h.offset r w).0
  ]

  module _ (final partial : FilePath) (f : final_path id ≡ ok final)
      (p : partial_path id ≡ ok partial) (r : Row)
      (key_size : length r.at_rest_key ≡ at_rest_key_size)
      (unfinished : r.completed_at ≡ none) where
    pending_row : (t : Table) → find_row id t ≡ some r → pending false id t ≡ ok (scan_upload r)
    unfolding pending is_some
    pending_row t e = rw (pending, e, unfinished) refl

    offset_told :
        (fs : Files)
        → stored_offset (partial_length false id fs) ≡ ok (length (contents (fs partial)))
    unfolding stored_offset partial_length
    offset_told fs = elim (Option-cases (fs partial)) [
      | inl absent ↦ rw (partial_length, p, absent) refl
      | inr (c, here) ↦ rw (partial_length, p, here) refl
    ]

    resumed : World tries digest → Handle
    resumed w = record {
      id = id;
      size = pos r.size;
      offset = length (contents (w.files partial));
      at_rest_key = some r.at_rest_key;
    }

    get_upload_row :
        (w : World tries digest)
        → find_row id w.table ≡ some r
        → get_upload tries digest false false id w ≡ ok (resumed w)
    unfolding get_upload scan_upload resumed
    get_upload_row w e = rw (get_upload, pending_row w.table e, offset_told w.files) refl

    -- What a chunk leaves, of its bytes encrypted at the offset.
    abbrev after_chunk : Bool → Reader → Bytes → World tries digest → World tries digest
    after_chunk sync_fails chunk c w = record w {
      files =
          (write_chunk false sync_fails id (length (contents (w.files partial)))
            (record chunk { content = c }) w.files).0;
    }

    chunk_written :
        (sync_fails : Bool) (chunk : Reader) (c : Bytes) (w : World tries digest)
        → shred cipher r.at_rest_key (pos (length (contents (w.files partial)))) chunk.content
          ≡ ok c
        → (write_upload_chunk tries digest cipher false false sync_fails
            (resumed w)
            (resumed w).offset
            chunk
            w).0
          ≡ after_chunk sync_fails chunk c w
    unfolding write_upload_chunk handle_key shred_write_chunk resumed
    chunk_written sync_fails chunk c w e = rw (write_upload_chunk, shred_write_chunk, e) refl

    -- What has been stored of an upload: the row is there, and the stored bytes are the plaintext so
    -- far, encrypted. The limiter's state has not changed.
    record Stored (w₀ w : World tries digest) (plain : Bytes) : Type 0 where
      table_same : w.table ≡ w₀.table
      attempts_same : w.attempts ≡ w₀.attempts
      cipher_text : Bytes
      file : w.files partial ≡ some cipher_text
      encrypted : shred cipher r.at_rest_key (pos 0) plain ≡ ok cipher_text

    send_one :
        (sync_fails : Bool) (chunk : Reader) (w : World tries digest) (plain : Bytes)
        → shred cipher r.at_rest_key (pos 0) plain ≡ ok (contents (w.files partial))
        → Stored w
            (write_upload_chunk tries digest cipher false false sync_fails
              (resumed w)
              (resumed w).offset
              chunk
              w).0
            (plain ++ chunk.content)
    send_one sync_fails chunk w plain e =
        let stored = contents (w.files partial) in
        let (whole, whole_is, same_length) = shred-total cipher r.at_rest_key 0 plain key_size in
        let sized : length plain ≡ length stored =
          sym same_length ∙ ap length (ok-injective whole stored (sym whole_is ∙ e)) in
        let (c, here, _) =
          shred-total cipher r.at_rest_key (length stored) chunk.content key_size in
        let joined : shred cipher r.at_rest_key (pos 0) (plain ++ chunk.content)
            ≡ ok (stored ++ c) =
          shred-append cipher r.at_rest_key plain chunk.content key_size
          ∙ (rw (e, sized, here) refl) in
        subst (λ w'. Stored w w' (plain ++ chunk.content))
          (sym (chunk_written sync_fails chunk c w here))
          (record {
            table_same = refl;
            attempts_same = refl;
            cipher_text = stored ++ c;
            file =
                write_chunk_next id final partial f p sync_fails (record chunk { content = c })
                  w.files;
            encrypted = joined;
          })

    send_all :
        (requests : List Request) (w₀ w : World tries digest) (plain : Bytes)
        → find_row id w₀.table ≡ some r
        → Stored w₀ w plain
        → Stored w₀ (send_requests requests w) (plain ++ sent_bytes requests)
    unfolding send_requests sent_bytes
    send_all [] w₀ w plain found s = subst (λ b. Stored w₀ w b) (sym (append-nil plain)) s
    send_all ((chunk, sync_fails) ∷ rest) w₀ w plain found s =
        let row : find_row id w.table ≡ some r = ap (find_row id) s.table_same ∙ found in
        let next =
          send_one sync_fails chunk w plain (s.encrypted ∙ ap ok (sym (ap contents s.file))) in
        let w' =
          (write_upload_chunk tries digest cipher false false sync_fails (resumed w)
            (resumed w).offset chunk w).0 in
        let after : Stored w₀ w' (plain ++ chunk.content) = record {
          table_same = next.table_same ∙ s.table_same;
          attempts_same = next.attempts_same ∙ s.attempts_same;
          cipher_text = next.cipher_text;
          file = next.file;
          encrypted = next.encrypted;
        } in
        rw (send_requests, get_upload_row w row)
          (subst (λ b. Stored w₀ (send_requests rest w') b)
            (append_assoc plain chunk.content (sent_bytes rest))
            (send_all rest w₀ w' (plain ++ chunk.content) found after))

    sent_first :
        (c : Request) (rest : List Request) (w : World tries digest)
        → find_row id w.table ≡ some r
        → w.files partial ≡ none
        → Stored w (send_requests (c ∷ rest) w) (sent_bytes (c ∷ rest))
    unfolding send_requests sent_bytes
    sent_first (chunk, sync_fails) rest w found new =
        let (nothing, empty_is, no_length) = shred-total cipher r.at_rest_key 0 [] key_size in
        let none_stored : shred cipher r.at_rest_key (pos 0) [] ≡ ok (contents (w.files partial)) =
          empty_is ∙ ap ok (length-nil nothing no_length) ∙ ap ok (sym (ap contents new)) in
        let first = send_one sync_fails chunk w [] none_stored in
        let w' =
          (write_upload_chunk tries digest cipher false false sync_fails (resumed w)
            (resumed w).offset chunk w).0 in
        rw (send_requests, get_upload_row w found) (send_all rest w w' chunk.content found first)

    -- The state after `FinishUpload`.
    abbrev finished : ℕ → World tries digest → World tries digest
    finished now w = record w {
      files = (finish false id w.files).0;
      table = update_where id (set_completed (unix now)) w.table;
    }

    finish_upload_done :
        (size : ℤ) (offset : ℕ) (key : Option Bytes) (now : ℕ) (w : World tries digest)
        → (finish false id w.files).1 ≡ ok tt
        → finish_upload tries digest false false
            (record { id = id; size = size; offset = offset; at_rest_key = key })
            now
            w
          ≡ (finished now w, ok tt)
    unfolding finish_upload complete_upload
    finish_upload_done size offset key now w e = rw (finish_upload, complete_upload, e) refl

    completed : ℕ → Row
    completed now = set_completed (unix now) r

    completed_row :
        (now : ℕ) (t : Table)
        → find_row id t ≡ some r
        → find_row id (update_where id (set_completed (unix now)) t) ≡ some (completed now)
    unfolding completed
    completed_row now t e =
        find_row-update_self id (set_completed (unix now)) (set_completed-id (unix now)) t
        ∙ ap (Option.map (set_completed (unix now))) e

    completed_same :
        (now : ℕ)
        → let u = scan_upload (completed now) in
          (u.at_rest_key ≡ r.at_rest_key)
          × (u.auth_token_hash ≡ r.auth_token_hash)
          × (u.size ≡ pos r.size)
    unfolding completed scan_upload set_completed
    completed_same now = rw unfinished (refl, refl, refl)

    get-completed :
        (now later : ℕ) (t : Table)
        → find_row id t ≡ some r
        → live (scan_upload (completed now)) later ≡ true
        → get false id later (update_where id (set_completed (unix now)) t)
          ≡ ok (scan_upload (completed now))
    unfolding get select_upload
    get-completed now later t e lives = rw (get, select_upload, completed_row now t e, lives) refl

    content_read :
        (token : Bytes) (later clock offset : ℕ) (w : World tries digest) (u : Upload) (c : Bytes)
        → get false id later w.table ≡ ok u
        → (charge tries digest clock id w.attempts).1 ≡ true
        → bytes_eq (digest token) u.auth_token_hash ≡ true
        → shred_read cipher false id u.at_rest_key offset w.files ≡ ok c
        → (content tries digest cipher false false id token later clock offset w).1 ≡ ok (c, u.size)
    unfolding content authenticated
    content_read token later clock offset w u c found allowed right read =
        rw (content, authenticated, found, allowed, right, read) refl

    stored_read :
        (offset : ℕ) (fs : Files) (plain stored : Bytes)
        → IsOctets plain
        → shred cipher r.at_rest_key (pos 0) plain ≡ ok stored
        → open_blob false id fs ≡ ok stored
        → shred_read cipher false id r.at_rest_key offset fs ≡ ok (drop offset plain)
    unfolding shred_read
    stored_read offset fs plain stored octets cut opened =
        rw (shred_read, key_size, opened)
          (shred-drop-shred cipher r.at_rest_key offset plain stored key_size octets cut)

    -- An upload whose row is there and incomplete, with nothing stored yet, is sent in any number of requests, at
    -- least one, of which each asks for the offset and may break off or fail to sync. Before it is
    -- finished it cannot be read. Finishing succeeds, and from then on whoever presents the token that
    -- its hash was made of, while the upload is live and the limiter permits, reads from any offset exactly the bytes that
    -- arrived, in order, with the declared size. The files are opened without a failure, the key has its size and the bytes
    -- sent are octets.
    pub content-finish_upload :
        (c : Request) (rest : List Request) (w : World tries digest) (size : ℤ) (offset : ℕ)
        (key : Option Bytes) (token : Bytes) (now later clock from : ℕ)
        → find_row id w.table ≡ some r
        → w.files partial ≡ none
        → IsOctets (sent_bytes (c ∷ rest))
        → live (scan_upload (set_completed (unix now) r)) later ≡ true
        → (charge tries digest clock id w.attempts).1 ≡ true
        → digest token ≡ r.auth_token_hash
        → let sent = send_requests (c ∷ rest) w in
          let (done, answer) =
            finish_upload tries digest false false
              (record { id = id; size = size; offset = offset; at_rest_key = key })
              now
              sent in
          (get false id later sent.table ≡ err not_found)
          × (answer ≡ ok tt)
          × ((content tries digest cipher false false id token later clock from done).1
              ≡ ok (drop from (sent_bytes (c ∷ rest)), pos r.size))
    unfolding completed
    content-finish_upload c rest w size offset key token now later clock from found new octets lives
          allowed right =
        let s = sent_first c rest w found new in
        let sent = send_requests (c ∷ rest) w in
        let row : find_row id sent.table ≡ some r = ap (find_row id) s.table_same ∙ found in
        let (finishes, opens, _) =
          finish-open id final partial f p sent.files s.cipher_text s.file in
        let (key_same, hash_same, size_same) = completed_same now in
        let u = scan_upload (completed now) in
        let token_right : bytes_eq (digest token) u.auth_token_hash ≡ true =
          (bytes_eq_iff (digest token) u.auth_token_hash).1 (right ∙ sym hash_same) in
        let allowed_then : (charge tries digest clock id sent.attempts).1 ≡ true =
          ap (λ a. (charge tries digest clock id a).1) s.attempts_same ∙ allowed in
        let read =
          ap (λ k. shred_read cipher false id k from (finished now sent).files) key_same
          ∙ stored_read from (finished now sent).files (sent_bytes (c ∷ rest)) s.cipher_text octets
              s.encrypted opens in
        let end = finish_upload_done size offset key now sent finishes in
        (
          pending-unreadable id later sent.table (scan_upload r) (pending_row sent.table row),
          ap (λ x. x.1) end,
          ap (λ x. (content tries digest cipher false false id token later clock from x.0).1) end
              ∙ content_read token later clock from (finished now sent) u
                  (drop from (sent_bytes (c ∷ rest))) (get-completed now later sent.table row lives)
                  allowed_then token_right read
              ∙ ap (λ z. ok (drop from (sent_bytes (c ∷ rest)), z)) size_same,
        )
