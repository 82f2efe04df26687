-- ===== src/Blob/Uploading.antt =====
-- Resumable writing: what a partial upload holds, chunk by chunk, and what finishing it publishes.
use sendan.Prelude.{
  ℕ, ◌≡◌, refl, sym, ap, ◌∙◌, ◌≢◌, Bool, true, false, ◌||◌, none, some, List, [], ◌∷◌, ◌++◌, Bytes,
  ◌==◌, if◌then◌else◌, ok, err, length, arith, append_assoc, append-nil, blob_not_found,
  offset_mismatch, io_failure, Bool-cases, inl, inr,
}
use sendan.Blob.Names.{FilePath, final_path, partial_path, partial-ne-final}
use sendan.Blob.Files.{
  Files, path_eq, path_eq_iff, set_file, Reader, write_chunk, partial_length, finish, open_blob,
  delete_blob, contents,
}

-- The two files of an accepted identifier.
module _ (id : Bytes) (final partial : FilePath) (f : final_path id ≡ ok final)
    (p : partial_path id ≡ ok partial) where
  apart : path_eq partial final ≡ false
  apart = elim (Bool-cases (path_eq partial final)) [
    | inl same ↦
        absurd (partial-ne-final id id final partial f p ((path_eq_iff partial final).0 same))
    | inr other ↦ other
  ]

  self : path_eq partial partial ≡ true
  self = (path_eq_iff partial partial).1 refl

  -- A chunk is appended exactly when it begins where the stored bytes end, and the count reported is
  -- what was appended, also when the source breaks off or the sync fails; any other offset leaves the
  -- stored bytes alone and is refused with the offset error. The calls before the copy succeed.
  pub write_chunk_lem :
      (sync_fails : Bool) (offset : ℕ) (r : Reader) (fs : Files)
      → let (fs', w) = write_chunk false sync_fails id offset r fs in
        let fits = length (contents (fs partial)) == offset in
        (contents (fs' partial)
          ≡ (if fits then contents (fs partial) ++ r.content else contents (fs partial)))
        × (w.count ≡ (if fits then length r.content else 0))
        × (w.fault ≡ (
            if fits
            then if r.broken || sync_fails then some io_failure else none
            else some offset_mismatch))
  unfolding write_chunk set_file
  write_chunk_lem sync_fails offset r fs = ground (arith, p, self)

  -- A chunk touches no file but the partial upload of its identifier.
  pub write_chunk_frame :
      (setup_fails sync_fails : Bool) (offset : ℕ) (r : Reader) (fs : Files) (q : FilePath)
      → q ≢ partial
      → (write_chunk setup_fails sync_fails id offset r fs).0 q ≡ fs q
  unfolding write_chunk set_file
  write_chunk_frame setup_fails sync_fails offset r fs q ne =
      ground (arith, p, path_eq_iff partial q)

  -- The requests of one upload: each asks for the stored length and sends a chunk from there. Every
  -- one of them may break off or fail to sync.
  unfoldable pub send_all : List (Reader × Bool) → Files → Files
  send_all [] fs = fs
  send_all ((r, sync_fails) ∷ rest) fs =
      send_all rest (write_chunk false sync_fails id (length (contents (fs partial))) r fs).0

  unfoldable pub delivered : List (Reader × Bool) → Bytes
  delivered [] = []
  delivered ((r, sync_fails) ∷ rest) = r.content ++ delivered rest

  pub write_chunk_next :
      (sync_fails : Bool) (r : Reader) (fs : Files)
      → (write_chunk false sync_fails id (length (contents (fs partial))) r fs).0 partial
        ≡ some (contents (fs partial) ++ r.content)
  unfolding write_chunk set_file
  write_chunk_next sync_fails r fs = ground (arith, p, self)

  send_all-partial :
      (c : Reader × Bool) (rest : List (Reader × Bool)) (fs : Files)
      → send_all (c ∷ rest) fs partial ≡ some (contents (fs partial) ++ delivered (c ∷ rest))
  unfolding send_all delivered
  send_all-partial (r, sync_fails) [] fs = rw append-nil (write_chunk_next sync_fails r fs)
  send_all-partial (r, sync_fails) (c ∷ rest) fs =
      let fs' = (write_chunk false sync_fails id (length (contents (fs partial))) r fs).0 in
      send_all-partial c rest fs'
      ∙ ap (λ b. some (b ++ delivered (c ∷ rest))) (ap contents (write_chunk_next sync_fails r fs))
      ∙ ap some (append_assoc (contents (fs partial)) r.content (delivered (c ∷ rest)))

  send_all-final :
      (chunks : List (Reader × Bool)) (fs : Files) → send_all chunks fs final ≡ fs final
  unfolding send_all
  send_all-final [] fs = refl
  send_all-final ((r, sync_fails) ∷ rest) fs =
      let fs' = (write_chunk false sync_fails id (length (contents (fs partial))) r fs).0 in
      send_all-final rest fs'
      ∙ write_chunk_frame false sync_fails (length (contents (fs partial))) r fs final
          (λ e. partial-ne-final id id final partial f p (sym e))

  pub finish-open :
      (fs : Files) (content : Bytes)
      → fs partial ≡ some content
      → ((finish false id fs).1 ≡ ok tt)
        × (open_blob false id (finish false id fs).0 ≡ ok content)
        × (partial_length false id (finish false id fs).0 ≡ err blob_not_found)
  unfolding finish open_blob partial_length set_file
  finish-open fs content e = ground (
    arith,
    p,
    f,
    e,
    self,
    apart,
    path_eq_iff final partial,
    path_eq_iff partial final,
    path_eq_iff final final,
  )

  open_same :
      (fs fs' : Files) → fs' final ≡ fs final → open_blob false id fs' ≡ open_blob false id fs
  unfolding open_blob
  open_same fs fs' e = ground (arith, f, e)

  -- An upload sent in any number of requests, at least one, each resuming where the stored bytes end and
  -- each free to break off: until it is finished, opening the blob answers exactly as it did before the
  -- first request, which for a blob that was never published is that there is none; finishing succeeds,
  -- and the blob then reads as what was stored before followed by all the bytes that arrived, in order,
  -- with no partial upload left.
  pub finish-send_all :
      (c : Reader × Bool) (rest : List (Reader × Bool)) (fs : Files)
      → let sent = send_all (c ∷ rest) fs in
        let (fs', answer) = finish false id sent in
        (open_blob false id sent ≡ open_blob false id fs)
        × (answer ≡ ok tt)
        × (open_blob false id fs' ≡ ok (contents (fs partial) ++ delivered (c ∷ rest)))
        × (partial_length false id fs' ≡ err blob_not_found)
  finish-send_all c rest fs =
      let sent = send_all (c ∷ rest) fs in
      let (done, read, gone) =
        finish-open sent (contents (fs partial) ++ delivered (c ∷ rest))
          (send_all-partial c rest fs) in
      (open_same fs sent (send_all-final (c ∷ rest) fs), done, read, gone)

  -- A deletion that succeeds leaves neither the blob nor the partial upload, and no other file is
  -- touched.
  pub delete_blob_lem :
      (fs : Files) (q : FilePath)
      → q ≢ final
      → q ≢ partial
      → let (fs', answer) = delete_blob false false id fs in
        (answer ≡ ok tt)
        × (open_blob false id fs' ≡ err blob_not_found)
        × (partial_length false id fs' ≡ err blob_not_found)
        × (fs' q ≡ fs q)
  unfolding delete_blob open_blob partial_length set_file
  delete_blob_lem fs q nf np = ground (
    arith,
    p,
    f,
    self,
    apart,
    path_eq_iff final partial,
    path_eq_iff final final,
    path_eq_iff final q,
    path_eq_iff partial q,
  )

  -- Neither file is left of an identifier that is deleted.
  pub delete_blob_gone :
      (fs : Files)
      → let fs' = (delete_blob false false id fs).0 in
        (open_blob false id fs' ≡ err blob_not_found)
        × (partial_length false id fs' ≡ err blob_not_found)
  unfolding delete_blob open_blob partial_length set_file
  delete_blob_gone fs =
      ground (arith, p, f, self, apart, path_eq_iff final partial, path_eq_iff final final)
