-- ===== src/Compat/Transfer.antt =====
-- The frames of an upload over the websocket, as they are stored: encrypted at rest, one after another.
use mathlib.Core.Path.{subst}
use sendan.Prelude.{
  ok-injective, length-nil, ℕ, ◌+◌, ◌≡◌, refl, sym, ap, ◌∙◌, true, false, none, some, List, [], ◌∷◌,
  ◌++◌, Bytes, ok, length, append_assoc, append-nil, All, length-append, ◌==◌, ==_iff,
}
use sendan.Prelude.Int.{pos}
use sendan.Blob.Names.{FilePath, final_path, partial_path}
use sendan.Blob.Files.{Files, Reader, contents, write_chunk}
use sendan.Blob.Uploading.{write_chunk_lem, write_chunk_next}
use sendan.Blob.Shredder.{Cipher, shred, shred_write_chunk, at_rest_key_size}
use sendan.Blob.Shredding.{shred-append, shred-total}
use sendan.Compat.Receiving.{binary, Arrival, Received, receive, is_end, end_of_file}

-- A frame that arrives whole and is stored without a failure.
abbrev pub whole_frame : Bytes → Arrival
whole_frame b = record { frame = binary b; broken = false; setup_fails = false; sync_fails = false }

-- The frames of an upload: its content cut into pieces, then the one that ends it.
unfoldable pub frames_of : List Bytes → List Arrival
frames_of [] = whole_frame (end_of_file ∷ []) ∷ []
frames_of (b ∷ rest) = whole_frame b ∷ frames_of rest

unfoldable pub joined : List Bytes → Bytes
joined [] = []
joined (b ∷ rest) = b ++ joined rest

-- No piece reads as the end.
abbrev pub IsContent : List Bytes → Type 0
IsContent = All (λ b. is_end b ≡ false)

module _ (cipher : Cipher) (id key : Bytes) (final partial : FilePath)
    (f : final_path id ≡ ok final) (p : partial_path id ≡ ok partial)
    (key_size : length key ≡ at_rest_key_size) where
  receive_end :
      (offset : ℕ) (fs : Files) → receive cipher id key (frames_of []) offset fs ≡ (fs, ok offset)
  unfolding receive frames_of is_end
  receive_end offset fs = refl

  receive_frame :
      (b : Bytes) (rest : List Arrival) (offset : ℕ) (fs : Files)
      → is_end b ≡ false
      → let (written, wrote) =
          shred_write_chunk cipher false false id key
            (pos offset)
            (record { content = b; broken = false })
            fs in
        wrote.fault ≡ none
        → receive cipher id key (whole_frame b ∷ rest) offset fs
          ≡ receive cipher id key rest (offset + wrote.count) written
  unfolding receive
  receive_frame b rest offset fs more fine = rw (receive, more, fine) refl

  -- What is stored of the plaintext so far.
  pub record StoredAs (fs : Files) (plain : Bytes) : Type 0 where
    pub cipher_text : Bytes
    pub file : fs partial ≡ some cipher_text
    pub encrypted : shred cipher key (pos 0) plain ≡ ok cipher_text

  stored_chunk :
      (b plain : Bytes) (fs : Files)
      → shred cipher key (pos 0) plain ≡ ok (contents (fs partial))
      → let (written, wrote) =
          shred_write_chunk cipher false false id key
            (pos (length plain))
            (record { content = b; broken = false })
            fs in
        (wrote.fault ≡ none) × (wrote.count ≡ length b) × StoredAs written (plain ++ b)
  unfolding shred_write_chunk
  stored_chunk b plain fs e =
      let stored = contents (fs partial) in
      let (all, all_is, all_length) = shred-total cipher key 0 plain key_size in
      let sized : length plain ≡ length stored =
        sym all_length ∙ ap length (ok-injective all stored (sym all_is ∙ e)) in
      let (c, cut, cut_length) = shred-total cipher key (length plain) b key_size in
      let r : Reader = record { content = c; broken = false } in
      let (_, count_is, fault_is) =
        write_chunk_lem id final partial f p false (length plain) r fs in
      let fits : (length stored == length plain) ≡ true =
        (==_iff (length stored) (length plain)).1 (sym sized) in
      let next : (write_chunk false false id (length plain) r fs).0 partial ≡ some (stored ++ c) =
        ap (λ n. (write_chunk false false id n r fs).0 partial) sized
        ∙ write_chunk_next id final partial f p false r fs in
      let joins : shred cipher key (pos 0) (plain ++ b) ≡ ok (stored ++ c) =
        shred-append cipher key plain b key_size ∙ (rw (e, cut) refl) in
      rw (shred_write_chunk, cut)
        (
          fault_is ∙ (rw fits refl),
          count_is ∙ (rw (fits, cut_length) refl),
          record { cipher_text = stored ++ c; file = next; encrypted = joins },
        )

  -- A loop that ended with the size of what arrived, all of it stored.
  abbrev pub Arrived : Received → Bytes → Type 0
  Arrived (after, received) plain = (received ≡ ok (length plain)) × StoredAs after plain

  receive_chunk :
      (b plain : Bytes) (rest : List Bytes) (fs : Files) (whole : Bytes)
      → is_end b ≡ false
      → shred cipher key (pos 0) plain ≡ ok (contents (fs partial))
      → ((fs' : Files)
          → StoredAs fs' (plain ++ b)
          → Arrived (receive cipher id key (frames_of rest) (length (plain ++ b)) fs') whole)
      → Arrived (receive cipher id key (frames_of (b ∷ rest)) (length plain) fs) whole
  unfolding frames_of
  receive_chunk b plain rest fs whole content e more =
      let (fine, count_is, stored) = stored_chunk b plain fs e in
      let (written, wrote) =
        shred_write_chunk cipher false false id key (pos (length plain))
          (record { content = b; broken = false }) fs in
      let offset_is : length plain + wrote.count ≡ length (plain ++ b) =
        ap (λ n. length plain + n) count_is ∙ sym (length-append plain b) in
      subst (λ o. Arrived o whole)
        (sym (
          receive_frame b (frames_of rest) (length plain) fs content fine
          ∙ ap (λ n. receive cipher id key (frames_of rest) n written) offset_is))
        (more written stored)

  -- The loop takes every piece, and ends with the size of what arrived.
  receive_rest :
      (chunks : List Bytes) (plain : Bytes) (fs : Files)
      → IsContent chunks
      → StoredAs fs plain
      → Arrived
          (receive cipher id key (frames_of chunks) (length plain) fs)
          (plain ++ joined chunks)
  unfolding joined
  receive_rest [] plain fs h s =
      subst (Arrived (receive cipher id key (frames_of []) (length plain) fs))
        (sym (append-nil plain))
        (subst (λ o. Arrived o plain) (sym (receive_end (length plain) fs)) (refl, s))
  receive_rest (b ∷ rest) plain fs h s =
      let here = s.encrypted ∙ ap ok (sym (ap contents s.file)) in
      receive_chunk b plain rest fs (plain ++ joined (b ∷ rest)) h.0 here (λ fs' stored.
        subst (Arrived (receive cipher id key (frames_of rest) (length (plain ++ b)) fs'))
          (append_assoc plain b (joined rest)) (receive_rest rest (plain ++ b) fs' h.1 stored))

  -- An upload of at least one piece, none of which reads as the end, from nothing stored: the size that
  -- the loop ends with is that of the content, and the partial upload holds the content, encrypted.
  pub receive-joined :
      (b : Bytes) (rest : List Bytes) (fs : Files)
      → fs partial ≡ none
      → IsContent (b ∷ rest)
      → Arrived (receive cipher id key (frames_of (b ∷ rest)) 0 fs) (joined (b ∷ rest))
  unfolding joined
  receive-joined b rest fs new h =
      let (nothing, empty_is, no_length) = shred-total cipher key 0 [] key_size in
      let here : shred cipher key (pos 0) [] ≡ ok (contents (fs partial)) =
        empty_is ∙ ap ok (length-nil nothing no_length) ∙ ap ok (sym (ap contents new)) in
      receive_chunk b [] rest fs (joined (b ∷ rest)) h.0 here
        (λ fs' stored. receive_rest rest b fs' h.1 stored)
