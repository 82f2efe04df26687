-- ===== src/Blob/Assembly.antt =====
-- Chunked uploads to an object store: what the parts and the tail hold together, chunk by chunk, and what
-- finishing makes of them.
use mathlib.Core.Path.{subst}
use sendan.Prelude.{
  ℕ, suc, ◌+◌, ◌-◌, ◌≡◌, refl, sym, ap, ◌∙◌, ◌≢◌, ◌≤◌, true, false, none, some, [], ◌∷◌, ◌++◌,
  Bytes, ok, err, arith, length, length-append, append_assoc, Bool-cases, inl, inr, ltb, ◌==◌,
  ==_iff, if◌then◌else◌, io_failure, offset_mismatch,
}
use sendan.Blob.Files.{Reader, Written}
use sendan.Blob.Objects.{ObjectStore, InProgress, concat}
use sendan.Blob.Multipart.{
  S3State, state_length, fill_parts, put_tail, read_tail, append_chunk, continue_chunk,
  s3_write_chunk,
}
use sendan.Blob.Listing.{calm_calls, s3_state-none, s3_state-held, tail_of, length-listing}
use sendan.Blob.Filling.{fill, put_tail_done}

module _ (store : ObjectStore) (part_size : ℕ) (positive : 1 ≤ part_size) (key : Bytes) where
  -- A partial upload that holds some bytes: those of its parts, then the tail.
  pub record Holding (s : store.State) (plain : Bytes) : Type 0 where
    pub upload : InProgress
    pub only : store.uploads key s ≡ upload ∷ []
    pub together :
        concat (store.held key upload.upload_id s) ++ tail_of store part_size key s ≡ plain

  -- What writing a chunk comes to: all of it is reported, a broken source is an error, the blob itself is
  -- as it was, and the partial upload holds the bytes.
  pub record Wrote (r : Reader) (plain : Bytes) (s : store.State) (o : store.State × Written)
      : Type 0 where
    pub count : o.1.count ≡ length r.content
    pub fault : o.1.fault ≡ (if r.broken then some io_failure else none)
    pub blob : store.object key o.0 ≡ store.object key s
    pub holds : Holding o.0 plain

  -- `append_chunk` behind its loop and the replacement of the tail.
  append_is :
      (id head : Bytes) (next : ℕ) (r : Reader) (s s' : store.State) (b : Bytes)
      → let f =
          fill_parts store part_size calm_calls key id
            (suc (length (head ++ r.content)))
            next
            (head ++ r.content)
            s in
        f.rest ≡ some b
        → put_tail store part_size calm_calls key b f.state ≡ ok s'
        → append_chunk store part_size calm_calls key id next head r s ≡ (
          s',
          record {
            count = f.read + length b - length head;
            fault = if r.broken then some io_failure else none;
          },
        )
  unfolding append_chunk
  append_is id head next r s s' b rest done =
      let f =
        fill_parts store part_size calm_calls key id (suc (length (head ++ r.content))) next
          (head ++ r.content) s in
      let count = f.read + length b - length head in
      rw (append_chunk, rest)
        (ap
          (λ z. elim z as (λ _. store.State × Written) [
            | err e ↦ (f.state, record { count = count; fault = some e })
            | ok s'' ↦
                (s'', record { count = count; fault = if r.broken then some io_failure else none })
          ])
          done)

  append_done :
      (u : InProgress) (head : Bytes) (r : Reader) (s : store.State)
      → store.uploads key s ≡ u ∷ []
      → let held = store.held key u.upload_id s in
        Wrote r
          (concat held ++ (head ++ r.content))
          s
          (append_chunk store part_size calm_calls key u.upload_id (suc (length held)) head r s)
  append_done u head r s only =
      let id = u.upload_id in
      let held = store.held key id s in
      let source = head ++ r.content in
      let f =
        fill_parts store part_size calm_calls key id (suc (length source)) (suc (length held))
          source s in
      let g =
        fill store part_size positive key u (suc (length source)) source s (omega arith) only in
      let (s', done, tail, blob, same_uploads, same_held) =
        put_tail_done store part_size positive key g.left f.state in
      let all_counted : f.read + length g.left - length head ≡ length r.content =
        omega (arith, g.counted, length-append head r.content) in
      let joined : concat (store.held key id s') ++ tail_of store part_size key s'
          ≡ concat held ++ source =
        ap (λ h. concat h ++ tail_of store part_size key s') (same_held id)
        ∙ ap (λ t. concat (store.held key id f.state) ++ t) tail
        ∙ g.together in
      subst (Wrote r (concat held ++ source) s)
        (sym (append_is id head (suc (length held)) r s s' g.left g.rest_is done))
        (record {
          count = all_counted;
          fault = refl;
          blob = blob ∙ g.objects key;
          holds = record { upload = u; only = same_uploads key ∙ g.only; together = joined };
        })

  -- What is read back of a state that holds some bytes.
  abbrev pub held_state : InProgress → store.State → S3State
  held_state u s = record {
    upload_id = some u.upload_id;
    parts = store.listing key u.upload_id s;
    stored = length (concat (store.held key u.upload_id s));
    tail = length (tail_of store part_size key s);
  }

  pub no_bytes_tail : (b : Bytes) → ltb 0 (length b) ≡ false → b ≡ []
  no_bytes_tail [] e = refl
  no_bytes_tail (x ∷ b) e = absurd (ground arith)

  continue_is :
      (u : InProgress) (r : Reader) (s : store.State)
      → continue_chunk store part_size calm_calls key u.upload_id (held_state u s) r s
        ≡ append_chunk store part_size calm_calls key u.upload_id
            (suc (length (store.listing key u.upload_id s)))
            (tail_of store part_size key s)
            r
            s
  unfolding continue_chunk read_tail
  continue_is u r s = elim (Bool-cases (ltb 0 (length (tail_of store part_size key s)))) [
    | inl some_bytes ↦ rw (continue_chunk, some_bytes, read_tail) refl
    | inr nothing ↦
        rw (continue_chunk, nothing)
          (ap
            (λ h.
              append_chunk store part_size calm_calls key u.upload_id
                (suc (length (store.listing key u.upload_id s))) h r s)
            (sym (no_bytes_tail (tail_of store part_size key s) nothing)))
  ]

  continue_done :
      (r : Reader) (plain : Bytes) (s : store.State) (h : Holding s plain)
      → Wrote r (plain ++ r.content) s (
          continue_chunk store part_size calm_calls key h.upload.upload_id
            (held_state h.upload s)
            r
            s)
  continue_done r plain s h =
      let u = h.upload in
      let id = u.upload_id in
      let held = store.held key id s in
      let tail = tail_of store part_size key s in
      let numbered : length (store.listing key id s) ≡ length held =
        length-listing 1 (store.listing key id s) held (store.listed key id s) in
      let joined : concat held ++ (tail ++ r.content) ≡ plain ++ r.content =
        sym (append_assoc (concat held) tail r.content) ∙ ap (λ c. c ++ r.content) h.together in
      subst (λ o. Wrote r (plain ++ r.content) s o)
        (sym (
          continue_is u r s
          ∙ ap (λ n. append_chunk store part_size calm_calls key id (suc n) tail r s) numbered))
        (subst
          (λ p.
            Wrote r p s
              (append_chunk store part_size calm_calls key id (suc (length held)) tail r s))
          joined (append_done u tail r s h.only))

  -- A chunk that begins where the stored bytes end is taken whole.
  pub s3_write_chunk-next :
      (r : Reader) (plain : Bytes) (s : store.State)
      → Holding s plain
      → Wrote r
          (plain ++ r.content)
          s
          (s3_write_chunk store part_size calm_calls key (length plain) r s)
  unfolding s3_write_chunk state_length
  s3_write_chunk-next r plain s h =
      let u = h.upload in
      let sized : (length plain == state_length (held_state u s)) ≡ true =
        (==_iff (length plain) (state_length (held_state u s))).1 (
          ap length (sym h.together)
          ∙ length-append (concat (store.held key u.upload_id s))
              (tail_of store part_size key s)) in
      rw (s3_write_chunk, s3_state-held store part_size key s u h.only, sized)
        (continue_done r plain s h)

  -- Any other offset is refused with nothing changed.
  pub s3_write_chunk-refused :
      (offset : ℕ) (r : Reader) (plain : Bytes) (s : store.State)
      → Holding s plain
      → offset ≢ length plain
      → s3_write_chunk store part_size calm_calls key offset r s
        ≡ (s, record { count = 0; fault = some offset_mismatch })
  unfolding s3_write_chunk state_length
  s3_write_chunk-refused offset r plain s h ne =
      let u = h.upload in
      let sized : length plain ≡ state_length (held_state u s) =
        ap length (sym h.together)
        ∙ length-append (concat (store.held key u.upload_id s)) (tail_of store part_size key s) in
      let wrong : (offset == state_length (held_state u s)) ≡ false =
        ground (arith, sized, ne, ==_iff offset (state_length (held_state u s))) in
      rw (s3_write_chunk, s3_state-held store part_size key s u h.only, wrong) refl

  first_is :
      (r : Reader) (s : store.State)
      → store.uploads key s ≡ []
      → s3_write_chunk store part_size calm_calls key 0 r s
        ≡ append_chunk store part_size calm_calls key
            (store.new_upload key s).1
            1
            []
            r
            (store.new_upload key s).0
  unfolding s3_write_chunk state_length continue_chunk
  first_is r s nothing = rw (s3_write_chunk, s3_state-none store part_size key s nothing) refl

  -- The first chunk of an upload, at offset zero.
  pub s3_write_chunk-first :
      (r : Reader) (s : store.State)
      → store.uploads key s ≡ []
      → Wrote r r.content s (s3_write_chunk store part_size calm_calls key 0 r s)
  unfolding concat
  s3_write_chunk-first r s nothing =
      let (s₁, id) = store.new_upload key s in
      let (u, only, named) = store.uploads-new key s nothing in
      let empty : store.held key u.upload_id s₁ ≡ [] =
        ap (λ i. store.held key i s₁) named ∙ store.held-new key s in
      let w =
        subst
          (λ held.
            Wrote r (concat held ++ r.content) s₁
              (append_chunk store part_size calm_calls key u.upload_id (suc (length held)) [] r s₁))
          empty (append_done u [] r s₁ only) in
      let w' =
        subst (λ i. Wrote r r.content s₁ (append_chunk store part_size calm_calls key i 1 [] r s₁))
          named w in
      subst (Wrote r r.content s) (sym (first_is r s nothing)) (record {
        count = w'.count;
        fault = w'.fault;
        blob = w'.blob ∙ store.object-new key key s;
        holds = w'.holds;
      })
