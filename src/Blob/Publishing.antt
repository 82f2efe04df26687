-- ===== src/Blob/Publishing.antt =====
-- Finishing an upload to an object store, and the contract of the blob store that it keeps: what is sent
-- in any number of requests is what is read.
use mathlib.Core.Path.{subst}
use sendan.Prelude.{
  ℕ, suc, ◌≡◌, refl, sym, ap, ◌∙◌, ◌≤◌, true, false, ◌&&◌, none, some, List, [], ◌∷◌, ◌++◌, Bytes,
  Result, ok, err, arith, length, length-append, append_assoc, append-nil, bytes_eq_refl,
  Bool-cases, inl, inr, ltb, ◌==◌, map, blob_not_found, length-nil,
}
use sendan.Blob.Files.{Reader}
use sendan.Blob.Objects.{ObjectStore, InProgress, concat, complete_part, CompletePart}
use sendan.Blob.Multipart.{
  tail_key, state_length, read_tail, s3_write_chunk, s3_length, s3_finish, s3_open, finish_parts,
  complete_parts, finish_empty, remove_tail,
}
use sendan.Blob.Listing.{
  calm_calls, concat-append, s3_state-none, s3_state-held, tail_of, length-listing,
}
use sendan.Blob.Filling.{tail-ne-key}
use sendan.Blob.Assembly.{
  Holding, Wrote, held_state, no_bytes_tail, s3_write_chunk-next, s3_write_chunk-first,
}

map-snoc {ℓ κ} :
    {A : Type ℓ} {B : Type κ} (f : A → B) (xs : List A) (x : A)
    → map f (xs ++ x ∷ []) ≡ map f xs ++ f x ∷ []
map-snoc f [] x = refl
map-snoc f (y ∷ xs) x = ap (λ t. f y ∷ t) (map-snoc f xs x)

-- An upload, as its requests see it: each asks where to go on from and sends a chunk from there.
module _ (store : ObjectStore) (part_size : ℕ) (positive : 1 ≤ part_size) (key : Bytes) where
  -- Published: the object is there, and no upload is.
  record Published (plain : Bytes) (o : store.State × Result (Unit {0})) : Type 0 where
    answer : o.1 ≡ ok tt
    object : store.object key o.0 ≡ some plain
    ended : store.uploads key o.0 ≡ []

  completed :
      (u : InProgress) (parts : List CompletePart) (plain : Bytes) (s : store.State)
      → store.uploads key s ≡ u ∷ []
      → parts ≡ map complete_part (store.listing key u.upload_id s)
      → concat (store.held key u.upload_id s) ≡ plain
      → Published plain (complete_parts store part_size calm_calls key u.upload_id parts s)
  unfolding complete_parts remove_tail
  completed u parts plain s only all made =
      let id = u.upload_id in
      let s₁ = store.complete_upload key id parts s in
      let whole : store.object key s₁ ≡ some plain =
        ap (λ ps. store.object key (store.complete_upload key id ps s)) all
        ∙ store.object-complete key key u s only
        ∙ (rw (bytes_eq_refl key) (ap some made)) in
      record {
        answer = refl;
        object =
            store.object-remove (tail_key key) key s₁
            ∙ (rw (tail-ne-key store part_size positive key) whole);
        ended =
            store.uploads-remove (tail_key key) key s₁ ∙ store.uploads-complete key u parts s only;
      }

  finish_parts_is :
      (u : InProgress) (s : store.State)
      → let st = held_state store part_size positive key u s in
        let id = u.upload_id in
        let parts = map complete_part st.parts in
        let tail = tail_of store part_size key s in
        ltb 0 (length tail) ≡ true
        → let (s₁, p) = store.put_part key id (suc (length st.parts)) tail s in
          finish_parts store part_size calm_calls key id st s
          ≡ complete_parts store part_size calm_calls key id (parts ++ complete_part p ∷ []) s₁
  unfolding finish_parts read_tail
  finish_parts_is u s some_bytes = rw (finish_parts, some_bytes, read_tail) refl

  finish_parts_done :
      (plain : Bytes) (s : store.State) (h : Holding store part_size positive key s plain)
      → Published plain (
          finish_parts store part_size calm_calls key h.upload.upload_id
            (held_state store part_size positive key h.upload s)
            s)
  unfolding finish_parts concat
  finish_parts_done plain s h =
      let u = h.upload in
      let id = u.upload_id in
      let held = store.held key id s in
      let tail = tail_of store part_size key s in
      let parts = store.listing key id s in
      elim (Bool-cases (ltb 0 (length tail))) [
        | inr nothing ↦
            let none_left = no_bytes_tail store part_size positive key tail nothing in
            let made : concat held ≡ plain =
              sym (append-nil (concat held))
              ∙ ap (λ t. concat held ++ t) (sym none_left)
              ∙ h.together in
            rw (finish_parts, nothing)
              (completed u (map complete_part parts) plain s h.only refl made)
        | inl some_bytes ↦
            let n = suc (length parts) in
            let numbered : length parts ≡ length held =
              length-listing 1 parts held (store.listed key id s) in
            let s₁ = (store.put_part key id n tail s).0 in
            let p = (store.put_part key id n tail s).1 in
            let m : n ≡ suc (length held) = ap suc numbered in
            let held_is : store.held key id s₁ ≡ held ++ tail ∷ [] =
              ap (λ i. store.held key id (store.put_part key id i tail s).0) m
              ∙ store.held-part key tail u s h.only in
            let listing_is : store.listing key id s₁ ≡ parts ++ p ∷ [] =
              subst
                (λ i.
                  let (t, q) = store.put_part key id i tail s in
                  store.listing key id t ≡ parts ++ q ∷ [])
                (sym m) (store.listing-part key tail u s h.only) in
            let all : map complete_part parts ++ complete_part p ∷ []
                ≡ map complete_part (store.listing key id s₁) =
              sym (map-snoc complete_part parts p) ∙ ap (map complete_part) (sym listing_is) in
            let made : concat (store.held key id s₁) ≡ plain =
              ap concat held_is
              ∙ concat-append held (tail ∷ [])
              ∙ ap (λ t. concat held ++ t) (append-nil tail)
              ∙ h.together in
            subst (Published plain) (sym (finish_parts_is u s some_bytes)) (
              completed u (map complete_part parts ++ complete_part p ∷ []) plain s₁
                (store.uploads-part key key id tail n s ∙ h.only) all made)
      ]

  empty_done :
      (u : InProgress) (s : store.State)
      → store.uploads key s ≡ u ∷ []
      → Published [] (finish_empty store part_size calm_calls key u.upload_id s)
  unfolding finish_empty
  empty_done u s only =
      let aborted = store.abort_upload key u.upload_id s in
      record {
        answer = refl;
        object = store.object-put key key [] aborted ∙ (rw (bytes_eq_refl key) refl);
        ended = store.uploads-put key key [] aborted ∙ store.uploads-abort key u s only;
      }

  -- Finishing publishes exactly the bytes that a partial upload holds, none of them included, and ends it.
  s3_finish-Published :
      (plain : Bytes) (s : store.State)
      → Holding store part_size positive key s plain
      → Published plain (s3_finish store part_size calm_calls key s)
  unfolding s3_finish
  s3_finish-Published plain s h =
      let u = h.upload in
      let st = held_state store part_size positive key u s in
      let state = s3_state-held store part_size key s u h.only in
      elim (Bool-cases (st.stored == 0 && st.tail == 0)) [
        | inr some_bytes ↦ rw (s3_finish, state, some_bytes) (finish_parts_done plain s h)
        | inl nothing ↦
            let sized : length plain ≡ 0 =
              ap length (sym h.together)
              ∙ length-append (concat (store.held key u.upload_id s))
                  (tail_of store part_size key s)
              ∙ (ground (arith, nothing)) in
            rw (s3_finish, state, nothing)
              (subst (λ b. Published b (finish_empty store part_size calm_calls key u.upload_id s))
                (sym (length-nil plain sized)) (empty_done u s h.only))
      ]

  -- Where a request goes on from: the stored length, or the start where there is no upload.
  unfoldable pub resume : store.State → ℕ
  resume s = elim (s3_length store part_size calm_calls key s) [ err e ↦ 0 | ok n ↦ n ]

  -- Requests, each of which asks where to go on from, and sends a chunk, which may break off.
  unfoldable pub send_chunks : List Reader → store.State → store.State
  unfolding resume
  send_chunks [] s = s
  send_chunks (r ∷ rest) s =
      send_chunks rest (s3_write_chunk store part_size calm_calls key (resume s) r s).0

  unfoldable pub arrived : List Reader → Bytes
  arrived [] = []
  arrived (r ∷ rest) = r.content ++ arrived rest

  resume_none : (s : store.State) → store.uploads key s ≡ [] → resume s ≡ 0
  unfolding resume s3_length
  resume_none s nothing = rw (resume, s3_length, s3_state-none store part_size key s nothing) refl

  resume_held :
      (plain : Bytes) (s : store.State)
      → Holding store part_size positive key s plain
      → resume s ≡ length plain
  unfolding resume s3_length state_length
  resume_held plain s h =
      let u = h.upload in
      rw (resume, s3_length, s3_state-held store part_size key s u h.only, state_length)
        (sym (length-append (concat (store.held key u.upload_id s)) (tail_of store part_size key s))
          ∙ ap length h.together)

  -- What a number of requests leaves: all that arrived is held, and the blob is as it was.
  record Sent (s : store.State) (plain : Bytes) (s' : store.State) : Type 0 where
    holds : Holding store part_size positive key s' plain
    blob : store.object key s' ≡ store.object key s

  send_rest :
      (chunks : List Reader) (plain : Bytes) (s : store.State)
      → Holding store part_size positive key s plain
      → Sent s (plain ++ arrived chunks) (send_chunks chunks s)
  unfolding send_chunks arrived
  send_rest [] plain s h =
      subst (λ p. Sent s p s) (sym (append-nil plain)) (record { holds = h; blob = refl })
  send_rest (r ∷ rest) plain s h =
      let w =
        subst
          (λ n.
            Wrote store part_size positive key r (plain ++ r.content) s
              (s3_write_chunk store part_size calm_calls key n r s))
          (sym (resume_held plain s h))
          (s3_write_chunk-next store part_size positive key r plain s h) in
      let s₁ = (s3_write_chunk store part_size calm_calls key (resume s) r s).0 in
      let more = send_rest rest (plain ++ r.content) s₁ w.holds in
      let all =
        subst (λ p. Sent s₁ p (send_chunks rest s₁)) (append_assoc plain r.content (arrived rest))
          more in
      record { holds = all.holds; blob = all.blob ∙ w.blob }

  send_first :
      (r : Reader) (rest : List Reader) (s : store.State)
      → store.uploads key s ≡ []
      → Sent s (arrived (r ∷ rest)) (send_chunks (r ∷ rest) s)
  unfolding send_chunks arrived
  send_first r rest s nothing =
      let w =
        subst
          (λ n.
            Wrote store part_size positive key r r.content s
              (s3_write_chunk store part_size calm_calls key n r s))
          (sym (resume_none s nothing))
          (s3_write_chunk-first store part_size positive key r s nothing) in
      let s₁ = (s3_write_chunk store part_size calm_calls key (resume s) r s).0 in
      let more = send_rest rest r.content s₁ w.holds in
      record { holds = more.holds; blob = more.blob ∙ w.blob }

  opened :
      (s : store.State) (b : Bytes)
      → store.object key s ≡ some b
      → s3_open store part_size false key s ≡ ok b
  unfolding s3_open
  opened s b e = rw (s3_open, e) refl

  unopened :
      (s : store.State)
      → store.object key s ≡ none
      → s3_open store part_size false key s ≡ err blob_not_found
  unfolding s3_open
  unopened s e = rw (s3_open, e) refl

  -- The contract of the blob store, kept over any object store that keeps its laws: an upload
  -- sent in any number of requests, at least one, each going on from where the stored bytes end and each
  -- free to break off, cannot be opened before it is finished; finishing succeeds, and the blob
  -- then reads as all the bytes that arrived, in order, with no upload left in progress. There was no
  -- blob and no upload before, parts have a positive size, and the calls of the object store succeed.
  pub s3_finish-send_chunks :
      (r : Reader) (rest : List Reader) (s : store.State)
      → store.uploads key s ≡ []
      → store.object key s ≡ none
      → let sent = send_chunks (r ∷ rest) s in
        let (s', answer) = s3_finish store part_size calm_calls key sent in
        (s3_open store part_size false key sent ≡ err blob_not_found)
        × (answer ≡ ok tt)
        × (s3_open store part_size false key s' ≡ ok (arrived (r ∷ rest)))
        × (s3_length store part_size calm_calls key s' ≡ err blob_not_found)
  unfolding s3_length
  s3_finish-send_chunks r rest s nothing new =
      let all = send_first r rest s nothing in
      let sent = send_chunks (r ∷ rest) s in
      let done = s3_finish-Published (arrived (r ∷ rest)) sent all.holds in
      let s' = (s3_finish store part_size calm_calls key sent).0 in
      (
        unopened sent (all.blob ∙ new),
        done.answer,
        opened s' (arrived (r ∷ rest)) done.object,
        rw (s3_length, s3_state-none store part_size key s' done.ended) refl,
      )
