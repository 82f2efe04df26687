-- ===== src/Blob/Listing.antt =====
-- What internal/blob/s3multipart.go reads back of a partial upload.
use native.Mathlib.Nat.{zero-add}
use sendan.Prelude.{
  ℕ, suc, ◌+◌, ◌≡◌, refl, sym, ap, ◌∙◌, false, none, some, List, [], ◌∷◌, ◌++◌, Bytes, ok, arith,
  length, length-append, ltb, append_assoc,
}
use sendan.Blob.Files.{contents}
use sendan.Blob.Objects.{ObjectStore, InProgress, Part, IsListing, concat}
use sendan.Blob.Multipart.{
  S3Calls, newest, insert_part, sort_parts, sum_parts, tail_key, uploads_for, upload_id_for,
  stat_tail, s3_state,
}

-- No call fails.
abbrev pub calm_calls : S3Calls
calm_calls = record {
  uploads_fail = false;
  parts_fail = false;
  stat_fails = false;
  new_fails = false;
  read_fails = false;
  part_fails = λ _. false;
  object_fails = false;
  complete_fails = false;
  abort_fails = false;
}

pub concat-append : (a b : List Bytes) → concat (a ++ b) ≡ concat a ++ concat b
unfolding concat
concat-append [] b = refl
concat-append (x ∷ a) b =
    ap (λ y. x ++ y) (concat-append a b) ∙ sym (append_assoc x (concat a) (concat b))

-- Parts that are listed in order stay as they are.
insert_part-first :
    (n : ℕ) (p : Part) (ps : List Part) (ds : List Bytes)
    → p.number ≡ n
    → IsListing (suc n) ps ds
    → insert_part p ps ≡ p ∷ ps
unfolding insert_part
insert_part-first n p [] ds e h = refl
insert_part-first n p (q ∷ ps) [] e h = absurd h
insert_part-first n p (q ∷ ps) (b ∷ ds) e h =
    let later : ltb q.number p.number ≡ false = ground (arith, e, h.0) in rw later refl

pub sort_parts-listing :
    (n : ℕ) (ps : List Part) (ds : List Bytes) → IsListing n ps ds → sort_parts ps ≡ ps
unfolding sort_parts
sort_parts-listing n [] ds h = refl
sort_parts-listing n (p ∷ ps) [] h = absurd h
sort_parts-listing n (p ∷ ps) (b ∷ ds) h =
    ap (insert_part p) (sort_parts-listing (suc n) ps ds h.2) ∙ insert_part-first n p ps ds h.0 h.2

pub sum_parts-listing :
    (n : ℕ) (ps : List Part) (ds : List Bytes) (stored : ℕ)
    → IsListing n ps ds
    → sum_parts n ps stored ≡ ok (stored + length (concat ds))
unfolding sum_parts concat
sum_parts-listing n [] [] stored h = ground arith
sum_parts-listing n [] (b ∷ ds) stored h = absurd h
sum_parts-listing n (p ∷ ps) [] stored h = absurd h
sum_parts-listing n (p ∷ ps) (b ∷ ds) stored h = ground (
  arith,
  h.0,
  h.1,
  length-append b (concat ds),
  sum_parts-listing (suc n) ps ds (stored + p.size) h.2,
)

pub length-listing :
    (n : ℕ) (ps : List Part) (ds : List Bytes) → IsListing n ps ds → length ps ≡ length ds
length-listing n [] [] h = refl
length-listing n [] (b ∷ ds) h = absurd h
length-listing n (p ∷ ps) [] h = absurd h
length-listing n (p ∷ ps) (b ∷ ds) h = ap suc (length-listing (suc n) ps ds h.2)

module _ (store : ObjectStore) (part_size : ℕ) (key : Bytes) where
  upload_found :
      (s : store.State) (u : InProgress)
      → store.uploads key s ≡ u ∷ []
      → upload_id_for store part_size calm_calls key s ≡ ok (some u.upload_id)
  unfolding upload_id_for uploads_for newest
  upload_found s u only = rw (upload_id_for, uploads_for, store.all_uploads key s, only) refl

  no_upload :
      (s : store.State)
      → store.uploads key s ≡ []
      → upload_id_for store part_size calm_calls key s ≡ ok none
  unfolding upload_id_for uploads_for
  no_upload s nothing = rw (upload_id_for, uploads_for, store.all_uploads key s, nothing) refl

  pub s3_state-none :
      (s : store.State)
      → store.uploads key s ≡ []
      → s3_state store part_size calm_calls key s
        ≡ ok (record { upload_id = none; parts = []; stored = 0; tail = 0 })
  unfolding s3_state
  s3_state-none s nothing = rw (s3_state, no_upload s nothing) refl

  abbrev pub tail_of : store.State → Bytes
  tail_of s = contents (store.object (tail_key key) s)

  -- What is read back of a single upload: its parts, the sum of their sizes, and the size of the tail.
  pub s3_state-held :
      (s : store.State) (u : InProgress)
      → store.uploads key s ≡ u ∷ []
      → s3_state store part_size calm_calls key s
        ≡ ok (record {
          upload_id = some u.upload_id;
          parts = store.listing key u.upload_id s;
          stored = length (concat (store.held key u.upload_id s));
          tail = length (tail_of s);
        })
  unfolding s3_state stat_tail
  s3_state-held s u only =
      let id = u.upload_id in
      let h = store.listed key id s in
      rw
        (
          s3_state,
          upload_found s u only,
          store.all_parts key id s,
          sort_parts-listing 1 (store.listing key id s) (store.held key id s) h,
          sum_parts-listing 1 (store.listing key id s) (store.held key id s) 0 h,
          zero-add (length (concat (store.held key id s))),
          stat_tail,
        )
        refl
