-- ===== src/Store/MasterKey/Wrapping.antt =====
-- Wrapping an at-rest key and reading it back.
use mathlib.Core.Path.{subst}
use sendan.Prelude.{
  ℕ, ◌≡◌, refl, sym, ◌∙◌, false, some, [], ◌*◌, err, not_found, if◌then◌else◌, ◌∷◌, ◌++◌, Bytes, ok,
  length, take, drop, length-append, length-drop, take_of_append, drop_of_append, arith,
}
use sendan.Crypto.Aead.{Aead, nonce_size}
use sendan.Store.Upload.{Upload, live, second}
use sendan.Store.Table.{
  Row, Table, create, get, find_row, scan_upload, to_row, pending, nullable_unix, unix, is_some,
  set_completed, complete_upload, record_served, add_served, update_where,
}
use sendan.Store.Lookup.{find_row-update_self}
use sendan.Store.Writing.{created_row, stored, set_completed-id}
use sendan.Prelude.Int.{pos}
use sendan.Store.MasterKey.{
  wrap, unwrap, key_size, wrapped_size, wrapped_v1, create_wrapped, get_wrapped, opened,
  pending_wrapped, record_served_wrapped,
}

module _ (aead : Aead) where
  unwrap_layout :
      (nonce master key : Bytes)
      → length nonce ≡ nonce_size
      → length key ≡ key_size
      → let sealed = aead.seal master nonce key [] in
        (unwrap aead master (wrapped_v1 ∷ (nonce ++ sealed)) ≡ ok key)
        × (length (wrapped_v1 ∷ (nonce ++ sealed)) ≡ wrapped_size)
  unfolding unwrap
  unwrap_layout nonce master key n k =
      let sealed = aead.seal master nonce key [] in
      ground (
        arith,
        length-append nonce sealed,
        aead.length-seal master nonce key [],
        take_of_append nonce sealed 12 (sym n),
        drop_of_append nonce sealed 12 (sym n),
        aead.unseal-seal master nonce key [],
      )

  -- A key wrapped under a master key is one version byte, the nonce, the key and the tag, and it
  -- opens again under the same master key. The nonce and the key have their fixed sizes.
  pub unwrap-wrap :
      (nonce master key wrapped : Bytes)
      → length nonce ≡ nonce_size
      → length key ≡ key_size
      → wrap aead false nonce master key ≡ ok wrapped
      → (unwrap aead master wrapped ≡ ok key) × (length wrapped ≡ wrapped_size)
  unfolding wrap
  unwrap-wrap nonce master key wrapped n k h =
      let layout : wrapped_v1 ∷ (nonce ++ aead.seal master nonce key []) ≡ wrapped = ground arith in
      subst (λ w. (unwrap aead master w ≡ ok key) × (length w ≡ wrapped_size)) layout
        (unwrap_layout nonce master key n k)

  -- Whatever is read from a stored key has the size of a key.
  pub unwrap-size :
      (master stored key : Bytes) → unwrap aead master stored ≡ ok key → length key ≡ key_size
  unfolding unwrap
  unwrap-size master stored key h = ground (
    arith,
    length-drop 13 stored,
    aead.length-unseal master (take 12 (drop 1 stored)) (drop 13 stored) [] key,
  )

  -- A key stored before wrapping was enabled is read as it stands, whatever its first byte.
  pub unwrap_raw : (master key : Bytes) → length key ≡ key_size → unwrap aead master key ≡ ok key
  unfolding unwrap
  unwrap_raw master key h = ground arith

  abbrev with_wrapped : Bytes → Bytes → Upload → Upload
  with_wrapped nonce master u = record u {
    at_rest_key = wrapped_v1 ∷ (nonce ++ aead.seal master nonce u.at_rest_key []);
  }

  create_wrapped-create :
      (nonce master : Bytes) (u : Upload) (t : Table)
      → create_wrapped aead false false nonce master u t
        ≡ create false (with_wrapped nonce master u) t
  unfolding create_wrapped wrap
  create_wrapped-create nonce master u t = refl

  row_size :
      (nonce master : Bytes) (u : Upload)
      → length nonce ≡ nonce_size
      → length u.at_rest_key ≡ key_size
      → length (to_row (with_wrapped nonce master u)).at_rest_key ≡ wrapped_size
  unfolding to_row
  row_size nonce master u n k = (unwrap_layout nonce master u.at_rest_key n k).1

  -- Whatever else has become of a row, its key opens.
  opened_row :
      (nonce master : Bytes) (u : Upload) (r : Row)
      → length nonce ≡ nonce_size
      → length u.at_rest_key ≡ key_size
      → r.at_rest_key ≡ wrapped_v1 ∷ (nonce ++ aead.seal master nonce u.at_rest_key [])
      → opened aead master (scan_upload r)
        ≡ ok (record (scan_upload r) { at_rest_key = u.at_rest_key })
  unfolding opened scan_upload
  opened_row nonce master u r n k e =
      ground (arith, e, (unwrap_layout nonce master u.at_rest_key n k).0)

  module _ (nonce master : Bytes) (u : Upload) (n : length nonce ≡ nonce_size)
      (k : length u.at_rest_key ≡ key_size) where
    -- The row that is inserted, and what the two updates make of it.
    abbrev new_wrapped : Row
    new_wrapped = to_row (with_wrapped nonce master u)

    abbrev finished : ℕ → Row
    finished at = record new_wrapped { completed_at = some (unix at) }

    read_pending :
        (t : Table)
        → u.completed_at ≡ 0
        → find_row u.id t ≡ some new_wrapped
        → pending_wrapped aead false master u.id t ≡ ok (stored u)
    unfolding pending_wrapped pending to_row nullable_unix is_some scan_upload
    read_pending t c e = ground (arith, e, c, opened_row nonce master u new_wrapped n k refl)

    read_finished :
        (t : Table) (at now : ℕ)
        → find_row u.id t ≡ some (finished at)
        → let v = record (stored u) { completed_at = unix at * second } in
          get_wrapped aead false master u.id now t ≡ (if live v now then ok v else err not_found)
    unfolding get_wrapped get to_row scan_upload live
    read_finished t at now e = ground (arith, e, opened_row nonce master u (finished at) n k refl)

    read_served :
        (t : Table) (at b : ℕ)
        → find_row u.id t ≡ some (finished at)
        → (p : Table × Upload) × (record_served_wrapped aead false master u.id (pos b) t ≡ ok p)
          × (p.1.at_rest_key ≡ u.at_rest_key)
    unfolding record_served_wrapped record_served add_served to_row scan_upload
    read_served t at b e =
        let r = add_served b (finished at) in
        (
          (
            update_where u.id (add_served b) t,
            record (scan_upload r) { at_rest_key = u.at_rest_key },
          ),
          ground (arith, e, opened_row nonce master u r n k refl),
          refl,
        )

    completed_row :
        (t t' : Table) (at : ℕ)
        → u.completed_at ≡ 0
        → find_row u.id t ≡ some new_wrapped
        → complete_upload false u.id at t ≡ ok t'
        → find_row u.id t' ≡ some (finished at)
    unfolding complete_upload set_completed to_row nullable_unix
    completed_row t t' at c e h = ground (
      arith,
      c,
      e,
      h,
      find_row-update_self u.id (set_completed (unix at)) (set_completed-id (unix at)) t,
    )

  -- An unfinished upload that is created through the wrapping store is stored with a wrapped key of the
  -- fixed size, and every read hands back the key that its creator uses: as long as it is unfinished
  -- the one of a pending upload does, and once it is completed the one of a live upload, which answers
  -- that there is none where it is no longer live, and the counting of a download. The first two hand
  -- back the other fields too, with times cut to the whole second, and the second the time of
  -- completion. The nonce and the key have their fixed sizes, and the calls succeed.
  pub create_wrapped-read :
      (nonce master : Bytes) (u : Upload) (t t' t'' : Table) (at now b : ℕ)
      → length nonce ≡ nonce_size
      → length u.at_rest_key ≡ key_size
      → u.completed_at ≡ 0
      → create_wrapped aead false false nonce master u t ≡ ok t'
      → complete_upload false u.id at t' ≡ ok t''
      → let v = record (stored u) { completed_at = unix at * second } in
        ((r : Row) × (find_row u.id t' ≡ some r) × (length r.at_rest_key ≡ wrapped_size))
        × (pending_wrapped aead false master u.id t' ≡ ok (stored u))
        × (get_wrapped aead false master u.id now t''
            ≡ (if live v now then ok v else err not_found))
        × ((p : Table × Upload) × (record_served_wrapped aead false master u.id (pos b) t'' ≡ ok p)
            × (p.1.at_rest_key ≡ u.at_rest_key))
  create_wrapped-read nonce master u t t' t'' at now b n k c created completed =
      let found : find_row u.id t' ≡ some (new_wrapped nonce master u n k) =
        created_row (with_wrapped nonce master u) t t'
          (sym (create_wrapped-create nonce master u t) ∙ created) in
      let found' = completed_row nonce master u n k t' t'' at c found completed in
      (
        (new_wrapped nonce master u n k, found, row_size nonce master u n k),
        read_pending nonce master u n k t' c found,
        read_finished nonce master u n k t'' at now found',
        read_served nonce master u n k t'' at b found',
      )
