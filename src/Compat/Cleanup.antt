-- ===== src/Compat/Cleanup.antt =====
-- What a run that fails leaves behind: nothing.
use mathlib.Core.Path.{subst}
use sendan.Prelude.{
  ◌≡◌, refl, sym, ap, ◌∙◌, ◌⊎◌, inl, inr, true, false, Option, none, some, List, Bytes, ok, err,
  Error, blob_not_found,
}
use sendan.Store.Table.{Row, find_row, is_some, to_row, unix}
use sendan.Store.Lookup.{find_row-delete_self}
use sendan.Blob.Names.{FilePath, final_path, partial_path}
use sendan.Blob.Files.{Files, open_blob, partial_length}
use sendan.Blob.Uploading.{delete_blob_gone}
use sendan.Blob.Shredder.{Cipher}
use sendan.Upload.Attempts.{Attempts}
use sendan.Upload.Policy.{Policy}
use sendan.Upload.Service.{no_faults, delete}
use sendan.Upload.Deletion.{delete_done}
use sendan.Compat.Rows.{find_compat, set_finished}
use sendan.Compat.Auth.{Library}
use sendan.Compat.Lookup.{find_compat-cascade_gone}
use sendan.Compat.Sound.{create_compat_ok, finish_compat_ok, to_row-same}
use sendan.Compat.Receiving.{
  Frame, Arrival, UploadHeader, RunCalls, Prepared, CompatWorld, Outcome, discard, abandon,
  run_upload, receive, with_files, with_table,
}
use sendan.Compat.Running.{Completed, created, run_upload_cases}
use sendan.Compat.Delivery.{insert_both-found, finished_row, prepared_id}

module _ (tries : Attempts) (digest : Bytes → Bytes) where
  -- No row, no state of this protocol, no blob and no partial upload.
  pub record IsGone (id : Bytes) (c : CompatWorld tries digest) : Type 0 where
    pub no_row : find_row id c.world.table ≡ none
    pub no_state : find_compat id c.rows ≡ none
    pub no_blob : open_blob false id c.world.files ≡ err blob_not_found
    pub no_partial : partial_length false id c.world.files ≡ err blob_not_found

  discard-IsGone :
      (id : Bytes) (final partial : FilePath) (c : CompatWorld tries digest)
      → final_path id ≡ ok final
      → partial_path id ≡ ok partial
      → IsGone id (discard tries digest no_faults id c).0
  unfolding discard
  discard-IsGone id final partial c f p =
      let gone = find_row-delete_self id c.world.table in
      let (no_blob, no_partial) = delete_blob_gone id final partial f p c.world.files in
      let same = delete_done tries digest no_faults id c.world refl in
      let no_row : find_row id (delete tries digest no_faults id c.world).0.table ≡ none =
        ap (λ w. find_row id w.0.table) same ∙ gone in
      record {
        no_row = no_row;
        no_state =
            find_compat-cascade_gone id (delete tries digest no_faults id c.world).0.table c.rows
              no_row;
        no_blob = ap (λ w. open_blob false id w.0.files) same ∙ no_blob;
        no_partial = ap (λ w. partial_length false id w.0.files) same ∙ no_partial;
      }

  module _ (lib : Library) (cipher : Cipher) (parse : Bytes → Option UploadHeader)
      (p : Policy) where
    -- The calls of a run whose cleanup, if it comes to that, meets no failure.
    abbrev pub with_cleanup : RunCalls → RunCalls
    with_cleanup calls = record calls { cleanup = no_faults }

    -- The upload that a run made: complete, and with the size that arrived.
    pub record IsComplete (id key : Bytes) (frames : List Arrival) (fs : Files)
        (c : CompatWorld tries digest) : Type 0 where
      pub row : Row
      pub found : find_row id c.world.table ≡ some row
      pub completed : is_some row.completed_at ≡ true
      pub arrived : (receive cipher id key frames 0 fs).1 ≡ ok row.size

    finished-IsComplete :
        (calls : RunCalls) (x : Prepared) (frames : List Arrival) (c : CompatWorld tries digest)
        (o : Outcome tries digest)
        → find_row x.upload.id c.world.table ≡ some (to_row x.upload)
        → Completed tries digest lib cipher parse p calls x frames c o
        → IsComplete x.upload.id x.upload.at_rest_key frames c.world.files o.0
    unfolding with_table set_finished is_some
    finished-IsComplete calls x frames c o found d =
        let id = x.upload.id in
        let at = unix calls.finished_at in
        let table_is =
          finish_compat_ok calls.finish_row_fails id d.size calls.finished_at c.world.table d.table
            d.recorded in
        record {
          row = set_finished d.size at (to_row x.upload);
          found =
              ap (λ y. find_row id y.0.world.table) d.comes
              ∙ ap (find_row id) table_is
              ∙ finished_row id d.size at c.world.table (to_row x.upload) found;
          completed = refl;
          arrived = d.arrived;
        }

    -- However a run ends, with whatever failures on the way: either it was refused with nothing
    -- changed, or it failed and nothing is left under its identifier, neither in the tables nor among
    -- the files, or its upload is complete, with the size that arrived. The identifier that it draws has
    -- paths, and the cleanup itself succeeds.
    pub run_upload-abandoned :
        (calls : RunCalls) (first : Option Frame) (frames : List Arrival)
        (c : CompatWorld tries digest) (id : Bytes) (final partial : FilePath)
        → calls.fresh_id ≡ some id
        → final_path id ≡ ok final
        → partial_path id ≡ ok partial
        → let o = run_upload tries digest lib cipher parse p (with_cleanup calls) first frames c in
          ((o.0 ≡ c) × (e : Error) × (o.1.1 ≡ err e))
          ⊎ ((IsGone id o.0 × (e : Error) × (o.1.1 ≡ err e))
              ⊎ ((key : Bytes) × IsComplete id key frames c.world.files o.0))
    unfolding abandon
    run_upload-abandoned calls first frames c id final partial drawn f q =
        let run = with_cleanup calls in
        let o = run_upload tries digest lib cipher parse p run first frames c in
        elim (run_upload_cases tries digest lib cipher parse p run first frames c) [
          | inl r ↦ inl (ap (λ y. y.0) r.comes, r.cause, ap (λ y. y.1.1) r.comes)
          | inr r ↦
              let x = r.prepared in
              let i = r.inserted in
              let same : x.upload.id ≡ id =
                prepared_id lib digest parse run p first x id drawn r.passes in
              elim r.ends [
                | inl a ↦
                    let left =
                      with_files tries digest a.files (created tries digest i.table i.rows c) in
                    let there : o ≡ abandon tries digest no_faults id a.messages a.cause left =
                      a.comes
                      ∙ ap (λ k. abandon tries digest no_faults k a.messages a.cause left) same in
                    inr (
                      inl (
                        subst (λ y. IsGone id y.0) (sym there)
                            (discard-IsGone id final partial left f q),
                        a.cause,
                        ap (λ y. y.1.1) a.comes,
                      ))
                | inr d ↦
                    let (_, both) =
                      create_compat_ok calls.begin_fails calls.create_fails x.upload x.compat
                        c.world.table i.table c.rows i.rows i.inserts in
                    let (found, _) =
                      insert_both-found (to_row x.upload) x.compat c.world.table i.table c.rows
                        i.rows both in
                    let here : find_row x.upload.id i.table ≡ some (to_row x.upload) =
                      ap (λ k. find_row k i.table) (sym (to_row-same x.upload)) ∙ found in
                    let key = x.upload.at_rest_key in
                    inr (
                      inr (
                        key,
                        subst (λ k. IsComplete k key frames c.world.files o.0) same
                            (finished-IsComplete run x frames
                              (created tries digest i.table i.rows c) o here d),
                      ))
              ]
        ]
