-- ===== src/Compat/Running.antt =====
-- What a run of internal/compat/upload.go comes to: refused with nothing stored, abandoned, or complete.
use sendan.Prelude.{
  ℕ, ◌≡◌, refl, ◌∙◌, ◌⊎◌, inl, inr, Option, List, [], ◌∷◌, ◌++◌, Bytes, ok, err, Error, Bool-cases,
  Result-cases, if◌then◌else◌, io_failure,
}
use sendan.Prelude.Int.{pos}
use sendan.Store.Table.{Table}
use sendan.Blob.Files.{Files, finish}
use sendan.Blob.Shredder.{Cipher}
use sendan.Upload.Attempts.{Attempts}
use sendan.Upload.Policy.{Policy}
use sendan.Compat.Rows.{CompatTable, create_compat, finish_compat}
use sendan.Compat.Auth.{Library}
use sendan.Compat.Receiving.{
  Frame, Arrival, UploadHeader, Message, failure, done, RunCalls, Checked, passed, refused,
  Prepared, announced, CompatWorld, Outcome, abandon, with_files, with_table, complete_run,
  store_content, run_upload, receive, prepare,
}

pub Checked-cases {ℓ} :
    {A : Type ℓ} (r : Checked A)
    → ((a : A) × (r ≡ passed a)) ⊎ ((status : ℕ) × (e : Error) × (r ≡ refused status e))
Checked-cases (passed a) = inl (a, refl)
Checked-cases (refused status e) = inr (status, e, refl)

module _ (tries : Attempts) (digest : Bytes → Bytes) where
  -- The state once both rows are inserted.
  abbrev pub created : Table → CompatTable → CompatWorld tries digest → CompatWorld tries digest
  created t rows c = record { world = record c.world { table = t }; rows = rows }

  module _ (lib : Library) (cipher : Cipher) (parse : Bytes → Option UploadHeader) (p : Policy)
      (calls : RunCalls) where
    pub record Abandoned (x : Prepared) (c : CompatWorld tries digest) (o : Outcome tries digest)
        : Type 0 where
      pub messages : List Message
      pub cause : Error
      pub files : Files
      pub comes :
          o
          ≡ abandon tries digest calls.cleanup x.upload.id messages cause
              (with_files tries digest files c)

    pub record Completed (x : Prepared) (frames : List Arrival) (c : CompatWorld tries digest)
        (o : Outcome tries digest) : Type 0 where
      pub size : ℕ
      pub table : Table
      pub arrived :
          (receive cipher x.upload.id x.upload.at_rest_key frames 0 c.world.files).1 ≡ ok size
      pub published :
          (finish calls.finish_fails x.upload.id
            (receive cipher x.upload.id x.upload.at_rest_key frames 0 c.world.files).0).1
          ≡ ok tt
      pub recorded :
          finish_compat calls.finish_row_fails x.upload.id
            (pos size)
            calls.finished_at
            c.world.table
          ≡ ok table
      pub comes : o ≡ (
        with_table tries digest table (
            with_files tries digest
              (finish calls.finish_fails x.upload.id
                (receive cipher x.upload.id x.upload.at_rest_key frames 0 c.world.files).0).0
              c),
        (announced x ++ done ∷ [], if calls.done_fails then err io_failure else ok tt),
      )

    -- Refused before either row was there, with nothing changed.
    pub record Refused (c : CompatWorld tries digest) (o : Outcome tries digest) : Type 0 where
      pub status : ℕ
      pub cause : Error
      pub comes : o ≡ (c, (failure status ∷ [], err cause))

    pub record Inserted (x : Prepared) (c : CompatWorld tries digest) : Type 0 where
      pub table : Table
      pub rows : CompatTable
      pub inserts :
          create_compat calls.begin_fails calls.create_fails x.upload x.compat c.world.table c.rows
          ≡ ok (table, rows)

    complete_run_failed :
        (id : Bytes) (size : ℕ) (messages : List Message) (c : CompatWorld tries digest) (e : Error)
        → finish_compat calls.finish_row_fails id (pos size) calls.finished_at c.world.table ≡ err e
        → complete_run tries digest lib cipher parse p calls id size messages c
          ≡ abandon tries digest calls.cleanup id (messages ++ failure 500 ∷ []) e c
    unfolding complete_run
    complete_run_failed id size messages c e fails = rw (complete_run, fails) refl

    pub complete_run_done :
        (id : Bytes) (size : ℕ) (messages : List Message) (c : CompatWorld tries digest) (t : Table)
        → finish_compat calls.finish_row_fails id (pos size) calls.finished_at c.world.table ≡ ok t
        → complete_run tries digest lib cipher parse p calls id size messages c ≡ (
          with_table tries digest t c,
          (messages ++ done ∷ [], if calls.done_fails then err io_failure else ok tt),
        )
    unfolding complete_run
    complete_run_done id size messages c t recorded = rw (complete_run, recorded) refl

    pub content_stored :
        (x : Prepared) (frames : List Arrival) (c : CompatWorld tries digest) (size : ℕ)
        → (receive cipher x.upload.id x.upload.at_rest_key frames 0 c.world.files).1 ≡ ok size
        → (finish calls.finish_fails x.upload.id
            (receive cipher x.upload.id x.upload.at_rest_key frames 0 c.world.files).0).1
          ≡ ok tt
        → store_content tries digest lib cipher parse p calls x frames c
          ≡ complete_run tries digest lib cipher parse p calls x.upload.id size (announced x) (
              with_files tries digest
                (finish calls.finish_fails x.upload.id
                  (receive cipher x.upload.id x.upload.at_rest_key frames 0 c.world.files).0).0
                c)
    unfolding store_content
    content_stored x frames c size arrived publishes = rw (store_content, arrived, publishes) refl

    pub store_content_cases :
        (x : Prepared) (frames : List Arrival) (c : CompatWorld tries digest)
        → let o = store_content tries digest lib cipher parse p calls x frames c in
          Abandoned x c o ⊎ Completed x frames c o
    unfolding store_content with_files
    store_content_cases x frames c =
        let id = x.upload.id in
        let (fs, received) = receive cipher id x.upload.at_rest_key frames 0 c.world.files in
        let stop = announced x ++ failure 500 ∷ [] in
        elim (Result-cases received) [
          | inr (e, fails) ↦ inl (record {
            messages = stop;
            cause = e;
            files = fs;
            comes = rw (store_content, fails) refl;
          })
          | inl (size, arrived) ↦
              let (published, answer) = finish calls.finish_fails id fs in
              elim (Result-cases answer) [
                | inr (e, fails) ↦ inl (record {
                  messages = stop;
                  cause = e;
                  files = published;
                  comes = rw (store_content, arrived, fails) refl;
                })
                | inl (_, publishes) ↦
                    elim (Result-cases (
                      finish_compat calls.finish_row_fails id (pos size) calls.finished_at
                        c.world.table)) [
                          | inr (e, fails) ↦ inl (record {
                            messages = stop;
                            cause = e;
                            files = published;
                            comes =
                                content_stored x frames c size arrived publishes
                                ∙ complete_run_failed id size (announced x)
                                    (with_files tries digest published c) e fails;
                          })
                          | inl (t, recorded) ↦ inr (record {
                            size = size;
                            table = t;
                            arrived = arrived;
                            published = publishes;
                            recorded = recorded;
                            comes =
                                content_stored x frames c size arrived publishes
                                ∙ complete_run_done id size (announced x)
                                    (with_files tries digest published c) t recorded;
                          })
                        ]
              ]
        ]

    pub run_created :
        (first : Option Frame) (frames : List Arrival) (c : CompatWorld tries digest) (x : Prepared)
        (t : Table) (rows : CompatTable)
        → prepare lib digest parse calls p first ≡ passed x
        → create_compat calls.begin_fails calls.create_fails x.upload x.compat c.world.table c.rows
          ≡ ok (t, rows)
        → run_upload tries digest lib cipher parse p calls first frames c ≡ (
            if calls.link_fails
            then abandon tries digest calls.cleanup x.upload.id
                (announced x)
                io_failure
                (created t rows c)
            else store_content tries digest lib cipher parse p calls x frames (created t rows c))
    unfolding run_upload
    run_created first frames c x t rows prepared inserts = rw (run_upload, prepared, inserts) refl

    -- A run that prepared its rows and inserted them.
    pub record Ran (first : Option Frame) (frames : List Arrival) (c : CompatWorld tries digest)
        (o : Outcome tries digest) : Type 0 where
      pub prepared : Prepared
      pub passes : prepare lib digest parse calls p first ≡ passed prepared
      pub inserted : Inserted prepared c
      pub ends :
          Abandoned prepared (created inserted.table inserted.rows c) o
          ⊎ Completed prepared frames (created inserted.table inserted.rows c) o

    -- Every run is one of the three.
    pub run_upload_cases :
        (first : Option Frame) (frames : List Arrival) (c : CompatWorld tries digest)
        → let o = run_upload tries digest lib cipher parse p calls first frames c in
          Refused c o ⊎ Ran first frames c o
    unfolding run_upload with_files
    run_upload_cases first frames c =
        elim (Checked-cases (prepare lib digest parse calls p first)) [
          | inr (status, e, stops) ↦
              inl (record { status = status; cause = e; comes = rw (run_upload, stops) refl })
          | inl (x, passes) ↦
              elim (Result-cases (
                create_compat calls.begin_fails calls.create_fails x.upload x.compat c.world.table
                  c.rows)) [
                    | inr (e, fails) ↦ inl (record {
                      status = 500;
                      cause = e;
                      comes = rw (run_upload, passes, fails) refl;
                    })
                    | inl ((t, rows), inserts) ↦
                        let run = run_created first frames c x t rows passes inserts in
                        inr (record {
                          prepared = x;
                          passes = passes;
                          inserted = record { table = t; rows = rows; inserts = inserts };
                          ends = elim (Bool-cases calls.link_fails) [
                            | inl stops ↦ inl (record {
                              messages = announced x;
                              cause = io_failure;
                              files = c.world.files;
                              comes = run ∙ (rw stops refl);
                            })
                            | inr sends ↦ elim (store_content_cases x frames (created t rows c)) [
                              | inl a ↦ inl (record {
                                messages = a.messages;
                                cause = a.cause;
                                files = a.files;
                                comes = run ∙ (rw sends a.comes);
                              })
                              | inr d ↦ inr (record {
                                size = d.size;
                                table = d.table;
                                arrived = d.arrived;
                                published = d.published;
                                recorded = d.recorded;
                                comes = run ∙ (rw sends d.comes);
                              })
                            ]
                          ];
                        })
                  ]
        ]
