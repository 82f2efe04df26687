-- ===== src/Compat/Keeping.antt =====
-- That each handler of internal/compat, and each deletion of the upload service, keeps the tables sound.
use mathlib.Core.Path.{subst}
use sendan.Prelude.{
  ℕ, ◌≡◌, refl, sym, Bool, Option, none, some, List, Bytes, bytes_eq, is_empty, ok, Error,
  Bool-cases, Option-cases, Result-cases, inl, inr, ltb, length, take,
}
use sendan.Prelude.Int.{pos}
use sendan.Store.Table.{Table, get}
use sendan.Store.Table
use sendan.Blob.Files.{Files, finish}
use sendan.Blob.Shredder.{Cipher, shred_read}
use sendan.Upload.Attempts.{Attempts}
use sendan.Upload.Policy.{Policy}
use sendan.Upload.Service.{Faults}
use sendan.Upload.Service
use sendan.Compat.Rows.{CompatTable, finish_compat, set_compat_password}
use sendan.Compat.Auth.{Library, AuthCalls, authenticate, decode_b64}
use sendan.Compat.Running.{created, run_upload_cases}
use sendan.Compat.Receiving.{
  Frame, Arrival, UploadHeader, Message, RunCalls, CompatWorld, discard, Outcome, abandon,
  with_files, with_table, run_upload, receive,
}
use sendan.Compat.Serving.{
  DownloadCalls, with_rows, count_served, authorize_download, handle_metadata,
  handle_download_token, handle_download, handle_password, bearer_token, download_token,
}
use sendan.Compat.Granting.{authenticate_lem}
use sendan.Compat.Sound.{
  IsSound, Covers, Covers-IsSound, cascade-IsSound, rotated-IsSound, set_compat_password-IsSound,
  create_compat-IsSound, finish_compat-Covers, record_served-Covers,
}

module _ (tries : Attempts) (digest : Bytes → Bytes) where
  abbrev pub IsSoundWorld : CompatWorld tries digest → Type 0
  IsSoundWorld c = IsSound c.world.table c.rows

  pub discard-IsSoundWorld :
      (faults : Faults) (id : Bytes) (c : CompatWorld tries digest)
      → IsSoundWorld c
      → IsSoundWorld (discard tries digest faults id c).0
  unfolding discard
  discard-IsSoundWorld faults id c s =
      cascade-IsSound c.world.table (Service.delete tries digest faults id c.world).0.table c.rows s

  abandon-IsSoundWorld :
      (faults : Faults) (id : Bytes) (messages : List Message) (cause : Error)
      (c : CompatWorld tries digest)
      → IsSoundWorld c
      → IsSoundWorld (abandon tries digest faults id messages cause c).0
  unfolding abandon
  abandon-IsSoundWorld faults id messages cause c s = discard-IsSoundWorld faults id c s

  with_files-IsSoundWorld :
      (fs : Files) (c : CompatWorld tries digest)
      → IsSoundWorld c
      → IsSoundWorld (with_files tries digest fs c)
  unfolding with_files
  with_files-IsSoundWorld fs c s = s

  with_table-IsSoundWorld :
      (t : Table) (c : CompatWorld tries digest)
      → Covers c.world.table t
      → IsSoundWorld c
      → IsSoundWorld (with_table tries digest t c)
  unfolding with_table
  with_table-IsSoundWorld t c covers s = Covers-IsSound c.world.table t c.rows covers s

  with_rows-IsSoundWorld :
      (rows : CompatTable) (c : CompatWorld tries digest)
      → IsSound c.world.table rows
      → IsSoundWorld (with_rows tries digest rows c)
  unfolding with_rows
  with_rows-IsSoundWorld rows c s = s

  module _ (lib : Library) where
    authenticate-IsSound :
        (calls : AuthCalls) (header id : Bytes) (t : Table) (rows : CompatTable)
        → IsSound t rows
        → IsSound t (authenticate lib calls header id rows).0
    authenticate-IsSound calls header id t rows s =
        elim (authenticate_lem lib calls header id rows) [
          | inl (status, _, same) ↦ subst (IsSound t) (sym same) s
          | inr (c, _, g) ↦
              subst (IsSound t) (sym g.rotated) (rotated-IsSound id g.next t rows g.filled s)
        ]

    -- What a granted or refused authentication leaves, before the rest of a handler.
    pub authenticated-IsSoundWorld :
        (calls : AuthCalls) (header id : Bytes) (c : CompatWorld tries digest)
        → IsSoundWorld c
        → IsSoundWorld (with_rows tries digest (authenticate lib calls header id c.rows).0 c)
    authenticated-IsSoundWorld calls header id c s =
        with_rows-IsSoundWorld (authenticate lib calls header id c.rows).0 c
          (authenticate-IsSound calls header id c.world.table c.rows s)

    completed-IsSoundWorld :
        (failing : Bool) (id : Bytes) (size now : ℕ) (t : Table) (fs : Files)
        (c : CompatWorld tries digest)
        → finish_compat failing id (pos size) now c.world.table ≡ ok t
        → IsSoundWorld c
        → IsSoundWorld (with_table tries digest t (with_files tries digest fs c))
    unfolding with_table with_files
    completed-IsSoundWorld failing id size now t fs c recorded s =
        Covers-IsSound c.world.table t c.rows
          (finish_compat-Covers failing id size now c.world.table t recorded) s

    pub run_upload-IsSoundWorld :
        (cipher : Cipher) (parse : Bytes → Option UploadHeader) (p : Policy) (calls : RunCalls)
        (first : Option Frame) (frames : List Arrival) (c : CompatWorld tries digest)
        → IsSoundWorld c
        → IsSoundWorld (run_upload tries digest lib cipher parse p calls first frames c).0
    run_upload-IsSoundWorld cipher parse p calls first frames c s =
        let Sound : Outcome tries digest → Type 0 = λ o. IsSoundWorld o.0 in
        elim (run_upload_cases tries digest lib cipher parse p calls first frames c) [
          | inl r ↦ subst Sound (sym r.comes) s
          | inr r ↦
              let x = r.prepared in
              let i = r.inserted in
              let c₁ = created tries digest i.table i.rows c in
              let s₁ : IsSoundWorld c₁ =
                create_compat-IsSound calls.begin_fails calls.create_fails x.upload x.compat
                  c.world.table i.table c.rows i.rows i.inserts s in
              elim r.ends [
                | inl a ↦ subst Sound (sym a.comes) (
                    abandon-IsSoundWorld calls.cleanup x.upload.id a.messages a.cause
                      (with_files tries digest a.files c₁) (with_files-IsSoundWorld a.files c₁ s₁))
                | inr d ↦ subst Sound (sym d.comes) (
                    completed-IsSoundWorld calls.finish_row_fails x.upload.id d.size
                      calls.finished_at d.table
                      (finish calls.finish_fails x.upload.id
                        (receive cipher x.upload.id x.upload.at_rest_key frames 0
                          c.world.files).0).0
                      c₁ d.recorded s₁)
              ]
        ]

    -- Reading the metadata and fetching a token change nothing but the nonce.
    pub handle_metadata-state :
        (calls : AuthCalls) (get_fails : Bool) (header id : Bytes) (now : ℕ)
        (c : CompatWorld tries digest)
        → (handle_metadata tries digest lib calls get_fails header id now c).0
          ≡ with_rows tries digest (authenticate lib calls header id c.rows).0 c
    unfolding handle_metadata
    handle_metadata-state calls get_fails header id now c =
        elim (authenticate_lem lib calls header id c.rows) [
          | inl (status, stops, _) ↦ rw (handle_metadata, stops) refl
          | inr (row, grants, _) ↦ elim (Result-cases (get get_fails id now c.world.table)) [
            | inr (e, fails) ↦ rw (handle_metadata, grants, fails) refl
            | inl (u, found) ↦ rw (handle_metadata, grants, found) refl
          ]
        ]

    pub handle_download_token-state :
        (calls : AuthCalls) (get_fails : Bool) (header id : Bytes) (now : ℕ)
        (c : CompatWorld tries digest)
        → (handle_download_token tries digest lib calls get_fails header id now c).0
          ≡ with_rows tries digest (authenticate lib calls header id c.rows).0 c
    unfolding handle_download_token
    handle_download_token-state calls get_fails header id now c =
        elim (authenticate_lem lib calls header id c.rows) [
          | inl (status, stops, _) ↦ rw (handle_download_token, stops) refl
          | inr (row, grants, _) ↦ elim (Result-cases (get get_fails id now c.world.table)) [
            | inr (e, fails) ↦ rw (handle_download_token, grants, fails) refl
            | inl (u, found) ↦ rw (handle_download_token, grants, found) refl
          ]
        ]

    count_served-IsSoundWorld :
        (record_fails : Bool) (id : Bytes) (served : ℕ) (c : CompatWorld tries digest)
        → IsSoundWorld c
        → IsSoundWorld (count_served tries digest lib record_fails id served c)
    unfolding count_served
    count_served-IsSoundWorld record_fails id served c s = elim (Bool-cases (ltb 0 served)) [
      | inr nothing ↦ rw (count_served, nothing) s
      | inl some_bytes ↦
          elim (Result-cases (Table.record_served record_fails id (pos served) c.world.table)) [
            | inr (e, fails) ↦ rw (count_served, some_bytes, fails) s
            | inl ((t, u), counted) ↦
                rw (count_served, some_bytes, counted)
                  (with_table-IsSoundWorld t c
                    (record_served-Covers record_fails id served c.world.table t u counted) s)
          ]
    ]

    authorize_download-IsSound :
        (calls : AuthCalls) (header id key : Bytes) (t : Table) (rows : CompatTable)
        → IsSound t rows
        → IsSound t (authorize_download lib calls header id key rows).0
    unfolding authorize_download
    authorize_download-IsSound calls header id key t rows s =
        elim (Option-cases (bearer_token lib header)) [
          | inr (presented, e) ↦
              elim (Bool-cases (bytes_eq presented (download_token lib key id))) [
                | inl right ↦ rw (authorize_download, e, right) s
                | inr wrong ↦ rw (authorize_download, e, wrong) s
              ]
          | inl nothing ↦
              let after = authenticate-IsSound calls header id t rows s in
              elim (authenticate_lem lib calls header id rows) [
                | inl (status, stops, _) ↦ rw (authorize_download, nothing, stops) after
                | inr (c, grants, _) ↦ rw (authorize_download, nothing, grants) after
              ]
        ]

    pub handle_download-IsSoundWorld :
        (cipher : Cipher) (calls : AuthCalls) (d : DownloadCalls) (header id : Bytes) (now : ℕ)
        (c : CompatWorld tries digest)
        → IsSoundWorld c
        → IsSoundWorld (handle_download tries digest lib cipher calls d header id now c).0
    unfolding handle_download
    handle_download-IsSoundWorld cipher calls d header id now c s =
        elim (Result-cases (get d.get_fails id now c.world.table)) [
          | inr (e, fails) ↦ rw (handle_download, fails) s
          | inl (u, found) ↦
              let key = u.at_rest_key in
              let (rows, (nonce, refusal)) = authorize_download lib calls header id key c.rows in
              let c' = with_rows tries digest rows c in
              let kept =
                with_rows-IsSoundWorld rows c
                  (authorize_download-IsSound calls header id key c.world.table c.rows s) in
              elim (Option-cases refusal) [
                | inr (status, stops) ↦ rw (handle_download, found, stops) kept
                | inl passes ↦
                    elim (Result-cases (shred_read cipher d.open_fails id key 0 c.world.files)) [
                      | inr (e, fails) ↦ rw (handle_download, found, passes, fails) kept
                      | inl (content, opened) ↦
                          rw (handle_download, found, passes, opened)
                            (count_served-IsSoundWorld d.record_fails id
                              (length (take d.accepted content)) c' kept)
                    ]
              ]
        ]

    pub handle_password-IsSoundWorld :
        (get_fails set_fails : Bool) (request : Option (Bytes × Bytes)) (id : Bytes) (now : ℕ)
        (c : CompatWorld tries digest)
        → IsSoundWorld c
        → IsSoundWorld (handle_password tries digest lib get_fails set_fails request id now c).0
    unfolding handle_password
    handle_password-IsSoundWorld get_fails set_fails none id now c s = s
    handle_password-IsSoundWorld get_fails set_fails (some (auth, owner)) id now c s =
        elim (Option-cases (decode_b64 lib auth)) [
          | inl bad ↦ rw (handle_password, bad) s
          | inr (key, decoded) ↦ elim (Bool-cases (is_empty key)) [
            | inl nothing ↦ rw (handle_password, decoded, nothing) s
            | inr filled ↦ elim (Result-cases (get get_fails id now c.world.table)) [
              | inr (e, fails) ↦ rw (handle_password, decoded, filled, fails) s
              | inl (u, found) ↦ elim (Bool-cases (bytes_eq (digest owner) u.owner_token_hash)) [
                | inr wrong ↦ rw (handle_password, decoded, filled, found, wrong) s
                | inl right ↦ elim (Result-cases (set_compat_password set_fails id key c.rows)) [
                  | inr (e, fails) ↦ rw (handle_password, decoded, filled, found, right, fails) s
                  | inl (rows, done) ↦
                      rw (handle_password, decoded, filled, found, right, done)
                        (with_rows-IsSoundWorld rows c (
                          set_compat_password-IsSound set_fails id key c.world.table c.rows rows
                            done s))
                ]
              ]
            ]
          ]
        ]
