-- ===== src/Compat/Fetching.antt =====
-- A download by a client that presents a valid credential.
use sendan.Prelude.{
  ℕ, ◌≡◌, refl, ap, ◌∙◌, Bool, true, false, none, some, Bytes, is_empty, ok, length, take,
}
use sendan.Prelude.Int.{pos}
use sendan.Store.Upload.{Upload, live}
use sendan.Store.Table.{Row, Table, find_row, get, select_upload, scan_upload}
use sendan.Blob.Files.{Files, open_blob}
use sendan.Blob.Counter.{IsOctets}
use sendan.Blob.Shredder.{Cipher, shred, shred_read, at_rest_key_size}
use sendan.Blob.Shredding.{shred-drop-shred}
use sendan.Upload.Attempts.{Attempts}
use sendan.Compat.Rows.{CompatUpload, CompatTable, find_compat, update_compat, set_nonce}
use sendan.Compat.Auth.{Library, AuthCalls}
use sendan.Compat.Receiving.{CompatWorld}
use sendan.Compat.Serving.{
  DownloadCalls, file, authorize_download, bearer_token, handle_download, with_rows, count_served,
}
use sendan.Compat.Replay.{sign, calm, signed-granted}

pub get-live :
    (k : Bytes) (now : ℕ) (t : Table) (r : Row)
    → find_row k t ≡ some r
    → live (scan_upload r) now ≡ true
    → get false k now t ≡ ok (scan_upload r)
unfolding get select_upload
get-live k now t r found lives = rw (get, select_upload, found, lives) refl

not_bearer : (lib : Library) (key nonce : Bytes) → bearer_token lib (sign lib key nonce) ≡ none
unfolding bearer_token sign
not_bearer lib key nonce = rw lib.schemes_differ refl

pub signed-authorized :
    (lib : Library) (next id key : Bytes) (rows : CompatTable) (c : CompatUpload)
    → find_compat id rows ≡ some c
    → is_empty next ≡ false
    → authorize_download lib (calm next) (sign lib c.auth_key c.nonce) id key rows
      ≡ (update_compat id (set_nonce next) rows, (some next, none))
unfolding authorize_download
signed-authorized lib next id key rows c found filled =
    rw
      (
        authorize_download,
        not_bearer lib c.auth_key c.nonce,
        signed-granted lib next id rows c found filled,
      )
      (ap (λ x. (x.0, (x.1.0, none))) (signed-granted lib next id rows c found filled))

-- The calls of a download that reach the content; recording what was served may fail.
abbrev pub reaching : Bool → ℕ → DownloadCalls
reaching record_fails accepted = record {
  get_fails = false;
  open_fails = false;
  record_fails = record_fails;
  accepted = accepted;
}

module _ (tries : Attempts) (digest : Bytes → Bytes) (lib : Library) (cipher : Cipher) where
  -- A request whose calls succeed and that is authorised, by the token or a signature.
  pub download_authorized :
      (auth : AuthCalls) (d : DownloadCalls) (header id : Bytes) (now : ℕ)
      (c : CompatWorld tries digest) (u : Upload) (content : Bytes)
      → get d.get_fails id now c.world.table ≡ ok u
      → (authorize_download lib auth header id u.at_rest_key c.rows).1.1 ≡ none
      → shred_read cipher d.open_fails id u.at_rest_key 0 c.world.files ≡ ok content
      → let (rows, (nonce, _)) = authorize_download lib auth header id u.at_rest_key c.rows in
        handle_download tries digest lib cipher auth d header id now c ≡ (
          count_served tries digest lib d.record_fails id
              (length (take d.accepted content))
              (with_rows tries digest rows c),
          record { status = 200; offered = nonce; body = file (take d.accepted content) u.size },
        )
  unfolding handle_download
  download_authorized auth d header id now c u content found passes read =
      rw (handle_download, found, passes, read) refl

  pub download_answer :
      (record_fails : Bool) (accepted : ℕ) (id next : Bytes) (now : ℕ)
      (c : CompatWorld tries digest) (u : Upload) (row : CompatUpload) (content : Bytes)
      → get false id now c.world.table ≡ ok u
      → find_compat id c.rows ≡ some row
      → is_empty next ≡ false
      → shred_read cipher false id u.at_rest_key 0 c.world.files ≡ ok content
      → (handle_download tries digest lib cipher
          (calm next)
          (reaching record_fails accepted)
          (sign lib row.auth_key row.nonce)
          id
          now
          c).1
        ≡ record { status = 200; offered = some next; body = file (take accepted content) u.size }
  download_answer record_fails accepted id next now c u row content found known filled read =
      let auth = signed-authorized lib next id u.at_rest_key c.rows row known filled in
      let header = sign lib row.auth_key row.nonce in
      ap (λ x. x.1)
        (download_authorized (calm next) (reaching record_fails accepted) header id now c u content
          found (ap (λ x. x.1.1) auth) read)
      ∙ ap
          (λ x. record {
            status = 200;
            offered = x.1.0;
            body = file (take accepted content) u.size;
          })
          auth

  pub stored_content :
      (id key : Bytes) (fs : Files) (plain stored : Bytes)
      → length key ≡ at_rest_key_size
      → IsOctets plain
      → shred cipher key (pos 0) plain ≡ ok stored
      → open_blob false id fs ≡ ok stored
      → shred_read cipher false id key 0 fs ≡ ok plain
  unfolding shred_read
  stored_content id key fs plain stored key_size octets encrypted opened =
      rw (shred_read, key_size, opened)
        (shred-drop-shred cipher key 0 plain stored key_size octets encrypted)
