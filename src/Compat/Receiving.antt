-- ===== src/Compat/Receiving.antt =====
-- internal/compat/upload.go: an upload over a websocket. The frames are those that `conn.Read` gives, in
-- order; where they end, it fails. Random values, and whether a call fails, are arguments. Logging and
-- the transport itself are left out; the messages that the handler sends are in its result.
use sendan.Prelude.{
  ℕ, ◌+◌, ◌-◌, ◌*◌, ◌^◌, Bool, false, Option, none, some, List, [], ◌∷◌, ◌++◌, Bytes, is_empty,
  codes, ◌==◌, ltb, length, if◌then◌else◌, Result, ok, err, Error, io_failure, bad_header,
  no_metadata, text_frame,
}
use sendan.Prelude.Int.{ℤ, pos, negsuc, ltb_ℤ, wrap64}
use sendan.Store.Upload.{Upload, second}
use sendan.Store.Table.{Table}
use sendan.Blob.Files.{Files, finish}
use sendan.Blob.Shredder.{Cipher, shred_write_chunk}
use sendan.Upload.Attempts.{Attempts}
use sendan.Upload.Policy.{Policy, resolve_expiry, ensure_bounded}
use sendan.Upload.Service.{Faults, World}
use sendan.Upload.Service
use sendan.Compat.Rows.{CompatUpload, CompatTable, cascade, create_compat, finish_compat}
use sendan.Compat.Auth.{Library, upload_auth_key}

-- A frame, and what its storing meets: whether its reader breaks off, and whether the calls before
-- and after the copy fail.
pub data Frame : Type 0 where
  text : Bytes → Frame
  binary : Bytes → Frame

pub record Arrival : Type 0 where
  pub frame : Frame
  pub broken : Bool
  pub setup_fails : Bool
  pub sync_fails : Bool

pub record UploadHeader : Type 0 where
  pub file_metadata : Bytes
  pub authorization : Bytes
  pub time_limit : ℤ
  pub dlimit : ℤ

pub data Message : Type 0 where
  failure : ℕ → Message
  link : Bytes → Bytes → Bytes → Message
  done : Message

-- What the calls of one run answer.
pub record RunCalls : Type 0 where
  pub fresh_id : Option Bytes
  pub fresh_owner_token : Option Bytes
  pub fresh_nonce : Option Bytes
  pub fresh_key : Option Bytes
  pub resolved_at : ℕ
  pub created_at : ℕ
  pub finished_at : ℕ
  pub begin_fails : Bool
  pub create_fails : Bool
  pub link_fails : Bool
  pub finish_fails : Bool
  pub finish_row_fails : Bool
  pub done_fails : Bool
  pub cleanup : Faults

abbrev pub max_header_bytes : ℕ
max_header_bytes = 2 ^ 20

abbrev pub end_of_file : ℕ
end_of_file = 0

-- `readHeader`, with `json.Unmarshal` as a parameter.
unfoldable pub read_header : (Bytes → Option UploadHeader) → Option Frame → Result UploadHeader
read_header parse none = err io_failure
read_header parse (some (binary frame)) = err bad_header
read_header parse (some (text frame)) =
    if ltb max_header_bytes (length frame)
    then err bad_header
    else elim (parse frame) [ none ↦ err bad_header | some h ↦ ok h ]

unfoldable pub download_limit : ℤ → ℤ
download_limit requested = if ltb_ℤ (pos 0) requested then requested else pos 1

-- `time.Duration(header.TimeLimit) * time.Second`: the product wraps at 64 bits.
unfoldable pub lifetime : ℤ → ℤ
lifetime (pos n) = wrap64 (n * second)
lifetime (negsuc n) = wrap64 (2 ^ 64 * second - (n + 1) * second)

-- What is checked before anything is stored: a refusal is answered under a status.
pub data Checked {ℓ} (A : Type ℓ) : Type ℓ where
  passed : A → Checked A
  refused : ℕ → Error → Checked A

infixl 5 ◌>>=◌
abbrev pub ◌>>=◌ {ℓ κ} : {A : Type ℓ} {B : Type κ} → Checked A → (A → Checked B) → Checked B
refused status e >>= rest = refused status e
passed a >>= rest = rest a

unfoldable pub answered {ℓ} : {A : Type ℓ} → ℕ → Result A → Checked A
answered status (ok a) = passed a
answered status (err e) = refused status e

unfoldable pub drawn {ℓ} : {A : Type ℓ} → Option A → Checked A
drawn (some a) = passed a
drawn none = refused 500 io_failure

-- The two rows that a run inserts, and the owner token that it hands out.
pub record Prepared : Type 0 where
  pub upload : Upload
  pub compat : CompatUpload
  pub owner_token : Bytes

abbrev pub auth_label : Bytes
auth_label = codes "compat/"

unfoldable pub is_end : Bytes → Bool
is_end [] = false
is_end (b ∷ []) = b == end_of_file
is_end (b ∷ c ∷ rest) = false

-- `downloadURL`, below the base address.
unfoldable pub download_path : Bytes → Bytes
download_path id = codes "/download/" ++ (id ++ codes "/")

-- The message that hands out the link.
abbrev pub announced : Prepared → List Message
announced x = link (download_path x.upload.id) x.owner_token x.upload.id ∷ []

-- What a loop over frames leaves: the files, and the size that arrived or the error.
abbrev pub Received : Type 0
Received = Files × Result ℕ

module _ (lib : Library) (digest : Bytes → Bytes) where
  unfoldable pub new_upload_row : RunCalls → ℕ → ℤ → Bytes → Bytes → Bytes → Upload
  unfolding download_limit
  new_upload_row calls expires dlimit id owner_token key = record {
    id = id;
    wrapped_file_key = [];
    wrap_nonce = [];
    metadata_envelope = [];
    metadata_nonce = [];
    auth_token_hash = digest (auth_label ++ id);
    owner_token_hash = digest owner_token;
    at_rest_key = key;
    password = none;
    size = pos 0;
    created_at = calls.created_at;
    expires_at = expires;
    max_downloads = download_limit dlimit;
    download_count = 0;
    bytes_served = 0;
    completed_at = 0;
  }

  -- `runUpload` up to `CreateCompat`.
  unfoldable pub prepare :
      (Bytes → Option UploadHeader) → RunCalls → Policy → Option Frame → Checked Prepared
  unfolding read_header lifetime answered drawn new_upload_row
  prepare parse calls p first = do
    header ← answered 400 (read_header parse first)
    auth_key ← answered 400 (upload_auth_key lib header.authorization)
    metadata ←
        (if is_empty header.file_metadata
          then refused 400 no_metadata
          else passed header.file_metadata)
    expires ← answered 400 (resolve_expiry p calls.resolved_at (lifetime header.time_limit))
    id ← drawn calls.fresh_id
    owner_token ← drawn calls.fresh_owner_token
    nonce ← drawn calls.fresh_nonce
    key ← drawn calls.fresh_key
    let u = new_upload_row calls expires header.dlimit id owner_token key
    bounded ← answered 400 (ensure_bounded p u.expires_at u.max_downloads)
    passed (record {
      upload = u;
      compat = record {
        id = id;
        auth_key = auth_key;
        nonce = nonce;
        metadata = metadata;
        requires_password = false;
      };
      owner_token = owner_token;
    })

module _ (cipher : Cipher) (id key : Bytes) where
  -- `receive`, from an offset.
  unfoldable pub receive : List Arrival → ℕ → Files → Received
  unfolding is_end
  receive [] offset fs = (fs, err io_failure)
  receive (a ∷ rest) offset fs = elim a.frame [
    | text frame ↦ (fs, err text_frame)
    | binary frame ↦
        let (written, wrote) =
          shred_write_chunk cipher a.setup_fails a.sync_fails id key (pos offset)
            (record { content = frame; broken = a.broken }) fs in
        let more = receive rest (offset + wrote.count) written in
        if is_end frame
        then (fs, ok offset)
        else elim wrote.fault [ some e ↦ (written, err e) | none ↦ more ]
  ]

module _ (tries : Attempts) (digest : Bytes → Bytes) where
  -- Both stores and the limiter, with the table of this protocol.
  pub record CompatWorld : Type 0 where
    pub world : World tries digest
    pub rows : CompatTable

  -- `s.Delete`, by which the database deletes the row here that refers to the upload.
  unfoldable pub discard : Faults → Bytes → CompatWorld → CompatWorld × Result (Unit {0})
  unfolding cascade
  discard faults id c =
      let (w, answer) = Service.delete tries digest faults id c.world in
      (record { world = w; rows = cascade w.table c.rows }, answer)

  -- What a run comes to: the state, the messages and the error.
  abbrev pub Outcome : Type 0
  Outcome = CompatWorld × (List Message × Result (Unit {0}))

  -- `abandon`, whatever its deletion answers, after the messages.
  unfoldable pub abandon : Faults → Bytes → List Message → Error → CompatWorld → Outcome
  unfolding discard
  abandon faults id messages cause c = ((discard faults id c).0, (messages, err cause))

  unfoldable pub with_files : Files → CompatWorld → CompatWorld
  with_files fs c = record { world = record c.world { files = fs }; rows = c.rows }

  unfoldable pub with_table : Table → CompatWorld → CompatWorld
  with_table t c = record { world = record c.world { table = t }; rows = c.rows }

  module _ (lib : Library) (cipher : Cipher) (parse : Bytes → Option UploadHeader) (p : Policy)
      (calls : RunCalls) where
    -- `FinishCompat`, and what follows it.
    unfoldable pub complete_run : Bytes → ℕ → List Message → CompatWorld → Outcome
    unfolding abandon with_table
    complete_run id size messages c =
        elim (finish_compat calls.finish_row_fails id (pos size) calls.finished_at c.world.table) [
          | err e ↦ abandon calls.cleanup id (messages ++ failure 500 ∷ []) e c
          | ok t ↦ (
            with_table t c,
            (messages ++ done ∷ [], if calls.done_fails then err io_failure else ok tt),
          )
        ]

    -- What follows the link: the frames, `Finish`, and the completion.
    unfoldable pub store_content : Prepared → List Arrival → CompatWorld → Outcome
    unfolding abandon with_files complete_run
    store_content x frames c =
        let id = x.upload.id in
        let messages = announced x in
        let (fs, received) = receive cipher id x.upload.at_rest_key frames 0 c.world.files in
        elim received [
          | err e ↦ abandon calls.cleanup id (messages ++ failure 500 ∷ []) e (with_files fs c)
          | ok size ↦
              let (published, answer) = finish calls.finish_fails id fs in
              elim answer [
                | err e ↦
                    abandon calls.cleanup id (messages ++ failure 500 ∷ []) e
                      (with_files published c)
                | ok _ ↦ complete_run id size messages (with_files published c)
              ]
        ]

    -- `runUpload`: the first frame is the header.
    unfoldable pub run_upload : Option Frame → List Arrival → CompatWorld → Outcome
    unfolding abandon store_content
    run_upload first frames c = elim (prepare lib digest parse calls p first) [
      | refused status e ↦ (c, (failure status ∷ [], err e))
      | passed x ↦
          elim (create_compat calls.begin_fails calls.create_fails x.upload x.compat c.world.table
            c.rows) [
              | err e ↦ (c, (failure 500 ∷ [], err e))
              | ok (t, rows) ↦
                  let created : CompatWorld = record {
                    world = record c.world { table = t };
                    rows = rows;
                  } in
                  let id = x.upload.id in
                  if calls.link_fails
                  then abandon calls.cleanup id (announced x) io_failure created
                  else store_content x frames created
            ]
    ]
