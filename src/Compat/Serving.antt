-- ===== src/Compat/Serving.antt =====
-- internal/compat/compat.go, download.go and password.go: the handlers, each as a function of the
-- answers of the calls that can fail to the state that it leaves and its answer. Reading and writing
-- JSON, and logging, are left out.
use sendan.Prelude.{
  ℕ, ◌+◌, ◌-◌, ◌/◌, ◌^◌, Bool, ◌&&◌, ◌||◌, not, Option, none, some, ◌++◌, Bytes, bytes_eq, is_empty,
  codes, ◌==◌, ltb, length, take, if◌then◌else◌, ok, err, is_not_found,
}
use sendan.Prelude.Int.{ℤ, pos, ltb_ℤ}
use sendan.Store.Upload.{Upload}
use sendan.Store.Table.{Table, get}
use sendan.Store.Table
use sendan.Blob.Shredder.{Cipher, shred_read}
use sendan.Upload.Attempts.{Attempts}
use sendan.Compat.Rows.{CompatTable, compat_row, set_compat_password}
use sendan.Compat.Auth.{Library, AuthCalls, refused, granted, cut_space, decode_b64, authenticate}
use sendan.Compat.Receiving.{CompatWorld, with_table}

pub data Body : Type 0 where
  -- an error's text
  no_body : Body
  protected : Bool → Body
  -- the metadata, whether this download would be the last, and the milliseconds left
  described : Bytes → Bool → ℕ → Body
  token : Bytes → Body
  -- the bytes sent, and the announced length
  file : Bytes → ℤ → Body
  share_page : Body

-- An answer: its status, the nonce that it offers if any, and what it carries.
pub record Answer : Type 0 where
  pub status : ℕ
  pub offered : Option Bytes
  pub body : Body

unfoldable pub plain : ℕ → Option Bytes → Answer
plain status nonce = record { status = status; offered = nonce; body = no_body }

abbrev pub token_label : Bytes
token_label = codes "compat/download-token/"

abbrev millisecond : ℕ
millisecond = 10 ^ 6

-- The lifetime left: `Sub`, and `Milliseconds`, which a negative difference ends at zero.
unfoldable pub ttl_of : Upload → ℕ → ℕ
ttl_of u now = if u.expires_at == 0 then 0 else (u.expires_at - now) / millisecond

unfoldable pub final_download : Upload → Bool
final_download u =
    ltb_ℤ (pos 0) u.max_downloads && not (ltb_ℤ (pos (u.download_count + 1)) u.max_downloads)

-- A request for the content: how much of it the client takes, and whether the calls fail.
pub record DownloadCalls : Type 0 where
  pub get_fails : Bool
  pub open_fails : Bool
  pub record_fails : Bool
  pub accepted : ℕ

module _ (lib : Library) where
  unfoldable pub download_token : Bytes → Bytes → Bytes
  download_token key id = lib.encode_raw_url (lib.hmac key (token_label ++ id))

  -- `bearerToken`
  unfoldable pub bearer_token : Bytes → Option Bytes
  unfolding cut_space
  bearer_token header = elim (cut_space header) [
    | none ↦ none
    | some (name, value) ↦
        let v = lib.trim_space value in
        if not (lib.equal_fold name (codes "bearer")) || is_empty v then none else some v
  ]

  -- `authorizeDownload`: the rows, and either nothing or the answer that ends the request.
  unfoldable pub authorize_download :
      AuthCalls → Bytes → Bytes → Bytes → CompatTable → CompatTable × (Option Bytes × Option ℕ)
  unfolding bearer_token download_token
  authorize_download calls header id key rows = elim (bearer_token header) [
    | some presented ↦
        if bytes_eq presented (download_token key id)
        then (rows, (none, none))
        else (rows, (none, some 401))
    | none ↦
        let (rows', (nonce, verdict)) = authenticate lib calls header id rows in
        elim verdict [
          | refused status ↦ (rows', (nonce, some status))
          | granted c ↦ (rows', (nonce, none))
        ]
  ]

module _ (tries : Attempts) (digest : Bytes → Bytes) where
  abbrev State : Type 0
  State = CompatWorld tries digest

  unfoldable pub with_rows : CompatTable → State → State
  with_rows rows c = record { world = c.world; rows = rows }

  -- `handleExists`
  unfoldable pub handle_exists : Bool → Bool → Bytes → ℕ → State → Answer
  unfolding plain
  handle_exists read_fails get_fails id now c = elim (compat_row read_fails id c.rows) [
    | err e ↦ plain 404 none
    | ok row ↦ elim (get get_fails id now c.world.table) [
      | err e ↦ plain 404 none
      | ok u ↦ record {
        status = 200;
        offered = some row.nonce;
        body = protected row.requires_password;
      }
    ]
  ]

  -- `handleSharePage`
  unfoldable pub handle_share_page : Bool → Bool → Bytes → ℕ → State → Answer
  unfolding plain
  handle_share_page read_fails get_fails id now c = elim (compat_row read_fails id c.rows) [
    | err e ↦ plain 404 none
    | ok row ↦ elim (get get_fails id now c.world.table) [
      | err e ↦ plain 404 none
      | ok u ↦ record { status = 200; offered = some row.nonce; body = share_page }
    ]
  ]

  module _ (lib : Library) where
    -- `handleMetadata`
    unfoldable pub handle_metadata : AuthCalls → Bool → Bytes → Bytes → ℕ → State → State × Answer
    unfolding plain with_rows ttl_of final_download
    handle_metadata calls get_fails header id now c =
        let (rows, (nonce, verdict)) = authenticate lib calls header id c.rows in
        let c' = with_rows rows c in
        elim verdict [
          | refused status ↦ (c', plain status nonce)
          | granted row ↦ elim (get get_fails id now c.world.table) [
            | err e ↦ (c', plain 404 nonce)
            | ok u ↦ (
              c',
              record {
                status = 200;
                offered = nonce;
                body = described row.metadata (final_download u) (ttl_of u now);
              },
            )
          ]
        ]

    -- `handleDownloadToken`. No store answers with `ErrExhausted`.
    unfoldable pub handle_download_token :
        AuthCalls → Bool → Bytes → Bytes → ℕ → State → State × Answer
    unfolding plain with_rows download_token
    handle_download_token calls get_fails header id now c =
        let (rows, (nonce, verdict)) = authenticate lib calls header id c.rows in
        let c' = with_rows rows c in
        elim verdict [
          | refused status ↦ (c', plain status nonce)
          | granted row ↦ elim (get get_fails id now c.world.table) [
            | err e ↦ (c', plain 404 nonce)
            | ok u ↦ (
              c',
              record {
                status = 200;
                offered = nonce;
                body = token (download_token lib u.at_rest_key id);
              },
            )
          ]
        ]

    -- `RecordServed` of the metadata store, whose error is only logged.
    unfoldable pub count_served : Bool → Bytes → ℕ → State → State
    unfolding with_table
    count_served record_fails id served c =
        if ltb 0 served
        then elim (Table.record_served record_fails id (pos served) c.world.table) [
          | err e ↦ c
          | ok (t, u) ↦ with_table tries digest t c
        ]
        else c

    -- `handleDownload`; the client takes the first `accepted` bytes.
    unfoldable pub handle_download :
        Cipher → AuthCalls → DownloadCalls → Bytes → Bytes → ℕ → State → State × Answer
    unfolding plain with_rows count_served authorize_download
    handle_download cipher calls d header id now c = elim (get d.get_fails id now c.world.table) [
      | err e ↦ (c, plain 404 none)
      | ok u ↦
          let (rows, (nonce, refusal)) =
            authorize_download lib calls header id u.at_rest_key c.rows in
          let c' = with_rows rows c in
          elim refusal [
            | some status ↦ (c', plain status nonce)
            | none ↦ elim (shred_read cipher d.open_fails id u.at_rest_key 0 c.world.files) [
              | err e ↦ (c', plain 404 nonce)
              | ok content ↦
                  let sent = take d.accepted content in
                  (
                    count_served d.record_fails id (length sent) c',
                    record { status = 200; offered = nonce; body = file sent u.size },
                  )
            ]
          ]
    ]

    -- `handlePassword`, of the request that was decoded, if it could be.
    unfoldable pub handle_password :
        Bool → Bool → Option (Bytes × Bytes) → Bytes → ℕ → State → State × Answer
    unfolding plain with_rows
    handle_password get_fails set_fails request id now c = elim request [
      | none ↦ (c, plain 400 none)
      | some (auth, owner_token) ↦ elim (decode_b64 lib auth) [
        | none ↦ (c, plain 400 none)
        | some key ↦
            if is_empty key
            then (c, plain 400 none)
            else elim (get get_fails id now c.world.table) [
              | err e ↦ (c, plain 404 none)
              | ok u ↦
                  if not (bytes_eq (digest owner_token) u.owner_token_hash)
                  then (c, plain 401 none)
                  else elim (set_compat_password set_fails id key c.rows) [
                    | err e ↦ (c, plain (if is_not_found e then 404 else 500) none)
                    | ok rows ↦ (with_rows rows c, plain 200 none)
                  ]
            ]
      ]
    ]
