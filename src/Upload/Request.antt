-- ===== src/Upload/Request.antt =====
-- internal/upload/tusstore.go: the values that a client sends with a new upload, read one by one with
-- their faults collected, and the row built of them. `tus.MetaData` is a function on its keys. The
-- decimal parser and the base64 encoder are those of the standard library.
use sendan.Prelude.{
  ℕ, zero, suc, ◌+◌, ◌-◌, ◌*◌, ◌/◌, ◌%◌, ◌^◌, Bool, false, not, ◌&&◌, ◌||◌, Option, none, some,
  List, [], ◌∷◌, ◌++◌, Bytes, codes, all_bytes, is_empty, Result, ok, err, ◌>>=◌, ◌>>◌, refuse_if,
  if◌then◌else◌, ltb, leb, ◌==◌, length, invalid_metadata, retention,
}
use sendan.Prelude.Int.{ℤ, pos, negsuc, pos_part, is_negative, wrap64}
use sendan.Crypto.Aead.{tag_size, nonce_size}
use sendan.Store.Upload.{Upload, PasswordParams, second}
use sendan.Upload.Policy.{Policy, resolve_expiry, ensure_bounded}

-- What is wrong with a value: each constructor is a message, about a key.
pub data Reason : Type 0 where
  missing wrong_size not_envelope implausibly_large exceeds not_integer repeated_byte : Reason
  argon_parameters : Reason

pub record Fault : Type 0 where
  pub key : Bytes
  pub reason : Reason

abbrev pub Values : Type 0
Values = Bytes → Option Bytes

-- A value read, and the faults found on the way, as the method appends them to `faults`.
abbrev pub Read {ℓ} : Type ℓ → Type ℓ
Read A = A × List Fault

abbrev pub fault : Bytes → Reason → List Fault
fault key reason = record { key = key; reason = reason } ∷ []

unfoldable pub read_bytes : Values → Bytes → ℕ → Read Bytes
read_bytes values key want = elim (values key) [
  | none ↦ ([], fault key missing)
  | some v ↦ if not (length v == want) then ([], fault key wrong_size) else (v, [])
]

abbrev pub max_envelope : ℕ
max_envelope = 64 * 1024

-- `(*metadata).blob`
unfoldable pub read_blob : Values → Bytes → Read Bytes
read_blob values key = elim (values key) [
  | none ↦ ([], fault key missing)
  | some v ↦ (
    v,
    if leb (length v) tag_size || not ((length v - tag_size) % 256 == 0)
        then fault key not_envelope
        else if ltb max_envelope (length v)
        then fault key implausibly_large
        else [],
  )
]

abbrev pub is_digit : ℕ → Bool
is_digit c = leb b'0' c && leb c b'9'

-- The number that decimal digits spell, after those read.
unfoldable pub digits : ℕ → Bytes → ℕ
digits n [] = n
digits n (c ∷ cs) = digits (n * 10 + (c - b'0')) cs

unfoldable pub parse_digits : Bytes → Option ℕ
parse_digits cs = if is_empty cs || not (all_bytes is_digit cs) then none else some (digits 0 cs)

-- `strconv.ParseInt(s, 10, 64)`: an optional sign, digits, and the bounds of an int64.
unfoldable pub parse_int : Bytes → Option ℤ
parse_int [] = none
parse_int (c ∷ cs) =
    if c == b'-'
    then elim (parse_digits cs) [
      | none ↦ none
      | some zero ↦ some (pos 0)
      | some (suc n) ↦ if ltb n (2 ^ 63) then some (negsuc n) else none
    ]
    else elim (parse_digits (if c == b'+' then cs else c ∷ cs)) [
      | none ↦ none
      | some n ↦ if ltb n (2 ^ 63) then some (pos n) else none
    ]

unfoldable pub integer64 : Values → Bytes → ℤ → Read ℤ
integer64 values key fallback = elim (values key) [
  | none ↦ (fallback, [])
  | some v ↦ if is_empty v then (fallback, []) else elim (parse_int v) [
    | none ↦ (fallback, fault key not_integer)
    | some (negsuc n) ↦ (fallback, fault key not_integer)
    | some (pos n) ↦ (pos n, [])
  ]
]

-- A number read under a bound, as the three methods after `integer64` do: `uint32Value`,
-- `uint8Value` and `integer`.
unfoldable pub bounded : Values → Bytes → ℕ → ℕ → Read ℕ
unfolding integer64
bounded values key most fallback =
    let (v, faults) = integer64 values key (pos fallback) in
    if is_negative v || ltb most (pos_part v)
    then (fallback, faults ++ fault key exceeds)
    else (pos_part v, faults)

unfoldable pub uint32_value : Values → Bytes → Read ℕ
unfolding bounded
uint32_value values key = bounded values key (2 ^ 32 - 1) 0

unfoldable pub uint8_value : Values → Bytes → Read ℕ
unfolding bounded
uint8_value values key = bounded values key (2 ^ 8 - 1) 0

unfoldable pub integer : Values → Bytes → ℕ → Read ℕ
unfolding bounded
integer values key fallback = bounded values key (2 ^ 31 - 1) fallback

-- The character of six bits in base64url.
unfoldable pub base64_char : ℕ → ℕ
base64_char n =
    if ltb n 26
    then b'A' + n
    else if ltb n 52
    then b'a' + (n - 26)
    else if ltb n 62
    then b'0' + (n - 52)
    else if n == 62
    then b'-'
    else b'_'

-- `base64.RawURLEncoding.EncodeToString`
unfoldable pub encode_base64 : Bytes → Bytes
encode_base64 [] = []
encode_base64 (a ∷ []) = base64_char (a / 4 % 64) ∷ base64_char (a * 16 % 64) ∷ []
encode_base64 (a ∷ b ∷ []) =
    base64_char (a / 4 % 64) ∷ base64_char ((a * 16 + b / 16) % 64) ∷ base64_char (b * 4 % 64) ∷ []
encode_base64 (a ∷ b ∷ c ∷ rest) =
    base64_char (a / 4 % 64)
    ∷ base64_char ((a * 16 + b / 16) % 64)
    ∷ base64_char ((b * 4 + c / 64) % 64)
    ∷ base64_char (c % 64)
    ∷ encode_base64 rest

unfoldable pub all_one_byte : Bytes → Bool
all_one_byte [] = false
all_one_byte (b ∷ bs) = all_bytes (λ c. c == b) bs

-- The keys.
abbrev pub file_id_key : Bytes
file_id_key = codes "fileID"

abbrev pub password_salt_key : Bytes
password_salt_key = codes "passwordSalt"

abbrev pub ttl_key : Bytes
ttl_key = codes "ttlSeconds"

abbrev pub file_id_size : ℕ
file_id_size = 16

abbrev pub wrapped_file_key_size : ℕ
wrapped_file_key_size = 48

abbrev pub digest_size : ℕ
digest_size = 32

abbrev pub salt_size : ℕ
salt_size = 16

-- `fileID`, of the value read: one of the wrong size has been reported, and is nil.
unfoldable pub identified : Read Bytes → Read Bytes
unfolding encode_base64 all_one_byte
identified (raw, faults) =
    if is_empty raw
    then ([], faults)
    else if all_one_byte raw
    then ([], faults ++ fault file_id_key repeated_byte)
    else (encode_base64 raw, faults)

unfoldable pub file_id : Values → Read Bytes
file_id values = identified (read_bytes values file_id_key file_id_size)

-- The password parameters, of the four values read.
unfoldable pub password_of : Read Bytes → Read ℕ → Read ℕ → Read ℕ → Read (Option PasswordParams)
password_of (salt, f) (memory, g) (iterations, h) (parallelism, k) = (
  some (record {
    salt = salt;
    memory_ki_b = memory;
    iterations = iterations;
    parallelism = parallelism;
  }),
  f
      ++ (g
          ++ (h
              ++ (k
                  ++ (if memory == 0 || (iterations == 0 || parallelism == 0)
                      then fault password_salt_key argon_parameters
                      else [])))),
)

-- They are read where the salt is there and is not empty.
unfoldable pub password_params : Values → Read (Option PasswordParams)
password_params values = elim (values password_salt_key) [
  | none ↦ (none, [])
  | some given ↦
      if is_empty given
      then (none, [])
      else password_of (read_bytes values password_salt_key salt_size)
          (uint32_value values (codes "argon2MemoryKiB"))
          (uint32_value values (codes "argon2Iterations"))
          (uint8_value values (codes "argon2Parallelism"))
]

-- `time.Duration(seconds) * time.Second`: the product wraps at 64 bits.
unfoldable pub duration : ℤ → ℤ
duration s = wrap64 (pos_part s * second)

-- The part of `newRow` that reads the values: the row but for its deadline.
unfoldable pub read_row : Policy → Values → Bytes → ℤ → ℕ → Read Upload
read_row p values at_rest size now =
    let (id, f₁) = file_id values in
    let (wrapped_key, f₂) = read_bytes values (codes "wrappedFileKey") wrapped_file_key_size in
    let (wrap_nonce, f₃) = read_bytes values (codes "wrapNonce") nonce_size in
    let (envelope, f₄) = read_blob values (codes "metadataEnvelope") in
    let (envelope_nonce, f₅) = read_bytes values (codes "metadataNonce") nonce_size in
    let (auth_hash, f₆) = read_bytes values (codes "authTokenHash") digest_size in
    let (owner_hash, f₇) = read_bytes values (codes "ownerTokenHash") digest_size in
    let (max_downloads, f₈) = integer values (codes "maxDownloads") p.default_max_downloads in
    let (password, f₉) = password_params values in
    (
      record {
        id = id;
        wrapped_file_key = wrapped_key;
        wrap_nonce = wrap_nonce;
        metadata_envelope = envelope;
        metadata_nonce = envelope_nonce;
        auth_token_hash = auth_hash;
        owner_token_hash = owner_hash;
        at_rest_key = at_rest;
        password = password;
        size = size;
        created_at = now;
        expires_at = 0;
        max_downloads = pos max_downloads;
        download_count = 0;
        bytes_served = 0;
        completed_at = 0;
      },
      f₁ ++ (f₂ ++ (f₃ ++ (f₄ ++ (f₅ ++ (f₆ ++ (f₇ ++ (f₈ ++ f₉))))))),
    )

-- An error of the policy is answered under a code of its own.
unfoldable pub as_retention {ℓ} : {A : Type ℓ} → Result A → Result A
as_retention (ok a) = ok a
as_retention (err e) = err retention

-- `newRow` with the generated at-rest key, the declared size, and the instant.
unfoldable pub new_row : Policy → Result Bytes → Values → ℤ → ℕ → Result Upload
new_row p fresh_key values size now = do
  at_rest ← fresh_key
  let (u, faults) = read_row p values at_rest size now
  let (ttl, ttl_faults) = integer64 values ttl_key (pos 0)
  expires ← as_retention (resolve_expiry p now (duration ttl))
  as_retention (ensure_bounded p expires u.max_downloads)
  refuse_if (not (is_empty (faults ++ ttl_faults))) invalid_metadata
  ok (record u { expires_at = expires })
