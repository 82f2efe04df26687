-- ===== src/Upload/Creation.antt =====
-- What `newRow` accepts: every row that it builds is one that both stores accept.
use mathlib.Core.Path.{subst}
use sendan.Prelude.{
  ℕ, suc, ◌+◌, ◌-◌, ◌*◌, ◌/◌, ◌%◌, ◌^◌, ◌<◌, ◌≤◌, ◌≡◌, refl, sym, ap, ◌∙◌, ◌≢◌, ◌⊎◌, true, false,
  Option, none, some, List, [], ◌∷◌, ◌++◌, Bytes, codes, all_bytes, is_empty, ok, length, arith,
  Bool-cases, Option-cases, inl, inr,
}
use sendan.Prelude.Int.{ℤ, pos, is_negative}
use sendan.Crypto.Aead.{tag_size, nonce_size}
use sendan.Store.Upload.{
  Upload, PasswordParams, second, complete, validate, validate_shared, incomplete_password,
}
use sendan.Blob.Names.{validate_id, is_id_char, id_length}
use sendan.Upload.Policy.{Policy, resolve_expiry, resolve_expiry-exact}
use sendan.Upload.Request.{
  Values, Reason, repeated_byte, fault, Fault, Read, read_bytes, read_blob, integer64, integer,
  base64_char, encode_base64, file_id, password_params, password_of, password_salt_key, identified,
  read_row, new_row, as_retention, duration, ttl_key, uint32_value, uint8_value, file_id_size,
  wrapped_file_key_size, digest_size, salt_size, all_one_byte, max_envelope, file_id_key,
}

base64_char-IsIdChar : (n : ℕ) → n < 64 → is_id_char (base64_char n) ≡ true
unfolding is_id_char base64_char
base64_char-IsIdChar n h = ground arith

sextet : (n : ℕ) → n % 64 < 64
sextet n = omega arith

char_ok : (n : ℕ) → is_id_char (base64_char (n % 64)) ≡ true
char_ok n = base64_char-IsIdChar (n % 64) (sextet n)

-- The encoding is made of the characters of identifiers.
pub encode_base64-chars : (bs : Bytes) → all_bytes is_id_char (encode_base64 bs) ≡ true
unfolding encode_base64 all_bytes
encode_base64-chars [] = refl
encode_base64-chars (a ∷ []) = rw (char_ok (a / 4), char_ok (a * 16)) refl
encode_base64-chars (a ∷ b ∷ []) =
    rw (char_ok (a / 4), char_ok (a * 16 + b / 16), char_ok (b * 4)) refl
encode_base64-chars (a ∷ b ∷ c ∷ rest) =
    rw
      (
        char_ok (a / 4),
        char_ok (a * 16 + b / 16),
        char_ok (b * 4 + c / 64),
        char_ok c,
        encode_base64-chars rest,
      )
      refl

length-encode_base64 : (bs : Bytes) → length (encode_base64 bs) ≡ (length bs * 4 + 2) / 3
unfolding encode_base64
length-encode_base64 [] = omega arith
length-encode_base64 (a ∷ []) = omega arith
length-encode_base64 (a ∷ b ∷ []) = omega arith
length-encode_base64 (a ∷ b ∷ c ∷ rest) = omega (arith, length-encode_base64 rest)

-- A value is read without a fault only at its exact size.
read_bytes_ok :
    (values : Values) (key : Bytes) (want : ℕ)
    → (read_bytes values key want).1 ≡ []
    → length (read_bytes values key want).0 ≡ want
unfolding read_bytes
read_bytes_ok values key want h = ground arith

read_blob_ok :
    (values : Values) (key : Bytes)
    → (read_blob values key).1 ≡ []
    → let v = (read_blob values key).0 in
      (tag_size < length v) × ((length v - tag_size) % 256 ≡ 0) × (length v ≤ max_envelope)
unfolding read_blob
read_blob_ok values key h = ground arith

append-empty {ℓ} : {A : Type ℓ} (xs ys : List A) → xs ++ ys ≡ [] → (xs ≡ []) × (ys ≡ [])
append-empty [] ys e = (refl, e)
append-empty (x ∷ xs) ys e = cc

not_empty : (bs : Bytes) (n : ℕ) → length bs ≡ suc n → is_empty bs ≡ false
not_empty [] n e = absurd (omega arith)
not_empty (b ∷ bs) n e = refl

is_empty_filled : (bs : Bytes) → 1 ≤ length bs → is_empty bs ≡ false
is_empty_filled [] h = absurd (omega arith)
is_empty_filled (b ∷ bs) h = refl

accepted_id :
    (raw : Bytes)
    → length raw ≡ file_id_size
    → (validate_id (encode_base64 raw) ≡ ok tt) × (length (encode_base64 raw) ≡ id_length)
unfolding validate_id
accepted_id raw size =
    let width : length (encode_base64 raw) ≡ id_length = omega (arith, length-encode_base64 raw) in
    (rw (width, encode_base64-chars raw) refl, width)

fault_filled : (key : Bytes) (reason : Reason) → fault key reason ≢ []
fault_filled key reason e = cc

identified_ok :
    (raw : Bytes) (faults : List Fault)
    → (identified (raw, faults)).1 ≡ []
    → (faults ≡ []) × ((raw ≡ []) ⊎ ((identified (raw, faults)).0 ≡ encode_base64 raw))
unfolding identified
identified_ok [] faults h = ground arith
identified_ok (b ∷ raw) faults h = elim (Bool-cases (all_one_byte (b ∷ raw))) [
  | inl repeated ↦
      let both = append-empty faults _ (rw repeated at h) in
      absurd (fault_filled file_id_key repeated_byte both.1)
  | inr varied ↦ (rw varied at h, inr (rw varied refl))
]

-- The identifier is that of an accepted blob.
file_id_ok :
    (values : Values)
    → (file_id values).1 ≡ []
    → (validate_id (file_id values).0 ≡ ok tt) × (length (file_id values).0 ≡ id_length)
unfolding file_id
file_id_ok values h =
    let raw = (read_bytes values file_id_key file_id_size).0 in
    let (read, named) = identified_ok raw _ h in
    let size = read_bytes_ok values file_id_key file_id_size read in
    elim named [
      | inl e ↦ absurd (omega (arith, size, ap length e))
      | inr e ↦
          subst (λ id. (validate_id id ≡ ok tt) × (length id ≡ id_length)) (sym e)
            (accepted_id raw size)
    ]

password_of_ok :
    (salt : Bytes) (f g h k : List Fault) (memory iterations parallelism : ℕ)
    → (f ≡ [] → length salt ≡ salt_size)
    → (password_of (salt, f) (memory, g) (iterations, h) (parallelism, k)).1 ≡ []
    → incomplete_password (password_of (salt, f) (memory, g) (iterations, h) (parallelism, k)).0
      ≡ false
unfolding password_of incomplete_password
password_of_ok salt f g h k memory iterations parallelism sized e =
    let (e₁, r₁) = append-empty f _ e in
    let (e₂, r₂) = append-empty g _ r₁ in
    let (e₃, r₃) = append-empty h _ r₂ in
    let (e₄, r₄) = append-empty k _ r₃ in let filled = not_empty salt 15 (sized e₁) in ground arith

password_given :
    (values : Values) (given : Bytes)
    → values password_salt_key ≡ some given
    → is_empty given ≡ false
    → password_params values
      ≡ password_of
          (read_bytes values password_salt_key salt_size)
          (uint32_value values (codes "argon2MemoryKiB"))
          (uint32_value values (codes "argon2Iterations"))
          (uint8_value values (codes "argon2Parallelism"))
unfolding password_params
password_given values given here filled = rw (password_params, here, filled) refl

password_absent :
    (values : Values)
    → (values password_salt_key ≡ none)
      ⊎ ((given : Bytes) × (values password_salt_key ≡ some given) × (is_empty given ≡ true))
    → password_params values ≡ (none, [])
unfolding password_params
password_absent values (inl absent) = rw (password_params, absent) refl
password_absent values (inr (given, here, empty)) = rw (password_params, here, empty) refl

abbrev IsUsable : Read (Option PasswordParams) → Type 0
IsUsable r = r.1 ≡ [] → incomplete_password r.0 ≡ false

password_ok : (values : Values) → IsUsable (password_params values)
unfolding incomplete_password
password_ok values = elim (Option-cases (values password_salt_key)) [
  | inl absent ↦ subst IsUsable (sym (password_absent values (inl absent))) (λ _. refl)
  | inr (given, here) ↦ elim (Bool-cases (is_empty given)) [
    | inl empty ↦
        subst IsUsable (sym (password_absent values (inr (given, here, empty)))) (λ _. refl)
    | inr filled ↦
        subst IsUsable (sym (password_given values given here filled))
          (password_of_ok _ _ _ _ _ _ _ _ (read_bytes_ok values password_salt_key salt_size))
  ]
]

-- What an accepted row fulfils, with the at-rest key that was generated for it.
pub record IsAccepted (key : Bytes) (u : Upload) : Type 0 where
  pub named : validate_id u.id ≡ ok tt
  pub native : length u.id ≡ id_length
  pub wrapped : length u.wrapped_file_key ≡ wrapped_file_key_size
  pub wrap_nonced : length u.wrap_nonce ≡ nonce_size
  pub enveloped :
      (tag_size < length u.metadata_envelope) × (length u.metadata_envelope ≤ max_envelope)
  pub envelope_nonced : length u.metadata_nonce ≡ nonce_size
  pub authenticated : length u.auth_token_hash ≡ digest_size
  pub owned : length u.owner_token_hash ≡ digest_size
  pub keyed : u.at_rest_key ≡ key
  pub protected : incomplete_password u.password ≡ false
  pub limited : is_negative u.max_downloads ≡ false

read_row_ok :
    (p : Policy) (values : Values) (key : Bytes) (size : ℤ) (now : ℕ)
    → (read_row p values key size now).1 ≡ []
    → IsAccepted key (read_row p values key size now).0
unfolding read_row
read_row_ok p values key size now h =
    let (e₁, r₁) = append-empty (file_id values).1 _ h in
    let (e₂, r₂) =
      append-empty (read_bytes values (codes "wrappedFileKey") wrapped_file_key_size).1 _ r₁ in
    let (e₃, r₃) = append-empty (read_bytes values (codes "wrapNonce") nonce_size).1 _ r₂ in
    let (e₄, r₄) = append-empty (read_blob values (codes "metadataEnvelope")).1 _ r₃ in
    let (e₅, r₅) = append-empty (read_bytes values (codes "metadataNonce") nonce_size).1 _ r₄ in
    let (e₆, r₆) = append-empty (read_bytes values (codes "authTokenHash") digest_size).1 _ r₅ in
    let (e₇, r₇) = append-empty (read_bytes values (codes "ownerTokenHash") digest_size).1 _ r₆ in
    let (e₈, e₉) =
      append-empty (integer values (codes "maxDownloads") p.default_max_downloads).1 _ r₇ in
    let (named, native) = file_id_ok values e₁ in
    let (above, padded, below) = read_blob_ok values (codes "metadataEnvelope") e₄ in
    record {
      named = named;
      native = native;
      wrapped = read_bytes_ok values (codes "wrappedFileKey") wrapped_file_key_size e₂;
      wrap_nonced = read_bytes_ok values (codes "wrapNonce") nonce_size e₃;
      enveloped = (above, below);
      envelope_nonced = read_bytes_ok values (codes "metadataNonce") nonce_size e₅;
      authenticated = read_bytes_ok values (codes "authTokenHash") digest_size e₆;
      owned = read_bytes_ok values (codes "ownerTokenHash") digest_size e₇;
      keyed = refl;
      protected = password_ok values e₉;
      limited = ground arith;
    }

new_row-cases :
    (p : Policy) (key : Bytes) (values : Values) (size : ℤ) (now : ℕ) (u : Upload)
    → new_row p (ok key) values size now ≡ ok u
    → ((read_row p values key size now).1 ≡ [])
      × (record (read_row p values key size now).0 { expires_at = u.expires_at } ≡ u)
      × (resolve_expiry p now (duration (integer64 values ttl_key (pos 0)).0) ≡ ok u.expires_at)
unfolding new_row as_retention
new_row-cases p key values size now u h =
    ground
      (arith, append-empty (read_row p values key size now).1 (integer64 values ttl_key (pos 0)).1)

read_row-given :
    (p : Policy) (values : Values) (key : Bytes) (size : ℤ) (now : ℕ)
    → let u = (read_row p values key size now).0 in
      (u.size ≡ size)
      × (u.created_at ≡ now)
      × (u.completed_at ≡ 0)
      × (u.bytes_served ≡ 0)
      × (u.download_count ≡ 0)
unfolding read_row
read_row-given p values key size now = (refl, refl, refl, refl, refl)

accepted-valid :
    (key : Bytes) (u : Upload)
    → 1 ≤ length key
    → is_negative u.size ≡ false
    → 1 ≤ u.created_at
    → IsAccepted key u
    → validate u ≡ ok tt
unfolding validate validate_shared
accepted-valid key u k s c a =
    rw
      (
        is_empty_filled u.wrapped_file_key (omega (arith, a.wrapped)),
        is_empty_filled u.wrap_nonce (omega (arith, a.wrap_nonced)),
        is_empty_filled u.metadata_envelope (omega (arith, a.enveloped.0)),
        is_empty_filled u.metadata_nonce (omega (arith, a.envelope_nonced)),
        is_empty_filled u.id (omega (arith, a.native)),
        is_empty_filled u.auth_token_hash (omega (arith, a.authenticated)),
        is_empty_filled u.owner_token_hash (omega (arith, a.owned)),
        is_empty_filled u.at_rest_key (omega (arith, k, ap length a.keyed)),
        a.protected,
      )
      ground arith

-- Every row that `newRow` builds is one that the metadata store accepts and whose identifier the blob
-- store accepts: its identifier is of the native length, its wrapped key, nonces and hashes have
-- their exact sizes, its envelope is larger than a tag and within the maximum, its password parameters
-- are complete, and it is not complete yet. The at-rest key is not empty, the size is not negative and the
-- clock is past the zero time.
pub new_row_lem :
    (p : Policy) (key : Bytes) (values : Values) (size : ℤ) (now : ℕ) (u : Upload)
    → 1 ≤ length key
    → is_negative size ≡ false
    → 1 ≤ now
    → new_row p (ok key) values size now ≡ ok u
    → (validate u ≡ ok tt)
      × (validate_id u.id ≡ ok tt)
      × IsAccepted key u
      × (u.size ≡ size)
      × (complete u ≡ false)
unfolding complete
new_row_lem p key values size now u k s n h =
    let (clean, same, _) = new_row-cases p key values size now u h in
    let built = read_row_ok p values key size now clean in
    let (sized, dated, unfinished, _, _) = read_row-given p values key size now in
    let accepted : IsAccepted key u = subst (IsAccepted key) same (record {
      named = built.named;
      native = built.native;
      wrapped = built.wrapped;
      wrap_nonced = built.wrap_nonced;
      enveloped = built.enveloped;
      envelope_nonced = built.envelope_nonced;
      authenticated = built.authenticated;
      owned = built.owned;
      keyed = built.keyed;
      protected = built.protected;
      limited = built.limited;
    }) in
    let size_is : u.size ≡ size = sym (ap Upload.size same) ∙ sized in
    let created : u.created_at ≡ now = sym (ap Upload.created_at same) ∙ dated in
    let open_still : u.completed_at ≡ 0 = sym (ap Upload.completed_at same) ∙ unfinished in
    (
      accepted-valid key u k (rw size_is s) (omega (arith, created, n)) accepted,
      accepted.named,
      accepted,
      size_is,
      rw open_still refl,
    )

-- A row is built with exactly the lifetime that was asked for, when that is a positive number of
-- seconds whose nanoseconds fit an int64: a request beyond the policy is refused, never shortened.
pub new_row-deadline :
    (p : Policy) (key : Bytes) (values : Values) (size : ℤ) (now n : ℕ) (u : Upload)
    → (integer64 values ttl_key (pos 0)).0 ≡ pos n
    → 1 ≤ n
    → n * second < 2 ^ 63
    → new_row p (ok key) values size now ≡ ok u
    → u.expires_at ≡ now + n * second
unfolding duration
new_row-deadline p key values size now n u asked positive fits h =
    let (_, _, resolved) = new_row-cases p key values size now u h in
    let exact : duration (pos n) ≡ pos (n * second) = ground arith in
    resolve_expiry-exact p now (n * second) u.expires_at (omega arith)
      (sym (ap (λ z. resolve_expiry p now z) (ap duration asked ∙ exact)) ∙ resolved)
