-- ===== src/Compat/Protecting.antt =====
-- internal/compat/password.go: who may set a password, and what that does to the credentials.
use mathlib.Core.Option
use mathlib.Core.Path.{subst}
use sendan.Prelude.{
  ℕ, ◌≡◌, refl, sym, ap, ◌∙◌, ◌≢◌, ◌⊎◌, inl, inr, Bool, false, Option, none, some, Bytes, bytes_eq,
  bytes_eq_iff, is_empty, ok, Bool-cases, Option-cases, Result-cases, if◌then◌else◌, is_not_found,
  arith,
}
use sendan.Store.Upload.{Upload}
use sendan.Upload.Attempts.{Attempts}
use sendan.Store.Table.{get, is_some}
use sendan.Compat.Rows.{
  CompatUpload, CompatTable, update_one, find_compat, update_compat, set_auth_key,
  set_compat_password,
}
use sendan.Compat.Auth.{Library, authenticate, refused, granted, decode_b64, expected_authenticator}
use sendan.Compat.Receiving.{CompatWorld}
use sendan.Compat.Serving.{Answer, plain, handle_password, with_rows}
use sendan.Compat.Lookup.{find_compat-update_self}
use sendan.Compat.Sound.{set_compat_password_ok}
use sendan.Compat.Granting.{refused_unproven, proves_other}
use sendan.Compat.Replay.{sign, calm, signed-granted, sign-presented}

set_auth_key-id : (key : Bytes) (c : CompatUpload) → (set_auth_key key c).id ≡ c.id
unfolding set_auth_key
set_auth_key-id key c = refl

module _ (tries : Attempts) (digest : Bytes → Bytes) (lib : Library) where
  -- A request that set a password: it carried a key, and a token that the owner's hash is of.
  pub record Protected (request : Option (Bytes × Bytes)) (get_fails : Bool) (id : Bytes) (now : ℕ)
      (c : CompatWorld tries digest) (o : CompatWorld tries digest × Answer) : Type 0 where
    pub auth : Bytes
    pub owner_token : Bytes
    pub key : Bytes
    pub upload : Upload
    pub carried : request ≡ some (auth, owner_token)
    pub decoded : decode_b64 lib auth ≡ some key
    pub filled : is_empty key ≡ false
    pub found : get get_fails id now c.world.table ≡ ok upload
    pub owned : digest owner_token ≡ upload.owner_token_hash
    pub comes :
        o ≡ (with_rows tries digest (update_compat id (set_auth_key key) c.rows) c, plain 200 none)

  abbrev Outcome : Type 0
  Outcome = CompatWorld tries digest × Answer

  -- Only the owner sets a password: a request either leaves everything as it was and is answered with an
  -- error, or it carried a key and the token whose hash is stored with the upload, which is live, and
  -- exactly the key and the mark of the row are replaced.
  pub handle_password_lem :
      (get_fails set_fails : Bool) (request : Option (Bytes × Bytes)) (id : Bytes) (now : ℕ)
      (c : CompatWorld tries digest)
      → let o = handle_password tries digest lib get_fails set_fails request id now c in
        ((status : ℕ) × (status ≢ 200) × (o ≡ (c, plain status none)))
        ⊎ Protected request get_fails id now c o
  unfolding handle_password
  handle_password_lem get_fails set_fails none id now c = inl (400, omega arith, refl)
  handle_password_lem get_fails set_fails (some (auth, owner)) id now c =
      elim (Option-cases (decode_b64 lib auth)) [
        | inl bad ↦ inl (400, omega arith, rw (handle_password, bad) refl)
        | inr (key, decoded) ↦ elim (Bool-cases (is_empty key)) [
          | inl nothing ↦ inl (400, omega arith, rw (handle_password, decoded, nothing) refl)
          | inr filled ↦ elim (Result-cases (get get_fails id now c.world.table)) [
            | inr (e, fails) ↦
                inl (404, omega arith, rw (handle_password, decoded, filled, fails) refl)
            | inl (u, found) ↦ elim (Bool-cases (bytes_eq (digest owner) u.owner_token_hash)) [
              | inr wrong ↦
                  inl (401, omega arith, rw (handle_password, decoded, filled, found, wrong) refl)
              | inl right ↦ elim (Result-cases (set_compat_password set_fails id key c.rows)) [
                | inr (e, fails) ↦ inl (
                  if is_not_found e then 404 else 500,
                  (λ same. absurd (ground (arith, same))),
                  rw (handle_password, decoded, filled, found, right, fails) refl,
                )
                | inl (rows, done) ↦
                    let (_, is) = set_compat_password_ok set_fails id key c.rows rows done in
                    inr (record {
                      auth = auth;
                      owner_token = owner;
                      key = key;
                      upload = u;
                      carried = refl;
                      decoded = decoded;
                      filled = filled;
                      found = found;
                      owned = (bytes_eq_iff (digest owner) u.owner_token_hash).0 right;
                      comes =
                          (rw (handle_password, decoded, filled, found, right, done) refl)
                          ∙ ap (λ x. (with_rows tries digest x c, plain 200 none)) is;
                    })
              ]
            ]
          ]
        ]
      ]

  set_compat_password-found :
      (id key : Bytes) (rows : CompatTable) (old : CompatUpload)
      → is_empty key ≡ false
      → find_compat id rows ≡ some old
      → set_compat_password false id key rows ≡ ok (update_compat id (set_auth_key key) rows)
  unfolding set_compat_password update_one is_some
  set_compat_password-found id key rows old filled known = ground arith

  -- The owner's request is carried out.
  handle_password-owner :
      (auth owner_token key id : Bytes) (now : ℕ) (c : CompatWorld tries digest) (u : Upload)
      (old : CompatUpload)
      → decode_b64 lib auth ≡ some key
      → is_empty key ≡ false
      → get false id now c.world.table ≡ ok u
      → digest owner_token ≡ u.owner_token_hash
      → find_compat id c.rows ≡ some old
      → handle_password tries digest lib false false (some (auth, owner_token)) id now c
        ≡ (with_rows tries digest (update_compat id (set_auth_key key) c.rows) c, plain 200 none)
  unfolding handle_password
  handle_password-owner auth owner_token key id now c u old decoded filled found owned known =
      let right = (bytes_eq_iff (digest owner_token) u.owner_token_hash).1 owned in
      let done = set_compat_password-found id key c.rows old filled known in
      rw (handle_password, decoded, filled, found, right, done) refl

  -- A request with the owner's token and a key succeeds on a live upload of this protocol, and replaces
  -- the credential: afterwards a client that signs with the old key is refused, and told the nonce, and
  -- one that signs with the new key is granted. The MACs under the two keys differ, and the calls of
  -- the store succeed.
  pub handle_password-locks :
      (auth owner_token key id next : Bytes) (now : ℕ) (c : CompatWorld tries digest) (u : Upload)
      (old : CompatUpload)
      → decode_b64 lib auth ≡ some key
      → is_empty key ≡ false
      → get false id now c.world.table ≡ ok u
      → digest owner_token ≡ u.owner_token_hash
      → find_compat id c.rows ≡ some old
      → lib.hmac key old.nonce ≢ lib.hmac old.auth_key old.nonce
      → is_empty next ≡ false
      → let (c', answer) =
          handle_password tries digest lib false false (some (auth, owner_token)) id now c in
        (answer ≡ plain 200 none)
        × ((authenticate lib (calm next) (sign lib old.auth_key old.nonce) id c'.rows)
            ≡ (c'.rows, (some old.nonce, refused 401)))
        × ((authenticate lib (calm next) (sign lib key old.nonce) id c'.rows).1.1
            ≡ granted (record (set_auth_key key old) { nonce = next }))
  unfolding with_rows expected_authenticator set_auth_key
  handle_password-locks auth owner_token key id next now c u old decoded filled found owned known
        differ fresh =
      let rows = update_compat id (set_auth_key key) c.rows in
      let new = set_auth_key key old in
      let comes =
        handle_password-owner auth owner_token key id now c u old decoded filled found owned
          known in
      let there : find_compat id rows ≡ some new =
        find_compat-update_self id (set_auth_key key) (set_auth_key-id key) c.rows
        ∙ ap (Option.map (set_auth_key key)) known in
      let wrong =
        proves_other lib (sign lib old.auth_key old.nonce) new (lib.hmac old.auth_key old.nonce)
          (sign-presented lib old.auth_key old.nonce) differ in
      let refusal =
        refused_unproven lib (calm next) (sign lib old.auth_key old.nonce) id rows new there refl
          wrong in
      let grant = signed-granted lib next id rows new there fresh in
      let rows_is : (handle_password tries digest lib false false (some (auth, owner_token)) id now
            c).0.rows
          ≡ rows =
        ap (λ y. y.0.rows) comes in
      (
        ap (λ y. y.1) comes,
        subst
            (λ r.
              authenticate lib (calm next) (sign lib old.auth_key old.nonce) id r
              ≡ (r, (some old.nonce, refused 401)))
            (sym rows_is) refusal,
        ap (λ r. (authenticate lib (calm next) (sign lib key old.nonce) id r).1.1) rows_is
            ∙ ap (λ y. y.1.1) grant,
      )
