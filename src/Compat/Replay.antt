-- ===== src/Compat/Replay.antt =====
-- What a request presented is good for one request, and a client that knows the key is not locked out.
use mathlib.Core.Option
use sendan.Prelude.{
  ◌≡◌, refl, sym, ap, ◌∙◌, ◌≢◌, Bool, true, false, Option, none, some, List, [], ◌∷◌, ◌++◌, Bytes,
  bytes_eq_refl, is_empty, All,
}
use sendan.Compat.Rows.{CompatUpload, CompatTable, find_compat, update_compat, set_nonce}
use sendan.Compat.Auth.{
  Library, AuthCalls, refused, granted, proves, authenticate, presented_authenticator,
  expected_authenticator, decode_b64, cut_space, scheme, or_else,
}
use sendan.Compat.Lookup.{find_compat-update_self}
use sendan.Compat.Granting.{
  set_nonce-id, compat_row_found, rotate_found, found_after, granted_how, refused_unproven,
  proves_other, authenticate_read, after_rotation,
}

-- The calls of a request that meets no failure.
abbrev pub calm : Bytes → AuthCalls
calm next = record { read_fails = false; fresh = some next; rotate_fails = false }

module _ (lib : Library) where
  -- The header of a client that knows a key, for a nonce.
  unfoldable pub sign : Bytes → Bytes → Bytes
  sign key nonce = scheme ++ b' ' ∷ lib.encode_raw_url (expected_authenticator lib key nonce)

  -- A header that was granted once is refused when it comes again, and the nonce to sign instead is
  -- offered; the table is as the first request left it. The MACs of the old nonce and the fresh one
  -- under the stored key differ, and the second read succeeds.
  pub authenticate-replayed :
      (calls again : AuthCalls) (header id : Bytes) (rows : CompatTable) (c : CompatUpload)
      → (authenticate lib calls header id rows).1.1 ≡ granted c
      → again.read_fails ≡ false
      → ((old : CompatUpload)
          → find_compat id rows ≡ some old
          → lib.hmac old.auth_key c.nonce ≢ lib.hmac old.auth_key old.nonce)
      → let after = (authenticate lib calls header id rows).0 in
        authenticate lib again header id after ≡ (after, (some c.nonce, refused 401))
  unfolding expected_authenticator
  authenticate-replayed calls again header id rows c e reads differ =
      let g = granted_how lib calls header id rows c e in
      let after = (authenticate lib calls header id rows).0 in
      let found = found_after lib calls header id rows after _ c g in
      let key_same : c.auth_key ≡ g.row.auth_key = ap (λ x. x.auth_key) g.shows in
      refused_unproven lib again header id after c found reads (
        proves_other lib header c (lib.hmac g.row.auth_key g.row.nonce) g.signed
          (λ same. differ g.row g.found (ap (λ k. lib.hmac k c.nonce) (sym key_same) ∙ same)))

  pub signed_value : (value : Bytes) → cut_space (scheme ++ b' ' ∷ value) ≡ some (scheme, value)
  unfolding cut_space
  signed_value value = refl

  presented_value :
      (header value : Bytes)
      → cut_space header ≡ some (scheme, value)
      → presented_authenticator lib header ≡ decode_b64 lib value
  unfolding presented_authenticator
  presented_value header value e = rw (presented_authenticator, e, lib.equal_fold_refl scheme) refl

  decode_b64-encode :
      (key nonce : Bytes)
      → decode_b64 lib (lib.encode_raw_url (lib.hmac key nonce)) ≡ some (lib.hmac key nonce)
  unfolding decode_b64 or_else
  decode_b64-encode key nonce =
      let mac = lib.hmac key nonce in
      rw
        (
          decode_b64,
          lib.trim_space-encode mac,
          lib.decode-encode mac (lib.hmac-IsOctets key nonce),
          or_else,
        )
        refl

  pub sign-presented :
      (key nonce : Bytes)
      → presented_authenticator lib (sign key nonce) ≡ some (expected_authenticator lib key nonce)
  unfolding sign expected_authenticator
  sign-presented key nonce =
      let value = lib.encode_raw_url (lib.hmac key nonce) in
      presented_value (scheme ++ b' ' ∷ value) value (signed_value value)
      ∙ decode_b64-encode key nonce

  proves-sign : (c : CompatUpload) → proves lib (sign c.auth_key c.nonce) c ≡ true
  unfolding proves
  proves-sign c =
      rw (proves, sign-presented c.auth_key c.nonce)
        (bytes_eq_refl (expected_authenticator lib c.auth_key c.nonce))

  pub signed-granted :
      (next id : Bytes) (rows : CompatTable) (c : CompatUpload)
      → find_compat id rows ≡ some c
      → is_empty next ≡ false
      → authenticate lib (calm next) (sign c.auth_key c.nonce) id rows
        ≡ (update_compat id (set_nonce next) rows, (some next, granted (record c { nonce = next })))
  signed-granted next id rows c found filled =
      authenticate_read lib (calm next) (sign c.auth_key c.nonce) id rows c true
        (compat_row_found id rows c found) (proves-sign c)
      ∙ ap (after_rotation lib next c rows) (rotate_found id next rows c found filled)

  -- A client that signs, in each request, the nonce that the answer before offered; `offer` is the one
  -- it has. The list is the random bytes that the requests draw, and the result whether all of them
  -- were granted.
  unfoldable pub all_granted : Bytes → Bytes → List Bytes → Option Bytes → CompatTable → Bool
  all_granted key id [] offer rows = true
  all_granted key id (next ∷ rest) none rows = false
  all_granted key id (next ∷ rest) (some nonce) rows =
      let (after, (offered, verdict)) = authenticate lib (calm next) (sign key nonce) id rows in
      let more = all_granted key id rest offered after in
      elim verdict [ refused status ↦ false | granted c ↦ more ]

  abbrev pub Filled : List Bytes → Type 0
  Filled = All (λ n. is_empty n ≡ false)

  all_granted_step :
      (key id next nonce : Bytes) (rest : List Bytes) (rows after : CompatTable)
      (offered : Option Bytes) (c : CompatUpload)
      → authenticate lib (calm next) (sign key nonce) id rows ≡ (after, (offered, granted c))
      → all_granted key id (next ∷ rest) (some nonce) rows ≡ all_granted key id rest offered after
  unfolding all_granted
  all_granted_step key id next nonce rest rows after offered c e =
      ap
        (λ x. elim x.1.1 as (λ v. Bool) [
          | refused status ↦ false
          | granted _ ↦ all_granted key id rest x.1.0 x.0
        ])
        e

  found_rotated :
      (next id : Bytes) (rows : CompatTable) (c : CompatUpload)
      → find_compat id rows ≡ some c
      → find_compat id (update_compat id (set_nonce next) rows) ≡ some (record c { nonce = next })
  unfolding set_nonce
  found_rotated next id rows c found =
      find_compat-update_self id (set_nonce next) (set_nonce-id next) rows
      ∙ ap (Option.map (set_nonce next)) found

  granted_rest :
      (key id : Bytes) (draws : List Bytes) (rows : CompatTable) (c : CompatUpload)
      → find_compat id rows ≡ some c
      → c.auth_key ≡ key
      → Filled draws
      → all_granted key id draws (some c.nonce) rows ≡ true
  unfolding all_granted
  granted_rest key id [] rows c found same h = refl
  granted_rest key id (next ∷ rest) rows c found same h =
      let after = update_compat id (set_nonce next) rows in
      let c' : CompatUpload = record c { nonce = next } in
      all_granted_step key id next c.nonce rest rows after (some next) c' (
        ap (λ k. authenticate lib (calm next) (sign k c.nonce) id rows) (sym same)
        ∙ signed-granted next id rows c found h.0)
      ∙ granted_rest key id rest after c' (found_rotated next id rows c found) same h.1

  -- A client that knows the stored key is never locked out: a first request that proves nothing, such
  -- as one without a header, is refused and told the nonce; when each further request signs the nonce
  -- that the answer before offered, all of them are granted, any number of them. The upload's row is
  -- there and can be read, the rotations succeed, and the random bytes are not empty.
  pub offered-granted :
      (calls : AuthCalls) (header id : Bytes) (rows : CompatTable) (c : CompatUpload)
      (draws : List Bytes)
      → find_compat id rows ≡ some c
      → calls.read_fails ≡ false
      → proves lib header c ≡ false
      → Filled draws
      → let (after, (offered, verdict)) = authenticate lib calls header id rows in
        (verdict ≡ refused 401) × (all_granted c.auth_key id draws offered after ≡ true)
  offered-granted calls header id rows c draws found reads wrong h =
      let first = refused_unproven lib calls header id rows c found reads wrong in
      (
        ap (λ x. x.1.1) first,
        ap (λ x. all_granted c.auth_key id draws x.1.0 x.0) first
            ∙ granted_rest c.auth_key id draws rows c found refl h,
      )
