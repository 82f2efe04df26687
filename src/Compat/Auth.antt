-- ===== src/Compat/Auth.antt =====
-- internal/compat/auth.go: a request proves that it knows the stored key by a MAC of the stored nonce,
-- which is replaced whenever that succeeds.
use sendan.Prelude.{
  ℕ, ◌≡◌, Bool, false, true, not, Option, none, some, [], ◌∷◌, Bytes, bytes_eq, is_empty, codes,
  ◌==◌, if◌then◌else◌, Result, ok, err, is_not_found, bad_authorization,
}
use sendan.Blob.Counter.{IsOctets}
use sendan.Compat.Rows.{CompatUpload, CompatTable, compat_row, rotate_compat_nonce}

-- What the code calls of the standard library: HMAC-SHA256 of a message under a key, `strings.TrimSpace`
-- and `strings.EqualFold`, base64 in the URL alphabet without padding, and the decoders of its four variants
-- in the order they are tried.
pub record Library : Type 0 where
  pub hmac : Bytes → Bytes → Bytes
  pub trim_space : Bytes → Bytes
  pub equal_fold : Bytes → Bytes → Bool
  pub encode_raw_url : Bytes → Bytes
  pub decode_raw_url : Bytes → Option Bytes
  pub decode_url : Bytes → Option Bytes
  pub decode_raw_std : Bytes → Option Bytes
  pub decode_std : Bytes → Option Bytes
  pub hmac-IsOctets : (key message : Bytes) → IsOctets (hmac key message)
  pub equal_fold_refl : (s : Bytes) → equal_fold s s ≡ true
  pub schemes_differ : equal_fold (codes "send-v1") (codes "bearer") ≡ false
  pub trim_space-encode : (b : Bytes) → trim_space (encode_raw_url b) ≡ encode_raw_url b
  pub decode-encode : (b : Bytes) → IsOctets b → decode_raw_url (encode_raw_url b) ≡ some b

abbrev pub scheme : Bytes
scheme = codes "send-v1"

-- `strings.Cut(header, " ")`: the two parts, and none where there is no space.
unfoldable pub cut_space : Bytes → Option (Bytes × Bytes)
cut_space [] = none
cut_space (c ∷ cs) =
    let rest = cut_space cs in
    if c == b' '
    then some ([], cs)
    else elim rest [ none ↦ none | some (name, value) ↦ some (c ∷ name, value) ]

unfoldable pub or_else {ℓ} : {A : Type ℓ} → Option A → Option A → Option A
or_else (some a) other = some a
or_else none other = other

-- How a request is answered where it fails, or the state of the upload that it may use.
pub data Verdict : Type 0 where
  refused : ℕ → Verdict
  granted : CompatUpload → Verdict

-- What the calls of one authentication answer: whether the read fails, the random bytes unless they
-- cannot be had, and whether the rotation fails.
pub record AuthCalls : Type 0 where
  pub read_fails : Bool
  pub fresh : Option Bytes
  pub rotate_fails : Bool

module _ (lib : Library) where
  unfoldable pub decode_b64 : Bytes → Option Bytes
  unfolding or_else
  decode_b64 s =
      let t = lib.trim_space s in
      or_else (lib.decode_raw_url t)
        (or_else (lib.decode_url t) (or_else (lib.decode_raw_std t) (lib.decode_std t)))

  unfoldable pub expected_authenticator : Bytes → Bytes → Bytes
  expected_authenticator key nonce = lib.hmac key nonce

  -- The value of a header of this scheme, decoded.
  unfoldable pub presented_authenticator : Bytes → Option Bytes
  unfolding cut_space decode_b64
  presented_authenticator header = elim (cut_space header) [
    | none ↦ none
    | some (name, value) ↦ if lib.equal_fold name scheme then decode_b64 value else none
  ]

  -- `uploadAuthKey`
  unfoldable pub upload_auth_key : Bytes → Result Bytes
  unfolding cut_space decode_b64
  upload_auth_key header = elim (cut_space header) [
    | none ↦ err bad_authorization
    | some (name, value) ↦
        if not (lib.equal_fold name scheme)
        then err bad_authorization
        else elim (decode_b64 value) [
          | none ↦ err bad_authorization
          | some key ↦ if is_empty key then err bad_authorization else ok key
        ]
  ]

  -- `!ok || !hmac.Equal(...)`, negated.
  unfoldable pub proves : Bytes → CompatUpload → Bool
  proves header c = elim (presented_authenticator header) [
    | none ↦ false
    | some sig ↦ bytes_eq (expected_authenticator c.auth_key c.nonce) sig
  ]

  -- `authenticate`: the rows it leaves, the nonce that the answer offers if any, and the outcome.
  unfoldable pub authenticate :
      AuthCalls → Bytes → Bytes → CompatTable → CompatTable × (Option Bytes × Verdict)
  unfolding proves
  authenticate calls header id rows = elim (compat_row calls.read_fails id rows) [
    | err e ↦ (rows, (none, refused 404))
    | ok c ↦
        if not (proves header c) then (rows, (some c.nonce, refused 401)) else elim calls.fresh [
          | none ↦ (rows, (none, refused 500))
          | some next ↦ elim (rotate_compat_nonce calls.rotate_fails id next rows) [
            | err e ↦ (rows, (none, refused (if is_not_found e then 404 else 500)))
            | ok rotated ↦ (rotated, (some next, granted (record c { nonce = next })))
          ]
        ]
  ]
