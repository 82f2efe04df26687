-- ===== src/Prelude/Errors.antt =====
-- The errors of the packages as values, and the results of fallible code. `fmt.Errorf("...: %w", e)`
-- keeps what `errors.Is` sees, so a wrapped error is the error itself.
use mathlib.Core.Path.{◌≡◌, refl}
use mathlib.Core.Logic.{◌⊎◌, inl, inr}
use mathlib.Core.Bool.{Bool, true, false}

pub data Error : Type 0 where
  -- internal/store
  not_found conflict invalid negative_count : Error
  master_key_size wrong_master_key bad_key_format no_master_key : Error
  -- internal/blob
  blob_not_found offset_mismatch invalid_id bad_at_rest_key negative_offset : Error
  -- internal/upload
  ttl_too_long infinite_ttl_not_allowed unbounded not_owner unauthorized : Error
  too_many_attempts size_required too_large invalid_length upload_exists : Error
  invalid_metadata retention tus_not_found tus_mismatch_offset : Error
  -- internal/crypto
  key_material bad_unwrap bad_content bad_metadata after_close eof : Error
  -- internal/compat
  bad_header bad_authorization no_metadata text_frame : Error
  -- a failure of the operating system, the database driver or the network
  io_failure : Error

pub data Result {ℓ} (A : Type ℓ) : Type ℓ where
  ok : A → Result A
  err : Error → Result A

abbrev pub is_ok {ℓ} : {A : Type ℓ} → Result A → Bool
is_ok (ok a) = true
is_ok (err e) = false

-- `errors.Is(e, ...)` for the sentinels that the code branches on.
abbrev pub is_not_found : Error → Bool
is_not_found not_found = true
is_not_found _ = false

-- The rest of a function after a call, which an error ends.
infixl 5 ◌>>=◌
abbrev pub ◌>>=◌ {ℓ κ} :
    {A : Type ℓ} {B : Type κ} (call : Result A) (rest : A → Result B) → Result B
err e >>= rest = err e
ok a >>= rest = rest a

infixl 5 ◌>>◌
abbrev pub ◌>>◌ {ℓ} : {B : Type ℓ} (check : Result (Unit {0})) (rest : Result B) → Result B
check >> rest = check >>= λ _. rest

-- `if bad { return err }`
abbrev pub refuse_if : Bool → Error → Result (Unit {0})
refuse_if true e = err e
refuse_if false e = ok tt

pub Result-cases {ℓ} :
    {A : Type ℓ} (r : Result A) → ((a : A) × (r ≡ ok a)) ⊎ ((e : Error) × (r ≡ err e))
Result-cases (ok a) = inl (a, refl)
Result-cases (err e) = inr (e, refl)

pub ok-injective {ℓ} : {A : Type ℓ} (a b : A) → ok a ≡ ok b → a ≡ b
ok-injective a b e = cc
