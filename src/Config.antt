-- ===== src/Config.antt =====
-- internal/config/config.go: the rules for a configuration, and the retention policy that
-- cmd/sendan/main.go makes of it. The reader of durations and integers refuses negative values, so
-- these are numbers.
pub mod Abandoning
mod Tests
use sendan.Prelude.{
  ℕ, ◌+◌, ◌≤◌, ◌≡◌, Bool, true, false, not, ◌&&◌, List, [], ◌∷◌, ◌++◌, Bytes, is_empty,
  if◌then◌else◌, ltb, ◌==◌, arith, ok,
}
use sendan.Prelude.Int.{ℤ}
use sendan.Upload.Policy.{Policy, resolve_expiry, resolve_expiry_lem, incomplete_ttl_of}

-- The fields that the rules and the policy read.
pub record Config : Type 0 where
  pub listen : Bytes
  pub default_ttl : ℕ
  pub max_ttl : ℕ
  pub allow_infinite_ttl : Bool
  pub require_limit : Bool
  pub incomplete_ttl : ℕ
  pub default_max_downloads : ℕ
  pub rate_limit : ℕ
  pub rate_burst : ℕ

-- The messages of `validate`.
pub data Complaint : Type 0 where
  empty_listen unlimited_max_ttl unlimited_default_ttl : Complaint
  never_abandoned no_burst default_above_max : Complaint

unfoldable pub complain_if : Bool → Complaint → List Complaint
complain_if true c = c ∷ []
complain_if false c = []

-- `validate`: every rule that is broken is reported.
unfoldable pub validate_config : Config → List Complaint
unfolding complain_if
validate_config c =
    complain_if (is_empty c.listen) empty_listen
    ++ (complain_if (c.max_ttl == 0 && not c.allow_infinite_ttl) unlimited_max_ttl
        ++ (complain_if (c.default_ttl == 0 && not c.allow_infinite_ttl) unlimited_default_ttl
            ++ (complain_if (c.incomplete_ttl == 0) never_abandoned
                ++ (complain_if (ltb 0 c.rate_limit && c.rate_burst == 0) no_burst
                    ++ complain_if (ltb 0 c.max_ttl && ltb c.max_ttl c.default_ttl)
                        default_above_max))))

-- The policy that the server gives to the upload service.
unfoldable pub upload_policy : Config → Policy
upload_policy c = record {
  default_ttl = c.default_ttl;
  max_ttl = c.max_ttl;
  allow_infinite_ttl = c.allow_infinite_ttl;
  default_max_downloads = c.default_max_downloads;
  require_limit = c.require_limit;
  incomplete_ttl = c.incomplete_ttl;
}

-- The configured time is the one that the service works with.
pub accepted_abandoned :
    (c : Config) → validate_config c ≡ [] → incomplete_ttl_of (upload_policy c) ≡ c.incomplete_ttl
unfolding validate_config upload_policy incomplete_ttl_of
accepted_abandoned c accepted = ground arith

accepted_rules :
    (c : Config)
    → validate_config c ≡ []
    → c.allow_infinite_ttl ≡ false
    → (1 ≤ c.max_ttl) × (1 ≤ c.default_ttl) × (c.default_ttl ≤ c.max_ttl)
unfolding validate_config
accepted_rules c accepted finite = ground arith

-- Under a configuration without complaints that does not allow unlimited retention, whatever lifetime an
-- uploader asks for, a deadline that is granted lies in the future and no further away than the
-- longest lifetime that is configured.
pub validate_config-bounded :
    (c : Config) (now : ℕ) (requested : ℤ) (expires : ℕ)
    → validate_config c ≡ []
    → c.allow_infinite_ttl ≡ false
    → resolve_expiry (upload_policy c) now requested ≡ ok expires
    → (now + 1 ≤ expires) × (expires ≤ now + c.max_ttl)
unfolding upload_policy
validate_config-bounded c now requested expires accepted finite granted =
    let (longest, default, within) = accepted_rules c accepted finite in
    let bounds = resolve_expiry_lem (upload_policy c) now requested expires (λ _. within) granted in
    ground arith
