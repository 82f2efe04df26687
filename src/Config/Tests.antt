-- ===== src/Config/Tests.antt =====
-- The theorems on configurations at one like the default.
use sendan.Prelude.{
  ◌+◌, ◌*◌, ◌≤◌, ◌≡◌, refl, false, true, codes, none, some, [], ◌∷◌, Bytes, bytes_eq, replicate,
  arith,
}
use sendan.Prelude.Int.{pos}
use sendan.Store.Upload.{second}
use sendan.Store.Table.{Row, find_row}
use sendan.Ratelimit.Float.{whole}
use sendan.Upload.Attempts.{Attempts, limiter_attempts}
use sendan.Upload.Policy.{resolve_expiry}
use sendan.Upload.Service.{Faults, World, reap}
use sendan.Config.{Config, upload_policy, validate_config, validate_config-bounded}
use sendan.Config.Abandoning.{reap-abandoned}

abbrev config : Config
config = record {
  listen = codes ":8080";
  default_ttl = 86_400 * second;
  max_ttl = 604_800 * second;
  allow_infinite_ttl = false;
  require_limit = true;
  incomplete_ttl = 86_400 * second;
  default_max_downloads = 0;
  rate_limit = 120;
  rate_burst = 20;
}

validate_config-bounded_example :
    (5 + 1 ≤ 5 + 60 * second) × (5 + 60 * second ≤ 5 + 604_800 * second)
unfolding validate_config resolve_expiry upload_policy
validate_config-bounded_example =
    validate_config-bounded config 5 (pos (60 * second)) (5 + 60 * second) refl refl refl

abbrev tries : Attempts
tries = limiter_attempts whole (record { rate = 1; burst = 3; idle = 600 * second })

abbrev digest : Bytes → Bytes
digest b = b

-- An upload begun at the fifth second, and not finished.
abbrev begun : Row
begun = record {
  id = codes "begun";
  wrapped_file_key = replicate 48 1;
  wrap_nonce = replicate 12 2;
  metadata_envelope = replicate 272 3;
  metadata_nonce = replicate 12 4;
  auth_token_hash = replicate 32 5;
  owner_token_hash = replicate 32 6;
  at_rest_key = replicate 32 7;
  password = none;
  size = 5;
  created_at = 5;
  expires_at = some 1_000_000;
  max_downloads = 2;
  download_count = 0;
  bytes_served = 0;
  completed_at = none;
}

-- Another whose row cannot be deleted.
abbrev stuck : Row
stuck = record begun { id = codes "stuck" }

abbrev faults : Bytes → Faults
faults id = record {
  row_fails = bytes_eq id (codes "stuck");
  blob_fails = true;
  partial_fails = true;
}

abbrev left : World tries digest
left = record { table = stuck ∷ begun ∷ []; files = λ _. none; attempts = none }

reap-abandoned_example :
    find_row
      (codes "begun")
      (reap tries digest false
        (λ _. false)
        faults
        (upload_policy config)
        (86_405 * second)
        100
        left).0.table
    ≡ none
unfolding validate_config find_row bytes_eq
reap-abandoned_example =
    reap-abandoned tries digest config faults (86_405 * second) 100 left (codes "begun") begun refl
      refl refl (omega arith) (omega arith) refl
