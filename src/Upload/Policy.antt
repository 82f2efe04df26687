-- ===== src/Upload/Policy.antt =====
-- internal/upload/upload.go: the retention policy. Its durations are numbers of nanoseconds; those of
-- the configuration are not negative. A requested lifetime is an integer.
use sendan.Prelude.{
  ℕ, ◌+◌, ◌*◌, ◌≤◌, ◌≡◌, ◌⊎◌, Bool, true, not, ◌&&◌, Result, ok, err, ltb, ◌==◌, if◌then◌else◌,
  arith, unbounded, infinite_ttl_not_allowed, ttl_too_long,
}
use sendan.Prelude.Int.{ℤ, pos, pos_part, ltb_ℤ, is_negative}
use sendan.Store.Upload.{second}

pub record Policy : Type 0 where
  pub default_ttl : ℕ
  pub max_ttl : ℕ
  pub allow_infinite_ttl : Bool
  pub default_max_downloads : ℕ
  pub require_limit : Bool
  pub incomplete_ttl : ℕ

-- A day.
abbrev pub default_incomplete_ttl : ℕ
default_incomplete_ttl = 24 * (3600 * second)

unfoldable pub incomplete_ttl_of : Policy → ℕ
incomplete_ttl_of p = if ltb 0 p.incomplete_ttl then p.incomplete_ttl else default_incomplete_ttl

unfoldable pub ensure_bounded : Policy → ℕ → ℤ → Result (Unit {0})
ensure_bounded p expires max_downloads =
    if not p.require_limit
    then ok tt
    else if expires == 0 && not (ltb_ℤ (pos 0) max_downloads)
    then err unbounded
    else ok tt

-- `ResolveExpiry` at an instant: the deadline, and zero for none.
unfoldable pub resolve_expiry : Policy → ℕ → ℤ → Result ℕ
resolve_expiry p now requested =
    if is_negative requested
    then if not p.allow_infinite_ttl then err infinite_ttl_not_allowed else ok 0
    else if pos_part requested == 0
    then if p.default_ttl == 0
      then if not p.allow_infinite_ttl then err infinite_ttl_not_allowed else ok 0
      else ok (now + p.default_ttl)
    else if ltb 0 p.max_ttl && ltb p.max_ttl (pos_part requested)
    then err ttl_too_long
    else ok (now + pos_part requested)

-- What a policy promises of an accepted deadline: none at all only where the instance permits it, and
-- otherwise one that is in the future and no further away than the longest lifetime, where there is
-- a longest. The default lifetime is within the longest one, as the configuration requires.
pub resolve_expiry_lem :
    (p : Policy) (now : ℕ) (requested : ℤ) (expires : ℕ)
    → (1 ≤ p.max_ttl → p.default_ttl ≤ p.max_ttl)
    → resolve_expiry p now requested ≡ ok expires
    → ((expires ≡ 0) × (p.allow_infinite_ttl ≡ true))
      ⊎ ((now + 1 ≤ expires) × (1 ≤ p.max_ttl → expires ≤ now + p.max_ttl))
unfolding resolve_expiry
resolve_expiry_lem p now requested expires h e = ground arith

-- A positive lifetime is granted exactly or refused, never shortened.
pub resolve_expiry-exact :
    (p : Policy) (now n : ℕ) (expires : ℕ)
    → 1 ≤ n
    → resolve_expiry p now (pos n) ≡ ok expires
    → expires ≡ now + n
unfolding resolve_expiry
resolve_expiry-exact p now n expires h e = ground arith
