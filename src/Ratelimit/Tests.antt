-- ===== src/Ratelimit/Tests.antt =====
-- The theorems of the limiter with whole tokens: a burst of three, one each second.
use sendan.Prelude.{refl, ◌≢◌, [], ◌∷◌, codes, arith, ap, get_or}
use sendan.Ratelimit.Float.{whole}
use sendan.Ratelimit.Limiter.{Limits, Buckets, allow_n}
use sendan.Ratelimit.Buckets.{AllWithin, allow_n-AllWithin}

abbrev limits : Limits whole
limits = record { rate = 1; burst = 3; idle = 600_000_000_000 }

-- One key has a token left, another was last seen at the start.
abbrev buckets : Buckets whole
buckets =
    (codes "a", record { tokens = 1; seen = 5_000_000_000 })
    ∷ (codes "b", record { tokens = 3; seen = 0 })
    ∷ []

other_key : codes "b" ≢ codes "a"
other_key e = ground (arith, ap (λ xs. get_or xs 0 0) e)

allow_n-AllWithin_example :
    AllWithin whole limits (allow_n whole limits 900_000_000_000 (codes "a") 1 buckets).0
allow_n-AllWithin_example =
    allow_n-AllWithin whole limits 900_000_000_000 (codes "a") 1 buckets refl (refl, (refl, tt))
