-- ===== src/Ratelimit/Limiter.antt =====
-- internal/ratelimit/ratelimit.go: the token bucket limiter, and password.go, which is this limiter
-- keyed by upload. Each method holds the mutex throughout, so it is one step on the map of buckets.
-- A clock reading is a number of nanoseconds.
use sendan.Prelude.{
  ℕ, suc, ◌+◌, Bool, true, false, not, Option, none, some, List, [], ◌∷◌, Bytes, bytes_eq, ltb,
  if◌then◌else◌, length,
}
use sendan.Prelude.Int.{ℤ, pos, sub_ℕ}
use sendan.Ratelimit.Float.{Float}

-- Ten minutes.
abbrev pub default_idle : ℕ
default_idle = 600_000_000_000

module _ (f : Float) where
  open f use {
    Value, zero_value, one_value, less, least, plus, minus, times, divide, seconds, to_duration,
  }

  pub record Bucket : Type 0 where
    pub tokens : Value
    pub seen : ℕ

  -- The fields of `Limiter` that do not change, with `Config`'s.
  pub record Limits : Type 0 where
    pub rate : Value
    pub burst : Value
    pub idle : ℕ

  abbrev pub Buckets : Type 0
  Buckets = List (Bytes × Bucket)

  unfoldable pub lookup : Bytes → Buckets → Option Bucket
  lookup k [] = none
  lookup k ((j, b) ∷ m) = if bytes_eq j k then some b else lookup k m

  unfoldable pub insert : Bytes → Bucket → Buckets → Buckets
  insert k b [] = (k, b) ∷ []
  insert k b ((j, c) ∷ m) = if bytes_eq j k then (k, b) ∷ m else (j, c) ∷ insert k b m

  unfoldable pub remove : Bytes → Buckets → Buckets
  remove k [] = []
  remove k ((j, b) ∷ m) = if bytes_eq j k then remove k m else (j, b) ∷ remove k m

  -- `New`: an idle time that is not positive is the default.
  unfoldable pub new_limits : Value → Value → ℕ → Limits
  new_limits rate burst idle = record {
    rate = rate;
    burst = burst;
    idle = if ltb 0 idle then idle else default_idle;
  }

  -- The bucket that `AllowN` charges: a full one, or the stored one refilled for the time passed.
  unfoldable pub refilled : Limits → ℕ → Option Bucket → Bucket
  refilled l now none = record { tokens = l.burst; seen = now }
  refilled l now (some b) = record {
    tokens =
        if ltb b.seen now
        then least l.burst (plus b.tokens (times (seconds (sub_ℕ now b.seen)) l.rate))
        else b.tokens;
    seen = now;
  }

  unfoldable pub allow_n : Limits → ℕ → Bytes → Value → Buckets → Buckets × Bool
  allow_n l now k n m =
      if not (less zero_value l.burst)
      then (m, false)
      else let b = refilled l now (lookup k m) in
        if less b.tokens n
        then (insert k b m, false)
        else (insert k (record b { tokens = minus b.tokens n }) m, true)

  unfoldable pub allow : Limits → ℕ → Bytes → Buckets → Buckets × Bool
  allow l now k m = allow_n l now k one_value m

  unfoldable pub retry : Limits → ℕ → Bytes → Buckets → ℤ
  retry l now k m = if not (less zero_value l.rate) then pos l.idle else elim (lookup k m) [
    | none ↦ pos 0
    | some b ↦
        let tokens = least l.burst (plus b.tokens (times (seconds (sub_ℕ now b.seen)) l.rate)) in
        if not (less tokens one_value)
        then pos 0
        else to_duration (divide (minus one_value tokens) l.rate)
  ]

  unfoldable pub forget : Bytes → Buckets → Buckets
  unfolding remove
  forget k m = remove k m

  -- What is left, and how many were removed.
  unfoldable pub sweep : Limits → ℕ → Buckets → Buckets × ℕ
  sweep l now [] = ([], 0)
  sweep l now ((j, b) ∷ m) =
      let (kept, removed) = sweep l now m in
      if ltb (b.seen + l.idle) now then (kept, suc removed) else ((j, b) ∷ kept, removed)

  unfoldable pub len : Buckets → ℕ
  len m = length m
