-- ===== src/Upload/Attempts.antt =====
-- What internal/upload calls of internal/ratelimit/password.go, and the limiter that provides it.
use sendan.Prelude.{ℕ, ◌≡◌, ◌≢◌, Bool, Option, none, Bytes}
use sendan.Prelude.Int.{ℤ}
use sendan.Ratelimit.Float.{Float}
use sendan.Ratelimit.Limiter.{Bucket, Limits, Buckets, lookup, allow, retry, forget}
use sendan.Ratelimit.Buckets.{lookup-remove_self, lookup-remove_ne}

-- `PasswordAttempts`: `recall` is what it holds about an upload, if anything. The numbers are readings
-- of its clock.
pub record Attempts : Type 1 where
  pub State : Type 0
  pub Memory : Type 0
  pub allow_attempt : ℕ → Bytes → State → State × Bool
  pub retry_attempt : ℕ → Bytes → State → ℤ
  pub forget_upload : Bytes → State → State
  pub recall : Bytes → State → Option Memory
  pub forgotten : (id : Bytes) (s : State) → recall id (forget_upload id s) ≡ none
  pub kept_others :
      (id other : Bytes) (s : State)
      → other ≢ id
      → recall other (forget_upload id s) ≡ recall other s

pub forget_self : (f : Float) (id : Bytes) (m : Buckets f) → lookup f id (forget f id m) ≡ none
unfolding forget
forget_self f id m = lookup-remove_self f id m

pub forget_ne :
    (f : Float) (id other : Bytes) (m : Buckets f)
    → other ≢ id
    → lookup f other (forget f id m) ≡ lookup f other m
unfolding forget
forget_ne f id other m ne = lookup-remove_ne f id other m ne

-- The limiter of password.go.
abbrev pub limiter_attempts : (f : Float) → Limits f → Attempts
limiter_attempts f l = record {
  State = Buckets f;
  Memory = Bucket f;
  allow_attempt = allow f l;
  retry_attempt = retry f l;
  forget_upload = forget f;
  recall = lookup f;
  forgotten = forget_self f;
  kept_others = forget_ne f;
}
