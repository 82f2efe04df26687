-- ===== src/Ratelimit/Float.antt =====
-- float64 and `time.Duration.Seconds`, as a parameter: the operations that the limiter uses, and the
-- order facts that hold of them on values that are not NaN.
use sendan.Prelude.{ℕ, ◌+◌, ◌-◌, ◌*◌, ◌/◌, ◌≡◌, Bool, false, ltb, min, arith}
use sendan.Prelude.Int.{ℤ, pos, pos_part}

pub record Float : Type 1 where
  pub Value : Type 0
  pub zero_value : Value
  pub one_value : Value
  pub less : Value → Value → Bool
  pub least : Value → Value → Value
  pub plus : Value → Value → Value
  pub minus : Value → Value → Value
  pub times : Value → Value → Value
  pub divide : Value → Value → Value
  -- `Duration.Seconds`, of nanoseconds, and the conversion of a number of seconds back.
  pub seconds : ℤ → Value
  pub to_duration : Value → ℤ
  -- A minimum is no larger than its first argument.
  pub least-le : (a b : Value) → less a (least a b) ≡ false
  -- Taking away what is not negative does not enlarge.
  pub minus-le : (a b : Value) → less b zero_value ≡ false → less a (minus a b) ≡ false
  pub le_trans : (a b c : Value) → less b a ≡ false → less c b ≡ false → less c a ≡ false
  pub le_refl : (a : Value) → less a a ≡ false

pub least_nat : (a b : ℕ) → ltb a (min a b) ≡ false
least_nat a b = ground arith

pub minus_nat : (a b : ℕ) → ltb b 0 ≡ false → ltb a (a - b) ≡ false
minus_nat a b h = ground arith

pub trans_nat : (a b c : ℕ) → ltb b a ≡ false → ltb c b ≡ false → ltb c a ≡ false
trans_nat a b c h k = ground arith

pub refl_nat : (a : ℕ) → ltb a a ≡ false
refl_nat a = ground arith

-- A value: whole tokens.
abbrev pub whole : Float
whole = record {
  Value = ℕ;
  zero_value = 0;
  one_value = 1;
  less = ltb;
  least = min;
  plus = ◌+◌;
  minus = ◌-◌;
  times = ◌*◌;
  divide = ◌/◌;
  seconds = λ d. pos_part d / 1_000_000_000;
  to_duration = λ v. pos (v * 1_000_000_000);
  least-le = least_nat;
  minus-le = minus_nat;
  le_trans = trans_nat;
  le_refl = refl_nat;
}
