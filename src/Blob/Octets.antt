-- ===== src/Blob/Octets.antt =====
-- Big-endian octets of a fixed width: they are determined by the number that they spell.
use sendan.Prelude.{
  ℕ, zero, suc, ◌+◌, ◌*◌, ◌/◌, ◌%◌, ◌^◌, ◌<◌, ◌≤◌, ◌≡◌, refl, sym, ap, ◌∙◌, [], ◌∷◌, Bytes, length,
  arith,
}
use mathlib.Core.Path.{ap₂}
use native.Mathlib.Nat.{pow-suc}
use sendan.Blob.Counter.{be_value, IsOctets, be_value-lt, increment_counter, increment_counter_lem}

unfoldable pub be_octets : ℕ → ℕ → Bytes
be_octets zero v = []
be_octets (suc w) v = v / 256 ^ w ∷ be_octets w (v % 256 ^ w)

pow_pos : (w : ℕ) → 1 ≤ 256 ^ w
pow_pos zero = omega arith
pow_pos (suc w) = rw (pow-suc 256 w) (omega (arith, pow_pos w))

pub length-be_octets : (w v : ℕ) → length (be_octets w v) ≡ w
unfolding be_octets
length-be_octets zero v = refl
length-be_octets (suc w) v = ap suc (length-be_octets w (v % 256 ^ w))

remainder-lt : (v p : ℕ) → 1 ≤ p → v % p < p
remainder-lt v p h = grind arith

top_octet : (v p : ℕ) → 1 ≤ p → v < p * 256 → (v / p < 256) × (v % p < p) × (v / p * p + v % p ≡ v)
top_octet v p h k = grind arith

pub be_octets-IsOctets : (w v : ℕ) → v < 256 ^ w → IsOctets (be_octets w v)
unfolding be_octets
be_octets-IsOctets zero v h = tt
be_octets-IsOctets (suc w) v h =
    let (top, rest, _) = top_octet v (256 ^ w) (pow_pos w) (rw (pow-suc 256 w) at h) in
    (top, be_octets-IsOctets w (v % 256 ^ w) rest)

pub be_value-be_octets : (w v : ℕ) → v < 256 ^ w → be_value (be_octets w v) ≡ v
unfolding be_octets be_value
be_value-be_octets zero v h = omega arith
be_value-be_octets (suc w) v h =
    let (top, rest, whole) = top_octet v (256 ^ w) (pow_pos w) (rw (pow-suc 256 w) at h) in
    rw (length-be_octets w (v % 256 ^ w), be_value-be_octets w (v % 256 ^ w) rest) whole

digits_equal : (c d v w p : ℕ) → v < p → w < p → c * p + v ≡ d * p + w → (c ≡ d) × (v ≡ w)
digits_equal c d v w p h k e =
    let first : c ≡ d = grind arith in (first, omega (arith, ap (λ (t : ℕ). t * p) first))

pub be_value-injective :
    (a b : Bytes) → IsOctets a → IsOctets b → length a ≡ length b → be_value a ≡ be_value b → a ≡ b
unfolding be_value
be_value-injective [] [] ha hb l e = refl
be_value-injective [] (d ∷ b) ha hb l e = absurd (omega arith)
be_value-injective (c ∷ a) [] ha hb l e = absurd (omega arith)
be_value-injective (c ∷ a) (d ∷ b) ha hb l e =
    let same : length a ≡ length b = omega arith in
    let (first, rest) =
      digits_equal c d (be_value a) (be_value b) (256 ^ length b) (rw same at (be_value-lt a ha.1))
        (be_value-lt b hb.1) (rw same at e) in
    ap₂ (λ x (xs : Bytes). x ∷ xs) first (be_value-injective a b ha.1 hb.1 same rest)

-- `incrementCounter` is addition modulo the counter's width: the result is the counter of the same
-- width that spells the sum, octet by octet.
pub increment_counter-be_octets :
    (counter : Bytes) (n : ℕ)
    → IsOctets counter
    → increment_counter counter n
      ≡ be_octets (length counter) ((be_value counter + n) % 256 ^ length counter)
increment_counter-be_octets counter n h =
    let (value, size, octets) = increment_counter_lem counter n h in
    let fits =
      remainder-lt (be_value counter + n) (256 ^ length counter) (pow_pos (length counter)) in
    be_value-injective _ _ octets (be_octets-IsOctets (length counter) _ fits)
      (size ∙ sym (length-be_octets (length counter) _))
      (value ∙ sym (be_value-be_octets (length counter) _ fits))
