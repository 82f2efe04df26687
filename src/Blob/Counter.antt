-- ===== src/Blob/Counter.antt =====
-- internal/blob/shred.go: the counter block of the cipher stream.
use sendan.Prelude.{
  ℕ, suc, ◌+◌, ◌*◌, ◌/◌, ◌%◌, ◌^◌, ◌<◌, ◌≡◌, refl, ap, [], ◌∷◌, Bytes, All, length, arith, ltb,
  if◌then◌else◌,
}
use native.Mathlib.Nat.{pow-suc}

-- `blockOffset`: the AES block size is 16.
unfoldable pub block_offset : ℕ → ℕ × ℕ
block_offset position = (position / 16, position % 16)

-- One round of the loop of `incrementCounter`, on the octet and the carry.
unfoldable pub add_octet : ℕ → ℕ → ℕ × ℕ
add_octet c carry =
    let sum = c + carry % 256 in
    if ltb 0 carry then (sum % 256, carry / 256 + sum / 256) else (c, carry)

-- The loop from the last octet to the first: the octets after it, and the carry that is left.
unfoldable pub increment_loop : Bytes → ℕ → Bytes × ℕ
unfolding add_octet
increment_loop [] n = ([], n)
increment_loop (c ∷ cs) n =
    let (rest, carry) = increment_loop cs n in
    let (c', carry') = add_octet c carry in (c' ∷ rest, carry')

unfoldable pub increment_counter : Bytes → ℕ → Bytes
unfolding increment_loop
increment_counter counter n = (increment_loop counter n).0

-- The number that big-endian octets spell.
unfoldable pub be_value : Bytes → ℕ
be_value [] = 0
be_value (c ∷ cs) = c * 256 ^ length cs + be_value cs

abbrev pub IsOctets : Bytes → Type 0
IsOctets = All (λ c. c < 256)

length-increment : (cs : Bytes) (n : ℕ) → length (increment_loop cs n).0 ≡ length cs
unfolding increment_loop
length-increment [] n = refl
length-increment (c ∷ cs) n = ap suc (length-increment cs n)

add_octet_lem :
    (c carry : ℕ)
    → c < 256
    → let (c', carry') = add_octet c carry in (c' + 256 * carry' ≡ c + carry) × (c' < 256)
unfolding add_octet
add_octet_lem c carry h = ground arith

increment-IsOctets : (cs : Bytes) (n : ℕ) → IsOctets cs → IsOctets (increment_loop cs n).0
unfolding increment_loop
increment-IsOctets [] n h = tt
increment-IsOctets (c ∷ cs) n h =
    ((add_octet_lem c (increment_loop cs n).1 h.0).1, increment-IsOctets cs n h.1)

carry_step :
    (c c' carry carry' p v v' n : ℕ)
    → c' + 256 * carry' ≡ c + carry
    → v' + carry * p ≡ v + n
    → c' * p + v' + carry' * (p * 256) ≡ c * p + v + n
carry_step c c' carry carry' p v v' n e f = omega (arith, ap (λ (t : ℕ). t * p) e)

digit_below : (c v p : ℕ) → c < 256 → v < p → c * p + v < p * 256
digit_below c v p h k = grind arith

remainder_unique : (v carry p n : ℕ) → v < p → v + carry * p ≡ n → v ≡ n % p
remainder_unique v carry p n h e = grind arith

-- The octets and the carry together make the sum.
increment_sum :
    (cs : Bytes) (n : ℕ)
    → IsOctets cs
    → let (cs', carry) = increment_loop cs n in
      be_value cs' + carry * 256 ^ length cs ≡ be_value cs + n
unfolding increment_loop be_value
increment_sum [] n h = omega arith
increment_sum (c ∷ cs) n h =
    rw (length-increment cs n, pow-suc 256 (length cs))
      (carry_step c _ (increment_loop cs n).1 _ (256 ^ length cs) (be_value cs) _ n
        (add_octet_lem c (increment_loop cs n).1 h.0).0 (increment_sum cs n h.1))

pub be_value-lt : (cs : Bytes) → IsOctets cs → be_value cs < 256 ^ length cs
unfolding be_value
be_value-lt [] h = omega arith
be_value-lt (c ∷ cs) h =
    rw (pow-suc 256 (length cs))
      (digit_below c (be_value cs) (256 ^ length cs) h.0 (be_value-lt cs h.1))

-- `incrementCounter` adds to the number that the counter spells, modulo the counter's width, keeps
-- the width, and leaves octets.
pub increment_counter_lem :
    (counter : Bytes) (n : ℕ)
    → IsOctets counter
    → (be_value (increment_counter counter n) ≡ (be_value counter + n) % 256 ^ length counter)
      × (length (increment_counter counter n) ≡ length counter)
      × IsOctets (increment_counter counter n)
unfolding increment_counter
increment_counter_lem counter n h =
    let octets = increment-IsOctets counter n h in
    let below = be_value-lt (increment_loop counter n).0 octets in
    (
      remainder_unique _ (increment_loop counter n).1 (256 ^ length counter) _
          (rw (length-increment counter n) at below) (increment_sum counter n h),
      length-increment counter n,
      octets,
    )
