-- ===== src/Crypto/Content/Nonces.antt =====
-- internal/crypto/content.go: the nonces of a stream's records.
use Prim.Native.Nat.{bit_xor}
use mathlib.Core.Path.{ap₂}
use sendan.Prelude.{
  ℕ, ◌^◌, ◌<◌, ◌≡◌, ◌≢◌, refl, sym, ap, ◌∙◌, [], ◌∷◌, Bytes, length, length-drop, length-take, take,
  drop, drop_of_append, get_or, arith,
}
use sendan.Prelude.Xor.{bit_xor_twice, bit_xor_comm}
use sendan.Blob.Counter.{IsOctets, be_value}
use sendan.Blob.Octets.{be_octets, length-be_octets, be_value-be_octets, be_octets-IsOctets}
use sendan.Crypto.Content.Headers.{drop-IsOctets}
use sendan.Crypto.Content.{ContentKeys, record_nonce, xor_bytes}

xor_same : (a b c : ℕ) → a < 256 → b < 256 → c < 256 → bit_xor a b ≡ bit_xor a c → b ≡ c
xor_same a b c ha hb hc e =
    sym (bit_xor_twice b a hb ha)
    ∙ ap (λ t. bit_xor t a) (bit_xor_comm b a hb ha ∙ e ∙ bit_xor_comm a c ha hc)
    ∙ bit_xor_twice c a hc ha

-- Octets that give the same under the same mask are the same.
xor_bytes-injective :
    (mask a b : Bytes)
    → IsOctets mask
    → IsOctets a
    → IsOctets b
    → length a ≡ length mask
    → length b ≡ length mask
    → xor_bytes mask a ≡ xor_bytes mask b
    → a ≡ b
unfolding xor_bytes
xor_bytes-injective [] [] [] hm ha hb la lb e = refl
xor_bytes-injective [] [] (y ∷ b) hm ha hb la lb e = absurd (omega (arith, lb))
xor_bytes-injective [] (x ∷ a) b hm ha hb la lb e = absurd (omega (arith, la))
xor_bytes-injective (m ∷ mask) [] b hm ha hb la lb e = absurd (omega (arith, la))
xor_bytes-injective (m ∷ mask) (x ∷ a) [] hm ha hb la lb e = absurd (omega (arith, lb))
xor_bytes-injective (m ∷ mask) (x ∷ a) (y ∷ b) hm ha hb la lb e =
    ap₂ (λ (n : ℕ) (l : Bytes). n ∷ l) (xor_same m x y hm.0 ha.0 hb.0 (ap (λ l. get_or l 0 0) e))
      (xor_bytes-injective mask a b hm.1 ha.1 hb.1 (omega (arith, la)) (omega (arith, lb))
        (ap (drop 1) e))

record_nonce-injective :
    (keys : ContentKeys) (file_key salt : Bytes) (i j : ℕ)
    → i < 2 ^ 64
    → j < 2 ^ 64
    → record_nonce (keys.nonce_base file_key salt) i
      ≡ record_nonce (keys.nonce_base file_key salt) j
    → i ≡ j
unfolding record_nonce
record_nonce-injective keys file_key salt i j hi hj e =
    let base = keys.nonce_base file_key salt in
    let size : 4 ≡ length (take 4 base) =
      omega (arith, length-take 4 base, keys.length-nonce_base file_key salt) in
    let mask = drop 4 base in
    let same : xor_bytes mask (be_octets 8 i) ≡ xor_bytes mask (be_octets 8 j) =
      sym (drop_of_append (take 4 base) (xor_bytes mask (be_octets 8 i)) 4 size)
      ∙ ap (drop 4) e
      ∙ drop_of_append (take 4 base) (xor_bytes mask (be_octets 8 j)) 4 size in
    let width : 8 ≡ length mask =
      omega (arith, length-drop 4 base, keys.length-nonce_base file_key salt) in
    sym (be_value-be_octets 8 i hi)
    ∙ ap be_value (
        xor_bytes-injective mask (be_octets 8 i) (be_octets 8 j)
          (drop-IsOctets 4 base (keys.nonce_base-IsOctets file_key salt))
          (be_octets-IsOctets 8 i hi) (be_octets-IsOctets 8 j hj) (length-be_octets 8 i ∙ width)
          (length-be_octets 8 j ∙ width) same)
    ∙ be_value-be_octets 8 j hj

-- No two records of a stream share a nonce: under the nonce base of any file key and salt, different
-- sequence numbers below 2 ^ 64 give different nonces.
pub record_nonce_distinct :
    (keys : ContentKeys) (file_key salt : Bytes) (i j : ℕ)
    → i < 2 ^ 64
    → j < 2 ^ 64
    → i ≢ j
    → record_nonce (keys.nonce_base file_key salt) i
      ≢ record_nonce (keys.nonce_base file_key salt) j
record_nonce_distinct keys file_key salt i j hi hj apart same =
    apart (record_nonce-injective keys file_key salt i j hi hj same)
