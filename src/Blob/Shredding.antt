-- ===== src/Blob/Shredding.antt =====
-- The encryption at rest is one keystream over the whole blob, however it is cut into chunks and
-- wherever it is read.
use mathlib.Core.Path.{subst, ap₂}
use Prim.Native.Nat.{bit_xor}
use native.Mathlib.Nat.{zero-add, add-zero, add-suc, suc-add}
use sendan.Prelude.{
  ℕ, zero, suc, ◌+◌, ◌/◌, ◌%◌, ◌^◌, ◌<◌, ◌≡◌, refl, sym, ap, ◌∙◌, [], ◌∷◌, ◌++◌, Bytes, ok, ◌>>=◌,
  length, get_or, drop, arith,
}
use sendan.Prelude.Int.{pos}
use sendan.Prelude.Xor.{bit_xor_twice}
use sendan.Blob.Counter.{be_value, IsOctets, block_offset, increment_counter, increment_counter_lem}
use sendan.Blob.Octets.{be_octets}
use sendan.Blob.Shredder.{Cipher, keystream, xor_stream, stream, shred, at_rest_key_size}

get_or-lt : (xs : Bytes) (i : ℕ) → IsOctets xs → get_or xs i 0 < 256
get_or-lt [] i h = omega arith
get_or-lt (x ∷ xs) zero h = h.0
get_or-lt (x ∷ xs) (suc i) h = get_or-lt xs i h.1

-- The block and the place in it of a byte behind an offset.
same_block :
    (v o i m : ℕ)
    → m ≡ 256 ^ 16
    → (((v + o / 16) % m + (o % 16 + i) / 16) % m ≡ (v + (o + i) / 16) % m)
      × ((o % 16 + i) % 16 ≡ (o + i) % 16)
same_block v o i m e = (rw e (omega arith), omega arith)

module _ (ks : ℕ → ℕ) where
  xor_stream-append :
      (i : ℕ) (a b : Bytes)
      → xor_stream ks i (a ++ b) ≡ xor_stream ks i a ++ xor_stream ks (i + length a) b
  unfolding xor_stream
  xor_stream-append i [] b = rw add-zero
  xor_stream-append i (x ∷ a) b =
      rw (xor_stream-append (suc i) a b, add-suc i (length a), suc-add i (length a))

  xor_stream-drop :
      (i n : ℕ) (a : Bytes) → drop n (xor_stream ks i a) ≡ xor_stream ks (i + n) (drop n a)
  unfolding xor_stream
  xor_stream-drop i zero a = rw add-zero
  xor_stream-drop i (suc n) [] = refl
  xor_stream-drop i (suc n) (x ∷ a) = rw (xor_stream-drop (suc i) n a, add-suc i n, suc-add i n)

  xor_stream_twice :
      (i : ℕ) (a : Bytes)
      → ((j : ℕ) → ks j < 256)
      → IsOctets a
      → xor_stream ks i (xor_stream ks i a) ≡ a
  unfolding xor_stream
  xor_stream_twice i [] k h = refl
  xor_stream_twice i (x ∷ a) k h =
      let here : bit_xor (bit_xor x (ks i)) (ks i) ≡ x = bit_xor_twice x (ks i) h.0 (k i) in
      rw (here, xor_stream_twice (suc i) a k h.1)

drop-IsOctets : (n : ℕ) (a : Bytes) → IsOctets a → IsOctets (drop n a)
drop-IsOctets zero a h = h
drop-IsOctets (suc n) [] h = tt
drop-IsOctets (suc n) (x ∷ a) h = drop-IsOctets n a h.1

module _ (cipher : Cipher) where
  keystream-lt : (key counter : Bytes) (i : ℕ) → keystream cipher key counter i < 256
  unfolding keystream
  keystream-lt key counter i = get_or-lt _ (i % 16) (cipher.encrypt_block-IsOctets key _)

  stream_ok :
      (key : Bytes) (o : ℕ)
      → length key ≡ at_rest_key_size
      → stream cipher key (pos o)
        ≡ ok (increment_counter (cipher.derive_counter key) (o / 16), o % 16)
  unfolding stream block_offset
  stream_ok key o h = ground arith

  -- The keystream positioned at an offset goes on exactly as the one that starts at the beginning.
  keystream_shifted :
      (key : Bytes) (o i : ℕ)
      → let iv = cipher.derive_counter key in
        keystream cipher key (increment_counter iv (o / 16)) (o % 16 + i)
        ≡ keystream cipher key iv (o + i)
  unfolding keystream
  keystream_shifted key o i =
      let iv = cipher.derive_counter key in
      let (value, _, _) = increment_counter_lem iv (o / 16) (cipher.derive_counter-IsOctets key) in
      let width = cipher.length-derive_counter key in
      let (block, place) = same_block (be_value iv) o i (256 ^ 16) refl in
      let value16 : be_value (increment_counter iv (o / 16)) ≡ (be_value iv + o / 16) % 256 ^ 16 =
        subst (λ n. be_value (increment_counter iv (o / 16)) ≡ (be_value iv + o / 16) % 256 ^ n)
          width value in
      ap₂ (λ b n. get_or (cipher.encrypt_block key (be_octets 16 b)) n 0) (rw value16 block) place

  abbrev base_stream : Bytes → ℕ → ℕ
  base_stream key = keystream cipher key (cipher.derive_counter key)

  xor_stream_shifted :
      (key : Bytes) (o i : ℕ) (a : Bytes)
      → xor_stream
          (keystream cipher key (increment_counter (cipher.derive_counter key) (o / 16)))
          (o % 16 + i)
          a
        ≡ xor_stream (base_stream key) (o + i) a
  unfolding xor_stream
  xor_stream_shifted key o i [] = refl
  xor_stream_shifted key o i (x ∷ a) =
      ap₂ (λ k (xs : Bytes). bit_xor x k ∷ xs) (keystream_shifted key o i)
        (rw (← add-suc (o % 16) i, ← add-suc o i) (xor_stream_shifted key o (suc i) a))

  -- `shred` is the base keystream from its offset.
  pub shred_ok :
      (key : Bytes) (o : ℕ) (a : Bytes)
      → length key ≡ at_rest_key_size
      → shred cipher key (pos o) a ≡ ok (xor_stream (base_stream key) o a)
  unfolding shred
  shred_ok key o a h =
      let shifted = rw (add-zero (o % 16), add-zero o) at (xor_stream_shifted key o 0 a) in
      rw (stream_ok key o h) (ap ok shifted)

  -- Encrypting a blob chunk by chunk, each at its offset, is encrypting it whole. The key has its size.
  pub shred-append :
      (key : Bytes) (a b : Bytes)
      → length key ≡ at_rest_key_size
      → shred cipher key (pos 0) (a ++ b) ≡ (do
        a' ← shred cipher key (pos 0) a
        b' ← shred cipher key (pos (length a)) b
        ok (a' ++ b'))
  shred-append key a b h = rw (
    shred_ok key 0 (a ++ b) h,
    shred_ok key 0 a h,
    shred_ok key (length a) b h,
    xor_stream-append (base_stream key) 0 a b,
    zero-add (length a),
  )

  -- Reading from any offset, with the keystream rebuilt there, gives the plaintext from that offset:
  -- what a range request of a resumed download is served. The key has its size and the plaintext is
  -- bytes.
  pub shred-drop-shred :
      (key : Bytes) (o : ℕ) (plain stored : Bytes)
      → length key ≡ at_rest_key_size
      → IsOctets plain
      → shred cipher key (pos 0) plain ≡ ok stored
      → shred cipher key (pos o) (drop o stored) ≡ ok (drop o plain)
  shred-drop-shred key o plain stored h octets e =
      let cut : xor_stream (base_stream key) 0 plain ≡ stored =
        ground (arith, shred_ok key 0 plain h) in
      let bytes = keystream-lt key (cipher.derive_counter key) in
      shred_ok key o (drop o stored) h
      ∙ ap ok (
          ap (λ c. xor_stream (base_stream key) o (drop o c)) (sym cut)
          ∙ (ap (xor_stream (base_stream key) o) (
                xor_stream-drop (base_stream key) 0 o plain
                ∙ ap (λ n. xor_stream (base_stream key) n (drop o plain)) (zero-add o))
              ∙ xor_stream_twice (base_stream key) o (drop o plain) bytes
                  (drop-IsOctets o plain octets)))

  length-xor_stream : (ks : ℕ → ℕ) (i : ℕ) (a : Bytes) → length (xor_stream ks i a) ≡ length a
  unfolding xor_stream
  length-xor_stream ks i [] = refl
  length-xor_stream ks i (x ∷ a) = ap suc (length-xor_stream ks (suc i) a)

  -- Under a key of its size every byte passes, and the length stays.
  pub shred-total :
      (key : Bytes) (o : ℕ) (a : Bytes)
      → length key ≡ at_rest_key_size
      → (c : Bytes) × (shred cipher key (pos o) a ≡ ok c) × (length c ≡ length a)
  shred-total key o a h = (
    xor_stream (base_stream key) o a,
    shred_ok key o a h,
    length-xor_stream (base_stream key) o a,
  )
