-- ===== src/Blob/Shredder.antt =====
-- internal/blob/shred.go: encryption at rest, over the filesystem backend. The block cipher and the
-- key derivation are parameters; the counter mode of `cipher.NewCTR` is written out over them.
use Prim.Native.Nat.{bit_xor}
use sendan.Prelude.{
  ℕ, zero, suc, ◌+◌, ◌/◌, ◌%◌, ◌^◌, ◌<◌, ◌≡◌, Bool, not, some, [], ◌∷◌, Bytes, ◌==◌, Result, ok,
  err, ◌>>=◌, ◌>>◌, refuse_if, length, get_or, drop, bad_at_rest_key, negative_offset, arith,
  replicate, map, length-replicate,
}
use sendan.Prelude.Int.{ℤ, pos, pos_part, is_negative}
use sendan.Blob.Counter.{be_value, IsOctets, block_offset, increment_counter}
use sendan.Blob.Octets.{be_octets}
use sendan.Blob.Files.{Files, Reader, Written, put, open_blob, write_chunk}

abbrev pub at_rest_key_size : ℕ
at_rest_key_size = 32

-- AES under a key, as a function on a block of 16 bytes, and HKDF of a key under the fixed label,
-- which gives a block.
pub record Cipher : Type 0 where
  pub encrypt_block : Bytes → Bytes → Bytes
  pub derive_counter : Bytes → Bytes
  pub encrypt_block-IsOctets : (key block : Bytes) → IsOctets (encrypt_block key block)
  pub length-derive_counter : (key : Bytes) → length (derive_counter key) ≡ 16
  pub derive_counter-IsOctets : (key : Bytes) → IsOctets (derive_counter key)

octet-lt : (n : ℕ) → n % 256 < 256
octet-lt n = omega arith

map-IsOctets : (bs : Bytes) → IsOctets (map (λ b. b % 256) bs)
map-IsOctets [] = tt
map-IsOctets (b ∷ bs) = (octet-lt b, map-IsOctets bs)

replicate-IsOctets : (n v : ℕ) → v < 256 → IsOctets (replicate n v)
replicate-IsOctets zero v h = tt
replicate-IsOctets (suc n) v h = (h, replicate-IsOctets n v h)

-- A value: no secrecy, but the laws hold.
pub toy_cipher : Cipher
toy_cipher = record {
  encrypt_block = λ key block. map (λ b. b % 256) block;
  derive_counter = λ key. replicate 16 (length key % 256);
  encrypt_block-IsOctets = λ key block. map-IsOctets block;
  length-derive_counter = λ key. length-replicate 16 (length key % 256);
  derive_counter-IsOctets = λ key. replicate-IsOctets 16 (length key % 256) (octet-lt (length key));
}

-- `XORKeyStream`, from byte `i` of the stream.
unfoldable pub xor_stream : (ℕ → ℕ) → ℕ → Bytes → Bytes
xor_stream ks i [] = []
xor_stream ks i (b ∷ bs) = bit_xor b (ks i) ∷ xor_stream ks (suc i) bs

module _ (cipher : Cipher) where
  -- Byte `i` of the counter mode keystream that starts at a counter.
  unfoldable pub keystream : Bytes → Bytes → ℕ → ℕ
  keystream key counter i =
      get_or (cipher.encrypt_block key (be_octets 16 ((be_value counter + i / 16) % 256 ^ 16)))
        (i % 16) 0

  -- `stream`: the counter that the keystream starts at, and the bytes to skip.
  unfoldable pub stream : Bytes → ℤ → Result (Bytes × ℕ)
  stream key offset = do
    refuse_if (not (length key == at_rest_key_size)) bad_at_rest_key
    refuse_if (is_negative offset) negative_offset
    let (blocks, skip) = block_offset (pos_part offset)
    ok (increment_counter (cipher.derive_counter key) blocks, skip)

  -- What the stream positioned at an offset makes of the bytes that pass through it there, once the
  -- bytes to skip are discarded.
  unfoldable pub shred : Bytes → ℤ → Bytes → Result Bytes
  shred key offset content = do
    s ← stream key offset
    ok (xor_stream (keystream key s.0) s.1 content)

  -- `(*Shredder).Put`. The check of `skip` cannot fail: at offset 0 nothing is skipped.
  unfoldable pub shred_put : Bytes → Bool → Bytes → Bytes → Reader → Files → Files × Result ℕ
  shred_put tag failing id key r fs = elim (shred key (pos 0) r.content) [
    | err e ↦ (fs, err e)
    | ok c ↦ put tag failing id (record r { content = c }) fs
  ]

  -- `(*Shredder).WriteChunk`
  unfoldable pub shred_write_chunk :
      Bool → Bool → Bytes → Bytes → ℤ → Reader → Files → Files × Written
  shred_write_chunk setup_fails sync_fails id key offset r fs = elim (shred key offset r.content) [
    | err e ↦ (fs, record { count = 0; fault = some e })
    | ok c ↦ write_chunk setup_fails sync_fails id (pos_part offset) (record r { content = c }) fs
  ]

  -- `(*Shredder).Open`, then `Seek` to an offset and reading to the end: the keystream is rebuilt at
  -- the offset, and the bytes read from there pass through it.
  unfoldable pub shred_read : Bool → Bytes → Bytes → ℕ → Files → Result Bytes
  shred_read failing id key offset fs = do
    refuse_if (not (length key == at_rest_key_size)) bad_at_rest_key
    c ← open_blob failing id fs
    shred key (pos offset) (drop offset c)
