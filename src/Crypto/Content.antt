-- ===== src/Crypto/Content.antt =====
-- internal/crypto/content.go: the record encoding of an upload's content. A stream is a header and
-- records, each a sealed chunk of the plaintext with a delimiter that says whether it is the last.
pub mod Reference
pub mod Writing
pub mod Encrypting
pub mod Decryptor
pub mod Delimiters
pub mod Decrypting
pub mod Draining
pub mod Headers
pub mod RoundTrip
pub mod Nonces
pub mod Lengths
mod Tests
use Prim.Native.Nat.{bit_xor}
use sendan.Prelude.{
  ℕ, zero, suc, ◌+◌, ◌-◌, ◌*◌, ◌/◌, ◌%◌, ◌^◌, ◌≡◌, Bool, true, false, not, Option, none, some, List,
  [], ◌∷◌, ◌++◌, Bytes, leb, ltb, ◌==◌, if◌then◌else◌, is_empty, min, length, take, drop, Result,
  ok, err, Error, ◌>>=◌, ◌>>◌, refuse_if, bad_content, key_material, after_close, io_failure,
}
use sendan.Prelude.Int.{ℤ, pos_part, neg_part, is_negative, wrap64}
use sendan.Blob.Counter.{IsOctets}
use sendan.Blob.Octets.{be_octets}
use sendan.Crypto.Aead.{Aead}

abbrev pub file_key_size : ℕ
file_key_size = 32

abbrev pub record_size : ℕ
record_size = 65536

abbrev pub content_salt_size : ℕ
content_salt_size = 16

abbrev pub header_size : ℕ
header_size = content_salt_size + 4 + 1

abbrev pub max_record_plaintext : ℕ
max_record_plaintext = record_size - 16 - 1

abbrev pub delimiter_non_final : ℕ
delimiter_non_final = 1

abbrev pub delimiter_final : ℕ
delimiter_final = 2

abbrev pub max_sequence : ℕ
max_sequence = 2 ^ 48

-- HKDF of a file key and a salt under the two fixed labels: the content key and the nonce base, of
-- 12 octets.
pub record ContentKeys : Type 0 where
  pub content_key : Bytes → Bytes → Bytes
  pub nonce_base : Bytes → Bytes → Bytes
  pub length-nonce_base : (file_key salt : Bytes) → length (nonce_base file_key salt) ≡ 12
  pub nonce_base-IsOctets : (file_key salt : Bytes) → IsOctets (nonce_base file_key salt)

unfoldable pub derive_content_keys : ContentKeys → Bytes → Bytes → Result (Bytes × Bytes)
derive_content_keys keys file_key salt = do
  refuse_if (not (length file_key == file_key_size)) key_material
  refuse_if (not (length salt == content_salt_size)) key_material
  ok (keys.content_key file_key salt, keys.nonce_base file_key salt)

unfoldable pub xor_bytes : Bytes → Bytes → Bytes
xor_bytes [] bs = []
xor_bytes (a ∷ as_) [] = a ∷ as_
xor_bytes (a ∷ as_) (b ∷ bs) = bit_xor a b ∷ xor_bytes as_ bs

-- `recordNonce`: the sequence number fills the last eight of the twelve octets.
unfoldable pub record_nonce : Bytes → ℕ → Bytes
unfolding xor_bytes
record_nonce base seq = take 4 base ++ xor_bytes (drop 4 base) (be_octets 8 seq)

-- The header of a stream: the salt, the record size, and the length of an empty key identifier.
unfoldable pub content_header : Bytes → Bytes
content_header salt = salt ++ (be_octets 4 record_size ++ 0 ∷ [])

-- `Encryptor`, its sealer's counter included, and what it has written. `buffer` is the part of `buf`
-- that is filled.
pub record Encryptor : Type 0 where
  pub key : Bytes
  pub base : Bytes
  pub seq : ℕ
  pub pending_header : Bytes
  pub buffer : Bytes
  pub header_written : Bool
  pub closed : Bool
  pub fault : Option Error
  pub written : Bytes

unfoldable pub new_encryptor_with_salt : ContentKeys → Bytes → Bytes → Result Encryptor
unfolding derive_content_keys content_header
new_encryptor_with_salt keys file_key salt = do
  derived ← derive_content_keys keys file_key salt
  ok (record {
    key = derived.0;
    base = derived.1;
    seq = 0;
    pending_header = content_header salt;
    buffer = [];
    header_written = false;
    closed = false;
    fault = none;
    written = [];
  })

abbrev pub delimiter : Bool → ℕ
delimiter final = if final then delimiter_final else delimiter_non_final

-- `refuses n` is whether the writer below fails a write after `n` bytes.
module _ (aead : Aead) (refuses : ℕ → Bool) where
  unfoldable pub write_header : Encryptor → Encryptor × Option Error
  write_header e =
      if e.header_written
      then (e, none)
      else if refuses (length e.written)
      then (e, some io_failure)
      else (record e { header_written = true; written = e.written ++ e.pending_header }, none)

  -- `seal`, and the write of the record.
  unfoldable pub write_record : Bool → Encryptor → Encryptor × Option Error
  write_record final e =
      let sealed =
        aead.seal e.key (record_nonce e.base e.seq) (e.buffer ++ delimiter final ∷ []) [] in
      if not (ltb e.seq max_sequence)
      then (e, some bad_content)
      else if refuses (length e.written)
      then (record e { seq = suc e.seq }, some io_failure)
      else (record e { seq = suc e.seq; written = e.written ++ sealed; buffer = [] }, none)

  unfoldable pub flush : Bool → Encryptor → Encryptor × Option Error
  unfolding write_header write_record
  flush final e =
      let (e', fault) = write_header e in
      elim fault [ some x ↦ (e', some x) | none ↦ write_record final e' ]

  -- A full buffer is flushed: more data follows it.
  unfoldable pub make_room : Encryptor → Encryptor × Option Error
  unfolding flush
  make_room e = if length e.buffer == max_record_plaintext then flush false e else (e, none)

  -- The loop of `Write` on fuel, which is spent a round at a time: each takes at least one byte.
  unfoldable pub write_loop : ℕ → Bytes → ℕ → Encryptor → Encryptor × (ℕ × Option Error)
  write_loop zero p count e = (e, (count, none))
  write_loop (suc fuel) p count e =
      let (e', fault) = make_room e in
      let k = min (max_record_plaintext - length e'.buffer) (length p) in
      let next =
        write_loop fuel (drop k p) (count + k) (record e' { buffer = e'.buffer ++ take k p }) in
      if is_empty p
      then (e, (count, none))
      else elim fault [ some x ↦ (record e' { fault = some x }, (count, some x)) | none ↦ next ]

  -- `Write`: the bytes taken, and the error if any.
  unfoldable pub write : Bytes → Encryptor → Encryptor × (ℕ × Option Error)
  write p e = elim e.fault [
    | some x ↦ (e, (0, some x))
    | none ↦ if e.closed then (e, (0, some after_close)) else write_loop (length p) p 0 e
  ]

  unfoldable pub close : Encryptor → Encryptor × Option Error
  close e = elim e.fault [
    | some x ↦ (e, some x)
    | none ↦
        if e.closed
        then (e, none)
        else let (e', fault) = flush true (record e { closed = true }) in
          elim fault [ some x ↦ (record e' { fault = some x }, some x) | none ↦ (e', none) ]
  ]

-- The quotient of a signed 64-bit number, which rounds toward zero, as a residue.
abbrev pub quotient64 : ℤ → ℕ → ℕ
quotient64 a b = if is_negative a then (2 ^ 64 - neg_part a / b) % 2 ^ 64 else pos_part a / b

-- `EncodedContentLength`, with the arithmetic of `int64`: the numbers below are residues.
unfoldable pub encoded_content_length : ℤ → Result ℤ
encoded_content_length n =
    let size = pos_part n in
    let blocks = quotient64 (wrap64 (size + max_record_plaintext - 1)) max_record_plaintext in
    let non_final = if ltb 0 size then (blocks + (2 ^ 64 - 1)) % 2 ^ 64 else 0 in
    let final = (size + (2 ^ 64 - non_final * max_record_plaintext % 2 ^ 64)) % 2 ^ 64 in
    do
      refuse_if (is_negative n) bad_content
      ok (wrap64 (header_size + non_final * record_size + final + (1 + 16)))
