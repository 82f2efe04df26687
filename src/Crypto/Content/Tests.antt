-- ===== src/Crypto/Content/Tests.antt =====
-- The theorems of the content encoding at concrete values.
use sendan.Prelude.{
  ℕ, ◌≡◌, refl, false, none, some, List, [], ◌∷◌, ◌++◌, Bytes, ok, length, replicate, eof, ◌≢◌,
  arith,
}
use sendan.Prelude.Int.{pos}
use sendan.Blob.Counter.{IsOctets}
use sendan.Blob.Octets.{be_octets}
use sendan.Crypto.Aead.{clear_aead}
use sendan.Crypto.Content.{
  ContentKeys, Encryptor, derive_content_keys, new_encryptor_with_salt, close, content_header,
  record_nonce, encoded_content_length, content_salt_size,
}
use sendan.Crypto.Content.Reference.{encode, seal_from, seal_record}
use sendan.Crypto.Content.Writing.{joined, write_all}
use sendan.Crypto.Content.Encrypting.{close-write_all}
use sendan.Crypto.Content.Decryptor.{Decryptor, new_decryptor, drain}
use sendan.Crypto.Content.Draining.{Stream}
use sendan.Crypto.Content.Nonces.{record_nonce_distinct}
use sendan.Crypto.Content.Lengths.{length-encode}
use sendan.Crypto.Content.RoundTrip.{drain-encode, Stream-drain}

sevens-IsOctets : IsOctets (replicate 12 7)
sevens-IsOctets = ground arith

-- No secrecy: every key and nonce base is the same.
abbrev flat_keys : ContentKeys
flat_keys = record {
  content_key = λ file_key salt. [];
  nonce_base = λ file_key salt. replicate 12 7;
  length-nonce_base = λ file_key salt. refl;
  nonce_base-IsOctets = λ file_key salt. sevens-IsOctets;
}

abbrev file_key : Bytes
file_key = replicate 32 1

abbrev salt : Bytes
salt = replicate 16 5

abbrev plain : Bytes
plain = 3 ∷ 1 ∷ 4 ∷ []

abbrev cuts : List Bytes
cuts = (3 ∷ []) ∷ [] ∷ (1 ∷ 4 ∷ []) ∷ []

abbrev opened : Encryptor
opened = record {
  key = [];
  base = replicate 12 7;
  seq = 0;
  pending_header = content_header salt;
  buffer = [];
  header_written = false;
  closed = false;
  fault = none;
  written = [];
}

opened_ok : new_encryptor_with_salt flat_keys file_key salt ≡ ok opened
unfolding new_encryptor_with_salt derive_content_keys
opened_ok = refl

close-write_all_example :
    let (e', fault) = close clear_aead (λ n. false) (write_all clear_aead cuts opened) in
    (e'.written ≡ encode clear_aead [] (replicate 12 7) salt (joined cuts)) × (fault ≡ none)
unfolding joined
close-write_all_example =
    close-write_all clear_aead flat_keys file_key salt opened cuts opened_ok (omega arith)

-- The plaintext is read two bytes at a time.
abbrev sizes : List ℕ
sizes = 2 ∷ 2 ∷ 2 ∷ 2 ∷ []

abbrev encoded : Bytes
encoded = encode clear_aead [] (replicate 12 7) salt plain

abbrev unread : Bytes → Decryptor
unread input = record {
  input = input;
  broken = false;
  file_key = file_key;
  key = [];
  base = [];
  seq = 0;
  plain = [];
  header_read = false;
  saw_final = false;
  fault = none;
}

unread_ok : (input : Bytes) → new_decryptor input false file_key ≡ ok (unread input)
unfolding new_decryptor
unread_ok input = refl

encoded-IsOctets : IsOctets encoded
unfolding encode seal_from seal_record content_header be_octets
encoded-IsOctets = ground arith

drain-encode_example : drain clear_aead flat_keys sizes (unread encoded) ≡ (plain, some eof)
drain-encode_example =
    drain-encode clear_aead flat_keys file_key salt plain sizes (unread encoded) refl (omega arith)
      (ground arith) (omega arith) (unread_ok encoded)

record_nonce_distinct_example : record_nonce (replicate 12 7) 0 ≢ record_nonce (replicate 12 7) 1
record_nonce_distinct_example =
    record_nonce_distinct flat_keys file_key salt 0 1 (omega arith) (omega arith)
      (λ e. absurd (omega (arith, e)))

Stream-drain_example :
    (salt' records : Bytes) × (length salt' ≡ content_salt_size)
    × (encoded ≡ content_header salt' ++ records)
    × Stream clear_aead [] (replicate 12 7) 0 records plain
Stream-drain_example =
    Stream-drain clear_aead flat_keys file_key false encoded plain sizes (unread encoded)
      encoded-IsOctets (unread_ok encoded) drain-encode_example

length-encode_example : encoded_content_length (pos (length plain)) ≡ ok (pos (length encoded))
length-encode_example = length-encode clear_aead [] (replicate 12 7) salt plain refl (omega arith)
