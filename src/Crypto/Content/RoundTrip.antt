-- ===== src/Crypto/Content/RoundTrip.antt =====
-- internal/crypto/content.go: what the decryptor accepts is a header and a stream of records, and the
-- encoding of a plaintext is one.
use mathlib.Core.Path.{subst}
use sendan.Prelude.{
  ℕ, suc, ◌+◌, ◌≤◌, ◌<◌, ◌≡◌, refl, sym, ap, ◌∙◌, inl, inr, Bool, true, false, Option, none, some,
  List, [], ◌∷◌, ◌++◌, Bytes, length, length-append, All-take, take, drop, take-append-drop,
  append-nil, append_assoc, arith, bad_content, eof, Bool-cases, Error, ◌==◌, ==_iff, Result, ok,
  err, Result-cases, All, take_of_append, drop_of_append, ◌>>=◌,
}
use sendan.Blob.Counter.{IsOctets}
use sendan.Crypto.Aead.{Aead}
use sendan.Crypto.Content.{
  ContentKeys, max_sequence, max_record_plaintext, header_size, content_salt_size, file_key_size,
  content_header, derive_content_keys,
}
use sendan.Crypto.Content.Headers.{
  length-content_header, parse_header-content_header, content_header-parse_header,
}
use sendan.Crypto.Content.Reference.{seal_record, seal_from, encode}
use sendan.Crypto.Content.Decryptor.{
  Decryptor, new_decryptor, parse_header, read_header, fill, read, drain,
}
use sendan.Crypto.Content.Decrypting.{last, full, state}
use sendan.Crypto.Content.Draining.{Stream, ends, continues, drain-Left, Left-drain}

module _ (aead : Aead) (key base : Bytes) where
  -- The reference encoding is a stream.
  seal_from-Stream :
      (seq : ℕ) (chunk plain : Bytes)
      → length chunk ≤ max_record_plaintext
      → seq + length chunk + length plain < max_sequence
      → Stream aead key base seq (seal_from aead key base seq chunk plain) (chunk ++ plain)
  unfolding seal_from
  seal_from-Stream seq chunk [] fits short =
      subst (Stream aead key base seq (seal_record aead key base seq true chunk))
        (sym (append-nil chunk)) (ends (omega (arith, short)) (last fits refl))
  seal_from-Stream seq chunk (x ∷ plain) fits short =
      elim (Bool-cases (length chunk == max_record_plaintext)) [
        | inl is_full ↦
            rw (seal_from, is_full)
              (let size : length chunk ≡ max_record_plaintext = (==_iff _ _).0 is_full in
                let t =
                  seal_from-Stream (suc seq) (x ∷ []) plain (omega arith)
                    (omega (arith, size, short)) in
                continues chunk (seal_from aead key base (suc seq) (x ∷ []) plain) (x ∷ plain)
                  (omega (arith, short)) (full size refl) t refl)
        | inr space ↦
            rw (seal_from, space)
              (subst
                (Stream aead key base seq (seal_from aead key base seq (chunk ++ x ∷ []) plain))
                (append_assoc chunk (x ∷ []) plain)
                (seal_from-Stream seq (chunk ++ x ∷ []) plain
                  (ground (arith, fits, length-append chunk (x ∷ [])))
                  (omega (arith, short, length-append chunk (x ∷ [])))))
      ]

no_end : some bad_content ≡ some eof → ⊥
no_end h = ground (arith, h)

module _ (aead : Aead) (keys : ContentKeys) (file_key : Bytes) where
  -- A decryptor that has read nothing.
  abbrev unread : Bool → Bytes → Decryptor
  unread broken input = record {
    input = input;
    broken = broken;
    file_key = file_key;
    key = [];
    base = [];
    seq = 0;
    plain = [];
    header_read = false;
    saw_final = false;
    fault = none;
  }

  -- The decryptor behind a header.
  abbrev behind : Bool → Bytes → Bytes → Decryptor
  behind broken salt rest =
      state aead (keys.content_key file_key salt) (keys.nonce_base file_key salt) file_key broken
        rest 0 [] false

  new_decryptor_ok :
      (input : Bytes) (broken : Bool) (d : Decryptor)
      → new_decryptor input broken file_key ≡ ok d
      → (length file_key ≡ file_key_size) × (unread broken input ≡ d)
  unfolding new_decryptor
  new_decryptor_ok input broken d h = (ground arith, ground arith)

  derive_sized :
      (salt : Bytes)
      → length file_key ≡ file_key_size
      → length salt ≡ content_salt_size
      → derive_content_keys keys file_key salt
        ≡ ok (keys.content_key file_key salt, keys.nonce_base file_key salt)
  unfolding derive_content_keys
  derive_sized salt h k = ground (arith, h, k)

  -- `read_header` on what its parser and the key derivation give.
  abbrev headed : Bool → Bytes → Result (Bytes × Bytes) → Decryptor × Option Error
  headed broken input derived =
      let rest = drop header_size input in
      elim derived [
        | err x ↦ (unread broken rest, some bad_content)
        | ok (key, base) ↦
            (record (unread broken rest) { key = key; base = base; header_read = true }, none)
      ]

  read_header-behind :
      (broken : Bool) (input salt : Bytes)
      → length file_key ≡ file_key_size
      → length salt ≡ content_salt_size
      → parse_header (take header_size input) ≡ ok salt
      → read_header keys (unread broken input) ≡ (behind broken salt (drop header_size input), none)
  unfolding read_header
  read_header-behind broken input salt h k e =
      ap
        (λ (r : Result Bytes).
          headed broken input (do salt' ← r; derive_content_keys keys file_key salt'))
        e
      ∙ ap (headed broken input) (derive_sized salt h k)

  -- `Read` behind its header, and the reads after it.
  abbrev read_first : ℕ → Decryptor × Option Error → Decryptor × (Bytes × Option Error)
  read_first size h = elim h.1 [
    | some x ↦ (record h.0 { fault = some x }, ([], some x))
    | none ↦
        let (d₂, fault) = fill aead 2 h.0 in
        elim fault [
          | some x ↦ (record d₂ { fault = some x }, ([], some x))
          | none ↦ (record d₂ { plain = drop size d₂.plain }, (take size d₂.plain, none))
        ]
  ]

  abbrev reads : ℕ → List ℕ → Decryptor × Option Error → Bytes × Option Error
  reads size sizes h =
      let (d', (got, fault)) = read_first size h in
      let (rest, end) = drain aead keys sizes d' in
      elim fault [ some x ↦ (got, some x) | none ↦ (got ++ rest, end) ]

  drain-unread :
      (size : ℕ) (sizes : List ℕ) (broken : Bool) (input : Bytes)
      → drain aead keys (size ∷ sizes) (unread broken input)
        ≡ reads size sizes (read_header keys (unread broken input))
  unfolding drain read
  drain-unread size sizes broken input = refl

  -- Behind a header that is accepted, reading goes on as if the header had been read.
  drain-behind :
      (sizes : List ℕ) (broken : Bool) (input salt : Bytes)
      → length file_key ≡ file_key_size
      → length salt ≡ content_salt_size
      → parse_header (take header_size input) ≡ ok salt
      → drain aead keys sizes (unread broken input)
        ≡ drain aead keys sizes (behind broken salt (drop header_size input))
  unfolding drain read
  drain-behind [] broken input salt h k p = refl
  drain-behind (size ∷ sizes) broken input salt h k p =
      drain-unread size sizes broken input
      ∙ ap (reads size sizes) (read_header-behind broken input salt h k p)

  -- Draining that comes to an end has accepted the header.
  header-drain :
      (sizes : List ℕ) (broken : Bool) (input plain : Bytes)
      → drain aead keys sizes (unread broken input) ≡ (plain, some eof)
      → (salt : Bytes) × (parse_header (take header_size input) ≡ ok salt)
  unfolding drain read read_header
  header-drain [] broken input plain h = absurd (ground (arith, ap (λ r. r.1) h))
  header-drain (size ∷ sizes) broken input plain h =
      elim (Result-cases (parse_header (take header_size input))) [
        | inl (salt, e) ↦ (salt, e)
        | inr (x, e) ↦
            let refused : drain aead keys (size ∷ sizes) (unread broken input)
                ≡ ([], some bad_content) =
              drain-unread size sizes broken input
              ∙ ap
                  (λ (r : Result Bytes).
                    reads size sizes
                      (headed broken input (do salt ← r; derive_content_keys keys file_key salt)))
                  e in
            absurd (no_end (ap (λ r. r.1) (sym refused ∙ h)))
      ]

  -- Every stream behind the header of its salt is read to its end.
  pub drain-Stream :
      (salt records plain : Bytes) (sizes : List ℕ) (d : Decryptor)
      → length salt ≡ content_salt_size
      → Stream aead (keys.content_key file_key salt) (keys.nonce_base file_key salt) 0 records plain
      → All (λ size. 0 < size) sizes
      → length plain < length sizes
      → new_decryptor (content_header salt ++ records) false file_key ≡ ok d
      → drain aead keys sizes d ≡ (plain, some eof)
  drain-Stream salt records plain sizes d k t sound enough made =
      let key = keys.content_key file_key salt in
      let base = keys.nonce_base file_key salt in
      let input = content_header salt ++ records in
      let (h, new) = new_decryptor_ok input false d made in
      let size = sym (length-content_header salt k) in
      ap (drain aead keys sizes) (sym new)
      ∙ drain-behind sizes false input salt h k (
          ap parse_header (take_of_append (content_header salt) records header_size size)
          ∙ parse_header-content_header salt k)
      ∙ ap (λ s. drain aead keys sizes (behind false salt s))
          (drop_of_append (content_header salt) records header_size size)
      ∙ drain-Left aead key base file_key keys sizes records 0 [] plain false sound enough
          (plain, t, refl)

  -- The decryptor gives back what was encoded, and then the end: however the reads are cut, as long as
  -- none is into an empty buffer and there are more of them than bytes. The salt has its fixed size,
  -- the plaintext is shorter than the bound on the record counter, the decryptor is made for the file key that the
  -- encoding was made for, and its source does not break off.
  pub drain-encode :
      (salt plain : Bytes) (sizes : List ℕ) (d : Decryptor)
      → length salt ≡ content_salt_size
      → length plain < max_sequence
      → All (λ size. 0 < size) sizes
      → length plain < length sizes
      → new_decryptor
          (encode aead (keys.content_key file_key salt) (keys.nonce_base file_key salt) salt plain)
          false
          file_key
        ≡ ok d
      → drain aead keys sizes d ≡ (plain, some eof)
  unfolding encode
  drain-encode salt plain sizes d k short sound enough made =
      let key = keys.content_key file_key salt in
      let base = keys.nonce_base file_key salt in
      drain-Stream salt (seal_from aead key base 0 [] plain) plain sizes d k
        (seal_from-Stream aead key base 0 [] plain (omega arith) (omega (arith, short))) sound
        enough made

  -- A plaintext that fills a record is also accepted in the encoding that has it in a record that is
  -- not the last, and an empty last record behind it.
  drain-empty_last :
      (salt plain : Bytes) (sizes : List ℕ) (d : Decryptor)
      → length salt ≡ content_salt_size
      → length plain ≡ max_record_plaintext
      → All (λ size. 0 < size) sizes
      → length plain < length sizes
      → new_decryptor
          (content_header salt
            ++ (seal_record aead
                  (keys.content_key file_key salt)
                  (keys.nonce_base file_key salt)
                  0
                  false
                  plain
                ++ seal_record aead
                    (keys.content_key file_key salt)
                    (keys.nonce_base file_key salt)
                    1
                    true
                    []))
          false
          file_key
        ≡ ok d
      → drain aead keys sizes d ≡ (plain, some eof)
  drain-empty_last salt plain sizes d k size sound enough made =
      let key = keys.content_key file_key salt in
      let base = keys.nonce_base file_key salt in
      let last_ = seal_record aead key base 1 true [] in
      drain-Stream salt (seal_record aead key base 0 false plain ++ last_) plain sizes d k
        (continues plain last_ [] (omega arith) (full size refl)
          (ends (omega arith) (last (omega arith) refl)) (sym (append-nil plain)))
        sound enough made

  -- What the decryptor accepts: a stream that drains to its end, with whatever reads and whether or not
  -- the source breaks off, is the header of a salt of the fixed size and the records of the plaintext
  -- under the keys of that salt, numbered from 0, each as sealing gives it, all but the last full, and
  -- nothing behind the last. The source is octets.
  pub Stream-drain :
      (broken : Bool) (input plain : Bytes) (sizes : List ℕ) (d : Decryptor)
      → IsOctets input
      → new_decryptor input broken file_key ≡ ok d
      → drain aead keys sizes d ≡ (plain, some eof)
      → (salt records : Bytes) × (length salt ≡ content_salt_size)
        × (input ≡ content_header salt ++ records)
        × Stream aead
            (keys.content_key file_key salt)
            (keys.nonce_base file_key salt)
            0
            records
            plain
  Stream-drain broken input plain sizes d octets made h =
      let (k, new) = new_decryptor_ok input broken d made in
      let ends_ = ap (drain aead keys sizes) new ∙ h in
      let (salt, accepted) = header-drain sizes broken input plain ends_ in
      let (size, head) =
        content_header-parse_header (take header_size input) salt
          (All-take (λ c. c < 256) header_size input octets) accepted in
      let (p, t, e) =
        Left-drain aead (keys.content_key file_key salt) (keys.nonce_base file_key salt) file_key
          keys broken sizes (drop header_size input) 0 [] plain false
          (sym (drain-behind sizes broken input salt k size accepted) ∙ ends_) in
      (
        salt,
        drop header_size input,
        size,
        sym (take-append-drop header_size input) ∙ ap (λ b. b ++ drop header_size input) head,
        subst (Stream aead _ _ 0 (drop header_size input)) (sym e) t,
      )
