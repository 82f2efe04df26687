-- ===== src/Crypto/Content/Decryptor.antt =====
-- internal/crypto/content.go: the decryptor. Its source is what is left to read, and whether it breaks
-- off at the end of that in place of ending.
use sendan.Prelude.{
  ℕ, zero, suc, ◌+◌, ◌-◌, Bool, true, false, not, ◌&&◌, ◌||◌, Option, none, some, List, [], ◌∷◌,
  ◌++◌, Bytes, ltb, ◌==◌, if◌then◌else◌, is_empty, length, take, drop, get_or, Result, ok, err,
  Error, ◌>>=◌, ◌>>◌, refuse_if, bad_content, key_material, eof,
}
use sendan.Blob.Counter.{be_value}
use sendan.Crypto.Aead.{Aead}
use sendan.Crypto.Content.{
  ContentKeys, file_key_size, record_size, content_salt_size, header_size, delimiter_final,
  delimiter_non_final, max_sequence, derive_content_keys, record_nonce,
}

-- `plain` is what is left of the record opened last.
pub record Decryptor : Type 0 where
  pub input : Bytes
  pub broken : Bool
  pub file_key : Bytes
  pub key : Bytes
  pub base : Bytes
  pub seq : ℕ
  pub plain : Bytes
  pub header_read : Bool
  pub saw_final : Bool
  pub fault : Option Error

unfoldable pub new_decryptor : Bytes → Bool → Bytes → Result Decryptor
new_decryptor input broken file_key = do
  refuse_if (not (length file_key == file_key_size)) key_material
  ok (record {
    input = input;
    broken = broken;
    file_key = file_key;
    key = [];
    base = [];
    seq = 0;
    plain = [];
    header_read = false;
    saw_final = false;
    fault = none;
  })

-- The salt of a header, which is refused unless its record size and key identifier are the fixed ones.
unfoldable pub parse_header : Bytes → Result Bytes
parse_header header = do
  refuse_if (not (length header == header_size)) bad_content
  refuse_if
      (not (be_value (take 4 (drop content_salt_size header)) == record_size)
        || not (get_or header (content_salt_size + 4) 0 == 0))
      bad_content
  ok (take content_salt_size header)

-- What an opened record holds: the delimiter is its last octet.
unfoldable pub strip_delimiter : Bytes → Bytes × ℕ
strip_delimiter plain = (take (length plain - 1) plain, get_or plain (length plain - 1) 0)

module _ (keys : ContentKeys) where
  -- `readHeader`; any fault of it is the content error.
  unfoldable pub read_header : Decryptor → Decryptor × Option Error
  unfolding parse_header derive_content_keys
  read_header d =
      let rest = drop header_size d.input in
      let derived = do
        salt ← parse_header (take header_size d.input)
        derive_content_keys keys d.file_key salt
      in elim derived [
        | err x ↦ (record d { input = rest }, some bad_content)
        | ok (key, base) ↦
            (record d { input = rest; key = key; base = base; header_read = true }, none)
      ]

module _ (aead : Aead) where
  -- What `nextRecord` makes of the bytes that it has read and opened.
  unfoldable pub take_record : ℕ → Bytes → Bytes → Decryptor → Decryptor × Option Error
  unfolding strip_delimiter
  take_record n opened rest d =
      let (chunk, last) = strip_delimiter opened in
      if is_empty opened
      then (d, some bad_content)
      else if last == delimiter_final
      then (
        record d { plain = chunk; seq = suc d.seq; saw_final = true },
        if is_empty rest then none else some bad_content,
      )
      else if last == delimiter_non_final && n == record_size
      then (record d { plain = chunk; seq = suc d.seq }, none)
      else (d, some bad_content)

  unfoldable pub next_record : Decryptor → Decryptor × Option Error
  next_record d =
      let got = take record_size d.input in
      let rest = drop record_size d.input in
      let d' = record d { input = rest } in
      if not (ltb d.seq max_sequence)
      then (d, some bad_content)
      else if ltb (length got) record_size && (d.broken || is_empty got)
      then (d', some bad_content)
      else elim (aead.unseal d.key (record_nonce d.base d.seq) got []) [
        | none ↦ (d', some bad_content)
        | some opened ↦ take_record (length got) opened rest d'
      ]

  -- The loop of `Read`, which opens records until there is something to hand out, on the number of
  -- rounds left.
  unfoldable pub fill : ℕ → Decryptor → Decryptor × Option Error
  fill zero d = (d, none)
  fill (suc rounds) d =
      let (d', fault) = next_record d in
      let more = fill rounds d' in
      if not (is_empty d.plain)
      then (d, none)
      else if d.saw_final
      then (d, some eof)
      else elim fault [ some x ↦ (d', some x) | none ↦ more ]

  -- `Read` into a buffer of a size: the bytes handed out, and the error if any. Two rounds of the loop
  -- are enough.
  unfoldable pub read : ContentKeys → ℕ → Decryptor → Decryptor × (Bytes × Option Error)
  unfolding read_header
  read keys size d = elim d.fault [
    | some x ↦ (d, ([], some x))
    | none ↦
        let (d₁, bad_header) = if d.header_read then (d, none) else read_header keys d in
        elim bad_header [
          | some x ↦ (record d₁ { fault = some x }, ([], some x))
          | none ↦
              let (d₂, fault) = fill 2 d₁ in
              elim fault [
                | some x ↦ (record d₂ { fault = some x }, ([], some x))
                | none ↦ (record d₂ { plain = drop size d₂.plain }, (take size d₂.plain, none))
              ]
        ]
  ]

  -- Reads into buffers of these sizes, until one fails: the bytes of all, and that failure.
  unfoldable pub drain : ContentKeys → List ℕ → Decryptor → Bytes × Option Error
  drain keys [] d = ([], none)
  drain keys (size ∷ sizes) d =
      let (d', (got, fault)) = read keys size d in
      let (rest, last) = drain keys sizes d' in
      elim fault [ some x ↦ (got, some x) | none ↦ (got ++ rest, last) ]
