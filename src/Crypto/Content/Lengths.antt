-- ===== src/Crypto/Content/Lengths.antt =====
-- internal/crypto/content.go: the length of an encoding, and the one an uploader declares.
use mathlib.Core.Path.{ap₂}
use sendan.Prelude.{
  ℕ, suc, ◌+◌, ◌-◌, ◌*◌, ◌/◌, ◌%◌, ◌^◌, ◌≤◌, ◌<◌, ◌≡◌, ap, ◌∙◌, Bool, true, false, [], ◌∷◌, ◌++◌,
  Bytes, ◌==◌, ltb, if◌then◌else◌, length, length-append, ok, arith, Bool-cases, inl, inr, ==_iff,
  refuse_if, bad_content, ◌>>◌,
}
use sendan.Prelude.Int.{ℤ, pos, is_negative, wrap64}
use sendan.Crypto.Aead.{Aead}
use sendan.Crypto.Content.{
  max_record_plaintext, record_size, header_size, content_salt_size, content_header,
  encoded_content_length, quotient64,
}
use sendan.Crypto.Content.Headers.{length-content_header}
use sendan.Crypto.Content.Reference.{seal_record, length-seal_record, seal_from, encode}

-- The number of records before the last.
unfoldable before_last : ℕ → ℕ
before_last t = if ltb 0 t then (t + max_record_plaintext - 1) / max_record_plaintext - 1 else 0

before_last_more : (t : ℕ) → 0 < t → before_last (max_record_plaintext + t) ≡ suc (before_last t)
unfolding before_last
before_last_more t h = ground arith

before_last_one : (t : ℕ) → t ≤ max_record_plaintext → before_last t ≡ 0
unfolding before_last
before_last_one t h = ground arith

module _ (aead : Aead) (key base : Bytes) where
  length-seal_from :
      (seq : ℕ) (chunk plain : Bytes) (t : ℕ)
      → length chunk ≤ max_record_plaintext
      → t ≡ length chunk + length plain
      → length (seal_from aead key base seq chunk plain) ≡ t + 17 + 17 * before_last t
  unfolding seal_from
  length-seal_from seq chunk [] t fits e = omega (
    arith,
    length-seal_record aead key base seq true chunk,
    before_last_one t (omega (arith, e, fits)),
    e,
  )
  length-seal_from seq chunk (x ∷ plain) t fits e =
      elim (Bool-cases (length chunk == max_record_plaintext)) [
        | inl is_full ↦
            let size : length chunk ≡ max_record_plaintext = (==_iff _ _).0 is_full in
            let record_ = seal_record aead key base seq false chunk in
            let rest = seal_from aead key base (suc seq) (x ∷ []) plain in
            let t' = suc (length plain) in
            let whole : t ≡ max_record_plaintext + t' = omega (arith, size, e) in
            let more = ap before_last whole ∙ before_last_more t' (omega arith) in
            rw (seal_from, is_full)
              (omega (
                arith,
                size,
                length-append record_ rest,
                length-seal_record aead key base seq false chunk,
                length-seal_from (suc seq) (x ∷ []) plain t' (omega arith) (omega arith),
                whole,
                more,
              ))
        | inr space ↦
            rw (seal_from, space)
              (length-seal_from seq (chunk ++ x ∷ []) plain t
                (ground (arith, fits, length-append chunk (x ∷ [])))
                (omega (arith, e, length-append chunk (x ∷ []))))
      ]

before_last_fits : (n : ℕ) → before_last n * max_record_plaintext ≤ n
unfolding before_last
before_last_fits n = ground arith

not_negative : (n : ℕ) → is_negative (pos n) ≡ false
not_negative n = ground arith

-- Below 2 ^ 62 no sum leaves the range of `int64`.
blocks_given :
    (n : ℕ)
    → n < 2 ^ 62
    → quotient64 (wrap64 (n + max_record_plaintext - 1)) max_record_plaintext
      ≡ (n + max_record_plaintext - 1) / max_record_plaintext
blocks_given n h = ground arith

wrap_pos : (n : ℕ) → n < 2 ^ 63 → wrap64 n ≡ pos n
wrap_pos n h = ground arith

abbrev full_blocks : ℕ → ℕ → ℕ
full_blocks n blocks = if ltb 0 n then (blocks + (2 ^ 64 - 1)) % 2 ^ 64 else 0

full_blocks_given :
    (n : ℕ)
    → n < 2 ^ 62
    → full_blocks n ((n + max_record_plaintext - 1) / max_record_plaintext) ≡ before_last n
unfolding before_last
full_blocks_given n h = ground arith

-- The arithmetic after the number of full records.
abbrev declared : ℕ → ℕ → ℤ
declared n full_ = wrap64 (
    header_size
    + full_ * record_size
    + (n + (2 ^ 64 - full_ * max_record_plaintext % 2 ^ 64)) % 2 ^ 64
    + (1 + 16))

final_given :
    (n taken : ℕ) → n < 2 ^ 62 → taken ≤ n → (n + (2 ^ 64 - taken % 2 ^ 64)) % 2 ^ 64 ≡ n - taken
final_given n taken h k = ground arith

declared_given :
    (n full_ : ℕ)
    → n < 2 ^ 62
    → full_ * max_record_plaintext ≤ n
    → declared n full_ ≡ pos (header_size + n + 17 + 17 * full_)
declared_given n full_ h k =
    let sum =
      header_size
      + full_ * record_size
      + (n + (2 ^ 64 - full_ * max_record_plaintext % 2 ^ 64)) % 2 ^ 64
      + (1 + 16) in
    let value : sum ≡ header_size + n + 17 + 17 * full_ =
      omega (arith, final_given n (full_ * max_record_plaintext) h k, k) in
    wrap_pos sum (omega (arith, value, h, k)) ∙ ap (λ (m : ℕ). pos m) value

length_given :
    (n : ℕ)
    → n < 2 ^ 62
    → encoded_content_length (pos n) ≡ ok (pos (header_size + n + 17 + 17 * before_last n))
unfolding encoded_content_length
length_given n h =
    ap₂
      (λ (b : Bool) (blocks : ℕ). do
        refuse_if b bad_content
        ok (declared n (full_blocks n blocks)))
      (not_negative n) (blocks_given n h)
    ∙ ap (λ m. ok (declared n m)) (full_blocks_given n h)
    ∙ ap (λ z. ok z) (declared_given n (before_last n) h (before_last_fits n))

-- The length that an uploader declares is that of the encoding: for every plaintext shorter than 2 ^ 62
-- and every salt of its size, what `EncodedContentLength` gives for the length of the plaintext is the
-- length of the stream.
pub length-encode :
    (aead : Aead) (key base salt plain : Bytes)
    → length salt ≡ content_salt_size
    → length plain < 2 ^ 62
    → encoded_content_length (pos (length plain))
      ≡ ok (pos (length (encode aead key base salt plain)))
unfolding encode
length-encode aead key base salt plain k h =
    let n = length plain in
    let rest = seal_from aead key base 0 [] plain in
    length_given n h
    ∙ ap (λ (m : ℕ). ok (pos m))
        (omega (
          arith,
          length-append (content_header salt) rest,
          length-content_header salt k,
          length-seal_from aead key base 0 [] plain n (omega arith) (omega arith),
        ))
