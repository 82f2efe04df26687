-- ===== src/Crypto/Content/Headers.antt =====
-- internal/crypto/content.go: the header of a stream, as it is written and as it is parsed.
use mathlib.Core.Path.{ap₂}
use sendan.Prelude.{
  ℕ, zero, suc, ◌+◌, ◌<◌, ◌≡◌, sym, ap, ◌∙◌, not, ◌||◌, [], ◌∷◌, ◌++◌, Bytes, length, length-append,
  length-take, length-drop, All-take, take, drop, get_or, take-append-drop, arith, bad_content,
  ◌==◌, Result, ok, take_of_append, drop_of_append, refuse_if, ◌>>◌,
}
use sendan.Blob.Counter.{be_value, IsOctets}
use sendan.Blob.Octets.{be_octets, length-be_octets, be_value-injective, be_octets-IsOctets}
use sendan.Crypto.Content.{header_size, content_salt_size, record_size, content_header}
use sendan.Crypto.Content.Decryptor.{parse_header}

pub length-content_header :
    (salt : Bytes) → length salt ≡ content_salt_size → length (content_header salt) ≡ header_size
unfolding content_header
length-content_header salt size = omega (
  arith,
  size,
  length-append salt (be_octets 4 record_size ++ 0 ∷ []),
  length-append (be_octets 4 record_size) (0 ∷ []),
  length-be_octets 4 record_size,
)

-- `parse_header`, with what it reads of the header.
abbrev parsed : ℕ → Bytes → ℕ → Bytes → Result Bytes
parsed size behind idlen salt = do
  refuse_if (not (size == header_size)) bad_content
  refuse_if (not (be_value (take 4 behind) == record_size) || not (idlen == 0)) bad_content
  ok salt

get_or_behind :
    (xs ys : Bytes) (n i : ℕ) → n ≡ length xs + i → get_or (xs ++ ys) n 0 ≡ get_or ys i 0
get_or_behind [] ys n i e = ap (λ m. get_or ys m 0) (omega (arith, e))
get_or_behind (x ∷ xs) ys zero i e = absurd (omega (arith, e))
get_or_behind (x ∷ xs) ys (suc n) i e = get_or_behind xs ys n i (omega (arith, e))

abbrev after_salt : Bytes
after_salt = be_octets 4 record_size ++ 0 ∷ []

pub parse_header-content_header :
    (salt : Bytes) → length salt ≡ content_salt_size → parse_header (content_header salt) ≡ ok salt
unfolding parse_header content_header be_octets be_value
parse_header-content_header salt size =
    ap
      (λ n.
        parsed n (drop 16 (salt ++ after_salt)) (get_or (salt ++ after_salt) 20 0)
          (take 16 (salt ++ after_salt)))
      (length-content_header salt size)
    ∙ ap₂ (λ (n : ℕ) (b : Bytes). parsed 21 b n (take 16 (salt ++ after_salt)))
        (get_or_behind salt after_salt 20 4 (omega (arith, size)))
        (drop_of_append salt after_salt 16 (sym size))
    ∙ ap (λ s. parsed 21 after_salt 0 s) (take_of_append salt after_salt 16 (sym size))

parsed_ok :
    (size idlen : ℕ) (behind salt salt' : Bytes)
    → parsed size behind idlen salt ≡ ok salt'
    → (size ≡ header_size) × (be_value (take 4 behind) ≡ record_size) × (idlen ≡ 0) × (salt ≡ salt')
parsed_ok size idlen behind salt salt' h = (ground arith, ground arith, ground arith, ground arith)

five_octets : (t : Bytes) → length t ≡ 5 → get_or t 4 0 ≡ 0 → t ≡ take 4 t ++ 0 ∷ []
five_octets (a ∷ b ∷ c ∷ d ∷ e ∷ []) h z = ap (λ n. a ∷ b ∷ c ∷ d ∷ n ∷ []) z
five_octets [] h z = absurd (omega (arith, h))
five_octets (a ∷ []) h z = absurd (omega (arith, h))
five_octets (a ∷ b ∷ []) h z = absurd (omega (arith, h))
five_octets (a ∷ b ∷ c ∷ []) h z = absurd (omega (arith, h))
five_octets (a ∷ b ∷ c ∷ d ∷ []) h z = absurd (omega (arith, h))
five_octets (a ∷ b ∷ c ∷ d ∷ e ∷ f ∷ t) h z = absurd (omega (arith, h))

pub drop-IsOctets : (n : ℕ) (xs : Bytes) → IsOctets xs → IsOctets (drop n xs)
drop-IsOctets zero xs h = h
drop-IsOctets (suc n) [] h = tt
drop-IsOctets (suc n) (x ∷ xs) h = drop-IsOctets n xs h.1

pub content_header-parse_header :
    (header salt : Bytes)
    → IsOctets header
    → parse_header header ≡ ok salt
    → (length salt ≡ content_salt_size) × (header ≡ content_header salt)
unfolding parse_header content_header be_octets be_value
content_header-parse_header header salt octets h =
    let (size, value, idlen, cut) =
      parsed_ok (length header) (get_or header 20 0) (drop 16 header) (take 16 header) salt h in
    let tail = drop 16 header in
    let long : length tail ≡ 5 = omega (arith, length-drop 16 header, size) in
    let whole = sym (take-append-drop 16 header) in
    let key_length : get_or tail 4 0 ≡ 0 =
      sym (get_or_behind (take 16 header) tail 20 4 (omega (arith, length-take 16 header, size)))
      ∙ ap (λ l. get_or l 20 0) (sym whole)
      ∙ idlen in
    let number : take 4 tail ≡ be_octets 4 record_size =
      be_value-injective (take 4 tail) (be_octets 4 record_size)
        (All-take (λ c. c < 256) 4 tail (drop-IsOctets 16 header octets))
        (be_octets-IsOctets 4 record_size (omega arith)) (omega (arith, length-take 4 tail, long))
        value in
    (
      sym (ap length cut) ∙ omega (arith, length-take 16 header, size),
      whole
          ∙ ap₂ (λ (a b : Bytes). a ++ b) cut
              (five_octets tail long key_length ∙ ap (λ l. l ++ 0 ∷ []) number),
    )
