-- ===== src/Crypto/Aead.antt =====
-- AES-256-GCM, `cipher.AEAD` of the standard library, as a parameter: the code seals and opens with
-- it and relies on no more than this. A sealed text is the plaintext with a tag of 16 bytes, and what
-- was sealed opens under the same key, nonce and additional data. Opening takes the tag off.
use mathlib.Core.Path.{ap₂}
use sendan.Prelude.{
  ℕ, ◌+◌, ◌-◌, ◌≤◌, ◌≡◌, sym, ap, ◌∙◌, ◌&&◌, Option, none, some, ◌++◌, Bytes, bytes_eq,
  bytes_eq_iff, bytes_eq_refl, length, length-append, length-take, take, drop, leb, if◌then◌else◌,
  arith, take_of_append, drop_of_append, take-append-drop, replicate,
}

abbrev pub tag_size : ℕ
tag_size = 16

abbrev pub nonce_size : ℕ
nonce_size = 12

-- The arguments are the key, the nonce, the text and the additional data.
pub record Aead : Type 0 where
  pub seal : Bytes → Bytes → Bytes → Bytes → Bytes
  pub unseal : Bytes → Bytes → Bytes → Bytes → Option Bytes
  pub length-seal :
      (key nonce text extra : Bytes) → length (seal key nonce text extra) ≡ length text + tag_size
  pub unseal-seal :
      (key nonce text extra : Bytes)
      → unseal key nonce (seal key nonce text extra) extra ≡ some text
  pub length-unseal :
      (key nonce sealed extra text : Bytes)
      → unseal key nonce sealed extra ≡ some text
      → length sealed ≡ length text + tag_size
  -- The tag is determined by the rest, so a sealed text that opens is the one that sealing gives.
  pub seal-unseal :
      (key nonce sealed extra text : Bytes)
      → unseal key nonce sealed extra ≡ some text
      → sealed ≡ seal key nonce text extra

-- A value: no secrecy, but the laws hold.
abbrev pub zero_tag : Bytes
zero_tag = replicate 16 0

abbrev pub clear_unseal : Bytes → Option Bytes
clear_unseal sealed =
    if leb 16 (length sealed) && bytes_eq (drop (length sealed - 16) sealed) zero_tag
    then some (take (length sealed - 16) sealed)
    else none

pub clear_length : (text : Bytes) → length (text ++ zero_tag) ≡ length text + tag_size
clear_length text = length-append text zero_tag

pub clear_unseal_seal : (text : Bytes) → clear_unseal (text ++ zero_tag) ≡ some text
clear_unseal_seal text =
    let size = length-append text zero_tag in
    let cut = length (text ++ zero_tag) - 16 in
    ground (
      arith,
      size,
      take_of_append text zero_tag cut (omega (arith, size)),
      drop_of_append text zero_tag cut (omega (arith, size)),
      bytes_eq_refl zero_tag,
    )

clear_sound :
    (sealed text : Bytes)
    → clear_unseal sealed ≡ some text
    → (16 ≤ length sealed)
      × (drop (length sealed - 16) sealed ≡ zero_tag)
      × (take (length sealed - 16) sealed ≡ text)
clear_sound sealed text h = (
  ground arith,
  ground (arith, bytes_eq_iff (drop (length sealed - 16) sealed) zero_tag),
  ground arith,
)

pub clear_length_unseal :
    (sealed text : Bytes) → clear_unseal sealed ≡ some text → length sealed ≡ length text + tag_size
clear_length_unseal sealed text h =
    let (above, tag, cut) = clear_sound sealed text h in
    omega (arith, above, length-take (length sealed - 16) sealed, ap length cut)

pub clear_seal_unseal :
    (sealed text : Bytes) → clear_unseal sealed ≡ some text → sealed ≡ text ++ zero_tag
clear_seal_unseal sealed text h =
    let (above, tag, cut) = clear_sound sealed text h in
    sym (take-append-drop (length sealed - 16) sealed) ∙ ap₂ (λ (a b : Bytes). a ++ b) cut tag

abbrev pub clear_aead : Aead
clear_aead = record {
  seal = λ key nonce text extra. text ++ zero_tag;
  unseal = λ key nonce text extra. clear_unseal text;
  length-seal = λ key nonce text extra. clear_length text;
  unseal-seal = λ key nonce text extra. clear_unseal_seal text;
  length-unseal = λ key nonce sealed extra text h. clear_length_unseal sealed text h;
  seal-unseal = λ key nonce sealed extra text h. clear_seal_unseal sealed text h;
}
