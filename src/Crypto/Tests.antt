-- ===== src/Crypto/Tests.antt =====
-- The theorems of the client's cryptography at concrete values.
use sendan.Prelude.{◌+◌, ◌%◌, ◌≤◌, ◌≡◌, [], ◌∷◌, Bytes, ok, length}
use sendan.Crypto.Padding.{pad, unpad, pad_block, unpad-pad}

-- A plaintext that ends in the marker and in a zero.
abbrev plain : Bytes
plain = 7 ∷ 0x80 ∷ 0 ∷ []

unpad-pad_example :
    (unpad (pad plain) ≡ ok plain)
    × (length (pad plain) % pad_block ≡ 0)
    × (length plain + 1 ≤ length (pad plain))
    × (length (pad plain) ≤ length plain + pad_block)
unpad-pad_example = unpad-pad plain
