-- ===== src/Crypto/Padding.antt =====
-- internal/crypto/metadata.go: the padding of the metadata, which hides its length up to a block.
use sendan.Prelude.{
  ℕ, zero, suc, ◌+◌, ◌-◌, ◌*◌, ◌/◌, ◌%◌, ◌≤◌, ◌≡◌, refl, false, not, ◌||◌, [], ◌∷◌, ◌++◌, Bytes,
  ◌==◌, if◌then◌else◌, Result, ok, err, bad_metadata, is_empty, length, replicate, length-append,
  length-replicate, arith,
}

abbrev pub pad_block : ℕ
pad_block = 256

-- The size that `pad` allocates.
unfoldable pub padded_size : ℕ → ℕ
padded_size n = (n + 1 + pad_block - 1) / pad_block * pad_block

unfoldable pub pad : Bytes → Bytes
unfolding padded_size
pad plain = plain ++ 0x80 ∷ replicate (padded_size (length plain) - (length plain + 1)) 0

-- What the loop of `unpad` finds, going backwards: only zeros, the marker after some bytes, or
-- another byte in the marker's place.
pub data Found : Type 0 where
  only_zeros : Found
  marker_after : Bytes → Found
  no_marker : Found

unfoldable pub find_marker : Bytes → Found
find_marker [] = only_zeros
find_marker (x ∷ xs) = elim (find_marker xs) [
  | only_zeros ↦ if x == 0 then only_zeros else if x == 0x80 then marker_after [] else no_marker
  | marker_after plain ↦ marker_after (x ∷ plain)
  | no_marker ↦ no_marker
]

unfoldable pub unpad : Bytes → Result Bytes
unfolding find_marker
unpad padded =
    if is_empty padded || not (length padded % pad_block == 0)
    then err bad_metadata
    else elim (find_marker padded) [
      | only_zeros ↦ err bad_metadata
      | marker_after plain ↦ ok plain
      | no_marker ↦ err bad_metadata
    ]

find_marker-zeros : (k : ℕ) → find_marker (replicate k 0) ≡ only_zeros
unfolding find_marker
find_marker-zeros zero = refl
find_marker-zeros (suc k) = rw (find_marker-zeros k) refl

find_marker-padded :
    (plain : Bytes) (k : ℕ) → find_marker (plain ++ 0x80 ∷ replicate k 0) ≡ marker_after plain
unfolding find_marker
find_marker-padded [] k = rw (find_marker, find_marker-zeros k) refl
find_marker-padded (x ∷ plain) k = rw (find_marker-padded plain k) refl

padded_size_lem :
    (n : ℕ)
    → (padded_size n % pad_block ≡ 0) × (n + 1 ≤ padded_size n) × (padded_size n ≤ n + pad_block)
unfolding padded_size
padded_size_lem n = (omega arith, omega arith, omega arith)

length-pad : (plain : Bytes) → length (pad plain) ≡ padded_size (length plain)
unfolding pad
length-pad plain =
    let k = padded_size (length plain) - (length plain + 1) in
    let (_, above, _) = padded_size_lem (length plain) in
    omega (arith, length-append plain (0x80 ∷ replicate k 0), length-replicate {A = ℕ} k 0, above)

pad_filled : (plain : Bytes) → is_empty (pad plain) ≡ false
unfolding pad
pad_filled [] = refl
pad_filled (x ∷ plain) = refl

-- Padding is taken off exactly: whatever the plaintext is, also one that ends in the marker or in zeros,
-- its padded form is longer by at least one byte and at most a block, is a whole number of blocks, and
-- gives the plaintext back.
pub unpad-pad :
    (plain : Bytes)
    → (unpad (pad plain) ≡ ok plain)
      × (length (pad plain) % pad_block ≡ 0)
      × (length plain + 1 ≤ length (pad plain))
      × (length (pad plain) ≤ length plain + pad_block)
unfolding unpad
unpad-pad plain =
    let (aligned, above, below) = padded_size_lem (length plain) in
    let size = length-pad plain in
    let whole : length (pad plain) % pad_block ≡ 0 = rw size aligned in
    let marked : find_marker (pad plain) ≡ marker_after plain =
      unfold pad in find_marker-padded plain _ in
    (
      rw (pad_filled plain, whole, marked) refl,
      whole,
      omega (arith, size, above),
      omega (arith, size, below),
    )
