-- ===== src/Prelude/Xor.antt =====
-- Exclusive or on bytes: its laws, by evaluation over all pairs of bytes.
use Prim.Native.Nat.{ℕ, zero, suc, ◌<◌, bit_xor}
use mathlib.Core.Path.{◌≡◌, refl}
use mathlib.Core.Bool.{Bool, true, false, ◌&&◌}
use native.Mathlib.Omega.{arith}
use sendan.Prelude.Tests.{◌==◌, ltb, if◌then◌else◌}

-- A test of every pair whose second number, or whose two numbers, are below a bound.
row_passes : (ℕ → ℕ → Bool) → ℕ → ℕ → Bool
row_passes test x zero = true
row_passes test x (suc width) = if test x width then row_passes test x width else false

square_passes : (ℕ → ℕ → Bool) → ℕ → ℕ → Bool
square_passes test zero width = true
square_passes test (suc height) width =
    if row_passes test height width then square_passes test height width else false

in_row :
    (test : ℕ → ℕ → Bool) (x k width : ℕ)
    → k < width
    → row_passes test x width ≡ true
    → test x k ≡ true
unfolding row_passes
in_row test x k zero below passes = absurd (omega arith)
in_row test x k (suc width) below passes = ground (arith, in_row test x k width)

in_square :
    (test : ℕ → ℕ → Bool) (x height width : ℕ)
    → square_passes test height width ≡ true
    → x < height
    → row_passes test x width ≡ true
unfolding square_passes
in_square test x zero width passes below = absurd (omega arith)
in_square test x (suc height) width passes below = ground (arith, in_square test x height width)

-- Applying a byte twice gives the first one back, a byte applied to a byte is a byte, and the order
-- does not matter.
abbrev xor_test : ℕ → ℕ → Bool
xor_test x k = bit_xor (bit_xor x k) k == x && ltb (bit_xor x k) 256 && bit_xor x k == bit_xor k x

every_pair : square_passes xor_test 256 256 ≡ true
unfolding square_passes row_passes
every_pair = refl

xor_tested : (x k : ℕ) → x < 256 → k < 256 → xor_test x k ≡ true
xor_tested x k hx hk = in_row xor_test x k 256 hk (in_square xor_test x 256 256 every_pair hx)

pub bit_xor_twice : (x k : ℕ) → x < 256 → k < 256 → bit_xor (bit_xor x k) k ≡ x
bit_xor_twice x k hx hk = ground (arith, xor_tested x k hx hk)

pub bit_xor-lt : (x k : ℕ) → x < 256 → k < 256 → bit_xor x k < 256
bit_xor-lt x k hx hk = ground (arith, xor_tested x k hx hk)

pub bit_xor_comm : (x k : ℕ) → x < 256 → k < 256 → bit_xor x k ≡ bit_xor k x
bit_xor_comm x k hx hk = ground (arith, xor_tested x k hx hk)
