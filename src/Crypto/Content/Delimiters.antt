-- ===== src/Crypto/Content/Delimiters.antt =====
-- internal/crypto/content.go: the delimiter at the end of an opened record.
use mathlib.Core.Path.{ap₂}
use sendan.Prelude.{
  ℕ, zero, suc, ◌-◌, ◌≤◌, ◌<◌, ◌≡◌, refl, sym, ap, ◌∙◌, Bool, true, false, ◌&&◌, List, [], ◌∷◌,
  ◌++◌, Bytes, is_empty, length, length-append, take, drop, get_or, take_of_append, arith,
}
use sendan.Crypto.Content.Decryptor.{strip_delimiter}

pub take_all {ℓ} :
    {A : Type ℓ} (n : ℕ) (xs : List A) → length xs ≤ n → (take n xs ≡ xs) × (drop n xs ≡ [])
take_all zero [] h = (refl, refl)
take_all zero (x ∷ xs) h = absurd (omega arith)
take_all (suc n) [] h = (refl, refl)
take_all (suc n) (x ∷ xs) h =
    (ap (λ l. x ∷ l) (take_all n xs (omega arith)).0, (take_all n xs (omega arith)).1)

get_or_end : (xs : Bytes) (x : ℕ) → get_or (xs ++ x ∷ []) (length xs) 0 ≡ x
get_or_end [] x = refl
get_or_end (y ∷ xs) x = get_or_end xs x

pub strip_end : (xs : Bytes) (x : ℕ) → strip_delimiter (xs ++ x ∷ []) ≡ (xs, x)
unfolding strip_delimiter
strip_end xs x =
    let size : length (xs ++ x ∷ []) - 1 ≡ length xs = omega (arith, length-append xs (x ∷ [])) in
    rw size (
      ap₂ (λ (a : Bytes) (b : ℕ). (a, b)) (take_of_append xs (x ∷ []) (length xs) refl)
        (get_or_end xs x))

-- A text that is not empty is its front with its last octet.
pub strip_split :
    (xs : Bytes) → is_empty xs ≡ false → xs ≡ (strip_delimiter xs).0 ++ (strip_delimiter xs).1 ∷ []
unfolding strip_delimiter
strip_split [] h = cc
strip_split (x ∷ []) h = refl
strip_split (x ∷ y ∷ xs) h =
    let size : suc (suc (length xs)) - 1 ≡ suc (length xs) = omega arith in
    let before : suc (length xs) - 1 ≡ length xs = omega arith in
    let rest = strip_split (y ∷ xs) refl in
    ap (λ (l : Bytes). x ∷ l)
      (rest ∙ ap (λ (n : ℕ). take n (y ∷ xs) ++ get_or (y ∷ xs) n 0 ∷ []) before)
    ∙ ap (λ (n : ℕ). take n (x ∷ y ∷ xs) ++ get_or (x ∷ y ∷ xs) n 0 ∷ []) (sym size)

pub append_full : (xs : Bytes) (x : ℕ) → is_empty (xs ++ x ∷ []) ≡ false
append_full [] x = refl
append_full (y ∷ xs) x = refl

pub empty_rest : (xs : Bytes) → is_empty xs ≡ true → xs ≡ []
empty_rest [] h = refl
empty_rest (x ∷ xs) h = cc

pub and_right : (a b : Bool) → b ≡ false → (a && b) ≡ false
and_right true b h = h
and_right false b h = refl

pub full_size : (xs : Bytes) → 0 < length xs → is_empty xs ≡ false
full_size [] h = absurd (omega arith)
full_size (x ∷ xs) h = refl
