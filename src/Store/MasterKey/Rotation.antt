-- ===== src/Store/MasterKey/Rotation.antt =====
-- Rotating the master key.
use mathlib.Core.Path.{subst}
use sendan.Prelude.{
  ℕ, suc, ◌≡◌, refl, false, Option, none, some, [], ◌∷◌, Bytes, Result-cases, ok, err, length,
  arith, inl, inr, wrong_master_key, length-append,
}
use sendan.Crypto.Aead.{Aead, nonce_size}
use sendan.Store.Table.{Row, Table}
use sendan.Store.MasterKey.{
  wrap, key_size, wrapped_size, open_stored, close_stored, rewrap_one, rekey, rekey_rows,
}
use sendan.Store.MasterKey.Wrapping.{unwrap-wrap, unwrap-size}

module _ (aead : Aead) where
  open_close :
      (to : Option Bytes) (nonce key stored : Bytes)
      → length nonce ≡ nonce_size
      → length key ≡ key_size
      → close_stored aead to nonce key ≡ ok stored
      → open_stored aead to stored ≡ ok key
  unfolding open_stored close_stored
  open_close none nonce key stored n k h = ground arith
  open_close (some master) nonce key stored n k h =
      (unwrap-wrap aead nonce master key stored n k h).0

  open_stored-size :
      (from : Option Bytes) (stored key : Bytes)
      → open_stored aead from stored ≡ ok key
      → length key ≡ key_size
  unfolding open_stored
  open_stored-size none stored key h = ground arith
  open_stored-size (some master) stored key h = unwrap-size aead master stored key h

  -- The size of a stored key: in the clear, or wrapped under a master key.
  abbrev pub stored_size : Option Bytes → ℕ
  stored_size none = key_size
  stored_size (some master) = wrapped_size

  close_stored-size :
      (to : Option Bytes) (nonce key stored : Bytes)
      → length nonce ≡ nonce_size
      → length key ≡ key_size
      → close_stored aead to nonce key ≡ ok stored
      → length stored ≡ stored_size to
  unfolding close_stored
  close_stored-size none nonce key stored n k h = ground arith
  close_stored-size (some master) nonce key stored n k h =
      (unwrap-wrap aead nonce master key stored n k h).1

  -- What the rotation makes of one row: the key that the old master key opens is the one that the new
  -- master key opens, it is stored in the form that the new setting asks for, and nothing else of the
  -- row changes.
  abbrev pub Rotated : Option Bytes → Option Bytes → Row → Row → Type 0
  Rotated from to r r' =
      (r' ≡ record r { at_rest_key = r'.at_rest_key })
      × ((key : Bytes) × (open_stored aead from r.at_rest_key ≡ ok key)
          × (open_stored aead to r'.at_rest_key ≡ ok key)
          × (length r'.at_rest_key ≡ stored_size to))

  abbrev pub AllRotated : Option Bytes → Option Bytes → Table → Table → Type 0
  AllRotated from to [] [] = Unit
  AllRotated from to [] (r' ∷ t') = ⊥
  AllRotated from to (r ∷ t) [] = ⊥
  AllRotated from to (r ∷ t) (r' ∷ t') = Rotated from to r r' × AllRotated from to t t'

  module _ (from to : Option Bytes) (nonces : ℕ → Bytes)
      (sized : (i : ℕ) → length (nonces i) ≡ nonce_size) where
    rewrap_one-Rotated :
        (i : ℕ) (r : Row) (next : Bytes)
        → rewrap_one aead from to (nonces i) r.at_rest_key ≡ ok next
        → Rotated from to r (record r { at_rest_key = next })
    unfolding rewrap_one
    rewrap_one-Rotated i r next h = elim (Result-cases (open_stored aead from r.at_rest_key)) [
      | inl (key, e) ↦
          let closed : close_stored aead to (nonces i) key ≡ ok next = ground (arith, e) in
          let whole = open_stored-size from r.at_rest_key key e in
          (
            refl,
            (
              key,
              e,
              open_close to (nonces i) key next (sized i) whole closed,
              close_stored-size to (nonces i) key next (sized i) whole closed,
            ),
          )
      | inr (fault, e) ↦ absurd (ground (arith, e))
    ]

    rekey_rows-AllRotated :
        (i : ℕ) (t t' : Table) (n : ℕ)
        → rekey_rows (λ j. rewrap_one aead from to (nonces j)) i t ≡ ok (t', n)
        → AllRotated from to t t'
    unfolding rekey_rows
    rekey_rows-AllRotated i [] t' n h =
        let e : [] ≡ t' = ground arith in subst (AllRotated from to []) e tt
    rekey_rows-AllRotated i (r ∷ t) t' n h =
        elim (Result-cases (rewrap_one aead from to (nonces i) r.at_rest_key)) [
          | inr (fault, e) ↦ absurd (ground (arith, e))
          | inl (next, e) ↦
              elim (Result-cases (rekey_rows (λ j. rewrap_one aead from to (nonces j)) (suc i) t)) [
                | inr (fault, e') ↦ absurd (ground (arith, e, e'))
                | inl (rest, e') ↦
                    let whole : record r { at_rest_key = next } ∷ rest.0 ≡ t' =
                      ground (arith, e, e') in
                    subst (AllRotated from to (r ∷ t)) whole (
                      rewrap_one-Rotated i r next e,
                      rekey_rows-AllRotated (suc i) t rest.0 rest.1 e',
                    )
              ]
        ]

    -- A rotation that succeeds has opened every stored key under the old master key, and the new one
    -- opens each of them to the same key. With a new master key every key is stored wrapped, by its
    -- size, and with none it is stored in the clear; identifiers, hashes and counts are as before.
    pub rekey-AllRotated :
        (t t' : Table) (n : ℕ)
        → rekey false (λ j. rewrap_one aead from to (nonces j)) t ≡ ok (t', n)
        → AllRotated from to t t'
    unfolding rekey
    rekey-AllRotated t t' n h = rekey_rows-AllRotated 0 t t' n h

  -- Turning wrapping on a second time is refused at the first row that the first run wrapped: it
  -- neither wraps a wrapped key nor passes it over.
  pub rewrap_one_again :
      (master nonce nonce' stored wrapped : Bytes)
      → length nonce ≡ nonce_size
      → rewrap_one aead none (some master) nonce stored ≡ ok wrapped
      → rewrap_one aead none (some master) nonce' wrapped ≡ err wrong_master_key
  unfolding rewrap_one wrap
  rewrap_one_again master nonce nonce' stored wrapped n h = ground (
    arith,
    length-append nonce (aead.seal master nonce stored []),
    aead.length-seal master nonce stored [],
  )
