-- ===== src/Crypto/Content/Reference.antt =====
-- The encoding as a function of the plaintext: a reference for the encryptor and the decryptor.
use sendan.Prelude.{
  some, ℕ, suc, ◌+◌, ◌≤◌, ◌≡◌, refl, ap, ◌∙◌, Bool, true, false, [], ◌∷◌, ◌++◌, Bytes, ◌==◌, length,
  length-append, append_assoc, append-nil, arith, ==_iff,
}
use sendan.Crypto.Aead.{Aead}
use sendan.Crypto.Content.{max_record_plaintext, record_nonce, delimiter, content_header}

module _ (aead : Aead) (key base : Bytes) where
  -- One record: the chunk with its delimiter, sealed under the nonce of its place.
  unfoldable pub seal_record : ℕ → Bool → Bytes → Bytes
  seal_record seq final chunk =
      aead.seal key (record_nonce base seq) (chunk ++ delimiter final ∷ []) []

  pub length-seal_record :
      (seq : ℕ) (final : Bool) (chunk : Bytes)
      → length (seal_record seq final chunk) ≡ length chunk + 17
  unfolding seal_record
  length-seal_record seq final chunk = omega (
    arith,
    aead.length-seal key (record_nonce base seq) (chunk ++ delimiter final ∷ []) [],
    length-append chunk (delimiter final ∷ []),
  )

  pub unseal-seal_record :
      (seq : ℕ) (final : Bool) (chunk : Bytes)
      → aead.unseal key (record_nonce base seq) (seal_record seq final chunk) []
        ≡ some (chunk ++ delimiter final ∷ [])
  unfolding seal_record
  unseal-seal_record seq final chunk =
      aead.unseal-seal key (record_nonce base seq) (chunk ++ delimiter final ∷ []) []

  -- The records of what is buffered and what follows, byte by byte: a full buffer is sealed when a
  -- byte comes after it, and the rest at the end.
  unfoldable pub seal_from : ℕ → Bytes → Bytes → Bytes
  unfolding seal_record
  seal_from seq chunk [] = seal_record seq true chunk
  seal_from seq chunk (x ∷ rest) = elim (length chunk == max_record_plaintext) [
    | true ↦ seal_record seq false chunk ++ seal_from (suc seq) (x ∷ []) rest
    | false ↦ seal_from seq (chunk ++ x ∷ []) rest
  ]

  -- A stream: the header of the salt and the records of the plaintext.
  unfoldable pub encode : Bytes → Bytes → Bytes
  unfolding seal_from
  encode salt plain = content_header salt ++ seal_from 0 [] plain

  -- Bytes that fit are taken into the buffer.
  pub seal_from-append :
      (seq : ℕ) (chunk a rest : Bytes)
      → length chunk + length a ≤ max_record_plaintext
      → seal_from seq chunk (a ++ rest) ≡ seal_from seq (chunk ++ a) rest
  unfolding seal_from
  seal_from-append seq chunk [] rest h = rw append-nil refl
  seal_from-append seq chunk (x ∷ a) rest h =
      let space : (length chunk == max_record_plaintext) ≡ false = ground arith in
      rw (seal_from, space)
        (seal_from-append seq (chunk ++ x ∷ []) a rest (omega (arith, length-append chunk (x ∷ [])))
          ∙ ap (λ c. seal_from seq c rest) (append_assoc chunk (x ∷ []) a))

  -- A full buffer is a record of its own once a byte follows.
  pub seal_from_full :
      (seq : ℕ) (chunk : Bytes) (x : ℕ) (rest : Bytes)
      → length chunk ≡ max_record_plaintext
      → seal_from seq chunk (x ∷ rest)
        ≡ seal_record seq false chunk ++ seal_from (suc seq) [] (x ∷ rest)
  unfolding seal_from
  seal_from_full seq chunk x rest h =
      let full : (length chunk == max_record_plaintext) ≡ true = (==_iff _ _).1 h in
      rw (seal_from, full) refl
