-- ===== src/Crypto/Content/Encrypting.antt =====
-- The encryptor writes the reference encoding, however the plaintext is cut into writes.
use mathlib.Core.Path.{subst, ap₂}
use sendan.Prelude.{
  ℕ, ◌+◌, ◌<◌, ◌≡◌, refl, sym, ap, ◌∙◌, Bool, true, false, Option, none, some, List, [], Bytes,
  if◌then◌else◌, length, ok, append_assoc, arith, Error,
}
use sendan.Crypto.Aead.{Aead}
use sendan.Crypto.Content.{
  ContentKeys, Encryptor, max_sequence, flush, close, new_encryptor_with_salt, content_header,
}
use sendan.Crypto.Content.Reference.{seal_from, encode}
use sendan.Crypto.Content.Writing.{
  joined, accepts, write_all, pending, CanTake, flushed, flush-flushed, write_all-pending,
}

module _ (aead : Aead) where
  -- What `Close` makes of its flush.
  abbrev closing : Encryptor × Option Error → Encryptor × Option Error
  closing r = elim r.1 [ some x ↦ (record r.0 { fault = some x }, some x) | none ↦ (r.0, none) ]

  close-pending :
      (e : Encryptor)
      → CanTake aead e 0
      → ((close aead accepts e).0.written ≡ pending aead e []) × ((close aead accepts e).1 ≡ none)
  unfolding close seal_from
  close-pending e c =
      let ends = flush-flushed aead true (record e { closed = true }) (omega (arith, c.counter)) in
      let closes : close aead accepts e
          ≡ (record (flushed aead true (record e { closed = true })) { fault = none }, none) =
        ap₂
          (λ (f : Option Error) (b : Bool). elim f [
            | some x ↦ (e, some x)
            | none ↦
                if b
                then (e, none)
                else closing (flush aead accepts true (record e { closed = true }))
          ])
          c.sound c.is_open
        ∙ (ap (λ r. closing r) ends
            ∙ ap
                (λ f. (record (flushed aead true (record e { closed = true })) { fault = f }, none))
                c.sound) in
      (
        ap (λ r. r.0.written) closes
            ∙ append_assoc e.written (if e.header_written then [] else e.pending_header) _,
        ap (λ r. r.1) closes,
      )

  -- The encryptor that a file key and a salt give.
  abbrev initial : ContentKeys → Bytes → Bytes → Encryptor
  initial keys file_key salt = record {
    key = keys.content_key file_key salt;
    base = keys.nonce_base file_key salt;
    seq = 0;
    pending_header = content_header salt;
    buffer = [];
    header_written = false;
    closed = false;
    fault = none;
    written = [];
  }

  new_encryptor_ok :
      (keys : ContentKeys) (file_key salt : Bytes) (e : Encryptor)
      → new_encryptor_with_salt keys file_key salt ≡ ok e
      → initial keys file_key salt ≡ e
  unfolding new_encryptor_with_salt
  new_encryptor_ok keys file_key salt e made = ground arith

  fresh :
      (keys : ContentKeys) (file_key salt : Bytes) (more : ℕ)
      → more < max_sequence
      → CanTake aead (initial keys file_key salt) more
  fresh keys file_key salt more h = record {
    is_open = refl;
    sound = refl;
    fits = omega arith;
    counter = omega arith;
  }

  -- The encryptor is a streaming form of the encoding: however a plaintext is cut into writes, also empty ones, what is
  -- written once it is closed is the header of the salt and the records of the whole plaintext, and
  -- neither a write nor the close fails. The writer below accepts all it is given, and the
  -- plaintext is shorter than the bound on the record counter.
  pub close-write_all :
      (keys : ContentKeys) (file_key salt : Bytes) (e : Encryptor) (ps : List Bytes)
      → new_encryptor_with_salt keys file_key salt ≡ ok e
      → length (joined ps) < max_sequence
      → let (e', fault) = close aead accepts (write_all aead ps e) in
        (e'.written
          ≡ encode aead
              (keys.content_key file_key salt)
              (keys.nonce_base file_key salt)
              salt
              (joined ps))
        × (fault ≡ none)
  unfolding new_encryptor_with_salt encode
  close-write_all keys file_key salt e ps made short =
      let new = new_encryptor_ok keys file_key salt e made in
      let (sent, ready) = write_all-pending aead ps e (
        subst (λ x. CanTake aead x (length (joined ps) + 0)) new
          (fresh keys file_key salt (length (joined ps) + 0) (omega (arith, short)))) in
      let (ends, fine) = close-pending (write_all aead ps e) ready in
      (ends ∙ (sent ∙ ap (λ x. pending aead x (joined ps)) (sym new)), fine)
