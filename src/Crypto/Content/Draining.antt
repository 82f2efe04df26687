-- ===== src/Crypto/Content/Draining.antt =====
-- internal/crypto/content.go: reading a stream to its end. The decryptor accepts exactly the streams that
-- are made of a header, full records and a last record, and hands out their plaintext in order.
use mathlib.Core.Path.{subst}
use sendan.Prelude.{
  ℕ, suc, ◌<◌, ◌≡◌, refl, sym, ap, ◌∙◌, ◌⊎◌, inl, inr, Bool, true, false, Option, none, some, List,
  [], ◌∷◌, ◌++◌, Bytes, is_empty, length, length-append, length-take, take, drop, take-append-drop,
  append_assoc, arith, bad_content, eof, Error, Option-cases, All,
}
use sendan.Crypto.Aead.{Aead}
use sendan.Crypto.Content.{ContentKeys, max_sequence}
use sendan.Crypto.Content.Decryptor.{Decryptor, next_record, fill, read, drain}
use sendan.Crypto.Content.Decrypting.{
  Record, last, full, state, next_record-Record, Record-next_record, next_record_fault,
}

size_full : (xs : Bytes) → is_empty xs ≡ false → 0 < length xs
size_full [] h = absurd (ground (arith, h))
size_full (x ∷ xs) h = omega arith

module _ (aead : Aead) (key base : Bytes) where
  -- A sequence of records from a place on, and its plaintext.
  pub data Stream : ℕ → Bytes → Bytes → Type 0 where
    ends :
        {seq : ℕ} {s chunk : Bytes}
        → seq < max_sequence
        → Record aead key base seq chunk s true []
        → Stream seq s chunk
    continues :
        {seq : ℕ} {s q : Bytes} (chunk rest p : Bytes)
        → seq < max_sequence
        → Record aead key base seq chunk s false rest
        → Stream (suc seq) rest p
        → q ≡ chunk ++ p
        → Stream seq s q

  -- The plaintext that is left: what is opened, and the stream behind it unless that was the last.
  abbrev pub Left : Bytes → ℕ → Bytes → Bool → Bytes → Type 0
  Left input seq plain true q = q ≡ plain
  Left input seq plain false q = (p : Bytes) × Stream seq input p × (q ≡ plain ++ p)

  Stream-Left :
      (seq : ℕ) (chunk s rest q : Bytes) (final : Bool)
      → seq < max_sequence
      → Record aead key base seq chunk s final rest
      → Left rest (suc seq) chunk final q
      → Stream seq s q
  Stream-Left seq chunk s _ q _ h (last a b) e = subst (Stream seq s) (sym e) (ends h (last a b))
  Stream-Left seq chunk s rest q _ h (full a b) (p, t, e) = continues chunk rest p h (full a b) t e

  module _ (file_key : Bytes) where
    abbrev here : Bool → Bytes → ℕ → Bytes → Bool → Decryptor
    here = state aead key base file_key

    -- What `Read` finds once its loop has ended: a record with bytes to hand out, behind which the rest
    -- of the plaintext is left, or the end.
    data Filled (broken : Bool) (q : Bytes) (r : Decryptor × Option Error) : Type 0 where
      at_end : q ≡ [] → r.1 ≡ some eof → Filled broken q r
      filled :
          (input : Bytes) (seq : ℕ) (plain : Bytes) (final : Bool)
          → r ≡ (here broken input seq plain final, none)
          → is_empty plain ≡ false
          → Left input seq plain final q
          → Filled broken q r

    -- A round that opens nothing.
    fill_plain :
        (rounds : ℕ) (broken : Bool) (input : Bytes) (seq : ℕ) (plain q : Bytes) (final : Bool)
        → (is_empty plain ≡ false) ⊎ (final ≡ true)
        → Left input seq plain final q
        → Filled broken q (fill aead (suc rounds) (here broken input seq plain final))
    unfolding fill
    fill_plain rounds broken input seq (x ∷ plain) q final h l =
        filled input seq (x ∷ plain) final refl refl l
    fill_plain rounds broken input seq [] q true h l = at_end l refl
    fill_plain rounds broken input seq [] q false h l = absurd (ground (arith, h))

    -- A chunk that does not end the stream is not empty.
    chunk_unless_end :
        (seq : ℕ) (chunk s rest : Bytes) (final : Bool)
        → Record aead key base seq chunk s final rest
        → (is_empty chunk ≡ false) ⊎ (final ≡ true)
    chunk_unless_end seq chunk s _ _ (last a b) = inr refl
    chunk_unless_end seq [] s rest _ (full a b) = absurd (omega (arith, a))
    chunk_unless_end seq (x ∷ chunk) s rest _ (full a b) = inl refl

    abbrev rest_of : ℕ → Decryptor × Option Error → Decryptor × Option Error
    rest_of rounds r = elim r.1 [ some x ↦ (r.0, some x) | none ↦ fill aead rounds r.0 ]

    fill-Stream :
        (input : Bytes) (seq : ℕ) (p q : Bytes)
        → Stream seq input p
        → q ≡ p
        → Filled false q (fill aead 2 (here false input seq [] false))
    unfolding fill
    fill-Stream input seq p q (ends h r) e =
        subst (Filled false q)
          (sym (ap (rest_of 1) (next_record-Record aead key base file_key p input [] seq true h r)))
          (fill_plain 0 false [] (suc seq) p q true (inr refl) e)
    fill-Stream input seq p q (continues chunk rest p' h r t e') e =
        subst (Filled false q)
          (sym (
            ap (rest_of 1)
              (next_record-Record aead key base file_key chunk input rest seq false h r)))
          (fill_plain 0 false rest (suc seq) chunk q false
            (chunk_unless_end seq chunk input rest false r) (p', t, e ∙ e'))

    -- Two rounds reach bytes to hand out or the end of a stream.
    fill-Filled :
        (input : Bytes) (seq : ℕ) (plain q : Bytes) (final : Bool)
        → Left input seq plain final q
        → Filled false q (fill aead 2 (here false input seq plain final))
    fill-Filled input seq (x ∷ plain) q final l =
        fill_plain 1 false input seq (x ∷ plain) q final (inl refl) l
    fill-Filled input seq [] q true l = fill_plain 1 false input seq [] q true (inr refl) l
    fill-Filled input seq [] q false (p, t, e) = fill-Stream input seq p q t e

    -- The loop of `Read` from a state, backwards.
    data Emptied (broken : Bool) (input : Bytes) (seq : ℕ) (plain : Bytes) (final : Bool)
        (r : Decryptor × Option Error) : Type 0 where
      at_last :
          Left input seq plain final [] → r.1 ≡ some eof → Emptied broken input seq plain final r
      failed : r.1 ≡ some bad_content → Emptied broken input seq plain final r
      handed :
          (input' : Bytes) (seq' : ℕ) (plain' : Bytes) (final' : Bool)
          → r ≡ (here broken input' seq' plain' final', none)
          → ((q : Bytes) → Left input' seq' plain' final' q → Left input seq plain final q)
          → Emptied broken input seq plain final r

    fill_round :
        (rounds : ℕ) (broken : Bool) (input : Bytes) (seq : ℕ) (plain : Bytes) (final : Bool)
        → (is_empty plain ≡ false) ⊎ (final ≡ true)
        → Emptied broken input seq plain final
            (fill aead (suc rounds) (here broken input seq plain final))
    unfolding fill
    fill_round rounds broken input seq (x ∷ plain) final h =
        handed input seq (x ∷ plain) final refl (λ q l. l)
    fill_round rounds broken input seq [] true h = at_last refl refl
    fill_round rounds broken input seq [] false h = absurd (ground (arith, h))

    stepped_over :
        (broken : Bool) (input : Bytes) (seq : ℕ) (chunk rest : Bytes) (final : Bool)
        (r : Decryptor × Option Error)
        → seq < max_sequence
        → Record aead key base seq chunk input final rest
        → Emptied broken rest (suc seq) chunk final r
        → Emptied broken input seq [] false r
    stepped_over broken input seq chunk rest final r h record_ (at_last l e) =
        at_last ([], Stream-Left seq chunk input rest [] final h record_ l, refl) e
    stepped_over broken input seq chunk rest final r h record_ (failed e) = failed e
    stepped_over broken input seq chunk rest final r h record_
          (handed input' seq' plain' final' e f) =
        handed input' seq' plain' final' e
          (λ q l. (q, Stream-Left seq chunk input rest q final h record_ (f q l), refl))

    fill-Emptied :
        (broken : Bool) (input : Bytes) (seq : ℕ) (plain : Bytes) (final : Bool)
        → Emptied broken input seq plain final (fill aead 2 (here broken input seq plain final))
    unfolding fill
    fill-Emptied broken input seq (x ∷ plain) final =
        fill_round 1 broken input seq (x ∷ plain) final (inl refl)
    fill-Emptied broken input seq [] true = fill_round 1 broken input seq [] true (inr refl)
    fill-Emptied broken input seq [] false =
        let r = next_record aead (here broken input seq [] false) in
        elim (Option-cases r.1) [
          | inr (fault, e) ↦ failed (
              ap (λ f. (rest_of 1 (r.0, f)).1) e
              ∙ ap (λ x. some x)
                  (sym (next_record_fault aead key base file_key broken input seq fault e)))
          | inl e ↦
              let opened : r ≡ (r.0, none) = ap (λ f. (r.0, f)) e in
              let (h, (chunk, rest, final', record_, to)) =
                Record-next_record aead key base file_key broken input seq r.0 opened in
              let same : fill aead 2 (here broken input seq [] false)
                  ≡ fill aead 1 (here broken rest (suc seq) chunk final') =
                ap (rest_of 1) (opened ∙ ap (λ d. (d, none)) to) in
              subst (Emptied broken input seq [] false) (sym same) (
                stepped_over broken input seq chunk rest final' _ h record_ (
                  fill_round 0 broken rest (suc seq) chunk final'
                    (chunk_unless_end seq chunk input rest final' record_)))
        ]

    -- Handing out the first bytes of a record leaves the rest of the plaintext.
    Left-drop :
        (size : ℕ) (input : Bytes) (seq : ℕ) (plain q : Bytes) (final : Bool)
        → Left input seq plain final q
        → (q' : Bytes) × Left input seq (drop size plain) final q' × (q ≡ take size plain ++ q')
    Left-drop size input seq plain q true e =
        (drop size plain, refl, e ∙ sym (take-append-drop size plain))
    Left-drop size input seq plain q false (p, t, e) = (
      drop size plain ++ p,
      (p, t, refl),
      e
          ∙ ap (λ b. b ++ p) (sym (take-append-drop size plain))
          ∙ append_assoc (take size plain) (drop size plain) p,
    )

    Left-take :
        (size : ℕ) (input : Bytes) (seq : ℕ) (plain q : Bytes) (final : Bool)
        → Left input seq (drop size plain) final q
        → Left input seq plain final (take size plain ++ q)
    Left-take size input seq plain q true e =
        ap (λ b. take size plain ++ b) e ∙ take-append-drop size plain
    Left-take size input seq plain q false (p, t, e) = (
      p,
      t,
      ap (λ b. take size plain ++ b) e
          ∙ sym (append_assoc (take size plain) (drop size plain) p)
          ∙ ap (λ b. b ++ p) (take-append-drop size plain),
    )

    module _ (keys : ContentKeys) where
      -- What `Read` hands out of what its loop leaves, and the reads after it.
      abbrev handing : ℕ → Decryptor × Option Error → Decryptor × (Bytes × Option Error)
      handing size r = elim r.1 [
        | some x ↦ (record r.0 { fault = some x }, ([], some x))
        | none ↦ (record r.0 { plain = drop size r.0.plain }, (take size r.0.plain, none))
      ]

      abbrev after : List ℕ → Decryptor × (Bytes × Option Error) → Bytes × Option Error
      after sizes r =
          let (rest, end) = drain aead keys sizes r.0 in
          elim r.1.1 [ some x ↦ (r.1.0, some x) | none ↦ (r.1.0 ++ rest, end) ]

      drain-round :
          (broken : Bool) (size : ℕ) (sizes : List ℕ) (input : Bytes) (seq : ℕ) (plain : Bytes)
          (final : Bool)
          → drain aead keys (size ∷ sizes) (here broken input seq plain final)
            ≡ after sizes (handing size (fill aead 2 (here broken input seq plain final)))
      unfolding drain read
      drain-round broken size sizes input seq plain final = refl

      after_fault :
          (size : ℕ) (sizes : List ℕ) (r : Decryptor × Option Error) (x : Error)
          → r.1 ≡ some x
          → after sizes (handing size r) ≡ ([], some x)
      after_fault size sizes r x e = ap (λ f. after sizes (handing size (r.0, f))) e

      -- Reading on hands out all that is left and then the end.
      pub drain-Left :
          (sizes : List ℕ) (input : Bytes) (seq : ℕ) (plain q : Bytes) (final : Bool)
          → All (λ size. 0 < size) sizes
          → length q < length sizes
          → Left input seq plain final q
          → drain aead keys sizes (here false input seq plain final) ≡ (q, some eof)
      drain-Left [] input seq plain q final sound enough l = absurd (omega (arith, enough))
      drain-Left (size ∷ sizes) input seq plain q final (some_, sound) enough l =
          drain-round false size sizes input seq plain final
          ∙ elim (fill-Filled input seq plain q final l) [
            | at_end e end ↦ after_fault size sizes _ eof end ∙ ap (λ b. (b, some eof)) (sym e)
            | filled input' seq' plain' final' e full_ l' ↦
                let (q', l'', cut) = Left-drop size input' seq' plain' q final' l' in
                ap (λ r. after sizes (handing size r)) e
                ∙ ap (λ (r : Bytes × Option Error). (take size plain' ++ r.0, r.1))
                    (drain-Left sizes input' seq' (drop size plain') q' final' sound
                      (omega (
                        arith,
                        enough,
                        some_,
                        ap length cut,
                        length-append (take size plain') q',
                        length-take size plain',
                        size_full plain' full_,
                      ))
                      l'')
                ∙ ap (λ b. (b, some eof)) (sym cut)
          ]

      pub Left-drain :
          (broken : Bool) (sizes : List ℕ) (input : Bytes) (seq : ℕ) (plain q : Bytes)
          (final : Bool)
          → drain aead keys sizes (here broken input seq plain final) ≡ (q, some eof)
          → Left input seq plain final q
      unfolding drain read
      Left-drain broken [] input seq plain q final h = absurd (ground (arith, ap (λ r. r.1) h))
      Left-drain broken (size ∷ sizes) input seq plain q final h =
          elim (fill-Emptied broken input seq plain final) [
            | at_last l e ↦
                subst (Left input seq plain final)
                  (ap (λ r. r.0) (sym (after_fault size sizes _ eof e) ∙ h)) l
            | failed e ↦
                absurd
                  (ground (arith, ap (λ r. r.1) (sym (after_fault size sizes _ bad_content e) ∙ h)))
            | handed input' seq' plain' final' e f ↦
                let r = drain aead keys sizes (here broken input' seq' (drop size plain') final') in
                let got : (take size plain' ++ r.0, r.1) ≡ (q, some eof) =
                  sym (ap (λ x. after sizes (handing size x)) e) ∙ h in
                let l =
                  Left-drain broken sizes input' seq' (drop size plain') r.0 final'
                    (ap (λ f. (r.0, f)) (ap (λ x. x.1) got)) in
                subst (Left input seq plain final) (ap (λ x. x.0) got)
                  (f (take size plain' ++ r.0) (Left-take size input' seq' plain' r.0 final' l))
          ]
