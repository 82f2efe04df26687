-- ===== src/Crypto/Content/Decrypting.antt =====
-- internal/crypto/content.go: what `nextRecord` makes of the bytes in front of it. It opens a record that
-- stands next, and what it opens is one.
use mathlib.Core.Path.{ap₂}
use sendan.Prelude.{
  ℕ, suc, ◌+◌, ◌≤◌, ◌<◌, ◌≡◌, refl, sym, ap, ◌∙◌, inl, inr, Bool, true, false, not, ◌&&◌, ◌||◌,
  Option, none, some, [], ◌∷◌, ◌++◌, Bytes, ltb, ◌==◌, if◌then◌else◌, is_empty, length, length-take,
  take, drop, take-append-drop, take_of_append, drop_of_append, append-nil, Error, arith,
  bad_content, Bool-cases, Option-cases, ==_iff, lt→ltb, ltb→lt,
}
use sendan.Crypto.Aead.{Aead}
use sendan.Crypto.Content.{
  max_record_plaintext, max_sequence, record_size, record_nonce, delimiter, delimiter_final,
  delimiter_non_final,
}
use sendan.Crypto.Content.Reference.{seal_record, length-seal_record, unseal-seal_record}
use sendan.Crypto.Content.Decryptor.{Decryptor, strip_delimiter, take_record, next_record}
use sendan.Crypto.Content.Delimiters.{
  take_all, strip_end, strip_split, append_full, empty_rest, and_right, full_size,
}

module _ (aead : Aead) (key base : Bytes) where
  -- One record in front of what is left to read: the record that ends a stream, with nothing behind it,
  -- or a full one.
  pub data Record (seq : ℕ) (chunk : Bytes) : Bytes → Bool → Bytes → Type 0 where
    last :
        {s : Bytes}
        → length chunk ≤ max_record_plaintext
        → s ≡ seal_record aead key base seq true chunk
        → Record seq chunk s true []
    full :
        {s : Bytes} {rest : Bytes}
        → length chunk ≡ max_record_plaintext
        → s ≡ seal_record aead key base seq false chunk ++ rest
        → Record seq chunk s false rest

  module _ (file_key : Bytes) where
    -- A decryptor that has read its header and met no fault.
    abbrev pub state : Bool → Bytes → ℕ → Bytes → Bool → Decryptor
    state broken input seq plain final = record {
      input = input;
      broken = broken;
      file_key = file_key;
      key = key;
      base = base;
      seq = seq;
      plain = plain;
      header_read = true;
      saw_final = final;
      fault = none;
    }

    -- `take_record`, with what it tests and splits off.
    abbrev taking : ℕ → Bytes → Decryptor → Bool → Bytes × ℕ → Decryptor × Option Error
    taking n rest d nothing x =
        if nothing
        then (d, some bad_content)
        else if x.1 == delimiter_final
        then (
          record d { plain = x.0; seq = suc d.seq; saw_final = true },
          if is_empty rest then none else some bad_content,
        )
        else if x.1 == delimiter_non_final && n == record_size
        then (record d { plain = x.0; seq = suc d.seq }, none)
        else (d, some bad_content)

    take_record-taking :
        (n : ℕ) (chunk rest : Bytes) (x : ℕ) (d : Decryptor)
        → take_record aead n (chunk ++ x ∷ []) rest d ≡ taking n rest d false (chunk, x)
    unfolding take_record
    take_record-taking n chunk rest x d =
        ap₂ (λ (y : Bytes × ℕ) (b : Bool). taking n rest d b y) (strip_end chunk x)
          (append_full chunk x)

    -- The two ways in which an opened record is accepted.
    data Taken (n : ℕ) (rest : Bytes) (d d' : Decryptor) (chunk : Bytes) (x : ℕ) : Type 0 where
      last_taken :
          x ≡ delimiter_final
          → is_empty rest ≡ true
          → d' ≡ record d { plain = chunk; seq = suc d.seq; saw_final = true }
          → Taken n rest d d' chunk x
      full_taken :
          x ≡ delimiter_non_final
          → n ≡ record_size
          → d' ≡ record d { plain = chunk; seq = suc d.seq }
          → Taken n rest d d' chunk x

    taking-Taken :
        (n : ℕ) (rest : Bytes) (d d' : Decryptor) (nothing : Bool) (chunk : Bytes) (x : ℕ)
        → taking n rest d nothing (chunk, x) ≡ (d', none)
        → (nothing ≡ false) × Taken n rest d d' chunk x
    taking-Taken n rest d d' true chunk x h = absurd (ground (arith, ap (λ r. r.1) h))
    taking-Taken n rest d d' false chunk x h = (
      refl,
      elim (Bool-cases (x == delimiter_final)) [
        | inl e ↦ last_taken ((==_iff _ _).0 e) (ground arith) (ground arith)
        | inr e ↦ elim (Bool-cases (x == delimiter_non_final && n == record_size)) [
          | inl e₁ ↦ full_taken (ground arith) (ground arith) (ground arith)
          | inr e₁ ↦ absurd (ground arith)
        ]
      ],
    )

    -- What `next_record` does with the bytes it has cut off.
    abbrev opening : Bool → ℕ → Bytes → Bytes → Decryptor × Option Error
    opening broken seq got rest =
        let d' = state broken rest seq [] false in
        elim (aead.unseal key (record_nonce base seq) got []) [
          | none ↦ (d', some bad_content)
          | some opened ↦ take_record aead (length got) opened rest d'
        ]

    opening-unseal :
        (broken : Bool) (seq : ℕ) (got opened rest : Bytes)
        → aead.unseal key (record_nonce base seq) got [] ≡ some opened
        → opening broken seq got rest
          ≡ take_record aead (length got) opened rest (state broken rest seq [] false)
    opening-unseal broken seq got opened rest h =
        ap
          (λ (o : Option Bytes). elim o [
            | none ↦ (state broken rest seq [] false, some bad_content)
            | some text ↦ take_record aead (length got) text rest (state broken rest seq [] false)
          ])
          h

    -- `next_record`, with what its guards test, what it reads and what it leaves.
    abbrev guarded : Bool → Bytes → ℕ → Bool → Bool → Bytes → Bytes → Decryptor × Option Error
    guarded broken input seq in_range short got rest =
        if not in_range
        then (state broken input seq [] false, some bad_content)
        else if short
        then (state broken rest seq [] false, some bad_content)
        else opening broken seq got rest

    next_record-opening :
        (input got rest : Bytes) (seq : ℕ)
        → seq < max_sequence
        → (take record_size input ≡ got) × (drop record_size input ≡ rest)
        → (ltb (length got) record_size && is_empty got) ≡ false
        → next_record aead (state false input seq [] false) ≡ opening false seq got rest
    unfolding next_record
    next_record-opening input got rest seq h cut enough =
        ap₂
          (λ (a b : Bytes).
            guarded false input seq (ltb seq max_sequence)
              (ltb (length a) record_size && is_empty a) a b)
          cut.0 cut.1
        ∙ ap₂ (λ (b c : Bool). guarded false input seq b c got rest) (lt→ltb seq max_sequence h)
            enough

    -- A record that stands next is opened.
    pub next_record-Record :
        (chunk input rest : Bytes) (seq : ℕ) (final : Bool)
        → seq < max_sequence
        → Record seq chunk input final rest
        → next_record aead (state false input seq [] false)
          ≡ (state false rest (suc seq) chunk final, none)
    next_record-Record chunk input _ seq _ h (last short e) =
        let got = seal_record aead key base seq true chunk in
        let size : length input ≡ length chunk + 17 =
          ap length e ∙ length-seal_record aead key base seq true chunk in
        let (all, none_left) = take_all record_size input (omega (arith, size, short)) in
        next_record-opening input input [] seq h (all, none_left)
          (and_right (ltb (length input) record_size) (is_empty input)
            (full_size input (omega (arith, size))))
        ∙ ap (λ g. opening false seq g []) e
        ∙ opening-unseal false seq got (chunk ++ delimiter_final ∷ []) []
            (unseal-seal_record aead key base seq true chunk)
        ∙ take_record-taking (length got) chunk [] delimiter_final (state false [] seq [] false)
    next_record-Record chunk input rest seq _ h (full size e) =
        let got = seal_record aead key base seq false chunk in
        let n : record_size ≡ length got =
          omega (arith, length-seal_record aead key base seq false chunk, size) in
        let d = state false rest seq [] false in
        next_record-opening input got rest seq h
          (
            ap (take record_size) e ∙ take_of_append got rest record_size n,
            ap (drop record_size) e ∙ drop_of_append got rest record_size n,
          )
          (ground (arith, n))
        ∙ opening-unseal false seq got (chunk ++ delimiter_non_final ∷ []) rest
            (unseal-seal_record aead key base seq false chunk)
        ∙ take_record-taking (length got) chunk rest delimiter_non_final d
        ∙ ap (λ m. taking m rest d false (chunk, delimiter_non_final)) (sym n)

    -- What is behind the guards of a record that is opened.
    guarded_opens :
        (broken : Bool) (input got rest : Bytes) (seq : ℕ) (in_range short : Bool) (d' : Decryptor)
        → guarded broken input seq in_range short got rest ≡ (d', none)
        → (in_range ≡ true)
          × ((opened : Bytes) × (aead.unseal key (record_nonce base seq) got [] ≡ some opened)
              × (take_record aead (length got) opened rest (state broken rest seq [] false)
                  ≡ (d', none)))
    guarded_opens broken input got rest seq false short d' h =
        absurd (ground (arith, ap (λ r. r.1) h))
    guarded_opens broken input got rest seq true true d' h =
        absurd (ground (arith, ap (λ r. r.1) h))
    guarded_opens broken input got rest seq true false d' h =
        elim (Option-cases (aead.unseal key (record_nonce base seq) got [])) [
          | inl e ↦ absurd (ground (arith, ap (λ r. r.1) h, e))
          | inr (opened, e) ↦
              (refl, (opened, e, sym (opening-unseal broken seq got opened rest e) ∙ h))
        ]

    -- A text that opens is the record of what it opens to.
    opened_sealed :
        (seq : ℕ) (got opened : Bytes) (final : Bool)
        → aead.unseal key (record_nonce base seq) got [] ≡ some opened
        → is_empty opened ≡ false
        → (strip_delimiter opened).1 ≡ delimiter final
        → got ≡ seal_record aead key base seq final (strip_delimiter opened).0
    unfolding seal_record
    opened_sealed seq got opened final h some_ x =
        aead.seal-unseal key (record_nonce base seq) got [] opened h
        ∙ ap (λ t. aead.seal key (record_nonce base seq) t [])
            (strip_split opened some_ ∙ ap (λ n. (strip_delimiter opened).0 ++ n ∷ []) x)

    -- What is opened without a fault is a record that stands next.
    pub Record-next_record :
        (broken : Bool) (input : Bytes) (seq : ℕ) (d' : Decryptor)
        → next_record aead (state broken input seq [] false) ≡ (d', none)
        → (seq < max_sequence)
          × ((chunk rest : Bytes) × (final : Bool) × Record seq chunk input final rest
              × (d' ≡ state broken rest (suc seq) chunk final))
    unfolding next_record take_record
    Record-next_record broken input seq d' h =
        let got = take record_size input in
        let rest = drop record_size input in
        let (in_range, (opened, is_open, takes)) =
          guarded_opens broken input got rest seq (ltb seq max_sequence)
            (ltb (length got) record_size && (broken || is_empty got)) d' h in
        let chunk = (strip_delimiter opened).0 in
        let x = (strip_delimiter opened).1 in
        let d = state broken rest seq [] false in
        let (some_, t) = taking-Taken (length got) rest d d' (is_empty opened) chunk x takes in
        (
          ltb→lt seq max_sequence in_range,
          elim t [
            | last_taken x_ nothing e ↦
                let same = opened_sealed seq got opened true is_open some_ x_ in
                let gone = empty_rest rest nothing in
                let size = ap length same ∙ length-seal_record aead key base seq true chunk in
                (
                  chunk,
                  [],
                  true,
                  last (omega (arith, size, length-take record_size input)) (
                      sym (take-append-drop record_size input)
                      ∙ ap (λ r. got ++ r) gone
                      ∙ append-nil got
                      ∙ same),
                  e ∙ ap (λ r. state broken r (suc seq) chunk true) gone,
                )
            | full_taken x_ n e ↦
                let same = opened_sealed seq got opened false is_open some_ x_ in
                let size = ap length same ∙ length-seal_record aead key base seq false chunk in
                (
                  chunk,
                  rest,
                  false,
                  full (omega (arith, size, n))
                      (sym (take-append-drop record_size input) ∙ ap (λ g. g ++ rest) same),
                  e,
                )
          ],
        )

    taking_fault :
        (n : ℕ) (rest : Bytes) (d : Decryptor) (nothing : Bool) (x : Bytes × ℕ) (fault : Error)
        → (taking n rest d nothing x).1 ≡ some fault
        → bad_content ≡ fault
    taking_fault n rest d true x fault h = ground (arith, h)
    taking_fault n rest d false x fault h = ground (arith, h)

    opening_fault :
        (broken : Bool) (seq : ℕ) (got rest : Bytes) (fault : Error)
        → (opening broken seq got rest).1 ≡ some fault
        → bad_content ≡ fault
    unfolding take_record
    opening_fault broken seq got rest fault h =
        elim (Option-cases (aead.unseal key (record_nonce base seq) got [])) [
          | inl e ↦ ground (arith, h, e)
          | inr (opened, e) ↦
              taking_fault (length got) rest (state broken rest seq [] false) (is_empty opened)
                (strip_delimiter opened) fault
                (sym (ap (λ r. r.1) (opening-unseal broken seq got opened rest e)) ∙ h)
        ]

    guarded_fault :
        (broken : Bool) (input got rest : Bytes) (seq : ℕ) (in_range short : Bool) (fault : Error)
        → (guarded broken input seq in_range short got rest).1 ≡ some fault
        → bad_content ≡ fault
    guarded_fault broken input got rest seq false short fault h = ground (arith, h)
    guarded_fault broken input got rest seq true true fault h = ground (arith, h)
    guarded_fault broken input got rest seq true false fault h =
        opening_fault broken seq got rest fault h

    -- A record that is not opened is refused with the content error.
    pub next_record_fault :
        (broken : Bool) (input : Bytes) (seq : ℕ) (fault : Error)
        → (next_record aead (state broken input seq [] false)).1 ≡ some fault
        → bad_content ≡ fault
    unfolding next_record
    next_record_fault broken input seq fault h =
        guarded_fault broken input (take record_size input) (drop record_size input) seq
          (ltb seq max_sequence)
          (ltb (length (take record_size input)) record_size
            && (broken || is_empty (take record_size input)))
          fault h
