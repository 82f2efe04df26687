-- ===== src/Crypto/Content/Writing.antt =====
-- internal/crypto/content.go: what the writes of an encryptor leave, against the reference encoding.
use mathlib.Core.Path.{subst, ap₂}
use sendan.Prelude.{
  ℕ, zero, suc, ◌+◌, ◌-◌, ◌≤◌, ◌<◌, ◌≡◌, refl, sym, ap, ◌∙◌, Bool, true, false, Option, none, some,
  List, [], ◌∷◌, ◌++◌, Bytes, ◌==◌, if◌then◌else◌, min, length, length-append, length-take,
  length-drop, take, drop, take-append-drop, append_assoc, append-nil, after_close, arith,
  Bool-cases, inl, inr, ==_iff, Error,
}
use sendan.Crypto.Aead.{Aead}
use sendan.Crypto.Content.{
  Encryptor, max_record_plaintext, max_sequence, write_header, write_record, flush, make_room,
  write_loop, write,
}
use sendan.Crypto.Content.Reference.{seal_record, seal_from, seal_from-append, seal_from_full}

-- The bytes of all writes.
unfoldable pub joined : List Bytes → Bytes
joined [] = []
joined (p ∷ ps) = p ++ joined ps

abbrev pub accepts : ℕ → Bool
accepts n = false

module _ (aead : Aead) where
  -- Every write of a list, one after the other.
  unfoldable pub write_all : List Bytes → Encryptor → Encryptor
  write_all [] e = e
  write_all (p ∷ ps) e = write_all ps (write aead accepts p e).0

  -- What the stream becomes if these bytes follow and it is then closed.
  abbrev pub pending : Encryptor → Bytes → Bytes
  pending e rest =
      e.written
      ++ ((if e.header_written then [] else e.pending_header)
          ++ seal_from aead e.key e.base e.seq e.buffer rest)

  -- An encryptor that can go on: it is open and sound, its buffer fits, and so many bytes more leave
  -- its counter below the bound.
  pub record CanTake (e : Encryptor) (more : ℕ) : Type 0 where
    pub is_open : e.closed ≡ false
    pub sound : e.fault ≡ none
    pub fits : length e.buffer ≤ max_record_plaintext
    pub counter : e.seq + length e.buffer + more < max_sequence

  -- The encryptor after a flush.
  abbrev pub flushed : Bool → Encryptor → Encryptor
  flushed final e = record e {
    seq = suc e.seq;
    header_written = true;
    buffer = [];
    written =
        (e.written ++ (if e.header_written then [] else e.pending_header))
        ++ seal_record aead e.key e.base e.seq final e.buffer;
  }

  pub flush-flushed :
      (final : Bool) (e : Encryptor)
      → e.seq < max_sequence
      → flush aead accepts final e ≡ (flushed final e, none)
  unfolding flush write_header write_record seal_record
  flush-flushed final e h = ground (arith, append-nil e.written)

  -- What flushing a full buffer does not change.
  pending-flushed :
      (e : Encryptor) (x : ℕ) (rest : Bytes)
      → length e.buffer ≡ max_record_plaintext
      → pending (flushed false e) (x ∷ rest) ≡ pending e (x ∷ rest)
  pending-flushed e x rest full =
      let head = if e.header_written then [] else e.pending_header in
      let sealed = seal_record aead e.key e.base e.seq false e.buffer in
      append_assoc (e.written ++ head) sealed _
      ∙ append_assoc e.written head _
      ∙ ap (λ b. e.written ++ (head ++ b))
          (sym (seal_from_full aead e.key e.base e.seq e.buffer x rest full))

  -- The bytes that one round copies into the buffer.
  abbrev room : Encryptor → Bytes → ℕ
  room e p = min (max_record_plaintext - length e.buffer) (length p)

  abbrev copied : Encryptor → Bytes → Encryptor
  copied e p = record e { buffer = e.buffer ++ take (room e p) p }

  copied_size :
      (e : Encryptor) (p : Bytes)
      → length e.buffer ≤ max_record_plaintext
      → (length (copied e p).buffer ≡ length e.buffer + room e p)
        × (length (drop (room e p) p) + room e p ≡ length p)
        × (length e.buffer + room e p ≤ max_record_plaintext)
  copied_size e p h = (
    omega (arith, length-append e.buffer (take (room e p) p), length-take (room e p) p),
    omega (arith, length-drop (room e p) p),
    omega arith,
  )

  pending-copied :
      (e : Encryptor) (p rest : Bytes)
      → length e.buffer ≤ max_record_plaintext
      → pending (copied e p) (drop (room e p) p ++ rest) ≡ pending e (p ++ rest)
  pending-copied e p rest h =
      let k = room e p in
      let head = if e.header_written then [] else e.pending_header in
      let fits = (copied_size e p h).2 in
      ap (λ b. e.written ++ (head ++ b))
        (sym (
            seal_from-append aead e.key e.base e.seq e.buffer (take k p) (drop k p ++ rest)
              (omega (arith, length-take k p, fits)))
          ∙ ap (seal_from aead e.key e.base e.seq e.buffer) (
              sym (append_assoc (take k p) (drop k p) rest)
              ∙ ap (λ b. b ++ rest) (take-append-drop k p)))

  -- What a write that took all its bytes leaves.
  record Took (e : Encryptor) (p : Bytes) (more count : ℕ) (r : Encryptor × (ℕ × Option Error))
      : Type 0 where
    same : (rest : Bytes) → pending r.0 rest ≡ pending e (p ++ rest)
    counted : r.1.0 ≡ count + length p
    unfailing : r.1.1 ≡ none
    ready : CanTake r.0 more

  abbrev round : (fuel : ℕ) (p : Bytes) (count : ℕ) (e : Encryptor) → Encryptor × (ℕ × Option Error)
  round fuel p count e =
      write_loop aead accepts fuel (drop (room e p) p) (count + room e p) (copied e p)

  -- The rest of a round, once there is room.
  abbrev after_room : ℕ → Bytes → ℕ → Encryptor × Option Error → Encryptor × (ℕ × Option Error)
  after_room fuel p count r = elim r.1 [
    | some x ↦ (record r.0 { fault = some x }, (count, some x))
    | none ↦ round fuel p count r.0
  ]

  make_room_full :
      (e : Encryptor)
      → length e.buffer ≡ max_record_plaintext
      → e.seq < max_sequence
      → make_room aead accepts e ≡ (flushed false e, none)
  unfolding make_room
  make_room_full e full h =
      let is_full : (length e.buffer == max_record_plaintext) ≡ true = (==_iff _ _).1 full in
      rw (make_room, is_full) (flush-flushed false e h)

  make_room_space :
      (e : Encryptor)
      → (length e.buffer == max_record_plaintext) ≡ false
      → make_room aead accepts e ≡ (e, none)
  unfolding make_room
  make_room_space e space = rw (make_room, space) refl

  write_loop-round :
      (fuel : ℕ) (x : ℕ) (xs : Bytes) (count : ℕ) (e e₁ : Encryptor)
      → make_room aead accepts e ≡ (e₁, none)
      → write_loop aead accepts (suc fuel) (x ∷ xs) count e ≡ round fuel (x ∷ xs) count e₁
  unfolding write_loop
  write_loop-round fuel x xs count e e₁ h = ap (λ r. after_room fuel (x ∷ xs) count r) h

  -- A round that copies at least a byte, and the rounds after it.
  round_last :
      (p : Bytes) (more count : ℕ) (e₁ : Encryptor) (r : Encryptor × (ℕ × Option Error))
      → length e₁.buffer ≤ max_record_plaintext
      → Took (copied e₁ p) (drop (room e₁ p) p) more (count + room e₁ p) r
      → Took e₁ p more count r
  round_last p more count e₁ r h t = record {
    same = λ rest. t.same rest ∙ pending-copied e₁ p rest h;
    counted = omega (arith, t.counted, copied_size e₁ p h);
    unfailing = t.unfailing;
    ready = t.ready;
  }

  nothing_taken :
      (e : Encryptor) (more count : ℕ)
      → CanTake e (0 + more)
      → Took e [] more count (e, (count, none))
  nothing_taken e more count c = record {
    same = λ rest. refl;
    counted = omega arith;
    unfailing = refl;
    ready = record {
      is_open = c.is_open;
      sound = c.sound;
      fits = c.fits;
      counter = omega (arith, c.counter);
    };
  }

  abbrev LoopTook : ℕ → Type 0
  LoopTook fuel =
      (p : Bytes) (more count : ℕ) (e : Encryptor)
      → length p ≤ fuel
      → CanTake e (length p + more)
      → Took e p more count (write_loop aead accepts fuel p count e)

  -- A round with room for a byte.
  round-Took :
      (fuel : ℕ) (x : ℕ) (xs : Bytes) (more count : ℕ) (e₁ : Encryptor)
      → length (x ∷ xs) ≤ suc fuel
      → length e₁.buffer < max_record_plaintext
      → CanTake e₁ (length (x ∷ xs) + more)
      → LoopTook fuel
      → Took e₁ (x ∷ xs) more count (round fuel (x ∷ xs) count e₁)
  round-Took fuel x xs more count e₁ h space c loop =
      let p = x ∷ xs in
      let (grown, left, fits) = copied_size e₁ p c.fits in
      round_last p more count e₁ _ c.fits (
        loop (drop (room e₁ p) p) more (count + room e₁ p) (copied e₁ p)
          (omega (arith, left, h, space))
          (record {
            is_open = c.is_open;
            sound = c.sound;
            fits = omega (arith, grown, fits);
            counter = omega (arith, grown, left, c.counter);
          }))

  write_loop-Took : (fuel : ℕ) → LoopTook fuel
  unfolding write_loop
  write_loop-Took zero [] more count e h c = nothing_taken e more count c
  write_loop-Took zero (x ∷ xs) more count e h c = absurd (omega arith)
  write_loop-Took (suc fuel) [] more count e h c = nothing_taken e more count c
  write_loop-Took (suc fuel) (x ∷ xs) more count e h c =
      elim (Bool-cases (length e.buffer == max_record_plaintext)) [
        | inl full ↦
            let is_full : length e.buffer ≡ max_record_plaintext = (==_iff _ _).0 full in
            let e₁ = flushed false e in
            let t : Took e₁ (x ∷ xs) more count (round fuel (x ∷ xs) count e₁) =
              round-Took fuel x xs more count e₁ h (omega arith)
                (record {
                  is_open = c.is_open;
                  sound = c.sound;
                  fits = omega arith;
                  counter = omega (arith, is_full, c.counter);
                })
                (write_loop-Took fuel) in
            subst (Took e (x ∷ xs) more count)
              (sym (
                write_loop-round fuel x xs count e e₁
                  (make_room_full e is_full (omega (arith, c.counter)))))
              (record {
                same = λ rest. t.same rest ∙ pending-flushed e x (xs ++ rest) is_full;
                counted = t.counted;
                unfailing = t.unfailing;
                ready = t.ready;
              })
        | inr space ↦
            subst (Took e (x ∷ xs) more count)
              (sym (write_loop-round fuel x xs count e e (make_room_space e space)))
              (round-Took fuel x xs more count e h (ground (arith, c.fits)) c
                (write_loop-Took fuel))
      ]

  write-Took :
      (p : Bytes) (more : ℕ) (e : Encryptor)
      → CanTake e (length p + more)
      → Took e p more 0 (write aead accepts p e)
  unfolding write
  write-Took p more e c =
      subst (Took e p more 0)
        (sym (
          ap₂
            (λ (f : Option Error) (b : Bool). elim f [
              | some x ↦ (e, (0, some x))
              | none ↦
                  if b then (e, (0, some after_close)) else write_loop aead accepts (length p) p 0 e
            ])
            c.sound c.is_open))
        (write_loop-Took (length p) p more 0 e (omega arith) c)

  pub write_all-pending :
      (ps : List Bytes) (e : Encryptor)
      → CanTake e (length (joined ps) + 0)
      → (pending (write_all ps e) [] ≡ pending e (joined ps)) × CanTake (write_all ps e) 0
  unfolding write_all joined
  write_all-pending [] e c = (refl, c)
  write_all-pending (p ∷ ps) e c =
      let t = write-Took p (length (joined ps) + 0) e (record {
        is_open = c.is_open;
        sound = c.sound;
        fits = c.fits;
        counter = omega (arith, length-append p (joined ps), c.counter);
      }) in
      let (same, ready) = write_all-pending ps (write aead accepts p e).0 t.ready in
      (same ∙ t.same (joined ps), ready)
