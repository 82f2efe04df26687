-- ===== src/Blob/Filling.antt =====
-- The loop of `writeChunk` in internal/blob/s3multipart.go, and the replacement of the tail.
use native.Mathlib.Nat.{zero-add}
use mathlib.Core.Path.{subst}
use sendan.Prelude.{
  ℕ, zero, suc, ◌+◌, ◌≡◌, refl, ap, ◌∙◌, ◌≤◌, ◌<◌, false, some, List, [], ◌∷◌, ◌++◌, Bytes, ok,
  arith, length, length-append, length-drop, take, drop, take-append-drop, append_assoc, append-nil,
  bytes_eq, bytes_eq_iff, bytes_eq_refl, codes, Bool-cases, inl, inr, ltb,
}
use sendan.Blob.Files.{contents}
use sendan.Blob.Objects.{ObjectStore, InProgress, concat}
use sendan.Blob.Multipart.{Filled, tail_key, fill_parts, put_tail}
use sendan.Blob.Listing.{calm_calls, concat-append, tail_of}

module _ (store : ObjectStore) (part_size : ℕ) (positive : 1 ≤ part_size) (key : Bytes) where
  -- What the loop keeps: the upload is the one it was, the objects are untouched, and the parts with what
  -- is left make up what they did with the bytes that came.
  pub record FilledFrom (u : InProgress) (before b : Bytes) (s : store.State)
      (f : Filled store.State) : Type 0 where
    pub left : Bytes
    pub rest_is : f.rest ≡ some left
    pub only : store.uploads key f.state ≡ u ∷ []
    pub objects : (j : Bytes) → store.object j f.state ≡ store.object j s
    pub together : concat (store.held key u.upload_id f.state) ++ left ≡ before ++ b
    pub counted : f.read + length left ≡ length b

  part_joined :
      (before b : Bytes) (held held₁ : List Bytes)
      → concat held ≡ before
      → held₁ ≡ held ++ take part_size b ∷ []
      → concat held₁ ++ drop part_size b ≡ before ++ b
  unfolding concat
  part_joined before b held held₁ e one =
      ap (λ h. concat h ++ drop part_size b) one
      ∙ ap (λ c. c ++ drop part_size b)
          (concat-append held (take part_size b ∷ [])
            ∙ ap (λ c. c ++ (take part_size b ++ [])) e
            ∙ ap (λ c. before ++ c) (append-nil (take part_size b)))
      ∙ append_assoc before (take part_size b) (drop part_size b)
      ∙ ap (λ c. before ++ c) (take-append-drop part_size b)

  -- A round that stored a whole part, and the rounds after it.
  fill_more :
      (u : InProgress) (before b middle : Bytes) (s s₁ : store.State) (f : Filled store.State)
      → part_size ≤ length b
      → middle ++ drop part_size b ≡ before ++ b
      → ((j : Bytes) → store.object j s₁ ≡ store.object j s)
      → FilledFrom u middle (drop part_size b) s₁ f
      → FilledFrom u before b s (record f { read = part_size + f.read })
  fill_more u before b middle s s₁ f long joins same g = record {
    left = g.left;
    rest_is = g.rest_is;
    only = g.only;
    objects = λ j. g.objects j ∙ same j;
    together = g.together ∙ joins;
    counted = omega (arith, g.counted, length-drop part_size b);
  }

  pub fill :
      (u : InProgress) (fuel : ℕ) (b : Bytes) (s : store.State)
      → length b < fuel
      → store.uploads key s ≡ u ∷ []
      → FilledFrom u (concat (store.held key u.upload_id s)) b s (
          fill_parts store part_size calm_calls key u.upload_id fuel
            (suc (length (store.held key u.upload_id s)))
            b
            s)
  unfolding fill_parts
  fill u zero b s enough only = absurd (omega arith)
  fill u (suc fuel) b s enough only = elim (Bool-cases (ltb (length b) part_size)) [
    | inl short ↦
        rw (fill_parts, short)
          (record {
            left = b;
            rest_is = refl;
            only = only;
            objects = λ j. refl;
            together = refl;
            counted = zero-add (length b);
          })
    | inr long ↦
        let id = u.upload_id in
        let held = store.held key id s in
        let piece = take part_size b in
        let s₁ = (store.put_part key id (suc (length held)) piece s).0 in
        let held_is = store.held-part key piece u s only in
        let fits : part_size ≤ length b = ground (arith, long) in
        let shorter : length (drop part_size b) < fuel =
          omega (arith, length-drop part_size b, fits, positive, enough) in
        let number : length (store.held key id s₁) ≡ suc (length held) =
          ap length held_is ∙ length-append held (piece ∷ []) ∙ (omega arith) in
        let more =
          fill u fuel (drop part_size b) s₁ shorter
            (store.uploads-part key key id piece (suc (length held)) s ∙ only) in
        let more' =
          subst
            (λ n.
              FilledFrom u (concat (store.held key id s₁)) (drop part_size b) s₁
                (fill_parts store part_size calm_calls key id fuel (suc n) (drop part_size b) s₁))
            number more in
        rw (fill_parts, long)
          (fill_more u (concat held) b (concat (store.held key id s₁)) s s₁
            (fill_parts store part_size calm_calls key id fuel (suc (suc (length held)))
              (drop part_size b) s₁)
            fits (part_joined (concat held) b held (store.held key id s₁) refl held_is)
            (λ j. store.object-part key j id piece (suc (length held)) s) more')
  ]

  pub tail-ne-key : bytes_eq (tail_key key) key ≡ false
  unfolding tail_key
  tail-ne-key = elim (Bool-cases (bytes_eq (key ++ codes ".part") key)) [
    | inr other ↦ other
    | inl same ↦
        let e = (bytes_eq_iff (key ++ codes ".part") key).0 same in
        absurd (omega (arith, length-append key (codes ".part"), ap length e))
  ]

  -- The tail object after it is replaced: its bytes are those given, none of them where it is removed.
  pub put_tail_done :
      (b : Bytes) (s : store.State)
      → (s' : store.State) × (put_tail store part_size calm_calls key b s ≡ ok s')
        × (tail_of store part_size key s' ≡ b)
        × (store.object key s' ≡ store.object key s)
        × ((j : Bytes) → store.uploads j s' ≡ store.uploads j s)
        × ((u : Bytes) → store.held key u s' ≡ store.held key u s)
  unfolding put_tail
  put_tail_done [] s = (
    store.remove_object (tail_key key) s,
    refl,
    ap contents (store.object-remove (tail_key key) (tail_key key) s)
        ∙ (rw (bytes_eq_refl (tail_key key)) refl),
    store.object-remove (tail_key key) key s ∙ (rw tail-ne-key refl),
    λ j. store.uploads-remove (tail_key key) j s,
    λ u. store.held-remove (tail_key key) key u s,
  )
  put_tail_done (x ∷ b) s = (
    store.put_object (tail_key key) (x ∷ b) s,
    refl,
    ap contents (store.object-put (tail_key key) (tail_key key) (x ∷ b) s)
        ∙ (rw (bytes_eq_refl (tail_key key)) refl),
    store.object-put (tail_key key) key (x ∷ b) s ∙ (rw tail-ne-key refl),
    λ j. store.uploads-put (tail_key key) j (x ∷ b) s,
    λ u. store.held-put (tail_key key) key u (x ∷ b) s,
  )
