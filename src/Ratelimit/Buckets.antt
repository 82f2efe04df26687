-- ===== src/Ratelimit/Buckets.antt =====
-- The limiter's promises: no bucket ever holds more than the burst, an event is charged whole or not
-- at all, and what is forgotten or swept leaves nothing.
use mathlib.Core.Path.{subst}
use sendan.Prelude.{
  ℕ, ◌+◌, ◌≡◌, refl, ◌≢◌, true, false, not, Option, none, some, [], ◌∷◌, Bytes, bytes_eq,
  bytes_eq_iff, bytes_eq_refl, ltb, if◌then◌else◌, length, arith, Bool-cases, inl, inr, All,
}
use sendan.Ratelimit.Float.{Float}
use sendan.Ratelimit.Limiter.{
  Bucket, Limits, Buckets, lookup, insert, remove, refilled, allow_n, sweep,
}

module _ (f : Float) where
  open f use {Value, zero_value, one_value, less, least, minus}

  pub lookup-insert_self :
      (k : Bytes) (b : Bucket f) (m : Buckets f) → lookup f k (insert f k b m) ≡ some b
  unfolding lookup insert
  lookup-insert_self k b [] = ground (arith, bytes_eq_refl k)
  lookup-insert_self k b ((j, c) ∷ m) = ground (arith, bytes_eq_refl k, lookup-insert_self k b m)

  pub lookup-insert_ne :
      (k j : Bytes) (b : Bucket f) (m : Buckets f)
      → j ≢ k
      → lookup f j (insert f k b m) ≡ lookup f j m
  unfolding lookup insert
  lookup-insert_ne k j b [] h = ground (arith, bytes_eq_iff k j)
  lookup-insert_ne k j b ((i, c) ∷ m) h =
      ground
        (arith, bytes_eq_iff k j, bytes_eq_iff i j, bytes_eq_iff i k, lookup-insert_ne k j b m h)

  pub lookup-remove_self : (k : Bytes) (m : Buckets f) → lookup f k (remove f k m) ≡ none
  unfolding lookup remove
  lookup-remove_self k [] = refl
  lookup-remove_self k ((j, b) ∷ m) = ground (arith, lookup-remove_self k m)

  pub lookup-remove_ne :
      (k j : Bytes) (m : Buckets f) → j ≢ k → lookup f j (remove f k m) ≡ lookup f j m
  unfolding lookup remove
  lookup-remove_ne k j [] h = refl
  lookup-remove_ne k j ((i, b) ∷ m) h =
      ground (arith, bytes_eq_iff i j, bytes_eq_iff i k, lookup-remove_ne k j m h)

  -- A call under a key is charged whole or not at all: it is permitted exactly when the refilled bucket holds
  -- the tokens asked for, the bucket is then less by them and otherwise as refilled, and no other key's
  -- bucket is touched. The limit has a burst.
  pub allow_n_lem :
      (l : Limits f) (now : ℕ) (k j : Bytes) (n : Value) (m : Buckets f)
      → less zero_value l.burst ≡ true
      → j ≢ k
      → let b = refilled f l now (lookup f k m) in
        let (m', allowed) = allow_n f l now k n m in
        (allowed ≡ not (less b.tokens n))
        × (lookup f k m' ≡ some (if allowed then record b { tokens = minus b.tokens n } else b))
        × (lookup f j m' ≡ lookup f j m)
  unfolding allow_n
  allow_n_lem l now k j n m h ne =
      let b = refilled f l now (lookup f k m) in
      elim (Bool-cases (less b.tokens n)) [
        | inl short ↦ rw (h, short) (refl, lookup-insert_self k b m, lookup-insert_ne k j b m ne)
        | inr enough ↦
            let charged = record b { tokens = minus b.tokens n } in
            rw (h, enough) (refl, lookup-insert_self k charged m, lookup-insert_ne k j charged m ne)
      ]

  -- The tokens of a bucket do not exceed the burst.
  abbrev IsWithin : Limits f → Bytes × Bucket f → Type 0
  IsWithin l e = less l.burst (e.1).tokens ≡ false

  abbrev pub AllWithin : Limits f → Buckets f → Type 0
  AllWithin l = All (IsWithin l)

  lookup-IsWithin :
      (l : Limits f) (k : Bytes) (m : Buckets f) (b : Bucket f)
      → AllWithin l m
      → lookup f k m ≡ some b
      → less l.burst b.tokens ≡ false
  unfolding lookup
  lookup-IsWithin l k [] b h e = cc
  lookup-IsWithin l k ((j, c) ∷ m) b h e = elim (Bool-cases (bytes_eq j k)) [
    | inl here ↦
        let same : c ≡ b = ground (arith, here, e) in
        subst (λ (x : Bucket f). less l.burst x.tokens ≡ false) same h.0
    | inr there ↦
        let rest : lookup f k m ≡ some b = ground (arith, there, e) in
        lookup-IsWithin l k m b h.1 rest
  ]

  insert-AllWithin :
      (l : Limits f) (k : Bytes) (b : Bucket f) (m : Buckets f)
      → less l.burst b.tokens ≡ false
      → AllWithin l m
      → AllWithin l (insert f k b m)
  unfolding insert
  insert-AllWithin l k b [] w h = (w, tt)
  insert-AllWithin l k b ((j, c) ∷ m) w h = elim (Bool-cases (bytes_eq j k)) [
    | inl here ↦ rw here (w, h.1)
    | inr there ↦ rw there (h.0, insert-AllWithin l k b m w h.1)
  ]

  refilled-IsWithin :
      (l : Limits f) (now : ℕ) (o : Option (Bucket f))
      → ((b : Bucket f) → o ≡ some b → less l.burst b.tokens ≡ false)
      → less l.burst (refilled f l now o).tokens ≡ false
  unfolding refilled
  refilled-IsWithin l now none h = f.le_refl l.burst
  refilled-IsWithin l now (some b) h = elim (Bool-cases (ltb b.seen now)) [
    | inl later ↦ rw later (f.least-le l.burst _)
    | inr same ↦ rw same (h b refl)
  ]

  remove-AllWithin :
      (l : Limits f) (k : Bytes) (m : Buckets f) → AllWithin l m → AllWithin l (remove f k m)
  unfolding remove
  remove-AllWithin l k [] h = tt
  remove-AllWithin l k ((j, c) ∷ m) h = elim (Bool-cases (bytes_eq j k)) [
    | inl here ↦ rw here (remove-AllWithin l k m h.1)
    | inr there ↦ rw there (h.0, remove-AllWithin l k m h.1)
  ]

  -- However long a key was silent, and whatever the clock says, no call leaves a bucket with more
  -- tokens than the burst. The charge is not negative.
  pub allow_n-AllWithin :
      (l : Limits f) (now : ℕ) (k : Bytes) (n : Value) (m : Buckets f)
      → less n zero_value ≡ false
      → AllWithin l m
      → AllWithin l (allow_n f l now k n m).0
  unfolding allow_n
  allow_n-AllWithin l now k n m pos_n h =
      let b = refilled f l now (lookup f k m) in
      let full = refilled-IsWithin l now (lookup f k m) (λ c e. lookup-IsWithin l k m c h e) in
      elim (Bool-cases (less zero_value l.burst)) [
        | inr closed ↦ rw closed h
        | inl some_burst ↦ elim (Bool-cases (less b.tokens n)) [
          | inl short ↦ rw (some_burst, short) (insert-AllWithin l k b m full h)
          | inr enough ↦
              rw (some_burst, enough)
                (insert-AllWithin l k (record b { tokens = minus b.tokens n }) m
                  (f.le_trans (minus b.tokens n) b.tokens l.burst (f.minus-le b.tokens n pos_n)
                    full)
                  h)
        ]
      ]

  -- A sweep keeps exactly the buckets that were used within the idle time, and counts the others.
  pub sweep_lem :
      (l : Limits f) (now : ℕ) (m : Buckets f)
      → let (kept, removed) = sweep f l now m in
        All (λ e. ltb ((e.1).seen + l.idle) now ≡ false) kept × (removed + length kept ≡ length m)
  unfolding sweep
  sweep_lem l now [] = (tt, omega arith)
  sweep_lem l now ((j, b) ∷ m) = elim (Bool-cases (ltb (b.seen + l.idle) now)) [
    | inl idle ↦ rw idle ((sweep_lem l now m).0, omega (arith, (sweep_lem l now m).1))
    | inr used ↦ rw used ((used, (sweep_lem l now m).0), omega (arith, (sweep_lem l now m).1))
  ]
