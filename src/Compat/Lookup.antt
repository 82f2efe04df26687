-- ===== src/Compat/Lookup.antt =====
-- How a row of `compat_uploads` is found after each statement on the table.
use sendan.Prelude.{
  ◌≡◌, refl, ap, ◌∙◌, ◌≢◌, true, none, some, [], ◌∷◌, ◌++◌, Bytes, bytes_eq, bytes_eq_iff, arith,
  if◌then◌else◌, Bool-cases, inl, inr,
}
use mathlib.Core.Option
use sendan.Store.Table.{Table, find_row, is_some}
use sendan.Compat.Rows.{CompatUpload, CompatTable, find_compat, update_compat, cascade}

pub find_compat-id :
    (k : Bytes) (t : CompatTable) (c : CompatUpload) → find_compat k t ≡ some c → c.id ≡ k
unfolding find_compat
find_compat-id k [] c e = cc
find_compat-id k (x ∷ t) c e = ground (arith, bytes_eq_iff x.id k, find_compat-id k t c)

pub find_compat-append :
    (k : Bytes) (t : CompatTable) (c : CompatUpload)
    → find_compat k t ≡ none
    → find_compat k (t ++ c ∷ []) ≡ (if bytes_eq c.id k then some c else none)
unfolding find_compat
find_compat-append k [] c e = refl
find_compat-append k (x ∷ t) c e = ground (arith, find_compat-append k t c)

pub find_compat-append_ne :
    (k : Bytes) (t : CompatTable) (c : CompatUpload)
    → k ≢ c.id
    → find_compat k (t ++ c ∷ []) ≡ find_compat k t
unfolding find_compat
find_compat-append_ne k [] c h = ground (arith, bytes_eq_iff c.id k)
find_compat-append_ne k (x ∷ t) c h = ground (arith, find_compat-append_ne k t c h)

module _ (k : Bytes) (f : CompatUpload → CompatUpload)
    (same : (c : CompatUpload) → (f c).id ≡ c.id) where
  pub find_compat-update_self :
      (t : CompatTable) → find_compat k (update_compat k f t) ≡ Option.map f (find_compat k t)
  unfolding find_compat update_compat
  find_compat-update_self [] = refl
  find_compat-update_self (x ∷ t) = ground (arith, same x, find_compat-update_self t)

  pub find_compat-update_ne :
      (j : Bytes) (t : CompatTable) → j ≢ k → find_compat j (update_compat k f t) ≡ find_compat j t
  unfolding find_compat update_compat
  find_compat-update_ne j [] h = refl
  find_compat-update_ne j (x ∷ t) h =
      ground (arith, same x, bytes_eq_iff x.id k, bytes_eq_iff x.id j, find_compat-update_ne j t h)

-- A row goes with the upload that it refers to.
pub find_compat-cascade_gone :
    (k : Bytes) (t : Table) (rows : CompatTable)
    → find_row k t ≡ none
    → find_compat k (cascade t rows) ≡ none
unfolding find_compat cascade is_some
find_compat-cascade_gone k t [] e = refl
find_compat-cascade_gone k t (x ∷ rows) e =
    let more = find_compat-cascade_gone k t rows e in
    elim (Bool-cases (is_some (find_row x.id t))) [
      | inr gone ↦ rw gone more
      | inl here ↦ elim (Bool-cases (bytes_eq x.id k)) [
        | inl same ↦ let at_k : x.id ≡ k = (bytes_eq_iff x.id k).0 same in cc (at_k, e, here)
        | inr other ↦ rw (here, other) more
      ]
    ]

-- It stays with it.
pub find_compat-cascade_kept :
    (k : Bytes) (t : Table) (rows : CompatTable)
    → is_some (find_row k t) ≡ true
    → find_compat k (cascade t rows) ≡ find_compat k rows
unfolding find_compat cascade
find_compat-cascade_kept k t [] e = refl
find_compat-cascade_kept k t (x ∷ rows) e =
    let more = find_compat-cascade_kept k t rows e in
    elim (Bool-cases (bytes_eq x.id k)) [
      | inl same ↦
          let here : is_some (find_row x.id t) ≡ true =
            ap (λ j. is_some (find_row j t)) ((bytes_eq_iff x.id k).0 same) ∙ e in
          rw (here, same) refl
      | inr other ↦ elim (Bool-cases (is_some (find_row x.id t))) [
        | inl here ↦ rw (here, other) more
        | inr gone ↦ rw (gone, other) more
      ]
    ]
