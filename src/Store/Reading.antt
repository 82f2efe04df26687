-- ===== src/Store/Reading.antt =====
-- What readers of the store see, and how it fits what the reaper is told to remove.
use mathlib.Core.Path.{subst}
use sendan.Prelude.{
  sym, ℕ, ◌≡◌, refl, ◌≢◌, true, false, none, some, List, [], ◌∷◌, Bytes, bytes_eq, ok, err,
  not_found, arith, All, inl, inr, Bool-cases, map, take, filter_by, All-take, zero, suc,
  bytes_eq_refl, bytes_eq_iff, Option-cases, All-filter_of, All-map_list, All-implies, All-both,
}
use sendan.Prelude.Int.{pos}
use sendan.Store.Upload.{Upload, live}
use sendan.Store.Table.{
  Row, Table, scan_upload, dead_row, unix, get, find_row, list_dead, pending, is_some, row_id,
  record_served, delete, delete_where,
}
use sendan.Store.Lookup.{Distinct, find_row-id, find_row-delete_self, find_row-delete_ne}
use sendan.Store.Dead.{IsWellFormed}

scan_upload-id : (r : Row) → (scan_upload r).id ≡ r.id
unfolding scan_upload
scan_upload-id r = refl

-- A successful read returns the row stored under the identifier asked for, and only a live one.
pub get_ok :
    (k : Bytes) (now : ℕ) (t : Table) (u : Upload)
    → get false k now t ≡ ok u
    → (r : Row) × (find_row k t ≡ some r) × (u ≡ scan_upload r) × (live u now ≡ true) × (u.id ≡ k)
unfolding get
get_ok k now t u h = elim (Option-cases (find_row k t)) [
  | inl missing ↦ absurd (ground (arith, missing))
  | inr (r, e) ↦
      let shown : u ≡ scan_upload r = ground (arith, e) in
      let same : u.id ≡ k = ground (arith, shown, scan_upload-id r, find_row-id k t r e) in
      (r, e, shown, ground (arith, e), same)
]

-- A row that is not live is answered as a missing one, also when the reaper has not come by.
pub get_dead :
    (k : Bytes) (now : ℕ) (t : Table) (r : Row)
    → find_row k t ≡ some r
    → live (scan_upload r) now ≡ false
    → get false k now t ≡ err not_found
unfolding get
get_dead k now t r e h = ground arith

pub get_missing :
    (k : Bytes) (now : ℕ) (t : Table) → find_row k t ≡ none → get false k now t ≡ err not_found
unfolding get
get_missing k now t e = ground arith

dead_row-not_live :
    (r : Row) (now abandoned : ℕ)
    → IsWellFormed r
    → dead_row (unix now) (unix abandoned) r ≡ true
    → live (scan_upload r) now ≡ false
unfolding dead_row live scan_upload unix
dead_row-not_live r now abandoned w h = ground arith

found_behind :
    (x y : Row) (t : Table)
    → find_row x.id t ≡ none
    → find_row y.id t ≡ some y
    → find_row y.id (x ∷ t) ≡ some y
unfolding find_row
found_behind x y t gone e = elim (Bool-cases (bytes_eq x.id y.id)) [
  | inl same ↦ let ids : x.id ≡ y.id = (bytes_eq_iff x.id y.id).0 same in cc (ids, gone, e)
  | inr other ↦ rw other e
]

found_first : (x : Row) (t : Table) → find_row x.id (x ∷ t) ≡ some x
unfolding find_row
found_first x t = rw (bytes_eq_refl x.id)

-- Each row of a table with a primary key is the one found under its identifier.
pub Distinct-found : (t : Table) → Distinct t → All (λ r. find_row r.id t ≡ some r) t
Distinct-found [] d = tt
Distinct-found (x ∷ t) d = (
  found_first x t,
  All-implies (λ r. find_row r.id t ≡ some r) (λ r. find_row r.id (x ∷ t) ≡ some r) t
      (λ y e. found_behind x y t d.0 e) (Distinct-found t d.1),
)

abbrev IsHidden : Table → ℕ → Bytes → Type 0
IsHidden t now k = get false k now t ≡ err not_found

dead_row-IsHidden :
    (now abandoned : ℕ) (t : Table) (r : Row)
    → dead_row (unix now) (unix abandoned) r ≡ true
    → IsWellFormed r × (find_row r.id t ≡ some r)
    → IsHidden t now (row_id r)
unfolding row_id
dead_row-IsHidden now abandoned t r dead h =
    get_dead r.id now t r h.1 (dead_row-not_live r now abandoned h.0 dead)

abbrev dead_ids : ℕ → ℕ → Table → List Bytes
dead_ids now abandoned t = map row_id (filter_by (dead_row (unix now) (unix abandoned)) t)

list_dead-cases :
    (now abandoned limit : ℕ) (t : Table) (ids : List Bytes)
    → list_dead false now abandoned limit t ≡ ok ids
    → ids ≡ take limit (dead_ids now abandoned t)
unfolding list_dead
list_dead-cases now abandoned zero t ids h = ground arith
list_dead-cases now abandoned (suc limit) t ids h = ground arith

dead_ids-IsHidden :
    (now abandoned : ℕ) (t : Table)
    → Distinct t
    → All IsWellFormed t
    → All (IsHidden t now) (dead_ids now abandoned t)
dead_ids-IsHidden now abandoned t d w = All-map_list (IsHidden t now) row_id _ (
    All-filter_of (λ r. IsHidden t now (row_id r))
      (λ r. IsWellFormed r × (find_row r.id t ≡ some r)) (dead_row (unix now) (unix abandoned)) t
      (dead_row-IsHidden now abandoned t)
      (All-both IsWellFormed (λ r. find_row r.id t ≡ some r) t w (Distinct-found t d)))

-- On a table with a primary key and well-formed rows, whatever the reaper is told to remove cannot
-- be read at that instant, whichever of its three reasons holds and whatever the limit.
pub list_dead-unreadable :
    (now abandoned limit : ℕ) (t : Table) (ids : List Bytes)
    → Distinct t
    → All IsWellFormed t
    → list_dead false now abandoned limit t ≡ ok ids
    → All (λ k. get false k now t ≡ err not_found) ids
list_dead-unreadable now abandoned limit t ids d w h =
    subst (All (IsHidden t now)) (sym (list_dead-cases now abandoned limit t ids h))
      (All-take (IsHidden t now) limit _ (dead_ids-IsHidden now abandoned t d w))

-- An upload still being written is never readable, at any instant.
pub pending-unreadable :
    (k : Bytes) (now : ℕ) (t : Table) (u : Upload)
    → pending false k t ≡ ok u
    → get false k now t ≡ err not_found
unfolding pending get live scan_upload is_some
pending-unreadable k now t u h = ground arith

-- A deleted upload is gone for readers, for the upload path and for the transfer accounting, and
-- every other identifier answers as before.
pub delete-unreadable :
    (k j : Bytes) (now : ℕ) (n : ℕ) (t t' : Table)
    → delete false k t ≡ ok t'
    → j ≢ k
    → (get false k now t' ≡ err not_found)
      × (pending false k t' ≡ err not_found)
      × (record_served false k (pos n) t' ≡ err not_found)
      × (find_row j t' ≡ find_row j t)
unfolding delete
delete-unreadable k j now n t t' h ne =
    let e : t' ≡ delete_where k t = ground arith in
    rw e (
      get_missing k now (delete_where k t) (find_row-delete_self k t),
      unfold pending in ground (arith, find_row-delete_self k t),
      unfold record_served in ground (arith, find_row-delete_self k t),
      find_row-delete_ne k j t ne,
    )
