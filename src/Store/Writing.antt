-- ===== src/Store/Writing.antt =====
-- What the writing operations leave behind: creation, accounting and completion.
use mathlib.Core.Option
use mathlib.Core.Path.{subst}
use sendan.Prelude.{
  ℕ, ◌+◌, ◌*◌, ◌/◌, ◌≡◌, refl, ap, ◌∙◌, ◌≢◌, ◌↔◌, true, false, none, some, [], ◌∷◌, ◌++◌, Bytes, ok,
  err, not_found, arith, inl, inr, bytes_eq_refl, Option-cases, conflict,
}
use sendan.Prelude.Int.{pos, pos_part}
use sendan.Store.Upload.{Upload, second, validate}
use sendan.Store.Table.{
  Row, Table, to_row, scan_upload, unix, find_row, is_some, create, record_served, add_served,
  update_where, complete_upload, set_completed,
}
use sendan.Store.Lookup.{find_row-append, find_row-append_ne, find_row-update_self}

-- A successful creation has passed the checks, found the identifier free, and appended the row.
pub create-cases :
    (u : Upload) (t t' : Table)
    → create false u t ≡ ok t'
    → (validate u ≡ ok tt) × (find_row u.id t ≡ none) × (t' ≡ t ++ to_row u ∷ [])
unfolding create to_row
create-cases u t t' h = (ground arith, ground arith, ground arith)

-- A time as its column gives it back: cut to the whole second.
abbrev pub whole_second : ℕ → ℕ
whole_second t = t / second * second

-- What an upload reads back as.
abbrev pub stored : Upload → Upload
stored u = record u {
  size = pos (pos_part u.size);
  created_at = whole_second u.created_at;
  expires_at = whole_second u.expires_at;
  max_downloads = pos (pos_part u.max_downloads);
  completed_at = whole_second u.completed_at;
}

-- Columns round-trip: every field of an upload is read back as it was written, but its times, which
-- are cut to the whole second.
pub scan_upload-to_row : (u : Upload) → scan_upload (to_row u) ≡ stored u
unfolding scan_upload to_row
scan_upload-to_row u = ground arith

pub add_served-id : (n : ℕ) (r : Row) → (add_served n r).id ≡ r.id
unfolding add_served
add_served-id n r = refl

pub set_completed-id : (s : ℕ) (r : Row) → (set_completed s r).id ≡ r.id
unfolding set_completed
set_completed-id s r = ground arith

-- Accounting twice is accounting once for the sum: no byte is lost or charged twice.
add_served-add_served : (a b : ℕ) (r : Row) → add_served b (add_served a r) ≡ add_served (a + b) r
unfolding add_served
add_served-add_served a b r = ground arith

-- Completion is idempotent: the first time stays.
set_completed_twice : (a b : ℕ) (r : Row) → set_completed b (set_completed a r) ≡ set_completed a r
unfolding set_completed
set_completed_twice a b r = ground arith

update_where-update_where :
    (k : Bytes) (f g h : Row → Row)
    → ((r : Row) → (f r).id ≡ r.id)
    → ((r : Row) → g (f r) ≡ h r)
    → (t : Table) → update_where k g (update_where k f t) ≡ update_where k h t
unfolding update_where
update_where-update_where k f g h same twice [] = refl
update_where-update_where k f g h same twice (x ∷ t) =
    ground (arith, same x, twice x, update_where-update_where k f g h same twice t)

pub to_row-id : (u : Upload) → (to_row u).id ≡ u.id
unfolding to_row
to_row-id u = refl

-- After a successful creation the identifier, which was free, holds the upload's row, and every
-- other row is found as before.
pub create_lem :
    (u : Upload) (t t' : Table) (j : Bytes)
    → create false u t ≡ ok t'
    → j ≢ u.id
    → (find_row u.id t ≡ none)
      × (Option.map scan_upload (find_row u.id t') ≡ some (stored u))
      × (find_row j t' ≡ find_row j t)
create_lem u t t' j h ne =
    let (checked, free, same) = create-cases u t t' h in
    let new_id = to_row-id u in
    let absent : find_row u.id t ≡ none = free in
    (
      free,
      ground (
        arith,
        same,
        new_id,
        bytes_eq_refl u.id,
        find_row-append u.id t (to_row u) absent,
        scan_upload-to_row u,
      ),
      cc (same, find_row-append_ne j t (to_row u) (λ e. ne (cc (e, new_id)))),
    )

pub created_row :
    (u : Upload) (t t' : Table) → create false u t ≡ ok t' → find_row u.id t' ≡ some (to_row u)
created_row u t t' h =
    let (checked, free, same) = create-cases u t t' h in
    ground (arith, same, to_row-id u, bytes_eq_refl u.id, find_row-append u.id t (to_row u) free)

validate-ne-conflict : (u : Upload) → validate u ≢ err conflict
unfolding validate
validate-ne-conflict u h = ground arith

-- Creation refuses a taken identifier with the conflict error, and only then: the checks passed.
pub create-conflict_iff :
    (u : Upload) (t : Table)
    → (create false u t ≡ err conflict)
      ↔ ((validate u ≡ ok tt) × (is_some (find_row u.id t) ≡ true))
unfolding create is_some
create-conflict_iff u t = (
  λ h. (
    ground (arith, to_row-id u, validate-ne-conflict u),
    ground (arith, to_row-id u, validate-ne-conflict u),
  ),
  λ h. ground (arith, to_row-id u),
)

pub record_served_found :
    (k : Bytes) (n : ℕ) (t : Table) (r : Row)
    → find_row k t ≡ some r
    → record_served false k (pos n) t
      ≡ ok (update_where k (add_served n) t, scan_upload (add_served n r))
unfolding record_served
record_served_found k n t r e = ground arith

pub record_served_missing :
    (k : Bytes) (n : ℕ) (t : Table)
    → find_row k t ≡ none
    → record_served false k (pos n) t ≡ err not_found
unfolding record_served
record_served_missing k n t e = ground arith

served_twice_found :
    (k : Bytes) (a b : ℕ) (t : Table) (r : Row)
    → find_row k t ≡ some r
    → record_served false k (pos b) (update_where k (add_served a) t)
      ≡ record_served false k (pos (a + b)) t
served_twice_found k a b t r e =
    let there : find_row k (update_where k (add_served a) t) ≡ some (add_served a r) =
      find_row-update_self k (add_served a) (add_served-id a) t
      ∙ ap (Option.map (add_served a)) e in
    cc (
      record_served_found k b (update_where k (add_served a) t) (add_served a r) there,
      record_served_found k (a + b) t r e,
      update_where-update_where k (add_served a) (add_served b) (add_served (a + b))
          (add_served-id a) (add_served-add_served a b) t,
      add_served-add_served a b r,
    )

-- Two transfers of one upload, accounted one after the other, leave the table and the answer that one
-- transfer of all their bytes leaves.
pub record_served-twice :
    (k : Bytes) (a b : ℕ) (t t₁ : Table) (u₁ : Upload)
    → record_served false k (pos a) t ≡ ok (t₁, u₁)
    → record_served false k (pos b) t₁ ≡ record_served false k (pos (a + b)) t
record_served-twice k a b t t₁ u₁ h = elim (Option-cases (find_row k t)) [
  | inl missing ↦ cc (record_served_missing k a t missing)
  | inr (r, e) ↦
      let same : update_where k (add_served a) t ≡ t₁ =
        ground (arith, record_served_found k a t r e) in
      subst (λ s. record_served false k (pos b) s ≡ record_served false k (pos (a + b)) t) same
        (served_twice_found k a b t r e)
]

-- A repeated completion changes nothing, whenever it comes: the first completion time stays.
pub complete_upload-twice :
    (k : Bytes) (a b : ℕ) (t t₁ : Table)
    → complete_upload false k a t ≡ ok t₁
    → complete_upload false k b t₁ ≡ ok t₁
unfolding complete_upload
complete_upload-twice k a b t t₁ h = ground (
  arith,
  update_where-update_where k (set_completed (unix a)) (set_completed (unix b))
      (set_completed (unix a)) (set_completed-id (unix a)) (set_completed_twice (unix a) (unix b))
      t,
)
