-- ===== src/Store/Lookup.antt =====
-- How a row is found after each statement on the table.
use sendan.Prelude.{
  ◌≡◌, refl, ◌≢◌, none, some, [], ◌∷◌, ◌++◌, Bytes, bytes_eq, bytes_eq_iff, arith, All, Bool-cases,
  inl, inr, if◌then◌else◌,
}
use mathlib.Core.Option
use mathlib.Core.Option.{some-injective}
use mathlib.Core.Path.{subst}
use sendan.Store.Table.{Row, Table, find_row, update_where, delete_where}

-- No identifier is listed twice: the primary key.
abbrev pub Distinct : Table → Type 0
Distinct [] = Unit
Distinct (r ∷ t) = (find_row r.id t ≡ none) × Distinct t

-- A row that is found bears the identifier asked for.
pub find_row-id : (k : Bytes) (t : Table) (r : Row) → find_row k t ≡ some r → r.id ≡ k
unfolding find_row
find_row-id k [] r e = cc
find_row-id k (x ∷ t) r e = ground (arith, bytes_eq_iff x.id k, find_row-id k t r)

pub find_row-append :
    (k : Bytes) (t : Table) (r : Row)
    → find_row k t ≡ none
    → find_row k (t ++ r ∷ []) ≡ (if bytes_eq r.id k then some r else none)
unfolding find_row
find_row-append k [] r e = refl
find_row-append k (x ∷ t) r e = ground (arith, find_row-append k t r)

pub find_row-append_found :
    (k : Bytes) (t : Table) (r s : Row) → find_row k t ≡ some s → find_row k (t ++ r ∷ []) ≡ some s
unfolding find_row
find_row-append_found k [] r s e = cc
find_row-append_found k (x ∷ t) r s e = ground (arith, find_row-append_found k t r s)

pub find_row-append_ne :
    (k : Bytes) (t : Table) (r : Row) → k ≢ r.id → find_row k (t ++ r ∷ []) ≡ find_row k t
unfolding find_row
find_row-append_ne k [] r h = ground (arith, bytes_eq_iff r.id k)
find_row-append_ne k (x ∷ t) r h = ground (arith, find_row-append_ne k t r h)

pub find_row-delete_self : (k : Bytes) (t : Table) → find_row k (delete_where k t) ≡ none
unfolding find_row delete_where
find_row-delete_self k [] = refl
find_row-delete_self k (x ∷ t) = ground (arith, find_row-delete_self k t)

pub find_row-delete_ne :
    (k j : Bytes) (t : Table) → j ≢ k → find_row j (delete_where k t) ≡ find_row j t
unfolding find_row delete_where
find_row-delete_ne k j [] h = refl
find_row-delete_ne k j (x ∷ t) h =
    ground (arith, bytes_eq_iff x.id k, bytes_eq_iff x.id j, find_row-delete_ne k j t h)

module _ (k : Bytes) (f : Row → Row) (same : (r : Row) → (f r).id ≡ r.id) where
  pub find_row-update_self :
      (t : Table) → find_row k (update_where k f t) ≡ Option.map f (find_row k t)
  unfolding find_row update_where
  find_row-update_self [] = refl
  find_row-update_self (x ∷ t) = ground (arith, same x, find_row-update_self t)

  pub find_row-update_ne :
      (j : Bytes) (t : Table) → j ≢ k → find_row j (update_where k f t) ≡ find_row j t
  unfolding find_row update_where
  find_row-update_ne j [] h = refl
  find_row-update_ne j (x ∷ t) h =
      ground (arith, same x, bytes_eq_iff x.id k, bytes_eq_iff x.id j, find_row-update_ne j t h)

  pub find_row-update_none :
      (j : Bytes) (t : Table) → find_row j t ≡ none → find_row j (update_where k f t) ≡ none
  unfolding find_row update_where
  find_row-update_none j [] e = refl
  find_row-update_none j (x ∷ t) e = ground (arith, same x, find_row-update_none j t)

  pub update_where-Distinct : (t : Table) → Distinct t → Distinct (update_where k f t)
  unfolding update_where
  update_where-Distinct [] d = tt
  update_where-Distinct (x ∷ t) d =
      ground (arith, same x, update_where-Distinct t d.1, find_row-update_none x.id t d.0)

pub find_row-delete_none :
    (k j : Bytes) (t : Table) → find_row j t ≡ none → find_row j (delete_where k t) ≡ none
unfolding find_row delete_where
find_row-delete_none k j [] e = refl
find_row-delete_none k j (x ∷ t) e = ground (arith, find_row-delete_none k j t)

pub delete_where-Distinct : (k : Bytes) (t : Table) → Distinct t → Distinct (delete_where k t)
unfolding delete_where
delete_where-Distinct k [] d = tt
delete_where-Distinct k (x ∷ t) d =
    ground (arith, delete_where-Distinct k t d.1, find_row-delete_none k x.id t d.0)

pub append-Distinct :
    (t : Table) (r : Row) → Distinct t → find_row r.id t ≡ none → Distinct (t ++ r ∷ [])
unfolding find_row
append-Distinct [] r d e = (refl, tt)
append-Distinct (x ∷ t) r d e = grind (
  arith,
  bytes_eq_iff x.id r.id,
  bytes_eq_iff r.id x.id,
  find_row-append x.id t r d.0,
  append-Distinct t r d.1,
)

-- A property of every row holds of the row that is found.
pub All-find_row {ℓ} :
    (P : Row → Type ℓ) (k : Bytes) (t : Table) (r : Row) → All P t → find_row k t ≡ some r → P r
unfolding find_row
All-find_row P k [] r h e = cc
All-find_row P k (x ∷ t) r h e = elim (Bool-cases (bytes_eq x.id k)) [
  | inl here ↦ let same : x ≡ r = ground (arith, here, e) in subst P same h.0
  | inr there ↦
      let rest : find_row k t ≡ some r = ground (arith, there, e) in All-find_row P k t r h.1 rest
]

pub All-update {ℓ} :
    (P : Row → Type ℓ) (k : Bytes) (f : Row → Row) (t : Table)
    → ((r : Row) → P r → P (f r))
    → All P t
    → All P (update_where k f t)
unfolding update_where
All-update P k f [] keep h = tt
All-update P k f (x ∷ t) keep h = elim (Bool-cases (bytes_eq x.id k)) [
  | inl here ↦ rw here (keep x h.0, All-update P k f t keep h.1)
  | inr there ↦ rw there (h.0, All-update P k f t keep h.1)
]

pub All-delete {ℓ} : (P : Row → Type ℓ) (k : Bytes) (t : Table) → All P t → All P (delete_where k t)
unfolding delete_where
All-delete P k [] h = tt
All-delete P k (x ∷ t) h = elim (Bool-cases (bytes_eq x.id k)) [
  | inl here ↦ rw here (All-delete P k t h.1)
  | inr there ↦ rw there (h.0, All-delete P k t h.1)
]

pub All-append_one {ℓ} :
    (P : Row → Type ℓ) (t : Table) (r : Row) → All P t → P r → All P (t ++ r ∷ [])
All-append_one P [] r h p = (p, tt)
All-append_one P (x ∷ t) r h p = (h.0, All-append_one P t r h.1 p)

update_where_missing :
    (k : Bytes) (f : Row → Row) (t : Table) → find_row k t ≡ none → update_where k f t ≡ t
unfolding find_row update_where
update_where_missing k f [] e = refl
update_where_missing k f (x ∷ t) e = ground (arith, update_where_missing k f t)

-- Under the primary key an update concerns the row that is found, and no other.
pub All-update_found {ℓ} :
    (P : Row → Type ℓ) (k : Bytes) (f : Row → Row) (t : Table)
    → Distinct t
    → ((r : Row) → find_row k t ≡ some r → P r → P (f r))
    → All P t
    → All P (update_where k f t)
unfolding find_row update_where
All-update_found P k f [] d keep h = tt
All-update_found P k f (x ∷ t) d keep h = elim (Bool-cases (bytes_eq x.id k)) [
  | inl here ↦
      let missing : find_row k t ≡ none =
        subst (λ j. find_row j t ≡ none) ((bytes_eq_iff x.id k).0 here) d.0 in
      let rest : update_where k f t ≡ t = update_where_missing k f t missing in
      rw (here, rest) (keep x (ground (arith, here)) h.0, h.1)
  | inr there ↦
      rw there (h.0, All-update_found P k f t d.1 (λ r e. keep r (ground (arith, there, e))) h.1)
]
