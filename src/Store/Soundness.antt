-- ===== src/Store/Soundness.antt =====
-- What makes the `uploads` table sound, and that each statement that writes it keeps it so: those of
-- internal/store/sql.go, and those of compat.go and rekey.go on the same table.
use mathlib.Core.Path.{subst}
use sendan.Prelude.{
  ℕ, suc, ◌≤◌, ◌≡◌, refl, sym, ◌≢◌, Bool, true, false, none, some, [], ◌∷◌, ◌++◌, Bytes,
  Result-cases, Option-cases, inl, inr, ap, ok, arith, All, Result,
}
use sendan.Prelude.Int.{ℤ, pos_part}
use sendan.Store.Upload.{Upload, second}
use sendan.Store.Table.{
  Row, Table, to_row, unix, find_row, create, record_served, add_served, update_where,
  set_completed, is_some,
}
use sendan.Store.MasterKey.{rekey, rekey_rows}
use sendan.Store.Lookup.{
  Distinct, append-Distinct, update_where-Distinct, All-append_one, All-update_found,
}
use sendan.Store.Dead.{IsWellFormed}
use sendan.Store.Writing.{create-cases, to_row-id}
use sendan.Compat.Rows.{
  CompatUpload, CompatTable, create_compat, insert_both, finish_compat, set_finished,
}
use sendan.Compat.Sound.{create_compat_ok, set_finished-id}

-- A well-formed row, of which nothing is served before it is complete.
pub record IsSoundRow (r : Row) : Type 0 where
  pub formed : IsWellFormed r
  pub unserved : r.completed_at ≡ none → r.bytes_served ≡ 0
  pub uncounted : r.completed_at ≡ none → r.download_count ≡ 0

-- The table has a primary key and sound rows.
pub record IsSound (t : Table) : Type 0 where
  pub distinct : Distinct t
  pub rows : All IsSoundRow t

-- What a caller passes to `Create`: a new upload, whose times lie at least a second after the zero
-- time, and which has served nothing.
pub record IsFresh (u : Upload) : Type 0 where
  pub expiry_dated : u.expires_at ≢ 0 → second ≤ u.expires_at
  pub completion_dated : u.completed_at ≢ 0 → second ≤ u.completed_at
  pub unserved : u.bytes_served ≡ 0
  pub uncounted : u.download_count ≡ 0

to_row-IsSoundRow : (u : Upload) → IsFresh u → IsSoundRow (to_row u)
unfolding to_row
to_row-IsSoundRow u f = record {
  formed = ground arith;
  unserved = λ _. f.unserved;
  uncounted = λ _. f.uncounted;
}

pub add_served-IsSoundRow :
    (n : ℕ) (r : Row) → is_some r.completed_at ≡ true → IsSoundRow r → IsSoundRow (add_served n r)
unfolding add_served is_some
add_served-IsSoundRow n r c s =
    let w = s.formed in
    record {
      formed = ground arith;
      unserved = λ e. absurd (ground (arith, c, e));
      uncounted = λ e. absurd (ground (arith, c, e));
    }

pub set_completed-IsSoundRow :
    (s : ℕ) (r : Row) → 1 ≤ s → IsSoundRow r → IsSoundRow (set_completed s r)
unfolding set_completed
set_completed-IsSoundRow s r h w =
    let f = w.formed in
    record {
      formed = ground arith;
      unserved = λ e. ground (arith, e, w.unserved);
      uncounted = λ e. ground (arith, e, w.uncounted);
    }

-- Finishing changes the size of a row of which nothing is served yet.
set_finished-IsSoundRow :
    (size s : ℕ) (r : Row)
    → 1 ≤ s
    → r.completed_at ≡ none
    → IsSoundRow r
    → IsSoundRow (set_finished size s r)
unfolding set_finished
set_finished-IsSoundRow size s r h c w =
    let f = w.formed in
    let no_bytes = w.unserved c in
    let no_count = w.uncounted c in
    record {
      formed = ground (arith, no_bytes, no_count);
      unserved = λ _. no_bytes;
      uncounted = λ _. no_count;
    }

pub unix_pos : (now : ℕ) → second ≤ now → 1 ≤ unix now
unfolding unix
unix_pos now h = omega arith

-- The two tables.
abbrev pub Tables : Type 0
Tables = Table × CompatTable

append-IsSound :
    (r : Row) (t : Table)
    → IsSoundRow r
    → find_row r.id t ≡ none
    → IsSound t
    → IsSound (t ++ r ∷ [])
append-IsSound r t w free s = record {
  distinct = append-Distinct t r s.distinct free;
  rows = All-append_one IsSoundRow t r s.rows w;
}

pub create-IsSound :
    (u : Upload) (t t' : Table) → IsFresh u → IsSound t → create false u t ≡ ok t' → IsSound t'
create-IsSound u t t' f s h =
    let (checked, free, same) = create-cases u t t' h in
    subst IsSound (sym same) (
      append-IsSound (to_row u) t (to_row-IsSoundRow u f)
        (subst (λ k. find_row k t ≡ none) (sym (to_row-id u)) free) s)

inserted :
    (r : Row) (c : CompatUpload) (t : Table) (rows : CompatTable) (s : Tables)
    → insert_both r c t rows ≡ ok s
    → (s.0 ≡ t ++ r ∷ []) × (find_row r.id t ≡ none)
unfolding insert_both is_some
inserted r c t rows s h = ground arith

pub create_compat-IsSound :
    (begin_fails failing : Bool) (u : Upload) (c : CompatUpload) (t : Table) (rows : CompatTable)
    (s : Tables)
    → IsFresh u
    → IsSound t
    → create_compat begin_fails failing u c t rows ≡ ok s
    → IsSound s.0
create_compat-IsSound begin_fails failing u c t rows s f sound h =
    let (_, both) = create_compat_ok begin_fails failing u c t s.0 rows s.1 h in
    let (same, free) = inserted (to_row u) c t rows s both in
    subst IsSound (sym same) (append-IsSound (to_row u) t (to_row-IsSoundRow u f) free sound)

-- An update of the one row that is found.
pub update-IsSound :
    (k : Bytes) (f : Row → Row) (t : Table)
    → ((r : Row) → (f r).id ≡ r.id)
    → ((r : Row) → find_row k t ≡ some r → IsSoundRow r → IsSoundRow (f r))
    → IsSound t
    → IsSound (update_where k f t)
update-IsSound k f t same keep s = record {
  distinct = update_where-Distinct k f same t s.distinct;
  rows = All-update_found IsSoundRow k f t s.distinct keep s.rows;
}

pub create_failing : (u : Upload) (t t' : Table) → create true u t ≢ ok t'
unfolding create
create_failing u t t' h = ground arith

pub record_served-table :
    (failing : Bool) (k : Bytes) (n : ℤ) (t : Table) (p : Table × Upload)
    → record_served failing k n t ≡ ok p
    → p.0 ≡ update_where k (add_served (pos_part n)) t
unfolding record_served
record_served-table failing k n t p h = ground arith

finish_compat-table :
    (failing : Bool) (k : Bytes) (size : ℤ) (now : ℕ) (t t' : Table)
    → finish_compat failing k size now t ≡ ok t'
    → (t' ≡ update_where k (set_finished (pos_part size) (unix now)) t)
      × ((r : Row) × (find_row k t ≡ some r) × (r.completed_at ≡ none))
unfolding finish_compat is_some
finish_compat-table failing k size now t t' h = elim (Option-cases (find_row k t)) [
  | inl missing ↦ absurd (ground (arith, h, missing))
  | inr (r, found) ↦ (ground (arith, h, found), (r, found, ground (arith, h, found)))
]

pub finish_compat-IsSound :
    (failing : Bool) (k : Bytes) (size : ℤ) (now : ℕ) (t t' : Table)
    → second ≤ now
    → IsSound t
    → finish_compat failing k size now t ≡ ok t'
    → IsSound t'
finish_compat-IsSound failing k size now t t' late sound h =
    let (is, (r, found, pending)) = finish_compat-table failing k size now t t' h in
    let at = unix now in
    subst IsSound (sym is) (
      update-IsSound k (set_finished (pos_part size) at) t (set_finished-id (pos_part size) at)
        (λ x e.
          let same : r ≡ x = ground (arith, found, e) in
          set_finished-IsSoundRow (pos_part size) at x (unix_pos now late)
            (subst (λ y. y.completed_at ≡ none) same pending))
        sound)

-- A rotation of the master key leaves all of a row but its key.
rekeyed-IsSoundRow :
    (key : Bytes) (r : Row) → IsSoundRow r → IsSoundRow (record r { at_rest_key = key })
rekeyed-IsSoundRow key r s = record {
  formed = record { dated = s.formed.dated; due = s.formed.due; counted = s.formed.counted };
  unserved = s.unserved;
  uncounted = s.uncounted;
}

-- One table holds the rows of another up to their keys.
abbrev pub SameButKeys : Table → Table → Type 0
SameButKeys [] [] = Unit
SameButKeys [] (r' ∷ t') = ⊥
SameButKeys (r ∷ t) [] = ⊥
SameButKeys (r ∷ t) (r' ∷ t') = (r' ≡ record r { at_rest_key = r'.at_rest_key }) × SameButKeys t t'

pub rekey_rows-SameButKeys :
    (fn : ℕ → Bytes → Result Bytes) (i : ℕ) (t : Table) (p : Table × ℕ)
    → rekey_rows fn i t ≡ ok p
    → SameButKeys t p.0
unfolding rekey_rows
rekey_rows-SameButKeys fn i [] p h =
    let e : [] ≡ p.0 = ground (arith, h) in subst (SameButKeys []) e tt
rekey_rows-SameButKeys fn i (r ∷ t) p h = elim (Result-cases (fn i r.at_rest_key)) [
  | inr (fault, e) ↦ absurd (ground (arith, h, e))
  | inl (next, e) ↦ elim (Result-cases (rekey_rows fn (suc i) t)) [
    | inr (fault, e') ↦ absurd (ground (arith, h, e, e'))
    | inl (rest, e') ↦
        let whole : record r { at_rest_key = next } ∷ rest.0 ≡ p.0 = ground (arith, h, e, e') in
        subst (SameButKeys (r ∷ t)) whole (refl, rekey_rows-SameButKeys fn (suc i) t rest e')
  ]
]

SameButKeys-missing :
    (k : Bytes) (t t' : Table) → SameButKeys t t' → find_row k t ≡ none → find_row k t' ≡ none
unfolding find_row
SameButKeys-missing k [] [] same e = e
SameButKeys-missing k [] (r' ∷ t') same e = absurd same
SameButKeys-missing k (r ∷ t) [] same e = absurd same
SameButKeys-missing k (r ∷ t) (r' ∷ t') same e =
    let id_is : r'.id ≡ r.id = ap (λ x. x.id) same.0 in
    ground (arith, id_is, e, SameButKeys-missing k t t' same.1)

pub SameButKeys-IsSound : (t t' : Table) → SameButKeys t t' → IsSound t → IsSound t'
SameButKeys-IsSound [] [] same s = s
SameButKeys-IsSound [] (r' ∷ t') same s = absurd same
SameButKeys-IsSound (r ∷ t) [] same s = absurd same
SameButKeys-IsSound (r ∷ t) (r' ∷ t') same s =
    let rest =
      SameButKeys-IsSound t t' same.1 (record { distinct = s.distinct.1; rows = s.rows.1 }) in
    let free : find_row r'.id t' ≡ none =
      SameButKeys-missing r'.id t t' same.1
        (subst (λ k. find_row k t ≡ none) (sym (ap (λ x. x.id) same.0)) s.distinct.0) in
    record {
      distinct = (free, rest.distinct);
      rows =
          (subst IsSoundRow (sym same.0) (rekeyed-IsSoundRow r'.at_rest_key r s.rows.0), rest.rows);
    }

pub rekey-rows :
    (failing : Bool) (fn : ℕ → Bytes → Result Bytes) (t : Table) (p : Table × ℕ)
    → rekey failing fn t ≡ ok p
    → rekey_rows fn 0 t ≡ ok p
unfolding rekey
rekey-rows failing fn t p h = ground (arith, h)
