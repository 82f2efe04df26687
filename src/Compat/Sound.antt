-- ===== src/Compat/Sound.antt =====
-- What each statement keeps of the two tables: a row of this protocol always refers to an upload, and
-- always has a key and a nonce to authenticate against.
use mathlib.Core.Path.{subst}
use sendan.Prelude.{
  ℕ, ◌≡◌, refl, sym, ap, ◌∙◌, Bool, true, false, [], ◌∷◌, ◌++◌, Bytes, bytes_eq, bytes_eq_iff,
  is_empty, ok, arith, All, All-append, All-implies, All-filter_of, Bool-cases, Option-cases, inl,
  inr,
}
use sendan.Prelude.Int.{pos}
use sendan.Store.Upload.{Upload}
use sendan.Store.Table.{
  Row, Table, find_row, update_where, to_row, is_some, unix, record_served, add_served,
}
use sendan.Store.Writing.{add_served-id}
use sendan.Store.Lookup.{find_row-append_found}
use sendan.Compat.Rows.{
  CompatUpload, CompatTable, cascade, update_compat, create_compat, validate_compat, insert_both,
  set_nonce, set_auth_key, set_compat_password, update_one, set_finished, finish_compat,
}

pub record IsServable (t : Table) (c : CompatUpload) : Type 0 where
  pub referenced : is_some (find_row c.id t) ≡ true
  pub keyed : is_empty c.auth_key ≡ false
  pub fresh : is_empty c.nonce ≡ false

abbrev pub IsSound : Table → CompatTable → Type 0
IsSound t = All (IsServable t)

-- A table that lacks none of the uploads of another serves as well.
abbrev pub Covers : Table → Table → Type 0
Covers t t' = (k : Bytes) → is_some (find_row k t) ≡ true → is_some (find_row k t') ≡ true

pub Covers-IsSound :
    (t t' : Table) (rows : CompatTable) → Covers t t' → IsSound t rows → IsSound t' rows
Covers-IsSound t t' rows covers s =
    All-implies (IsServable t) (IsServable t') rows
      (λ c h. record { referenced = covers c.id h.referenced; keyed = h.keyed; fresh = h.fresh }) s

pub update_where-Covers :
    (k : Bytes) (f : Row → Row) (t : Table)
    → ((r : Row) → (f r).id ≡ r.id)
    → Covers t (update_where k f t)
unfolding find_row update_where is_some
update_where-Covers k f [] same j h = h
update_where-Covers k f (x ∷ t) same j h = ground (arith, same x, update_where-Covers k f t same j)

append-Covers : (t : Table) (r : Row) → Covers t (t ++ r ∷ [])
unfolding is_some
append-Covers t r k h = elim (Option-cases (find_row k t)) [
  | inl missing ↦ absurd (cc (h, missing))
  | inr (s, found) ↦ rw (find_row-append_found k t r s found) refl
]

append_self : (t : Table) (r : Row) → is_some (find_row r.id (t ++ r ∷ [])) ≡ true
unfolding find_row is_some
append_self [] r = rw ((bytes_eq_iff r.id r.id).1 refl) refl
append_self (x ∷ t) r = elim (Bool-cases (bytes_eq x.id r.id)) [
  | inl same ↦ rw same refl
  | inr other ↦ rw other (append_self t r)
]

-- A deletion takes the rows that referred to what it deleted.
pub cascade-IsSound :
    (t t' : Table) (rows : CompatTable) → IsSound t rows → IsSound t' (cascade t' rows)
unfolding cascade
cascade-IsSound t t' rows s =
    All-filter_of (IsServable t') (IsServable t) (λ c. is_some (find_row c.id t')) rows
      (λ c here h. record { referenced = here; keyed = h.keyed; fresh = h.fresh }) s

update_compat-IsSound :
    (k : Bytes) (f : CompatUpload → CompatUpload) (t : Table) (rows : CompatTable)
    → ((c : CompatUpload) → IsServable t c → IsServable t (f c))
    → IsSound t rows
    → IsSound t (update_compat k f rows)
unfolding update_compat
update_compat-IsSound k f t [] keeps s = tt
update_compat-IsSound k f t (c ∷ rows) keeps s = elim (Bool-cases (bytes_eq c.id k)) [
  | inl same ↦ rw same (keeps c s.0, update_compat-IsSound k f t rows keeps s.1)
  | inr other ↦ rw other (s.0, update_compat-IsSound k f t rows keeps s.1)
]

pub rotated-IsSound :
    (k next : Bytes) (t : Table) (rows : CompatTable)
    → is_empty next ≡ false
    → IsSound t rows
    → IsSound t (update_compat k (set_nonce next) rows)
unfolding set_nonce
rotated-IsSound k next t rows filled =
    update_compat-IsSound k (set_nonce next) t rows
      (λ c h. record { referenced = h.referenced; keyed = h.keyed; fresh = filled })

pub set_compat_password_ok :
    (failing : Bool) (k key : Bytes) (rows rows' : CompatTable)
    → set_compat_password failing k key rows ≡ ok rows'
    → (is_empty key ≡ false) × (rows' ≡ update_compat k (set_auth_key key) rows)
unfolding set_compat_password update_one
set_compat_password_ok failing k key rows rows' e = ground arith

pub set_compat_password-IsSound :
    (failing : Bool) (k key : Bytes) (t : Table) (rows rows' : CompatTable)
    → set_compat_password failing k key rows ≡ ok rows'
    → IsSound t rows
    → IsSound t rows'
unfolding set_auth_key
set_compat_password-IsSound failing k key t rows rows' e s =
    let (filled, is) = set_compat_password_ok failing k key rows rows' e in
    subst (IsSound t) (sym is) (
      update_compat-IsSound k (set_auth_key key) t rows
        (λ c h. record { referenced = h.referenced; keyed = filled; fresh = h.fresh }) s)

pub validate_compat_ok :
    (u : Upload) (c : CompatUpload)
    → validate_compat u c ≡ ok tt
    → (u.id ≡ c.id) × (is_empty c.auth_key ≡ false) × (is_empty c.nonce ≡ false)
unfolding validate_compat
validate_compat_ok u c e = ground (arith, bytes_eq_iff u.id c.id)

-- A creation that succeeds inserts the two rows, of one identifier that neither table had.
pub create_compat_ok :
    (begin_fails failing : Bool) (u : Upload) (c : CompatUpload) (t t' : Table)
    (rows rows' : CompatTable)
    → create_compat begin_fails failing u c t rows ≡ ok (t', rows')
    → (validate_compat u c ≡ ok tt) × (insert_both (to_row u) c t rows ≡ ok (t', rows'))
unfolding create_compat
create_compat_ok begin_fails failing u c t t' rows rows' e = ground arith

pub insert_both_ok :
    (r : Row) (c : CompatUpload) (t t' : Table) (rows rows' : CompatTable)
    → insert_both r c t rows ≡ ok (t', rows')
    → (t' ≡ t ++ r ∷ []) × (rows' ≡ rows ++ c ∷ [])
unfolding insert_both
insert_both_ok r c t t' rows rows' e = ground arith

pub to_row-same : (u : Upload) → (to_row u).id ≡ u.id
unfolding to_row
to_row-same u = refl

pub create_compat-IsSound :
    (begin_fails failing : Bool) (u : Upload) (c : CompatUpload) (t t' : Table)
    (rows rows' : CompatTable)
    → create_compat begin_fails failing u c t rows ≡ ok (t', rows')
    → IsSound t rows
    → IsSound t' rows'
create_compat-IsSound begin_fails failing u c t t' rows rows' e s =
    let (valid, inserted) = create_compat_ok begin_fails failing u c t t' rows rows' e in
    let (same, keyed, fresh) = validate_compat_ok u c valid in
    let (t_is, rows_is) = insert_both_ok (to_row u) c t t' rows rows' inserted in
    let r = to_row u in
    let here : is_some (find_row c.id (t ++ r ∷ [])) ≡ true =
      ap (λ j. is_some (find_row j (t ++ r ∷ []))) (sym (to_row-same u ∙ same)) ∙ append_self t r in
    let all : IsSound (t ++ r ∷ []) (rows ++ c ∷ []) =
      All-append (IsServable (t ++ r ∷ [])) rows (c ∷ [])
        (Covers-IsSound t (t ++ r ∷ []) rows (append-Covers t r) s)
        (record { referenced = here; keyed = keyed; fresh = fresh }, tt) in
    subst (λ x. IsSound x rows') (sym t_is) (subst (IsSound (t ++ r ∷ [])) (sym rows_is) all)

pub set_finished-id : (size at : ℕ) (r : Row) → (set_finished size at r).id ≡ r.id
unfolding set_finished
set_finished-id size at r = refl

pub finish_compat_ok :
    (failing : Bool) (k : Bytes) (size now : ℕ) (t t' : Table)
    → finish_compat failing k (pos size) now t ≡ ok t'
    → t' ≡ update_where k (set_finished size (unix now)) t
unfolding finish_compat
finish_compat_ok failing k size now t t' e = ground arith

pub finish_compat-Covers :
    (failing : Bool) (k : Bytes) (size now : ℕ) (t t' : Table)
    → finish_compat failing k (pos size) now t ≡ ok t'
    → Covers t t'
finish_compat-Covers failing k size now t t' e =
    subst (Covers t) (sym (finish_compat_ok failing k size now t t' e))
      (update_where-Covers k (set_finished size (unix now)) t (set_finished-id size (unix now)))

record_served_ok :
    (failing : Bool) (k : Bytes) (n : ℕ) (t t' : Table) (u : Upload)
    → record_served failing k (pos n) t ≡ ok (t', u)
    → t' ≡ update_where k (add_served n) t
unfolding record_served
record_served_ok failing k n t t' u e = ground arith

pub record_served-Covers :
    (failing : Bool) (k : Bytes) (n : ℕ) (t t' : Table) (u : Upload)
    → record_served failing k (pos n) t ≡ ok (t', u)
    → Covers t t'
record_served-Covers failing k n t t' u e =
    subst (Covers t) (sym (record_served_ok failing k n t t' u e))
      (update_where-Covers k (add_served n) t (add_served-id n))
