-- ===== src/Store/Invariant.antt =====
-- The invariant of the `uploads` table under every history of the store's operations, those of
-- internal/store/compat.go and rekey.go included.
use mathlib.Core.Path.{subst}
use sendan.Prelude.{
  ℕ, ◌≤◌, ◌≡◌, refl, sym, Bool, true, false, Option, none, some, List, [], ◌∷◌, Bytes, ok, err,
  Result,
}
use sendan.Prelude.Int.{ℤ, pos_part}
use sendan.Store.Upload.{Upload, second}
use sendan.Store.Table.{
  Row, Table, unix, find_row, create, record_served, add_served, delete, complete_upload,
  set_completed, is_some,
}
use sendan.Store.MasterKey.{rekey}
use sendan.Store.Lookup.{delete_where-Distinct, All-delete}
use sendan.Store.Writing.{add_served-id, set_completed-id}
use sendan.Compat.Rows.{
  CompatUpload, cascade, create_compat, finish_compat, rotate_compat_nonce, set_compat_password,
}
use sendan.Store.Soundness.{
  IsSoundRow, IsSound, IsFresh, Tables, add_served-IsSoundRow, set_completed-IsSoundRow, unix_pos,
  create-IsSound, create_compat-IsSound, update-IsSound, create_failing, record_served-table,
  finish_compat-IsSound, rekey_rows-SameButKeys, SameButKeys-IsSound, rekey-rows,
}

-- An operation of the store that writes, with the driver's answer to its call.
pub data Op : Type 0 where
  create_op : Bool → Upload → Op
  served_op : Bool → Bytes → ℤ → Op
  delete_op : Bool → Bytes → Op
  complete_op : Bool → Bytes → ℕ → Op
  rekey_op : Bool → (ℕ → Bytes → Result Bytes) → Op
  create_compat_op : Bool → Bool → Upload → CompatUpload → Op
  finish_compat_op : Bool → Bytes → ℤ → ℕ → Op
  rotate_op : Bool → Bytes → Bytes → Op
  password_op : Bool → Bytes → Bytes → Op

-- The tables after an operation; a refused one leaves them alone.
abbrev kept {ℓ} : {A : Type ℓ} → Tables → (A → Tables) → Result A → Tables
kept s f (ok a) = f a
kept s f (err e) = s

unfoldable pub apply : Op → Tables → Tables
apply (create_op failing u) (t, rows) = kept (t, rows) (λ t'. (t', rows)) (create failing u t)
apply (served_op failing k n) (t, rows) =
    kept (t, rows) (λ p. (p.0, rows)) (record_served failing k n t)
apply (delete_op failing k) (t, rows) =
    kept (t, rows) (λ t'. (t', cascade t' rows)) (delete failing k t)
apply (complete_op failing k now) (t, rows) =
    kept (t, rows) (λ t'. (t', rows)) (complete_upload failing k now t)
apply (rekey_op failing fn) (t, rows) = kept (t, rows) (λ p. (p.0, rows)) (rekey failing fn t)
apply (create_compat_op begin_fails failing u c) (t, rows) =
    kept (t, rows) (λ s. s) (create_compat begin_fails failing u c t rows)
apply (finish_compat_op failing k size now) (t, rows) =
    kept (t, rows) (λ t'. (t', rows)) (finish_compat failing k size now t)
apply (rotate_op failing k nonce) (t, rows) =
    kept (t, rows) (λ rows'. (t, rows')) (rotate_compat_nonce failing k nonce rows)
apply (password_op failing k key) (t, rows) =
    kept (t, rows) (λ rows'. (t, rows')) (set_compat_password failing k key rows)

abbrev pub CompletedIfFound : Option Row → Type 0
CompletedIfFound none = Unit
CompletedIfFound (some r) = is_some r.completed_at ≡ true

-- The callers' side: fresh uploads are created, the clock is past the first second, and what is counted
-- as served is of an upload that was read as live, so it is complete if it is still there.
abbrev pub IsAllowed : Op → Table → Type 0
IsAllowed (create_op failing u) t = IsFresh u
IsAllowed (served_op failing k n) t = CompletedIfFound (find_row k t)
IsAllowed (delete_op failing k) t = Unit
IsAllowed (complete_op failing k now) t = second ≤ now
IsAllowed (rekey_op failing fn) t = Unit
IsAllowed (create_compat_op begin_fails failing u c) t = IsFresh u
IsAllowed (finish_compat_op failing k size now) t = second ≤ now
IsAllowed (rotate_op failing k nonce) t = Unit
IsAllowed (password_op failing k key) t = Unit

pub run : List Op → Tables → Tables
run [] s = s
run (op ∷ ops) s = run ops (apply op s)

-- Each operation of a history is allowed when its turn comes.
abbrev pub AllAllowed : List Op → Tables → Type 0
AllAllowed [] s = Unit
AllAllowed (op ∷ ops) s = IsAllowed op s.0 × AllAllowed ops (apply op s)

kept-IsSound {ℓ} :
    {A : Type ℓ} (s : Tables) (f : A → Tables) (r : Result A)
    → ((a : A) → r ≡ ok a → IsSound (f a).0)
    → IsSound s.0
    → IsSound (kept s f r).0
kept-IsSound s f (ok a) h sound = h a refl
kept-IsSound s f (err e) h sound = sound

served-IsSoundRow :
    (n : ℕ) (k : Bytes) (t : Table) (r : Row)
    → CompletedIfFound (find_row k t)
    → find_row k t ≡ some r
    → IsSoundRow r
    → IsSoundRow (add_served n r)
served-IsSoundRow n k t r f e = add_served-IsSoundRow n r (subst CompletedIfFound e f)

apply-IsSound : (op : Op) (s : Tables) → IsAllowed op s.0 → IsSound s.0 → IsSound (apply op s).0
unfolding apply
apply-IsSound (create_op true u) (t, rows) f s =
    kept-IsSound (t, rows) (λ t'. (t', rows)) (create true u t)
      (λ t' e. absurd (create_failing u t t' e)) s
apply-IsSound (create_op false u) (t, rows) f s =
    kept-IsSound (t, rows) (λ t'. (t', rows)) (create false u t) (λ t'. create-IsSound u t t' f s) s
apply-IsSound (served_op failing k n) (t, rows) f s =
    kept-IsSound (t, rows) (λ p. (p.0, rows)) (record_served failing k n t)
      (λ p e. subst IsSound (sym (record_served-table failing k n t p e)) (
        update-IsSound k (add_served (pos_part n)) t (add_served-id (pos_part n))
          (λ r. served-IsSoundRow (pos_part n) k t r f) s))
      s
apply-IsSound (delete_op true k) (t, rows) f s = unfold delete in s
apply-IsSound (delete_op false k) (t, rows) f s =
    unfold delete in
    record {
      distinct = delete_where-Distinct k t s.distinct;
      rows = All-delete IsSoundRow k t s.rows;
    }
apply-IsSound (complete_op true k now) (t, rows) f s = unfold complete_upload in s
apply-IsSound (complete_op false k now) (t, rows) f s =
    unfold complete_upload in
    update-IsSound k (set_completed (unix now)) t (set_completed-id (unix now))
      (λ r e. set_completed-IsSoundRow (unix now) r (unix_pos now f)) s
apply-IsSound (rekey_op failing fn) (t, rows) f s =
    kept-IsSound (t, rows) (λ p. (p.0, rows)) (rekey failing fn t)
      (λ p e.
        SameButKeys-IsSound t p.0 (rekey_rows-SameButKeys fn 0 t p (rekey-rows failing fn t p e)) s)
      s
apply-IsSound (create_compat_op begin_fails failing u c) (t, rows) f s =
    kept-IsSound (t, rows) (λ x. x) (create_compat begin_fails failing u c t rows)
      (λ x. create_compat-IsSound begin_fails failing u c t rows x f s) s
apply-IsSound (finish_compat_op failing k size now) (t, rows) f s =
    kept-IsSound (t, rows) (λ t'. (t', rows)) (finish_compat failing k size now t)
      (λ t'. finish_compat-IsSound failing k size now t t' f s) s
apply-IsSound (rotate_op failing k nonce) (t, rows) f s =
    kept-IsSound (t, rows) (λ rows'. (t, rows')) (rotate_compat_nonce failing k nonce rows)
      (λ rows' e. s) s
apply-IsSound (password_op failing k key) (t, rows) f s =
    kept-IsSound (t, rows) (λ rows'. (t, rows')) (set_compat_password failing k key rows)
      (λ rows' e. s) s

-- Under every history of the operations that write the two tables, each allowed when its turn comes,
-- with the driver failing at any of them: the identifiers of the uploads stay distinct, every row of a
-- size above zero keeps its download count equal to the number of whole files served, and nothing is
-- counted as served of an upload that is not complete.
pub run-IsSound :
    (ops : List Op) (s : Tables) → AllAllowed ops s → IsSound s.0 → IsSound (run ops s).0
unfolding run
run-IsSound [] s h sound = sound
run-IsSound (op ∷ ops) s h sound = run-IsSound ops (apply op s) h.1 (apply-IsSound op s h.0 sound)
