-- ===== src/Compat/Granting.antt =====
-- When a request is granted, and what that leaves.
use mathlib.Core.Option
use mathlib.Core.Path.{subst}
use sendan.Prelude.{
  ℕ, ◌≡◌, refl, sym, ap, ◌∙◌, ◌≢◌, ◌⊎◌, inl, inr, Bool, true, false, Option, none, some, Bytes,
  bytes_eq, bytes_eq_iff, is_empty, Error, Result, ok, err, arith, Bool-cases, Option-cases,
  Result-cases, if◌then◌else◌, is_not_found,
}
use sendan.Store.Table.{is_some}
use sendan.Compat.Rows.{
  CompatUpload, CompatTable, find_compat, update_compat, compat_row, rotate_compat_nonce, set_nonce,
  update_one,
}
use sendan.Compat.Auth.{
  Library, AuthCalls, Verdict, refused, granted, proves, authenticate, presented_authenticator,
  expected_authenticator,
}
use sendan.Compat.Lookup.{find_compat-update_self}

pub set_nonce-id : (next : Bytes) (c : CompatUpload) → (set_nonce next c).id ≡ c.id
unfolding set_nonce
set_nonce-id next c = refl

pub compat_row_found :
    (id : Bytes) (rows : CompatTable) (c : CompatUpload)
    → find_compat id rows ≡ some c
    → compat_row false id rows ≡ ok c
unfolding compat_row
compat_row_found id rows c e = rw (compat_row, e) refl

pub rotate_found :
    (id next : Bytes) (rows : CompatTable) (c : CompatUpload)
    → find_compat id rows ≡ some c
    → is_empty next ≡ false
    → rotate_compat_nonce false id next rows ≡ ok (update_compat id (set_nonce next) rows)
unfolding rotate_compat_nonce update_one is_some
rotate_found id next rows c e filled = rw (rotate_compat_nonce, filled, update_one, e) refl

-- A read that succeeds, and a rotation that does.
compat_row_ok :
    (failing : Bool) (id : Bytes) (rows : CompatTable) (c : CompatUpload)
    → compat_row failing id rows ≡ ok c
    → find_compat id rows ≡ some c
unfolding compat_row
compat_row_ok failing id rows c e = ground arith

rotate_ok :
    (failing : Bool) (id next : Bytes) (rows rotated : CompatTable)
    → rotate_compat_nonce failing id next rows ≡ ok rotated
    → (is_empty next ≡ false) × (rotated ≡ update_compat id (set_nonce next) rows)
unfolding rotate_compat_nonce update_one
rotate_ok failing id next rows rotated e = ground arith

module _ (lib : Library) where
  -- How an authentication that is granted got there.
  pub record Granted (calls : AuthCalls) (header id : Bytes) (rows after : CompatTable)
      (offered : Option Bytes) (shown : CompatUpload) : Type 0 where
    pub row : CompatUpload
    pub next : Bytes
    pub found : find_compat id rows ≡ some row
    pub signed :
        presented_authenticator lib header
        ≡ some (expected_authenticator lib row.auth_key row.nonce)
    pub fresh : calls.fresh ≡ some next
    pub filled : is_empty next ≡ false
    pub rotated : after ≡ update_compat id (set_nonce next) rows
    pub offers : offered ≡ some next
    pub shows : shown ≡ record row { nonce = next }

  proves-signed :
      (header : Bytes) (c : CompatUpload)
      → proves lib header c ≡ true
      → presented_authenticator lib header ≡ some (expected_authenticator lib c.auth_key c.nonce)
  unfolding proves
  proves-signed header c h = elim (Option-cases (presented_authenticator lib header)) [
    | inl missing ↦ absurd (ground (arith, missing))
    | inr (sig, e) ↦
        let same : bytes_eq (expected_authenticator lib c.auth_key c.nonce) sig ≡ true =
          ground (arith, e) in
        e
        ∙ ap some (sym ((bytes_eq_iff (expected_authenticator lib c.auth_key c.nonce) sig).0 same))
  ]

  -- What an authentication comes to where the row is read, and what the rotation then makes of it.
  abbrev pub after_rotation :
      Bytes
      → CompatUpload
      → CompatTable
      → Result CompatTable
      → CompatTable × (Option Bytes × Verdict)
  after_rotation next c rows (err e) = (rows, (none, refused (if is_not_found e then 404 else 500)))
  after_rotation next c rows (ok rotated) =
      (rotated, (some next, granted (record c { nonce = next })))

  abbrev pub after_proof :
      AuthCalls
      → Bytes
      → CompatUpload
      → CompatTable
      → Option Bytes
      → CompatTable × (Option Bytes × Verdict)
  after_proof calls id c rows none = (rows, (none, refused 500))
  after_proof calls id c rows (some next) =
      after_rotation next c rows (rotate_compat_nonce calls.rotate_fails id next rows)

  abbrev pub after_read :
      AuthCalls
      → Bytes
      → Bytes
      → CompatTable
      → Result CompatUpload
      → Bool
      → CompatTable × (Option Bytes × Verdict)
  after_read calls header id rows (err e) right = (rows, (none, refused 404))
  after_read calls header id rows (ok c) false = (rows, (some c.nonce, refused 401))
  after_read calls header id rows (ok c) true = after_proof calls id c rows calls.fresh

  pub authenticate_read :
      (calls : AuthCalls) (header id : Bytes) (rows : CompatTable) (c : CompatUpload) (right : Bool)
      → compat_row calls.read_fails id rows ≡ ok c
      → proves lib header c ≡ right
      → authenticate lib calls header id rows ≡ after_read calls header id rows (ok c) right
  unfolding authenticate
  authenticate_read calls header id rows c true read e = elim (Option-cases calls.fresh) [
    | inl nothing ↦ rw (authenticate, read, e, nothing) refl
    | inr (next, fresh) ↦
        elim (Result-cases (rotate_compat_nonce calls.rotate_fails id next rows)) [
          | inl (rotated, done) ↦ rw (authenticate, read, e, fresh, done) refl
          | inr (fault, fails) ↦ rw (authenticate, read, e, fresh, fails) refl
        ]
  ]
  authenticate_read calls header id rows c false read e = rw (authenticate, read, e) refl

  authenticate_unread :
      (calls : AuthCalls) (header id : Bytes) (rows : CompatTable) (e : Error)
      → compat_row calls.read_fails id rows ≡ err e
      → authenticate lib calls header id rows ≡ (rows, (none, refused 404))
  unfolding authenticate
  authenticate_unread calls header id rows e fails = rw (authenticate, fails) refl

  -- Refused with the table as it was, or granted.
  abbrev pub IsSafe :
      AuthCalls → Bytes → Bytes → CompatTable → CompatTable × (Option Bytes × Verdict) → Type 0
  IsSafe calls header id rows (after, (offered, verdict)) =
      ((status : ℕ) × (verdict ≡ refused status) × (after ≡ rows))
      ⊎ ((c : CompatUpload) × (verdict ≡ granted c) × Granted calls header id rows after offered c)

  rotation-IsSafe :
      (calls : AuthCalls) (header id next : Bytes) (rows : CompatTable) (c : CompatUpload)
      → compat_row calls.read_fails id rows ≡ ok c
      → proves lib header c ≡ true
      → calls.fresh ≡ some next
      → (r : Result CompatTable) → rotate_compat_nonce calls.rotate_fails id next rows ≡ r
      → IsSafe calls header id rows (after_rotation next c rows r)
  rotation-IsSafe calls header id next rows c read right fresh (err e) fails = inl (_, refl, refl)
  rotation-IsSafe calls header id next rows c read right fresh (ok rotated) done =
      let (filled, is) = rotate_ok calls.rotate_fails id next rows rotated done in
      inr (
        record c { nonce = next },
        refl,
        record {
          row = c;
          next = next;
          found = compat_row_ok calls.read_fails id rows c read;
          signed = proves-signed header c right;
          fresh = fresh;
          filled = filled;
          rotated = is;
          offers = refl;
          shows = refl;
        },
      )

  proof-IsSafe :
      (calls : AuthCalls) (header id : Bytes) (rows : CompatTable) (c : CompatUpload)
      → compat_row calls.read_fails id rows ≡ ok c
      → proves lib header c ≡ true
      → (f : Option Bytes) → calls.fresh ≡ f
      → IsSafe calls header id rows (after_proof calls id c rows f)
  proof-IsSafe calls header id rows c read right none nothing = inl (500, refl, refl)
  proof-IsSafe calls header id rows c read right (some next) fresh =
      rotation-IsSafe calls header id next rows c read right fresh
        (rotate_compat_nonce calls.rotate_fails id next rows) refl

  -- A request is granted only for a header that carries the MAC of the stored nonce under the stored
  -- key; then the nonce is replaced by the fresh one, which the answer offers. In every other case the
  -- table is as it was.
  pub authenticate_lem :
      (calls : AuthCalls) (header id : Bytes) (rows : CompatTable)
      → IsSafe calls header id rows (authenticate lib calls header id rows)
  authenticate_lem calls header id rows =
      elim (Result-cases (compat_row calls.read_fails id rows)) [
        | inr (e, missing) ↦
            subst (IsSafe calls header id rows)
              (sym (authenticate_unread calls header id rows e missing)) (inl (404, refl, refl))
        | inl (c, read) ↦ elim (Bool-cases (proves lib header c)) [
          | inr wrong ↦
              subst (IsSafe calls header id rows)
                (sym (authenticate_read calls header id rows c false read wrong))
                (inl (401, refl, refl))
          | inl right ↦
              subst (IsSafe calls header id rows)
                (sym (authenticate_read calls header id rows c true read right))
                (proof-IsSafe calls header id rows c read right calls.fresh refl)
        ]
      ]

  -- A signature of another nonce proves nothing.
  pub proves_other :
      (header : Bytes) (c : CompatUpload) (sig : Bytes)
      → presented_authenticator lib header ≡ some sig
      → expected_authenticator lib c.auth_key c.nonce ≢ sig
      → proves lib header c ≡ false
  unfolding proves
  proves_other header c sig e ne =
      ground (arith, e, bytes_eq_iff (expected_authenticator lib c.auth_key c.nonce) sig)

  -- What a granted request leaves is the row that it was shown.
  pub found_after :
      (calls : AuthCalls) (header id : Bytes) (rows after : CompatTable) (offered : Option Bytes)
      (c : CompatUpload)
      → Granted calls header id rows after offered c
      → find_compat id after ≡ some c
  unfolding set_nonce
  found_after calls header id rows after offered c g =
      ap (find_compat id) g.rotated
      ∙ find_compat-update_self id (set_nonce g.next) (set_nonce-id g.next) rows
      ∙ ap (Option.map (set_nonce g.next)) g.found
      ∙ ap some (sym g.shows)

  pub granted_how :
      (calls : AuthCalls) (header id : Bytes) (rows : CompatTable) (c : CompatUpload)
      → let (after, (offered, verdict)) = authenticate lib calls header id rows in
        verdict ≡ granted c → Granted calls header id rows after offered c
  granted_how calls header id rows c e = elim (authenticate_lem calls header id rows) [
    | inl (status, refuses, _) ↦ absurd (cc (e, refuses))
    | inr (c', grants, g) ↦
        let same : c' ≡ c = cc (e, grants) in
        let (after, (offered, _)) = authenticate lib calls header id rows in
        subst (Granted calls header id rows after offered) same g
  ]

  pub refused_unproven :
      (calls : AuthCalls) (header id : Bytes) (rows : CompatTable) (c : CompatUpload)
      → find_compat id rows ≡ some c
      → calls.read_fails ≡ false
      → proves lib header c ≡ false
      → authenticate lib calls header id rows ≡ (rows, (some c.nonce, refused 401))
  refused_unproven calls header id rows c found reads wrong =
      let read : compat_row calls.read_fails id rows ≡ ok c =
        ap (λ b. compat_row b id rows) reads ∙ compat_row_found id rows c found in
      authenticate_read calls header id rows c false read wrong
