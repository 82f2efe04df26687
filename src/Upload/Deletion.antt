-- ===== src/Upload/Deletion.antt =====
-- What deletion, revocation and the reaper remove, whatever fails on the way, and what they leave.
use mathlib.Core.Path.{subst}
use sendan.Prelude.{
  ℕ, ◌-◌, ◌≡◌, refl, sym, ◌∙◌, ◌≢◌, ◌⊎◌, Bool, true, false, Option, none, some, List, [], ◌∷◌,
  Bytes, bytes_eq, ok, err, if◌then◌else◌, not_owner, io_failure, not_found, All, any_of,
  bytes_eq_iff, All-implies, arith, Bool-cases, Option-cases, Result-cases, inl, inr,
}
use sendan.Store.Upload.{Upload, live}
use sendan.Store.Table.{
  Table, Row, find_row, delete_where, get, select_upload, list_dead, scan_upload,
}
use sendan.Store.Table
use sendan.Store.Lookup.{Distinct, find_row-delete_self, find_row-delete_ne, find_row-delete_none}
use sendan.Store.Dead.{IsWellFormed}
use sendan.Store.Reading.{list_dead-unreadable, get_missing, get_dead}
use sendan.Blob.Files.{delete_blob}
use sendan.Upload.Attempts.{Attempts}
use sendan.Upload.Policy.{Policy, incomplete_ttl_of}
use sendan.Upload.Service.{Faults, World, forget_attempts, delete, revoke, reap_each, reap}

delete_cases :
    (failing : Bool) (id : Bytes) (t : Table)
    → Table.delete failing id t ≡ (if failing then err io_failure else ok (delete_where id t))
unfolding Table.delete
delete_cases failing id t = ground arith

-- What can be read under an identifier depends on its row alone.
get_same :
    (failing : Bool) (id : Bytes) (now : ℕ) (t t' : Table)
    → find_row id t' ≡ find_row id t
    → get failing id now t' ≡ get failing id now t
unfolding get select_upload
get_same failing id now t t' e = rw (get, select_upload, e) refl

pub get_cases :
    (id : Bytes) (now : ℕ) (t : Table)
    → (get false id now t ≡ err not_found) ⊎ ((u : Upload) × (get false id now t ≡ ok u))
unfolding get scan_upload
get_cases id now t = elim (Option-cases (find_row id t)) [
  | inl missing ↦ inl (get_missing id now t missing)
  | inr (r, found) ↦ elim (Bool-cases (live (scan_upload r) now)) [
    | inl lives ↦ inr (scan_upload r, rw (get, select_upload, found, lives) refl)
    | inr dead ↦ inl (get_dead id now t r found dead)
  ]
]

module _ (tries : Attempts) (digest : Bytes → Bytes) where
  -- What the limiter, where there is one, holds about an upload.
  abbrev pub recalled : Bytes → Option tries.State → Option tries.Memory
  recalled id none = none
  recalled id (some s) = tries.recall id s

  forget_attempts_lem :
      (id other : Bytes) (s : Option tries.State)
      → other ≢ id
      → (recalled id (forget_attempts tries digest id s) ≡ none)
        × (recalled other (forget_attempts tries digest id s) ≡ recalled other s)
  unfolding forget_attempts
  forget_attempts_lem id other none ne = (refl, refl)
  forget_attempts_lem id other (some s) ne = (tries.forgotten id s, tries.kept_others id other s ne)

  pub delete_failed :
      (faults : Faults) (id : Bytes) (w : World tries digest)
      → faults.row_fails ≡ true
      → delete tries digest faults id w ≡ (w, err io_failure)
  unfolding delete
  delete_failed faults id w h = rw (delete, delete_cases faults.row_fails id w.table, h) refl

  pub delete_done :
      (faults : Faults) (id : Bytes) (w : World tries digest)
      → faults.row_fails ≡ false
      → delete tries digest faults id w ≡ (
          let (fs, answer) = delete_blob faults.blob_fails faults.partial_fails id w.files in
          (
            record {
              table = delete_where id w.table;
              files = fs;
              attempts = forget_attempts tries digest id w.attempts;
            },
            answer,
          ))
  unfolding delete
  delete_done faults id w h = rw (delete, delete_cases faults.row_fails id w.table, h) refl

  -- A deletion is either refused with nothing changed at all, which happens only when the row cannot be
  -- deleted, or, whatever becomes of the blob, leaves neither the row nor any state about
  -- attempts on it, and every other upload's row and attempts as they were.
  pub delete_lem :
      (faults : Faults) (id other : Bytes) (w : World tries digest)
      → other ≢ id
      → let (w', answer) = delete tries digest faults id w in
        ((faults.row_fails ≡ true) × (w' ≡ w) × (answer ≡ err io_failure))
        ⊎ ((faults.row_fails ≡ false)
            × (find_row id w'.table ≡ none)
            × (find_row other w'.table ≡ find_row other w.table)
            × (recalled id w'.attempts ≡ none)
            × (recalled other w'.attempts ≡ recalled other w.attempts))
  delete_lem faults id other w ne = elim (Bool-cases faults.row_fails) [
    | inl fails ↦ inl (
      fails,
      rw (delete_failed faults id w fails) refl,
      rw (delete_failed faults id w fails) refl,
    )
    | inr done ↦
        let (gone, kept) = forget_attempts_lem id other w.attempts ne in
        let same = sym (delete_done faults id w done) in
        inr (
          done,
          subst (λ r. find_row id r.0.table ≡ none) same (find_row-delete_self id w.table),
          subst (λ r. find_row other r.0.table ≡ find_row other w.table) same
              (find_row-delete_ne id other w.table ne),
          subst (λ r. recalled id r.0.attempts ≡ none) same gone,
          subst (λ r. recalled other r.0.attempts ≡ recalled other w.attempts) same kept,
        )
  ]

  -- Revoking with a token that is not the owner's changes nothing and answers exactly as for an upload
  -- that does not exist or is dead.
  pub revoke-refused :
      (faults : Faults) (id owner_token : Bytes) (now : ℕ) (w : World tries digest)
      → ((u : Upload)
          → get false id now w.table ≡ ok u
          → bytes_eq (digest owner_token) u.owner_token_hash ≡ false)
      → revoke tries digest false faults id owner_token now w ≡ (w, err not_owner)
  unfolding revoke
  revoke-refused faults id owner_token now w wrong = elim (get_cases id now w.table) [
    | inl missing ↦ rw (revoke, missing) refl
    | inr (u, found) ↦ rw (revoke, found, wrong u found) refl
  ]

  abbrev Others : List Bytes → Bytes → Type 0
  Others ids k = All (λ id. k ≢ id) ids

  delete-row_other :
      (faults : Faults) (id k : Bytes) (w : World tries digest)
      → k ≢ id
      → find_row k (delete tries digest faults id w).0.table ≡ find_row k w.table
  delete-row_other faults id k w ne = elim (Bool-cases faults.row_fails) [
    | inl fails ↦ rw (delete_failed faults id w fails) refl
    | inr done ↦ rw (delete_done faults id w done) (find_row-delete_ne id k w.table ne)
  ]

  reap_each-row_other :
      (cancelled : Bytes → Bool) (faults : Bytes → Faults) (ids : List Bytes) (removed : ℕ)
      (w : World tries digest) (k : Bytes)
      → Others ids k
      → find_row k (reap_each tries digest cancelled faults ids removed w).0.table
        ≡ find_row k w.table
  unfolding reap_each
  reap_each-row_other cancelled faults [] removed w k h = refl
  reap_each-row_other cancelled faults (id ∷ ids) removed w k h = elim (Bool-cases (cancelled id)) [
    | inl stop ↦ rw stop refl
    | inr go ↦
        let (w', answer) = delete tries digest (faults id) id w in
        rw go (
          reap_each-row_other cancelled faults ids _ w' k h.1
          ∙ delete-row_other (faults id) id k w h.0)
  ]

  get-Others :
      (ids : List Bytes) (k : Bytes) (now : ℕ) (t : Table) (u : Upload)
      → get false k now t ≡ ok u
      → All (λ id. get false id now t ≡ err not_found) ids
      → Others ids k
  get-Others ids k now t u e h =
      All-implies (λ id. get false id now t ≡ err not_found) (λ id. k ≢ id) ids
        (λ id gone same.
          let read : get false id now t ≡ ok u = subst (λ j. get false j now t ≡ ok u) same e in
          cc (gone, read))
        h

  -- The reaper never touches an upload that can be read: on a sound table, whatever fails and whenever
  -- it is cancelled, what a reader gets under an identifier at that instant is the same after the pass.
  pub reap-live :
      (cancelled : Bytes → Bool) (faults : Bytes → Faults) (p : Policy) (now limit : ℕ)
      (w : World tries digest) (k : Bytes) (u : Upload)
      → Distinct w.table
      → All IsWellFormed w.table
      → get false k now w.table ≡ ok u
      → get false k now (reap tries digest false cancelled faults p now limit w).0.table ≡ ok u
  unfolding reap
  reap-live cancelled faults p now limit w k u d wf e =
      elim (Result-cases (list_dead false now (now - incomplete_ttl_of p) limit w.table)) [
        | inr (fault, fails) ↦ rw (reap, fails) e
        | inl (ids, listed) ↦
            let dead =
              list_dead-unreadable now (now - incomplete_ttl_of p) limit w.table ids d wf listed in
            rw (reap, listed)
              (get_same false k now w.table _ (
                  reap_each-row_other cancelled faults ids 0 w k
                    (get-Others ids k now w.table u e dead))
                ∙ e)
      ]

  delete-row_gone :
      (faults : Faults) (id k : Bytes) (w : World tries digest)
      → find_row k w.table ≡ none
      → find_row k (delete tries digest faults id w).0.table ≡ none
  delete-row_gone faults id k w e = elim (Bool-cases faults.row_fails) [
    | inl fails ↦ rw (delete_failed faults id w fails) e
    | inr done ↦ rw (delete_done faults id w done) (find_row-delete_none id k w.table e)
  ]

  pub reap_each-row_gone :
      (cancelled : Bytes → Bool) (faults : Bytes → Faults) (ids : List Bytes) (removed : ℕ)
      (w : World tries digest) (k : Bytes)
      → find_row k w.table ≡ none
      → find_row k (reap_each tries digest cancelled faults ids removed w).0.table ≡ none
  unfolding reap_each
  reap_each-row_gone cancelled faults [] removed w k e = e
  reap_each-row_gone cancelled faults (id ∷ ids) removed w k e = elim (Bool-cases (cancelled id)) [
    | inl stop ↦ rw stop e
    | inr go ↦
        let (w', answer) = delete tries digest (faults id) id w in
        rw go
          (reap_each-row_gone cancelled faults ids _ w' k (delete-row_gone (faults id) id k w e))
  ]

  -- A pass over a list of identifiers that is not cancelled reaches every one of them, also past
  -- failures of others: one whose row can be deleted has no row afterwards, whether its blob could be
  -- removed or not.
  pub reap_each-gone :
      (faults : Bytes → Faults) (ids : List Bytes) (removed : ℕ) (w : World tries digest)
      (k : Bytes)
      → any_of (λ id. bytes_eq id k) ids ≡ true
      → (faults k).row_fails ≡ false
      → find_row k (reap_each tries digest (λ _. false) faults ids removed w).0.table ≡ none
  unfolding reap_each
  reap_each-gone faults [] removed w k listed done = cc
  reap_each-gone faults (id ∷ ids) removed w k listed done =
      let (w', answer) = delete tries digest (faults id) id w in
      elim (Bool-cases (bytes_eq id k)) [
        | inl here ↦
            let same : id ≡ k = (bytes_eq_iff id k).0 here in
            let done_id : (faults id).row_fails ≡ false = rw same done in
            let gone : find_row k w'.table ≡ none =
              subst (λ j. find_row j w'.table ≡ none) same
                (subst (λ r. find_row id r.0.table ≡ none)
                  (sym (delete_done (faults id) id w done_id)) (find_row-delete_self id w.table)) in
            reap_each-row_gone (λ _. false) faults ids _ w' k gone
        | inr there ↦ reap_each-gone faults ids _ w' k (rw there at listed) done
      ]
