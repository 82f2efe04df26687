-- ===== src/Upload/Access.antt =====
-- What a download token gives access to, and what it costs.
use mathlib.Core.Path.{subst}
use sendan.Prelude.{
  ℕ, ◌≡◌, refl, sym, ap, ◌∙◌, Bool, true, false, not, Option, none, some, Bytes, bytes_eq,
  bytes_eq_iff, Result, ok, err, Error, not_found, if◌then◌else◌, too_many_attempts, unauthorized,
  arith, Result-cases, inl, inr,
}
use sendan.Store.Upload.{Upload, live}
use sendan.Store.Table.{get}
use sendan.Store.Reading.{get_ok}
use sendan.Blob.Shredder.{Cipher}
use sendan.Upload.Attempts.{Attempts}
use sendan.Upload.Service.{World, forget_attempts, charge, authenticated, content}
use sendan.Upload.Deletion.{recalled, get_cases}

module _ (tries : Attempts) (digest : Bytes → Bytes) where
  authenticated_err :
      (failing : Bool) (id token : Bytes) (now clock : ℕ) (w : World tries digest) (e : Error)
      → get failing id now w.table ≡ err e
      → authenticated tries digest failing id token now clock w ≡ (w, err e)
  unfolding authenticated
  authenticated_err failing id token now clock w e h = rw (authenticated, h) refl

  -- What `authenticated` makes of a row that it found, and of the limiter's answer.
  abbrev judged :
      Bytes
      → Bytes
      → World tries digest
      → Upload
      → Option tries.State × Bool
      → World tries digest × Result Upload
  judged id token w u (charged, allowed) =
      if not allowed
      then (record w { attempts = charged }, err too_many_attempts)
      else if not (bytes_eq (digest token) u.auth_token_hash)
      then (record w { attempts = charged }, err unauthorized)
      else (record w { attempts = forget_attempts tries digest id charged }, ok u)

  authenticated_found :
      (failing : Bool) (id token : Bytes) (now clock : ℕ) (w : World tries digest) (u : Upload)
      → get failing id now w.table ≡ ok u
      → authenticated tries digest failing id token now clock w
        ≡ judged id token w u (charge tries digest clock id w.attempts)
  unfolding authenticated
  authenticated_found failing id token now clock w u h = rw (authenticated, h) refl

  forget_attempts_self :
      (id : Bytes) (s : Option tries.State)
      → recalled tries digest id (forget_attempts tries digest id s) ≡ none
  unfolding forget_attempts
  forget_attempts_self id none = refl
  forget_attempts_self id (some s) = tries.forgotten id s

  judged_ok :
      (id token : Bytes) (w w' : World tries digest) (u v : Upload) (s : Option tries.State)
      (allowed : Bool)
      → judged id token w u (s, allowed) ≡ (w', ok v)
      → (u ≡ v)
        × (digest token ≡ u.auth_token_hash)
        × (forget_attempts tries digest id s ≡ w'.attempts)
  judged_ok id token w w' u v s allowed e =
      ground (arith, bytes_eq_iff (digest token) u.auth_token_hash)

  judged-read_only :
      (id token : Bytes) (w : World tries digest) (u : Upload) (s : Option tries.State)
      (allowed : Bool)
      → let w' = (judged id token w u (s, allowed)).0 in (w'.table ≡ w.table) × (w'.files ≡ w.files)
  judged-read_only id token w u s allowed = ground arith

  authenticated-read_only :
      (failing : Bool) (id token : Bytes) (now clock : ℕ) (w : World tries digest)
      → let w' = (authenticated tries digest failing id token now clock w).0 in
        (w'.table ≡ w.table) × (w'.files ≡ w.files)
  authenticated-read_only failing id token now clock w =
      elim (Result-cases (get failing id now w.table)) [
        | inl (u, found) ↦
            let (s, allowed) = charge tries digest clock id w.attempts in
            subst (λ r. (r.0.table ≡ w.table) × (r.0.files ≡ w.files))
              (sym (authenticated_found failing id token now clock w u found))
              (judged-read_only id token w u s allowed)
        | inr (e, absent) ↦
            subst (λ r. (r.0.table ≡ w.table) × (r.0.files ≡ w.files))
              (sym (authenticated_err failing id token now clock w e absent)) (refl, refl)
      ]

  -- A token is accepted only for an upload that is live at that instant and whose stored hash is the
  -- token's, after which the limiter holds nothing about the upload.
  pub authenticated_ok :
      (id token : Bytes) (now clock : ℕ) (w w' : World tries digest) (u : Upload)
      → authenticated tries digest false id token now clock w ≡ (w', ok u)
      → (get false id now w.table ≡ ok u)
        × (live u now ≡ true)
        × (digest token ≡ u.auth_token_hash)
        × (recalled tries digest id w'.attempts ≡ none)
  authenticated_ok id token now clock w w' u e = elim (get_cases id now w.table) [
    | inl absent ↦
        let read = sym (authenticated_err false id token now clock w not_found absent) ∙ e in
        ground arith
    | inr (v, found) ↦
        let (s, allowed) = charge tries digest clock id w.attempts in
        let (same, hash, left) =
          judged_ok id token w w' v u s allowed
            (sym (authenticated_found false id token now clock w v found) ∙ e) in
        let read : get false id now w.table ≡ ok u = found ∙ ap ok same in
        let (r, row, shown, lives, named) = get_ok id now w.table u read in
        (
          read,
          lives,
          subst (λ (x : Upload). digest token ≡ x.auth_token_hash) same hash,
          subst (λ o. recalled tries digest id o ≡ none) left (forget_attempts_self id s),
        )
  ]

  -- Whatever the token, the rate limit and the store answer, checking a token and opening the content
  -- leave the rows and the blobs as they were, so neither ever spends a download.
  pub content-read_only :
      (cipher : Cipher) (failing open_fails : Bool) (id token : Bytes) (now clock offset : ℕ)
      (w : World tries digest)
      → let (w', r) = content tries digest cipher failing open_fails id token now clock offset w in
        (w'.table ≡ w.table) × (w'.files ≡ w.files)
  unfolding content
  content-read_only cipher failing open_fails id token now clock offset w =
      authenticated-read_only failing id token now clock w
