-- ===== src/Config/Abandoning.antt =====
-- internal/config/config.go with Service.Reap of internal/upload/upload.go: what becomes of an upload
-- that is never finished.
use mathlib.Core.Path.{subst}
use sendan.Prelude.{
  ℕ, zero, suc, ◌∙◌, ◌+◌, ◌*◌, ◌-◌, ◌≤◌, ◌≡◌, refl, sym, ap, Bool, true, false, none, some, List,
  [], ◌∷◌, Bytes, bytes_eq, any_of, filter_by, map, take, length, Bool-cases, inl, inr, arith, ok,
}
use sendan.Store.Upload.{second}
use sendan.Store.Table.{Row, Table, find_row, unix, dead_row, list_dead, row_id, is_some}
use sendan.Upload.Attempts.{Attempts}
use sendan.Upload.Policy.{incomplete_ttl_of}
use sendan.Upload.Service.{Faults, World, reap}
use sendan.Upload.Deletion.{reap_each-gone}
use sendan.Config.{Config, validate_config, upload_policy, accepted_abandoned}

dead_unfinished :
    (r : Row) (now abandoned : ℕ)
    → r.completed_at ≡ none
    → r.created_at ≤ abandoned
    → dead_row now abandoned r ≡ true
unfolding dead_row is_some
dead_unfinished r now abandoned c h = ground arith

any_picked :
    (p : Row → Bool) (k : Bytes) (r : Row) (t : Table)
    → find_row k t ≡ some r
    → p r ≡ true
    → any_of (λ id. bytes_eq id k) (map row_id (filter_by p t)) ≡ true
unfolding find_row row_id
any_picked p k r [] found h = cc
any_picked p k r (x ∷ t) found h = elim (Bool-cases (bytes_eq x.id k)) [
  | inl here ↦
      let same : x ≡ r = ground (arith, here, found) in
      let picked : p x ≡ true = ap p same ∙ h in rw picked (ground (arith, here))
  | inr there ↦
      let rest = any_picked p k r t (ground (arith, there, found)) h in
      elim (Bool-cases (p x)) [ inl y ↦ rw y (ground (arith, rest)) | inr n ↦ rw n rest ]
]

take_whole : (n : ℕ) (xs : List Bytes) → length xs ≤ n → take n xs ≡ xs
take_whole zero [] h = refl
take_whole (suc n) [] h = refl
take_whole zero (x ∷ xs) h = absurd (omega (arith, h))
take_whole (suc n) (x ∷ xs) h = ap (λ ys. x ∷ ys) (take_whole n xs (omega (arith, h)))

not_empty : (k : Bytes) (r : Row) (t : Table) → find_row k t ≡ some r → 1 ≤ length t
unfolding find_row
not_empty k r [] found = cc
not_empty k r (x ∷ t) found = omega arith

length-picked : (p : Row → Bool) (t : Table) → length (map row_id (filter_by p t)) ≤ length t
length-picked p [] = omega arith
length-picked p (x ∷ t) = elim (Bool-cases (p x)) [
  | inl y ↦ rw y (omega (arith, length-picked p t))
  | inr n ↦ rw n (omega (arith, length-picked p t))
]

-- A batch that has room for all rows lists every abandoned one.
listed_unfinished :
    (k : Bytes) (r : Row) (now abandoned limit : ℕ) (t : Table)
    → find_row k t ≡ some r
    → r.completed_at ≡ none
    → r.created_at ≤ unix abandoned
    → length t ≤ limit
    → (ids : List Bytes) × (list_dead false now abandoned limit t ≡ ok ids)
      × (any_of (λ id. bytes_eq id k) ids ≡ true)
unfolding list_dead
listed_unfinished k r now abandoned limit t found c old room =
    let chosen = dead_row (unix now) (unix abandoned) in
    let ids = map row_id (filter_by chosen t) in
    let whole : take limit ids ≡ ids =
      take_whole limit ids (omega (arith, length-picked chosen t, room)) in
    (
      ids,
      ground (arith, whole, not_empty k r t found, room),
      any_picked chosen k r t found (dead_unfinished r (unix now) (unix abandoned) c old),
    )

started_before : (created now ttl : ℕ) → created * second + ttl ≤ now → created ≤ unix (now - ttl)
unfolding unix
started_before created now ttl h = omega arith

module _ (tries : Attempts) (digest : Bytes → Bytes) where
  -- Under a configuration without complaints, an upload that was begun at least the configured time ago
  -- and is not finished is gone after a pass of the reaper that lists it, whatever else the pass fails
  -- to delete: the batch has room for the rows of the table, the listing succeeds, the pass is not
  -- cancelled, and the row itself can be deleted.
  pub reap-abandoned :
      (c : Config) (faults : Bytes → Faults) (now limit : ℕ) (w : World tries digest) (k : Bytes)
      (r : Row)
      → validate_config c ≡ []
      → find_row k w.table ≡ some r
      → r.completed_at ≡ none
      → r.created_at * second + c.incomplete_ttl ≤ now
      → length w.table ≤ limit
      → (faults k).row_fails ≡ false
      → find_row k
          (reap tries digest false (λ _. false) faults (upload_policy c) now limit w).0.table
        ≡ none
  unfolding reap
  reap-abandoned c faults now limit w k r accepted found unfinished old room fine =
      let ttl = accepted_abandoned c accepted in
      let (ids, listed, here) =
        listed_unfinished k r now (now - incomplete_ttl_of (upload_policy c)) limit w.table found
          unfinished
          (subst (λ d. r.created_at ≤ unix (now - d)) (sym ttl)
            (started_before r.created_at now c.incomplete_ttl old))
          room in
      rw (reap, listed) (reap_each-gone tries digest faults ids 0 w k here fine)
