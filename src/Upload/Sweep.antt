-- ===== src/Upload/Sweep.antt =====
-- internal/upload/upload.go: the sweep that `RunReaper` makes on a tick.
use mathlib.Core.Path.{subst}
use mathlib.Core.List.{Memᴰ}
use mathlib.Core.List.Memᴰ
use sendan.Prelude.{
  ℕ, zero, suc, ◌-◌, ◌≤◌, ◌<◌, ◌≡◌, refl, sym, ap, ◌∙◌, ◌≢◌, ◌⊎◌, inl, inr, Bool, true, false,
  Option, none, some, List, [], ◌∷◌, map, filter_by, take, Bytes, bytes_eq, bytes_eq_iff, Result,
  ok, err, is_ok, ltb, ◌==◌, if◌then◌else◌, io_failure, length, arith, Bool-cases, Option-cases,
  Result-cases, Error,
}
use sendan.Store.Table.{Table, Row, row_id, find_row, delete_where, list_dead, dead_row, unix}
use sendan.Store.Lookup.{find_row-delete_self}
use sendan.Upload.Attempts.{Attempts}
use sendan.Upload.Policy.{Policy, incomplete_ttl_of}
use sendan.Upload.Service.{Faults, World, delete, reap_each, reap}
use sendan.Upload.Deletion.{delete_failed, delete_done, reap_each-row_gone}

-- What one pass meets: the time, whether the listing fails, and for each identifier whether the context
-- is cancelled at its turn and the faults of its deletion.
pub record Pass : Type 0 where
  pub now : ℕ
  pub failing : Bool
  pub cancelled : Bytes → Bool
  pub faults : Bytes → Faults

-- A table after deletions: as it was, or shorter.
Shrinks : Table → Table → Type 0
Shrinks t t' = (t' ≡ t) ⊎ (length t' < length t)

Shrinks-trans : (a b c : Table) → Shrinks a b → Shrinks b c → Shrinks a c
unfolding Shrinks
Shrinks-trans a b c (inl e) (inl k) = inl (k ∙ e)
Shrinks-trans a b c (inl e) (inr k) = inr (subst (λ t. length c < length t) e k)
Shrinks-trans a b c (inr e) (inl k) = inr (subst (λ t. length t < length a) (sym k) e)
Shrinks-trans a b c (inr e) (inr k) = inr (omega (arith, e, k))

delete_where-Shrinks : (k : Bytes) (t : Table) → Shrinks t (delete_where k t)
unfolding Shrinks delete_where
delete_where-Shrinks k [] = inl refl
delete_where-Shrinks k (r ∷ t) = shorter (bytes_eq r.id k) (delete_where-Shrinks k t)
  where
    shorter :
        (b : Bool)
        → Shrinks t (delete_where k t)
        → Shrinks (r ∷ t) (if b then delete_where k t else r ∷ delete_where k t)
    shorter true (inl e) = inr (omega (arith, ap length e))
    shorter true (inr l) = inr (omega (arith, l))
    shorter false (inl e) = inl (ap (λ (u : Table). r ∷ u) e)
    shorter false (inr l) = inr (omega (arith, l))

listed_row :
    (p : Row → Bool) (k : Bytes) (t : Table)
    → Memᴰ k (map row_id (filter_by p t))
    → find_row k t ≢ none
unfolding find_row row_id
listed_row p k [] m e = Memᴰ.not-nil m
listed_row p k (r ∷ t) m e = elim (Bool-cases (bytes_eq r.id k)) [
  | inl here ↦ absurd (ground (arith, e, here))
  | inr other ↦
      let rest : find_row k t ≡ none = ground (arith, e, other) in
      elim (Bool-cases (p r)) [
        | inl y ↦
            elim (Memᴰ.cases_cons (
              subst (Memᴰ k)
                (ap (λ b. map row_id (if b then r ∷ filter_by p t else filter_by p t)) y) m)) [
                  | inl same ↦ absurd (ground (arith, other, (bytes_eq_iff r.id k).1 (sym same)))
                  | inr m' ↦ listed_row p k t m' rest
                ]
        | inr n ↦
            listed_row p k t
              (subst (Memᴰ k)
                (ap (λ b. map row_id (if b then r ∷ filter_by p t else filter_by p t)) n) m)
              rest
      ]
]

Mem-take : (n : ℕ) (k : Bytes) (ks : List Bytes) → Memᴰ k (take n ks) → Memᴰ k ks
Mem-take zero k ks m = absurd (Memᴰ.not-nil m)
Mem-take (suc n) k [] m = m
Mem-take (suc n) k (x ∷ ks) m = elim (Memᴰ.cases_cons m) [
  | inl e ↦ Memᴰ.head e
  | inr m' ↦ Memᴰ.tail (Mem-take n k ks m')
]

same_ids : (a b : List Bytes) → ok a ≡ ok b → a ≡ b
same_ids a b h = ground (arith, h)

listed_of :
    (none_asked failing : Bool) (xs ids : List Bytes) (k : Bytes)
    → (if none_asked then ok [] else if failing then err io_failure else ok xs) ≡ ok ids
    → Memᴰ k ids
    → Memᴰ k xs
listed_of true failing xs ids k h m =
    absurd (Memᴰ.not-nil (subst (Memᴰ k) (sym (same_ids [] ids h)) m))
listed_of false true xs ids k h m = absurd (ground (arith, h))
listed_of false false xs ids k h m = subst (Memᴰ k) (sym (same_ids xs ids h)) m

-- What the store lists as dead has a row.
list_dead_rows :
    (failing : Bool) (now abandoned limit : ℕ) (t : Table) (ids : List Bytes) (k : Bytes)
    → list_dead failing now abandoned limit t ≡ ok ids
    → Memᴰ k ids
    → find_row k t ≢ none
unfolding list_dead
list_dead_rows failing now abandoned limit t ids k h m gone =
    let p = dead_row (unix now) (unix abandoned) in
    let rows = map row_id (filter_by p t) in
    listed_row p k t
      (Mem-take limit k rows (listed_of (limit == 0) failing (take limit rows) ids k h m)) gone

removed_some : (n batch : ℕ) → ltb n batch ≡ false → 1 ≤ batch → 0 < n
removed_some n batch full h = ground (arith, full, h)

module _ (tries : Attempts) (digest : Bytes → Bytes) where
  -- The inner loop of `RunReaper`, on fuel, over the passes to come: the state it leaves, and whether it
  -- came to its end.
  unfoldable pub sweep_dead :
      ℕ → (ℕ → Pass) → Policy → ℕ → ℕ → World tries digest → World tries digest × Bool
  unfolding reap
  sweep_dead zero passes p batch k w = (w, false)
  sweep_dead (suc fuel) passes p batch k w =
      let pass = passes k in
      let (w', (n, fault)) =
        reap tries digest pass.failing pass.cancelled pass.faults p pass.now batch w in
      let rest = sweep_dead fuel passes p batch (suc k) w' in
      elim fault [ some _ ↦ (w', true) | none ↦ if ltb n batch then (w', true) else rest ]

  delete-Shrinks :
      (faults : Faults) (id : Bytes) (w : World tries digest)
      → Shrinks w.table (delete tries digest faults id w).0.table
  unfolding Shrinks
  delete-Shrinks faults id w = elim (Bool-cases faults.row_fails) [
    | inl fails ↦ inl (ap (λ r. r.0.table) (delete_failed tries digest faults id w fails))
    | inr done ↦
        subst (λ (r : World tries digest × Result (Unit {0})). Shrinks w.table r.0.table)
          (sym (delete_done tries digest faults id w done)) (delete_where-Shrinks id w.table)
  ]

  -- A deletion that succeeds leaves no row.
  delete-gone :
      (faults : Faults) (id : Bytes) (w : World tries digest)
      → is_ok (delete tries digest faults id w).1 ≡ true
      → find_row id (delete tries digest faults id w).0.table ≡ none
  delete-gone faults id w h = elim (Bool-cases faults.row_fails) [
    | inl fails ↦ absurd (
        ground
          (arith, sym (ap (λ r. is_ok r.1) (delete_failed tries digest faults id w fails)) ∙ h))
    | inr done ↦
        subst (λ (r : World tries digest × Result (Unit {0})). find_row id r.0.table ≡ none)
          (sym (delete_done tries digest faults id w done)) (find_row-delete_self id w.table)
  ]

  -- A round of the loop of `Reap`.
  abbrev round :
      (Bytes → Bool)
      → (Bytes → Faults)
      → Bytes
      → List Bytes
      → ℕ
      → World tries digest
      → Bool
      → World tries digest × (ℕ × Option Error)
  round cancelled faults id ids removed w stop =
      let (w', answer) = delete tries digest (faults id) id w in
      if stop
      then (w, (removed, some io_failure))
      else reap_each tries digest cancelled faults ids
          (if is_ok answer then suc removed else removed) w'

  reap_each-Shrinks :
      (cancelled : Bytes → Bool) (faults : Bytes → Faults) (ids : List Bytes) (removed : ℕ)
      (w : World tries digest)
      → Shrinks w.table (reap_each tries digest cancelled faults ids removed w).0.table
  unfolding Shrinks reap_each
  reap_each-Shrinks cancelled faults [] removed w = inl refl
  reap_each-Shrinks cancelled faults (id ∷ ids) removed w =
      let (w', answer) = delete tries digest (faults id) id w in
      elim (Bool-cases (cancelled id)) [
        | inl stop ↦ inl (ap (λ b. (round cancelled faults id ids removed w b).0.table) stop)
        | inr go ↦
            subst (λ b. Shrinks w.table (round cancelled faults id ids removed w b).0.table)
              (sym go)
              (Shrinks-trans w.table w'.table _ (delete-Shrinks (faults id) id w) (
                reap_each-Shrinks cancelled faults ids
                  (if is_ok answer then suc removed else removed) w'))
      ]

  -- What is counted as removed has no row: the state after a list, for what a round leaves to do.
  abbrev Counted : List Bytes → ℕ → World tries digest × (ℕ × Option Error) → Type 0
  Counted ids removed r = removed < r.1.0 → (k : Bytes) × Memᴰ k ids × (find_row k r.0.table ≡ none)

  reap_each-Counted :
      (cancelled : Bytes → Bool) (faults : Bytes → Faults) (ids : List Bytes) (removed : ℕ)
      (w : World tries digest)
      → Counted ids removed (reap_each tries digest cancelled faults ids removed w)
  unfolding reap_each
  reap_each-Counted cancelled faults [] removed w = λ h. absurd (omega (arith, h))
  reap_each-Counted cancelled faults (id ∷ ids) removed w =
      let (w', answer) = delete tries digest (faults id) id w in
      let all = round cancelled faults id ids removed w in
      elim (Bool-cases (cancelled id)) [
        | inl stop ↦
            subst (λ b. Counted (id ∷ ids) removed (all b)) (sym stop)
              (λ h. absurd (omega (arith, h)))
        | inr go ↦
            subst (λ b. Counted (id ∷ ids) removed (all b)) (sym go)
              (elim (Bool-cases (is_ok answer)) [
                | inl done ↦ λ h. (
                  id,
                  Memᴰ.head refl,
                  reap_each-row_gone tries digest cancelled faults ids _ w' id
                      (delete-gone (faults id) id w done),
                )
                | inr failed ↦
                    subst
                      (λ b. Counted (id ∷ ids) removed (
                        reap_each tries digest cancelled faults ids
                          (if b then suc removed else removed) w'))
                      (sym failed)
                      (λ h.
                        let (k, m, gone) = reap_each-Counted cancelled faults ids removed w' h in
                        (k, Memᴰ.tail m, gone))
              ])
      ]

  abbrev passing :
      Pass → World tries digest → Result (List Bytes) → World tries digest × (ℕ × Option Error)
  passing pass w listed = elim listed [
    | err e ↦ (w, (0, some e))
    | ok ids ↦ reap_each tries digest pass.cancelled pass.faults ids 0 w
  ]

  abbrev after_pass :
      ℕ
      → (ℕ → Pass)
      → Policy
      → ℕ
      → ℕ
      → World tries digest × (ℕ × Option Error)
      → World tries digest × Bool
  after_pass fuel passes p batch k r = elim r.1.1 [
    | some _ ↦ (r.0, true)
    | none ↦ if ltb r.1.0 batch then (r.0, true) else sweep_dead fuel passes p batch (suc k) r.0
  ]

  -- A pass that removes something leaves a shorter table.
  reap-shorter :
      (pass : Pass) (p : Policy) (limit : ℕ) (w : World tries digest)
      → let r = reap tries digest pass.failing pass.cancelled pass.faults p pass.now limit w in
        0 < r.1.0 → length r.0.table < length w.table
  unfolding reap Shrinks
  reap-shorter pass p limit w =
      let listed = list_dead pass.failing pass.now (pass.now - incomplete_ttl_of p) limit w.table in
      let Fewer = λ (r : World tries digest × (ℕ × Option Error)).
        0 < r.1.0 → length r.0.table < length w.table in
      elim (Result-cases listed) [
        | inr (e, fails) ↦
            subst Fewer (sym (ap (passing pass w) fails)) (λ h. absurd (omega (arith, h)))
        | inl (ids, e) ↦ subst Fewer (sym (ap (passing pass w) e)) (λ h.
            let (k, m, gone) = reap_each-Counted pass.cancelled pass.faults ids 0 w h in
            elim (reap_each-Shrinks pass.cancelled pass.faults ids 0 w) [
              | inr fewer ↦ fewer
              | inl same ↦ absurd (
                  list_dead_rows pass.failing pass.now (pass.now - incomplete_ttl_of p) limit
                    w.table ids k e m (subst (λ t. find_row k t ≡ none) same gone))
            ])
      ]

  -- A sweep comes to its end: with a batch of at least one, whatever is dead at the times of its passes
  -- and whatever fails in them, it makes at most one pass more than the table has rows.
  pub sweep_dead_returns :
      (fuel : ℕ) (passes : ℕ → Pass) (p : Policy) (batch k : ℕ) (w : World tries digest)
      → 1 ≤ batch
      → length w.table < fuel
      → (sweep_dead fuel passes p batch k w).1 ≡ true
  unfolding sweep_dead
  sweep_dead_returns zero passes p batch k w h enough = absurd (omega (arith, enough))
  sweep_dead_returns (suc fuel) passes p batch k w h enough =
      let pass = passes k in
      let r = reap tries digest pass.failing pass.cancelled pass.faults p pass.now batch w in
      let fewer = reap-shorter pass p batch w in
      elim (Option-cases r.1.1) [
        | inr (x, e) ↦ ap (λ f. (after_pass fuel passes p batch k (r.0, (r.1.0, f))).1) e
        | inl e ↦ elim (Bool-cases (ltb r.1.0 batch)) [
          | inl short ↦
              ap (λ f. (after_pass fuel passes p batch k (r.0, (r.1.0, f))).1) e
              ∙ ap (λ b. (if b then (r.0, true) else sweep_dead fuel passes p batch (suc k) r.0).1)
                  short
          | inr full ↦
              ap (λ f. (after_pass fuel passes p batch k (r.0, (r.1.0, f))).1) e
              ∙ ap (λ b. (if b then (r.0, true) else sweep_dead fuel passes p batch (suc k) r.0).1)
                  full
              ∙ sweep_dead_returns fuel passes p batch (suc k) r.0 h
                  (omega (arith, enough, fewer (removed_some r.1.0 batch full h)))
        ]
      ]
