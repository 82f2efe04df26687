-- ===== src/Prune/Running.antt =====
-- tools/registry-prune/main.go: what a run deletes, also one that a failure cuts short.
use mathlib.Core.Path.{subst}
use mathlib.Core.List.{Memᴰ}
use mathlib.Core.List.Memᴰ
use sendan.Prelude.{
  ℕ, ◌≡◌, refl, sym, ap, ◌∙◌, inl, inr, Bool, true, false, List, [], ◌∷◌, Bytes, if◌then◌else◌,
  Result, ok, ◌>>◌, arith, Bool-cases, refuse_if, invalid, ◌≤◌, take, drop, length,
}
use sendan.Prelude.Int.{ℤ, pos, negsuc, pos_part, ltb_ℤ}
use sendan.Prune.{Version, is_other, edges_of, plan_prune, carry_out, run_prune}
use sendan.Prune.Protecting.{Survives, other, picked, itself, bind_ok}
use sendan.Prune.Newest.{IsNewest, IsEdgeTag, not_other-IsEdgeTag}
use sendan.Prune.Planning.{plan_prune-Planned, listed_unless_kept, some_doomed}

-- A round of the loop that deletes.
abbrev stop_at : Bool → Version → List Version × Bool → List Version × Bool
stop_at failing v rest = if failing then ([], true) else (v ∷ rest.0, rest.1)

-- What is deleted was planned.
Mem-carry_out :
    (fails : ℕ → Bool) (plan : List Version) (v : Version)
    → Memᴰ v (carry_out fails plan).0
    → Memᴰ v plan
unfolding carry_out
Mem-carry_out fails [] v m = m
Mem-carry_out fails (w ∷ plan) v m = elim (Bool-cases (fails w.id)) [
  | inl failing ↦
      absurd
        (Memᴰ.not-nil (subst (Memᴰ v) (ap (λ b. (stop_at b w (carry_out fails plan)).0) failing) m))
  | inr fine ↦
      elim (Memᴰ.cases_cons
        (subst (Memᴰ v) (ap (λ b. (stop_at b w (carry_out fails plan)).0) fine) m)) [
          | inl e ↦ Memᴰ.head e
          | inr k ↦ Memᴰ.tail (Mem-carry_out fails plan v k)
        ]
]

unrefused :
    (b : Bool) (rest : Result (List Version × Bool)) (r : List Version × Bool)
    → (refuse_if b invalid >> rest) ≡ ok r
    → (b ≡ false) × (rest ≡ ok r)
unrefused true rest r h = absurd (ground (arith, h))
unrefused false rest r h = (refl, h)

same_run : (a b : List Version × Bool) → ok a ≡ ok b → a ≡ b
same_run a b h = ground (arith, h)

behind_flags :
    (children : Bytes → Result (List Bytes)) (fails : ℕ → Bool) (apply : Bool) (keep : ℤ)
    (versions deleted : List Version) (failed : Bool)
    → run_prune children fails apply keep versions ≡ ok (deleted, failed)
    → (ltb_ℤ keep (pos 1) ≡ false)
      × ((plan : List Version) × (plan_prune children versions (pos_part keep) ≡ ok plan)
          × ((if apply then carry_out fails plan else ([], false)) ≡ (deleted, failed)))
unfolding run_prune
behind_flags children fails apply keep versions deleted failed h =
    let (large, goes) = unrefused (ltb_ℤ keep (pos 1)) _ (deleted, failed) h in
    let (plan, planned, done) =
      bind_ok (plan_prune children versions (pos_part keep)) _ (deleted, failed) goes in
    (large, (plan, planned, same_run _ _ done))

at_least : (keep : ℤ) → ltb_ℤ keep (pos 1) ≡ false → 1 ≤ pos_part keep
at_least (pos n) h = ground (arith, h)
at_least (negsuc n) h = absurd (ground (arith, h))

-- A tagged version that is not an edge build survives.
tags_of_deleted :
    (children : Bytes → Result (List Bytes)) (versions : List Version) (keep : ℕ) (v : Version)
    → Memᴰ v versions
    → (Survives children versions keep v.digest → ⊥)
    → (t : Bytes) → Memᴰ t v.tags
    → IsEdgeTag t
tags_of_deleted children versions keep v listed gone t m = elim (Bool-cases (is_other v)) [
  | inr no_other ↦ not_other-IsEdgeTag v t no_other m
  | inl is ↦ absurd (gone (other (picked v listed is (itself refl))))
]

-- A run deletes nothing that survives: whichever deletions the registry refuses, what is deleted is
-- listed, bears no tag but "edge" and those beginning with "sha-", and is neither one of the edge
-- builds that are kept, nor referenced by one of these or by a tagged version that is not an edge build.
-- The builds that are kept are the newest, by the time of creation and then by the identifier; where
-- anything is deleted they are exactly as many as the run was told to keep, and at least one. It
-- deletes nothing at all unless it is told to apply the plan.
pub run_prune_safe :
    (children : Bytes → Result (List Bytes)) (fails : ℕ → Bool) (apply : Bool) (keep : ℤ)
    (versions deleted : List Version) (failed : Bool) (v : Version)
    → run_prune children fails apply keep versions ≡ ok (deleted, failed)
    → Memᴰ v deleted
    → let kept = take (pos_part keep) (edges_of versions) in
      (apply ≡ true)
      × Memᴰ v versions
      × ((t : Bytes) → Memᴰ t v.tags → IsEdgeTag t)
      × (Survives children versions (pos_part keep) v.digest → ⊥)
      × IsNewest versions (pos_part keep) kept (drop (pos_part keep) (edges_of versions))
      × (length kept ≡ pos_part keep)
      × (1 ≤ length kept)
run_prune_safe children fails apply keep versions deleted failed v h m =
    let (large, (plan, planned, done)) =
      behind_flags children fails apply keep versions deleted failed h in
    let (seen, newest, on, _) = plan_prune-Planned children versions (pos_part keep) plan planned in
    elim (Bool-cases apply) [
      | inr off ↦ absurd (
          Memᴰ.not-nil (
            subst (Memᴰ v)
              (ap (λ r. r.0)
                (sym done ∙ ap (λ b. if b then carry_out fails plan else ([], false)) off))
              m))
      | inl on_ ↦
          let carried =
            ap (λ r. r.0)
              (sym done ∙ ap (λ b. if b then carry_out fails plan else ([], false)) on_) in
          let in_plan = Mem-carry_out fails plan v (subst (Memᴰ v) carried m) in
          let (listed, gone) =
            listed_unless_kept children versions (pos_part keep) seen plan v on in_plan in
          let (w, w_doomed) =
            some_doomed children versions (pos_part keep) seen plan v on in_plan in
          let full = newest.filled w w_doomed in
          (
            on_,
            listed,
            tags_of_deleted children versions (pos_part keep) v listed gone,
            gone,
            newest,
            full,
            omega (arith, full, at_least keep large),
          )
    ]
