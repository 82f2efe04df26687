-- ===== src/Prune/Planning.antt =====
-- tools/registry-prune/main.go: what is planned, and in which order.
use mathlib.Core.Path.{subst}
use mathlib.Core.List.{Memᴰ}
use mathlib.Core.List.Memᴰ
use sendan.Prelude.{
  ℕ, zero, suc, ◌≡◌, sym, ap, ◌∙◌, inl, inr, true, List, [], ◌∷◌, ◌++◌, Bytes, if◌then◌else◌, take,
  drop, Result, ok, ◌>>=◌, arith, Bool-cases, leb, leb→le, length, ◌≤◌,
}
use sendan.Prune.{Version, is_other, edges_of, protect_each, plan_doomed, plan_prune}
use sendan.Prune.Protecting.{Survives, protected_iff, bind_ok}
use sendan.Prune.Newest.{IsNewest, edges_of-IsNewest}
use sendan.Prune.Growing.{Planned, nothing, child, index, Removed, doomed, plan_doomed_ok}

ok_versions : (a b : List Version) → ok a ≡ ok b → a ≡ b
ok_versions a b h = ground (arith, h)

-- `planPrune` behind its early return.
abbrev deciding : (Bytes → Result (List Bytes)) → List Version → ℕ → Result (List Version)
deciding children versions keep = protect_each children is_other versions [] >>= λ others.
    protect_each children (λ v. true) (take keep (edges_of versions)) others >>= λ protected.
    plan_doomed children versions protected (drop keep (edges_of versions))
      (record { seen = []; out = [] })
    >>= λ p. ok p.out

drop_few : (n : ℕ) (vs : List Version) (v : Version) → length vs ≤ n → Memᴰ v (drop n vs) → ⊥
drop_few zero [] v h m = Memᴰ.not-nil m
drop_few zero (w ∷ vs) v h m = omega (arith, h)
drop_few (suc n) [] v h m = Memᴰ.not-nil m
drop_few (suc n) (w ∷ vs) v h m = drop_few n vs v (omega (arith, h)) m

-- What a plan is, for any registry. The edge builds divide into the `keep` newest, which are kept, and
-- the doomed ones, by the time of creation and then by the identifier; each planned version is listed, is planned once, and does not
-- survive, that is, it is neither a tagged version that is not an edge build, nor one of the builds
-- that are kept, nor referenced by one of these; it is referenced by a doomed build, or is a doomed build, behind
-- all that it references and that is to go. And no doomed build is left out: it survives by its digest
-- or is planned, as does what it references.
pub plan_prune-Planned :
    (children : Bytes → Result (List Bytes)) (versions : List Version) (keep : ℕ)
    (plan : List Version)
    → plan_prune children versions keep ≡ ok plan
    → (seen : List ℕ) × IsNewest versions keep
        (take keep (edges_of versions))
        (doomed children versions keep)
      × Planned children versions keep seen plan
      × ((v : Version)
          → Memᴰ v (doomed children versions keep)
          → Removed children versions keep seen v)
unfolding plan_prune
plan_prune-Planned children versions keep plan h =
    let edges = edges_of versions in
    elim (Bool-cases (leb (length edges) keep)) [
      | inl few ↦
          let empty : [] ≡ plan =
            ok_versions [] plan
              (sym (ap (λ b. if b then ok [] else deciding children versions keep) few) ∙ h) in
          (
            [],
            edges_of-IsNewest versions keep,
            subst (Planned children versions keep []) empty nothing,
            λ v m. absurd (drop_few keep edges v (leb→le (length edges) keep few) m),
          )
      | inr many ↦
          let goes : deciding children versions keep ≡ ok plan =
            sym (ap (λ b. if b then ok [] else deciding children versions keep) many) ∙ h in
          let (others, first, goes₁) =
            bind_ok (protect_each children is_other versions []) _ plan goes in
          let (protected, second, goes₂) =
            bind_ok (protect_each children (λ v. true) (take keep edges) others) _ plan goes₁ in
          let (p, third, goes₃) =
            bind_ok
              (plan_doomed children versions protected (drop keep edges)
                (record { seen = []; out = [] }))
              _ plan goes₂ in
          let ((on, _), all) =
            plan_doomed_ok children versions keep protected
              (protected_iff children versions keep others protected first second) (drop keep edges)
              _ p (λ v m. m) third nothing in
          (
            p.seen,
            edges_of-IsNewest versions keep,
            subst (Planned children versions keep p.seen) (ok_versions p.out plan goes₃) on,
            all,
          )
    ]

added :
    (P : Version → Type 0) (out : List Version) (u v : Version)
    → (Memᴰ v out → P v)
    → P u
    → Memᴰ v (out ++ u ∷ [])
    → P v
added P out u v before now m = elim (Memᴰ.append_cases out m) [
  | inl k ↦ before k
  | inr k ↦ subst P (sym (Memᴰ.eq_of_singleton k)) now
]

pub listed_unless_kept :
    (children : Bytes → Result (List Bytes)) (versions : List Version) (keep : ℕ) (seen : List ℕ)
    (plan : List Version) (v : Version)
    → Planned children versions keep seen plan
    → Memᴰ v plan
    → Memᴰ v versions × (Survives children versions keep v.digest → ⊥)
listed_unless_kept children versions keep _ _ v nothing m = absurd (Memᴰ.not-nil m)
listed_unless_kept children versions keep _ _ v (child {seen} {out} w u refs on l f s x y z) m =
    added (λ t. Memᴰ t versions × (Survives children versions keep t.digest → ⊥)) out u v
      (listed_unless_kept children versions keep seen out v on) (l, s) m
listed_unless_kept children versions keep _ _ v (index {seen} {out} u refs on l f s x y z) m =
    added (λ t. Memᴰ t versions × (Survives children versions keep t.digest → ⊥)) out u v
      (listed_unless_kept children versions keep seen out v on) (l, s) m

-- Nothing is planned where no build is doomed.
pub some_doomed :
    (children : Bytes → Result (List Bytes)) (versions : List Version) (keep : ℕ) (seen : List ℕ)
    (plan : List Version) (v : Version)
    → Planned children versions keep seen plan
    → Memᴰ v plan
    → (w : Version) × Memᴰ w (doomed children versions keep)
some_doomed children versions keep _ _ v nothing m = absurd (Memᴰ.not-nil m)
some_doomed children versions keep _ _ v (child w u refs on l f s x y z) m = (w, x)
some_doomed children versions keep _ _ v (index u refs on l f s x y z) m = (u, x)
