-- ===== src/Prune.antt =====
-- tools/registry-prune/main.go: which versions of the container registry are deleted, and in which
-- order. The registry's answer to what an index references is a parameter.
pub mod Protecting
pub mod Growing
pub mod Planning
pub mod Running
pub mod Newest
mod Tests
use sendan.Prelude.{
  ℕ, zero, suc, ◌+◌, Bool, true, false, not, ◌&&◌, ◌||◌, Option, none, some, List, [], ◌∷◌, ◌++◌,
  Bytes, codes, bytes_eq, is_empty, filter_by, any_of, ltb, leb, ◌==◌, if◌then◌else◌, length, take,
  drop, Result, ok, err, Error, ◌>>=◌, ◌>>◌, refuse_if, invalid,
}
use sendan.Prelude.Int.{ℤ, pos, pos_part, ltb_ℤ}

-- `version`
pub record Version : Type 0 where
  pub id : ℕ
  pub digest : Bytes
  pub tags : List Bytes
  pub created : ℕ

-- `strings.HasPrefix`
unfoldable pub has_prefix : Bytes → Bytes → Bool
has_prefix s [] = true
has_prefix [] (p ∷ ps) = false
has_prefix (c ∷ s) (p ∷ ps) = c == p && has_prefix s ps

unfoldable pub only_edge_tags : List Bytes → Bool
unfolding has_prefix
only_edge_tags [] = true
only_edge_tags (t ∷ ts) =
    (bytes_eq t (codes "edge") || has_prefix t (codes "sha-")) && only_edge_tags ts

unfoldable pub is_edge : Version → Bool
unfolding only_edge_tags
is_edge v = only_edge_tags v.tags && not (is_empty v.tags)

-- A version that carries a tag, and is not an edge build.
abbrev pub is_other : Version → Bool
is_other v = not (is_empty v.tags) && not (is_edge v)

-- The order of the sort: newest first, ties broken by the identifier.
unfoldable pub newer : Version → Version → Bool
newer a b = if a.created == b.created then ltb b.id a.id else ltb b.created a.created

unfoldable pub insert : Version → List Version → List Version
unfolding newer
insert v [] = v ∷ []
insert v (w ∷ ws) = if newer v w then v ∷ w ∷ ws else w ∷ insert v ws

unfoldable pub sort : List Version → List Version
unfolding insert
sort [] = []
sort (v ∷ vs) = insert v (sort vs)

unfoldable pub edges_of : List Version → List Version
unfolding sort is_edge
edges_of versions = sort (filter_by is_edge versions)

-- `byDigest`: a later version takes the place of an earlier one of the same digest.
unfoldable pub by_digest : List Version → Bytes → Option Version
by_digest [] digest = none
by_digest (v ∷ vs) digest = elim (by_digest vs digest) [
  | some w ↦ some w
  | none ↦ if bytes_eq v.digest digest then some v else none
]

-- Lookups in `protected` and in `seen`.
abbrev pub is_protected : List Bytes → Bytes → Bool
is_protected protected digest = any_of (bytes_eq digest) protected

abbrev pub was_seen : List ℕ → ℕ → Bool
was_seen seen id = any_of (λ n. id == n) seen

-- `seen` and `out`
pub record Plan : Type 0 where
  pub seen : List ℕ
  pub out : List Version

abbrev pub planned : Version → Plan → Plan
planned v p = record { seen = v.id ∷ p.seen; out = p.out ++ v ∷ [] }

module _ (versions : List Version) (protected : List Bytes) where
  -- One child of a doomed index.
  unfoldable pub plan_child : Bytes → Plan → Plan
  plan_child digest p = elim (by_digest versions digest) [
    | none ↦ p
    | some child ↦
        if is_protected protected digest || was_seen p.seen child.id then p else planned child p
  ]

  unfoldable pub plan_children : List Bytes → Plan → Plan
  unfolding plan_child
  plan_children [] p = p
  plan_children (r ∷ refs) p = plan_children refs (plan_child r p)

  -- The index itself.
  unfoldable pub plan_index : Version → Plan → Plan
  plan_index v p =
      if not (is_protected protected v.digest) && not (was_seen p.seen v.id) then planned v p else p

module _ (children : Bytes → Result (List Bytes)) where
  -- A surviving version protects itself and what it references.
  unfoldable pub protect : Version → List Bytes → Result (List Bytes)
  protect v protected = do refs ← children v.digest; ok (refs ++ v.digest ∷ protected)

  -- The two loops that protect: over the versions that are neither edge builds nor untagged, and over
  -- the edge builds that are kept. `chosen` is the test of the first.
  unfoldable pub protect_each : (Version → Bool) → List Version → List Bytes → Result (List Bytes)
  unfolding protect
  protect_each chosen [] protected = ok protected
  protect_each chosen (v ∷ vs) protected = do
    protected' ← if chosen v then protect v protected else ok protected
    protect_each chosen vs protected'

  -- The loop over the doomed indexes.
  unfoldable pub plan_doomed : List Version → List Bytes → List Version → Plan → Result Plan
  unfolding plan_children plan_index
  plan_doomed versions protected [] p = ok p
  plan_doomed versions protected (v ∷ doomed) p = do
    refs ← children v.digest
    plan_doomed versions protected doomed
        (plan_index versions protected v (plan_children versions protected refs p))

  -- `planPrune`
  unfoldable pub plan_prune : List Version → ℕ → Result (List Version)
  unfolding edges_of is_edge protect_each plan_doomed
  plan_prune versions keep =
      let edges = edges_of versions in
      if leb (length edges) keep then ok [] else do
        others ← protect_each is_other versions []
        protected ← protect_each (λ v. true) (take keep edges) others
        plan ← plan_doomed versions protected (drop keep edges) (record { seen = []; out = [] })
        ok plan.out

-- The loop of `main` that deletes: what is deleted, and whether a deletion failed, which ends it.
unfoldable pub carry_out : (ℕ → Bool) → List Version → List Version × Bool
carry_out fails [] = ([], false)
carry_out fails (v ∷ plan) =
    let (deleted, failed) = carry_out fails plan in
    if fails v.id then ([], true) else (v ∷ deleted, failed)

-- `main` behind its flags: what is deleted, and whether a deletion failed.
unfoldable pub run_prune :
    (Bytes → Result (List Bytes))
    → (ℕ → Bool)
    → Bool
    → ℤ
    → List Version
    → Result (List Version × Bool)
unfolding plan_prune carry_out
run_prune children fails apply keep versions = do
  refuse_if (ltb_ℤ keep (pos 1)) invalid
  plan ← plan_prune children versions (pos_part keep)
  ok (if apply then carry_out fails plan else ([], false))
