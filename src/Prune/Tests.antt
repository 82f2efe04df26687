-- ===== src/Prune/Tests.antt =====
-- The theorems of the pruning of the registry at concrete values.
use mathlib.Core.List.{Memᴰ}
use sendan.Prelude.{
  ℕ, ◌≤◌, ◌≡◌, refl, Bool, true, false, List, [], ◌∷◌, Bytes, codes, ok, Result, ltb, get_or, ◌==◌,
  if◌then◌else◌, take, drop, length,
}
use sendan.Prelude.Int.{pos}
use sendan.Prune.{Version, edges_of, plan_prune, run_prune, by_digest}
use sendan.Prune.Protecting.{Survives}
use sendan.Prune.Newest.{IsNewest, IsEdgeTag}
use sendan.Prune.Growing.{Planned, Removed, doomed}
use sendan.Prune.Planning.{plan_prune-Planned}
use sendan.Prune.Running.{run_prune_safe}

-- A release, two edge builds, and three images; the newer build shares an image with each of the others.
abbrev release : Version
release = record { id = 1; digest = 1 ∷ []; tags = codes "1.0" ∷ []; created = 50 }

abbrev new_build : Version
new_build = record {
  id = 9;
  digest = 2 ∷ [];
  tags = codes "edge" ∷ codes "sha-b" ∷ [];
  created = 90;
}

abbrev old_build : Version
old_build = record { id = 5; digest = 3 ∷ []; tags = codes "sha-a" ∷ []; created = 60 }

abbrev image : ℕ → Version
image n = record { id = n; digest = n ∷ []; tags = []; created = 40 }

abbrev listing : List Version
listing = release ∷ new_build ∷ old_build ∷ image 10 ∷ image 11 ∷ image 12 ∷ []

abbrev references_of : Bytes → Result (List Bytes)
references_of d =
    let n = get_or d 0 0 in
    if n == 1
    then ok ((10 ∷ []) ∷ [])
    else if n == 2
    then ok ((10 ∷ []) ∷ (11 ∷ []) ∷ [])
    else if n == 3
    then ok ((11 ∷ []) ∷ (12 ∷ []) ∷ (13 ∷ []) ∷ [])
    else ok []

planned_one : plan_prune references_of listing 1 ≡ ok (image 12 ∷ old_build ∷ [])
unfolding plan_prune sendan.Prelude.bytes_eq by_digest
planned_one = refl

plan_prune-Planned_example :
    (seen : List ℕ) × IsNewest listing 1
      (take 1 (edges_of listing))
      (doomed references_of listing 1)
    × Planned references_of listing 1 seen (image 12 ∷ old_build ∷ [])
    × ((v : Version)
        → Memᴰ v (doomed references_of listing 1)
        → Removed references_of listing 1 seen v)
plan_prune-Planned_example =
    plan_prune-Planned references_of listing 1 (image 12 ∷ old_build ∷ []) planned_one

-- The registry refuses to delete the index.
deleted_one :
    run_prune references_of (λ id. ltb id 10) true (pos 1) listing ≡ ok (image 12 ∷ [], true)
unfolding run_prune sendan.Prelude.bytes_eq by_digest
deleted_one = refl

run_prune_safe_example :
    let kept = take 1 (edges_of listing) in
    (true ≡ true)
    × Memᴰ (image 12) listing
    × ((t : Bytes) → Memᴰ t [] → IsEdgeTag t)
    × (Survives references_of listing 1 (12 ∷ []) → ⊥)
    × IsNewest listing 1 kept (drop 1 (edges_of listing))
    × (length kept ≡ 1)
    × (1 ≤ length kept)
run_prune_safe_example =
    run_prune_safe references_of (λ id. ltb id 10) true (pos 1) listing (image 12 ∷ []) true
      (image 12) deleted_one (Memᴰ.head refl)
