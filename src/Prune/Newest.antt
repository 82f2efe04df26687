-- ===== src/Prune/Newest.antt =====
-- tools/registry-prune/main.go: the builds that are kept are the newest, and the tags that make a build.
use mathlib.Core.Path.{subst, ap₂}
use mathlib.Core.List.{Memᴰ, Perm}
use mathlib.Core.List.Memᴰ
use mathlib.Core.List.Perm
use sendan.Prelude.{
  ℕ, zero, suc, ◌+◌, ◌≤◌, ◌≡◌, ◌⊎◌, refl, sym, ap, ◌∙◌, inl, inr, true, false, List, [], ◌∷◌, ◌++◌,
  Bytes, codes, bytes_eq, bytes_eq_iff, is_empty, filter_by, take, drop, length, length-take,
  take-append-drop, arith, Bool-cases, All,
}
use sendan.Prune.Protecting.{Mem-drop}
use sendan.Prune.{
  Version, newer, insert, sort, edges_of, is_edge, is_other, has_prefix, only_edge_tags,
}

-- No version is newer than one before it.
abbrev IsSorted : List Version → Type 0
IsSorted [] = Unit
IsSorted (v ∷ vs) = All (λ w. newer w v ≡ false) vs × IsSorted vs

older_trans : (u v w : Version) → newer v u ≡ false → newer w v ≡ false → newer w u ≡ false
unfolding newer
older_trans u v w h k = ground (arith, h, k)

older_of : (v w : Version) → newer v w ≡ true → newer w v ≡ false
unfolding newer
older_of v w h = ground (arith, h)

All-older :
    (v w : Version) (vs : List Version)
    → newer w v ≡ false
    → All (λ x. newer x w ≡ false) vs
    → All (λ x. newer x v ≡ false) vs
All-older v w [] h a = tt
All-older v w (x ∷ vs) h a = (older_trans v w x h a.0, All-older v w vs h a.1)

All-insert :
    (v w : Version) (vs : List Version)
    → newer w v ≡ false
    → All (λ x. newer x v ≡ false) vs
    → All (λ x. newer x v ≡ false) (insert w vs)
unfolding insert
All-insert v w [] h a = (h, tt)
All-insert v w (x ∷ vs) h a = elim (Bool-cases (newer w x)) [
  | inl e ↦ rw (insert, e) (h, a)
  | inr e ↦ rw (insert, e) (a.0, All-insert v w vs h a.1)
]

insert-IsSorted : (v : Version) (vs : List Version) → IsSorted vs → IsSorted (insert v vs)
unfolding insert
insert-IsSorted v [] s = (tt, tt)
insert-IsSorted v (w ∷ vs) s = elim (Bool-cases (newer v w)) [
  | inl e ↦ rw (insert, e) ((older_of v w e, All-older v w vs (older_of v w e) s.0), s)
  | inr e ↦ rw (insert, e) (All-insert w v vs e s.0, insert-IsSorted v vs s.1)
]

sort-IsSorted : (vs : List Version) → IsSorted (sort vs)
unfolding sort
sort-IsSorted [] = tt
sort-IsSorted (v ∷ vs) = insert-IsSorted v (sort vs) (sort-IsSorted vs)

All-Mem :
    (v a : Version) (vs : List Version)
    → All (λ w. newer w v ≡ false) vs
    → Memᴰ a vs
    → newer a v ≡ false
All-Mem v a [] h m = absurd (Memᴰ.not-nil m)
All-Mem v a (w ∷ vs) h m = elim (Memᴰ.cases_cons m) [
  | inl e ↦ ap (λ u. newer u v) e ∙ h.0
  | inr k ↦ All-Mem v a vs h.1 k
]

split_sorted :
    (n : ℕ) (vs : List Version) (a b : Version)
    → IsSorted vs
    → Memᴰ a (take n vs)
    → Memᴰ b (drop n vs)
    → newer b a ≡ false
split_sorted zero vs a b s m k = absurd (Memᴰ.not-nil m)
split_sorted (suc n) [] a b s m k = absurd (Memᴰ.not-nil m)
split_sorted (suc n) (v ∷ vs) a b s m k = elim (Memᴰ.cases_cons m) [
  | inl e ↦ ap (λ u. newer b u) e ∙ All-Mem v b vs s.0 (Mem-drop n b vs k)
  | inr m' ↦ split_sorted n vs a b s.1 m' k
]

-- The edge builds that are kept are the newest: none that is doomed is newer than one that is kept, by
-- the time of creation, or by the identifier where the times are equal.
pub edges_of-newer :
    (versions : List Version) (keep : ℕ) (a b : Version)
    → Memᴰ a (take keep (edges_of versions))
    → Memᴰ b (drop keep (edges_of versions))
    → newer b a ≡ false
unfolding edges_of
edges_of-newer versions keep a b m k =
    split_sorted keep (edges_of versions) a b (sort-IsSorted (filter_by is_edge versions)) m k

-- The first comes no later than the second: by the time of creation, or by the identifier where the
-- times are equal.
abbrev pub IsNotNewer : Version → Version → Type 0
IsNotNewer b a = (b.created + 1 ≤ a.created) ⊎ ((b.created ≡ a.created) × (b.id ≤ a.id))

not_newer : (b a : Version) → newer b a ≡ false → IsNotNewer b a
unfolding newer
not_newer b a h = ground (arith, h)

-- A division of the edge builds into those that are kept and those that are doomed: between them they
-- are the edge builds listed, up to order; no more than `keep` are kept, and exactly so many if any is
-- doomed; and no doomed one is newer than one that is kept.
pub record IsNewest (versions : List Version) (keep : ℕ) (kept doomed : List Version) : Type 0 where
  pub builds : Perm (kept ++ doomed) (filter_by is_edge versions)
  pub few : length kept ≤ keep
  pub filled : (v : Version) → Memᴰ v doomed → length kept ≡ keep
  pub newest : (a b : Version) → Memᴰ a kept → Memᴰ b doomed → IsNotNewer b a

insert-Perm : (v : Version) (vs : List Version) → Perm (insert v vs) (v ∷ vs)
unfolding insert
insert-Perm v [] = Perm.refl (v ∷ [])
insert-Perm v (w ∷ vs) = elim (Bool-cases (newer v w)) [
  | inl e ↦ rw (insert, e) (Perm.refl (v ∷ w ∷ vs))
  | inr e ↦ rw (insert, e) (Perm.trans (Perm.cons w (insert-Perm v vs)) (Perm.swap v w vs))
]

sort-Perm : (vs : List Version) → Perm (sort vs) vs
unfolding sort
sort-Perm [] = Perm.nil
sort-Perm (v ∷ vs) = Perm.trans (insert-Perm v (sort vs)) (Perm.cons v (sort-Perm vs))

length-take_full :
    (n : ℕ) (vs : List Version) (v : Version) → Memᴰ v (drop n vs) → length (take n vs) ≡ n
length-take_full zero vs v m = refl
length-take_full (suc n) [] v m = absurd (Memᴰ.not-nil m)
length-take_full (suc n) (w ∷ vs) v m = omega (arith, length-take_full n vs v m)

pub edges_of-IsNewest :
    (versions : List Version) (keep : ℕ)
    → IsNewest versions keep (take keep (edges_of versions)) (drop keep (edges_of versions))
unfolding edges_of
edges_of-IsNewest versions keep =
    let edges = edges_of versions in
    record {
      builds =
          subst (λ vs. Perm vs (filter_by is_edge versions)) (sym (take-append-drop keep edges))
            (sort-Perm (filter_by is_edge versions));
      few = omega (arith, length-take keep edges);
      filled = length-take_full keep edges;
      newest = λ a b m k. not_newer b a (edges_of-newer versions keep a b m k);
    }

-- A tag of an edge build.
abbrev pub IsEdgeTag : Bytes → Type 0
IsEdgeTag t = (t ≡ codes "edge") ⊎ ((rest : Bytes) × (t ≡ codes "sha-" ++ rest))

has_prefix_lem : (s p : Bytes) → has_prefix s p ≡ true → (rest : Bytes) × (s ≡ p ++ rest)
unfolding has_prefix
has_prefix_lem s [] h = (s, refl)
has_prefix_lem [] (p ∷ ps) h = absurd (ground (arith, h))
has_prefix_lem (c ∷ s) (p ∷ ps) h =
    let more : has_prefix s ps ≡ true = ground (arith, h) in
    let same : c ≡ p = ground (arith, h) in
    let (rest, e) = has_prefix_lem s ps more in (rest, ap₂ (λ x xs. x ∷ xs) same e)

only_edge_tags_lem :
    (ts : List Bytes) (t : Bytes) → only_edge_tags ts ≡ true → Memᴰ t ts → IsEdgeTag t
unfolding only_edge_tags
only_edge_tags_lem [] t h m = absurd (Memᴰ.not-nil m)
only_edge_tags_lem (u ∷ ts) t h m = elim (Memᴰ.cases_cons m) [
  | inr k ↦ only_edge_tags_lem ts t (ground (arith, h)) k
  | inl e ↦ elim (Bool-cases (bytes_eq u (codes "edge"))) [
    | inl same ↦ inl (e ∙ (bytes_eq_iff u (codes "edge")).0 same)
    | inr other ↦
        let (rest, is) = has_prefix_lem u (codes "sha-") (ground (arith, h, other)) in
        inr (rest, e ∙ is)
  ]
]

some_tag : (ts : List Bytes) (t : Bytes) → Memᴰ t ts → is_empty ts ≡ true → ⊥
some_tag [] t m e = Memᴰ.not-nil m
some_tag (u ∷ ts) t m e = ground (arith, e)

-- A version that is not kept for its tags has the tags of an edge build only.
pub not_other-IsEdgeTag :
    (v : Version) (t : Bytes) → is_other v ≡ false → Memᴰ t v.tags → IsEdgeTag t
unfolding is_edge
not_other-IsEdgeTag v t h m = elim (Bool-cases (only_edge_tags v.tags)) [
  | inl edge ↦ only_edge_tags_lem v.tags t edge m
  | inr no_edge ↦ absurd (some_tag v.tags t m (ground (arith, h, no_edge)))
]
