-- ===== src/Prune/Protecting.antt =====
-- tools/registry-prune/main.go: what the loops that protect protect.
use mathlib.Core.Path.{subst}
use mathlib.Core.List.{Memᴰ}
use mathlib.Core.List.Memᴰ
use sendan.Prelude.{
  ℕ, zero, suc, ◌≡◌, refl, sym, ap, ◌∙◌, ◌⊎◌, inl, inr, Bool, true, false, some, List, [], ◌∷◌,
  ◌++◌, Bytes, bytes_eq, bytes_eq_iff, filter_by, if◌then◌else◌, take, drop, Result, ok, err, ◌>>=◌,
  arith, Bool-cases, Option-cases,
}
use sendan.Prune.{
  Version, is_other, insert, sort, newer, edges_of, by_digest, is_protected, protect, protect_each,
}

-- A lookup in a list of digests.
is_protected_iff :
    (ds : List Bytes) (d : Bytes)
    → ((is_protected ds d ≡ true) → Memᴰ d ds) × (Memᴰ d ds → is_protected ds d ≡ true)
is_protected_iff [] d = (λ h. absurd (ground (arith, h)), λ m. absurd (Memᴰ.not-nil m))
is_protected_iff (e ∷ ds) d = (
  λ h. elim (Bool-cases (bytes_eq d e)) [
    | inl same ↦ Memᴰ.head ((bytes_eq_iff d e).0 same)
    | inr other ↦ Memᴰ.tail ((is_protected_iff ds d).0 (ground (arith, h, other)))
  ],
  λ m. elim (Memᴰ.cases_cons m) [
    | inl same ↦ ground (arith, (bytes_eq_iff d e).1 same)
    | inr m' ↦ ground (arith, (is_protected_iff ds d).1 m')
  ],
)

either :
    (b : Bool) (v : Version) (vs ws : List Version)
    → Memᴰ v (if b then vs else ws)
    → Memᴰ v vs ⊎ Memᴰ v ws
either true v vs ws m = inl m
either false v vs ws m = inr m

-- What sorting and picking keep.
Mem-insert : (v w : Version) (ws : List Version) → Memᴰ v (insert w ws) → (v ≡ w) ⊎ Memᴰ v ws
unfolding insert newer
Mem-insert v w [] m = Memᴰ.cases_cons m
Mem-insert v w (x ∷ ws) m = elim (either (newer w x) v (w ∷ x ∷ ws) (x ∷ insert w ws) m) [
  | inl m' ↦ Memᴰ.cases_cons m'
  | inr m' ↦ elim (Memᴰ.cases_cons m') [
    | inl e ↦ inr (Memᴰ.head e)
    | inr m'' ↦ elim (Mem-insert v w ws m'') [ inl e ↦ inl e | inr k ↦ inr (Memᴰ.tail k) ]
  ]
]

pub Mem-sort : (v : Version) (vs : List Version) → Memᴰ v (sort vs) → Memᴰ v vs
unfolding sort
Mem-sort v [] m = m
Mem-sort v (w ∷ vs) m = elim (Mem-insert v w (sort vs) m) [
  | inl e ↦ Memᴰ.head e
  | inr m' ↦ Memᴰ.tail (Mem-sort v vs m')
]

pub Mem-filter_by :
    (p : Version → Bool) (v : Version) (vs : List Version) → Memᴰ v (filter_by p vs) → Memᴰ v vs
Mem-filter_by p v [] m = m
Mem-filter_by p v (w ∷ vs) m = elim (either (p w) v (w ∷ filter_by p vs) (filter_by p vs) m) [
  | inl m' ↦ elim (Memᴰ.cases_cons m') [
    | inl e ↦ Memᴰ.head e
    | inr m'' ↦ Memᴰ.tail (Mem-filter_by p v vs m'')
  ]
  | inr m' ↦ Memᴰ.tail (Mem-filter_by p v vs m')
]

pub Mem-drop : (n : ℕ) (v : Version) (vs : List Version) → Memᴰ v (drop n vs) → Memᴰ v vs
Mem-drop zero v vs m = m
Mem-drop (suc n) v [] m = m
Mem-drop (suc n) v (w ∷ vs) m = Memᴰ.tail (Mem-drop n v vs m)

pub found_by_digest :
    (vs : List Version) (d : Bytes) (v : Version)
    → by_digest vs d ≡ some v
    → Memᴰ v vs × (v.digest ≡ d)
unfolding by_digest
found_by_digest [] d v h = absurd (ground (arith, h))
found_by_digest (w ∷ vs) d v h = elim (Option-cases (by_digest vs d)) [
  | inr (x, e) ↦
      let (m, same) = found_by_digest vs d x e in
      let found : x ≡ v = ground (arith, h, e) in
      (Memᴰ.tail (subst (λ u. Memᴰ u vs) found m), sym (ap (λ u. u.digest) found) ∙ same)
  | inl e ↦ elim (Bool-cases (bytes_eq w.digest d)) [
    | inl same ↦
        let found : w ≡ v = ground (arith, h, e, same) in
        (Memᴰ.head (sym found), sym (ap (λ u. u.digest) found) ∙ (bytes_eq_iff w.digest d).0 same)
    | inr other ↦ absurd (ground (arith, h, e, other))
  ]
]

pub bind_ok {ℓ κ} :
    {A : Type ℓ} {B : Type κ} (r : Result A) (f : A → Result B) (b : B)
    → (r >>= f) ≡ ok b
    → (a : A) × (r ≡ ok a) × (f a ≡ ok b)
bind_ok (ok a) f b h = (a, refl, h)
bind_ok (err e) f b h = absurd (ground (arith, h))

pub ok_same : (a b : List Bytes) → ok a ≡ ok b → a ≡ b
ok_same a b h = ground (arith, h)

module _ (children : Bytes → Result (List Bytes)) where
  -- A version reaches its own digest and those it references.
  pub data Reaches (w : Version) (d : Bytes) : Type 0 where
    itself : d ≡ w.digest → Reaches w d
    references : (refs : List Bytes) → children w.digest ≡ ok refs → Memᴰ d refs → Reaches w d

  protect_ok :
      (w : Version) (ds ds' : List Bytes)
      → protect children w ds ≡ ok ds'
      → (d : Bytes)
      → (Memᴰ d ds' → Memᴰ d ds ⊎ Reaches w d) × (Memᴰ d ds ⊎ Reaches w d → Memᴰ d ds')
  unfolding protect
  protect_ok w ds ds' h d =
      let (refs, e, same) =
        bind_ok (children w.digest) (λ refs. ok (refs ++ w.digest ∷ ds)) ds' h in
      let list : refs ++ w.digest ∷ ds ≡ ds' = ground (arith, same) in
      (
        λ m. elim (Memᴰ.append_cases refs (subst (Memᴰ d) (sym list) m)) [
          | inl m' ↦ inr (references refs e m')
          | inr m' ↦ elim (Memᴰ.cases_cons m') [ inl k ↦ inr (itself k) | inr k ↦ inl k ]
        ],
        λ m. subst (Memᴰ d) list (elim m [
          | inl k ↦ Memᴰ.append_right refs (Memᴰ.tail k)
          | inr (itself k) ↦ Memᴰ.append_right refs (Memᴰ.head k)
          | inr (references refs' e' k) ↦
              Memᴰ.append_left (w.digest ∷ ds) (subst (Memᴰ d) (ok_same refs' refs (sym e' ∙ e)) k)
        ]),
      )

  -- A version of a list that a test picks reaches a digest.
  pub data Picked (chosen : Version → Bool) (vs : List Version) (d : Bytes) : Type 0 where
    picked : (w : Version) → Memᴰ w vs → chosen w ≡ true → Reaches w d → Picked chosen vs d

  nil_picks_none : (chosen : Version → Bool) (d : Bytes) → Picked chosen [] d → ⊥
  nil_picks_none chosen d (picked w m c r) = Memᴰ.not-nil m

  Picked-tail :
      (chosen : Version → Bool) (v : Version) (vs : List Version) (d : Bytes)
      → Picked chosen vs d
      → Picked chosen (v ∷ vs) d
  Picked-tail chosen v vs d (picked w m c r) = picked w (Memᴰ.tail m) c r

  -- One round of a loop that protects.
  round_ok :
      (chosen : Bool) (w : Version) (ds ds' : List Bytes)
      → (if chosen then protect children w ds else ok ds) ≡ ok ds'
      → (d : Bytes)
      → (Memᴰ d ds' → Memᴰ d ds ⊎ ((chosen ≡ true) × Reaches w d))
        × (Memᴰ d ds → Memᴰ d ds')
        × ((chosen ≡ true) → Reaches w d → Memᴰ d ds')
  round_ok true w ds ds' h d =
      let (from, to) = protect_ok w ds ds' h d in
      (
        λ m. elim (from m) [ inl k ↦ inl k | inr k ↦ inr (refl, k) ],
        λ m. to (inl m),
        λ c r. to (inr r),
      )
  round_ok false w ds ds' h d = (
    λ m. inl (subst (Memᴰ d) (sym (ok_same ds ds' h)) m),
    λ m. subst (Memᴰ d) (ok_same ds ds' h) m,
    λ c r. absurd (ground (arith, c)),
  )

  -- The loops protect what the versions they pick reach, and nothing more.
  protect_each_ok :
      (chosen : Version → Bool) (vs : List Version) (ds ds' : List Bytes)
      → protect_each children chosen vs ds ≡ ok ds'
      → (d : Bytes)
      → (Memᴰ d ds' → Memᴰ d ds ⊎ Picked chosen vs d)
        × (Memᴰ d ds → Memᴰ d ds')
        × (Picked chosen vs d → Memᴰ d ds')
  unfolding protect_each
  protect_each_ok chosen [] ds ds' h d = (
    λ m. inl (subst (Memᴰ d) (sym (ok_same ds ds' h)) m),
    λ m. subst (Memᴰ d) (ok_same ds ds' h) m,
    λ t. absurd (nil_picks_none chosen d t),
  )
  protect_each_ok chosen (v ∷ vs) ds ds' h d =
      let (ds₁, first, rest) =
        bind_ok (if chosen v then protect children v ds else ok ds)
          (protect_each children chosen vs) ds' h in
      let (from₁, keep₁, to₁) = round_ok (chosen v) v ds ds₁ first d in
      let (from₂, keep₂, to₂) = protect_each_ok chosen vs ds₁ ds' rest d in
      (
        λ m. elim (from₂ m) [
          | inr t ↦ inr (Picked-tail chosen v vs d t)
          | inl k ↦ elim (from₁ k) [
            | inl k' ↦ inl k'
            | inr (c, r) ↦ inr (picked v (Memᴰ.head refl) c r)
          ]
        ],
        λ m. keep₂ (keep₁ m),
        λ t. elim t [
          | picked w m c r ↦ elim (Memᴰ.cases_cons m) [
            | inl e ↦ keep₂ (to₁ (subst (λ u. chosen u ≡ true) e c) (subst (λ u. Reaches u d) e r))
            | inr m' ↦ to₂ (picked w m' c r)
          ]
        ],
      )

  -- What survives a run: the versions that are neither edge builds nor untagged, the edge builds that
  -- are kept, and what these reference.
  pub data Survives (versions : List Version) (keep : ℕ) (d : Bytes) : Type 0 where
    other : Picked is_other versions d → Survives versions keep d
    kept : Picked (λ v. true) (take keep (edges_of versions)) d → Survives versions keep d

  pub protected_iff :
      (versions : List Version) (keep : ℕ) (others protected : List Bytes)
      → protect_each children is_other versions [] ≡ ok others
      → protect_each children (λ v. true) (take keep (edges_of versions)) others ≡ ok protected
      → (d : Bytes)
      → ((is_protected protected d ≡ true) → Survives versions keep d)
        × (Survives versions keep d → is_protected protected d ≡ true)
  protected_iff versions keep others protected h k d =
      let (from₁, _, to₁) = protect_each_ok is_other versions [] others h d in
      let (from₂, keep₂, to₂) =
        protect_each_ok (λ v. true) (take keep (edges_of versions)) others protected k d in
      let (out, into) = is_protected_iff protected d in
      (
        λ p. elim (from₂ (out p)) [
          | inr t ↦ kept t
          | inl m ↦ elim (from₁ m) [ inl m' ↦ absurd (Memᴰ.not-nil m') | inr t ↦ other t ]
        ],
        λ s. elim s [ other t ↦ into (keep₂ (to₁ t)) | kept t ↦ into (to₂ t) ],
      )
