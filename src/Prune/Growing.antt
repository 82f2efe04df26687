-- ===== src/Prune/Growing.antt =====
-- tools/registry-prune/main.go: how the loops over the doomed builds make a plan grow.
use mathlib.Core.Path.{subst, ap₂}
use mathlib.Core.List.{Memᴰ}
use mathlib.Core.List.Memᴰ
use sendan.Prelude.{
  ℕ, ◌≡◌, refl, sym, ap, ◌∙◌, ◌⊎◌, inl, inr, Bool, true, false, not, ◌&&◌, ◌||◌, Option, none, some,
  List, [], ◌∷◌, ◌++◌, Bytes, filter_by, if◌then◌else◌, drop, Result, ok, arith, Bool-cases,
  Option-cases,
}
use sendan.Prune.{
  Version, is_edge, edges_of, by_digest, is_protected, was_seen, Plan, planned, plan_child,
  plan_children, plan_index, plan_doomed,
}
use sendan.Prune.Protecting.{Survives, Mem-sort, Mem-filter_by, Mem-drop, found_by_digest, bind_ok}

module _ (children : Bytes → Result (List Bytes)) (versions : List Version) (keep : ℕ) where
  -- The builds that are not kept.
  abbrev pub doomed : List Version
  doomed = drop keep (edges_of versions)

  -- What a digest stands for does not survive, or has been planned already.
  abbrev pub Settled : List ℕ → Bytes → Type 0
  Settled seen digest =
      (c : Version)
      → by_digest versions digest ≡ some c
      → Survives children versions keep digest ⊎ (was_seen seen c.id ≡ true)

  -- The plans, as they grow. What is added is listed, does not survive, and is not planned yet; it is what a doomed
  -- build references, or a doomed build of which all that it references is planned already or survives.
  pub data Planned : List ℕ → List Version → Type 0 where
    nothing : Planned [] []
    child :
        {seen : List ℕ} {out : List Version} (w v : Version) (refs : List Bytes)
        → Planned seen out
        → Memᴰ v versions
        → was_seen seen v.id ≡ false
        → (Survives children versions keep v.digest → ⊥)
        → Memᴰ w doomed
        → children w.digest ≡ ok refs
        → Memᴰ v.digest refs
        → Planned (v.id ∷ seen) (out ++ v ∷ [])
    index :
        {seen : List ℕ} {out : List Version} (v : Version) (refs : List Bytes)
        → Planned seen out
        → Memᴰ v versions
        → was_seen seen v.id ≡ false
        → (Survives children versions keep v.digest → ⊥)
        → Memᴰ v doomed
        → children v.digest ≡ ok refs
        → ((r : Bytes) → Memᴰ r refs → Settled seen r)
        → Planned (v.id ∷ seen) (out ++ v ∷ [])

  abbrev Grows : List ℕ → List ℕ → Type 0
  Grows seen seen' = (n : ℕ) → was_seen seen n ≡ true → was_seen seen' n ≡ true

  one_more : (seen : List ℕ) (m : ℕ) → Grows seen (m ∷ seen)
  one_more seen m n h = ground (arith, h)

  seen_first : (seen : List ℕ) (m : ℕ) → was_seen (m ∷ seen) m ≡ true
  seen_first seen m = ground arith

  still_so : (seen seen' : List ℕ) (r : Bytes) → Grows seen seen' → Settled seen r → Settled seen' r
  still_so seen seen' r g s c e = elim (s c e) [ inl k ↦ inl k | inr k ↦ inr (g c.id k) ]

  either_way : (b : Bool) (p : Plan) (c : Version) → (if b || true then p else planned c p) ≡ p
  either_way true p c = refl
  either_way false p c = refl

  some_same : (a b : Version) → some a ≡ some b → a ≡ b
  some_same a b h = ground (arith, h)

  doomed_listed : (v : Version) → Memᴰ v doomed → Memᴰ v versions
  unfolding edges_of
  doomed_listed v m =
      Mem-filter_by is_edge v versions
        (Mem-sort v (filter_by is_edge versions) (Mem-drop keep v (edges_of versions) m))

  -- A build is itself settled if it survives, or is planned.
  abbrev pub IndexSettled : List ℕ → Version → Type 0
  IndexSettled seen v = Survives children versions keep v.digest ⊎ (was_seen seen v.id ≡ true)

  -- All that a doomed build makes the plan hold.
  pub data Removed (seen : List ℕ) (v : Version) : Type 0 where
    removed :
        (refs : List Bytes)
        → children v.digest ≡ ok refs
        → ((r : Bytes) → Memᴰ r refs → Settled seen r)
        → IndexSettled seen v
        → Removed seen v

  stays_so :
      (seen seen' : List ℕ) (v : Version) → Grows seen seen' → Removed seen v → Removed seen' v
  stays_so seen seen' v g (removed refs e s i) =
      removed refs e (λ r m. still_so seen seen' r g (s r m))
        (elim i [ inl k ↦ inl k | inr k ↦ inr (g v.id k) ])

  module _ (protected : List Bytes)
      (exact : (d : Bytes)
        → ((is_protected protected d ≡ true) → Survives children versions keep d)
          × (Survives children versions keep d → is_protected protected d ≡ true)) where
    unprotected :
        (d : Bytes) → is_protected protected d ≡ false → Survives children versions keep d → ⊥
    unprotected d h s = ground (arith, h, (exact d).1 s)

    abbrev OnPlan : Plan → Type 0
    OnPlan p = Planned p.seen p.out

    -- `plan_child` once its digest is looked up.
    abbrev looked_up : Bytes → Plan → Option Version → Plan
    looked_up r p o = elim o [
      | none ↦ p
      | some c ↦ if is_protected protected r || was_seen p.seen c.id then p else planned c p
    ]

    skip_protected :
        (r : Bytes) (p : Plan) (c : Version)
        → is_protected protected r ≡ true
        → looked_up r p (some c) ≡ p
    skip_protected r p c h = ap (λ b. if b || was_seen p.seen c.id then p else planned c p) h

    skip_seen :
        (r : Bytes) (p : Plan) (c : Version)
        → was_seen p.seen c.id ≡ true
        → looked_up r p (some c) ≡ p
    skip_seen r p c h =
        ap (λ b. if is_protected protected r || b then p else planned c p) h
        ∙ either_way (is_protected protected r) p c

    take_up :
        (r : Bytes) (p : Plan) (c : Version)
        → is_protected protected r ≡ false
        → was_seen p.seen c.id ≡ false
        → looked_up r p (some c) ≡ planned c p
    take_up r p c h k = ap₂ (λ b b'. if b || b' then p else planned c p) h k

    -- From a plan to a later one.
    abbrev Later : Plan → Plan → Type 0
    Later p p' = OnPlan p' × Grows p.seen p'.seen

    plan_child_ok :
        (w : Version) (refs : List Bytes) (r : Bytes) (p : Plan)
        → Memᴰ w doomed
        → children w.digest ≡ ok refs
        → Memᴰ r refs
        → OnPlan p
        → let p' = plan_child versions protected r p in Later p p' × Settled p'.seen r
    unfolding plan_child
    plan_child_ok w refs r p m e k on =
        let Step = λ (p' : Plan). Later p p' × Settled p'.seen r in
        elim (Option-cases (by_digest versions r)) [
          | inl absent ↦
              subst Step (sym (ap (λ (o : Option Version). looked_up r p o) absent))
                ((on, λ n h. h), λ c found. absurd (ground (arith, found, absent)))
          | inr (c, found) ↦
              let only : (c' : Version) → by_digest versions r ≡ some c' → c ≡ c' =
                λ c' found'. some_same c c' (sym found ∙ found') in
              subst Step (sym (ap (λ (o : Option Version). looked_up r p o) found))
                (elim (Bool-cases (is_protected protected r)) [
                  | inl survives ↦
                      subst Step (sym (skip_protected r p c survives))
                        ((on, λ n h. h), λ c' found'. inl ((exact r).0 survives))
                  | inr gone ↦ elim (Bool-cases (was_seen p.seen c.id)) [
                    | inl seen ↦ subst Step (sym (skip_seen r p c seen)) (
                      (on, λ n h. h),
                      λ c' found'.
                          inr (subst (λ u. was_seen p.seen u.id ≡ true) (only c' found') seen),
                    )
                    | inr fresh ↦
                        let (listed, same) = found_by_digest versions r c found in
                        subst Step (sym (take_up r p c gone fresh)) (
                          (
                            child w c refs on listed fresh
                                (λ s.
                                  unprotected r gone
                                    (subst (Survives children versions keep) same s))
                                m e (subst (λ d. Memᴰ d refs) (sym same) k),
                            one_more p.seen c.id,
                          ),
                          λ c' found'. inr (
                              subst (λ u. was_seen (c.id ∷ p.seen) u.id ≡ true) (only c' found')
                                (seen_first p.seen c.id)),
                        )
                  ]
                ])
        ]

    plan_children_ok :
        (w : Version) (refs rs : List Bytes) (p : Plan)
        → Memᴰ w doomed
        → children w.digest ≡ ok refs
        → ((r : Bytes) → Memᴰ r rs → Memᴰ r refs)
        → OnPlan p
        → let p' = plan_children versions protected rs p in
          Later p p' × ((r : Bytes) → Memᴰ r rs → Settled p'.seen r)
    unfolding plan_children
    plan_children_ok w refs [] p m e sub on = ((on, λ n h. h), λ r k. absurd (Memᴰ.not-nil k))
    plan_children_ok w refs (r ∷ rs) p m e sub on =
        let p₁ = plan_child versions protected r p in
        let ((on₁, grows₁), settled₁) = plan_child_ok w refs r p m e (sub r (Memᴰ.head refl)) on in
        let ((on₂, grows₂), settled₂) =
          plan_children_ok w refs rs p₁ m e (λ r' k. sub r' (Memᴰ.tail k)) on₁ in
        (
          (on₂, λ n h. grows₂ n (grows₁ n h)),
          λ r' k. elim (Memᴰ.cases_cons k) [
            | inl same ↦ still_so p₁.seen _ r' grows₂ (subst (Settled p₁.seen) (sym same) settled₁)
            | inr k' ↦ settled₂ r' k'
          ],
        )

    plan_index_ok :
        (v : Version) (refs : List Bytes) (p : Plan)
        → Memᴰ v doomed
        → children v.digest ≡ ok refs
        → ((r : Bytes) → Memᴰ r refs → Settled p.seen r)
        → OnPlan p
        → let p' = plan_index versions protected v p in Later p p' × IndexSettled p'.seen v
    unfolding plan_index
    plan_index_ok v refs p m e settled on =
        let Step = λ (p' : Plan). Later p p' × IndexSettled p'.seen v in
        elim (Bool-cases (is_protected protected v.digest)) [
          | inl survives ↦
              subst Step
                (sym (
                  ap (λ b. if not b && not (was_seen p.seen v.id) then planned v p else p)
                    survives))
                ((on, λ n h. h), inl ((exact v.digest).0 survives))
          | inr gone ↦ elim (Bool-cases (was_seen p.seen v.id)) [
            | inl seen ↦
                subst Step (sym (ap₂ (λ b c. if not b && not c then planned v p else p) gone seen))
                  ((on, λ n h. h), inr seen)
            | inr fresh ↦
                subst Step (sym (ap₂ (λ b c. if not b && not c then planned v p else p) gone fresh))
                  (
                    (
                      index v refs on (doomed_listed v m) fresh (unprotected v.digest gone) m e
                          settled,
                      one_more p.seen v.id,
                    ),
                    inr (seen_first p.seen v.id),
                  )
          ]
        ]

    pub plan_doomed_ok :
        (vs : List Version) (p p' : Plan)
        → ((v : Version) → Memᴰ v vs → Memᴰ v doomed)
        → plan_doomed children versions protected vs p ≡ ok p'
        → OnPlan p
        → Later p p' × ((v : Version) → Memᴰ v vs → Removed p'.seen v)
    unfolding plan_doomed
    plan_doomed_ok [] p p' sub h on =
        let same : p ≡ p' = ground (arith, h) in
        (subst (Later p) same (on, λ n k. k), λ v m. absurd (Memᴰ.not-nil m))
    plan_doomed_ok (v ∷ vs) p p' sub h on =
        let (refs, e, rest) =
          bind_ok (children v.digest)
            (λ refs.
              plan_doomed children versions protected vs
                (plan_index versions protected v (plan_children versions protected refs p)))
            p' h in
        let m = sub v (Memᴰ.head refl) in
        let p₁ = plan_children versions protected refs p in
        let p₂ = plan_index versions protected v p₁ in
        let ((on₁, grows₁), settled₁) = plan_children_ok v refs refs p m e (λ r k. k) on in
        let ((on₂, grows₂), settled₂) = plan_index_ok v refs p₁ m e settled₁ on₁ in
        let ((on₃, grows₃), removed₃) =
          plan_doomed_ok vs p₂ p' (λ u k. sub u (Memᴰ.tail k)) rest on₂ in
        (
          (on₃, λ n k. grows₃ n (grows₂ n (grows₁ n k))),
          λ u k. elim (Memᴰ.cases_cons k) [
            | inl same ↦ subst (Removed p'.seen) (sym same) (
                removed refs e
                  (λ r r_.
                    still_so p₁.seen p'.seen r (λ n i. grows₃ n (grows₂ n i)) (settled₁ r r_))
                  (elim settled₂ [ inl i ↦ inl i | inr i ↦ inr (grows₃ v.id i) ]))
            | inr k' ↦ removed₃ u k'
          ],
        )
