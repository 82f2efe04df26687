-- ===== src/Blob/Names.antt =====
-- internal/blob/fs.go, spool.go: blob identifiers and the paths built from them. A path is the list
-- of its components below the storage root, which `filepath.Join` puts together.
use mathlib.Core.Path.{subst}
use sendan.Prelude.{
  ℕ, zero, suc, ◌≡◌, refl, ◌≢◌, ◌≤◌, Bool, true, not, ◌&&◌, ◌||◌, List, [], ◌∷◌, ◌++◌, Bytes, codes,
  ◌==◌, leb, if◌then◌else◌, all_bytes, Result, ok, err, invalid_id, ◌>>◌, ◌⊎◌, All-implies,
  All-append, length-append, length-drop, ap, sym, ◌∙◌, take_of_append, length, take, drop, arith,
  All, All-take,
}

abbrev pub id_length : ℕ
id_length = 22

abbrev pub compat_id_length : ℕ
compat_id_length = 16

-- The characters of base64url.
unfoldable pub is_id_char : ℕ → Bool
is_id_char c =
    leb b'A' c && leb c b'Z'
    || (leb b'a' c && leb c b'z' || (leb b'0' c && leb c b'9' || (c == b'-' || c == b'_')))

-- `validateID`: what is refused is refused with the same error.
unfoldable pub validate_id : Bytes → Result (Unit {0})
validate_id id =
    if not (length id == id_length) && not (length id == compat_id_length)
    then err invalid_id
    else if all_bytes is_id_char id
    then ok tt
    else err invalid_id

abbrev pub FilePath : Type 0
FilePath = List Bytes

-- The two directories that an identifier is sharded into.
unfoldable pub shard : Bytes → FilePath
shard id = take 2 id ∷ take 2 (drop 2 id) ∷ []

-- `(*FS).path`
unfoldable pub final_path : Bytes → Result FilePath
unfolding shard
final_path id = do validate_id id; ok (shard id ++ id ∷ [])

abbrev pub partial_name : Bytes → Bytes
partial_name id = codes "." ++ (id ++ codes ".partial")

-- `(spool).path`, in the directory that `(*FS).spool` gives.
unfoldable pub partial_path : Bytes → Result FilePath
unfolding shard
partial_path id = do validate_id id; ok (shard id ++ partial_name id ∷ [])

-- A component that names an entry of its directory: it is not empty, holds no separator, and is not
-- a name for the directory or its parent.
pub record IsEntry (name : Bytes) : Type 0 where
  pub filled : name ≢ []
  pub flat : All (λ c. c ≢ b'/') name
  pub below : name ≢ codes "."
  pub not_parent : name ≢ codes ".."

abbrev IsIdChar : ℕ → Type 0
IsIdChar c = is_id_char c ≡ true

all_bytes-All : (p : ℕ → Bool) (id : Bytes) → all_bytes p id ≡ true → All (λ c. p c ≡ true) id
unfolding all_bytes
all_bytes-All p [] h = tt
all_bytes-All p (x ∷ xs) h = ground (arith, all_bytes-All p xs)

-- What `validateID` accepts.
pub validate_id_ok :
    (id : Bytes)
    → validate_id id ≡ ok tt
    → ((length id ≡ id_length) ⊎ (length id ≡ compat_id_length)) × All IsIdChar id
unfolding validate_id
validate_id_ok id h = (ground arith, all_bytes-All is_id_char id (ground arith))

IsIdChar-flat : (c : ℕ) → IsIdChar c → (c ≢ b'/') × (c ≢ b'.')
unfolding is_id_char
IsIdChar-flat c h = ground arith

IsEntry-of_chars : (name : Bytes) → name ≢ [] → All IsIdChar name → IsEntry name
IsEntry-of_chars [] filled h = absurd (filled refl)
IsEntry-of_chars (c ∷ name) filled h =
    let flat : All (λ x. x ≢ b'/') (c ∷ name) =
      All-implies IsIdChar (λ x. x ≢ b'/') (c ∷ name) (λ x k. (IsIdChar-flat x k).0) h in
    let first = (IsIdChar-flat c h.0).1 in
    record { filled = filled; flat = flat; below = ground arith; not_parent = ground arith }

partial_name-IsEntry : (id : Bytes) → All IsIdChar id → IsEntry (partial_name id)
partial_name-IsEntry id h =
    let flat_id : All (λ x. x ≢ b'/') id =
      All-implies IsIdChar (λ x. x ≢ b'/') id (λ x k. (IsIdChar-flat x k).0) h in
    record {
      filled = cc;
      flat = (omega arith, All-append (λ x. x ≢ b'/') id (codes ".partial") flat_id (omega arith));
      below = λ e. ground (arith, length-append id (codes ".partial"), ap length e);
      not_parent = λ e. ground (arith, length-append id (codes ".partial"), ap length e);
    }

take_filled : (n : ℕ) (xs : Bytes) → 1 ≤ n → 1 ≤ length xs → take n xs ≢ []
take_filled zero xs h k = absurd (omega arith)
take_filled (suc n) [] h k = absurd (omega arith)
take_filled (suc n) (x ∷ xs) h k = cc

All-drop : (n : ℕ) (xs : Bytes) → All IsIdChar xs → All IsIdChar (drop n xs)
All-drop zero xs h = h
All-drop (suc n) [] h = tt
All-drop (suc n) (x ∷ xs) h = All-drop n xs h.1

shard-IsEntry : (id : Bytes) → validate_id id ≡ ok tt → All IsEntry (shard id)
unfolding shard
shard-IsEntry id h =
    let (size, chars) = validate_id_ok id h in
    (
      IsEntry-of_chars (take 2 id) (take_filled 2 id (omega arith) (omega arith))
          (All-take IsIdChar 2 id chars),
      (
        IsEntry-of_chars (take 2 (drop 2 id))
            (take_filled 2 (drop 2 id) (omega arith) (omega (arith, length-drop 2 id)))
            (All-take IsIdChar 2 (drop 2 id) (All-drop 2 id chars)),
        tt,
      ),
    )

final_path-cases :
    (id : Bytes) (p : FilePath)
    → final_path id ≡ ok p
    → (validate_id id ≡ ok tt) × (p ≡ shard id ++ id ∷ [])
unfolding final_path
final_path-cases id p h = ground arith

partial_path-cases :
    (id : Bytes) (p : FilePath)
    → partial_path id ≡ ok p
    → (validate_id id ≡ ok tt) × (p ≡ shard id ++ partial_name id ∷ [])
unfolding partial_path
partial_path-cases id p h = ground arith

-- No accepted identifier names anything outside the storage root: each component of the path of its
-- blob and of its partial upload is an entry of the directory before it.
pub paths_contained :
    (id : Bytes) (final partial : FilePath)
    → final_path id ≡ ok final
    → partial_path id ≡ ok partial
    → All IsEntry final × All IsEntry partial
paths_contained id final partial f p =
    let (valid, final_is) = final_path-cases id final f in
    let (_, partial_is) = partial_path-cases id partial p in
    let (size, chars) = validate_id_ok id valid in
    let whole : id ≢ [] = λ e. ground (arith, ap length e) in
    (
      subst (All IsEntry) (sym final_is) (
          All-append IsEntry (shard id) (id ∷ []) (shard-IsEntry id valid)
            (IsEntry-of_chars id whole chars, tt)),
      subst (All IsEntry) (sym partial_is) (
          All-append IsEntry (shard id) (partial_name id ∷ []) (shard-IsEntry id valid)
            (partial_name-IsEntry id chars, tt)),
    )

-- The file's name: the last of the three components.
abbrev leaf : FilePath → Bytes
leaf (a ∷ b ∷ c ∷ p) = c
leaf _ = []

leaf-shard : (id name : Bytes) → leaf (shard id ++ name ∷ []) ≡ name
unfolding shard
leaf-shard id name = refl

append_cancel : (s a b : Bytes) → a ++ s ≡ b ++ s → a ≡ b
append_cancel s a b e =
    let same : length a ≡ length b =
      omega (arith, length-append a s, length-append b s, ap length e) in
    sym (take_of_append a s (length b) (sym same))
    ∙ (ap (take (length b)) e ∙ take_of_append b s (length b) refl)

partial_name-injective : (a b : Bytes) → partial_name a ≡ partial_name b → a ≡ b
partial_name-injective a b e = append_cancel (codes ".partial") a b (ap (drop 1) e)

partial_name-ne-id : (a b : Bytes) → All IsIdChar b → partial_name a ≢ b
partial_name-ne-id a [] h e = cc
partial_name-ne-id a (c ∷ b) h e = ground (arith, IsIdChar-flat c h.0)

-- A partial upload never lies where a blob does, also under one identifier.
pub partial-ne-final :
    (a b : Bytes) (fb pa : FilePath) → final_path b ≡ ok fb → partial_path a ≡ ok pa → pa ≢ fb
partial-ne-final a b fb pa hb ka e =
    let (valid_b, fb_is) = final_path-cases b fb hb in
    let (_, pa_is) = partial_path-cases a pa ka in
    let lb = ap leaf fb_is ∙ leaf-shard b b in
    let ma = ap leaf pa_is ∙ leaf-shard a (partial_name a) in
    partial_name-ne-id a b (validate_id_ok b valid_b).1 (sym ma ∙ (ap leaf e ∙ lb))

-- Two identifiers never share a file: blobs of different identifiers have different paths, so have
-- partial uploads, and no partial upload lies where a blob does.
pub paths_apart :
    (a b : Bytes) (fa fb pa pb : FilePath)
    → final_path a ≡ ok fa
    → final_path b ≡ ok fb
    → partial_path a ≡ ok pa
    → partial_path b ≡ ok pb
    → a ≢ b
    → (fa ≢ fb) × (pa ≢ pb) × (pa ≢ fb)
paths_apart a b fa fb pa pb ha hb ka kb ne =
    let (_, fa_is) = final_path-cases a fa ha in
    let (_, fb_is) = final_path-cases b fb hb in
    let (_, pa_is) = partial_path-cases a pa ka in
    let (_, pb_is) = partial_path-cases b pb kb in
    let la = ap leaf fa_is ∙ leaf-shard a a in
    let lb = ap leaf fb_is ∙ leaf-shard b b in
    let ma = ap leaf pa_is ∙ leaf-shard a (partial_name a) in
    let mb = ap leaf pb_is ∙ leaf-shard b (partial_name b) in
    (
      λ e. ne (sym la ∙ (ap leaf e ∙ lb)),
      λ e. ne (partial_name-injective a b (sym ma ∙ (ap leaf e ∙ mb))),
      partial-ne-final a b fb pa hb ka,
    )
