-- ===== src/Blob/Objects.antt =====
-- What internal/blob/s3.go and s3multipart.go call of an S3 object store, through minio: its operations on
-- a state, what can be observed of it, and the laws that its documentation gives for them.
use sendan.Prelude.{
  ℕ, zero, suc, ◌≡◌, Bool, Option, none, some, List, [], ◌∷◌, ◌++◌, Bytes, bytes_eq, length,
  if◌then◌else◌, map, filter_by,
}

-- One response of a listing: the items, whether there are more, and the marker to ask for them with.
pub record Page (M A : Type 0) : Type 0 where
  pub items : List A
  pub is_truncated : Bool
  pub next_marker : M

-- The loop that follows the markers, over at most so many pages.
unfoldable pub collect : {M A : Type 0} → ℕ → (M → Page M A) → M → List A
collect zero list marker = []
collect (suc n) list marker =
    let page = list marker in
    let more = collect n list page.next_marker in
    if page.is_truncated then page.items ++ more else page.items

-- `minio.ObjectMultipartInfo`: a multipart upload in progress, and when it was started.
pub record InProgress : Type 0 where
  pub key : Bytes
  pub upload_id : Bytes
  pub initiated : ℕ

-- `minio.ObjectPart`
pub record Part : Type 0 where
  pub number : ℕ
  pub size : ℕ
  pub etag : Bytes

-- `minio.CompletePart`: the number and the tag.
abbrev pub CompletePart : Type 0
CompletePart = ℕ × Bytes

unfoldable pub complete_part : Part → CompletePart
complete_part p = (p.number, p.etag)

-- Parts numbered from a number on, each with the size of its bytes.
abbrev pub IsListing : ℕ → List Part → List Bytes → Type 0
IsListing n [] [] = Unit
IsListing n [] (b ∷ held) = ⊥
IsListing n (p ∷ parts) [] = ⊥
IsListing n (p ∷ parts) (b ∷ held) =
    (p.number ≡ n) × (p.size ≡ length b) × IsListing (suc n) parts held

unfoldable pub concat : List Bytes → Bytes
concat [] = []
concat (b ∷ rest) = b ++ concat rest

pub record ObjectStore : Type 1 where
  pub State : Type 0
  -- What is there: an object's bytes, the uploads in progress under a key, and what one of them holds.
  pub object : Bytes → State → Option Bytes
  pub uploads : Bytes → State → List InProgress
  pub listing : Bytes → Bytes → State → List Part
  pub held : Bytes → Bytes → State → List Bytes
  -- The calls.
  pub put_object : Bytes → Bytes → State → State
  pub remove_object : Bytes → State → State
  pub new_upload : Bytes → State → State × Bytes
  pub put_part : Bytes → Bytes → ℕ → Bytes → State → State × Part
  pub complete_upload : Bytes → Bytes → List CompletePart → State → State
  pub abort_upload : Bytes → Bytes → State → State
  pub list_uploads : Bytes → State → Bytes × Bytes → Page (Bytes × Bytes) InProgress
  pub list_parts : Bytes → Bytes → State → ℕ → Page ℕ Part
  -- How many pages a listing can have.
  pub pages : State → ℕ
  -- An object is replaced as a whole or removed, and nothing else changes.
  pub object-put :
      (k j b : Bytes) (s : State)
      → object j (put_object k b s) ≡ (if bytes_eq k j then some b else object j s)
  pub object-remove :
      (k j : Bytes) (s : State)
      → object j (remove_object k s) ≡ (if bytes_eq k j then none else object j s)
  pub uploads-put : (k j b : Bytes) (s : State) → uploads j (put_object k b s) ≡ uploads j s
  pub uploads-remove : (k j : Bytes) (s : State) → uploads j (remove_object k s) ≡ uploads j s
  pub held-put : (k j u b : Bytes) (s : State) → held j u (put_object k b s) ≡ held j u s
  pub held-remove : (k j u : Bytes) (s : State) → held j u (remove_object k s) ≡ held j u s
  -- A new upload is listed and empty.
  pub object-new : (k j : Bytes) (s : State) → object j (new_upload k s).0 ≡ object j s
  pub uploads-new :
      (k : Bytes) (s : State)
      → uploads k s ≡ []
      → (u : InProgress) × (uploads k (new_upload k s).0 ≡ u ∷ [])
        × (u.upload_id ≡ (new_upload k s).1)
  pub held-new : (k : Bytes) (s : State) → let (s', u) = new_upload k s in held k u s' ≡ []
  -- A part under the next number is added to its upload.
  pub object-part :
      (k j u b : Bytes) (n : ℕ) (s : State) → object j (put_part k u n b s).0 ≡ object j s
  pub uploads-part :
      (k j u b : Bytes) (n : ℕ) (s : State) → uploads j (put_part k u n b s).0 ≡ uploads j s
  pub held-part :
      (k b : Bytes) (u : InProgress) (s : State)
      → uploads k s ≡ u ∷ []
      → let id = u.upload_id in
        held k id (put_part k id (suc (length (held k id s))) b s).0 ≡ held k id s ++ b ∷ []
  pub listing-part :
      (k b : Bytes) (u : InProgress) (s : State)
      → uploads k s ≡ u ∷ []
      → let id = u.upload_id in
        let (s', part) = put_part k id (suc (length (held k id s))) b s in
        listing k id s' ≡ listing k id s ++ part ∷ []
  -- Completion with all the parts makes the object of them, and ends the upload. A store that wants
  -- every part but the last to have a least size, as S3 does 5 MiB, fails the call for others, and a
  -- call that fails is a Boolean of the operations in Blob/Multipart.
  pub object-complete :
      (k j : Bytes) (u : InProgress) (s : State)
      → uploads k s ≡ u ∷ []
      → let id = u.upload_id in
        object j (complete_upload k id (map complete_part (listing k id s)) s)
        ≡ (if bytes_eq k j then some (concat (held k id s)) else object j s)
  pub uploads-complete :
      (k : Bytes) (u : InProgress) (parts : List CompletePart) (s : State)
      → uploads k s ≡ u ∷ []
      → uploads k (complete_upload k u.upload_id parts s) ≡ []
  pub object-abort : (k j u : Bytes) (s : State) → object j (abort_upload k u s) ≡ object j s
  pub uploads-abort :
      (k : Bytes) (u : InProgress) (s : State)
      → uploads k s ≡ u ∷ []
      → uploads k (abort_upload k u.upload_id s) ≡ []
  -- Following the markers of a listing gives all of it. A listing of uploads is by prefix.
  pub all_uploads :
      (k : Bytes) (s : State)
      → filter_by (λ u. bytes_eq u.key k) (collect (pages s) (list_uploads k s) ([], []))
        ≡ uploads k s
  pub all_parts : (k u : Bytes) (s : State) → collect (pages s) (list_parts k u s) 0 ≡ listing k u s
  pub listed : (k u : Bytes) (s : State) → IsListing 1 (listing k u s) (held k u s)
