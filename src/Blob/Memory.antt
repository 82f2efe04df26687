-- ===== src/Blob/Memory.antt =====
-- An object store in memory, which keeps the laws: its listings have one page, and the identifier of an
-- upload is a number that no upload before had.
use sendan.Prelude.{
  ℕ, suc, ◌+◌, ◌≡◌, refl, ap, ◌∙◌, Bool, false, not, ◌&&◌, Option, none, some, List, [], ◌∷◌, ◌++◌,
  Bytes, bytes_eq, bytes_eq_refl, arith, length, filter_by, if◌then◌else◌,
}
use sendan.Blob.Objects.{ObjectStore, InProgress, Part, IsListing, concat, collect}

pub record Memory : Type 0 where
  pub objects : Bytes → Option Bytes
  pub running : List InProgress
  pub parts : Bytes → Bytes → List Bytes
  pub next_id : ℕ

abbrev pub empty_memory : Memory
empty_memory = record { objects = λ _. none; running = []; parts = λ _ _. []; next_id = 0 }

abbrev pub set_object : Bytes → Option Bytes → Memory → Memory
set_object k b m = record m { objects = λ j. if bytes_eq k j then b else m.objects j }

abbrev pub set_parts : Bytes → Bytes → List Bytes → Memory → Memory
set_parts k u held m = record m {
  parts = λ j v. if bytes_eq k j && bytes_eq u v then held else m.parts j v;
}

abbrev pub of_key : Bytes → InProgress → Bool
of_key k u = bytes_eq u.key k

abbrev pub end_upload : Bytes → Bytes → Memory → Memory
end_upload k id m = record m {
  running = filter_by (λ u. not (of_key k u && bytes_eq u.upload_id id)) m.running;
}

unfoldable pub numbered : ℕ → List Bytes → List Part
numbered n [] = []
numbered n (b ∷ rest) = record { number = n; size = length b; etag = [] } ∷ numbered (suc n) rest

pub numbered-IsListing : (n : ℕ) (held : List Bytes) → IsListing n (numbered n held) held
unfolding numbered
numbered-IsListing n [] = tt
numbered-IsListing n (b ∷ held) = (refl, refl, numbered-IsListing (suc n) held)

pub numbered-append :
    (n : ℕ) (held : List Bytes) (b : Bytes)
    → numbered n (held ++ b ∷ [])
      ≡ numbered n held ++ record { number = n + length held; size = length b; etag = [] } ∷ []
unfolding numbered
numbered-append n [] b = ground arith
numbered-append n (x ∷ held) b =
    ap (λ t. record { number = n; size = length x; etag = [] } ∷ t)
      (numbered-append (suc n) held b
        ∙ ap (λ i. numbered (suc n) held ++ record { number = i; size = length b; etag = [] } ∷ [])
            (omega arith))

filter_twice :
    (k id : Bytes) (us : List InProgress)
    → filter_by (of_key k) (filter_by (λ u. not (of_key k u && bytes_eq u.upload_id id)) us)
      ≡ filter_by (λ u. not (bytes_eq u.upload_id id)) (filter_by (of_key k) us)
filter_twice k id [] = refl
filter_twice k id (u ∷ us) = ground (arith, filter_twice k id us)

pub end_upload-uploads :
    (k : Bytes) (u : InProgress) (us : List InProgress)
    → filter_by (of_key k) us ≡ u ∷ []
    → filter_by
        (of_key k)
        (filter_by (λ v. not (of_key k v && bytes_eq v.upload_id u.upload_id)) us)
      ≡ []
end_upload-uploads k u us only =
    filter_twice k u.upload_id us
    ∙ ap (filter_by (λ v. not (bytes_eq v.upload_id u.upload_id))) only
    ∙ (rw (bytes_eq_refl u.upload_id) refl)

pub set_parts_self :
    (k u : Bytes) (held : List Bytes) (m : Memory) → (set_parts k u held m).parts k u ≡ held
set_parts_self k u held m = rw (bytes_eq_refl k, bytes_eq_refl u) refl

pub one_page :
    {M A : Type 0} (items : List A) (start : M)
    → collect 1
        (λ marker. record { items = items; is_truncated = false; next_marker = marker })
        start
      ≡ items
unfolding collect
one_page items start = refl

abbrev pub memory_store : ObjectStore
memory_store = record {
  State = Memory;
  object = λ k m. m.objects k;
  uploads = λ k m. filter_by (of_key k) m.running;
  listing = λ k u m. numbered 1 (m.parts k u);
  held = λ k u m. m.parts k u;
  put_object = λ k b m. set_object k (some b) m;
  remove_object = λ k m. set_object k none m;
  new_upload = λ k m. (
    set_parts k (m.next_id ∷ []) [] (record m {
      running = record { key = k; upload_id = m.next_id ∷ []; initiated = m.next_id } ∷ m.running;
      next_id = suc m.next_id;
    }),
    m.next_id ∷ [],
  );
  put_part = λ k u n b m.
      (set_parts k u (m.parts k u ++ b ∷ []) m, record { number = n; size = length b; etag = [] });
  complete_upload = λ k u parts m. end_upload k u (set_object k (some (concat (m.parts k u))) m);
  abort_upload = end_upload;
  list_uploads =
      λ k m marker. record { items = m.running; is_truncated = false; next_marker = marker };
  list_parts = λ k u m marker. record {
    items = numbered 1 (m.parts k u);
    is_truncated = false;
    next_marker = marker;
  };
  pages = λ _. 1;
  object-put = λ k j b m. refl;
  object-remove = λ k j m. refl;
  uploads-put = λ k j b m. refl;
  uploads-remove = λ k j m. refl;
  held-put = λ k j u b m. refl;
  held-remove = λ k j u m. refl;
  object-new = λ k j m. refl;
  uploads-new = λ k m nothing. (
    record { key = k; upload_id = m.next_id ∷ []; initiated = m.next_id },
    rw (bytes_eq_refl k, nothing) refl,
    refl,
  );
  held-new = λ k m. set_parts_self k (m.next_id ∷ []) [] m;
  object-part = λ k j u b n m. refl;
  uploads-part = λ k j u b n m. refl;
  held-part = λ k b u m only. set_parts_self k u.upload_id (m.parts k u.upload_id ++ b ∷ []) m;
  listing-part = λ k b u m only.
      ap (numbered 1) (set_parts_self k u.upload_id (m.parts k u.upload_id ++ b ∷ []) m)
      ∙ numbered-append 1 (m.parts k u.upload_id) b
      ∙ ap
          (λ i.
            numbered 1 (m.parts k u.upload_id)
            ++ record { number = i; size = length b; etag = [] } ∷ [])
          (omega arith);
  object-complete = λ k j u m only. refl;
  uploads-complete = λ k u parts m only. end_upload-uploads k u m.running only;
  object-abort = λ k j u m. refl;
  uploads-abort = λ k u m only. end_upload-uploads k u m.running only;
  all_uploads = λ k m. ap (filter_by (of_key k)) (one_page m.running ([], []));
  all_parts = λ k u m. one_page (numbered 1 (m.parts k u)) 0;
  listed = λ k u m. numbered-IsListing 1 (m.parts k u);
}
