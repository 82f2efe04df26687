-- ===== src/Compat/Invariant.antt =====
-- The states that the handlers of internal/compat and the deletions of the upload service lead to.
use mathlib.Core.Path.{subst}
use sendan.Prelude.{ℕ, sym, Bool, Option, List, Bytes}
use sendan.Blob.Shredder.{Cipher}
use sendan.Upload.Attempts.{Attempts}
use sendan.Upload.Policy.{Policy}
use sendan.Upload.Service.{Faults}
use sendan.Compat.Auth.{Library, AuthCalls}
use sendan.Compat.Receiving.{
  Frame, Arrival, UploadHeader, RunCalls, CompatWorld, discard, run_upload,
}
use sendan.Compat.Serving.{
  DownloadCalls, handle_metadata, handle_download_token, handle_download, handle_password,
}
use sendan.Compat.Keeping.{
  IsSoundWorld, discard-IsSoundWorld, authenticated-IsSoundWorld, run_upload-IsSoundWorld,
  handle_metadata-state, handle_download_token-state, handle_download-IsSoundWorld,
  handle_password-IsSoundWorld,
}

module _ (tries : Attempts) (digest : Bytes → Bytes) (lib : Library) where
  -- What can happen to the state: a run of an upload, a request to a handler, or a deletion, which
  -- revocation and the reaper come to.
  pub data Step : CompatWorld tries digest → CompatWorld tries digest → Type 0 where
    uploads :
        (cipher : Cipher) (parse : Bytes → Option UploadHeader) (p : Policy) (calls : RunCalls)
        (first : Option Frame) (frames : List Arrival) (c : CompatWorld tries digest)
        → Step c (run_upload tries digest lib cipher parse p calls first frames c).0
    describes :
        (calls : AuthCalls) (get_fails : Bool) (header id : Bytes) (now : ℕ)
        (c : CompatWorld tries digest)
        → Step c (handle_metadata tries digest lib calls get_fails header id now c).0
    fetches_token :
        (calls : AuthCalls) (get_fails : Bool) (header id : Bytes) (now : ℕ)
        (c : CompatWorld tries digest)
        → Step c (handle_download_token tries digest lib calls get_fails header id now c).0
    downloads :
        (cipher : Cipher) (calls : AuthCalls) (d : DownloadCalls) (header id : Bytes) (now : ℕ)
        (c : CompatWorld tries digest)
        → Step c (handle_download tries digest lib cipher calls d header id now c).0
    sets_password :
        (get_fails set_fails : Bool) (request : Option (Bytes × Bytes)) (id : Bytes) (now : ℕ)
        (c : CompatWorld tries digest)
        → Step c (handle_password tries digest lib get_fails set_fails request id now c).0
    deletes :
        (faults : Faults) (id : Bytes) (c : CompatWorld tries digest)
        → Step c (discard tries digest faults id c).0

  pub data Reach (c : CompatWorld tries digest) : CompatWorld tries digest → Type 0 where
    here : Reach c c
    next : {a b : CompatWorld tries digest} → Reach c a → Step a b → Reach c b

  Step-IsSoundWorld :
      {a b : CompatWorld tries digest}
      → Step a b
      → IsSoundWorld tries digest a
      → IsSoundWorld tries digest b
  Step-IsSoundWorld (uploads cipher parse p calls first frames c) s =
      run_upload-IsSoundWorld tries digest lib cipher parse p calls first frames c s
  Step-IsSoundWorld (describes calls get_fails header id now c) s =
      subst (IsSoundWorld tries digest)
        (sym (handle_metadata-state tries digest lib calls get_fails header id now c))
        (authenticated-IsSoundWorld tries digest lib calls header id c s)
  Step-IsSoundWorld (fetches_token calls get_fails header id now c) s =
      subst (IsSoundWorld tries digest)
        (sym (handle_download_token-state tries digest lib calls get_fails header id now c))
        (authenticated-IsSoundWorld tries digest lib calls header id c s)
  Step-IsSoundWorld (downloads cipher calls d header id now c) s =
      handle_download-IsSoundWorld tries digest lib cipher calls d header id now c s
  Step-IsSoundWorld (sets_password get_fails set_fails request id now c) s =
      handle_password-IsSoundWorld tries digest lib get_fails set_fails request id now c s
  Step-IsSoundWorld (deletes faults id c) s = discard-IsSoundWorld tries digest faults id c s

  -- Whatever uploads, requests and deletions happen, in any order and with any failures, starting
  -- from a state where it holds: each row of this protocol refers to an upload that is there, and
  -- has a key and a nonce that are not empty.
  pub Reach-IsSoundWorld :
      (a b : CompatWorld tries digest)
      → Reach a b
      → IsSoundWorld tries digest a
      → IsSoundWorld tries digest b
  Reach-IsSoundWorld a b here s = s
  Reach-IsSoundWorld a b (next r step) s = Step-IsSoundWorld step (Reach-IsSoundWorld a _ r s)
