-- ===== src/Compat/Counting.antt =====
-- Downloads through internal/compat/download.go are counted, so that the limit of an upload binds.
use native.Mathlib.Nat.{suc-mul, mul-div_cancel}
use mathlib.Core.Option
use mathlib.Core.Path.{subst}
use sendan.Prelude.{
  ℕ, zero, suc, ◌+◌, ◌*◌, ◌/◌, ◌≤◌, ◌<◌, ◌≡◌, refl, sym, ap, ◌∙◌, true, false, none, some, Bytes,
  bytes_eq_refl, ok, err, not_found, arith, length, take, ltb, lt→ltb,
}
use sendan.Prelude.Int.{pos}
use sendan.Store.Upload.{live, expired, exhausted, complete}
use sendan.Store.Table.{Row, find_row, update_where, get, scan_upload, add_served}
use sendan.Store.Lookup.{find_row-update_self}
use sendan.Store.Writing.{add_served-id, record_served_found}
use sendan.Store.Reading.{get_dead}
use sendan.Blob.Shredder.{Cipher, shred_read}
use sendan.Upload.Attempts.{Attempts}
use sendan.Compat.Rows.{CompatTable}
use sendan.Compat.Auth.{Library, AuthCalls}
use sendan.Compat.Receiving.{CompatWorld, with_table}
use sendan.Compat.Serving.{
  Answer, DownloadCalls, file, plain, authorize_download, bearer_token, download_token,
  handle_download, with_rows, count_served,
}
use sendan.Compat.Fetching.{download_authorized, get-live, reaching}

-- A row after a number of whole downloads.
abbrev served : Row → ℕ → Row
served r k = record r { download_count = k; bytes_served = k * r.size }

add_served-served :
    (r : Row) (k : ℕ) → 1 ≤ r.size → add_served r.size (served r k) ≡ served r (suc k)
unfolding add_served
add_served-served r k h =
    let sum : k * r.size + r.size ≡ suc k * r.size = sym (suc-mul k r.size) in
    let count : (k * r.size + r.size) / r.size ≡ suc k =
      ap (λ n. n / r.size) sum ∙ mul-div_cancel (suc k) h in
    rw (lt→ltb 0 r.size h, count, sum) refl

live-served :
    (r : Row) (k m now : ℕ)
    → r.max_downloads ≡ m
    → live (scan_upload (served r 0)) now ≡ true
    → 1 ≤ m
    → live (scan_upload (served r k)) now ≡ ltb k m
unfolding live scan_upload expired exhausted complete
live-served r k m now limit lives h = ground arith

module _ (tries : Attempts) (digest : Bytes → Bytes) (lib : Library) (cipher : Cipher)
    (id header : Bytes) (now accepted : ℕ) (auth : AuthCalls) where
  -- A client that fetches the whole content again and again with the same token.
  unfoldable pub downloaded : ℕ → CompatWorld tries digest → CompatWorld tries digest
  downloaded zero c = c
  downloaded (suc n) c =
      (handle_download tries digest lib cipher auth (reaching false accepted) header id now
        (downloaded n c)).0

  unreachable :
      (other : AuthCalls) (d : DownloadCalls) (anything : Bytes) (c : CompatWorld tries digest)
      → d.get_fails ≡ false
      → get false id now c.world.table ≡ err not_found
      → handle_download tries digest lib cipher other d anything id now c ≡ (c, plain 404 none)
  unfolding handle_download
  unreachable other d anything c gets missing = rw (handle_download, gets, missing) refl

  module _ (r : Row) (content : Bytes) (filled : 1 ≤ r.size) (sized : length content ≡ r.size)
      (all_taken : take accepted content ≡ content) (m : ℕ) (limit : r.max_downloads ≡ m)
      (bounded : 1 ≤ m) (lives : live (scan_upload (served r 0)) now ≡ true)
      (token_right : bearer_token lib header ≡ some (download_token lib r.at_rest_key id)) where
    -- The state after a number of downloads.
    record IsServed (k : ℕ) (c : CompatWorld tries digest) : Type 0 where
      row : find_row id c.world.table ≡ some (served r k)
      read : shred_read cipher false id r.at_rest_key 0 c.world.files ≡ ok content

    passes :
        (rows : CompatTable)
        → authorize_download lib auth header id r.at_rest_key rows ≡ (rows, (none, none))
    unfolding authorize_download
    passes rows =
        rw (authorize_download, token_right, bytes_eq_refl (download_token lib r.at_rest_key id))
          refl

    served_key : (k : ℕ) → (scan_upload (served r k)).at_rest_key ≡ r.at_rest_key
    unfolding scan_upload
    served_key k = refl

    served_answer : Answer
    served_answer = record { status = 200; offered = none; body = file content (pos r.size) }

    counted_world :
        (n : ℕ) (c : CompatWorld tries digest) (row : Row)
        → 1 ≤ n
        → find_row id c.world.table ≡ some row
        → count_served tries digest lib false id n c
          ≡ with_table tries digest (update_where id (add_served n) c.world.table) c
    unfolding count_served
    counted_world n c row some_bytes found =
        rw (count_served, lt→ltb 0 n some_bytes, record_served_found id n c.world.table row found)
          refl

    counted-IsServed :
        (k : ℕ) (c : CompatWorld tries digest)
        → IsServed k c
        → IsServed
            (suc k)
            (with_table tries digest (update_where id (add_served r.size) c.world.table) c)
    unfolding with_table
    counted-IsServed k c s = record {
      row =
          find_row-update_self id (add_served r.size) (add_served-id r.size) c.world.table
          ∙ ap (Option.map (add_served r.size)) s.row
          ∙ ap some (add_served-served r k filled);
      read = s.read;
    }

    -- One more download, while the count is below the limit.
    download_one :
        (k : ℕ) (c : CompatWorld tries digest)
        → ltb k m ≡ true
        → IsServed k c
        → let (after, answer) =
            handle_download tries digest lib cipher auth
              (reaching false accepted)
              header
              id
              now
              c in
          (answer ≡ served_answer) × IsServed (suc k) after
    unfolding served_answer scan_upload with_rows
    download_one k c below s =
        let u = scan_upload (served r k) in
        let found =
          get-live id now c.world.table (served r k) s.row
            (live-served r k m now limit lives bounded ∙ below) in
        let authorized = passes c.rows in
        let whole =
          download_authorized tries digest lib cipher auth (reaching false accepted) header id now c
            u content found (ap (λ x. x.1.1) authorized) s.read in
        let sent : length (take accepted content) ≡ r.size = ap length all_taken ∙ sized in
        let counted =
          ap
            (λ x.
              count_served tries digest lib false id (length (take accepted content))
                (with_rows tries digest x.0 c))
            authorized
          ∙ ap (λ n. count_served tries digest lib false id n c) sent
          ∙ counted_world r.size c (served r k) filled s.row in
        (
          ap (λ x. x.1) whole
              ∙ ap
                  (λ x. record {
                    status = 200;
                    offered = x.1.0;
                    body = file (take accepted content) (pos r.size);
                  })
                  authorized
              ∙ ap (λ b. record { status = 200; offered = none; body = file b (pos r.size) })
                  all_taken,
          subst (IsServed (suc k)) (sym (ap (λ x. x.0) whole ∙ counted)) (counted-IsServed k c s),
        )

    downloaded-IsServed :
        (k : ℕ) (c : CompatWorld tries digest) → k ≤ m → IsServed 0 c → IsServed k (downloaded k c)
    unfolding downloaded
    downloaded-IsServed zero c h s = s
    downloaded-IsServed (suc k) c h s =
        (download_one k (downloaded k c) (lt→ltb k m h) (downloaded-IsServed k c (omega arith) s)).1

    -- The limit of an upload binds: of a client that fetches the whole content again and again with a
    -- valid token, each of the first `m` requests is answered with all of it, where `m` is the limit,
    -- and after them every request is answered as one for an upload that is not there, whatever
    -- it presents. The size recorded is that of the content and is not zero, the upload is
    -- live before the first request and no call fails.
    pub downloads_limited :
        (k : ℕ) (c : CompatWorld tries digest) (other : AuthCalls) (d : DownloadCalls)
        (anything : Bytes)
        → find_row id c.world.table ≡ some (served r 0)
        → shred_read cipher false id r.at_rest_key 0 c.world.files ≡ ok content
        → d.get_fails ≡ false
        → k < m
        → ((handle_download tries digest lib cipher auth
              (reaching false accepted)
              header
              id
              now
              (downloaded k c)).1
            ≡ record { status = 200; offered = none; body = file content (pos r.size) })
          × (handle_download tries digest lib cipher other d anything id now (downloaded m c)
              ≡ (downloaded m c, plain 404 none))
    unfolding served_answer
    downloads_limited k c other d anything row read gets below =
        let start : IsServed 0 c = record { row = row; read = read } in
        let before = downloaded-IsServed k c (omega arith) start in
        let after = downloaded-IsServed m c (omega arith) start in
        let dead : live (scan_upload (served r m)) now ≡ false =
          live-served r m m now limit lives bounded ∙ (ground arith) in
        (
          (download_one k (downloaded k c) (lt→ltb k m below) before).0,
          unreachable other d anything (downloaded m c) gets
              (get_dead id now (downloaded m c).world.table (served r m) after.row dead),
        )
