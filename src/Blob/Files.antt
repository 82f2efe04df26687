-- ===== src/Blob/Files.antt =====
-- internal/blob/fs.go and spool.go: the filesystem backend. The filesystem maps a path to the bytes
-- of the file there; directories are made when needed and hold nothing else. An operation takes the
-- answers of the calls that the operating system can fail, and returns the filesystem it leaves.
use sendan.Prelude.{
  ℕ, ◌≡◌, ◌↔◌, Bool, true, false, not, ◌&&◌, ◌||◌, Option, none, some, [], ◌∷◌, ◌++◌, Bytes, codes,
  ◌==◌, if◌then◌else◌, Result, ok, err, ◌>>=◌, ◌>>◌, length, bytes_eq, bytes_eq_iff, arith,
  blob_not_found, offset_mismatch, io_failure, Error, refuse_if,
}
use sendan.Blob.Names.{FilePath, final_path, partial_path, shard}

unfoldable pub path_eq : FilePath → FilePath → Bool
path_eq [] [] = true
path_eq [] (y ∷ q) = false
path_eq (x ∷ p) [] = false
path_eq (x ∷ p) (y ∷ q) = bytes_eq x y && path_eq p q

pub path_eq_iff : (p q : FilePath) → (path_eq p q ≡ true) ↔ (p ≡ q)
unfolding path_eq
path_eq_iff [] [] = ground arith
path_eq_iff [] (y ∷ q) = ground arith
path_eq_iff (x ∷ p) [] = ground arith
path_eq_iff (x ∷ p) (y ∷ q) = ground (arith, path_eq_iff p q, bytes_eq_iff x y)

abbrev pub Files : Type 0
Files = FilePath → Option Bytes

-- `os.WriteFile` and `os.Remove` as updates of the map.
unfoldable pub set_file : FilePath → Option Bytes → Files → Files
set_file p c fs q = if path_eq p q then c else fs q

-- What a copy gets from its source: the bytes that arrived, and whether it broke off. A cancelled
-- request breaks its reader off.
pub record Reader : Type 0 where
  pub content : Bytes
  pub broken : Bool

unfoldable pub temporary_name : Bytes → Bytes → Bytes
temporary_name id tag = codes "." ++ (id ++ (codes "." ++ (tag ++ codes ".partial")))

-- `Put`, with the random part of the temporary name, and the answer of the calls after the copy.
unfoldable pub put : Bytes → Bool → Bytes → Reader → Files → Files × Result ℕ
unfolding temporary_name
put tag failing id r fs = elim (final_path id) [
  | err e ↦ (fs, err e)
  | ok final ↦
      let tmp = shard id ++ temporary_name id tag ∷ [] in
      let written = set_file tmp (some r.content) fs in
      if r.broken || failing
      then (set_file tmp none written, err io_failure)
      else (set_file final (some r.content) (set_file tmp none written), ok (length r.content))
]

-- The bytes that an opened blob reads.
unfoldable pub open_blob : Bool → Bytes → Files → Result Bytes
open_blob failing id fs = do
  final ← final_path id
  refuse_if failing io_failure
  elim (fs final) [ none ↦ err blob_not_found | some c ↦ ok c ]

-- `(spool).remove`
unfoldable pub remove_partial : Bool → Bytes → Files → Files × Result (Unit {0})
remove_partial failing id fs = elim (partial_path id) [
  | err e ↦ (fs, err e)
  | ok partial ↦ if failing then (fs, err io_failure) else (set_file partial none fs, ok tt)
]

-- `Delete`: the blob, then the partial upload. A file that is not there is no failure.
unfoldable pub delete_blob : Bool → Bool → Bytes → Files → Files × Result (Unit {0})
unfolding remove_partial
delete_blob blob_fails partial_fails id fs = elim (final_path id) [
  | err e ↦ (fs, err e)
  | ok final ↦
      if blob_fails
      then (fs, err io_failure)
      else remove_partial partial_fails id (set_file final none fs)
]

abbrev pub contents : Option Bytes → Bytes
contents none = []
contents (some c) = c

-- What `WriteChunk` reports: the bytes written, and its error if any.
pub record Written : Type 0 where
  pub count : ℕ
  pub fault : Option Error

-- `(spool).writeChunk`: the file is created if it is absent, also when the offset is refused; what
-- arrived before a fault is kept. `setup_fails` is the calls before the copy, `sync_fails` the one
-- after it.
unfoldable pub write_chunk : Bool → Bool → Bytes → ℕ → Reader → Files → Files × Written
write_chunk setup_fails sync_fails id offset r fs = elim (partial_path id) [
  | err e ↦ (fs, record { count = 0; fault = some e })
  | ok partial ↦
      let stored = contents (fs partial) in
      let opened = set_file partial (some stored) fs in
      let grown = set_file partial (some (stored ++ r.content)) fs in
      if setup_fails
      then (fs, record { count = 0; fault = some io_failure })
      else if not (length stored == offset)
      then (opened, record { count = 0; fault = some offset_mismatch })
      else if r.broken || sync_fails
      then (grown, record { count = length r.content; fault = some io_failure })
      else (grown, record { count = length r.content; fault = none })
]

-- `(spool).length`
unfoldable pub partial_length : Bool → Bytes → Files → Result ℕ
partial_length failing id fs = do
  partial ← partial_path id
  refuse_if failing io_failure
  elim (fs partial) [ none ↦ err blob_not_found | some c ↦ ok (length c) ]

-- `Finish`: a rename, which replaces what stood at the blob's path.
unfoldable pub finish : Bool → Bytes → Files → Files × Result (Unit {0})
finish failing id fs = elim (partial_path id) [
  | err e ↦ (fs, err e)
  | ok partial ↦ elim (final_path id) [
    | err e ↦ (fs, err e)
    | ok final ↦ elim (fs partial) [
      | none ↦ (fs, err blob_not_found)
      | some c ↦
          if failing
          then (fs, err io_failure)
          else (set_file final (some c) (set_file partial none fs), ok tt)
    ]
  ]
]
