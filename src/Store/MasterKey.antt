-- ===== src/Store/MasterKey.antt =====
-- internal/store/masterkey.go and rekey.go: at-rest keys stored under an operator's master key, and
-- the rotation of that key.
pub mod Wrapping
pub mod Rotation
use sendan.Prelude.{
  ℕ, zero, suc, ◌+◌, ◌≡◌, refl, Bool, true, false, not, ◌&&◌, ◌||◌, Option, none, some, List, [],
  ◌∷◌, ◌++◌, Bytes, bytes_eq, ◌==◌, if◌then◌else◌, is_empty, Result, ok, err, ◌>>=◌, ◌>>◌,
  refuse_if, length, take, drop, io_failure, master_key_size, wrong_master_key, bad_key_format,
  no_master_key,
}
use sendan.Prelude.Int.{ℤ}
use sendan.Crypto.Aead.{Aead, nonce_size}
use sendan.Store.Upload.{Upload}
use sendan.Store.Table.{Row, Table, create, get, pending, record_served}

abbrev pub key_size : ℕ
key_size = 32

-- The version byte of a wrapped key.
abbrev pub wrapped_v1 : ℕ
wrapped_v1 = 1

-- A version byte, a nonce, and the key with its tag.
abbrev pub wrapped_size : ℕ
wrapped_size = 1 + 12 + 32 + 16

abbrev first_byte : Bytes → ℕ
first_byte [] = 0
first_byte (x ∷ xs) = x

-- The check of `WithMasterKey`; a `wrapping` is then its master key.
unfoldable pub with_master_key : Bytes → Result Bytes
with_master_key key = if length key == key_size then ok key else err master_key_size

module _ (aead : Aead) where
  -- `nonce` is what the random source gives, and with `failing` it gives nothing.
  unfoldable pub wrap : Bool → Bytes → Bytes → Bytes → Result Bytes
  wrap failing nonce master key = do
    refuse_if failing io_failure
    ok (wrapped_v1 ∷ (nonce ++ aead.seal master nonce key []))

  unfoldable pub unwrap : Bytes → Bytes → Result Bytes
  unwrap master stored =
      if length stored == key_size
      then ok stored
      else if not (length stored == wrapped_size)
      then err bad_key_format
      else if not (first_byte stored == wrapped_v1)
      then err bad_key_format
      else elim (aead.unseal master (take nonce_size (drop 1 stored)) (drop (1 + nonce_size) stored)
          []) [ none ↦ err wrong_master_key | some key ↦ ok key ]

  -- `opened`: the upload with its key in the clear.
  unfoldable pub opened : Bytes → Upload → Result Upload
  opened master u = do key ← unwrap master u.at_rest_key; ok (record u { at_rest_key = key })

  -- `(*wrapping).Create`: the row holds the wrapped key and the caller keeps its own.
  unfoldable pub create_wrapped : Bool → Bool → Bytes → Bytes → Upload → Table → Result Table
  create_wrapped no_random failing nonce master u t = do
    wrapped ← wrap no_random nonce master u.at_rest_key
    create failing (record u { at_rest_key = wrapped }) t

  unfoldable pub get_wrapped : Bool → Bytes → Bytes → ℕ → Table → Result Upload
  get_wrapped failing master k now t = do u ← get failing k now t; opened master u

  unfoldable pub pending_wrapped : Bool → Bytes → Bytes → Table → Result Upload
  pending_wrapped failing master k t = do u ← pending failing k t; opened master u

  unfoldable pub record_served_wrapped : Bool → Bytes → Bytes → ℤ → Table → Result (Table × Upload)
  record_served_wrapped failing master k n t = do
    p ← record_served failing k n t
    u ← opened master p.1
    ok (p.0, u)

  abbrev optional_key : Bytes → Result (Option Bytes)
  optional_key [] = ok none
  optional_key (x ∷ xs) = with_master_key (x ∷ xs) >>= λ key. ok (some key)

  -- What the transformation that `Rewrap` returns does to one stored key.
  unfoldable pub open_stored : Option Bytes → Bytes → Result Bytes
  open_stored none stored =
      if not (length stored == key_size) then err wrong_master_key else ok stored
  open_stored (some master) stored = unwrap master stored

  unfoldable pub close_stored : Option Bytes → Bytes → Bytes → Result Bytes
  close_stored none nonce key = ok key
  close_stored (some master) nonce key = wrap false nonce master key

  unfoldable pub rewrap_one : Option Bytes → Option Bytes → Bytes → Bytes → Result Bytes
  unfolding open_stored close_stored
  rewrap_one from to nonce stored = do key ← open_stored from stored; close_stored to nonce key

  -- The checks of `Rewrap`: the two keys that the transformation works with.
  unfoldable pub rewrap : Bytes → Bytes → Result (Option Bytes × Option Bytes)
  rewrap old_key new_key = do
    refuse_if (is_empty old_key && is_empty new_key) no_master_key
    from ← optional_key old_key
    to ← optional_key new_key
    ok (from, to)

-- `rekey`: the rows in order, each passed through `fn` with its position. The transaction is rolled
-- back on the first error, so an error leaves no table behind.
unfoldable pub rekey_rows : (ℕ → Bytes → Result Bytes) → ℕ → Table → Result (Table × ℕ)
rekey_rows fn i [] = ok ([], 0)
rekey_rows fn i (r ∷ t) = do
  next ← fn i r.at_rest_key
  rest ← rekey_rows fn (suc i) t
  ok (
    record r { at_rest_key = next } ∷ rest.0,
    if bytes_eq next r.at_rest_key then rest.1 else suc rest.1,
  )

unfoldable pub rekey : Bool → (ℕ → Bytes → Result Bytes) → Table → Result (Table × ℕ)
unfolding rekey_rows
rekey failing fn t = do refuse_if failing io_failure; rekey_rows fn 0 t
