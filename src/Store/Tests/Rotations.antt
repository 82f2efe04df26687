-- ===== src/Store/Tests/Rotations.antt =====
-- The theorems on the master key at concrete keys.
use sendan.Prelude.{
  ℕ, ◌*◌, ◌≡◌, refl, Option, none, some, [], ◌∷◌, ◌++◌, Bytes, codes, replicate, ok, err, arith,
  length, length-replicate, wrong_master_key, false, not_found, if◌then◌else◌,
}
use sendan.Prelude.Int.{pos}
use sendan.Crypto.Aead.{clear_aead}
use sendan.Store.Upload.{Upload, second, live, validate}
use sendan.Store.Table.{Row, Table, create, find_row, to_row, unix, complete_upload, set_completed}
use sendan.Store.Writing.{stored}
use sendan.Store.MasterKey.{
  wrap, rewrap_one, rekey, wrapped_size, create_wrapped, get_wrapped, pending_wrapped,
  record_served_wrapped,
}
use sendan.Store.MasterKey.Wrapping.{create_wrapped-read}
use sendan.Store.MasterKey.Rotation.{AllRotated, rekey-AllRotated, rewrap_one_again}
use sendan.Store.Tests.{row_a, row_b, upload_a}

abbrev master : Bytes
master = replicate 32 9

abbrev nonce : Bytes
nonce = replicate 12 8

abbrev key : Bytes
key = replicate 32 7

abbrev wrapped_key : Bytes
wrapped_key = 1 ∷ (nonce ++ clear_aead.seal master nonce key [])

abbrev raw_table : Table
raw_table = row_a ∷ row_b ∷ []

abbrev wrapped_table : Table
wrapped_table =
    record row_a { at_rest_key = wrapped_key } ∷ record row_b { at_rest_key = wrapped_key } ∷ []

rekey-AllRotated_example : AllRotated clear_aead none (some master) raw_table wrapped_table
unfolding rekey rewrap_one wrap sendan.Prelude.bytes_eq
rekey-AllRotated_example =
    rekey-AllRotated clear_aead none (some master) (λ i. nonce) (λ i. refl) raw_table wrapped_table
      2 refl

rewrap_one_again_example :
    rewrap_one clear_aead none (some master) nonce wrapped_key ≡ err wrong_master_key
unfolding rewrap_one wrap
rewrap_one_again_example = rewrap_one_again clear_aead master nonce nonce key wrapped_key refl refl

abbrev pending_row : Row
pending_row = record row_a { at_rest_key = wrapped_key }

abbrev complete_row : Row
complete_row = record pending_row { completed_at = some 9 }

create_wrapped-read_example :
    let v = record (stored upload_a) { completed_at = unix (9 * second) * second } in
    ((r : Row) × (find_row upload_a.id (pending_row ∷ []) ≡ some r)
      × (length r.at_rest_key ≡ wrapped_size))
    × (pending_wrapped clear_aead false master upload_a.id (pending_row ∷ [])
        ≡ ok (stored upload_a))
    × (get_wrapped clear_aead false master upload_a.id (50 * second) (complete_row ∷ [])
        ≡ (if live v (50 * second) then ok v else err not_found))
    × ((p : Table × Upload) × (record_served_wrapped clear_aead false master upload_a.id
            (pos 4)
            (complete_row ∷ [])
          ≡ ok p)
        × (p.1.at_rest_key ≡ key))
unfolding create_wrapped create to_row unix find_row wrap validate sendan.Prelude.bytes_eq
    complete_upload set_completed sendan.Store.Table.update_where
create_wrapped-read_example =
    create_wrapped-read clear_aead nonce master upload_a [] (pending_row ∷ []) (complete_row ∷ [])
      (9 * second) (50 * second) 4 refl refl refl refl refl
