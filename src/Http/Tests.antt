-- ===== src/Http/Tests.antt =====
-- The theorems of the HTTP layer at concrete values.
use sendan.Prelude.{◌≡◌, refl, none, some, [], ◌∷◌, ◌++◌, Bytes, codes, length, if◌then◌else◌, ◌==◌}
use sendan.Prelude.Int.{pos}
use sendan.Http.ClientAddr.{NetLib, client_addr, bucket_key}
use sendan.Http.Forwarding.{IsAddress, through, arrived, own_line, last_line, client_addr-Hops}

-- An address is its octets, and has no port; a space in front is trimmed.
abbrev strip_space : Bytes → Bytes
strip_space [] = []
strip_space (c ∷ s) = if c == 32 then s else c ∷ s

abbrev plain_net : NetLib
plain_net = record {
  trim_space = strip_space;
  split_host = λ addr. none;
  parse_ip = λ addr. if length addr == 16 then some addr else none;
  ip_string = λ ip. ip;
}

abbrev client : Bytes
client = codes "1.2.3.4"

abbrev proxy : Bytes
proxy = codes "10.0.0.1"

client-IsAddress : IsAddress plain_net client
client-IsAddress = record { one_entry = refl; given = refl; trimmed = refl; behind_space = refl }

proxy-IsAddress : IsAddress plain_net proxy
proxy-IsAddress = record { one_entry = refl; given = refl; trimmed = refl; behind_space = refl }

-- The caller sends a header of two entries; the outer proxy appends to that line, and the inner has one of its own.
client_addr-Hops_example :
    client_addr plain_net
      (codes "10.0.0.2")
      ((codes "9.9.9.9,8.8.8.8" ++ codes ", 1.2.3.4") ∷ codes "10.0.0.1" ∷ [])
      (pos 2)
    ≡ bucket_key plain_net client
client_addr-Hops_example =
    client_addr-Hops plain_net client (codes "10.0.0.2") (proxy ∷ []) (codes "9.9.9.9,8.8.8.8" ∷ [])
      ((codes "9.9.9.9,8.8.8.8" ++ codes ", 1.2.3.4") ∷ codes "10.0.0.1" ∷ [])
      (through ((codes "9.9.9.9,8.8.8.8" ++ codes ", 1.2.3.4") ∷ []) client-IsAddress
        (last_line [] (codes "9.9.9.9,8.8.8.8") refl refl)
        (through _ proxy-IsAddress (own_line refl) arrived))
