-- ===== src/Http/ClientAddr.antt =====
-- internal/httpapi/clientaddr.go: the key that a request is charged against.
use sendan.Prelude.{
  ℕ, ◌-◌, ◌||◌, Option, none, some, List, [], ◌∷◌, ◌++◌, Bytes, codes, bytes_eq, is_empty, ltb, leb,
  ◌==◌, if◌then◌else◌, length, take, drop, get_or, replicate,
}
use sendan.Prelude.Int.{ℤ, pos, pos_part, ltb_ℤ}

-- What the code calls of `strings` and `net`: `TrimSpace`, the host of `SplitHostPort` unless that fails,
-- `ParseIP`, whose answer has sixteen octets, and `IP.String`.
pub record NetLib : Type 0 where
  pub trim_space : Bytes → Bytes
  pub split_host : Bytes → Option Bytes
  pub parse_ip : Bytes → Option Bytes
  pub ip_string : Bytes → Bytes

abbrev pub comma : ℕ
comma = 44

-- `strings.Split(line, ",")`
abbrev pub onto_first : ℕ → List Bytes → List Bytes
onto_first c [] = (c ∷ []) ∷ []
onto_first c (x ∷ xs) = (c ∷ x) ∷ xs

unfoldable pub split_commas : Bytes → List Bytes
split_commas [] = [] ∷ []
split_commas (c ∷ cs) =
    let rest = split_commas cs in if c == comma then [] ∷ rest else onto_first c rest

-- `IP.To4`: the last four octets behind the prefix of a mapped address.
abbrev pub mapped_prefix : Bytes
mapped_prefix = replicate 10 0 ++ 255 ∷ 255 ∷ []

unfoldable pub to4 : Bytes → Option Bytes
to4 ip = if bytes_eq (take 12 ip) mapped_prefix then some (drop 12 ip) else none

-- `ip.Mask(net.CIDRMask(ipv6BucketBits, 128))`
unfoldable pub mask64 : Bytes → Bytes
mask64 ip = take 8 ip ++ replicate 8 0

module _ (lib : NetLib) where
  -- The loop over the entries of one line.
  unfoldable pub entries_of : List Bytes → List Bytes
  entries_of [] = []
  entries_of (raw ∷ rest) =
      let v = lib.trim_space raw in
      let more = entries_of rest in if is_empty v then more else v ∷ more

  -- `forwardedFor`, on the lines of the header.
  unfoldable pub forwarded_for : List Bytes → List Bytes
  unfolding entries_of split_commas
  forwarded_for [] = []
  forwarded_for (line ∷ lines) = entries_of (split_commas line) ++ forwarded_for lines

  unfoldable pub host_only : Bytes → Bytes
  host_only addr = elim (lib.split_host addr) [ some host ↦ host | none ↦ lib.trim_space addr ]

  unfoldable pub bucket_key : Bytes → Bytes
  unfolding host_only to4 mask64
  bucket_key addr =
      let host = host_only addr in
      elim (lib.parse_ip host) [
        | none ↦ host
        | some ip ↦ elim (to4 ip) [
          | some v4 ↦ lib.ip_string v4
          | none ↦ lib.ip_string (mask64 ip) ++ codes "/64"
        ]
      ]

  -- `clientAddr`, on the peer's address and the lines of the header.
  unfoldable pub client_addr : Bytes → List Bytes → ℤ → Bytes
  unfolding bucket_key forwarded_for
  client_addr remote lines trusted =
      let direct = host_only remote in
      let entries = forwarded_for lines in
      let i = length entries - pos_part trusted in
      if ltb_ℤ trusted (pos 1)
      then bucket_key direct
      else if ltb (length entries) (pos_part trusted) || leb (length entries) i
      then bucket_key direct
      else bucket_key (get_or entries i [])
