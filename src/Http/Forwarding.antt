-- ===== src/Http/Forwarding.antt =====
-- internal/httpapi/clientaddr.go: what a caller can and cannot choose of the key.
use mathlib.Core.Path.{ap₂}
use sendan.Prelude.{
  ℕ, zero, suc, ◌+◌, ◌-◌, ◌≡◌, refl, sym, ap, ◌∙◌, Bool, true, false, ◌||◌, Option, none, some,
  List, [], ◌∷◌, ◌++◌, Bytes, codes, is_empty, ltb, leb, ◌==◌, if◌then◌else◌, length, length-append,
  get_or, take, append_assoc, append-nil, arith, any_of, replicate,
}
use sendan.Prelude.Int.{pos, ltb_ℤ}
use sendan.Http.ClientAddr.{
  NetLib, comma, split_commas, onto_first, entries_of, forwarded_for, host_only, bucket_key,
  client_addr, to4, mask64,
}

abbrev has_comma : Bytes → Bool
has_comma = any_of (λ c. c == comma)

-- One octet in front of what is split.
abbrev split_step : ℕ → Bool → List Bytes → List Bytes
split_step c sep rest = if sep then [] ∷ rest else onto_first c rest

split_step-append :
    (c : ℕ) (sep : Bool) (xs ys : List Bytes)
    → is_empty xs ≡ false
    → split_step c sep (xs ++ ys) ≡ split_step c sep xs ++ ys
split_step-append c sep [] ys h = absurd (ground (arith, h))
split_step-append c true (x ∷ xs) ys h = refl
split_step-append c false (x ∷ xs) ys h = refl

split_commas_some : (a : Bytes) → is_empty (split_commas a) ≡ false
unfolding split_commas
split_commas_some [] = refl
split_commas_some (c ∷ a) = some_step (c == comma) (split_commas a)
  where
    some_step : (sep : Bool) (rest : List Bytes) → is_empty (split_step c sep rest) ≡ false
    some_step true rest = refl
    some_step false [] = refl
    some_step false (x ∷ rest) = refl

-- Text behind a comma is split on its own.
split_commas-append :
    (a b : Bytes) → split_commas (a ++ comma ∷ b) ≡ split_commas a ++ split_commas b
unfolding split_commas
split_commas-append [] b = refl
split_commas-append (c ∷ a) b =
    ap (split_step c (c == comma)) (split_commas-append a b)
    ∙ split_step-append c (c == comma) (split_commas a) (split_commas b) (split_commas_some a)

split_commas_whole : (a : Bytes) → has_comma a ≡ false → split_commas a ≡ a ∷ []
unfolding split_commas
split_commas_whole [] h = refl
split_commas_whole (c ∷ a) h =
    let other : (c == comma) ≡ false = ground (arith, h) in
    let rest : has_comma a ≡ false = ground (arith, h) in
    ap₂ (split_step c) other (split_commas_whole a rest)

module _ (lib : NetLib) where
  -- The address of a host, as a proxy writes it.
  pub record IsAddress (a : Bytes) : Type 0 where
    pub one_entry : has_comma a ≡ false
    pub given : is_empty a ≡ false
    pub trimmed : lib.trim_space a ≡ a
    pub behind_space : lib.trim_space (32 ∷ a) ≡ a

  -- What a proxy makes of the header: it appends the address that it observed, on a line of its own or
  -- to the last line.
  pub data Hop (a : Bytes) (lines lines' : List Bytes) : Type 0 where
    own_line : lines' ≡ lines ++ a ∷ [] → Hop a lines lines'
    last_line :
        (before : List Bytes) (l : Bytes)
        → lines ≡ before ++ l ∷ []
        → lines' ≡ before ++ (l ++ comma ∷ 32 ∷ a) ∷ []
        → Hop a lines lines'

  -- A request through proxies, from the outermost to the nearest, with the addresses that they observe.
  pub data Hops : List Bytes → List Bytes → List Bytes → Type 0 where
    arrived : {lines : List Bytes} → Hops [] lines lines
    through :
        {a : Bytes} {observed lines lines'' : List Bytes} (lines' : List Bytes)
        → IsAddress a
        → Hop a lines lines'
        → Hops observed lines' lines''
        → Hops (a ∷ observed) lines lines''

  entry_step-append :
      (v : Bytes) (skip : Bool) (xs ys : List Bytes)
      → (if skip then xs ++ ys else v ∷ (xs ++ ys)) ≡ (if skip then xs else v ∷ xs) ++ ys
  entry_step-append v true xs ys = refl
  entry_step-append v false xs ys = refl

  entries_of-append :
      (a b : List Bytes) → entries_of lib (a ++ b) ≡ entries_of lib a ++ entries_of lib b
  unfolding entries_of
  entries_of-append [] b = refl
  entries_of-append (raw ∷ a) b =
      let v = lib.trim_space raw in
      ap (λ t. if is_empty v then t else v ∷ t) (entries_of-append a b)
      ∙ entry_step-append v (is_empty v) (entries_of lib a) (entries_of lib b)

  forwarded_for-append :
      (a b : List Bytes) → forwarded_for lib (a ++ b) ≡ forwarded_for lib a ++ forwarded_for lib b
  unfolding forwarded_for
  forwarded_for-append [] b = refl
  forwarded_for-append (l ∷ a) b =
      ap (λ t. entries_of lib (split_commas l) ++ t) (forwarded_for-append a b)
      ∙ sym (append_assoc (entries_of lib (split_commas l)) _ _)

  entries_of_one :
      (raw v : Bytes)
      → lib.trim_space raw ≡ v
      → is_empty v ≡ false
      → entries_of lib (raw ∷ []) ≡ v ∷ []
  unfolding entries_of
  entries_of_one raw v e h =
      ap (λ t. if is_empty t then [] else t ∷ []) e ∙ ap (λ b. if b then [] else v ∷ []) h

  behind_comma : (a : Bytes) → has_comma a ≡ false → has_comma (32 ∷ a) ≡ false
  behind_comma a h = ground (arith, h)

  -- Each hop adds one entry, the last.
  forwarded_for-Hop :
      (a : Bytes) (lines lines' : List Bytes)
      → IsAddress a
      → Hop a lines lines'
      → forwarded_for lib lines' ≡ forwarded_for lib lines ++ a ∷ []
  unfolding forwarded_for
  forwarded_for-Hop a lines lines' h (own_line e) =
      ap (forwarded_for lib) e
      ∙ forwarded_for-append lines (a ∷ [])
      ∙ ap (λ t. forwarded_for lib lines ++ t)
          (append-nil (entries_of lib (split_commas a))
            ∙ ap (entries_of lib) (split_commas_whole a h.one_entry)
            ∙ entries_of_one a a h.trimmed h.given)
  forwarded_for-Hop a lines lines' h (last_line before l e e') =
      let tail_ : entries_of lib (split_commas (l ++ comma ∷ 32 ∷ a))
          ≡ entries_of lib (split_commas l) ++ a ∷ [] =
        ap (entries_of lib) (split_commas-append l (32 ∷ a))
        ∙ entries_of-append (split_commas l) (split_commas (32 ∷ a))
        ∙ ap (λ t. entries_of lib (split_commas l) ++ t)
            (ap (entries_of lib) (split_commas_whole (32 ∷ a) (behind_comma a h.one_entry))
              ∙ entries_of_one (32 ∷ a) a h.behind_space h.given) in
      let one = λ (x : Bytes).
        forwarded_for-append before (x ∷ [])
        ∙ ap (λ t. forwarded_for lib before ++ t) (append-nil (entries_of lib (split_commas x))) in
      ap (forwarded_for lib) e'
      ∙ one (l ++ comma ∷ 32 ∷ a)
      ∙ ap (λ t. forwarded_for lib before ++ t) tail_
      ∙ sym (append_assoc (forwarded_for lib before) (entries_of lib (split_commas l)) (a ∷ []))
      ∙ ap (λ t. t ++ a ∷ []) (sym (ap (forwarded_for lib) e ∙ one l))

  forwarded_for-Hops :
      (observed lines lines' : List Bytes)
      → Hops observed lines lines'
      → forwarded_for lib lines' ≡ forwarded_for lib lines ++ observed
  forwarded_for-Hops _ lines _ arrived = sym (append-nil (forwarded_for lib lines))
  forwarded_for-Hops _ lines lines'' (through {a} {observed} lines' h hop rest) =
      forwarded_for-Hops observed lines' lines'' rest
      ∙ ap (λ t. t ++ observed) (forwarded_for-Hop a lines lines' h hop)
      ∙ append_assoc (forwarded_for lib lines) (a ∷ []) observed

  get_or_behind :
      (xs ys : List Bytes) (n : ℕ) → n ≡ length xs → get_or (xs ++ ys) n [] ≡ get_or ys 0 []
  get_or_behind [] ys n e = ap (λ m. get_or ys m []) e
  get_or_behind (x ∷ xs) ys zero e = absurd (omega (arith, e))
  get_or_behind (x ∷ xs) ys (suc n) e = get_or_behind xs ys n (omega (arith, e))

  -- `clientAddr`, with what it tests and picks.
  abbrev choose : Bytes → Bool → Bool → Bytes → Bytes
  choose remote none_trusted short entry =
      if none_trusted
      then bucket_key lib (host_only lib remote)
      else if short
      then bucket_key lib (host_only lib remote)
      else bucket_key lib entry

  abbrev chosen : Bytes → ℕ → List Bytes → Bytes
  chosen remote trusted entries =
      let i = length entries - trusted in
      choose remote (ltb_ℤ (pos trusted) (pos 1))
        (ltb (length entries) trusted || leb (length entries) i) (get_or entries i [])

  some_trusted : (n : ℕ) → ltb_ℤ (pos (suc n)) (pos 1) ≡ false
  some_trusted n = ground arith

  long_enough : (n k : ℕ) → (ltb (n + suc k) (suc k) || leb (n + suc k) (n + suc k - suc k)) ≡ false
  long_enough n k = ground arith

  -- The caller does not choose its key: behind as many proxies as are trusted, and at least one, the key
  -- is that of the address which the outermost of them observed, whatever lines of the header the caller sends, and
  -- whichever address the nearest proxy has.
  pub client_addr-Hops :
      (a remote : Bytes) (observed forged lines : List Bytes)
      → Hops (a ∷ observed) forged lines
      → client_addr lib remote lines (pos (length (a ∷ observed))) ≡ bucket_key lib a
  unfolding client_addr
  client_addr-Hops a remote observed forged lines hops =
      let entries = forwarded_for lib forged in
      let list = forwarded_for-Hops (a ∷ observed) forged lines hops in
      let k = length observed in
      let size = length-append entries (a ∷ observed) in
      let at = length (entries ++ a ∷ observed) - suc k in
      let entry : get_or (entries ++ a ∷ observed) at [] ≡ a =
        get_or_behind entries (a ∷ observed) at (omega (arith, size)) in
      ap (chosen remote (suc k)) list
      ∙ ap₂
          (λ b x.
            choose remote b
              (ltb (length (entries ++ a ∷ observed)) (suc k)
                || leb (length (entries ++ a ∷ observed)) at)
              x)
          (some_trusted k) entry
      ∙ ap (λ b. choose remote false b a)
          (ap (λ (n : ℕ). ltb n (suc k) || leb n (n - suc k)) size ∙ long_enough (length entries) k)

  -- `bucketKey` behind the parser, and behind the test for a mapped address.
  abbrev of_version : Bytes → Option Bytes → Bytes
  of_version ip mapped = elim mapped [
    | some v4 ↦ lib.ip_string v4
    | none ↦ lib.ip_string (mask64 ip) ++ codes "/64"
  ]

  abbrev of_ip : Bytes → Option Bytes → Bytes
  of_ip host parsed = elim parsed [ none ↦ host | some ip ↦ of_version ip (to4 ip) ]

  key_of_v6 :
      (a ip : Bytes)
      → lib.parse_ip (host_only lib a) ≡ some ip
      → to4 ip ≡ none
      → bucket_key lib a ≡ lib.ip_string (mask64 ip) ++ codes "/64"
  unfolding bucket_key
  key_of_v6 a ip h n = ap (of_ip (host_only lib a)) h ∙ ap (of_version ip) n

  -- Addresses of one /64 share a key: two that are not mapped addresses of the older protocol, and agree in their first eight
  -- octets.
  pub bucket_key_shared :
      (a b ip_a ip_b : Bytes)
      → lib.parse_ip (host_only lib a) ≡ some ip_a
      → lib.parse_ip (host_only lib b) ≡ some ip_b
      → to4 ip_a ≡ none
      → to4 ip_b ≡ none
      → take 8 ip_a ≡ take 8 ip_b
      → bucket_key lib a ≡ bucket_key lib b
  unfolding mask64
  bucket_key_shared a b ip_a ip_b ha hb na nb e =
      key_of_v6 a ip_a ha na
      ∙ ap (λ net. lib.ip_string (net ++ replicate 8 0) ++ codes "/64") e
      ∙ sym (key_of_v6 b ip_b hb nb)
