-- ===== src/Proxy/PurgeHosts.antt =====
-- internal/proxy/handler.go, `purgeHosts`: the site hosts that a PURGE is sent with.
pub mod Laws
use cloud_vinyl.Prelude.{
  ℕ, zero, suc, ◌+◌, ◌-◌, ◌*◌, ◌/◌, ◌%◌, ◌^◌, ◌≤◌, ◌<◌, ◌≡◌, refl, sym, ap, ◌∙◌, ◌≢◌, ◌↔◌, ◌⊎◌, inl,
  inr, ite, if_pos, if_neg, Bool, true, false, not, ◌&&◌, ◌||◌, Option, none, some, List, [], ◌∷◌,
  ◌++◌, map, append-nil, append_assoc, map-append, arith, ℕ_discrete, ltb, leb, ◌==◌, if◌then◌else◌,
  ltb→lt, leb→le, le→leb, Bool-cases, is_some, Option-cases, length, length-append, keep,
  length-keep-le, count, count-append, keep-append, keep-length_split, All, All-append, elem,
  Distinct, elem-append, Distinct-snoc, Text, codes, text_dec, text_eq, has_prefix, contains,
  is_space, fields_by, fields, trim_left, trim_right, trim_space, is_digit, u64_mod, parse_uint, ℤ,
  i64_max, atoi, IsToken, fields_by-token, lookup, delete, insert, lookup-delete, lookup-insert,
  lookup-insert_self, lookup-insert_ne,
}

abbrev pub max_purge_hosts : ℕ
max_purge_hosts = 16

unfoldable pub is_alnum : ℕ → Bool
is_alnum c = leb b'A' c && leb c b'Z' || leb b'a' c && leb c b'z' || is_digit c

unfoldable pub is_host_byte : ℕ → Bool
unfolding is_alnum
is_host_byte c = is_alnum c || c == b'.' || c == b'-'

-- `([A-Za-z0-9.-]*[A-Za-z0-9])?` up to the end or a colon, then `(:[0-9]+)?`. `ends` says whether
-- the host read so far ends in a letter or digit, and `all_digits` reads a port.
all_digits : Text → Bool
unfolding is_digit
all_digits [] = true
all_digits (c ∷ s) = is_digit c && all_digits s

is_port : Text → Bool
unfolding all_digits
is_port [] = false
is_port (c ∷ s) = all_digits (c ∷ s)

host_rest : Bool → Text → Bool
unfolding is_host_byte is_port
host_rest ends [] = ends
host_rest ends (c ∷ s) =
    if c == b':' then ends && is_port s else is_host_byte c && host_rest (is_alnum c) s

-- `purgeHostRE`
unfoldable pub is_purge_host : Text → Bool
unfolding is_alnum host_rest
is_purge_host [] = false
is_purge_host (c ∷ s) = is_alnum c && host_rest true s

-- `strings.SplitSeq(raw, ",")`; `cur` is the part being read.
unfoldable pub split_comma : Text → Text → List Text
split_comma cur [] = cur ∷ []
split_comma cur (c ∷ s) = elim (c == b',') [
  | true ↦ cur ∷ split_comma [] s
  | false ↦ split_comma (cur ++ c ∷ []) s
]

pub data PurgeHosts : Type 0 where
  hosts : List Text → PurgeHosts
  invalid_host : Text → PurgeHosts
  too_many : ℕ → PurgeHosts

-- The loop over the parts. `seen` holds just the hosts collected, so they serve for both.
unfoldable pub collect : List Text → List Text → PurgeHosts
unfolding trim_space
collect found [] = hosts found
collect found (part ∷ parts) =
    let h = trim_space part in
    elim (text_eq h [] || elem text_dec h found) [
      | true ↦ collect found parts
      | false ↦ elim (is_purge_host h) [
        | true ↦ collect (found ++ h ∷ []) parts
        | false ↦ invalid_host h
      ]
    ]

-- The bound on the number of hosts of the header.
unfoldable pub limit_hosts : PurgeHosts → PurgeHosts
limit_hosts (hosts hs) = if ltb max_purge_hosts (length hs) then too_many (length hs) else hosts hs
limit_hosts other = other

-- The hosts that the header names; none if it is absent or empty.
unfoldable pub header_hosts : Text → PurgeHosts
unfolding collect limit_hosts split_comma
header_hosts raw =
    if text_eq raw [] then hosts [] else limit_hosts (collect [] (split_comma [] raw))

-- Where the hosts come from.
pub data Choice : Type 0 where
  named : List Text → Choice
  from_routing : Text → Choice
  refused : PurgeHosts → Choice

configured_hosts : List Text → Text → Choice
configured_hosts [] host = from_routing host
configured_hosts (h ∷ hs) host = named (h ∷ hs)

choose : PurgeHosts → List Text → Text → Choice
unfolding configured_hosts
choose (hosts []) configured host = configured_hosts configured host
choose (hosts (h ∷ hs)) configured host = named (h ∷ hs)
choose refusal configured host = refused refusal

-- The header, then spec.invalidation.purge.hosts, then the routing host.
unfoldable pub purge_hosts : Text → List Text → Text → Choice
unfolding choose header_hosts
purge_hosts raw configured host = choose (header_hosts raw) configured host

abbrev pub hosts_of : Choice → List Text
hosts_of (named hs) = hs
hosts_of (from_routing h) = h ∷ []
hosts_of (refused e) = []
