-- ===== src/Proxy/PurgeHosts/Laws.antt =====
-- Which hosts a purge goes to.
use cloud_vinyl.Prelude.{
  ◌≤◌, ◌<◌, ◌≡◌, refl, ◌≢◌, ◌↔◌, inl, inr, true, false, ◌||◌, List, [], ◌∷◌, ◌++◌, arith, ltb,
  ltb→lt, Bool-cases, length, All, All-append, elem, Distinct, Distinct-snoc, Text, text_dec,
  text_eq, trim_space,
}
use cloud_vinyl.Proxy.PurgeHosts.{
  max_purge_hosts, is_purge_host, split_comma, PurgeHosts, hosts, invalid_host, too_many, collect,
  limit_hosts, header_hosts, named, from_routing, refused, choose, purge_hosts, hosts_of,
}

-- Hosts that may be sent: well formed, and none twice.
pub record IsClean (hs : List Text) : Type 0 where
  pub distinct : Distinct text_dec hs
  pub valid : All (λ h. is_purge_host h ≡ true) hs

abbrev pub Accepts : (List Text → Type 0) → PurgeHosts → Type 0
Accepts P (hosts hs) = P hs
Accepts P (invalid_host h) = is_purge_host h ≡ false
Accepts P (too_many n) = max_purge_hosts < n

collect-IsClean : (found parts : List Text) → IsClean found → Accepts IsClean (collect found parts)
unfolding collect
collect-IsClean found [] c = c
collect-IsClean found (part ∷ parts) c = elim (Bool-cases (text_eq h [] || elem text_dec h found)) [
  | inl skip ↦ rw (skip, collect) (collect-IsClean found parts c)
  | inr fresh ↦ elim (Bool-cases (is_purge_host h)) [
    | inl ok ↦
        rw (fresh, ok, collect) (collect-IsClean (found ++ h ∷ []) parts (more ok (ground arith)))
    | inr bad ↦ rw (fresh, bad, collect) bad
  ]
]
  where
    h : Text
    h = trim_space part

    more : is_purge_host h ≡ true → elem text_dec h found ≡ false → IsClean (found ++ h ∷ [])
    more ok fresh = record {
      distinct = Distinct-snoc text_dec found h c.distinct fresh;
      valid = All-append (λ x. is_purge_host x ≡ true) found (h ∷ []) c.valid (ok, tt);
    }

-- What the header yields.
pub record IsHeaderHosts (hs : List Text) : Type 0 where
  pub clean : IsClean hs
  pub few : length hs ≤ max_purge_hosts

limit_hosts-Accepts : (p : PurgeHosts) → Accepts IsClean p → Accepts IsHeaderHosts (limit_hosts p)
unfolding limit_hosts
limit_hosts-Accepts (hosts hs) c = elim (Bool-cases (ltb max_purge_hosts (length hs))) [
  | inl many ↦ rw many (ltb→lt _ _ many)
  | inr few ↦ rw few (record { clean = c; few = ground arith })
]
limit_hosts-Accepts (invalid_host h) c = c
limit_hosts-Accepts (too_many n) c = c

-- The header names at most 16 hosts, each well formed and none twice; it is refused only for a
-- host that is not well formed or for more than 16 hosts.
pub header_hosts-Accepts : (raw : Text) → Accepts IsHeaderHosts (header_hosts raw)
unfolding header_hosts
header_hosts-Accepts raw = elim (Bool-cases (text_eq raw [])) [
  | inl absent ↦
      rw absent (record { clean = record { distinct = tt; valid = tt }; few = omega arith })
  | inr there ↦ rw there (
      limit_hosts-Accepts (collect [] (split_comma [] raw))
        (collect-IsClean [] (split_comma [] raw) (record { distinct = tt; valid = tt })))
]

-- The order of precedence: hosts of the header; else the configured ones; else, and only then,
-- the routing host. A refused header is never replaced by another source.
purge_hosts_precedence :
    (raw : Text) (configured : List Text) (host : Text)
    → ((hs : List Text)
        → header_hosts raw ≡ hosts hs
        → hs ≢ []
        → purge_hosts raw configured host ≡ named hs)
      × (header_hosts raw ≡ hosts []
          → configured ≢ []
          → purge_hosts raw configured host ≡ named configured)
      × ((purge_hosts raw configured host ≡ from_routing host)
          ↔ ((header_hosts raw ≡ hosts []) × (configured ≡ [])))
      × (hosts_of (purge_hosts raw configured host) ≡ []
          → purge_hosts raw configured host ≡ refused (header_hosts raw))
unfolding purge_hosts choose
purge_hosts_precedence raw configured host = go (header_hosts raw) configured
  where
    go :
        (p : PurgeHosts) (conf : List Text)
        → ((hs : List Text) → p ≡ hosts hs → hs ≢ [] → choose p conf host ≡ named hs)
          × (p ≡ hosts [] → conf ≢ [] → choose p conf host ≡ named conf)
          × ((choose p conf host ≡ from_routing host) ↔ ((p ≡ hosts []) × (conf ≡ [])))
          × (hosts_of (choose p conf host) ≡ [] → choose p conf host ≡ refused p)
    go (hosts []) [] = (
      λ hs e ne. absurd (ne (ground arith)),
      λ e ne. absurd (ne refl),
      (λ e. (refl, refl), λ e. refl),
      λ e. ground arith,
    )
    go (hosts []) (c ∷ conf) = (
      λ hs e ne. absurd (ne (ground arith)),
      λ e ne. refl,
      (λ e. ground arith, λ e. ground arith),
      λ e. ground arith,
    )
    go (hosts (h ∷ hs)) conf = (
      λ ks e ne. ground arith,
      λ e ne. ground arith,
      (λ e. ground arith, λ e. ground arith),
      λ e. ground arith,
    )
    go (invalid_host h) conf = (
      λ hs e ne. ground arith,
      λ e ne. ground arith,
      (λ e. ground arith, λ e. ground arith),
      λ e. refl,
    )
    go (too_many n) conf = (
      λ hs e ne. ground arith,
      λ e ne. ground arith,
      (λ e. ground arith, λ e. ground arith),
      λ e. refl,
    )
