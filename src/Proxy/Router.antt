-- ===== src/Proxy/Router.antt =====
-- internal/proxy/routing.go: the routes of the registered caches. The two methods that write hold
-- the mutex for their whole body, so each is one step.
pub mod Laws
use cloud_vinyl.Prelude.{
  ℕ, zero, suc, ◌+◌, ◌-◌, ◌*◌, ◌/◌, ◌%◌, ◌^◌, ◌≤◌, ◌<◌, ◌≡◌, refl, sym, ap, ◌∙◌, ◌≢◌, ◌↔◌, ◌⊎◌, inl,
  inr, ite, if_pos, if_neg, Bool, true, false, not, ◌&&◌, ◌||◌, Option, none, some, List, [], ◌∷◌,
  ◌++◌, map, append-nil, append_assoc, map-append, arith, ℕ_discrete, ltb, leb, ◌==◌, if◌then◌else◌,
  ltb→lt, leb→le, le→leb, Bool-cases, is_some, Option-cases, length, length-append, keep,
  length-keep-le, count, count-append, keep-append, keep-length_split, All, All-append, elem,
  Distinct, elem-append, Distinct-snoc, Text, codes, text_dec, text_eq, has_prefix, contains,
  is_space, fields_by, fields, trim_left, trim_right, trim_space, is_digit, u64_mod, parse_uint, ℤ,
  i64_max, atoi, IsToken, fields_by-token, lookup, delete, insert, lookup-delete, lookup-insert,
  lookup-insert_self, lookup-insert_ne,
}
use cloud_vinyl.Proxy.PodMap.{cache_key, HasNoSlash, cache_key_injective}

pub record RouteEntry : Type 0 where
  pub namespace : Text
  pub cache_name : Text

pub record RegisteredRouter : Type 0 where
  pub routes : List (Text × RouteEntry)
  pub purge_hosts : List (Text × List Text)

unfoldable pub new_registered_router : RegisteredRouter
new_registered_router = record { routes = []; purge_hosts = [] }

-- `host[:strings.LastIndex(host, ":")]`, if there is a colon.
unfoldable pub cut_last_colon : Text → Option Text
cut_last_colon [] = none
cut_last_colon (c ∷ s) = elim (cut_last_colon s) [
  | some h ↦ some (c ∷ h)
  | none ↦ if c == b':' then some [] else none
]

unfoldable pub strip_port : Text → Text
strip_port host = elim (cut_last_colon host) [ some h ↦ h | none ↦ host ]

abbrev pub invalidation_suffix : Text
invalidation_suffix = codes "-invalidation"

abbrev pub cluster_suffix : Text
cluster_suffix = codes ".svc.cluster.local"

unfoldable pub bare_host : Text → Text
bare_host cache_name = cache_name ++ invalidation_suffix

unfoldable pub short_host : Text → Text → Text
unfolding bare_host
short_host namespace cache_name = bare_host cache_name ++ (b'.' ∷ namespace)

unfoldable pub fqdn_host : Text → Text → Text
fqdn_host namespace cache_name = short_host namespace cache_name ++ cluster_suffix

unfoldable pub register : RegisteredRouter → Text → Text → RegisteredRouter
register r namespace cache_name =
    let entry : RouteEntry = record { namespace = namespace; cache_name = cache_name } in
    record r {
      routes =
          insert text_dec (fqdn_host namespace cache_name) entry
            (insert text_dec (short_host namespace cache_name) entry r.routes);
    }

unfoldable pub unregister : RegisteredRouter → Text → Text → RegisteredRouter
unregister r namespace cache_name = record {
  routes =
      delete text_dec (fqdn_host namespace cache_name)
        (delete text_dec (short_host namespace cache_name) r.routes);
  purge_hosts = delete text_dec (cache_key namespace cache_name) r.purge_hosts;
}

unfoldable pub set_purge_hosts : RegisteredRouter → Text → Text → List Text → RegisteredRouter
set_purge_hosts r namespace cache_name [] = record r {
  purge_hosts = delete text_dec (cache_key namespace cache_name) r.purge_hosts;
}
set_purge_hosts r namespace cache_name (h ∷ hs) = record r {
  purge_hosts = insert text_dec (cache_key namespace cache_name) (h ∷ hs) r.purge_hosts;
}

unfoldable pub purge_hosts_of : RegisteredRouter → Text → Text → List Text
purge_hosts_of r namespace cache_name =
    elim (lookup text_dec (cache_key namespace cache_name) r.purge_hosts) [
      | none ↦ []
      | some hosts ↦ hosts
    ]

unfoldable pub lookup_route : RegisteredRouter → Text → Option RouteEntry
lookup_route r host = lookup text_dec (strip_port host) r.routes

-- The test of `Suggest` on one route.
unfoldable pub suggests : Text → Text × RouteEntry → Bool
suggests host (h, e) =
    text_eq host (bare_host e.cache_name)
    && text_eq h (bare_host e.cache_name ++ (b'.' ∷ e.namespace))

-- `Suggest`, up to the order of the hosts: the code sorts them.
unfoldable pub suggest : RegisteredRouter → Text → List Text
suggest r host = map (λ p. p.0) (keep (suggests (strip_port host)) r.routes)
