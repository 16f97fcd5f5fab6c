-- ===== src/Proxy/Tests.antt =====
-- Runs of the proxy, and its theorems at concrete inputs.
use cloud_vinyl.Prelude.{
  ℕ, ◌<◌, ◌≡◌, refl, ◌≢◌, ◌↔◌, ◌⊎◌, none, some, List, [], ◌∷◌, ◌++◌, map, arith, ℕ_discrete,
  if◌then◌else◌, count, Text, codes, text_dec, has_prefix, contains, is_regexp_space, fields_by,
  trim_space, lookup, delete, insert,
}
use cloud_vinyl.Proxy.PodMap.{PodMap, new_pod_map, update}
use cloud_vinyl.Proxy.Router.{
  RouteEntry, RegisteredRouter, new_registered_router, register, unregister, lookup_route,
  short_host, fqdn_host, strip_port, suggest,
}
use cloud_vinyl.Proxy.Router.Laws.{entry, registers, lookup-other, lookup_route_sound}
use cloud_vinyl.Proxy.Broadcast.{
  BroadcastRequest, Reply, answer, call_error, PodResult, ok, failed, broadcast,
}
use cloud_vinyl.Proxy.Broadcast.Laws.{took_it, broadcast_lem}
use cloud_vinyl.Proxy.PurgeHosts.{
  hosts, named, from_routing, refused, purge_hosts, header_hosts, is_purge_host, split_comma,
}
use cloud_vinyl.Proxy.PurgeHosts.Laws.{Accepts, IsHeaderHosts, header_hosts-Accepts}
use cloud_vinyl.Proxy.BanExpression.{
  IsWord, header_ban, matches, matches_everything, validate-header_ban, validate_ban_expression,
  IsAllowed, matches, header_ban, is_wildcard, matches_everything,
}
use cloud_vinyl.Proxy.Throttle.{run, new_throttle, IsSpaced}
use cloud_vinyl.Proxy.Handlers.{method_purge}

abbrev ns : Text
ns = codes "prod"

abbrev shop : Text
shop = codes "shop"

abbrev blog : Text
blog = codes "blog"

abbrev one_cache : RegisteredRouter
one_cache = register new_registered_router ns shop

-- What runs of the proxy compute with.
routing : Unit {0}
unfolding lookup_route new_registered_router register unregister short_host fqdn_host strip_port
    insert delete lookup text_dec ℕ_discrete cloud_vinyl.Proxy.Router.cut_last_colon
    cloud_vinyl.Proxy.Router.suggests
routing = tt

routed : lookup_route one_cache (codes "shop-invalidation.prod:8090") ≡ some (entry ns shop)
unfolding routing
routed = refl

not_routed : lookup_route one_cache (codes "shop-invalidation") ≡ none
unfolding routing
not_routed = refl

suggested : suggest one_cache (codes "shop-invalidation:80") ≡ codes "shop-invalidation.prod" ∷ []
unfolding routing suggest
suggested = refl

abbrev RoutesRegistered : Type 0
RoutesRegistered =
    (lookup_route one_cache (short_host ns shop ++ (b':' ∷ codes "8090")) ≡ some (entry ns shop))
    × (lookup_route one_cache (fqdn_host ns shop ++ (b':' ∷ codes "8090")) ≡ some (entry ns shop))
    × (lookup_route (unregister new_registered_router ns shop)
          (short_host ns shop ++ (b':' ∷ codes "8090"))
        ≡ none)
    × (lookup_route (unregister new_registered_router ns shop)
          (fqdn_host ns shop ++ (b':' ∷ codes "8090"))
        ≡ none)

lookup-other_example :
    (lookup text_dec (short_host ns blog) (register one_cache ns shop).routes
      ≡ lookup text_dec (short_host ns blog) one_cache.routes)
    × (lookup text_dec (fqdn_host ns blog) (register one_cache ns shop).routes
        ≡ lookup text_dec (fqdn_host ns blog) one_cache.routes)
    × (lookup text_dec (short_host ns blog) (unregister one_cache ns shop).routes
        ≡ lookup text_dec (short_host ns blog) one_cache.routes)
    × (lookup text_dec (fqdn_host ns blog) (unregister one_cache ns shop).routes
        ≡ lookup text_dec (fqdn_host ns blog) one_cache.routes)
lookup-other_example =
    lookup-other one_cache ns shop ns blog (omega arith) (omega arith) (λ e. ground arith)

lookup_route_sound_example :
    (strip_port (codes "shop-invalidation.prod:8090") ≡ short_host ns shop)
    ⊎ (strip_port (codes "shop-invalidation.prod:8090") ≡ fqdn_host ns shop)
lookup_route_sound_example =
    lookup_route_sound (registers ns shop ∷ []) (codes "shop-invalidation.prod:8090")
      (entry ns shop) routed

abbrev pods_of_shop : PodMap
pods_of_shop = update new_pod_map ns shop (codes "10.0.0.1" ∷ codes "10.0.0.2" ∷ [])

-- The first pod purges three objects; the second cannot be reached.
send : Text → BroadcastRequest → Reply
send pod req =
    if contains pod (codes "10.0.0.1") then answer 200 (codes "3") else call_error (codes "refused")

abbrev pod_addrs : List Text
pod_addrs = codes "10.0.0.1:8080" ∷ codes "10.0.0.2:8080" ∷ []

abbrev purge_blog : BroadcastRequest
purge_blog = record {
  method = method_purge;
  path = codes "/a";
  host = blog;
  headers = [];
  body = [];
}

broadcast_lem_example :
    let r = broadcast send pod_addrs purge_blog in
    (map (λ x. x.pod) r.results ≡ pod_addrs)
    × (r.total ≡ 2)
    × (r.succeeded ≡ count (took_it send purge_blog) pod_addrs)
    × ((r.status ≡ ok) ↔ (count (took_it send purge_blog) pod_addrs ≡ 2))
    × ((r.status ≡ failed) ↔ ((count (took_it send purge_blog) pod_addrs ≡ 0) × (0 < 2)))
broadcast_lem_example = broadcast_lem send purge_blog pod_addrs

abbrev pod_results : List PodResult
pod_results =
    record { pod = ns; host = []; status = 200; error = []; objects_purged = some 0 }
    ∷ record { pod = shop; host = []; status = 200; error = []; objects_purged = none }
    ∷ []

header_hosts-Accepts_example :
    Accepts IsHeaderHosts (header_hosts (codes "a.example, b.example,a.example"))
header_hosts-Accepts_example = header_hosts-Accepts (codes "a.example, b.example,a.example")

purging : Unit {0}
unfolding purge_hosts header_hosts split_comma is_purge_host trim_space text_dec ℕ_discrete
purging = tt

site_hosts :
    purge_hosts (codes "a.example, b.example,a.example") [] ns
    ≡ named (codes "a.example" ∷ codes "b.example" ∷ [])
unfolding purging
site_hosts = refl

abbrev Precedence : Text → List Text → Text → Type 0
Precedence raw configured host =
    ((hs : List Text)
      → header_hosts raw ≡ hosts hs
      → hs ≢ []
      → purge_hosts raw configured host ≡ named hs)
    × (header_hosts raw ≡ hosts []
        → configured ≢ []
        → purge_hosts raw configured host ≡ named configured)
    × ((purge_hosts raw configured host ≡ from_routing host)
        ↔ ((header_hosts raw ≡ hosts []) × (configured ≡ [])))
    × (cloud_vinyl.Proxy.PurgeHosts.hosts_of (purge_hosts raw configured host) ≡ []
        → purge_hosts raw configured host ≡ refused (header_hosts raw))

abbrev ban_text : Text
ban_text = codes " obj.http.X-Url ~ ^/shop"

ban_accepted : validate_ban_expression ban_text ≡ none
unfolding validate_ban_expression trim_space is_regexp_space text_dec ℕ_discrete fields_by
    cloud_vinyl.Proxy.BanExpression.is_operator has_prefix is_wildcard
ban_accepted = refl

-- The two operands of the header ban "obj.http.X-Url ~ ^/shop".
url-IsWord : IsWord (codes "X-Url")
unfolding is_regexp_space
url-IsWord = ground arith

shop-IsWord : IsWord (codes "^/shop")
unfolding is_regexp_space
shop-IsWord = ground arith

validate-header_ban_example :
    validate_ban_expression (header_ban (codes "X-Url") matches (codes "^/shop"))
    ≡ (if is_wildcard (codes "^/shop") then some matches_everything else none)
validate-header_ban_example =
    validate-header_ban (codes "X-Url") matches b'^' (codes "/shop") url-IsWord shop-IsWord

abbrev seconds : List ℕ
seconds = 60000000000 ∷ 61000000000 ∷ 62000000000 ∷ 125000000000 ∷ []

throttled : (run new_throttle seconds).lines ≡ 60000000000 ∷ 125000000000 ∷ []
unfolding run cloud_vinyl.Proxy.Throttle.allow
throttled = refl
