-- ===== src/Proxy/Server.antt =====
-- internal/proxy/server.go: the chain from a request to its handler. The state is what a request
-- reads or changes: routes, pods, ACLs, rate limiters, the two log throttles and the counter of
-- unknown hosts.
pub mod Laws
pub mod Tests
use cloud_vinyl.Prelude.{
  ℕ, zero, suc, ◌+◌, ◌-◌, ◌*◌, ◌/◌, ◌%◌, ◌^◌, ◌≤◌, ◌<◌, ◌≡◌, refl, sym, ap, ◌∙◌, ◌≢◌, ◌↔◌, ◌⊎◌, inl,
  inr, ite, if_pos, if_neg, Bool, true, false, not, ◌&&◌, ◌||◌, Option, none, some, List, [], ◌∷◌,
  ◌++◌, map, append-nil, append_assoc, map-append, arith, ℕ_discrete, ltb, leb, ◌==◌, if◌then◌else◌,
  ltb→lt, leb→le, le→leb, Bool-cases, is_some, Option-cases, length, length-append, keep,
  length-keep-le, count, count-append, keep-append, keep-length_split, All, All-append, elem,
  Distinct, elem-append, Distinct-snoc, Text, codes, text_dec, text_eq, has_prefix, contains,
  is_space, fields_by, fields, trim_left, trim_right, trim_space, is_digit, u64_mod, parse_uint, ℤ,
  i64_max, atoi, IsToken, fields_by-token, lookup, delete, insert, lookup-delete, lookup-insert,
  lookup-insert_self, lookup-insert_ne,
}
use cloud_vinyl.Proxy.PodMap.{PodMap, get_pod_ips, cache_key}
use cloud_vinyl.Proxy.Router.{RouteEntry, RegisteredRouter, lookup_route, purge_hosts_of}
use cloud_vinyl.Proxy.Broadcast.{BroadcastRequest, Reply}
use cloud_vinyl.Proxy.PurgeHosts.{Choice, from_routing, purge_hosts}
use cloud_vinyl.Proxy.Throttle
use cloud_vinyl.Proxy.Throttle.{Throttle}
use cloud_vinyl.Proxy.Acl.{NetPackage, Acl, allows}
use cloud_vinyl.Proxy.RateLimit.{RatePackage, TokenBucketRateLimiter, allow_key}
use cloud_vinyl.Proxy.Handlers.{
  Request, Json, Refusal, unknown_cache, source_not_allowed, rate_limited, no_pods, no_route,
  Handled, refuse, header_of, purge_host_header, method_purge, handle_purge, handle_ban,
  handle_xkey,
}

-- Which handler a request goes to.
pub data Route : Type 0 where
  purge ban xkey nowhere : Route

-- The `switch` of `ServeHTTP`.
unfoldable pub route_of : Text → Text → Route
route_of method path =
    if text_eq method method_purge
    then purge
    else if text_eq method (codes "BAN")
    then ban
    else if text_eq method (codes "POST") && text_eq path (codes "/ban")
    then ban
    else if text_eq method (codes "POST") && text_eq path (codes "/purge/xkey")
    then xkey
    else nowhere

abbrev pub is_from_routing : Choice → Bool
is_from_routing (from_routing h) = true
is_from_routing _ = false

module _ (net : NetPackage) (rate : RatePackage) (json : Json)
    (send : Text → BroadcastRequest → Reply) (token_of : Text → Text) where
  pub record Server : Type 0 where
    pub router : RegisteredRouter
    pub pod_map : PodMap
    pub acls : List (Text × Acl net)
    pub rate_limiter : TokenBucketRateLimiter rate
    pub unknown_host_log : Throttle
    pub no_purge_host_log : Throttle
    pub unknown_hosts : ℕ

  -- `rejectUnknownHost`: it counts, and logs at most once per interval.
  unfoldable pub reject_unknown_host : Server → ℕ → Server × Handled
  reject_unknown_host s now = (
    record s {
      unknown_hosts = s.unknown_hosts + 1;
      unknown_host_log = (Throttle.allow s.unknown_host_log now).0;
    },
    refuse unknown_cache,
  )

  -- The ACL of a cache, if it has one.
  unfoldable pub acl_allows : Server → Text → Text → Bool
  acl_allows s key addr = elim (lookup text_dec key s.acls) [
    | none ↦ true
    | some a ↦ allows net a addr
  ]

  -- `logNoPurgeHost`, for a purge that falls back to the routing host.
  log_fallback : Server → Request → List Text → ℕ → Server
  log_fallback s r configured now =
      if is_from_routing (purge_hosts (header_of r purge_host_header) configured r.host)
      then record s { no_purge_host_log = (Throttle.allow s.no_purge_host_log now).0 }
      else s

  unfoldable pub dispatch : Server → Request → RouteEntry → List Text → ℕ → Route → Server × Handled
  unfolding log_fallback
  dispatch s r e pods now purge =
      let configured = purge_hosts_of s.router e.namespace e.cache_name in
      (log_fallback s r configured now, handle_purge send r configured pods)
  dispatch s r e pods now ban = (s, handle_ban send json r (token_of e.namespace) pods)
  dispatch s r e pods now xkey = (s, handle_xkey send json r pods)
  dispatch s r e pods now nowhere = (s, refuse no_route)

  -- Steps 4 and 5 of `ServeHTTP`.
  unfoldable pub serve_pods : Server → Request → RouteEntry → ℕ → List Text → Server × Handled
  unfolding dispatch route_of
  serve_pods s r e now [] = (s, refuse no_pods)
  serve_pods s r e now (pod ∷ pods) = dispatch s r e (pod ∷ pods) now (route_of r.method r.path)

  -- Steps 2 to 5.
  unfoldable pub serve_cache : Server → Request → RouteEntry → ℕ → Server × Handled
  unfolding acl_allows serve_pods
  serve_cache s r e now =
      let key = cache_key e.namespace e.cache_name in
      if acl_allows s key r.remote_addr
      then (let (limiter, passes) = allow_key rate s.rate_limiter key now in
          let s' : Server = record s { rate_limiter = limiter } in
          if passes
          then serve_pods s' r e now (get_pod_ips s.pod_map e.namespace e.cache_name)
          else (s', refuse rate_limited))
      else (s, refuse source_not_allowed)

  unfoldable pub serve_http : Server → Request → ℕ → Server × Handled
  unfolding reject_unknown_host serve_cache
  serve_http s r now = elim (lookup_route s.router r.host) [
    | none ↦ reject_unknown_host s now
    | some e ↦ serve_cache s r e now
  ]
