-- ===== src/Proxy/Server/Tests.antt =====
-- The server's theorems at a server of one cache with one pod.
use cloud_vinyl.Prelude.{
  ℕ, ◌-◌, ◌≡◌, refl, ap, Bool, true, false, none, some, List, [], ◌∷◌, arith, ℕ_discrete, ltb,
  if◌then◌else◌, length, Text, codes, text_dec, text_eq, has_prefix, fields_by, trim_space, lookup,
  delete, insert,
}
use cloud_vinyl.Proxy.PodMap.{new_pod_map, update, get_pod_ips, cache_key}
use cloud_vinyl.Proxy.Router.{
  RouteEntry, RegisteredRouter, new_registered_router, register, lookup_route, purge_hosts_of,
}
use cloud_vinyl.Proxy.Broadcast.{BroadcastRequest, Reply, answer}
use cloud_vinyl.Proxy.PurgeHosts.{purge_hosts, hosts_of}
use cloud_vinyl.Proxy.BanExpression.{validate_ban_expression}
use cloud_vinyl.Proxy.Throttle.{new_throttle}
use cloud_vinyl.Proxy.RateLimit.{
  allow_key, RatePackage, TokenBucketRateLimiter, limiter_of, run, run_alone, answers_of, times_of,
  run-independent,
}
use cloud_vinyl.Proxy.Acl.{NetPackage, Acl}
use cloud_vinyl.Proxy.Handlers.{
  Request, Json, expression, with_port, agent_port, handle_purge, handle_ban, ban_expression,
  ban_request, purge_host_header, header_of,
}
use cloud_vinyl.Proxy.Handlers.FanOut.{Purged, handle_purge-Purged}
use cloud_vinyl.Proxy.Server.{Server, serve_http}
use cloud_vinyl.Proxy.Server.Laws.{serve, IsAdmitted, serve_http-IsAdmitted, handle_ban-validated}

pub take_one : ℕ → ℕ × Bool
take_one n = if ltb 0 n then (n - 1, true) else (0, false)

-- Buckets of two tokens that are never filled again.
abbrev pub two_tokens : RatePackage
two_tokens = record { Limiter = ℕ; new_limiter = 2; take_token = λ n now. take_one n }

abbrev no_limiters : TokenBucketRateLimiter two_tokens
no_limiters = record { limiters = [] }

abbrev requests : List (Text × ℕ)
requests = (codes "a", 1) ∷ (codes "b", 2) ∷ (codes "a", 3) ∷ (codes "a", 4) ∷ []

run-independent_example :
    answers_of two_tokens (codes "a") (run two_tokens no_limiters requests)
    ≡ run_alone two_tokens
        (limiter_of two_tokens no_limiters (codes "a"))
        (times_of two_tokens (codes "a") requests)
run-independent_example = run-independent two_tokens no_limiters requests (codes "a")

-- Addresses are texts, and a network is the address that it has alone.
abbrev pub exact_net : NetPackage
exact_net = record {
  Ip = Text;
  IpNet = Text;
  parse_cidr = λ t. some t;
  parse_ip = λ t. some t;
  split_host_port = λ t. none;
  in_net = text_eq;
}

abbrev pub plain_json : Json
plain_json = record {
  decode_ban = λ t. some t;
  decode_xkey = λ t. some (t ∷ []);
  encode_ban = λ t. t;
}

pub send : Text → BroadcastRequest → Reply
send pod req = answer 200 []

pub no_token : Text → Text
no_token n = []

abbrev prod : Text
prod = codes "prod"

abbrev shop : Text
shop = codes "shop"

abbrev pod : List Text
pod = codes "10.0.0.1" ∷ []

abbrev client : Text
client = codes "10.0.0.9"

abbrev pub server : Server exact_net two_tokens plain_json send no_token
server = record {
  router = register new_registered_router prod shop;
  pod_map = update new_pod_map prod shop pod;
  acls = (cache_key prod shop, record { nets = client ∷ [] }) ∷ [];
  rate_limiter = no_limiters;
  unknown_host_log = new_throttle;
  no_purge_host_log = new_throttle;
  unknown_hosts = 0;
}

abbrev pub ban_shop : Request
ban_shop = record {
  method = codes "BAN";
  path = codes "/";
  request_uri = codes "/";
  host = codes "shop-invalidation.prod";
  remote_addr = client;
  headers = (codes "X-Ban-Expression", codes "obj.http.X-Url ~ ^/a") ∷ [];
  body = [];
}

-- What a run of the server computes with.
serving : Unit {0}
unfolding serve_http handle_ban validate_ban_expression lookup_route register new_registered_router
    insert delete lookup text_dec ℕ_discrete cloud_vinyl.Proxy.Router.cut_last_colon
    cloud_vinyl.Proxy.Router.short_host cloud_vinyl.Proxy.Router.fqdn_host
    cloud_vinyl.Proxy.Router.strip_port allow_key cache_key cloud_vinyl.Proxy.Acl.allows take_one
    limiter_of get_pod_ips update trim_space fields_by cloud_vinyl.Proxy.BanExpression.is_operator
    has_prefix cloud_vinyl.Proxy.BanExpression.is_wildcard
serving = tt

ban_sent : length (serve exact_net two_tokens plain_json send no_token server ban_shop 1).1.sent ≡ 1
unfolding serving
ban_sent = refl

serve_http-IsAdmitted_example :
    IsAdmitted exact_net two_tokens plain_json send no_token server ban_shop 1
      (serve exact_net two_tokens plain_json send no_token server ban_shop 1).1
serve_http-IsAdmitted_example =
    serve_http-IsAdmitted exact_net two_tokens plain_json send no_token server ban_shop 1
      (λ e. absurd (ground (arith, ap length e, ban_sent)))

ban_handled : length (handle_ban send plain_json ban_shop [] pod).sent ≡ 1
unfolding serving
ban_handled = refl

handle_ban-validated_example :
    (e : Text) × (ban_expression send plain_json ban_shop ≡ expression e)
    × (validate_ban_expression e ≡ none)
    × ((handle_ban send plain_json ban_shop [] pod).sent
        ≡ (with_port agent_port pod, ban_request send plain_json ban_shop [] e) ∷ [])
handle_ban-validated_example =
    handle_ban-validated send pod plain_json ban_shop []
      (λ e. absurd (ground (arith, ap length e, ban_handled)))

one_site :
    purge_hosts (header_of ban_shop purge_host_header) (shop ∷ []) ban_shop.host
    ≡ cloud_vinyl.Proxy.PurgeHosts.named (shop ∷ [])
unfolding serving purge_hosts header_of cloud_vinyl.Proxy.PurgeHosts.header_hosts
    cloud_vinyl.Proxy.PurgeHosts.split_comma
one_site = refl

handle_purge-Purged_example :
    Purged send ban_shop pod
      (hosts_of (purge_hosts (header_of ban_shop purge_host_header) (shop ∷ []) ban_shop.host))
      (handle_purge send ban_shop (shop ∷ []) pod)
handle_purge-Purged_example =
    handle_purge-Purged send ban_shop (shop ∷ []) pod (λ e. absurd (ground (arith, one_site, e)))
