-- ===== src/Proxy/Handlers.antt =====
-- internal/proxy/handler.go: the handlers of a purge, a ban and an xkey purge. Package
-- encoding/json, the transport to the pods and the token store are parameters. A handler returns
-- the broadcasts that it makes, in order, beside its response.
pub mod FanOut
use cloud_vinyl.Prelude.{
  pos, negsuc, ℕ, zero, suc, ◌+◌, ◌-◌, ◌*◌, ◌/◌, ◌%◌, ◌^◌, ◌≤◌, ◌<◌, ◌≡◌, refl, sym, ap, ◌∙◌, ◌≢◌,
  ◌↔◌, ◌⊎◌, inl, inr, ite, if_pos, if_neg, Bool, true, false, not, ◌&&◌, ◌||◌, Option, none, some,
  List, [], ◌∷◌, ◌++◌, map, append-nil, append_assoc, map-append, arith, ℕ_discrete, ltb, leb, ◌==◌,
  if◌then◌else◌, ltb→lt, leb→le, le→leb, Bool-cases, is_some, Option-cases, ◌>>=◌, bind_some,
  if_both, length, length-append, keep, length-keep-le, count, count-append, keep-append,
  keep-length_split, All, All-append, elem, Distinct, elem-append, Distinct-snoc, Text, codes,
  text_dec, text_eq, text_eq_refl, text_eq→≡, has_prefix, contains, is_space, is_regexp_space,
  fields_by, fields, trim_left, trim_right, trim_space, trim_right_start, is_digit, u64_mod,
  digits_value, parse_uint, ℤ, i64_max, positive_int, atoi, IsToken, fields_by-token, lookup,
  delete, insert, lookup-delete, lookup-insert, lookup-insert_self, lookup-insert_ne, next_digits,
  digits, printed, decimal, IsDigits, decimal-IsDigits, decimal-ne-nil, parse_uint-decimal,
  atoi-decimal,
}
use cloud_vinyl.Proxy.Broadcast.{
  BroadcastRequest, Reply, PodResult, BroadcastResult, broadcast, merge_results, summarise,
}
use cloud_vinyl.Proxy.PurgeHosts.{PurgeHosts, Choice, named, from_routing, refused, purge_hosts}
use cloud_vinyl.Proxy.BanExpression.{BanError, validate_ban_expression}

pub record Request : Type 0 where
  pub method : Text
  pub path : Text
  pub request_uri : Text
  pub host : Text
  pub remote_addr : Text
  pub headers : List (Text × Text)
  pub body : Text

pub record Json : Type 0 where
  -- The fields `expression` and `keys` of a decoded body; `none` if it is no such JSON.
  pub decode_ban : Text → Option Text
  pub decode_xkey : Text → Option (List Text)
  pub encode_ban : Text → Text

pub data Refusal : Type 0 where
  bad_purge_hosts : PurgeHosts → Refusal
  missing_expression bad_json method_not_allowed empty_expression no_keys : Refusal
  bad_expression : BanError → Refusal
  unknown_cache source_not_allowed rate_limited no_pods no_route : Refusal

-- The status code of `writeJSONError` for each refusal.
unfoldable pub refusal_code : Refusal → ℕ
refusal_code method_not_allowed = 405
refusal_code unknown_cache = 404
refusal_code source_not_allowed = 403
refusal_code rate_limited = 429
refusal_code no_pods = 503
refusal_code no_route = 404
refusal_code _ = 400

pub data Response : Type 0 where
  json_error : Refusal → Response
  result : BroadcastResult → Response

-- One broadcast: the pod addresses and the request.
abbrev pub Sent : Type 0
Sent = List Text × BroadcastRequest

pub record Handled : Type 0 where
  pub sent : List Sent
  pub response : Response

abbrev pub refuse : Refusal → Handled
refuse r = record { sent = []; response = json_error r }

-- `r.Header.Get(name)`
unfoldable pub header_of : Request → Text → Text
header_of r name = elim (lookup text_dec name r.headers) [ some v ↦ v | none ↦ [] ]

abbrev pub purge_host_header : Text
purge_host_header = codes "X-Vinyl-Purge-Host"

abbrev pub method_purge : Text
method_purge = codes "PURGE"

abbrev pub varnish_port : Text
varnish_port = codes "8080"

abbrev pub agent_port : Text
agent_port = codes "9090"

abbrev pub no_purge_host_warning : Text
no_purge_host_warning =
    codes
      "no site host given: purged only objects cached under the invalidation host; send X-Vinyl-Purge-Host or set spec.invalidation.purge.hosts"

-- `withPort`
unfoldable pub with_port : Text → List Text → List Text
with_port port [] = []
with_port port (ip ∷ ips) =
    (if contains ip (codes ":") then ip else ip ++ (b':' ∷ port)) ∷ with_port port ips

-- The expression of a ban, by header or by JSON body.
pub data Expression : Type 0 where
  expression : Text → Expression
  rejected : Refusal → Expression

body_expression : Option Text → Expression
body_expression none = rejected bad_json
body_expression (some e) = expression e

auth_headers : Text → List (Text × Text)
auth_headers token =
    (codes "Content-Type", codes "application/json")
    ∷ (if text_eq token [] then [] else (codes "Authorization", codes "Bearer " ++ token) ∷ [])

unfoldable pub join_values : Text → Option Text → Text
join_values v none = v
join_values v (some vs) = v ++ (codes ", " ++ vs)

-- `cloneHeaders`: the values of a header, each an entry of the request, are joined.
unfoldable pub clone_headers : List (Text × Text) → List (Text × Text)
unfolding join_values
clone_headers [] = []
clone_headers ((k, v) ∷ headers) =
    let cloned = clone_headers headers in
    insert text_dec k (join_values v (lookup text_dec k cloned)) cloned

module _ (send : Text → BroadcastRequest → Reply) where
  -- The request that one host is purged with.
  unfoldable pub purge_request : Request → Text → BroadcastRequest
  unfolding clone_headers
  purge_request r host = record {
    method = method_purge;
    path = r.request_uri;
    host = host;
    headers = delete text_dec purge_host_header (clone_headers r.headers);
    body = [];
  }

  unfoldable pub purge_each : Request → List Text → List Text → List (Text × BroadcastResult)
  unfolding purge_request
  purge_each r addrs [] = []
  purge_each r addrs (h ∷ hs) =
      (h, broadcast send addrs (purge_request r h)) ∷ purge_each r addrs hs

  unfoldable pub purges : Request → List Text → List Text → List Sent
  unfolding purge_request
  purges r addrs [] = []
  purges r addrs (h ∷ hs) = (addrs, purge_request r h) ∷ purges r addrs hs

  unfoldable pub purge_chosen : Request → List Text → Choice → Handled
  unfolding purges purge_each with_port
  purge_chosen r pods (refused e) = refuse (bad_purge_hosts e)
  purge_chosen r pods (named hs) =
      let addrs = with_port varnish_port pods in
      record { sent = purges r addrs hs; response = result (merge_results (purge_each r addrs hs)) }
  purge_chosen r pods (from_routing h) =
      let addrs = with_port varnish_port pods in
      let merged = merge_results (purge_each r addrs (h ∷ [])) in
      record {
        sent = purges r addrs (h ∷ []);
        response = result (record merged { warning = no_purge_host_warning });
      }

  -- `configured` are the hosts that the router knows for the cache.
  unfoldable pub handle_purge : Request → List Text → List Text → Handled
  unfolding purge_chosen header_of
  handle_purge r configured pods =
      purge_chosen r pods (purge_hosts (header_of r purge_host_header) configured r.host)

  module _ (json : Json) where
    unfoldable pub ban_expression : Request → Expression
    unfolding body_expression header_of
    ban_expression r =
        if text_eq r.method (codes "BAN")
        then (if text_eq (header_of r (codes "X-Ban-Expression")) []
            then rejected missing_expression
            else expression (header_of r (codes "X-Ban-Expression")))
        else if text_eq r.method (codes "POST")
        then body_expression (json.decode_ban r.body)
        else rejected method_not_allowed

    unfoldable pub ban_request : Request → Text → Text → BroadcastRequest
    unfolding auth_headers
    ban_request r token e = record {
      method = codes "POST";
      path = codes "/ban";
      host = r.host;
      headers = auth_headers token;
      body = json.encode_ban e;
    }

    unfoldable pub send_ban : Request → Text → List Text → Text → Handled
    unfolding ban_request with_port
    send_ban r token pods e =
        let addrs = with_port agent_port pods in
        record {
          sent = (addrs, ban_request r token e) ∷ [];
          response = result (broadcast send addrs (ban_request r token e));
        }

    unfoldable pub validated_ban : Request → Text → List Text → Text → Handled
    unfolding send_ban
    validated_ban r token pods e =
        if text_eq e [] then refuse empty_expression else elim (validate_ban_expression e) [
          | some err ↦ refuse (bad_expression err)
          | none ↦ send_ban r token pods e
        ]

    unfoldable pub ban_with : Request → Text → List Text → Expression → Handled
    unfolding validated_ban
    ban_with r token pods (rejected why) = refuse why
    ban_with r token pods (expression e) = validated_ban r token pods e

    -- `token` is that of the cache's namespace, empty for none.
    unfoldable pub handle_ban : Request → Text → List Text → Handled
    unfolding ban_expression ban_with
    handle_ban r token pods = ban_with r token pods (ban_expression r)

    unfoldable pub xkey_request : Request → Text → BroadcastRequest
    xkey_request r key = record {
      method = method_purge;
      path = codes "/";
      host = r.host;
      headers = (codes "X-Xkey-Purge", key) ∷ [];
      body = [];
    }

    -- The loop over the keys: the broadcasts, all pod results, and the successes.
    unfoldable pub purge_keys : Request → List Text → List Text → List Sent × List PodResult × ℕ
    unfolding xkey_request
    purge_keys r addrs [] = ([], [], 0)
    purge_keys r addrs (key ∷ keys) =
        let res = broadcast send addrs (xkey_request r key) in
        let (sent, results, succeeded) = purge_keys r addrs keys in
        ((addrs, xkey_request r key) ∷ sent, res.results ++ results, res.succeeded + succeeded)

    unfoldable pub xkey_with : Request → List Text → Option (List Text) → Handled
    unfolding purge_keys with_port summarise
    xkey_with r pods none = refuse bad_json
    xkey_with r pods (some []) = refuse no_keys
    xkey_with r pods (some (key ∷ keys)) =
        let (sent, results, succeeded) = purge_keys r (with_port varnish_port pods) (key ∷ keys) in
        record {
          sent = sent;
          response = result (summarise (length pods * length (key ∷ keys)) succeeded results);
        }

    unfoldable pub handle_xkey : Request → List Text → Handled
    unfolding xkey_with
    handle_xkey r pods = xkey_with r pods (json.decode_xkey r.body)
