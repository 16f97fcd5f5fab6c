-- ===== src/Proxy/Server/Laws.antt =====
-- What reaches the pods, and on whose behalf.
use cloud_vinyl.Prelude.{
  ℕ, ◌≡◌, refl, ◌≢◌, ◌⊎◌, inl, inr, true, Option, none, some, List, [], ◌∷◌, arith, Bool-cases,
  Option-cases, All, Text, text_eq,
}
use cloud_vinyl.Proxy.PodMap.{get_pod_ips, cache_key}
use cloud_vinyl.Proxy.Router.{RouteEntry, lookup_route, purge_hosts_of}
use cloud_vinyl.Proxy.Broadcast.{BroadcastRequest, Reply}
use cloud_vinyl.Proxy.PurgeHosts.{Choice, from_routing, named, refused, purge_hosts}
use cloud_vinyl.Proxy.BanExpression.{validate_ban_expression}
use cloud_vinyl.Proxy.Acl.{NetPackage}
use cloud_vinyl.Proxy.RateLimit.{RatePackage, allow_key}
use cloud_vinyl.Proxy.Handlers.{
  ban_with, Request, Json, Refusal, json_error, Sent, Handled, with_port, varnish_port, agent_port,
  purge_host_header, header_of, handle_purge, purge_chosen, purges, handle_ban, handle_xkey,
  xkey_with, purge_keys, ban_expression, validated_ban, send_ban, ban_request, Expression,
  expression, rejected,
}
use cloud_vinyl.Proxy.Server.{
  Server, Route, purge, ban, xkey, nowhere, route_of, acl_allows, dispatch, serve_pods, serve_cache,
  serve_http,
}

-- A broadcast to these pods, on the port of varnishd or of the agent.
abbrev pub GoesTo : List Text → Sent → Type 0
GoesTo pods x = (x.0 ≡ with_port varnish_port pods) ⊎ (x.0 ≡ with_port agent_port pods)

-- An error response sends nothing; whatever is sent goes to these pods.
abbrev pub IsFair : List Text → Handled → Type 0
IsFair pods h =
    All (GoesTo pods) h.sent × ((why : Refusal) → h.response ≡ json_error why → h.sent ≡ [])

module _ (send : Text → BroadcastRequest → Reply) (pods : List Text) where
  purges-GoesTo :
      (r : Request) (hs : List Text)
      → All (GoesTo pods) (purges send r (with_port varnish_port pods) hs)
  unfolding purges
  purges-GoesTo r [] = tt
  purges-GoesTo r (h ∷ hs) = (inl refl, purges-GoesTo r hs)

  purge_chosen-IsFair : (r : Request) (c : Choice) → IsFair pods (purge_chosen send r pods c)
  unfolding purge_chosen
  purge_chosen-IsFair r (named hs) = (purges-GoesTo r hs, λ why e. cc)
  purge_chosen-IsFair r (from_routing h) = ((inl refl, tt), λ why e. cc)
  purge_chosen-IsFair r (refused e) = (tt, λ why e. refl)

  module _ (json : Json) where
    purge_keys-GoesTo :
        (r : Request) (keys : List Text)
        → All (GoesTo pods) (purge_keys send json r (with_port varnish_port pods) keys).0
    unfolding purge_keys
    purge_keys-GoesTo r [] = tt
    purge_keys-GoesTo r (k ∷ keys) = (inl refl, purge_keys-GoesTo r keys)

    xkey_with-IsFair :
        (r : Request) (k : Option (List Text)) → IsFair pods (xkey_with send json r pods k)
    unfolding xkey_with
    xkey_with-IsFair r none = (tt, λ why e. refl)
    xkey_with-IsFair r (some []) = (tt, λ why e. refl)
    xkey_with-IsFair r (some (k ∷ keys)) = (purge_keys-GoesTo r (k ∷ keys), λ why e. cc)

    validated_ban-IsFair :
        (r : Request) (token e : Text) → IsFair pods (validated_ban send json r token pods e)
    unfolding validated_ban send_ban
    validated_ban-IsFair r token e = elim (Bool-cases (text_eq e [])) [
      | inl empty ↦ rw empty (tt, λ why h. refl)
      | inr text ↦ elim (Option-cases (validate_ban_expression e)) [
        | inl ok ↦ rw (text, ok, validated_ban) ((inr refl, tt), λ why h. cc)
        | inr (err, bad) ↦ rw (text, bad, validated_ban) (tt, λ why h. refl)
      ]
    ]

    ban_with-IsFair :
        (r : Request) (token : Text) (x : Expression)
        → IsFair pods (ban_with send json r token pods x)
    unfolding ban_with
    ban_with-IsFair r token (rejected why) = (tt, λ w e. refl)
    ban_with-IsFair r token (expression e) = validated_ban-IsFair r token e

    ban_with-validated :
        (r : Request) (token : Text) (x : Expression)
        → let h = ban_with send json r token pods x in
          h.sent ≢ []
          → (e : Text) × (x ≡ expression e)
            × (validate_ban_expression e ≡ none)
            × (h.sent ≡ (with_port agent_port pods, ban_request send json r token e) ∷ [])
    unfolding ban_with validated_ban send_ban
    ban_with-validated r token (rejected why) ne = absurd (ne refl)
    ban_with-validated r token (expression e) ne = elim (Bool-cases (text_eq e [])) [
      | inl empty ↦ absurd (ne (rw empty refl))
      | inr text ↦ elim (Option-cases (validate_ban_expression e)) [
        | inl ok ↦ (e, refl, ok, rw (text, ok, validated_ban) refl)
        | inr (err, bad) ↦ absurd (ne (rw (text, bad, validated_ban) refl))
      ]
    ]

    -- A ban reaches the pods only if its expression was validated, in one broadcast that carries
    -- just that expression.
    pub handle_ban-validated :
        (r : Request) (token : Text)
        → (handle_ban send json r token pods).sent ≢ []
        → (e : Text) × (ban_expression send json r ≡ expression e)
          × (validate_ban_expression e ≡ none)
          × ((handle_ban send json r token pods).sent
              ≡ (with_port agent_port pods, ban_request send json r token e) ∷ [])
    unfolding handle_ban
    handle_ban-validated r token ne = ban_with-validated r token (ban_expression send json r) ne

module _ (net : NetPackage) (rate : RatePackage) (json : Json)
    (send : Text → BroadcastRequest → Reply) (token_of : Text → Text) where
  abbrev pub serve :
      Server net rate json send token_of
      → Request
      → ℕ
      → Server net rate json send token_of × Handled
  serve = serve_http net rate json send token_of

  dispatch-IsFair :
      (s : Server net rate json send token_of) (r : Request) (e : RouteEntry) (pods : List Text)
      (now : ℕ) (x : Route)
      → IsFair pods (dispatch net rate json send token_of s r e pods now x).1
  unfolding dispatch handle_purge handle_ban handle_xkey
  dispatch-IsFair s r e pods now purge = purge_chosen-IsFair send pods r (
      purge_hosts (header_of r purge_host_header) (purge_hosts_of s.router e.namespace e.cache_name)
        r.host)
  dispatch-IsFair s r e pods now ban =
      ban_with-IsFair send pods json r (token_of e.namespace) (ban_expression send json r)
  dispatch-IsFair s r e pods now xkey = xkey_with-IsFair send pods json r (json.decode_xkey r.body)
  dispatch-IsFair s r e pods now nowhere = (tt, λ why h. refl)

  serve_pods-IsFair :
      (s : Server net rate json send token_of) (r : Request) (e : RouteEntry) (now : ℕ)
      (pods : List Text)
      → let h = (serve_pods net rate json send token_of s r e now pods).1 in
        IsFair pods h × (pods ≡ [] → h.sent ≡ [])
  unfolding serve_pods
  serve_pods-IsFair s r e now [] = ((tt, λ why h. refl), λ h. refl)
  serve_pods-IsFair s r e now (p ∷ pods) =
      (dispatch-IsFair s r e (p ∷ pods) now (route_of r.method r.path), λ h. ground arith)

  -- What must hold of a request before anything is sent for it.
  pub record IsAdmitted (s : Server net rate json send token_of) (r : Request) (now : ℕ)
      (h : Handled) : Type 0 where
    pub cache : RouteEntry
    pub routed : lookup_route s.router r.host ≡ some cache
    pub acl :
        acl_allows net rate json send token_of s
          (cache_key cache.namespace cache.cache_name)
          r.remote_addr
        ≡ true
    pub rate_ok :
        (allow_key rate s.rate_limiter (cache_key cache.namespace cache.cache_name) now).1 ≡ true
    pub pods : get_pod_ips s.pod_map cache.namespace cache.cache_name ≢ []
    pub targets : All (GoesTo (get_pod_ips s.pod_map cache.namespace cache.cache_name)) h.sent

  serve_cache-IsAdmitted :
      (s : Server net rate json send token_of) (r : Request) (now : ℕ) (e : RouteEntry)
      → lookup_route s.router r.host ≡ some e
      → let h = (serve_cache net rate json send token_of s r e now).1 in
        h.sent ≢ [] → IsAdmitted s r now h
  unfolding serve_cache
  serve_cache-IsAdmitted s r now e routed ne =
      let key = cache_key e.namespace e.cache_name in
      let pods = get_pod_ips s.pod_map e.namespace e.cache_name in
      let limiter = allow_key rate s.rate_limiter key now in
      let s' : Server net rate json send token_of = record s { rate_limiter = limiter.0 } in
      elim (Bool-cases (acl_allows net rate json send token_of s key r.remote_addr)) [
        | inr out ↦ absurd (ne (rw (out, serve_cache) refl))
        | inl in_acl ↦ elim (Bool-cases limiter.1) [
          | inr slow ↦ absurd (ne (rw (in_acl, slow, serve_cache) refl))
          | inl passes ↦
              let (fair, none_sent) = serve_pods-IsFair s' r e now pods in
              record {
                cache = e;
                routed = routed;
                acl = in_acl;
                rate_ok = passes;
                pods = λ empty. ne (rw (in_acl, passes, serve_cache) (none_sent empty));
                targets = rw (in_acl, passes, serve_cache) fair.0;
              }
        ]
      ]

  -- Nothing is sent to any pod unless the Host names a registered cache, the cache's ACL admits
  -- the source, its rate limiter has a token and it has pods; and then everything goes to the pods
  -- of just that cache.
  pub serve_http-IsAdmitted :
      (s : Server net rate json send token_of) (r : Request) (now : ℕ)
      → (serve s r now).1.sent ≢ []
      → IsAdmitted s r now (serve s r now).1
  unfolding serve_http
  serve_http-IsAdmitted s r now ne = elim (Option-cases (lookup_route s.router r.host)) [
    | inl miss ↦ absurd (ne (rw (miss, serve_http) refl))
    | inr (e, hit) ↦
        rw (hit, serve_http) (serve_cache-IsAdmitted s r now e hit (rw (hit, serve_http) at ne))
  ]
