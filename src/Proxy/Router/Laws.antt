-- ===== src/Proxy/Router/Laws.antt =====
-- Which hosts the router sends where.
use cloud_vinyl.Prelude.{
  ◌≡◌, refl, sym, ap, ◌∙◌, ◌≢◌, ◌⊎◌, ite, none, some, List, [], ◌∷◌, ◌++◌, append_assoc, arith, All,
  Text, codes, text_dec, lookup, delete, insert, lookup-delete, lookup-insert,
}
use mathlib.Core.List.{append_cancel_right, reverse, reverse-append}
use cloud_vinyl.Proxy.Router.{
  set_purge_hosts, unregister, new_registered_router, register, RouteEntry, cut_last_colon,
  strip_port, lookup_route, RegisteredRouter, short_host, fqdn_host, bare_host, invalidation_suffix,
  cluster_suffix,
}

-- A namespace is a DNS label.
abbrev pub HasNoDot : Text → Type 0
HasNoDot = All (λ c. c ≢ b'.')

All-middle : (xs ys : Text) → ¬ HasNoDot (xs ++ (b'.' ∷ ys))
All-middle [] ys h = h.0 refl
All-middle (x ∷ xs) ys h = All-middle xs ys h.1

-- A text is cut at its last dot in one way.
last_dot :
    (a b n m : Text)
    → HasNoDot n
    → HasNoDot m
    → a ++ (b'.' ∷ n) ≡ b ++ (b'.' ∷ m)
    → (a ≡ b) × (n ≡ m)
last_dot [] [] n m hn hm e = ground arith
last_dot [] (y ∷ b) n m hn hm e = absurd (All-middle b m (rw (← tail) hn))
  where
    tail : n ≡ b ++ (b'.' ∷ m)
    tail = ground arith
last_dot (x ∷ a) [] n m hn hm e = absurd (All-middle a n (rw tail hm))
  where
    tail : a ++ (b'.' ∷ n) ≡ m
    tail = ground arith
last_dot (x ∷ a) (y ∷ b) n m hn hm e = ground (arith, last_dot a b n m hn hm)

-- Two caches share no short host.
short_host_injective :
    (n c m d : Text) → HasNoDot n → HasNoDot m → short_host n c ≡ short_host m d → (n ≡ m) × (c ≡ d)
unfolding short_host bare_host
short_host_injective n c m d hn hm e =
    let (bare, same) = last_dot (c ++ invalidation_suffix) (d ++ invalidation_suffix) n m hn hm e in
    (same, append_cancel_right c d invalidation_suffix bare)

fqdn_host_injective :
    (n c m d : Text) → HasNoDot n → HasNoDot m → fqdn_host n c ≡ fqdn_host m d → (n ≡ m) × (c ≡ d)
unfolding fqdn_host
fqdn_host_injective n c m d hn hm e =
    short_host_injective n c m d hn hm
      (append_cancel_right (short_host n c) (short_host m d) cluster_suffix e)

-- No short host is the fully qualified host of a cache.
short-ne-fqdn : (n c m d : Text) → HasNoDot n → short_host n c ≢ fqdn_host m d
unfolding fqdn_host short_host bare_host
short-ne-fqdn n c m d hn = λ e.
    let front = (d ++ invalidation_suffix) ++ (b'.' ∷ m) in
    let cut =
      last_dot (c ++ invalidation_suffix) (front ++ codes ".svc.cluster") n (codes "local") hn
        (omega arith) (e ∙ sym (append_assoc front (codes ".svc.cluster") (codes ".local"))) in
    let same : reverse invalidation_suffix ++ reverse c
        ≡ reverse (codes ".svc.cluster") ++ reverse front =
      sym (reverse-append c invalidation_suffix)
      ∙ ap reverse cut.0
      ∙ reverse-append front (codes ".svc.cluster") in
    ground arith

abbrev pub HasNoColon : Text → Type 0
HasNoColon = All (λ c. c ≢ b':')

cut_last_colon-none : (s : Text) → HasNoColon s → cut_last_colon s ≡ none
unfolding cut_last_colon
cut_last_colon-none [] h = refl
cut_last_colon-none (c ∷ s) h = rw (cut_last_colon-none s h.1, cut_last_colon) (ground arith)

cut_last_colon-append : (s p : Text) → HasNoColon p → cut_last_colon (s ++ (b':' ∷ p)) ≡ some s
unfolding cut_last_colon
cut_last_colon-append [] p h = rw (cut_last_colon-none p h, cut_last_colon) refl
cut_last_colon-append (c ∷ s) p h = rw (cut_last_colon-append s p h, cut_last_colon) refl

-- A port is cut off, and a host without one is left as it is.
strip_port-port : (s p : Text) → HasNoColon p → strip_port (s ++ (b':' ∷ p)) ≡ s
unfolding strip_port
strip_port-port s p h = rw (cut_last_colon-append s p h, strip_port) refl

strip_port-plain : (s : Text) → HasNoColon s → strip_port s ≡ s
unfolding strip_port
strip_port-plain s h = rw (cut_last_colon-none s h, strip_port) refl

abbrev pub entry : Text → Text → RouteEntry
entry n c = record { namespace = n; cache_name = c }

module _ (r : RegisteredRouter) (n c : Text) where
  lookup-register :
      (q : Text)
      → lookup text_dec q (register r n c).routes
        ≡ ite
            (text_dec q (fqdn_host n c))
            (some (entry n c))
            (ite (text_dec q (short_host n c)) (some (entry n c)) (lookup text_dec q r.routes))
  unfolding register
  lookup-register q =
      lookup-insert text_dec q (fqdn_host n c) (entry n c)
        (insert text_dec (short_host n c) (entry n c) r.routes)
      ∙ ap (λ x. ite (text_dec q (fqdn_host n c)) (some (entry n c)) x)
          (lookup-insert text_dec q (short_host n c) (entry n c) r.routes)

  lookup-unregister :
      (q : Text)
      → lookup text_dec q (unregister r n c).routes
        ≡ ite
            (text_dec q (fqdn_host n c))
            none
            (ite (text_dec q (short_host n c)) none (lookup text_dec q r.routes))
  unfolding unregister
  lookup-unregister q =
      lookup-delete text_dec q (fqdn_host n c) (delete text_dec (short_host n c) r.routes)
      ∙ ap (λ x. ite (text_dec q (fqdn_host n c)) none x)
          (lookup-delete text_dec q (short_host n c) r.routes)

  -- A registered cache is reached by its short and by its fully qualified host, each with a port
  -- behind it (a text without a colon); once it is unregistered, by neither.
  pub lookup_route-registered :
      (port : Text)
      → HasNoColon port
      → (lookup_route (register r n c) (short_host n c ++ (b':' ∷ port)) ≡ some (entry n c))
        × (lookup_route (register r n c) (fqdn_host n c ++ (b':' ∷ port)) ≡ some (entry n c))
        × (lookup_route (unregister r n c) (short_host n c ++ (b':' ∷ port)) ≡ none)
        × (lookup_route (unregister r n c) (fqdn_host n c ++ (b':' ∷ port)) ≡ none)
  unfolding lookup_route
  lookup_route-registered port h = (
    rw (strip_port-port (short_host n c) port h) (ground (arith, lookup-register (short_host n c))),
    rw (strip_port-port (fqdn_host n c) port h) (ground (arith, lookup-register (fqdn_host n c))),
    rw (strip_port-port (short_host n c) port h)
        (ground (arith, lookup-unregister (short_host n c))),
    rw (strip_port-port (fqdn_host n c) port h) (ground (arith, lookup-unregister (fqdn_host n c))),
  )

  -- Registering or unregistering one cache changes no route of another one, not even if a cache
  -- name has dots or looks like a host. Neither namespace may have a dot.
  pub lookup-other :
      (m d : Text)
      → HasNoDot n
      → HasNoDot m
      → ¬ ((m ≡ n) × (d ≡ c))
      → (lookup text_dec (short_host m d) (register r n c).routes
          ≡ lookup text_dec (short_host m d) r.routes)
        × (lookup text_dec (fqdn_host m d) (register r n c).routes
            ≡ lookup text_dec (fqdn_host m d) r.routes)
        × (lookup text_dec (short_host m d) (unregister r n c).routes
            ≡ lookup text_dec (short_host m d) r.routes)
        × (lookup text_dec (fqdn_host m d) (unregister r n c).routes
            ≡ lookup text_dec (fqdn_host m d) r.routes)
  lookup-other m d hn hm other =
      let ss : short_host m d ≢ short_host n c =
        λ e. other (short_host_injective m d n c hm hn e) in
      let ff : fqdn_host m d ≢ fqdn_host n c = λ e. other (fqdn_host_injective m d n c hm hn e) in
      let sf = short-ne-fqdn m d n c hm in
      let fs : fqdn_host m d ≢ short_host n c = λ e. short-ne-fqdn n c m d hn (sym e) in
      (
        ground (arith, lookup-register (short_host m d)),
        ground (arith, lookup-register (fqdn_host m d)),
        ground (arith, lookup-unregister (short_host m d)),
        ground (arith, lookup-unregister (fqdn_host m d)),
      )

-- Every route belongs to the cache whose host it is.
abbrev pub IsSound : RegisteredRouter → Type 0
IsSound r =
    (h : Text) (e : RouteEntry)
    → lookup text_dec h r.routes ≡ some e
    → (h ≡ short_host e.namespace e.cache_name) ⊎ (h ≡ fqdn_host e.namespace e.cache_name)

-- What the controller does to the router.
pub data RouterCall : Type 0 where
  registers unregisters : Text → Text → RouterCall
  sets_purge_hosts : Text → Text → List Text → RouterCall

abbrev pub call : RegisteredRouter → RouterCall → RegisteredRouter
call r (registers n c) = register r n c
call r (unregisters n c) = unregister r n c
call r (sets_purge_hosts n c hosts) = set_purge_hosts r n c hosts

abbrev pub calls : RegisteredRouter → List RouterCall → RegisteredRouter
calls r [] = r
calls r (x ∷ xs) = calls (call r x) xs

call-IsSound : (r : RegisteredRouter) (x : RouterCall) → IsSound r → IsSound (call r x)
call-IsSound r (registers n c) h = λ q e found. ground (arith, lookup-register r n c q, h q e)
call-IsSound r (unregisters n c) h = λ q e found. ground (arith, lookup-unregister r n c q, h q e)
call-IsSound r (sets_purge_hosts n c []) h = unfold set_purge_hosts in h
call-IsSound r (sets_purge_hosts n c (x ∷ xs)) h = unfold set_purge_hosts in h

calls-IsSound : (r : RegisteredRouter) (xs : List RouterCall) → IsSound r → IsSound (calls r xs)
calls-IsSound r [] h = h
calls-IsSound r (x ∷ xs) h = calls-IsSound (call r x) xs (call-IsSound r x h)

-- After any calls of the controller, a Host is routed to a cache only if, its port aside, it is
-- the short or the fully qualified host of just that cache.
pub lookup_route_sound :
    (xs : List RouterCall) (host : Text) (e : RouteEntry)
    → lookup_route (calls new_registered_router xs) host ≡ some e
    → (strip_port host ≡ short_host e.namespace e.cache_name)
      ⊎ (strip_port host ≡ fqdn_host e.namespace e.cache_name)
unfolding lookup_route
lookup_route_sound xs host e found =
    calls-IsSound new_registered_router xs
      (unfold new_registered_router lookup in λ q x miss. ground arith) (strip_port host) e found
