-- ===== src/Controller/Reconcile/Deletion/Laws.antt =====
-- What the deletion of a cache leaves, down to what the invalidation proxy answers.
use cloud_vinyl.Prelude.{
  ℕ, ◌≡◌, refl, sym, ap, ◌∙◌, ◌⊎◌, inl, inr, Bool, true, false, Option, none, some, List, [], ◌∷◌,
  ◌++◌, arith, if◌then◌else◌, Bool-cases, All, Text,
}
use cloud_vinyl.Proxy.Router.{unregister, lookup_route, short_host, fqdn_host}
use cloud_vinyl.Proxy.Router.Laws.{HasNoColon, lookup_route-registered}
use cloud_vinyl.Proxy.PodMap.{delete_pods}
use cloud_vinyl.Proxy.Broadcast.{BroadcastRequest, Reply}
use cloud_vinyl.Proxy.Acl.{NetPackage}
use cloud_vinyl.Proxy.RateLimit.{RatePackage}
use cloud_vinyl.Proxy.Handlers.{Request, Json, refuse, unknown_cache}
use cloud_vinyl.Proxy.Server.{Server, serve_http, reject_unknown_host}
use cloud_vinyl.Controller.Cluster.{
  VinylCache, Step, remove_finalizer, Surroundings, Operator, loaded, finished,
}
use cloud_vinyl.Controller.Reconcile.{noting, write_all, ensured}
use cloud_vinyl.Controller.Reconcile.Deletion.{
  slices_to_delete, forget, with_slices_deleted, with_slices, handle_deletion, with_object,
  reconcile,
}

abbrev AllWritten : (Step → Bool) → List Step → Type 0
AllWritten write = All (λ s. write s ≡ true)

write_all_complete :
    (write : Step → Bool) (ss : List Step)
    → (write_all write ss).1 ≡ true
    → ((write_all write ss).0 ≡ ss) × AllWritten write ss
unfolding write_all
write_all_complete write [] h = (refl, tt)
write_all_complete write (s ∷ ss) h = elim (Bool-cases (write s)) [
  | inl e ↦
      let ih = write_all_complete write ss (ground (arith, h, e)) in
      rw (e) (ap (λ ys. s ∷ ys) ih.0, (refl, ih.1))
  | inr e ↦ absurd (ground (arith, h, e))
]

module _ (env : Surroundings) (vc : VinylCache) (op : Operator) where
  -- What a finished deletion did.
  pub record IsForgotten (after : Operator) : Type 0 where
    pub slices : List (Text × Bool)
    pub listed : env.invalidation_slices ≡ some slices
    pub deleted : All (λ s. env.write s ≡ true) (slices_to_delete slices)
    pub released : env.write remove_finalizer ≡ true
    pub order : after.written ≡ (op.written ++ slices_to_delete slices) ++ (remove_finalizer ∷ [])
    pub router : after.router ≡ unregister op.router vc.cache.namespace vc.cache.name
    pub pod_map : after.pod_map ≡ delete_pods op.pod_map vc.cache.namespace vc.cache.name

  slices_deleted-finished :
      (w : List Step × Bool)
      → (with_slices_deleted env.write vc w op).1 ≡ finished
      → (w.1 ≡ true)
        × (env.write remove_finalizer ≡ true)
        × ((with_slices_deleted env.write vc w op).0
            ≡ noting (remove_finalizer ∷ []) (forget vc (noting w.0 op)))
  unfolding with_slices_deleted
  slices_deleted-finished (ss, true) h = (refl, ground (arith, h), refl)
  slices_deleted-finished (ss, false) h = absurd (ground (arith, h))

  slices-IsForgotten :
      (o : Option (List (Text × Bool)))
      → env.invalidation_slices ≡ o
      → (with_slices env.write vc o op).1 ≡ finished
      → IsForgotten (with_slices env.write vc o op).0
  unfolding with_slices forget
  slices-IsForgotten none listed h = absurd (ground (arith, h))
  slices-IsForgotten (some slices) listed h =
      let f = slices_deleted-finished (write_all env.write (slices_to_delete slices)) h in
      let c = write_all_complete env.write (slices_to_delete slices) f.0 in
      record {
        slices = slices;
        listed = listed;
        deleted = c.1;
        released = f.1;
        order =
            ap (λ x. x.written) f.2 ∙ ap (λ ys. (op.written ++ ys) ++ (remove_finalizer ∷ [])) c.0;
        router = ap (λ x. x.router) f.2;
        pod_map = ap (λ x. x.pod_map) f.2;
      }

  deleting :
      env.object ≡ loaded vc
      → vc.is_deleted ≡ true
      → vc.has_finalizer ≡ true
      → reconcile env op ≡ with_slices env.write vc env.invalidation_slices op
  unfolding reconcile with_object handle_deletion
  deleting found gone kept =
      ap (λ o. with_object env o op) found
      ∙ ap (λ b. if b then handle_deletion env vc op else ensured env vc op) gone
      ∙ ap (λ b. if b then with_slices env.write vc env.invalidation_slices op else (op, finished))
          kept

  -- When the reconcile of a deleted cache with the operator's finalizer is finished, then it
  -- listed and deleted every EndpointSlice of the invalidation Service that was not being deleted
  -- already, removed the finalizer as its last write, and took the routes and the pods of the
  -- cache from the proxy's tables.
  pub reconcile-IsForgotten :
      env.object ≡ loaded vc
      → vc.is_deleted ≡ true
      → vc.has_finalizer ≡ true
      → (reconcile env op).1 ≡ finished
      → IsForgotten (reconcile env op).0
  reconcile-IsForgotten found gone kept h =
      let e = deleting found gone kept in
      rw (e) (slices-IsForgotten env.invalidation_slices refl (sym (ap (λ x. x.1) e) ∙ h))

  module _ (net : NetPackage) (rate : RatePackage) (json : Json)
      (send : Text → BroadcastRequest → Reply) (token_of : Text → Text) where
    -- From then on the invalidation proxy, which reads the same tables, answers a request for
    -- either host of the cache, with any port, that it knows no such cache, and sends nothing.
    pub reconcile-serve_http :
        env.object ≡ loaded vc
        → vc.is_deleted ≡ true
        → vc.has_finalizer ≡ true
        → (reconcile env op).1 ≡ finished
        → (s : Server net rate json send token_of) (r : Request) (port : Text) (now : ℕ)
        → s.router ≡ (reconcile env op).0.router
        → HasNoColon port
        → (r.host ≡ short_host vc.cache.namespace vc.cache.name ++ (b':' ∷ port))
          ⊎ (r.host ≡ fqdn_host vc.cache.namespace vc.cache.name ++ (b':' ∷ port))
        → (serve_http net rate json send token_of s r now).1 ≡ refuse unknown_cache
    unfolding serve_http reject_unknown_host
    reconcile-serve_http found gone kept h s r port now same hp host =
        let f = reconcile-IsForgotten found gone kept h in
        let n = vc.cache.namespace in
        let c = vc.cache.name in
        let routes = lookup_route-registered op.router n c port hp in
        let unknown : lookup_route (unregister op.router n c) r.host ≡ none = elim host [
          | inl e ↦ ap (lookup_route (unregister op.router n c)) e ∙ routes.2
          | inr e ↦ ap (lookup_route (unregister op.router n c)) e ∙ routes.3
        ] in
        rw (ap (λ x. lookup_route x r.host) (same ∙ f.router) ∙ unknown, serve_http) refl
