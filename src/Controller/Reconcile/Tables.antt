-- ===== src/Controller/Reconcile/Tables.antt =====
-- What a reconcile leaves in the tables of the invalidation proxy.
use cloud_vinyl.Prelude.{
  ◌≡◌, refl, ap, ◌∙◌, ◌⊎◌, inl, inr, Bool, true, false, some, List, [], ◌∷◌, ◌++◌, map, if_both,
  Text,
}
use cloud_vinyl.Proxy.Router.{
  RegisteredRouter, register, set_purge_hosts, lookup_route, short_host, fqdn_host,
}
use cloud_vinyl.Proxy.Router.Laws.{HasNoColon, entry, lookup_route-registered}
use cloud_vinyl.Proxy.PodMap.{get_pod_ips, get_pod_ips-update_self}
use cloud_vinyl.Controller.Peers.{Pod, collect_peers}
use cloud_vinyl.Controller.Status.{VinylCacheStatus}
use cloud_vinyl.Controller.Cluster.{
  VinylCache, Step, add_finalizer, Surroundings, Operator, Result, loaded,
}
use cloud_vinyl.Controller.Reconcile.{
  is_paused, noting, with_resources, with_runtime, unpaused, ensured, update_proxy,
}
use cloud_vinyl.Controller.Reconcile.Laws.{IsPublished, kept, published, debounced-Closes}
use cloud_vinyl.Controller.Reconcile.Safety.{running}
use cloud_vinyl.Controller.Reconcile.Deletion.{reconcile}

module _ (env : Surroundings) (vc : VinylCache) where
  noting-IsPublished :
      (ss : List Step) (op after : Operator)
      → IsPublished env vc (noting ss op) after
      → IsPublished env vc op after
  unfolding update_proxy
  noting-IsPublished ss op after (kept r p) = kept r p
  noting-IsPublished ss op after (published pods l r p) = published pods l r p

  with_resources-IsPublished :
      (st : VinylCacheStatus) (w : List Step × Bool) (op : Operator)
      → IsPublished env vc op (with_resources env vc st w op).0
  unfolding with_resources
  with_resources-IsPublished st (ss, true) op =
      noting-IsPublished ss op _ (debounced-Closes env vc st (noting ss op)).tables
  with_resources-IsPublished st (ss, false) op = kept refl refl

  unpaused-IsPublished : (op : Operator) → IsPublished env vc op (unpaused env vc op).0
  unfolding unpaused with_runtime
  unpaused-IsPublished op =
      if_both (λ (r : Operator × Result). IsPublished env vc op r.0) (is_paused vc) _ _
        (kept refl refl) (with_resources-IsPublished _ _ op)

  ensured-IsPublished : (op : Operator) → IsPublished env vc op (ensured env vc op).0
  unfolding ensured
  ensured-IsPublished op =
      let P : Operator × Result → Type 0 = λ r. IsPublished env vc op r.0 in
      if_both P vc.has_finalizer _ _ (unpaused-IsPublished op) (
        if_both P (env.write add_finalizer) _ _
          (noting-IsPublished (add_finalizer ∷ []) op _ (unpaused-IsPublished _)) (kept refl refl))

  lookup_route-set_purge_hosts :
      (r : RegisteredRouter) (n c host : Text) (hosts : List Text)
      → lookup_route (set_purge_hosts r n c hosts) host ≡ lookup_route r host
  unfolding lookup_route set_purge_hosts
  lookup_route-set_purge_hosts r n c host [] = refl
  lookup_route-set_purge_hosts r n c host (h ∷ hs) = refl

  -- Both hosts of the cache, with any port, lead to it, and its pods are those that were listed
  -- and may take traffic.
  pub record IsRouted (op : Operator) (port : Text) : Type 0 where
    pub pods : List Pod
    pub listed : env.list_pods ≡ some pods
    pub short :
        lookup_route op.router (short_host vc.cache.namespace vc.cache.name ++ (b':' ∷ port))
        ≡ some (entry vc.cache.namespace vc.cache.name)
    pub fqdn :
        lookup_route op.router (fqdn_host vc.cache.namespace vc.cache.name ++ (b':' ∷ port))
        ≡ some (entry vc.cache.namespace vc.cache.name)
    pub pod_ips :
        get_pod_ips op.pod_map vc.cache.namespace vc.cache.name
        ≡ map (λ p. p.ip) (collect_peers pods).ready

  routed :
      (op after : Operator) (port : Text)
      → HasNoColon port
      → IsPublished env vc op after
      → ((after.router ≡ op.router) × (after.pod_map ≡ op.pod_map)) ⊎ IsRouted after port
  unfolding update_proxy
  routed op after port hp (kept r p) = inl (r, p)
  routed op after port hp (published pods l r p) =
      let n = vc.cache.namespace in
      let c = vc.cache.name in
      let routes = lookup_route-registered op.router n c port hp in
      inr (record {
        pods = pods;
        listed = l;
        short =
            ap (λ x. lookup_route x (short_host n c ++ (b':' ∷ port))) r
            ∙ lookup_route-set_purge_hosts (register op.router n c) n c _ _
            ∙ routes.0;
        fqdn =
            ap (λ x. lookup_route x (fqdn_host n c ++ (b':' ∷ port))) r
            ∙ lookup_route-set_purge_hosts (register op.router n c) n c _ _
            ∙ routes.1;
        pod_ips = ap (λ x. get_pod_ips x n c) p ∙ get_pod_ips-update_self op.pod_map n c n c _;
      })

  -- After a reconcile of a cache that is not being deleted, the proxy's tables are what they were,
  -- or they lead both hosts of the cache, with any port, to the pods that were listed in this
  -- reconcile and may take traffic, and to no others.
  pub reconcile-IsRouted :
      (op : Operator) (port : Text)
      → HasNoColon port
      → env.object ≡ loaded vc
      → vc.is_deleted ≡ false
      → (((reconcile env op).0.router ≡ op.router) × ((reconcile env op).0.pod_map ≡ op.pod_map))
        ⊎ IsRouted (reconcile env op).0 port
  reconcile-IsRouted op port hp found alive =
      rw (running env vc op found alive)
        (routed op (ensured env vc op).0 port hp (ensured-IsPublished op))
