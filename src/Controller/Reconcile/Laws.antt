-- ===== src/Controller/Reconcile/Laws.antt =====
-- How a reconcile ends, behind its writes of resources.
use cloud_vinyl.Prelude.{
  ℕ, ◌*◌, ◌<◌, ◌≡◌, refl, inl, inr, Bool, true, false, Option, none, some, List, arith, ltb,
  if◌then◌else◌, ltb→lt, Bool-cases, length, Text,
}
use cloud_vinyl.Controller.Peers.{Pod, PodObservation, collect_peers}
use cloud_vinyl.Controller.Endpoints.{Address}
use cloud_vinyl.Controller.Push.{PushResult, pushed_to, failed_on_all}
use cloud_vinyl.Controller.Debounce.{Debouncer, remaining, debounce_window}
use cloud_vinyl.Controller.Status.{VinylCacheStatus}
use cloud_vinyl.Controller.Cluster.{
  VinylCache, Generated, generated, generate_error, Surroundings, Operator, Result, failed,
  finished, requeue_after,
}
use cloud_vinyl.Controller.Reconcile.{
  second, push_retry_interval, key_of, finish, after_push, push_generated, with_endpoints,
  with_pods, debounced, update_proxy,
}

-- It comes back: by an error, which is retried, or after some time.
abbrev pub IsAlive : Result → Type 0
IsAlive failed = Unit
IsAlive finished = ⊥
IsAlive (requeue_after n) = 0 < n

-- The end of a reconcile: it comes back, writes no further resource, and leaves the proxy's tables.
pub record Ends (op : Operator) (r : Operator × Result) : Type 0 where
  pub comes_back : IsAlive r.1
  pub same_written : r.0.written ≡ op.written
  pub same_router : r.0.router ≡ op.router
  pub same_pods : r.0.pod_map ≡ op.pod_map

-- The same, where the operator differs from `op` by what it pushed and by its status.
ends :
    {op : Operator} {r : Operator × Result}
    → IsAlive r.1
    → r.0.written ≡ op.written
    → r.0.router ≡ op.router
    → r.0.pod_map ≡ op.pod_map
    → Ends op r
ends c w t p = record { comes_back = c; same_written = w; same_router = t; same_pods = p }

waits-IsAlive : (b : Bool) → IsAlive (requeue_after (if b then 5 * second else 300 * second))
waits-IsAlive true = omega arith
waits-IsAlive false = omega arith

push_retry_interval-positive : (vc : VinylCache) → 0 < push_retry_interval vc
unfolding push_retry_interval
push_retry_interval-positive vc = ground arith

module _ (env : Surroundings) (vc : VinylCache) where
  finish-Ends :
      (st : VinylCacheStatus) (hash : Text) (obs : PodObservation) (names : List (Text × Text))
      (ms : List Text) (n : ℕ) (op : Operator)
      → Ends op (finish env vc st hash obs names ms n op)
  unfolding finish
  finish-Ends st hash obs names ms n op =
      ends (waits-IsAlive (ltb (length obs.ready) vc.cache.replicas)) refl refl refl

  after_push-Ends :
      (st : VinylCacheStatus) (hash desired : Text) (obs : PodObservation)
      (names : List (Text × Text)) (ms : List Text) (r : PushResult) (op : Operator)
      → Ends op (after_push env vc st hash desired obs names ms r op)
  unfolding after_push
  after_push-Ends st hash desired obs names ms (failed_on_all n) op =
      ends (push_retry_interval-positive vc) refl refl refl
  after_push-Ends st hash desired obs names ms (pushed_to ps) op =
      finish-Ends st hash obs _ ms (length ps) op

  push_generated-Ends :
      (st : VinylCacheStatus) (obs : PodObservation) (ms : List Text) (g : Generated)
      (op : Operator)
      → Ends op (push_generated env vc st obs ms g op)
  unfolding push_generated
  push_generated-Ends st obs ms (generate_error why) op = ends tt refl refl refl
  push_generated-Ends st obs ms (generated hash vcl) op =
      let e = after_push-Ends st hash _ obs _ ms _ _ in
      ends e.comes_back e.same_written e.same_router e.same_pods

  with_endpoints-Ends :
      (st : VinylCacheStatus) (obs : PodObservation) (es : Option (List (Text × List Address)))
      (op : Operator)
      → Ends op (with_endpoints env vc st obs es op)
  unfolding with_endpoints
  with_endpoints-Ends st obs none op = ends tt refl refl refl
  with_endpoints-Ends st obs (some es) op = push_generated-Ends st obs _ _ op

  -- The proxy's tables as they were, or with the routes and the ready pods of the cache.
  pub data IsPublished (before : Operator) (after : Operator) : Type 0 where
    kept : after.router ≡ before.router → after.pod_map ≡ before.pod_map → IsPublished before after
    published :
        (pods : List Pod)
        → env.list_pods ≡ some pods
        → after.router ≡ (update_proxy vc (collect_peers pods).ready before).router
        → after.pod_map ≡ (update_proxy vc (collect_peers pods).ready before).pod_map
        → IsPublished before after

  -- The end of a reconcile from its tenth step on.
  pub record Closes (op : Operator) (r : Operator × Result) : Type 0 where
    pub comes_back : IsAlive r.1
    pub same_written : r.0.written ≡ op.written
    pub tables : IsPublished op r.0

  with_pods-Closes :
      (st : VinylCacheStatus) (op : Operator) (pods : Option (List Pod))
      → env.list_pods ≡ pods
      → Closes op (with_pods env vc st pods op)
  unfolding with_pods update_proxy
  with_pods-Closes st op none listed = record {
    comes_back = tt;
    same_written = refl;
    tables = kept refl refl;
  }
  with_pods-Closes st op (some pods) listed =
      let e =
        with_endpoints-Ends st (collect_peers pods) _
          (update_proxy vc (collect_peers pods).ready op) in
      record {
        comes_back = e.comes_back;
        same_written = e.same_written;
        tables = published pods listed e.same_router e.same_pods;
      }

  debounced_tables :
      (op after : Operator) (d : Debouncer)
      → IsPublished (record op { debouncer = d }) after
      → IsPublished op after
  unfolding update_proxy
  debounced_tables op after d (kept r p) = kept r p
  debounced_tables op after d (published pods l r p) = published pods l r p

  pub debounced-Closes :
      (st : VinylCacheStatus) (op : Operator) → Closes op (debounced env vc st op)
  unfolding debounced
  debounced-Closes st op =
      let r = remaining op.debouncer (key_of vc) (debounce_window vc.debounce) env.now in
      let w = with_pods-Closes st (record op { debouncer = r.0 }) env.list_pods refl in
      elim (Bool-cases (ltb 0 r.1)) [
        | inl e ↦
            rw (e)
              (record { comes_back = ltb→lt 0 r.1 e; same_written = refl; tables = kept refl refl })
        | inr e ↦ rw (e) (record {
          comes_back = w.comes_back;
          same_written = w.same_written;
          tables = debounced_tables op _ r.0 w.tables;
        })
      ]
