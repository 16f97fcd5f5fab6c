-- ===== src/Controller/Reconcile.antt =====
-- internal/controller/vinylcache_controller.go: the steps of `Reconcile` for an object that is not
-- being deleted, the last step first.
pub mod Deletion
pub mod Laws
pub mod Safety
pub mod Tables
pub mod Wake
pub mod Tests
use cloud_vinyl.Prelude.{
  pos, negsuc, ℕ, zero, suc, ◌+◌, ◌-◌, ◌*◌, ◌/◌, ◌%◌, ◌^◌, ◌≤◌, ◌<◌, ◌≡◌, refl, sym, ap, ◌∙◌, ◌≢◌,
  ◌↔◌, ◌⊎◌, inl, inr, ite, if_pos, if_neg, Bool, true, false, not, ◌&&◌, ◌||◌, Option, none, some,
  List, [], ◌∷◌, ◌++◌, map, append-nil, append_assoc, map-append, arith, ℕ_discrete, ltb, leb, ◌==◌,
  if◌then◌else◌, ltb→lt, leb→le, le→leb, Bool-cases, is_some, Option-cases, ◌>>=◌, bind_some,
  if_both, length, length-append, keep, length-keep-le, count, count-append, keep-append,
  keep-length_split, All, All-append, elem, Distinct, elem-append, Distinct-snoc, Text, codes,
  text_dec, text_eq, text_eq_refl, text_eq→≡, has_prefix, contains, is_space, is_regexp_space,
  fields_by, fields, trim_left, trim_right, trim_space, is_digit, u64_mod, digits_value, parse_uint,
  ℤ, i64_max, positive_int, atoi, IsToken, fields_by-token, lookup, delete, insert, lookup-delete,
  lookup-insert, lookup-insert_self, lookup-insert_ne, next_digits, digits, printed, decimal,
  IsDigits, decimal-IsDigits, decimal-ne-nil, parse_uint-decimal, atoi-decimal,
}
use cloud_vinyl.Proxy.Router.{RegisteredRouter, register, unregister, set_purge_hosts}
use cloud_vinyl.Proxy.PodMap.{PodMap, update, delete_pods}
use cloud_vinyl.Catalog.{Runtime, Catalog, Resolution}
use cloud_vinyl.Controller.Peers.{
  Pod, PeerBackend, PodObservation, collect_peers, observe_vcl_names, pods_needing_vcl,
  vcl_name_for,
}
use cloud_vinyl.Controller.Endpoints.{
  Backend, Address, EndpointSlice, resolve_backend_endpoints, backends_without_endpoints,
}
use cloud_vinyl.Controller.Push.{PushReply, PushResult, pushed_to, failed_on_all, push_vcl}
use cloud_vinyl.Controller.Debounce.{Debouncer, NamespacedName, remaining, debounce_window, touch}
use cloud_vinyl.Controller.Settings.{Cache}
use cloud_vinyl.Controller.Conditions.{Condition}
use cloud_vinyl.Controller.Status.{
  VinylCacheStatus, StatefulSetRead, update_status, set_error_status,
}
use cloud_vinyl.Controller.Runtime.{RuntimeSpec, RuntimeStatus, RuntimeResult, resolve_runtime}
use cloud_vinyl.Controller.Cluster.{
  VinylCache, Step, add_finalizer, remove_finalizer, write_runtime, services, monitoring,
  endpoint_slice, network_policies, secret, config_map, stateful_set, delete_slice, Loaded, loaded,
  missing, load_error, Generated, generated, generate_error, Surroundings, Operator, Result, failed,
  finished, requeue_after,
}

abbrev pub second : ℕ
second = 1000000000

abbrev pub pause_annotation : Text
pause_annotation = codes "vinyl.bluedynamics.eu/pause-vcl-push"

abbrev annotation_is : Option Text → Text → Bool
annotation_is none value = false
annotation_is (some v) value = text_eq v value

unfoldable pub is_paused : VinylCache → Bool
is_paused vc = annotation_is (lookup text_dec pause_annotation vc.annotations) (codes "true")

unfoldable pub push_retry_interval : VinylCache → ℕ
push_retry_interval vc = if ltb 0 vc.backoff_base then vc.backoff_base else 30 * second

abbrev pub key_of : VinylCache → NamespacedName
key_of vc = (vc.cache.namespace, vc.cache.name)

-- `updateProxy`
unfoldable pub update_proxy : VinylCache → List PeerBackend → Operator → Operator
update_proxy vc peers op = record op {
  router =
      set_purge_hosts (register op.router vc.cache.namespace vc.cache.name) vc.cache.namespace
        vc.cache.name (elim vc.purge [ none ↦ [] | some hosts ↦ hosts ]);
  pod_map = update op.pod_map vc.cache.namespace vc.cache.name (map (λ p. p.ip) peers);
}

-- The writes in order, up to the first that fails; whether all of them did well.
unfoldable pub write_all : (Step → Bool) → List Step → List Step × Bool
write_all write [] = ([], true)
write_all write (s ∷ ss) =
    let rest = write_all write ss in if write s then (s ∷ rest.0, rest.1) else (s ∷ [], false)

unfoldable pub resource_steps : Option Runtime → List Step
resource_steps rt =
    elim rt [ none ↦ [] | some r ↦ stateful_set r ∷ [] ]
    ++ (services ∷ monitoring ∷ endpoint_slice ∷ network_policies ∷ secret ∷ config_map ∷ [])

abbrev pub noting : List Step → Operator → Operator
noting ss op = record op { written = op.written ++ ss }

-- `obs.vclNames[p.IP] = desired` for the pods that took the VCL.
unfoldable pub record_pushed : Text → List PeerBackend → List (Text × Text) → List (Text × Text)
record_pushed desired [] names = names
record_pushed desired (p ∷ ps) names = record_pushed desired ps (insert text_dec p.ip desired names)

module _ (env : Surroundings) (vc : VinylCache) where
  -- Step 12, with the interval to the next reconcile.
  unfoldable pub finish :
      VinylCacheStatus
      → Text
      → PodObservation
      → List (Text × Text)
      → List Text
      → ℕ
      → Operator
      → Operator × Result
  finish st hash obs names missing_backends count op = (
    record op {
      status = some (
          update_status env.now vc.cache env.selector_of st hash obs names missing_backends count
            env.read_stateful_set);
    },
    requeue_after (if ltb (length obs.ready) vc.cache.replicas then 5 * second else 300 * second),
  )

  abbrev failure_text : ℕ → Text
  failure_text n = codes "VCL push failed on all " ++ (decimal n ++ codes " pods")

  unfoldable pub after_push :
      VinylCacheStatus
      → Text
      → Text
      → PodObservation
      → List (Text × Text)
      → List Text
      → PushResult
      → Operator
      → Operator × Result
  unfolding finish record_pushed push_retry_interval
  after_push st hash desired obs names missing_backends (failed_on_all n) op = (
    record op { status = some (set_error_status env.now vc.cache st (failure_text n)) },
    requeue_after (push_retry_interval vc),
  )
  after_push st hash desired obs names missing_backends (pushed_to ps) op =
      finish st hash obs (record_pushed desired ps names) missing_backends (length ps) op

  unfoldable pub push_generated :
      VinylCacheStatus → PodObservation → List Text → Generated → Operator → Operator × Result
  unfolding after_push
  push_generated st obs missing_backends (generate_error why) op =
      (record op { status = some (set_error_status env.now vc.cache st why) }, failed)
  push_generated st obs missing_backends (generated hash vcl) op =
      let desired = vcl_name_for vc.cache.namespace vc.cache.name hash in
      let names = observe_vcl_names env.active obs.reachable in
      let needing = pods_needing_vcl obs.reachable names desired in
      after_push st hash desired obs names missing_backends (push_vcl env.push desired vcl needing)
        (record op { pushed = op.pushed ++ needing })

  unfoldable pub with_endpoints :
      VinylCacheStatus
      → PodObservation
      → Option (List (Text × List Address))
      → Operator
      → Operator × Result
  unfolding push_generated
  with_endpoints st obs none op = (op, failed)
  with_endpoints st obs (some endpoints) op =
      push_generated st obs (backends_without_endpoints vc.backends endpoints)
        (env.generate vc obs.ready endpoints) op

  unfoldable pub with_pods : VinylCacheStatus → Option (List Pod) → Operator → Operator × Result
  unfolding update_proxy with_endpoints
  with_pods st none op = (op, failed)
  with_pods st (some pods) op =
      let obs = collect_peers pods in
      with_endpoints st obs (resolve_backend_endpoints env.list_slices vc.backends)
        (update_proxy vc obs.ready op)

  -- Step 10 and on: the debounce, and the push.
  unfoldable pub debounced : VinylCacheStatus → Operator → Operator × Result
  unfolding with_pods
  debounced st op =
      let r = remaining op.debouncer (key_of vc) (debounce_window vc.debounce) env.now in
      let op' = record op { debouncer = r.0 } in
      let pushing = with_pods st env.list_pods op' in
      if ltb 0 r.1 then (op', requeue_after r.1) else pushing

  unfoldable pub with_resources : VinylCacheStatus → List Step × Bool → Operator → Operator × Result
  unfolding debounced
  with_resources st (done, ok) op =
      let rest = debounced st (noting done op) in if ok then rest else (noting done op, failed)

  -- Steps 5 to 9b.
  unfoldable pub with_runtime : RuntimeResult → Operator → Operator × Result
  unfolding with_resources write_all resource_steps
  with_runtime rt op =
      let writing = if rt.changed then write_runtime ∷ [] else [] in
      with_resources (record vc.status { conditions = rt.conditions })
        (write_all env.write (writing ++ resource_steps rt.runtime)) op

  -- Step 4 and on.
  unfoldable pub unpaused : Operator → Operator × Result
  unfolding is_paused with_runtime
  unpaused op =
      let running =
        with_runtime
          (resolve_runtime env.now vc.cache vc.runtime_spec env.catalog env.resolution_text
            vc.runtime vc.status.conditions)
          op in
      if is_paused vc then (op, requeue_after (30 * second)) else running

  -- Step 3 and on.
  unfoldable pub ensured : Operator → Operator × Result
  unfolding unpaused
  ensured op =
      let op' = noting (add_finalizer ∷ []) op in
      let kept = unpaused op in
      let added = unpaused op' in
      if vc.has_finalizer then kept else if env.write add_finalizer then added else (op', failed)
