-- ===== src/Controller/Reconcile/Deletion.antt =====
-- internal/controller/finalizer.go and vinylcache_controller.go: the deletion of a cache, a whole
-- reconcile, and which caches an event wakes.
pub mod Laws
use cloud_vinyl.Prelude.{
  pos, negsuc, ℕ, zero, suc, ◌+◌, ◌-◌, ◌*◌, ◌/◌, ◌%◌, ◌^◌, ◌≤◌, ◌<◌, ◌≡◌, refl, sym, ap, ◌∙◌, ◌≢◌,
  ◌↔◌, ◌⊎◌, inl, inr, ite, if_pos, if_neg, Bool, true, false, not, ◌&&◌, ◌||◌, Option, none, some,
  List, [], ◌∷◌, ◌++◌, map, append-nil, append_assoc, map-append, arith, ℕ_discrete, ltb, leb, ◌==◌,
  if◌then◌else◌, ltb→lt, leb→le, le→leb, Bool-cases, is_some, Option-cases, ◌>>=◌, bind_some,
  if_both, length, length-append, keep, length-keep-le, count, count-append, keep-append,
  keep-length_split, All, All-append, elem, Distinct, elem-append, Distinct-snoc, Text, codes,
  text_dec, text_eq, text_eq_refl, text_eq→≡, has_prefix, contains, is_space, is_regexp_space,
  fields_by, fields, trim_left, trim_right, trim_space, is_digit, u64_mod, digits_value, parse_uint,
  ℤ, i64_max, positive_int, atoi, IsToken, fields_by-token, lookup, delete, insert, lookup-delete,
  lookup-insert, lookup-insert_self, lookup-insert_ne, next_digits, digits, printed, decimal,
  IsDigits, decimal-IsDigits, decimal-ne-nil, parse_uint-decimal, atoi-decimal,
}
use cloud_vinyl.Proxy.Router.{unregister}
use cloud_vinyl.Proxy.PodMap.{delete_pods}
use cloud_vinyl.Controller.Endpoints.{Backend}
use cloud_vinyl.Controller.Debounce.{Debouncer, NamespacedName, touch}
use cloud_vinyl.Controller.Cluster.{
  VinylCache, Step, remove_finalizer, delete_slice, Loaded, loaded, missing, load_error,
  Surroundings, Operator, Result, failed, finished,
}
use cloud_vinyl.Controller.Reconcile.{key_of, noting, ensured, write_all}

-- The EndpointSlices to delete: those that are not being deleted already.
unfoldable pub slices_to_delete : List (Text × Bool) → List Step
slices_to_delete [] = []
slices_to_delete ((name, is_deleted) ∷ ss) =
    let rest = slices_to_delete ss in if is_deleted then rest else delete_slice name ∷ rest

unfoldable pub forget : VinylCache → Operator → Operator
forget vc op = record op {
  router = unregister op.router vc.cache.namespace vc.cache.name;
  pod_map = delete_pods op.pod_map vc.cache.namespace vc.cache.name;
}

-- The slices were deleted, or not all of them.
unfoldable pub with_slices_deleted :
    (Step → Bool) → VinylCache → List Step × Bool → Operator → Operator × Result
unfolding forget
with_slices_deleted write vc (done, ok) op =
    let op' = forget vc (noting done op) in
    if not ok
    then (noting done op, failed)
    else (noting (remove_finalizer ∷ []) op', if write remove_finalizer then finished else failed)

unfoldable pub with_slices :
    (Step → Bool) → VinylCache → Option (List (Text × Bool)) → Operator → Operator × Result
unfolding with_slices_deleted slices_to_delete
with_slices write vc none op = (op, failed)
with_slices write vc (some slices) op =
    with_slices_deleted write vc (write_all write (slices_to_delete slices)) op

unfoldable pub handle_deletion : Surroundings → VinylCache → Operator → Operator × Result
unfolding with_slices
handle_deletion env vc op =
    let deleting = with_slices env.write vc env.invalidation_slices op in
    if vc.has_finalizer then deleting else (op, finished)

unfoldable pub with_object : Surroundings → Loaded → Operator → Operator × Result
unfolding handle_deletion ensured
with_object env missing op = (op, finished)
with_object env load_error op = (op, failed)
with_object env (loaded vc) op =
    let deleting = handle_deletion env vc op in
    let running = ensured env vc op in if vc.is_deleted then deleting else running

-- `Reconcile`
unfoldable pub reconcile : Surroundings → Operator → Operator × Result
unfolding with_object
reconcile env op = with_object env env.object op

-- `podToVinylCache`: the cache that a pod's label names.
unfoldable pub pod_to_vinyl_cache : Text → List (Text × Text) → List NamespacedName
pod_to_vinyl_cache namespace labels =
    elim (lookup text_dec (codes "vinyl.bluedynamics.eu/cache-name") labels) [
      | none ↦ []
      | some name ↦ (namespace, name) ∷ []
    ]

abbrev pub uses_service : Text → List Backend → Bool
uses_service service [] = false
uses_service service (b ∷ bs) = text_eq b.service service || uses_service service bs

unfoldable pub caches_with_service : Text → List VinylCache → List NamespacedName
caches_with_service service [] = []
caches_with_service service (vc ∷ vcs) =
    let rest = caches_with_service service vcs in
    if uses_service service vc.backends then key_of vc ∷ rest else rest

unfoldable pub touch_all : ℕ → List NamespacedName → Debouncer → Debouncer
unfolding touch
touch_all now [] d = d
touch_all now (k ∷ ks) d = touch_all now ks (touch d k now)

-- `endpointSliceToVinylCache`: the caches of the namespace that have a backend on the slice's
-- Service, which are touched in the debouncer; `none` for a list that could not be read.
unfoldable pub endpoint_slice_to_vinyl_cache :
    ℕ → Text → Option (List VinylCache) → Debouncer → List NamespacedName × Debouncer
unfolding caches_with_service touch_all
endpoint_slice_to_vinyl_cache now service none d = ([], d)
endpoint_slice_to_vinyl_cache now service (some vcs) d =
    let woken = caches_with_service service vcs in
    let d' = touch_all now woken d in if text_eq service [] then ([], d) else (woken, d')
