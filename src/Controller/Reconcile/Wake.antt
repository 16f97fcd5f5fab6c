-- ===== src/Controller/Reconcile/Wake.antt =====
-- From a change of the endpoints to the reconciles of the caches that it concerns.
use cloud_vinyl.Prelude.{
  ℕ, ◌+◌, ◌<◌, ◌≡◌, refl, Bool, true, false, some, List, [], ◌∷◌, ◌++◌, arith, ltb, if_both, elem,
  Text, text_eq, lookup, lookup-insert,
}
use cloud_vinyl.Controller.Debounce.{
  NamespacedName, key_dec, Debouncer, touch, remaining, remaining_since, debounce_window,
}
use cloud_vinyl.Controller.Status.{VinylCacheStatus}
use cloud_vinyl.Controller.Cluster.{
  VinylCache, Step, add_finalizer, Surroundings, Operator, Result, loaded,
}
use cloud_vinyl.Controller.Reconcile.{
  key_of, is_paused, noting, debounced, with_resources, with_runtime, unpaused, ensured,
}
use cloud_vinyl.Controller.Reconcile.Safety.{IsQuiet, quiet, unmoved, noted, running}
use cloud_vinyl.Controller.Reconcile.Deletion.{
  reconcile, uses_service, caches_with_service, touch_all, endpoint_slice_to_vinyl_cache,
}

touch_all-lookup_last :
    (t : ℕ) (q : NamespacedName) (ks : List NamespacedName) (d : Debouncer)
    → lookup key_dec q d.last_ch ≡ some t
    → lookup key_dec q (touch_all t ks d).last_ch ≡ some t
unfolding touch_all touch
touch_all-lookup_last t q [] d h = h
touch_all-lookup_last t q (k ∷ ks) d h =
    touch_all-lookup_last t q ks (touch d k t)
      (ground (arith, h, lookup-insert key_dec q k t d.last_ch))

touch_all-lookup :
    (t : ℕ) (q : NamespacedName) (ks : List NamespacedName) (d : Debouncer)
    → elem key_dec q ks ≡ true
    → lookup key_dec q (touch_all t ks d).last_ch ≡ some t
unfolding touch_all touch
touch_all-lookup t q [] d h = absurd (ground (arith, h))
touch_all-lookup t q (k ∷ ks) d h = elim (key_dec q k) [
  | yes e ↦
      touch_all-lookup_last t q ks (touch d k t)
        (ground (arith, e, lookup-insert key_dec q k t d.last_ch))
  | no ne ↦ touch_all-lookup t q ks (touch d k t) (ground (arith, h, ne))
]

woken :
    (service : Text) (xs : List VinylCache) (vc : VinylCache) (ys : List VinylCache)
    → uses_service service vc.backends ≡ true
    → elem key_dec (key_of vc) (caches_with_service service (xs ++ (vc ∷ ys))) ≡ true
unfolding caches_with_service
woken service [] vc ys h = ground (arith, h)
woken service (x ∷ xs) vc ys h = ground (arith, woken service xs vc ys h)

window_positive : (w : ℕ) → 0 < debounce_window w
unfolding debounce_window
window_positive w = ground arith

module _ (env : Surroundings) (vc : VinylCache) (t : ℕ)
    (early : env.now < t + debounce_window vc.debounce) where
  waiting :
      (op : Operator)
      → lookup key_dec (key_of vc) op.debouncer.last_ch ≡ some t
      → ltb 0 (remaining op.debouncer (key_of vc) (debounce_window vc.debounce) env.now).1 ≡ true
  unfolding remaining remaining_since
  waiting op h = rw (h) (ground (arith, early, window_positive vc.debounce))

  debounced-IsQuiet :
      (st : VinylCacheStatus) (op : Operator)
      → lookup key_dec (key_of vc) op.debouncer.last_ch ≡ some t
      → IsQuiet op (debounced env vc st op).0
  unfolding debounced
  debounced-IsQuiet st op h =
      rw (waiting op h) (record { same_router = refl; same_pods = refl; same_pushed = refl })

  resources-IsQuiet :
      (st : VinylCacheStatus) (w : List Step × Bool) (op : Operator)
      → lookup key_dec (key_of vc) op.debouncer.last_ch ≡ some t
      → IsQuiet op (with_resources env vc st w op).0
  unfolding with_resources
  resources-IsQuiet st (ss, true) op h = noted ss (debounced-IsQuiet st (noting ss op) h)
  resources-IsQuiet st (ss, false) op h = quiet ss

  unpaused-waits :
      (op : Operator)
      → lookup key_dec (key_of vc) op.debouncer.last_ch ≡ some t
      → IsQuiet op (unpaused env vc op).0
  unfolding unpaused with_runtime
  unpaused-waits op h =
      if_both (λ (r : Operator × Result). IsQuiet op r.0) (is_paused vc) _ _ unmoved
        (resources-IsQuiet _ _ op h)

  ensured-waits :
      (op : Operator)
      → lookup key_dec (key_of vc) op.debouncer.last_ch ≡ some t
      → IsQuiet op (ensured env vc op).0
  unfolding ensured
  ensured-waits op h =
      let P : Operator × Result → Type 0 = λ r. IsQuiet op r.0 in
      if_both P vc.has_finalizer _ _ (unpaused-waits op h) (
        if_both P (env.write add_finalizer) _ _ (noted (add_finalizer ∷ []) (unpaused-waits _ h))
          (quiet (add_finalizer ∷ [])))

  -- A change of an EndpointSlice at the time `t` holds back every cache of the namespace that has
  -- a backend on the slice's Service and is not being deleted: until the debounce window behind `t`
  -- is over, a reconcile of it pushes no VCL and leaves the proxy's tables.
  pub endpoint_slice_to_vinyl_cache-IsQuiet :
      (op : Operator) (service : Text) (xs ys : List VinylCache)
      → text_eq service [] ≡ false
      → uses_service service vc.backends ≡ true
      → env.object ≡ loaded vc
      → vc.is_deleted ≡ false
      → let d = (endpoint_slice_to_vinyl_cache t service (some (xs ++ (vc ∷ ys))) op.debouncer).1 in
        IsQuiet (record op { debouncer = d }) (reconcile env (record op { debouncer = d })).0
  unfolding endpoint_slice_to_vinyl_cache
  endpoint_slice_to_vinyl_cache-IsQuiet op service xs ys named uses found alive =
      let keys = caches_with_service service (xs ++ (vc ∷ ys)) in
      let op' : Operator = record op { debouncer = touch_all t keys op.debouncer } in
      rw (named, running env vc op' found alive)
        (ensured-waits op'
          (touch_all-lookup t (key_of vc) keys op.debouncer (woken service xs vc ys uses)))
