-- ===== src/Controller/Reconcile/Safety.antt =====
-- What a reconcile of a cache that is not being deleted does, and does not do.
use cloud_vinyl.Prelude.{
  ◌≡◌, refl, sym, ◌∙◌, inl, inr, Bool, true, false, not, ◌&&◌, ◌||◌, Option, none, some, List, [],
  ◌∷◌, ◌++◌, append-nil, append_assoc, arith, if◌then◌else◌, Bool-cases, if_both, All, All-append,
}
use cloud_vinyl.Catalog.{Runtime}
use cloud_vinyl.Controller.Status.{VinylCacheStatus}
use cloud_vinyl.Controller.Runtime.{RuntimeResult, resolve_runtime}
use cloud_vinyl.Controller.Cluster.{
  VinylCache, Step, add_finalizer, write_runtime, stateful_set, Surroundings, Operator, Result,
  loaded,
}
use cloud_vinyl.Controller.Reconcile.{
  is_paused, write_all, resource_steps, noting, with_resources, with_runtime, unpaused, ensured,
}
use cloud_vinyl.Controller.Reconcile.Laws.{IsAlive, debounced-Closes}
use cloud_vinyl.Controller.Reconcile.Deletion.{reconcile, with_object}

-- Neither what the proxy routes by nor any pod was touched.
pub record IsQuiet (before after : Operator) : Type 0 where
  pub same_router : after.router ≡ before.router
  pub same_pods : after.pod_map ≡ before.pod_map
  pub same_pushed : after.pushed ≡ before.pushed

pub quiet : {op : Operator} (ss : List Step) → IsQuiet op (noting ss op)
quiet ss = record { same_router = refl; same_pods = refl; same_pushed = refl }

pub unmoved : {op : Operator} → IsQuiet op op
unmoved = record { same_router = refl; same_pods = refl; same_pushed = refl }

abbrev pub all_written : (Step → Bool) → List Step → Bool
all_written write [] = true
all_written write (s ∷ ss) = write s && all_written write ss

write_all-all_written :
    (write : Step → Bool) (ss : List Step) → (write_all write ss).1 ≡ all_written write ss
unfolding write_all
write_all-all_written write [] = refl
write_all-all_written write (s ∷ ss) = ground (arith, write_all-all_written write ss)

write_all-All :
    (P : Step → Type 0) (write : Step → Bool) (ss : List Step)
    → All P ss
    → All P (write_all write ss).0
unfolding write_all
write_all-All P write [] h = tt
write_all-All P write (s ∷ ss) (p, h) = elim (Bool-cases (write s)) [
  | inl e ↦ rw (e) (p, write_all-All P write ss h)
  | inr e ↦ rw (e) (p, tt)
]

all_written-append :
    (write : Step → Bool) (xs ys : List Step)
    → all_written write ys ≡ false
    → all_written write (xs ++ ys) ≡ false
all_written-append write [] ys h = h
all_written-append write (x ∷ xs) ys h = ground (arith, all_written-append write xs ys h)

abbrev pub resolution_of : Surroundings → VinylCache → RuntimeResult
resolution_of env vc =
    resolve_runtime env.now vc.cache vc.runtime_spec env.catalog env.resolution_text vc.runtime
      vc.status.conditions

-- The status of the runtime, if it changed, and the resources.
abbrev planned : Surroundings → VinylCache → List Step
planned env vc =
    (if (resolution_of env vc).changed then write_runtime ∷ [] else [])
    ++ resource_steps (resolution_of env vc).runtime

pub noted :
    {op : Operator} {r : Operator} (ss : List Step) → IsQuiet (noting ss op) r → IsQuiet op r
noted ss q = record {
  same_router = q.same_router;
  same_pods = q.same_pods;
  same_pushed = q.same_pushed;
}

module _ (env : Surroundings) (vc : VinylCache) where
  with_resources-written :
      (st : VinylCacheStatus) (w : List Step × Bool) (op : Operator)
      → (with_resources env vc st w op).0.written ≡ op.written ++ w.0
  unfolding with_resources
  with_resources-written st (ss, true) op = (debounced-Closes env vc st (noting ss op)).same_written
  with_resources-written st (ss, false) op = refl

  with_resources-IsAlive :
      (st : VinylCacheStatus) (w : List Step × Bool) (op : Operator)
      → IsAlive (with_resources env vc st w op).1
  unfolding with_resources
  with_resources-IsAlive st (ss, true) op = (debounced-Closes env vc st (noting ss op)).comes_back
  with_resources-IsAlive st (ss, false) op = tt

  with_resources-IsQuiet :
      (st : VinylCacheStatus) (w : List Step × Bool) (op : Operator)
      → w.1 ≡ false
      → IsQuiet op (with_resources env vc st w op).0
  unfolding with_resources
  with_resources-IsQuiet st (ss, ok) op h = rw (h) (quiet ss)

  unpaused-IsAlive : (op : Operator) → IsAlive (unpaused env vc op).1
  unfolding unpaused with_runtime
  unpaused-IsAlive op =
      if_both (λ (r : Operator × Result). IsAlive r.1) (is_paused vc) _ _ (omega arith)
        (with_resources-IsAlive _ _ op)

  pub ensured-IsAlive : (op : Operator) → IsAlive (ensured env vc op).1
  unfolding ensured
  ensured-IsAlive op =
      if_both (λ (r : Operator × Result). IsAlive r.1) vc.has_finalizer _ _ (unpaused-IsAlive op)
        (if_both (λ (r : Operator × Result). IsAlive r.1) (env.write add_finalizer) _ _
          (unpaused-IsAlive _) tt)

  unpaused-IsQuiet :
      (op : Operator)
      → (is_paused vc
          || not (all_written env.write (resource_steps (resolution_of env vc).runtime)))
        ≡ true
      → IsQuiet op (unpaused env vc op).0
  unfolding unpaused with_runtime
  unpaused-IsQuiet op h = elim (Bool-cases (is_paused vc)) [
    | inl e ↦ rw (e) unmoved
    | inr e ↦ rw (e) (
        with_resources-IsQuiet _ (write_all env.write (planned env vc)) op (
          write_all-all_written env.write (planned env vc)
          ∙ all_written-append env.write
              (if (resolution_of env vc).changed then write_runtime ∷ [] else [])
              (resource_steps (resolution_of env vc).runtime) (ground (arith, h, e))))
  ]

  ensured-IsQuiet :
      (op : Operator)
      → (is_paused vc
          || not (all_written env.write (resource_steps (resolution_of env vc).runtime)))
        ≡ true
      → IsQuiet op (ensured env vc op).0
  unfolding ensured
  ensured-IsQuiet op h =
      let P : Operator × Result → Type 0 = λ r. IsQuiet op r.0 in
      if_both P vc.has_finalizer _ _ (unpaused-IsQuiet op h) (
        if_both P (env.write add_finalizer) _ _
          (noted (add_finalizer ∷ []) (unpaused-IsQuiet (noting (add_finalizer ∷ []) op) h))
          (quiet (add_finalizer ∷ [])))

  unpaused-written :
      (P : Step → Type 0) (op : Operator)
      → P write_runtime
      → All P (resource_steps (resolution_of env vc).runtime)
      → (new : List Step) × ((unpaused env vc op).0.written ≡ op.written ++ new) × All P new
  unfolding unpaused with_runtime
  unpaused-written P op pw ps = elim (Bool-cases (is_paused vc)) [
    | inl e ↦ rw (e) ([], sym (append-nil op.written), tt)
    | inr e ↦ rw (e) (
      (write_all env.write (planned env vc)).0,
      with_resources-written _ (write_all env.write (planned env vc)) op,
      write_all-All P env.write (planned env vc) (
          All-append P (if (resolution_of env vc).changed then write_runtime ∷ [] else [])
            (resource_steps (resolution_of env vc).runtime)
            (if_both (All P) (resolution_of env vc).changed _ _ (pw, tt) tt) ps),
    )
  ]

  ensured-written :
      (P : Step → Type 0) (op : Operator)
      → P add_finalizer
      → P write_runtime
      → All P (resource_steps (resolution_of env vc).runtime)
      → (new : List Step) × ((ensured env vc op).0.written ≡ op.written ++ new) × All P new
  unfolding ensured
  ensured-written P op pf pw ps =
      let Q : Operator × Result → Type 0 =
        λ r. (new : List Step) × (r.0.written ≡ op.written ++ new) × All P new in
      let added = unpaused-written P (noting (add_finalizer ∷ []) op) pw ps in
      if_both Q vc.has_finalizer _ _ (unpaused-written P op pw ps) (
        if_both Q (env.write add_finalizer) _ _
          (
            add_finalizer ∷ added.0,
            added.1 ∙ append_assoc op.written (add_finalizer ∷ []) added.0,
            (pf, added.2),
          )
          (add_finalizer ∷ [], refl, (pf, tt)))

-- A write to anything but the StatefulSet.
abbrev pub IsOtherStep : Step → Type 0
IsOtherStep (stateful_set rt) = ⊥
IsOtherStep other = Unit

without_runtime : (o : Option Runtime) → o ≡ none → All IsOtherStep (resource_steps o)
unfolding resource_steps
without_runtime none e = ground arith
without_runtime (some rt) e = absurd (ground (arith, e))

module _ (env : Surroundings) (vc : VinylCache) (op : Operator) (found : env.object ≡ loaded vc)
    (kept : vc.is_deleted ≡ false) where
  pub running : reconcile env op ≡ ensured env vc op
  unfolding reconcile with_object
  running = rw (found, kept) refl

  -- A cache that exists and is not being deleted is never left alone: a reconcile of it fails,
  -- which is retried, or comes back after a time that is not zero.
  pub reconcile-IsAlive : IsAlive (reconcile env op).1
  reconcile-IsAlive = rw (running) (ensured-IsAlive env vc op)

  -- A reconcile of a cache that is not being deleted changes neither the routes nor the pods that
  -- the invalidation proxy knows, and pushes no VCL, while the push is paused by the annotation or
  -- while some resource of the cache cannot be written.
  pub reconcile-IsQuiet :
      (is_paused vc || not (all_written env.write (resource_steps (resolution_of env vc).runtime)))
        ≡ true
      → IsQuiet op (reconcile env op).0
  reconcile-IsQuiet h = rw (running) (ensured-IsQuiet env vc op h)

  -- When the runtime is not in the catalog, a reconcile does not write the StatefulSet, whatever
  -- else it writes.
  pub reconcile-IsOtherStep :
      (resolution_of env vc).runtime ≡ none
      → (new : List Step) × ((reconcile env op).0.written ≡ op.written ++ new) × All IsOtherStep new
  reconcile-IsOtherStep e = rw (running) (
      ensured-written env vc IsOtherStep op tt tt
        (without_runtime (resolution_of env vc).runtime e))
