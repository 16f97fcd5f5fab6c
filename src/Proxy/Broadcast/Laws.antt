-- ===== src/Proxy/Broadcast/Laws.antt =====
-- What the result of a broadcast says about the pods.
use cloud_vinyl.Prelude.{
  ℕ, ◌+◌, ◌≤◌, ◌<◌, ◌≡◌, refl, ap, ◌∙◌, ◌↔◌, Bool, false, ◌||◌, Option, none, some, List, [], ◌∷◌,
  map, arith, if◌then◌else◌, is_some, length, count, Text,
}
use cloud_vinyl.Proxy.Broadcast.{
  add_known, aggregate_objects_purged, aggregate_from, PodResult, BroadcastRequest, Reply,
  build_error, call_error, answer, ok, failed, pod_result, is_2xx, is_success, status_string,
  summarise, call_pods, broadcast,
}

-- A pod that took the request: it answered, with a status in the two hundreds.
abbrev pub took : Reply → Bool
took (build_error e) = false
took (call_error e) = false
took (answer status purged) = is_2xx status

is_success-pod_result : (pod : Text) (r : Reply) → is_success (pod_result pod r) ≡ took r
unfolding is_success pod_result
is_success-pod_result pod (build_error e) = ground arith
is_success-pod_result pod (call_error e) = ground arith
is_success-pod_result pod (answer s p) = ground arith

pod-pod_result : (pod : Text) (r : Reply) → (pod_result pod r).pod ≡ pod
unfolding pod_result
pod-pod_result pod (build_error e) = refl
pod-pod_result pod (call_error e) = refl
pod-pod_result pod (answer s p) = refl

pub count_le_length {ℓ} : {A : Type ℓ} (p : A → Bool) (xs : List A) → count p xs ≤ length xs
count_le_length p [] = omega arith
count_le_length p (x ∷ xs) = ground (arith, count_le_length p xs)

module _ (send : Text → BroadcastRequest → Reply) (req : BroadcastRequest) where
  abbrev pub took_it : Text → Bool
  took_it pod = took (send pod req)

  count-call_pods :
      (pods : List Text) → count is_success (call_pods send req pods) ≡ count took_it pods
  unfolding call_pods
  count-call_pods [] = refl
  count-call_pods (pod ∷ pods) =
      rw (is_success-pod_result pod (send pod req), count-call_pods pods) refl

  pods-call_pods : (pods : List Text) → map (λ r. r.pod) (call_pods send req pods) ≡ pods
  unfolding call_pods
  pods-call_pods [] = refl
  pods-call_pods (pod ∷ pods) = cc (pod-pod_result pod (send pod req), pods-call_pods pods)

  pub broadcast-status :
      (pods : List Text)
      → (broadcast send pods req).status ≡ status_string (length pods) (count took_it pods)
  unfolding broadcast summarise
  broadcast-status pods = ap (status_string (length pods)) (count-call_pods pods)

  -- A broadcast reports each pod once, in order; `succeeded` counts those that took the request;
  -- and the status is "ok" exactly if all did, "failed" exactly if there are pods and none did.
  pub broadcast_lem :
      (pods : List Text)
      → let r = broadcast send pods req in
        (map (λ x. x.pod) r.results ≡ pods)
        × (r.total ≡ length pods)
        × (r.succeeded ≡ count took_it pods)
        × ((r.status ≡ ok) ↔ (count took_it pods ≡ length pods))
        × ((r.status ≡ failed) ↔ ((count took_it pods ≡ 0) × (0 < length pods)))
  unfolding broadcast summarise status_string
  broadcast_lem pods =
      let counted = count-call_pods pods in
      let le = count_le_length took_it pods in
      (
        pods-call_pods pods,
        refl,
        counted,
        (λ e. ground arith, λ e. ground arith),
        (λ e. ground arith, λ e. ground arith),
      )

-- The sum of the known counts, and whether there is any.
abbrev pub known_sum : List PodResult → ℕ
known_sum [] = 0
known_sum (r ∷ rs) = elim r.objects_purged [ none ↦ 0 | some n ↦ n ] + known_sum rs

abbrev pub any_known : List PodResult → Bool
any_known [] = false
any_known (r ∷ rs) = is_some r.objects_purged || any_known rs

abbrev pub start_sum : Option ℕ → ℕ
start_sum none = 0
start_sum (some n) = n

aggregate_from-sum :
    (acc : Option ℕ) (rs : List PodResult)
    → aggregate_from acc rs
      ≡ (if is_some acc || any_known rs then some (start_sum acc + known_sum rs) else none)
unfolding aggregate_from add_known
aggregate_from-sum none [] = refl
aggregate_from-sum (some n) [] = ap some (omega arith)
aggregate_from-sum acc (r ∷ rs) =
    aggregate_from-sum (add_known acc r.objects_purged) rs ∙ step acc r.objects_purged
  where
    step :
        (a c : Option ℕ)
        → (if is_some (add_known a c) || any_known rs
            then some (start_sum (add_known a c) + known_sum rs)
            else none)
          ≡ (if is_some a || (is_some c || any_known rs)
              then some (start_sum a + (elim c [ none ↦ 0 | some n ↦ n ] + known_sum rs))
              else none)
    step none none = ground arith
    step none (some m) = ground arith
    step (some n) none = ground arith
    step (some n) (some m) = ground arith

-- The number of purged objects is known exactly if some pod reported one, and then is the sum of
-- all that were reported: an unknown count is never turned into 0, nor 0 into unknown.
aggregate_objects_purged_lem :
    (rs : List PodResult)
    → aggregate_objects_purged rs ≡ (if any_known rs then some (known_sum rs) else none)
unfolding aggregate_objects_purged
aggregate_objects_purged_lem rs = aggregate_from-sum none rs ∙ ground arith
