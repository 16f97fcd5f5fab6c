-- ===== src/Controller/Settings.antt =====
-- internal/controller/status.go: the conditions that `updateStatus` sets.
use cloud_vinyl.Prelude.{
  ℕ, List, [], ◌∷◌, ◌++◌, leb, ◌==◌, if◌then◌else◌, Text, codes, text_eq, decimal,
}
use cloud_vinyl.Controller.Conditions.{
  Condition, Setting, condition_true, condition_false, set_condition, find_condition_status,
}

-- The identity of a cache, its generation, and `spec.replicas`.
pub record Cache : Type 0 where
  pub namespace : Text
  pub name : Text
  pub generation : ℕ
  pub replicas : ℕ

abbrev pub cond_ready : Text
cond_ready = codes "Ready"

abbrev pub cond_vcl_synced : Text
cond_vcl_synced = codes "VCLSynced"

abbrev pub cond_backends : Text
cond_backends = codes "BackendsAvailable"

abbrev pub cond_progressing : Text
cond_progressing = codes "Progressing"

abbrev pub cond_runtime : Text
cond_runtime = codes "RuntimeResolved"

abbrev pub scaled_to_zero : Text
scaled_to_zero = codes "ScaledToZero"

-- `strings.Join(names, ", ")`
unfoldable pub join : List Text → Text
join [] = []
join (x ∷ []) = x
join (x ∷ y ∷ xs) = x ++ (codes ", " ++ join (y ∷ xs))

unfoldable pub ratio : Text → ℕ → ℕ → Text → Text
ratio before a b after = before ++ (decimal a ++ (b'/' ∷ (decimal b ++ after)))

module _ (now : ℕ) (vc : Cache) where
  unfoldable pub setting : Text → Text → Text → Text → Setting
  setting type status reason message = record {
    condition_type = type;
    status = status;
    reason = reason;
    message = message;
    now = now;
    generation = vc.generation;
  }

  -- The five conditions, in the order in which they are set, for `n` ready peers.
  unfoldable pub synced_setting : ℕ → Setting
  unfolding setting ratio
  synced_setting n =
      if vc.replicas == 0
      then setting cond_vcl_synced condition_true scaled_to_zero
          (codes "scaled to zero replicas, no pods to push the VCL to")
      else setting cond_vcl_synced condition_true (codes "VCLPushed")
          (ratio (codes "VCL active on ") n vc.replicas (codes " ready pods"))

  unfoldable pub backends_setting : List Text → Setting
  unfolding setting join
  backends_setting [] =
      setting cond_backends condition_true (codes "BackendsConfigured")
        (codes "all backends have ready endpoints")
  backends_setting (b ∷ bs) =
      setting cond_backends condition_false (codes "BackendWithoutEndpoints")
        (codes "no ready endpoints for backend(s): " ++ join (b ∷ bs))

  unfoldable pub progressing_setting : Text → ℕ → Setting
  unfolding setting ratio
  progressing_setting runtime n =
      if text_eq runtime condition_false
      then setting cond_progressing condition_true (codes "RuntimeNotInCatalog") (
          codes
            "the StatefulSet is held back because the runtime is not in the catalog (see condition RuntimeResolved)")
      else if vc.replicas == 0
      then setting cond_progressing condition_false scaled_to_zero
          (codes "reconciliation complete, scaled to zero replicas")
      else if leb vc.replicas n
      then setting cond_progressing condition_false (codes "ReconcileComplete")
          (codes "reconciliation complete")
      else setting cond_progressing condition_true (codes "WaitingForReplicas")
          (ratio (codes "waiting for ") n vc.replicas (codes " replicas to become ready"))

  unfoldable pub ready_setting : ℕ → Setting
  unfolding setting ratio
  ready_setting n =
      if vc.replicas == 0
      then setting cond_ready condition_true scaled_to_zero (codes "scaled to zero replicas")
      else if leb vc.replicas n
      then setting cond_ready condition_true (codes "AllReady") (codes "VinylCache is ready")
      else setting cond_ready condition_false (codes "NotAllReady")
          (ratio [] n vc.replicas (codes " replicas ready"))

  unfoldable pub set_conditions : List Text → ℕ → List Condition → List Condition
  unfolding synced_setting backends_setting progressing_setting ready_setting
  set_conditions missing n cs =
      let cs₂ = set_condition (set_condition cs (synced_setting n)) (backends_setting missing) in
      set_condition
        (set_condition cs₂ (progressing_setting (find_condition_status cs₂ cond_runtime) n))
        (ready_setting n)
