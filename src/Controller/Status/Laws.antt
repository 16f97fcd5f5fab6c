-- ===== src/Controller/Status/Laws.antt =====
-- What `updateStatus` reports, whatever the status was before.
use mathlib.Core.Path.{subst}
use cloud_vinyl.Prelude.{
  ℕ, ◌≡◌, refl, ap, ◌∙◌, ◌≢◌, false, some, List, [], ◌∷◌, arith, ℕ_discrete, leb, ◌==◌,
  if◌then◌else◌, length, Text, text_dec, text_eq,
}
use cloud_vinyl.Controller.Settings.{
  Cache, cond_ready, cond_vcl_synced, cond_backends, cond_progressing, cond_runtime, setting,
  synced_setting, backends_setting, progressing_setting, ready_setting, set_conditions,
}
use cloud_vinyl.Controller.Conditions.{
  transition_time, written, find_condition, condition_true, Condition, Setting, set_condition,
  find_condition_status, status_of, find_condition-set_condition, find_condition-set_condition_ne,
}
use cloud_vinyl.Controller.Status.{
  StatefulSetRead, phase_pending, phase_ready, PodObservation, phase_degraded, VinylCacheStatus,
  is_stopped, update_status, calculate_phase, phase_stopped,
}

status-set_condition :
    (cs : List Condition) (s : Setting)
    → find_condition_status (set_condition cs s) s.condition_type ≡ s.status
unfolding find_condition_status
status-set_condition cs s = ap status_of (find_condition-set_condition cs s)

status-set_condition_ne :
    (cs : List Condition) (s : Setting) (t : Text)
    → t ≢ s.condition_type
    → find_condition_status (set_condition cs s) t ≡ find_condition_status cs t
unfolding find_condition_status
status-set_condition_ne cs s t ne = ap status_of (find_condition-set_condition_ne cs s t ne)

differ : (a b : Text) → text_eq a b ≡ false → a ≢ b
differ a b h = λ e. ground (arith, h, e)

-- The four types that `updateStatus` sets differ.
abbrev pub TypesDiffer : Type 0
TypesDiffer =
    (cond_vcl_synced ≢ cond_ready)
    × (cond_vcl_synced ≢ cond_progressing)
    × (cond_vcl_synced ≢ cond_backends)
    × (cond_backends ≢ cond_ready)
    × (cond_backends ≢ cond_progressing)

types_differ : TypesDiffer
unfolding text_dec ℕ_discrete
types_differ = (
  differ cond_vcl_synced cond_ready refl,
  differ cond_vcl_synced cond_progressing refl,
  differ cond_vcl_synced cond_backends refl,
  differ cond_backends cond_ready refl,
  differ cond_backends cond_progressing refl,
)

module _ (now : ℕ) (vc : Cache) where
  type_of_ready : (n : ℕ) → (ready_setting now vc n).condition_type ≡ cond_ready
  unfolding ready_setting setting
  type_of_ready n = ground arith

  type_of_synced : (n : ℕ) → (synced_setting now vc n).condition_type ≡ cond_vcl_synced
  unfolding synced_setting setting
  type_of_synced n = ground arith

  type_of_backends :
      (missing : List Text) → (backends_setting now vc missing).condition_type ≡ cond_backends
  unfolding backends_setting setting
  type_of_backends [] = refl
  type_of_backends (b ∷ bs) = refl

  type_of_progressing :
      (runtime : Text) (n : ℕ)
      → (progressing_setting now vc runtime n).condition_type ≡ cond_progressing
  unfolding progressing_setting setting
  type_of_progressing runtime n = ground arith

  -- A status that is set is read back, under the type that the setting is known to have.
  status_of-set :
      (cs : List Condition) (s : Setting) {t : Text}
      → s.condition_type ≡ t
      → find_condition_status (set_condition cs s) t ≡ s.status
  status_of-set cs s e =
      subst (λ t. find_condition_status (set_condition cs s) t ≡ s.status) e
        (status-set_condition cs s)

  status_of-keep :
      (cs : List Condition) (s : Setting) (t : Text) {u : Text}
      → s.condition_type ≡ u
      → t ≢ u
      → find_condition_status (set_condition cs s) t ≡ find_condition_status cs t
  status_of-keep cs s t e ne = status-set_condition_ne cs s t (λ h. ne (h ∙ e))

  module _ (missing : List Text) (n : ℕ) (cs : List Condition) where
    synced_status :
        find_condition_status (set_conditions now vc missing n cs) cond_vcl_synced ≡ condition_true
    unfolding set_conditions synced_setting setting
    synced_status =
        let s₁ = synced_setting now vc n in
        let s₂ = backends_setting now vc missing in
        let cs₁ = set_condition cs s₁ in
        let cs₂ = set_condition cs₁ s₂ in
        let s₃ = progressing_setting now vc (find_condition_status cs₂ cond_runtime) n in
        let true_ : s₁.status ≡ condition_true = ground arith in
        status_of-keep (set_condition cs₂ s₃) (ready_setting now vc n) cond_vcl_synced
          (type_of_ready n) types_differ.0
        ∙ status_of-keep cs₂ s₃ cond_vcl_synced
            (type_of_progressing (find_condition_status cs₂ cond_runtime) n) types_differ.1
        ∙ status_of-keep cs₁ s₂ cond_vcl_synced (type_of_backends missing) types_differ.2
        ∙ status_of-set cs s₁ (type_of_synced n)
        ∙ true_

    backends_status :
        find_condition_status (set_conditions now vc missing n cs) cond_backends
        ≡ (backends_setting now vc missing).status
    unfolding set_conditions
    backends_status =
        let s₂ = backends_setting now vc missing in
        let cs₁ = set_condition cs (synced_setting now vc n) in
        let cs₂ = set_condition cs₁ s₂ in
        let s₃ = progressing_setting now vc (find_condition_status cs₂ cond_runtime) n in
        status_of-keep (set_condition cs₂ s₃) (ready_setting now vc n) cond_backends
          (type_of_ready n) types_differ.3
        ∙ status_of-keep cs₂ s₃ cond_backends
            (type_of_progressing (find_condition_status cs₂ cond_runtime) n) types_differ.4
        ∙ status_of-set cs₁ s₂ (type_of_backends missing)

    ready_found :
        (time : ℕ) × (find_condition (set_conditions now vc missing n cs) cond_ready
          ≡ some (written (ready_setting now vc n) time))
    unfolding set_conditions
    ready_found =
        let cs₂ =
          set_condition (set_condition cs (synced_setting now vc n))
            (backends_setting now vc missing) in
        let cs₃ =
          set_condition cs₂
            (progressing_setting now vc (find_condition_status cs₂ cond_runtime) n) in
        let s₄ = ready_setting now vc n in
        (
          transition_time (find_condition cs₃ s₄.condition_type) s₄,
          subst
              (λ t.
                find_condition (set_condition cs₃ s₄) t
                ≡ some (written s₄ (transition_time (find_condition cs₃ s₄.condition_type) s₄)))
              (type_of_ready n) (find_condition-set_condition cs₃ s₄),
        )

-- The phase as a function of the cluster alone: replicas asked for, ready peers, backends without
-- endpoints.
abbrev pub expected_phase : ℕ → ℕ → List Text → Text
expected_phase replicas n missing = if replicas == 0 then phase_stopped else elim missing [
  | b ∷ bs ↦ phase_degraded
  | [] ↦ if leb replicas n then phase_ready else phase_pending
]

phase_of_conditions :
    (now : ℕ) (vc : Cache) (missing : List Text) (n time : ℕ) (cs : List Condition)
    → find_condition_status cs cond_vcl_synced ≡ condition_true
    → find_condition_status cs cond_backends ≡ (backends_setting now vc missing).status
    → find_condition cs cond_ready ≡ some (written (ready_setting now vc n) time)
    → calculate_phase cs n vc.replicas ≡ expected_phase vc.replicas n missing
unfolding calculate_phase is_stopped backends_setting ready_setting setting text_dec ℕ_discrete
phase_of_conditions now vc [] n time cs synced backends found =
    rw (synced, backends, found) (ground arith)
phase_of_conditions now vc (b ∷ bs) n time cs synced backends found =
    rw (synced, backends, found) (ground arith)

-- The phase that `updateStatus` sets, at the end of a reconcile without an error, depends on the
-- replicas, the ready peers and the backends without endpoints alone, not on the status before it,
-- an error included, nor on how many pods took the VCL: "Stopped" for 0 replicas; else "Degraded"
-- if a backend has no endpoints; else "Ready" if enough peers are ready, and "Pending" if not.
pub update_status-expected_phase :
    (selector_of : Text → Text) (now : ℕ) (vc : Cache) (st : VinylCacheStatus) (hash : Text)
    (obs : PodObservation) (names : List (Text × Text)) (missing : List Text) (pushed : ℕ)
    (sts : StatefulSetRead)
    → (update_status now vc selector_of st hash obs names missing pushed sts).phase
      ≡ expected_phase vc.replicas (length obs.ready) missing
unfolding update_status
update_status-expected_phase selector_of now vc st hash obs names missing pushed sts =
    let n = length obs.ready in
    let (time, found) = ready_found now vc missing n st.conditions in
    phase_of_conditions now vc missing n time (set_conditions now vc missing n st.conditions)
      (synced_status now vc missing n st.conditions)
      (backends_status now vc missing n st.conditions) found
