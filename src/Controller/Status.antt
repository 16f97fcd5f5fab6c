-- ===== src/Controller/Status.antt =====
-- internal/controller/status.go: `updateStatus`, `setErrorStatus` and `calculatePhase`. The write
-- to the API server, whose failure is only logged, and the metrics are left out; what the API
-- server answers for the StatefulSet is an argument, and `selector_of` is package labels.
pub mod Laws
use cloud_vinyl.Prelude.{
  ℕ, zero, suc, ◌+◌, ◌-◌, ◌*◌, ◌/◌, ◌%◌, ◌^◌, ◌≤◌, ◌<◌, ◌≡◌, refl, sym, ap, ◌∙◌, ◌≢◌, ◌↔◌, ◌⊎◌, inl,
  inr, ite, if_pos, if_neg, Bool, true, false, not, ◌&&◌, ◌||◌, Option, none, some, List, [], ◌∷◌,
  ◌++◌, map, append-nil, append_assoc, map-append, arith, ℕ_discrete, ltb, leb, ◌==◌, if◌then◌else◌,
  ltb→lt, leb→le, le→leb, Bool-cases, is_some, Option-cases, ◌>>=◌, length, length-append, keep,
  length-keep-le, count, count-append, keep-append, keep-length_split, All, All-append, elem,
  Distinct, elem-append, Distinct-snoc, Text, codes, text_dec, text_eq, has_prefix, contains,
  is_space, is_regexp_space, fields_by, fields, trim_left, trim_right, trim_space, is_digit,
  u64_mod, parse_uint, ℤ, i64_max, atoi, IsToken, fields_by-token, lookup, delete, insert,
  lookup-delete, lookup-insert, lookup-insert_self, lookup-insert_ne, next_digits, digits, printed,
  decimal,
}
use cloud_vinyl.Controller.Peers.{PeerBackend, PodObservation, observed_name}
use cloud_vinyl.Controller.Settings.{
  Cache, cond_ready, cond_vcl_synced, cond_backends, cond_progressing, cond_runtime, scaled_to_zero,
  setting, synced_setting, backends_setting, progressing_setting, ready_setting, set_conditions,
  join, ratio,
}
use cloud_vinyl.Controller.Conditions.{
  Condition, Setting, written, condition_true, condition_false, set_condition, find_condition,
  find_condition_status, status_of, find_condition-set_condition, find_condition-set_condition_ne,
}

pub record ActiveVcl : Type 0 where
  pub name : Text
  pub hash : Text
  pub pushed_at : ℕ

pub record ClusterPeer : Type 0 where
  pub pod_name : Text
  pub ready : Bool
  pub active_vcl_hash : Text

pub record ReplicaCounts : Type 0 where
  pub replicas : ℕ
  pub ready_replicas : ℕ
  pub updated_replicas : ℕ
  pub available_replicas : ℕ

pub record VinylCacheStatus : Type 0 where
  pub phase : Text
  pub message : Text
  pub invalidation_url : Text
  pub active_vcl : Option ActiveVcl
  pub cluster_peers : List ClusterPeer
  pub ready_peers : ℕ
  pub total_peers : ℕ
  pub selector : Text
  pub counts : ReplicaCounts
  pub conditions : List Condition

-- The answer to `Get` for the StatefulSet.
pub data StatefulSetRead : Type 0 where
  found : ReplicaCounts → StatefulSetRead
  not_found read_error : StatefulSetRead

abbrev pub phase_stopped : Text
phase_stopped = codes "Stopped"

abbrev pub phase_ready : Text
phase_ready = codes "Ready"

abbrev pub phase_degraded : Text
phase_degraded = codes "Degraded"

abbrev pub phase_pending : Text
phase_pending = codes "Pending"

abbrev pub phase_error : Text
phase_error = codes "Error"

-- `Ready` is True because the cache is scaled to zero.
unfoldable pub is_stopped : Option Condition → Bool
is_stopped none = false
is_stopped (some c) = text_eq c.status condition_true && text_eq c.reason scaled_to_zero

unfoldable pub calculate_phase : List Condition → ℕ → ℕ → Text
unfolding is_stopped find_condition_status
calculate_phase cs ready_peers total_peers =
    let synced = find_condition_status cs cond_vcl_synced in
    let backends = find_condition_status cs cond_backends in
    if is_stopped (find_condition cs cond_ready)
    then phase_stopped
    else if text_eq synced condition_true
        && text_eq backends condition_true
        && leb total_peers ready_peers
    then phase_ready
    else if text_eq synced condition_false || text_eq backends condition_false
    then phase_degraded
    else phase_pending

unfoldable pub invalidation_url : Cache → Text
invalidation_url vc =
    codes "http://" ++ (vc.name ++ (codes "-invalidation." ++ (vc.namespace ++ codes ":8090")))

-- `setReplicaStatus`, the counts: an error leaves them as they are.
unfoldable pub set_counts : StatefulSetRead → ReplicaCounts → ReplicaCounts
set_counts (found c) old = c
set_counts not_found old = record {
  replicas = 0;
  ready_replicas = 0;
  updated_replicas = 0;
  available_replicas = 0;
}
set_counts read_error old = old

unfoldable pub cluster_peers : List Text → List (Text × Text) → List PeerBackend → List ClusterPeer
unfolding observed_name
cluster_peers ready_names vcl_names [] = []
cluster_peers ready_names vcl_names (p ∷ ps) =
    record {
      pod_name = p.name;
      ready = elem text_dec p.name ready_names;
      active_vcl_hash = observed_name vcl_names p.ip;
    }
    ∷ cluster_peers ready_names vcl_names ps

module _ (now : ℕ) (vc : Cache) where
  unfoldable pub set_active_vcl : Text → ℕ → Option ActiveVcl → Option ActiveVcl
  set_active_vcl hash pushed_count old =
      if ltb 0 pushed_count
      then some (record { name = vc.namespace ++ (b'-' ∷ vc.name); hash = hash; pushed_at = now })
      else old

  module _ (selector_of : Text → Text) where
    unfoldable pub update_status :
        VinylCacheStatus
        → Text
        → PodObservation
        → List (Text × Text)
        → List Text
        → ℕ
        → StatefulSetRead
        → VinylCacheStatus
    unfolding set_conditions set_active_vcl invalidation_url cluster_peers set_counts
    update_status st hash obs vcl_names missing pushed_count sts =
        let n = length obs.ready in
        let cs = set_conditions now vc missing n st.conditions in
        record {
          phase = calculate_phase cs n vc.replicas;
          message = st.message;
          invalidation_url = invalidation_url vc;
          active_vcl = set_active_vcl hash pushed_count st.active_vcl;
          cluster_peers = cluster_peers (map (λ p. p.name) obs.ready) vcl_names obs.reachable;
          ready_peers = n;
          total_peers = vc.replicas;
          selector = selector_of vc.name;
          counts = set_counts sts st.counts;
          conditions = cs;
        }

  unfoldable pub set_error_status : VinylCacheStatus → Text → VinylCacheStatus
  unfolding setting
  set_error_status st why = record st {
    phase = phase_error;
    message = why;
    conditions =
        set_condition
          (set_condition st.conditions
            (setting now vc cond_ready condition_false (codes "ReconcileError") why))
          (setting now vc cond_vcl_synced condition_false (codes "VCLPushFailed") why);
  }
