-- ===== src/Controller/Tests.antt =====
-- The reconcile loop's decisions at concrete clusters.
use cloud_vinyl.Prelude.{
  ◌≡◌, refl, ◌≢◌, true, false, not, ◌&&◌, Option, none, some, List, [], ◌∷◌, arith, ℕ_discrete,
  if◌then◌else◌, length, keep, Text, codes, text_dec, text_eq, has_prefix, contains,
}
use cloud_vinyl.Controller.Peers.{
  Pod, PeerBackend, peer_of, is_reachable, is_pod_ready, collect_peers, agent_container_name,
  observe_vcl_names, pods_needing_vcl, answer_of, vcl_name_for,
}
use cloud_vinyl.Controller.Push.{
  PushReply, pushed, push_error, took, pods_needing_vcl-observe_vcl_names,
}
use cloud_vinyl.Controller.Debounce.{
  NamespacedName, new_debouncer, remaining, touch, remaining-touch_ne,
}
use cloud_vinyl.Controller.Settings.{Cache}
use cloud_vinyl.Controller.Conditions.{Condition, Setting, written}
use cloud_vinyl.Controller.Status.{VinylCacheStatus, not_found, update_status, set_error_status}
use cloud_vinyl.Controller.Status.Laws.{expected_phase, update_status-expected_phase}

abbrev starting : Pod
starting = record {
  name = codes "shop-0";
  phase = codes "Running";
  pod_ip = codes "10.0.0.1";
  container_statuses = record { name = agent_container_name; started = some true } ∷ [];
  conditions = record { condition_type = codes "Ready"; status = codes "False" } ∷ [];
}

abbrev serving : Pod
serving = record starting {
  name = codes "shop-1";
  pod_ip = codes "10.0.0.2";
  conditions = record { condition_type = codes "Ready"; status = codes "True" } ∷ [];
}

abbrev pending : Pod
pending = record starting { phase = codes "Pending"; pod_ip = [] }

abbrev pods : List Pod
pods = starting ∷ pending ∷ serving ∷ []

observed_counts :
    (length (collect_peers pods).reachable ≡ 2) × (length (collect_peers pods).ready ≡ 1)
unfolding collect_peers is_reachable is_pod_ready text_dec ℕ_discrete
observed_counts = (refl, refl)

abbrev shop_vcl : Text
shop_vcl = codes "prod-shop-0123abcd"

name_of_vcl : vcl_name_for (codes "prod") (codes "shop") (codes "0123abcdef") ≡ shop_vcl
unfolding vcl_name_for
name_of_vcl = refl

abbrev peers : List PeerBackend
peers = peer_of starting ∷ peer_of serving ∷ []

-- Only the first agent takes the VCL, and reports it from then on.
agent : Text → Text → Text → PushReply
agent ip name vcl =
    if text_eq ip (codes "10.0.0.1") && text_eq name shop_vcl
    then pushed
    else push_error (codes "refused")

active : Text → Option Text
active ip = if text_eq ip (codes "10.0.0.1") then some shop_vcl else none

refused_is_not_taken : took (push_error (codes "refused")) ≡ false
unfolding took contains has_prefix
refused_is_not_taken = refl

pods_needing_vcl-observe_vcl_names_example :
    pods_needing_vcl peers (observe_vcl_names active peers) shop_vcl
    ≡ keep (λ p. not (text_eq (answer_of (active p.ip)) shop_vcl)) peers
pods_needing_vcl-observe_vcl_names_example =
    pods_needing_vcl-observe_vcl_names active peers shop_vcl

abbrev shop : NamespacedName
shop = (codes "prod", codes "shop")

abbrev blog : NamespacedName
blog = (codes "prod", codes "blog")

shop≢blog : shop ≢ blog
unfolding text_dec ℕ_discrete
shop≢blog = λ e. ground (arith, e)

remaining-touch_ne_example :
    (remaining (touch new_debouncer blog 700) shop 1000 800).1
    ≡ (remaining new_debouncer shop 1000 800).1
remaining-touch_ne_example = remaining-touch_ne new_debouncer shop blog 1000 800 700 shop≢blog

abbrev was_ready : Setting
was_ready = record {
  condition_type = codes "Ready";
  status = codes "True";
  reason = codes "AllReady";
  message = [];
  now = 5;
  generation = 1;
}

abbrev not_ready : Setting
not_ready = record was_ready { status = codes "False"; now = 9 }

abbrev conditions : List Condition
conditions = written was_ready 3 ∷ []

abbrev pub shop_cache : Cache
shop_cache = record { namespace = codes "prod"; name = codes "shop"; generation = 1; replicas = 2 }

abbrev pub empty_status : VinylCacheStatus
empty_status = record {
  phase = [];
  message = [];
  invalidation_url = [];
  active_vcl = none;
  cluster_peers = [];
  ready_peers = 0;
  total_peers = 0;
  selector = [];
  counts = record {
    replicas = 0;
    ready_replicas = 0;
    updated_replicas = 0;
    available_replicas = 0;
  };
  conditions = [];
}

abbrev failed : VinylCacheStatus
failed = set_error_status 1 shop_cache empty_status (codes "no pods")

abbrev missing : List Text
missing = codes "api" ∷ []

update_status-expected_phase_example :
    (update_status 7 shop_cache
      (λ n. n)
      failed
      (codes "0123abcdef")
      (collect_peers pods)
      []
      missing
      1
      not_found).phase
    ≡ expected_phase 2 (length (collect_peers pods).ready) missing
update_status-expected_phase_example =
    update_status-expected_phase (λ n. n) 7 shop_cache failed (codes "0123abcdef")
      (collect_peers pods) [] missing 1 not_found
