-- ===== src/Controller/Peers.antt =====
-- internal/controller/vcl_push.go and vcl_observe.go: which pods are pushed to, and which may
-- take traffic. A pod has the fields of its status that the code reads.
use cloud_vinyl.Prelude.{
  ℕ, zero, suc, ◌≡◌, refl, Bool, true, false, not, ◌&&◌, ◌||◌, Option, none, some, List, [], ◌∷◌,
  ◌++◌, map, arith, ◌==◌, if◌then◌else◌, keep, Text, codes, text_dec, text_eq, lookup, insert,
}

pub record ContainerStatus : Type 0 where
  pub name : Text
  -- `Started`, a pointer.
  pub started : Option Bool

pub record PodCondition : Type 0 where
  pub condition_type : Text
  pub status : Text

pub record Pod : Type 0 where
  pub name : Text
  pub phase : Text
  pub pod_ip : Text
  pub container_statuses : List ContainerStatus
  pub conditions : List PodCondition

pub record PeerBackend : Type 0 where
  pub name : Text
  pub ip : Text
  pub port : ℕ

pub record PodObservation : Type 0 where
  pub reachable : List PeerBackend
  pub ready : List PeerBackend

abbrev pub agent_container_name : Text
agent_container_name = codes "vinyl-agent"

-- `cs.Started != nil && *cs.Started`
abbrev pub is_set : Option Bool → Bool
is_set none = false
is_set (some b) = b

-- The loop of `agentStarted`: the first status of the agent's container decides.
unfoldable pub any_started : List ContainerStatus → Bool
any_started [] = true
any_started (cs ∷ rest) =
    if text_eq cs.name agent_container_name then is_set cs.started else any_started rest

unfoldable pub agent_started : Pod → Bool
unfolding any_started
agent_started pod = any_started pod.container_statuses

unfoldable pub any_ready : List PodCondition → Bool
any_ready [] = false
any_ready (c ∷ cs) =
    if text_eq c.condition_type (codes "Ready") && text_eq c.status (codes "True")
    then true
    else any_ready cs

unfoldable pub is_pod_ready : Pod → Bool
unfolding any_ready
is_pod_ready pod = any_ready pod.conditions

-- `strings.ReplaceAll(name, "-", "_")`
abbrev pub underscored : Text → Text
underscored [] = []
underscored (c ∷ s) = (if c == b'-' then b'_' else c) ∷ underscored s

unfoldable pub peer_of : Pod → PeerBackend
peer_of pod = record { name = underscored pod.name; ip = pod.pod_ip; port = 8080 }

-- The two `continue`s of the loop.
unfoldable pub is_reachable : Pod → Bool
unfolding agent_started
is_reachable pod =
    not (not (text_eq pod.phase (codes "Running")) || text_eq pod.pod_ip []) && agent_started pod

-- `collectPeers`, on the pods that were listed.
unfoldable pub collect_peers : List Pod → PodObservation
unfolding is_reachable peer_of is_pod_ready
collect_peers [] = record { reachable = []; ready = [] }
collect_peers (pod ∷ pods) =
    let rest = collect_peers pods in
    if is_reachable pod
    then record {
      reachable = peer_of pod ∷ rest.reachable;
      ready = (if is_pod_ready pod then peer_of pod ∷ rest.ready else rest.ready);
    }
    else rest

-- Pushing does not wait for readiness: the push targets are the running pods with an address and
-- a started agent, ready or not, and traffic goes to just those of them that are ready.
collect_peers_lem :
    (pods : List Pod)
    → ((collect_peers pods).reachable ≡ map peer_of (keep is_reachable pods))
      × ((collect_peers pods).ready ≡ map peer_of (keep is_pod_ready (keep is_reachable pods)))
unfolding collect_peers
collect_peers_lem [] = (refl, refl)
collect_peers_lem (pod ∷ pods) =
    let (a, b) = collect_peers_lem pods in (ground (arith, a, b), ground (arith, a, b))

-- The name of the VCL: namespace, cache, and the first eight characters of the hash.
abbrev pub take_up_to : ℕ → Text → Text
take_up_to zero s = []
take_up_to (suc n) [] = []
take_up_to (suc n) (c ∷ s) = c ∷ take_up_to n s

unfoldable pub vcl_name_for : Text → Text → Text → Text
vcl_name_for namespace name hash = namespace ++ (b'-' ∷ (name ++ (b'-' ∷ take_up_to 8 hash)))

-- An agent's answer, `none` for an error, which counts as no name.
unfoldable pub answer_of : Option Text → Text
answer_of none = []
answer_of (some name) = name

-- `observed[ip]`, empty for a key that is not there.
unfoldable pub observed_name : List (Text × Text) → Text → Text
unfolding answer_of
observed_name observed ip = answer_of (lookup text_dec ip observed)

unfoldable pub pods_needing_vcl : List PeerBackend → List (Text × Text) → Text → List PeerBackend
unfolding observed_name
pods_needing_vcl reachable observed desired =
    keep (λ p. not (text_eq (observed_name observed p.ip) desired)) reachable

-- `active_vcl_name` is `AgentClient.ActiveVCLName` on the address of a pod.
module _ (active_vcl_name : Text → Option Text) where
  -- The loop of `observeVCLNames`.
  unfoldable pub observe_from : List (Text × Text) → List PeerBackend → List (Text × Text)
  unfolding answer_of
  observe_from observed [] = observed
  observe_from observed (p ∷ ps) =
      observe_from (insert text_dec p.ip (answer_of (active_vcl_name p.ip)) observed) ps

  unfoldable pub observe_vcl_names : List PeerBackend → List (Text × Text)
  unfolding observe_from
  observe_vcl_names pods = observe_from [] pods
