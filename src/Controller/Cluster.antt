-- ===== src/Controller/Cluster.antt =====
-- internal/controller/vinylcache_controller.go: the object that a reconcile is about, what it meets
-- at the API server, at the generator and at the agents, and what the operator keeps and does.
use cloud_vinyl.Prelude.{ℕ, Bool, Option, List, Text}
use cloud_vinyl.Proxy.Router.{RegisteredRouter}
use cloud_vinyl.Proxy.PodMap.{PodMap}
use cloud_vinyl.Catalog.{Runtime, Catalog, Resolution}
use cloud_vinyl.Controller.Peers.{Pod, PeerBackend}
use cloud_vinyl.Controller.Endpoints.{Backend, Address, EndpointSlice}
use cloud_vinyl.Controller.Push.{PushReply}
use cloud_vinyl.Controller.Debounce.{Debouncer}
use cloud_vinyl.Controller.Settings.{Cache}
use cloud_vinyl.Controller.Status.{VinylCacheStatus, StatefulSetRead}
use cloud_vinyl.Controller.Runtime.{RuntimeSpec, RuntimeStatus}

pub record VinylCache : Type 0 where
  pub cache : Cache
  pub is_deleted : Bool
  pub has_finalizer : Bool
  pub annotations : List (Text × Text)
  pub runtime_spec : RuntimeSpec
  pub backends : List Backend
  -- spec.invalidation.purge
  pub purge : Option (List Text)
  pub debounce : ℕ
  pub backoff_base : ℕ
  pub runtime : Option RuntimeStatus
  pub status : VinylCacheStatus

-- A write to the API server.
pub data Step : Type 0 where
  add_finalizer remove_finalizer write_runtime services monitoring endpoint_slice : Step
  network_policies secret config_map : Step
  stateful_set : Runtime → Step
  delete_slice : Text → Step

pub data Loaded : Type 0 where
  loaded : VinylCache → Loaded
  missing load_error : Loaded

pub data Generated : Type 0 where
  generated : Text → Text → Generated
  generate_error : Text → Generated

-- What a reconcile meets: the API server (`none` and `false` for its errors), the catalog, the
-- generator and the agents.
pub record Surroundings : Type 0 where
  pub now : ℕ
  pub object : Loaded
  pub write : Step → Bool
  -- The EndpointSlices of the invalidation Service, and whether each is being deleted already.
  pub invalidation_slices : Option (List (Text × Bool))
  pub list_pods : Option (List Pod)
  pub list_slices : Text → Option (List EndpointSlice)
  pub read_stateful_set : StatefulSetRead
  pub selector_of : Text → Text
  pub catalog : Catalog
  pub resolution_text : Resolution → Text
  pub generate : VinylCache → List PeerBackend → List (Text × List Address) → Generated
  pub active : Text → Option Text
  pub push : Text → Text → Text → PushReply

-- What the operator keeps between reconciles, and what it did: writes, pushes and the status.
pub record Operator : Type 0 where
  pub router : RegisteredRouter
  pub pod_map : PodMap
  pub debouncer : Debouncer
  pub written : List Step
  pub pushed : List PeerBackend
  pub status : Option VinylCacheStatus

pub data Result : Type 0 where
  failed finished : Result
  requeue_after : ℕ → Result
