-- ===== src/Controller/Reconcile/Tests.antt =====
-- Runs of reconciles, and their theorems at concrete inputs.
use cloud_vinyl.Prelude.{
  ◌≡◌, refl, ◌⊎◌, inl, true, false, not, ◌||◌, Option, none, some, List, [], ◌∷◌, ◌++◌, arith,
  ℕ_discrete, if◌then◌else◌, keep, All, Text, codes, text_dec, text_eq, lookup, delete, insert,
}
use cloud_vinyl.Catalog.{Runtime, Catalog}
use cloud_vinyl.Proxy.Router.{new_registered_router, short_host, register}
use cloud_vinyl.Proxy.Router.Laws.{HasNoColon}
use cloud_vinyl.Proxy.PodMap.{new_pod_map}
use cloud_vinyl.Proxy.Handlers.{Request, refuse, unknown_cache}
use cloud_vinyl.Proxy.Server.{Server, serve_http}
use cloud_vinyl.Proxy.Server.Tests.{
  exact_net, two_tokens, plain_json, send, no_token, server, ban_shop,
}
use cloud_vinyl.Controller.Endpoints.{
  Endpoint, EndpointSlice, Backend, Address, resolve_backend_endpoints, backends_without_endpoints,
}
use cloud_vinyl.Controller.Endpoints.Laws.{names, is_served, backends_without_endpoints_lem}
use cloud_vinyl.Controller.Push.{pushed}
use cloud_vinyl.Controller.Debounce.{new_debouncer}
use cloud_vinyl.Controller.Status.{not_found}
use cloud_vinyl.Controller.Runtime.{RuntimeSpec}
use cloud_vinyl.Controller.Tests.{empty_status, shop_cache}
use cloud_vinyl.Controller.Cluster.{
  VinylCache, Step, generated, Surroundings, Operator, loaded, finished,
}
use cloud_vinyl.Controller.Reconcile.Laws.{IsAlive}
use cloud_vinyl.Controller.Reconcile.Safety.{
  IsQuiet, IsOtherStep, all_written, resolution_of, reconcile-IsAlive, reconcile-IsQuiet,
  reconcile-IsOtherStep,
}
use cloud_vinyl.Controller.Reconcile.Tables.{IsRouted, reconcile-IsRouted}
use cloud_vinyl.Controller.Reconcile.Wake.{endpoint_slice_to_vinyl_cache-IsQuiet}
use cloud_vinyl.Controller.Reconcile.Deletion.{reconcile, endpoint_slice_to_vinyl_cache}
use cloud_vinyl.Controller.Reconcile.Deletion.Laws.{reconcile-serve_http}

abbrev api : Backend
api = record { name = codes "api"; service = codes "api-svc"; port = 0 }

abbrev web : Backend
web = record { name = codes "web"; service = codes "web-svc"; port = 80 }

-- The Service of `web` has a ready endpoint, that of `api` only a slice without a port.
abbrev slices_of : Text → Option (List EndpointSlice)
slices_of service =
    if text_eq service (codes "web-svc")
    then some (
        record {
          ports = [];
          endpoints =
              record { addresses = codes "10.1.0.1" ∷ []; terminating = none; ready = none } ∷ [];
        }
        ∷ [])
    else some (record { ports = none ∷ []; endpoints = [] } ∷ [])

-- What runs of reconciles compute with.
reconciling : Unit {0}
unfolding text_dec ℕ_discrete lookup insert delete resolve_backend_endpoints
    cloud_vinyl.Controller.Endpoints.resolve_from
    cloud_vinyl.Controller.Endpoints.list_backend_endpoints
    cloud_vinyl.Controller.Endpoints.slice_addresses cloud_vinyl.Controller.Endpoints.pick_port
    cloud_vinyl.Controller.Endpoints.ready_addresses cloud_vinyl.Controller.Endpoints.endpoint_ready
    cloud_vinyl.Controller.Endpoints.first_port cloud_vinyl.Controller.Endpoints.sort_addresses
    cloud_vinyl.Controller.Endpoints.insert_address cloud_vinyl.Catalog.text_ltb
reconciling = tt

backends_without_endpoints_example :
    backends_without_endpoints
      (api ∷ web ∷ [])
      ((codes "web", record { ip = codes "10.1.0.1"; port = 80 } ∷ []) ∷ (codes "api", []) ∷ [])
    ≡ names (keep (λ b. not (is_served b (slices_of b.service))) (api ∷ web ∷ []))
unfolding reconciling
backends_without_endpoints_example =
    backends_without_endpoints_lem slices_of (api ∷ web ∷ [])
      ((codes "web", record { ip = codes "10.1.0.1"; port = 80 } ∷ []) ∷ (codes "api", []) ∷ [])
      (refl, (refl, tt)) refl

abbrev runtime_spec : RuntimeSpec
runtime_spec = record {
  flavor = [];
  version = codes "9.9";
  image = [];
  exporter = none;
  tracing = false;
}

abbrev shop : VinylCache
shop = record {
  cache = shop_cache;
  is_deleted = false;
  has_finalizer = true;
  annotations = [];
  runtime_spec = runtime_spec;
  backends = web ∷ [];
  purge = none;
  debounce = 0;
  backoff_base = 0;
  runtime = none;
  status = empty_status;
}

abbrev deleted_shop : VinylCache
deleted_shop = record shop { is_deleted = true }

abbrev paused_shop : VinylCache
paused_shop = record shop {
  annotations = (codes "vinyl.bluedynamics.eu/pause-vcl-push", codes "true") ∷ [];
}

abbrev around : VinylCache → Surroundings
around vc = record {
  now = 500;
  object = loaded vc;
  write = λ s. true;
  invalidation_slices = some ((codes "shop-1", false) ∷ (codes "shop-2", true) ∷ []);
  list_pods = some [];
  list_slices = slices_of;
  read_stateful_set = not_found;
  selector_of = λ n. n;
  catalog = record { flavors = [] };
  resolution_text = λ r. codes "not in the catalog";
  generate = λ vc peers endpoints. generated (codes "0123abcdef") (codes "vcl 4.1;");
  active = λ ip. none;
  push = λ ip name vcl. pushed;
}

port-HasNoColon : HasNoColon (codes "8090")
port-HasNoColon = (
  λ e. omega (arith, e),
  (λ e. omega (arith, e), (λ e. omega (arith, e), (λ e. omega (arith, e), tt))),
)

abbrev operator : Operator
operator = record {
  router = register new_registered_router (codes "prod") (codes "shop");
  pod_map = new_pod_map;
  debouncer = new_debouncer;
  written = [];
  pushed = [];
  status = none;
}

reconcile-IsAlive_example : IsAlive (reconcile (around shop) operator).1
reconcile-IsAlive_example = reconcile-IsAlive (around shop) shop operator refl refl

pauses :
    (cloud_vinyl.Controller.Reconcile.is_paused paused_shop
      || not (
          all_written (around paused_shop).write (
            cloud_vinyl.Controller.Reconcile.resource_steps
              (resolution_of (around paused_shop) paused_shop).runtime)))
    ≡ true
unfolding reconciling cloud_vinyl.Controller.Reconcile.is_paused
pauses = refl

reconcile-IsQuiet_example : IsQuiet operator (reconcile (around paused_shop) operator).0
reconcile-IsQuiet_example =
    reconcile-IsQuiet (around paused_shop) paused_shop operator refl refl pauses

unresolved : (resolution_of (around shop) shop).runtime ≡ none
unfolding reconciling cloud_vinyl.Controller.Runtime.resolve_runtime
    cloud_vinyl.Controller.Runtime.with_resolution cloud_vinyl.Catalog.resolve
    cloud_vinyl.Catalog.resolve_entry cloud_vinyl.Catalog.or_default
unresolved = refl

reconcile-IsOtherStep_example :
    (new : List Step) × ((reconcile (around shop) operator).0.written ≡ [] ++ new)
    × All IsOtherStep new
reconcile-IsOtherStep_example =
    reconcile-IsOtherStep (around shop) shop operator refl refl unresolved

reconcile-IsRouted_example :
    (((reconcile (around shop) operator).0.router ≡ operator.router)
      × ((reconcile (around shop) operator).0.pod_map ≡ operator.pod_map))
    ⊎ IsRouted (around shop) shop (reconcile (around shop) operator).0 (codes "8090")
reconcile-IsRouted_example =
    reconcile-IsRouted (around shop) shop operator (codes "8090") port-HasNoColon refl refl

endpoint_slice_to_vinyl_cache-IsQuiet_example :
    let d =
      (endpoint_slice_to_vinyl_cache 400 (codes "web-svc") (some (shop ∷ [])) new_debouncer).1 in
    IsQuiet
      (record operator { debouncer = d })
      (reconcile (around shop) (record operator { debouncer = d })).0
unfolding reconciling cloud_vinyl.Controller.Debounce.debounce_window
endpoint_slice_to_vinyl_cache-IsQuiet_example =
    endpoint_slice_to_vinyl_cache-IsQuiet (around shop) shop 400 (omega arith) operator
      (codes "web-svc") [] [] refl refl refl refl

deletion_finishes : (reconcile (around deleted_shop) operator).1 ≡ finished
unfolding reconciling reconcile cloud_vinyl.Controller.Reconcile.Deletion.with_object
    cloud_vinyl.Controller.Reconcile.Deletion.handle_deletion
    cloud_vinyl.Controller.Reconcile.Deletion.with_slices
    cloud_vinyl.Controller.Reconcile.Deletion.with_slices_deleted
    cloud_vinyl.Controller.Reconcile.Deletion.slices_to_delete
    cloud_vinyl.Controller.Reconcile.write_all
deletion_finishes = refl

abbrev to_deleted : Request
to_deleted = record ban_shop { host = codes "shop-invalidation.prod:8090" }

abbrev server_after : Server exact_net two_tokens plain_json send no_token
server_after = record server { router = (reconcile (around deleted_shop) operator).0.router }

reconcile-serve_http_example :
    (serve_http exact_net two_tokens plain_json send no_token server_after to_deleted 1).1
    ≡ refuse unknown_cache
unfolding reconciling short_host
reconcile-serve_http_example =
    reconcile-serve_http (around deleted_shop) deleted_shop operator exact_net two_tokens plain_json
      send no_token refl refl refl deletion_finishes server_after to_deleted (codes "8090") 1 refl
      port-HasNoColon (inl refl)
