-- ===== src/Webhook/Validate/Tests.antt =====
-- Runs of the validation, and its theorems at concrete inputs.
use cloud_vinyl.Prelude.{
  pos, ◌≡◌, refl, true, false, ◌&&◌, none, some, [], ◌∷◌, ℕ_discrete, leb, Text, codes, text_dec,
  has_prefix, contains, is_digit, lookup,
}
use cloud_vinyl.Catalog.{Catalog, Runtime, Resolution}
use cloud_vinyl.Controller.Tests.{shop_cache}
use cloud_vinyl.Controller.Runtime.{RuntimeSpec, resolve_runtime}
use cloud_vinyl.Webhook.Runtime.{
  effective_flavor, validate_runtime, validate_runtime-resolve_runtime,
}
use cloud_vinyl.Webhook.Validate.{
  Spec, Packages, Storage, VolumeMount, VolumeClaim, NamedBackend, undeclared_mount, reserved_mount,
  duplicate_claim, bad_param_key, forbidden_param,
}
use cloud_vinyl.Webhook.Validate.Whole.{validate_vinyl_cache}
use cloud_vinyl.Webhook.Validate.Laws.{IsAccepted, validate_vinyl_cache-IsAccepted}

-- ASCII letters, and a CIDR is what has a slash.
abbrev ascii : Packages
ascii = record {
  is_cidr = λ t. contains t (codes "/");
  is_host_port = λ t. contains t (codes ":");
  runes = λ t. t;
  is_letter = λ c. leb b'a' c && leb c b'z';
  is_digit_rune = is_digit;
}

abbrev data_mount : VolumeMount
data_mount = record { name = codes "data"; mount_path = codes "/data" }

abbrev good : Spec
good = record {
  varnish_params = codes "thread_pools" ∷ [];
  storage =
      record {
        name = codes "s0";
        storage_type = codes "file";
        path = codes "/data/c";
        size = pos 0;
      }
      ∷ [];
  backends = record { name = codes "api"; hash_header = some (codes "X-Site") } ∷ [];
  hash_header = none;
  purge_sources = some (codes "10.0.0.0/8" ∷ []);
  ban_sources = none;
  xkey_sources = none;
  volumes = codes "conf" ∷ [];
  claims = record { name = codes "data"; contents = codes "1Gi" } ∷ [];
  mounts = data_mount ∷ [];
  env = codes "TZ" ∷ [];
  short_anti_affinity = false;
  full_anti_affinity = true;
  proxy_protocol = record { enabled = true; port = 8081 };
  exporter = none;
  tracing = record { enabled = true; endpoint = codes "otel:4317" };
}

-- What runs of the validation compute with.
validating : Unit {0}
unfolding text_dec ℕ_discrete has_prefix contains is_digit validate_vinyl_cache
    cloud_vinyl.Webhook.Validate.Whole.checks cloud_vinyl.Webhook.Validate.Whole.check_backend
    cloud_vinyl.Webhook.Validate.Whole.is_valid_vcl_identifier
    cloud_vinyl.Webhook.Validate.Whole.check_cidr cloud_vinyl.Webhook.Validate.Whole.check_tracing
    cloud_vinyl.Webhook.Validate.Whole.check_volumes cloud_vinyl.Webhook.Validate.check_param
    cloud_vinyl.Webhook.Validate.is_valid_varnish_param_key
    cloud_vinyl.Webhook.Validate.check_storage cloud_vinyl.Webhook.Validate.check_file_storage
    cloud_vinyl.Webhook.Validate.check_hash_header cloud_vinyl.Webhook.Validate.is_header_token
    cloud_vinyl.Webhook.Validate.declare cloud_vinyl.Webhook.Validate.is_reserved_volume
    cloud_vinyl.Webhook.Validate.check_mount cloud_vinyl.Webhook.Validate.check_env
    cloud_vinyl.Webhook.Validate.check_proxy_port cloud_vinyl.Webhook.Paths.path_is_reserved
    cloud_vinyl.Webhook.Paths.path_conflicts_with_reserved cloud_vinyl.Webhook.Paths.under_any
    cloud_vinyl.Webhook.Paths.above_any
validating = tt

is_good : validate_vinyl_cache ascii good ≡ []
unfolding validating
is_good = refl

-- A claim of the name of a volume, and a mount over the agent's token.
is_bad :
    validate_vinyl_cache ascii (record good {
      varnish_params = codes "cc_command" ∷ codes "CC_COMMAND" ∷ [];
      volumes = codes "data" ∷ [];
      mounts = record { name = codes "logs"; mount_path = codes "/run" } ∷ [];
    })
    ≡ forbidden_param (codes "cc_command")
      ∷ bad_param_key (codes "CC_COMMAND")
      ∷ duplicate_claim (codes "data")
      ∷ reserved_mount (codes "logs")
      ∷ undeclared_mount (codes "logs")
      ∷ []
unfolding validating
is_bad = refl

validate_vinyl_cache-IsAccepted_example : IsAccepted ascii good
validate_vinyl_cache-IsAccepted_example = validate_vinyl_cache-IsAccepted ascii good is_good

abbrev spec_of : Text → Text → RuntimeSpec
spec_of flavor version = record {
  flavor = flavor;
  version = version;
  image = [];
  exporter = none;
  tracing = false;
}

abbrev small_catalog : Catalog
small_catalog = record {
  flavors =
      (
        codes "varnish",
        record {
          default_version = codes "9.1";
          versions =
              (codes "9.1", record { daemon = codes "d"; exporter = codes "e"; tracer = codes "t" })
              ∷ [];
        },
      )
      ∷ [];
}

default_accepted : (validate_runtime none (spec_of [] []) (some small_catalog)).1 ≡ []
unfolding validating validate_runtime effective_flavor cloud_vinyl.Webhook.Runtime.runtime_changed
    cloud_vinyl.Webhook.Runtime.errors_of cloud_vinyl.Catalog.resolve
    cloud_vinyl.Catalog.resolve_entry cloud_vinyl.Catalog.resolve_version
    cloud_vinyl.Catalog.or_default lookup
default_accepted = refl

validate_runtime-resolve_runtime_example :
    (rt : Runtime) × ((resolve_runtime 1 shop_cache
        (spec_of [] [])
        small_catalog
        (λ r. [])
        none
        []).runtime
      ≡ some rt)
validate_runtime-resolve_runtime_example =
    validate_runtime-resolve_runtime (spec_of [] []) small_catalog 1 shop_cache (λ r. []) none []
      default_accepted
