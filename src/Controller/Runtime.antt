-- ===== src/Controller/Runtime.antt =====
-- internal/controller/status.go, `resolveRuntime`, and internal/controller/flavor.go: the images a
-- cache runs. The text of the catalog's error is a parameter.
use cloud_vinyl.Prelude.{
  ℕ, Bool, true, false, not, ◌&&◌, Option, none, some, List, [], ◌∷◌, ◌++◌, ◌==◌, if◌then◌else◌,
  Text, codes, text_eq,
}
use cloud_vinyl.Catalog.{
  Runtime, Catalog, Resolution, resolved, resolve, flavor_varnish, flavor_vinyl, or_default,
}
use cloud_vinyl.Controller.Settings.{Cache, cond_runtime, setting}
use cloud_vinyl.Controller.Conditions.{
  Condition, condition_true, condition_false, set_condition, find_condition,
}

-- spec.monitoring.exporter
pub record Exporter : Type 0 where
  pub enabled : Bool
  pub repository : Text
  pub tag : Text

-- The fields of the spec that choose the images.
pub record RuntimeSpec : Type 0 where
  pub flavor : Text
  pub version : Text
  pub image : Text
  pub exporter : Option Exporter
  pub tracing : Bool

pub record RuntimeStatus : Type 0 where
  pub flavor : Text
  pub version : Text
  pub daemon : Text
  pub exporter : Text
  pub tracer : Text

pub record FlavorTraits : Type 0 where
  pub daemon_command : Text
  pub varnishstat_path : Text
  pub varnishlog_path : Text

unfoldable pub traits_for : Text → FlavorTraits
unfolding or_default
traits_for flavor =
    let f = or_default flavor_varnish flavor in
    if text_eq f flavor_varnish
    then record {
      daemon_command = codes "varnishd";
      varnishstat_path = [];
      varnishlog_path = codes "varnishlog";
    }
    else if text_eq f flavor_vinyl
    then record {
      daemon_command = codes "vinyld";
      varnishstat_path = codes "/usr/bin/vinylstat";
      varnishlog_path = codes "vinyllog";
    }
    else record { daemon_command = []; varnishstat_path = []; varnishlog_path = [] }

unfoldable pub exporter_image : Option Exporter → Text → Text
unfolding or_default
exporter_image none image = image
exporter_image (some e) image =
    if text_eq e.repository []
    then image
    else e.repository ++ (b':' ∷ or_default (codes "latest") e.tag)

unfoldable pub effective_runtime : RuntimeSpec → Runtime → Runtime
unfolding exporter_image or_default
effective_runtime spec rt = record rt {
  images = record {
    daemon = or_default rt.images.daemon spec.image;
    exporter = exporter_image spec.exporter rt.images.exporter;
    tracer = rt.images.tracer;
  };
}

abbrev exporter_enabled : Option Exporter → Bool
exporter_enabled none = false
exporter_enabled (some e) = e.enabled

unfoldable pub runtime_status : RuntimeSpec → Runtime → RuntimeStatus
runtime_status spec rt = record {
  flavor = rt.flavor;
  version = rt.version;
  daemon = rt.images.daemon;
  exporter = if exporter_enabled spec.exporter then rt.images.exporter else [];
  tracer = if spec.tracing then rt.images.tracer else [];
}

abbrev same_status : RuntimeStatus → RuntimeStatus → Bool
same_status a b =
    text_eq a.flavor b.flavor
    && text_eq a.version b.version
    && text_eq a.daemon b.daemon
    && text_eq a.exporter b.exporter
    && text_eq a.tracer b.tracer

abbrev same_condition : Condition → Condition → Bool
same_condition a b =
    text_eq a.condition_type b.condition_type
    && text_eq a.status b.status
    && text_eq a.reason b.reason
    && text_eq a.message b.message
    && a.last_transition_time == b.last_transition_time
    && a.observed_generation == b.observed_generation

-- `equality.Semantic.DeepEqual` on pointers
abbrev same_pointer : {A : Type 0} → (A → A → Bool) → Option A → Option A → Bool
same_pointer same none none = true
same_pointer same none (some b) = false
same_pointer same (some a) none = false
same_pointer same (some a) (some b) = same a b

-- What `resolveRuntime` leaves: the runtime if it resolved, the object's status, and whether the
-- status has to be written.
pub record RuntimeResult : Type 0 where
  pub runtime : Option Runtime
  pub status : Option RuntimeStatus
  pub conditions : List Condition
  pub changed : Bool

module _ (now : ℕ) (vc : Cache) (spec : RuntimeSpec) where
  unfoldable pub with_resolution :
      (Resolution → Text) → Option RuntimeStatus → List Condition → Resolution → RuntimeResult
  unfolding effective_runtime runtime_status
  with_resolution error_text before cs (resolved base) =
      let rt = effective_runtime spec base in
      let cs' = set_condition cs (
        setting now vc cond_runtime condition_true (codes "Resolved") (
          codes "runtime "
          ++ (rt.flavor ++ (b' ' ∷ (rt.version ++ codes " resolved from the catalog"))))) in
      record {
        runtime = some rt;
        status = some (runtime_status spec rt);
        conditions = cs';
        changed = not (
            same_pointer same_status before (some (runtime_status spec rt))
            && same_pointer same_condition (find_condition cs cond_runtime)
                (find_condition cs' cond_runtime));
      }
  with_resolution error_text before cs missing =
      let cs' =
        set_condition cs (
          setting now vc cond_runtime condition_false (codes "NotInCatalog")
            (error_text missing)) in
      record {
        runtime = none;
        status = before;
        conditions = cs';
        changed = not (
            same_pointer same_condition (find_condition cs cond_runtime)
              (find_condition cs' cond_runtime));
      }

  unfoldable pub resolve_runtime :
      Catalog → (Resolution → Text) → Option RuntimeStatus → List Condition → RuntimeResult
  unfolding with_resolution
  resolve_runtime catalog error_text before cs =
      with_resolution error_text before cs (resolve catalog spec.flavor spec.version)
