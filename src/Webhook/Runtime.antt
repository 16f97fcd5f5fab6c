-- ===== src/Webhook/Runtime.antt =====
-- internal/webhook/runtime.go: the check of flavor and version against the catalog, and the warnings
-- about images that do not fit. `strings.ToLower` is that of ASCII texts.
use cloud_vinyl.Prelude.{
  ℕ, ◌+◌, ◌≡◌, refl, sym, ap, ◌∙◌, Bool, true, not, ◌&&◌, ◌||◌, Option, none, some, List, [], ◌∷◌,
  ◌++◌, arith, leb, ◌==◌, if◌then◌else◌, Text, codes, text_dec, text_eq, text_eq_refl, contains,
  lookup,
}
use cloud_vinyl.Catalog.{
  Catalog, Runtime, Resolution, resolved, no_such_flavor, no_such_version, resolve, resolve_entry,
  or_default, flavor_varnish, flavor_vinyl,
}
use cloud_vinyl.Controller.Settings.{Cache}
use cloud_vinyl.Controller.Conditions.{Condition}
use cloud_vinyl.Controller.Runtime.{
  effective_runtime, RuntimeSpec, RuntimeStatus, Exporter, resolve_runtime, with_resolution,
  effective_runtime,
}

pub data RuntimeWarning : Type 0 where
  -- The sidecars follow the catalog's default version.
  unversioned_image : Text → RuntimeWarning
  looks_like_varnish looks_like_vinyl varnish_exporter vinyl_exporter : Text → RuntimeWarning

unfoldable pub effective_flavor : Text → Text
effective_flavor f = if text_eq f [] then flavor_varnish else f

unfoldable pub to_lower : Text → Text
to_lower [] = []
to_lower (c ∷ s) = (if leb b'A' c && leb c b'Z' then c + 32 else c) ∷ to_lower s

-- `s[:i]` for the first byte `c`, and the whole text without one.
unfoldable pub before_first : ℕ → Text → Text
before_first c [] = []
before_first c (d ∷ s) = let rest = before_first c s in if d == c then [] else d ∷ rest

-- `s[strings.LastIndex(s, "/")+1:]`
unfoldable pub last_segment : Text → Text
last_segment [] = []
last_segment (c ∷ s) =
    let rest = last_segment s in if contains s (codes "/") || c == b'/' then rest else c ∷ s

unfoldable pub image_repo_name : Text → Text
unfolding before_first last_segment to_lower
image_repo_name image = to_lower (before_first b':' (last_segment (before_first b'@' image)))

unfoldable pub exporter_lineage_warning : Text → Option Exporter → List RuntimeWarning
unfolding image_repo_name to_lower or_default
exporter_lineage_warning flavor none = []
exporter_lineage_warning flavor (some e) =
    let tag = or_default (codes "latest") e.tag in
    let ref = e.repository ++ (b':' ∷ tag) in
    let has_vinyl =
      contains (image_repo_name e.repository ++ (b':' ∷ to_lower tag)) (codes "vinyl") in
    if text_eq e.repository []
    then []
    else if text_eq flavor flavor_vinyl && not has_vinyl
    then varnish_exporter ref ∷ []
    else if text_eq flavor flavor_varnish && has_vinyl
    then vinyl_exporter ref ∷ []
    else []

unfoldable pub image_warnings : Text → Text → List RuntimeWarning
unfolding image_repo_name
image_warnings flavor image =
    let repo = image_repo_name image in
    if text_eq image []
    then []
    else if text_eq flavor flavor_vinyl && contains repo (codes "varnish")
    then looks_like_varnish image ∷ []
    else if text_eq flavor flavor_varnish && contains repo (codes "vinyl")
    then looks_like_vinyl image ∷ []
    else []

unfoldable pub default_warning : Resolution → List RuntimeWarning
default_warning (resolved rt) = unversioned_image rt.version ∷ []
default_warning other = []

unfoldable pub errors_of : Resolution → List Resolution
errors_of (resolved rt) = []
errors_of (no_such_flavor f) = no_such_flavor f ∷ []
errors_of (no_such_version v) = no_such_version v ∷ []

unfoldable pub runtime_changed : Option RuntimeSpec → RuntimeSpec → Bool
unfolding effective_flavor
runtime_changed none vc = true
runtime_changed (some old) vc =
    not (text_eq (effective_flavor old.flavor) (effective_flavor vc.flavor))
    || not (text_eq old.version vc.version)

-- `ValidateRuntime`: the warnings, and the resolutions that are reported as errors.
unfoldable pub validate_runtime :
    Option RuntimeSpec → RuntimeSpec → Option Catalog → List RuntimeWarning × List Resolution
unfolding runtime_changed errors_of default_warning image_warnings exporter_lineage_warning
validate_runtime old vc none = ([], [])
validate_runtime old vc (some catalog) =
    let flavor = effective_flavor vc.flavor in
    (
      (if not (text_eq vc.image []) && text_eq vc.version []
            then default_warning (resolve catalog flavor [])
            else [])
          ++ (image_warnings flavor vc.image ++ exporter_lineage_warning flavor vc.exporter),
      if runtime_changed old vc then errors_of (resolve catalog flavor vc.version) else [],
    )

-- An update that changes neither flavor nor version is never refused for them, whatever the
-- catalog has become: an unset flavor counts as varnish.
validate_runtime-unchanged :
    (old vc : RuntimeSpec) (catalog : Option Catalog)
    → effective_flavor old.flavor ≡ effective_flavor vc.flavor
    → old.version ≡ vc.version
    → (validate_runtime (some old) vc catalog).1 ≡ []
unfolding validate_runtime runtime_changed
validate_runtime-unchanged old vc none f v = refl
validate_runtime-unchanged old vc (some c) f v =
    rw (f, v, text_eq_refl (effective_flavor vc.flavor), text_eq_refl vc.version) refl

effective_flavor_twice : (f : Text) → effective_flavor (effective_flavor f) ≡ effective_flavor f
unfolding effective_flavor text_dec
effective_flavor_twice [] = refl
effective_flavor_twice (c ∷ s) = refl

resolve-effective_flavor :
    (c : Catalog) (f version : Text) → resolve c (effective_flavor f) version ≡ resolve c f version
unfolding resolve or_default effective_flavor
resolve-effective_flavor c f version =
    ap (λ g. resolve_entry g version (lookup text_dec g c.flavors)) (effective_flavor_twice f)

accepted_resolves : (r : Resolution) → errors_of r ≡ [] → (rt : Runtime) × (r ≡ resolved rt)
unfolding errors_of
accepted_resolves (resolved rt) h = (rt, refl)
accepted_resolves (no_such_flavor f) h = absurd (ground (arith, h))
accepted_resolves (no_such_version v) h = absurd (ground (arith, h))

-- A new object whose flavor and version are accepted resolves to a runtime in every reconcile
-- with the same catalog, so that its StatefulSet is written.
pub validate_runtime-resolve_runtime :
    (vc : RuntimeSpec) (catalog : Catalog) (now : ℕ) (cache : Cache)
    (error_text : Resolution → Text) (before : Option RuntimeStatus) (cs : List Condition)
    → (validate_runtime none vc (some catalog)).1 ≡ []
    → (rt : Runtime) × ((resolve_runtime now cache vc catalog error_text before cs).runtime
        ≡ some rt)
unfolding validate_runtime runtime_changed resolve_runtime with_resolution
validate_runtime-resolve_runtime vc catalog now cache error_text before cs h =
    let a = accepted_resolves (resolve catalog (effective_flavor vc.flavor) vc.version) h in
    (
      effective_runtime vc a.0,
      rw (sym (resolve-effective_flavor catalog vc.flavor vc.version) ∙ a.1) refl,
    )
