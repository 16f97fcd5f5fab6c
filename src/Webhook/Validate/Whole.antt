-- ===== src/Webhook/Validate/Whole.antt =====
-- internal/webhook/vinylcache_validator.go: the whole validation of a new and of a changed object.
use cloud_vinyl.Prelude.{
  ℕ, Bool, true, false, not, ◌&&◌, ◌||◌, List, [], ◌∷◌, ◌++◌, map, ◌==◌, if◌then◌else◌, Text, codes,
  text_eq, has_prefix,
}
use cloud_vinyl.Webhook.Paths.{path_is_reserved}
use cloud_vinyl.Webhook.Validate.{
  Storage, VolumeMount, VolumeClaim, NamedBackend, Tracing, Spec, Packages, Violation,
  bad_backend_name, bad_cidr, reserved_volume, duplicate_volume, reserved_claim, duplicate_claim,
  bad_endpoint, two_anti_affinities, no_endpoint, claims_changed, when, each, every, check_param,
  check_storage, check_file_storage, check_hash_header, declare, check_mount, check_env,
  check_proxy_port, or_nil,
}

module _ (p : Packages) where
  unfoldable pub is_valid_vcl_identifier : List ℕ → Bool
  is_valid_vcl_identifier [] = false
  is_valid_vcl_identifier (c ∷ s) =
      p.is_letter c && every (λ r. p.is_letter r || p.is_digit_rune r || r == b'_') s

  unfoldable pub check_backend : NamedBackend → List Violation
  unfolding is_valid_vcl_identifier
  check_backend b = when (not (is_valid_vcl_identifier (p.runes b.name))) (bad_backend_name b.name)

  unfoldable pub check_cidr : Text → List Violation
  check_cidr c = when (not (p.is_cidr c)) (bad_cidr c)

  unfoldable pub check_tracing : Tracing → List Violation
  check_tracing t =
      if not t.enabled
      then []
      else if text_eq t.endpoint []
      then no_endpoint ∷ []
      else when (not (p.is_host_port t.endpoint)) (bad_endpoint t.endpoint)

  abbrev pub after_volumes : Spec → List Violation × List Text
  after_volumes vc = declare reserved_volume duplicate_volume vc.volumes []

  abbrev pub after_claims : Spec → List Violation × List Text
  after_claims vc =
      declare reserved_claim duplicate_claim (map (λ c. c.name) vc.claims) (after_volumes vc).1

  -- The volumes, the claims and the mounts, which have to be declared by either.
  unfoldable pub check_volumes : Spec → List Violation
  unfolding declare check_mount
  check_volumes vc =
      (after_volumes vc).0
      ++ ((after_claims vc).0 ++ each (check_mount (after_claims vc).1) vc.mounts)

  -- The checks of `ValidateVinylCache`, in order.
  unfoldable pub checks : Spec → List (List Violation)
  unfolding check_param check_storage check_backend check_hash_header check_cidr check_volumes
      check_env check_proxy_port check_file_storage check_tracing
  checks vc =
      each check_param vc.varnish_params
      ∷ each check_storage vc.storage
      ∷ each check_backend vc.backends
      ∷ check_hash_header vc.hash_header
      ∷ each (λ b. check_hash_header b.hash_header) vc.backends
      ∷ each check_cidr (or_nil vc.purge_sources)
      ∷ each check_cidr (or_nil vc.ban_sources)
      ∷ each check_cidr (or_nil vc.xkey_sources)
      ∷ check_volumes vc
      ∷ check_env [] vc.env
      ∷ when (vc.short_anti_affinity && vc.full_anti_affinity) two_anti_affinities
      ∷ check_proxy_port vc.proxy_protocol vc.exporter
      ∷ each check_file_storage vc.storage
      ∷ check_tracing vc.tracing
      ∷ []

  -- `ValidateVinylCache`, without the warnings.
  unfoldable pub validate_vinyl_cache : Spec → List Violation
  unfolding checks
  validate_vinyl_cache vc = each (λ violations. violations) (checks vc)

  abbrev same_claims : List VolumeClaim → List VolumeClaim → Bool
  same_claims [] [] = true
  same_claims [] (d ∷ ds) = false
  same_claims (c ∷ cs) [] = false
  same_claims (c ∷ cs) (d ∷ ds) =
      text_eq c.name d.name && text_eq c.contents d.contents && same_claims cs ds

  -- `ValidateVinylCacheUpdate`; the contents of a claim are in the form in which semantic equality
  -- compares them.
  unfoldable pub validate_vinyl_cache_update : Spec → Spec → List Violation
  unfolding validate_vinyl_cache
  validate_vinyl_cache_update old vc =
      validate_vinyl_cache vc ++ when (not (same_claims old.claims vc.claims)) claims_changed

-- `strings.TrimRight(s, "/")`
unfoldable pub trim_slashes : Text → Text
trim_slashes [] = []
trim_slashes (c ∷ s) = elim (trim_slashes s) [
  | [] ↦ if c == b'/' then [] else c ∷ []
  | d ∷ t ↦ c ∷ d ∷ t
]

abbrev lies_under : Text → List VolumeMount → Bool
lies_under path [] = false
lies_under path (m ∷ ms) =
    has_prefix path (trim_slashes m.mount_path ++ (b'/' ∷ [])) || lies_under path ms

-- `fileStorageWarnings`: the names of the storages whose file no mount holds.
unfoldable pub file_storage_warnings : List VolumeMount → List Storage → List Text
unfolding trim_slashes path_is_reserved
file_storage_warnings ms [] = []
file_storage_warnings ms (s ∷ ss) =
    let rest = file_storage_warnings ms ss in
    if not (text_eq s.storage_type (codes "file"))
      || text_eq s.path []
      || path_is_reserved s.path
      || lies_under s.path ms
    then rest
    else s.name ∷ rest
