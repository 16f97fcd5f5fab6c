-- ===== src/Webhook/Validate.antt =====
-- internal/webhook/vinylcache_validator.go: `ValidateVinylCache` and `ValidateVinylCacheUpdate`, on
-- the fields that they read. What is reported is a list of violations, in place of their texts; the
-- warnings about snippets, which package regexp finds, are left out. Packages net and unicode are
-- parameters.
pub mod Whole
pub mod Laws
pub mod Tests
use cloud_vinyl.Prelude.{
  pos, negsuc, ℕ, zero, suc, ◌+◌, ◌-◌, ◌*◌, ◌/◌, ◌%◌, ◌^◌, ◌≤◌, ◌<◌, ◌≡◌, refl, sym, ap, ◌∙◌, ◌≢◌,
  ◌↔◌, ◌⊎◌, inl, inr, ite, if_pos, if_neg, Bool, true, false, not, ◌&&◌, ◌||◌, Option, none, some,
  List, [], ◌∷◌, ◌++◌, map, append-nil, append_assoc, map-append, arith, ℕ_discrete, ltb, leb, ◌==◌,
  if◌then◌else◌, ltb→lt, leb→le, le→leb, Bool-cases, is_some, Option-cases, ◌>>=◌, bind_some,
  if_both, length, length-append, keep, length-keep-le, count, count-append, keep-append,
  keep-length_split, All, All-append, elem, Distinct, elem-append, Distinct-snoc, Text, codes,
  text_dec, text_eq, text_eq_refl, text_eq→≡, has_prefix, contains, is_space, is_regexp_space,
  fields_by, fields, trim_left, trim_right, trim_space, is_digit, u64_mod, digits_value, parse_uint,
  ℤ, i64_max, positive_int, atoi, IsToken, fields_by-token, lookup, delete, insert, lookup-delete,
  lookup-insert, lookup-insert_self, lookup-insert_ne, next_digits, digits, printed, decimal,
  IsDigits, decimal-IsDigits, decimal-ne-nil, parse_uint-decimal, atoi-decimal,
}
use cloud_vinyl.Webhook.Paths.{path_is_reserved, path_conflicts_with_reserved}

pub record Storage : Type 0 where
  pub name : Text
  pub storage_type : Text
  pub path : Text
  pub size : ℤ

pub record VolumeMount : Type 0 where
  pub name : Text
  pub mount_path : Text

pub record VolumeClaim : Type 0 where
  pub name : Text
  pub contents : Text

-- The header of a director's hash; `none` without a director or a hash.
pub record NamedBackend : Type 0 where
  pub name : Text
  pub hash_header : Option Text

pub record ProxyProtocol : Type 0 where
  pub enabled : Bool
  pub port : ℕ

pub record ExporterPort : Type 0 where
  pub enabled : Bool
  pub port : ℕ

pub record Tracing : Type 0 where
  pub enabled : Bool
  pub endpoint : Text

pub record Spec : Type 0 where
  -- The keys of the map, in the order in which it is read.
  pub varnish_params : List Text
  pub storage : List Storage
  pub backends : List NamedBackend
  pub hash_header : Option Text
  -- The allowed sources of purge, ban and xkey, `none` where that is not set.
  pub purge_sources : Option (List Text)
  pub ban_sources : Option (List Text)
  pub xkey_sources : Option (List Text)
  pub volumes : List Text
  pub claims : List VolumeClaim
  pub mounts : List VolumeMount
  pub env : List Text
  pub short_anti_affinity : Bool
  pub full_anti_affinity : Bool
  pub proxy_protocol : ProxyProtocol
  pub exporter : Option ExporterPort
  pub tracing : Tracing

-- Packages net and unicode: `runes` decodes a text.
pub record Packages : Type 0 where
  pub is_cidr : Text → Bool
  pub is_host_port : Text → Bool
  pub runes : Text → List ℕ
  pub is_letter : ℕ → Bool
  pub is_digit_rune : ℕ → Bool

pub data Violation : Type 0 where
  bad_param_key forbidden_param forbidden_storage reserved_storage bad_backend_name :
      Text → Violation
  bad_hash_header bad_cidr reserved_volume duplicate_volume reserved_claim : Text → Violation
  duplicate_claim reserved_mount undeclared_mount duplicate_env storage_needs_size :
      Text → Violation
  reserved_storage_path bad_endpoint : Text → Violation
  taken_port : ℕ → Violation
  two_anti_affinities no_endpoint claims_changed : Violation

abbrev pub when : Bool → Violation → List Violation
when b v = if b then v ∷ [] else []

abbrev pub each : {A : Type 0} → (A → List Violation) → List A → List Violation
each f [] = []
each f (x ∷ xs) = f x ++ each f xs

abbrev pub one_of : Text → List Text → Bool
one_of t ts = elem text_dec t ts

abbrev pub forbidden_params : List Text
forbidden_params = codes "vcc_allow_inline_c" ∷ codes "cc_command" ∷ []

abbrev pub forbidden_storage_types : List Text
forbidden_storage_types = codes "persistent" ∷ codes "umem" ∷ codes "default" ∷ []

abbrev pub reserved_volume_names : List Text
reserved_volume_names =
    codes "agent-token"
    ∷ codes "varnish-secret"
    ∷ codes "varnish-workdir"
    ∷ codes "varnish-tmp"
    ∷ codes "bootstrap-vcl"
    ∷ []

unfoldable pub is_reserved_volume : Text → Bool
is_reserved_volume n = one_of n reserved_volume_names

abbrev pub reserved_pod_ports : List ℕ
reserved_pod_ports = 8080 ∷ 6082 ∷ 9090 ∷ 9131 ∷ 9464 ∷ []

abbrev pub is_lower : ℕ → Bool
is_lower c = leb b'a' c && leb c b'z'

abbrev pub is_param_char : ℕ → Bool
is_param_char c = is_lower c || is_digit c || c == b'_'

abbrev pub every : (ℕ → Bool) → Text → Bool
every p [] = true
every p (c ∷ s) = p c && every p s

unfoldable pub is_valid_varnish_param_key : Text → Bool
unfolding is_digit
is_valid_varnish_param_key [] = false
is_valid_varnish_param_key (c ∷ s) = is_lower c && every is_param_char s

abbrev is_letter_ascii : ℕ → Bool
is_letter_ascii c = is_lower c || leb b'A' c && leb c b'Z'

-- `httpHeaderToken`
unfoldable pub is_header_token : Text → Bool
unfolding is_digit
is_header_token [] = false
is_header_token (c ∷ s) =
    is_letter_ascii c && every (λ d. is_letter_ascii d || is_digit d || d == b'_' || d == b'-') s

unfoldable pub check_param : Text → List Violation
unfolding is_valid_varnish_param_key
check_param k =
    when (not (is_valid_varnish_param_key k)) (bad_param_key k)
    ++ when (one_of k forbidden_params) (forbidden_param k)

unfoldable pub check_storage : Storage → List Violation
check_storage s =
    when (one_of s.storage_type forbidden_storage_types) (forbidden_storage s.storage_type)
    ++ when (text_eq s.name (codes "synth")) (reserved_storage s.name)

abbrev is_positive : ℤ → Bool
is_positive (pos n) = ltb 0 n
is_positive (negsuc n) = false

-- `validateFileStorage`, on one storage
unfoldable pub check_file_storage : Storage → List Violation
unfolding path_is_reserved
check_file_storage s =
    if not (text_eq s.storage_type (codes "file"))
    then []
    else if text_eq s.path [] && not (is_positive s.size)
    then storage_needs_size s.name ∷ []
    else when (path_is_reserved s.path) (reserved_storage_path s.name)

unfoldable pub check_hash_header : Option Text → List Violation
unfolding is_header_token
check_hash_header none = []
check_hash_header (some h) =
    if text_eq h [] then [] else when (not (is_header_token h)) (bad_hash_header h)

-- A list of names: those that are declared, and a violation for each name that the operator
-- reserves or that is declared already.
unfoldable pub declare :
    (Text → Violation) → (Text → Violation) → List Text → List Text → List Violation × List Text
declare reserved duplicate [] declared = ([], declared)
declare reserved duplicate (n ∷ ns) declared =
    let skipped = declare reserved duplicate ns declared in
    let added = declare reserved duplicate ns (n ∷ declared) in
    if is_reserved_volume n
    then (reserved n ∷ skipped.0, skipped.1)
    else if one_of n declared
    then (duplicate n ∷ skipped.0, skipped.1)
    else added

unfoldable pub check_mount : List Text → VolumeMount → List Violation
unfolding path_conflicts_with_reserved
check_mount declared m =
    when (path_conflicts_with_reserved m.mount_path) (reserved_mount m.name)
    ++ when (not (one_of m.name declared) && not (is_reserved_volume m.name))
        (undeclared_mount m.name)

-- `validatePodEnv`
unfoldable pub check_env : List Text → List Text → List Violation
check_env seen [] = []
check_env seen (e ∷ es) =
    let skipped = check_env seen es in
    let added = check_env (e ∷ seen) es in
    if one_of e seen then duplicate_env e ∷ skipped else added

abbrev pub is_reserved_port : ℕ → List ℕ → Bool
is_reserved_port p [] = false
is_reserved_port p (q ∷ qs) = p == q || is_reserved_port p qs

abbrev pub exporter_on : ℕ → Option ExporterPort → Bool
exporter_on p none = false
exporter_on p (some e) = e.enabled && e.port == p

-- `validateProxyProtocolPort`
unfoldable pub check_proxy_port : ProxyProtocol → Option ExporterPort → List Violation
check_proxy_port pp exporter =
    when
      (pp.enabled && (is_reserved_port pp.port reserved_pod_ports || exporter_on pp.port exporter))
      (taken_port pp.port)

abbrev pub or_nil : Option (List Text) → List Text
or_nil none = []
or_nil (some xs) = xs
