-- ===== src/Webhook/Defaults.antt =====
-- internal/webhook/vinylcache_defaulter.go. The records have the fields of the specification that
-- the defaulter reads or writes, and for a record that it creates all fields. Durations are in
-- nanoseconds; floats are a parameter, with 0.1 as `tenth`.
pub mod Laws
use cloud_vinyl.Prelude.{
  negsuc, pos, ℕ, zero, suc, ◌+◌, ◌-◌, ◌*◌, ◌/◌, ◌%◌, ◌^◌, ◌≤◌, ◌<◌, ◌≡◌, refl, sym, ap, ◌∙◌, ◌≢◌,
  ◌↔◌, ◌⊎◌, inl, inr, ite, if_pos, if_neg, Bool, true, false, not, ◌&&◌, ◌||◌, Option, none, some,
  List, [], ◌∷◌, ◌++◌, map, append-nil, append_assoc, map-append, arith, ℕ_discrete, ltb, leb, ◌==◌,
  if◌then◌else◌, ltb→lt, leb→le, le→leb, Bool-cases, is_some, Option-cases, ◌>>=◌, length,
  length-append, keep, length-keep-le, count, count-append, keep-append, keep-length_split, All,
  All-append, elem, Distinct, elem-append, Distinct-snoc, Text, codes, text_dec, text_eq,
  has_prefix, contains, is_space, is_regexp_space, fields_by, fields, trim_left, trim_right,
  trim_space, is_digit, u64_mod, parse_uint, ℤ, i64_max, atoi, IsToken, fields_by-token, lookup,
  delete, insert, lookup-delete, lookup-insert, lookup-insert_self, lookup-insert_ne, next_digits,
  digits, printed, decimal,
}

-- `d == 0`
abbrev pub is_zero : ℤ → Bool
is_zero (pos n) = n == 0
is_zero (negsuc n) = false

pub record PurgeSpec : Type 0 where
  pub enabled : Bool
  pub soft : Option Bool
  pub allowed_sources : List Text
  pub hosts : List Text

pub record HashSpec : Type 0 where
  pub header : Text

abbrev pub shard : Text
shard = codes "shard"

-- A default for an unset text, and for a duration of 0.
abbrev pub text_or : Text → Text → Text
text_or d t = if text_eq t [] then d else t

abbrev pub duration_or : ℕ → ℤ → ℤ
duration_or d t = if is_zero t then pos d else t

-- The value behind a pointer, or a new one.
abbrev pub value_or : {A : Type 0} → A → Option A → A
value_or d none = d
value_or d (some a) = a

unfoldable pub empty_purge : PurgeSpec
empty_purge = record { enabled = false; soft = none; allowed_sources = []; hosts = [] }

-- The port of an enabled PROXY listener.
abbrev pub port_or : Bool → ℤ → ℤ
port_or enabled p = if enabled && is_zero p then pos 8081 else p

module _ (Float : Type 0) where
  pub record ShardSpec : Type 0 where
    pub warmup : Option Float
    pub rampup : ℤ
    pub replicas : ℤ
    pub by : Text
    pub healthy : Text

  pub record DirectorSpec : Type 0 where
    pub type : Text
    pub shard_spec : Option ShardSpec
    pub hash : Option HashSpec

  pub record BackendSpec : Type 0 where
    pub name : Text
    pub director : Option DirectorSpec

  pub record VinylCacheSpec : Type 0 where
    pub purge : Option PurgeSpec
    pub director : DirectorSpec
    pub peer_routing_type : Text
    pub backends : List BackendSpec
    pub debounce : ℤ
    pub backoff_base : ℤ
    pub backoff_max : ℤ
    pub proxy_enabled : Bool
    pub proxy_port : ℤ

  unfoldable pub empty_shard : ShardSpec
  empty_shard = record { warmup = none; rampup = pos 0; replicas = pos 0; by = []; healthy = [] }

  module _ (tenth : Float) where
    unfoldable pub fill_shard : ShardSpec → ShardSpec
    fill_shard s = record s {
      warmup = some (value_or tenth s.warmup);
      rampup = duration_or 30000000000 s.rampup;
      by = text_or (codes "URL") s.by;
      healthy = text_or (codes "CHOSEN") s.healthy;
    }

    unfoldable pub apply_shard_defaults : DirectorSpec → DirectorSpec
    unfolding empty_shard fill_shard
    apply_shard_defaults d =
        if text_eq d.type shard
        then record d { shard_spec = some (fill_shard (value_or empty_shard d.shard_spec)) }
        else d

    -- A type that is set to "shard" if there is none, then the shard defaults.
    unfoldable pub default_director : DirectorSpec → DirectorSpec
    unfolding apply_shard_defaults
    default_director d = apply_shard_defaults (record d { type = text_or shard d.type })

    -- The director of a backend, if it has one.
    unfoldable pub default_pointer : Option DirectorSpec → Option DirectorSpec
    unfolding default_director
    default_pointer none = none
    default_pointer (some d) = some (default_director d)

    unfoldable pub default_backend : BackendSpec → BackendSpec
    unfolding default_pointer
    default_backend b = record b { director = default_pointer b.director }

    unfoldable pub default_backends : List BackendSpec → List BackendSpec
    unfolding default_backend
    default_backends [] = []
    default_backends (b ∷ bs) = default_backend b ∷ default_backends bs

    unfoldable pub default_vinyl_cache : VinylCacheSpec → VinylCacheSpec
    unfolding default_director default_backends empty_purge
    default_vinyl_cache vc = record {
      purge = some (value_or empty_purge vc.purge);
      director = default_director vc.director;
      peer_routing_type = text_or shard vc.peer_routing_type;
      backends = default_backends vc.backends;
      debounce = duration_or 1000000000 vc.debounce;
      backoff_base = duration_or 30000000000 vc.backoff_base;
      backoff_max = duration_or 300000000000 vc.backoff_max;
      proxy_enabled = vc.proxy_enabled;
      proxy_port = port_or vc.proxy_enabled vc.proxy_port;
    }
