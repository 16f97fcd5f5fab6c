-- ===== src/Webhook/Tests.antt =====
-- Defaulting and mount paths at concrete inputs.
use cloud_vinyl.Prelude.{
  negsuc, pos, ℕ, ◌≡◌, refl, true, false, none, some, [], ◌∷◌, ℕ_discrete, codes, text_dec,
  has_prefix,
}
use cloud_vinyl.Webhook.Defaults.{DirectorSpec, VinylCacheSpec, default_vinyl_cache}
use cloud_vinyl.Webhook.Defaults.Laws.{default_vinyl_cache-default_vinyl_cache}
use cloud_vinyl.Webhook.Paths.{
  path_conflicts_with_reserved, path_of, related_to_any, reserved_components,
}
use cloud_vinyl.Webhook.Paths.Laws.{path_conflicts_with_reserved-related}

abbrev plain_director : DirectorSpec ℕ
plain_director = record { type = []; shard_spec = none; hash = none }

abbrev plain : VinylCacheSpec ℕ
plain = record {
  purge = none;
  director = plain_director;
  peer_routing_type = [];
  backends = record { name = codes "api"; director = some plain_director } ∷ [];
  debounce = pos 0;
  backoff_base = negsuc 4;
  backoff_max = pos 7;
  proxy_enabled = true;
  proxy_port = pos 0;
}

defaulted : (default_vinyl_cache ℕ 1 plain).proxy_port ≡ pos 8081
unfolding default_vinyl_cache
defaulted = refl

default_vinyl_cache-default_vinyl_cache_example :
    default_vinyl_cache ℕ 1 (default_vinyl_cache ℕ 1 plain) ≡ default_vinyl_cache ℕ 1 plain
default_vinyl_cache-default_vinyl_cache_example = default_vinyl_cache-default_vinyl_cache ℕ 1 plain

path_conflicts_with_reserved-related_example :
    path_conflicts_with_reserved (path_of (codes "etc" ∷ codes "varnish" ∷ []))
    ≡ related_to_any (codes "etc" ∷ codes "varnish" ∷ []) reserved_components
unfolding text_dec ℕ_discrete
path_conflicts_with_reserved-related_example =
    path_conflicts_with_reserved-related (codes "etc") (codes "varnish" ∷ []) (refl, refl)
      ((refl, refl), tt)

-- A slash at the end hides that a path contains the operator's.
slash_at_the_end :
    (path_conflicts_with_reserved (codes "/etc/varnish") ≡ true)
    × (path_conflicts_with_reserved (codes "/etc/varnish/") ≡ false)
unfolding path_conflicts_with_reserved text_dec ℕ_discrete has_prefix
slash_at_the_end = (refl, refl)
