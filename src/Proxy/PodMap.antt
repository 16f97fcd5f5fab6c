-- ===== src/Proxy/PodMap.antt =====
-- internal/proxy/podmap.go: the pod IPs of each cache, under the key "namespace/cacheName".
-- A method holds the mutex for its whole body, so it is one step; the copies that it makes keep
-- callers from sharing a slice with the map, and a list is a value here.
use cloud_vinyl.Prelude.{
  ◌≡◌, ◌≢◌, none, some, List, [], ◌∷◌, ◌++◌, arith, All, Text, text_dec, lookup, delete, insert,
  lookup-delete, lookup-insert_self, lookup-insert_ne,
}

unfoldable pub cache_key : Text → Text → Text
cache_key namespace cache_name = namespace ++ (b'/' ∷ cache_name)

pub record PodMap : Type 0 where
  pub pods : List (Text × List Text)

unfoldable pub new_pod_map : PodMap
new_pod_map = record { pods = [] }

unfoldable pub get_pod_ips : PodMap → Text → Text → List Text
get_pod_ips pm namespace cache_name =
    elim (lookup text_dec (cache_key namespace cache_name) pm.pods) [ none ↦ [] | some ips ↦ ips ]

unfoldable pub update : PodMap → Text → Text → List Text → PodMap
update pm namespace cache_name ips = record {
  pods = insert text_dec (cache_key namespace cache_name) ips pm.pods;
}

unfoldable pub delete_pods : PodMap → Text → Text → PodMap
delete_pods pm namespace cache_name = record {
  pods = delete text_dec (cache_key namespace cache_name) pm.pods;
}

-- A Kubernetes name has no slash.
abbrev pub HasNoSlash : Text → Type 0
HasNoSlash = All (λ c. c ≢ b'/')

-- Two caches share a key only if they are the same cache, as namespaces have no slash.
pub cache_key_injective :
    (n₁ c₁ n₂ c₂ : Text)
    → HasNoSlash n₁
    → HasNoSlash n₂
    → cache_key n₁ c₁ ≡ cache_key n₂ c₂
    → (n₁ ≡ n₂) × (c₁ ≡ c₂)
unfolding cache_key
cache_key_injective [] c₁ [] c₂ h₁ h₂ e = ground arith
cache_key_injective [] c₁ (b ∷ n₂) c₂ h₁ h₂ e = ground arith
cache_key_injective (a ∷ n₁) c₁ [] c₂ h₁ h₂ e = ground arith
cache_key_injective (a ∷ n₁) c₁ (b ∷ n₂) c₂ h₁ h₂ e =
    ground (arith, cache_key_injective n₁ c₁ n₂ c₂ h₁.1 h₂.1)

module _ (pm : PodMap) (n c m d : Text) (ips : List Text) where
  -- After an update the cache has the new pods.
  pub get_pod_ips-update_self : get_pod_ips (update pm n c ips) n c ≡ ips
  unfolding get_pod_ips update
  get_pod_ips-update_self = ground (arith, lookup-insert_self text_dec (cache_key n c) ips pm.pods)

  abbrev pub IsOtherCache : Type 0
  IsOtherCache = ¬ ((m ≡ n) × (d ≡ c))

  other_key : HasNoSlash n → HasNoSlash m → IsOtherCache → cache_key m d ≢ cache_key n c
  other_key hn hm other = λ e. other (cache_key_injective m d n c hm hn e)

  -- An update or a deletion touches no other cache, and a deleted cache has no pods. Neither
  -- namespace may have a slash.
  get_pod_ips-other :
      HasNoSlash n
      → HasNoSlash m
      → IsOtherCache
      → (get_pod_ips (update pm n c ips) m d ≡ get_pod_ips pm m d)
        × (get_pod_ips (delete_pods pm n c) m d ≡ get_pod_ips pm m d)
        × (get_pod_ips (delete_pods pm n c) n c ≡ [])
  unfolding get_pod_ips update delete_pods
  get_pod_ips-other hn hm other =
      let ne = other_key hn hm other in
      (
        ground (arith, lookup-insert_ne text_dec (cache_key m d) (cache_key n c) ips pm.pods ne),
        ground (arith, ne, lookup-delete text_dec (cache_key m d) (cache_key n c) pm.pods),
        ground (arith, lookup-delete text_dec (cache_key n c) (cache_key n c) pm.pods),
      )
