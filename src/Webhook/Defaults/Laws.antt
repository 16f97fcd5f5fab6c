-- ===== src/Webhook/Defaults/Laws.antt =====
-- Defaulting twice is defaulting once.
use cloud_vinyl.Prelude.{
  negsuc, pos, ℕ, ◌<◌, ◌≡◌, refl, sym, ap, ◌∙◌, ◌≢◌, inl, inr, Bool, true, false, Option, none,
  some, List, [], ◌∷◌, arith, Bool-cases, Text, codes, text_eq, ℤ,
}
use cloud_vinyl.Webhook.Defaults.{
  shard, text_or, duration_or, port_or, value_or, ShardSpec, DirectorSpec, BackendSpec,
  VinylCacheSpec, empty_shard, fill_shard, apply_shard_defaults, default_director, default_pointer,
  default_backend, default_backends, default_vinyl_cache,
}

text_or-text_or : (d t : Text) → d ≢ [] → text_or d (text_or d t) ≡ text_or d t
text_or-text_or d t ne = ground (arith, ne)

duration_or-duration_or :
    (d : ℕ) (t : ℤ) → 0 < d → duration_or d (duration_or d t) ≡ duration_or d t
duration_or-duration_or d (pos n) lt = ground (arith, lt)
duration_or-duration_or d (negsuc n) lt = refl

port_or-port_or : (enabled : Bool) (p : ℤ) → port_or enabled (port_or enabled p) ≡ port_or enabled p
port_or-port_or true (pos n) = ground arith
port_or-port_or true (negsuc n) = refl
port_or-port_or false p = refl

module _ (Float : Type 0) (tenth : Float) where
  fill_shard-fill_shard :
      (s : ShardSpec Float)
      → fill_shard Float tenth (fill_shard Float tenth s) ≡ fill_shard Float tenth s
  unfolding fill_shard
  fill_shard-fill_shard s = cc (
    text_or-text_or (codes "URL") s.by (λ e. ground (arith, e)),
    text_or-text_or (codes "CHOSEN") s.healthy (λ e. ground (arith, e)),
    duration_or-duration_or 30000000000 s.rampup (omega arith),
  )

  abbrev typed : DirectorSpec Float → DirectorSpec Float
  typed d = record d { type = text_or shard d.type }

  apply-type : (d : DirectorSpec Float) → (apply_shard_defaults Float tenth d).type ≡ d.type
  unfolding apply_shard_defaults
  apply-type d = ground arith

  typed_named : (d : DirectorSpec Float) → d.type ≢ [] → typed d ≡ d
  typed_named d ne =
      let e : text_or shard d.type ≡ d.type = ground (arith, ne) in
      ap (λ t. record d { type = t }) e

  typed-named : (d : DirectorSpec Float) → (typed d).type ≢ []
  typed-named d = λ e. ground (arith, e)

  apply-apply :
      (d : DirectorSpec Float)
      → apply_shard_defaults Float tenth (apply_shard_defaults Float tenth d)
        ≡ apply_shard_defaults Float tenth d
  unfolding apply_shard_defaults
  apply-apply d = elim (Bool-cases (text_eq d.type shard)) [
    | inl yes_ ↦
        let s = value_or (empty_shard Float) d.shard_spec in
        rw (yes_, apply_shard_defaults)
          (rw (yes_, apply_shard_defaults)
            (ap (λ x. record d { shard_spec = some x }) (fill_shard-fill_shard s)))
    | inr no_ ↦ rw (no_, apply_shard_defaults) (rw (no_, apply_shard_defaults) refl)
  ]

  default_director-default_director :
      (d : DirectorSpec Float)
      → default_director Float tenth (default_director Float tenth d)
        ≡ default_director Float tenth d
  unfolding default_director
  default_director-default_director d =
      let same : (apply_shard_defaults Float tenth (typed d)).type ≡ (typed d).type =
        apply-type (typed d) in
      ap (apply_shard_defaults Float tenth) (
        typed_named (apply_shard_defaults Float tenth (typed d))
          (λ e. typed-named d (sym same ∙ e)))
      ∙ apply-apply (typed d)

  default_pointer-default_pointer :
      (d : Option (DirectorSpec Float))
      → default_pointer Float tenth (default_pointer Float tenth d) ≡ default_pointer Float tenth d
  unfolding default_pointer
  default_pointer-default_pointer none = refl
  default_pointer-default_pointer (some d) = ap some (default_director-default_director d)

  default_backends-default_backends :
      (bs : List (BackendSpec Float))
      → default_backends Float tenth (default_backends Float tenth bs)
        ≡ default_backends Float tenth bs
  unfolding default_backends default_backend
  default_backends-default_backends [] = refl
  default_backends-default_backends (b ∷ bs) =
      cc (default_pointer-default_pointer b.director, default_backends-default_backends bs)

  -- Defaulting is idempotent: what was defaulted once is not changed by defaulting it again.
  pub default_vinyl_cache-default_vinyl_cache :
      (vc : VinylCacheSpec Float)
      → default_vinyl_cache Float tenth (default_vinyl_cache Float tenth vc)
        ≡ default_vinyl_cache Float tenth vc
  unfolding default_vinyl_cache
  default_vinyl_cache-default_vinyl_cache vc = cc (
    default_director-default_director vc.director,
    text_or-text_or shard vc.peer_routing_type (λ e. ground (arith, e)),
    default_backends-default_backends vc.backends,
    duration_or-duration_or 1000000000 vc.debounce (omega arith),
    duration_or-duration_or 30000000000 vc.backoff_base (omega arith),
    duration_or-duration_or 300000000000 vc.backoff_max (omega arith),
    port_or-port_or vc.proxy_enabled vc.proxy_port,
  )
