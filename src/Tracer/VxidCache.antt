-- ===== src/Tracer/VxidCache.antt =====
-- internal/tracer/spans/linker.go, `vxidCache`: a bounded map whose entries expire.
-- A time is a number of nanoseconds. `now.Sub(t) <= d` is the test `now ≤ t + d`, which for
-- d ≥ 0 is the same on every pair of times that `Sub` can subtract without saturating.
pub mod Invariant
pub mod Reads
use cloud_vinyl.Prelude.{
  ℕ, suc, ◌+◌, Bool, true, false, Option, none, some, List, [], ◌∷◌, ◌++◌, leb, ltb, if◌then◌else◌,
  length, is_some, lookup, insert, delete, ℕ_discrete,
}

pub record CacheEntry (V : Type 0) : Type 0 where
  pub value : V
  pub inserted_at : ℕ

pub record VxidCache (V : Type 0) : Type 0 where
  pub capacity : ℕ
  pub ttl : ℕ
  pub items : List (ℕ × CacheEntry V)
  pub order : List ℕ

-- `now.Sub(at) <= ttl`
abbrev pub within : ℕ → ℕ → ℕ → Bool
within ttl now at = leb now (at + ttl)

module _ {V : Type 0} where
  unfoldable pub new : ℕ → ℕ → VxidCache V
  new capacity ttl = record { capacity = capacity; ttl = ttl; items = []; order = [] }

  -- `e, ok := c.items[k]; ok && now.Sub(e.insertedAt) <= c.ttl`
  unfoldable pub is_live : ℕ → ℕ → Option (CacheEntry V) → Bool
  is_live ttl now none = false
  is_live ttl now (some e) = within ttl now e.inserted_at

  -- The first loop of `set`: drop keys from the front of the ring up to the first live entry.
  unfoldable pub prune : ℕ → ℕ → List (ℕ × CacheEntry V) → List ℕ → List (ℕ × CacheEntry V) × List ℕ
  prune ttl now items [] = (items, [])
  prune ttl now items (oldest ∷ order) =
      let dropped = prune ttl now (delete ℕ_discrete oldest items) order in
      if is_live ttl now (lookup ℕ_discrete oldest items) then (items, oldest ∷ order) else dropped

  -- `if len(c.order) > c.capacity`: give up the oldest key.
  unfoldable pub evict : ℕ → List (ℕ × CacheEntry V) → List ℕ → List (ℕ × CacheEntry V) × List ℕ
  evict capacity items [] = (items, [])
  evict capacity items (oldest ∷ order) =
      if ltb capacity (length (oldest ∷ order))
      then (delete ℕ_discrete oldest items, order)
      else (items, oldest ∷ order)

  -- The ring with `vxid` in it.
  unfoldable pub enqueue : ℕ → List (ℕ × CacheEntry V) → List ℕ → List ℕ
  enqueue vxid items order =
      if is_some (lookup ℕ_discrete vxid items) then order else order ++ vxid ∷ []

  unfoldable pub set : VxidCache V → ℕ → V → ℕ → VxidCache V
  unfolding prune enqueue evict
  set c vxid value now =
      let (items, order) = prune c.ttl now c.items c.order in
      let (items', order') =
        evict c.capacity
          (insert ℕ_discrete vxid (record { value = value; inserted_at = now }) items)
          (enqueue vxid items order) in
      record c { items = items'; order = order' }

  -- What `get` makes of an entry.
  unfoldable pub live_value : ℕ → ℕ → Option (CacheEntry V) → Option V
  live_value ttl now none = none
  live_value ttl now (some e) = if within ttl now e.inserted_at then some e.value else none

  unfoldable pub get : VxidCache V → ℕ → ℕ → Option V
  unfolding live_value
  get c vxid now = live_value c.ttl now (lookup ℕ_discrete vxid c.items)
