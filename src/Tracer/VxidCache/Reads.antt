-- ===== src/Tracer/VxidCache/Reads.antt =====
-- What can be read from `vxidCache` after a `set`.
use cloud_vinyl.Prelude.{
  ℕ, ◌≤◌, ◌<◌, ◌≡◌, refl, ◌∙◌, ◌≢◌, ◌⊎◌, inl, inr, ite, none, some, List, [], ◌∷◌, arith,
  ℕ_discrete, ltb, if◌then◌else◌, Bool-cases, length, length-append, lookup, delete, insert,
  lookup-delete, lookup-insert_self, lookup-insert_ne,
}
use mathlib.Core.List.{head?}
use cloud_vinyl.Tracer.VxidCache.{
  CacheEntry, VxidCache, is_live, prune, evict, enqueue, set, get, live_value, within,
}
use cloud_vinyl.Tracer.VxidCache.Invariant.{Agree, IsValid, prune-Agree}

module _ {V : Type 0} where
  -- What the loop of `set` drops was dead already, and stays so.
  live_value-prune :
      (ttl now t q : ℕ) (items : List (ℕ × CacheEntry V)) (order : List ℕ)
      → now ≤ t
      → live_value ttl t (lookup ℕ_discrete q (prune ttl now items order).0)
        ≡ live_value ttl t (lookup ℕ_discrete q items)
  unfolding prune
  live_value-prune ttl now t q items [] h = refl
  live_value-prune ttl now t q items (o ∷ order) h =
      elim (Bool-cases (is_live ttl now (lookup ℕ_discrete o items))) [
        | inl live ↦ rw live
        | inr old ↦ rw old (
            live_value-prune ttl now t q (delete ℕ_discrete o items) order h
            ∙ unfold is_live live_value in ground (arith, lookup-delete ℕ_discrete q o items))
      ]

  lookup-evict :
      (q cap : ℕ) (items : List (ℕ × CacheEntry V)) (o : ℕ) (order : List ℕ)
      → lookup ℕ_discrete q (evict cap items (o ∷ order)).0 ≡ (
          if ltb cap (length (o ∷ order))
          then ite (ℕ_discrete q o) none (lookup ℕ_discrete q items)
          else lookup ℕ_discrete q items)
  unfolding evict
  lookup-evict q cap items o order = ground (arith, lookup-delete ℕ_discrete q o items)

  -- The key just stored is not the one that is evicted.
  lookup-evict_self :
      (k cap : ℕ) (e : CacheEntry V) (items : List (ℕ × CacheEntry V)) (order : List ℕ)
      → Agree items order
      → length order ≤ cap
      → 0 < cap
      → lookup ℕ_discrete k (evict cap (insert ℕ_discrete k e items) (enqueue k items order)).0
        ≡ some e
  unfolding enqueue evict
  lookup-evict_self k cap e items [] a short pos =
      ground (arith, a.keys k, lookup-insert_self ℕ_discrete k e items)
  lookup-evict_self k cap e items (o ∷ order) a short pos = ground (
    arith,
    a.keys k,
    a.keys o,
    lookup-insert_self ℕ_discrete k e items,
    lookup-delete ℕ_discrete k o (insert ℕ_discrete k e items),
    length-append order (k ∷ []),
  )

  -- A value that was stored in a valid cache is read back until its lifetime is over, provided the
  -- cache can hold an entry at all.
  get-set_self :
      (c : VxidCache V) (k : ℕ) (v : V) (now t : ℕ)
      → IsValid c
      → 0 < c.capacity
      → get (set c k v now) k t ≡ (if within c.ttl t now then some v else none)
  unfolding set get
  get-set_self c k v now t h pos =
      let (a, le) = prune-Agree c.ttl now c.items c.order h.agree in
      let (items, order) = prune c.ttl now c.items c.order in
      rw (
        lookup-evict_self k c.capacity (record { value = v; inserted_at = now }) items order a
          (let b = h.bounded in omega arith) pos)

  enqueue_full :
      (k : ℕ) (items : List (ℕ × CacheEntry V)) (order : List ℕ) (cap : ℕ)
      → cap < length (enqueue k items order)
      → cap ≤ length order
  unfolding enqueue
  enqueue_full k items order cap h = ground (arith, length-append order (k ∷ []))

  -- The key that a full cache gives up is the first of the ring, if that is not empty.
  head-enqueue :
      (k : ℕ) (items : List (ℕ × CacheEntry V)) (order : List ℕ) (o : ℕ) (rest : List ℕ)
      → enqueue k items order ≡ o ∷ rest
      → (o ≡ k) ⊎ (head? order ≡ some o)
  unfolding enqueue
  head-enqueue k items [] o rest h = ground arith
  head-enqueue k items (p ∷ order) o rest h = ground arith

  evict_other :
      (cap ttl t j k : ℕ) (e : CacheEntry V) (items : List (ℕ × CacheEntry V)) (order : List ℕ)
      → j ≢ k
      → let r = live_value ttl t (
          lookup ℕ_discrete j
            (evict cap (insert ℕ_discrete k e items) (enqueue k items order)).0) in
        (r ≡ live_value ttl t (lookup ℕ_discrete j items))
        ⊎ ((r ≡ none) × (cap ≤ length order) × (head? order ≡ some j))
  evict_other cap ttl t j k e items order ne = split (enqueue k items order) refl
    where
      split :
          (ring : List ℕ)
          → enqueue k items order ≡ ring
          → let r =
              live_value ttl t
                (lookup ℕ_discrete j (evict cap (insert ℕ_discrete k e items) ring).0) in
            (r ≡ live_value ttl t (lookup ℕ_discrete j items))
            ⊎ ((r ≡ none) × (cap ≤ length order) × (head? order ≡ some j))
      split [] eq = inl (unfold evict in rw (lookup-insert_ne ℕ_discrete j k e items ne))
      split (o ∷ rest) eq =
          unfold live_value in
          ground (
            arith,
            lookup-evict j cap (insert ℕ_discrete k e items) o rest,
            lookup-insert_ne ℕ_discrete j k e items ne,
            head-enqueue k items order o rest eq,
            enqueue_full k items order cap,
            eq,
          )

  -- Storing one key leaves what any other key reads, then or later, as it was, with one exception:
  -- a full cache gives up the key that stands first in the ring once the expired ones are dropped.
  get-set_ne :
      (c : VxidCache V) (k : ℕ) (v : V) (j now t : ℕ)
      → j ≢ k
      → now ≤ t
      → let order = (prune c.ttl now c.items c.order).1 in
        (get (set c k v now) j t ≡ get c j t)
        ⊎ ((get (set c k v now) j t ≡ none) × (c.capacity ≤ length order) × (head? order ≡ some j))
  unfolding set get
  get-set_ne c k v j now t ne le =
      let (items, order) = prune c.ttl now c.items c.order in
      rw (← live_value-prune c.ttl now t j c.items c.order le) (
        evict_other c.capacity c.ttl t j k (record { value = v; inserted_at = now }) items order ne)
