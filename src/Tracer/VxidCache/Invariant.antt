-- ===== src/Tracer/VxidCache/Invariant.antt =====
-- The invariant of `vxidCache`: the ring lists the keys of the map, each once, and stays bounded.
use cloud_vinyl.Prelude.{
  ℕ, suc, ◌≤◌, ◌≡◌, refl, sym, ◌∙◌, inl, inr, List, [], ◌∷◌, arith, ℕ_discrete, ltb, Bool-cases,
  is_some, length, length-append, elem, Distinct, elem-append, Distinct-snoc, lookup, delete,
  insert, lookup-delete, lookup-insert,
}
use cloud_vinyl.Tracer.VxidCache.{CacheEntry, VxidCache, new, is_live, prune, evict, enqueue, set}

module _ {V : Type 0} where
  -- The ring and the map of the same cache.
  pub record Agree (items : List (ℕ × CacheEntry V)) (order : List ℕ) : Type 0 where
    pub keys : (k : ℕ) → is_some (lookup ℕ_discrete k items) ≡ elem ℕ_discrete k order
    pub distinct : Distinct ℕ_discrete order

  pub record IsValid (c : VxidCache V) : Type 0 where
    pub agree : Agree c.items c.order
    pub bounded : length c.order ≤ c.capacity

  pub drop_oldest-Agree :
      (o : ℕ) (items : List (ℕ × CacheEntry V)) (order : List ℕ)
      → Agree items (o ∷ order)
      → Agree (delete ℕ_discrete o items) order
  drop_oldest-Agree o items order a = record {
    keys = λ k. ground (arith, lookup-delete ℕ_discrete k o items, a.keys k, a.distinct);
    distinct = a.distinct.1;
  }

  pub prune-Agree :
      (ttl now : ℕ) (items : List (ℕ × CacheEntry V)) (order : List ℕ)
      → Agree items order
      → let (items', order') = prune ttl now items order in
        Agree items' order' × (length order' ≤ length order)
  unfolding prune
  prune-Agree ttl now items [] a = (a, omega arith)
  prune-Agree ttl now items (o ∷ order) a =
      elim (Bool-cases (is_live ttl now (lookup ℕ_discrete o items))) [
        | inl live ↦ rw live (a, omega arith)
        | inr old ↦ rw old (
            let (b, le) =
              prune-Agree ttl now (delete ℕ_discrete o items) order
                (drop_oldest-Agree o items order a) in
            (b, omega arith))
      ]

  pub enqueue-Agree :
      (vxid : ℕ) (e : CacheEntry V) (items : List (ℕ × CacheEntry V)) (order : List ℕ)
      → Agree items order
      → Agree (insert ℕ_discrete vxid e items) (enqueue vxid items order)
  unfolding enqueue
  enqueue-Agree vxid e items order a = elim (Bool-cases (is_some (lookup ℕ_discrete vxid items))) [
    | inl old ↦ rw old (record {
      keys = λ k. ground (arith, lookup-insert ℕ_discrete k vxid e items, a.keys k);
      distinct = a.distinct;
    })
    | inr fresh ↦ rw fresh (record {
      keys = λ k. ground (
        arith,
        lookup-insert ℕ_discrete k vxid e items,
        a.keys k,
        elem-append ℕ_discrete k order (vxid ∷ []),
      );
      distinct = Distinct-snoc ℕ_discrete order vxid a.distinct (sym (a.keys vxid) ∙ fresh);
    })
  ]

  pub evict-Agree :
      (cap : ℕ) (items : List (ℕ × CacheEntry V)) (order : List ℕ)
      → Agree items order
      → length order ≤ suc cap
      → let (items', order') = evict cap items order in Agree items' order' × (length order' ≤ cap)
  unfolding evict
  evict-Agree cap items [] a h = (a, omega arith)
  evict-Agree cap items (o ∷ order) a h = elim (Bool-cases (ltb cap (length (o ∷ order)))) [
    | inl full ↦ rw full (drop_oldest-Agree o items order a, omega arith)
    | inr room ↦ rw room (a, ground arith)
  ]

  pub length-enqueue-le :
      (vxid : ℕ) (items : List (ℕ × CacheEntry V)) (order : List ℕ)
      → length (enqueue vxid items order) ≤ suc (length order)
  unfolding enqueue
  length-enqueue-le vxid items order = ground (arith, length-append order (vxid ∷ []))

  pub new-IsValid : (cap ttl : ℕ) → IsValid (new {V = V} cap ttl)
  unfolding new lookup
  new-IsValid cap ttl = record {
    agree = record { keys = λ k. refl; distinct = tt };
    bounded = omega arith;
  }

  -- `set` keeps the invariant: never more than `capacity` keys, and the ring lists exactly the
  -- keys of the map, each once.
  pub set-IsValid :
      (c : VxidCache V) (k : ℕ) (v : V) (now : ℕ) → IsValid c → IsValid (set c k v now)
  unfolding set
  set-IsValid c k v now h =
      let (a, le) = prune-Agree c.ttl now c.items c.order h.agree in
      let (items, order) = prune c.ttl now c.items c.order in
      let e : CacheEntry V = record { value = v; inserted_at = now } in
      let (b, le') =
        evict-Agree c.capacity (insert ℕ_discrete k e items) (enqueue k items order)
          (enqueue-Agree k e items order a)
          (let short = length-enqueue-le k items order in let bound = h.bounded in omega arith) in
      record { agree = b; bounded = le' }
