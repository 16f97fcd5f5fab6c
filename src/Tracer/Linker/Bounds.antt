-- ===== src/Tracer/Linker/Bounds.antt =====
-- The parking lot of the Linker: how many sets it holds, for how long, and which.
use cloud_vinyl.Prelude.{
  ℕ, ◌+◌, ◌≤◌, ◌<◌, ◌≡◌, refl, ◌∙◌, inl, inr, Bool, true, false, Option, none, some, List, [], ◌∷◌,
  arith, is_some, Option-cases, length, length-append, All, All-append, Text, codes,
}
use cloud_vinyl.Tracer.VxidCache.{VxidCache}
use cloud_vinyl.Tracer.VxidCache
use cloud_vinyl.Tracer.Vsl.{Tx, first, timestamp, vxid_of}
use cloud_vinyl.Tracer.Spans.{Span, Outcome}
use cloud_vinyl.Tracer.Spans.Build.{build_with_outcome}
use cloud_vinyl.Tracer.Linker.{
  FetchInfo, RestartInfo, ParkedSet, Linker, is_restart_continuation, split_aged,
  release_aged_parked, split_resolved, resolve_parked, make_room, park,
}
use cloud_vinyl.Tracer.Linker.Build.{
  hit_vxid, unresolved_hit, resolve_vxid, continue_restart, remember, correlate, no_spans,
  build_group, build,
}

-- A set that has not waited longer than the limit.
abbrev pub IsYoung : ℕ → ℕ → ParkedSet → Type 0
IsYoung age now q = now ≤ q.arrived_at + age

-- A set whose fetch is not in the cache.
abbrev pub IsUnresolved : VxidCache FetchInfo → ℕ → ParkedSet → Type 0
IsUnresolved c now q = VxidCache.get c q.vxid now ≡ none

-- The lot behind a call at `now`.
pub record IsBounded (l : Linker) (now : ℕ) : Type 0 where
  pub size : length l.parked ≤ l.max_parked
  pub young : All (IsYoung l.age_limit now) l.parked

split_aged-IsYoung :
    (age now : ℕ) (ps : List ParkedSet)
    → let kept = (split_aged age now ps).1 in All (IsYoung age now) kept × (length kept ≤ length ps)
unfolding split_aged
split_aged-IsYoung age now [] = (tt, omega arith)
split_aged-IsYoung age now (q ∷ ps) = ground (arith, split_aged-IsYoung age now ps)

module _ (P : ParkedSet → Type 0) where
  split_resolved-All :
      (c : VxidCache FetchInfo) (now : ℕ) (ps : List ParkedSet)
      → All P ps
      → let kept = (split_resolved c now ps).1 in All P kept × (length kept ≤ length ps)
  unfolding split_resolved
  split_resolved-All c now [] h = (tt, omega arith)
  split_resolved-All c now (q ∷ ps) (h, hs) = elim (Option-cases (VxidCache.get c q.vxid now)) [
    | inl miss ↦
        let (a, b) = split_resolved-All c now ps hs in
        rw (miss, split_resolved) ((h, a), omega arith)
    | inr (f, hit) ↦
        let (a, b) = split_resolved-All c now ps hs in rw (hit, split_resolved) (a, omega arith)
  ]

  make_room-All :
      (m : ℕ) (ps : List ParkedSet)
      → All P ps
      → 0 < m
      → length ps ≤ m
      → let kept = (make_room m ps).1 in All P kept × (length kept < m)
  unfolding make_room
  make_room-All m [] h room le = (tt, omega arith)
  make_room-All m (q ∷ ps) (h, hs) room le = ground arith

split_resolved-IsUnresolved :
    (c : VxidCache FetchInfo) (now : ℕ) (ps : List ParkedSet)
    → All (IsUnresolved c now) (split_resolved c now ps).1
unfolding split_resolved
split_resolved-IsUnresolved c now [] = tt
split_resolved-IsUnresolved c now (q ∷ ps) = elim (Option-cases (VxidCache.get c q.vxid now)) [
  | inl miss ↦ rw (miss, split_resolved) (miss, split_resolved-IsUnresolved c now ps)
  | inr (f, hit) ↦ rw (hit, split_resolved) (split_resolved-IsUnresolved c now ps)
]

park-All :
    (P : ParkedSet → Type 0) (l : Linker) (v : ℕ) (built : List Span) (now : ℕ)
    → All P l.parked
    → P (record { vxid = v; spans = built; arrived_at = now })
    → 0 < l.max_parked
    → length l.parked ≤ l.max_parked
    → let l' = (park l v built now).1 in All P l'.parked × (length l'.parked ≤ l.max_parked)
unfolding park
park-All P l v built now hs h room le =
    let q : ParkedSet = record { vxid = v; spans = built; arrived_at = now } in
    let (a, b) = make_room-All P l.max_parked l.parked hs room le in
    let kept = (make_room l.max_parked l.parked).1 in
    (All-append P kept (q ∷ []) a (h, tt), omega (arith, length-append kept (q ∷ [])))

All-unit : (ps : List ParkedSet) → All (λ _. Unit {0}) ps
All-unit [] = tt
All-unit (p ∷ ps) = (tt, All-unit ps)

-- The lot after `resolveHit`.
resolve_vxid-All :
    (P : ParkedSet → Type 0) (v : Option ℕ) (waiter : Bool) (l : Linker) (built : List Span)
    (now : ℕ)
    → All P l.parked
    → ((u : ℕ)
        → VxidCache.get l.fetches u now ≡ none
        → P (record { vxid = u; spans = built; arrived_at = now }))
    → 0 < l.max_parked
    → length l.parked ≤ l.max_parked
    → let l' = (resolve_vxid v waiter l built now).linker in
      All P l'.parked
      × (length l'.parked ≤ l.max_parked)
      × (l'.max_parked ≡ l.max_parked)
      × (l'.age_limit ≡ l.age_limit)
      × (l'.fetches ≡ l.fetches)
unfolding resolve_vxid
resolve_vxid-All P none waiter l built now hs h room le = (hs, le, refl, refl, refl)
resolve_vxid-All P (some u) waiter l built now hs h room le =
    elim (Option-cases (VxidCache.get l.fetches u now)) [
      | inr (f, hit) ↦ rw (hit, resolve_vxid) (hs, le, refl, refl, refl)
      | inl miss ↦ rw (miss, resolve_vxid) (unresolved waiter (h u miss))
    ]
  where
    unresolved :
        (w : Bool)
        → P (record { vxid = u; spans = built; arrived_at = now })
        → let l' = (unresolved_hit w u l built now).linker in
          All P l'.parked
          × (length l'.parked ≤ l.max_parked)
          × (l'.max_parked ≡ l.max_parked)
          × (l'.age_limit ≡ l.age_limit)
          × (l'.fetches ≡ l.fetches)
    unresolved false hq = unfold unresolved_hit in (hs, le, refl, refl, refl)
    unresolved true hq =
        let (a, b) = park-All P l u built now hs hq room le in
        unfold unresolved_hit park in (a, b, refl, refl, refl)

-- An empty group leaves the lot alone.
no_spans-same :
    (t : Tx) (o : Outcome) (now : ℕ) (l : Linker)
    → let l' = no_spans t o now l in
      (l'.parked ≡ l.parked) × (l'.max_parked ≡ l.max_parked) × (l'.age_limit ≡ l.age_limit)
unfolding no_spans
no_spans-same t o now l = ground arith

module _ (parse_time : Text → Option ℕ) (ids : ℕ → ℕ) where
  remember-same :
      (t : Tx) (built : List Span) (now : ℕ) (l : Linker)
      → let l' = remember t built now l in
        (l'.parked ≡ l.parked) × (l'.max_parked ≡ l.max_parked) × (l'.age_limit ≡ l.age_limit)
  unfolding remember
  remember-same t [] now l = (refl, refl, refl)
  remember-same t (s ∷ ss) now l = (refl, refl, refl)

  continue_restart-same :
      (c : Bool) (o : Option RestartInfo) (l : Linker) (built : List Span)
      → let l' = (continue_restart c o l built).1 in
        (l'.parked ≡ l.parked) × (l'.max_parked ≡ l.max_parked) × (l'.age_limit ≡ l.age_limit)
  unfolding continue_restart
  continue_restart-same false o l built = (refl, refl, refl)
  continue_restart-same true none l built = (refl, refl, refl)
  continue_restart-same true (some o) l built = (refl, refl, refl)

  -- What `Build` keeps of every parked set, from what held of the lot before and of a new arrival.
  correlate-All :
      (P : ParkedSet → Type 0) (t : Tx) (built : List Span) (now : ℕ) (l : Linker)
      → All P l.parked
      → ((u : ℕ) (ss : List Span) → P (record { vxid = u; spans = ss; arrived_at = now }))
      → 0 < l.max_parked
      → length l.parked ≤ l.max_parked
      → let l' = (correlate parse_time ids t built now l).1 in
        All P l'.parked
        × (length l'.parked ≤ l'.max_parked)
        × (l'.max_parked ≡ l.max_parked)
        × (l'.age_limit ≡ l.age_limit)
  unfolding correlate resolve_parked
  correlate-All P t built now l hs new room le =
      let orig = VxidCache.get l.restarts (vxid_of t) now in
      let c = continue_restart (is_restart_continuation t) orig l built in
      let (p₁, m₁, a₁) = continue_restart-same (is_restart_continuation t) orig l built in
      let m = remember t c.0 now c.1 in
      let (p₂, m₂, a₂) = remember-same t c.0 now c.1 in
      let hs' : All P m.parked = rw (p₂, p₁) hs in
      let le' : length m.parked ≤ l.max_parked = rw (p₂, p₁) le in
      let (a, b) = split_resolved-All P m.fetches now m.parked hs' in
      let (q, size, same, age, _) =
        resolve_vxid-All P (hit_vxid (first t (codes "Hit")))
          (is_some (timestamp parse_time t (codes "Waitinglist"))) (resolve_parked m now).1 c.0 now
          a (λ u _. new u c.0) (omega arith) (omega arith) in
      (q, omega arith, same ∙ m₂ ∙ m₁, age ∙ a₂ ∙ a₁)

  build_group-All :
      (P : ParkedSet → Type 0) (t : Tx) (built : List Span) (o : Outcome) (now : ℕ) (l : Linker)
      → All P l.parked
      → ((u : ℕ) (ss : List Span) → P (record { vxid = u; spans = ss; arrived_at = now }))
      → 0 < l.max_parked
      → length l.parked ≤ l.max_parked
      → let l' = (build_group parse_time ids t built o now l).1 in
        All P l'.parked
        × (length l'.parked ≤ l'.max_parked)
        × (l'.max_parked ≡ l.max_parked)
        × (l'.age_limit ≡ l.age_limit)
  unfolding build_group no_spans
  build_group-All P t (s ∷ ss) o now l hs new room le =
      correlate-All P t (s ∷ ss) now l hs new room le
  build_group-All P t [] o now l hs new room le =
      let (p, m, a) = no_spans-same t o now l in (rw p hs, rw p (omega arith), m, a)

  -- After every call the lot holds no more than `maxParked` sets, and none that has waited longer
  -- than `ageLimit`, if it held no more than `maxParked`, which is positive, before the call.
  pub build-IsBounded :
      (t : Tx) (now : ℕ) (l : Linker)
      → 0 < l.max_parked
      → length l.parked ≤ l.max_parked
      → let l' = (build parse_time ids t now l).2 in
        IsBounded l' now × (l'.max_parked ≡ l.max_parked) × (l'.age_limit ≡ l.age_limit)
  unfolding build release_aged_parked
  build-IsBounded t now l room le =
      let a = split_aged l.age_limit now l.parked in
      let (young, short) = split_aged-IsYoung l.age_limit now l.parked in
      let b = build_with_outcome parse_time ids t l.minted_ids in
      let l₁ : Linker = record l {
        parked = a.1;
        misses = l.misses + a.2;
        minted_ids = b.minted_ids;
      } in
      let (q, size, same, age) =
        build_group-All (IsYoung l.age_limit now) t b.result b.outcome now l₁ young
          (λ u ss. omega arith) room (omega arith) in
      (record { size = size; young = rw age q }, same, age)

  -- A call on a group with spans leaves no set in the lot whose fetch is in the cache: what can be
  -- resolved is resolved in the same call. The lot holds no more than `maxParked` sets before it,
  -- and `maxParked` is positive.
  pub correlate-IsUnresolved :
      (t : Tx) (built : List Span) (now : ℕ) (l : Linker)
      → 0 < l.max_parked
      → length l.parked ≤ l.max_parked
      → let l' = (correlate parse_time ids t built now l).1 in
        All (IsUnresolved l'.fetches now) l'.parked
  unfolding correlate resolve_parked
  correlate-IsUnresolved t built now l room le =
      let orig = VxidCache.get l.restarts (vxid_of t) now in
      let c = continue_restart (is_restart_continuation t) orig l built in
      let (p₁, m₁, a₁) = continue_restart-same (is_restart_continuation t) orig l built in
      let m = remember t c.0 now c.1 in
      let (p₂, m₂, a₂) = remember-same t c.0 now c.1 in
      let le' : length m.parked ≤ l.max_parked = rw (p₂, p₁) le in
      let P = IsUnresolved m.fetches now in
      let (_, b) = split_resolved-All (λ _. Unit {0}) m.fetches now m.parked (All-unit m.parked) in
      let (q, size, same, age, kept) =
        resolve_vxid-All P (hit_vxid (first t (codes "Hit")))
          (is_some (timestamp parse_time t (codes "Waitinglist"))) (resolve_parked m now).1 c.0 now
          (split_resolved-IsUnresolved m.fetches now m.parked) (λ u miss. miss) (omega arith)
          (omega arith) in
      rw kept q
