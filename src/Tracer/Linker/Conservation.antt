-- ===== src/Tracer/Linker/Conservation.antt =====
-- No span is lost, made up or returned twice by the Linker.
use cloud_vinyl.Tracer.Vsl.{timestamp, vxid_of}
use cloud_vinyl.Tracer.Spans.Build.{build_with_outcome}
use cloud_vinyl.Prelude.{
  ℕ, ◌+◌, ◌≡◌, refl, ap, inl, inr, Bool, true, false, Option, none, some, List, [], ◌∷◌, ◌++◌, map,
  arith, Bool-cases, is_some, Option-cases, count, count-append, Text, codes,
}
use cloud_vinyl.Tracer.VxidCache.{VxidCache}
use cloud_vinyl.Tracer.VxidCache
use cloud_vinyl.Tracer.Spans.{Outcome, Span, SpanKind}
use cloud_vinyl.Tracer.Linker.{
  first, is_restart_continuation, release_aged_parked, Tx, resolve_parked, FetchInfo, RestartInfo,
  ParkedSet, Linker, update_top, link_hit, degrade, released, overstayed, split_aged,
  split_resolved, make_room, park, join_trace, reparent_restart,
}
use cloud_vinyl.Tracer.Linker.Build.{
  hit_vxid, no_spans, remember, continue_restart, correlate, build, build_group, unresolved_hit,
  resolve_vxid,
}

-- What correlation never changes in a span.
pub record Core : Type 0 where
  pub span_id : ℕ
  pub name : Text
  pub kind : SpanKind
  pub start : ℕ
  pub end : ℕ
  pub vxid : ℕ

abbrev pub core : Span → Core
core s = record {
  span_id = s.span_id;
  name = s.name;
  kind = s.kind;
  start = s.start;
  end = s.end;
  vxid = s.vxid;
}

module _ (p : Core → Bool) where
  abbrev pub count_spans : List Span → ℕ
  count_spans = count (λ s. p (core s))

  abbrev pub count_parked : List ParkedSet → ℕ
  count_parked [] = 0
  count_parked (q ∷ qs) = count_spans q.spans + count_parked qs

  count_spans-degrade : (ss : List Span) → count_spans (update_top degrade ss) ≡ count_spans ss
  unfolding degrade
  count_spans-degrade [] = refl
  count_spans-degrade (s ∷ ss) = refl

  count_spans-link_hit :
      (f : FetchInfo) (ss : List Span) → count_spans (update_top (link_hit f) ss) ≡ count_spans ss
  unfolding link_hit
  count_spans-link_hit f [] = refl
  count_spans-link_hit f (s ∷ ss) = refl

  count_spans-join_trace :
      (a b : ℕ) (ss : List Span) → count_spans (map (join_trace a b) ss) ≡ count_spans ss
  unfolding join_trace
  count_spans-join_trace a b [] = refl
  count_spans-join_trace a b (s ∷ ss) = ground (arith, count_spans-join_trace a b ss)

  count_spans-reparent :
      (o : RestartInfo) (ss : List Span) → count_spans (reparent_restart o ss) ≡ count_spans ss
  unfolding reparent_restart
  count_spans-reparent o [] = refl
  count_spans-reparent o (s ∷ ss) = omega (arith, count_spans-join_trace s.trace_id o.trace_id ss)

  count_parked-append :
      (qs rs : List ParkedSet) → count_parked (qs ++ rs) ≡ count_parked qs + count_parked rs
  count_parked-append [] rs = omega arith
  count_parked-append (q ∷ qs) rs = omega (arith, count_parked-append qs rs)

  split_aged-count :
      (age now : ℕ) (ps : List ParkedSet)
      → let r = split_aged age now ps in count_spans r.0 + count_parked r.1 ≡ count_parked ps
  unfolding split_aged
  split_aged-count age now [] = omega arith
  split_aged-count age now (q ∷ ps) = elim (Bool-cases (overstayed age now q)) [
    | inl old ↦ rw old (
        omega (
          arith,
          split_aged-count age now ps,
          count_spans-degrade q.spans,
          count-append (λ s. p (core s)) (released q) (split_aged age now ps).0,
        ))
    | inr young ↦ rw young (omega (arith, split_aged-count age now ps))
  ]

  split_resolved-count :
      (c : VxidCache FetchInfo) (now : ℕ) (ps : List ParkedSet)
      → let r = split_resolved c now ps in count_spans r.0 + count_parked r.1 ≡ count_parked ps
  unfolding split_resolved
  split_resolved-count c now [] = omega arith
  split_resolved-count c now (q ∷ ps) = elim (Option-cases (VxidCache.get c q.vxid now)) [
    | inl miss ↦ rw (miss, split_resolved) (omega (arith, split_resolved-count c now ps))
    | inr (f, hit) ↦
        rw (hit, split_resolved)
          (omega (
            arith,
            split_resolved-count c now ps,
            count_spans-link_hit f q.spans,
            count-append (λ s. p (core s)) (update_top (link_hit f) q.spans)
                (split_resolved c now ps).0,
          ))
  ]

  make_room-count :
      (m : ℕ) (ps : List ParkedSet)
      → let r = make_room m ps in count_spans r.0 + count_parked r.1 ≡ count_parked ps
  unfolding make_room
  make_room-count m [] = omega arith
  make_room-count m (q ∷ ps) = ground (arith, count_spans-degrade q.spans)

  park-count :
      (l : Linker) (v : ℕ) (built : List Span) (now : ℕ)
      → let r = park l v built now in
        count_spans r.0 + count_parked r.1.parked ≡ count_parked l.parked + count_spans built
  unfolding park
  park-count l v built now =
      let r = make_room l.max_parked l.parked in
      let q : ParkedSet = record { vxid = v; spans = built; arrived_at = now } in
      omega (arith, make_room-count l.max_parked l.parked, count_parked-append r.1 (q ∷ []))

  resolve_vxid-count :
      (v : Option ℕ) (waiter : Bool) (l : Linker) (built : List Span) (now : ℕ)
      → let r = resolve_vxid v waiter l built now in
        count_spans r.overflow + count_spans r.returned + count_parked r.linker.parked
        ≡ count_parked l.parked + count_spans built
  unfolding resolve_vxid unresolved_hit
  resolve_vxid-count none waiter l built now = omega arith
  resolve_vxid-count (some v) waiter l built now =
      elim (Option-cases (VxidCache.get l.fetches v now)) [
        | inr (f, hit) ↦ rw (hit, resolve_vxid) (omega (arith, count_spans-link_hit f built))
        | inl miss ↦ rw (miss, resolve_vxid) (unresolved waiter)
      ]
    where
      unresolved :
          (w : Bool)
          → let r = unresolved_hit w v l built now in
            count_spans r.overflow + count_spans r.returned + count_parked r.linker.parked
            ≡ count_parked l.parked + count_spans built
      unresolved false = omega (arith, count_spans-degrade built)
      unresolved true = omega (arith, park-count l v built now)

  resolve_parked-count :
      (l : Linker) (now : ℕ)
      → let r = resolve_parked l now in
        count_spans r.0 + count_parked r.1.parked ≡ count_parked l.parked
  unfolding resolve_parked
  resolve_parked-count l now = split_resolved-count l.fetches now l.parked

  continue_restart-count :
      (c : Bool) (o : Option RestartInfo) (l : Linker) (built : List Span)
      → let r = continue_restart c o l built in
        (count_spans r.0 ≡ count_spans built) × (r.1.parked ≡ l.parked)
  unfolding continue_restart
  continue_restart-count false o l built = (refl, refl)
  continue_restart-count true none l built = (refl, refl)
  continue_restart-count true (some o) l built = (count_spans-reparent o built, refl)

  remember-parked :
      (t : Tx) (built : List Span) (now : ℕ) (l : Linker)
      → (remember t built now l).parked ≡ l.parked
  unfolding remember
  remember-parked t [] now l = refl
  remember-parked t (s ∷ ss) now l = refl

  module _ (parse_time : Text → Option ℕ) (ids : ℕ → ℕ) where
    correlate-count :
        (t : Tx) (built : List Span) (now : ℕ) (l : Linker)
        → let r = correlate parse_time ids t built now l in
          count_spans r.0 + count_parked r.1.parked ≡ count_parked l.parked + count_spans built
    unfolding correlate
    correlate-count t built now l =
        let c =
          continue_restart (is_restart_continuation t) (VxidCache.get l.restarts (vxid_of t) now) l
            built in
        let m = remember t c.0 now c.1 in
        let q = resolve_parked m now in
        let v = hit_vxid (first t (codes "Hit")) in
        let w = is_some (timestamp parse_time t (codes "Waitinglist")) in
        let h = resolve_vxid v w q.1 c.0 now in
        let (same, kept) =
          continue_restart-count (is_restart_continuation t)
            (VxidCache.get l.restarts (vxid_of t) now) l built in
        omega (
          arith,
          same,
          ap count_parked kept,
          ap count_parked (remember-parked t c.0 now c.1),
          resolve_parked-count m now,
          resolve_vxid-count v w q.1 c.0 now,
          count-append (λ s. p (core s)) q.0 (h.overflow ++ h.returned),
          count-append (λ s. p (core s)) h.overflow h.returned,
        )

    build_group-count :
        (t : Tx) (built : List Span) (o : Outcome) (now : ℕ) (l : Linker)
        → let r = build_group parse_time ids t built o now l in
          count_spans r.0 + count_parked r.1.parked ≡ count_parked l.parked + count_spans built
    unfolding build_group no_spans
    build_group-count t [] o now l = ground arith
    build_group-count t (s ∷ ss) o now l = correlate-count t (s ∷ ss) now l

    -- Every span that `Build` is given, by this group or by the parking lot before the call, is
    -- returned or parked after it, exactly once: whatever test one makes on the identity, name,
    -- kind, times and vxid of a span, as many spans pass it before as after.
    pub build-conserves :
        (t : Tx) (now : ℕ) (l : Linker)
        → let (out, outcome, l') = build parse_time ids t now l in
          let given = (build_with_outcome parse_time ids t l.minted_ids).result in
          count_spans out + count_parked l'.parked ≡ count_parked l.parked + count_spans given
    unfolding build release_aged_parked
    build-conserves t now l =
        let b = build_with_outcome parse_time ids t l.minted_ids in
        let a = split_aged l.age_limit now l.parked in
        let l₁ : Linker = record l {
          parked = a.1;
          misses = l.misses + a.2;
          minted_ids = b.minted_ids;
        } in
        let r = build_group parse_time ids t b.result b.outcome now l₁ in
        omega (
          arith,
          split_aged-count l.age_limit now l.parked,
          build_group-count t b.result b.outcome now l₁,
          count-append (λ s. p (core s)) a.0 r.0,
        )
