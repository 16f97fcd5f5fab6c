-- ===== src/Tracer/Linker/Build.antt =====
-- internal/tracer/spans/linker.go, `Build` and `resolveHit`.
use cloud_vinyl.Prelude.{
  ℕ, Bool, true, false, not, ◌&&◌, Option, none, some, List, [], ◌∷◌, ◌++◌, if◌then◌else◌, is_some,
  Text, codes, fields, parse_uint,
}
use cloud_vinyl.Tracer.VxidCache
use cloud_vinyl.Tracer.VxidCache.{VxidCache}
use cloud_vinyl.Tracer.Vsl.{Tx, vxid_of, records_of, first, timestamp}
use cloud_vinyl.Tracer.Spans.{Span, Outcome, spans}
use cloud_vinyl.Tracer.Spans.Build.{build_with_outcome}
use cloud_vinyl.Tracer.Linker.{
  RestartInfo, Linker, count_misses, update_top, link_hit, degrade, release_aged_parked,
  resolve_parked, park, reparent_restart, is_restart_continuation, record_restart_links,
  record_fetches,
}

first_uint : List Text → Option ℕ
first_uint [] = none
first_uint (f ∷ fs) = parse_uint f

-- The vxid that the group's own "Hit <vxid> ..." record names.
unfoldable pub hit_vxid : Option Text → Option ℕ
unfolding first_uint
hit_vxid none = none
hit_vxid (some raw) = first_uint (fields raw)

-- What `resolveHit` leaves: the overflow, the group unless it is parked, and the state.
pub record HitResult : Type 0 where
  pub overflow : List Span
  pub returned : List Span
  pub linker : Linker

-- A hit whose fetch is not cached: an ordinary warm hit, or a waiter to park.
unfoldable pub unresolved_hit : Bool → ℕ → Linker → List Span → ℕ → HitResult
unresolved_hit false vxid l built now = record {
  overflow = [];
  returned = update_top degrade built;
  linker = count_misses 1 l;
}
unresolved_hit true vxid l built now =
    let (overflow, l') = park l vxid built now in
    record { overflow = overflow; returned = []; linker = l' }

unfoldable pub resolve_vxid : Option ℕ → Bool → Linker → List Span → ℕ → HitResult
unfolding unresolved_hit
resolve_vxid none waiter l built now = record { overflow = []; returned = built; linker = l }
resolve_vxid (some vxid) waiter l built now = elim (VxidCache.get l.fetches vxid now) [
  | some fetch ↦ record { overflow = []; returned = update_top (link_hit fetch) built; linker = l }
  | none ↦ unresolved_hit waiter vxid l built now
]

-- Step 2 of `Build`: join the trace of the original of a restart.
unfoldable pub continue_restart :
    Bool → Option RestartInfo → Linker → List Span → List Span × Linker
continue_restart false orig l built = (built, l)
continue_restart true none l built = (built, count_misses 1 l)
continue_restart true (some orig) l built = (reparent_restart orig built, l)

-- Steps 3 and 4 of `Build`: remember the fetches and the restart links of the group.
unfoldable pub remember : Tx → List Span → ℕ → Linker → Linker
remember t [] now l = l
remember t (top ∷ below) now l = record l {
  fetches = record_fetches (top ∷ below) now l.fetches;
  restarts = record_restart_links (records_of t) top now l.restarts;
}

abbrev is_spans : Outcome → Bool
is_spans spans = true
is_spans _ = false

-- The early return on an empty group.
unfoldable pub no_spans : Tx → Outcome → ℕ → Linker → Linker
no_spans t outcome now l =
    if is_spans outcome
      && (is_restart_continuation t && not (is_some (VxidCache.get l.restarts (vxid_of t) now)))
    then count_misses 1 l
    else l

module _ (parse_time : Text → Option ℕ) (ids : ℕ → ℕ) where
  -- `tx.Timestamp("Waitinglist")`
  abbrev pub is_waiter : Tx → Bool
  is_waiter t = is_some (timestamp parse_time t (codes "Waitinglist"))

  -- `Build` behind `BuildWithOutcome`, on a group with spans.
  unfoldable pub correlate : Tx → List Span → ℕ → Linker → List Span × Linker
  unfolding continue_restart remember resolve_vxid hit_vxid
  correlate t built now l =
      let (built₁, l₁) =
        continue_restart (is_restart_continuation t) (VxidCache.get l.restarts (vxid_of t) now) l
          built in
      let (resolved, l₂) = resolve_parked (remember t built₁ now l₁) now in
      let hit = resolve_vxid (hit_vxid (first t (codes "Hit"))) (is_waiter t) l₂ built₁ now in
      (resolved ++ (hit.overflow ++ hit.returned), hit.linker)

  unfoldable pub build_group : Tx → List Span → Outcome → ℕ → Linker → List Span × Linker
  unfolding correlate no_spans
  build_group t [] outcome now l = ([], no_spans t outcome now l)
  build_group t (top ∷ below) outcome now l = correlate t (top ∷ below) now l

  unfoldable pub build : Tx → ℕ → Linker → List Span × Outcome × Linker
  unfolding build_group
  build t now l =
      let (aged, l₁) = release_aged_parked l now in
      let b = build_with_outcome parse_time ids t l₁.minted_ids in
      let (out, l₂) =
        build_group t b.result b.outcome now (record l₁ { minted_ids = b.minted_ids }) in
      (aged ++ out, b.outcome, l₂)
