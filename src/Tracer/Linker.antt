-- ===== src/Tracer/Linker.antt =====
-- internal/tracer/spans/linker.go, `Linker`: correlation of a request group with groups seen
-- before or after it. The callbacks `OnCacheMiss` and `OnHitParked` only count, so the state has
-- their counters. A method that writes through a pointer to a span returns the new span list.
pub mod Build
pub mod Conservation
pub mod Bounds
use cloud_vinyl.Prelude.{
  ℕ, ◌+◌, Bool, true, false, ◌&&◌, Option, none, some, List, [], ◌∷◌, ◌++◌, map, ltb, leb, ◌==◌,
  if◌then◌else◌, length, Text, codes, text_eq, fields, parse_uint,
}
use cloud_vinyl.Tracer.VxidCache
use cloud_vinyl.Tracer.VxidCache.{VxidCache}
use cloud_vinyl.Tracer.Vsl.{Record, Tx, tx_type, first, has_tag}
use cloud_vinyl.Tracer.Spans.{
  bool_attr, string_attr, Link, Span, fetch_name, type_request, restart_reason, restart_link,
}

pub record FetchInfo : Type 0 where
  pub trace_id : ℕ
  pub span_id : ℕ
  pub end : ℕ

pub record RestartInfo : Type 0 where
  pub trace_id : ℕ
  pub span_id : ℕ

pub record ParkedSet : Type 0 where
  pub vxid : ℕ
  pub spans : List Span
  pub arrived_at : ℕ

pub record Linker : Type 0 where
  pub fetches : VxidCache FetchInfo
  pub restarts : VxidCache RestartInfo
  pub max_parked : ℕ
  pub age_limit : ℕ
  pub parked : List ParkedSet
  pub misses : ℕ
  pub hits_parked : ℕ
  pub minted_ids : ℕ

abbrev pub default_max_parked : ℕ
default_max_parked = 256

-- 10 seconds.
abbrev pub default_park_age_limit : ℕ
default_park_age_limit = 10000000000

unfoldable pub new_linker : ℕ → ℕ → Linker
new_linker capacity ttl = record {
  fetches = VxidCache.new capacity ttl;
  restarts = VxidCache.new capacity ttl;
  max_parked = default_max_parked;
  age_limit = default_park_age_limit;
  parked = [];
  misses = 0;
  hits_parked = 0;
  minted_ids = 0;
}

-- A change of `built[0]`; no group of spans is empty where the code indexes it.
abbrev pub update_top : (Span → Span) → List Span → List Span
update_top f [] = []
update_top f (s ∷ ss) = f s ∷ ss

unfoldable pub link_hit : FetchInfo → Span → Span
link_hit fetch req =
    let link : Link = record {
      trace_id = fetch.trace_id;
      span_id = fetch.span_id;
      attrs = string_attr (codes "varnish.link") (codes "origin-fetch") ∷ [];
    } in
    record req {
      links = req.links ++ link ∷ [];
      attrs =
          (if ltb req.start fetch.end
            then req.attrs ++ bool_attr (codes "varnish.coalesced") true ∷ []
            else req.attrs);
    }

unfoldable pub degrade : Span → Span
degrade req = record req {
  attrs = req.attrs ++ bool_attr (codes "varnish.coalesced_unlinked") true ∷ [];
}

-- `miss()` called n times.
abbrev pub count_misses : ℕ → Linker → Linker
count_misses n l = record l { misses = l.misses + n }

-- What `degradeRelease` returns, its miss being counted by the caller here.
abbrev pub released : ParkedSet → List Span
released p = update_top degrade p.spans

-- `now.Sub(p.arrivedAt) > l.ageLimit`
abbrev pub overstayed : ℕ → ℕ → ParkedSet → Bool
overstayed age_limit now p = ltb (p.arrived_at + age_limit) now

-- The loop of `releaseAgedParked`: spans released, sets kept, number of releases.
unfoldable pub split_aged : ℕ → ℕ → List ParkedSet → List Span × List ParkedSet × ℕ
unfolding degrade
split_aged age_limit now [] = ([], [], 0)
split_aged age_limit now (p ∷ ps) =
    let (out, kept, n) = split_aged age_limit now ps in
    if overstayed age_limit now p then (released p ++ out, kept, n + 1) else (out, p ∷ kept, n)

unfoldable pub release_aged_parked : Linker → ℕ → List Span × Linker
unfolding split_aged
release_aged_parked l now =
    let (out, kept, n) = split_aged l.age_limit now l.parked in
    (out, record l { parked = kept; misses = l.misses + n })

-- The loop of `resolveParked`.
unfoldable pub split_resolved :
    VxidCache FetchInfo → ℕ → List ParkedSet → List Span × List ParkedSet
unfolding link_hit
split_resolved fetches now [] = ([], [])
split_resolved fetches now (p ∷ ps) =
    let (out, kept) = split_resolved fetches now ps in
    elim (VxidCache.get fetches p.vxid now) [
      | some fetch ↦ (update_top (link_hit fetch) p.spans ++ out, kept)
      | none ↦ (out, p ∷ kept)
    ]

unfoldable pub resolve_parked : Linker → ℕ → List Span × Linker
unfolding split_resolved
resolve_parked l now =
    let (out, kept) = split_resolved l.fetches now l.parked in (out, record l { parked = kept })

-- The room that `park` makes at a full lot: `l.parked[0]` goes, degraded. The lot that `NewLinker`
-- builds holds 256 sets, so it is not empty when it is full.
unfoldable pub make_room : ℕ → List ParkedSet → List Span × List ParkedSet × ℕ
unfolding degrade
make_room max_parked [] = ([], [], 0)
make_room max_parked (oldest ∷ ps) =
    if leb max_parked (length (oldest ∷ ps)) then (released oldest, ps, 1) else ([], oldest ∷ ps, 0)

unfoldable pub park : Linker → ℕ → List Span → ℕ → List Span × Linker
unfolding make_room
park l vxid built now =
    let (overflow, kept, n) = make_room l.max_parked l.parked in
    let arrival : ParkedSet = record { vxid = vxid; spans = built; arrived_at = now } in
    (
      overflow,
      record l {
        parked = kept ++ arrival ∷ [];
        misses = l.misses + n;
        hits_parked = l.hits_parked + 1;
      },
    )

-- `Flush`
flushed_spans : List ParkedSet → List Span
unfolding degrade
flushed_spans [] = []
flushed_spans (p ∷ ps) = released p ++ flushed_spans ps

unfoldable pub flush : Linker → List Span × Linker
unfolding flushed_spans
flush l = (flushed_spans l.parked, record l { parked = []; misses = l.misses + length l.parked })

-- `reparentRestart`
join_trace : ℕ → ℕ → Span → Span
join_trace old new s = if s.trace_id == old then record s { trace_id = new } else s

unfoldable pub reparent_restart : RestartInfo → List Span → List Span
unfolding join_trace
reparent_restart orig [] = []
reparent_restart orig (top ∷ below) =
    record top {
      parent_id = orig.span_id;
      trace_id = orig.trace_id;
      attrs = top.attrs ++ bool_attr (codes "varnish.restart_continuation") true ∷ [];
    }
    ∷ map (join_trace top.trace_id orig.trace_id) below

third_is_restart : List Text → Bool
third_is_restart (f₀ ∷ f₁ ∷ f₂ ∷ fs) = text_eq f₂ restart_reason
third_is_restart fs = false

begins_restart : Option Text → Bool
unfolding third_is_restart
begins_restart none = false
begins_restart (some b) = third_is_restart (fields b)

unfoldable pub is_restart_continuation : Tx → Bool
unfolding begins_restart
is_restart_continuation t =
    text_eq (tx_type t) type_request && begins_restart (first t (codes "Begin"))

-- The vxid that a record of the original request names as its continuation.
named_vxid : Option Text → Option ℕ
named_vxid none = none
named_vxid (some v) = parse_uint v

unfoldable pub restart_child : Record → Option ℕ
unfolding named_vxid restart_link
restart_child r =
    if has_tag (codes "Link") r then named_vxid (restart_link (fields r.payload)) else none

unfoldable pub record_restart_links :
    List Record → Span → ℕ → VxidCache RestartInfo → VxidCache RestartInfo
unfolding restart_child
record_restart_links [] top now c = c
record_restart_links (r ∷ rs) top now c = elim (restart_child r) [
  | none ↦ record_restart_links rs top now c
  | some v ↦
      record_restart_links rs top now
        (VxidCache.set c v (record { trace_id = top.trace_id; span_id = top.span_id }) now)
]

-- The loop of `Build` over the spans just built.
unfoldable pub record_fetches : List Span → ℕ → VxidCache FetchInfo → VxidCache FetchInfo
record_fetches [] now c = c
record_fetches (s ∷ ss) now c = record_fetches ss now (
    if text_eq s.name fetch_name
    then VxidCache.set c s.vxid (record { trace_id = s.trace_id; span_id = s.span_id; end = s.end })
        now
    else c)
