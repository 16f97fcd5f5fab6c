-- ===== src/Tracer/Tests.antt =====
-- Sample groups, runs of the tracer on them, and the theorems at concrete inputs.
use cloud_vinyl.Prelude.{
  ℕ, ◌+◌, ◌≡◌, refl, Bool, true, List, [], ◌∷◌, map, arith, ℕ_discrete, length, All, codes,
  text_dec, fields, parse_uint, lookup, delete, insert,
}
use cloud_vinyl.Tracer.VxidCache
use cloud_vinyl.Tracer.VxidCache.{VxidCache, new}
use cloud_vinyl.Tracer.VxidCache.Invariant.{IsValid, new-IsValid, set-IsValid}
use cloud_vinyl.Tracer.Vsl.{Record, Tx, tx, Txs, nil, cons, timestamp}
use cloud_vinyl.Tracer.Spans.{Span, Outcome}
use cloud_vinyl.Tracer.Spans.Build.{build_with_outcome}
use cloud_vinyl.Tracer.Linker.{FetchInfo, Linker, ParkedSet, new_linker}
use cloud_vinyl.Tracer.Linker.Build.{build, correlate}
use cloud_vinyl.Tracer.Linker.Conservation.{Core, count_spans, count_parked, build-conserves}
use cloud_vinyl.Tracer.Linker.Bounds.{
  IsBounded, IsUnresolved, build-IsBounded, correlate-IsUnresolved,
}
use Prim.Native.String.{String}

abbrev rec : String → String → Record
rec tag payload = record { tag = codes tag; payload = codes payload }

-- A request that waited on the fetch 7 of another one.
abbrev waiter : Tx
waiter =
    tx (codes "Request") 3
      (rec "Begin" "req 1 rxreq"
        ∷ rec "Timestamp" "Start: 100 0 0"
        ∷ rec "Timestamp" "Waitinglist: 105 0 0"
        ∷ rec "Hit" "7 9.9 10 0"
        ∷ rec "Timestamp" "Resp: 200 0 0"
        ∷ [])
      nil

-- The request that fetched it.
abbrev fetch_group : Tx
fetch_group =
    tx (codes "BeReq") 7
      (rec "Begin" "bereq 2 fetch"
        ∷ rec "Timestamp" "Bereq: 90 0 0"
        ∷ rec "Timestamp" "BerespBody: 190 0 0"
        ∷ [])
      nil

abbrev initiator : Tx
initiator =
    tx (codes "Request") 2
      (rec "Begin" "req 1 rxreq"
        ∷ rec "Timestamp" "Start: 80 0 0"
        ∷ rec "VCL_call" "MISS"
        ∷ rec "Timestamp" "Resp: 195 0 0"
        ∷ [])
      (cons fetch_group nil)

abbrev ids : ℕ → ℕ
ids k = k + 1

abbrev idle : Linker
idle = new_linker 4 1000

-- What a run of the Linker computes with.
program : Unit {0}
unfolding build new_linker VxidCache.new VxidCache.get VxidCache.set lookup insert delete ℕ_discrete
    cloud_vinyl.Tracer.Linker.release_aged_parked build_with_outcome text_dec timestamp fields
    parse_uint cloud_vinyl.Tracer.Vsl.header cloud_vinyl.Tracer.Linker.resolve_parked
    cloud_vinyl.Tracer.Linker.is_restart_continuation cloud_vinyl.Tracer.Vsl.first
    cloud_vinyl.Tracer.Linker.record_fetches cloud_vinyl.Tracer.Linker.park
program = tt

-- The waiter is parked, and comes back with the initiator's group, behind one link.
abbrev after_waiter : List Span × Outcome × Linker
after_waiter = build parse_uint ids waiter 1000 idle

abbrev after_both : List Span × Outcome × Linker
after_both = build parse_uint ids initiator 1001 after_waiter.2

waiter_first :
    (length after_waiter.0 ≡ 0)
    × (after_waiter.2.hits_parked ≡ 1)
    × (map {B = ℕ × ℕ} (λ s. (s.vxid, length s.links)) after_both.0 ≡ (3, 1) ∷ (2, 0) ∷ (7, 0) ∷ [])
    × (after_both.2.misses ≡ 0)
unfolding program
waiter_first = (refl, refl, refl, refl)

any_core : Core → Bool
any_core c = true

build-conserves_example :
    count_spans any_core after_both.0 + count_parked any_core after_both.2.parked
    ≡ count_parked any_core after_waiter.2.parked
      + count_spans any_core
          (build_with_outcome parse_uint ids initiator after_waiter.2.minted_ids).result
build-conserves_example = build-conserves any_core parse_uint ids initiator 1001 after_waiter.2

build-IsBounded_example :
    IsBounded after_waiter.2 1000
    × (after_waiter.2.max_parked ≡ 256)
    × (after_waiter.2.age_limit ≡ 10000000000)
unfolding new_linker
build-IsBounded_example =
    build-IsBounded parse_uint ids waiter 1000 idle (omega arith) (omega arith)

abbrev sample : VxidCache ℕ
sample = VxidCache.set (VxidCache.new 2 100) 5 50 0

sample-IsValid : IsValid sample
sample-IsValid = set-IsValid (new 2 100) 5 50 0 (new-IsValid 2 100)

set-IsValid_example : IsValid (VxidCache.set sample 6 60 10)
set-IsValid_example = set-IsValid sample 6 60 10 sample-IsValid

waiter_spans : List Span
waiter_spans = (build_with_outcome parse_uint ids waiter 0).result

correlate-IsUnresolved_example :
    let l' = (correlate parse_uint ids waiter waiter_spans 1000 idle).1 in
    All (IsUnresolved l'.fetches 1000) l'.parked
unfolding new_linker
correlate-IsUnresolved_example =
    correlate-IsUnresolved parse_uint ids waiter waiter_spans 1000 idle (omega arith) (omega arith)
