-- ===== src/Proxy/Broadcast.antt =====
-- internal/proxy/broadcast.go: one request to every pod, and the outcomes together.
-- Each goroutine of `Broadcast` writes its own slot of `results` and the sum is made after
-- `wg.Wait`, so the result does not depend on their order: it is a map over the pods.
pub mod Laws
use cloud_vinyl.Prelude.{
  pos, ℕ, zero, suc, ◌+◌, ◌-◌, ◌*◌, ◌/◌, ◌%◌, ◌^◌, ◌≤◌, ◌<◌, ◌≡◌, refl, sym, ap, ◌∙◌, ◌≢◌, ◌↔◌, ◌⊎◌,
  inl, inr, ite, if_pos, if_neg, Bool, true, false, not, ◌&&◌, ◌||◌, Option, none, some, List, [],
  ◌∷◌, ◌++◌, map, append-nil, append_assoc, map-append, arith, ℕ_discrete, ltb, leb, ◌==◌,
  if◌then◌else◌, ltb→lt, leb→le, le→leb, Bool-cases, is_some, Option-cases, length, length-append,
  keep, length-keep-le, count, count-append, keep-append, keep-length_split, All, All-append, elem,
  Distinct, elem-append, Distinct-snoc, Text, codes, text_dec, text_eq, has_prefix, contains,
  is_space, fields_by, fields, trim_left, trim_right, trim_space, is_digit, u64_mod, parse_uint, ℤ,
  i64_max, atoi, IsToken, fields_by-token, lookup, delete, insert, lookup-delete, lookup-insert,
  lookup-insert_self, lookup-insert_ne,
}

pub record BroadcastRequest : Type 0 where
  pub method : Text
  pub path : Text
  pub host : Text
  pub headers : List (Text × Text)
  pub body : Text

-- What net/http makes of one call: the request cannot be built, the call fails, or the pod answers
-- with a status and the X-Vinyl-Purged header.
pub data Reply : Type 0 where
  build_error : Text → Reply
  call_error : Text → Reply
  answer : ℕ → Text → Reply

pub record PodResult : Type 0 where
  pub pod : Text
  pub host : Text
  pub status : ℕ
  pub error : Text
  -- `nil` is `none`: the count is not known.
  pub objects_purged : Option ℕ

pub data Status : Type 0 where
  ok partial failed : Status

pub record BroadcastResult : Type 0 where
  pub status : Status
  pub total : ℕ
  pub succeeded : ℕ
  pub objects_purged : Option ℕ
  pub warning : Text
  pub results : List PodResult

-- A count is a number that is not negative.
non_negative : Option ℤ → Option ℕ
non_negative (some (pos n)) = some n
non_negative _ = none

unfoldable pub parse_objects_purged : Text → Option ℕ
unfolding non_negative atoi
parse_objects_purged v = if text_eq v [] then none else non_negative (atoi v)

unfoldable pub pod_result : Text → Reply → PodResult
pod_result pod (build_error e) = record {
  pod = pod;
  host = [];
  status = 0;
  error = codes "build request: " ++ e;
  objects_purged = none;
}
pod_result pod (call_error e) = record {
  pod = pod;
  host = [];
  status = 0;
  error = e;
  objects_purged = none;
}
pod_result pod (answer status purged) = record {
  pod = pod;
  host = [];
  status = status;
  error = [];
  objects_purged = parse_objects_purged purged;
}

abbrev pub is_2xx : ℕ → Bool
is_2xx status = leb 200 status && ltb status 300

-- `r.Error == "" && r.Status >= 200 && r.Status < 300`
unfoldable pub is_success : PodResult → Bool
is_success r = text_eq r.error [] && is_2xx r.status

unfoldable pub status_string : ℕ → ℕ → Status
status_string total succeeded =
    if total == 0 || succeeded == total then ok else if succeeded == 0 then failed else partial

-- The loop of `aggregateObjectsPurged`.
unfoldable pub add_known : Option ℕ → Option ℕ → Option ℕ
add_known acc none = acc
add_known none (some n) = some n
add_known (some s) (some n) = some (s + n)

unfoldable pub aggregate_from : Option ℕ → List PodResult → Option ℕ
unfolding add_known
aggregate_from acc [] = acc
aggregate_from acc (r ∷ rs) = aggregate_from (add_known acc r.objects_purged) rs

unfoldable pub aggregate_objects_purged : List PodResult → Option ℕ
unfolding aggregate_from
aggregate_objects_purged = aggregate_from none

-- The result over the collected outcomes of `total` calls.
unfoldable pub summarise : ℕ → ℕ → List PodResult → BroadcastResult
unfolding status_string aggregate_objects_purged
summarise total succeeded results = record {
  status = status_string total succeeded;
  total = total;
  succeeded = succeeded;
  objects_purged = aggregate_objects_purged results;
  warning = [];
  results = results;
}

module _ (send : Text → BroadcastRequest → Reply) where
  unfoldable pub call_pods : BroadcastRequest → List Text → List PodResult
  unfolding pod_result
  call_pods req [] = []
  call_pods req (pod ∷ pods) = pod_result pod (send pod req) ∷ call_pods req pods

  unfoldable pub broadcast : List Text → BroadcastRequest → BroadcastResult
  unfolding call_pods summarise is_success
  broadcast pods req =
      let results = call_pods req pods in summarise (length pods) (count is_success results) results

-- `merged.Results` of one host: each pod result records it.
with_host : Text → List PodResult → List PodResult
with_host host [] = []
with_host host (r ∷ rs) = record r { host = host } ∷ with_host host rs

-- The loop of `mergeResults` (handler.go), over the hosts beside their results.
unfoldable pub merge_from : List (Text × BroadcastResult) → ℕ × ℕ × List PodResult
unfolding with_host
merge_from [] = (0, 0, [])
merge_from ((host, res) ∷ rest) =
    let (total, succeeded, results) = merge_from rest in
    (res.total + total, res.succeeded + succeeded, with_host host res.results ++ results)

unfoldable pub merge_results : List (Text × BroadcastResult) → BroadcastResult
unfolding merge_from summarise
merge_results ((host, res) ∷ []) = res
merge_results perHost =
    let (total, succeeded, results) = merge_from perHost in summarise total succeeded results

unfoldable pub http_status_code : BroadcastResult → ℕ
http_status_code r = elim r.status [ ok ↦ 200 | partial ↦ 207 | failed ↦ 503 ]
