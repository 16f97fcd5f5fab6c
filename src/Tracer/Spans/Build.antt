-- ===== src/Tracer/Spans/Build.antt =====
-- internal/tracer/spans/spans.go, `BuildWithOutcome`, `buildChildren` and `respEnd`.
use cloud_vinyl.Prelude.{
  ℕ, zero, pos, suc, ◌+◌, Bool, true, false, not, ◌&&◌, Option, none, some, List, [], ◌∷◌, ◌++◌,
  ◌==◌, if◌then◌else◌, Text, codes, text_eq, contains,
}
use cloud_vinyl.Tracer.Vsl.{
  Tx, Txs, tx, nil, cons, tx_type, vxid_of, records_of, children_of, first, header, timestamp,
}
use cloud_vinyl.Tracer.Traceparent.{Traceparent, parse_traceparent}
use cloud_vinyl.Tracer.Spans.{
  Attr, bool_attr, int_attr, server, client, Span, Outcome, spans, unsampled, unusable,
  request_name, fetch_name, type_request, type_bereq, count_restarts, request_attrs, fetch_attrs,
  minted, first_minted,
}

-- Start and end, if the group has both.
unfoldable pub period : Option ℕ → Option ℕ → Option (ℕ × ℕ)
period none e = none
period (some s) none = none
period (some s) (some e) = some (s, e)

abbrev pub is_esi : Option Text → Bool
is_esi none = false
is_esi (some b) = contains b (codes "esi")

-- Attributes of one fetch attempt, and its span id with the ids minted so far.
unfoldable pub retry_attrs : ℕ → List Attr
retry_attrs zero = []
retry_attrs (suc n) = int_attr (codes "varnish.retry") (pos (suc n)) ∷ []

unfoldable pub mismatch_attrs : ℕ → Option Traceparent → List Attr
mismatch_attrs trace none = []
mismatch_attrs trace (some tp) =
    if tp.trace_id == trace then [] else bool_attr (codes "varnish.minted_trace_mismatch") true ∷ []

-- What a child contributes itself: a fetch (with the retry depth of what lies below it), an ESI
-- subrequest, or nothing.
pub data ChildKind : Type 0 where
  fetch : ℕ → ℕ → ChildKind
  esi : ℕ → ℕ → ChildKind
  skip : ChildKind

kind_of_fetch : Option (ℕ × ℕ) → ChildKind
kind_of_fetch none = skip
kind_of_fetch (some (s, e)) = fetch s e

kind_of_esi : Option (ℕ × ℕ) → ChildKind
kind_of_esi none = skip
kind_of_esi (some (s, e)) = esi s e

restart_attrs : ℕ → List Attr
restart_attrs zero = []
restart_attrs (suc n) = int_attr (codes "varnish.restarts") (pos (suc n)) ∷ []

unfoldable pub incoming_of : Option Text → Option Traceparent
incoming_of none = none
incoming_of (some raw) = parse_traceparent raw

abbrev pub parent_of : Option Traceparent → ℕ
parent_of none = 0
parent_of (some tp) = tp.parent_id

abbrev pub is_unsampled : Option Traceparent → Bool
is_unsampled none = false
is_unsampled (some tp) = not tp.sampled

pub record Built : Type 0 where
  pub result : List Span
  pub outcome : Outcome
  -- The ids minted so far.
  pub minted_ids : ℕ

abbrev pub nothing : Outcome → ℕ → Built
nothing o n = record { result = []; outcome = o; minted_ids = n }

abbrev pub traced : List Span × ℕ → Built
traced (ss, n) = record { result = ss; outcome = spans; minted_ids = n }

module _ (parse_time : Text → Option ℕ) (ids : ℕ → ℕ) where
  -- The first of the labels that the group carries.
  first_time : Tx → List Text → Option ℕ
  first_time t [] = none
  first_time t (l ∷ ls) = elim (timestamp parse_time t l) [
    | some e ↦ some e
    | none ↦ first_time t ls
  ]

  unfoldable pub resp_end : Tx → Option ℕ
  unfolding first_time
  resp_end t = first_time t (codes "Resp" ∷ codes "Restart" ∷ codes "PipeSess" ∷ [])

  -- The end of a fetch.
  unfoldable pub fetch_end : Tx → Option ℕ
  unfolding first_time
  fetch_end t = first_time t (codes "BerespBody" ∷ codes "Beresp" ∷ [])

  unfoldable pub fetch_id : Option Traceparent → ℕ → ℕ × ℕ
  fetch_id (some tp) n = (tp.parent_id, n)
  fetch_id none n = (ids n, n + 1)

  unfoldable pub child_kind : Tx → ChildKind
  unfolding kind_of_fetch kind_of_esi period fetch_end resp_end
  child_kind t =
      if text_eq (tx_type t) type_bereq
      then kind_of_fetch (period (timestamp parse_time t (codes "Bereq")) (fetch_end t))
      else if text_eq (tx_type t) type_request && is_esi (first t (codes "Begin"))
      then kind_of_esi (period (timestamp parse_time t (codes "Start")) (resp_end t))
      else skip

  unfoldable pub build_children : ℕ → ℕ → ℕ → ℕ → ℕ → Txs → List Span × ℕ
  unfolding child_kind fetch_id
  build_children incoming trace parent depth n nil = ([], n)
  build_children incoming trace parent depth n (cons (tx type vxid records children) rest) =
      let child = tx type vxid records children in
      elim (child_kind child) [
        | skip ↦ build_children incoming trace parent depth n rest
        | fetch s e ↦
            let m = minted incoming child in
            let (span_id, n₁) = fetch_id m n in
            let (below, n₂) = build_children incoming trace span_id (suc depth) n₁ children in
            let (after, n₃) = build_children incoming trace parent depth n₂ rest in
            (
              record {
                trace_id = trace;
                span_id = span_id;
                parent_id = parent;
                name = fetch_name;
                kind = client;
                start = s;
                end = e;
                attrs = fetch_attrs child ++ (retry_attrs depth ++ mismatch_attrs trace m);
                links = [];
                vxid = vxid;
              }
                  ∷ (below ++ after),
              n₃,
            )
        | esi s e ↦
            let span_id = ids n in
            let (below, n₂) = build_children incoming trace span_id 0 (n + 1) children in
            let (after, n₃) = build_children incoming trace parent depth n₂ rest in
            (
              record {
                trace_id = trace;
                span_id = span_id;
                parent_id = parent;
                name = request_name;
                kind = server;
                start = s;
                end = e;
                attrs = request_attrs child ++ bool_attr (codes "varnish.esi") true ∷ [];
                links = [];
                vxid = vxid;
              }
                  ∷ (below ++ after),
              n₃,
            )
      ]

  -- The trace that the request joins: the incoming one, else one minted by the VCL, else its own.
  unfoldable pub trace_of : Option Traceparent → Option ℕ → ℕ → ℕ × ℕ
  trace_of (some tp) minted n = (tp.trace_id, n)
  trace_of none (some t) n = (t, n)
  trace_of none none n = (ids n, n + 1)

  -- The spans of a sampled request with its two timestamps.
  unfoldable pub build_request : Tx → Option Traceparent → ℕ → ℕ → ℕ → List Span × ℕ
  unfolding build_children trace_of restart_attrs
  build_request t incoming s e n =
      let parent = parent_of incoming in
      let (trace, n₁) = trace_of incoming (first_minted parent (children_of t)) n in
      let span_id = ids n₁ in
      let (below, n₂) = build_children parent trace span_id 0 (n₁ + 1) (children_of t) in
      (
        record {
          trace_id = trace;
          span_id = span_id;
          parent_id = parent;
          name = request_name;
          kind = server;
          start = s;
          end = e;
          attrs = request_attrs t ++ restart_attrs (count_restarts (records_of t));
          links = [];
          vxid = vxid_of t;
        }
            ∷ below,
        n₂,
      )

  build_sampled : Tx → ℕ → ℕ × ℕ → Built
  unfolding build_request incoming_of
  build_sampled t n (s, e) =
      let incoming = incoming_of (header t (codes "ReqHeader") (codes "traceparent")) in
      if is_unsampled incoming then nothing unsampled n else traced (build_request t incoming s e n)

  unfoldable pub build_with_outcome : Tx → ℕ → Built
  unfolding build_sampled period resp_end
  build_with_outcome t n =
      if text_eq (tx_type t) type_request
      then elim (period (timestamp parse_time t (codes "Start")) (resp_end t)) [
        | none ↦ nothing unusable n
        | some p ↦ build_sampled t n p
      ]
      else nothing spans n
