-- ===== src/Tracer/Spans.antt =====
-- internal/tracer/spans/spans.go: the spans of one transaction group.
-- `ids k` is the k-th id that the IDSource mints; a function that mints takes the number of ids
-- minted so far and returns the new one. The maps `mintedSpanIDs` and `mintedTraceIDs`, keyed by
-- node, are read only at the node itself, so they are the function `minted` of the node.
pub mod Build
use cloud_vinyl.Prelude.{
  ℕ, suc, Bool, true, false, ◌&&◌, Option, none, some, List, [], ◌∷◌, ◌++◌, ◌==◌, if◌then◌else◌,
  is_some, Text, codes, text_eq, contains, fields, ℤ, atoi,
}
use cloud_vinyl.Tracer.Vsl.{
  Record, Tx, Txs, tx, nil, cons, tx_type, records_of, first, has, last, header, has_tag,
}
use cloud_vinyl.Tracer.Traceparent.{Traceparent, parse_traceparent}

-- `attribute.KeyValue`
pub data Attr : Type 0 where
  bool_attr : Text → Bool → Attr
  string_attr : Text → Text → Attr
  int_attr : Text → ℤ → Attr

pub data SpanKind : Type 0 where
  server client : SpanKind

pub record Link : Type 0 where
  pub trace_id : ℕ
  pub span_id : ℕ
  pub attrs : List Attr

pub record Span : Type 0 where
  pub trace_id : ℕ
  pub span_id : ℕ
  pub parent_id : ℕ
  pub name : Text
  pub kind : SpanKind
  pub start : ℕ
  pub end : ℕ
  pub attrs : List Attr
  pub links : List Link
  pub vxid : ℕ

pub data Outcome : Type 0 where
  spans unsampled unusable : Outcome

abbrev pub request_name : Text
request_name = codes "varnish request"

abbrev pub fetch_name : Text
fetch_name = codes "varnish fetch"

abbrev pub type_request : Text
type_request = codes "Request"

abbrev pub type_bereq : Text
type_bereq = codes "BeReq"

abbrev pub restart_reason : Text
restart_reason = codes "restart"

-- `f[2] == "restart"` on "Link req <vxid> restart": the vxid field of such a payload.
unfoldable pub restart_link : List Text → Option Text
restart_link (f ∷ v ∷ r ∷ fs) =
    if text_eq f (codes "req") && text_eq r restart_reason then some v else none
restart_link fs = none

unfoldable pub count_restarts : List Record → ℕ
unfolding restart_link
count_restarts [] = 0
count_restarts (r ∷ rs) =
    if has_tag (codes "Link") r && is_some (restart_link (fields r.payload))
    then suc (count_restarts rs)
    else count_restarts rs

-- The `switch` of `handling`.
call_handling : Text → Option Text
call_handling p =
    if text_eq p (codes "HIT")
    then some (codes "hit")
    else if text_eq p (codes "PASS")
    then some (codes "pass")
    else if text_eq p (codes "SYNTH")
    then some (codes "synth")
    else if text_eq p (codes "MISS")
    then some (codes "miss")
    else if text_eq p (codes "PIPE")
    then some (codes "pipe")
    else none

handling_from : Bool → List Record → Text
unfolding call_handling
handling_from hit [] = if hit then codes "hit" else codes "miss"
handling_from hit (r ∷ rs) =
    elim (if has_tag (codes "VCL_call") r then call_handling r.payload else none) [
      | some h ↦ h
      | none ↦ handling_from hit rs
    ]

unfoldable pub handling : Tx → Text
unfolding handling_from has
handling t = handling_from (has t (codes "Hit")) (records_of t)

-- An attribute that is appended only if its value is there.
abbrev pub string_of : Text → Option Text → List Attr
string_of key none = []
string_of key (some v) = string_attr key v ∷ []

abbrev pub int_of : Text → Option ℤ → List Attr
int_of key none = []
int_of key (some n) = int_attr key n ∷ []

abbrev pub int_field : Option Text → Option ℤ
int_field none = none
int_field (some s) = atoi s

-- The last of exactly six fields of a ReqAcct record.
acct_bytes : Option Text → Option Text
acct_bytes none = none
acct_bytes (some a) = elim (fields a) [ f₀ ∷ f₁ ∷ f₂ ∷ f₃ ∷ f₄ ∷ f₅ ∷ [] ↦ some f₅ | other ↦ none ]

handling_flag : Text → List Attr
handling_flag h =
    if text_eq h (codes "synth")
    then bool_attr (codes "varnish.synthetic") true ∷ []
    else if text_eq h (codes "pipe")
    then bool_attr (codes "varnish.pipe") true ∷ []
    else []

unfoldable pub request_attrs : Tx → List Attr
unfolding handling handling_flag acct_bytes first last
request_attrs t =
    string_of (codes "http.request.method") (first t (codes "ReqMethod"))
    ++ (string_of (codes "url.path") (first t (codes "ReqURL"))
        ++ (int_of (codes "http.response.status_code") (int_field (last t (codes "RespStatus")))
            ++ (string_attr (codes "varnish.handling") (handling t)
                ∷ (handling_flag (handling t)
                    ++ int_of (codes "varnish.resp_bytes")
                        (int_field (acct_bytes (first t (codes "ReqAcct"))))))))

second_field : Option Text → Option Text
second_field none = none
second_field (some b) = elim (fields b) [ f₀ ∷ f₁ ∷ fs ↦ some f₁ | other ↦ none ]

is_bgfetch : Option Text → Bool
is_bgfetch none = false
is_bgfetch (some b) = contains b (codes "bgfetch")

unfoldable pub fetch_attrs : Tx → List Attr
unfolding second_field is_bgfetch first last
fetch_attrs t =
    string_of (codes "varnish.backend") (second_field (first t (codes "BackendOpen")))
    ++ (int_of (codes "http.response.status_code") (int_field (last t (codes "BerespStatus")))
        ++ (if is_bgfetch (first t (codes "Begin"))
            then bool_attr (codes "varnish.bgfetch") true ∷ []
            else []))

-- The id that the VCL minted onto a BeReq's own traceparent; one that equals the incoming parent
-- is a plain forward.
unfoldable pub minted_header : ℕ → Option Text → Option Traceparent
minted_header parent none = none
minted_header parent (some raw) = elim (parse_traceparent raw) [
  | none ↦ none
  | some tp ↦ if tp.parent_id == parent then none else some tp
]

unfoldable pub minted : ℕ → Tx → Option Traceparent
unfolding minted_header
minted parent t =
    if text_eq (tx_type t) type_bereq
    then minted_header parent (header t (codes "BereqHeader") (codes "traceparent"))
    else none

-- `mintedTraceID`: the first in depth-first order.
unfoldable pub first_minted : ℕ → Txs → Option ℕ
first_minted parent nil = none
first_minted parent (cons (tx type vxid records children) rest) =
    elim (minted parent (tx type vxid records children)) [
      | some tp ↦ some tp.trace_id
      | none ↦ elim (first_minted parent children) [
        | some t ↦ some t
        | none ↦ first_minted parent rest
      ]
    ]
