-- ===== src/Controller/Endpoints.antt =====
-- internal/controller/endpoints.go: the endpoints of the backends, from the EndpointSlices that the
-- API server lists for a Service, which are a parameter.
pub mod Laws
use cloud_vinyl.Prelude.{
  pos, negsuc, ℕ, zero, suc, ◌+◌, ◌-◌, ◌*◌, ◌/◌, ◌%◌, ◌^◌, ◌≤◌, ◌<◌, ◌≡◌, refl, sym, ap, ◌∙◌, ◌≢◌,
  ◌↔◌, ◌⊎◌, inl, inr, ite, if_pos, if_neg, Bool, true, false, not, ◌&&◌, ◌||◌, Option, none, some,
  List, [], ◌∷◌, ◌++◌, map, append-nil, append_assoc, map-append, arith, ℕ_discrete, ltb, leb, ◌==◌,
  if◌then◌else◌, ltb→lt, leb→le, le→leb, Bool-cases, is_some, Option-cases, ◌>>=◌, bind_some,
  if_both, length, length-append, keep, length-keep-le, count, count-append, keep-append,
  keep-length_split, All, All-append, elem, Distinct, elem-append, Distinct-snoc, Text, codes,
  text_dec, text_eq, text_eq_refl, text_eq→≡, has_prefix, contains, is_space, is_regexp_space,
  fields_by, fields, trim_left, trim_right, trim_space, is_digit, u64_mod, digits_value, parse_uint,
  ℤ, i64_max, positive_int, atoi, IsToken, fields_by-token, lookup, delete, insert, lookup-delete,
  lookup-insert, lookup-insert_self, lookup-insert_ne, next_digits, digits, printed, decimal,
  IsDigits, decimal-IsDigits, decimal-ne-nil, parse_uint-decimal, atoi-decimal,
}
use cloud_vinyl.Catalog.{text_ltb}

pub record Endpoint : Type 0 where
  pub addresses : List Text
  pub terminating : Option Bool
  pub ready : Option Bool

pub record EndpointSlice : Type 0 where
  -- `none` for a port without a number.
  pub ports : List (Option ℕ)
  pub endpoints : List Endpoint

-- `port` 0 for a port that is not set.
pub record Backend : Type 0 where
  pub name : Text
  pub service : Text
  pub port : ℕ

pub record Address : Type 0 where
  pub ip : Text
  pub port : ℕ

unfoldable pub endpoint_ready : Endpoint → Bool
endpoint_ready ep =
    if elim ep.terminating [ none ↦ false | some t ↦ t ]
    then false
    else elim ep.ready [ none ↦ true | some r ↦ r ]

unfoldable pub first_port : List (Option ℕ) → ℕ
first_port [] = 0
first_port (some p ∷ ports) = p
first_port (none ∷ ports) = first_port ports

unfoldable pub pick_port : List (Option ℕ) → Backend → ℕ
unfolding first_port
pick_port ports b = if ltb 0 b.port then b.port else first_port ports

abbrev at_port : ℕ → List Text → List Address
at_port p = map (λ ip. record { ip = ip; port = p })

unfoldable pub ready_addresses : ℕ → List Endpoint → List Address
unfolding endpoint_ready
ready_addresses p [] = []
ready_addresses p (ep ∷ eps) =
    let rest = ready_addresses p eps in
    if endpoint_ready ep then at_port p ep.addresses ++ rest else rest

unfoldable pub slice_addresses : Backend → List EndpointSlice → List Address
unfolding pick_port ready_addresses
slice_addresses b [] = []
slice_addresses b (s ∷ ss) =
    let rest = slice_addresses b ss in
    let p = pick_port s.ports b in if p == 0 then rest else ready_addresses p s.endpoints ++ rest

-- `sort.Slice` by address; what it does with equal addresses is left to it, and here they keep
-- their order.
unfoldable pub insert_address : Address → List Address → List Address
unfolding text_ltb
insert_address a [] = a ∷ []
insert_address a (x ∷ xs) =
    let rest = insert_address a xs in if text_ltb x.ip a.ip then x ∷ rest else a ∷ x ∷ xs

unfoldable pub sort_addresses : List Address → List Address
unfolding insert_address
sort_addresses [] = []
sort_addresses (a ∷ xs) = insert_address a (sort_addresses xs)

-- The slices of a Service, `none` for an error of the API server.
module _ (list_slices : Text → Option (List EndpointSlice)) where
  unfoldable pub list_backend_endpoints : Backend → Option (List Address)
  unfolding slice_addresses sort_addresses
  list_backend_endpoints b =
      list_slices b.service >>= λ slices. some (sort_addresses (slice_addresses b slices))

  unfoldable pub resolve_from :
      List (Text × List Address) → List Backend → Option (List (Text × List Address))
  unfolding list_backend_endpoints
  resolve_from out [] = some out
  resolve_from out (b ∷ bs) =
      list_backend_endpoints b >>= λ eps. resolve_from (insert text_dec b.name eps out) bs

  unfoldable pub resolve_backend_endpoints : List Backend → Option (List (Text × List Address))
  unfolding resolve_from
  resolve_backend_endpoints bs = resolve_from [] bs

abbrev pub or_empty : Option (List Address) → List Address
or_empty none = []
or_empty (some eps) = eps

-- A missing key reads as no endpoint.
abbrev pub endpoints_of : List (Text × List Address) → Text → List Address
endpoints_of m name = or_empty (lookup text_dec name m)

abbrev is_nil : List Address → Bool
is_nil [] = true
is_nil (a ∷ xs) = false

unfoldable pub backends_without_endpoints : List Backend → List (Text × List Address) → List Text
backends_without_endpoints [] m = []
backends_without_endpoints (b ∷ bs) m =
    let rest = backends_without_endpoints bs m in
    if is_nil (endpoints_of m b.name) then b.name ∷ rest else rest
