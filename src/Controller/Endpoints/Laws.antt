-- ===== src/Controller/Endpoints/Laws.antt =====
-- Which backends are reported as without endpoints.
use cloud_vinyl.Prelude.{
  ℕ, ◌≡◌, refl, sym, ap, ◌∙◌, Bool, true, false, not, ◌&&◌, ◌||◌, Option, none, some, List, [], ◌∷◌,
  ◌++◌, map, arith, ◌==◌, bind_some, keep, All, elem, Distinct, Text, text_dec, lookup, insert,
  lookup-insert_self, lookup-insert_ne,
}
use cloud_vinyl.Controller.Endpoints.{
  Endpoint, EndpointSlice, Backend, Address, endpoint_ready, pick_port, at_port, ready_addresses,
  slice_addresses, insert_address, sort_addresses, list_backend_endpoints, resolve_from,
  resolve_backend_endpoints, endpoints_of, or_empty, is_nil, backends_without_endpoints,
}

abbrev has_address : List Text → Bool
has_address [] = false
has_address (ip ∷ ips) = true

abbrev any_ready : List Endpoint → Bool
any_ready [] = false
any_ready (ep ∷ eps) = endpoint_ready ep && has_address ep.addresses || any_ready eps

-- Some slice has a port for the backend and a ready endpoint with an address.
abbrev pub any_slice : Backend → List EndpointSlice → Bool
any_slice b [] = false
any_slice b (s ∷ ss) = not (pick_port s.ports b == 0) && any_ready s.endpoints || any_slice b ss

abbrev pub is_served : Backend → Option (List EndpointSlice) → Bool
is_served b none = false
is_served b (some slices) = any_slice b slices

is_nil-append : (xs ys : List Address) → is_nil (xs ++ ys) ≡ (is_nil xs && is_nil ys)
is_nil-append [] ys = refl
is_nil-append (x ∷ xs) ys = refl

is_nil-at_port : (p : ℕ) (ips : List Text) → is_nil (at_port p ips) ≡ not (has_address ips)
is_nil-at_port p [] = refl
is_nil-at_port p (ip ∷ ips) = refl

is_nil-ready_addresses :
    (p : ℕ) (eps : List Endpoint) → is_nil (ready_addresses p eps) ≡ not (any_ready eps)
unfolding ready_addresses
is_nil-ready_addresses p [] = refl
is_nil-ready_addresses p (ep ∷ eps) = ground (
  arith,
  is_nil-append (at_port p ep.addresses) (ready_addresses p eps),
  is_nil-at_port p ep.addresses,
  is_nil-ready_addresses p eps,
)

is_nil-slice_addresses :
    (b : Backend) (ss : List EndpointSlice) → is_nil (slice_addresses b ss) ≡ not (any_slice b ss)
unfolding slice_addresses
is_nil-slice_addresses b [] = refl
is_nil-slice_addresses b (s ∷ ss) = ground (
  arith,
  is_nil-append (ready_addresses (pick_port s.ports b) s.endpoints) (slice_addresses b ss),
  is_nil-ready_addresses (pick_port s.ports b) s.endpoints,
  is_nil-slice_addresses b ss,
)

is_nil-insert_address : (a : Address) (xs : List Address) → is_nil (insert_address a xs) ≡ false
unfolding insert_address
is_nil-insert_address a [] = refl
is_nil-insert_address a (x ∷ xs) = ground arith

is_nil-sort_addresses : (xs : List Address) → is_nil (sort_addresses xs) ≡ is_nil xs
unfolding sort_addresses
is_nil-sort_addresses [] = refl
is_nil-sort_addresses (a ∷ xs) = is_nil-insert_address a (sort_addresses xs)

some_injective : {A : Type 0} {x y : A} → some x ≡ some y → x ≡ y
some_injective {x = x} e = ap (λ o. elim o [ none ↦ x | some z ↦ z ]) e

abbrev pub names : List Backend → List Text
names = map (λ b. b.name)

module _ (list_slices : Text → Option (List EndpointSlice)) where
  abbrev is_missing : Backend → Bool
  is_missing b = not (is_served b (list_slices b.service))

  listed-is_nil :
      (b : Backend) (eps : List Address)
      → list_backend_endpoints list_slices b ≡ some eps
      → is_nil eps ≡ is_missing b
  unfolding list_backend_endpoints
  listed-is_nil b eps h =
      let l =
        bind_some (list_slices b.service)
          (λ slices. some (sort_addresses (slice_addresses b slices))) eps h in
      rw (l.1) (
        ap is_nil (some_injective (sym l.2))
        ∙ is_nil-sort_addresses (slice_addresses b l.0)
        ∙ is_nil-slice_addresses b l.0)

  resolve_from-step :
      (out : List (Text × List Address)) (b : Backend) (bs : List Backend)
      (m : List (Text × List Address))
      → resolve_from list_slices out (b ∷ bs) ≡ some m
      → (eps : List Address) × (list_backend_endpoints list_slices b ≡ some eps)
        × (resolve_from list_slices (insert text_dec b.name eps out) bs ≡ some m)
  unfolding resolve_from
  resolve_from-step out b bs m h =
      bind_some (list_backend_endpoints list_slices b)
        (λ eps. resolve_from list_slices (insert text_dec b.name eps out) bs) m h

  resolve_from-lookup :
      (q : Text) (out : List (Text × List Address)) (bs : List Backend)
      (m : List (Text × List Address))
      → elem text_dec q (names bs) ≡ false
      → resolve_from list_slices out bs ≡ some m
      → lookup text_dec q m ≡ lookup text_dec q out
  unfolding resolve_from
  resolve_from-lookup q out [] m ne h = ground (arith, h)
  resolve_from-lookup q out (b ∷ bs) m ne h =
      let l = resolve_from-step out b bs m h in
      resolve_from-lookup q (insert text_dec b.name l.0 out) bs m (ground (arith, ne)) l.2
      ∙ lookup-insert_ne text_dec q b.name l.0 out (ground (arith, ne))

  resolve_from-All :
      (out : List (Text × List Address)) (bs : List Backend) (m : List (Text × List Address))
      → Distinct text_dec (names bs)
      → resolve_from list_slices out bs ≡ some m
      → All (λ b. is_nil (endpoints_of m b.name) ≡ is_missing b) bs
  unfolding resolve_from
  resolve_from-All out [] m d h = tt
  resolve_from-All out (b ∷ bs) m (fresh, d) h =
      let l = resolve_from-step out b bs m h in
      let stored =
        resolve_from-lookup b.name (insert text_dec b.name l.0 out) bs m fresh l.2
        ∙ lookup-insert_self text_dec b.name l.0 out in
      (
        ap (λ o. is_nil (or_empty o)) stored ∙ listed-is_nil b l.0 l.1,
        resolve_from-All (insert text_dec b.name l.0 out) bs m d l.2,
      )

  missing :
      (bs : List Backend) (m : List (Text × List Address))
      → All (λ b. is_nil (endpoints_of m b.name) ≡ is_missing b) bs
      → backends_without_endpoints bs m ≡ names (keep is_missing bs)
  unfolding backends_without_endpoints
  missing [] m h = refl
  missing (b ∷ bs) m (e, h) = ground (arith, e, missing bs m h)

  -- When the endpoints of backends with distinct names could be listed, the backends reported as
  -- without endpoints are, in their order, exactly those of whose Service no EndpointSlice has
  -- both a port for the backend and an endpoint that is ready and has an address.
  pub backends_without_endpoints_lem :
      (bs : List Backend) (m : List (Text × List Address))
      → Distinct text_dec (names bs)
      → resolve_backend_endpoints list_slices bs ≡ some m
      → backends_without_endpoints bs m
        ≡ names (keep (λ b. not (is_served b (list_slices b.service))) bs)
  unfolding resolve_backend_endpoints
  backends_without_endpoints_lem bs m d h = missing bs m (resolve_from-All [] bs m d h)
