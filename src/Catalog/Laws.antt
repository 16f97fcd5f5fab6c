-- ===== src/Catalog/Laws.antt =====
-- What a catalog that parses promises to its users.
use cloud_vinyl.Prelude.{
  ◌≡◌, refl, sym, ap, ◌∙◌, ◌≢◌, ◌⊎◌, inl, inr, true, false, ◌||◌, Option, none, some, List, [], ◌∷◌,
  arith, Bool-cases, is_some, Option-cases, Text, codes, text_dec, text_eq, lookup, insert,
  lookup-insert,
}
use mathlib.Core.Path.{subst}
use cloud_vinyl.Catalog.{
  Images, Runtime, FlavorEntry, Catalog, flavor_varnish, flavor_vinyl, EntryError, Parsed, parsed,
  any_space, check_image, check_images, check_versions, or_error, validate_entry, add_flavors,
  parse_raw, parse, Resolution, resolved, or_default, resolve_version, resolve_entry, resolve,
}

-- A reference that can be pulled: neither empty nor with white space.
abbrev pub IsReference : Text → Type 0
IsReference t = (text_eq t [] ≡ false) × (any_space t ≡ false)

pub record IsComplete (img : Images) : Type 0 where
  pub daemon : IsReference img.daemon
  pub exporter : IsReference img.exporter
  pub tracer : IsReference img.tracer

or_error-none : (a b : Option EntryError) → or_error a b ≡ none → (a ≡ none) × (b ≡ none)
unfolding or_error
or_error-none none b h = (refl, h)
or_error-none (some a) b h = absurd (ground (arith, h))

check_image-IsReference :
    (version name value : Text) → check_image version name value ≡ none → IsReference value
unfolding check_image
check_image-IsReference version name value h = ground (arith, h)

check_images-IsComplete :
    (version : Text) (img : Images) → check_images version img ≡ none → IsComplete img
unfolding check_images
check_images-IsComplete version img h =
    let d = check_image version (codes "daemon") img.daemon in
    let e = check_image version (codes "exporter") img.exporter in
    let t = check_image version (codes "tracer") img.tracer in
    let (dh, rest) = or_error-none d (or_error e t) h in
    let (eh, th) = or_error-none e t rest in
    record {
      daemon = check_image-IsReference version (codes "daemon") img.daemon dh;
      exporter = check_image-IsReference version (codes "exporter") img.exporter eh;
      tracer = check_image-IsReference version (codes "tracer") img.tracer th;
    }

-- A version that is listed has complete images.
abbrev Lists : List (Text × Images) → Type 0
Lists m = (v : Text) (img : Images) → lookup text_dec v m ≡ some img → IsComplete img

check_versions-Lists : (m : List (Text × Images)) → check_versions m ≡ none → Lists m
unfolding check_versions lookup
check_versions-Lists [] h v img e = absurd (ground (arith, e))
check_versions-Lists ((w, i) ∷ m) h v img e =
    let (a, b) = or_error-none (check_images w i) (check_versions m) h in
    elim (text_dec v w) [
      | yes q ↦
          let same : i ≡ img = ground (arith, e, q) in
          subst IsComplete same (check_images-IsComplete w i a)
      | no q ↦ check_versions-Lists m b v img (ground (arith, e))
    ]

-- What holds of every flavor of a catalog that parsed.
pub record IsSound (flavor : Text) (e : FlavorEntry) : Type 0 where
  pub known : (flavor ≡ flavor_varnish) ⊎ (flavor ≡ flavor_vinyl)
  pub default_set : e.default_version ≢ []
  pub default_listed : is_some (lookup text_dec e.default_version e.versions) ≡ true
  pub complete : Lists e.versions

validate_entry-IsSound :
    (flavor : Text) (e : FlavorEntry)
    → (flavor ≡ flavor_varnish) ⊎ (flavor ≡ flavor_vinyl)
    → validate_entry e ≡ none
    → IsSound flavor e
unfolding validate_entry
validate_entry-IsSound flavor e k h = record {
  known = k;
  default_set = λ q. ground (arith, h, q);
  default_listed = ground (arith, h);
  complete = check_versions-Lists e.versions (ground (arith, h));
}

abbrev pub AllSound : List (Text × FlavorEntry) → Type 0
AllSound m = (f : Text) (e : FlavorEntry) → lookup text_dec f m ≡ some e → IsSound f e

known_flavor :
    (key : Text)
    → (text_eq key flavor_varnish || text_eq key flavor_vinyl) ≡ true
    → (key ≡ flavor_varnish) ⊎ (key ≡ flavor_vinyl)
known_flavor key h = elim (text_dec key flavor_varnish) [
  | yes e ↦ inl e
  | no n ↦ inr (ground (arith, h, n))
]

insert-AllSound :
    (key : Text) (entry : FlavorEntry) (m : List (Text × FlavorEntry))
    → IsSound key entry
    → AllSound m
    → AllSound (insert text_dec key entry m)
insert-AllSound key entry m sound all f e h = elim (text_dec f key) [
  | yes q ↦
      let same : entry ≡ e = ground (arith, h, q, lookup-insert text_dec f key entry m) in
      subst (λ x. IsSound f x) same (subst (λ k. IsSound k entry) (sym q) sound)
  | no q ↦ all f e (ground (arith, h, q, lookup-insert text_dec f key entry m))
]

abbrev flavors_of : Parsed → List (Text × FlavorEntry)
flavors_of (parsed d) = d.flavors
flavors_of _ = []

add_flavors-AllSound :
    (built raw : List (Text × FlavorEntry)) (c : Catalog)
    → AllSound built
    → add_flavors built raw ≡ parsed c
    → AllSound c.flavors
unfolding add_flavors
add_flavors-AllSound built [] c all h =
    let same : built ≡ c.flavors = ap flavors_of h in subst AllSound same all
add_flavors-AllSound built ((key, entry) ∷ raw) c all h =
    elim (Bool-cases (text_eq key flavor_varnish || text_eq key flavor_vinyl)) [
      | inr unknown ↦ absurd (ground (arith, h, unknown))
      | inl known ↦ elim (Option-cases (validate_entry entry)) [
        | inr (why, bad) ↦ absurd (ground (arith, h, known, bad))
        | inl ok ↦
            let sound = validate_entry-IsSound key entry (known_flavor key known) ok in
            add_flavors-AllSound (insert text_dec key entry built) raw c
              (insert-AllSound key entry built sound all) (ground (arith, h, known, ok))
      ]
    ]

parse-AllSound :
    (unmarshal : Text → Option (List (Text × FlavorEntry))) (text : Text) (c : Catalog)
    → parse unmarshal text ≡ parsed c
    → AllSound c.flavors
unfolding parse parse_raw lookup
parse-AllSound unmarshal text c h = go (unmarshal text) h
  where
    go : (raw : Option (List (Text × FlavorEntry))) → parse_raw raw ≡ parsed c → AllSound c.flavors
    go none h = absurd (ground (arith, h))
    go (some []) h = absurd (ground (arith, h))
    go (some (x ∷ raw)) h =
        add_flavors-AllSound [] (x ∷ raw) c (λ f e q. absurd (ground (arith, q))) h

flavor_not_empty : (f : Text) → (f ≡ flavor_varnish) ⊎ (f ≡ flavor_vinyl) → f ≢ []
flavor_not_empty f (inl e) = λ q. ground (arith, e, q)
flavor_not_empty f (inr e) = λ q. ground (arith, e, q)

-- In a catalog that parsed every flavor resolves without a version, to its default version.
parse-resolve_default :
    (unmarshal : Text → Option (List (Text × FlavorEntry))) (text : Text) (c : Catalog) (f : Text)
    (e : FlavorEntry)
    → parse unmarshal text ≡ parsed c
    → lookup text_dec f c.flavors ≡ some e
    → (img : Images) × (resolve c f []
        ≡ resolved (record { flavor = f; version = e.default_version; images = img }))
unfolding resolve resolve_entry resolve_version or_default
parse-resolve_default unmarshal text c f e h found =
    let sound = parse-AllSound unmarshal text c h f e found in
    let not_empty : f ≢ [] = flavor_not_empty f sound.known in
    elim (Option-cases (lookup text_dec e.default_version e.versions)) [
      | inl missing ↦ absurd (ground (arith, missing, sound.default_listed))
      | inr (img, listed) ↦ (img, ground (arith, not_empty, found, listed))
    ]

abbrev runtime_or : Runtime → Resolution → Runtime
runtime_or d (resolved rt) = rt
runtime_or d _ = d

resolved_injective : {a b : Runtime} → resolved a ≡ resolved b → a ≡ b
resolved_injective {a} {b} h = ap (runtime_or a) h

resolve-found :
    (c : Catalog) (flavor version f v : Text) (e : FlavorEntry) (img : Images)
    → or_default flavor_varnish flavor ≡ f
    → or_default e.default_version version ≡ v
    → lookup text_dec f c.flavors ≡ some e
    → lookup text_dec v e.versions ≡ some img
    → resolve c flavor version ≡ resolved (record { flavor = f; version = v; images = img })
unfolding resolve resolve_entry resolve_version
resolve-found c flavor version f v e img ef ev found listed =
    rw (ef, found, ev, listed, resolve) refl

-- Whatever a catalog that parsed resolves to is of a known flavor and has three images whose
-- references are neither empty nor with white space.
pub parse-resolve-IsComplete :
    (unmarshal : Text → Option (List (Text × FlavorEntry))) (text : Text) (c : Catalog)
    (flavor version : Text) (rt : Runtime)
    → parse unmarshal text ≡ parsed c
    → resolve c flavor version ≡ resolved rt
    → IsComplete rt.images × ((rt.flavor ≡ flavor_varnish) ⊎ (rt.flavor ≡ flavor_vinyl))
unfolding resolve resolve_entry resolve_version or_default
parse-resolve-IsComplete unmarshal text c flavor version rt h r =
    let f = or_default flavor_varnish flavor in
    elim (Option-cases (lookup text_dec f c.flavors)) [
      | inl missing ↦ absurd (ground (arith, missing, r))
      | inr (e, found) ↦
          let sound = parse-AllSound unmarshal text c h f e found in
          let v = or_default e.default_version version in
          elim (Option-cases (lookup text_dec v e.versions)) [
            | inl missing ↦ absurd (ground (arith, missing, found, r))
            | inr (img, listed) ↦
                let same : record { flavor = f; version = v; images = img } ≡ rt =
                  resolved_injective
                    (sym (resolve-found c flavor version f v e img refl refl found listed) ∙ r) in
                subst
                  (λ x.
                    IsComplete x.images × ((x.flavor ≡ flavor_varnish) ⊎ (x.flavor ≡ flavor_vinyl)))
                  same (sound.complete v img listed, sound.known)
          ]
    ]
