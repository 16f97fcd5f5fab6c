-- ===== src/Catalog/Tests.antt =====
-- A catalog of one flavor.
use cloud_vinyl.Prelude.{
  ◌≡◌, refl, ◌⊎◌, Option, none, some, List, [], ◌∷◌, ℕ_discrete, if◌then◌else◌, Text, codes,
  text_dec, text_eq, is_space, lookup, insert,
}
use cloud_vinyl.Catalog.{
  Images, Runtime, FlavorEntry, Catalog, flavor_varnish, flavor_vinyl, parsed, parse,
  validate_entry, resolved, resolve, versions,
}
use cloud_vinyl.Catalog.Laws.{IsComplete, parse-resolve-IsComplete}

abbrev images : Images
images = record {
  daemon = codes "varnish:9.1";
  exporter = codes "exporter:1";
  tracer = codes "tracer:1";
}

abbrev varnish : FlavorEntry
varnish = record {
  default_version = codes "9.1";
  versions = (codes "9.1", images) ∷ (codes "9.0", images) ∷ [];
}

abbrev catalog : Catalog
catalog = record { flavors = (flavor_varnish, varnish) ∷ [] }

-- A decoder that knows one document.
unmarshal : Text → Option (List (Text × FlavorEntry))
unmarshal text = if text_eq text [] then none else some ((flavor_varnish, varnish) ∷ [])

abbrev document : Text
document = codes "varnish: ..."

document_parses : parse unmarshal document ≡ parsed catalog
unfolding parse unmarshal validate_entry text_dec ℕ_discrete lookup insert is_space
document_parses = refl

abbrev runtime : Runtime
runtime = record { flavor = flavor_varnish; version = codes "9.0"; images = images }

document_resolves : resolve catalog [] (codes "9.0") ≡ resolved runtime
unfolding resolve text_dec ℕ_discrete lookup
document_resolves = refl

sorted_versions : versions catalog [] ≡ codes "9.0" ∷ codes "9.1" ∷ []
unfolding versions text_dec ℕ_discrete lookup
sorted_versions = refl

default_is_listed : lookup text_dec flavor_varnish catalog.flavors ≡ some varnish
unfolding text_dec ℕ_discrete lookup
default_is_listed = refl

parse-resolve-IsComplete_example :
    IsComplete images × ((flavor_varnish ≡ flavor_varnish) ⊎ (flavor_varnish ≡ flavor_vinyl))
parse-resolve-IsComplete_example =
    parse-resolve-IsComplete unmarshal document catalog [] (codes "9.0") runtime document_parses
      document_resolves
