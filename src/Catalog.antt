-- ===== src/Catalog.antt =====
-- internal/catalog/catalog.go: the catalog of runtime images. Package yaml is a parameter; a map is
-- an association list in the order in which `range` happens to visit it. White space is ASCII.
pub mod Laws
pub mod Versions
pub mod Tests
use cloud_vinyl.Prelude.{
  ℕ, zero, suc, ◌+◌, ◌-◌, ◌*◌, ◌/◌, ◌%◌, ◌^◌, ◌≤◌, ◌<◌, ◌≡◌, refl, sym, ap, ◌∙◌, ◌≢◌, ◌↔◌, ◌⊎◌, inl,
  inr, ite, if_pos, if_neg, Bool, true, false, not, ◌&&◌, ◌||◌, Option, none, some, List, [], ◌∷◌,
  ◌++◌, map, append-nil, append_assoc, map-append, arith, ℕ_discrete, ltb, leb, ◌==◌, if◌then◌else◌,
  ltb→lt, leb→le, le→leb, Bool-cases, is_some, Option-cases, ◌>>=◌, length, length-append, keep,
  length-keep-le, count, count-append, keep-append, keep-length_split, All, All-append, elem,
  Distinct, elem-append, Distinct-snoc, Text, codes, text_dec, text_eq, has_prefix, contains,
  is_space, is_regexp_space, fields_by, fields, trim_left, trim_right, trim_space, is_digit,
  u64_mod, parse_uint, ℤ, i64_max, atoi, IsToken, fields_by-token, lookup, delete, insert,
  lookup-delete, lookup-insert, lookup-insert_self, lookup-insert_ne, next_digits, digits, printed,
  decimal,
}

pub record Images : Type 0 where
  pub daemon : Text
  pub exporter : Text
  pub tracer : Text

pub record Runtime : Type 0 where
  pub flavor : Text
  pub version : Text
  pub images : Images

pub record FlavorEntry : Type 0 where
  pub default_version : Text
  pub versions : List (Text × Images)

pub record Catalog : Type 0 where
  pub flavors : List (Text × FlavorEntry)

abbrev pub flavor_varnish : Text
flavor_varnish = codes "varnish"

abbrev pub flavor_vinyl : Text
flavor_vinyl = codes "vinyl"

-- Why an entry is refused: the flavor's name is known to the caller.
pub data EntryError : Type 0 where
  no_versions no_default default_not_listed : EntryError
  -- The version and the name of the image.
  image_empty image_with_space : Text → Text → EntryError

pub data Parsed : Type 0 where
  parsed : Catalog → Parsed
  not_yaml empty_catalog : Parsed
  unknown_flavor : Text → Parsed
  bad_entry : Text → EntryError → Parsed

unfoldable pub any_space : Text → Bool
any_space [] = false
any_space (c ∷ s) = is_space c || any_space s

-- The checks of one image.
unfoldable pub check_image : Text → Text → Text → Option EntryError
unfolding any_space
check_image version name value =
    if text_eq value []
    then some (image_empty version name)
    else if any_space value
    then some (image_with_space version name)
    else none

-- The first of two errors.
unfoldable pub or_error : Option EntryError → Option EntryError → Option EntryError
or_error none e = e
or_error (some a) e = some a

unfoldable pub check_images : Text → Images → Option EntryError
unfolding check_image or_error
check_images version img = or_error (check_image version (codes "daemon") img.daemon) (
    or_error (check_image version (codes "exporter") img.exporter)
      (check_image version (codes "tracer") img.tracer))

unfoldable pub check_versions : List (Text × Images) → Option EntryError
unfolding check_images or_error
check_versions [] = none
check_versions ((version, img) ∷ rest) = or_error (check_images version img) (check_versions rest)

-- `validateEntry`; `nil` is `none`.
unfoldable pub validate_entry : FlavorEntry → Option EntryError
unfolding check_versions
validate_entry e =
    if length e.versions == 0
    then some no_versions
    else if text_eq e.default_version []
    then some no_default
    else if is_some (lookup text_dec e.default_version e.versions)
    then check_versions e.versions
    else some default_not_listed

-- The loop of `Parse` over the flavors, with the catalog built so far.
unfoldable pub add_flavors : List (Text × FlavorEntry) → List (Text × FlavorEntry) → Parsed
unfolding validate_entry
add_flavors built [] = parsed (record { flavors = built })
add_flavors built ((key, entry) ∷ rest) =
    let more = add_flavors (insert text_dec key entry built) rest in
    if text_eq key flavor_varnish || text_eq key flavor_vinyl
    then elim (validate_entry entry) [ some e ↦ bad_entry key e | none ↦ more ]
    else unknown_flavor key

unfoldable pub parse_raw : Option (List (Text × FlavorEntry)) → Parsed
unfolding add_flavors
parse_raw none = not_yaml
parse_raw (some []) = empty_catalog
parse_raw (some (x ∷ raw)) = add_flavors [] (x ∷ raw)

-- `Parse`; `unmarshal` is `yaml.UnmarshalStrict` into the raw map.
unfoldable pub parse : (Text → Option (List (Text × FlavorEntry))) → Text → Parsed
unfolding parse_raw
parse unmarshal text = parse_raw (unmarshal text)

pub data Resolution : Type 0 where
  resolved : Runtime → Resolution
  -- Both are `ErrNotInCatalog`.
  no_such_flavor no_such_version : Text → Resolution

unfoldable pub or_default : Text → Text → Text
or_default default_ t = if text_eq t [] then default_ else t

unfoldable pub resolve_version : Text → Text → Option Images → Resolution
resolve_version flavor version none = no_such_version version
resolve_version flavor version (some img) =
    resolved (record { flavor = flavor; version = version; images = img })

unfoldable pub resolve_entry : Text → Text → Option FlavorEntry → Resolution
unfolding or_default resolve_version
resolve_entry flavor version none = no_such_flavor flavor
resolve_entry flavor version (some e) =
    let v = or_default e.default_version version in
    resolve_version flavor v (lookup text_dec v e.versions)

unfoldable pub resolve : Catalog → Text → Text → Resolution
unfolding or_default resolve_entry
resolve c flavor version =
    let f = or_default flavor_varnish flavor in
    resolve_entry f version (lookup text_dec f c.flavors)

-- `a < b` on Go strings.
unfoldable pub text_ltb : Text → Text → Bool
text_ltb a [] = false
text_ltb [] (c ∷ s) = true
text_ltb (a ∷ s) (c ∷ t) = if a == c then text_ltb s t else ltb a c

unfoldable pub insert_sorted : Text → List Text → List Text
unfolding text_ltb
insert_sorted a [] = a ∷ []
insert_sorted a (x ∷ xs) = if text_ltb x a then x ∷ insert_sorted a xs else a ∷ x ∷ xs

-- `sort.Strings`
unfoldable pub sort_strings : List Text → List Text
unfolding insert_sorted
sort_strings [] = []
sort_strings (x ∷ xs) = insert_sorted x (sort_strings xs)

abbrev pub keys_of : List (Text × Images) → List Text
keys_of [] = []
keys_of ((v, img) ∷ m) = v ∷ keys_of m

unfoldable pub versions_of_entry : Option FlavorEntry → List Text
unfolding sort_strings
versions_of_entry none = []
versions_of_entry (some e) = sort_strings (keys_of e.versions)

unfoldable pub versions : Catalog → Text → List Text
unfolding or_default versions_of_entry
versions c flavor = versions_of_entry (lookup text_dec (or_default flavor_varnish flavor) c.flavors)
