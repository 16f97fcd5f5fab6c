-- ===== src/Catalog/Versions.antt =====
-- The versions that a catalog lists are those that it resolves.
use cloud_vinyl.Prelude.{
  ◌≡◌, refl, sym, ◌∙◌, ◌≢◌, inl, inr, Bool, true, false, ◌||◌, List, [], ◌∷◌, arith, is_some,
  Option-cases, elem, Text, text_dec, text_eq, lookup,
}
use cloud_vinyl.Catalog.{
  Images, Catalog, flavor_varnish, Resolution, resolved, or_default, resolve_version, resolve_entry,
  resolve, insert_sorted, sort_strings, keys_of, versions_of_entry, versions,
}

elem-insert_sorted :
    (a x : Text) (xs : List Text)
    → elem text_dec a (insert_sorted x xs) ≡ (text_eq a x || elem text_dec a xs)
unfolding insert_sorted
elem-insert_sorted a x [] = ground arith
elem-insert_sorted a x (y ∷ ys) = ground (arith, elem-insert_sorted a x ys)

elem-sort_strings :
    (a : Text) (xs : List Text) → elem text_dec a (sort_strings xs) ≡ elem text_dec a xs
unfolding sort_strings
elem-sort_strings a [] = refl
elem-sort_strings a (x ∷ xs) =
    ground (arith, elem-insert_sorted a x (sort_strings xs), elem-sort_strings a xs)

lookup-keys_of :
    (a : Text) (m : List (Text × Images))
    → is_some (lookup text_dec a m) ≡ elem text_dec a (keys_of m)
unfolding lookup
lookup-keys_of a [] = refl
lookup-keys_of a ((v, img) ∷ m) = ground (arith, lookup-keys_of a m)

abbrev pub is_resolved : Resolution → Bool
is_resolved (resolved rt) = true
is_resolved _ = false

-- A version that is named resolves exactly if it is among the versions that the catalog lists for
-- the flavor.
resolve-versions :
    (c : Catalog) (flavor version : Text)
    → version ≢ []
    → is_resolved (resolve c flavor version) ≡ elem text_dec version (versions c flavor)
unfolding resolve resolve_entry resolve_version versions versions_of_entry or_default
resolve-versions c flavor version named =
    let f = or_default flavor_varnish flavor in
    elim (Option-cases (lookup text_dec f c.flavors)) [
      | inl missing ↦ ground (arith, missing)
      | inr (e, found) ↦
          let same =
            elem-sort_strings version (keys_of e.versions)
            ∙ sym (lookup-keys_of version e.versions) in
          elim (Option-cases (lookup text_dec version e.versions)) [
            | inl missing ↦ ground (arith, named, found, missing, same)
            | inr (img, listed) ↦ ground (arith, named, found, listed, same)
          ]
    ]
