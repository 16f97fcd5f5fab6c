-- ===== src/Webhook/Paths.antt =====
-- internal/webhook/vinylcache_validator.go: which mount paths collide with the operator's own.
pub mod Laws
use cloud_vinyl.Prelude.{
  ℕ, zero, suc, ◌+◌, ◌-◌, ◌*◌, ◌/◌, ◌%◌, ◌^◌, ◌≤◌, ◌<◌, ◌≡◌, refl, sym, ap, ◌∙◌, ◌≢◌, ◌↔◌, ◌⊎◌, inl,
  inr, ite, if_pos, if_neg, Bool, true, false, not, ◌&&◌, ◌||◌, Option, none, some, List, [], ◌∷◌,
  ◌++◌, map, append-nil, append_assoc, map-append, arith, ℕ_discrete, ltb, leb, ◌==◌, if◌then◌else◌,
  ltb→lt, leb→le, le→leb, Bool-cases, is_some, Option-cases, ◌>>=◌, length, length-append, keep,
  length-keep-le, count, count-append, keep-append, keep-length_split, All, All-append, elem,
  Distinct, elem-append, Distinct-snoc, Text, codes, text_dec, text_eq, has_prefix, contains,
  is_space, is_regexp_space, fields_by, fields, trim_left, trim_right, trim_space, is_digit,
  u64_mod, parse_uint, ℤ, i64_max, atoi, IsToken, fields_by-token, lookup, delete, insert,
  lookup-delete, lookup-insert, lookup-insert_self, lookup-insert_ne, next_digits, digits, printed,
  decimal,
}

abbrev pub reserved_mount_paths : List Text
reserved_mount_paths =
    codes "/run/vinyl"
    ∷ codes "/etc/varnish/secret"
    ∷ codes "/etc/varnish/default.vcl"
    ∷ codes "/var/lib/varnish"
    ∷ codes "/tmp"
    ∷ codes "/var/lib/vinyl-storage"
    ∷ []

abbrev pub slash : Text
slash = codes "/"

-- The loop of `pathIsReserved`.
unfoldable pub under_any : Text → List Text → Bool
under_any p [] = false
under_any p (r ∷ rs) = (text_eq p r || has_prefix p (r ++ slash)) || under_any p rs

unfoldable pub path_is_reserved : Text → Bool
unfolding under_any
path_is_reserved p = under_any p reserved_mount_paths

-- The loop of `pathConflictsWithReserved`.
unfoldable pub above_any : Text → List Text → Bool
above_any p [] = false
above_any p (r ∷ rs) = has_prefix r (p ++ slash) || above_any p rs

unfoldable pub path_conflicts_with_reserved : Text → Bool
unfolding path_is_reserved above_any
path_conflicts_with_reserved p =
    path_is_reserved p || text_eq p slash || above_any p reserved_mount_paths

-- A clean path, by its components.
abbrev pub path_of : List Text → Text
path_of [] = []
path_of (c ∷ cs) = b'/' ∷ (c ++ path_of cs)

abbrev pub reserved_components : List (List Text)
reserved_components =
    (codes "run" ∷ codes "vinyl" ∷ [])
    ∷ (codes "etc" ∷ codes "varnish" ∷ codes "secret" ∷ [])
    ∷ (codes "etc" ∷ codes "varnish" ∷ codes "default.vcl" ∷ [])
    ∷ (codes "var" ∷ codes "lib" ∷ codes "varnish" ∷ [])
    ∷ (codes "tmp" ∷ [])
    ∷ (codes "var" ∷ codes "lib" ∷ codes "vinyl-storage" ∷ [])
    ∷ []

-- The directory of the second components contains what the first ones name, or is it.
abbrev pub within : List Text → List Text → Bool
within xs [] = true
within [] (y ∷ ys) = false
within (x ∷ xs) (y ∷ ys) = text_eq x y && within xs ys

-- One of the two contains the other.
abbrev pub related_to_any : List Text → List (List Text) → Bool
related_to_any xs [] = false
related_to_any xs (r ∷ rs) = (within xs r || within r xs) || related_to_any xs rs

abbrev pub IsComponent : Text → Type 0
IsComponent c = (elem ℕ_discrete b'/' c ≡ false) × (text_eq c [] ≡ false)
