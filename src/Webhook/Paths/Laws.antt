-- ===== src/Webhook/Paths/Laws.antt =====
-- Text prefixes of clean paths are prefixes of their components.
use mathlib.Core.Path.{ap₂}
use cloud_vinyl.Prelude.{
  ◌≡◌, refl, sym, ap, ◌∙◌, Bool, true, false, ◌&&◌, ◌||◌, List, [], ◌∷◌, ◌++◌, map, append_assoc,
  arith, ℕ_discrete, All, elem, Text, text_dec, text_eq, has_prefix,
}
use cloud_vinyl.Webhook.Paths.{
  reserved_mount_paths, slash, under_any, path_is_reserved, above_any, path_conflicts_with_reserved,
  path_of, reserved_components, within, related_to_any, IsComponent,
}

-- The path with a slash behind it.
slashed : List Text → Text
slashed [] = slash
slashed (x ∷ xs) = b'/' ∷ (x ++ slashed xs)

slashed-path_of : (xs : List Text) → path_of xs ++ slash ≡ slashed xs
unfolding slashed
slashed-path_of [] = refl
slashed-path_of (x ∷ xs) =
    ap (λ s. b'/' ∷ s) (append_assoc x (path_of xs) slash ∙ ap (λ s. x ++ s) (slashed-path_of xs))

-- Two components in front of slashes.
has_prefix-component :
    (x y s t : Text)
    → elem ℕ_discrete b'/' x ≡ false
    → elem ℕ_discrete b'/' y ≡ false
    → has_prefix (x ++ (b'/' ∷ s)) (y ++ (b'/' ∷ t)) ≡ (text_eq x y && has_prefix s t)
unfolding has_prefix
has_prefix-component [] [] s t hx hy = ground arith
has_prefix-component [] (b ∷ y) s t hx hy = ground (arith, hy)
has_prefix-component (a ∷ x) [] s t hx hy = ground (arith, hx)
has_prefix-component (a ∷ x) (b ∷ y) s t hx hy =
    ground (arith, hx, hy, has_prefix-component x y s t)

-- What stands behind the first slash.
unslashed : List Text → Text
unfolding slashed
unslashed [] = []
unslashed (x ∷ xs) = x ++ slashed xs

slashed-unslashed : (xs : List Text) → slashed xs ≡ b'/' ∷ unslashed xs
unfolding slashed unslashed
slashed-unslashed [] = refl
slashed-unslashed (x ∷ xs) = refl

has_prefix-slashed :
    (xs ys : List Text)
    → All IsComponent xs
    → All IsComponent ys
    → has_prefix (slashed xs) (slashed ys) ≡ within xs ys
unfolding slashed has_prefix
has_prefix-slashed [] [] hx hy = refl
has_prefix-slashed [] ([] ∷ ys) hx ((_, ne), hy) = absurd (ground (arith, ne))
has_prefix-slashed [] ((b ∷ y) ∷ ys) hx hy = refl
has_prefix-slashed (x ∷ xs) [] hx hy = refl
has_prefix-slashed (x ∷ xs) (y ∷ ys) ((nx, _), hx) ((ny, _), hy) =
    let ih : has_prefix (b'/' ∷ unslashed xs) (b'/' ∷ unslashed ys) ≡ within xs ys =
      ap₂ (λ s t. has_prefix s t) (sym (slashed-unslashed xs)) (sym (slashed-unslashed ys))
      ∙ has_prefix-slashed xs ys hx hy in
    ap₂ (λ s t. has_prefix (x ++ s) (y ++ t)) (slashed-unslashed xs) (slashed-unslashed ys)
    ∙ has_prefix-component x y (unslashed xs) (unslashed ys) nx ny
    ∙ ap (λ q. text_eq x y && q) ih

-- A prefix behind which a slash stands in both is the whole text or has the slash itself.
has_prefix-ended :
    (p q : Text) → has_prefix (p ++ slash) (q ++ slash) ≡ (text_eq p q || has_prefix p (q ++ slash))
unfolding has_prefix
has_prefix-ended [] [] = ground arith
has_prefix-ended [] (b ∷ []) = ground arith
has_prefix-ended [] (b ∷ c ∷ q) = ground arith
has_prefix-ended (a ∷ p) [] = ground arith
has_prefix-ended (a ∷ p) (b ∷ q) = ground (arith, has_prefix-ended p q)

module _ (xs : List Text) (hx : All IsComponent xs) where
  -- One reserved path: equal to it or below it, or above it.
  below :
      (ys : List Text)
      → All IsComponent ys
      → (text_eq (path_of xs) (path_of ys) || has_prefix (path_of xs) (path_of ys ++ slash))
        ≡ within xs ys
  below ys hy =
      sym (has_prefix-ended (path_of xs) (path_of ys))
      ∙ ap₂ (λ s t. has_prefix s t) (slashed-path_of xs) (slashed-path_of ys)
      ∙ has_prefix-slashed xs ys hx hy

  above :
      (ys : List Text)
      → All IsComponent ys
      → (text_eq (path_of ys) (path_of xs) || has_prefix (path_of ys) (path_of xs ++ slash))
        ≡ within ys xs
  above ys hy =
      sym (has_prefix-ended (path_of ys) (path_of xs))
      ∙ ap₂ (λ s t. has_prefix s t) (slashed-path_of ys) (slashed-path_of xs)
      ∙ has_prefix-slashed ys xs hy hx

  related :
      (rs : List (List Text))
      → All (All IsComponent) rs
      → (under_any (path_of xs) (map path_of rs) || above_any (path_of xs) (map path_of rs))
        ≡ related_to_any xs rs
  unfolding under_any above_any
  related [] h = refl
  related (r ∷ rs) (h, hs) = ground (arith, below r h, above r h, related rs hs)

reserved-All : All (All IsComponent) reserved_components
unfolding text_dec ℕ_discrete
reserved-All = (
  ((refl, refl), ((refl, refl), tt)),
  (
    ((refl, refl), ((refl, refl), ((refl, refl), tt))),
    (
      ((refl, refl), ((refl, refl), ((refl, refl), tt))),
      (
        ((refl, refl), ((refl, refl), ((refl, refl), tt))),
        (((refl, refl), tt), (((refl, refl), ((refl, refl), ((refl, refl), tt))), tt)),
      ),
    ),
  ),
)

not_root : (c : Text) (cs : List Text) → IsComponent c → text_eq (path_of (c ∷ cs)) slash ≡ false
not_root [] cs (_, ne) = absurd (ground (arith, ne))
not_root (b ∷ c) cs h = ground arith

skip_middle : (a b c : Bool) → b ≡ false → (a || b || c) ≡ (a || c)
skip_middle true b c h = refl
skip_middle false b c h = ground (arith, h)

-- A mount path that is written cleanly (components that are not empty, no slash at the end, not
-- the root) is refused exactly if it is, contains, or lies below one of the operator's paths.
pub path_conflicts_with_reserved-related :
    (c : Text) (cs : List Text)
    → IsComponent c
    → All IsComponent cs
    → path_conflicts_with_reserved (path_of (c ∷ cs)) ≡ related_to_any (c ∷ cs) reserved_components
unfolding path_conflicts_with_reserved path_is_reserved
path_conflicts_with_reserved-related c cs hc hcs =
    let r = related (c ∷ cs) (hc, hcs) reserved_components reserved-All in
    let n = not_root c cs hc in
    let p = path_of (c ∷ cs) in
    skip_middle (path_is_reserved p) (text_eq p slash) (above_any p reserved_mount_paths) n ∙ r
