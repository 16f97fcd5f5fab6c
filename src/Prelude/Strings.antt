-- ===== src/Prelude/Strings.antt =====
-- A Go string is the list of its bytes; the functions of package strings that the program calls.
use native.Mathlib.Omega.{arith}
use Prim.Native.Char.{code}
use Prim.Native.Nat.{ℕ, ◌+◌, ◌-◌, ◌*◌}
use Prim.Native.String.{String}
use cloud_vinyl.Prelude.Tests.{◌==◌, leb, ltb, if◌then◌else◌}
use cloud_vinyl.Prelude.Lists.{All}
use mathlib.Core.Bool.{Bool, true, false, ◌&&◌, ◌||◌}
use mathlib.Core.List.{
  List, [], ◌∷◌, ◌++◌, cons≢nil, head-eq_of_cons-eq, tail-eq_of_cons-eq, append-nil, append_assoc,
}
use mathlib.Core.Logic.{◌≢◌, ite}
use mathlib.Core.Option.{Option, none, some}
use mathlib.Core.Path.{◌≡◌, refl, sym, ap, ◌∙◌}
use native.Mathlib.Decide.{ℕ_discrete}

abbrev pub Text : Type 0
Text = List ℕ

-- The bytes of an ASCII literal.
abbrev pub codes : String → Text
codes String.[] = []
codes (String.◌∷◌ c s) = code c ∷ codes s

unfoldable pub text_dec : Discrete Text
unfolding ℕ_discrete
text_dec [] [] = yes refl
text_dec [] (b ∷ t) = no (λ e. cons≢nil (sym e))
text_dec (a ∷ s) [] = no (λ e. cons≢nil e)
text_dec (a ∷ s) (b ∷ t) = elim (ℕ_discrete a b) [
  | yes p ↦ elim (text_dec s t) [
    | yes q ↦ yes (λ i. p i ∷ q i)
    | no q ↦ no (λ e. q (tail-eq_of_cons-eq e))
  ]
  | no p ↦ no (λ e. p (head-eq_of_cons-eq e))
]

-- `s == t`
abbrev pub text_eq : Text → Text → Bool
text_eq s t = ite (text_dec s t) true false

pub text_eq_refl : (t : Text) → text_eq t t ≡ true
text_eq_refl t = ground arith

pub text_eq→≡ : (s t : Text) → text_eq s t ≡ true → s ≡ t
text_eq→≡ s t h = ground (arith, h)

-- `strings.HasPrefix(s, p)`
unfoldable pub has_prefix : Text → Text → Bool
has_prefix s [] = true
has_prefix [] (b ∷ p) = false
has_prefix (a ∷ s) (b ∷ p) = a == b && has_prefix s p

-- `strings.Contains(s, p)`
unfoldable pub contains : Text → Text → Bool
unfolding has_prefix
contains [] p = has_prefix [] p
contains (a ∷ s) p = has_prefix (a ∷ s) p || contains s p

-- The ASCII white space of `unicode.IsSpace`.
unfoldable pub is_space : ℕ → Bool
is_space c = c == b' ' || leb 9 c && leb c 13

-- The class `\s` of package regexp.
unfoldable pub is_regexp_space : ℕ → Bool
is_regexp_space c = c == b' ' || c == 9 || c == 10 || c == 12 || c == 13

-- The runs of bytes that are no space, for a test of spaces. `cur` is the run being read.
unfoldable pub fields_by : (ℕ → Bool) → Text → Text → List Text
fields_by space [] [] = []
fields_by space (d ∷ cur) [] = (d ∷ cur) ∷ []
fields_by space [] (c ∷ s) = fields_by space (if space c then [] else c ∷ []) s
fields_by space (d ∷ cur) (c ∷ s) = elim (space c) [
  | true ↦ (d ∷ cur) ∷ fields_by space [] s
  | false ↦ fields_by space (d ∷ (cur ++ c ∷ [])) s
]

-- `strings.Fields(s)`
unfoldable pub fields : Text → List Text
unfolding fields_by is_space
fields s = fields_by is_space [] s

-- `strings.TrimSpace(s)`
unfoldable pub trim_left : Text → Text
unfolding is_space
trim_left [] = []
trim_left (c ∷ s) = if is_space c then trim_left s else c ∷ s

unfoldable pub trim_right : Text → Text
unfolding is_space
trim_right [] = []
trim_right (c ∷ s) = elim (trim_right s) [
  | [] ↦ if is_space c then [] else c ∷ []
  | d ∷ t ↦ c ∷ d ∷ t
]

unfoldable pub trim_space : Text → Text
unfolding trim_left trim_right
trim_space s = trim_right (trim_left s)

-- A text that begins with no white space is not all white space.
pub trim_right_start : (c : ℕ) (s : Text) → is_space c ≡ false → trim_right (c ∷ s) ≢ []
unfolding trim_right
trim_right_start c s h = go (trim_right s)
  where
    go : (t : Text) → elim t [ [] ↦ if is_space c then [] else c ∷ [] | d ∷ u ↦ c ∷ d ∷ u ] ≢ []
    go [] = λ e. ground arith
    go (d ∷ u) = λ e. ground arith

fields_test : fields (codes " req 2  restart") ≡ codes "req" ∷ codes "2" ∷ codes "restart" ∷ []
unfolding fields
fields_test = refl

trim_space_test : trim_space (codes "  a b ") ≡ codes "a b"
unfolding trim_space
trim_space_test = refl

-- A digit of `strconv.ParseUint(s, 10, 64)`.
unfoldable pub is_digit : ℕ → Bool
is_digit c = leb b'0' c && leb c b'9'

abbrev pub u64_mod : ℕ
u64_mod = 18446744073709551616

unfoldable pub digits_value : ℕ → Text → Option ℕ
unfolding is_digit
digits_value n [] = some n
digits_value n (c ∷ s) = elim (is_digit c && ltb (n * 10 + (c - b'0')) u64_mod) [
  | true ↦ digits_value (n * 10 + (c - b'0')) s
  | false ↦ none
]

-- `strconv.ParseUint(s, 10, 64)`: at least one digit, digits alone, a value below 2 ^ 64.
unfoldable pub parse_uint : Text → Option ℕ
unfolding digits_value
parse_uint [] = none
parse_uint (c ∷ s) = digits_value 0 (c ∷ s)

parse_uint_test : parse_uint (codes "18446744073709551615") ≡ some 18446744073709551615
unfolding parse_uint
parse_uint_test = refl

-- A Go int; `negsuc n` is -(n + 1).
pub data ℤ : Type 0 where
  pos : ℕ → ℤ
  negsuc : ℕ → ℤ

abbrev pub i64_max : ℕ
i64_max = 9223372036854775807

negate : ℕ → ℤ
negate n = if n == 0 then pos 0 else negsuc (n - 1)

unfoldable pub positive_int : Option ℕ → Option ℤ
positive_int none = none
positive_int (some n) = if leb n i64_max then some (pos n) else none

negative_int : Option ℕ → Option ℤ
unfolding negate
negative_int none = none
negative_int (some n) = if leb n (i64_max + 1) then some (negate n) else none

-- `strconv.Atoi(s)`: an optional sign, digits, a value that fits an int64.
unfoldable pub atoi : Text → Option ℤ
unfolding parse_uint positive_int negative_int
atoi [] = none
atoi (c ∷ s) =
    if c == b'-'
    then negative_int (parse_uint s)
    else if c == b'+'
    then positive_int (parse_uint s)
    else positive_int (parse_uint (c ∷ s))

atoi_test : atoi (codes "-12") ≡ some (negsuc 11)
unfolding atoi
atoi_test = refl

abbrev pub IsToken : (ℕ → Bool) → Text → Type 0
IsToken space = All (λ c. space c ≡ false)

fields_by-run :
    (space : ℕ → Bool) (d : ℕ) (cur t rest : Text)
    → IsToken space t
    → fields_by space (d ∷ cur) (t ++ rest) ≡ fields_by space (d ∷ (cur ++ t)) rest
unfolding fields_by
fields_by-run space d cur [] rest h = rw append-nil refl
fields_by-run space d cur (c ∷ t) rest h =
    rw (h.0, fields_by)
      (fields_by-run space d (cur ++ c ∷ []) t rest h.1
        ∙ ap (λ u. fields_by space (d ∷ u) rest) (append_assoc cur (c ∷ []) t))

-- A run of bytes that is followed by a space, or by nothing, is the first field.
pub fields_by-token :
    (space : ℕ → Bool) (d : ℕ) (t : Text) (b : ℕ) (rest : Text)
    → IsToken space (d ∷ t)
    → space b ≡ true
    → (fields_by space [] ((d ∷ t) ++ (b ∷ rest)) ≡ (d ∷ t) ∷ fields_by space [] rest)
      × (fields_by space [] (d ∷ t) ≡ (d ∷ t) ∷ [])
unfolding fields_by
fields_by-token space d t b rest h e = (
  rw (h.0, fields_by) (fields_by-run space d [] t (b ∷ rest) h.1 ∙ rw (e, fields_by) refl),
  rw (h.0, fields_by)
      (ap (fields_by space (d ∷ [])) (sym (append-nil t)) ∙ fields_by-run space d [] t [] h.1),
)
