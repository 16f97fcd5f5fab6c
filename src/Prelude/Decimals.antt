-- ===== src/Prelude/Decimals.antt =====
-- Decimal numerals, as package fmt prints a count that is not negative.
use Prim.Native.Nat.{ℕ, zero, suc, ◌+◌, ◌-◌, ◌*◌, ◌≤◌, ◌<◌}
use mathlib.Core.Bool.{true}
use mathlib.Core.List.{List, [], ◌∷◌, ◌++◌}
use mathlib.Core.Logic.{◌≢◌}
use mathlib.Core.Option.{some}
use mathlib.Core.Path.{◌≡◌, refl, ◌∙◌, ap}
use native.Mathlib.Omega.{arith}
use cloud_vinyl.Prelude.Lists.{All, All-append}
use cloud_vinyl.Prelude.Tests.{◌==◌, if◌then◌else◌, ◌>>=◌}
use cloud_vinyl.Prelude.Strings.{
  Text, is_digit, digits_value, parse_uint, positive_int, atoi, pos, u64_mod, i64_max,
}

-- One more, on digits with the lowest first.
unfoldable pub next_digits : List ℕ → List ℕ
next_digits [] = 1 ∷ []
next_digits (d ∷ ds) = let carried = next_digits ds in if d == 9 then 0 ∷ carried else suc d ∷ ds

unfoldable pub digits : ℕ → List ℕ
unfolding next_digits
digits zero = 0 ∷ []
digits (suc n) = next_digits (digits n)

-- The digits with the highest first, as characters.
abbrev pub printed : List ℕ → Text
printed [] = []
printed (d ∷ ds) = printed ds ++ ((b'0' + d) ∷ [])

-- `fmt.Sprintf("%d", n)`
unfoldable pub decimal : ℕ → Text
unfolding digits
decimal n = printed (digits n)

-- The number that digits stand for, the lowest first.
abbrev value : List ℕ → ℕ
value [] = 0
value (d ∷ ds) = d + 10 * value ds

value-next_digits : (ds : List ℕ) → value (next_digits ds) ≡ suc (value ds)
unfolding next_digits
value-next_digits [] = refl
value-next_digits (d ∷ ds) = ground (arith, value-next_digits ds)

value-digits : (n : ℕ) → value (digits n) ≡ n
unfolding digits
value-digits zero = refl
value-digits (suc n) = omega (arith, value-next_digits (digits n), value-digits n)

abbrev IsSmall : ℕ → Type 0
IsSmall d = d ≤ 9

next_digits-All : (ds : List ℕ) → All IsSmall ds → All IsSmall (next_digits ds)
unfolding next_digits
next_digits-All [] h = omega arith
next_digits-All (d ∷ ds) h = ground (arith, h, next_digits-All ds h.1)

digits-All : (n : ℕ) → All IsSmall (digits n)
unfolding digits
digits-All zero = omega arith
digits-All (suc n) = next_digits-All (digits n) (digits-All n)

abbrev pub IsDigits : Text → Type 0
IsDigits = All (λ c. is_digit c ≡ true)

printed-IsDigits : (ds : List ℕ) → All IsSmall ds → IsDigits (printed ds)
unfolding is_digit
printed-IsDigits [] h = tt
printed-IsDigits (d ∷ ds) h =
    All-append (λ c. is_digit c ≡ true) (printed ds) ((b'0' + d) ∷ []) (printed-IsDigits ds h.1)
      (ground (arith, h))

pub decimal-IsDigits : (n : ℕ) → IsDigits (decimal n)
unfolding decimal
decimal-IsDigits n = printed-IsDigits (digits n) (digits-All n)

next_digits-ne-nil : (ds : List ℕ) → next_digits ds ≢ []
unfolding next_digits
next_digits-ne-nil [] = λ e. cc
next_digits-ne-nil (d ∷ ds) = λ e. ground (arith, e)

printed-ne-nil : (ds : List ℕ) → ds ≢ [] → printed ds ≢ []
printed-ne-nil [] h = h
printed-ne-nil (d ∷ ds) h = λ e. snoc-ne-nil (printed ds) (b'0' + d) e
  where
    snoc-ne-nil : (s : Text) (c : ℕ) → s ++ (c ∷ []) ≢ []
    snoc-ne-nil [] c = λ e. cc
    snoc-ne-nil (a ∷ s) c = λ e. cc

pub decimal-ne-nil : (n : ℕ) → decimal n ≢ []
unfolding decimal digits
decimal-ne-nil zero = λ e. cc
decimal-ne-nil (suc n) = printed-ne-nil (next_digits (digits n)) (next_digits-ne-nil (digits n))

digits_value-append :
    (n : ℕ) (s t : Text) → digits_value n (s ++ t) ≡ (digits_value n s >>= λ m. digits_value m t)
unfolding digits_value
digits_value-append n [] t = refl
digits_value-append n (c ∷ s) t = ground (arith, digits_value-append (n * 10 + (c - b'0')) s t)

digits_value-printed :
    (ds : List ℕ)
    → All IsSmall ds
    → value ds < u64_mod
    → digits_value 0 (printed ds) ≡ some (value ds)
unfolding digits_value is_digit
digits_value-printed [] h lt = refl
digits_value-printed (d ∷ ds) h lt =
    digits_value-append 0 (printed ds) ((b'0' + d) ∷ [])
    ∙ rw (digits_value-printed ds h.1 (omega (arith, lt))) (ground (arith, h, lt))

parse_uint-digits_value : (t : Text) → t ≢ [] → parse_uint t ≡ digits_value 0 t
unfolding parse_uint
parse_uint-digits_value [] h = absurd (h refl)
parse_uint-digits_value (c ∷ t) h = refl

-- A printed number is read back.
pub parse_uint-decimal : (n : ℕ) → n < u64_mod → parse_uint (decimal n) ≡ some n
unfolding decimal
parse_uint-decimal n lt =
    parse_uint-digits_value (decimal n) (decimal-ne-nil n)
    ∙ digits_value-printed (digits n) (digits-All n) (omega (arith, value-digits n, lt))
    ∙ ap some (value-digits n)

atoi-IsDigits : (t : Text) → IsDigits t → atoi t ≡ positive_int (parse_uint t)
unfolding atoi is_digit parse_uint
atoi-IsDigits [] h = refl
atoi-IsDigits (c ∷ t) h = ground (arith, h)

pub atoi-decimal : (n : ℕ) → n ≤ i64_max → atoi (decimal n) ≡ some (pos n)
unfolding positive_int
atoi-decimal n le =
    atoi-IsDigits (decimal n) (decimal-IsDigits n)
    ∙ rw (parse_uint-decimal n (omega (arith, le))) (ground (arith, le))
