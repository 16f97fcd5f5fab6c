-- ===== src/Tracer/Vsl/Lines.antt =====
-- internal/tracer/vsl/vsl.go: the kinds of lines, by `groupRe` and `recordRe`. Each class of the
-- patterns ends where the next begins, so a greedy run from the left matches as the pattern does.
use cloud_vinyl.Prelude.{
  ℕ, ◌-◌, Bool, not, ◌&&◌, ◌||◌, Option, none, some, [], ◌∷◌, leb, ◌==◌, if◌then◌else◌, ◌>>=◌,
  length, Text, codes, text_eq, is_regexp_space, trim_space, is_digit, u64_mod, parse_uint,
}

pub data Line : Type 0 where
  blank other : Line
  -- The number of stars, the type, and the vxid.
  group_line : ℕ → Text → ℕ → Line
  -- The number of dashes, the tag, and the payload.
  record_line : ℕ → Text → Text → Line

-- `\w`
unfoldable pub is_word : ℕ → Bool
is_word c = is_digit c || leb b'A' c && leb c b'Z' || leb b'a' c && leb c b'z' || c == b'_'

-- The longest run of a class, and the rest.
unfoldable pub run_of : (ℕ → Bool) → Text → Text × Text
run_of p [] = ([], [])
run_of p (c ∷ s) = let (run, rest) = run_of p s in if p c then (c ∷ run, rest) else ([], c ∷ s)

-- A run of at least one.
unfoldable pub some_of : (ℕ → Bool) → Text → Option (Text × Text)
unfolding run_of
some_of p s = elim (run_of p s).0 [ [] ↦ none | c ∷ run ↦ some (run_of p s) ]

-- What stands behind a prefix.
unfoldable pub expect : Text → Text → Option Text
expect [] s = some s
expect (a ∷ p) [] = none
expect (a ∷ p) (c ∷ s) = if a == c then expect p s else none

unfoldable pub at_line_end : Text → Option Text
unfolding run_of is_regexp_space
at_line_end s = elim (run_of is_regexp_space s).1 [ [] ↦ some [] | c ∷ rest ↦ none ]

-- `strconv.ParseUint` returns the greatest value for digits out of range.
unfoldable pub vxid_of_digits : Option ℕ → ℕ
vxid_of_digits (some n) = n
vxid_of_digits none = u64_mod - 1

-- `groupRe`, from its end to its beginning; each step gets what the class before it matched.
unfoldable pub group_ended : ℕ → Text → Text × Text → Option Line
unfolding at_line_end vxid_of_digits
group_ended level type m =
    at_line_end m.1 >>= λ _. some (group_line level type (vxid_of_digits (parse_uint m.0)))

unfoldable pub group_vxid : ℕ → Text → Text × Text → Option Line
unfolding some_of group_ended
group_vxid level type m = some_of is_digit m.1 >>= group_ended level type

unfoldable pub group_closed : ℕ → Text → Text × Text → Option Line
unfolding some_of expect group_vxid
group_closed level type m =
    expect (codes ">>") m.1 >>= λ s. some_of is_regexp_space s >>= group_vxid level type

unfoldable pub group_typed : ℕ → Text × Text → Option Line
unfolding some_of group_closed
group_typed level m = some_of is_regexp_space m.1 >>= group_closed level m.0

unfoldable pub group_opened : ℕ → Text × Text → Option Line
unfolding some_of is_word group_typed
group_opened level m = some_of is_word m.1 >>= group_typed level

unfoldable pub group_begun : ℕ → Text × Text → Option Line
unfolding some_of expect group_opened
group_begun level m =
    expect (codes "<<") m.1 >>= λ s. some_of is_regexp_space s >>= group_opened level

unfoldable pub group_starred : Text × Text → Option Line
unfolding some_of group_begun
group_starred m = some_of is_regexp_space m.1 >>= group_begun (length m.0)

unfoldable pub match_group : Text → Option Line
unfolding some_of group_starred
match_group line = some_of (λ c. c == b'*') line >>= group_starred

-- `recordRe`, likewise.
unfoldable pub record_tagged : ℕ → Text × Text → Option Line
unfolding run_of is_regexp_space
record_tagged level m = some (record_line level m.0 (run_of is_regexp_space m.1).1)

unfoldable pub record_begun : ℕ → Text × Text → Option Line
unfolding some_of record_tagged
record_begun level m = some_of (λ c. not (is_regexp_space c)) m.1 >>= record_tagged level

unfoldable pub record_dashed : Text × Text → Option Line
unfolding some_of record_begun
record_dashed m = some_of is_regexp_space m.1 >>= record_begun (length m.0)

unfoldable pub match_record : Text → Option Line
unfolding some_of record_dashed
match_record line = some_of (λ c. c == b'-') line >>= record_dashed

unfoldable pub or_else : Option Line → Line → Line
or_else (some l) d = l
or_else none d = d

-- The order of the tests of `Next`.
unfoldable pub classify : Text → Line
unfolding match_group match_record trim_space or_else
classify line =
    if text_eq (trim_space line) []
    then blank
    else or_else (match_group line) (or_else (match_record line) other)
