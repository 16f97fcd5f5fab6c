-- ===== src/Tracer/Traceparent.antt =====
-- internal/tracer/spans/spans.go, `parseTraceparent` and `traceparentRe`.
-- An id is the number that its hexadecimal digits spell, so the all-zero id is 0.
use cloud_vinyl.Prelude.{
  ℕ, zero, suc, ◌+◌, ◌-◌, ◌*◌, ◌%◌, ◌<◌, ◌≡◌, refl, Bool, true, ◌&&◌, ◌||◌, Option, none, some, [],
  ◌∷◌, arith, leb, ◌==◌, if◌then◌else◌, ◌>>=◌, Text, codes, trim_space,
}

pub record Traceparent : Type 0 where
  pub trace_id : ℕ
  pub parent_id : ℕ
  pub sampled : Bool

-- The digits of the character class `[0-9a-f]`.
unfoldable pub hex_digit : ℕ → Option ℕ
hex_digit c =
    if leb b'0' c && leb c b'9'
    then some (c - b'0')
    else if leb b'a' c && leb c b'f'
    then some (c - b'a' + 10)
    else none

-- `[0-9a-f]{n}`: the number read behind `acc`, and what follows.
unfoldable pub take_hex : ℕ → ℕ → Text → Option (ℕ × Text)
unfolding hex_digit
take_hex zero acc s = some (acc, s)
take_hex (suc n) acc [] = none
take_hex (suc n) acc (c ∷ s) = elim (hex_digit c) [
  | none ↦ none
  | some d ↦ take_hex n (acc * 16 + d) s
]

unfoldable pub take_dash : Text → Option Text
take_dash [] = none
take_dash (c ∷ s) = if c == b'-' then some s else none

-- `$`: the end of the text.
abbrev at_end : ℕ → Text → Option ℕ
at_end n [] = some n
at_end n (c ∷ s) = none

-- The four groups of the pattern, as numbers.
unfoldable pub groups : Text → Option (ℕ × ℕ × ℕ × ℕ)
unfolding take_hex take_dash
groups s = do
  (version, s₁) ← take_hex 2 0 s
  s₂ ← take_dash s₁
  (trace, s₃) ← take_hex 32 0 s₂
  s₄ ← take_dash s₃
  (span, s₅) ← take_hex 16 0 s₄
  s₆ ← take_dash s₅
  (flags, s₇) ← take_hex 2 0 s₆
  end ← at_end flags s₇
  some (version, trace, span, end)

-- Version ff and the all-zero ids are refused.
unfoldable pub accept : ℕ × ℕ × ℕ × ℕ → Option Traceparent
accept (version, trace, span, flags) =
    if version == 255 || trace == 0 || span == 0
    then none
    else some (record { trace_id = trace; parent_id = span; sampled = flags % 2 == 1 })

unfoldable pub parse_traceparent : Text → Option Traceparent
unfolding groups accept
parse_traceparent v = groups (trim_space v) >>= accept

-- A parsed header never carries the invalid id 0.
pub parse_traceparent_valid :
    (v : Text) {tp : Traceparent}
    → parse_traceparent v ≡ some tp
    → (0 < tp.trace_id) × (0 < tp.parent_id)
unfolding accept parse_traceparent
parse_traceparent_valid v h = go (groups (trim_space v)) h
  where
    go :
        (g : Option (ℕ × ℕ × ℕ × ℕ)) {tp : Traceparent}
        → (g >>= accept) ≡ some tp
        → (0 < tp.trace_id) × (0 < tp.parent_id)
    go none h = ground arith
    go (some (version, trace, span, flags)) h = ground arith

parse_test :
    parse_traceparent (codes " 00-0000000000000000000000000000002a-0000000000000007-01 ")
    ≡ some (record { trace_id = 42; parent_id = 7; sampled = true })
unfolding parse_traceparent trim_space
parse_test = refl
