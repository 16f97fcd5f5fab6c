-- ===== src/Proxy/BanExpression.antt =====
-- internal/proxy/ban_allowlist.go: which ban expressions are passed on.
use cloud_vinyl.Prelude.{
  ℕ, ◌≡◌, refl, ap, ◌∙◌, Bool, true, false, not, ◌||◌, Option, none, some, List, [], ◌∷◌, ◌++◌,
  arith, ℕ_discrete, if◌then◌else◌, Text, codes, text_dec, text_eq, has_prefix, is_space,
  is_regexp_space, fields_by, trim_space, trim_right_start, IsToken, fields_by-token,
}

unfoldable pub is_operator : Text → Bool
is_operator op =
    text_eq op (codes "~")
    || text_eq op (codes "!~")
    || text_eq op (codes "==")
    || text_eq op (codes "!=")

-- `banExprPattern`: its classes `\S` and `\s` are complements, so it matches exactly the texts
-- of three runs of non-spaces of which the second is an operator; groups 1 and 3.
unfoldable pub operands : List Text → Option (Text × Text)
operands (lhs ∷ op ∷ rhs ∷ []) = if is_operator op then some (lhs, rhs) else none
operands other = none

pub data BanError : Type 0 where
  empty_expression bad_format bad_lhs matches_everything : BanError

abbrev pub allowed_prefix : Text
allowed_prefix = codes "obj.http."

-- `wildcardRHS`
unfoldable pub is_wildcard : Text → Bool
is_wildcard rhs = text_eq rhs (codes ".*") || text_eq rhs (codes ".")

unfoldable pub check_operands : Option (Text × Text) → Option BanError
check_operands none = some bad_format
check_operands (some (lhs, rhs)) =
    if not (has_prefix lhs allowed_prefix)
    then some bad_lhs
    else if is_wildcard rhs
    then some matches_everything
    else none

-- `nil` is `none`.
unfoldable pub validate_ban_expression : Text → Option BanError
unfolding operands check_operands is_regexp_space
validate_ban_expression expr =
    if text_eq (trim_space expr) []
    then some empty_expression
    else check_operands (operands (fields_by is_regexp_space [] expr))

-- The three operands of an accepted expression.
pub record IsAllowed (lhs op rhs : Text) : Type 0 where
  pub header : has_prefix lhs allowed_prefix ≡ true
  pub operator : is_operator op ≡ true
  pub narrow : is_wildcard rhs ≡ false

check-IsAllowed :
    (ts : List Text)
    → check_operands (operands ts) ≡ none
    → (lhs : Text) × (op : Text) × (rhs : Text) × (ts ≡ lhs ∷ op ∷ rhs ∷ []) × IsAllowed lhs op rhs
unfolding check_operands operands
check-IsAllowed [] h = ground arith
check-IsAllowed (a ∷ []) h = ground arith
check-IsAllowed (a ∷ b ∷ []) h = ground arith
check-IsAllowed (a ∷ b ∷ c ∷ d ∷ ts) h = ground arith
check-IsAllowed (a ∷ b ∷ c ∷ []) h = (a, b, c, refl, ground arith)

-- What is accepted reads as three operands: a header of the object, an operator, and a pattern
-- that is neither `.` nor `.*`.
validate_ban_expression_sound :
    (expr : Text)
    → validate_ban_expression expr ≡ none
    → (lhs : Text) × (op : Text) × (rhs : Text) × (fields_by is_regexp_space [] expr
        ≡ lhs ∷ op ∷ rhs ∷ [])
      × IsAllowed lhs op rhs
unfolding validate_ban_expression
validate_ban_expression_sound expr h =
    check-IsAllowed (fields_by is_regexp_space [] expr) (ground arith)

-- The operators, and their spelling.
pub data Operator : Type 0 where
  matches differs equals unequal : Operator

abbrev pub spelling : Operator → Text
spelling matches = codes "~"
spelling differs = codes "!~"
spelling equals = codes "=="
spelling unequal = codes "!="

-- "obj.http.<name> <op> <pattern>"
abbrev pub header_ban : Text → Operator → Text → Text
header_ban name op rhs = (allowed_prefix ++ name) ++ (b' ' ∷ (spelling op ++ (b' ' ∷ rhs)))

abbrev pub IsWord : Text → Type 0
IsWord = IsToken is_regexp_space

fields-header_ban :
    (name : Text) (op : Operator) (c : ℕ) (rhs : Text)
    → IsWord name
    → IsWord (c ∷ rhs)
    → fields_by is_regexp_space [] (header_ban name op (c ∷ rhs))
      ≡ (allowed_prefix ++ name) ∷ spelling op ∷ (c ∷ rhs) ∷ []
unfolding is_regexp_space
fields-header_ban name op c rhs hn hr =
    (fields_by-token is_regexp_space b'o' (codes "bj.http." ++ name) b' '
      (spelling op ++ (b' ' ∷ (c ∷ rhs)))
      (refl, (refl, (refl, (refl, (refl, (refl, (refl, (refl, (refl, hn))))))))) refl).0
    ∙ ap (◌∷◌ (allowed_prefix ++ name)) (rest op)
  where
    last : fields_by is_regexp_space [] (c ∷ rhs) ≡ (c ∷ rhs) ∷ []
    last = (fields_by-token is_regexp_space c rhs b' ' [] hr refl).1

    rest :
        (o : Operator)
        → fields_by is_regexp_space [] (spelling o ++ (b' ' ∷ (c ∷ rhs)))
          ≡ spelling o ∷ (c ∷ rhs) ∷ []
    rest matches =
        (fields_by-token is_regexp_space b'~' [] b' ' (c ∷ rhs) (refl, tt) refl).0
        ∙ ap (◌∷◌ (codes "~")) last
    rest differs =
        (fields_by-token is_regexp_space b'!' (codes "~") b' ' (c ∷ rhs) (refl, (refl, tt)) refl).0
        ∙ ap (◌∷◌ (codes "!~")) last
    rest equals =
        (fields_by-token is_regexp_space b'=' (codes "=") b' ' (c ∷ rhs) (refl, (refl, tt)) refl).0
        ∙ ap (◌∷◌ (codes "==")) last
    rest unequal =
        (fields_by-token is_regexp_space b'!' (codes "=") b' ' (c ∷ rhs) (refl, (refl, tt)) refl).0
        ∙ ap (◌∷◌ (codes "!=")) last

pub not_blank : (s : Text) → text_eq (trim_space (b'o' ∷ s)) [] ≡ false
unfolding trim_space is_space
not_blank s = ground (arith, trim_right_start b'o' s refl)

pub checked :
    (name : Text) (op : Operator) (rhs : Text)
    → check_operands (operands ((allowed_prefix ++ name) ∷ spelling op ∷ rhs ∷ []))
      ≡ (if is_wildcard rhs then some matches_everything else none)
unfolding check_operands operands is_operator has_prefix text_dec ℕ_discrete
checked name matches rhs = refl
checked name differs rhs = refl
checked name equals rhs = refl
checked name unequal rhs = refl

-- A ban on a header of the object, written with single spaces, is accepted if its pattern is
-- neither `.` nor `.*`, and refused as matching everything if it is; the header's name has no
-- white space, and the pattern has none and is not empty.
pub validate-header_ban :
    (name : Text) (op : Operator) (c : ℕ) (rhs : Text)
    → IsWord name
    → IsWord (c ∷ rhs)
    → validate_ban_expression (header_ban name op (c ∷ rhs))
      ≡ (if is_wildcard (c ∷ rhs) then some matches_everything else none)
unfolding validate_ban_expression
validate-header_ban name op c rhs hn hr =
    rw (not_blank (codes "bj.http." ++ (name ++ (b' ' ∷ (spelling op ++ (b' ' ∷ (c ∷ rhs))))))) (
      ap (λ ts. check_operands (operands ts)) (fields-header_ban name op c rhs hn hr)
      ∙ checked name op (c ∷ rhs))
