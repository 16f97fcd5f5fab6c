-- ===== src/Agent/VclList.antt =====
-- internal/agent/admin.go, `ActiveVCL`: the name of the active VCL in the output of vcl.list.
pub mod Laws
use cloud_vinyl.Prelude.{
  ℕ, zero, suc, ◌+◌, ◌-◌, ◌*◌, ◌/◌, ◌%◌, ◌^◌, ◌≤◌, ◌<◌, ◌≡◌, refl, sym, ap, ◌∙◌, ◌≢◌, ◌↔◌, ◌⊎◌, inl,
  inr, ite, if_pos, if_neg, Bool, true, false, not, ◌&&◌, ◌||◌, Option, none, some, List, [], ◌∷◌,
  ◌++◌, map, append-nil, append_assoc, map-append, arith, ℕ_discrete, ltb, leb, ◌==◌, if◌then◌else◌,
  ltb→lt, leb→le, le→leb, Bool-cases, is_some, Option-cases, ◌>>=◌, length, length-append, keep,
  length-keep-le, count, count-append, keep-append, keep-length_split, All, All-append, elem,
  Distinct, elem-append, Distinct-snoc, Text, codes, text_dec, text_eq, has_prefix, contains,
  is_space, is_regexp_space, fields_by, fields, trim_left, trim_right, trim_space, is_digit,
  u64_mod, digits_value, parse_uint, ℤ, i64_max, positive_int, atoi, IsToken, fields_by-token,
  lookup, delete, insert, lookup-delete, lookup-insert, lookup-insert_self, lookup-insert_ne,
  next_digits, digits, printed, decimal, IsDigits, decimal-IsDigits, decimal-ne-nil,
  parse_uint-decimal, atoi-decimal,
}

-- `strings.SplitSeq(s, "\n")`
unfoldable pub split_lines : Text → List Text
split_lines [] = [] ∷ []
split_lines (c ∷ s) = elim (split_lines s) [
  | [] ↦ [] ∷ []
  | line ∷ lines ↦ if c == 10 then [] ∷ line ∷ lines else (c ∷ line) ∷ lines
]

-- The name on the row of the active VCL, which has at least five columns.
unfoldable pub row_name : List Text → Option Text
row_name (status ∷ state ∷ temperature ∷ busy ∷ name ∷ more) =
    if text_eq status (codes "active") then some name else none
row_name other = none

unfoldable pub first_active : List Text → Option Text
unfolding row_name
first_active [] = none
first_active (line ∷ lines) = elim (row_name (fields line)) [
  | some name ↦ some name
  | none ↦ first_active lines
]

unfoldable pub active_name : Text → Option Text
unfolding first_active split_lines
active_name body = first_active (split_lines body)
