-- ===== src/Tracer/Vsl.antt =====
-- internal/tracer/vsl/vsl.go: transaction groups and the readers of their records.
pub mod Lines
pub mod Parser
pub mod Spine
pub mod RoundTrip
pub mod Print
pub mod Texts
pub mod Fuel
pub mod Tests
use cloud_vinyl.Prelude.{
  ℕ, zero, suc, ◌+◌, ◌-◌, ◌*◌, ◌/◌, ◌%◌, ◌^◌, ◌≤◌, ◌<◌, ◌≡◌, refl, sym, ap, ◌∙◌, ◌≢◌, ◌↔◌, ◌⊎◌, inl,
  inr, ite, if_pos, if_neg, Bool, true, false, not, ◌&&◌, ◌||◌, Option, none, some, List, [], ◌∷◌,
  ◌++◌, map, append-nil, append_assoc, map-append, arith, ℕ_discrete, ltb, leb, ◌==◌, if◌then◌else◌,
  ltb→lt, leb→le, le→leb, Bool-cases, is_some, Option-cases, ◌>>=◌, length, length-append, keep,
  length-keep-le, count, count-append, keep-append, keep-length_split, All, All-append, elem,
  Distinct, elem-append, Distinct-snoc, Text, codes, text_dec, text_eq, has_prefix, contains,
  is_space, is_regexp_space, fields_by, fields, trim_left, trim_right, trim_space, is_digit,
  u64_mod, parse_uint, ℤ, i64_max, atoi, IsToken, fields_by-token, lookup, delete, insert,
  lookup-delete, lookup-insert, lookup-insert_self, lookup-insert_ne, next_digits, digits, printed,
  decimal,
}

pub record Record : Type 0 where
  pub tag : Text
  pub payload : Text

-- `Tx`: type, vxid, records, children. A list of groups is a data type of the same block.
mutual
  pub data Tx : Type 0 where
    tx : Text → ℕ → List Record → Txs → Tx

  pub data Txs : Type 0 where
    nil : Txs
    cons : Tx → Txs → Txs

abbrev pub tx_type : Tx → Text
tx_type (tx type vxid records children) = type

abbrev pub vxid_of : Tx → ℕ
vxid_of (tx type vxid records children) = vxid

abbrev pub records_of : Tx → List Record
records_of (tx type vxid records children) = records

abbrev pub children_of : Tx → Txs
children_of (tx type vxid records children) = children

abbrev pub has_tag : Text → Record → Bool
has_tag tag r = text_eq r.tag tag

-- The loop of `First`.
unfoldable pub first_record : Text → List Record → Option Text
first_record tag [] = none
first_record tag (r ∷ rs) = if has_tag tag r then some r.payload else first_record tag rs

unfoldable pub first : Tx → Text → Option Text
unfolding first_record
first t tag = first_record tag (records_of t)

unfoldable pub has : Tx → Text → Bool
unfolding first
has t tag = is_some (first t tag)

-- The loop of `Last`, which reads the records backwards.
unfoldable pub last_record : Text → List Record → Option Text
last_record tag [] = none
last_record tag (r ∷ rs) = elim (last_record tag rs) [
  | some p ↦ some p
  | none ↦ if has_tag tag r then some r.payload else none
]

unfoldable pub last : Tx → Text → Option Text
unfolding last_record
last t tag = last_record tag (records_of t)

-- `strings.Cut(s, ":")`
unfoldable pub cut_colon : Text → Option (Text × Text)
cut_colon [] = none
cut_colon (c ∷ s) = elim (c == b':') [
  | true ↦ some ([], s)
  | false ↦ elim (cut_colon s) [ none ↦ none | some (k, v) ↦ some (c ∷ k, v) ]
]

lower : ℕ → ℕ
lower c = if leb b'A' c && leb c b'Z' then c + 32 else c

-- `strings.EqualFold` on ASCII names.
unfoldable pub equal_fold : Text → Text → Bool
unfolding lower
equal_fold s t = text_eq (map lower s) (map lower t)

-- What one record contributes to `Header`.
unfoldable pub header_value : Text → Text → Record → Option Text
unfolding cut_colon equal_fold
header_value tag name r = elim (has_tag tag r) [
  | false ↦ none
  | true ↦ elim (cut_colon r.payload) [
    | none ↦ none
    | some (k, v) ↦ if equal_fold (trim_space k) name then some (trim_space v) else none
  ]
]

-- The loop of `Header`: `value` is the last match so far.
unfoldable pub header_from : Text → Text → Option Text → List Record → Option Text
header_from tag name value [] = value
header_from tag name value (r ∷ rs) = elim (header_value tag name r) [
  | none ↦ header_from tag name value rs
  | some v ↦ header_from tag name (some v) rs
]

unfoldable pub header : Tx → Text → Text → Option Text
unfolding header_from header_value
header t tag name = header_from tag name none (records_of t)

-- The text behind a prefix, if the text starts with it.
unfoldable pub strip_prefix : Text → Text → Option Text
strip_prefix s [] = some s
strip_prefix [] (b ∷ p) = none
strip_prefix (a ∷ s) (b ∷ p) = elim (a == b) [ true ↦ strip_prefix s p | false ↦ none ]

-- `parse_time` stands for `strconv.ParseFloat`, `math.Modf` and `time.Unix`: a decimal epoch as
-- a time, or a refusal.
module _ (parse_time : Text → Option ℕ) where
  first_time : List Text → Option ℕ
  first_time [] = none
  first_time (f ∷ fs) = parse_time f

  unfoldable pub timestamp_in : Text → List Record → Option ℕ
  unfolding first_time strip_prefix
  timestamp_in prefix [] = none
  timestamp_in prefix (r ∷ rs) = elim (has_tag (codes "Timestamp") r) [
    | false ↦ timestamp_in prefix rs
    | true ↦ elim (strip_prefix r.payload prefix) [
      | none ↦ timestamp_in prefix rs
      | some rest ↦ first_time (fields rest)
    ]
  ]

  unfoldable pub timestamp : Tx → Text → Option ℕ
  unfolding timestamp_in
  timestamp t label = timestamp_in (label ++ codes ": ") (records_of t)
