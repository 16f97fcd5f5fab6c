-- ===== src/Agent/Protocol.antt =====
-- internal/agent/admin.go, `readResponse`: a response of the admin protocol, from the bytes that
-- the connection still holds.
pub mod Laws
use cloud_vinyl.Prelude.{
  pos, negsuc, ℕ, zero, suc, ◌+◌, ◌-◌, ◌*◌, ◌/◌, ◌%◌, ◌^◌, ◌≤◌, ◌<◌, ◌≡◌, refl, sym, ap, ◌∙◌, ◌≢◌,
  ◌↔◌, ◌⊎◌, inl, inr, ite, if_pos, if_neg, Bool, true, false, not, ◌&&◌, ◌||◌, Option, none, some,
  List, [], ◌∷◌, ◌++◌, map, append-nil, append_assoc, map-append, arith, ℕ_discrete, ltb, leb, ◌==◌,
  if◌then◌else◌, ltb→lt, leb→le, le→leb, Bool-cases, is_some, Option-cases, ◌>>=◌, bind_some,
  if_both, length, length-append, keep, length-keep-le, count, count-append, keep-append,
  keep-length_split, All, All-append, elem, Distinct, elem-append, Distinct-snoc, Text, codes,
  text_dec, text_eq, text_eq_refl, text_eq→≡, has_prefix, contains, is_space, is_regexp_space,
  fields_by, fields, trim_left, trim_right, trim_space, is_digit, u64_mod, digits_value, parse_uint,
  ℤ, i64_max, positive_int, atoi, IsToken, fields_by-token, lookup, delete, insert, lookup-delete,
  lookup-insert, lookup-insert_self, lookup-insert_ne, next_digits, digits, printed, decimal,
  IsDigits, decimal-IsDigits, decimal-ne-nil, parse_uint-decimal, atoi-decimal,
}

-- The code, the body and the bytes behind it; or an error; or a panic, for a length of a negative
-- number of bytes, also behind `length+1`. Memory has no bound of its own.
pub data Read : Type 0 where
  response : ℤ → Text → Text → Read
  malformed panics : Read

-- `ReadString('\n')`: the line, without its end, and what follows.
unfoldable pub read_line : Text → Option (Text × Text)
read_line [] = none
read_line (c ∷ s) =
    let rest = read_line s in if c == 10 then some ([], s) else (rest >>= λ r. some (c ∷ r.0, r.1))

-- `io.ReadFull` of so many bytes, and what follows.
unfoldable pub read_full : ℕ → Text → Option (Text × Text)
read_full zero s = some ([], s)
read_full (suc n) [] = none
read_full (suc n) (c ∷ s) = read_full n s >>= λ r. some (c ∷ r.0, r.1)

abbrev drop_one : Text → Text
drop_one [] = []
drop_one (c ∷ s) = s

-- The body has `length` bytes and a newline behind them.
unfoldable pub read_buffer : ℤ → ℕ → Text → Read
unfolding read_full
read_buffer code n s = elim (read_full (suc n) s) [
  | none ↦ malformed
  | some _ ↦ elim (read_full n s) [
    | none ↦ malformed
    | some (body, rest) ↦ response code body (drop_one rest)
  ]
]

unfoldable pub read_body : ℤ → ℤ → Text → Read
unfolding read_buffer
read_body code (negsuc n) s = panics
read_body code (pos n) s = if leb i64_max n then panics else read_buffer code n s

unfoldable pub read_numbers : Option ℤ → Option ℤ → Text → Read
unfolding read_body
read_numbers none length_ s = malformed
read_numbers (some code) none s = malformed
read_numbers (some code) (some n) s = read_body code n s

unfoldable pub read_header : List Text → Text → Read
unfolding read_numbers
read_header [] s = malformed
read_header (a ∷ []) s = malformed
read_header (a ∷ b ∷ more) s = read_numbers (atoi a) (atoi b) s

unfoldable pub read_response : Text → Read
unfolding read_line read_header
read_response s = elim (read_line s) [
  | none ↦ malformed
  | some (header, rest) ↦ read_header (fields header) rest
]

-- What varnishd writes: the code and the length, padded with spaces or not, and the body.
abbrev pub blanks : ℕ → Text
blanks zero = []
blanks (suc n) = b' ' ∷ blanks n

unfoldable pub print_response : ℕ → ℕ → Text → Text
print_response padding code body =
    decimal code
    ++ (b' ' ∷ (decimal (length body) ++ (blanks padding ++ (10 ∷ (body ++ (10 ∷ []))))))
